-- ===== src/Blockchain/Nodes.antt =====
-- models/blockchain/BlockNode.go. The nodes that were ever allocated stand in a list, and a
-- pointer is an index into it: nodes are compared by pointer, and no node changes once it is made.
pub mod Heap
pub mod Ancestors
pub mod Lowest
use decentralized_peerster.Common.{
  ℕ, zero, suc, ◌+◌, Bool, true, false, ◌&&◌, List, [], ◌∷◌, ◌++◌, Option, none, some, Bytes, ltb,
  ◌==◌, if◌then◌else◌, length, get_elem?, Outcome, ok, panic, out_of_fuel, ◌>>=◌, guard_some,
}
use decentralized_peerster.Models.{Block}
use decentralized_peerster.Hashing.{Sha, block_hash}
use decentralized_peerster.Blockchain.Transactions.{TransactionsSet, init_from_slice}

pub record BlockNode : Type 0 where
  pub depth : ℕ
  pub parent : Option ℕ
  pub tx_set : Option TransactionsSet
  pub block : Option Block

abbrev pub Nodes : Type 0
Nodes = List BlockNode

abbrev pub deref : Nodes → ℕ → Outcome BlockNode
deref nodes p = guard_some (get_elem? nodes p)

-- `InitBlockNode`: a new node, at the next address.
unfoldable pub init_block_node : Nodes → ℕ → Block → Outcome (Nodes × ℕ)
init_block_node nodes parent block = do
  p ← deref nodes parent
  ok (
    nodes
        ++ record {
          depth = p.depth + 1;
          parent = some parent;
          tx_set = some (init_from_slice block.transactions);
          block = some block;
        }
          ∷ [],
    length nodes,
  )

abbrev pub fake_block_node : BlockNode
fake_block_node = record { depth = 0; parent = none; tx_set = none; block = none }

abbrev is_none : Option ℕ → Bool
is_none none = true
is_none (some p) = false

unfoldable pub is_fake : BlockNode → Bool
is_fake n = n.depth == 0 && is_none n.parent

abbrev pub zero_bytes : ℕ → Bytes
zero_bytes zero = []
zero_bytes (suc n) = 0 ∷ zero_bytes n

-- `[32]byte{}`
abbrev pub zero_hash : Bytes
zero_hash = zero_bytes 32

unfoldable pub get_block_hash : Sha → BlockNode → Outcome Bytes
get_block_hash sha n =
    if is_fake n then ok zero_hash else (do b ← guard_some n.block; ok (block_hash sha b))

-- `for a != nil && a.depth != b.depth { a = a.parent }`
unfoldable pub climb : ℕ → Nodes → ℕ → Option ℕ → Outcome (Option ℕ)
climb zero nodes depth a = out_of_fuel
climb (suc fuel) nodes depth none = ok none
climb (suc fuel) nodes depth (some a) = do
  n ← deref nodes a
  let rest = climb fuel nodes depth n.parent
  if n.depth == depth then ok (some a) else rest

-- `for a != nil && b != nil && a != b { a = a.parent; b = b.parent }`
unfoldable pub climb_both : ℕ → Nodes → Option ℕ → Option ℕ → Outcome (Option ℕ)
climb_both zero nodes a b = out_of_fuel
climb_both (suc fuel) nodes none b = ok none
climb_both (suc fuel) nodes (some a) none = ok (some a)
climb_both (suc fuel) nodes (some a) (some b) =
    let rest = (do n ← deref nodes a; m ← deref nodes b; climb_both fuel nodes n.parent m.parent) in
    if a == b then ok (some a) else rest

-- `getLSA` from its two loops on, with `b` the node that is not deeper.
get_lsa_from : ℕ → Nodes → ℕ → ℕ → ℕ → Outcome (Option ℕ)
get_lsa_from fuel nodes a b b_depth = do
  a' ← climb fuel nodes b_depth (some a)
  climb_both fuel nodes a' (some b)

-- Each loop goes from a node to a parent, which was made before it, so that one round for each
-- node and one to stop are enough.
unfoldable pub get_lsa : Nodes → ℕ → ℕ → Outcome (Option ℕ)
unfolding get_lsa_from
get_lsa nodes a b = do
  n ← deref nodes a
  m ← deref nodes b
  if ltb n.depth m.depth
      then get_lsa_from (suc (length nodes)) nodes b a n.depth
      else get_lsa_from (suc (length nodes)) nodes a b m.depth
