-- ===== src/Blockchain/Manager/Printing.antt =====
-- What models/blockchain/BlockchainManager.go prints of the longest chain.
use Prim.Native.String.{◌++◌ as ◌+++◌}
use decentralized_peerster.Common.{
  ℕ, zero, suc, ◌<◌, ◌≡◌, refl, false, List, [], ◌∷◌, some, String, Bytes, Outcome, ok, out_of_fuel,
  ◌>>=◌, guard_some, get_elem?, arith, if◌then◌else◌, length,
}
use decentralized_peerster.Models.{TxPublish, Block}
use decentralized_peerster.Hashing.{Sha, block_hash}
use decentralized_peerster.Blockchain.Nodes.{
  BlockNode, Nodes, deref, is_fake, fake_block_node, get_block_hash, zero_hash,
}
use decentralized_peerster.Blockchain.Nodes.Heap.{IsTree, new_node, lt-length}
use decentralized_peerster.Blockchain.Manager.{BlockchainManager}
use decentralized_peerster.Blockchain.Manager.Branches.{Branch, stop, step}
use decentralized_peerster.Blockchain.Manager.Invariant.{IsValid}
use decentralized_peerster.Blockchain.Manager.Linking.{get_block_hash-new_node}
use decentralized_peerster.Blockchain.Manager.Pending.{chain-Branch}

-- The loop over the transactions of a block, with no comma after the last.
unfoldable pub print_names : List TxPublish → String
print_names [] = ""
print_names (tx ∷ []) = tx.file.name
print_names (tx ∷ next ∷ txs) = tx.file.name +++ "," +++ print_names (next ∷ txs)

-- `hex` is hex.EncodeToString.
module _ (sha : Sha) (hex : Bytes → String) where
  abbrev pub node_string : BlockNode → Outcome String
  node_string n = do h ← get_block_hash sha n; ok (hex h)

  -- The loop from a node to the fake block, on fuel.
  unfoldable pub print_chain : ℕ → Nodes → ℕ → Outcome String
  print_chain zero nodes cur = out_of_fuel
  print_chain (suc fuel) nodes cur = do
    n ← deref nodes cur
    let line = (do
      b ← guard_some n.block
      mine ← node_string n
      p ← guard_some n.parent
      parent ← deref nodes p
      above ← node_string parent
      rest ← print_chain fuel nodes p
      ok (" " +++ mine +++ ":" +++ above +++ ":" +++ print_names b.transactions +++ rest))
    if is_fake n then ok "" else line

  unfoldable pub print_longest_chain : BlockchainManager → Outcome String
  print_longest_chain bm = do
    line ← print_chain (suc (length bm.nodes)) bm.nodes bm.tail
    ok ("CHAIN" +++ line +++ "\n")

  -- The blocks of a chain from its last one on, each with its hash, the hash of the block before it
  -- and the names of its files.
  abbrev pub last_hash : List Block → Bytes
  last_hash [] = zero_hash
  last_hash (b ∷ bs) = block_hash sha b

  abbrev pub chain_text : List Block → String
  chain_text [] = ""
  chain_text (b ∷ bs) =
      " "
      +++ hex (block_hash sha b)
      +++ ":"
      +++ hex (last_hash bs)
      +++ ":"
      +++ print_names b.transactions
      +++ chain_text bs

  Branch-last_hash :
      (nodes : Nodes)
      → IsTree nodes
      → {c : ℕ} {bs : List Block} → Branch nodes 0 c bs
      → (n : BlockNode) × (get_elem? nodes c ≡ some n) × (get_block_hash sha n ≡ ok (last_hash bs))
  unfolding get_block_hash is_fake
  Branch-last_hash nodes t stop = (fake_block_node, t.rooted, refl)
  Branch-last_hash nodes t (step m q b at q_lt r_lt br) =
      (new_node m q b, at, get_block_hash-new_node sha m q b)

  print_chain-Branch :
      (nodes : Nodes)
      → IsTree nodes
      → (fuel : ℕ) {c : ℕ} {bs : List Block} → Branch nodes 0 c bs
      → c < fuel
      → print_chain fuel nodes c ≡ ok (chain_text bs)
  unfolding print_chain is_fake
  print_chain-Branch nodes t zero br lt = absurd (omega arith)
  print_chain-Branch nodes t (suc fuel) stop lt = rw t.rooted refl
  print_chain-Branch nodes t (suc fuel) {c} (step {bs = bs} m q b at q_lt r_lt br) lt =
      let ih = print_chain-Branch nodes t fuel br (omega arith) in
      let mine = get_block_hash-new_node sha m q b in
      let (p, p_at, above) = Branch-last_hash nodes t br in
      let real : is_fake (new_node m q b) ≡ false = ground arith in
      rw at (rw (mine, p_at, above, ih) (rw real refl))

  -- PrintLongestChain on a valid manager ends without a panic, and prints the blocks of the chain
  -- that ends in the tail, from the last one to the first, each with its hash, the hash of the
  -- block before it, or of zeros for the first, and the names of its files.
  pub print_longest_chain_lem :
      (Seen : Block → Type 0) (bm : BlockchainManager)
      → IsValid sha Seen bm
      → (chain : List Block) × Branch bm.nodes 0 bm.tail chain
        × (print_longest_chain bm ≡ ok ("CHAIN" +++ chain_text chain +++ "\n"))
  unfolding print_longest_chain
  print_longest_chain_lem Seen bm v =
      let (chain, br) = chain-Branch bm.nodes v.tree bm.tail v.tail_node v.tail_at in
      let below = lt-length bm.nodes bm.tail v.tail_node v.tail_at in
      let run =
        print_chain-Branch bm.nodes v.tree (suc (length bm.nodes)) br (omega (arith, below)) in
      (chain, br, rw run refl)
