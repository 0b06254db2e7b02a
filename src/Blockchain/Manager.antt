-- ===== src/Blockchain/Manager.antt =====
-- models/blockchain/BlockchainManager.go. `AddBlock` and `AddTransaction` hold the mutex from
-- their start to their end, so each is one step on the state. What they log or print is left out.
pub mod Branches
pub mod Claims
pub mod Invariant
pub mod Linking
pub mod Links
pub mod Forks
pub mod Appending
pub mod Waiting
pub mod Adding
pub mod Exchange
pub mod Pending
pub mod Mined
pub mod Printing
pub mod Reorganisation
use decentralized_peerster.Common.{
  ℕ, zero, suc, ◌+◌, ◌-◌, Bool, true, false, ◌||◌, not, List, [], ◌∷◌, ◌++◌, Option, none, some,
  Bytes, bytes_key, bytes_discrete, String, ltb, ◌==◌, if◌then◌else◌, ite, length, get_elem?,
  Outcome, ok, panic, out_of_fuel, ◌>>=◌, guard_some,
}
use decentralized_peerster.Map.{Map, lookup, insert, delete}
use decentralized_peerster.Models.{TxPublish, Block}
use decentralized_peerster.Hashing.{Sha, block_hash, is_good}
use decentralized_peerster.Blockchain.Transactions.{
  TransactionsSet, init_empty, is_some, contains, contains_filename, add, union, subtract, is_empty,
  get_slice_copy,
}
use decentralized_peerster.Blockchain.Nodes.{
  BlockNode, Nodes, deref, init_block_node, fake_block_node, is_fake, zero_hash, get_block_hash,
  get_lsa,
}

-- `nodes` is the heap of block nodes, `tail` and the values of `blocks` are pointers into it.
pub record BlockchainManager : Type 0 where
  pub nodes : Nodes
  pub tail : ℕ
  pub blocks : Map Bytes ℕ
  pub pending_tx : TransactionsSet
  pub no_parent_blocks : Map Bytes Block

abbrev pub init_blockchain_manager : BlockchainManager
init_blockchain_manager = record {
  nodes = fake_block_node ∷ [];
  tail = 0;
  blocks = (zero_hash, 0) ∷ [];
  pending_tx = init_empty;
  no_parent_blocks = [];
}

abbrev pub same_pointer : Option ℕ → Option ℕ → Bool
same_pointer none none = true
same_pointer (some a) (some b) = a == b
same_pointer _ _ = false

-- `for cur := …; cur != lsa; cur = cur.parent { bm.pendingTx.op(cur.txSet) }`
unfoldable pub along_branch :
    (TransactionsSet → TransactionsSet → TransactionsSet)
    → ℕ
    → Nodes
    → Option ℕ
    → Option ℕ
    → TransactionsSet
    → Outcome TransactionsSet
along_branch op zero nodes lsa cur pending = out_of_fuel
along_branch op (suc fuel) nodes lsa cur pending =
    let rest = (do
      c ← guard_some cur
      n ← deref nodes c
      txs ← guard_some n.tx_set
      along_branch op fuel nodes lsa n.parent (op pending txs)) in
    if same_pointer cur lsa then ok pending else rest

-- A new node under `parent`, entered under the block's hash: the heap, the table and the pointer.
link_block : Sha → BlockchainManager → ℕ → Block → Outcome (BlockchainManager × ℕ)
link_block sha bm parent block = do
  (nodes, p) ← init_block_node bm.nodes parent block
  ok (record bm { nodes = nodes; blocks = insert (block_hash sha block) p bm.blocks }, p)

module _ (sha : Sha) where
  -- The first branch of `appendToTheTree`: the block prolongs the longest chain.
  pub prolong : BlockchainManager → Block → Outcome BlockchainManager
  unfolding link_block
  prolong bm block = do
    (bm', p) ← link_block sha bm bm.tail block
    n ← deref bm'.nodes p
    txs ← guard_some n.tx_set
    ok (record bm' { tail = p; pending_tx = subtract bm'.pending_tx txs })

  -- The second branch: the block's chain stays the shorter one.
  pub fork_shorter : BlockchainManager → ℕ → Block → Outcome BlockchainManager
  unfolding link_block
  fork_shorter bm parent block = do (bm', p) ← link_block sha bm parent block; ok bm'

  -- The last branch: the block's chain becomes the longest. The transactions of the undone blocks
  -- are pending again, those of the new chain are not.
  pub fork_longer : BlockchainManager → ℕ → Block → Outcome BlockchainManager
  unfolding link_block
  fork_longer bm parent block = do
    lsa ← get_lsa bm.nodes bm.tail parent
    undone ← along_branch union (suc (length bm.nodes)) bm.nodes lsa (some bm.tail) bm.pending_tx
    (bm', p) ← link_block sha bm parent block
    applied ← along_branch subtract (suc (length bm'.nodes)) bm'.nodes lsa (some p) undone
    ok (record bm' { tail = p; pending_tx = applied })

  unfoldable pub append_to_the_tree : BlockchainManager → Block → Outcome BlockchainManager
  unfolding prolong fork_shorter fork_longer
  append_to_the_tree bm block = do
    tail ← deref bm.nodes bm.tail
    tail_hash ← get_block_hash sha tail
    ite (bytes_discrete block.prev_hash tail_hash) (prolong bm block) (do
      parent ← guard_some (lookup block.prev_hash bm.blocks)
      n ← deref bm.nodes parent
      if ltb n.depth tail.depth then fork_shorter bm parent block else fork_longer bm parent block)

  -- The loop of `checkPendingBlocks` over the entries of `noParentBlocks`.
  unfoldable pub check_entries :
      Map Bytes Block → BlockchainManager → Bool → Outcome (BlockchainManager × Bool)
  check_entries [] bm changed = ok (bm, changed)
  check_entries ((hash, block) ∷ es) bm changed =
      let skipped = check_entries es bm changed in
      let moved = (do
        bm' ←
            append_to_the_tree (record bm { no_parent_blocks = delete hash bm.no_parent_blocks })
              block
        check_entries es bm' true) in
      if is_some (lookup hash bm.blocks) then moved else skipped

  unfoldable pub check_pending_blocks : BlockchainManager → Outcome (BlockchainManager × Bool)
  check_pending_blocks bm = check_entries bm.no_parent_blocks bm false

  -- `for bm.checkPendingBlocks() { }`. A round that goes on has taken a block off the waiting
  -- list, so that one round for each waiting block and one to stop are enough.
  unfoldable pub settle : ℕ → BlockchainManager → Outcome BlockchainManager
  settle zero bm = out_of_fuel
  settle (suc fuel) bm = do
    (bm', changed) ← check_pending_blocks bm
    let rest = settle fuel bm'
    if changed then rest else ok bm'

  unfoldable pub add_block : BlockchainManager → Block → Outcome (BlockchainManager × Bool)
  add_block bm block =
      if is_some (lookup (block_hash sha block) bm.blocks)
      then ok (bm, false)
      else if not (is_good sha block)
      then ok (bm, false)
      else if not (is_some (lookup block.prev_hash bm.blocks))
      then ok (
        record bm { no_parent_blocks = insert (block_hash sha block) block bm.no_parent_blocks },
        false,
      )
      else (do
        bm' ← append_to_the_tree bm block
        bm'' ← settle (suc (length bm'.no_parent_blocks)) bm'
        ok (bm'', true))

-- The loop of `AddTransaction`: is the name taken in the chain that ends in this node?
unfoldable pub chain_contains : ℕ → Nodes → ℕ → TxPublish → Outcome Bool
chain_contains zero nodes cur tx = out_of_fuel
chain_contains (suc fuel) nodes cur tx = do
  n ← deref nodes cur
  let next = (do
    txs ← guard_some n.tx_set
    let rest = (do p ← guard_some n.parent; chain_contains fuel nodes p tx)
    if contains txs tx || contains_filename txs tx.file.name then ok true else rest)
  if is_fake n then ok false else next

unfoldable pub add_transaction : BlockchainManager → TxPublish → Outcome (BlockchainManager × Bool)
add_transaction bm tx =
    if contains bm.pending_tx tx || contains_filename bm.pending_tx tx.file.name
    then ok (bm, false)
    else (do
      taken ← chain_contains (length bm.nodes) bm.nodes bm.tail tx
      if taken
          then ok (bm, false)
          else ok (record bm { pending_tx = (add bm.pending_tx tx).0 }, true))

-- `GetBlockNumber`, without the fake block.
unfoldable pub get_block_number : BlockchainManager → ℕ
get_block_number bm = length bm.blocks - 1

-- A block that `DoMining` builds from the current tail and pending transactions.
abbrev pub candidate : Bytes → TransactionsSet → Bytes → Block
candidate tail_hash pending nonce = record {
  prev_hash = tail_hash;
  nonce = nonce;
  transactions = get_slice_copy pending;
}

-- One round of the loop of `DoMining`, with the nonce that it drew. The first test reads the
-- state without the lock, so it may see another state than the one that is locked after it.
unfoldable pub mining_round :
    Sha → Bytes → BlockchainManager → BlockchainManager → Outcome (BlockchainManager × Option Block)
mining_round sha nonce seen bm = if is_empty seen.pending_tx then ok (bm, none) else (do
  seen_tail ← deref seen.nodes seen.tail
  seen_hash ← get_block_hash sha seen_tail
  if not (is_good sha (candidate seen_hash seen.pending_tx nonce)) then ok (bm, none) else (do
    tail ← deref bm.nodes bm.tail
    tail_hash ← get_block_hash sha tail
    let block = candidate tail_hash bm.pending_tx nonce
    if not (is_good sha block) || is_empty bm.pending_tx then ok (bm, none) else (do
      (nodes, p) ← init_block_node bm.nodes bm.tail block
      ok (
        record bm {
          nodes = nodes;
          tail = p;
          blocks = insert (block_hash sha block) p bm.blocks;
          pending_tx = init_empty;
        },
        some block,
      ))))
