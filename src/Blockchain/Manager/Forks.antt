-- ===== src/Blockchain/Manager/Forks.antt =====
-- The branches of `appendToTheTree` of models/blockchain/BlockchainManager.go.
use decentralized_peerster.Common.{
  ℕ, suc, ◌≡◌, inl, inr, List, [], ◌∷◌, ◌++◌, some, arith, length, get_elem?, ok, string_key, Bytes,
  bytes_key, length-append,
}
use decentralized_peerster.Map.{insert}
use decentralized_peerster.Models.{Block}
use decentralized_peerster.Hashing.{Sha, block_hash}
use decentralized_peerster.Blockchain.Transactions.{init_from_slice, union, subtract}
use decentralized_peerster.Blockchain.Nodes.{BlockNode, Nodes, get_block_hash, is_fake, zero_hash}
use decentralized_peerster.Blockchain.Nodes.Heap.{
  IsTree, new_node, Made-cases, init_block_node_lem, get_elem?-append_last, lt-length,
}
use decentralized_peerster.Blockchain.Nodes.Lowest.{LowestShared, get_lsa-LowestShared}
use decentralized_peerster.Blockchain.Manager.{
  BlockchainManager, prolong, fork_shorter, fork_longer,
}
use decentralized_peerster.Blockchain.Manager.Branches.{
  Branch, step, Ancestor-Branch, Ancestor-le, Branch-append, fold_sets, along_branch-Branch,
}

module _ (sha : Sha) (bm : BlockchainManager) (b : Block) (q : ℕ) (m : BlockNode)
    (at : get_elem? bm.nodes q ≡ some m) where
  -- The manager with a new node for `b` under the node at `q`.
  abbrev pub linked : BlockchainManager
  linked = record bm {
    nodes = bm.nodes ++ new_node m q b ∷ [];
    blocks = insert (block_hash sha b) (length bm.nodes) bm.blocks;
  }

  pub fork_shorter_lem : fork_shorter sha bm q b ≡ ok linked
  unfolding fork_shorter
  fork_shorter_lem = rw (init_block_node_lem bm.nodes q m b at)

  module _ (t : IsTree bm.nodes) (tail : BlockNode)
      (tail_at : get_elem? bm.nodes bm.tail ≡ some tail) where
    -- The reorganisation: `old` are the blocks that are undone, `new` those that come before `b`
    -- on its chain.
    pub fork_longer_lem :
        (r : ℕ) × (old : List Block) × (new : List Block) × LowestShared bm.nodes bm.tail q r
        × Branch bm.nodes r bm.tail old
        × Branch bm.nodes r q new
        × (fork_longer sha bm q b
            ≡ ok (record linked {
              tail = length bm.nodes;
              pending_tx = fold_sets subtract (fold_sets union bm.pending_tx old) (b ∷ new);
            }))
    unfolding fork_longer
    fork_longer_lem =
        let (r, run, shared) = get_lsa-LowestShared bm.nodes t bm.tail q tail m tail_at at in
        let (old, undo) = Ancestor-Branch bm.nodes t shared.0 in
        let (new, redo) = Ancestor-Branch bm.nodes t shared.1 in
        let nodes' = bm.nodes ++ new_node m q b ∷ [] in
        let lt = lt-length bm.nodes q m at in
        (
          r,
          old,
          new,
          shared,
          undo,
          redo,
          rw (
            run,
            along_branch-Branch union bm.nodes (suc (length bm.nodes)) bm.pending_tx undo
                (omega (arith, lt-length bm.nodes bm.tail tail tail_at)),
            init_block_node_lem bm.nodes q m b at,
            along_branch-Branch subtract nodes' (suc (length nodes'))
                (fold_sets union bm.pending_tx old)
                (step m q b (get_elem?-append_last bm.nodes (new_node m q b)) lt
                  (omega (arith, Ancestor-le bm.nodes t shared.1))
                  (Branch-append bm.nodes (new_node m q b ∷ []) redo))
                (omega (arith, length-append bm.nodes (new_node m q b ∷ []))),
          ),
        )

pub prolong_lem :
    (sha : Sha) (bm : BlockchainManager) (b : Block) (tail : BlockNode)
    (at : get_elem? bm.nodes bm.tail ≡ some tail)
    → prolong sha bm b
      ≡ ok (record (linked sha bm b bm.tail tail at) {
        tail = length bm.nodes;
        pending_tx = subtract bm.pending_tx (init_from_slice b.transactions);
      })
unfolding prolong
prolong_lem sha bm b tail at = rw (
  init_block_node_lem bm.nodes bm.tail tail b at,
  get_elem?-append_last bm.nodes (new_node tail bm.tail b),
)

pub hash_of_node :
    (sha : Sha) (nodes : Nodes) (t : IsTree nodes) (p : ℕ) (n : BlockNode)
    → get_elem? nodes p ≡ some n
    → (h : Bytes) × (get_block_hash sha n ≡ ok h)
unfolding get_block_hash is_fake
hash_of_node sha nodes t p n at = elim (Made-cases nodes p n (t.made p n at)) [
  | inl (z, e) ↦ (zero_hash, rw e)
  | inr (q, m, b, lt, q_at, e) ↦ (block_hash sha b, rw e (ground arith))
]
