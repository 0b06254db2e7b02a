-- ===== src/Blockchain/Manager/Reorganisation.antt =====
-- The last branch of `appendToTheTree` (models/blockchain/BlockchainManager.go), where a fork
-- becomes the longest chain.
use decentralized_peerster.Common.{
  ℕ, ◌≤◌, ◌≡◌, ◌≢◌, false, ◌&&◌, ◌||◌, not, List, ◌∷◌, some, arith, length, get_elem?, ok,
  bytes_key, bytes_discrete, String, ltb, if_neg, ◌∙◌, refl,
}
use decentralized_peerster.Map.{lookup}
use decentralized_peerster.Models.{Block}
use decentralized_peerster.Hashing.{Sha}
use decentralized_peerster.Blockchain.Transactions.{contains_filename, union, subtract}
use decentralized_peerster.Blockchain.Nodes.{BlockNode, get_block_hash}
use decentralized_peerster.Blockchain.Nodes.Heap.{new_node, get_elem?-append_last}
use decentralized_peerster.Blockchain.Nodes.Lowest.{LowestShared}
use decentralized_peerster.Blockchain.Manager.{BlockchainManager, append_to_the_tree}
use decentralized_peerster.Blockchain.Manager.Branches.{
  Branch, fold_sets, mentioned, contains-fold_union, contains-fold_subtract,
}
use decentralized_peerster.Blockchain.Manager.Invariant.{IsValid}
use decentralized_peerster.Blockchain.Manager.Forks.{linked, fork_longer_lem, hash_of_node}

module _ (sha : Sha) (Seen : Block → Type 0) (bm : BlockchainManager)
    (v : IsValid sha Seen bm) where
  -- The block's node is the new tail; what is pending is what was pending or in an undone block,
  -- less what the new chain mentions.
  pub record Reorganised (b : Block) (q : ℕ) (m : BlockNode) (bm' : BlockchainManager)
      : Type 0 where
    pub shared : ℕ
    pub old : List Block
    pub new : List Block
    pub lowest : LowestShared bm.nodes bm.tail q shared
    pub undone : Branch bm.nodes shared bm.tail old
    pub applied : Branch bm.nodes shared q new
    pub new_tail : get_elem? bm'.nodes bm'.tail ≡ some (new_node m q b)
    pub pending :
        (name : String)
        → contains_filename bm'.pending_tx name ≡ (
            (contains_filename bm.pending_tx name || mentioned name old)
            && not (mentioned name (b ∷ new)))

  -- When a block's known parent is not the tail but at least as deep, appendToTheTree ends without
  -- a panic with the block's node as the tail, and a file name is pending afterwards exactly if it
  -- was pending or is mentioned by a block between the old tail and the lowest shared ancestor,
  -- and is not mentioned by the block or by a block between its parent and that ancestor.
  pub reorganise :
      (b : Block) (q : ℕ) (m t : BlockNode)
      → lookup b.prev_hash bm.blocks ≡ some q
      → get_elem? bm.nodes q ≡ some m
      → get_elem? bm.nodes bm.tail ≡ some t
      → get_block_hash sha t ≢ ok b.prev_hash
      → t.depth ≤ m.depth
      → (bm' : BlockchainManager) × (append_to_the_tree sha bm b ≡ ok bm') × Reorganised b q m bm'
  unfolding append_to_the_tree
  reorganise b q m t e at t_at other deep =
      let (h, h_e) = hash_of_node sha bm.nodes v.tree bm.tail t t_at in
      let differ : ¬ (b.prev_hash ≡ h) = λ same. other (rw same h_e) in
      let (r, old, new, shared, undo, redo, run) = fork_longer_lem sha bm b q m at v.tree t t_at in
      let undone = fold_sets union bm.pending_tx old in
      let not_shorter : ltb m.depth t.depth ≡ false = ground arith in
      (
        record (linked sha bm b q m at) {
          tail = length bm.nodes;
          pending_tx = fold_sets subtract undone (b ∷ new);
        },
        rw (t_at, h_e, if_neg (bytes_discrete b.prev_hash h) differ, e, at, not_shorter) run,
        record {
          shared = r;
          old = old;
          new = new;
          lowest = shared;
          undone = undo;
          applied = redo;
          new_tail = get_elem?-append_last bm.nodes (new_node m q b);
          pending = λ name.
              contains-fold_subtract name undone (b ∷ new)
              ∙ rw (contains-fold_union name bm.pending_tx old) refl;
        },
      )
