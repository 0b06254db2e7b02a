-- ===== src/Blockchain/Manager/Appending.antt =====
-- `appendToTheTree` of models/blockchain/BlockchainManager.go as a whole.
use decentralized_peerster.Common.{
  ℕ, ◌+◌, ◌≤◌, ◌≡◌, ◌⊎◌, inl, inr, refl, true, List, [], ◌∷◌, ◌++◌, some, arith, length, get_elem?,
  ok, string_key, Bytes, bytes_key, bytes_discrete, Bool-cases, Option-cases, ltb, ltb→lt,
  if◌then◌else◌, if_pos, if_neg,
}
use decentralized_peerster.Map.{IsMap, lookup, lookup-insert}
use decentralized_peerster.Models.{Block}
use decentralized_peerster.Hashing.{Sha, block_hash, is_good}
use decentralized_peerster.Blockchain.Transactions.{
  TransactionsSet, init_from_slice, union, subtract, is_some,
}
use decentralized_peerster.Blockchain.Transactions.Laws.{subtract-IsMap, contains-subtract}
use decentralized_peerster.Blockchain.Nodes.{BlockNode, get_block_hash}
use decentralized_peerster.Blockchain.Nodes.Heap.{new_node, get_elem?-append, get_elem?-append_last}
use decentralized_peerster.Blockchain.Manager.{
  BlockchainManager, fork_shorter, fork_longer, append_to_the_tree,
}
use decentralized_peerster.Blockchain.Manager.Branches.{
  Branch, Branch-append, fold_sets, fold_union-IsMap, fold_subtract-IsMap,
}
use decentralized_peerster.Blockchain.Manager.Claims.{
  ClaimsOnce, IsApart, stays-IsApart, prolong-IsApart, fork-IsApart,
}
use decentralized_peerster.Blockchain.Manager.Forks.{
  linked, fork_shorter_lem, fork_longer_lem, prolong_lem, hash_of_node,
}
use decentralized_peerster.Blockchain.Manager.Invariant.{IsValid}
use decentralized_peerster.Blockchain.Manager.Linking.{
  link-IsValid, nodes', blocks', new_known, still_known, get_block_hash-new_node,
}

module _ (sha : Sha) (Seen : Block → Type 0) where
  -- `bm'` is `bm` with one more block in its tree.
  pub record Extends (bm : BlockchainManager) (v : IsValid sha Seen bm) (b : Block)
      (bm' : BlockchainManager) : Type 0 where
    pub valid : IsValid sha Seen bm'
    pub not_shorter :
        (t : BlockNode) → get_elem? bm'.nodes bm'.tail ≡ some t → v.tail_node.depth ≤ t.depth
    pub added : is_some (lookup (block_hash sha b) bm'.blocks) ≡ true
    pub keeps :
        (h : Bytes) → is_some (lookup h bm.blocks) ≡ true → is_some (lookup h bm'.blocks) ≡ true
    pub only :
        (h : Bytes)
        → is_some (lookup h bm'.blocks) ≡ true
        → (is_some (lookup h bm.blocks) ≡ true) ⊎ (h ≡ block_hash sha b)
    pub same_waiting : bm'.no_parent_blocks ≡ bm.no_parent_blocks

  module _ (bm : BlockchainManager) (v : IsValid sha Seen bm) (b : Block) (b_seen : Seen b)
      (good : is_good sha b ≡ true)
      (has_parent : is_some (lookup b.prev_hash bm.blocks) ≡ true) where
    extends :
        (q : ℕ) (m : BlockNode) (at : get_elem? bm.nodes q ≡ some m) (tail' : ℕ)
        (pending' : TransactionsSet) (t : BlockNode)
        → get_elem? (nodes' sha Seen bm v q m b at) tail' ≡ some t
        → get_block_hash sha m ≡ ok b.prev_hash
        → v.tail_node.depth ≤ t.depth
        → m.depth + 1 ≤ t.depth
        → ((h : Bytes)
            → get_block_hash sha t ≡ ok h
            → is_some (lookup h (blocks' sha Seen bm v q m b at)) ≡ true)
        → (ClaimsOnce (nodes' sha Seen bm v q m b at)
            → IsApart (nodes' sha Seen bm v q m b at) tail' pending')
        → IsMap pending'
        → Extends bm v b (record (linked sha bm b q m at) { tail = tail'; pending_tx = pending' })
    extends q m at tail' pending' t t_at hash old_le new_le t_known apart p = record {
      valid =
          link-IsValid sha Seen bm v q m b at tail' t pending' bm.no_parent_blocks t_at old_le
            new_le t_known has_parent hash good b_seen apart p v.waiting;
      not_shorter = λ t' e. let same : t' ≡ t = cc in rw same old_le;
      added = new_known sha Seen bm v q m b at;
      keeps = still_known sha Seen bm v q m b at;
      only = λ h e.
          ground (arith, lookup-insert {V = ℕ} (block_hash sha b) h (length bm.nodes) bm.blocks);
      same_waiting = refl;
    }

    new_tail_known :
        (q : ℕ) (m : BlockNode) (at : get_elem? bm.nodes q ≡ some m) (h : Bytes)
        → get_block_hash sha (new_node m q b) ≡ ok h
        → is_some (lookup h (blocks' sha Seen bm v q m b at)) ≡ true
    new_tail_known q m at h e =
        let same : h ≡ block_hash sha b = cc (get_block_hash-new_node sha m q b) in
        rw same (new_known sha Seen bm v q m b at)

    -- What is pending is apart before, if no chain claims twice afterwards.
    before :
        (q : ℕ) (m : BlockNode)
        → ClaimsOnce (bm.nodes ++ new_node m q b ∷ [])
        → IsApart bm.nodes bm.tail bm.pending_tx
    before q m once =
        v.apart (λ c chain br. once c chain (Branch-append bm.nodes (new_node m q b ∷ []) br))

    forked :
        (q : ℕ) (m : BlockNode) (at : get_elem? bm.nodes q ≡ some m) (r : ℕ) (old new : List Block)
        → Branch bm.nodes r bm.tail old
        → Branch bm.nodes r q new
        → ClaimsOnce (bm.nodes ++ new_node m q b ∷ [])
        → IsApart
            (bm.nodes ++ new_node m q b ∷ [])
            (length bm.nodes)
            (fold_sets subtract (fold_sets union bm.pending_tx old) (b ∷ new))
    forked q m at r old new undo redo once =
        let apart = before q m once in
        fork-IsApart bm.nodes bm.tail q m b bm.pending_tx apart at r old new undo redo
          (once bm.tail apart.0 (Branch-append bm.nodes (new_node m q b ∷ []) apart.1))

    -- The branch that `appendToTheTree` takes for a block under the node at `q`.
    below_parent :
        (q : ℕ) (m : BlockNode)
        → lookup b.prev_hash bm.blocks ≡ some q
        → get_elem? bm.nodes q ≡ some m
        → m.depth ≤ v.tail_node.depth
        → get_block_hash sha m ≡ ok b.prev_hash
        → (bm' : BlockchainManager) × ((if ltb m.depth v.tail_node.depth
              then fork_shorter sha bm q b
              else fork_longer sha bm q b)
            ≡ ok bm')
          × Extends bm v b bm'
    below_parent q m e at le hash = elim (Bool-cases (ltb m.depth v.tail_node.depth)) [
      | inl shorter ↦ (
        linked sha bm b q m at,
        rw shorter (fork_shorter_lem sha bm b q m at),
        extends q m at bm.tail bm.pending_tx v.tail_node
            (get_elem?-append bm.nodes (new_node m q b ∷ []) bm.tail v.tail_node v.tail_at) hash
            (omega arith) (omega (arith, ltb→lt _ _ shorter))
            (λ h h_e. still_known sha Seen bm v q m b at h (v.tail_known h h_e))
            (λ once. stays-IsApart bm.nodes bm.tail q m b bm.pending_tx (before q m once))
            v.pending,
      )
      | inr not_shorter ↦
          let (r, old, new, shared, undo, redo, run) =
            fork_longer_lem sha bm b q m at v.tree v.tail_node v.tail_at in
          let undone = fold_sets union bm.pending_tx old in
          (
            record (linked sha bm b q m at) {
              tail = length bm.nodes;
              pending_tx = fold_sets subtract undone (b ∷ new);
            },
            rw not_shorter run,
            extends q m at (length bm.nodes) (fold_sets subtract undone (b ∷ new)) (new_node m q b)
                (get_elem?-append_last bm.nodes (new_node m q b)) hash (ground arith) (omega arith)
                (new_tail_known q m at) (forked q m at r old new undo redo)
                (fold_subtract-IsMap undone (b ∷ new)
                  (fold_union-IsMap bm.pending_tx old v.pending)),
          )
    ]

    -- A block whose parent is known is appended: no pointer of the walk is nil, and the loops
    -- stop.
    pub append_to_the_tree-Extends :
        (bm' : BlockchainManager) × (append_to_the_tree sha bm b ≡ ok bm') × Extends bm v b bm'
    unfolding append_to_the_tree
    append_to_the_tree-Extends =
        let (h, h_e) = hash_of_node sha bm.nodes v.tree bm.tail v.tail_node v.tail_at in
        elim (bytes_discrete b.prev_hash h) [
          | yes same ↦ (
            record (linked sha bm b bm.tail v.tail_node v.tail_at) {
              tail = length bm.nodes;
              pending_tx = subtract bm.pending_tx (init_from_slice b.transactions);
            },
            rw (v.tail_at, h_e, if_pos (bytes_discrete b.prev_hash h) same)
                (prolong_lem sha bm b v.tail_node v.tail_at),
            extends bm.tail v.tail_node v.tail_at (length bm.nodes)
                (subtract bm.pending_tx (init_from_slice b.transactions))
                (new_node v.tail_node bm.tail b)
                (get_elem?-append_last bm.nodes (new_node v.tail_node bm.tail b)) (rw same h_e)
                (omega arith) (omega arith) (new_tail_known bm.tail v.tail_node v.tail_at)
                (λ once.
                  prolong-IsApart bm.nodes bm.tail bm.tail v.tail_node b bm.pending_tx
                    (before bm.tail v.tail_node once) v.tail_at
                    (subtract bm.pending_tx (init_from_slice b.transactions)) refl
                    (λ name e. ground (arith, contains-subtract name bm.pending_tx b.transactions)))
                (subtract-IsMap bm.pending_tx (init_from_slice b.transactions) v.pending),
          )
          | no other ↦ elim (Option-cases (lookup b.prev_hash bm.blocks)) [
            | inl gone ↦ absurd (ground arith)
            | inr (q, e) ↦
                let (m, at, le, hash) = v.known b.prev_hash q e in
                let (bm', run, ext) = below_parent q m e at le hash in
                (
                  bm',
                  rw (v.tail_at, h_e, if_neg (bytes_discrete b.prev_hash h) other, e, at) run,
                  ext,
                )
          ]
        ]
