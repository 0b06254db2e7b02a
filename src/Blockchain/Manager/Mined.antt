-- ===== src/Blockchain/Manager/Mined.antt =====
-- The file names that a block of `DoMining` claims (models/blockchain/BlockchainManager.go).
use decentralized_peerster.Common.{
  ℕ, ◌≡◌, ◌⊎◌, inl, inr, refl, ap, true, false, List, [], ◌∷◌, ◌++◌, Option, none, some, arith, All,
  Bytes, ok, get_elem?, String, string_key, length,
}
use decentralized_peerster.Map.{lookup}
use decentralized_peerster.Models.{TxPublish, Block}
use decentralized_peerster.Hashing.{Sha}
use decentralized_peerster.Blockchain.Transactions.{
  TransactionsSet, contains_filename, get_slice_copy,
}
use decentralized_peerster.Blockchain.Transactions.Laws.{mentions}
use decentralized_peerster.Blockchain.Nodes.{BlockNode, Nodes, get_block_hash}
use decentralized_peerster.Blockchain.Nodes.Heap.{new_node, get_elem?-append_cases, lt-length}
use decentralized_peerster.Blockchain.Manager.{BlockchainManager, candidate, mining_round}
use decentralized_peerster.Blockchain.Manager.Branches.{Branch, stop, step, mentioned}
use decentralized_peerster.Blockchain.Manager.Claims.{ClaimsOnce, Branch-unique}
use decentralized_peerster.Blockchain.Manager.Invariant.{IsValid}
use decentralized_peerster.Blockchain.Manager.Pending.{Mined, mining_round-Mined}

-- A pending transaction stands under its own file name.
abbrev pub IsNamed : TransactionsSet → Type 0
IsNamed ts = All (λ (e : String × TxPublish). e.1.file.name ≡ e.0) ts

get_slice_copy-mentions :
    (name : String) (ts : TransactionsSet)
    → IsNamed ts
    → mentions name (get_slice_copy ts) ≡ contains_filename ts name
unfolding get_slice_copy contains_filename lookup
get_slice_copy-mentions name [] named = refl
get_slice_copy-mentions name ((k, tx) ∷ ts) named =
    ground (arith, get_slice_copy-mentions name ts named.1, named.0)

module _ (nodes : Nodes) (q : ℕ) (m : BlockNode) (b : Block) (at : get_elem? nodes q ≡ some m) where
  -- A chain after a new node is a chain from before, or the block on the chain of its parent.
  Branch-extend_cases :
      {c : ℕ} {chain : List Block}
      → Branch (nodes ++ new_node m q b ∷ []) 0 c chain
      → (Branch nodes 0 c chain)
        ⊎ ((c ≡ length nodes) × (below : List Block) × (chain ≡ b ∷ below) × Branch nodes 0 q below)
  Branch-extend_cases stop = inl stop
  Branch-extend_cases {c = c} (step {bs = below} m' q' b' at' lt r_lt br) =
      let ih = Branch-extend_cases br in
      let q_lt = lt-length nodes q m at in
      elim (get_elem?-append_cases nodes (new_node m q b) c (new_node m' q' b') at') [
        | inl old ↦ elim ih [
          | inl before ↦ inl (step m' q' b' old lt r_lt before)
          | inr (last, _, _, _) ↦ absurd (omega (arith, lt-length nodes c (new_node m' q' b') old))
        ]
        | inr (c_last, new) ↦
            let q_e : q' ≡ q = ground arith in
            let b_e : b' ≡ b = ground arith in
            elim ih [
              | inl before ↦ inr (c_last, below, ap (λ z. z ∷ below) b_e, rw q_e at before)
              | inr (last, _, _, _) ↦ absurd (omega arith)
            ]
      ]

  -- A block with new names on a chain leaves every name claimed once.
  pub grown-ClaimsOnce :
      ((below : List Block) (name : String)
        → Branch nodes 0 q below
        → mentions name b.transactions ≡ true
        → mentioned name below ≡ false)
      → ClaimsOnce nodes
      → ClaimsOnce (nodes ++ new_node m q b ∷ [])
  grown-ClaimsOnce fresh once c chain br = elim (Branch-extend_cases br) [
    | inl before ↦ once c chain before
    | inr (last, below, e, above) ↦
        rw e ((λ name claimed. fresh below name above claimed), once q below above)
  ]

module _ (sha : Sha) (Seen : Block → Type 0) (bm : BlockchainManager)
    (v : IsValid sha Seen bm) where
  -- A round of DoMining leaves no name claimed twice, if none was.
  pub mining_round-ClaimsOnce :
      (nonce : Bytes) (earlier : BlockchainManager)
      → IsValid sha Seen earlier
      → ((h : Bytes)
          → get_block_hash sha v.tail_node ≡ ok h
          → Seen (candidate h bm.pending_tx nonce))
      → ClaimsOnce bm.nodes
      → IsNamed bm.pending_tx
      → (bm' : BlockchainManager) × (found : Option Block) × (mining_round sha nonce earlier bm
          ≡ ok (bm', found))
        × ClaimsOnce bm'.nodes
  mining_round-ClaimsOnce nonce earlier v' seen once named =
      let (bm', found, run, mined) = mining_round-Mined sha Seen bm v nonce earlier v' seen in
      (bm', found, run, keeps bm' found mined)
    where
      keeps :
          (bm' : BlockchainManager) (found : Option Block)
          → Mined sha Seen bm v bm' found
          → ClaimsOnce bm'.nodes
      keeps bm' none same = rw same once
      keeps bm' (some b) (good, prev, txs, at, grown, emptied, valid) = rw grown (
          grown-ClaimsOnce bm.nodes bm.tail v.tail_node b v.tail_at
            (λ below name br claimed.
              let apart = v.apart once in
              let same = Branch-unique bm.nodes apart.1 br in
              let listed : mentions name (get_slice_copy bm.pending_tx) ≡ true =
                rw txs at claimed in
              rw same at apart.2 name
                (ground (arith, get_slice_copy-mentions name bm.pending_tx named)))
            once)
