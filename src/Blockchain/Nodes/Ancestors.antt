-- ===== src/Blockchain/Nodes/Ancestors.antt =====
-- Ancestors in the tree of models/blockchain/BlockNode.go.
use mathlib.Core.Path.{subst}
use decentralized_peerster.Common.{ℕ, ◌≤◌, ◌≡◌, ◌⊎◌, inl, inr, refl, ap, some, arith, get_elem?}
use decentralized_peerster.Blockchain.Nodes.{BlockNode, Nodes}
use decentralized_peerster.Blockchain.Nodes.Heap.{IsTree, Made-cases}

-- `a` is `b` or an ancestor of `b`.
pub data Ancestor (nodes : Nodes) (a : ℕ) : ℕ → Type 0 where
  self : Ancestor nodes a a
  up :
      {b : ℕ} (n : BlockNode) (q : ℕ)
      → get_elem? nodes b ≡ some n
      → n.parent ≡ some q
      → Ancestor nodes a q
      → Ancestor nodes a b

module _ (nodes : Nodes) where
  -- An ancestor of a node is the node, or an ancestor of its parent.
  pub Ancestor-cases :
      {x b : ℕ} (n : BlockNode)
      → get_elem? nodes b ≡ some n
      → Ancestor nodes x b
      → (x ≡ b) ⊎ ((q : ℕ) × (n.parent ≡ some q) × Ancestor nodes x q)
  Ancestor-cases n at self = inl refl
  Ancestor-cases n at (up n' q at' e anc) = inr (q, ground arith, anc)

  pub Ancestor-parent :
      {x b : ℕ} (n : BlockNode) (q : ℕ)
      → get_elem? nodes b ≡ some n
      → n.parent ≡ some q
      → Ancestor nodes x b
      → (x ≡ b) ⊎ Ancestor nodes x q
  Ancestor-parent {x} n q at e anc = elim (Ancestor-cases n at anc) [
    | inl same ↦ inl same
    | inr (q', e', anc') ↦
        let q'_q : q' ≡ q = ground arith in inr (subst (λ z. Ancestor nodes x z) q'_q anc')
  ]

  pub Ancestor-depth :
      IsTree nodes
      → {x b : ℕ} (k n : BlockNode) → get_elem? nodes x ≡ some k
      → get_elem? nodes b ≡ some n
      → Ancestor nodes x b
      → k.depth ≤ n.depth
  Ancestor-depth t k n x_at at self =
      let same : k ≡ n = ground arith in omega (arith, ap (λ (z : BlockNode). z.depth) same)
  Ancestor-depth t {b = b} k n x_at at (up n' q at' e anc) =
      elim (Made-cases nodes b n (t.made b n at)) [
        | inl (z, root_e) ↦ absurd (ground arith)
        | inr (q', m, c, lt, q'_at, made_e) ↦
            let q'_q : q' ≡ q = ground arith in
            let q_at : get_elem? nodes q ≡ some m = rw q'_q at q'_at in
            let le = Ancestor-depth t k m x_at q_at anc in
            omega (arith, ap (λ (z : BlockNode). z.depth) made_e)
      ]

  pub Ancestor-at :
      IsTree nodes
      → {x b : ℕ} (n : BlockNode) → get_elem? nodes b ≡ some n
      → Ancestor nodes x b
      → (k : BlockNode) × (get_elem? nodes x ≡ some k)
  Ancestor-at t n at self = (n, at)
  Ancestor-at t {b = b} n at (up n' q at' e anc) = elim (Made-cases nodes b n (t.made b n at)) [
    | inl (z, root_e) ↦ absurd (ground arith)
    | inr (q', m, c, lt, q'_at, made_e) ↦
        let q'_q : q' ≡ q = ground arith in
        let q_at : get_elem? nodes q ≡ some m = rw q'_q at q'_at in Ancestor-at t m q_at anc
  ]

  pub Ancestor-trans : {a b c : ℕ} → Ancestor nodes a b → Ancestor nodes b c → Ancestor nodes a c
  Ancestor-trans h self = h
  Ancestor-trans h (up n q at e anc) = up n q at e (Ancestor-trans h anc)
