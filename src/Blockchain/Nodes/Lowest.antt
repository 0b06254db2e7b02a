-- ===== src/Blockchain/Nodes/Lowest.antt =====
-- What `getLSA` of models/blockchain/BlockNode.go computes.
use mathlib.Core.Path.{subst}
use decentralized_peerster.Common.{
  ℕ, zero, suc, ◌<◌, ◌≤◌, ◌≡◌, ◌≢◌, inl, inr, sym, ap, ◌∙◌, some, arith, length, get_elem?, ok,
  Bool-cases, ◌==◌, ==_iff, ltb,
}
use decentralized_peerster.Blockchain.Nodes.{
  BlockNode, Nodes, climb, climb_both, get_lsa, get_lsa_from,
}
use decentralized_peerster.Blockchain.Nodes.Heap.{IsTree, lt-length, Made-cases}
use decentralized_peerster.Blockchain.Nodes.Ancestors.{
  Ancestor, self, up, Ancestor-parent, Ancestor-depth, Ancestor-at, Ancestor-trans,
}

module _ (nodes : Nodes) where
  -- `a'` is the ancestor of `a` at depth `d`: all ancestors of `a` that are not deeper are its own.
  abbrev pub LevelAt : ℕ → ℕ → ℕ → Type 0
  LevelAt d a a' =
      (n' : BlockNode) × (get_elem? nodes a' ≡ some n')
      × (n'.depth ≡ d)
      × Ancestor nodes a' a
      × ((x : ℕ) (k : BlockNode)
          → get_elem? nodes x ≡ some k
          → k.depth ≤ d
          → Ancestor nodes x a
          → Ancestor nodes x a')
      × (a' ≤ a)

  level_step :
      (d a q a' : ℕ) (n : BlockNode)
      → get_elem? nodes a ≡ some n
      → n.parent ≡ some q
      → q < a
      → d < n.depth
      → LevelAt d q a'
      → LevelAt d a a'
  level_step d a q a' n at e lt deeper (n', at', depth, anc, high, le) = (
    n',
    at',
    depth,
    up n q at e anc,
    λ x k x_at low x_anc. elim (Ancestor-parent nodes n q at e x_anc) [
      | inl same ↦
          let k_n : k ≡ n = ground arith in
          absurd (omega (arith, ap (λ (z : BlockNode). z.depth) k_n))
      | inr anc' ↦ high x k x_at low anc'
    ],
    omega arith,
  )

  climb-LevelAt :
      IsTree nodes
      → (fuel d a : ℕ) (n : BlockNode) → get_elem? nodes a ≡ some n
      → d ≤ n.depth
      → a < fuel
      → (a' : ℕ) × (climb fuel nodes d (some a) ≡ ok (some a')) × LevelAt d a a'
  unfolding climb
  climb-LevelAt t zero d a n at le lt = absurd (omega arith)
  climb-LevelAt t (suc fuel) d a n at le lt = elim (Bool-cases (n.depth == d)) [
    | inl same ↦ (
      a,
      rw (at, same),
      (n, at, (==_iff n.depth d).0 same, self, (λ x k _ _ anc. anc), omega arith),
    )
    | inr deeper ↦ elim (Made-cases nodes a n (t.made a n at)) [
      | inl (z, e) ↦ absurd (ground arith)
      | inr (q, m, b, q_lt, q_at, e) ↦
          let (a', run, level) = climb-LevelAt t fuel d q m q_at (ground arith) (omega arith) in
          (
            a',
            rw (at, deeper, ap (λ (k : BlockNode). k.parent) e) run,
            level_step d a q a' n at (ap (λ (k : BlockNode). k.parent) e) q_lt (ground arith) level,
          )
    ]
  ]

  -- `r` is a common ancestor of `a` and `b`, and has all of their common ancestors above it.
  abbrev pub LowestShared : ℕ → ℕ → ℕ → Type 0
  LowestShared a b r =
      Ancestor nodes r a
      × Ancestor nodes r b
      × ((x : ℕ) → Ancestor nodes x a → Ancestor nodes x b → Ancestor nodes x r)

  -- A node is no ancestor of a parent on its own level.
  not_above :
      IsTree nodes
      → (a q : ℕ) (n m' : BlockNode) → get_elem? nodes a ≡ some n
      → get_elem? nodes q ≡ some m'
      → m'.depth < n.depth
      → ¬ Ancestor nodes a q
  not_above t a q n m' at qt lt anc = omega (arith, Ancestor-depth nodes t n m' at qt anc)

  shared_step :
      IsTree nodes
      → (a b q q' r : ℕ) (n m k k' : BlockNode) → get_elem? nodes a ≡ some n
      → get_elem? nodes b ≡ some m
      → get_elem? nodes q ≡ some k
      → get_elem? nodes q' ≡ some k'
      → n.parent ≡ some q
      → m.parent ≡ some q'
      → k.depth < m.depth
      → k'.depth < n.depth
      → a ≢ b
      → LowestShared q q' r
      → LowestShared a b r
  shared_step t a b q q' r n m k k' at bt qt qt' e e' lt lt' ne (left, right, low) = (
    up n q at e left,
    up m q' bt e' right,
    λ x xa xb. elim (Ancestor-parent nodes n q at e xa) [
      | inl x_a ↦ elim (Ancestor-parent nodes m q' bt e' xb) [
        | inl x_b ↦ absurd (ne (sym x_a ∙ x_b))
        | inr xq' ↦
            absurd (not_above t a q' n k' at qt' lt' (subst (λ z. Ancestor nodes z q') x_a xq'))
      ]
      | inr xq ↦ elim (Ancestor-parent nodes m q' bt e' xb) [
        | inl x_b ↦ absurd (not_above t b q m k bt qt lt (subst (λ z. Ancestor nodes z q) x_b xq))
        | inr xq' ↦ low x xq xq'
      ]
    ],
  )

  climb_both-LowestShared :
      IsTree nodes
      → (fuel a b : ℕ) (n m : BlockNode) → get_elem? nodes a ≡ some n
      → get_elem? nodes b ≡ some m
      → n.depth ≡ m.depth
      → a < fuel
      → (r : ℕ) × (climb_both fuel nodes (some a) (some b) ≡ ok (some r)) × LowestShared a b r
  unfolding climb_both
  climb_both-LowestShared t zero a b n m at bt depth lt = absurd (omega arith)
  climb_both-LowestShared t (suc fuel) a b n m at bt depth lt = elim (Bool-cases (a == b)) [
    | inl same ↦
        let a_b = (==_iff a b).0 same in
        (a, rw same, (self, subst (λ z. Ancestor nodes a z) a_b self, λ x xa xb. xa))
    | inr other ↦ elim (Made-cases nodes a n (t.made a n at)) [
      | inl (z, e) ↦ elim (Made-cases nodes b m (t.made b m bt)) [
        | inl (z', e') ↦ absurd (ground arith)
        | inr (q', k', c', q_lt', q_at', e') ↦ absurd (ground arith)
      ]
      | inr (q, k, c, q_lt, q_at, e) ↦ elim (Made-cases nodes b m (t.made b m bt)) [
        | inl (z', e') ↦ absurd (ground arith)
        | inr (q', k', c', q_lt', q_at', e') ↦
            let n_q = ap (λ (z : BlockNode). z.parent) e in
            let m_q = ap (λ (z : BlockNode). z.parent) e' in
            let n_d = ap (λ (z : BlockNode). z.depth) e in
            let m_d = ap (λ (z : BlockNode). z.depth) e' in
            let (r, run, shared) =
              climb_both-LowestShared t fuel q q' k k' q_at q_at' (omega arith) (omega arith) in
            (
              r,
              rw (other, at, bt, n_q, m_q) run,
              shared_step t a b q q' r n m k k' at bt q_at q_at' n_q m_q (omega arith) (omega arith)
                  (λ ab. ground arith) shared,
            )
      ]
    ]
  ]

  module _ (t : IsTree nodes) where
    from-LowestShared :
        (a b : ℕ) (n m : BlockNode)
        → get_elem? nodes a ≡ some n
        → get_elem? nodes b ≡ some m
        → m.depth ≤ n.depth
        → (r : ℕ) × (get_lsa_from (suc (length nodes)) nodes a b m.depth ≡ ok (some r))
          × LowestShared a b r
    unfolding get_lsa_from
    from-LowestShared a b n m at bt le =
        let (a', run, level) =
          climb-LevelAt t (suc (length nodes)) m.depth a n at le
            (omega (arith, lt-length nodes a n at)) in
        let (n', at', depth, anc, high, a'_le) = level in
        let (r, run', shared) =
          climb_both-LowestShared t (suc (length nodes)) a' b n' m at' bt depth
            (omega (arith, lt-length nodes a' n' at')) in
        let (ra, rb, low) = shared in
        (
          r,
          rw run run',
          (Ancestor-trans nodes ra anc, rb, λ x xa xb. low x (high_of x xb xa a' high) xb),
        )
      where
        high_of :
            (x : ℕ)
            → Ancestor nodes x b
            → Ancestor nodes x a
            → (a' : ℕ)
            → ((x : ℕ) (k : BlockNode)
                → get_elem? nodes x ≡ some k
                → k.depth ≤ m.depth
                → Ancestor nodes x a
                → Ancestor nodes x a')
            → Ancestor nodes x a'
        high_of x xb xa a' high =
            let (k, x_at) = Ancestor-at nodes t m bt xb in
            high x k x_at (Ancestor-depth nodes t k m x_at bt xb) xa

    -- GetLSA of two nodes of a well-formed tree ends, and returns an ancestor of both above which
    -- every shared ancestor of the two stands.
    pub get_lsa-LowestShared :
        (a b : ℕ) (n m : BlockNode)
        → get_elem? nodes a ≡ some n
        → get_elem? nodes b ≡ some m
        → (r : ℕ) × (get_lsa nodes a b ≡ ok (some r)) × LowestShared a b r
    unfolding get_lsa
    get_lsa-LowestShared a b n m at bt = elim (Bool-cases (ltb n.depth m.depth)) [
      | inl swapped ↦
          let (r, run, shared) = from-LowestShared b a m n bt at (ground arith) in
          let (rb, ra, low) = shared in
          (r, rw (at, bt, swapped) run, (ra, rb, λ x xa xb. low x xb xa))
      | inr kept ↦
          let (r, run, shared) = from-LowestShared a b n m at bt (ground arith) in
          (r, rw (at, bt, kept) run, shared)
    ]
