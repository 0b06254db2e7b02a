-- ===== src/Storage/Diff.antt =====
-- What the second loop of `Diff` of models/MessageStorage.go finds out, and the whole function.
use decentralized_peerster.Common.{
  ℕ, ◌<◌, ◌≤◌, ◌≡◌, ◌⊎◌, refl, Bool, true, false, ◌||◌, List, [], ◌∷◌, Option, none, some, arith,
  string_discrete, string_key, String, All, inl, inr, ltb, ltb→lt, ok, Bool-cases, Option-cases,
}
use decentralized_peerster.Map.{
  Map, insert, get_or, lookup, lookup-insert, Found, Found-entries, All-lookup,
}
use decentralized_peerster.Models.{RumorMessage, PeerStatus, StatusPacket, dec32}
use decentralized_peerster.Storage.{MessageStorage, clock_of, Scan, scan_mine, scan_own, diff}
use decentralized_peerster.Storage.Invariant.{IsValid}
use decentralized_peerster.Storage.Theirs.{
  Unlisted, Stored, Covers, any_ahead, DiffSpec, others_of, TheirsSpec, read_below_clock,
  scan_theirs-TheirsSpec,
}

abbrev MineSpec :
    MessageStorage → List PeerStatus → Map String ℕ → Option RumorMessage → Bool → Type 0
MineSpec ms want es (some m) f = Stored ms m × Unlisted m.original_name want × (m.id ≡ 1)
MineSpec ms want es none f =
    All (λ e. e.1 ≤ get_or e.0 0 (others_of want [])) es × (f ≡ any_ahead ms want)

module _ (ms : MessageStorage) (v : IsValid ms) where
  grow :
      (name : String) (next_id : ℕ) (want : List PeerStatus) (es : Map String ℕ)
      (m : Option RumorMessage) (f : Bool)
      → ltb (get_or name 0 (others_of want [])) next_id ≡ false
      → MineSpec ms want es m f
      → MineSpec ms want ((name, next_id) ∷ es) m f
  grow name next_id want es (some m) f le spec = spec
  grow name next_id want es none f le spec = ((ground arith, spec.0), spec.1)

  -- What `othersMap` holds for a name: the last listed value, or nothing.
  Named : String → List PeerStatus → Map String ℕ → Type 0
  Named name ps o =
      let theirs : ℕ = get_or name 0 (others_of ps o) in
      (Unlisted name ps × (theirs ≡ get_or name 0 o))
      ⊎ ((clock_of ms name ≤ theirs) × (clock_of ms name < theirs → any_ahead ms ps ≡ true))

  Named-others :
      (name : String) (ps : List PeerStatus) (o : Map String ℕ)
      → All (Covers ms) ps
      → Named name ps o
  unfolding others_of Named
  Named-others name [] o all = inl (tt, refl)
  Named-others name (p ∷ ps) o all =
      let ih = Named-others name ps (insert p.identifier (dec32 p.next_id) o) all.1 in
      let at = lookup-insert {V = ℕ} p.identifier name (dec32 p.next_id) o in
      elim ih [
        | inl (unlisted, e) ↦ elim (string_discrete p.identifier name) [
          | yes same ↦ inr (ground arith, λ lt. ground arith)
          | no other ↦ inl ((other, unlisted), ground arith)
        ]
        | inr (covered, ahead) ↦ inr (covered, λ lt. ground (arith, ahead lt))
      ]

  flag_kept :
      (want : List PeerStatus) (name : String) (next_id : ℕ)
      → All (Covers ms) want
      → clock_of ms name ≡ next_id
      → (any_ahead ms want || ltb next_id (get_or name 0 (others_of want []))) ≡ any_ahead ms want
  unfolding Named lookup
  flag_kept want name next_id all clock = ground (arith, Named-others name want [] all)

  Unlisted-more :
      (want : List PeerStatus) (name : String) (next_id : ℕ)
      → All (Covers ms) want
      → clock_of ms name ≡ next_id
      → get_or name 0 (others_of want []) < next_id
      → Unlisted name want × (get_or name 0 (others_of want []) ≡ 0)
  unfolding Named lookup
  Unlisted-more want name next_id all clock more = elim (Named-others name want [] all) [
    | inl u ↦ u
    | inr c ↦ absurd (omega (arith, c.0))
  ]

  scan_mine-MineSpec :
      (want : List PeerStatus) (es : Map String ℕ)
      → All (Covers ms) want
      → All (λ e. clock_of ms e.0 ≡ e.1) es
      → (m : Option RumorMessage) × (f : Bool) × (scan_mine ms
            (others_of want [])
            es
            (any_ahead ms want)
          ≡ ok (m, f))
        × MineSpec ms want es m f
  unfolding scan_mine
  scan_mine-MineSpec want [] all clocks = (none, any_ahead ms want, refl, (tt, refl))
  scan_mine-MineSpec want ((name, next_id) ∷ es) all clocks =
      let theirs = get_or name 0 (others_of want []) in
      elim (Bool-cases (ltb theirs next_id)) [
        | inl more ↦
            let lt = ltb→lt theirs next_id more in
            let (unlisted, zero_id) = Unlisted-more want name next_id all clocks.0 lt in
            let (m, e, origin, id) = read_below_clock ms v name theirs (omega (arith, clocks.0)) in
            (
              some m,
              any_ahead ms want,
              rw (more, e),
              (
                (theirs, rw origin (omega (arith, clocks.0)), rw origin e),
                rw origin unlisted,
                omega arith,
              ),
            )
        | inr le ↦
            let (m, f, e, spec) = scan_mine-MineSpec want es all clocks.1 in
            (
              m,
              f,
              rw (le, flag_kept want name next_id all clocks.0) e,
              grow name next_id want es m f le spec,
            )
      ]

  own_clocks :
      (es : Map String ℕ) → All (Found ms.vector_clock) es → All (λ e. clock_of ms e.0 ≡ e.1) es
  own_clocks [] all = tt
  own_clocks (e ∷ es) all = (ground arith, own_clocks es all.1)

  Unlisted-others :
      (name : String) (ps : List PeerStatus) (o : Map String ℕ)
      → Unlisted name ps
      → get_or name 0 (others_of ps o) ≡ get_or name 0 o
  unfolding others_of
  Unlisted-others name [] o u = refl
  Unlisted-others name (p ∷ ps) o u = ground (
    arith,
    Unlisted-others name ps (insert p.identifier (dec32 p.next_id) o) u.1,
    lookup-insert {V = ℕ} p.identifier name (dec32 p.next_id) o,
  )

  Unlisted-clock :
      (want : List PeerStatus) (name : String)
      → All (λ e. e.1 ≤ get_or e.0 0 (others_of want [])) ms.vector_clock
      → Unlisted name want
      → clock_of ms name ≡ 0
  unfolding lookup
  Unlisted-clock want name le u = elim (Option-cases (lookup name ms.vector_clock)) [
    | inl gone ↦ rw gone
    | inr (c, e) ↦ rw e (
        omega (
          arith,
          All-lookup (λ e. e.1 ≤ get_or e.0 0 (others_of want [])) name c ms.vector_clock le e,
          Unlisted-others name want [] u,
        ))
  ]

  finish :
      (want : List PeerStatus) (s : Scan)
      → TheirsSpec ms want [] false s
      → (m : Option RumorMessage) × (f : Bool) × (scan_own ms s ≡ ok (m, f)) × DiffSpec ms want m f
  unfolding scan_own
  finish want (Scan.returned m f) spec = (some m, f, refl, (spec.0, inl spec.1))
  finish want (Scan.finished o f) (all, same, flag) =
      let (m, f', e, spec) =
        scan_mine-MineSpec want ms.vector_clock all
          (own_clocks ms.vector_clock (Found-entries ms.vector_clock v.one_clock)) in
      (m, f', rw (same, flag) e, conclude m f' spec)
    where
      conclude :
          (m : Option RumorMessage) (f' : Bool)
          → MineSpec ms want ms.vector_clock m f'
          → DiffSpec ms want m f'
      conclude (some m) f' spec = (spec.0, inr (spec.1, spec.2))
      conclude none f' spec = (all, λ name u. Unlisted-clock want name spec.0 u, spec.1)

-- On a valid storage Diff always returns (it never indexes out of range); a returned rumor is
-- stored below the clock and is the next one for an entry of the packet, or the first one of an
-- origin that the packet does not list; with no rumor the packet covers every clock, and the flag
-- says whether an entry of the packet is ahead.
pub diff-DiffSpec :
    (ms : MessageStorage) (sp : StatusPacket)
    → IsValid ms
    → (m : Option RumorMessage) × (f : Bool) × (diff ms sp ≡ ok (m, f)) × DiffSpec ms sp.want m f
unfolding diff
diff-DiffSpec ms sp v =
    let (s, e, spec) = scan_theirs-TheirsSpec ms v sp.want [] false in
    let (m, f, e', spec') = finish ms v sp.want s spec in (m, f, rw e e', spec')
