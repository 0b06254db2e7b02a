-- ===== src/Storage/Theirs.antt =====
-- What `Diff` of models/MessageStorage.go promises, and what its first loop finds out.
use decentralized_peerster.Common.{
  ℕ, ◌<◌, ◌≤◌, ◌≡◌, ◌≢◌, ◌⊎◌, refl, Bool, false, ◌||◌, List, [], ◌∷◌, Option, none, some, arith,
  string_key, String, get_elem?, All, Any, inl, inr, ltb, ltb→lt, ok, get_elem?_in_range,
  Bool-cases,
}
use decentralized_peerster.Map.{Map, insert}
use decentralized_peerster.Models.{RumorMessage, PeerStatus, inc32, dec32}
use decentralized_peerster.Storage.{MessageStorage, clock_of, messages_of, Scan, scan_theirs}
use decentralized_peerster.Storage.Invariant.{IsValid}

-- The rumor is the one of this origin that comes next for the peer.
abbrev pub NextFor : RumorMessage → PeerStatus → Type 0
NextFor m p = (m.original_name ≡ p.identifier) × (m.id ≡ inc32 (dec32 p.next_id))

abbrev pub Unlisted : String → List PeerStatus → Type 0
Unlisted name = All (λ p. p.identifier ≢ name)

abbrev pub Stored : MessageStorage → RumorMessage → Type 0
Stored ms m =
    (i : ℕ) × (i < clock_of ms m.original_name)
    × (get_elem? (messages_of ms m.original_name) i ≡ some m)

-- The peer has at least as many rumors of this origin.
abbrev pub Covers : MessageStorage → PeerStatus → Type 0
Covers ms p = clock_of ms p.identifier ≤ dec32 p.next_id

abbrev pub any_ahead : MessageStorage → List PeerStatus → Bool
any_ahead ms [] = false
any_ahead ms (p ∷ ps) = ltb (clock_of ms p.identifier) (dec32 p.next_id) || any_ahead ms ps

abbrev pub DiffSpec : MessageStorage → List PeerStatus → Option RumorMessage → Bool → Type 0
DiffSpec ms want (some m) other_has =
    Stored ms m × (Any (NextFor m) want ⊎ (Unlisted m.original_name want × (m.id ≡ 1)))
DiffSpec ms want none other_has =
    All (Covers ms) want
    × ((name : String) → Unlisted name want → clock_of ms name ≡ 0)
    × (other_has ≡ any_ahead ms want)

-- `othersMap` after the first loop.
unfoldable pub others_of : List PeerStatus → Map String ℕ → Map String ℕ
others_of [] others = others
others_of (p ∷ ps) others = others_of ps (insert p.identifier (dec32 p.next_id) others)

abbrev pub TheirsSpec : MessageStorage → List PeerStatus → Map String ℕ → Bool → Scan → Type 0
TheirsSpec ms ps others other_has (Scan.returned m _) = Stored ms m × Any (NextFor m) ps
TheirsSpec ms ps others other_has (Scan.finished others' other_has') =
    All (Covers ms) ps
    × (others' ≡ others_of ps others)
    × (other_has' ≡ (other_has || any_ahead ms ps))

module _ (ms : MessageStorage) (v : IsValid ms) where
  -- Below the clock an index is in range, and holds the rumor with that id.
  pub read_below_clock :
      (name : String) (i : ℕ)
      → i < clock_of ms name
      → (m : RumorMessage) × (get_elem? (messages_of ms name) i ≡ some m)
        × (m.original_name ≡ name)
        × (m.id ≡ inc32 i)
  read_below_clock name i h =
      let (m, e) = get_elem?_in_range (messages_of ms name) i (omega (arith, v.clock name)) in
      (m, e, (v.in_turn name i m e).0, (v.in_turn name i m e).1)

  step :
      (p : PeerStatus) (ps : List PeerStatus) (others : Map String ℕ) (other_has : Bool) (s : Scan)
      → ltb (dec32 p.next_id) (clock_of ms p.identifier) ≡ false
      → TheirsSpec ms ps
          (insert p.identifier (dec32 p.next_id) others)
          (other_has || ltb (clock_of ms p.identifier) (dec32 p.next_id))
          s
      → TheirsSpec ms (p ∷ ps) others other_has s
  unfolding others_of
  step p ps others other_has (Scan.returned m f) le (stored, any) = (stored, inr any)
  step p ps others other_has (Scan.finished o f) le (all, same, flag) =
      ((ground arith, all), same, ground arith)

  pub scan_theirs-TheirsSpec :
      (ps : List PeerStatus) (others : Map String ℕ) (other_has : Bool)
      → (s : Scan) × (scan_theirs ms ps others other_has ≡ ok s)
        × TheirsSpec ms ps others other_has s
  unfolding scan_theirs others_of
  scan_theirs-TheirsSpec [] others other_has =
      (Scan.finished others other_has, refl, (tt, refl, ground arith))
  scan_theirs-TheirsSpec (p ∷ ps) others other_has =
      let next_id = dec32 p.next_id in
      elim (Bool-cases (ltb next_id (clock_of ms p.identifier))) [
        | inl more ↦
            let (m, e, origin, id) = read_below_clock p.identifier next_id (ltb→lt _ _ more) in
            (
              Scan.returned m other_has,
              rw (more, e),
              ((next_id, rw origin (ltb→lt _ _ more), rw origin e), inl (origin, id)),
            )
        | inr le ↦
            let (s, e, spec) =
              scan_theirs-TheirsSpec ps (insert p.identifier next_id others)
                (other_has || ltb (clock_of ms p.identifier) next_id) in
            (s, rw (le, e), step p ps others other_has s le spec)
      ]
