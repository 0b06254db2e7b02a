-- ===== src/Storage/Sync.antt =====
-- Two peers that exchange status packets (models/MessageStorage.go: `Diff` on one side,
-- `GetCurrentStatusPacket`, `IsNewMessage` and `AddRumorMessage` on the other).
use mathlib.Core.Path.{subst₂}
use decentralized_peerster.Common.{
  ℕ, ◌<◌, ◌≤◌, ◌≡◌, ◌↔◌, refl, sym, ◌∙◌, ite, Bool, true, false, [], ◌∷◌, ◌++◌, Option, none, some,
  arith, string_discrete, string_key, String, All, Any, inl, inr, ltb, ltb→lt, ok, map, Bool-cases,
  Option-cases,
}
use decentralized_peerster.Map.{Map, get_or, lookup, Found, Found-entries, All-lookup}
use decentralized_peerster.Models.{RumorMessage, StatusPacket, inc32, dec32, u32_mod}
use decentralized_peerster.Storage.{
  messages_of, MessageStorage, clock_of, peer_status, get_current_status_packet, diff,
  is_new_message, add_rumor_message,
}
use decentralized_peerster.Storage.Invariant.{IsValid}
use decentralized_peerster.Storage.Theirs.{DiffSpec, NextFor, Unlisted, Covers, any_ahead}
use decentralized_peerster.Storage.Diff.{diff-DiffSpec}
use decentralized_peerster.Storage.Laws.{clock_of-add, messages_of-add, add_rumor_message-is_new}

-- `diff-DiffSpec` for a result that is known.
pub diff_result :
    (ms : MessageStorage) (sp : StatusPacket) (m : Option RumorMessage) (f : Bool)
    → IsValid ms
    → diff ms sp ≡ ok (m, f)
    → DiffSpec ms sp.want m f
diff_result ms sp m f v e =
    let (m', f', e', spec) = diff-DiffSpec ms sp v in
    let same : m' ≡ m = cc in
    let same_flag : f' ≡ f = cc in subst₂ (λ x y. DiffSpec ms sp.want x y) same same_flag spec

module _ (b : MessageStorage) (v : IsValid b) where
  pub clock-lt : (name : String) → clock_of b name < u32_mod
  clock-lt name = omega (arith, v.clock name)

  next_new :
      (m : RumorMessage) (es : Map String ℕ)
      → All (Found b.vector_clock) es
      → Any (NextFor m) (map peer_status es)
      → m.id ≡ inc32 (clock_of b m.original_name)
  next_new m (e ∷ es) all (inl next) = ground (arith, clock-lt e.0)
  next_new m (e ∷ es) all (inr rest) = next_new m es all.1 rest
  next_new m [] all any = absurd any

  Unlisted-zero :
      (name : String) (es : Map String ℕ)
      → Unlisted name (map peer_status es)
      → get_or name 0 es ≡ 0
  unfolding lookup
  Unlisted-zero name [] u = refl
  Unlisted-zero name ((k, c) ∷ es) u = ground (arith, u.0, Unlisted-zero name es u.1)

  pub offered_id :
      (a : MessageStorage) (m : RumorMessage) (f : Bool)
      → DiffSpec a (get_current_status_packet b).want (some m) f
      → m.id ≡ inc32 (clock_of b m.original_name)
  unfolding get_current_status_packet
  offered_id a m f (stored, inl next) =
      next_new m b.vector_clock (Found-entries b.vector_clock v.one_clock) next
  offered_id a m f (stored, inr (unlisted, one)) =
      omega (arith, Unlisted-zero m.original_name b.vector_clock unlisted)

  is_new_of_next :
      (m : RumorMessage) → m.id ≡ inc32 (clock_of b m.original_name) → is_new_message b m ≡ true
  unfolding is_new_message
  is_new_of_next m e = ground (arith, clock-lt m.original_name)

  covered_entries :
      (a : MessageStorage) (es : Map String ℕ)
      → All (Covers a) (map peer_status es)
      → All (λ e. clock_of a e.0 ≤ dec32 (inc32 e.1)) es
  covered_entries a [] all = tt
  covered_entries a (e ∷ es) all = (all.0, covered_entries a es all.1)

  level_entries :
      (a : MessageStorage) (es : Map String ℕ)
      → any_ahead a (map peer_status es) ≡ false
      → All (λ e. dec32 (inc32 e.1) ≤ clock_of a e.0) es
  level_entries a [] h = tt
  level_entries a (e ∷ es) h = (ground arith, level_entries a es (ground arith))

  Unlisted-absent :
      (name : String) (es : Map String ℕ)
      → lookup name es ≡ none
      → Unlisted name (map peer_status es)
  unfolding lookup
  Unlisted-absent name [] h = tt
  Unlisted-absent name ((k, c) ∷ es) h = (ground arith, Unlisted-absent name es (ground arith))

  entry_bound :
      (name : String) (c : ℕ)
      → lookup name b.vector_clock ≡ some c
      → dec32 (inc32 c) ≡ clock_of b name
  entry_bound name c e = ground (arith, clock-lt name)

  module _ (a : MessageStorage) (f : Bool)
      (spec : DiffSpec a (get_current_status_packet b).want none f) where
    pub le_of_nothing_to_send : (name : String) → clock_of a name ≤ clock_of b name
    unfolding get_current_status_packet
    le_of_nothing_to_send name = elim (Option-cases (lookup name b.vector_clock)) [
      | inl gone ↦ omega (arith, spec.1 name (Unlisted-absent name b.vector_clock gone))
      | inr (c, e) ↦ omega (
        arith,
        entry_bound name c e,
        All-lookup (λ e. clock_of a e.0 ≤ dec32 (inc32 e.1)) name c b.vector_clock
            (covered_entries a b.vector_clock spec.0) e,
      )
    ]

    ge_of_level : f ≡ false → (name : String) → clock_of b name ≤ clock_of a name
    unfolding get_current_status_packet
    ge_of_level h name = elim (Option-cases (lookup name b.vector_clock)) [
      | inl gone ↦ rw gone (omega arith)
      | inr (c, e) ↦ omega (
        arith,
        entry_bound name c e,
        All-lookup (λ e. dec32 (inc32 e.1) ≤ clock_of a e.0) name c b.vector_clock
            (level_entries a b.vector_clock (sym spec.2 ∙ h)) e,
      )
    ]

  ahead_entry :
      (a : MessageStorage) (es : Map String ℕ)
      → All (Found b.vector_clock) es
      → any_ahead a (map peer_status es) ≡ true
      → (name : String) × (clock_of a name < clock_of b name)
  ahead_entry a [] all h = absurd (cc)
  ahead_entry a ((k, c) ∷ es) all h = elim (Bool-cases (ltb (clock_of a k) (dec32 (inc32 c)))) [
    | inl lt ↦ (k, omega (arith, ltb→lt _ _ lt, entry_bound k c all.0))
    | inr ge ↦ ahead_entry a es all.1 (ground arith)
  ]

  level_of_agree :
      (a : MessageStorage) (es : Map String ℕ)
      → All (Found b.vector_clock) es
      → ((name : String) → clock_of a name ≡ clock_of b name)
      → any_ahead a (map peer_status es) ≡ false
  level_of_agree a [] all agree = refl
  level_of_agree a ((k, c) ∷ es) all agree =
      ground (arith, agree k, entry_bound k c all.0, level_of_agree a es all.1 agree)

  nothing_of_agree :
      (a : MessageStorage) (va : IsValid a)
      (agree : (name : String) → clock_of a name ≡ clock_of b name) (m : Option RumorMessage)
      (f : Bool)
      → DiffSpec a (get_current_status_packet b).want m f
      → (m ≡ none) × (f ≡ false)
  unfolding get_current_status_packet
  nothing_of_agree a va agree none f spec = (
    refl,
    spec.2 ∙ level_of_agree a b.vector_clock (Found-entries b.vector_clock v.one_clock) agree,
  )
  nothing_of_agree a va agree (some m) f spec =
      let (i, lt, at) = spec.0 in
      absurd (
        omega (
          arith,
          offered_id a m f spec,
          (va.in_turn m.original_name i m at).1,
          agree m.original_name,
          clock-lt m.original_name,
        ))

module _ (a b : MessageStorage) (va : IsValid a) (vb : IsValid b) where
  -- If Diff on one valid storage picks a rumor for another's current status packet, then the
  -- other's AddRumorMessage returns true, appends it to the rumors of its origin and changes no
  -- other origin's, and its clock advances by one (as a uint32) for the rumor's origin and for no
  -- other.
  pub diff-add_rumor_message :
      (m : RumorMessage) (f : Bool)
      → diff a (get_current_status_packet b) ≡ ok (some m, f)
      → ((add_rumor_message b m).1 ≡ true)
        × ((name : String)
            → clock_of (add_rumor_message b m).0 name
              ≡ ite
                  (string_discrete m.original_name name)
                  (inc32 (clock_of b name))
                  (clock_of b name))
        × ((name : String)
            → messages_of (add_rumor_message b m).0 name
              ≡ ite
                  (string_discrete m.original_name name)
                  (messages_of b name ++ m ∷ [])
                  (messages_of b name))
  diff-add_rumor_message m f e =
      let id =
        offered_id b vb a m f (diff_result a (get_current_status_packet b) (some m) f va e) in
      let new = is_new_of_next b vb m id in
      (
        add_rumor_message-is_new b m ∙ new,
        λ name. clock_of-add b m name ∙ rw new,
        λ name. messages_of-add b m name ∙ rw new,
      )

  -- For two valid storages, Diff against the other's current status packet answers (nil, false)
  -- exactly when the two vector clocks agree on every origin.
  pub diff_in_sync :
      (diff a (get_current_status_packet b) ≡ ok (none, false))
      ↔ ((name : String) → clock_of a name ≡ clock_of b name)
  diff_in_sync = (
    λ e name.
        let spec = diff_result a (get_current_status_packet b) none false va e in
        omega (
          arith,
          le_of_nothing_to_send b vb a false spec name,
          ge_of_level b vb a false spec refl name,
        ),
    λ agree.
        let (m, f, e, spec) = diff-DiffSpec a (get_current_status_packet b) va in
        let (nothing, level) = nothing_of_agree b vb a va agree m f spec in
        rw (nothing, level) at e,
  )

  -- If Diff on a valid storage answers (nil, true) to a valid storage's status packet, then the
  -- other's clocks are at least its own, and one is greater.
  pub diff_behind :
      diff a (get_current_status_packet b) ≡ ok (none, true)
      → ((name : String) → clock_of a name ≤ clock_of b name)
        × ((name : String) × (clock_of a name < clock_of b name))
  unfolding get_current_status_packet
  diff_behind e =
      let spec = diff_result a (get_current_status_packet b) none true va e in
      (
        le_of_nothing_to_send b vb a true spec,
        ahead_entry b vb a b.vector_clock (Found-entries b.vector_clock vb.one_clock) (sym spec.2),
      )
