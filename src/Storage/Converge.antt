-- ===== src/Storage/Converge.antt =====
-- Peers that exchange rumors until nothing is left to send (models/MessageStorage.go: `Diff` on one
-- side, `GetCurrentStatusPacket` and `AddRumorMessage` on the other, in turns).
use Prim.Native.Nat.{max}
use decentralized_peerster.Common.{
  ℕ, zero, suc, ◌+◌, ◌-◌, ◌<◌, ◌≤◌, ◌≡◌, ◌⊎◌, refl, sym, ◌∙◌, Bool, false, [], ◌∷◌, Option, none,
  some, arith, string_key, string_discrete, String, ok, Outcome, out_of_fuel, ◌>>=◌, Option-cases,
  inl, inr,
}
use decentralized_peerster.Map.{Map, lookup}
use decentralized_peerster.Models.{RumorMessage, u32_mod}
use decentralized_peerster.Storage.{
  MessageStorage, clock_of, get_current_status_packet, diff, add_rumor_message,
}
use decentralized_peerster.Storage.Invariant.{IsValid, add_rumor_message-IsValid}
use decentralized_peerster.Storage.Diff.{diff-DiffSpec}
use decentralized_peerster.Storage.Theirs.{DiffSpec}
use decentralized_peerster.Storage.Sync.{
  clock-lt, offered_id, le_of_nothing_to_send, diff-add_rumor_message, diff_in_sync,
}

-- How many rumors the clocks `es` are ahead.
pub gap : Map String ℕ → (String → ℕ) → ℕ
gap [] theirs = 0
gap ((name, c) ∷ es) theirs = (c - theirs name) + gap es theirs

-- One peer sends the rumor that Diff picks for the other's status, as long as there is one.
push : ℕ → MessageStorage → MessageStorage → Outcome MessageStorage
push zero a b = out_of_fuel
push (suc fuel) a b = do
  (offered, _) ← diff a (get_current_status_packet b)
  elim offered [ none ↦ ok b | some m ↦ push fuel a (add_rumor_message b m).0 ]

-- A round for each rumor that the other lacks, and one to stop.
pub push_all : MessageStorage → MessageStorage → Outcome MessageStorage
unfolding push gap
push_all a b = push (suc (gap a.vector_clock (clock_of b))) a b

gap-le :
    (es : Map String ℕ) (f g : String → ℕ)
    → ((name : String) → f name ≤ g name)
    → gap es g ≤ gap es f
unfolding gap
gap-le [] f g le = omega arith
gap-le ((name, c) ∷ es) f g le = omega (arith, le name, gap-le es f g le)

gap-lt :
    (es : Map String ℕ) (f g : String → ℕ) (name : String) (c : ℕ)
    → ((k : String) → f k ≤ g k)
    → lookup name es ≡ some c
    → f name < c
    → f name < g name
    → gap es g < gap es f
unfolding gap lookup
gap-lt [] f g name c le at behind more = absurd (cc)
gap-lt ((k, d) ∷ es) f g name c le at behind more = elim (string_discrete k name) [
  | yes same ↦
      let d_c : d ≡ c = ground arith in
      let here : f k < d = rw (same, d_c) behind in
      let grown : f k < g k = rw same more in omega (arith, gap-le es f g le)
  | no other ↦
      let rest : lookup name es ≡ some c = ground arith in
      omega (arith, le k, gap-lt es f g name c le rest behind more)
]

module _ (a b : MessageStorage) (va : IsValid a) (vb : IsValid b) where
  -- An offered rumor is one that the other lacks, and has a uint32 id.
  offered_lacks :
      (m : RumorMessage) (f : Bool)
      → DiffSpec a (get_current_status_packet b).want (some m) f
      → (clock_of b m.original_name < clock_of a m.original_name) × (m.id < u32_mod)
  offered_lacks m f spec =
      let (i, lt, at) = spec.0 in
      let id = offered_id b vb a m f spec in
      let in_turn = (va.in_turn m.original_name i m at).1 in
      let a_lt = clock-lt a va m.original_name in
      let b_lt = clock-lt b vb m.original_name in
      (omega (arith, id, in_turn, a_lt, b_lt, lt), omega (arith, id))

  -- After the rumor its origin's clock has grown by one, and no other one has.
  grown :
      (m : RumorMessage) (f : Bool)
      → diff a (get_current_status_packet b) ≡ ok (some m, f)
      → (clock_of b m.original_name < clock_of a m.original_name)
      → (name : String)
      → ((m.original_name ≡ name) × (clock_of (add_rumor_message b m).0 name ≡ clock_of b name + 1))
        ⊎ (¬ (m.original_name ≡ name) × (clock_of (add_rumor_message b m).0 name ≡ clock_of b name))
  grown m f e lacks name =
      let now = (diff-add_rumor_message a b va vb m f e).1 name in
      elim (string_discrete m.original_name name) [
        | yes same ↦
            let lacks' : clock_of b name < clock_of a name = rw same at lacks in
            inl (same, ground (arith, now, clock-lt a va name))
        | no other ↦ inr (other, ground (arith, now))
      ]

  grown-le :
      (m : RumorMessage) (f : Bool)
      → diff a (get_current_status_packet b) ≡ ok (some m, f)
      → (clock_of b m.original_name < clock_of a m.original_name)
      → (name : String) → clock_of b name ≤ clock_of (add_rumor_message b m).0 name
  grown-le m f e lacks name = elim (grown m f e lacks name) [
    | inl (same, next) ↦ omega (arith, next)
    | inr (other, kept) ↦ omega (arith, kept)
  ]

  grown-max :
      (m : RumorMessage) (f : Bool)
      → diff a (get_current_status_packet b) ≡ ok (some m, f)
      → (clock_of b m.original_name < clock_of a m.original_name)
      → (name : String)
      → max (clock_of a name) (clock_of (add_rumor_message b m).0 name)
        ≡ max (clock_of a name) (clock_of b name)
  grown-max m f e lacks name = elim (grown m f e lacks name) [
    | inl (same, next) ↦
        let lacks' : clock_of b name < clock_of a name = rw same at lacks in
        omega (arith, next, lacks')
    | inr (other, kept) ↦ omega (arith, kept)
  ]

  fewer_left :
      (m : RumorMessage) (f : Bool)
      → diff a (get_current_status_packet b) ≡ ok (some m, f)
      → (clock_of b m.original_name < clock_of a m.original_name)
      → gap a.vector_clock (clock_of (add_rumor_message b m).0) < gap a.vector_clock (clock_of b)
  fewer_left m f e lacks = elim (Option-cases (lookup m.original_name a.vector_clock)) [
    | inl gone ↦ absurd (ground arith)
    | inr (c, at) ↦
        let more : clock_of b m.original_name < clock_of (add_rumor_message b m).0 m.original_name =
          elim (grown m f e lacks m.original_name) [
            | inl (same, next) ↦ omega (arith, next)
            | inr (other, kept) ↦ absurd (other refl)
          ] in
        gap-lt a.vector_clock (clock_of b) (clock_of (add_rumor_message b m).0) m.original_name c
          (grown-le m f e lacks) at (ground arith) more
  ]

-- The other ends with the greater of both clocks for every origin.
abbrev EndsGreater : MessageStorage → MessageStorage → Outcome MessageStorage → Type 0
EndsGreater a b o =
    (b' : MessageStorage) × (o ≡ ok b')
    × IsValid b'
    × ((name : String) → clock_of b' name ≡ max (clock_of a name) (clock_of b name))

push-EndsGreater :
    (fuel : ℕ) (a b : MessageStorage)
    → IsValid a
    → IsValid b
    → gap a.vector_clock (clock_of b) < fuel
    → EndsGreater a b (push fuel a b)
unfolding push
push-EndsGreater zero a b va vb lt = absurd (omega arith)
push-EndsGreater (suc fuel) a b va vb lt =
    let (m, f, e, spec) = diff-DiffSpec a (get_current_status_packet b) va in
    rw e (sent m f e spec (λ b1 v1 lt1. push-EndsGreater fuel a b1 va v1 lt1))
  where
    sent :
        (m : Option RumorMessage) (f : Bool)
        → diff a (get_current_status_packet b) ≡ ok (m, f)
        → DiffSpec a (get_current_status_packet b).want m f
        → ((b1 : MessageStorage)
            → IsValid b1
            → gap a.vector_clock (clock_of b1) < fuel
            → EndsGreater a b1 (push fuel a b1))
        → EndsGreater a b (elim m [ none ↦ ok b | some r ↦ push fuel a (add_rumor_message b r).0 ])
    sent none f e spec ih =
        (b, refl, vb, λ name. omega (arith, le_of_nothing_to_send b vb a f spec name))
    sent (some m) f e spec ih =
        let (lacks, u32) = offered_lacks a b va vb m f spec in
        let (b', run, v', clocks) =
          ih (add_rumor_message b m).0 (add_rumor_message-IsValid b m u32 vb)
            (omega (arith, fewer_left a b va vb m f e lacks)) in
        (b', run, v', λ name. clocks name ∙ grown-max a b va vb m f e lacks name)

-- Let the owner of one of two valid storages send the rumor that Diff picks for the other's
-- current status packet, and the other add it, again and again until Diff picks none, and then the
-- other way round. This ends without a panic, both storages are valid then, each clock of both is
-- the greater of the two clocks that the origin had before, and Diff of the first against the
-- other's status answers (nil, false).
pub push_all-IsInSync :
    (a b : MessageStorage)
    → IsValid a
    → IsValid b
    → (a' : MessageStorage) × (b' : MessageStorage) × (push_all a b ≡ ok b')
      × (push_all b' a ≡ ok a')
      × IsValid a'
      × IsValid b'
      × ((name : String)
          → (clock_of a' name ≡ max (clock_of a name) (clock_of b name))
            × (clock_of b' name ≡ max (clock_of a name) (clock_of b name)))
      × (diff a' (get_current_status_packet b') ≡ ok (none, false))
unfolding push_all
push_all-IsInSync a b va vb =
    let (b', run, vb', clocks) =
      push-EndsGreater (suc (gap a.vector_clock (clock_of b))) a b va vb (omega arith) in
    let (a', run', va', clocks') =
      push-EndsGreater (suc (gap b'.vector_clock (clock_of a))) b' a vb' va (omega arith) in
    let mine : (name : String) → clock_of a' name ≡ max (clock_of a name) (clock_of b name) =
      λ name. omega (arith, clocks name, clocks' name) in
    (
      a',
      b',
      run,
      run',
      va',
      vb',
      λ name. (mine name, clocks name),
      (diff_in_sync a' b' va' vb').1 (λ name. mine name ∙ sym (clocks name)),
    )
