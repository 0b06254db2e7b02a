-- ===== src/Map.antt =====
-- Go's `map[K]V` as an association list. `insert` is `m[k] = v`, `delete` is `delete(m, k)`,
-- `lookup` the two-valued read, `get_or` the read that gives a zero value. `range` visits the
-- entries in an order that Go leaves open: a function that ranges over a map walks the list, and
-- the theorems about it hold for every list, so for every order of the entries.
use mathlib.Core.Path.{subst₂}
use decentralized_peerster.Common.{
  ◌≡◌, ◌≢◌, ◌≤◌, ◌<◌, refl, ite, if_pos, if_neg, Option, none, some, List, [], ◌∷◌, arith, Key, All,
  length, suc,
}

abbrev pub Map {ℓ} : Type ℓ → Type ℓ → Type ℓ
Map K V = List (K × V)

-- The zero value where a key is missing.
abbrev pub value_or {ℓ} : {V : Type ℓ} → V → Option V → V
value_or d none = d
value_or d (some v) = v

module _ {ℓ} {K V : Type ℓ} ⦃key : Key K⦄ where
  unfoldable pub lookup : K → Map K V → Option V
  lookup k [] = none
  lookup k ((j, v) ∷ m) = ite (key.dec j k) (some v) (lookup k m)

  -- A present key keeps its place.
  unfoldable pub insert : K → V → Map K V → Map K V
  insert k v [] = (k, v) ∷ []
  insert k v ((j, w) ∷ m) = ite (key.dec j k) ((k, v) ∷ m) ((j, w) ∷ insert k v m)

  unfoldable pub delete : K → Map K V → Map K V
  delete k [] = []
  delete k ((j, w) ∷ m) = let rest = delete k m in ite (key.dec j k) rest ((j, w) ∷ rest)

  abbrev pub get_or : K → V → Map K V → V
  get_or k d m = value_or d (lookup k m)

  -- No key stands twice.
  abbrev pub IsMap : Map K V → Type ℓ
  IsMap [] = Unit
  IsMap ((k, v) ∷ m) = (lookup k m ≡ none) × IsMap m

  pub lookup-insert :
      (k j : K) (v : V) (m : Map K V)
      → lookup j (insert k v m) ≡ ite (key.dec k j) (some v) (lookup j m)
  unfolding lookup insert
  lookup-insert k j v [] = refl
  lookup-insert k j v ((i, w) ∷ m) = ground (arith, lookup-insert k j v m)

  pub lookup-delete :
      (k j : K) (m : Map K V) → lookup j (delete k m) ≡ ite (key.dec k j) none (lookup j m)
  unfolding lookup delete
  lookup-delete k j [] = ground arith
  lookup-delete k j ((i, w) ∷ m) = ground (arith, lookup-delete k j m)

  pub insert-IsMap : (k : K) (v : V) (m : Map K V) → IsMap m → IsMap (insert k v m)
  unfolding insert lookup
  insert-IsMap k v [] h = (refl, tt)
  insert-IsMap k v ((j, w) ∷ m) h = ground (arith, lookup-insert k j v m, insert-IsMap k v m h.1)

  pub delete-IsMap : (k : K) (m : Map K V) → IsMap m → IsMap (delete k m)
  unfolding delete lookup
  delete-IsMap k [] h = tt
  delete-IsMap k ((j, w) ∷ m) h = ground (arith, lookup-delete k j m, delete-IsMap k m h.1)

  -- In a map with no key twice each entry is the one that a lookup finds.
  abbrev pub Found : Map K V → K × V → Type ℓ
  Found m e = lookup e.0 m ≡ some e.1

  weaken_Found :
      (k : K) (v : V) (m es : Map K V)
      → lookup k m ≡ none
      → All (Found m) es
      → All (Found ((k, v) ∷ m)) es
  unfolding lookup
  weaken_Found k v m [] h all = tt
  weaken_Found k v m (e ∷ es) h all = (ground arith, weaken_Found k v m es h all.1)

  pub Found-entries : (m : Map K V) → IsMap m → All (Found m) m
  unfolding lookup
  Found-entries [] h = tt
  Found-entries ((k, v) ∷ m) h = (ground arith, weaken_Found k v m m h.0 (Found-entries m h.1))

  -- What holds of every entry holds of the one that a lookup finds.
  pub All-lookup {κ} :
      (P : K × V → Type κ) (k : K) (v : V) (m : Map K V) → All P m → lookup k m ≡ some v → P (k, v)
  unfolding lookup
  All-lookup P k v [] all e = absurd (cc)
  All-lookup P k v ((j, w) ∷ m) all e = elim (key.dec j k) [
    | yes same ↦ let here : w ≡ v = ground arith in subst₂ (λ x y. P (x, y)) same here all.0
    | no other ↦ All-lookup P k v m all.1 (ground arith)
  ]

  pub All-insert {κ} :
      (P : K × V → Type κ) (k : K) (v : V) (m : Map K V) → P (k, v) → All P m → All P (insert k v m)
  unfolding insert
  All-insert P k v [] p all = (p, tt)
  All-insert P k v ((j, w) ∷ m) p all = elim (key.dec j k) [
    | yes same ↦ rw (if_pos _ same) (p, all.1)
    | no other ↦ rw (if_neg _ other) (all.0, All-insert P k v m p all.1)
  ]

  pub All-delete {κ} : (P : K × V → Type κ) (k : K) (m : Map K V) → All P m → All P (delete k m)
  unfolding delete
  All-delete P k [] all = tt
  All-delete P k ((j, w) ∷ m) all = elim (key.dec j k) [
    | yes same ↦ rw (if_pos _ same) (All-delete P k m all.1)
    | no other ↦ rw (if_neg _ other) (all.0, All-delete P k m all.1)
  ]

  pub length-insert-le : (k : K) (v : V) (m : Map K V) → length (insert k v m) ≤ suc (length m)
  unfolding insert
  length-insert-le k v [] = omega arith
  length-insert-le k v ((j, w) ∷ m) = ground (arith, length-insert-le k v m)

  pub length-delete-le : (k : K) (m : Map K V) → length (delete k m) ≤ length m
  unfolding delete
  length-delete-le k [] = omega arith
  length-delete-le k ((j, w) ∷ m) = ground (arith, length-delete-le k m)

  pub length-delete-lt : (k : K) (m : Map K V) → lookup k m ≢ none → length (delete k m) < length m
  unfolding delete lookup
  length-delete-lt k [] h = absurd (h refl)
  length-delete-lt k ((j, w) ∷ m) h = ground (arith, length-delete-le k m, length-delete-lt k m)

  weaken_present :
      (k : K) (v : V) (m es : Map K V)
      → All (λ e. lookup e.0 m ≢ none) es
      → All (λ e. lookup e.0 ((k, v) ∷ m) ≢ none) es
  unfolding lookup
  weaken_present k v m [] all = tt
  weaken_present k v m (e ∷ es) all = (λ gone. ground arith, weaken_present k v m es all.1)

  -- A lookup of an entry's key finds something.
  pub entries_present : (m : Map K V) → All (λ e. lookup e.0 m ≢ none) m
  unfolding lookup
  entries_present [] = tt
  entries_present ((k, v) ∷ m) = (λ gone. ground arith, weaken_present k v m m (entries_present m))
