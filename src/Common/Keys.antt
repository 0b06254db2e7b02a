-- ===== src/Common/Keys.antt =====
-- Go compares map keys by value: strings, and byte arrays such as a [32]byte hash. A key type
-- carries its decidable equality as an instance.
use Prim.Native.Nat.{ℕ}
use Prim.Native.String.{String}
use mathlib.Core.Bool.{Bool, true, false}
use mathlib.Core.List.{List, [], ◌∷◌}
use mathlib.Core.Logic.{◌↔◌}
use mathlib.Core.Path.{◌≡◌, refl}
use native.Mathlib.Decide.{ℕ_discrete}
use text.Mathlib.Text.{◌==◌ as str_eq}
use text.Mathlib.TextEquality.{eq_iff}

-- A slice of bytes, each a number below 256.
abbrev pub Bytes : Type 0
Bytes = List ℕ

pub record Key {ℓ} (K : Type ℓ) : Type ℓ where
  pub dec : Discrete K

decide_test : (b : Bool) {P : Type 0} → (b ≡ true) ↔ P → Dec P
decide_test true h = yes (h.0 refl)
decide_test false h = no (λ p. cc (h.1 p))

unfoldable pub string_discrete : Discrete String
unfolding decide_test
string_discrete s t = decide_test (str_eq s t) (eq_iff s t)

cons_discrete :
    {x y : ℕ} {xs ys : List ℕ}
    → Dec (x ≡ y)
    → Dec (xs ≡ ys)
    → Dec (◌≡◌ {A = List ℕ} (x ∷ xs) (y ∷ ys))
cons_discrete (yes p) (yes q) = yes (cc)
cons_discrete (no p) _ = no (λ e. p (cc))
cons_discrete (yes _) (no q) = no (λ e. q (cc))

unfoldable pub bytes_discrete : Discrete (List ℕ)
unfolding cons_discrete ℕ_discrete
bytes_discrete [] [] = yes refl
bytes_discrete [] (y ∷ ys) = no (λ e. cc)
bytes_discrete (x ∷ xs) [] = no (λ e. cc)
bytes_discrete (x ∷ xs) (y ∷ ys) = cons_discrete (ℕ_discrete x y) (bytes_discrete xs ys)

instance abbrev pub nat_key : Key ℕ
nat_key = record { dec = ℕ_discrete }

instance abbrev pub string_key : Key String
string_key = record { dec = string_discrete }

instance abbrev pub bytes_key : Key (List ℕ)
bytes_key = record { dec = bytes_discrete }
