-- ===== src/Client/Names.antt =====
-- The name of a download that a browser asks for: webserver/Webserver.go, requestFile.
use mathlib.Core.Path.{subst}
use Prim.Native.String.{◌++◌ as ◌+++◌}
use decentralized_peerster.Common.{
  ℕ, zero, suc, ◌+◌, ◌≡◌, ◌≢◌, ◌≤◌, ◌<◌, refl, ap, sym, ◌∙◌, Bool, true, false, String, ok, arith,
  Bool-cases, inl, inr, ℕ_discrete,
}
use decentralized_peerster.Client.{free_number}

free_ne_taken : ¬ (false ≡ true)
free_ne_taken e = cc

module _ (itoa : ℕ → String) (exists : String → Bool) (dest : String) where
  abbrev pub IsTaken : ℕ → Type 0
  IsTaken i = exists (dest +++ ("-" +++ itoa i)) ≡ true

  -- The first free number from `i` on.
  abbrev pub IsFirstFree : ℕ → ℕ → Type 0
  IsFirstFree i k =
      (i ≤ k) × (exists (dest +++ ("-" +++ itoa k)) ≡ false) × ((j : ℕ) → i ≤ j → j < k → IsTaken j)

  free_number-from :
      (fuel i n : ℕ)
      → i ≤ n
      → n < i + fuel
      → exists (dest +++ ("-" +++ itoa n)) ≡ false
      → (k : ℕ) × (free_number itoa exists dest fuel i ≡ ok k) × IsFirstFree i k
  unfolding free_number
  free_number-from zero i n le lt free = absurd (omega arith)
  free_number-from (suc fuel) i n le lt free =
      elim (Bool-cases (exists (dest +++ ("-" +++ itoa i)))) [
        | inr here ↦ (
          i,
          rw (free_number, here) refl,
          (omega arith, here, λ j from before. absurd (omega arith)),
        )
        | inl taken ↦
            let other : i ≢ n = λ same.
              free_ne_taken
                (sym free ∙ sym (ap (λ m. exists (dest +++ ("-" +++ itoa m))) same) ∙ taken) in
            let (k, run, (from, free', before)) =
              free_number-from fuel (i + 1) n (omega arith) (omega arith) free in
            (
              k,
              rw (free_number, taken) run,
              (
                omega arith,
                free',
                λ j le' lt'. elim (ℕ_discrete i j) [
                  | yes same ↦ subst (λ m. IsTaken m) same taken
                  | no differs ↦ before j (omega arith) lt'
                ],
              ),
            )
      ]

  -- If some number from one on is free for downloads from a destination, then the loop of
  -- requestFile ends within as many rounds with the first free number: that one is free, and all
  -- below it are taken.
  pub free_number-IsFirstFree :
      (fuel n : ℕ)
      → 1 ≤ n
      → n ≤ fuel
      → exists (dest +++ ("-" +++ itoa n)) ≡ false
      → (k : ℕ) × (free_number itoa exists dest fuel 1 ≡ ok k) × IsFirstFree 1 k
  free_number-IsFirstFree fuel n some_n le free =
      free_number-from fuel 1 n some_n (omega arith) free
