-- ===== src/Tests/Client.antt =====
-- Runs of the client and of the web server's requests.
use decentralized_peerster.Common.{
  ℕ, zero, suc, ◌≡◌, refl, Bool, true, false, [], ◌∷◌, some, String, string_discrete, ok, arith,
  ite,
}
use decentralized_peerster.Client.{Flags, client_main, free_number}
use decentralized_peerster.Client.Names.{IsFirstFree, free_number-IsFirstFree}
use decentralized_peerster.Client.Requests.{IsSent, client_main-IsSent}

abbrev itoa : ℕ → String
itoa zero = "0"
itoa (suc zero) = "1"
itoa _ = "2"

-- The first download of alice is there.
abbrev exists : String → Bool
exists name = ite (string_discrete name "alice-1") true false

free_number-IsFirstFree_example :
    (k : ℕ) × (free_number itoa exists "alice" 2 1 ≡ ok k) × IsFirstFree itoa exists "alice" 1 k
unfolding string_discrete
free_number-IsFirstFree_example =
    free_number-IsFirstFree itoa exists "alice" 2 2 (omega arith) (omega arith) refl

abbrev flags : Flags
flags = record {
  msg = "";
  dest = "alice";
  file = "copy";
  request = "00";
  keywords = "";
  budget = 0;
}

client-IsSent : IsSent (client_main (λ s. some (0 ∷ [])) (λ s sep. s ∷ []) flags)
client-IsSent = client_main-IsSent (λ s. some (0 ∷ [])) (λ s sep. s ∷ []) flags
