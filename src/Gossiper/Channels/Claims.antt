-- ===== src/Gossiper/Channels/Claims.antt =====
-- What the threads of gossiper/Gossiper.go have to do with the entries of statusesChannels, and when
-- the mutex and the map agree with that.
use decentralized_peerster.Common.{
  ℕ, ◌≡◌, ◌≢◌, ◌≤◌, ◌<◌, ◌⊎◌, inl, inr, refl, sym, ◌∙◌, Bool, true, false, Option, none, some,
  if_pos, if_neg, ℕ_discrete, string_key, arith,
}
use decentralized_peerster.Map.{lookup}
use decentralized_peerster.Gossiper.{Address}
use decentralized_peerster.Gossiper.Channels.{
  Place, unborn, has_status, sending, sent, has_spread, starting, selecting, timed_out, cleaning,
  System, move, start,
}

-- What a thread has to do with an entry of the map: it is the goroutine of the entry, it is about
-- to start that goroutine, it is sending to it, or it has sent and is about to delete the entry.
pub data Claim : Type 0 where
  nothing : Claim
  waits : Address → Claim
  starts : Address → ℕ → Claim
  picks : Address → ℕ → Claim
  clears : Address → Claim

abbrev pub claim : Place → Claim
claim (selecting a) = waits a
claim (timed_out a) = waits a
claim (cleaning a) = waits a
claim (starting a n) = starts a n
claim (sending a n) = picks a n
claim (sent a) = clears a
claim _ = nothing

abbrev pub holds : Place → Bool
holds (has_status a) = true
holds (sending a n) = true
holds (sent a) = true
holds (has_spread a) = true
holds (cleaning a) = true
holds _ = false

pub move_cases :
    (t : ℕ) (p : Place) (place : ℕ → Place) (u : ℕ)
    → ((u ≡ t) × (move t p place u ≡ p)) ⊎ ((u ≢ t) × (move t p place u ≡ place u))
move_cases t p place u = elim (ℕ_discrete u t) [
  | yes same ↦ inl (same, if_pos (ℕ_discrete u t) same p (place u))
  | no other ↦ inr (other, if_neg (ℕ_discrete u t) other p (place u))
]

-- The thread that an entry stands for, or that will start it or delete the entry.
abbrev pub Live : (ℕ → Place) → Address → ℕ → Type 0
Live place a n =
    (claim (place n) ≡ waits a)
    ⊎ (((t : ℕ) × (claim (place t) ≡ starts a n)) ⊎ ((t : ℕ) × (claim (place t) ≡ clears a)))

pub record IsConsistent (s : System) : Type 0 where
  pub mutex : (t : ℕ) → holds (s.place t) ≡ true → s.owner ≡ some t
  pub waiting : (t : ℕ) (a : Address) → claim (s.place t) ≡ waits a → lookup a s.channels ≡ some t
  pub starting_up :
      (t : ℕ) (a : Address) (n : ℕ)
      → claim (s.place t) ≡ starts a n
      → (lookup a s.channels ≡ some n) × (s.place n ≡ unborn)
  pub one_starter :
      (t u : ℕ) (a b : Address) (n : ℕ)
      → claim (s.place t) ≡ starts a n
      → claim (s.place u) ≡ starts b n
      → t ≡ u
  pub picking :
      (t : ℕ) (a : Address) (n : ℕ) → claim (s.place t) ≡ picks a n → lookup a s.channels ≡ some n
  pub clearing :
      (t u : ℕ) (a : Address) (n : ℕ)
      → claim (s.place t) ≡ clears a
      → (claim (s.place u) ≢ waits a) × (claim (s.place u) ≢ starts a n)
  pub unborn_from : (n : ℕ) → s.fresh ≤ n → s.place n ≡ unborn
  pub made : (a : Address) (n : ℕ) → lookup a s.channels ≡ some n → n < s.fresh
  pub one_peer :
      (a b : Address) (n : ℕ) → lookup a s.channels ≡ some n → lookup b s.channels ≡ some n → a ≡ b
  pub live : (a : Address) (n : ℕ) → lookup a s.channels ≡ some n → Live s.place a n

pub start-IsConsistent : IsConsistent start
unfolding lookup
start-IsConsistent = record {
  mutex = λ t e. ground arith;
  waiting = λ t a e. ground arith;
  starting_up = λ t a n e. ground arith;
  one_starter = λ t u a b n e e'. ground arith;
  picking = λ t a n e. ground arith;
  clearing = λ t u a n e. ground arith;
  unborn_from = λ n le. ground arith;
  made = λ a n e. absurd (cc);
  one_peer = λ a b n e e'. absurd (cc);
  live = λ a n e. absurd (cc);
}

-- Locking and unlocking.
module _ (s : System) (v : IsConsistent s) (t : ℕ) (p : Place) where
  pub mutex_same :
      holds p ≡ holds (s.place t) → (u : ℕ) → holds (move t p s.place u) ≡ true → s.owner ≡ some u
  mutex_same same u e = elim (move_cases t p s.place u) [
    | inl (here, at) ↦ v.mutex u (cc)
    | inr (other, at) ↦ v.mutex u (cc)
  ]

  pub mutex_lock :
      s.owner ≡ none
      → (u : ℕ) → holds (move t p s.place u) ≡ true
      → (let o : Option ℕ = some t in o) ≡ some u
  mutex_lock unlocked u e = elim (move_cases t p s.place u) [
    | inl (here, at) ↦ cc
    | inr (other, at) ↦ let held = v.mutex u (cc) in absurd (cc)
  ]

  pub mutex_unlock :
      holds (s.place t) ≡ true
      → holds p ≡ false
      → (u : ℕ) → holds (move t p s.place u) ≡ true
      → (let o : Option ℕ = none in o) ≡ some u
  mutex_unlock held freed u e = elim (move_cases t p s.place u) [
    | inl (here, at) ↦ absurd (cc)
    | inr (other, at) ↦
        let mine = v.mutex t held in
        let theirs = v.mutex u (cc) in let same : u ≡ t = cc in absurd (other same)
  ]

-- A thread moves, and has to do with the same entry as before.
module _ (s : System) (v : IsConsistent s) (t : ℕ) (p : Place) (same : claim p ≡ claim (s.place t))
    (born : s.place t ≢ unborn) where
  claim-move : (u : ℕ) → claim (move t p s.place u) ≡ claim (s.place u)
  claim-move u = elim (move_cases t p s.place u) [
    | inl (here, at) ↦ rw (at, here) same
    | inr (other, at) ↦ rw at refl
  ]

  still_unborn : (n : ℕ) → s.place n ≡ unborn → move t p s.place n ≡ unborn
  still_unborn n e = elim (move_cases t p s.place n) [
    | inl (here, at) ↦ absurd (born (cc))
    | inr (other, at) ↦ at ∙ e
  ]

  still_Live : (a : Address) (n : ℕ) → Live s.place a n → Live (move t p s.place) a n
  still_Live a n (inl w) = inl (claim-move n ∙ w)
  still_Live a n (inr (inl (u, e))) = inr (inl (u, claim-move u ∙ e))
  still_Live a n (inr (inr (u, e))) = inr (inr (u, claim-move u ∙ e))

  pub quiet-IsConsistent :
      (owner : Option ℕ)
      → ((u : ℕ) → holds (move t p s.place u) ≡ true → owner ≡ some u)
      → IsConsistent (record s { owner = owner; place = move t p s.place })
  quiet-IsConsistent owner mutex = record {
    mutex = mutex;
    waiting = λ u a e. v.waiting u a (sym (claim-move u) ∙ e);
    starting_up = λ u a n e.
        let (at, n_unborn) = v.starting_up u a n (sym (claim-move u) ∙ e) in
        (at, still_unborn n n_unborn);
    one_starter = λ u w a b n e e'.
        v.one_starter u w a b n (sym (claim-move u) ∙ e) (sym (claim-move w) ∙ e');
    picking = λ u a n e. v.picking u a n (sym (claim-move u) ∙ e);
    clearing = λ u w a n e.
        let (no_wait, no_start) = v.clearing u w a n (sym (claim-move u) ∙ e) in
        (λ x. no_wait (sym (claim-move w) ∙ x), λ x. no_start (sym (claim-move w) ∙ x));
    unborn_from = λ n le. still_unborn n (v.unborn_from n le);
    made = v.made;
    one_peer = v.one_peer;
    live = λ a n e. still_Live a n (v.live a n e);
  }
