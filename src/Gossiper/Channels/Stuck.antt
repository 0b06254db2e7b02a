-- ===== src/Gossiper/Channels/Stuck.antt =====
-- What becomes of the message processor while it sends a status packet to a goroutine: gossiper/
-- Gossiper.go, processAddressedStatusPacket and startRumorMongeringThread.
use decentralized_peerster.Common.{ℕ, suc, ◌≡◌, ◌≢◌, ◌⊎◌, inl, inr, refl, some, string_key, arith}
use decentralized_peerster.Gossiper.{Address}
use decentralized_peerster.Gossiper.Channels.{
  Place, unborn, free, ended, wants_status, has_status, sending, sent, wants_spread, has_spread,
  starting, selecting, timed_out, cleaning, System, move, rest, start, Step, StatusStep, SpreadStep,
  WaitStep, Reach,
}
use decentralized_peerster.Gossiper.Channels.Claims.{claim, waits, starts, clears, IsConsistent}
use decentralized_peerster.Gossiper.Channels.Entries.{clears-holds}
use decentralized_peerster.Gossiper.Channels.Consistent.{Step-IsConsistent, Reach-IsConsistent}

waits-cases :
    (p : Place) (a : Address)
    → claim p ≡ waits a
    → (p ≡ selecting a) ⊎ ((p ≡ timed_out a) ⊎ (p ≡ cleaning a))
waits-cases (selecting b) a e = inl (cc)
waits-cases (timed_out b) a e = inr (inl (cc))
waits-cases (cleaning b) a e = inr (inr (cc))
waits-cases unborn a e = absurd (cc)
waits-cases free a e = absurd (cc)
waits-cases ended a e = absurd (cc)
waits-cases (wants_status b) a e = absurd (cc)
waits-cases (has_status b) a e = absurd (cc)
waits-cases (sending b n) a e = absurd (cc)
waits-cases (sent b) a e = absurd (cc)
waits-cases (wants_spread b) a e = absurd (cc)
waits-cases (has_spread b) a e = absurd (cc)
waits-cases (starting b n) a e = absurd (cc)

starts-cases : (p : Place) (a : Address) (n : ℕ) → claim p ≡ starts a n → p ≡ starting a n
starts-cases (starting b n) a m e = cc
starts-cases (selecting b) a m e = absurd (cc)
starts-cases (timed_out b) a m e = absurd (cc)
starts-cases (cleaning b) a m e = absurd (cc)
starts-cases unborn a m e = absurd (cc)
starts-cases free a m e = absurd (cc)
starts-cases ended a m e = absurd (cc)
starts-cases (wants_status b) a m e = absurd (cc)
starts-cases (has_status b) a m e = absurd (cc)
starts-cases (sending b n) a m e = absurd (cc)
starts-cases (sent b) a m e = absurd (cc)
starts-cases (wants_spread b) a m e = absurd (cc)
starts-cases (has_spread b) a m e = absurd (cc)

-- The message processor sends to a goroutine whose ticker fired.
pub record IsStuck (a : Address) (n : ℕ) (place : ℕ → Place) : Type 0 where
  pub processor : place 0 ≡ sending a n
  pub goroutine : place n ≡ timed_out a

module _ (a : Address) (n : ℕ) where
  -- A step of another thread leaves both where they are.
  others :
      (place : ℕ → Place) (v : IsStuck a n place) (t : ℕ) (p : Place)
      → place t ≢ sending a n
      → place t ≢ timed_out a
      → IsStuck a n (move t p place)
  others place v t p not_processor not_goroutine =
      let at = v.processor in
      let at' = v.goroutine in record { processor = ground arith; goroutine = ground arith }

  Step-IsStuck :
      {s r : System} → IsConsistent s → Step s r → IsStuck a n s.place → IsStuck a n r.place
  Step-IsStuck c (Step.status (StatusStep.status_comes b at)) v = absurd (let p = v.processor in cc)
  Step-IsStuck c (Step.status (StatusStep.status_locks b at unlocked)) v =
      absurd (let p = v.processor in cc)
  Step-IsStuck c (Step.status (StatusStep.status_finds b m at found)) v =
      absurd (let p = v.processor in cc)
  Step-IsStuck c (Step.status (StatusStep.status_misses b at missing)) v =
      absurd (let p = v.processor in cc)
  Step-IsStuck c (Step.status (StatusStep.status_sent b d m at at')) v =
      let p = v.processor in
      let q = v.goroutine in let same : sending b m ≡ sending a n = cc in absurd (cc)
  Step-IsStuck c (Step.status (StatusStep.status_done b at)) v = absurd (let p = v.processor in cc)
  Step-IsStuck {s} c (Step.spread (SpreadStep.spread_called t b at)) v =
      others s.place v t (wants_spread b) (λ e. cc) (λ e. cc)
  Step-IsStuck {s} c (Step.spread (SpreadStep.spread_locks t b at unlocked)) v =
      others s.place v t (has_spread b) (λ e. cc) (λ e. cc)
  Step-IsStuck {s} c (Step.spread (SpreadStep.spread_busy t b m at found)) v =
      others s.place v t (rest t) (λ e. cc) (λ e. cc)
  Step-IsStuck {s} c (Step.spread (SpreadStep.spread_makes t b at missing)) v =
      others s.place v t (starting b s.fresh) (λ e. cc) (λ e. cc)
  Step-IsStuck {s} c (Step.spread (SpreadStep.spread_starts t b m at)) v =
      let (m_at, m_unborn) = c.starting_up t b m (rw at refl) in
      let untouched : move t (rest t) s.place m ≡ unborn = ground arith in
      others (move t (rest t) s.place) (others s.place v t (rest t) (λ e. cc) (λ e. cc)) m
        (selecting b) (λ e. cc) (λ e. cc)
  Step-IsStuck {s} c (Step.wait (WaitStep.ticker_fires t b at)) v =
      others s.place v t (timed_out b) (λ e. cc) (λ e. cc)
  Step-IsStuck {s} c (Step.wait (WaitStep.timeout_locks t b at unlocked)) v =
      let held = c.mutex 0 (rw v.processor refl) in absurd (cc)
  Step-IsStuck {s} c (Step.wait (WaitStep.timeout_cleans t b at)) v =
      others s.place v t free (λ e. cc) (λ e. cc)
  Step-IsStuck {s} c (Step.wait (WaitStep.goroutine_ends m at)) v =
      others s.place v (suc m) ended (λ e. cc) (λ e. cc)

  -- The message processor sends for ever, and holds the mutex.
  abbrev pub Sends : System → Type 0
  Sends s = (s.place 0 ≡ sending a n) × (s.owner ≡ some 0)

  Reach-IsStuck :
      {s r : System}
      → IsConsistent s
      → IsStuck a n s.place
      → Reach s r
      → IsConsistent r × IsStuck a n r.place
  Reach-IsStuck c v Reach.here = (c, v)
  Reach-IsStuck c v (Reach.later run step) =
      let (c', v') = Reach-IsStuck c v run in (Step-IsConsistent step c', Step-IsStuck c' step v')

  -- In every state that the threads get to, while the message processor sends a status packet on
  -- the channel of a goroutine of rumor-mongering, holding statusesChannelsMux, either the
  -- goroutine waits on the channel and the sending can be the next step, which lets both go on, or
  -- some thread is about to start the goroutine, or the goroutine's ticker has fired; then,
  -- whatever steps follow, the message processor is still sending and the mutex is never free
  -- again.
  pub sending_cases :
      {s : System}
      → Reach start s
      → s.place 0 ≡ sending a n
      → ((s.place n ≡ selecting a)
          × (r : System) × Step s r
          × (r.place 0 ≡ sent a)
          × (r.place n ≡ free))
        ⊎ (((t : ℕ) × (s.place t ≡ starting a n))
            ⊎ ((s.place n ≡ timed_out a) × ((r : System) → Reach s r → Sends r)))
  sending_cases {s} run at =
      let c = Reach-IsConsistent run in
      let held = c.mutex 0 (rw at refl) in
      let found = c.picking 0 a n (rw at refl) in
      elim (c.live a n found) [
        | inl w ↦ elim (waits-cases (s.place n) a w) [
          | inl here ↦ inl (
            here,
            record s { place = move n free (move 0 (sent a) s.place) },
            (Step.status (StatusStep.status_sent a a n at here)),
            ground arith,
            ground arith,
          )
          | inr (inl fired) ↦ inr (
              inr (
                fired,
                λ r more.
                    let (c', v') =
                      Reach-IsStuck c (record { processor = at; goroutine = fired }) more in
                    (v'.processor, c'.mutex 0 (rw v'.processor refl)),
              ))
          | inr (inr cleans) ↦
              let mine = c.mutex n (rw cleans refl) in
              let same : n ≡ 0 = cc in
              absurd (let there : s.place 0 ≡ cleaning a = rw⁻¹ same cleans in cc)
        ]
        | inr (inl (t, e)) ↦ inr (inl (t, starts-cases (s.place t) a n e))
        | inr (inr (t, e)) ↦
            let mine = c.mutex t (clears-holds (s.place t) a e) in
            let same : t ≡ 0 = cc in
            absurd (let there : claim (s.place 0) ≡ clears a = rw⁻¹ same e in cc)
      ]
