-- ===== src/Tests/Channels.antt =====
-- A run of the threads of gossiper/Gossiper.go in which a goroutine's ticker fires before the status
-- packet that it waits for is passed on.
use decentralized_peerster.Common.{ℕ, ◌≡◌, ◌⊎◌, refl, ℕ_discrete, string_discrete, string_key}
use decentralized_peerster.Map.{lookup, insert}
use decentralized_peerster.Gossiper.Channels.{
  System, Step, StatusStep, SpreadStep, WaitStep, Reach, start, free, sending, sent, selecting,
  starting, timed_out,
}
use decentralized_peerster.Gossiper.Channels.Claims.{IsConsistent}
use decentralized_peerster.Gossiper.Channels.Consistent.{Reach-IsConsistent}
use decentralized_peerster.Gossiper.Channels.Stuck.{Sends, sending_cases}

-- A rumor goes to b, its goroutine waits, and the ticker fires; then a status packet of b comes.
late : (s : System) × Reach start s × (s.place 0 ≡ sending "b" 1) × (s.place 1 ≡ timed_out "b")
unfolding ℕ_discrete lookup insert string_discrete
late =
    let r0 = Reach.later Reach.here (Step.spread (SpreadStep.spread_called 0 "b" refl)) in
    let r1 = Reach.later r0 (Step.spread (SpreadStep.spread_locks 0 "b" refl refl)) in
    let r2 = Reach.later r1 (Step.spread (SpreadStep.spread_makes 0 "b" refl refl)) in
    let r3 = Reach.later r2 (Step.spread (SpreadStep.spread_starts 0 "b" 1 refl)) in
    let r4 = Reach.later r3 (Step.wait (WaitStep.ticker_fires 1 "b" refl)) in
    let r5 = Reach.later r4 (Step.status (StatusStep.status_comes "b" refl)) in
    let r6 = Reach.later r5 (Step.status (StatusStep.status_locks "b" refl refl)) in
    (_, Reach.later r6 (Step.status (StatusStep.status_finds "b" 1 refl refl)), refl, refl)

Reach-IsConsistent_example : IsConsistent late.0
Reach-IsConsistent_example = Reach-IsConsistent late.1

sending_cases_example :
    let s = late.0 in
    ((s.place 1 ≡ selecting "b")
      × (r : System) × Step s r
      × (r.place 0 ≡ sent "b")
      × (r.place 1 ≡ free))
    ⊎ (((t : ℕ) × (s.place t ≡ starting "b" 1))
        ⊎ ((s.place 1 ≡ timed_out "b") × ((r : System) → Reach s r → Sends "b" 1 r)))
sending_cases_example = sending_cases "b" 1 late.1 late.2
