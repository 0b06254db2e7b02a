-- ===== src/Gossiper/Channels/Consistent.antt =====
-- How the mutex statusesChannelsMux and the map statusesChannels of gossiper/Gossiper.go go with where
-- the threads stand.
use decentralized_peerster.Common.{suc, refl, none, some, string_key}
use decentralized_peerster.Gossiper.Channels.{
  free, ended, wants_status, has_status, wants_spread, has_spread, timed_out, cleaning, System,
  rest, start, Step, StatusStep, SpreadStep, WaitStep, Reach,
}
use decentralized_peerster.Gossiper.Channels.Claims.{
  IsConsistent, start-IsConsistent, mutex_same, mutex_lock, mutex_unlock, quiet-IsConsistent,
}
use decentralized_peerster.Gossiper.Channels.Entries.{
  rest-nothing, finds-IsConsistent, sent-IsConsistent, makes-IsConsistent, starts-IsConsistent,
  done-IsConsistent, cleans-IsConsistent,
}

pub Step-IsConsistent : {s r : System} → Step s r → IsConsistent s → IsConsistent r
Step-IsConsistent {s} (Step.status (StatusStep.status_comes a at)) v =
    quiet-IsConsistent s v 0 (wants_status a) (rw at refl) (λ e. cc) s.owner
      (mutex_same s v 0 (wants_status a) (rw at refl))
Step-IsConsistent {s} (Step.status (StatusStep.status_locks a at unlocked)) v =
    quiet-IsConsistent s v 0 (has_status a) (rw at refl) (λ e. cc) (some 0)
      (mutex_lock s v 0 (has_status a) unlocked)
Step-IsConsistent {s} (Step.status (StatusStep.status_finds a n at found)) v =
    finds-IsConsistent s v a n at found
Step-IsConsistent {s} (Step.status (StatusStep.status_misses a at missing)) v =
    quiet-IsConsistent s v 0 free (rw at refl) (λ e. cc) none
      (mutex_unlock s v 0 free (rw at refl) refl)
Step-IsConsistent {s} (Step.status (StatusStep.status_sent a b n at at')) v =
    sent-IsConsistent s v a b n at at'
Step-IsConsistent {s} (Step.status (StatusStep.status_done a at)) v = done-IsConsistent s v a at
Step-IsConsistent {s} (Step.spread (SpreadStep.spread_called t a at)) v =
    quiet-IsConsistent s v t (wants_spread a) (rw at refl) (λ e. cc) s.owner
      (mutex_same s v t (wants_spread a) (rw at refl))
Step-IsConsistent {s} (Step.spread (SpreadStep.spread_locks t a at unlocked)) v =
    quiet-IsConsistent s v t (has_spread a) (rw at refl) (λ e. cc) (some t)
      (mutex_lock s v t (has_spread a) unlocked)
Step-IsConsistent {s} (Step.spread (SpreadStep.spread_busy t a n at found)) v =
    let (no_claim, no_hold) = rest-nothing t in
    quiet-IsConsistent s v t (rest t) (rw (no_claim, at) refl) (λ e. cc) none
      (mutex_unlock s v t (rest t) (rw at refl) no_hold)
Step-IsConsistent {s} (Step.spread (SpreadStep.spread_makes t a at missing)) v =
    makes-IsConsistent s v t a at missing
Step-IsConsistent {s} (Step.spread (SpreadStep.spread_starts t a n at)) v =
    starts-IsConsistent s v t a n at
Step-IsConsistent {s} (Step.wait (WaitStep.ticker_fires t a at)) v =
    quiet-IsConsistent s v t (timed_out a) (rw at refl) (λ e. cc) s.owner
      (mutex_same s v t (timed_out a) (rw at refl))
Step-IsConsistent {s} (Step.wait (WaitStep.timeout_locks t a at unlocked)) v =
    quiet-IsConsistent s v t (cleaning a) (rw at refl) (λ e. cc) (some t)
      (mutex_lock s v t (cleaning a) unlocked)
Step-IsConsistent {s} (Step.wait (WaitStep.timeout_cleans t a at)) v =
    cleans-IsConsistent s v t a at
Step-IsConsistent {s} (Step.wait (WaitStep.goroutine_ends n at)) v =
    quiet-IsConsistent s v (suc n) ended (rw at refl) (λ e. cc) s.owner
      (mutex_same s v (suc n) ended (rw at refl))

-- In every state that the threads get to by steps of processAddressedStatusPacket, spreadTheRumor
-- and startRumorMongeringThread in any interleaving, a thread inside the critical section holds
-- statusesChannelsMux, so there is one at most; each waiting goroutine and each goroutine about to
-- be started has the entry of its peer, so a peer has one at most; each entry has a waiting
-- goroutine, one about to be started, or a sender about to delete it; no goroutine has the entries
-- of two peers.
pub Reach-IsConsistent : {s : System} → Reach start s → IsConsistent s
Reach-IsConsistent Reach.here = start-IsConsistent
Reach-IsConsistent (Reach.later r step) = Step-IsConsistent step (Reach-IsConsistent r)
