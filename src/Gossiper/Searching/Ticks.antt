-- ===== src/Gossiper/Searching/Ticks.antt =====
-- The goroutine of a search that gets no reply: gossiper/Gossiper.go, startFileSearchingGoroutine.
use decentralized_peerster.Common.{
  ℕ, zero, suc, ◌+◌, ◌%◌, ◌≤◌, ◌<◌, ◌≡◌, ◌≢◌, refl, ap, List, [], ◌∷◌, ◌++◌, none, some, arith, map,
  Outcome, ok, ◌>>=◌, String, ltb,
}
use decentralized_peerster.Models.{SearchRequest, SearchResult}
use decentralized_peerster.Search.{shutdown}
use decentralized_peerster.Gossiper.{Address, Gossiper, Sends}
use decentralized_peerster.Gossiper.Budget.{int_range, min_int, process_search_request}
use decentralized_peerster.Gossiper.Budget.Shares.{total, Shared, send_further-Shared}
use decentralized_peerster.Gossiper.Searching.{
  SearchLoop, LoopStep, search_tick, with_search, int_above, int_increment,
}

module _ (matched : List String → List SearchResult) where
  -- The ticker fires so many times, unless the goroutine returns before.
  unfoldable pub search_ticks : ℕ → SearchLoop → Gossiper → Outcome LoopStep
  search_ticks zero l g = ok (some l, g, [])
  search_ticks (suc k) l g = do
    s ← search_tick matched l g
    elim s.0 [ none ↦ ok s | some l' ↦ do t ← search_ticks k l' s.1; ok (t.0, t.1, s.2 ++ t.2) ]

-- The sum of `k` budgets that grow by one, from `b` on.
abbrev pub growing : ℕ → ℕ → ℕ
growing zero b = 0
growing (suc k) b = b + growing k (b + 1)

total-append : (a b : Sends) → total (a ++ b) ≡ total a + total b
total-append [] b = omega arith
total-append (s ∷ a) b = let ih = total-append a b in omega arith

-- The peers so many times, one round after the other.
abbrev pub rounds : ℕ → List Address → List Address
rounds zero peers = []
rounds (suc k) peers = peers ++ rounds k peers

receivers-append : (a b : Sends) → map (λ s. s.0) (a ++ b) ≡ map (λ s. s.0) a ++ map (λ s. s.0) b
receivers-append [] b = refl
receivers-append (s ∷ a) b = ap (λ t. s.0 ∷ t) (receivers-append a b)

int_above-ltb : (a b : ℕ) → a < min_int → b < min_int → int_above a b ≡ ltb b a
int_above-ltb a b a_lt b_lt =
    let a_e : (a + min_int) % int_range ≡ a + min_int = omega arith in
    let b_e : (b + min_int) % int_range ≡ b + min_int = omega arith in rw (a_e, b_e) (ground arith)

int_increment-suc : (a : ℕ) → a < min_int → int_increment a ≡ a + 1
int_increment-suc a lt = omega arith

module _ (matched : List String → List SearchResult) (g : Gossiper) (l : SearchLoop) where
  tick_sends :
      l.budget ≤ l.max_allowed_budget
      → l.max_allowed_budget + 2 < min_int
      → g.peers ≢ []
      → (sent : Sends) × (search_tick matched l g
          ≡ ok (some (record l { budget = l.budget + 1 }), g, sent))
        × Shared g l.budget sent
  unfolding search_tick process_search_request
  tick_sends le lt some_peer =
      let request : SearchRequest = record {
        origin = g.name;
        budget = l.budget;
        keywords = l.keywords;
      } in
      let (sent, run, shared) = send_further-Shared g request l.budget some_peer (omega arith) in
      let next = int_increment-suc l.budget (omega arith) in
      let quiet = int_above-ltb l.budget l.max_allowed_budget (omega arith) (omega arith) in
      (sent, rw (quiet, next) (ground (arith, run)), shared)

  tick_waits :
      l.budget ≡ l.max_allowed_budget + 1
      → l.max_allowed_budget + 2 < min_int
      → search_tick matched l g ≡ ok (some (record l { budget = l.budget + 1 }), g, [])
  unfolding search_tick
  tick_waits e lt =
      let next = int_increment-suc l.budget (omega arith) in
      let over = int_above-ltb l.budget l.max_allowed_budget (omega arith) (omega arith) in
      let next' = int_increment-suc l.max_allowed_budget (omega arith) in
      let wait = int_above-ltb l.budget (l.max_allowed_budget + 1) (omega arith) (omega arith) in
      rw (over, next', wait, next) (ground arith)

  tick_ends :
      l.budget ≡ l.max_allowed_budget + 2
      → l.max_allowed_budget + 2 < min_int
      → search_tick matched l g ≡ ok (none, with_search g shutdown, [])
  unfolding search_tick
  tick_ends e lt =
      let over = int_above-ltb l.budget l.max_allowed_budget (omega arith) (omega arith) in
      let next' = int_increment-suc l.max_allowed_budget (omega arith) in
      let end = int_above-ltb l.budget (l.max_allowed_budget + 1) (omega arith) (omega arith) in
      rw (over, next', end) (ground arith)

receivers_rounds :
    (sent later : Sends) (k : ℕ) (peers : List Address)
    → map (λ s. s.0) sent ≡ peers
    → map (λ s. s.0) later ≡ rounds k peers
    → map (λ s. s.0) (sent ++ later) ≡ rounds (suc k) peers
receivers_rounds sent later k peers here there = rw (receivers-append sent later, here, there) refl

module _ (matched : List String → List SearchResult) where
  quiet_tick :
      (g : Gossiper) (l : SearchLoop)
      → l.budget ≡ l.max_allowed_budget + 1
      → l.max_allowed_budget + 2 < min_int
      → search_ticks matched 1 l g ≡ ok (some (record l { budget = l.budget + 1 }), g, [])
  unfolding search_ticks
  quiet_tick g l e lt = rw (tick_waits matched g l e lt) refl

  quiet_end :
      (g : Gossiper) (l : SearchLoop)
      → l.budget ≡ l.max_allowed_budget + 1
      → l.max_allowed_budget + 2 < min_int
      → search_ticks matched 2 l g ≡ ok (none, with_search g shutdown, [])
  unfolding search_ticks
  quiet_end g l e lt =
      rw (tick_waits matched g l e lt)
        (rw (tick_ends matched g (record l { budget = l.budget + 1 }) (omega arith) lt) refl)

  -- If the budget and k are together the greatest allowed budget and one, the greatest budget is
  -- below 2^63 - 2, and a peer is known, then the goroutine that gets no reply is still running
  -- after k + 1 ticks, returns at the next one and shuts the current search down; until then it
  -- sends its requests in k rounds, each to every peer in order, and all the budgets that it sends
  -- add up to the sum of the budgets from its own to the greatest one.
  pub search_ticks-end :
      (k : ℕ) (g : Gossiper) (l : SearchLoop)
      → l.budget + k ≡ l.max_allowed_budget + 1
      → l.max_allowed_budget + 2 < min_int
      → g.peers ≢ []
      → (sent : Sends) × (l' : SearchLoop) × (search_ticks matched (suc k) l g
          ≡ ok (some l', g, sent))
        × (search_ticks matched (suc (suc k)) l g ≡ ok (none, with_search g shutdown, sent))
        × (map (λ s. s.0) sent ≡ rounds k g.peers)
        × (total sent ≡ growing k l.budget)
  unfolding search_ticks
  search_ticks-end zero g l e lt some_peer = (
    [],
    record l { budget = l.budget + 1 },
    quiet_tick g l (omega arith) lt,
    quiet_end g l (omega arith) lt,
    refl,
    refl,
  )
  search_ticks-end (suc k) g l e lt some_peer =
      let (sent, run, shared) = tick_sends matched g l (omega arith) lt some_peer in
      let (later, l', still, run', receivers, sum) =
        search_ticks-end k g (record l { budget = l.budget + 1 }) (omega arith) lt some_peer in
      (
        sent ++ later,
        l',
        rw run (rw still refl),
        rw run (rw run' refl),
        receivers_rounds sent later k g.peers shared.0 receivers,
        ground (arith, total-append sent later, shared, sum),
      )
