-- ===== src/Gossiper/Budget/Shares.antt =====
-- How processSearchRequest (gossiper/Gossiper.go) divides a budget among the peers.
use decentralized_peerster.Common.{
  ℕ, ◌+◌, ◌-◌, ◌*◌, ◌/◌, ◌%◌, ◌<◌, ◌≡◌, ◌≢◌, refl, ◌⊎◌, ltb, List, [], ◌∷◌, ◌++◌, none, some, arith,
  All, length, map, ok, if◌then◌else◌, String, lt→ltb, ◌∙◌,
}
use native.Mathlib.Nat.{mod-add-div, mod-lt, mul_comm, add_comm, lt_of_le_of_lt, div-le_self}
use decentralized_peerster.Models.{SearchRequest, SearchResult, GossipPacket}
use decentralized_peerster.Gossiper.{Address, Gossiper, Sends}
use decentralized_peerster.Gossiper.Budget.{
  int_range, min_int, share_budget, search_reply, send_further, process_search_request,
}

abbrev pub budget_of : Address × GossipPacket → ℕ
budget_of (a, gp) = elim gp.search_request [ none ↦ 0 | some srqmsg ↦ srqmsg.budget ]

abbrev pub total : Sends → ℕ
total [] = 0
total (s ∷ ss) = budget_of s + total ss

abbrev smaller : ℕ → ℕ → ℕ
smaller a b = if ltb a b then a else b

total-share_budget :
    (srqmsg : SearchRequest) (q r : ℕ) (peers : List Address)
    → q < min_int
    → total (share_budget srqmsg q r peers) ≡ q * length peers + smaller r (length peers)
unfolding share_budget
total-share_budget srqmsg q r [] lt = ground arith
total-share_budget srqmsg q r (p ∷ peers) lt =
    let ih = total-share_budget srqmsg q (r - 1) peers lt in ground (arith, ih)

peers-share_budget :
    (srqmsg : SearchRequest) (q r : ℕ) (peers : List Address)
    → map (λ s. s.0) (share_budget srqmsg q r peers) ≡ peers
unfolding share_budget
peers-share_budget srqmsg q r [] = refl
peers-share_budget srqmsg q r (p ∷ peers) = rw (peers-share_budget srqmsg q (r - 1) peers) refl

abbrev pub Even : ℕ → Address × GossipPacket → Type 0
Even q s = (budget_of s ≡ q) ⊎ (budget_of s ≡ q + 1)

Even-share_budget :
    (srqmsg : SearchRequest) (q r : ℕ) (peers : List Address)
    → q < min_int
    → All (Even q) (share_budget srqmsg q r peers)
unfolding share_budget
Even-share_budget srqmsg q r [] lt = tt
Even-share_budget srqmsg q r (p ∷ peers) lt =
    (ground arith, Even-share_budget srqmsg q (r - 1) peers lt)

-- What a request for `budget` sends to the peers of `g`: one packet to each, in order, whose
-- budgets add up to `budget` and differ by one at most.
abbrev pub Shared : Gossiper → ℕ → Sends → Type 0
Shared g budget further =
    (map (λ s. s.0) further ≡ g.peers)
    × (total further ≡ budget)
    × All (Even (budget / length g.peers)) further

pub length-ne-zero : (peers : List Address) → peers ≢ [] → length peers ≢ 0
length-ne-zero [] h e = h refl
length-ne-zero (p ∷ peers) h e = omega arith

pub send_further-Shared :
    (g : Gossiper) (srqmsg : SearchRequest) (budget : ℕ)
    → g.peers ≢ []
    → budget < min_int
    → (further : Sends) × (send_further g srqmsg budget ≡ ok further) × Shared g budget further
unfolding send_further
send_further-Shared g srqmsg budget some_peer lt =
    let n = length g.peers in
    let q = budget / n in
    let r = budget % n in
    let nz : n ≢ 0 = length-ne-zero g.peers some_peer in
    let below = lt→ltb budget min_int lt in
    let q_lt : q < min_int = lt_of_le_of_lt (div-le_self budget n) lt in
    let sum : q * n + r ≡ budget = rw (mul_comm q n) (add_comm (n * q) r ∙ mod-add-div budget n) in
    let r_lt = mod-lt budget {m = n} (omega arith) in
    (
      share_budget srqmsg q r g.peers,
      ground (arith, below, nz),
      (
        peers-share_budget srqmsg q r g.peers,
        ground (arith, total-share_budget srqmsg q r g.peers q_lt, sum, r_lt),
        Even-share_budget srqmsg q r g.peers q_lt,
      ),
    )

-- A search request of another gossiper with a budget from two to 2^63 - 1, at a gossiper that
-- knows a peer, is answered if a file matches and the route back is known, and goes to every peer
-- once, in order; the budgets that are sent add up to the budget less one, and each is the
-- quotient by the number of peers or one more.
pub process_search_request-Shared :
    (matched : List String → List SearchResult) (g : Gossiper) (srqmsg : SearchRequest)
    → srqmsg.origin ≢ g.name
    → 1 < srqmsg.budget
    → srqmsg.budget < min_int
    → g.peers ≢ []
    → (further : Sends) × (process_search_request matched g srqmsg
        ≡ ok (search_reply g srqmsg (matched srqmsg.keywords) ++ further))
      × Shared g (srqmsg.budget - 1) further
unfolding process_search_request
process_search_request-Shared matched g srqmsg ne one lt some_peer =
    let (further, run, shared) =
      send_further-Shared g srqmsg (srqmsg.budget - 1) some_peer (omega arith) in
    let less : (srqmsg.budget + int_range - 1) % int_range ≡ srqmsg.budget - 1 = omega arith in
    (further, ground (arith, run, less), shared)
