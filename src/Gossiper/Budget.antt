-- ===== src/Gossiper/Budget.antt =====
-- gossiper/Gossiper.go: search requests. `budget` is an int (64 bits) there and a uint64 in the
-- packet; here it is the uint64 of the same bits, and a value from 2^63 on is a negative int.
pub mod Shares
use decentralized_peerster.Common.{
  ℕ, ◌+◌, ◌-◌, ◌/◌, ◌%◌, ◌^◌, Bool, true, false, ◌==◌, ◌||◌, leb, ltb, List, [], ◌∷◌, ◌++◌, String,
  string_discrete, ite, Outcome, ok, panic, ◌>>=◌, if◌then◌else◌, length, Option, none, some,
}
use decentralized_peerster.Models.{GossipPacket, empty_packet, SearchRequest, SearchResult}
use decentralized_peerster.Gossiper.{Address, Gossiper, Sends, send_packet_with_next_hop}
use decentralized_peerster.Gossiper.Routing.{search_reply_packet, default_hop_limit}

abbrev pub int_range : ℕ
int_range = 2 ^ 64

abbrev pub min_int : ℕ
min_int = 2 ^ 63

-- `budget <= 0`
abbrev pub not_positive : ℕ → Bool
not_positive budget = budget == 0 || leb min_int budget

-- Go's division rounds to zero.
abbrev pub int_div : ℕ → ℕ → ℕ
int_div budget n =
    if ltb budget min_int then budget / n else (int_range - (int_range - budget) / n) % int_range

-- The remainder has the sign of the budget; the loop asks only how far it is above zero.
abbrev pub residual_above_zero : ℕ → ℕ → ℕ
residual_above_zero budget n = if ltb budget min_int then budget % n else 0

abbrev pub search_request_packet : SearchRequest → GossipPacket
search_request_packet srqmsg = record empty_packet { search_request = some srqmsg }

-- The loop over the peers.
unfoldable pub share_budget : SearchRequest → ℕ → ℕ → List Address → Sends
share_budget srqmsg quotient residual [] = []
share_budget srqmsg quotient residual (peer ∷ peers) =
    let newbudget = if ltb 0 residual then (quotient + 1) % int_range else quotient in
    (peer, search_request_packet (record srqmsg { budget = newbudget }))
    ∷ share_budget srqmsg quotient (residual - 1) peers

unfoldable pub send_further : Gossiper → SearchRequest → ℕ → Outcome Sends
send_further g srqmsg budget =
    let n = length g.peers in
    if n == 0
    then panic
    else ok (share_budget srqmsg (int_div budget n) (residual_above_zero budget n) g.peers)

abbrev pub search_reply : Gossiper → SearchRequest → List SearchResult → Sends
search_reply g srqmsg [] = []
search_reply g srqmsg (r ∷ results) = send_packet_with_next_hop g srqmsg.origin (
    search_reply_packet record {
      origin = g.name;
      destination = srqmsg.origin;
      hop_limit = default_hop_limit;
      results = r ∷ results;
    })

-- `matched` are the shared and the downloaded files that match the keywords.
unfoldable pub process_search_request :
    (matched : List String → List SearchResult) → Gossiper → SearchRequest → Outcome Sends
process_search_request matched g srqmsg = elim (string_discrete srqmsg.origin g.name) [
  | yes _ ↦ send_further g srqmsg srqmsg.budget
  | no _ ↦
      let reply = search_reply g srqmsg (matched srqmsg.keywords) in
      let budget = (srqmsg.budget + int_range - 1) % int_range in
      if not_positive budget
      then ok reply
      else (do further ← send_further g srqmsg budget; ok (reply ++ further))
]
