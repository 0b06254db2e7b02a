-- ===== src/Tests/Gossip.antt =====
-- Runs of gossiper/Gossiper.go and models/filesearching.
use decentralized_peerster.Common.{
  map, ◌++◌, ◌≡◌, ◌↔◌, refl, Bool, true, false, [], ◌∷◌, Option, none, some, String,
  string_discrete, string_key, ite, ok, arith, get_elem?,
}
use decentralized_peerster.Map.{lookup, insert}
use decentralized_peerster.Models.{PrivateMessage, RumorMessage, SearchRequest, inc32}
use decentralized_peerster.Storage.{
  init_message_storage, clock_of, get_current_status_packet, add_rumor_message, scan_theirs,
  messages_of, scan_mine, diff, is_new_message,
}
use decentralized_peerster.Storage.Invariant.{
  init_message_storage-IsValid, add_rumor_message-IsValid, IsValid,
}
use decentralized_peerster.Search.{
  FullSearchMatch, CurrentSearchRequest, init_current_search_request, add_full_match, has_match,
  shutdown,
}
use decentralized_peerster.Search.Matches.{Distinct, add_full_match-Distinct}
use decentralized_peerster.Gossiper.{Address, Gossiper, Sends, new_gossiper}
use decentralized_peerster.Gossiper.Routing.Travel.{
  Network, Route, travel, delivered, hopped, travel-Route, Ended, Arrival, travel-Ended,
}
use decentralized_peerster.Gossiper.Budget.{process_search_request}
use decentralized_peerster.Gossiper.Budget.Shares.{Shared, total, process_search_request-Shared}
use decentralized_peerster.Gossiper.Searching.{SearchLoop, start_search_loop, with_search}
use decentralized_peerster.Gossiper.Searching.Ticks.{rounds, search_ticks, search_ticks-end}
use decentralized_peerster.Gossiper.Rumors.{
  process_addressed_rumor_message, process_addressed_status_packet, rumor_packet, spread_to,
}
use decentralized_peerster.Gossiper.Rumors.Waiting.{
  Received, process_addressed_rumor_message-Received,
}
use decentralized_peerster.Gossiper.Rumors.Spread.{sent_by, status_answered, status_then_rumor}

program : Unit {0}
unfolding lookup insert string_discrete get_current_status_packet scan_theirs scan_mine diff
    is_new_message add_rumor_message process_addressed_status_packet spread_to
program = tt

abbrev alice : Gossiper
alice = record (new_gossiper "alice" "a" ("b" ∷ "c" ∷ []) false) {
  next_hop = ("carol", "b") ∷ [];
  current_search_request = some init_current_search_request;
}

abbrev bob : Gossiper
bob = record (new_gossiper "bob" "b" ("a" ∷ []) false) { next_hop = ("carol", "c") ∷ [] }

abbrev carol : Gossiper
carol = new_gossiper "carol" "c" ("a" ∷ []) false

abbrev net : Network
net address =
    ite (string_discrete address "b") (some bob)
      (ite (string_discrete address "c") (some carol) none)

abbrev hello : PrivateMessage
hello = record { origin = "alice"; id = 0; text = "hi"; destination = "carol"; hop_limit = 5 }

abbrev is_no : {P : Type 0} → Dec P → Bool
is_no (yes _) = false
is_no (no _) = true

pub no_proof : {P : Type 0} (d : Dec P) → is_no d ≡ true → ¬ P
no_proof (yes p) e = absurd (cc)
no_proof (no n) e = n

route : Route net 2 alice "carol" carol
unfolding program
route = (
  no_proof (string_discrete "carol" "alice") refl,
  "b",
  bob,
  refl,
  refl,
  (no_proof (string_discrete "carol" "bob") refl, "c", carol, refl, refl, (refl, refl)),
)

travel-Route_example :
    travel 6 net alice hello ≡ ok (some (delivered carol (hopped hello 2), hopped hello 2))
travel-Route_example = travel-Route net 6 2 alice carol hello route (omega arith)

travel-Ended_example : (o : Option Arrival) × (travel 6 net alice hello ≡ ok o) × Ended hello o
travel-Ended_example = travel-Ended net 6 alice hello (omega arith)

abbrev wanted : SearchRequest
wanted = record { origin = "bob"; budget = 6; keywords = "cat" ∷ [] }

process_search_request-Shared_example :
    (further : Sends) × (process_search_request (λ _. []) alice wanted ≡ ok further)
    × Shared alice 5 further
process_search_request-Shared_example =
    process_search_request-Shared (λ _. []) alice wanted (λ e. cc) (omega arith) (omega arith)
      (λ e. cc)

search_ticks-end_example :
    let l : SearchLoop = start_search_loop ("cat" ∷ []) 0 in
    (sent : Sends) × (l' : SearchLoop) × (search_ticks (λ _. []) 32 l alice
      ≡ ok (some l', alice, sent))
    × (search_ticks (λ _. []) 33 l alice ≡ ok (none, with_search alice shutdown, sent))
    × (map (λ s. s.0) sent ≡ rounds 31 alice.peers)
    × (total sent ≡ 527)
search_ticks-end_example =
    search_ticks-end (λ _. []) 31 alice (start_search_loop ("cat" ∷ []) 0) refl (omega arith)
      (λ e. cc)

abbrev first : RumorMessage
first = record { original_name = "dave"; id = 1; text = "news" }

process_addressed_rumor_message-Received_example :
    (peer : Address) × (get_elem? alice.peers 1 ≡ some peer)
    × (g' : Gossiper) × (sent : Sends) × (process_addressed_rumor_message alice first "b" 1
        ≡ ok (g', sent))
    × Received alice first "b" peer g' sent
process_addressed_rumor_message-Received_example =
    process_addressed_rumor_message-Received alice first "b" 1 (omega arith)

abbrev told : Gossiper
told = record alice { message_storage = (add_rumor_message init_message_storage first).0 }

told-IsValid : IsValid (add_rumor_message init_message_storage first).0
told-IsValid =
    add_rumor_message-IsValid init_message_storage first (omega arith) init_message_storage-IsValid

told_idle : lookup "b" told.status_channels ≡ none
unfolding lookup
told_idle = refl

told_answered :
    (sent_by
        (process_addressed_status_packet told (get_current_status_packet init_message_storage) "b")
      ≡ [])
    ↔ ((name : String) → clock_of told.message_storage name ≡ clock_of init_message_storage name)
told_answered =
    status_answered told init_message_storage "b" told-IsValid init_message_storage-IsValid
      told_idle

told_answers :
    sent_by
      (process_addressed_status_packet told (get_current_status_packet bob.message_storage) "b")
    ≡ ("b", rumor_packet first) ∷ []
unfolding program
told_answers = refl

status_then_rumor_example :
    (h' : Gossiper) × (sent : Sends) × (process_addressed_rumor_message bob first "a" 0
      ≡ ok (h', sent))
    × ((name : String)
        → clock_of h'.message_storage name
          ≡ ite
              (string_discrete "dave" name)
              (inc32 (clock_of init_message_storage name))
              (clock_of init_message_storage name))
    × ((name : String)
        → messages_of h'.message_storage name
          ≡ ite
              (string_discrete "dave" name)
              (messages_of init_message_storage name ++ first ∷ [])
              (messages_of init_message_storage name))
    × (lookup "dave" h'.next_hop ≡ some "a")
status_then_rumor_example =
    status_then_rumor told bob "b" "a" told-IsValid init_message_storage-IsValid told_idle first 0
      (omega arith) told_answers

abbrev found : FullSearchMatch
found = record { filename = "cat.jpg"; origin = "bob"; metafile_hash = 1 ∷ [] }

abbrev search : CurrentSearchRequest
search = record init_current_search_request { full_matches = found ∷ [] }

abbrev other : FullSearchMatch
other = record { filename = "cat.jpg"; origin = "carol"; metafile_hash = 1 ∷ [] }

search-Distinct :
    Distinct (add_full_match search other).full_matches
    × (has_match (add_full_match search other).full_matches other ≡ true)
    × (add_full_match (add_full_match search other) other ≡ add_full_match search other)
search-Distinct = add_full_match-Distinct search other (tt, tt)
