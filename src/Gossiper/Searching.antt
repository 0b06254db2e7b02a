-- ===== src/Gossiper/Searching.antt =====
-- gossiper/Gossiper.go and utils/Utils.go: the requests that were answered recently, and the
-- goroutine of this gossiper's own search as a function for each case of its `select`: the ticker
-- fired, or a reply came from the channel. An int is given by its bits, as in Gossiper/Budget.
pub mod Ticks
use Prim.Native.String.{◌++◌ as ◌+++◌}
use decentralized_peerster.Common.{
  ℕ, ◌+◌, ◌%◌, Bool, true, false, ◌==◌, leb, ltb, List, [], ◌∷◌, ◌++◌, Option, none, some, String,
  string_discrete, ite, Outcome, ok, panic, ◌>>=◌, if◌then◌else◌, length, Bytes,
}
use decentralized_peerster.Models.{SearchRequest, SearchResult, SearchReply}
use decentralized_peerster.Search.{
  CurrentSearchRequest, FullSearchMatch, init_current_search_request, add_full_match,
  get_full_matches_number, shutdown,
}
use decentralized_peerster.Gossiper.{Gossiper, Sends}
use decentralized_peerster.Gossiper.Budget.{int_range, min_int, process_search_request}

-- `strings.Join(keywords, ",")`
abbrev pub join : List String → String
join [] = ""
join (k ∷ []) = k
join (k ∷ l ∷ ks) = k +++ "," +++ join (l ∷ ks)

abbrev pub get_recent_search_request_set_key : String → List String → String
get_recent_search_request_set_key origin keywords = origin +++ "-" +++ join keywords

unfoldable pub recently_answered : List String → String → Bool
recently_answered [] setkey = false
recently_answered (k ∷ ks) setkey =
    ite (string_discrete k setkey) true (recently_answered ks setkey)

unfoldable pub forget : List String → String → List String
forget [] setkey = []
forget (k ∷ ks) setkey =
    let rest = forget ks setkey in ite (string_discrete k setkey) rest (k ∷ rest)

abbrev pub set_key : SearchRequest → String
set_key srqmsg = get_recent_search_request_set_key srqmsg.origin srqmsg.keywords

unfoldable pub process_addressed_search_request :
    (matched : List String → List SearchResult)
    → Gossiper
    → SearchRequest
    → Outcome (Gossiper × Sends)
process_addressed_search_request matched g srqmsg =
    if recently_answered g.recent_search_requests (set_key srqmsg) then ok (g, []) else (do
      let g' = record g { recent_search_requests = set_key srqmsg ∷ g.recent_search_requests }
      sent ← process_search_request matched g' srqmsg
      ok (g', sent))

-- What the goroutine that waits for `RecentSearchRequestTimeout` does then.
abbrev pub search_request_timeout : Gossiper → String → Gossiper
search_request_timeout g setkey = record g {
  recent_search_requests = forget g.recent_search_requests setkey;
}

abbrev pub file_search_start_budget : ℕ
file_search_start_budget = 2

abbrev pub file_search_max_budget : ℕ
file_search_max_budget = 32

abbrev pub file_search_full_matches_threshold : ℕ
file_search_full_matches_threshold = 2

-- The variables of the goroutine.
pub record SearchLoop : Type 0 where
  pub keywords : List String
  pub budget : ℕ
  pub max_allowed_budget : ℕ

abbrev pub start_search_loop : List String → ℕ → SearchLoop
start_search_loop keywords budget =
    if budget == 0
    then record {
      keywords = keywords;
      budget = file_search_start_budget;
      max_allowed_budget = file_search_max_budget;
    }
    else record { keywords = keywords; budget = budget; max_allowed_budget = budget }

abbrev pub start_search : Gossiper → List String → ℕ → Gossiper × Option SearchLoop
start_search g keywords budget = (
  record g { current_search_request = some init_current_search_request },
  some (start_search_loop keywords budget),
)

-- Nothing is started while a search is alive.
unfoldable pub process_client_search_request :
    Gossiper → List String → ℕ → Gossiper × Option SearchLoop
process_client_search_request g keywords budget = elim g.current_search_request [
  | none ↦ start_search g keywords budget
  | some csr ↦ if csr.is_alive then (g, none) else start_search g keywords budget
]

abbrev pub int_increment : ℕ → ℕ
int_increment budget = (budget + 1) % int_range

-- `a > b` of ints.
abbrev pub int_above : ℕ → ℕ → Bool
int_above a b = ltb ((b + min_int) % int_range) ((a + min_int) % int_range)

abbrev pub with_search : Gossiper → (CurrentSearchRequest → CurrentSearchRequest) → Gossiper
with_search g f = elim g.current_search_request [
  | none ↦ g
  | some csr ↦ record g { current_search_request = some (f csr) }
]

-- The loop, or none if the goroutine returned, the gossiper, and what was sent.
abbrev pub LoopStep : Type 0
LoopStep = Option SearchLoop × Gossiper × Sends

unfoldable pub search_tick :
    (matched : List String → List SearchResult) → SearchLoop → Gossiper → Outcome LoopStep
search_tick matched l g =
    let next = record l { budget = int_increment l.budget } in
    if int_above l.budget l.max_allowed_budget
    then if int_above l.budget (int_increment l.max_allowed_budget)
      then ok (none, with_search g shutdown, [])
      else ok (some next, g, [])
    else (do
      sent ←
          process_search_request matched g
            (record { origin = g.name; budget = l.budget; keywords = l.keywords })
      ok (some next, g, sent))

-- `GetTypeStrictHash` (utils/Utils.go) takes 32 bytes.
abbrev pub add_result : String → CurrentSearchRequest → SearchResult → CurrentSearchRequest
add_result origin csr res =
    if length res.chunk_map == res.chunk_count
    then if length res.metafile_hash == 32
      then add_full_match csr
          (record { filename = res.file_name; origin = origin; metafile_hash = res.metafile_hash })
      else csr
    else csr

abbrev pub add_results : String → List SearchResult → CurrentSearchRequest → CurrentSearchRequest
add_results origin [] csr = csr
add_results origin (res ∷ results) csr = add_results origin results (add_result origin csr res)

-- The goroutine takes a reply from the channel: the full matches are kept, and the search ends at
-- the threshold. `none` for the search request is the panic of a nil pointer.
unfoldable pub search_reply_step :
    SearchLoop → CurrentSearchRequest → SearchReply → Option SearchLoop × CurrentSearchRequest
search_reply_step l csr srp =
    let csr' = add_results srp.origin srp.results csr in
    if leb file_search_full_matches_threshold (get_full_matches_number csr')
    then (none, shutdown csr')
    else (some l, csr')
