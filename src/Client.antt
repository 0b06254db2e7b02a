-- ===== src/Client.antt =====
-- utils/send-utils/SendUtils.go, client/main.go, and the requests to webserver/Webserver.go that
-- reach the gossiper: the message that goes to the local port.
-- `decode_string` is hex.DecodeString with none for its error, `split` is strings.Split,
-- `trim_space` strings.TrimSpace, `itoa` strconv.Itoa, and `exists` says that there is a download of
-- that name.
pub mod Names
pub mod Requests
pub mod Port
use Prim.Native.String.{◌++◌ as ◌+++◌}
use decentralized_peerster.Common.{
  ℕ, zero, suc, ◌+◌, Bool, true, false, not, ◌&&◌, List, [], ◌∷◌, Option, none, some, String,
  string_discrete, Bytes, ite, if◌then◌else◌, Outcome, ok, panic, out_of_fuel, get_elem?,
  guard_some, ◌>>=◌,
}
use decentralized_peerster.Models.{ClientMessage, empty_client_message}
use decentralized_peerster.Files.{get_type_strict_hash}
use decentralized_peerster.Search.{ToDownload, download_file_by_name}
use decentralized_peerster.Gossiper.{Gossiper, set_name}
use decentralized_peerster.Gossiper.Downloads.{ask_local_port}

abbrev pub send_route_rumor_message : ClientMessage
send_route_rumor_message = record empty_client_message { route_rumor = some tt }

abbrev pub send_rumor_message : String → ClientMessage
send_rumor_message message = record empty_client_message { client_rumor = some message }

abbrev pub send_private_message : String → String → ClientMessage
send_private_message message destination = record empty_client_message {
  client_private = some (record { text = message; destination = destination });
}

abbrev pub send_to_share_message : String → ClientMessage
send_to_share_message path = record empty_client_message { to_share = some path }

abbrev pub download_message : String → String → Bytes → ClientMessage
download_message name destination hash_value = record empty_client_message {
  to_download = some (record { name = name; destination = destination; hash_value = hash_value });
}

abbrev pub send_to_search_message : List String → ℕ → ClientMessage
send_to_search_message keywords budget = record empty_client_message {
  to_search = some (record { keywords = keywords; budget = budget });
}

abbrev pub typed_hash : Option Bytes → Option Bytes
typed_hash none = none
typed_hash (some hash_value) = get_type_strict_hash hash_value

abbrev pub download_typed : String → String → Option Bytes → Option ClientMessage
download_typed name destination none = none
download_typed name destination (some typed) = some (download_message name destination typed)

-- A hash that is not 32 bytes in hex is not sent.
unfoldable pub send_to_download_message :
    (decode_string : String → Option Bytes) → String → String → String → Option ClientMessage
send_to_download_message decode_string name hash_string destination =
    download_typed name destination (typed_hash (decode_string hash_string))

abbrev pub is_empty_string : String → Bool
is_empty_string s = ite (string_discrete s "") true false

-- The flags of the client; `budget` is the number that uint64 makes of the flag.
pub record Flags : Type 0 where
  pub msg : String
  pub dest : String
  pub file : String
  pub request : String
  pub keywords : String
  pub budget : ℕ

unfoldable pub client_main :
    (decode_string : String → Option Bytes)
    → (split : String → String → List String) → Flags
    → Option ClientMessage
client_main decode_string split f =
    if not (is_empty_string f.dest) && not (is_empty_string f.msg)
    then some (send_private_message f.msg f.dest)
    else if not (is_empty_string f.msg)
    then some (send_rumor_message f.msg)
    else if not (is_empty_string f.request) && not (is_empty_string f.file)
    then send_to_download_message decode_string f.file f.request f.dest
    else if not (is_empty_string f.file)
    then some (send_to_share_message f.file)
    else if not (is_empty_string f.keywords)
    then some (send_to_search_message (split f.keywords ",") f.budget)
    else none

-- A name of spaces is not taken.
unfoldable pub set_gossiper_name : (trim_space : String → String) → Gossiper → String → Gossiper
set_gossiper_name trim_space g name =
    if is_empty_string (trim_space name) then g else set_name g name

-- A body with no bar is indexed out of range.
unfoldable pub web_send_private_message :
    (split : String → String → List String) → String → Outcome ClientMessage
web_send_private_message split body = do
  dest ← guard_some (get_elem? (split body "|") 0)
  text ← guard_some (get_elem? (split body "|") 1)
  ok (send_private_message text dest)

-- The loop over the numbers of downloads from `i` on.
unfoldable pub free_number :
    (itoa : ℕ → String) → (exists : String → Bool) → String → ℕ → ℕ → Outcome ℕ
free_number itoa exists dest zero i = out_of_fuel
free_number itoa exists dest (suc fuel) i =
    let rest = free_number itoa exists dest fuel (i + 1) in
    if exists (dest +++ ("-" +++ itoa i)) then rest else ok i

unfoldable pub web_request_file :
    (decode_string : String → Option Bytes)
    → (split : String → String → List String) → (itoa : ℕ → String) → (exists : String → Bool) → ℕ
    → String
    → Outcome (Option ClientMessage)
web_request_file decode_string split itoa exists fuel body = do
  dest ← guard_some (get_elem? (split body "|") 0)
  hash ← guard_some (get_elem? (split body "|") 1)
  filenumber ← free_number itoa exists dest fuel 1
  ok (send_to_download_message decode_string (dest +++ ("-" +++ itoa filenumber)) hash dest)

-- No budget is given.
abbrev pub web_search : (split : String → String → List String) → String → ClientMessage
web_search split body = send_to_search_message (split body ",") 0

-- The message of DownloadFileByName, whose hash is encoded and decoded on the way.
unfoldable pub found_message :
    (decode_string : String → Option Bytes)
    → (encode : Bytes → String) → Option ToDownload
    → Option ClientMessage
found_message decode_string encode none = none
found_message decode_string encode (some d) =
    send_to_download_message decode_string d.name (encode d.hash_value) d.destination

-- The pointer to the search is nil before the first one.
unfoldable pub download_found_by_name : Gossiper → String → Outcome (Option ToDownload)
download_found_by_name g name = elim g.current_search_request [
  | none ↦ panic
  | some csr ↦ ok (download_file_by_name csr name name)
]

-- One round of StartRouteRumorsSpreading, if the timer is not disabled.
abbrev pub route_rumor_round : Bool → Option ClientMessage
route_rumor_round disabled = if disabled then none else some send_route_rumor_message
