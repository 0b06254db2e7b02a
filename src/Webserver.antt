-- ===== src/Webserver.antt =====
-- webserver/Webserver.go: the routes and their handlers, and the methods of gossiper/Gossiper.go that
-- they call. A request is a method, a path and a body; an answer is what stands before json.Marshal.
-- The static files at "/" are the file server's of net/http, and a path with no route the router's.
pub mod Orders
pub mod Shown
use Prim.Native.String.{◌++◌ as ◌+++◌}
use decentralized_peerster.Common.{
  ℕ, Bool, true, false, List, [], ◌∷◌, Option, none, some, String, string_discrete, Bytes, ite,
  if◌then◌else◌, Outcome, ok, ◌>>=◌, map,
}
use decentralized_peerster.Models.{ClientMessage, RumorMessage, PrivateMessage}
use decentralized_peerster.Storage.{get_next_message_id}
use decentralized_peerster.Search.{get_full_matches}
use decentralized_peerster.Files.{SharedFile}
use decentralized_peerster.Files.Sharing.{SharedFilesManager}
use decentralized_peerster.Gossiper.{nil_address, Address, Gossiper, update_peers_if_needed}
use decentralized_peerster.Client.{
  send_rumor_message, send_to_share_message, set_gossiper_name, web_send_private_message,
  web_request_file, web_search, download_found_by_name, found_message,
}
use decentralized_peerster.Client.Port.{send_message_to_local_port}
use decentralized_peerster.Start.{Network}

-- What Go's libraries and the file system answer: `resolve` is ResolveUDPAddr with none for its
-- error, `sort` is sort.Strings and `encode` hex.EncodeToString; the last four
-- are as in Client/Port, and the others as in Client.
pub record Libraries : Type 0 where
  pub resolve : String → Option Address
  pub sort : List String → List String
  pub encode : Bytes → String
  pub decode_string : String → Option Bytes
  pub split : String → String → List String
  pub trim_space : String → String
  pub itoa : ℕ → String
  pub exists : String → Bool
  pub encode_message : ClientMessage → Option Bytes
  pub dial : Address → Bool
  pub network : Network
  pub client_port : ℕ

-- A name that does not resolve is logged, and the nil goes on.
abbrev pub address_or_nil : Option Address → Address
address_or_nil none = nil_address
address_or_nil (some addr) = addr

unfoldable pub add_peer : Libraries → Gossiper → String → Gossiper
add_peer lib g name = update_peers_if_needed g (address_or_nil (lib.resolve name))

unfoldable pub get_origins_copy : Libraries → Gossiper → List String
get_origins_copy lib g = lib.sort (map (λ e. e.0) g.next_hop)

abbrev pub shared_line : Libraries → Bytes × SharedFile → String
shared_line lib e = (e.1).name +++ " - " +++ lib.encode (e.1).meta_hash

unfoldable pub get_shared_files_list : Libraries → SharedFilesManager → List String
get_shared_files_list lib sfm = lib.sort (map (shared_line lib) sfm.shared_files)

unfoldable pub get_full_search_matches : Gossiper → List String
get_full_search_matches g = elim g.current_search_request [
  | none ↦ []
  | some csr ↦ get_full_matches csr
]

abbrev pub get_id : Gossiper → String → ℕ
get_id g name = get_next_message_id g.message_storage name

abbrev pub get_peers_copy : Gossiper → List Address
get_peers_copy g = g.peers

abbrev pub get_rumor_messages : Gossiper → List RumorMessage
get_rumor_messages g = g.message_storage.non_empty_messages_chron_order

abbrev pub get_private_messages : Gossiper → List PrivateMessage
get_private_messages g = g.message_storage.private_messages

pub data Method : Type 0 where
  get : Method
  post : Method

pub data Answer : Type 0 where
  no_json : Answer
  json_text : String → Answer
  json_number : ℕ → Answer
  json_peers : List Address → Answer
  json_texts : List String → Answer
  json_messages : List RumorMessage → List PrivateMessage → Answer
  not_routed : Answer

-- The gossiper after the request, the answer, and the datagram to the local port for clients.
pub record Served : Type 0 where
  pub gossiper : Gossiper
  pub answer : Answer
  pub to_local_port : Option (Address × Bytes)

abbrev pub shows : Gossiper → Answer → Outcome Served
shows g answer = ok (record { gossiper = g; answer = answer; to_local_port = none })

abbrev pub changes : Gossiper → Outcome Served
changes g = shows g no_json

-- An error of the encoding or of the address is logged; after one of Dial the handler panics.
abbrev pub sends : Libraries → Gossiper → Option ClientMessage → Outcome Served
sends lib g none = changes g
sends lib g (some message) = do
  datagram ←
      send_message_to_local_port lib.encode_message lib.dial lib.network message lib.client_port
  ok (record { gossiper = g; answer = no_json; to_local_port = datagram })

-- `case text path a rest`: `a` for this path, else `rest`.
abbrev pub case : {A : Type 0} → String → String → A → A → A
case text path a rest = ite (string_discrete path text) a rest

module _ (lib : Libraries) (fuel : ℕ) (g : Gossiper) where
  abbrev pub get_gossiper_name : Outcome Served
  get_gossiper_name = shows g (json_text g.name)

  abbrev pub get_gossiper_id : Outcome Served
  get_gossiper_id = shows g (json_number (get_id g g.name))

  abbrev pub get_peers : Outcome Served
  get_peers = shows g (json_peers (get_peers_copy g))

  abbrev pub get_origins : Outcome Served
  get_origins = shows g (json_texts (get_origins_copy lib g))

  abbrev pub get_messages : Outcome Served
  get_messages = shows g (json_messages (get_rumor_messages g) (get_private_messages g))

  abbrev pub get_shared_files : Outcome Served
  get_shared_files = shows g (json_texts (get_shared_files_list lib g.shared_files_manager))

  abbrev pub get_search_matches : Outcome Served
  get_search_matches = shows g (json_texts (get_full_search_matches g))

  abbrev pub post_rumor_message : String → Outcome Served
  post_rumor_message body = sends lib g (some (send_rumor_message body))

  abbrev pub post_private_message : String → Outcome Served
  post_private_message body = do
    message ← web_send_private_message lib.split body
    sends lib g (some message)

  abbrev pub post_share_file : String → Outcome Served
  post_share_file body = sends lib g (some (send_to_share_message body))

  abbrev pub post_request_file : String → Outcome Served
  post_request_file body = do
    message ← web_request_file lib.decode_string lib.split lib.itoa lib.exists fuel body
    sends lib g message

  abbrev pub post_search : String → Outcome Served
  post_search body = sends lib g (some (web_search lib.split body))

  abbrev pub post_download_found : String → Outcome Served
  post_download_found body = do
    found ← download_found_by_name g body
    sends lib g (found_message lib.decode_string lib.encode found)

  unfoldable pub serve_get : String → Outcome Served
  serve_get path = case "/getGossiperName" path get_gossiper_name (
      case "/getGossiperID" path get_gossiper_id (
        case "/getPeers" path get_peers (
          case "/getOrigins" path get_origins (
            case "/getMessages" path get_messages (
              case "/getSharedFiles" path get_shared_files
                (case "/getSearchMatches" path get_search_matches (shows g not_routed)))))))

  unfoldable pub serve_post : String → String → Outcome Served
  serve_post path body =
      case "/setGossiperName" path (changes (set_gossiper_name lib.trim_space g body)) (
        case "/addPeer" path (changes (add_peer lib g body)) (
          case "/sendRumorMessage" path (post_rumor_message body) (
            case "/sendPrivateMessage" path (post_private_message body) (
              case "/shareFile" path (post_share_file body) (
                case "/requestFile" path (post_request_file body) (
                  case "/search" path (post_search body) (
                    case "/downloadFound" path (post_download_found body)
                      (shows g not_routed))))))))

  unfoldable pub serve : Method → String → String → Outcome Served
  serve get path body = serve_get path
  serve post path body = serve_post path body
