-- ===== src/Gossiper.antt =====
-- gossiper/Gossiper.go: the state of a gossiper, its peers and its routing table. A UDP address is
-- the text that `String()` gives, by which the code compares addresses. What a handler puts into
-- the channel to the peer-writer thread is the list of packets that it returns.
pub mod Routing
pub mod Budget
pub mod Searching
pub mod Rumors
pub mod Broadcast
pub mod Downloads
pub mod Mining
pub mod Channels
pub mod Dispatch
pub mod Threads
use decentralized_peerster.Common.{
  Bytes, ℕ, Bool, true, false, List, [], ◌∷◌, ◌++◌, Option, none, some, String, string_discrete,
  string_key, ite, get_elem?, Outcome, ok, panic, guard_some, map, if◌then◌else◌,
}
use decentralized_peerster.Map.{Map, lookup, insert}
use decentralized_peerster.Models.{GossipPacket, RumorMessage, StatusPacket, DataReply}
use decentralized_peerster.Storage.{MessageStorage, init_message_storage}
use decentralized_peerster.Search.{CurrentSearchRequest, ToDownload}
use decentralized_peerster.Files.Sharing.{SharedFilesManager, init_shared_files_manager}
use decentralized_peerster.Files.Downloading.{
  DownloadingFilesManager, init_downloading_files_manager,
}
use decentralized_peerster.Blockchain.Manager.{BlockchainManager, init_blockchain_manager}

abbrev pub Address : Type 0
Address = String

abbrev pub Sends : Type 0
Sends = List (Address × GossipPacket)

-- A goroutine of rumor-mongering that took a status packet from its channel.
pub record Feedback : Type 0 where
  pub message : RumorMessage
  pub peer : Address
  pub status : StatusPacket

-- The variables of a goroutine that downloads a file.
pub record DownloadLoop : Type 0 where
  pub latest_requested_hash : Bytes
  pub timeouts_limit : ℕ

-- `status_channels` has an entry for each goroutine that waits for feedback, with the rumor that
-- the goroutine was started for. `download_channels` has for each origin what stands in the channel
-- to its downloading goroutine, and `download_loops` that goroutine while it runs. `local_port` is
-- what this gossiper sent to its own port for clients, and `peers_connection` is what LocalAddr of
-- that connection answers.
pub record Gossiper : Type 0 where
  pub name : String
  pub peers_connection : Address
  pub peers : List Address
  pub next_hop : Map String Address
  pub message_storage : MessageStorage
  pub status_channels : Map Address RumorMessage
  pub feedback : List Feedback
  pub download_channels : Map String (List DataReply)
  pub download_loops : Map String DownloadLoop
  pub shared_files_manager : SharedFilesManager
  pub downloading_files_manager : DownloadingFilesManager
  pub local_port : List ToDownload
  pub current_search_request : Option CurrentSearchRequest
  pub recent_search_requests : List String
  pub blockchain_manager : BlockchainManager
  pub is_simple_mode : Bool

-- `rand.Int31n(n)` panics where n is 0; `random` is what it returns.
-- `String()` of a nil `*UDPAddr`, which is how a peer with no address compares.
abbrev pub nil_address : Address
nil_address = "<nil>"

unfoldable pub get_random_peer : Gossiper → ℕ → Outcome Address
get_random_peer g random = guard_some (get_elem? g.peers random)

unfoldable pub are_peers_empty : Gossiper → Bool
are_peers_empty g = elim g.peers [ [] ↦ true | _ ∷ _ ↦ false ]

unfoldable pub send_all_peers : Gossiper → GossipPacket → Sends
send_all_peers g gp = map (λ p. (p, gp)) g.peers

unfoldable pub knows_peer : List Address → Address → Bool
knows_peer [] peer = false
knows_peer (p ∷ ps) peer = ite (string_discrete p peer) true (knows_peer ps peer)

unfoldable pub update_peers_if_needed : Gossiper → Address → Gossiper
update_peers_if_needed g peer =
    if knows_peer g.peers peer then g else record g { peers = g.peers ++ peer ∷ [] }

abbrev pub set_name : Gossiper → String → Gossiper
set_name g name = record g { name = name }

-- The entry is written where it is missing or differs.
unfoldable pub update_next_hop : Gossiper → String → Address → Gossiper
update_next_hop g origin relay = elim (lookup origin g.next_hop) [
  | none ↦ record g { next_hop = insert origin relay g.next_hop }
  | some addr ↦
      ite (string_discrete addr relay) g (record g { next_hop = insert origin relay g.next_hop })
]

unfoldable pub send_packet_with_next_hop : Gossiper → String → GossipPacket → Sends
send_packet_with_next_hop g origin gp = elim (lookup origin g.next_hop) [
  | none ↦ []
  | some addr ↦ (addr, gp) ∷ []
]

-- The fields that `NewGossiper` sets; it reads and opens the addresses with the net package.
abbrev pub new_gossiper : String → Address → List Address → Bool → Gossiper
new_gossiper name peers_connection peers is_simple_mode = record {
  name = name;
  peers_connection = peers_connection;
  peers = peers;
  next_hop = [];
  message_storage = init_message_storage;
  status_channels = [];
  feedback = [];
  download_channels = [];
  download_loops = [];
  shared_files_manager = init_shared_files_manager;
  downloading_files_manager = init_downloading_files_manager;
  local_port = [];
  current_search_request = none;
  recent_search_requests = [];
  blockchain_manager = init_blockchain_manager;
  is_simple_mode = is_simple_mode;
}
