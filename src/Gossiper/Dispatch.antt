-- ===== src/Gossiper/Dispatch.antt =====
-- gossiper/Gossiper.go: the message processor, which chooses a handler by the first field that is
-- set. What the libraries and the file system answer is a record.
pub mod Frames
pub mod Safe
pub mod Keeps
pub mod Clients
pub mod Runs
pub mod Integrity
pub mod Chains
use decentralized_peerster.Common.{
  ℕ, Bool, true, false, List, [], ◌∷◌, ◌++◌, Option, none, some, String, Bytes, Outcome, ok, ◌>>=◌,
  if◌then◌else◌,
}
use decentralized_peerster.Models.{
  GossipPacket, ClientMessage, PrivateMessage, ClientPrivateMessage, SearchResult,
}
use decentralized_peerster.Hashing.{Sha}
use decentralized_peerster.Files.{SharedFile}
use decentralized_peerster.Files.Sharing
use decentralized_peerster.Files.Downloading
use decentralized_peerster.Gossiper.{Address, Gossiper, Sends, update_peers_if_needed}
use decentralized_peerster.Gossiper.Routing.{
  process_private_message, process_data_request, process_data_reply, process_addressed_search_reply,
  default_hop_limit,
}
use decentralized_peerster.Gossiper.Broadcast.{
  process_tx_publish, process_block_publish, process_client_to_share,
}
use decentralized_peerster.Gossiper.Downloads.{process_client_data_request}
use decentralized_peerster.Gossiper.Searching.{
  SearchLoop, process_addressed_search_request, process_client_search_request,
}
use decentralized_peerster.Gossiper.Rumors.{
  process_addressed_rumor_message, process_addressed_status_packet,
  process_addressed_simple_message, process_client_rumor, process_client_route_rumor,
}

-- `base` is filepath.Base of a path in the directory of shared files, `is_shared` says of a name
-- that its directory of chunks exists, and `read_file` is what a path holds.
pub record Outside : Type 0 where
  pub sha : Sha
  pub match_string : String → String → Option Bool
  pub base : String → String
  pub is_shared : String → Bool
  pub read_file : String → Option Bytes

-- `if field != nil { … } else …`
abbrev pub if_set {ℓ κ} : {A : Type ℓ} {B : Type κ} → Option A → (A → B) → B → B
if_set none f rest = rest
if_set (some a) f rest = f a

abbrev pub no_search : Outcome (Gossiper × Sends) → Outcome ((Gossiper × Sends) × Option SearchLoop)
no_search o = do done ← o; ok (done, none)

module _ (outside : Outside) where
  -- What the two managers of files have for a hash and for keywords.
  abbrev pub shared_chunk : Gossiper → Bytes → Option Bytes
  shared_chunk g = Sharing.get_chunk_or_metafile g.shared_files_manager

  abbrev pub downloaded_chunk : Gossiper → Bytes → Option Bytes
  downloaded_chunk g = Downloading.get_chunk_or_metafile g.downloading_files_manager

  abbrev pub matched_files : Gossiper → List String → List SearchResult
  matched_files g keywords =
      Sharing.get_search_results outside.match_string g.shared_files_manager keywords
      ++ Downloading.get_search_results outside.match_string g.downloading_files_manager keywords

  abbrev pub shared_facts : Option SharedFile → Option (String × Bytes × ℕ)
  shared_facts none = none
  shared_facts (some sf) = some (sf.name, sf.meta_hash, sf.size)

  unfoldable pub share_and_publish : Gossiper → String → Outcome (Gossiper × Sends)
  share_and_publish g path =
      let name = outside.base path in
      let shared =
        Sharing.share_file outside.sha g.shared_files_manager name (outside.is_shared name)
          (outside.read_file path) in
      process_client_to_share (record g { shared_files_manager = shared.0 }) (shared_facts shared.1)

  -- The handlers in the order of the code's tests: a packet may have several fields.
  unfoldable pub dispatch : Gossiper → GossipPacket → Address → ℕ → Outcome (Gossiper × Sends)
  dispatch g gp address random =
      if_set gp.rumor (λ rmsg. process_addressed_rumor_message g rmsg address random)
        (if_set gp.status (λ sp. process_addressed_status_packet g sp address)
          (if_set gp.simple (λ smsg. ok (process_addressed_simple_message g smsg (some address)))
            (if_set gp.private_message (λ pmsg. ok (process_private_message g pmsg))
              (if_set gp.data_request
                (λ drqmsg. ok (process_data_request (shared_chunk g) (downloaded_chunk g) g drqmsg))
                (if_set gp.data_reply (λ drpmsg. ok (process_data_reply g drpmsg))
                  (if_set gp.search_request
                    (λ srqmsg. process_addressed_search_request (matched_files g) g srqmsg)
                    (if_set gp.search_reply (λ srpmsg. ok (process_addressed_search_reply g srpmsg))
                      (if_set gp.tx_publish (λ tx. process_tx_publish g tx)
                        (if_set gp.block_publish (λ bp. process_block_publish outside.sha g bp)
                          (ok (g, [])))))))))))

  unfoldable pub process_addressed_gossip_packet :
      Gossiper → GossipPacket → Address → ℕ → Outcome (Gossiper × Sends)
  process_addressed_gossip_packet g gp address random =
      dispatch (update_peers_if_needed g address) gp address random

  abbrev private_of : Gossiper → ClientPrivateMessage → PrivateMessage
  private_of g p = record {
    origin = g.name;
    id = 0;
    text = p.text;
    destination = p.destination;
    hop_limit = default_hop_limit;
  }

  -- A message of a client may start the goroutine of a search.
  unfoldable pub process_client_message :
      Gossiper → ClientMessage → ℕ → Outcome ((Gossiper × Sends) × Option SearchLoop)
  process_client_message g cmsg random =
      if_set cmsg.client_rumor (λ text. no_search (process_client_rumor g text random))
        (if_set cmsg.route_rumor (λ _. no_search (process_client_route_rumor g random))
          (if_set cmsg.client_private
            (λ p. no_search (ok (process_private_message g (private_of g p))))
            (if_set cmsg.to_share (λ path. no_search (share_and_publish g path))
              (if_set cmsg.to_download
                (λ cdrqmsg. no_search (process_client_data_request g cdrqmsg))
                (if_set cmsg.to_search
                  (λ csrqmsg.
                    let started = process_client_search_request g csrqmsg.keywords csrqmsg.budget in
                    ok ((started.0, []), started.1))
                  (ok ((g, []), none)))))))
