-- ===== src/Gossiper/Dispatch/Runs.antt =====
-- The states that a gossiper gets to from its start: gossiper/Gossiper.go, the steps of the message
-- processor and of the other threads, one at a time and in any order.
use mathlib.Core.Path.{subst}
use decentralized_peerster.Common.{
  ◌∙◌, ℕ, ◌≡◌, ◌<◌, sym, Bool, List, ◌∷◌, Option, some, String, string_key, Bytes, ok, length,
  bytes_key, get_elem?,
}
use decentralized_peerster.Map.{lookup, insert}
use decentralized_peerster.Models.{
  GossipPacket, ClientMessage, RumorMessage, DataReply, Block, SearchReply, SearchResult,
}
use decentralized_peerster.Storage.Invariant.{init_message_storage-IsValid}
use decentralized_peerster.Hashing.{Sha}
use decentralized_peerster.Blockchain.Nodes.{BlockNode, get_block_hash}
use decentralized_peerster.Blockchain.Manager.{BlockchainManager, candidate}
use decentralized_peerster.Blockchain.Manager.Invariant.{Honest, IsValid, init-IsValid}
use decentralized_peerster.Gossiper.Mining.{mining_thread_round}
use decentralized_peerster.Gossiper.Mining.Published.{mining_thread_round-Publishes}
use decentralized_peerster.Webserver.{Libraries, Method, Served, serve}
use decentralized_peerster.Search.{CurrentSearchRequest}
use decentralized_peerster.Gossiper.{
  Address, Gossiper, Sends, Feedback, DownloadLoop, new_gossiper, update_peers_if_needed,
}
use decentralized_peerster.Gossiper.Searching.{
  SearchLoop, search_request_timeout, search_tick, search_reply_step,
}
use decentralized_peerster.Gossiper.Rumors.{mongering_timeout, mongering_status, anti_entropy}
use decentralized_peerster.Gossiper.Downloads.{download_tick, download_reply}
use decentralized_peerster.Gossiper.Dispatch.{
  Outside, process_addressed_gossip_packet, process_client_message,
}
use decentralized_peerster.Gossiper.Dispatch.Safe.{
  IsSound, Arrives, process_addressed_gossip_packet-Goes,
}
use decentralized_peerster.Gossiper.Dispatch.Keeps.{
  Keeps, Keeps-timeout, Keeps-status, Sound-download_tick, Sound-download_reply,
}
use decentralized_peerster.Gossiper.Dispatch.Clients.{
  Sound_search, KeepsTick, search_tick-KeepsTick, served-Sound, KeepsClient, client-KeepsClient,
}

-- The block that a nonce makes on the current tail is around.
abbrev pub Around : Sha → (Block → Type 0) → BlockchainManager → Bytes → Type 0
Around sha Seen bm nonce =
    (t : BlockNode) (h : Bytes)
    → get_elem? bm.nodes bm.tail ≡ some t
    → get_block_hash sha t ≡ ok h
    → Seen (candidate h bm.pending_tx nonce)

module _ (outside : Outside) (Seen : Block → Type 0) where
  -- One step of some thread, or a request to the web server. A client message, a request, the
  -- goroutine of a rumor or of a search and the anti-entropy timer may panic, and then there is no
  -- such step. A client message and a search find the file system as it is then. The mining thread
  -- looked at the manager in an earlier valid state.
  pub data Step (g : Gossiper) : Gossiper → Type 0 where
    packet :
        (gp : GossipPacket) (address : Address) (random : ℕ) {g' : Gossiper} {sent : Sends}
        → Arrives outside.sha Seen gp
        → random < length (update_peers_if_needed g address).peers
        → process_addressed_gossip_packet outside g gp address random ≡ ok (g', sent)
        → Step g g'
    client :
        (is_shared : String → Bool) (read_file : String → Option Bytes) (cmsg : ClientMessage)
        (random : ℕ) {g' : Gossiper} {sent : Sends} {started : Option SearchLoop}
        → process_client_message
            (record outside { is_shared = is_shared; read_file = read_file })
            g
            cmsg
            random
          ≡ ok ((g', sent), started)
        → Step g g'
    rumor_timeout :
        (peer : Address) (m : RumorMessage) (coin : Bool) (random again : ℕ) {g' : Gossiper}
        {sent : Sends}
        → lookup peer g.status_channels ≡ some m
        → mongering_timeout g peer m coin random again ≡ ok (g', sent)
        → Step g g'
    rumor_status :
        (f : Feedback) (rest : List Feedback) (coin : Bool) (random again : ℕ) {g' : Gossiper}
        {sent : Sends}
        → g.feedback ≡ f ∷ rest
        → mongering_status g f rest coin random again ≡ ok (g', sent)
        → Step g g'
    request_forgotten : (setkey : String) → Step g (search_request_timeout g setkey)
    file_tick :
        (origin : String) (l : DownloadLoop)
        → lookup origin g.download_loops ≡ some l
        → Step g (download_tick g origin l).0
    file_reply :
        (dir_exists : Bool) (pick : ℕ) (origin : String) (l : DownloadLoop) (m : DataReply)
        (inbox : List DataReply)
        → lookup origin g.download_loops ≡ some l
        → lookup origin g.download_channels ≡ some (m ∷ inbox)
        → Step g
            (download_reply outside.sha dir_exists pick
              (record g { download_channels = insert origin inbox g.download_channels })
              origin
              l
              m).0
    served :
        (lib : Libraries) (fuel : ℕ) (method : Method) (path body : String) {r : Served}
        → serve lib fuel g method path body ≡ ok r
        → Step g r.gossiper
    searched :
        (matched : List String → List SearchResult) (l : SearchLoop) {l' : Option SearchLoop}
        {g' : Gossiper} {sent : Sends}
        → search_tick matched l g ≡ ok (l', g', sent)
        → Step g g'
    search_answered :
        (l : SearchLoop) (csr : CurrentSearchRequest) (srp : SearchReply) (inbox : List SearchReply)
        → g.current_search_request ≡ some csr
        → csr.inbox ≡ srp ∷ inbox
        → Step g (record g {
          current_search_request = some (search_reply_step l (record csr { inbox = inbox }) srp).1;
        })
    compared : (random : ℕ) {sent : Sends} → anti_entropy g random ≡ ok sent → Step g g
    mined :
        (nonce : Bytes) (earlier : BlockchainManager) {g' : Gossiper} {sent : Sends}
        → IsValid outside.sha Seen earlier
        → Around outside.sha Seen g.blockchain_manager nonce
        → mining_thread_round outside.sha nonce earlier g ≡ ok (g', sent)
        → Step g g'

  pub data Reach (start : Gossiper) : Gossiper → Type 0 where
    here : Reach start start
    later : {g h : Gossiper} → Reach start g → Step g h → Reach start h

module _ (outside : Outside) (Seen : Block → Type 0) (honest : Honest outside.sha Seen) where
  Step-IsSound :
      {g h : Gossiper}
      → Step outside Seen g h
      → IsSound outside.sha Seen g
      → IsSound outside.sha Seen h
  unfolding KeepsClient KeepsTick
  Step-IsSound {g} (Step.packet gp address random arrives lt run) s =
      let (g', sent, run', s', _) =
        process_addressed_gossip_packet-Goes outside Seen honest g gp address random arrives lt s in
      subst (λ o. Keeps outside.sha Seen o) (sym run' ∙ run) s'
  Step-IsSound {g} (Step.client is_shared read_file cmsg n run) s =
      let now : Outside = record outside { is_shared = is_shared; read_file = read_file } in
      subst (λ o. KeepsClient now Seen o) run (client-KeepsClient now Seen g cmsg n s)
  Step-IsSound {g} (Step.rumor_timeout peer m coin n again at run) s =
      subst (λ o. Keeps outside.sha Seen o) run
        (Keeps-timeout outside.sha Seen g peer m coin n again s)
  Step-IsSound {g} (Step.rumor_status f rest coin n again at run) s =
      subst (λ o. Keeps outside.sha Seen o) run
        (Keeps-status outside.sha Seen g f rest coin n again s)
  Step-IsSound (Step.request_forgotten setkey) s = record {
    storage = s.storage;
    chain = s.chain;
    files = s.files;
  }
  Step-IsSound {g} (Step.file_tick origin l at) s =
      Sound-download_tick outside.sha Seen g origin l s
  Step-IsSound {g} (Step.file_reply dir_exists pick origin l m inbox at at') s =
      Sound-download_reply outside.sha Seen dir_exists pick _ origin l m
        (record { storage = s.storage; chain = s.chain; files = s.files })
  Step-IsSound {g} (Step.served lib fuel method path body run) s =
      served-Sound outside.sha Seen lib fuel g method path body run s
  Step-IsSound {g} (Step.searched matched l run) s =
      subst (λ o. KeepsTick outside.sha Seen o) run
        (search_tick-KeepsTick outside.sha Seen matched l g s)
  Step-IsSound {g} (Step.search_answered l csr srp inbox at at') s =
      Sound_search outside.sha Seen g _ s
  Step-IsSound (Step.compared n run) s = s
  Step-IsSound {g} (Step.mined nonce earlier v seen run) s =
      let (bm', sent, run', valid, _) =
        mining_thread_round-Publishes outside.sha Seen honest g nonce earlier s.chain v
          (λ h e. seen s.chain.tail_node h s.chain.tail_at e) in
      subst (λ o. Keeps outside.sha Seen o) (sym run' ∙ run)
        (record { storage = s.storage; chain = valid; files = s.files })

  -- Every state that a gossiper gets to from NewGossiper by steps of the message processor, of
  -- clients, of the goroutines of rumors, downloads and searches, of the timers of search requests
  -- and of anti-entropy, of the web server and of the mining thread, in any order, has a valid
  -- message storage and a valid blockchain manager, its managers of files hold under each hash
  -- data of this hash, and the sharer has every chunk that it lists, if blocks that are around and
  -- have one hash name one parent, and none has the hash of zeros; each step has its own random
  -- numbers.
  pub Reach-IsSound :
      {name : String} {address : Address} {peers : List Address} {is_simple_mode : Bool}
      {g : Gossiper}
      → Reach outside Seen (new_gossiper name address peers is_simple_mode) g
      → IsSound outside.sha Seen g
  Reach-IsSound Reach.here = record {
    storage = init_message_storage-IsValid;
    chain = init-IsValid outside.sha Seen;
    files = (tt, tt, (tt, tt));
  }
  Reach-IsSound (Reach.later r step) = Step-IsSound step (Reach-IsSound r)
