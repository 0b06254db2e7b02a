-- ===== src/Gossiper/Dispatch/Integrity.antt =====
-- What a gossiper answers to a data request: gossiper/Gossiper.go, processDataRequest, with the two
-- managers of files.
use decentralized_peerster.Common.{
  ℕ, ◌≡◌, refl, ap, Bool, List, Option, none, some, String, string_key, string_discrete, Bytes, ok,
  All, Option-cases, inl, inr, if_pos,
}
use decentralized_peerster.Map.{lookup}
use decentralized_peerster.Models.{GossipPacket, DataRequest, DataReply, Block}
use decentralized_peerster.Hashing.{Sha}
use decentralized_peerster.Blockchain.Manager.Invariant.{Honest}
use decentralized_peerster.Files.Sharing.Answers.{
  Answers, get_chunk_or_metafile-Answers as shared-Answers,
}
use decentralized_peerster.Files.Downloading.Sound.{
  get_chunk_or_metafile-Answers as downloaded-Answers,
}
use decentralized_peerster.Gossiper.{
  Address, Gossiper, Sends, new_gossiper, send_packet_with_next_hop,
}
use decentralized_peerster.Gossiper.Routing.{
  process_data_request, answer_data_request, or_else, data_request_packet, data_reply_packet,
}
use decentralized_peerster.Gossiper.Dispatch.{Outside, dispatch, shared_chunk, downloaded_chunk}
use decentralized_peerster.Gossiper.Dispatch.Runs.{Reach, Reach-IsSound}

module _ (sha : Sha) (g : Gossiper) (drqmsg : DataRequest) where
  -- A reply to the gossiper that asked, by the next hop to it, with the data of the hash.
  abbrev pub IsReply : Address × GossipPacket → Type 0
  IsReply p =
      (m : DataReply) × (p.1 ≡ data_reply_packet m)
      × (lookup drqmsg.origin g.next_hop ≡ some p.0)
      × (m.destination ≡ drqmsg.origin)
      × (m.hash_value ≡ drqmsg.hash_value)
      × (sha.sum256 m.payload ≡ drqmsg.hash_value)

  or_else-Answers :
      (h : Bytes) (a b : Option Bytes)
      → Answers sha h a
      → Answers sha h b
      → Answers sha h (or_else a b)
  or_else-Answers h none b right right' = right'
  or_else-Answers h (some a) b right right' = right

  answer-IsReply :
      (o : Option Bytes)
      → Answers sha drqmsg.hash_value o
      → All IsReply (answer_data_request g drqmsg o)
  unfolding send_packet_with_next_hop
  answer-IsReply none right = tt
  answer-IsReply (some payload) right = elim (Option-cases (lookup drqmsg.origin g.next_hop)) [
    | inl gone ↦ rw (send_packet_with_next_hop, gone) tt
    | inr (relay, at) ↦ rw (send_packet_with_next_hop, at) ((_, refl, at, refl, refl, right), tt)
  ]

module _ (outside : Outside) (Seen : Block → Type 0) (honest : Honest outside.sha Seen) where
  -- A gossiper in a state that it got to from NewGossiper by steps of the message processor, of
  -- clients, of the goroutines of rumors, downloads and searches, of the timers of search requests
  -- and of anti-entropy, of the web server and of the mining thread, in any order, handles a data
  -- request for itself without a change of its state, and each packet that it sends is a data
  -- reply that goes by the next hop to the gossiper that asked, names the hash that was asked for,
  -- and has data with that hash; each step has its own random numbers, and blocks that are around
  -- and have one hash name one parent, and none has the hash of zeros.
  pub Reach-IsReply :
      {name : String} {address : Address} {peers : List Address} {is_simple_mode : Bool}
      {g : Gossiper}
      → Reach outside Seen (new_gossiper name address peers is_simple_mode) g
      → (drqmsg : DataRequest) (from : Address) (n : ℕ) → drqmsg.destination ≡ g.name
      → (sent : Sends) × (dispatch outside g (data_request_packet drqmsg) from n ≡ ok (g, sent))
        × All (IsReply outside.sha g drqmsg) sent
  unfolding dispatch process_data_request
  Reach-IsReply {g = g} r drqmsg from n mine =
      let s = Reach-IsSound outside Seen honest r in
      let found =
        or_else (shared_chunk outside g drqmsg.hash_value)
          (downloaded_chunk outside g drqmsg.hash_value) in
      let right =
        or_else-Answers outside.sha g drqmsg drqmsg.hash_value _ _
          (shared-Answers outside.sha g.shared_files_manager drqmsg.hash_value s.files.0)
          (downloaded-Answers outside.sha g.downloading_files_manager drqmsg.hash_value
            s.files.2) in
      (
        answer_data_request g drqmsg found,
        ap (λ r. ok r) (if_pos (string_discrete drqmsg.destination g.name) mine _ _),
        answer-IsReply outside.sha g drqmsg found right,
      )
