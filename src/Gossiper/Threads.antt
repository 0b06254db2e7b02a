-- ===== src/Gossiper/Threads.antt =====
-- gossiper/Gossiper.go, the threads that read and write the sockets and the message processor, with
-- what models/CommunicationModels.go prints of a message. The protobuf package is a parameter: an
-- error of Decode is logged, and what stands in the struct goes on.
pub mod Datagrams
use Prim.Native.String.{◌++◌ as ◌+++◌}
use decentralized_peerster.Common.{
  ℕ, zero, suc, ◌*◌, Bool, true, false, List, [], ◌∷◌, Option, none, some, String, string_discrete,
  Bytes, ite, Outcome, ok, ◌>>=◌,
}
use decentralized_peerster.Models.{
  GossipPacket, ClientMessage, RumorMessage, StatusPacket, PeerStatus, SimpleMessage,
  PrivateMessage, ClientPrivateMessage, ClientToDownloadMessage,
}
use decentralized_peerster.Gossiper.{Address, Gossiper, Sends}
use decentralized_peerster.Gossiper.Searching.{SearchLoop}
use decentralized_peerster.Gossiper.Dispatch.{
  Outside, if_set, process_addressed_gossip_packet, process_client_message,
}

abbrev pub max_packet_size : ℕ
max_packet_size = 16 * 1024

-- What Decode leaves in the struct, whether or not it gives an error; Encode, with none for its
-- error; strconv.Itoa of an unsigned number, and hex.EncodeToString.
pub record Codec : Type 0 where
  pub decode_client : Bytes → ClientMessage
  pub decode_packet : Bytes → GossipPacket
  pub encode_packet : GossipPacket → Option Bytes
  pub itoa : ℕ → String
  pub hex : Bytes → String

-- A buffer of so many zeros after ReadFromUDP put a datagram into it, which may be too long.
unfoldable pub read_buffer : ℕ → Bytes → Bytes
read_buffer zero datagram = []
read_buffer (suc n) [] = 0 ∷ read_buffer n []
read_buffer (suc n) (b ∷ datagram) = b ∷ read_buffer n datagram

-- What a thread puts into a channel of the message processor.
pub data Inbound : Type 0 where
  from_client : ClientMessage → Inbound
  from_peer : GossipPacket → Address → Inbound

module _ (codec : Codec) where
  unfoldable pub client_reader_round : Bytes → Inbound
  client_reader_round datagram =
      from_client (codec.decode_client (read_buffer max_packet_size datagram))

  unfoldable pub peer_reader_round : Bytes → Address → Inbound
  peer_reader_round datagram addr =
      from_peer (codec.decode_packet (read_buffer max_packet_size datagram)) addr

  -- The datagram that is written, if the packet can be encoded.
  unfoldable pub peer_writer_round : Address × GossipPacket → Option (Address × Bytes)
  peer_writer_round agp = elim (codec.encode_packet agp.1) [
    | none ↦ none
    | some packet_bytes ↦ some (agp.0, packet_bytes)
  ]

  -- None is the false of `Print`, where nothing was printed.
  unfoldable pub print_client_message : ClientMessage → Option String
  print_client_message cmsg =
      if_set cmsg.client_rumor (λ text. some ("CLIENT MESSAGE " +++ text +++ "\n"))
        (if_set cmsg.client_private
          (λ p. some ("CLIENT PRIVATE TO " +++ p.destination +++ ": " +++ p.text +++ "\n"))
          (if_set cmsg.to_share (λ path. some ("CLIENT SHARE REQUEST: " +++ path +++ "\n"))
            (if_set cmsg.to_download
              (λ d. some (
                "CLIENT DOWNLOAD REQUEST: "
                +++ d.name
                +++ " from "
                +++ d.destination
                +++ " hash "
                +++ codec.hex d.hash_value
                +++ "\n"))
              none)))

  print_want : List PeerStatus → String
  print_want [] = ""
  print_want (p ∷ want) =
      " peer " +++ p.identifier +++ " nextID " +++ codec.itoa p.next_id +++ print_want want

  print_rumor : RumorMessage → Address → Option String
  print_rumor rmsg address = ite (string_discrete rmsg.text "") none (
      some (
        "RUMOR origin "
        +++ rmsg.original_name
        +++ " from "
        +++ address
        +++ " ID "
        +++ codec.itoa rmsg.id
        +++ " contents "
        +++ rmsg.text
        +++ "\n"))

  unfoldable pub print_packet : GossipPacket → Address → Option String
  unfolding print_want print_rumor
  print_packet gp address =
      if_set gp.rumor (λ rmsg. print_rumor rmsg address)
        (if_set gp.status
          (λ status. some ("STATUS from " +++ address +++ print_want status.want +++ "\n"))
          (if_set gp.simple
            (λ smsg. some (
              "SIMPLE MESSAGE origin " +++ smsg.original_name +++ " from " +++ smsg.relay_peer_addr
              +++ " contents " +++ smsg.text +++ "\n"))
            (if_set gp.private_message
              (λ pmsg. some (
                "PRIVATE origin "
                +++ pmsg.origin
                +++ " hop-limit "
                +++ codec.itoa pmsg.hop_limit
                +++ " contents "
                +++ pmsg.text
                +++ "\n"))
              none)))

  -- The loop over the peers, with no comma after the last.
  unfoldable pub print_peer_loop : List Address → String
  print_peer_loop [] = ""
  print_peer_loop (p ∷ []) = p
  print_peer_loop (p ∷ q ∷ peers) = p +++ "," +++ print_peer_loop (q ∷ peers)

  unfoldable pub print_peers : Gossiper → String
  print_peers g = "PEERS " +++ print_peer_loop g.peers +++ "\n"

  abbrev pub with_peers : Gossiper → Option String → String
  with_peers g none = ""
  with_peers g (some line) = line +++ print_peers g

  -- The gossiper, what goes to the peer-writer, the goroutine of a search if one was started, and
  -- what the message processor itself printed.
  abbrev pub Processed : Type 0
  Processed = ((Gossiper × Sends) × Option SearchLoop) × String

  unfoldable pub message_processor_round : Outside → Gossiper → Inbound → ℕ → Outcome Processed
  message_processor_round outside g (from_client cmsg) random = do
    done ← process_client_message outside g cmsg random
    ok (done, with_peers g (print_client_message cmsg))
  message_processor_round outside g (from_peer gp address) random = do
    done ← process_addressed_gossip_packet outside g gp address random
    ok ((done, none), with_peers g (print_packet gp address))
