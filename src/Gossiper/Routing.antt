-- ===== src/Gossiper/Routing.antt =====
-- gossiper/Gossiper.go: the messages with a destination. A handler answers with the gossiper after
-- it and with what it sent. The hop limit is a uint32, so `HopLimit <= 0` holds for zero only, and
-- the decrement behind that guard does not wrap.
pub mod Travel
use decentralized_peerster.Common.{
  ℕ, ◌-◌, Bool, true, false, ◌==◌, List, [], ◌∷◌, ◌++◌, Option, none, some, String, string_discrete,
  string_key, ite, Bytes, if◌then◌else◌,
}
use decentralized_peerster.Map.{lookup, insert}
use decentralized_peerster.Models.{
  GossipPacket, empty_packet, PrivateMessage, DataRequest, DataReply, SearchReply,
}
use decentralized_peerster.Storage.{add_private_message}
use decentralized_peerster.Search.{CurrentSearchRequest, forward_search_reply}
use decentralized_peerster.Gossiper.{Gossiper, Sends, send_packet_with_next_hop}

abbrev pub default_hop_limit : ℕ
default_hop_limit = 5

abbrev pub private_packet : PrivateMessage → GossipPacket
private_packet pmsg = record empty_packet { private_message = some pmsg }

abbrev pub data_request_packet : DataRequest → GossipPacket
data_request_packet drqmsg = record empty_packet { data_request = some drqmsg }

abbrev pub data_reply_packet : DataReply → GossipPacket
data_reply_packet drpmsg = record empty_packet { data_reply = some drpmsg }

abbrev pub search_reply_packet : SearchReply → GossipPacket
search_reply_packet srpmsg = record empty_packet { search_reply = some srpmsg }

unfoldable pub process_private_message : Gossiper → PrivateMessage → Gossiper × Sends
process_private_message g pmsg =
    ite (string_discrete pmsg.destination g.name)
      (record g { message_storage = (add_private_message g.message_storage pmsg g.name).0 }, [])
      (if pmsg.hop_limit == 0 then (g, []) else (
        g,
        send_packet_with_next_hop g pmsg.destination
            (private_packet (record pmsg { hop_limit = pmsg.hop_limit - 1 })),
      ))

abbrev pub or_else : Option Bytes → Option Bytes → Option Bytes
or_else none b = b
or_else (some a) b = some a

abbrev pub answer_data_request : Gossiper → DataRequest → Option Bytes → Sends
answer_data_request g drqmsg none = []
answer_data_request g drqmsg (some requested) = send_packet_with_next_hop g drqmsg.origin (
    data_reply_packet record {
      origin = g.name;
      destination = drqmsg.origin;
      hop_limit = default_hop_limit;
      hash_value = drqmsg.hash_value;
      payload = requested;
    })

-- `shared` and `downloaded` are what the two file managers have for a hash.
unfoldable pub process_data_request :
    (shared downloaded : Bytes → Option Bytes) → Gossiper → DataRequest → Gossiper × Sends
process_data_request shared downloaded g drqmsg =
    ite (string_discrete drqmsg.destination g.name)
      (
        g,
        answer_data_request g drqmsg
            (or_else (shared drqmsg.hash_value) (downloaded drqmsg.hash_value)),
      )
      (if drqmsg.hop_limit == 0 then (g, []) else (
        g,
        send_packet_with_next_hop g drqmsg.destination
            (data_request_packet (record drqmsg { hop_limit = drqmsg.hop_limit - 1 })),
      ))

-- The channel is unbuffered, and the reply is sent under a mutex. A step of the model is one whose
-- send is taken: the reply waits in a list until the step of the goroutine that takes it.
abbrev take_data_reply : Gossiper → DataReply → Option (List DataReply) → Gossiper
take_data_reply g drpmsg none = g
take_data_reply g drpmsg (some inbox) = record g {
  download_channels = insert drpmsg.origin (inbox ++ drpmsg ∷ []) g.download_channels;
}

unfoldable pub process_data_reply : Gossiper → DataReply → Gossiper × Sends
process_data_reply g drpmsg =
    ite (string_discrete drpmsg.destination g.name)
      (take_data_reply g drpmsg (lookup drpmsg.origin g.download_channels), [])
      (if drpmsg.hop_limit == 0 then (g, []) else (
        g,
        send_packet_with_next_hop g drpmsg.destination
            (data_reply_packet (record drpmsg { hop_limit = drpmsg.hop_limit - 1 })),
      ))

abbrev take_search_reply : Gossiper → SearchReply → Option CurrentSearchRequest → Gossiper
take_search_reply g srpmsg none = g
take_search_reply g srpmsg (some csr) =
    if csr.is_alive
    then record g { current_search_request = some (forward_search_reply csr srpmsg) }
    else g

unfoldable pub process_addressed_search_reply : Gossiper → SearchReply → Gossiper × Sends
process_addressed_search_reply g srpmsg =
    ite (string_discrete srpmsg.destination g.name)
      (take_search_reply g srpmsg g.current_search_request, [])
      (if srpmsg.hop_limit == 0 then (g, []) else (
        g,
        send_packet_with_next_hop g srpmsg.destination
            (search_reply_packet (record srpmsg { hop_limit = srpmsg.hop_limit - 1 })),
      ))
