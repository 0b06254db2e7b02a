-- ===== src/Client/Port.antt =====
-- sendMessageToLocalPort of utils/send-utils/SendUtils.go: a client message becomes a datagram to the
-- port of the gossiper for clients. `encode` is protobuf.Encode with none for its error.
use decentralized_peerster.Common.{
  ℕ, ◌≡◌, refl, Bool, true, Option, none, some, Bytes, Outcome, ok, panic, if◌then◌else◌,
}
use decentralized_peerster.Models.{ClientMessage}
use decentralized_peerster.Gossiper.{Address}
use decentralized_peerster.Gossiper.Threads.{
  Codec, from_client, read_buffer, max_packet_size, client_reader_round,
}
use decentralized_peerster.Start.{Network, client_listen_address}

-- After an error of Dial the nil connection is written to.
abbrev pub write_to : (dial : Address → Bool) → Address → Bytes → Outcome (Option (Address × Bytes))
write_to dial addr packet_bytes = if dial addr then ok (some (addr, packet_bytes)) else panic

abbrev pub send_bytes :
    (dial : Address → Bool) → Option Address → Bytes → Outcome (Option (Address × Bytes))
send_bytes dial none packet_bytes = ok none
send_bytes dial (some addr) packet_bytes = write_to dial addr packet_bytes

abbrev pub send_encoded :
    (dial : Address → Bool) → Network → ℕ → Option Bytes → Outcome (Option (Address × Bytes))
send_encoded dial net port none = ok none
send_encoded dial net port (some packet_bytes) =
    send_bytes dial (net.resolve (client_listen_address net port)) packet_bytes

unfoldable pub send_message_to_local_port :
    (encode : ClientMessage → Option Bytes)
    → (dial : Address → Bool) → Network
    → ClientMessage
    → ℕ
    → Outcome (Option (Address × Bytes))
send_message_to_local_port encode dial net cmsg port = send_encoded dial net port (encode cmsg)

-- If the message can be encoded and decoded in a buffer, and the gossiper's address for clients can
-- be resolved and dialed, then the client-reader puts the message into its channel.
pub message_arrives :
    (codec : Codec) (encode : ClientMessage → Option Bytes) (dial : Address → Bool) (net : Network)
    (cmsg : ClientMessage) (port : ℕ) (packet_bytes : Bytes) (addr : Address)
    → encode cmsg ≡ some packet_bytes
    → codec.decode_client (read_buffer max_packet_size packet_bytes) ≡ cmsg
    → net.resolve (client_listen_address net port) ≡ some addr
    → dial addr ≡ true
    → (send_message_to_local_port encode dial net cmsg port ≡ ok (some (addr, packet_bytes)))
      × (client_reader_round codec packet_bytes ≡ from_client cmsg)
unfolding send_message_to_local_port client_reader_round
message_arrives codec encode dial net cmsg port packet_bytes addr encoded decoded resolved dialed =
    (rw encoded (rw resolved (rw dialed refl)), rw decoded refl)
