-- ===== src/Gossiper/Rumors.antt =====
-- gossiper/Gossiper.go: rumors, status packets and simple messages. A goroutine of rumor-mongering
-- is an entry of `status_channels` while it waits; the entry moves to `feedback` when the message
-- processor passes it a status packet. `random` is what rand.Int31n returns, and `coin` says that
-- rand.Int was even.
pub mod Waiting
pub mod Spread
use decentralized_peerster.Common.{
  ℕ, Bool, true, false, List, [], ◌∷◌, ◌++◌, Option, none, some, String, string_discrete,
  string_key, ite, Outcome, ok, panic, ◌>>=◌, if◌then◌else◌, get_elem?,
}
use decentralized_peerster.Map.{lookup, insert, delete}
use decentralized_peerster.Models.{
  GossipPacket, empty_packet, RumorMessage, StatusPacket, SimpleMessage,
}
use decentralized_peerster.Storage.{
  diff, add_rumor_message, is_new_message, get_current_status_packet, get_next_message_id,
}
use decentralized_peerster.Gossiper.{
  nil_address, Address, Gossiper, Sends, Feedback, get_random_peer, are_peers_empty,
  update_next_hop,
}

abbrev pub rumor_packet : RumorMessage → GossipPacket
rumor_packet rmsg = record empty_packet { rumor = some rmsg }

abbrev pub status_packet : StatusPacket → GossipPacket
status_packet sp = record empty_packet { status = some sp }

abbrev pub simple_packet : SimpleMessage → GossipPacket
simple_packet smsg = record empty_packet { simple = some smsg }

unfoldable pub spread_to : Gossiper → RumorMessage → Address → Gossiper × Sends
spread_to g rmsg peer = elim (lookup peer g.status_channels) [
  | some _ ↦ (g, [])
  | none ↦ (
    record g { status_channels = insert peer rmsg g.status_channels },
    (peer, rumor_packet rmsg) ∷ [],
  )
]

-- With no peer given a random one is taken.
unfoldable pub spread_the_rumor :
    Gossiper → RumorMessage → Option Address → ℕ → Outcome (Gossiper × Sends)
spread_the_rumor g rmsg (some peer) random = ok (spread_to g rmsg peer)
spread_the_rumor g rmsg none random = do peer ← get_random_peer g random; ok (spread_to g rmsg peer)

unfoldable pub process_rumor_message : Gossiper → RumorMessage → ℕ → Outcome (Gossiper × Sends)
process_rumor_message g rmsg random =
    let (message_storage, is_new) = add_rumor_message g.message_storage rmsg in
    let g' = record g { message_storage = message_storage } in
    if is_new
    then if are_peers_empty g' then ok (g', []) else spread_the_rumor g' rmsg none random
    else ok (g', [])

abbrev pub learn_next_hop : Gossiper → RumorMessage → Address → Gossiper
learn_next_hop g rmsg address =
    if is_new_message g.message_storage rmsg
    then update_next_hop g rmsg.original_name address
    else g

unfoldable pub process_addressed_rumor_message :
    Gossiper → RumorMessage → Address → ℕ → Outcome (Gossiper × Sends)
process_addressed_rumor_message g rmsg address random = do
  done ← process_rumor_message (learn_next_hop g rmsg address) rmsg random
  ok (done.0, (address, status_packet (get_current_status_packet g.message_storage)) ∷ done.1)

-- What a status packet leads to when no goroutine waits for it, and in the goroutine that took it:
-- the next rumor, this gossiper's status, or nothing new on either side, and then `in_sync`.
abbrev pub answer_status :
    Gossiper
    → StatusPacket
    → Address
    → (in_sync : Outcome (Gossiper × Sends)) → Outcome (Gossiper × Sends)
answer_status g sp address in_sync = do
  d ← diff g.message_storage sp
  elim d.0 [
    | some rmsg ↦ ok (spread_to g rmsg address)
    | none ↦
        if d.1
        then ok (g, (address, status_packet (get_current_status_packet g.message_storage)) ∷ [])
        else in_sync
  ]

-- The goroutine gets the status, and waits no more. The channel is unbuffered, and the status is
-- sent under a mutex: a step of the model is one whose send is taken. That the sender can wait for
-- ever is in Gossiper/Channels.
abbrev pub pass_status : Gossiper → StatusPacket → Address → RumorMessage → Gossiper
pass_status g sp address rmsg = record g {
  status_channels = delete address g.status_channels;
  feedback = g.feedback ++ record { message = rmsg; peer = address; status = sp } ∷ [];
}

unfoldable pub process_addressed_status_packet :
    Gossiper → StatusPacket → Address → Outcome (Gossiper × Sends)
process_addressed_status_packet g sp address = elim (lookup address g.status_channels) [
  | some rmsg ↦ ok (pass_status g sp address rmsg, [])
  | none ↦ answer_status g sp address (ok (g, []))
]

-- A nil peer counts as none given.
abbrev pub unless_nil : Address → Option Address
unless_nil peer = ite (string_discrete peer nil_address) none (some peer)

-- If the peer that is drawn is nil, `again` is drawn in `spreadTheRumor`.
unfoldable pub flip_rumor_mongering_coin :
    Gossiper → RumorMessage → Bool → ℕ → ℕ → Outcome (Gossiper × Sends)
flip_rumor_mongering_coin g message coin random again =
    if coin
    then (do peer ← get_random_peer g random; spread_the_rumor g message (unless_nil peer) again)
    else ok (g, [])

-- The ticker of the goroutine that waits for `peer` fired.
unfoldable pub mongering_timeout :
    Gossiper → Address → RumorMessage → Bool → ℕ → ℕ → Outcome (Gossiper × Sends)
mongering_timeout g peer message coin random again =
    flip_rumor_mongering_coin (record g { status_channels = delete peer g.status_channels }) message
      coin random again

-- The first goroutine with a status packet goes on.
unfoldable pub mongering_status :
    Gossiper → Feedback → List Feedback → Bool → ℕ → ℕ → Outcome (Gossiper × Sends)
mongering_status g f rest coin random again =
    let g' = record g { feedback = rest } in
    answer_status g' f.status f.peer (flip_rumor_mongering_coin g' f.message coin random again)

-- `address` is nil for a message of the client.
abbrev pub simple_loop : SimpleMessage → Option Address → List Address → Sends
simple_loop smsg address [] = []
simple_loop smsg none (peer ∷ peers) = (peer, simple_packet smsg) ∷ simple_loop smsg none peers
simple_loop smsg (some a) (peer ∷ peers) =
    let rest = simple_loop smsg (some a) peers in
    ite (string_discrete peer a) rest ((peer, simple_packet smsg) ∷ rest)

unfoldable pub process_addressed_simple_message :
    Gossiper → SimpleMessage → Option Address → Gossiper × Sends
process_addressed_simple_message g smsg address =
    (g, simple_loop (record smsg { relay_peer_addr = g.peers_connection }) address g.peers)

-- The rumor and the route rumor of a client.
unfoldable pub process_client_rumor : Gossiper → String → ℕ → Outcome (Gossiper × Sends)
process_client_rumor g text random =
    if g.is_simple_mode
    then ok (
        process_addressed_simple_message g
          (record { original_name = g.name; relay_peer_addr = ""; text = text }) none)
    else process_rumor_message g
        (record {
          original_name = g.name;
          id = get_next_message_id g.message_storage g.name;
          text = text;
        })
        random

unfoldable pub process_client_route_rumor : Gossiper → ℕ → Outcome (Gossiper × Sends)
process_client_route_rumor g random =
    if g.is_simple_mode
    then ok (g, [])
    else process_rumor_message g
        (record {
          original_name = g.name;
          id = get_next_message_id g.message_storage g.name;
          text = "";
        })
        random

-- A round of the anti-entropy thread, when it wakes.
unfoldable pub anti_entropy : Gossiper → ℕ → Outcome Sends
anti_entropy g random = if are_peers_empty g then ok [] else (do
  peer ← get_random_peer g random
  ok ((peer, status_packet (get_current_status_packet g.message_storage)) ∷ []))
