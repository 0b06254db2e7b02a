-- ===== src/Webserver/Shown.antt =====
-- What the frontend sees of its own orders: webserver/Webserver.go.
use decentralized_peerster.Common.{
  ℕ, ◌≡◌, ◌≢◌, ◌∙◌, get_elem?_in_range, ◌<◌, ◌⊎◌, length, refl, true, false, List, [], ◌∷◌, ◌++◌,
  none, some, String, Bytes, string_discrete, if◌then◌else◌, ok, if_neg, Bool-cases, inl, inr,
  arith,
}
use decentralized_peerster.Gossiper.{
  Address, Gossiper, Sends, are_peers_empty, update_peers_if_needed, knows_peer, set_name,
}
use decentralized_peerster.Models.{RumorMessage, inc32}
use decentralized_peerster.Storage.{get_next_message_id, is_new_message, add_rumor_message}
use decentralized_peerster.Storage.Invariant.{IsValid}
use decentralized_peerster.Storage.Laws.{
  add_rumor_message-is_new, chron_order-add, private_messages-add, clock_of-add,
}
use decentralized_peerster.Gossiper.Rumors.{process_rumor_message, process_client_rumor, spread_to}
use decentralized_peerster.Gossiper.Rumors.Waiting.{spread_random}
use decentralized_peerster.Gossiper.Dispatch.{Outside, process_client_message}
use decentralized_peerster.Client.Port.{message_arrives}
use decentralized_peerster.Start.{client_listen_address}
use decentralized_peerster.Gossiper.Threads.{
  Codec, read_buffer, max_packet_size, client_reader_round, message_processor_round, with_peers,
  print_client_message,
}
use decentralized_peerster.Client.{send_rumor_message, set_gossiper_name}
use decentralized_peerster.Webserver.{
  no_json, Libraries, get, post, changes, shows, json_text, json_peers, json_messages, json_number,
  serve, serve_get, serve_post, add_peer, address_or_nil, get_rumor_messages, get_private_messages,
  get_id,
}

knows_peer-last : (ps : List Address) (peer : Address) → knows_peer (ps ++ peer ∷ []) peer ≡ true
unfolding knows_peer
knows_peer-last [] peer = ground arith
knows_peer-last (p ∷ ps) peer = let ih = knows_peer-last ps peer in ground (arith, ih)

module _ (lib : Libraries) (fuel : ℕ) (g : Gossiper) where
  -- After a POST of a name that is not blank to setGossiperName, getGossiperName answers that name.
  pub name_shown :
      (name body : String)
      → lib.trim_space name ≢ ""
      → (g' : Gossiper) × (serve lib fuel g post "/setGossiperName" name ≡ changes g')
        × (serve lib fuel g' get "/getGossiperName" body ≡ shows g' (json_text name))
  unfolding serve serve_post serve_get set_gossiper_name string_discrete
  name_shown name body named = (
    set_name g name,
    rw (if_neg (string_discrete (lib.trim_space name) "") named true false) refl,
    refl,
  )

  -- After a POST to addPeer, getPeers answers the peers from before with the address at the end if
  -- no peer had it, and as they were if one had it; the address is among the peers, and the same
  -- POST again changes nothing; a name that does not resolve is added as a nil address.
  pub peer_shown :
      (name body : String)
      → let peer = address_or_nil (lib.resolve name) in
        (g' : Gossiper) × (serve lib fuel g post "/addPeer" name ≡ changes g')
        × (serve lib fuel g' get "/getPeers" body
            ≡ shows g'
                (json_peers (if knows_peer g.peers peer then g.peers else g.peers ++ peer ∷ [])))
        × (knows_peer g'.peers peer ≡ true)
        × (serve lib fuel g' post "/addPeer" name ≡ changes g')
  unfolding serve serve_post serve_get add_peer update_peers_if_needed string_discrete
  peer_shown name body =
      let peer = address_or_nil (lib.resolve name) in
      elim (Bool-cases (knows_peer g.peers peer)) [
        | inl known ↦ (g, rw known refl, rw known refl, known, rw known refl)
        | inr new ↦
            let now = knows_peer-last g.peers peer in
            (record g { peers = g.peers ++ peer ∷ [] }, rw new refl, rw new refl, now, rw now refl)
      ]

module _ (g : Gossiper) where
  -- The rumor that the message processor makes of a text of the client.
  abbrev pub own_rumor : String → RumorMessage
  own_rumor text = record {
    original_name = g.name;
    id = get_next_message_id g.message_storage g.name;
    text = text;
  }

  own_is_new :
      (text : String)
      → IsValid g.message_storage
      → is_new_message g.message_storage (own_rumor text) ≡ true
  unfolding is_new_message get_next_message_id
  own_is_new text v = let c = v.clock g.name in ground arith

  -- The handler ends with the storage that AddRumorMessage leaves.
  own_rumor_run :
      (text : String) (random : ℕ)
      → IsValid g.message_storage
      → (g.peers ≡ []) ⊎ (random < length g.peers)
      → (g' : Gossiper) × (sent : Sends) × (process_rumor_message g (own_rumor text) random
          ≡ ok (g', sent))
        × (g'.message_storage ≡ (add_rumor_message g.message_storage (own_rumor text)).0)
        × (g'.name ≡ g.name)
  unfolding process_rumor_message are_peers_empty spread_to
  own_rumor_run text random v drawn =
      let new = add_rumor_message-is_new g.message_storage (own_rumor text) ∙ own_is_new text v in
      let stored = record g {
        message_storage = (add_rumor_message g.message_storage (own_rumor text)).0;
      } in
      elim drawn [
        | inl alone ↦
            let empty : are_peers_empty stored ≡ true = rw alone refl in
            (stored, [], rw new (rw empty refl), refl, refl)
        | inr lt ↦
            let (peer, at) = get_elem?_in_range g.peers random lt in
            let (known, run) = spread_random stored (own_rumor text) random peer at in
            (
              (spread_to stored (own_rumor text) peer).0,
              (spread_to stored (own_rumor text) peer).1,
              rw new (rw (known, run) refl),
              ground arith,
              ground arith,
            )
      ]

  own_chronicle :
      (text : String)
      → IsValid g.message_storage
      → text ≢ ""
      → (add_rumor_message g.message_storage (own_rumor text)).0.non_empty_messages_chron_order
        ≡ g.message_storage.non_empty_messages_chron_order ++ own_rumor text ∷ []
  own_chronicle text v some_text =
      let new = own_is_new text v in
      let chron = chron_order-add g.message_storage (own_rumor text) in
      ground (arith, new, chron, some_text)

  own_next_id :
      (text : String)
      → IsValid g.message_storage
      → get_next_message_id (add_rumor_message g.message_storage (own_rumor text)).0 g.name
        ≡ inc32 (own_rumor text).id
  unfolding get_next_message_id
  own_next_id text v =
      let new = own_is_new text v in
      let clock = clock_of-add g.message_storage (own_rumor text) g.name in
      ground (arith, new, clock)

  client_runs :
      (text : String) (random : ℕ)
      → g.is_simple_mode ≡ false
      → process_client_rumor g text random ≡ process_rumor_message g (own_rumor text) random
  unfolding process_client_rumor
  client_runs text random mode = ground (arith, mode)

module _ (lib : Libraries) (fuel : ℕ) (g : Gossiper) (body : String) where
  messages_shown :
      serve lib fuel g get "/getMessages" body
      ≡ shows g (json_messages (get_rumor_messages g) (get_private_messages g))
  unfolding serve serve_get string_discrete
  messages_shown = refl

  id_shown : serve lib fuel g get "/getGossiperID" body ≡ shows g (json_number (get_id g g.name))
  unfolding serve serve_get string_discrete
  id_shown = refl

module _ (lib : Libraries) (fuel : ℕ) (codec : Codec) (outside : Outside) (g : Gossiper) where
  -- Let a message with a text that is not empty have an encoding, which Decode reads back from the
  -- buffer of the client-reader, and let the address of the local port resolve and be dialed. Then
  -- a POST of the text to sendRumorMessage writes that encoding to this address; when the client-
  -- reader and the message processor have taken it, without a panic, getMessages answers the
  -- rumors from before with the gossiper's own rumor of that text and of its next id at the end,
  -- and getGossiperID the id after that; the gossiper has a valid message storage and is not in
  -- simple mode, and there is no peer or a random number below the number of peers is drawn.
  pub rumor_shown :
      (text body : String) (random : ℕ)
      → IsValid g.message_storage
      → g.is_simple_mode ≡ false
      → text ≢ ""
      → (g.peers ≡ []) ⊎ (random < length g.peers)
      → (bytes : Bytes) (addr : Address) → lib.encode_message (send_rumor_message text) ≡ some bytes
      → codec.decode_client (read_buffer max_packet_size bytes) ≡ send_rumor_message text
      → lib.network.resolve (client_listen_address lib.network lib.client_port) ≡ some addr
      → lib.dial addr ≡ true
      → (g' : Gossiper) × (sent : Sends) × (printed : String) × (serve lib fuel g post
            "/sendRumorMessage" text
          ≡ ok (record { gossiper = g; answer = no_json; to_local_port = some (addr, bytes) }))
        × (message_processor_round codec outside g (client_reader_round codec bytes) random
            ≡ ok (((g', sent), none), printed))
        × (serve lib fuel g' get "/getMessages" body
            ≡ shows g' (
                json_messages
                  (g.message_storage.non_empty_messages_chron_order ++ own_rumor g text ∷ [])
                  g.message_storage.private_messages))
        × (serve lib fuel g' get "/getGossiperID" body
            ≡ shows g' (json_number (inc32 (own_rumor g text).id)))
  unfolding serve serve_post process_client_message string_discrete message_processor_round
  rumor_shown text body random v mode some_text drawn bytes addr encoded decoded resolved dialed =
      let (g', sent, run, stored, named) = own_rumor_run g text random v drawn in
      let chron = own_chronicle g text v some_text in
      let private_messages = private_messages-add g.message_storage (own_rumor g text) in
      let next_id = own_next_id g text v in
      let (written, arrived) =
        message_arrives codec lib.encode_message lib.dial lib.network (send_rumor_message text)
          lib.client_port bytes addr encoded decoded resolved dialed in
      (
        g',
        sent,
        with_peers codec g (print_client_message codec (send_rumor_message text)),
        rw written refl,
        rw arrived (rw (client_runs g text random mode ∙ run) refl),
        messages_shown lib fuel g' body
            ∙ rw (get_rumor_messages, get_private_messages, stored)
                (rw (chron, private_messages) refl),
        id_shown lib fuel g' body ∙ rw (get_id, stored, named) (rw next_id refl),
      )
