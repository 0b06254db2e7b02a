-- ===== src/Tests/Webserver.antt =====
-- Requests of a browser to webserver/Webserver.go.
use decentralized_peerster.Common.{
  ◌≡◌, ◌≢◌, refl, true, false, [], ◌∷◌, ◌++◌, none, some, String, ok, arith, inr, if◌then◌else◌,
}
use decentralized_peerster.Models.{empty_packet, inc32}
use decentralized_peerster.Storage.Invariant.{init_message_storage-IsValid}
use decentralized_peerster.Gossiper.{Gossiper, Sends, new_gossiper, knows_peer}
use decentralized_peerster.Gossiper.Dispatch.{Outside}
use decentralized_peerster.Start.{Network, client_listen_address}
use decentralized_peerster.Client.{send_rumor_message}
use decentralized_peerster.Gossiper.Threads.{Codec, client_reader_round, message_processor_round}
use decentralized_peerster.Webserver.{
  no_json, Libraries, get, post, changes, shows, json_peers, json_messages, json_number, serve,
}
use decentralized_peerster.Webserver.Orders.{Handled, serve-Handled}
use decentralized_peerster.Webserver.Shown.{peer_shown, own_rumor, rumor_shown}
use decentralized_peerster.Tests.Chain.{toy}

abbrev network : Network
network = record {
  resolve = λ name. some name;
  can_listen = λ opened addr. true;
  local_addr = λ addr. addr;
  split = λ text sep. text ∷ [];
  itoa = λ n. "1";
}

-- A message of the client is encoded as a byte, and the byte stands for a rumor.
abbrev lib : Libraries
lib = record {
  resolve = λ name. some name;
  sort = λ names. names;
  encode = λ b. "00";
  decode_string = λ s. none;
  split = λ text sep. text ∷ [];
  trim_space = λ text. text;
  itoa = λ n. "1";
  exists = λ name. false;
  encode_message = λ m. some (1 ∷ []);
  dial = λ addr. true;
  network = network;
  client_port = 8080;
}

abbrev codec : Codec
codec = record {
  decode_client = λ b. send_rumor_message "hi";
  decode_packet = λ b. empty_packet;
  encode_packet = λ gp. none;
  itoa = λ n. "1";
  hex = λ b. "00";
}

abbrev outside : Outside
outside = record {
  sha = toy;
  match_string = λ pattern text. some false;
  base = λ path. path;
  is_shared = λ name. false;
  read_file = λ path. none;
}

abbrev dora : Gossiper
dora = new_gossiper "dora" "d" ("b" ∷ []) false

-- The body has no bar.
serve-Handled_example :
    Handled lib dora post "/sendPrivateMessage" "hello"
      (serve lib 1 dora post "/sendPrivateMessage" "hello")
serve-Handled_example = serve-Handled lib dora 1 post "/sendPrivateMessage" "hello"

peer_shown_example :
    (g' : Gossiper) × (serve lib 1 dora post "/addPeer" "c" ≡ changes g')
    × (serve lib 1 g' get "/getPeers" ""
        ≡ shows g'
            (json_peers (if knows_peer dora.peers "c" then dora.peers else dora.peers ++ "c" ∷ [])))
    × (knows_peer g'.peers "c" ≡ true)
    × (serve lib 1 g' post "/addPeer" "c" ≡ changes g')
peer_shown_example = peer_shown lib 1 dora "c" ""

hi_ne_empty : let hi : String = "hi" in hi ≢ ""
hi_ne_empty e = cc

rumor_shown_example :
    (g' : Gossiper) × (sent : Sends) × (printed : String) × (serve lib 1 dora post
        "/sendRumorMessage" "hi"
      ≡ ok (record {
        gossiper = dora;
        answer = no_json;
        to_local_port = some (client_listen_address network 8080, 1 ∷ []);
      }))
    × (message_processor_round codec outside dora (client_reader_round codec (1 ∷ [])) 0
        ≡ ok (((g', sent), none), printed))
    × (serve lib 1 g' get "/getMessages" ""
        ≡ shows g' (json_messages ([] ++ own_rumor dora "hi" ∷ []) []))
    × (serve lib 1 g' get "/getGossiperID" ""
        ≡ shows g' (json_number (inc32 (own_rumor dora "hi").id)))
rumor_shown_example =
    rumor_shown lib 1 codec outside dora "hi" "" 0 init_message_storage-IsValid refl hi_ne_empty
      (inr (omega arith)) (1 ∷ []) (client_listen_address network 8080) refl refl refl refl
