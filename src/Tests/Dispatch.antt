-- ===== src/Tests/Dispatch.antt =====
-- Runs of the message processor of gossiper/Gossiper.go, under a toy hash.
use decentralized_peerster.Common.{
  refl, ℕ, zero, suc, ◌≡◌, ◌<◌, ◌-◌, arith, false, [], none, some, length, All, ok, ◌∷◌,
}
use decentralized_peerster.Models.{
  Block, DataRequest, GossipPacket, empty_packet, empty_client_message,
}
use decentralized_peerster.Gossiper.{
  knows_peer, Sends, Gossiper, new_gossiper, update_peers_if_needed,
}
use decentralized_peerster.Gossiper.Dispatch.{Outside, dispatch, process_addressed_gossip_packet}
use decentralized_peerster.Gossiper.Dispatch.Safe.{
  IsSound, Goes, Arrives, process_addressed_gossip_packet-Goes,
}
use decentralized_peerster.Gossiper.Dispatch.Runs.{Reach, Step, Reach-IsSound}
use decentralized_peerster.Gossiper.Dispatch.Integrity.{IsReply, Reach-IsReply}
use decentralized_peerster.Gossiper.Routing.{data_request_packet}
use decentralized_peerster.Gossiper.Searching.{search_request_timeout}
use decentralized_peerster.Gossiper.Threads.{Codec}
use decentralized_peerster.Tests.Chain.{toy, first, honest}

abbrev Seen : Block → Type 0
Seen b = b ≡ first

abbrev outside : Outside
outside = record {
  sha = toy;
  match_string = λ pattern text. some false;
  base = λ path. path;
  is_shared = λ name. false;
  read_file = λ path. none;
}

abbrev alice : Gossiper
alice = new_gossiper "alice" "a" [] false

-- The first peer is drawn, then the last one.
abbrev rand : ℕ → ℕ → ℕ
rand zero n = 0
rand (suc i) n = n - 1

abbrev hello : GossipPacket
hello = record empty_packet { rumor = some (record { original_name = "bob"; id = 1; text = "hi" }) }

abbrev published : GossipPacket
published = record empty_packet { block_publish = some (record { block = first; hop_limit = 20 }) }

alice-IsSound : IsSound toy Seen alice
alice-IsSound = Reach-IsSound outside Seen honest Reach.here

hello-Arrives : Arrives toy Seen hello
hello-Arrives = ((λ m e. ground arith), (λ bp e. absurd (cc)))

one_peer : 0 < length (update_peers_if_needed alice "b").peers
unfolding update_peers_if_needed knows_peer
one_peer = omega arith

process_addressed_gossip_packet-Goes_example :
    Goes toy Seen
      (update_peers_if_needed alice "b")
      (process_addressed_gossip_packet outside alice hello "b" 0)
process_addressed_gossip_packet-Goes_example =
    process_addressed_gossip_packet-Goes outside Seen honest alice hello "b" 0 hello-Arrives
      one_peer alice-IsSound

-- A rumor of bob comes.
after_hello : (g : Gossiper) × Reach outside Seen alice g
after_hello =
    let (g, sent, run, _, _) =
      process_addressed_gossip_packet-Goes outside Seen honest alice hello "b" 0 hello-Arrives
        one_peer alice-IsSound in
    (g, Reach.later Reach.here (Step.packet hello "b" 0 hello-Arrives one_peer run))

Reach-IsSound_example : IsSound toy Seen (search_request_timeout after_hello.0 "bob-cat")
Reach-IsSound_example =
    Reach-IsSound outside Seen honest (Reach.later after_hello.1 (Step.request_forgotten "bob-cat"))

abbrev asked : DataRequest
asked = record {
  origin = "bob";
  destination = after_hello.0.name;
  hop_limit = 5;
  hash_value = toy.sum256 (7 ∷ 8 ∷ []);
}

Reach-IsReply_example :
    (sent : Sends) × (dispatch outside after_hello.0 (data_request_packet asked) "b" 0
      ≡ ok (after_hello.0, sent))
    × All (IsReply toy after_hello.0 asked) sent
Reach-IsReply_example = Reach-IsReply outside Seen honest after_hello.1 asked "b" 0 refl

-- Every datagram decodes to the rumor of bob.
abbrev codec : Codec
codec = record {
  decode_client = λ b. empty_client_message;
  decode_packet = λ b. hello;
  encode_packet = λ gp. some [];
  itoa = λ n. "1";
  hex = λ b. "00";
}
