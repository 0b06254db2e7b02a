-- ===== src/Tests/Start.antt =====
-- Starts of a gossiper: NewGossiper of gossiper/Gossiper.go and main.go.
use decentralized_peerster.Common.{
  ◌≡◌, refl, true, false, [], ◌∷◌, none, some, string_discrete, ite,
}
use decentralized_peerster.Start.{Network, Flags, main, start_gossiper, threads, resolve_peers}
use decentralized_peerster.Start.Explained.{Explains, start_gossiper-Explains}
use decentralized_peerster.Gossiper.{new_gossiper}

-- One name does not resolve, and an address is opened once.
abbrev net : Network
net = record {
  resolve = λ name. ite (string_discrete name "nowhere") none (some name);
  local_addr = λ addr. addr;
  can_listen = λ opened addr. elim opened [
    | [] ↦ true
    | first ∷ more ↦ ite (string_discrete first addr) false true
  ];
  split = λ text sep. "b:1" ∷ "" ∷ "c:1" ∷ [];
  itoa = λ n. "4848";
}

abbrev flags : Flags
flags = record {
  uiport = 4848;
  gossip_addr = "127.0.0.1:1212";
  name = "alice";
  peers = "b:1,,c:1";
  rtimer = 0;
  simple_mode = false;
  no_webserver = true;
  no_anti_entropy = false;
}

main_runs :
    main net flags
    ≡ some (new_gossiper "alice" "127.0.0.1:1212" ("b:1" ∷ "c:1" ∷ []) false, threads flags)
unfolding main start_gossiper resolve_peers string_discrete
main_runs = refl

-- The port for clients is the port for peers.
start_gossiper-Explains_example :
    Explains net "alice" 4848 "127.0.0.1:4848" "b:1,,c:1" false
      (start_gossiper net "alice" 4848 "127.0.0.1:4848" "b:1,,c:1" false)
start_gossiper-Explains_example =
    start_gossiper-Explains net "alice" 4848 "127.0.0.1:4848" "b:1,,c:1" false
