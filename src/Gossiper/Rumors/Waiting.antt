-- ===== src/Gossiper/Rumors/Waiting.antt =====
-- What processAddressedRumorMessage (gossiper/Gossiper.go) does on every branch.
use decentralized_peerster.Common.{
  ℕ, ◌≡◌, refl, Bool, true, false, ◌&&◌, List, [], ◌∷◌, none, some, String, string_discrete,
  string_key, ite, ok, if◌then◌else◌, get_elem?, get_elem?_in_range, ◌<◌, length, arith, Bool-cases,
  inl, inr,
}
use decentralized_peerster.Map.{lookup, lookup-insert}
use decentralized_peerster.Models.{RumorMessage}
use decentralized_peerster.Storage.{is_new_message, add_rumor_message, get_current_status_packet}
use decentralized_peerster.Storage.Laws.{add_rumor_message-is_new}
use decentralized_peerster.Gossiper.{
  Address, Gossiper, Sends, update_next_hop, get_random_peer, are_peers_empty,
}
use decentralized_peerster.Gossiper.Rumors.{
  rumor_packet, status_packet, spread_to, spread_the_rumor, process_rumor_message, learn_next_hop,
  process_addressed_rumor_message,
}

-- No goroutine waits for the feedback of the peer.
abbrev pub is_idle : Gossiper → Address → Bool
is_idle g peer = elim (lookup peer g.status_channels) [ none ↦ true | some _ ↦ false ]

next_hop-update :
    (g : Gossiper) (origin name : String) (relay : Address)
    → lookup name (update_next_hop g origin relay).next_hop
      ≡ ite (string_discrete origin name) (some relay) (lookup name g.next_hop)
unfolding update_next_hop
next_hop-update g origin name relay =
    ground (arith, lookup-insert {V = Address} origin name relay g.next_hop)

peers-update :
    (g : Gossiper) (origin : String) (relay : Address)
    → (update_next_hop g origin relay).peers ≡ g.peers
unfolding update_next_hop
peers-update g origin relay = ground arith

chain-update :
    (g : Gossiper) (origin : String) (relay : Address)
    → (update_next_hop g origin relay).blockchain_manager ≡ g.blockchain_manager
unfolding update_next_hop
chain-update g origin relay = ground arith

shared_files-update :
    (g : Gossiper) (origin : String) (relay : Address)
    → (update_next_hop g origin relay).shared_files_manager ≡ g.shared_files_manager
unfolding update_next_hop
shared_files-update g origin relay = ground arith

downloading_files-update :
    (g : Gossiper) (origin : String) (relay : Address)
    → (update_next_hop g origin relay).downloading_files_manager ≡ g.downloading_files_manager
unfolding update_next_hop
downloading_files-update g origin relay = ground arith

storage-update :
    (g : Gossiper) (origin : String) (relay : Address)
    → (update_next_hop g origin relay).message_storage ≡ g.message_storage
unfolding update_next_hop
storage-update g origin relay = ground arith

channels-update :
    (g : Gossiper) (origin : String) (relay : Address)
    → (update_next_hop g origin relay).status_channels ≡ g.status_channels
unfolding update_next_hop
channels-update g origin relay = ground arith

pub spread_random :
    (g : Gossiper) (rmsg : RumorMessage) (random : ℕ) (peer : Address)
    → get_elem? g.peers random ≡ some peer
    → (are_peers_empty g ≡ false)
      × (spread_the_rumor g rmsg none random ≡ ok (spread_to g rmsg peer))
unfolding spread_the_rumor get_random_peer are_peers_empty
spread_random g rmsg random peer at = (known g.peers random at, rw at refl)
  where
    known :
        (ps : List Address) (i : ℕ)
        → get_elem? ps i ≡ some peer
        → (elim ps [ [] ↦ true | _ ∷ _ ↦ false ]) ≡ false
    known [] i e = absurd (cc)
    known (p ∷ ps) i e = refl

module _ (g : Gossiper) (rmsg : RumorMessage) (address : Address) where
  abbrev is_new : Bool
  is_new = is_new_message g.message_storage rmsg

  -- The gossiper after the handler, if the rumor would go to `peer`, and what was sent.
  pub record Received (peer : Address) (g' : Gossiper) (sent : Sends) : Type 0 where
    pub packets : sent ≡ (
        (address, status_packet (get_current_status_packet g.message_storage))
        ∷ (if is_new && is_idle g peer then (peer, rumor_packet rmsg) ∷ [] else []))
    pub storage : g'.message_storage ≡ (add_rumor_message g.message_storage rmsg).0
    pub chain : g'.blockchain_manager ≡ g.blockchain_manager
    pub peers : g'.peers ≡ g.peers
    pub shared : g'.shared_files_manager ≡ g.shared_files_manager
    pub downloading : g'.downloading_files_manager ≡ g.downloading_files_manager
    pub routes :
        (name : String)
        → lookup name g'.next_hop ≡ (
            if is_new
            then ite
                (string_discrete rmsg.original_name name)
                (some address)
                (lookup name g.next_hop)
            else lookup name g.next_hop)
    pub waiting :
        (a : Address)
        → lookup a g'.status_channels ≡ (
            if is_new && is_idle g peer
            then ite (string_discrete peer a) (some rmsg) (lookup a g.status_channels)
            else lookup a g.status_channels)

  abbrev after : Address → Gossiper × Sends
  after peer =
      let g' = record (learn_next_hop g rmsg address) {
        message_storage = (add_rumor_message g.message_storage rmsg).0;
      } in
      if is_new then spread_to g' rmsg peer else (g', [])

  run_after :
      (peer : Address) (random : ℕ)
      → get_elem? g.peers random ≡ some peer
      → process_addressed_rumor_message g rmsg address random
        ≡ ok (
          (after peer).0,
          (address, status_packet (get_current_status_packet g.message_storage)) ∷ (after peer).1,
        )
  unfolding process_addressed_rumor_message process_rumor_message
  run_after peer random at = elim (Bool-cases is_new) [
    | inl new ↦
        let g' = record (update_next_hop g rmsg.original_name address) {
          message_storage = (add_rumor_message g.message_storage rmsg).0;
        } in
        let same = peers-update g rmsg.original_name address in
        let (known, run) = spread_random g' rmsg random peer (rw same at) in
        let stored = storage-update g rmsg.original_name address in
        rw (new, stored)
          (rw (add_rumor_message-is_new g.message_storage rmsg) (rw new (rw known (rw run refl))))
    | inr old ↦ rw old (rw (add_rumor_message-is_new g.message_storage rmsg) (rw old refl))
  ]

  after-Received :
      (peer : Address)
      → Received peer
          (after peer).0
          ((address, status_packet (get_current_status_packet g.message_storage)) ∷ (after peer).1)
  unfolding spread_to
  after-Received peer =
      let channels = channels-update g rmsg.original_name address in
      record {
        packets = ground (arith, channels);
        storage = ground (arith);
        chain = ground (arith, chain-update g rmsg.original_name address);
        peers = ground (arith, peers-update g rmsg.original_name address);
        shared = ground (arith, shared_files-update g rmsg.original_name address);
        downloading = ground (arith, downloading_files-update g rmsg.original_name address);
        routes = λ name. ground (arith, next_hop-update g rmsg.original_name name address);
        waiting = λ a.
            ground
              (arith, channels, lookup-insert {V = RumorMessage} peer a rmsg g.status_channels);
      }

-- If the random number is below the number of peers, processAddressedRumorMessage ends without a
-- panic. It sends the status from before the message to the sender, keeps the message as
-- AddRumorMessage does, and if the message is new, makes the sender the next hop for its origin
-- and, if no goroutine waits for the random peer, sends the message there and starts to wait. It
-- changes no other next hop and no other waiting goroutine, and sends nothing else.
pub process_addressed_rumor_message-Received :
    (g : Gossiper) (rmsg : RumorMessage) (address : Address) (random : ℕ)
    → random < length g.peers
    → (peer : Address) × (get_elem? g.peers random ≡ some peer)
      × (g' : Gossiper) × (sent : Sends) × (process_addressed_rumor_message g rmsg address random
          ≡ ok (g', sent))
      × Received g rmsg address peer g' sent
process_addressed_rumor_message-Received g rmsg address random lt =
    let (peer, at) = get_elem?_in_range g.peers random lt in
    let sent =
      (address, status_packet (get_current_status_packet g.message_storage))
      ∷ (after g rmsg address peer).1 in
    (
      peer,
      at,
      (after g rmsg address peer).0,
      sent,
      run_after g rmsg address peer random at,
      after-Received g rmsg address peer,
    )
