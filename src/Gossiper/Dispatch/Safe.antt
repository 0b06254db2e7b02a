-- ===== src/Gossiper/Dispatch/Safe.antt =====
-- Every packet that a peer sends is handled without a panic: gossiper/Gossiper.go,
-- processAddressedGossipPacket.
use decentralized_peerster.Common.{
  ite_both, if_both, ℕ, ◌≡◌, ◌≢◌, ◌<◌, refl, Bool, false, List, [], ◌∷◌, ◌++◌, Option, none, some,
  String, Outcome, ok, arith, length, if◌then◌else◌, string_discrete,
}
use decentralized_peerster.Models.{
  GossipPacket, RumorMessage, PrivateMessage, TxPublish, BlockPublish, Block, u32_mod,
}
use decentralized_peerster.Hashing.{Sha}
use decentralized_peerster.Storage.{MessageStorage, add_private_message}
use decentralized_peerster.Storage.Invariant.{IsValid as IsStored, add_rumor_message-IsValid}
use decentralized_peerster.Blockchain.Manager.Invariant.{IsValid as IsChain, Honest}
use decentralized_peerster.Blockchain.Manager.Adding.{add_block-Added}
use decentralized_peerster.Gossiper.{Address, Gossiper, Sends, update_peers_if_needed, knows_peer}
use decentralized_peerster.Files.Sharing.Answers.{IsSharer}
use decentralized_peerster.Files.Sharing.Stocked.{IsStocker}
use decentralized_peerster.Files.Downloading.Sound.{IsDownloader}
use decentralized_peerster.Gossiper.Routing.{process_private_message}
use decentralized_peerster.Gossiper.Broadcast.{process_tx_publish, process_block_publish}
use decentralized_peerster.Gossiper.Broadcast.Once.{add_transaction-IsValid}
use decentralized_peerster.Gossiper.Rumors.{
  process_addressed_rumor_message, process_addressed_simple_message,
}
use decentralized_peerster.Gossiper.Rumors.Waiting.{process_addressed_rumor_message-Received}
use decentralized_peerster.Gossiper.Dispatch.{
  Outside, if_set, dispatch, process_addressed_gossip_packet,
}
use decentralized_peerster.Gossiper.Dispatch.Frames.{
  Frame, Framed, Frame-refl, data_request-Frame, data_reply-Frame, search_reply-Frame,
  status_packet-Framed, search_request-Framed,
}

-- What holds of both branches holds of the choice.
pub if_set_both {ℓ} :
    {A : Type 0} {B : Type 0} (P : B → Type ℓ) (o : Option A) (f : A → B) (rest : B)
    → ((a : A) → o ≡ some a → P (f a))
    → P rest
    → P (if_set o f rest)
if_set_both P none f rest p q = q
if_set_both P (some a) f rest p q = p a refl

module _ (sha : Sha) (Seen : Block → Type 0) where
  -- What the managers of files hold for a hash has this hash, and a chunk that is shared is there.
  abbrev pub HasFiles : Gossiper → Type 0
  HasFiles g =
      IsSharer sha g.shared_files_manager
      × IsStocker g.shared_files_manager
      × IsDownloader sha g.downloading_files_manager

  pub Files-kept : (g g' : Gossiper) → Frame g g' → HasFiles g → HasFiles g'
  Files-kept g g' f files = rw (f.shared, f.downloading) files

  -- The message storage, the blockchain manager and the managers of files are valid.
  pub record IsSound (g : Gossiper) : Type 0 where
    pub storage : IsStored g.message_storage
    pub chain : IsChain sha Seen g.blockchain_manager
    pub files : HasFiles g

  -- The handler ends without a panic, the state is sound, and the peers are the same.
  abbrev pub Goes : Gossiper → Outcome (Gossiper × Sends) → Type 0
  Goes g o =
      (g' : Gossiper) × (sent : Sends) × (o ≡ ok (g', sent)) × IsSound g' × (g'.peers ≡ g.peers)

  -- A rumor has a uint32 for its id, and a block is one that is around.
  abbrev pub Arrives : GossipPacket → Type 0
  Arrives gp =
      ((m : RumorMessage) → gp.rumor ≡ some m → m.id < u32_mod)
      × ((bp : BlockPublish) → gp.block_publish ≡ some bp → Seen bp.block)

  pub Goes-Framed :
      (g : Gossiper) (o : Outcome (Gossiper × Sends)) → IsSound g → Framed g o → Goes g o
  Goes-Framed g o s (g', sent, run, f) = (
    g',
    sent,
    run,
    record {
      storage = rw f.storage s.storage;
      chain = rw f.chain s.chain;
      files = Files-kept g g' f s.files;
    },
    f.peers,
  )

  pub Goes-Frame :
      (g g' : Gossiper) (sent : Sends) → IsSound g → Frame g g' → Goes g (ok (g', sent))
  Goes-Frame g g' sent s f = Goes-Framed g (ok (g', sent)) s (g', sent, refl, f)

  private-IsStored :
      (ms : MessageStorage) (m : PrivateMessage) (name : String)
      → IsStored ms
      → IsStored (add_private_message ms m name).0
  unfolding add_private_message
  private-IsStored ms m name v =
      ite_both (λ (r : MessageStorage × Bool). IsStored r.0) (string_discrete m.destination name) _
        _
        (λ e. record {
          one_clock = v.one_clock;
          clock = v.clock;
          in_turn = v.in_turn;
          chronicle = v.chronicle;
        })
        v

  pub private-Goes :
      (g : Gossiper) (m : PrivateMessage) → IsSound g → Goes g (ok (process_private_message g m))
  unfolding process_private_message
  private-Goes g m s =
      ite_both (λ (r : Gossiper × Sends). Goes g (ok r)) (string_discrete m.destination g.name) _ _
        (λ e. (
          _,
          _,
          refl,
          record {
            storage = private-IsStored g.message_storage m g.name s.storage;
            chain = s.chain;
            files = s.files;
          },
          refl,
        ))
        (if_both (λ (r : Gossiper × Sends). Goes g (ok r)) _ _ _ (_, _, refl, s, refl)
          (_, _, refl, s, refl))

  pub rumor-Goes :
      (g : Gossiper) (m : RumorMessage) (address : Address) (random : ℕ)
      → m.id < u32_mod
      → random < length g.peers
      → IsSound g
      → Goes g (process_addressed_rumor_message g m address random)
  rumor-Goes g m address random u32 lt s =
      let (peer, _, g', sent, run, received) =
        process_addressed_rumor_message-Received g m address random lt in
      (
        g',
        sent,
        run,
        record {
          storage =
              rw received.storage (add_rumor_message-IsValid g.message_storage m u32 s.storage);
          chain = rw received.chain s.chain;
          files = rw (received.shared, received.downloading) s.files;
        },
        received.peers,
      )

  pub tx-Goes : (g : Gossiper) (tx : TxPublish) → IsSound g → Goes g (process_tx_publish g tx)
  unfolding process_tx_publish
  tx-Goes g tx s =
      let (bm', is_new, run, v) =
        add_transaction-IsValid sha Seen g.blockchain_manager tx s.chain in
      rw run (_, _, refl, record { storage = s.storage; chain = v; files = s.files }, refl)

  pub block-Goes :
      (honest : Honest sha Seen) (g : Gossiper) (bp : BlockPublish)
      → Seen bp.block
      → IsSound g
      → Goes g (process_block_publish sha g bp)
  unfolding process_block_publish
  block-Goes honest g bp seen s =
      let (bm', run, added) =
        add_block-Added sha Seen honest g.blockchain_manager s.chain bp.block seen in
      rw run
        (_, _, refl, record { storage = s.storage; chain = added.valid; files = s.files }, refl)

module _ (outside : Outside) (Seen : Block → Type 0) (honest : Honest outside.sha Seen) where
  dispatch-Goes :
      (g : Gossiper) (gp : GossipPacket) (address : Address) (random : ℕ)
      → Arrives outside.sha Seen gp
      → random < length g.peers
      → g.peers ≢ []
      → IsSound outside.sha Seen g
      → Goes outside.sha Seen g (dispatch outside g gp address random)
  unfolding dispatch process_addressed_simple_message
  dispatch-Goes g gp address random arrives lt some_peer s =
      let frame : (g' : Gossiper) (sent : Sends)
          → Frame g g'
          → Goes outside.sha Seen g (ok (g', sent)) =
        λ g' sent. Goes-Frame outside.sha Seen g g' sent s in
      let framed : (o : Outcome (Gossiper × Sends)) → Framed g o → Goes outside.sha Seen g o =
        λ o. Goes-Framed outside.sha Seen g o s in
      if_set_both (Goes outside.sha Seen g) gp.rumor _ _
        (λ m e. rumor-Goes outside.sha Seen g m address random (arrives.0 m e) lt s)
        (if_set_both (Goes outside.sha Seen g) gp.status _ _
          (λ m e. framed _ (status_packet-Framed g m address s.storage))
          (if_set_both (Goes outside.sha Seen g) gp.simple _ _ (λ m e. frame _ _ (Frame-refl g))
            (if_set_both (Goes outside.sha Seen g) gp.private_message _ _
              (λ m e. private-Goes outside.sha Seen g m s)
              (if_set_both (Goes outside.sha Seen g) gp.data_request _ _
                (λ m e. frame _ _ (data_request-Frame _ _ g m))
                (if_set_both (Goes outside.sha Seen g) gp.data_reply _ _
                  (λ m e. frame _ _ (data_reply-Frame g m))
                  (if_set_both (Goes outside.sha Seen g) gp.search_request _ _
                    (λ m e. framed _ (search_request-Framed _ g m some_peer))
                    (if_set_both (Goes outside.sha Seen g) gp.search_reply _ _
                      (λ m e. frame _ _ (search_reply-Frame g m))
                      (if_set_both (Goes outside.sha Seen g) gp.tx_publish _ _
                        (λ m e. tx-Goes outside.sha Seen g m s)
                        (if_set_both (Goes outside.sha Seen g) gp.block_publish _ _
                          (λ m e. block-Goes outside.sha Seen honest g m (arrives.1 m e) s)
                          (frame g [] (Frame-refl g)))))))))))

  knows_none : (address : Address) → knows_peer [] address ≡ false
  unfolding knows_peer
  knows_none address = refl

  peers_after :
      (g : Gossiper) (address : Address)
      → (update_peers_if_needed g address).peers
        ≡ (if knows_peer g.peers address then g.peers else g.peers ++ address ∷ [])
  unfolding update_peers_if_needed
  peers_after g address = ground arith

  pub known_after :
      (g : Gossiper) (address : Address) → (update_peers_if_needed g address).peers ≢ []
  known_after g address = rw (peers_after g address) (cases g.peers)
    where
      cases : (ps : List Address) → (if knows_peer ps address then ps else ps ++ address ∷ []) ≢ []
      cases [] = rw (knows_none address) (λ e. cc)
      cases (p ∷ ps) =
          if_both (λ (qs : List Address). qs ≢ []) (knows_peer (p ∷ ps) address) _ _ (λ e. cc)
            (λ e. cc)

  pub update_peers_if_needed-IsSound :
      (g : Gossiper) (address : Address)
      → IsSound outside.sha Seen g
      → IsSound outside.sha Seen (update_peers_if_needed g address)
  unfolding update_peers_if_needed
  update_peers_if_needed-IsSound g address s =
      if_both (IsSound outside.sha Seen) (knows_peer g.peers address) g
        (record g { peers = g.peers ++ address ∷ [] }) s
        (record { storage = s.storage; chain = s.chain; files = s.files })

  -- Whatever packet a peer sends, with an id that is a uint32 if it is a rumor and a block that is
  -- around if it is a block, a gossiper with a valid message storage, a valid blockchain manager
  -- and managers of files that hold under each hash data of this hash handles it without a panic,
  -- and every loop of it stops; it keeps all this, and has the peers that it had and the sender; a
  -- send on the channel of a goroutine counts as taken, blocks that are around and have one hash
  -- name one parent, and none has the hash of zeros, and the random number is below the number of
  -- peers, the sender included.
  pub process_addressed_gossip_packet-Goes :
      (g : Gossiper) (gp : GossipPacket) (address : Address) (random : ℕ)
      → Arrives outside.sha Seen gp
      → random < length (update_peers_if_needed g address).peers
      → IsSound outside.sha Seen g
      → Goes outside.sha Seen
          (update_peers_if_needed g address)
          (process_addressed_gossip_packet outside g gp address random)
  unfolding process_addressed_gossip_packet
  process_addressed_gossip_packet-Goes g gp address random arrives lt s =
      dispatch-Goes (update_peers_if_needed g address) gp address random arrives lt
        (known_after g address) (update_peers_if_needed-IsSound g address s)
