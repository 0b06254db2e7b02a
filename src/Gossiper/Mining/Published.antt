-- ===== src/Gossiper/Mining/Published.antt =====
-- A block that one gossiper mines reaches another: gossiper/Gossiper.go, StartMiningThread and
-- processBlockPublish.
use decentralized_peerster.Common.{
  ◌≡◌, refl, true, false, [], Option, none, some, Bytes, bytes_key, Outcome, ok, ◌⊎◌, inl, inr,
  arith,
}
use decentralized_peerster.Map.{lookup}
use decentralized_peerster.Models.{Block}
use decentralized_peerster.Hashing.{Sha, block_hash, is_good}
use decentralized_peerster.Blockchain.Transactions.{is_some, get_slice_copy}
use decentralized_peerster.Blockchain.Manager.{BlockchainManager, candidate}
use decentralized_peerster.Blockchain.Nodes.{get_block_hash}
use decentralized_peerster.Blockchain.Nodes.Heap.{new_node}
use decentralized_peerster.Blockchain.Manager.Invariant.{Honest, IsValid}
use decentralized_peerster.Blockchain.Manager.Adding.{accepts, add_block-Added}
use decentralized_peerster.Blockchain.Manager.Pending.{Mined, mining_round-Mined}
use decentralized_peerster.Gossiper.{Gossiper, Sends, send_all_peers}
use decentralized_peerster.Gossiper.Broadcast.{block_packet, process_block_publish}
use decentralized_peerster.Gossiper.Mining.{mining_thread_round, published, publish}

module _ (sha : Sha) (Seen : Block → Type 0) (honest : Honest sha Seen) where
  -- A gossiper that knows the parent, and not the block, takes the block and passes it on.
  abbrev pub IsTaken : Block → Type 0
  IsTaken b =
      (h : Gossiper)
      → IsValid sha Seen h.blockchain_manager
      → is_some (lookup b.prev_hash h.blockchain_manager.blocks) ≡ true
      → is_some (lookup (block_hash sha b) h.blockchain_manager.blocks) ≡ false
      → (h' : Gossiper) × (process_block_publish sha h (published b)
          ≡ ok (h', send_all_peers h (block_packet (record { block = b; hop_limit = 19 }))))
        × IsValid sha Seen h'.blockchain_manager
        × (is_some (lookup (block_hash sha b) h'.blockchain_manager.blocks) ≡ true)

  good-IsTaken : (b : Block) → Seen b → is_good sha b ≡ true → IsTaken b
  unfolding process_block_publish
  good-IsTaken b seen good h v parent new =
      let (bm', run, added) = add_block-Added sha Seen honest h.blockchain_manager v b seen in
      let accepted : accepts sha h.blockchain_manager b ≡ true = rw (new, good, parent) refl in
      (
        record h { blockchain_manager = bm' },
        rw (run, accepted) refl,
        added.valid,
        rw (added.known_hashes (block_hash sha b)) (ground (arith, accepted)),
      )

  -- What a round sends: nothing, or a block for everyone.
  abbrev pub Publishes : Gossiper → BlockchainManager → Sends → Type 0
  Publishes g bm' sent =
      ((sent ≡ []) × (bm' ≡ g.blockchain_manager))
      ⊎ ((b : Block) × (sent ≡ send_all_peers g (block_packet (published b)))
          × (b.transactions ≡ get_slice_copy g.blockchain_manager.pending_tx)
          × IsTaken b)

  abbrev round_ends : Gossiper → BlockchainManager → Option Block → Outcome (Gossiper × Sends)
  round_ends g bm' found = ok (record g { blockchain_manager = bm' }, publish g found)

  -- A round of the mining thread on a valid blockchain manager, which looked at a valid manager
  -- earlier without the lock, ends without a panic and leaves a valid manager; it changes and
  -- sends nothing, or it sends every peer a block with the transactions that were pending, which
  -- any gossiper with a valid manager that knows the block's parent and not the block takes into
  -- its tree and passes on to each of its peers with a hop limit of 19; blocks that are around and
  -- have one hash name one parent, none has the hash of zeros, and the candidate on the current
  -- tail is around.
  pub mining_thread_round-Publishes :
      (g : Gossiper) (nonce : Bytes) (earlier : BlockchainManager)
      (v : IsValid sha Seen g.blockchain_manager)
      → IsValid sha Seen earlier
      → ((h : Bytes)
          → get_block_hash sha v.tail_node ≡ ok h
          → Seen (candidate h g.blockchain_manager.pending_tx nonce))
      → (bm' : BlockchainManager) × (sent : Sends) × (mining_thread_round sha nonce earlier g
          ≡ ok (record g { blockchain_manager = bm' }, sent))
        × IsValid sha Seen bm'
        × Publishes g bm' sent
  unfolding mining_thread_round
  mining_thread_round-Publishes g nonce earlier v v' seen =
      let (bm', found, run, mined) =
        mining_round-Mined sha Seen g.blockchain_manager v nonce earlier v' seen in
      rw run (cases bm' found mined)
    where
      cases :
          (bm' : BlockchainManager) (found : Option Block)
          → Mined sha Seen g.blockchain_manager v bm' found
          → (bm'' : BlockchainManager) × (sent : Sends) × (round_ends g bm' found
              ≡ ok (record g { blockchain_manager = bm'' }, sent))
            × IsValid sha Seen bm''
            × Publishes g bm'' sent
      cases bm' none same = (bm', [], refl, rw same v, inl (refl, same))
      cases bm' (some b) (good, prev, txs, at, grown, emptied, valid) =
          let b_seen =
            valid.seen bm'.tail (new_node v.tail_node g.blockchain_manager.tail b) b at refl in
          (bm', publish g (some b), refl, valid, inr (b, refl, txs, good-IsTaken b b_seen good))
