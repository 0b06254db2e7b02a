-- ===== src/Tests/Mining.antt =====
-- A block that one gossiper mines and another takes, under a toy hash.
use decentralized_peerster.Common.{
  ◌≡◌, refl, sym, ◌∙◌, [], ◌∷◌, ap, arith, false, Bytes, get_elem?, ok, bytes_key, string_key,
}
use decentralized_peerster.Models.{TxPublish, Block}
use decentralized_peerster.Blockchain.Transactions.{add, get_slice_copy}
use decentralized_peerster.Map.{lookup, insert}
use decentralized_peerster.Blockchain.Nodes.{zero_hash, fake_block_node, get_block_hash, is_fake}
use decentralized_peerster.Blockchain.Manager.Branches.{stop}
use decentralized_peerster.Hashing.{block_hash}
use decentralized_peerster.Blockchain.Manager.{
  BlockchainManager, candidate, init_blockchain_manager,
}
use decentralized_peerster.Blockchain.Manager.Invariant.{Honest, IsValid, init-IsValid}
use decentralized_peerster.Gossiper.{Gossiper, Sends, new_gossiper}
use decentralized_peerster.Gossiper.Mining.{mining_thread_round}
use decentralized_peerster.Gossiper.Mining.Published.{Publishes, mining_thread_round-Publishes}
use decentralized_peerster.Tests.Chain.{toy, hash_run, get_or_zero}

abbrev pub tx : TxPublish
tx = record { file = record { name = "f"; size = 1; metafile_hash = [] }; hop_limit = 10 }

abbrev pub new_block : Block
new_block = record { prev_hash = zero_hash; nonce = 1 ∷ []; transactions = tx ∷ [] }

abbrev pub Seen : Block → Type 0
Seen b = b ≡ new_block

pub seen-Honest : Honest toy Seen
unfolding hash_run
seen-Honest = record {
  same_parent = λ b c b_new c_new e. ap (λ (d : Block). d.prev_hash) (b_new ∙ sym c_new);
  non_zero = λ b b_new e.
      let zero : block_hash toy new_block ≡ zero_hash = rw b_new at e in
      omega (arith, ap (λ h. get_or_zero (get_elem? h 2)) zero);
}

abbrev pub miner : BlockchainManager
miner = record init_blockchain_manager { pending_tx = (add [] tx).0 }

pub miner-IsValid : IsValid toy Seen miner
unfolding add lookup insert
miner-IsValid =
    let v = init-IsValid toy Seen in
    record {
      tree = v.tree;
      tail_node = v.tail_node;
      tail_at = v.tail_at;
      tail_known = v.tail_known;
      known = v.known;
      parents = v.parents;
      seen = v.seen;
      links = v.links;
      apart = λ once. ([], stop, λ name e. refl);
      waiting = v.waiting;
      pending = (refl, tt);
    }

abbrev carol : Gossiper
carol = record (new_gossiper "carol" "c" ("b" ∷ []) false) { blockchain_manager = miner }

candidate-Seen :
    (h : Bytes)
    → get_block_hash toy miner-IsValid.tail_node ≡ ok h
    → Seen (candidate h miner.pending_tx (1 ∷ []))
unfolding get_block_hash is_fake get_slice_copy hash_run add lookup insert
candidate-Seen h e =
    let fake : fake_block_node ≡ miner-IsValid.tail_node = cc miner-IsValid.tail_at in
    let hashed : get_block_hash toy fake_block_node ≡ ok h = cc (fake, e) in
    let zero : h ≡ zero_hash = cc hashed in rw zero refl

mining_thread_round-Publishes_example :
    (bm' : BlockchainManager) × (sent : Sends) × (mining_thread_round toy (1 ∷ []) miner carol
      ≡ ok (record carol { blockchain_manager = bm' }, sent))
    × IsValid toy Seen bm'
    × Publishes toy Seen seen-Honest carol bm' sent
mining_thread_round-Publishes_example =
    mining_thread_round-Publishes toy Seen seen-Honest carol (1 ∷ []) miner miner-IsValid
      miner-IsValid candidate-Seen
