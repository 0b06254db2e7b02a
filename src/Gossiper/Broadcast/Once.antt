-- ===== src/Gossiper/Broadcast/Once.antt =====
-- A transaction is passed on by a gossiper once: gossiper/Gossiper.go, processTxPublish, and
-- models/blockchain/BlockchainManager.go, AddTransaction.
use decentralized_peerster.Common.{
  Bool, true, false, ℕ, ◌-◌, ◌≡◌, true, ◌==◌, ◌||◌, List, [], ok, if◌then◌else◌, arith, Bool-cases,
  inl, inr, string_key,
}
use decentralized_peerster.Map.{insert-IsMap, lookup-insert}
use decentralized_peerster.Models.{TxPublish, Block}
use decentralized_peerster.Hashing.{Sha}
use decentralized_peerster.Blockchain.Transactions.{add, contains_filename, TransactionsSet}
use decentralized_peerster.Blockchain.Manager.{BlockchainManager, add_transaction}
use decentralized_peerster.Blockchain.Manager.Branches.{Branch}
use decentralized_peerster.Blockchain.Manager.Claims.{add-IsApart}
use decentralized_peerster.Blockchain.Manager.Invariant.{IsValid}
use decentralized_peerster.Blockchain.Manager.Pending.{
  taken, add_transaction_lem, add_transaction-Branch,
}
use decentralized_peerster.Gossiper.{Gossiper, Sends, send_all_peers}
use decentralized_peerster.Gossiper.Broadcast.{process_tx_publish, tx_packet}

abbrev with_pending : Gossiper → TransactionsSet → Gossiper
with_pending g pending = record g {
  blockchain_manager = record g.blockchain_manager { pending_tx = pending };
}

-- What processTxPublish does, given the blocks of the longest chain.
published : Gossiper → TxPublish → List Block → Gossiper × Sends
published g tx chain = if taken g.blockchain_manager tx chain then (g, []) else (
  with_pending g (add g.blockchain_manager.pending_tx tx).0,
  if tx.hop_limit == 0
      then []
      else send_all_peers g (tx_packet (record tx { hop_limit = tx.hop_limit - 1 })),
)

process_tx_publish-branches :
    (sha : Sha) (Seen : Block → Type 0) (g : Gossiper) (tx : TxPublish) (chain : List Block)
    → IsValid sha Seen g.blockchain_manager
    → Branch g.blockchain_manager.nodes 0 g.blockchain_manager.tail chain
    → process_tx_publish g tx ≡ ok (published g tx chain)
unfolding process_tx_publish published
process_tx_publish-branches sha Seen g tx chain v br =
    let run = add_transaction-Branch sha Seen g.blockchain_manager tx chain v br in
    ground (arith, run)

pending-IsValid :
    (sha : Sha) (Seen : Block → Type 0) (bm : BlockchainManager) (tx : TxPublish)
    (chain : List Block)
    → IsValid sha Seen bm
    → Branch bm.nodes 0 bm.tail chain
    → taken bm tx chain ≡ false
    → IsValid sha Seen (record bm { pending_tx = (add bm.pending_tx tx).0 })
unfolding add
pending-IsValid sha Seen bm tx chain v br free = record {
  tree = v.tree;
  tail_node = v.tail_node;
  tail_at = v.tail_at;
  tail_known = v.tail_known;
  known = v.known;
  parents = v.parents;
  seen = v.seen;
  links = v.links;
  apart = λ once.
      add-IsApart bm.nodes bm.tail bm.pending_tx tx chain br (ground (arith, free)) (v.apart once);
  waiting = v.waiting;
  pending = ground (arith, v.pending, insert-IsMap tx.file.name tx bm.pending_tx v.pending);
}

-- AddTransaction ends, and leaves a valid manager.
pub add_transaction-IsValid :
    (sha : Sha) (Seen : Block → Type 0) (bm : BlockchainManager) (tx : TxPublish)
    → IsValid sha Seen bm
    → (bm' : BlockchainManager) × (is_new : Bool) × (add_transaction bm tx ≡ ok (bm', is_new))
      × IsValid sha Seen bm'
add_transaction-IsValid sha Seen bm tx v =
    let (chain, br, run) = add_transaction_lem sha Seen bm tx v in
    elim (Bool-cases (taken bm tx chain)) [
      | inl known ↦ (bm, false, ground (arith, run, known), v)
      | inr new ↦ (
        record bm { pending_tx = (add bm.pending_tx tx).0 },
        true,
        ground (arith, run, new),
        pending-IsValid sha Seen bm tx chain v br new,
      )
    ]

contains_filename-add :
    (ts : TransactionsSet) (tx : TxPublish) → contains_filename (add ts tx).0 tx.file.name ≡ true
unfolding add contains_filename
contains_filename-add ts tx =
    ground (arith, lookup-insert {V = TxPublish} tx.file.name tx.file.name tx ts)

-- A gossiper whose blockchain manager is valid passes a transaction on to every peer, with a hop
-- limit that is lower by one, exactly if its file name is neither pending nor in a block of the
-- longest chain and its hop limit is not zero; and whatever hop limit the transaction has when it
-- comes again, nothing changes and nothing is sent.
pub process_tx_publish-twice :
    (sha : Sha) (Seen : Block → Type 0) (g : Gossiper) (tx : TxPublish) (again : ℕ)
    → IsValid sha Seen g.blockchain_manager
    → (chain : List Block) × Branch g.blockchain_manager.nodes 0 g.blockchain_manager.tail chain
      × (g' : Gossiper) × (process_tx_publish g tx
          ≡ ok (
            g',
            if taken g.blockchain_manager tx chain || tx.hop_limit == 0
                then []
                else send_all_peers g (tx_packet (record tx { hop_limit = tx.hop_limit - 1 })),
          ))
      × (process_tx_publish g' (record tx { hop_limit = again }) ≡ ok (g', []))
unfolding published
process_tx_publish-twice sha Seen g tx again v =
    let bm = g.blockchain_manager in
    let (chain, br, _) = add_transaction_lem sha Seen bm tx v in
    let run = process_tx_publish-branches sha Seen g tx chain v br in
    elim (Bool-cases (taken bm tx chain)) [
      | inl known ↦
          let run' =
            process_tx_publish-branches sha Seen g (record tx { hop_limit = again }) chain v br in
          (chain, br, g, ground (arith, run, known), ground (arith, run', known))
      | inr new ↦
          let g' = with_pending g (add bm.pending_tx tx).0 in
          let run' =
            process_tx_publish-branches sha Seen g' (record tx { hop_limit = again }) chain
              (pending-IsValid sha Seen bm tx chain v br new) br in
          let held = contains_filename-add bm.pending_tx tx in
          (chain, br, g', ground (arith, run, new), ground (arith, run', held))
    ]
