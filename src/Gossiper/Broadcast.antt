-- ===== src/Gossiper/Broadcast.antt =====
-- gossiper/Gossiper.go: what is sent to every peer, which are transactions and blocks. The hop
-- limits are uint32: `HopLimit <= 0` holds for zero only.
pub mod Once
use decentralized_peerster.Common.{
  ℕ, ◌-◌, Bool, true, false, ◌==◌, [], Option, none, some, Outcome, ok, ◌>>=◌, if◌then◌else◌,
  String, Bytes, length,
}
use decentralized_peerster.Models.{GossipPacket, empty_packet, File, TxPublish, BlockPublish}
use decentralized_peerster.Hashing.{Sha}
use decentralized_peerster.Blockchain.Manager.{add_transaction, add_block}
use decentralized_peerster.Gossiper.{Gossiper, Sends, send_all_peers}

abbrev pub blockchain_tx_hop_limit : ℕ
blockchain_tx_hop_limit = 10

abbrev pub tx_packet : TxPublish → GossipPacket
tx_packet tx = record empty_packet { tx_publish = some tx }

abbrev pub block_packet : BlockPublish → GossipPacket
block_packet bp = record empty_packet { block_publish = some bp }

abbrev forward_tx : Gossiper → TxPublish → Bool → Sends
forward_tx g tx is_new =
    if is_new
    then if tx.hop_limit == 0
      then []
      else send_all_peers g (tx_packet (record tx { hop_limit = tx.hop_limit - 1 }))
    else []

unfoldable pub process_tx_publish : Gossiper → TxPublish → Outcome (Gossiper × Sends)
process_tx_publish g tx = do
  added ← add_transaction g.blockchain_manager tx
  ok (record g { blockchain_manager = added.0 }, forward_tx g tx added.1)

abbrev forward_block : Gossiper → BlockPublish → Bool → Sends
forward_block g bp is_new =
    if is_new
    then if bp.hop_limit == 0
      then []
      else send_all_peers g (block_packet (record bp { hop_limit = bp.hop_limit - 1 }))
    else []

unfoldable pub process_block_publish : Sha → Gossiper → BlockPublish → Outcome (Gossiper × Sends)
process_block_publish sha g bp = do
  added ← add_block sha g.blockchain_manager bp.block
  ok (record g { blockchain_manager = added.0 }, forward_block g bp added.1)

abbrev pub shared_tx : String → Bytes → ℕ → TxPublish
shared_tx name metafile_hash size = record {
  file = record { name = name; size = size; metafile_hash = metafile_hash };
  hop_limit = blockchain_tx_hop_limit;
}

-- `shared` is what ShareFile returns: name, metafile hash and size, or a nil.
unfoldable pub process_client_to_share :
    Gossiper → Option (String × Bytes × ℕ) → Outcome (Gossiper × Sends)
process_client_to_share g none = ok (g, [])
process_client_to_share g (some (name, metafile_hash, size)) = do
  let tx = shared_tx name metafile_hash size
  added ← add_transaction g.blockchain_manager tx
  ok (
    record g { blockchain_manager = added.0 },
    if added.1 then send_all_peers g (tx_packet tx) else [],
  )
