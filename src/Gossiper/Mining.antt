-- ===== src/Gossiper/Mining.antt =====
-- gossiper/Gossiper.go: the mining thread, which publishes each block that it mined.
pub mod Published
use decentralized_peerster.Common.{ℕ, List, [], Option, none, some, Bytes, Outcome, ok, ◌>>=◌}
use decentralized_peerster.Models.{Block, BlockPublish}
use decentralized_peerster.Hashing.{Sha}
use decentralized_peerster.Blockchain.Manager.{BlockchainManager, mining_round}
use decentralized_peerster.Gossiper.{Gossiper, Sends, send_all_peers}
use decentralized_peerster.Gossiper.Broadcast.{block_packet}

abbrev pub blockchain_block_publish_hop_limit : ℕ
blockchain_block_publish_hop_limit = 20

abbrev pub published : Block → BlockPublish
published block = record { block = block; hop_limit = blockchain_block_publish_hop_limit }

abbrev pub publish : Gossiper → Option Block → Sends
publish g none = []
publish g (some block) = send_all_peers g (block_packet (published block))

-- One round of DoMining with the nonce that it drew, and what the thread sends if it mined a block.
-- `seen` is the manager as the round saw it before it took the lock.
unfoldable pub mining_thread_round :
    Sha → Bytes → BlockchainManager → Gossiper → Outcome (Gossiper × Sends)
mining_thread_round sha nonce seen g = do
  mined ← mining_round sha nonce seen g.blockchain_manager
  ok (record g { blockchain_manager = mined.0 }, publish g mined.1)
