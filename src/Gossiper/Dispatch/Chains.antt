-- ===== src/Gossiper/Dispatch/Chains.antt =====
-- The longest chain of a gossiper and the claims to file names that it waits to confirm:
-- gossiper/Gossiper.go with models/blockchain/BlockchainManager.go.
use decentralized_peerster.Common.{◌≡◌, Bool, true, List, String, string_key, Bytes, bytes_key, ok}
use decentralized_peerster.Map.{lookup}
use decentralized_peerster.Models.{Block}
use decentralized_peerster.Blockchain.Transactions.{is_some}
use decentralized_peerster.Blockchain.Manager.{BlockchainManager}
use decentralized_peerster.Blockchain.Manager.Branches.{Branch}
use decentralized_peerster.Blockchain.Manager.Invariant.{Honest, IsValid}
use decentralized_peerster.Blockchain.Manager.Forks.{hash_of_node}
use decentralized_peerster.Blockchain.Manager.Pending.{chain-Branch}
use decentralized_peerster.Blockchain.Manager.Links.{
  IsHashChain, IsLongest, Branch-IsHashChain, tail-IsLongest,
}
use decentralized_peerster.Blockchain.Manager.Claims.{ClaimsOnce, IsApart}
use decentralized_peerster.Blockchain.Manager.Mined.{IsNamed, mining_round-ClaimsOnce}
use decentralized_peerster.Gossiper.{Address, Gossiper, Sends, new_gossiper}
use decentralized_peerster.Gossiper.Mining.{mining_thread_round, publish}
use decentralized_peerster.Gossiper.Dispatch.{Outside}
use decentralized_peerster.Gossiper.Dispatch.Runs.{Around, Reach, Reach-IsSound}

module _ (outside : Outside) (Seen : Block → Type 0) (honest : Honest outside.sha Seen)
    {name : String} {address : Address} {peers : List Address} {is_simple_mode : Bool}
    {g : Gossiper} (r : Reach outside Seen (new_gossiper name address peers is_simple_mode) g) where
  -- In every state that a gossiper got to from NewGossiper by steps of the message processor, of
  -- clients, of the goroutines of rumors, downloads and searches, of the timers of search requests
  -- and of anti-entropy, of the web server and of the mining thread, in any order, the blocks from
  -- the tail of the longest chain down to the fake block are linked by their hashes: the table of
  -- blocks has the hash of the first (the hash of zeros, if there is none), each is good, each
  -- names the hash of the next one, and the last the hash of zeros; and no block that the table
  -- knows ends a longer chain; each step has its own random numbers, and blocks that are around
  -- and have one hash name one parent, and none has the hash of zeros.
  pub Reach-IsHashChain :
      (chain : List Block) × (h : Bytes) × Branch g.blockchain_manager.nodes 0
        g.blockchain_manager.tail chain
      × (is_some (lookup h g.blockchain_manager.blocks) ≡ true)
      × IsHashChain outside.sha h chain
      × IsLongest g.blockchain_manager chain
  Reach-IsHashChain =
      let bm = g.blockchain_manager in
      let v = (Reach-IsSound outside Seen honest r).chain in
      let (chain, br) = chain-Branch bm.nodes v.tree bm.tail v.tail_node v.tail_at in
      let (h, e) = hash_of_node outside.sha bm.nodes v.tree bm.tail v.tail_node v.tail_at in
      (
        chain,
        h,
        br,
        v.tail_known h e,
        Branch-IsHashChain outside.sha Seen bm v v.tail_node h br v.tail_at e,
        tail-IsLongest outside.sha Seen bm v br,
      )

  -- In every state that a gossiper got to from NewGossiper by steps of the message processor, of
  -- clients, of the goroutines of rumors, downloads and searches, of the timers of search requests
  -- and of anti-entropy, of the web server and of the mining thread, in any order, if no chain of
  -- the tree of blocks claims a file name in two blocks, then no file name that is pending is
  -- claimed by a block of the longest chain; each step has its own random numbers, and blocks that
  -- are around and have one hash name one parent, and none has the hash of zeros.
  pub Reach-IsApart :
      ClaimsOnce g.blockchain_manager.nodes
      → IsApart g.blockchain_manager.nodes g.blockchain_manager.tail g.blockchain_manager.pending_tx
  Reach-IsApart once = (Reach-IsSound outside Seen honest r).chain.apart once

  -- A gossiper in a state that it got to from NewGossiper by steps of the message processor, of
  -- clients, of the goroutines of rumors, downloads and searches, of the timers of search requests
  -- and of anti-entropy, of the web server and of the mining thread, in any order, if no chain of
  -- its tree of blocks claims a file name in two blocks and each pending transaction stands under
  -- its own name, then a round of its mining thread, which looked at a valid manager earlier
  -- without the lock, ends without a panic and leaves a tree of which no chain claims a file name
  -- in two blocks; the candidate on the current tail is around, each step has its own random
  -- numbers, and blocks that are around and have one hash name one parent, and none has the hash
  -- of zeros.
  pub Reach-ClaimsOnce :
      (nonce : Bytes) (earlier : BlockchainManager)
      → IsValid outside.sha Seen earlier
      → Around outside.sha Seen g.blockchain_manager nonce
      → ClaimsOnce g.blockchain_manager.nodes
      → IsNamed g.blockchain_manager.pending_tx
      → (g' : Gossiper) × (sent : Sends) × (mining_thread_round outside.sha nonce earlier g
          ≡ ok (g', sent))
        × ClaimsOnce g'.blockchain_manager.nodes
  unfolding mining_thread_round
  Reach-ClaimsOnce nonce earlier v' seen once named =
      let v = (Reach-IsSound outside Seen honest r).chain in
      let (bm', found, run, kept) =
        mining_round-ClaimsOnce outside.sha Seen g.blockchain_manager v nonce earlier v'
          (λ h e. seen v.tail_node h v.tail_at e) once named in
      (record g { blockchain_manager = bm' }, publish g found, rw run, kept)
