-- ===== src/Gossiper/Threads/Datagrams.antt =====
-- Datagrams from their arrival to the datagrams that they lead to: gossiper/Gossiper.go,
-- StartPeerReader, StartMessageProcessor and StartPeerWriter.
use Prim.Native.String.{◌++◌ as ◌+++◌}
use decentralized_peerster.Common.{
  ℕ, ◌+◌, ◌≡◌, ◌≢◌, ◌<◌, true, List, [], ◌∷◌, ◌++◌, none, some, String, Bytes, Outcome, ok, ◌>>=◌,
  length, All,
}
use decentralized_peerster.Models.{Block}
use decentralized_peerster.Blockchain.Manager.Invariant.{Honest}
use decentralized_peerster.Gossiper.{Address, Gossiper, Sends, update_peers_if_needed, knows_peer}
use decentralized_peerster.Gossiper.Dispatch.{Outside}
use decentralized_peerster.Gossiper.Dispatch.Safe.{IsSound, Arrives}
use decentralized_peerster.Gossiper.Dispatch.Runs.{Reach}
use decentralized_peerster.Gossiper.Threads.{
  Codec, max_packet_size, read_buffer, peer_reader_round, peer_writer_round,
  message_processor_round,
}

abbrev pub Datagram : Type 0
Datagram = Address × Bytes

-- What the peer-writer writes of what is put into its channel.
pub written : Codec → Sends → List Datagram
written codec [] = []
written codec (agp ∷ sent) = elim (peer_writer_round codec agp) [
  | none ↦ written codec sent
  | some datagram ↦ datagram ∷ written codec sent
]

-- The datagrams come one after the other; with each, the gossiper, what is written and printed.
abbrev pub Answered : Type 0
Answered = Gossiper × List Datagram × String

-- `rand i n` is the random number below `n` that is drawn for the i-th datagram.
module _ (codec : Codec) (outside : Outside) (rand : ℕ → ℕ → ℕ) where
  unfoldable pub answer_datagrams : ℕ → Gossiper → List Datagram → Outcome Answered
  answer_datagrams i g [] = ok (g, [], "")
  answer_datagrams i g ((addr, datagram) ∷ datagrams) = do
    done ←
        message_processor_round codec outside g (peer_reader_round codec datagram addr)
          (rand i (length (update_peers_if_needed g addr).peers))
    more ← answer_datagrams (i + 1) done.0.0.0 datagrams
    ok (more.0, written codec done.0.0.1 ++ more.1, done.1 +++ more.2)

module _ (codec : Codec) (outside : Outside) (Seen : Block → Type 0)
    (honest : Honest outside.sha Seen) (rand : ℕ → ℕ → ℕ)
    (random : (i n : ℕ) → n ≢ 0 → rand i n < n) where
  -- Decode leaves an id that is a uint32 in a rumor, and a block that is around.
  abbrev pub IsDecoded : Datagram → Type 0
  IsDecoded d = Arrives outside.sha Seen (codec.decode_packet (read_buffer max_packet_size d.1))

  -- The gossiper is sound, got there by steps of Runs, and knows the peers that it knew and the senders.
  pub record IsAnswered (g : Gossiper) (datagrams : List Datagram) (g' : Gossiper) : Type 0 where
    pub sound : IsSound outside.sha Seen g'
    pub reached : Reach outside Seen g g'
    pub known : (p : Address) → knows_peer g.peers p ≡ true → knows_peer g'.peers p ≡ true
    pub senders : All (λ d. knows_peer g'.peers d.0 ≡ true) datagrams
