-- ===== src/Tests/Claims.antt =====
-- A transaction that comes and the block that a gossiper makes of it, under a toy hash.
use decentralized_peerster.Common.{
  length, refl, ℕ, ◌≡◌, ◌<◌, ◌≤◌, arith, true, false, [], none, some, ok, ◌∷◌, List, Bytes,
  bytes_key, get_elem?, string_key, zero, suc, inl, inr,
}
use decentralized_peerster.Hashing.{block_hash}
use decentralized_peerster.Blockchain.Manager.Invariant.{Honest}
use decentralized_peerster.Blockchain.Manager.{mining_round}
use decentralized_peerster.Blockchain.Nodes.{init_block_node}
use decentralized_peerster.Blockchain.Transactions.{is_empty, init_from_slice}
use decentralized_peerster.Blockchain.Manager.Mined.{grown-ClaimsOnce}
use decentralized_peerster.Gossiper.Mining.{publish}
use decentralized_peerster.Common.{◌⊎◌, sym, ◌∙◌, ap, string_discrete}
use decentralized_peerster.Models.{TxPublish}
use decentralized_peerster.Map.{lookup, insert}
use decentralized_peerster.Models.{Block}
use decentralized_peerster.Blockchain.Transactions.{
  contains, contains_filename, add, is_some, get_slice_copy,
}
use decentralized_peerster.Blockchain.Nodes.{
  BlockNode, fake_block_node, get_block_hash, is_fake, zero_hash,
}
use decentralized_peerster.Blockchain.Nodes.Heap.{new_node}
use decentralized_peerster.Blockchain.Manager.{
  BlockchainManager, init_blockchain_manager, add_transaction, chain_contains,
}
use decentralized_peerster.Blockchain.Manager.Branches.{Branch}
use decentralized_peerster.Blockchain.Manager.Claims.{ClaimsOnce, IsApart, Branch-cases}
use decentralized_peerster.Blockchain.Manager.Links.{IsHashChain, IsLongest}
use decentralized_peerster.Gossiper.{
  knows_peer, send_all_peers, Gossiper, Sends, new_gossiper, update_peers_if_needed,
}
use decentralized_peerster.Gossiper.Broadcast.{process_tx_publish, tx_packet}
use decentralized_peerster.Gossiper.Mining.{mining_thread_round}
use decentralized_peerster.Blockchain.Manager.Invariant.{IsValid, init-IsValid}
use decentralized_peerster.Blockchain.Manager.Exchange.{add_chain, add_chain-IsLongest}
use decentralized_peerster.Blockchain.Manager.Mined.{IsNamed}
use decentralized_peerster.Gossiper.Dispatch.{dispatch, Outside, process_addressed_gossip_packet}
use decentralized_peerster.Gossiper.Dispatch.Safe.{Arrives}
use decentralized_peerster.Gossiper.Dispatch.Runs.{Around, Reach, Step, Reach-IsSound}
use decentralized_peerster.Gossiper.Dispatch.Chains.{
  Reach-IsHashChain, Reach-IsApart, Reach-ClaimsOnce,
}
use decentralized_peerster.Tests.Chain.{toy, hash_run, get_or_zero}
use decentralized_peerster.Tests.Mining.{tx, new_block, miner}

abbrev outside : Outside
outside = record {
  sha = toy;
  match_string = λ pattern text. some false;
  base = λ path. path;
  is_shared = λ name. false;
  read_file = λ path. none;
}

abbrev dave : Gossiper
dave = new_gossiper "dave" "d" [] false

abbrev other_tx : TxPublish
other_tx = record { file = record { name = "g"; size = 1; metafile_hash = [] }; hop_limit = 10 }

abbrev later_block : Block
later_block = record {
  prev_hash = block_hash toy new_block;
  nonce = 2 ∷ [];
  transactions = other_tx ∷ [];
}

abbrev Seen : Block → Type 0
Seen b = (b ≡ new_block) ⊎ (b ≡ later_block)

abbrev third : Bytes → ℕ
third h = get_or_zero (get_elem? h 2)

differ : ¬ (block_hash toy new_block ≡ block_hash toy later_block)
unfolding hash_run
differ e = omega (arith, ap third e)

new_not_zero : ¬ (block_hash toy new_block ≡ zero_hash)
unfolding hash_run
new_not_zero e = omega (arith, ap third e)

later_not_zero : ¬ (block_hash toy later_block ≡ zero_hash)
unfolding hash_run
later_not_zero e = omega (arith, ap third e)

one_parent :
    (b c : Block)
    → Seen b
    → Seen c
    → block_hash toy b ≡ block_hash toy c
    → b.prev_hash ≡ c.prev_hash
one_parent b c (inl x) (inl y) e = ap (λ (d : Block). d.prev_hash) (x ∙ sym y)
one_parent b c (inr x) (inr y) e = ap (λ (d : Block). d.prev_hash) (x ∙ sym y)
one_parent b c (inl x) (inr y) e =
    absurd (differ (sym (ap (block_hash toy) x) ∙ e ∙ ap (block_hash toy) y))
one_parent b c (inr x) (inl y) e =
    absurd (differ (sym (ap (block_hash toy) y) ∙ sym e ∙ ap (block_hash toy) x))

no_zero : (b : Block) → Seen b → ¬ (block_hash toy b ≡ zero_hash)
no_zero b (inl x) e = new_not_zero (sym (ap (block_hash toy) x) ∙ e)
no_zero b (inr x) e = later_not_zero (sym (ap (block_hash toy) x) ∙ e)

seen-Honest : Honest toy Seen
seen-Honest = record { same_parent = one_parent; non_zero = no_zero }

tx-Arrives : (t : TxPublish) → Arrives toy Seen (tx_packet t)
tx-Arrives t = ((λ m e. absurd (cc)), (λ bp e. absurd (cc)))

-- The transaction is pending.
abbrev waits : Gossiper
waits = record (update_peers_if_needed dave "b") { blockchain_manager = miner }

tx_comes :
    process_addressed_gossip_packet outside dave (tx_packet tx) "b" 0
    ≡ ok (waits, send_all_peers waits (tx_packet (record tx { hop_limit = 9 })))
unfolding process_addressed_gossip_packet dispatch process_tx_publish add_transaction chain_contains
    contains contains_filename lookup add insert update_peers_if_needed knows_peer is_fake
    send_all_peers
tx_comes = refl

some_peer : 0 < length (update_peers_if_needed dave "b").peers
unfolding update_peers_if_needed knows_peer
some_peer = omega arith

Reach-waits : Reach outside Seen dave waits
Reach-waits =
    Reach.later Reach.here (Step.packet (tx_packet tx) "b" 0 (tx-Arrives tx) some_peer tx_comes)

only_root_ClaimsOnce : ClaimsOnce (fake_block_node ∷ [])
only_root_ClaimsOnce c chain br = elim (Branch-cases _ br) [
  | inl (root, empty) ↦ rw empty tt
  | inr (m, q, b, above, at, lt, r_lt, br', e) ↦ absurd (no_child c m q b at)
]
  where
    no_child :
        (c : ℕ) (m : BlockNode) (q : ℕ) (b : Block)
        → get_elem? (fake_block_node ∷ []) c ≡ some (new_node m q b)
        → ⊥
    no_child zero m q b at = ground arith
    no_child (suc c) m q b at = cc

waits-Around : Around toy Seen waits.blockchain_manager (1 ∷ [])
unfolding get_block_hash is_fake get_slice_copy hash_run add lookup insert
waits-Around t h at e =
    let fake : fake_block_node ≡ t = cc at in
    let hashed : get_block_hash toy fake_block_node ≡ ok h = cc (fake, e) in
    let zero_h : h ≡ zero_hash = cc hashed in inl (rw zero_h refl)

-- The transaction is in a block.
abbrev confirmed : Gossiper
confirmed = record waits {
  blockchain_manager = record init_blockchain_manager {
    nodes = fake_block_node ∷ new_node fake_block_node 0 new_block ∷ [];
    tail = 1;
    blocks = insert (block_hash toy new_block) 1 init_blockchain_manager.blocks;
  };
}

block_made :
    mining_thread_round toy (1 ∷ []) waits.blockchain_manager waits
    ≡ ok (confirmed, publish waits (some new_block))
unfolding mining_thread_round mining_round is_empty get_block_hash is_fake get_slice_copy hash_run
    add lookup insert init_block_node send_all_peers
block_made = refl

Reach-confirmed : Reach outside Seen dave confirmed
Reach-confirmed = Reach.later Reach-waits (
    Step.mined (1 ∷ []) waits.blockchain_manager
      (Reach-IsSound outside Seen seen-Honest Reach-waits).chain waits-Around block_made)

-- Another transaction is pending beside the block.
abbrev both : Gossiper
both = record confirmed {
  blockchain_manager = record confirmed.blockchain_manager { pending_tx = (add [] other_tx).0 };
}

other_comes :
    process_addressed_gossip_packet outside confirmed (tx_packet other_tx) "b" 0
    ≡ ok (both, send_all_peers both (tx_packet (record other_tx { hop_limit = 9 })))
unfolding process_addressed_gossip_packet dispatch process_tx_publish add_transaction chain_contains
    contains contains_filename lookup add insert update_peers_if_needed knows_peer is_fake
    send_all_peers string_discrete init_from_slice hash_run
other_comes = refl

still_some_peer : 0 < length (update_peers_if_needed confirmed "b").peers
unfolding update_peers_if_needed knows_peer string_discrete
still_some_peer = omega arith

Reach-both : Reach outside Seen dave both
Reach-both =
    Reach.later Reach-confirmed
      (Step.packet (tx_packet other_tx) "b" 0 (tx-Arrives other_tx) still_some_peer other_comes)

both-ClaimsOnce : ClaimsOnce both.blockchain_manager.nodes
both-ClaimsOnce =
    grown-ClaimsOnce (fake_block_node ∷ []) 0 fake_block_node new_block refl
      (λ below name br claimed. elim (Branch-cases _ br) [
        | inl (root, empty) ↦ rw empty refl
        | inr (m, q, b, above, at, lt, r_lt, br', e) ↦ absurd (omega (arith, lt))
      ])
      only_root_ClaimsOnce

both-IsNamed : IsNamed both.blockchain_manager.pending_tx
unfolding add lookup insert
both-IsNamed = (refl, tt)

both-Around : Around toy Seen both.blockchain_manager (2 ∷ [])
unfolding get_block_hash is_fake get_slice_copy add lookup insert
both-Around t h at e =
    let made : new_node fake_block_node 0 new_block ≡ t = cc at in
    let hashed : get_block_hash toy (new_node fake_block_node 0 new_block) ≡ ok h = cc (made, e) in
    let hash_h : h ≡ block_hash toy new_block = cc hashed in inr (rw hash_h refl)

Reach-ClaimsOnce_example :
    (g' : Gossiper) × (sent : Sends) × (mining_thread_round toy
        (2 ∷ [])
        waits.blockchain_manager
        both
      ≡ ok (g', sent))
    × ClaimsOnce g'.blockchain_manager.nodes
Reach-ClaimsOnce_example =
    Reach-ClaimsOnce outside Seen seen-Honest Reach-both (2 ∷ []) waits.blockchain_manager
      (Reach-IsSound outside Seen seen-Honest Reach-waits).chain both-Around both-ClaimsOnce
      both-IsNamed

Reach-IsApart_example :
    IsApart both.blockchain_manager.nodes both.blockchain_manager.tail
      both.blockchain_manager.pending_tx
Reach-IsApart_example = Reach-IsApart outside Seen seen-Honest Reach-both both-ClaimsOnce

Reach-IsHashChain_example :
    (chain : List Block) × (h : Bytes) × Branch both.blockchain_manager.nodes 0
      both.blockchain_manager.tail chain
    × (is_some (lookup h both.blockchain_manager.blocks) ≡ true)
    × IsHashChain toy h chain
    × IsLongest both.blockchain_manager chain
Reach-IsHashChain_example = Reach-IsHashChain outside Seen seen-Honest Reach-both

-- A new manager gets the block.
add_chain-IsLongest_example :
    (chain : List Block) × (b' : BlockchainManager) × (longest : List Block) × Branch
      both.blockchain_manager.nodes 0 both.blockchain_manager.tail chain
    × (add_chain toy init_blockchain_manager chain ≡ ok b')
    × IsValid toy Seen b'
    × Branch b'.nodes 0 b'.tail longest
    × (length chain ≤ length longest)
    × ((before : List Block)
        → Branch init_blockchain_manager.nodes 0 init_blockchain_manager.tail before
        → length before ≤ length longest)
add_chain-IsLongest_example =
    add_chain-IsLongest toy Seen seen-Honest both.blockchain_manager init_blockchain_manager
      (Reach-IsSound outside Seen seen-Honest Reach-both).chain (init-IsValid toy Seen)
