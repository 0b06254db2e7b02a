-- ===== src/Blockchain/Manager/Pending.antt =====
-- `AddTransaction` and a round of `DoMining` (models/blockchain/BlockchainManager.go).
use decentralized_peerster.Common.{
  ℕ, zero, suc, ◌<◌, ◌≡◌, inl, inr, refl, ap, Bool, true, false, ◌||◌, List, [], ◌∷◌, ◌++◌, String,
  Option, none, some, arith, length, get_elem?, Outcome, ok, ◌>>=◌, Bytes, bytes_key, string_key,
  Bool-cases, if◌then◌else◌,
}
use decentralized_peerster.Map.{insert, lookup}
use decentralized_peerster.Models.{TxPublish, Block}
use decentralized_peerster.Hashing.{Sha, block_hash, is_good}
use decentralized_peerster.Blockchain.Transactions.{
  contains, contains_filename, add, is_empty, init_empty, get_slice_copy,
}
use decentralized_peerster.Blockchain.Transactions.Laws.{contains_filename-init_from_slice}
use decentralized_peerster.Blockchain.Nodes.{
  BlockNode, Nodes, is_fake, get_block_hash, init_block_node,
}
use decentralized_peerster.Blockchain.Nodes.Heap.{
  IsTree, new_node, Made-cases, lt-length, get_elem?-append_last, init_block_node_lem,
}
use decentralized_peerster.Blockchain.Nodes.Ancestors.{Ancestor, self, up}
use decentralized_peerster.Blockchain.Manager.{
  BlockchainManager, chain_contains, add_transaction, candidate, mining_round,
}
use decentralized_peerster.Blockchain.Manager.Branches.{
  Branch, stop, step, Ancestor-Branch, Branch-append, mentioned,
}
use decentralized_peerster.Blockchain.Manager.Claims.{prolong-IsApart}
use decentralized_peerster.Blockchain.Manager.Invariant.{IsValid}
use decentralized_peerster.Blockchain.Manager.Linking.{
  link-IsValid, new_known, blocks', nodes', get_block_hash-new_node,
}
use decentralized_peerster.Blockchain.Manager.Forks.{hash_of_node}

-- The fake block is above every node.
root-Ancestor :
    (nodes : Nodes) (t : IsTree nodes) (fuel c : ℕ) (n : BlockNode)
    → get_elem? nodes c ≡ some n
    → c < fuel
    → Ancestor nodes 0 c
root-Ancestor nodes t zero c n at lt = absurd (omega arith)
root-Ancestor nodes t (suc fuel) c n at lt = elim (Made-cases nodes c n (t.made c n at)) [
  | inl (z, e) ↦ rw z self
  | inr (q, m, b, q_lt, q_at, e) ↦
      up n q at (ap (λ (k : BlockNode). k.parent) e)
        (root-Ancestor nodes t fuel q m q_at (omega arith))
]

-- The chain that ends in a node, without the fake block.
pub chain-Branch :
    (nodes : Nodes) (t : IsTree nodes) (c : ℕ) (n : BlockNode)
    → get_elem? nodes c ≡ some n
    → (bs : List Block) × Branch nodes 0 c bs
chain-Branch nodes t c n at =
    Ancestor-Branch nodes t (root-Ancestor nodes t (suc c) c n at (omega arith))

chain_contains-mentioned :
    (nodes : Nodes) (t : IsTree nodes) (fuel : ℕ) {c : ℕ} {bs : List Block} (tx : TxPublish)
    → Branch nodes 0 c bs
    → c < fuel
    → chain_contains fuel nodes c tx ≡ ok (mentioned tx.file.name bs)
unfolding chain_contains is_fake contains
chain_contains-mentioned nodes t zero tx br lt = absurd (omega arith)
chain_contains-mentioned nodes t (suc fuel) tx stop lt = rw t.rooted
chain_contains-mentioned nodes t (suc fuel) {c} tx (step {bs = bs} m q b at q_lt r_lt br) lt =
    let ih = chain_contains-mentioned nodes t fuel tx br (omega arith) in
    let here = contains_filename-init_from_slice tx.file.name b.transactions in
    rw (at, here) (ground (arith, ih))

-- The names that the pending set or the longest chain holds are taken.
abbrev pub taken : BlockchainManager → TxPublish → List Block → Bool
taken bm tx chain = contains_filename bm.pending_tx tx.file.name || mentioned tx.file.name chain

pub add_transaction-Branch :
    (sha : Sha) (Seen : Block → Type 0) (bm : BlockchainManager) (tx : TxPublish)
    (chain : List Block)
    → IsValid sha Seen bm
    → Branch bm.nodes 0 bm.tail chain
    → add_transaction bm tx ≡ (
        if taken bm tx chain
        then ok (bm, false)
        else ok (record bm { pending_tx = (add bm.pending_tx tx).0 }, true))
unfolding add_transaction contains
add_transaction-Branch sha Seen bm tx chain v br =
    let run =
      chain_contains-mentioned bm.nodes v.tree (length bm.nodes) tx br
        (lt-length bm.nodes bm.tail v.tail_node v.tail_at) in
    ground (arith, run)

-- AddTransaction on a valid manager ends, and accepts the transaction exactly if its file name is
-- neither pending nor mentioned in a block of the longest chain; then it is added to the pending
-- set, else nothing changes.
pub add_transaction_lem :
    (sha : Sha) (Seen : Block → Type 0) (bm : BlockchainManager) (tx : TxPublish)
    → IsValid sha Seen bm
    → (chain : List Block) × Branch bm.nodes 0 bm.tail chain
      × (add_transaction bm tx ≡ (
          if taken bm tx chain
          then ok (bm, false)
          else ok (record bm { pending_tx = (add bm.pending_tx tx).0 }, true)))
add_transaction_lem sha Seen bm tx v =
    let (chain, br) = chain-Branch bm.nodes v.tree bm.tail v.tail_node v.tail_at in
    (chain, br, add_transaction-Branch sha Seen bm tx chain v br)

not_empty : (name : String) → contains_filename init_empty name ≡ true → ⊥
unfolding contains_filename lookup
not_empty name e = ground arith

module _ (sha : Sha) (Seen : Block → Type 0) (bm : BlockchainManager)
    (v : IsValid sha Seen bm) where
  -- What a round leaves: nothing changed, or a good block on the old tail with the transactions
  -- that were pending, which is the new tail; nothing is pending then.
  abbrev pub Mined : BlockchainManager → Option Block → Type 0
  Mined bm' none = bm' ≡ bm
  Mined bm' (some block) =
      (is_good sha block ≡ true)
      × (get_block_hash sha v.tail_node ≡ ok block.prev_hash)
      × (block.transactions ≡ get_slice_copy bm.pending_tx)
      × (get_elem? bm'.nodes bm'.tail ≡ some (new_node v.tail_node bm.tail block))
      × (bm'.nodes ≡ bm.nodes ++ new_node v.tail_node bm.tail block ∷ [])
      × (bm'.pending_tx ≡ init_empty)
      × IsValid sha Seen bm'

  Round : Outcome (BlockchainManager × Option Block) → Type 0
  Round o =
      (bm' : BlockchainManager) × (found : Option Block) × (o ≡ ok (bm', found)) × Mined bm' found

  no_block : Round (ok (bm, none))
  unfolding Round
  no_block = (bm, none, refl, refl)

  link_candidate :
      (h : Bytes) (nonce : Bytes)
      → get_block_hash sha v.tail_node ≡ ok h
      → is_good sha (candidate h bm.pending_tx nonce) ≡ true
      → Seen (candidate h bm.pending_tx nonce)
      → Round (
          init_block_node bm.nodes bm.tail (candidate h bm.pending_tx nonce) >>= λ x. ok (
            record bm {
              nodes = x.0;
              tail = x.1;
              blocks = insert (block_hash sha (candidate h bm.pending_tx nonce)) x.1 bm.blocks;
              pending_tx = init_empty;
            },
            some (candidate h bm.pending_tx nonce),
          ))
  unfolding Round
  link_candidate h nonce h_e good s =
      let b = candidate h bm.pending_tx nonce in
      let last = get_elem?-append_last bm.nodes (new_node v.tail_node bm.tail b) in
      (
        record bm {
          nodes = nodes' sha Seen bm v bm.tail v.tail_node b v.tail_at;
          tail = length bm.nodes;
          blocks = blocks' sha Seen bm v bm.tail v.tail_node b v.tail_at;
          pending_tx = init_empty;
        },
        some b,
        rw (init_block_node_lem bm.nodes bm.tail v.tail_node b v.tail_at),
        (
          good,
          h_e,
          refl,
          last,
          refl,
          refl,
          link-IsValid sha Seen bm v bm.tail v.tail_node b v.tail_at (length bm.nodes)
              (new_node v.tail_node bm.tail b) init_empty bm.no_parent_blocks last (omega arith)
              (omega arith)
              (λ k e.
                let same : k ≡ block_hash sha b =
                  cc (get_block_hash-new_node sha v.tail_node bm.tail b) in
                rw same (new_known sha Seen bm v bm.tail v.tail_node b v.tail_at))
              (v.tail_known h h_e) h_e good s
              (λ once.
                prolong-IsApart bm.nodes bm.tail bm.tail v.tail_node b bm.pending_tx
                  (v.apart (λ c chain br.
                    once c chain (Branch-append bm.nodes (new_node v.tail_node bm.tail b ∷ []) br)))
                  v.tail_at init_empty refl (λ name e. absurd (not_empty name e)))
              tt v.waiting,
        ),
      )

  -- A round of DoMining ends without a panic, whatever valid state it saw before it took the lock;
  -- it changes nothing, or it makes a good block on the tail with the pending transactions, whose
  -- node is the new tail of a valid manager with nothing pending.
  pub mining_round-Mined :
      (nonce : Bytes) (seen : BlockchainManager)
      → IsValid sha Seen seen
      → ((h : Bytes)
          → get_block_hash sha v.tail_node ≡ ok h
          → Seen (candidate h bm.pending_tx nonce))
      → (bm' : BlockchainManager) × (found : Option Block) × (mining_round sha nonce seen bm
          ≡ ok (bm', found))
        × Mined bm' found
  unfolding mining_round Round
  mining_round-Mined nonce seen vs s =
      let (h0, e0) = hash_of_node sha seen.nodes vs.tree seen.tail vs.tail_node vs.tail_at in
      let (h, e) = hash_of_node sha bm.nodes v.tree bm.tail v.tail_node v.tail_at in
      elim (Bool-cases (is_empty seen.pending_tx)) [
        | inl none_seen ↦ rw none_seen no_block
        | inr some_seen ↦ elim (Bool-cases (is_good sha (candidate h0 seen.pending_tx nonce))) [
          | inr bad ↦ rw (some_seen, vs.tail_at, e0, bad) no_block
          | inl good0 ↦ elim (Bool-cases (is_good sha (candidate h bm.pending_tx nonce))) [
            | inr bad ↦ rw (some_seen, vs.tail_at, e0, good0, v.tail_at, e, bad) no_block
            | inl good ↦ elim (Bool-cases (is_empty bm.pending_tx)) [
              | inl empty ↦
                  rw (some_seen, vs.tail_at, e0, good0, v.tail_at, e, good, empty) no_block
              | inr full ↦
                  rw (some_seen, vs.tail_at, e0, good0, v.tail_at, e, good, full)
                    (link_candidate h nonce e good (s h e))
            ]
          ]
        ]
      ]
