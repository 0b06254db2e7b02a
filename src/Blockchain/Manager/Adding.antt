-- ===== src/Blockchain/Manager/Adding.antt =====
-- `AddBlock` of models/blockchain/BlockchainManager.go.
use decentralized_peerster.Common.{
  suc, ◌≤◌, ◌≡◌, ◌⊎◌, inl, inr, refl, sym, ◌∙◌, Bool, true, false, ◌&&◌, not, arith, length, ok,
  Bytes, bytes_key, bytes_discrete, string_key, Bool-cases, if◌then◌else◌, ite, if_pos, if_neg,
}
use decentralized_peerster.Map.{lookup, insert, All-insert}
use decentralized_peerster.Models.{Block}
use decentralized_peerster.Hashing.{Sha, block_hash, is_good}
use decentralized_peerster.Blockchain.Transactions.{is_some}
use decentralized_peerster.Blockchain.Manager.{BlockchainManager, add_block}
use decentralized_peerster.Blockchain.Manager.Invariant.{Honest, Waiting}
use decentralized_peerster.Blockchain.Manager.Appending.{Extends, append_to_the_tree-Extends}
use decentralized_peerster.Blockchain.Manager.Waiting.{Valid, same_truth, settle-Settled}

-- Does `AddBlock` take the block into the tree?
abbrev pub accepts : Sha → BlockchainManager → Block → Bool
accepts sha bm b =
    not (is_some (lookup (block_hash sha b) bm.blocks))
    && (is_good sha b && is_some (lookup b.prev_hash bm.blocks))

module _ (sha : Sha) (Seen : Block → Type 0) (honest : Honest sha Seen) where
  -- What `AddBlock` leaves: a valid manager, whose longest chain is not shorter, and whose tree
  -- knows the block if it was accepted, and no other new hash.
  pub record Added (bm : BlockchainManager) (v : Valid sha Seen honest bm) (b : Block)
      (bm' : BlockchainManager) : Type 0 where
    pub valid : Valid sha Seen honest bm'
    pub not_shorter : v.tail_node.depth ≤ valid.tail_node.depth
    pub known_hashes :
        (h : Bytes)
        → is_some (lookup h bm'.blocks) ≡ (
            if accepts sha bm b
            then ite (bytes_discrete (block_hash sha b) h) true (is_some (lookup h bm.blocks))
            else is_some (lookup h bm.blocks))

  keep_waiting :
      (bm : BlockchainManager) (v : Valid sha Seen honest bm) (b : Block)
      → Seen b
      → is_good sha b ≡ true
      → Valid sha Seen honest
          (record bm { no_parent_blocks = insert (block_hash sha b) b bm.no_parent_blocks })
  keep_waiting bm v b s good = record {
    tree = v.tree;
    tail_node = v.tail_node;
    tail_at = v.tail_at;
    tail_known = v.tail_known;
    known = v.known;
    parents = v.parents;
    seen = v.seen;
    links = v.links;
    apart = v.apart;
    waiting =
        All-insert (Waiting sha Seen) (block_hash sha b) b bm.no_parent_blocks (refl, s, good)
          v.waiting;
    pending = v.pending;
  }

  extended :
      (bm : BlockchainManager) (v : Valid sha Seen honest bm) (b : Block) (bm1 : BlockchainManager)
      → Extends sha Seen bm v b bm1
      → (h : Bytes) → accepts sha bm b ≡ true
      → is_some (lookup h bm1.blocks) ≡ (
          if accepts sha bm b
          then ite (bytes_discrete (block_hash sha b) h) true (is_some (lookup h bm.blocks))
          else is_some (lookup h bm.blocks))
  extended bm v b bm1 ext h e = rw e (elim (bytes_discrete (block_hash sha b) h) [
    | yes same ↦ rw (if_pos (bytes_discrete (block_hash sha b) h) same) (rw same at ext.added)
    | no other ↦ rw (if_neg (bytes_discrete (block_hash sha b) h) other) (
        same_truth (is_some (lookup h bm.blocks)) (is_some (lookup h bm1.blocks)) (ext.keeps h)
          (λ k. before (ext.only h k) other))
  ])
    where
      before :
          (is_some (lookup h bm.blocks) ≡ true) ⊎ (h ≡ block_hash sha b)
          → ¬ (block_hash sha b ≡ h)
          → is_some (lookup h bm.blocks) ≡ true
      before (inl old) other = old
      before (inr same) other = absurd (other (sym same))

  rejected :
      (bm : BlockchainManager) (v : Valid sha Seen honest bm) (b : Block)
      → accepts sha bm b ≡ false
      → Added bm v b bm
  rejected bm v b e = record {
    valid = v;
    not_shorter = omega arith;
    known_hashes = λ h. ground arith;
  }

  -- AddBlock of a block that is around on a valid manager ends without a panic; it returns true
  -- exactly if the block is new and good and its parent is known; the manager stays valid, the
  -- longest chain does not get shorter, and the only hash that becomes known is the block's own,
  -- if it was accepted; blocks that are around and have one hash name one parent, and none has the
  -- hash of zeros.
  pub add_block-Added :
      (bm : BlockchainManager) (v : Valid sha Seen honest bm) (b : Block)
      → Seen b
      → (bm' : BlockchainManager) × (add_block sha bm b ≡ ok (bm', accepts sha bm b))
        × Added bm v b bm'
  unfolding add_block keep_waiting
  add_block-Added bm v b s = elim (Bool-cases (is_some (lookup (block_hash sha b) bm.blocks))) [
    | inl old ↦ (bm, rw old, rejected bm v b (ground arith))
    | inr new ↦ elim (Bool-cases (is_good sha b)) [
      | inr bad ↦ (bm, rw (new, bad), rejected bm v b (ground arith))
      | inl good ↦ elim (Bool-cases (is_some (lookup b.prev_hash bm.blocks))) [
        | inr orphan ↦ (
          record bm { no_parent_blocks = insert (block_hash sha b) b bm.no_parent_blocks },
          rw (new, good, orphan),
          record {
            valid = keep_waiting bm v b s good;
            not_shorter = omega arith;
            known_hashes = λ h. ground arith;
          },
        )
        | inl parent ↦
            let (bm1, run, ext) = append_to_the_tree-Extends sha Seen bm v b s good parent in
            let (bm', run', settled) =
              settle-Settled sha Seen honest (suc (length bm1.no_parent_blocks)) bm1 ext.valid
                (omega arith) in
            (
              bm',
              rw (new, good, parent, run, run'),
              record {
                valid = settled.valid;
                not_shorter = omega (
                  arith,
                  ext.not_shorter ext.valid.tail_node ext.valid.tail_at,
                  settled.not_shorter,
                );
                known_hashes = λ h. settled.same_known h ∙ extended bm v b bm1 ext h (ground arith);
              },
            )
      ]
    ]
  ]
