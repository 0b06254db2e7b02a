-- ===== src/Blockchain/Manager/Invariant.antt =====
-- The invariant of models/blockchain/BlockchainManager.go.
use decentralized_peerster.Common.{
  ℕ, zero, suc, ◌≤◌, ◌≡◌, refl, true, [], some, Bytes, bytes_key, string_key, arith, All, get_elem?,
  ok,
}
use decentralized_peerster.Map.{lookup, IsMap}
use decentralized_peerster.Models.{Block}
use decentralized_peerster.Hashing.{Sha, block_hash, is_good}
use decentralized_peerster.Blockchain.Transactions.{is_some}
use decentralized_peerster.Blockchain.Nodes.{
  BlockNode, Nodes, fake_block_node, get_block_hash, is_fake, zero_hash,
}
use decentralized_peerster.Blockchain.Nodes.Heap.{IsTree, fake-IsTree}
use decentralized_peerster.Blockchain.Manager.Branches.{stop}
use decentralized_peerster.Blockchain.Manager.Claims.{ClaimsOnce, IsApart}
use decentralized_peerster.Blockchain.Manager.{BlockchainManager, init_blockchain_manager}

-- The blocks that are around. Two of one hash name one parent, and none hashes to zeros, which is
-- the hash of the fake block. What is hashed begins with the parent's hash, so SHA-256 promises
-- this; two blocks of one hash may differ in the sizes and hop limits of their transactions.
pub record Honest (sha : Sha) (Seen : Block → Type 0) : Type 0 where
  pub same_parent :
      (b c : Block)
      → Seen b
      → Seen c
      → block_hash sha b ≡ block_hash sha c
      → b.prev_hash ≡ c.prev_hash
  pub non_zero : (b : Block) → Seen b → ¬ (block_hash sha b ≡ zero_hash)

module _ (sha : Sha) (Seen : Block → Type 0) where
  -- Under hash `h` stands a node of that hash, no deeper than `depth`.
  abbrev pub Known : Nodes → ℕ → Bytes → ℕ → Type 0
  Known nodes depth h p =
      (n : BlockNode) × (get_elem? nodes p ≡ some n)
      × (n.depth ≤ depth)
      × (get_block_hash sha n ≡ ok h)

  abbrev pub Waiting : Bytes × Block → Type 0
  Waiting e = (e.0 ≡ block_hash sha e.1) × Seen e.1 × (is_good sha e.1 ≡ true)

  -- The block of a node is good, and names the hash of the node above.
  abbrev pub Linked : Nodes → BlockNode → Block → Type 0
  Linked nodes n b =
      (is_good sha b ≡ true)
      × (q : ℕ) × (m : BlockNode) × (n.parent ≡ some q)
      × (get_elem? nodes q ≡ some m)
      × (get_block_hash sha m ≡ ok b.prev_hash)

  pub record IsValid (bm : BlockchainManager) : Type 0 where
    pub tree : IsTree bm.nodes
    pub tail_node : BlockNode
    pub tail_at : get_elem? bm.nodes bm.tail ≡ some tail_node
    pub tail_known :
        (h : Bytes) → get_block_hash sha tail_node ≡ ok h → is_some (lookup h bm.blocks) ≡ true
    pub known :
        (h : Bytes) (p : ℕ) → lookup h bm.blocks ≡ some p → Known bm.nodes tail_node.depth h p
    pub parents :
        (h : Bytes) (p : ℕ) (n : BlockNode) (b : Block)
        → lookup h bm.blocks ≡ some p
        → get_elem? bm.nodes p ≡ some n
        → n.block ≡ some b
        → is_some (lookup b.prev_hash bm.blocks) ≡ true
    pub seen :
        (p : ℕ) (n : BlockNode) (b : Block)
        → get_elem? bm.nodes p ≡ some n
        → n.block ≡ some b
        → Seen b
    pub links :
        (p : ℕ) (n : BlockNode) (b : Block)
        → get_elem? bm.nodes p ≡ some n
        → n.block ≡ some b
        → Linked bm.nodes n b
    pub apart : ClaimsOnce bm.nodes → IsApart bm.nodes bm.tail bm.pending_tx
    pub waiting : All Waiting bm.no_parent_blocks
    pub pending : IsMap bm.pending_tx

only_root :
    (sha : Sha) (h : Bytes) (p : ℕ)
    → lookup h init_blockchain_manager.blocks ≡ some p
    → (h ≡ zero_hash) × (p ≡ 0)
unfolding lookup
only_root sha h p e = ground arith

only_fake_block :
    (p : ℕ) (n : BlockNode) (b : Block)
    → get_elem? init_blockchain_manager.nodes p ≡ some n
    → n.block ≡ some b
    → ⊥
only_fake_block zero n b at e = ground arith
only_fake_block (suc p) n b at e = cc

-- The new manager is valid, whatever blocks are around.
pub init-IsValid : (sha : Sha) (Seen : Block → Type 0) → IsValid sha Seen init_blockchain_manager
unfolding get_block_hash is_fake
init-IsValid sha Seen = record {
  tree = fake-IsTree;
  tail_node = fake_block_node;
  tail_at = refl;
  tail_known = λ h e. let zero : h ≡ zero_hash = cc in rw zero (unfold lookup in ground arith);
  known = λ h p e.
      let (h_zero, p_zero) = only_root sha h p e in
      (fake_block_node, rw p_zero, omega arith, rw h_zero);
  parents = λ h p n b e at e'. absurd (only_fake_block p n b at e');
  seen = λ p n b at e. absurd (only_fake_block p n b at e);
  links = λ p n b at e. absurd (only_fake_block p n b at e);
  apart = λ once. ([], stop, λ name e. refl);
  waiting = tt;
  pending = tt;
}
