-- ===== src/Blockchain/Manager/Linking.antt =====
-- A new node in the tree of models/blockchain/BlockchainManager.go.
use decentralized_peerster.Common.{
  ℕ, ◌+◌, ◌≤◌, ◌≡◌, ◌⊎◌, inl, inr, true, [], ◌∷◌, ◌++◌, some, Bytes, bytes_key, string_key, arith,
  All, length, get_elem?, ok,
}
use decentralized_peerster.Map.{Map, lookup, insert, lookup-insert, IsMap}
use decentralized_peerster.Models.{Block}
use decentralized_peerster.Hashing.{Sha, block_hash, is_good}
use decentralized_peerster.Blockchain.Transactions.{TransactionsSet, is_some}
use decentralized_peerster.Blockchain.Nodes.{BlockNode, Nodes, get_block_hash, is_fake}
use decentralized_peerster.Blockchain.Nodes.Heap.{
  new_node, extend-IsTree, get_elem?-append, get_elem?-append_last, get_elem?-append_cases,
  lt-length,
}
use decentralized_peerster.Blockchain.Manager.Claims.{ClaimsOnce, IsApart}
use decentralized_peerster.Blockchain.Manager.{BlockchainManager}
use decentralized_peerster.Blockchain.Manager.Invariant.{IsValid, Known, Waiting, Linked}

pub get_block_hash-new_node :
    (sha : Sha) (m : BlockNode) (q : ℕ) (b : Block)
    → get_block_hash sha (new_node m q b) ≡ ok (block_hash sha b)
unfolding get_block_hash is_fake
get_block_hash-new_node sha m q b = ground arith

module _ (sha : Sha) (Seen : Block → Type 0) (bm : BlockchainManager) (v : IsValid sha Seen bm)
    (q : ℕ) (m : BlockNode) (b : Block) (at : get_elem? bm.nodes q ≡ some m) where
  -- The heap and the table of hashes after a new node for `b` under the node at `q`.
  abbrev pub nodes' : Nodes
  nodes' = bm.nodes ++ new_node m q b ∷ []

  abbrev pub blocks' : Map Bytes ℕ
  blocks' = insert (block_hash sha b) (length bm.nodes) bm.blocks

  pub still_known :
      (h : Bytes) → is_some (lookup h bm.blocks) ≡ true → is_some (lookup h blocks') ≡ true
  still_known h e =
      ground (arith, lookup-insert {V = ℕ} (block_hash sha b) h (length bm.nodes) bm.blocks)

  pub new_known : is_some (lookup (block_hash sha b) blocks') ≡ true
  new_known = ground (
    arith,
    lookup-insert {V = ℕ} (block_hash sha b) (block_hash sha b) (length bm.nodes) bm.blocks,
  )

  lookup_cases :
      (h : Bytes) (p : ℕ)
      → lookup h blocks' ≡ some p
      → (lookup h bm.blocks ≡ some p) ⊎ ((h ≡ block_hash sha b) × (p ≡ length bm.nodes))
  lookup_cases h p e =
      ground (arith, lookup-insert {V = ℕ} (block_hash sha b) h (length bm.nodes) bm.blocks)

  known' :
      (d : ℕ)
      → v.tail_node.depth ≤ d
      → m.depth + 1 ≤ d
      → (h : Bytes) (p : ℕ) → lookup h blocks' ≡ some p
      → Known sha Seen nodes' d h p
  known' d old_le new_le h p e = elim (lookup_cases h p e) [
    | inl old ↦
        let (n, n_at, le, hash) = v.known h p old in
        (n, get_elem?-append bm.nodes (new_node m q b ∷ []) p n n_at, omega arith, hash)
    | inr (h_b, p_last) ↦ (
      new_node m q b,
      rw p_last (get_elem?-append_last bm.nodes (new_node m q b)),
      new_le,
      rw h_b (get_block_hash-new_node sha m q b),
    )
  ]

  -- Of a node at an address the block is the new one, or one that stood there before.
  block_at :
      (p : ℕ) (n : BlockNode) (c : Block)
      → get_elem? nodes' p ≡ some n
      → n.block ≡ some c
      → (get_elem? bm.nodes p ≡ some n) ⊎ (c ≡ b)
  block_at p n c e e' = ground (arith, get_elem?-append_cases bm.nodes (new_node m q b) p n e)

  parents' :
      is_some (lookup b.prev_hash bm.blocks) ≡ true
      → (h : Bytes) (p : ℕ) (n : BlockNode) (c : Block) → lookup h blocks' ≡ some p
      → get_elem? nodes' p ≡ some n
      → n.block ≡ some c
      → is_some (lookup c.prev_hash blocks') ≡ true
  parents' has_parent h p n c e n_at e' = elim (block_at p n c n_at e') [
    | inr c_b ↦ still_known c.prev_hash (rw c_b has_parent)
    | inl old ↦ elim (lookup_cases h p e) [
      | inl old_e ↦ still_known c.prev_hash (v.parents h p n c old_e old e')
      | inr (h_b, p_last) ↦ absurd (omega (arith, lt-length bm.nodes p n old))
    ]
  ]

  links' :
      is_good sha b ≡ true
      → get_block_hash sha m ≡ ok b.prev_hash
      → (p : ℕ) (n : BlockNode) (c : Block) → get_elem? nodes' p ≡ some n
      → n.block ≡ some c
      → Linked sha Seen nodes' n c
  links' good hash p n c e e' = elim (get_elem?-append_cases bm.nodes (new_node m q b) p n e) [
    | inl old ↦
        let (c_good, q', m', up, at', hash') = v.links p n c old e' in
        (c_good, q', m', up, get_elem?-append bm.nodes (new_node m q b ∷ []) q' m' at', hash')
    | inr (p_last, n_new) ↦
        let c_b : c ≡ b = ground arith in
        (
          rw c_b good,
          q,
          m,
          ground arith,
          get_elem?-append bm.nodes (new_node m q b ∷ []) q m at,
          rw c_b hash,
        )
  ]

  -- A new node keeps the invariant, if its block is good and names the hash of the node above,
  -- and the tail that is chosen is as deep as the old one and as the new node.
  pub link-IsValid :
      (tail' : ℕ) (t : BlockNode) (pending' : TransactionsSet) (waiting' : Map Bytes Block)
      → get_elem? nodes' tail' ≡ some t
      → v.tail_node.depth ≤ t.depth
      → m.depth + 1 ≤ t.depth
      → ((h : Bytes) → get_block_hash sha t ≡ ok h → is_some (lookup h blocks') ≡ true)
      → is_some (lookup b.prev_hash bm.blocks) ≡ true
      → get_block_hash sha m ≡ ok b.prev_hash
      → is_good sha b ≡ true
      → Seen b
      → (ClaimsOnce nodes' → IsApart nodes' tail' pending')
      → IsMap pending'
      → All (Waiting sha Seen) waiting'
      → IsValid sha Seen (record {
        nodes = nodes';
        tail = tail';
        blocks = blocks';
        pending_tx = pending';
        no_parent_blocks = waiting';
      })
  link-IsValid tail' t pending' waiting' t_at old_le new_le t_known has_parent hash good b_seen
        apart p w =
      record {
        tree = extend-IsTree bm.nodes q m b v.tree at;
        tail_node = t;
        tail_at = t_at;
        tail_known = t_known;
        known = known' t.depth old_le new_le;
        parents = parents' has_parent;
        seen = λ p n c n_at e. elim (block_at p n c n_at e) [
          | inl old ↦ v.seen p n c old e
          | inr c_b ↦ rw c_b b_seen
        ];
        links = links' good hash;
        apart = apart;
        waiting = w;
        pending = p;
      }
