-- ===== src/Blockchain/Manager/Links.antt =====
-- How the blocks of a chain hang together: `prevHash` and the heights of
-- models/blockchain/BlockNode.go, as `AddBlock` and `DoMining` of
-- models/blockchain/BlockchainManager.go leave them.
use decentralized_peerster.Common.{
  ℕ, ◌+◌, ◌≤◌, ◌≡◌, inl, inr, refl, ap, true, List, [], ◌∷◌, some, arith, Bytes, bytes_key,
  string_key, length, get_elem?, ok,
}
use decentralized_peerster.Map.{lookup}
use decentralized_peerster.Models.{Block}
use decentralized_peerster.Hashing.{Sha, block_hash, is_good}
use decentralized_peerster.Blockchain.Nodes.{
  BlockNode, Nodes, fake_block_node, get_block_hash, is_fake, zero_hash,
}
use decentralized_peerster.Blockchain.Nodes.Heap.{IsTree, new_node, Made-cases}
use decentralized_peerster.Blockchain.Manager.{BlockchainManager}
use decentralized_peerster.Blockchain.Manager.Branches.{Branch, stop, step}
use decentralized_peerster.Blockchain.Manager.Invariant.{IsValid}

-- From the hash `h` down to the zeros of the fake block: each block is good, has the hash that
-- the one above names, and names the hash of the next one.
abbrev pub IsHashChain : Sha → Bytes → List Block → Type 0
IsHashChain sha h [] = h ≡ zero_hash
IsHashChain sha h (b ∷ bs) =
    (h ≡ block_hash sha b) × (is_good sha b ≡ true) × IsHashChain sha b.prev_hash bs

hash_of_fake : (sha : Sha) (h : Bytes) → get_block_hash sha fake_block_node ≡ ok h → h ≡ zero_hash
unfolding get_block_hash is_fake
hash_of_fake sha h e = cc

hash_of_new :
    (sha : Sha) (m : BlockNode) (q : ℕ) (b : Block) (h : Bytes)
    → get_block_hash sha (new_node m q b) ≡ ok h
    → h ≡ block_hash sha b
unfolding get_block_hash is_fake
hash_of_new sha m q b h e = ground arith

-- The height of a node is the number of blocks above the fake one.
pub length-Branch :
    (nodes : Nodes)
    → IsTree nodes
    → {c : ℕ} {bs : List Block} (n : BlockNode) → Branch nodes 0 c bs
    → get_elem? nodes c ≡ some n
    → length bs ≡ n.depth
length-Branch nodes t n stop at = let root : n ≡ fake_block_node = cc (t.rooted, at) in rw root refl
length-Branch nodes t {c = c} n (step m q b at lt r_lt br) at' =
    elim (Made-cases nodes c n (t.made c n at')) [
      | inl (z, e) ↦ absurd (omega arith)
      | inr (q', m', b', lt', q_at, e) ↦
          let n_e : n ≡ new_node m q b = cc in
          let q_e : q' ≡ q = ground arith in
          let d_e : n.depth ≡ m'.depth + 1 = ground arith in
          omega (arith, d_e, length-Branch nodes t m' br (rw q_e at q_at))
    ]

-- No block that the table knows ends a chain that is longer.
abbrev pub IsLongest : BlockchainManager → List Block → Type 0
IsLongest bm chain =
    (h : Bytes) (p : ℕ) (other : List Block)
    → lookup h bm.blocks ≡ some p
    → Branch bm.nodes 0 p other
    → length other ≤ length chain

module _ (sha : Sha) (Seen : Block → Type 0) (bm : BlockchainManager)
    (v : IsValid sha Seen bm) where
  pub Branch-IsHashChain :
      {c : ℕ} {bs : List Block} (n : BlockNode) (h : Bytes)
      → Branch bm.nodes 0 c bs
      → get_elem? bm.nodes c ≡ some n
      → get_block_hash sha n ≡ ok h
      → IsHashChain sha h bs
  Branch-IsHashChain n h stop at e =
      let root : n ≡ fake_block_node = cc (v.tree.rooted, at) in hash_of_fake sha h (rw root at e)
  Branch-IsHashChain {c = c} n h (step m q b at lt r_lt br) at' e =
      let n_e : n ≡ new_node m q b = cc in
      let (good, q', m', up, q_at, prev) =
        v.links c n b at' (ap (λ (k : BlockNode). k.block) n_e) in
      let q_e : q' ≡ q = ground arith in
      (
        hash_of_new sha m q b h (rw n_e at e),
        good,
        Branch-IsHashChain m' b.prev_hash br (rw q_e at q_at) prev,
      )

  pub tail-IsLongest : {chain : List Block} → Branch bm.nodes 0 bm.tail chain → IsLongest bm chain
  tail-IsLongest br h p other e other_br =
      let (n, at, le, _) = v.known h p e in
      omega (
        arith,
        length-Branch bm.nodes v.tree n other_br at,
        length-Branch bm.nodes v.tree v.tail_node br v.tail_at,
      )
