-- ===== src/Files/Merkle/Shared.antt =====
-- A file shared by its merkle tree: models/filesharing/merkletree/MerkleSharedFile.go,
-- ShareMerkleFile and GetChunk.
use mathlib.Core.Path.{subst}
use decentralized_peerster.Common.{
  ℕ, zero, suc, ◌+◌, ◌*◌, ◌/◌, ◌≡◌, ◌≢◌, ◌≤◌, refl, true, false, ◌==◌, List, [], ◌∷◌, ◌++◌, Option,
  none, some, String, Bytes, bytes_key, length, length-append, All-append, Option-cases, ok, arith,
  inl, inr,
}
use decentralized_peerster.Map.{lookup, All-lookup}
use decentralized_peerster.Hashing.{Sha}
use decentralized_peerster.Blockchain.Transactions.{is_some}
use decentralized_peerster.Files.{file_chunk_size}
use decentralized_peerster.Files.Merkle.{
  MerkleNode, MerkleBuild, height_of, hash_of, enter_node, ReadError, no_error, eof, failed,
  construct_leaf_merkle_node, zeroth_level, MerkleSharedFile, share_merkle_file, get_merkle_chunk,
  merkle_chunk_belongs_to_file,
}
use decentralized_peerster.Files.Merkle.Entered.{
  ReadUpTo, chunk_hash, Entered, zeroth_level-Entered, GrowsTo, upper_levels-GrowsTo,
}
use decentralized_peerster.Files.Merkle.Levels.{
  IsLevel, IsBuilt, enter_node-IsBuilt, upper_levels-Roots,
}

-- A read with no error fills the buffer with bytes of the file.
abbrev pub Reads : ℕ → (ℕ → Bytes × ReadError) → Type 0
Reads size read_at =
    (offset : ℕ)
    → (read_at offset).1 ≡ no_error
    → (length (read_at offset).0 ≡ file_chunk_size) × (offset + file_chunk_size ≤ size)

no_entry : {A : Type 0} (o : Option A) → o ≡ none → is_some o ≡ true → ⊥
no_entry none gone there = cc
no_entry (some a) gone there = cc

module _ (sha : Sha) where
  -- The leaves after those in `cs`, unless a read failed.
  LeavesOf :
      (ℕ → Bytes × ReadError) → List MerkleNode → Option (List MerkleNode × MerkleBuild) → Type 0
  LeavesOf read_at cs none = (offset : ℕ) × ((read_at offset).1 ≡ failed)
  LeavesOf read_at cs (some r) = (length cs ≤ length r.0) × IsLevel 0 r.0 × IsBuilt sha r.1

  longer :
      (read_at : ℕ → Bytes × ReadError) (cs : List MerkleNode) (c : MerkleNode)
      (o : Option (List MerkleNode × MerkleBuild))
      → LeavesOf read_at (cs ++ c ∷ []) o
      → LeavesOf read_at cs o
  unfolding LeavesOf
  longer read_at cs c none leaves = leaves
  longer read_at cs c (some r) leaves =
      (omega (arith, length-append cs (c ∷ []), leaves.0), leaves.1, leaves.2)

  abbrev leaf : (ℕ → Bytes × ReadError) → ℕ → MerkleNode
  leaf read_at offset = construct_leaf_merkle_node (sha.sum256 (read_at offset).0)

  abbrev Ends : (ℕ → Bytes × ReadError) → ℕ → ℕ → List MerkleNode → MerkleBuild → Type 0
  Ends read_at fuel offset cs b =
      (o : Option (List MerkleNode × MerkleBuild)) × (zeroth_level sha read_at fuel offset cs b
        ≡ ok o)
      × LeavesOf read_at cs o

  -- One read, if the reads after it end.
  read-Ends :
      (read_at : ℕ → Bytes × ReadError) (size : ℕ)
      → Reads size read_at
      → (fuel offset : ℕ) (cs : List MerkleNode) (b : MerkleBuild) → IsLevel 0 cs
      → IsBuilt sha b
      → (length (read_at offset).0 ≡ file_chunk_size
          → offset + file_chunk_size ≤ size
          → Ends read_at fuel
              (offset + length (read_at offset).0)
              (cs ++ leaf read_at offset ∷ [])
              (enter_node b (leaf read_at offset) (read_at offset).0))
      → (e : ReadError) → (read_at offset).1 ≡ e
      → Ends read_at (suc fuel) offset cs b
  unfolding zeroth_level LeavesOf
  read-Ends read_at size reads fuel offset cs b all built more eof e =
      (some (cs, b), rw (zeroth_level, e) refl, (omega arith, all, built))
  read-Ends read_at size reads fuel offset cs b all built more failed e =
      (none, rw (zeroth_level, e) refl, (offset, e))
  read-Ends read_at size reads fuel offset cs b all built more no_error e =
      let (full, inside) = reads offset e in
      let some_byte : (length (read_at offset).0 == 0) ≡ false = ground arith in
      let (o, run, leaves) = more full inside in
      (o, rw (zeroth_level, e, some_byte) run, longer read_at cs (leaf read_at offset) o leaves)

  zeroth_level-LeavesOf :
      (read_at : ℕ → Bytes × ReadError) (size : ℕ)
      → Reads size read_at
      → (fuel k offset : ℕ) (cs : List MerkleNode) (b : MerkleBuild) → offset ≡ file_chunk_size * k
      → k ≤ size / file_chunk_size
      → k + fuel ≡ size / file_chunk_size + 2
      → IsLevel 0 cs
      → IsBuilt sha b
      → Ends read_at fuel offset cs b
  zeroth_level-LeavesOf read_at size reads zero k offset cs b at le enough all built =
      absurd (omega arith)
  zeroth_level-LeavesOf read_at size reads (suc fuel) k offset cs b at le enough all built =
      read-Ends read_at size reads fuel offset cs b all built
        (λ full inside.
          zeroth_level-LeavesOf read_at size reads fuel (k + 1) (offset + length (read_at offset).0)
            (cs ++ leaf read_at offset ∷ []) (enter_node b (leaf read_at offset) (read_at offset).0)
            (omega arith) (omega arith) (omega arith)
            (All-append (λ c. (height_of c ≡ 0) × (length (hash_of c) ≡ 32)) cs
              (leaf read_at offset ∷ []) all ((refl, sha.length-sum256 (read_at offset).0), tt))
            (enter_node-IsBuilt sha b (leaf read_at offset) (read_at offset).0 refl built))
        (read_at offset).1 refl

  empty_build-IsBuilt : IsBuilt sha (record { disk = []; node_set = [] })
  empty_build-IsBuilt = (tt, tt)

  -- A file with a whole chunk has a leaf.
  some_leaves :
      (read_at : ℕ → Bytes × ReadError) (size : ℕ)
      → Reads size read_at
      → ((offset : ℕ) → (read_at offset).1 ≢ failed)
      → (read_at 0).1 ≡ no_error
      → (cs : List MerkleNode) × (b : MerkleBuild) × (zeroth_level sha read_at
            (suc (size / file_chunk_size + 1))
            0
            []
            (record { disk = []; node_set = [] })
          ≡ ok (some (cs, b)))
        × (1 ≤ length cs)
        × IsLevel 0 cs
        × IsBuilt sha b
  unfolding LeavesOf zeroth_level
  some_leaves read_at size reads sound first =
      let (full, inside) = reads 0 first in
      let node = leaf read_at 0 in
      let b = enter_node (record { disk = []; node_set = [] }) node (read_at 0).0 in
      let some_byte : (length (read_at 0).0 == 0) ≡ false = ground arith in
      let (o, run, leaves) =
        zeroth_level-LeavesOf read_at size reads (size / file_chunk_size + 1) 1
          (0 + length (read_at 0).0) (node ∷ []) b (omega arith) (omega arith) (omega arith)
          ((refl, sha.length-sum256 (read_at 0).0), tt)
          (enter_node-IsBuilt sha (record { disk = []; node_set = [] }) node (read_at 0).0 refl
            empty_build-IsBuilt) in
      rw (zeroth_level, first, some_byte, run) (cases o leaves)
    where
      cases :
          (o : Option (List MerkleNode × MerkleBuild))
          → LeavesOf read_at (leaf read_at 0 ∷ []) o
          → (cs : List MerkleNode) × (b : MerkleBuild) × (ok o ≡ ok (some (cs, b)))
            × (1 ≤ length cs)
            × IsLevel 0 cs
            × IsBuilt sha b
      cases none (offset, e) = absurd (sound offset e)
      cases (some (cs, b)) leaves = (cs, b, refl, leaves.0, leaves.1, leaves.2)

  built_chunk :
      (b : MerkleBuild) (h : Bytes)
      → IsBuilt sha b
      → is_some (lookup h b.node_set) ≡ true
      → (content : Bytes) × (lookup h b.disk ≡ some content) × (sha.sum256 content ≡ h)
  built_chunk b h built belongs = elim (Option-cases (lookup h b.node_set)) [
    | inl gone ↦ absurd (no_entry _ gone belongs)
    | inr (node, at) ↦
        let there =
          All-lookup (λ e. (hash_of e.1 ≡ e.0) × (is_some (lookup e.0 b.disk) ≡ true)) h node
            b.node_set built.1 at in
        elim (Option-cases (lookup h b.disk)) [
          | inl lost ↦ absurd (no_entry _ lost there.1)
          | inr (content, here) ↦
              (content, here, All-lookup (λ e. sha.sum256 e.1 ≡ e.0) h content b.disk built.0 here)
        ]
  ]

-- What GetChunk answers for a hash of the tree.
abbrev pub IsWhole : Sha → MerkleSharedFile → Type 0
IsWhole sha sf =
    (h : Bytes)
    → merkle_chunk_belongs_to_file sf h ≡ true
    → (content : Bytes) × (get_merkle_chunk sf h ≡ some content) × (sha.sum256 content ≡ h)

-- GetChunk answers for the hash of every whole chunk that the reads give before the first error.
abbrev pub HasChunks : Sha → (ℕ → Bytes × ReadError) → MerkleSharedFile → Type 0
HasChunks sha read_at sf =
    (j : ℕ)
    → ReadUpTo read_at 0 j
    → (content : Bytes) × (get_merkle_chunk sf (chunk_hash sha read_at j) ≡ some content)
      × (sha.sum256 content ≡ chunk_hash sha read_at j)

-- If a read with no error fills the buffer with bytes of the file, no read fails, the first read
-- has no error, and the directory of chunks does not exist, then ShareMerkleFile ends without a
-- panic and returns a shared file with the name and the size; GetChunk answers for each hash of
-- its node set, and for the hash of every chunk of FileChunkSize bytes that is read with no error,
-- as all before it are, with data that has this hash. Of a last chunk that is shorter nothing is
-- said.
pub share_merkle_file-IsWhole :
    (sha : Sha) (name : String) (size : ℕ) (read_at : ℕ → Bytes × ReadError)
    → Reads size read_at
    → ((offset : ℕ) → (read_at offset).1 ≢ failed)
    → (read_at 0).1 ≡ no_error
    → (sf : MerkleSharedFile) × (share_merkle_file sha name false size read_at ≡ ok (some sf))
      × (sf.name ≡ name)
      × (sf.size ≡ size)
      × IsWhole sha sf
      × HasChunks sha read_at sf
unfolding share_merkle_file get_merkle_chunk
share_merkle_file-IsWhole sha name size read_at reads sound first =
    let (cs, b, run, some_leaf, level, built) = some_leaves sha read_at size reads sound first in
    let (root, b', up, built') =
      upper_levels-Roots sha (suc (length cs)) 0 cs b some_leaf (omega arith) level built in
    let entered =
      subst (λ o. Entered sha read_at 0 (record { disk = []; node_set = [] }) o) run
        (zeroth_level-Entered sha read_at (λ offset e. (reads offset e).0)
          (suc (size / file_chunk_size + 1)) 0 0 [] (record { disk = []; node_set = [] }) refl) in
    let kept = subst (λ o. GrowsTo b o) up (upper_levels-GrowsTo sha (suc (length cs)) cs b) in
    let answered : (h : Bytes)
        → is_some (lookup h b'.node_set) ≡ true
        → (content : Bytes) × (get_merkle_chunk
              (record { name = name; size = size; root_node = root; build = b' }) h
            ≡ some content)
          × (sha.sum256 content ≡ h) =
      λ h belongs.
        let (content, at, right) = built_chunk sha b' h built' belongs in
        (content, rw (belongs, at) refl, right) in
    (
      record { name = name; size = size; root_node = root; build = b' },
      rw (run, up) refl,
      refl,
      refl,
      answered,
      λ j whole.
          answered (chunk_hash sha read_at j)
            (kept (chunk_hash sha read_at j) (entered.1 j (omega arith) whole)),
    )
