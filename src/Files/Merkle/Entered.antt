-- ===== src/Files/Merkle/Entered.antt =====
-- The nodes that stay in the tree: models/filesharing/merkletree/MerkleSharedFile.go,
-- ShareMerkleFile.
use mathlib.Core.Path.{subst}
use decentralized_peerster.Common.{
  ℕ, zero, suc, ◌+◌, ◌*◌, ◌%◌, ◌≡◌, ◌≤◌, ◌⊎◌, inl, inr, refl, sym, true, false, ◌==◌, ◌||◌, ltb,
  List, [], ◌∷◌, ◌++◌, Option, none, some, Bytes, bytes_key, length, Outcome, ok, ◌>>=◌, arith,
  Bool-cases,
}
use decentralized_peerster.Map.{lookup, lookup-insert}
use decentralized_peerster.Hashing.{Sha}
use decentralized_peerster.Blockchain.Transactions.{is_some}
use decentralized_peerster.Files.{file_chunk_size}
use decentralized_peerster.Files.Merkle.{
  MerkleNode, MerkleBuild, hash_of, enter_node, children_number, level_loop, upper_levels,
  add_parent, construct_inner_merkle_node, construct_leaf_merkle_node, ReadError, no_error, eof,
  failed, zeroth_level,
}

-- A node stands under the hash.
abbrev pub Has : MerkleBuild → Bytes → Type 0
Has b h = is_some (lookup h b.node_set) ≡ true

abbrev pub Grows : MerkleBuild → MerkleBuild → Type 0
Grows b b' = (h : Bytes) → Has b h → Has b' h

abbrev pub GrowsTo : MerkleBuild → Outcome (List MerkleNode × MerkleBuild) → Type 0
GrowsTo b (Outcome.ok r) = Grows b r.1
GrowsTo b Outcome.panic = Unit
GrowsTo b Outcome.out_of_fuel = Unit

enter_node-Grows :
    (b : MerkleBuild) (node : MerkleNode) (content : Bytes) → Grows b (enter_node b node content)
enter_node-Grows b node content h there =
    ground (arith, lookup-insert {V = MerkleNode} (hash_of node) h node b.node_set)

enter_node-Has :
    (b : MerkleBuild) (node : MerkleNode) (content : Bytes)
    → Has (enter_node b node content) (hash_of node)
enter_node-Has b node content =
    ground (arith, lookup-insert {V = MerkleNode} (hash_of node) (hash_of node) node b.node_set)

GrowsTo-trans :
    (b b' : MerkleBuild) (o : Outcome (List MerkleNode × MerkleBuild))
    → Grows b b'
    → GrowsTo b' o
    → GrowsTo b o
GrowsTo-trans b b' (Outcome.ok r) g g' = λ h there. g' h (g h there)
GrowsTo-trans b b' Outcome.panic g g' = tt
GrowsTo-trans b b' Outcome.out_of_fuel g g' = tt

GrowsTo-parent :
    (b : MerkleBuild) (parent : MerkleNode) (o : Outcome (List MerkleNode × MerkleBuild))
    → GrowsTo b o
    → GrowsTo b (o >>= λ level. ok (parent ∷ level.0, level.1))
GrowsTo-parent b parent (Outcome.ok r) g = g
GrowsTo-parent b parent Outcome.panic g = tt
GrowsTo-parent b parent Outcome.out_of_fuel g = tt

add_parent-GrowsTo :
    (rest : MerkleBuild → Outcome (List MerkleNode × MerkleBuild)) (b : MerkleBuild)
    (made : Option (MerkleNode × Bytes))
    → ((b' : MerkleBuild) → GrowsTo b' (rest b'))
    → GrowsTo b (add_parent rest b made)
add_parent-GrowsTo rest b none g = tt
add_parent-GrowsTo rest b (some (parent, content)) g =
    GrowsTo-parent b parent (rest (enter_node b parent content)) (
      GrowsTo-trans b (enter_node b parent content) (rest (enter_node b parent content))
        (enter_node-Grows b parent content) (g (enter_node b parent content)))

level_loop-GrowsTo :
    (sha : Sha) (n i : ℕ) (cur cs : List MerkleNode) (b : MerkleBuild)
    → GrowsTo b (level_loop sha n i cur cs b)
unfolding level_loop
level_loop-GrowsTo sha n i cur [] b = λ h there. there
level_loop-GrowsTo sha n i cur (c ∷ cs) b =
    elim (Bool-cases ((i + 1) % children_number == 0 || (i + 1) == n)) [
      | inl full ↦
          rw (level_loop, full)
            (add_parent-GrowsTo (λ b'. level_loop sha n (i + 1) [] cs b') b
              (construct_inner_merkle_node sha (cur ++ c ∷ []))
              (λ b'. level_loop-GrowsTo sha n (i + 1) [] cs b'))
      | inr more ↦ rw (level_loop, more) (level_loop-GrowsTo sha n (i + 1) (cur ++ c ∷ []) cs b)
    ]

GrowsTo-bind :
    (b : MerkleBuild) (o : Outcome (List MerkleNode × MerkleBuild))
    (f : List MerkleNode × MerkleBuild → Outcome (List MerkleNode × MerkleBuild))
    → GrowsTo b o
    → ((r : List MerkleNode × MerkleBuild) → GrowsTo r.1 (f r))
    → GrowsTo b (o >>= f)
GrowsTo-bind b (Outcome.ok r) f g k = GrowsTo-trans b r.1 (f r) g (k r)
GrowsTo-bind b Outcome.panic f g k = tt
GrowsTo-bind b Outcome.out_of_fuel f g k = tt

pub upper_levels-GrowsTo :
    (sha : Sha) (fuel : ℕ) (cs : List MerkleNode) (b : MerkleBuild)
    → GrowsTo b (upper_levels sha fuel cs b)
unfolding upper_levels
upper_levels-GrowsTo sha zero cs b = tt
upper_levels-GrowsTo sha (suc fuel) cs b = elim (Bool-cases (ltb 1 (length cs))) [
  | inl many ↦
      rw (upper_levels, many)
        (GrowsTo-bind b (level_loop sha (length cs) 0 [] cs b) (λ r. upper_levels sha fuel r.0 r.1)
          (level_loop-GrowsTo sha (length cs) 0 [] cs b)
          (λ r. upper_levels-GrowsTo sha fuel r.0 r.1))
  | inr one ↦ rw (upper_levels, one) (λ h there. there)
]

-- The reads of the chunks up to the j-th, from the k-th on, have no error and fill the buffer.
abbrev pub ReadUpTo : (ℕ → Bytes × ReadError) → ℕ → ℕ → Type 0
ReadUpTo read_at k j =
    (i : ℕ)
    → k ≤ i
    → i ≤ j
    → ((read_at (file_chunk_size * i)).1 ≡ no_error)
      × (length (read_at (file_chunk_size * i)).0 ≡ file_chunk_size)

module _ (sha : Sha) (read_at : ℕ → Bytes × ReadError) where
  abbrev pub chunk_hash : ℕ → Bytes
  chunk_hash i = sha.sum256 (read_at (file_chunk_size * i)).0

  -- What the loop over the reads leaves.
  abbrev pub Entered : ℕ → MerkleBuild → Outcome (Option (List MerkleNode × MerkleBuild)) → Type 0
  Entered k b (Outcome.ok (some r)) =
      Grows b r.1 × ((j : ℕ) → k ≤ j → ReadUpTo read_at k j → Has r.1 (chunk_hash j))
  Entered k b (Outcome.ok none) = Unit
  Entered k b Outcome.panic = Unit
  Entered k b Outcome.out_of_fuel = Unit

  Entered-next :
      (k : ℕ) (b : MerkleBuild) (o : Outcome (Option (List MerkleNode × MerkleBuild)))
      → Entered
          (k + 1)
          (enter_node b
            (construct_leaf_merkle_node (chunk_hash k))
            (read_at (file_chunk_size * k)).0)
          o
      → Entered k b o
  Entered-next k b (Outcome.ok (some r)) (grows, later) =
      let node = construct_leaf_merkle_node (chunk_hash k) in
      let content = (read_at (file_chunk_size * k)).0 in
      (
        λ h there. grows h (enter_node-Grows b node content h there),
        λ j le reads. elim (nat_cases k j le) [
          | inl same ↦
              subst (λ i. Has r.1 (chunk_hash i)) same
                (grows (chunk_hash k) (enter_node-Has b node content))
          | inr above ↦ later j above (λ i from to. reads i (omega (arith, from)) to)
        ],
      )
    where
      nat_cases : (m n : ℕ) → m ≤ n → (m ≡ n) ⊎ (m + 1 ≤ n)
      nat_cases m n le = elim (Bool-cases (m == n)) [
        | inl same ↦ inl (ground arith)
        | inr other ↦ inr (ground arith)
      ]
  Entered-next k b (Outcome.ok none) e = tt
  Entered-next k b Outcome.panic e = tt
  Entered-next k b Outcome.out_of_fuel e = tt

  abbrev pub Fills : Type 0
  Fills = (offset : ℕ) → (read_at offset).1 ≡ no_error → length (read_at offset).0 ≡ file_chunk_size

  absurd_read : (e : ReadError) → e ≡ eof → e ≡ no_error → ⊥
  absurd_read e at at' = cc

  read-Entered :
      Fills
      → (fuel k : ℕ) (cs : List MerkleNode) (b : MerkleBuild)
      → ((cs' : List MerkleNode) (b' : MerkleBuild) (offset : ℕ)
          → offset ≡ file_chunk_size * (k + 1)
          → Entered (k + 1) b' (zeroth_level sha read_at fuel offset cs' b'))
      → (e : ReadError) → (read_at (file_chunk_size * k)).1 ≡ e
      → Entered k b (zeroth_level sha read_at (suc fuel) (file_chunk_size * k) cs b)
  unfolding zeroth_level
  read-Entered fills fuel k cs b more eof e =
      rw (zeroth_level, e)
        (
          (λ h there. there),
          λ j le reads.
              absurd (absurd_read (read_at (file_chunk_size * k)).1 e (reads k (omega arith) le).0),
        )
  read-Entered fills fuel k cs b more failed e = rw (zeroth_level, e) tt
  read-Entered fills fuel k cs b more no_error e =
      let full = fills (file_chunk_size * k) e in
      let some_byte : (length (read_at (file_chunk_size * k)).0 == 0) ≡ false = ground arith in
      let content = (read_at (file_chunk_size * k)).0 in
      let node = construct_leaf_merkle_node (chunk_hash k) in
      rw (zeroth_level, e, some_byte)
        (Entered-next k b
          (zeroth_level sha read_at fuel (file_chunk_size * k + length content) (cs ++ node ∷ [])
            (enter_node b node content))
          (more (cs ++ node ∷ []) (enter_node b node content) (file_chunk_size * k + length content)
            (omega arith)))

  -- Every whole chunk that is read is entered.
  pub zeroth_level-Entered :
      Fills
      → (fuel k offset : ℕ) (cs : List MerkleNode) (b : MerkleBuild) → offset ≡ file_chunk_size * k
      → Entered k b (zeroth_level sha read_at fuel offset cs b)
  unfolding zeroth_level
  zeroth_level-Entered fills zero k offset cs b at = tt
  zeroth_level-Entered fills (suc fuel) k offset cs b at =
      subst (λ o. Entered k b (zeroth_level sha read_at (suc fuel) o cs b)) (sym at)
        (read-Entered fills fuel k cs b
          (λ cs' b' o at'. zeroth_level-Entered fills fuel (k + 1) o cs' b' at')
          (read_at (file_chunk_size * k)).1 refl)
