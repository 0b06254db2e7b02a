-- ===== src/Files/Merkle/Levels.antt =====
-- The levels of a merkle tree: models/filesharing/merkletree/MerkleSharedFile.go, ShareMerkleFile.
use mathlib.Core.Path.{subst}
use decentralized_peerster.Common.{
  ℕ, zero, suc, ◌+◌, ◌*◌, ◌%◌, ◌≡◌, ◌≢◌, ◌≤◌, ◌<◌, ◌⊎◌, refl, sym, ◌∙◌, ap, true, false, ◌==◌, ◌||◌,
  ltb, List, [], ◌∷◌, ◌++◌, some, Bytes, bytes_key, length, length-append, All, All-append, Outcome,
  ok, arith, Bool-cases, inl, inr, ==_iff,
}
use decentralized_peerster.Map.{Map, lookup, insert, All-insert, lookup-insert}
use decentralized_peerster.Hashing.{Sha}
use decentralized_peerster.Blockchain.Transactions.{is_some}
use decentralized_peerster.Files.{file_chunk_size}
use decentralized_peerster.Files.Sharing.Answers.{IsHashed}
use decentralized_peerster.Files.Merkle.{
  MerkleNode, MerkleBuild, height_of, hash_of, gather, construct_inner_merkle_node, enter_node,
  inner_node, children_number, level_loop, upper_levels,
}

-- The nodes have one height, and hashes of 32 bytes.
abbrev pub IsLevel : ℕ → List MerkleNode → Type 0
IsLevel h cs = All (λ c. (height_of c ≡ h) × (length (hash_of c) ≡ 32)) cs

gather-IsLevel :
    (h : ℕ) (cs : List MerkleNode)
    → IsLevel h cs
    → (content : Bytes) × (gather h cs ≡ some content) × (length content ≡ 32 * length cs)
unfolding gather
gather-IsLevel h [] all = ([], refl, omega arith)
gather-IsLevel h (c ∷ cs) all =
    let (content, e, size) = gather-IsLevel h cs all.1 in
    let same : (height_of c == h) ≡ true = (==_iff (height_of c) h).1 all.0.0 in
    (
      hash_of c ++ content,
      rw (gather, same, e) refl,
      omega (arith, length-append (hash_of c) content, size, all.0.1),
    )

absurd_length : (m n : ℕ) → m ≡ 0 → m ≡ n + 1 → ⊥
absurd_length m n e f = omega arith

both_false : (a b c d : ℕ) → ((a == b) || (c == d)) ≡ false → (a ≢ b) × (c ≢ d)
both_false a b c d e = ((λ same. ground arith), (λ same. ground arith))

last_index :
    (i n : ℕ)
    → ((i + 1) % children_number == 0) ≡ false
    → ((i + 1) % children_number == 0 || (i + 1) == n) ≡ true
    → i + 1 ≡ n
last_index i n part full = ground arith

no_node : (cs : List MerkleNode) → length cs ≡ 0 → cs ≡ []
no_node [] e = refl
no_node (c ∷ cs) e = absurd (omega arith)

module _ (sha : Sha) where
  -- What stands under a hash has this hash, and each node's data is there.
  abbrev pub IsBuilt : MerkleBuild → Type 0
  IsBuilt b =
      IsHashed sha b.disk
      × All (λ e. (hash_of e.1 ≡ e.0) × (is_some (lookup e.0 b.disk) ≡ true)) b.node_set

  construct-IsLevel :
      (h : ℕ) (cs : List MerkleNode)
      → cs ≢ []
      → length cs ≤ 256
      → IsLevel h cs
      → (parent : MerkleNode) × (content : Bytes) × (construct_inner_merkle_node sha cs
          ≡ some (parent, content))
        × (hash_of parent ≡ sha.sum256 content)
        × (height_of parent ≡ h + 1)
  unfolding construct_inner_merkle_node
  construct-IsLevel h [] some_node le all = absurd (some_node refl)
  construct-IsLevel h (c ∷ cs) some_node le all =
      let (content, e, size) =
        gather-IsLevel (height_of c) (c ∷ cs) (subst (λ k. IsLevel k (c ∷ cs)) (sym all.0.0) all) in
      let small : ltb file_chunk_size (length content) ≡ false = ground arith in
      (
        (inner_node sha (height_of c) (c ∷ cs) content).0,
        content,
        rw (e, small) refl,
        refl,
        ap (λ k. k + 1) all.0.0,
      )

  on_disk :
      (h : Bytes) (content : Bytes) (disk : Map Bytes Bytes) (es : Map Bytes MerkleNode)
      → All (λ e. (hash_of e.1 ≡ e.0) × (is_some (lookup e.0 disk) ≡ true)) es
      → All (λ e. (hash_of e.1 ≡ e.0) × (is_some (lookup e.0 (insert h content disk)) ≡ true)) es
  on_disk h content disk [] all = tt
  on_disk h content disk (e ∷ es) all = (
    (all.0.0, ground (arith, lookup-insert {V = Bytes} h e.0 content disk)),
    on_disk h content disk es all.1,
  )

  pub enter_node-IsBuilt :
      (b : MerkleBuild) (node : MerkleNode) (content : Bytes)
      → hash_of node ≡ sha.sum256 content
      → IsBuilt b
      → IsBuilt (enter_node b node content)
  enter_node-IsBuilt b node content e built =
      let h = hash_of node in
      (
        All-insert (λ e. sha.sum256 e.1 ≡ e.0) h content b.disk (sym e) built.0,
        All-insert
            (λ e. (hash_of e.1 ≡ e.0) × (is_some (lookup e.0 (insert h content b.disk)) ≡ true)) h
            node b.node_set (refl, ground (arith, lookup-insert {V = Bytes} h h content b.disk))
            (on_disk h content b.disk b.node_set built.1),
      )

  -- The loop ends with a level that is above, and at most half as long, rounded up.
  abbrev Rises : ℕ → (n i : ℕ) → List MerkleNode → List MerkleNode → MerkleBuild → Type 0
  Rises h n i cur cs b =
      (next : List MerkleNode) × (b' : MerkleBuild) × (level_loop sha n i cur cs b ≡ ok (next, b'))
      × IsLevel (h + 1) next
      × IsBuilt b'
      × (2 * length next ≤ length cur + length cs + 1)
      × (1 ≤ length cs → 1 ≤ length next)

  nothing_left :
      (h n i : ℕ) (cur : List MerkleNode) (b : MerkleBuild) → IsBuilt b → Rises h n i cur [] b
  unfolding level_loop
  nothing_left h n i cur b built =
      ([], b, refl, tt, built, omega arith, λ some_node. absurd (omega arith))

  -- A parent is made of the nodes so far and the next one.
  parent_made :
      (h n i : ℕ) (cur : List MerkleNode) (c : MerkleNode) (cs : List MerkleNode) (b : MerkleBuild)
      → ((i + 1) % children_number == 0 || (i + 1) == n) ≡ true
      → 1 + length cur ≡ 256 ⊎ cs ≡ []
      → length cur ≤ 255
      → IsLevel h (cur ++ c ∷ [])
      → IsBuilt b
      → ((b' : MerkleBuild) → IsBuilt b' → Rises h n (i + 1) [] cs b')
      → Rises h n i cur (c ∷ cs) b
  unfolding level_loop
  parent_made h n i cur c cs b full size le all built rest =
      let grown = cur ++ c ∷ [] in
      let long : length grown ≡ length cur + 1 = length-append cur (c ∷ []) in
      let some_node : grown ≢ [] = λ e.
        absurd_length (length grown) (length cur) (ap (λ (l : List MerkleNode). length l) e) long in
      let (parent, content, made, e, high) =
        construct-IsLevel h grown some_node (omega arith) all in
      let (next, b', run, level, built', half, some_next) =
        rest (enter_node b parent content) (enter_node-IsBuilt b parent content e built) in
      let sized : length (hash_of parent) ≡ 32 =
        ap (λ (l : Bytes). length l) e ∙ sha.length-sum256 content in
      let fewer : 2 * length (parent ∷ next) ≤ length cur + length (c ∷ cs) + 1 = elim size [
        | inl whole ↦ omega arith
        | inr end ↦ let none_left = ap (λ (l : List MerkleNode). length l) end in omega arith
      ] in
      (
        parent ∷ next,
        b',
        rw (level_loop, full, made, run) refl,
        ((high, sized), level),
        built',
        fewer,
        λ some_c. omega arith,
      )

  level_loop-Rises :
      (h n i : ℕ) (cur cs : List MerkleNode) (b : MerkleBuild)
      → i + length cs ≡ n
      → length cur ≡ i % 256
      → IsLevel h cur
      → IsLevel h cs
      → IsBuilt b
      → Rises h n i cur cs b
  unfolding level_loop
  level_loop-Rises h n i cur [] b e size all all' built = nothing_left h n i cur b built
  level_loop-Rises h n i cur (c ∷ cs) b e size all all' built =
      let grown = cur ++ c ∷ [] in
      let both : IsLevel h grown =
        All-append (λ c. (height_of c ≡ h) × (length (hash_of c) ≡ 32)) cur (c ∷ []) all
          (all'.0, tt) in
      let long : length grown ≡ length cur + 1 = length-append cur (c ∷ []) in
      elim (Bool-cases ((i + 1) % children_number == 0 || (i + 1) == n)) [
        | inr more ↦
            let (not_whole, not_last) = both_false ((i + 1) % 256) 0 (i + 1) n more in
            let inside : length grown ≡ (i + 1) % 256 = omega arith in
            let (next, b', run, level, built', half, some_next) =
              level_loop-Rises h n (i + 1) grown cs b (omega arith) inside both all'.1 built in
            let fewer : 2 * length next ≤ length cur + length (c ∷ cs) + 1 = omega arith in
            let some_c : 1 ≤ length (c ∷ cs) → 1 ≤ length next = λ _. some_next (omega arith) in
            (next, b', rw (level_loop, more) run, level, built', fewer, some_c)
        | inl full ↦ elim (Bool-cases ((i + 1) % children_number == 0)) [
          | inl whole ↦
              let flush : (i + 1) % 256 ≡ 0 = (==_iff ((i + 1) % 256) 0).0 whole in
              let none_yet : 0 ≡ (i + 1) % 256 = omega arith in
              parent_made h n i cur c cs b full (inl (omega arith)) (omega arith) both built
                (λ b' built'.
                  level_loop-Rises h n (i + 1) [] cs b' (omega arith) none_yet tt all'.1 built')
          | inr part ↦
              let last : i + 1 ≡ n = last_index i n part full in
              let end : cs ≡ [] = no_node cs (omega arith) in
              parent_made h n i cur c cs b full (inr end) (omega arith) both built (λ b' built'.
                subst (λ ds. Rises h n (i + 1) [] ds b') (sym end)
                  (nothing_left h n (i + 1) [] b' built'))
        ]
      ]

  -- The levels end with one node, from a level with a node.
  abbrev pub Roots : Outcome (List MerkleNode × MerkleBuild) → Type 0
  Roots o = (root : MerkleNode) × (b : MerkleBuild) × (o ≡ ok (root ∷ [], b)) × IsBuilt b

  one_node :
      (cs : List MerkleNode)
      → 1 ≤ length cs
      → ltb 1 (length cs) ≡ false
      → (c : MerkleNode) × (cs ≡ c ∷ [])
  one_node [] some_c e = absurd (omega arith)
  one_node (c ∷ []) some_c e = (c, refl)
  one_node (c ∷ d ∷ cs) some_c e = absurd (ground arith)

  pub upper_levels-Roots :
      (fuel h : ℕ) (cs : List MerkleNode) (b : MerkleBuild)
      → 1 ≤ length cs
      → length cs ≤ fuel
      → IsLevel h cs
      → IsBuilt b
      → Roots (upper_levels sha fuel cs b)
  unfolding upper_levels
  upper_levels-Roots zero h cs b some_c le all built = absurd (omega arith)
  upper_levels-Roots (suc fuel) h cs b some_c le all built = elim (Bool-cases (ltb 1 (length cs))) [
    | inl many ↦
        let (next, b', run, level, built', half, some_next) =
          level_loop-Rises h (length cs) 0 [] cs b (omega arith) (omega arith) tt all built in
        let more : 1 < length cs = ground arith in
        let few : length next ≤ fuel = omega arith in
        rw (upper_levels, many, run)
          (upper_levels-Roots fuel (h + 1) next b' (some_next some_c) few level built')
    | inr one ↦
        let (root, e) = one_node cs some_c one in (root, b, rw (upper_levels, one, e) refl, built)
  ]
