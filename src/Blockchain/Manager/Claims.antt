-- ===== src/Blockchain/Manager/Claims.antt =====
-- The file names that the blocks of a chain claim: `txSet` of models/blockchain/BlockNode.go along
-- a chain, and `pendingTx` of models/blockchain/BlockchainManager.go.
use decentralized_peerster.Common.{
  ℕ, ◌<◌, ◌≡◌, ◌⊎◌, inl, inr, refl, true, false, ◌||◌, List, [], ◌∷◌, ◌++◌, some, arith, get_elem?,
  String, string_key, string_discrete, length, sym,
}
use decentralized_peerster.Models.{TxPublish, Block}
use decentralized_peerster.Blockchain.Transactions.{
  TransactionsSet, contains_filename, union, subtract, add,
}
use decentralized_peerster.Blockchain.Transactions.Laws.{mentions, lookup-add}
use decentralized_peerster.Blockchain.Nodes.{BlockNode, Nodes}
use decentralized_peerster.Blockchain.Nodes.Heap.{new_node, get_elem?-append_last, lt-length}
use decentralized_peerster.Blockchain.Manager.Branches.{
  Branch, stop, step, Branch-append, fold_sets, mentioned, contains-fold_union,
  contains-fold_subtract,
}

-- No file name is claimed by two blocks of the chain.
abbrev pub IsOnce : List Block → Type 0
IsOnce [] = Unit {0}
IsOnce (b ∷ bs) =
    ((name : String) → mentions name b.transactions ≡ true → mentioned name bs ≡ false) × IsOnce bs

-- No chain of the tree claims a file name twice.
abbrev pub ClaimsOnce : Nodes → Type 0
ClaimsOnce nodes = (c : ℕ) (chain : List Block) → Branch nodes 0 c chain → IsOnce chain

-- What is pending is not claimed in the chain that ends in the tail.
abbrev pub IsApart : Nodes → ℕ → TransactionsSet → Type 0
IsApart nodes tail pending =
    (chain : List Block) × Branch nodes 0 tail chain
    × ((name : String) → contains_filename pending name ≡ true → mentioned name chain ≡ false)

pub Branch-cases :
    (nodes : Nodes) {r c : ℕ} {bs : List Block}
    → Branch nodes r c bs
    → ((r ≡ c) × (bs ≡ []))
      ⊎ ((m : BlockNode) × (q : ℕ) × (b : Block) × (above : List Block) × (get_elem? nodes c
            ≡ some (new_node m q b))
          × (q < c)
          × (r < c)
          × Branch nodes r q above
          × (bs ≡ b ∷ above))
Branch-cases nodes stop = inl (refl, refl)
Branch-cases nodes (step {bs = above} m q b at lt r_lt br) =
    inr (m, q, b, above, at, lt, r_lt, br, refl)

-- There is only one chain from a node to an ancestor.
pub Branch-unique :
    (nodes : Nodes) {r c : ℕ} {xs ys : List Block}
    → Branch nodes r c xs
    → Branch nodes r c ys
    → xs ≡ ys
Branch-unique nodes stop other = elim (Branch-cases nodes other) [
  | inl (same, none_left) ↦ ground arith
  | inr (m, q, b, above, at, lt, r_lt, br, e) ↦ absurd (omega arith)
]
Branch-unique nodes {ys = ys} (step {bs = xs} m q b at lt r_lt br) other =
    elim (Branch-cases nodes other) [
      | inl (same, none_left) ↦ absurd (omega arith)
      | inr (m', q', b', above, at', lt', r_lt', br', e) ↦
          let q_e : q' ≡ q = ground arith in
          let b_e : b' ≡ b = ground arith in
          let ih = Branch-unique nodes br (rw q_e at br') in ground arith
    ]

pub Branch-concat :
    (nodes : Nodes) {r c : ℕ} {new shared : List Block}
    → Branch nodes r c new
    → Branch nodes 0 r shared
    → Branch nodes 0 c (new ++ shared)
Branch-concat nodes stop below = below
Branch-concat nodes (step m q b at lt r_lt br) below =
    step m q b at lt (omega arith) (Branch-concat nodes br below)

-- A chain goes on below the end of each branch from its start.
Branch-rest :
    (nodes : Nodes) {r c : ℕ} {xs chain : List Block}
    → Branch nodes r c xs
    → Branch nodes 0 c chain
    → (shared : List Block) × Branch nodes 0 r shared
Branch-rest nodes {chain = chain} stop whole = (chain, whole)
Branch-rest nodes {chain = chain} (step m q b at lt r_lt br) whole =
    elim (Branch-cases nodes whole) [
      | inl (same, none_left) ↦ absurd (omega arith)
      | inr (m', q', b', above, at', lt', r_lt', br', e) ↦
          let q_e : q' ≡ q = ground arith in Branch-rest nodes br (rw q_e at br')
    ]

mentioned-append :
    (name : String) (xs ys : List Block)
    → mentioned name (xs ++ ys) ≡ (mentioned name xs || mentioned name ys)
mentioned-append name [] ys = refl
mentioned-append name (b ∷ xs) ys = ground (arith, mentioned-append name xs ys)

-- What the upper part of such a chain claims, the lower part does not.
IsOnce-append :
    (name : String) (old shared : List Block)
    → IsOnce (old ++ shared)
    → mentioned name old ≡ true
    → mentioned name shared ≡ false
IsOnce-append name [] shared once e = ground arith
IsOnce-append name (b ∷ old) shared once e =
    ground
      (arith, once.0 name, mentioned-append name old shared, IsOnce-append name old shared once.1)

module _ (nodes : Nodes) (tail q : ℕ) (m : BlockNode) (b : Block) (pending : TransactionsSet)
    (apart : IsApart nodes tail pending) where
  abbrev more : List BlockNode
  more = new_node m q b ∷ []

  pub stays-IsApart : IsApart (nodes ++ more) tail pending
  stays-IsApart = (apart.0, Branch-append nodes more apart.1, apart.2)

  -- The block's node is the tail, and what is pending was so before and is not in the block.
  pub prolong-IsApart :
      (at : get_elem? nodes q ≡ some m) (pending' : TransactionsSet)
      → q ≡ tail
      → ((name : String)
          → contains_filename pending' name ≡ true
          → (contains_filename pending name ≡ true) × (mentions name b.transactions ≡ false))
      → IsApart (nodes ++ more) (length nodes) pending'
  prolong-IsApart at pending' same fewer =
      let above : Branch nodes 0 q apart.0 = rw same apart.1 in
      (
        b ∷ apart.0,
        step m q b (get_elem?-append_last nodes (new_node m q b)) (lt-length nodes q m at)
            (omega (arith, lt-length nodes q m at)) (Branch-append nodes more above),
        λ name e. let (was, out) = fewer name e in ground (arith, apart.2 name was),
      )

  pub fork-IsApart :
      (at : get_elem? nodes q ≡ some m) (r : ℕ) (old new : List Block)
      → Branch nodes r tail old
      → Branch nodes r q new
      → IsOnce apart.0
      → IsApart
          (nodes ++ more)
          (length nodes)
          (fold_sets subtract (fold_sets union pending old) (b ∷ new))
  fork-IsApart at r old new undo redo once =
      let (shared, down) = Branch-rest nodes undo apart.1 in
      let lt = lt-length nodes q m at in
      let same : apart.0 ≡ old ++ shared =
        Branch-unique nodes apart.1 (Branch-concat nodes undo down) in
      (
        b ∷ new ++ shared,
        step m q b (get_elem?-append_last nodes (new_node m q b)) lt (omega arith)
            (Branch-append nodes more (Branch-concat nodes redo down)),
        λ name e. ground (
          arith,
          contains-fold_subtract name (fold_sets union pending old) (b ∷ new),
          contains-fold_union name pending old,
          mentioned-append name new shared,
          mentioned-append name old shared,
          IsOnce-append name old shared (rw same at once),
          rw same at apart.2 name,
        ),
      )

-- A transaction whose name is not in the chain may be pending.
pub add-IsApart :
    (nodes : Nodes) (tail : ℕ) (pending : TransactionsSet) (tx : TxPublish) (chain : List Block)
    → Branch nodes 0 tail chain
    → mentioned tx.file.name chain ≡ false
    → IsApart nodes tail pending
    → IsApart nodes tail (add pending tx).0
unfolding contains_filename
add-IsApart nodes tail pending tx chain br free apart =
    let same = Branch-unique nodes apart.1 br in
    (
      apart.0,
      apart.1,
      λ name e. elim (string_discrete tx.file.name name) [
        | yes named ↦ rw (same, sym named) free
        | no other ↦ apart.2 name (ground (arith, lookup-add name pending tx))
      ],
    )
