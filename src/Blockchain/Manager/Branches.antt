-- ===== src/Blockchain/Manager/Branches.antt =====
-- The part of a chain between a node and an ancestor of it, and the loops of `appendToTheTree`
-- (models/blockchain/BlockchainManager.go) that walk it.
use decentralized_peerster.Common.{
  ℕ, zero, suc, ◌<◌, ◌≤◌, ◌≡◌, inl, inr, ap, ◌∙◌, Bool, false, ◌&&◌, ◌||◌, not, List, [], ◌∷◌, ◌++◌,
  some, arith, get_elem?, ok, String, string_key, ◌==◌,
}
use decentralized_peerster.Map.{IsMap}
use decentralized_peerster.Models.{Block}
use decentralized_peerster.Blockchain.Transactions.{
  TransactionsSet, contains_filename, init_from_slice, union, subtract,
}
use decentralized_peerster.Blockchain.Transactions.Laws.{
  mentions, union-IsMap, subtract-IsMap, contains-union, contains-subtract,
}
use decentralized_peerster.Blockchain.Nodes.{BlockNode, Nodes}
use decentralized_peerster.Blockchain.Nodes.Heap.{IsTree, new_node, Made-cases, get_elem?-append}
use decentralized_peerster.Blockchain.Nodes.Ancestors.{Ancestor, self, up}
use decentralized_peerster.Blockchain.Manager.{along_branch}

-- The blocks from node `c` up to its ancestor `r`, which is not one of them.
pub data Branch (nodes : Nodes) (r : ℕ) : ℕ → List Block → Type 0 where
  stop : Branch nodes r r []
  step :
      {c : ℕ} {bs : List Block} (m : BlockNode) (q : ℕ) (b : Block)
      → get_elem? nodes c ≡ some (new_node m q b)
      → q < c
      → r < c
      → Branch nodes r q bs
      → Branch nodes r c (b ∷ bs)

pub Ancestor-le : (nodes : Nodes) → IsTree nodes → {r c : ℕ} → Ancestor nodes r c → r ≤ c
Ancestor-le nodes t self = omega arith
Ancestor-le nodes t {c = c} (up n q at e anc) = elim (Made-cases nodes c n (t.made c n at)) [
  | inl (z, root_e) ↦ absurd (ground arith)
  | inr (q', m, b, lt, q_at, made_e) ↦
      let q'_q : q' ≡ q = ground arith in omega (arith, Ancestor-le nodes t anc)
]

-- There is a branch from each node to each of its ancestors.
pub Ancestor-Branch :
    (nodes : Nodes)
    → IsTree nodes
    → {r c : ℕ} → Ancestor nodes r c
    → (bs : List Block) × Branch nodes r c bs
Ancestor-Branch nodes t self = ([], stop)
Ancestor-Branch nodes t {c = c} (up n q at e anc) = elim (Made-cases nodes c n (t.made c n at)) [
  | inl (z, root_e) ↦ absurd (ground arith)
  | inr (q', m, b, lt, q_at, made_e) ↦
      let q'_q : q' ≡ q = ground arith in
      let (bs, br) = Ancestor-Branch nodes t anc in
      let le = Ancestor-le nodes t anc in
      (
        b ∷ bs,
        step m q b (at ∙ ap some (made_e ∙ ap (λ z. new_node m z b) q'_q)) (omega arith)
            (omega arith) br,
      )
]

pub Branch-append :
    (nodes more : Nodes) {r c : ℕ} {bs : List Block}
    → Branch nodes r c bs
    → Branch (nodes ++ more) r c bs
Branch-append nodes more stop = stop
Branch-append nodes more {c = c} (step m q b at lt r_lt br) =
    step m q b (get_elem?-append nodes more c (new_node m q b) at) lt r_lt
      (Branch-append nodes more br)

-- What the loop makes of the pending transactions.
pub fold_sets :
    (TransactionsSet → TransactionsSet → TransactionsSet)
    → TransactionsSet
    → List Block
    → TransactionsSet
fold_sets op pending [] = pending
fold_sets op pending (b ∷ bs) = fold_sets op (op pending (init_from_slice b.transactions)) bs

-- The loop stops, does not panic, and folds the sets of the branch's blocks.
pub along_branch-Branch :
    (op : TransactionsSet → TransactionsSet → TransactionsSet) (nodes : Nodes) (fuel : ℕ) {r c : ℕ}
    {bs : List Block} (pending : TransactionsSet)
    → Branch nodes r c bs
    → c < fuel
    → along_branch op fuel nodes (some r) (some c) pending ≡ ok (fold_sets op pending bs)
unfolding along_branch fold_sets
along_branch-Branch op nodes zero pending br lt = absurd (omega arith)
along_branch-Branch op nodes (suc fuel) {r} pending stop lt = ground arith
along_branch-Branch op nodes (suc fuel) {r} {c} pending (step m q b at q_lt r_lt br) lt =
    let other : (c == r) ≡ false = ground arith in
    rw (other, at)
      (along_branch-Branch op nodes fuel (op pending (init_from_slice b.transactions)) br
        (omega arith))

-- Is the name mentioned by one of the blocks?
abbrev pub mentioned : String → List Block → Bool
mentioned name [] = false
mentioned name (b ∷ bs) = mentions name b.transactions || mentioned name bs

pub contains-fold_union :
    (name : String) (pending : TransactionsSet) (bs : List Block)
    → contains_filename (fold_sets union pending bs) name
      ≡ (contains_filename pending name || mentioned name bs)
unfolding fold_sets
contains-fold_union name pending [] = ground arith
contains-fold_union name pending (b ∷ bs) = ground (
  arith,
  contains-fold_union name (union pending (init_from_slice b.transactions)) bs,
  contains-union name pending b.transactions,
)

pub contains-fold_subtract :
    (name : String) (pending : TransactionsSet) (bs : List Block)
    → contains_filename (fold_sets subtract pending bs) name
      ≡ (contains_filename pending name && not (mentioned name bs))
unfolding fold_sets
contains-fold_subtract name pending [] = ground arith
contains-fold_subtract name pending (b ∷ bs) = ground (
  arith,
  contains-fold_subtract name (subtract pending (init_from_slice b.transactions)) bs,
  contains-subtract name pending b.transactions,
)

pub fold_union-IsMap :
    (pending : TransactionsSet) (bs : List Block)
    → IsMap pending
    → IsMap (fold_sets union pending bs)
unfolding fold_sets
fold_union-IsMap pending [] h = h
fold_union-IsMap pending (b ∷ bs) h =
    fold_union-IsMap (union pending (init_from_slice b.transactions)) bs
      (union-IsMap pending (init_from_slice b.transactions) h)

pub fold_subtract-IsMap :
    (pending : TransactionsSet) (bs : List Block)
    → IsMap pending
    → IsMap (fold_sets subtract pending bs)
unfolding fold_sets
fold_subtract-IsMap pending [] h = h
fold_subtract-IsMap pending (b ∷ bs) h =
    fold_subtract-IsMap (subtract pending (init_from_slice b.transactions)) bs
      (subtract-IsMap pending (init_from_slice b.transactions) h)
