-- ===== src/Blockchain/Nodes/Heap.antt =====
-- The heap of nodes of models/blockchain/BlockNode.go: every node is the fake root or was made by
-- `InitBlockNode` from a node that was there before.
use decentralized_peerster.Common.{
  ℕ, zero, suc, ◌+◌, ◌<◌, ◌≡◌, ◌⊎◌, inl, inr, refl, [], ◌∷◌, ◌++◌, some, arith, length, get_elem?,
  ok,
}
use decentralized_peerster.Models.{Block}
use decentralized_peerster.Blockchain.Transactions.{init_from_slice}
use decentralized_peerster.Blockchain.Nodes.{BlockNode, Nodes, init_block_node, fake_block_node}

-- Node `n` stands at address `p`, and is one that the code can have made.
pub data Made (nodes : Nodes) (p : ℕ) (n : BlockNode) : Type 0 where
  root : p ≡ 0 → n ≡ fake_block_node → Made nodes p n
  child :
      (q : ℕ) (m : BlockNode) (b : Block)
      → q < p
      → get_elem? nodes q ≡ some m
      → n ≡ record {
        depth = m.depth + 1;
        parent = some q;
        tx_set = some (init_from_slice b.transactions);
        block = some b;
      }
      → Made nodes p n

pub record IsTree (nodes : Nodes) : Type 0 where
  pub rooted : get_elem? nodes 0 ≡ some fake_block_node
  pub made : (p : ℕ) (n : BlockNode) → get_elem? nodes p ≡ some n → Made nodes p n

pub get_elem?-append :
    (nodes more : Nodes) (p : ℕ) (n : BlockNode)
    → get_elem? nodes p ≡ some n
    → get_elem? (nodes ++ more) p ≡ some n
get_elem?-append [] more p n e = absurd (cc)
get_elem?-append (m ∷ nodes) more zero n e = e
get_elem?-append (m ∷ nodes) more (suc p) n e = get_elem?-append nodes more p n e

pub get_elem?-append_cases :
    (nodes : Nodes) (x : BlockNode) (p : ℕ) (n : BlockNode)
    → get_elem? (nodes ++ x ∷ []) p ≡ some n
    → (get_elem? nodes p ≡ some n) ⊎ ((p ≡ length nodes) × (n ≡ x))
get_elem?-append_cases [] x zero n e = inr (refl, cc)
get_elem?-append_cases [] x (suc p) n e = absurd (cc)
get_elem?-append_cases (m ∷ nodes) x zero n e = inl e
get_elem?-append_cases (m ∷ nodes) x (suc p) n e =
    ground (arith, get_elem?-append_cases nodes x p n e)

pub get_elem?-append_last :
    (nodes : Nodes) (x : BlockNode) → get_elem? (nodes ++ x ∷ []) (length nodes) ≡ some x
get_elem?-append_last [] x = refl
get_elem?-append_last (m ∷ nodes) x = get_elem?-append_last nodes x

pub lt-length :
    (nodes : Nodes) (p : ℕ) (n : BlockNode) → get_elem? nodes p ≡ some n → p < length nodes
lt-length [] p n e = absurd (cc)
lt-length (m ∷ nodes) zero n e = omega arith
lt-length (m ∷ nodes) (suc p) n e = omega (arith, lt-length nodes p n e)

weaken_Made :
    (nodes more : Nodes) (p : ℕ) (n : BlockNode) → Made nodes p n → Made (nodes ++ more) p n
weaken_Made nodes more p n (root z e) = root z e
weaken_Made nodes more p n (child q m b lt at e) =
    child q m b lt (get_elem?-append nodes more q m at) e

-- The node that `InitBlockNode` makes.
abbrev pub new_node : BlockNode → ℕ → Block → BlockNode
new_node m q b = record {
  depth = m.depth + 1;
  parent = some q;
  tx_set = some (init_from_slice b.transactions);
  block = some b;
}

pub extend-IsTree :
    (nodes : Nodes) (q : ℕ) (m : BlockNode) (b : Block)
    → IsTree nodes
    → get_elem? nodes q ≡ some m
    → IsTree (nodes ++ new_node m q b ∷ [])
extend-IsTree nodes q m b t at = record {
  rooted = get_elem?-append nodes (new_node m q b ∷ []) 0 fake_block_node t.rooted;
  made = λ p n e. elim (get_elem?-append_cases nodes (new_node m q b) p n e) [
    | inl old ↦ weaken_Made nodes (new_node m q b ∷ []) p n (t.made p n old)
    | inr (last, same) ↦
        child q m b (omega (arith, lt-length nodes q m at))
          (get_elem?-append nodes (new_node m q b ∷ []) q m at) same
  ];
}

pub init_block_node_lem :
    (nodes : Nodes) (q : ℕ) (m : BlockNode) (b : Block)
    → get_elem? nodes q ≡ some m
    → init_block_node nodes q b ≡ ok (nodes ++ new_node m q b ∷ [], length nodes)
unfolding init_block_node
init_block_node_lem nodes q m b at = rw at

-- The fake node is the only one of depth 0.
pub Made-cases :
    (nodes : Nodes) (p : ℕ) (n : BlockNode)
    → Made nodes p n
    → ((p ≡ 0) × (n ≡ fake_block_node))
      ⊎ ((q : ℕ) × (m : BlockNode) × (b : Block) × (q < p)
          × (get_elem? nodes q ≡ some m)
          × (n ≡ new_node m q b))
Made-cases nodes p n (root z e) = inl (z, e)
Made-cases nodes p n (child q m b lt at e) = inr (q, m, b, lt, at, e)

only_fake :
    (p : ℕ) (n : BlockNode)
    → get_elem? (fake_block_node ∷ []) p ≡ some n
    → (p ≡ 0) × (n ≡ fake_block_node)
only_fake zero n e = (refl, cc)
only_fake (suc p) n e = absurd (cc)

pub fake-IsTree : IsTree (fake_block_node ∷ [])
fake-IsTree = record {
  rooted = refl;
  made = λ p n e. let (z, same) = only_fake p n e in root z same;
}
