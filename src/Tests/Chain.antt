-- ===== src/Tests/Chain.antt =====
-- Runs of models/blockchain, under a toy hash.
use Prim.Native.String.{◌++◌ as ◌+++◌}
use decentralized_peerster.Common.{
  Outcome, String, ℕ, ◌+◌, ◌*◌, ◌≡◌, refl, sym, ◌∙◌, true, false, List, [], ◌∷◌, some, none, Option,
  ap, arith, Bytes, get_elem?, ok, bytes_key, bytes_discrete, ℕ_discrete, string_key,
  string_discrete, if◌then◌else◌, ◌||◌, ◌==◌, ◌-◌,
}
use decentralized_peerster.Map.{delete, lookup, insert}
use decentralized_peerster.Models.{TxPublish, Block}
use decentralized_peerster.Hashing.{Sha, block_hash, block_preimage, tx_hash, tx_preimage, is_good}
use decentralized_peerster.Blockchain.Transactions.{
  subtract, union, TransactionsSet, contains_filename, add, init_from_slice,
}
use decentralized_peerster.Blockchain.Nodes.{
  climb, climb_both, init_block_node, Nodes, get_lsa, BlockNode, fake_block_node, zero_hash,
  zero_bytes, get_block_hash, is_fake,
}
use decentralized_peerster.Blockchain.Nodes.Heap.{new_node}
use decentralized_peerster.Blockchain.Nodes.Lowest.{LowestShared, get_lsa-LowestShared}
use decentralized_peerster.Blockchain.Manager.Reorganisation.{Reorganised, reorganise}
use decentralized_peerster.Blockchain.Manager.Pending.{
  taken, add_transaction_lem, Mined, mining_round-Mined,
}
use decentralized_peerster.Blockchain.Manager.Printing.{
  print_longest_chain, chain_text, print_longest_chain_lem,
}
use decentralized_peerster.Blockchain.Manager.Branches.{Branch, step, stop}
use decentralized_peerster.Blockchain.Manager.Claims.{ClaimsOnce, IsApart}
use decentralized_peerster.Blockchain.Transactions.Laws.{lookup-init_from_slice}
use decentralized_peerster.Blockchain.Manager.{
  along_branch, mining_round, BlockchainManager, init_blockchain_manager, append_to_the_tree,
  add_block, add_transaction,
}
use decentralized_peerster.Blockchain.Manager.Linking.{link-IsValid}
use decentralized_peerster.Blockchain.Manager.Invariant.{Honest, IsValid, init-IsValid}
use decentralized_peerster.Gossiper.{Gossiper, new_gossiper, send_all_peers}
use decentralized_peerster.Gossiper.Broadcast.{process_tx_publish, tx_packet}
use decentralized_peerster.Gossiper.Broadcast.Once.{process_tx_publish-twice}
use decentralized_peerster.Blockchain.Manager.Adding.{accepts, Added, add_block-Added}

abbrev pub get_or_zero : Option ℕ → ℕ
get_or_zero none = 0
get_or_zero (some n) = n

abbrev depth_of : Option BlockNode → ℕ
depth_of none = 0
depth_of (some n) = n.depth

toy_sum : Bytes → ℕ
toy_sum [] = 7
toy_sum (x ∷ xs) = x + 31 * toy_sum xs

pub toy : Sha
unfolding toy_sum
toy = record {
  sum256 = λ b. 0 ∷ 0 ∷ toy_sum b ∷ zero_bytes 29;
  string_bytes = λ s. [];
  length-sum256 = λ b. refl;
}

abbrev pub first : Block
first = record { prev_hash = zero_hash; nonce = 1 ∷ []; transactions = [] }

unfoldable pub hash_run : Unit {0}
unfolding toy block_hash block_preimage is_good tx_hash tx_preimage
hash_run = tt

pub honest : Honest toy (λ b. b ≡ first)
unfolding hash_run
honest = record {
  same_parent = λ b c b_first c_first e. ap (λ (d : Block). d.prev_hash) (b_first ∙ sym c_first);
  non_zero = λ b b_first e.
      let zero : block_hash toy first ≡ zero_hash = rw b_first at e in
      omega (arith, ap (λ h. get_or_zero (get_elem? h 2)) zero);
}

add_block-Added_example :
    (bm' : BlockchainManager) × (add_block toy init_blockchain_manager first
      ≡ ok (bm', accepts toy init_blockchain_manager first))
    × Added toy
        (λ b. b ≡ first)
        honest
        init_blockchain_manager
        (init-IsValid toy (λ b. b ≡ first))
        first
        bm'
add_block-Added_example =
    add_block-Added toy (λ b. b ≡ first) honest init_blockchain_manager
      (init-IsValid toy (λ b. b ≡ first)) first refl

-- Two blocks on the fake block, and one on the second of them.
abbrev AnyBlock : Block → Type 0
AnyBlock b = Unit {0}

abbrev sent : String → TxPublish
sent name = record { file = record { name = name; size = 1; metafile_hash = [] }; hop_limit = 10 }

abbrev left : Block
left = record { prev_hash = zero_hash; nonce = 2 ∷ []; transactions = sent "a" ∷ sent "b" ∷ [] }

abbrev right : Block
right = record { prev_hash = zero_hash; nonce = 3 ∷ []; transactions = sent "b" ∷ [] }

abbrev above_right : Block
above_right = record { prev_hash = block_hash toy right; nonce = 4 ∷ []; transactions = [] }

abbrev left_node : BlockNode
left_node = new_node fake_block_node 0 left

abbrev right_node : BlockNode
right_node = new_node fake_block_node 0 right

abbrev with_left : BlockchainManager
with_left = record {
  nodes = fake_block_node ∷ left_node ∷ [];
  tail = 1;
  blocks = insert (block_hash toy left) 1 init_blockchain_manager.blocks;
  pending_tx = [];
  no_parent_blocks = [];
}

abbrev forked : BlockchainManager
forked = record {
  nodes = fake_block_node ∷ left_node ∷ right_node ∷ [];
  tail = 1;
  blocks = insert (block_hash toy right) 2 with_left.blocks;
  pending_tx = [];
  no_parent_blocks = [];
}

chain_run : Unit {0}
unfolding hash_run get_block_hash is_fake lookup insert bytes_discrete ℕ_discrete string_discrete
chain_run = tt

left_hash : get_block_hash toy left_node ≡ ok (block_hash toy left)
unfolding get_block_hash is_fake
left_hash = refl

left_IsApart :
    {nodes : Nodes}
    → ClaimsOnce (fake_block_node ∷ left_node ∷ nodes)
    → IsApart (fake_block_node ∷ left_node ∷ nodes) 1 []
unfolding contains_filename lookup
left_IsApart once = (
  left ∷ [],
  step fake_block_node 0 left refl (omega arith) (omega arith) stop,
  λ name e. absurd (cc),
)

with_left-IsValid : IsValid toy AnyBlock with_left
with_left-IsValid =
    link-IsValid toy AnyBlock init_blockchain_manager (init-IsValid toy AnyBlock) 0 fake_block_node
      left refl 1 left_node [] [] refl
      (omega (arith, ap depth_of (init-IsValid toy AnyBlock).tail_at)) (omega arith)
      (λ h e.
        let same : h ≡ block_hash toy left = cc left_hash in rw same (unfold chain_run in refl))
      (unfold chain_run in refl) (unfold chain_run in refl) (unfold chain_run in refl) tt
      left_IsApart tt tt

forked-IsValid : IsValid toy AnyBlock forked
forked-IsValid =
    link-IsValid toy AnyBlock with_left with_left-IsValid 0 fake_block_node right refl 1 left_node
      [] [] refl (omega (arith, ap depth_of with_left-IsValid.tail_at)) (omega arith)
      (λ h e.
        let same : h ≡ block_hash toy left = cc left_hash in rw same (unfold chain_run in refl))
      (unfold chain_run in refl) (unfold chain_run in refl) (unfold chain_run in refl) tt
      left_IsApart tt tt

reorganise_example :
    (bm' : BlockchainManager) × (append_to_the_tree toy forked above_right ≡ ok bm')
    × Reorganised toy AnyBlock forked forked-IsValid above_right 2 right_node bm'
unfolding chain_run
reorganise_example =
    reorganise toy AnyBlock forked forked-IsValid above_right 2 right_node left_node refl refl refl
      (λ e. ground (arith, e)) (omega arith)

get_lsa-LowestShared_example :
    (r : ℕ) × (get_lsa forked.nodes 1 2 ≡ ok (some r)) × LowestShared forked.nodes 1 2 r
get_lsa-LowestShared_example =
    get_lsa-LowestShared forked.nodes forked-IsValid.tree 1 2 left_node right_node refl refl

-- "a" and "b" are in one block: the set of the block holds the transaction of "b" under both.
lookup-init_from_slice_example : lookup "a" (init_from_slice left.transactions) ≡ some (sent "b")
unfolding chain_run
lookup-init_from_slice_example = lookup-init_from_slice "a" (sent "a") (sent "b" ∷ [])

add_transaction_lem_example :
    (chain : List Block) × Branch forked.nodes 0 forked.tail chain
    × (add_transaction forked (sent "b") ≡ (
        if taken forked (sent "b") chain
        then ok (forked, false)
        else ok (record forked { pending_tx = (add forked.pending_tx (sent "b")).0 }, true)))
add_transaction_lem_example = add_transaction_lem toy AnyBlock forked (sent "b") forked-IsValid

mining_round-Mined_example :
    (bm' : BlockchainManager) × (found : Option Block) × (mining_round toy (5 ∷ []) forked forked
      ≡ ok (bm', found))
    × Mined toy AnyBlock forked forked-IsValid bm' found
mining_round-Mined_example =
    mining_round-Mined toy AnyBlock forked forked-IsValid (5 ∷ []) forked forked-IsValid (λ h e. tt)

print_longest_chain_lem_example :
    (chain : List Block) × Branch forked.nodes 0 forked.tail chain
    × (print_longest_chain toy (λ h. "00") forked
        ≡ ok ("CHAIN" +++ chain_text toy (λ h. "00") chain +++ "\n"))
print_longest_chain_lem_example =
    print_longest_chain_lem toy (λ h. "00") AnyBlock forked forked-IsValid

abbrev chained : Gossiper
chained = record (new_gossiper "alice" "a" ("b" ∷ []) false) { blockchain_manager = forked }

process_tx_publish-twice_example :
    (chain : List Block) × Branch forked.nodes 0 forked.tail chain
    × (g' : Gossiper) × (process_tx_publish chained (sent "z")
        ≡ ok (
          g',
          if taken forked (sent "z") chain || (sent "z").hop_limit == 0
              then []
              else send_all_peers chained
                  (tx_packet (record (sent "z") { hop_limit = (sent "z").hop_limit - 1 })),
        ))
    × (process_tx_publish g' (record (sent "z") { hop_limit = 9 }) ≡ ok (g', []))
process_tx_publish-twice_example =
    process_tx_publish-twice toy AnyBlock chained (sent "z") 9 forked-IsValid

-- "b" stays pending under the name "a", after the fork that has "b" becomes the longest chain.
pending_of : Outcome BlockchainManager → TransactionsSet
pending_of (ok bm) = bm.pending_tx
pending_of _ = []

forked_pending : pending_of (append_to_the_tree toy forked above_right) ≡ ("a", sent "b") ∷ []
unfolding chain_run pending_of append_to_the_tree get_lsa climb climb_both along_branch
    init_block_node subtract init_from_slice union delete
forked_pending = refl
