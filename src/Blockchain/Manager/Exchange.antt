-- ===== src/Blockchain/Manager/Exchange.antt =====
-- The blocks of one manager's longest chain given to `AddBlock` of another
-- (models/blockchain/BlockchainManager.go).
use decentralized_peerster.Common.{
  ℕ, ◌≤◌, ◌≡◌, ◌⊎◌, inl, inr, refl, ◌∙◌, true, List, [], ◌∷◌, arith, All, Bytes, bytes_key,
  string_key, length, Outcome, ok, ◌>>=◌, Option-cases,
}
use decentralized_peerster.Map.{lookup}
use decentralized_peerster.Models.{Block}
use decentralized_peerster.Hashing.{Sha, block_hash, is_good}
use decentralized_peerster.Blockchain.Transactions.{is_some}
use decentralized_peerster.Blockchain.Nodes.{zero_hash}
use decentralized_peerster.Blockchain.Nodes.Heap.{new_node}
use decentralized_peerster.Blockchain.Manager.{BlockchainManager, add_block}
use decentralized_peerster.Blockchain.Manager.Branches.{Branch, stop, step}
use decentralized_peerster.Blockchain.Manager.Invariant.{Honest, IsValid}
use decentralized_peerster.Blockchain.Manager.Forks.{hash_of_node}
use decentralized_peerster.Blockchain.Manager.Links.{IsHashChain, length-Branch, Branch-IsHashChain}
use decentralized_peerster.Blockchain.Manager.Pending.{chain-Branch}
use decentralized_peerster.Blockchain.Manager.Waiting.{parent_of_known}
use decentralized_peerster.Blockchain.Manager.Adding.{accepts, Added, add_block-Added}

-- The blocks of a chain, which lists the last one first, come in their order.
pub add_chain : Sha → BlockchainManager → List Block → Outcome BlockchainManager
add_chain sha bm [] = ok bm
add_chain sha bm (b ∷ bs) = do bm' ← add_chain sha bm bs; added ← add_block sha bm' b; ok added.0

module _ (sha : Sha) (Seen : Block → Type 0) (honest : Honest sha Seen) where
  Branch-Seen :
      (bm : BlockchainManager)
      → IsValid sha Seen bm
      → {c : ℕ} {bs : List Block} → Branch bm.nodes 0 c bs
      → All Seen bs
  Branch-Seen bm v stop = tt
  Branch-Seen bm v {c = c} (step m q b at lt r_lt br) =
      (v.seen c (new_node m q b) b at refl, Branch-Seen bm v br)

  -- The chains below a hash have one length.
  IsHashChain-length :
      (h : Bytes) (xs ys : List Block)
      → IsHashChain sha h xs
      → IsHashChain sha h ys
      → All Seen xs
      → All Seen ys
      → length xs ≡ length ys
  IsHashChain-length h [] [] x y s t = refl
  IsHashChain-length h [] (c ∷ ys) x y s t = absurd (honest.non_zero c t.0 (cc))
  IsHashChain-length h (b ∷ xs) [] x y s t = absurd (honest.non_zero b s.0 (cc))
  IsHashChain-length h (b ∷ xs) (c ∷ ys) x y s t =
      let same : b.prev_hash ≡ c.prev_hash = honest.same_parent b c s.0 t.0 (cc) in
      let rest = IsHashChain-length b.prev_hash xs ys x.2 (rw same y.2) s.1 t.1 in
      omega (arith, rest)

  zero_known :
      (bm : BlockchainManager)
      → IsValid sha Seen bm
      → (h : Bytes) (chain : List Block) → IsHashChain sha h chain
      → All Seen chain
      → is_some (lookup h bm.blocks) ≡ true
      → is_some (lookup zero_hash bm.blocks) ≡ true
  zero_known bm v h [] x s known = rw x at known
  zero_known bm v h (b ∷ bs) x s known =
      zero_known bm v b.prev_hash bs x.2 s.1
        (parent_of_known sha Seen honest bm v b s.0 (rw x.0 at known))

  -- The manager holds the whole chain.
  pub record Holds (bm : BlockchainManager) (v : IsValid sha Seen bm) (h : Bytes)
      (bm' : BlockchainManager) : Type 0 where
    pub valid : IsValid sha Seen bm'
    pub not_shorter : v.tail_node.depth ≤ valid.tail_node.depth
    pub known : is_some (lookup h bm'.blocks) ≡ true

  accepted_or_known :
      (bm : BlockchainManager) (b : Block)
      → is_good sha b ≡ true
      → is_some (lookup b.prev_hash bm.blocks) ≡ true
      → (accepts sha bm b ≡ true) ⊎ (is_some (lookup (block_hash sha b) bm.blocks) ≡ true)
  accepted_or_known bm b good parent = ground arith

  add_chain-Holds :
      (bm : BlockchainManager) (v : IsValid sha Seen bm) (h : Bytes) (chain : List Block)
      → IsHashChain sha h chain
      → All Seen chain
      → (bm' : BlockchainManager) × (add_chain sha bm chain ≡ ok bm') × Holds bm v h bm'
  unfolding add_chain
  add_chain-Holds bm v h [] x s =
      let (t, e) = hash_of_node sha bm.nodes v.tree bm.tail v.tail_node v.tail_at in
      let (longest, br) = chain-Branch bm.nodes v.tree bm.tail v.tail_node v.tail_at in
      let linked = Branch-IsHashChain sha Seen bm v v.tail_node t br v.tail_at e in
      (
        bm,
        refl,
        record {
          valid = v;
          not_shorter = omega arith;
          known = rw x (zero_known bm v t longest linked (Branch-Seen bm v br) (v.tail_known t e));
        },
      )
  add_chain-Holds bm v h (b ∷ bs) x s =
      let (bm1, run, held) = add_chain-Holds bm v b.prev_hash bs x.2 s.1 in
      let (bm2, run', added) = add_block-Added sha Seen honest bm1 held.valid b s.0 in
      (
        bm2,
        rw (run, run'),
        record {
          valid = added.valid;
          not_shorter = omega (arith, held.not_shorter, added.not_shorter);
          known =
              rw x.0 (known_now bm1 bm2 held.valid added (accepted_or_known bm1 b x.1 held.known));
        },
      )
    where
      known_now :
          (bm1 bm2 : BlockchainManager) (w : IsValid sha Seen bm1)
          (added : Added sha Seen honest bm1 w b bm2)
          → (accepts sha bm1 b ≡ true) ⊎ (is_some (lookup (block_hash sha b) bm1.blocks) ≡ true)
          → is_some (lookup (block_hash sha b) bm2.blocks) ≡ true
      known_now bm1 bm2 w added (inl taken) =
          added.known_hashes (block_hash sha b) ∙ ground (arith, taken)
      known_now bm1 bm2 w added (inr old) =
          added.known_hashes (block_hash sha b) ∙ ground (arith, old)

  -- If the blocks of the longest chain of one valid manager are given to the AddBlock of another
  -- valid one, the oldest first, then every call ends without a panic, the second manager is valid
  -- then, and its longest chain has at least as many blocks as the first manager's, and as its own
  -- had before; blocks that are around and have one hash name one parent, and none has the hash of
  -- zeros.
  pub add_chain-IsLongest :
      (a b : BlockchainManager)
      → IsValid sha Seen a
      → IsValid sha Seen b
      → (chain : List Block) × (b' : BlockchainManager) × (longest : List Block) × Branch a.nodes 0
          a.tail chain
        × (add_chain sha b chain ≡ ok b')
        × IsValid sha Seen b'
        × Branch b'.nodes 0 b'.tail longest
        × (length chain ≤ length longest)
        × ((before : List Block) → Branch b.nodes 0 b.tail before → length before ≤ length longest)
  add_chain-IsLongest a b va vb =
      let (h, e) = hash_of_node sha a.nodes va.tree a.tail va.tail_node va.tail_at in
      let (chain, br) = chain-Branch a.nodes va.tree a.tail va.tail_node va.tail_at in
      let linked = Branch-IsHashChain sha Seen a va va.tail_node h br va.tail_at e in
      let (b', run, held) = add_chain-Holds b vb h chain linked (Branch-Seen a va br) in
      let v' = held.valid in
      let (longest, br') = chain-Branch b'.nodes v'.tree b'.tail v'.tail_node v'.tail_at in
      (
        chain,
        b',
        longest,
        br,
        run,
        v',
        br',
        as_long b' v' h chain longest linked (Branch-Seen a va br) br' held.known,
        λ before old. omega (
          arith,
          held.not_shorter,
          length-Branch b.nodes vb.tree vb.tail_node old vb.tail_at,
          length-Branch b'.nodes v'.tree v'.tail_node br' v'.tail_at,
        ),
      )
    where
      as_long :
          (bm : BlockchainManager) (v : IsValid sha Seen bm) (h : Bytes)
          (chain longest : List Block)
          → IsHashChain sha h chain
          → All Seen chain
          → Branch bm.nodes 0 bm.tail longest
          → is_some (lookup h bm.blocks) ≡ true
          → length chain ≤ length longest
      as_long bm v h chain longest linked seen br known = elim (Option-cases (lookup h bm.blocks)) [
        | inl gone ↦ absurd (ground arith)
        | inr (p, p_e) ↦
            let (n, at, le, hash) = v.known h p p_e in
            let (other, other_br) = chain-Branch bm.nodes v.tree p n at in
            let other_linked = Branch-IsHashChain sha Seen bm v n h other_br at hash in
            let same =
              IsHashChain-length h chain other linked other_linked seen
                (Branch-Seen bm v other_br) in
            omega (
              arith,
              same,
              length-Branch bm.nodes v.tree n other_br at,
              length-Branch bm.nodes v.tree v.tail_node br v.tail_at,
            )
      ]
