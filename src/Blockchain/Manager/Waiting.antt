-- ===== src/Blockchain/Manager/Waiting.antt =====
-- The loops over the waiting blocks, `checkPendingBlocks` of
-- models/blockchain/BlockchainManager.go and the loop around it in `AddBlock`.
use decentralized_peerster.Common.{
  ℕ, zero, suc, ◌<◌, ◌≤◌, ◌≡◌, ◌≢◌, ◌⊎◌, inl, inr, refl, sym, ap, ◌∙◌, Bool, true, false, [], ◌∷◌,
  none, arith, length, ok, Bytes, bytes_key, string_key, Bool-cases, Option-cases, All,
}
use decentralized_peerster.Map.{
  Map, lookup, delete, All-delete, length-delete-le, length-delete-lt, entries_present,
}
use decentralized_peerster.Models.{Block}
use decentralized_peerster.Hashing.{Sha, block_hash, is_good}
use decentralized_peerster.Blockchain.Transactions.{is_some}
use decentralized_peerster.Blockchain.Nodes.{BlockNode, get_block_hash, is_fake}
use decentralized_peerster.Blockchain.Nodes.Heap.{Made-cases}
use decentralized_peerster.Blockchain.Manager.{
  BlockchainManager, append_to_the_tree, check_entries, check_pending_blocks, settle,
}
use decentralized_peerster.Blockchain.Manager.Invariant.{Honest, IsValid, Waiting}
use decentralized_peerster.Blockchain.Manager.Appending.{append_to_the_tree-Extends}

pub same_truth : (x y : Bool) → (x ≡ true → y ≡ true) → (y ≡ true → x ≡ true) → y ≡ x
same_truth true y f g = f refl
same_truth false true f g = sym (g refl)
same_truth false false f g = refl

module _ (sha : Sha) (Seen : Block → Type 0) (honest : Honest sha Seen) where
  abbrev pub Valid : BlockchainManager → Type 0
  Valid = IsValid sha Seen

  -- The manager went over waiting blocks: the tree knows the same hashes, the longest chain is not
  -- shorter, and no block was added to those that wait.
  pub record Settled (bm : BlockchainManager) (v : Valid bm) (bm' : BlockchainManager)
      : Type 0 where
    pub valid : Valid bm'
    pub not_shorter : v.tail_node.depth ≤ valid.tail_node.depth
    pub same_known : (h : Bytes) → is_some (lookup h bm'.blocks) ≡ is_some (lookup h bm.blocks)
    pub fewer : length bm'.no_parent_blocks ≤ length bm.no_parent_blocks

  Settled-refl : (bm : BlockchainManager) (v : Valid bm) → Settled bm v bm
  Settled-refl bm v = record {
    valid = v;
    not_shorter = omega arith;
    same_known = λ h. refl;
    fewer = omega arith;
  }

  Settled-trans :
      (a b c : BlockchainManager) (v : Valid a) (s : Settled a v b)
      → Settled b s.valid c
      → Settled a v c
  Settled-trans a b c v s t = record {
    valid = t.valid;
    not_shorter = omega (arith, s.not_shorter, t.not_shorter);
    same_known = λ h. t.same_known h ∙ s.same_known h;
    fewer = omega (arith, s.fewer, t.fewer);
  }

  -- A waiting block whose own hash is known stands in the tree, so its parent is known.
  pub parent_of_known :
      (bm : BlockchainManager)
      → Valid bm
      → (b : Block) → Seen b
      → is_some (lookup (block_hash sha b) bm.blocks) ≡ true
      → is_some (lookup b.prev_hash bm.blocks) ≡ true
  unfolding get_block_hash is_fake
  parent_of_known bm v b s e = elim (Option-cases (lookup (block_hash sha b) bm.blocks)) [
    | inl gone ↦ absurd (ground arith)
    | inr (p, p_e) ↦
        let (n, at, le, hash) = v.known (block_hash sha b) p p_e in
        elim (Made-cases bm.nodes p n (v.tree.made p n at)) [
          | inl (z, n_e) ↦ absurd (honest.non_zero b s (ground arith))
          | inr (q, m, c, lt, q_at, n_e) ↦
              let c_seen = v.seen p n c at (ap (λ (k : BlockNode). k.block) n_e) in
              let same_hash : block_hash sha c ≡ block_hash sha b = ground arith in
              let parent = honest.same_parent c b c_seen s same_hash in
              rw parent at
                (v.parents (block_hash sha b) p n c p_e at (ap (λ (k : BlockNode). k.block) n_e))
        ]
  ]

  drop_waiting :
      (bm : BlockchainManager) (hash : Bytes)
      → Valid bm
      → Valid (record bm { no_parent_blocks = delete hash bm.no_parent_blocks })
  drop_waiting bm hash v = record {
    tree = v.tree;
    tail_node = v.tail_node;
    tail_at = v.tail_at;
    tail_known = v.tail_known;
    known = v.known;
    parents = v.parents;
    seen = v.seen;
    links = v.links;
    apart = v.apart;
    waiting = All-delete (Waiting sha Seen) hash bm.no_parent_blocks v.waiting;
    pending = v.pending;
  }

  known_before :
      (bm : BlockchainManager) (b : Block) (h : Bytes)
      → is_some (lookup (block_hash sha b) bm.blocks) ≡ true
      → (is_some (lookup h bm.blocks) ≡ true) ⊎ (h ≡ block_hash sha b)
      → is_some (lookup h bm.blocks) ≡ true
  known_before bm b h known (inl before) = before
  known_before bm b h known (inr same) = rw same known

  move :
      (bm : BlockchainManager) (v : Valid bm) (hash : Bytes) (b : Block)
      → hash ≡ block_hash sha b
      → Seen b
      → is_good sha b ≡ true
      → is_some (lookup hash bm.blocks) ≡ true
      → (bm' : BlockchainManager) × (append_to_the_tree sha
            (record bm { no_parent_blocks = delete hash bm.no_parent_blocks })
            b
          ≡ ok bm')
        × Settled bm v bm'
        × (bm'.no_parent_blocks ≡ delete hash bm.no_parent_blocks)
  unfolding drop_waiting
  move bm v hash b hash_e s good e =
      let bm0 = record bm { no_parent_blocks = delete hash bm.no_parent_blocks } in
      let v0 = drop_waiting bm hash v in
      let known = rw hash_e at e in
      let (bm', run, ext) =
        append_to_the_tree-Extends sha Seen bm0 v0 b s good (parent_of_known bm v b s known) in
      (
        bm',
        run,
        record {
          valid = ext.valid;
          not_shorter = ext.not_shorter ext.valid.tail_node ext.valid.tail_at;
          same_known = λ h.
              same_truth (is_some (lookup h bm.blocks)) (is_some (lookup h bm'.blocks))
                (ext.keeps h) (λ k. known_before bm b h known (ext.only h k));
          fewer = omega (
            arith,
            ap (length {A = Bytes × Block}) ext.same_waiting,
            length-delete-le hash bm.no_parent_blocks,
          );
        },
        ext.same_waiting,
      )

  check_entries-Settled :
      (es : Map Bytes Block) (bm : BlockchainManager) (v : Valid bm) (changed : Bool)
      → All (Waiting sha Seen) es
      → (bm' : BlockchainManager) × (changed' : Bool) × (check_entries sha es bm changed
          ≡ ok (bm', changed'))
        × Settled bm v bm'
  unfolding check_entries
  check_entries-Settled [] bm v changed all = (bm, changed, refl, Settled-refl bm v)
  check_entries-Settled ((hash, b) ∷ es) bm v changed all =
      elim (Bool-cases (is_some (lookup hash bm.blocks))) [
        | inr unknown ↦
            let (bm', c, run, s) = check_entries-Settled es bm v changed all.1 in
            (bm', c, rw unknown run, s)
        | inl known ↦
            let (bm1, run, s, _) = move bm v hash b all.0.0 all.0.1 all.0.2 known in
            let (bm', c, run', s') = check_entries-Settled es bm1 s.valid true all.1 in
            (bm', c, rw (known, run) run', Settled-trans bm bm1 bm' v s s')
      ]

  Present : BlockchainManager → Bytes × Block → Type 0
  Present bm e = lookup e.0 bm.no_parent_blocks ≢ none

  -- A round of the loop either changes nothing, or takes a block off the waiting list.
  check_entries_shrinks :
      (es : Map Bytes Block) (bm : BlockchainManager) (v : Valid bm)
      → All (Waiting sha Seen) es
      → All (Present bm) es
      → (bm' : BlockchainManager) × (changed : Bool) × (check_entries sha es bm false
          ≡ ok (bm', changed))
        × Settled bm v bm'
        × ((changed ≡ false) ⊎ (length bm'.no_parent_blocks < length bm.no_parent_blocks))
  unfolding check_entries Present
  check_entries_shrinks [] bm v all present = (bm, false, refl, Settled-refl bm v, inl refl)
  check_entries_shrinks ((hash, b) ∷ es) bm v all present =
      elim (Bool-cases (is_some (lookup hash bm.blocks))) [
        | inr unknown ↦
            let (bm', c, run, s, less) = check_entries_shrinks es bm v all.1 present.1 in
            (bm', c, rw unknown run, s, less)
        | inl known ↦
            let (bm1, run, s, taken) = move bm v hash b all.0.0 all.0.1 all.0.2 known in
            let (bm', c, run', s') = check_entries-Settled es bm1 s.valid true all.1 in
            (
              bm',
              c,
              rw (known, run) run',
              Settled-trans bm bm1 bm' v s s',
              inr (
                  omega (
                    arith,
                    s'.fewer,
                    ap (length {A = Bytes × Block}) taken,
                    length-delete-lt hash bm.no_parent_blocks present.0,
                  )),
            )
      ]

  pub settle-Settled :
      (fuel : ℕ) (bm : BlockchainManager) (v : Valid bm)
      → length bm.no_parent_blocks < fuel
      → (bm' : BlockchainManager) × (settle sha fuel bm ≡ ok bm') × Settled bm v bm'
  unfolding settle check_pending_blocks Present
  settle-Settled zero bm v lt = absurd (omega arith)
  settle-Settled (suc fuel) bm v lt =
      let (bm1, c, run, s, less) =
        check_entries_shrinks bm.no_parent_blocks bm v v.waiting
          (entries_present bm.no_parent_blocks) in
      elim less [
        | inl same ↦ (bm1, rw (run, same), s)
        | inr fewer ↦
            let (bm', run', s') = settle-Settled fuel bm1 s.valid (omega arith) in
            elim (Bool-cases c) [
              | inl again ↦ (bm', rw (run, again) run', Settled-trans bm bm1 bm' v s s')
              | inr done ↦ (bm1, rw (run, done), s)
            ]
      ]
