-- ===== src/Gossiper/Channels/Entries.antt =====
-- The steps of gossiper/Gossiper.go that make, start, find or delete an entry of statusesChannels.
use decentralized_peerster.Common.{
  ℕ, zero, suc, ◌+◌, ◌≡◌, ◌≢◌, ◌⊎◌, inl, inr, refl, true, false, none, some, ite, ℕ_discrete,
  string_key, arith, string_discrete,
}
use decentralized_peerster.Map.{lookup, insert, delete, lookup-insert, lookup-delete}
use decentralized_peerster.Gossiper.{Address}
use decentralized_peerster.Gossiper.Channels.{
  Place, unborn, free, ended, wants_status, has_status, sending, sent, wants_spread, has_spread,
  starting, selecting, timed_out, cleaning, System, move, rest,
}
use decentralized_peerster.Gossiper.Channels.Claims.{
  nothing, waits, starts, picks, clears, claim, holds, IsConsistent, mutex_same, mutex_unlock,
}

pub clears-holds : (p : Place) (a : Address) → claim p ≡ clears a → holds p ≡ true
clears-holds (sent b) a e = refl
clears-holds unborn a e = absurd (cc)
clears-holds free a e = absurd (cc)
clears-holds ended a e = absurd (cc)
clears-holds (wants_status b) a e = absurd (cc)
clears-holds (has_status b) a e = absurd (cc)
clears-holds (sending b n) a e = absurd (cc)
clears-holds (wants_spread b) a e = absurd (cc)
clears-holds (has_spread b) a e = absurd (cc)
clears-holds (starting b n) a e = absurd (cc)
clears-holds (selecting b) a e = absurd (cc)
clears-holds (timed_out b) a e = absurd (cc)
clears-holds (cleaning b) a e = absurd (cc)

picks-holds : (p : Place) (a : Address) (n : ℕ) → claim p ≡ picks a n → holds p ≡ true
picks-holds (sent b) a m e = absurd (cc)
picks-holds unborn a m e = absurd (cc)
picks-holds free a m e = absurd (cc)
picks-holds ended a m e = absurd (cc)
picks-holds (wants_status b) a m e = absurd (cc)
picks-holds (has_status b) a m e = absurd (cc)
picks-holds (sending b n) a m e = refl
picks-holds (wants_spread b) a m e = absurd (cc)
picks-holds (has_spread b) a m e = absurd (cc)
picks-holds (starting b n) a m e = absurd (cc)
picks-holds (selecting b) a m e = absurd (cc)
picks-holds (timed_out b) a m e = absurd (cc)
picks-holds (cleaning b) a m e = absurd (cc)

pub rest-nothing : (t : ℕ) → (claim (rest t) ≡ nothing) × (holds (rest t) ≡ false)
rest-nothing zero = (refl, refl)
rest-nothing (suc n) = (refl, refl)

-- The map changes with the claim of one thread.
module _ (s : System) (v : IsConsistent s) where
  pub finds-IsConsistent :
      (a : Address) (n : ℕ)
      → s.place 0 ≡ has_status a
      → lookup a s.channels ≡ some n
      → IsConsistent (record s { place = move 0 (sending a n) s.place })
  finds-IsConsistent a n at found = record {
    mutex = mutex_same s v 0 (sending a n) (rw at refl);
    waiting = λ u b e. ground (arith, v.waiting u b);
    starting_up = λ u b m e. ground (arith, v.starting_up u b m);
    one_starter = λ u w b c m e e'. ground (arith, v.one_starter u w b c m);
    picking = λ u b m e. ground (arith, v.picking u b m);
    clearing = λ u w b m e.
        (λ x. ground (arith, v.clearing u w b m), λ x. ground (arith, v.clearing u w b m));
    unborn_from = λ m le. ground (arith, v.unborn_from m le);
    made = v.made;
    one_peer = v.one_peer;
    live = λ b m e. elim (v.live b m e) [
      | inl x ↦ inl (ground arith)
      | inr (inl (u, x)) ↦ inr (inl (u, ground arith))
      | inr (inr (u, x)) ↦ inr (inr (u, ground arith))
    ];
  }

  pub sent-IsConsistent :
      (a b : Address) (n : ℕ)
      → s.place 0 ≡ sending a n
      → s.place n ≡ selecting b
      → IsConsistent (record s { place = move n free (move 0 (sent a) s.place) })
  sent-IsConsistent a b n at at' =
      let held = v.mutex 0 (rw at refl) in
      let a_n = v.picking 0 a n (rw at refl) in
      let b_n = v.waiting n b (rw at' refl) in
      let same : a ≡ b = v.one_peer a b n a_n b_n in
      let by_owner : (u : ℕ) (c : Address) → claim (s.place u) ≡ clears c → s.owner ≡ some u =
        λ u c e. v.mutex u (clears-holds (s.place u) c e) in
      record {
        mutex = λ u e. ground (arith, v.mutex u);
        waiting = λ u c e. ground (arith, v.waiting u c);
        starting_up = λ u c m e. ground (arith, v.starting_up u c m);
        one_starter = λ u w c d m e e'. ground (arith, v.one_starter u w c d m);
        picking = λ u c m e. ground (arith, v.picking u c m);
        clearing = λ u w c m e. (
          λ x. ground (arith, by_owner u c, v.waiting w c),
          λ x. ground (arith, by_owner u c, v.starting_up w c m),
        );
        unborn_from = λ m le. ground (arith, v.unborn_from m le);
        made = v.made;
        one_peer = v.one_peer;
        live = λ c m e. elim (ℕ_discrete m n) [
          | yes here ↦ let a_c : a ≡ c = v.one_peer a c n a_n (cc) in inr (inr (0, ground arith))
          | no other ↦ elim (v.live c m e) [
            | inl x ↦ inl (ground arith)
            | inr (inl (u, x)) ↦ inr (inl (u, ground arith))
            | inr (inr (u, x)) ↦ inr (inr (u, ground arith))
          ]
        ];
      }

  pub makes-IsConsistent :
      (t : ℕ) (a : Address)
      → s.place t ≡ has_spread a
      → lookup a s.channels ≡ none
      → IsConsistent (record s {
        owner = none;
        channels = insert a s.fresh s.channels;
        fresh = s.fresh + 1;
        place = move t (starting a s.fresh) s.place;
      })
  makes-IsConsistent t a at missing =
      let held = v.mutex t (rw at refl) in
      let look : (c : Address)
          → lookup c (insert a s.fresh s.channels)
            ≡ ite (string_discrete a c) (some s.fresh) (lookup c s.channels) =
        λ c. lookup-insert {V = ℕ} a c s.fresh s.channels in
      let by_owner : (u : ℕ) (c : Address) → claim (s.place u) ≡ clears c → s.owner ≡ some u =
        λ u c e. v.mutex u (clears-holds (s.place u) c e) in
      record {
        mutex = mutex_unlock s v t (starting a s.fresh) (rw at refl) refl;
        waiting = λ u c e. ground (arith, v.waiting u c, look c);
        starting_up = λ u c m e. (
          ground (arith, v.starting_up u c m, look c),
          ground (arith, v.starting_up u c m, v.unborn_from m),
        );
        one_starter = λ u w c d m e e'. ground (
          arith,
          v.one_starter u w c d m,
          v.starting_up u c m,
          v.starting_up w d m,
          v.made c m,
          v.made d m,
        );
        picking = λ u c m e. ground (arith, v.picking u c m, look c);
        clearing =
            λ u w c m e. (λ x. ground (arith, by_owner u c), λ x. ground (arith, by_owner u c));
        unborn_from = λ m le. ground (arith, v.unborn_from m);
        made = λ c m e. ground (arith, v.made c m, look c);
        one_peer =
            λ c d m e e'. ground (arith, v.made c m, v.made d m, v.one_peer c d m, look c, look d);
        live = λ c m e. elim (string_discrete a c) [
          | yes here ↦ inr (inl (t, ground (arith, look c)))
          | no other ↦ elim (v.live c m (ground (arith, look c))) [
            | inl x ↦ inl (ground arith)
            | inr (inl (u, x)) ↦ inr (inl (u, ground arith))
            | inr (inr (u, x)) ↦ inr (inr (u, ground arith))
          ]
        ];
      }

  pub starts-IsConsistent :
      (t : ℕ) (a : Address) (n : ℕ)
      → s.place t ≡ starting a n
      → IsConsistent (record s { place = move n (selecting a) (move t (rest t) s.place) })
  starts-IsConsistent t a n at =
      let (a_n, n_unborn) = v.starting_up t a n (rw at refl) in
      let (no_claim, no_hold) = rest-nothing t in
      let by_owner : (u : ℕ) (c : Address) → claim (s.place u) ≡ clears c → s.owner ≡ some u =
        λ u c e. v.mutex u (clears-holds (s.place u) c e) in
      record {
        mutex = λ u e. ground (arith, v.mutex u);
        waiting = λ u c e. ground (arith, v.waiting u c);
        starting_up = λ u c m e. ground (arith, v.starting_up u c m, v.one_starter u t c a n);
        one_starter = λ u w c d m e e'. ground (arith, v.one_starter u w c d m);
        picking = λ u c m e. ground (arith, v.picking u c m);
        clearing = λ u w c m e. (
          λ x. ground (arith, v.clearing u w c m, v.clearing u t c n),
          λ x. ground (arith, v.clearing u w c m),
        );
        unborn_from = λ m le. ground (arith, v.unborn_from m le, v.made a n a_n);
        made = v.made;
        one_peer = v.one_peer;
        live = λ c m e. elim (ℕ_discrete m n) [
          | yes here ↦ let a_c : a ≡ c = v.one_peer a c n a_n (cc) in inl (ground arith)
          | no other ↦ elim (v.live c m e) [
            | inl x ↦ inl (ground arith)
            | inr (inl (u, x)) ↦ inr (inl (u, ground arith))
            | inr (inr (u, x)) ↦ inr (inr (u, ground arith))
          ]
        ];
      }

  -- The holder of the mutex deletes the entry, which no other thread has to do with.
  deleted-IsConsistent :
      (t : ℕ) (a : Address)
      → holds (s.place t) ≡ true
      → (claim (s.place t) ≡ waits a) ⊎ (claim (s.place t) ≡ clears a)
      → ((u : ℕ)
          → u ≢ t
          → (claim (s.place u) ≢ waits a) × ((n : ℕ) → claim (s.place u) ≢ starts a n))
      → IsConsistent
          (record s { owner = none; channels = delete a s.channels; place = move t free s.place })
  deleted-IsConsistent t a held mine alone =
      let owned = v.mutex t held in
      let look : (c : Address)
          → lookup c (delete a s.channels) ≡ ite (string_discrete a c) none (lookup c s.channels) =
        λ c. lookup-delete {V = ℕ} a c s.channels in
      record {
        mutex = mutex_unlock s v t free held refl;
        waiting = λ u c e. ground (arith, v.waiting u c, alone u, look c);
        starting_up = λ u c m e.
            ground (arith, v.starting_up u c m, λ (away : u ≢ t). (alone u away).1 m, look c, mine);
        one_starter = λ u w c d m e e'. ground (arith, v.one_starter u w c d m);
        picking = λ u c m e. ground (
          arith,
          λ (x : claim (s.place u) ≡ picks c m). v.mutex u (picks-holds (s.place u) c m x),
        );
        clearing = λ u w c m e.
            (λ x. ground (arith, v.clearing u w c m), λ x. ground (arith, v.clearing u w c m));
        unborn_from = λ m le. ground (arith, v.unborn_from m le);
        made = λ c m e. ground (arith, v.made c m, look c);
        one_peer = λ c d m e e'. ground (arith, v.one_peer c d m, look c, look d);
        live = λ c m e. elim (v.live c m (ground (arith, look c))) [
          | inl x ↦ inl (ground (arith, look c, mine))
          | inr (inl (u, x)) ↦ inr (inl (u, ground (arith, look c, mine)))
          | inr (inr (u, x)) ↦ inr (inr (u, ground (arith, look c, mine)))
        ];
      }

  pub done-IsConsistent :
      (a : Address)
      → s.place 0 ≡ sent a
      → IsConsistent
          (record s { owner = none; channels = delete a s.channels; place = move 0 free s.place })
  done-IsConsistent a at = deleted-IsConsistent 0 a (rw at refl) (inr (rw at refl)) (λ u away.
      let clear = λ (n : ℕ). v.clearing 0 u a n (rw at refl) in ((clear 0).0, λ n. (clear n).1))

  pub cleans-IsConsistent :
      (t : ℕ) (a : Address)
      → s.place t ≡ cleaning a
      → IsConsistent
          (record s { owner = none; channels = delete a s.channels; place = move t free s.place })
  cleans-IsConsistent t a at = deleted-IsConsistent t a (rw at refl) (inl (rw at refl)) (λ u away. (
    λ x. ground (arith, v.waiting u a, v.waiting t a),
    λ n x. ground (arith, v.starting_up u a n, v.waiting t a),
  ))
