-- ===== src/Start/Explained.antt =====
-- When NewGossiper of gossiper/Gossiper.go starts a gossiper, and why it fails.
use decentralized_peerster.Common.{
  ◌≡◌, ◌≢◌, refl, Bool, true, false, List, [], ◌∷◌, Option, none, some, String, ◌⊎◌, inl, inr, ℕ,
  Bool-cases, Option-cases, string_discrete, if_pos, if_neg,
}
use decentralized_peerster.Gossiper.{Address, Gossiper, new_gossiper}
use decentralized_peerster.Start.{
  Network, bad_client_address, bad_peers_address, empty_name, bad_peer, peers_not_bound,
  client_not_bound, Started, ◌>>=◌, or_error, require, client_listen_address, resolve_peers,
  start_gossiper,
}

module _ (net : Network) where
  -- The addresses are those of the parts in their order; an empty part has none.
  pub data Resolved : List String → List Address → Type 0 where
    no_part : Resolved [] []
    empty_part :
        {parts : List String} {addrs : List Address}
        → Resolved parts addrs
        → Resolved ("" ∷ parts) addrs
    a_part :
        {part : String} {addr : Address} {parts : List String} {addrs : List Address}
        → part ≢ ""
        → net.resolve part ≡ some addr
        → Resolved parts addrs
        → Resolved (part ∷ parts) (addr ∷ addrs)

  -- The parts up to the first one that has a name and no address.
  pub data FirstBad (bad : String) : List String → Type 0 where
    here : {parts : List String} → bad ≢ "" → net.resolve bad ≡ none → FirstBad bad (bad ∷ parts)
    after :
        {part : String} {parts : List String}
        → (part ≡ "") ⊎ ((addr : Address) × (net.resolve part ≡ some addr))
        → FirstBad bad parts
        → FirstBad bad (part ∷ parts)

  abbrev Peers : List String → Started (List Address) → Type 0
  Peers parts (inl e) = (bad : String) × (e ≡ bad_peer bad) × FirstBad bad parts
  Peers parts (inr addrs) = Resolved parts addrs

  with_part :
      (part : String) (parts : List String) (o : Option Address) (rest : Started (List Address))
      → part ≢ ""
      → net.resolve part ≡ o
      → Peers parts rest
      → Peers
          (part ∷ parts)
          (or_error (bad_peer part) o >>= λ addr. rest >>= λ addrs. inr (addr ∷ addrs))
  with_part part parts none rest named e p = (part, refl, FirstBad.here named e)
  with_part part parts (some addr) (inl err) named e (bad, err_e, first) =
      (bad, err_e, FirstBad.after (inr (addr, e)) first)
  with_part part parts (some addr) (inr addrs) named e resolved = Resolved.a_part named e resolved

  without_part :
      (part : String) (parts : List String) (rest : Started (List Address))
      → part ≡ ""
      → Peers parts rest
      → Peers (part ∷ parts) rest
  without_part part parts (inl err) empty (bad, err_e, first) =
      (bad, err_e, FirstBad.after (inl empty) first)
  without_part part parts (inr addrs) empty resolved = rw empty (Resolved.empty_part resolved)

  resolve_peers-Peers : (parts : List String) → Peers parts (resolve_peers net parts)
  unfolding resolve_peers
  resolve_peers-Peers [] = Resolved.no_part
  resolve_peers-Peers (part ∷ parts) =
      let rest = resolve_peers-Peers parts in
      elim (string_discrete part "") [
        | yes empty ↦
            rw (if_pos (string_discrete part "") empty true false)
              (without_part part parts (resolve_peers net parts) empty rest)
        | no named ↦
            rw (if_neg (string_discrete part "") named true false)
              (with_part part parts (net.resolve part) (resolve_peers net parts) named refl rest)
      ]

  -- What came of the start, and why.
  abbrev pub Explains : String → ℕ → String → String → Bool → Started (Gossiper × Address) → Type 0
  Explains name uiport address peers mode (inl bad_client_address) =
      net.resolve (client_listen_address net uiport) ≡ none
  Explains name uiport address peers mode (inl bad_peers_address) = net.resolve address ≡ none
  Explains name uiport address peers mode (inl empty_name) = name ≡ ""
  Explains name uiport address peers mode (inl (bad_peer bad)) = FirstBad bad (net.split peers ",")
  Explains name uiport address peers mode (inl peers_not_bound) =
      (a : Address) × (net.resolve address ≡ some a) × (net.can_listen [] a ≡ false)
  Explains name uiport address peers mode (inl client_not_bound) =
      (a : Address) × (c : Address) × (net.resolve address ≡ some a)
      × (net.resolve (client_listen_address net uiport) ≡ some c)
      × (net.can_listen (a ∷ []) c ≡ false)
  Explains name uiport address peers mode (inr (g, client)) =
      (a : Address) × (addrs : List Address) × (g ≡ new_gossiper name (net.local_addr a) addrs mode)
      × (name ≢ "")
      × (net.resolve address ≡ some a)
      × (net.resolve (client_listen_address net uiport) ≡ some client)
      × Resolved (net.split peers ",") addrs
      × (net.can_listen [] a ≡ true)
      × (net.can_listen (a ∷ []) client ≡ true)

  -- NewGossiper ends with a gossiper or one of its errors, and each has its cause: an address for
  -- clients or peers that does not resolve, an empty name, the first non-empty part of the peers
  -- that does not resolve, all before it being resolved or empty, or an address that cannot be
  -- opened; a gossiper has a name, the resolved addresses of the non-empty parts as its peers in
  -- their order, and both of its addresses are open, the one for peers first.
  pub start_gossiper-Explains :
      (name : String) (uiport : ℕ) (address peers : String) (mode : Bool)
      → Explains name uiport address peers mode (start_gossiper net name uiport address peers mode)
  unfolding start_gossiper
  start_gossiper-Explains name uiport address peers mode =
      elim (Option-cases (net.resolve (client_listen_address net uiport))) [
        | inl no_client ↦ rw no_client no_client
        | inr (c, c_at) ↦ elim (Option-cases (net.resolve address)) [
          | inl no_address ↦ rw (c_at, no_address) no_address
          | inr (a, a_at) ↦ elim (string_discrete name "") [
            | yes unnamed ↦
                rw (c_at, a_at, if_pos (string_discrete name "") unnamed true false) unnamed
            | no named ↦
                rw (c_at, a_at, if_neg (string_discrete name "") named true false)
                  (opened c a c_at a_at named (resolve_peers net (net.split peers ","))
                    (resolve_peers-Peers (net.split peers ",")))
          ]
        ]
      ]
    where
      opened :
          (c a : Address)
          → net.resolve (client_listen_address net uiport) ≡ some c
          → net.resolve address ≡ some a
          → name ≢ ""
          → (r : Started (List Address)) → Peers (net.split peers ",") r
          → Explains name uiport address peers mode (
              r >>= λ addrs. require peers_not_bound (net.can_listen [] a) >>= λ peers_open.
              require client_not_bound (net.can_listen (a ∷ []) c) >>= λ client_open.
              inr (new_gossiper name (net.local_addr a) addrs mode, c))
      opened c a c_at a_at named (inl e) (bad, e_bad, first) = rw e_bad first
      opened c a c_at a_at named (inr addrs) resolved = elim (Bool-cases (net.can_listen [] a)) [
        | inr closed ↦ rw closed (a, a_at, closed)
        | inl first ↦ elim (Bool-cases (net.can_listen (a ∷ []) c)) [
          | inr closed ↦ rw (first, closed) (a, c, a_at, c_at, closed)
          | inl second ↦
              rw (first, second) (a, addrs, refl, named, a_at, c_at, resolved, first, second)
        ]
      ]
