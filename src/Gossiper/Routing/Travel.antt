-- ===== src/Gossiper/Routing/Travel.antt =====
-- The way of a private message through gossipers that do not change meanwhile: gossiper/Gossiper.go,
-- processPrivateMessage at each of them.
use decentralized_peerster.Common.{
  ℕ, zero, suc, ◌-◌, ◌≤◌, ◌<◌, ◌≡◌, ◌≢◌, sym, leb, ◌==◌, [], ◌∷◌, ◌++◌, Option, none, some, String,
  string_discrete, string_key, if◌then◌else◌, ℕ_discrete, arith, inl, inr, Option-cases, Outcome,
  ok, out_of_fuel,
}
use decentralized_peerster.Map.{lookup}
use decentralized_peerster.Models.{PrivateMessage}
use decentralized_peerster.Storage.{add_private_message}
use decentralized_peerster.Gossiper.{Address, Gossiper, Sends, send_packet_with_next_hop}
use decentralized_peerster.Gossiper.Routing.{process_private_message}

-- Who listens at an address.
abbrev pub Network : Type 0
Network = Address → Option Gossiper

-- The gossiper that takes the message, after it did, and the message as it arrives there.
abbrev pub Arrival : Type 0
Arrival = Gossiper × PrivateMessage

-- The first packet that was sent goes to the gossiper at its address.
abbrev next_stop : Network → Sends → Option Arrival
next_stop net [] = none
next_stop net ((a, gp) ∷ _) = elim gp.private_message [
  | none ↦ none
  | some pmsg ↦ elim (net a) [ none ↦ none | some g ↦ some (g, pmsg) ]
]

unfoldable pub travel : ℕ → Network → Gossiper → PrivateMessage → Outcome (Option Arrival)
travel zero net g pmsg = out_of_fuel
travel (suc fuel) net g pmsg = elim (string_discrete pmsg.destination g.name) [
  | yes _ ↦ ok (some ((process_private_message g pmsg).0, pmsg))
  | no _ ↦ elim (next_stop net (process_private_message g pmsg).1) [
    | none ↦ ok none
    | some (g', pmsg') ↦ travel fuel net g' pmsg'
  ]
]

-- The routing tables lead in `n` hops from a gossiper to the one that is named.
abbrev pub Route : Network → ℕ → Gossiper → String → Gossiper → Type 0
Route net zero g dest end = (dest ≡ g.name) × (g ≡ end)
Route net (suc n) g dest end =
    (dest ≢ g.name)
    × (a : Address) × (h : Gossiper) × (lookup dest g.next_hop ≡ some a)
    × (net a ≡ some h)
    × Route net n h dest end

abbrev pub hopped : PrivateMessage → ℕ → PrivateMessage
hopped pmsg n = record pmsg { hop_limit = pmsg.hop_limit - n }

abbrev pub delivered : Gossiper → PrivateMessage → Gossiper
delivered g pmsg = record g {
  message_storage = record g.message_storage {
    private_messages = g.message_storage.private_messages ++ pmsg ∷ [];
  };
}

next_stop-hop :
    (net : Network) (g h : Gossiper) (a : Address) (pmsg : PrivateMessage)
    → pmsg.destination ≢ g.name
    → lookup pmsg.destination g.next_hop ≡ some a
    → net a ≡ some h
    → next_stop net (process_private_message g pmsg).1
      ≡ (if pmsg.hop_limit == 0 then none else some (h, hopped pmsg 1))
unfolding process_private_message send_packet_with_next_hop
next_stop-hop net g h a pmsg ne at to = ground (arith)

travel-here :
    (net : Network) (fuel : ℕ) (g : Gossiper) (pmsg : PrivateMessage)
    → pmsg.destination ≡ g.name
    → travel (suc fuel) net g pmsg ≡ ok (some (delivered g pmsg, pmsg))
unfolding travel process_private_message add_private_message
travel-here net fuel g pmsg e = ground (arith)

-- If the routing tables lead in n hops from a gossiper to the one that a private message names,
-- then with fuel above the hop limit the message is taken there with its hop limit lower by n and
-- stored, if n is at most the hop limit, and is lost otherwise.
pub travel-Route :
    (net : Network) (fuel n : ℕ) (g end : Gossiper) (pmsg : PrivateMessage)
    → Route net n g pmsg.destination end
    → pmsg.hop_limit < fuel
    → travel fuel net g pmsg
      ≡ ok (
          if leb n pmsg.hop_limit
          then some (delivered end (hopped pmsg n), hopped pmsg n)
          else none)
unfolding travel
travel-Route net zero n g end pmsg r lt = absurd (omega arith)
travel-Route net (suc fuel) zero g end pmsg r lt =
    rw (sym r.1) (ground (arith, travel-here net fuel g pmsg r.0))
travel-Route net (suc fuel) (suc n) g end pmsg r lt =
    let (ne, a, h, at, to, rest) = r in
    let hop = next_stop-hop net g h a pmsg ne at to in
    elim (ℕ_discrete pmsg.hop_limit 0) [
      | yes z ↦ ground (arith, hop)
      | no nz ↦
          let ih = travel-Route net fuel n h end (hopped pmsg 1) rest (omega arith) in
          ground (arith, hop, ih)
    ]

next_stop-hopped :
    (net : Network) (g : Gossiper) (pmsg : PrivateMessage) (x : Arrival)
    → pmsg.destination ≢ g.name
    → next_stop net (process_private_message g pmsg).1 ≡ some x
    → (pmsg.hop_limit ≢ 0) × (x.1 ≡ hopped pmsg 1)
unfolding process_private_message send_packet_with_next_hop
next_stop-hopped net g pmsg x ne e = (λ z. ground arith, ground arith)

-- Where a message ends up: it is lost, or taken by a gossiper of its destination's name.
abbrev pub Ended : PrivateMessage → Option Arrival → Type 0
Ended pmsg none = Unit
Ended pmsg (some (g, pmsg')) =
    (g.name ≡ pmsg.destination) × (n : ℕ) × (n ≤ pmsg.hop_limit) × (pmsg' ≡ hopped pmsg n)

Ended-hopped :
    (pmsg : PrivateMessage) (o : Option Arrival)
    → pmsg.hop_limit ≢ 0
    → Ended (hopped pmsg 1) o
    → Ended pmsg o
Ended-hopped pmsg none nz e = tt
Ended-hopped pmsg (some (g, pmsg')) nz e = (e.0, suc e.1, omega arith, ground arith)

Ended-here :
    (g : Gossiper) (pmsg : PrivateMessage)
    → pmsg.destination ≡ g.name
    → Ended pmsg (some (delivered g pmsg, pmsg))
Ended-here g pmsg e = (sym e, 0, omega arith, ground arith)

-- In every network, one with routing loops too, a private message travels to an end with fuel
-- above its hop limit: it is lost, or a gossiper with the name of its destination takes it, with a
-- hop limit that is lower by at most the whole, and otherwise as it was sent.
pub travel-Ended :
    (net : Network) (fuel : ℕ) (g : Gossiper) (pmsg : PrivateMessage)
    → pmsg.hop_limit < fuel
    → (o : Option Arrival) × (travel fuel net g pmsg ≡ ok o) × Ended pmsg o
unfolding travel
travel-Ended net zero g pmsg lt = absurd (omega arith)
travel-Ended net (suc fuel) g pmsg lt = elim (string_discrete pmsg.destination g.name) [
  | yes e ↦ (some (delivered g pmsg, pmsg), travel-here net fuel g pmsg e, Ended-here g pmsg e)
  | no ne ↦ elim (Option-cases (next_stop net (process_private_message g pmsg).1)) [
    | inl gone ↦ (none, ground (arith, gone), tt)
    | inr (x, e) ↦
        let (nz, e') = next_stop-hopped net g pmsg x ne e in
        let (o, run, ended) = travel-Ended net fuel x.0 (hopped pmsg 1) (omega arith) in
        (o, ground (arith, run), Ended-hopped pmsg o nz ended)
  ]
]
