-- ===== src/Start.antt =====
-- NewGossiper of gossiper/Gossiper.go, which reads and opens the addresses, and main.go. What the
-- net package answers is a record, and `split` is strings.Split; an int is given by its bits, and
-- `itoa` is strconv.Itoa.
pub mod Explained
use Prim.Native.String.{◌++◌ as ◌+++◌}
use decentralized_peerster.Common.{
  ℕ, Bool, true, false, not, List, [], ◌∷◌, ◌++◌, Option, none, some, String, ◌⊎◌, inl, inr,
  if◌then◌else◌,
}
use decentralized_peerster.Client.{is_empty_string}
use decentralized_peerster.Gossiper.{Address, Gossiper, new_gossiper}

-- `resolve` is ResolveUDPAddr with none for its error. `can_listen` says whether ListenUDP gives a
-- connection for an address when those of the list are open, and `local_addr` is LocalAddr of it.
pub record Network : Type 0 where
  pub resolve : String → Option Address
  pub can_listen : List Address → Address → Bool
  pub local_addr : Address → Address
  pub split : String → String → List String
  pub itoa : ℕ → String

-- Where NewGossiper returns an error.
pub data StartError : Type 0 where
  bad_client_address : StartError
  bad_peers_address : StartError
  empty_name : StartError
  bad_peer : String → StartError
  peers_not_bound : StartError
  client_not_bound : StartError

abbrev pub Started : Type 0 → Type 0
Started A = StartError ⊎ A

infixl 5 ◌>>=◌
abbrev pub ◌>>=◌ : {A B : Type 0} → Started A → (A → Started B) → Started B
inl e >>= f = inl e
inr a >>= f = f a

abbrev pub or_error : {A : Type 0} → StartError → Option A → Started A
or_error e none = inl e
or_error e (some a) = inr a

abbrev pub require : StartError → Bool → Started (Unit {0})
require e true = inr tt
require e false = inl e

abbrev pub local_ip : String
local_ip = "127.0.0.1"

abbrev pub client_listen_address : Network → ℕ → String
client_listen_address net uiport = local_ip +++ ":" +++ net.itoa uiport

-- The loop over the parts of the flag `peers`.
unfoldable pub resolve_peers : Network → List String → Started (List Address)
resolve_peers net [] = inr []
resolve_peers net (part ∷ parts) =
    let rest = resolve_peers net parts in
    let resolved = (do
      addr ← or_error (bad_peer part) (net.resolve part)
      addrs ← rest
      inr (addr ∷ addrs)) in
    if is_empty_string part then rest else resolved

-- The gossiper and its client address.
unfoldable pub start_gossiper :
    Network → String → ℕ → String → String → Bool → Started (Gossiper × Address)
start_gossiper net name uiport peers_address peers is_simple_mode = do
  client ← or_error bad_client_address (net.resolve (client_listen_address net uiport))
  address ← or_error bad_peers_address (net.resolve peers_address)
  named ← require empty_name (not (is_empty_string name))
  addrs ← resolve_peers net (net.split peers ",")
  peers_open ← require peers_not_bound (net.can_listen [] address)
  client_open ← require client_not_bound (net.can_listen (address ∷ []) client)
  inr (new_gossiper name (net.local_addr address) addrs is_simple_mode, client)

-- The command line flags; `rtimer` is an int.
pub record Flags : Type 0 where
  pub uiport : ℕ
  pub gossip_addr : String
  pub name : String
  pub peers : String
  pub rtimer : ℕ
  pub simple_mode : Bool
  pub no_webserver : Bool
  pub no_anti_entropy : Bool

pub data Thread : Type 0 where
  client_reader : Thread
  peer_reader : Thread
  peer_writer : Thread
  anti_entropy_timer : Thread
  route_rumors_spreading : ℕ → Thread
  webserver : Thread
  mining_thread : Thread
  message_processor : Thread

abbrev pub threads : Flags → List Thread
threads f =
    let first = client_reader ∷ peer_reader ∷ peer_writer ∷ [] in
    let timer = if f.no_anti_entropy then [] else anti_entropy_timer ∷ [] in
    let server = if f.no_webserver then [] else webserver ∷ [] in
    first
    ++ (timer
        ++ (route_rumors_spreading f.rtimer ∷ (server ++ mining_thread ∷ message_processor ∷ [])))

-- The gossiper with its threads in the order of their start; nothing runs where NewGossiper fails.
unfoldable pub main : Network → Flags → Option (Gossiper × List Thread)
main net f = elim (start_gossiper net f.name f.uiport f.gossip_addr f.peers f.simple_mode) [
  | inl e ↦ none
  | inr started ↦ some (started.0, threads f)
]
