-- ===== src/Webserver/Orders.antt =====
-- What a request to webserver/Webserver.go can do to a gossiper.
use Prim.Native.String.{◌++◌ as ◌+++◌}
use mathlib.Core.List.{append-nil}
use decentralized_peerster.Common.{
  ℕ, zero, suc, ◌+◌, ◌≡◌, refl, ◌⊎◌, inl, inr, List, [], ◌∷◌, ◌++◌, Option, none, some, String,
  string_discrete, Outcome, ok, panic, out_of_fuel, ◌>>=◌, guard_some, get_elem?, Bytes, false, ap,
  ◌∙◌, if_both, ite_both, Bool-cases,
}
use decentralized_peerster.Models.{ClientMessage}
use decentralized_peerster.Search.{CurrentSearchRequest, ToDownload, download_file_by_name}
use decentralized_peerster.Gossiper.{Address, Gossiper, update_peers_if_needed, knows_peer}
use decentralized_peerster.Client.{
  web_send_private_message, web_request_file, free_number, download_found_by_name, found_message,
  send_rumor_message, send_to_share_message, web_search, set_gossiper_name, is_empty_string,
  send_private_message, send_to_download_message,
}
use decentralized_peerster.Client.Port.{send_message_to_local_port, send_encoded, send_bytes}
use decentralized_peerster.Start.{client_listen_address}
use decentralized_peerster.Client.Requests.{IsRequest, IsSent, send_to_download_message-IsSent}
use decentralized_peerster.Webserver.{
  Libraries, Method, get, post, Answer, no_json, not_routed, Served, shows, sends, serve, serve_get,
  serve_post, add_peer, address_or_nil, case,
}

module _ (lib : Libraries) (g : Gossiper) where
  -- The body has no second part.
  abbrev pub HasNoBar : String → Type 0
  HasNoBar body =
      (get_elem? (lib.split body "|") 0 ≡ none) ⊎ (get_elem? (lib.split body "|") 1 ≡ none)

  -- Only the name and new peers at the end are new. A datagram is one message with one field set.
  pub record Changes (r : Served) : Type 0 where
    pub new_peers : List Address
    pub state : r.gossiper ≡ record g { name = r.gossiper.name; peers = g.peers ++ new_peers }
    pub message :
        (d : Address × Bytes)
        → r.to_local_port ≡ some d
        → (m : ClientMessage) × IsRequest m × (lib.encode_message m ≡ some d.1)

  -- The address of the local port cannot be dialed.
  abbrev pub Undialed : Type 0
  Undialed =
      (addr : Address) × (lib.network.resolve (client_listen_address lib.network lib.client_port)
        ≡ some addr)
      × (lib.dial addr ≡ false)

  -- Where a handler panics, and where the model of the loop in requestFile runs out of fuel.
  abbrev pub Ends : String → String → Outcome Served → Type 0
  Ends path body (Outcome.ok r) = Changes r
  Ends path body Outcome.panic =
      ((path ≡ "/sendPrivateMessage") × HasNoBar body)
      ⊎ (((path ≡ "/requestFile") × HasNoBar body)
          ⊎ (((path ≡ "/downloadFound") × (g.current_search_request ≡ none)) ⊎ Undialed))
  Ends path body Outcome.out_of_fuel = path ≡ "/requestFile"

  kept_state : g ≡ record g { peers = g.peers ++ [] }
  kept_state = rw (append-nil g.peers)

  quiet-Changes :
      (answer : Answer) → Changes (record { gossiper = g; answer = answer; to_local_port = none })
  quiet-Changes answer = record { new_peers = []; state = kept_state; message = λ d e. absurd (cc) }

  written-Ends :
      (path body : String) (m : ClientMessage) (bytes : Bytes)
      → IsRequest m
      → lib.encode_message m ≡ some bytes
      → (o : Option Address)
      → lib.network.resolve (client_listen_address lib.network lib.client_port) ≡ o
      → Ends path body (
          send_bytes lib.dial o bytes >>= λ datagram.
          ok (record { gossiper = g; answer = no_json; to_local_port = datagram }))
  written-Ends path body m bytes request encoded none at = quiet-Changes no_json
  written-Ends path body m bytes request encoded (some addr) at =
      elim (Bool-cases (lib.dial addr)) [
        | inl dialed ↦ rw dialed (record {
          new_peers = [];
          state = kept_state;
          message = λ d e. (m, request, encoded ∙ ap some (ap bytes_of e));
        })
        | inr undialed ↦ rw undialed (inr (inr (inr (addr, at, undialed))))
      ]
    where
      bytes_of : Option (Address × Bytes) → Bytes
      bytes_of none = bytes
      bytes_of (some d) = d.1

  encoded-Ends :
      (path body : String) (m : ClientMessage)
      → IsRequest m
      → (o : Option Bytes) → lib.encode_message m ≡ o
      → Ends path body (
          send_encoded lib.dial lib.network lib.client_port o >>= λ datagram.
          ok (record { gossiper = g; answer = no_json; to_local_port = datagram }))
  encoded-Ends path body m request none e = quiet-Changes no_json
  encoded-Ends path body m request (some bytes) e =
      written-Ends path body m bytes request e
        (lib.network.resolve (client_listen_address lib.network lib.client_port)) refl

  sends-Ends :
      (path body : String) (m : Option ClientMessage) → IsSent m → Ends path body (sends lib g m)
  unfolding send_message_to_local_port
  sends-Ends path body none sent = quiet-Changes no_json
  sends-Ends path body (some m) sent = encoded-Ends path body m sent (lib.encode_message m) refl

  named-Changes :
      (name : String)
      → Changes
          (record { gossiper = record g { name = name }; answer = no_json; to_local_port = none })
  named-Changes name = record {
    new_peers = [];
    state = rw (append-nil g.peers);
    message = λ d e. absurd (cc);
  }

  Serves : Gossiper → Type 0
  Serves g' = Changes (record { gossiper = g'; answer = no_json; to_local_port = none })

  unchanged-Serves : Serves g
  unfolding Serves
  unchanged-Serves = quiet-Changes no_json

  name-Serves : (name : String) → Serves (set_gossiper_name lib.trim_space g name)
  unfolding set_gossiper_name Serves
  name-Serves name =
      if_both Serves (is_empty_string (lib.trim_space name)) _ _ unchanged-Serves
        (named-Changes name)

  peer-Serves : (peer : Address) → Serves (update_peers_if_needed g peer)
  unfolding update_peers_if_needed Serves
  peer-Serves peer =
      if_both Serves (knows_peer g.peers peer) _ _ unchanged-Serves
        (record { new_peers = peer ∷ []; state = refl; message = λ d e. absurd (cc) })

  found-IsSent : (o : Option ToDownload) → IsSent (found_message lib.decode_string lib.encode o)
  unfolding found_message
  found-IsSent none = tt
  found-IsSent (some d) =
      send_to_download_message-IsSent lib.decode_string d.name (lib.encode d.hash_value)
        d.destination

  found-Ends :
      (body : String) (csr : Option CurrentSearchRequest)
      → g.current_search_request ≡ csr
      → Ends "/downloadFound" body (
          (elim csr [ none ↦ panic | some c ↦ ok (download_file_by_name c body body) ]) >>= λ found.
          sends lib g (found_message lib.decode_string lib.encode found))
  found-Ends body none missing = inr (inr (inl (refl, missing)))
  found-Ends body (some c) at =
      sends-Ends "/downloadFound" body
        (found_message lib.decode_string lib.encode (download_file_by_name c body body))
        (found-IsSent (download_file_by_name c body body))

  private-Ends :
      (body : String)
      → Ends "/sendPrivateMessage" body
          (web_send_private_message lib.split body >>= λ m. sends lib g (some m))
  unfolding web_send_private_message
  private-Ends body =
      parts (get_elem? (lib.split body "|") 0) (get_elem? (lib.split body "|") 1) refl refl
    where
      parts :
          (dest text : Option String)
          → get_elem? (lib.split body "|") 0 ≡ dest
          → get_elem? (lib.split body "|") 1 ≡ text
          → Ends "/sendPrivateMessage" body (
              (guard_some dest >>= λ d. guard_some text >>= λ t. ok (send_private_message t d))
              >>= λ m. sends lib g (some m))
      parts none text e e' = inl (refl, inl e)
      parts (some dest) none e e' = inl (refl, inr e')
      parts (some dest) (some text) e e' =
          sends-Ends "/sendPrivateMessage" body (some (send_private_message text dest)) (refl, tt)

  free_number-ends :
      (dest : String) (fuel i : ℕ)
      → ((k : ℕ) × (free_number lib.itoa lib.exists dest fuel i ≡ ok k))
        ⊎ (free_number lib.itoa lib.exists dest fuel i ≡ out_of_fuel)
  unfolding free_number
  free_number-ends dest zero i = inr refl
  free_number-ends dest (suc fuel) i =
      elim (Bool-cases (lib.exists (dest +++ ("-" +++ lib.itoa i)))) [
        | inl here ↦ rw (free_number, here) (free_number-ends dest fuel (i + 1))
        | inr free ↦ inl (i, rw (free_number, free) refl)
      ]

  request-Ends :
      (fuel : ℕ) (body : String)
      → Ends "/requestFile" body (
          web_request_file lib.decode_string lib.split lib.itoa lib.exists fuel body >>= λ m.
          sends lib g m)
  unfolding web_request_file
  request-Ends fuel body =
      parts (get_elem? (lib.split body "|") 0) (get_elem? (lib.split body "|") 1) refl refl
    where
      numbered :
          (dest hash : String)
          → Ends "/requestFile" body (
              (free_number lib.itoa lib.exists dest fuel 1 >>= λ n. ok (
                send_to_download_message lib.decode_string
                  (dest +++ ("-" +++ lib.itoa n))
                  hash
                  dest))
              >>= λ m. sends lib g m)
      numbered dest hash = elim (free_number-ends dest fuel 1) [
        | inl (n, run) ↦ rw run (
            sends-Ends "/requestFile" body _ (
              send_to_download_message-IsSent lib.decode_string (dest +++ ("-" +++ lib.itoa n)) hash
                dest))
        | inr out ↦ rw out refl
      ]

      parts :
          (dest hash : Option String)
          → get_elem? (lib.split body "|") 0 ≡ dest
          → get_elem? (lib.split body "|") 1 ≡ hash
          → Ends "/requestFile" body (
              (guard_some dest >>= λ d. guard_some hash >>= λ h.
              free_number lib.itoa lib.exists d fuel 1 >>= λ n.
              ok (send_to_download_message lib.decode_string (d +++ ("-" +++ lib.itoa n)) h d))
              >>= λ m. sends lib g m)
      parts none hash e e' = inr (inl (refl, inl e))
      parts (some dest) none e e' = inr (inl (refl, inr e'))
      parts (some dest) (some hash) e e' = numbered dest hash

  -- A path that is a route has the result of its handler.
  route-Ends :
      (text path body : String) (handled rest : Outcome Served)
      → Ends text body handled
      → Ends path body rest
      → Ends path body (case text path handled rest)
  route-Ends text path body handled rest h r =
      ite_both (Ends path body) (string_discrete path text) handled rest (λ e. rw e h) r

  -- A GET shows something of the gossiper, and changes and sends nothing.
  abbrev pub Handled : Method → String → String → Outcome Served → Type 0
  Handled get path body o = (answer : Answer) × (o ≡ shows g answer)
  Handled post path body o = Ends path body o

  shown :
      (text path : String) (answer : Answer) (rest : Outcome Served)
      → (answer' : Answer) × (rest ≡ shows g answer')
      → (answer' : Answer) × (case text path (shows g answer) rest ≡ shows g answer')
  shown text path answer rest r =
      ite_both (λ o. (answer' : Answer) × (o ≡ shows g answer')) (string_discrete path text)
        (shows g answer) rest (λ e. (answer, refl)) r

  -- A GET to the web server, whatever its path, is answered without a panic and changes and sends
  -- nothing; a POST that is handled changes at most the name and appends new peers, and a datagram
  -- that it writes to the local port encodes a message with exactly one field set, whose hash has
  -- 32 bytes if there is one; a POST panics only at sendPrivateMessage or requestFile with a body
  -- of fewer than two parts, at downloadFound before the first search, or if the address of the
  -- local port resolves and cannot be dialed, and only the loop of requestFile may run out of
  -- fuel.
  pub serve-Handled :
      (fuel : ℕ) (method : Method) (path body : String)
      → Handled method path body (serve lib fuel g method path body)
  unfolding serve serve_get serve_post add_peer Serves download_found_by_name
  serve-Handled fuel get path body = shown _ path _ _ (
      shown _ path _ _ (
        shown _ path _ _
          (shown _ path _ _ (shown _ path _ _ (shown _ path _ _ (shown _ path _ _ (_, refl)))))))
  serve-Handled fuel post path body = route-Ends _ path body _ _ (name-Serves body) (
      route-Ends _ path body _ _ (peer-Serves (address_or_nil (lib.resolve body))) (
        route-Ends _ path body _ _ (sends-Ends _ body (some (send_rumor_message body)) (refl, tt)) (
          route-Ends _ path body _ _ (private-Ends body) (
            route-Ends _ path body _ _
              (sends-Ends _ body (some (send_to_share_message body)) (refl, tt))
              (route-Ends _ path body _ _ (request-Ends fuel body) (
                route-Ends _ path body _ _
                  (sends-Ends _ body (some (web_search lib.split body)) (refl, tt))
                  (route-Ends _ path body _ _ (found-Ends body g.current_search_request refl)
                    (quiet-Changes not_routed))))))))
