-- ===== src/Gossiper/Dispatch/Clients.antt =====
-- What client messages, requests to the web server and the goroutine of a search leave:
-- gossiper/Gossiper.go, processClientMessage and startFileSearchingGoroutine, and
-- webserver/Webserver.go.
use mathlib.Core.Path.{subst}
use decentralized_peerster.Common.{
  ◌∙◌, ap, ℕ, ◌≡◌, sym, List, Option, none, some, String, string_key, Outcome, ok, ◌>>=◌, bytes_key,
  if_both,
}
use decentralized_peerster.Models.{ClientMessage, Block, SearchResult}
use decentralized_peerster.Hashing.{Sha}
use decentralized_peerster.Webserver.{Libraries, Method, get, post, Served, serve}
use decentralized_peerster.Webserver.Orders.{Ends, serve-Handled}
use decentralized_peerster.Search.{CurrentSearchRequest, shutdown}
use decentralized_peerster.Gossiper.Budget.{process_search_request}
use decentralized_peerster.Gossiper.{Gossiper, Sends}
use decentralized_peerster.Gossiper.Searching.{
  SearchLoop, LoopStep, process_client_search_request, search_tick, int_above, int_increment,
}
use decentralized_peerster.Gossiper.Dispatch.{
  Outside, no_search, private_of, share_and_publish, process_client_message,
}
use decentralized_peerster.Gossiper.Routing.{process_private_message}
use decentralized_peerster.Gossiper.Dispatch.Frames.{client_search-Frame}
use decentralized_peerster.Gossiper.Dispatch.Safe.{IsSound, HasFiles, if_set_both}
use decentralized_peerster.Files.Sharing.{share_file}
use decentralized_peerster.Files.Sharing.Answers.{share_file-IsSharer}
use decentralized_peerster.Files.Sharing.Stocked.{share_file-IsStocker}
use decentralized_peerster.Gossiper.Dispatch.Keeps.{
  Keeps, Sound-Frame, Keeps-client_rumor, Keeps-client_route_rumor, Keeps-share, Keeps-private,
  Keeps-client_data,
}

module _ (sha : Sha) (Seen : Block → Type 0) where
  pub Sound_search :
      (g : Gossiper) (csr : Option CurrentSearchRequest)
      → IsSound sha Seen g
      → IsSound sha Seen (record g { current_search_request = csr })
  Sound_search g csr s = record { storage = s.storage; chain = s.chain; files = s.files }

  -- The tick of a search that ends leaves a sound state.
  unfoldable pub KeepsTick : Outcome LoopStep → Type 0
  KeepsTick (Outcome.ok (l, g, sent)) = IsSound sha Seen g
  KeepsTick Outcome.panic = Unit
  KeepsTick Outcome.out_of_fuel = Unit

  pub search_tick-KeepsTick :
      (matched : List String → List SearchResult) (l : SearchLoop) (g : Gossiper)
      → IsSound sha Seen g
      → KeepsTick (search_tick matched l g)
  unfolding search_tick KeepsTick
  search_tick-KeepsTick matched l g s =
      if_both KeepsTick (int_above l.budget l.max_allowed_budget) _ _
        (if_both KeepsTick (int_above l.budget (int_increment l.max_allowed_budget)) _ _
          (ended g.current_search_request) s)
        (sending (process_search_request matched g _))
    where
      ended :
          (o : Option CurrentSearchRequest)
          → IsSound sha Seen (elim o [
            | none ↦ g
            | some csr ↦ record g { current_search_request = some (shutdown csr) }
          ])
      ended none = s
      ended (some csr) = Sound_search g (some (shutdown csr)) s

      sending :
          (o : Outcome Sends)
          → KeepsTick
              (o >>= λ sent. ok (some (record l { budget = int_increment l.budget }), g, sent))
      sending (Outcome.ok sent) = s
      sending Outcome.panic = tt
      sending Outcome.out_of_fuel = tt

  abbrev served_gossiper : Gossiper → Outcome Served → Gossiper
  served_gossiper g (Outcome.ok r) = r.gossiper
  served_gossiper g Outcome.panic = g
  served_gossiper g Outcome.out_of_fuel = g

  -- A request to the web server leaves a sound state.
  pub served-Sound :
      (lib : Libraries) (fuel : ℕ) (g : Gossiper) (method : Method) (path body : String)
      {r : Served}
      → serve lib fuel g method path body ≡ ok r
      → IsSound sha Seen g
      → IsSound sha Seen r.gossiper
  served-Sound lib fuel g get path body {r} run s =
      let (answer, e) = serve-Handled lib g fuel get path body in
      let same : r.gossiper ≡ g = ap (λ o. served_gossiper g o) (sym run ∙ e) in rw same s
  served-Sound lib fuel g post path body run s =
      let ends =
        subst (λ o. Ends lib g path body o) run (serve-Handled lib g fuel post path body) in
      rw ends.state (record { storage = s.storage; chain = s.chain; files = s.files })

-- A client message that is handled leaves a sound state.
module _ (outside : Outside) (Seen : Block → Type 0) where
  unfoldable pub KeepsClient : Outcome ((Gossiper × Sends) × Option SearchLoop) → Type 0
  KeepsClient (Outcome.ok r) = IsSound outside.sha Seen r.0.0
  KeepsClient _ = Unit

  without_search :
      (o : Outcome (Gossiper × Sends)) → Keeps outside.sha Seen o → KeepsClient (no_search o)
  unfolding KeepsClient
  without_search (Outcome.ok r) k = k
  without_search Outcome.panic k = tt
  without_search Outcome.out_of_fuel k = tt

  shared_HasFiles :
      (g : Gossiper) (path : String)
      → HasFiles outside.sha Seen g
      → let name = outside.base path in
        let shared =
          share_file outside.sha g.shared_files_manager name
            (outside.is_shared name)
            (outside.read_file path) in
        HasFiles outside.sha Seen (record g { shared_files_manager = shared.0 })
  shared_HasFiles g path files =
      let name = outside.base path in
      (
        share_file-IsSharer outside.sha g.shared_files_manager name (outside.is_shared name)
            (outside.read_file path) files.0,
        share_file-IsStocker outside.sha g.shared_files_manager name (outside.is_shared name)
            (outside.read_file path) files.1,
        files.2,
      )

  pub client-KeepsClient :
      (g : Gossiper) (cmsg : ClientMessage) (random : ℕ)
      → IsSound outside.sha Seen g
      → KeepsClient (process_client_message outside g cmsg random)
  unfolding process_client_message KeepsClient share_and_publish process_client_search_request
  client-KeepsClient g cmsg random s =
      if_set_both KeepsClient cmsg.client_rumor _ _
        (λ m e. without_search _ (Keeps-client_rumor outside.sha Seen g m random s))
        (if_set_both KeepsClient cmsg.route_rumor _ _
          (λ m e. without_search _ (Keeps-client_route_rumor outside.sha Seen g random s))
          (if_set_both KeepsClient cmsg.client_private _ _
            (λ m e.
              without_search (ok (process_private_message g (private_of outside g m)))
                (Keeps-private outside.sha Seen g (private_of outside g m) s))
            (if_set_both KeepsClient cmsg.to_share _ _
              (λ m e. without_search _ (
                Keeps-share outside.sha Seen _ _ (record {
                  storage = s.storage;
                  chain = s.chain;
                  files = shared_HasFiles g m s.files;
                })))
              (if_set_both KeepsClient cmsg.to_download _ _
                (λ m e. without_search _ (Keeps-client_data outside.sha Seen g m s))
                (if_set_both KeepsClient cmsg.to_search _ _
                  (λ m e.
                    Sound-Frame outside.sha Seen g _ s (client_search-Frame g m.keywords m.budget))
                  s)))))
