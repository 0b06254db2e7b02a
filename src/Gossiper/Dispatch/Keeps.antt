-- ===== src/Gossiper/Dispatch/Keeps.antt =====
-- What the other steps of gossiper/Gossiper.go leave: client messages, the goroutines of rumors,
-- searches and downloads, and the mining thread. Such a step may panic.
use mathlib.Core.Path.{subst}
use decentralized_peerster.Common.{
  ℕ, ◌<◌, ◌-◌, leb, sym, Bool, true, false, List, [], ◌∷◌, Option, none, some, String, Bytes,
  Outcome, ok, panic, out_of_fuel, ◌>>=◌, arith, if_both, ite_both, if◌then◌else◌, string_discrete,
}
use decentralized_peerster.Models.{
  RumorMessage, PrivateMessage, StatusPacket, DataReply, Block, ClientToDownloadMessage, u32_mod,
}
use decentralized_peerster.Hashing.{Sha}
use decentralized_peerster.Storage.{
  diff, add_rumor_message, get_current_status_packet, get_next_message_id,
}
use decentralized_peerster.Storage.Invariant.{add_rumor_message-IsValid}
use decentralized_peerster.Search.{CurrentSearchRequest, ToDownload, download_file_by_hash}
use decentralized_peerster.Files.Downloading.{
  start_downloading_from_origin, drop_downloading, get_data_request_hash, process_data_reply,
}
use decentralized_peerster.Files.Downloading.Sound.{
  start-IsDownloader, drop-IsDownloader, process_data_reply-IsDownloader,
}
use decentralized_peerster.Gossiper.{
  Address, Gossiper, Sends, Feedback, DownloadLoop, get_random_peer, are_peers_empty, nil_address,
}
use decentralized_peerster.Gossiper.Routing.{process_private_message}
use decentralized_peerster.Gossiper.Broadcast.{process_client_to_share, shared_tx}
use decentralized_peerster.Gossiper.Broadcast.Once.{add_transaction-IsValid}
use decentralized_peerster.Gossiper.Rumors.{
  status_packet, spread_to, spread_the_rumor, process_rumor_message, answer_status,
  flip_rumor_mongering_coin, mongering_timeout, mongering_status, process_client_rumor,
  process_client_route_rumor, process_addressed_simple_message,
}
use decentralized_peerster.Gossiper.Downloads.{
  process_client_data_request, ask_local_port, start_loop, request_data, download_tick,
  download_reply, go_on, ask_next, end_loop, with_loop, file_download_timeouts_limit,
}
use decentralized_peerster.Gossiper.Dispatch.Frames.{Frame, spread_to-Frame}
use decentralized_peerster.Gossiper.Dispatch.Safe.{IsSound, Files-kept, private-Goes}

module _ (sha : Sha) (Seen : Block → Type 0) where
  abbrev Sound : Gossiper → Type 0
  Sound = IsSound sha Seen

  -- If the step ends, it ends in a sound state.
  abbrev pub Keeps : Outcome (Gossiper × Sends) → Type 0
  Keeps (ok r) = Sound r.0
  Keeps panic = Unit
  Keeps out_of_fuel = Unit

  Keeps-bind :
      {A : Type 0} (o : Outcome A) (f : A → Outcome (Gossiper × Sends))
      → ((a : A) → Keeps (f a))
      → Keeps (o >>= f)
  Keeps-bind (ok a) f k = k a
  Keeps-bind panic f k = tt
  Keeps-bind out_of_fuel f k = tt

  pub Sound-Frame : (g g' : Gossiper) → Sound g → Frame g g' → Sound g'
  Sound-Frame g g' s f = record {
    storage = rw f.storage s.storage;
    chain = rw f.chain s.chain;
    files = Files-kept sha Seen g g' f s.files;
  }

  Sound-spread :
      (g : Gossiper) (m : RumorMessage) (peer : Address) → Sound g → Sound (spread_to g m peer).0
  Sound-spread g m peer s = Sound-Frame g (spread_to g m peer).0 s (spread_to-Frame g m peer)

  Keeps-spread :
      (g : Gossiper) (m : RumorMessage) (random : ℕ)
      → Sound g
      → Keeps (spread_the_rumor g m none random)
  unfolding spread_the_rumor
  Keeps-spread g m random s =
      Keeps-bind (get_random_peer g random) _ (λ peer. Sound-spread g m peer s)

  Keeps-rumor :
      (g : Gossiper) (m : RumorMessage) (random : ℕ)
      → m.id < u32_mod
      → Sound g
      → Keeps (process_rumor_message g m random)
  unfolding process_rumor_message
  Keeps-rumor g m random u32 s =
      let g' : Gossiper = record g {
        message_storage = (add_rumor_message g.message_storage m).0;
      } in
      let s' : Sound g' = record {
        storage = add_rumor_message-IsValid g.message_storage m u32 s.storage;
        chain = s.chain;
        files = s.files;
      } in
      if_both Keeps (add_rumor_message g.message_storage m).1 _ _
        (if_both Keeps (are_peers_empty g') (ok (g', [])) (spread_the_rumor g' m none random) s'
          (Keeps-spread g' m random s'))
        s'

  next_id : (g : Gossiper) → get_next_message_id g.message_storage g.name < u32_mod
  unfolding get_next_message_id
  next_id g = omega arith

  pub Keeps-client_rumor :
      (g : Gossiper) (text : String) (random : ℕ)
      → Sound g
      → Keeps (process_client_rumor g text random)
  unfolding process_client_rumor process_addressed_simple_message
  Keeps-client_rumor g text random s =
      if_both Keeps g.is_simple_mode _ _ s (Keeps-rumor g _ random (next_id g) s)

  pub Keeps-client_route_rumor :
      (g : Gossiper) (random : ℕ) → Sound g → Keeps (process_client_route_rumor g random)
  unfolding process_client_route_rumor
  Keeps-client_route_rumor g random s =
      if_both Keeps g.is_simple_mode _ _ s (Keeps-rumor g _ random (next_id g) s)

  pub Keeps-private :
      (g : Gossiper) (m : PrivateMessage) → Sound g → Keeps (ok (process_private_message g m))
  Keeps-private g m s =
      let (g', sent, run, s', _) = private-Goes sha Seen g m s in subst (λ o. Keeps o) (sym run) s'

  pub Keeps-coin :
      (g : Gossiper) (m : RumorMessage) (coin : Bool) (random again : ℕ)
      → Sound g
      → Keeps (flip_rumor_mongering_coin g m coin random again)
  unfolding flip_rumor_mongering_coin spread_the_rumor
  Keeps-coin g m coin random again s =
      if_both Keeps coin _ _
        (Keeps-bind (get_random_peer g random) _ (λ peer.
          ite_both (λ o. Keeps (spread_the_rumor g m o again)) (string_discrete peer nil_address)
            none (some peer)
            (λ e. Keeps-bind (get_random_peer g again) _ (λ p. Sound-spread g m p s))
            (Sound-spread g m peer s)))
        s

  pub Keeps-timeout :
      (g : Gossiper) (peer : Address) (m : RumorMessage) (coin : Bool) (random again : ℕ)
      → Sound g
      → Keeps (mongering_timeout g peer m coin random again)
  unfolding mongering_timeout
  Keeps-timeout g peer m coin random again s =
      Keeps-coin _ m coin random again
        (record { storage = s.storage; chain = s.chain; files = s.files })

  Keeps-answer :
      (g : Gossiper) (sp : StatusPacket) (address : Address) (in_sync : Outcome (Gossiper × Sends))
      → Sound g
      → Keeps in_sync
      → Keeps (answer_status g sp address in_sync)
  Keeps-answer g sp address in_sync s quiet =
      Keeps-bind (diff g.message_storage sp) _ (λ d. cases d.0 d.1)
    where
      cases :
          (m : Option RumorMessage) (f : Bool)
          → Keeps (elim m [
            | some rmsg ↦ ok (spread_to g rmsg address)
            | none ↦
                if f
                then ok
                    (g, (address, status_packet (get_current_status_packet g.message_storage)) ∷ [])
                else in_sync
          ])
      cases (some rmsg) f = Sound-spread g rmsg address s
      cases none true = s
      cases none false = quiet

  pub Keeps-status :
      (g : Gossiper) (f : Feedback) (rest : List Feedback) (coin : Bool) (random again : ℕ)
      → Sound g
      → Keeps (mongering_status g f rest coin random again)
  unfolding mongering_status
  Keeps-status g f rest coin random again s =
      let g' : Gossiper = record g { feedback = rest } in
      let s' : Sound g' = record { storage = s.storage; chain = s.chain; files = s.files } in
      Keeps-answer g' f.status f.peer _ s' (Keeps-coin g' f.message coin random again s')

  pub Keeps-share :
      (g : Gossiper) (facts : Option (String × Bytes × ℕ))
      → Sound g
      → Keeps (process_client_to_share g facts)
  unfolding process_client_to_share
  Keeps-share g none s = s
  Keeps-share g (some (name, metafile_hash, size)) s =
      let (bm', is_new, run, v) =
        add_transaction-IsValid sha Seen g.blockchain_manager (shared_tx name metafile_hash size)
          s.chain in
      rw run (record { storage = s.storage; chain = v; files = s.files })

  pub Keeps-client_data :
      (g : Gossiper) (m : ClientToDownloadMessage)
      → Sound g
      → Keeps (process_client_data_request g m)
  unfolding process_client_data_request
  Keeps-client_data g m s =
      let started =
        start_downloading_from_origin g.downloading_files_manager m.destination m.name
          m.hash_value in
      let started_files =
        start-IsDownloader sha g.downloading_files_manager m.destination m.name m.hash_value
          s.files.2 in
      let going : Sound (start_loop g started.0 m.destination m.hash_value) = record {
        storage = s.storage;
        chain = s.chain;
        files = (s.files.0, s.files.1, started_files);
      } in
      ite_both Keeps (string_discrete m.destination "") _ _ (λ e. found g.current_search_request)
        (if_both Keeps started.1
          (ok (
            start_loop g started.0 m.destination m.hash_value,
            request_data g m.destination m.hash_value,
          ))
          (ok (g, [])) going s)
    where
      asked : (o : Option ToDownload) → Sound (ask_local_port g o)
      asked none = s
      asked (some message) = record { storage = s.storage; chain = s.chain; files = s.files }

      found :
          (o : Option CurrentSearchRequest)
          → Keeps (elim o [
            | none ↦ panic
            | some csr ↦ ok (ask_local_port g (download_file_by_hash csr m.hash_value m.name), [])
          ])
      found none = tt
      found (some csr) = asked (download_file_by_hash csr m.hash_value m.name)

  pub Sound-download_tick :
      (g : Gossiper) (origin : String) (l : DownloadLoop)
      → Sound g
      → Sound (download_tick g origin l).0
  unfolding download_tick
  Sound-download_tick g origin l s =
      let dropped = drop-IsDownloader sha g.downloading_files_manager origin s.files.2 in
      if_both (λ (r : Gossiper × Sends). Sound r.0) (leb (l.timeouts_limit - 1) 0)
        (
          record (end_loop g origin) {
            downloading_files_manager = drop_downloading g.downloading_files_manager origin;
          },
          [],
        )
        (
          with_loop g origin (record l { timeouts_limit = l.timeouts_limit - 1 }),
          request_data g origin l.latest_requested_hash,
        )
        (record { storage = s.storage; chain = s.chain; files = (s.files.0, s.files.1, dropped) })
        (record { storage = s.storage; chain = s.chain; files = s.files })

  go_on-Sound :
      (pick : ℕ) (g : Gossiper) (origin : String) (l : DownloadLoop) (answer : Option Bool)
      → Sound g
      → Sound (go_on pick g origin l answer).0
  go_on-Sound pick g origin l none s = s
  go_on-Sound pick g origin l (some true) s = record {
    storage = s.storage;
    chain = s.chain;
    files = s.files;
  }
  go_on-Sound pick g origin l (some false) s =
      asked (get_data_request_hash pick g.downloading_files_manager origin)
    where
      asked :
          (o : Option Bytes)
          → Sound
              (ask_next g origin (record l { timeouts_limit = file_download_timeouts_limit }) o).0
      asked none = record { storage = s.storage; chain = s.chain; files = s.files }
      asked (some h) = record { storage = s.storage; chain = s.chain; files = s.files }

  pub Sound-download_reply :
      (dir_exists : Bool) (pick : ℕ) (g : Gossiper) (origin : String) (l : DownloadLoop)
      (m : DataReply)
      → Sound g
      → Sound (download_reply sha dir_exists pick g origin l m).0
  unfolding download_reply
  Sound-download_reply dir_exists pick g origin l m s =
      let replied =
        process_data_reply-IsDownloader sha dir_exists g.downloading_files_manager origin
          m.hash_value m.payload s.files.2 in
      let done =
        process_data_reply sha dir_exists g.downloading_files_manager origin m.hash_value
          m.payload in
      go_on-Sound pick (record g { downloading_files_manager = done.0 }) origin l done.1
        (record { storage = s.storage; chain = s.chain; files = (s.files.0, s.files.1, replied) })
