-- ===== src/Gossiper/Dispatch/Frames.antt =====
-- Which handlers of gossiper/Gossiper.go leave the message storage, the blockchain manager, the
-- two managers of files and the peers alone.
use decentralized_peerster.Common.{
  ℕ, ◌≡◌, ◌≢◌, refl, Bool, true, false, List, [], ◌∷◌, Option, none, some, String, string_discrete,
  string_key, bytes_key, Bytes, Outcome, ok, if◌then◌else◌, arith, Bool-cases, inl, inr, length,
  ◌==◌, ◌++◌, ◌+◌, ◌-◌, ◌%◌, Option-cases,
}
use decentralized_peerster.Map.{lookup}
use decentralized_peerster.Models.{
  RumorMessage, StatusPacket, DataRequest, DataReply, SearchReply, SearchRequest, SearchResult,
}
use decentralized_peerster.Storage.{get_current_status_packet}
use decentralized_peerster.Storage.Invariant.{IsValid}
use decentralized_peerster.Storage.Diff.{diff-DiffSpec}
use decentralized_peerster.Gossiper.{Address, Gossiper, Sends}
use decentralized_peerster.Gossiper.Routing.{
  process_data_request, process_data_reply, process_addressed_search_reply,
}
use decentralized_peerster.Gossiper.Budget.{
  int_range, not_positive, int_div, residual_above_zero, share_budget, search_reply, send_further,
  process_search_request,
}
use decentralized_peerster.Gossiper.Budget.Shares.{length-ne-zero}
use decentralized_peerster.Gossiper.Searching.{
  set_key, recently_answered, process_client_search_request, process_addressed_search_request,
}
use decentralized_peerster.Gossiper.Rumors.{
  status_packet, spread_to, answer_status, pass_status, process_addressed_status_packet,
}

pub record Frame (g g' : Gossiper) : Type 0 where
  pub storage : g'.message_storage ≡ g.message_storage
  pub chain : g'.blockchain_manager ≡ g.blockchain_manager
  pub peers : g'.peers ≡ g.peers
  pub shared : g'.shared_files_manager ≡ g.shared_files_manager
  pub downloading : g'.downloading_files_manager ≡ g.downloading_files_manager

-- The handler ends, and leaves these parts alone.
abbrev pub Framed : Gossiper → Outcome (Gossiper × Sends) → Type 0
Framed g o = (g' : Gossiper) × (sent : Sends) × (o ≡ ok (g', sent)) × Frame g g'

pub Frame-refl : (g : Gossiper) → Frame g g
Frame-refl g = record {
  storage = refl;
  chain = refl;
  peers = refl;
  shared = refl;
  downloading = refl;
}

pub spread_to-Frame :
    (g : Gossiper) (rmsg : RumorMessage) (peer : Address) → Frame g (spread_to g rmsg peer).0
unfolding spread_to
spread_to-Frame g rmsg peer = record {
  storage = ground arith;
  chain = ground arith;
  peers = ground arith;
  shared = ground arith;
  downloading = ground arith;
}

pub data_request-Frame :
    (shared downloaded : Bytes → Option Bytes) (g : Gossiper) (m : DataRequest)
    → Frame g (process_data_request shared downloaded g m).0
unfolding process_data_request
data_request-Frame shared downloaded g m = record {
  storage = ground arith;
  chain = ground arith;
  peers = ground arith;
  shared = ground arith;
  downloading = ground arith;
}

pub data_reply-Frame : (g : Gossiper) (m : DataReply) → Frame g (process_data_reply g m).0
unfolding process_data_reply
data_reply-Frame g m = record {
  storage = ground arith;
  chain = ground arith;
  peers = ground arith;
  shared = ground arith;
  downloading = ground arith;
}

pub search_reply-Frame :
    (g : Gossiper) (m : SearchReply) → Frame g (process_addressed_search_reply g m).0
unfolding process_addressed_search_reply
search_reply-Frame g m = record {
  storage = ground arith;
  chain = ground arith;
  peers = ground arith;
  shared = ground arith;
  downloading = ground arith;
}

pub client_search-Frame :
    (g : Gossiper) (keywords : List String) (budget : ℕ)
    → Frame g (process_client_search_request g keywords budget).0
unfolding process_client_search_request
client_search-Frame g keywords budget = record {
  storage = ground arith;
  chain = ground arith;
  peers = ground arith;
  shared = ground arith;
  downloading = ground arith;
}

-- The next rumor, a status, or what `in_sync` does.
pub answer_status-Framed :
    (g : Gossiper) (sp : StatusPacket) (address : Address) (in_sync : Outcome (Gossiper × Sends))
    → IsValid g.message_storage
    → Framed g in_sync
    → Framed g (answer_status g sp address in_sync)
answer_status-Framed g sp address in_sync v quiet =
    let (m, f, e, _) = diff-DiffSpec g.message_storage sp v in rw e (cases m f)
  where
    cases :
        (m : Option RumorMessage) (f : Bool)
        → Framed g (elim m [
          | some rmsg ↦ ok (spread_to g rmsg address)
          | none ↦
              if f
              then ok
                  (g, (address, status_packet (get_current_status_packet g.message_storage)) ∷ [])
              else in_sync
        ])
    cases (some rmsg) f = (_, _, refl, spread_to-Frame g rmsg address)
    cases none true = (_, _, refl, Frame-refl g)
    cases none false = quiet

pub status_packet-Framed :
    (g : Gossiper) (sp : StatusPacket) (address : Address)
    → IsValid g.message_storage
    → Framed g (process_addressed_status_packet g sp address)
unfolding process_addressed_status_packet
status_packet-Framed g sp address v = elim (Option-cases (lookup address g.status_channels)) [
  | inl gone ↦
      rw (process_addressed_status_packet, gone)
        (answer_status-Framed g sp address (ok (g, [])) v (g, [], refl, Frame-refl g))
  | inr (rmsg, at) ↦
      rw (process_addressed_status_packet, at)
        (
          pass_status g sp address rmsg,
          [],
          refl,
          record { storage = refl; chain = refl; peers = refl; shared = refl; downloading = refl },
        )
]

-- A search request is passed on or dropped.
further_total :
    (g : Gossiper) (m : SearchRequest) (budget : ℕ)
    → g.peers ≢ []
    → (sent : Sends) × (send_further g m budget ≡ ok sent)
unfolding send_further
further_total g m budget some_peer =
    let nz : (length g.peers == 0) ≡ false = ground (arith, length-ne-zero g.peers some_peer) in
    let n = length g.peers in
    (share_budget m (int_div budget n) (residual_above_zero budget n) g.peers, rw nz refl)

pub search_total :
    (matched : List String → List SearchResult) (g : Gossiper) (m : SearchRequest)
    → g.peers ≢ []
    → (sent : Sends) × (process_search_request matched g m ≡ ok sent)
unfolding process_search_request
search_total matched g m some_peer =
    let own = further_total g m m.budget some_peer in
    let budget = (m.budget + int_range - 1) % int_range in
    let other = further_total g m budget some_peer in
    let reply = search_reply g m (matched m.keywords) in
    elim (string_discrete m.origin g.name) [
      | yes e ↦ (own.0, ground (arith, own.1))
      | no ne ↦ elim (Bool-cases (not_positive budget)) [
        | inl low ↦ (reply, ground (arith, low))
        | inr high ↦ (reply ++ other.0, ground (arith, high, other.1))
      ]
    ]

pub search_request-Framed :
    (matched : List String → List SearchResult) (g : Gossiper) (m : SearchRequest)
    → g.peers ≢ []
    → Framed g (process_addressed_search_request matched g m)
unfolding process_addressed_search_request
search_request-Framed matched g m some_peer =
    let g' = record g { recent_search_requests = set_key m ∷ g.recent_search_requests } in
    let sent = search_total matched g' m some_peer in
    elim (Bool-cases (recently_answered g.recent_search_requests (set_key m))) [
      | inl known ↦ rw known (g, [], refl, Frame-refl g)
      | inr new ↦ rw new (
          rw sent.1 (
            g',
            sent.0,
            refl,
            record {
              storage = refl;
              chain = refl;
              peers = refl;
              shared = refl;
              downloading = refl;
            },
          ))
    ]
