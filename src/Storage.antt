-- ===== src/Storage.antt =====
-- models/MessageStorage.go: the vector clock, the rumors of each origin, the chronicle that the
-- frontend shows, and the private messages. Each method holds the mutex from its start to its
-- end, so it is one step on the state.
pub mod Laws
pub mod Invariant
pub mod Theirs
pub mod Diff
pub mod Sync
pub mod Converge
use decentralized_peerster.Common.{
  ℕ, ◌+◌, String, Bool, true, false, ◌||◌, Option, none, some, List, [], ◌∷◌, ◌++◌, map, ltb, ◌==◌,
  if◌then◌else◌, ite, string_discrete, string_key, get_elem?, Outcome, ok, panic, ◌>>=◌, guard_some,
  not,
}
use decentralized_peerster.Map.{Map, lookup, insert, get_or}
use decentralized_peerster.Models.{
  RumorMessage, PeerStatus, StatusPacket, PrivateMessage, dec32, inc32,
}

pub record MessageStorage : Type 0 where
  pub vector_clock : Map String ℕ
  pub rumor_messages : Map String (List RumorMessage)
  pub non_empty_messages_chron_order : List RumorMessage
  pub private_messages : List PrivateMessage

abbrev pub init_message_storage : MessageStorage
init_message_storage = record {
  vector_clock = [];
  rumor_messages = [];
  non_empty_messages_chron_order = [];
  private_messages = [];
}

-- `ms.VectorClock[name]` and `ms.RumorMessages[name]`, with Go's zero values.
abbrev pub clock_of : MessageStorage → String → ℕ
clock_of ms name = get_or name 0 ms.vector_clock

abbrev pub messages_of : MessageStorage → String → List RumorMessage
messages_of ms name = get_or name [] ms.rumor_messages

unfoldable pub get_next_message_id : MessageStorage → String → ℕ
get_next_message_id ms name = inc32 (clock_of ms name)

-- The body of the loop of `GetCurrentStatusPacket`.
abbrev pub peer_status : String × ℕ → PeerStatus
peer_status e = record { identifier = e.0; next_id = inc32 e.1 }

unfoldable pub get_current_status_packet : MessageStorage → StatusPacket
get_current_status_packet ms = record { want = map peer_status ms.vector_clock }

-- What a loop of `Diff` ends with: an early return, or the values of its variables.
pub data Scan : Type 0 where
  returned : RumorMessage → Bool → Scan
  finished : Map String ℕ → Bool → Scan

-- The first loop of `Diff`, over the peer's vector clock.
unfoldable pub scan_theirs : MessageStorage → List PeerStatus → Map String ℕ → Bool → Outcome Scan
scan_theirs ms [] others other_has = ok (Scan.finished others other_has)
scan_theirs ms (p ∷ ps) others other_has =
    let next_id = dec32 p.next_id in
    let mine = clock_of ms p.identifier in
    let rest =
      scan_theirs ms ps (insert p.identifier next_id others) (other_has || ltb mine next_id) in
    if ltb next_id mine
    then (do
      rmsg ← guard_some (get_elem? (messages_of ms p.identifier) next_id)
      ok (Scan.returned rmsg other_has))
    else rest

-- The second loop, over this peer's vector clock.
unfoldable pub scan_mine :
    MessageStorage → Map String ℕ → Map String ℕ → Bool → Outcome (Option RumorMessage × Bool)
scan_mine ms others [] other_has = ok (none, other_has)
scan_mine ms others ((name, next_id) ∷ es) other_has =
    let theirs = get_or name 0 others in
    let rest = scan_mine ms others es (other_has || ltb next_id theirs) in
    if ltb theirs next_id
    then (do rmsg ← guard_some (get_elem? (messages_of ms name) theirs); ok (some rmsg, other_has))
    else rest

scan_own : MessageStorage → Scan → Outcome (Option RumorMessage × Bool)
scan_own ms (Scan.returned rmsg other_has) = ok (some rmsg, other_has)
scan_own ms (Scan.finished others other_has) = scan_mine ms others ms.vector_clock other_has

unfoldable pub diff : MessageStorage → StatusPacket → Outcome (Option RumorMessage × Bool)
unfolding scan_own
diff ms sp = do scan ← scan_theirs ms sp.want [] false; scan_own ms scan

unfoldable pub is_new_message : MessageStorage → RumorMessage → Bool
is_new_message ms rmsg =
    let rmsg_id = dec32 rmsg.id in
    let mine = clock_of ms rmsg.original_name in
    if ltb rmsg_id mine then false else if rmsg_id == mine then true else false

-- `if ms.RumorMessages[origin] == nil { ms.RumorMessages[origin] = make(…) }`
ensure_origin : String → MessageStorage → MessageStorage
ensure_origin origin ms = elim (lookup origin ms.rumor_messages) [
  | none ↦ record ms { rumor_messages = insert origin [] ms.rumor_messages }
  | some _ ↦ ms
]

-- The branch of `AddRumorMessage` for the message that is next in turn.
store_rumor : RumorMessage → MessageStorage → MessageStorage
store_rumor rmsg ms = record ms {
  vector_clock = insert rmsg.original_name (inc32 (clock_of ms rmsg.original_name)) ms.vector_clock;
  rumor_messages =
      insert rmsg.original_name (messages_of ms rmsg.original_name ++ rmsg ∷ []) ms.rumor_messages;
  non_empty_messages_chron_order =
      ite (string_discrete rmsg.text "") ms.non_empty_messages_chron_order
        (ms.non_empty_messages_chron_order ++ rmsg ∷ []);
}

-- The messages that come out of order are dropped: the branch that fills the gap stands under
-- `if false` in the source.
unfoldable pub add_rumor_message : MessageStorage → RumorMessage → MessageStorage × Bool
unfolding ensure_origin store_rumor
add_rumor_message ms rmsg =
    let origin = rmsg.original_name in
    let ms' = ensure_origin origin ms in
    let rmsg_id = dec32 rmsg.id in
    if ltb rmsg_id (clock_of ms' origin)
    then (ms', false)
    else if rmsg_id == clock_of ms' origin
    then (store_rumor rmsg ms', true)
    else (ms', false)

unfoldable pub add_private_message :
    MessageStorage → PrivateMessage → String → MessageStorage × Bool
add_private_message ms pmsg current_gossiper_name =
    ite (string_discrete pmsg.destination current_gossiper_name)
      (record ms { private_messages = ms.private_messages ++ pmsg ∷ [] }, true) (ms, false)
