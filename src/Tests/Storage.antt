-- ===== src/Tests/Storage.antt =====
-- Runs of models/MessageStorage.go.
use Prim.Native.Nat.{max}
use decentralized_peerster.Common.{
  [], ◌∷◌, ◌++◌, ◌≡◌, ◌↔◌, ◌<◌, ◌≤◌, refl, ite, true, false, Option, none, arith, ok, String,
  string_discrete, string_key, Bool,
}
use decentralized_peerster.Map.{lookup, insert}
use decentralized_peerster.Models.{RumorMessage, inc32}
use decentralized_peerster.Storage.{
  MessageStorage, init_message_storage, clock_of, get_current_status_packet, scan_theirs, scan_mine,
  messages_of, diff, is_new_message, add_rumor_message,
}
use decentralized_peerster.Storage.Invariant.{
  IsValid, init_message_storage-IsValid, add_rumor_message-IsValid,
}
use decentralized_peerster.Storage.Theirs.{DiffSpec}
use decentralized_peerster.Storage.Diff.{diff-DiffSpec}
use decentralized_peerster.Storage.Sync.{diff-add_rumor_message, diff_in_sync, diff_behind}
use decentralized_peerster.Storage.Converge.{push_all, push_all-IsInSync}
use decentralized_peerster.Storage.Laws.{add_rumor_message-is_new}

program : Unit {0}
unfolding lookup insert string_discrete get_current_status_packet scan_theirs scan_mine diff
    is_new_message add_rumor_message
program = tt

abbrev first : RumorMessage
first = record { original_name = "alice"; id = 1; text = "hello" }

abbrev second : RumorMessage
second = record { original_name = "alice"; id = 2; text = "" }

abbrev one : MessageStorage
one = (add_rumor_message init_message_storage first).0

abbrev two : MessageStorage
two = (add_rumor_message one second).0

one-IsValid : IsValid one
one-IsValid =
    add_rumor_message-IsValid init_message_storage first (omega arith) init_message_storage-IsValid

add_rumor_message-IsValid_example : IsValid two
add_rumor_message-IsValid_example = add_rumor_message-IsValid one second (omega arith) one-IsValid

second_is_new : (add_rumor_message one second).1 ≡ is_new_message one second
second_is_new = add_rumor_message-is_new one second

diff-DiffSpec_example :
    (m : Option RumorMessage) × (f : Bool) × (diff two (get_current_status_packet one) ≡ ok (m, f))
    × DiffSpec two (get_current_status_packet one).want m f
diff-DiffSpec_example =
    diff-DiffSpec two (get_current_status_packet one) add_rumor_message-IsValid_example

diff-add_rumor_message_example :
    ((add_rumor_message one second).1 ≡ true)
    × ((name : String)
        → clock_of (add_rumor_message one second).0 name
          ≡ ite (string_discrete "alice" name) (inc32 (clock_of one name)) (clock_of one name))
    × ((name : String)
        → messages_of (add_rumor_message one second).0 name
          ≡ ite
              (string_discrete "alice" name)
              (messages_of one name ++ second ∷ [])
              (messages_of one name))
unfolding program
diff-add_rumor_message_example =
    diff-add_rumor_message two one add_rumor_message-IsValid_example one-IsValid second false refl

diff_in_sync_example :
    (diff one (get_current_status_packet one) ≡ ok (none, false))
    ↔ ((name : String) → clock_of one name ≡ clock_of one name)
diff_in_sync_example = diff_in_sync one one one-IsValid one-IsValid

one_behind :
    ((name : String) → clock_of one name ≤ clock_of two name)
    × ((name : String) × (clock_of one name < clock_of two name))
unfolding program
one_behind = diff_behind one two one-IsValid add_rumor_message-IsValid_example refl

abbrev of_bob : RumorMessage
of_bob = record { original_name = "bob"; id = 1; text = "hi" }

abbrev theirs : MessageStorage
theirs = (add_rumor_message init_message_storage of_bob).0

theirs-IsValid : IsValid theirs
theirs-IsValid =
    add_rumor_message-IsValid init_message_storage of_bob (omega arith) init_message_storage-IsValid

push_all-IsInSync_example :
    (a' : MessageStorage) × (b' : MessageStorage) × (push_all two theirs ≡ ok b')
    × (push_all b' two ≡ ok a')
    × IsValid a'
    × IsValid b'
    × ((name : String)
        → (clock_of a' name ≡ max (clock_of two name) (clock_of theirs name))
          × (clock_of b' name ≡ max (clock_of two name) (clock_of theirs name)))
    × (diff a' (get_current_status_packet b') ≡ ok (none, false))
push_all-IsInSync_example =
    push_all-IsInSync two theirs (add_rumor_message-IsValid one second (omega arith) one-IsValid)
      theirs-IsValid
