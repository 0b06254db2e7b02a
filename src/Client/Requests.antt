-- ===== src/Client/Requests.antt =====
-- The messages that a client sends: client/main.go and utils/send-utils/SendUtils.go.
use decentralized_peerster.Common.{
  ℕ, ◌+◌, ◌≡◌, refl, Bool, true, false, not, ◌&&◌, ◌==◌, List, Option, none, some, String, Bytes,
  length, if_both, ==_iff, Bool-cases, inl, inr,
}
use decentralized_peerster.Models.{ClientMessage, ClientToDownloadMessage}
use decentralized_peerster.Blockchain.Transactions.{is_some}
use decentralized_peerster.Files.{get_type_strict_hash}
use decentralized_peerster.Client.{
  Flags, client_main, send_private_message, send_rumor_message, send_to_share_message,
  send_to_search_message, is_empty_string, send_to_download_message, download_typed, typed_hash,
}

abbrev set : Bool → ℕ
set true = 1
set false = 0

-- How many fields are set.
abbrev pub fields : ClientMessage → ℕ
fields m =
    set (is_some m.client_rumor)
    + set (is_some m.route_rumor)
    + set (is_some m.client_private)
    + set (is_some m.to_share)
    + set (is_some m.to_download)
    + set (is_some m.to_search)

abbrev pub IsSized : Option ClientToDownloadMessage → Type 0
IsSized none = Unit
IsSized (some d) = length d.hash_value ≡ 32

-- One field is set, and a hash has 32 bytes.
abbrev pub IsRequest : ClientMessage → Type 0
IsRequest m = (fields m ≡ 1) × IsSized m.to_download

abbrev pub IsSent : Option ClientMessage → Type 0
IsSent none = Unit
IsSent (some m) = IsRequest m

pub send_to_download_message-IsSent :
    (decode_string : String → Option Bytes) (name hash_string destination : String)
    → IsSent (send_to_download_message decode_string name hash_string destination)
unfolding send_to_download_message
send_to_download_message-IsSent decode_string name hash_string destination =
    typed (decode_string hash_string)
  where
    typed : (o : Option Bytes) → IsSent (download_typed name destination (typed_hash o))
    typed none = tt
    typed (some h) = elim (Bool-cases (length h == 32)) [
      | inr other ↦ rw (typed_hash, get_type_strict_hash, other) tt
      | inl sized ↦
          rw (typed_hash, get_type_strict_hash, sized) (refl, (==_iff (length h) 32).0 sized)
    ]

sent : (m : ClientMessage) → IsRequest m → IsSent (some m)
sent m request = request

unsent : IsSent none
unsent = tt

-- Whatever flags are given, a message that the client sends has exactly one field set, and a hash
-- in it has 32 bytes.
pub client_main-IsSent :
    (decode_string : String → Option Bytes) (split : String → String → List String) (f : Flags)
    → IsSent (client_main decode_string split f)
unfolding client_main
client_main-IsSent decode_string split f =
    if_both IsSent (not (is_empty_string f.dest) && not (is_empty_string f.msg))
      (some (send_private_message f.msg f.dest)) _
      (sent (send_private_message f.msg f.dest) (refl, tt))
      (if_both IsSent (not (is_empty_string f.msg)) (some (send_rumor_message f.msg)) _
        (sent (send_rumor_message f.msg) (refl, tt))
        (if_both IsSent (not (is_empty_string f.request) && not (is_empty_string f.file)) _ _
          (send_to_download_message-IsSent decode_string f.file f.request f.dest)
          (if_both IsSent (not (is_empty_string f.file)) (some (send_to_share_message f.file)) _
            (sent (send_to_share_message f.file) (refl, tt))
            (if_both IsSent (not (is_empty_string f.keywords))
              (some (send_to_search_message (split f.keywords ",") f.budget)) none
              (sent (send_to_search_message (split f.keywords ",") f.budget) (refl, tt)) unsent))))
