-- ===== src/Search.antt =====
-- models/filesearching: the search that this gossiper runs at the moment.
pub mod Matches
use decentralized_peerster.Common.{
  ℕ, Bool, true, false, ◌&&◌, List, [], ◌∷◌, ◌++◌, Option, none, some, String, string_discrete,
  Bytes, bytes_discrete, ite, length, if◌then◌else◌, map,
}
use decentralized_peerster.Models.{SearchReply}

pub record FullSearchMatch : Type 0 where
  pub filename : String
  pub origin : String
  pub metafile_hash : Bytes

-- `inbox` is what stands in the channel to the goroutine of the search.
pub record CurrentSearchRequest : Type 0 where
  pub inbox : List SearchReply
  pub full_matches : List FullSearchMatch
  pub is_alive : Bool

abbrev pub init_current_search_request : CurrentSearchRequest
init_current_search_request = record { inbox = []; full_matches = []; is_alive = true }

-- The channel is unbuffered, and the reply is sent under the mutex of the request. A step of the
-- model is one whose send is taken: the reply waits in `inbox` for the step that takes it.
unfoldable pub forward_search_reply : CurrentSearchRequest → SearchReply → CurrentSearchRequest
forward_search_reply csr srp =
    if csr.is_alive then record csr { inbox = csr.inbox ++ srp ∷ [] } else csr

abbrev pub same_match : FullSearchMatch → FullSearchMatch → Bool
same_match a b =
    ite (string_discrete a.origin b.origin)
      (ite (bytes_discrete a.metafile_hash b.metafile_hash) true false) false

-- The loop of `AddFullMatch`.
unfoldable pub has_match : List FullSearchMatch → FullSearchMatch → Bool
has_match [] match = false
has_match (other ∷ others) match = if same_match other match then true else has_match others match

unfoldable pub add_full_match : CurrentSearchRequest → FullSearchMatch → CurrentSearchRequest
add_full_match csr match =
    if has_match csr.full_matches match
    then csr
    else record csr { full_matches = csr.full_matches ++ match ∷ [] }

abbrev pub get_full_matches_number : CurrentSearchRequest → ℕ
get_full_matches_number csr = length csr.full_matches

-- A request for a download that is sent to the local port: name, hash and destination.
pub record ToDownload : Type 0 where
  pub name : String
  pub destination : String
  pub hash_value : Bytes

download_loop_by_hash : List FullSearchMatch → Bytes → String → Option ToDownload
download_loop_by_hash [] metahash name = none
download_loop_by_hash (m ∷ ms) metahash name =
    ite (bytes_discrete m.metafile_hash metahash)
      (some (record { name = name; destination = m.origin; hash_value = m.metafile_hash }))
      (download_loop_by_hash ms metahash name)

unfoldable pub download_file_by_hash : CurrentSearchRequest → Bytes → String → Option ToDownload
unfolding download_loop_by_hash
download_file_by_hash csr metahash name = download_loop_by_hash csr.full_matches metahash name

download_loop_by_name : List FullSearchMatch → String → String → Option ToDownload
download_loop_by_name [] filename name = none
download_loop_by_name (m ∷ ms) filename name =
    ite (string_discrete m.filename filename)
      (some (record { name = name; destination = m.origin; hash_value = m.metafile_hash }))
      (download_loop_by_name ms filename name)

unfoldable pub download_file_by_name : CurrentSearchRequest → String → String → Option ToDownload
unfolding download_loop_by_name
download_file_by_name csr filename name = download_loop_by_name csr.full_matches filename name

abbrev pub shutdown : CurrentSearchRequest → CurrentSearchRequest
shutdown csr = record csr { is_alive = false }

unfoldable pub get_full_matches : CurrentSearchRequest → List String
get_full_matches csr = map (λ m. m.filename) csr.full_matches
