-- ===== src/Files/Sharing.antt =====
-- models/filesharing/SharedFilesManager.go, and the methods of SharedFile.go that read a shared file.
-- `match_string pattern text` stands for regexp.MatchString, and none for its error.
pub mod Answers
pub mod Stocked
pub mod Sizes
use Prim.Native.String.{◌++◌ as ◌+++◌}
use decentralized_peerster.Common.{
  ℕ, zero, suc, ◌+◌, Bool, true, false, List, [], ◌∷◌, ◌++◌, Option, none, some, String, Bytes,
  bytes_key, if◌then◌else◌, length,
}
use decentralized_peerster.Map.{Map, lookup, insert}
use decentralized_peerster.Models.{SearchResult}
use decentralized_peerster.Hashing.{Sha}
use decentralized_peerster.Blockchain.Transactions.{is_some}
use decentralized_peerster.Files.{SharedFile, get_type_strict_hash, share_file as share_path}

abbrev pub chunk_belongs_to_file : SharedFile → Bytes → Bool
chunk_belongs_to_file sf chunk_hash = is_some (lookup chunk_hash sf.meta_set)

-- A chunk that is not on the disk is a nil.
unfoldable pub get_chunk : SharedFile → Bytes → Option Bytes
get_chunk sf hash_value =
    if chunk_belongs_to_file sf hash_value then lookup hash_value sf.disk else none

-- The numbers from `i` on, as many as `n`.
abbrev pub numbers : ℕ → ℕ → List ℕ
numbers i zero = []
numbers i (suc n) = i ∷ numbers (i + 1) n

abbrev pub keyword_pattern : String → String
keyword_pattern kw = ".*" +++ kw +++ ".*"

abbrev pub is_match : Option Bool → Bool
is_match none = false
is_match (some res) = res

abbrev shared_result : SharedFile → SearchResult
shared_result sf = record {
  file_name = sf.name;
  metafile_hash = sf.meta_hash;
  chunk_map = numbers 1 (length sf.meta_set);
  chunk_count = length sf.meta_set;
}

module _ (match_string : String → String → Option Bool) where
  -- A result for each keyword that matches.
  unfoldable pub shared_search_results : SharedFile → List String → List SearchResult
  shared_search_results sf [] = []
  shared_search_results sf (kw ∷ keywords) =
      let rest = shared_search_results sf keywords in
      if is_match (match_string (keyword_pattern kw) sf.name) then shared_result sf ∷ rest else rest

  shared_results_of : List (Bytes × SharedFile) → List String → List SearchResult
  shared_results_of [] keywords = []
  shared_results_of ((_, sf) ∷ sfs) keywords =
      shared_search_results sf keywords ++ shared_results_of sfs keywords

pub record SharedFilesManager : Type 0 where
  pub shared_files : Map Bytes SharedFile

abbrev pub init_shared_files_manager : SharedFilesManager
init_shared_files_manager = record { shared_files = [] }

abbrev enter_file : SharedFilesManager → Option SharedFile → SharedFilesManager × Option SharedFile
enter_file sfm none = (sfm, none)
enter_file sfm (some sf) =
    if is_some (lookup sf.meta_hash sfm.shared_files)
    then (sfm, none)
    else (record sfm { shared_files = insert sf.meta_hash sf sfm.shared_files }, some sf)

-- The name, the hash and the size that ShareFile returns are those of the file.
unfoldable pub share_file :
    Sha → SharedFilesManager → String → Bool → Option Bytes → SharedFilesManager × Option SharedFile
share_file sha sfm name is_shared file_bytes =
    enter_file sfm (share_path sha name is_shared file_bytes)

unfoldable pub find_chunk : List (Bytes × SharedFile) → Bytes → Option Bytes
find_chunk [] hash_value = none
find_chunk ((_, sf) ∷ sfs) hash_value =
    if chunk_belongs_to_file sf hash_value
    then get_chunk sf hash_value
    else find_chunk sfs hash_value

abbrev find_metafile : SharedFilesManager → Bytes → Option SharedFile → Option Bytes
find_metafile sfm hash_value (some sf) = some sf.meta_slice
find_metafile sfm hash_value none = find_chunk sfm.shared_files hash_value

abbrev find_typed : SharedFilesManager → Option Bytes → Option Bytes
find_typed sfm none = none
find_typed sfm (some typed) = find_metafile sfm typed (lookup typed sfm.shared_files)

unfoldable pub get_chunk_or_metafile : SharedFilesManager → Bytes → Option Bytes
get_chunk_or_metafile sfm hash_value = find_typed sfm (get_type_strict_hash hash_value)

unfoldable pub get_search_results :
    (match_string : String → String → Option Bool)
    → SharedFilesManager
    → List String
    → List SearchResult
unfolding shared_results_of
get_search_results match_string sfm keywords =
    shared_results_of match_string sfm.shared_files keywords
