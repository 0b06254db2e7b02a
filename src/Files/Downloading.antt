-- ===== src/Files/Downloading.antt =====
-- models/filesharing/DownloadingFilesManager.go, and the methods of DownloadingFile.go that read a
-- file that is or was downloaded.
pub mod Sound
use decentralized_peerster.Common.{
  ℕ, zero, suc, ◌+◌, Bool, true, false, not, ◌&&◌, ◌||◌, List, [], ◌∷◌, ◌++◌, Option, none, some,
  String, Bytes, string_key, bytes_key, bytes_discrete, ite, if◌then◌else◌, length,
}
use decentralized_peerster.Map.{Map, lookup, insert, delete}
use decentralized_peerster.Models.{SearchResult}
use decentralized_peerster.Hashing.{Sha}
use decentralized_peerster.Blockchain.Transactions.{is_some}
use decentralized_peerster.Files.{
  HashSet, DownloadingFile, init_downloading_file, get_type_strict_hash,
  process_data_reply as process_file_reply,
}
use decentralized_peerster.Files.Sharing.{keyword_pattern, is_match}

unfoldable pub file_has_downloaded_chunk : DownloadingFile → Bytes → Bool
file_has_downloaded_chunk df hash_value =
    if not (is_some df.metafile)
    then false
    else ite (bytes_discrete df.meta_hash hash_value) true (
        is_some (lookup hash_value df.chunks_hashes_set)
        && not (is_some (lookup hash_value df.chunks_to_download)))

unfoldable pub file_chunk_or_metafile : DownloadingFile → Bytes → Option Bytes
file_chunk_or_metafile df hash_value =
    ite (bytes_discrete hash_value df.meta_hash) df.metafile
      (if file_has_downloaded_chunk df hash_value then lookup hash_value df.disk else none)

abbrev pub or_key : Bytes → Option Bytes → Option Bytes
or_key h none = some h
or_key h (some k) = some k

-- The key at a position, the last one past the end.
unfoldable pub key_at : ℕ → HashSet → Option Bytes
key_at _ [] = none
key_at zero ((h, _) ∷ _) = some h
key_at (suc i) ((h, _) ∷ m) = or_key h (key_at i m)

-- The first key that `range` comes to, which Go leaves open: its position is the number that is
-- picked.
abbrev pub get_data_request : ℕ → DownloadingFile → Option Bytes
get_data_request pick df = key_at pick df.chunks_to_download

-- The numbers, from `i + 1` on, of the hashes that are not to be downloaded.
unfoldable pub downloaded_numbers : HashSet → ℕ → List Bytes → List ℕ
downloaded_numbers left i [] = []
downloaded_numbers left i (h ∷ hs) =
    let rest = downloaded_numbers left (i + 1) hs in
    if is_some (lookup h left) then rest else (i + 1) ∷ rest

abbrev pub downloading_result : DownloadingFile → SearchResult
downloading_result df = record {
  file_name = df.name;
  metafile_hash = df.meta_hash;
  chunk_map = downloaded_numbers df.chunks_to_download 0 df.chunks_hashes_slice;
  chunk_count = length df.chunks_hashes_slice;
}

module _ (match_string : String → String → Option Bool) where
  unfoldable pub downloading_search_results : DownloadingFile → List String → List SearchResult
  downloading_search_results df [] = []
  downloading_search_results df (kw ∷ keywords) =
      let rest = downloading_search_results df keywords in
      if is_match (match_string (keyword_pattern kw) df.name)
      then downloading_result df ∷ rest
      else rest

  downloading_results_of :
      {K : Type 0} → List (K × DownloadingFile) → List String → List SearchResult
  downloading_results_of [] keywords = []
  downloading_results_of ((_, df) ∷ dfs) keywords =
      downloading_search_results df keywords ++ downloading_results_of dfs keywords

pub record DownloadingFilesManager : Type 0 where
  pub downloading_files : Map String DownloadingFile
  pub downloaded_files : Map Bytes DownloadingFile

abbrev pub init_downloading_files_manager : DownloadingFilesManager
init_downloading_files_manager = record { downloading_files = []; downloaded_files = [] }

unfoldable pub start_downloading_from_origin :
    DownloadingFilesManager → String → String → Bytes → DownloadingFilesManager × Bool
start_downloading_from_origin dfm origin file_name metahash =
    let df = init_downloading_file file_name metahash in
    if is_some (lookup origin dfm.downloading_files)
    then (dfm, false)
    else (record dfm { downloading_files = insert origin df dfm.downloading_files }, true)

-- A file that is finished moves to the downloaded ones.
abbrev pub settle_file :
    DownloadingFilesManager → String → DownloadingFile → Option Bool → DownloadingFilesManager
settle_file dfm origin df (some true) = record {
  downloading_files = delete origin dfm.downloading_files;
  downloaded_files = insert df.meta_hash df dfm.downloaded_files;
}
settle_file dfm origin df _ = record dfm {
  downloading_files = insert origin df dfm.downloading_files;
}

unfoldable pub process_data_reply :
    Sha
    → Bool
    → DownloadingFilesManager
    → String
    → Bytes
    → Bytes
    → DownloadingFilesManager × Option Bool
process_data_reply sha dir_exists dfm origin hash_value payload =
    elim (lookup origin dfm.downloading_files) [
      | none ↦ (dfm, none)
      | some df ↦
          let done = process_file_reply sha dir_exists df hash_value payload in
          (settle_file dfm origin done.0 done.1, done.1)
    ]

unfoldable pub get_data_request_hash : ℕ → DownloadingFilesManager → String → Option Bytes
get_data_request_hash pick dfm origin = elim (lookup origin dfm.downloading_files) [
  | none ↦ none
  | some df ↦ get_data_request pick df
]

abbrev pub drop_downloading : DownloadingFilesManager → String → DownloadingFilesManager
drop_downloading dfm origin = record dfm { downloading_files = delete origin dfm.downloading_files }

-- A loop over one of the two maps; `some` of what the first file answers that has the chunk.
unfoldable pub find_downloaded :
    {K : Type 0} → List (K × DownloadingFile) → Bytes → Option (Option Bytes)
find_downloaded [] hash_value = none
find_downloaded ((_, df) ∷ dfs) hash_value =
    if file_has_downloaded_chunk df hash_value
    then some (file_chunk_or_metafile df hash_value)
    else find_downloaded dfs hash_value

abbrev or_none : Option (Option Bytes) → Option Bytes → Option Bytes
or_none none rest = rest
or_none (some found) rest = found

abbrev find_typed : DownloadingFilesManager → Option Bytes → Option Bytes
find_typed dfm none = none
find_typed dfm (some typed) =
    or_none (find_downloaded dfm.downloading_files typed)
      (or_none (find_downloaded dfm.downloaded_files typed) none)

unfoldable pub get_chunk_or_metafile : DownloadingFilesManager → Bytes → Option Bytes
get_chunk_or_metafile dfm hash_value = find_typed dfm (get_type_strict_hash hash_value)

unfoldable pub get_search_results :
    (match_string : String → String → Option Bool)
    → DownloadingFilesManager
    → List String
    → List SearchResult
unfolding downloading_results_of
get_search_results match_string dfm keywords =
    downloading_results_of match_string dfm.downloading_files keywords
    ++ downloading_results_of match_string dfm.downloaded_files keywords
