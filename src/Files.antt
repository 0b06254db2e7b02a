-- ===== src/Files.antt =====
-- models/filesharing/SharedFile.go and DownloadingFile.go: a file in chunks of 8 KB, the metafile of
-- their hashes, and the state of a download. The files of a chunk directory are a map from the hash
-- that names them; what the file system answers is an argument.
pub mod Chunks
pub mod Download
pub mod Sharing
pub mod Downloading
pub mod Transfer
pub mod Merkle
use decentralized_peerster.Common.{
  ℕ, ◌+◌, ◌*◌, ◌/◌, ◌%◌, Bool, true, false, not, ◌==◌, ◌||◌, ltb, List, [], ◌∷◌, ◌++◌, Option, none,
  some, String, Bytes, bytes_key, bytes_discrete, ite, if◌then◌else◌, length,
}
use decentralized_peerster.Map.{Map, lookup, insert, delete}
use decentralized_peerster.Hashing.{Sha}
use decentralized_peerster.Blockchain.Transactions.{is_some}

abbrev pub file_chunk_size : ℕ
file_chunk_size = 8 * 1024

abbrev pub max_file_size : ℕ
max_file_size = (file_chunk_size / 32) * file_chunk_size

-- `GetTypeStrictHash` makes an array of a slice of 32 bytes; none is the error.
abbrev pub get_type_strict_hash : Bytes → Option Bytes
get_type_strict_hash hash_value = if length hash_value == 32 then some hash_value else none

-- The loop over the bytes of a file of `n` bytes, at index `i`.
unfoldable pub split_loop : (size n i : ℕ) → Bytes → Bytes → List Bytes
split_loop size n i cur_chunk [] = []
split_loop size n i cur_chunk (b ∷ bs) =
    let grown = cur_chunk ++ b ∷ [] in
    let full = (i + 1) % size == 0 || (i + 1) == n in
    let rest = split_loop size n (i + 1) (if full then [] else grown) bs in
    if full then grown ∷ rest else rest

abbrev pub split : Bytes → List Bytes
split file_bytes = split_loop file_chunk_size (length file_bytes) 0 [] file_bytes

abbrev pub concat : List Bytes → Bytes
concat [] = []
concat (c ∷ cs) = c ++ concat cs

-- A set of hashes is a map to the unit type.
abbrev pub HashSet : Type 0
HashSet = Map Bytes (Unit {0})

abbrev pub hashes : Sha → List Bytes → List Bytes
hashes sha [] = []
hashes sha (c ∷ cs) = sha.sum256 c ∷ hashes sha cs

abbrev pub add_all : List Bytes → HashSet → HashSet
add_all [] set = set
add_all (h ∷ hs) set = add_all hs (insert h tt set)

abbrev pub write_chunks : Sha → List Bytes → Map Bytes Bytes → Map Bytes Bytes
write_chunks sha [] disk = disk
write_chunks sha (c ∷ cs) disk = write_chunks sha cs (insert (sha.sum256 c) c disk)

pub record SharedFile : Type 0 where
  pub name : String
  pub size : ℕ
  pub meta_hash : Bytes
  pub meta_slice : Bytes
  pub meta_set : HashSet
  pub disk : Map Bytes Bytes

-- `is_shared` says that the directory for the chunks exists, `file_bytes` what was read.
unfoldable pub share_file : Sha → String → Bool → Option Bytes → Option SharedFile
share_file sha name true file_bytes = none
share_file sha name false none = none
share_file sha name false (some file_bytes) =
    let chunks = split file_bytes in
    if ltb max_file_size (length file_bytes)
    then none
    else some (record {
      name = name;
      size = length file_bytes;
      meta_hash = sha.sum256 (concat (hashes sha chunks));
      meta_slice = concat (hashes sha chunks);
      meta_set = add_all (hashes sha chunks) [];
      disk = write_chunks sha chunks [];
    })

-- `disk` has the chunk files, `composed` the file that was written at the end.
pub record DownloadingFile : Type 0 where
  pub name : String
  pub meta_hash : Bytes
  pub metafile : Option Bytes
  pub chunks_hashes_slice : List Bytes
  pub chunks_hashes_set : HashSet
  pub chunks_to_download : HashSet
  pub disk : Map Bytes Bytes
  pub composed : Option Bytes

unfoldable pub init_downloading_file : String → Bytes → DownloadingFile
init_downloading_file name metahash = record {
  name = name;
  meta_hash = metahash;
  metafile = none;
  chunks_hashes_slice = [];
  chunks_hashes_set = [];
  chunks_to_download = [];
  disk = [];
  composed = none;
}

-- The loop over the metafile; `current` is what `currentChunk` has of the next hash.
unfoldable pub parse_loop : ℕ → Bytes → Bytes → List Bytes
parse_loop i current [] = []
parse_loop i current (b ∷ bs) =
    let grown = current ++ b ∷ [] in
    let full = (i + 1) % 32 == 0 in
    let rest = parse_loop (i + 1) (if full then [] else grown) bs in
    if full then grown ∷ rest else rest

-- The fields are set before the test for the directory of the chunks.
unfoldable pub got_metafile : Bool → DownloadingFile → Bytes → Bytes → DownloadingFile × Bool
got_metafile dir_exists df hash_value metafile =
    let slice = parse_loop 0 [] metafile in
    if not (length metafile % 32 == 0)
    then (df, false)
    else ite (bytes_discrete hash_value df.meta_hash)
        (
          record df {
            metafile = some metafile;
            chunks_hashes_slice = slice;
            chunks_hashes_set = add_all slice [];
            chunks_to_download = add_all slice [];
          },
          not dir_exists,
        )
        (df, false)

-- A chunk that is missing ends `finishDownloading`, and no file is written.
abbrev pub append_chunk : Option Bytes → Option Bytes → Option Bytes
append_chunk none rest = none
append_chunk (some chunk) none = none
append_chunk (some chunk) (some rest) = some (chunk ++ rest)

-- The loop of `finishDownloading`.
unfoldable pub compose : List Bytes → Map Bytes Bytes → Option Bytes
compose [] disk = some []
compose (h ∷ hs) disk = append_chunk (lookup h disk) (compose hs disk)

-- `some true` says that the download is finished, and `none` that the request is to be repeated.
abbrev pub check_finished : HashSet → DownloadingFile → DownloadingFile × Option Bool
check_finished [] df = (record df { composed = compose df.chunks_hashes_slice df.disk }, some true)
check_finished (_ ∷ _) df = (df, some false)

unfoldable pub take_chunk : DownloadingFile → Bytes → Bytes → DownloadingFile × Option Bool
take_chunk df hash_value payload =
    let left = delete hash_value df.chunks_to_download in
    if not (is_some (lookup hash_value df.chunks_to_download))
    then (df, some false)
    else check_finished left
        (record df { chunks_to_download = left; disk = insert hash_value payload df.disk })

unfoldable pub process_data_reply :
    Sha → Bool → DownloadingFile → Bytes → Bytes → DownloadingFile × Option Bool
process_data_reply sha dir_exists df hash_value payload =
    let got = got_metafile dir_exists df hash_value payload in
    if not (length hash_value == 32)
    then (df, none)
    else ite (bytes_discrete (sha.sum256 payload) hash_value)
        (if is_some df.metafile
          then take_chunk df hash_value payload
          else (got.0, if got.1 then some false else none))
        (df, none)
