-- ===== src/Gossiper/Downloads/Shared.antt =====
-- A client's request for a file that another gossiper shares: gossiper/Gossiper.go,
-- processClientDataRequest and startFileDownloadingGoroutine.
use mathlib.Core.Path.{subst}
use decentralized_peerster.Common.{
  ℕ, suc, ◌≡◌, ◌≢◌, ◌≤◌, ◌⊎◌, refl, sym, ◌∙◌, ap, true, false, List, [], none, some, String,
  string_key, string_discrete, bytes_key, Bytes, ok, length, if_pos, if_neg,
}
use decentralized_peerster.Map.{lookup, insert, lookup-insert}
use decentralized_peerster.Models.{ClientToDownloadMessage}
use decentralized_peerster.Hashing.{Sha}
use decentralized_peerster.Files.{DownloadingFile, init_downloading_file, split, max_file_size}
use decentralized_peerster.Files.Sharing.{SharedFilesManager, share_file, get_chunk_or_metafile}
use decentralized_peerster.Files.Sharing.Answers.{IsSharer}
use decentralized_peerster.Files.Sharing.Stocked.{IsStocker}
use decentralized_peerster.Files.Downloading.{
  start_downloading_from_origin, DownloadingFilesManager,
}
use decentralized_peerster.Files.Transfer.{fetch}
use decentralized_peerster.Files.Transfer.Served.{metafile_of, Collision, fetch-share_file}
use decentralized_peerster.Gossiper.{Gossiper, DownloadLoop}
use decentralized_peerster.Gossiper.Downloads.{
  process_client_data_request, start_loop, request_data, file_download_timeouts_limit,
}
use decentralized_peerster.Gossiper.Downloads.Ends.{answered, IsEnded, answered-IsEnded}

abbrev first_loop : Bytes → DownloadLoop
first_loop hash = record {
  latest_requested_hash = hash;
  timeouts_limit = file_download_timeouts_limit;
}

module _ (g : Gossiper) (m : ClientToDownloadMessage) (named : m.destination ≢ "")
    (idle : lookup m.destination g.downloading_files_manager.downloading_files ≡ none) where
  abbrev begun_manager : DownloadingFilesManager
  begun_manager = record g.downloading_files_manager {
    downloading_files =
        insert m.destination (init_downloading_file m.name m.hash_value)
          g.downloading_files_manager.downloading_files;
  }

  abbrev begun_gossiper : Gossiper
  begun_gossiper = start_loop g begun_manager m.destination m.hash_value

  start-begun :
      start_downloading_from_origin g.downloading_files_manager m.destination m.name m.hash_value
      ≡ (begun_manager, true)
  unfolding start_downloading_from_origin
  start-begun = rw (start_downloading_from_origin, idle) refl

  request-begun :
      process_client_data_request g m
      ≡ ok (begun_gossiper, request_data g m.destination m.hash_value)
  unfolding process_client_data_request
  request-begun = rw (if_neg (string_discrete m.destination "") named, start-begun) refl

  here :
      {V : Type 0} (v : V) (vs : List (String × V))
      → lookup m.destination (insert m.destination v vs) ≡ some v
  here {V} v vs =
      lookup-insert {V = V} m.destination m.destination v vs
      ∙ if_pos (string_discrete m.destination m.destination) refl _ _

-- Let a sharer that holds the data of its hashes, and all chunks that it lists, share a non-empty
-- file of at most MaxFileSize bytes with a new metafile hash. If a client asks a gossiper, where
-- no directory of chunks with the new file's name is, for that hash from a named destination with
-- no download under way, then the gossiper sends the first request and starts the goroutine, which
-- ends if it gets the sharer's answers to at most one request more than the file has chunks,
-- whichever of the chunks that are left it asks for each time: it is finished, the file stands
-- under its hash among the downloaded ones, and what was composed is the shared file, or else two
-- strings of bytes with one hash are at hand.
pub process_client_data_request-shared :
    (sha : Sha) (sfm : SharedFilesManager)
    → IsSharer sha sfm
    → IsStocker sfm
    → (name : String) (file_bytes : Bytes) → length file_bytes ≤ max_file_size
    → file_bytes ≢ []
    → let hash = sha.sum256 (metafile_of sha file_bytes) in
      lookup hash sfm.shared_files ≡ none
      → (picks : ℕ → ℕ) (g : Gossiper) (m : ClientToDownloadMessage) → m.destination ≢ ""
      → m.hash_value ≡ hash
      → lookup m.destination g.downloading_files_manager.downloading_files ≡ none
      → let sharer = (share_file sha sfm name false (some file_bytes)).0 in
        let replies = suc (length (split file_bytes)) in
        (g' : Gossiper) × (l : DownloadLoop) × (file : DownloadingFile)
        × (process_client_data_request g m ≡ ok (g', request_data g m.destination m.hash_value))
        × (lookup m.destination g'.download_loops ≡ some l)
        × IsEnded sha
            (get_chunk_or_metafile sharer)
            m.destination
            file
            (answered sha (get_chunk_or_metafile sharer) m.destination picks replies g' l)
        × ((file.composed ≡ some file_bytes) ⊎ Collision sha)
process_client_data_request-shared sha sfm sharer stocker name file_bytes le some_bytes new picks g
      m named right idle =
    let answer = get_chunk_or_metafile (share_file sha sfm name false (some file_bytes)).0 in
    let n = suc (length (split file_bytes)) in
    let g' = begun_gossiper g m named idle in
    let l = first_loop m.hash_value in
    let df = init_downloading_file m.name m.hash_value in
    let fetched = fetch sha answer picks n df m.hash_value in
    let running = here g m named idle l g.download_loops in
    let (ended, whole) =
      subst
        (λ h.
          let fetched = fetch sha answer picks n (init_downloading_file m.name h) h in
          (fetched.1 ≡ some true) × ((fetched.0.composed ≡ some file_bytes) ⊎ Collision sha))
        (sym right)
        (fetch-share_file sha sfm sharer stocker name m.name file_bytes le some_bytes new picks) in
    (
      g',
      l,
      fetched.0,
      request-begun g m named idle,
      running,
      answered-IsEnded sha answer m.destination picks n g' l df fetched.0 running
          (here g m named idle df g.downloading_files_manager.downloading_files)
          (ap (λ o. (fetched.0, o)) ended),
      whole,
    )
