-- ===== src/Gossiper/Downloads.antt =====
-- gossiper/Gossiper.go: a client's request for a file, and the goroutine of a download as a function
-- for each case of its `select`. The goroutine is an entry of `download_loops` while it runs.
pub mod Ends
pub mod Shared
use decentralized_peerster.Common.{
  ℕ, ◌-◌, Bool, true, false, leb, [], ◌∷◌, ◌++◌, Option, none, some, String, string_discrete,
  string_key, bytes_key, ite, Bytes, Outcome, ok, panic, if◌then◌else◌,
}
use decentralized_peerster.Map.{insert, delete}
use decentralized_peerster.Models.{DataReply, ClientToDownloadMessage}
use decentralized_peerster.Hashing.{Sha}
use decentralized_peerster.Search.{ToDownload, download_file_by_hash}
use decentralized_peerster.Files.Downloading.{
  DownloadingFilesManager, start_downloading_from_origin, process_data_reply, get_data_request_hash,
  drop_downloading,
}
use decentralized_peerster.Gossiper.{Gossiper, Sends, DownloadLoop, send_packet_with_next_hop}
use decentralized_peerster.Gossiper.Routing.{data_request_packet, default_hop_limit}

abbrev pub file_download_timeouts_limit : ℕ
file_download_timeouts_limit = 5

-- The data request for a hash that goes to the gossiper `origin`.
abbrev pub request_data : Gossiper → String → Bytes → Sends
request_data g origin hash_value = send_packet_with_next_hop g origin (
    data_request_packet record {
      origin = g.name;
      destination = origin;
      hop_limit = default_hop_limit;
      hash_value = hash_value;
    })

abbrev pub ask_local_port : Gossiper → Option ToDownload → Gossiper
ask_local_port g none = g
ask_local_port g (some message) = record g { local_port = g.local_port ++ message ∷ [] }

-- With no destination the search request is asked, whose pointer is nil before the first search.
abbrev download_found : Gossiper → Bytes → String → Outcome (Gossiper × Sends)
download_found g hash_value name = elim g.current_search_request [
  | none ↦ panic
  | some csr ↦ ok (ask_local_port g (download_file_by_hash csr hash_value name), [])
]

abbrev pub start_loop : Gossiper → DownloadingFilesManager → String → Bytes → Gossiper
start_loop g dfm origin hash_value = record g {
  downloading_files_manager = dfm;
  download_channels = insert origin [] g.download_channels;
  download_loops =
      insert origin
        (record {
          latest_requested_hash = hash_value;
          timeouts_limit = file_download_timeouts_limit;
        })
        g.download_loops;
}

unfoldable pub process_client_data_request :
    Gossiper → ClientToDownloadMessage → Outcome (Gossiper × Sends)
process_client_data_request g cdrqmsg =
    let origin = cdrqmsg.destination in
    let started =
      start_downloading_from_origin g.downloading_files_manager origin cdrqmsg.name
        cdrqmsg.hash_value in
    ite (string_discrete origin "") (download_found g cdrqmsg.hash_value cdrqmsg.name) (
      if started.1
      then ok (
        start_loop g started.0 origin cdrqmsg.hash_value,
        request_data g origin cdrqmsg.hash_value,
      )
      else ok (g, []))

abbrev pub end_loop : Gossiper → String → Gossiper
end_loop g origin = record g {
  download_channels = delete origin g.download_channels;
  download_loops = delete origin g.download_loops;
}

abbrev pub with_loop : Gossiper → String → DownloadLoop → Gossiper
with_loop g origin l = record g { download_loops = insert origin l g.download_loops }

-- The ticker fired.
unfoldable pub download_tick : Gossiper → String → DownloadLoop → Gossiper × Sends
download_tick g origin l =
    let left = l.timeouts_limit - 1 in
    if leb left 0
    then (
      record (end_loop g origin) {
        downloading_files_manager = drop_downloading g.downloading_files_manager origin;
      },
      [],
    )
    else (
      with_loop g origin (record l { timeouts_limit = left }),
      request_data g origin l.latest_requested_hash,
    )

-- The next chunk is asked for, unless no hash is left to download.
abbrev pub ask_next : Gossiper → String → DownloadLoop → Option Bytes → Gossiper × Sends
ask_next g origin l none = (with_loop g origin l, [])
ask_next g origin l (some hash_value) = (
  with_loop g origin (record l { latest_requested_hash = hash_value }),
  request_data g origin hash_value,
)

abbrev pub go_on : ℕ → Gossiper → String → DownloadLoop → Option Bool → Gossiper × Sends
go_on pick g origin l none = (g, request_data g origin l.latest_requested_hash)
go_on pick g origin l (some true) = (end_loop g origin, [])
go_on pick g origin l (some false) =
    ask_next g origin (record l { timeouts_limit = file_download_timeouts_limit })
      (get_data_request_hash pick g.downloading_files_manager origin)

-- A reply came from the channel; `pick` is the position of the hash that is asked for next.
unfoldable pub download_reply :
    Sha → Bool → ℕ → Gossiper → String → DownloadLoop → DataReply → Gossiper × Sends
download_reply sha dir_exists pick g origin l reply =
    let done =
      process_data_reply sha dir_exists g.downloading_files_manager origin reply.hash_value
        reply.payload in
    go_on pick (record g { downloading_files_manager = done.0 }) origin l done.1
