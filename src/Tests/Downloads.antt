-- ===== src/Tests/Downloads.antt =====
-- Runs of the goroutine of a download of gossiper/Gossiper.go, under a toy hash.
use decentralized_peerster.Common.{
  suc, ◌≡◌, ◌⊎◌, refl, arith, false, [], ◌∷◌, none, some, string_key, string_discrete, bytes_key,
  Bytes, ok, length,
}
use decentralized_peerster.Map.{lookup}
use decentralized_peerster.Models.{ClientToDownloadMessage}
use decentralized_peerster.Files.{DownloadingFile, split}
use decentralized_peerster.Files.Sharing.{
  init_shared_files_manager, share_file, get_chunk_or_metafile,
}
use decentralized_peerster.Files.Transfer.Served.{metafile_of, Collision}
use decentralized_peerster.Gossiper.{Gossiper, DownloadLoop, new_gossiper}
use decentralized_peerster.Gossiper.Downloads.{process_client_data_request, request_data}
use decentralized_peerster.Gossiper.Downloads.Ends.{answered, IsEnded}
use decentralized_peerster.Gossiper.Downloads.Shared.{process_client_data_request-shared}
use decentralized_peerster.Tests.Files.{toy}
use decentralized_peerster.Tests.Gossip.{no_proof}

abbrev two_bytes : Bytes
two_bytes = 7 ∷ 8 ∷ []

abbrev bob : Gossiper
bob = new_gossiper "bob" "b" ("a" ∷ []) false

abbrev from_alice : ClientToDownloadMessage
from_alice = record {
  name = "copy";
  destination = "alice";
  hash_value = toy.sum256 (metafile_of toy two_bytes);
}

idle : lookup "alice" bob.downloading_files_manager.downloading_files ≡ none
unfolding lookup
idle = refl

new : lookup (toy.sum256 (metafile_of toy two_bytes)) init_shared_files_manager.shared_files ≡ none
unfolding lookup
new = refl

process_client_data_request-shared_example :
    let sharer = (share_file toy init_shared_files_manager "f" false (some two_bytes)).0 in
    (g : Gossiper) × (l : DownloadLoop) × (file : DownloadingFile) × (process_client_data_request
        bob from_alice
      ≡ ok (g, request_data bob "alice" from_alice.hash_value))
    × (lookup "alice" g.download_loops ≡ some l)
    × IsEnded toy (get_chunk_or_metafile sharer) "alice" file (
        answered toy
          (get_chunk_or_metafile sharer)
          "alice"
          (λ n. n)
          (suc (length (split two_bytes)))
          g
          l)
    × ((file.composed ≡ some two_bytes) ⊎ Collision toy)
unfolding string_discrete
process_client_data_request-shared_example =
    process_client_data_request-shared toy init_shared_files_manager tt tt "f" two_bytes
      (omega arith) (λ e. cc) new (λ n. n) bob from_alice
      (no_proof (string_discrete "alice" "") refl) refl idle
