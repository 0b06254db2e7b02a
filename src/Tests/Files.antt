-- ===== src/Tests/Files.antt =====
-- Runs of models/filesharing, under a toy hash.
use decentralized_peerster.Common.{
  ℕ, ◌≡◌, refl, inl, true, false, [], ◌∷◌, some, none, Bytes, bytes_key, bytes_discrete, arith,
  ℕ_discrete,
}
use decentralized_peerster.Map.{lookup, insert, delete}
use decentralized_peerster.Hashing.{Sha}
use decentralized_peerster.Blockchain.Nodes.{zero_bytes}
use decentralized_peerster.Files.{
  SharedFile, share_file, split, split_loop, concat, hashes, parse_loop, DownloadingFile,
  take_chunk, process_data_reply,
}
use decentralized_peerster.Files.Chunks.{share_file-parse}
use decentralized_peerster.Files.Sharing.Sizes.{IsSized, share_file-IsSized}
use decentralized_peerster.Files.Download.{IsDownload, Finished, process_data_reply-IsDownload}

toy_head : Bytes → ℕ
toy_head [] = 0
toy_head (x ∷ xs) = x

pub toy : Sha
unfolding toy_head
toy = record {
  sum256 = λ b. toy_head b ∷ zero_bytes 31;
  string_bytes = λ s. [];
  length-sum256 = λ b. refl;
}

-- Two chunks in place of chunks of 8 KB.
short_chunks : split_loop 2 3 0 [] (7 ∷ 8 ∷ 9 ∷ []) ≡ (7 ∷ 8 ∷ []) ∷ (9 ∷ []) ∷ []
unfolding split_loop
short_chunks = refl

share_file-parse_example :
    (sf : SharedFile) × (share_file toy "f" false (some (7 ∷ 8 ∷ [])) ≡ some sf)
    × (parse_loop 0 [] sf.meta_slice ≡ hashes toy (split (7 ∷ 8 ∷ [])))
    × (concat (split (7 ∷ 8 ∷ [])) ≡ 7 ∷ 8 ∷ [])
    × (sf.meta_hash ≡ toy.sum256 sf.meta_slice)
share_file-parse_example = share_file-parse toy "f" (7 ∷ 8 ∷ []) (omega arith)

shared : (sf : SharedFile) × (share_file toy "f" false (some (7 ∷ 8 ∷ [])) ≡ some sf)
shared = let (sf, run, _, _, _) = share_file-parse toy "f" (7 ∷ 8 ∷ []) (omega arith) in (sf, run)

share_file-IsSized_example : IsSized (7 ∷ 8 ∷ []) shared.0
share_file-IsSized_example = share_file-IsSized toy "f" (7 ∷ 8 ∷ []) shared.0 shared.1

-- A download whose metafile names one chunk.
abbrev begun : DownloadingFile
begun = record {
  name = "f";
  meta_hash = 7 ∷ zero_bytes 31;
  metafile = some (7 ∷ zero_bytes 31);
  chunks_hashes_slice = (7 ∷ zero_bytes 31) ∷ [];
  chunks_hashes_set = (7 ∷ zero_bytes 31, tt) ∷ [];
  chunks_to_download = (7 ∷ zero_bytes 31, tt) ∷ [];
  disk = [];
  composed = none;
}

begun-IsDownload : IsDownload toy begun
unfolding lookup bytes_discrete ℕ_discrete
begun-IsDownload = (inl refl, tt)

finished_run : (process_data_reply toy false begun (7 ∷ zero_bytes 31) (7 ∷ 8 ∷ [])).1 ≡ some true
unfolding process_data_reply take_chunk lookup delete insert bytes_discrete ℕ_discrete toy toy_head
finished_run = refl

process_data_reply-IsDownload_example :
    IsDownload toy (process_data_reply toy false begun (7 ∷ zero_bytes 31) (7 ∷ 8 ∷ [])).0
    × Finished toy
        (process_data_reply toy false begun (7 ∷ zero_bytes 31) (7 ∷ 8 ∷ [])).0
        (process_data_reply toy false begun (7 ∷ zero_bytes 31) (7 ∷ 8 ∷ [])).1
process_data_reply-IsDownload_example =
    process_data_reply-IsDownload toy false begun (7 ∷ zero_bytes 31) (7 ∷ 8 ∷ []) begun-IsDownload
