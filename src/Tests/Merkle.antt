-- ===== src/Tests/Merkle.antt =====
-- A file of one chunk in models/filesharing/merkletree, under a toy hash.
use decentralized_peerster.Common.{
  ℕ, zero, suc, ◌≡◌, ◌≢◌, refl, ap, false, [], some, Bytes, length, ok, arith,
}
use decentralized_peerster.Blockchain.Nodes.{zero_bytes}
use decentralized_peerster.Files.{file_chunk_size}
use decentralized_peerster.Files.Merkle.{
  ReadError, no_error, eof, failed, MerkleSharedFile, share_merkle_file,
}
use decentralized_peerster.Files.Merkle.Shared.{
  Reads, IsWhole, HasChunks, share_merkle_file-IsWhole,
}
use decentralized_peerster.Tests.Files.{toy}

abbrev one_chunk : ℕ → Bytes × ReadError
one_chunk zero = (zero_bytes file_chunk_size, no_error)
one_chunk (suc n) = ([], eof)

length-zero_bytes : (n : ℕ) → length (zero_bytes n) ≡ n
length-zero_bytes zero = refl
length-zero_bytes (suc n) = ap suc (length-zero_bytes n)

one_chunk-Reads : Reads 8192 one_chunk
one_chunk-Reads zero e = (length-zero_bytes file_chunk_size, omega arith)
one_chunk-Reads (suc n) e = absurd (cc)

one_chunk_sound : (offset : ℕ) → (one_chunk offset).1 ≢ failed
one_chunk_sound zero e = cc
one_chunk_sound (suc n) e = cc

share_merkle_file-IsWhole_example :
    (sf : MerkleSharedFile) × (share_merkle_file toy "f" false 8192 one_chunk ≡ ok (some sf))
    × (sf.name ≡ "f")
    × (sf.size ≡ 8192)
    × IsWhole toy sf
    × HasChunks toy one_chunk sf
share_merkle_file-IsWhole_example =
    share_merkle_file-IsWhole toy "f" 8192 one_chunk one_chunk-Reads one_chunk_sound refl
