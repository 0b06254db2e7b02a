-- ===== src/Files/Sharing/Sizes.antt =====
-- The sizes of what shareFile of models/filesharing/SharedFile.go makes of a file.
use mathlib.Core.Path.{subst}
use decentralized_peerster.Common.{
  ℕ, ◌+◌, ◌-◌, ◌*◌, ◌/◌, ◌%◌, ◌≤◌, ◌≡◌, refl, true, false, ◌||◌, ◌==◌, ltb, List, [], ◌∷◌, ◌++◌,
  some, String, Bytes, bytes_key, arith, All, length, length-append, ==_iff, Bool-cases, inl, inr,
}
use decentralized_peerster.Map.{Map, insert, All-insert, All-lookup}
use decentralized_peerster.Hashing.{Sha}
use decentralized_peerster.Files.{
  SharedFile, file_chunk_size, max_file_size, split_loop, split, concat, hashes, write_chunks,
  add_all, share_file,
}
use decentralized_peerster.Files.Sharing.{get_chunk, chunk_belongs_to_file}

-- A chunk has at least one byte and at most FileChunkSize.
abbrev pub IsChunk : Bytes → Type 0
IsChunk c = (1 ≤ length c) × (length c ≤ file_chunk_size)

-- `current` has what came since the last chunk.
split_loop-IsChunk :
    (n i : ℕ) (current bytes : Bytes)
    → i + length bytes ≡ n
    → (1 ≤ length bytes → length current ≡ i % file_chunk_size)
    → All IsChunk (split_loop file_chunk_size n i current bytes)
unfolding split_loop
split_loop-IsChunk n i current [] total part = tt
split_loop-IsChunk n i current (b ∷ bytes) total part =
    let grown = length-append current (b ∷ []) in
    let now = part (omega arith) in
    elim (Bool-cases ((i + 1) % file_chunk_size == 0 || (i + 1) == n)) [
      | inl full ↦ rw full (
        (omega arith, omega arith),
        split_loop-IsChunk n (i + 1) [] bytes (omega arith) (λ more. ground arith),
      )
      | inr open_ ↦ rw open_ (
          split_loop-IsChunk n (i + 1) (current ++ b ∷ []) bytes (omega arith)
            (λ more. ground arith))
    ]

split_loop-count :
    (n i : ℕ) (current bytes : Bytes)
    → i + length bytes ≡ n
    → 1 ≤ length bytes
    → length (split_loop file_chunk_size n i current bytes) + i / file_chunk_size
      ≡ (n + file_chunk_size - 1) / file_chunk_size
unfolding split_loop
split_loop-count n i current [] total some_byte = absurd (omega arith)
split_loop-count n i current (b ∷ []) total some_byte =
    let last : ((i + 1) == n) ≡ true = (==_iff (i + 1) n).1 (omega arith) in
    let full : ((i + 1) % file_chunk_size == 0 || (i + 1) == n) ≡ true = ground (arith, last) in
    rw full (omega arith)
split_loop-count n i current (b ∷ c ∷ bytes) total some_byte =
    elim (Bool-cases ((i + 1) % file_chunk_size == 0 || (i + 1) == n)) [
      | inl full ↦
          let ih = split_loop-count n (i + 1) [] (c ∷ bytes) (omega arith) (omega arith) in
          let at_end : (i + 1) % file_chunk_size ≡ 0 = ground arith in
          rw full (omega (arith, ih, at_end))
      | inr more ↦
          let ih =
            split_loop-count n (i + 1) (current ++ b ∷ []) (c ∷ bytes) (omega arith)
              (omega arith) in
          let inside : 1 ≤ (i + 1) % file_chunk_size = ground arith in
          rw more (omega (arith, ih, inside))
    ]

length-concat-hashes :
    (sha : Sha) (chunks : List Bytes) → length (concat (hashes sha chunks)) ≡ 32 * length chunks
length-concat-hashes sha [] = refl
length-concat-hashes sha (c ∷ chunks) =
    let ih = length-concat-hashes sha chunks in
    let one = sha.length-sum256 c in
    let both = length-append (sha.sum256 c) (concat (hashes sha chunks)) in
    omega (arith, ih, one, both)

write_chunks-IsChunk :
    (sha : Sha) (chunks : List Bytes) (disk : Map Bytes Bytes)
    → All IsChunk chunks
    → All (λ e. IsChunk e.1) disk
    → All (λ e. IsChunk e.1) (write_chunks sha chunks disk)
write_chunks-IsChunk sha [] disk all on_disk = on_disk
write_chunks-IsChunk sha (c ∷ chunks) disk all on_disk =
    write_chunks-IsChunk sha chunks (insert (sha.sum256 c) c disk) all.1
      (All-insert (λ e. IsChunk e.1) (sha.sum256 c) c disk all.0 on_disk)

-- The numbers of bytes of a shared file and its metafile, and of what it serves.
pub record IsSized (bytes : Bytes) (sf : SharedFile) : Type 0 where
  pub small : length bytes ≤ max_file_size
  pub metafile :
      length sf.meta_slice ≡ 32 * ((length bytes + file_chunk_size - 1) / file_chunk_size)
  pub metafile_fits : length sf.meta_slice ≤ file_chunk_size
  pub chunk_fits : (h chunk : Bytes) → get_chunk sf h ≡ some chunk → IsChunk chunk

split-count :
    (bytes : Bytes) → length (split bytes) ≡ (length bytes + file_chunk_size - 1) / file_chunk_size
unfolding split_loop
split-count [] = refl
split-count (b ∷ bytes) =
    let count =
      split_loop-count (length (b ∷ bytes)) 0 [] (b ∷ bytes) (omega arith) (omega arith) in
    omega (arith, count)

get_chunk-IsChunk :
    (sf : SharedFile) (h chunk : Bytes)
    → All (λ e. IsChunk e.1) sf.disk
    → get_chunk sf h ≡ some chunk
    → IsChunk chunk
unfolding get_chunk
get_chunk-IsChunk sf h chunk all e = elim (Bool-cases (chunk_belongs_to_file sf h)) [
  | inl mine ↦ All-lookup (λ e. IsChunk e.1) h chunk sf.disk all (ground arith)
  | inr other ↦ absurd (ground arith)
]

abbrev pub made_of : Sha → String → Bytes → SharedFile
made_of sha name bytes = record {
  name = name;
  size = length bytes;
  meta_hash = sha.sum256 (concat (hashes sha (split bytes)));
  meta_slice = concat (hashes sha (split bytes));
  meta_set = add_all (hashes sha (split bytes)) [];
  disk = write_chunks sha (split bytes) [];
}

made_of-IsSized :
    (sha : Sha) (name : String) (bytes : Bytes)
    → length bytes ≤ max_file_size
    → IsSized bytes (made_of sha name bytes)
made_of-IsSized sha name bytes small =
    let size = length-concat-hashes sha (split bytes) in
    let count = split-count bytes in
    let chunks = split_loop-IsChunk (length bytes) 0 [] bytes (omega arith) (λ more. refl) in
    record {
      small = small;
      metafile = omega (arith, size, count);
      metafile_fits = omega (arith, size, count, small);
      chunk_fits = λ h chunk e.
          get_chunk-IsChunk (made_of sha name bytes) h chunk
            (write_chunks-IsChunk sha (split bytes) [] chunks tt) e;
    }

-- A file that is shared has at most MaxFileSize bytes; its metafile has 32 bytes for each
-- FileChunkSize bytes of the file that are begun, and at most FileChunkSize bytes; and what
-- getChunk gives has at least one byte and at most FileChunkSize.
pub share_file-IsSized :
    (sha : Sha) (name : String) (bytes : Bytes) (sf : SharedFile)
    → share_file sha name false (some bytes) ≡ some sf
    → IsSized bytes sf
unfolding share_file
share_file-IsSized sha name bytes sf e = elim (Bool-cases (ltb max_file_size (length bytes))) [
  | inl large ↦ absurd (ground arith)
  | inr small ↦
      let same : made_of sha name bytes ≡ sf = ground arith in
      subst (λ f. IsSized bytes f) same (made_of-IsSized sha name bytes (ground arith))
]
