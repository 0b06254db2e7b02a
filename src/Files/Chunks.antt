-- ===== src/Files/Chunks.antt =====
-- A file is its chunks (models/filesharing/SharedFile.go), and the metafile is their hashes
-- (DownloadingFile.go).
use decentralized_peerster.Common.{
  String, ltb, ◌≤◌, ℕ, suc, ◌+◌, ◌%◌, ◌≡◌, ◌≢◌, refl, ap, ◌∙◌, true, false, ◌==◌, ◌||◌, List, [],
  ◌∷◌, ◌++◌, Bytes, arith, length, Bool-cases, inl, inr, ==_iff, length-append, some,
}
use decentralized_peerster.Hashing.{Sha}
use decentralized_peerster.Files.{
  split_loop, split, concat, parse_loop, hashes, SharedFile, share_file, add_all, write_chunks,
  file_chunk_size, max_file_size,
}

append_assoc_last : (xs : Bytes) (b : ℕ) (ys : Bytes) → (xs ++ b ∷ []) ++ ys ≡ xs ++ b ∷ ys
append_assoc_last [] b ys = refl
append_assoc_last (x ∷ xs) b ys = ap (λ t. x ∷ t) (append_assoc_last xs b ys)

append_nil : (xs : Bytes) → xs ++ [] ≡ xs
append_nil [] = refl
append_nil (x ∷ xs) = ap (λ t. x ∷ t) (append_nil xs)

split_nil : (size n i : ℕ) → concat (split_loop size n i [] []) ≡ []
unfolding split_loop
split_nil size n i = refl

not_last :
    (n i b : ℕ) (bs : Bytes) (size : ℕ)
    → i + length (b ∷ bs) ≡ n
    → ((i + 1) % size == 0 || (i + 1) == n) ≡ false
    → bs ≢ []
not_last n i b [] size e more z =
    let last : ((i + 1) == n) ≡ true = (==_iff (i + 1) n).1 (omega arith) in ground (arith, last)
not_last n i b (c ∷ bs) size e more z = cc

module _ (size n i : ℕ) (cur : Bytes) (b : ℕ) (bs : Bytes) where
  split-full :
      ((i + 1) % size == 0 || (i + 1) == n) ≡ true
      → split_loop size n i cur (b ∷ bs) ≡ (cur ++ b ∷ []) ∷ split_loop size n (i + 1) [] bs
  unfolding split_loop
  split-full e = rw e refl

  split-more :
      ((i + 1) % size == 0 || (i + 1) == n) ≡ false
      → split_loop size n i cur (b ∷ bs) ≡ split_loop size n (i + 1) (cur ++ b ∷ []) bs
  unfolding split_loop
  split-more e = rw e refl

concat-split_loop :
    (size n i : ℕ) (cur bs : Bytes)
    → i + length bs ≡ n
    → (bs ≡ [] → cur ≡ [])
    → concat (split_loop size n i cur bs) ≡ cur ++ bs
concat-split_loop size n i cur [] e flushed = nothing (flushed refl)
  where
    nothing : cur ≡ [] → concat (split_loop size n i cur []) ≡ cur ++ []
    nothing z = rw z (split_nil size n i)
concat-split_loop size n i cur (b ∷ bs) e flushed =
    elim (Bool-cases ((i + 1) % size == 0 || (i + 1) == n)) [
      | inl full ↦
          let ih = concat-split_loop size n (i + 1) [] bs (omega arith) (λ z. refl) in
          rw (split-full size n i cur b bs full) (rw ih (append_assoc_last cur b bs))
      | inr more ↦
          let ih =
            concat-split_loop size n (i + 1) (cur ++ b ∷ []) bs (omega arith)
              (λ z. absurd (not_last n i b bs size e more z)) in
          rw (split-more size n i cur b bs more) (ih ∙ append_assoc_last cur b bs)
    ]

pub concat-split : (file_bytes : Bytes) → concat (split file_bytes) ≡ file_bytes
concat-split file_bytes =
    concat-split_loop file_chunk_size (length file_bytes) 0 [] file_bytes (omega arith) (λ z. refl)

module _ (i : ℕ) (current : Bytes) (b : ℕ) (bs : Bytes) where
  parse-full :
      ((i + 1) % 32 == 0) ≡ true
      → parse_loop i current (b ∷ bs) ≡ (current ++ b ∷ []) ∷ parse_loop (i + 1) [] bs
  unfolding parse_loop
  parse-full e = rw e refl

  parse-more :
      ((i + 1) % 32 == 0) ≡ false
      → parse_loop i current (b ∷ bs) ≡ parse_loop (i + 1) (current ++ b ∷ []) bs
  unfolding parse_loop
  parse-more e = rw e refl

ne→==false : (a b : ℕ) → a ≢ b → (a == b) ≡ false
ne→==false a b ne = ground arith

-- Inside of a hash: the rest of it with `current` before, and what follows.
parse_loop-hash :
    (i : ℕ) (current : Bytes) (b : ℕ) (bs more : Bytes)
    → i % 32 ≡ length current
    → length current + suc (length bs) ≡ 32
    → parse_loop i current (b ∷ bs ++ more)
      ≡ (current ++ b ∷ bs) ∷ parse_loop (i + suc (length bs)) [] more
parse_loop-hash i current b [] more at full =
    let end : ((i + 1) % 32 == 0) ≡ true = (==_iff ((i + 1) % 32) 0).1 (omega arith) in
    rw (parse-full i current b more end) refl
parse_loop-hash i current b (c ∷ bs) more at full =
    let inside : ((i + 1) % 32 == 0) ≡ false = ne→==false ((i + 1) % 32) 0 (λ z. omega arith) in
    let grown = length-append current (b ∷ []) in
    let ih = parse_loop-hash (i + 1) (current ++ b ∷ []) c bs more (omega arith) (omega arith) in
    let index : i + 1 + suc (length bs) ≡ i + suc (length (c ∷ bs)) = omega arith in
    rw (parse-more i current b (c ∷ bs ++ more) inside) (
      ih
      ∙ rw (append_assoc_last current b (c ∷ bs))
          (ap (λ k. (current ++ b ∷ c ∷ bs) ∷ parse_loop k [] more) index))

-- One hash of 32 bytes.
parse_loop-one :
    (i : ℕ) (h more : Bytes)
    → i % 32 ≡ 0
    → length h ≡ 32
    → parse_loop i [] (h ++ more) ≡ h ∷ parse_loop (i + 32) [] more
parse_loop-one i [] more at full = absurd (omega arith)
parse_loop-one i (b ∷ bs) more at full =
    parse_loop-hash i [] b bs more at (omega arith)
    ∙ ap (λ k. (b ∷ bs) ∷ parse_loop (i + k) [] more) full

parse_nil : (i : ℕ) → parse_loop i [] [] ≡ []
unfolding parse_loop
parse_nil i = refl

pub parse_loop-hashes :
    (sha : Sha) (i : ℕ) (cs : List Bytes)
    → i % 32 ≡ 0
    → parse_loop i [] (concat (hashes sha cs)) ≡ hashes sha cs
parse_loop-hashes sha i [] at = parse_nil i
parse_loop-hashes sha i (c ∷ cs) at =
    let ih = parse_loop-hashes sha (i + 32) cs (omega arith) in
    parse_loop-one i (sha.sum256 c) (concat (hashes sha cs)) at (sha.length-sum256 c)
    ∙ ap (λ t. sha.sum256 c ∷ t) ih

-- A file of at most MaxFileSize bytes whose directory does not exist is shared; the metafile,
-- parsed as a download parses it, gives the hashes of the file's chunks in order, the chunks put
-- together are the file, and the metafile's hash is the one that the sharer names.
pub share_file-parse :
    (sha : Sha) (name : String) (file_bytes : Bytes)
    → length file_bytes ≤ max_file_size
    → (sf : SharedFile) × (share_file sha name false (some file_bytes) ≡ some sf)
      × (parse_loop 0 [] sf.meta_slice ≡ hashes sha (split file_bytes))
      × (concat (split file_bytes) ≡ file_bytes)
      × (sf.meta_hash ≡ sha.sum256 sf.meta_slice)
unfolding share_file
share_file-parse sha name file_bytes le =
    let parsed = parse_loop-hashes sha 0 (split file_bytes) refl in
    let small : ltb max_file_size (length file_bytes) ≡ false = ground arith in
    let chunks = split file_bytes in
    (
      record {
        name = name;
        size = length file_bytes;
        meta_hash = sha.sum256 (concat (hashes sha chunks));
        meta_slice = concat (hashes sha chunks);
        meta_set = add_all (hashes sha chunks) [];
        disk = write_chunks sha chunks [];
      },
      rw small refl,
      parsed,
      concat-split file_bytes,
      refl,
    )
