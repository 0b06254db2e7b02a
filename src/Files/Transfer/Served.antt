-- ===== src/Files/Transfer/Served.antt =====
-- A shared file is downloaded from its sharer: models/filesharing, SharedFilesManager.go on one
-- side and DownloadingFile.go on the other.
use mathlib.Core.Path.{subst}
use decentralized_peerster.Common.{
  ℕ, suc, ◌+◌, ◌%◌, ◌≡◌, ◌≢◌, ◌≤◌, ◌⊎◌, refl, sym, ◌∙◌, ap, Bool, true, false, List, [], ◌∷◌,
  Option, none, some, String, Bytes, bytes_key, bytes_discrete, arith, All, length, length-append,
  if_neg, ◌==◌, Option-cases, inl, inr, ==_iff, if_pos, ltb,
}
use decentralized_peerster.Map.{lookup, insert, All-insert, lookup-insert, length-insert-le}
use decentralized_peerster.Hashing.{Sha}
use decentralized_peerster.Blockchain.Transactions.{is_some}
use decentralized_peerster.Files.{
  HashSet, SharedFile, DownloadingFile, init_downloading_file, concat, hashes, add_all,
  write_chunks, split, max_file_size, parse_loop, got_metafile, process_data_reply,
  share_file as share_path,
}
use decentralized_peerster.Files.Sharing.{SharedFilesManager, share_file, get_chunk_or_metafile}
use decentralized_peerster.Files.Sharing.Stocked.{
  IsStocker, share_file-IsStocker, get_chunk_or_metafile-chunk, get_chunk_or_metafile-metafile,
}
use decentralized_peerster.Files.Sharing.Answers.{
  IsSharer, Answers, share_file-IsSharer, get_chunk_or_metafile-Answers,
}
use decentralized_peerster.Files.Download.{
  Wanted, IsDownload, add_all-Wanted, process_data_reply-IsDownload,
}
use decentralized_peerster.Files.Chunks.{concat-split, parse_loop-hashes}
use decentralized_peerster.Files.Transfer.{fetch, IsServed, fetch-Fetched, key_at-some}
use decentralized_peerster.Files.Downloading.{key_at}

-- Two strings of bytes with one hash.
abbrev pub Collision : Sha → Type 0
Collision sha = (a : Bytes) × (b : Bytes) × (a ≢ b) × (sha.sum256 a ≡ sha.sum256 b)

none_is_some : ¬ (false ≡ true)
none_is_some e = cc

module _ (sha : Sha) where
  hashes-injective :
      (cs ds : List Bytes) → hashes sha cs ≡ hashes sha ds → (cs ≡ ds) ⊎ Collision sha
  hashes-injective [] [] e = inl refl
  hashes-injective [] (d ∷ ds) e = absurd (cc)
  hashes-injective (c ∷ cs) [] e = absurd (cc)
  hashes-injective (c ∷ cs) (d ∷ ds) e = elim (bytes_discrete c d) [
    | no other ↦ inr (c, d, other, cc)
    | yes same ↦ elim (hashes-injective cs ds (cc)) [ inl all ↦ inl (cc) | inr found ↦ inr found ]
  ]

  -- The metafile of the file that is shared.
  abbrev pub metafile_of : Bytes → Bytes
  metafile_of file_bytes = concat (hashes sha (split file_bytes))

  length-concat : (cs : List Bytes) → length (concat (hashes sha cs)) % 32 ≡ 0
  length-concat [] = omega arith
  length-concat (c ∷ cs) = omega (
    arith,
    length-append (sha.sum256 c) (concat (hashes sha cs)),
    sha.length-sum256 c,
    length-concat cs,
  )

  length-hashes : (cs : List Bytes) → length (hashes sha cs) ≡ length cs
  length-hashes [] = refl
  length-hashes (c ∷ cs) = ap suc (length-hashes cs)

  All-sized : (cs : List Bytes) → All (λ h. length h ≡ 32) (hashes sha cs)
  All-sized [] = tt
  All-sized (c ∷ cs) = (sha.length-sum256 c, All-sized cs)

add_all-All :
    (P : Bytes → Type 0) (hs : List Bytes) (set : HashSet)
    → All P hs
    → All (λ (e : Bytes × Unit {0}). P e.0) set
    → All (λ (e : Bytes × Unit {0}). P e.0) (add_all hs set)
add_all-All P [] set all all' = all'
add_all-All P (h ∷ hs) set all all' =
    add_all-All P hs (insert h tt set) all.1
      (All-insert (λ (e : Bytes × Unit {0}). P e.0) h tt set all.0 all')

length-add_all :
    (hs : List Bytes) (set : HashSet) → length (add_all hs set) ≤ length hs + length set
length-add_all [] set = omega arith
length-add_all (h ∷ hs) set =
    let one : length (insert h tt set) ≤ suc (length set) = length-insert-le h tt set in
    let rest : length (add_all hs (insert h tt set)) ≤ length hs + length (insert h tt set) =
      length-add_all hs (insert h tt set) in
    omega arith

insert_some :
    (h : Bytes) (set : HashSet) → (k : Bytes) × (m : HashSet) × (insert h tt set ≡ (k, tt) ∷ m)
unfolding insert
insert_some h [] = (h, [], refl)
insert_some h ((j, _) ∷ set) = elim (bytes_discrete j h) [
  | yes same ↦ (h, set, rw (if_pos (bytes_discrete j h) same) refl)
  | no other ↦ (j, insert h tt set, rw (if_neg (bytes_discrete j h) other) refl)
]

add_all_some :
    (hs : List Bytes) (k : Bytes) (m : HashSet)
    → (k' : Bytes) × (m' : HashSet) × (add_all hs ((k, tt) ∷ m) ≡ (k', tt) ∷ m')
add_all_some [] k m = (k, m, refl)
add_all_some (h ∷ hs) k m =
    let (k', m', e) = insert_some h ((k, tt) ∷ m) in rw e (add_all_some hs k' m')

module _ (sha : Sha) (sfm : SharedFilesManager) (name : String) (file_bytes : Bytes) where
  abbrev file : SharedFile
  file = record {
    name = name;
    size = length file_bytes;
    meta_hash = sha.sum256 (metafile_of sha file_bytes);
    meta_slice = metafile_of sha file_bytes;
    meta_set = add_all (hashes sha (split file_bytes)) [];
    disk = write_chunks sha (split file_bytes) [];
  }

  abbrev after : SharedFilesManager
  after = (share_file sha sfm name false (some file_bytes)).0

  share_path-file :
      length file_bytes ≤ max_file_size → share_path sha name false (some file_bytes) ≡ some file
  unfolding share_path
  share_path-file le =
      let small : ltb max_file_size (length file_bytes) ≡ false = ground arith in rw small refl

  abbrev grown : SharedFilesManager
  grown = record sfm { shared_files = insert file.meta_hash file sfm.shared_files }

  share_file-grown :
      length file_bytes ≤ max_file_size
      → lookup (sha.sum256 (metafile_of sha file_bytes)) sfm.shared_files ≡ none
      → share_file sha sfm name false (some file_bytes) ≡ (grown, some file)
  unfolding share_file
  share_file-grown le new = rw (share_path-file le, new) refl

  shared_file-entered :
      length file_bytes ≤ max_file_size
      → lookup (sha.sum256 (metafile_of sha file_bytes)) sfm.shared_files ≡ none
      → lookup (sha.sum256 (metafile_of sha file_bytes)) after.shared_files ≡ some file
  shared_file-entered le new =
      let hash = file.meta_hash in
      ap (λ (r : SharedFilesManager × Option SharedFile). lookup hash r.0.shared_files)
        (share_file-grown le new)
      ∙ lookup-insert hash hash file sfm.shared_files
      ∙ if_pos (bytes_discrete hash hash) refl _ _

  module _ (sharer : IsSharer sha sfm) (stocker : IsStocker sfm)
      (le : length file_bytes ≤ max_file_size)
      (new : lookup (sha.sum256 (metafile_of sha file_bytes)) sfm.shared_files ≡ none) where
    chunk-IsServed :
        (h : Bytes)
        → length h ≡ 32
        → Wanted file.meta_set h
        → IsServed sha (get_chunk_or_metafile after) h
    chunk-IsServed h size wanted =
        let sharer' = share_file-IsSharer sha sfm name false (some file_bytes) sharer in
        let stocker' = share_file-IsStocker sha sfm name false (some file_bytes) stocker in
        let there =
          get_chunk_or_metafile-chunk after file.meta_hash file h size stocker'
            (shared_file-entered le new) wanted in
        (
          size,
          elim (Option-cases (get_chunk_or_metafile after h)) [
            | inl gone ↦
                absurd (none_is_some (sym (ap (λ (o : Option Bytes). is_some o) gone) ∙ there))
            | inr (payload, at) ↦ (
              payload,
              at,
              subst (λ o. Answers sha h o) at (get_chunk_or_metafile-Answers sha after h sharer'),
            )
          ],
        )

    chunks-IsServed :
        (hs : List Bytes)
        → All (λ h. length h ≡ 32) hs
        → All (Wanted file.meta_set) hs
        → All (IsServed sha (get_chunk_or_metafile after)) hs
    chunks-IsServed [] sized wanted = tt
    chunks-IsServed (h ∷ hs) sized wanted =
        (chunk-IsServed h sized.0 wanted.0, chunks-IsServed hs sized.1 wanted.1)

-- The download when the metafile has come.
abbrev begun : String → Bytes → Bytes → List Bytes → DownloadingFile
begun name meta_hash metafile slice = record (init_downloading_file name meta_hash) {
  metafile = some metafile;
  chunks_hashes_slice = slice;
  chunks_hashes_set = add_all slice [];
  chunks_to_download = add_all slice [];
}

module _ (sha : Sha) (name : String) (metafile : Bytes) (slice : List Bytes)
    (size : length metafile % 32 ≡ 0) (parsed : parse_loop 0 [] metafile ≡ slice) where
  abbrev hash : Bytes
  hash = sha.sum256 metafile

  got_metafile-begun :
      got_metafile false (init_downloading_file name hash) hash metafile
      ≡ (begun name hash metafile slice, true)
  unfolding got_metafile init_downloading_file
  got_metafile-begun =
      let whole : (length metafile % 32 == 0) ≡ true = (==_iff (length metafile % 32) 0).1 size in
      rw (whole, parsed)
        (if_pos (bytes_discrete hash hash) refl (begun name hash metafile slice, true)
          (init_downloading_file name hash, false))

  metafile_reply :
      process_data_reply sha false (init_downloading_file name hash) hash metafile
      ≡ (begun name hash metafile slice, some false)
  unfolding process_data_reply init_downloading_file
  metafile_reply =
      let sized : (length hash == 32) ≡ true =
        (==_iff (length hash) 32).1 (sha.length-sum256 metafile) in
      rw (sized, got_metafile-begun)
        (if_pos (bytes_discrete hash hash) refl (begun name hash metafile slice, some false)
          (init_downloading_file name hash, none))

  begun-IsDownload : IsDownload sha (begun name hash metafile slice)
  unfolding init_downloading_file
  begun-IsDownload =
      subst (λ (r : DownloadingFile × Option Bool). IsDownload sha r.0) metafile_reply
        (process_data_reply-IsDownload sha false (init_downloading_file name hash) hash metafile
          tt).0

  fetch_metafile :
      (answer : Bytes → Option Bytes) (picks : ℕ → ℕ) (n : ℕ) (k : Bytes)
      → answer hash ≡ some metafile
      → key_at (picks n) (add_all slice []) ≡ some k
      → fetch sha answer picks (suc n) (init_downloading_file name hash) hash
        ≡ fetch sha answer picks n (begun name hash metafile slice) k
  unfolding fetch
  fetch_metafile answer picks n k there first = rw (fetch, there, metafile_reply, first) refl

begun_first :
    (cs : List Bytes) (sha : Sha) (i : ℕ)
    → concat cs ≢ []
    → (k : Bytes) × (key_at i (add_all (hashes sha cs) []) ≡ some k)
begun_first [] sha i some_bytes = absurd (some_bytes refl)
begun_first (c ∷ cs) sha i some_bytes =
    let (j, m, e) = insert_some (sha.sum256 c) [] in
    let (j', m', e') = add_all_some (hashes sha cs) j m in
    rw (add_all, e, e') (key_at-some i (j', tt) m')

composed_bytes :
    (sha : Sha) (file_bytes : Bytes) (o : Option Bytes) (cs : List Bytes)
    → o ≡ some (concat cs)
    → hashes sha cs ≡ hashes sha (split file_bytes)
    → (o ≡ some file_bytes) ⊎ Collision sha
composed_bytes sha file_bytes o cs at e = elim (hashes-injective sha cs (split file_bytes) e) [
  | inl same ↦
      inl (at ∙ ap (λ ds. some (concat ds)) same ∙ ap (λ b. some b) (concat-split file_bytes))
  | inr found ↦ inr found
]

-- A download from a sharer of the file is finished after one request more than there are chunks.
pub fetch-share_file :
    (sha : Sha) (sfm : SharedFilesManager)
    → IsSharer sha sfm
    → IsStocker sfm
    → (name file_name : String) (file_bytes : Bytes) → length file_bytes ≤ max_file_size
    → file_bytes ≢ []
    → let hash = sha.sum256 (metafile_of sha file_bytes) in
      lookup hash sfm.shared_files ≡ none
      → (picks : ℕ → ℕ)
      → let sharer = (share_file sha sfm name false (some file_bytes)).0 in
        let requests = suc (length (split file_bytes)) in
        let fetched =
          fetch sha
            (get_chunk_or_metafile sharer)
            picks
            requests
            (init_downloading_file file_name hash)
            hash in
        (fetched.1 ≡ some true) × ((fetched.0.composed ≡ some file_bytes) ⊎ Collision sha)
fetch-share_file sha sfm sharer stocker name file_name file_bytes le some_bytes new picks =
    let chunks = split file_bytes in
    let metafile = metafile_of sha file_bytes in
    let slice = hashes sha chunks in
    let answer = get_chunk_or_metafile (after sha sfm name file_bytes) in
    let h = sha.sum256 metafile in
    let there : answer h ≡ some metafile =
      get_chunk_or_metafile-metafile (after sha sfm name file_bytes) h
        (file sha sfm name file_bytes) (sha.length-sum256 metafile)
        (shared_file-entered sha sfm name file_bytes le new) in
    let size = length-concat sha chunks in
    let parsed = parse_loop-hashes sha 0 chunks refl in
    let (k, first) =
      begun_first chunks sha (picks (length chunks))
        (λ (e : concat chunks ≡ []). some_bytes (sym (concat-split file_bytes) ∙ e)) in
    let served =
      add_all-All (IsServed sha answer) slice []
        (chunks-IsServed sha sfm name file_bytes sharer stocker le new slice (All-sized sha chunks)
          (add_all-Wanted slice []))
        tt in
    let few : length (add_all slice []) ≤ length chunks =
      omega (arith, length-add_all slice [], length-hashes sha chunks) in
    let (ended, (cs, at, e)) =
      fetch-Fetched sha answer picks (length chunks) (begun file_name h metafile slice)
        (picks (length chunks)) k refl first served
        (begun-IsDownload sha file_name metafile slice size parsed) few in
    rw
      (fetch_metafile sha file_name metafile slice size parsed answer picks (length chunks) k there
        first)
      (ended, composed_bytes sha file_bytes _ cs at e)
