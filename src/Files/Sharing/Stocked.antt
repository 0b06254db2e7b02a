-- ===== src/Files/Sharing/Stocked.antt =====
-- The sharer of files has every chunk that its metafiles list: models/filesharing/SharedFile.go and
-- SharedFilesManager.go.
use mathlib.Core.Path.{subst}
use decentralized_peerster.Common.{
  ◌≡◌, refl, sym, ◌∙◌, Bool, true, false, List, [], ◌∷◌, Option, none, some, String, Bytes,
  bytes_key, bytes_discrete, arith, All, length, Option-cases, Bool-cases, inl, inr, ==_iff, ltb,
  if_both,
}
use decentralized_peerster.Map.{Map, lookup, insert, All-insert, lookup-insert}
use decentralized_peerster.Hashing.{Sha}
use decentralized_peerster.Blockchain.Transactions.{is_some}
use decentralized_peerster.Files.{
  HashSet, SharedFile, hashes, add_all, write_chunks, split, max_file_size,
  share_file as share_path,
}
use decentralized_peerster.Files.Sharing.{
  SharedFilesManager, chunk_belongs_to_file, get_chunk, find_chunk, find_metafile, enter_file,
  share_file, get_chunk_or_metafile,
}

abbrev pub Listed : HashSet → Bytes → Type 0
Listed set h = is_some (lookup h set) ≡ true

-- Each chunk that a file lists is on the disk.
abbrev pub IsStocked : SharedFile → Type 0
IsStocked sf = (h : Bytes) → Listed sf.meta_set h → is_some (lookup h sf.disk) ≡ true

abbrev pub IsStocker : SharedFilesManager → Type 0
IsStocker sfm = All (λ (e : Bytes × SharedFile). IsStocked e.1) sfm.shared_files

false_ne_true : ¬ (false ≡ true)
false_ne_true e = cc

find_chunk-some :
    (sfs : List (Bytes × SharedFile)) (k : Bytes) (sf : SharedFile) (h : Bytes)
    → All (λ (e : Bytes × SharedFile). IsStocked e.1) sfs
    → lookup k sfs ≡ some sf
    → Listed sf.meta_set h
    → is_some (find_chunk sfs h) ≡ true
unfolding find_chunk get_chunk lookup
find_chunk-some [] k sf h all at w = absurd (cc)
find_chunk-some ((j, sf') ∷ sfs) k sf h all at w = elim (Bool-cases (chunk_belongs_to_file sf' h)) [
  | inl belongs ↦ rw belongs (all.0 h belongs)
  | inr other ↦ rw other (elim (bytes_discrete j k) [
    | yes same ↦
        let here : sf' ≡ sf = ground arith in
        absurd
          (false_ne_true (sym other ∙ subst (λ (f : SharedFile). Listed f.meta_set h) (sym here) w))
    | no differs ↦ find_chunk-some sfs k sf h all.1 (ground arith) w
  ])
]

module _ (sha : Sha) where
  write_chunks-IsStocked :
      (cs : List Bytes) (set : HashSet) (disk : Map Bytes Bytes)
      → ((h : Bytes) → Listed set h → is_some (lookup h disk) ≡ true)
      → (h : Bytes) → Listed (add_all (hashes sha cs) set) h
      → is_some (lookup h (write_chunks sha cs disk)) ≡ true
  write_chunks-IsStocked [] set disk stocked h w = stocked h w
  write_chunks-IsStocked (c ∷ cs) set disk stocked h w =
      let k = sha.sum256 c in
      write_chunks-IsStocked cs (insert k tt set) (insert k c disk)
        (λ g w'. ground (
          arith,
          lookup-insert {V = Unit {0}} k g tt set,
          lookup-insert {V = Bytes} k g c disk,
          stocked g,
        ))
        h w

  Stocked : Option SharedFile → Type 0
  Stocked none = Unit
  Stocked (some sf) = IsStocked sf

  share_path-Stocked :
      (name : String) (is_shared : Bool) (file_bytes : Option Bytes)
      → Stocked (share_path sha name is_shared file_bytes)
  unfolding share_path Stocked lookup
  share_path-Stocked name true file_bytes = tt
  share_path-Stocked name false none = tt
  share_path-Stocked name false (some b) =
      if_both Stocked (ltb max_file_size (length b)) none _ tt
        (write_chunks-IsStocked (split b) [] [] (λ h w. w))

  enter_file-IsStocker :
      (sfm : SharedFilesManager) (o : Option SharedFile)
      → IsStocker sfm
      → Stocked o
      → IsStocker (enter_file sfm o).0
  unfolding Stocked
  enter_file-IsStocker sfm none all e = all
  enter_file-IsStocker sfm (some sf) all e =
      if_both (λ (r : SharedFilesManager × Option SharedFile). IsStocker r.0)
        (is_some (lookup sf.meta_hash sfm.shared_files)) _ _ all
        (All-insert (λ (e : Bytes × SharedFile). IsStocked e.1) sf.meta_hash sf sfm.shared_files e
          all)

  pub share_file-IsStocker :
      (sfm : SharedFilesManager) (name : String) (is_shared : Bool) (file_bytes : Option Bytes)
      → IsStocker sfm
      → IsStocker (share_file sha sfm name is_shared file_bytes).0
  unfolding share_file
  share_file-IsStocker sfm name is_shared file_bytes all =
      enter_file-IsStocker sfm _ all (share_path-Stocked name is_shared file_bytes)

-- A chunk of a file that is entered is answered.
find_metafile-some :
    (sfm : SharedFilesManager) (k : Bytes) (sf : SharedFile) (h : Bytes)
    → IsStocker sfm
    → lookup k sfm.shared_files ≡ some sf
    → Listed sf.meta_set h
    → is_some (find_metafile sfm h (lookup h sfm.shared_files)) ≡ true
find_metafile-some sfm k sf h all at w = elim (Option-cases (lookup h sfm.shared_files)) [
  | inl gone ↦ rw gone (find_chunk-some sfm.shared_files k sf h all at w)
  | inr (other, here) ↦ rw here refl
]

pub get_chunk_or_metafile-chunk :
    (sfm : SharedFilesManager) (k : Bytes) (sf : SharedFile) (h : Bytes)
    → length h ≡ 32
    → IsStocker sfm
    → lookup k sfm.shared_files ≡ some sf
    → Listed sf.meta_set h
    → is_some (get_chunk_or_metafile sfm h) ≡ true
unfolding get_chunk_or_metafile
get_chunk_or_metafile-chunk sfm k sf h size all at w =
    rw ((==_iff (length h) 32).1 size) (find_metafile-some sfm k sf h all at w)

pub get_chunk_or_metafile-metafile :
    (sfm : SharedFilesManager) (h : Bytes) (sf : SharedFile)
    → length h ≡ 32
    → lookup h sfm.shared_files ≡ some sf
    → get_chunk_or_metafile sfm h ≡ some sf.meta_slice
unfolding get_chunk_or_metafile
get_chunk_or_metafile-metafile sfm h sf size at = rw ((==_iff (length h) 32).1 size, at) refl
