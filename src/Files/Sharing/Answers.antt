-- ===== src/Files/Sharing/Answers.antt =====
-- What the sharer of files answers has the hash that was asked for:
-- models/filesharing/SharedFilesManager.go.
use decentralized_peerster.Common.{
  ◌≡◌, refl, ◌∙◌, Bool, true, false, List, [], ◌∷◌, Option, none, some, String, Bytes, bytes_key,
  if_both, ◌==◌, All, length, ltb, Option-cases, inl, inr,
}
use decentralized_peerster.Map.{Map, lookup, insert, All-lookup, All-insert}
use decentralized_peerster.Hashing.{Sha}
use decentralized_peerster.Blockchain.Transactions.{is_some}
use decentralized_peerster.Files.{
  SharedFile, share_file as share_path, write_chunks, max_file_size, split,
}
use decentralized_peerster.Files.Sharing.{
  SharedFilesManager, chunk_belongs_to_file, get_chunk, find_chunk, find_metafile, find_typed,
  enter_file, share_file, get_chunk_or_metafile,
}

module _ (sha : Sha) where
  -- The chunks on a disk stand under their hashes.
  abbrev pub IsHashed : Map Bytes Bytes → Type 0
  IsHashed disk = All (λ e. sha.sum256 e.1 ≡ e.0) disk

  -- If there is an answer, it has the hash.
  abbrev pub Answers : Bytes → Option Bytes → Type 0
  Answers h none = Unit
  Answers h (some b) = sha.sum256 b ≡ h

  pub lookup-Answers :
      (h : Bytes) (disk : Map Bytes Bytes) → IsHashed disk → Answers h (lookup h disk)
  lookup-Answers h disk all = elim (Option-cases (lookup h disk)) [
    | inl gone ↦ rw gone tt
    | inr (b, at) ↦ rw at (All-lookup (λ e. sha.sum256 e.1 ≡ e.0) h b disk all at)
  ]

  pub write_chunks-IsHashed :
      (cs : List Bytes) (disk : Map Bytes Bytes)
      → IsHashed disk
      → IsHashed (write_chunks sha cs disk)
  write_chunks-IsHashed [] disk all = all
  write_chunks-IsHashed (c ∷ cs) disk all =
      write_chunks-IsHashed cs (insert (sha.sum256 c) c disk)
        (All-insert (λ e. sha.sum256 e.1 ≡ e.0) (sha.sum256 c) c disk refl all)

  abbrev pub IsShared : Bytes × SharedFile → Type 0
  IsShared (h, sf) =
      (sf.meta_hash ≡ h) × (sha.sum256 sf.meta_slice ≡ sf.meta_hash) × IsHashed sf.disk

  abbrev pub IsSharer : SharedFilesManager → Type 0
  IsSharer sfm = All IsShared sfm.shared_files

  Entered : Option SharedFile → Type 0
  Entered none = Unit
  Entered (some sf) = IsShared (sf.meta_hash, sf)

  share_path-Entered :
      (name : String) (is_shared : Bool) (file_bytes : Option Bytes)
      → Entered (share_path sha name is_shared file_bytes)
  unfolding share_path Entered
  share_path-Entered name true file_bytes = tt
  share_path-Entered name false none = tt
  share_path-Entered name false (some b) =
      if_both Entered (ltb max_file_size (length b)) none _ tt
        (refl, refl, write_chunks-IsHashed (split b) [] tt)

  enter_file-IsSharer :
      (sfm : SharedFilesManager) (o : Option SharedFile)
      → IsSharer sfm
      → Entered o
      → IsSharer (enter_file sfm o).0
  unfolding Entered
  enter_file-IsSharer sfm none all e = all
  enter_file-IsSharer sfm (some sf) all e =
      if_both (λ (r : SharedFilesManager × Option SharedFile). IsSharer r.0)
        (is_some (lookup sf.meta_hash sfm.shared_files)) _ _ all
        (All-insert IsShared sf.meta_hash sf sfm.shared_files e all)

  find_chunk-Answers :
      (sfs : List (Bytes × SharedFile)) (h : Bytes)
      → All IsShared sfs
      → Answers h (find_chunk sfs h)
  unfolding find_chunk get_chunk
  find_chunk-Answers [] h all = tt
  find_chunk-Answers ((k, sf) ∷ sfs) h all =
      if_both (Answers h) (chunk_belongs_to_file sf h) _ _
        (if_both (Answers h) (chunk_belongs_to_file sf h) _ _ (lookup-Answers h sf.disk all.0.2) tt)
        (find_chunk-Answers sfs h all.1)

  find_metafile-Answers :
      (sfm : SharedFilesManager) (h : Bytes)
      → IsSharer sfm
      → Answers h (find_metafile sfm h (lookup h sfm.shared_files))
  find_metafile-Answers sfm h all = elim (Option-cases (lookup h sfm.shared_files)) [
    | inl gone ↦ rw gone (find_chunk-Answers sfm.shared_files h all)
    | inr (sf, at) ↦
        let right = All-lookup IsShared h sf sfm.shared_files all at in rw at (right.1 ∙ right.0)
  ]

  pub share_file-IsSharer :
      (sfm : SharedFilesManager) (name : String) (is_shared : Bool) (file_bytes : Option Bytes)
      → IsSharer sfm
      → IsSharer (share_file sha sfm name is_shared file_bytes).0
  unfolding share_file
  share_file-IsSharer sfm name is_shared file_bytes all =
      enter_file-IsSharer sfm _ all (share_path-Entered name is_shared file_bytes)

  pub get_chunk_or_metafile-Answers :
      (sfm : SharedFilesManager) (hash_value : Bytes)
      → IsSharer sfm
      → Answers hash_value (get_chunk_or_metafile sfm hash_value)
  unfolding get_chunk_or_metafile
  get_chunk_or_metafile-Answers sfm hash_value all =
      if_both (λ (o : Option Bytes). Answers hash_value (find_typed sfm o))
        (length hash_value == 32) (some hash_value) none (find_metafile-Answers sfm hash_value all)
        tt
