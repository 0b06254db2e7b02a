-- ===== src/Files/Downloading/Sound.antt =====
-- What a downloader of files answers has the hash that was asked for:
-- models/filesharing/DownloadingFilesManager.go.
use mathlib.Core.Path.{subst}
use decentralized_peerster.Common.{
  ◌≡◌, sym, ◌∙◌, Bool, true, false, not, List, [], ◌∷◌, Option, none, some, String, Bytes,
  bytes_key, string_key, bytes_discrete, if_both, ite_both, ◌==◌, All, length, Option-cases, inl,
  inr,
}
use decentralized_peerster.Map.{lookup, insert, delete, All-lookup, All-insert, All-delete}
use decentralized_peerster.Hashing.{Sha}
use decentralized_peerster.Blockchain.Transactions.{is_some}
use decentralized_peerster.Files.{
  HashSet, DownloadingFile, init_downloading_file, got_metafile, check_finished, take_chunk,
  process_data_reply as process_file_reply,
}
use decentralized_peerster.Files.Sharing.Answers.{IsHashed, Answers, lookup-Answers}
use decentralized_peerster.Files.Downloading.{
  DownloadingFilesManager, file_has_downloaded_chunk, file_chunk_or_metafile, settle_file,
  start_downloading_from_origin, process_data_reply, find_downloaded, find_typed, or_none,
  get_chunk_or_metafile, drop_downloading,
}

module _ (sha : Sha) where
  pub record IsHonest (df : DownloadingFile) : Type 0 where
    pub metafile : Answers sha df.meta_hash df.metafile
    pub disk : IsHashed sha df.disk

  abbrev pub IsDownloader : DownloadingFilesManager → Type 0
  IsDownloader dfm =
      All (λ e. IsHonest e.1) dfm.downloading_files × All (λ e. IsHonest e.1) dfm.downloaded_files

  HonestResult : DownloadingFile × Option Bool → Type 0
  HonestResult r = IsHonest r.0

  result : (r : DownloadingFile × Option Bool) → IsHonest r.0 → HonestResult r
  unfolding HonestResult
  result r v = v

  got_metafile-IsHonest :
      (dir_exists : Bool) (df : DownloadingFile) (hash_value metafile : Bytes)
      → sha.sum256 metafile ≡ hash_value
      → IsHonest df
      → IsHonest (got_metafile dir_exists df hash_value metafile).0
  unfolding got_metafile
  got_metafile-IsHonest dir_exists df hash_value metafile e v =
      if_both (λ (r : DownloadingFile × Bool). IsHonest r.0) _ _ _ v
        (ite_both (λ (r : DownloadingFile × Bool). IsHonest r.0)
          (bytes_discrete hash_value df.meta_hash) _ _
          (λ same. record { metafile = e ∙ same; disk = v.disk }) v)

  check_finished-IsHonest :
      (set : HashSet) (df : DownloadingFile) → IsHonest df → HonestResult (check_finished set df)
  unfolding HonestResult
  check_finished-IsHonest [] df v = record { metafile = v.metafile; disk = v.disk }
  check_finished-IsHonest (x ∷ set) df v = v

  take_chunk-IsHonest :
      (df : DownloadingFile) (hash_value payload : Bytes)
      → sha.sum256 payload ≡ hash_value
      → IsHonest df
      → HonestResult (take_chunk df hash_value payload)
  unfolding take_chunk
  take_chunk-IsHonest df hash_value payload e v =
      let left = delete hash_value df.chunks_to_download in
      let df' : DownloadingFile = record df {
        chunks_to_download = left;
        disk = insert hash_value payload df.disk;
      } in
      if_both HonestResult (not (is_some (lookup hash_value df.chunks_to_download)))
        (df, some false) (check_finished left df') (result (df, some false) v)
        (check_finished-IsHonest left df' (record {
          metafile = v.metafile;
          disk = All-insert (λ e. sha.sum256 e.1 ≡ e.0) hash_value payload df.disk e v.disk;
        }))

  file_reply-IsHonest :
      (dir_exists : Bool) (df : DownloadingFile) (hash_value payload : Bytes)
      → IsHonest df
      → HonestResult (process_file_reply sha dir_exists df hash_value payload)
  unfolding process_file_reply
  file_reply-IsHonest dir_exists df hash_value payload v = if_both HonestResult _ _ _ (result _ v) (
      ite_both HonestResult (bytes_discrete (sha.sum256 payload) hash_value) _ _
        (λ e.
          if_both HonestResult _ _ _ (take_chunk-IsHonest df hash_value payload e v)
            (result _ (got_metafile-IsHonest dir_exists df hash_value payload e v)))
        (result _ v))

  settle_file-IsDownloader :
      (dfm : DownloadingFilesManager) (origin : String) (df : DownloadingFile)
      (answer : Option Bool)
      → IsHonest df
      → IsDownloader dfm
      → IsDownloader (settle_file dfm origin df answer)
  settle_file-IsDownloader dfm origin df none v all =
      (All-insert (λ e. IsHonest e.1) origin df dfm.downloading_files v all.0, all.1)
  settle_file-IsDownloader dfm origin df (some false) v all =
      (All-insert (λ e. IsHonest e.1) origin df dfm.downloading_files v all.0, all.1)
  settle_file-IsDownloader dfm origin df (some true) v all = (
    All-delete (λ e. IsHonest e.1) origin dfm.downloading_files all.0,
    All-insert (λ e. IsHonest e.1) df.meta_hash df dfm.downloaded_files v all.1,
  )

  pub process_data_reply-IsDownloader :
      (dir_exists : Bool) (dfm : DownloadingFilesManager) (origin : String)
      (hash_value payload : Bytes)
      → IsDownloader dfm
      → IsDownloader (process_data_reply sha dir_exists dfm origin hash_value payload).0
  unfolding process_data_reply HonestResult
  process_data_reply-IsDownloader dir_exists dfm origin hash_value payload all =
      elim (Option-cases (lookup origin dfm.downloading_files)) [
        | inl gone ↦ rw (process_data_reply, gone) all
        | inr (df, at) ↦
            let v = All-lookup (λ e. IsHonest e.1) origin df dfm.downloading_files all.0 at in
            rw (process_data_reply, at)
              (settle_file-IsDownloader dfm origin _ _
                (file_reply-IsHonest dir_exists df hash_value payload v) all)
      ]

  pub start-IsDownloader :
      (dfm : DownloadingFilesManager) (origin file_name : String) (metahash : Bytes)
      → IsDownloader dfm
      → IsDownloader (start_downloading_from_origin dfm origin file_name metahash).0
  unfolding start_downloading_from_origin init_downloading_file
  start-IsDownloader dfm origin file_name metahash all =
      if_both (λ (r : DownloadingFilesManager × Bool). IsDownloader r.0) _ _ _ all
        (
          All-insert (λ e. IsHonest e.1) origin (init_downloading_file file_name metahash)
              dfm.downloading_files (record { metafile = tt; disk = tt }) all.0,
          all.1,
        )

  pub drop-IsDownloader :
      (dfm : DownloadingFilesManager) (origin : String)
      → IsDownloader dfm
      → IsDownloader (drop_downloading dfm origin)
  drop-IsDownloader dfm origin all =
      (All-delete (λ e. IsHonest e.1) origin dfm.downloading_files all.0, all.1)

  file_chunk-Answers :
      (df : DownloadingFile) (h : Bytes) → IsHonest df → Answers sha h (file_chunk_or_metafile df h)
  unfolding file_chunk_or_metafile
  file_chunk-Answers df h v =
      ite_both (Answers sha h) (bytes_discrete h df.meta_hash) _ _
        (λ same. subst (λ k. Answers sha k df.metafile) (sym same) v.metafile)
        (if_both (Answers sha h) (file_has_downloaded_chunk df h) _ _
          (lookup-Answers sha h df.disk v.disk) tt)

  AnswersFound : Bytes → Option (Option Bytes) → Type 0
  AnswersFound h none = Unit
  AnswersFound h (some o) = Answers sha h o

  find_downloaded-AnswersFound :
      {K : Type 0} (dfs : List (K × DownloadingFile)) (h : Bytes)
      → All (λ e. IsHonest e.1) dfs
      → AnswersFound h (find_downloaded dfs h)
  unfolding find_downloaded AnswersFound
  find_downloaded-AnswersFound [] h all = tt
  find_downloaded-AnswersFound ((k, df) ∷ dfs) h all =
      if_both (AnswersFound h) (file_has_downloaded_chunk df h) _ _ (file_chunk-Answers df h all.0)
        (find_downloaded-AnswersFound dfs h all.1)

  pub get_chunk_or_metafile-Answers :
      (dfm : DownloadingFilesManager) (hash_value : Bytes)
      → IsDownloader dfm
      → Answers sha hash_value (get_chunk_or_metafile dfm hash_value)
  unfolding get_chunk_or_metafile AnswersFound
  get_chunk_or_metafile-Answers dfm hash_value all =
      if_both (λ (o : Option Bytes). Answers sha hash_value (find_typed dfm o))
        (length hash_value == 32) (some hash_value) none
        (either (find_downloaded dfm.downloading_files hash_value)
          (find_downloaded dfm.downloaded_files hash_value)
          (find_downloaded-AnswersFound dfm.downloading_files hash_value all.0)
          (find_downloaded-AnswersFound dfm.downloaded_files hash_value all.1))
        tt
    where
      either :
          (o p : Option (Option Bytes))
          → AnswersFound hash_value o
          → AnswersFound hash_value p
          → Answers sha hash_value (or_none o (or_none p none))
      either (some a) p ho hp = ho
      either none (some b) ho hp = hp
      either none none ho hp = tt
