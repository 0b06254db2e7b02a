-- ===== src/Gossiper/Downloads/Ends.antt =====
-- The goroutine of a download that gets an answer to each of its requests: gossiper/Gossiper.go,
-- startFileDownloadingGoroutine.
use mathlib.Core.Path.{subst}
use decentralized_peerster.Common.{
  ℕ, zero, suc, ◌≡◌, ◌≢◌, refl, sym, ◌∙◌, ap, Bool, true, false, List, Option, none, some, String,
  string_key, string_discrete, bytes_key, bytes_discrete, Bytes, if_pos, Option-cases, inl, inr,
}
use decentralized_peerster.Map.{lookup, insert, delete, lookup-insert, lookup-delete}
use decentralized_peerster.Models.{DataReply}
use decentralized_peerster.Hashing.{Sha}
use decentralized_peerster.Files.{DownloadingFile, process_data_reply as process_file_reply}
use decentralized_peerster.Files.Downloading.{
  DownloadingFilesManager, get_data_request, settle_file, process_data_reply, get_data_request_hash,
}
use decentralized_peerster.Files.Transfer.{fetch, continue, ask_for, fetch_answered, fetch_silent}
use decentralized_peerster.Gossiper.{Gossiper, DownloadLoop}
use decentralized_peerster.Gossiper.Downloads.{
  download_reply, go_on, end_loop, ask_next, with_loop, file_download_timeouts_limit,
}
use decentralized_peerster.Gossiper.Routing.{default_hop_limit}

-- The answer to the latest request.
abbrev pub reply_of : Gossiper → String → DownloadLoop → Bytes → DataReply
reply_of g origin l payload = record {
  origin = origin;
  destination = g.name;
  hop_limit = default_hop_limit;
  hash_value = l.latest_requested_hash;
  payload = payload;
}

-- The goroutine goes on while it has an entry.
abbrev pub while_running : (Gossiper → DownloadLoop → Gossiper) → String → Gossiper → Gossiper
while_running rest origin g = elim (lookup origin g.download_loops) [ none ↦ g | some l ↦ rest g l ]

unfinished :
    (df end : DownloadingFile) (o : Option Bool)
    → o ≢ some true
    → ¬ (Path (DownloadingFile × Option Bool) (df, o) (end, some true))
unfinished df end o other e = other (ap (λ (r : DownloadingFile × Option Bool). r.1) e)

module _ (sha : Sha) (answer : Bytes → Option Bytes) (origin : String) where
  -- At most `n` replies, each what the source has for the hash that was requested last. No directory
  -- of chunks with the file's name is there, and `picks n` is the position of the chunk that is asked for
  -- with `n` replies left.
  unfoldable pub answered : (ℕ → ℕ) → ℕ → Gossiper → DownloadLoop → Gossiper
  answered picks zero g l = g
  answered picks (suc n) g l = elim (answer l.latest_requested_hash) [
    | none ↦ g
    | some payload ↦
        while_running (answered picks n) origin
          (download_reply sha false (picks n) g origin l (reply_of g origin l payload)).0
  ]

  -- The goroutine has ended, and the file is among the downloaded ones.
  pub record IsEnded (df : DownloadingFile) (g : Gossiper) : Type 0 where
    pub loop : lookup origin g.download_loops ≡ none
    pub downloading : lookup origin g.downloading_files_manager.downloading_files ≡ none
    pub downloaded : lookup df.meta_hash g.downloading_files_manager.downloaded_files ≡ some df

  -- What the goroutine does after a reply that left `r`.
  abbrev settled : Gossiper → DownloadingFile × Option Bool → Gossiper
  settled g r = record g {
    downloading_files_manager = settle_file g.downloading_files_manager origin r.0 r.1;
  }

  reply-settled :
      (dfm : DownloadingFilesManager) (df : DownloadingFile) (hash_value payload : Bytes)
      → lookup origin dfm.downloading_files ≡ some df
      → let r = process_file_reply sha false df hash_value payload in
        process_data_reply sha false dfm origin hash_value payload
        ≡ (settle_file dfm origin r.0 r.1, r.1)
  unfolding process_data_reply
  reply-settled dfm df hash_value payload at = rw (process_data_reply, at) refl

  download_reply-settled :
      (pick : ℕ) (g : Gossiper) (l : DownloadLoop) (df : DownloadingFile) (payload : Bytes)
      → lookup origin g.downloading_files_manager.downloading_files ≡ some df
      → let r = process_file_reply sha false df l.latest_requested_hash payload in
        download_reply sha false pick g origin l (reply_of g origin l payload)
        ≡ go_on pick (settled g r) origin l r.1
  unfolding download_reply
  download_reply-settled pick g l df payload at =
      ap
        (λ (p : DownloadingFilesManager × Option Bool).
          go_on pick (record g { downloading_files_manager = p.0 }) origin l p.1)
        (reply-settled g.downloading_files_manager df l.latest_requested_hash payload at)

  lookup_inserted :
      {V : Type 0} (v : V) (m : List (String × V)) → lookup origin (insert origin v m) ≡ some v
  lookup_inserted {V} v m =
      lookup-insert {V = V} origin origin v m ∙ if_pos (string_discrete origin origin) refl _ _

  lookup_deleted : {V : Type 0} (m : List (String × V)) → lookup origin (delete origin m) ≡ none
  lookup_deleted {V} m =
      lookup-delete {V = V} origin origin m ∙ if_pos (string_discrete origin origin) refl _ _

  running :
      (rest : Gossiper → DownloadLoop → Gossiper) (g : Gossiper) (l : DownloadLoop)
      → lookup origin g.download_loops ≡ some l
      → while_running rest origin g ≡ rest g l
  running rest g l at = rw (while_running, at) refl

  stopped :
      (rest : Gossiper → DownloadLoop → Gossiper) (g : Gossiper)
      → lookup origin g.download_loops ≡ none
      → while_running rest origin g ≡ g
  stopped rest g at = rw (while_running, at) refl

  -- What the rounds that follow leave.
  abbrev GoesOn : (ℕ → ℕ) → ℕ → DownloadingFile → Type 0
  GoesOn picks n end =
      (g : Gossiper) (l : DownloadLoop) (df : DownloadingFile)
      → lookup origin g.download_loops ≡ some l
      → lookup origin g.downloading_files_manager.downloading_files ≡ some df
      → fetch sha answer picks n df l.latest_requested_hash ≡ (end, some true)
      → IsEnded end (answered picks n g l)

  ask_next-IsEnded :
      (picks : ℕ → ℕ) (n : ℕ) (g : Gossiper) (l : DownloadLoop) (df end : DownloadingFile)
      (o : Option Bytes)
      → lookup origin g.downloading_files_manager.downloading_files ≡ some df
      → ask_for (fetch sha answer picks n) df o ≡ (end, some true)
      → GoesOn picks n end
      → IsEnded end (while_running (answered picks n) origin (ask_next g origin l o).0)
  ask_next-IsEnded picks n g l df end none at e more =
      absurd (unfinished df end (some false) (λ f. cc) e)
  ask_next-IsEnded picks n g l df end (some next) at e more =
      let l' : DownloadLoop = record l { latest_requested_hash = next } in
      let here = lookup_inserted l' g.download_loops in
      rw (running (answered picks n) (with_loop g origin l') l' here)
        (more (with_loop g origin l') l' df here at e)

  requested :
      (pick : ℕ) (dfm : DownloadingFilesManager) (df : DownloadingFile)
      → lookup origin dfm.downloading_files ≡ some df
      → get_data_request_hash pick dfm origin ≡ get_data_request pick df
  unfolding get_data_request_hash
  requested pick dfm df at = rw (get_data_request_hash, at) refl

  -- One reply, if what follows it is as `fetch` says.
  go_on-IsEnded :
      (picks : ℕ → ℕ) (n : ℕ) (g : Gossiper) (l : DownloadLoop) (r : DownloadingFile × Option Bool)
      (end : DownloadingFile)
      → lookup origin g.download_loops ≡ some l
      → continue (fetch sha answer picks n) (picks n) l.latest_requested_hash r ≡ (end, some true)
      → GoesOn picks n end
      → IsEnded end
          (while_running (answered picks n) origin (go_on (picks n) (settled g r) origin l r.1).0)
  go_on-IsEnded picks n g l (df, none) end here e more =
      rw (running (answered picks n) (settled g (df, none)) l here)
        (more _ l df here (lookup_inserted df _) e)
  go_on-IsEnded picks n g l (df, some true) end here e more =
      let same : df ≡ end = ap (λ (r : DownloadingFile × Option Bool). r.0) e in
      let gone = lookup_deleted g.download_loops in
      let kept =
        lookup-insert {V = DownloadingFile} df.meta_hash df.meta_hash df
          g.downloading_files_manager.downloaded_files
        ∙ if_pos (bytes_discrete df.meta_hash df.meta_hash) refl _ _ in
      rw (stopped (answered picks n) (end_loop (settled g (df, some true)) origin) gone) (
        subst (λ f. IsEnded f (end_loop (settled g (df, some true)) origin)) same
          (record {
            loop = gone;
            downloading = lookup_deleted g.downloading_files_manager.downloading_files;
            downloaded = kept;
          }))
  go_on-IsEnded picks n g l (df, some false) end here e more =
      let l' : DownloadLoop = record l { timeouts_limit = file_download_timeouts_limit } in
      let g' = settled g (df, some false) in
      let at = lookup_inserted df g.downloading_files_manager.downloading_files in
      subst (λ o. IsEnded end (while_running (answered picks n) origin (ask_next g' origin l' o).0))
        (sym (requested (picks n) g'.downloading_files_manager df at))
        (ask_next-IsEnded picks n g' l' df end (get_data_request (picks n) df) at e more)

  -- The goroutine ends if the requests that `fetch` makes finish the file.
  pub answered-IsEnded :
      (picks : ℕ → ℕ) (n : ℕ) (g : Gossiper) (l : DownloadLoop) (df end : DownloadingFile)
      → lookup origin g.download_loops ≡ some l
      → lookup origin g.downloading_files_manager.downloading_files ≡ some df
      → fetch sha answer picks n df l.latest_requested_hash ≡ (end, some true)
      → IsEnded end (answered picks n g l)
  unfolding answered fetch
  answered-IsEnded picks zero g l df end here at e = absurd (unfinished df end none (λ f. cc) e)
  answered-IsEnded picks (suc n) g l df end here at e =
      elim (Option-cases (answer l.latest_requested_hash)) [
        | inl silent ↦ absurd (
            unfinished df end none (λ f. cc)
              (sym (fetch_silent sha answer picks n df l.latest_requested_hash silent) ∙ e))
        | inr (payload, given) ↦
            let r = process_file_reply sha false df l.latest_requested_hash payload in
            rw (answered, given, download_reply-settled (picks n) g l df payload at)
              (go_on-IsEnded picks n g l r end here
                (sym (fetch_answered sha answer picks n df l.latest_requested_hash payload given)
                  ∙ e)
                (λ g' l' df'. answered-IsEnded picks n g' l' df' end))
      ]
