-- ===== src/Files/Transfer.antt =====
-- A download from one source: gossiper/Gossiper.go, startFileDownloadingGoroutine, with
-- models/filesharing/DownloadingFile.go. `answer` is what the source has for a hash.
pub mod Served
use mathlib.Core.Path.{subst}
use decentralized_peerster.Common.{
  ℕ, zero, suc, ◌≡◌, ◌≢◌, ◌≤◌, ◌<◌, refl, sym, ap, ◌∙◌, Bool, true, false, not, List, [], ◌∷◌,
  Option, none, some, String, Bytes, bytes_key, bytes_discrete, arith, All, length, if◌then◌else◌,
  ite, ◌==◌, Option-cases, inl, inr, ==_iff, if_pos,
}
use decentralized_peerster.Map.{
  Map, insert, lookup, delete, All-delete, length-delete-lt, entries_present,
}
use decentralized_peerster.Hashing.{Sha}
use decentralized_peerster.Blockchain.Transactions.{is_some}
use decentralized_peerster.Files.{
  HashSet, DownloadingFile, concat, hashes, check_finished, take_chunk, process_data_reply,
}
use decentralized_peerster.Files.Downloading.{or_key, key_at, get_data_request}
use decentralized_peerster.Files.Download.{IsDownload, Finished, process_data_reply-IsDownload}

-- Ask for the next hash; with no hash left, wait.
abbrev pub ask_for :
    (DownloadingFile → Bytes → DownloadingFile × Option Bool)
    → DownloadingFile
    → Option Bytes
    → DownloadingFile × Option Bool
ask_for rest df none = (df, some false)
ask_for rest df (some next) = rest df next

-- Ask for the next hash, or ask for the same again; `rest` is what follows.
abbrev pub continue :
    (DownloadingFile → Bytes → DownloadingFile × Option Bool)
    → ℕ
    → Bytes
    → DownloadingFile × Option Bool
    → DownloadingFile × Option Bool
continue rest pick hash_value (df, none) = rest df hash_value
continue rest pick hash_value (df, some true) = (df, some true)
continue rest pick hash_value (df, some false) = ask_for rest df (get_data_request pick df)

pub is_some_present : {A : Type 0} (o : Option A) → o ≢ none → is_some o ≡ true
is_some_present none some_a = absurd (some_a refl)
is_some_present (some a) some_a = refl

or_key-some : (h : Bytes) (o : Option Bytes) → (k : Bytes) × (or_key h o ≡ some k)
or_key-some h none = (h, refl)
or_key-some h (some k) = (k, refl)

pub key_at-some :
    (i : ℕ) (e : Bytes × Unit {0}) (m : HashSet) → (k : Bytes) × (key_at i (e ∷ m) ≡ some k)
unfolding key_at
key_at-some zero (h, _) m = (h, refl)
key_at-some (suc i) (h, _) m = or_key-some h (key_at i m)

or_key-P :
    (P : Bytes → Type 0) (h k : Bytes) (o : Option Bytes)
    → or_key h o ≡ some k
    → P h
    → ((j : Bytes) → o ≡ some j → P j)
    → P k
or_key-P P h k none e p more = subst P (cc) p
or_key-P P h k (some j) e p more = subst P (cc) (more j refl)

key_at-All :
    (P : Bytes → Type 0) (i : ℕ) (k : Bytes) (m : HashSet)
    → key_at i m ≡ some k
    → All (λ e. P e.0) m
    → P k
unfolding key_at
key_at-All P i k [] e all = absurd (cc)
key_at-All P zero k ((h, _) ∷ m) e all = subst P (cc) all.0
key_at-All P (suc i) k ((h, _) ∷ m) e all =
    or_key-P P h k (key_at i m) e all.0 (λ j at. key_at-All P i j m at all.1)

key_at-present : (i : ℕ) (k : Bytes) (m : HashSet) → key_at i m ≡ some k → lookup k m ≢ none
key_at-present i k m e = key_at-All (λ h. lookup h m ≢ none) i k m e (entries_present m)

key_at-some_left : (i : ℕ) (k : Bytes) (m : HashSet) → key_at i m ≡ some k → length m ≢ 0
unfolding key_at
key_at-some_left i k [] e = absurd (cc)
key_at-some_left i k (h ∷ m) e = omega arith

key_at-unfinished :
    (i : ℕ) (k : Bytes) (left : HashSet) (df : DownloadingFile)
    → key_at i left ≡ some k
    → (check_finished left df).0 ≡ df
unfolding key_at
key_at-unfinished i k [] df e = absurd (cc)
key_at-unfinished i k (h ∷ m) df e = refl

module _ (sha : Sha) (answer : Bytes → Option Bytes) where
  -- At most `n` requests, the first for `hash_value`; the download ends where no answer comes.
  -- `picks n` is the position of the hash that is asked for with `n` requests left.
  unfoldable pub fetch : (ℕ → ℕ) → ℕ → DownloadingFile → Bytes → DownloadingFile × Option Bool
  fetch picks zero df hash_value = (df, none)
  fetch picks (suc n) df hash_value = elim (answer hash_value) [
    | none ↦ (df, none)
    | some payload ↦
        continue (fetch picks n) (picks n) hash_value
          (process_data_reply sha false df hash_value payload)
  ]

  pub fetch_answered :
      (picks : ℕ → ℕ) (n : ℕ) (df : DownloadingFile) (h payload : Bytes)
      → answer h ≡ some payload
      → fetch picks (suc n) df h
        ≡ continue (fetch picks n) (picks n) h (process_data_reply sha false df h payload)
  unfolding fetch
  fetch_answered picks n df h payload at = rw (fetch, at) refl

  pub fetch_silent :
      (picks : ℕ → ℕ) (n : ℕ) (df : DownloadingFile) (h : Bytes)
      → answer h ≡ none
      → fetch picks (suc n) df h ≡ (df, none)
  unfolding fetch
  fetch_silent picks n df h at = rw (fetch, at) refl

  -- The source has data with this hash.
  abbrev pub IsServed : Bytes → Type 0
  IsServed h =
      (length h ≡ 32) × ((payload : Bytes) × (answer h ≡ some payload) × (sha.sum256 payload ≡ h))

  -- The download is finished, and its file is made of chunks with these hashes.
  abbrev pub Fetched : List Bytes → DownloadingFile × Option Bool → Type 0
  Fetched slice r =
      (r.1 ≡ some true)
      × ((cs : List Bytes) × (r.0.composed ≡ some (concat cs)) × (hashes sha cs ≡ slice))

  chunk_reply :
      (df : DownloadingFile) (h payload : Bytes)
      → length h ≡ 32
      → sha.sum256 payload ≡ h
      → is_some df.metafile ≡ true
      → process_data_reply sha false df h payload ≡ take_chunk df h payload
  unfolding process_data_reply
  chunk_reply df h payload size right meta =
      let sized : (length h == 32) ≡ true = (==_iff (length h) 32).1 size in
      rw (sized, if_pos (bytes_discrete (sha.sum256 payload) h) right, meta) refl

  -- What `take_chunk` leaves when the chunk was wanted.
  abbrev with_chunk : DownloadingFile → Bytes → Bytes → DownloadingFile
  with_chunk df h payload = record df {
    chunks_to_download = delete h df.chunks_to_download;
    disk = insert h payload df.disk;
  }

  wanted_chunk :
      (df : DownloadingFile) (h payload : Bytes)
      → lookup h df.chunks_to_download ≢ none
      → take_chunk df h payload
        ≡ check_finished (delete h df.chunks_to_download) (with_chunk df h payload)
  unfolding take_chunk
  wanted_chunk df h payload some_h =
      let wanted : is_some (lookup h df.chunks_to_download) ≡ true =
        is_some_present (lookup h df.chunks_to_download) some_h in
      rw wanted refl

  continue-Fetched :
      (rest : DownloadingFile → Bytes → DownloadingFile × Option Bool) (pick : ℕ) (h : Bytes)
      (left : HashSet) (df : DownloadingFile)
      → df.chunks_to_download ≡ left
      → Finished sha (check_finished left df).0 (check_finished left df).1
      → ((next : Bytes)
          → key_at pick left ≡ some next
          → Fetched df.chunks_hashes_slice (rest df next))
      → Fetched df.chunks_hashes_slice (continue rest pick h (check_finished left df))
  continue-Fetched rest pick h [] df e finished more = (refl, finished)
  continue-Fetched rest pick h (e' ∷ m) df e finished more =
      let (next, at) = key_at-some pick e' m in
      subst (λ o. Fetched df.chunks_hashes_slice (ask_for rest df o))
        (sym (ap (λ l. key_at pick l) e ∙ at)) (more next at)

  -- A request for each hash that is left.
  pub fetch-Fetched :
      (picks : ℕ → ℕ) (n : ℕ) (df : DownloadingFile) (i : ℕ) (h : Bytes)
      → is_some df.metafile ≡ true
      → key_at i df.chunks_to_download ≡ some h
      → All (λ e. IsServed e.0) df.chunks_to_download
      → IsDownload sha df
      → length df.chunks_to_download ≤ n
      → Fetched df.chunks_hashes_slice (fetch picks n df h)
  unfolding fetch
  fetch-Fetched picks zero df i h meta first served v le =
      absurd (key_at-some_left i h df.chunks_to_download first (omega arith))
  fetch-Fetched picks (suc n) df i h meta first served v le =
      let (size, (payload, at, right)) =
        key_at-All IsServed i h df.chunks_to_download first served in
      let some_h = key_at-present i h df.chunks_to_download first in
      let left = delete h df.chunks_to_download in
      let reply = chunk_reply df h payload size right meta ∙ wanted_chunk df h payload some_h in
      let (v', finished) =
        subst (λ (r : DownloadingFile × Option Bool). IsDownload sha r.0 × Finished sha r.0 r.1)
          reply (process_data_reply-IsDownload sha false df h payload v) in
      let lt : length left < length df.chunks_to_download =
        length-delete-lt h df.chunks_to_download some_h in
      let fewer : length left ≤ n = omega arith in
      rw (fetch, at, reply)
        (continue-Fetched (fetch picks n) (picks n) h left (with_chunk df h payload) refl finished
          (λ next e.
            fetch-Fetched picks n (with_chunk df h payload) (picks n) next meta e
              (All-delete (λ e. IsServed e.0) h df.chunks_to_download served)
              (subst (λ d. IsDownload sha d)
                (key_at-unfinished (picks n) next left (with_chunk df h payload) e) v')
              fewer))
