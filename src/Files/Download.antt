-- ===== src/Files/Download.antt =====
-- A download from its start to the composed file: models/filesharing/DownloadingFile.go.
use decentralized_peerster.Common.{
  ite_both, if_both, ◌≡◌, refl, ◌∙◌, ◌⊎◌, inl, inr, Bool, true, false, List, [], ◌∷◌, Option, none,
  some, Bytes, bytes_key, bytes_discrete, if◌then◌else◌, arith, All,
}
use decentralized_peerster.Map.{Map, lookup, insert, delete, lookup-insert, lookup-delete}
use decentralized_peerster.Hashing.{Sha}
use decentralized_peerster.Blockchain.Transactions.{is_some}
use decentralized_peerster.Files.{
  HashSet, DownloadingFile, concat, hashes, add_all, parse_loop, got_metafile, compose,
  check_finished, take_chunk, process_data_reply,
}

abbrev pub Wanted : HashSet → Bytes → Type 0
Wanted set h = is_some (lookup h set) ≡ true

-- The chunk of a hash is still to come, or is on the disk with that hash.
abbrev pub Held : Sha → HashSet → Map Bytes Bytes → Bytes → Type 0
Held sha set disk h = Wanted set h ⊎ ((c : Bytes) × (lookup h disk ≡ some c) × (sha.sum256 c ≡ h))

abbrev pub IsDownload : Sha → DownloadingFile → Type 0
IsDownload sha df = All (Held sha df.chunks_to_download df.disk) df.chunks_hashes_slice

-- The file on the disk is made of chunks with the hashes of the metafile, in order.
abbrev pub Finished : Sha → DownloadingFile → Option Bool → Type 0
Finished sha df none = Unit
Finished sha df (some false) = Unit
Finished sha df (some true) =
    (cs : List Bytes) × (df.composed ≡ some (concat cs)) × (hashes sha cs ≡ df.chunks_hashes_slice)

add_all_keeps :
    (hs : List Bytes) (set : HashSet) (h : Bytes) → Wanted set h → Wanted (add_all hs set) h
add_all_keeps [] set h w = w
add_all_keeps (g ∷ hs) set h w =
    add_all_keeps hs (insert g tt set) h (ground (arith, lookup-insert {V = Unit {0}} g h tt set))

weaken_Held :
    (sha : Sha) (disk : Map Bytes Bytes) (a : HashSet) (hs gs : List Bytes)
    → All (Wanted (add_all hs a)) gs
    → All (Held sha (add_all hs a) disk) gs
weaken_Held sha disk a hs [] all = tt
weaken_Held sha disk a hs (g ∷ gs) all = (inl all.0, weaken_Held sha disk a hs gs all.1)

pub add_all-Wanted : (hs : List Bytes) (set : HashSet) → All (Wanted (add_all hs set)) hs
add_all-Wanted [] set = tt
add_all-Wanted (h ∷ hs) set = (
  add_all_keeps hs (insert h tt set) h (ground (arith, lookup-insert {V = Unit {0}} h h tt set)),
  add_all-Wanted hs (insert h tt set),
)

-- A chunk arrives.
Held-arrival :
    (sha : Sha) (set : HashSet) (disk : Map Bytes Bytes) (h payload g : Bytes)
    → sha.sum256 payload ≡ h
    → Held sha set disk g
    → Held sha (delete h set) (insert h payload disk) g
Held-arrival sha set disk h payload g e held = elim (bytes_discrete h g) [
  | yes same ↦ inr (payload, ground (arith, lookup-insert {V = Bytes} h g payload disk), e ∙ same)
  | no other ↦ elim held [
    | inl w ↦ inl (ground (arith, lookup-delete {V = Unit {0}} h g set))
    | inr (c, at, right) ↦
        inr (c, ground (arith, lookup-insert {V = Bytes} h g payload disk), right)
  ]
]

arrival :
    (sha : Sha) (set : HashSet) (disk : Map Bytes Bytes) (h payload : Bytes) (gs : List Bytes)
    → sha.sum256 payload ≡ h
    → All (Held sha set disk) gs
    → All (Held sha (delete h set) (insert h payload disk)) gs
arrival sha set disk h payload [] e all = tt
arrival sha set disk h payload (g ∷ gs) e all =
    (Held-arrival sha set disk h payload g e all.0, arrival sha set disk h payload gs e all.1)

none-Wanted : (g : Bytes) → ¬ Wanted [] g
unfolding lookup
none-Wanted g w = cc

compose-All :
    (sha : Sha) (disk : Map Bytes Bytes) (hs : List Bytes)
    → All (Held sha [] disk) hs
    → (cs : List Bytes) × (compose hs disk ≡ some (concat cs)) × (hashes sha cs ≡ hs)
unfolding compose
compose-All sha disk [] all = ([], refl, refl)
compose-All sha disk (h ∷ hs) all =
    let (cs, e, right) = compose-All sha disk hs all.1 in
    elim all.0 [
      | inl w ↦ absurd (none-Wanted h w)
      | inr (c, at, hash) ↦ (c ∷ cs, rw (at, e) refl, rw (hash, right) refl)
    ]

metafile-IsDownload :
    (sha : Sha) (dir_exists : Bool) (df : DownloadingFile) (hash_value metafile : Bytes)
    → IsDownload sha df
    → IsDownload sha (got_metafile dir_exists df hash_value metafile).0
unfolding got_metafile
metafile-IsDownload sha dir_exists df hash_value metafile v =
    let slice = parse_loop 0 [] metafile in
    let wanted = weaken_Held sha df.disk [] slice slice (add_all-Wanted slice []) in
    if_both (λ (r : DownloadingFile × Bool). IsDownload sha r.0) _ _ _ v
      (ite_both (λ (r : DownloadingFile × Bool). IsDownload sha r.0)
        (bytes_discrete hash_value df.meta_hash) _ _ (λ e. wanted) v)

-- What a step leaves.
Kept : Sha → DownloadingFile × Option Bool → Type 0
Kept sha r = IsDownload sha r.0 × Finished sha r.0 r.1

check_finished-Kept :
    (sha : Sha) (set : HashSet) (df : DownloadingFile)
    → df.chunks_to_download ≡ set
    → IsDownload sha df
    → Kept sha (check_finished set df)
unfolding Kept
check_finished-Kept sha [] df e v = (v, compose-All sha df.disk df.chunks_hashes_slice (rw e at v))
check_finished-Kept sha (x ∷ set) df e v = (v, tt)

chunk-Kept :
    (sha : Sha) (df : DownloadingFile) (hash_value payload : Bytes)
    → sha.sum256 payload ≡ hash_value
    → IsDownload sha df
    → Kept sha (take_chunk df hash_value payload)
unfolding take_chunk Kept
chunk-Kept sha df hash_value payload e v =
    if_both (Kept sha) _ _ _ (v, tt)
      (check_finished-Kept sha _ _ refl
        (arrival sha df.chunks_to_download df.disk hash_value payload df.chunks_hashes_slice e v))

answer-Finished :
    (sha : Sha) (df : DownloadingFile) (got : Bool)
    → Finished sha df (if got then some false else none)
answer-Finished sha df true = tt
answer-Finished sha df false = tt

-- If each hash of the metafile is still to be downloaded or names a chunk on the disk with this
-- hash, then this also holds after processDataReply, whatever data came; and when it answers that
-- the download is finished, the composed file is the concatenation of chunks whose hashes are
-- those of the metafile, in order.
pub process_data_reply-IsDownload :
    (sha : Sha) (dir_exists : Bool) (df : DownloadingFile) (hash_value payload : Bytes)
    → IsDownload sha df
    → IsDownload sha (process_data_reply sha dir_exists df hash_value payload).0
      × Finished sha
          (process_data_reply sha dir_exists df hash_value payload).0
          (process_data_reply sha dir_exists df hash_value payload).1
unfolding process_data_reply Kept
process_data_reply-IsDownload sha dir_exists df hash_value payload v =
    if_both (Kept sha) _ _ _ (v, tt)
      (ite_both (Kept sha) (bytes_discrete (sha.sum256 payload) hash_value) _ _
        (λ e. if_both (Kept sha) _ _ _ (chunk-Kept sha df hash_value payload e v) (
          metafile-IsDownload sha dir_exists df hash_value payload v,
          answer-Finished sha (got_metafile dir_exists df hash_value payload).0 _,
        ))
        (v, tt))
