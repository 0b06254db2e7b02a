-- ===== src/Files/Merkle.antt =====
-- models/filesharing/merkletree: MerkleNode.go and MerkleSharedFile.go. The rest of the program does
-- not call them. The files of the directory of chunks are a map from the hash that names them, and
-- `read_at` is ReadAt of the open file for a buffer of FileChunkSize bytes.
pub mod Levels
pub mod Entered
pub mod Shared
use decentralized_peerster.Common.{
  ℕ, zero, suc, ◌+◌, ◌%◌, ◌/◌, Bool, true, false, not, ◌==◌, ◌||◌, ltb, List, [], ◌∷◌, ◌++◌, Option,
  none, some, String, Bytes, bytes_key, if◌then◌else◌, length, Outcome, ok, panic, out_of_fuel,
  ◌>>=◌,
}
use decentralized_peerster.Map.{Map, lookup, insert}
use decentralized_peerster.Models.{SearchResult}
use decentralized_peerster.Hashing.{Sha}
use decentralized_peerster.Blockchain.Transactions.{is_some}
use decentralized_peerster.Files.{file_chunk_size}
use decentralized_peerster.Files.Sharing.{numbers, keyword_pattern, is_match}

mutual
  pub data MerkleNode : Type 0 where
    merkle_node : (height : ℕ) (hash_value : Bytes) (children : Children) → MerkleNode

  pub data Children : Type 0 where
    no_child : Children
    child : MerkleNode → Children → Children

abbrev pub height_of : MerkleNode → ℕ
height_of (merkle_node height _ _) = height

abbrev pub hash_of : MerkleNode → Bytes
hash_of (merkle_node _ hash_value _) = hash_value

abbrev pub children_of : List MerkleNode → Children
children_of [] = no_child
children_of (c ∷ cs) = child c (children_of cs)

abbrev pub construct_leaf_merkle_node : Bytes → MerkleNode
construct_leaf_merkle_node hash_value = merkle_node 0 hash_value no_child

-- The loop over the children: their hashes, if they have one height.
unfoldable pub gather : ℕ → List MerkleNode → Option Bytes
gather height [] = some []
gather height (c ∷ cs) =
    let rest = gather height cs in
    if height_of c == height
    then elim rest [ none ↦ none | some content ↦ some (hash_of c ++ content) ]
    else none

abbrev pub inner_node : Sha → ℕ → List MerkleNode → Bytes → MerkleNode × Bytes
inner_node sha height children content =
    (merkle_node (height + 1) (sha.sum256 content) (children_of children), content)

abbrev pub check_data : Sha → ℕ → List MerkleNode → Option Bytes → Option (MerkleNode × Bytes)
check_data sha height children none = none
check_data sha height children (some content) =
    if ltb file_chunk_size (length content)
    then none
    else some (inner_node sha height children content)

-- The node with the data that goes to the disk; none is the nil.
unfoldable pub construct_inner_merkle_node : Sha → List MerkleNode → Option (MerkleNode × Bytes)
construct_inner_merkle_node sha [] = none
construct_inner_merkle_node sha (c ∷ cs) =
    check_data sha (height_of c) (c ∷ cs) (gather (height_of c) (c ∷ cs))

-- The directory of chunks and the nodes by hash.
pub record MerkleBuild : Type 0 where
  pub disk : Map Bytes Bytes
  pub node_set : Map Bytes MerkleNode

abbrev pub enter_node : MerkleBuild → MerkleNode → Bytes → MerkleBuild
enter_node b node content = record {
  disk = insert (hash_of node) content b.disk;
  node_set = insert (hash_of node) node b.node_set;
}

abbrev pub children_number : ℕ
children_number = file_chunk_size / 32

-- A parent that is nil is dereferenced.
abbrev pub add_parent :
    (MerkleBuild → Outcome (List MerkleNode × MerkleBuild))
    → MerkleBuild
    → Option (MerkleNode × Bytes)
    → Outcome (List MerkleNode × MerkleBuild)
add_parent rest b none = panic
add_parent rest b (some (parent, content)) = do
  level ← rest (enter_node b parent content)
  ok (parent ∷ level.0, level.1)

-- The loop over a level of `n` nodes, at index `i`.
unfoldable pub level_loop :
    Sha
    → (n i : ℕ) → List MerkleNode
    → List MerkleNode
    → MerkleBuild
    → Outcome (List MerkleNode × MerkleBuild)
level_loop sha n i cur_children [] b = ok ([], b)
level_loop sha n i cur_children (c ∷ cs) b =
    let grown = cur_children ++ c ∷ [] in
    elim ((i + 1) % children_number == 0 || (i + 1) == n) [
      | true ↦ add_parent (level_loop sha n (i + 1) [] cs) b (construct_inner_merkle_node sha grown)
      | false ↦ level_loop sha n (i + 1) grown cs b
    ]

-- Levels are built while there is more than one node.
unfoldable pub upper_levels :
    Sha → ℕ → List MerkleNode → MerkleBuild → Outcome (List MerkleNode × MerkleBuild)
upper_levels sha zero cur_level b = out_of_fuel
upper_levels sha (suc fuel) cur_level b = elim (ltb 1 (length cur_level)) [
  | true ↦ do
    next ← level_loop sha (length cur_level) 0 [] cur_level b
    upper_levels sha fuel next.0 next.1
  | false ↦ ok (cur_level, b)
]

pub data ReadError : Type 0 where
  no_error : ReadError
  eof : ReadError
  failed : ReadError

-- The bytes that were read, with the error; a read with an EOF ends the loop, whatever it read.
unfoldable pub zeroth_level :
    Sha
    → (read_at : ℕ → Bytes × ReadError) → ℕ
    → ℕ
    → List MerkleNode
    → MerkleBuild
    → Outcome (Option (List MerkleNode × MerkleBuild))
zeroth_level sha read_at zero offset cur_level b = out_of_fuel
zeroth_level sha read_at (suc fuel) offset cur_level b =
    let cur_chunk = (read_at offset).0 in
    let node = construct_leaf_merkle_node (sha.sum256 cur_chunk) in
    let rest =
      zeroth_level sha read_at fuel (offset + length cur_chunk) (cur_level ++ node ∷ [])
        (enter_node b node cur_chunk) in
    elim (read_at offset).1 [
      | eof ↦ ok (some (cur_level, b))
      | failed ↦ ok none
      | no_error ↦ if length cur_chunk == 0 then ok none else rest
    ]

pub record MerkleSharedFile : Type 0 where
  pub name : String
  pub size : ℕ
  pub root_node : MerkleNode
  pub build : MerkleBuild

abbrev pub with_root : String → ℕ → List MerkleNode × MerkleBuild → Option MerkleSharedFile
with_root name size ([], b) = none
with_root name size (root ∷ _, b) =
    some (record { name = name; size = size; root_node = root; build = b })

abbrev pub upon_leaves :
    Sha → String → ℕ → Option (List MerkleNode × MerkleBuild) → Outcome (Option MerkleSharedFile)
upon_leaves sha name size none = ok none
upon_leaves sha name size (some (leaves, b)) = do
  top ← upper_levels sha (suc (length leaves)) leaves b
  ok (with_root name size top)

-- `is_shared` says that the directory for the chunks exists, and `size` is that of the file.
unfoldable pub share_merkle_file :
    Sha → String → Bool → (size : ℕ) → (ℕ → Bytes × ReadError) → Outcome (Option MerkleSharedFile)
share_merkle_file sha name true size read_at = ok none
share_merkle_file sha name false size read_at = do
  leaves ←
      zeroth_level sha read_at (suc (size / file_chunk_size + 1)) 0 []
        record { disk = []; node_set = [] }
  upon_leaves sha name size leaves

abbrev pub merkle_chunk_belongs_to_file : MerkleSharedFile → Bytes → Bool
merkle_chunk_belongs_to_file sf chunk_hash = is_some (lookup chunk_hash sf.build.node_set)

unfoldable pub get_merkle_chunk : MerkleSharedFile → Bytes → Option Bytes
get_merkle_chunk sf hash_value =
    if merkle_chunk_belongs_to_file sf hash_value then lookup hash_value sf.build.disk else none

abbrev pub merkle_result : MerkleSharedFile → SearchResult
merkle_result sf = record {
  file_name = sf.name;
  metafile_hash = hash_of sf.root_node;
  chunk_map = numbers 1 (length sf.build.node_set);
  chunk_count = length sf.build.node_set;
}

-- A result for each keyword that matches.
unfoldable pub merkle_search_results :
    (match_string : String → String → Option Bool)
    → MerkleSharedFile
    → List String
    → List SearchResult
merkle_search_results match_string sf [] = []
merkle_search_results match_string sf (kw ∷ keywords) =
    let rest = merkle_search_results match_string sf keywords in
    if is_match (match_string (keyword_pattern kw) sf.name) then merkle_result sf ∷ rest else rest
