-- ===== src/Utils.antt =====
-- utils/Utils.go and utils/PeersterError.go: errors, and the names of the files that hold chunks. In
-- Files a directory of chunks is a map from hashes.
use Prim.Native.String.{◌++◌ as ◌+++◌}
use text.Mathlib.TextLemmas.{append_cancel_right}
use decentralized_peerster.Common.{◌≡◌, Bool, true, false, Option, none, some, String, Bytes}

pub record PeersterError : Type 0 where
  pub error_msg : String

abbrev pub error : PeersterError → String
error e = e.error_msg

-- Whether there is an error; it is logged.
abbrev pub check_err : Option PeersterError → Bool
check_err none = false
check_err (some e) = true

-- `hex` is hex.EncodeToString, which gives distinct texts for distinct bytes.
module _ (hex : Bytes → String) where
  abbrev pub get_chunk_file_name : Bytes → String
  get_chunk_file_name hash_value = hex hash_value +++ ".chunk"

  abbrev pub get_merkle_chunk_file_name : Bytes → String
  get_merkle_chunk_file_name hash_value = hex hash_value +++ ".merkle"

  abbrev pub get_metafile_name : Bytes → String
  get_metafile_name hash_value = hex hash_value +++ ".metafile"

  module _ (distinct : (g h : Bytes) → hex g ≡ hex h → g ≡ h) (g h : Bytes) where
    -- Files of one kind that have one name have one hash.
    pub chunk_name_injective : get_chunk_file_name g ≡ get_chunk_file_name h → g ≡ h
    chunk_name_injective e = distinct g h (append_cancel_right (hex g) (hex h) ".chunk" e)

    pub merkle_name_injective : get_merkle_chunk_file_name g ≡ get_merkle_chunk_file_name h → g ≡ h
    merkle_name_injective e = distinct g h (append_cancel_right (hex g) (hex h) ".merkle" e)

    pub metafile_name_injective : get_metafile_name g ≡ get_metafile_name h → g ≡ h
    metafile_name_injective e = distinct g h (append_cancel_right (hex g) (hex h) ".metafile" e)
