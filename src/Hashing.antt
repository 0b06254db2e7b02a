-- ===== src/Hashing.antt =====
-- The hashes of models/CommunicationModels.go. SHA-256 and the UTF-8 bytes of a string are Go's,
-- and so is the length of a digest: they are the fields of a record that stands as a parameter.
use decentralized_peerster.Common.{
  ℕ, zero, suc, ◌/◌, ◌%◌, ◌≡◌, Bool, true, false, ◌&&◌, List, [], ◌∷◌, ◌++◌, Bytes, String, length,
  ◌==◌,
}
use decentralized_peerster.Models.{TxPublish, Block}

-- What the code uses of crypto/sha256 and of the conversion `[]byte(s)`.
pub record Sha : Type 0 where
  pub sum256 : Bytes → Bytes
  pub string_bytes : String → Bytes
  pub length-sum256 : (b : Bytes) → length (sum256 b) ≡ 32

-- `binary.Write(h, binary.LittleEndian, uint32(n))`; the conversion drops what is above 32 bits.
abbrev pub le32 : ℕ → Bytes
le32 n = n % 256 ∷ (n / 256) % 256 ∷ (n / 65536) % 256 ∷ (n / 16777216) % 256 ∷ []

-- Blockchain difficulty, config/GossiperConfig.go.
abbrev pub bytes_for_good_block : ℕ
bytes_for_good_block = 2

-- The loop of `IsGood`.
abbrev pub starts_with_zeros : ℕ → Bytes → Bool
starts_with_zeros zero hash = true
starts_with_zeros (suc n) [] = false
starts_with_zeros (suc n) (b ∷ hash) = b == 0 && starts_with_zeros n hash

module _ (sha : Sha) where
  open sha use {sum256, string_bytes}

  -- The bytes that `TxPublish.Hash` writes into the hash: name and metafile hash, not the size.
  unfoldable pub tx_preimage : TxPublish → Bytes
  tx_preimage t =
      let name = string_bytes t.file.name in le32 (length name) ++ (name ++ t.file.metafile_hash)

  unfoldable pub tx_hash : TxPublish → Bytes
  tx_hash t = sum256 (tx_preimage t)

  pub tx_hashes : List TxPublish → Bytes
  tx_hashes [] = []
  tx_hashes (t ∷ ts) = tx_hash t ++ tx_hashes ts

  unfoldable pub block_preimage : Block → Bytes
  unfolding tx_hashes
  block_preimage b =
      b.prev_hash ++ (b.nonce ++ (le32 (length b.transactions) ++ tx_hashes b.transactions))

  unfoldable pub block_hash : Block → Bytes
  block_hash b = sum256 (block_preimage b)

  unfoldable pub is_good : Block → Bool
  is_good b = starts_with_zeros bytes_for_good_block (block_hash b)
