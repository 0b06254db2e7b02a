-- ===== src/Models.antt =====
-- The message types of models/CommunicationModels.go. A pointer that may be nil is an `Option`,
-- a fixed array of 32 bytes and a byte slice are lists of bytes, and the unsigned fields are
-- natural numbers, whose wrap-around stands where the code computes with them.
use decentralized_peerster.Common.{ℕ, ◌+◌, ◌-◌, ◌%◌, ◌^◌, String, Option, none, List, Bytes}

pub record SimpleMessage : Type 0 where
  pub original_name : String
  pub relay_peer_addr : String
  pub text : String

pub record RumorMessage : Type 0 where
  pub original_name : String
  pub id : ℕ
  pub text : String

pub record PeerStatus : Type 0 where
  pub identifier : String
  pub next_id : ℕ

pub record StatusPacket : Type 0 where
  pub want : List PeerStatus

pub record PrivateMessage : Type 0 where
  pub origin : String
  pub id : ℕ
  pub text : String
  pub destination : String
  pub hop_limit : ℕ

pub record DataRequest : Type 0 where
  pub origin : String
  pub destination : String
  pub hop_limit : ℕ
  pub hash_value : Bytes

pub record DataReply : Type 0 where
  pub origin : String
  pub destination : String
  pub hop_limit : ℕ
  pub hash_value : Bytes
  pub payload : Bytes

pub record SearchRequest : Type 0 where
  pub origin : String
  pub budget : ℕ
  pub keywords : List String

pub record SearchResult : Type 0 where
  pub file_name : String
  pub metafile_hash : Bytes
  pub chunk_map : List ℕ
  pub chunk_count : ℕ

pub record SearchReply : Type 0 where
  pub origin : String
  pub destination : String
  pub hop_limit : ℕ
  pub results : List SearchResult

-- `Size` is an int64 in the source; every size that the code writes is a length.
pub record File : Type 0 where
  pub name : String
  pub size : ℕ
  pub metafile_hash : Bytes

pub record TxPublish : Type 0 where
  pub file : File
  pub hop_limit : ℕ

pub record Block : Type 0 where
  pub prev_hash : Bytes
  pub nonce : Bytes
  pub transactions : List TxPublish

pub record BlockPublish : Type 0 where
  pub block : Block
  pub hop_limit : ℕ

pub record GossipPacket : Type 0 where
  pub simple : Option SimpleMessage
  pub rumor : Option RumorMessage
  pub status : Option StatusPacket
  pub private_message : Option PrivateMessage
  pub data_request : Option DataRequest
  pub data_reply : Option DataReply
  pub search_request : Option SearchRequest
  pub search_reply : Option SearchReply
  pub tx_publish : Option TxPublish
  pub block_publish : Option BlockPublish

pub record ClientPrivateMessage : Type 0 where
  pub text : String
  pub destination : String

pub record ClientToDownloadMessage : Type 0 where
  pub name : String
  pub destination : String
  pub hash_value : Bytes

pub record ClientToSearchMessage : Type 0 where
  pub keywords : List String
  pub budget : ℕ

-- The structs with one field or none, of rumors and of files to share, are their field.
pub record ClientMessage : Type 0 where
  pub client_rumor : Option String
  pub route_rumor : Option (Unit {0})
  pub client_private : Option ClientPrivateMessage
  pub to_share : Option String
  pub to_download : Option ClientToDownloadMessage
  pub to_search : Option ClientToSearchMessage

-- `&ClientMessage{}`.
abbrev pub empty_client_message : ClientMessage
empty_client_message = record {
  client_rumor = none;
  route_rumor = none;
  client_private = none;
  to_share = none;
  to_download = none;
  to_search = none;
}

-- `&GossipPacket{}`, from which the code makes a packet with one field set.
abbrev pub empty_packet : GossipPacket
empty_packet = record {
  simple = none;
  rumor = none;
  status = none;
  private_message = none;
  data_request = none;
  data_reply = none;
  search_request = none;
  search_reply = none;
  tx_publish = none;
  block_publish = none;
}

abbrev pub u32_mod : ℕ
u32_mod = 2 ^ 32

-- The predecessor and the successor of a uint32.
abbrev pub dec32 : ℕ → ℕ
dec32 n = (n + u32_mod - 1) % u32_mod

abbrev pub inc32 : ℕ → ℕ
inc32 n = (n + 1) % u32_mod
