-- ===== src/Message.antt =====
-- crates/iroh-drop/src/message.rs: the messages of a drop, as data.
use iroh_drop.Prelude.{ℕ, ◌*◌, ◌-◌, Option, List}
use iroh_drop.Text.{Text, Bytes}

abbrev pub wire_version : ℕ
wire_version = 2

abbrev pub kind_offer : ℕ
kind_offer = 1

abbrev pub kind_provider : ℕ
kind_provider = 2

abbrev pub kind_request : ℕ
kind_request = 3

abbrev pub kind_extension : ℕ
kind_extension = 5

abbrev pub max_message_size : ℕ
max_message_size = 64 * 1024

abbrev pub max_body_size : ℕ
max_body_size = max_message_size - 1024

abbrev pub max_name_len : ℕ
max_name_len = 255

abbrev pub max_metadata_entries : ℕ
max_metadata_entries = 16

abbrev pub max_metadata_key_len : ℕ
max_metadata_key_len = 64

abbrev pub max_metadata_value_len : ℕ
max_metadata_value_len = 512

-- Endpoint ids and frame ids are byte arrays of a fixed length, as the numbers that they spell: their
-- order byte by byte is the order of the numbers. Of a blob hash the code reads the bytes.
abbrev pub EndpointId : Type 0
EndpointId = ℕ

abbrev pub FrameId : Type 0
FrameId = ℕ

abbrev pub BlobHash : Type 0
BlobHash = Bytes

abbrev pub TopicId : Type 0
TopicId = Bytes

-- The metadata's map is the list of its entries.
pub record OfferV1 : Type 0 where
  pub blob_hash : BlobHash
  pub name : Text
  pub size : ℕ
  pub media_type : Option Text
  pub created_at_ms : Option ℕ
  pub metadata : List (Text × Text)

pub data ProviderState : Type 0 where
  available withdrawing : ProviderState

pub record ProviderV1 : Type 0 where
  pub blob_hash : BlobHash
  pub state : ProviderState
  pub announced_at_ms : Option ℕ

pub record RequestV1 : Type 0 where
  pub blob_hash : BlobHash

pub record ExtensionV1 : Type 0 where
  pub namespace : Bytes
  pub local_kind : ℕ
  pub schema_version : ℕ
  pub payload : Bytes

pub data MessageBodyV1 : Type 0 where
  offer : OfferV1 → MessageBodyV1
  provider : ProviderV1 → MessageBodyV1
  request : RequestV1 → MessageBodyV1
  extension : ExtensionV1 → MessageBodyV1

pub record BodyEnvelopeV1 : Type 0 where
  pub kind : ℕ
  pub payload : Bytes

pub record MessageV1 : Type 0 where
  pub version : ℕ
  pub id : FrameId
  pub sent_at_ms : ℕ
  pub body : BodyEnvelopeV1

-- The author is the key's bytes, as they stand in the frame.
pub record SignedMessageV1 : Type 0 where
  pub author : Bytes
  pub signature : Bytes
  pub payload : Bytes
