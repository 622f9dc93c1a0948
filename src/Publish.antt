-- ===== src/Publish.antt =====
-- The publishing of bytes in a session: `publish_bytes_with` and `finish_import_with` of
-- crates/iroh-drop/src/session.rs. The store, the guess of a media type and the clocks are arguments, as is
-- the sending of a message. The state is that when the offer is recorded.
pub mod Offered
mod Tests
use iroh_drop.Prelude.{ℕ, Option, none, some, List, [], ◌∷◌, length}
use iroh_drop.Text.{Text, Bytes}
use iroh_drop.Error.{Result, ok, err}
use iroh_drop.Message.{OfferV1, ProviderV1, MessageBodyV1, offer, provider, available, BlobHash}
use iroh_drop.Name.{validate_name}
use iroh_drop.State.{DropState, complete, record_offer}
use iroh_drop.Run.{◌>>=◌, ◌>>◌, return, modify, fail_if, or_fail}
use iroh_drop.Fetch.Effect.{
  DropError, store_failed, import_failed, invalid_path, M, broadcast, put_status,
}

pub record PublishedBlob : Type 0 where
  pub hash : BlobHash
  pub name : Text
  pub size : ℕ
  pub media_type : Option Text

pub record Importing : Type 0 where
  pub add_bytes : Bytes → Result Text BlobHash
  pub guess : Text → Option Text
  pub set_tag : BlobHash → Option Text
  pub now : ℕ
  pub created_ms : ℕ
  pub announced_ms : ℕ

-- The offer that is recorded and sent.
abbrev pub new_offer_of :
    Importing → BlobHash → Text → ℕ → Option Text → List (Text × Text) → OfferV1
new_offer_of importing hash name size media_type metadata = record {
  blob_hash = hash;
  name = name;
  size = size;
  media_type = media_type;
  created_at_ms = some importing.created_ms;
  metadata = metadata;
}

abbrev pub new_provider_of : Importing → BlobHash → ProviderV1
new_provider_of importing hash = record {
  blob_hash = hash;
  state = available;
  announced_at_ms = some importing.announced_ms;
}

-- The state with the session's own offer, which is complete.
unfoldable pub record_own : ℕ → OfferV1 → DropState → DropState
unfolding record_offer put_status
record_own now o s = put_status o.blob_hash complete (record_offer now s.self_endpoint_id o s).0

abbrev pub or_guess : Importing → Text → Option Text → Option Text
or_guess importing name none = importing.guess name
or_guess importing name (some t) = some t

module _ (send : MessageBodyV1 → DropState → DropState × Option DropError)
    (importing : Importing) where
  unfoldable pub finish_import_with :
      BlobHash → Text → ℕ → Option Text → List (Text × Text) → M PublishedBlob
  finish_import_with hash name size media_type metadata = do
    fail_if (importing.set_tag hash) store_failed
    modify (record_own importing.now (new_offer_of importing hash name size media_type metadata))
    broadcast send (offer (new_offer_of importing hash name size media_type metadata))
    broadcast send (provider (new_provider_of importing hash))
    return (record { hash = hash; name = name; size = size; media_type = media_type })

  unfoldable pub publish_bytes_with :
      Text → Bytes → Option Text → List (Text × Text) → M PublishedBlob
  publish_bytes_with name bytes media_type metadata = do
    or_fail (validate_name name) invalid_path
    hash ← or_fail (importing.add_bytes bytes) import_failed
    finish_import_with hash name (length bytes) (or_guess importing name media_type) metadata
