-- ===== src/Presence.antt =====
-- Presence beacons, of crates/iroh-drop-presence/src/lib.rs. UTF-8 is a parameter.
pub mod Heard
mod Tests
use iroh_drop.Prelude.{
  ℕ, Bool, true, false, not, ◌||◌, Option, none, some, List, [], ◌∷◌, length, ltb, ◌==◌,
  if◌then◌else◌,
}
use iroh_drop.Text.{Text, Bytes, byte_len, is_empty, text_eq}
use iroh_drop.Error.{Result, ok, err, ProtocolError, malformed, presence_status}
use iroh_drop.Message.{EndpointId, FrameId}
use iroh_drop.Seal.{Kdf}
use iroh_drop.Seal.Sealing.{Aead}
use iroh_drop.State.{DropState}
use iroh_drop.Frame.{Postcard, Ed25519}
use iroh_drop.Session.{SessionInner, Clock}
use iroh_drop.Session.Broadcast.{Membership}
use iroh_drop.Session.Extension.{ExtensionFrame, send_extension, on_extension}

abbrev pub presence_namespace : Bytes
presence_namespace =
    0xab ∷ 0xab ∷ 0xf4 ∷ 0xba ∷ 0x7b ∷ 0x13 ∷ 0x6d ∷ 0xa5 ∷ 0xb4 ∷ 0xdb ∷ 0xc7 ∷ 0x71 ∷ 0x08 ∷ 0x27
    ∷ 0x3f ∷ 0x76 ∷ []

abbrev pub presence_kind_status : ℕ
presence_kind_status = 1

abbrev pub presence_schema_version : ℕ
presence_schema_version = 1

abbrev pub max_status_len : ℕ
max_status_len = 140

pub record Presence : Type 0 where
  pub author : EndpointId
  pub status : Text

-- `str::as_bytes` and `str::from_utf8`.
pub record Utf8 : Type 0 where
  pub as_bytes : Text → Bytes
  pub from_utf8 : Bytes → Option Text

-- The test of a status.
abbrev pub is_bad_status : Text → Bool
is_bad_status status = is_empty status || ltb max_status_len (byte_len status)

module _ (utf8 : Utf8) where
  -- From the text of the payload on.
  abbrev pub presence_of : EndpointId → Option Text → Option Presence
  presence_of author none = none
  presence_of author (some status) =
      if is_bad_status status then none else some (record { author = author; status = status })

  unfoldable pub decode : ExtensionFrame → Option Presence
  decode frame =
      if not (text_eq frame.namespace presence_namespace)
        || not (frame.local_kind == presence_kind_status)
      then none
      else presence_of frame.author (utf8.from_utf8 frame.payload)

  module _ (postcard : Postcard) (ed : Ed25519) (kdf : Kdf) (aead : Aead) where
    unfoldable pub announce :
        Membership
        → Clock
        → EndpointId
        → Bytes
        → FrameId
        → Text
        → DropState
        → Result ProtocolError (DropState × Bytes)
    unfolding send_extension
    announce m clock self_id nonce id status s =
        if is_bad_status status
        then err (malformed (presence_status (byte_len status)))
        else send_extension postcard ed kdf aead m clock self_id nonce id
            (record {
              namespace = presence_namespace;
              local_kind = presence_kind_status;
              schema_version = presence_schema_version;
              payload = utf8.as_bytes status;
            })
            s

    unfoldable pub subscribe : Membership → SessionInner → SessionInner × List ExtensionFrame
    unfolding on_extension
    subscribe m r = on_extension postcard ed kdf aead m presence_namespace r

  -- The loop of a subscriber: what does not decode is skipped.
  unfoldable pub presences : List ExtensionFrame → List Presence
  unfolding decode
  presences [] = []
  presences (frame ∷ frames) =
      let rest = presences frames in elim (decode frame) [ none ↦ rest | some p ↦ p ∷ rest ]
