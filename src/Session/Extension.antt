-- ===== src/Session/Extension.antt =====
-- The extensions of a session: `send_extension`, and the retained frames that `on_extension` replays.
use iroh_drop.Prelude.{
  ℕ, ◌≡◌, ◌∙◌, refl, sym, ap, append_assoc, Option, none, some, List, [], ◌∷◌, ◌++◌, length, ltb,
  if◌then◌else◌,
}
use iroh_drop.Text.{Bytes, text_eq, text_key}
use iroh_drop.Map.{put}
use iroh_drop.Error.{Result, ok, err, ProtocolError, message_too_large}
use iroh_drop.Message.{
  MessageBodyV1, offer, provider, request, extension, EndpointId, FrameId, ExtensionV1,
  max_body_size,
}
use iroh_drop.Seal.{Kdf}
use iroh_drop.Seal.Sealing.{Aead}
use iroh_drop.State.{DropState}
use iroh_drop.SyncLog.{retained_frames}
use iroh_drop.Frame.{Postcard, Ed25519}
use iroh_drop.Session.{SessionInner, Clock}
use iroh_drop.Session.Broadcast.{Membership, decode_for_session, broadcast}

pub record ExtensionFrame : Type 0 where
  pub author : EndpointId
  pub id : FrameId
  pub namespace : Bytes
  pub local_kind : ℕ
  pub schema_version : ℕ
  pub payload : Bytes

-- The frame that the body of an extension in the namespace is handed on as.
abbrev pub sent_on : Bytes → EndpointId → FrameId → Option MessageBodyV1 → List ExtensionFrame
sent_on namespace author id (some (extension e)) =
    if text_eq e.namespace namespace
    then record {
      author = author;
      id = id;
      namespace = e.namespace;
      local_kind = e.local_kind;
      schema_version = e.schema_version;
      payload = e.payload;
    }
      ∷ []
    else []
sent_on namespace author id (some (offer o)) = []
sent_on namespace author id (some (provider p)) = []
sent_on namespace author id (some (request r)) = []
sent_on namespace author id none = []

module _ (postcard : Postcard) (ed : Ed25519) (kdf : Kdf) (aead : Aead) where
  unfoldable pub send_extension :
      Membership
      → Clock
      → EndpointId
      → Bytes
      → FrameId
      → ExtensionV1
      → DropState
      → Result ProtocolError (DropState × Bytes)
  send_extension m clock self_id nonce id e s =
      if ltb max_body_size (length e.payload)
      then err (message_too_large (length e.payload))
      else broadcast postcard ed kdf aead m clock self_id nonce id (extension e) s

  -- One round of the loop over the retained frames.
  unfoldable pub replayed : Membership → Bytes → Bytes → List ExtensionFrame
  replayed m namespace frame = elim (decode_for_session postcard ed kdf aead m frame) [
    | err e ↦ []
    | ok v ↦ sent_on namespace v.author v.message.id v.body
  ]

  unfoldable pub replay : Membership → Bytes → List Bytes → List ExtensionFrame
  unfolding replayed
  replay m namespace [] = []
  replay m namespace (frame ∷ frames) =
      let rest = replay m namespace frames in replayed m namespace frame ++ rest

  -- The session with its sink, and the frames that are sent to it.
  unfoldable pub on_extension :
      Membership → Bytes → SessionInner → SessionInner × List ExtensionFrame
  unfolding replay retained_frames
  on_extension m namespace r = (
    record r { extension_sinks = put namespace tt r.extension_sinks },
    replay m namespace (retained_frames r.state.log),
  )

  pub replay-append :
      (m : Membership) (namespace : Bytes) (xs ys : List Bytes)
      → replay m namespace (xs ++ ys) ≡ replay m namespace xs ++ replay m namespace ys
  unfolding replay
  replay-append m namespace [] ys = refl
  replay-append m namespace (x ∷ xs) ys =
      ap (λ z. replayed m namespace x ++ z) (replay-append m namespace xs ys)
      ∙ sym (append_assoc (replayed m namespace x) (replay m namespace xs) (replay m namespace ys))
