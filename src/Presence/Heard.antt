-- ===== src/Presence/Heard.antt =====
-- A status that a member announces is heard by those who subscribe.
use iroh_drop.Prelude.{
  ◌≤◌, ◌≡◌, ◌∙◌, refl, ap, Bool, false, Option, none, some, List, [], ◌∷◌, ◌++◌, length, arith,
  if◌then◌else◌,
}
use iroh_drop.Text.{Text, Bytes, byte_len}
use iroh_drop.Error.{ok, err}
use iroh_drop.Message.{extension, EndpointId, FrameId, ExtensionV1, max_body_size}
use iroh_drop.Name.{validate_body}
use iroh_drop.Seal.{Kdf}
use iroh_drop.Seal.Sealing.{Aead}
use iroh_drop.Seal.RoundTrip.{IsAead}
use iroh_drop.State.{DropState}
use iroh_drop.SyncLog.{retained_frames}
use iroh_drop.Frame.{Postcard, Ed25519, VerifiedMessage, encode_body}
use iroh_drop.Frame.Laws.{IsPostcard, IsSecret}
use iroh_drop.Session.{SessionInner, Clock}
use iroh_drop.Session.Broadcast.{Membership, decode_for_session, broadcast}
use iroh_drop.Session.Broadcast.Heard.{Says, decode_for_session-broadcast}
use iroh_drop.Session.Extension.{
  ExtensionFrame, sent_on, send_extension, replayed, replay, on_extension, replay-append,
}
use iroh_drop.Presence.{
  Presence, Utf8, presence_namespace, presence_kind_status, presence_schema_version, is_bad_status,
  presence_of, decode, announce, subscribe, presences,
}

-- What the library says of UTF-8: it is read back, and `len` counts its bytes.
pub record IsUtf8 (utf8 : Utf8) : Type 0 where
  pub from_utf8-as_bytes : (s : Text) → utf8.from_utf8 (utf8.as_bytes s) ≡ some s
  pub length-as_bytes : (s : Text) → length (utf8.as_bytes s) ≡ byte_len s

-- The body of an announced status.
abbrev pub beacon : Utf8 → Text → ExtensionV1
beacon utf8 status = record {
  namespace = presence_namespace;
  local_kind = presence_kind_status;
  schema_version = presence_schema_version;
  payload = utf8.as_bytes status;
}

presences-append :
    (utf8 : Utf8) (xs ys : List ExtensionFrame)
    → presences utf8 (xs ++ ys) ≡ presences utf8 xs ++ presences utf8 ys
unfolding presences
presences-append utf8 [] ys = refl
presences-append utf8 (x ∷ xs) ys = by_option (decode utf8 x) (presences-append utf8 xs ys)
  where
    by_option :
        (o : Option Presence)
        → presences utf8 (xs ++ ys) ≡ presences utf8 xs ++ presences utf8 ys
        → elim o [ none ↦ presences utf8 (xs ++ ys) | some p ↦ p ∷ presences utf8 (xs ++ ys) ]
          ≡ elim o [ none ↦ presences utf8 xs | some p ↦ p ∷ presences utf8 xs ]
            ++ presences utf8 ys
    by_option none ih = ih
    by_option (some p) ih = ap (λ z. p ∷ z) ih

module _ (utf8 : Utf8) (text_laws : IsUtf8 utf8) (postcard : Postcard) (ed : Ed25519) (kdf : Kdf)
    (aead : Aead) where
  -- An announced status is not bad, and its beacon is broadcast.
  announce_ok :
      (m : Membership) (clock : Clock) (self_id : EndpointId) (nonce : Bytes) (id : FrameId)
      (status : Text) (s s' : DropState) (bytes : Bytes)
      → announce utf8 postcard ed kdf aead m clock self_id nonce id status s ≡ ok (s', bytes)
      → (is_bad_status status ≡ false)
        × (broadcast postcard ed kdf aead m clock self_id nonce id
              (extension (beacon utf8 status))
              s
            ≡ ok (s', bytes))
  unfolding announce send_extension
  announce_ok m clock self_id nonce id status s s' bytes e =
      let fits = text_laws.length-as_bytes status in (ground arith, ground (arith, fits))

  validate_body-beacon :
      (status : Text)
      → is_bad_status status ≡ false
      → validate_body (extension (beacon utf8 status)) ≡ ok tt
  unfolding validate_body
  validate_body-beacon status h = ground (arith, text_laws.length-as_bytes status)

  -- A beacon reads as its status, whoever sends it.
  presences-sent_on :
      (author : EndpointId) (id : FrameId) (status : Text)
      → is_bad_status status ≡ false
      → presences utf8
          (sent_on presence_namespace author id (some (extension (beacon utf8 status))))
        ≡ record { author = author; status = status } ∷ []
  unfolding presences decode
  presences-sent_on author id status good =
      let said : Presence = record { author = author; status = status } in
      ap (λ (o : Option Presence). elim o [ none ↦ [] | some p ↦ p ∷ [] ])
        (ap (presence_of utf8 author) (text_laws.from_utf8-as_bytes status)
          ∙ ap (λ (b : Bool). if b then none else some said) good)

  -- What a subscriber hears in the frame.
  presences-replayed :
      (m : Membership) (author : EndpointId) (id : FrameId) (status : Text) (bytes : Bytes)
      (v : VerifiedMessage)
      → is_bad_status status ≡ false
      → decode_for_session postcard ed kdf aead m bytes ≡ ok v
      → Says postcard ed kdf aead (extension (beacon utf8 status)) author id v
      → presences utf8 (replayed postcard ed kdf aead m presence_namespace bytes)
        ≡ record { author = author; status = status } ∷ []
  unfolding replayed
  presences-replayed m author id status bytes v good decoded says =
      ap (λ fs. presences utf8 fs)
        (ap
            (λ x. elim x [
              | err e ↦ []
              | ok v ↦ sent_on presence_namespace v.author v.message.id v.body
            ])
            decoded
          ∙ ap (sent_on presence_namespace v.author v.message.id) says.body_lem)
      ∙ presences-sent_on v.author v.message.id status good
      ∙ ap (λ a. record { author = a; status = status } ∷ []) says.author_lem

  module _ (laws : IsPostcard postcard) (cipher : IsAead aead) where
    -- A status that a member announces, if its body is encoded in at most MAX_BODY_SIZE bytes, is heard, under
    -- the key that signed it, by every member of the drop who subscribes while the frame is retained, the
    -- announcing member included: once for that frame, between what is heard of the frames before it and of
    -- those behind it.
    pub subscribe-announce :
        (sender receiver : Membership)
        → IsSecret ed sender.secret
        → receiver.mode ≡ sender.mode
        → receiver.drop_key ≡ sender.drop_key
        → receiver.topic_id ≡ sender.topic_id
        → (clock : Clock) (self_id : EndpointId) (nonce : Bytes) → length nonce ≡ 24
        → (id : FrameId) (status : Text)
        → length (encode_body postcard (extension (beacon utf8 status))).payload ≤ max_body_size
        → (s s' : DropState) (bytes : Bytes)
        → announce utf8 postcard ed kdf aead sender clock self_id nonce id status s ≡ ok (s', bytes)
        → (r : SessionInner) (older newer : List Bytes)
        → retained_frames r.state.log ≡ older ++ bytes ∷ newer
        → let heard = λ (frames : List Bytes).
          presences utf8 (replay postcard ed kdf aead receiver presence_namespace frames) in
          presences utf8 (subscribe utf8 postcard ed kdf aead receiver r).1
          ≡ heard older
            ++ record { author = ed.endpoint_id (ed.public_key sender.secret); status = status }
              ∷ heard newer
    unfolding subscribe on_extension replay
    subscribe-announce sender receiver h em ek et clock self_id nonce n id status small s s' bytes e
          r older newer kept =
        let (good, sent) = announce_ok sender clock self_id nonce id status s s' bytes e in
        let (v, decoded, says, logged) =
          decode_for_session-broadcast postcard ed kdf aead laws cipher sender receiver h em ek et
            clock self_id nonce n id (extension (beacon utf8 status))
            (validate_body-beacon status good) small s s' bytes sent in
        let ns = presence_namespace in
        let frames = λ (xs : List Bytes). replay postcard ed kdf aead receiver ns xs in
        ap (λ xs. presences utf8 (frames xs)) kept
        ∙ ap (presences utf8) (replay-append postcard ed kdf aead receiver ns older (bytes ∷ newer))
        ∙ presences-append utf8 (frames older) (frames (bytes ∷ newer))
        ∙ ap (λ z. presences utf8 (frames older) ++ z)
            (presences-append utf8 (replayed postcard ed kdf aead receiver ns bytes) (frames newer)
              ∙ ap (λ z. z ++ presences utf8 (frames newer))
                  (presences-replayed receiver (ed.endpoint_id (ed.public_key sender.secret)) id
                    status bytes v good decoded says))
