-- ===== src/Seal/Accepted.antt =====
-- Which sealed frames are accepted, and by whom.
use iroh_drop.Prelude.{
  ◌≤◌, ◌≡◌, ◌∙◌, refl, true, Option, some, arith, length, take, drop, ltb, ◌++◌, false→le,
  Bool-cases, Option-cases, inl, inr,
}
use iroh_drop.Text.{Bytes}
use iroh_drop.Error.{Result, ok, err, ProtocolError}
use iroh_drop.Message.{
  SignedMessageV1, MessageV1, BodyEnvelopeV1, EndpointId, MessageBodyV1, TopicId, max_message_size,
  max_body_size,
}
use iroh_drop.Seal.{Kdf, DropKey, be_bytes, aead_key, sealed_wire_version, kind_sealed}
use iroh_drop.Seal.Sealing.{
  Aead, nonce_len, verify_sealed_for_topic, open_body, open_plaintext, unseal_verified,
  decode_sealed,
}
use iroh_drop.Frame.{
  Postcard, Ed25519, VerifiedMessage, sealed_sign_domain, signing_input, decode_body,
  validate_known, verify_outer,
}
use iroh_drop.Frame.Accepted.{IsVerified, verify_input-IsVerified}

module _ (postcard : Postcard) (ed : Ed25519) (kdf : Kdf) (aead : Aead) where
  -- What stands behind a body that `open_plaintext` reads.
  pub record IsOpened (author : EndpointId) (outer : MessageV1) (plaintext : Bytes)
      (v : VerifiedMessage) : Type 0 where
    pub author_lem : v.author ≡ author
    pub id : v.message.id ≡ outer.id
    pub version : v.message.version ≡ sealed_wire_version
    pub small : length plaintext ≤ max_body_size
    pub inner : postcard.envelopes.read plaintext ≡ some v.message.body
    pub body : decode_body postcard v.message.body ≡ ok v.body
    pub valid : validate_known v.body ≡ ok tt

  -- What stands behind a frame that a member accepts: the signature of its author over this topic in the
  -- sealed domain, the sealed version and kind, and a body that decrypts, bound to the author and the id.
  pub record IsUnsealed (bytes : Bytes) (key : DropKey) (topic : TopicId) (frame : SignedMessageV1)
      (outer : MessageV1) (plaintext : Bytes) (v : VerifiedMessage) : Type 0 where
    pub small : length bytes ≤ max_message_size
    pub read : postcard.frames.read bytes ≡ some frame
    pub signed :
        ed.verify frame.author
          (signing_input sealed_sign_domain topic frame.payload)
          frame.signature
        ≡ true
    pub author : v.author ≡ ed.endpoint_id frame.author
    pub message : postcard.messages.read frame.payload ≡ some outer
    pub version : outer.version ≡ sealed_wire_version
    pub kind : outer.body.kind ≡ kind_sealed
    pub id : v.message.id ≡ outer.id
    pub decrypted :
        aead.decrypt
          (aead_key kdf key topic)
          (take nonce_len outer.body.payload)
          (be_bytes 32 v.author ++ be_bytes 16 v.message.id)
          (drop nonce_len outer.body.payload)
        ≡ some plaintext
    pub inner : postcard.envelopes.read plaintext ≡ some v.message.body
    pub body : decode_body postcard v.message.body ≡ ok v.body
    pub valid : validate_known v.body ≡ ok tt

  open_body-IsOpened :
      (author : EndpointId) (outer : MessageV1) (plaintext : Bytes) (inner : BodyEnvelopeV1)
      → length plaintext ≤ max_body_size
      → postcard.envelopes.read plaintext ≡ some inner
      → (v : VerifiedMessage) → open_body postcard ed kdf aead author outer inner ≡ ok v
      → IsOpened author outer plaintext v
  unfolding open_body
  open_body-IsOpened author outer plaintext inner small read v h =
      by_body (decode_body postcard inner) refl
    where
      by_valid :
          (b : Option MessageBodyV1)
          → decode_body postcard inner ≡ ok b
          → (r : Result ProtocolError (Unit {0})) → validate_known b ≡ r
          → IsOpened author outer plaintext v
      by_valid b e (err f) g = absurd (ground arith)
      by_valid b e (ok t) g = record {
        author_lem = ground arith;
        id = ground arith;
        version = ground arith;
        small = small;
        inner = ground arith;
        body = ground arith;
        valid = ground arith;
      }

      by_body :
          (r : Result ProtocolError (Option MessageBodyV1))
          → decode_body postcard inner ≡ r
          → IsOpened author outer plaintext v
      by_body (err f) e = absurd (ground arith)
      by_body (ok b) e = by_valid b e (validate_known b) refl

  pub open_plaintext-IsOpened :
      (author : EndpointId) (outer : MessageV1) (plaintext : Bytes) (v : VerifiedMessage)
      → open_plaintext postcard ed kdf aead author outer plaintext ≡ ok v
      → IsOpened author outer plaintext v
  unfolding open_plaintext
  open_plaintext-IsOpened author outer plaintext v h =
      elim (Bool-cases (ltb max_body_size (length plaintext))) [
        | inl large ↦ absurd (ground arith)
        | inr small ↦ elim (Option-cases (postcard.envelopes.read plaintext)) [
          | inl garbled ↦ absurd (ground arith)
          | inr (inner, read) ↦
              open_body-IsOpened author outer plaintext inner (false→le _ _ small) read v
                (ground arith)
        ]
      ]

  pub record IsSealedFor (key : DropKey) (topic : TopicId) (w v : VerifiedMessage)
      (plaintext : Bytes) : Type 0 where
    pub version : w.message.version ≡ sealed_wire_version
    pub kind : w.message.body.kind ≡ kind_sealed
    pub decrypted :
        aead.decrypt
          (aead_key kdf key topic)
          (take nonce_len w.message.body.payload)
          (be_bytes 32 w.author ++ be_bytes 16 w.message.id)
          (drop nonce_len w.message.body.payload)
        ≡ some plaintext
    pub opened : open_plaintext postcard ed kdf aead w.author w.message plaintext ≡ ok v

  pub unseal_verified-IsSealedFor :
      (key : DropKey) (topic : TopicId) (w v : VerifiedMessage)
      → unseal_verified postcard ed kdf aead key topic w ≡ ok v
      → (plaintext : Bytes) × IsSealedFor key topic w v plaintext
  unfolding unseal_verified
  unseal_verified-IsSealedFor key topic w v h =
      elim (Option-cases (
        aead.decrypt (aead_key kdf key topic) (take nonce_len w.message.body.payload)
          (be_bytes 32 w.author ++ be_bytes 16 w.message.id)
          (drop nonce_len w.message.body.payload))) [
            | inl failed ↦ absurd (ground arith)
            | inr (plaintext, decrypted) ↦ (
              plaintext,
              record {
                version = ground arith;
                kind = ground arith;
                decrypted = decrypted;
                opened = ground arith;
              },
            )
          ]

  verify_sealed_for_topic-ok :
      (frame : SignedMessageV1) (topic : TopicId) (w : VerifiedMessage)
      → verify_sealed_for_topic postcard ed kdf aead frame topic ≡ ok w
      → verify_outer postcard ed frame sealed_sign_domain topic ≡ ok w
  unfolding verify_sealed_for_topic
  verify_sealed_for_topic-ok frame topic w h =
      by_result (verify_outer postcard ed frame sealed_sign_domain topic) refl
    where
      by_result :
          (r : Result ProtocolError VerifiedMessage)
          → verify_outer postcard ed frame sealed_sign_domain topic ≡ r
          → verify_outer postcard ed frame sealed_sign_domain topic ≡ ok w
      by_result (ok u) e = ground arith
      by_result (err f) e = ground arith

  pub verify_outer-IsVerified :
      (frame : SignedMessageV1) (topic : TopicId) (w : VerifiedMessage)
      → verify_outer postcard ed frame sealed_sign_domain topic ≡ ok w
      → IsVerified postcard ed (signing_input sealed_sign_domain topic frame.payload) frame w
  unfolding verify_outer
  verify_outer-IsVerified frame topic w h =
      verify_input-IsVerified postcard ed (signing_input sealed_sign_domain topic frame.payload)
        frame w h

  -- The parts of a decoded sealed frame.
  pub record IsDecoded (bytes : Bytes) (key : DropKey) (topic : TopicId) (v : VerifiedMessage)
      (frame : SignedMessageV1) (w : VerifiedMessage) : Type 0 where
    pub small : length bytes ≤ max_message_size
    pub read : postcard.frames.read bytes ≡ some frame
    pub verified : verify_outer postcard ed frame sealed_sign_domain topic ≡ ok w
    pub unsealed : unseal_verified postcard ed kdf aead key topic w ≡ ok v

  pub decode_sealed-IsDecoded :
      (bytes : Bytes) (key : DropKey) (topic : TopicId) (v : VerifiedMessage)
      → decode_sealed postcard ed kdf aead bytes key topic ≡ ok v
      → (frame : SignedMessageV1) × (w : VerifiedMessage) × IsDecoded bytes key topic v frame w
  unfolding decode_sealed
  decode_sealed-IsDecoded bytes key topic v h =
      elim (Bool-cases (ltb max_message_size (length bytes))) [
        | inl large ↦ absurd (ground arith)
        | inr small ↦ elim (Option-cases (postcard.frames.read bytes)) [
          | inl garbled ↦ absurd (ground arith)
          | inr (frame, read) ↦
              by_result (false→le _ _ small) frame read
                (verify_sealed_for_topic postcard ed kdf aead frame topic) refl
        ]
      ]
    where
      by_result :
          length bytes ≤ max_message_size
          → (frame : SignedMessageV1) → postcard.frames.read bytes ≡ some frame
          → (r : Result ProtocolError VerifiedMessage)
          → verify_sealed_for_topic postcard ed kdf aead frame topic ≡ r
          → (frame : SignedMessageV1) × (w : VerifiedMessage) × IsDecoded bytes key topic v frame w
      by_result small frame read (err f) e = absurd (ground arith)
      by_result small frame read (ok w) e = (
        frame,
        w,
        record {
          small = small;
          read = read;
          verified = verify_sealed_for_topic-ok frame topic w e;
          unsealed = ground arith;
        },
      )

  -- A member accepts a sealed frame only with the signature of its author over this topic in the sealed
  -- domain, at the sealed version and kind, with a body that decrypts under the key of the drop and this topic,
  -- bound to the author and the id that the message reports, and is within the limits or of an unknown kind.
  pub decode_sealed-IsUnsealed :
      (bytes : Bytes) (key : DropKey) (topic : TopicId) (v : VerifiedMessage)
      → decode_sealed postcard ed kdf aead bytes key topic ≡ ok v
      → (frame : SignedMessageV1) × (outer : MessageV1) × (plaintext : Bytes) × IsUnsealed bytes key
          topic frame outer plaintext v
  decode_sealed-IsUnsealed bytes key topic v h =
      let (frame, w, d) = decode_sealed-IsDecoded bytes key topic v h in
      let (plaintext, s) = unseal_verified-IsSealedFor key topic w v d.unsealed in
      let o = open_plaintext-IsOpened w.author w.message plaintext v s.opened in
      let signature = verify_outer-IsVerified frame topic w d.verified in
      (
        frame,
        w.message,
        plaintext,
        record {
          small = d.small;
          read = d.read;
          signed = signature.signed;
          author = o.author_lem ∙ signature.author;
          message = signature.message;
          version = s.version;
          kind = s.kind;
          id = o.id;
          decrypted = rw (o.author_lem, o.id) s.decrypted;
          inner = o.inner;
          body = o.body;
          valid = o.valid;
        },
      )
