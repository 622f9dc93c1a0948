-- ===== src/Frame/Accepted.antt =====
-- Which frames are accepted.
use iroh_drop.Prelude.{
  ◌≤◌, ◌≡◌, ◌∙◌, refl, sym, ap, inl, inr, true, false, Option, some, arith, length, ltb, false→le,
  Bool-cases, Option-cases,
}
use iroh_drop.Text.{Bytes}
use iroh_drop.Error.{Result, ok, err, ProtocolError}
use iroh_drop.Message.{
  SignedMessageV1, MessageV1, MessageBodyV1, TopicId, wire_version, max_message_size,
}
use iroh_drop.Frame.{
  Postcard, Ed25519, VerifiedMessage, sign_domain, signing_input, verify_input, verify_outer,
  verify_for_topic, check_verified, decode, decode_body, validate_known,
}

module _ (postcard : Postcard) (ed : Ed25519) where
  -- What stands behind an accepted frame: the signature of its author over this topic, the current version,
  -- and a body within the limits, or of an unknown kind.
  pub record IsAccepted (bytes : Bytes) (topic : TopicId) (frame : SignedMessageV1)
      (v : VerifiedMessage) : Type 0 where
    pub small : length bytes ≤ max_message_size
    pub read : postcard.frames.read bytes ≡ some frame
    pub signed :
        ed.verify frame.author (signing_input sign_domain topic frame.payload) frame.signature
        ≡ true
    pub author : v.author ≡ ed.endpoint_id frame.author
    pub message : postcard.messages.read frame.payload ≡ some v.message
    pub version : v.message.version ≡ wire_version
    pub body : decode_body postcard v.message.body ≡ ok v.body
    pub valid : validate_known v.body ≡ ok tt

  pub record IsVerified (input : Bytes) (frame : SignedMessageV1) (v : VerifiedMessage)
      : Type 0 where
    pub signed : ed.verify frame.author input frame.signature ≡ true
    pub author : v.author ≡ ed.endpoint_id frame.author
    pub message : postcard.messages.read frame.payload ≡ some v.message

  pub verify_input-IsVerified :
      (input : Bytes) (frame : SignedMessageV1) (v : VerifiedMessage)
      → verify_input postcard ed input frame ≡ ok v
      → IsVerified input frame v
  unfolding verify_input
  verify_input-IsVerified input frame v h = record {
    signed = ground arith;
    author = ground arith;
    message = ground arith;
  }

  verify_outer-verify_for_topic :
      (frame : SignedMessageV1) (topic : TopicId) (v : VerifiedMessage)
      → verify_for_topic postcard ed frame topic ≡ ok v
      → verify_outer postcard ed frame sign_domain topic ≡ ok v
  unfolding verify_for_topic
  verify_outer-verify_for_topic frame topic v h =
      by_result (verify_outer postcard ed frame sign_domain topic) refl
    where
      by_result :
          (r : Result ProtocolError VerifiedMessage)
          → verify_outer postcard ed frame sign_domain topic ≡ r
          → verify_outer postcard ed frame sign_domain topic ≡ ok v
      by_result (ok w) e = ground arith
      by_result (err f) e = ground arith

  verify_for_topic-IsVerified :
      (frame : SignedMessageV1) (topic : TopicId) (v : VerifiedMessage)
      → verify_for_topic postcard ed frame topic ≡ ok v
      → IsVerified (signing_input sign_domain topic frame.payload) frame v
  unfolding verify_outer
  verify_for_topic-IsVerified frame topic v h =
      verify_input-IsVerified (signing_input sign_domain topic frame.payload) frame v
        (verify_outer-verify_for_topic frame topic v h)

  record IsChecked (w v : VerifiedMessage) : Type 0 where
    version : w.message.version ≡ wire_version
    body : decode_body postcard w.message.body ≡ ok v.body
    valid : validate_known v.body ≡ ok tt
    author : v.author ≡ w.author
    message : v.message ≡ w.message

  check_verified-IsChecked :
      (w v : VerifiedMessage) → check_verified postcard ed w ≡ ok v → IsChecked w v
  unfolding check_verified
  check_verified-IsChecked w v h = by_body (decode_body postcard w.message.body) refl
    where
      by_valid :
          (b : Option MessageBodyV1)
          → decode_body postcard w.message.body ≡ ok b
          → (r : Result ProtocolError (Unit {0})) → validate_known b ≡ r
          → IsChecked w v
      by_valid b e (err f) g = absurd (ground arith)
      by_valid b e (ok t) g = record {
        version = ground arith;
        body = ground arith;
        valid = ground arith;
        author = ground arith;
        message = ground arith;
      }

      by_body :
          (r : Result ProtocolError (Option MessageBodyV1))
          → decode_body postcard w.message.body ≡ r
          → IsChecked w v
      by_body (err f) e = absurd (ground arith)
      by_body (ok b) e = by_valid b e (validate_known b) refl

  -- A frame is accepted only with the signature of its author over this topic, at the current version, and
  -- with a body within the limits or of an unknown kind.
  pub decode-IsAccepted :
      (bytes : Bytes) (topic : TopicId) (v : VerifiedMessage)
      → decode postcard ed bytes topic ≡ ok v
      → (frame : SignedMessageV1) × IsAccepted bytes topic frame v
  unfolding decode
  decode-IsAccepted bytes topic v h = elim (Bool-cases (ltb max_message_size (length bytes))) [
    | inl large ↦ absurd (ground arith)
    | inr small ↦ elim (Option-cases (postcard.frames.read bytes)) [
      | inl garbled ↦ absurd (ground arith)
      | inr (frame, read) ↦
          by_result small frame read (verify_for_topic postcard ed frame topic) refl
    ]
  ]
    where
      by_result :
          ltb max_message_size (length bytes) ≡ false
          → (frame : SignedMessageV1) → postcard.frames.read bytes ≡ some frame
          → (r : Result ProtocolError VerifiedMessage)
          → verify_for_topic postcard ed frame topic ≡ r
          → (frame : SignedMessageV1) × IsAccepted bytes topic frame v
      by_result small frame read (err f) e = absurd (ground arith)
      by_result small frame read (ok w) e =
          let c = check_verified-IsChecked w v (ground arith) in
          let s = verify_for_topic-IsVerified frame topic w e in
          (
            frame,
            record {
              small = false→le _ _ small;
              read = read;
              signed = s.signed;
              author = c.author ∙ s.author;
              message = s.message ∙ ap some (sym c.message);
              version = ap (λ (m : MessageV1). m.version) c.message ∙ c.version;
              body = ap (λ (m : MessageV1). decode_body postcard m.body) c.message ∙ c.body;
              valid = c.valid;
            },
          )
