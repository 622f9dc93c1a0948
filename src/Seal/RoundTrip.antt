-- ===== src/Seal/RoundTrip.antt =====
-- What is sealed is read by who holds the key, and passed on by who does not.
use iroh_drop.Prelude.{
  ℕ, ◌+◌, ◌≤◌, ◌≡◌, refl, ap, subst, none, some, ◌++◌, length, take, drop, ltb, length-append,
  arith, ltb-false, Option-cases, if◌then◌else◌, inl, inr, [], ◌∷◌, zero, suc,
}
use iroh_drop.Text.{Bytes}
use iroh_drop.Error.{ok, err, message_too_large}
use iroh_drop.Message.{
  SignedMessageV1, MessageV1, MessageBodyV1, EndpointId, FrameId, TopicId, max_message_size,
  max_body_size,
}
use iroh_drop.Name.{validate_body}
use iroh_drop.Seal.{Kdf, DropKey, be_bytes, aead_key, sealed_wire_version}
use iroh_drop.Seal.Sealing.{
  Aead, nonce_len, outer_message, encode_sealed_with_nonce, encode_sealed, check_sealed,
  verify_sealed_outer, verify_sealed_for_topic, open_body, open_plaintext, unseal_verified,
  decode_sealed,
}
use iroh_drop.Frame.{
  Postcard, Ed25519, VerifiedMessage, sealed_sign_domain, encode_body, new_message, verify_outer,
}
use iroh_drop.Frame.Laws.{IsPostcard, IsSecret}
use iroh_drop.Frame.RoundTrip.{signed, verify_outer-signed, decode_body-encode_body}

-- What is encrypted is decrypted with the same key, nonce and additional data, and has a tag of 16 bytes.
pub record IsAead (aead : Aead) : Type 0 where
  pub decrypt-encrypt :
      (key nonce aad text ciphertext : Bytes)
      → aead.encrypt key nonce aad text ≡ some ciphertext
      → aead.decrypt key nonce aad ciphertext ≡ some text
  pub length-encrypt :
      (key nonce aad text ciphertext : Bytes)
      → aead.encrypt key nonce aad text ≡ some ciphertext
      → length ciphertext ≡ length text + 16

pub take-append : (n : ℕ) (xs ys : Bytes) → length xs ≡ n → take n (xs ++ ys) ≡ xs
take-append zero [] [] h = refl
take-append zero [] (y ∷ ys) h = refl
take-append zero (x ∷ xs) ys h = absurd (omega arith)
take-append (suc n) [] ys h = absurd (omega arith)
take-append (suc n) (x ∷ xs) ys h = ap (◌∷◌ x) (take-append n xs ys (omega arith))

pub drop-append : (n : ℕ) (xs ys : Bytes) → length xs ≡ n → drop n (xs ++ ys) ≡ ys
drop-append zero [] ys h = refl
drop-append zero (x ∷ xs) ys h = absurd (omega arith)
drop-append (suc n) [] ys h = absurd (omega arith)
drop-append (suc n) (x ∷ xs) ys h = drop-append n xs ys (omega arith)

module _ (postcard : Postcard) (laws : IsPostcard postcard) (ed : Ed25519) (secret : Bytes)
    (h : IsSecret ed secret) (kdf : Kdf) (aead : Aead) (cipher : IsAead aead) (key : DropKey)
    (topic : TopicId) (nonce : Bytes) where
  -- What a sealed frame is made of.
  record IsSealed (message : MessageV1) (bytes : Bytes) : Type 0 where
    ciphertext : Bytes
    encrypted :
        aead.encrypt
          (aead_key kdf key topic)
          nonce
          (ed.public_key secret ++ be_bytes 16 message.id)
          (postcard.envelopes.write message.body)
        ≡ some ciphertext
    written :
        postcard.frames.write (
          signed postcard laws ed secret sealed_sign_domain topic
            (outer_message message (nonce ++ ciphertext)))
        ≡ bytes
    fits : length bytes ≤ max_message_size
    small : length (postcard.envelopes.write message.body) ≤ max_body_size

  encode_sealed-IsSealed :
      (message : MessageV1) (bytes : Bytes)
      → encode_sealed postcard ed kdf aead secret key topic nonce message ≡ ok bytes
      → IsSealed message bytes
  unfolding encode_sealed encode_sealed_with_nonce
  encode_sealed-IsSealed message bytes e =
      elim (Option-cases (
        aead.encrypt (aead_key kdf key topic) nonce (ed.public_key secret ++ be_bytes 16 message.id)
          (postcard.envelopes.write message.body))) [
            | inl failed ↦ absurd (ground arith)
            | inr (c, encrypted) ↦ record {
              ciphertext = c;
              encrypted = encrypted;
              written = ground arith;
              fits = ground arith;
              small = ground arith;
            }
          ]

  -- The verified outer frame of a sealed message.
  abbrev outer_of : MessageV1 → Bytes → VerifiedMessage
  outer_of message ciphertext = record {
    author = ed.endpoint_id (ed.public_key secret);
    message = outer_message message (nonce ++ ciphertext);
    body = none;
  }

  sealed_outer :
      (message : MessageV1) (bytes : Bytes) (s : IsSealed message bytes)
      → (frame : SignedMessageV1) × (postcard.frames.read bytes ≡ some frame)
        × (verify_outer postcard ed frame sealed_sign_domain topic
            ≡ ok (outer_of message s.ciphertext))
  sealed_outer message bytes s =
      let outer = outer_message message (nonce ++ s.ciphertext) in
      let frame = signed postcard laws ed secret sealed_sign_domain topic outer in
      (
        frame,
        subst (λ b. postcard.frames.read b ≡ some frame) s.written (laws.frames.read-write frame),
        verify_outer-signed postcard laws ed secret h sealed_sign_domain topic outer (
            omega (
              arith,
              laws.payload-le frame.author frame.signature frame.payload,
              ap length s.written,
              s.fits,
            )),
      )

  -- What a blind relay makes of a frame that a member sealed: it accepts it as the member's, with the id and
  -- the body unread, if the sealed body is within the limit; 40 bytes below the limit of the inner body.
  pub verify_sealed_outer-encode_sealed :
      length nonce ≡ 24
      → (message : MessageV1) (bytes : Bytes)
      → encode_sealed postcard ed kdf aead secret key topic nonce message ≡ ok bytes
      → (ciphertext : Bytes) × (verify_sealed_outer postcard ed kdf aead bytes topic ≡ (
          if ltb max_body_size (length (postcard.envelopes.write message.body) + 40)
          then err (message_too_large (length (postcard.envelopes.write message.body) + 40))
          else ok (record {
            author = ed.endpoint_id (ed.public_key secret);
            message = outer_message message (nonce ++ ciphertext);
            body = none;
          })))
  unfolding verify_sealed_outer check_sealed outer_message
  verify_sealed_outer-encode_sealed n message bytes e =
      let s = encode_sealed-IsSealed message bytes e in
      let (frame, read, verified) = sealed_outer message bytes s in
      let size : length (nonce ++ s.ciphertext)
          ≡ length (postcard.envelopes.write message.body) + 40 =
        omega (
          arith,
          length-append nonce s.ciphertext,
          n,
          cipher.length-encrypt _ _ _ _ _ s.encrypted,
        ) in
      (s.ciphertext, rw (ltb-false max_message_size (length bytes) s.fits, read, verified, size))

  open_plaintext-write :
      (author : EndpointId) (outer : MessageV1) (body : MessageBodyV1)
      → validate_body body ≡ ok tt
      → length (postcard.envelopes.write (encode_body postcard body)) ≤ max_body_size
      → open_plaintext postcard ed kdf aead author outer
          (postcard.envelopes.write (encode_body postcard body))
        ≡ ok (record {
          author = author;
          message = record {
            version = sealed_wire_version;
            id = outer.id;
            sent_at_ms = outer.sent_at_ms;
            body = encode_body postcard body;
          };
          body = some body;
        })
  unfolding open_plaintext open_body
  open_plaintext-write author outer body valid small =
      let inner = encode_body postcard body in
      let shorter : length inner.payload ≤ max_body_size =
        omega (arith, laws.envelope-le inner.kind inner.payload) in
      rw (
        ltb-false max_body_size (length (postcard.envelopes.write inner)) small,
        laws.envelopes.read-write inner,
        ltb-false max_body_size (length inner.payload) shorter,
        decode_body-encode_body postcard laws body shorter,
        valid,
      )

  unseal_verified-outer_of :
      length nonce ≡ 24
      → (message : MessageV1) (bytes : Bytes) (s : IsSealed message bytes)
      → unseal_verified postcard ed kdf aead key topic (outer_of message s.ciphertext)
        ≡ open_plaintext postcard ed kdf aead
            (ed.endpoint_id (ed.public_key secret))
            (outer_message message (nonce ++ s.ciphertext))
            (postcard.envelopes.write message.body)
  unfolding unseal_verified outer_message
  unseal_verified-outer_of n message bytes s = rw (
    ltb-false (length (nonce ++ s.ciphertext)) nonce_len
        (omega (arith, length-append nonce s.ciphertext)),
    take-append 24 nonce s.ciphertext n,
    drop-append 24 nonce s.ciphertext n,
    h.as_bytes,
    cipher.decrypt-encrypt _ _ _ _ _ s.encrypted,
  )

  verify_sealed_for_topic_ok :
      (frame : SignedMessageV1) (v : VerifiedMessage)
      → verify_outer postcard ed frame sealed_sign_domain topic ≡ ok v
      → verify_sealed_for_topic postcard ed kdf aead frame topic ≡ ok v
  unfolding verify_sealed_for_topic
  verify_sealed_for_topic_ok frame v e = ground arith

  -- A message of a valid body that is sealed with a nonce of 24 bytes is read by everyone who holds the key,
  -- in the same topic, to the same body, under the id of the key that signed it.
  pub decode_sealed-encode_sealed :
      length nonce ≡ 24
      → (id : FrameId) (now : ℕ) (body : MessageBodyV1) → validate_body body ≡ ok tt
      → (bytes : Bytes)
      → encode_sealed postcard ed kdf aead secret key topic nonce (new_message postcard id now body)
        ≡ ok bytes
      → decode_sealed postcard ed kdf aead bytes key topic
        ≡ ok (record {
          author = ed.endpoint_id (ed.public_key secret);
          message = record {
            version = sealed_wire_version;
            id = id;
            sent_at_ms = now;
            body = encode_body postcard body;
          };
          body = some body;
        })
  unfolding decode_sealed new_message outer_message
  decode_sealed-encode_sealed n id now body valid bytes e =
      let message = new_message postcard id now body in
      let s = encode_sealed-IsSealed message bytes e in
      let (frame, read, verified) = sealed_outer message bytes s in
      rw
        (
          ltb-false max_message_size (length bytes) s.fits,
          read,
          verify_sealed_for_topic_ok frame _ verified,
          unseal_verified-outer_of n message bytes s,
        )
        (open_plaintext-write (ed.endpoint_id (ed.public_key secret))
          (outer_message message (nonce ++ s.ciphertext)) body valid s.small)
