-- ===== src/Frame/RoundTrip.antt =====
-- What is encoded is decoded.
use iroh_drop.Prelude.{ℕ, ◌≤◌, ◌≡◌, ap, subst, none, some, arith, length, ltb-false}
use iroh_drop.Text.{Bytes}
use iroh_drop.Error.{ok}
use iroh_drop.Message.{
  SignedMessageV1, MessageV1, EndpointId, FrameId, MessageBodyV1, offer, provider, request,
  extension, TopicId, max_message_size, max_body_size,
}
use iroh_drop.Name.{validate_body}
use iroh_drop.Frame.{
  Postcard, Ed25519, VerifiedMessage, sign_domain, signing_input, encode_body, new_message,
  decode_kind, decode_body, encode, verify_input, verify_outer, verify_for_topic, check_verified,
  decode,
}
use iroh_drop.Frame.Laws.{IsPostcard, IsSecret}

module _ (postcard : Postcard) (laws : IsPostcard postcard) where
  pub decode_kind-encode_body :
      (body : MessageBodyV1)
      → decode_kind postcard (encode_body postcard body).kind (encode_body postcard body).payload
        ≡ ok (some body)
  unfolding decode_kind encode_body
  decode_kind-encode_body (offer o) = rw (laws.offers.read-write o)
  decode_kind-encode_body (provider p) = rw (laws.providers.read-write p)
  decode_kind-encode_body (request r) = rw (laws.requests.read-write r)
  decode_kind-encode_body (extension e) = rw (laws.extensions.read-write e)

  pub decode_body-encode_body :
      (body : MessageBodyV1)
      → length (encode_body postcard body).payload ≤ max_body_size
      → decode_body postcard (encode_body postcard body) ≡ ok (some body)
  unfolding decode_body
  decode_body-encode_body body small =
      rw (ltb-false max_body_size (length (encode_body postcard body).payload) small)
        (decode_kind-encode_body body)

  -- A frame that its author signed for these bytes verifies.
  pub verify_input-sign :
      (ed : Ed25519) (secret : Bytes)
      → IsSecret ed secret
      → (input : Bytes) (message : MessageV1)
      → length (postcard.messages.write message) ≤ max_message_size
      → verify_input postcard ed input (record {
        author = ed.public_key secret;
        signature = ed.sign secret input;
        payload = postcard.messages.write message;
      })
        ≡ ok (record {
          author = ed.endpoint_id (ed.public_key secret);
          message = message;
          body = none;
        })
  unfolding verify_input
  verify_input-sign ed secret h input message small =
      ground (
        arith,
        laws.messages.read-write message,
        h.is_key,
        h.length-sign input,
        h.verify-sign input,
      )

  -- The frame of a message that is signed with a secret key over a topic.
  abbrev pub signed : Ed25519 → Bytes → Bytes → TopicId → MessageV1 → SignedMessageV1
  signed ed secret domain topic message = record {
    author = ed.public_key secret;
    signature = ed.sign secret (signing_input domain topic (postcard.messages.write message));
    payload = postcard.messages.write message;
  }

  pub verify_outer-signed :
      (ed : Ed25519) (secret : Bytes)
      → IsSecret ed secret
      → (domain : Bytes) (topic : TopicId) (message : MessageV1)
      → length (postcard.messages.write message) ≤ max_message_size
      → verify_outer postcard ed (signed ed secret domain topic message) domain topic
        ≡ ok (record {
          author = ed.endpoint_id (ed.public_key secret);
          message = message;
          body = none;
        })
  unfolding verify_outer
  verify_outer-signed ed secret h domain topic message small =
      verify_input-sign ed secret h (signing_input domain topic (postcard.messages.write message))
        message small

  encode_ok :
      (ed : Ed25519) (secret : Bytes) (topic : TopicId) (message : MessageV1) (bytes : Bytes)
      → encode postcard ed secret topic message ≡ ok bytes
      → (postcard.frames.write (signed ed secret sign_domain topic message) ≡ bytes)
        × (length bytes ≤ max_message_size)
  unfolding encode
  encode_ok ed secret topic message bytes h = ground arith

  verify_for_topic_ok :
      (ed : Ed25519) (frame : SignedMessageV1) (topic : TopicId) (v : VerifiedMessage)
      → verify_outer postcard ed frame sign_domain topic ≡ ok v
      → verify_for_topic postcard ed frame topic ≡ ok v
  unfolding verify_for_topic
  verify_for_topic_ok ed frame topic v h = ground arith

  check_verified-new_message :
      (ed : Ed25519) (author : EndpointId) (id : FrameId) (now : ℕ) (body : MessageBodyV1)
      → validate_body body ≡ ok tt
      → length (encode_body postcard body).payload ≤ max_body_size
      → check_verified postcard ed
          (record { author = author; message = new_message postcard id now body; body = none })
        ≡ ok (record {
          author = author;
          message = new_message postcard id now body;
          body = some body;
        })
  unfolding check_verified new_message
  check_verified-new_message ed author id now body valid small = rw (
    ltb-false max_body_size (length (encode_body postcard body).payload) small,
    decode_body-encode_body body small,
    valid,
  )

  -- A message of a body within the limits, once encoded, is decoded by everyone in the topic to the same
  -- message and body, under the id of the key that signed it.
  pub decode-encode :
      (ed : Ed25519) (secret : Bytes)
      → IsSecret ed secret
      → (topic : TopicId) (id : FrameId) (now : ℕ) (body : MessageBodyV1)
      → validate_body body ≡ ok tt
      → length (encode_body postcard body).payload ≤ max_body_size
      → (bytes : Bytes)
      → encode postcard ed secret topic (new_message postcard id now body) ≡ ok bytes
      → decode postcard ed bytes topic
        ≡ ok (record {
          author = ed.endpoint_id (ed.public_key secret);
          message = new_message postcard id now body;
          body = some body;
        })
  unfolding decode
  decode-encode ed secret h topic id now body valid small bytes e =
      let message = new_message postcard id now body in
      let frame = signed ed secret sign_domain topic message in
      let (written, fits) = encode_ok ed secret topic message bytes e in
      let read : postcard.frames.read bytes ≡ some frame =
        subst (λ b. postcard.frames.read b ≡ some frame) written (laws.frames.read-write frame) in
      let shorter : length frame.payload ≤ max_message_size =
        omega
          (arith, laws.payload-le frame.author frame.signature frame.payload, ap length written) in
      let verified =
        verify_for_topic_ok ed frame topic _
          (verify_outer-signed ed secret h sign_domain topic message shorter) in
      rw (ltb-false max_message_size (length bytes) fits, read, verified)
        (check_verified-new_message ed (ed.endpoint_id (ed.public_key secret)) id now body valid
          small)
