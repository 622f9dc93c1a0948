-- ===== src/Frame.antt =====
-- The frames of the public family, of crates/iroh-drop/src/message.rs: signing, verification and decoding.
-- postcard and ed25519 are parameters.
pub mod Accepted
pub mod Laws
pub mod Instance
pub mod RoundTrip
mod Tests
use iroh_drop.Prelude.{
  ℕ, ◌≡◌, Bool, true, false, not, Option, none, some, List, [], ◌∷◌, ◌++◌, length, ltb, ◌==◌,
  if◌then◌else◌,
}
use iroh_drop.Text.{Bytes, codes, text_eq}
use iroh_drop.Error.{
  Result, ok, err, ◌>>=◌, ◌>>◌, refuse_if, ProtocolError, Malformation, unsupported_version,
  message_too_large, malformed, invalid_signature, invalid_author, bad_frame, bad_envelope,
  bad_signature_length, bad_offer, bad_extension, bad_provider, bad_request,
}
use iroh_drop.Message.{
  SignedMessageV1, MessageV1, BodyEnvelopeV1, MessageBodyV1, OfferV1, ProviderV1, RequestV1,
  ExtensionV1, offer, provider, request, extension, EndpointId, FrameId, TopicId, wire_version,
  kind_offer, kind_provider, kind_request, kind_extension, max_message_size, max_body_size,
}
use iroh_drop.Name.{validate_body}

-- `to_allocvec` and `take_from_bytes`, without the rest.
pub record Format (A : Type 0) : Type 0 where
  pub write : A → Bytes
  pub read : Bytes → Option A

pub record Postcard : Type 0 where
  pub frames : Format SignedMessageV1
  pub messages : Format MessageV1
  pub envelopes : Format BodyEnvelopeV1
  pub offers : Format OfferV1
  pub providers : Format ProviderV1
  pub requests : Format RequestV1
  pub extensions : Format ExtensionV1

-- ed25519: keys and signatures as bytes.
pub record Ed25519 : Type 0 where
  pub public_key : Bytes → Bytes
  pub is_key : Bytes → Bool
  pub endpoint_id : Bytes → EndpointId
  pub sign : Bytes → Bytes → Bytes
  pub verify : Bytes → Bytes → Bytes → Bool

unfoldable pub sign_domain : Bytes
sign_domain = codes "iroh-drop/v3/message/"

unfoldable pub legacy_sign_domain : Bytes
legacy_sign_domain = codes "iroh-drop/v2/message/"

unfoldable pub sealed_sign_domain : Bytes
sealed_sign_domain = codes "iroh-drop/v4/message/"

unfoldable pub signing_input : Bytes → TopicId → Bytes → Bytes
signing_input domain topic payload = domain ++ topic ++ payload

-- What a decoded frame says: its author, the message, and the body if its kind is known.
pub record VerifiedMessage : Type 0 where
  pub author : EndpointId
  pub message : MessageV1
  pub body : Option MessageBodyV1

abbrev pub or_else : {A : Type 0} → Option A → ProtocolError → Result ProtocolError A
or_else none e = err e
or_else (some a) e = ok a

module _ (postcard : Postcard) where
  unfoldable pub encode_body : MessageBodyV1 → BodyEnvelopeV1
  encode_body (offer o) = record { kind = kind_offer; payload = postcard.offers.write o }
  encode_body (provider p) = record { kind = kind_provider; payload = postcard.providers.write p }
  encode_body (request r) = record { kind = kind_request; payload = postcard.requests.write r }
  encode_body (extension e) = record {
    kind = kind_extension;
    payload = postcard.extensions.write e;
  }

  -- `MessageV1::new`, with the random id and the reading of the clock.
  unfoldable pub new_message : FrameId → ℕ → MessageBodyV1 → MessageV1
  new_message id now body = record {
    version = wire_version;
    id = id;
    sent_at_ms = now;
    body = encode_body body;
  }

  -- The `match self.kind`.
  unfoldable pub decode_kind : ℕ → Bytes → Result ProtocolError (Option MessageBodyV1)
  decode_kind kind payload =
      if kind == kind_offer
      then (or_else (postcard.offers.read payload) (malformed bad_offer) >>= λ o.
          ok (some (offer o)))
      else if kind == kind_extension
      then (or_else (postcard.extensions.read payload) (malformed bad_extension) >>= λ e.
          ok (some (extension e)))
      else if kind == kind_provider
      then (or_else (postcard.providers.read payload) (malformed bad_provider) >>= λ p.
          ok (some (provider p)))
      else if kind == kind_request
      then (or_else (postcard.requests.read payload) (malformed bad_request) >>= λ r.
          ok (some (request r)))
      else ok none

  unfoldable pub decode_body : BodyEnvelopeV1 → Result ProtocolError (Option MessageBodyV1)
  unfolding decode_kind
  decode_body b =
      if ltb max_body_size (length b.payload)
      then err (message_too_large (length b.payload))
      else decode_kind b.kind b.payload

abbrev pub validate_known : Option MessageBodyV1 → Result ProtocolError (Unit {0})
validate_known none = ok tt
validate_known (some body) = validate_body body

module _ (postcard : Postcard) (ed : Ed25519) where
  -- `encode` of a message with a secret key.
  unfoldable pub encode : Bytes → TopicId → MessageV1 → Result ProtocolError Bytes
  unfolding signing_input
  encode secret topic message =
      let payload = postcard.messages.write message in
      let bytes = postcard.frames.write (record {
        author = ed.public_key secret;
        signature = ed.sign secret (signing_input sign_domain topic payload);
        payload = payload;
      }) in
      if ltb max_message_size (length bytes)
      then err (message_too_large (length bytes))
      else ok bytes

  -- What `verify_outer` and `verify_legacy` share: the bytes that are signed are given.
  unfoldable pub verify_input : Bytes → SignedMessageV1 → Result ProtocolError VerifiedMessage
  verify_input input frame =
      if ltb max_message_size (length frame.payload)
      then err (message_too_large (length frame.payload))
      else if not (ed.is_key frame.author)
      then err invalid_author
      else if not (length frame.signature == 64)
      then err (malformed bad_signature_length)
      else if not (ed.verify frame.author input frame.signature)
      then err invalid_signature
      else (elim (postcard.messages.read frame.payload) [
        | none ↦ err (malformed bad_envelope)
        | some message ↦
            ok (record { author = ed.endpoint_id frame.author; message = message; body = none })
      ])

  unfoldable pub verify_outer :
      SignedMessageV1 → Bytes → TopicId → Result ProtocolError VerifiedMessage
  unfolding verify_input signing_input
  verify_outer frame domain topic = verify_input (signing_input domain topic frame.payload) frame

  unfoldable pub verify_legacy : SignedMessageV1 → Result ProtocolError VerifiedMessage
  unfolding verify_input
  verify_legacy frame = verify_input (legacy_sign_domain ++ frame.payload) frame

  abbrev pub version_or : Result ProtocolError VerifiedMessage → Option ℕ → Option ℕ
  version_or (ok v) rest = some v.message.version
  version_or (err e) rest = rest

  unfoldable pub diagnose_other_family : SignedMessageV1 → List Bytes → TopicId → Option ℕ
  unfolding verify_legacy verify_outer
  diagnose_other_family frame [] topic = none
  diagnose_other_family frame (domain ∷ domains) topic =
      let rest = diagnose_other_family frame domains topic in
      if text_eq domain legacy_sign_domain
      then version_or (verify_legacy frame) rest
      else version_or (verify_outer frame domain topic) rest

  -- The error of a frame whose signature does not verify.
  abbrev pub diagnosed : Option ℕ → ProtocolError
  diagnosed none = invalid_signature
  diagnosed (some version) = unsupported_version version

  abbrev pub explain : ProtocolError → Option ℕ → ProtocolError
  explain invalid_signature family = diagnosed family
  explain e family = e

  unfoldable pub verify_for_topic : SignedMessageV1 → TopicId → Result ProtocolError VerifiedMessage
  verify_for_topic frame topic = elim (verify_outer frame sign_domain topic) [
    | ok v ↦ ok v
    | err e ↦ err (
        explain e
          (diagnose_other_family frame (legacy_sign_domain ∷ sealed_sign_domain ∷ []) topic))
  ]

  -- The checks after the signature.
  unfoldable pub check_verified : VerifiedMessage → Result ProtocolError VerifiedMessage
  check_verified v =
      if not (v.message.version == wire_version)
      then err (unsupported_version v.message.version)
      else if ltb max_body_size (length v.message.body.payload)
      then err (message_too_large (length v.message.body.payload))
      else (elim (decode_body postcard v.message.body) [
        | err e ↦ err e
        | ok body ↦ elim (validate_known body) [
          | err e ↦ err e
          | ok t ↦ ok (record v { body = body })
        ]
      ])

  unfoldable pub decode : Bytes → TopicId → Result ProtocolError VerifiedMessage
  decode bytes topic =
      if ltb max_message_size (length bytes)
      then err (message_too_large (length bytes))
      else (elim (postcard.frames.read bytes) [
        | none ↦ err (malformed bad_frame)
        | some frame ↦ verify_for_topic frame topic >>= check_verified
      ])
