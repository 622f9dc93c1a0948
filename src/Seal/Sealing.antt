-- ===== src/Seal/Sealing.antt =====
-- The frames of private drops, of crates/iroh-drop/src/seal.rs. XChaCha20-Poly1305 is a parameter, and
-- the random nonce is an argument.
use iroh_drop.Prelude.{
  ℕ, not, Option, none, some, [], ◌∷◌, ◌++◌, length, take, drop, ltb, ◌==◌, if◌then◌else◌,
}
use iroh_drop.Text.{Bytes}
use iroh_drop.Error.{
  Result, ok, err, ◌>>=◌, ProtocolError, unsupported_version, message_too_large, malformed, unseal,
  bad_frame, sealing_failed, not_sealed, sealed_too_short, bad_plaintext, unsealed_kind,
}
use iroh_drop.Message.{
  SignedMessageV1, MessageV1, BodyEnvelopeV1, EndpointId, TopicId, max_message_size, max_body_size,
}
use iroh_drop.Seal.{Kdf, DropKey, be_bytes, sealed_wire_version, kind_sealed, aead_key}
use iroh_drop.Frame.{
  Postcard, Ed25519, VerifiedMessage, sign_domain, legacy_sign_domain, sealed_sign_domain,
  signing_input, decode_body, validate_known, verify_outer, diagnose_other_family, explain,
}

-- The cipher: the key, the nonce, the additional data and the text.
pub record Aead : Type 0 where
  pub encrypt : Bytes → Bytes → Bytes → Bytes → Option Bytes
  pub decrypt : Bytes → Bytes → Bytes → Bytes → Option Bytes

abbrev pub nonce_len : ℕ
nonce_len = 24

-- The message around a sealed body.
unfoldable pub outer_message : MessageV1 → Bytes → MessageV1
outer_message message sealed = record {
  version = sealed_wire_version;
  id = message.id;
  sent_at_ms = message.sent_at_ms;
  body = record { kind = kind_sealed; payload = sealed };
}

module _ (postcard : Postcard) (ed : Ed25519) (kdf : Kdf) (aead : Aead) where
  unfoldable pub encode_sealed_with_nonce :
      Bytes → DropKey → TopicId → Bytes → Bytes → MessageV1 → Result ProtocolError Bytes
  unfolding outer_message signing_input aead_key
  encode_sealed_with_nonce secret drop_key topic nonce inner_bytes message =
      let author = ed.public_key secret in
      let aad = author ++ be_bytes 16 message.id in
      elim (aead.encrypt (aead_key kdf drop_key topic) nonce aad inner_bytes) [
        | none ↦ err (malformed sealing_failed)
        | some ciphertext ↦
            let payload = postcard.messages.write (outer_message message (nonce ++ ciphertext)) in
            let bytes = postcard.frames.write (record {
              author = author;
              signature = ed.sign secret (signing_input sealed_sign_domain topic payload);
              payload = payload;
            }) in
            if ltb max_message_size (length bytes)
            then err (message_too_large (length bytes))
            else ok bytes
      ]

  unfoldable pub encode_sealed :
      Bytes → DropKey → TopicId → Bytes → MessageV1 → Result ProtocolError Bytes
  encode_sealed secret drop_key topic nonce message =
      let inner_bytes = postcard.envelopes.write message.body in
      if ltb max_body_size (length inner_bytes)
      then err (message_too_large (length inner_bytes))
      else encode_sealed_with_nonce secret drop_key topic nonce inner_bytes message

  -- The checks of a blind relay after the signature.
  unfoldable pub check_sealed : VerifiedMessage → Result ProtocolError VerifiedMessage
  check_sealed v =
      if not (v.message.version == sealed_wire_version)
      then err (unsupported_version v.message.version)
      else if not (v.message.body.kind == kind_sealed)
      then err (malformed not_sealed)
      else if ltb max_body_size (length v.message.body.payload)
      then err (message_too_large (length v.message.body.payload))
      else ok v

  unfoldable pub verify_sealed_outer : Bytes → TopicId → Result ProtocolError VerifiedMessage
  verify_sealed_outer bytes topic =
      if ltb max_message_size (length bytes)
      then err (message_too_large (length bytes))
      else (elim (postcard.frames.read bytes) [
        | none ↦ err (malformed bad_frame)
        | some frame ↦ verify_outer postcard ed frame sealed_sign_domain topic >>= check_sealed
      ])

  -- The signature of a sealed frame, with the diagnosis of the other families.
  unfoldable pub verify_sealed_for_topic :
      SignedMessageV1 → TopicId → Result ProtocolError VerifiedMessage
  verify_sealed_for_topic frame topic =
      elim (verify_outer postcard ed frame sealed_sign_domain topic) [
        | ok v ↦ ok v
        | err e ↦ err (
            explain postcard ed e (
              diagnose_other_family postcard ed frame (sign_domain ∷ legacy_sign_domain ∷ [])
                topic))
      ]

  -- The body of a plaintext.
  unfoldable pub open_body :
      EndpointId → MessageV1 → BodyEnvelopeV1 → Result ProtocolError VerifiedMessage
  open_body author outer inner =
      if ltb max_body_size (length inner.payload)
      then err (message_too_large (length inner.payload))
      else (elim (decode_body postcard inner) [
        | err e ↦ err e
        | ok body ↦ elim (validate_known body) [
          | err e ↦ err e
          | ok t ↦ ok (record {
            author = author;
            message = record {
              version = sealed_wire_version;
              id = outer.id;
              sent_at_ms = outer.sent_at_ms;
              body = inner;
            };
            body = body;
          })
        ]
      ])

  unfoldable pub open_plaintext :
      EndpointId → MessageV1 → Bytes → Result ProtocolError VerifiedMessage
  open_plaintext author outer inner_bytes =
      if ltb max_body_size (length inner_bytes)
      then err (message_too_large (length inner_bytes))
      else (elim (postcard.envelopes.read inner_bytes) [
        | none ↦ err (malformed bad_plaintext)
        | some inner ↦ open_body author outer inner
      ])

  -- What `decode_sealed` does after the signature.
  unfoldable pub unseal_verified :
      DropKey → TopicId → VerifiedMessage → Result ProtocolError VerifiedMessage
  unseal_verified drop_key topic v =
      let outer = v.message in
      let sealed = outer.body.payload in
      if not (outer.version == sealed_wire_version)
      then err (unsupported_version outer.version)
      else if not (outer.body.kind == kind_sealed)
      then err (malformed (unsealed_kind outer.body.kind))
      else if ltb (length sealed) nonce_len
      then err (malformed sealed_too_short)
      else (elim (aead.decrypt (aead_key kdf drop_key topic) (take nonce_len sealed)
          (be_bytes 32 v.author ++ be_bytes 16 outer.id) (drop nonce_len sealed)) [
            | none ↦ err unseal
            | some inner_bytes ↦ open_plaintext v.author outer inner_bytes
          ])

  unfoldable pub decode_sealed : Bytes → DropKey → TopicId → Result ProtocolError VerifiedMessage
  decode_sealed bytes drop_key topic =
      if ltb max_message_size (length bytes)
      then err (message_too_large (length bytes))
      else (elim (postcard.frames.read bytes) [
        | none ↦ err (malformed bad_frame)
        | some frame ↦ verify_sealed_for_topic frame topic >>= unseal_verified drop_key topic
      ])
