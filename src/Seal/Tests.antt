-- ===== src/Seal/Tests.antt =====
-- A provider's announcement in a private drop.
use iroh_drop.Prelude.{◌+◌, ◌≡◌, ◌≢◌, refl, none, some, [], ◌∷◌, ◌++◌, length, ltb, if◌then◌else◌}
use iroh_drop.Text.{Bytes}
use iroh_drop.Error.{Result, ok, err, unseal, unsupported_version, message_too_large}
use iroh_drop.Message.{
  MessageV1, MessageBodyV1, SignedMessageV1, provider, available, TopicId, max_body_size,
}
use iroh_drop.Name.{validate_body}
use iroh_drop.Seal.{be_bytes, aead_key, seal_kdf_info, sealed_wire_version}
use iroh_drop.Seal.Sealing.{
  outer_message, encode_sealed_with_nonce, encode_sealed, check_sealed, verify_sealed_outer,
  verify_sealed_for_topic, open_body, open_plaintext, unseal_verified, decode_sealed,
}
use iroh_drop.Seal.RoundTrip.{decode_sealed-encode_sealed, verify_sealed_outer-encode_sealed}
use iroh_drop.Seal.Instance.{kdf, aead, aead-IsAead}
use iroh_drop.Seal.Accepted.{IsUnsealed, decode_sealed-IsUnsealed}
use iroh_drop.Seal.Relaying.{families_are_disjoint, verify_sealed_outer-decode_sealed}
use iroh_drop.Frame.{
  VerifiedMessage, sign_domain, legacy_sign_domain, sealed_sign_domain, signing_input, encode_body,
  new_message, encode, decode_body, decode_kind, verify_input, verify_outer, verify_legacy,
  verify_for_topic, check_verified, decode, diagnose_other_family,
}
use iroh_drop.Frame.Instance.{postcard, postcard-IsPostcard, ed, secret, secret-IsSecret}

abbrev key : Bytes
key = 9 ∷ 8 ∷ []

abbrev topic : TopicId
topic = 7 ∷ []

abbrev body : MessageBodyV1
body = provider (record { blob_hash = 6 ∷ []; state = available; announced_at_ms = none })

unfoldable nonce : Bytes
unfolding be_bytes
nonce = be_bytes 24 3

abbrev bytes_or_none : {E : Type 0} → Result E Bytes → Bytes
bytes_or_none (ok b) = b
bytes_or_none (err e) = []

program : Unit {0}
unfolding nonce postcard ed secret kdf aead seal_kdf_info outer_message encode_sealed_with_nonce
    encode_sealed check_sealed verify_sealed_outer verify_sealed_for_topic open_body open_plaintext
    unseal_verified decode_sealed aead_key be_bytes sign_domain legacy_sign_domain
    sealed_sign_domain signing_input encode_body new_message encode decode_body decode_kind
    verify_input verify_outer verify_legacy verify_for_topic check_verified decode
    diagnose_other_family validate_body
program = tt

unfoldable sealed : Bytes
unfolding program
sealed =
    bytes_or_none
      (encode_sealed postcard ed kdf aead secret key topic nonce (new_message postcard 77 5 body))

unfoldable opened : VerifiedMessage
unfolding program
opened = record {
  author = 5;
  message = record {
    version = sealed_wire_version;
    id = 77;
    sent_at_ms = 5;
    body = encode_body postcard body;
  };
  body = some body;
}

unfoldable plain : Bytes
unfolding program
plain = bytes_or_none (encode postcard ed secret topic (new_message postcard 77 5 body))

-- With another key the body does not open, and a public frame is diagnosed.
other_key_is_refused : decode_sealed postcard ed kdf aead sealed (9 ∷ []) topic ≡ err unseal
unfolding program sealed
other_key_is_refused = refl

public_frame_is_diagnosed :
    decode_sealed postcard ed kdf aead plain key topic ≡ err (unsupported_version 2)
unfolding program plain
public_frame_is_diagnosed = refl

sealed_frame_is_diagnosed :
    decode postcard ed sealed topic ≡ err (unsupported_version sealed_wire_version)
unfolding program sealed
sealed_frame_is_diagnosed = refl

opens : decode_sealed postcard ed kdf aead sealed key topic ≡ ok opened
unfolding program sealed opened
opens = refl

sealed_announcement_comes_back :
    decode_sealed postcard ed kdf aead sealed key topic
    ≡ ok (record {
      author = ed.endpoint_id (ed.public_key secret);
      message = record {
        version = sealed_wire_version;
        id = 77;
        sent_at_ms = 5;
        body = encode_body postcard body;
      };
      body = some body;
    })
unfolding program sealed
sealed_announcement_comes_back =
    decode_sealed-encode_sealed postcard postcard-IsPostcard ed secret secret-IsSecret kdf aead
      aead-IsAead key topic nonce refl 77 5 body refl sealed refl

relay_accepts_the_outside :
    (ciphertext : Bytes) × (verify_sealed_outer postcard ed kdf aead sealed topic ≡ (
      if ltb max_body_size
        (length (postcard.envelopes.write (new_message postcard 77 5 body).body) + 40)
      then err (
          message_too_large
            (length (postcard.envelopes.write (new_message postcard 77 5 body).body) + 40))
      else ok (record {
        author = ed.endpoint_id (ed.public_key secret);
        message = outer_message (new_message postcard 77 5 body) (nonce ++ ciphertext);
        body = none;
      })))
unfolding program sealed
relay_accepts_the_outside =
    verify_sealed_outer-encode_sealed postcard postcard-IsPostcard ed secret secret-IsSecret kdf
      aead aead-IsAead key topic nonce refl (new_message postcard 77 5 body) sealed refl

decode_sealed-IsUnsealed_example :
    (frame : SignedMessageV1) × (outer : MessageV1) × (plaintext : Bytes) × IsUnsealed postcard ed
      kdf aead sealed key topic frame outer plaintext opened
decode_sealed-IsUnsealed_example =
    decode_sealed-IsUnsealed postcard ed kdf aead sealed key topic opened opens

plain_opens :
    decode postcard ed plain topic
    ≡ ok (record { author = 5; message = new_message postcard 77 5 body; body = some body })
unfolding program plain
plain_opens = refl

families_are_disjoint_example :
    (decode_sealed postcard ed kdf aead plain key (8 ∷ []) ≢ ok opened)
    × (verify_sealed_outer postcard ed kdf aead plain (8 ∷ []) ≢ ok opened)
families_are_disjoint_example =
    families_are_disjoint postcard ed kdf aead plain topic (8 ∷ []) key
      (record { author = 5; message = new_message postcard 77 5 body; body = some body }) opened
      plain_opens

verify_sealed_outer-decode_sealed_example :
    (w : VerifiedMessage) × (verify_sealed_outer postcard ed kdf aead sealed topic ≡ (
      if ltb max_body_size (length w.message.body.payload)
      then err (message_too_large (length w.message.body.payload))
      else ok w))
    × (w.author ≡ opened.author)
    × (w.message.id ≡ opened.message.id)
    × (w.body ≡ none)
verify_sealed_outer-decode_sealed_example =
    verify_sealed_outer-decode_sealed postcard ed kdf aead sealed key topic opened opens
