-- ===== src/Session/Broadcast.antt =====
-- The frames that a session sends and reads, in the family that its ticket fixes.
pub mod Heard
mod Tests
use iroh_drop.Prelude.{ℕ, Option, none, some}
use iroh_drop.Text.{Bytes}
use iroh_drop.Map.{nat_key, pair_key}
use iroh_drop.Error.{Result, ok, err, ProtocolError, no_drop_key}
use iroh_drop.Message.{
  MessageV1, MessageBodyV1, offer, provider, request, extension, EndpointId, FrameId, TopicId,
}
use iroh_drop.Seal.{Kdf, DropKey}
use iroh_drop.Seal.Sealing.{Aead, encode_sealed, decode_sealed, verify_sealed_outer}
use iroh_drop.Ticket.{DropMode, public_drop, sealed_drop}
use iroh_drop.Dedup.{check_and_insert}
use iroh_drop.State.{DropState}
use iroh_drop.Frame.{Postcard, Ed25519, VerifiedMessage, new_message, encode, decode}
use iroh_drop.Session.{Clock, Retain, retain_yes, retain_no, retain_unknown, retain}

-- The fields of `SessionInner` that fix the family and the keys.
pub record Membership : Type 0 where
  pub mode : DropMode
  pub drop_key : Option DropKey
  pub secret : Bytes
  pub topic_id : TopicId

-- The `match` of `broadcast`.
unfoldable pub retain_sent : MessageBodyV1 → Retain
retain_sent (offer o) = retain_yes
retain_sent (provider p) = retain_yes
retain_sent (request r) = retain_no
retain_sent (extension e) = retain_unknown

module _ (postcard : Postcard) (ed : Ed25519) (kdf : Kdf) (aead : Aead) where
  -- The `match` on the mode and the key, of `decode_for_session`.
  unfoldable pub decode_in :
      DropMode → Option DropKey → TopicId → Bytes → Result ProtocolError VerifiedMessage
  decode_in sealed_drop (some key) topic content =
      decode_sealed postcard ed kdf aead content key topic
  decode_in sealed_drop none topic content = verify_sealed_outer postcard ed kdf aead content topic
  decode_in public_drop key topic content = decode postcard ed content topic

  unfoldable pub decode_for_session : Membership → Bytes → Result ProtocolError VerifiedMessage
  unfolding decode_in
  decode_for_session m content = decode_in m.mode m.drop_key m.topic_id content

  -- The `match` of `broadcast_signed`.
  unfoldable pub encode_in :
      DropMode → Option DropKey → TopicId → Bytes → Bytes → MessageV1 → Result ProtocolError Bytes
  encode_in sealed_drop (some key) topic secret nonce message =
      encode_sealed postcard ed kdf aead secret key topic nonce message
  encode_in sealed_drop none topic secret nonce message = err no_drop_key
  encode_in public_drop key topic secret nonce message = encode postcard ed secret topic message

  -- The state after the sending, and the frame that goes to the transport.
  unfoldable pub broadcast_signed :
      Membership
      → Clock
      → EndpointId
      → Bytes
      → MessageV1
      → Retain
      → DropState
      → Result ProtocolError (DropState × Bytes)
  unfolding encode_in check_and_insert retain
  broadcast_signed m clock self_id nonce message r s =
      elim (encode_in m.mode m.drop_key m.topic_id m.secret nonce message) [
        | err e ↦ err e
        | ok bytes ↦ ok (
          retain r bytes (record s {
            seen_messages =
                (check_and_insert clock.evicting clock.inserted (self_id, message.id)
                  s.seen_messages).0;
          }),
          bytes,
        )
      ]

  -- With the random id and nonce, and the clock.
  unfoldable pub broadcast :
      Membership
      → Clock
      → EndpointId
      → Bytes
      → FrameId
      → MessageBodyV1
      → DropState
      → Result ProtocolError (DropState × Bytes)
  unfolding broadcast_signed retain_sent new_message
  broadcast m clock self_id nonce id body s =
      broadcast_signed m clock self_id nonce (new_message postcard id clock.unix_ms body)
        (retain_sent body) s
