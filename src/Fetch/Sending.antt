-- ===== src/Fetch/Sending.antt =====
-- The sending of a session, as a fetch uses it: `broadcast`, with the answer of the transport.
use iroh_drop.Prelude.{◌≡◌, refl, Option, some}
use iroh_drop.Text.{Bytes}
use iroh_drop.Map.{nat_key, pair_key}
use iroh_drop.Error.{Result, ok, err, ProtocolError}
use iroh_drop.Message.{MessageBodyV1, EndpointId, FrameId}
use iroh_drop.Hash.{HexLower}
use iroh_drop.Seal.{Kdf}
use iroh_drop.Seal.Sealing.{Aead}
use iroh_drop.State.{DropState}
use iroh_drop.Frame.{Postcard, Ed25519, new_message}
use iroh_drop.Session.{Clock, Retain, retain_yes, retain_no, retain_unknown, retain}
use iroh_drop.Session.Broadcast.{Membership, encode_in, broadcast_signed, retain_sent, broadcast}
use iroh_drop.Fetch.Effect.{DropError, protocol}
use iroh_drop.Fetch.{Outside}
use iroh_drop.Fetch.Outcome.{IsSending}

retain-inventory :
    (r : Retain) (bytes : Bytes) (s : DropState) → (retain r bytes s).inventory ≡ s.inventory
unfolding retain
retain-inventory retain_yes bytes s = refl
retain-inventory retain_unknown bytes s = refl
retain-inventory retain_no bytes s = refl

retain-self_endpoint_id :
    (r : Retain) (bytes : Bytes) (s : DropState)
    → (retain r bytes s).self_endpoint_id ≡ s.self_endpoint_id
unfolding retain
retain-self_endpoint_id retain_yes bytes s = refl
retain-self_endpoint_id retain_unknown bytes s = refl
retain-self_endpoint_id retain_no bytes s = refl

-- The transport takes the frame, or fails; the state keeps it either way.
abbrev pub handed_over :
    (Bytes → Option DropError)
    → DropState
    → Result ProtocolError (DropState × Bytes)
    → DropState × Option DropError
handed_over transport s (err e) = (s, some (protocol e))
handed_over transport s (ok (s', bytes)) = (s', transport bytes)

module _ (postcard : Postcard) (ed : Ed25519) (kdf : Kdf) (aead : Aead) (m : Membership)
    (clock : Clock) (self_id : EndpointId) (nonce : DropState → Bytes) (id : DropState → FrameId)
    (transport : Bytes → Option DropError) where
  -- Each message has a nonce and an id of its own.
  unfoldable pub send_with : MessageBodyV1 → DropState → DropState × Option DropError
  unfolding broadcast
  send_with body s =
      handed_over transport s
        (broadcast postcard ed kdf aead m clock self_id (nonce s) (id s) body s)

  -- What sending leaves alone.
  kept-send_with :
      (body : MessageBodyV1) (s : DropState)
      → ((send_with body s).0.inventory ≡ s.inventory)
        × ((send_with body s).0.self_endpoint_id ≡ s.self_endpoint_id)
  unfolding send_with broadcast_signed
  kept-send_with body s =
      by_result
        (encode_in postcard ed kdf aead m.mode m.drop_key m.topic_id m.secret (nonce s)
          (new_message postcard (id s) clock.unix_ms body))
        refl
    where
      by_result :
          (r : Result ProtocolError Bytes)
          → encode_in postcard ed kdf aead m.mode m.drop_key m.topic_id m.secret
              (nonce s)
              (new_message postcard (id s) clock.unix_ms body)
            ≡ r
          → ((send_with body s).0.inventory ≡ s.inventory)
            × ((send_with body s).0.self_endpoint_id ≡ s.self_endpoint_id)
      by_result (err e) p = rw (p, send_with, broadcast_signed) (refl, refl)
      by_result (ok bytes) p =
          rw (p, send_with, broadcast_signed)
            (
              retain-inventory (retain_sent body) bytes _,
              retain-self_endpoint_id (retain_sent body) bytes _,
            )

  -- The broadcast of a session serves as the sending of a fetch.
  pub send_with-IsSending : (hex : HexLower) (outside : Outside) → IsSending hex send_with outside
  send_with-IsSending hex outside = record {
    inventory-send = λ body s. (kept-send_with body s).0;
    self-send = λ body s. (kept-send_with body s).1;
  }
