-- ===== src/Session/Broadcast/Heard.antt =====
-- What one member broadcasts, the others read; and the sender does not mind its echo.
use iroh_drop.Prelude.{
  ℕ, ◌+◌, ◌≤◌, ◌<◌, ◌≡◌, ◌∙◌, refl, sym, ap, subst, Bool, true, false, Option, none, some, List, [],
  ◌∷◌, length, arith, if◌then◌else◌,
}
use iroh_drop.Text.{Bytes}
use iroh_drop.Map.{nat_key, pair_key}
use iroh_drop.Error.{Result, ok, err, ProtocolError}
use iroh_drop.Message.{
  MessageV1, MessageBodyV1, offer, provider, request, extension, BlobHash, EndpointId, FrameId,
  TopicId, max_body_size,
}
use iroh_drop.Name.{validate_body}
use iroh_drop.Seal.{Kdf, DropKey}
use iroh_drop.Seal.Sealing.{Aead}
use iroh_drop.Seal.RoundTrip.{IsAead, decode_sealed-encode_sealed}
use iroh_drop.Ticket.{DropMode, public_drop, sealed_drop}
use iroh_drop.Dedup.{check_and_insert}
use iroh_drop.Dedup.Validity
use iroh_drop.Dedup.Window.{Check, run, InTime, replay_refused}
use iroh_drop.Limits.{allow_at}
use iroh_drop.State.{DropState}
use iroh_drop.SyncLog.{retain_frame, retain_unknown_frame}
use iroh_drop.Frame.{Postcard, Ed25519, VerifiedMessage, encode_body, new_message}
use iroh_drop.Frame.Laws.{IsPostcard, IsSecret}
use iroh_drop.Frame.RoundTrip.{decode-encode}
use iroh_drop.Session.{
  SessionInner, Clock, Retain, retain_yes, retain_no, retain_unknown, retainable, retain, emit,
  protocol_warning, rate_limited_warning, handle_message,
}
use iroh_drop.Session.Messages.{IsUntouched, handle_message_refused}
use iroh_drop.Session.Broadcast.{
  Membership, decode_in, decode_for_session, encode_in, broadcast_signed, retain_sent, broadcast,
}

retain_sent-eq-retainable : (body : MessageBodyV1) → retain_sent body ≡ retainable (some body)
unfolding retain_sent retainable
retain_sent-eq-retainable (offer o) = refl
retain_sent-eq-retainable (provider p) = refl
retain_sent-eq-retainable (request r) = refl
retain_sent-eq-retainable (extension e) = refl

retain-seen_messages :
    (r : Retain) (bytes : Bytes) (s : DropState)
    → (retain r bytes s).seen_messages ≡ s.seen_messages
unfolding retain
retain-seen_messages retain_yes bytes s = refl
retain-seen_messages retain_unknown bytes s = refl
retain-seen_messages retain_no bytes s = refl

retain-log :
    (r : Retain) (bytes : Bytes) (s t : DropState)
    → s.log ≡ t.log
    → (retain r bytes s).log ≡ (retain r bytes t).log
unfolding retain
retain-log retain_yes bytes s t e = ap (retain_frame bytes) e
retain-log retain_unknown bytes s t e = ap (retain_unknown_frame bytes) e
retain-log retain_no bytes s t e = e

module _ (postcard : Postcard) (ed : Ed25519) (kdf : Kdf) (aead : Aead) where
  -- A frame that says the body, under the author and the id.
  pub record Says (body : MessageBodyV1) (author : EndpointId) (id : FrameId) (v : VerifiedMessage)
      : Type 0 where
    pub author_lem : v.author ≡ author
    pub id_lem : v.message.id ≡ id
    pub body_lem : v.body ≡ some body

  -- What a sent frame is, and what the sender keeps of it.
  record IsSent (m : Membership) (clock : Clock) (self_id : EndpointId) (nonce : Bytes)
      (message : MessageV1) (r : Retain) (s s' : DropState) (bytes : Bytes) : Type 0 where
    encoded :
        encode_in postcard ed kdf aead m.mode m.drop_key m.topic_id m.secret nonce message
        ≡ ok bytes
    seen :
        s'.seen_messages
        ≡ (check_and_insert clock.evicting clock.inserted (self_id, message.id) s.seen_messages).0
    log : s'.log ≡ (retain r bytes s).log

  broadcast_signed-IsSent :
      (m : Membership) (clock : Clock) (self_id : EndpointId) (nonce : Bytes) (message : MessageV1)
      (r : Retain) (s s' : DropState) (bytes : Bytes)
      → broadcast_signed postcard ed kdf aead m clock self_id nonce message r s ≡ ok (s', bytes)
      → IsSent m clock self_id nonce message r s s' bytes
  unfolding broadcast_signed
  broadcast_signed-IsSent m clock self_id nonce message r s s' bytes h =
      by_result (encode_in postcard ed kdf aead m.mode m.drop_key m.topic_id m.secret nonce message)
        refl
    where
      by_result :
          (x : Result ProtocolError Bytes)
          → encode_in postcard ed kdf aead m.mode m.drop_key m.topic_id m.secret nonce message ≡ x
          → IsSent m clock self_id nonce message r s s' bytes
      by_result (err e) p = absurd (ground arith)
      by_result (ok b) p =
          let noted : DropState = record s {
            seen_messages =
                (check_and_insert clock.evicting clock.inserted (self_id, message.id)
                  s.seen_messages).0;
          } in
          let sent : retain r b noted ≡ s' = ground arith in
          let same : b ≡ bytes = ground arith in
          record {
            encoded = p ∙ ap ok same;
            seen =
                ap (λ (t : DropState). t.seen_messages) (sym sent) ∙ retain-seen_messages r b noted;
            log =
                ap (λ (t : DropState). t.log) (sym sent)
                ∙ retain-log r b noted s refl
                ∙ ap (λ x. (retain r x s).log) same;
          }

  module _ (laws : IsPostcard postcard) (cipher : IsAead aead) where
    read_back :
        (mode : DropMode) (key : Option DropKey) (topic : TopicId) (secret : Bytes)
        → IsSecret ed secret
        → (nonce : Bytes) → length nonce ≡ 24
        → (id : FrameId) (now : ℕ) (body : MessageBodyV1) → validate_body body ≡ ok tt
        → length (encode_body postcard body).payload ≤ max_body_size
        → (bytes : Bytes)
        → encode_in postcard ed kdf aead mode key topic secret nonce
            (new_message postcard id now body)
          ≡ ok bytes
        → (v : VerifiedMessage) × (decode_in postcard ed kdf aead mode key topic bytes ≡ ok v)
          × Says body (ed.endpoint_id (ed.public_key secret)) id v
    unfolding encode_in decode_in new_message
    read_back public_drop key topic secret h nonce n id now body valid small bytes e = (
      _,
      decode-encode postcard laws ed secret h topic id now body valid small bytes e,
      record { author_lem = refl; id_lem = refl; body_lem = refl },
    )
    read_back sealed_drop (some key) topic secret h nonce n id now body valid small bytes e = (
      _,
      decode_sealed-encode_sealed postcard laws ed secret h kdf aead cipher key topic nonce n id now
          body valid bytes e,
      record { author_lem = refl; id_lem = refl; body_lem = refl },
    )
    read_back sealed_drop none topic secret h nonce n id now body valid small bytes e =
        absurd (ground arith)

    -- What one member broadcasts, if its body passes the validation of a receiver and is encoded in at most
    -- MAX_BODY_SIZE bytes, every session with the same mode, key and topic decodes, to the same body, under the
    -- id of the key that signed it and the id of the message; and the sender retains the frame as a receiver
    -- retains it.
    pub decode_for_session-broadcast :
        (sender receiver : Membership)
        → IsSecret ed sender.secret
        → receiver.mode ≡ sender.mode
        → receiver.drop_key ≡ sender.drop_key
        → receiver.topic_id ≡ sender.topic_id
        → (clock : Clock) (self_id : EndpointId) (nonce : Bytes) → length nonce ≡ 24
        → (id : FrameId) (body : MessageBodyV1) → validate_body body ≡ ok tt
        → length (encode_body postcard body).payload ≤ max_body_size
        → (s s' : DropState) (bytes : Bytes)
        → broadcast postcard ed kdf aead sender clock self_id nonce id body s ≡ ok (s', bytes)
        → (v : VerifiedMessage) × (decode_for_session postcard ed kdf aead receiver bytes ≡ ok v)
          × Says body (ed.endpoint_id (ed.public_key sender.secret)) id v
          × (s'.log ≡ (retain (retainable v.body) bytes s).log)
    unfolding broadcast decode_for_session
    decode_for_session-broadcast sender receiver h em ek et clock self_id nonce n id body valid
          small s s' bytes e =
        let sent =
          broadcast_signed-IsSent sender clock self_id nonce
            (new_message postcard id clock.unix_ms body) (retain_sent body) s s' bytes e in
        let (v, decoded, says) =
          read_back sender.mode sender.drop_key sender.topic_id sender.secret h nonce n id
            clock.unix_ms body valid small bytes sent.encoded in
        (
          v,
          rw (em, ek, et) decoded,
          says,
          sent.log
              ∙ ap (λ r. (retain r bytes s).log)
                  (retain_sent-eq-retainable body ∙ ap retainable (sym says.body_lem)),
        )

  -- The echo of a session's own broadcast is dropped when it comes back within the time to live, after fewer
  -- other messages than the replay cache holds: it changes no offer, provider or retained frame and starts
  -- nothing, whatever its body.
  pub handle_message-broadcast :
      (m : Membership) (clock : Clock) (self_id : EndpointId) (nonce : Bytes) (id : FrameId)
      (body : MessageBodyV1) (t : ℕ) (s s' : DropState) (bytes : Bytes)
      → broadcast postcard ed kdf aead m clock self_id nonce id body s ≡ ok (s', bytes)
      → Validity.IsValid t s.seen_messages
      → t ≤ clock.inserted
      → (check_and_insert clock.evicting clock.inserted (self_id, id) s.seen_messages).1 ≡ true
      → (others : List (Check (EndpointId × FrameId)))
      → InTime clock.inserted (clock.inserted + s.seen_messages.ttl) others
      → length others < s.seen_messages.capacity
      → (is_complete : BlobHash → Bool) (later : Clock) (message : MessageV1)
        (echoed : Option MessageBodyV1) (delivered_from : EndpointId) (raw : Bytes)
        (r : SessionInner)
      → r.state.seen_messages ≡ run others s'.seen_messages
      → message.id ≡ id
      → later.evicting ≤ clock.inserted + s.seen_messages.ttl
      → let handled =
          handle_message is_complete later self_id message echoed delivered_from raw r in
        IsUntouched r handled.0
        × (handled.1 ≡ (
            if (allow_at r.message_limiter delivered_from later.limited).1
            then []
            else emit (protocol_warning (some delivered_from) rate_limited_warning) ∷ []))
  unfolding broadcast new_message
  handle_message-broadcast m clock self_id nonce id body t s s' bytes e valid le fresh others timely
        few is_complete later message echoed delivered_from raw r seen same late =
      let sent =
        broadcast_signed-IsSent m clock self_id nonce (new_message postcard id clock.unix_ms body)
          (retain_sent body) s s' bytes e in
      let refused =
        replay_refused t
          (record { now = clock.evicting; inserted = clock.inserted; key = (self_id, id) })
          s.seen_messages others
          (record { now = later.evicting; inserted = later.inserted; key = (self_id, message.id) })
          valid le fresh timely few (ap (λ i. (self_id, i)) same) late in
      handle_message_refused is_complete later self_id message echoed delivered_from raw r (
        subst
          (λ c. (check_and_insert later.evicting later.inserted (self_id, message.id) c).1 ≡ false)
          (sym (seen ∙ ap (run others) sent.seen)) refused)
