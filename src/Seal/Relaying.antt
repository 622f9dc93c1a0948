-- ===== src/Seal/Relaying.antt =====
-- The two wire families exclude each other, and a relay agrees with the members of a private drop.
use iroh_drop.Prelude.{
  ◌≡◌, ◌≢◌, ◌∙◌, refl, sym, ap, none, some, arith, length, ltb, ltb-false, Bool-cases, Option-cases,
  inl, inr, if◌then◌else◌,
}
use iroh_drop.Text.{Bytes}
use iroh_drop.Error.{Result, ok, err, ProtocolError, message_too_large}
use iroh_drop.Message.{
  SignedMessageV1, MessageV1, TopicId, wire_version, max_message_size, max_body_size,
}
use iroh_drop.Seal.{Kdf, DropKey, sealed_wire_version, kind_sealed}
use iroh_drop.Seal.Sealing.{Aead, check_sealed, verify_sealed_outer, decode_sealed}
use iroh_drop.Seal.Accepted.{
  decode_sealed-IsUnsealed, decode_sealed-IsDecoded, unseal_verified-IsSealedFor,
  open_plaintext-IsOpened, verify_outer-IsVerified,
}
use iroh_drop.Frame.{
  Postcard, Ed25519, VerifiedMessage, sealed_sign_domain, verify_input, verify_outer, decode,
}
use iroh_drop.Frame.Accepted.{decode-IsAccepted}

module _ (postcard : Postcard) (ed : Ed25519) (kdf : Kdf) (aead : Aead) where
  -- A frame that a relay accepts holds a message of the sealed version.
  record IsRelayed (bytes : Bytes) (frame : SignedMessageV1) (w : VerifiedMessage) : Type 0 where
    read : postcard.frames.read bytes ≡ some frame
    message : postcard.messages.read frame.payload ≡ some w.message
    version : w.message.version ≡ sealed_wire_version

  check_sealed-ok :
      (v w : VerifiedMessage)
      → check_sealed postcard ed kdf aead v ≡ ok w
      → (v ≡ w) × (w.message.version ≡ sealed_wire_version)
  unfolding check_sealed
  check_sealed-ok v w h = ground arith

  verify_sealed_outer-IsRelayed :
      (bytes : Bytes) (topic : TopicId) (w : VerifiedMessage)
      → verify_sealed_outer postcard ed kdf aead bytes topic ≡ ok w
      → (frame : SignedMessageV1) × IsRelayed bytes frame w
  unfolding verify_sealed_outer
  verify_sealed_outer-IsRelayed bytes topic w h =
      elim (Bool-cases (ltb max_message_size (length bytes))) [
        | inl large ↦ absurd (ground arith)
        | inr small ↦ elim (Option-cases (postcard.frames.read bytes)) [
          | inl garbled ↦ absurd (ground arith)
          | inr (frame, read) ↦
              by_result frame read (verify_outer postcard ed frame sealed_sign_domain topic) refl
        ]
      ]
    where
      by_result :
          (frame : SignedMessageV1)
          → postcard.frames.read bytes ≡ some frame
          → (r : Result ProtocolError VerifiedMessage)
          → verify_outer postcard ed frame sealed_sign_domain topic ≡ r
          → (frame : SignedMessageV1) × IsRelayed bytes frame w
      by_result frame read (err f) e = absurd (ground arith)
      by_result frame read (ok v) e =
          let (same, version) = check_sealed-ok v w (ground arith) in
          (
            frame,
            record {
              read = read;
              message =
                  (verify_outer-IsVerified postcard ed kdf aead frame topic v e).message
                  ∙ ap (λ (u : VerifiedMessage). some u.message) same;
              version = version;
            },
          )

  -- The bytes of a message have one version.
  versions_differ :
      (bytes : Bytes) (f g : SignedMessageV1) (m n : MessageV1)
      → postcard.frames.read bytes ≡ some f
      → postcard.messages.read f.payload ≡ some m
      → m.version ≡ wire_version
      → postcard.frames.read bytes ≡ some g
      → postcard.messages.read g.payload ≡ some n
      → n.version ≡ sealed_wire_version
      → ⊥
  versions_differ bytes f g m n rf rm vm rg rn vn =
      let same : f ≡ g = cc in
      let equal : m ≡ n = cc in omega (arith, ap (λ (k : MessageV1). k.version) equal)

  -- A frame that a public drop accepts is refused by the members and by the blind relays of every private
  -- drop, with any key and in any topic.
  pub families_are_disjoint :
      (bytes : Bytes) (topic other : TopicId) (key : DropKey) (v w : VerifiedMessage)
      → decode postcard ed bytes topic ≡ ok v
      → (decode_sealed postcard ed kdf aead bytes key other ≢ ok w)
        × (verify_sealed_outer postcard ed kdf aead bytes other ≢ ok w)
  families_are_disjoint bytes topic other key v w h =
      let (frame, a) = decode-IsAccepted postcard ed bytes topic v h in
      (
        λ e.
            let (f, outer, plaintext, u) =
              decode_sealed-IsUnsealed postcard ed kdf aead bytes key other w e in
            versions_differ bytes frame f v.message outer a.read a.message a.version u.read
              u.message u.version,
        λ e.
            let (f, r) = verify_sealed_outer-IsRelayed bytes other w e in
            versions_differ bytes frame f v.message w.message a.read a.message a.version r.read
              r.message r.version,
      )

  verify_outer-body :
      (frame : SignedMessageV1) (topic : TopicId) (w : VerifiedMessage)
      → verify_outer postcard ed frame sealed_sign_domain topic ≡ ok w
      → w.body ≡ none
  unfolding verify_outer verify_input
  verify_outer-body frame topic w h = ground arith

  -- A blind relay agrees with a member on every frame that the member accepts: it reports the same author
  -- and id and no body, unless the sealed body is over the limit, which the member does not check.
  pub verify_sealed_outer-decode_sealed :
      (bytes : Bytes) (key : DropKey) (topic : TopicId) (v : VerifiedMessage)
      → decode_sealed postcard ed kdf aead bytes key topic ≡ ok v
      → (w : VerifiedMessage) × (verify_sealed_outer postcard ed kdf aead bytes topic ≡ (
          if ltb max_body_size (length w.message.body.payload)
          then err (message_too_large (length w.message.body.payload))
          else ok w))
        × (w.author ≡ v.author)
        × (w.message.id ≡ v.message.id)
        × (w.body ≡ none)
  unfolding verify_sealed_outer check_sealed
  verify_sealed_outer-decode_sealed bytes key topic v h =
      let (frame, w, d) = decode_sealed-IsDecoded postcard ed kdf aead bytes key topic v h in
      let (plaintext, s) =
        unseal_verified-IsSealedFor postcard ed kdf aead key topic w v d.unsealed in
      let o =
        open_plaintext-IsOpened postcard ed kdf aead w.author w.message plaintext v s.opened in
      (
        w,
        rw (ltb-false max_message_size (length bytes) d.small, d.read, d.verified)
            (checked w s.version s.kind),
        sym o.author_lem,
        sym o.id,
        verify_outer-body frame topic w d.verified,
      )
    where
      checked :
          (w : VerifiedMessage)
          → w.message.version ≡ sealed_wire_version
          → w.message.body.kind ≡ kind_sealed
          → check_sealed postcard ed kdf aead w ≡ (
              if ltb max_body_size (length w.message.body.payload)
              then err (message_too_large (length w.message.body.payload))
              else ok w)
      checked w version kind = ground arith
