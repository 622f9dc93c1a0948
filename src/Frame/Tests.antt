-- ===== src/Frame/Tests.antt =====
-- A request for a blob in a frame, with toy formats that read this frame only.
use iroh_drop.Prelude.{ℕ, zero, suc, ◌≡◌, refl, true, some, none, [], ◌∷◌, arith}
use iroh_drop.Text.{Bytes, text_eq}
use iroh_drop.Error.{ok, err, invalid_signature}
use iroh_drop.Message.{
  SignedMessageV1, MessageV1, MessageBodyV1, request, provider, withdrawing, TopicId,
}
use iroh_drop.Name.{validate_body}
use iroh_drop.Seal.{be_bytes}
use iroh_drop.Frame.{
  Postcard, Ed25519, VerifiedMessage, sign_domain, legacy_sign_domain, sealed_sign_domain,
  signing_input, encode, encode_body, new_message, decode, decode_body, decode_kind,
  verify_for_topic, verify_outer, verify_legacy, verify_input, diagnose_other_family,
  check_verified,
}
use iroh_drop.Frame.Instance
use iroh_drop.Frame.RoundTrip.{decode-encode}
use iroh_drop.Frame.Accepted.{IsAccepted, decode-IsAccepted}

abbrev message : MessageV1
message = record {
  version = 2;
  id = 77;
  sent_at_ms = 0;
  body = record { kind = 3; payload = 6 ∷ [] };
}

abbrev topic : TopicId
topic = 7 ∷ []

unfoldable zeros : ℕ → Bytes
zeros zero = []
zeros (suc n) = 0 ∷ zeros n

unfoldable frame : SignedMessageV1
unfolding zeros
frame = record { author = 3 ∷ []; signature = zeros 64; payload = 5 ∷ [] }

unfoldable postcard : Postcard
unfolding frame
postcard = record {
  frames = record { write = λ f. 4 ∷ []; read = λ b. some frame };
  messages = record { write = λ m. 5 ∷ []; read = λ b. some message };
  envelopes = record { write = λ e. []; read = λ b. none };
  offers = record { write = λ o. []; read = λ b. none };
  providers = record { write = λ p. []; read = λ b. none };
  requests = record { write = λ r. 6 ∷ []; read = λ b. some (record { blob_hash = b }) };
  extensions = record { write = λ e. []; read = λ b. none };
}

-- Every signature over this topic in the public family verifies, and nothing else.
unfoldable ed : Ed25519
unfolding signing_input sign_domain
ed = record {
  public_key = λ s. s;
  is_key = λ k. true;
  endpoint_id = λ k. 3;
  sign = λ s m. [];
  verify = λ k m s. text_eq m (signing_input sign_domain topic (5 ∷ []));
}

program : Unit {0}
unfolding frame postcard ed signing_input sign_domain legacy_sign_domain sealed_sign_domain decode
    decode_body decode_kind verify_for_topic verify_outer verify_legacy verify_input
    diagnose_other_family check_verified validate_body
program = tt

abbrev verified : VerifiedMessage
verified = record {
  author = 3;
  message = message;
  body = some (request (record { blob_hash = 6 ∷ [] }));
}

accepts : decode postcard ed (4 ∷ []) topic ≡ ok verified
unfolding program
accepts = refl

-- The same frame in another drop is refused.
other_topic_is_refused : decode postcard ed (4 ∷ []) (8 ∷ []) ≡ err invalid_signature
unfolding program
other_topic_is_refused = refl

decode-IsAccepted_example : (f : SignedMessageV1) × IsAccepted postcard ed (4 ∷ []) topic f verified
decode-IsAccepted_example = decode-IsAccepted postcard ed (4 ∷ []) topic verified accepts

-- An announcement that makes the round trip.
abbrev announcement : MessageBodyV1
announcement =
    provider (record { blob_hash = 6 ∷ 9 ∷ []; state = withdrawing; announced_at_ms = some 100 })

unfoldable sent : Bytes
unfolding encode new_message encode_body signing_input sign_domain be_bytes Instance.postcard
    Instance.ed Instance.secret
sent =
    elim (encode Instance.postcard Instance.ed Instance.secret topic
      (new_message Instance.postcard 77 5 announcement)) [ ok b ↦ b | err e ↦ [] ]

announcement_comes_back :
    decode Instance.postcard Instance.ed sent topic
    ≡ ok (record {
      author = Instance.ed.endpoint_id (Instance.ed.public_key Instance.secret);
      message = new_message Instance.postcard 77 5 announcement;
      body = some announcement;
    })
unfolding sent encode_body validate_body
announcement_comes_back =
    decode-encode Instance.postcard Instance.postcard-IsPostcard Instance.ed Instance.secret
      Instance.secret-IsSecret topic 77 5 announcement refl (omega arith) sent refl
