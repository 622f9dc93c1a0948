-- ===== src/Session/Broadcast/Tests.antt =====
-- A request in a private drop, and its echo.
use iroh_drop.Prelude.{
  ◌≡◌, refl, Bool, true, false, some, [], ◌∷◌, arith, if◌then◌else◌, ℕ_discrete,
}
use iroh_drop.Text.{Bytes}
use iroh_drop.Map.{nat_key, pair_key, pair_dec, get, put, remove}
use iroh_drop.Error.{Result, ok, err}
use iroh_drop.Message.{MessageBodyV1, request, BlobHash, TopicId}
use iroh_drop.Name.{validate_body}
use iroh_drop.Policy.{default_policy, policy_decider}
use iroh_drop.Seal.{be_bytes, aead_key, seal_kdf_info}
use iroh_drop.Seal.Sealing.{outer_message, encode_sealed_with_nonce, encode_sealed}
use iroh_drop.Seal.Instance.{kdf, aead, aead-IsAead}
use iroh_drop.Ticket.{sealed_drop}
use iroh_drop.Dedup
use iroh_drop.Dedup.{DedupCache, check_and_insert}
use iroh_drop.Dedup.Validity
use iroh_drop.Dedup.Window.{run}
use iroh_drop.Limits
use iroh_drop.Limits.{allow_at}
use iroh_drop.State
use iroh_drop.State.{DropState}
use iroh_drop.Frame.{VerifiedMessage, sealed_sign_domain, signing_input, encode_body, new_message}
use iroh_drop.Frame.Instance.{postcard, postcard-IsPostcard, ed, secret, secret-IsSecret}
use iroh_drop.Session.{
  SessionInner, Clock, retain, retainable, emit, protocol_warning, rate_limited_warning,
  handle_message,
}
use iroh_drop.Session.Messages.{IsUntouched}
use iroh_drop.Session.Broadcast.{
  Membership, decode_for_session, encode_in, broadcast_signed, retain_sent, broadcast,
}
use iroh_drop.Session.Broadcast.Heard.{Says, decode_for_session-broadcast, handle_message-broadcast}

abbrev topic : TopicId
topic = 7 ∷ []

unfoldable member : Membership
unfolding secret
member = record {
  mode = sealed_drop;
  drop_key = some (9 ∷ 8 ∷ []);
  secret = secret;
  topic_id = topic;
}

abbrev clock : Clock
clock = record { limited = 100; evicting = 100; inserted = 100; seen = 100; unix_ms = 5 }

abbrev body : MessageBodyV1
body = request (record { blob_hash = 6 ∷ [] })

unfoldable nonce : Bytes
unfolding be_bytes
nonce = be_bytes 24 3

program : Unit {0}
unfolding member nonce postcard ed secret kdf aead seal_kdf_info outer_message
    encode_sealed_with_nonce encode_sealed aead_key be_bytes sealed_sign_domain signing_input
    encode_body new_message encode_in broadcast_signed retain_sent broadcast retain check_and_insert
    State.new Dedup.new Limits.new get put remove ℕ_discrete pair_dec pair_key validate_body
    default_policy policy_decider
program = tt

abbrev state_or :
    {E : Type 0} → DropState × Bytes → Result E (DropState × Bytes) → DropState × Bytes
state_or d (ok r) = r
state_or d (err e) = d

unfoldable before : DropState
unfolding program
before = State.new topic 5 (default_policy 4)

unfoldable sent : DropState × Bytes
unfolding program before
sent = state_or (before, []) (broadcast postcard ed kdf aead member clock 5 nonce 77 body before)

decode_for_session-broadcast_example :
    (v : VerifiedMessage) × (decode_for_session postcard ed kdf aead member sent.1 ≡ ok v)
    × Says postcard ed kdf aead body (ed.endpoint_id (ed.public_key member.secret)) 77 v
    × (sent.0.log ≡ (retain (retainable v.body) sent.1 before).log)
unfolding program before sent
decode_for_session-broadcast_example =
    decode_for_session-broadcast postcard ed kdf aead postcard-IsPostcard aead-IsAead member member
      secret-IsSecret refl refl refl clock 5 nonce refl 77 body refl (omega arith) before sent.0
      sent.1 refl

unfoldable receiver : SessionInner
unfolding program sent
receiver = record {
  decider = policy_decider;
  policy = default_policy 4;
  self_id = 5;
  state = sent.0;
  has_handle = true;
  active_fetches = 0;
  auto_fetch_bytes = 0;
  neighbors = 1;
  synced_from = [];
  request_replies = [];
  message_limiter = Limits.new Limits.messages;
  request_limiter = Limits.new Limits.requests;
  extension_sinks = [];
}

abbrev nothing_stored : BlobHash → Bool
nothing_stored h = false

handle_message-broadcast_example :
    let handled =
      handle_message nothing_stored clock 5
        (new_message postcard 77 5 body)
        (some body)
        8
        sent.1
        receiver in
    IsUntouched receiver handled.0
    × (handled.1 ≡ (
        if (allow_at receiver.message_limiter 8 100).1
        then []
        else emit (protocol_warning (some 8) rate_limited_warning) ∷ []))
unfolding program before sent receiver run
handle_message-broadcast_example =
    handle_message-broadcast postcard ed kdf aead member clock 5 nonce 77 body 0 before sent.0
      sent.1 refl (Validity.new-IsValid 10_000 600_000_000_000 0) (omega arith) refl []
      (omega arith) (omega arith) nothing_stored clock (new_message postcard 77 5 body) (some body)
      8 sent.1 receiver refl refl (omega arith)
