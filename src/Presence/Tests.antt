-- ===== src/Presence/Tests.antt =====
-- A member says that it is online, in a private drop, and hears itself.
use iroh_drop.Prelude.{
  ℕ, zero, suc, ◌+◌, ◌-◌, ◌≡◌, ◌∙◌, refl, ap, true, some, [], ◌∷◌, length, arith, ℕ_discrete,
}
use iroh_drop.Text.{Text, Bytes, codes, len_utf8, byte_len}
use iroh_drop.Error.{Result, ok, err, malformed, presence_status}
use iroh_drop.Message.{TopicId}
use iroh_drop.Map.{nat_key, pair_key, pair_dec, get, put, remove}
use iroh_drop.Name.{validate_body}
use iroh_drop.Policy.{default_policy, policy_decider}
use iroh_drop.Seal.{be_bytes, aead_key, seal_kdf_info}
use iroh_drop.Seal.Sealing.{outer_message, encode_sealed_with_nonce, encode_sealed}
use iroh_drop.Seal.Instance.{kdf, aead, aead-IsAead}
use iroh_drop.Ticket.{sealed_drop}
use iroh_drop.Dedup
use iroh_drop.Dedup.{check_and_insert}
use iroh_drop.Limits
use iroh_drop.SyncLog.{retain_frame, retain_unknown_frame, evict_frames, retained_frames}
use iroh_drop.State
use iroh_drop.State.{DropState}
use iroh_drop.Frame.{sealed_sign_domain, signing_input, encode_body, new_message}
use iroh_drop.Frame.Instance.{postcard, postcard-IsPostcard, ed, secret, secret-IsSecret}
use iroh_drop.Session.{SessionInner, Clock, retain}
use iroh_drop.Session.Broadcast.{Membership, encode_in, broadcast_signed, retain_sent, broadcast}
use iroh_drop.Session.Extension.{send_extension, replay}
use iroh_drop.Presence.{Utf8, announce, subscribe, presences}
use iroh_drop.Presence.Heard.{IsUtf8, subscribe-announce}

-- A character and zeros, as many bytes as in UTF-8.
abbrev padded : ℕ → Bytes → Bytes
padded zero rest = rest
padded (suc k) rest = 0 ∷ padded k rest

abbrev toy_bytes : Text → Bytes
toy_bytes [] = []
toy_bytes (c ∷ s) = c ∷ padded (len_utf8 c - 1) (toy_bytes s)

abbrev toy_text : ℕ → Bytes → Text
toy_text skip [] = []
toy_text (suc k) (b ∷ bs) = toy_text k bs
toy_text zero (c ∷ bs) = c ∷ toy_text (len_utf8 c - 1) bs

unfoldable utf8 : Utf8
utf8 = record { as_bytes = toy_bytes; from_utf8 = λ b. some (toy_text 0 b) }

toy_text-padded : (k : ℕ) (rest : Bytes) → toy_text k (padded k rest) ≡ toy_text 0 rest
toy_text-padded zero rest = refl
toy_text-padded (suc k) rest = toy_text-padded k rest

length-padded : (k : ℕ) (rest : Bytes) → length (padded k rest) ≡ k + length rest
length-padded zero rest = omega arith
length-padded (suc k) rest = omega (arith, length-padded k rest)

len_utf8_pos : (c : ℕ) → len_utf8 c ≡ suc (len_utf8 c - 1)
len_utf8_pos c = ground arith

toy_text-toy_bytes : (s : Text) → toy_text 0 (toy_bytes s) ≡ s
toy_text-toy_bytes [] = refl
toy_text-toy_bytes (c ∷ s) =
    ap (λ t. c ∷ t) (toy_text-padded (len_utf8 c - 1) (toy_bytes s) ∙ toy_text-toy_bytes s)

length-toy_bytes : (s : Text) → length (toy_bytes s) ≡ byte_len s
length-toy_bytes [] = refl
length-toy_bytes (c ∷ s) =
    omega (arith, length-padded (len_utf8 c - 1) (toy_bytes s), length-toy_bytes s, len_utf8_pos c)

utf8-IsUtf8 : IsUtf8 utf8
unfolding utf8
utf8-IsUtf8 = record {
  from_utf8-as_bytes = λ s. ap some (toy_text-toy_bytes s);
  length-as_bytes = length-toy_bytes;
}

abbrev topic : TopicId
topic = 7 ∷ []

unfoldable member : Membership
unfolding secret
member = record {
  mode = sealed_drop;
  drop_key = some (9 ∷ 8 ∷ []);
  secret = secret;
  topic_id = topic;
}

abbrev clock : Clock
clock = record { limited = 100; evicting = 100; inserted = 100; seen = 100; unix_ms = 5 }

abbrev online : Text
online = codes "online"

unfoldable nonce : Bytes
unfolding be_bytes
nonce = be_bytes 24 3

program : Unit {0}
unfolding utf8 member nonce postcard ed secret kdf aead seal_kdf_info outer_message
    encode_sealed_with_nonce encode_sealed aead_key be_bytes sealed_sign_domain signing_input
    encode_body new_message encode_in broadcast_signed retain_sent broadcast retain check_and_insert
    retain_frame retain_unknown_frame evict_frames retained_frames State.new Dedup.new Limits.new
    get put remove ℕ_discrete pair_dec pair_key validate_body default_policy policy_decider
    send_extension announce
program = tt

abbrev state_or :
    {E : Type 0} → DropState × Bytes → Result E (DropState × Bytes) → DropState × Bytes
state_or d (ok r) = r
state_or d (err e) = d

unfoldable before : DropState
unfolding program
before = State.new topic 5 (default_policy 4)

unfoldable sent : DropState × Bytes
unfolding program before
sent =
    state_or (before, []) (announce utf8 postcard ed kdf aead member clock 5 nonce 77 online before)

unfoldable session : SessionInner
unfolding program sent
session = record {
  decider = policy_decider;
  policy = default_policy 4;
  self_id = 5;
  state = sent.0;
  has_handle = true;
  active_fetches = 0;
  auto_fetch_bytes = 0;
  neighbors = 1;
  synced_from = [];
  request_replies = [];
  message_limiter = Limits.new Limits.messages;
  request_limiter = Limits.new Limits.requests;
  extension_sinks = [];
}

silence_is_refused :
    announce utf8 postcard ed kdf aead member clock 5 nonce 77 [] before
    ≡ err (malformed (presence_status 0))
unfolding program before
silence_is_refused = refl

subscribe-announce_example :
    presences utf8 (subscribe utf8 postcard ed kdf aead member session).1
    ≡ record { author = ed.endpoint_id (ed.public_key member.secret); status = online } ∷ []
unfolding program before sent session presences replay
subscribe-announce_example =
    subscribe-announce utf8 utf8-IsUtf8 postcard ed kdf aead postcard-IsPostcard aead-IsAead member
      member secret-IsSecret refl refl refl clock 5 nonce refl 77 online (omega arith) before sent.0
      sent.1 refl session [] [] refl
