-- ===== src/Session/Tests.antt =====
-- A session that receives an offer twice, and the theorems there.
use iroh_drop.Prelude.{
  ℕ, ◌+◌, ◌≡◌, refl, true, false, Bool, some, none, List, [], ◌∷◌, arith, length, ℕ_discrete,
  if◌then◌else◌,
}
use iroh_drop.Text.{Bytes, codes, text_key, text_discrete}
use iroh_drop.Map.{nat_key, pair_key, pair_dec, get, put, remove, is_some}
use iroh_drop.Map.Queue.{mem, erase, trim}
use iroh_drop.Error.{Result, ok, err, ProtocolError, invalid_signature}
use iroh_drop.Message.{OfferV1, offer, MessageV1, BlobHash}
use iroh_drop.Policy.{
  DropPolicy, default_policy, policy_decider, check_auto_fetch, check_media_type, saturating_add,
}
use iroh_drop.Limits
use iroh_drop.Limits.{allow_at}
use iroh_drop.Limits.Buckets.{new-IsValid}
use iroh_drop.Dedup
use iroh_drop.Dedup.Validity
use iroh_drop.Dedup.Validity.{unexpired}
use iroh_drop.Provider.{add}
use iroh_drop.State
use iroh_drop.State.{
  note_peer, record_offer_bounded, record_offer_inner, author_has_quota, providers_of, touch_offer,
  first_record, enforce_offer_cap, enforce_loop,
}
use iroh_drop.State.Membership.{no_peers-IsValid, IsValid-IsQueued}
use iroh_drop.State.Bookkeeping.{no_offers-IsValid}
use iroh_drop.SyncLog.{retain_frame, evict_frames}
use iroh_drop.SyncLog.Bounds.{empty-IsValid}
use iroh_drop.Frame.{VerifiedMessage}
use iroh_drop.Session.{
  SessionInner, Clock, received, neighbor_up, emit, spawn_fetch, offer_received, protocol_warning,
  rate_limited_warning, handle_message, handle_offer, context_of, judged, after_record, auto_fetch,
  start_fetch, finish_fetch, dispatch, admit, retain, retainable, handle_transport_event,
  maybe_sync_from_neighbor, join_neighbor,
}
use iroh_drop.Session.Invariant.{
  IsSession, handle_message-IsSession, handle_transport_event-IsSession,
}
use iroh_drop.Session.Fetching.{
  IsBudgeted, IsLimited, Reserves, fetches, handle_offer-Reserves, finish_fetch-handle_offer,
}
use iroh_drop.Session.Messages.{IsUntouched, handle_message_replay, come_up, length-come_up}

program : Unit {0}
unfolding get put remove mem erase trim ℕ_discrete text_discrete default_policy policy_decider
    check_auto_fetch check_media_type saturating_add Limits.new allow_at Dedup.new
    Dedup.check_and_insert add State.new note_peer record_offer_bounded record_offer_inner
    author_has_quota providers_of touch_offer first_record enforce_offer_cap enforce_loop
    retain_frame evict_frames handle_message handle_offer context_of judged after_record auto_fetch
    start_fetch finish_fetch dispatch admit retain retainable handle_transport_event
    maybe_sync_from_neighbor join_neighbor come_up
program = tt

abbrev policy : DropPolicy
policy = record {
  auto_fetch = true;
  max_blob_size = 500;
  max_concurrent_fetches = 3;
  max_total_auto_fetch_bytes = 2000;
  accepted_media_types = none;
  output_directory = codes "out";
  provider_timeout = 0;
}

unfoldable start : SessionInner
start = record {
  decider = policy_decider;
  policy = policy;
  self_id = 1;
  state = State.new (7 ∷ []) 1 policy;
  has_handle = true;
  active_fetches = 0;
  auto_fetch_bytes = 0;
  neighbors = 0;
  synced_from = [];
  request_replies = [];
  message_limiter = Limits.new Limits.messages;
  request_limiter = Limits.new Limits.requests;
  extension_sinks = [];
}

start-IsSession : IsSession 0 start
unfolding start State.new Dedup.new
start-IsSession = record {
  state = record {
    seen = Validity.new-IsValid Dedup.dedup_capacity Dedup.dedup_ttl 0;
    peers = IsValid-IsQueued _ no_peers-IsValid;
    inventory = no_offers-IsValid;
    log = empty-IsValid;
  };
  messages = new-IsValid Limits.messages;
  requests = new-IsValid Limits.requests;
}

abbrev file : OfferV1
file = record {
  blob_hash = 5 ∷ [];
  name = codes "a.txt";
  size = 300;
  media_type = none;
  created_at_ms = none;
  metadata = [];
}

abbrev message : MessageV1
message = record { version = 2; id = 77; sent_at_ms = 0; body = record { kind = 1; payload = [] } }

abbrev clock : Clock
clock = record { limited = 10; evicting = 10; inserted = 10; seen = 10; unix_ms = 0 }

abbrev nothing_stored : BlobHash → Bool
nothing_stored h = false

-- Author 3's offer arrives from peer 2.
unfoldable once : SessionInner
once = (handle_message nothing_stored clock 3 message (some (offer file)) 2 (8 ∷ 8 ∷ []) start).0

fetches_it :
    (handle_message nothing_stored clock 3 message (some (offer file)) 2 (8 ∷ 8 ∷ []) start).1
    ≡ emit (offer_received 3 file) ∷ spawn_fetch (5 ∷ []) 300 ∷ []
unfolding program start
fetches_it = refl

-- The same frame, behind its decoding, after a neighbor has come up.
abbrev decoded : Bytes → Result ProtocolError VerifiedMessage
decoded content = ok (record { author = 3; message = message; body = some (offer file) })

unfoldable joined : SessionInner
joined = (handle_transport_event nothing_stored decoded clock (neighbor_up 2) start).0

joined-IsSession : IsSession 10 joined
unfolding joined
joined-IsSession =
    handle_transport_event-IsSession 0 nothing_stored decoded clock (neighbor_up 2) start
      (omega arith) (omega arith) start-IsSession

handle_transport_event-IsSession_example :
    IsSession 10
      (handle_transport_event nothing_stored decoded clock (received (8 ∷ 8 ∷ []) 2) joined).0
handle_transport_event-IsSession_example =
    handle_transport_event-IsSession 10 nothing_stored decoded clock (received (8 ∷ 8 ∷ []) 2)
      joined (omega arith) (omega arith) joined-IsSession

start-IsLimited : IsLimited start.policy
unfolding start default_policy
start-IsLimited = omega arith

start-IsBudgeted : IsBudgeted start
unfolding start
start-IsBudgeted = omega arith

handle_offer-Reserves_example :
    Reserves
      (start.decider file (context_of 3 file 2 start))
      3
      file
      start
      (handle_offer 10 3 file 2 start)
handle_offer-Reserves_example =
    handle_offer-Reserves 10 3 file 2 start start-IsBudgeted start-IsLimited

it_fetches : fetches (handle_offer 10 3 file 2 start).1 ≡ true
unfolding program start
it_fetches = refl

finish_fetch-handle_offer_example :
    ((finish_fetch file.size false (handle_offer 10 3 file 2 start).0).auto_fetch_bytes
      ≡ start.auto_fetch_bytes)
    × ((finish_fetch file.size false (handle_offer 10 3 file 2 start).0).active_fetches
        ≡ start.active_fetches)
finish_fetch-handle_offer_example =
    finish_fetch-handle_offer 10 3 file 2 start start-IsBudgeted start-IsLimited it_fetches

once-IsSession : IsSession 10 once
unfolding once
once-IsSession =
    handle_message-IsSession 0 nothing_stored clock 3 message (some (offer file)) 2 (8 ∷ 8 ∷ [])
      start (omega arith) (omega arith) start-IsSession

still_seen :
    is_some (
      unexpired 10 once.state.seen_messages.ttl
        (get (3, message.id) once.state.seen_messages.entries))
    ≡ true
unfolding program start once unexpired pair_key pair_dec
still_seen = refl

handle_message_replay_example :
    IsUntouched once
      (handle_message nothing_stored clock 3 message (some (offer file)) 4 (8 ∷ []) once).0
    × ((handle_message nothing_stored clock 3 message (some (offer file)) 4 (8 ∷ []) once).1 ≡ (
        if (allow_at once.message_limiter 4 10).1
        then []
        else emit (protocol_warning (some 4) rate_limited_warning) ∷ []))
handle_message_replay_example =
    handle_message_replay 10 nothing_stored clock 3 message (some (offer file)) 4 (8 ∷ []) once
      once-IsSession.state.seen (omega arith) still_seen

abbrev undecodable : Bytes → Result ProtocolError VerifiedMessage
undecodable b = err invalid_signature

abbrev newcomers : List ℕ
newcomers = 20 ∷ 21 ∷ []

newcomers_are_new : (q : ℕ) → mem q newcomers ≡ true → get q start.state.peers.known_peers ≡ none
unfolding program start
newcomers_are_new q h = refl

length-come_up_example :
    length (come_up nothing_stored undecodable clock newcomers start).state.peers.known_peers
    ≡ length start.state.peers.known_peers + length newcomers
unfolding program
length-come_up_example =
    length-come_up nothing_stored undecodable clock newcomers start (refl, (refl, tt))
      newcomers_are_new
