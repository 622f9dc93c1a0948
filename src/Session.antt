-- ===== src/Session.antt =====
-- crates/iroh-drop/src/session.rs: how a session handles what arrives. A handler takes the session and
-- gives it back with what it does to the outside: events, fetches, frames to send. The decoding of a
-- frame, the blob store and the clocks are arguments. A handler's locks are taken one after another and
-- nothing else runs between them here.
pub mod Invariant
pub mod Messages
pub mod Fetching
pub mod Broadcast
pub mod Extension
mod Tests
use iroh_drop.Prelude.{
  ℕ, zero, suc, ◌+◌, ◌-◌, ◌*◌, ◌^◌, ◌%◌, Bool, true, false, not, ◌&&◌, ◌||◌, Option, none, some,
  List, [], ◌∷◌, ◌++◌, length, leb, ltb, ◌==◌, if◌then◌else◌,
}
use iroh_drop.Text.{Text, Bytes, text_key}
use iroh_drop.Map.{Key, nat_key, pair_key, get, put, contains, is_some}
use iroh_drop.Error.{
  Result, ok, err, ProtocolError, PolicyError, NameFault, unsupported_version, message_too_large,
  invalid_signature, invalid_name,
}
use iroh_drop.Message.{
  OfferV1, ProviderV1, RequestV1, ExtensionV1, MessageBodyV1, offer, provider, request, extension,
  MessageV1, ProviderState, available, withdrawing, BlobHash, EndpointId, FrameId,
}
use iroh_drop.Frame.{VerifiedMessage}
use iroh_drop.Policy.{
  DropPolicy, OfferContext, OfferDecision, OfferDecider, accept, record_only, reject,
  check_auto_fetch,
}
use iroh_drop.Limits.{PeerRateLimiter, allow_at, request_reply_interval}
use iroh_drop.Dedup.{check_and_insert}
use iroh_drop.State.{
  DropState, Peers, Inventory, OfferRecord, OfferOutcome, new_offer, known, quota_exceeded,
  LocalBlobStatus, missing, complete, fetching, failed, SetOf, note_peer, record_provider,
  withdraw_provider, record_offer_bounded, record_restored,
}
use iroh_drop.SyncLog.{retain_frame, retain_unknown_frame}
use iroh_drop.Seal.{kind_sealed}

abbrev pub anti_entropy_peers_cap : ℕ
anti_entropy_peers_cap = 512

-- Sixty seconds, in nanoseconds.
abbrev pub anti_entropy_cooldown : ℕ
anti_entropy_cooldown = 60 * 1_000_000_000

-- Texts of errors are the errors.
pub data RejectReason : Type 0 where
  malformed_frame : ProtocolError → RejectReason
  over_quota bad_signature : RejectReason
  old_version : ℕ → RejectReason
  bad_name : NameFault → RejectReason
  refused_by_application : Text → RejectReason
  refused_by_policy : PolicyError → RejectReason

pub data Warning : Type 0 where
  unsupported_version_warning oversized unknown_kind inventory_evicted : ℕ → Warning
  malformed_warning : ProtocolError → Warning
  invalid_signature_warning lagged_warning rate_limited_warning : Warning

pub data DropEvent : Type 0 where
  peer_joined peer_left : EndpointId → DropEvent
  offer_received : EndpointId → OfferV1 → DropEvent
  offer_rejected : EndpointId → RejectReason → DropEvent
  provider_available provider_unavailable : BlobHash → EndpointId → DropEvent
  protocol_warning : Option EndpointId → Warning → DropEvent

pub data Effect : Type 0 where
  emit : DropEvent → Effect
  spawn_fetch : BlobHash → ℕ → Effect
  spawn_sync : EndpointId → Effect
  send_public : MessageBodyV1 → Effect
  deliver : EndpointId → FrameId → ExtensionV1 → Effect

-- The fields of `SessionInner` that the handlers use. `has_handle` is whether a handle of the user exists.
pub record SessionInner : Type 0 where
  pub decider : OfferDecider
  pub policy : DropPolicy
  pub self_id : EndpointId
  pub state : DropState
  pub has_handle : Bool
  pub active_fetches : ℕ
  pub auto_fetch_bytes : ℕ
  pub neighbors : ℕ
  pub synced_from : List (EndpointId × ℕ)
  pub request_replies : List (BlobHash × ℕ)
  pub message_limiter : PeerRateLimiter
  pub request_limiter : PeerRateLimiter
  pub extension_sinks : SetOf Bytes

-- The clock readings of one handler, in nanoseconds, and the wall clock in milliseconds.
pub record Clock : Type 0 where
  pub limited : ℕ
  pub evicting : ℕ
  pub inserted : ℕ
  pub seen : ℕ
  pub unix_ms : ℕ

abbrev pub Handled : Type 0
Handled = SessionInner × List Effect

pub data Retain : Type 0 where
  retain_yes retain_no retain_unknown : Retain

-- Which frames belong to the retained history.
unfoldable pub retainable : Option MessageBodyV1 → Retain
retainable none = retain_unknown
retainable (some (offer o)) = retain_yes
retainable (some (provider p)) = retain_yes
retainable (some (request r)) = retain_no
retainable (some (extension e)) = retain_unknown

unfoldable pub retain : Retain → Bytes → DropState → DropState
unfolding retain_frame retain_unknown_frame
retain retain_yes raw s = record s { log = retain_frame raw s.log }
retain retain_unknown raw s = record s { log = retain_unknown_frame raw s.log }
retain retain_no raw s = s

abbrev pub is_ok : Result PolicyError (Unit {0}) → Bool
is_ok (ok t) = true
is_ok (err e) = false

abbrev pub is_accept : OfferDecision → Bool
is_accept accept = true
is_accept _ = false

-- Complete, or being fetched.
abbrev pub is_underway : Option OfferRecord → Bool
is_underway none = false
is_underway (some r) = elim r.local_status [
  | missing ↦ false
  | complete ↦ true
  | fetching n total ↦ true
  | failed fatal reason ↦ false
]

abbrev pub u64 : ℕ → ℕ
u64 n = n % 2 ^ 64

-- The end of `handle_offer`, after the check of the policy: the fetch with its reservation.
unfoldable pub start_fetch : OfferDecision → OfferV1 → SessionInner → Handled
start_fetch decision o s = if not (is_accept decision) || not s.has_handle then (s, []) else (
  record s {
    auto_fetch_bytes = u64 (s.auto_fetch_bytes + o.size);
    active_fetches = u64 (s.active_fetches + 1);
  },
  spawn_fetch o.blob_hash o.size ∷ [],
)

-- The automatic fetch of a newly recorded offer.
unfoldable pub auto_fetch : OfferDecision → EndpointId → OfferV1 → SessionInner → Handled
unfolding start_fetch check_auto_fetch
auto_fetch decision author o s =
    if not s.policy.auto_fetch || author == s.self_id
    then (s, [])
    else if is_underway (get o.blob_hash s.state.inventory.offers)
    then (s, [])
    else (elim (check_auto_fetch s.policy o s.active_fetches s.auto_fetch_bytes) [
      | err e ↦ (s, emit (offer_rejected author (refused_by_policy e)) ∷ [])
      | ok t ↦ start_fetch decision o s
    ])

abbrev pub evicted_warning : List BlobHash → List Effect
evicted_warning [] = []
evicted_warning (h ∷ hs) = emit (protocol_warning none (inventory_evicted (length (h ∷ hs)))) ∷ []

-- What follows the recording of an offer.
unfoldable pub after_record :
    OfferOutcome → OfferDecision → EndpointId → OfferV1 → SessionInner → Handled
unfolding auto_fetch
after_record quota_exceeded decision author o s = (s, emit (offer_rejected author over_quota) ∷ [])
after_record known decision author o s = (s, [])
after_record (new_offer evicted) decision author o s =
    let fetched = auto_fetch decision author o s in
    (fetched.0, evicted_warning evicted ++ emit (offer_received author o) ∷ fetched.1)

-- An offer that the application has judged.
unfoldable pub judged : OfferDecision → ℕ → EndpointId → OfferV1 → SessionInner → Handled
unfolding after_record record_offer_bounded
judged (reject reason) now author o s =
    (s, emit (offer_rejected author (refused_by_application reason)) ∷ [])
judged accept now author o s =
    let recorded = record_offer_bounded now author o s.state in
    after_record recorded.1 accept author o (record s { state = recorded.0 })
judged record_only now author o s =
    let recorded = record_offer_bounded now author o s.state in
    after_record recorded.1 record_only author o (record s { state = recorded.0 })

unfoldable pub context_of : EndpointId → OfferV1 → EndpointId → SessionInner → OfferContext
unfolding check_auto_fetch
context_of author o delivered_from s = record {
  author = author;
  delivered_from = delivered_from;
  is_new = not (contains o.blob_hash s.state.inventory.offers);
  policy_allows_auto_fetch =
      s.policy.auto_fetch
      && not (author == s.self_id)
      && is_ok (check_auto_fetch s.policy o s.active_fetches s.auto_fetch_bytes);
}

unfoldable pub handle_offer : ℕ → EndpointId → OfferV1 → EndpointId → SessionInner → Handled
unfolding judged context_of
handle_offer now author o delivered_from s =
    judged (s.decider o (context_of author o delivered_from s)) now author o s

-- The end of the task that a fetch runs in.
unfoldable pub finish_fetch : ℕ → Bool → SessionInner → SessionInner
finish_fetch size succeeded s = record s {
  auto_fetch_bytes =
      if succeeded then s.auto_fetch_bytes else u64 (s.auto_fetch_bytes + 2 ^ 64 - size);
  active_fetches = u64 (s.active_fetches + 2 ^ 64 - 1);
}

abbrev pub or_zero : Option ℕ → ℕ
or_zero none = 0
or_zero (some n) = n

abbrev pub is_within : ℕ → ℕ → Option ℕ → Bool
is_within now interval none = false
is_within now interval (some last) = ltb (now - last) interval

unfoldable pub handle_provider : EndpointId → FrameId → ProviderV1 → SessionInner → Handled
unfolding record_provider withdraw_provider
handle_provider author id p s = elim p.state [
  | available ↦
      let (inv, applied) =
        record_provider p.blob_hash author (or_zero p.announced_at_ms) id s.state.inventory in
      (
        record s { state = record s.state { inventory = inv } },
        if applied then emit (provider_available p.blob_hash author) ∷ [] else [],
      )
  | withdrawing ↦
      let (inv, applied) =
        withdraw_provider p.blob_hash author (or_zero p.announced_at_ms) id s.state.inventory in
      (
        record s { state = record s.state { inventory = inv } },
        if applied then emit (provider_unavailable p.blob_hash author) ∷ [] else [],
      )
]

-- `is_complete` is the blob store.
unfoldable pub handle_request :
    (BlobHash → Bool) → Clock → BlobHash → EndpointId → SessionInner → Handled
unfolding allow_at
handle_request is_complete clock hash asker s =
    let charged = allow_at s.request_limiter asker clock.limited in
    let s' = record s { request_limiter = charged.0 } in
    if not charged.1
    then (s', emit (protocol_warning (some asker) rate_limited_warning) ∷ [])
    else if not (is_complete hash)
    then (s', [])
    else if is_within clock.seen request_reply_interval (get hash s.request_replies)
    then (s', [])
    else (
      record s' { request_replies = put hash clock.seen s.request_replies },
      send_public (
            provider (record {
              blob_hash = hash;
              state = available;
              announced_at_ms = some clock.unix_ms;
            }))
          ∷ [],
    )

-- The `match body` of `handle_message`.
unfoldable pub dispatch :
    (BlobHash → Bool)
    → Clock
    → EndpointId
    → MessageV1
    → Option MessageBodyV1
    → EndpointId
    → SessionInner
    → Handled
unfolding handle_offer handle_provider handle_request
dispatch is_complete clock author message none delivered_from s = (
  s,
  if message.body.kind == kind_sealed
      then []
      else emit (protocol_warning (some delivered_from) (unknown_kind message.body.kind)) ∷ [],
)
dispatch is_complete clock author message (some (offer o)) delivered_from s =
    handle_offer clock.seen author o delivered_from s
dispatch is_complete clock author message (some (provider p)) delivered_from s =
    handle_provider author message.id p s
dispatch is_complete clock author message (some (request r)) delivered_from s =
    handle_request is_complete clock r.blob_hash delivered_from s
dispatch is_complete clock author message (some (extension e)) delivered_from s =
    (s, if contains e.namespace s.extension_sinks then deliver author message.id e ∷ [] else [])

-- The state after the delivering peer is noted and the message is looked up, and whether it is new.
unfoldable pub admit : Clock → EndpointId → FrameId → EndpointId → DropState → DropState × Bool
unfolding note_peer check_and_insert
admit clock author id delivered_from s =
    let (seen, fresh) =
      check_and_insert clock.evicting clock.inserted (author, id) s.seen_messages in
    (record s { peers = note_peer delivered_from s.peers; seen_messages = seen }, fresh)

unfoldable pub handle_message :
    (BlobHash → Bool)
    → Clock
    → EndpointId
    → MessageV1
    → Option MessageBodyV1
    → EndpointId
    → Bytes
    → SessionInner
    → Handled
unfolding allow_at admit retain retainable dispatch
handle_message is_complete clock author message body delivered_from raw s =
    let charged = allow_at s.message_limiter delivered_from clock.limited in
    let admitted = admit clock author message.id delivered_from s.state in
    if not charged.1
    then (
      record s { message_limiter = charged.0 },
      emit (protocol_warning (some delivered_from) rate_limited_warning) ∷ [],
    )
    else if not admitted.1
    then (record s { message_limiter = charged.0; state = admitted.0 }, [])
    else dispatch is_complete clock author message body delivered_from
        (record s { message_limiter = charged.0; state = retain (retainable body) raw admitted.0 })

-- `maybe_sync_from_neighbor`: the table is cleared when it is full.
unfoldable pub maybe_sync_from_neighbor : ℕ → EndpointId → SessionInner → Handled
maybe_sync_from_neighbor now peer s =
    let recent = if leb anti_entropy_peers_cap (length s.synced_from) then [] else s.synced_from in
    if is_within now anti_entropy_cooldown (get peer recent)
    then (record s { synced_from = recent }, [])
    else (record s { synced_from = put peer now recent }, spawn_sync peer ∷ [])

pub data TransportEvent : Type 0 where
  neighbor_up neighbor_down : EndpointId → TransportEvent
  received : Bytes → EndpointId → TransportEvent
  lagged : TransportEvent

unfoldable pub reject_reason : ProtocolError → RejectReason
reject_reason (unsupported_version v) = old_version v
reject_reason invalid_signature = bad_signature
reject_reason (invalid_name fault) = bad_name fault
reject_reason e = malformed_frame e

unfoldable pub warning_of : ProtocolError → Warning
warning_of (unsupported_version v) = unsupported_version_warning v
warning_of invalid_signature = invalid_signature_warning
warning_of (message_too_large size) = oversized size
warning_of e = malformed_warning e

-- The bookkeeping of a neighbor that comes up.
unfoldable pub join_neighbor : EndpointId → SessionInner → SessionInner
join_neighbor peer s = record s {
  state = record s.state {
    peers = record s.state.peers { known_peers = put peer tt s.state.peers.known_peers };
  };
  neighbors = u64 (s.neighbors + 1);
}

-- `decode` is `decode_for_session`.
unfoldable pub handle_transport_event :
    (BlobHash → Bool)
    → (Bytes → Result ProtocolError VerifiedMessage)
    → Clock
    → TransportEvent
    → SessionInner
    → Handled
unfolding join_neighbor maybe_sync_from_neighbor handle_message reject_reason warning_of
handle_transport_event is_complete decode clock (neighbor_up peer) s =
    let synced = maybe_sync_from_neighbor clock.seen peer (join_neighbor peer s) in
    (synced.0, emit (peer_joined peer) ∷ synced.1)
handle_transport_event is_complete decode clock (neighbor_down peer) s =
    (record s { neighbors = s.neighbors - 1 }, emit (peer_left peer) ∷ [])
handle_transport_event is_complete decode clock (received content delivered_from) s =
    elim (decode content) [
      | ok v ↦ handle_message is_complete clock v.author v.message v.body delivered_from content s
      | err e ↦ (
        s,
        emit (offer_rejected delivered_from (reject_reason e))
            ∷ emit (protocol_warning (some delivered_from) (warning_of e))
            ∷ [],
      )
    ]
handle_transport_event is_complete decode clock lagged s =
    (s, emit (protocol_warning none lagged_warning) ∷ [])

-- One frame of `restore_history`, and whether it applied. `decode_body` is `message.body.decode`.
unfoldable pub restore_frame :
    (Bytes → Result ProtocolError VerifiedMessage) → Clock → Bytes → DropState → DropState × Bool
unfolding check_and_insert retain_frame record_restored record_provider withdraw_provider
restore_frame decode clock frame s = elim (decode frame) [
  | err e ↦ (s, false)
  | ok v ↦
      let (seen, fresh) =
        check_and_insert clock.evicting clock.inserted (v.author, v.message.id) s.seen_messages in
      let s' = record s { seen_messages = seen } in
      let kept = record s' { log = retain_frame frame s.log } in
      if not fresh then (s', false) else (elim v.body [
        | none ↦ (s', false)
        | some body ↦ elim body [
          | offer o ↦ ((record_restored clock.seen v.author o kept).0, true)
          | provider p ↦ elim p.state [
            | available ↦ (
              record kept {
                inventory =
                    (record_provider p.blob_hash v.author (or_zero p.announced_at_ms) v.message.id
                      s.inventory).0;
              },
              true,
            )
            | withdrawing ↦ (
              record kept {
                inventory =
                    (withdraw_provider p.blob_hash v.author (or_zero p.announced_at_ms) v.message.id
                      s.inventory).0;
              },
              true,
            )
          ]
          | request r ↦ (s', false)
          | extension e ↦ (s', false)
        ]
      ])
]

unfoldable pub restore_history :
    (Bytes → Result ProtocolError VerifiedMessage)
    → List (Clock × Bytes)
    → DropState
    → DropState × ℕ
unfolding restore_frame
restore_history decode [] s = (s, 0)
restore_history decode ((clock, frame) ∷ frames) s =
    let step = restore_frame decode clock frame s in
    let rest = restore_history decode frames step.0 in (rest.0, (if step.1 then 1 else 0) + rest.1)
