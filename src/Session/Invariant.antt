-- ===== src/Session/Invariant.antt =====
-- What every event of the transport keeps: the invariant of a session.
use iroh_drop.Prelude.{
  ℕ, ◌≤◌, ◌≡◌, refl, inl, inr, Bool, Option, none, some, List, [], arith, length, Bool-cases, subst,
  sym,
}
use iroh_drop.Text.{Bytes, text_key}
use iroh_drop.Map.{nat_key, pair_key, get, get-put}
use iroh_drop.Error.{Result, ok, err, ProtocolError}
use iroh_drop.Frame.{VerifiedMessage}
use iroh_drop.Message.{
  OfferV1, ProviderV1, MessageBodyV1, offer, provider, request, extension, MessageV1, BlobHash,
  EndpointId, FrameId, ProviderState, available, withdrawing,
}
use iroh_drop.Policy.{OfferDecision, accept, record_only, reject}
use iroh_drop.Limits.{allow_at, request_reply_interval}
use iroh_drop.Limits.Buckets
use iroh_drop.Limits.Buckets.{allow_at-IsValid}
use iroh_drop.Dedup.Validity
use iroh_drop.Dedup.Validity.{check_and_insert-IsValid, IsValid-later}
use iroh_drop.Provider.{ProviderSet}
use iroh_drop.State.{
  DropState, OfferOutcome, new_offer, known, quota_exceeded, record_provider, withdraw_provider,
  record_offer_bounded,
}
use iroh_drop.State.Membership
use iroh_drop.State.Membership.{IsQueued, note_peer-IsQueued}
use iroh_drop.State.Bookkeeping
use iroh_drop.State.Recorded.{with_providers-IsValid}
use iroh_drop.State.Recording.{record_offer_inner-IsValid}
use iroh_drop.SyncLog.{sync_log_max_bytes}
use iroh_drop.SyncLog.Bounds
use iroh_drop.SyncLog.Bounds.{retain_frame-IsValid, retain_unknown_frame-IsValid}
use iroh_drop.Session.{
  SessionInner, Clock, Retain, retain_yes, retain_no, retain_unknown, retainable, retain,
  start_fetch, auto_fetch, after_record, judged, context_of, handle_offer, handle_provider,
  handle_request, dispatch, admit, handle_message, is_within, TransportEvent, received, neighbor_up,
  neighbor_down, lagged, join_neighbor, maybe_sync_from_neighbor, handle_transport_event,
}

-- The state, at a time that no entry of the replay cache is later than.
pub record IsState (t : ℕ) (s : DropState) : Type 0 where
  pub seen : Validity.IsValid t s.seen_messages
  pub peers : Membership.IsQueued s.peers
  pub inventory : Bookkeeping.IsValid s.inventory
  pub log : Bounds.IsValid s.log

pub record IsSession (t : ℕ) (s : SessionInner) : Type 0 where
  pub state : IsState t s.state
  pub messages : Buckets.IsValid s.message_limiter
  pub requests : Buckets.IsValid s.request_limiter

retain-IsState :
    (t : ℕ) (r : Retain) (raw : Bytes) (s : DropState)
    → length raw ≤ sync_log_max_bytes
    → IsState t s
    → IsState t (retain r raw s)
unfolding retain
retain-IsState t retain_yes raw s h v = record {
  seen = v.seen;
  peers = v.peers;
  inventory = v.inventory;
  log = retain_frame-IsValid raw s.log h v.log;
}
retain-IsState t retain_unknown raw s h v = record {
  seen = v.seen;
  peers = v.peers;
  inventory = v.inventory;
  log = retain_unknown_frame-IsValid raw s.log v.log;
}
retain-IsState t retain_no raw s h v = v

-- What a handler of an offer leaves alone, once it is recorded.
record Keeps (s s' : SessionInner) : Type 0 where
  state : s'.state ≡ s.state
  messages : s'.message_limiter ≡ s.message_limiter
  requests : s'.request_limiter ≡ s.request_limiter

auto_fetch-Keeps :
    (d : OfferDecision) (author : EndpointId) (o : OfferV1) (s : SessionInner)
    → Keeps s (auto_fetch d author o s).0
unfolding auto_fetch start_fetch
auto_fetch-Keeps d author o s = record {
  state = ground arith;
  messages = ground arith;
  requests = ground arith;
}

after_record-Keeps :
    (r : OfferOutcome) (d : OfferDecision) (author : EndpointId) (o : OfferV1) (s : SessionInner)
    → Keeps s (after_record r d author o s).0
unfolding after_record
after_record-Keeps quota_exceeded d author o s = record {
  state = refl;
  messages = refl;
  requests = refl;
}
after_record-Keeps known d author o s = record { state = refl; messages = refl; requests = refl }
after_record-Keeps (new_offer evicted) d author o s = auto_fetch-Keeps d author o s

Keeps-IsSession : (t : ℕ) (s s' : SessionInner) → Keeps s s' → IsSession t s → IsSession t s'
Keeps-IsSession t s s' k v = record {
  state = subst (IsState t) (sym k.state) v.state;
  messages = subst Buckets.IsValid (sym k.messages) v.messages;
  requests = subst Buckets.IsValid (sym k.requests) v.requests;
}

record_offer_bounded-IsState :
    (t now : ℕ) (from : EndpointId) (o : OfferV1) (s : DropState)
    → IsState t s
    → IsState t (record_offer_bounded now from o s).0
unfolding record_offer_bounded
record_offer_bounded-IsState t now from o s v = record {
  seen = v.seen;
  peers = note_peer-IsQueued from s.peers v.peers;
  inventory = record_offer_inner-IsValid now from o s.inventory v.inventory;
  log = v.log;
}

recorded-IsSession :
    (t now : ℕ) (author : EndpointId) (o : OfferV1) (d : OfferDecision) (s : SessionInner)
    → IsSession t s
    → let recorded = record_offer_bounded now author o s.state in
      IsSession t (after_record recorded.1 d author o (record s { state = recorded.0 })).0
recorded-IsSession t now author o d s v =
    let recorded = record_offer_bounded now author o s.state in
    let s' = record s { state = recorded.0 } in
    Keeps-IsSession t s' (after_record recorded.1 d author o s').0
      (after_record-Keeps recorded.1 d author o s')
      (record {
        state = record_offer_bounded-IsState t now author o s.state v.state;
        messages = v.messages;
        requests = v.requests;
      })

judged-IsSession :
    (t now : ℕ) (author : EndpointId) (o : OfferV1) (d : OfferDecision) (s : SessionInner)
    → IsSession t s
    → IsSession t (judged d now author o s).0
unfolding judged
judged-IsSession t now author o (reject reason) s v = v
judged-IsSession t now author o accept s v = recorded-IsSession t now author o accept s v
judged-IsSession t now author o record_only s v = recorded-IsSession t now author o record_only s v

providers_changed-IsSession :
    (t : ℕ) (s : SessionInner) (m : List (BlobHash × ProviderSet))
    → IsSession t s
    → IsSession t (record s {
      state = record s.state { inventory = record s.state.inventory { providers = m } };
    })
providers_changed-IsSession t s m v = record {
  state = record {
    seen = v.state.seen;
    peers = v.state.peers;
    inventory = with_providers-IsValid s.state.inventory m v.state.inventory;
    log = v.state.log;
  };
  messages = v.messages;
  requests = v.requests;
}

handle_provider-IsSession :
    (t : ℕ) (author : EndpointId) (id : FrameId) (p : ProviderV1) (s : SessionInner)
    → IsSession t s
    → IsSession t (handle_provider author id p s).0
unfolding handle_provider record_provider withdraw_provider
handle_provider-IsSession t author id p s v = by_state p.state refl
  where
    by_state : (c : ProviderState) → p.state ≡ c → IsSession t (handle_provider author id p s).0
    by_state available e = rw (e, handle_provider) (providers_changed-IsSession t s _ v)
    by_state withdrawing e = rw (e, handle_provider) (providers_changed-IsSession t s _ v)

handle_request-IsSession :
    (t : ℕ) (is_complete : BlobHash → Bool) (clock : Clock) (hash : BlobHash) (asker : EndpointId)
    (s : SessionInner)
    → IsSession t s
    → IsSession t (handle_request is_complete clock hash asker s).0
unfolding handle_request
handle_request-IsSession t is_complete clock hash asker s v =
    let charged = allow_at s.request_limiter asker clock.limited in
    let requests' = allow_at-IsValid s.request_limiter asker clock.limited v.requests in
    let v' : IsSession t (record s { request_limiter = charged.0 }) = record {
      state = v.state;
      messages = v.messages;
      requests = requests';
    } in
    elim (Bool-cases charged.1) [
      | inr limited ↦ rw (limited, handle_request) v'
      | inl allowed ↦ elim (Bool-cases (is_complete hash)) [
        | inr absent ↦ rw (allowed, absent, handle_request) v'
        | inl there ↦
            elim (Bool-cases
              (is_within clock.seen request_reply_interval (get hash s.request_replies))) [
                | inl recent ↦ rw (allowed, there, recent, handle_request) v'
                | inr due ↦
                    rw (allowed, there, due, handle_request)
                      (record { state = v.state; messages = v.messages; requests = requests' })
              ]
      ]
    ]

dispatch-IsSession :
    (t : ℕ) (is_complete : BlobHash → Bool) (clock : Clock) (author : EndpointId)
    (message : MessageV1) (body : Option MessageBodyV1) (delivered_from : EndpointId)
    (s : SessionInner)
    → IsSession t s
    → IsSession t (dispatch is_complete clock author message body delivered_from s).0
unfolding dispatch handle_offer
dispatch-IsSession t is_complete clock author message none delivered_from s v = v
dispatch-IsSession t is_complete clock author message (some (offer o)) delivered_from s v =
    judged-IsSession t clock.seen author o (s.decider o (context_of author o delivered_from s)) s v
dispatch-IsSession t is_complete clock author message (some (provider p)) delivered_from s v =
    handle_provider-IsSession t author message.id p s v
dispatch-IsSession t is_complete clock author message (some (request r)) delivered_from s v =
    handle_request-IsSession t is_complete clock r.blob_hash delivered_from s v
dispatch-IsSession t is_complete clock author message (some (extension e)) delivered_from s v = v

admit-IsState :
    (t : ℕ) (clock : Clock) (author : EndpointId) (id : FrameId) (delivered_from : EndpointId)
    (s : DropState)
    → t ≤ clock.inserted
    → IsState t s
    → IsState clock.inserted (admit clock author id delivered_from s).0
unfolding admit
admit-IsState t clock author id delivered_from s h v = record {
  seen =
      check_and_insert-IsValid t clock.evicting clock.inserted (author, id) s.seen_messages v.seen
        h;
  peers = note_peer-IsQueued delivered_from s.peers v.peers;
  inventory = v.inventory;
  log = v.log;
}

-- Whatever message arrives, handling it keeps the invariant.
pub handle_message-IsSession :
    (t : ℕ) (is_complete : BlobHash → Bool) (clock : Clock) (author : EndpointId)
    (message : MessageV1) (body : Option MessageBodyV1) (delivered_from : EndpointId) (raw : Bytes)
    (s : SessionInner)
    → t ≤ clock.inserted
    → length raw ≤ sync_log_max_bytes
    → IsSession t s
    → IsSession clock.inserted
        (handle_message is_complete clock author message body delivered_from raw s).0
unfolding handle_message
handle_message-IsSession t is_complete clock author message body delivered_from raw s h fits v =
    let charged = allow_at s.message_limiter delivered_from clock.limited in
    let messages' = allow_at-IsValid s.message_limiter delivered_from clock.limited v.messages in
    let admitted = admit clock author message.id delivered_from s.state in
    let state' = admit-IsState t clock author message.id delivered_from s.state h v.state in
    elim (Bool-cases charged.1) [
      | inr limited ↦
          rw (limited, handle_message)
            (record {
              state = record {
                seen = IsValid-later t clock.inserted s.state.seen_messages h v.state.seen;
                peers = v.state.peers;
                inventory = v.state.inventory;
                log = v.state.log;
              };
              messages = messages';
              requests = v.requests;
            })
      | inl allowed ↦ elim (Bool-cases admitted.1) [
        | inr replay ↦
            rw (allowed, replay, handle_message)
              (record { state = state'; messages = messages'; requests = v.requests })
        | inl fresh ↦
            rw (allowed, fresh, handle_message)
              (dispatch-IsSession clock.inserted is_complete clock author message body
                delivered_from
                (record s {
                  message_limiter = charged.0;
                  state = retain (retainable body) raw admitted.0;
                })
                (record {
                  state =
                      retain-IsState clock.inserted (retainable body) raw admitted.0 fits state';
                  messages = messages';
                  requests = v.requests;
                }))
      ]
    ]

later-IsSession : (t later : ℕ) (s : SessionInner) → t ≤ later → IsSession t s → IsSession later s
later-IsSession t later s h v = record {
  state = record {
    seen = IsValid-later t later s.state.seen_messages h v.state.seen;
    peers = v.state.peers;
    inventory = v.state.inventory;
    log = v.state.log;
  };
  messages = v.messages;
  requests = v.requests;
}

join_neighbor-IsSession :
    (t : ℕ) (peer : EndpointId) (s : SessionInner)
    → IsSession t s
    → IsSession t (join_neighbor peer s)
unfolding join_neighbor
join_neighbor-IsSession t peer s v = record {
  state = record {
    seen = v.state.seen;
    peers = record {
      nodup = v.state.peers.nodup;
      known =
          λ q h. ground (arith, get-put peer q tt s.state.peers.known_peers, v.state.peers.known q);
      bounded = v.state.peers.bounded;
    };
    inventory = v.state.inventory;
    log = v.state.log;
  };
  messages = v.messages;
  requests = v.requests;
}

maybe_sync_from_neighbor-Keeps :
    (now : ℕ) (peer : EndpointId) (s : SessionInner)
    → Keeps s (maybe_sync_from_neighbor now peer s).0
unfolding maybe_sync_from_neighbor
maybe_sync_from_neighbor-Keeps now peer s = record {
  state = ground arith;
  messages = ground arith;
  requests = ground arith;
}

-- The bytes that an event brings.
abbrev pub content_of : TransportEvent → Bytes
content_of (received content from) = content
content_of (neighbor_up peer) = []
content_of (neighbor_down peer) = []
content_of lagged = []

-- Whatever the transport reports (a frame that decodes or does not, a neighbor that comes up or goes, a lag),
-- handling it keeps the invariant of the session: the replay cache, the queue of noted peers, the offers
-- with their quotas, the retained log and both rate limiters. A frame must fit the byte budget of the
-- log, and the clock must not run backwards.
pub handle_transport_event-IsSession :
    (t : ℕ) (is_complete : BlobHash → Bool) (decode : Bytes → Result ProtocolError VerifiedMessage)
    (clock : Clock) (event : TransportEvent) (s : SessionInner)
    → t ≤ clock.inserted
    → length (content_of event) ≤ sync_log_max_bytes
    → IsSession t s
    → IsSession clock.inserted (handle_transport_event is_complete decode clock event s).0
unfolding handle_transport_event
handle_transport_event-IsSession t is_complete decode clock (neighbor_up peer) s h fits v =
    let joined = join_neighbor peer s in
    Keeps-IsSession clock.inserted joined (maybe_sync_from_neighbor clock.seen peer joined).0
      (maybe_sync_from_neighbor-Keeps clock.seen peer joined)
      (join_neighbor-IsSession clock.inserted peer s (later-IsSession t clock.inserted s h v))
handle_transport_event-IsSession t is_complete decode clock (neighbor_down peer) s h fits v =
    let w = later-IsSession t clock.inserted s h v in
    record { state = w.state; messages = w.messages; requests = w.requests }
handle_transport_event-IsSession t is_complete decode clock (received content from) s h fits v =
    by_result (decode content) refl
  where
    by_result :
        (r : Result ProtocolError VerifiedMessage)
        → decode content ≡ r
        → IsSession clock.inserted
            (handle_transport_event is_complete decode clock (received content from) s).0
    by_result (ok m) e =
        rw (e, handle_transport_event)
          (handle_message-IsSession t is_complete clock m.author m.message m.body from content s h
            fits v)
    by_result (err x) e = rw (e, handle_transport_event) (later-IsSession t clock.inserted s h v)
handle_transport_event-IsSession t is_complete decode clock lagged s h fits v =
    later-IsSession t clock.inserted s h v
