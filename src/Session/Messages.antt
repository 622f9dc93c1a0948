-- ===== src/Session/Messages.antt =====
-- Replays, floods and newcomers.
use iroh_drop.Prelude.{
  ℕ, ◌+◌, ◌≤◌, ◌≡◌, refl, ap, inl, inr, Bool, true, false, not, Option, none, some, List, [], ◌∷◌,
  arith, length, if◌then◌else◌, Bool-cases, ◌∙◌,
}
use iroh_drop.Map.{nat_key, pair_key, get, put, is_some, length-put, get-put}
use iroh_drop.Map.Queue.{mem, Nodup}
use iroh_drop.Error.{Result, ProtocolError}
use iroh_drop.Text.{Bytes}
use iroh_drop.Message.{MessageV1, MessageBodyV1, BlobHash, EndpointId}
use iroh_drop.Dedup.{check_and_insert}
use iroh_drop.Dedup.Validity
use iroh_drop.Dedup.Validity.{unexpired, check_and_insert_answer}
use iroh_drop.Limits.{allow_at}
use iroh_drop.State.{DropState}
use iroh_drop.Frame.{VerifiedMessage}
use iroh_drop.Session.{
  SessionInner, Clock, emit, protocol_warning, rate_limited_warning, admit, handle_message,
  neighbor_up, handle_transport_event, join_neighbor, maybe_sync_from_neighbor,
}

-- The session but for its limiter, its known peers and its replay cache.
pub record IsUntouched (s s' : SessionInner) : Type 0 where
  pub inventory : s'.state.inventory ≡ s.state.inventory
  pub log : s'.state.log ≡ s.state.log
  pub bytes : s'.auto_fetch_bytes ≡ s.auto_fetch_bytes
  pub fetches : s'.active_fetches ≡ s.active_fetches
  pub replies : s'.request_replies ≡ s.request_replies

-- A message whose id the replay cache refuses.
pub handle_message_refused :
    (is_complete : BlobHash → Bool) (clock : Clock) (author : EndpointId) (message : MessageV1)
    (body : Option MessageBodyV1) (delivered_from : EndpointId) (raw : Bytes) (s : SessionInner)
    → (check_and_insert clock.evicting clock.inserted (author, message.id) s.state.seen_messages).1
      ≡ false
    → let r = handle_message is_complete clock author message body delivered_from raw s in
      IsUntouched s r.0
      × (r.1 ≡ (
          if (allow_at s.message_limiter delivered_from clock.limited).1
          then []
          else emit (protocol_warning (some delivered_from) rate_limited_warning) ∷ []))
unfolding handle_message admit
handle_message_refused is_complete clock author message body delivered_from raw s replay =
    elim (Bool-cases (allow_at s.message_limiter delivered_from clock.limited).1) [
      | inr limited ↦
          rw (limited, handle_message)
            (
              record { inventory = refl; log = refl; bytes = refl; fetches = refl; replies = refl },
              refl,
            )
      | inl allowed ↦
          rw (allowed, replay, handle_message, admit)
            (
              record { inventory = refl; log = refl; bytes = refl; fetches = refl; replies = refl },
              refl,
            )
    ]

-- A message that the replay cache still holds changes no offer, provider or retained frame, starts
-- nothing, and at most warns that its deliverer is too fast.
pub handle_message_replay :
    (t : ℕ) (is_complete : BlobHash → Bool) (clock : Clock) (author : EndpointId)
    (message : MessageV1) (body : Option MessageBodyV1) (delivered_from : EndpointId) (raw : Bytes)
    (s : SessionInner)
    → Validity.IsValid t s.state.seen_messages
    → t ≤ clock.inserted
    → is_some (
        unexpired clock.evicting s.state.seen_messages.ttl
          (get (author, message.id) s.state.seen_messages.entries))
      ≡ true
    → let r = handle_message is_complete clock author message body delivered_from raw s in
      IsUntouched s r.0
      × (r.1 ≡ (
          if (allow_at s.message_limiter delivered_from clock.limited).1
          then []
          else emit (protocol_warning (some delivered_from) rate_limited_warning) ∷ []))
handle_message_replay t is_complete clock author message body delivered_from raw s v h known =
    handle_message_refused is_complete clock author message body delivered_from raw s (
      check_and_insert_answer t clock.evicting clock.inserted (author, message.id)
        s.state.seen_messages v h
      ∙ ap not known)

-- The peers that come up, one after another.
unfoldable pub come_up :
    (BlobHash → Bool)
    → (Bytes → Result ProtocolError VerifiedMessage)
    → Clock
    → List EndpointId
    → SessionInner
    → SessionInner
come_up is_complete decode clock [] s = s
come_up is_complete decode clock (peer ∷ peers) s =
    come_up is_complete decode clock peers
      (handle_transport_event is_complete decode clock (neighbor_up peer) s).0

state-maybe_sync_from_neighbor :
    (now : ℕ) (peer : EndpointId) (s : SessionInner)
    → (maybe_sync_from_neighbor now peer s).0.state ≡ s.state
unfolding maybe_sync_from_neighbor
state-maybe_sync_from_neighbor now peer s = ground arith

known_peers-neighbor_up :
    (is_complete : BlobHash → Bool) (decode : Bytes → Result ProtocolError VerifiedMessage)
    (clock : Clock) (peer : EndpointId) (s : SessionInner)
    → (handle_transport_event is_complete decode clock
        (neighbor_up peer)
        s).0.state.peers.known_peers
      ≡ put peer tt s.state.peers.known_peers
unfolding handle_transport_event join_neighbor
known_peers-neighbor_up is_complete decode clock peer s =
    ap (λ (t : DropState). t.peers.known_peers)
      (state-maybe_sync_from_neighbor clock.seen peer (join_neighbor peer s))

-- Each new neighbor stays among the known peers: nothing bounds their number here.
pub length-come_up :
    (is_complete : BlobHash → Bool) (decode : Bytes → Result ProtocolError VerifiedMessage)
    (clock : Clock) (peers : List EndpointId) (s : SessionInner)
    → Nodup peers
    → ((q : EndpointId) → mem q peers ≡ true → get q s.state.peers.known_peers ≡ none)
    → length (come_up is_complete decode clock peers s).state.peers.known_peers
      ≡ length s.state.peers.known_peers + length peers
unfolding come_up mem
length-come_up is_complete decode clock [] s n new = omega arith
length-come_up is_complete decode clock (peer ∷ peers) s n new =
    let s' = (handle_transport_event is_complete decode clock (neighbor_up peer) s).0 in
    let up = known_peers-neighbor_up is_complete decode clock peer s in
    let fresh : get peer s.state.peers.known_peers ≡ none = new peer (ground arith) in
    let longer : length s'.state.peers.known_peers ≡ length s.state.peers.known_peers + 1 =
      ap length up ∙ length-put peer tt s.state.peers.known_peers fresh in
    let others : (q : EndpointId) → mem q peers ≡ true → get q s'.state.peers.known_peers ≡ none =
      λ q h.
        ap (get q) up ∙ ground (arith, get-put peer q tt s.state.peers.known_peers, new q, n.0) in
    omega (arith, length-come_up is_complete decode clock peers s' n.1 others, longer)
