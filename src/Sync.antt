-- ===== src/Sync.antt =====
-- crates/iroh-drop/src/sync.rs: the control channel, on which a peer serves its retained frames, and
-- the catch-up that pulls them. Connections are parameters: what a peer answers, and when.
pub mod Serving
pub mod Budgets
pub mod Complete
mod Instance
mod Tests
use iroh_drop.Prelude.{
  ℕ, zero, suc, ◌+◌, ◌-◌, ◌*◌, Bool, true, false, not, ◌&&◌, ◌||◌, Option, none, some, List, [],
  ◌∷◌, ◌++◌, length, take, ltb, ◌==◌, min, max, if◌then◌else◌,
}
use iroh_drop.Text.{Bytes, any}
use iroh_drop.Message.{EndpointId, TopicId, wire_version, kind_offer, kind_provider, kind_request}
use iroh_drop.Seal.{kind_sealed, sealed_wire_version, Kdf, DropKey, sync_proof, verify_sync_proof}
use iroh_drop.Ticket.{DropMode, public_drop, sealed_drop}
use iroh_drop.Limits.{PeerRateLimiter, allow_at}
use iroh_drop.SyncLog.{SyncLog, sync_frames}

abbrev pub max_response_bytes : ℕ
max_response_bytes = 512 * 1024

abbrev pub max_frames_per_page : ℕ
max_frames_per_page = 256

abbrev pub max_total_frames : ℕ
max_total_frames = 8192

abbrev pub max_pages_per_attempt : ℕ
max_pages_per_attempt = 128

abbrev pub max_total_bytes_per_attempt : ℕ
max_total_bytes_per_attempt = 64 * 1024 * 1024

abbrev pub op_hello : ℕ
op_hello = 1

abbrev pub op_sync_page : ℕ
op_sync_page = 2

pub record ControlRequestV1 : Type 0 where
  pub version : ℕ
  pub op : ℕ
  pub payload : Bytes

pub record ControlResponseV1 : Type 0 where
  pub version : ℕ
  pub op : ℕ
  pub payload : Bytes

pub record HelloV1 : Type 0 where
  pub wire_versions : List ℕ
  pub ops : List ℕ
  pub message_kinds : List ℕ
  pub max_frames_per_page : ℕ

pub record SyncRequestV1 : Type 0 where
  pub version : ℕ
  pub topic_id : TopicId
  pub cursor : ℕ
  pub max_frames : ℕ
  pub key_proof : Option Bytes

pub record SyncRequestV1Legacy : Type 0 where
  pub version : ℕ
  pub topic_id : TopicId
  pub cursor : ℕ
  pub max_frames : ℕ

pub record SyncResponseV1 : Type 0 where
  pub version : ℕ
  pub next_cursor : Option ℕ
  pub frames : List Bytes
  pub oldest_cursor : ℕ
  pub truncated : Bool

-- `postcard` at the types of the channel: what it reads and writes, also the bytes that a proof is made over.
pub record Codec : Type 0 where
  pub take_control : Bytes → Option ControlRequestV1
  pub take_request : Bytes → Option SyncRequestV1
  pub take_legacy : Bytes → Option SyncRequestV1Legacy
  pub encode_request : SyncRequestV1 → Bytes
  pub take_response : Bytes → Option ControlResponseV1
  pub take_page : Bytes → Option SyncResponseV1
  pub encode_response : ControlResponseV1 → Bytes
  pub encode_page : SyncResponseV1 → Bytes

unfoldable pub upgrade : SyncRequestV1Legacy → SyncRequestV1
upgrade r = record {
  version = r.version;
  topic_id = r.topic_id;
  cursor = r.cursor;
  max_frames = r.max_frames;
  key_proof = none;
}

-- What `sync_page` reads of the session of a topic.
pub record Session : Type 0 where
  pub mode : DropMode
  pub drop_key : Option DropKey
  pub self_id : EndpointId
  pub log : SyncLog

abbrev pub is_sealed : DropMode → Bool
is_sealed public_drop = false
is_sealed sealed_drop = true

-- How many frames fit the byte budget: the `for` loop over the page.
unfoldable pub kept_frames : ℕ → List Bytes → ℕ
kept_frames budget [] = 0
kept_frames budget (frame ∷ frames) =
    let rest = kept_frames (budget - length frame) frames in
    if ltb budget (length frame) then 0 else suc rest

abbrev pub clamp : ℕ → ℕ → ℕ → ℕ
clamp n low high = min (max n low) high

-- The page of a session that serves the request.
unfoldable pub page_of : SyncRequestV1 → SyncLog → SyncResponseV1
unfolding kept_frames sync_frames
page_of request log =
    let page = sync_frames request.cursor (clamp request.max_frames 1 max_frames_per_page) log in
    let kept = kept_frames max_response_bytes page.frames in
    let dropped = length page.frames - kept in
    record {
      version = wire_version;
      next_cursor =
          if page.caught_up && dropped == 0 then none else some (page.end_cursor - dropped);
      frames = take kept page.frames;
      oldest_cursor = page.oldest_cursor;
      truncated = not (request.cursor == 0) && ltb request.cursor page.oldest_cursor;
    }

-- A refusal; without a session the page is the same.
abbrev pub empty_page : SyncResponseV1
empty_page = record {
  version = wire_version;
  next_cursor = none;
  frames = [];
  oldest_cursor = 0;
  truncated = false;
}

pub data Reply : Type 0 where
  hello : HelloV1 → Reply
  page : SyncResponseV1 → Reply
  unsupported : Reply

abbrev pub our_hello : HelloV1
our_hello = record {
  wire_versions = wire_version ∷ sealed_wire_version ∷ [];
  ops = op_hello ∷ op_sync_page ∷ [];
  message_kinds = kind_offer ∷ kind_provider ∷ kind_request ∷ kind_sealed ∷ [];
  max_frames_per_page = max_frames_per_page;
}

module _ (kdf : Kdf) (codec : Codec) where
  -- The test of `sync_page` on a sealed drop.
  unfoldable pub proves : Session → SyncRequestV1 → EndpointId → Bool
  unfolding verify_sync_proof
  proves s request peer = elim s.drop_key [
    | none ↦ false
    | some key ↦ elim request.key_proof [
      | none ↦ false
      | some proof ↦
          verify_sync_proof kdf key request.topic_id peer s.self_id
            (codec.encode_request (record request { key_proof = none })) proof
    ]
  ]

  -- `sessions` is the registry, without the sessions that have ended.
  unfoldable pub sync_page :
      (TopicId → Option Session) → SyncRequestV1 → EndpointId → SyncResponseV1
  unfolding proves page_of
  sync_page sessions request peer = elim (sessions request.topic_id) [
    | none ↦ empty_page
    | some s ↦
        if is_sealed s.mode && not (proves s request peer)
        then empty_page
        else page_of request s.log
  ]

  unfoldable pub decode_sync_request : Bytes → Option SyncRequestV1
  unfolding upgrade
  decode_sync_request bytes = elim (codec.take_request bytes) [
    | some request ↦ some request
    | none ↦ elim (codec.take_legacy bytes) [ none ↦ none | some legacy ↦ some (upgrade legacy) ]
  ]

  -- `none` where the stream ends without an answer.
  unfoldable pub serve_op : (TopicId → Option Session) → Bytes → EndpointId → Option Reply
  unfolding sync_page decode_sync_request
  serve_op sessions request peer = elim (codec.take_control request) [
    | none ↦ none
    | some envelope ↦
        if not (envelope.version == wire_version)
        then some unsupported
        else if envelope.op == op_hello
        then some (hello our_hello)
        else if envelope.op == op_sync_page
        then (elim (decode_sync_request envelope.payload) [
          | none ↦ none
          | some r ↦ some (page (sync_page sessions r peer))
        ])
        else some unsupported
  ]

  -- One connection: each operation is charged to the peer, and the first that is not allowed ends it.
  unfoldable pub serve_connection :
      (TopicId → Option Session)
      → EndpointId
      → List (ℕ × Bytes)
      → PeerRateLimiter
      → PeerRateLimiter × List (Option Reply)
  unfolding serve_op allow_at
  serve_connection sessions peer [] limiter = (limiter, [])
  serve_connection sessions peer ((now, request) ∷ ops) limiter =
      let charged = allow_at limiter peer now in
      let rest = serve_connection sessions peer ops charged.0 in
      if charged.1 then (rest.0, serve_op sessions request peer ∷ rest.1) else (charged.0, [])

-- What a catch-up has taken from one peer: the frames that it replays, in order, and whether a budget
-- stopped it.
pub record Pull : Type 0 where
  pub replayed : List Bytes
  pub total : ℕ
  pub total_bytes : ℕ
  pub exceeded : Bool

-- The frames of one page.
unfoldable pub pull_frames : List Bytes → ℕ → ℕ → Pull
pull_frames [] total total_bytes = record {
  replayed = [];
  total = total;
  total_bytes = total_bytes;
  exceeded = false;
}
pull_frames (frame ∷ frames) total total_bytes =
    let total' = total + 1 in
    let bytes' = total_bytes + length frame in
    let rest = pull_frames frames total' bytes' in
    if ltb max_total_frames total' || ltb max_total_bytes_per_attempt bytes'
    then record { replayed = []; total = total'; total_bytes = bytes'; exceeded = true }
    else record rest { replayed = frame ∷ rest.replayed }

-- The requester: its id, its drop key, and the peer that it asks.
pub record Requester : Type 0 where
  pub topic_id : TopicId
  pub self_id : EndpointId
  pub peer_id : EndpointId
  pub drop_key : Option DropKey

abbrev pub cursor_or_zero : Option ℕ → ℕ
cursor_or_zero none = 0
cursor_or_zero (some n) = n

-- `request_op` at a page: the bytes of the answer, up to the limit of what is read, and the page in them.
unfoldable pub read_answer : Codec → Option Bytes → Option SyncResponseV1
read_answer codec none = none
read_answer codec (some bytes) =
    if ltb max_response_bytes (length bytes) then none else (elim (codec.take_response bytes) [
      | none ↦ none
      | some envelope ↦
          if envelope.version == wire_version && envelope.op == op_sync_page
          then codec.take_page envelope.payload
          else none
    ])

module _ (kdf : Kdf) (codec : Codec) where
  unfoldable pub make_request : Requester → ℕ → ℕ → SyncRequestV1
  unfolding sync_proof
  make_request who cursor page_size =
      let request : SyncRequestV1 = record {
        version = wire_version;
        topic_id = who.topic_id;
        cursor = cursor;
        max_frames = page_size;
        key_proof = none;
      } in
      elim who.drop_key [
        | none ↦ request
        | some key ↦ record request {
          key_proof = some (
              sync_proof kdf key who.topic_id who.self_id who.peer_id
                (codec.encode_request request));
        }
      ]

  -- The `loop` over pages, on fuel; `ask n` is the bytes that the peer answers
  -- to the request of round `n`.
  unfoldable pub pull_loop :
      (ℕ → SyncRequestV1 → Option Bytes) → Requester → ℕ → ℕ → ℕ → ℕ → ℕ → ℕ → Pull
  unfolding make_request pull_frames read_answer
  pull_loop ask who page_size zero pages cursor total total_bytes = pull_frames [] total total_bytes
  pull_loop ask who page_size (suc fuel) pages cursor total total_bytes =
      elim (read_answer codec (ask pages (make_request who cursor page_size))) [
        | none ↦ pull_frames [] total total_bytes
        | some response ↦
            let p = pull_frames response.frames total total_bytes in
            let next = cursor_or_zero response.next_cursor in
            let rest = pull_loop ask who page_size fuel (pages + 1) next p.total p.total_bytes in
            if not (response.version == wire_version) || ltb max_pages_per_attempt (pages + 1)
            then pull_frames [] total total_bytes
            else if p.exceeded
            then p
            else if ltb cursor next
            then record rest { replayed = p.replayed ++ rest.replayed }
            else p
      ]

  -- One round more than the page budget.
  unfoldable pub pull : (ℕ → SyncRequestV1 → Option Bytes) → Requester → ℕ → Pull
  pull ask who page_size = pull_loop ask who page_size (max_pages_per_attempt + 1) 0 0 0 0

-- The page size, or nothing where the peer is of no use. `none` is a peer that did not say hello.
unfoldable pub negotiate : Option HelloV1 → Option ℕ
negotiate none = some max_frames_per_page
negotiate (some h) =
    if not (any (λ v. v == wire_version) h.wire_versions)
    then none
    else if not (any (λ o. o == op_sync_page) h.ops)
    then none
    else some (min max_frames_per_page (max h.max_frames_per_page 1))

-- A peer, as the catch-up meets it.
pub record Peer : Type 0 where
  pub id : EndpointId
  pub connects : Bool
  pub hello : Option HelloV1
  pub ask : ℕ → SyncRequestV1 → Option Bytes

-- A sealed drop without its key.
abbrev pub is_blind : DropMode → Option DropKey → Bool
is_blind mode none = is_sealed mode
is_blind mode (some key) = false

abbrev pub delivered : EndpointId → List Bytes → List (EndpointId × Bytes)
delivered id [] = []
delivered id (frame ∷ frames) = (id, frame) ∷ delivered id frames

module _ (kdf : Kdf) (codec : Codec) where
  -- What `sync_catchup` takes from one peer, if it can talk to it.
  unfoldable pub pull_from : TopicId → EndpointId → Option DropKey → Peer → Pull
  unfolding negotiate pull pull_frames
  pull_from topic_id self_id drop_key peer =
      if not peer.connects then pull_frames [] 0 0 else (elim (negotiate peer.hello) [
        | none ↦ pull_frames [] 0 0
        | some size ↦
            pull kdf codec peer.ask
              (record {
                topic_id = topic_id;
                self_id = self_id;
                peer_id = peer.id;
                drop_key = drop_key;
              })
              size
      ])

  -- The frames that are replayed, each with the peer that delivers it. The first peer that gives a
  -- frame is the last that is asked.
  unfoldable pub sync_catchup :
      DropMode → TopicId → EndpointId → Option DropKey → List Peer → List (EndpointId × Bytes)
  unfolding pull_from
  sync_catchup mode topic_id self_id drop_key [] = []
  sync_catchup mode topic_id self_id drop_key (peer ∷ peers) =
      let got = pull_from topic_id self_id drop_key peer in
      let rest = sync_catchup mode topic_id self_id drop_key peers in
      if is_blind mode drop_key
      then []
      else if ltb 0 got.total
      then delivered peer.id got.replayed
      else rest
