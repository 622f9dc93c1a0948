-- ===== src/State.antt =====
-- `DropState` of crates/iroh-drop/src/state.rs: what one session knows. Its fields are grouped by
-- the invariants that they share: the known peers, the inventory of offers, and the retained log
-- (SyncLog). A method takes the clock readings that it makes.
pub mod Membership
pub mod Bookkeeping
pub mod Recording
pub mod Resolve
pub mod Crowding
pub mod Recorded
mod Tests
use iroh_drop.Prelude.{
  ℕ, zero, suc, ◌+◌, ◌-◌, Bool, true, false, not, ◌&&◌, ◌||◌, Option, none, some, List, [], ◌∷◌,
  ◌++◌, length, ltb, leb, ◌==◌, if◌then◌else◌,
}
use iroh_drop.Text.{Text, text_key}
use iroh_drop.Map.{nat_key, pair_key, get, put, remove, contains, is_some}
use iroh_drop.Map.Queue.{erase, trim}
use iroh_drop.Message.{OfferV1, BlobHash, EndpointId, FrameId, TopicId}
use iroh_drop.Policy.{DropPolicy}
use iroh_drop.Dedup
use iroh_drop.Dedup.{DedupCache}
use iroh_drop.Provider
use iroh_drop.Provider.{ProviderSet, add, record_claim}
use iroh_drop.SyncLog
use iroh_drop.SyncLog.{SyncLog}

abbrev pub max_offers : ℕ
max_offers = 4096

abbrev pub max_offers_per_author : ℕ
max_offers_per_author = 512

abbrev pub max_aliases_per_offer : ℕ
max_aliases_per_offer = 16

abbrev pub max_known_peers : ℕ
max_known_peers = 1024

abbrev pub DedupKey : Type 0
DedupKey = EndpointId × FrameId

-- A hash set.
abbrev pub SetOf : Type 0 → Type 0
SetOf A = List (A × Unit {0})

pub data OfferOutcome : Type 0 where
  new_offer : List BlobHash → OfferOutcome
  known quota_exceeded : OfferOutcome

unfoldable pub is_new : OfferOutcome → Bool
is_new (new_offer evicted) = true
is_new _ = false

unfoldable pub is_rejected : OfferOutcome → Bool
is_rejected quota_exceeded = true
is_rejected _ = false

pub data LocalBlobStatus : Type 0 where
  missing complete : LocalBlobStatus
  fetching : ℕ → Option ℕ → LocalBlobStatus
  failed : Bool → Text → LocalBlobStatus

pub record OfferRecord : Type 0 where
  pub offer : OfferV1
  pub first_seen_from : EndpointId
  pub first_seen_at : ℕ
  pub aliases : SetOf Text
  pub local_status : LocalBlobStatus

pub record Peers : Type 0 where
  pub known_peers : SetOf EndpointId
  pub peer_order : List EndpointId

pub record Inventory : Type 0 where
  pub offers : List (BlobHash × OfferRecord)
  pub offer_order : List BlobHash
  pub offers_per_author : List (EndpointId × ℕ)
  pub providers : List (BlobHash × ProviderSet)

pub record DropState : Type 0 where
  pub topic_id : TopicId
  pub self_endpoint_id : EndpointId
  pub seen_messages : DedupCache DedupKey
  pub policy : DropPolicy
  pub peers : Peers
  pub inventory : Inventory
  pub log : SyncLog

abbrev pub no_peers : Peers
no_peers = record { known_peers = []; peer_order = [] }

abbrev pub no_offers : Inventory
no_offers = record { offers = []; offer_order = []; offers_per_author = []; providers = [] }

unfoldable pub new : TopicId → EndpointId → DropPolicy → DropState
new topic_id self_endpoint_id policy = record {
  topic_id = topic_id;
  self_endpoint_id = self_endpoint_id;
  seen_messages = Dedup.default_cache;
  policy = policy;
  peers = no_peers;
  inventory = no_offers;
  log = SyncLog.empty;
}

unfoldable pub note_peer : EndpointId → Peers → Peers
unfolding trim
note_peer peer p =
    if contains peer p.known_peers
    then p
    else let (kept, order) =
        trim max_known_peers (put peer tt p.known_peers) (p.peer_order ++ peer ∷ []) in
      record { known_peers = kept; peer_order = order }

-- `self.providers.entry(hash).or_default()`
unfoldable pub providers_of : BlobHash → Inventory → ProviderSet
providers_of hash inv = elim (get hash inv.providers) [ none ↦ Provider.empty | some s ↦ s ]

unfoldable pub record_provider : BlobHash → EndpointId → ℕ → FrameId → Inventory → Inventory × Bool
unfolding providers_of
record_provider hash peer at frame_id inv =
    let (s, changed) = record_claim peer at frame_id false (providers_of hash inv) in
    (record inv { providers = put hash s inv.providers }, changed)

unfoldable pub withdraw_provider :
    BlobHash → EndpointId → ℕ → FrameId → Inventory → Inventory × Bool
unfolding providers_of
withdraw_provider hash peer at frame_id inv =
    let (s, changed) = record_claim peer at frame_id true (providers_of hash inv) in
    (record inv { providers = put hash s inv.providers }, changed)

unfoldable pub touch_offer : BlobHash → Inventory → Inventory
touch_offer hash inv = record inv { offer_order = erase hash inv.offer_order ++ hash ∷ [] }

-- How many offers of an author the counters show.
abbrev pub count_or_zero : Option ℕ → ℕ
count_or_zero none = 0
count_or_zero (some n) = n

unfoldable pub author_has_quota : EndpointId → Inventory → Bool
author_has_quota author inv =
    ltb (count_or_zero (get author inv.offers_per_author)) max_offers_per_author

-- One offer less for an author, in the eviction.
unfoldable pub release : EndpointId → List (EndpointId × ℕ) → List (EndpointId × ℕ)
release author counts = elim (get author counts) [
  | none ↦ counts
  | some count ↦ if count - 1 == 0 then remove author counts else put author (count - 1) counts
]

-- One round of `enforce_offer_cap`, after the hash has left the queue.
unfoldable pub forget : BlobHash → Inventory → Inventory × List BlobHash
unfolding release
forget oldest inv = elim (get oldest inv.offers) [
  | none ↦ (inv, [])
  | some r ↦ (
    record inv {
      offers = remove oldest inv.offers;
      offers_per_author = release r.first_seen_from inv.offers_per_author;
      providers = remove oldest inv.providers;
    },
    oldest ∷ [],
  )
]

unfoldable pub enforce_loop : List BlobHash → Inventory → Inventory × List BlobHash
enforce_loop [] inv = (record inv { offer_order = [] }, [])
enforce_loop (oldest ∷ order) inv =
    let forgotten = forget oldest inv in
    let rest = enforce_loop order forgotten.0 in
    if ltb max_offers (length inv.offers)
    then (rest.0, forgotten.1 ++ rest.1)
    else (record inv { offer_order = oldest ∷ order }, [])

unfoldable pub enforce_offer_cap : Inventory → Inventory × List BlobHash
unfolding enforce_loop forget
enforce_offer_cap inv = enforce_loop inv.offer_order inv

-- A known hash keeps its record; the name becomes an alias while there is room.
unfoldable pub merge_alias : Text → OfferRecord → OfferRecord
merge_alias name r =
    if ltb (length r.aliases) max_aliases_per_offer
    then record r { aliases = put name tt r.aliases }
    else r

unfoldable pub first_record : ℕ → EndpointId → OfferV1 → OfferRecord
first_record now from offer = record {
  offer = offer;
  first_seen_from = from;
  first_seen_at = now;
  aliases = put offer.name tt [];
  local_status = missing;
}

unfoldable pub record_offer_inner : ℕ → EndpointId → OfferV1 → Inventory → Inventory × OfferOutcome
unfolding author_has_quota providers_of touch_offer merge_alias first_record enforce_offer_cap add
record_offer_inner now from offer inv =
    let hash = offer.blob_hash in
    let credited =
      touch_offer hash (record inv {
        providers = put hash (add from true (providers_of hash inv)) inv.providers;
      }) in
    elim (get hash inv.offers) [
      | some r ↦
          (record credited { offers = put hash (merge_alias offer.name r) inv.offers }, known)
      | none ↦
          if not (author_has_quota from inv)
          then (inv, quota_exceeded)
          else let count = count_or_zero (get from inv.offers_per_author) in
            let (inv', evicted) = enforce_offer_cap (record credited {
              offers = put hash (first_record now from offer) inv.offers;
              offers_per_author = put from (count + 1) inv.offers_per_author;
            }) in
            (inv', new_offer evicted)
    ]

unfoldable pub record_offer_bounded :
    ℕ → EndpointId → OfferV1 → DropState → DropState × OfferOutcome
unfolding note_peer record_offer_inner
record_offer_bounded now from offer s =
    let (inv, outcome) = record_offer_inner now from offer s.inventory in
    (record s { peers = note_peer from s.peers; inventory = inv }, outcome)

unfoldable pub record_offer : ℕ → EndpointId → OfferV1 → DropState → DropState × Bool
unfolding record_offer_bounded is_new
record_offer now from offer s =
    let (s', outcome) = record_offer_bounded now from offer s in (s', is_new outcome)

unfoldable pub record_restored : ℕ → EndpointId → OfferV1 → DropState → DropState × OfferOutcome
unfolding record_offer_inner
record_restored now from offer s =
    let (inv, outcome) = record_offer_inner now from offer s.inventory in
    (record s { inventory = inv }, outcome)
