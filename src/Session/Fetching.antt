-- ===== src/Session/Fetching.antt =====
-- When an offer is fetched without being asked for, and what that reserves.
use iroh_drop.Prelude.{
  ℕ, ◌+◌, ◌≤◌, ◌<◌, ◌≡◌, refl, subst, inl, inr, Bool, true, false, not, ◌&&◌, ◌||◌, List, [], ◌∷◌,
  ◌++◌, arith, ◌==◌, if◌then◌else◌, Bool-cases,
}
use iroh_drop.Map.{get}
use iroh_drop.Text.{text_key}
use iroh_drop.Error.{Result, ok, err, PolicyError}
use iroh_drop.Message.{OfferV1, BlobHash, EndpointId}
use iroh_drop.Policy.{
  DropPolicy, OfferDecision, accept, record_only, reject, check_auto_fetch, u64_max,
}
use iroh_drop.Policy.Check.{Allows, check_auto_fetch_iff}
use iroh_drop.State.{OfferOutcome, new_offer, known, quota_exceeded, record_offer_bounded}
use iroh_drop.Session.{
  offer_received, SessionInner, Effect, emit, spawn_fetch, spawn_sync, send_public, deliver,
  Handled, start_fetch, auto_fetch, after_record, judged, context_of, handle_offer, finish_fetch,
  is_accept, is_underway, evicted_warning,
}

-- Whether a fetch is among the effects.
abbrev pub fetches : List Effect → Bool
fetches [] = false
fetches (spawn_fetch h n ∷ es) = true
fetches (emit e ∷ es) = fetches es
fetches (spawn_sync p ∷ es) = fetches es
fetches (send_public b ∷ es) = fetches es
fetches (deliver a i e ∷ es) = fetches es

-- The counters are within the policy.
pub record IsBudgeted (s : SessionInner) : Type 0 where
  pub bytes : s.auto_fetch_bytes ≤ s.policy.max_total_auto_fetch_bytes
  pub fetching : s.active_fetches ≤ s.policy.max_concurrent_fetches

-- The limits of the policy are below the largest 64-bit number, at which a sum saturates.
pub record IsLimited (p : DropPolicy) : Type 0 where
  pub small_bytes : p.max_total_auto_fetch_bytes < u64_max
  pub small_count : p.max_concurrent_fetches < u64_max

-- What a handler does to the counters: nothing, or one reservation that the policy allows.
pub record Reserves (d : OfferDecision) (author : EndpointId) (o : OfferV1) (s : SessionInner)
    (r : Handled) : Type 0 where
  pub policy : r.0.policy ≡ s.policy
  pub bytes : r.0.auto_fetch_bytes ≡ s.auto_fetch_bytes + (if fetches r.1 then o.size else 0)
  pub count : r.0.active_fetches ≡ s.active_fetches + (if fetches r.1 then 1 else 0)
  pub asked :
      (if fetches r.1
        then is_accept d && s.policy.auto_fetch && not (author == s.self_id) && s.has_handle
        else true)
      ≡ true
  pub within : r.0.auto_fetch_bytes ≤ s.policy.max_total_auto_fetch_bytes
  pub few : r.0.active_fetches ≤ s.policy.max_concurrent_fetches

idle-Reserves :
    (d : OfferDecision) (author : EndpointId) (o : OfferV1) (s : SessionInner) (es : List Effect)
    → IsBudgeted s
    → fetches es ≡ false
    → Reserves d author o s (s, es)
idle-Reserves d author o s es v quiet = record {
  policy = refl;
  bytes = ground arith;
  count = ground arith;
  asked = ground arith;
  within = v.bytes;
  few = v.fetching;
}

start_fetch-Reserves :
    (d : OfferDecision) (author : EndpointId) (o : OfferV1) (s : SessionInner)
    → IsBudgeted s
    → IsLimited s.policy
    → Allows s.policy o s.active_fetches s.auto_fetch_bytes
    → (s.policy.auto_fetch && not (author == s.self_id)) ≡ true
    → Reserves d author o s (start_fetch d o s)
unfolding start_fetch
start_fetch-Reserves d author o s v m a able =
    elim (Bool-cases (not (is_accept d) || not s.has_handle)) [
      | inl declined ↦ rw (declined, start_fetch) (idle-Reserves d author o s [] v refl)
      | inr goes ↦
          rw (goes, start_fetch)
            (record {
              policy = refl;
              bytes = omega (arith, a.quota, m.small_bytes);
              count = omega (arith, a.concurrency, m.small_count);
              asked = ground arith;
              within = omega (arith, a.quota, m.small_bytes);
              few = omega (arith, a.concurrency, m.small_count);
            })
    ]

auto_fetch-Reserves :
    (d : OfferDecision) (author : EndpointId) (o : OfferV1) (s : SessionInner)
    → IsBudgeted s
    → IsLimited s.policy
    → Reserves d author o s (auto_fetch d author o s)
unfolding auto_fetch
auto_fetch-Reserves d author o s v m =
    elim (Bool-cases (not s.policy.auto_fetch || author == s.self_id)) [
      | inl never ↦ rw (never, auto_fetch) (idle-Reserves d author o s [] v refl)
      | inr able ↦ elim (Bool-cases (is_underway (get o.blob_hash s.state.inventory.offers))) [
        | inl underway ↦ rw (able, underway, auto_fetch) (idle-Reserves d author o s [] v refl)
        | inr idle ↦
            checked able idle (check_auto_fetch s.policy o s.active_fetches s.auto_fetch_bytes) refl
      ]
    ]
  where
    checked :
        (not s.policy.auto_fetch || author == s.self_id) ≡ false
        → is_underway (get o.blob_hash s.state.inventory.offers) ≡ false
        → (c : Result PolicyError (Unit {0}))
        → check_auto_fetch s.policy o s.active_fetches s.auto_fetch_bytes ≡ c
        → Reserves d author o s (auto_fetch d author o s)
    checked able idle (err e) h =
        rw (able, idle, h, auto_fetch) (idle-Reserves d author o s (emit _ ∷ []) v refl)
    checked able idle (ok t) h =
        rw (able, idle, h, auto_fetch)
          (start_fetch-Reserves d author o s v m
            ((check_auto_fetch_iff s.policy o s.active_fetches s.auto_fetch_bytes m.small_bytes).0
              h)
            (ground arith))

fetches-warning :
    (hs : List BlobHash) (es : List Effect) → fetches (evicted_warning hs ++ es) ≡ fetches es
fetches-warning [] es = refl
fetches-warning (h ∷ hs) es = refl

after_record-Reserves :
    (r : OfferOutcome) (d : OfferDecision) (author : EndpointId) (o : OfferV1) (s : SessionInner)
    → IsBudgeted s
    → IsLimited s.policy
    → Reserves d author o s (after_record r d author o s)
unfolding after_record
after_record-Reserves quota_exceeded d author o s v m =
    idle-Reserves d author o s (emit _ ∷ []) v refl
after_record-Reserves known d author o s v m = idle-Reserves d author o s [] v refl
after_record-Reserves (new_offer evicted) d author o s v m =
    let a = auto_fetch-Reserves d author o s v m in
    let r = auto_fetch d author o s in
    let same : fetches (evicted_warning evicted ++ emit (offer_received author o) ∷ r.1)
        ≡ fetches r.1 =
      fetches-warning evicted (emit (offer_received author o) ∷ r.1) in
    record {
      policy = a.policy;
      bytes = rw same a.bytes;
      count = rw same a.count;
      asked = rw same a.asked;
      within = a.within;
      few = a.few;
    }

recorded-Reserves :
    (d : OfferDecision) (now : ℕ) (author : EndpointId) (o : OfferV1) (s : SessionInner)
    → IsBudgeted s
    → IsLimited s.policy
    → let recorded = record_offer_bounded now author o s.state in
      Reserves d author o s (after_record recorded.1 d author o (record s { state = recorded.0 }))
recorded-Reserves d now author o s v m =
    let recorded = record_offer_bounded now author o s.state in
    let s' = record s { state = recorded.0 } in
    let a =
      after_record-Reserves recorded.1 d author o s'
        (record { bytes = v.bytes; fetching = v.fetching }) m in
    record {
      policy = a.policy;
      bytes = a.bytes;
      count = a.count;
      asked = a.asked;
      within = a.within;
      few = a.few;
    }

judged-Reserves :
    (d : OfferDecision) (now : ℕ) (author : EndpointId) (o : OfferV1) (s : SessionInner)
    → IsBudgeted s
    → IsLimited s.policy
    → Reserves d author o s (judged d now author o s)
unfolding judged
judged-Reserves (reject reason) now author o s v m =
    idle-Reserves (reject reason) author o s (emit _ ∷ []) v refl
judged-Reserves accept now author o s v m = recorded-Reserves accept now author o s v m
judged-Reserves record_only now author o s v m = recorded-Reserves record_only now author o s v m

-- An offer is fetched without being asked for only if the policy has it switched on, the author is someone
-- else, the application accepts and a handle of the user exists; then its size and one slot are reserved,
-- and otherwise the counters stay. Either way they end within the policy, if they began there and the
-- policy's limits are below the largest 64-bit number.
pub handle_offer-Reserves :
    (now : ℕ) (author : EndpointId) (o : OfferV1) (delivered_from : EndpointId) (s : SessionInner)
    → IsBudgeted s
    → IsLimited s.policy
    → Reserves
        (s.decider o (context_of author o delivered_from s))
        author
        o
        s
        (handle_offer now author o delivered_from s)
unfolding handle_offer
handle_offer-Reserves now author o delivered_from s v m =
    judged-Reserves (s.decider o (context_of author o delivered_from s)) now author o s v m

-- A fetch that fails gives back what its offer had reserved, if the counters were within the policy and its
-- limits are below the largest 64-bit number.
pub finish_fetch-handle_offer :
    (now : ℕ) (author : EndpointId) (o : OfferV1) (delivered_from : EndpointId) (s : SessionInner)
    → IsBudgeted s
    → IsLimited s.policy
    → fetches (handle_offer now author o delivered_from s).1 ≡ true
    → let s' = finish_fetch o.size false (handle_offer now author o delivered_from s).0 in
      (s'.auto_fetch_bytes ≡ s.auto_fetch_bytes) × (s'.active_fetches ≡ s.active_fetches)
unfolding finish_fetch
finish_fetch-handle_offer now author o delivered_from s v m f =
    let r = handle_offer now author o delivered_from s in
    let a = handle_offer-Reserves now author o delivered_from s v m in
    let bytes : r.0.auto_fetch_bytes ≡ s.auto_fetch_bytes + o.size =
      subst (λ b. r.0.auto_fetch_bytes ≡ s.auto_fetch_bytes + (if b then o.size else 0)) f
        a.bytes in
    let count : r.0.active_fetches ≡ s.active_fetches + 1 =
      subst (λ b. r.0.active_fetches ≡ s.active_fetches + (if b then 1 else 0)) f a.count in
    (
      omega (arith, bytes, v.bytes, m.small_bytes, a.within),
      omega (arith, count, v.fetching, m.small_count, a.few),
    )
