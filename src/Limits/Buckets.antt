-- ===== src/Limits/Buckets.antt =====
-- The invariant of the rate limiter.
use iroh_drop.Prelude.{
  ℕ, ◌*◌, ◌≤◌, ◌≡◌, inl, inr, none, some, [], ◌∷◌, ◌++◌, arith, length, leb, Option-cases,
}
use iroh_drop.Map.{nat_key, get, put, get-put}
use iroh_drop.Map.Queue.{Agrees, Agrees-nil, Agrees-push, Agrees-set, trim-Agrees, get-trim}
use iroh_drop.Limits.{
  Rate, Bucket, PeerRateLimiter, new, refill, take_token, allow_at, tracked, token,
  max_tracked_peers,
}

-- Every tracked peer is queued once, the table is bounded, and no bucket holds more than a burst.
pub record IsValid (l : PeerRateLimiter) : Type 0 where
  pub agrees : Agrees l.buckets l.order
  pub bounded : length l.order ≤ max_tracked_peers
  pub filled :
      (peer : ℕ) (b : Bucket) → get peer l.buckets ≡ some b → b.tokens ≤ l.rate.burst * token

pub new-IsValid : (rate : Rate) → IsValid (new rate)
unfolding new get
new-IsValid rate = record {
  agrees = Agrees-nil;
  bounded = omega arith;
  filled = λ peer b h. ground arith;
}

pub tracked-le : (l : PeerRateLimiter) → IsValid l → tracked l ≤ max_tracked_peers
unfolding tracked
tracked-le l v = omega (arith, v.bounded, v.agrees.sizes)

-- What a bucket holds for `peer` at `now`.
unfoldable pub available : PeerRateLimiter → ℕ → ℕ → Bucket
unfolding refill
available l peer now = elim (get peer l.buckets) [
  | none ↦ record { tokens = l.rate.burst * token; last = now }
  | some b ↦ refill l.rate now b
]

take_token-le : (b : Bucket) (n : ℕ) → b.tokens ≤ n → (take_token b).0.tokens ≤ n
unfolding take_token
take_token-le b n h = ground arith

refill-le : (rate : Rate) (now : ℕ) (b : Bucket) → (refill rate now b).tokens ≤ rate.burst * token
unfolding refill
refill-le rate now b = omega arith

-- A call keeps the limiter valid.
pub allow_at-IsValid :
    (l : PeerRateLimiter) (peer now : ℕ) → IsValid l → IsValid (allow_at l peer now).0
unfolding allow_at
allow_at-IsValid l peer now v = elim (Option-cases (get peer l.buckets)) [
  | inl fresh ↦
      let b = (take_token (record { tokens = l.rate.burst * token; last = now })).0 in
      let small : b.tokens ≤ l.rate.burst * token =
        take_token-le (record { tokens = l.rate.burst * token; last = now }) _ (omega arith) in
      let a =
        trim-Agrees max_tracked_peers (put peer b l.buckets) (l.order ++ peer ∷ [])
          (Agrees-push peer b l.buckets l.order fresh v.agrees) in
      rw (fresh, allow_at)
        (record {
          agrees = a.0;
          bounded = a.1;
          filled = λ q c h. ground (
            arith,
            get-trim max_tracked_peers q c (put peer b l.buckets) (l.order ++ peer ∷ []) h,
            get-put peer q b l.buckets,
            v.filled q c,
            small,
          );
        })
  | inr (old, known) ↦
      let b = (take_token (refill l.rate now old)).0 in
      let small : b.tokens ≤ l.rate.burst * token =
        take_token-le (refill l.rate now old) _ (refill-le l.rate now old) in
      rw (known, allow_at)
        (record {
          agrees = Agrees-set peer b old l.buckets l.order known v.agrees;
          bounded = v.bounded;
          filled = λ q c h. ground (arith, get-put peer q b l.buckets, v.filled q c, small);
        })
]

-- A call is allowed exactly when the peer's bucket holds a token at that time.
pub allow_at_answer :
    (l : PeerRateLimiter) (peer now : ℕ)
    → (allow_at l peer now).1 ≡ leb token (available l peer now).tokens
unfolding allow_at available
allow_at_answer l peer now = ground arith
