-- ===== src/Limits/Budget.antt =====
-- How many calls of one peer are allowed over a span of time.
use native.Mathlib.Nat.{mul-le-mul_right}
use iroh_drop.Prelude.{
  ℕ_discrete, ℕ, suc, ◌+◌, ◌-◌, ◌≤◌, ◌≡◌, ◌≢◌, refl, inl, inr, List, [], ◌∷◌, ◌++◌, arith, length,
  length-append, ap, subst, ◌∙◌, Option-cases, Bool-cases, if◌then◌else◌, ◌==◌, ◌&&◌, ◌*◌,
}
use iroh_drop.Map.{nat_key, get, put, contains, get-put}
use iroh_drop.Map.Queue.{trim_fits, length-trim}
use iroh_drop.Limits.{
  Bucket, PeerRateLimiter, refill, take_token, allow_at, token, max_tracked_peers,
}
use iroh_drop.Limits.Buckets.{available}

-- One call: who, and when.
pub record Call : Type 0 where
  pub peer : ℕ
  pub now : ℕ

-- How many of the calls of `peer` are allowed.
unfoldable pub allowed : ℕ → PeerRateLimiter → List Call → ℕ
allowed peer l [] = 0
allowed peer l (c ∷ cs) =
    let rest = allowed peer (allow_at l c.peer c.now).0 cs in
    if (c.peer == peer) && (allow_at l c.peer c.now).1 then suc rest else rest

-- The calls come in time order, from `from` until `to`.
abbrev pub Between : ℕ → ℕ → List Call → Type 0
Between from to [] = from ≤ to
Between from to (c ∷ cs) = (from ≤ c.now) × Between c.now to cs

-- How many of the calls come of a peer that is not in the table when it calls.
unfoldable pub newcomers : PeerRateLimiter → List Call → ℕ
newcomers l [] = 0
newcomers l (c ∷ cs) =
    let rest = newcomers (allow_at l c.peer c.now).0 cs in
    if contains c.peer l.buckets then rest else suc rest

-- There is room for the peer, if it is not in the table.
abbrev HasRoom : PeerRateLimiter → ℕ → Type 0
HasRoom l peer = length l.order + (if contains peer l.buckets then 0 else 1) ≤ max_tracked_peers

span_mul : (a b c r : ℕ) → a ≤ b + c → a * r ≤ b * r + c * r
span_mul a b c r h = omega (arith, mul-le-mul_right {m = a} {n = b + c} r h)

-- The bucket between calls fills by the rate.
available_grows :
    (l : PeerRateLimiter) (peer now later : ℕ)
    → now ≤ later
    → (available l peer later).tokens
      ≤ (available l peer now).tokens + (later - now) * l.rate.per_second
unfolding available refill
available_grows l peer now later h = elim (Option-cases (get peer l.buckets)) [
  | inl fresh ↦ rw (fresh, available) (omega arith)
  | inr (b, known) ↦
      let longer : (later - b.last) * l.rate.per_second
          ≤ (now - b.last) * l.rate.per_second + (later - now) * l.rate.per_second =
        span_mul (later - b.last) (now - b.last) (later - now) l.rate.per_second (omega arith) in
      rw (known, available, refill) (omega arith)
]

Between-le : (from to : ℕ) (cs : List Call) → Between from to cs → from ≤ to
Between-le from to [] h = h
Between-le from to (c ∷ cs) h = omega (arith, Between-le c.now to cs h.1)

-- A call of the peer itself pays for what it takes.
pays :
    (l : PeerRateLimiter) (peer now : ℕ)
    → HasRoom l peer
    → (available (allow_at l peer now).0 peer now).tokens
        + (if (allow_at l peer now).1 then token else 0)
      ≤ (available l peer now).tokens
unfolding allow_at available
pays l peer now room = elim (Option-cases (get peer l.buckets)) [
  | inl fresh ↦
      let b = (take_token (record { tokens = l.rate.burst * token; last = now })).0 in
      ground (
        arith,
        trim_fits max_tracked_peers (put peer b l.buckets) (l.order ++ peer ∷ []),
        length-append l.order (peer ∷ []),
        get-put peer peer b l.buckets,
      )
  | inr (old, known) ↦
      let b = (take_token (refill l.rate now old)).0 in
      ground (arith, get-put peer peer b l.buckets)
]

-- A call of another peer leaves the bucket alone.
others_kept :
    (l : PeerRateLimiter) (peer other now later : ℕ)
    → HasRoom l other
    → other ≢ peer
    → available (allow_at l other now).0 peer later ≡ available l peer later
unfolding allow_at available
others_kept l peer other now later room ne = elim (Option-cases (get other l.buckets)) [
  | inl fresh ↦
      let b = (take_token (record { tokens = l.rate.burst * token; last = now })).0 in
      ground (
        arith,
        trim_fits max_tracked_peers (put other b l.buckets) (l.order ++ other ∷ []),
        length-append l.order (other ∷ []),
        get-put other peer b l.buckets,
      )
  | inr (old, known) ↦
      let b = (take_token (refill l.rate now old)).0 in
      ground (arith, get-put other peer b l.buckets)
]

length-allow_at :
    (l : PeerRateLimiter) (peer now : ℕ)
    → (length (allow_at l peer now).0.order
        ≤ length l.order + (if contains peer l.buckets then 0 else 1))
      × ((allow_at l peer now).0.rate ≡ l.rate)
unfolding allow_at
length-allow_at l peer now = elim (Option-cases (get peer l.buckets)) [
  | inl fresh ↦
      let b = (take_token (record { tokens = l.rate.burst * token; last = now })).0 in
      let shorter = length-trim max_tracked_peers (put peer b l.buckets) (l.order ++ peer ∷ []) in
      rw (fresh, allow_at) (omega (arith, shorter, length-append l.order (peer ∷ [])), refl)
  | inr (old, known) ↦ rw (known, allow_at) (omega arith, refl)
]

one_call :
    (peer : ℕ) (l : PeerRateLimiter) (c : Call)
    → HasRoom l c.peer
    → (available (allow_at l c.peer c.now).0 peer c.now).tokens
        + (if (c.peer == peer) && (allow_at l c.peer c.now).1 then token else 0)
      ≤ (available l peer c.now).tokens
one_call peer l c room = elim (ℕ_discrete c.peer peer) [
  | yes e ↦ rw e (let p = pays l peer c.now (subst (HasRoom l) e room) in ground arith)
  | no ne ↦
      let k = ap (λ (b : Bucket). b.tokens) (others_kept l peer c.peer c.now c.now room ne) in
      ground arith
]

-- Over a span of time in which the table has room for every peer that is new to it, the calls of one peer
-- that are allowed, however many it makes, cost at most what its bucket held at the start and what the
-- rate adds.
pub allowed-le :
    (peer from to : ℕ) (l : PeerRateLimiter) (cs : List Call)
    → Between from to cs
    → length l.order + newcomers l cs ≤ max_tracked_peers
    → allowed peer l cs * token ≤ (available l peer from).tokens + (to - from) * l.rate.per_second
unfolding allowed newcomers
allowed-le peer from to l [] h room = omega arith
allowed-le peer from to l (c ∷ cs) h room =
    let l' = (allow_at l c.peer c.now).0 in
    let (longer, same_rate) = length-allow_at l c.peer c.now in
    let ih = allowed-le peer c.now to l' cs h.1 (ground (arith, longer)) in
    let grown = available_grows l peer from c.now h.0 in
    let r = l.rate.per_second in
    let ends = Between-le c.now to cs h.1 in
    let split : (to - from) * r ≡ (to - c.now) * r + (c.now - from) * r =
      ap (λ (t : ℕ). t * r) {x = to - from} {y = (to - c.now) + (c.now - from)} (omega arith)
      ∙ omega arith in
    let rest = available l' peer c.now in
    let step : rest.tokens + (if (c.peer == peer) && (allow_at l c.peer c.now).1 then token else 0)
        ≤ (available l peer c.now).tokens =
      one_call peer l c (ground arith) in
    let bound : allowed peer l' cs * token ≤ rest.tokens + (to - c.now) * r = rw same_rate at ih in
    elim (Bool-cases ((c.peer == peer) && (allow_at l c.peer c.now).1)) [
      | inl hit ↦ let paid = rw hit at step in rw hit (omega arith)
      | inr miss ↦ let kept = rw miss at step in rw miss (omega arith)
    ]
