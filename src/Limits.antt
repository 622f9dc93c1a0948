-- ===== src/Limits.antt =====
-- crates/iroh-drop/src/limits.rs: token buckets by peer. The source counts tokens in `f64`; here
-- rates are whole numbers, instants are nanoseconds and tokens are counted in billionths, so that
-- `elapsed * per_second` is exact. Rounding of floats is not modelled.
pub mod Buckets
pub mod Budget
mod Tests
use iroh_drop.Prelude.{
  ℕ, ◌+◌, ◌-◌, ◌*◌, Bool, true, false, none, some, List, [], ◌∷◌, ◌++◌, length, leb, if◌then◌else◌,
  min, not,
}
use iroh_drop.Map.{nat_key, get, put}
use iroh_drop.Map.Queue.{trim}

pub record Rate : Type 0 where
  pub burst : ℕ
  pub per_second : ℕ

abbrev pub messages : Rate
messages = record { burst = 64; per_second = 16 }

abbrev pub requests : Rate
requests = record { burst = 8; per_second = 1 }

abbrev pub sync_pages : Rate
sync_pages = record { burst = 32; per_second = 4 }

abbrev pub max_tracked_peers : ℕ
max_tracked_peers = 4096

-- Ten seconds, in nanoseconds.
abbrev pub request_reply_interval : ℕ
request_reply_interval = 10 * 1_000_000_000

-- One token.
abbrev pub token : ℕ
token = 1_000_000_000

pub record Bucket : Type 0 where
  pub tokens : ℕ
  pub last : ℕ

pub record PeerRateLimiter : Type 0 where
  pub rate : Rate
  pub buckets : List (ℕ × Bucket)
  pub order : List ℕ

unfoldable pub new : Rate → PeerRateLimiter
new rate = record { rate = rate; buckets = []; order = [] }

-- A bucket that is there, after its refill at `now`.
unfoldable pub refill : Rate → ℕ → Bucket → Bucket
refill rate now b = record {
  tokens = min (b.tokens + (now - b.last) * rate.per_second) (rate.burst * token);
  last = now;
}

-- Takes one token if there is one.
unfoldable pub take_token : Bucket → Bucket × Bool
take_token b =
    if leb token b.tokens then (record b { tokens = b.tokens - token }, true) else (b, false)

unfoldable pub evict : PeerRateLimiter → PeerRateLimiter
unfolding trim
evict l =
    let (buckets, order) = trim max_tracked_peers l.buckets l.order in
    record l { buckets = buckets; order = order }

unfoldable pub allow_at : PeerRateLimiter → ℕ → ℕ → PeerRateLimiter × Bool
unfolding refill take_token evict
allow_at l peer now = elim (get peer l.buckets) [
  | none ↦
      let (bucket, allowed) = take_token (record { tokens = l.rate.burst * token; last = now }) in
      (
        evict (record l { buckets = put peer bucket l.buckets; order = l.order ++ peer ∷ [] }),
        allowed,
      )
  | some old ↦
      let (bucket, allowed) = take_token (refill l.rate now old) in
      (record l { buckets = put peer bucket l.buckets }, allowed)
]

unfoldable pub tracked : PeerRateLimiter → ℕ
tracked l = length l.buckets
