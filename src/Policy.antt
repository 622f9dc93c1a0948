-- ===== src/Policy.antt =====
-- crates/iroh-drop/src/policy.rs: which offers are fetched automatically, and the hook that judges
-- an offer.
pub mod Check
mod Tests
use iroh_drop.Prelude.{
  ℕ, ◌+◌, ◌-◌, ◌*◌, ◌^◌, Bool, true, false, Option, none, some, List, [], leb, ltb, min,
  if◌then◌else◌,
}
use iroh_drop.Text.{Text, codes, text_key}
use iroh_drop.Error.{
  Result, ok, err, refuse_if, ◌>>=◌, ◌>>◌, PolicyError, too_large, media_type_rejected,
  total_quota_exceeded, concurrency_limit,
}
use iroh_drop.Message.{OfferV1, EndpointId}
use iroh_drop.Map.Queue.{mem}

abbrev pub u64_max : ℕ
u64_max = 2 ^ 64 - 1

unfoldable pub saturating_add : ℕ → ℕ → ℕ
saturating_add a b = min (a + b) u64_max

-- The output directory is a path that only the file system reads; durations are in nanoseconds.
pub record DropPolicy : Type 0 where
  pub auto_fetch : Bool
  pub max_blob_size : ℕ
  pub max_concurrent_fetches : ℕ
  pub max_total_auto_fetch_bytes : ℕ
  pub accepted_media_types : Option (List Text)
  pub output_directory : Text
  pub provider_timeout : ℕ

-- `default`, with the timeout that session.rs declares.
unfoldable pub default_policy : ℕ → DropPolicy
default_policy default_provider_timeout = record {
  auto_fetch = false;
  max_blob_size = 500 * 1024 * 1024;
  max_concurrent_fetches = 3;
  max_total_auto_fetch_bytes = 2 * 1024 * 1024 * 1024;
  accepted_media_types = none;
  output_directory = codes "./downloads";
  provider_timeout = default_provider_timeout;
}

-- `unwrap_or_default` of the media type.
abbrev pub media_type_or_empty : OfferV1 → Text
media_type_or_empty o = elim o.media_type [ none ↦ [] | some t ↦ t ]

unfoldable pub check_media_type : Option (List Text) → Text → Result PolicyError (Unit {0})
check_media_type none mt = ok tt
check_media_type (some accepted) mt =
    if mem mt accepted then ok tt else err (media_type_rejected mt)

unfoldable pub check_auto_fetch : DropPolicy → OfferV1 → ℕ → ℕ → Result PolicyError (Unit {0})
unfolding check_media_type saturating_add
check_auto_fetch p o active spent = do
  refuse_if (ltb p.max_blob_size o.size) (too_large o.size p.max_blob_size)
  check_media_type p.accepted_media_types (media_type_or_empty o)
  refuse_if (leb p.max_concurrent_fetches active)
      (concurrency_limit active p.max_concurrent_fetches)
  refuse_if (ltb p.max_total_auto_fetch_bytes (saturating_add spent o.size))
      (total_quota_exceeded spent o.size p.max_total_auto_fetch_bytes)

pub record OfferContext : Type 0 where
  pub author : EndpointId
  pub delivered_from : EndpointId
  pub is_new : Bool
  pub policy_allows_auto_fetch : Bool

pub data OfferDecision : Type 0 where
  accept record_only : OfferDecision
  reject : Text → OfferDecision

-- `OfferDecider`: the application's judgement is a function of the offer and its context.
abbrev pub OfferDecider : Type 0
OfferDecider = OfferV1 → OfferContext → OfferDecision

-- `PolicyDecider`
unfoldable pub policy_decider : OfferDecider
policy_decider offer context = if context.policy_allows_auto_fetch then accept else record_only
