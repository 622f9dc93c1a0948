-- ===== src/Policy/Tests.antt =====
-- The policy's tests of the source, and its theorem at a concrete offer.
use iroh_drop.Prelude.{ℕ, ◌≡◌, ◌↔◌, refl, Option, none, some, [], ◌∷◌, arith, false, ◌*◌}
use iroh_drop.Text.{Text, codes, text_discrete}
use iroh_drop.Map.Queue.{mem}
use iroh_drop.Error.{ok, err, too_large, media_type_rejected, total_quota_exceeded}
use iroh_drop.Message.{OfferV1}
use iroh_drop.Policy.{DropPolicy, default_policy, check_auto_fetch}
use iroh_drop.Policy.Check.{Allows, check_auto_fetch_iff}

abbrev offer : ℕ → Option Text → OfferV1
offer size media_type = record {
  blob_hash = [];
  name = codes "file.bin";
  size = size;
  media_type = media_type;
  created_at_ms = none;
  metadata = [];
}

-- The default policy.
abbrev base : DropPolicy
base = record {
  auto_fetch = false;
  max_blob_size = 500 * 1024 * 1024;
  max_concurrent_fetches = 3;
  max_total_auto_fetch_bytes = 2 * 1024 * 1024 * 1024;
  accepted_media_types = none;
  output_directory = codes "./downloads";
  provider_timeout = 0;
}

manual_fetch_is_default : default_policy 0 ≡ base
unfolding default_policy
manual_fetch_is_default = refl

size_limit :
    (check_auto_fetch (record base { max_blob_size = 100 }) (offer 100 none) 0 0 ≡ ok tt)
    × (check_auto_fetch (record base { max_blob_size = 100 }) (offer 101 none) 0 0
        ≡ err (too_large 101 100))
unfolding check_auto_fetch
size_limit = (refl, refl)

abbrev text_only : DropPolicy
text_only = record base { accepted_media_types = some (codes "text/plain" ∷ []) }

media_type_filter :
    (check_auto_fetch text_only (offer 1 (some (codes "text/plain"))) 0 0 ≡ ok tt)
    × (check_auto_fetch text_only (offer 1 (some (codes "video/mp4"))) 0 0
        ≡ err (media_type_rejected (codes "video/mp4")))
unfolding check_auto_fetch text_discrete mem
media_type_filter = (refl, refl)

total_quota :
    (check_auto_fetch (record base { max_total_auto_fetch_bytes = 1000 }) (offer 600 none) 0 400
      ≡ ok tt)
    × (check_auto_fetch (record base { max_total_auto_fetch_bytes = 1000 }) (offer 601 none) 0 400
        ≡ err (total_quota_exceeded 400 601 1000))
unfolding check_auto_fetch
total_quota = (refl, refl)

check_auto_fetch_iff_example :
    (check_auto_fetch base (offer 600 none) 2 400 ≡ ok tt) ↔ Allows base (offer 600 none) 2 400
check_auto_fetch_iff_example = check_auto_fetch_iff base (offer 600 none) 2 400 (omega arith)
