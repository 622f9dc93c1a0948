-- ===== src/Policy/Check.antt =====
-- What `check_auto_fetch` lets through.
use iroh_drop.Prelude.{ℕ, ◌+◌, ◌≤◌, ◌<◌, ◌≡◌, ◌↔◌, true, Option, none, some, List, refl, arith}
use iroh_drop.Text.{Text, text_key}
use iroh_drop.Error.{ok}
use iroh_drop.Message.{OfferV1}
use iroh_drop.Map.Queue.{mem}
use iroh_drop.Policy.{DropPolicy, check_auto_fetch, check_media_type, media_type_or_empty, u64_max}

abbrev pub Accepts : Option (List Text) → Text → Type 0
Accepts none mt = Unit
Accepts (some accepted) mt = mem mt accepted ≡ true

-- What the policy asks of an offer.
pub record Allows (p : DropPolicy) (o : OfferV1) (active spent : ℕ) : Type 0 where
  pub size : o.size ≤ p.max_blob_size
  pub media_type : Accepts p.accepted_media_types (media_type_or_empty o)
  pub concurrency : active < p.max_concurrent_fetches
  pub quota : spent + o.size ≤ p.max_total_auto_fetch_bytes

check_media_type_iff :
    (a : Option (List Text)) (mt : Text) → (check_media_type a mt ≡ ok tt) ↔ Accepts a mt
unfolding check_media_type
check_media_type_iff none mt = (λ h. tt, λ h. refl)
check_media_type_iff (some a) mt = ground arith

-- The check passes exactly when every limit holds, if the budget is below the largest u64.
pub check_auto_fetch_iff :
    (p : DropPolicy) (o : OfferV1) (active spent : ℕ)
    → p.max_total_auto_fetch_bytes < u64_max
    → (check_auto_fetch p o active spent ≡ ok tt) ↔ Allows p o active spent
unfolding check_auto_fetch
check_auto_fetch_iff p o active spent small = (forth, back)
  where
    forth : check_auto_fetch p o active spent ≡ ok tt → Allows p o active spent
    forth h = record {
      size = ground arith;
      media_type =
          (check_media_type_iff p.accepted_media_types (media_type_or_empty o)).0 (ground arith);
      concurrency = ground arith;
      quota = ground arith;
    }

    back : Allows p o active spent → check_auto_fetch p o active spent ≡ ok tt
    back a = ground (
      arith,
      (check_media_type_iff p.accepted_media_types (media_type_or_empty o)).1 a.media_type,
    )
