-- ===== src/State/Recorded.antt =====
-- What is in the table of offers after an offer is recorded or refused.
use iroh_drop.Prelude.{ℕ, ◌≡◌, ◌≢◌, refl, inl, inr, false, none, some, List, arith, Option-cases}
use iroh_drop.Text.{text_key}
use iroh_drop.Map.{get, get-put_self}
use iroh_drop.Message.{OfferV1, BlobHash, EndpointId}
use iroh_drop.Provider.{ProviderSet}
use iroh_drop.State.{
  Inventory, OfferRecord, OfferOutcome, new_offer, known, quota_exceeded, record_offer_inner,
  merge_alias, first_record, author_has_quota,
}
use iroh_drop.State.Bookkeeping.{IsValid}
use iroh_drop.State.Recording.{record_offer_inner_new, record_offer_inner_known}

-- The table of providers is apart from the offers.
pub with_providers-IsValid :
    (inv : Inventory) (m : List (BlobHash × ProviderSet))
    → IsValid inv
    → IsValid (record inv { providers = m })
with_providers-IsValid inv m v = record {
  consistent = record {
    agrees = v.consistent.agrees;
    counted = v.consistent.counted;
    quota = v.consistent.quota;
    records = v.consistent.records;
  };
  bounded = v.bounded;
}

-- An offer that is not refused is in the table.
merged_found :
    (now : ℕ) (from : EndpointId) (o : OfferV1) (inv : Inventory) (r : OfferRecord)
    → get o.blob_hash inv.offers ≡ some r
    → get o.blob_hash (record_offer_inner now from o inv).0.offers ≡ some (merge_alias o.name r)
unfolding record_offer_inner
merged_found now from o inv r there =
    rw (there, record_offer_inner) (get-put_self o.blob_hash (merge_alias o.name r) inv.offers)

pub record_offer_inner_found :
    (now : ℕ) (from : EndpointId) (o : OfferV1) (inv : Inventory)
    → IsValid inv
    → (record_offer_inner now from o inv).1 ≢ quota_exceeded
    → (r : OfferRecord) × (get o.blob_hash (record_offer_inner now from o inv).0.offers ≡ some r)
record_offer_inner_found now from o inv v room =
    by_outcome (record_offer_inner now from o inv).1 refl
  where
    Found : Type 0
    Found =
        (r : OfferRecord) × (get o.blob_hash (record_offer_inner now from o inv).0.offers ≡ some r)

    by_outcome : (x : OfferOutcome) → (record_offer_inner now from o inv).1 ≡ x → Found
    by_outcome (new_offer evicted) e =
        let n = record_offer_inner_new now from o inv v evicted e in
        (first_record now from o, ground (arith, n.found o.blob_hash, n.stays))
    by_outcome known e = elim (Option-cases (get o.blob_hash inv.offers)) [
      | inl new ↦ absurd (ground (arith, (record_offer_inner_known now from o inv).0 e))
      | inr (r, there) ↦ (merge_alias o.name r, merged_found now from o inv r there)
    ]
    by_outcome quota_exceeded e = absurd (room e)

pub refused_absent :
    (now : ℕ) (from : EndpointId) (o : OfferV1) (inv : Inventory)
    → (record_offer_inner now from o inv).1 ≡ quota_exceeded
    → get o.blob_hash inv.offers ≡ none
unfolding record_offer_inner
refused_absent now from o inv full = ground arith

pub refused_full :
    (now : ℕ) (from : EndpointId) (o : OfferV1) (inv : Inventory)
    → (record_offer_inner now from o inv).1 ≡ quota_exceeded
    → author_has_quota from inv ≡ false
unfolding record_offer_inner
refused_full now from o inv full = ground arith
