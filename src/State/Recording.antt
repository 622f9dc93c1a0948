-- ===== src/State/Recording.antt =====
-- Recording an offer: the invariant, and what each outcome means.
use iroh_drop.Prelude.{
  ℕ, ◌+◌, ◌≤◌, ◌≡◌, ◌∙◌, refl, sym, ap, subst, subst₂, ◌↔◌, inl, inr, true, false, none, some, List,
  [], ◌∷◌, ◌++◌, arith, length, if◌then◌else◌, Option-cases, Bool-cases, ite,
}
use iroh_drop.Text.{Text, text_key}
use iroh_drop.Map.{
  nat_key, get, put, contains, get-put, length-put, length-put-le, length-put_present,
}
use iroh_drop.Map.Queue.{mem, erase_absent, Agrees-push, Agrees-set, Agrees-touch}
use iroh_drop.Message.{OfferV1, BlobHash, EndpointId}
use iroh_drop.Provider.{add}
use iroh_drop.State.{
  OfferRecord, Inventory, new_offer, known, quota_exceeded, count_or_zero, author_has_quota,
  merge_alias, first_record, providers_of, touch_offer, enforce_offer_cap, record_offer_inner,
  max_offers_per_author,
}
use iroh_drop.State.Bookkeeping.{
  IsRecord, IsConsistent, IsValid, enforce_offer_cap-Enforced, count_by, count_by-put,
  count_by-put_same,
}

merge_alias-IsRecord :
    (h : BlobHash) (name : Text) (r : OfferRecord) → IsRecord h r → IsRecord h (merge_alias name r)
unfolding merge_alias
merge_alias-IsRecord h name r v = record {
  keyed = ground (arith, v.keyed);
  named = ground (arith, v.named, get-put name r.offer.name tt r.aliases);
  few_aliases = ground (arith, v.few_aliases, length-put-le name tt r.aliases);
}

merge_alias-author :
    (name : Text) (r : OfferRecord) → (merge_alias name r).first_seen_from ≡ r.first_seen_from
unfolding merge_alias
merge_alias-author name r = ground arith

first_record-IsRecord :
    (now : ℕ) (from : EndpointId) (offer : OfferV1)
    → IsRecord offer.blob_hash (first_record now from offer)
unfolding first_record
first_record-IsRecord now from offer = record {
  keyed = refl;
  named = ground (arith, get-put offer.name offer.name tt []);
  few_aliases = omega (arith, length-put-le offer.name tt []);
}

pub put-records :
    (hash : BlobHash) (r : OfferRecord) (m : List (BlobHash × OfferRecord))
    → IsRecord hash r
    → ((h : BlobHash) (s : OfferRecord) → get h m ≡ some s → IsRecord h s)
    → (h : BlobHash) (s : OfferRecord) → get h (put hash r m) ≡ some s
    → IsRecord h s
put-records hash r m v old h s e = elim (text_key.dec hash h) [
  | no ne ↦ old h s (ground (arith, get-put hash h r m))
  | yes p ↦ let same : r ≡ s = ground (arith, get-put hash h r m) in subst₂ IsRecord p same v
]

front_stays :
    (dropped rest o : List BlobHash) (h : BlobHash)
    → dropped ++ rest ≡ o ++ h ∷ []
    → length dropped ≤ length o
    → length dropped ≤ 1
    → mem h o ≡ false
    → mem h dropped ≡ false
unfolding mem
front_stays [] rest o h e le one absent = refl
front_stays (x ∷ []) rest [] h e le one absent = absurd (omega arith)
front_stays (x ∷ []) rest (y ∷ o) h e le one absent = ground arith
front_stays (x ∷ z ∷ dropped) rest o h e le one absent = absurd (omega arith)

module _ (now : ℕ) (from : EndpointId) (offer : OfferV1) (inv : Inventory) where
  -- The inventory with the offer entered, before the eviction.
  entered : Inventory
  entered =
      let hash = offer.blob_hash in
      let touched = touch_offer hash (record inv {
        providers = put hash (add from true (providers_of hash inv)) inv.providers;
      }) in
      record touched {
        offers = put hash (first_record now from offer) inv.offers;
        offers_per_author =
            put from (count_or_zero (get from inv.offers_per_author) + 1) inv.offers_per_author;
      }

  entered-IsConsistent :
      IsValid inv
      → get offer.blob_hash inv.offers ≡ none
      → author_has_quota from inv ≡ true
      → IsConsistent entered entered.offer_order
  unfolding entered touch_offer author_has_quota first_record
  entered-IsConsistent v new room =
      let hash = offer.blob_hash in
      let c = v.consistent in
      let r = first_record now from offer in
      let n = count_or_zero (get from inv.offers_per_author) in
      let there = λ (a : EndpointId). count_by-put a hash r inv.offers new in
      let absent : mem hash inv.offer_order ≡ false = ground (arith, c.agrees.same hash) in
      record {
        agrees =
            rw (erase_absent hash inv.offer_order absent)
              (Agrees-push hash r inv.offers inv.offer_order new c.agrees);
        counted =
            λ a. ground (arith, there a, c.counted a, get-put from a (n + 1) inv.offers_per_author);
        quota = λ a. ground (arith, there a, c.quota a, c.counted a);
        records = put-records hash r inv.offers (first_record-IsRecord now from offer) c.records;
      }

  -- The inventory after a known hash was offered again.
  merged : OfferRecord → Inventory
  merged r =
      let hash = offer.blob_hash in
      let touched = touch_offer hash (record inv {
        providers = put hash (add from true (providers_of hash inv)) inv.providers;
      }) in
      record touched { offers = put hash (merge_alias offer.name r) inv.offers }

  merged-IsValid :
      (r : OfferRecord) → IsValid inv → get offer.blob_hash inv.offers ≡ some r → IsValid (merged r)
  unfolding merged touch_offer
  merged-IsValid r v there =
      let hash = offer.blob_hash in
      let c = v.consistent in
      let r' = merge_alias offer.name r in
      let same_author = merge_alias-author offer.name r in
      let same = λ (a : EndpointId). count_by-put_same a hash r' r inv.offers there same_author in
      record {
        consistent = record {
          agrees =
              Agrees-set hash r' r inv.offers _ there
                (Agrees-touch hash r inv.offers inv.offer_order there c.agrees);
          counted = λ a. c.counted a ∙ sym (same a);
          quota = λ a. omega (arith, same a, c.quota a);
          records =
              put-records hash r' inv.offers
                (merge_alias-IsRecord hash offer.name r (c.records hash r there)) c.records;
        };
        bounded = omega (arith, length-put_present hash r' r inv.offers there, v.bounded);
      }

  -- Recording keeps the inventory valid, whatever the outcome.
  pub record_offer_inner-IsValid : IsValid inv → IsValid (record_offer_inner now from offer inv).0
  unfolding record_offer_inner entered merged
  record_offer_inner-IsValid v = elim (Option-cases (get offer.blob_hash inv.offers)) [
    | inr (r, there) ↦ rw (there, record_offer_inner) (merged-IsValid r v there)
    | inl new ↦ elim (Bool-cases (author_has_quota from inv)) [
      | inr full ↦ rw (new, full, record_offer_inner) v
      | inl room ↦
          let e = enforce_offer_cap-Enforced entered (entered-IsConsistent v new room) in
          rw (new, room, record_offer_inner)
            (record { consistent = e.consistent; bounded = e.bounded })
    ]
  ]

  -- The outcome is `known` exactly for a hash of the table.
  pub record_offer_inner_known :
      ((record_offer_inner now from offer inv).1 ≡ known)
      ↔ (contains offer.blob_hash inv.offers ≡ true)
  unfolding record_offer_inner
  record_offer_inner_known = ground arith

  -- An offer is refused exactly when its hash is new and its author occupies the whole quota.
  pub record_offer_inner_refused :
      IsValid inv
      → ((record_offer_inner now from offer inv).1 ≡ quota_exceeded) ↔ (
          (contains offer.blob_hash inv.offers ≡ false)
          × (count_by from inv.offers ≡ max_offers_per_author))
  unfolding record_offer_inner author_has_quota
  record_offer_inner_refused v = (
    λ h. ground (arith, v.consistent.counted from, v.consistent.quota from),
    λ h. ground (arith, v.consistent.counted from),
  )

  -- A refused offer leaves the inventory as it was.
  pub record_offer_inner_unchanged :
      (record_offer_inner now from offer inv).1 ≡ quota_exceeded
      → (record_offer_inner now from offer inv).0 ≡ inv
  unfolding record_offer_inner
  record_offer_inner_unchanged h = ground arith

  -- What a newly recorded offer leaves behind.
  pub record NewlyRecorded (evicted : List BlobHash) (inv' : Inventory) : Type 0 where
    pub at_most_one : length evicted ≤ 1
    pub stays : mem offer.blob_hash evicted ≡ false
    pub oldest : evicted ++ inv'.offer_order ≡ inv.offer_order ++ offer.blob_hash ∷ []
    pub found :
        (q : BlobHash)
        → get q inv'.offers ≡ (
            if mem q evicted
            then none
            else ite
                (text_key.dec offer.blob_hash q)
                (some (first_record now from offer))
                (get q inv.offers))

  enforced-NewlyRecorded :
      IsValid inv
      → get offer.blob_hash inv.offers ≡ none
      → author_has_quota from inv ≡ true
      → NewlyRecorded (enforce_offer_cap entered).1 (enforce_offer_cap entered).0
  unfolding entered touch_offer
  enforced-NewlyRecorded v new room =
      let hash = offer.blob_hash in
      let c = v.consistent in
      let e = enforce_offer_cap-Enforced entered (entered-IsConsistent v new room) in
      let absent : mem hash inv.offer_order ≡ false = ground (arith, c.agrees.same hash) in
      let longer = length-put hash (first_record now from offer) inv.offers new in
      let queue : (enforce_offer_cap entered).1 ++ (enforce_offer_cap entered).0.offer_order
          ≡ inv.offer_order ++ hash ∷ [] =
        e.oldest
        ∙ ap (λ (o : List BlobHash). o ++ hash ∷ []) (erase_absent hash inv.offer_order absent) in
      record {
        at_most_one = omega (arith, e.fewest, longer, v.bounded);
        stays =
            front_stays _ _ inv.offer_order hash queue
              (omega (arith, e.fewest, longer, v.bounded, c.agrees.sizes))
              (omega (arith, e.fewest, longer, v.bounded)) absent;
        oldest = queue;
        found =
            λ q. ground (arith, e.kept q, get-put hash q (first_record now from offer) inv.offers);
      }

  -- A new offer is in the table afterwards. At most one other is evicted, and only the one that was
  -- seen longest ago; every other offer is found as before.
  pub record_offer_inner_new :
      IsValid inv
      → (evicted : List BlobHash) → (record_offer_inner now from offer inv).1 ≡ new_offer evicted
      → NewlyRecorded evicted (record_offer_inner now from offer inv).0
  unfolding record_offer_inner entered touch_offer
  record_offer_inner_new v evicted h = elim (Option-cases (get offer.blob_hash inv.offers)) [
    | inr (r, there) ↦ absurd (ground arith)
    | inl new ↦ elim (Bool-cases (author_has_quota from inv)) [
      | inr full ↦ absurd (ground arith)
      | inl room ↦
          let same : (enforce_offer_cap entered).1 ≡ evicted = ground arith in
          rw (new, room, record_offer_inner)
            (subst (λ x. NewlyRecorded x (enforce_offer_cap entered).0) same
              (enforced-NewlyRecorded v new room))
    ]
  ]
