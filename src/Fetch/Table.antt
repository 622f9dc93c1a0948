-- ===== src/Fetch/Table.antt =====
-- What the steps of a fetch do to the table of offers: they keep it valid.
use iroh_drop.Prelude.{
  ℕ, ◌≡◌, ◌∙◌, refl, sym, ap, subst, ◌⊎◌, inl, inr, false, none, some, [], arith, Option-cases,
}
use iroh_drop.Text.{text_key}
use iroh_drop.Map.{get, put, get-put_self, length-put_present}
use iroh_drop.Map.Queue.{Agrees-set}
use iroh_drop.Message.{OfferV1, BlobHash, EndpointId}
use iroh_drop.Hash.{HexLower, to_hex}
use iroh_drop.Provider.{ProviderSet, add}
use iroh_drop.State.{
  DropState, Inventory, OfferRecord, OfferOutcome, new_offer, known, quota_exceeded,
  LocalBlobStatus, complete, providers_of, author_has_quota, record_offer, record_offer_bounded,
  record_offer_inner,
}
use iroh_drop.State.Bookkeeping.{IsRecord, IsValid, count_by-put_same}
use iroh_drop.State.Recording.{put-records, record_offer_inner_unchanged}
use iroh_drop.State.Recorded.{
  with_providers-IsValid, record_offer_inner_found, refused_absent, refused_full,
}
use iroh_drop.Fetch.Effect.{put_status, change_providers}
use iroh_drop.Fetch.{own_blob}

pub put_status-found :
    (hash : BlobHash) (s : DropState) (r : OfferRecord)
    → get hash s.inventory.offers ≡ some r
    → (r' : OfferRecord) × (get hash (put_status hash complete s).inventory.offers ≡ some r')
      × (r'.local_status ≡ complete)
unfolding put_status
put_status-found hash s r there =
    let r' : OfferRecord = record r { local_status = complete } in
    (r', rw (there, put_status) (get-put_self hash r' s.inventory.offers), refl)

pub put_status_absent :
    (hash : BlobHash) (s : DropState)
    → get hash s.inventory.offers ≡ none
    → put_status hash complete s ≡ s
unfolding put_status
put_status_absent hash s absent = rw (absent, put_status) refl

-- A change of the state that keeps the table of offers valid.
abbrev pub IsCalm : (DropState → DropState) → Type 0
IsCalm f = (s : DropState) → IsValid s.inventory → IsValid (f s).inventory

pub put_status-IsCalm :
    (hash : BlobHash) (status : LocalBlobStatus) → IsCalm (put_status hash status)
unfolding put_status
put_status-IsCalm hash status s v = elim (Option-cases (get hash s.inventory.offers)) [
  | inl absent ↦ rw (absent, put_status) v
  | inr (r, there) ↦
      let m = s.inventory.offers in
      let r' : OfferRecord = record r { local_status = status } in
      let c = v.consistent in
      let old = c.records hash r there in
      let same = λ (a : EndpointId). count_by-put_same a hash r' r m there refl in
      let kept : IsRecord hash r' = record {
        keyed = old.keyed;
        named = old.named;
        few_aliases = old.few_aliases;
      } in
      rw (there, put_status)
        (record {
          consistent = record {
            agrees = Agrees-set hash r' r m s.inventory.offer_order there c.agrees;
            counted = λ a. c.counted a ∙ sym (same a);
            quota = λ a. omega (arith, same a, c.quota a);
            records = put-records hash r' m kept c.records;
          };
          bounded = omega (arith, length-put_present hash r' r m there, v.bounded);
        })
]

pub change_providers-IsCalm :
    (hash : BlobHash) (f : ProviderSet → ProviderSet) → IsCalm (change_providers hash f)
unfolding change_providers
change_providers-IsCalm hash f s v = elim (Option-cases (get hash s.inventory.providers)) [
  | inl absent ↦ rw (absent, change_providers) v
  | inr (set, there) ↦ rw (there, change_providers) (with_providers-IsValid s.inventory _ v)
]

-- The record of a blob that is complete; or none, since the quota of the session's own offers is used up.
pub record IsRecorded (hash : BlobHash) (s : DropState) : Type 0 where
  pub entry : OfferRecord
  pub there : get hash s.inventory.offers ≡ some entry
  pub is_complete : entry.local_status ≡ complete

abbrev pub IsOwned : BlobHash → DropState → Type 0
IsOwned hash s =
    IsRecorded hash s
    ⊎ ((get hash s.inventory.offers ≡ none)
        × (author_has_quota s.self_endpoint_id s.inventory ≡ false))

pub IsOwned-same :
    (hash : BlobHash) (s t : DropState)
    → s.inventory ≡ t.inventory
    → s.self_endpoint_id ≡ t.self_endpoint_id
    → IsOwned hash t
    → IsOwned hash s
IsOwned-same hash s t e f (inl r) = inl (record {
  entry = r.entry;
  there = ap (λ (i : Inventory). get hash i.offers) e ∙ r.there;
  is_complete = r.is_complete;
})
IsOwned-same hash s t e f (inr (absent, full)) = inr (
  ap (λ (i : Inventory). get hash i.offers) e ∙ absent,
  ap (λ i. author_has_quota i s.inventory) f ∙ ap (author_has_quota t.self_endpoint_id) e ∙ full,
)

IsRecorded-put_status :
    (hash : BlobHash) (s : DropState) (r : OfferRecord)
    → get hash s.inventory.offers ≡ some r
    → IsRecorded hash (put_status hash complete s)
IsRecorded-put_status hash s r there =
    let (r', found, done) = put_status-found hash s r there in
    record { entry = r'; there = found; is_complete = done }

-- An offer of the session itself, marked complete.
recorded-IsOwned :
    (now : ℕ) (o : OfferV1) (s : DropState)
    → IsValid s.inventory
    → IsOwned o.blob_hash
        (put_status o.blob_hash complete (record_offer now s.self_endpoint_id o s).0)
unfolding record_offer record_offer_bounded
recorded-IsOwned now o s v =
    by_outcome (record_offer_inner now s.self_endpoint_id o s.inventory).1 refl
  where
    s' : DropState
    s' = (record_offer now s.self_endpoint_id o s).0

    accepted :
        ((record_offer_inner now s.self_endpoint_id o s.inventory).1 ≡ quota_exceeded → ⊥)
        → IsOwned o.blob_hash (put_status o.blob_hash complete s')
    accepted room =
        let (r, there) = record_offer_inner_found now s.self_endpoint_id o s.inventory v room in
        inl (IsRecorded-put_status o.blob_hash s' r there)

    by_outcome :
        (x : OfferOutcome)
        → (record_offer_inner now s.self_endpoint_id o s.inventory).1 ≡ x
        → IsOwned o.blob_hash (put_status o.blob_hash complete s')
    by_outcome (new_offer evicted) e = accepted (λ q. ground arith)
    by_outcome known e = accepted (λ q. ground arith)
    by_outcome quota_exceeded e =
        let same = record_offer_inner_unchanged now s.self_endpoint_id o s.inventory e in
        let absent : get o.blob_hash s'.inventory.offers ≡ none =
          ap (λ i. get o.blob_hash i.offers) same
          ∙ refused_absent now s.self_endpoint_id o s.inventory e in
        let full : author_has_quota s'.self_endpoint_id s'.inventory ≡ false =
          ap (λ i. author_has_quota s.self_endpoint_id i) same
          ∙ refused_full now s.self_endpoint_id o s.inventory e in
        subst (IsOwned o.blob_hash) (sym (put_status_absent o.blob_hash s' absent))
          (inr (absent, full))

pub own_blob-IsOwned :
    (hex : HexLower) (now : ℕ) (hash : BlobHash) (size : ℕ) (s : DropState)
    → IsValid s.inventory
    → IsOwned hash (own_blob hex now hash size s)
unfolding own_blob
own_blob-IsOwned hex now hash size s v =
    let credited = record s {
      inventory = record s.inventory {
        providers =
            put hash (add s.self_endpoint_id false (providers_of hash s.inventory))
              s.inventory.providers;
      };
    } in
    elim (Option-cases (get hash s.inventory.offers)) [
      | inl absent ↦
          rw (absent, own_blob)
            (recorded-IsOwned now
              (record {
                blob_hash = hash;
                name = to_hex hex hash;
                size = size;
                media_type = none;
                created_at_ms = none;
                metadata = [];
              })
              credited (with_providers-IsValid s.inventory _ v))
      | inr (r, there) ↦ rw (there, own_blob) (inl (IsRecorded-put_status hash credited r there))
    ]
