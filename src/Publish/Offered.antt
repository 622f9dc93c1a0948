-- ===== src/Publish/Offered.antt =====
-- What is published is in the session's own table, complete, and offered to the others.
use iroh_drop.Prelude.{
  ℕ, ◌≡◌, ◌≢◌, ◌∙◌, refl, sym, ap, subst, Option, none, some, List, [], ◌∷◌, length, arith,
}
use iroh_drop.Text.{Text, Bytes, text_key}
use iroh_drop.Map.{get}
use iroh_drop.Error.{ok}
use iroh_drop.Message.{OfferV1, MessageBodyV1, offer, provider, BlobHash}
use iroh_drop.Name.{validate_name}
use iroh_drop.State.{
  DropState, Inventory, OfferRecord, quota_exceeded, complete, record_offer, record_offer_bounded,
  record_offer_inner,
}
use iroh_drop.State.Bookkeeping.{IsValid}
use iroh_drop.State.Recording.{record_offer_inner_unchanged}
use iroh_drop.State.Recorded.{record_offer_inner_found, refused_absent}
use iroh_drop.Fetch.Table.{put_status-found, put_status_absent}
use iroh_drop.Run.{return, fail, fail_if}
use iroh_drop.Run.Steps.{bind-Bound, then-Bound, return-ok, modify-ok, or_fail-ok}
use iroh_drop.Fetch.Effect.{
  DropError, store_failed, import_failed, invalid_path, FetchEvent, sent, broadcast_ok,
}
use iroh_drop.Publish.{
  PublishedBlob, Importing, new_offer_of, new_provider_of, record_own, or_guess, finish_import_with,
  publish_bytes_with,
}

-- The record of a published blob.
pub record IsOwned (hash : BlobHash) (s : DropState) : Type 0 where
  pub entry : OfferRecord
  pub there : get hash s.inventory.offers ≡ some entry
  pub is_complete : entry.local_status ≡ complete

record_own-IsOwned :
    (now : ℕ) (o : OfferV1) (s : DropState)
    → IsValid s.inventory
    → (record_offer_inner now s.self_endpoint_id o s.inventory).1 ≢ quota_exceeded
    → IsOwned o.blob_hash (record_own now o s)
unfolding record_own record_offer record_offer_bounded
record_own-IsOwned now o s v room =
    let (r, there) = record_offer_inner_found now s.self_endpoint_id o s.inventory v room in
    let (r', found, done) =
      put_status-found o.blob_hash (record_offer now s.self_endpoint_id o s).0 r there in
    record { entry = r'; there = found; is_complete = done }

record_own_refused :
    (now : ℕ) (o : OfferV1) (s : DropState)
    → (record_offer_inner now s.self_endpoint_id o s.inventory).1 ≡ quota_exceeded
    → (record_own now o s).inventory ≡ s.inventory
unfolding record_own record_offer record_offer_bounded
record_own_refused now o s full =
    let unchanged = record_offer_inner_unchanged now s.self_endpoint_id o s.inventory full in
    let absent = refused_absent now s.self_endpoint_id o s.inventory full in
    ap (λ (t : DropState). t.inventory)
      (put_status_absent o.blob_hash (record_offer now s.self_endpoint_id o s).0
        (ap (λ (i : Inventory). get o.blob_hash i.offers) unchanged ∙ absent))
    ∙ unchanged

module _ (send : MessageBodyV1 → DropState → DropState × Option DropError) (importing : Importing)
    (quiet : (body : MessageBodyV1) (s : DropState) → (send body s).0.inventory ≡ s.inventory) where
  fail_if_ok :
      (o : Option Text) (s t : DropState) (es : List FetchEvent) (u : Unit {0})
      → fail_if o store_failed s ≡ (t, es, ok u)
      → (s ≡ t) × (es ≡ [])
  unfolding return fail
  fail_if_ok none s t es u h = (ground arith, ground arith)
  fail_if_ok (some e) s t es u h = absurd (ground arith)

  -- What a publishing that succeeds has done.
  pub record IsPublished (o : OfferV1) (s s' : DropState) (events : List FetchEvent)
      (p : PublishedBlob) : Type 0 where
    pub inventory_lem : s'.inventory ≡ (record_own importing.now o s).inventory
    pub hash_lem : p.hash ≡ o.blob_hash
    pub events_lem :
        events ≡ sent (offer o) ∷ sent (provider (new_provider_of importing o.blob_hash)) ∷ []

  finish_import_with-IsPublished :
      (hash : BlobHash) (name : Text) (size : ℕ) (media_type : Option Text)
      (metadata : List (Text × Text)) (s s' : DropState) (events : List FetchEvent)
      (p : PublishedBlob)
      → finish_import_with send importing hash name size media_type metadata s ≡ (s', events, ok p)
      → IsPublished (new_offer_of importing hash name size media_type metadata) s s' events p
  unfolding finish_import_with
  finish_import_with-IsPublished hash name size media_type metadata s s' events p h =
      let o = new_offer_of importing hash name size media_type metadata in
      let b1 = then-Bound _ _ s s' events p h in
      let b2 = then-Bound _ _ b1.between s' b1.after p b1.then_lem in
      let b3 = then-Bound _ _ b2.between s' b2.after p b2.then_lem in
      let b4 = then-Bound _ _ b3.between s' b3.after p b3.then_lem in
      let (kept, none1) =
        fail_if_ok (importing.set_tag hash) s b1.between b1.before b1.value b1.first in
      let (marked, none2) = modify-ok _ b1.between b2.between b2.before b2.value b2.first in
      let (same3, es3) = broadcast_ok send _ b2.between b3.between b3.before b3.value b3.first in
      let (same4, es4) = broadcast_ok send _ b3.between b4.between b4.before b4.value b4.first in
      let (last, value, none5) = return-ok _ p b4.between s' b4.after b4.then_lem in
      record {
        inventory_lem =
            ap (λ (t : DropState). t.inventory) (sym last ∙ sym same4)
            ∙ quiet _ b3.between
            ∙ ap (λ (t : DropState). t.inventory) (sym same3)
            ∙ quiet _ b2.between
            ∙ ap (λ (t : DropState). t.inventory)
                (sym marked ∙ ap (record_own importing.now o) (sym kept));
        hash_lem = ap (λ (q : PublishedBlob). q.hash) (sym value);
        events_lem =
            rw (b1.joined, none1, b2.joined, none2, b3.joined, es3, b4.joined, es4, none5) refl;
      }

  publish_bytes_with-IsPublished :
      (name : Text) (bytes : Bytes) (media_type : Option Text) (metadata : List (Text × Text))
      (s s' : DropState) (events : List FetchEvent) (p : PublishedBlob)
      → publish_bytes_with send importing name bytes media_type metadata s ≡ (s', events, ok p)
      → (validate_name name ≡ ok tt)
        × (importing.add_bytes bytes ≡ ok p.hash)
        × IsPublished
            (new_offer_of importing p.hash name
              (length bytes)
              (or_guess importing name media_type)
              metadata)
            s
            s'
            events
            p
  unfolding publish_bytes_with
  publish_bytes_with-IsPublished name bytes media_type metadata s s' events p h =
      let b1 = then-Bound _ _ s s' events p h in
      let b2 = bind-Bound _ _ b1.between s' b1.after p b1.then_lem in
      let (named, kept1, none1) =
        or_fail-ok (validate_name name) invalid_path b1.value s b1.between b1.before b1.first in
      let (added, kept2, none2) =
        or_fail-ok (importing.add_bytes bytes) import_failed b2.value b1.between b2.between
          b2.before b2.first in
      let o = λ (hash : BlobHash).
        new_offer_of importing hash name (length bytes) (or_guess importing name media_type)
          metadata in
      let done =
        finish_import_with-IsPublished b2.value name (length bytes)
          (or_guess importing name media_type) metadata b2.between s' b2.after p b2.then_lem in
      (
        named,
        added ∙ ap ok (sym done.hash_lem),
        subst (λ (hash : BlobHash). IsPublished (o hash) s s' events p) (sym done.hash_lem)
            (record {
              inventory_lem =
                  done.inventory_lem
                  ∙ ap (λ (t : DropState). (record_own importing.now (o b2.value) t).inventory)
                      (sym (kept1 ∙ kept2));
              hash_lem = done.hash_lem;
              events_lem = b1.joined ∙ rw (none1, b2.joined, none2) done.events_lem;
            }),
      )

  module _ (name : Text) (bytes : Bytes) (media_type : Option Text)
      (metadata : List (Text × Text)) where
    -- The offer of the bytes.
    abbrev pub offered : BlobHash → OfferV1
    offered hash =
        new_offer_of importing hash name (length bytes) (or_guess importing name media_type)
          metadata

    -- A publishing that succeeds stores the bytes, under a valid name, and sends one offer and then one
    -- provider announcement; and the session's own table, if it was valid and does not refuse the offer for
    -- its quota, has the blob as complete.
    pub publish_bytes_with-IsOwned :
        (s s' : DropState) (events : List FetchEvent) (p : PublishedBlob)
        → publish_bytes_with send importing name bytes media_type metadata s ≡ (s', events, ok p)
        → IsValid s.inventory
        → (record_offer_inner importing.now s.self_endpoint_id (offered p.hash) s.inventory).1
          ≢ quota_exceeded
        → (validate_name name ≡ ok tt)
          × (importing.add_bytes bytes ≡ ok p.hash)
          × (events
              ≡ sent (offer (offered p.hash))
                ∷ sent (provider (new_provider_of importing p.hash))
                ∷ [])
          × IsOwned p.hash s'
    publish_bytes_with-IsOwned s s' events p h v room =
        let (named, added, done) =
          publish_bytes_with-IsPublished name bytes media_type metadata s s' events p h in
        let own = record_own-IsOwned importing.now (offered p.hash) s v room in
        (
          named,
          added,
          done.events_lem,
          record {
            entry = own.entry;
            there = ap (λ (i : Inventory). get p.hash i.offers) done.inventory_lem ∙ own.there;
            is_complete = own.is_complete;
          },
        )

    -- A publishing that succeeds although the session's own table refuses the offer for its quota leaves the
    -- table as it was, while the offer and the provider announcement are sent all the same.
    pub publish_bytes_with_unrecorded :
        (s s' : DropState) (events : List FetchEvent) (p : PublishedBlob)
        → publish_bytes_with send importing name bytes media_type metadata s ≡ (s', events, ok p)
        → (record_offer_inner importing.now s.self_endpoint_id (offered p.hash) s.inventory).1
          ≡ quota_exceeded
        → (s'.inventory ≡ s.inventory)
          × (events
              ≡ sent (offer (offered p.hash))
                ∷ sent (provider (new_provider_of importing p.hash))
                ∷ [])
    publish_bytes_with_unrecorded s s' events p h full =
        let (named, added, done) =
          publish_bytes_with-IsPublished name bytes media_type metadata s s' events p h in
        (
          done.inventory_lem ∙ record_own_refused importing.now (offered p.hash) s full,
          done.events_lem,
        )
