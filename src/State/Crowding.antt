-- ===== src/State/Crowding.antt =====
-- The providers of a blob that many authors offer: `record_offer_inner` adds each, and no cap is enforced.
use iroh_drop.Prelude.{ℕ, ◌+◌, ◌≡◌, ◌∙◌, refl, ap, true, none, some, List, [], ◌∷◌, length}
use iroh_drop.Text.{text_key}
use iroh_drop.Map.{nat_key, get, get-put_self}
use iroh_drop.Map.Queue.{mem, Nodup}
use iroh_drop.Message.{OfferV1, EndpointId}
use iroh_drop.Provider.{ProviderSet, add}
use iroh_drop.Provider.Bounds.{add_all, length-add_all}
use iroh_drop.State.{
  OfferRecord, Inventory, merge_alias, providers_of, touch_offer, record_offer_inner,
}

-- The authors offer the same blob, one after the other.
unfoldable pub offer_by_all : ℕ → OfferV1 → List EndpointId → Inventory → Inventory
offer_by_all now o [] inv = inv
offer_by_all now o (author ∷ authors) inv =
    offer_by_all now o authors (record_offer_inner now author o inv).0

module _ (now : ℕ) (o : OfferV1) where
  -- A repeat keeps a record and adds its author to the providers.
  known_again :
      (author : EndpointId) (inv : Inventory) (r : OfferRecord)
      → get o.blob_hash inv.offers ≡ some r
      → let inv' = (record_offer_inner now author o inv).0 in
        (get o.blob_hash inv'.offers ≡ some (merge_alias o.name r))
        × (providers_of o.blob_hash inv' ≡ add author true (providers_of o.blob_hash inv))
  unfolding record_offer_inner touch_offer providers_of
  known_again author inv r there =
      let added = add author true (providers_of o.blob_hash inv) in
      (
        rw (there, record_offer_inner) (get-put_self o.blob_hash (merge_alias o.name r) inv.offers),
        rw (there, record_offer_inner)
            (rw (get-put_self o.blob_hash added inv.providers, providers_of) refl),
      )

  providers_of-offer_by_all :
      (authors : List EndpointId) (inv : Inventory) (r : OfferRecord)
      → get o.blob_hash inv.offers ≡ some r
      → providers_of o.blob_hash (offer_by_all now o authors inv)
        ≡ add_all authors (providers_of o.blob_hash inv)
  unfolding offer_by_all add_all
  providers_of-offer_by_all [] inv r there = refl
  providers_of-offer_by_all (author ∷ authors) inv r there =
      let inv' = (record_offer_inner now author o inv).0 in
      let (still, added) = known_again author inv r there in
      providers_of-offer_by_all authors inv' (merge_alias o.name r) still
      ∙ ap (add_all authors) added

  -- However many authors offer a blob that the table already has, each is recorded among its providers,
  -- if it was not there: nothing bounds their number.
  pub length-offer_by_all :
      (authors : List EndpointId) (inv : Inventory) (r : OfferRecord)
      → get o.blob_hash inv.offers ≡ some r
      → Nodup authors
      → ((q : EndpointId)
          → mem q authors ≡ true
          → get q (providers_of o.blob_hash inv).providers ≡ none)
      → length (providers_of o.blob_hash (offer_by_all now o authors inv)).providers
        ≡ length (providers_of o.blob_hash inv).providers + length authors
  length-offer_by_all authors inv r there distinct new =
      ap (λ (s : ProviderSet). length s.providers) (providers_of-offer_by_all authors inv r there)
      ∙ length-add_all authors (providers_of o.blob_hash inv) distinct new
