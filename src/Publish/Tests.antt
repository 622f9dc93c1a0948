-- ===== src/Publish/Tests.antt =====
-- Slides that are published, by a session that has room for them and by one that has none.
use iroh_drop.Prelude.{◌≡◌, ◌≢◌, refl, Option, none, List, [], ◌∷◌, arith, ℕ_discrete}
use iroh_drop.Text.{Text, Bytes, codes, text_discrete}
use iroh_drop.Map.{get, put, remove}
use iroh_drop.Map.Queue.{erase, trim}
use iroh_drop.Error.{Result, ok, err, empty_name, invalid_name}
use iroh_drop.Message.{MessageBodyV1, offer, provider}
use iroh_drop.Name.{validate_name}
use iroh_drop.Policy.{default_policy}
use iroh_drop.Provider.{add}
use iroh_drop.State
use iroh_drop.State.{
  DropState, Inventory, new_offer, quota_exceeded, author_has_quota, providers_of, touch_offer,
  first_record, enforce_offer_cap, enforce_loop, note_peer, record_offer, record_offer_bounded,
  record_offer_inner,
}
use iroh_drop.State.Bookkeeping.{IsValid, no_offers-IsValid}
use iroh_drop.Run.{◌>>=◌, ◌>>◌, return, fail, modify}
use iroh_drop.Fetch.Effect.{DropError, invalid_path, FetchEvent, sent, broadcast, put_status}
use iroh_drop.Publish.{
  PublishedBlob, Importing, new_provider_of, record_own, finish_import_with, publish_bytes_with,
}
use iroh_drop.Publish.Offered.{
  IsOwned, offered, publish_bytes_with-IsOwned, publish_bytes_with_unrecorded,
}

program : Unit {0}
unfolding get put remove erase trim ℕ_discrete text_discrete default_policy validate_name add
    State.new record_offer record_offer_bounded record_offer_inner author_has_quota providers_of
    touch_offer first_record enforce_offer_cap enforce_loop note_peer ◌>>=◌ ◌>>◌ return fail modify
    put_status broadcast record_own finish_import_with publish_bytes_with
program = tt

abbrev importing : Importing
importing = record {
  add_bytes = λ b. ok (6 ∷ b);
  guess = λ name. none;
  set_tag = λ hash. none;
  now = 60;
  created_ms = 200;
  announced_ms = 201;
}

unfoldable send : MessageBodyV1 → DropState → DropState × Option DropError
send body s = (s, none)

send_quietly : (body : MessageBodyV1) (s : DropState) → (send body s).0.inventory ≡ s.inventory
unfolding send
send_quietly body s = refl

abbrev slides : Text
slides = codes "slides.pdf"

abbrev content : Bytes
content = 1 ∷ 2 ∷ 3 ∷ []

unfoldable before : DropState
unfolding program
before = State.new (7 ∷ []) 5 (default_policy 4)

unfoldable full : DropState
unfolding program before
full = record before { inventory = record before.inventory { offers_per_author = (5, 512) ∷ [] } }

abbrev Published : Type 0
Published = DropState × List FetchEvent × Result DropError PublishedBlob

unfoldable published : Published
unfolding program before send
published = publish_bytes_with send importing slides content none [] before

unfoldable unrecorded : Published
unfolding program before full send
unrecorded = publish_bytes_with send importing slides content none [] full

abbrev blob : PublishedBlob
blob = record { hash = 6 ∷ content; name = slides; size = 3; media_type = none }

a_name_is_needed :
    (publish_bytes_with send importing [] content none [] before).2
    ≡ err (invalid_path (invalid_name empty_name))
unfolding program before send
a_name_is_needed = refl

before-IsValid : IsValid before.inventory
unfolding program before
before-IsValid = no_offers-IsValid

there_is_room :
    (record_offer_inner 60 5
      (offered send importing send_quietly slides content none [] blob.hash)
      before.inventory).1
    ≢ quota_exceeded
unfolding program before
there_is_room e = ground arith

publish_bytes_with-IsOwned_example :
    (validate_name slides ≡ ok tt)
    × (importing.add_bytes content ≡ ok blob.hash)
    × (published.1
        ≡ sent (offer (offered send importing send_quietly slides content none [] blob.hash))
          ∷ sent (provider (new_provider_of importing blob.hash))
          ∷ [])
    × IsOwned blob.hash published.0
unfolding program before send published
publish_bytes_with-IsOwned_example =
    publish_bytes_with-IsOwned send importing send_quietly slides content none [] before published.0
      published.1 blob refl before-IsValid there_is_room

publish_bytes_with_unrecorded_example :
    (unrecorded.0.inventory ≡ full.inventory)
    × (unrecorded.1
        ≡ sent (offer (offered send importing send_quietly slides content none [] blob.hash))
          ∷ sent (provider (new_provider_of importing blob.hash))
          ∷ [])
unfolding program before full send unrecorded
publish_bytes_with_unrecorded_example =
    publish_bytes_with_unrecorded send importing send_quietly slides content none [] full
      unrecorded.0 unrecorded.1 blob refl refl
