-- ===== src/State/Tests.antt =====
-- Runs of the offer table, and the theorems at concrete states.
use iroh_drop.Prelude.{
  ℕ, zero, suc, ◌+◌, ◌≡◌, ◌↔◌, refl, true, false, none, List, [], ◌∷◌, arith, length, ℕ_discrete,
}
use iroh_drop.Text.{text_key, codes, text_discrete}
use iroh_drop.Map.{nat_key, get, put, remove, contains}
use iroh_drop.Map.Queue.{mem, erase, trim}
use iroh_drop.Message.{OfferV1}
use iroh_drop.Provider.{add}
use iroh_drop.Hash.{from_hex, to_hex, matches_prefix}
use iroh_drop.Hash.Digits.{hex_digits, encode, decode}
use iroh_drop.State.{
  Peers, Inventory, no_offers, new_offer, known, quota_exceeded, note_peer, record_offer_inner,
  author_has_quota, providers_of, touch_offer, merge_alias, first_record, enforce_offer_cap,
  enforce_loop,
}
use iroh_drop.State.Bookkeeping.{IsValid, no_offers-IsValid, count_by}
use iroh_drop.State.Recording.{
  record_offer_inner-IsValid, record_offer_inner_known, record_offer_inner_refused,
  record_offer_inner_unchanged, record_offer_inner_new, NewlyRecorded,
}
use iroh_drop.State.Crowding.{offer_by_all, length-offer_by_all}
use iroh_drop.State.Resolve.{Finds, find_offer, find_offer_lem, matching, is_named}

program : Unit {0}
unfolding get put remove erase trim note_peer record_offer_inner author_has_quota providers_of
    touch_offer merge_alias first_record enforce_offer_cap enforce_loop add ℕ_discrete text_discrete
    find_offer matching is_named from_hex to_hex matches_prefix hex_digits encode decode
program = tt

abbrev offer : OfferV1
offer = record {
  blob_hash = 0xab ∷ 0xcd ∷ [];
  name = codes "a.txt";
  size = 3;
  media_type = none;
  created_at_ms = none;
  metadata = [];
}

abbrev other : OfferV1
other = record offer { blob_hash = 0xab ∷ 0xce ∷ []; name = codes "b.txt" }

-- Author 9 has offered one file.
unfoldable one : Inventory
one = (record_offer_inner 1 9 offer no_offers).0

one-IsValid : IsValid one
unfolding one
one-IsValid = record_offer_inner-IsValid 1 9 offer no_offers no_offers-IsValid

other_is_new : (record_offer_inner 2 9 other no_offers).1 ≡ new_offer []
unfolding program
other_is_new = refl

record_offer_inner-IsValid_example : IsValid (record_offer_inner 2 9 other one).0
record_offer_inner-IsValid_example = record_offer_inner-IsValid 2 9 other one one-IsValid

record_offer_inner_known_example :
    ((record_offer_inner 2 9 other one).1 ≡ known) ↔ (contains other.blob_hash one.offers ≡ true)
record_offer_inner_known_example = record_offer_inner_known 2 9 other one

record_offer_inner_refused_example :
    ((record_offer_inner 2 9 other one).1 ≡ quota_exceeded)
    ↔ ((contains other.blob_hash one.offers ≡ false) × (count_by 9 one.offers ≡ 512))
record_offer_inner_refused_example = record_offer_inner_refused 2 9 other one one-IsValid

record_offer_inner_new_example :
    NewlyRecorded 2 9 other no_offers [] (record_offer_inner 2 9 other no_offers).0
record_offer_inner_new_example =
    record_offer_inner_new 2 9 other no_offers no_offers-IsValid [] other_is_new

-- The counters of an author at the limit.
abbrev at_quota : Inventory
at_quota = record no_offers { offers_per_author = (9, 512) ∷ [] }

over_quota : (record_offer_inner 2 9 other at_quota).1 ≡ quota_exceeded
unfolding program
over_quota = refl

record_offer_inner_unchanged_example : (record_offer_inner 2 9 other at_quota).0 ≡ at_quota
record_offer_inner_unchanged_example = record_offer_inner_unchanged 2 9 other at_quota over_quota

unfoldable below : ℕ → List ℕ
below zero = []
below (suc n) = n ∷ below n

length-below : (n : ℕ) → length (below n) ≡ n
unfolding below
length-below zero = refl
length-below (suc n) = omega (arith, length-below n)

-- Peers 0 to 1023 in the queue, the highest first out.
abbrev crowd : Peers
crowd = record { known_peers = (1023, tt) ∷ []; peer_order = 1023 ∷ below 1023 }

stranger : contains 5000 crowd.known_peers ≡ false
unfolding program
stranger = refl

-- "ab" is a prefix of the only offer's hash.
short_prefix :
    find_offer hex_digits (codes " AB ") (record_offer_inner 2 9 other no_offers).0
    ≡ iroh_drop.Error.ok (0xab ∷ 0xce ∷ [])
unfolding program
short_prefix = refl

resolves_ab : Finds hex_digits (codes "ab") one (find_offer hex_digits (codes "ab") one)
resolves_ab = find_offer_lem hex_digits (codes "ab") one one-IsValid.consistent.agrees.distinct

abbrev repeaters : List ℕ
repeaters = 3 ∷ 4 ∷ 5 ∷ []

repeaters_are_new :
    (q : ℕ) → mem q repeaters ≡ true → get q (providers_of offer.blob_hash one).providers ≡ none
unfolding program one mem
repeaters_are_new q h = ground arith

length-offer_by_all_example :
    length (providers_of offer.blob_hash (offer_by_all 2 offer repeaters one)).providers
    ≡ length (providers_of offer.blob_hash one).providers + 3
unfolding program one mem
length-offer_by_all_example =
    length-offer_by_all 2 offer repeaters one (first_record 1 9 offer) refl
      (refl, (refl, (refl, tt))) repeaters_are_new
