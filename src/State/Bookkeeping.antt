-- ===== src/State/Bookkeeping.antt =====
-- The invariant of the inventory of offers, and how the eviction keeps it.
use iroh_drop.Prelude.{
  ℕ, ◌+◌, ◌-◌, ◌≤◌, ◌≡◌, refl, inl, inr, true, none, some, List, [], ◌∷◌, ◌++◌, arith, length, ap,
  ltb, if◌then◌else◌, Option-cases, Bool-cases, ite, ◌==◌,
}
use iroh_drop.Text.{text_key}
use iroh_drop.Map.{
  nat_key, get, put, remove, contains, Distinct, get-put, get-remove, length-remove,
}
use iroh_drop.Map.Queue.{mem, Agrees, Agrees-nil, Agrees-pop, Agrees-front}
use iroh_drop.Message.{BlobHash, EndpointId}
use iroh_drop.State.{
  OfferRecord, Inventory, no_offers, count_or_zero, release, forget, enforce_loop,
  enforce_offer_cap, max_offers, max_offers_per_author, max_aliases_per_offer,
}

-- 1 for a record of the author, else 0.
abbrev pub owned : EndpointId → OfferRecord → ℕ
owned a r = if r.first_seen_from == a then 1 else 0

-- How many offers of the table an author occupies.
unfoldable pub count_by : EndpointId → List (BlobHash × OfferRecord) → ℕ
count_by a [] = 0
count_by a ((h, r) ∷ m) = owned a r + count_by a m

pub count_by-put :
    (a : EndpointId) (h : BlobHash) (r : OfferRecord) (m : List (BlobHash × OfferRecord))
    → get h m ≡ none
    → count_by a (put h r m) ≡ count_by a m + owned a r
unfolding get put count_by
count_by-put a h r [] e = omega arith
count_by-put a h r ((j, s) ∷ m) e = ground (arith, count_by-put a h r m)

pub count_by-put_same :
    (a : EndpointId) (h : BlobHash) (r s : OfferRecord) (m : List (BlobHash × OfferRecord))
    → get h m ≡ some s
    → r.first_seen_from ≡ s.first_seen_from
    → count_by a (put h r m) ≡ count_by a m
unfolding get put count_by
count_by-put_same a h r s [] e f = ground arith
count_by-put_same a h r s ((j, t) ∷ m) e f = ground (arith, count_by-put_same a h r s m)

count_by-remove_absent :
    (a : EndpointId) (h : BlobHash) (m : List (BlobHash × OfferRecord))
    → get h m ≡ none
    → count_by a (remove h m) ≡ count_by a m
unfolding get remove count_by
count_by-remove_absent a h [] e = refl
count_by-remove_absent a h ((j, s) ∷ m) e = ground (arith, count_by-remove_absent a h m)

pub count_by-remove :
    (a : EndpointId) (h : BlobHash) (r : OfferRecord) (m : List (BlobHash × OfferRecord))
    → Distinct m
    → get h m ≡ some r
    → count_by a (remove h m) + owned a r ≡ count_by a m
unfolding get remove count_by
count_by-remove a h r [] d e = ground arith
count_by-remove a h r ((j, s) ∷ m) d e =
    ground (arith, count_by-remove a h r m, count_by-remove_absent a h m)

-- What holds of one offer's record.
pub record IsRecord (h : BlobHash) (r : OfferRecord) : Type 0 where
  pub keyed : r.offer.blob_hash ≡ h
  pub named : contains r.offer.name r.aliases ≡ true
  pub few_aliases : length r.aliases ≤ max_aliases_per_offer

-- Everything but the bound on the table, for the queue `order`.
pub record IsConsistent (inv : Inventory) (order : List BlobHash) : Type 0 where
  pub agrees : Agrees inv.offers order
  pub counted :
      (a : EndpointId) → count_or_zero (get a inv.offers_per_author) ≡ count_by a inv.offers
  pub quota : (a : EndpointId) → count_by a inv.offers ≤ max_offers_per_author
  pub records : (h : BlobHash) (r : OfferRecord) → get h inv.offers ≡ some r → IsRecord h r

pub record IsValid (inv : Inventory) : Type 0 where
  pub consistent : IsConsistent inv inv.offer_order
  pub bounded : length inv.offers ≤ max_offers

pub no_offers-IsValid : IsValid no_offers
unfolding get count_by
no_offers-IsValid = record {
  consistent = record {
    agrees = Agrees-nil;
    counted = λ a. refl;
    quota = λ a. omega arith;
    records = λ h r e. ground arith;
  };
  bounded = omega arith;
}

get-release :
    (author a : EndpointId) (counts : List (EndpointId × ℕ))
    → count_or_zero (get a (release author counts))
      ≡ (if author == a then count_or_zero (get a counts) - 1 else count_or_zero (get a counts))
unfolding release
get-release author a counts = elim (Option-cases (get author counts)) [
  | inl h ↦ ground arith
  | inr (n, h) ↦ ground (arith, get-remove author a counts, get-put author a (n - 1) counts)
]

-- Forgetting the front of the queue.
record Forgotten (h : BlobHash) (order : List BlobHash) (inv : Inventory)
    (r : Inventory × List BlobHash) : Type 0 where
  consistent : IsConsistent r.0 order
  smaller : length r.0.offers + 1 ≡ length inv.offers
  dropped : r.1 ≡ h ∷ []
  kept : (q : BlobHash) → get q r.0.offers ≡ ite (text_key.dec h q) none (get q inv.offers)

forget-Forgotten :
    (h : BlobHash) (order : List BlobHash) (inv : Inventory)
    → IsConsistent inv (h ∷ order)
    → Forgotten h order inv (forget h inv)
unfolding forget
forget-Forgotten h order inv c =
    let m = inv.offers in
    let (r, there) = Agrees-front h m order c.agrees in
    let away = λ (a : EndpointId). count_by-remove a h r m c.agrees.distinct there in
    rw (there, forget)
      (record {
        consistent = record {
          agrees = Agrees-pop h m order c.agrees;
          counted = λ a.
              ground
                (arith, get-release r.first_seen_from a inv.offers_per_author, away a, c.counted a);
          quota = λ a. omega (arith, away a, c.quota a);
          records = λ q s e. c.records q s (ground (arith, get-remove h q m));
        };
        smaller = length-remove h r m c.agrees.distinct there;
        dropped = refl;
        kept = λ q. get-remove h q m;
      })

-- The eviction: the table fits, what was dropped is gone, and the rest is as it was.
pub record Enforced (inv : Inventory) (order : List BlobHash) (r : Inventory × List BlobHash)
    : Type 0 where
  pub consistent : IsConsistent r.0 r.0.offer_order
  pub bounded : length r.0.offers ≤ max_offers
  pub kept : (q : BlobHash) → get q r.0.offers ≡ (if mem q r.1 then none else get q inv.offers)
  pub fewest : length r.1 ≡ length inv.offers - max_offers
  pub oldest : r.1 ++ r.0.offer_order ≡ order

enforce_loop-Enforced :
    (order : List BlobHash) (inv : Inventory)
    → IsConsistent inv order
    → Enforced inv order (enforce_loop order inv)
unfolding enforce_loop mem
enforce_loop-Enforced [] inv c = record {
  consistent = record {
    agrees = c.agrees;
    counted = c.counted;
    quota = c.quota;
    records = c.records;
  };
  bounded = omega (arith, c.agrees.sizes);
  kept = λ q. refl;
  fewest = omega (arith, c.agrees.sizes);
  oldest = refl;
}
enforce_loop-Enforced (h ∷ order) inv c =
    let f = forget-Forgotten h order inv c in
    let ih = enforce_loop-Enforced order (forget h inv).0 f.consistent in
    elim (Bool-cases (ltb max_offers (length inv.offers))) [
      | inl over ↦
          rw (over, enforce_loop)
            (record {
              consistent = ih.consistent;
              bounded = ih.bounded;
              kept = λ q. rw f.dropped (ground (arith, ih.kept q, f.kept q));
              fewest = rw f.dropped (ground (arith, ih.fewest, f.smaller));
              oldest = rw f.dropped (ap (◌∷◌ h) ih.oldest);
            })
      | inr fits ↦
          rw (fits, enforce_loop)
            (record {
              consistent = record {
                agrees = c.agrees;
                counted = c.counted;
                quota = c.quota;
                records = c.records;
              };
              bounded = ground arith;
              kept = λ q. refl;
              fewest = ground arith;
              oldest = refl;
            })
    ]

pub enforce_offer_cap-Enforced :
    (inv : Inventory)
    → IsConsistent inv inv.offer_order
    → Enforced inv inv.offer_order (enforce_offer_cap inv)
unfolding enforce_offer_cap
enforce_offer_cap-Enforced inv c = enforce_loop-Enforced inv.offer_order inv c
