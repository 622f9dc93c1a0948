-- ===== src/State/Resolve.antt =====
-- `find_offer`: an offer by its hash, a prefix of it, or a name.
use iroh_drop.Prelude.{
  ◌≡◌, ◌∙◌, ◌⊎◌, refl, sym, inl, inr, Bool, true, false, ◌||◌, none, some, List, [], ◌∷◌, arith,
  if◌then◌else◌, length, ap, ◌≤◌,
}
use iroh_drop.Text.{Text, text_key, text_eq}
use iroh_drop.Map.{get, contains, Distinct}
use iroh_drop.Map.Queue.{mem}
use iroh_drop.Error.{Result, ok, err}
use iroh_drop.Hash.{HexLower, HexFault, from_hex, matches_prefix}
use iroh_drop.Message.{BlobHash}
use iroh_drop.State.{OfferRecord, Inventory}

pub data ResolveOfferError : Type 0 where
  not_found : ResolveOfferError
  ambiguous : List BlobHash → ResolveOfferError

-- The hashes of the offers that satisfy a test.
unfoldable pub matching :
    (BlobHash → OfferRecord → Bool) → List (BlobHash × OfferRecord) → List BlobHash
matching p [] = []
matching p ((h, r) ∷ m) = let rest = matching p m in if p h r then h ∷ rest else rest

unfoldable pub is_named : Text → BlobHash → OfferRecord → Bool
is_named name h r = text_eq r.offer.name name || contains name r.aliases

-- The `match name_matches.len()`.
abbrev pub only_match : List BlobHash → Result ResolveOfferError BlobHash
only_match [] = err not_found
only_match (h ∷ []) = ok h
only_match (h ∷ k ∷ hs) = err (ambiguous (h ∷ k ∷ hs))

-- The `match prefix_matches.len()`: with no match the search goes on.
abbrev pub only_match_or :
    List BlobHash → Result ResolveOfferError BlobHash → Result ResolveOfferError BlobHash
only_match_or [] rest = rest
only_match_or (h ∷ []) rest = ok h
only_match_or (h ∷ k ∷ hs) rest = err (ambiguous (h ∷ k ∷ hs))

abbrev pub has_prefix : HexLower → Text → BlobHash → OfferRecord → Bool
has_prefix hex query h r = matches_prefix hex query h

unfoldable pub find_offer : HexLower → Text → Inventory → Result ResolveOfferError BlobHash
unfolding matching is_named
find_offer hex query inv = elim (from_hex hex query) [
  | ok hash ↦ ok hash
  | err _ ↦
      only_match_or (matching (has_prefix hex query) inv.offers)
        (only_match (matching (is_named query) inv.offers))
]

-- Whether the offer of a hash satisfies a test.
abbrev pub holds : (BlobHash → OfferRecord → Bool) → BlobHash → Inventory → Bool
holds p h inv = elim (get h inv.offers) [ none ↦ false | some r ↦ p h r ]

mem-matching :
    (p : BlobHash → OfferRecord → Bool) (h : BlobHash) (m : List (BlobHash × OfferRecord))
    → Distinct m
    → mem h (matching p m) ≡ elim (get h m) [ none ↦ false | some r ↦ p h r ]
unfolding matching mem get
mem-matching p h [] d = refl
mem-matching p h ((k, r) ∷ m) d = ground (arith, mem-matching p h m d.1)

-- `h` is the one offer that satisfies the test.
pub record IsOnly (p : BlobHash → OfferRecord → Bool) (h : BlobHash) (inv : Inventory)
    : Type 0 where
  pub one : holds p h inv ≡ true
  pub unique : (k : BlobHash) → holds p k inv ≡ true → k ≡ h

abbrev pub IsNone : (BlobHash → OfferRecord → Bool) → Inventory → Type 0
IsNone p inv = (k : BlobHash) → holds p k inv ≡ false

-- `hs` lists the offers that satisfy the test, and they are several.
pub record AreSeveral (p : BlobHash → OfferRecord → Bool) (hs : List BlobHash) (inv : Inventory)
    : Type 0 where
  pub several : 2 ≤ length hs
  pub all : (k : BlobHash) → mem k hs ≡ holds p k inv

-- What each result of `find_offer` says of the query.
abbrev pub Finds : HexLower → Text → Inventory → Result ResolveOfferError BlobHash → Type 0
Finds hex query inv (ok h) =
    (from_hex hex query ≡ ok h)
    ⊎ IsOnly (has_prefix hex query) h inv
    ⊎ (IsNone (has_prefix hex query) inv × IsOnly (is_named query) h inv)
Finds hex query inv (err not_found) =
    IsNone (has_prefix hex query) inv × IsNone (is_named query) inv
Finds hex query inv (err (ambiguous hs)) =
    AreSeveral (has_prefix hex query) hs inv
    ⊎ (IsNone (has_prefix hex query) inv × AreSeveral (is_named query) hs inv)

module _ (inv : Inventory) (d : Distinct inv.offers) (p : BlobHash → OfferRecord → Bool) where
  IsNone-of_nil : matching p inv.offers ≡ [] → IsNone p inv
  unfolding mem
  IsNone-of_nil e k = ground (arith, mem-matching p k inv.offers d)

  IsOnly-of_one : (h : BlobHash) → matching p inv.offers ≡ h ∷ [] → IsOnly p h inv
  unfolding mem
  IsOnly-of_one h e = record {
    one = ground (arith, mem-matching p h inv.offers d);
    unique = λ k t. ground (arith, mem-matching p k inv.offers d);
  }

  AreSeveral-of_more :
      (h k : BlobHash) (hs : List BlobHash)
      → matching p inv.offers ≡ h ∷ k ∷ hs
      → AreSeveral p (h ∷ k ∷ hs) inv
  AreSeveral-of_more h k hs e = record {
    several = omega arith;
    all = λ q. ap (mem q) (sym e) ∙ mem-matching p q inv.offers d;
  }

find_name :
    (hex : HexLower) (query : Text) (inv : Inventory)
    → Distinct inv.offers
    → IsNone (has_prefix hex query) inv
    → (hs : List BlobHash) → matching (is_named query) inv.offers ≡ hs
    → Finds hex query inv (only_match hs)
find_name hex query inv d n [] e = (n, IsNone-of_nil inv d (is_named query) e)
find_name hex query inv d n (h ∷ []) e = inr (inr (n, IsOnly-of_one inv d (is_named query) h e))
find_name hex query inv d n (h ∷ k ∷ hs) e =
    inr (n, AreSeveral-of_more inv d (is_named query) h k hs e)

find_prefix :
    (hex : HexLower) (query : Text) (inv : Inventory)
    → Distinct inv.offers
    → (hs : List BlobHash) → matching (has_prefix hex query) inv.offers ≡ hs
    → Finds hex query inv (only_match_or hs (only_match (matching (is_named query) inv.offers)))
find_prefix hex query inv d [] e =
    find_name hex query inv d (IsNone-of_nil inv d (has_prefix hex query) e) _ refl
find_prefix hex query inv d (h ∷ []) e = inr (inl (IsOnly-of_one inv d (has_prefix hex query) h e))
find_prefix hex query inv d (h ∷ k ∷ hs) e =
    inl (AreSeveral-of_more inv d (has_prefix hex query) h k hs e)

-- A lookup never picks one of several: a hash that it returns was written out, or is the only match;
-- otherwise it reports that nothing matches, or all that do.
pub find_offer_lem :
    (hex : HexLower) (query : Text) (inv : Inventory)
    → Distinct inv.offers
    → Finds hex query inv (find_offer hex query inv)
unfolding find_offer
find_offer_lem hex query inv d = parsed (from_hex hex query) refl
  where
    parsed :
        (r : Result HexFault BlobHash)
        → from_hex hex query ≡ r
        → Finds hex query inv (find_offer hex query inv)
    parsed (ok h) e = rw (e, find_offer) (inl e)
    parsed (err f) e = rw (e, find_offer) (find_prefix hex query inv d _ refl)
