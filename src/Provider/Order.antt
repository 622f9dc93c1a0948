-- ===== src/Provider/Order.antt =====
-- Who is tried, and in what order.
use Prim.Native.Nat.{Ordering}
use iroh_drop.Prelude.{
  ◌≤◌, ◌≡◌, ◌∙◌, refl, inl, inr, Bool, true, false, not, ◌&&◌, Option, none, some, List, [], ◌∷◌,
  arith, map, if◌then◌else◌, Bool-cases, All, ◌==◌,
}
use iroh_drop.Map.{nat_key, get, Distinct}
use iroh_drop.Map.Queue.{mem, Nodup}
use iroh_drop.Sort.{
  sort_by, mem-sort_by, Nodup-sort_by, sort_by-Sorted, Sorted, IsTotal, is_gt, insert_by,
}
use iroh_drop.Message.{EndpointId}
use iroh_drop.Provider.{
  ProviderInfo, ProviderSet, entry, is_original, ordered, live_providers, better_first, without,
}

-- Whether a peer is known and has not withdrawn.
abbrev pub is_live : Option ProviderInfo → Bool
is_live none = false
is_live (some info) = not info.withdrawn

mem-live_providers :
    (q : EndpointId) (m : List (EndpointId × ProviderInfo))
    → Distinct m
    → mem q (map (λ e. e.0) (live_providers m)) ≡ is_live (get q m)
unfolding mem get live_providers
mem-live_providers q [] d = refl
mem-live_providers q ((id, info) ∷ m) d = ground (arith, mem-live_providers q m d.1, d.0)

live_providers-Nodup :
    (m : List (EndpointId × ProviderInfo)) → Distinct m → Nodup (map (λ e. e.0) (live_providers m))
unfolding mem get live_providers
live_providers-Nodup [] d = tt
live_providers-Nodup ((id, info) ∷ m) d =
    ground (arith, live_providers-Nodup m d.1, mem-live_providers id m d.1, d.0)

-- The peers that are tried are exactly the known ones that have not withdrawn, each once.
pub mem-ordered :
    (q : EndpointId) (s : ProviderSet)
    → Distinct s.providers
    → (mem q (ordered s) ≡ is_live (get q s.providers)) × Nodup (ordered s)
unfolding ordered
mem-ordered q s d = (
  mem-sort_by (better_first s.original) (λ e. e.0) q (live_providers s.providers)
      ∙ mem-live_providers q s.providers d,
  Nodup-sort_by (better_first s.original) (λ e. e.0) (live_providers s.providers)
      (live_providers-Nodup s.providers d),
)

better_first-IsTotal : (original : Option EndpointId) → IsTotal (better_first original)
unfolding better_first
better_first-IsTotal original = record {
  trans = λ x y z p q. ground arith;
  total = λ x y p. ground arith;
}

-- `a` is tried no later than `b`: by fewest failures, then the original offerer, then by id.
pub record ComesBefore (s : ProviderSet) (a b : EndpointId) : Type 0 where
  pub failures : (entry a s).failures ≤ (entry b s).failures
  pub original :
      (entry a s).failures ≡ (entry b s).failures → is_original b s ≡ true → is_original a s ≡ true
  pub ids : (entry a s).failures ≡ (entry b s).failures → is_original a s ≡ is_original b s → a ≤ b

abbrev pub InOrder : ProviderSet → List EndpointId → Type 0
InOrder s [] = Unit
InOrder s (a ∷ ids) = All (λ b. ComesBefore s a b) ids × InOrder s ids

abbrev Entry : Type 0
Entry = EndpointId × ProviderInfo

abbrev Stored : ProviderSet → Entry → Type 0
Stored s e = get e.0 s.providers ≡ some e.1

comes_before :
    (s : ProviderSet) (a b : Entry)
    → Stored s a
    → Stored s b
    → is_gt (better_first s.original a b) ≡ false
    → ComesBefore s a.0 b.0
unfolding better_first entry
comes_before s a b p q h = record {
  failures = ground arith;
  original = λ e o. ground arith;
  ids = λ e o. ground arith;
}

All-insert_by :
    (P : Entry → Type 0) (cmp : Entry → Entry → Ordering) (x : Entry) (ys : List Entry)
    → P x
    → All P ys
    → All P (insert_by cmp x ys)
unfolding insert_by
All-insert_by P cmp x [] p a = (p, tt)
All-insert_by P cmp x (y ∷ ys) p a = elim (Bool-cases (is_gt (cmp x y))) [
  | inl gt ↦ rw (gt, insert_by) (a.0, All-insert_by P cmp x ys p a.1)
  | inr le ↦ rw (le, insert_by) (p, a)
]

All-sort_by :
    (P : Entry → Type 0) (cmp : Entry → Entry → Ordering) (xs : List Entry)
    → All P xs
    → All P (sort_by cmp xs)
unfolding sort_by
All-sort_by P cmp [] a = tt
All-sort_by P cmp (x ∷ xs) a = All-insert_by P cmp x (sort_by cmp xs) a.0 (All-sort_by P cmp xs a.1)

-- The entries of a map are what it maps their keys to.
Stored-cons :
    (e : Entry) (m : List Entry) (xs : List Entry)
    → get e.0 m ≡ none
    → All (λ x. get x.0 m ≡ some x.1) xs
    → All (λ x. get x.0 (e ∷ m) ≡ some x.1) xs
unfolding get
Stored-cons e m [] h a = tt
Stored-cons e m (x ∷ xs) h a = (ground (arith, a.0), Stored-cons e m xs h a.1)

All-unless {ℓ} :
    {A : Type ℓ} (P : A → Type 0) (b : Bool) (x : A) (xs : List A)
    → P x
    → All P xs
    → All P (if b then xs else x ∷ xs)
All-unless P true x xs p a = a
All-unless P false x xs p a = (p, a)

live-Stored : (m : List Entry) → Distinct m → All (λ x. get x.0 m ≡ some x.1) (live_providers m)
unfolding live_providers get
live-Stored [] d = tt
live-Stored ((id, info) ∷ m) d =
    All-unless (λ x. get x.0 ((id, info) ∷ m) ≡ some x.1) info.withdrawn (id, info)
      (live_providers m) (ground arith)
      (Stored-cons (id, info) m (live_providers m) d.0 (live-Stored m d.1))

All-ComesBefore :
    (s : ProviderSet) (a : Entry) (xs : List Entry)
    → Stored s a
    → All (Stored s) xs
    → All (λ b. is_gt (better_first s.original a b) ≡ false) xs
    → All (λ b. ComesBefore s a.0 b) (map (λ e. e.0) xs)
All-ComesBefore s a [] p q h = tt
All-ComesBefore s a (b ∷ xs) p q h =
    (comes_before s a b p q.0 h.0, All-ComesBefore s a xs p q.1 h.1)

Sorted-InOrder :
    (s : ProviderSet) (xs : List Entry)
    → All (Stored s) xs
    → Sorted (better_first s.original) xs
    → InOrder s (map (λ e. e.0) xs)
Sorted-InOrder s [] q h = tt
Sorted-InOrder s (a ∷ xs) q h = (All-ComesBefore s a xs q.0 q.1 h.0, Sorted-InOrder s xs q.1 h.1)

-- The list is in order of failures, then the original offerer, then ids.
pub ordered-InOrder : (s : ProviderSet) → Distinct s.providers → InOrder s (ordered s)
unfolding ordered
ordered-InOrder s d =
    let live = live_providers s.providers in
    Sorted-InOrder s (sort_by (better_first s.original) live)
      (All-sort_by (Stored s) (better_first s.original) live (live-Stored s.providers d))
      (sort_by-Sorted (better_first s.original) (better_first-IsTotal s.original) live)

-- Leaving one peer out keeps every other one.
pub mem-without :
    (q id : EndpointId) (ids : List EndpointId)
    → mem q (without id ids) ≡ ((not (q == id)) && mem q ids)
unfolding mem without
mem-without q id [] = ground arith
mem-without q id (p ∷ ids) = ground (arith, mem-without q id ids)
