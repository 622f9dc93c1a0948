-- ===== src/Map.antt =====
-- Hash maps and hash sets (`std::collections::{HashMap, HashSet}`) as association lists, whose
-- order nothing observes. A set is a map into `Unit`.
pub mod Queue
use iroh_drop.Prelude.{
  ℕ, ◌+◌, ◌≤◌, ◌≡◌, refl, inl, inr, ap, Option-cases, Bool, true, false, Option, none, some, List,
  [], ◌∷◌, ite, arith, length, ℕ_discrete,
}

-- Key equality, as an instance.
pub record Key {ℓ} (K : Type ℓ) : Type ℓ where
  pub dec : Discrete K

instance abbrev pub nat_key : Key ℕ
nat_key = record { dec = ℕ_discrete }

unfoldable pub pair_dec {ℓ} : {A B : Type ℓ} → Discrete A → Discrete B → Discrete (A × B)
pair_dec da db x y = elim (da x.0 y.0) [
  | no p ↦ no (λ e. p (ap (λ t. t.0) e))
  | yes p ↦ elim (db x.1 y.1) [
    | no q ↦ no (λ e. q (ap (λ t. t.1) e))
    | yes q ↦ yes (λ i. (p i, q i))
  ]
]

instance unfoldable pub pair_key {ℓ} : {A B : Type ℓ} ⦃a : Key A⦄ ⦃b : Key B⦄ → Key (A × B)
unfolding pair_dec
pair_key ⦃a⦄ ⦃b⦄ = record { dec = pair_dec a.dec b.dec }

abbrev pub is_some {ℓ} : {A : Type ℓ} → Option A → Bool
is_some none = false
is_some (some a) = true

module _ {ℓ} {K V : Type ℓ} ⦃key : Key K⦄ where
  unfoldable pub get : K → List (K × V) → Option V
  get k [] = none
  get k ((j, v) ∷ m) = ite (key.dec j k) (some v) (get k m)

  abbrev pub contains : K → List (K × V) → Bool
  contains k m = is_some (get k m)

  -- `insert`: replaces the value of a key that is there.
  unfoldable pub put : K → V → List (K × V) → List (K × V)
  put k v [] = (k, v) ∷ []
  put k v ((j, w) ∷ m) = ite (key.dec j k) ((k, v) ∷ m) ((j, w) ∷ put k v m)

  unfoldable pub remove : K → List (K × V) → List (K × V)
  remove k [] = []
  remove k ((j, v) ∷ m) = let rest = remove k m in ite (key.dec j k) rest ((j, v) ∷ rest)

  -- No key stands twice.
  abbrev pub Distinct : List (K × V) → Type ℓ
  Distinct [] = Unit
  Distinct ((k, v) ∷ m) = (get k m ≡ none) × Distinct m

  pub get-put :
      (k q : K) (v : V) (m : List (K × V))
      → get q (put k v m) ≡ ite (key.dec k q) (some v) (get q m)
  unfolding get put
  get-put k q v [] = refl
  get-put k q v ((j, w) ∷ m) = ground (arith, get-put k q v m)

  pub get-put_self : (k : K) (v : V) (m : List (K × V)) → get k (put k v m) ≡ some v
  get-put_self k v m = ground (arith, get-put k k v m)

  pub get-remove :
      (k q : K) (m : List (K × V)) → get q (remove k m) ≡ ite (key.dec k q) none (get q m)
  unfolding get remove
  get-remove k q [] = ground arith
  get-remove k q ((j, w) ∷ m) = ground (arith, get-remove k q m)

  pub put-Distinct : (k : K) (v : V) (m : List (K × V)) → Distinct m → Distinct (put k v m)
  unfolding get put
  put-Distinct k v [] d = (refl, tt)
  put-Distinct k v ((j, w) ∷ m) d = ground (arith, get-put k j v m, put-Distinct k v m)

  pub remove-Distinct : (k : K) (m : List (K × V)) → Distinct m → Distinct (remove k m)
  unfolding get remove
  remove-Distinct k [] d = tt
  remove-Distinct k ((j, w) ∷ m) d = ground (arith, get-remove k j m, remove-Distinct k m)

  pub length-put :
      (k : K) (v : V) (m : List (K × V)) → get k m ≡ none → length (put k v m) ≡ length m + 1
  unfolding get put
  length-put k v [] h = refl
  length-put k v ((j, w) ∷ m) h = ground (arith, length-put k v m)

  pub length-put_present :
      (k : K) (v w : V) (m : List (K × V)) → get k m ≡ some w → length (put k v m) ≡ length m
  unfolding get put
  length-put_present k v w [] h = ground arith
  length-put_present k v w ((j, u) ∷ m) h = ground (arith, length-put_present k v w m)

  pub length-put-le : (k : K) (v : V) (m : List (K × V)) → length (put k v m) ≤ length m + 1
  length-put-le k v m = elim (Option-cases (get k m)) [
    | inl h ↦ omega (arith, length-put k v m h)
    | inr (w, h) ↦ omega (arith, length-put_present k v w m h)
  ]

  pub remove_absent : (k : K) (m : List (K × V)) → get k m ≡ none → remove k m ≡ m
  unfolding get remove
  remove_absent k [] h = refl
  remove_absent k ((j, u) ∷ m) h = ground (arith, remove_absent k m)

  pub length-remove :
      (k : K) (w : V) (m : List (K × V))
      → Distinct m
      → get k m ≡ some w
      → length (remove k m) + 1 ≡ length m
  unfolding get remove
  length-remove k w [] d h = ground arith
  length-remove k w ((j, u) ∷ m) d h = ground (arith, length-remove k w m, remove_absent k m)

pub ruleset map_laws = (get-put, get-remove)
