-- ===== src/Sort.antt =====
-- `slice::sort_by` of Rust's standard library, a stable sort, as insertion; comparisons in
-- `std::cmp::Ordering`.
use Prim.Native.Nat.{Ordering}
use iroh_drop.Prelude.{
  ◌+◌, ◌≡◌, refl, inl, inr, Bool, true, false, List, [], ◌∷◌, arith, length, map, All, Bool-cases,
  ◌∙◌,
}
use iroh_drop.Map.{Key}
use iroh_drop.Map.Queue.{mem, Nodup}

abbrev pub cmp_reverse : Ordering → Ordering
cmp_reverse Ordering.lt = Ordering.gt
cmp_reverse Ordering.eq = Ordering.eq
cmp_reverse Ordering.gt = Ordering.lt

-- `Ordering::then_with`
abbrev pub then_with : Ordering → Ordering → Ordering
then_with Ordering.eq o = o
then_with Ordering.lt o = Ordering.lt
then_with Ordering.gt o = Ordering.gt

abbrev pub cmp_bool : Bool → Bool → Ordering
cmp_bool false true = Ordering.lt
cmp_bool true false = Ordering.gt
cmp_bool _ _ = Ordering.eq

abbrev pub is_gt : Ordering → Bool
is_gt Ordering.gt = true
is_gt _ = false

module _ {ℓ} {A : Type ℓ} (cmp : A → A → Ordering) where
  unfoldable pub insert_by : A → List A → List A
  insert_by x [] = x ∷ []
  insert_by x (y ∷ ys) =
      let later = insert_by x ys in elim (is_gt (cmp x y)) [ true ↦ y ∷ later | false ↦ x ∷ y ∷ ys ]

  unfoldable pub sort_by : List A → List A
  unfolding insert_by
  sort_by [] = []
  sort_by (x ∷ xs) = insert_by x (sort_by xs)

  pub length-insert_by : (x : A) (ys : List A) → length (insert_by x ys) ≡ length ys + 1
  unfolding insert_by
  length-insert_by x [] = refl
  length-insert_by x (y ∷ ys) = ground (arith, length-insert_by x ys)

  pub length-sort_by : (xs : List A) → length (sort_by xs) ≡ length xs
  unfolding sort_by
  length-sort_by [] = refl
  length-sort_by (x ∷ xs) = omega (arith, length-insert_by x (sort_by xs), length-sort_by xs)

-- No element comes after one that it is less than.
module _ {A : Type 0} (cmp : A → A → Ordering) where
  abbrev pub Sorted : List A → Type 0
  Sorted [] = Unit
  Sorted (x ∷ xs) = All (λ y. is_gt (cmp x y) ≡ false) xs × Sorted xs

-- Sorting keeps the keys of the elements.
module _ {A K : Type 0} ⦃key : Key K⦄ (cmp : A → A → Ordering) (f : A → K) where
  mem-insert_by :
      (q : K) (x : A) (ys : List A) → mem q (map f (insert_by cmp x ys)) ≡ mem q (f x ∷ map f ys)
  unfolding mem insert_by
  mem-insert_by q x [] = refl
  mem-insert_by q x (y ∷ ys) = ground (arith, mem-insert_by q x ys)

  pub mem-sort_by : (q : K) (xs : List A) → mem q (map f (sort_by cmp xs)) ≡ mem q (map f xs)
  unfolding mem sort_by
  mem-sort_by q [] = refl
  mem-sort_by q (x ∷ xs) = ground (arith, mem-insert_by q x (sort_by cmp xs), mem-sort_by q xs)

  Nodup-insert_by :
      (x : A) (ys : List A)
      → mem (f x) (map f ys) ≡ false
      → Nodup (map f ys)
      → Nodup (map f (insert_by cmp x ys))
  unfolding mem insert_by
  Nodup-insert_by x [] h n = (refl, tt)
  Nodup-insert_by x (y ∷ ys) h n = ground (arith, Nodup-insert_by x ys, mem-insert_by (f y) x ys)

  pub Nodup-sort_by : (xs : List A) → Nodup (map f xs) → Nodup (map f (sort_by cmp xs))
  unfolding sort_by
  Nodup-sort_by [] n = tt
  Nodup-sort_by (x ∷ xs) n =
      Nodup-insert_by x (sort_by cmp xs) (mem-sort_by (f x) xs ∙ n.0) (Nodup-sort_by xs n.1)

-- Sorting sorts, where the comparison is a total order of the keys.
pub record IsTotal {A : Type 0} (cmp : A → A → Ordering) : Type 0 where
  pub trans :
      (x y z : A) → is_gt (cmp x y) ≡ false → is_gt (cmp y z) ≡ false → is_gt (cmp x z) ≡ false
  pub total : (x y : A) → is_gt (cmp x y) ≡ true → is_gt (cmp y x) ≡ false

module _ {A : Type 0} (cmp : A → A → Ordering) (t : IsTotal cmp) where
  All-insert_by :
      (z x : A) (ys : List A)
      → is_gt (cmp z x) ≡ false
      → All (λ y. is_gt (cmp z y) ≡ false) ys
      → All (λ y. is_gt (cmp z y) ≡ false) (insert_by cmp x ys)
  unfolding insert_by
  All-insert_by z x [] h a = (h, tt)
  All-insert_by z x (y ∷ ys) h a = elim (Bool-cases (is_gt (cmp x y))) [
    | inl gt ↦ rw (gt, insert_by) (a.0, All-insert_by z x ys h a.1)
    | inr le ↦ rw (le, insert_by) (h, a)
  ]

  All-trans :
      (x y : A) (ys : List A)
      → is_gt (cmp x y) ≡ false
      → All (λ z. is_gt (cmp y z) ≡ false) ys
      → All (λ z. is_gt (cmp x z) ≡ false) ys
  All-trans x y [] h a = tt
  All-trans x y (z ∷ ys) h a = (t.trans x y z h a.0, All-trans x y ys h a.1)

  Sorted-insert_by : (x : A) (ys : List A) → Sorted cmp ys → Sorted cmp (insert_by cmp x ys)
  unfolding insert_by
  Sorted-insert_by x [] s = (tt, tt)
  Sorted-insert_by x (y ∷ ys) s = elim (Bool-cases (is_gt (cmp x y))) [
    | inl gt ↦
        rw (gt, insert_by) (All-insert_by y x ys (t.total x y gt) s.0, Sorted-insert_by x ys s.1)
    | inr le ↦ rw (le, insert_by) ((le, All-trans x y ys le s.0), s)
  ]

  pub sort_by-Sorted : (xs : List A) → Sorted cmp (sort_by cmp xs)
  unfolding sort_by
  sort_by-Sorted [] = tt
  sort_by-Sorted (x ∷ xs) = Sorted-insert_by x (sort_by cmp xs) (sort_by-Sorted xs)
