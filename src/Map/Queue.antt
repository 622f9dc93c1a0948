-- ===== src/Map/Queue.antt =====
-- A map beside a queue of its keys, the shape that every bounded table of the program has: the
-- dedup cache, the rate limiter, the known peers and the offers.
use iroh_drop.Prelude.{
  ℕ, ◌+◌, ◌≤◌, ◌≡◌, refl, inl, inr, Bool, true, false, none, some, List, [], ◌∷◌, ◌++◌, ite, arith,
  length, length-append, ◌||◌, ltb, if◌then◌else◌, Option-cases, Bool-cases,
}
use iroh_drop.Map.{
  Key, get, contains, put, remove, Distinct, get-put, get-remove, put-Distinct, remove-Distinct,
  length-put, length-put_present, length-remove,
}

module _ {K : Type 0} ⦃key : Key K⦄ where
  unfoldable pub mem : K → List K → Bool
  mem k [] = false
  mem k (j ∷ o) = ite (key.dec j k) true (mem k o)

  -- `o.remove(o.position(k))`: drops the first occurrence, if there is one.
  unfoldable pub erase : K → List K → List K
  erase k [] = []
  erase k (j ∷ o) = ite (key.dec j k) o (j ∷ erase k o)

  abbrev pub Nodup : List K → Type 0
  Nodup [] = Unit
  Nodup (k ∷ o) = (mem k o ≡ false) × Nodup o

  pub mem-append : (k : K) (o p : List K) → mem k (o ++ p) ≡ (mem k o || mem k p)
  unfolding mem
  mem-append k [] p = refl
  mem-append k (j ∷ o) p = ground (arith, mem-append k o p)

  pub mem-push : (k q : K) (o : List K) → mem q (o ++ k ∷ []) ≡ ite (key.dec k q) true (mem q o)
  unfolding mem
  mem-push k q [] = refl
  mem-push k q (j ∷ o) = ground (arith, mem-push k q o)

  pub Nodup-push : (k : K) (o : List K) → mem k o ≡ false → Nodup o → Nodup (o ++ k ∷ [])
  unfolding mem
  Nodup-push k [] h n = (refl, tt)
  Nodup-push k (j ∷ o) h n = ground (arith, mem-push k j o, Nodup-push k o)

  pub mem-erase :
      (k q : K) (o : List K) → Nodup o → mem q (erase k o) ≡ ite (key.dec k q) false (mem q o)
  unfolding mem erase
  mem-erase k q [] n = ground arith
  mem-erase k q (j ∷ o) n = ground (arith, mem-erase k q o)

  pub Nodup-erase : (k : K) (o : List K) → Nodup o → Nodup (erase k o)
  unfolding mem erase
  Nodup-erase k [] n = tt
  Nodup-erase k (j ∷ o) n = ground (arith, Nodup-erase k o, mem-erase k j o)

  pub erase_absent : (k : K) (o : List K) → mem k o ≡ false → erase k o ≡ o
  unfolding mem erase
  erase_absent k [] h = refl
  erase_absent k (j ∷ o) h = ground (arith, erase_absent k o)

  pub length-erase : (k : K) (o : List K) → mem k o ≡ true → length (erase k o) + 1 ≡ length o
  unfolding mem erase
  length-erase k [] h = ground arith
  length-erase k (j ∷ o) h = ground (arith, length-erase k o)

-- The map's keys are exactly the queue's, each once.
pub record Agrees {K V : Type 0} ⦃key : Key K⦄ (m : List (K × V)) (o : List K) : Type 0 where
  pub distinct : Distinct m
  pub nodup : Nodup o
  pub same : (k : K) → contains k m ≡ mem k o
  pub sizes : length m ≡ length o

module _ {K V : Type 0} ⦃key : Key K⦄ where
  pub Agrees-nil : Agrees {K = K} {V = V} [] []
  unfolding get mem
  Agrees-nil = record { distinct = tt; nodup = tt; same = λ k. refl; sizes = refl }

  -- `pop_front` of the queue with `remove` of the map.
  pub Agrees-pop :
      (k : K) (m : List (K × V)) (o : List K) → Agrees m (k ∷ o) → Agrees (remove k m) o
  unfolding mem
  Agrees-pop k m o a = record {
    distinct = remove-Distinct k m a.distinct;
    nodup = a.nodup.1;
    same = λ q. ground (arith, a.same q, get-remove k q m, a.nodup);
    sizes = elim (Option-cases (get k m)) [
      | inl h ↦ absurd (ground (arith, a.same k))
      | inr (v, h) ↦ omega (arith, length-remove k v m a.distinct h, a.sizes)
    ];
  }

  -- `insert` of a new key with `push_back`.
  pub Agrees-push :
      (k : K) (v : V) (m : List (K × V)) (o : List K)
      → get k m ≡ none
      → Agrees m o
      → Agrees (put k v m) (o ++ k ∷ [])
  Agrees-push k v m o h a = record {
    distinct = put-Distinct k v m a.distinct;
    nodup = Nodup-push k o (ground (arith, a.same k)) a.nodup;
    same = λ q. ground (arith, a.same q, get-put k q v m, mem-push k q o);
    sizes = omega (arith, length-put k v m h, length-append o (k ∷ []), a.sizes);
  }

  -- A new value for a key that is there.
  pub Agrees-set :
      (k : K) (v w : V) (m : List (K × V)) (o : List K)
      → get k m ≡ some w
      → Agrees m o
      → Agrees (put k v m) o
  Agrees-set k v w m o h a = record {
    distinct = put-Distinct k v m a.distinct;
    nodup = a.nodup;
    same = λ q. ground (arith, a.same q, get-put k q v m);
    sizes = omega (arith, length-put_present k v w m h, a.sizes);
  }

  -- A key that is there moves to the back of the queue.
  pub Agrees-touch :
      (k : K) (w : V) (m : List (K × V)) (o : List K)
      → get k m ≡ some w
      → Agrees m o
      → Agrees m (erase k o ++ k ∷ [])
  Agrees-touch k w m o h a = record {
    distinct = a.distinct;
    nodup =
        Nodup-push k (erase k o) (ground (arith, mem-erase k k o a.nodup))
          (Nodup-erase k o a.nodup);
    same =
        λ q. ground (arith, a.same q, a.same k, mem-push k q (erase k o), mem-erase k q o a.nodup);
    sizes =
        let there : mem k o ≡ true = ground (arith, a.same k) in
        omega (arith, length-append (erase k o) (k ∷ []), length-erase k o there, a.sizes);
  }

  -- The front of the queue has a value in the map.
  pub Agrees-front :
      (k : K) (m : List (K × V)) (o : List K) → Agrees m (k ∷ o) → (v : V) × (get k m ≡ some v)
  unfolding mem
  Agrees-front k m o a = elim (Option-cases (get k m)) [
    | inl h ↦ absurd (ground (arith, a.same k))
    | inr p ↦ p
  ]

-- `while queue.len() > cap { if let Some(old) = queue.pop_front() { map.remove(&old); } }`
module _ {K V : Type 0} ⦃key : Key K⦄ where
  unfoldable pub trim : ℕ → List (K × V) → List K → List (K × V) × List K
  trim cap m [] = (m, [])
  trim cap m (old ∷ o) =
      let rest = trim cap (remove old m) o in
      if ltb cap (length (old ∷ o)) then rest else (m, old ∷ o)

  pub trim-Agrees :
      (cap : ℕ) (m : List (K × V)) (o : List K)
      → Agrees m o
      → Agrees (trim cap m o).0 (trim cap m o).1 × (length (trim cap m o).1 ≤ cap)
  unfolding trim
  trim-Agrees cap m [] a = (a, omega arith)
  trim-Agrees cap m (j ∷ o) a = elim (Bool-cases (ltb cap (length (j ∷ o)))) [
    | inl long ↦ rw long (trim-Agrees cap (remove j m) o (Agrees-pop j m o a))
    | inr short ↦ rw short (a, ground arith)
  ]

  pub length-trim : (cap : ℕ) (m : List (K × V)) (o : List K) → length (trim cap m o).1 ≤ length o
  unfolding trim
  length-trim cap m [] = omega arith
  length-trim cap m (j ∷ o) = ground (arith, length-trim cap (remove j m) o)

  -- A queue that fits is left alone.
  pub trim_fits : (cap : ℕ) (m : List (K × V)) (o : List K) → length o ≤ cap → trim cap m o ≡ (m, o)
  unfolding trim
  trim_fits cap m [] h = refl
  trim_fits cap m (j ∷ o) h = ground arith

  -- A queue that is one too long loses its front.
  pub trim_one_over :
      (cap : ℕ) (m : List (K × V)) (j : K) (o : List K)
      → length o ≡ cap
      → trim cap m (j ∷ o) ≡ (remove j m, o)
  unfolding trim
  trim_one_over cap m j o h =
      let long : ltb cap (length (j ∷ o)) ≡ true = ground arith in
      rw long (trim_fits cap (remove j m) o (omega arith))

  -- Trimming never changes the entry of a key, except that it drops some.
  pub get-trim :
      (cap : ℕ) (q : K) (v : V) (m : List (K × V)) (o : List K)
      → get q (trim cap m o).0 ≡ some v
      → get q m ≡ some v
  unfolding trim
  get-trim cap q v m [] h = h
  get-trim cap q v m (j ∷ o) h = elim (Bool-cases (ltb cap (length (j ∷ o)))) [
    | inl long ↦
        let ih = get-trim cap q v (remove j m) o (rw long at h) in ground (arith, get-remove j q m)
    | inr short ↦ rw short at h
  ]
