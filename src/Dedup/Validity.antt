-- ===== src/Dedup/Validity.antt =====
-- The invariant of the dedup cache, and what `check_and_insert` answers.
use iroh_drop.Prelude.{
  ℕ, ◌+◌, ◌-◌, ◌≤◌, ◌≡◌, inl, inr, true, false, none, some, Option, List, [], ◌∷◌, ◌++◌, arith,
  length, leb, ltb, max, Option-cases, Bool-cases, if◌then◌else◌, not,
}
use iroh_drop.Map.{Key, is_some, get, put, remove, get-remove, get-put, length-put}
use iroh_drop.Map.Queue.{mem, Agrees, Agrees-nil, Agrees-pop, Agrees-push}
use iroh_drop.Dedup.{DedupCache, new, is_expired, evict_loop, make_room, check_and_insert}

-- What an eviction at `now` leaves of an entry.
unfoldable pub unexpired : ℕ → ℕ → Option ℕ → Option ℕ
unfolding is_expired
unexpired now ttl o = if is_expired now ttl o then none else o

module _ {K : Type 0} ⦃key : Key K⦄ where
  -- The times of the queued keys grow from `lo` to `hi`.
  abbrev pub InOrder : List (K × ℕ) → ℕ → ℕ → List K → Type 0
  InOrder m lo hi [] = lo ≤ hi
  InOrder m lo hi (k ∷ o) = (t : ℕ) × (get k m ≡ some t) × (lo ≤ t) × InOrder m t hi o

  InOrder-weaken :
      (m : List (K × ℕ)) (lo lo' hi : ℕ) (o : List K)
      → lo' ≤ lo
      → InOrder m lo hi o
      → InOrder m lo' hi o
  InOrder-weaken m lo lo' hi [] h s = omega arith
  InOrder-weaken m lo lo' hi (k ∷ o) h s = (s.0, s.1, omega arith, s.3)

  InOrder-later :
      (m : List (K × ℕ)) (lo hi hi' : ℕ) (o : List K)
      → hi ≤ hi'
      → InOrder m lo hi o
      → InOrder m lo hi' o
  InOrder-later m lo hi hi' [] h s = omega arith
  InOrder-later m lo hi hi' (k ∷ o) h s = (s.0, s.1, s.2, InOrder-later m s.0 hi hi' o h s.3)

  InOrder-remove :
      (k : K) (m : List (K × ℕ)) (lo hi : ℕ) (o : List K)
      → mem k o ≡ false
      → InOrder m lo hi o
      → InOrder (remove k m) lo hi o
  unfolding mem
  InOrder-remove k m lo hi [] h s = s
  InOrder-remove k m lo hi (j ∷ o) h s =
      (s.0, ground (arith, get-remove k j m), s.2, InOrder-remove k m s.0 hi o (ground arith) s.3)

  InOrder-push :
      (k : K) (n : ℕ) (m : List (K × ℕ)) (lo hi : ℕ) (o : List K)
      → hi ≤ n
      → mem k o ≡ false
      → InOrder m lo hi o
      → InOrder (put k n m) lo n (o ++ k ∷ [])
  unfolding mem
  InOrder-push k n m lo hi [] g h s = (n, ground (arith, get-put k k n m), omega arith, omega arith)
  InOrder-push k n m lo hi (j ∷ o) g h s =
      (s.0, ground (arith, get-put k j n m), s.2, InOrder-push k n m s.0 hi o g (ground arith) s.3)

  -- Queue and entries agree, the queue is in the order of insertion, nothing is later than `now`,
  -- and the capacity holds.
  pub record IsValid (now : ℕ) (c : DedupCache K) : Type 0 where
    pub agrees : Agrees c.entries c.order
    pub in_order : InOrder c.entries 0 now c.order
    pub bounded : length c.entries ≤ max c.capacity 1

  pub IsValid-later : (t now : ℕ) (c : DedupCache K) → t ≤ now → IsValid t c → IsValid now c
  IsValid-later t now c h v = record {
    agrees = v.agrees;
    in_order = InOrder-later c.entries 0 t now c.order h v.in_order;
    bounded = v.bounded;
  }

  -- The keys of the queue have times from `lo` on.
  InOrder-get :
      (k : K) (m : List (K × ℕ)) (lo hi : ℕ) (o : List K)
      → InOrder m lo hi o
      → mem k o ≡ true
      → (t : ℕ) × (get k m ≡ some t) × (lo ≤ t)
  unfolding mem
  InOrder-get k m lo hi [] s h = ground arith
  InOrder-get k m lo hi (j ∷ o) s h = elim (key.dec j k) [
    | yes p ↦ (s.0, rw (← p) (s.1), s.2)
    | no p ↦ let (t, e, le) = InOrder-get k m s.0 hi o s.3 (ground arith) in (t, e, omega arith)
  ]

  -- The loop drops exactly the expired entries.
  pub record Evicted (now ttl lo hi : ℕ) (m : List (K × ℕ)) (r : List (K × ℕ) × List K)
      : Type 0 where
    pub agrees : Agrees r.0 r.1
    pub in_order : InOrder r.0 lo hi r.1
    pub kept : (k : K) → get k r.0 ≡ unexpired now ttl (get k m)
    pub smaller : length r.0 ≤ length m

  -- Behind an unexpired entry nothing has expired.
  kept_behind :
      (now ttl lo hi t : ℕ) (m : List (K × ℕ)) (o : List K) (k : K)
      → Agrees m o
      → InOrder m t hi o
      → now - t ≤ ttl
      → get k m ≡ unexpired now ttl (get k m)
  unfolding unexpired
  kept_behind now ttl lo hi t m o k a s h = elim (Bool-cases (mem k o)) [
    | inl there ↦ let (u, e, le) = InOrder-get k m t hi o s there in rw e (ground arith)
    | inr absent ↦ ground (arith, a.same k)
  ]

  evict_loop-Evicted :
      (now ttl lo hi : ℕ) (m : List (K × ℕ)) (o : List K)
      → Agrees m o
      → InOrder m lo hi o
      → Evicted now ttl lo hi m (evict_loop now ttl m o)
  unfolding evict_loop unexpired mem
  evict_loop-Evicted now ttl lo hi m [] a s = record {
    agrees = a;
    in_order = s;
    kept = λ k. ground (arith, a.same k);
    smaller = omega arith;
  }
  evict_loop-Evicted now ttl lo hi m (j ∷ o) a s = elim (Bool-cases (ltb ttl (now - s.0))) [
    | inl old ↦
        let k' = Agrees-pop j m o a in
        let ih =
          evict_loop-Evicted now ttl lo hi (remove j m) o k'
            (InOrder-remove j m lo hi o a.nodup.0 (InOrder-weaken m s.0 lo hi o s.2 s.3)) in
        rw (s.1, old)
          (record {
            agrees = ih.agrees;
            in_order = ih.in_order;
            kept = λ k. ground (arith, ih.kept k, get-remove j k m, s.1);
            smaller = omega (arith, ih.smaller, a.sizes, k'.sizes);
          })
    | inr fresh ↦
        rw (s.1, fresh)
          (record {
            agrees = a;
            in_order = s;
            kept = λ k.
                kept_behind now ttl lo hi s.0 m (j ∷ o) k a (s.0, s.1, omega arith, s.3)
                  (ground arith);
            smaller = omega arith;
          })
  ]

  pub record Roomy (capacity lo hi : ℕ) (m : List (K × ℕ)) (r : List (K × ℕ) × List K)
      : Type 0 where
    pub agrees : Agrees r.0 r.1
    pub in_order : InOrder r.0 lo hi r.1
    pub room : length r.0 + 1 ≤ max capacity 1
    pub absent : (k : K) → get k m ≡ none → get k r.0 ≡ none

  pub make_room-Roomy :
      (capacity lo hi : ℕ) (m : List (K × ℕ)) (o : List K)
      → Agrees m o
      → InOrder m lo hi o
      → Roomy capacity lo hi m (make_room capacity m o)
  unfolding make_room mem
  make_room-Roomy capacity lo hi m [] a s = record {
    agrees = a;
    in_order = s;
    room = omega (arith, a.sizes);
    absent = λ k h. h;
  }
  make_room-Roomy capacity lo hi m (j ∷ o) a s = elim (Bool-cases (leb capacity (length m))) [
    | inl full ↦
        let ih =
          make_room-Roomy capacity lo hi (remove j m) o (Agrees-pop j m o a)
            (InOrder-remove j m lo hi o a.nodup.0 (InOrder-weaken m s.0 lo hi o s.2 s.3)) in
        rw full (record {
          agrees = ih.agrees;
          in_order = ih.in_order;
          room = ih.room;
          absent = λ k h. ih.absent k (ground (arith, get-remove j k m));
        })
    | inr free ↦
        rw free (record { agrees = a; in_order = s; room = ground arith; absent = λ k h. h })
  ]

  pub new-IsValid : (capacity ttl now : ℕ) → IsValid now (new capacity ttl)
  unfolding new
  new-IsValid capacity ttl now = record {
    agrees = Agrees-nil;
    in_order = omega arith;
    bounded = omega arith;
  }

  pub evict_expired-Evicted :
      (t now hi : ℕ) (c : DedupCache K)
      → IsValid t c
      → t ≤ hi
      → Evicted now c.ttl 0 hi c.entries (evict_loop now c.ttl c.entries c.order)
  evict_expired-Evicted t now hi c v h =
      evict_loop-Evicted now c.ttl 0 hi c.entries c.order v.agrees
        (InOrder-later c.entries 0 t hi c.order h v.in_order)

  -- In a valid cache a call answers `true` exactly when the key has no unexpired entry.
  pub check_and_insert_answer :
      (t now inserted : ℕ) (k : K) (c : DedupCache K)
      → IsValid t c
      → t ≤ inserted
      → (check_and_insert now inserted k c).1
        ≡ not (is_some (unexpired now c.ttl (get k c.entries)))
  unfolding check_and_insert
  check_and_insert_answer t now inserted k c v p =
      let e = evict_expired-Evicted t now inserted c v p in ground (arith, e.kept k)

  -- A call keeps the cache valid.
  pub check_and_insert-IsValid :
      (t now inserted : ℕ) (k : K) (c : DedupCache K)
      → IsValid t c
      → t ≤ inserted
      → IsValid inserted (check_and_insert now inserted k c).0
  unfolding check_and_insert
  check_and_insert-IsValid t now inserted k c v p =
      let e = evict_expired-Evicted t now inserted c v p in
      let r = evict_loop now c.ttl c.entries c.order in
      let f = make_room-Roomy c.capacity 0 inserted r.0 r.1 e.agrees e.in_order in
      elim (Option-cases (get k r.0)) [
        | inl new ↦ rw new (record {
          agrees = Agrees-push k inserted _ _ (f.absent k new) f.agrees;
          in_order =
              InOrder-push k inserted _ 0 inserted _ (omega arith)
                (ground (arith, f.agrees.same k, f.absent k new)) f.in_order;
          bounded = omega (arith, f.room, length-put k inserted _ (f.absent k new));
        })
        | inr (u, old) ↦ rw old (record {
          agrees = e.agrees;
          in_order = e.in_order;
          bounded = omega (arith, e.smaller, v.bounded);
        })
      ]

  -- An accepted key has an entry of the time of its insertion.
  pub get-check_and_insert :
      (now inserted : ℕ) (k : K) (c : DedupCache K)
      → (check_and_insert now inserted k c).1 ≡ true
      → get k (check_and_insert now inserted k c).0.entries ≡ some inserted
  unfolding check_and_insert
  get-check_and_insert now inserted k c h =
      let r = evict_loop now c.ttl c.entries c.order in
      ground (arith, get-put k k inserted (make_room c.capacity r.0 r.1).0)
