-- ===== src/Dedup/Window.antt =====
-- How long an accepted key stays refused: for the time to live, while fewer other calls than the
-- capacity come in.
use iroh_drop.Prelude.{
  ℕ, ◌+◌, ◌-◌, ◌≤◌, ◌<◌, ◌≡◌, refl, inl, inr, true, false, Option, none, some, List, [], ◌∷◌, ◌++◌,
  ite, arith, ◌∙◌, length, length-append, leb, Option-cases, Bool-cases,
}
use iroh_drop.Map.{Key, get, remove, get-remove, get-put, get-put_self}
use iroh_drop.Map.Queue.{mem, Agrees, Agrees-pop}
use iroh_drop.Dedup.{DedupCache, is_expired, evict_loop, make_room, check_and_insert}
use iroh_drop.Dedup.Validity.{
  IsValid, evict_expired-Evicted, check_and_insert-IsValid, make_room-Roomy,
}

-- The arguments of one call.
pub record Check (K : Type 0) : Type 0 where
  pub now : ℕ
  pub inserted : ℕ
  pub key : K

module _ {K : Type 0} ⦃key : Key K⦄ where
  unfoldable pub run : List (Check K) → DedupCache K → DedupCache K
  run [] c = c
  run (x ∷ xs) c = run xs (check_and_insert x.now x.inserted x.key c).0

  -- How many keys stand behind `k` in the queue.
  unfoldable pub behind : K → List K → Option ℕ
  behind k [] = none
  behind k (j ∷ o) = ite (key.dec j k) (some (length o)) (behind k o)

  -- `k` was inserted at `t` and has at most `n` keys behind it.
  record Holds (k : K) (t n : ℕ) (m : List (K × ℕ)) (o : List K) : Type 0 where
    index : ℕ
    place : behind k o ≡ some index
    recent : index ≤ n
    stamp : get k m ≡ some t

  evict_loop-Holds :
      (now ttl : ℕ) (k : K) (t n : ℕ) (m : List (K × ℕ)) (o : List K)
      → now - t ≤ ttl
      → Holds k t n m o
      → Holds k t n (evict_loop now ttl m o).0 (evict_loop now ttl m o).1
  unfolding evict_loop behind
  evict_loop-Holds now ttl k t n m [] h s = s
  evict_loop-Holds now ttl k t n m (j ∷ o) h s = elim (Bool-cases (is_expired now ttl (get j m))) [
    | inr fresh ↦ rw fresh s
    | inl old ↦ elim (key.dec j k) [
      | yes e ↦ absurd (unfold is_expired in ground (arith, s.stamp))
      | no ne ↦ rw old (
          evict_loop-Holds now ttl k t n (remove j m) o h (record {
            index = s.index;
            place = ground (arith, s.place);
            recent = s.recent;
            stamp = ground (arith, s.stamp, get-remove j k m);
          }))
    ]
  ]

  make_room-Holds :
      (capacity : ℕ) (k : K) (t n : ℕ) (m : List (K × ℕ)) (o : List K)
      → n + 1 < capacity
      → Agrees m o
      → Holds k t n m o
      → Holds k t n (make_room capacity m o).0 (make_room capacity m o).1
  unfolding make_room behind
  make_room-Holds capacity k t n m [] h a s = s
  make_room-Holds capacity k t n m (j ∷ o) h a s = elim (Bool-cases (leb capacity (length m))) [
    | inr free ↦ rw free s
    | inl full ↦ elim (key.dec j k) [
      | yes e ↦ absurd (ground (arith, s.place, a.sizes, s.recent))
      | no ne ↦ rw full (
          make_room-Holds capacity k t n (remove j m) o h (Agrees-pop j m o a) (record {
            index = s.index;
            place = ground (arith, s.place);
            recent = s.recent;
            stamp = ground (arith, s.stamp, get-remove j k m);
          }))
    ]
  ]

  behind-push :
      (k j : K) (i : ℕ) (o : List K) → behind k o ≡ some i → behind k (o ++ j ∷ []) ≡ some (i + 1)
  unfolding behind
  behind-push k j i [] h = ground arith
  behind-push k j i (l ∷ o) h = ground (arith, behind-push k j i o, length-append o (j ∷ []))

  behind-new : (k : K) (o : List K) → mem k o ≡ false → behind k (o ++ k ∷ []) ≡ some 0
  unfolding behind mem
  behind-new k [] h = ground arith
  behind-new k (l ∷ o) h = ground (arith, behind-new k o)

  -- Another call within the time to live puts at most one key behind `k`.
  check_and_insert-Holds :
      (from now inserted : ℕ) (j k : K) (t n : ℕ) (c : DedupCache K)
      → IsValid from c
      → from ≤ inserted
      → now - t ≤ c.ttl
      → n + 1 < c.capacity
      → Holds k t n c.entries c.order
      → let c' = (check_and_insert now inserted j c).0 in Holds k t (n + 1) c'.entries c'.order
  unfolding check_and_insert
  check_and_insert-Holds from now inserted j k t n c v p h g s =
      let r = evict_loop now c.ttl c.entries c.order in
      let e = evict_expired-Evicted from now inserted c v p in
      let s' = evict_loop-Holds now c.ttl k t n c.entries c.order h s in
      let f = make_room-Holds c.capacity k t n r.0 r.1 g e.agrees s' in
      elim (Option-cases (get j r.0)) [
        | inr (u, old) ↦
            rw old (record {
              index = s'.index;
              place = s'.place;
              recent = omega arith;
              stamp = s'.stamp;
            })
        | inl new ↦ rw new (record {
          index = f.index + 1;
          place = behind-push k j f.index _ f.place;
          recent = omega arith;
          stamp =
              ground
                (arith, get-put j k inserted (make_room c.capacity r.0 r.1).0, f.stamp, s'.stamp);
        })
      ]

  settings_kept :
      (now inserted : ℕ) (j : K) (c : DedupCache K)
      → let c' = (check_and_insert now inserted j c).0 in
        (c'.capacity ≡ c.capacity) × (c'.ttl ≡ c.ttl)
  unfolding check_and_insert
  settings_kept now inserted j c =
      elim (Option-cases (get j (evict_loop now c.ttl c.entries c.order).0)) [
        | inl new ↦ rw new (refl, refl)
        | inr (u, old) ↦ rw old (refl, refl)
      ]

  -- The calls come in the order of their clock readings, none reads the clock after `deadline`.
  abbrev pub InTime : ℕ → ℕ → List (Check K) → Type 0
  InTime from deadline [] = Unit
  InTime from deadline (x ∷ xs) =
      (from ≤ x.inserted) × (x.now ≤ deadline) × InTime x.inserted deadline xs

  run-Holds :
      (from : ℕ) (k : K) (t n : ℕ) (c : DedupCache K) (xs : List (Check K))
      → IsValid from c
      → InTime from (t + c.ttl) xs
      → n + length xs < c.capacity
      → Holds k t n c.entries c.order
      → let c' = run xs c in Holds k t (n + length xs) c'.entries c'.order × (c'.ttl ≡ c.ttl)
  unfolding run
  run-Holds from k t n c [] v h g s = (
    record { index = s.index; place = s.place; recent = omega (arith, s.recent); stamp = s.stamp },
    refl,
  )
  run-Holds from k t n c (x ∷ xs) v h g s =
      let (same_capacity, same_ttl) = settings_kept x.now x.inserted x.key c in
      let (s', e) =
        run-Holds x.inserted k t (n + 1) (check_and_insert x.now x.inserted x.key c).0 xs
          (check_and_insert-IsValid from x.now x.inserted x.key c v h.0) (rw same_ttl h.2)
          (omega arith)
          (check_and_insert-Holds from x.now x.inserted x.key k t n c v h.0 (omega arith)
            (omega arith) s) in
      (
        record {
          index = s'.index;
          place = s'.place;
          recent = omega (arith, s'.recent);
          stamp = s'.stamp;
        },
        e ∙ same_ttl,
      )

  accepted-Holds :
      (from now inserted : ℕ) (k : K) (c : DedupCache K)
      → IsValid from c
      → from ≤ inserted
      → (check_and_insert now inserted k c).1 ≡ true
      → let c' = (check_and_insert now inserted k c).0 in Holds k inserted 0 c'.entries c'.order
  unfolding check_and_insert
  accepted-Holds from now inserted k c v p h =
      let r = evict_loop now c.ttl c.entries c.order in
      let e = evict_expired-Evicted from now inserted c v p in
      let f = make_room-Roomy c.capacity 0 inserted r.0 r.1 e.agrees e.in_order in
      elim (Option-cases (get k r.0)) [
        | inr (u, old) ↦ absurd (ground arith)
        | inl new ↦ rw new (record {
          index = 0;
          place = behind-new k _ (ground (arith, f.agrees.same k, f.absent k new));
          recent = omega arith;
          stamp = get-put_self k inserted (make_room c.capacity r.0 r.1).0;
        })
      ]

  refused_while_held :
      (now inserted : ℕ) (j k : K) (t n : ℕ) (c : DedupCache K)
      → j ≡ k
      → now - t ≤ c.ttl
      → Holds k t n c.entries c.order
      → (check_and_insert now inserted j c).1 ≡ false
  unfolding check_and_insert
  refused_while_held now inserted j k t n c e h s =
      let s' = evict_loop-Holds now c.ttl k t n c.entries c.order h s in rw (e, s'.stamp) refl

  -- A key that was accepted is refused again, after any further calls that are fewer than the
  -- capacity, as long as no clock reading is later than the time to live after its insertion.
  pub replay_refused :
      (from : ℕ) (first : Check K) (c : DedupCache K) (xs : List (Check K)) (again : Check K)
      → IsValid from c
      → from ≤ first.inserted
      → (check_and_insert first.now first.inserted first.key c).1 ≡ true
      → InTime first.inserted (first.inserted + c.ttl) xs
      → length xs < c.capacity
      → again.key ≡ first.key
      → again.now ≤ first.inserted + c.ttl
      → let c' = run xs (check_and_insert first.now first.inserted first.key c).0 in
        (check_and_insert again.now again.inserted again.key c').1 ≡ false
  replay_refused from first c xs again v p accepted timely few same_key late =
      let c1 = (check_and_insert first.now first.inserted first.key c).0 in
      let (same_capacity, same_ttl) = settings_kept first.now first.inserted first.key c in
      let (s, e) =
        run-Holds first.inserted first.key first.inserted 0 c1 xs
          (check_and_insert-IsValid from first.now first.inserted first.key c v p)
          (rw same_ttl timely) (omega arith)
          (accepted-Holds from first.now first.inserted first.key c v p accepted) in
      refused_while_held again.now again.inserted again.key first.key first.inserted (0 + length xs)
        (run xs c1) same_key (omega (arith, e, same_ttl)) s
