-- ===== src/Run/Steps.antt =====
-- Steps one after another: what their results come from, and what their events weigh.
use iroh_drop.Prelude.{ℕ, ◌+◌, ◌≤◌, ◌≡◌, refl, Option, none, some, List, [], ◌∷◌, ◌++◌, arith}
use iroh_drop.Error.{Result, ok, err}
use iroh_drop.Run.{
  Run, bind_result, ◌>>=◌, ◌>>◌, return, fail, emit, modify, read, fail_if, or_fail,
}

module _ {S E X : Type 0} where
  -- Where a bind that succeeds comes from.
  pub record Bound {A B : Type 0} (m : Run S E X A) (f : A → Run S E X B) (s s' : S)
      (events : List E) (b : B) : Type 0 where
    pub between : S
    pub before : List E
    pub value : A
    pub after : List E
    pub first : m s ≡ (between, before, ok value)
    pub then_lem : f value between ≡ (s', after, ok b)
    pub joined : events ≡ before ++ after

  pub bind-Bound :
      {A B : Type 0} (m : Run S E X A) (f : A → Run S E X B) (s s' : S) (events : List E) (b : B)
      → (m >>= f) s ≡ (s', events, ok b)
      → Bound m f s s' events b
  unfolding ◌>>=◌
  bind-Bound {A} {B} m f s s' events b h = by_result (m s) refl
    where
      by_result : (r : S × List E × Result X A) → m s ≡ r → Bound m f s s' events b
      by_result (t, es, err e) p = absurd (ground arith)
      by_result (t, es, ok a) p = record {
        between = t;
        before = es;
        value = a;
        after = (f a t).1;
        first = p;
        then_lem = ground arith;
        joined = ground arith;
      }

  pub then-Bound :
      {A B : Type 0} (m : Run S E X A) (k : Run S E X B) (s s' : S) (events : List E) (b : B)
      → (m >> k) s ≡ (s', events, ok b)
      → Bound m (λ x. k) s s' events b
  unfolding ◌>>◌
  then-Bound m k s s' events b h = bind-Bound m (λ x. k) s s' events b h

  -- A step that succeeds, and what it came to.
  pub return-ok :
      {A : Type 0} (a b : A) (s s' : S) (events : List E)
      → return {E = E} {X = X} a s ≡ (s', events, ok b)
      → (s ≡ s') × (a ≡ b) × (events ≡ [])
  unfolding return
  return-ok a b s s' events h = (ground arith, ground arith, ground arith)

  pub modify-ok :
      (f : S → S) (s s' : S) (events : List E) (u : Unit {0})
      → modify {E = E} {X = X} f s ≡ (s', events, ok u)
      → (f s ≡ s') × (events ≡ [])
  unfolding modify
  modify-ok f s s' events u h = (ground arith, ground arith)

  pub or_fail-ok :
      {F A : Type 0} (r : Result F A) (f : F → X) (a : A) (s s' : S) (events : List E)
      → or_fail r f s ≡ (s', events, ok a)
      → (r ≡ ok a) × (s ≡ s') × (events ≡ [])
  unfolding return fail
  or_fail-ok (ok b) f a s s' events h = (ground arith, ground arith, ground arith)
  or_fail-ok (err e) f a s s' events h = absurd (ground arith)

module _ {E : Type 0} (weight : E → ℕ) where
  unfoldable pub total : List E → ℕ
  total [] = 0
  total (e ∷ es) = weight e + total es

  pub total-append : (es fs : List E) → total (es ++ fs) ≡ total es + total fs
  unfolding total
  total-append [] fs = omega arith
  total-append (e ∷ es) fs = omega (arith, total-append es fs)

  -- The events of a step weigh at most `n`, from every state.
  abbrev pub Costs : {S X A : Type 0} → ℕ → Run S E X A → Type 0
  Costs {S} n m = (s : S) → total (m s).1 ≤ n

-- The weights of the steps that fail with the errors X.
module _ {E : Type 0} (X : Type 0) (weight : E → ℕ) where
  pub bind-Costs :
      {S A B : Type 0} (a b n : ℕ) (m : Run S E X A) (f : A → Run S E X B)
      → Costs weight a m
      → ((x : A) → Costs weight b (f x))
      → a + b ≤ n
      → Costs weight n (m >>= f)
  unfolding ◌>>=◌
  bind-Costs {S} {A} a b n m f cm cf le s = by_result (m s) (cm s)
    where
      by_result :
          (r : S × List E × Result X A)
          → total weight r.1 ≤ a
          → total weight (bind_result r f).1 ≤ n
      by_result (t, es, err e) c = omega arith
      by_result (t, es, ok x) c = omega (arith, total-append weight es (f x t).1, cf x t)

  pub then-Costs :
      {S A B : Type 0} (a b n : ℕ) (m : Run S E X A) (k : Run S E X B)
      → Costs weight a m
      → Costs weight b k
      → a + b ≤ n
      → Costs weight n (m >> k)
  unfolding ◌>>◌
  then-Costs a b n m k cm ck le = bind-Costs a b n m (λ x. k) cm (λ x. ck) le

  pub return-Costs :
      {S A : Type 0} (n : ℕ) (a : A) → Costs weight n (return {S = S} {E = E} {X = X} a)
  unfolding return total
  return-Costs n a s = omega arith

  pub fail-Costs :
      {S : Type 0} (A : Type 0) (n : ℕ) (e : X) → Costs weight n (fail {S = S} {E = E} {A = A} e)
  unfolding fail total
  fail-Costs A n e s = omega arith

  pub modify-Costs : {S : Type 0} (n : ℕ) (f : S → S) → Costs weight n (modify {E = E} {X = X} f)
  unfolding modify total
  modify-Costs n f s = omega arith

  pub read-Costs : {S A : Type 0} (n : ℕ) (f : S → A) → Costs weight n (read {E = E} {X = X} f)
  unfolding read total
  read-Costs n f s = omega arith

  pub emit-Costs :
      {S : Type 0} (n : ℕ) (e : E) → weight e ≤ n → Costs weight n (emit {S = S} {X = X} e)
  unfolding emit total
  emit-Costs n e le s = omega (arith, le)

  pub fail_if-Costs :
      {S T : Type 0} (n : ℕ) (o : Option T) (f : T → X)
      → Costs weight n (fail_if {S = S} {E = E} o f)
  fail_if-Costs n none f = return-Costs n tt
  fail_if-Costs n (some t) f = fail-Costs (Unit {0}) n (f t)

  pub or_fail-Costs :
      {S F A : Type 0} (n : ℕ) (r : Result F A) (f : F → X)
      → Costs weight n (or_fail {S = S} {E = E} r f)
  or_fail-Costs n (ok a) f = return-Costs n a
  or_fail-Costs {S} {F} {A} n (err e) f = fail-Costs A n (f e)

  -- What follows a result needs its cost only where there is a value.
  pub or_fail-bind-Costs :
      {S F A B : Type 0} (n : ℕ) (r : Result F A) (f : F → X) (k : A → Run S E X B)
      → ((a : A) → r ≡ ok a → Costs weight n (k a))
      → Costs weight n (or_fail r f >>= k)
  unfolding ◌>>=◌ return fail total
  or_fail-bind-Costs n (ok a) f k c s = c a refl s
  or_fail-bind-Costs n (err e) f k c s = omega arith
