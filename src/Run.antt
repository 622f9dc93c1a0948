-- ===== src/Run.antt =====
-- Programs step by step: a step has a state, emits events, and returns or fails.
pub mod Steps
use iroh_drop.Prelude.{Option, none, some, List, [], ◌∷◌, ◌++◌}
use iroh_drop.Error.{Result, ok, err}

-- Steps over the states S with the events E and the errors X.
abbrev pub Run : Type 0 → Type 0 → Type 0 → Type 0 → Type 0
Run S E X A = S → S × List E × Result X A

module _ {S E X : Type 0} where
  abbrev pub bind_result :
      {A B : Type 0} → S × List E × Result X A → (A → Run S E X B) → S × List E × Result X B
  bind_result (s, events, err e) f = (s, events, err e)
  bind_result (s, events, ok a) f = let r = f a s in (r.0, events ++ r.1, r.2)

  infixl 5 ◌>>=◌ ◌>>◌
  unfoldable pub ◌>>=◌ : {A B : Type 0} → Run S E X A → (A → Run S E X B) → Run S E X B
  ◌>>=◌ m f s = bind_result (m s) f

  unfoldable pub ◌>>◌ : {A B : Type 0} → Run S E X A → Run S E X B → Run S E X B
  unfolding ◌>>=◌
  m >> k = m >>= λ _. k

  unfoldable pub return : {A : Type 0} → A → Run S E X A
  return a s = (s, [], ok a)

  unfoldable pub fail : {A : Type 0} → X → Run S E X A
  fail e s = (s, [], err e)

  unfoldable pub emit : E → Run S E X (Unit {0})
  emit event s = (s, event ∷ [], ok tt)

  unfoldable pub modify : (S → S) → Run S E X (Unit {0})
  modify f s = (f s, [], ok tt)

  unfoldable pub read : {A : Type 0} → (S → A) → Run S E X A
  read f s = (s, [], ok (f s))

  abbrev pub fail_if : {T : Type 0} → Option T → (T → X) → Run S E X (Unit {0})
  fail_if none e = return tt
  fail_if (some text) e = fail (e text)

  abbrev pub or_fail : {F A : Type 0} → Result F A → (F → X) → Run S E X A
  or_fail (ok a) f = return a
  or_fail (err e) f = fail (f e)
