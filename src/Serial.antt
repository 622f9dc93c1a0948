-- ===== src/Serial.antt =====
-- A way to write values as lists of numbers and to read them back, which stands in for postcard in the
-- tests. What is read leaves a rest, as in `take_from_bytes`.
use iroh_drop.Prelude.{
  ℕ, zero, suc, ◌≡◌, refl, Option, none, some, List, [], ◌∷◌, ◌++◌, length, append_assoc,
  append-nil,
}
use iroh_drop.Text.{Bytes}
use iroh_drop.Frame.{Format}

infixl 5 ◌>>=◌
abbrev ◌>>=◌ : {A B : Type 0} → Option A → (A → Option B) → Option B
none >>= f = none
some a >>= f = f a

pub record Serial (A : Type 0) : Type 0 where
  pub put : A → Bytes
  pub take : Bytes → Option (A × Bytes)
  pub take-put : (a : A) (rest : Bytes) → take (put a ++ rest) ≡ some (a, rest)

abbrev take_number : Bytes → Option (ℕ × Bytes)
take_number [] = none
take_number (n ∷ s) = some (n, s)

pub take_number-put : (n : ℕ) (rest : Bytes) → take_number ((n ∷ []) ++ rest) ≡ some (n, rest)
take_number-put n rest = refl

unfoldable pub number : Serial ℕ
number = record { put = λ n. n ∷ []; take = take_number; take-put = take_number-put }

module _ {A B : Type 0} (a : Serial A) (b : Serial B) where
  abbrev put_both : A × B → Bytes
  put_both (x, y) = a.put x ++ b.put y

  abbrev take_both : Bytes → Option ((A × B) × Bytes)
  take_both s = a.take s >>= λ p. b.take p.1 >>= λ q. some ((p.0, q.0), q.1)

  pub take_both-put : (p : A × B) (rest : Bytes) → take_both (put_both p ++ rest) ≡ some (p, rest)
  take_both-put (x, y) rest =
      rw (append_assoc (a.put x) (b.put y) rest, a.take-put x (b.put y ++ rest), b.take-put y rest)

  unfoldable pub both : Serial (A × B)
  both = record { put = put_both; take = take_both; take-put = take_both-put }

module _ {A : Type 0} (a : Serial A) where
  abbrev pub put_each : List A → Bytes
  put_each [] = []
  put_each (x ∷ xs) = a.put x ++ put_each xs

  abbrev take_each : ℕ → Bytes → Option (List A × Bytes)
  take_each zero s = some ([], s)
  take_each (suc n) s = a.take s >>= λ p. take_each n p.1 >>= λ q. some (p.0 ∷ q.0, q.1)

  pub take_each-put :
      (xs : List A) (rest : Bytes) → take_each (length xs) (put_each xs ++ rest) ≡ some (xs, rest)
  take_each-put [] rest = refl
  take_each-put (x ∷ xs) rest = rw (
    append_assoc (a.put x) (put_each xs) rest,
    a.take-put x (put_each xs ++ rest),
    take_each-put xs rest,
  )

  abbrev take_list : Bytes → Option (List A × Bytes)
  take_list [] = none
  take_list (n ∷ s) = take_each n s

  unfoldable pub list : Serial (List A)
  list = record { put = λ xs. length xs ∷ put_each xs; take = take_list; take-put = take_each-put }

  abbrev put_option : Option A → Bytes
  put_option none = 0 ∷ []
  put_option (some x) = 1 ∷ a.put x

  abbrev take_tagged : ℕ → Bytes → Option (Option A × Bytes)
  take_tagged zero s = some (none, s)
  take_tagged (suc n) s = a.take s >>= λ p. some (some p.0, p.1)

  abbrev take_option : Bytes → Option (Option A × Bytes)
  take_option [] = none
  take_option (n ∷ s) = take_tagged n s

  pub take_option-put :
      (o : Option A) (rest : Bytes) → take_option (put_option o ++ rest) ≡ some (o, rest)
  take_option-put none rest = refl
  take_option-put (some x) rest = rw (a.take-put x rest)

  unfoldable pub option : Serial (Option A)
  option = record { put = put_option; take = take_option; take-put = take_option-put }

-- A type that is written as another.
module _ {A B : Type 0} (to : A → B) (of : B → A) (of-to : (a : A) → of (to a) ≡ a)
    (b : Serial B) where
  abbrev take_as : Bytes → Option (A × Bytes)
  take_as s = b.take s >>= λ p. some (of p.0, p.1)

  pub take_as-put : (a : A) (rest : Bytes) → take_as (b.put (to a) ++ rest) ≡ some (a, rest)
  take_as-put a rest = rw (b.take-put (to a) rest, of-to a)

  unfoldable pub as_other : Serial A
  as_other = record { put = λ a. b.put (to a); take = take_as; take-put = take_as-put }

module _ {A : Type 0} (a : Serial A) where
  abbrev read_first : Bytes → Option A
  read_first s = a.take s >>= λ p. some p.0

  unfoldable pub format : Format A
  format = record { write = a.put; read = read_first }

  pub read-write : (x : A) → format.read (format.write x) ≡ some x
  unfolding format
  read-write x = rw (← append-nil (a.put x)) (rw (a.take-put x []))
