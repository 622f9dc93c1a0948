-- ===== src/Text.antt =====
-- Strings as lists of Unicode scalar values (Rust's `char`s), bytes as numbers below 256.
use Prim.Native.Char.{code}
use Prim.Native.String.{String}
use iroh_drop.Prelude.{
  ℕ, ◌+◌, ◌≡◌, refl, Bool, true, false, List, [], ◌∷◌, ◌&&◌, ◌||◌, arith, leb, ltb, ◌==◌,
  if◌then◌else◌,
}
use iroh_drop.Map.{Key}

abbrev pub Text : Type 0
Text = List ℕ

abbrev pub Bytes : Type 0
Bytes = List ℕ

-- A text literal.
abbrev pub codes : String → Text
codes String.[] = []
codes (String.◌∷◌ c s) = code c ∷ codes s

-- `char::len_utf8`
abbrev pub len_utf8 : ℕ → ℕ
len_utf8 c = if ltb c 0x80 then 1 else if ltb c 0x800 then 2 else if ltb c 0x10000 then 3 else 4

-- `str::len`: the length in bytes of UTF-8.
abbrev pub byte_len : Text → ℕ
byte_len [] = 0
byte_len (c ∷ s) = len_utf8 c + byte_len s

-- `char::is_control`: the general category Cc.
abbrev pub is_control : ℕ → Bool
is_control c = leb c 0x1f || (leb 0x7f c && leb c 0x9f)

abbrev pub any : (ℕ → Bool) → List ℕ → Bool
any p [] = false
any p (c ∷ s) = p c || any p s

abbrev pub is_empty : List ℕ → Bool
is_empty [] = true
is_empty (c ∷ s) = false

abbrev pub text_eq : List ℕ → List ℕ → Bool
text_eq [] [] = true
text_eq (a ∷ s) (b ∷ t) = (a == b) && text_eq s t
text_eq _ _ = false

abbrev pub starts_with : List ℕ → List ℕ → Bool
starts_with s [] = true
starts_with (a ∷ s) (b ∷ t) = (a == b) && starts_with s t
starts_with [] (b ∷ t) = false

-- Whether the last character satisfies `p`.
abbrev pub last_is : (ℕ → Bool) → List ℕ → Bool
last_is p [] = false
last_is p (c ∷ []) = p c
last_is p (c ∷ d ∷ s) = last_is p (d ∷ s)

pub text_eq_refl : (s : Text) → text_eq s s ≡ true
text_eq_refl [] = refl
text_eq_refl (a ∷ s) = ground (arith, text_eq_refl s)

pub eq_of_text_eq : (s t : Text) → text_eq s t ≡ true → s ≡ t
eq_of_text_eq [] [] h = refl
eq_of_text_eq (a ∷ s) (b ∷ t) h = ground (arith, eq_of_text_eq s t)
eq_of_text_eq [] (b ∷ t) h = ground arith
eq_of_text_eq (a ∷ s) [] h = ground arith

pub text_ne : (s t : Text) → text_eq s t ≡ false → ¬ (s ≡ t)
text_ne s t h e = ground (arith, text_eq_refl s)

-- Decides by `text_eq`, so that it runs.
decide_by : (s t : Text) (b : Bool) → text_eq s t ≡ b → Dec (s ≡ t)
decide_by s t true h = yes (eq_of_text_eq s t h)
decide_by s t false h = no (text_ne s t h)

unfoldable pub text_discrete : Discrete Text
unfolding decide_by
text_discrete s t = decide_by s t (text_eq s t) refl

instance abbrev pub text_key : Key Text
text_key = record { dec = text_discrete }
