-- ===== src/Hash/Digits.antt =====
-- A concrete `HexLower`, for the tests.
use iroh_drop.Prelude.{
  ℕ, ◌+◌, ◌-◌, ◌*◌, ◌/◌, ◌%◌, ◌<◌, ◌≡◌, refl, ◌&&◌, Option, none, some, [], ◌∷◌, arith, leb, ltb,
  if◌then◌else◌, All,
}
use iroh_drop.Text.{Text, Bytes}
use iroh_drop.Hash.{HexLower}

abbrev digit : ℕ → ℕ
digit n = if ltb n 10 then 48 + n else 87 + n

abbrev value : ℕ → Option ℕ
value c =
    if leb 48 c && leb c 57
    then some (c - 48)
    else if leb 97 c && leb c 102
    then some (c - 87)
    else none

unfoldable pub encode : Bytes → Text
encode [] = []
encode (x ∷ b) = digit (x / 16) ∷ digit (x % 16) ∷ encode b

-- Two digits before what the rest decodes to.
abbrev join : Option ℕ → Option ℕ → Option Bytes → Option Bytes
join (some h) (some l) (some b) = some ((h * 16 + l) ∷ b)
join _ _ _ = none

unfoldable pub decode : Text → Option Bytes
decode [] = some []
decode (c ∷ []) = none
decode (c ∷ d ∷ s) = join (value c) (value d) (decode s)

value-digit : (n : ℕ) → n < 16 → value (digit n) ≡ some n
value-digit n h = ground arith

pub decode_encode : (b : Bytes) → All (λ x. x < 256) b → decode (encode b) ≡ some b
unfolding decode encode
decode_encode [] h = refl
decode_encode (x ∷ b) (lt, h) =
    rw (value-digit (x / 16) (omega arith), value-digit (x % 16) (omega arith), decode_encode b h)
      (ground arith)

unfoldable pub hex_digits : HexLower
unfolding encode decode
hex_digits = record { encode = encode; decode = decode; decode_encode = decode_encode }
