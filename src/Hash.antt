-- ===== src/Hash.antt =====
-- crates/iroh-drop/src/hash.rs: the hex form of a blob hash. The crate `data_encoding` is a parameter.
pub mod Digits
use iroh_drop.Prelude.{
  ℕ, ◌+◌, ◌*◌, ◌<◌, ◌≡◌, Bool, true, false, not, ◌&&◌, ◌||◌, Option, none, some, List, [], ◌∷◌,
  length, take, leb, ltb, ◌==◌, if◌then◌else◌, All,
}
use iroh_drop.Text.{Text, Bytes, byte_len, starts_with, is_empty}
use iroh_drop.Message.{BlobHash}
use iroh_drop.Error.{Result, ok, err}

-- `data_encoding::HEXLOWER`, on texts of ASCII: what it decodes is what it encodes.
pub record HexLower : Type 0 where
  pub encode : Bytes → Text
  pub decode : Text → Option Bytes
  pub decode_encode : (b : Bytes) → All (λ x. x < 256) b → decode (encode b) ≡ some b

-- `from_hex` fails with one of three texts.
pub data HexFault : Type 0 where
  wrong_length : ℕ → HexFault
  not_hex not_32_bytes : HexFault

-- `char::is_whitespace`: the property White_Space.
abbrev pub is_whitespace : ℕ → Bool
is_whitespace c =
    (leb 9 c && leb c 13)
    || (c == 32)
    || (c == 0x85)
    || (c == 0xa0)
    || (c == 0x1680)
    || (leb 0x2000 c && leb c 0x200a)
    || (c == 0x2028)
    || (c == 0x2029)
    || (c == 0x202f)
    || (c == 0x205f)
    || (c == 0x3000)

abbrev pub trim_start : Text → Text
trim_start [] = []
trim_start (c ∷ s) = if is_whitespace c then trim_start s else c ∷ s

abbrev pub trim_end : Text → Text
trim_end [] = []
trim_end (c ∷ s) =
    let rest = trim_end s in if is_empty rest && is_whitespace c then [] else c ∷ rest

abbrev pub to_ascii_lowercase : Text → Text
to_ascii_lowercase [] = []
to_ascii_lowercase (c ∷ s) = (if leb 65 c && leb c 90 then c + 32 else c) ∷ to_ascii_lowercase s

module _ (hex : HexLower) where
  unfoldable pub to_hex : BlobHash → Text
  to_hex h = hex.encode h

  unfoldable pub fmt_short : BlobHash → Text
  fmt_short h = hex.encode (take 4 h)

  unfoldable pub from_hex : Text → Result HexFault BlobHash
  from_hex s =
      if byte_len s == 64
      then (elim (hex.decode s) [
        | none ↦ err not_hex
        | some b ↦ if length b == 32 then ok b else err not_32_bytes
      ])
      else err (wrong_length (byte_len s))

  unfoldable pub matches_prefix : Text → BlobHash → Bool
  unfolding to_hex
  matches_prefix prefix h =
      let p = to_ascii_lowercase (trim_end (trim_start prefix)) in
      not (is_empty p) && starts_with (to_hex h) p
