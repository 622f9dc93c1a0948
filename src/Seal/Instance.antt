-- ===== src/Seal/Instance.antt =====
-- A toy cipher that has the laws, for the tests: it appends a checksum.
use iroh_drop.Prelude.{
  ℕ, ◌+◌, ◌-◌, ◌*◌, ◌≡◌, refl, Option, none, some, [], ◌∷◌, ◌++◌, take, drop, length, length-append,
  arith, if◌then◌else◌,
}
use iroh_drop.Text.{Bytes, text_eq, text_eq_refl}
use iroh_drop.Seal.{Kdf, be_bytes}
use iroh_drop.Seal.Sealing.{Aead}
use iroh_drop.Seal.RoundTrip.{IsAead, take-append, drop-append}
use iroh_drop.Frame.Instance.{length-be_bytes}

unfoldable pub kdf : Kdf
kdf = record { hkdf = λ salt ikm info. ikm ++ salt ++ info; hmac = λ k m. k ++ m }

abbrev checksum : ℕ → Bytes → ℕ
checksum acc [] = acc
checksum acc (x ∷ b) = checksum (acc * 257 + x) b

unfoldable tag : Bytes → Bytes → Bytes → Bytes → Bytes
tag key nonce aad text = be_bytes 16 (checksum 0 (key ++ nonce ++ aad ++ text))

unfoldable open_tagged : Bytes → Bytes → Bytes → Bytes → Bytes → Option Bytes
unfolding tag
open_tagged key nonce aad text rest =
    if text_eq (tag key nonce aad text) rest then some text else none

unfoldable pub aead : Aead
unfolding tag open_tagged be_bytes
aead = record {
  encrypt = λ key nonce aad text. some (text ++ tag key nonce aad text);
  decrypt = λ key nonce aad c.
      open_tagged key nonce aad (take (length c - 16) c) (drop (length c - 16) c);
}

split_lem :
    (key nonce aad text : Bytes) → length (text ++ tag key nonce aad text) - 16 ≡ length text
unfolding tag
split_lem key nonce aad text = omega (
  arith,
  length-append text (tag key nonce aad text),
  length-be_bytes 16 (checksum 0 (key ++ nonce ++ aad ++ text)),
)

decrypt_lem :
    (key nonce aad text : Bytes)
    → aead.decrypt key nonce aad (text ++ tag key nonce aad text) ≡ some text
unfolding aead
decrypt_lem key nonce aad text = rw (
  split_lem key nonce aad text,
  take-append (length text) text (tag key nonce aad text) refl,
  drop-append (length text) text (tag key nonce aad text) refl,
  text_eq_refl (tag key nonce aad text),
)

pub aead-IsAead : IsAead aead
unfolding aead tag
aead-IsAead = record {
  decrypt-encrypt = λ key nonce aad text c e. ground (arith, decrypt_lem key nonce aad text);
  length-encrypt = λ key nonce aad text c e. ground (
    arith,
    length-append text (tag key nonce aad text),
    length-be_bytes 16 (checksum 0 (key ++ nonce ++ aad ++ text)),
  );
}
