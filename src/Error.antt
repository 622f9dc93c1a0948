-- ===== src/Error.antt =====
-- The error types of crates/iroh-drop/src/error.rs that the modelled code returns. Where the source
-- puts a message text into an error, the model has a constructor for each message.
use iroh_drop.Prelude.{ℕ, Bool, true, false}
use iroh_drop.Text.{Text}

-- Why a name is refused (`ProtocolError::InvalidName`).
pub data NameFault : Type 0 where
  empty_name dot_component path_separator control_character : NameFault
  leading_dot trailing_dot_or_space : NameFault
  name_too_long : ℕ → NameFault
  escapes_output_directory no_free_name : NameFault

-- Which metadata limit is exceeded (`ProtocolError::MetadataLimit`).
pub data MetadataFault : Type 0 where
  too_many_entries key_too_long value_too_long : ℕ → MetadataFault

-- What could not be decoded (`ProtocolError::Malformed`).
pub data Malformation : Type 0 where
  bad_frame bad_envelope bad_signature_length : Malformation
  bad_offer bad_extension bad_provider bad_request : Malformation
  sealing_failed not_sealed sealed_too_short bad_plaintext : Malformation
  unsealed_kind presence_status : ℕ → Malformation

pub data ProtocolError : Type 0 where
  unsupported_version : ℕ → ProtocolError
  message_too_large : ℕ → ProtocolError
  malformed : Malformation → ProtocolError
  quota_exceeded rate_limited invalid_signature unseal no_drop_key invalid_author : ProtocolError
  invalid_name : NameFault → ProtocolError
  metadata_limit : MetadataFault → ProtocolError

pub data PolicyError : Type 0 where
  too_large : ℕ → ℕ → PolicyError
  media_type_rejected : Text → PolicyError
  total_quota_exceeded : ℕ → ℕ → ℕ → PolicyError
  concurrency_limit : ℕ → ℕ → PolicyError

pub data Result {ℓ} (E A : Type ℓ) : Type ℓ where
  ok : A → Result E A
  err : E → Result E A

infixl 5 ◌>>=◌ ◌>>◌
abbrev pub ◌>>=◌ {ℓ} : {E A B : Type ℓ} → Result E A → (A → Result E B) → Result E B
ok a >>= f = f a
err e >>= f = err e

abbrev pub ◌>>◌ {ℓ} : {E A B : Type ℓ} → Result E A → Result E B → Result E B
m >> k = m >>= λ _. k

-- An early return: `if b { return Err(e) }`.
abbrev pub refuse_if : {E : Type 0} → Bool → E → Result E (Unit {0})
refuse_if true e = err e
refuse_if false e = ok tt
