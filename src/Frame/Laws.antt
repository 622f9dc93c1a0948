-- ===== src/Frame/Laws.antt =====
-- What the frames rely on of postcard and ed25519.
use iroh_drop.Prelude.{ℕ, ◌≤◌, ◌≡◌, true, some, length}
use iroh_drop.Text.{Bytes}
use iroh_drop.Seal.{be_bytes}
use iroh_drop.Frame.{Format, Postcard, Ed25519}

-- What is written is read back.
pub record IsFormat {A : Type 0} (format : Format A) : Type 0 where
  pub read-write : (a : A) → format.read (format.write a) ≡ some a

pub record IsPostcard (postcard : Postcard) : Type 0 where
  pub frames : IsFormat postcard.frames
  pub messages : IsFormat postcard.messages
  pub envelopes : IsFormat postcard.envelopes
  pub offers : IsFormat postcard.offers
  pub providers : IsFormat postcard.providers
  pub requests : IsFormat postcard.requests
  pub extensions : IsFormat postcard.extensions
  -- The bytes of a field stand among those of the frame.
  pub payload-le :
      (author signature payload : Bytes)
      → length payload
        ≤ length (
            postcard.frames.write
              (record { author = author; signature = signature; payload = payload }))
  pub envelope-le :
      (kind : ℕ) (payload : Bytes)
      → length payload
        ≤ length (postcard.envelopes.write (record { kind = kind; payload = payload }))

-- A secret key of ed25519: its public key is a key, and what it signs verifies.
pub record IsSecret (ed : Ed25519) (secret : Bytes) : Type 0 where
  pub is_key : ed.is_key (ed.public_key secret) ≡ true
  pub length-sign : (m : Bytes) → length (ed.sign secret m) ≡ 64
  pub verify-sign : (m : Bytes) → ed.verify (ed.public_key secret) m (ed.sign secret m) ≡ true
  pub as_bytes : be_bytes 32 (ed.endpoint_id (ed.public_key secret)) ≡ ed.public_key secret
