-- ===== src/Seal.antt =====
-- The keys of a private drop and the proofs of possession, of crates/iroh-drop/src/seal.rs. HKDF-SHA256
-- and HMAC-SHA256 are parameters.
pub mod Sealing
pub mod Relaying
pub mod RoundTrip
pub mod Accepted
pub mod Instance
mod Tests
use iroh_drop.Prelude.{ℕ, zero, suc, ◌/◌, ◌%◌, ◌≡◌, refl, Bool, [], ◌∷◌, ◌++◌}
use iroh_drop.Text.{Bytes, codes, text_eq}
use iroh_drop.Message.{EndpointId, TopicId}

-- `hkdf salt ikm info` is 32 bytes of output; `hmac key message` is the tag.
pub record Kdf : Type 0 where
  pub hkdf : Bytes → Bytes → Bytes → Bytes
  pub hmac : Bytes → Bytes → Bytes

abbrev pub sealed_wire_version : ℕ
sealed_wire_version = 4

abbrev pub kind_sealed : ℕ
kind_sealed = 4

abbrev pub DropKey : Type 0
DropKey = Bytes

-- `as_bytes` of an endpoint id, the most significant byte first.
unfoldable pub be_bytes : ℕ → ℕ → Bytes
be_bytes zero n = []
be_bytes (suc width) n = be_bytes width (n / 256) ++ (n % 256) ∷ []

unfoldable pub seal_kdf_info : Bytes
seal_kdf_info = codes "iroh-drop/v4/seal"

unfoldable pub sync_hkdf_info : Bytes
sync_hkdf_info = codes "iroh-drop/v4/sync"

module _ (kdf : Kdf) where
  unfoldable pub sync_key : DropKey → TopicId → Bytes
  sync_key key topic = kdf.hkdf topic key sync_hkdf_info

  unfoldable pub aead_key : DropKey → TopicId → Bytes
  aead_key key topic = kdf.hkdf topic key seal_kdf_info

  unfoldable pub sync_proof : DropKey → TopicId → EndpointId → EndpointId → Bytes → Bytes
  unfolding sync_key be_bytes
  sync_proof key topic requester responder request_bytes =
      kdf.hmac (sync_key key topic)
        (be_bytes 32 requester ++ be_bytes 32 responder ++ request_bytes)

  unfoldable pub verify_sync_proof :
      DropKey → TopicId → EndpointId → EndpointId → Bytes → Bytes → Bool
  unfolding sync_key be_bytes
  verify_sync_proof key topic requester responder request_bytes proof =
      text_eq
        (kdf.hmac (sync_key key topic)
          (be_bytes 32 requester ++ be_bytes 32 responder ++ request_bytes))
        proof

  -- A proof verifies exactly when it is the one that the same key makes.
  pub verify_sync_proof_lem :
      (key : DropKey) (topic : TopicId) (requester responder : EndpointId) (bytes proof : Bytes)
      → verify_sync_proof key topic requester responder bytes proof
        ≡ text_eq (sync_proof key topic requester responder bytes) proof
  unfolding verify_sync_proof sync_proof
  verify_sync_proof_lem key topic requester responder bytes proof = refl
