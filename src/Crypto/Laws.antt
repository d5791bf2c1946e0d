-- ===== src/Crypto/Laws.antt =====
-- What examples/linx-indexer/src/crypto.rs relies on in its libraries.
use linx_app_backend.Base.{ℕ, true, some, List, length, ◌≡◌}
use linx_app_backend.Crypto.{Libraries}

-- What is written is read back: hexadecimal text, base 58, signatures and public keys.
pub record ReadsBack {SecretKey PublicKey Signature Message : Type 0}
    (libraries : Libraries SecretKey PublicKey Signature Message) : Type 0 where
  pub hex_decode-hex_encode :
      (bytes : List ℕ) → libraries.hex_decode (libraries.hex_encode bytes) ≡ some bytes
  pub bs58_decode-bs58_encode :
      (bytes : List ℕ) → libraries.bs58_decode (libraries.bs58_encode bytes) ≡ some bytes
  pub from_compact-serialize_compact :
      (signature : Signature)
      → libraries.from_compact (libraries.serialize_compact signature) ≡ some signature
  pub public_key_from_slice-serialize :
      (key : PublicKey) → libraries.public_key_from_slice (libraries.serialize key) ≡ some key

-- The hashes have 32 bytes, and 32 bytes are a message that can be signed.
pub record Hashes {SecretKey PublicKey Signature Message : Type 0}
    (libraries : Libraries SecretKey PublicKey Signature Message) : Type 0 where
  pub length-blake2b : (bytes : List ℕ) → length (libraries.blake2b bytes) ≡ 32
  pub length-sha256 : (bytes : List ℕ) → length (libraries.sha256 bytes) ≡ 32
  pub digest_accepted :
      (digest : List ℕ)
      → length digest ≡ 32
      → (m : Message) × (libraries.from_digest_slice digest ≡ some m)

-- A signature verifies under the public key of the secret key that made it.
abbrev pub Verifies :
    {SecretKey PublicKey Signature Message : Type 0}
    → Libraries SecretKey PublicKey Signature Message
    → Type 0
Verifies {SecretKey} {PublicKey} {Signature} {Message} libraries =
    (m : Message) (key : SecretKey)
    → libraries.verify_ecdsa m (libraries.sign_ecdsa m key) (libraries.from_secret_key key) ≡ true
