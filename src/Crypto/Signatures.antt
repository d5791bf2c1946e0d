-- ===== src/Crypto/Signatures.antt =====
-- Signing and verifying by examples/linx-indexer/src/crypto.rs.
use linx_app_backend.Base.{ℕ, true, some, List, String, length, ◌≡◌, refl, ◌==◌, ==_iff}
use linx_app_backend.Base.Outcome.{ok}
use linx_app_backend.Crypto.{Libraries, sign_message, verify_signature, as_bytes}
use linx_app_backend.Crypto.Laws.{ReadsBack, Hashes, Verifies}

-- With a private key of 32 bytes that the curve accepts, every message can be signed, and the
-- signature is valid for the message under the public key of that private key.
pub verify_signature-sign_message :
    {SecretKey PublicKey Signature Message : Type 0}
    (libraries : Libraries SecretKey PublicKey Signature Message)
    → ReadsBack libraries
    → Hashes libraries
    → Verifies libraries
    → (text : String) (private_key_bytes : List ℕ) (secret_key : SecretKey)
    → length private_key_bytes ≡ 32
    → libraries.secret_key_from_slice private_key_bytes ≡ some secret_key
    → (signature : String) × (sign_message libraries text private_key_bytes ≡ ok signature)
      × (verify_signature libraries
            (libraries.hex_encode (libraries.serialize (libraries.from_secret_key secret_key)))
            text
            signature
          ≡ ok true)
unfolding sign_message verify_signature
verify_signature-sign_message libraries reads hashes verifies text private_key_bytes secret_key size
      key =
    let digest = libraries.sha256 (as_bytes text) in
    let (m, digested) = hashes.digest_accepted digest (hashes.length-sha256 (as_bytes text)) in
    let signed = libraries.sign_ecdsa m secret_key in
    let public_key = libraries.from_secret_key secret_key in
    let full : (length private_key_bytes == 32) ≡ true =
      (==_iff (length private_key_bytes) 32).1 size in
    (
      libraries.hex_encode (libraries.serialize_compact signed),
      rw full (rw digested (rw key refl)),
      rw digested (
          rw (reads.hex_decode-hex_encode (libraries.serialize_compact signed)) (
            rw (reads.from_compact-serialize_compact signed) (
              rw (reads.hex_decode-hex_encode (libraries.serialize public_key)) (
                rw (reads.public_key_from_slice-serialize public_key)
                  (rw (verifies m secret_key) refl))))),
    )
