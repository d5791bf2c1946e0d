-- ===== src/Crypto/Addresses.antt =====
-- The addresses that examples/linx-indexer/src/crypto.rs makes, and what it says of their keys.
use linx_app_backend.Base.{
  ℕ, Bool, true, some, List, [], ◌∷◌, String, length, ◌≡◌, refl, arith, ◌==◌, ==_iff,
}
use linx_app_backend.Base.Outcome.{Outcome, ok, err, message}
use linx_app_backend.Address.{AddressType, p2pkh, p2mpkh, p2sh, p2c, p2pk, p2hmpk, type_byte}
use linx_app_backend.Crypto.{
  Libraries, same_bytes, check_address, address_from_private_key, verify_public_key_for_address,
}
use linx_app_backend.Crypto.Laws.{ReadsBack, Hashes}

same_bytes_refl : (bytes : List ℕ) → same_bytes bytes bytes ≡ true
unfolding same_bytes
same_bytes_refl [] = refl
same_bytes_refl (b ∷ bytes) = let rest = same_bytes_refl bytes in ground arith

-- A key's own address verifies if its type is one of a hash; for the other two types the check refuses
-- it.
abbrev pub own_address_verdict : AddressType → Outcome Bool
own_address_verdict p2pkh = ok true
own_address_verdict p2mpkh = ok true
own_address_verdict p2sh = ok true
own_address_verdict p2c = ok true
own_address_verdict p2pk = err (message "Invalid P2PK address length")
own_address_verdict p2hmpk =
    err (message "Cannot verify single public key for P2HMPK multisig address")

module _ {SecretKey PublicKey Signature Message : Type 0}
    (libraries : Libraries SecretKey PublicKey Signature Message) where
  own_address_checked :
      (address_type : AddressType) (pubkey_bytes : List ℕ)
      → length (libraries.blake2b pubkey_bytes) ≡ 32
      → check_address libraries pubkey_bytes
          (type_byte address_type ∷ libraries.blake2b pubkey_bytes)
        ≡ own_address_verdict address_type
  own_address_checked p2pkh pubkey_bytes size =
      let same = same_bytes_refl (libraries.blake2b pubkey_bytes) in ground arith
  own_address_checked p2mpkh pubkey_bytes size =
      let same = same_bytes_refl (libraries.blake2b pubkey_bytes) in ground arith
  own_address_checked p2sh pubkey_bytes size =
      let same = same_bytes_refl (libraries.blake2b pubkey_bytes) in ground arith
  own_address_checked p2c pubkey_bytes size =
      let same = same_bytes_refl (libraries.blake2b pubkey_bytes) in ground arith
  own_address_checked p2pk pubkey_bytes size = ground arith
  own_address_checked p2hmpk pubkey_bytes size = ground arith

  -- With a private key of 32 bytes that the curve accepts an address of every type is made. The check
  -- of the public key against it returns true for the four types of a hash, and an error for P2PK,
  -- whose address is found too short, and for P2HMPK.
  pub own_address_verified :
      ReadsBack libraries
      → Hashes libraries
      → (address_type : AddressType) (private_key_bytes : List ℕ) (secret_key : SecretKey)
      → length private_key_bytes ≡ 32
      → libraries.secret_key_from_slice private_key_bytes ≡ some secret_key
      → (address : String) × (address_from_private_key libraries private_key_bytes address_type
          ≡ ok address)
        × (verify_public_key_for_address libraries
              (libraries.hex_encode (libraries.serialize (libraries.from_secret_key secret_key)))
              address
            ≡ own_address_verdict address_type)
  unfolding address_from_private_key verify_public_key_for_address
  own_address_verified reads hashes address_type private_key_bytes secret_key size key =
      let pubkey_bytes = libraries.serialize (libraries.from_secret_key secret_key) in
      let bytes = type_byte address_type ∷ libraries.blake2b pubkey_bytes in
      let full : (length private_key_bytes == 32) ≡ true =
        (==_iff (length private_key_bytes) 32).1 size in
      (
        libraries.bs58_encode bytes,
        rw full (rw key refl),
        rw (reads.hex_decode-hex_encode pubkey_bytes) (
            rw (reads.bs58_decode-bs58_encode bytes)
              (own_address_checked address_type pubkey_bytes (hashes.length-blake2b pubkey_bytes))),
      )
