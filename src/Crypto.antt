-- ===== src/Crypto.antt =====
-- examples/linx-indexer/src/crypto.rs: addresses from keys, signatures of messages, and the check that
-- a key belongs to an address. The curve, the hashes and the encodings are libraries', arguments
-- here. The texts of their errors are left out.
pub mod Laws
pub mod Signatures
pub mod Addresses
pub mod Samples
mod Tests
use Prim.Native.Char.{code}
use Prim.Native.String
use linx_app_backend.Base.{
  ℕ, zero, suc, ◌+◌, ◌-◌, ◌*◌, ◌/◌, ◌%◌, ◌^◌, Bool, true, false, not, ◌&&◌, Option, some, none,
  List, [], ◌∷◌, ◌++◌, String, length, ltb, leb, ◌==◌, if◌then◌else◌,
}
use linx_app_backend.Base.Outcome.{Outcome, Error, ok, err, message, ◌>>=◌}
use linx_app_backend.Address.{AddressType, type_byte}

-- The libraries `secp256k1`, `blake2`, `sha2`, `hex` and `bs58`: secret and public keys, signatures,
-- and digests as messages to sign.
pub record Libraries (SecretKey PublicKey Signature Message : Type 0) : Type 0 where
  pub secret_key_from_slice : List ℕ → Option SecretKey
  pub from_secret_key : SecretKey → PublicKey
  pub serialize : PublicKey → List ℕ
  pub public_key_from_slice : List ℕ → Option PublicKey
  pub from_digest_slice : List ℕ → Option Message
  pub sign_ecdsa : Message → SecretKey → Signature
  pub verify_ecdsa : Message → Signature → PublicKey → Bool
  pub serialize_compact : Signature → List ℕ
  pub from_compact : List ℕ → Option Signature
  pub blake2b : List ℕ → List ℕ
  pub sha256 : List ℕ → List ℕ
  pub hex_encode : List ℕ → String
  pub hex_decode : String → Option (List ℕ)
  pub bs58_encode : List ℕ → String
  pub bs58_decode : String → Option (List ℕ)

-- `map_err(|e| anyhow!("…: {}", e))?`
abbrev pub or_error : {A : Type 0} → String → Option A → Outcome A
or_error text none = err (message text)
or_error text (some a) = ok a

-- The UTF-8 of a character and of a text.
abbrev utf8 : ℕ → List ℕ → List ℕ
utf8 c rest =
    if ltb c (2 ^ 7)
    then c ∷ rest
    else if ltb c (2 ^ 11)
    then (192 + c / 64) ∷ (128 + c % 64) ∷ rest
    else if ltb c (2 ^ 16)
    then (224 + c / 4096) ∷ (128 + c / 64 % 64) ∷ (128 + c % 64) ∷ rest
    else (240 + c / 2 ^ 18) ∷ (128 + c / 4096 % 64) ∷ (128 + c / 64 % 64) ∷ (128 + c % 64) ∷ rest

unfoldable pub as_bytes : String → List ℕ
as_bytes String.[] = []
as_bytes (String.◌∷◌ c s) = utf8 (code c) (as_bytes s)

unfoldable pub same_bytes : List ℕ → List ℕ → Bool
same_bytes [] [] = true
same_bytes [] (b ∷ bs) = false
same_bytes (a ∷ as') [] = false
same_bytes (a ∷ as') (b ∷ bs) = a == b && same_bytes as' bs

abbrev take : ℕ → List ℕ → List ℕ
take zero bs = []
take (suc n) [] = []
take (suc n) (b ∷ bs) = b ∷ take n bs

abbrev drop : ℕ → List ℕ → List ℕ
drop zero bs = bs
drop (suc n) [] = []
drop (suc n) (b ∷ bs) = drop n bs

module _ {SecretKey PublicKey Signature Message : Type 0}
    (libraries : Libraries SecretKey PublicKey Signature Message) where
  unfoldable pub address_from_private_key : List ℕ → AddressType → Outcome String
  address_from_private_key private_key_bytes address_type =
      if not (length private_key_bytes == 32)
      then err (message "Private key must be 32 bytes")
      else (or_error "Invalid private key" (libraries.secret_key_from_slice private_key_bytes)
          >>= λ secret_key.
              let pubkey_bytes = libraries.serialize (libraries.from_secret_key secret_key) in
              ok (libraries.bs58_encode (type_byte address_type ∷ libraries.blake2b pubkey_bytes)))

  unfoldable pub sign_message : String → List ℕ → Outcome String
  sign_message text private_key_bytes =
      if not (length private_key_bytes == 32)
      then err (message "Private key must be 32 bytes")
      else (or_error "Invalid message hash"
            (libraries.from_digest_slice (libraries.sha256 (as_bytes text)))
          >>= λ secp_message.
              or_error "Invalid private key" (libraries.secret_key_from_slice private_key_bytes)
              >>= λ secret_key. ok (
                  libraries.hex_encode
                    (libraries.serialize_compact (libraries.sign_ecdsa secp_message secret_key))))

  unfoldable pub verify_signature : String → String → String → Outcome Bool
  verify_signature public_key_hex text signature_hex =
      or_error "Invalid message hash"
        (libraries.from_digest_slice (libraries.sha256 (as_bytes text)))
      >>= λ secp_message.
          or_error "Invalid signature hex" (libraries.hex_decode signature_hex)
          >>= λ signature_bytes.
              or_error "Invalid signature format" (libraries.from_compact signature_bytes)
              >>= λ signature.
                  or_error "Invalid public key hex" (libraries.hex_decode public_key_hex)
                  >>= λ pubkey_bytes.
                      or_error "Invalid public key" (libraries.public_key_from_slice pubkey_bytes)
                      >>= λ public_key.
                          ok (libraries.verify_ecdsa secp_message signature public_key)

  -- The address's bytes by the first of them, its type.
  abbrev check_address : List ℕ → List ℕ → Outcome Bool
  check_address pubkey_bytes [] = err (message "Empty address")
  check_address pubkey_bytes (address_type ∷ rest) =
      if leb address_type 3
      then (if not (length (address_type ∷ rest) == 33)
          then err (message "Invalid address length for type")
          else ok (same_bytes (libraries.blake2b pubkey_bytes) rest))
      else if address_type == 4
      then (if ltb (length (address_type ∷ rest)) 39
          then err (message "Invalid P2PK address length")
          else ok (
              same_bytes pubkey_bytes
                (take (length (address_type ∷ rest) - 4 - 2) (drop 2 (address_type ∷ rest)))))
      else if address_type == 5
      then err (message "Cannot verify single public key for P2HMPK multisig address")
      else err (message "Unsupported address type")

  unfoldable pub verify_public_key_for_address : String → String → Outcome Bool
  verify_public_key_for_address public_key_hex address =
      or_error "Invalid public key hex" (libraries.hex_decode public_key_hex) >>= λ pubkey_bytes.
      or_error "Invalid address format" (libraries.bs58_decode address) >>= λ decoded_address.
      check_address pubkey_bytes decoded_address
