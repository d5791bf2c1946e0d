-- ===== src/Crypto/Samples.antt =====
-- Toy libraries for the tests: a key is a number, a signature the pair of the message and the key, a
-- hash 32 times the length, and bytes are written as strokes and commas.
use Prim.Native.Char.{code}
use linx_app_backend.Base.{
  ℕ, zero, suc, ◌&&◌, Option, some, none, List, [], ◌∷◌, String, length, ◌==◌, if◌then◌else◌,
}
use linx_app_backend.Crypto.{Libraries}

unfoldable pub strokes : ℕ → String → String
strokes zero rest = String.◌∷◌ "," rest
strokes (suc n) rest = String.◌∷◌ "|" (strokes n rest)

unfoldable pub write_bytes : List ℕ → String
write_bytes [] = String.[]
write_bytes (b ∷ bytes) = strokes b (write_bytes bytes)

abbrev pub cons_some : ℕ → Option (List ℕ) → Option (List ℕ)
cons_some n none = none
cons_some n (some bytes) = some (n ∷ bytes)

unfoldable pub read_bytes : ℕ → String → Option (List ℕ)
read_bytes n String.[] = some []
read_bytes n (String.◌∷◌ c rest) =
    let done = cons_some n (read_bytes 0 rest) in
    let more = read_bytes (suc n) rest in if code c == b',' then done else more

abbrev pub copies : ℕ → ℕ → List ℕ
copies zero n = []
copies (suc k) n = n ∷ copies k n

abbrev single : List ℕ → Option ℕ
single (k ∷ []) = some k
single bytes = none

abbrev two : List ℕ → Option (ℕ × ℕ)
two (a ∷ b ∷ []) = some (a, b)
two bytes = none

abbrev pub first_of_32 : List ℕ → Option ℕ
first_of_32 [] = none
first_of_32 (b ∷ bytes) = if length bytes == 31 then some b else none

abbrev pub toy : Libraries ℕ ℕ (ℕ × ℕ) ℕ
toy = record {
  secret_key_from_slice = first_of_32;
  from_secret_key = λ k. k;
  serialize = λ k. k ∷ [];
  public_key_from_slice = single;
  from_digest_slice = first_of_32;
  sign_ecdsa = λ m k. (m, k);
  verify_ecdsa = λ m s k. s.0 == m && s.1 == k;
  serialize_compact = λ s. s.0 ∷ s.1 ∷ [];
  from_compact = two;
  blake2b = λ bytes. copies 32 (length bytes);
  sha256 = λ bytes. copies 32 (length bytes);
  hex_encode = write_bytes;
  hex_decode = read_bytes 0;
  bs58_encode = write_bytes;
  bs58_decode = read_bytes 0;
}
