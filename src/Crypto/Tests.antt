-- ===== src/Crypto/Tests.antt =====
-- examples/linx-indexer/src/crypto.rs with toy libraries.
use linx_app_backend.Base.{
  ℕ, zero, suc, ◌+◌, true, some, List, [], ◌∷◌, String, length, ◌≡◌, refl, ap, ◌∙◌, arith, ==_iff,
}
use linx_app_backend.Base.Outcome.{ok}
use linx_app_backend.Address.{p2pk}
use linx_app_backend.Crypto.{
  sign_message, verify_signature, address_from_private_key, verify_public_key_for_address,
}
use linx_app_backend.Crypto.Samples.{
  strokes, write_bytes, read_bytes, cons_some, copies, first_of_32, toy,
}
use linx_app_backend.Crypto.Laws.{ReadsBack, Hashes, Verifies}
use linx_app_backend.Crypto.Signatures.{verify_signature-sign_message}
use linx_app_backend.Crypto.Addresses.{own_address_verified, own_address_verdict}

read-strokes :
    (n b : ℕ) (rest : String)
    → read_bytes n (strokes b rest) ≡ cons_some (n + b) (read_bytes 0 rest)
unfolding read_bytes strokes
read-strokes n zero rest =
    let same : n ≡ n + 0 = omega arith in ap (λ k. cons_some k (read_bytes 0 rest)) same
read-strokes n (suc b) rest =
    let same : suc n + b ≡ n + suc b = omega arith in
    read-strokes (suc n) b rest ∙ ap (λ k. cons_some k (read_bytes 0 rest)) same

read-write : (bytes : List ℕ) → read_bytes 0 (write_bytes bytes) ≡ some bytes
unfolding write_bytes read_bytes
read-write [] = refl
read-write (b ∷ bytes) =
    let same : 0 + b ≡ b = omega arith in
    read-strokes 0 b (write_bytes bytes)
    ∙ ap (λ k. cons_some k (read_bytes 0 (write_bytes bytes))) same
    ∙ ap (cons_some b) (read-write bytes)

toy-ReadsBack : ReadsBack toy
toy-ReadsBack = record {
  hex_decode-hex_encode = read-write;
  bs58_decode-bs58_encode = read-write;
  from_compact-serialize_compact = λ s. refl;
  public_key_from_slice-serialize = λ k. refl;
}

zero-ne-size : ¬ (◌≡◌ {A = ℕ} 0 32)
zero-ne-size e = omega arith

accepted : (digest : List ℕ) → length digest ≡ 32 → (m : ℕ) × (first_of_32 digest ≡ some m)
accepted [] h = elim (zero-ne-size h) [ ]
accepted (b ∷ bytes) h = (b, ground arith)

toy-Hashes : Hashes toy
toy-Hashes = record {
  length-blake2b = λ bytes. refl;
  length-sha256 = λ bytes. refl;
  digest_accepted = accepted;
}

toy-Verifies : Verifies toy
toy-Verifies m k = let a = (==_iff m m).1 refl in let b = (==_iff k k).1 refl in ground arith

verify_signature-sign_message_example :
    (signature : String) × (sign_message toy "pay" (copies 32 9) ≡ ok signature)
    × (verify_signature toy (write_bytes (9 ∷ [])) "pay" signature ≡ ok true)
verify_signature-sign_message_example =
    verify_signature-sign_message toy toy-ReadsBack toy-Hashes toy-Verifies "pay" (copies 32 9) 9
      refl refl

own_address_verified_example :
    (address : String) × (address_from_private_key toy (copies 32 9) p2pk ≡ ok address)
    × (verify_public_key_for_address toy (write_bytes (9 ∷ [])) address ≡ own_address_verdict p2pk)
own_address_verified_example =
    own_address_verified toy toy-ReadsBack toy-Hashes p2pk (copies 32 9) 9 refl refl
