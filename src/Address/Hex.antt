-- ===== src/Address/Hex.antt =====
-- Bytes survive being written as hexadecimal text and read again (examples/linx-indexer/src/lib.rs).
use Prim.Native.Char.{code}
use linx_app_backend.Base.{
  ℕ, zero, suc, ◌+◌, ◌*◌, ◌/◌, ◌%◌, ◌<◌, Bool, true, false, not, ◌&&◌, Option, some, none, List, [],
  ◌∷◌, ◌≡◌, refl, ap, ◌∙◌, arith, ◌==◌, ==_iff, All,
}
use linx_app_backend.Base.Equality.{and_true}
use linx_app_backend.Base.Outcome.{Outcome, ok, panic, ◌>>=◌}
use linx_app_backend.Address.{
  codes, digit_value, from_str_radix, hex_pairs, hex_to_bin_unsafe, hex_digit, bin_to_hex,
}

abbrev reads : ℕ → Option ℕ → Bool
reads n none = false
reads n (some m) = m == n

-- A digit reads as its number, and is no sign.
reads_back : ℕ → Bool
reads_back n = reads n (digit_value (code (hex_digit n))) && not (code (hex_digit n) == b'+')

all_below : ℕ → (ℕ → Bool) → Bool
all_below zero test = true
all_below (suc n) test = test n && all_below n test

all_below_sound :
    (n : ℕ) (test : ℕ → Bool) (x : ℕ) → all_below n test ≡ true → x < n → test x ≡ true
unfolding all_below
all_below_sound zero test x h lt = elim (lt) [ ]
all_below_sound (suc n) test x h lt = ground (arith, all_below_sound n test x)

digits_16 : all_below 16 reads_back ≡ true
unfolding all_below reads_back hex_digit
digits_16 = refl

reads→eq : (n : ℕ) (o : Option ℕ) → reads n o ≡ true → o ≡ some n
reads→eq n none h = cc
reads→eq n (some m) h = ap some ((==_iff m n).0 h)

not_true→false : (b : Bool) → not b ≡ true → b ≡ false
not_true→false true h = cc
not_true→false false h = refl

digit_value-hex_digit : (n : ℕ) → n < 16 → digit_value (code (hex_digit n)) ≡ some n
unfolding reads_back
digit_value-hex_digit n h =
    reads→eq n (digit_value (code (hex_digit n)))
      (and_true (reads n (digit_value (code (hex_digit n)))) (not (code (hex_digit n) == b'+'))
        (all_below_sound 16 reads_back n digits_16 h)).0

hex_digit-ne-sign : (n : ℕ) → n < 16 → (code (hex_digit n) == b'+') ≡ false
unfolding reads_back
hex_digit-ne-sign n h =
    not_true→false (code (hex_digit n) == b'+')
      (and_true (reads n (digit_value (code (hex_digit n)))) (not (code (hex_digit n) == b'+'))
        (all_below_sound 16 reads_back n digits_16 h)).1

pair_value :
    (a b high low : ℕ)
    → digit_value a ≡ some high
    → digit_value b ≡ some low
    → (a == b'+') ≡ false
    → from_str_radix a b ≡ some (16 * high + low)
pair_value a b high low ha hb sign = rw sign (rw ha (rw hb refl))

abbrev continued : Option ℕ → Outcome (List ℕ) → Outcome (List ℕ)
continued o others = elim o [ none ↦ panic | some byte ↦ others >>= λ bytes. ok (byte ∷ bytes) ]

hex_pairs-cons :
    (a b byte : ℕ) (rest bytes : List ℕ)
    → from_str_radix a b ≡ some byte
    → hex_pairs rest ≡ ok bytes
    → hex_pairs (a ∷ b ∷ rest) ≡ ok (byte ∷ bytes)
unfolding hex_pairs
hex_pairs-cons a b byte rest bytes pair others =
    ap (λ o. continued o (hex_pairs rest)) pair ∙ ap (λ r. continued (some byte) r) others

-- Bytes that are written as hexadecimal text are read back as they were.
pub hex_to_bin_unsafe-bin_to_hex :
    (bytes : List ℕ) → All (λ b. b < 256) bytes → hex_to_bin_unsafe (bin_to_hex bytes) ≡ ok bytes
unfolding bin_to_hex hex_pairs
hex_to_bin_unsafe-bin_to_hex [] h = refl
hex_to_bin_unsafe-bin_to_hex (b ∷ bytes) (small, h) =
    let pair =
      pair_value (code (hex_digit (b / 16))) (code (hex_digit (b % 16))) (b / 16) (b % 16)
        (digit_value-hex_digit (b / 16) (omega arith))
        (digit_value-hex_digit (b % 16) (omega arith)) (hex_digit-ne-sign (b / 16) (omega arith)) in
    let byte : 16 * (b / 16) + b % 16 ≡ b = omega arith in
    hex_pairs-cons (code (hex_digit (b / 16))) (code (hex_digit (b % 16))) b
      (codes (bin_to_hex bytes)) bytes (pair ∙ ap some byte) (hex_to_bin_unsafe-bin_to_hex bytes h)
