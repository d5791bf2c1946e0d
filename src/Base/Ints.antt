-- ===== src/Base/Ints.antt =====
-- Rust's signed integers: exact, with the conversions between widths written out.
use Prim.Native.Nat.{ℕ, zero, suc, ◌-◌, ◌*◌, ◌/◌, ◌%◌, ◌^◌}
use mathlib.Core.Bool.{Bool, true, false}
use mathlib.Core.Path.{◌≡◌, ap}
use mathlib.Core.Logic.{◌↔◌}
use linx_app_backend.Base.Tests.{if◌then◌else◌, ltb, leb, ◌==◌, ==_iff}
use linx_app_backend.Base.Equality.{Eq}

-- `negsuc n` is -(n + 1).
pub data ℤ : Type 0 where
  pos : ℕ → ℤ
  negsuc : ℕ → ℤ

abbrev pub is_nat : ℤ → ℕ → Bool
is_nat (pos n) m = n == m
is_nat (negsuc n) m = false

abbrev pub int_beq : ℤ → ℤ → Bool
int_beq (pos n) (pos m) = n == m
int_beq (pos n) (negsuc m) = false
int_beq (negsuc n) (pos m) = false
int_beq (negsuc n) (negsuc m) = n == m

pub int_beq_iff : (a b : ℤ) → (int_beq a b ≡ true) ↔ (a ≡ b)
int_beq_iff (pos n) (pos m) = (λ h. ap pos ((==_iff n m).0 h), λ e. (==_iff n m).1 (cc))
int_beq_iff (pos n) (negsuc m) = (λ h. cc, λ e. cc)
int_beq_iff (negsuc n) (pos m) = (λ h. cc, λ e. cc)
int_beq_iff (negsuc n) (negsuc m) = (λ h. ap negsuc ((==_iff n m).0 h), λ e. (==_iff n m).1 (cc))

instance abbrev pub int_eq : Eq ℤ
int_eq = record { beq = int_beq; beq_iff = int_beq_iff }

-- `a <= b`
abbrev pub le_int : ℤ → ℤ → Bool
le_int (pos n) (pos m) = leb n m
le_int (pos n) (negsuc m) = false
le_int (negsuc n) (pos m) = true
le_int (negsuc n) (negsuc m) = leb m n

-- The bits of a number, in two's complement with `2 ^ w = modulus`.
abbrev pub as_unsigned : ℕ → ℤ → ℕ
as_unsigned modulus (pos n) = n % modulus
as_unsigned modulus (negsuc n) = modulus - 1 - n % modulus

-- `as i16`: the low 16 bits, read as a signed number.
unfoldable pub as_i16 : ℤ → ℤ
as_i16 z =
    let bits = as_unsigned (2 ^ 16) z in
    if ltb bits (2 ^ 15) then pos bits else negsuc (2 ^ 16 - 1 - bits)

-- `as i32`
unfoldable pub as_i32 : ℤ → ℤ
as_i32 z =
    let bits = as_unsigned (2 ^ 32) z in
    if ltb bits (2 ^ 31) then pos bits else negsuc (2 ^ 32 - 1 - bits)

-- Division and remainder by a positive number, rounded towards zero.
abbrev pub neg : ℕ → ℤ
neg zero = pos 0
neg (suc n) = negsuc n

abbrev pub div_trunc : ℤ → ℕ → ℤ
div_trunc (pos n) d = pos (n / d)
div_trunc (negsuc n) d = neg (suc n / d)

abbrev pub rem_trunc : ℤ → ℕ → ℤ
rem_trunc (pos n) d = pos (n % d)
rem_trunc (negsuc n) d = neg (suc n % d)

abbrev pub times : ℤ → ℕ → ℤ
times (pos n) d = pos (n * d)
times (negsuc n) d = neg (suc n * d)
