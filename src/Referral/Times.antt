-- ===== src/Referral/Times.antt =====
-- The times of examples/linx-indexer/src/routers/points_router.rs: an i64 is the number of its 64
-- bits, whose upper half stands for the negative numbers; a difference wraps around in a release
-- build, and so does the absolute value of the least number.
use linx_app_backend.Base.{
  ℕ, zero, suc, ◌-◌, ◌/◌, ◌%◌, ◌^◌, Bool, not, ◌&&◌, String, ltb, if◌then◌else◌,
}
use linx_app_backend.Base.U64.{u64_mod, sub64}
use linx_app_backend.Address.{hex_digit}

abbrev pub is_negative : ℕ → Bool
is_negative bits = not (ltb bits (2 ^ 63))

-- `abs()`
abbrev pub abs_i64 : ℕ → ℕ
abs_i64 bits = if is_negative bits then u64_mod - bits else bits

-- `a > limit`, for a limit that is not negative
abbrev pub exceeds : ℕ → ℕ → Bool
exceeds bits limit = not (is_negative bits) && ltb limit bits

abbrev pub max_time_diff_ms : ℕ
max_time_diff_ms = 300000

unfoldable pub is_old : ℕ → ℕ → Bool
is_old current_timestamp timestamp =
    exceeds (abs_i64 (sub64 current_timestamp timestamp)) max_time_diff_ms

-- The decimal digits of a number, before a text; a 64-bit number has at most 20.
unfoldable pub digits : ℕ → ℕ → String → String
digits zero n rest = rest
digits (suc fuel) n rest =
    let more = digits fuel (n / 10) (String.◌∷◌ (hex_digit (n % 10)) rest) in
    if ltb n 10 then String.◌∷◌ (hex_digit n) rest else more

unfoldable pub show_i64 : ℕ → String
show_i64 bits =
    if is_negative bits then String.◌∷◌ "-" (digits 20 (u64_mod - bits) "") else digits 20 bits ""
