-- ===== src/Types/Libraries.antt =====
-- The libraries `bigdecimal` and `chrono`, as far as the program calls them, and
-- crates/bento-types/src/utils/time.rs, which converts a block's timestamp.
use linx_app_backend.Base.{ℕ, ◌^◌, Bool, Option, String}
use linx_app_backend.Base.HashMap.{unwrap_or}
use linx_app_backend.Base.Ints.{ℤ, div_trunc, rem_trunc, times, as_unsigned}

-- `BigDecimal`: its zero and the test for it, its sum, `a <= b` and `parse`.
pub record BigDecimal (D : Type 0) : Type 0 where
  pub zero_decimal : D
  pub is_zero : D → Bool
  pub plus : D → D → D
  pub le : D → D → Bool
  pub parse : String → Option D

-- `text.parse::<BigDecimal>().unwrap_or_default()`
abbrev pub parse_or_zero : {D : Type 0} → BigDecimal D → String → D
parse_or_zero decimal text = unwrap_or decimal.zero_decimal (decimal.parse text)

-- `NaiveDateTime`: its default, and the time a number of seconds and nanoseconds after 1970.
pub record NaiveDateTime (T : Type 0) : Type 0 where
  pub default_time : T
  pub from_timestamp : ℤ → ℕ → Option T

module _ {T : Type 0} (chrono : NaiveDateTime T) where
  unfoldable pub timestamp_millis_to_naive_datetime : ℤ → T
  timestamp_millis_to_naive_datetime timestamp_millis =
      let seconds = div_trunc timestamp_millis 1000 in
      let nanoseconds = times (rem_trunc timestamp_millis 1000) 1000000 in
      unwrap_or chrono.default_time
        (chrono.from_timestamp seconds (as_unsigned (2 ^ 32) nanoseconds))
