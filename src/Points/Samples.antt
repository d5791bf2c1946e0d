-- ===== src/Points/Samples.antt =====
-- Natural numbers as decimals, for tests.
use linx_app_backend.Base.{ℕ, ◌+◌, ◌*◌, ◌/◌, some, leb, ltb, ◌==◌}
use linx_app_backend.Points.Activity.{Arithmetic}

abbrev pub decimal : Arithmetic ℕ
decimal = record {
  zero_amount = 0;
  plus = λ a b. a + b;
  times = λ a b. a * b;
  divide = λ a b. a / b;
  at_least = λ a b. leb b a;
  greater = λ a b. ltb b a;
  is_zero = λ a. a == 0;
  from_i32 = λ a. a;
  from_u64 = λ a. a;
  round = λ a. a;
  ceiling = λ a. a;
  to_i32 = λ a. some a;
}
