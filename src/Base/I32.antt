-- ===== src/Base/I32.antt =====
-- Rust's `i32`, as the number of its 32 bits: the sum wraps around in a release build, and the upper
-- half of the numbers stands for the negative ones.
use Prim.Native.Nat.{ℕ, ◌+◌, ◌%◌, ◌^◌}
use mathlib.Core.Bool.{Bool, ◌&&◌}
use linx_app_backend.Base.Tests.{ltb}

abbrev pub i32_mod : ℕ
i32_mod = 2 ^ 32

abbrev pub add_i32 : ℕ → ℕ → ℕ
add_i32 a b = (a + b) % i32_mod

-- `a > 0`
abbrev pub is_positive : ℕ → Bool
is_positive a = ltb 0 a && ltb a (2 ^ 31)
