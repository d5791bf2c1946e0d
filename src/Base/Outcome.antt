-- ===== src/Base/Outcome.antt =====
-- What a fallible Rust function returns: a value, an error, or a panic (an index out of range, a
-- division by zero, an `unwrap` of nothing), which no caller in the program catches.
use Prim.Native.Nat.{ℕ}
use linx_app_backend.Base.Tests.{if◌then◌else◌}
use Prim.Native.String.{String}
use mathlib.Core.Path.{◌≡◌, refl}
use mathlib.Core.Bool.{Bool, true, false}
use mathlib.Core.List.{List, [], ◌∷◌}

-- The errors that the modelled code makes; `external` is one that the node or the database gives.
-- The last four are those of a handler, with their own HTTP status.
pub data Error : Type 0 where
  external : String → Error
  message : String → Error
  range_exceeds_maximum : ℕ → ℕ → Error
  failed_chunk : ℕ → ℕ → Error → Error
  context : String → Error → Error
  processor_failed : String → Error → Error
  forbidden : String → Error
  bad_request : String → Error
  not_found : String → Error
  internal : String → Error

pub data Outcome {ℓ} (A : Type ℓ) : Type ℓ where
  ok : A → Outcome A
  err : Error → Outcome A
  panic : Outcome A

-- `r?` followed by the rest of the function.
infixl 5 ◌>>=◌
abbrev pub ◌>>=◌ {ℓ κ} : {A : Type ℓ} {B : Type κ} → Outcome A → (A → Outcome B) → Outcome B
◌>>=◌ (ok value) rest = rest value
◌>>=◌ (err failure) rest = err failure
◌>>=◌ panic rest = panic

-- `result.with_context(|| …)`
abbrev pub with_context {ℓ} : {A : Type ℓ} → String → Outcome A → Outcome A
with_context s (ok a) = ok a
with_context s (err e) = err (context s e)
with_context s panic = panic

-- `iter.collect::<Result<Vec<_>, _>>()`: the first error ends the collection.
abbrev pub collect {ℓ} : {A : Type ℓ} → List (Outcome A) → Outcome (List A)
collect [] = ok []
collect (r ∷ rs) = r >>= λ a. collect rs >>= λ as'. ok (a ∷ as')

module _ {ℓ κ} {A : Type ℓ} {B : Type κ} where
  -- A function that ends well has had a value at its `?`.
  pub bind_ok :
      (r : Outcome A) (rest : A → Outcome B) {final : B}
      → (r >>= rest) ≡ ok final
      → (value : A) × (r ≡ ok value) × (rest value ≡ ok final)
  bind_ok panic rest ended = cc
  bind_ok (err failure) rest ended = cc
  bind_ok (ok value) rest ended = (value, refl, ended)

  -- The same behind an early return of an error.
  pub guarded_ok :
      (t : Bool) (e : Error) (r : Outcome A) (rest : A → Outcome B) {final : B}
      → (if t then err e else (r >>= rest)) ≡ ok final
      → (t ≡ false) × (value : A) × (r ≡ ok value) × (rest value ≡ ok final)
  guarded_ok true e r rest ended = cc
  guarded_ok false e r rest ended = let (value, p, q) = bind_ok r rest ended in (refl, value, p, q)
