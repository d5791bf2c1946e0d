-- ===== src/Base/Equality.antt =====
-- Types whose values the program compares with `==`, and the sets and maps of the standard library
-- that stand on it. A `HashSet` is the list of its elements, a `HashMap` that of its entries.
use mathlib.Core.Path.{◌≡◌, refl, ap}
use mathlib.Core.Logic.{◌≢◌, ◌↔◌, inl, inr}
use mathlib.Core.Bool.{Bool, true, false, ◌&&◌, ◌||◌}
use mathlib.Core.List.{List, [], ◌∷◌, ◌++◌}
use Prim.Native.Nat.{ℕ}
use Prim.Native.String.{String}
use text.Mathlib.Text.{◌==◌ as str_eq}
use text.Mathlib.TextEquality.{eq_iff}
use linx_app_backend.Base.Tests.{◌==◌, ==_iff, if◌then◌else◌, Bool-cases}
use linx_app_backend.Base.Lists.{In}
use native.Mathlib.Omega.{arith}

pub and_true : (a b : Bool) → (a && b) ≡ true → (a ≡ true) × (b ≡ true)
and_true a b h = ground arith

pub record Eq (A : Type 0) : Type 0 where
  pub beq : A → A → Bool
  pub beq_iff : (a b : A) → (beq a b ≡ true) ↔ (a ≡ b)

abbrev pub eqb : {A : Type 0} ⦃e : Eq A⦄ → A → A → Bool
eqb ⦃e⦄ = e.beq

instance abbrev pub string_eq : Eq String
string_eq = record { beq = str_eq; beq_iff = eq_iff }

instance abbrev pub nat_eq : Eq ℕ
nat_eq = record { beq = ◌==◌; beq_iff = ==_iff }

module _ {A : Type 0} ⦃e : Eq A⦄ where
  pub eqb→eq : (a b : A) → eqb a b ≡ true → a ≡ b
  eqb→eq a b = (e.beq_iff a b).0

  pub eqb_refl : (a : A) → eqb a a ≡ true
  eqb_refl a = (e.beq_iff a a).1 refl

  pub eqb_false→ne : (a b : A) → eqb a b ≡ false → a ≢ b
  eqb_false→ne a b h q = let t = (e.beq_iff a b).1 q in cc

  pub ne→eqb_false : (a b : A) → a ≢ b → eqb a b ≡ false
  ne→eqb_false a b h = elim (Bool-cases (eqb a b)) [
    | inl t ↦ elim (h (eqb→eq a b t)) [ ]
    | inr f ↦ f
  ]

  -- `HashSet::contains`
  abbrev pub contains : List A → A → Bool
  contains [] a = false
  contains (x ∷ xs) a = eqb a x || contains xs a

  -- `HashSet::insert`
  abbrev pub insert_set : A → List A → List A
  insert_set a xs = if contains xs a then xs else xs ++ a ∷ []

  pub contains→In : (xs : List A) (a : A) → contains xs a ≡ true → In a xs
  contains→In [] a h = cc
  contains→In (x ∷ xs) a h = elim (Bool-cases (eqb a x)) [
    | inl t ↦ inl (eqb→eq a x t)
    | inr f ↦ inr (contains→In xs a (ground arith))
  ]

  pub In→contains : (xs : List A) (a : A) → In a xs → contains xs a ≡ true
  In→contains [] a h = elim h [ ]
  In→contains (x ∷ xs) a (inl q) = let t = (e.beq_iff a x).1 q in ground arith
  In→contains (x ∷ xs) a (inr h) = let t = In→contains xs a h in ground arith

abbrev pub both : {A B : Type 0} ⦃e : Eq A⦄ ⦃f : Eq B⦄ → A × B → A × B → Bool
both ⦃e⦄ ⦃f⦄ (a, b) (c, d) = e.beq a c && f.beq b d

pub both_iff : {A B : Type 0} ⦃e : Eq A⦄ ⦃f : Eq B⦄ (x y : A × B) → (both x y ≡ true) ↔ (x ≡ y)
both_iff ⦃e⦄ ⦃f⦄ (a, b) (c, d) = (
  λ h.
      let (p, q) = and_true (e.beq a c) (f.beq b d) h in
      let s = (e.beq_iff a c).0 p in let t = (f.beq_iff b d).0 q in cc,
  λ q.
      let s = (e.beq_iff a c).1 (ap (λ x. x.0) q) in
      let t = (f.beq_iff b d).1 (ap (λ x. x.1) q) in ground arith,
)

instance abbrev pub pair_eq : {A B : Type 0} ⦃e : Eq A⦄ ⦃f : Eq B⦄ → Eq (A × B)
pair_eq = record { beq = both; beq_iff = both_iff }
