-- ===== src/Base/Filters.antt =====
-- Rust's `filter` and `filter_map`, and what stands in their results.
use mathlib.Core.Path.{◌≡◌, refl, sym, ap, ◌∙◌, subst}
use mathlib.Core.Logic.{◌⊎◌, inl, inr}
use mathlib.Core.Bool.{Bool, true, false}
use mathlib.Core.List.{List, [], ◌∷◌}
use mathlib.Core.Option.{Option, none, some}
use linx_app_backend.Base.Tests.{if◌then◌else◌}
use linx_app_backend.Base.Lists.{In}

module _ {A : Type 0} where
  abbrev pub filter : (A → Bool) → List A → List A
  filter test [] = []
  filter test (x ∷ xs) = if test x then x ∷ filter test xs else filter test xs

  In-if_cons :
      (b : Bool) (a x : A) (ys : List A)
      → In a (if b then x ∷ ys else ys)
      → ((b ≡ true) × (a ≡ x)) ⊎ In a ys
  In-if_cons true a x ys (inl e) = inl (refl, e)
  In-if_cons true a x ys (inr h) = inr h
  In-if_cons false a x ys h = inr h

  pub In-filter :
      (test : A → Bool) (a : A) (xs : List A) → In a (filter test xs) → In a xs × (test a ≡ true)
  In-filter test a [] h = elim h [ ]
  In-filter test a (x ∷ xs) h = elim (In-if_cons (test x) a x (filter test xs) h) [
    | inl (t, e) ↦ (inl e, ap test e ∙ t)
    | inr h' ↦ let (p, q) = In-filter test a xs h' in (inr p, q)
  ]

  pub In→filter :
      (test : A → Bool) (a : A) (xs : List A) → In a xs → test a ≡ true → In a (filter test xs)
  In→filter test a [] h t = h
  In→filter test a (x ∷ xs) (inl e) t =
      subst (λ b. In a (if b then x ∷ filter test xs else filter test xs))
        (sym (ap test (sym e) ∙ t)) (inl e)
  In→filter test a (x ∷ xs) (inr h) t =
      let rest = In→filter test a xs h t in
      elim (test x) as (λ b. In a (if b then x ∷ filter test xs else filter test xs)) [
        | true ↦ inr rest
        | false ↦ rest
      ]

module _ {B : Type 0} where
  abbrev pub optional : Option B → List B → List B
  optional none ys = ys
  optional (some b) ys = b ∷ ys

  In-optional : (o : Option B) (b : B) (ys : List B) → In b (optional o ys) → (o ≡ some b) ⊎ In b ys
  In-optional none b ys h = inr h
  In-optional (some y) b ys (inl e) = inl (ap some (sym e))
  In-optional (some y) b ys (inr h) = inr h

module _ {A B : Type 0} where
  abbrev pub filter_map : (A → Option B) → List A → List B
  filter_map f [] = []
  filter_map f (x ∷ xs) = optional (f x) (filter_map f xs)

  pub In-filter_map :
      (f : A → Option B) (b : B) (xs : List A)
      → In b (filter_map f xs)
      → (a : A) × In a xs × (f a ≡ some b)
  In-filter_map f b [] h = elim h [ ]
  In-filter_map f b (x ∷ xs) h = elim (In-optional (f x) b (filter_map f xs) h) [
    | inl e ↦ (x, inl refl, e)
    | inr h' ↦ let (a, p, q) = In-filter_map f b xs h' in (a, inr p, q)
  ]

  pub In→filter_map :
      (f : A → Option B) (a : A) (b : B) (xs : List A)
      → In a xs
      → f a ≡ some b
      → In b (filter_map f xs)
  In→filter_map f a b [] h s = h
  In→filter_map f a b (x ∷ xs) (inl e) s =
      subst (λ o. In b (optional o (filter_map f xs))) (sym (ap f (sym e) ∙ s)) (inl refl)
  In→filter_map f a b (x ∷ xs) (inr h) s =
      let rest = In→filter_map f a b xs h s in
      elim (f x) as (λ o. In b (optional o (filter_map f xs))) [ none ↦ rest | some y ↦ inr rest ]
