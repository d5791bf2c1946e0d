-- ===== src/Base/Lists.antt =====
-- Lists measured by native numbers, under the library's names, and a membership that computes.
use Prim.Native.Nat.{ℕ, zero, suc, ◌+◌}
use mathlib.Core.Path.{◌≡◌, refl, sym, ap, subst}
use mathlib.Core.Logic.{◌⊎◌, inl, inr}
use mathlib.Core.List.{List, [], ◌∷◌, ◌++◌, map}
use mathlib.Core.Option.{Option, none, some}
use native.Mathlib.Omega.{arith}

module _ {ℓ} {A : Type ℓ} where
  abbrev pub length : List A → ℕ
  length [] = 0
  length (x ∷ xs) = suc (length xs)

  abbrev pub get_elem? : List A → ℕ → Option A
  get_elem? [] i = none
  get_elem? (x ∷ xs) zero = some x
  get_elem? (x ∷ xs) (suc i) = get_elem? xs i

  pub length-append : (xs ys : List A) → length (xs ++ ys) ≡ length xs + length ys
  length-append [] ys = omega arith
  length-append (x ∷ xs) ys = omega (arith, length-append xs ys)

pub length-map {ℓ κ} :
    {A : Type ℓ} {B : Type κ} (f : A → B) (xs : List A) → length (map f xs) ≡ length xs
length-map f [] = refl
length-map f (x ∷ xs) = ap suc (length-map f xs)

module _ {A : Type 0} where
  -- `a` stands in the list, with its place.
  abbrev pub In : A → List A → Type 0
  In a [] = ⊥
  In a (x ∷ xs) = (a ≡ x) ⊎ In a xs

  -- Every element has the property.
  abbrev pub All : (A → Type 0) → List A → Type 0
  All P [] = Unit
  All P (x ∷ xs) = P x × All P xs

  pub In→All : (P : A → Type 0) (xs : List A) → ((x : A) → In x xs → P x) → All P xs
  In→All P [] h = tt
  In→All P (x ∷ xs) h = (h x (inl refl), In→All P xs (λ y i. h y (inr i)))

  pub All→In : (P : A → Type 0) (xs : List A) (x : A) → All P xs → In x xs → P x
  All→In P [] x h i = elim i [ ]
  All→In P (y ∷ ys) x (p, h) (inl e) = subst P (sym e) p
  All→In P (y ∷ ys) x (p, h) (inr i) = All→In P ys x h i

  pub In-append_left : (a : A) (xs ys : List A) → In a xs → In a (xs ++ ys)
  In-append_left a [] ys h = elim h [ ]
  In-append_left a (x ∷ xs) ys (inl e) = inl e
  In-append_left a (x ∷ xs) ys (inr h) = inr (In-append_left a xs ys h)

  pub In-append_right : (a : A) (xs ys : List A) → In a ys → In a (xs ++ ys)
  In-append_right a [] ys h = h
  In-append_right a (x ∷ xs) ys h = inr (In-append_right a xs ys h)

  pub In-append_cases : (b : A) (ys zs : List A) → In b (ys ++ zs) → In b ys ⊎ In b zs
  In-append_cases b [] zs h = inr h
  In-append_cases b (y ∷ ys) zs (inl e) = inl (inl e)
  In-append_cases b (y ∷ ys) zs (inr h) = elim (In-append_cases b ys zs h) [
    | inl l ↦ inl (inr l)
    | inr r ↦ inr r
  ]

module _ {A B : Type 0} where
  abbrev pub flat_map : (A → List B) → List A → List B
  flat_map f [] = []
  flat_map f (x ∷ xs) = f x ++ flat_map f xs

  pub In-flat_map :
      (f : A → List B) (b : B) (xs : List A) → In b (flat_map f xs) → (a : A) × In a xs × In b (f a)
  In-flat_map f b [] h = elim h [ ]
  In-flat_map f b (x ∷ xs) h = elim (In-append_cases b (f x) (flat_map f xs) h) [
    | inl l ↦ (x, inl refl, l)
    | inr r ↦ let (a, p, q) = In-flat_map f b xs r in (a, inr p, q)
  ]

  pub In→flat_map :
      (f : A → List B) (a : A) (b : B) (xs : List A) → In a xs → In b (f a) → In b (flat_map f xs)
  In→flat_map f a b [] h k = elim h [ ]
  In→flat_map f a b (x ∷ xs) (inl e) k =
      In-append_left b (f x) (flat_map f xs) (subst (λ y. In b (f y)) e k)
  In→flat_map f a b (x ∷ xs) (inr h) k =
      In-append_right b (f x) (flat_map f xs) (In→flat_map f a b xs h k)
