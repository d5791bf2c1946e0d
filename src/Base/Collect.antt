-- ===== src/Base/Collect.antt =====
-- Collecting the results of a function over a list: what `collect` returns, and when it does.
use mathlib.Core.Path.{◌≡◌, refl, sym, ap, ◌∙◌, subst}
use mathlib.Core.Logic.{◌↔◌, inl, inr}
use mathlib.Core.List.{List, [], ◌∷◌, map, reverse, reverse-cons}
use linx_app_backend.Base.Lists.{In, In-append_left, In-append_right, In-append_cases}
use linx_app_backend.Base.Outcome.{Outcome, ok, ◌>>=◌, collect, bind_ok}

ok_inj : {A : Type 0} (a b : A) → ok a ≡ ok b → a ≡ b
ok_inj a b h = cc

module _ {A B : Type 0} where
  pub In-map : (f : A → B) (b : B) (xs : List A) → In b (map f xs) → (a : A) × In a xs × (b ≡ f a)
  In-map f b [] h = elim h [ ]
  In-map f b (x ∷ xs) (inl e) = (x, inl refl, e)
  In-map f b (x ∷ xs) (inr h) = let (a, i, e) = In-map f b xs h in (a, inr i, e)

  pub In→map : (f : A → B) (a : A) (xs : List A) → In a xs → In (f a) (map f xs)
  In→map f a [] h = h
  In→map f a (x ∷ xs) (inl e) = inl (ap f e)
  In→map f a (x ∷ xs) (inr h) = inr (In→map f a xs h)

  -- What is collected is what the function returned for an element.
  pub In-collect :
      (f : A → Outcome B) (xs : List A) (bs : List B)
      → collect (map f xs) ≡ ok bs
      → (b : B) → In b bs ↔ ((a : A) × In a xs × (f a ≡ ok b))
  In-collect f [] bs h b =
      let none_left : [] ≡ bs = cc in
      (λ i. elim (subst (In b) (sym none_left) i) [ ], λ i. elim (i.1) [ ])
  In-collect f (x ∷ xs) bs h b =
      let (c, fc, h') = bind_ok (f x) (λ a. collect (map f xs) >>= λ as'. ok (a ∷ as')) h in
      let (cs, fcs, h'') = bind_ok (collect (map f xs)) (λ as'. ok (c ∷ as')) h' in
      let same : c ∷ cs ≡ bs = cc in
      let rest = In-collect f xs cs fcs b in
      (
        λ i. elim (subst (In b) (sym same) i) [
          | inl e ↦ (x, inl refl, fc ∙ ap ok (sym e))
          | inr i' ↦ let (a, j, e) = rest.0 i' in (a, inr j, e)
        ],
        λ found.
            let (a, j, e) = found in
            subst (In b) same (elim j [
              | inl q ↦ inl (ok_inj b c (sym e ∙ ap f q ∙ fc))
              | inr j' ↦ inr (rest.1 (a, j', e))
            ]),
      )

  -- If the function returns a value for every element, the values are collected.
  pub collect_total :
      (f : A → Outcome B) (xs : List A)
      → ((a : A) → In a xs → (b : B) × (f a ≡ ok b))
      → (bs : List B) × (collect (map f xs) ≡ ok bs)
  collect_total f [] h = ([], refl)
  collect_total f (x ∷ xs) h =
      let (b, e) = h x (inl refl) in
      let (bs, es) = collect_total f xs (λ a i. h a (inr i)) in (b ∷ bs, cc)

module _ {A : Type 0} where
  pub In-reverse : (a : A) (xs : List A) → In a (reverse xs) ↔ In a xs
  In-reverse a [] = (λ h. h, λ h. h)
  In-reverse a (x ∷ xs) =
      let rest = In-reverse a xs in
      (
        λ h. elim (In-append_cases a (reverse xs) (x ∷ []) (subst (In a) (reverse-cons x xs) h)) [
          | inl i ↦ inr (rest.0 i)
          | inr (inl e) ↦ inl e
          | inr (inr i) ↦ elim i [ ]
        ],
        λ h. subst (In a) (sym (reverse-cons x xs)) (elim h [
          | inl e ↦ In-append_right a (reverse xs) (x ∷ []) (inl e)
          | inr i ↦ In-append_left a (reverse xs) (x ∷ []) (rest.1 i)
        ]),
      )
