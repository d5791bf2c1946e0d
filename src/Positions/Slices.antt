-- ===== src/Positions/Slices.antt =====
-- Pages of lists: `limit` and `offset` of a sum, and `filter_map` of lists one after the other.
use linx_app_backend.Base.{
  ℕ, zero, suc, ◌+◌, ◌≤◌, Option, some, none, List, [], ◌∷◌, ◌++◌, ◌≡◌, refl, ap, sym, ◌∙◌, arith,
  length, filter_map, optional,
}
use linx_app_backend.Positions.Pages.{limit, offset}

module _ {A : Type 0} where
  abbrev nothing : List A
  nothing = []

  pub limit-[] : (n : ℕ) → limit n nothing ≡ []
  limit-[] zero = refl
  limit-[] (suc n) = refl

  offset-[] : (n : ℕ) → offset n nothing ≡ []
  offset-[] zero = refl
  offset-[] (suc n) = refl

  pub limit-plus : (a b : ℕ) (xs : List A) → limit (a + b) xs ≡ limit a xs ++ limit b (offset a xs)
  limit-plus zero b xs = let same : 0 + b ≡ b = omega arith in ap (λ n. limit n xs) same
  limit-plus (suc a) b [] = limit-[] (suc a + b) ∙ sym (limit-[] b)
  limit-plus (suc a) b (x ∷ xs) =
      let same : suc a + b ≡ suc (a + b) = omega arith in
      ap (λ n. limit n (x ∷ xs)) same ∙ ap (λ r. x ∷ r) (limit-plus a b xs)

  pub offset-past : (n : ℕ) (xs : List A) → length xs ≤ n → offset n xs ≡ []
  offset-past n [] h = offset-[] n
  offset-past zero (x ∷ xs) h = ground arith
  offset-past (suc n) (x ∷ xs) h = let h' : length xs ≤ n = omega arith in offset-past n xs h'

  pub offset-plus : (a b : ℕ) (xs : List A) → offset (a + b) xs ≡ offset b (offset a xs)
  offset-plus zero b xs = let same : 0 + b ≡ b = omega arith in ap (λ n. offset n xs) same
  offset-plus (suc a) b [] = offset-[] (suc a + b) ∙ sym (offset-[] b)
  offset-plus (suc a) b (x ∷ xs) =
      let same : suc a + b ≡ suc (a + b) = omega arith in
      ap (λ n. offset n (x ∷ xs)) same ∙ offset-plus a b xs

optional-append :
    {A : Type 0} (o : Option A) (xs ys : List A) → optional o (xs ++ ys) ≡ optional o xs ++ ys
optional-append none xs ys = refl
optional-append (some a) xs ys = refl

pub filter_map-append :
    {A B : Type 0} (f : A → Option B) (xs ys : List A)
    → filter_map f (xs ++ ys) ≡ filter_map f xs ++ filter_map f ys
filter_map-append f [] ys = refl
filter_map-append f (x ∷ xs) ys =
    ap (optional (f x)) (filter_map-append f xs ys)
    ∙ optional-append (f x) (filter_map f xs) (filter_map f ys)
