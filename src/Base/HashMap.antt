-- ===== src/Base/HashMap.antt =====
-- The standard library's `HashMap`, as the list of its entries. The order in which a program visits
-- the entries is arbitrary, so that code which iterates takes it as an argument.
use mathlib.Core.Path.{◌≡◌, refl, sym, ap, ◌∙◌, subst}
use mathlib.Core.Logic.{◌≢◌, ◌↔◌, ◌⊎◌, inl, inr}
use mathlib.Core.Bool.{Bool, true, false}
use mathlib.Core.List.{List, [], ◌∷◌, ◌++◌}
use mathlib.Core.Option.{Option, none, some}
use linx_app_backend.Base.Tests.{if◌then◌else◌, Bool-cases, Option-cases}
use linx_app_backend.Base.Lists.{In}
use linx_app_backend.Base.Equality.{Eq, eqb, eqb→eq, eqb_refl, eqb_false→ne, ne→eqb_false}
use native.Mathlib.Omega.{arith}

abbrev pub HashMap : Type 0 → Type 0 → Type 0
HashMap K V = List (K × V)

abbrev pub unwrap_or : {V : Type 0} → V → Option V → V
unwrap_or d none = d
unwrap_or d (some v) = v

module _ {K V : Type 0} ⦃e : Eq K⦄ where
  unfoldable pub get : K → HashMap K V → Option V
  get k [] = none
  get k ((k', v) ∷ m) = if eqb k k' then some v else get k m

  -- `*map.entry(k).or_insert(d)` changed by `f`
  unfoldable pub alter : K → V → (V → V) → HashMap K V → HashMap K V
  alter k d f [] = (k, f d) ∷ []
  alter k d f ((k', v) ∷ m) = if eqb k k' then (k', f v) ∷ m else (k', v) ∷ alter k d f m

  -- `map.insert(k, v)`
  abbrev pub insert : K → V → HashMap K V → HashMap K V
  insert k v m = alter k v (λ _. v) m

  -- `map.retain(|k, _| keep(k))`
  unfoldable pub retain : (K → Bool) → HashMap K V → HashMap K V
  retain keep [] = []
  retain keep ((k, v) ∷ m) = if keep k then (k, v) ∷ retain keep m else retain keep m

  -- No key stands twice.
  unfoldable pub IsDistinct : HashMap K V → Type 0
  IsDistinct [] = Unit
  IsDistinct ((k, v) ∷ m) = (get k m ≡ none) × IsDistinct m

  pub get-alter_same :
      (k : K) (d : V) (f : V → V) (m : HashMap K V)
      → get k (alter k d f m) ≡ some (f (unwrap_or d (get k m)))
  unfolding get alter
  get-alter_same k d f [] = let t = eqb_refl k in ground arith
  get-alter_same k d f ((k', v) ∷ m) = let h = get-alter_same k d f m in ground arith

  pub get-alter_other :
      (k l : K) (d : V) (f : V → V) (m : HashMap K V)
      → eqb l k ≡ false
      → get l (alter k d f m) ≡ get l m
  unfolding get alter
  get-alter_other k l d f [] h = ground arith
  get-alter_other k l d f ((k', v) ∷ m) h =
      let rest = get-alter_other k l d f m h in
      elim (Bool-cases (eqb k k')) [
        | inl t ↦ let s = subst (λ x. eqb l x ≡ false) (eqb→eq k k' t) h in ground arith
        | inr n ↦ ground arith
      ]

  pub get→In : (k : K) (v : V) (m : HashMap K V) → get k m ≡ some v → In (k, v) m
  unfolding get
  get→In k v [] h = cc
  get→In k v ((k', w) ∷ m) h = elim (Bool-cases (eqb k k')) [
    | inl t ↦ let q = eqb→eq k k' t in let r : w ≡ v = ground arith in inl cc
    | inr n ↦ inr (get→In k v m (ground arith))
  ]

  In→present : (k : K) (v : V) (m : HashMap K V) → In (k, v) m → get k m ≢ none
  unfolding get
  In→present k v [] h n = h
  In→present k v ((k', w) ∷ m) (inl q) n =
      let t = subst (λ x. eqb k x ≡ true) (ap (λ x. x.0) q) (eqb_refl k) in ground arith
  In→present k v ((k', w) ∷ m) (inr h) n = elim (Bool-cases (eqb k k')) [
    | inl t ↦ ground arith
    | inr f ↦ In→present k v m h (ground arith)
  ]

  pub In→get : (k : K) (v : V) (m : HashMap K V) → IsDistinct m → In (k, v) m → get k m ≡ some v
  unfolding get IsDistinct
  In→get k v [] d h = elim h [ ]
  In→get k v ((k', w) ∷ m) d (inl q) =
      let t = subst (λ x. eqb k x ≡ true) (ap (λ x. x.0) q) (eqb_refl k) in
      let r = ap (λ x. x.1) q in ground arith
  In→get k v ((k', w) ∷ m) (fresh, d) (inr h) = elim (Bool-cases (eqb k k')) [
    | inl t ↦
        let q = eqb→eq k k' t in
        elim (In→present k v m h (subst (λ x. get x m ≡ none) (sym q) fresh)) [ ]
    | inr f ↦ let r = In→get k v m d h in ground arith
  ]

  pub alter-IsDistinct :
      (k : K) (d : V) (f : V → V) (m : HashMap K V) → IsDistinct m → IsDistinct (alter k d f m)
  unfolding alter IsDistinct get
  alter-IsDistinct k d f [] h = (refl, tt)
  alter-IsDistinct k d f ((k', v) ∷ m) (fresh, h) = elim (Bool-cases (eqb k k')) [
    | inl t ↦
        subst (λ b. IsDistinct (if b then (k', f v) ∷ m else (k', v) ∷ alter k d f m)) (sym t)
          (fresh, h)
    | inr n ↦
        let swapped = ne→eqb_false k' k (λ q. eqb_false→ne k k' n (sym q)) in
        let other = get-alter_other k k' d f m swapped in
        subst (λ b. IsDistinct (if b then (k', f v) ∷ m else (k', v) ∷ alter k d f m)) (sym n)
          (other ∙ fresh, alter-IsDistinct k d f m h)
  ]

  pub get-retain :
      (keep : K → Bool) (k : K) (m : HashMap K V)
      → get k (retain keep m) ≡ (if keep k then get k m else none)
  unfolding get retain
  get-retain keep k [] = ground arith
  get-retain keep k ((k', v) ∷ m) =
      let h = get-retain keep k m in
      elim (Bool-cases (eqb k k')) [
        | inl t ↦ let q = ap keep (eqb→eq k k' t) in ground arith
        | inr n ↦ ground arith
      ]

  pub retain-IsDistinct :
      (keep : K → Bool) (m : HashMap K V) → IsDistinct m → IsDistinct (retain keep m)
  unfolding retain IsDistinct
  retain-IsDistinct keep [] h = tt
  retain-IsDistinct keep ((k, v) ∷ m) (fresh, h) =
      let rest = retain-IsDistinct keep m h in
      let gone : get k (retain keep m) ≡ none = get-retain keep k m ∙ ground arith in
      elim (Bool-cases (keep k)) [
        | inl t ↦
            subst (λ b. IsDistinct (if b then (k, v) ∷ retain keep m else retain keep m)) (sym t)
              (gone, rest)
        | inr n ↦
            subst (λ b. IsDistinct (if b then (k, v) ∷ retain keep m else retain keep m)) (sym n)
              rest
      ]

-- A visit of all entries, each once, in any order.
abbrev pub VisitsAll : {K V : Type 0} ⦃e : Eq K⦄ → (HashMap K V → List (K × V)) → Type 0
VisitsAll {K} {V} visit =
    (m : HashMap K V)
    → IsDistinct m
    → IsDistinct (visit m) × ((x : K × V) → In x (visit m) ↔ In x m)

pub get-visit :
    {K V : Type 0} ⦃e : Eq K⦄ (visit : HashMap K V → List (K × V))
    → VisitsAll visit
    → (k : K) (m : HashMap K V) → IsDistinct m
    → get k (visit m) ≡ get k m
get-visit visit visits k m d =
    let (d', same) = visits m d in
    elim (Option-cases (get k m)) [
      | inr (v, e) ↦ In→get k v (visit m) d' ((same (k, v)).1 (get→In k v m e)) ∙ sym e
      | inl e ↦ elim (Option-cases (get k (visit m))) [
        | inl e' ↦ e' ∙ sym e
        | inr (v, e') ↦ e' ∙ sym (In→get k v m d ((same (k, v)).0 (get→In k v (visit m) e')))
      ]
    ]

-- Amounts by key, summed in a map with `*map.entry(k).or_default() += amount`.
module _ {K D : Type 0} ⦃e : Eq K⦄ (zero : D) (plus : D → D → D) where
  abbrev pub add_amount : K → D → HashMap K D → HashMap K D
  add_amount k a m = alter k zero (λ v. plus v a) m

  unfoldable pub accumulate : List (K × D) → HashMap K D → HashMap K D
  accumulate [] m = m
  accumulate ((k, a) ∷ es) m = accumulate es (add_amount k a m)

  -- What the amounts of one key sum up to, in their order.
  unfoldable pub total : K → List (K × D) → Option D → Option D
  total k [] sum = sum
  total k ((k', a) ∷ es) sum =
      total k es (if eqb k k' then some (plus (unwrap_or zero sum) a) else sum)

  pub get-accumulate :
      (k : K) (es : List (K × D)) (m : HashMap K D) → get k (accumulate es m) ≡ total k es (get k m)
  unfolding accumulate total
  get-accumulate k [] m = refl
  get-accumulate k ((k', a) ∷ es) m =
      get-accumulate k es (add_amount k' a m)
      ∙ ap (total k es) (get-add_amount (Bool-cases (eqb k k')))
    where
      get-add_amount :
          (eqb k k' ≡ true) ⊎ (eqb k k' ≡ false)
          → get k (add_amount k' a m)
            ≡ (if eqb k k' then some (plus (unwrap_or zero (get k m)) a) else get k m)
      get-add_amount (inl t) =
          subst (λ l. get l (add_amount k' a m) ≡ some (plus (unwrap_or zero (get l m)) a))
            (sym (eqb→eq k k' t)) (get-alter_same k' zero (λ v. plus v a) m)
          ∙ sym (ap (λ b. if b then some (plus (unwrap_or zero (get k m)) a) else get k m) t)
      get-add_amount (inr n) =
          get-alter_other k' k zero (λ v. plus v a) m n
          ∙ sym (ap (λ b. if b then some (plus (unwrap_or zero (get k m)) a) else get k m) n)

  pub accumulate-IsDistinct :
      (es : List (K × D)) (m : HashMap K D) → IsDistinct m → IsDistinct (accumulate es m)
  unfolding accumulate
  accumulate-IsDistinct [] m h = h
  accumulate-IsDistinct ((k, a) ∷ es) m h =
      accumulate-IsDistinct es (add_amount k a m) (alter-IsDistinct k zero (λ v. plus v a) m h)

  pub accumulate-append :
      (xs ys : List (K × D)) (m : HashMap K D)
      → accumulate (xs ++ ys) m ≡ accumulate ys (accumulate xs m)
  unfolding accumulate
  accumulate-append [] ys m = refl
  accumulate-append ((k, a) ∷ xs) ys m = accumulate-append xs ys (add_amount k a m)
