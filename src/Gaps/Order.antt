-- ===== src/Gaps/Order.antt =====
-- The order of the rows in the query of
-- examples/linx-indexer/src/services/gap_detection_service.rs.
use linx_app_backend.Base.{
  ℕ, ◌≤◌, ◌<◌, true, false, List, [], ◌∷◌, sym, subst, ◌↔◌, inl, inr, arith, leb, Bool-cases,
  if◌then◌else◌, In, All, In→All, All→In,
}
use linx_app_backend.Gaps.{insert_height, order_by_height}

pub lt_irrefl : (n : ℕ) → ¬ (n < n)
lt_irrefl n h = omega arith

pub le_trans : (a b c : ℕ) → a ≤ b → b ≤ c → a ≤ c
le_trans a b c h k = omega arith

abbrev pub IsSorted : List ℕ → Type 0
IsSorted [] = Unit
IsSorted (h ∷ hs) = All (λ k. h ≤ k) hs × IsSorted hs

In-insert_height : (x h : ℕ) (ks : List ℕ) → In x (insert_height h ks) ↔ In x (h ∷ ks)
unfolding insert_height
In-insert_height x h [] = (λ i. i, λ i. i)
In-insert_height x h (k ∷ ks) =
    elim (leb h k)
      as (λ b. In x (if b then h ∷ k ∷ ks else k ∷ insert_height h ks) ↔ In x (h ∷ k ∷ ks)) [
        | true ↦ (λ i. i, λ i. i)
        | false ↦
            let (there, back) = In-insert_height x h ks in
            (
              λ i. elim i [
                | inl e ↦ inr (inl e)
                | inr j ↦ elim (there j) [ inl e ↦ inl e | inr j' ↦ inr (inr j') ]
              ],
              λ i. elim i [
                | inl e ↦ inr (back (inl e))
                | inr (inl e) ↦ inl e
                | inr (inr j) ↦ inr (back (inr j))
              ],
            )
      ]

pub In-order_by_height : (x : ℕ) (hs : List ℕ) → In x (order_by_height hs) ↔ In x hs
unfolding order_by_height
In-order_by_height x [] = (λ i. i, λ i. i)
In-order_by_height x (h ∷ hs) =
    let (there, back) = In-order_by_height x hs in
    let (out, into) = In-insert_height x h (order_by_height hs) in
    (
      λ i. elim (out i) [ inl e ↦ inl e | inr j ↦ inr (there j) ],
      λ i. elim i [ inl e ↦ into (inl e) | inr j ↦ into (inr (back j)) ],
    )

insert_height-IsSorted : (h : ℕ) (ks : List ℕ) → IsSorted ks → IsSorted (insert_height h ks)
unfolding insert_height
insert_height-IsSorted h [] sorted = (tt, tt)
insert_height-IsSorted h (k ∷ ks) (least, sorted) = elim (Bool-cases (leb h k)) [
  | inl e ↦
      let h≤k : h ≤ k = ground arith in
      subst (λ b. IsSorted (if b then h ∷ k ∷ ks else k ∷ insert_height h ks)) (sym e)
        ((h≤k, In→All _ ks (λ x i. le_trans h k x h≤k (All→In _ ks x least i))), (least, sorted))
  | inr e ↦
      let k≤h : k ≤ h = ground arith in
      subst (λ b. IsSorted (if b then h ∷ k ∷ ks else k ∷ insert_height h ks)) (sym e)
        (
          In→All _ (insert_height h ks) (λ x i. elim ((In-insert_height x h ks).0 i) [
            | inl same ↦ subst (λ y. k ≤ y) (sym same) k≤h
            | inr j ↦ All→In _ ks x least j
          ]),
          insert_height-IsSorted h ks sorted,
        )
]

pub order_by_height-IsSorted : (hs : List ℕ) → IsSorted (order_by_height hs)
unfolding order_by_height
order_by_height-IsSorted [] = tt
order_by_height-IsSorted (h ∷ hs) =
    insert_height-IsSorted h (order_by_height hs) (order_by_height-IsSorted hs)
