-- ===== src/Accounts/Pages.antt =====
-- The pages of an address: `get_account_transactions` of
-- examples/linx-indexer/src/repository/account_transactions_repository.rs.
use linx_app_backend.Base.{
  In→All, All→In, All, ℕ, zero, suc, ◌≤◌, true, ◌&&◌, Option, some, List, [], ◌∷◌, String, ◌≡◌, sym,
  ap, subst, ◌⊎◌, inl, inr, arith, leb, if◌then◌else◌, Bool-cases, In, length, filter, In-filter,
}
use linx_app_backend.Base.Equality.{string_eq, eqb, eqb→eq, and_true}
use linx_app_backend.Processors.Records.{NewAccountTransaction}
use linx_app_backend.Accounts.{take, before, newest_first, order_by_time, get_account_transactions}

module _ {D : Type 0} where
  In-newest_first :
      (tx x : NewAccountTransaction D ℕ) (xs : List (NewAccountTransaction D ℕ))
      → In x (newest_first tx xs)
      → (x ≡ tx) ⊎ In x xs
  In-newest_first tx x [] h = h
  In-newest_first tx x (y ∷ ys) h = elim (Bool-cases (leb y.timestamp tx.timestamp)) [
    | inl t ↦ subst (λ b. In x (if b then tx ∷ y ∷ ys else y ∷ newest_first tx ys)) t h
    | inr f ↦ elim (subst (λ b. In x (if b then tx ∷ y ∷ ys else y ∷ newest_first tx ys)) f h) [
      | inl e ↦ inr (inl e)
      | inr i ↦ elim (In-newest_first tx x ys i) [ inl e ↦ inl e | inr j ↦ inr (inr j) ]
    ]
  ]

  In-order_by_time :
      (x : NewAccountTransaction D ℕ) (xs : List (NewAccountTransaction D ℕ))
      → In x (order_by_time xs)
      → In x xs
  unfolding order_by_time
  In-order_by_time x [] h = h
  In-order_by_time x (y ∷ ys) h = elim (In-newest_first y x (order_by_time ys) h) [
    | inl e ↦ inl e
    | inr i ↦ inr (In-order_by_time x ys i)
  ]

  In-take :
      (n : ℕ) (x : NewAccountTransaction D ℕ) (xs : List (NewAccountTransaction D ℕ))
      → In x (take n xs)
      → In x xs
  In-take zero x xs h = elim h [ ]
  In-take (suc n) x [] h = h
  In-take (suc n) x (y ∷ ys) (inl e) = inl e
  In-take (suc n) x (y ∷ ys) (inr h) = inr (In-take n x ys h)

  -- Newest first.
  abbrev IsNewestFirst : List (NewAccountTransaction D ℕ) → Type 0
  IsNewestFirst [] = Unit
  IsNewestFirst (x ∷ xs) =
      ((y : NewAccountTransaction D ℕ) → In y xs → y.timestamp ≤ x.timestamp) × IsNewestFirst xs

  newest_first-IsNewestFirst :
      (tx : NewAccountTransaction D ℕ) (xs : List (NewAccountTransaction D ℕ))
      → IsNewestFirst xs
      → IsNewestFirst (newest_first tx xs)
  newest_first-IsNewestFirst tx [] h = (λ y i. elim i [ ], tt)
  newest_first-IsNewestFirst tx (x ∷ xs) (top, h) =
      elim (Bool-cases (leb x.timestamp tx.timestamp)) [
        | inl t ↦
            subst (λ b. IsNewestFirst (if b then tx ∷ x ∷ xs else x ∷ newest_first tx xs)) (sym t)
              (
                λ y i. elim i [
                  | inl e ↦ let same = ap (λ z. z.timestamp) e in ground arith
                  | inr j ↦ let below = top y j in ground arith
                ],
                (top, h),
              )
        | inr f ↦
            subst (λ b. IsNewestFirst (if b then tx ∷ x ∷ xs else x ∷ newest_first tx xs)) (sym f)
              (
                λ y i. elim (In-newest_first tx y xs i) [
                  | inl e ↦ let same = ap (λ z. z.timestamp) e in ground arith
                  | inr j ↦ top y j
                ],
                newest_first-IsNewestFirst tx xs h,
              )
      ]

  order_by_time-IsNewestFirst :
      (xs : List (NewAccountTransaction D ℕ)) → IsNewestFirst (order_by_time xs)
  unfolding order_by_time
  order_by_time-IsNewestFirst [] = tt
  order_by_time-IsNewestFirst (x ∷ xs) =
      newest_first-IsNewestFirst x (order_by_time xs) (order_by_time-IsNewestFirst xs)

  take-IsNewestFirst :
      (n : ℕ) (xs : List (NewAccountTransaction D ℕ))
      → IsNewestFirst xs
      → IsNewestFirst (take n xs) × (length (take n xs) ≤ n)
  take-IsNewestFirst zero xs h = (tt, omega arith)
  take-IsNewestFirst (suc n) [] h = (tt, omega arith)
  take-IsNewestFirst (suc n) (x ∷ xs) (top, h) =
      let (rest, short) = take-IsNewestFirst n xs h in
      ((λ y i. top y (In-take n y xs i), rest), omega arith)

  -- A page has at most as many rows as asked for, newest first, all of them rows of the address in
  -- the table, and all strictly older than the cursor, if there is one.
  page-IsNewestFirst :
      (address : String) (limit : ℕ) (cursor : Option ℕ) (table : List (NewAccountTransaction D ℕ))
      → IsNewestFirst (get_account_transactions address limit cursor table)
        × (length (get_account_transactions address limit cursor table) ≤ limit)
        × All
            (λ tx. In tx table × (tx.address ≡ address) × (before cursor tx.timestamp ≡ true))
            (get_account_transactions address limit cursor table)
  unfolding get_account_transactions
  page-IsNewestFirst address limit cursor table =
      let kept = filter (λ x. eqb x.address address && before cursor x.timestamp) table in
      let (sorted, short) =
        take-IsNewestFirst limit (order_by_time kept) (order_by_time-IsNewestFirst kept) in
      (
        sorted,
        short,
        In→All _ (take limit (order_by_time kept)) (λ tx h.
            let (stands, test) =
              In-filter _ tx table
                (In-order_by_time tx kept (In-take limit tx (order_by_time kept) h)) in
            let (p, q) = and_true (eqb tx.address address) (before cursor tx.timestamp) test in
            (stands, eqb→eq tx.address address p, q)),
      )

  -- A row is on none of the pages whose cursor is the row's own time or an earlier one: those that
  -- follow a page which ends with a row of the same time.
  pub ties_skipped :
      (address : String) (limit cursor later : ℕ) (table : List (NewAccountTransaction D ℕ))
      (tx : NewAccountTransaction D ℕ)
      → tx.timestamp ≡ cursor
      → later ≤ cursor
      → ¬ In tx (get_account_transactions address limit (some later) table)
  ties_skipped address limit cursor later table tx same older h =
      let (sorted, short, rows) = page-IsNewestFirst address limit (some later) table in
      let (stands, own, test) =
        All→In (λ x. In x table × (x.address ≡ address) × (before (some later) x.timestamp ≡ true))
          _ tx rows h in
      ground arith
