-- ===== src/Dex/Hops/Groups.antt =====
-- How examples/linx-indexer/src/processors/dex_processor.rs groups swaps by their transaction.
use mathlib.Core.List.{append-nil, append_assoc}
use linx_app_backend.Base.{
  Option, some, none, List, [], ◌∷◌, ◌++◌, String, ◌≡◌, refl, sym, ap, ◌∙◌, subst, inl, inr,
  Bool-cases, filter, if◌then◌else◌,
}
use linx_app_backend.Base.Equality.{string_eq, eqb, eqb→eq}
use linx_app_backend.Base.HashMap.{
  HashMap, get, alter, unwrap_or, IsDistinct, get-alter_same, get-alter_other, alter-IsDistinct,
}
use linx_app_backend.Base.Ints.{ℤ}
use linx_app_backend.Processors.Records.{NewAccountTransaction}
use linx_app_backend.Dex.Hops.{group_by_tx}

-- A list that more is pushed on, where no list stands for an empty one.
abbrev pub pushed : {A : Type 0} → Option (List A) → List A → Option (List A)
pushed none [] = none
pushed none (x ∷ xs) = some (x ∷ xs)
pushed (some l) xs = some (l ++ xs)

pushed-nil : {A : Type 0} (o : Option (List A)) → pushed o [] ≡ o
pushed-nil none = refl
pushed-nil (some l) = ap some (append-nil l)

pushed-cons :
    {A : Type 0} (o : Option (List A)) (x : A) (xs : List A)
    → pushed (some (unwrap_or [] o ++ x ∷ [])) xs ≡ pushed o (x ∷ xs)
pushed-cons none x xs = refl
pushed-cons (some l) x xs = ap some (append_assoc l (x ∷ []) xs)

module _ {D T : Type 0} where
  -- The swaps of a transaction, in the order in which they were extracted.
  abbrev pub swaps_of :
      String → List (ℤ × NewAccountTransaction D T) → List (ℤ × NewAccountTransaction D T)
  swaps_of tx_id swaps = filter (λ s. eqb tx_id s.1.tx_id) swaps

  pub get-group_by_tx :
      (tx_id : String) (swaps : List (ℤ × NewAccountTransaction D T))
      (m : HashMap String (List (ℤ × NewAccountTransaction D T)))
      → get tx_id (group_by_tx swaps m) ≡ pushed (get tx_id m) (swaps_of tx_id swaps)
  unfolding group_by_tx
  get-group_by_tx tx_id [] m = sym (pushed-nil (get tx_id m))
  get-group_by_tx tx_id ((i, s) ∷ swaps) m =
      get-group_by_tx tx_id swaps (alter s.tx_id [] (λ l. l ++ (i, s) ∷ []) m)
      ∙ elim (Bool-cases (eqb tx_id s.tx_id)) [
        | inl t ↦
            ap (λ o. pushed o (swaps_of tx_id swaps))
              (subst
                (λ k.
                  get k (alter s.tx_id [] (λ l. l ++ (i, s) ∷ []) m)
                  ≡ some (unwrap_or [] (get k m) ++ (i, s) ∷ []))
                (sym (eqb→eq tx_id s.tx_id t))
                (get-alter_same s.tx_id [] (λ l. l ++ (i, s) ∷ []) m))
            ∙ pushed-cons (get tx_id m) (i, s) (swaps_of tx_id swaps)
            ∙ ap
                (λ b.
                  pushed (get tx_id m)
                    (if b then (i, s) ∷ swaps_of tx_id swaps else swaps_of tx_id swaps))
                (sym t)
        | inr f ↦
            ap (λ o. pushed o (swaps_of tx_id swaps))
              (get-alter_other s.tx_id tx_id [] (λ l. l ++ (i, s) ∷ []) m f)
            ∙ ap
                (λ b.
                  pushed (get tx_id m)
                    (if b then (i, s) ∷ swaps_of tx_id swaps else swaps_of tx_id swaps))
                (sym f)
      ]

  pub group_by_tx-IsDistinct :
      (swaps : List (ℤ × NewAccountTransaction D T))
      (m : HashMap String (List (ℤ × NewAccountTransaction D T)))
      → IsDistinct m
      → IsDistinct (group_by_tx swaps m)
  unfolding group_by_tx
  group_by_tx-IsDistinct [] m d = d
  group_by_tx-IsDistinct ((i, s) ∷ swaps) m d =
      group_by_tx-IsDistinct swaps (alter s.tx_id [] (λ l. l ++ (i, s) ∷ []) m)
        (alter-IsDistinct s.tx_id [] (λ l. l ++ (i, s) ∷ []) m d)
