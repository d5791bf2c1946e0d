-- ===== src/Dex/Hops/Order.antt =====
-- The order in which examples/linx-indexer/src/processors/dex_processor.rs takes the swaps of one
-- transaction.
use mathlib.Core.List.{reverse}
use linx_app_backend.Base.{true, false, List, [], ◌∷◌, ◌≡◌, ◌↔◌, inl, inr, In, if◌then◌else◌}
use linx_app_backend.Base.Ints.{ℤ, le_int}
use linx_app_backend.Base.Collect.{In-map, In→map, In-reverse}
use linx_app_backend.Processors.Records.{NewAccountTransaction}
use linx_app_backend.Dex.Hops.{insert_by_index, sort_by_index, in_hop_order}

module _ {D T : Type 0} where
  In-insert_by_index :
      (s a : ℤ × NewAccountTransaction D T) (xs : List (ℤ × NewAccountTransaction D T))
      → In s (insert_by_index a xs) ↔ In s (a ∷ xs)
  unfolding insert_by_index
  In-insert_by_index s a [] = (λ i. i, λ i. i)
  In-insert_by_index s a (x ∷ xs) =
      let (there, back) = In-insert_by_index s a xs in
      elim (le_int a.0 x.0)
        as (λ b. In s (if b then a ∷ x ∷ xs else x ∷ insert_by_index a xs) ↔ In s (a ∷ x ∷ xs)) [
          | true ↦ (λ i. i, λ i. i)
          | false ↦ (
            λ i. elim i [
              | inl e ↦ inr (inl e)
              | inr j ↦ elim (there j) [ inl e ↦ inl e | inr j' ↦ inr (inr j') ]
            ],
            λ i. elim i [
              | inl e ↦ inr (back (inl e))
              | inr (inl e) ↦ inl e
              | inr (inr j) ↦ inr (back (inr j))
            ],
          )
        ]

  In-sort_by_index :
      (s : ℤ × NewAccountTransaction D T) (xs : List (ℤ × NewAccountTransaction D T))
      → In s (sort_by_index xs) ↔ In s xs
  unfolding sort_by_index
  In-sort_by_index s [] = (λ i. i, λ i. i)
  In-sort_by_index s (x ∷ xs) =
      let rest = In-sort_by_index s xs in
      let all = In-insert_by_index s x (sort_by_index xs) in
      (
        λ i. elim (all.0 i) [ inl e ↦ inl e | inr j ↦ inr (rest.0 j) ],
        λ i. all.1 (elim i [ inl e ↦ inl e | inr j ↦ inr (rest.1 j) ]),
      )

  -- The order holds exactly the swaps.
  pub In-in_hop_order :
      (r : NewAccountTransaction D T) (xs : List (ℤ × NewAccountTransaction D T))
      → In r (in_hop_order xs)
      → (s : ℤ × NewAccountTransaction D T) × In s xs × (r ≡ s.1)
  In-in_hop_order r xs h =
      let (s, i, e) = In-map (λ x. x.1) r (reverse (sort_by_index xs)) h in
      (s, (In-sort_by_index s xs).0 ((In-reverse s (sort_by_index xs)).0 i), e)

  pub In→in_hop_order :
      (s : ℤ × NewAccountTransaction D T) (xs : List (ℤ × NewAccountTransaction D T))
      → In s xs
      → In (s.1) (in_hop_order xs)
  In→in_hop_order s xs i =
      In→map (λ x. x.1) s (reverse (sort_by_index xs))
        ((In-reverse s (sort_by_index xs)).1 ((In-sort_by_index s xs).1 i))
