-- ===== src/Dex/Hops/OneIndex.antt =====
-- The order of hops, in examples/linx-indexer/src/processors/dex_processor.rs, among swaps whose events
-- all have one index: the order in which the node lists them, reversed.
use mathlib.Core.List.{reverse, reverse-reverse}
use linx_app_backend.Base.{
  true, List, [], ◌∷◌, map, ◌≡◌, refl, sym, ap, ◌∙◌, subst, inl, inr, arith, In, if◌then◌else◌,
}
use linx_app_backend.Base.Ints.{ℤ, pos, negsuc, le_int}
use linx_app_backend.Base.Collect.{In-map, In-reverse}
use linx_app_backend.Processors.Records.{NewAccountTransaction}
use linx_app_backend.Dex.Hops.{insert_by_index, sort_by_index, in_hop_order}

le_int_refl : (i : ℤ) → le_int i i ≡ true
le_int_refl (pos n) = ground arith
le_int_refl (negsuc n) = ground arith

module _ {D T : Type 0} where
  insert_first :
      (i : ℤ) (r : NewAccountTransaction D T) (l : List (ℤ × NewAccountTransaction D T))
      → ((s : ℤ × NewAccountTransaction D T) → In s l → s.0 ≡ i)
      → insert_by_index (i, r) l ≡ (i, r) ∷ l
  unfolding insert_by_index
  insert_first i r [] h = refl
  insert_first i r (x ∷ xs) h =
      let e : le_int i x.0 ≡ true =
        subst (λ j. le_int i j ≡ true) (sym (h x (inl refl))) (le_int_refl i) in
      ap (λ b. if b then (i, r) ∷ x ∷ xs else x ∷ insert_by_index (i, r) xs) e

  -- Swaps whose events have one index stay in their order.
  sort_one_index :
      (i : ℤ) (l : List (ℤ × NewAccountTransaction D T))
      → ((s : ℤ × NewAccountTransaction D T) → In s l → s.0 ≡ i)
      → sort_by_index l ≡ l
  unfolding sort_by_index
  sort_one_index i [] h = refl
  sort_one_index i ((j, r) ∷ l) h =
      let same = h (j, r) (inl refl) in
      ap (insert_by_index (j, r)) (sort_one_index i l (λ s s_in. h s (inr s_in)))
      ∙ insert_first j r l (λ s s_in. h s (inr s_in) ∙ sym same)

  abbrev pub with_index :
      ℤ → List (NewAccountTransaction D T) → List (ℤ × NewAccountTransaction D T)
  with_index i rows = map (λ r. (i, r)) rows

  without_index :
      (i : ℤ) (rows : List (NewAccountTransaction D T)) → map (λ s. s.1) (with_index i rows) ≡ rows
  without_index i [] = refl
  without_index i (r ∷ rows) = ap (λ l. r ∷ l) (without_index i rows)

  -- The swaps of a route, listed by the node from the last to the first.
  abbrev pub last_first :
      ℤ → List (NewAccountTransaction D T) → List (ℤ × NewAccountTransaction D T)
  last_first i hops = reverse (with_index i hops)

  pub in_hop_order-last_first :
      (i : ℤ) (hops : List (NewAccountTransaction D T)) → in_hop_order (last_first i hops) ≡ hops
  in_hop_order-last_first i hops =
      let one_index : (s : ℤ × NewAccountTransaction D T) → In s (last_first i hops) → s.0 ≡ i =
        λ s s_in.
          let (r, r_in, e) =
            In-map (λ r. (i, r)) s hops ((In-reverse s (with_index i hops)).0 s_in) in
          ap (λ x. x.0) e in
      ap (λ l. map (λ s. s.1) (reverse l)) (sort_one_index i (last_first i hops) one_index)
      ∙ ap (map (λ s. s.1)) (reverse-reverse (with_index i hops))
      ∙ without_index i hops
