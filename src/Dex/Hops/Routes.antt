-- ===== src/Dex/Hops/Routes.antt =====
-- What examples/linx-indexer/src/processors/dex_processor.rs makes of a route: swaps of one
-- transaction each of which puts in what the one before got out.
use mathlib.Core.List.{reverse, reverse-reverse, reverse-cons}
use linx_app_backend.Base.{
  Bool, true, false, ◌&&◌, some, List, [], ◌∷◌, String, ◌≡◌, ◌≢◌, ◌⊎◌, refl, sym, ap, ◌∙◌, subst,
  inl, inr, arith, In, length,
}
use linx_app_backend.Base.Equality.{string_eq, eqb, ne→eqb_false}
use linx_app_backend.Base.Ints.{ℤ, pos, as_i32}
use linx_app_backend.Base.Outcome.{ok}
use linx_app_backend.Base.Collect.{In-map, In-reverse}
use linx_app_backend.Types.Libraries.{BigDecimal}
use linx_app_backend.Processors.Records.{NewAccountTransaction, SwapDetails, swap_details}
use linx_app_backend.Dex.Hops.{
  last_of, details_of, get_swap_details, set_swap_details, same_pair, is_split_swap,
  insert_by_index, sort_by_index, aggregated_swap, aggregate_many, aggregate_tx, aggregate_sorted,
}
use linx_app_backend.Dex.Hops.OneIndex.{with_index, last_first, in_hop_order-last_first}
use linx_app_backend.Dex.Hops.Rows.{IsReadable, aggregate_sorted_lem, aggregate_many_lem}

and_middle : (a b c : Bool) → b ≡ false → (a && (b && c)) ≡ false
and_middle a b c h = ground arith

module _ {D T : Type 0} where
  -- Each swap gets in exchange another token, and puts in what the one before got; from `from` to
  -- `to`.
  abbrev pub IsRoute : String → String → List (NewAccountTransaction D T) → Type 0
  IsRoute from to [] = from ≡ to
  IsRoute from to (hop ∷ hops) =
      (d : SwapDetails D) × (hop.details ≡ swap_details d)
      × (d.token_in ≡ from)
      × (d.token_in ≢ d.token_out)
      × IsRoute d.token_out to hops

  details_eq :
      (d e : SwapDetails D) (r : NewAccountTransaction D T)
      → r.details ≡ swap_details d
      → r.details ≡ swap_details e
      → d ≡ e
  details_eq d e r h k = let same : some d ≡ some e = ap details_of (sym h ∙ k) in cc

  route_end :
      (from to : String) (hop : NewAccountTransaction D T) (hops : List (NewAccountTransaction D T))
      (last : NewAccountTransaction D T) (d : SwapDetails D)
      → IsRoute from to (hop ∷ hops)
      → last_of (hop ∷ hops) ≡ some last
      → last.details ≡ swap_details d
      → d.token_out ≡ to
  route_end from to hop [] last d (e, has, start, moves, ends) is_last has_last =
      let same : hop ≡ last = cc in
      ap (λ (x : SwapDetails D). x.token_out)
        (details_eq d e last has_last (subst (λ r. r.details ≡ swap_details e) same has))
      ∙ ends
  route_end from to hop (next ∷ hops) last d (e, has, start, moves, rest) is_last has_last =
      route_end e.token_out to next hops last d rest is_last has_last

  -- A route is never taken for the same pair in several pools.
  route-ne-split :
      (from to : String) (hop next : NewAccountTransaction D T)
      (hops : List (NewAccountTransaction D T)) (first : SwapDetails D)
      → IsRoute from to (hop ∷ next ∷ hops)
      → hop.details ≡ swap_details first
      → is_split_swap first (hop ∷ next ∷ hops) ≡ false
  route-ne-split from to hop next hops first (d, has, start, moves, rest) is_first =
      let (e, has', start', moves', more) = rest in
      let same = details_eq first d hop is_first has in
      let other : eqb e.token_in first.token_in ≡ false =
        ne→eqb_false e.token_in first.token_in
          (λ q. moves (ap (λ (x : SwapDetails D). x.token_in) (sym same) ∙ sym q ∙ start')) in
      let not_same : same_pair first (get_swap_details next) ≡ false =
        ap (λ o. same_pair first o) (ap details_of has')
        ∙ ap (λ b. b && eqb e.token_out first.token_out) other in
      and_middle (same_pair first (get_swap_details hop)) (same_pair first (get_swap_details next))
        (is_split_swap first hops) not_same

last_first-ne-single :
    {D T : Type 0} (i : ℤ) (r next : NewAccountTransaction D T)
    (rows : List (NewAccountTransaction D T)) (s : ℤ × NewAccountTransaction D T)
    → last_first i (r ∷ next ∷ rows) ≢ s ∷ []
last_first-ne-single i r next rows s e =
    let same =
      sym (reverse-reverse (with_index i (r ∷ next ∷ rows))) ∙ ap reverse e ∙ reverse-cons s [] in
    cc

aggregate_tx_many :
    {D T : Type 0} (decimal : BigDecimal D) (info : Bool) (tx_id : String)
    (l : List (ℤ × NewAccountTransaction D T))
    → ((s : ℤ × NewAccountTransaction D T) → l ≢ s ∷ [])
    → aggregate_tx decimal info tx_id l ≡ aggregate_many decimal info tx_id l
unfolding aggregate_tx
aggregate_tx_many decimal info tx_id [] h = refl
aggregate_tx_many decimal info tx_id (s ∷ []) h = elim (h s refl) [ ]
aggregate_tx_many decimal info tx_id (s ∷ t ∷ rest) h = refl

-- The row says that `swap` was made by who made the first of the swaps.
pub record Says {D T : Type 0} (row first_swap : NewAccountTransaction D T)
    (token_in token_out : String) (amount_in amount_out : D) (hop_count : ℤ) : Type 0 where
  pub swap : SwapDetails D
  pub has_swap : row.details ≡ swap_details swap
  pub of_sender : row.address ≡ first_swap.address
  pub puts_in : swap.token_in ≡ token_in
  pub gets_out : swap.token_out ≡ token_out
  pub amount_put_in : swap.amount_in ≡ amount_in
  pub amount_got_out : swap.amount_out ≡ amount_out
  pub hops : swap.hop_count ≡ hop_count

retold :
    {D T : Type 0} {row first_swap : NewAccountTransaction D T} {x x' y y' : String} {m n : D}
    {h : ℤ}
    → Says row first_swap x y m n h
    → x ≡ x'
    → y ≡ y'
    → Says row first_swap x' y' m n h
retold said e f = record {
  swap = said.swap;
  has_swap = said.has_swap;
  of_sender = said.of_sender;
  puts_in = said.puts_in ∙ e;
  gets_out = said.gets_out ∙ f;
  amount_put_in = said.amount_put_in;
  amount_got_out = said.amount_got_out;
  hops = said.hops;
}

module _ {D T : Type 0} (decimal : BigDecimal D) (info : Bool) where
  -- The row of swaps that are not of one pair.
  chained :
      (tx_id : String) (swaps : List (NewAccountTransaction D T))
      (first_swap last_swap : NewAccountTransaction D T) (first last : SwapDetails D)
      → is_split_swap first swaps ≡ false
      → Says
          (set_swap_details first_swap (aggregated_swap decimal tx_id first last swaps))
          first_swap
          first.token_in
          last.token_out
          first.amount_in
          last.amount_out
          (as_i32 (pos (length swaps)))
  chained tx_id swaps first_swap last_swap first last not_split =
      let made = aggregated_swap decimal tx_id first last swaps in
      record {
        swap = made;
        has_swap = refl;
        of_sender = refl;
        puts_in = rw not_split refl;
        gets_out = rw not_split refl;
        amount_put_in = rw not_split refl;
        amount_got_out = rw not_split refl;
        hops = rw not_split refl;
      }

  -- A route of two or more swaps whose events have one index, and which the node lists from the last
  -- to the first, becomes one row: from the token that the first puts in to the one that the last
  -- gets out, with these amounts and the number of the swaps.
  pub route_aggregated :
      (tx_id from to : String) (i : ℤ) (first_swap next last_swap : NewAccountTransaction D T)
      (hops : List (NewAccountTransaction D T))
      → IsRoute from to (first_swap ∷ next ∷ hops)
      → last_of (next ∷ hops) ≡ some last_swap
      → ((r : NewAccountTransaction D T) → In r (first_swap ∷ next ∷ hops) → IsReadable info r)
      → (first : IsReadable info first_swap) (last : IsReadable info last_swap)
      → (row : NewAccountTransaction D T) × (aggregate_tx decimal info tx_id
            (last_first i (first_swap ∷ next ∷ hops))
          ≡ ok row)
        × Says row first_swap from to first.swap.amount_in last.swap.amount_out
            (as_i32 (pos (length (first_swap ∷ next ∷ hops))))
  route_aggregated tx_id from to i first_swap next last_swap hops route is_last readable first
        last =
      let swaps = first_swap ∷ next ∷ hops in
      let l = last_first i swaps in
      let shown : (s : ℤ × NewAccountTransaction D T) → In s l → IsReadable info (s.1) = λ s s_in.
        let (r, r_in, e) =
          In-map (λ r. (i, r)) s swaps ((In-reverse s (with_index i swaps)).0 s_in) in
        subst (IsReadable info) (sym (ap (λ x. x.1) e)) (readable r r_in) in
      let said =
        chained tx_id swaps first_swap last_swap first.swap last.swap
          (route-ne-split from to first_swap next hops first.swap route first.has_swap) in
      let start = details_eq first.swap (route.0) first_swap first.has_swap (route.1) in
      (
        set_swap_details first_swap (aggregated_swap decimal tx_id first.swap last.swap swaps),
        aggregate_tx_many decimal info tx_id l (last_first-ne-single i first_swap next hops)
            ∙ aggregate_many_lem decimal info tx_id l shown
            ∙ ap (aggregate_sorted decimal info tx_id) (in_hop_order-last_first i swaps)
            ∙ aggregate_sorted_lem decimal info tx_id swaps first_swap last_swap refl is_last first
                last,
        retold said (ap (λ (x : SwapDetails D). x.token_in) start ∙ route.2) (
            route_end from to first_swap (next ∷ hops) last_swap last.swap route is_last
              last.has_swap),
      )

  -- A route of two swaps whose events have the indices 2 and 3 is taken in the wrong order, in whichever
  -- order it is listed.
  pub reversed_by_index :
      (tx_id a b c : String) (first_swap second_swap : NewAccountTransaction D T)
      (first : IsReadable info first_swap) (second : IsReadable info second_swap)
      → first.swap.token_in ≡ a
      → first.swap.token_out ≡ b
      → second.swap.token_in ≡ b
      → second.swap.token_out ≡ c
      → a ≢ b
      → (row : NewAccountTransaction D T) × (aggregate_tx decimal info tx_id
            ((pos 2, first_swap) ∷ (pos 3, second_swap) ∷ [])
          ≡ ok row)
        × (aggregate_tx decimal info tx_id ((pos 3, second_swap) ∷ (pos 2, first_swap) ∷ [])
            ≡ ok row)
        × Says row second_swap b b second.swap.amount_in first.swap.amount_out (pos 2)
  unfolding aggregate_tx sort_by_index insert_by_index as_i32
  reversed_by_index tx_id a b c first_swap second_swap first second fa fb sb sc moves =
      let swaps = second_swap ∷ first_swap ∷ [] in
      let not_same : same_pair second.swap (get_swap_details first_swap) ≡ false =
        ap (λ o. same_pair second.swap o) (ap details_of first.has_swap)
        ∙ ap (λ x. x && eqb first.swap.token_out second.swap.token_out)
            (ne→eqb_false first.swap.token_in second.swap.token_in
              (λ q. moves (sym fa ∙ q ∙ sb))) in
      let said = chained tx_id swaps second_swap first_swap second.swap first.swap (
        and_middle (same_pair second.swap (get_swap_details second_swap))
          (same_pair second.swap (get_swap_details first_swap)) true not_same) in
      let sorted =
        aggregate_sorted_lem decimal info tx_id swaps second_swap first_swap refl refl second
          first in
      let ready : (l : List (ℤ × NewAccountTransaction D T))
          → ((s : ℤ × NewAccountTransaction D T)
              → In s l
              → (s.1 ≡ first_swap) ⊎ (s.1 ≡ second_swap))
          → (s : ℤ × NewAccountTransaction D T) → In s l
          → IsReadable info (s.1) =
        λ l either s i. elim (either s i) [
          | inl e ↦ subst (IsReadable info) (sym e) first
          | inr e ↦ subst (IsReadable info) (sym e) second
        ] in
      (
        set_swap_details second_swap (aggregated_swap decimal tx_id second.swap first.swap swaps),
        aggregate_many_lem decimal info tx_id ((pos 2, first_swap) ∷ (pos 3, second_swap) ∷ []) (
              ready ((pos 2, first_swap) ∷ (pos 3, second_swap) ∷ []) λ s i. elim i [
                | inl e ↦ inl (ap (λ x. x.1) e)
                | inr (inl e) ↦ inr (ap (λ x. x.1) e)
                | inr (inr j) ↦ elim j [ ]
              ])
            ∙ sorted,
        aggregate_many_lem decimal info tx_id ((pos 3, second_swap) ∷ (pos 2, first_swap) ∷ []) (
              ready ((pos 3, second_swap) ∷ (pos 2, first_swap) ∷ []) λ s i. elim i [
                | inl e ↦ inr (ap (λ x. x.1) e)
                | inr (inl e) ↦ inl (ap (λ x. x.1) e)
                | inr (inr j) ↦ elim j [ ]
              ])
            ∙ sorted,
        retold said sb fb,
      )
