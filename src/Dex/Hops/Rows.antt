-- ===== src/Dex/Hops/Rows.antt =====
-- The rows that aggregate_multi_hop_swaps of
-- examples/linx-indexer/src/processors/dex_processor.rs returns.
use text.Mathlib.Text.{is_char_boundary}
use linx_app_backend.Base.{
  Bool, true, false, not, ◌&&◌, some, List, [], ◌∷◌, String, ◌≡◌, ◌≢◌, refl, sym, ap, ◌∙◌, subst,
  inl, inr, In, if◌then◌else◌, filter_map, In-filter_map, flat_map, In-flat_map,
}
use linx_app_backend.Base.Equality.{string_eq}
use linx_app_backend.Base.Ints.{ℤ}
use linx_app_backend.Base.Outcome.{ok, panic}
use linx_app_backend.Types.Libraries.{BigDecimal}
use linx_app_backend.Processors.Records.{NewAccountTransaction, SwapDetails, swap_details}
use linx_app_backend.Dex.Hops.{
  first_of, last_of, logged, texts, texts_with_pool, details_of, get_swap_details, is_split_swap,
  aggregate_sorted, aggregated_swap, set_swap_details, in_hop_order, aggregate_many, aggregate_tx,
}
use linx_app_backend.Dex.Hops.Order.{In-in_hop_order, In→in_hop_order}

-- A message can show the first eight bytes of the text, or is not recorded.
abbrev pub CanShow : Bool → String → Type 0
CanShow info text = (info && not (is_char_boundary text 8)) ≡ false

-- A row with details of a swap, whose texts the messages can show.
pub record IsReadable {D T : Type 0} (info : Bool) (row : NewAccountTransaction D T) : Type 0 where
  pub swap : SwapDetails D
  pub has_swap : row.details ≡ swap_details swap
  pub token_in_shown : CanShow info swap.token_in
  pub token_out_shown : CanShow info swap.token_out
  pub pool_shown : CanShow info swap.pool_address

logged_ok :
    (info : Bool) (texts : List String)
    → ((t : String) → In t texts → CanShow info t)
    → logged info texts ≡ ok tt
logged_ok info [] h = refl
logged_ok info (t ∷ texts) h =
    let first = h t (inl refl) in
    let rest = logged_ok info texts (λ u i. h u (inr i)) in
    subst (λ b. (if b then panic else logged info texts) ≡ ok tt) (sym first) rest

first_present :
    {A : Type 0} (a : A) (xs : List A) → In a xs → (b : A) × (first_of xs ≡ some b) × In b xs
first_present a [] i = elim i [ ]
first_present a (x ∷ xs) i = (x, refl, inl refl)

last_present :
    {A : Type 0} (x : A) (xs : List A) → (b : A) × (last_of (x ∷ xs) ≡ some b) × In b (x ∷ xs)
last_present x [] = (x, refl, inl refl)
last_present x (y ∷ ys) = let (b, e, i) = last_present y ys in (b, e, inr i)

last_present-In :
    {A : Type 0} (a : A) (xs : List A) → In a xs → (b : A) × (last_of xs ≡ some b) × In b xs
last_present-In a [] i = elim i [ ]
last_present-In a (x ∷ xs) i = last_present x xs

some_inj : {A : Type 0} (a b : A) → some a ≡ some b → a ≡ b
some_inj a b h = cc

module _ {D : Type 0} (info : Bool) where
  abbrev ShowsAll : SwapDetails D → Type 0
  ShowsAll d = CanShow info d.token_in × CanShow info d.token_out × CanShow info d.pool_address

  shows_texts : (d : SwapDetails D) (t : String) → ShowsAll d → In t (texts d) → CanShow info t
  shows_texts d t h (inl e) = subst (CanShow info) (sym e) h.0
  shows_texts d t h (inr (inl e)) = subst (CanShow info) (sym e) h.1
  shows_texts d t h (inr (inr i)) = elim i [ ]

  shows_texts_with_pool :
      (d : SwapDetails D) (t : String) → ShowsAll d → In t (texts_with_pool d) → CanShow info t
  shows_texts_with_pool d t h (inl e) = subst (CanShow info) (sym e) h.0
  shows_texts_with_pool d t h (inr (inl e)) = subst (CanShow info) (sym e) h.1
  shows_texts_with_pool d t h (inr (inr (inl e))) = subst (CanShow info) (sym e) h.2
  shows_texts_with_pool d t h (inr (inr (inr i))) = elim i [ ]

module _ {D T : Type 0} (info : Bool) where
  readable_shows :
      (r : NewAccountTransaction D T) (d : SwapDetails D)
      → IsReadable info r
      → get_swap_details r ≡ some d
      → ShowsAll info d
  readable_shows r d readable e =
      subst (ShowsAll info) (some_inj readable.swap d (sym (ap details_of readable.has_swap) ∙ e))
        (readable.token_in_shown, readable.token_out_shown, readable.pool_shown)

  first_message_ok :
      (l : List (ℤ × NewAccountTransaction D T))
      → ((s : ℤ × NewAccountTransaction D T) → In s l → IsReadable info (s.1))
      → logged info (flat_map texts_with_pool (filter_map (λ s. get_swap_details (s.1)) l)) ≡ ok tt
  first_message_ok l h = logged_ok info _ λ t i.
      let details = filter_map (λ s. get_swap_details (s.1)) l in
      let (d, d_in, t_in) = In-flat_map texts_with_pool t details i in
      let (r, r_in, e) = In-filter_map (λ s. get_swap_details (s.1)) d l d_in in
      shows_texts_with_pool info d t (readable_shows (r.1) d (h r r_in) e) t_in

  second_message_ok :
      (rows : List (NewAccountTransaction D T))
      → ((r : NewAccountTransaction D T) → In r rows → IsReadable info r)
      → logged info (flat_map texts (filter_map get_swap_details rows)) ≡ ok tt
  second_message_ok rows h = logged_ok info _ λ t i.
      let (d, d_in, t_in) = In-flat_map texts t (filter_map get_swap_details rows) i in
      let (r, r_in, e) = In-filter_map get_swap_details d rows d_in in
      shows_texts info d t (readable_shows r d (h r r_in) e) t_in

module _ {D T : Type 0} (decimal : BigDecimal D) (info : Bool) where
  -- What the sorted swaps become, once their first and last are known.
  pub aggregate_sorted_lem :
      (tx_id : String) (swaps : List (NewAccountTransaction D T))
      (first_swap last_swap : NewAccountTransaction D T)
      → first_of swaps ≡ some first_swap
      → last_of swaps ≡ some last_swap
      → (first : IsReadable info first_swap) (last : IsReadable info last_swap)
      → aggregate_sorted decimal info tx_id swaps
        ≡ ok
            (set_swap_details first_swap (aggregated_swap decimal tx_id first.swap last.swap swaps))
  unfolding aggregate_sorted
  aggregate_sorted_lem tx_id swaps first_swap last_swap f l first last =
      let cut =
        first.swap.token_in
        ∷ (if is_split_swap first.swap swaps then first.swap.token_out else last.swap.token_out)
        ∷ [] in
      let shown : logged info cut ≡ ok tt = logged_ok info cut (λ t i. elim i [
        | inl e ↦ subst (CanShow info) (sym e) first.token_in_shown
        | inr (inl e) ↦
            subst (CanShow info) (sym e)
              (elim (is_split_swap first.swap swaps)
                as (λ b. CanShow info (if b then first.swap.token_out else last.swap.token_out)) [
                  | true ↦ first.token_out_shown
                  | false ↦ last.token_out_shown
                ])
        | inr (inr j) ↦ elim j [ ]
      ]) in
      rw f (rw l (rw first.has_swap (rw last.has_swap (rw shown refl))))

  aggregate_sorted_total :
      (tx_id : String) (r : NewAccountTransaction D T) (swaps : List (NewAccountTransaction D T))
      → In r swaps
      → ((s : NewAccountTransaction D T) → In s swaps → IsReadable info s)
      → (row : NewAccountTransaction D T) × (aggregate_sorted decimal info tx_id swaps ≡ ok row)
  aggregate_sorted_total tx_id r swaps i h =
      let (first, first_is, first_in) = first_present r swaps i in
      let (last, last_is, last_in) = last_present-In r swaps i in
      (
        _,
        aggregate_sorted_lem tx_id swaps first last first_is last_is (h first first_in)
            (h last last_in),
      )

  -- No message panics: what is left is the row of the sorted swaps.
  pub aggregate_many_lem :
      (tx_id : String) (l : List (ℤ × NewAccountTransaction D T))
      → ((s : ℤ × NewAccountTransaction D T) → In s l → IsReadable info (s.1))
      → aggregate_many decimal info tx_id l ≡ aggregate_sorted decimal info tx_id (in_hop_order l)
  aggregate_many_lem tx_id l h =
      let sorted : (r : NewAccountTransaction D T) → In r (in_hop_order l) → IsReadable info r =
        λ r i.
          let (s, s_in, e) = In-in_hop_order r l i in subst (IsReadable info) (sym e) (h s s_in) in
      rw (first_message_ok info l h) (rw (second_message_ok info (in_hop_order l) sorted) refl)

  pub aggregate_tx_total :
      (tx_id : String) (l : List (ℤ × NewAccountTransaction D T))
      → l ≢ []
      → ((s : ℤ × NewAccountTransaction D T) → In s l → IsReadable info (s.1))
      → (row : NewAccountTransaction D T) × (aggregate_tx decimal info tx_id l ≡ ok row)
  unfolding aggregate_tx
  aggregate_tx_total tx_id [] some_swap h = elim (some_swap refl) [ ]
  aggregate_tx_total tx_id (s ∷ []) some_swap h = (s.1, refl)
  aggregate_tx_total tx_id (s ∷ t ∷ rest) some_swap h =
      let sorted : (r : NewAccountTransaction D T)
          → In r (in_hop_order (s ∷ t ∷ rest))
          → IsReadable info r =
        λ r i.
          let (x, x_in, e) = In-in_hop_order r (s ∷ t ∷ rest) i in
          subst (IsReadable info) (sym e) (h x x_in) in
      let (row, e) =
        aggregate_sorted_total tx_id (s.1) (in_hop_order (s ∷ t ∷ rest))
          (In→in_hop_order s (s ∷ t ∷ rest) (inl refl)) sorted in
      (row, aggregate_many_lem tx_id (s ∷ t ∷ rest) h ∙ e)
