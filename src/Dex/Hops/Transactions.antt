-- ===== src/Dex/Hops/Transactions.antt =====
-- One row for each transaction with swaps: aggregate_multi_hop_swaps of
-- examples/linx-indexer/src/processors/dex_processor.rs.
use linx_app_backend.Base.{
  some, none, List, [], ◌∷◌, String, ◌≡◌, ◌≢◌, refl, sym, ◌∙◌, subst, ◌↔◌, Bool, In, In-filter,
}
use linx_app_backend.Base.Equality.{string_eq, eqb}
use linx_app_backend.Base.HashMap.{HashMap, get, VisitsAll, get→In, In→get, IsDistinct}
use linx_app_backend.Base.Ints.{ℤ}
use linx_app_backend.Base.Outcome.{Outcome, ok}
use linx_app_backend.Base.Collect.{In-collect, collect_total}
use linx_app_backend.Types.Libraries.{BigDecimal}
use linx_app_backend.Processors.Records.{NewAccountTransaction}
use linx_app_backend.Dex.Hops.{aggregate_tx, aggregate_multi_hop_swaps, group_by_tx}
use linx_app_backend.Dex.Hops.Groups.{pushed, swaps_of, get-group_by_tx, group_by_tx-IsDistinct}
use linx_app_backend.Dex.Hops.Rows.{IsReadable, aggregate_tx_total}

pushed→eq : {A : Type 0} (xs l : List A) → pushed none xs ≡ some l → (l ≡ xs) × (xs ≢ [])
pushed→eq [] l h = cc
pushed→eq (x ∷ xs) l h = (cc, λ e. cc)

ne→pushed : {A : Type 0} (xs : List A) → xs ≢ [] → pushed none xs ≡ some xs
ne→pushed [] h = elim (h refl) [ ]
ne→pushed (x ∷ xs) h = refl

module _ {D T : Type 0} (decimal : BigDecimal D) (info : Bool)
    (visit : HashMap String (List (ℤ × NewAccountTransaction D T))
      → List (String × List (ℤ × NewAccountTransaction D T)))
    (visits : VisitsAll visit) (swaps : List (ℤ × NewAccountTransaction D T)) where
  abbrev groups : HashMap String (List (ℤ × NewAccountTransaction D T))
  groups = group_by_tx swaps []

  groups-IsDistinct : IsDistinct groups
  unfolding IsDistinct
  groups-IsDistinct = group_by_tx-IsDistinct swaps [] tt

  get-groups : (tx_id : String) → get tx_id groups ≡ pushed none (swaps_of tx_id swaps)
  unfolding get
  get-groups tx_id = get-group_by_tx tx_id swaps []

  visited_group :
      (tx_id : String) (l : List (ℤ × NewAccountTransaction D T))
      → In (tx_id, l) (visit groups)
      → (l ≡ swaps_of tx_id swaps) × (swaps_of tx_id swaps ≢ [])
  visited_group tx_id l i =
      let (distinct, same) = visits groups groups-IsDistinct in
      pushed→eq (swaps_of tx_id swaps) l
        (sym (get-groups tx_id) ∙ In→get tx_id l groups groups-IsDistinct ((same (tx_id, l)).0 i))

  group_visited :
      (tx_id : String) → swaps_of tx_id swaps ≢ [] → In (tx_id, swaps_of tx_id swaps) (visit groups)
  group_visited tx_id some_swap =
      let (distinct, same) = visits groups groups-IsDistinct in
      (same (tx_id, swaps_of tx_id swaps)).1 (
        get→In tx_id (swaps_of tx_id swaps) groups
          (get-groups tx_id ∙ ne→pushed (swaps_of tx_id swaps) some_swap))

  -- If every swap has details whose texts the messages can show, the aggregation does not panic, and
  -- its rows are exactly those that the swaps of each transaction with a swap become, taken by
  -- themselves in the order in which they were extracted, whatever the order of the map.
  pub aggregate_multi_hop_swaps_lem :
      ((s : ℤ × NewAccountTransaction D T) → In s swaps → IsReadable info (s.1))
      → (rows : List (NewAccountTransaction D T)) × (aggregate_multi_hop_swaps decimal info visit
            swaps
          ≡ ok rows)
        × ((row : NewAccountTransaction D T)
            → In row rows ↔ (
                (tx_id : String) × (swaps_of tx_id swaps ≢ [])
                × (aggregate_tx decimal info tx_id (swaps_of tx_id swaps) ≡ ok row)))
  unfolding aggregate_multi_hop_swaps
  aggregate_multi_hop_swaps_lem readable =
      let f : String × List (ℤ × NewAccountTransaction D T) → Outcome (NewAccountTransaction D T) =
        λ g. aggregate_tx decimal info (g.0) (g.1) in
      let (rows, collected) = collect_total f (visit groups) (λ g i.
        let (same, some_swap) = visited_group (g.0) (g.1) i in
        aggregate_tx_total decimal info (g.0) (g.1) (λ e. some_swap (sym same ∙ e))
          (λ s s_in.
            readable s
              (In-filter (λ x. eqb (g.0) (x.1.tx_id)) s swaps (subst (In s) same s_in)).0)) in
      (
        rows,
        collected,
        λ row. (
          λ i.
              let (g, g_in, e) = (In-collect f (visit groups) rows collected row).0 i in
              let (same, some_swap) = visited_group (g.0) (g.1) g_in in
              (g.0, some_swap, subst (λ l. aggregate_tx decimal info (g.0) l ≡ ok row) same e),
          λ h.
              let (tx_id, some_swap, e) = h in
              (In-collect f (visit groups) rows collected row).1
                ((tx_id, swaps_of tx_id swaps), group_visited tx_id some_swap, e),
        ),
      )
