-- ===== src/Gaps.antt =====
-- examples/linx-indexer/src/services/gap_detection_service.rs: the heights that the query of
-- detect_block_gaps lists for one chain. Heights are natural numbers.
pub mod Order
pub mod Missing
pub mod Report
pub mod Backfill
pub mod Lacking
mod Tests
use linx_app_backend.Base.{
  ℕ, zero, suc, ◌+◌, ◌-◌, Bool, ◌&&◌, Option, none, some, List, [], ◌∷◌, ◌++◌, ltb, leb, ◌==◌,
  if◌then◌else◌, filter, filter_map,
}

-- A row of the table `blocks`, as far as the query reads it.
pub record BlockRow : Type 0 where
  pub chain_from : ℕ
  pub chain_to : ℕ
  pub height : ℕ

-- `generate_series`: from a number, so many.
unfoldable pub generate_series : ℕ → ℕ → List ℕ
generate_series gap_start zero = []
generate_series gap_start (suc n) = gap_start ∷ generate_series (gap_start + 1) n

-- `ORDER BY height`
unfoldable pub insert_height : ℕ → List ℕ → List ℕ
insert_height h [] = h ∷ []
insert_height h (k ∷ ks) = let rest = insert_height h ks in if leb h k then h ∷ k ∷ ks else k ∷ rest

unfoldable pub order_by_height : List ℕ → List ℕ
order_by_height [] = []
order_by_height (h ∷ hs) = insert_height h (order_by_height hs)

-- `gap_starts` and `expanded_gaps`, below the height of the row before (`LAG`).
unfoldable pub expanded_gaps : ℕ → List ℕ → List ℕ
expanded_gaps prev_height [] = []
expanded_gaps prev_height (height ∷ heights) =
    (if ltb 1 (height - prev_height)
      then generate_series (prev_height + 1) (height - 1 - prev_height)
      else [])
    ++ expanded_gaps height heights

-- The first row of a chain has no row before it.
unfoldable pub lag : List ℕ → List ℕ
lag [] = []
lag (height ∷ heights) = expanded_gaps height heights

-- `WHERE height >= $1`, in the partition of a chain.
abbrev pub in_partition : ℕ → ℕ × ℕ → BlockRow → Option ℕ
in_partition min_height chain row =
    if (row.chain_from == chain.0) && (row.chain_to == chain.1) && leb min_height row.height
    then some row.height
    else none

unfoldable pub missing_heights : ℕ → ℕ × ℕ → List BlockRow → List ℕ
missing_heights min_height chain blocks =
    filter (λ h. leb min_height h)
      (lag (order_by_height (filter_map (in_partition min_height chain) blocks)))
