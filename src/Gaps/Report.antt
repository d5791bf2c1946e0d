-- ===== src/Gaps/Report.antt =====
-- `detect_block_gaps` of examples/linx-indexer/src/services/gap_detection_service.rs over all chains, and
-- `generate_report`. The order in which the map of chains is visited is an argument.
use linx_app_backend.Base.{
  ℕ, ◌+◌, Bool, Option, some, none, List, [], ◌∷◌, ◌++◌, map, ltb, ◌==◌, length, if◌then◌else◌,
}
use linx_app_backend.Base.Equality.{nat_eq, pair_eq, eqb}
use linx_app_backend.Base.HashMap.{HashMap, alter}
use linx_app_backend.Base.Outcome.{Outcome, ok, ◌>>=◌}
use linx_app_backend.Gaps.{BlockRow, missing_heights}

abbrev pub Chain : Type 0
Chain = ℕ × ℕ

pub record BlockGap : Type 0 where
  pub chain_from : ℕ
  pub chain_to : ℕ
  pub missing_heights : List ℕ
  pub total_missing : ℕ

pub record GapDetectionReport : Type 0 where
  pub block_gaps : List BlockGap
  pub total_missing_blocks : ℕ

abbrev pub min_height_filter : Option ℕ → ℕ
min_height_filter none = 0
min_height_filter (some h) = h

abbrev pub chain_before : Chain → Chain → Bool
chain_before a b = if a.0 == b.0 then ltb a.1 b.1 else ltb a.0 b.0

-- The partitions of the query, in the order of its result.
abbrev insert_chain : Chain → List Chain → List Chain
insert_chain c [] = c ∷ []
insert_chain c (d ∷ ds) =
    let rest = insert_chain c ds in
    if eqb c d then d ∷ ds else (if chain_before c d then c ∷ d ∷ ds else d ∷ rest)

unfoldable pub chains_of : List BlockRow → List Chain
chains_of [] = []
chains_of (row ∷ rows) = insert_chain (row.chain_from, row.chain_to) (chains_of rows)

abbrev rows_of : ℕ → List BlockRow → List Chain → List (Chain × ℕ)
rows_of min_height blocks [] = []
rows_of min_height blocks (chain ∷ chains) =
    map (λ h. (chain, h)) (missing_heights min_height chain blocks)
    ++ rows_of min_height blocks chains

-- `map.entry(key).or_default().push(value)` for each pair.
unfoldable pub gaps_by_chain : List (Chain × ℕ) → HashMap Chain (List ℕ) → HashMap Chain (List ℕ)
gaps_by_chain [] m = m
gaps_by_chain ((chain, height) ∷ rows) m =
    gaps_by_chain rows (alter chain [] (λ heights. heights ++ height ∷ []) m)

abbrev gap_of : Chain × List ℕ → BlockGap
gap_of entry = record {
  chain_from = entry.0.0;
  chain_to = entry.0.1;
  missing_heights = entry.1;
  total_missing = length entry.1;
}

-- `sort_by_key`
abbrev insert_gap : BlockGap → List BlockGap → List BlockGap
insert_gap g [] = g ∷ []
insert_gap g (h ∷ hs) =
    let rest = insert_gap g hs in
    if chain_before (h.chain_from, h.chain_to) (g.chain_from, g.chain_to)
    then h ∷ rest
    else g ∷ h ∷ hs

unfoldable pub sort_gaps : List BlockGap → List BlockGap
sort_gaps [] = []
sort_gaps (g ∷ gs) = insert_gap g (sort_gaps gs)

abbrev pub sum_missing : List BlockGap → ℕ
sum_missing [] = 0
sum_missing (g ∷ gs) = g.total_missing + sum_missing gs

module _ (visit : HashMap Chain (List ℕ) → List (Chain × List ℕ)) where
  unfoldable pub detect_block_gaps : Option ℕ → Outcome (List BlockRow) → Outcome (List BlockGap)
  detect_block_gaps min_height blocks = blocks >>= λ rows. ok (
      sort_gaps (
        map gap_of (
          visit (gaps_by_chain (rows_of (min_height_filter min_height) rows (chains_of rows)) []))))

  unfoldable pub generate_report : Option ℕ → Outcome (List BlockRow) → Outcome GapDetectionReport
  generate_report min_height blocks = detect_block_gaps min_height blocks >>= λ block_gaps.
      ok (record { block_gaps = block_gaps; total_missing_blocks = sum_missing block_gaps })
