-- ===== src/Gaps/Backfill.antt =====
-- `backfill_gaps` of examples/linx-indexer/src/services/gap_detection_service.rs: every missing height is
-- synced with the chains that lack it, from the lowest height on. The pauses are left out.
use linx_app_backend.Base.{
  ℕ, suc, ◌%◌, ◌^◌, Option, some, none, List, [], ◌∷◌, ◌++◌, map, leb, if◌then◌else◌,
}
use linx_app_backend.Base.Equality.{nat_eq}
use linx_app_backend.Base.HashMap.{HashMap, get, alter}
use linx_app_backend.Base.U64.{u64_mod}
use linx_app_backend.Base.Outcome.{Outcome, ok, err, panic}
use linx_app_backend.Base.Action.{Action, ◌>>=◌, ◌>>◌, lift, pure}
use linx_app_backend.Indexer.Worker.{Worker, sync_at_height}
use linx_app_backend.Gaps.{BlockRow}
use linx_app_backend.Gaps.Report.{Chain, BlockGap, detect_block_gaps}

-- `chain_from as u32`
abbrev pub chain_of : BlockGap → Chain
chain_of gap = (gap.chain_from % 2 ^ 32, gap.chain_to % 2 ^ 32)

-- `height_to_chains.entry(height as u64).or_default().push(…)` for the heights of a gap.
abbrev add_heights : Chain → List ℕ → HashMap ℕ (List Chain) → HashMap ℕ (List Chain)
add_heights chain [] m = m
add_heights chain (height ∷ heights) m =
    add_heights chain heights (alter (height % u64_mod) [] (λ chains. chains ++ chain ∷ []) m)

unfoldable pub height_to_chains : List BlockGap → HashMap ℕ (List Chain) → HashMap ℕ (List Chain)
height_to_chains [] m = m
height_to_chains (gap ∷ gaps) m =
    height_to_chains gaps (add_heights (chain_of gap) gap.missing_heights m)

-- `sort_unstable`
abbrev insert_lowest : ℕ → List ℕ → List ℕ
insert_lowest h [] = h ∷ []
insert_lowest h (k ∷ ks) = let rest = insert_lowest h ks in if leb h k then h ∷ k ∷ ks else k ∷ rest

unfoldable pub sort_heights : List ℕ → List ℕ
sort_heights [] = []
sort_heights (h ∷ hs) = insert_lowest h (sort_heights hs)

-- `height_to_chains.get(height).unwrap()`
abbrev pub unwrap : {A : Type 0} → Option A → Outcome A
unwrap none = panic
unwrap (some a) = ok a

-- `all_heights`
abbrev pub planned : (HashMap ℕ (List Chain) → List (ℕ × List Chain)) → List BlockGap → List ℕ
planned visit_heights gaps =
    sort_heights (map (λ entry. entry.0) (visit_heights (height_to_chains gaps [])))

-- The numbers of heights that succeeded and that failed. An error is only counted.
abbrev pub count : ℕ × ℕ → Outcome (Unit {0}) → Outcome (ℕ × ℕ)
count (successes, failures) (ok u) = ok (suc successes, failures)
count (successes, failures) (err e) = ok (successes, suc failures)
count (successes, failures) panic = panic

module _ {B S : Type 0} (worker : Worker B S) where
  abbrev pub attempt : ℕ → List Chain → ℕ × ℕ → Action S (ℕ × ℕ)
  attempt height chains counts s =
      let (r, s') = sync_at_height worker height (some chains) s in (count counts r, s')

  unfoldable pub backfill_heights : HashMap ℕ (List Chain) → List ℕ → ℕ × ℕ → Action S (ℕ × ℕ)
  backfill_heights m [] counts = pure counts
  backfill_heights m (height ∷ heights) counts = lift (unwrap (get height m)) >>= λ chains.
      attempt height chains counts >>= λ counts'. backfill_heights m heights counts'

  module _ (visit_gaps : HashMap Chain (List ℕ) → List (Chain × List ℕ))
      (visit_heights : HashMap ℕ (List Chain) → List (ℕ × List Chain))
      (load_blocks : S → Outcome (List BlockRow)) where
    unfoldable pub backfill_gaps : Option ℕ → Action S (Unit {0})
    backfill_gaps min_height s =
        (lift (detect_block_gaps visit_gaps min_height (load_blocks s)) >>= λ gaps.
        backfill_heights (height_to_chains gaps []) (planned visit_heights gaps) (0, 0) >> pure tt)
          s
