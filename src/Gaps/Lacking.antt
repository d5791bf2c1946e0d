-- ===== src/Gaps/Lacking.antt =====
-- Where the backfill of examples/linx-indexer/src/services/gap_detection_service.rs meets a height
-- without a block on one of the chains.
use linx_app_backend.Base.{ℕ, Option, some, List, [], ◌∷◌, ◌++◌, ◌≡◌, ap, ◌∙◌}
use linx_app_backend.Base.Equality.{nat_eq}
use linx_app_backend.Base.HashMap.{HashMap, get}
use linx_app_backend.Base.Outcome.{Outcome, ok, panic}
use linx_app_backend.Base.Action.{bind_outcome, bind_ok, lift_ok}
use linx_app_backend.Indexer.Worker.{Worker}
use linx_app_backend.Indexer.Worker.Heights.{ListsHashes, LacksBlock, sync_at_height_lacking}
use linx_app_backend.Gaps.{BlockRow}
use linx_app_backend.Gaps.Report.{Chain, BlockGap, detect_block_gaps}
use linx_app_backend.Gaps.Backfill.{
  height_to_chains, unwrap, attempt, backfill_heights, planned, backfill_gaps,
}

module _ {B S : Type 0} (worker : Worker B S) where
  stops :
      (m : HashMap ℕ (List Chain)) (before after : List ℕ) (height : ℕ) (chains : List Chain)
      (start counts : ℕ × ℕ) (s s' : S)
      → backfill_heights worker m before start s ≡ (ok counts, s')
      → get height m ≡ some chains
      → ListsHashes worker height chains
      → LacksBlock worker height chains
      → backfill_heights worker m (before ++ height ∷ after) start s ≡ (panic, s')
  unfolding backfill_heights
  stops m [] after height chains start counts s s' tried here lists lacks =
      let same : s ≡ s' = ap (λ p. p.1) tried in
      rw here
        (rw (sync_at_height_lacking worker height chains s lists lacks) (ap (λ t. (panic, t)) same))
  stops m (first ∷ before) after height chains start counts s s' tried here lists lacks =
      let (own, found, tried') = lift_ok (unwrap (get first m)) _ tried in
      let (counts', t, attempted, later) = bind_ok (attempt worker first own start) _ tried' in
      rw found (
        rw attempted
          (stops m before after height chains counts' counts t s' later here lists lacks))

  module _ (visit_gaps : HashMap Chain (List ℕ) → List (Chain × List ℕ))
      (visit_heights : HashMap ℕ (List Chain) → List (ℕ × List Chain))
      (load_blocks : S → Outcome (List BlockRow)) where
    -- Say that the detection finds gaps, and that on the heights planned before some height the
    -- backfill gets through, whether their syncs succeed or end in errors, which are only counted. If
    -- the node then answers for every chain that lacks the height, and has no block at it on one of
    -- them, then the whole backfill panics: the heights after it are not tried, and the database is as
    -- the heights before it left it.
    pub backfill_gaps_lacking :
        (min_height : Option ℕ) (gaps : List BlockGap) (before after : List ℕ) (height : ℕ)
        (chains : List Chain) (counts : ℕ × ℕ) (s s' : S)
        → detect_block_gaps visit_gaps min_height (load_blocks s) ≡ ok gaps
        → planned visit_heights gaps ≡ before ++ height ∷ after
        → backfill_heights worker (height_to_chains gaps []) before (0, 0) s ≡ (ok counts, s')
        → get height (height_to_chains gaps []) ≡ some chains
        → ListsHashes worker height chains
        → LacksBlock worker height chains
        → backfill_gaps worker visit_gaps visit_heights load_blocks min_height s ≡ (panic, s')
    unfolding backfill_gaps
    backfill_gaps_lacking min_height gaps before after height chains counts s s' detected plan tried
          here lists lacks =
        rw detected (
          ap
            (λ hs.
              bind_outcome (backfill_heights worker (height_to_chains gaps []) hs (0, 0) s)
                (λ _ s. (ok tt, s)))
            plan
          ∙ ap (λ r. bind_outcome r (λ _ s. (ok tt, s)))
              (stops (height_to_chains gaps []) before after height chains (0, 0) counts s s' tried
                here lists lacks))
