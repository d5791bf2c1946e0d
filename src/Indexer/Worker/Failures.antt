-- ===== src/Indexer/Worker/Failures.antt =====
-- What goes wrong in a backfill (`run_backfill`, `sync_range`, crates/bento-core/src/workers/worker.rs)
-- and how it ends: a fetch that fails is skipped, a processor that fails ends the run, and a step of
-- zero never ends.
use linx_app_backend.Base.{
  ℕ, zero, suc, ◌+◌, ◌-◌, ◌<◌, ◌≡◌, refl, inl, inr, Option, none, some, List, [], ◌∷◌, min, arith,
  ltb, Bool-cases, lt→ltb, true, false, if◌then◌else◌, sym, ◌∙◌,
}
use linx_app_backend.Base.Outcome.{Outcome, Error, ok, err, panic}
use linx_app_backend.Base.U64.{u64_mod, add64, add64-exact}
use linx_app_backend.Indexer.Range.{BlockBatch}
use linx_app_backend.Indexer.Fetch.{fetch_parallel}
use linx_app_backend.Indexer.Fetch.Chunks.{Fails, fetch_parallel_fails}
use linx_app_backend.Indexer.Worker.{
  Worker, BackfillOptions, run_pipeline, after_fetch, fetch_returns, sync_range, sync_or_wait,
}
use linx_app_backend.Indexer.Worker.Loops.{
  after_window, backfill_loop, backfill_start, backfill_stop, backfill_from, run_backfill,
}

module _ {B S : Type 0} (w : Worker B S) where
  -- An error that a run ends with is one that the pipeline returned.
  abbrev pub PipelineFails : Outcome (Unit {0}) × S → Type 0
  PipelineFails (ok u, s') = Unit
  PipelineFails (err e, s') =
      (batches : List (BlockBatch B)) × (s : S) × (run_pipeline w batches s ≡ (err e, s'))
  PipelineFails (panic, s') = Unit

  abbrev EndsByPipeline : Option (Outcome (Unit {0}) × S) → Type 0
  EndsByPipeline none = Unit
  EndsByPipeline (some r) = PipelineFails r

  run_pipeline-PipelineFails :
      (batches : List (BlockBatch B)) (s : S) (r : Outcome (Unit {0}) × S)
      → run_pipeline w batches s ≡ r
      → PipelineFails r
  run_pipeline-PipelineFails batches s (ok u, s') e = tt
  run_pipeline-PipelineFails batches s (err e', s') e = (batches, s, e)
  run_pipeline-PipelineFails batches s (panic, s') e = tt

  after_fetch-PipelineFails :
      (r : Outcome (List (BlockBatch B))) (s : S) → PipelineFails (after_fetch w r s)
  unfolding after_fetch
  after_fetch-PipelineFails (ok []) s = tt
  after_fetch-PipelineFails (ok (b ∷ bs)) s = run_pipeline-PipelineFails (b ∷ bs) s _ refl
  after_fetch-PipelineFails (err e) s = tt
  after_fetch-PipelineFails panic s = tt

  after_window-EndsByPipeline :
      (r : Option (Outcome (Unit {0}) × S)) (continue : S → Option (Outcome (Unit {0}) × S))
      → EndsByPipeline r
      → ((s : S) → EndsByPipeline (continue s))
      → EndsByPipeline (after_window r continue)
  unfolding after_window
  after_window-EndsByPipeline none continue h k = tt
  after_window-EndsByPipeline (some (ok u, s)) continue h k = k s
  after_window-EndsByPipeline (some (err e, s)) continue h k = h
  after_window-EndsByPipeline (some (panic, s)) continue h k = tt

  sync_or_wait-EndsByPipeline :
      (start stop : ℕ) (s : S) → EndsByPipeline (sync_or_wait w start stop s)
  unfolding sync_or_wait sync_range
  sync_or_wait-EndsByPipeline start stop s =
      let fetched =
        fetch_parallel w.node.get_blocks_and_events (record { from_ts = start; to_ts = stop })
          w.workers in
      elim (fetch_returns w fetched)
        as (λ b. EndsByPipeline (if b then some (after_fetch w fetched s) else none)) [
          | true ↦ after_fetch-PipelineFails fetched s
          | false ↦ tt
        ]

  backfill_loop-EndsByPipeline :
      (fuel step stop cur : ℕ) (s : S) → EndsByPipeline (backfill_loop w fuel step stop cur s)
  unfolding backfill_loop
  backfill_loop-EndsByPipeline zero step stop cur s = tt
  backfill_loop-EndsByPipeline (suc fuel) step stop cur s = elim (Bool-cases (ltb cur stop)) [
    | inl more ↦
        rw (more, backfill_loop)
          (after_window-EndsByPipeline _ _ (sync_or_wait-EndsByPipeline cur _ s)
            (λ s'. backfill_loop-EndsByPipeline fuel step stop _ s'))
    | inr done ↦ rw (done, backfill_loop) tt
  ]

  -- A backfill from a given start to a given stop is its loop.
  run_backfill-given :
      (fuel start stop : ℕ) (opts : BackfillOptions) (s : S)
      → opts.start_ts ≡ some start
      → opts.stop_ts ≡ some stop
      → run_backfill w fuel opts s ≡ backfill_loop w fuel opts.step stop start s
  unfolding run_backfill backfill_from backfill_start backfill_stop
  run_backfill-given fuel start stop opts s from to = rw to (rw from refl)

  -- If a backfill whose start and stop are both given returns an error, it has met it in the pipeline:
  -- one of the processors failed on some batches, and left the database as the backfill leaves it. So
  -- it returns no error of a fetch. (Without a start or a stop, the requests that find them can fail,
  -- and those errors are returned.)
  pub backfill_error_from_pipeline :
      (fuel start stop : ℕ) (opts : BackfillOptions) (s s' : S) (e : Error)
      → opts.start_ts ≡ some start
      → opts.stop_ts ≡ some stop
      → run_backfill w fuel opts s ≡ some (err e, s')
      → (batches : List (BlockBatch B)) × (before : S) × (run_pipeline w batches before
          ≡ (err e, s'))
  backfill_error_from_pipeline fuel start stop opts s s' e from to h =
      let ended = sym (run_backfill-given fuel start stop opts s from to) ∙ h in
      rw ended at (backfill_loop-EndsByPipeline fuel opts.step stop start s)

  loop_unreachable :
      (fuel step stop cur : ℕ) (s : S)
      → Fails w.node.get_blocks_and_events
      → 0 < w.workers
      → 0 < step
      → stop + step < u64_mod
      → stop - cur < fuel
      → backfill_loop w fuel step stop cur s ≡ some (ok tt, s)
  unfolding backfill_loop sync_or_wait sync_range after_fetch after_window fetch_returns
  loop_unreachable zero step stop cur s down some_worker p fits f = elim f [ ]
  loop_unreachable (suc fuel) step stop cur s down some_worker p fits f =
      elim (Bool-cases (ltb cur stop)) [
        | inl more ↦
            let next : ℕ = min (cur + step) stop in
            let (e, failed) =
              fetch_parallel_fails w.node.get_blocks_and_events down
                (record { from_ts = cur; to_ts = next }) w.workers some_worker in
            rw (more, backfill_loop, add64-exact cur step (ground arith))
              (rw (failed, sync_or_wait, sync_range, after_fetch, after_window)
                (loop_unreachable fuel step stop next s down some_worker p fits (ground arith)))
        | inr done ↦ rw (done, backfill_loop) refl
      ]

  -- While the node fails every request for the blocks of an interval, a backfill whose start and stop
  -- are both given, with at least one worker, a step of at least one millisecond, enough fuel and no
  -- overflow at the end, still comes to its end, reports success, and leaves the database as it was.
  pub backfill_unreachable :
      (fuel start stop : ℕ) (opts : BackfillOptions) (s : S)
      → opts.start_ts ≡ some start
      → opts.stop_ts ≡ some stop
      → Fails w.node.get_blocks_and_events
      → 0 < w.workers
      → 0 < opts.step
      → stop + opts.step < u64_mod
      → stop - start < fuel
      → run_backfill w fuel opts s ≡ some (ok tt, s)
  backfill_unreachable fuel start stop opts s from to down some_worker p fits f =
      run_backfill-given fuel start stop opts s from to
      ∙ loop_unreachable fuel opts.step stop start s down some_worker p fits f

  -- With a step of zero, and something left to fetch, the backfill runs through any fuel as long as
  -- the empty window at its start is synced without an error: it never ends.
  pub backfill_step_zero :
      (fuel stop cur : ℕ) (s : S)
      → cur < stop
      → stop < u64_mod
      → ((t : S) → (t' : S) × (sync_range w cur cur t ≡ (ok tt, t')))
      → backfill_loop w fuel 0 stop cur s ≡ none
  unfolding backfill_loop after_window sync_or_wait
  backfill_step_zero zero stop cur s h fits synced = refl
  backfill_step_zero (suc fuel) stop cur s h fits synced =
      let (s', e) = synced s in
      let here : min (add64 cur 0) stop ≡ cur = ground (arith, add64-exact cur 0) in
      let fetched =
        fetch_parallel w.node.get_blocks_and_events (record { from_ts = cur; to_ts = cur })
          w.workers in
      let rest = backfill_loop w fuel 0 stop cur in
      rw (lt→ltb cur stop h, backfill_loop, here)
        (elim (fetch_returns w fetched)
          as (λ b. after_window (if b then some (sync_range w cur cur s) else none) rest ≡ none) [
            | true ↦ rw (e, after_window) (backfill_step_zero fuel stop cur s' h fits synced)
            | false ↦ refl
          ])
