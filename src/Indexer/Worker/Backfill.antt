-- ===== src/Indexer/Worker/Backfill.antt =====
-- The backfill (`run_backfill`, crates/bento-core/src/workers/worker.rs): its windows, that it ends,
-- and what a failing fetch or a step of zero does to it.
use linx_app_backend.Base.{
  ℕ, zero, suc, ◌+◌, ◌-◌, ◌≤◌, ◌<◌, ◌≡◌, refl, ap, inl, inr, Option, some, none, Bool, List, [],
  ◌∷◌, min, arith, true, false, ltb, leb, length, if◌then◌else◌, All, Bool-cases,
}
use linx_app_backend.Base.Outcome.{Outcome, ok, err, panic}
use linx_app_backend.Base.Action.{Action, for_each, bind_outcome}
use linx_app_backend.Base.U64.{u64_mod, add64-exact}
use linx_app_backend.Indexer.Range.{BlockRange, BlockBatch, Tiles}
use linx_app_backend.Indexer.Pipeline.{channel_capacity}
use linx_app_backend.Indexer.Fetch.{fetch_parallel}
use linx_app_backend.Indexer.Fetch.Split.{IsProper}
use linx_app_backend.Indexer.Fetch.Results.{fetch_parallel-Tiles}
use linx_app_backend.Indexer.Worker.{Worker, returns, fetch_returns, sync_range, sync_or_wait}
use linx_app_backend.Indexer.Worker.Loops.{after_window, backfill_loop}

-- The windows of the backfill: `step` long each, the last one as long as what is left.
pub windows : ℕ → ℕ → ℕ → ℕ → List BlockRange
windows zero step stop cur = []
windows (suc fuel) step stop cur =
    let next = min (cur + step) stop in
    elim (ltb cur stop) [
      | true ↦ record { from_ts = cur; to_ts = next } ∷ windows fuel step stop next
      | false ↦ []
    ]

windows-Tiles :
    (fuel step stop cur : ℕ)
    → 0 < step
    → cur ≤ stop
    → stop - cur < fuel
    → Tiles cur stop (windows fuel step stop cur)
unfolding windows
windows-Tiles zero step stop cur p h f = elim f [ ]
windows-Tiles (suc fuel) step stop cur p h f =
    ground (arith, windows-Tiles fuel step stop (min (cur + step) stop))

windows_short :
    (fuel step stop cur : ℕ)
    → 0 < step
    → All (λ r. (r.from_ts < r.to_ts) × (r.to_ts ≤ r.from_ts + step)) (windows fuel step stop cur)
unfolding windows
windows_short zero step stop cur p = tt
windows_short (suc fuel) step stop cur p =
    ground (arith, windows_short fuel step stop (min (cur + step) stop))

after_window-eq :
    {S : Type 0} (r : Outcome (Unit {0}) × S) (continue : S → Option (Outcome (Unit {0}) × S))
    (rest : Action S (Unit {0}))
    → ((s : S) → continue s ≡ some (rest s))
    → after_window (some r) continue ≡ some (bind_outcome r (λ _. rest))
unfolding after_window
after_window-eq (ok u, s) continue rest h = h s
after_window-eq (err e, s) continue rest h = refl
after_window-eq (panic, s) continue rest h = refl

module _ {B S : Type 0} (w : Worker B S) where
  few_return :
      (batches : List (BlockBatch B)) → length batches ≤ channel_capacity → returns w batches ≡ true
  unfolding returns
  few_return batches few =
      elim w.processors
        as (λ ps.
          elim ps as (λ _. Bool) [ [] ↦ true | _ ∷ _ ↦ leb (length batches) channel_capacity ]
          ≡ true) [ [] ↦ refl | p ∷ ps ↦ ground arith ]

  fetch_few :
      (r : Outcome (List (BlockBatch B)))
      → ((batches : List (BlockBatch B)) → r ≡ ok batches → length batches ≤ channel_capacity)
      → fetch_returns w r ≡ true
  unfolding fetch_returns
  fetch_few (ok batches) few = few_return batches (few batches refl)
  fetch_few (err e) few = refl
  fetch_few panic few = refl

  -- With no more workers than a channel holds batches, syncing a proper range returns.
  sync_or_wait-few :
      (start stop : ℕ) (s : S)
      → start ≤ stop
      → stop < u64_mod
      → w.workers ≤ channel_capacity
      → sync_or_wait w start stop s ≡ some (sync_range w start stop s)
  unfolding sync_or_wait
  sync_or_wait-few start stop s proper fits few =
      let range : BlockRange = record { from_ts = start; to_ts = stop } in
      let p : IsProper range = record { ordered = proper; fits = fits } in
      ap (λ b. if b then some (sync_range w start stop s) else none)
        (fetch_few (fetch_parallel w.node.get_blocks_and_events range w.workers) (λ batches e.
          let (tiles, count, answers) =
            fetch_parallel-Tiles w.node.get_blocks_and_events range w.workers batches p e in
          omega arith))

  abbrev pub sync_window : BlockRange → Action S (Unit {0})
  sync_window r = sync_range w r.from_ts r.to_ts

  backfill_loop-windows :
      (fuel step stop cur : ℕ) (s : S)
      → 0 < step
      → cur ≤ stop
      → stop + step < u64_mod
      → stop - cur < fuel
      → w.workers ≤ channel_capacity
      → backfill_loop w fuel step stop cur s
        ≡ some (for_each sync_window (windows fuel step stop cur) s)
  unfolding backfill_loop windows
  backfill_loop-windows zero step stop cur s p h fits f few = elim f [ ]
  backfill_loop-windows (suc fuel) step stop cur s p h fits f few =
      elim (Bool-cases (ltb cur stop)) [
        | inl more ↦
            rw
              (
                more,
                backfill_loop,
                windows,
                add64-exact cur step (ground arith),
                sync_or_wait-few cur (min (cur + step) stop) s (ground arith) (omega arith) few,
              )
              (after_window-eq (sync_range w cur (min (cur + step) stop) s) _ _ (λ s'.
                backfill_loop-windows fuel step stop (min (cur + step) stop) s' p (omega arith) fits
                  (ground arith) few))
        | inr done ↦ rw (done, backfill_loop, windows)
      ]

  -- With a step of at least one millisecond, enough fuel, no overflow at the end and no more than the
  -- 100 workers whose batches fill a channel, so that no pipeline waits for ever, the loop of the
  -- backfill comes to an end: it syncs windows that follow one another from the start to the stop with
  -- no gap and no overlap, none empty and none longer than the step, in order, until one of them
  -- fails.
  pub backfill_loop-IsTiled :
      (fuel step stop cur : ℕ) (s : S)
      → 0 < step
      → cur ≤ stop
      → stop + step < u64_mod
      → stop - cur < fuel
      → w.workers ≤ channel_capacity
      → (ws : List BlockRange) × Tiles cur stop ws
        × All (λ r. (r.from_ts < r.to_ts) × (r.to_ts ≤ r.from_ts + step)) ws
        × (backfill_loop w fuel step stop cur s ≡ some (for_each sync_window ws s))
  backfill_loop-IsTiled fuel step stop cur s p h fits f few = (
    windows fuel step stop cur,
    windows-Tiles fuel step stop cur p h f,
    windows_short fuel step stop cur p,
    backfill_loop-windows fuel step stop cur s p h fits f few,
  )
