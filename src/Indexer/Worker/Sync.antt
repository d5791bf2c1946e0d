-- ===== src/Indexer/Worker/Sync.antt =====
-- The rounds of the endless sync (`run_sync`, crates/bento-core/src/workers/worker.rs): which range a
-- round fetches, when blocks are passed over, and that the range reaches the pipeline.
use linx_app_backend.Base.{
  ℕ, ◌+◌, ◌-◌, ◌/◌, ◌≤◌, ◌<◌, ◌≡◌, ◌↔◌, refl, some, List, [], ◌∷◌, map, arith, ltb, ◌||◌,
  if◌then◌else◌, length,
}
use linx_app_backend.Base.Outcome.{ok}
use linx_app_backend.Base.U64.{u64_mod, sub64-exact, sub64-wrapped}
use linx_app_backend.Indexer.Range.{BlockRange, BlockBatch, Tiles, max_timestamp_range}
use linx_app_backend.Indexer.Fetch.Split.{IsProper}
use linx_app_backend.Indexer.Fetch.Chunks.{Answers}
use linx_app_backend.Indexer.Fetch.Results.{fetch_parallel_total, fetch_parallel-Tiles}
use linx_app_backend.Indexer.Worker.{
  Worker, SyncOptions, run_pipeline, after_fetch, sync_range, sync_or_wait, sync_start,
  get_latest_block_timestamp_from_node,
}
use linx_app_backend.Indexer.Worker.Loops.{sync_round}

-- The two timestamps fit a `u64` and lie at least `backstep` after the epoch.
pub record IsRecent (remote local backstep : ℕ) : Type 0 where
  pub remote_fits : remote < u64_mod
  pub local_fits : local < u64_mod
  pub remote_recent : backstep ≤ remote
  pub local_recent : backstep ≤ local

-- The branches of the start, written without the wrap-around of `u64`.
sync_start_lem :
    (remote local backstep : ℕ)
    → IsRecent remote local backstep
    → sync_start remote local backstep ≡ (
        if ltb local remote || ltb (remote + backstep) local
        then remote - backstep
        else local - backstep)
unfolding sync_start
sync_start_lem remote local backstep h = ground (
  arith,
  sub64-exact local backstep,
  sub64-exact remote backstep,
  sub64-exact remote (local - backstep),
  sub64-wrapped remote (local - backstep),
)

-- The range that a round fetches is proper, ends at the newest block of the node, and is never
-- longer than `backstep`.
sync_start_bounds :
    (remote local backstep : ℕ)
    → IsRecent remote local backstep
    → (sync_start remote local backstep ≤ remote)
      × (remote ≤ sync_start remote local backstep + backstep)
sync_start_bounds remote local backstep h = ground (arith, sync_start_lem remote local backstep h)

-- A round starts at or before the newest stored block, so that it leaves no gap, exactly when the
-- node is ahead of the database by no more than `backstep`.
sync_start_no_gap :
    (remote local backstep : ℕ)
    → IsRecent remote local backstep
    → (sync_start remote local backstep ≤ local) ↔ (remote ≤ local + backstep)
sync_start_no_gap remote local backstep h = (
  (λ early. ground (arith, sync_start_lem remote local backstep h)),
  (λ near. ground (arith, sync_start_lem remote local backstep h)),
)

-- Whenever the node is ahead of the database, be it by one millisecond, the round starts `backstep`
-- before the newest block of the node, and not `backstep` before the newest stored block.
pub sync_start_behind :
    (remote local backstep : ℕ)
    → IsRecent remote local backstep
    → local < remote
    → (sync_start remote local backstep ≡ remote - backstep)
      × (local - backstep < sync_start remote local backstep)
sync_start_behind remote local backstep h behind =
    ground (arith, sync_start_lem remote local backstep h)

module _ {B S : Type 0} (w : Worker B S) where
  -- When the node gives the timestamp of its newest block and the database that of its newest stored
  -- block, both of them fitting a u64 and at least `backstep` after the epoch, a round syncs a range
  -- that ends at the newest block of the node, is proper and no longer than `backstep`. The range
  -- starts at or before the newest stored block, so that it leaves no gap, exactly when the node is
  -- ahead of the database by no more than `backstep`.
  pub sync_round_window :
      (opts : SyncOptions) (now remote local : ℕ) (s : S)
      → get_latest_block_timestamp_from_node w 0 0 ≡ ok remote
      → w.database.get_max_block_timestamp s ≡ ok (some local)
      → IsRecent remote local opts.backstep
      → (start : ℕ) × (sync_round w opts now s ≡ sync_or_wait w start remote s)
        × (start ≤ remote)
        × (remote ≤ start + opts.backstep)
        × ((start ≤ local) ↔ (remote ≤ local + opts.backstep))
  unfolding sync_round
  sync_round_window opts now remote local s newest stored h =
      let (proper, short) = sync_start_bounds remote local opts.backstep h in
      (
        sync_start remote local opts.backstep,
        rw (newest, sync_round) (rw stored refl),
        proper,
        short,
        sync_start_no_gap remote local opts.backstep h,
      )

  after_fetch_batches :
      (batches : List (BlockBatch B)) (s : S)
      → 0 < length batches
      → after_fetch w (ok batches) s ≡ run_pipeline w batches s
  unfolding after_fetch
  after_fetch_batches [] s h = elim h [ ]
  after_fetch_batches (b ∷ bs) s h = refl

  -- If the node answers every request and one worker's share of a proper range is within the limit,
  -- then syncing the range hands its batches, which follow one another from its start to its end, to
  -- the pipeline, and ends as the pipeline ends.
  pub sync_range-Tiles :
      (start stop : ℕ) (s : S)
      → start ≤ stop
      → stop < u64_mod
      → 0 < w.workers
      → (stop - start) / w.workers + w.workers ≤ max_timestamp_range + 1
      → Answers w.node.get_blocks_and_events
      → (batches : List (BlockBatch B)) × Tiles start stop (map (λ b. b.range) batches)
        × (sync_range w start stop s ≡ run_pipeline w batches s)
  unfolding sync_range
  sync_range-Tiles start stop s proper fits some_worker room answers =
      let range : BlockRange = record { from_ts = start; to_ts = stop } in
      let p : IsProper range = record { ordered = proper; fits = fits } in
      let get = w.node.get_blocks_and_events in
      let (batches, e) = fetch_parallel_total get range w.workers p some_worker room answers in
      let (tiles, count, _) = fetch_parallel-Tiles get range w.workers batches p e in
      (batches, tiles, rw e (after_fetch_batches batches s (omega arith)))
