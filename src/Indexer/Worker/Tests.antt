-- ===== src/Indexer/Worker/Tests.antt =====
-- Runs of the worker (crates/bento-core/src/workers/worker.rs), and the theorems at concrete inputs. A
-- block is its timestamp; the database is the list of the stored blocks.
use linx_app_backend.Base.{
  ℕ, zero, suc, ◌+◌, ◌-◌, ◌≤◌, ◌<◌, ◌≡◌, ◌↔◌, refl, none, some, List, [], ◌∷◌, ◌++◌, map, flatten,
  arith, length, All,
}
use linx_app_backend.Base.Outcome.{ok, err, external, context, processor_failed}
use linx_app_backend.Base.Action.{for_each}
use linx_app_backend.Base.U64.{add64, sub64, mul64}
use linx_app_backend.Indexer.Range.{BlockRange, BlockBatch, Tiles}
use linx_app_backend.Indexer.Fetch.{
  worker_range, dispatch, split_range, fetch_chunk, gather, fetch_parallel,
}
use linx_app_backend.Indexer.Worker.{
  Node, Database, Processor, Worker, named, run_all, first_error, run_pipeline, after_fetch,
  sync_range, sync_start, sync_at_height, get_groups, groups_from, groups_to, sync_or_wait, returns,
  fetch_returns, BackfillOptions, SyncOptions, get_latest_block_timestamp_from_node, first_hash,
}
use linx_app_backend.Indexer.Worker.Loops.{
  after_window, backfill_loop, run_backfill, backfill_from, backfill_start, backfill_stop,
  sync_round,
}
use linx_app_backend.Indexer.Worker.Backfill.{sync_window, backfill_loop-IsTiled}
use linx_app_backend.Indexer.Worker.Failures.{
  backfill_error_from_pipeline, backfill_unreachable, backfill_step_zero,
}
use linx_app_backend.Indexer.Worker.Sync.{
  IsRecent, sync_round_window, sync_start_behind, sync_range-Tiles,
}
use linx_app_backend.Indexer.Worker.Heights.{sync_at_height_blocks}

-- One block at the start of each interval; at height 1 the chain from group 0 to 1 has no block.
abbrev node : Node ℕ
node = record {
  get_blocks_and_events = λ from to. ok ((from ∷ []) ∷ []);
  get_block_hash_by_height = λ height from to. elim to [ zero ↦ ok ("a" ∷ []) | suc _ ↦ ok [] ];
  get_block_and_events_by_hash = λ hash. ok 42;
  current_height = λ from to. ok 9;
  timestamp = λ b. b;
}

abbrev down_node : Node ℕ
down_node = record node { get_blocks_and_events = λ from to. err (external "refused") }

abbrev database : Database (List ℕ)
database = record {
  get_max_block_timestamp = λ s. ok none;
  get_timestamps_at_height = λ height s. ok s;
}

abbrev storing : Processor ℕ (List ℕ)
storing = record {
  name = "block";
  run = λ batches s. (ok tt, s ++ flatten (map (λ b. b.blocks) batches));
}

abbrev failing : Processor ℕ (List ℕ)
failing = record { name = "dex"; run = λ batches s. (err (external "db"), s) }

abbrev worker_of : Node ℕ → List (Processor ℕ (List ℕ)) → Worker ℕ (List ℕ)
worker_of n ps = record {
  node = n;
  database = database;
  processors = ps;
  sync_opts = none;
  backfill_opts = none;
  workers = 2;
}

abbrev worker : Worker ℕ (List ℕ)
worker = worker_of node (storing ∷ [])

-- The first processor stores its blocks although the second one fails.
abbrev half_failing : Worker ℕ (List ℕ)
half_failing = worker_of node (storing ∷ failing ∷ [])

backfill_run :
    backfill_loop worker 9 1000 2500 0 [] ≡ some (ok tt, 0 ∷ 500 ∷ 1000 ∷ 1500 ∷ 2000 ∷ 2250 ∷ [])
unfolding backfill_loop after_window sync_or_wait fetch_returns returns sync_range after_fetch
    run_pipeline run_all first_error named fetch_parallel gather fetch_chunk split_range dispatch
    worker_range add64 sub64 mul64 flatten
backfill_run = refl

abbrev whole : BackfillOptions
whole = record {
  start_ts = some 0;
  stop_ts = some 2500;
  request_interval = 0;
  step = 1000;
  backstep = 0;
}

failing_run :
    run_backfill half_failing 9 whole []
    ≡ some (err (processor_failed "dex" (external "db")), 0 ∷ 500 ∷ [])
unfolding run_backfill backfill_stop backfill_start backfill_from backfill_loop after_window
    sync_or_wait fetch_returns returns sync_range after_fetch run_pipeline run_all first_error named
    fetch_parallel gather fetch_chunk split_range dispatch worker_range add64 sub64 mul64 flatten
failing_run = refl

sixteen_groups : length get_groups ≡ 16
unfolding get_groups groups_from groups_to
sixteen_groups = refl

backfill_loop-IsTiled_example :
    (ws : List BlockRange) × Tiles 0 2500 ws
    × All (λ r. (r.from_ts < r.to_ts) × (r.to_ts ≤ r.from_ts + 1000)) ws
    × (backfill_loop worker 2501 1000 2500 0 [] ≡ some (for_each (sync_window worker) ws []))
backfill_loop-IsTiled_example =
    backfill_loop-IsTiled worker 2501 1000 2500 0 [] (omega arith) (omega arith) (omega arith)
      (omega arith) (omega arith)

backfill_error_from_pipeline_example :
    (batches : List (BlockBatch ℕ)) × (before : List ℕ) × (run_pipeline half_failing batches before
      ≡ (err (processor_failed "dex" (external "db")), 0 ∷ 500 ∷ []))
backfill_error_from_pipeline_example =
    backfill_error_from_pipeline half_failing 9 0 2500 whole [] (0 ∷ 500 ∷ [])
      (processor_failed "dex" (external "db")) refl refl failing_run

backfill_unreachable_example :
    run_backfill (worker_of down_node (storing ∷ [])) 2501 whole (7 ∷ []) ≡ some (ok tt, 7 ∷ [])
backfill_unreachable_example =
    backfill_unreachable (worker_of down_node (storing ∷ [])) 2501 0 2500 whole (7 ∷ []) refl refl
      (λ from to. (external "refused", refl)) (omega arith) (omega arith) (omega arith)
      (omega arith)

backfill_step_zero_example : backfill_loop worker 50 0 2500 0 [] ≡ none
unfolding sync_range after_fetch run_pipeline run_all first_error named fetch_parallel gather
    fetch_chunk split_range dispatch worker_range add64 sub64 mul64 flatten
backfill_step_zero_example =
    backfill_step_zero worker 50 2500 0 [] (omega arith) (omega arith)
      (λ t. (t ++ 0 ∷ 0 ∷ [], refl))

recent : IsRecent 900000 800000 300000
recent = omega arith

abbrev stored_node : Node ℕ
stored_node = record node { timestamp = λ b. 900000 }

abbrev recent_worker : Worker ℕ (List ℕ)
recent_worker = record (worker_of stored_node (storing ∷ [])) {
  database = record database { get_max_block_timestamp = λ s. ok (some 800000) };
}

abbrev round_opts : SyncOptions
round_opts = record { step = 0; backstep = 300000; request_interval = 0 }

sync_round_window_example :
    (start : ℕ) × (sync_round recent_worker round_opts 0 []
      ≡ sync_or_wait recent_worker start 900000 [])
    × (start ≤ 900000)
    × (900000 ≤ start + 300000)
    × ((start ≤ 800000) ↔ (900000 ≤ 800000 + 300000))
unfolding get_latest_block_timestamp_from_node first_hash
sync_round_window_example =
    sync_round_window recent_worker round_opts 0 900000 800000 [] refl refl recent

sync_start_behind_example :
    (sync_start 900000 800000 300000 ≡ 900000 - 300000)
    × (800000 - 300000 < sync_start 900000 800000 300000)
sync_start_behind_example = sync_start_behind 900000 800000 300000 recent (omega arith)

sync_range-Tiles_example :
    (batches : List (BlockBatch ℕ)) × Tiles 600000 900000 (map (λ b. b.range) batches)
    × (sync_range worker 600000 900000 [] ≡ run_pipeline worker batches [])
sync_range-Tiles_example =
    sync_range-Tiles worker 600000 900000 [] (omega arith) (omega arith) (omega arith) (omega arith)
      (λ from to. ((from ∷ []) ∷ [], refl))

sync_at_height_blocks_example :
    sync_at_height half_failing 1 (some ((0, 0) ∷ [])) []
    ≡ (err (context "Failed to process blocks" (processor_failed "dex" (external "db"))), 42 ∷ [])
unfolding run_pipeline run_all first_error named flatten
sync_at_height_blocks_example =
    sync_at_height_blocks half_failing 1 (0, 0) [] (42 ∷ []) [] (("a", [], refl, refl), tt)
