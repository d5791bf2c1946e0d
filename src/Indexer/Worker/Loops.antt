-- ===== src/Indexer/Worker/Loops.antt =====
-- The two ways in which a worker runs (crates/bento-core/src/workers/worker.rs): the backfill of an
-- interval in windows of `step` milliseconds, and the rounds of the endless sync.
use linx_app_backend.Base.{ℕ, zero, suc, min, true, false, Option, none, some, ltb}
use linx_app_backend.Base.Outcome.{Outcome, ok, err, panic, ◌>>=◌ as bind}
use linx_app_backend.Base.Action.{Action, ◌>>=◌, ◌>>◌, pure}
use linx_app_backend.Base.U64.{add64}
use linx_app_backend.Indexer.Worker.{
  Worker, SyncOptions, BackfillOptions, minimum, sync_start, sync_or_wait, sync_at_height,
  get_latest_block_timestamp_from_node,
}

-- The `?` on the result of a window: the loop goes on only after a success, and `none` is a window
-- whose pipeline never returns.
unfoldable pub after_window :
    {S : Type 0}
    → Option (Outcome (Unit {0}) × S)
    → (S → Option (Outcome (Unit {0}) × S))
    → Option (Outcome (Unit {0}) × S)
after_window none continue = none
after_window (some (ok u, s)) continue = continue s
after_window (some (err e, s)) continue = some (err e, s)
after_window (some (panic, s)) continue = some (panic, s)

module _ {B S : Type 0} (w : Worker B S) where
  -- `while current_ts < stop_ts`, with fuel; `none` means that the fuel ran out,
  -- or that a pipeline never returned.
  unfoldable pub backfill_loop : ℕ → ℕ → ℕ → ℕ → S → Option (Outcome (Unit {0}) × S)
  unfolding after_window
  backfill_loop zero step stop_ts current_ts s = none
  backfill_loop (suc fuel) step stop_ts current_ts s =
      let chunk_end = min (add64 current_ts step) stop_ts in
      elim (ltb current_ts stop_ts) [
        | true ↦
            after_window (sync_or_wait w current_ts chunk_end s)
              (backfill_loop fuel step stop_ts chunk_end)
        | false ↦ some (ok tt, s)
      ]

  unfoldable pub backfill_stop : BackfillOptions → Outcome ℕ
  backfill_stop opts = elim opts.stop_ts [
    | some ts ↦ ok ts
    | none ↦ get_latest_block_timestamp_from_node w 0 0
  ]

  -- Without a start, the blocks at heights 0 and 1 are stored, and the backfill begins at the
  -- earliest block of height 1.
  unfoldable pub backfill_start : BackfillOptions → Action S ℕ
  backfill_start opts = elim opts.start_ts [
    | some ts ↦ pure ts
    | none ↦ sync_at_height w 0 none >> sync_at_height w 1 none >>= λ _ s.
        (bind (w.database.get_timestamps_at_height 1 s) minimum, s)
  ]

  unfoldable pub backfill_from :
      ℕ → BackfillOptions → ℕ → Outcome ℕ × S → Option (Outcome (Unit {0}) × S)
  backfill_from fuel opts stop_ts (ok start_ts, s) = backfill_loop fuel opts.step stop_ts start_ts s
  backfill_from fuel opts stop_ts (err e, s) = some (err e, s)
  backfill_from fuel opts stop_ts (panic, s) = some (panic, s)

  unfoldable pub run_backfill : ℕ → BackfillOptions → S → Option (Outcome (Unit {0}) × S)
  run_backfill fuel opts s = elim (backfill_stop opts) [
    | ok stop_ts ↦ backfill_from fuel opts stop_ts (backfill_start opts s)
    | err e ↦ some (err e, s)
    | panic ↦ some (panic, s)
  ]

  -- The end of a round, once the two timestamps are known.
  abbrev pub sync_from :
      SyncOptions → ℕ → ℕ → Outcome (Option ℕ) → S → Option (Outcome (Unit {0}) × S)
  sync_from opts now latest_remote_ts (ok (some ts)) =
      sync_or_wait w (sync_start latest_remote_ts ts opts.backstep) latest_remote_ts
  sync_from opts now latest_remote_ts (ok none) =
      sync_or_wait w (sync_start latest_remote_ts now opts.backstep) latest_remote_ts
  sync_from opts now latest_remote_ts (err e) = λ s. some (err e, s)
  sync_from opts now latest_remote_ts panic = λ s. some (panic, s)

  -- One round of `run_sync` at the time `now`, up to the pause; `none` is a pipeline that never
  -- returns.
  unfoldable pub sync_round : SyncOptions → ℕ → S → Option (Outcome (Unit {0}) × S)
  sync_round opts now s = elim (get_latest_block_timestamp_from_node w 0 0) [
    | ok latest_remote_ts ↦
        sync_from opts now latest_remote_ts (w.database.get_max_block_timestamp s) s
    | err e ↦ some (err e, s)
    | panic ↦ some (panic, s)
  ]
