-- ===== src/Indexer/Worker.antt =====
-- crates/bento-core/src/workers/worker.rs: which ranges and heights are fetched, and what becomes of
-- the batches. The node and the database are arguments; a state `S` stands for the database. The
-- pauses between requests and the progress messages are left out.
pub mod Loops
pub mod Backfill
pub mod Failures
pub mod Sync
pub mod Heights
mod Tests
use linx_app_backend.Base.{
  ℕ, zero, suc, ◌+◌, ◌<◌, min, Option, none, some, String, List, [], ◌∷◌, ◌++◌, map, ltb, ◌==◌, leb,
  length, Bool, true, if◌then◌else◌,
}
use linx_app_backend.Base.Outcome.{
  Outcome, Error, ok, err, panic, context, processor_failed, with_context, collect, ◌>>=◌ as bind,
}
use linx_app_backend.Base.Action.{Action, ◌>>=◌, ◌>>◌, pure, lift}
use linx_app_backend.Base.U64.{sub64}
use linx_app_backend.Indexer.Pipeline.{channel_capacity}
use linx_app_backend.Indexer.Range.{BlockRange, BlockBatch}
use linx_app_backend.Indexer.Fetch.{fetch_parallel}

-- The node, as `Client` reaches it. `current_height` is that field of `get_chain_info`.
pub record Node (B : Type 0) : Type 0 where
  pub get_blocks_and_events : ℕ → ℕ → Outcome (List (List B))
  pub get_block_hash_by_height : ℕ → ℕ → ℕ → Outcome (List String)
  pub get_block_and_events_by_hash : String → Outcome B
  pub current_height : ℕ → ℕ → Outcome ℕ
  pub timestamp : B → ℕ

-- The queries of the worker on the database. Timestamps are in milliseconds.
pub record Database (S : Type 0) : Type 0 where
  pub get_max_block_timestamp : S → Outcome (Option ℕ)
  pub get_timestamps_at_height : ℕ → S → Outcome (List ℕ)

-- A configured processor: its name, and what `Pipeline::run` does with it.
pub record Processor (B S : Type 0) : Type 0 where
  pub name : String
  pub run : List (BlockBatch B) → Action S (Unit {0})

pub record SyncOptions : Type 0 where
  pub step : ℕ
  pub backstep : ℕ
  pub request_interval : ℕ

pub record BackfillOptions : Type 0 where
  pub start_ts : Option ℕ
  pub stop_ts : Option ℕ
  pub request_interval : ℕ
  pub step : ℕ
  pub backstep : ℕ

pub record Worker (B S : Type 0) : Type 0 where
  pub node : Node B
  pub database : Database S
  pub processors : List (Processor B S)
  pub sync_opts : Option SyncOptions
  pub backfill_opts : Option BackfillOptions
  pub workers : ℕ

-- `hashes[0]`
pub first_hash : List String → Outcome String
first_hash [] = panic
first_hash (h ∷ hs) = ok h

-- `iter.min().unwrap()`
pub minimum : List ℕ → Outcome ℕ
minimum [] = panic
minimum (t ∷ []) = ok t
minimum (t ∷ u ∷ ts) = bind (minimum (u ∷ ts)) λ m. ok (min t m)

-- `get_groups`: the pairs of the four groups.
pub groups_to : ℕ → ℕ → ℕ → List (ℕ × ℕ)
groups_to from to zero = []
groups_to from to (suc k) = (from, to) ∷ groups_to from (to + 1) k

pub groups_from : ℕ → ℕ → List (ℕ × ℕ)
groups_from from zero = []
groups_from from (suc k) = groups_to from 0 4 ++ groups_from (from + 1) k

pub get_groups : List (ℕ × ℕ)
get_groups = groups_from 0 4

-- The start of the range that a round of `run_sync` fetches.
pub sync_start : ℕ → ℕ → ℕ → ℕ
sync_start latest_remote_ts latest_local_ts backstep =
    if ltb backstep (sub64 latest_remote_ts (sub64 latest_local_ts backstep))
    then sub64 latest_remote_ts backstep
    else sub64 latest_local_ts backstep

-- What one processor returns, with its name on an error.
unfoldable pub named : String → Outcome (Unit {0}) → Outcome (Unit {0})
named name (ok u) = ok u
named name (err e) = err (processor_failed name e)
named name panic = panic

-- `join_all` runs every processor; then the first error is returned. They run side by side in the
-- program; here one after the other.
unfoldable pub run_all :
    {B S : Type 0} → List (Processor B S) → List (BlockBatch B) → S → List (Outcome (Unit {0})) × S
run_all [] batches s = ([], s)
run_all (p ∷ ps) batches s =
    let (r, s') = p.run batches s in
    let (rs, s'') = run_all ps batches s' in (named p.name r ∷ rs, s'')

unfoldable pub first_error : List (Outcome (Unit {0})) → Outcome (Unit {0})
first_error [] = ok tt
first_error (r ∷ rs) = bind r λ _. first_error rs

module _ {B S : Type 0} (w : Worker B S) where
  -- Whether every call of `Pipeline::run` returns: its sender waits for ever when there are more
  -- batches than the channel holds, since the receiver is spawned after the last of them is sent.
  unfoldable pub returns : List (BlockBatch B) → Bool
  returns batches = elim w.processors [ [] ↦ true | _ ∷ _ ↦ leb (length batches) channel_capacity ]

  -- What the pipelines return and leave, where they return.
  unfoldable pub run_pipeline : List (BlockBatch B) → Action S (Unit {0})
  run_pipeline batches s =
      let (results, s') = run_all w.processors batches s in (first_error results, s')

  -- What `sync_range` does with the fetched batches.
  pub after_fetch : Outcome (List (BlockBatch B)) → Action S (Unit {0})
  after_fetch (ok []) = pure tt
  after_fetch (ok (b ∷ bs)) = run_pipeline (b ∷ bs)
  after_fetch (err e) = pure tt
  after_fetch panic = lift panic

  pub sync_range : ℕ → ℕ → Action S (Unit {0})
  sync_range start_ts stop_ts = after_fetch (
      fetch_parallel w.node.get_blocks_and_events (record { from_ts = start_ts; to_ts = stop_ts })
        w.workers)

  -- Whether syncing a range returns: a failed fetch does not get as far as the pipeline.
  pub fetch_returns : Outcome (List (BlockBatch B)) → Bool
  fetch_returns (ok batches) = returns batches
  fetch_returns (err e) = true
  fetch_returns panic = true

  -- `sync_range` with the pipelines that never return; `none` is such a wait for ever.
  unfoldable pub sync_or_wait : ℕ → ℕ → S → Option (Outcome (Unit {0}) × S)
  sync_or_wait start_ts stop_ts s =
      if fetch_returns (
        fetch_parallel w.node.get_blocks_and_events (record { from_ts = start_ts; to_ts = stop_ts })
          w.workers)
      then some (sync_range start_ts stop_ts s)
      else none

  pub get_latest_block_timestamp_from_node : ℕ → ℕ → Outcome ℕ
  get_latest_block_timestamp_from_node chain_from chain_to =
      bind (w.node.current_height chain_from chain_to) λ height.
        bind (w.node.get_block_hash_by_height height chain_from chain_to) λ hashes.
          bind (first_hash hashes) λ hash.
            bind (w.node.get_block_and_events_by_hash hash) λ block. ok (w.node.timestamp block)

  -- The hashes of every chain, then the first block of each.
  pub fetch_at_height : ℕ → List (ℕ × ℕ) → Outcome (List B)
  fetch_at_height height groups =
      bind
        (with_context "Failed to fetch block hashes" (
          collect (
            map
              (λ g.
                with_context "Failed to fetch block hash"
                  (w.node.get_block_hash_by_height height g.0 g.1))
              groups)))
        λ block_hashes. bind (collect (map first_hash block_hashes)) λ hashes.
          with_context "Failed to fetch blocks and events" (
            collect (
              map
                (λ h.
                  with_context "Failed to fetch block and events"
                    (w.node.get_block_and_events_by_hash h))
                hashes))

  -- What `sync_at_height` does with the blocks: with no chain to sync there is nothing to process.
  pub store_at_height : List (ℕ × ℕ) → List B → Action S (Unit {0})
  store_at_height [] blocks s = (ok tt, s)
  store_at_height (g ∷ gs) blocks s =
      let (r, s') =
        run_pipeline (record { blocks = blocks; range = record { from_ts = 0; to_ts = 0 } } ∷ [])
          s in
      (with_context "Failed to process blocks" r, s')

  pub sync_at_height : ℕ → Option (List (ℕ × ℕ)) → Action S (Unit {0})
  sync_at_height height none =
      lift (fetch_at_height height get_groups) >>= store_at_height get_groups
  sync_at_height height (some chains) =
      lift (fetch_at_height height chains) >>= store_at_height chains
