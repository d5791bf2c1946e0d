-- ===== src/Indexer/Fetch.antt =====
-- crates/bento-core/src/workers/fetch.rs: a range of timestamps is split among the workers, each
-- part is fetched from the node, and the batches come back in order. The node's answers are an
-- argument: `get_blocks_and_events from to` is what the client returns for that interval.
pub mod Split
pub mod Chunks
pub mod Results
mod Tests
use linx_app_backend.Base.{
  ℕ, zero, suc, ◌+◌, ◌-◌, ◌/◌, List, [], ◌∷◌, map, flatten, ltb, ◌==◌, if◌then◌else◌,
}
use linx_app_backend.Base.Outcome.{
  Outcome, ok, err, panic, range_exceeds_maximum, failed_chunk, ◌>>=◌,
}
use linx_app_backend.Base.U64.{add64, sub64, mul64}
use linx_app_backend.Indexer.Range.{BlockRange, BlockBatch, max_timestamp_range}

-- The range of worker `i` of `num_workers`.
unfoldable pub worker_range : BlockRange → ℕ → ℕ → ℕ → BlockRange
worker_range range num_workers chunk_size i =
    let from = add64 range.from_ts (mul64 i chunk_size) in
    record {
      from_ts = from;
      to_ts = if i == num_workers - 1 then range.to_ts else add64 from chunk_size;
    }

-- The loop `for i in 0..num_workers`, with `k` rounds left.
unfoldable pub dispatch : BlockRange → ℕ → ℕ → ℕ → ℕ → List BlockRange
dispatch range num_workers chunk_size i zero = []
dispatch range num_workers chunk_size i (suc k) =
    worker_range range num_workers chunk_size i ∷ dispatch range num_workers chunk_size (i + 1) k

unfoldable pub split_range : BlockRange → ℕ → List BlockRange
split_range range num_workers =
    dispatch range num_workers (sub64 range.to_ts range.from_ts / num_workers) 0 num_workers

module _ {B : Type 0} (get_blocks_and_events : ℕ → ℕ → Outcome (List (List B))) where
  unfoldable pub fetch_chunk : BlockRange → Outcome (BlockBatch B)
  fetch_chunk range =
      if ltb max_timestamp_range (sub64 range.to_ts range.from_ts)
      then err (range_exceeds_maximum max_timestamp_range (sub64 range.to_ts range.from_ts))
      else get_blocks_and_events range.from_ts range.to_ts >>= λ blocks_and_events.
          ok (record { blocks = flatten blocks_and_events; range = range })

-- The loop `while let Some(result) = futures.next().await`.
unfoldable pub gather : {A : Type 0} → ℕ → ℕ → List (Outcome A) → Outcome (List A)
gather completed_workers num_workers [] = ok []
gather completed_workers num_workers (ok batch ∷ futures) =
    gather (completed_workers + 1) num_workers futures >>= λ results. ok (batch ∷ results)
gather completed_workers num_workers (err e ∷ futures) =
    err (failed_chunk completed_workers num_workers e)
gather completed_workers num_workers (panic ∷ futures) = panic

module _ {B : Type 0} (get_blocks_and_events : ℕ → ℕ → Outcome (List (List B))) where
  -- With no workers the division of the range panics.
  unfoldable pub fetch_parallel : BlockRange → ℕ → Outcome (List (BlockBatch B))
  fetch_parallel range num_workers =
      if num_workers == 0
      then panic
      else gather 0 num_workers
          (map (fetch_chunk get_blocks_and_events) (split_range range num_workers))
