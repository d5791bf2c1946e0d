-- ===== src/Indexer/Fetch/Results.antt =====
-- What `fetch_parallel` (crates/bento-core/src/workers/fetch.rs) returns: which batches, that no
-- block of the range is missed, when it succeeds, and which error it reports.
use linx_app_backend.Base.{
  ℕ, ◌+◌, ◌-◌, ◌*◌, ◌/◌, ◌≤◌, ◌<◌, ◌≡◌, ◌≢◌, ap, List, ◌∷◌, ◌++◌, map, flatten, arith, length, In,
  All, length-map, length-append, ◌∙◌,
}
use linx_app_backend.Base.Outcome.{Outcome, Error, ok, err, failed_chunk}
use linx_app_backend.Indexer.Range.{BlockRange, BlockBatch, Tiles, max_timestamp_range}
use linx_app_backend.Indexer.Fetch.{fetch_chunk, split_range, fetch_parallel}
use linx_app_backend.Indexer.Fetch.Split.{
  split_range-IsProper, IsProper, length-split_range, split_range-Tiles, split_range-IsShort,
  Tiles-le,
}
use linx_app_backend.Indexer.Fetch.Chunks.{
  IsAnswer, Fetched, Answers, IsComplete, fetch_parallel-Fetched, fetch_parallel_lem,
  gather_first_failure, Fetched-ranges, Fetched-IsAnswer, Fetched-short, gather_total, Tiles-In,
}

-- A successful fetch of a proper range returns one batch for each worker, in the order of the
-- workers; their ranges follow one another from the start of the range to its end with no gap and
-- no overlap, and each batch holds exactly the blocks that the node answered for its own range.
pub fetch_parallel-Tiles :
    {B : Type 0} (get : ℕ → ℕ → Outcome (List (List B))) (range : BlockRange) (n : ℕ)
    (batches : List (BlockBatch B))
    → IsProper range
    → fetch_parallel get range n ≡ ok batches
    → Tiles range.from_ts range.to_ts (map (λ b. b.range) batches)
      × (length batches ≡ n)
      × All (IsAnswer get) batches
fetch_parallel-Tiles get range n batches proper e =
    let (workers, fetched) = fetch_parallel-Fetched get range n batches e in
    let ranges : map (λ b. b.range) batches ≡ split_range range n =
      Fetched-ranges get (split_range range n) batches fetched in
    (
      rw ranges (split_range-Tiles range n proper workers),
      omega (
        arith,
        length-map (λ (b : BlockBatch _). b.range) batches,
        ap length ranges,
        length-split_range range n,
      ),
      Fetched-IsAnswer get (split_range range n) batches fetched,
    )

-- If the node answers for every interval, and one share of a proper range (with what the division
-- may leave over, one millisecond less than there are workers) is no longer than the limit of 30
-- minutes, then the fetch succeeds.
pub fetch_parallel_total :
    {B : Type 0} (get : ℕ → ℕ → Outcome (List (List B))) (range : BlockRange) (n : ℕ)
    → IsProper range
    → 0 < n
    → (range.to_ts - range.from_ts) / n + n ≤ max_timestamp_range + 1
    → Answers get
    → (batches : List (BlockBatch B)) × (fetch_parallel get range n ≡ ok batches)
fetch_parallel_total get range n proper h room answers = rw (fetch_parallel_lem get range n h) (
    gather_total get 0 n (split_range range n) answers
      (split_range-IsShort range n max_timestamp_range proper h room))

-- A proper range that is longer than the limit for each worker, taken together, is never fetched,
-- whatever the node answers.
fetch_parallel_too_long :
    {B : Type 0} (get : ℕ → ℕ → Outcome (List (List B))) (range : BlockRange) (n : ℕ)
    (batches : List (BlockBatch B))
    → IsProper range
    → n * max_timestamp_range < range.to_ts - range.from_ts
    → fetch_parallel get range n ≢ ok batches
fetch_parallel_too_long get range n batches proper long e =
    let (workers, fetched) = fetch_parallel-Fetched get range n batches e in
    let rs : List BlockRange = split_range range n in
    let d : ℕ = range.to_ts - range.from_ts in
    omega (
      arith,
      length-split_range range n,
      Tiles-le max_timestamp_range range.from_ts range.to_ts rs
          (split_range-Tiles range n proper workers)
          (Fetched-short get rs batches (split_range-IsProper range n proper workers) fetched),
    )

-- If the node returns every block of the chain whose timestamp lies in the interval that it is
-- asked for, both ends included, then a successful fetch of a proper range holds every block of the
-- chain from the start of the range up to but not including its end.
pub fetch_parallel-IsComplete :
    {B : Type 0} (get : ℕ → ℕ → Outcome (List (List B))) (ts : B → ℕ) (on_chain : B → Type 0)
    (range : BlockRange) (n : ℕ) (batches : List (BlockBatch B)) (b : B)
    → IsComplete get ts on_chain
    → IsProper range
    → fetch_parallel get range n ≡ ok batches
    → on_chain b
    → range.from_ts ≤ ts b
    → ts b < range.to_ts
    → In b (flatten (map (λ c. c.blocks) batches))
fetch_parallel-IsComplete get ts on_chain range n batches b complete proper e held lo hi =
    let (tiles, count, answers) = fetch_parallel-Tiles get range n batches proper e in
    Tiles-In get ts on_chain b range.from_ts range.to_ts batches complete held lo hi tiles answers

-- The first part that fails decides: the parts before it are fetched, and its error is returned
-- with its place among the workers.
pub fetch_parallel_first_failure :
    {B : Type 0} (get : ℕ → ℕ → Outcome (List (List B))) (range r : BlockRange) (n : ℕ)
    (before after : List BlockRange) (bs : List (BlockBatch B)) (e : Error)
    → split_range range n ≡ before ++ r ∷ after
    → Fetched get before bs
    → fetch_chunk get r ≡ err e
    → fetch_parallel get range n ≡ err (failed_chunk (length before) n e)
fetch_parallel_first_failure get range r n before after bs e parts fetched fails =
    let some_worker : 0 < n =
      omega
        (arith, length-split_range range n, ap length parts, length-append before (r ∷ after)) in
    rw (fetch_parallel_lem get range n some_worker, parts)
      (gather_first_failure get 0 n before after r bs e fetched fails ∙ ground arith)
