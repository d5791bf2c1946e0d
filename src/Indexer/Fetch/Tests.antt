-- ===== src/Indexer/Fetch/Tests.antt =====
-- Runs of `fetch_parallel` (crates/bento-core/src/workers/fetch.rs), after the unit tests there, and
-- the theorems at concrete inputs. A block is its timestamp.
use linx_app_backend.Base.{
  ℕ, ◌≡◌, refl, inl, true, List, [], ◌∷◌, map, flatten, arith, leb, ◌==◌, ◌&&◌, if◌then◌else◌,
  length, In, All,
}
use linx_app_backend.Base.Outcome.{
  Outcome, ok, err, panic, external, range_exceeds_maximum, failed_chunk,
}
use linx_app_backend.Base.U64.{add64, sub64, mul64}
use linx_app_backend.Indexer.Range.{BlockRange, BlockBatch, Tiles}
use linx_app_backend.Indexer.Fetch.{
  worker_range, dispatch, split_range, fetch_chunk, gather, fetch_parallel,
}
use linx_app_backend.Indexer.Fetch.Chunks.{IsAnswer, Answers, IsComplete}
use linx_app_backend.Indexer.Fetch.Results.{
  fetch_parallel-Tiles, fetch_parallel_total, fetch_parallel-IsComplete,
  fetch_parallel_first_failure,
}

abbrev span : ℕ → ℕ → BlockRange
span a b = record { from_ts = a; to_ts = b }

-- The chain has one block, at 2500.
abbrev node : ℕ → ℕ → Outcome (List (List ℕ))
node from to = ok (if leb from 2500 && leb 2500 to then (2500 ∷ []) ∷ [] else [])

-- The second worker's request fails.
abbrev failing_node : ℕ → ℕ → Outcome (List (List ℕ))
failing_node from to =
    if from == 2000 then err (external "Simulated worker failure") else node from to

abbrev batch : ℕ → ℕ → List ℕ → BlockBatch ℕ
batch a b bs = record { blocks = bs; range = span a b }

abbrev fetched : List (BlockBatch ℕ)
fetched =
    batch 1000 2000 [] ∷ batch 2000 3000 (2500 ∷ []) ∷ batch 3000 4000 [] ∷ batch 4000 5002 [] ∷ []

fetches : fetch_parallel node (span 1000 5002) 4 ≡ ok fetched
unfolding fetch_parallel split_range dispatch worker_range fetch_chunk gather add64 sub64 mul64
    flatten
fetches = refl

fetch_no_workers : fetch_parallel node (span 1000 5002) 0 ≡ panic
unfolding fetch_parallel
fetch_no_workers = refl

refuses : fetch_chunk node (span 1000 1801001) ≡ err (range_exceeds_maximum 1800000 1800001)
unfolding fetch_chunk sub64
refuses = refl

split :
    split_range (span 1000 5002) 4
    ≡ span 1000 2000 ∷ span 2000 3000 ∷ span 3000 4000 ∷ span 4000 5002 ∷ []
unfolding split_range dispatch worker_range add64 sub64 mul64
split = refl

node-Answers : Answers node
node-Answers from to = (_, refl)

-- The block at 2500 is the only one.
node-IsComplete : IsComplete node (λ b. b) (λ b. b ≡ 2500)
unfolding flatten
node-IsComplete b from to answer held lo hi e =
    let within : (leb from 2500 && leb 2500 to) ≡ true = ground arith in
    let found : answer ≡ (2500 ∷ []) ∷ [] = ground arith in rw found (inl held)

fetch_parallel-Tiles_example :
    Tiles 1000 5002 (map (λ b. b.range) fetched)
    × (length fetched ≡ 4)
    × All (IsAnswer node) fetched
fetch_parallel-Tiles_example =
    fetch_parallel-Tiles node (span 1000 5002) 4 fetched (omega arith) fetches

fetch_parallel_total_example :
    (batches : List (BlockBatch ℕ)) × (fetch_parallel node (span 1000 5002) 4 ≡ ok batches)
fetch_parallel_total_example =
    fetch_parallel_total node (span 1000 5002) 4 (omega arith) (omega arith) (omega arith)
      node-Answers

fetch_parallel-IsComplete_example : In 2500 (flatten (map (λ c. c.blocks) fetched))
fetch_parallel-IsComplete_example =
    fetch_parallel-IsComplete node (λ b. b) (λ b. b ≡ 2500) (span 1000 5002) 4 fetched 2500
      node-IsComplete (omega arith) fetches refl (omega arith) (omega arith)

fetch_parallel_first_failure_example :
    fetch_parallel failing_node (span 1000 5002) 4
    ≡ err (failed_chunk 1 4 (external "Simulated worker failure"))
unfolding fetch_chunk sub64 flatten
fetch_parallel_first_failure_example =
    fetch_parallel_first_failure failing_node (span 1000 5002) (span 2000 3000) 4
      (span 1000 2000 ∷ []) (span 3000 4000 ∷ span 4000 5002 ∷ []) (batch 1000 2000 [] ∷ [])
      (external "Simulated worker failure") split (refl, tt) refl
