-- ===== src/Gaps/Tests.antt =====
-- The heights that examples/linx-indexer/src/services/gap_detection_service.rs finds missing in a
-- small table, and their backfill.
use linx_app_backend.Base.{
  ℕ, zero, suc, ◌≤◌, ◌<◌, some, none, List, [], ◌∷◌, ◌≡◌, refl, ◌↔◌, In, inl,
}
use linx_app_backend.Base.HashMap.{get, alter}
use linx_app_backend.Base.Equality.{nat_eq}
use linx_app_backend.Base.Outcome.{ok, panic}
use linx_app_backend.Indexer.Worker.{
  Node, Database, Processor, Worker, run_pipeline, run_all, named, first_error,
}
use linx_app_backend.Indexer.Worker.Heights.{sync_at_height_blocks}
use linx_app_backend.Gaps.Report.{
  BlockGap, chains_of, gaps_by_chain, sort_gaps, detect_block_gaps, generate_report,
}
use linx_app_backend.Gaps.Backfill.{
  height_to_chains, sort_heights, planned, backfill_heights, backfill_gaps,
}
use linx_app_backend.Gaps.Lacking.{backfill_gaps_lacking}
use linx_app_backend.Gaps.{
  BlockRow, generate_series, insert_height, order_by_height, expanded_gaps, lag, missing_heights,
}
use linx_app_backend.Gaps.Missing.{IsStored, missing_heights_iff}

abbrev row : ℕ → ℕ → BlockRow
row to height = record { chain_from = 0; chain_to = to; height = height }

abbrev table : List BlockRow
table = row 0 7 ∷ row 0 2 ∷ row 1 5 ∷ row 0 4 ∷ row 1 9 ∷ row 0 4 ∷ row 0 1 ∷ []

missing_test : missing_heights 2 (0, 0) table ≡ 3 ∷ 5 ∷ 6 ∷ []
unfolding missing_heights lag expanded_gaps generate_series order_by_height insert_height
missing_test = refl

missing_other_chain : missing_heights 2 (0, 1) table ≡ 6 ∷ 7 ∷ 8 ∷ []
unfolding missing_heights lag expanded_gaps generate_series order_by_height insert_height
missing_other_chain = refl

missing_heights_iff_example : In 5 (missing_heights 2 (0, 0) table) ↔ (
    (¬ IsStored (0, 0) table 5)
    × ((a : ℕ) × IsStored (0, 0) table a × (2 ≤ a) × (a < 5))
    × ((b : ℕ) × IsStored (0, 0) table b × (5 < b)))
missing_heights_iff_example = missing_heights_iff 2 5 (0, 0) table

-- The chain from group 0 to 1 has no blocks on the node.
abbrev node : Node ℕ
node = record {
  get_blocks_and_events = λ from to. ok [];
  get_block_hash_by_height = λ height from to. elim to [ zero ↦ ok ("a" ∷ []) | suc _ ↦ ok [] ];
  get_block_and_events_by_hash = λ hash. ok 42;
  current_height = λ from to. ok 9;
  timestamp = λ b. b;
}

abbrev database : Database (List ℕ)
database = record {
  get_max_block_timestamp = λ s. ok none;
  get_timestamps_at_height = λ height s. ok s;
}

abbrev storing : Processor ℕ (List ℕ)
storing = record { name = "block"; run = λ batches s. (ok tt, 42 ∷ s) }

abbrev worker : Worker ℕ (List ℕ)
worker = record {
  node = node;
  database = database;
  processors = storing ∷ [];
  sync_opts = none;
  backfill_opts = none;
  workers = 2;
}

abbrev two_chains : List BlockRow
two_chains = row 1 4 ∷ row 1 2 ∷ row 0 6 ∷ row 0 4 ∷ row 0 1 ∷ row 0 3 ∷ []

abbrev gap : ℕ → List ℕ → ℕ → BlockGap
gap to heights total = record {
  chain_from = 0;
  chain_to = to;
  missing_heights = heights;
  total_missing = total;
}

abbrev found : List BlockGap
found = gap 0 (2 ∷ 5 ∷ []) 2 ∷ gap 1 (3 ∷ []) 1 ∷ []

detected : detect_block_gaps (λ m. m) none (ok two_chains) ≡ ok found
unfolding detect_block_gaps chains_of gaps_by_chain sort_gaps missing_heights lag expanded_gaps
    generate_series order_by_height insert_height alter
detected = refl

three_missing :
    generate_report (λ m. m) none (ok two_chains)
    ≡ ok (record { block_gaps = found; total_missing_blocks = 3 })
unfolding generate_report detect_block_gaps chains_of gaps_by_chain sort_gaps missing_heights lag
    expanded_gaps generate_series order_by_height insert_height alter
three_missing = refl

three_planned : planned (λ m. m) found ≡ 2 ∷ 3 ∷ 5 ∷ []
unfolding height_to_chains sort_heights alter
three_planned = refl

first_synced :
    backfill_heights worker (height_to_chains found []) (2 ∷ []) (0, 0) [] ≡ (ok (1, 0), 42 ∷ [])
unfolding backfill_heights height_to_chains alter get run_pipeline run_all first_error named
first_synced =
    rw (sync_at_height_blocks worker 2 (0, 0) [] (42 ∷ []) [] (("a", [], refl, refl), tt)) refl

one_chain : get 3 (height_to_chains found []) ≡ some ((0, 1) ∷ [])
unfolding height_to_chains alter get
one_chain = refl

backfill_gaps_lacking_example :
    backfill_gaps worker (λ m. m) (λ m. m) (λ s. ok two_chains) none [] ≡ (panic, 42 ∷ [])
backfill_gaps_lacking_example =
    backfill_gaps_lacking worker (λ m. m) (λ m. m) (λ s. ok two_chains) none found (2 ∷ []) (5 ∷ [])
      3 ((0, 1) ∷ []) (1, 0) [] (42 ∷ []) detected three_planned first_synced one_chain
      (([], refl), tt) (inl refl)
