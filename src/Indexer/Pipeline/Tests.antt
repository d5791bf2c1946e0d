-- ===== src/Indexer/Pipeline/Tests.antt =====
-- Runs of the pipeline (crates/bento-core/src/workers/pipeline.rs) on small batches, and the theorems
-- at concrete inputs. A block is a number; the database is the list of the stored blocks.
use linx_app_backend.Base.{
  ℕ, zero, suc, ◌+◌, ◌*◌, ◌≤◌, ◌≡◌, refl, ◌⊎◌, true, false, none, some, List, [], ◌∷◌, ◌++◌, arith,
}
use linx_app_backend.Base.Outcome.{Outcome, ok}
use linx_app_backend.Indexer.Range.{BlockBatch}
use linx_app_backend.Indexer.Pipeline.{
  ProcessorTrait, Pipe, start, Step, send, spawn, handle, forward, process_done, store,
  storage_done, Run, here, next, result, joined, process_handle, storage_handle,
}
use linx_app_backend.Indexer.Pipeline.Order.{store_batches, pipeline_in_order}
use linx_app_backend.Indexer.Pipeline.Capacity.{overfull_never_returns}
use linx_app_backend.Indexer.Pipeline.Progress.{pipeline_returns}

abbrev blocks_processor : ProcessorTrait ℕ (List ℕ) (List ℕ)
blocks_processor = record { process_blocks = λ bs s. ok bs; store_output = λ o s. (ok tt, s ++ o) }

abbrev batch_of : ℕ → BlockBatch ℕ
batch_of n = record { blocks = n ∷ []; range = record { from_ts = 0; to_ts = 10 } }

abbrev one_batch : List (BlockBatch ℕ)
one_batch = batch_of 7 ∷ []

abbrev begun : Pipe ℕ (List ℕ) (List ℕ)
begun = record {
  to_send = one_batch;
  process_rx = [];
  spawned = false;
  held = none;
  process_result = none;
  storage_rx = [];
  storage_result = none;
  db = 5 ∷ [];
}

abbrev sent : Pipe ℕ (List ℕ) (List ℕ)
sent = record begun { to_send = []; process_rx = one_batch }

abbrev up : Pipe ℕ (List ℕ) (List ℕ)
up = record sent { spawned = true }

abbrev handled : Pipe ℕ (List ℕ) (List ℕ)
handled = record up { process_rx = []; held = some (7 ∷ []) }

abbrev forwarded : Pipe ℕ (List ℕ) (List ℕ)
forwarded = record handled { held = none; storage_rx = (7 ∷ []) ∷ [] }

abbrev stored : Pipe ℕ (List ℕ) (List ℕ)
stored = record forwarded { storage_rx = []; db = 5 ∷ 7 ∷ [] }

abbrev processing_ended : Pipe ℕ (List ℕ) (List ℕ)
processing_ended = record stored { process_result = some (ok tt) }

abbrev ended : Pipe ℕ (List ℕ) (List ℕ)
ended = record processing_ended { storage_result = some (ok tt) }

seven_steps : Run blocks_processor (start one_batch (5 ∷ [])) 7 ended
unfolding start process_handle storage_handle
seven_steps =
    next
      (next
        (next
          (next
            (next
              (next (next here (send begun (batch_of 7) [] refl (omega arith)))
                (spawn sent refl refl))
              (handle up (batch_of 7) [] (7 ∷ []) refl refl refl refl refl))
            (forward handled (7 ∷ []) refl refl refl (omega arith)))
          (store forwarded (7 ∷ []) [] (5 ∷ 7 ∷ []) refl refl refl))
        (process_done stored refl refl refl refl))
      (storage_done processing_ended (ok tt) refl refl refl)

pipeline_in_order_example : store_batches blocks_processor one_batch (5 ∷ []) ≡ (ok tt, 5 ∷ 7 ∷ [])
unfolding result joined
pipeline_in_order_example =
    pipeline_in_order blocks_processor one_batch (5 ∷ []) (λ bs s t. refl) ended seven_steps refl

pipeline_returns_example :
    (7 ≤ 4 * 1 + 3)
    × (((r : Outcome (Unit {0})) × (result (some (ok tt)) (some (ok tt)) ≡ some r))
        ⊎ ((q : Pipe ℕ (List ℕ) (List ℕ)) × Step blocks_processor ended q))
pipeline_returns_example =
    pipeline_returns blocks_processor one_batch (5 ∷ []) ended (omega arith) seven_steps

abbrev many : ℕ → List (BlockBatch ℕ)
many zero = []
many (suc n) = batch_of n ∷ many n

abbrev first_sent : Pipe ℕ (List ℕ) (List ℕ)
first_sent = record begun { to_send = many 100; process_rx = batch_of 100 ∷ [] }

send_first : Run blocks_processor (start (many 101) (5 ∷ [])) 1 first_sent
unfolding start
send_first =
    next here
      (send (record begun { to_send = many 101 }) (batch_of 100) (many 100) refl (omega arith))

overfull_never_returns_example :
    (first_sent.spawned ≡ false)
    × (first_sent.process_rx ++ first_sent.to_send ≡ many 101)
    × (first_sent.db ≡ 5 ∷ [])
    × (result first_sent.process_result first_sent.storage_result ≡ none)
overfull_never_returns_example =
    overfull_never_returns blocks_processor (many 101) (5 ∷ []) (omega arith) send_first
