-- ===== src/Indexer/Pipeline.antt =====
-- crates/bento-core/src/workers/pipeline.rs and stage.rs: the batches of one processor pass through a
-- bounded channel to a task that processes them, and through a second one to a task that stores the
-- outputs. The scheduler's choices are the steps of a relation. The processor is an argument.
pub mod Order
pub mod Capacity
pub mod Progress
mod Tests
use linx_app_backend.Base.{
  ℕ, suc, ◌<◌, ◌≡◌, Bool, true, false, Option, none, some, List, [], ◌∷◌, ◌++◌, length,
}
use linx_app_backend.Base.Outcome.{Outcome, Error, ok, err, panic, message, ◌>>=◌}
use linx_app_backend.Base.Action.{Action, bind_outcome}
use linx_app_backend.Indexer.Range.{BlockRange, BlockBatch}

-- `ProcessorTrait`: how a processor turns blocks into an output, for which it may read the database,
-- and how it stores the output.
pub record ProcessorTrait (B O S : Type 0) : Type 0 where
  pub process_blocks : List B → S → Outcome O
  pub store_output : O → Action S (Unit {0})

pub data StageMessage (B O : Type 0) : Type 0 where
  range : BlockRange → StageMessage B O
  batch : BlockBatch B → StageMessage B O
  processed : O → StageMessage B O
  complete : StageMessage B O

abbrev pub channel_capacity : ℕ
channel_capacity = 100

module _ {B O S : Type 0} (processor : ProcessorTrait B O S) where
  -- `ProcessorStage::handle`
  unfoldable pub process_handle : StageMessage B O → S → Outcome (StageMessage B O)
  process_handle (range r) s = ok (range r)
  process_handle (batch b) s =
      processor.process_blocks b.blocks s >>= λ output. ok (processed output)
  process_handle (processed o) s = ok (processed o)
  process_handle complete s = ok complete

  -- `StorageStage::handle`
  unfoldable pub storage_handle : StageMessage B O → Action S (StageMessage B O)
  storage_handle (processed output) s =
      bind_outcome (processor.store_output output s) λ _ s'. (ok complete, s')
  storage_handle (range r) s = (ok (range r), s)
  storage_handle (batch b) s = (ok (batch b), s)
  storage_handle complete s = (ok complete, s)

-- A run of the pipeline: the batches still to be sent, the first channel (which carries batches
-- only), whether the tasks have been spawned, the output that the first task waits to send, the
-- second channel (which carries outputs only), how each task ended, and the database.
pub record Pipe (B O S : Type 0) : Type 0 where
  pub to_send : List (BlockBatch B)
  pub process_rx : List (BlockBatch B)
  pub spawned : Bool
  pub held : Option O
  pub process_result : Option (Outcome (Unit {0}))
  pub storage_rx : List O
  pub storage_result : Option (Outcome (Unit {0}))
  pub db : S

-- `Pipeline::run` at its beginning.
pub start : {B O S : Type 0} → List (BlockBatch B) → S → Pipe B O S
start batches s = record {
  to_send = batches;
  process_rx = [];
  spawned = false;
  held = none;
  process_result = none;
  storage_rx = [];
  storage_result = none;
  db = s;
}

-- One step of the sender or of a task. A send waits while the channel is full; the tasks are spawned
-- after the last send; a task receives `None`, and ends well, when its channel is empty and the
-- sender is gone; a send to a task that has ended is an error.
pub data Step {B O S : Type 0} (g : ProcessorTrait B O S) : Pipe B O S → Pipe B O S → Type 0 where
  send :
      (p : Pipe B O S) (b : BlockBatch B) (bs : List (BlockBatch B))
      → p.to_send ≡ b ∷ bs
      → length p.process_rx < channel_capacity
      → Step g p (record p { to_send = bs; process_rx = p.process_rx ++ b ∷ [] })
  spawn :
      (p : Pipe B O S) → p.to_send ≡ [] → p.spawned ≡ false → Step g p (record p { spawned = true })
  handle :
      (p : Pipe B O S) (b : BlockBatch B) (bs : List (BlockBatch B)) (o : O)
      → p.spawned ≡ true
      → p.process_result ≡ none
      → p.held ≡ none
      → p.process_rx ≡ b ∷ bs
      → process_handle g (batch b) p.db ≡ ok (processed o)
      → Step g p (record p { process_rx = bs; held = some o })
  handle_failed :
      (p : Pipe B O S) (b : BlockBatch B) (bs : List (BlockBatch B)) (e : Error)
      → p.spawned ≡ true
      → p.process_result ≡ none
      → p.held ≡ none
      → p.process_rx ≡ b ∷ bs
      → process_handle g (batch b) p.db ≡ err e
      → Step g p (record p { process_rx = bs; process_result = some (err e) })
  handle_panicked :
      (p : Pipe B O S) (b : BlockBatch B) (bs : List (BlockBatch B))
      → p.spawned ≡ true
      → p.process_result ≡ none
      → p.held ≡ none
      → p.process_rx ≡ b ∷ bs
      → process_handle g (batch b) p.db ≡ panic
      → Step g p (record p { process_rx = bs; process_result = some panic })
  forward :
      (p : Pipe B O S) (o : O)
      → p.process_result ≡ none
      → p.held ≡ some o
      → p.storage_result ≡ none
      → length p.storage_rx < channel_capacity
      → Step g p (record p { held = none; storage_rx = p.storage_rx ++ o ∷ [] })
  forward_failed :
      (p : Pipe B O S) (o : O) (r : Outcome (Unit {0}))
      → p.process_result ≡ none
      → p.held ≡ some o
      → p.storage_result ≡ some r
      → Step g p (record p { held = none; process_result = some (err (message "channel closed")) })
  process_done :
      (p : Pipe B O S)
      → p.spawned ≡ true
      → p.process_result ≡ none
      → p.held ≡ none
      → p.process_rx ≡ []
      → Step g p (record p { process_result = some (ok tt) })
  store :
      (p : Pipe B O S) (o : O) (os : List O) (s : S)
      → p.storage_result ≡ none
      → p.storage_rx ≡ o ∷ os
      → storage_handle g (processed o) p.db ≡ (ok complete, s)
      → Step g p (record p { storage_rx = os; db = s })
  store_failed :
      (p : Pipe B O S) (o : O) (os : List O) (e : Error) (s : S)
      → p.storage_result ≡ none
      → p.storage_rx ≡ o ∷ os
      → storage_handle g (processed o) p.db ≡ (err e, s)
      → Step g p (record p { storage_rx = os; storage_result = some (err e); db = s })
  store_panicked :
      (p : Pipe B O S) (o : O) (os : List O) (s : S)
      → p.storage_result ≡ none
      → p.storage_rx ≡ o ∷ os
      → storage_handle g (processed o) p.db ≡ (panic, s)
      → Step g p (record p { storage_rx = os; storage_result = some panic; db = s })
  storage_done :
      (p : Pipe B O S) (r : Outcome (Unit {0}))
      → p.process_result ≡ some r
      → p.storage_result ≡ none
      → p.storage_rx ≡ []
      → Step g p (record p { storage_result = some (ok tt) })

-- Runs, with their number of steps.
pub data Run {B O S : Type 0} (g : ProcessorTrait B O S) (p : Pipe B O S)
    : ℕ → Pipe B O S → Type 0 where
  here : Run g p 0 p
  next : {n : ℕ} {q r : Pipe B O S} → Run g p n q → Step g q r → Run g p (suc n) r

-- A task that panicked is reported as an error.
pub joined : Outcome (Unit {0}) → Outcome (Unit {0})
joined (ok u) = ok u
joined (err e) = err e
joined panic = err (message "task panicked")

-- What `Pipeline::run` returns once both tasks have ended.
pub result : Option (Outcome (Unit {0})) → Option (Outcome (Unit {0})) → Option (Outcome (Unit {0}))
result none s = none
result (some p) none = none
result (some p) (some s) = some (joined p >>= λ _. joined s)
