-- ===== src/Indexer/Pipeline/Capacity.antt =====
-- The first channel of the pipeline (crates/bento-core/src/workers/pipeline.rs) is filled before
-- anybody reads it: how many batches a run can take.
use mathlib.Core.List.{append_assoc}
use linx_app_backend.Base.{
  ap, inl, inr, Bool-cases, ℕ, ◌≤◌, ◌<◌, ◌≡◌, true, false, none, List, [], ◌∷◌, ◌++◌, arith, length,
  length-append,
}
use linx_app_backend.Indexer.Range.{BlockBatch}
use linx_app_backend.Indexer.Pipeline.{
  ProcessorTrait, Pipe, start, Step, send, spawn, handle, handle_failed, handle_panicked, forward,
  forward_failed, process_done, store, store_failed, store_panicked, storage_done, Run, here, next,
  channel_capacity, result,
}

module _ {B O S : Type 0} (g : ProcessorTrait B O S) (batches : List (BlockBatch B)) (s : S) where
  -- Until the tasks are spawned no batch has left the first channel, which holds no more than its
  -- capacity, and no task has done anything; when they are spawned, all batches have been sent.
  pub record Filling (p : Pipe B O S) : Type 0 where
    pub within : length p.process_rx ≤ channel_capacity
    pub kept : p.spawned ≡ false → (p.process_rx ++ p.to_send ≡ batches) × (p.db ≡ s)
    pub idle :
        p.spawned ≡ false
        → (p.held ≡ none)
          × (p.process_result ≡ none)
          × (p.storage_rx ≡ [])
          × (p.storage_result ≡ none)
    pub sent : p.spawned ≡ true → (p.to_send ≡ []) × (length batches ≤ channel_capacity)

  start-Filling : Filling (start batches s)
  unfolding start
  start-Filling = ground arith

  -- Sending a batch moves it from one list to the other.
  moved :
      (xs ys zs : List (BlockBatch B)) (b : BlockBatch B)
      → ys ≡ b ∷ zs
      → xs ++ ys ≡ batches
      → (xs ++ b ∷ []) ++ zs ≡ batches
  moved xs ys zs b e h = rw append_assoc (rw e at h)

  all_sent :
      (xs ys : List (BlockBatch B))
      → length xs ≤ channel_capacity
      → ys ≡ []
      → xs ++ ys ≡ batches
      → length batches ≤ channel_capacity
  all_sent xs ys room e h = omega (arith, ap length h, ap length e, length-append xs ys)

  Step-Filling : {p q : Pipe B O S} → Filling p → Step g p q → Filling q
  Step-Filling v (send p b bs e room) =
      ground (arith, length-append p.process_rx (b ∷ []), moved p.process_rx p.to_send bs b e)
  Step-Filling v (spawn p e f) =
      ground (arith, all_sent p.process_rx p.to_send v.within e (v.kept f).0)
  Step-Filling v (handle p b bs o up r h e f) = ground arith
  Step-Filling v (handle_failed p b bs o up r h e f) = ground arith
  Step-Filling v (handle_panicked p b bs up r h e f) = ground arith
  Step-Filling v (forward p o r h t room) = ground arith
  Step-Filling v (forward_failed p o r h t f) = ground arith
  Step-Filling v (process_done p up r h e) = ground arith
  Step-Filling v (store p o os t r e f) = ground arith
  Step-Filling v (store_failed p o os x t r e f) = ground arith
  Step-Filling v (store_panicked p o os t r e f) = ground arith
  Step-Filling v (storage_done p r f t e) = ground arith

  pub Run-Filling : {q : Pipe B O S} {k : ℕ} → Run g (start batches s) k q → Filling q
  Run-Filling here = start-Filling
  Run-Filling (next r t) = Step-Filling (Run-Filling r) t

  -- With more batches than the channel holds, no run spawns a task, reads a batch, changes the
  -- database or returns: `Pipeline::run` waits for ever in its first loop.
  pub overfull_never_returns :
      {k : ℕ} {p : Pipe B O S}
      → channel_capacity < length batches
      → Run g (start batches s) k p
      → (p.spawned ≡ false)
        × (p.process_rx ++ p.to_send ≡ batches)
        × (p.db ≡ s)
        × (result p.process_result p.storage_result ≡ none)
  unfolding result
  overfull_never_returns {p = p} over r =
      let v = Run-Filling r in
      elim (Bool-cases p.spawned) [
        | inl up ↦ absurd (omega (arith, (v.sent up).1))
        | inr down ↦ ground (arith, v.kept down, v.idle down)
      ]
