-- ===== src/Indexer/Pipeline/Progress.antt =====
-- A run of the pipeline (crates/bento-core/src/workers/pipeline.rs) that has room for its batches
-- always comes to its end.
use linx_app_backend.Base.{
  ap, ℕ, ◌+◌, ◌*◌, ◌≤◌, ◌<◌, ◌≡◌, refl, inl, inr, ◌⊎◌, Bool, true, false, Option, none, some, List,
  [], ◌∷◌, ◌++◌, arith, length, length-append, Option-cases, Bool-cases,
}
use linx_app_backend.Base.Outcome.{Outcome, ok, err, panic}
use linx_app_backend.Indexer.Range.{BlockBatch}
use linx_app_backend.Indexer.Pipeline.{
  ProcessorTrait, Pipe, start, Step, send, spawn, handle, handle_failed, handle_panicked, forward,
  forward_failed, process_done, store, store_failed, store_panicked, storage_done, Run, here, next,
  channel_capacity, result, process_handle, storage_handle,
}
use linx_app_backend.Indexer.Pipeline.Capacity.{Filling, Run-Filling}

abbrev open_tasks : {A : Type 0} → Option A → ℕ
open_tasks none = 1
open_tasks (some _) = 0

abbrev waiting : {A : Type 0} → Option A → ℕ
waiting none = 0
waiting (some _) = 1

abbrev unspawned : Bool → ℕ
unspawned true = 0
unspawned false = 1

-- How many steps are left at most.
abbrev pub steps_left : {B O S : Type 0} → Pipe B O S → ℕ
steps_left p =
    4 * length p.to_send
    + 3 * length p.process_rx
    + 2 * waiting p.held
    + length p.storage_rx
    + unspawned p.spawned
    + open_tasks p.process_result
    + open_tasks p.storage_result

module _ {B O S : Type 0} (g : ProcessorTrait B O S) where
  Step-falls : {p q : Pipe B O S} → Step g p q → steps_left q < steps_left p
  Step-falls (send p b bs e room) = ground (arith, length-append p.process_rx (b ∷ []))
  Step-falls (spawn p e f) = ground arith
  Step-falls (handle p b bs o up r h e f) = ground arith
  Step-falls (handle_failed p b bs o up r h e f) = ground arith
  Step-falls (handle_panicked p b bs up r h e f) = ground arith
  Step-falls (forward p o r h t room) = ground (arith, length-append p.storage_rx (o ∷ []))
  Step-falls (forward_failed p o r h t f) = ground arith
  Step-falls (process_done p up r h e) = ground arith
  Step-falls (store p o os s r e f) = ground arith
  Step-falls (store_failed p o os x s r e f) = ground arith
  Step-falls (store_panicked p o os s r e f) = ground arith
  Step-falls (storage_done p r f t e) = ground arith

  Run-falls : {p q : Pipe B O S} {k : ℕ} → Run g p k q → k + steps_left q ≤ steps_left p
  Run-falls here = omega arith
  Run-falls (next r s) = omega (arith, Run-falls r, Step-falls s)

  abbrev Goes : Pipe B O S → Type 0
  Goes p = (q : Pipe B O S) × Step g p q

  handle-Goes :
      (p : Pipe B O S) (b : BlockBatch B) (bs : List (BlockBatch B))
      → p.spawned ≡ true
      → p.process_result ≡ none
      → p.held ≡ none
      → p.process_rx ≡ b ∷ bs
      → (r : Outcome O) → g.process_blocks b.blocks p.db ≡ r
      → Goes p
  unfolding process_handle
  handle-Goes p b bs up u h e (ok o) f = (_, handle p b bs o up u h e (rw f refl))
  handle-Goes p b bs up u h e (err x) f = (_, handle_failed p b bs x up u h e (rw f refl))
  handle-Goes p b bs up u h e panic f = (_, handle_panicked p b bs up u h e (rw f refl))

  store-Goes :
      (p : Pipe B O S) (o : O) (os : List O)
      → p.storage_result ≡ none
      → p.storage_rx ≡ o ∷ os
      → (r : Outcome (Unit {0}) × S) → g.store_output o p.db ≡ r
      → Goes p
  unfolding storage_handle
  store-Goes p o os t e (ok u, s) f = (_, store p o os s t e (rw f refl))
  store-Goes p o os t e (err x, s) f = (_, store_failed p o os x s t e (rw f refl))
  store-Goes p o os t e (panic, s) f = (_, store_panicked p o os s t e (rw f refl))

  pub List-cases :
      {A : Type 0} (xs : List A) → (xs ≡ []) ⊎ ((a : A) × (as' : List A) × (xs ≡ a ∷ as'))
  List-cases [] = inl refl
  List-cases (a ∷ as') = inr (a, as', refl)

  room_left :
      {batches : List (BlockBatch B)} (p : Pipe B O S) (b : BlockBatch B) (bs : List (BlockBatch B))
      → p.to_send ≡ b ∷ bs
      → p.process_rx ++ p.to_send ≡ batches
      → length batches ≤ channel_capacity
      → length p.process_rx < channel_capacity
  room_left p b bs more kept room =
      omega (arith, ap length kept, ap length more, length-append p.process_rx p.to_send)

  -- A task of processing that has not ended can go on, if need be after a step of storing.
  process-Goes : (p : Pipe B O S) → p.spawned ≡ true → p.process_result ≡ none → Goes p
  process-Goes p up busy = elim (Option-cases p.held) [
    | inl free ↦ elim (List-cases p.process_rx) [
      | inl empty ↦ (_, process_done p up busy free empty)
      | inr (b, bs, more) ↦ handle-Goes p b bs up busy free more _ refl
    ]
    | inr (o, full) ↦ elim (Option-cases p.storage_result) [
      | inr (r, ended) ↦ (_, forward_failed p o r busy full ended)
      | inl storing ↦ elim (List-cases p.storage_rx) [
        | inl empty ↦ (_, forward p o busy full storing (omega (arith, ap length empty)))
        | inr (x, xs, more) ↦ store-Goes p x xs storing more _ refl
      ]
    ]
  ]

  -- Nobody waits for ever: a run that has not returned can go on.
  progress :
      {batches : List (BlockBatch B)} {s : S} (p : Pipe B O S)
      → length batches ≤ channel_capacity
      → Filling g batches s p
      → result p.process_result p.storage_result ≡ none
      → Goes p
  unfolding result
  progress p room v e = elim (Bool-cases p.spawned) [
    | inr down ↦ elim (List-cases p.to_send) [
      | inl sent ↦ (_, spawn p sent down)
      | inr (b, bs, more) ↦ (_, send p b bs more (room_left p b bs more (v.kept down).0 room))
    ]
    | inl up ↦ elim (Option-cases p.process_result) [
      | inl busy ↦ process-Goes p up busy
      | inr (r, ended) ↦ elim (Option-cases p.storage_result) [
        | inl busy ↦ elim (List-cases p.storage_rx) [
          | inl empty ↦ (_, storage_done p r ended busy empty)
          | inr (o, os, more) ↦ store-Goes p o os busy more _ refl
        ]
        | inr (t, stored) ↦ cc
      ]
    ]
  ]

  -- With no more batches than the channel holds, every run that has not returned has a next step,
  -- and no run is longer than four steps for each batch and three more: so `Pipeline::run` returns,
  -- whatever the scheduler does and whatever fails.
  pub pipeline_returns :
      (batches : List (BlockBatch B)) (s : S) (p : Pipe B O S) {k : ℕ}
      → length batches ≤ channel_capacity
      → Run g (start batches s) k p
      → (k ≤ 4 * length batches + 3)
        × (((r : Outcome (Unit {0})) × (result p.process_result p.storage_result ≡ some r))
            ⊎ ((q : Pipe B O S) × Step g p q))
  unfolding start
  pipeline_returns batches s p room r = (
    omega (arith, Run-falls r),
    elim (Option-cases (result p.process_result p.storage_result)) [
      | inl open' ↦ inr (progress p room (Run-Filling g batches s r) open')
      | inr (o, e) ↦ inl (o, e)
    ],
  )
