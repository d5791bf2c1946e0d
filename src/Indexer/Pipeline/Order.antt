-- ===== src/Indexer/Pipeline/Order.antt =====
-- A pipeline that returns without an error has done what a plain loop over the batches does
-- (crates/bento-core/src/workers/pipeline.rs and stage.rs): process each, store each, in order.
use mathlib.Core.List.{append_assoc}
use mathlib.Core.Path.{fun_ext, ap₂}
use linx_app_backend.Base.{
  ℕ, ◌≡◌, ◌≢◌, refl, sym, ap, ◌∙◌, Bool, true, false, Option, none, some, List, [], ◌∷◌, ◌++◌,
  arith,
}
use linx_app_backend.Base.Outcome.{Outcome, ok, err, panic, bind_ok}
use linx_app_backend.Base.Action.{Action, bind_outcome, for_each, ◌>>◌}
use linx_app_backend.Indexer.Range.{BlockBatch}
use linx_app_backend.Indexer.Pipeline.{
  ProcessorTrait, StageMessage, batch, processed, complete, Pipe, start, Step, send, spawn, handle,
  handle_failed, handle_panicked, forward, forward_failed, process_done, store, store_failed,
  store_panicked, storage_done, Run, here, next, joined, result, process_handle, storage_handle,
}

module _ {B O S : Type 0} (g : ProcessorTrait B O S) where
  -- What the processor makes of blocks does not depend on the database.
  abbrev pub Stateless : Type 0
  Stateless = (bs : List B) (s t : S) → g.process_blocks bs s ≡ g.process_blocks bs t

  -- Process one batch and store its output.
  abbrev pub process_and_store : BlockBatch B → Action S (Unit {0})
  process_and_store b s = bind_outcome (g.process_blocks b.blocks s, s) g.store_output

  -- The sequential specification.
  abbrev pub store_batches : List (BlockBatch B) → Action S (Unit {0})
  store_batches = for_each process_and_store

  -- What is left to do, from the output that the first task holds on.
  abbrev from_held : Option O → List (BlockBatch B) → Action S (Unit {0})
  from_held none bs = store_batches bs
  from_held (some o) bs = g.store_output o >> store_batches bs

  -- What is left to do in a run.
  abbrev left : Pipe B O S → Action S (Unit {0})
  left p = for_each g.store_output p.storage_rx >> from_held p.held (p.process_rx ++ p.to_send)

  bind_assoc :
      (r : Outcome (Unit {0}) × S) (m k : Action S (Unit {0}))
      → bind_outcome (bind_outcome r (λ _. m)) (λ _. k) ≡ bind_outcome r (λ _. m >> k)
  bind_assoc (ok u, s) m k = refl
  bind_assoc (err e, s) m k = refl
  bind_assoc (panic, s) m k = refl

  bind_pure : (r : Outcome (Unit {0}) × S) → bind_outcome r (λ _ s. (ok tt, s)) ≡ r
  bind_pure (ok u, s) = refl
  bind_pure (err e, s) = refl
  bind_pure (panic, s) = refl

  forward_left :
      (os : List O) (o : O) (k : Action S (Unit {0})) (s : S)
      → (for_each g.store_output (os ++ o ∷ []) >> k) s
        ≡ (for_each g.store_output os >> (g.store_output o >> k)) s
  forward_left [] o k s = rw (bind_pure (g.store_output o s)) refl
  forward_left (x ∷ os) o k s =
      bind_assoc (g.store_output x s) (for_each g.store_output (os ++ o ∷ [])) k
      ∙ ap (λ rest. bind_outcome (g.store_output x s) (λ _. rest)) (fun_ext (forward_left os o k))
      ∙ sym (bind_assoc (g.store_output x s) (for_each g.store_output os) (g.store_output o >> k))

  handle_left :
      (b : BlockBatch B) (bs : List (BlockBatch B)) (o : O)
      → ((s : S) → g.process_blocks b.blocks s ≡ ok o)
      → store_batches (b ∷ bs) ≡ from_held (some o) bs
  handle_left b bs o h = fun_ext λ s. rw (h s) refl

  store_left :
      (o : O) (os : List O) (k : Action S (Unit {0})) (s t : S)
      → g.store_output o s ≡ (ok tt, t)
      → (for_each g.store_output (o ∷ os) >> k) s ≡ (for_each g.store_output os >> k) t
  store_left o os k s t h = rw h refl

  -- A task has not failed so far.
  abbrev well : Option (Outcome (Unit {0})) → Bool
  well none = true
  well (some (ok u)) = true
  well (some (err e)) = false
  well (some panic) = false

  processed_ok :
      (b : BlockBatch B) (o : O) (s : S)
      → process_handle g (batch b) s ≡ ok (processed o)
      → g.process_blocks b.blocks s ≡ ok o
  unfolding process_handle
  processed_ok b o s h = let (x, e, f) = bind_ok (g.process_blocks b.blocks s) _ h in cc

  stored_inversion :
      (r : Outcome (Unit {0}) × S) (t : S) (m : StageMessage B O)
      → bind_outcome r (λ _ s'. (ok m, s')) ≡ (ok m, t)
      → r ≡ (ok tt, t)
  stored_inversion (ok u, s) t m h = ground arith
  stored_inversion (err e, s) t m h = ground arith
  stored_inversion (panic, s) t m h = ground arith

  stored_ok :
      (o : O) (s t : S)
      → storage_handle g (processed o) s ≡ (ok complete, t)
      → g.store_output o s ≡ (ok tt, t)
  unfolding storage_handle
  stored_ok o s t h = stored_inversion (g.store_output o s) t complete h

  resent :
      (xs ys bs : List (BlockBatch B)) (b : BlockBatch B)
      → ys ≡ b ∷ bs
      → xs ++ ys ≡ (xs ++ b ∷ []) ++ bs
  resent xs ys bs b e = rw append_assoc (ap (λ zs. xs ++ zs) e)

module _ {B O S : Type 0} (g : ProcessorTrait B O S) (batches : List (BlockBatch B)) (s : S)
    (stateless : Stateless g) where
  record InOrder (p : Pipe B O S) : Type 0 where
    sent : p.spawned ≡ true → p.to_send ≡ []
    emptied :
        p.process_result ≡ some (ok tt) → (p.spawned ≡ true) × (p.held ≡ none) × (p.process_rx ≡ [])
    drained : p.storage_result ≡ some (ok tt) → (p.storage_rx ≡ []) × (p.process_result ≢ none)
    same :
        well g p.process_result ≡ true
        → well g p.storage_result ≡ true
        → store_batches g batches s ≡ left g p p.db

  start-InOrder : InOrder (start batches s)
  unfolding start
  start-InOrder = record {
    sent = λ e. cc;
    emptied = λ e. cc;
    drained = λ e. cc;
    same = λ _ _. refl;
  }

  Step-InOrder : {p q : Pipe B O S} → InOrder p → Step g p q → InOrder q
  Step-InOrder v (send p b bs e room) = record {
    sent = λ up. ground (arith, v.sent up);
    emptied = λ done. ground (arith, v.emptied done, v.sent (v.emptied done).0);
    drained = v.drained;
    same = λ a c.
        v.same a c
        ∙ ap (λ bs. (for_each g.store_output p.storage_rx >> from_held g p.held bs) p.db)
            (resent g p.process_rx p.to_send bs b e);
  }
  Step-InOrder v (spawn p e f) = record {
    sent = λ up. e;
    emptied = λ done. ground (arith, v.emptied done);
    drained = v.drained;
    same = v.same;
  }
  Step-InOrder v (handle p b bs o up r h e f) = record {
    sent = v.sent;
    emptied = λ done. ground arith;
    drained = v.drained;
    same = λ a c.
        v.same a c
        ∙ ap (λ rest. (for_each g.store_output p.storage_rx >> rest) p.db)
            (ap₂ (from_held g) h (ap (λ xs. xs ++ p.to_send) e)
              ∙ handle_left g b (bs ++ p.to_send) o
                  (λ t. stateless b.blocks t p.db ∙ processed_ok g b o p.db f));
  }
  Step-InOrder v (handle_failed p b bs o up r h e f) = record {
    sent = v.sent;
    emptied = λ done. cc;
    drained = λ done. ground (arith, v.drained done);
    same = λ a c. cc;
  }
  Step-InOrder v (handle_panicked p b bs up r h e f) = record {
    sent = v.sent;
    emptied = λ done. cc;
    drained = λ done. ground (arith, v.drained done);
    same = λ a c. cc;
  }
  Step-InOrder v (forward p o r h t room) = record {
    sent = v.sent;
    emptied = λ done. ground arith;
    drained = λ done. ground arith;
    same = λ a c.
        v.same a c
        ∙ ap
            (λ x.
              (for_each g.store_output p.storage_rx >> from_held g x (p.process_rx ++ p.to_send))
                p.db)
            h
        ∙ sym (forward_left g p.storage_rx o (store_batches g (p.process_rx ++ p.to_send)) p.db);
  }
  Step-InOrder v (forward_failed p o r h t f) = record {
    sent = v.sent;
    emptied = λ done. cc;
    drained = λ done. ground (arith, v.drained done);
    same = λ a c. cc;
  }
  Step-InOrder v (process_done p up r h e) = record {
    sent = v.sent;
    emptied = λ done. (up, h, e);
    drained = λ done. ground (arith, v.drained done);
    same = λ a c. v.same (ground arith) c;
  }
  Step-InOrder v (store p o os t r e f) = record {
    sent = v.sent;
    emptied = v.emptied;
    drained = λ done. ground arith;
    same = λ a c.
        v.same a c
        ∙ ap
            (λ xs.
              (for_each g.store_output xs >> from_held g p.held (p.process_rx ++ p.to_send)) p.db)
            e
        ∙ store_left g o os (from_held g p.held (p.process_rx ++ p.to_send)) p.db t
            (stored_ok g o p.db t f);
  }
  Step-InOrder v (store_failed p o os x t r e f) = record {
    sent = v.sent;
    emptied = v.emptied;
    drained = λ done. cc;
    same = λ a c. cc;
  }
  Step-InOrder v (store_panicked p o os t r e f) = record {
    sent = v.sent;
    emptied = v.emptied;
    drained = λ done. cc;
    same = λ a c. cc;
  }
  Step-InOrder v (storage_done p r f t e) = record {
    sent = v.sent;
    emptied = v.emptied;
    drained = λ done. (e, λ busy. cc);
    same = λ a c. v.same a (ground arith);
  }

  Run-InOrder : {q : Pipe B O S} {k : ℕ} → Run g (start batches s) k q → InOrder q
  Run-InOrder here = start-InOrder
  Run-InOrder (next r t) = Step-InOrder (Run-InOrder r) t

  -- What a result without an error says of the two tasks.
  both_well :
      (a b : Option (Outcome (Unit {0})))
      → result a b ≡ some (ok tt)
      → (a ≡ some (ok tt)) × (b ≡ some (ok tt))
  unfolding result joined
  both_well none b h = cc
  both_well (some (ok u)) none h = cc
  both_well (some (err e)) none h = cc
  both_well (some panic) none h = cc
  both_well (some (ok u)) (some (ok w)) h = (refl, refl)
  both_well (some (ok u)) (some (err e)) h = cc
  both_well (some (ok u)) (some panic) h = cc
  both_well (some (err e)) (some b) h = cc
  both_well (some panic) (some b) h = cc

  -- If what the processor makes of blocks does not depend on the database, then every run of the
  -- pipeline that returns without an error, however its tasks were interleaved, leaves the database
  -- as processing and storing the batches one by one, in order, leaves it, and that ends well too.
  -- (The lending and the DEX processor read the database for the stored markets and pools while they
  -- process blocks, so this does not cover them.)
  pub pipeline_in_order :
      (p : Pipe B O S) {k : ℕ}
      → Run g (start batches s) k p
      → result p.process_result p.storage_result ≡ some (ok tt)
      → store_batches g batches s ≡ (ok tt, p.db)
  pipeline_in_order p r h =
      let v = Run-InOrder r in
      let (a, b) = both_well p.process_result p.storage_result h in
      let (up, free, empty) = v.emptied a in
      let (drained, _) = v.drained b in
      v.same (ground arith) (ground arith)
      ∙ ap
          (λ xs.
            (for_each g.store_output xs >> from_held g p.held (p.process_rx ++ p.to_send)) p.db)
          drained
      ∙ ap₂ (λ x ys. from_held g x ys p.db) free (ap₂ (λ xs ys. xs ++ ys) empty (v.sent up))
