-- ===== src/Base/Store.antt =====
-- A database whose statements can fail: its tables and the number of calls made so far. What a call is
-- answered, an error or nothing, is given by its number, so that any call may fail.
use mathlib.Core.Option.{Option, none, some}
use mathlib.Core.Path.{◌≡◌, refl, ap, sym, ◌∙◌}
use Prim.Native.Nat.{ℕ, suc}
use linx_app_backend.Base.Outcome.{Outcome, Error, ok, err, panic}
use linx_app_backend.Base.Action.{Action, ◌>>=◌, ◌>>◌, pure, bind_outcome, for_each}
use mathlib.Core.List.{List, [], ◌∷◌}

pub record Store (S : Type 0) : Type 0 where
  pub tables : S
  pub calls : ℕ

module _ {S : Type 0} (answer : ℕ → Option Error) where
  abbrev answered : {A : Type 0} → Option Error → (S → A × S) → Store S → Outcome A × Store S
  answered (some e) f d = (err e, record d { calls = suc d.calls })
  answered none f d = (ok ((f d.tables).0), record { tables = (f d.tables).1; calls = suc d.calls })

  -- A statement.
  abbrev pub call : {A : Type 0} → (S → A × S) → Action (Store S) A
  call f d = answered (answer d.calls) f d

  -- `db.get().await?`
  abbrev pub connect : Action (Store S) (Unit {0})
  connect = call (λ t. (tt, t))

  abbrev pub read : {A : Type 0} → (S → A) → Action (Store S) A
  read f = call (λ t. (f t, t))

  abbrev pub write : (S → S) → Action (Store S) (Unit {0})
  write f = call (λ t. (tt, f t))

  -- The end of a transaction that began with the tables `before`: a commit, which may fail, after a
  -- success, and a rollback otherwise.
  abbrev pub committed : {A : Type 0} → Option Error → S → A → Store S → Outcome A × Store S
  committed none before a d = (ok a, record d { calls = suc d.calls })
  committed (some e) before a d = (err e, record { tables = before; calls = suc d.calls })

  abbrev pub finish : {A : Type 0} → S → Outcome A × Store S → Outcome A × Store S
  finish before (ok a, d) = committed (answer d.calls) before a d
  finish before (err e, d) = (err e, record d { tables = before })
  finish before (panic, d) = (panic, record d { tables = before })

  -- `conn.transaction(|conn| …)`
  abbrev pub transaction : {A : Type 0} → Action (Store S) A → Action (Store S) A
  transaction body = connect >> λ d. finish d.tables (body d)

-- `.ok()` on the first row of a query: an error is taken for no row.
abbrev pub or_none : {A S : Type 0} → Outcome (Option A) × Store S → Outcome (Option A) × Store S
or_none (ok o, d) = (ok o, d)
or_none (err e, d) = (ok none, d)
or_none (panic, d) = (panic, d)

module _ {S : Type 0} (P : S → Type 0) where
  -- Whatever a step returns, the tables have a property afterwards if they had it before.
  abbrev pub Keeps : {A : Type 0} → Action (Store S) A → Type 0
  Keeps m = (d : Store S) → P d.tables → P ((m d).1.tables)

  Keeps-bind_outcome :
      {A B : Type 0} (r : Outcome A × Store S) (f : A → Action (Store S) B)
      → P (r.1.tables)
      → ((a : A) → Keeps (f a))
      → P ((bind_outcome r f).1.tables)
  Keeps-bind_outcome (ok a, d) f h k = k a d h
  Keeps-bind_outcome (err e, d) f h k = h
  Keeps-bind_outcome (panic, d) f h k = h

  pub Keeps-bind :
      {A B : Type 0} (m : Action (Store S) A) (f : A → Action (Store S) B)
      → Keeps m
      → ((a : A) → Keeps (f a))
      → Keeps (m >>= f)
  Keeps-bind m f h k d p = Keeps-bind_outcome (m d) f (h d p) k

  or_none_tables :
      {A : Type 0} (r : Outcome (Option A) × Store S) → P (r.1.tables) → P ((or_none r).1.tables)
  or_none_tables (ok o, d) p = p
  or_none_tables (err e, d) p = p
  or_none_tables (panic, d) p = p

  pub or_none-Keeps :
      {A : Type 0} (m : Action (Store S) (Option A)) → Keeps m → Keeps (λ d. or_none (m d))
  or_none-Keeps m keeps d p = or_none_tables (m d) (keeps d p)

  pub for_each-Keeps :
      {A : Type 0} (f : A → Action (Store S) (Unit {0})) (xs : List A)
      → ((a : A) → Keeps (f a))
      → Keeps (for_each f xs)
  for_each-Keeps f [] keeps = λ d p. p
  for_each-Keeps f (x ∷ xs) keeps =
      Keeps-bind (f x) (λ u. for_each f xs) (keeps x) (λ u. for_each-Keeps f xs keeps)

  module _ (answer : ℕ → Option Error) where
    answered-Keeps :
        {A : Type 0} (o : Option Error) (f : S → A) (d : Store S)
        → P d.tables
        → P ((answered answer o (λ t. (f t, t)) d).1.tables)
    answered-Keeps none f d p = p
    answered-Keeps (some e) f d p = p

    pub read-Keeps : {A : Type 0} (f : S → A) → Keeps (read answer f)
    read-Keeps f d p = answered-Keeps (answer d.calls) f d p

    committed-Keeps :
        {A : Type 0} (o : Option Error) (before : S) (a : A) (d : Store S)
        → P before
        → P d.tables
        → P ((committed answer o before a d).1.tables)
    committed-Keeps none before a d p q = q
    committed-Keeps (some e) before a d p q = p

    finish-Keeps :
        {A : Type 0} (before : S) (r : Outcome A × Store S)
        → P before
        → ((a : A) (d : Store S) → r ≡ (ok a, d) → P d.tables)
        → P ((finish answer before r).1.tables)
    finish-Keeps before (ok a, d) p h = committed-Keeps (answer d.calls) before a d p (h a d refl)
    finish-Keeps before (err e, d) p h = p
    finish-Keeps before (panic, d) p h = p

    -- A transaction keeps what its body keeps when the body succeeds.
    pub transaction-Keeps :
        {A : Type 0} (body : Action (Store S) A)
        → ((d : Store S) (a : A) (d' : Store S) → P d.tables → body d ≡ (ok a, d') → P d'.tables)
        → Keeps (transaction answer body)
    transaction-Keeps body h =
        Keeps-bind (connect answer) (λ u d. finish answer d.tables (body d)) (read-Keeps (λ t. tt))
          (λ u d p. finish-Keeps d.tables (body d) p (λ a d' e. h d a d' p e))

module _ {S : Type 0} where
  -- The store after `n` calls.
  abbrev pub at : S → ℕ → Store S
  at s n = record { tables = s; calls = n }

  -- A step succeeds from one state of the tables to another, after any number of calls.
  abbrev pub Gives : {A : Type 0} → Action (Store S) A → S → A → S → Type 0
  Gives m s a s' = (n : ℕ) → (n' : ℕ) × (m (at s n) ≡ (ok a, at s' n'))

  pub pure-Gives : {A : Type 0} (a : A) (s : S) → Gives (pure a) s a s
  pure-Gives a s n = (n, refl)

  pub Gives-bind :
      {A B : Type 0} (m : Action (Store S) A) (f : A → Action (Store S) B) {s s' s'' : S} {a : A}
      {b : B}
      → Gives m s a s'
      → Gives (f a) s' b s''
      → Gives (m >>= f) s b s''
  Gives-bind m f first second n =
      let (n', e) = first n in let (n'', e') = second n' in (n'', ap (λ r. bind_outcome r f) e ∙ e')

  -- An update that succeeds has updated.
  answered_ok :
      (answer : ℕ → Option Error) (o : Option Error) (f : S → S) (d : Store S) {d' : Store S}
      {u : Unit {0}}
      → answered answer o (λ t. (tt, f t)) d ≡ (ok u, d')
      → d'.tables ≡ f d.tables
  answered_ok answer none f d e = ap (λ r. r.1.tables) (sym e)
  answered_ok answer (some x) f d e = let no : err x ≡ ok _ = ap (λ p. p.0) e in cc

  module _ (answer : ℕ → Option Error) where
    pub write_ok :
        (f : S → S) (d : Store S) {d' : Store S} {u : Unit {0}}
        → write answer f d ≡ (ok u, d')
        → d'.tables ≡ f d.tables
    write_ok f d e = answered_ok answer (answer d.calls) f d e

    module _ (reachable : (n : ℕ) → answer n ≡ none) where
      pub call-Gives :
          {A : Type 0} (f : S → A × S) (s : S) → Gives (call answer f) s ((f s).0) ((f s).1)
      call-Gives f s n = (suc n, ap (λ o. answered answer o f (at s n)) (reachable n))

      pub or_none-Gives :
          {A : Type 0} (f : S → Option A) (s : S) → Gives (λ d. or_none (read answer f d)) s (f s) s
      or_none-Gives f s n =
          (suc n, ap (λ o. or_none (answered answer o (λ t. (f t, t)) (at s n))) (reachable n))

      pub transaction-Gives :
          {A : Type 0} (body : Action (Store S) A) {s s' : S} {a : A}
          → Gives body s a s'
          → Gives (transaction answer body) s a s'
      transaction-Gives body {s = s} {s' = s'} {a = a} done n =
          let (n', e) = done (suc n) in
          (
            suc n',
            ap
                  (λ o.
                    bind_outcome (answered answer o (λ t. (tt, t)) (at s n))
                      (λ u d. finish answer d.tables (body d)))
                  (reachable n)
                ∙ ap (finish answer s) e
                ∙ ap (λ o. committed answer o s a (at s' n')) (reachable n'),
          )
