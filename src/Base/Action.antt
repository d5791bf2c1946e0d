-- ===== src/Base/Action.antt =====
-- Fallible code that changes a state `S` (the database): it returns an outcome and the new state,
-- also after an error, since what was written stays written.
use mathlib.Core.Path.{◌≡◌, refl, ap}
use mathlib.Core.List.{List, [], ◌∷◌}
use linx_app_backend.Base.Outcome.{Outcome, ok, err, panic}

abbrev pub Action : Type 0 → Type 0 → Type 0
Action S A = S → Outcome A × S

module _ {S : Type 0} where
  abbrev pub bind_outcome : {A B : Type 0} → Outcome A × S → (A → Action S B) → Outcome B × S
  bind_outcome (ok a, s) f = f a s
  bind_outcome (err e, s) f = (err e, s)
  bind_outcome (panic, s) f = (panic, s)

  infixl 5 ◌>>=◌ ◌>>◌
  abbrev pub ◌>>=◌ : {A B : Type 0} → Action S A → (A → Action S B) → Action S B
  ◌>>=◌ m f s = bind_outcome (m s) f

  abbrev pub ◌>>◌ : {A B : Type 0} → Action S A → Action S B → Action S B
  m >> k = m >>= λ _. k

  abbrev pub pure : {A : Type 0} → A → Action S A
  pure a s = (ok a, s)

  -- A step that does not touch the state.
  abbrev pub lift : {A : Type 0} → Outcome A → Action S A
  lift r s = (r, s)

  -- `for a in list { f(a)?; }`
  abbrev pub for_each : {A : Type 0} → (A → Action S (Unit {0})) → List A → Action S (Unit {0})
  for_each f [] = pure tt
  for_each f (a ∷ as') = f a >> for_each f as'

  bind_outcome_ok :
      {A B : Type 0} (r : Outcome A × S) (f : A → Action S B) {b : B} {s' : S}
      → bind_outcome r f ≡ (ok b, s')
      → (a : A) × (t : S) × (r ≡ (ok a, t)) × (f a t ≡ (ok b, s'))
  bind_outcome_ok (ok a, t) f ended = (a, t, refl, ended)
  bind_outcome_ok (err e, t) f ended = let no : err e ≡ ok _ = ap (λ p. p.0) ended in cc
  bind_outcome_ok (panic, t) f ended = let no : panic ≡ ok _ = ap (λ p. p.0) ended in cc

  -- A step that ends well has had a value at its first part.
  pub bind_ok :
      {A B : Type 0} (m : Action S A) (f : A → Action S B) {s s' : S} {b : B}
      → (m >>= f) s ≡ (ok b, s')
      → (a : A) × (t : S) × (m s ≡ (ok a, t)) × (f a t ≡ (ok b, s'))
  bind_ok m f {s = s} ended = bind_outcome_ok (m s) f ended

  pub lift_ok :
      {A B : Type 0} (r : Outcome A) (f : A → Action S B) {s s' : S} {b : B}
      → (lift r >>= f) s ≡ (ok b, s')
      → (a : A) × (r ≡ ok a) × (f a s ≡ (ok b, s'))
  lift_ok (ok a) f ended = (a, refl, ended)
  lift_ok (err e) f ended = let no : err e ≡ ok _ = ap (λ p. p.0) ended in cc
  lift_ok panic f ended = let no : panic ≡ ok _ = ap (λ p. p.0) ended in cc

  -- A query, and a statement that changes the state, where taking a connection may fail.
  abbrev pub query : {A : Type 0} → Outcome (Unit {0}) → (S → A) → Action S A
  query (ok u) f s = (ok (f s), s)
  query (err e) f s = (err e, s)
  query panic f s = (panic, s)

  abbrev pub execute : Outcome (Unit {0}) → (S → Outcome (Unit {0}) × S) → Action S (Unit {0})
  execute (ok u) f s = f s
  execute (err e) f s = (err e, s)
  execute panic f s = (panic, s)

  pub query_ok :
      {A B : Type 0} (connection : Outcome (Unit {0})) (f : S → A) (k : A → Action S B) {s s' : S}
      {b : B}
      → (query connection f >>= k) s ≡ (ok b, s')
      → (connection ≡ ok tt) × (k (f s) s ≡ (ok b, s'))
  query_ok (ok u) f k ended = (refl, ended)
  query_ok (err e) f k ended = let no : err e ≡ ok _ = ap (λ p. p.0) ended in cc
  query_ok panic f k ended = let no : panic ≡ ok _ = ap (λ p. p.0) ended in cc

  pub execute_ok :
      {B : Type 0} (connection : Outcome (Unit {0})) (f : S → Outcome (Unit {0}) × S)
      (k : Unit {0} → Action S B) (s : S) {s' : S} {b : B}
      → (execute connection f >>= k) s ≡ (ok b, s')
      → (connection ≡ ok tt) × (bind_outcome (f s) k ≡ (ok b, s'))
  execute_ok (ok u) f k s ended = (refl, ended)
  execute_ok (err e) f k s ended = let no : err e ≡ ok _ = ap (λ p. p.0) ended in cc
  execute_ok panic f k s ended = let no : panic ≡ ok _ = ap (λ p. p.0) ended in cc
