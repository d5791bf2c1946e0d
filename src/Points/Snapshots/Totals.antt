-- ===== src/Points/Snapshots/Totals.antt =====
-- The totals that `store_snapshots` of
-- examples/linx-indexer/src/services/points_calculator_service.rs keeps from day to day.
use linx_app_backend.Base.{
  ℕ, suc, false, Option, some, none, List, [], ◌∷◌, ◌++◌, String, ◌≡◌, ◌≢◌, refl, sym, ap, ◌∙◌,
  subst, ◌⊎◌, inl, inr, if◌then◌else◌, Bool-cases, In, All,
}
use linx_app_backend.Base.Equality.{string_eq, nat_eq, pair_eq, eqb, eqb→eq, ne→eqb_false}
use linx_app_backend.Base.HashMap.{
  HashMap, VisitsAll, get-visit, get, alter, insert, IsDistinct, alter-IsDistinct,
}
use linx_app_backend.Base.Outcome.{ok}
use linx_app_backend.Points.Activity.{Arithmetic, UserDailyActivity}
use linx_app_backend.Points.Snapshots.{
  PointsSnapshot, RowKey, Table, key_of, get_snapshot, get_snapshots_by_date, upsert, active_row,
  carried_row, active_rows, carried_rows, store_snapshots, Answers, fetch_active_rows,
  insert_snapshots,
}
use linx_app_backend.Points.Snapshots.Stored.{
  IsKeyed, IsTable, get-upsert, last_row, last_row-append, last_row-active_rows,
  last_row-carried_rows, if_active, if_carried,
}

module _ {D : Type 0} where
  In-insert :
      (k : RowKey) (row : PointsSnapshot D) (table : Table D) (l : RowKey) (r : PointsSnapshot D)
      → In (l, r) (insert k row table)
      → ((l ≡ k) × (r ≡ row)) ⊎ In (l, r) table
  unfolding alter
  In-insert k row [] l r (inl e) = inl (ap (λ x. x.0) e, ap (λ x. x.1) e)
  In-insert k row [] l r (inr h) = elim h [ ]
  In-insert k row ((k', row') ∷ table) l r h = elim (Bool-cases (eqb k k')) [
    | inl t ↦
        elim (subst
          (λ b. In (l, r) (if b then (k', row) ∷ table else (k', row') ∷ insert k row table)) t h) [
            | inl e ↦ inl (ap (λ x. x.0) e ∙ sym (eqb→eq k k' t), ap (λ x. x.1) e)
            | inr h' ↦ inr (inr h')
          ]
    | inr f ↦
        elim (subst
          (λ b. In (l, r) (if b then (k', row) ∷ table else (k', row') ∷ insert k row table)) f h) [
            | inl e ↦ inr (inl e)
            | inr h' ↦ elim (In-insert k row table l r h') [
              | inl new ↦ inl new
              | inr old ↦ inr (inr old)
            ]
          ]
  ]

  -- Storing rows keeps the table well formed.
  pub upsert-IsTable :
      (rows : List (PointsSnapshot D)) (table : Table D)
      → IsTable table
      → IsTable (upsert rows table)
  unfolding upsert
  upsert-IsTable [] table h = h
  upsert-IsTable (row ∷ rows) table (d, keyed) =
      upsert-IsTable rows (insert (key_of row) row table) (
        alter-IsDistinct (key_of row) row (λ _. row) table d,
        λ k r h. elim (In-insert (key_of row) row table k r h) [
          | inl (p, q) ↦ ap key_of q ∙ sym p
          | inr old ↦ keyed k r old
        ],
      )

  -- Rows of another day or season stay as they are.
  abbrev OfDay : ℕ → ℕ → List (PointsSnapshot D) → Type 0
  OfDay date season_id rows =
      All (λ row. (row.snapshot_date ≡ date) × (row.season_id ≡ season_id)) rows

  last_row-other :
      (a : String) (e t date season_id : ℕ) (rows : List (PointsSnapshot D))
      (found : Option (PointsSnapshot D))
      → (e ≢ date) ⊎ (t ≢ season_id)
      → OfDay date season_id rows
      → last_row ((a, e), t) rows found ≡ found
  last_row-other a e t date season_id [] found h d = refl
  last_row-other a e t date season_id (row ∷ rows) found h ((p, q), d) =
      let differs : eqb {A = RowKey} ((a, e), t) (key_of row) ≡ false =
        ne→eqb_false {A = RowKey} ((a, e), t) (key_of row)
          (λ same. elim h [
            | inl ne ↦ ne (ap (λ x. x.0.1) same ∙ p)
            | inr ne ↦ ne (ap (λ x. x.1) same ∙ q)
          ]) in
      ap (λ b. last_row ((a, e), t) rows (if b then some row else found)) differs
      ∙ last_row-other a e t date season_id rows found h d

-- The database answers every statement.
pub record IsReachable {D : Type 0} (answers : Answers D) : Type 0 where
  pub snapshot_answered : (a : String) (date id : ℕ) → answers.for_snapshot a date id ≡ ok tt
  pub date_answered : (date id : ℕ) → answers.for_date date id ≡ ok tt
  pub rows_answered : (rows : List (PointsSnapshot D)) → answers.for_rows rows ≡ ok tt

module _ {D : Type 0} (decimal : Arithmetic D) (season_id : ℕ)
    (visit : HashMap String (UserDailyActivity D) → List (String × UserDailyActivity D))
    (visits : VisitsAll visit) where
  OfDay-append :
      (date : ℕ) (xs ys : List (PointsSnapshot D))
      → OfDay date season_id xs
      → OfDay date season_id ys
      → OfDay date season_id (xs ++ ys)
  OfDay-append date [] ys h k = k
  OfDay-append date (x ∷ xs) ys (p, h) k = (p, OfDay-append date xs ys h k)

  active_rows-OfDay :
      (date previous_date : ℕ) (table : Table D) (es : List (String × UserDailyActivity D))
      → OfDay date season_id (active_rows decimal date season_id previous_date table es)
  unfolding active_rows
  active_rows-OfDay date previous_date table [] = tt
  active_rows-OfDay date previous_date table ((k, activity) ∷ es) =
      ((refl, refl), active_rows-OfDay date previous_date table es)

  carried_rows-OfDay :
      (date : ℕ) (activities : HashMap String (UserDailyActivity D))
      (rows : List (PointsSnapshot D))
      → OfDay date season_id (carried_rows decimal date season_id activities rows)
  unfolding carried_rows
  carried_rows-OfDay date activities [] = tt
  carried_rows-OfDay date activities (row ∷ rows) =
      let rest = carried_rows-OfDay date activities rows in
      elim (get row.address activities)
        as (λ o. OfDay date season_id (elim o [
          | none ↦
              carried_row decimal date season_id row
              ∷ carried_rows decimal date season_id activities rows
          | some a ↦ carried_rows decimal date season_id activities rows
        ])) [ none ↦ ((refl, refl), rest) | some a ↦ rest ]

  -- What a day leaves as the row of a user.
  abbrev pub stored :
      ℕ
      → String
      → Option (UserDailyActivity D)
      → Option (PointsSnapshot D)
      → Option (PointsSnapshot D)
      → Option (PointsSnapshot D)
  stored date a (some activity) previous old =
      some (active_row decimal date season_id previous a activity)
  stored date a none (some previous) old = some (carried_row decimal date season_id previous)
  stored date a none none old = old

  stored_cases :
      (date : ℕ) (a : String) (o : Option (UserDailyActivity D))
      (previous old : Option (PointsSnapshot D))
      → if_carried decimal date season_id o previous
          (if_active decimal date season_id a previous o old)
        ≡ stored date a o previous old
  stored_cases date a (some activity) previous old = refl
  stored_cases date a none (some previous) old = refl
  stored_cases date a none none old = refl

  abbrev pub after_day : ℕ → HashMap String (UserDailyActivity D) → Table D → Table D
  after_day previous_date activities table =
      upsert
        (active_rows decimal (suc previous_date) season_id previous_date table (visit activities)
          ++ carried_rows decimal (suc previous_date) season_id activities
              (get_snapshots_by_date previous_date season_id table))
        table

  fetch_active_rows_ok :
      (answers : Answers D)
      → IsReachable answers
      → (previous_date : ℕ) (table : Table D) (es : List (String × UserDailyActivity D))
      → fetch_active_rows decimal (suc previous_date) season_id answers previous_date es table
        ≡ (ok (active_rows decimal (suc previous_date) season_id previous_date table es), table)
  unfolding fetch_active_rows active_rows
  fetch_active_rows_ok answers reachable previous_date table [] = refl
  fetch_active_rows_ok answers reachable previous_date table ((k, activity) ∷ es) =
      rw (reachable.snapshot_answered activity.address previous_date season_id)
        (rw (fetch_active_rows_ok answers reachable previous_date table es) refl)

  insert_snapshots_ok :
      (answers : Answers D)
      → IsReachable answers
      → (rows : List (PointsSnapshot D)) (table : Table D)
      → insert_snapshots answers rows table ≡ (ok tt, upsert rows table)
  unfolding upsert
  insert_snapshots_ok answers reachable [] table = refl
  insert_snapshots_ok answers reachable (row ∷ rows) table =
      rw (reachable.rows_answered (row ∷ rows)) refl

  pub store_snapshots_ok :
      (answers : Answers D)
      → IsReachable answers
      → (previous_date : ℕ) (activities : HashMap String (UserDailyActivity D)) (table : Table D)
      → store_snapshots decimal (suc previous_date) season_id answers visit activities table
        ≡ (ok tt, after_day previous_date activities table)
  unfolding store_snapshots
  store_snapshots_ok answers reachable previous_date activities table =
      rw (fetch_active_rows_ok answers reachable previous_date table (visit activities)) (
        rw (reachable.date_answered previous_date season_id)
          (insert_snapshots_ok answers reachable _ table))

  pub after_day-stored :
      (previous_date : ℕ) (activities : HashMap String (UserDailyActivity D)) (table : Table D)
      (a : String)
      → IsDistinct activities
      → IsKeyed activities
      → IsTable table
      → get_snapshot a (suc previous_date) season_id (after_day previous_date activities table)
        ≡ stored
            (suc previous_date)
            a
            (get a activities)
            (get_snapshot a previous_date season_id table)
            (get_snapshot a (suc previous_date) season_id table)
  unfolding get_snapshot
  after_day-stored previous_date activities table a d keyed h =
      let date = suc previous_date in
      let key : RowKey = ((a, date), season_id) in
      let previous = get_snapshot a previous_date season_id table in
      let old = get_snapshot a date season_id table in
      let active = active_rows decimal date season_id previous_date table (visit activities) in
      let carried =
        carried_rows decimal date season_id activities
          (get_snapshots_by_date previous_date season_id table) in
      let (d', same) = visits activities d in
      get-upsert key (active ++ carried) table
      ∙ last_row-append key active carried (get key table)
      ∙ ap (last_row key carried) (
          last_row-active_rows decimal date season_id a previous_date table (visit activities)
            (get key table) d' (λ k b inside. keyed k b ((same (k, b)).0 inside)))
      ∙ last_row-carried_rows decimal date season_id a previous_date activities table _ h
      ∙ ap
          (λ o.
            if_carried decimal date season_id (get a activities) previous
              (if_active decimal date season_id a previous o old))
          (get-visit visit visits a activities d)
      ∙ stored_cases date a (get a activities) previous old

  pub after_day-other :
      (previous_date : ℕ) (activities : HashMap String (UserDailyActivity D)) (table : Table D)
      (a : String) (e t : ℕ)
      → (e ≢ suc previous_date) ⊎ (t ≢ season_id)
      → get_snapshot a e t (after_day previous_date activities table) ≡ get_snapshot a e t table
  unfolding get_snapshot
  after_day-other previous_date activities table a e t other =
      get-upsert ((a, e), t) _ table
      ∙ last_row-other a e t (suc previous_date) season_id _ (get ((a, e), t) table) other (
          OfDay-append (suc previous_date) _ _
            (active_rows-OfDay (suc previous_date) previous_date table (visit activities))
            (carried_rows-OfDay (suc previous_date) activities
              (get_snapshots_by_date previous_date season_id table)))
