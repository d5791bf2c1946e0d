-- ===== src/Points/Snapshots.antt =====
-- The daily snapshots of points: `store_snapshots` of
-- examples/linx-indexer/src/services/points_calculator_service.rs, and the three operations of
-- examples/linx-indexer/src/repository/points_repository.rs that it uses. A table is the map of its
-- rows by its unique key: address, date and season.
pub mod Stored
pub mod Totals
use linx_app_backend.Base.{
  ℕ, zero, suc, Bool, true, false, ◌&&◌, Option, some, none, List, [], ◌∷◌, ◌++◌, map, String, ◌==◌,
  filter, if◌then◌else◌,
}
use linx_app_backend.Base.Equality.{string_eq, nat_eq, pair_eq}
use linx_app_backend.Base.HashMap.{HashMap, get, insert}
use linx_app_backend.Base.I32.{add_i32}
use linx_app_backend.Base.Outcome.{Outcome, ok}
use linx_app_backend.Base.Action.{Action, ◌>>=◌, ◌>>◌, lift, pure, query, execute}
use linx_app_backend.Points.Activity.{Arithmetic, UserDailyActivity}
use linx_app_backend.Points.Sources.{pred_opt}

pub record PointsSnapshot (D : Type 0) : Type 0 where
  pub address : String
  pub snapshot_date : ℕ
  pub swap_points : ℕ
  pub supply_points : ℕ
  pub borrow_points : ℕ
  pub base_points_total : ℕ
  pub multiplier_type : Option String
  pub multiplier_value : D
  pub multiplier_points : ℕ
  pub referral_points : ℕ
  pub total_points : ℕ
  pub total_volume_usd : D
  pub season_id : ℕ

-- An address and a date, and a season.
abbrev pub RowKey : Type 0
RowKey = (String × ℕ) × ℕ

abbrev pub Table : Type 0 → Type 0
Table D = HashMap RowKey (PointsSnapshot D)

-- Whether the database answers a statement of a run, by what the statement asks; each is asked once.
-- An error is that of the connection or of the statement.
pub record Answers (D : Type 0) : Type 0 where
  pub for_snapshot : String → ℕ → ℕ → Outcome (Unit {0})
  pub for_date : ℕ → ℕ → Outcome (Unit {0})
  pub for_rows : List (PointsSnapshot D) → Outcome (Unit {0})

module _ {D : Type 0} where
  abbrev pub key_of : PointsSnapshot D → RowKey
  key_of row = ((row.address, row.snapshot_date), row.season_id)

  unfoldable pub get_snapshot : String → ℕ → ℕ → Table D → Option (PointsSnapshot D)
  get_snapshot address date season_id table = get ((address, date), season_id) table

  unfoldable pub get_snapshots_by_date : ℕ → ℕ → Table D → List (PointsSnapshot D)
  get_snapshots_by_date date season_id [] = []
  get_snapshots_by_date date season_id (((((address, row_date), row_season), row)) ∷ table) =
      let rest = get_snapshots_by_date date season_id table in
      if row_date == date && row_season == season_id then row ∷ rest else rest

  -- One statement for all rows, `ON CONFLICT … DO UPDATE` of every column but the key.
  unfoldable pub upsert : List (PointsSnapshot D) → Table D → Table D
  upsert [] table = table
  upsert (row ∷ rows) table = upsert rows (insert (key_of row) row table)

  -- Nothing is asked of the database for no rows.
  abbrev pub insert_snapshots : Answers D → List (PointsSnapshot D) → Action (Table D) (Unit {0})
  insert_snapshots answers [] = pure tt
  insert_snapshots answers (row ∷ rows) =
      execute (answers.for_rows (row ∷ rows)) (λ table. (ok tt, upsert (row ∷ rows) table))

  abbrev pub total_or_zero : Option (PointsSnapshot D) → ℕ
  total_or_zero none = 0
  total_or_zero (some row) = row.total_points

module _ {D : Type 0} (decimal : Arithmetic D) (date season_id : ℕ) where
  -- The row of a user with activity.
  abbrev pub active_row :
      Option (PointsSnapshot D) → String → UserDailyActivity D → PointsSnapshot D
  active_row previous address activity = record {
    address = address;
    snapshot_date = date;
    swap_points = activity.swap_points;
    supply_points = activity.supply_points;
    borrow_points = activity.borrow_points;
    base_points_total = activity.base_points_total;
    multiplier_type = none;
    multiplier_value = decimal.zero_amount;
    multiplier_points = 0;
    referral_points = activity.referral_points;
    total_points =
        add_i32 (add_i32 (total_or_zero previous) activity.base_points_total)
          activity.referral_points;
    total_volume_usd = activity.total_volume_usd;
    season_id = season_id;
  }

  -- The row of a user without.
  abbrev pub carried_row : PointsSnapshot D → PointsSnapshot D
  carried_row previous = record {
    address = previous.address;
    snapshot_date = date;
    swap_points = 0;
    supply_points = 0;
    borrow_points = 0;
    base_points_total = 0;
    multiplier_type = previous.multiplier_type;
    multiplier_value = previous.multiplier_value;
    multiplier_points = 0;
    referral_points = 0;
    total_points = previous.total_points;
    total_volume_usd = decimal.zero_amount;
    season_id = season_id;
  }

  -- What these rows are when the database answers.
  unfoldable pub active_rows :
      ℕ → Table D → List (String × UserDailyActivity D) → List (PointsSnapshot D)
  active_rows previous_date table [] = []
  active_rows previous_date table ((address, activity) ∷ activities) =
      active_row (get_snapshot activity.address previous_date season_id table) activity.address
        activity
      ∷ active_rows previous_date table activities

  unfoldable pub carried_rows :
      HashMap String (UserDailyActivity D) → List (PointsSnapshot D) → List (PointsSnapshot D)
  carried_rows activities [] = []
  carried_rows activities (previous ∷ rows) =
      let rest = carried_rows activities rows in
      elim (get previous.address activities) [ none ↦ carried_row previous ∷ rest | some a ↦ rest ]

  -- The rows of the users with activity, as they are built: each looks up the row of the day before,
  -- and the first error ends the loop.
  unfoldable pub fetch_active_rows :
      Answers D
      → ℕ
      → List (String × UserDailyActivity D)
      → Action (Table D) (List (PointsSnapshot D))
  fetch_active_rows answers previous_date [] = pure []
  fetch_active_rows answers previous_date ((address, activity) ∷ activities) =
      query (answers.for_snapshot activity.address previous_date season_id)
        (get_snapshot activity.address previous_date season_id)
      >>= λ previous. fetch_active_rows answers previous_date activities >>= λ rows.
          pure (active_row previous activity.address activity ∷ rows)

  unfoldable pub store_snapshots :
      Answers D
      → (HashMap String (UserDailyActivity D) → List (String × UserDailyActivity D))
      → HashMap String (UserDailyActivity D)
      → Action (Table D) (Unit {0})
  store_snapshots answers visit activities = lift (pred_opt date) >>= λ previous_date.
      fetch_active_rows answers previous_date (visit activities) >>= λ active.
      query (answers.for_date previous_date season_id)
        (get_snapshots_by_date previous_date season_id)
      >>= λ all_previous. insert_snapshots answers (active ++ carried_rows activities all_previous)
