-- ===== src/Points/Calculator.antt =====
-- examples/linx-indexer/src/services/points_calculator_service.rs: the points of a day and of a range
-- of days, and when the scheduler calculates. The orders in which maps are visited are arguments.
pub mod WellFormed
pub mod Ranges
use linx_app_backend.Base.{
  ℕ, zero, suc, ◌+◌, ◌-◌, Bool, true, false, not, ◌&&◌, ◌||◌, Option, some, none, List, [], ◌∷◌,
  String, ltb, leb, ◌==◌, if◌then◌else◌,
}
use linx_app_backend.Base.HashMap.{HashMap}
use linx_app_backend.Base.Outcome.{Outcome, ok, err, message, ◌>>=◌ as and_then}
use linx_app_backend.Base.Action.{Action, ◌>>=◌, ◌>>◌, lift, pure}
use linx_app_backend.Points.Activity.{
  Arithmetic, UserDailyActivity, finalize_all, apply_multipliers,
}
use linx_app_backend.Points.Sources.{PointsSources, PositionSnapshot, by_action, succ_opt, pred_opt}
use linx_app_backend.Points.Swaps.{calculate_swap_points}
use linx_app_backend.Points.Lending.{calculate_lending_points}
use linx_app_backend.Points.Referrals.{calculate_referral_points}
use linx_app_backend.Points.Snapshots.{Table, store_snapshots, Answers}

-- What a run depends on besides its sources: the orders in which the hash maps are visited, and
-- whether the database answers the statements on snapshots.
pub record Surroundings (D : Type 0) : Type 0 where
  pub visit_volumes : HashMap String D → List (String × D)
  pub visit_users :
      HashMap String (List (PositionSnapshot D)) → List (String × List (PositionSnapshot D))
  pub visit_markets : HashMap String (D × D) → List (String × (D × D))
  pub visit_referrers : HashMap String (List String) → List (String × List String)
  pub visit_activities : HashMap String (UserDailyActivity D) → List (String × UserDailyActivity D)
  pub answers : Answers D

module _ {D : Type 0} (decimal : Arithmetic D) (sources : PointsSources D)
    (visits : Surroundings D) where
  abbrev pub active : Option ℕ → Outcome ℕ
  active none = err (message "No active season found. Cannot calculate points.")
  active (some season_id) = ok season_id

  -- What users did on a day.
  unfoldable pub activities_of : ℕ → Outcome (HashMap String (UserDailyActivity D))
  activities_of date = and_then sources.get_points_config λ configs.
      let points_config = by_action configs [] in
      and_then (calculate_swap_points decimal sources visits.visit_volumes date points_config [])
        λ swapped.
          and_then
            (calculate_lending_points decimal visits.visit_markets visits.visit_users sources date
              points_config swapped)
            λ held. and_then (sources.get_multipliers_by_type "volume") λ multipliers.
              calculate_referral_points decimal visits.visit_referrers sources
                (apply_multipliers decimal multipliers (finalize_all decimal held))

  unfoldable pub calculate_points_for_date : ℕ → Action (Table D) (Unit {0})
  calculate_points_for_date date = lift (and_then sources.get_active_season active) >>= λ season_id.
      lift (activities_of date) >>= λ user_activities.
      store_snapshots decimal date season_id visits.answers visits.visit_activities user_activities

  -- The loop from `current_date`, with fuel for its days.
  unfoldable pub points_from : ℕ → ℕ → ℕ → Action (Table D) (Unit {0})
  points_from zero current_date end_date = pure tt
  points_from (suc fuel) current_date end_date =
      let rest = λ (next : ℕ). points_from fuel next end_date in
      if leb current_date end_date
      then calculate_points_for_date current_date
        >> (lift (succ_opt sources.last_day current_date) >>= rest)
      else pure tt

  unfoldable pub calculate_points_for_range : ℕ → ℕ → Action (Table D) (Unit {0})
  calculate_points_for_range start_date end_date =
      points_from (suc (suc end_date - start_date)) start_date end_date

  -- Whether a tick of the scheduler calculates.
  unfoldable pub should_run : ℕ → ℕ → Option ℕ → ℕ → ℕ → ℕ → Bool
  should_run target_hour target_minute last_run_date current_date current_hour current_minute =
      (ltb target_hour current_hour
        || (current_hour == target_hour && leb target_minute current_minute))
      && elim last_run_date [ none ↦ true | some d ↦ not (d == current_date) ]
