-- ===== src/Points/Lending.antt =====
-- examples/linx-indexer/src/services/points_calculator_service.rs: points for supplying and
-- borrowing, weighted by the time for which the amounts were held.
use linx_app_backend.Base.{
  ℕ, zero, suc, ◌-◌, ◌/◌, Option, some, none, List, [], ◌∷◌, ◌++◌, map, String, leb, ◌==◌,
  if◌then◌else◌,
}
use linx_app_backend.Base.Equality.{string_eq}
use linx_app_backend.Base.HashMap.{HashMap, get, alter, insert, unwrap_or}
use linx_app_backend.Base.Outcome.{Outcome, ok, ◌>>=◌}
use linx_app_backend.Points.Activity.{Arithmetic, UserDailyActivity, new}
use linx_app_backend.Points.Sources.{
  PointsConfig, PointsSources, PositionSnapshot, day_start, succ_opt, micros_per_second,
}

-- `sort_by_key`, which is stable, and `sort` and `dedup` on times.
abbrev insert_by : {A : Type 0} → (A → ℕ) → A → List A → List A
insert_by key a [] = a ∷ []
insert_by key a (x ∷ xs) = if leb (key a) (key x) then a ∷ x ∷ xs else x ∷ insert_by key a xs

unfoldable pub sort_by_key : {A : Type 0} → (A → ℕ) → List A → List A
sort_by_key key [] = []
sort_by_key key (a ∷ as') = insert_by key a (sort_by_key key as')

unfoldable pub dedup : List ℕ → List ℕ
dedup [] = []
dedup (x ∷ []) = x ∷ []
dedup (x ∷ y ∷ ys) = let rest = dedup (y ∷ ys) in if x == y then rest else x ∷ rest

module _ {D : Type 0} where
  unfoldable pub group_by_user :
      List (PositionSnapshot D)
      → HashMap String (List (PositionSnapshot D))
      → HashMap String (List (PositionSnapshot D))
  group_by_user [] groups = groups
  group_by_user (snapshot ∷ snapshots) groups =
      group_by_user snapshots (alter snapshot.address [] (λ l. l ++ snapshot ∷ []) groups)

  -- The snapshots at the start of a period change the states of their markets; the later ones stay.
  unfoldable pub apply_at :
      ℕ
      → List (PositionSnapshot D)
      → HashMap String (D × D)
      → HashMap String (D × D) × List (PositionSnapshot D)
  apply_at period_start [] states = (states, [])
  apply_at period_start (snap ∷ snaps) states =
      let states' = insert snap.market_id (snap.supply_amount_usd, snap.borrow_amount_usd) states in
      let rest = apply_at period_start snaps states' in
      if snap.timestamp == period_start then rest else (states, snap ∷ snaps)

-- Dollar-seconds, and the volumes of the activity.
pub record Held (D : Type 0) : Type 0 where
  pub supply_usd_seconds : D
  pub borrow_usd_seconds : D
  pub supply_volume_usd : D
  pub borrow_volume_usd : D

module _ {D : Type 0} (decimal : Arithmetic D) where
  -- The sums over all markets, in the order in which the map gives its values.
  unfoldable pub totals : List (String × (D × D)) → D → D → D × D
  totals [] supply borrow = (supply, borrow)
  totals ((market, (s, b)) ∷ states) supply borrow =
      totals states (decimal.plus supply s) (decimal.plus borrow b)

  -- A period, unless it takes less than a second.
  unfoldable pub add_period : ℕ → D → D → Held D → Held D
  add_period zero supply borrow held = held
  add_period (suc seconds) supply borrow held =
      let duration = decimal.from_u64 (suc seconds) in
      record {
        supply_usd_seconds = decimal.plus held.supply_usd_seconds (decimal.times supply duration);
        borrow_usd_seconds = decimal.plus held.borrow_usd_seconds (decimal.times borrow duration);
        supply_volume_usd = decimal.plus held.supply_volume_usd supply;
        borrow_volume_usd = decimal.plus held.borrow_volume_usd borrow;
      }

  module _ (visit : HashMap String (D × D) → List (String × (D × D))) where
    unfoldable pub hold :
        List ℕ → List (PositionSnapshot D) → HashMap String (D × D) → Held D → Held D
    hold [] snapshots states held = held
    hold (period_start ∷ []) snapshots states held = held
    hold (period_start ∷ period_end ∷ timestamps) snapshots states held =
        let (states', later) = apply_at period_start snapshots states in
        let (supply, borrow) = totals (visit states') decimal.zero_amount decimal.zero_amount in
        let duration_seconds = (period_end - period_start) / micros_per_second in
        hold (period_end ∷ timestamps) later states'
          (add_period duration_seconds supply borrow held)

    abbrev pub held_on : ℕ → List (PositionSnapshot D) → UserDailyActivity D → Held D
    held_on day_end snapshots activity =
        let sorted = sort_by_key (λ s. s.timestamp) snapshots in
        let timestamps =
          dedup (sort_by_key (λ t. t) (map (λ s. s.timestamp) sorted)) ++ day_end ∷ [] in
        hold timestamps sorted [] (record {
          supply_usd_seconds = decimal.zero_amount;
          borrow_usd_seconds = decimal.zero_amount;
          supply_volume_usd = activity.supply_volume_usd;
          borrow_volume_usd = activity.borrow_volume_usd;
        })

    -- Points of dollar-seconds; the points stay as they are when there are none.
    abbrev pub points_of : D → D → ℕ → ℕ
    points_of usd_seconds per_second points =
        if decimal.is_zero usd_seconds
        then points
        else unwrap_or 0 (decimal.to_i32 (decimal.round (decimal.times usd_seconds per_second)))

    unfoldable pub with_positions :
        D → D → ℕ → List (PositionSnapshot D) → UserDailyActivity D → UserDailyActivity D
    with_positions supply_per_second borrow_per_second day_end snapshots activity =
        let held = held_on day_end snapshots activity in
        record activity {
          supply_volume_usd = held.supply_volume_usd;
          borrow_volume_usd = held.borrow_volume_usd;
          supply_points =
              points_of held.supply_usd_seconds supply_per_second activity.supply_points;
          borrow_points =
              points_of held.borrow_usd_seconds borrow_per_second activity.borrow_points;
        }

    unfoldable pub set_positions :
        D
        → D
        → ℕ
        → List (String × List (PositionSnapshot D))
        → HashMap String (UserDailyActivity D)
        → HashMap String (UserDailyActivity D)
    set_positions supply_per_second borrow_per_second day_end [] activities = activities
    set_positions supply_per_second borrow_per_second day_end ((address, snapshots) ∷ groups)
          activities =
        set_positions supply_per_second borrow_per_second day_end groups (
          alter address (new decimal address)
            (with_positions supply_per_second borrow_per_second day_end snapshots) activities)

    abbrev pub daily_rate : Option (PointsConfig D) → Option D
    daily_rate none = none
    daily_rate (some config) = config.points_per_usd_per_day

    abbrev pub per_second : D → D
    per_second per_day = decimal.divide per_day (decimal.from_u64 86400)

    abbrev pub positions_at_rates :
        (HashMap String (List (PositionSnapshot D)) → List (String × List (PositionSnapshot D)))
        → PointsSources D
        → ℕ
        → Option D
        → Option D
        → HashMap String (UserDailyActivity D)
        → Outcome (HashMap String (UserDailyActivity D))
    positions_at_rates visit_users sources date none borrow activities = ok activities
    positions_at_rates visit_users sources date (some supply) none activities = ok activities
    positions_at_rates visit_users sources date (some supply) (some borrow) activities =
        succ_opt sources.last_day date >>= λ next.
        sources.get_position_snapshots_in_period (day_start date) (day_start next) >>= λ snapshots.
        ok (
          set_positions (per_second supply) (per_second borrow) (day_start next)
            (visit_users (group_by_user snapshots [])) activities)

    unfoldable pub calculate_lending_points :
        (HashMap String (List (PositionSnapshot D)) → List (String × List (PositionSnapshot D)))
        → PointsSources D
        → ℕ
        → HashMap String (PointsConfig D)
        → HashMap String (UserDailyActivity D)
        → Outcome (HashMap String (UserDailyActivity D))
    calculate_lending_points visit_users sources date points_config activities =
        positions_at_rates visit_users sources date (daily_rate (get "supply" points_config))
          (daily_rate (get "borrow" points_config)) activities
