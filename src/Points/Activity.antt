-- ===== src/Points/Activity.antt =====
-- examples/linx-indexer/src/services/points_calculator_service.rs: what a user did on a day, its
-- points, and the multiplier for the volume.
pub mod Multipliers
use linx_app_backend.Base.{
  ℕ, Bool, true, false, Option, some, none, List, [], ◌∷◌, String, map, if◌then◌else◌,
}
use linx_app_backend.Base.HashMap.{HashMap, unwrap_or}
use linx_app_backend.Base.I32.{add_i32}

-- `BigDecimal`, as far as the points are computed with it: its constants, `+`, `*`, `/`, `>=`, `>`,
-- `is_zero`, the conversions from integers, rounding to a whole number, and `to_i32`.
pub record Arithmetic (D : Type 0) : Type 0 where
  pub zero_amount : D
  pub plus : D → D → D
  pub times : D → D → D
  pub divide : D → D → D
  pub at_least : D → D → Bool
  pub greater : D → D → Bool
  pub is_zero : D → Bool
  pub from_i32 : ℕ → D
  pub from_u64 : ℕ → D
  pub round : D → D
  pub ceiling : D → D
  pub to_i32 : D → Option ℕ

pub record UserDailyActivity (D : Type 0) : Type 0 where
  pub address : String
  pub swap_points : ℕ
  pub swap_volume_usd : D
  pub supply_points : ℕ
  pub supply_volume_usd : D
  pub borrow_points : ℕ
  pub borrow_volume_usd : D
  pub base_points_total : ℕ
  pub referral_points : ℕ
  pub total_volume_usd : D

pub record PointsMultiplier (D : Type 0) : Type 0 where
  pub id : ℕ
  pub multiplier_type : String
  pub threshold_value : D
  pub multiplier : D
  pub is_active : Bool

module _ {D : Type 0} (decimal : Arithmetic D) where
  -- `UserDailyActivity::new`
  abbrev pub new : String → UserDailyActivity D
  new address = record {
    address = address;
    swap_points = 0;
    swap_volume_usd = decimal.zero_amount;
    supply_points = 0;
    supply_volume_usd = decimal.zero_amount;
    borrow_points = 0;
    borrow_volume_usd = decimal.zero_amount;
    base_points_total = 0;
    referral_points = 0;
    total_volume_usd = decimal.zero_amount;
  }

  unfoldable pub finalize : UserDailyActivity D → UserDailyActivity D
  finalize self = record self {
    base_points_total = add_i32 (add_i32 self.swap_points self.supply_points) self.borrow_points;
    total_volume_usd =
        decimal.plus (decimal.plus self.swap_volume_usd self.supply_volume_usd)
          self.borrow_volume_usd;
  }

  -- The better one of the best multiplier so far and one that applies.
  abbrev pub better : Option (PointsMultiplier D) → PointsMultiplier D → Option (PointsMultiplier D)
  better none m = some m
  better (some best) m =
      if decimal.greater m.threshold_value best.threshold_value then some m else some best

  unfoldable pub best_multiplier :
      D → List (PointsMultiplier D) → Option (PointsMultiplier D) → Option (PointsMultiplier D)
  best_multiplier volume [] best = best
  best_multiplier volume (m ∷ ms) best =
      best_multiplier volume ms
        (if decimal.at_least volume m.threshold_value then better best m else best)

  abbrev pub multiplied : UserDailyActivity D → Option (PointsMultiplier D) → UserDailyActivity D
  multiplied activity none = activity
  multiplied activity (some m) =
      let multiplier_points = unwrap_or 0 (
        decimal.to_i32 (
          decimal.round
            (decimal.times (decimal.from_i32 activity.base_points_total) m.multiplier))) in
      record activity { base_points_total = add_i32 activity.base_points_total multiplier_points }

  abbrev pub map_values :
      (UserDailyActivity D → UserDailyActivity D)
      → HashMap String (UserDailyActivity D)
      → HashMap String (UserDailyActivity D)
  map_values f activities = map (λ e. (e.0, f e.1)) activities

  -- `for activity in user_activities.values_mut() { activity.finalize() }`
  abbrev pub finalize_all :
      HashMap String (UserDailyActivity D) → HashMap String (UserDailyActivity D)
  finalize_all = map_values finalize

  unfoldable pub apply_multipliers :
      List (PointsMultiplier D)
      → HashMap String (UserDailyActivity D)
      → HashMap String (UserDailyActivity D)
  apply_multipliers multipliers activities =
      map_values
        (λ activity.
          multiplied activity (best_multiplier activity.total_volume_usd multipliers none))
        activities
