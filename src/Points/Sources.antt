-- ===== src/Points/Sources.antt =====
-- What the points calculator (examples/linx-indexer/src/services/points_calculator_service.rs) asks
-- of the repositories and of the price service, and the calendar. An optional answer is one that may
-- be an error, where the program goes on without it.
use linx_app_backend.Base.{
  ℕ, zero, suc, ◌*◌, ◌^◌, ◌%◌, Bool, Option, List, [], ◌∷◌, String, ltb, if◌then◌else◌,
}
use linx_app_backend.Base.HashMap.{HashMap, insert}
use linx_app_backend.Base.Equality.{string_eq}
use linx_app_backend.Base.Outcome.{Outcome, ok, err, message}
use linx_app_backend.Base.U64.{u64_mod}
use linx_app_backend.Points.Activity.{Arithmetic, PointsMultiplier}

pub record PointsConfig (D : Type 0) : Type 0 where
  pub id : ℕ
  pub action_type : String
  pub points_per_usd : Option D
  pub points_per_usd_per_day : Option D
  pub is_active : Bool

pub record SwapTransaction (D : Type 0) : Type 0 where
  pub address : String
  pub tx_id : String
  pub token_in : String
  pub token_out : String
  pub amount_in : D
  pub amount_out : D
  pub pool_address : String
  pub hop_count : ℕ

-- Without the price, which is taken from `get_token_price`.
pub record TokenInfo : Type 0 where
  pub id : String
  pub name : String
  pub symbol : String
  pub decimals : ℕ
  pub description : String
  pub logo_uri : String

-- Times are numbers of microseconds since the day 0, days those of a calendar with a last day.
pub record PositionSnapshot (D : Type 0) : Type 0 where
  pub id : ℕ
  pub address : String
  pub market_id : String
  pub supply_amount : D
  pub supply_amount_usd : D
  pub timestamp : ℕ
  pub borrow_amount : D
  pub borrow_amount_usd : D
  pub collateral_amount : D
  pub collateral_amount_usd : D

pub record UserReferral : Type 0 where
  pub id : ℕ
  pub user_address : String
  pub referred_by_address : String

abbrev pub micros_per_second : ℕ
micros_per_second = 1000000

abbrev pub day_start : ℕ → ℕ
day_start date = date * 86400 * micros_per_second

-- `NaiveDate::succ_opt` and `pred_opt`, where nothing is the error of `.context(…)`.
abbrev pub succ_opt : ℕ → ℕ → Outcome ℕ
succ_opt last_day date =
    if ltb date last_day then ok (suc date) else err (message "Failed to get next date")

abbrev pub pred_opt : ℕ → Outcome ℕ
pred_opt zero = err (message "Failed to get previous date")
pred_opt (suc date) = ok date

pub record PointsSources (D : Type 0) : Type 0 where
  pub last_day : ℕ
  pub referral_percentage : Outcome D
  pub get_active_season : Outcome (Option ℕ)
  pub get_points_config : Outcome (List (PointsConfig D))
  pub get_multipliers_by_type : String → Outcome (List (PointsMultiplier D))
  pub get_all_user_referrals : Outcome (List UserReferral)
  pub get_linx_swaps_in_period : ℕ → ℕ → Outcome (List (SwapTransaction D))
  pub get_position_snapshots_in_period : ℕ → ℕ → Outcome (List (PositionSnapshot D))
  pub get_token_info : String → Option TokenInfo
  pub get_token_price : String → Option D

-- `TokenInfo::convert_to_decimal`
abbrev pub convert_to_decimal : {D : Type 0} → Arithmetic D → TokenInfo → D → D
convert_to_decimal decimal self raw_amount =
    decimal.divide raw_amount (decimal.from_u64 (10 ^ self.decimals % u64_mod))

-- `load_points_config`: by action.
unfoldable pub by_action :
    {D : Type 0}
    → List (PointsConfig D)
    → HashMap String (PointsConfig D)
    → HashMap String (PointsConfig D)
by_action [] m = m
by_action (c ∷ cs) m = by_action cs (insert c.action_type c m)
