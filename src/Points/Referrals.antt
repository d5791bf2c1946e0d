-- ===== src/Points/Referrals.antt =====
-- examples/linx-indexer/src/services/points_calculator_service.rs: points for referrals.
pub mod Earned
use linx_app_backend.Base.{
  ℕ, Bool, ◌||◌, Option, some, none, List, [], ◌∷◌, ◌++◌, String, if◌then◌else◌,
}
use linx_app_backend.Base.Equality.{string_eq}
use linx_app_backend.Base.HashMap.{HashMap, get, alter, unwrap_or}
use linx_app_backend.Base.I32.{add_i32, is_positive}
use linx_app_backend.Base.Outcome.{Outcome, ok, ◌>>=◌}
use linx_app_backend.Points.Activity.{Arithmetic, UserDailyActivity, new}
use linx_app_backend.Points.Sources.{PointsSources, UserReferral}

unfoldable pub by_referrer :
    List UserReferral → HashMap String (List String) → HashMap String (List String)
by_referrer [] groups = groups
by_referrer (referral ∷ referrals) groups =
    by_referrer referrals
      (alter referral.referred_by_address [] (λ l. l ++ referral.user_address ∷ []) groups)

module _ {D : Type 0} where
  abbrev pub has_activity : UserDailyActivity D → Bool
  has_activity activity =
      is_positive activity.swap_points
      || is_positive activity.supply_points
      || is_positive activity.borrow_points

  -- The points of a referred user that count.
  abbrev pub counted_points : Option (UserDailyActivity D) → ℕ
  counted_points none = 0
  counted_points (some activity) = if has_activity activity then activity.base_points_total else 0

  unfoldable pub total_referred : List String → HashMap String (UserDailyActivity D) → ℕ → ℕ
  total_referred [] activities total = total
  total_referred (user ∷ users) activities total =
      total_referred users activities (add_i32 total (counted_points (get user activities)))

module _ {D : Type 0} (decimal : Arithmetic D) where
  abbrev pub referral_share : D → ℕ → ℕ
  referral_share percentage total_referred_points = unwrap_or 0 (
      decimal.to_i32
        (decimal.round (decimal.times (decimal.from_i32 total_referred_points) percentage)))

  abbrev pub with_referrals : ℕ → UserDailyActivity D → UserDailyActivity D
  with_referrals points activity = record activity {
    referral_points = add_i32 activity.referral_points points;
  }

  unfoldable pub add_referrals :
      D
      → List (String × List String)
      → HashMap String (UserDailyActivity D)
      → HashMap String (UserDailyActivity D)
  add_referrals percentage [] activities = activities
  add_referrals percentage ((referrer, users) ∷ groups) activities =
      let points = referral_share percentage (total_referred users activities 0) in
      add_referrals percentage groups
        (alter referrer (new decimal referrer) (with_referrals points) activities)

  unfoldable pub calculate_referral_points :
      (HashMap String (List String) → List (String × List String))
      → PointsSources D
      → HashMap String (UserDailyActivity D)
      → Outcome (HashMap String (UserDailyActivity D))
  calculate_referral_points visit sources activities = sources.referral_percentage >>= λ percentage.
      sources.get_all_user_referrals >>= λ all_referrals.
      ok (add_referrals percentage (visit (by_referrer all_referrals [])) activities)
