-- ===== src/Points/Swaps.antt =====
-- examples/linx-indexer/src/services/points_calculator_service.rs: points for swaps. The order in
-- which the map of volumes is visited is an argument.
pub mod Earned
use linx_app_backend.Base.{ℕ, Option, some, none, List, [], ◌∷◌, String}
use linx_app_backend.Base.Equality.{string_eq}
use linx_app_backend.Base.HashMap.{HashMap, get, alter, add_amount, unwrap_or}
use linx_app_backend.Base.Outcome.{Outcome, ok, ◌>>=◌}
use linx_app_backend.Points.Activity.{Arithmetic, UserDailyActivity, new}
use linx_app_backend.Points.Sources.{
  PointsConfig, PointsSources, SwapTransaction, TokenInfo, convert_to_decimal, day_start, succ_opt,
}

module _ {D : Type 0} (decimal : Arithmetic D) (sources : PointsSources D) where
  -- The value of a swap, unless the token or its price is not to be had.
  abbrev pub swap_value : SwapTransaction D → Option TokenInfo → Option D → Option D
  swap_value swap_tx none price = none
  swap_value swap_tx (some info) none = none
  swap_value swap_tx (some info) (some price) =
      some (decimal.times (convert_to_decimal decimal info swap_tx.amount_in) price)

  abbrev pub amount_usd : SwapTransaction D → Option D
  amount_usd swap_tx =
      swap_value swap_tx (sources.get_token_info swap_tx.token_in)
        (sources.get_token_price swap_tx.token_in)

  abbrev pub add_volume : SwapTransaction D → Option D → HashMap String D → HashMap String D
  add_volume swap_tx none volumes = volumes
  add_volume swap_tx (some usd) volumes =
      add_amount decimal.zero_amount decimal.plus swap_tx.address usd volumes

  unfoldable pub swap_volumes : List (SwapTransaction D) → HashMap String D → HashMap String D
  swap_volumes [] volumes = volumes
  swap_volumes (swap_tx ∷ swaps) volumes =
      swap_volumes swaps (add_volume swap_tx (amount_usd swap_tx) volumes)

  abbrev pub with_swaps : D → D → UserDailyActivity D → UserDailyActivity D
  with_swaps points_per_usd total_volume_usd activity = record activity {
    swap_points =
        unwrap_or 0
          (decimal.to_i32 (decimal.ceiling (decimal.times total_volume_usd points_per_usd)));
    swap_volume_usd = total_volume_usd;
  }

  unfoldable pub set_swaps :
      D
      → List (String × D)
      → HashMap String (UserDailyActivity D)
      → HashMap String (UserDailyActivity D)
  set_swaps points_per_usd [] activities = activities
  set_swaps points_per_usd ((address, volume) ∷ volumes) activities =
      set_swaps points_per_usd volumes
        (alter address (new decimal address) (with_swaps points_per_usd volume) activities)

  abbrev pub swap_rate : Option (PointsConfig D) → Option D
  swap_rate none = none
  swap_rate (some config) = config.points_per_usd

  abbrev pub swaps_at_rate :
      (HashMap String D → List (String × D))
      → ℕ
      → Option D
      → HashMap String (UserDailyActivity D)
      → Outcome (HashMap String (UserDailyActivity D))
  swaps_at_rate visit date none activities = ok activities
  swaps_at_rate visit date (some points_per_usd) activities =
      succ_opt sources.last_day date >>= λ next.
      sources.get_linx_swaps_in_period (day_start date) (day_start next) >>= λ swaps.
      ok (set_swaps points_per_usd (visit (swap_volumes swaps [])) activities)

  unfoldable pub calculate_swap_points :
      (HashMap String D → List (String × D))
      → ℕ
      → HashMap String (PointsConfig D)
      → HashMap String (UserDailyActivity D)
      → Outcome (HashMap String (UserDailyActivity D))
  calculate_swap_points visit date points_config activities =
      swaps_at_rate visit date (swap_rate (get "swap" points_config)) activities
