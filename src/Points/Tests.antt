-- ===== src/Points/Tests.antt =====
-- The points calculator (examples/linx-indexer/src/services/points_calculator_service.rs) on small
-- inputs, and the theorems at concrete inputs. A decimal is a natural number.
use linx_app_backend.Points.Snapshots.Totals.{IsReachable}
use linx_app_backend.Base.{
  ℕ, ◌+◌, ◌<◌, ◌≤◌, true, some, none, [], ◌∷◌, String, ◌≡◌, refl, subst, ◌⊎◌, inl, inr, arith, In,
}
use linx_app_backend.Base.Equality.{string_eq, nat_eq, pair_eq}
use linx_app_backend.Base.HashMap.{HashMap, VisitsAll, get, alter, IsDistinct}
use linx_app_backend.Base.Outcome.{ok}
use linx_app_backend.Points.Samples.{decimal}
use linx_app_backend.Points.Activity.{
  UserDailyActivity, PointsMultiplier, best_multiplier, apply_multipliers, finalize,
}
use linx_app_backend.Points.Activity.Multipliers.{IsOrder, IsBest, best_multiplier-IsBest}
use linx_app_backend.Points.Sources.{
  PointsSources, PointsConfig, SwapTransaction, UserReferral, by_action,
}
use linx_app_backend.Points.Swaps.{swap_rate, set_swaps, swap_volumes, calculate_swap_points}
use linx_app_backend.Points.Swaps.Earned.{swapped, volume_of, swap_points_earned}
use linx_app_backend.Points.Lending.{calculate_lending_points}
use linx_app_backend.Points.Referrals.{calculate_referral_points, add_referrals, by_referrer}
use linx_app_backend.Points.Referrals.Earned.{referred_by, rewarded, referral_points_earned}
use linx_app_backend.Points.Snapshots.{Table, get_snapshot, total_or_zero, Answers}
use linx_app_backend.Points.Snapshots.Stored.{IsTable}
use linx_app_backend.Points.Calculator.{
  Surroundings, activities_of, calculate_points_for_date, calculate_points_for_range,
}
use linx_app_backend.Points.Calculator.Ranges.{add_today, sum_days, range_totals, missed_day_resets}

decimal-IsOrder : IsOrder decimal
decimal-IsOrder = record {
  transitive = λ a b c p q. ground arith;
  reflexive = λ a. ground arith;
  greater_at_least = λ a b p. ground arith;
  not_greater = λ a b p. ground arith;
}

abbrev multiplier_at : ℕ → PointsMultiplier ℕ
multiplier_at threshold = record {
  id = threshold;
  multiplier_type = "volume";
  threshold_value = threshold;
  multiplier = 1;
  is_active = true;
}

best_multiplier-IsBest_example :
    IsBest decimal decimal-IsOrder 7
      (λ x. In x (multiplier_at 5 ∷ multiplier_at 9 ∷ multiplier_at 2 ∷ []))
      (best_multiplier decimal 7 (multiplier_at 5 ∷ multiplier_at 9 ∷ multiplier_at 2 ∷ []) none)
best_multiplier-IsBest_example =
    best_multiplier-IsBest decimal decimal-IsOrder 7
      (multiplier_at 5 ∷ multiplier_at 9 ∷ multiplier_at 2 ∷ [])

-- Alice swaps 5 tokens, each worth 3, on every day; a swap earns 2 points per dollar.
abbrev alice_swaps : SwapTransaction ℕ
alice_swaps = record {
  address = "alice";
  tx_id = "t";
  token_in = "usdt";
  token_out = "alph";
  amount_in = 5;
  amount_out = 1;
  pool_address = "pool";
  hop_count = 1;
}

abbrev swap_config : PointsConfig ℕ
swap_config = record {
  id = 1;
  action_type = "swap";
  points_per_usd = some 2;
  points_per_usd_per_day = none;
  is_active = true;
}

abbrev sources : PointsSources ℕ
sources = record {
  last_day = 100;
  referral_percentage = ok 0;
  get_active_season = ok (some 1);
  get_points_config = ok (swap_config ∷ []);
  get_multipliers_by_type = λ t. ok [];
  get_all_user_referrals = ok [];
  get_linx_swaps_in_period = λ start end. ok (alice_swaps ∷ []);
  get_position_snapshots_in_period = λ start end. ok [];
  get_token_info = λ token. some (record {
    id = token;
    name = "";
    symbol = "";
    decimals = 0;
    description = "";
    logo_uri = "";
  });
  get_token_price = λ token. some 3;
}

abbrev reachable : Answers ℕ
reachable = record {
  for_snapshot = λ a date id. ok tt;
  for_date = λ date id. ok tt;
  for_rows = λ rows. ok tt;
}

answered : IsReachable reachable
answered = record {
  snapshot_answered = λ a date id. refl;
  date_answered = λ date id. refl;
  rows_answered = λ rows. refl;
}

abbrev visits : Surroundings ℕ
visits = record {
  visit_volumes = λ m. m;
  visit_users = λ m. m;
  visit_markets = λ m. m;
  visit_referrers = λ m. m;
  visit_activities = λ m. m;
  answers = reachable;
}

listed-VisitsAll : {V : Type 0} → VisitsAll {K = String} {V = V} (λ m. m)
listed-VisitsAll m d = (d, λ x. (λ i. i, λ i. i))

abbrev swap_configs : HashMap String (PointsConfig ℕ)
swap_configs = ("swap", swap_config) ∷ []

abbrev nobody : HashMap String (UserDailyActivity ℕ)
nobody = []

swaps_rated : swap_rate decimal sources (get "swap" swap_configs) ≡ some 2
unfolding get
swaps_rated = refl

swap_points_earned_example :
    (out : HashMap String (UserDailyActivity ℕ)) × (calculate_swap_points decimal sources
        (λ m. m)
        5
        swap_configs
        nobody
      ≡ ok out)
    × ((a : String)
        → get a out
          ≡ swapped decimal sources 2 a
              (volume_of decimal sources a (alice_swaps ∷ []))
              (get a nobody))
swap_points_earned_example =
    swap_points_earned decimal sources (λ m. m) listed-VisitsAll 5 swap_configs 2 (alice_swaps ∷ [])
      nobody swaps_rated refl refl

-- What a day gives.
abbrev alice_day : HashMap String (UserDailyActivity ℕ)
alice_day =
    (
      "alice",
      record {
        address = "alice";
        swap_points = 30;
        swap_volume_usd = 15;
        supply_points = 0;
        supply_volume_usd = 0;
        borrow_points = 0;
        borrow_volume_usd = 0;
        base_points_total = 30;
        referral_points = 0;
        total_volume_usd = 15;
      },
    )
    ∷ []

day_five : activities_of decimal sources visits 5 ≡ ok alice_day
unfolding activities_of calculate_swap_points get by_action alter calculate_lending_points
    calculate_referral_points add_referrals by_referrer apply_multipliers set_swaps swap_volumes
    best_multiplier finalize
day_five = refl

day_six : activities_of decimal sources visits 6 ≡ ok alice_day
unfolding activities_of calculate_swap_points get by_action alter calculate_lending_points
    calculate_referral_points add_referrals by_referrer apply_multipliers set_swaps swap_volumes
    best_multiplier finalize
day_six = refl

-- An empty table.
abbrev no_rows : Table ℕ
no_rows = []

no_rows-IsTable : IsTable no_rows
unfolding IsDistinct
no_rows-IsTable = (tt, λ k row i. elim i [ ])

no_row : (a : String) (d : ℕ) → get_snapshot a d 1 no_rows ≡ none
unfolding get_snapshot get
no_row a d = refl

two_days : (d : ℕ) → 4 < d → d ≤ 4 + 2 → activities_of decimal sources visits d ≡ ok alice_day
two_days d p q =
    let cases : (5 ≡ d) ⊎ (6 ≡ d) = ground arith in
    elim cases [
      | inl e ↦ subst (λ d. activities_of decimal sources visits d ≡ ok alice_day) e day_five
      | inr e ↦ subst (λ d. activities_of decimal sources visits d ≡ ok alice_day) e day_six
    ]

range_totals_example :
    (table' : Table ℕ) × (calculate_points_for_range decimal sources visits 5 6 no_rows
      ≡ (ok tt, table'))
    × ((a : String)
        → total_or_zero (get_snapshot a 6 1 table')
          ≡ sum_days a (λ d. alice_day) 4 2 (total_or_zero (get_snapshot a 4 1 no_rows)))
range_totals_example =
    range_totals decimal sources visits listed-VisitsAll answered 1 refl (λ d. alice_day) 2 4
      no_rows two_days (omega arith) no_rows-IsTable (λ a d later. no_row a d)

missed_day_resets_example :
    (table' : Table ℕ) × (calculate_points_for_date decimal sources visits 5 no_rows
      ≡ (ok tt, table'))
    × (total_or_zero (get_snapshot "alice" 5 1 table') ≡ add_today 0 (get "alice" alice_day))
missed_day_resets_example =
    missed_day_resets decimal sources visits listed-VisitsAll answered 1 refl 4 alice_day no_rows
      "alice" day_five no_rows-IsTable (no_row "alice" 4) (no_row "alice" 5)

-- Bob referred Alice, whose day counts for him.
abbrev referral : UserReferral
referral = record { id = 1; user_address = "alice"; referred_by_address = "bob" }

abbrev referring : PointsSources ℕ
referring = record sources {
  referral_percentage = ok 2;
  get_all_user_referrals = ok (referral ∷ []);
}

referral_points_earned_example :
    (out : HashMap String (UserDailyActivity ℕ)) × (calculate_referral_points decimal
        (λ m. m)
        referring
        alice_day
      ≡ ok out)
    × ((a : String)
        → get a out
          ≡ rewarded decimal 2 alice_day a (referred_by a (referral ∷ []) none) (get a alice_day))
referral_points_earned_example =
    referral_points_earned decimal referring (λ m. m) listed-VisitsAll 2 (referral ∷ []) alice_day
      refl refl
