-- ===== src/Referral/Repository.antt =====
-- The operations of examples/linx-indexer/src/repository/points_repository.rs on referral codes, on
-- who was referred by whom, and the bonus. The database fails only with its connection; the tables of
-- codes and of seasons do not change here.
use linx_app_backend.Base.{
  ℕ, Bool, ◌&&◌, Option, some, none, List, [], ◌∷◌, ◌++◌, String, ltb, ◌==◌, if◌then◌else◌,
}
use linx_app_backend.Base.Equality.{string_eq, nat_eq, pair_eq, eqb}
use linx_app_backend.Base.HashMap.{insert}
use linx_app_backend.Base.I32.{add_i32}
use linx_app_backend.Base.Outcome.{Outcome, ok, err, external}
use linx_app_backend.Base.Action.{Action, query, execute}
use linx_app_backend.Points.Snapshots.{PointsSnapshot, Table, key_of}

pub record NewUserReferral : Type 0 where
  pub user_address : String
  pub referred_by_address : String

pub record ReferralCode : Type 0 where
  pub id : ℕ
  pub code : String
  pub owner_address : String

pub record Season : Type 0 where
  pub id : ℕ
  pub season_number : ℕ
  pub is_active : Bool

pub record Tables (D : Type 0) : Type 0 where
  pub user_referrals : List NewUserReferral
  pub referral_codes : List ReferralCode
  pub seasons : List Season
  pub snapshots : Table D

unfoldable pub find_referral : String → List NewUserReferral → Option NewUserReferral
find_referral user_address [] = none
find_referral user_address (r ∷ rs) =
    if eqb r.user_address user_address then some r else find_referral user_address rs

unfoldable pub find_code : String → List ReferralCode → Option ReferralCode
find_code code [] = none
find_code code (c ∷ cs) = if eqb c.code code then some c else find_code code cs

unfoldable pub find_active : List Season → Option Season
find_active [] = none
find_active (s ∷ ss) = if s.is_active then some s else find_active ss

-- The later of two rows, the first where they are of one day.
abbrev later : {D : Type 0} → PointsSnapshot D → Option (PointsSnapshot D) → PointsSnapshot D
later row none = row
later row (some other) = if ltb row.snapshot_date other.snapshot_date then other else row

unfoldable pub latest_snapshot : {D : Type 0} → String → ℕ → Table D → Option (PointsSnapshot D)
latest_snapshot address season_id [] = none
latest_snapshot address season_id ((key, row) ∷ table) =
    let rest = latest_snapshot address season_id table in
    if eqb row.address address && row.season_id == season_id then some (later row rest) else rest

module _ {D : Type 0} where
  -- The address of the user is unique in the table.
  abbrev pub add_referral :
      NewUserReferral → Option NewUserReferral → Tables D → Outcome (Unit {0}) × Tables D
  add_referral referral none t =
      (ok tt, record t { user_referrals = t.user_referrals ++ referral ∷ [] })
  add_referral referral (some r) t = (err (external "duplicate key"), t)

  abbrev pub with_bonus : ℕ → PointsSnapshot D → PointsSnapshot D
  with_bonus bonus_amount row = record row {
    referral_points = add_i32 row.referral_points bonus_amount;
    total_points = add_i32 row.total_points bonus_amount;
  }

  -- A row of the day before with only the bonus.
  abbrev pub bonus_row : D → String → ℕ → ℕ → ℕ → PointsSnapshot D
  bonus_row zero_amount user_address bonus_amount season_id yesterday = record {
    address = user_address;
    snapshot_date = yesterday;
    swap_points = 0;
    supply_points = 0;
    borrow_points = 0;
    base_points_total = 0;
    multiplier_type = none;
    multiplier_value = zero_amount;
    multiplier_points = 0;
    referral_points = bonus_amount;
    total_points = bonus_amount;
    total_volume_usd = zero_amount;
    season_id = season_id;
  }

  -- The row that holds the bonus afterwards.
  abbrev pub awarded : D → String → ℕ → ℕ → ℕ → Option (PointsSnapshot D) → PointsSnapshot D
  awarded zero_amount user_address bonus_amount season_id yesterday (some row) =
      with_bonus bonus_amount row
  awarded zero_amount user_address bonus_amount season_id yesterday none =
      bonus_row zero_amount user_address bonus_amount season_id yesterday

module _ {D : Type 0} (connection : Outcome (Unit {0})) where
  abbrev pub get_user_referral : String → Action (Tables D) (Option NewUserReferral)
  get_user_referral user_address =
      query connection (λ t. find_referral user_address t.user_referrals)

  abbrev pub get_referral_code : String → Action (Tables D) (Option ReferralCode)
  get_referral_code code = query connection (λ t. find_code code t.referral_codes)

  abbrev pub get_active_season : Action (Tables D) (Option Season)
  get_active_season = query connection (λ t. find_active t.seasons)

  abbrev pub insert_user_referral : NewUserReferral → Action (Tables D) (Unit {0})
  insert_user_referral referral =
      execute connection
        (λ t. add_referral referral (find_referral referral.user_address t.user_referrals) t)

  unfoldable pub award_bonus_points : D → ℕ → String → ℕ → ℕ → Action (Tables D) (Unit {0})
  award_bonus_points zero_amount yesterday user_address bonus_amount season_id =
      execute connection (λ t.
        let row =
          awarded zero_amount user_address bonus_amount season_id yesterday
            (latest_snapshot user_address season_id t.snapshots) in
        (ok tt, record t { snapshots = insert (key_of row) row t.snapshots }))
