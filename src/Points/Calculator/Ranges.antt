-- ===== src/Points/Calculator/Ranges.antt =====
-- The totals over a range of days: `calculate_points_for_range` of
-- examples/linx-indexer/src/services/points_calculator_service.rs.
use linx_app_backend.Base.{
  ℕ, zero, suc, ◌+◌, ◌-◌, ◌<◌, ◌≤◌, true, false, Option, some, none, String, ◌≡◌, refl, ap, ◌∙◌,
  subst, inl, arith, leb, ltb, if◌then◌else◌,
}
use linx_app_backend.Base.Equality.{string_eq}
use linx_app_backend.Base.HashMap.{HashMap, VisitsAll, get}
use linx_app_backend.Base.I32.{add_i32}
use linx_app_backend.Base.Outcome.{ok, err, message, ◌>>=◌ as and_then}
use linx_app_backend.Base.Action.{bind_outcome, ◌>>=◌, ◌>>◌, lift, pure}
use linx_app_backend.Points.Activity.{Arithmetic, UserDailyActivity}
use linx_app_backend.Points.Sources.{PointsSources, succ_opt}
use linx_app_backend.Points.Snapshots.{
  PointsSnapshot, Table, get_snapshot, total_or_zero, store_snapshots,
}
use linx_app_backend.Points.Snapshots.Stored.{IsTable}
use linx_app_backend.Points.Snapshots.Totals.{
  stored, after_day, store_snapshots_ok, after_day-stored, after_day-other, upsert-IsTable,
  IsReachable,
}
use linx_app_backend.Points.Calculator.WellFormed.{activities_of-WellFormed}
use linx_app_backend.Points.Calculator.{
  Surroundings, active, activities_of, calculate_points_for_date, points_from,
  calculate_points_for_range,
}

module _ {D : Type 0} where
  -- What a day adds to the total of a user.
  abbrev pub add_today : ℕ → Option (UserDailyActivity D) → ℕ
  add_today total none = total
  add_today total (some activity) =
      add_i32 (add_i32 total activity.base_points_total) activity.referral_points

  abbrev pub sum_days : String → (ℕ → HashMap String (UserDailyActivity D)) → ℕ → ℕ → ℕ → ℕ
  sum_days a activities previous zero total = total
  sum_days a activities previous (suc n) total =
      sum_days a activities (suc previous) n (add_today total (get a (activities (suc previous))))

module _ {D : Type 0} (decimal : Arithmetic D) (sources : PointsSources D) (visits : Surroundings D)
    (visits_all : VisitsAll visits.visit_activities) (reachable : IsReachable visits.answers)
    (season_id : ℕ) (season : sources.get_active_season ≡ ok (some season_id)) where
  abbrev store_day : ℕ → HashMap String (UserDailyActivity D) → Table D → Table D
  store_day = after_day decimal season_id visits.visit_activities visits_all

  calculated_day :
      (previous : ℕ) (activities : HashMap String (UserDailyActivity D)) (table : Table D)
      → activities_of decimal sources visits (suc previous) ≡ ok activities
      → calculate_points_for_date decimal sources visits (suc previous) table
        ≡ (ok tt, store_day previous activities table)
  unfolding calculate_points_for_date
  calculated_day previous activities table known =
      ap
        (λ r.
          bind_outcome (and_then r (active decimal sources visits), table)
            (λ id s.
              bind_outcome (activities_of decimal sources visits (suc previous), s)
                (store_snapshots decimal (suc previous) id visits.answers visits.visit_activities)))
        season
      ∙ ap
          (λ r.
            bind_outcome (r, table)
              (store_snapshots decimal (suc previous) season_id visits.answers
                visits.visit_activities))
          known
      ∙ store_snapshots_ok decimal season_id visits.visit_activities visits_all visits.answers
          reachable previous activities table

  stored_total :
      (date : ℕ) (a : String) (o : Option (UserDailyActivity D))
      (previous : Option (PointsSnapshot D))
      → total_or_zero
          (stored decimal season_id visits.visit_activities visits_all date a o previous none)
        ≡ add_today (total_or_zero previous) o
  stored_total date a (some activity) previous = refl
  stored_total date a none (some previous) = refl
  stored_total date a none none = refl

  module _ (activities : ℕ → HashMap String (UserDailyActivity D)) where
    -- The days after `previous` can be calculated, and give maps of activities.
    abbrev pub Known : ℕ → ℕ → Type 0
    Known previous n =
        (d : ℕ)
        → previous < d
        → d ≤ previous + n
        → activities_of decimal sources visits d ≡ ok (activities d)

    -- No row of the season is later than `previous`.
    abbrev pub IsLatest : ℕ → Table D → Type 0
    IsLatest previous table =
        (a : String) (d : ℕ) → previous < d → get_snapshot a d season_id table ≡ none

    -- One turn of the loop.
    one_day :
        (n previous end : ℕ) (today : HashMap String (UserDailyActivity D)) (table : Table D)
        → activities_of decimal sources visits (suc previous) ≡ ok today
        → leb (suc previous) end ≡ true
        → ltb (suc previous) sources.last_day ≡ true
        → points_from decimal sources visits (suc (suc n)) (suc previous) end table
          ≡ points_from decimal sources visits
              (suc n)
              (suc (suc previous))
              end
              (store_day previous today table)
    unfolding points_from
    one_day n previous end today table known inside more =
        let rest = λ (next : ℕ). points_from decimal sources visits (suc n) next end in
        ap
          (λ b.
            (if b
                then (calculate_points_for_date decimal sources visits (suc previous)
                    >> (lift (succ_opt sources.last_day (suc previous)) >>= rest))
                else pure tt)
              table)
          inside
        ∙ ap (λ r. bind_outcome r (λ u. lift (succ_opt sources.last_day (suc previous)) >>= rest))
            (calculated_day previous today table known)
        ∙ ap
            (λ b.
              bind_outcome
                (
                  (if b then ok (suc (suc previous)) else err (message "Failed to get next date")),
                  store_day previous today table,
                )
                rest)
            more

    points_from_totals :
        (n previous : ℕ) (table : Table D)
        → Known previous n
        → previous + n < sources.last_day
        → IsTable table
        → IsLatest previous table
        → (table' : Table D) × (points_from decimal sources visits
              (suc n)
              (suc previous)
              (previous + n)
              table
            ≡ (ok tt, table'))
          × ((a : String)
              → total_or_zero (get_snapshot a (previous + n) season_id table')
                ≡ sum_days a activities previous n
                    (total_or_zero (get_snapshot a previous season_id table)))
    unfolding points_from
    points_from_totals zero previous table known inside h latest =
        let over : leb (suc previous) (previous + 0) ≡ false = ground arith in
        let stay : previous + 0 ≡ previous = omega arith in
        (
          table,
          ap
              (λ b.
                (if b
                    then (calculate_points_for_date decimal sources visits (suc previous)
                        >> (lift (succ_opt sources.last_day (suc previous)) >>= λ next. pure tt))
                    else pure tt)
                  table)
              over,
          λ a. ap (λ d. total_or_zero (get_snapshot a d season_id table)) stay,
        )
    points_from_totals (suc n) previous table known inside h latest =
        let today = activities (suc previous) in
        let known_day = known (suc previous) (omega arith) (omega arith) in
        let (distinct, keyed) =
          activities_of-WellFormed decimal sources visits (suc previous) today known_day in
        let table1 = store_day previous today table in
        let later : IsLatest (suc previous) table1 = λ a d past.
          after_day-other decimal season_id visits.visit_activities visits_all previous today table
            a d season_id (inl (omega arith))
          ∙ latest a d (omega arith) in
        let (table', ran, sums) =
          points_from_totals n (suc previous) table1 (λ d p q. known d (omega arith) (omega arith))
            (omega arith) (upsert-IsTable _ table h) later in
        let end : suc previous + n ≡ previous + suc n = omega arith in
        (
          table',
          one_day n previous (previous + suc n) today table known_day (ground arith) (ground arith)
              ∙ subst
                  (λ e.
                    points_from decimal sources visits (suc n) (suc (suc previous)) e table1
                    ≡ (ok tt, table'))
                  end ran,
          λ a.
              subst
                (λ e.
                  total_or_zero (get_snapshot a e season_id table')
                  ≡ sum_days a activities (suc previous) n
                      (total_or_zero (get_snapshot a (suc previous) season_id table1)))
                end (sums a)
              ∙ ap (sum_days a activities (suc previous) n) (
                  ap total_or_zero (
                    after_day-stored decimal season_id visits.visit_activities visits_all previous
                      today table a distinct keyed h)
                  ∙ ap
                      (λ old. total_or_zero (
                        stored decimal season_id visits.visit_activities visits_all (suc previous) a
                          (get a today) (get_snapshot a previous season_id table) old))
                      (latest a (suc previous) (omega arith))
                  ∙ stored_total (suc previous) a (get a today)
                      (get_snapshot a previous season_id table)),
        )

    -- The database answers, there is an active season, the activities of every day of a range can be
    -- calculated, the calendar goes on after the range, and the table has no rows of the season after
    -- the eve of the first day. Then the range is calculated to its end, and the total of every user at
    -- the end is its total on the eve plus the base and referral points of its activities, day by day.
    pub range_totals :
        (n previous : ℕ) (table : Table D)
        → Known previous n
        → previous + n < sources.last_day
        → IsTable table
        → IsLatest previous table
        → (table' : Table D) × (calculate_points_for_range decimal sources visits
              (suc previous)
              (previous + n)
              table
            ≡ (ok tt, table'))
          × ((a : String)
              → total_or_zero (get_snapshot a (previous + n) season_id table')
                ≡ sum_days a activities previous n
                    (total_or_zero (get_snapshot a previous season_id table)))
    unfolding calculate_points_for_range
    range_totals n previous table known inside h latest =
        let (table', ran, sums) = points_from_totals n previous table known inside h latest in
        let fuel : suc (suc (previous + n) - suc previous) ≡ suc n = omega arith in
        (
          table',
          ap (λ f. points_from decimal sources visits f (suc previous) (previous + n) table) fuel
              ∙ ran,
          sums,
        )

  -- The database answers, there is an active season, and the activities of a day can be calculated.
  -- If a user has a row neither on the day before nor on the day itself (where an award of bonus
  -- points may have put one), the user's total after the day is only what the day adds, whatever total
  -- the user has on earlier days.
  pub missed_day_resets :
      (previous : ℕ) (activities : HashMap String (UserDailyActivity D)) (table : Table D)
      (a : String)
      → activities_of decimal sources visits (suc previous) ≡ ok activities
      → IsTable table
      → get_snapshot a previous season_id table ≡ none
      → get_snapshot a (suc previous) season_id table ≡ none
      → (table' : Table D) × (calculate_points_for_date decimal sources visits (suc previous) table
          ≡ (ok tt, table'))
        × (total_or_zero (get_snapshot a (suc previous) season_id table')
            ≡ add_today 0 (get a activities))
  missed_day_resets previous activities table a known h missing new =
      let (distinct, keyed) =
        activities_of-WellFormed decimal sources visits (suc previous) activities known in
      (
        store_day previous activities table,
        calculated_day previous activities table known,
        ap total_or_zero (
              after_day-stored decimal season_id visits.visit_activities visits_all previous
                activities table a distinct keyed h)
            ∙ ap
                (λ old. total_or_zero (
                  stored decimal season_id visits.visit_activities visits_all (suc previous) a
                    (get a activities) (get_snapshot a previous season_id table) old))
                new
            ∙ stored_total (suc previous) a (get a activities)
                (get_snapshot a previous season_id table)
            ∙ ap (λ p. add_today (total_or_zero p) (get a activities)) missing,
      )
