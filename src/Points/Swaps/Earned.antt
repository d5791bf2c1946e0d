-- ===== src/Points/Swaps/Earned.antt =====
-- What users earn for swaps in examples/linx-indexer/src/services/points_calculator_service.rs.
use linx_app_backend.Base.{
  ℕ, suc, ltb, true, Option, some, none, List, [], ◌∷◌, String, ◌≡◌, refl, sym, ap, ◌∙◌, subst, inl,
  inr, if◌then◌else◌, Bool-cases, filter_map, optional,
}
use linx_app_backend.Base.Equality.{string_eq, eqb, eqb→eq}
use linx_app_backend.Base.HashMap.{
  HashMap, get, alter, accumulate, total, get-accumulate, accumulate-IsDistinct, IsDistinct,
  unwrap_or, get-alter_same, get-alter_other, VisitsAll, get-visit,
}
use linx_app_backend.Base.Outcome.{ok, err, message, ◌>>=◌}
use linx_app_backend.Points.Activity.{Arithmetic, UserDailyActivity, new}
use linx_app_backend.Points.Sources.{PointsSources, PointsConfig, SwapTransaction, day_start}
use linx_app_backend.Points.Swaps.{
  swap_volumes, add_volume, amount_usd, with_swaps, set_swaps, swap_rate, swaps_at_rate,
  calculate_swap_points,
}

module _ {D : Type 0} (decimal : Arithmetic D) (sources : PointsSources D) where
  abbrev with_address : SwapTransaction D → Option D → Option (String × D)
  with_address swap_tx none = none
  with_address swap_tx (some usd) = some (swap_tx.address, usd)

  -- The values of the swaps that have one, with their users.
  abbrev pub priced : List (SwapTransaction D) → List (String × D)
  priced swaps = filter_map (λ s. with_address s (amount_usd decimal sources s)) swaps

  swap_volumes-priced :
      (swaps : List (SwapTransaction D)) (m : HashMap String D)
      → swap_volumes decimal sources swaps m
        ≡ accumulate decimal.zero_amount decimal.plus (priced swaps) m
  unfolding swap_volumes accumulate
  swap_volumes-priced [] m = refl
  swap_volumes-priced (s ∷ swaps) m =
      swap_volumes-priced swaps _ ∙ add_priced (amount_usd decimal sources s)
    where
      add_priced :
          (o : Option D)
          → accumulate decimal.zero_amount decimal.plus
              (priced swaps)
              (add_volume decimal sources s o m)
            ≡ accumulate decimal.zero_amount decimal.plus
                (optional (with_address s o) (priced swaps))
                m
      add_priced none = refl
      add_priced (some usd) = refl

  -- A user's activity after the swaps of the day.
  abbrev pub swapped :
      D → String → Option D → Option (UserDailyActivity D) → Option (UserDailyActivity D)
  swapped rate a none before = before
  swapped rate a (some volume) before =
      some (with_swaps decimal sources rate volume (unwrap_or (new decimal a) before))

  get-set_swaps :
      (rate : D) (a : String) (es : List (String × D)) (m : HashMap String (UserDailyActivity D))
      → IsDistinct es
      → get a (set_swaps decimal sources rate es m) ≡ swapped rate a (get a es) (get a m)
  unfolding set_swaps get IsDistinct
  get-set_swaps rate a [] m d = refl
  get-set_swaps rate a ((k, v) ∷ es) m (fresh, d) =
      let m' = alter k (new decimal k) (with_swaps decimal sources rate v) m in
      get-set_swaps rate a es m' d ∙ elim (Bool-cases (eqb a k)) [
        | inl t ↦
            let same = eqb→eq a k t in
            let absent : get a es ≡ none = subst (λ x. get x es ≡ none) (sym same) fresh in
            let changed : get a m'
                ≡ some (with_swaps decimal sources rate v (unwrap_or (new decimal a) (get a m))) =
              subst
                (λ x.
                  get x m'
                  ≡ some (with_swaps decimal sources rate v (unwrap_or (new decimal x) (get x m))))
                (sym same)
                (get-alter_same k (new decimal k) (with_swaps decimal sources rate v) m) in
            ap (λ o. swapped rate a o (get a m')) absent
            ∙ changed
            ∙ sym (ap (λ b. swapped rate a (if b then some v else get a es) (get a m)) t)
        | inr f ↦
            ap (λ o. swapped rate a (get a es) o)
              (get-alter_other k a (new decimal k) (with_swaps decimal sources rate v) m f)
            ∙ sym (ap (λ b. swapped rate a (if b then some v else get a es) (get a m)) f)
      ]

  -- The value of all the swaps of a user, if there is one.
  abbrev pub volume_of : String → List (SwapTransaction D) → Option D
  volume_of a swaps = total decimal.zero_amount decimal.plus a (priced swaps) none

  -- If swaps have a rate and those of the day can be read, the calculation succeeds, and it gives
  -- each user with a priced swap the points for the value of all its priced swaps together, and
  -- leaves the activities of the others as they are.
  pub swap_points_earned :
      (visit : HashMap String D → List (String × D))
      → VisitsAll visit
      → (date : ℕ) (configs : HashMap String (PointsConfig D)) (rate : D)
        (swaps : List (SwapTransaction D)) (activities : HashMap String (UserDailyActivity D))
      → swap_rate decimal sources (get "swap" configs) ≡ some rate
      → ltb date sources.last_day ≡ true
      → sources.get_linx_swaps_in_period (day_start date) (day_start (suc date)) ≡ ok swaps
      → (out : HashMap String (UserDailyActivity D)) × (calculate_swap_points decimal sources visit
            date configs activities
          ≡ ok out)
        × ((a : String) → get a out ≡ swapped rate a (volume_of a swaps) (get a activities))
  unfolding calculate_swap_points IsDistinct get
  swap_points_earned visit visits date configs rate swaps activities rated inside read =
      let volumes = swap_volumes decimal sources swaps [] in
      let sums = swap_volumes-priced swaps [] in
      let distinct : IsDistinct volumes =
        subst IsDistinct (sym sums)
          (accumulate-IsDistinct decimal.zero_amount decimal.plus (priced swaps) [] tt) in
      (
        set_swaps decimal sources rate (visit volumes) activities,
        ap (λ r. swaps_at_rate decimal sources visit date r activities) rated
            ∙ ap
                (λ b.
                  (if b then ok (suc date) else err (message "Failed to get next date")) >>= λ next.
                  sources.get_linx_swaps_in_period (day_start date) (day_start next) >>= λ s. ok (
                    set_swaps decimal sources rate (visit (swap_volumes decimal sources s []))
                      activities))
                inside
            ∙ ap
                (λ r. r >>= λ s. ok (
                  set_swaps decimal sources rate (visit (swap_volumes decimal sources s []))
                    activities))
                read,
        λ a.
            get-set_swaps rate a (visit volumes) activities (visits volumes distinct).0
            ∙ ap (λ o. swapped rate a o (get a activities))
                (get-visit visit visits a volumes distinct
                  ∙ ap (get a) sums
                  ∙ get-accumulate decimal.zero_amount decimal.plus a (priced swaps) []),
      )
