-- ===== src/Points/Calculator/WellFormed.antt =====
-- The maps of activities that examples/linx-indexer/src/services/points_calculator_service.rs builds
-- hold one activity per user, under the user's address.
use linx_app_backend.Base.{
  ℕ, Option, some, none, List, [], ◌∷◌, String, ◌≡◌, refl, sym, ap, ◌∙◌, subst, inl, inr, arith,
  if◌then◌else◌, Bool-cases, In,
}
use linx_app_backend.Base.Equality.{string_eq, eqb}
use linx_app_backend.Base.HashMap.{HashMap, get, alter, IsDistinct, alter-IsDistinct}
use linx_app_backend.Base.Outcome.{Outcome, ok, bind_ok}
use linx_app_backend.Points.Activity.{
  Arithmetic, UserDailyActivity, PointsMultiplier, new, finalize, multiplied, apply_multipliers,
  map_values,
}
use linx_app_backend.Points.Sources.{PointsSources, PointsConfig, PositionSnapshot, succ_opt}
use linx_app_backend.Points.Swaps.{
  set_swaps, with_swaps, calculate_swap_points, swaps_at_rate, swap_rate,
}
use linx_app_backend.Points.Lending.{
  set_positions, with_positions, calculate_lending_points, positions_at_rates, daily_rate,
}
use linx_app_backend.Points.Referrals.{add_referrals, with_referrals, calculate_referral_points}
use linx_app_backend.Points.Snapshots.Stored.{IsKeyed}
use linx_app_backend.Points.Calculator.{Surroundings, activities_of}

module _ {D : Type 0} where
  abbrev pub WellFormed : HashMap String (UserDailyActivity D) → Type 0
  WellFormed activities = IsDistinct activities × IsKeyed activities

  alter-IsKeyed :
      (k : String) (d : UserDailyActivity D) (f : UserDailyActivity D → UserDailyActivity D)
      (m : HashMap String (UserDailyActivity D))
      → d.address ≡ k
      → ((a : UserDailyActivity D) → (f a).address ≡ a.address)
      → IsKeyed m
      → IsKeyed (alter k d f m)
  unfolding alter
  alter-IsKeyed k d f [] own keeps keyed l a (inl e) =
      ap (λ x. x.1.address) e ∙ keeps d ∙ own ∙ sym (ap (λ x. x.0) e)
  alter-IsKeyed k d f [] own keeps keyed l a (inr h) = elim h [ ]
  alter-IsKeyed k d f ((k', b) ∷ m) own keeps keyed l a h = elim (Bool-cases (eqb k k')) [
    | inl t ↦
        elim (subst (λ c. In (l, a) (if c then (k', f b) ∷ m else (k', b) ∷ alter k d f m)) t h) [
          | inl e ↦
              ap (λ x. x.1.address) e ∙ keeps b ∙ keyed k' b (inl refl) ∙ sym (ap (λ x. x.0) e)
          | inr h' ↦ keyed l a (inr h')
        ]
    | inr n ↦
        elim (subst (λ c. In (l, a) (if c then (k', f b) ∷ m else (k', b) ∷ alter k d f m)) n h) [
          | inl e ↦ keyed l a (inl e)
          | inr h' ↦ alter-IsKeyed k d f m own keeps (λ l a i. keyed l a (inr i)) l a h'
        ]
  ]

  alter-WellFormed :
      (k : String) (d : UserDailyActivity D) (f : UserDailyActivity D → UserDailyActivity D)
      (m : HashMap String (UserDailyActivity D))
      → d.address ≡ k
      → ((a : UserDailyActivity D) → (f a).address ≡ a.address)
      → WellFormed m
      → WellFormed (alter k d f m)
  alter-WellFormed k d f m own keeps (p, q) =
      (alter-IsDistinct k d f m p, alter-IsKeyed k d f m own keeps q)

module _ {D : Type 0} (decimal : Arithmetic D) where
  get-map_values :
      (k : String) (f : UserDailyActivity D → UserDailyActivity D)
      (m : HashMap String (UserDailyActivity D))
      → get k m ≡ none
      → get k (map_values decimal f m) ≡ none
  unfolding get
  get-map_values k f [] h = refl
  get-map_values k f ((k', a) ∷ m) h = elim (Bool-cases (eqb k k')) [
    | inl t ↦ ground arith
    | inr n ↦ let rest = get-map_values k f m (ground arith) in ground arith
  ]

  map_values-IsKeyed :
      (f : UserDailyActivity D → UserDailyActivity D) (k : String) (a : UserDailyActivity D)
      (m : HashMap String (UserDailyActivity D))
      → ((a : UserDailyActivity D) → (f a).address ≡ a.address)
      → a.address ≡ k
      → IsKeyed (map_values decimal f m)
      → IsKeyed (map_values decimal f ((k, a) ∷ m))
  map_values-IsKeyed f k a m keeps own keyed l b (inl e) =
      ap (λ x. x.1.address) e ∙ keeps a ∙ own ∙ sym (ap (λ x. x.0) e)
  map_values-IsKeyed f k a m keeps own keyed l b (inr i) = keyed l b i

  map_values-WellFormed :
      (f : UserDailyActivity D → UserDailyActivity D) (m : HashMap String (UserDailyActivity D))
      → ((a : UserDailyActivity D) → (f a).address ≡ a.address)
      → WellFormed m
      → WellFormed (map_values decimal f m)
  unfolding IsDistinct
  map_values-WellFormed f [] keeps h = (tt, λ k a i. elim i [ ])
  map_values-WellFormed f ((k, a) ∷ m) keeps ((fresh, d), keyed) =
      let (d', keyed') = map_values-WellFormed f m keeps (d, λ l b i. keyed l b (inr i)) in
      (
        (get-map_values k f m fresh, d'),
        map_values-IsKeyed f k a m keeps (keyed k a (inl refl)) keyed',
      )

  finalize_keeps : (a : UserDailyActivity D) → (finalize decimal a).address ≡ a.address
  unfolding finalize
  finalize_keeps a = refl

  multiplied_keeps :
      (a : UserDailyActivity D) (o : Option (PointsMultiplier D))
      → (multiplied decimal a o).address ≡ a.address
  multiplied_keeps a none = refl
  multiplied_keeps a (some m) = refl

  apply_multipliers-WellFormed :
      (ms : List (PointsMultiplier D)) (m : HashMap String (UserDailyActivity D))
      → WellFormed m
      → WellFormed (apply_multipliers decimal ms m)
  unfolding apply_multipliers
  apply_multipliers-WellFormed ms m h = map_values-WellFormed _ m (λ a. multiplied_keeps a _) h

  set_swaps-WellFormed :
      (sources : PointsSources D) (rate : D) (es : List (String × D))
      (m : HashMap String (UserDailyActivity D))
      → WellFormed m
      → WellFormed (set_swaps decimal sources rate es m)
  unfolding set_swaps
  set_swaps-WellFormed sources rate [] m h = h
  set_swaps-WellFormed sources rate ((k, v) ∷ es) m h =
      set_swaps-WellFormed sources rate es _ (
        alter-WellFormed k (new decimal k) (with_swaps decimal sources rate v) m refl (λ a. refl) h)

  set_positions-WellFormed :
      (visit : HashMap String (D × D) → List (String × (D × D))) (supply borrow : D) (day_end : ℕ)
      (es : List (String × List (PositionSnapshot D))) (m : HashMap String (UserDailyActivity D))
      → WellFormed m
      → WellFormed (set_positions decimal visit supply borrow day_end es m)
  unfolding set_positions with_positions
  set_positions-WellFormed visit supply borrow day_end [] m h = h
  set_positions-WellFormed visit supply borrow day_end ((k, l) ∷ es) m h =
      set_positions-WellFormed visit supply borrow day_end es _ (
        alter-WellFormed k (new decimal k) (with_positions decimal visit supply borrow day_end l) m
          refl (λ a. refl) h)

  add_referrals-WellFormed :
      (rate : D) (es : List (String × List String)) (m : HashMap String (UserDailyActivity D))
      → WellFormed m
      → WellFormed (add_referrals decimal rate es m)
  unfolding add_referrals
  add_referrals-WellFormed rate [] m h = h
  add_referrals-WellFormed rate ((k, l) ∷ es) m h =
      add_referrals-WellFormed rate es _
        (alter-WellFormed k (new decimal k) (with_referrals decimal _) m refl (λ a. refl) h)

  returned :
      (m out : HashMap String (UserDailyActivity D))
      → WellFormed m
      → ◌≡◌ {A = Outcome (HashMap String (UserDailyActivity D))} (ok m) (ok out)
      → WellFormed out
  returned m out h e = let same : m ≡ out = cc in subst WellFormed same h

  module _ (sources : PointsSources D) (visits : Surroundings D) (date : ℕ) where
    swaps-WellFormed :
        (o : Option D) (m out : HashMap String (UserDailyActivity D))
        → WellFormed m
        → swaps_at_rate decimal sources visits.visit_volumes date o m ≡ ok out
        → WellFormed out
    swaps-WellFormed none m out h e = returned m out h e
    swaps-WellFormed (some rate) m out h e =
        let (next, p, e1) = bind_ok (succ_opt sources.last_day date) _ e in
        let (swaps, q, e2) = bind_ok (sources.get_linx_swaps_in_period _ _) _ e1 in
        returned _ out (set_swaps-WellFormed sources rate _ m h) e2

    positions-WellFormed :
        (supply borrow : Option D) (m out : HashMap String (UserDailyActivity D))
        → WellFormed m
        → positions_at_rates decimal visits.visit_markets visits.visit_users sources date supply
            borrow m
          ≡ ok out
        → WellFormed out
    positions-WellFormed none borrow m out h e = returned m out h e
    positions-WellFormed (some supply) none m out h e = returned m out h e
    positions-WellFormed (some supply) (some borrow) m out h e =
        let (next, p, e1) = bind_ok (succ_opt sources.last_day date) _ e in
        let (snapshots, q, e2) = bind_ok (sources.get_position_snapshots_in_period _ _) _ e1 in
        returned _ out (set_positions-WellFormed visits.visit_markets _ _ _ _ m h) e2

    swap_points-WellFormed :
        (configs : HashMap String (PointsConfig D)) (m out : HashMap String (UserDailyActivity D))
        → WellFormed m
        → calculate_swap_points decimal sources visits.visit_volumes date configs m ≡ ok out
        → WellFormed out
    unfolding calculate_swap_points
    swap_points-WellFormed configs m out h e =
        swaps-WellFormed (swap_rate decimal sources (get "swap" configs)) m out h e

    lending_points-WellFormed :
        (configs : HashMap String (PointsConfig D)) (m out : HashMap String (UserDailyActivity D))
        → WellFormed m
        → calculate_lending_points decimal visits.visit_markets visits.visit_users sources date
            configs m
          ≡ ok out
        → WellFormed out
    unfolding calculate_lending_points
    lending_points-WellFormed configs m out h e =
        positions-WellFormed (daily_rate decimal visits.visit_markets (get "supply" configs))
          (daily_rate decimal visits.visit_markets (get "borrow" configs)) m out h e

    referrals-WellFormed :
        (m out : HashMap String (UserDailyActivity D))
        → WellFormed m
        → calculate_referral_points decimal visits.visit_referrers sources m ≡ ok out
        → WellFormed out
    unfolding calculate_referral_points
    referrals-WellFormed m out h e =
        let (rate, p, e1) = bind_ok sources.referral_percentage _ e in
        let (referrals, q, e2) = bind_ok sources.get_all_user_referrals _ e1 in
        returned _ out (add_referrals-WellFormed rate _ m h) e2

    -- What a day gives is well formed.
    pub activities_of-WellFormed :
        (out : HashMap String (UserDailyActivity D))
        → activities_of decimal sources visits date ≡ ok out
        → WellFormed out
    unfolding activities_of IsDistinct
    activities_of-WellFormed out e =
        let (configs, p, e1) = bind_ok sources.get_points_config _ e in
        let (swapped, q, e2) =
          bind_ok (calculate_swap_points decimal sources visits.visit_volumes date _ []) _ e1 in
        let (held, r, e3) =
          bind_ok
            (calculate_lending_points decimal visits.visit_markets visits.visit_users sources date _
              swapped)
            _ e2 in
        let (multipliers, t, e4) = bind_ok (sources.get_multipliers_by_type "volume") _ e3 in
        let h1 = swap_points-WellFormed _ [] swapped (tt, λ k a i. elim i [ ]) q in
        let h2 = lending_points-WellFormed _ swapped held h1 r in
        let h3 = map_values-WellFormed (finalize decimal) held finalize_keeps h2 in
        referrals-WellFormed _ out (apply_multipliers-WellFormed multipliers _ h3) e4
