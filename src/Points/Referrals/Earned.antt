-- ===== src/Points/Referrals/Earned.antt =====
-- What users earn for referrals in examples/linx-indexer/src/services/points_calculator_service.rs:
-- the same in whatever order the referrers are visited.
use linx_app_backend.Base.{
  ℕ, Bool, true, false, Option, some, none, List, [], ◌∷◌, ◌++◌, String, ◌≡◌, refl, sym, ap, ◌∙◌,
  subst, inl, inr, if◌then◌else◌, Bool-cases,
}
use linx_app_backend.Base.Equality.{string_eq, eqb, eqb→eq}
use linx_app_backend.Base.HashMap.{
  HashMap, get, alter, IsDistinct, unwrap_or, get-alter_same, get-alter_other, alter-IsDistinct,
  VisitsAll, get-visit,
}
use linx_app_backend.Base.I32.{add_i32}
use linx_app_backend.Base.Outcome.{ok, ◌>>=◌}
use linx_app_backend.Points.Activity.{Arithmetic, UserDailyActivity, new}
use linx_app_backend.Points.Sources.{PointsSources, UserReferral}
use linx_app_backend.Points.Referrals.{
  by_referrer, counted_points, total_referred, referral_share, with_referrals, add_referrals,
  calculate_referral_points,
}

-- The users that an address referred, in the order of the referrals; none if there are none.
abbrev pub referred_by : String → List UserReferral → Option (List String) → Option (List String)
referred_by a [] users = users
referred_by a (r ∷ rs) users = referred_by a rs (
    if eqb a r.referred_by_address then some (unwrap_or [] users ++ r.user_address ∷ []) else users)

-- `alter` at an address, read at any.
get-alter :
    {V : Type 0} (a k : String) (d : V) (f : V → V) (m : HashMap String V)
    → get a (alter k d f m) ≡ (if eqb a k then some (f (unwrap_or d (get a m))) else get a m)
get-alter a k d f m = elim (Bool-cases (eqb a k)) [
  | inl t ↦
      subst (λ x. get x (alter k d f m) ≡ some (f (unwrap_or d (get x m)))) (sym (eqb→eq a k t))
        (get-alter_same k d f m)
      ∙ sym (ap (λ b. if b then some (f (unwrap_or d (get a m))) else get a m) t)
  | inr n ↦
      get-alter_other k a d f m n
      ∙ sym (ap (λ b. if b then some (f (unwrap_or d (get a m))) else get a m) n)
]

get-by_referrer :
    (a : String) (rs : List UserReferral) (groups : HashMap String (List String))
    → get a (by_referrer rs groups) ≡ referred_by a rs (get a groups)
unfolding by_referrer
get-by_referrer a [] groups = refl
get-by_referrer a (r ∷ rs) groups =
    get-by_referrer a rs _
    ∙ ap (referred_by a rs)
        (get-alter a r.referred_by_address [] (λ l. l ++ r.user_address ∷ []) groups)

by_referrer-IsDistinct :
    (rs : List UserReferral) (groups : HashMap String (List String))
    → IsDistinct groups
    → IsDistinct (by_referrer rs groups)
unfolding by_referrer
by_referrer-IsDistinct [] groups h = h
by_referrer-IsDistinct (r ∷ rs) groups h =
    by_referrer-IsDistinct rs _
      (alter-IsDistinct r.referred_by_address [] (λ l. l ++ r.user_address ∷ []) groups h)

module _ {D : Type 0} (decimal : Arithmetic D) where
  -- Referral points do not change what counts for a referrer.
  counted_same :
      (b : Bool) (k : String) (points : ℕ) (o : Option (UserDailyActivity D))
      → counted_points
          (if b then some (with_referrals decimal points (unwrap_or (new decimal k) o)) else o)
        ≡ counted_points o
  counted_same false k points o = refl
  counted_same true k points none = refl
  counted_same true k points (some activity) = refl

  total_same :
      (users : List String) (k : String) (points : ℕ) (m : HashMap String (UserDailyActivity D))
      (sum : ℕ)
      → total_referred users (alter k (new decimal k) (with_referrals decimal points) m) sum
        ≡ total_referred users m sum
  unfolding total_referred
  total_same [] k points m sum = refl
  total_same (user ∷ users) k points m sum =
      total_same users k points m _
      ∙ ap (λ n. total_referred users m (add_i32 sum n))
          (ap counted_points (get-alter user k (new decimal k) (with_referrals decimal points) m)
            ∙ counted_same (eqb user k) k points (get user m))

  -- A user's activity with its referral points, on what all users did.
  abbrev pub rewarded :
      D
      → HashMap String (UserDailyActivity D)
      → String
      → Option (List String)
      → Option (UserDailyActivity D)
      → Option (UserDailyActivity D)
  rewarded percentage m a none before = before
  rewarded percentage m a (some users) before = some (
      with_referrals decimal (referral_share decimal percentage (total_referred users m 0))
        (unwrap_or (new decimal a) before))

  rewarded_same :
      (percentage : D) (k : String) (points : ℕ) (m : HashMap String (UserDailyActivity D))
      (a : String) (users : Option (List String)) (before : Option (UserDailyActivity D))
      → rewarded percentage
          (alter k (new decimal k) (with_referrals decimal points) m)
          a
          users
          before
        ≡ rewarded percentage m a users before
  rewarded_same percentage k points m a none before = refl
  rewarded_same percentage k points m a (some users) before =
      ap
        (λ n. some (
          with_referrals decimal (referral_share decimal percentage n)
            (unwrap_or (new decimal a) before)))
        (total_same users k points m 0)

  get-add_referrals :
      (percentage : D) (a : String) (es : List (String × List String))
      (m : HashMap String (UserDailyActivity D))
      → IsDistinct es
      → get a (add_referrals decimal percentage es m) ≡ rewarded percentage m a (get a es) (get a m)
  unfolding add_referrals get IsDistinct
  get-add_referrals percentage a [] m d = refl
  get-add_referrals percentage a ((k, users) ∷ es) m (fresh, d) =
      let points = referral_share decimal percentage (total_referred users m 0) in
      let m' = alter k (new decimal k) (with_referrals decimal points) m in
      get-add_referrals percentage a es m' d
      ∙ rewarded_same percentage k points m a (get a es) (get a m')
      ∙ ap (rewarded percentage m a (get a es))
          (get-alter a k (new decimal k) (with_referrals decimal points) m)
      ∙ elim (Bool-cases (eqb a k)) [
        | inl t ↦
            let same = eqb→eq a k t in
            let absent : get a es ≡ none = subst (λ x. get x es ≡ none) (sym same) fresh in
            ap
              (λ g. rewarded percentage m a g (
                if eqb a k
                then some (with_referrals decimal points (unwrap_or (new decimal k) (get a m)))
                else get a m))
              absent
            ∙ ap
                (λ b.
                  if b
                  then some (with_referrals decimal points (unwrap_or (new decimal k) (get a m)))
                  else get a m)
                t
            ∙ ap (λ x. some (with_referrals decimal points (unwrap_or (new decimal x) (get a m))))
                (sym same)
            ∙ sym
                (ap (λ b. rewarded percentage m a (if b then some users else get a es) (get a m)) t)
        | inr f ↦
            ap
              (λ b. rewarded percentage m a (get a es) (
                if b
                then some (with_referrals decimal points (unwrap_or (new decimal k) (get a m)))
                else get a m))
              f
            ∙ sym
                (ap (λ b. rewarded percentage m a (if b then some users else get a es) (get a m)) f)
      ]

  -- If the percentage and the referrals can be read, the calculation succeeds, and each address that
  -- referred users gets the percentage of the base points of those of them that earned any, as they
  -- were before the calculation; the activities of the others stay as they are.
  pub referral_points_earned :
      (sources : PointsSources D)
      (visit : HashMap String (List String) → List (String × List String))
      → VisitsAll visit
      → (percentage : D) (referrals : List UserReferral)
        (activities : HashMap String (UserDailyActivity D))
      → sources.referral_percentage ≡ ok percentage
      → sources.get_all_user_referrals ≡ ok referrals
      → (out : HashMap String (UserDailyActivity D)) × (calculate_referral_points decimal visit
            sources activities
          ≡ ok out)
        × ((a : String)
            → get a out
              ≡ rewarded percentage activities a (referred_by a referrals none) (get a activities))
  unfolding calculate_referral_points IsDistinct get
  referral_points_earned sources visit visits percentage referrals activities known read =
      let groups = by_referrer referrals [] in
      let distinct = by_referrer-IsDistinct referrals [] tt in
      (
        add_referrals decimal percentage (visit groups) activities,
        ap
              (λ r. r >>= λ p. sources.get_all_user_referrals >>= λ all.
                ok (add_referrals decimal p (visit (by_referrer all [])) activities))
              known
            ∙ ap
                (λ r. r >>= λ all.
                  ok (add_referrals decimal percentage (visit (by_referrer all [])) activities))
                read,
        λ a.
            get-add_referrals percentage a (visit groups) activities (visits groups distinct).0
            ∙ ap (λ users. rewarded percentage activities a users (get a activities))
                (get-visit visit visits a groups distinct ∙ get-by_referrer a referrals []),
      )
