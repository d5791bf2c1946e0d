-- ===== src/Points/Snapshots/Stored.antt =====
-- What `store_snapshots` of examples/linx-indexer/src/services/points_calculator_service.rs leaves in
-- the table, row by row.
use linx_app_backend.Base.{
  ℕ, Bool, true, false, ◌&&◌, Option, some, none, List, [], ◌∷◌, ◌++◌, String, ◌≡◌, refl, sym, ap,
  ◌∙◌, subst, inl, inr, arith, ◌==◌, ==_iff, if◌then◌else◌, Bool-cases, In,
}
use linx_app_backend.Base.Equality.{string_eq, nat_eq, pair_eq, eqb, eqb→eq, eqb_refl}
use linx_app_backend.Base.HashMap.{
  HashMap, get, insert, IsDistinct, get-alter_same, get-alter_other,
}
use linx_app_backend.Points.Activity.{Arithmetic, UserDailyActivity}
use linx_app_backend.Points.Snapshots.{
  PointsSnapshot, RowKey, Table, key_of, get_snapshot, get_snapshots_by_date, upsert, active_row,
  carried_row, active_rows, carried_rows,
}

module _ {D : Type 0} where
  -- Every activity, and every row, stands under its own key.
  abbrev pub IsKeyed : List (String × UserDailyActivity D) → Type 0
  IsKeyed activities = (k : String) (a : UserDailyActivity D) → In (k, a) activities → a.address ≡ k

  abbrev pub IsTable : Table D → Type 0
  IsTable table =
      IsDistinct table
      × ((k : RowKey) (row : PointsSnapshot D) → In (k, row) table → key_of row ≡ k)

  -- The last of the rows that has the key.
  abbrev pub last_row :
      RowKey → List (PointsSnapshot D) → Option (PointsSnapshot D) → Option (PointsSnapshot D)
  last_row k [] found = found
  last_row k (row ∷ rows) found = last_row k rows (if eqb k (key_of row) then some row else found)

  pub last_row-append :
      (k : RowKey) (xs ys : List (PointsSnapshot D)) (found : Option (PointsSnapshot D))
      → last_row k (xs ++ ys) found ≡ last_row k ys (last_row k xs found)
  last_row-append k [] ys found = refl
  last_row-append k (x ∷ xs) ys found = last_row-append k xs ys _

  get-insert_row :
      (k : RowKey) (row : PointsSnapshot D) (table : Table D)
      → get k (insert (key_of row) row table)
        ≡ (if eqb k (key_of row) then some row else get k table)
  get-insert_row k row table = elim (Bool-cases (eqb k (key_of row))) [
    | inl t ↦
        subst (λ i. get i (insert (key_of row) row table) ≡ some row)
          (sym (eqb→eq k (key_of row) t)) (get-alter_same (key_of row) row (λ _. row) table)
        ∙ sym (ap (λ b. if b then some row else get k table) t)
    | inr f ↦
        get-alter_other (key_of row) k row (λ _. row) table f
        ∙ sym (ap (λ b. if b then some row else get k table) f)
  ]

  pub get-upsert :
      (k : RowKey) (rows : List (PointsSnapshot D)) (table : Table D)
      → get k (upsert rows table) ≡ last_row k rows (get k table)
  unfolding upsert
  get-upsert k [] table = refl
  get-upsert k (row ∷ rows) table =
      get-upsert k rows (insert (key_of row) row table)
      ∙ ap (last_row k rows) (get-insert_row k row table)

module _ {D : Type 0} (decimal : Arithmetic D) (date season_id : ℕ) where
  abbrev pub today : String → RowKey
  today a = ((a, date), season_id)

  same_day : (a b : String) → eqb (today a) (today b) ≡ eqb a b
  same_day a b =
      let p = (==_iff date date).1 refl in
      let q = (==_iff season_id season_id).1 refl in ground arith

  abbrev pub if_active :
      String
      → Option (PointsSnapshot D)
      → Option (UserDailyActivity D)
      → Option (PointsSnapshot D)
      → Option (PointsSnapshot D)
  if_active a previous none found = found
  if_active a previous (some activity) found =
      some (active_row decimal date season_id previous a activity)

  pub last_row-active_rows :
      (a : String) (previous_date : ℕ) (table : Table D) (es : List (String × UserDailyActivity D))
      (found : Option (PointsSnapshot D))
      → IsDistinct es
      → IsKeyed es
      → last_row (today a) (active_rows decimal date season_id previous_date table es) found
        ≡ if_active a (get_snapshot a previous_date season_id table) (get a es) found
  unfolding active_rows get IsDistinct
  last_row-active_rows a previous_date table [] found d keyed = refl
  last_row-active_rows a previous_date table ((k, activity) ∷ es) found (fresh, d) keyed =
      let own = keyed k activity (inl refl) in
      let row = λ (x : String).
        active_row decimal date season_id (get_snapshot x previous_date season_id table) x
          activity in
      let previous = get_snapshot a previous_date season_id table in
      let later =
        last_row-active_rows a previous_date table es
          (if eqb (today a) (today activity.address) then some (row activity.address) else found) d
          (λ l b h. keyed l b (inr h)) in
      let same : eqb (today a) (today activity.address) ≡ eqb a k =
        same_day a activity.address ∙ ap (eqb a) own in
      elim (Bool-cases (eqb a k)) [
        | inl t ↦
            let absent : get a es ≡ none =
              subst (λ x. get x es ≡ none) (sym (eqb→eq a k t)) fresh in
            later
            ∙ ap
                (λ g. if_active a previous g (
                  if eqb (today a) (today activity.address)
                  then some (row activity.address)
                  else found))
                absent
            ∙ ap (λ b. if b then some (row activity.address) else found) (same ∙ t)
            ∙ ap (λ x. some (row x)) (own ∙ sym (eqb→eq a k t))
            ∙ sym (ap (λ b. if_active a previous (if b then some activity else get a es) found) t)
        | inr f ↦
            later
            ∙ ap
                (λ b.
                  if_active a previous (get a es)
                    (if b then some (row activity.address) else found))
                (same ∙ f)
            ∙ sym (ap (λ b. if_active a previous (if b then some activity else get a es) found) f)
      ]

  abbrev pub if_carried :
      Option (UserDailyActivity D)
      → Option (PointsSnapshot D)
      → Option (PointsSnapshot D)
      → Option (PointsSnapshot D)
  if_carried (some activity) previous found = found
  if_carried none none found = found
  if_carried none (some previous) found = some (carried_row decimal date season_id previous)

  if_carried_nothing :
      (o : Option (UserDailyActivity D)) (found : Option (PointsSnapshot D))
      → found ≡ if_carried o none found
  if_carried_nothing none found = refl
  if_carried_nothing (some a) found = refl

  abbrev is_none : Option (UserDailyActivity D) → Bool
  is_none none = true
  is_none (some a) = false

  one_row :
      (a : String) (activities : HashMap String (UserDailyActivity D)) (row : PointsSnapshot D)
      (rows : List (PointsSnapshot D)) (chosen : Bool) (found : Option (PointsSnapshot D))
      → last_row
          (today a)
          (carried_rows decimal date season_id activities (if chosen then row ∷ rows else rows))
          found
        ≡ last_row (today a) (carried_rows decimal date season_id activities rows) (
            if chosen && (is_none (get row.address activities) && eqb a row.address)
            then some (carried_row decimal date season_id row)
            else found)
  unfolding carried_rows
  one_row a activities row rows false found = refl
  one_row a activities row rows true found =
      let later = carried_rows decimal date season_id activities rows in
      let c = carried_row decimal date season_id row in
      elim (get row.address activities)
        as (λ o.
          last_row (today a) (elim o [ none ↦ c ∷ later | some b ↦ later ]) found
          ≡ last_row (today a) later (if is_none o && eqb a row.address then some c else found)) [
            | none ↦
                ap (λ b. last_row (today a) later (if b then some c else found))
                  (same_day a row.address)
            | some b ↦ refl
          ]

  carry_found :
      (o : Option (UserDailyActivity D)) (taken : Bool) (row : PointsSnapshot D)
      (found : Option (PointsSnapshot D))
      → taken ≡ is_none o
      → if_carried o none (if taken then some (carried_row decimal date season_id row) else found)
        ≡ if_carried o (some row) found
  carry_found none true row found h = refl
  carry_found none false row found h = cc
  carry_found (some a) true row found h = cc
  carry_found (some a) false row found h = refl

  pub last_row-carried_rows :
      (a : String) (previous_date : ℕ) (activities : HashMap String (UserDailyActivity D))
      (table : Table D) (found : Option (PointsSnapshot D))
      → IsTable table
      → last_row
          (today a)
          (carried_rows decimal date season_id activities
            (get_snapshots_by_date previous_date season_id table))
          found
        ≡ if_carried (get a activities) (get_snapshot a previous_date season_id table) found
  unfolding carried_rows get_snapshots_by_date get_snapshot get IsDistinct
  last_row-carried_rows a previous_date activities [] found h =
      if_carried_nothing (get a activities) found
  last_row-carried_rows a previous_date activities ((((k, row_date), row_season), row) ∷ table)
        found ((fresh, d), keyed) =
      let own = keyed ((k, row_date), row_season) row (inl refl) in
      let address : row.address ≡ k = ap (λ x. x.0.0) own in
      let chosen = row_date == previous_date && row_season == season_id in
      let taken = chosen && (is_none (get row.address activities) && eqb a row.address) in
      let rest =
        last_row-carried_rows a previous_date activities table
          (if taken then some (carried_row decimal date season_id row) else found)
          (d, λ l b h. keyed l b (inr h)) in
      one_row a activities row (get_snapshots_by_date previous_date season_id table) chosen found
      ∙ rest
      ∙ elim (Bool-cases
          (eqb {A = RowKey} ((a, previous_date), season_id) ((k, row_date), row_season))) [
            | inl t ↦
                let same =
                  eqb→eq {A = RowKey} ((a, previous_date), season_id) ((k, row_date), row_season)
                    t in
                let same_address : a ≡ row.address = ap (λ x. x.0.0) same ∙ sym address in
                let absent : get ((a, previous_date), season_id) table ≡ none =
                  subst (λ x. get x table ≡ none) (sym same) fresh in
                let has : eqb a row.address ≡ true =
                  subst (λ x. eqb a x ≡ true) same_address (eqb_refl a) in
                let dates : (row_date == previous_date) ≡ true =
                  (==_iff row_date previous_date).1 (sym (ap (λ x. x.0.1) same)) in
                let seasons : (row_season == season_id) ≡ true =
                  (==_iff row_season season_id).1 (sym (ap (λ x. x.1) same)) in
                let takes : taken ≡ is_none (get row.address activities) = ground arith in
                ap
                  (λ g.
                    if_carried (get a activities) g
                      (if taken then some (carried_row decimal date season_id row) else found))
                  absent
                ∙ carry_found (get a activities) taken row found
                    (takes ∙ ap (λ x. is_none (get x activities)) (sym same_address))
                ∙ sym (
                    ap
                      (λ b.
                        if_carried (get a activities)
                          (if b then some row else get ((a, previous_date), season_id) table) found)
                      t)
            | inr f ↦
                let has : eqb a row.address ≡ eqb a k = ap (eqb a) address in
                let takes : taken ≡ false = ground arith in
                ap
                  (λ b.
                    if_carried (get a activities) (get ((a, previous_date), season_id) table)
                      (if b then some (carried_row decimal date season_id row) else found))
                  takes
                ∙ sym (
                    ap
                      (λ b.
                        if_carried (get a activities)
                          (if b then some row else get ((a, previous_date), season_id) table) found)
                      f)
          ]
