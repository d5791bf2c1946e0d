-- ===== src/Positions/Reached.antt =====
-- Which positions `generate_snapshots` of
-- examples/linx-indexer/src/services/position_snapshot_service.rs reaches: its loop ends at the first page
-- without an open position.
use mathlib.Core.List.{append-nil, append_assoc, map-append}
use linx_app_backend.Base.{
  ℕ, zero, suc, ◌+◌, ◌-◌, ◌*◌, ◌≤◌, ◌<◌, Bool, true, Option, List, [], ◌∷◌, ◌++◌, map, String, ◌≡◌,
  ◌≢◌, refl, ap, sym, ◌∙◌, arith, length, filter_map, leb, Bool-cases, inl, inr,
}
use linx_app_backend.Base.Outcome.{ok}
use linx_app_backend.Base.Action.{Action}
use linx_app_backend.Positions.Shares.{LendingEvent, Amounts, Position, calculate_user_position}
use linx_app_backend.Positions.Pages.{
  limit, offset, addresses, positions_of, calculate_positions_for_market,
}
use linx_app_backend.Positions.Slices.{
  limit-[], limit-plus, offset-past, offset-plus, filter_map-append,
}
use linx_app_backend.Positions.Snapshots.{Tables, MarketInputs, snapshot_of, turn, store_pages}

below_zero : (n : ℕ) → ¬ (n < 0)
below_zero n h = omega arith

-- The first number of a page, from 0, that gives no positions.
pub record IsFirstEmpty {A : Type 0} (page : ℕ → List A) (m : ℕ) : Type 0 where
  pub empty : page m ≡ []
  pub before_it : (q : ℕ) → q < m → page q ≢ []

module _ {D : Type 0} (amounts : Amounts D) (before : String → String → Bool) (market_id : String)
    (page_size : ℕ) where
  -- The positions of a page, counted from 0.
  abbrev pub page_of : List (LendingEvent D) → ℕ → List (Position D)
  page_of events n =
      positions_of amounts before events market_id
        (limit page_size (offset (n * page_size) (addresses amounts before events market_id)))

module _ {D : Type 0} (amounts : Amounts D) (clock : Position D → ℕ)
    (before : String → String → Bool) (inputs : MarketInputs D) (market_id : String)
    (page_size : ℕ) where
  -- The tables with more snapshots, those of the open positions of some addresses.
  abbrev pub with_snapshots : Tables D → List String → Tables D
  with_snapshots t as' = record t {
    snapshots =
        t.snapshots
        ++ map (snapshot_of amounts clock inputs market_id)
            (positions_of amounts before t.events market_id as');
  }

  -- What the loop does from a page on, counted from 0.
  abbrev Reaches : ℕ → ℕ → Tables D → Type 0
  Reaches fuel n t =
      (m : ℕ) × IsFirstEmpty (λ q. page_of amounts before market_id page_size t.events (n + q)) m
      × (store_pages amounts clock (ok tt) before fuel inputs market_id page_size (n + 1) t ≡ (
        ok true,
        with_snapshots t (
            limit (m * page_size)
              (offset (n * page_size) (addresses amounts before t.events market_id))),
      ))

  one_turn :
      (fuel n : ℕ) (t : Tables D)
      → store_pages amounts clock (ok tt) before (suc fuel) inputs market_id page_size (n + 1) t
        ≡ turn amounts clock
            (ok tt)
            before
            inputs
            market_id
            (store_pages amounts clock (ok tt) before fuel inputs market_id page_size (n + 1 + 1))
            (page_of amounts before market_id page_size t.events n)
            t
  unfolding store_pages calculate_positions_for_market
  one_turn fuel n t =
      let same : n + 1 - 1 ≡ n = omega arith in
      ap
        (λ k.
          turn amounts clock (ok tt) before inputs market_id
            (store_pages amounts clock (ok tt) before fuel inputs market_id page_size (n + 1 + 1))
            (page_of amounts before market_id page_size t.events k) t)
        same

  further :
      (n m : ℕ) (as' : List String)
      → limit page_size (offset (n * page_size) as')
          ++ limit (m * page_size) (offset ((n + 1) * page_size) as')
        ≡ limit (suc m * page_size) (offset (n * page_size) as')
  further n m as' =
      let next : (n + 1) * page_size ≡ n * page_size + page_size = omega arith in
      let size : page_size + m * page_size ≡ suc m * page_size = omega arith in
      let rest = offset (n * page_size) as' in
      ap (λ r. limit page_size rest ++ limit (m * page_size) r)
        (ap (λ k. offset k as') next ∙ offset-plus (n * page_size) page_size as')
      ∙ sym (limit-plus page_size (m * page_size) rest)
      ∙ ap (λ k. limit k rest) size

  page_within :
      (n : ℕ) (t : Tables D)
      → page_of amounts before market_id page_size t.events n ≢ []
      → n * page_size < length (addresses amounts before t.events market_id)
  page_within n t filled =
      let as' = addresses amounts before t.events market_id in
      elim (Bool-cases (leb (length as') (n * page_size))) [
        | inl past ↦
            let small : length as' ≤ n * page_size = ground arith in
            let none_left =
              ap (λ r. positions_of amounts before t.events market_id (limit page_size r))
                (offset-past (n * page_size) as' small)
              ∙ ap (positions_of amounts before t.events market_id) (limit-[] page_size) in
            elim (filled none_left) [ ]
        | inr within ↦ ground arith
      ]

  filled_before :
      (n m : ℕ) (t : Tables D)
      → page_of amounts before market_id page_size t.events n ≢ []
      → IsFirstEmpty (λ q. page_of amounts before market_id page_size t.events (n + 1 + q)) m
      → (q : ℕ) → q < suc m
      → page_of amounts before market_id page_size t.events (n + q) ≢ []
  filled_before n m t filled first zero below empty_here =
      let same : n ≡ n + 0 = omega arith in
      filled (ap (page_of amounts before market_id page_size t.events) same ∙ empty_here)
  filled_before n m t filled first (suc q) below empty_here =
      let same : n + 1 + q ≡ n + suc q = omega arith in
      let below' : q < m = omega arith in
      first.before_it q below'
        (ap (page_of amounts before market_id page_size t.events) same ∙ empty_here)

  turn_filled :
      (next : Action (Tables D) Bool) (page : List (Position D)) (t : Tables D)
      → page ≢ []
      → turn amounts clock (ok tt) before inputs market_id next page t
        ≡ next (record t {
          snapshots = t.snapshots ++ map (snapshot_of amounts clock inputs market_id) page;
        })
  turn_filled next [] t filled = elim (filled refl) [ ]
  turn_filled next (p ∷ ps) t filled = refl

  more_snapshots :
      (t : Tables D) (as' bs : List String)
      → with_snapshots (with_snapshots t as') bs ≡ with_snapshots t (as' ++ bs)
  more_snapshots t as' bs =
      let f : String → Option (Position D) =
        λ a. calculate_user_position amounts a market_id t.events in
      let snapshot = snapshot_of amounts clock inputs market_id in
      ap (λ rows. record t { snapshots = rows })
        (append_assoc t.snapshots (map snapshot (filter_map f as')) (map snapshot (filter_map f bs))
          ∙ ap (λ rows. t.snapshots ++ rows)
              (sym (map-append snapshot (filter_map f as') (filter_map f bs))
                ∙ ap (map snapshot) (sym (filter_map-append f as' bs))))

  shift_first :
      (n m : ℕ) (t : Tables D)
      → page_of amounts before market_id page_size t.events n ≢ []
      → IsFirstEmpty (λ q. page_of amounts before market_id page_size t.events (n + 1 + q)) m
      → IsFirstEmpty (λ q. page_of amounts before market_id page_size t.events (n + q)) (suc m)
  shift_first n m t filled first =
      let at : (q : ℕ)
          → page_of amounts before market_id page_size t.events (n + suc q)
            ≡ page_of amounts before market_id page_size t.events (n + 1 + q) =
        λ q.
          let same : n + suc q ≡ n + 1 + q = omega arith in
          ap (page_of amounts before market_id page_size t.events) same in
      record { empty = at m ∙ first.empty; before_it = filled_before n m t filled first }

  reach_on :
      (fuel n : ℕ) (t : Tables D) (page : List (Position D))
      → page_of amounts before market_id page_size t.events n ≡ page
      → (page_of amounts before market_id page_size t.events n ≢ []
          → Reaches fuel (n + 1) (
              with_snapshots t (
                limit page_size
                  (offset (n * page_size) (addresses amounts before t.events market_id)))))
      → Reaches (suc fuel) n t
  reach_on fuel n t [] e rest =
      let here : page_of amounts before market_id page_size t.events (n + 0)
          ≡ page_of amounts before market_id page_size t.events n =
        let same : n + 0 ≡ n = omega arith in
        ap (page_of amounts before market_id page_size t.events) same in
      let no_more : 0 ≡ 0 * page_size = omega arith in
      (
        0,
        record { empty = here ∙ e; before_it = λ q below empty_here. omega arith },
        one_turn fuel n t
            ∙ ap
                (λ page.
                  turn amounts clock (ok tt) before inputs market_id
                    (store_pages amounts clock (ok tt) before fuel inputs market_id page_size
                      (n + 1 + 1))
                    page t)
                e
            ∙ ap (λ rows. (ok true, record t { snapshots = rows })) (sym (append-nil t.snapshots))
            ∙ ap
                (λ k. (
                  ok true,
                  with_snapshots t (
                      limit k
                        (offset (n * page_size) (addresses amounts before t.events market_id))),
                ))
                no_more,
      )
  reach_on fuel n t (p ∷ ps) e rest =
      let filled : page_of amounts before market_id page_size t.events n ≢ [] =
        λ no. let a : p ∷ ps ≡ [] = sym e ∙ no in cc in
      let (m, first, ended) = rest filled in
      (
        suc m,
        shift_first n m t filled first,
        one_turn fuel n t
            ∙ turn_filled
                (store_pages amounts clock (ok tt) before fuel inputs market_id page_size
                  (n + 1 + 1))
                (page_of amounts before market_id page_size t.events n) t filled
            ∙ ended
            ∙ ap (λ t. (ok true, t))
                (more_snapshots t _ _
                  ∙ ap (with_snapshots t)
                      (further n m (addresses amounts before t.events market_id))),
      )

  reaches :
      (fuel n : ℕ) (t : Tables D)
      → 0 < page_size
      → length (addresses amounts before t.events market_id) - n * page_size < fuel
      → Reaches fuel n t
  reaches zero n t sized room = elim (below_zero _ room) [ ]
  reaches (suc fuel) n t sized room =
      reach_on fuel n t (page_of amounts before market_id page_size t.events n) refl (λ filled.
        let within = page_within n t filled in
        let next : (n + 1) * page_size ≡ n * page_size + page_size = omega arith in
        let room' : length (addresses amounts before t.events market_id) - (n + 1) * page_size
            < fuel =
          omega arith in
        reaches fuel (n + 1)
          (with_snapshots t (
            limit page_size (offset (n * page_size) (addresses amounts before t.events market_id))))
          sized room')

  -- If the database can be reached and pages are not empty by their size, then with more turns of fuel
  -- than the market has addresses the loop over its pages ends. It stores one snapshot for each open
  -- position of the addresses before the first page in which no address has an open position, in the
  -- order of the addresses; of that page and of all later ones it stores nothing.
  pub store_pages-IsFirstEmpty :
      (fuel : ℕ) (t : Tables D)
      → 0 < page_size
      → length (addresses amounts before t.events market_id) < fuel
      → (m : ℕ) × IsFirstEmpty (page_of amounts before market_id page_size t.events) m
        × (store_pages amounts clock (ok tt) before fuel inputs market_id page_size 1 t ≡ (
          ok true,
          with_snapshots t (limit (m * page_size) (addresses amounts before t.events market_id)),
        ))
  store_pages-IsFirstEmpty fuel t sized room =
      let room' : length (addresses amounts before t.events market_id) - 0 * page_size < fuel =
        omega arith in
      let (m, first, ended) = reaches fuel 0 t sized room' in
      let start : 0 * page_size ≡ 0 = omega arith in
      let at : (q : ℕ)
          → page_of amounts before market_id page_size t.events q
            ≡ page_of amounts before market_id page_size t.events (0 + q) =
        λ q.
          let same : q ≡ 0 + q = omega arith in
          ap (page_of amounts before market_id page_size t.events) same in
      (
        m,
        record {
          empty = at m ∙ first.empty;
          before_it = λ q below empty_here. first.before_it q below (sym (at q) ∙ empty_here);
        },
        ended
            ∙ ap
                (λ k. (
                  ok true,
                  with_snapshots t (
                      limit (m * page_size)
                        (offset k (addresses amounts before t.events market_id))),
                ))
                start,
      )
