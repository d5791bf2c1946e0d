-- ===== src/Positions/Rounds.antt =====
-- A whole round of `generate_snapshots` of
-- examples/linx-indexer/src/services/position_snapshot_service.rs, over all markets.
use mathlib.Core.List.{append-nil, append_assoc}
use linx_app_backend.Base.{
  ℕ, ◌*◌, ◌<◌, Bool, true, Option, some, none, List, [], ◌∷◌, ◌++◌, map, String, ◌≡◌, ◌≢◌, refl, ap,
  sym, ◌∙◌, subst, arith, inl, inr, length, In,
}
use linx_app_backend.Base.Outcome.{Outcome, ok, err, panic}
use linx_app_backend.Base.Action.{bind_outcome}
use linx_app_backend.Processors.LendingEvents.{Market}
use linx_app_backend.Positions.Shares.{LendingEvent, Amounts, Position}
use linx_app_backend.Positions.Pages.{limit, addresses, positions_of}
use linx_app_backend.Positions.Snapshots.{
  NewPositionSnapshot, Tables, MarketInputs, Services, or_continue, look_up, snapshot_of,
  snapshot_market, unless_out, snapshot_markets, generate_snapshots,
}
use linx_app_backend.Positions.Reached.{IsFirstEmpty, page_of, store_pages-IsFirstEmpty}

-- The services answer or fail, and do not panic.
pub record NeverPanics {D : Type 0} (services : Services D) : Type 0 where
  pub info_answers : (token : String) → services.get_token_info token ≢ panic
  pub price_answers : (token : String) → services.get_token_price token ≢ panic
  pub state_answers : (market_id : String) → services.get_market_state market_id ≢ panic

or_continue_ok :
    {A B : Type 0} (r : Outcome A) (f : A → Outcome (Option B))
    → r ≢ panic
    → ((a : A) → (o : Option B) × (f a ≡ ok o))
    → (o : Option B) × (or_continue r f ≡ ok o)
or_continue_ok (ok a) f calm each = each a
or_continue_ok (err e) f calm each = (none, refl)
or_continue_ok panic f calm each = elim (calm refl) [ ]

look_up_ok :
    {D : Type 0} (services : Services D) (market : Market D ℕ)
    → NeverPanics services
    → (o : Option (MarketInputs D)) × (look_up services market ≡ ok o)
look_up_ok services market calm =
    or_continue_ok (services.get_token_info market.loan_token) _
      (calm.info_answers market.loan_token)
      λ token_info.
        or_continue_ok (services.get_token_price market.loan_token) _
          (calm.price_answers market.loan_token)
          λ token_price.
            or_continue_ok (services.get_token_info market.collateral_token) _
              (calm.info_answers market.collateral_token)
              λ collateral_info.
                or_continue_ok (services.get_token_price market.collateral_token) _
                  (calm.price_answers market.collateral_token)
                  λ collateral_price.
                    or_continue_ok (services.get_market_state market.id) _
                      (calm.state_answers market.id) λ state. (some _, refl)

abbrev pub more : {D : Type 0} → Tables D → List (NewPositionSnapshot D) → Tables D
more t rows = record t { snapshots = t.snapshots ++ rows }

module _ {D : Type 0} (amounts : Amounts D) (clock : Position D → ℕ)
    (before : String → String → Bool) (services : Services D) (events : List (LendingEvent D)) where
  -- The rows of one market by what was looked up for it: none if a look-up failed, and otherwise one
  -- for each open position of the addresses before the first page without an open position.
  abbrev pub IsMarketRows :
      Market D ℕ → Outcome (Option (MarketInputs D)) → List (NewPositionSnapshot D) → Type 0
  IsMarketRows market (ok none) rows = rows ≡ []
  IsMarketRows market (ok (some inputs)) rows =
      (m : ℕ) × IsFirstEmpty (page_of amounts before market.id 100 events) m
      × (rows
          ≡ map (snapshot_of amounts clock inputs market.id) (
              positions_of amounts before events market.id
                (limit (m * 100) (addresses amounts before events market.id))))
  IsMarketRows market (err e) rows = ⊥
  IsMarketRows market panic rows = ⊥

  -- The rows of the markets, one market after the other.
  abbrev pub IsRoundRows : List (Market D ℕ) → List (NewPositionSnapshot D) → Type 0
  IsRoundRows [] rows = rows ≡ []
  IsRoundRows (market ∷ markets) rows =
      (own : List (NewPositionSnapshot D)) × (others : List (NewPositionSnapshot D)) × IsMarketRows
        market (look_up services market) own
      × IsRoundRows markets others
      × (rows ≡ own ++ others)

module _ {D : Type 0} (amounts : Amounts D) (clock : Position D → ℕ)
    (before : String → String → Bool) (services : Services D) (fuel : ℕ) where
  market_rows :
      (t : Tables D) (market : Market D ℕ) (o : Option (MarketInputs D))
      → length (addresses amounts before t.events market.id) < fuel
      → (rows : List (NewPositionSnapshot D)) × IsMarketRows amounts clock before services t.events
          market
          (ok o)
          rows
        × (snapshot_market amounts clock (ok tt) before fuel market.id (ok o) t
            ≡ (ok true, more t rows))
  market_rows t market none room = (
    [],
    refl,
    ap (λ rows. (ok true, record t { snapshots = rows })) (sym (append-nil t.snapshots)),
  )
  market_rows t market (some inputs) room =
      let sized : 0 < 100 = omega arith in
      let (m, first, ended) =
        store_pages-IsFirstEmpty amounts clock before inputs market.id 100 fuel t sized room in
      (_, (m, first, refl), ended)

  round_rows :
      (t : Tables D) (markets : List (Market D ℕ))
      → NeverPanics services
      → ((market : Market D ℕ)
          → In market markets
          → length (addresses amounts before t.events market.id) < fuel)
      → (rows : List (NewPositionSnapshot D)) × IsRoundRows amounts clock before services t.events
          markets rows
        × (snapshot_markets amounts clock (ok tt) before fuel services markets t
            ≡ (ok true, more t rows))
  unfolding snapshot_markets
  round_rows t [] calm room = (
    [],
    refl,
    ap (λ rows. (ok true, record t { snapshots = rows })) (sym (append-nil t.snapshots)),
  )
  round_rows t (market ∷ markets) calm room =
      let (o, looked) = look_up_ok services market calm in
      let (own, is_own, first) = market_rows t market o (room market (inl refl)) in
      let (others, is_others, rest) =
        round_rows (more t own) markets calm (λ other h. room other (inr h)) in
      let next = snapshot_markets amounts clock (ok tt) before fuel services markets in
      (
        own ++ others,
        (
          own,
          others,
          subst (λ l. IsMarketRows amounts clock before services t.events market l own) (sym looked)
              is_own,
          is_others,
          refl,
        ),
        ap
              (λ l.
                bind_outcome (snapshot_market amounts clock (ok tt) before fuel market.id l t)
                  (unless_out next))
              looked
            ∙ ap (λ r. bind_outcome r (unless_out next)) first
            ∙ rest
            ∙ ap (λ rows. (ok true, record t { snapshots = rows }))
                (append_assoc t.snapshots own others),
      )

  -- If the database can be reached and the services do not panic, then with more fuel than any market
  -- has addresses a round ends well, and adds to the stored snapshots, market after market: nothing
  -- for a market of which a look-up fails, which does not keep the others from theirs; and otherwise
  -- one snapshot for each open position of the addresses before the first page of 100 in which no
  -- address has an open position. Of that page and of all later ones of the market it stores nothing.
  pub generate_snapshots-IsRoundRows :
      (t : Tables D)
      → NeverPanics services
      → ((market : Market D ℕ)
          → In market t.markets
          → length (addresses amounts before t.events market.id) < fuel)
      → (rows : List (NewPositionSnapshot D)) × IsRoundRows amounts clock before services t.events
          t.markets rows
        × (generate_snapshots amounts clock (ok tt) before fuel services t ≡ (ok true, more t rows))
  unfolding generate_snapshots
  generate_snapshots-IsRoundRows t calm room = round_rows t t.markets calm room
