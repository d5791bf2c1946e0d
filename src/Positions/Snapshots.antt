-- ===== src/Positions/Snapshots.antt =====
-- `generate_snapshots` of examples/linx-indexer/src/services/position_snapshot_service.rs. The service of
-- tokens, the calls of contracts and the clock are arguments. The tables of markets and of events do
-- not change here; that of markets is in the order of their creation. A market that lacks a price or its state is passed over.
use linx_app_backend.Base.{
  ℕ, zero, suc, ◌+◌, Bool, true, false, Option, some, none, List, [], ◌∷◌, ◌++◌, map, String,
  if◌then◌else◌,
}
use linx_app_backend.Base.Outcome.{Outcome, ok, err, panic}
use linx_app_backend.Base.Action.{Action, ◌>>=◌, ◌>>◌, lift, pure, query, execute}
use linx_app_backend.Processors.LendingEvents.{Market}
use linx_app_backend.Points.Sources.{TokenInfo, convert_to_decimal}
use linx_app_backend.Positions.Shares.{LendingEvent, Amounts, Position}
use linx_app_backend.Positions.Pages.{calculate_positions_for_market}
use linx_app_backend.Positions.Markets.{MarketState}

pub record NewPositionSnapshot (D : Type 0) : Type 0 where
  pub address : String
  pub market_id : String
  pub supply_amount : D
  pub supply_amount_usd : D
  pub borrow_amount : D
  pub borrow_amount_usd : D
  pub collateral_amount : D
  pub collateral_amount_usd : D
  pub timestamp : ℕ

pub record Tables (D : Type 0) : Type 0 where
  pub markets : List (Market D ℕ)
  pub events : List (LendingEvent D)
  pub snapshots : List (NewPositionSnapshot D)

abbrev pub virtual_assets : ℕ
virtual_assets = 1

abbrev pub virtual_shares : ℕ
virtual_shares = 1000000

-- What is looked up for a market before its positions.
pub record MarketInputs (D : Type 0) : Type 0 where
  pub token_info : TokenInfo
  pub token_price : D
  pub collateral_token_info : TokenInfo
  pub collateral_token_price : D
  pub market_state : MarketState D ℕ

pub record Services (D : Type 0) : Type 0 where
  pub get_token_info : String → Outcome TokenInfo
  pub get_token_price : String → Outcome D
  pub get_market_state : String → Outcome (MarketState D ℕ)

-- `match … { Ok(value) => …, Err(e) => { …; continue; } }`, where nothing is to continue.
abbrev pub or_continue : {A B : Type 0} → Outcome A → (A → Outcome (Option B)) → Outcome (Option B)
or_continue (ok a) f = f a
or_continue (err e) f = ok none
or_continue panic f = panic

abbrev pub look_up : {D : Type 0} → Services D → Market D ℕ → Outcome (Option (MarketInputs D))
look_up services market = or_continue (services.get_token_info market.loan_token) λ token_info.
    or_continue (services.get_token_price market.loan_token) λ token_price.
      or_continue (services.get_token_info market.collateral_token) λ collateral_token_info.
        or_continue (services.get_token_price market.collateral_token) λ collateral_token_price.
          or_continue (services.get_market_state market.id) λ market_state. ok (
            some (record {
              token_info = token_info;
              token_price = token_price;
              collateral_token_info = collateral_token_info;
              collateral_token_price = collateral_token_price;
              market_state = market_state;
            }))

module _ {D : Type 0} (amounts : Amounts D) where
  -- The assets that shares stand for, rounded down to a whole number of units.
  unfoldable pub to_assets : D → D → D → D
  to_assets shares total_assets total_shares =
      if amounts.arithmetic.is_zero shares
      then amounts.arithmetic.zero_amount
      else amounts.with_scale
          (amounts.arithmetic.divide
            (amounts.arithmetic.times shares
              (amounts.arithmetic.plus total_assets (amounts.arithmetic.from_u64 virtual_assets)))
            (amounts.arithmetic.plus total_shares (amounts.arithmetic.from_u64 virtual_shares)))
          0

  abbrev pub in_usd : TokenInfo → D → D → D
  in_usd info amount price =
      amounts.with_scale
        (amounts.arithmetic.times (convert_to_decimal amounts.arithmetic info amount) price) 2

abbrev pub unless_out : {S : Type 0} → Action S Bool → Bool → Action S Bool
unless_out rest finished = if finished then rest else pure false

module _ {D : Type 0} (amounts : Amounts D) (clock : Position D → ℕ) where
  unfoldable pub snapshot_of : MarketInputs D → String → Position D → NewPositionSnapshot D
  snapshot_of inputs market_id position =
      let state = inputs.market_state in
      let raw_supply_amount =
        to_assets amounts position.supply_shares state.total_supply_assets
          state.total_supply_shares in
      let raw_borrow_amount =
        to_assets amounts position.borrow_shares state.total_borrow_assets
          state.total_borrow_shares in
      record {
        address = position.address;
        market_id = market_id;
        supply_amount = raw_supply_amount;
        supply_amount_usd = in_usd amounts inputs.token_info raw_supply_amount inputs.token_price;
        borrow_amount = raw_borrow_amount;
        borrow_amount_usd = in_usd amounts inputs.token_info raw_borrow_amount inputs.token_price;
        collateral_amount = position.collateral;
        collateral_amount_usd =
            in_usd amounts inputs.collateral_token_info position.collateral
              inputs.collateral_token_price;
        timestamp = clock position;
      }

  module _ (connection : Outcome (Unit {0})) (before : String → String → Bool) where
    abbrev pub get_positions : String → ℕ → ℕ → Action (Tables D) (List (Position D))
    get_positions market_id page page_size =
        query connection
          (λ t. calculate_positions_for_market amounts before t.events market_id page page_size)

    abbrev pub insert_position_snapshots :
        List (NewPositionSnapshot D) → Action (Tables D) (Unit {0})
    insert_position_snapshots [] = pure tt
    insert_position_snapshots (row ∷ rows) =
        execute connection (λ t. (ok tt, record t { snapshots = t.snapshots ++ row ∷ rows }))

    -- The rest of a turn of the loop, on the positions of its page and what the next turns do.
    abbrev pub turn :
        MarketInputs D
        → String
        → Action (Tables D) Bool
        → List (Position D)
        → Action (Tables D) Bool
    turn inputs market_id next [] = pure true
    turn inputs market_id next (p ∷ ps) =
        insert_position_snapshots (map (snapshot_of inputs market_id) (p ∷ ps)) >> next

    -- The loop over pages, with fuel for its turns; false is that the fuel ran out.
    unfoldable pub store_pages : ℕ → MarketInputs D → String → ℕ → ℕ → Action (Tables D) Bool
    store_pages zero inputs market_id page_size page = pure false
    store_pages (suc fuel) inputs market_id page_size page =
        get_positions market_id page page_size
        >>= turn inputs market_id (store_pages fuel inputs market_id page_size (page + 1))

    abbrev pub snapshot_market :
        ℕ → String → Outcome (Option (MarketInputs D)) → Action (Tables D) Bool
    snapshot_market fuel market_id (ok none) = pure true
    snapshot_market fuel market_id (ok (some inputs)) = store_pages fuel inputs market_id 100 1
    snapshot_market fuel market_id (err e) = lift (err e)
    snapshot_market fuel market_id panic = lift panic

    unfoldable pub snapshot_markets : ℕ → Services D → List (Market D ℕ) → Action (Tables D) Bool
    snapshot_markets fuel services [] = pure true
    snapshot_markets fuel services (market ∷ markets) =
        snapshot_market fuel market.id (look_up services market)
        >>= unless_out (snapshot_markets fuel services markets)

    unfoldable pub generate_snapshots : ℕ → Services D → Action (Tables D) Bool
    generate_snapshots fuel services =
        query connection (λ t. t.markets) >>= snapshot_markets fuel services
