-- ===== src/Positions/Tests.antt =====
-- Positions of three users, whose names are ordered by their length.
use linx_app_backend.Processors.LendingEvents.{Market}
use linx_app_backend.Base.{
  ℕ, ◌-◌, Bool, true, some, none, [], ◌∷◌, map, String, length, ltb, ◌≡◌, refl, ap, arith, List,
  sym, subst, false, ◌≢◌, inl, inr, In, if◌then◌else◌, ◌<◌,
}
use linx_app_backend.Base.Equality.{string_eq, eqb}
use linx_app_backend.Base.Ints.{pos}
use linx_app_backend.Base.Outcome.{ok, Outcome, err, panic, message}
use linx_app_backend.Types.Libraries.{timestamp_millis_to_naive_datetime}
use linx_app_backend.Address.{codes}
use linx_app_backend.Points.Sources.{TokenInfo}
use linx_app_backend.Points.Samples.{decimal}
use linx_app_backend.Processors.Samples
use linx_app_backend.Positions.Shares.{
  LendingEvent, Amounts, get_user_events_for_market, replay, calculate_user_position,
}
use linx_app_backend.Positions.Pages.{distinct, addresses, calculate_positions_for_market}
use linx_app_backend.Positions.Markets.{MarketState, call_contract_succeeded, get_market_state}
use linx_app_backend.Positions.Snapshots.{
  NewPositionSnapshot, Tables, MarketInputs, to_assets, snapshot_of, store_pages, Services,
  generate_snapshots,
}
use linx_app_backend.Positions.Reached.{with_snapshots}
use linx_app_backend.Positions.Rounds.{
  NeverPanics, IsRoundRows, more, generate_snapshots-IsRoundRows,
}

abbrev amounts : Amounts ℕ
amounts = record {
  arithmetic = decimal;
  decimal = Samples.decimal;
  minus = λ a b. a - b;
  with_scale = λ a n. a;
  to_i64 = λ a. some (pos a);
}

abbrev before : String → String → Bool
before a b = ltb (length (codes a)) (length (codes b))

abbrev event_of : String → String → ℕ → ℕ → LendingEvent ℕ
event_of user event_type shares time = record {
  market_id = "m";
  event_type = event_type;
  token_id = "t";
  on_behalf = user;
  amount = shares;
  shares = shares;
  transaction_id = "";
  event_index = pos 0;
  block_time = time;
  created_at = time;
  fields = [];
}

abbrev state : MarketState ℕ ℕ
state = record {
  total_supply_assets = 3999999;
  total_supply_shares = 1000000;
  total_borrow_assets = 0;
  total_borrow_shares = 0;
  last_update = 9;
  fee = 0;
}

abbrev info : TokenInfo
info = record { id = "t"; name = ""; symbol = ""; decimals = 0; description = ""; logo_uri = "" }

abbrev inputs : MarketInputs ℕ
inputs = record {
  token_info = info;
  token_price = 3;
  collateral_token_info = info;
  collateral_token_price = 3;
  market_state = state;
}

-- The second user has withdrawn everything.
abbrev tables : Tables ℕ
tables = record {
  markets = [];
  events =
      event_of "bb" "Withdraw" 7 3
      ∷ event_of "bb" "Supply" 7 2
      ∷ event_of "a" "Supply" 5 1
      ∷ event_of "ccc" "Supply" 6 4
      ∷ [];
  snapshots = [];
}

three_users : addresses amounts before tables.events "m" ≡ "a" ∷ "bb" ∷ "ccc" ∷ []
unfolding distinct
three_users = refl

supplied_and_withdrawn :
    (calculate_user_position amounts "bb" "m" tables.events ≡ none)
    × (map
          (λ p. p.supply_shares)
          (calculate_positions_for_market amounts before tables.events "m" 1 3)
        ≡ 5 ∷ 6 ∷ [])
unfolding calculate_user_position calculate_positions_for_market get_user_events_for_market replay
    distinct
supplied_and_withdrawn = (refl, refl)

-- Each share stands for two units of assets.
doubled : to_assets amounts 5 3999999 1000000 ≡ 10
unfolding to_assets
doubled = refl

-- With pages of one address the loop ends at the second, and the third user has no snapshot.
third_user_missed :
    store_pages amounts (λ p. 0) (ok tt) before 4 inputs "m" 1 1 tables
    ≡ (ok true, with_snapshots amounts (λ p. 0) before inputs "m" 1 tables ("a" ∷ []))
unfolding store_pages calculate_positions_for_market calculate_user_position
    get_user_events_for_market replay distinct snapshot_of to_assets
third_user_missed = refl

state_of_market :
    get_market_state amounts Samples.chrono
      (λ id. ok (record {
        result_type = call_contract_succeeded;
        returns = some (some "4" ∷ some "5" ∷ some "4" ∷ some "5" ∷ some "9" ∷ none ∷ []);
      }))
      "m"
    ≡ ok (record {
      total_supply_assets = 4;
      total_supply_shares = 5;
      total_borrow_assets = 4;
      total_borrow_shares = 5;
      last_update = 0;
      fee = 0;
    })
unfolding get_market_state timestamp_millis_to_naive_datetime
state_of_market = refl

-- Markets of the tokens "t" and "u", of which the second has no price.
abbrev market_of : String → String → Market ℕ ℕ
market_of id token = record {
  id = id;
  market_contract_id = "";
  collateral_token = token;
  loan_token = token;
  oracle = "";
  irm = "";
  ltv = 0;
  created_at = 0;
}

abbrev price_of : String → Outcome ℕ
price_of token = if eqb token "t" then ok 3 else err (message "no price")

abbrev services : Services ℕ
services = record {
  get_token_info = λ token. ok info;
  get_token_price = price_of;
  get_market_state = λ id. ok state;
}

price_calm : (b : Bool) → if◌then◌else◌ {A = Outcome ℕ} b (ok 3) (err (message "no price")) ≢ panic
price_calm true e = cc
price_calm false e = cc

services-NeverPanics : NeverPanics services
services-NeverPanics = record {
  info_answers = λ token e. cc;
  price_answers = λ token. price_calm (eqb token "t");
  state_answers = λ id e. cc;
}

abbrev two_markets : Tables ℕ
two_markets = record tables { markets = market_of "n" "u" ∷ market_of "m" "t" ∷ [] }

no_users : addresses amounts before tables.events "n" ≡ []
unfolding distinct
no_users = refl

enough :
    (market : Market ℕ ℕ)
    → In market two_markets.markets
    → length (addresses amounts before tables.events market.id) < 4
enough market (inl e) =
    subst (λ x. length (addresses amounts before tables.events x.id) < 4) (sym e)
      (omega (arith, ap length no_users))
enough market (inr (inl e)) =
    subst (λ x. length (addresses amounts before tables.events x.id) < 4) (sym e)
      (omega (arith, ap length three_users))
enough market (inr (inr absent)) = elim absent [ ]

generate_snapshots-IsRoundRows_example :
    (rows : List (NewPositionSnapshot ℕ)) × IsRoundRows amounts
      (λ p. 0)
      before
      services
      tables.events
      two_markets.markets
      rows
    × (generate_snapshots amounts (λ p. 0) (ok tt) before 4 services two_markets
        ≡ (ok true, more two_markets rows))
generate_snapshots-IsRoundRows_example =
    generate_snapshots-IsRoundRows amounts (λ p. 0) before services 4 two_markets
      services-NeverPanics enough
