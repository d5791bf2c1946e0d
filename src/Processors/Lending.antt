-- ===== src/Processors/Lending.antt =====
-- examples/linx-indexer/src/processors/lending_processor.rs: the markets and the lending events that
-- a list of blocks tells of. The repository is an interface; the clock is an argument.
pub mod Layout
pub mod Markets
use linx_app_backend.Base.{
  ℕ, Bool, true, false, ◌&&◌, Option, some, none, List, [], ◌∷◌, ◌++◌, String, get_elem?,
  if◌then◌else◌, filter_map, flat_map,
}
use linx_app_backend.Base.Equality.{string_eq, eqb}
use linx_app_backend.Base.HashMap.{HashMap, get, insert, unwrap_or}
use linx_app_backend.Base.Ints.{ℤ, is_nat, div_trunc}
use linx_app_backend.Base.Outcome.{Outcome, ok, err, panic, ◌>>=◌ as and_then}
use linx_app_backend.Base.Action.{Action, pure, ◌>>◌}
use linx_app_backend.Types.Block.{
  RichBlockEntry, BlockAndEvents, ContractEventByBlockHash, EventField, JsonValue, string,
  not_string,
}
use linx_app_backend.Types.Libraries.{BigDecimal, NaiveDateTime}
use linx_app_backend.Processors.LendingEvents.{
  ◌>>=◌, Market, NewLendingEvent, as_str, extract_string_field, extract_bigdecimal_field,
  loan_token_of, collateral_token_of, is_linx_event, block_time_of, market_of,
  parse_market_created_event, extract_markets, lending_event, parse_market_created_lending_event,
  parse_supply_event, parse_withdraw_event, parse_borrow_event, parse_repay_event,
  parse_supply_collateral_event, parse_withdraw_collateral_event, parse_liquidate_event,
  parse_accrue_interest_event,
}

pub record LendingProcessorOutput (D T : Type 0) : Type 0 where
  pub markets : List (Market D T)
  pub events : List (NewLendingEvent D T)

module _ {D T : Type 0} (decimal : BigDecimal D) (chrono : NaiveDateTime T) where
  module _ (linx_address : String) (now : T) where
    unfoldable pub parse_lending_event :
        RichBlockEntry
        → ContractEventByBlockHash
        → HashMap String (Market D T)
        → Option (NewLendingEvent D T)
    parse_lending_event block event markets_map =
        if is_linx_event linx_address event 4
        then parse_market_created_lending_event decimal chrono linx_address now block event
        else if is_linx_event linx_address event 10
        then parse_supply_event decimal chrono linx_address now block event markets_map
        else if is_linx_event linx_address event 11
        then parse_withdraw_event decimal chrono linx_address now block event markets_map
        else if is_linx_event linx_address event 12
        then parse_borrow_event decimal chrono linx_address now block event markets_map
        else if is_linx_event linx_address event 13
        then parse_repay_event decimal chrono linx_address now block event markets_map
        else if is_linx_event linx_address event 14
        then parse_supply_collateral_event decimal chrono linx_address now block event markets_map
        else if is_linx_event linx_address event 15
        then parse_withdraw_collateral_event decimal chrono linx_address now block event markets_map
        else if is_linx_event linx_address event 16
        then parse_liquidate_event decimal chrono linx_address now block event markets_map
        else if is_linx_event linx_address event 17
        then parse_accrue_interest_event decimal chrono linx_address now block event markets_map
        else none

    unfoldable pub extract_lending_events :
        BlockAndEvents → HashMap String (Market D T) → List (NewLendingEvent D T)
    extract_lending_events block_and_events markets_map =
        filter_map (λ event. parse_lending_event block_and_events.block event markets_map)
          block_and_events.events

-- `markets.into_iter().map(|market| (market.id.clone(), market)).collect()`
unfoldable pub market_map :
    {D T : Type 0} → List (Market D T) → HashMap String (Market D T) → HashMap String (Market D T)
market_map [] m = m
market_map (market ∷ markets) m = market_map markets (insert market.id market m)

abbrev pub new_markets :
    {D T : Type 0}
    → BigDecimal D
    → NaiveDateTime T
    → String
    → List BlockAndEvents
    → List (Market D T)
new_markets decimal chrono linx_address bwe =
    flat_map (extract_markets decimal chrono linx_address) bwe

-- What the processor asks of the repository.
pub record LendingRepository (D T S : Type 0) : Type 0 where
  pub get_all_markets : S → Outcome (List (Market D T))
  pub insert_markets : List (Market D T) → Action S (Unit {0})
  pub insert_lending_events : List (NewLendingEvent D T) → Action S (Unit {0})

module _ {D T S : Type 0} (decimal : BigDecimal D) (chrono : NaiveDateTime T)
    (linx_address : String) (now : T) (repository : LendingRepository D T S) where
  unfoldable pub process_lending : List BlockAndEvents → S → Outcome (LendingProcessorOutput D T)
  process_lending bwe s = and_then (repository.get_all_markets s) λ all_markets.
      let created = new_markets decimal chrono linx_address bwe in
      let markets_map = market_map (all_markets ++ created) [] in
      ok (record {
        markets = created;
        events =
            flat_map (λ b. extract_lending_events decimal chrono linx_address now b markets_map)
              bwe;
      })

  abbrev unless_empty : {A : Type 0} → (List A → Action S (Unit {0})) → List A → Action S (Unit {0})
  unless_empty act [] = pure tt
  unless_empty act (a ∷ as') = act (a ∷ as')

  unfoldable pub store_lending : LendingProcessorOutput D T → Action S (Unit {0})
  store_lending output =
      unless_empty repository.insert_markets output.markets
      >> unless_empty repository.insert_lending_events output.events
