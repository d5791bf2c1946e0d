-- ===== src/Processors/LendingEvents.antt =====
-- examples/linx-indexer/src/processors/lending_processor.rs: the parsers of the events of the Linx
-- contract. The clock is an argument.
use linx_app_backend.Base.{
  ℕ, Bool, ◌&&◌, Option, some, none, List, String, get_elem?, if◌then◌else◌, filter_map,
}
use linx_app_backend.Base.Equality.{string_eq, eqb}
use linx_app_backend.Base.HashMap.{HashMap, get, unwrap_or}
use linx_app_backend.Base.Ints.{ℤ, is_nat, div_trunc}
use linx_app_backend.Types.Block.{
  RichBlockEntry, BlockAndEvents, ContractEventByBlockHash, EventField, JsonValue, string,
  not_string,
}
use linx_app_backend.Types.Libraries.{BigDecimal, NaiveDateTime}

-- `o?` in a function that returns an option.
infixl 5 ◌>>=◌
abbrev pub ◌>>=◌ : {A B : Type 0} → Option A → (A → Option B) → Option B
◌>>=◌ none f = none
◌>>=◌ (some a) f = f a

pub record Market (D T : Type 0) : Type 0 where
  pub id : String
  pub market_contract_id : String
  pub collateral_token : String
  pub loan_token : String
  pub oracle : String
  pub irm : String
  pub ltv : D
  pub created_at : T

-- `fields` stands for the JSON value that the event's fields are encoded as.
pub record NewLendingEvent (D T : Type 0) : Type 0 where
  pub market_id : String
  pub event_type : String
  pub token_id : String
  pub on_behalf : String
  pub amount : D
  pub shares : D
  pub transaction_id : String
  pub event_index : ℤ
  pub block_time : T
  pub created_at : T
  pub fields : List EventField

-- `Value::as_str`
abbrev pub as_str : JsonValue → Option String
as_str (string s) = some s
as_str not_string = none

unfoldable pub extract_string_field : List EventField → ℕ → Option String
extract_string_field fields index = get_elem? fields index >>= λ field. as_str field.value

unfoldable pub extract_bigdecimal_field :
    {D : Type 0} → BigDecimal D → List EventField → ℕ → Option D
extract_bigdecimal_field decimal fields index =
    get_elem? fields index >>= λ field. as_str field.value >>= λ s. decimal.parse s

abbrev pub loan_token_of : {D T : Type 0} → Option (Market D T) → String
loan_token_of none = ""
loan_token_of (some m) = m.loan_token

abbrev pub collateral_token_of : {D T : Type 0} → Option (Market D T) → String
collateral_token_of none = ""
collateral_token_of (some m) = m.collateral_token

abbrev pub is_linx_event : String → ContractEventByBlockHash → ℕ → Bool
is_linx_event linx_address event index =
    eqb event.contract_address linx_address && is_nat event.event_index index

module _ {D T : Type 0} (decimal : BigDecimal D) (chrono : NaiveDateTime T) where
  -- The time of a block, in whole seconds.
  abbrev pub block_time_of : RichBlockEntry → T
  block_time_of block =
      unwrap_or chrono.default_time (chrono.from_timestamp (div_trunc block.timestamp 1000) 0)

  module _ (linx_address : String) where
    abbrev pub market_of : RichBlockEntry → ContractEventByBlockHash → Option (Market D T)
    market_of block event = do
      id ← extract_string_field event.fields 0
      market_contract_id ← extract_string_field event.fields 1
      loan_token ← extract_string_field event.fields 2
      collateral_token ← extract_string_field event.fields 3
      oracle ← extract_string_field event.fields 4
      irm ← extract_string_field event.fields 5
      ltv ← extract_bigdecimal_field decimal event.fields 6
      some (record {
        id = id;
        market_contract_id = market_contract_id;
        collateral_token = collateral_token;
        loan_token = loan_token;
        oracle = oracle;
        irm = irm;
        ltv = ltv;
        created_at = block_time_of block;
      })

    unfoldable pub parse_market_created_event :
        RichBlockEntry → ContractEventByBlockHash → Option (Market D T)
    parse_market_created_event block event =
        if is_linx_event linx_address event 4 then market_of block event else none

    unfoldable pub extract_markets : BlockAndEvents → List (Market D T)
    extract_markets block_and_events =
        filter_map (parse_market_created_event block_and_events.block) block_and_events.events

  module _ (linx_address : String) (now : T) where
    -- A row about an event, as the parsers fill it in.
    abbrev pub lending_event :
        RichBlockEntry
        → ContractEventByBlockHash
        → String
        → String
        → String
        → String
        → D
        → D
        → NewLendingEvent D T
    lending_event block event event_type market_id token_id on_behalf amount shares = record {
      market_id = market_id;
      event_type = event_type;
      token_id = token_id;
      on_behalf = on_behalf;
      amount = amount;
      shares = shares;
      transaction_id = event.tx_id;
      event_index = event.event_index;
      block_time = block_time_of block;
      created_at = now;
      fields = event.fields;
    }

    unfoldable pub parse_market_created_lending_event :
        RichBlockEntry → ContractEventByBlockHash → Option (NewLendingEvent D T)
    parse_market_created_lending_event block event = do
      market_id ← extract_string_field event.fields 0
      some (
          lending_event block event "MarketCreated" market_id "" "" decimal.zero_decimal
            decimal.zero_decimal)

    unfoldable pub parse_supply_event :
        RichBlockEntry
        → ContractEventByBlockHash
        → HashMap String (Market D T)
        → Option (NewLendingEvent D T)
    parse_supply_event block event markets_map = do
      market_id ← extract_string_field event.fields 0
      let token_id = loan_token_of (get market_id markets_map)
      on_behalf ← extract_string_field event.fields 2
      amount ← extract_bigdecimal_field decimal event.fields 3
      shares ← extract_bigdecimal_field decimal event.fields 4
      some (lending_event block event "Supply" market_id token_id on_behalf amount shares)

    unfoldable pub parse_withdraw_event :
        RichBlockEntry
        → ContractEventByBlockHash
        → HashMap String (Market D T)
        → Option (NewLendingEvent D T)
    parse_withdraw_event block event markets_map = do
      market_id ← extract_string_field event.fields 0
      let token_id = loan_token_of (get market_id markets_map)
      on_behalf ← extract_string_field event.fields 2
      amount ← extract_bigdecimal_field decimal event.fields 4
      shares ← extract_bigdecimal_field decimal event.fields 5
      some (lending_event block event "Withdraw" market_id token_id on_behalf amount shares)

    unfoldable pub parse_borrow_event :
        RichBlockEntry
        → ContractEventByBlockHash
        → HashMap String (Market D T)
        → Option (NewLendingEvent D T)
    parse_borrow_event block event markets_map = do
      market_id ← extract_string_field event.fields 0
      let token_id = loan_token_of (get market_id markets_map)
      on_behalf ← extract_string_field event.fields 2
      amount ← extract_bigdecimal_field decimal event.fields 4
      shares ← extract_bigdecimal_field decimal event.fields 5
      some (lending_event block event "Borrow" market_id token_id on_behalf amount shares)

    unfoldable pub parse_repay_event :
        RichBlockEntry
        → ContractEventByBlockHash
        → HashMap String (Market D T)
        → Option (NewLendingEvent D T)
    parse_repay_event block event markets_map = do
      market_id ← extract_string_field event.fields 0
      let token_id = loan_token_of (get market_id markets_map)
      on_behalf ← extract_string_field event.fields 2
      amount ← extract_bigdecimal_field decimal event.fields 3
      shares ← extract_bigdecimal_field decimal event.fields 4
      some (lending_event block event "Repay" market_id token_id on_behalf amount shares)

    unfoldable pub parse_supply_collateral_event :
        RichBlockEntry
        → ContractEventByBlockHash
        → HashMap String (Market D T)
        → Option (NewLendingEvent D T)
    parse_supply_collateral_event block event markets_map = do
      market_id ← extract_string_field event.fields 0
      let token_id = collateral_token_of (get market_id markets_map)
      on_behalf ← extract_string_field event.fields 2
      amount ← extract_bigdecimal_field decimal event.fields 3
      some (
          lending_event block event "SupplyCollateral" market_id token_id on_behalf amount
            decimal.zero_decimal)

    unfoldable pub parse_withdraw_collateral_event :
        RichBlockEntry
        → ContractEventByBlockHash
        → HashMap String (Market D T)
        → Option (NewLendingEvent D T)
    parse_withdraw_collateral_event block event markets_map = do
      market_id ← extract_string_field event.fields 0
      let token_id = collateral_token_of (get market_id markets_map)
      on_behalf ← extract_string_field event.fields 2
      amount ← extract_bigdecimal_field decimal event.fields 4
      some (
          lending_event block event "WithdrawCollateral" market_id token_id on_behalf amount
            decimal.zero_decimal)

    unfoldable pub parse_liquidate_event :
        RichBlockEntry
        → ContractEventByBlockHash
        → HashMap String (Market D T)
        → Option (NewLendingEvent D T)
    parse_liquidate_event block event markets_map = do
      market_id ← extract_string_field event.fields 0
      let token_id = collateral_token_of (get market_id markets_map)
      on_behalf ← extract_string_field event.fields 2
      amount ← extract_bigdecimal_field decimal event.fields 5
      shares ← extract_bigdecimal_field decimal event.fields 4
      some (lending_event block event "Liquidate" market_id token_id on_behalf amount shares)

    unfoldable pub parse_accrue_interest_event :
        RichBlockEntry
        → ContractEventByBlockHash
        → HashMap String (Market D T)
        → Option (NewLendingEvent D T)
    parse_accrue_interest_event block event markets_map = do
      market_id ← extract_string_field event.fields 0
      let token_id = loan_token_of (get market_id markets_map)
      amount ← extract_bigdecimal_field decimal event.fields 2
      shares ← extract_bigdecimal_field decimal event.fields 3
      some (lending_event block event "AccrueInterest" market_id token_id "" amount shares)
