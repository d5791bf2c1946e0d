-- ===== src/Positions/Markets.antt =====
-- `get_market_state` of examples/linx-indexer/src/services/position_snapshot_service.rs: the totals of a
-- market from a call of its contract. The answer of the node is an argument; the texts of errors are
-- shortened.
use linx_app_backend.Base.{Option, some, none, List, [], ◌∷◌, String}
use linx_app_backend.Base.Outcome.{Outcome, ok, err, panic, message, context, with_context, ◌>>=◌}
use linx_app_backend.Types.Libraries.{NaiveDateTime, timestamp_millis_to_naive_datetime}
use linx_app_backend.Positions.Shares.{Amounts}

pub record MarketState (D T : Type 0) : Type 0 where
  pub total_supply_assets : D
  pub total_supply_shares : D
  pub total_borrow_assets : D
  pub total_borrow_shares : D
  pub last_update : T
  pub fee : D

pub data CallContractResultType : Type 0 where
  call_contract_failed : CallContractResultType
  call_contract_succeeded : CallContractResultType

-- A returned value is the text under its key "value", if it is an object with such a text.
pub record CallContractResult : Type 0 where
  pub result_type : CallContractResultType
  pub returns : Option (List (Option String))

abbrev pub or_bail : {A : Type 0} → String → Option A → Outcome A
or_bail text none = err (message text)
or_bail text (some a) = ok a

abbrev pub or_default : {A : Type 0} → A → Outcome A → Outcome A
or_default a (ok b) = ok b
or_default a (err e) = ok a
or_default a panic = panic

module _ {D T : Type 0} (amounts : Amounts D) (chrono : NaiveDateTime T) where
  abbrev pub extract_bigdecimal_from_object : Option String → Outcome D
  extract_bigdecimal_from_object value = or_bail "Invalid object structure" value >>= λ s.
      or_bail "Failed to parse BigDecimal" (amounts.decimal.parse s)

  abbrev state_of_six :
      Option String
      → Option String
      → Option String
      → Option String
      → Option String
      → Option String
      → Outcome (MarketState D T)
  state_of_six a b c d e f =
      with_context "Failed to extract total_supply_assets" (extract_bigdecimal_from_object a)
      >>= λ total_supply_assets.
          with_context "Failed to extract total_supply_shares" (extract_bigdecimal_from_object b)
          >>= λ total_supply_shares.
              with_context "Failed to extract total_borrow_assets"
                (extract_bigdecimal_from_object c)
              >>= λ total_borrow_assets.
                  with_context "Failed to extract total_borrow_shares"
                    (extract_bigdecimal_from_object d)
                  >>= λ total_borrow_shares.
                      with_context "Failed to extract timestamp" (extract_bigdecimal_from_object e)
                      >>= λ seconds.
                          or_bail "Failed to convert timestamp to i64" (amounts.to_i64 seconds)
                          >>= λ timestamp.
                              or_default amounts.decimal.zero_decimal
                                (extract_bigdecimal_from_object f)
                              >>= λ fee. ok (record {
                                total_supply_assets = total_supply_assets;
                                total_supply_shares = total_supply_shares;
                                total_borrow_assets = total_borrow_assets;
                                total_borrow_shares = total_borrow_shares;
                                last_update = timestamp_millis_to_naive_datetime chrono timestamp;
                                fee = fee;
                              })

  abbrev state_of_returns : List (Option String) → Outcome (MarketState D T)
  state_of_returns (a ∷ b ∷ c ∷ d ∷ e ∷ f ∷ []) = state_of_six a b c d e f
  state_of_returns returns = err (message "Expected 6 return values")

  abbrev state_of_result : CallContractResult → Outcome (MarketState D T)
  state_of_result result = elim (result.result_type) [
    | call_contract_failed ↦ err (message "Contract call failed")
    | call_contract_succeeded ↦
        or_bail "No returns in contract call" result.returns >>= state_of_returns
  ]

  -- `client.call_contract(params)` is the argument `call_contract`, for the market's id.
  unfoldable pub get_market_state :
      (String → Outcome CallContractResult) → String → Outcome (MarketState D T)
  get_market_state call_contract market_id = elim (call_contract market_id) [
    | ok result ↦ state_of_result result
    | err e ↦ err (context "Failed to fetch market state" e)
    | panic ↦ panic
  ]
