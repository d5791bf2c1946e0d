-- ===== src/Processors/Lending/Layout.antt =====
-- The layouts of the Linx contract's events, as a table, against the parsers of
-- examples/linx-indexer/src/processors/lending_processor.rs.
use linx_app_backend.Base.{
  ℕ, Bool, true, false, ◌&&◌, Option, some, none, List, [], ◌∷◌, String, ◌≡◌, refl, if◌then◌else◌,
}
use linx_app_backend.Base.Equality.{string_eq, eqb}
use linx_app_backend.Base.HashMap.{HashMap, get}
use linx_app_backend.Base.Ints.{ℤ, is_nat}
use linx_app_backend.Types.Block.{RichBlockEntry, ContractEventByBlockHash, EventField}
use linx_app_backend.Types.Libraries.{BigDecimal, NaiveDateTime}
use linx_app_backend.Processors.Lending.{parse_lending_event}
use linx_app_backend.Processors.LendingEvents.{
  ◌>>=◌, Market, NewLendingEvent, extract_string_field, extract_bigdecimal_field, loan_token_of,
  collateral_token_of, lending_event, parse_market_created_lending_event, parse_supply_event,
  parse_withdraw_event, parse_borrow_event, parse_repay_event, parse_supply_collateral_event,
  parse_withdraw_collateral_event, parse_liquidate_event, parse_accrue_interest_event,
}

-- Which token of its market an event is about.
pub data TokenKind : Type 0 where
  no_token : TokenKind
  loan : TokenKind
  collateral : TokenKind

-- The places of an event's fields; a field that it does not have is empty or zero.
pub record EventLayout : Type 0 where
  pub event_type : String
  pub token : TokenKind
  pub on_behalf : Option ℕ
  pub amount : Option ℕ
  pub shares : Option ℕ

abbrev layout : String → TokenKind → Option ℕ → Option ℕ → Option ℕ → EventLayout
layout event_type token on_behalf amount shares = record {
  event_type = event_type;
  token = token;
  on_behalf = on_behalf;
  amount = amount;
  shares = shares;
}

-- By the index of the event in the contract; the market's id is field 0 of each.
abbrev pub layouts : List (ℕ × EventLayout)
layouts =
    (4, layout "MarketCreated" no_token none none none)
    ∷ (10, layout "Supply" loan (some 2) (some 3) (some 4))
    ∷ (11, layout "Withdraw" loan (some 2) (some 4) (some 5))
    ∷ (12, layout "Borrow" loan (some 2) (some 4) (some 5))
    ∷ (13, layout "Repay" loan (some 2) (some 3) (some 4))
    ∷ (14, layout "SupplyCollateral" collateral (some 2) (some 3) none)
    ∷ (15, layout "WithdrawCollateral" collateral (some 2) (some 4) none)
    ∷ (16, layout "Liquidate" collateral (some 2) (some 5) (some 4))
    ∷ (17, layout "AccrueInterest" loan none (some 2) (some 3))
    ∷ []

abbrev pub find_layout : ℤ → List (ℕ × EventLayout) → Option EventLayout
find_layout index [] = none
find_layout index ((n, l) ∷ rest) = if is_nat index n then some l else find_layout index rest

no_layout : {A : Type 0} (b : Bool) → ◌≡◌ {A = Option A} none (if b then none else none)
no_layout true = refl
no_layout false = refl

module _ {D T : Type 0} (decimal : BigDecimal D) (chrono : NaiveDateTime T) (linx_address : String)
    (now : T) where
  abbrev pub token_of : TokenKind → Option (Market D T) → String
  token_of no_token m = ""
  token_of loan m = loan_token_of m
  token_of collateral m = collateral_token_of m

  abbrev string_at : List EventField → Option ℕ → Option String
  string_at fields none = some ""
  string_at fields (some i) = extract_string_field fields i

  abbrev decimal_at : List EventField → Option ℕ → Option D
  decimal_at fields none = some decimal.zero_decimal
  decimal_at fields (some i) = extract_bigdecimal_field decimal fields i

  -- An event read by its layout, with the markets by their ids.
  abbrev read_layout :
      (String → Option (Market D T))
      → RichBlockEntry
      → ContractEventByBlockHash
      → Option EventLayout
      → Option (NewLendingEvent D T)
  read_layout market block event none = none
  read_layout market block event (some l) = do
    market_id ← extract_string_field event.fields 0
    on_behalf ← string_at event.fields l.on_behalf
    amount ← decimal_at event.fields l.amount
    shares ← decimal_at event.fields l.shares
    some (
        lending_event decimal chrono linx_address now block event l.event_type market_id
          (token_of l.token (market market_id)) on_behalf amount shares)

  abbrev pub read_event :
      (String → Option (Market D T))
      → RichBlockEntry
      → ContractEventByBlockHash
      → Option (NewLendingEvent D T)
  read_event market block event =
      if eqb event.contract_address linx_address
      then read_layout market block event (find_layout event.event_index layouts)
      else none

  branch :
      (ours this : Bool) (parsed others : Option (NewLendingEvent D T))
      (read : Option EventLayout → Option (NewLendingEvent D T)) (l : EventLayout)
      (o : Option EventLayout)
      → parsed ≡ read (some l)
      → others ≡ (if ours then read o else none)
      → (if ours && this then parsed else others)
        ≡ (if ours then read (if this then some l else o) else none)
  branch true true parsed others read l o p q = p
  branch true false parsed others read l o p q = q
  branch false this parsed others read l o p q = q

  pub parse_lending_event_lem :
      (block : RichBlockEntry) (event : ContractEventByBlockHash)
      (markets_map : HashMap String (Market D T))
      → parse_lending_event decimal chrono linx_address now block event markets_map
        ≡ read_event (λ id. get id markets_map) block event
  unfolding parse_lending_event parse_market_created_lending_event parse_supply_event
      parse_withdraw_event parse_borrow_event parse_repay_event parse_supply_collateral_event
      parse_withdraw_collateral_event parse_liquidate_event parse_accrue_interest_event
  parse_lending_event_lem block event markets_map =
      branch _ _ _ _ (read_layout (λ id. get id markets_map) block event) _ _ refl (
        branch _ _ _ _ (read_layout (λ id. get id markets_map) block event) _ _ refl (
          branch _ _ _ _ (read_layout (λ id. get id markets_map) block event) _ _ refl (
            branch _ _ _ _ (read_layout (λ id. get id markets_map) block event) _ _ refl (
              branch _ _ _ _ (read_layout (λ id. get id markets_map) block event) _ _ refl (
                branch _ _ _ _ (read_layout (λ id. get id markets_map) block event) _ _ refl (
                  branch _ _ _ _ (read_layout (λ id. get id markets_map) block event) _ _ refl (
                    branch _ _ _ _ (read_layout (λ id. get id markets_map) block event) _ _ refl (
                      branch _ _ _ _ (read_layout (λ id. get id markets_map) block event) _ _ refl
                        (no_layout (eqb event.contract_address linx_address))))))))))
