-- ===== src/Positions/Shares.antt =====
-- `calculate_user_position` of examples/linx-indexer/src/repository/lending_repository.rs: what the
-- events of a user make of the shares and amounts in one market. Times are numbers, and an event is
-- its row without the id.
use linx_app_backend.Base.{
  ℕ, Bool, ◌&&◌, Option, some, none, List, [], ◌∷◌, String, ltb, filter, if◌then◌else◌,
}
use linx_app_backend.Base.Equality.{string_eq, eqb}
use linx_app_backend.Base.Ints.{ℤ}
use linx_app_backend.Types.Libraries.{BigDecimal}
use linx_app_backend.Processors.LendingEvents.{NewLendingEvent, extract_bigdecimal_field}
use linx_app_backend.Points.Activity.{Arithmetic}

abbrev pub LendingEvent : Type 0 → Type 0
LendingEvent D = NewLendingEvent D ℕ

-- Decimals, as the positions and their snapshots use them.
pub record Amounts (D : Type 0) : Type 0 where
  pub arithmetic : Arithmetic D
  pub decimal : BigDecimal D
  pub minus : D → D → D
  pub with_scale : D → ℕ → D
  pub to_i64 : D → Option ℤ

pub record Position (D : Type 0) : Type 0 where
  pub market_id : String
  pub address : String
  pub supply_shares : D
  pub borrow_shares : D
  pub collateral : D
  pub supplied_amount : D
  pub borrowed_amount : D
  pub updated_at : ℕ

-- Insertion before the later events; where two have one time, the database may order them either way.
abbrev by_time : {D : Type 0} → LendingEvent D → List (LendingEvent D) → List (LendingEvent D)
by_time e [] = e ∷ []
by_time e (f ∷ fs) =
    let rest = by_time e fs in if ltb f.block_time e.block_time then f ∷ rest else e ∷ f ∷ fs

abbrev order_by_block_time : {D : Type 0} → List (LendingEvent D) → List (LendingEvent D)
order_by_block_time [] = []
order_by_block_time (e ∷ es) = by_time e (order_by_block_time es)

unfoldable pub get_user_events_for_market :
    {D : Type 0} → String → String → List (LendingEvent D) → List (LendingEvent D)
get_user_events_for_market address market_id events =
    order_by_block_time (filter (λ e. eqb e.on_behalf address && eqb e.market_id market_id) events)

module _ {D : Type 0} (amounts : Amounts D) where
  abbrev zero_amount : D
  zero_amount = amounts.arithmetic.zero_amount

  -- An amount less another, and zero where that is greater.
  abbrev pub reduced : D → D → D
  reduced amount by =
      if amounts.arithmetic.greater by amount then zero_amount else amounts.minus amount by

  abbrev repaid : D → Option D → D
  repaid borrowed_amount none = borrowed_amount
  repaid borrowed_amount (some repaid_assets) = reduced borrowed_amount repaid_assets

  abbrev supply : LendingEvent D → Position D → Position D
  supply event p = record p {
    supply_shares = amounts.arithmetic.plus p.supply_shares event.shares;
    supplied_amount = amounts.arithmetic.plus p.supplied_amount event.amount;
  }

  abbrev withdraw : LendingEvent D → Position D → Position D
  withdraw event p = record p {
    supply_shares = amounts.minus p.supply_shares event.shares;
    supplied_amount = reduced p.supplied_amount event.amount;
  }

  abbrev borrow : LendingEvent D → Position D → Position D
  borrow event p = record p {
    borrow_shares = amounts.arithmetic.plus p.borrow_shares event.shares;
    borrowed_amount = amounts.arithmetic.plus p.borrowed_amount event.amount;
  }

  abbrev repay : LendingEvent D → Position D → Position D
  repay event p = record p {
    borrow_shares = amounts.minus p.borrow_shares event.shares;
    borrowed_amount = reduced p.borrowed_amount event.amount;
  }

  -- The repaid assets are the fourth field of the event.
  abbrev liquidate : LendingEvent D → Position D → Position D
  liquidate event p = record p {
    borrow_shares = amounts.minus p.borrow_shares event.shares;
    collateral = amounts.minus p.collateral event.amount;
    borrowed_amount =
        repaid p.borrowed_amount (extract_bigdecimal_field amounts.decimal event.fields 3);
  }

  -- `match event.event_type.as_str()`
  abbrev pub changed : LendingEvent D → Position D → Position D
  changed event p =
      if eqb event.event_type "Supply"
      then supply event p
      else if eqb event.event_type "Withdraw"
      then withdraw event p
      else if eqb event.event_type "Borrow"
      then borrow event p
      else if eqb event.event_type "Repay"
      then repay event p
      else if eqb event.event_type "SupplyCollateral"
      then record p { collateral = amounts.arithmetic.plus p.collateral event.amount }
      else if eqb event.event_type "WithdrawCollateral"
      then record p { collateral = amounts.minus p.collateral event.amount }
      else if eqb event.event_type "Liquidate"
      then liquidate event p
      else p

  abbrev pub touched : LendingEvent D → Position D → Position D
  touched event p =
      if ltb p.updated_at event.block_time then record p { updated_at = event.block_time } else p

  unfoldable pub replay : List (LendingEvent D) → Position D → Position D
  replay [] p = p
  replay (event ∷ events) p = replay events (touched event (changed event p))

  abbrev pub is_closed : Position D → Bool
  is_closed p =
      amounts.arithmetic.is_zero p.supply_shares
      && amounts.arithmetic.is_zero p.borrow_shares
      && amounts.arithmetic.is_zero p.collateral

  abbrev pub empty_position : String → String → ℕ → Position D
  empty_position address market_id updated_at = record {
    market_id = market_id;
    address = address;
    supply_shares = zero_amount;
    borrow_shares = zero_amount;
    collateral = zero_amount;
    supplied_amount = zero_amount;
    borrowed_amount = zero_amount;
    updated_at = updated_at;
  }

  abbrev if_open : Position D → Option (Position D)
  if_open p = if is_closed p then none else some p

  abbrev pub position_of : String → String → List (LendingEvent D) → Option (Position D)
  position_of address market_id [] = none
  position_of address market_id (event ∷ events) =
      if_open (replay (event ∷ events) (empty_position address market_id event.block_time))

  unfoldable pub calculate_user_position :
      String → String → List (LendingEvent D) → Option (Position D)
  calculate_user_position address market_id events =
      position_of address market_id (get_user_events_for_market address market_id events)
