-- ===== src/Positions/Pages.antt =====
-- `calculate_positions_for_market` of examples/linx-indexer/src/repository/lending_repository.rs. A page
-- is one of addresses: an address whose position is closed takes a place in it and gives no position.
use linx_app_backend.Base.{
  ℕ, zero, suc, ◌-◌, ◌*◌, Bool, some, none, List, [], ◌∷◌, String, if◌then◌else◌, filter_map,
}
use linx_app_backend.Base.Equality.{string_eq, eqb}
use linx_app_backend.Positions.Shares.{LendingEvent, Amounts, Position, calculate_user_position}

abbrev pub limit : {A : Type 0} → ℕ → List A → List A
limit zero xs = []
limit (suc n) [] = []
limit (suc n) (x ∷ xs) = x ∷ limit n xs

abbrev pub offset : {A : Type 0} → ℕ → List A → List A
offset zero xs = xs
offset (suc n) [] = []
offset (suc n) (x ∷ xs) = offset n xs

-- Insertion into a list in order without repetition; `before` is the database's order of texts.
abbrev insert_distinct : (String → String → Bool) → String → List String → List String
insert_distinct before a [] = a ∷ []
insert_distinct before a (b ∷ bs) =
    let rest = insert_distinct before a bs in
    if eqb a b then b ∷ bs else (if before a b then a ∷ b ∷ bs else b ∷ rest)

unfoldable pub distinct : (String → String → Bool) → List String → List String
distinct before [] = []
distinct before (a ∷ as') = insert_distinct before a (distinct before as')

module _ {D : Type 0} (amounts : Amounts D) (before : String → String → Bool)
    (events : List (LendingEvent D)) (market_id : String) where
  -- The addresses with an event in the market.
  abbrev pub addresses : List String
  addresses =
      distinct before
        (filter_map (λ e. if eqb e.market_id market_id then some e.on_behalf else none) events)

  abbrev pub positions_of : List String → List (Position D)
  positions_of as' = filter_map (λ a. calculate_user_position amounts a market_id events) as'

  -- Pages count from 1.
  unfoldable pub calculate_positions_for_market : ℕ → ℕ → List (Position D)
  calculate_positions_for_market page page_size =
      positions_of (limit page_size (offset ((page - 1) * page_size) addresses))
