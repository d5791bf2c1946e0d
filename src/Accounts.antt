-- ===== src/Accounts.antt =====
-- examples/linx-indexer/src/repository/account_transactions_repository.rs: the table of the account
-- transactions. Its unique key is the generated column of
-- examples/linx-indexer/migrations/2026-01-14-070114_refactor_account_transactions_with_jsonb.
pub mod Insertion
pub mod Pages
mod Tests
use linx_app_backend.Base.{
  ℕ, zero, suc, ◌+◌, Bool, true, false, not, ◌&&◌, ◌||◌, Option, some, none, List, [], ◌∷◌, ◌++◌,
  map, String, ltb, leb, filter, if◌then◌else◌,
}
use linx_app_backend.Base.Equality.{string_eq, eqb}
use linx_app_backend.Base.Outcome.{Outcome, ok, err, panic}
use linx_app_backend.Base.Action.{Action}
use linx_app_backend.Processors.Records.{
  NewAccountTransaction, SwapDetails, Details, transfer_details, swap_details,
  contract_call_details,
}

-- The database: whether a connection is to be had, the generated key of a row, and whether it
-- refuses a row for another reason, as one that is too long.
pub record Database (D T : Type 0) : Type 0 where
  pub connection : Outcome (Unit {0})
  pub tx_key : NewAccountTransaction D T → String
  pub refuses : NewAccountTransaction D T → Bool

abbrev pub take : {A : Type 0} → ℕ → List A → List A
take zero xs = []
take (suc n) [] = []
take (suc n) (x ∷ xs) = x ∷ take n xs

abbrev pub before : Option ℕ → ℕ → Bool
before none time = true
before (some cursor) time = ltb time cursor

module _ {D T : Type 0} where
  unfoldable pub has_key : Database D T → String → List (NewAccountTransaction D T) → Bool
  has_key db key [] = false
  has_key db key (row ∷ rows) = eqb (db.tx_key row) key || has_key db key rows

  -- `INSERT … ON CONFLICT (tx_key) DO NOTHING`, whose errors are only logged.
  unfoldable pub insert_one :
      Database D T
      → NewAccountTransaction D T
      → List (NewAccountTransaction D T)
      → List (NewAccountTransaction D T)
  insert_one db tx table =
      if db.refuses tx || has_key db (db.tx_key tx) table then table else table ++ tx ∷ []

  unfoldable pub insert_all :
      Database D T
      → List (NewAccountTransaction D T)
      → List (NewAccountTransaction D T)
      → List (NewAccountTransaction D T)
  insert_all db [] table = table
  insert_all db (tx ∷ txs) table = insert_all db txs (insert_one db tx table)

  abbrev pub connected :
      Database D T
      → Outcome (Unit {0})
      → List (NewAccountTransaction D T)
      → Action (List (NewAccountTransaction D T)) (Unit {0})
  connected db (ok u) txs table = (ok tt, insert_all db txs table)
  connected db (err e) txs table = (err e, table)
  connected db panic txs table = (panic, table)

  unfoldable pub insert_transactions :
      Database D T
      → List (NewAccountTransaction D T)
      → Action (List (NewAccountTransaction D T)) (Unit {0})
  insert_transactions db [] table = (ok tt, table)
  insert_transactions db (tx ∷ txs) table = connected db db.connection (tx ∷ txs) table

-- A page of an address: the newest rows first, before the cursor, at most `limit`. Times are numbers;
-- the table's own order decides between rows of one time.
module _ {D : Type 0} where
  abbrev pub newest_first :
      NewAccountTransaction D ℕ
      → List (NewAccountTransaction D ℕ)
      → List (NewAccountTransaction D ℕ)
  newest_first tx [] = tx ∷ []
  newest_first tx (x ∷ xs) =
      let rest = newest_first tx xs in
      if leb x.timestamp tx.timestamp then tx ∷ x ∷ xs else x ∷ rest

  unfoldable pub order_by_time : List (NewAccountTransaction D ℕ) → List (NewAccountTransaction D ℕ)
  order_by_time [] = []
  order_by_time (tx ∷ txs) = newest_first tx (order_by_time txs)

  unfoldable pub get_account_transactions :
      String → ℕ → Option ℕ → List (NewAccountTransaction D ℕ) → List (NewAccountTransaction D ℕ)
  get_account_transactions address limit cursor table =
      take limit
        (order_by_time (filter (λ tx. eqb tx.address address && before cursor tx.timestamp) table))
