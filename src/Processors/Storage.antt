-- ===== src/Processors/Storage.antt =====
-- `store_output` of examples/linx-indexer/src/processors/transfer_processor.rs and
-- contract_call_processor.rs.
use linx_app_backend.Base.{List, [], ◌∷◌}
use linx_app_backend.Base.Outcome.{ok, err, message}
use linx_app_backend.Base.Action.{Action}
use linx_app_backend.Processors.Records.{NewAccountTransaction}
use linx_app_backend.Accounts.{Database, insert_transactions}

-- `ProcessorOutput`, as far as these processors tell its values apart: outputs of the library's own
-- processors, and custom ones by their type.
pub data ProcessorOutput (D T : Type 0) : Type 0 where
  built_in : ProcessorOutput D T
  transfers : List (NewAccountTransaction D T) → ProcessorOutput D T
  contract_calls : List (NewAccountTransaction D T) → ProcessorOutput D T
  other_custom : ProcessorOutput D T

module _ {D T : Type 0} (db : Database D T) where
  abbrev unless_none :
      List (NewAccountTransaction D T) → Action (List (NewAccountTransaction D T)) (Unit {0})
  unless_none [] table = (ok tt, table)
  unless_none (row ∷ rows) table = insert_transactions db (row ∷ rows) table

  unfoldable pub store_transfers :
      ProcessorOutput D T → Action (List (NewAccountTransaction D T)) (Unit {0})
  store_transfers (transfers rows) table = unless_none rows table
  store_transfers (contract_calls rows) table = (err (message "Invalid custom output type"), table)
  store_transfers other_custom table = (err (message "Invalid custom output type"), table)
  store_transfers built_in table = (err (message "Expected Custom output type"), table)

  unfoldable pub store_calls :
      ProcessorOutput D T → Action (List (NewAccountTransaction D T)) (Unit {0})
  store_calls (contract_calls rows) table = unless_none rows table
  store_calls (transfers rows) table = (err (message "Invalid custom output type"), table)
  store_calls other_custom table = (err (message "Invalid custom output type"), table)
  store_calls built_in table = (err (message "Expected Custom output type"), table)
