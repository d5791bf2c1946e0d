-- ===== src/Processors/ContractCall.antt =====
-- examples/linx-indexer/src/processors/contract_call_processor.rs: one row for a transaction that
-- calls a contract. The encoding of its details as JSON does not fail.
use linx_app_backend.Base.{
  Bool, true, false, Option, some, none, List, [], ◌∷◌, filter, filter_map, flat_map,
}
use linx_app_backend.Types.Block.{
  Transaction, RichBlockEntry, BlockAndEvents, RichAssetInput, ContractInput,
}
use linx_app_backend.Types.Libraries.{NaiveDateTime}
use linx_app_backend.Processors.Classifier.{
  classify, TransactionCategory, transfer, swap, contract_call, block_reward, unknown,
}
use linx_app_backend.Processors.Records.{NewAccountTransaction, contract_call_details, account_row}
use linx_app_backend.Processors.Transfer.{no_exchanges}

-- `iter.first()`
abbrev pub first : {A : Type 0} → List A → Option A
first [] = none
first (a ∷ as') = some a

module _ {D T : Type 0} (chrono : NaiveDateTime T) where
  abbrev pub call_record :
      Transaction → RichBlockEntry → RichAssetInput → ContractInput → NewAccountTransaction D T
  call_record tx block input contract =
      account_row chrono tx block input.address "contract_call"
        (contract_call_details (record { contract_address = contract.address }))

  abbrev pub contract_call_row :
      Transaction
      → RichBlockEntry
      → Option RichAssetInput
      → Option ContractInput
      → Option (NewAccountTransaction D T)
  contract_call_row tx block none contract = none
  contract_call_row tx block (some input) none = none
  contract_call_row tx block (some input) (some contract) =
      some (call_record tx block input contract)

  unfoldable pub extract_contract_call :
      Transaction → RichBlockEntry → Option (NewAccountTransaction D T)
  extract_contract_call tx block =
      contract_call_row tx block (first tx.unsigned.inputs) (first tx.contract_inputs)

-- `TransactionClassifier::classify(tx) == TransactionCategory::ContractCall`
abbrev pub is_contract_call : TransactionCategory → Bool
is_contract_call transfer = false
is_contract_call swap = false
is_contract_call contract_call = true
is_contract_call block_reward = false
is_contract_call unknown = false

unfoldable pub process_calls :
    {D T : Type 0} → NaiveDateTime T → List BlockAndEvents → List (NewAccountTransaction D T)
process_calls chrono bwe =
    flat_map
      (λ el.
        filter_map (λ tx. extract_contract_call chrono tx el.block)
          (filter (λ tx. is_contract_call (classify no_exchanges tx)) el.block.transactions))
      bwe
