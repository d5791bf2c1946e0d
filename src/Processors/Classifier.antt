-- ===== src/Processors/Classifier.antt =====
-- examples/linx-indexer/src/processors/classifier.rs: what kind of transaction a transaction is.
use linx_app_backend.Base.{
  Bool, true, false, ◌&&◌, ◌||◌, not, List, [], ◌∷◌, String, length, ◌==◌, if◌then◌else◌,
}
use linx_app_backend.Base.Equality.{string_eq, contains}
use linx_app_backend.Types.Block.{Transaction}

pub data TransactionCategory : Type 0 where
  transfer : TransactionCategory
  swap : TransactionCategory
  contract_call : TransactionCategory
  block_reward : TransactionCategory
  unknown : TransactionCategory

pub record TransactionClassifier : Type 0 where
  pub dex_contract_addresses : List String

abbrev pub any : {A : Type 0} → (A → Bool) → List A → Bool
any test [] = false
any test (a ∷ as') = test a || any test as'

abbrev pub is_empty : {A : Type 0} → List A → Bool
is_empty [] = true
is_empty (a ∷ as') = false

unfoldable pub is_swap_transaction : TransactionClassifier → Transaction → Bool
is_swap_transaction self tx =
    any (λ input. contains self.dex_contract_addresses input.address) tx.contract_inputs
    || any (λ output. contains self.dex_contract_addresses output.address) tx.generated_outputs

unfoldable pub is_contract_transaction : Transaction → Bool
is_contract_transaction tx =
    not (is_empty tx.contract_inputs) || not (is_empty tx.generated_outputs)

unfoldable pub is_block_reward : Transaction → Bool
is_block_reward tx = is_empty tx.unsigned.inputs && length tx.unsigned.fixed_outputs == 1

unfoldable pub classify : TransactionClassifier → Transaction → TransactionCategory
classify self tx =
    if is_block_reward tx
    then block_reward
    else if is_swap_transaction self tx
    then swap
    else if is_contract_transaction tx
    then contract_call
    else transfer
