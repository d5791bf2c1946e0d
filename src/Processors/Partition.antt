-- ===== src/Processors/Partition.antt =====
-- What the classifier (examples/linx-indexer/src/processors/classifier.rs) gives to which processor.
use linx_app_backend.Base.{
  Bool, true, false, some, List, [], ◌∷◌, String, ◌≡◌, refl, sym, ap, ◌∙◌, ◌⊎◌, ◌↔◌, arith,
  if◌then◌else◌, In, filter, In-flat_map, In→flat_map, In-filter, In→filter, In-filter_map,
  In→filter_map,
}
use linx_app_backend.Base.HashMap.{HashMap}
use linx_app_backend.Types.Block.{
  Transaction, RichBlockEntry, BlockAndEvents, RichAssetInput, ContractInput,
}
use linx_app_backend.Types.Libraries.{BigDecimal, NaiveDateTime}
use linx_app_backend.Processors.Classifier.{
  classify, is_swap_transaction, is_contract_transaction, is_block_reward, any, is_empty,
  contract_call, transfer, swap, block_reward,
}
use linx_app_backend.Processors.Records.{NewAccountTransaction}
use linx_app_backend.Processors.Transfer.{
  Key, no_exchanges, is_transfer, process_blocks, sender_record, receiver_record,
}
use linx_app_backend.Processors.Transfer.Sound.{IsTransfer, Visits, reported-IsTransfer}
use linx_app_backend.Processors.ContractCall.{
  is_contract_call, extract_contract_call, process_calls, contract_call_row, call_record, first,
}

any-false : {A : Type 0} (xs : List A) → any (λ x. false) xs ≡ false
any-false [] = refl
any-false (x ∷ xs) = any-false xs

-- With no exchanges there are no swaps.
no_swaps : (tx : Transaction) → is_swap_transaction no_exchanges tx ≡ false
unfolding is_swap_transaction
no_swaps tx =
    let p = any-false tx.contract_inputs in let q = any-false tx.generated_outputs in ground arith

is_empty_iff : {A : Type 0} (xs : List A) → (is_empty xs ≡ true) ↔ (xs ≡ [])
is_empty_iff [] = (λ h. refl, λ h. refl)
is_empty_iff (x ∷ xs) = (λ h. cc, λ h. cc)

classify_transfer :
    (swap_test reward contract : Bool)
    → swap_test ≡ false
    → (is_transfer (
          if reward
          then block_reward
          else if swap_test
          then swap
          else if contract
          then contract_call
          else transfer)
        ≡ true)
      ↔ ((reward ≡ false) × (contract ≡ false))
classify_transfer swap_test reward contract h = ground arith

-- A transaction goes to the transfers exactly if no contract is involved and it is no block reward.
pub is_transfer_iff :
    (tx : Transaction)
    → (is_transfer (classify no_exchanges tx) ≡ true)
      ↔ ((is_block_reward tx ≡ false) × (is_contract_transaction tx ≡ false))
unfolding classify
is_transfer_iff tx = classify_transfer _ _ _ (no_swaps tx)

classify_call :
    (swap_test reward contract : Bool)
    → swap_test ≡ false
    → (is_contract_call (
          if reward
          then block_reward
          else if swap_test
          then swap
          else if contract
          then contract_call
          else transfer)
        ≡ true)
      ↔ ((reward ≡ false) × (contract ≡ true))
classify_call swap_test reward contract h = ground arith

pub is_call_iff :
    (tx : Transaction)
    → (is_contract_call (classify no_exchanges tx) ≡ true)
      ↔ ((is_block_reward tx ≡ false) × (is_contract_transaction tx ≡ true))
unfolding classify
is_call_iff tx = classify_call _ _ _ (no_swaps tx)

plain_transfer :
    (tx : Transaction)
    → is_contract_transaction tx ≡ false
    → (tx.contract_inputs ≡ []) × (tx.generated_outputs ≡ [])
unfolding is_contract_transaction
plain_transfer tx h =
    let p : is_empty tx.contract_inputs ≡ true = ground arith in
    let q : is_empty tx.generated_outputs ≡ true = ground arith in
    ((is_empty_iff tx.contract_inputs).0 p, (is_empty_iff tx.generated_outputs).0 q)

contract_involved :
    (tx : Transaction) (input : RichAssetInput) (rest : List RichAssetInput)
    (contract : ContractInput) (others : List ContractInput)
    → tx.unsigned.inputs ≡ input ∷ rest
    → tx.contract_inputs ≡ contract ∷ others
    → (is_block_reward tx ≡ false) × (is_contract_transaction tx ≡ true)
unfolding is_block_reward is_contract_transaction
contract_involved tx input rest contract others p q =
    let p' = ap is_empty p in let q' = ap is_empty q in (ground arith, ground arith)

ap2 : {A B C : Type 0} (f : A → B → C) {a a' : A} {b b' : B} → a ≡ a' → b ≡ b' → f a b ≡ f a' b'
ap2 f p q = cc

module _ {D T : Type 0} (decimal : BigDecimal D) (chrono : NaiveDateTime T) where
  -- In whatever order the maps are visited, every row that the transfer processor makes of a list of
  -- blocks is the sender's or the receiver's of a transfer that a transaction of one of the blocks
  -- makes, one with neither contract inputs nor generated outputs.
  pub process_blocks-IsTransfer :
      (visit_outputs visit_inputs : HashMap Key D → List (Key × D))
      → Visits visit_outputs
      → Visits visit_inputs
      → (gas_payers : List String) (bwe : List BlockAndEvents) (r : NewAccountTransaction D T)
      → In r (process_blocks decimal chrono visit_outputs visit_inputs gas_payers bwe)
      → (el : BlockAndEvents) × (tx : Transaction) × In el bwe
        × In tx el.block.transactions
        × (tx.contract_inputs ≡ [])
        × (tx.generated_outputs ≡ [])
        × (from to token : String) × (amount : D) × IsTransfer decimal tx gas_payers from to token
            amount
        × ((r ≡ sender_record decimal chrono tx el.block from to token amount)
            ⊎ (r ≡ receiver_record decimal chrono tx el.block from to token amount))
  unfolding process_blocks
  process_blocks-IsTransfer visit_outputs visit_inputs vo vi gas_payers bwe r h =
      let (el, in_bwe, h1) = In-flat_map _ r bwe h in
      let (tx, in_filtered, h2) =
        In-flat_map _ r
          (filter (λ tx. is_transfer (classify no_exchanges tx)) el.block.transactions) h1 in
      let (in_block, kind) = In-filter _ tx el.block.transactions in_filtered in
      let (no_inputs, no_outputs) = plain_transfer tx ((is_transfer_iff tx).0 kind).1 in
      let (clear, from, to, token, amount, t, row) =
        reported-IsTransfer decimal chrono tx el.block visit_outputs visit_inputs vo vi gas_payers r
          h2 in
      (el, tx, in_bwe, in_block, no_inputs, no_outputs, from, to, token, amount, t, row)

module _ {D T : Type 0} (chrono : NaiveDateTime T) where
  call_row_cases :
      (tx : Transaction) (block : RichBlockEntry) (inputs : List RichAssetInput)
      (contracts : List ContractInput) (r : NewAccountTransaction D T)
      → contract_call_row chrono tx block (first inputs) (first contracts) ≡ some r
      → (input : RichAssetInput) × (rest : List RichAssetInput) × (contract : ContractInput)
        × (others : List ContractInput) × (inputs ≡ input ∷ rest)
        × (contracts ≡ contract ∷ others)
        × (r ≡ call_record chrono tx block input contract)
  call_row_cases tx block [] contracts r h = cc
  call_row_cases tx block (input ∷ rest) [] r h = cc
  call_row_cases tx block (input ∷ rest) (contract ∷ others) r h =
      (input, rest, contract, others, refl, refl, cc)

  -- The rows that the contract call processor stores are those of the transactions of the blocks
  -- that have an input and a contract input; each names the first of both.
  pub process_calls_iff :
      (bwe : List BlockAndEvents) (r : NewAccountTransaction D T)
      → In r (process_calls chrono bwe) ↔ (
          (el : BlockAndEvents) × (tx : Transaction) × In el bwe
          × In tx el.block.transactions
          × (input : RichAssetInput) × (rest : List RichAssetInput) × (contract : ContractInput)
          × (others : List ContractInput) × (tx.unsigned.inputs ≡ input ∷ rest)
          × (tx.contract_inputs ≡ contract ∷ others)
          × (r ≡ call_record chrono tx el.block input contract))
  unfolding process_calls extract_contract_call
  process_calls_iff bwe r = (
    λ h.
        let (el, in_bwe, h1) = In-flat_map _ r bwe h in
        let (tx, in_filtered, row) =
          In-filter_map (λ tx. extract_contract_call chrono tx el.block) r
            (filter (λ tx. is_contract_call (classify no_exchanges tx)) el.block.transactions) h1 in
        let (in_block, kind) = In-filter _ tx el.block.transactions in_filtered in
        let (input, rest, contract, others, p, q, e) =
          call_row_cases tx el.block tx.unsigned.inputs tx.contract_inputs r row in
        (el, tx, in_bwe, in_block, input, rest, contract, others, p, q, e),
    λ (el, tx, in_bwe, in_block, input, rest, contract, others, p, q, e).
        let shown : contract_call_row chrono tx el.block (first tx.unsigned.inputs)
              (first tx.contract_inputs)
            ≡ some r =
          ap2 (λ is cs. contract_call_row chrono tx el.block (first is) (first cs)) p q
          ∙ ap some (sym e) in
        let kind = (is_call_iff tx).1 (contract_involved tx input rest contract others p q) in
        In→flat_map _ el r bwe in_bwe (
          In→filter_map _ tx r _
            (In→filter (λ tx. is_contract_call (classify no_exchanges tx)) tx el.block.transactions
              in_block kind)
            shown),
  )
