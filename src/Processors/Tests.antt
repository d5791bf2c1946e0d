-- ===== src/Processors/Tests.antt =====
-- The processors of examples/linx-indexer/src/processors on small blocks, and the theorems at
-- concrete inputs.
use linx_app_backend.Base.{
  ℕ, false, some, none, List, [], ◌∷◌, ◌++◌, String, ◌≡◌, refl, ◌⊎◌, ◌↔◌, inl, inr, In,
}
use linx_app_backend.Base.Equality.{string_eq, pair_eq}
use linx_app_backend.Base.HashMap.{get, alter}
use linx_app_backend.Processors.Classifier.{
  classify, is_block_reward, is_swap_transaction, is_contract_transaction,
}
use linx_app_backend.Base.Outcome.{ok}
use linx_app_backend.Types.Block.{
  Transaction, BlockAndEvents, RichAssetInput, ContractInput, ContractEventByBlockHash,
}
use linx_app_backend.Processors.Transfer.{
  alph_token_id, extract_token_transfers, process_blocks, sender_record, receiver_record,
  is_ambiguous, input_addresses, add_outputs, add_tokens, add_inputs, from_output, from_inputs,
  filtered_input_map,
}
use linx_app_backend.Processors.Transfer.Sound.{IsTransfer}
use linx_app_backend.Processors.Transfer.Sender.{sender_reported_iff}
use linx_app_backend.Processors.ContractCall.{process_calls, extract_contract_call, call_record}
use linx_app_backend.Processors.Partition.{process_blocks-IsTransfer, process_calls_iff}
use linx_app_backend.Processors.Lending.{
  LendingProcessorOutput, process_lending, new_markets, extract_lending_events, parse_lending_event,
  market_map,
}
use linx_app_backend.Processors.LendingEvents.{
  NewLendingEvent, lending_event, extract_markets, parse_market_created_event, extract_string_field,
  parse_supply_event, extract_bigdecimal_field, parse_market_created_lending_event,
}
use linx_app_backend.Processors.Lending.Layout.{read_event}
use linx_app_backend.Processors.Lending.Markets.{last_market, process_lending_lem}
use linx_app_backend.Processors.Storage.{transfers, contract_calls, store_transfers, store_calls}
use linx_app_backend.Accounts.{insert_transactions, insert_all, insert_one, has_key}
use linx_app_backend.Processors.Samples.{
  decimal, chrono, listed, listed-Visits, payment, sample, bwe, alice_sends, bob_gets, called,
  market_created, supplied, lending_bwe, repository, new_market, db,
}

one_transfer : process_blocks decimal chrono listed listed [] bwe ≡ alice_sends ∷ bob_gets ∷ []
unfolding process_blocks classify is_block_reward is_swap_transaction is_contract_transaction
    extract_token_transfers is_ambiguous input_addresses add_outputs add_tokens alter from_output
    get add_inputs from_inputs filtered_input_map
one_transfer = refl

sender_reported_iff_example :
    In alice_sends (extract_token_transfers decimal chrono payment sample listed listed []) ↔ (
      (is_ambiguous (input_addresses payment.unsigned.inputs []) [] ≡ false)
      × IsTransfer decimal payment [] "alice" "bob" alph_token_id 5)
sender_reported_iff_example =
    sender_reported_iff decimal chrono payment sample listed listed listed-Visits listed-Visits []
      "alice" "bob" alph_token_id 5

reported : In bob_gets (process_blocks decimal chrono listed listed [] bwe)
unfolding process_blocks classify is_block_reward is_swap_transaction is_contract_transaction
    extract_token_transfers is_ambiguous input_addresses add_outputs add_tokens alter from_output
    get add_inputs from_inputs filtered_input_map
reported = inr (inl refl)

process_blocks-IsTransfer_example :
    (el : BlockAndEvents) × (tx : Transaction) × In el bwe
    × In tx el.block.transactions
    × (tx.contract_inputs ≡ [])
    × (tx.generated_outputs ≡ [])
    × (from to token : String) × (amount : ℕ) × IsTransfer decimal tx [] from to token amount
    × ((bob_gets ≡ sender_record decimal chrono tx el.block from to token amount)
        ⊎ (bob_gets ≡ receiver_record decimal chrono tx el.block from to token amount))
process_blocks-IsTransfer_example =
    process_blocks-IsTransfer decimal chrono listed listed listed-Visits listed-Visits [] bwe
      bob_gets reported

one_call : process_calls chrono bwe ≡ called ∷ []
unfolding process_calls extract_contract_call classify is_block_reward is_swap_transaction
    is_contract_transaction
one_call = refl

process_calls_iff_example : In called (process_calls chrono bwe) ↔ (
    (el : BlockAndEvents) × (tx : Transaction) × In el bwe
    × In tx el.block.transactions
    × (input : RichAssetInput) × (rest : List RichAssetInput) × (contract : ContractInput)
    × (others : List ContractInput) × (tx.unsigned.inputs ≡ input ∷ rest)
    × (tx.contract_inputs ≡ contract ∷ others)
    × (called ≡ call_record chrono tx el.block input contract))
process_calls_iff_example = process_calls_iff chrono bwe called

new_market_known :
    process_lending decimal chrono "linx" 8 repository lending_bwe tt
    ≡ ok (record {
      markets = new_market ∷ [];
      events =
          lending_event decimal chrono "linx" 8 sample supplied "Supply" "m" "usdt" "alice" 5 4
          ∷ lending_event decimal chrono "linx" 8 sample market_created "MarketCreated" "m" "" "" 0
              0
          ∷ [];
    })
unfolding process_lending extract_markets extract_lending_events parse_market_created_event
    parse_lending_event extract_string_field parse_supply_event extract_bigdecimal_field get
    parse_market_created_lending_event market_map alter
new_market_known = refl

process_lending_lem_example :
    (output : LendingProcessorOutput ℕ ℕ) × (process_lending decimal chrono "linx" 8 repository
        lending_bwe tt
      ≡ ok output)
    × (output.markets ≡ new_markets decimal chrono "linx" lending_bwe)
    × ((e : NewLendingEvent ℕ ℕ)
        → In e output.events ↔ (
            (b : BlockAndEvents) × (event : ContractEventByBlockHash) × In b lending_bwe
            × In event b.events
            × (read_event decimal chrono "linx" 8
                  (λ id. last_market id ([] ++ new_markets decimal chrono "linx" lending_bwe) none)
                  b.block
                  event
                ≡ some e)))
process_lending_lem_example =
    process_lending_lem decimal chrono "linx" 8 repository lending_bwe tt [] refl

transfers_stored :
    store_transfers db (transfers (process_blocks decimal chrono listed listed [] bwe)) []
    ≡ (ok tt, alice_sends ∷ bob_gets ∷ [])
unfolding store_transfers insert_transactions insert_all insert_one has_key process_blocks classify
    is_block_reward is_swap_transaction is_contract_transaction extract_token_transfers is_ambiguous
    input_addresses add_outputs add_tokens alter from_output get add_inputs from_inputs
    filtered_input_map
transfers_stored = refl

calls_stored :
    store_calls db (contract_calls (process_calls chrono bwe)) (alice_sends ∷ bob_gets ∷ [])
    ≡ (ok tt, alice_sends ∷ bob_gets ∷ called ∷ [])
unfolding store_calls insert_transactions insert_all insert_one has_key process_calls
    extract_contract_call classify is_block_reward is_swap_transaction is_contract_transaction
calls_stored = refl
