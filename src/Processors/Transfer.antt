-- ===== src/Processors/Transfer.antt =====
-- examples/linx-indexer/src/processors/transfer_processor.rs: the transfers of tokens that a
-- transaction makes. The orders in which the two maps are visited are arguments.
pub mod Maps
pub mod FirstSender
pub mod Sound
pub mod Sender
use linx_app_backend.Base.{
  ℕ, Bool, true, false, not, ◌&&◌, ◌||◌, Option, some, none, List, [], ◌∷◌, ◌++◌, flat_map, filter,
  String, length, ltb, ◌==◌, if◌then◌else◌,
}
use linx_app_backend.Base.Equality.{string_eq, pair_eq, eqb, contains, insert_set}
use linx_app_backend.Base.HashMap.{HashMap, get, retain, add_amount, unwrap_or}
use linx_app_backend.Types.Block.{
  Transaction, RichBlockEntry, BlockAndEvents, RichAssetInput, FixedAssetOutput, Token,
}
use linx_app_backend.Types.Libraries.{BigDecimal, NaiveDateTime, parse_or_zero}
use linx_app_backend.Processors.Classifier.{
  classify, TransactionClassifier, TransactionCategory, transfer, swap, contract_call, block_reward,
  unknown,
}
use linx_app_backend.Processors.Records.{
  NewAccountTransaction, TransferDetails, Details, transfer_details, account_row,
}

abbrev pub alph_token_id : String
alph_token_id = "0000000000000000000000000000000000000000000000000000000000000000"

abbrev pub dust_amount : String
dust_amount = "1000000000000000"

-- An address and a token.
abbrev pub Key : Type 0
Key = String × String

module _ {D : Type 0} (decimal : BigDecimal D) where
  unfoldable pub add_tokens : String → List Token → HashMap Key D → HashMap Key D
  add_tokens address [] m = m
  add_tokens address (token ∷ tokens) m = add_tokens address tokens (
      add_amount decimal.zero_decimal decimal.plus (address, token.id)
        (parse_or_zero decimal token.amount) m)

  unfoldable pub add_inputs : List RichAssetInput → HashMap Key D → HashMap Key D
  add_inputs [] m = m
  add_inputs (input ∷ inputs) m =
      let alph_amount = parse_or_zero decimal input.atto_alph_amount in
      let m' =
        add_amount decimal.zero_decimal decimal.plus (input.address, alph_token_id) alph_amount m in
      add_inputs inputs (add_tokens input.address input.tokens m')

  unfoldable pub add_outputs : List FixedAssetOutput → HashMap Key D → HashMap Key D
  add_outputs [] m = m
  add_outputs (output ∷ outputs) m =
      let alph_amount = parse_or_zero decimal output.atto_alph_amount in
      let m' =
        add_amount decimal.zero_decimal decimal.plus (output.address, alph_token_id) alph_amount
          m in
      add_outputs outputs (add_tokens output.address output.tokens m')

-- The set of the addresses of the inputs.
unfoldable pub input_addresses : List RichAssetInput → List String → List String
input_addresses [] seen = seen
input_addresses (input ∷ inputs) seen = input_addresses inputs (insert_set input.address seen)

unfoldable pub gas_payer_present : List String → List String → Bool
gas_payer_present [] gas_payer_addresses = false
gas_payer_present (a ∷ as') gas_payer_addresses =
    contains gas_payer_addresses a || gas_payer_present as' gas_payer_addresses

-- Whether the early exit is taken.
unfoldable pub is_ambiguous : List String → List String → Bool
is_ambiguous addresses gas_payer_addresses =
    if ltb 1 (length addresses)
    then if not (gas_payer_present addresses gas_payer_addresses)
      then true
      else not (length addresses == 2)
    else false

-- The map of the inputs without those of the gas payers.
unfoldable pub filtered_input_map : {D : Type 0} → List String → HashMap Key D → HashMap Key D
filtered_input_map [] m = m
filtered_input_map (gas_payer ∷ gas_payers) m =
    filtered_input_map gas_payers (retain (λ k. not (eqb k.0 gas_payer)) m)

module _ {D T : Type 0} (decimal : BigDecimal D) (chrono : NaiveDateTime T) (tx : Transaction)
    (block : RichBlockEntry) where
  abbrev pub details_of : String → String → String → D → Details D
  details_of from_addr to_addr token_id amount = transfer_details (record {
    token_id = token_id;
    from_address = from_addr;
    to_address = to_addr;
    amount = amount;
  })

  -- The row of the sender and that of the receiver.
  abbrev pub sender_record : String → String → String → D → NewAccountTransaction D T
  sender_record from_addr to_addr token_id amount =
      account_row chrono tx block from_addr "transfer"
        (details_of from_addr to_addr token_id amount)

  abbrev pub receiver_record : String → String → String → D → NewAccountTransaction D T
  receiver_record from_addr to_addr token_id amount =
      account_row chrono tx block to_addr "transfer" (details_of from_addr to_addr token_id amount)

  -- The inner loop: the first input that can have paid the output.
  unfoldable pub from_inputs :
      String → String → D → List (Key × D) → List (NewAccountTransaction D T)
  from_inputs to_addr token_id out_amount [] = []
  from_inputs to_addr token_id out_amount (((from_addr, in_token_id), in_amount) ∷ inputs) =
      let rest = from_inputs to_addr token_id out_amount inputs in
      if not (eqb in_token_id token_id) || eqb from_addr to_addr
      then rest
      else if decimal.le out_amount in_amount
      then sender_record from_addr to_addr token_id out_amount
        ∷ receiver_record from_addr to_addr token_id out_amount
        ∷ []
      else rest

  -- The outer loop's body.
  unfoldable pub from_output :
      HashMap Key D → List (Key × D) → Key × D → List (NewAccountTransaction D T)
  from_output input_map filtered ((to_addr, token_id), out_amount) =
      if eqb token_id alph_token_id && decimal.le out_amount (parse_or_zero decimal dust_amount)
      then []
      else let input_amount = unwrap_or decimal.zero_decimal (get (to_addr, token_id) input_map) in
        if decimal.le out_amount input_amount
        then []
        else from_inputs to_addr token_id out_amount filtered

  unfoldable pub extract_token_transfers :
      (visit_outputs visit_inputs : HashMap Key D → List (Key × D))
      → List String
      → List (NewAccountTransaction D T)
  extract_token_transfers visit_outputs visit_inputs gas_payer_addresses =
      let input_map = add_inputs decimal tx.unsigned.inputs [] in
      if is_ambiguous (input_addresses tx.unsigned.inputs []) gas_payer_addresses
      then []
      else let output_map = add_outputs decimal tx.unsigned.fixed_outputs [] in
        let filtered = filtered_input_map gas_payer_addresses input_map in
        flat_map (from_output input_map (visit_inputs filtered)) (visit_outputs output_map)

-- `TransactionClassifier::classify(tx) == TransactionCategory::Transfer`
abbrev pub is_transfer : TransactionCategory → Bool
is_transfer transfer = true
is_transfer swap = false
is_transfer contract_call = false
is_transfer block_reward = false
is_transfer unknown = false

-- The classifier of the processors knows no exchanges.
abbrev pub no_exchanges : TransactionClassifier
no_exchanges = record { dex_contract_addresses = [] }

unfoldable pub process_blocks :
    {D T : Type 0}
    → BigDecimal D
    → NaiveDateTime T
    → (visit_outputs visit_inputs : HashMap Key D → List (Key × D)) → List String
    → List BlockAndEvents
    → List (NewAccountTransaction D T)
process_blocks decimal chrono visit_outputs visit_inputs gas_payer_addresses bwe =
    flat_map
      (λ el.
        flat_map
          (λ tx.
            extract_token_transfers decimal chrono tx el.block visit_outputs visit_inputs
              gas_payer_addresses)
          (filter (λ tx. is_transfer (classify no_exchanges tx)) el.block.transactions))
      bwe
