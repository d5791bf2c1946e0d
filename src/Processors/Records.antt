-- ===== src/Processors/Records.antt =====
-- examples/linx-indexer/src/models/new_account_transactions.rs: the rows of the table of account
-- transactions. Their details stand here as the structs that the program encodes as JSON.
use linx_app_backend.Base.{String}
use linx_app_backend.Base.Ints.{ℤ, as_i16}
use linx_app_backend.Types.Block.{Transaction, RichBlockEntry}
use linx_app_backend.Types.Libraries.{NaiveDateTime, timestamp_millis_to_naive_datetime}

pub record TransferDetails (D : Type 0) : Type 0 where
  pub token_id : String
  pub from_address : String
  pub to_address : String
  pub amount : D

pub record SwapDetails (D : Type 0) : Type 0 where
  pub token_in : String
  pub token_out : String
  pub amount_in : D
  pub amount_out : D
  pub pool_address : String
  pub tx_id : String
  pub hop_count : ℤ

pub record ContractCallDetails : Type 0 where
  pub contract_address : String

pub data Details (D : Type 0) : Type 0 where
  transfer_details : TransferDetails D → Details D
  swap_details : SwapDetails D → Details D
  contract_call_details : ContractCallDetails → Details D

pub record NewAccountTransaction (D T : Type 0) : Type 0 where
  pub address : String
  pub tx_type : String
  pub tx_id : String
  pub from_group : ℤ
  pub to_group : ℤ
  pub block_height : ℤ
  pub timestamp : T
  pub details : Details D

-- A row about a transaction of a block, as the processors fill it in.
abbrev pub account_row :
    {D T : Type 0}
    → NaiveDateTime T
    → Transaction
    → RichBlockEntry
    → String
    → String
    → Details D
    → NewAccountTransaction D T
account_row chrono tx block address tx_type details = record {
  address = address;
  tx_type = tx_type;
  tx_id = tx.unsigned.tx_id;
  from_group = as_i16 block.chain_from;
  to_group = as_i16 block.chain_to;
  block_height = block.height;
  timestamp = timestamp_millis_to_naive_datetime chrono block.timestamp;
  details = details;
}
