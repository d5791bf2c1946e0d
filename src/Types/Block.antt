-- ===== src/Types/Block.antt =====
-- crates/bento-types/src/lib.rs: what the node returns for a block and its events.
use linx_app_backend.Base.{Bool, Option, List, String}
use linx_app_backend.Base.Ints.{ℤ}

-- A JSON value, as far as `as_str` tells it apart.
pub data JsonValue : Type 0 where
  string : String → JsonValue
  not_string : JsonValue

pub data EventFieldType : Type 0 where
  bool : EventFieldType
  i256 : EventFieldType
  u256 : EventFieldType
  byte_vec : EventFieldType
  address : EventFieldType

pub record EventField : Type 0 where
  pub field_type : EventFieldType
  pub value : JsonValue

pub record ContractEventByBlockHash : Type 0 where
  pub tx_id : String
  pub contract_address : String
  pub event_index : ℤ
  pub fields : List EventField

pub record Token : Type 0 where
  pub id : String
  pub amount : String

pub data OutputType : Type 0 where
  asset_output : OutputType
  contract_output : OutputType

pub record Output : Type 0 where
  pub output_type : OutputType
  pub hint : ℤ
  pub key : String
  pub atto_alph_amount : String
  pub address : String
  pub tokens : List Token

pub record RichAssetInput : Type 0 where
  pub hint : ℤ
  pub key : String
  pub unlock_script : String
  pub atto_alph_amount : String
  pub address : String
  pub tokens : List Token

pub record ContractInput : Type 0 where
  pub hint : ℤ
  pub key : String
  pub atto_alph_amount : String
  pub address : String
  pub tokens : List Token

pub record FixedAssetOutput : Type 0 where
  pub hint : ℤ
  pub key : String
  pub atto_alph_amount : String
  pub address : String
  pub tokens : List Token
  pub lock_time : ℤ
  pub message : String

pub record UnsignedTx : Type 0 where
  pub tx_id : String
  pub version : ℤ
  pub network_id : ℤ
  pub script_opt : Option String
  pub gas_amount : ℤ
  pub gas_price : String
  pub inputs : List RichAssetInput
  pub fixed_outputs : List FixedAssetOutput

pub record Transaction : Type 0 where
  pub unsigned : UnsignedTx
  pub script_execution_ok : Bool
  pub contract_inputs : List ContractInput
  pub generated_outputs : List Output
  pub input_signatures : List String
  pub script_signatures : List String

pub record GhostUncleBlockEntry : Type 0 where
  pub block_hash : String
  pub miner : String

pub record RichBlockEntry : Type 0 where
  pub hash : String
  pub timestamp : ℤ
  pub chain_from : ℤ
  pub chain_to : ℤ
  pub height : ℤ
  pub deps : List String
  pub transactions : List Transaction
  pub nonce : String
  pub version : ℤ
  pub dep_state_hash : String
  pub txs_hash : String
  pub target : String
  pub ghost_uncles : List GhostUncleBlockEntry
  pub parent : Option String
  pub main_chain : Option Bool

pub record BlockAndEvents : Type 0 where
  pub block : RichBlockEntry
  pub events : List ContractEventByBlockHash
