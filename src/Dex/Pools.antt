-- ===== src/Dex/Pools.antt =====
-- examples/linx-indexer/src/processors/dex_processor.rs, the events that create pools, with the rows
-- of examples/linx-indexer/src/models/pools.rs. The base 58 encoding is an argument.
use linx_app_backend.Base.{
  ℕ, ◌&&◌, Option, some, none, List, [], ◌∷◌, String, length, ltb, if◌then◌else◌,
}
use linx_app_backend.Base.Equality.{string_eq, eqb}
use linx_app_backend.Base.Ints.{ℤ, pos, is_nat}
use linx_app_backend.Base.Outcome.{Outcome, ok, ◌>>=◌}
use linx_app_backend.Types.Block.{ContractEventByBlockHash}
use linx_app_backend.Processors.LendingEvents.{extract_string_field}
use linx_app_backend.Address.{address_from_contract_id}

abbrev pub ayin_v2_factory_address : String
ayin_v2_factory_address = "vyrkJHG49TXss6pGAz2dVxq5o7mBXNNXAV18nAeqVT1R"

abbrev pub elexium_factory_address : String
elexium_factory_address = "22oTtDJEMjNc9QAdmcZarnEzgkAooJp9gZy7RYBisniR5"

pub record NewPoolDto : Type 0 where
  pub token_a : String
  pub token_b : String
  pub factory_address : String
  pub address : String

pub record Pool : Type 0 where
  pub id : ℤ
  pub address : String
  pub token_a : String
  pub token_b : String
  pub factory_address : String

-- `Pool::from`
unfoldable pub pool_from : NewPoolDto → Pool
pool_from dto = record {
  id = pos 0;
  address = dto.address;
  token_a = dto.token_a;
  token_b = dto.token_b;
  factory_address = dto.factory_address;
}

module _ (bs58_encode : List ℕ → String) where
  -- The pool of an event with its two tokens and the contract's id. The address of an id that is not
  -- hexadecimal is a panic.
  abbrev pool_of :
      String → Option String → Option String → Option String → Outcome (Option NewPoolDto)
  pool_of factory none b c = ok none
  pool_of factory (some a) none c = ok none
  pool_of factory (some a) (some b) none = ok none
  pool_of factory (some token_a) (some token_b) (some contract_id) =
      address_from_contract_id bs58_encode contract_id >>= λ address. ok (
        some (record {
          token_a = token_a;
          token_b = token_b;
          factory_address = factory;
          address = address;
        }))

  unfoldable pub parse_ayin_v2_pool_event : ContractEventByBlockHash → Outcome (Option NewPoolDto)
  parse_ayin_v2_pool_event event =
      if ltb (length event.fields) 4
      then ok none
      else pool_of ayin_v2_factory_address (extract_string_field event.fields 0)
          (extract_string_field event.fields 1) (extract_string_field event.fields 2)

  unfoldable pub parse_elexium_pool_event : ContractEventByBlockHash → Outcome (Option NewPoolDto)
  parse_elexium_pool_event event =
      if ltb (length event.fields) 5
      then ok none
      else pool_of elexium_factory_address (extract_string_field event.fields 0)
          (extract_string_field event.fields 1) (extract_string_field event.fields 3)

  unfoldable pub parse_pool_creation_event : ContractEventByBlockHash → Outcome (Option NewPoolDto)
  parse_pool_creation_event event =
      if eqb event.contract_address ayin_v2_factory_address && is_nat event.event_index 0
      then parse_ayin_v2_pool_event event
      else if eqb event.contract_address elexium_factory_address && is_nat event.event_index 0
      then parse_elexium_pool_event event
      else ok none

  abbrev pub add_pool : Option NewPoolDto → List NewPoolDto → List NewPoolDto
  add_pool none pools = pools
  add_pool (some pool) pools = pool ∷ pools

  unfoldable pub extract_new_pools : List ContractEventByBlockHash → Outcome (List NewPoolDto)
  extract_new_pools [] = ok []
  extract_new_pools (event ∷ events) = parse_pool_creation_event event >>= λ pool.
      extract_new_pools events >>= λ pools. ok (add_pool pool pools)
