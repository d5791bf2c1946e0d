-- ===== src/Dex/Hops/Tests.antt =====
-- A route through pools of two kinds (examples/linx-indexer/src/processors/dex_processor.rs), from its
-- events on, and the theorem about it at this input.
use linx_app_backend.Base.{ℕ, true, some, [], ◌∷◌, String, ◌≡◌, ◌≢◌, refl, arith}
use linx_app_backend.Base.Equality.{string_eq}
use text.Mathlib.TextEquality.{eq_iff}
use linx_app_backend.Base.HashMap.{HashMap, get}
use linx_app_backend.Base.Ints.{ℤ, pos, as_i16}
use linx_app_backend.Base.Outcome.{ok}
use linx_app_backend.Types.Block.{EventField, byte_vec, string, ContractEventByBlockHash}
use linx_app_backend.Types.Libraries.{timestamp_millis_to_naive_datetime}
use linx_app_backend.Processors.Records.{NewAccountTransaction, swap_details}
use linx_app_backend.Processors.LendingEvents.{extract_string_field, extract_bigdecimal_field}
use linx_app_backend.Processors.Samples.{decimal, chrono, sample}
use linx_app_backend.Dex.Pools.{Pool, ayin_v2_factory_address, elexium_factory_address}
use linx_app_backend.Dex.Swaps.{
  extract_swaps, parse_swap_event, parse_ayin_v2_swap_event, parse_elexium_swap_event,
}
use linx_app_backend.Dex.Hops.{aggregate_tx}
use linx_app_backend.Dex.Hops.Rows.{IsReadable}
use linx_app_backend.Dex.Hops.Routes.{Says}
use linx_app_backend.Dex.Hops.Mixed.{mixed_route_reversed}

abbrev field : String → EventField
field s = record { field_type = byte_vec; value = string s }

abbrev swap_event : String → ℤ → String → String → ContractEventByBlockHash
swap_event pool index amount_in amount_out = record {
  tx_id = "t1";
  contract_address = pool;
  event_index = index;
  fields =
      field "alice"
      ∷ field amount_in
      ∷ field "9"
      ∷ field "9"
      ∷ field amount_out
      ∷ field "alice"
      ∷ [];
}

abbrev pool : String → String → String → String → Pool
pool address token_a token_b factory_address = record {
  id = pos 0;
  address = address;
  token_a = token_a;
  token_b = token_b;
  factory_address = factory_address;
}

abbrev ayin_pool : Pool
ayin_pool = pool "pool-address" "token-one" "token-two" ayin_v2_factory_address

abbrev elexium_pool : Pool
elexium_pool = pool "other-pool-address" "token-two" "token-six" elexium_factory_address

abbrev known_pools : HashMap String Pool
known_pools = ("pool-address", ayin_pool) ∷ ("other-pool-address", elexium_pool) ∷ []

abbrev row_of : String → String → String → ℕ → ℕ → NewAccountTransaction ℕ ℕ
row_of pool token_in token_out amount_in amount_out = record {
  address = "alice";
  tx_type = "swap";
  tx_id = "t1";
  from_group = as_i16 sample.chain_from;
  to_group = as_i16 sample.chain_to;
  block_height = sample.height;
  timestamp = timestamp_millis_to_naive_datetime chrono sample.timestamp;
  details = swap_details (record {
    token_in = token_in;
    token_out = token_out;
    amount_in = amount_in;
    amount_out = amount_out;
    pool_address = pool;
    tx_id = "t1";
    hop_count = pos 1;
  });
}

abbrev in_ayin : NewAccountTransaction ℕ ℕ
in_ayin = row_of "pool-address" "token-one" "token-two" 4 9

abbrev in_elexium : NewAccountTransaction ℕ ℕ
in_elexium = row_of "other-pool-address" "token-two" "token-six" 9 5

ayin_known : get "pool-address" known_pools ≡ some ayin_pool
unfolding get
ayin_known = refl

elexium_known : get "other-pool-address" known_pools ≡ some elexium_pool
unfolding get
elexium_known = refl

ayin_read :
    parse_swap_event decimal chrono (swap_event "pool-address" (pos 2) "4" "9") known_pools sample
    ≡ some in_ayin
unfolding parse_swap_event parse_ayin_v2_swap_event extract_string_field extract_bigdecimal_field
    get timestamp_millis_to_naive_datetime
ayin_read = refl

elexium_read :
    parse_swap_event decimal chrono
      (swap_event "other-pool-address" (pos 3) "9" "5")
      known_pools
      sample
    ≡ some in_elexium
unfolding parse_swap_event parse_elexium_swap_event extract_string_field extract_bigdecimal_field
    get timestamp_millis_to_naive_datetime
elexium_read = refl

abbrev in_ayin-IsReadable : IsReadable true in_ayin
in_ayin-IsReadable = record {
  swap = record {
    token_in = "token-one";
    token_out = "token-two";
    amount_in = 4;
    amount_out = 9;
    pool_address = "pool-address";
    tx_id = "t1";
    hop_count = pos 1;
  };
  has_swap = refl;
  token_in_shown = refl;
  token_out_shown = refl;
  pool_shown = refl;
}

abbrev in_elexium-IsReadable : IsReadable true in_elexium
in_elexium-IsReadable = record {
  swap = record {
    token_in = "token-two";
    token_out = "token-six";
    amount_in = 9;
    amount_out = 5;
    pool_address = "other-pool-address";
    tx_id = "t1";
    hop_count = pos 1;
  };
  has_swap = refl;
  token_in_shown = refl;
  token_out_shown = refl;
  pool_shown = refl;
}

other_token : ◌≢◌ {A = String} "token-one" "token-two"
other_token = ground (arith, eq_iff "token-one" "token-two")

mixed_route_reversed_example :
    (row : NewAccountTransaction ℕ ℕ) × (aggregate_tx decimal true "t1" (
        extract_swaps decimal chrono
          (record {
            block = sample;
            events =
                swap_event "pool-address" (pos 2) "4" "9"
                ∷ swap_event "other-pool-address" (pos 3) "9" "5"
                ∷ [];
          })
          known_pools)
      ≡ ok row)
    × (aggregate_tx decimal true "t1" (
          extract_swaps decimal chrono
            (record {
              block = sample;
              events =
                  swap_event "other-pool-address" (pos 3) "9" "5"
                  ∷ swap_event "pool-address" (pos 2) "4" "9"
                  ∷ [];
            })
            known_pools)
        ≡ ok row)
    × Says row in_elexium "token-two" "token-two" 9 9 (pos 2)
mixed_route_reversed_example =
    mixed_route_reversed decimal chrono true known_pools sample
      (swap_event "pool-address" (pos 2) "4" "9") (swap_event "other-pool-address" (pos 3) "9" "5")
      ayin_pool elexium_pool "t1" "token-one" "token-two" "token-six" in_ayin in_elexium ayin_known
      refl elexium_known refl ayin_read elexium_read in_ayin-IsReadable in_elexium-IsReadable refl
      refl refl refl other_token
