-- ===== src/Dex/Swaps.antt =====
-- examples/linx-indexer/src/processors/dex_processor.rs, the events of swaps in known pools. A swap is
-- a row of the table of account transactions. Encoding its details as JSON does not fail.
use linx_app_backend.Base.{
  ◌&&◌, Option, some, none, List, String, length, ◌==◌, if◌then◌else◌, filter_map,
}
use linx_app_backend.Base.Equality.{string_eq, eqb}
use linx_app_backend.Base.HashMap.{HashMap, get}
use linx_app_backend.Base.Ints.{ℤ, pos, is_nat, as_i16}
use linx_app_backend.Types.Block.{RichBlockEntry, BlockAndEvents, ContractEventByBlockHash}
use linx_app_backend.Types.Libraries.{BigDecimal, NaiveDateTime, timestamp_millis_to_naive_datetime}
use linx_app_backend.Processors.Records.{NewAccountTransaction, SwapDetails, swap_details}
use linx_app_backend.Processors.LendingEvents.{
  ◌>>=◌, extract_string_field, extract_bigdecimal_field,
}
use linx_app_backend.Dex.Pools.{Pool, ayin_v2_factory_address, elexium_factory_address}

module _ {D T : Type 0} (decimal : BigDecimal D) (chrono : NaiveDateTime T) where
  -- The direction of a swap: nothing of token a was put in, or something was.
  abbrev pub swap_of : ContractEventByBlockHash → Pool → D → D → D → D → SwapDetails D
  swap_of event pool token_a_in token_b_in token_a_out token_b_out =
      if decimal.is_zero token_a_in
      then record {
        token_in = pool.token_b;
        token_out = pool.token_a;
        amount_in = token_b_in;
        amount_out = token_a_out;
        pool_address = event.contract_address;
        tx_id = event.tx_id;
        hop_count = pos 1;
      }
      else record {
        token_in = pool.token_a;
        token_out = pool.token_b;
        amount_in = token_a_in;
        amount_out = token_b_out;
        pool_address = event.contract_address;
        tx_id = event.tx_id;
        hop_count = pos 1;
      }

  -- The row of a swap; `sender` is the first field, and the next four are the amounts.
  abbrev pub swap_row :
      ContractEventByBlockHash → Pool → RichBlockEntry → Option (NewAccountTransaction D T)
  swap_row event pool block = extract_string_field event.fields 0 >>= λ sender.
      extract_bigdecimal_field decimal event.fields 1 >>= λ token_a_in.
      extract_bigdecimal_field decimal event.fields 2 >>= λ token_b_in.
      extract_bigdecimal_field decimal event.fields 3 >>= λ token_a_out.
      extract_bigdecimal_field decimal event.fields 4 >>= λ token_b_out. some (record {
        address = sender;
        tx_type = "swap";
        tx_id = event.tx_id;
        from_group = as_i16 block.chain_from;
        to_group = as_i16 block.chain_to;
        block_height = block.height;
        timestamp = timestamp_millis_to_naive_datetime chrono block.timestamp;
        details = swap_details (swap_of event pool token_a_in token_b_in token_a_out token_b_out);
      })

  unfoldable pub parse_elexium_swap_event :
      ContractEventByBlockHash → Pool → RichBlockEntry → Option (NewAccountTransaction D T)
  parse_elexium_swap_event event pool block =
      if length event.fields == 6 && is_nat event.event_index 3
      then swap_row event pool block
      else none

  unfoldable pub parse_ayin_v2_swap_event :
      ContractEventByBlockHash → Pool → RichBlockEntry → Option (NewAccountTransaction D T)
  parse_ayin_v2_swap_event event pool block =
      if length event.fields == 6 && is_nat event.event_index 2
      then swap_row event pool block
      else none

  abbrev pub swap_in :
      Option Pool → ContractEventByBlockHash → RichBlockEntry → Option (NewAccountTransaction D T)
  swap_in none event block = none
  swap_in (some pool) event block =
      if eqb pool.factory_address ayin_v2_factory_address
      then parse_ayin_v2_swap_event event pool block
      else if eqb pool.factory_address elexium_factory_address
      then parse_elexium_swap_event event pool block
      else none

  unfoldable pub parse_swap_event :
      ContractEventByBlockHash
      → HashMap String Pool
      → RichBlockEntry
      → Option (NewAccountTransaction D T)
  parse_swap_event event pools block = swap_in (get event.contract_address pools) event block

  -- Each swap with the index of its event.
  unfoldable pub extract_swaps :
      BlockAndEvents → HashMap String Pool → List (ℤ × NewAccountTransaction D T)
  extract_swaps bwe pools =
      filter_map
        (λ event. parse_swap_event event pools bwe.block >>= λ swap. some (event.event_index, swap))
        bwe.events
