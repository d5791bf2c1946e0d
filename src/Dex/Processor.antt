-- ===== src/Dex/Processor.antt =====
-- examples/linx-indexer/src/processors/dex_processor.rs, process_blocks and store_output, with
-- examples/linx-indexer/src/repository/pool_repository.rs.
use linx_app_backend.Base.{ℕ, Bool, List, [], ◌∷◌, ◌++◌, String}
use linx_app_backend.Base.Equality.{string_eq}
use linx_app_backend.Base.HashMap.{HashMap, insert}
use linx_app_backend.Base.Ints.{ℤ}
use linx_app_backend.Base.Outcome.{Outcome, ok, ◌>>=◌}
use linx_app_backend.Types.Block.{BlockAndEvents}
use linx_app_backend.Types.Libraries.{BigDecimal, NaiveDateTime}
use linx_app_backend.Processors.Records.{NewAccountTransaction}
use linx_app_backend.Dex.Pools.{NewPoolDto, Pool, pool_from, extract_new_pools}
use linx_app_backend.Dex.Swaps.{extract_swaps}
use linx_app_backend.Dex.Hops.{aggregate_multi_hop_swaps}

pub record DexProcessorOutput (D T : Type 0) : Type 0 where
  pub new_pools : List NewPoolDto
  pub swaps : List (NewAccountTransaction D T)

-- `existing_pools.extend(…)`, with the pools by their addresses.
unfoldable pub extend_pools : List NewPoolDto → HashMap String Pool → HashMap String Pool
extend_pools [] pools = pools
extend_pools (p ∷ ps) pools = extend_pools ps (insert p.address (pool_from p) pools)

-- `get_pools`: the rows of the table by their addresses.
unfoldable pub pools_by_address : List Pool → HashMap String Pool → HashMap String Pool
pools_by_address [] m = m
pools_by_address (pool ∷ pools) m = pools_by_address pools (insert pool.address pool m)

module _ {D T : Type 0} (decimal : BigDecimal D) (chrono : NaiveDateTime T)
    (bs58_encode : List ℕ → String) where
  -- The loop over the blocks, from the pools known so far.
  unfoldable pub dex_loop :
      List BlockAndEvents
      → HashMap String Pool
      → List NewPoolDto
      → List (ℤ × NewAccountTransaction D T)
      → Outcome (List NewPoolDto × List (ℤ × NewAccountTransaction D T))
  dex_loop [] pools new_pools swaps = ok (new_pools, swaps)
  dex_loop (b ∷ bwe) pools new_pools swaps =
      extract_new_pools bs58_encode b.events >>= λ block_pools.
      dex_loop bwe (extend_pools block_pools pools) (new_pools ++ block_pools)
        (swaps ++ extract_swaps decimal chrono b (extend_pools block_pools pools))

  unfoldable pub process_dex :
      Bool
      → (HashMap String (List (ℤ × NewAccountTransaction D T))
          → List (String × List (ℤ × NewAccountTransaction D T)))
      → Outcome (List Pool)
      → List BlockAndEvents
      → Outcome (DexProcessorOutput D T)
  process_dex info visit get_pools bwe = get_pools >>= λ table.
      dex_loop bwe (pools_by_address table []) [] [] >>= λ found.
      aggregate_multi_hop_swaps decimal info visit found.1 >>= λ processed_swaps.
      ok (record { new_pools = found.0; swaps = processed_swaps })
