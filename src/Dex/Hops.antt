-- ===== src/Dex/Hops.antt =====
-- examples/linx-indexer/src/processors/dex_processor.rs, aggregate_multi_hop_swaps: the swaps of one
-- transaction become one row. Whether messages of the level `info` are recorded is an argument, since
-- they cut texts after 8 bytes, which can panic. The order in which the map of the transactions is
-- visited is an argument too.
pub mod Groups
pub mod Order
pub mod Rows
pub mod Transactions
pub mod OneIndex
pub mod Routes
pub mod Mixed
mod Tests
use Prim.Native.String
use text.Mathlib.Text.{is_char_boundary}
use mathlib.Core.List.{reverse}
use linx_app_backend.Base.{
  ℕ, Bool, true, false, not, ◌&&◌, Option, some, none, List, [], ◌∷◌, ◌++◌, map, String, length,
  if◌then◌else◌, filter_map, flat_map,
}
use linx_app_backend.Base.Equality.{string_eq, eqb}
use linx_app_backend.Base.HashMap.{HashMap, alter}
use linx_app_backend.Base.Ints.{ℤ, pos, le_int, as_i32}
use linx_app_backend.Base.Outcome.{Outcome, ok, panic, ◌>>=◌, collect}
use linx_app_backend.Types.Libraries.{BigDecimal}
use linx_app_backend.Processors.Records.{
  NewAccountTransaction, SwapDetails, Details, transfer_details, swap_details,
  contract_call_details,
}

-- `pool_addresses.join(",")`
abbrev pub join_addresses : List String → String
join_addresses [] = ""
join_addresses (a ∷ []) = a
join_addresses (a ∷ b ∷ rest) = String.◌++◌ a (String.◌++◌ "," (join_addresses (b ∷ rest)))

abbrev pub unwrap : {A : Type 0} → Option A → Outcome A
unwrap none = panic
unwrap (some a) = ok a

-- `list[0]` and `list[list.len() - 1]`
abbrev pub first_of : {A : Type 0} → List A → Option A
first_of [] = none
first_of (a ∷ as') = some a

abbrev pub last_of : {A : Type 0} → List A → Option A
last_of [] = none
last_of (a ∷ []) = some a
last_of (a ∷ b ∷ rest) = last_of (b ∷ rest)

-- A message of the level `info` that cuts texts with `&text[..8]`.
abbrev pub logged : Bool → List String → Outcome (Unit {0})
logged info [] = ok tt
logged info (text ∷ texts) =
    if info && not (is_char_boundary text 8) then panic else logged info texts

module _ {D : Type 0} where
  abbrev pub details_of : Details D → Option (SwapDetails D)
  details_of (swap_details d) = some d
  details_of (transfer_details d) = none
  details_of (contract_call_details d) = none

  -- The texts that the messages about each swap cut, before and after the sorting.
  abbrev pub texts_with_pool : SwapDetails D → List String
  texts_with_pool d = d.token_in ∷ d.token_out ∷ d.pool_address ∷ []

  abbrev pub texts : SwapDetails D → List String
  texts d = d.token_in ∷ d.token_out ∷ []

  abbrev pub same_pair : SwapDetails D → Option (SwapDetails D) → Bool
  same_pair first none = false
  same_pair first (some d) = eqb d.token_in first.token_in && eqb d.token_out first.token_out

module _ {D : Type 0} (decimal : BigDecimal D) where
  -- `iter().sum()`
  unfoldable pub sum_from : D → List D → D
  sum_from total [] = total
  sum_from total (d ∷ ds) = sum_from (decimal.plus total d) ds

module _ {D T : Type 0} where
  -- The order of `sort_by_key` by the index of the event, which keeps equal ones in place.
  unfoldable pub insert_by_index :
      ℤ × NewAccountTransaction D T
      → List (ℤ × NewAccountTransaction D T)
      → List (ℤ × NewAccountTransaction D T)
  insert_by_index a [] = a ∷ []
  insert_by_index a (x ∷ xs) = if le_int a.0 x.0 then a ∷ x ∷ xs else x ∷ insert_by_index a xs

  unfoldable pub sort_by_index :
      List (ℤ × NewAccountTransaction D T) → List (ℤ × NewAccountTransaction D T)
  sort_by_index [] = []
  sort_by_index (a ∷ as') = insert_by_index a (sort_by_index as')

  abbrev pub in_hop_order : List (ℤ × NewAccountTransaction D T) → List (NewAccountTransaction D T)
  in_hop_order swap_list = map (λ s. s.1) (reverse (sort_by_index swap_list))

  abbrev pub get_swap_details : NewAccountTransaction D T → Option (SwapDetails D)
  get_swap_details account_tx = details_of account_tx.details

  abbrev pub set_swap_details :
      NewAccountTransaction D T → SwapDetails D → NewAccountTransaction D T
  set_swap_details account_tx swap = record account_tx { details = swap_details swap }

  -- `entry(tx_id).or_default().push((event_index, swap))`
  unfoldable pub group_by_tx :
      List (ℤ × NewAccountTransaction D T)
      → HashMap String (List (ℤ × NewAccountTransaction D T))
      → HashMap String (List (ℤ × NewAccountTransaction D T))
  group_by_tx [] m = m
  group_by_tx ((event_index, swap) ∷ swaps) m =
      group_by_tx swaps (alter swap.tx_id [] (λ l. l ++ (event_index, swap) ∷ []) m)

  abbrev pub is_split_swap : SwapDetails D → List (NewAccountTransaction D T) → Bool
  is_split_swap first [] = true
  is_split_swap first (s ∷ swaps) =
      same_pair first (get_swap_details s) && is_split_swap first swaps

module _ {D T : Type 0} (decimal : BigDecimal D) where
  abbrev pub aggregated_swap :
      String → SwapDetails D → SwapDetails D → List (NewAccountTransaction D T) → SwapDetails D
  aggregated_swap tx_id first last swaps =
      let details = filter_map get_swap_details swaps in
      let pools = join_addresses (map (λ d. d.pool_address) details) in
      if is_split_swap first swaps
      then record {
        token_in = first.token_in;
        token_out = first.token_out;
        amount_in = sum_from decimal decimal.zero_decimal (map (λ d. d.amount_in) details);
        amount_out = sum_from decimal decimal.zero_decimal (map (λ d. d.amount_out) details);
        pool_address = pools;
        tx_id = tx_id;
        hop_count = as_i32 (pos (length swaps));
      }
      else record {
        token_in = first.token_in;
        token_out = last.token_out;
        amount_in = first.amount_in;
        amount_out = last.amount_out;
        pool_address = pools;
        tx_id = tx_id;
        hop_count = as_i32 (pos (length swaps));
      }

module _ {D T : Type 0} (decimal : BigDecimal D) (info : Bool) where
  -- The row of the swaps in their order, and the last message's texts.
  unfoldable pub aggregate_sorted :
      String → List (NewAccountTransaction D T) → Outcome (NewAccountTransaction D T)
  aggregate_sorted tx_id swaps = unwrap (first_of swaps) >>= λ first_swap.
      unwrap (last_of swaps) >>= λ last_swap. unwrap (get_swap_details first_swap) >>= λ first.
      unwrap (get_swap_details last_swap) >>= λ last.
      logged info (
        first.token_in
        ∷ (if is_split_swap first swaps then first.token_out else last.token_out)
        ∷ [])
      >>= λ _. ok (set_swap_details first_swap (aggregated_swap decimal tx_id first last swaps))

  abbrev pub aggregate_many :
      String → List (ℤ × NewAccountTransaction D T) → Outcome (NewAccountTransaction D T)
  aggregate_many tx_id swap_list =
      logged info (flat_map texts_with_pool (filter_map (λ s. get_swap_details s.1) swap_list))
      >>= λ _.
          logged info (flat_map texts (filter_map get_swap_details (in_hop_order swap_list)))
          >>= λ _. aggregate_sorted tx_id (in_hop_order swap_list)

  unfoldable pub aggregate_tx :
      String → List (ℤ × NewAccountTransaction D T) → Outcome (NewAccountTransaction D T)
  aggregate_tx tx_id [] = aggregate_many tx_id []
  aggregate_tx tx_id ((event_index, swap) ∷ []) = ok swap
  aggregate_tx tx_id (s ∷ t ∷ rest) = aggregate_many tx_id (s ∷ t ∷ rest)

  unfoldable pub aggregate_multi_hop_swaps :
      (HashMap String (List (ℤ × NewAccountTransaction D T))
        → List (String × List (ℤ × NewAccountTransaction D T)))
      → List (ℤ × NewAccountTransaction D T)
      → Outcome (List (NewAccountTransaction D T))
  aggregate_multi_hop_swaps visit swaps_with_index =
      collect (map (λ g. aggregate_tx g.0 g.1) (visit (group_by_tx swaps_with_index [])))
