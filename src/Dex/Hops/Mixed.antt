-- ===== src/Dex/Hops/Mixed.antt =====
-- What examples/linx-indexer/src/processors/dex_processor.rs makes of a route through pools of two
-- kinds, from the events of its swaps.
use linx_app_backend.Base.{
  ℕ, Bool, true, false, ◌&&◌, Option, some, none, [], ◌∷◌, String, ◌≡◌, ◌≢◌, sym, ap, ◌∙◌, subst,
  inl, inr, Bool-cases, ◌==◌, ==_iff, length, if◌then◌else◌, optional,
}
use mathlib.Core.Path.{ap₂}
use linx_app_backend.Base.Equality.{string_eq, eqb}
use linx_app_backend.Base.HashMap.{HashMap, get}
use linx_app_backend.Base.Ints.{ℤ, pos, negsuc, is_nat}
use linx_app_backend.Base.Outcome.{ok}
use linx_app_backend.Types.Block.{RichBlockEntry, ContractEventByBlockHash}
use linx_app_backend.Types.Libraries.{BigDecimal, NaiveDateTime}
use linx_app_backend.Processors.Records.{NewAccountTransaction}
use linx_app_backend.Processors.LendingEvents.{◌>>=◌}
use linx_app_backend.Dex.Pools.{Pool, ayin_v2_factory_address, elexium_factory_address}
use linx_app_backend.Dex.Swaps.{
  swap_row, swap_in, parse_swap_event, parse_ayin_v2_swap_event, parse_elexium_swap_event,
  extract_swaps,
}
use linx_app_backend.Dex.Hops.{aggregate_tx}
use linx_app_backend.Dex.Hops.Rows.{IsReadable}
use linx_app_backend.Dex.Hops.Routes.{Says, reversed_by_index}

-- What a parser reads has the index that it tests.
index_read :
    {A : Type 0} (n : ℕ) (whole : Bool) (index : ℤ) (read : Option A) (a : A)
    → (if whole && is_nat index n then read else none) ≡ some a
    → index ≡ pos n
index_read n true (pos m) read a e = elim (Bool-cases (m == n)) [
  | inl t ↦ ap pos ((==_iff m n).0 t)
  | inr f ↦ let no : none ≡ some a = subst (λ b. (if b then read else none) ≡ some a) f e in cc
]
index_read n true (negsuc m) read a e = cc
index_read n false index read a e = cc

module _ {D T : Type 0} (decimal : BigDecimal D) (chrono : NaiveDateTime T) where
  module _ (pools : HashMap String Pool) (block : RichBlockEntry) (event : ContractEventByBlockHash)
      (pool : Pool) (swap : NewAccountTransaction D T)
      (known : get event.contract_address pools ≡ some pool)
      (read : parse_swap_event decimal chrono event pools block ≡ some swap) where
    ayin_index : pool.factory_address ≡ ayin_v2_factory_address → event.event_index ≡ pos 2
    unfolding parse_swap_event parse_ayin_v2_swap_event
    ayin_index of_ayin =
        index_read 2 (length event.fields == 6) event.event_index
          (swap_row decimal chrono event pool block) swap
          (ap
              (λ factory.
                if eqb factory ayin_v2_factory_address
                then parse_ayin_v2_swap_event decimal chrono event pool block
                else if eqb factory elexium_factory_address
                then parse_elexium_swap_event decimal chrono event pool block
                else none)
              (sym of_ayin)
            ∙ ap (λ o. swap_in decimal chrono o event block) (sym known)
            ∙ read)

    elexium_index : pool.factory_address ≡ elexium_factory_address → event.event_index ≡ pos 3
    unfolding parse_swap_event parse_elexium_swap_event
    elexium_index of_elexium =
        index_read 3 (length event.fields == 6) event.event_index
          (swap_row decimal chrono event pool block) swap
          (ap
              (λ factory.
                if eqb factory ayin_v2_factory_address
                then parse_ayin_v2_swap_event decimal chrono event pool block
                else if eqb factory elexium_factory_address
                then parse_elexium_swap_event decimal chrono event pool block
                else none)
              (sym of_elexium)
            ∙ ap (λ o. swap_in decimal chrono o event block) (sym known)
            ∙ read)

  -- The swaps of a block with two events, each of which is read.
  extract_two :
      (pools : HashMap String Pool) (block : RichBlockEntry) (e f : ContractEventByBlockHash)
      (r s : NewAccountTransaction D T)
      → parse_swap_event decimal chrono e pools block ≡ some r
      → parse_swap_event decimal chrono f pools block ≡ some s
      → extract_swaps decimal chrono (record { block = block; events = e ∷ f ∷ [] }) pools
        ≡ ((e.event_index, r) ∷ (f.event_index, s) ∷ [])
  unfolding extract_swaps
  extract_two pools block e f r s read_e read_f =
      ap₂
        (λ x y.
          optional (x >>= λ swap. some (e.event_index, swap))
            (optional (y >>= λ swap. some (f.event_index, swap)) []))
        read_e read_f

  -- A block has two events that the indexer can read, and whose texts its messages can show: a swap of
  -- one token for a different one in a pool of Ayin, and a swap of the second token for a third in a
  -- pool of Elexium. In whichever order the block lists them, the row that the two swaps become as
  -- those of one transaction says that the second token was put in and got out: what the second swap
  -- put in for what the first got out.
  pub mixed_route_reversed :
      (info : Bool) (pools : HashMap String Pool) (block : RichBlockEntry)
      (ayin_event elexium_event : ContractEventByBlockHash) (ayin elexium : Pool)
      (tx_id a b c : String) (first_swap second_swap : NewAccountTransaction D T)
      → get ayin_event.contract_address pools ≡ some ayin
      → ayin.factory_address ≡ ayin_v2_factory_address
      → get elexium_event.contract_address pools ≡ some elexium
      → elexium.factory_address ≡ elexium_factory_address
      → parse_swap_event decimal chrono ayin_event pools block ≡ some first_swap
      → parse_swap_event decimal chrono elexium_event pools block ≡ some second_swap
      → (first : IsReadable info first_swap) (second : IsReadable info second_swap)
      → first.swap.token_in ≡ a
      → first.swap.token_out ≡ b
      → second.swap.token_in ≡ b
      → second.swap.token_out ≡ c
      → a ≢ b
      → (row : NewAccountTransaction D T) × (aggregate_tx decimal info tx_id (
            extract_swaps decimal chrono
              (record { block = block; events = ayin_event ∷ elexium_event ∷ [] })
              pools)
          ≡ ok row)
        × (aggregate_tx decimal info tx_id (
              extract_swaps decimal chrono
                (record { block = block; events = elexium_event ∷ ayin_event ∷ [] })
                pools)
            ≡ ok row)
        × Says row second_swap b b second.swap.amount_in first.swap.amount_out (pos 2)
  mixed_route_reversed info pools block e f ayin elexium tx_id a b c r s known_e of_ayin known_f
        of_elexium read_e read_f first second fa fb sb sc moves =
      let (row, listed, other, says) =
        reversed_by_index decimal info tx_id a b c r s first second fa fb sb sc moves in
      let two = ayin_index pools block e ayin r known_e read_e of_ayin in
      let three = elexium_index pools block f elexium s known_f read_f of_elexium in
      (
        row,
        ap (aggregate_tx decimal info tx_id) (
              extract_two pools block e f r s read_e read_f
              ∙ ap₂ (λ i j. (i, r) ∷ (j, s) ∷ []) two three)
            ∙ listed,
        ap (aggregate_tx decimal info tx_id) (
              extract_two pools block f e s r read_f read_e
              ∙ ap₂ (λ i j. (i, s) ∷ (j, r) ∷ []) three two)
            ∙ other,
        says,
      )
