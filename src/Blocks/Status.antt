-- ===== src/Blocks/Status.antt =====
-- The status of blocks and of their transactions (crates/bento-types/src/repository/mod.rs).
use linx_app_backend.Base.{
  ℕ, zero, suc, Bool, true, false, not, ◌&&◌, Option, some, none, List, [], ◌∷◌, String, ◌≡◌, sym,
  ap, ◌∙◌, subst, arith, In, if◌then◌else◌,
}
use linx_app_backend.Base.Equality.{string_eq, eqb}
use linx_app_backend.Base.Ints.{ℤ, int_eq}
use linx_app_backend.Base.Outcome.{Outcome, Error, ok, err, panic}
use linx_app_backend.Base.Action.{Action, ◌>>◌, lift, for_each}
use linx_app_backend.Base.Store.{
  Store, connect, read, transaction, or_none, Keeps, Keeps-bind, read-Keeps, or_none-Keeps,
  for_each-Keeps, transaction-Keeps,
}
use linx_app_backend.Base.Collect.{In-map}
use linx_app_backend.Blocks.{
  BlockModel, TransactionRow, Tables, is_of_block, set_block_status, set_transaction_status, parent,
  find_block, hashes_of_rivals,
}
use linx_app_backend.Blocks.Update.{
  update_status, update_main_chain_status, enter_main_chain, follow, round, get_block_by_hash,
  fetch_block_hashes_at_height_filter_one, update_main_chain,
}
use linx_app_backend.Blocks.Stored.{with_status, update_status_ok}

abbrev pub IsConsistent : {T : Type 0} → Tables T → Type 0
IsConsistent {T} t =
    (row : TransactionRow) (block : BlockModel T)
    → In row t.transactions
    → In block t.blocks
    → row.block_hash ≡ some block.hash
    → row.main_chain ≡ block.main_chain

set_status_flags :
    {T : Type 0} (h : String) (flag : Bool) (row : TransactionRow) (block : BlockModel T)
    → row.block_hash ≡ some block.hash
    → row.main_chain ≡ block.main_chain
    → (set_transaction_status h flag row).main_chain ≡ (set_block_status h flag block).main_chain
set_status_flags h flag row block of_block same =
    let test : is_of_block h row.block_hash ≡ eqb block.hash h = ap (is_of_block h) of_block in
    ground arith

set_block_status-hash :
    {T : Type 0} (h : String) (flag : Bool) (block : BlockModel T)
    → (set_block_status h flag block).hash ≡ block.hash
set_block_status-hash h flag block = ground arith

set_transaction_status-block_hash :
    (h : String) (flag : Bool) (row : TransactionRow)
    → (set_transaction_status h flag row).block_hash ≡ row.block_hash
set_transaction_status-block_hash h flag row = ground arith

-- The two updates of one hash keep the transactions in step with their blocks.
with_status-IsConsistent :
    {T : Type 0} (h : String) (flag : Bool) (t : Tables T)
    → IsConsistent t
    → IsConsistent (with_status h flag t)
with_status-IsConsistent h flag t c row' block' row_in block_in of_block =
    let (row, row_in', row_is) =
      In-map (set_transaction_status h flag) row' t.transactions row_in in
    let (block, block_in', block_is) = In-map (set_block_status h flag) block' t.blocks block_in in
    let of : row.block_hash ≡ some block.hash =
      sym (set_transaction_status-block_hash h flag row)
      ∙ sym (ap (λ (r : TransactionRow). r.block_hash) row_is)
      ∙ of_block
      ∙ ap (λ (b : BlockModel _). some b.hash) block_is
      ∙ ap some (set_block_status-hash h flag block) in
    ap (λ (r : TransactionRow). r.main_chain) row_is
    ∙ set_status_flags h flag row block of (c row block row_in' block_in' of)
    ∙ sym (ap (λ (b : BlockModel _). b.main_chain) block_is)

module _ {T : Type 0} (answer : ℕ → Option Error) where
  abbrev Consistent : {A : Type 0} → Action (Store (Tables T)) A → Type 0
  Consistent m = Keeps IsConsistent m

  update_main_chain_status-Consistent :
      (hashes : List String) (flag : Bool)
      → Consistent (update_main_chain_status answer hashes flag)
  update_main_chain_status-Consistent hashes flag =
      Keeps-bind IsConsistent (connect answer)
        (λ u. for_each (λ h. transaction answer (update_status answer h flag)) hashes)
        (read-Keeps IsConsistent answer (λ t. tt))
        (λ u.
          for_each-Keeps IsConsistent (λ h. transaction answer (update_status answer h flag)) hashes
            (λ h. transaction-Keeps IsConsistent answer (update_status answer h flag) (λ d v d' c e.
              subst IsConsistent (sym (update_status_ok answer h flag d v d' e))
                (with_status-IsConsistent h flag d.tables c))))

  enter_main_chain-Consistent :
      (h : String) (block : BlockModel T) → Consistent (enter_main_chain answer h block)
  enter_main_chain-Consistent h block =
      Keeps-bind IsConsistent (fetch_block_hashes_at_height_filter_one answer block)
        (λ others.
          update_main_chain_status answer others false
          >> update_main_chain_status answer (h ∷ []) true)
        (Keeps-bind IsConsistent (connect answer)
          (λ u. read answer (λ t. hashes_of_rivals block t.blocks))
          (read-Keeps IsConsistent answer (λ t. tt))
          (λ u. read-Keeps IsConsistent answer (λ t. hashes_of_rivals block t.blocks)))
        (λ others.
          Keeps-bind IsConsistent (update_main_chain_status answer others false)
            (λ u. update_main_chain_status answer (h ∷ []) true)
            (update_main_chain_status-Consistent others false)
            (λ u. update_main_chain_status-Consistent (h ∷ []) true))

  get_block_by_hash-Consistent : (h : String) → Consistent (get_block_by_hash answer h)
  get_block_by_hash-Consistent h =
      Keeps-bind IsConsistent (connect answer)
        (λ u d. or_none (read answer (λ t. find_block h t.blocks) d))
        (read-Keeps IsConsistent answer (λ t. tt))
        (λ u.
          or_none-Keeps IsConsistent (read answer (λ t. find_block h t.blocks))
            (read-Keeps IsConsistent answer (λ t. find_block h t.blocks)))

  follow-Consistent :
      (again : String → Action (Store (Tables T)) (Option String)) (next : Outcome (Option String))
      → ((h : String) → Consistent (again h))
      → Consistent (follow answer again next)
  follow-Consistent again (ok (some h)) keeps = keeps h
  follow-Consistent again (ok none) keeps = λ d c. c
  follow-Consistent again (err e) keeps = λ d c. c
  follow-Consistent again panic keeps = λ d c. c

  round-Consistent :
      (again : String → Action (Store (Tables T)) (Option String)) (chain_from chain_to : ℤ)
      (group_num : Option ℤ) (h : String) (found : Option (BlockModel T))
      → ((h : String) → Consistent (again h))
      → Consistent (round answer again chain_from chain_to group_num h found)
  round-Consistent again chain_from chain_to group_num h none keeps = λ d c. c
  round-Consistent again chain_from chain_to group_num h (some block) keeps =
      elim (not block.main_chain
          && not (eqb block.chain_from chain_from && eqb block.chain_to chain_to))
        as (λ b. Consistent (
          if b
          then lift panic
          else (enter_main_chain answer h block >> follow answer again (parent group_num block)))) [
            | true ↦ λ d c. c
            | false ↦
                Keeps-bind IsConsistent (enter_main_chain answer h block)
                  (λ u. follow answer again (parent group_num block))
                  (enter_main_chain-Consistent h block)
                  (λ u. follow-Consistent again (parent group_num block) keeps)
          ]

  -- Whichever calls of the database fail, an update of the main chain leaves every stored transaction
  -- with the status of its block if every one had it before, however many rounds it takes and whether
  -- it ends well, with an error or with a panic.
  pub update_main_chain-IsConsistent :
      (fuel : ℕ) (chain_from chain_to : ℤ) (group_num : Option ℤ) (h : String)
      (d : Store (Tables T))
      → IsConsistent d.tables
      → IsConsistent ((update_main_chain answer fuel chain_from chain_to group_num h d).1.tables)
  unfolding update_main_chain
  update_main_chain-IsConsistent zero chain_from chain_to group_num h = λ d c. c
  update_main_chain-IsConsistent (suc fuel) chain_from chain_to group_num h =
      let again = update_main_chain answer fuel chain_from chain_to group_num in
      Keeps-bind IsConsistent (get_block_by_hash answer h)
        (round answer again chain_from chain_to group_num h) (get_block_by_hash-Consistent h)
        (λ found.
          round-Consistent again chain_from chain_to group_num h found
            (update_main_chain-IsConsistent fuel chain_from chain_to group_num))
