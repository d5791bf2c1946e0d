-- ===== src/Blocks/Update.antt =====
-- crates/bento-types/src/repository/mod.rs and block.rs: the queries and the statements of the update of
-- the main chain.
use linx_app_backend.Base.{
  ℕ, zero, suc, Bool, true, false, not, ◌&&◌, Option, some, none, List, [], ◌∷◌, map, String,
  if◌then◌else◌,
}
use linx_app_backend.Base.Equality.{string_eq, eqb}
use linx_app_backend.Base.Ints.{ℤ, int_eq}
use linx_app_backend.Base.Outcome.{Outcome, Error, ok, err, panic}
use linx_app_backend.Base.Action.{Action, ◌>>=◌, ◌>>◌, pure, lift, for_each}
use linx_app_backend.Base.Store.{Store, connect, read, write, transaction, or_none}
use linx_app_backend.Blocks.{
  BlockModel, Tables, parent, find_block, hashes_of_rivals, set_block_status,
  set_transaction_status,
}

module _ {T : Type 0} where
  abbrev pub set_blocks_status : String → Bool → Tables T → Tables T
  set_blocks_status block_hash main_chain t = record t {
    blocks = map (set_block_status block_hash main_chain) t.blocks;
  }

  abbrev pub set_transactions_status : String → Bool → Tables T → Tables T
  set_transactions_status block_hash main_chain t = record t {
    transactions = map (set_transaction_status block_hash main_chain) t.transactions;
  }

  -- `answer` says which calls of the database fail.
  module _ (answer : ℕ → Option Error) where
    abbrev pub get_block_by_hash : String → Action (Store (Tables T)) (Option (BlockModel T))
    get_block_by_hash block_hash =
        connect answer >> λ d. or_none (read answer (λ t. find_block block_hash t.blocks) d)

    abbrev pub fetch_block_hashes_at_height_filter_one :
        BlockModel T → Action (Store (Tables T)) (List String)
    fetch_block_hashes_at_height_filter_one block =
        connect answer >> read answer (λ t. hashes_of_rivals block t.blocks)

    abbrev pub update_status : String → Bool → Action (Store (Tables T)) (Unit {0})
    update_status block_hash main_chain =
        write answer (set_blocks_status block_hash main_chain)
        >> write answer (set_transactions_status block_hash main_chain)

    -- Without hashes nothing is left to do, as in the early return.
    abbrev pub update_main_chain_status : List String → Bool → Action (Store (Tables T)) (Unit {0})
    update_main_chain_status block_hashes main_chain =
        connect answer
        >> for_each (λ block_hash. transaction answer (update_status block_hash main_chain))
            block_hashes

    -- What follows for the parent that `block.parent(group_num).unwrap()` gives.
    abbrev pub follow :
        (String → Action (Store (Tables T)) (Option String))
        → Outcome (Option String)
        → Action (Store (Tables T)) (Option String)
    follow again (ok (some hash)) = again hash
    follow again (ok none) = lift panic
    follow again (err e) = lift panic
    follow again panic = lift panic

    -- The round for a stored block: the others at its height leave the main chain, then it enters it.
    abbrev pub enter_main_chain : String → BlockModel T → Action (Store (Tables T)) (Unit {0})
    enter_main_chain current_hash block =
        fetch_block_hashes_at_height_filter_one block >>= λ block_hashes.
        update_main_chain_status block_hashes false
        >> update_main_chain_status (current_hash ∷ []) true

    -- A round of the loop, by what is stored under the hash. The two assertions panic.
    abbrev pub round :
        (String → Action (Store (Tables T)) (Option String))
        → ℤ
        → ℤ
        → Option ℤ
        → String
        → Option (BlockModel T)
        → Action (Store (Tables T)) (Option String)
    round again chain_from chain_to group_num current_hash none = pure (some current_hash)
    round again chain_from chain_to group_num current_hash (some block) =
        if not block.main_chain
          && not (eqb block.chain_from chain_from && eqb block.chain_to chain_to)
        then lift panic
        else (enter_main_chain current_hash block >> follow again (parent group_num block))

    -- The loop, with fuel for its rounds; `none` is that the fuel ran out. A block without a parent,
    -- that is one at height 0, is an `unwrap` of nothing.
    unfoldable pub update_main_chain :
        ℕ → ℤ → ℤ → Option ℤ → String → Action (Store (Tables T)) (Option String)
    update_main_chain zero chain_from chain_to group_num current_hash = pure none
    update_main_chain (suc fuel) chain_from chain_to group_num current_hash =
        get_block_by_hash current_hash
        >>= round (update_main_chain fuel chain_from chain_to group_num) chain_from chain_to
            group_num current_hash
