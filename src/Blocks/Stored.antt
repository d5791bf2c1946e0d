-- ===== src/Blocks/Stored.antt =====
-- What the statements of the update of the main chain (crates/bento-types/src/repository) come to when
-- the database answers each.
use linx_app_backend.Base.{ℕ, Bool, true, false, Option, none, List, [], ◌∷◌, String, ◌≡◌, ap, ◌∙◌}
use linx_app_backend.Base.Outcome.{Error, ok}
use linx_app_backend.Base.Action.{bind_ok, for_each, ◌>>◌}
use linx_app_backend.Base.Store.{
  Store, Gives, Gives-bind, pure-Gives, call-Gives, or_none, or_none-Gives, transaction-Gives,
  write, write_ok, connect, read, transaction,
}
use linx_app_backend.Blocks.{BlockModel, Tables, find_block, hashes_of_rivals}
use linx_app_backend.Blocks.Update.{
  set_blocks_status, set_transactions_status, get_block_by_hash, update_status,
  update_main_chain_status, enter_main_chain, fetch_block_hashes_at_height_filter_one,
}

module _ {T : Type 0} where
  abbrev pub with_status : String → Bool → Tables T → Tables T
  with_status h flag t = set_transactions_status h flag (set_blocks_status h flag t)

  unfoldable pub with_statuses : List String → Bool → Tables T → Tables T
  with_statuses [] flag t = t
  with_statuses (h ∷ hashes) flag t = with_statuses hashes flag (with_status h flag t)

  -- The tables after a round for a block.
  abbrev pub with_entered : String → BlockModel T → Tables T → Tables T
  with_entered h block t =
      with_statuses (h ∷ []) true (with_statuses (hashes_of_rivals block t.blocks) false t)

  module _ (answer : ℕ → Option Error) where
    -- The two updates of one hash, when both succeed.
    pub update_status_ok :
        (h : String) (flag : Bool) (d : Store (Tables T)) (u : Unit {0}) (d' : Store (Tables T))
        → update_status answer h flag d ≡ (ok u, d')
        → d'.tables ≡ with_status h flag d.tables
    update_status_ok h flag d u d' ended =
        let (u1, d1, first, second) =
          bind_ok (write answer (set_blocks_status h flag))
            (λ v. write answer (set_transactions_status h flag)) ended in
        write_ok answer (set_transactions_status h flag) d1 second
        ∙ ap (set_transactions_status h flag) (write_ok answer (set_blocks_status h flag) d first)

    module _ (reachable : (n : ℕ) → answer n ≡ none) where
      pub get_block_by_hash-Gives :
          (h : String) (t : Tables T)
          → Gives (get_block_by_hash answer h) t (find_block h t.blocks) t
      get_block_by_hash-Gives h t =
          Gives-bind (connect answer) (λ u d. or_none (read answer (λ s. find_block h s.blocks) d))
            {s = t} {s' = t} (call-Gives answer reachable (λ s. (tt, s)) t)
            (or_none-Gives answer reachable (λ s. find_block h s.blocks) t)

      update_status-Gives :
          (h : String) (flag : Bool) (t : Tables T)
          → Gives (transaction answer (update_status answer h flag)) t tt (with_status h flag t)
      update_status-Gives h flag t =
          transaction-Gives answer reachable (update_status answer h flag) {s = t}
            {s' = with_status h flag t}
            (Gives-bind (write answer (set_blocks_status h flag))
              (λ u. write answer (set_transactions_status h flag)) {s = t}
              {s' = set_blocks_status h flag t} {s'' = with_status h flag t}
              (call-Gives answer reachable (λ s. (tt, set_blocks_status h flag s)) t)
              (call-Gives answer reachable (λ s. (tt, set_transactions_status h flag s))
                (set_blocks_status h flag t)))

      each-Gives :
          (hashes : List String) (flag : Bool) (t : Tables T)
          → Gives
              (for_each (λ h. transaction answer (update_status answer h flag)) hashes)
              t
              tt
              (with_statuses hashes flag t)
      unfolding with_statuses
      each-Gives [] flag t = pure-Gives tt t
      each-Gives (h ∷ hashes) flag t =
          Gives-bind (transaction answer (update_status answer h flag))
            (λ u. for_each (λ k. transaction answer (update_status answer k flag)) hashes) {s = t}
            {s' = with_status h flag t} {s'' = with_statuses hashes flag (with_status h flag t)}
            (update_status-Gives h flag t) (each-Gives hashes flag (with_status h flag t))

      statuses-Gives :
          (hashes : List String) (flag : Bool) (t : Tables T)
          → Gives (update_main_chain_status answer hashes flag) t tt (with_statuses hashes flag t)
      statuses-Gives hashes flag t =
          Gives-bind (connect answer)
            (λ u. for_each (λ k. transaction answer (update_status answer k flag)) hashes) {s = t}
            {s' = t} {s'' = with_statuses hashes flag t}
            (call-Gives answer reachable (λ s. (tt, s)) t) (each-Gives hashes flag t)

      pub enter_main_chain-Gives :
          (h : String) (block : BlockModel T) (t : Tables T)
          → Gives (enter_main_chain answer h block) t tt (with_entered h block t)
      enter_main_chain-Gives h block t =
          let others = hashes_of_rivals block t.blocks in
          Gives-bind (fetch_block_hashes_at_height_filter_one answer block)
            (λ hs.
              update_main_chain_status answer hs false
              >> update_main_chain_status answer (h ∷ []) true)
            {s = t} {s' = t} {s'' = with_entered h block t}
            (Gives-bind (connect answer) (λ u. read answer (λ s. hashes_of_rivals block s.blocks))
              {s = t} {s' = t} {s'' = t} (call-Gives answer reachable (λ s. (tt, s)) t)
              (call-Gives answer reachable (λ s. (hashes_of_rivals block s.blocks, s)) t))
            (Gives-bind (update_main_chain_status answer others false)
              (λ u. update_main_chain_status answer (h ∷ []) true) {s = t}
              {s' = with_statuses others false t} {s'' = with_entered h block t}
              (statuses-Gives others false t)
              (statuses-Gives (h ∷ []) true (with_statuses others false t)))
