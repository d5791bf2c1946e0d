-- ===== src/Blocks/Tests.antt =====
-- The update of the main chain (crates/bento-types/src/repository/mod.rs) on a small table, and the
-- theorems at concrete inputs.
use linx_app_backend.Base.{
  ℕ, Bool, true, false, some, none, [], ◌∷◌, map, String, ◌≡◌, ◌≢◌, refl, sym, ap, inl, inr, In,
  arith, subst, ◌∙◌, Option, ◌==◌, if◌then◌else◌,
}
use linx_app_backend.Base.Equality.{string_eq}
use linx_app_backend.Base.Ints.{ℤ, pos, int_eq}
use linx_app_backend.Base.Outcome.{Error, external, ok, err, panic}
use linx_app_backend.Base.Store.{at}
use linx_app_backend.Blocks.{BlockModel, TransactionRow, Tables, find_block, parent}
use linx_app_backend.Blocks.Update.{update_main_chain}
use linx_app_backend.Blocks.Path.{marked, IsUnique}
use linx_app_backend.Blocks.Settled.{settled}
use linx_app_backend.Blocks.MainChain.{main_chain_settled}
use linx_app_backend.Blocks.Status.{IsConsistent, update_main_chain-IsConsistent}

abbrev block : String → ℕ → String → Bool → BlockModel ℕ
block hash height parent_hash main_chain = record {
  hash = hash;
  timestamp = 0;
  chain_from = pos 0;
  chain_to = pos 1;
  height = pos height;
  deps = some parent_hash ∷ [];
  nonce = "";
  version = "0";
  dep_state_hash = "";
  txs_hash = "";
  tx_number = pos 0;
  target = "";
  main_chain = main_chain;
  ghost_uncles = [];
}

abbrev transaction : String → String → Bool → TransactionRow
transaction tx_hash block_hash main_chain = record {
  tx_hash = tx_hash;
  block_hash = some block_hash;
  main_chain = main_chain;
}

-- Two blocks at height 8, of which the wrong one is of the main chain.
abbrev tables : Tables ℕ
tables = record {
  blocks =
      block "old" 8 "base" true
      ∷ block "new" 8 "base" false
      ∷ block "tip" 9 "new" false
      ∷ block "far" 5 "rest" true
      ∷ [];
  transactions = transaction "t" "old" true ∷ transaction "u" "new" false ∷ [];
}

abbrev updated : Tables ℕ
updated = record {
  blocks =
      block "old" 8 "base" false
      ∷ block "new" 8 "base" true
      ∷ block "tip" 9 "new" true
      ∷ block "far" 5 "rest" true
      ∷ [];
  transactions = transaction "t" "old" false ∷ transaction "u" "new" true ∷ [];
}

-- Every call is answered.
abbrev reachable : ℕ → Option Error
reachable n = none

-- One call fails.
abbrev failing : Error → ℕ → ℕ → Option Error
failing e m n = if m == n then some e else none

reorganised :
    update_main_chain reachable 3 (pos 0) (pos 1) (some (pos 0)) "tip" (at tables 0)
    ≡ (ok (some "base"), at updated 26)
unfolding update_main_chain find_block parent
reorganised = refl

-- A query for a block that fails is taken for a block that is not stored: the update ends well at its
-- first block and changes nothing.
failed_query :
    update_main_chain
      (failing (external "down") 1)
      3
      (pos 0)
      (pos 1)
      (some (pos 0))
      "tip"
      (at tables 0)
    ≡ (ok (some "tip"), at tables 2)
unfolding update_main_chain find_block parent
failed_query = refl

-- When the update of the transactions fails, that of their block is undone.
rolled_back :
    update_main_chain
      (failing (external "down") 17)
      3
      (pos 0)
      (pos 1)
      (some (pos 0))
      "tip"
      (at tables 0)
    ≡ (
      err (external "down"),
      at
          (record {
            blocks =
                block "old" 8 "base" true
                ∷ block "new" 8 "base" false
                ∷ block "tip" 9 "new" true
                ∷ block "far" 5 "rest" true
                ∷ [];
            transactions = tables.transactions;
          })
          18,
    )
unfolding update_main_chain find_block parent
rolled_back = refl

-- A stored block at height 0 has no parent to go on with.
from_genesis :
    update_main_chain reachable 1
      (pos 0)
      (pos 1)
      (some (pos 0))
      "g"
      (at (record { blocks = block "g" 0 "" true ∷ []; transactions = [] }) 0)
    ≡ (panic, at (record { blocks = block "g" 0 "" true ∷ []; transactions = [] }) 10)
unfolding update_main_chain find_block parent
from_genesis = refl

tables-IsUnique : IsUnique tables.blocks
unfolding find_block
tables-IsUnique c (inl e) =
    subst (λ (x : BlockModel ℕ). find_block x.hash tables.blocks ≡ some x) (sym e) refl
tables-IsUnique c (inr (inl e)) =
    subst (λ (x : BlockModel ℕ). find_block x.hash tables.blocks ≡ some x) (sym e) refl
tables-IsUnique c (inr (inr (inl e))) =
    subst (λ (x : BlockModel ℕ). find_block x.hash tables.blocks ≡ some x) (sym e) refl
tables-IsUnique c (inr (inr (inr (inl e)))) =
    subst (λ (x : BlockModel ℕ). find_block x.hash tables.blocks ≡ some x) (sym e) refl
tables-IsUnique c (inr (inr (inr (inr i)))) = elim i [ ]

found_tip : find_block "tip" tables.blocks ≡ some (block "tip" 9 "new" false)
unfolding find_block
found_tip = refl

found_new : find_block "new" tables.blocks ≡ some (block "new" 8 "base" false)
unfolding find_block
found_new = refl

absent_base : find_block "base" tables.blocks ≡ none
unfolding find_block
absent_base = refl

tip_parent : parent (some (pos 0)) (block "tip" 9 "new" false) ≡ ok (some "new")
unfolding parent
tip_parent = refl

new_parent : parent (some (pos 0)) (block "new" 8 "base" false) ≡ ok (some "base")
unfolding parent
new_parent = refl

heights_differ : ◌≢◌ {A = ℤ} (pos 8) (pos 9)
heights_differ e = cc

main_chain_settled_example :
    (t' : Tables ℕ) × (calls' : ℕ) × (update_main_chain reachable 3
        (pos 0)
        (pos 1)
        (some (pos 0))
        "tip"
        (at tables 0)
      ≡ (ok (some "base"), at t' calls'))
    × (t'.blocks
        ≡ map
            (marked (settled (block "tip" 9 "new" false ∷ block "new" 8 "base" false ∷ [])))
            tables.blocks)
main_chain_settled_example =
    main_chain_settled (pos 0) (pos 1) (some (pos 0)) reachable (λ n. refl) 3 "tip" "base"
      (block "tip" 9 "new" false ∷ block "new" 8 "base" false ∷ []) tables 0 (omega arith)
      tables-IsUnique ((heights_differ, tt), (tt, tt))
      (
        found_tip,
        refl,
        refl,
        ("new", tip_parent, (found_new, refl, refl, ("base", new_parent, (refl, absent_base)))),
      )

found_old : find_block "old" tables.blocks ≡ some (block "old" 8 "base" true)
unfolding find_block
found_old = refl

-- The block of a hash has the status of the one that is found by it.
status_by_hash :
    (h : String) (b c : BlockModel ℕ)
    → find_block h tables.blocks ≡ some b
    → In c tables.blocks
    → some h ≡ some c.hash
    → b.main_chain ≡ c.main_chain
status_by_hash h b c found c_in e =
    let of_hash : h ≡ c.hash = cc in
    let same : some b ≡ some c =
      sym found ∙ ap (λ k. find_block k tables.blocks) of_hash ∙ tables-IsUnique c c_in in
    let b≡c : b ≡ c = cc in ap (λ (x : BlockModel ℕ). x.main_chain) b≡c

tables-IsConsistent : IsConsistent tables
tables-IsConsistent row c (inl r) c_in e =
    ap (λ (x : TransactionRow). x.main_chain) r
    ∙ status_by_hash "old" (block "old" 8 "base" true) c found_old c_in
        (sym (ap (λ (x : TransactionRow). x.block_hash) r) ∙ e)
tables-IsConsistent row c (inr (inl r)) c_in e =
    ap (λ (x : TransactionRow). x.main_chain) r
    ∙ status_by_hash "new" (block "new" 8 "base" false) c found_new c_in
        (sym (ap (λ (x : TransactionRow). x.block_hash) r) ∙ e)
tables-IsConsistent row c (inr (inr i)) c_in e = elim i [ ]

update_main_chain-IsConsistent_example : IsConsistent (
    (update_main_chain
      (failing (external "down") 17)
      3
      (pos 0)
      (pos 1)
      (some (pos 0))
      "tip"
      (at tables 0)).1.tables)
update_main_chain-IsConsistent_example =
    update_main_chain-IsConsistent (failing (external "down") 17) 3 (pos 0) (pos 1) (some (pos 0))
      "tip" (at tables 0) tables-IsConsistent
