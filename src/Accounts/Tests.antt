-- ===== src/Accounts/Tests.antt =====
-- The table of account transactions
-- (examples/linx-indexer/src/repository/account_transactions_repository.rs) on small tables, and the
-- theorems at concrete inputs.
use linx_app_backend.Base.{
  ℕ, false, some, none, List, [], ◌∷◌, String, ◌≡◌, refl, inl, inr, arith, In,
}
use linx_app_backend.Base.Ints.{pos}
use linx_app_backend.Base.Outcome.{ok}
use linx_app_backend.Processors.Records.{NewAccountTransaction, contract_call_details}
use linx_app_backend.Accounts.{
  Database, has_key, insert_one, insert_all, insert_transactions, order_by_time,
  get_account_transactions,
}
use linx_app_backend.Accounts.Insertion.{insert_again}
use linx_app_backend.Accounts.Pages.{ties_skipped}

abbrev row : String → ℕ → NewAccountTransaction ℕ ℕ
row tx_id time = record {
  address = "alice";
  tx_type = "contract_call";
  tx_id = tx_id;
  from_group = pos 0;
  to_group = pos 0;
  block_height = pos 0;
  timestamp = time;
  details = contract_call_details (record { contract_address = "pool" });
}

abbrev db : Database ℕ ℕ
db = record { connection = ok tt; tx_key = λ tx. tx.tx_id; refuses = λ tx. false }

abbrev table : List (NewAccountTransaction ℕ ℕ)
table = row "a" 3 ∷ row "b" 7 ∷ row "c" 7 ∷ []

filled : insert_transactions db table [] ≡ (ok tt, table)
unfolding insert_transactions insert_all insert_one has_key
filled = refl

abbrev longer : List (NewAccountTransaction ℕ ℕ)
longer = row "a" 3 ∷ row "b" 7 ∷ row "c" 7 ∷ row "d" 8 ∷ []

filled_more : insert_transactions db (row "d" 8 ∷ []) table ≡ (ok tt, longer)
unfolding insert_transactions insert_all insert_one has_key
filled_more = refl

again_part :
    (tx : NewAccountTransaction ℕ ℕ) → In tx (row "b" 7 ∷ row "a" 3 ∷ row "b" 7 ∷ []) → In tx table
again_part tx (inl e) = inr (inl e)
again_part tx (inr (inl e)) = inl e
again_part tx (inr (inr (inl e))) = inr (inl e)
again_part tx (inr (inr (inr h))) = elim h [ ]

insert_again_example :
    insert_transactions db (row "b" 7 ∷ row "a" 3 ∷ row "b" 7 ∷ []) longer ≡ (ok tt, longer)
insert_again_example =
    insert_again db table (row "d" 8 ∷ []) (row "b" 7 ∷ row "a" 3 ∷ row "b" 7 ∷ []) [] table longer
      refl filled filled_more again_part

-- The second row of time 7 is on neither of the two pages of one row.
first_page : get_account_transactions "alice" 1 none table ≡ row "b" 7 ∷ []
unfolding get_account_transactions order_by_time
first_page = refl

second_page : get_account_transactions "alice" 1 (some 7) table ≡ row "a" 3 ∷ []
unfolding get_account_transactions order_by_time
second_page = refl

ties_skipped_example : ¬ In (row "c" 7) (get_account_transactions "alice" 9 (some 7) table)
ties_skipped_example = ties_skipped "alice" 9 7 7 table (row "c" 7) refl (omega arith)
