-- ===== src/Accounts/Insertion.antt =====
-- Inserting rows (examples/linx-indexer/src/repository/account_transactions_repository.rs) that were
-- inserted before changes nothing.
use linx_app_backend.Base.{
  true, ◌||◌, List, [], ◌∷◌, ◌++◌, String, ◌≡◌, refl, sym, ap, ◌∙◌, subst, inl, inr, arith,
  if◌then◌else◌, Bool-cases, In,
}
use linx_app_backend.Base.Equality.{string_eq, eqb_refl}
use linx_app_backend.Base.Outcome.{ok}
use linx_app_backend.Processors.Records.{NewAccountTransaction}
use linx_app_backend.Accounts.{
  Database, has_key, insert_one, insert_all, insert_transactions, connected,
}

module _ {D T : Type 0} (db : Database D T) where
  -- The table has the row's key, or never takes the row.
  abbrev Settled : List (NewAccountTransaction D T) → NewAccountTransaction D T → Type 0
  Settled table tx = (db.refuses tx || has_key db (db.tx_key tx) table) ≡ true

  has_key-append :
      (key : String) (xs ys : List (NewAccountTransaction D T))
      → has_key db key (xs ++ ys) ≡ (has_key db key xs || has_key db key ys)
  unfolding has_key
  has_key-append key [] ys = refl
  has_key-append key (x ∷ xs) ys = let rest = has_key-append key xs ys in ground arith

  insert_one-keeps :
      (tx other : NewAccountTransaction D T) (table : List (NewAccountTransaction D T))
      → Settled table other
      → Settled (insert_one db tx table) other
  unfolding insert_one
  insert_one-keeps tx other table h =
      let longer = has_key-append (db.tx_key other) table (tx ∷ []) in
      elim (Bool-cases (db.refuses tx || has_key db (db.tx_key tx) table)) [
        | inl t ↦ subst (λ b. Settled (if b then table else table ++ tx ∷ []) other) (sym t) h
        | inr f ↦
            subst (λ b. Settled (if b then table else table ++ tx ∷ []) other) (sym f)
              (ground arith)
      ]

  insert_one-Settled :
      (tx : NewAccountTransaction D T) (table : List (NewAccountTransaction D T))
      → Settled (insert_one db tx table) tx
  unfolding insert_one has_key
  insert_one-Settled tx table =
      let longer = has_key-append (db.tx_key tx) table (tx ∷ []) in
      let own = eqb_refl (db.tx_key tx) in
      elim (Bool-cases (db.refuses tx || has_key db (db.tx_key tx) table)) [
        | inl t ↦ subst (λ b. Settled (if b then table else table ++ tx ∷ []) tx) (sym t) t
        | inr f ↦
            subst (λ b. Settled (if b then table else table ++ tx ∷ []) tx) (sym f) (ground arith)
      ]

  insert_all-keeps :
      (txs : List (NewAccountTransaction D T)) (other : NewAccountTransaction D T)
      (table : List (NewAccountTransaction D T))
      → Settled table other
      → Settled (insert_all db txs table) other
  unfolding insert_all
  insert_all-keeps [] other table h = h
  insert_all-keeps (tx ∷ txs) other table h =
      insert_all-keeps txs other (insert_one db tx table) (insert_one-keeps tx other table h)

  insert_all-Settled :
      (txs : List (NewAccountTransaction D T)) (tx : NewAccountTransaction D T)
      (table : List (NewAccountTransaction D T))
      → In tx txs
      → Settled (insert_all db txs table) tx
  unfolding insert_all
  insert_all-Settled [] tx table h = elim h [ ]
  insert_all-Settled (x ∷ txs) tx table (inl e) =
      insert_all-keeps txs tx (insert_one db x table)
        (subst (λ y. Settled (insert_one db x table) y) (sym e) (insert_one-Settled x table))
  insert_all-Settled (x ∷ txs) tx table (inr h) =
      insert_all-Settled txs tx (insert_one db x table) h

  insert_all_unchanged :
      (txs table : List (NewAccountTransaction D T))
      → ((tx : NewAccountTransaction D T) → In tx txs → Settled table tx)
      → insert_all db txs table ≡ table
  unfolding insert_all insert_one
  insert_all_unchanged [] table h = refl
  insert_all_unchanged (tx ∷ txs) table h =
      ap (λ b. insert_all db txs (if b then table else table ++ tx ∷ [])) (h tx (inl refl))
      ∙ insert_all_unchanged txs table (λ x i. h x (inr i))

  inserted :
      (txs table : List (NewAccountTransaction D T))
      → db.connection ≡ ok tt
      → insert_transactions db txs table ≡ (ok tt, insert_all db txs table)
  unfolding insert_transactions insert_all
  inserted [] table up = refl
  inserted (tx ∷ txs) table up = ap (λ c. connected db c (tx ∷ txs) table) up

  -- Once rows, and after them others, have been inserted over a connection, inserting any of the
  -- first again, in any order and number, succeeds and leaves the table as it is.
  pub insert_again :
      (txs others again table table1 table2 : List (NewAccountTransaction D T))
      → db.connection ≡ ok tt
      → insert_transactions db txs table ≡ (ok tt, table1)
      → insert_transactions db others table1 ≡ (ok tt, table2)
      → ((tx : NewAccountTransaction D T) → In tx again → In tx txs)
      → insert_transactions db again table2 ≡ (ok tt, table2)
  insert_again txs others again table table1 table2 up before after part =
      let filled : insert_all db txs table ≡ table1 =
        ap (λ r. r.1) (sym (inserted txs table up) ∙ before) in
      let more : insert_all db others table1 ≡ table2 =
        ap (λ r. r.1) (sym (inserted others table1 up) ∙ after) in
      inserted again table2 up
      ∙ ap (λ t. (ok tt, t))
          (insert_all_unchanged again table2 (λ tx i.
            subst (λ t. Settled t tx) more
              (insert_all-keeps others tx table1
                (subst (λ t. Settled t tx) filled (insert_all-Settled txs tx table (part tx i))))))
