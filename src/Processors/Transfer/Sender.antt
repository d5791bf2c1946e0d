-- ===== src/Processors/Transfer/Sender.antt =====
-- The early exits of examples/linx-indexer/src/processors/transfer_processor.rs leave transactions
-- with one possible sender, so that what is reported are exactly the transfers.
use linx_app_backend.Base.{
  Bool, true, false, Option, some, none, List, [], ◌∷◌, ◌++◌, String, ◌≡◌, refl, sym, ap, ◌∙◌,
  subst, ◌↔◌, inl, inr, arith, if◌then◌else◌, Bool-cases, In, In-append_left, In-append_right,
}
use linx_app_backend.Base.Equality.{
  string_eq, pair_eq, eqb, contains, insert_set, eqb→eq, contains→In,
}
use linx_app_backend.Base.HashMap.{HashMap, total}
use linx_app_backend.Types.Block.{Transaction, RichBlockEntry, RichAssetInput, Token}
use linx_app_backend.Types.Libraries.{BigDecimal, NaiveDateTime}
use linx_app_backend.Processors.Records.{
  NewAccountTransaction, transfer_details, swap_details, contract_call_details,
}
use linx_app_backend.Processors.Transfer.{
  Key, input_addresses, gas_payer_present, is_ambiguous, sender_record, extract_token_transfers,
}
use linx_app_backend.Processors.Transfer.Maps.{input_entries, token_entries}
use linx_app_backend.Processors.Transfer.Sound.{
  IsTransfer, Visits, reported-IsTransfer, transfer_reported,
}

-- Adding to a set keeps what it has, and has what is added.
insert_set-keeps : (a b : String) (xs : List String) → In b xs → In b (insert_set a xs)
insert_set-keeps a b xs h = elim (contains xs a) as (λ c. In b (if c then xs else xs ++ a ∷ [])) [
  | true ↦ h
  | false ↦ In-append_left b xs (a ∷ []) h
]

insert_set-has : (a : String) (xs : List String) → In a (insert_set a xs)
insert_set-has a xs = elim (Bool-cases (contains xs a)) [
  | inl t ↦ insert_set-keeps a a xs (contains→In xs a t)
  | inr f ↦
      subst (λ c. In a (if c then xs else xs ++ a ∷ [])) (sym f)
        (In-append_right a xs (a ∷ []) (inl refl))
]

input_addresses-keeps :
    (a : String) (inputs : List RichAssetInput) (seen : List String)
    → In a seen
    → In a (input_addresses inputs seen)
unfolding input_addresses
input_addresses-keeps a [] seen h = h
input_addresses-keeps a (input ∷ inputs) seen h =
    input_addresses-keeps a inputs _ (insert_set-keeps input.address a seen h)

-- The address of a key with a sum is that of an input.
module _ {D : Type 0} (decimal : BigDecimal D) where
  abbrev sum_of : Key → List (Key × D) → Option D → Option D
  sum_of = total decimal.zero_decimal decimal.plus

  token_entries-sum :
      (address : String) (tokens : List Token) (k : Key) (es : List (Key × D)) (sum : Option D)
      → eqb k.0 address ≡ false
      → sum_of k (token_entries decimal address tokens ++ es) sum ≡ sum_of k es sum
  unfolding total
  token_entries-sum address [] k es sum h = refl
  token_entries-sum address (token ∷ tokens) (a, t) es sum h =
      let rest = token_entries-sum address tokens (a, t) es sum h in ground arith

  spent-address :
      (k : Key) (d : D) (inputs : List RichAssetInput) (seen : List String)
      → sum_of k (input_entries decimal inputs) none ≡ some d
      → In k.0 (input_addresses inputs seen)
  unfolding total input_addresses
  spent-address k d [] seen h = cc
  spent-address (a, t) d (input ∷ inputs) seen h = elim (Bool-cases (eqb a input.address)) [
    | inl same ↦ input_addresses-keeps a inputs _ (
        subst (λ b. In b (insert_set input.address seen)) (sym (eqb→eq a input.address same))
          (insert_set-has input.address seen))
    | inr other ↦
        let skipped =
          token_entries-sum input.address input.tokens (a, t) (input_entries decimal inputs) none
            other in
        spent-address (a, t) d inputs _ (ground arith)
  ]

-- With one address, or two of which one pays the gas, only one can be a sender.
sender_unique :
    (addresses gas_payers : List String) (a b : String)
    → is_ambiguous addresses gas_payers ≡ false
    → In a addresses
    → In b addresses
    → contains gas_payers a ≡ false
    → contains gas_payers b ≡ false
    → a ≡ b
unfolding is_ambiguous gas_payer_present
sender_unique [] gas_payers a b clear h k p q = elim h [ ]
sender_unique (x ∷ []) gas_payers a b clear (inl e) (inl f) p q = e ∙ sym f
sender_unique (x ∷ []) gas_payers a b clear (inr h) k p q = elim h [ ]
sender_unique (x ∷ []) gas_payers a b clear (inl e) (inr k) p q = elim k [ ]
sender_unique (x ∷ y ∷ []) gas_payers a b clear (inl e) (inl f) p q = e ∙ sym f
sender_unique (x ∷ y ∷ []) gas_payers a b clear (inl e) (inr (inl f)) p q =
    let p' = subst (λ z. contains gas_payers z ≡ false) e p in
    let q' = subst (λ z. contains gas_payers z ≡ false) f q in ground arith
sender_unique (x ∷ y ∷ []) gas_payers a b clear (inr (inl e)) (inl f) p q =
    let p' = subst (λ z. contains gas_payers z ≡ false) e p in
    let q' = subst (λ z. contains gas_payers z ≡ false) f q in ground arith
sender_unique (x ∷ y ∷ []) gas_payers a b clear (inr (inl e)) (inr (inl f)) p q = e ∙ sym f
sender_unique (x ∷ y ∷ []) gas_payers a b clear (inr (inr h)) k p q = elim h [ ]
sender_unique (x ∷ y ∷ []) gas_payers a b clear h (inr (inr k)) p q = elim k [ ]
sender_unique (x ∷ y ∷ z ∷ rest) gas_payers a b clear h k p q = ground arith

-- What a row tells of a transfer.
abbrev row_of : {D T : Type 0} → D → NewAccountTransaction D T → String × String × String × D
row_of d row = elim row.details [
  | transfer_details t ↦ (t.from_address, t.to_address, t.token_id, t.amount)
  | swap_details t ↦ ("", "", "", d)
  | contract_call_details t ↦ ("", "", "", d)
]

module _ {D T : Type 0} (decimal : BigDecimal D) (chrono : NaiveDateTime T) (tx : Transaction)
    (block : RichBlockEntry) (visit_outputs visit_inputs : HashMap Key D → List (Key × D))
    (visits_outputs : Visits visit_outputs) (visits_inputs : Visits visit_inputs)
    (gas_payers : List String) where
  abbrev report : List (NewAccountTransaction D T)
  report = extract_token_transfers decimal chrono tx block visit_outputs visit_inputs gas_payers

  abbrev ambiguous : Bool
  ambiguous = is_ambiguous (input_addresses tx.unsigned.inputs []) gas_payers

  -- The sender of a transfer is determined by the transaction.
  from_unique :
      {a b to to' token token' : String} {amount amount' : D}
      → ambiguous ≡ false
      → IsTransfer decimal tx gas_payers a to token amount
      → IsTransfer decimal tx gas_payers b to' token' amount'
      → a ≡ b
  from_unique {a} {b} {to} {to'} {token} {token'} clear t u =
      sender_unique (input_addresses tx.unsigned.inputs []) gas_payers a b clear
        (spent-address decimal (a, token) t.spent_amount tx.unsigned.inputs [] t.has_spent)
        (spent-address decimal (b, token') u.spent_amount tx.unsigned.inputs [] u.has_spent)
        t.not_gas u.not_gas

  -- In whatever order the maps are visited, the row of a sender is reported exactly if the
  -- transaction does not count as ambiguous and makes the transfer that the row tells of: the
  -- receiver gets exactly the amount out, it is not dust and more than the receiver put in, and the
  -- sender, another address that is no gas payer, put in at least as much.
  pub sender_reported_iff :
      (from to token : String) (amount : D)
      → In (sender_record decimal chrono tx block from to token amount) report
        ↔ ((ambiguous ≡ false) × IsTransfer decimal tx gas_payers from to token amount)
  sender_reported_iff from to token amount = (
    λ h.
        let (clear, from', to', token', amount', t, row) =
          reported-IsTransfer decimal chrono tx block visit_outputs visit_inputs visits_outputs
            visits_inputs gas_payers (sender_record decimal chrono tx block from to token amount)
            h in
        let same : (from', to', token', amount') ≡ (from, to, token, amount) = elim row [
          | inl e ↦ sym (ap (λ r. row_of decimal.zero_decimal r) e)
          | inr e ↦ sym (ap (λ r. row_of decimal.zero_decimal r) e)
        ] in
        (clear, subst (λ x. IsTransfer decimal tx gas_payers x.0 x.1 x.2 x.3) same t),
    λ h.
        let (from', t, sent, got) =
          transfer_reported decimal chrono tx block visit_outputs visit_inputs visits_outputs
            visits_inputs gas_payers from to token amount h.0 h.1 in
        subst (λ f. In (sender_record decimal chrono tx block f to token amount) report)
          (from_unique h.0 t h.1) sent,
  )
