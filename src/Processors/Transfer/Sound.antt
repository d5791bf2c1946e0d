-- ===== src/Processors/Transfer/Sound.antt =====
-- What is reported as a transfer by examples/linx-indexer/src/processors/transfer_processor.rs, and
-- what a transfer is, read off the inputs and the outputs of the transaction.
use linx_app_backend.Base.{
  Bool, true, false, ◌&&◌, Option, some, none, List, [], ◌∷◌, String, ◌≡◌, ◌≢◌, refl, sym, ap, ◌∙◌,
  subst, ◌⊎◌, ◌↔◌, inl, inr, if◌then◌else◌, In, flat_map, In-flat_map, In→flat_map,
}
use linx_app_backend.Base.Equality.{string_eq, pair_eq, eqb, contains, ne→eqb_false}
use linx_app_backend.Base.HashMap.{HashMap, get, unwrap_or, get→In, In→get}
use linx_app_backend.Types.Block.{Transaction, RichBlockEntry}
use linx_app_backend.Types.Libraries.{BigDecimal, NaiveDateTime, parse_or_zero}
use linx_app_backend.Processors.Records.{NewAccountTransaction}
use linx_app_backend.Processors.Transfer.{
  Key, alph_token_id, dust_amount, add_inputs, add_outputs, filtered_input_map, input_addresses,
  is_ambiguous, sender_record, receiver_record, from_output, extract_token_transfers,
}
use linx_app_backend.Processors.Transfer.Maps.{
  spent, received, get-add_inputs, get-add_outputs, add_inputs-IsDistinct, add_outputs-IsDistinct,
  get-filtered_input_map, filtered_input_map-IsDistinct,
}
use linx_app_backend.Processors.Transfer.FirstSender.{from_inputs-Found, from_inputs-finds, Reports}

-- One address, not a gas payer, put at least `amount` of the token in, and another got exactly
-- `amount` out, which is not dust and more than it put in itself.
pub record IsTransfer {D : Type 0} (decimal : BigDecimal D) (tx : Transaction)
    (gas_payers : List String) (from to token : String) (amount : D) : Type 0 where
  pub has_received : received decimal tx.unsigned.fixed_outputs (to, token) ≡ some amount
  pub spent_amount : D
  pub has_spent : spent decimal tx.unsigned.inputs (from, token) ≡ some spent_amount
  pub enough : decimal.le amount spent_amount ≡ true
  pub from≢to : from ≢ to
  pub not_gas : contains gas_payers from ≡ false
  pub not_dust :
      (eqb token alph_token_id && decimal.le amount (parse_or_zero decimal dust_amount)) ≡ false
  pub not_own :
      decimal.le amount
        (unwrap_or decimal.zero_decimal (spent decimal tx.unsigned.inputs (to, token)))
      ≡ false

-- A visit of a map's entries, in any order.
abbrev pub Visits : {D : Type 0} → (HashMap Key D → List (Key × D)) → Type 0
Visits {D} visit = (m : HashMap Key D) (x : Key × D) → In x (visit m) ↔ In x m

some_unless :
    {D : Type 0} (b : Bool) (o : Option D) (d : D)
    → (if b then none else o) ≡ some d
    → (b ≡ false) × (o ≡ some d)
some_unless true o d h = cc
some_unless false o d h = (refl, h)

one_of_two : {A : Type 0} {r a b : A} → In r (a ∷ b ∷ []) → (r ≡ a) ⊎ (r ≡ b)
one_of_two (inl e) = inl e
one_of_two (inr (inl e)) = inr e
one_of_two (inr (inr h)) = elim h [ ]

else_taken : {A : Type 0} {b : Bool} {y : List A} → b ≡ false → (if b then [] else y) ≡ y
else_taken {b = true} h = cc
else_taken {b = false} h = refl

In-unless :
    {A : Type 0} (b : Bool) (xs : List A) (a : A)
    → In a (if b then [] else xs)
    → (b ≡ false) × In a xs
In-unless true xs a h = elim h [ ]
In-unless false xs a h = (refl, h)

module _ {D T : Type 0} (decimal : BigDecimal D) (chrono : NaiveDateTime T) (tx : Transaction)
    (block : RichBlockEntry) (visit_outputs visit_inputs : HashMap Key D → List (Key × D))
    (visits_outputs : Visits visit_outputs) (visits_inputs : Visits visit_inputs)
    (gas_payers : List String) where
  abbrev spent_map : HashMap Key D
  spent_map = add_inputs decimal tx.unsigned.inputs []

  abbrev payers : List (Key × D)
  payers = visit_inputs (filtered_input_map gas_payers spent_map)

  abbrev of_output : Key × D → List (NewAccountTransaction D T)
  of_output = from_output decimal chrono tx block spent_map payers

  abbrev report : List (NewAccountTransaction D T)
  report = extract_token_transfers decimal chrono tx block visit_outputs visit_inputs gas_payers

  abbrev Transfers : String → String → String → D → Type 0
  Transfers = IsTransfer decimal tx gas_payers

  -- An entry of the filtered map, read off the transaction.
  payer-spent :
      (from token : String) (paid : D)
      → In ((from, token), paid) payers
      → (contains gas_payers from ≡ false)
        × (spent decimal tx.unsigned.inputs (from, token) ≡ some paid)
  payer-spent from token paid h =
      let inside =
        (visits_inputs (filtered_input_map gas_payers spent_map) ((from, token), paid)).0 h in
      let distinct =
        filtered_input_map-IsDistinct gas_payers spent_map
          (add_inputs-IsDistinct decimal tx.unsigned.inputs) in
      let found =
        In→get (from, token) paid (filtered_input_map gas_payers spent_map) distinct inside in
      let (not_gas, sum) =
        some_unless (contains gas_payers from) _ paid
          (sym (get-filtered_input_map gas_payers (from, token) spent_map) ∙ found) in
      (not_gas, sym (get-add_inputs decimal tx.unsigned.inputs (from, token)) ∙ sum)

  spent-payer :
      (from token : String) (paid : D)
      → contains gas_payers from ≡ false
      → spent decimal tx.unsigned.inputs (from, token) ≡ some paid
      → In ((from, token), paid) payers
  spent-payer from token paid not_gas sum =
      let filtered = get-filtered_input_map gas_payers (from, token) spent_map in
      let found =
        filtered
        ∙ ap (λ b. if b then none else get (from, token) spent_map) not_gas
        ∙ get-add_inputs decimal tx.unsigned.inputs (from, token)
        ∙ sum in
      (visits_inputs (filtered_input_map gas_payers spent_map) ((from, token), paid)).1
        (get→In (from, token) paid (filtered_input_map gas_payers spent_map) found)

  own_input :
      (to token : String) (amount : D)
      → decimal.le amount (unwrap_or decimal.zero_decimal (get (to, token) spent_map))
        ≡ decimal.le amount
            (unwrap_or decimal.zero_decimal (spent decimal tx.unsigned.inputs (to, token)))
  own_input to token amount =
      ap (λ o. decimal.le amount (unwrap_or decimal.zero_decimal o))
        (get-add_inputs decimal tx.unsigned.inputs (to, token))

  -- One output: nothing, or the two rows of a transfer.
  of_output-Transfers :
      (to token : String) (amount : D) (r : NewAccountTransaction D T)
      → received decimal tx.unsigned.fixed_outputs (to, token) ≡ some amount
      → In r (of_output ((to, token), amount))
      → (from : String) × Transfers from to token amount
        × ((r ≡ sender_record decimal chrono tx block from to token amount)
            ⊎ (r ≡ receiver_record decimal chrono tx block from to token amount))
  unfolding from_output
  of_output-Transfers to token amount r sum h =
      let (not_dust, h') =
        In-unless (eqb token alph_token_id && decimal.le amount (parse_or_zero decimal dust_amount))
          _ r h in
      let (not_own, found) =
        In-unless (decimal.le amount (unwrap_or decimal.zero_decimal (get (to, token) spent_map))) _
          r h' in
      elim (from_inputs-Found decimal chrono tx block to token amount payers) [
        | inl none_found ↦ elim (subst (In r) none_found found) [ ]
        | inr (from, pays, reports) ↦
            let (not_gas, has_spent) = payer-spent from token pays.paid pays.stands in
            (
              from,
              record {
                has_received = sum;
                spent_amount = pays.paid;
                has_spent = has_spent;
                enough = pays.covers;
                from≢to = pays.from≢to;
                not_gas = not_gas;
                not_dust = not_dust;
                not_own = sym (own_input to token amount) ∙ not_own;
              },
              one_of_two (subst (In r) reports found),
            )
      ]

  of_output_complete :
      (from to token : String) (amount : D)
      → Transfers from to token amount
      → (from' : String) × Transfers from' to token amount
        × Reports decimal chrono tx block (of_output ((to, token), amount)) from' to token amount
  unfolding from_output
  of_output_complete from to token amount t =
      let finds =
        from_inputs-finds decimal chrono tx block from to token amount t.spent_amount payers
          (spent-payer from token t.spent_amount t.not_gas t.has_spent) t.enough
          (ne→eqb_false from to t.from≢to) in
      elim (from_inputs-Found decimal chrono tx block to token amount payers) [
        | inl none_found ↦ elim (finds none_found) [ ]
        | inr (from', pays, reports) ↦
            let (not_gas, has_spent) = payer-spent from' token pays.paid pays.stands in
            (
              from',
              record {
                has_received = t.has_received;
                not_dust = t.not_dust;
                not_own = t.not_own;
                spent_amount = pays.paid;
                has_spent = has_spent;
                enough = pays.covers;
                from≢to = pays.from≢to;
                not_gas = not_gas;
              },
              else_taken t.not_dust ∙ else_taken (own_input to token amount ∙ t.not_own) ∙ reports,
            )
      ]

  abbrev output_map : HashMap Key D
  output_map = add_outputs decimal tx.unsigned.fixed_outputs []

  abbrev ambiguous : Bool
  ambiguous = is_ambiguous (input_addresses tx.unsigned.inputs []) gas_payers

  -- Every row that is reported is that of the sender or the receiver of a transfer: an amount of a
  -- token that the receiver gets out of the transaction, that is not dust and more than it put in,
  -- and that another address, which is no gas payer, put in at least; and the transaction does not
  -- count as ambiguous.
  pub reported-IsTransfer :
      (r : NewAccountTransaction D T)
      → In r report
      → (ambiguous ≡ false)
        × (from to token : String) × (amount : D) × Transfers from to token amount
        × ((r ≡ sender_record decimal chrono tx block from to token amount)
            ⊎ (r ≡ receiver_record decimal chrono tx block from to token amount))
  unfolding extract_token_transfers
  reported-IsTransfer r h =
      let (clear, h') = In-unless ambiguous (flat_map of_output (visit_outputs output_map)) r h in
      let (((to, token), amount), stands, found) =
        In-flat_map of_output r (visit_outputs output_map) h' in
      let inside = (visits_outputs output_map ((to, token), amount)).0 stands in
      let sum =
        sym (get-add_outputs decimal tx.unsigned.fixed_outputs (to, token))
        ∙ In→get (to, token) amount output_map
            (add_outputs-IsDistinct decimal tx.unsigned.fixed_outputs) inside in
      let (from, t, row) = of_output-Transfers to token amount r sum found in
      (clear, from, to, token, amount, t, row)

  -- The rows of a transfer are reported, with a sender who can have paid it, unless the transaction
  -- counts as ambiguous.
  pub transfer_reported :
      (from to token : String) (amount : D)
      → ambiguous ≡ false
      → Transfers from to token amount
      → (from' : String) × Transfers from' to token amount
        × In (sender_record decimal chrono tx block from' to token amount) report
        × In (receiver_record decimal chrono tx block from' to token amount) report
  unfolding extract_token_transfers
  transfer_reported from to token amount clear t =
      let inside =
        get→In (to, token) amount output_map
          (get-add_outputs decimal tx.unsigned.fixed_outputs (to, token) ∙ t.has_received) in
      let stands = (visits_outputs output_map ((to, token), amount)).1 inside in
      let (from', t', reports) = of_output_complete from to token amount t in
      let put : (r : NewAccountTransaction D T)
          → In r (of_output ((to, token), amount))
          → In r report =
        λ r h.
          subst (λ b. In r (if b then [] else flat_map of_output (visit_outputs output_map)))
            (sym clear)
            (In→flat_map of_output ((to, token), amount) r (visit_outputs output_map) stands h) in
      (
        from',
        t',
        put _ (subst (In _) (sym reports) (inl refl)),
        put _ (subst (In _) (sym reports) (inr (inl refl))),
      )
