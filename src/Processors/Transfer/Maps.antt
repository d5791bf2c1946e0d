-- ===== src/Processors/Transfer/Maps.antt =====
-- The maps that examples/linx-indexer/src/processors/transfer_processor.rs builds, against sums over
-- the inputs and the outputs of the transaction.
use linx_app_backend.Base.{
  not, Option, none, List, [], ◌∷◌, ◌++◌, String, ◌≡◌, refl, sym, ap, ◌∙◌, subst, inl, inr, arith,
  if◌then◌else◌, Bool-cases,
}
use linx_app_backend.Base.Equality.{string_eq, pair_eq, eqb, contains}
use linx_app_backend.Base.HashMap.{
  HashMap, get, total, accumulate, get-accumulate, accumulate-IsDistinct, accumulate-append,
  IsDistinct, retain, get-retain, retain-IsDistinct,
}
use linx_app_backend.Types.Block.{RichAssetInput, FixedAssetOutput, Token}
use linx_app_backend.Types.Libraries.{BigDecimal, parse_or_zero}
use linx_app_backend.Processors.Transfer.{
  Key, alph_token_id, add_tokens, add_inputs, add_outputs, filtered_input_map,
}

module _ {D : Type 0} (decimal : BigDecimal D) where
  abbrev pub token_entries : String → List Token → List (Key × D)
  token_entries address [] = []
  token_entries address (token ∷ tokens) =
      ((address, token.id), parse_or_zero decimal token.amount) ∷ token_entries address tokens

  abbrev pub input_entries : List RichAssetInput → List (Key × D)
  input_entries [] = []
  input_entries (input ∷ inputs) =
      ((input.address, alph_token_id), parse_or_zero decimal input.atto_alph_amount)
      ∷ (token_entries input.address input.tokens ++ input_entries inputs)

  abbrev pub output_entries : List FixedAssetOutput → List (Key × D)
  output_entries [] = []
  output_entries (output ∷ outputs) =
      ((output.address, alph_token_id), parse_or_zero decimal output.atto_alph_amount)
      ∷ (token_entries output.address output.tokens ++ output_entries outputs)

  -- What an address puts into a transaction, and what it gets out, of a token.
  abbrev pub spent : List RichAssetInput → Key → Option D
  spent inputs k = total decimal.zero_decimal decimal.plus k (input_entries inputs) none

  abbrev pub received : List FixedAssetOutput → Key → Option D
  received outputs k = total decimal.zero_decimal decimal.plus k (output_entries outputs) none

  abbrev sums : List (Key × D) → HashMap Key D → HashMap Key D
  sums = accumulate decimal.zero_decimal decimal.plus

  add_tokens-sums :
      (address : String) (tokens : List Token) (m : HashMap Key D)
      → add_tokens decimal address tokens m ≡ sums (token_entries address tokens) m
  unfolding add_tokens accumulate
  add_tokens-sums address [] m = refl
  add_tokens-sums address (token ∷ tokens) m = add_tokens-sums address tokens _

  add_inputs-sums :
      (inputs : List RichAssetInput) (m : HashMap Key D)
      → add_inputs decimal inputs m ≡ sums (input_entries inputs) m
  unfolding add_inputs accumulate
  add_inputs-sums [] m = refl
  add_inputs-sums (input ∷ inputs) m =
      add_inputs-sums inputs _
      ∙ ap (sums (input_entries inputs)) (add_tokens-sums input.address input.tokens _)
      ∙ sym (
          accumulate-append decimal.zero_decimal decimal.plus
            (token_entries input.address input.tokens) (input_entries inputs) _)

  add_outputs-sums :
      (outputs : List FixedAssetOutput) (m : HashMap Key D)
      → add_outputs decimal outputs m ≡ sums (output_entries outputs) m
  unfolding add_outputs accumulate
  add_outputs-sums [] m = refl
  add_outputs-sums (output ∷ outputs) m =
      add_outputs-sums outputs _
      ∙ ap (sums (output_entries outputs)) (add_tokens-sums output.address output.tokens _)
      ∙ sym (
          accumulate-append decimal.zero_decimal decimal.plus
            (token_entries output.address output.tokens) (output_entries outputs) _)

  pub get-add_inputs :
      (inputs : List RichAssetInput) (k : Key)
      → get k (add_inputs decimal inputs []) ≡ spent inputs k
  unfolding get
  get-add_inputs inputs k =
      ap (get k) (add_inputs-sums inputs [])
      ∙ get-accumulate decimal.zero_decimal decimal.plus k (input_entries inputs) []

  pub get-add_outputs :
      (outputs : List FixedAssetOutput) (k : Key)
      → get k (add_outputs decimal outputs []) ≡ received outputs k
  unfolding get
  get-add_outputs outputs k =
      ap (get k) (add_outputs-sums outputs [])
      ∙ get-accumulate decimal.zero_decimal decimal.plus k (output_entries outputs) []

  pub add_inputs-IsDistinct :
      (inputs : List RichAssetInput) → IsDistinct (add_inputs decimal inputs [])
  unfolding IsDistinct
  add_inputs-IsDistinct inputs =
      subst IsDistinct (sym (add_inputs-sums inputs []))
        (accumulate-IsDistinct decimal.zero_decimal decimal.plus (input_entries inputs) [] tt)

  pub add_outputs-IsDistinct :
      (outputs : List FixedAssetOutput) → IsDistinct (add_outputs decimal outputs [])
  unfolding IsDistinct
  add_outputs-IsDistinct outputs =
      subst IsDistinct (sym (add_outputs-sums outputs []))
        (accumulate-IsDistinct decimal.zero_decimal decimal.plus (output_entries outputs) [] tt)

module _ {D : Type 0} where
  pub get-filtered_input_map :
      (gas_payers : List String) (k : Key) (m : HashMap Key D)
      → get k (filtered_input_map gas_payers m)
        ≡ (if contains gas_payers k.0 then none else get k m)
  unfolding filtered_input_map
  get-filtered_input_map [] k m = refl
  get-filtered_input_map (g ∷ gs) k m =
      let rest = get-filtered_input_map gs k (retain (λ l. not (eqb l.0 g)) m) in
      let kept = get-retain (λ l. not (eqb l.0 g)) k m in
      elim (Bool-cases (eqb k.0 g)) [ inl t ↦ ground arith | inr f ↦ ground arith ]

  pub filtered_input_map-IsDistinct :
      (gas_payers : List String) (m : HashMap Key D)
      → IsDistinct m
      → IsDistinct (filtered_input_map gas_payers m)
  unfolding filtered_input_map
  filtered_input_map-IsDistinct [] m h = h
  filtered_input_map-IsDistinct (g ∷ gs) m h =
      filtered_input_map-IsDistinct gs _ (retain-IsDistinct (λ l. not (eqb l.0 g)) m h)
