-- ===== src/Processors/Transfer/FirstSender.antt =====
-- The inner loop of examples/linx-indexer/src/processors/transfer_processor.rs, which looks for the
-- sender of an output among the entries of the inputs' map.
use linx_app_backend.Base.{
  true, false, not, ◌||◌, List, [], ◌∷◌, String, ◌≡◌, ◌≢◌, refl, sym, ap, subst, ◌⊎◌, inl, inr,
  arith, if◌then◌else◌, Bool-cases, In,
}
use linx_app_backend.Base.Equality.{string_eq, pair_eq, eqb, eqb→eq, eqb_false→ne, eqb_refl}
use linx_app_backend.Types.Block.{Transaction, RichBlockEntry}
use linx_app_backend.Types.Libraries.{BigDecimal, NaiveDateTime}
use linx_app_backend.Processors.Records.{NewAccountTransaction}
use linx_app_backend.Processors.Transfer.{Key, sender_record, receiver_record, from_inputs}

module _ {D T : Type 0} (decimal : BigDecimal D) (chrono : NaiveDateTime T) (tx : Transaction)
    (block : RichBlockEntry) where
  -- An input that pays for an output in the inner loop.
  pub record Pays (inputs : List (Key × D)) (from to token : String) (amount : D) : Type 0 where
    pub paid : D
    pub stands : In ((from, token), paid) inputs
    pub covers : decimal.le amount paid ≡ true
    pub from≢to : from ≢ to

  abbrev pub Reports : List (NewAccountTransaction D T) → String → String → String → D → Type 0
  Reports rows from to token amount =
      rows
      ≡ sender_record decimal chrono tx block from to token amount
        ∷ receiver_record decimal chrono tx block from to token amount
        ∷ []

  -- What the inner loop can report.
  abbrev pub Found :
      List (Key × D) → String → String → D → List (NewAccountTransaction D T) → Type 0
  Found inputs to token amount rows =
      (rows ≡ [])
      ⊎ ((from : String) × Pays inputs from to token amount × Reports rows from to token amount)

  Found-later :
      (x : Key × D) (inputs : List (Key × D)) (to token : String) (amount : D)
      (rows : List (NewAccountTransaction D T))
      → Found inputs to token amount rows
      → Found (x ∷ inputs) to token amount rows
  Found-later x inputs to token amount rows (inl e) = inl e
  Found-later x inputs to token amount rows (inr (from, p, r)) = inr (
    from,
    record { paid = p.paid; stands = inr p.stands; covers = p.covers; from≢to = p.from≢to },
    r,
  )

  pub from_inputs-Found :
      (to token : String) (amount : D) (inputs : List (Key × D))
      → Found inputs to token amount (from_inputs decimal chrono tx block to token amount inputs)
  unfolding from_inputs
  from_inputs-Found to token amount [] = inl refl
  from_inputs-Found to token amount (((from, in_token), paid) ∷ inputs) =
      let x : Key × D = ((from, in_token), paid) in
      let rest = from_inputs decimal chrono tx block to token amount inputs in
      let pair =
        sender_record decimal chrono tx block from to token amount
        ∷ receiver_record decimal chrono tx block from to token amount
        ∷ [] in
      let later =
        Found-later x inputs to token amount rest (from_inputs-Found to token amount inputs) in
      elim (Bool-cases (not (eqb in_token token) || eqb from to)) [
        | inl skip ↦
            subst
              (λ b.
                Found (x ∷ inputs) to token amount
                  (if b then rest else if decimal.le amount paid then pair else rest))
              (sym skip) later
        | inr take ↦
            subst
              (λ b.
                Found (x ∷ inputs) to token amount
                  (if b then rest else if decimal.le amount paid then pair else rest))
              (sym take)
              (elim (Bool-cases (decimal.le amount paid)) [
                | inr short ↦
                    subst (λ b. Found (x ∷ inputs) to token amount (if b then pair else rest))
                      (sym short) later
                | inl covers ↦
                    let same : eqb in_token token ≡ true = ground arith in
                    let other : eqb from to ≡ false = ground arith in
                    subst (λ b. Found (x ∷ inputs) to token amount (if b then pair else rest))
                      (sym covers)
                      (inr (
                        from,
                        record {
                          paid = paid;
                          stands =
                              inl (ap (λ t. ((from, t), paid)) (sym (eqb→eq in_token token same)));
                          covers = covers;
                          from≢to = eqb_false→ne from to other;
                        },
                        refl,
                      ))
              ])
      ]

  pub from_inputs-finds :
      (from to token : String) (amount paid : D) (inputs : List (Key × D))
      → In ((from, token), paid) inputs
      → decimal.le amount paid ≡ true
      → eqb from to ≡ false
      → from_inputs decimal chrono tx block to token amount inputs ≢ []
  unfolding from_inputs
  from_inputs-finds from to token amount paid [] stands covers ne n = stands
  from_inputs-finds from to token amount paid (((from', in_token), paid') ∷ inputs) (inl e) covers
        ne n =
      let same_from : from ≡ from' = ap (λ x. x.0.0) e in
      let same_token : token ≡ in_token = ap (λ x. x.0.1) e in
      let same_paid : paid ≡ paid' = ap (λ x. x.1) e in
      let t : eqb in_token token ≡ true =
        subst (λ x. eqb x token ≡ true) same_token (eqb_refl token) in
      let f : eqb from' to ≡ false = subst (λ x. eqb x to ≡ false) same_from ne in
      let c : decimal.le amount paid' ≡ true =
        subst (λ x. decimal.le amount x ≡ true) same_paid covers in
      ground arith
  from_inputs-finds from to token amount paid (((from', in_token), paid') ∷ inputs) (inr h) covers
        ne n =
      let later = from_inputs-finds from to token amount paid inputs h covers ne in ground arith
