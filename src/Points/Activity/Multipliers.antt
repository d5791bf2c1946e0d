-- ===== src/Points/Activity/Multipliers.antt =====
-- The multiplier that examples/linx-indexer/src/services/points_calculator_service.rs applies is the
-- one with the highest threshold that the volume reaches.
use linx_app_backend.Base.{
  true, false, Option, some, none, List, [], ◌∷◌, ◌≡◌, refl, sym, ◌∙◌, subst, ◌⊎◌, inl, inr,
  if◌then◌else◌, Bool-cases, In,
}
use linx_app_backend.Points.Activity.{Arithmetic, PointsMultiplier, better, best_multiplier}

-- What is used of the order of decimals: `>=` is transitive, and `>` is the negation of `<=`.
pub record IsOrder {D : Type 0} (decimal : Arithmetic D) : Type 0 where
  pub transitive :
      (a b c : D)
      → decimal.at_least a b ≡ true
      → decimal.at_least b c ≡ true
      → decimal.at_least a c ≡ true
  pub reflexive : (a : D) → decimal.at_least a a ≡ true
  pub greater_at_least : (a b : D) → decimal.greater a b ≡ true → decimal.at_least a b ≡ true
  pub not_greater : (a b : D) → decimal.greater a b ≡ false → decimal.at_least b a ≡ true

absurd : {A : Type 0} → false ≡ true → A
absurd h = let never : ⊥ = cc in elim never [ ]

module _ {D : Type 0} (decimal : Arithmetic D) (order : IsOrder decimal) where
  -- The best of some multipliers for a volume, or none if the volume reaches no threshold.
  pub data IsBest (volume : D) (Among : PointsMultiplier D → Type 0)
      : Option (PointsMultiplier D) → Type 0 where
    no_multiplier :
        ((m : PointsMultiplier D) → Among m → decimal.at_least volume m.threshold_value ≡ false)
        → IsBest volume Among none
    highest :
        (best : PointsMultiplier D)
        → Among best
        → decimal.at_least volume best.threshold_value ≡ true
        → ((m : PointsMultiplier D)
            → Among m
            → decimal.at_least volume m.threshold_value ≡ true
            → decimal.at_least best.threshold_value m.threshold_value ≡ true)
        → IsBest volume Among (some best)

  IsBest-same :
      (volume : D) (P Q : PointsMultiplier D → Type 0) (best : Option (PointsMultiplier D))
      → ((m : PointsMultiplier D) → P m → Q m)
      → ((m : PointsMultiplier D) → Q m → P m)
      → IsBest volume P best
      → IsBest volume Q best
  IsBest-same volume P Q none there back (no_multiplier below) =
      no_multiplier (λ m q. below m (back m q))
  IsBest-same volume P Q (some b) there back (highest best among applies top) =
      highest best (there best among) applies (λ m q. top m (back m q))

  -- One multiplier more.
  abbrev Or : (PointsMultiplier D → Type 0) → PointsMultiplier D → PointsMultiplier D → Type 0
  Or P m x = P x ⊎ (x ≡ m)

  step-IsBest :
      (volume : D) (P : PointsMultiplier D → Type 0) (best : Option (PointsMultiplier D))
      (m : PointsMultiplier D)
      → IsBest volume P best
      → IsBest volume
          (Or P m)
          (if decimal.at_least volume m.threshold_value then better decimal best m else best)
  step-IsBest volume P best m h = elim (Bool-cases (decimal.at_least volume m.threshold_value)) [
    | inr below ↦
        subst (λ b. IsBest volume (Or P m) (if b then better decimal best m else best)) (sym below)
          (skip below best h)
    | inl applies ↦
        subst (λ b. IsBest volume (Or P m) (if b then better decimal best m else best))
          (sym applies) (take applies best h)
  ]
    where
      skip :
          decimal.at_least volume m.threshold_value ≡ false
          → (best : Option (PointsMultiplier D)) → IsBest volume P best
          → IsBest volume (Or P m) best
      skip below none (no_multiplier all_below) = no_multiplier (λ x h. elim h [
        | inl p ↦ all_below x p
        | inr e ↦ subst (λ y. decimal.at_least volume y.threshold_value ≡ false) (sym e) below
      ])
      skip below (some b) (highest best among reached top) =
          highest best (inl among) reached (λ x h. elim h [
            | inl p ↦ top x p
            | inr e ↦ λ r. absurd (
                sym (subst (λ y. decimal.at_least volume y.threshold_value ≡ false) (sym e) below)
                ∙ r)
          ])

      take :
          decimal.at_least volume m.threshold_value ≡ true
          → (best : Option (PointsMultiplier D)) → IsBest volume P best
          → IsBest volume (Or P m) (better decimal best m)
      take applies none (no_multiplier all_below) = highest m (inr refl) applies (λ x h. elim h [
        | inl p ↦ λ r. absurd (sym (all_below x p) ∙ r)
        | inr e ↦ λ r.
            subst (λ y. decimal.at_least m.threshold_value y.threshold_value ≡ true) (sym e)
              (order.reflexive m.threshold_value)
      ])
      take applies (some b) (highest best among reached top) =
          elim (Bool-cases (decimal.greater m.threshold_value best.threshold_value)) [
            | inl g ↦
                subst (λ b. IsBest volume (Or P m) (if b then some m else some best)) (sym g)
                  (highest m (inr refl) applies (λ x h. elim h [
                    | inl p ↦ λ r.
                        order.transitive m.threshold_value best.threshold_value x.threshold_value
                          (order.greater_at_least m.threshold_value best.threshold_value g)
                          (top x p r)
                    | inr e ↦ λ r.
                        subst (λ y. decimal.at_least m.threshold_value y.threshold_value ≡ true)
                          (sym e) (order.reflexive m.threshold_value)
                  ]))
            | inr n ↦
                subst (λ b. IsBest volume (Or P m) (if b then some m else some best)) (sym n)
                  (highest best (inl among) reached (λ x h. elim h [
                    | inl p ↦ top x p
                    | inr e ↦ λ r.
                        subst (λ y. decimal.at_least best.threshold_value y.threshold_value ≡ true)
                          (sym e) (order.not_greater m.threshold_value best.threshold_value n)
                  ]))
          ]

  best_multiplier-IsBest_among :
      (volume : D) (P : PointsMultiplier D → Type 0) (ms : List (PointsMultiplier D))
      (best : Option (PointsMultiplier D))
      → IsBest volume P best
      → IsBest volume (λ x. P x ⊎ In x ms) (best_multiplier decimal volume ms best)
  unfolding best_multiplier
  best_multiplier-IsBest_among volume P [] best h =
      IsBest-same volume P (λ x. P x ⊎ In x []) best (λ x p. inl p)
        (λ x q. elim q [ inl p ↦ p | inr e ↦ elim e [ ] ]) h
  best_multiplier-IsBest_among volume P (m ∷ ms) best h =
      IsBest-same volume (λ x. Or P m x ⊎ In x ms) (λ x. P x ⊎ In x (m ∷ ms)) _
        (λ x q. elim q [ inl (inl p) ↦ inl p | inl (inr e) ↦ inr (inl e) | inr i ↦ inr (inr i) ])
        (λ x q. elim q [ inl p ↦ inl (inl p) | inr (inl e) ↦ inl (inr e) | inr (inr i) ↦ inr i ])
        (best_multiplier-IsBest_among volume (Or P m) ms _ (step-IsBest volume P best m h))

  -- Among any multipliers, in any order, the one that is chosen for a volume has a threshold that the
  -- volume reaches, the highest of those; if none is chosen, the volume reaches no threshold.
  pub best_multiplier-IsBest :
      (volume : D) (ms : List (PointsMultiplier D))
      → IsBest volume (λ x. In x ms) (best_multiplier decimal volume ms none)
  best_multiplier-IsBest volume ms =
      IsBest-same volume (λ x. ⊥ ⊎ In x ms) (λ x. In x ms) _
        (λ x q. elim q [ inl p ↦ elim p [ ] | inr i ↦ i ]) (λ x i. inr i)
        (best_multiplier-IsBest_among volume (λ x. ⊥) ms none (no_multiplier (λ m h. elim h [ ])))
