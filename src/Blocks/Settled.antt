-- ===== src/Blocks/Settled.antt =====
-- Which blocks are of the main chain once a path is
-- (crates/bento-types/src/repository/mod.rs), and how a round of the update comes nearer to it.
use linx_app_backend.Base.{
  Bool, true, false, ◌&&◌, not, ◌||◌, some, List, [], ◌∷◌, map, ◌≡◌, ◌≢◌, refl, sym, ap, ◌∙◌, subst,
  inl, inr, arith, In, All, Bool-cases, if◌then◌else◌,
}
use linx_app_backend.Base.Equality.{string_eq, eqb, eqb→eq, contains}
use linx_app_backend.Base.Ints.{int_eq}
use linx_app_backend.Blocks.{BlockModel, find_block, is_rival}
use linx_app_backend.Blocks.Path.{marked, IsUnique, entered}

settle_step :
    (e a q p r old : Bool)
    → q ≡ (a && not e)
    → (e ≡ true → r ≡ false)
    → (if p then true else if r then false else (if e then true else if q then false else old))
      ≡ (if e || p then true else if a || r then false else old)
settle_step true a q true r old h k = refl
settle_step true a q false r old h k = ap (λ x. if x then false else true) (k refl)
settle_step false a q true r old h k = refl
settle_step false true q false true old h k = refl
settle_step false true q false false old h k = ap (λ x. if x then false else old) h
settle_step false false q false true old h k = refl
settle_step false false q false false old h k = ap (λ x. if x then false else old) h

module _ {T : Type 0} where
  -- No two blocks of the path have one height.
  abbrev pub HasHeights : List (BlockModel T) → Type 0
  HasHeights [] = Unit
  HasHeights (b ∷ bs) = All (λ c. c.height ≢ b.height) bs × HasHeights bs

  abbrev pub is_on_path : List (BlockModel T) → BlockModel T → Bool
  is_on_path path c = contains (map (λ b. b.hash) path) c.hash

  -- The block is at the chain and the height of the other.
  abbrev pub is_at : BlockModel T → BlockModel T → Bool
  is_at b c = eqb c.chain_from b.chain_from && eqb c.chain_to b.chain_to && eqb c.height b.height

  abbrev pub has_place : List (BlockModel T) → BlockModel T → Bool
  has_place [] c = false
  has_place (b ∷ bs) c = is_at b c || has_place bs c

  -- The status of a block once the path is the main chain: a block of the path is of it, another at
  -- the chain and the height of one is not, and the others are what they were.
  abbrev pub settled : List (BlockModel T) → BlockModel T → Bool
  settled path c =
      if is_on_path path c then true else if has_place path c then false else c.main_chain

  map-hash_marked :
      (status : BlockModel T → Bool) (path : List (BlockModel T))
      → map (λ (b : BlockModel T). b.hash) (map (marked status) path) ≡ map (λ b. b.hash) path
  map-hash_marked status [] = refl
  map-hash_marked status (b ∷ bs) = ap (λ l. b.hash ∷ l) (map-hash_marked status bs)

  has_place-marked :
      (status : BlockModel T → Bool) (path : List (BlockModel T)) (c : BlockModel T)
      → has_place (map (marked status) path) (marked status c) ≡ has_place path c
  has_place-marked status [] c = refl
  has_place-marked status (b ∷ bs) c = ap (λ r. is_at b c || r) (has_place-marked status bs c)

  pub HasHeights-marked :
      (status : BlockModel T → Bool) (path : List (BlockModel T))
      → HasHeights path
      → HasHeights (map (marked status) path)
  HasHeights-marked status [] h = tt
  HasHeights-marked status (b ∷ bs) (others, h) =
      (All-marked bs others, HasHeights-marked status bs h)
    where
      All-marked :
          (cs : List (BlockModel T))
          → All (λ (c : BlockModel T). c.height ≢ b.height) cs
          → All (λ (c : BlockModel T). c.height ≢ b.height) (map (marked status) cs)
      All-marked [] h = tt
      All-marked (c ∷ cs) (ne, h) = (ne, All-marked cs h)

  place-height : (b c : BlockModel T) → is_at b c ≡ true → c.height ≡ b.height
  place-height b c h = eqb→eq c.height b.height (ground arith)

  rival_lem : (b c : BlockModel T) → is_rival b c ≡ (is_at b c && not (eqb c.hash b.hash))
  rival_lem b c = ground arith

  -- A block whose height no block of the list has is no rival of one.
  other_height :
      (path : List (BlockModel T)) (c : BlockModel T)
      → All (λ (d : BlockModel T). d.height ≢ c.height) path
      → has_place path c ≡ false
  other_height [] c h = refl
  other_height (b ∷ bs) c (ne, h) = elim (Bool-cases (is_at b c)) [
    | inl t ↦ elim (ne (sym (place-height b c t))) [ ]
    | inr f ↦ let rest = other_height bs c h in ground arith
  ]

  pub settled-entered :
      (blocks : List (BlockModel T)) (b c : BlockModel T) (bs : List (BlockModel T))
      → IsUnique blocks
      → In b blocks
      → In c blocks
      → All (λ (d : BlockModel T). d.height ≢ b.height) bs
      → settled (map (marked (entered b)) bs) (marked (entered b) c) ≡ settled (b ∷ bs) c
  settled-entered blocks b c bs unique b_in c_in others =
      ap
        (λ l.
          if contains l c.hash
          then true
          else if has_place (map (marked (entered b)) bs) (marked (entered b) c)
          then false
          else entered b c)
        (map-hash_marked (entered b) bs)
      ∙ ap (λ r. if is_on_path bs c then true else if r then false else entered b c)
          (has_place-marked (entered b) bs c)
      ∙ settle_step (eqb c.hash b.hash) (is_at b c) (is_rival b c) (is_on_path bs c)
          (has_place bs c) c.main_chain (rival_lem b c)
          (λ h.
            let same : some c ≡ some b =
              sym (unique c c_in)
              ∙ ap (λ k. find_block k blocks) (eqb→eq c.hash b.hash h)
              ∙ unique b b_in in
            let c≡b : c ≡ b = cc in
            other_height bs c
              (subst (λ (x : BlockModel T). All (λ d. d.height ≢ x.height) bs) (sym c≡b) others))
