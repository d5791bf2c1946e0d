-- ===== src/Blocks/Path.antt =====
-- Blocks whose status changes, and what finds them (crates/bento-types/src/repository).
use linx_app_backend.Base.{
  Bool, true, false, ◌||◌, Option, some, none, List, [], ◌∷◌, map, String, ◌≡◌, refl, sym, ap, ◌∙◌,
  subst, inl, inr, In, Bool-cases, filter, In-filter, In→filter, if◌then◌else◌,
}
use linx_app_backend.Base.Equality.{string_eq, eqb, eqb→eq, contains, contains→In, In→contains}
use linx_app_backend.Base.Ints.{int_eq}
use linx_app_backend.Base.Collect.{In-map, In→map}
use linx_app_backend.Blocks.{
  BlockModel, Tables, find_block, is_rival, hashes_of_rivals, set_block_status,
}
use linx_app_backend.Blocks.Stored.{with_statuses, with_entered}

map-eq_on :
    {A B : Type 0} (f g : A → B) (xs : List A)
    → ((a : A) → In a xs → f a ≡ g a)
    → map f xs ≡ map g xs
map-eq_on f g [] h = refl
map-eq_on f g (x ∷ xs) h =
    let first = h x (inl refl) in let rest = map-eq_on f g xs (λ a i. h a (inr i)) in cc

map-map :
    {A B C : Type 0} (f : A → B) (g : B → C) (xs : List A)
    → map g (map f xs) ≡ map (λ a. g (f a)) xs
map-map f g [] = refl
map-map f g (x ∷ xs) = ap (λ l. g (f x) ∷ l) (map-map f g xs)

flagged_twice :
    (t u flag old : Bool)
    → (if u then flag else (if t then flag else old)) ≡ (if t || u then flag else old)
flagged_twice true true flag old = refl
flagged_twice true false flag old = refl
flagged_twice false true flag old = refl
flagged_twice false false flag old = refl

status_eq :
    (t u v old : Bool)
    → u ≡ v
    → (if t || false then true else (if u then false else old))
      ≡ (if t then true else (if v then false else old))
status_eq true u v old e = refl
status_eq false u v old e = ap (λ x. if x then false else old) e

bool_eq : (a b : Bool) → (a ≡ true → b ≡ true) → (b ≡ true → a ≡ true) → a ≡ b
bool_eq true b h k = sym (h refl)
bool_eq false true h k = k refl
bool_eq false false h k = refl

abbrev pub mapped : {A B : Type 0} → (A → B) → Option A → Option B
mapped f none = none
mapped f (some a) = some (f a)

module _ {T : Type 0} where
  -- The block with another status.
  abbrev pub marked : (BlockModel T → Bool) → BlockModel T → BlockModel T
  marked status block = record block { main_chain = status block }

  pub map-marked-same : (bs : List (BlockModel T)) → map (marked (λ b. b.main_chain)) bs ≡ bs
  map-marked-same [] = refl
  map-marked-same (b ∷ bs) = ap (λ l. b ∷ l) (map-marked-same bs)

  -- Two statuses after one another, which on the blocks come to a third.
  pub map-marked_twice :
      (first second both : BlockModel T → Bool) (bs : List (BlockModel T))
      → ((c : BlockModel T) → In c bs → second (marked first c) ≡ both c)
      → map (marked second) (map (marked first) bs) ≡ map (marked both) bs
  map-marked_twice first second both bs h =
      map-map (marked first) (marked second) bs
      ∙ map-eq_on (λ c. marked second (marked first c)) (marked both) bs
          (λ c i. ap (λ s. record c { main_chain = s }) (h c i))

  pub find_block-marked :
      (status : BlockModel T → Bool) (h : String) (blocks : List (BlockModel T))
      → find_block h (map (marked status) blocks) ≡ mapped (marked status) (find_block h blocks)
  unfolding find_block
  find_block-marked status h [] = refl
  find_block-marked status h (b ∷ blocks) =
      let rest = find_block-marked status h blocks in
      elim (eqb h b.hash)
        as (λ t.
          (if t then some (marked status b) else find_block h (map (marked status) blocks))
          ≡ mapped (marked status) (if t then some b else find_block h blocks)) [
            | true ↦ refl
            | false ↦ rest
          ]

  pub found-In :
      (h : String) (b : BlockModel T) (blocks : List (BlockModel T))
      → find_block h blocks ≡ some b
      → In b blocks × (b.hash ≡ h)
  unfolding find_block
  found-In h b [] e = cc
  found-In h b (c ∷ blocks) e = elim (Bool-cases (eqb h c.hash)) [
    | inl t ↦
        let same : some c ≡ some b =
          subst (λ x. (if x then some c else find_block h blocks) ≡ some b) t e in
        let c≡b : c ≡ b = cc in
        (inl (sym c≡b), ap (λ (x : BlockModel T). x.hash) (sym c≡b) ∙ sym (eqb→eq h c.hash t))
    | inr f ↦
        let later =
          found-In h b blocks
            (subst (λ x. (if x then some c else find_block h blocks) ≡ some b) f e) in
        (inr later.0, later.1)
  ]

  -- No two blocks have one hash.
  abbrev pub IsUnique : List (BlockModel T) → Type 0
  IsUnique blocks = (c : BlockModel T) → In c blocks → find_block c.hash blocks ≡ some c

  pub map-marked-IsUnique :
      (status : BlockModel T → Bool) (blocks : List (BlockModel T))
      → IsUnique blocks
      → IsUnique (map (marked status) blocks)
  map-marked-IsUnique status blocks unique c i =
      let (b, b_in, e) = In-map (marked status) c blocks i in
      ap (λ (x : BlockModel T). find_block x.hash (map (marked status) blocks)) e
      ∙ find_block-marked status b.hash blocks
      ∙ ap (mapped (marked status)) (unique b b_in)
      ∙ ap some (sym e)

  -- The status after an update of the hashes.
  abbrev flagged : List String → Bool → BlockModel T → Bool
  flagged hashes flag c = if contains hashes c.hash then flag else c.main_chain

  set_block_status-marked :
      (h : String) (flag : Bool) (c : BlockModel T)
      → set_block_status h flag c ≡ marked (λ b. if eqb b.hash h then flag else b.main_chain) c
  set_block_status-marked h flag c =
      elim (eqb c.hash h)
        as (λ t.
          (if t then record c { main_chain = flag } else c)
          ≡ record c { main_chain = if t then flag else c.main_chain }) [
            | true ↦ refl
            | false ↦ refl
          ]

  blocks-with_statuses :
      (hashes : List String) (flag : Bool) (t : Tables T)
      → (with_statuses hashes flag t).blocks ≡ map (marked (flagged hashes flag)) t.blocks
  unfolding with_statuses
  blocks-with_statuses [] flag t = sym (map-marked-same t.blocks)
  blocks-with_statuses (h ∷ hashes) flag t =
      blocks-with_statuses hashes flag _
      ∙ map-map (set_block_status h flag) (marked (flagged hashes flag)) t.blocks
      ∙ map-eq_on _ _ t.blocks (λ c i.
        ap (marked (flagged hashes flag)) (set_block_status-marked h flag c)
        ∙ ap (λ s. record c { main_chain = s })
            (flagged_twice (eqb c.hash h) (contains hashes c.hash) flag c.main_chain))

  contains-others :
      (block c : BlockModel T) (blocks : List (BlockModel T))
      → IsUnique blocks
      → In c blocks
      → contains (hashes_of_rivals block blocks) c.hash ≡ is_rival block c
  contains-others block c blocks unique c_in =
      let others = hashes_of_rivals block blocks in
      bool_eq (contains others c.hash) (is_rival block c)
        (λ h.
          let (d, d_in, same_hash) =
            In-map (λ (other : BlockModel T). other.hash) c.hash (filter (is_rival block) blocks)
              (contains→In others c.hash h) in
          let (d_in', rival) = In-filter (is_rival block) d blocks d_in in
          let same : some d ≡ some c =
            sym (unique d d_in') ∙ ap (λ k. find_block k blocks) (sym same_hash) ∙ unique c c_in in
          let d≡c : d ≡ c = cc in subst (λ x. is_rival block x ≡ true) d≡c rival)
        (λ h. In→contains others c.hash (
          In→map (λ (other : BlockModel T). other.hash) c (filter (is_rival block) blocks)
            (In→filter (is_rival block) c blocks c_in h)))

  -- The status after a round for a block.
  abbrev pub entered : BlockModel T → BlockModel T → Bool
  entered block c =
      if eqb c.hash block.hash then true else if is_rival block c then false else c.main_chain

  pub blocks-with_entered :
      (block : BlockModel T) (t : Tables T)
      → IsUnique t.blocks
      → (with_entered block.hash block t).blocks ≡ map (marked (entered block)) t.blocks
  blocks-with_entered block t unique =
      let others = hashes_of_rivals block t.blocks in
      blocks-with_statuses (block.hash ∷ []) true (with_statuses others false t)
      ∙ ap (map (marked (flagged (block.hash ∷ []) true))) (blocks-with_statuses others false t)
      ∙ map-map (marked (flagged others false)) (marked (flagged (block.hash ∷ []) true)) t.blocks
      ∙ map-eq_on _ _ t.blocks (λ c i.
        let rival = contains-others block c t.blocks unique i in
        ap (λ s. record c { main_chain = s })
          (status_eq (eqb c.hash block.hash) (contains others c.hash) (is_rival block c)
            c.main_chain rival))
