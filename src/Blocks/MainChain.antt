-- ===== src/Blocks/MainChain.antt =====
-- Where update_main_chain of crates/bento-types/src/repository/mod.rs leaves the main chain.
use linx_app_backend.Base.{
  ℕ, zero, suc, ◌<◌, Bool, false, not, ◌&&◌, Option, some, none, List, [], ◌∷◌, map, String, ◌≡◌,
  sym, ap, ◌∙◌, subst, arith, length-map, length, if◌then◌else◌,
}
use linx_app_backend.Base.Equality.{string_eq, eqb}
use linx_app_backend.Base.Ints.{ℤ, int_eq, int_beq_iff}
use linx_app_backend.Base.Outcome.{Error, ok, panic}
use linx_app_backend.Base.Action.{Action, ◌>>◌, pure, lift}
use linx_app_backend.Base.Store.{Store, at, Gives, Gives-bind, pure-Gives}
use linx_app_backend.Blocks.{BlockModel, Tables, find_block, parent}
use linx_app_backend.Blocks.Update.{
  get_block_by_hash, enter_main_chain, follow, round, update_main_chain,
}
use linx_app_backend.Blocks.Stored.{with_entered, get_block_by_hash-Gives, enter_main_chain-Gives}
use linx_app_backend.Blocks.Path.{
  mapped, map-marked_twice, map-marked-same, marked, find_block-marked, found-In, IsUnique,
  map-marked-IsUnique, entered, blocks-with_entered,
}
use linx_app_backend.Blocks.Settled.{HasHeights, settled, settled-entered, HasHeights-marked}

module _ {T : Type 0} (chain_from chain_to : ℤ) (group_num : Option ℤ) where
  -- From the block of a hash through stored blocks of the chain, each the parent of the one before,
  -- to a hash under which nothing is stored.
  abbrev pub IsPath : List (BlockModel T) → String → List (BlockModel T) → String → Type 0
  IsPath blocks hash [] stop = (hash ≡ stop) × (find_block hash blocks ≡ none)
  IsPath blocks hash (b ∷ bs) stop =
      (find_block hash blocks ≡ some b)
      × (b.chain_from ≡ chain_from)
      × (b.chain_to ≡ chain_to)
      × ((p : String) × (parent group_num b ≡ ok (some p)) × IsPath blocks p bs stop)

  -- A path does not depend on which blocks are of the main chain.
  IsPath-marked :
      (status : BlockModel T → Bool) (blocks : List (BlockModel T)) (hash : String)
      (path : List (BlockModel T)) (stop : String)
      → IsPath blocks hash path stop
      → IsPath (map (marked status) blocks) hash (map (marked status) path) stop
  unfolding parent
  IsPath-marked status blocks hash [] stop (ends, absent) =
      (ends, find_block-marked status hash blocks ∙ ap (mapped (marked status)) absent)
  IsPath-marked status blocks hash (b ∷ bs) stop (found, from, to, (p, has_parent, rest)) = (
    find_block-marked status hash blocks ∙ ap (mapped (marked status)) found,
    from,
    to,
    (p, has_parent, IsPath-marked status blocks p bs stop rest),
  )

  not_misplaced :
      (b : BlockModel T)
      → b.chain_from ≡ chain_from
      → b.chain_to ≡ chain_to
      → (not b.main_chain && not (eqb b.chain_from chain_from && eqb b.chain_to chain_to)) ≡ false
  not_misplaced b from to =
      let f = (int_beq_iff b.chain_from chain_from).1 from in
      let g = (int_beq_iff b.chain_to chain_to).1 to in ground arith

  module _ (answer : ℕ → Option Error) (reachable : (n : ℕ) → answer n ≡ none) where
    -- A round for a stored block of the chain with a parent goes on with the parent.
    round_lem :
        (again : String → Action (Store (Tables T)) (Option String)) (hash p : String)
        (b : BlockModel T)
        → b.chain_from ≡ chain_from
        → b.chain_to ≡ chain_to
        → parent group_num b ≡ ok (some p)
        → round answer again chain_from chain_to group_num hash (some b)
          ≡ (enter_main_chain answer hash b >> again p)
    round_lem again hash p b from to has_parent =
        ap
          (λ x.
            if x
            then lift panic
            else (enter_main_chain answer hash b >> follow answer again (parent group_num b)))
          (not_misplaced b from to)
        ∙ ap (λ o. enter_main_chain answer hash b >> follow answer again o) has_parent

    settled_from :
        (fuel : ℕ) (hash stop : String) (path : List (BlockModel T)) (t : Tables T)
        → length path < fuel
        → IsUnique t.blocks
        → HasHeights path
        → IsPath t.blocks hash path stop
        → (t' : Tables T) × Gives
            (update_main_chain answer fuel chain_from chain_to group_num hash)
            t
            (some stop)
            t'
          × (t'.blocks ≡ map (marked (settled path)) t.blocks)
    unfolding update_main_chain
    settled_from zero hash stop path t enough unique heights is_path = elim (enough) [ ]
    settled_from (suc fuel) hash stop [] t enough unique heights (ends, absent) = (
      t,
      Gives-bind (get_block_by_hash answer hash)
          (round answer (update_main_chain answer fuel chain_from chain_to group_num) chain_from
            chain_to group_num hash)
          {s = t} {s' = t} {s'' = t}
          (subst (λ o. Gives (get_block_by_hash answer hash) t o t) absent
            (get_block_by_hash-Gives answer reachable hash t))
          (subst (λ h. Gives (pure (some hash)) t (some h) t) ends (pure-Gives (some hash) t)),
      sym (map-marked-same t.blocks),
    )
    settled_from (suc fuel) hash stop (b ∷ bs) t enough unique (others, heights)
          (found, from, to, (p, has_parent, rest)) =
        let (b_in, its_hash) = found-In hash b t.blocks found in
        let t1 = with_entered hash b t in
        let e : t1.blocks ≡ map (marked (entered b)) t.blocks =
          subst (λ h. (with_entered h b t).blocks ≡ map (marked (entered b)) t.blocks) its_hash
            (blocks-with_entered b t unique) in
        let (t2, returned, left) =
          settled_from fuel p stop (map (marked (entered b)) bs) t1
            (subst (λ n. n < fuel) (sym (length-map (marked (entered b)) bs)) (omega arith))
            (subst IsUnique (sym e) (map-marked-IsUnique (entered b) t.blocks unique))
            (HasHeights-marked (entered b) bs heights)
            (subst (λ blocks. IsPath blocks p (map (marked (entered b)) bs) stop) (sym e)
              (IsPath-marked (entered b) t.blocks p bs stop rest)) in
        let again = update_main_chain answer fuel chain_from chain_to group_num in
        (
          t2,
          Gives-bind (get_block_by_hash answer hash)
              (round answer again chain_from chain_to group_num hash) {s = t} {s' = t} {s'' = t2}
              (subst (λ o. Gives (get_block_by_hash answer hash) t o t) found
                (get_block_by_hash-Gives answer reachable hash t))
              (subst (λ m. Gives m t (some stop) t2)
                (sym (round_lem again hash p b from to has_parent))
                (Gives-bind (enter_main_chain answer hash b) (λ u. again p) {s = t} {s' = t1}
                  {s'' = t2} (enter_main_chain-Gives answer reachable hash b t) returned)),
          left
              ∙ ap (map (marked (settled (map (marked (entered b)) bs)))) e
              ∙ map-marked_twice (entered b) (settled (map (marked (entered b)) bs))
                  (settled (b ∷ bs)) t.blocks
                  (λ c c_in. settled-entered t.blocks b c bs unique b_in c_in others),
        )

    -- If no call of the database fails, no two blocks are stored under one hash, and the path from the
    -- block goes through stored blocks of the chain, of different heights, to a hash under which
    -- nothing is stored, then the update ends with that hash, given one round more than the path has
    -- blocks. After it the blocks of the path are of the main chain, no other block of the chain at
    -- their heights is, and every other block is what it was.
    pub main_chain_settled :
        (fuel : ℕ) (hash stop : String) (path : List (BlockModel T)) (t : Tables T) (calls : ℕ)
        → length path < fuel
        → IsUnique t.blocks
        → HasHeights path
        → IsPath t.blocks hash path stop
        → (t' : Tables T) × (calls' : ℕ) × (update_main_chain answer fuel chain_from chain_to
              group_num hash
              (at t calls)
            ≡ (ok (some stop), at t' calls'))
          × (t'.blocks ≡ map (marked (settled path)) t.blocks)
    main_chain_settled fuel hash stop path t calls enough unique heights is_path =
        let (t', gives, blocks) =
          settled_from fuel hash stop path t enough unique heights is_path in
        let (calls', e) = gives calls in (t', calls', e, blocks)
