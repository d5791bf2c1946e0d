-- ===== src/Indexer/Worker/Heights.antt =====
-- Syncing one height (`sync_at_height`, crates/bento-core/src/workers/worker.rs): what is stored when
-- the node answers, and what happens when it does not.
use linx_app_backend.Base.{ℕ, ◌≡◌, refl, inl, inr, ◌⊎◌, some, String, List, [], ◌∷◌, map}
use linx_app_backend.Base.Outcome.{Outcome, ok, panic, with_context, collect}
use linx_app_backend.Indexer.Range.{BlockBatch}
use linx_app_backend.Indexer.Worker.{
  Worker, first_hash, fetch_at_height, store_at_height, sync_at_height, run_pipeline,
}

panics_later :
    (hashes : List String) (rest : List (Outcome String))
    → collect rest ≡ panic
    → collect (first_hash hashes ∷ rest) ≡ panic
unfolding first_hash
panics_later [] rest q = refl
panics_later (h ∷ hs) rest q = rw q refl

module _ {B S : Type 0} (w : Worker B S) (height : ℕ) where
  -- The chain has a block at the height: the first of the hashes that the node lists, and its block.
  abbrev pub HasBlock : ℕ × ℕ → B → Type 0
  HasBlock g b =
      (hash : String) × (others : List String) × (w.node.get_block_hash_by_height height g.0 g.1
        ≡ ok (hash ∷ others))
      × (w.node.get_block_and_events_by_hash hash ≡ ok b)

  abbrev pub HaveBlocks : List (ℕ × ℕ) → List B → Type 0
  HaveBlocks [] [] = Unit
  HaveBlocks [] (b ∷ bs) = ⊥
  HaveBlocks (g ∷ gs) [] = ⊥
  HaveBlocks (g ∷ gs) (b ∷ bs) = HasBlock g b × HaveBlocks gs bs

  abbrev hashes_of : List (ℕ × ℕ) → List (Outcome (List String))
  hashes_of = map (λ g.
      with_context "Failed to fetch block hash" (w.node.get_block_hash_by_height height g.0 g.1))

  abbrev blocks_of : List String → List (Outcome B)
  blocks_of =
      map (λ h.
        with_context "Failed to fetch block and events" (w.node.get_block_and_events_by_hash h))

  -- The two rounds of requests.
  rounds :
      (gs : List (ℕ × ℕ)) (bs : List B)
      → HaveBlocks gs bs
      → (lists : List (List String)) × (hashes : List String) × (collect (hashes_of gs) ≡ ok lists)
        × (collect (map first_hash lists) ≡ ok hashes)
        × (collect (blocks_of hashes) ≡ ok bs)
  unfolding first_hash
  rounds [] [] h = ([], [], refl, refl, refl)
  rounds [] (b ∷ bs) h = elim h [ ]
  rounds (g ∷ gs) [] h = elim h [ ]
  rounds (g ∷ gs) (b ∷ bs) h =
      let (hash, others, e, f) = h.0 in
      let (lists, hashes, p, q, r) = rounds gs bs h.1 in
      ((hash ∷ others) ∷ lists, hash ∷ hashes, rw e (rw p refl), rw q refl, rw f (rw r refl))

  fetch_at_height_blocks :
      (gs : List (ℕ × ℕ)) (bs : List B) → HaveBlocks gs bs → fetch_at_height w height gs ≡ ok bs
  unfolding fetch_at_height
  fetch_at_height_blocks gs bs h =
      let (lists, hashes, p, q, r) = rounds gs bs h in rw p (rw q (rw r refl))

  abbrev whole : List B → BlockBatch B
  whole bs = record { blocks = bs; range = record { from_ts = 0; to_ts = 0 } }

  -- If every chain that is asked for has a block at the height, then their blocks, one for each chain
  -- in the order of the chains, go to the pipeline in a single batch, and the result and the database
  -- are the pipeline's, an error with its context.
  pub sync_at_height_blocks :
      (g : ℕ × ℕ) (gs : List (ℕ × ℕ)) (bs : List B) (s : S)
      → HaveBlocks (g ∷ gs) bs
      → sync_at_height w height (some (g ∷ gs)) s ≡ (
        with_context "Failed to process blocks" (run_pipeline w (whole bs ∷ []) s).0,
        (run_pipeline w (whole bs ∷ []) s).1,
      )
  unfolding sync_at_height store_at_height
  sync_at_height_blocks g gs bs s h = rw (fetch_at_height_blocks (g ∷ gs) bs h) refl

  -- The node lists hashes for every chain of the list.
  abbrev pub ListsHashes : List (ℕ × ℕ) → Type 0
  ListsHashes [] = Unit
  ListsHashes (g ∷ gs) =
      ((hashes : List String) × (w.node.get_block_hash_by_height height g.0 g.1 ≡ ok hashes))
      × ListsHashes gs

  -- It lists none for one of them.
  abbrev pub LacksBlock : List (ℕ × ℕ) → Type 0
  LacksBlock [] = ⊥
  LacksBlock (g ∷ gs) = (w.node.get_block_hash_by_height height g.0 g.1 ≡ ok []) ⊎ LacksBlock gs

  listed :
      (gs : List (ℕ × ℕ))
      → ListsHashes gs
      → (lists : List (List String)) × (collect (hashes_of gs) ≡ ok lists)
  listed [] all = ([], refl)
  listed (g ∷ gs) all =
      let (hashes, e) = all.0 in
      let (lists, p) = listed gs all.1 in (hashes ∷ lists, rw e (rw p refl))

  lacking_rounds :
      (gs : List (ℕ × ℕ))
      → ListsHashes gs
      → LacksBlock gs
      → (lists : List (List String)) × (collect (hashes_of gs) ≡ ok lists)
        × (collect (map first_hash lists) ≡ panic)
  unfolding first_hash
  lacking_rounds [] all lacks = elim lacks [ ]
  lacking_rounds (g ∷ gs) all (inl e) =
      let (lists, p) = listed gs all.1 in ([] ∷ lists, rw e (rw p refl), refl)
  lacking_rounds (g ∷ gs) all (inr lacks) =
      let (hashes, e) = all.0 in
      let (lists, p, q) = lacking_rounds gs all.1 lacks in
      (hashes ∷ lists, rw e (rw p refl), panics_later hashes (map first_hash lists) q)

  -- If the node answers the requests for hashes of every chain, and has no block at the height on one
  -- of them, then the sync panics, and the database stays as it was.
  pub sync_at_height_lacking :
      (gs : List (ℕ × ℕ)) (s : S)
      → ListsHashes gs
      → LacksBlock gs
      → sync_at_height w height (some gs) s ≡ (panic, s)
  unfolding sync_at_height fetch_at_height
  sync_at_height_lacking gs s all lacks =
      let (lists, p, q) = lacking_rounds gs all lacks in rw p (rw q refl)
