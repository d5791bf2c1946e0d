-- ===== src/Indexer/Fetch/Chunks.antt =====
-- The parts of a fetch (crates/bento-core/src/workers/fetch.rs): one chunk, and the loop that
-- gathers the chunks in order.
use native.Mathlib.Decide.{dec_le}
use linx_app_backend.Base.{Bool-cases}
use linx_app_backend.Base.U64.{sub64}
use linx_app_backend.Base.{
  In-append_left, In-append_right, ℕ, zero, suc, ◌+◌, ◌≤◌, ◌<◌, ◌≡◌, refl, sym, subst, inl, inr,
  List, [], ◌∷◌, ◌++◌, map, flatten, arith, ltb, length, In, All,
}
use linx_app_backend.Base.Outcome.{
  Outcome, Error, ok, err, panic, range_exceeds_maximum, failed_chunk, bind_ok, guarded_ok,
}
use linx_app_backend.Base.U64.{sub64-exact}
use linx_app_backend.Indexer.Range.{BlockRange, BlockBatch, Tiles, max_timestamp_range}
use linx_app_backend.Indexer.Fetch.{fetch_chunk, gather, split_range, fetch_parallel}
use linx_app_backend.Indexer.Fetch.Split.{IsProper, length-split_range}

gather-nil : {A : Type 0} (k n : ℕ) (as' : List A) → gather k n [] ≡ ok as' → [] ≡ as'
unfolding gather
gather-nil k n as' e = cc

-- A successful round of the loop: the first result is a batch, and the rest go well too.
gather-eq-ok :
    {A : Type 0} (k n : ℕ) (x : Outcome A) (xs : List (Outcome A)) (as' : List A)
    → gather k n (x ∷ xs) ≡ ok as'
    → (a : A) × (rest : List A) × (x ≡ ok a) × (gather (k + 1) n xs ≡ ok rest) × (as' ≡ a ∷ rest)
unfolding gather
gather-eq-ok k n (ok a) xs as' e =
    let (rest, g, f) = bind_ok (gather (k + 1) n xs) (λ rs. ok (a ∷ rs)) e in (a, rest, refl, g, cc)
gather-eq-ok k n (err e') xs as' e = cc
gather-eq-ok k n panic xs as' e = cc

module _ {B : Type 0} (get : ℕ → ℕ → Outcome (List (List B))) where
  -- The batch is what the node answered for its range.
  abbrev pub IsAnswer : BlockBatch B → Type 0
  IsAnswer b =
      (answer : List (List B)) × (get b.range.from_ts b.range.to_ts ≡ ok answer)
      × (b.blocks ≡ flatten answer)

  -- The batches of the ranges, one each, in order.
  abbrev pub Fetched : List BlockRange → List (BlockBatch B) → Type 0
  Fetched [] [] = Unit
  Fetched [] (b ∷ bs) = ⊥
  Fetched (r ∷ rs) [] = ⊥
  Fetched (r ∷ rs) (b ∷ bs) = (fetch_chunk get r ≡ ok b) × Fetched rs bs

  fetch_chunk_range : (r : BlockRange) (b : BlockBatch B) → fetch_chunk get r ≡ ok b → b.range ≡ r
  unfolding fetch_chunk
  fetch_chunk_range r b e = ground arith

  fetch_chunk-IsAnswer : (r : BlockRange) (b : BlockBatch B) → fetch_chunk get r ≡ ok b → IsAnswer b
  unfolding fetch_chunk
  fetch_chunk-IsAnswer r b e =
      let (short, answer, g, f) = guarded_ok _ _ (get r.from_ts r.to_ts) _ e in (answer, cc, cc)

  -- A batch is refused unless its range is short enough.
  fetch_chunk_short :
      (r : BlockRange) (b : BlockBatch B)
      → IsProper r
      → fetch_chunk get r ≡ ok b
      → r.to_ts ≤ r.from_ts + max_timestamp_range
  unfolding fetch_chunk
  fetch_chunk_short r b p e = ground (arith, sub64-exact r.to_ts r.from_ts p.ordered p.fits)

  gather-Fetched :
      (k n : ℕ) (rs : List BlockRange) (bs : List (BlockBatch B))
      → gather k n (map (fetch_chunk get) rs) ≡ ok bs
      → Fetched rs bs
  gather-Fetched k n [] bs e = subst (Fetched []) (gather-nil k n bs e) tt
  gather-Fetched k n (r ∷ rs) bs e =
      let (b, rest, x, g, f) =
        gather-eq-ok k n (fetch_chunk get r) (map (fetch_chunk get) rs) bs e in
      subst (Fetched (r ∷ rs)) (sym f) (x, gather-Fetched (k + 1) n rs rest g)

  pub Fetched-ranges :
      (rs : List BlockRange) (bs : List (BlockBatch B)) → Fetched rs bs → map (λ b. b.range) bs ≡ rs
  Fetched-ranges [] [] h = refl
  Fetched-ranges [] (b ∷ bs) h = elim h [ ]
  Fetched-ranges (r ∷ rs) [] h = elim h [ ]
  Fetched-ranges (r ∷ rs) (b ∷ bs) h = cc (fetch_chunk_range r b h.0, Fetched-ranges rs bs h.1)

  pub Fetched-IsAnswer :
      (rs : List BlockRange) (bs : List (BlockBatch B)) → Fetched rs bs → All IsAnswer bs
  Fetched-IsAnswer [] [] h = tt
  Fetched-IsAnswer [] (b ∷ bs) h = elim h [ ]
  Fetched-IsAnswer (r ∷ rs) [] h = elim h [ ]
  Fetched-IsAnswer (r ∷ rs) (b ∷ bs) h = (fetch_chunk-IsAnswer r b h.0, Fetched-IsAnswer rs bs h.1)

  pub fetch_parallel_lem :
      (range : BlockRange) (n : ℕ)
      → 0 < n
      → fetch_parallel get range n ≡ gather 0 n (map (fetch_chunk get) (split_range range n))
  unfolding fetch_parallel
  fetch_parallel_lem range n h = ground arith

  -- The first chunk that fails ends the loop.
  pub gather_first_failure :
      (k n : ℕ) (before after : List BlockRange) (r : BlockRange) (bs : List (BlockBatch B))
      (e : Error)
      → Fetched before bs
      → fetch_chunk get r ≡ err e
      → gather k n (map (fetch_chunk get) (before ++ r ∷ after))
        ≡ err (failed_chunk (k + length before) n e)
  unfolding gather
  gather_first_failure k n [] after r bs e h f = ground arith
  gather_first_failure k n (q ∷ qs) after r [] e h f = elim h [ ]
  gather_first_failure k n (q ∷ qs) after r (b ∷ bs) e h f =
      rw (h.0, gather) (ground (arith, gather_first_failure (k + 1) n qs after r bs e h.1 f))

  pub fetch_parallel-Fetched :
      (range : BlockRange) (n : ℕ) (bs : List (BlockBatch B))
      → fetch_parallel get range n ≡ ok bs
      → (0 < n) × Fetched (split_range range n) bs
  unfolding fetch_parallel
  fetch_parallel-Fetched range zero bs e = cc
  fetch_parallel-Fetched range (suc k) bs e =
      (omega arith, gather-Fetched 0 (suc k) (split_range range (suc k)) bs (ground arith))

module _ {B : Type 0} (get : ℕ → ℕ → Outcome (List (List B))) where
  pub Fetched-short :
      (rs : List BlockRange) (bs : List (BlockBatch B))
      → All IsProper rs
      → Fetched get rs bs
      → All (λ r. r.to_ts ≤ r.from_ts + max_timestamp_range) rs
  Fetched-short [] bs p h = tt
  Fetched-short (r ∷ rs) [] p h = elim h [ ]
  Fetched-short (r ∷ rs) (b ∷ bs) p h =
      (fetch_chunk_short get r b p.0 h.0, Fetched-short rs bs p.1 h.1)

  -- The node answers for every interval.
  abbrev pub Answers : Type 0
  Answers = (from to : ℕ) → (answer : List (List B)) × (get from to ≡ ok answer)

  fetch_chunk_total :
      (r : BlockRange)
      → Answers
      → IsProper r
      → r.to_ts ≤ r.from_ts + max_timestamp_range
      → (b : BlockBatch B) × (fetch_chunk get r ≡ ok b)
  unfolding fetch_chunk
  fetch_chunk_total r answers p short =
      let (answer, e) = answers r.from_ts r.to_ts in
      (
        record { blocks = flatten answer; range = r },
        ground (arith, sub64-exact r.to_ts r.from_ts p.ordered p.fits),
      )

  pub gather_total :
      (k n : ℕ) (rs : List BlockRange)
      → Answers
      → All (λ r. IsProper r × (r.to_ts ≤ r.from_ts + max_timestamp_range)) rs
      → (bs : List (BlockBatch B)) × (gather k n (map (fetch_chunk get) rs) ≡ ok bs)
  unfolding gather
  gather_total k n [] answers h = ([], refl)
  gather_total k n (r ∷ rs) answers h =
      let (b, e) = fetch_chunk_total r answers h.0.0 h.0.1 in
      let (bs, f) = gather_total (k + 1) n rs answers h.1 in (b ∷ bs, rw (e, gather) (rw f refl))

  -- The blocks that the node has for an interval, both ends included, by their timestamps.
  abbrev pub IsComplete : (B → ℕ) → (B → Type 0) → Type 0
  IsComplete ts on_chain =
      (b : B) (from to : ℕ) (answer : List (List B))
      → on_chain b
      → from ≤ ts b
      → ts b ≤ to
      → get from to ≡ ok answer
      → In b (flatten answer)

  pub Tiles-In :
      (ts : B → ℕ) (on_chain : B → Type 0) (b : B) (from to : ℕ) (batches : List (BlockBatch B))
      → IsComplete ts on_chain
      → on_chain b
      → from ≤ ts b
      → ts b < to
      → Tiles from to (map (λ c. c.range) batches)
      → All (IsAnswer get) batches
      → In b (flatten (map (λ c. c.blocks) batches))
  unfolding flatten
  Tiles-In ts on_chain b from to [] complete held lo hi t h = absurd (omega arith)
  Tiles-In ts on_chain b from to (c ∷ cs) complete held lo hi t h =
      elim (dec_le (ts b) c.range.to_ts) [
        | yes here ↦ In-append_left b c.blocks _ (
            subst (In b) (sym h.0.2)
              (complete b c.range.from_ts c.range.to_ts h.0.0 held (omega arith) here h.0.1))
        | no later ↦
            In-append_right b c.blocks _
              (Tiles-In ts on_chain b c.range.to_ts to cs complete held (omega arith) hi t.2 h.1)
      ]

-- A node that fails every request.
abbrev pub Fails : {A : Type 0} → (ℕ → ℕ → Outcome A) → Type 0
Fails get = (from to : ℕ) → (e : Error) × (get from to ≡ err e)

module _ {B : Type 0} (get : ℕ → ℕ → Outcome (List (List B))) (down : Fails get) where
  fetch_chunk_fails : (r : BlockRange) → (e : Error) × (fetch_chunk get r ≡ err e)
  unfolding fetch_chunk
  fetch_chunk_fails r =
      let (e, failed) = down r.from_ts r.to_ts in
      elim (Bool-cases (ltb max_timestamp_range (sub64 r.to_ts r.from_ts))) [
        | inl long ↦ (
          range_exceeds_maximum max_timestamp_range (sub64 r.to_ts r.from_ts),
          rw (long, fetch_chunk) refl,
        )
        | inr short ↦ (e, rw (short, fetch_chunk) (rw failed refl))
      ]

  gather_fails :
      (k n : ℕ) (rs : List BlockRange)
      → 0 < length rs
      → (e : Error) × (gather k n (map (fetch_chunk get) rs) ≡ err e)
  unfolding gather
  gather_fails k n [] h = elim h [ ]
  gather_fails k n (r ∷ rs) h =
      let (e, failed) = fetch_chunk_fails r in (failed_chunk k n e, rw (failed, gather) refl)

  pub fetch_parallel_fails :
      (range : BlockRange) (n : ℕ) → 0 < n → (e : Error) × (fetch_parallel get range n ≡ err e)
  fetch_parallel_fails range n h =
      rw (fetch_parallel_lem get range n h)
        (gather_fails 0 n (split_range range n) (omega (arith, length-split_range range n)))
