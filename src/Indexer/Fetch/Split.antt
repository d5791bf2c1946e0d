-- ===== src/Indexer/Fetch/Split.antt =====
-- How `fetch_parallel` (crates/bento-core/src/workers/fetch.rs) divides a range among the workers.
use linx_app_backend.Base.{
  ℕ, zero, suc, ◌+◌, ◌-◌, ◌*◌, ◌/◌, ◌≤◌, ◌<◌, ◌≡◌, refl, sym, subst, inl, inr, List, [], ◌∷◌, arith,
  ◌==◌, if◌then◌else◌, length, All, Bool-cases,
}
use linx_app_backend.Base.U64.{u64_mod, add64-exact, sub64-exact, mul64-exact}
use linx_app_backend.Indexer.Range.{BlockRange, Tiles}
use linx_app_backend.Indexer.Fetch.{worker_range, dispatch, split_range}

-- What the arithmetic needs: the range is not reversed, and fits a `u64`.
pub record IsProper (range : BlockRange) : Type 0 where
  pub ordered : range.from_ts ≤ range.to_ts
  pub fits : range.to_ts < u64_mod

module _ (range : BlockRange) (proper : IsProper range) (n c : ℕ)
    (share : n * c ≤ range.to_ts - range.from_ts) where
  offset-le : (i : ℕ) → i ≤ n → range.from_ts + i * c ≤ range.to_ts
  offset-le i h = grind arith

  worker_range-from : (i : ℕ) → i < n → (worker_range range n c i).from_ts ≡ range.from_ts + i * c
  unfolding worker_range
  worker_range-from i h =
      grind (arith, offset-le i, proper.fits, mul64-exact i c, add64-exact range.from_ts (i * c))

  worker_range-to :
      (i : ℕ)
      → i < n
      → (worker_range range n c i).to_ts
        ≡ (if i == n - 1 then range.to_ts else range.from_ts + (i + 1) * c)
  worker_range-to i h =
      unfold worker_range in
      grind (
        arith,
        offset-le i,
        offset-le (i + 1),
        proper.fits,
        worker_range-from i h,
        add64-exact (range.from_ts + i * c) c,
      )

  dispatch-Tiles :
      (i k : ℕ)
      → i + suc k ≡ n
      → Tiles (range.from_ts + i * c) range.to_ts (dispatch range n c i (suc k))
  unfolding dispatch
  dispatch-Tiles i zero e = grind (arith, worker_range-from i, worker_range-to i, offset-le i)
  dispatch-Tiles i (suc k) e =
      let meet : (worker_range range n c i).to_ts ≡ range.from_ts + (i + 1) * c =
        grind (arith, worker_range-to i) in
      (
        worker_range-from i (omega arith),
        grind arith,
        subst (λ t. Tiles t range.to_ts (dispatch range n c (i + 1) (suc k))) (sym meet)
            (dispatch-Tiles (i + 1) k (omega arith)),
      )

  -- No part is longer than one share and what the division leaves over.
  worker_range-IsShort :
      (m i : ℕ)
      → range.to_ts - range.from_ts < n * c + n
      → c + n ≤ m + 1
      → i < n
      → IsProper (worker_range range n c i)
        × ((worker_range range n c i).to_ts ≤ (worker_range range n c i).from_ts + m)
  worker_range-IsShort m i rest room h = elim (Bool-cases (i == n - 1)) [
    | inl last ↦
        let e : n ≡ i + 1 = ground arith in
        let parts : n * c ≡ i * c + c = rw e (omega arith) in
        grind (arith, worker_range-from i h, worker_range-to i h, offset-le i, proper.fits)
    | inr inner ↦
        grind (arith, worker_range-from i h, worker_range-to i h, offset-le (i + 1), proper.fits)
  ]

  dispatch-IsShort :
      (m : ℕ)
      → range.to_ts - range.from_ts < n * c + n
      → c + n ≤ m + 1
      → (i k : ℕ) → i + k ≡ n
      → All (λ r. IsProper r × (r.to_ts ≤ r.from_ts + m)) (dispatch range n c i k)
  unfolding dispatch
  dispatch-IsShort m rest room i zero e = tt
  dispatch-IsShort m rest room i (suc k) e = (
    worker_range-IsShort m i rest room (omega arith),
    dispatch-IsShort m rest room (i + 1) k (omega arith),
  )

length-dispatch : (range : BlockRange) (n c i k : ℕ) → length (dispatch range n c i k) ≡ k
unfolding dispatch
length-dispatch range n c i zero = refl
length-dispatch range n c i (suc k) = omega (arith, length-dispatch range n c (i + 1) k)

share-le : (d n : ℕ) → n * (d / n) ≤ d
share-le d n = grind arith

lt-share : (d n : ℕ) → 0 < n → d < n * (d / n) + n
lt-share d n h = grind arith

pub length-split_range : (range : BlockRange) (n : ℕ) → length (split_range range n) ≡ n
unfolding split_range
length-split_range range n = length-dispatch range n _ 0 n

-- The parts of a proper range that is divided among at least one worker follow one another from
-- its start to its end, with no gap and no overlap.
pub split_range-Tiles :
    (range : BlockRange) (n : ℕ)
    → IsProper range
    → 0 < n
    → Tiles range.from_ts range.to_ts (split_range range n)
unfolding split_range
split_range-Tiles range zero proper h = elim h [ ]
split_range-Tiles range (suc k) proper h =
    let d : ℕ = range.to_ts - range.from_ts in
    rw (sub64-exact _ _ proper.ordered proper.fits) (
      subst (λ a. Tiles a range.to_ts (dispatch range (suc k) (d / suc k) 0 (suc k))) (omega arith)
        (dispatch-Tiles range proper (suc k) (d / suc k) (share-le d (suc k)) 0 k (omega arith)))

-- They are proper ranges, no longer than `m` if `m` has room for a share and the rest.
pub split_range-IsShort :
    (range : BlockRange) (n m : ℕ)
    → IsProper range
    → 0 < n
    → (range.to_ts - range.from_ts) / n + n ≤ m + 1
    → All (λ r. IsProper r × (r.to_ts ≤ r.from_ts + m)) (split_range range n)
unfolding split_range
split_range-IsShort range n m proper h room =
    let d : ℕ = range.to_ts - range.from_ts in
    rw (sub64-exact _ _ proper.ordered proper.fits) (
      dispatch-IsShort range proper n (d / n) (share-le d n) m (lt-share d n h) room 0 n
        (omega arith))

All-IsProper :
    (m : ℕ) (rs : List BlockRange)
    → All (λ r. IsProper r × (r.to_ts ≤ r.from_ts + m)) rs
    → All IsProper rs
All-IsProper m [] h = tt
All-IsProper m (r ∷ rs) h = (h.0.0, All-IsProper m rs h.1)

pub split_range-IsProper :
    (range : BlockRange) (n : ℕ) → IsProper range → 0 < n → All IsProper (split_range range n)
split_range-IsProper range n proper h =
    All-IsProper _ (split_range range n)
      (split_range-IsShort range n ((range.to_ts - range.from_ts) / n + n) proper h (omega arith))

-- Ranges in a row of which none is longer than `m` reach no further than `m` times their number.
pub Tiles-le :
    (m a b : ℕ) (rs : List BlockRange)
    → Tiles a b rs
    → All (λ r. r.to_ts ≤ r.from_ts + m) rs
    → b ≤ a + length rs * m
Tiles-le m a b [] t h = omega arith
Tiles-le m a b (r ∷ rs) t h = grind (arith, Tiles-le m r.to_ts b rs t.2 h.1)
