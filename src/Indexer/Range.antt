-- ===== src/Indexer/Range.antt =====
-- The ranges of timestamps and the batches of blocks that the workers exchange
-- (crates/bento-types/src/lib.rs), over any type of blocks.
use linx_app_backend.Base.{ℕ, ◌≤◌, ◌≡◌, List, [], ◌∷◌}

pub record BlockRange : Type 0 where
  pub from_ts : ℕ
  pub to_ts : ℕ

pub record BlockBatch (B : Type 0) : Type 0 where
  pub blocks : List B
  pub range : BlockRange

-- `MAX_TIMESTAMP_RANGE`, in milliseconds.
abbrev pub max_timestamp_range : ℕ
max_timestamp_range = 1800000

-- The ranges follow one another from `a` to `b` with no gap and no overlap.
abbrev pub Tiles : ℕ → ℕ → List BlockRange → Type 0
Tiles a b [] = a ≡ b
Tiles a b (r ∷ rs) = (r.from_ts ≡ a) × (a ≤ r.to_ts) × Tiles r.to_ts b rs
