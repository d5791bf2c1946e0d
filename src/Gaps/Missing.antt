-- ===== src/Gaps/Missing.antt =====
-- The heights that examples/linx-indexer/src/services/gap_detection_service.rs counts as missing.
use linx_app_backend.Base.{
  ℕ, zero, suc, ◌+◌, ◌-◌, ◌≤◌, ◌<◌, Bool, true, false, some, List, [], ◌∷◌, ◌≡◌, refl, ◌↔◌, inl,
  inr, arith, ltb, leb, Bool-cases, ==_iff, ltb→lt, lt→ltb, ltb_false→le, ◌==◌, if◌then◌else◌, In,
  All, All→In, In-append_left, In-append_right, In-append_cases, In-filter, In→filter, filter_map,
  In-filter_map, In→filter_map,
}
use linx_app_backend.Gaps.{
  BlockRow, generate_series, order_by_height, expanded_gaps, lag, in_partition, missing_heights,
}
use linx_app_backend.Gaps.Order.{
  IsSorted, In-order_by_height, order_by_height-IsSorted, le_trans, lt_irrefl,
}

lt→le : (a b : ℕ) → a < b → a ≤ b
lt→le a b h = omega arith

le→leb : (a b : ℕ) → a ≤ b → leb a b ≡ true
le→leb a b h = ground arith

In-generate_series :
    (h first n : ℕ) → In h (generate_series first n) → (first ≤ h) × (h < first + n)
unfolding generate_series
In-generate_series h first zero i = elim i [ ]
In-generate_series h first (suc n) (inl e) = (omega arith, omega arith)
In-generate_series h first (suc n) (inr i) =
    let (a, b) = In-generate_series h (first + 1) n i in (omega arith, omega arith)

In→generate_series : (h first n : ℕ) → first ≤ h → h < first + n → In h (generate_series first n)
unfolding generate_series
In→generate_series h first zero a b = elim (lt_irrefl first (omega arith)) [ ]
In→generate_series h first (suc n) a b = elim (Bool-cases (h == first)) [
  | inl e ↦ inl ((==_iff h first).0 e)
  | inr ne ↦
      let less : first < h = ground arith in
      inr (In→generate_series h (first + 1) n (omega arith) (omega arith))
]

-- A height that is not in the list, between its first and another.
abbrev IsBetween : ℕ → ℕ → List ℕ → Type 0
IsBetween h first hs = (¬ In h (first ∷ hs)) × (first < h) × ((b : ℕ) × In b hs × (h < b))

In-if : (b : Bool) (xs : List ℕ) (h : ℕ) → In h (if b then xs else []) → In h xs
In-if true xs h i = i
In-if false xs h i = elim i [ ]

In→if : (b : Bool) (xs : List ℕ) (h : ℕ) → b ≡ true → In h xs → In h (if b then xs else [])
In→if true xs h e i = i
In→if false xs h e i = cc

not_below : (h k : ℕ) (ks : List ℕ) → h < k → All (λ l. k ≤ l) ks → ¬ In h (k ∷ ks)
not_below h k ks less least (inl e) = omega arith
not_below h k ks less least (inr i) = let k≤h = All→In (λ l. k ≤ l) ks h least i in omega arith

In-expanded_gaps :
    (h prev : ℕ) (hs : List ℕ)
    → IsSorted (prev ∷ hs)
    → In h (expanded_gaps prev hs)
    → IsBetween h prev hs
unfolding expanded_gaps
In-expanded_gaps h prev [] sorted i = elim i [ ]
In-expanded_gaps h prev (k ∷ ks) ((prev≤k, least), sorted) i =
    elim (In-append_cases h _ (expanded_gaps k ks) i) [
      | inl gap ↦
          let (above, below) = In-generate_series h (prev + 1) (k - 1 - prev) (In-if _ _ h gap) in
          let less : h < k = omega arith in
          (
            λ j. elim j [
              | inl e ↦ lt_irrefl h (omega arith)
              | inr j' ↦ not_below h k ks less sorted.0 j'
            ],
            omega arith,
            (k, inl refl, less),
          )
      | inr later ↦
          let (fresh, above, (b, b_in, below)) = In-expanded_gaps h k ks sorted later in
          (
            λ j. elim j [ inl e ↦ lt_irrefl h (omega arith) | inr j' ↦ fresh j' ],
            omega arith,
            (b, inr b_in, below),
          )
    ]

In→expanded_gaps : (h prev : ℕ) (hs : List ℕ) → IsBetween h prev hs → In h (expanded_gaps prev hs)
unfolding expanded_gaps
In→expanded_gaps h prev [] (fresh, above, (b, b_in, below)) = elim b_in [ ]
In→expanded_gaps h prev (k ∷ ks) (fresh, above, (b, b_in, below)) = elim (Bool-cases (ltb h k)) [
  | inl e ↦
      let less = ltb→lt h k e in
      In-append_left h _ (expanded_gaps k ks) (
        In→if _ _ h (lt→ltb 1 (k - prev) (omega arith))
          (In→generate_series h (prev + 1) (k - 1 - prev) (omega arith) (omega arith)))
  | inr e ↦
      let k≤h = ltb_false→le h k e in
      elim (Bool-cases (h == k)) [
        | inl same ↦ elim (fresh (inr (inl ((==_iff h k).0 same)))) [ ]
        | inr other ↦
            let less : k < h = ground arith in
            In-append_right h _ (expanded_gaps k ks) (
              In→expanded_gaps h k ks (
                λ j. fresh (inr j),
                less,
                elim b_in [
                  | inl same ↦ elim (lt_irrefl h (omega arith)) [ ]
                  | inr b_in' ↦ (b, b_in', below)
                ],
              ))
      ]
]

-- The height is not in the list, and the list has one below and one above.
abbrev IsInside : ℕ → List ℕ → Type 0
IsInside h hs = (¬ In h hs) × ((a : ℕ) × In a hs × (a < h)) × ((b : ℕ) × In b hs × (h < b))

In-lag : (h : ℕ) (hs : List ℕ) → IsSorted hs → In h (lag hs) ↔ IsInside h hs
unfolding lag
In-lag h [] sorted = (λ i. elim i [ ], λ i. i.1.1)
In-lag h (k ∷ ks) sorted = (
  λ i.
      let (fresh, above, (b, b_in, below)) = In-expanded_gaps h k ks sorted i in
      (fresh, (k, inl refl, above), (b, inr b_in, below)),
  λ inside.
      let (fresh, (a, a_in, above), (b, b_in, below)) = inside in
      let k≤a : k ≤ a = elim a_in [ inl e ↦ omega arith | inr j ↦ All→In _ ks a sorted.0 j ] in
      In→expanded_gaps h k ks (
        fresh,
        omega arith,
        elim b_in [ inl e ↦ elim (lt_irrefl h (omega arith)) [ ] | inr j ↦ (b, j, below) ],
      ),
)

-- A row of the chain has the height.
pub record IsStored (chain : ℕ × ℕ) (blocks : List BlockRow) (height : ℕ) : Type 0 where
  pub row : BlockRow
  pub stands : In row blocks
  pub from_chain : row.chain_from ≡ chain.0
  pub to_chain : row.chain_to ≡ chain.1
  pub has_height : row.height ≡ height

read_row :
    (min_height x : ℕ) (chain : ℕ × ℕ) (row : BlockRow)
    → in_partition min_height chain row ≡ some x
    → (row.chain_from ≡ chain.0) × (row.chain_to ≡ chain.1) × (row.height ≡ x) × (min_height ≤ x)
read_row min_height x chain row h = ground arith

row_read :
    (min_height x : ℕ) (chain : ℕ × ℕ) (row : BlockRow)
    → row.chain_from ≡ chain.0
    → row.chain_to ≡ chain.1
    → row.height ≡ x
    → min_height ≤ x
    → in_partition min_height chain row ≡ some x
row_read min_height x chain row f t e least = ground arith

In-partition :
    (min_height x : ℕ) (chain : ℕ × ℕ) (blocks : List BlockRow)
    → In x (filter_map (in_partition min_height chain) blocks)
      ↔ (IsStored chain blocks x × (min_height ≤ x))
In-partition min_height x chain blocks = (
  λ i.
      let (row, stands, read) = In-filter_map (in_partition min_height chain) x blocks i in
      let (f, t, e, least) = read_row min_height x chain row read in
      (record { row = row; stands = stands; from_chain = f; to_chain = t; has_height = e }, least),
  λ h.
      let stored = h.0 in
      In→filter_map (in_partition min_height chain) stored.row x blocks stored.stands (
        row_read min_height x chain stored.row stored.from_chain stored.to_chain stored.has_height
          h.1),
)

-- A height is listed as missing for a chain exactly when no block of the chain is stored at it, one
-- is stored below it, at the least height of the search or above, and one is stored above it.
pub missing_heights_iff :
    (min_height h : ℕ) (chain : ℕ × ℕ) (blocks : List BlockRow)
    → In h (missing_heights min_height chain blocks) ↔ (
        (¬ IsStored chain blocks h)
        × ((a : ℕ) × IsStored chain blocks a × (min_height ≤ a) × (a < h))
        × ((b : ℕ) × IsStored chain blocks b × (h < b)))
unfolding missing_heights
missing_heights_iff min_height h chain blocks =
    let found = filter_map (in_partition min_height chain) blocks in
    let part : (x : ℕ) → In x found ↔ (IsStored chain blocks x × (min_height ≤ x)) =
      λ x. In-partition min_height x chain blocks in
    let ordered : (x : ℕ) → In x (order_by_height found) ↔ In x found =
      λ x. In-order_by_height x found in
    let lagged = In-lag h (order_by_height found) (order_by_height-IsSorted found) in
    (
      λ i.
          let (fresh, (a, a_in, above), (b, b_in, below)) =
            lagged.0 (In-filter (λ k. leb min_height k) h (lag (order_by_height found)) i).0 in
          let (a_stored, least) = (part a).0 ((ordered a).0 a_in) in
          (
            λ stored. fresh (
                (ordered h).1
                  ((part h).1 (stored, le_trans min_height a h least (lt→le a h above)))),
            (a, a_stored, least, above),
            (b, ((part b).0 ((ordered b).0 b_in)).0, below),
          ),
      λ gap.
          let (fresh, (a, a_stored, least, above), (b, b_stored, below)) = gap in
          let enough : min_height ≤ h = omega arith in
          let enough_b : min_height ≤ b = omega arith in
          In→filter (λ k. leb min_height k) h (lag (order_by_height found))
            (lagged.1 (
              λ i. fresh ((part h).0 ((ordered h).0 i)).0,
              (a, (ordered a).1 ((part a).1 (a_stored, least)), above),
              (b, (ordered b).1 ((part b).1 (b_stored, enough_b)), below),
            ))
            (le→leb min_height h enough),
    )
