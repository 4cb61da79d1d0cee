-- ===== src/BitField/Range.antt =====
-- Ranges of bits, `Range<usize>`, and lists of them.
use forest.Base.Words.{usize_mod}
use forest.Base.{ℕ, suc, ◌+◌, ◌-◌, ◌≤◌, ◌<◌, Bool, false, ◌&&◌, ◌||◌, List, [], ◌∷◌, leb, ltb}

pub record Range : Type 0 where
  pub start : ℕ
  pub end : ℕ

abbrev pub range : ℕ → ℕ → Range
range a b = record { start = a; end = b }

-- `Range::len`: zero where the end does not exceed the start.
abbrev pub len : Range → ℕ
len r = r.end - r.start

abbrev pub contains : ℕ → Range → Bool
contains n r = leb r.start n && ltb n r.end

-- Whether a bit is in one of the ranges.
abbrev pub mem : ℕ → List Range → Bool
mem n [] = false
mem n (r ∷ rs) = contains n r || mem n rs

-- The number of bits in the ranges.
abbrev pub size : List Range → ℕ
size [] = 0
size (r ∷ rs) = len r + size rs

-- The requirements of the trait `RangeIterator`, from a lower bound on: no range is empty, they
-- ascend, and no two overlap or touch.
abbrev pub From : ℕ → List Range → Type 0
From b [] = Unit {0}
From b (r ∷ rs) = (b ≤ r.start) × (r.start < r.end) × From (suc r.end) rs

abbrev pub IsRanges : List Range → Type 0
IsRanges rs = From 0 rs

-- What holds between the steps of a combinator: the first range may have become empty, or touch.
abbrev pub Weak : ℕ → List Range → Type 0
Weak b [] = Unit {0}
Weak b (r ∷ rs) = (b ≤ r.start) × (r.start ≤ r.end) × Weak r.end rs

-- Non-empty ranges whose lower bounds do not decrease: what `Merge` asks of its input.
abbrev pub Ascending : ℕ → List Range → Type 0
Ascending b [] = Unit {0}
Ascending b (r ∷ rs) = (b ≤ r.start) × (r.start < r.end) × Ascending r.start rs

-- The ends are `usize` values.
abbrev pub Fit : List Range → Type 0
Fit [] = Unit {0}
Fit (r ∷ rs) = (r.end < usize_mod) × Fit rs
