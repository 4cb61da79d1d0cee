-- ===== src/BitField/Iter.antt =====
-- `Skip`, `Take` and `ranges_from_bits`: utils/bitfield/src/iter/mod.rs.
pub mod Rank
pub mod Runs
use forest.Base.{ℕ, ◌+◌, ◌-◌, Bool, true, false, List, [], ◌∷◌, ltb, ◌==◌, if◌then◌else◌}
use forest.Base.Words.{add_usize}
use forest.BitField.Range.{Range, range, len}

-- `Skip`, run to its end: what is left of the ranges when the first `n` bits are passed over.
unfoldable pub skip_bits : ℕ → List Range → List Range
skip_bits n [] = []
skip_bits n (r ∷ rs) = elim (ltb n (len r)) [
  | true ↦ range (r.start + n) r.end ∷ skip_bits 0 rs
  | false ↦ skip_bits (n - len r) rs
]

-- The shortening in `Take::next`.
abbrev pub shorten : ℕ → Range → Range
shorten n r = if ltb n (len r) then range r.start (r.start + n) else r

-- `Take`, run to its end.
unfoldable pub take_bits : ℕ → List Range → List Range
take_bits n [] = []
take_bits n (r ∷ rs) = elim (n == 0) [
  | true ↦ []
  | false ↦ shorten n r ∷ take_bits (n - len (shorten n r)) rs
]

-- The closure of `ranges_from_bits`, from a started range on.
unfoldable pub run_from : ℕ → ℕ → List ℕ → List Range
run_from start end [] = range start end ∷ []
run_from start end (b ∷ bits) = elim (b == end) [
  | true ↦ run_from start (add_usize end 1) bits
  | false ↦ range start end ∷ run_from b (add_usize b 1) bits
]

unfoldable pub ranges_from_bits : List ℕ → List Range
unfolding run_from
ranges_from_bits [] = []
ranges_from_bits (b ∷ bits) = run_from b (add_usize b 1) bits
