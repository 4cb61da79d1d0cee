-- ===== src/BitField/Field.antt =====
-- The struct `BitField` and its operations: utils/bitfield/src/lib.rs.
pub mod Bitwise
pub mod Laws
pub mod Search
pub mod Order
pub mod Cutting
pub mod Slice
pub mod Equality
pub mod Json
mod Tests
use forest.Base.{
  ℕ, zero, suc, ◌+◌, ◌-◌, Bool, true, false, not, ◌&&◌, ◌||◌, List, [], ◌∷◌, ◌++◌, Option, none,
  some, ltb, leb, ◌==◌, is_empty as empty_list, if◌then◌else◌,
}
use forest.Base.Words.{add_usize}
use forest.BitField.Range.{Range, range, len as range_len, size, contains}
use forest.BitField.Combine.{
  combine, union, intersection, difference, symmetric_difference, cut as cut_by,
}
use forest.BitField.Iter.{skip_bits, take_bits, ranges_from_bits}
use forest.BitField.Bits.{has, insert, remove, sort}

pub record BitField : Type 0 where
  pub ranges : List Range
  pub set : List ℕ
  pub unset : List ℕ

abbrev pub new : BitField
new = record { ranges = []; set = []; unset = [] }

abbrev pub from_ranges : List Range → BitField
from_ranges rs = record { ranges = rs; set = []; unset = [] }

pub set_bit : ℕ → BitField → BitField
set_bit bit f = record f { unset = remove bit f.unset; set = insert bit f.set }

pub unset_bit : ℕ → BitField → BitField
unset_bit bit f = record f { set = remove bit f.set; unset = insert bit f.unset }

-- The closure of the binary search in `BitField::get`.
pub data Ordering : Type 0 where
  less equal greater : Ordering

abbrev pub compare_range : ℕ → Range → Ordering
compare_range index r =
    if ltb index r.start then greater else if leb r.end index then less else equal

abbrev is_equal : Ordering → Bool
is_equal equal = true
is_equal _ = false

-- `slice::binary_search_by(…).is_ok()`: on a slice that the closure orders, whether it says `Equal`
-- of some element.
abbrev pub search_ok : (Range → Ordering) → List Range → Bool
search_ok f [] = false
search_ok f (r ∷ rs) = is_equal (f r) || search_ok f rs

pub get : ℕ → BitField → Bool
get index f =
    if has index f.set
    then true
    else if has index f.unset
    then false
    else search_ok (compare_range index) f.ranges

-- `BitField::ranges`
unfoldable pub all_ranges : BitField → List Range
all_ranges f =
    combine difference (combine union f.ranges (ranges_from_bits (sort f.set)))
      (ranges_from_bits (sort f.unset))

-- `Iterator::eq` on two sequences of ranges
abbrev pub eq_ranges : List Range → List Range → Bool
eq_ranges [] [] = true
eq_ranges (q ∷ qs) (r ∷ rs) = q.start == r.start && (q.end == r.end && eq_ranges qs rs)
eq_ranges _ _ = false

-- `PartialEq::eq`
pub eq : BitField → BitField → Bool
unfolding all_ranges
eq f g = eq_ranges (all_ranges f) (all_ranges g)

-- The bits of a range, `flatten` of one item.
pub bits_from : ℕ → ℕ → List ℕ
bits_from zero start = []
bits_from (suc n) start = start ∷ bits_from n (suc start)

unfoldable pub flatten : List Range → List ℕ
unfolding bits_from
flatten [] = []
flatten (r ∷ rs) = bits_from (range_len r) r.start ++ flatten rs

-- `Iterator::filter` by absence from a set
abbrev pub without : List ℕ → List ℕ → List ℕ
without unset [] = []
without unset (x ∷ xs) = let rest = without unset xs in if has x unset then rest else x ∷ rest

-- `Iterator::find` by absence from a set
abbrev pub find_absent : List ℕ → List ℕ → Option ℕ
find_absent unset [] = none
find_absent unset (x ∷ xs) = let rest = find_absent unset xs in if has x unset then rest else some x

-- `Iterator::all` by presence in a set
abbrev pub all_in : List ℕ → List ℕ → Bool
all_in unset [] = true
all_in unset (x ∷ xs) = has x unset && all_in unset xs

pub iter : BitField → List ℕ
iter f = without f.unset (flatten (combine union f.ranges (ranges_from_bits (sort f.set))))

abbrev pub min_bit : List ℕ → Option ℕ
min_bit [] = none
min_bit (x ∷ xs) = elim (min_bit xs) [ none ↦ some x | some m ↦ some (if leb x m then x else m) ]

abbrev pub min_range : Option ℕ → List Range
min_range none = []
min_range (some bit) = range bit (add_usize bit 1) ∷ []

pub first : BitField → Option ℕ
first f = find_absent f.unset (flatten (combine union f.ranges (min_range (min_bit f.set))))

abbrev pub last_range : List Range → Option Range
last_range [] = none
last_range (r ∷ []) = some r
last_range (r ∷ s ∷ rs) = last_range (s ∷ rs)

-- `none` is the error "no last bit set".
pub last : BitField → Option ℕ
last f = elim (last_range (all_ranges f)) [ none ↦ none | some r ↦ some (r.end - 1) ]

pub is_empty : BitField → Bool
is_empty f = empty_list f.set && all_in f.unset (flatten f.ranges)

pub len : BitField → ℕ
unfolding all_ranges
len f = size (all_ranges f)

-- `none` is the error "Bits set exceeds max in retrieval".
pub bounded_iter : ℕ → BitField → Option (List ℕ)
unfolding len iter
bounded_iter most f = if leb (len f) most then some (iter f) else none

-- `none` is the error "Not enough bits".
pub slice : ℕ → ℕ → BitField → Option BitField
unfolding len all_ranges
slice start count f =
    let s = from_ranges (take_bits count (skip_bits start (all_ranges f))) in
    if len s == count then some s else none

pub cut : BitField → BitField → BitField
unfolding all_ranges
cut f g = from_ranges (combine cut_by (all_ranges f) (all_ranges g))

-- `&f | &g`, `&f & &g`, `&f - &g` and `&f ^ &g`
pub bitor : BitField → BitField → BitField
unfolding all_ranges
bitor f g = from_ranges (combine union (all_ranges f) (all_ranges g))

pub bitand : BitField → BitField → BitField
unfolding all_ranges
bitand f g = from_ranges (combine intersection (all_ranges f) (all_ranges g))

pub sub : BitField → BitField → BitField
unfolding all_ranges
sub f g = from_ranges (combine difference (all_ranges f) (all_ranges g))

pub bitxor : BitField → BitField → BitField
unfolding all_ranges
bitxor f g = from_ranges (combine symmetric_difference (all_ranges f) (all_ranges g))

-- The fold of `BitField::union`.
union_from : BitField → List BitField → BitField
unfolding bitor
union_from a [] = a
union_from a (b ∷ bs) = union_from (bitor a b) bs

pub union_all : List BitField → BitField
unfolding union_from
union_all fs = union_from new fs

pub contains_any : BitField → BitField → Bool
unfolding all_ranges
contains_any f g = not (empty_list (combine intersection (all_ranges f) (all_ranges g)))

pub contains_all : BitField → BitField → Bool
unfolding all_ranges
contains_all f g = empty_list (combine difference (all_ranges g) (all_ranges f))
