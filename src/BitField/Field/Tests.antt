-- ===== src/BitField/Field/Tests.antt =====
-- Runs of the operations on bit fields, and instances of their laws.
use forest.Base.{
  ℕ, ◌+◌, ◌-◌, ◌≤◌, ◌≡◌, ◌↔◌, refl, Bool, true, false, not, xor, ◌&&◌, ◌||◌, List, [], ◌∷◌, Option,
  none, some, arith, ◌==◌, if◌then◌else◌, ltb, leb,
}
use forest.BitField.Range.{range, mem, IsRanges, Fit}
use forest.BitField.Bits.{has, Strict}
use forest.BitField.Field.{
  BitField, from_ranges, get, set_bit, all_ranges, iter, slice, eq, bitor, bitand, sub, bitxor,
  union_all, contains_all,
}
use forest.BitField.Iter.Runs.{max_bit}
use forest.BitField.Field.Laws.{IsField, all_ranges-get, set_bit_lem}
use forest.BitField.Field.Bitwise.{Joins, operators_lem, any_get, union_all_lem, contains_all_iff}
use forest.BitField.Field.Order.{iter_lem}
use forest.BitField.Field.Equality.{eq_iff_get}
use forest.BitField.Field.Slice.{Slices, slice-Slices}
use forest.BitField.Field.Json.{serialize, deserialize, Short, deserialize-serialize_iff}

abbrev mixed : BitField
mixed = record { ranges = range 2 5 ∷ range 8 11 ∷ []; set = 20 ∷ 3 ∷ []; unset = 9 ∷ [] }

abbrev plain : BitField
plain = from_ranges (range 0 3 ∷ range 10 12 ∷ [])

mixed-IsField : IsField mixed
mixed-IsField = record {
  ranges = omega arith;
  set = ground arith;
  unset = ground arith;
  apart = λ n e. ground arith;
}

plain-IsField : IsField plain
plain-IsField = record {
  ranges = omega arith;
  set = (tt, tt);
  unset = (tt, tt);
  apart = λ n e. refl;
}

all_ranges_run : all_ranges mixed ≡ range 2 5 ∷ range 8 9 ∷ range 10 11 ∷ range 20 21 ∷ []
unfolding all_ranges forest.BitField.Combine.combine forest.BitField.Iter.ranges_from_bits
    forest.BitField.Bits.sort forest.Base.Words.add_usize
all_ranges_run = refl

all_ranges-get_example :
    IsRanges (all_ranges mixed) × ((n : ℕ) → mem n (all_ranges mixed) ≡ get n mixed)
all_ranges-get_example = all_ranges-get mixed mixed-IsField

set_bit_lem_example :
    (IsField (set_bit 9 mixed) ↔ (10 ≤ max_bit))
    × ((n : ℕ) → get n (set_bit 9 mixed) ≡ (if 9 == n then true else get n mixed))
set_bit_lem_example = set_bit_lem 9 mixed mixed-IsField

operators_lem_example :
    Joins ◌||◌ mixed plain (bitor mixed plain)
    × Joins ◌&&◌ mixed plain (bitand mixed plain)
    × Joins (λ x y. x && not y) mixed plain (sub mixed plain)
    × Joins xor mixed plain (bitxor mixed plain)
operators_lem_example = operators_lem mixed plain mixed-IsField plain-IsField

union_all_lem_example :
    IsField (union_all (mixed ∷ plain ∷ []))
    × ((n : ℕ) → get n (union_all (mixed ∷ plain ∷ [])) ≡ any_get n (mixed ∷ plain ∷ []))
union_all_lem_example = union_all_lem (mixed ∷ plain ∷ []) (mixed-IsField, (plain-IsField, tt))

contains_all_iff_example :
    (contains_all mixed plain ≡ true) ↔ ((n : ℕ) → get n plain ≡ true → get n mixed ≡ true)
contains_all_iff_example = contains_all_iff mixed plain mixed-IsField plain-IsField

iter_lem_example : Strict 0 (iter mixed) × ((n : ℕ) → has n (iter mixed) ≡ get n mixed)
iter_lem_example = iter_lem mixed mixed-IsField

eq_iff_get_example : (eq mixed plain ≡ true) ↔ ((n : ℕ) → get n mixed ≡ get n plain)
eq_iff_get_example = eq_iff_get mixed plain mixed-IsField plain-IsField

slice-Slices_example : Slices 1 3 mixed (slice 1 3 mixed)
slice-Slices_example = slice-Slices 1 3 mixed mixed-IsField

deserialize-serialize_iff_example :
    (deserialize (serialize mixed) ≡ from_ranges (all_ranges mixed)) ↔ Short 0 (all_ranges mixed)
deserialize-serialize_iff_example =
    deserialize-serialize_iff mixed mixed-IsField (rw all_ranges_run (omega arith))

mixed-Fit : Fit (all_ranges mixed)
mixed-Fit = rw all_ranges_run (omega arith)
