-- ===== src/BitField/Field/Laws.antt =====
-- The well-formed bit fields, and what `get`, `set` and `unset` do to them.
use forest.Base.{
  ℕ, suc, ◌≤◌, ◌≡◌, ◌↔◌, refl, ◌∙◌, true, false, ◌||◌, List, [], ◌∷◌, arith, ◌==◌, if◌then◌else◌,
}
use forest.BitField.Range.{Range, mem, IsRanges}
use forest.BitField.Combine.{combine, union}
use forest.BitField.Combine.Correct.{Computes, union-Computes, difference-Computes}
use forest.BitField.Iter.{ranges_from_bits}
use forest.BitField.Iter.Runs.{max_bit, ranges_from_bits-IsRanges, mem-ranges_from_bits}
use forest.BitField.Bits.{
  has, sort, Distinct, Below, has-insert, has-remove, insert-Distinct, remove-Distinct,
  insert-Below, Below-insert, remove-Below, has-sort, sort-Strict, sort-Below,
}
use forest.BitField.Field.{
  BitField, from_ranges, set_bit, unset_bit, get, all_ranges, search_ok, compare_range,
}

-- A set of bits without repetition, whose bits have a successor in `usize`.
abbrev pub IsBits : List ℕ → Type 0
IsBits xs = Distinct xs × Below max_bit xs

-- The ranges are a range iterator, and no bit is both set and unset.
pub record IsField (f : BitField) : Type 0 where
  pub ranges : IsRanges f.ranges
  pub set : IsBits f.set
  pub unset : IsBits f.unset
  pub apart : (n : ℕ) → has n f.set ≡ true → has n f.unset ≡ false

search_ok-mem : (n : ℕ) (rs : List Range) → search_ok (compare_range n) rs ≡ mem n rs
search_ok-mem n [] = refl
search_ok-mem n (r ∷ rs) = ground (arith, search_ok-mem n rs)

pub get_lem :
    (n : ℕ) (f : BitField)
    → get n f ≡ (if has n f.set then true else if has n f.unset then false else mem n f.ranges)
unfolding get
get_lem n f = rw search_ok-mem refl

pub bits-IsRanges : (xs : List ℕ) → IsBits xs → IsRanges (ranges_from_bits (sort xs))
bits-IsRanges xs h =
    ranges_from_bits-IsRanges (sort xs) (sort-Strict xs h.0) (sort-Below max_bit xs h.1)

pub mem-bits : (n : ℕ) (xs : List ℕ) → IsBits xs → mem n (ranges_from_bits (sort xs)) ≡ has n xs
mem-bits n xs h =
    mem-ranges_from_bits n (sort xs) (sort-Strict xs h.0) (sort-Below max_bit xs h.1)
    ∙ has-sort n xs

module _ (f : BitField) (v : IsField f) where
  pub with_set :
      Computes ◌||◌ f.ranges
        (ranges_from_bits (sort f.set))
        (combine union f.ranges (ranges_from_bits (sort f.set)))
  with_set = union-Computes f.ranges _ v.ranges (bits-IsRanges f.set v.set)

  pub all_ranges-IsRanges : IsRanges (all_ranges f)
  unfolding all_ranges
  all_ranges-IsRanges = (difference-Computes _ _ with_set.0 (bits-IsRanges f.unset v.unset)).0

  pub mem-all_ranges : (n : ℕ) → mem n (all_ranges f) ≡ get n f
  unfolding all_ranges
  mem-all_ranges n =
      (difference-Computes _ _ with_set.0 (bits-IsRanges f.unset v.unset)).1 n
      ∙ ground (
        arith,
        with_set.1 n,
        mem-bits n f.set v.set,
        mem-bits n f.unset v.unset,
        get_lem n f,
        v.apart n,
      )

  -- The ranges that `ranges` yields are a range iterator over exactly the bits that `get` reports.
  pub all_ranges-get : IsRanges (all_ranges f) × ((n : ℕ) → mem n (all_ranges f) ≡ get n f)
  all_ranges-get = (all_ranges-IsRanges, mem-all_ranges)

pub from_ranges-IsField : (rs : List Range) → IsRanges rs → IsField (from_ranges rs)
from_ranges-IsField rs h = record {
  ranges = h;
  set = (tt, tt);
  unset = (tt, tt);
  apart = λ n e. refl;
}

pub get-from_ranges : (n : ℕ) (rs : List Range) → get n (from_ranges rs) ≡ mem n rs
get-from_ranges n rs = get_lem n (from_ranges rs)

module _ (b : ℕ) (f : BitField) (v : IsField f) where
  set_bit-IsField : suc b ≤ max_bit → IsField (set_bit b f)
  unfolding set_bit
  set_bit-IsField small = record {
    ranges = v.ranges;
    set = (insert-Distinct b f.set v.set.0, insert-Below max_bit b f.set small v.set.1);
    unset = (remove-Distinct b f.unset v.unset.0, remove-Below max_bit b f.unset v.unset.1);
    apart = λ n e. ground (arith, has-insert n b f.set, has-remove n b f.unset, v.apart n);
  }

  set_bit-Below : IsField (set_bit b f) → suc b ≤ max_bit
  unfolding set_bit
  set_bit-Below w = Below-insert max_bit b f.set w.set.1

  -- After a bit is set in a well-formed field, `get` reports that bit and the others as before; the field
  -- is still well formed exactly when the bit is below `usize::MAX`.
  pub set_bit_lem :
      (IsField (set_bit b f) ↔ (suc b ≤ max_bit))
      × ((n : ℕ) → get n (set_bit b f) ≡ (if b == n then true else get n f))
  unfolding set_bit
  set_bit_lem = (
    (set_bit-Below, set_bit-IsField),
    λ n.
        ground (
          arith,
          get_lem n f,
          get_lem n (set_bit b f),
          has-insert n b f.set,
          has-remove n b f.unset,
        ),
  )

module _ (b : ℕ) (f : BitField) (small : suc b ≤ max_bit) (v : IsField f) where
  -- Unsetting a bit keeps the field well-formed, and `get` then denies that bit and reports the
  -- others as before.
  pub unset_bit_lem :
      IsField (unset_bit b f)
      × ((n : ℕ) → get n (unset_bit b f) ≡ (if b == n then false else get n f))
  unfolding unset_bit
  unset_bit_lem = (
    record {
      ranges = v.ranges;
      set = (remove-Distinct b f.set v.set.0, remove-Below max_bit b f.set v.set.1);
      unset = (insert-Distinct b f.unset v.unset.0, insert-Below max_bit b f.unset small v.unset.1);
      apart = λ n e. ground (arith, has-insert n b f.unset, has-remove n b f.set, v.apart n);
    },
    λ n. ground (
      arith,
      get_lem n f,
      get_lem n (unset_bit b f),
      has-insert n b f.unset,
      has-remove n b f.set,
      v.apart n,
    ),
  )
