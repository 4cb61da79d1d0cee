-- ===== src/BitField/Field/Slice.antt =====
-- `slice` takes the bits of given ranks, and fails exactly when there are too few.
use forest.Base.{
  ℕ, ◌+◌, ◌<◌, ◌≡◌, ap, ◌∙◌, inl, inr, ◌&&◌, List, Option, none, some, arith, leb, ltb, ◌==◌,
  Bool-cases,
}
use forest.BitField.Range.{Range, size, IsRanges}
use forest.BitField.Iter.{skip_bits, take_bits}
use forest.BitField.Iter.Rank.{rank, take_skip_lem}
use forest.BitField.Field.{BitField, from_ranges, get, all_ranges, len, slice}
use forest.BitField.Field.Laws.{
  IsField, all_ranges-IsRanges, mem-all_ranges, from_ranges-IsField, get-from_ranges,
}
use forest.BitField.Field.Equality.{ranges_ext}

-- A field made of a range iterator yields just that.
pub all_ranges-from_ranges : (rs : List Range) → IsRanges rs → all_ranges (from_ranges rs) ≡ rs
all_ranges-from_ranges rs h =
    let v = from_ranges-IsField rs h in
    ranges_ext 0 _ rs (all_ranges-IsRanges _ v) h (λ n. mem-all_ranges _ v n ∙ get-from_ranges n rs)

-- The result holds the bits of `f` with ranks from `start` on, `count` of them; or there are fewer.
abbrev pub Slices : ℕ → ℕ → BitField → Option BitField → Type 0
Slices start count f none = len f < start + count
Slices start count f (some g) =
    IsField g
    × (len g ≡ count)
    × ((k : ℕ)
        → get k g ≡ (
            get k f
            && (leb start (rank k (all_ranges f)) && ltb (rank k (all_ranges f)) (start + count))))

-- `slice` returns the field of the `count` bits with the ranks from `start` on, or fails because
-- the field has fewer than `start + count` bits.
pub slice-Slices :
    (start count : ℕ) (f : BitField) → IsField f → Slices start count f (slice start count f)
unfolding slice len
slice-Slices start count f v =
    let (h, m, s) = take_skip_lem start count (all_ranges f) (all_ranges-IsRanges f v) in
    let same = all_ranges-from_ranges _ h in
    let l = ap size same ∙ s in
    elim (Bool-cases (
      size (all_ranges (from_ranges (take_bits count (skip_bits start (all_ranges f)))))
      == count)) [
        | inl full ↦
            rw (full, Slices)
              (
                from_ranges-IsField _ h,
                ground arith,
                λ k.
                    get-from_ranges k _
                    ∙ m k
                    ∙ ap
                        (λ b.
                          b
                          && (leb start (rank k (all_ranges f))
                              && ltb (rank k (all_ranges f)) (start + count)))
                        (mem-all_ranges f v k),
              )
        | inr short ↦ rw (short, Slices) (ground arith)
      ]
