-- ===== src/BitField/Field/Cutting.antt =====
-- `BitField::cut`, by rank.
use forest.Base.{ℕ, ◌-◌, ◌≡◌, ◌∙◌, false}
use forest.BitField.Range.{Fit}
use forest.BitField.Combine.Cutting.{cut_lem}
use forest.BitField.Iter.Rank.{rank}
use forest.BitField.Field.{BitField, get, all_ranges, cut}
use forest.BitField.Field.Laws.{
  IsField, all_ranges-IsRanges, mem-all_ranges, from_ranges-IsField, get-from_ranges,
}

-- Cutting a well-formed field, whose ranges end at `usize` values, by another gives a well-formed field
-- in which each bit that is not cut out has moved left by the number of cut bits below it.
pub get-cut :
    (f g : BitField)
    → IsField f
    → IsField g
    → Fit (all_ranges f)
    → IsField (cut f g)
      × ((n : ℕ) → get n g ≡ false → get (n - rank n (all_ranges g)) (cut f g) ≡ get n f)
unfolding cut
get-cut f g v w fit =
    let (ranges, law) =
      cut_lem (all_ranges f) (all_ranges g) (all_ranges-IsRanges f v) (all_ranges-IsRanges g w)
        fit in
    (
      from_ranges-IsField _ ranges,
      λ n e. get-from_ranges _ _ ∙ law n (mem-all_ranges g w n ∙ e) ∙ mem-all_ranges f v n,
    )
