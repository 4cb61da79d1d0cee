-- ===== src/BitField/Combine/Tests.antt =====
-- Runs of the combinators on the ranges of test_combinators, and instances of their laws.
use forest.Base.{ℕ, ◌-◌, false, ◌≡◌, refl, ◌&&◌, ◌||◌, xor, not, List, [], ◌∷◌, arith}
use forest.BitField.Range.{Range, range, mem, IsRanges}
use forest.BitField.Iter.Rank.{rank}
use forest.BitField.Combine.Cutting.{cut_lem}
use forest.BitField.Combine.{combine, union, intersection, difference, symmetric_difference, cut}
use forest.BitField.Combine.Correct.{
  Computes, union-Computes, intersection-Computes, difference-Computes,
  symmetric_difference-Computes,
}

abbrev left : List Range
left = range 0 3 ∷ range 4 7 ∷ range 8 11 ∷ []

abbrev right : List Range
right = range 2 5 ∷ range 6 9 ∷ range 10 13 ∷ []

left-IsRanges : IsRanges left
left-IsRanges = omega arith

right-IsRanges : IsRanges right
right-IsRanges = omega arith

union_run : combine union left right ≡ range 0 13 ∷ []
unfolding combine
union_run = refl

intersection_run :
    combine intersection left right
    ≡ range 2 3 ∷ range 4 5 ∷ range 6 7 ∷ range 8 9 ∷ range 10 11 ∷ []
unfolding combine
intersection_run = refl

difference_run : combine difference left right ≡ range 0 2 ∷ range 5 6 ∷ range 9 10 ∷ []
unfolding combine
difference_run = refl

symmetric_difference_run :
    combine symmetric_difference left right
    ≡ range 0 2 ∷ range 3 4 ∷ range 5 6 ∷ range 7 8 ∷ range 9 10 ∷ range 11 13 ∷ []
unfolding combine
symmetric_difference_run = refl

cut_run : combine cut left right ≡ range 0 4 ∷ []
unfolding combine forest.Base.Words.sub_usize forest.Base.Words.add_usize
cut_run = refl

union-Computes_example : Computes ◌||◌ left right (combine union left right)
union-Computes_example = union-Computes left right left-IsRanges right-IsRanges

intersection-Computes_example : Computes ◌&&◌ left right (combine intersection left right)
intersection-Computes_example = intersection-Computes left right left-IsRanges right-IsRanges

difference-Computes_example :
    Computes (λ x y. x && not y) left right (combine difference left right)
difference-Computes_example = difference-Computes left right left-IsRanges right-IsRanges

symmetric_difference-Computes_example :
    Computes xor left right (combine symmetric_difference left right)
symmetric_difference-Computes_example =
    symmetric_difference-Computes left right left-IsRanges right-IsRanges

cut_lem_example :
    IsRanges (combine cut left right)
    × ((n : ℕ) → mem n right ≡ false → mem (n - rank n right) (combine cut left right) ≡ mem n left)
cut_lem_example = cut_lem left right left-IsRanges right-IsRanges (omega arith)
