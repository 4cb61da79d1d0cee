-- ===== src/BitField/Field/Bitwise.antt =====
-- The operators on bit fields, and the tests for inclusion, against `get`.
use forest.Base.{
  ℕ, ◌≡◌, ◌↔◌, refl, ◌∙◌, Bool, true, false, not, xor, ◌&&◌, ◌||◌, List, [], ◌∷◌, arith,
  is_empty as empty_list,
}
use forest.BitField.Range.{Range, mem, IsRanges}
use forest.BitField.Combine.Correct.{
  Computes, union-Computes, intersection-Computes, difference-Computes,
  symmetric_difference-Computes,
}
use forest.BitField.Field.{
  BitField, from_ranges, get, all_ranges, new, union_from, union_all, bitor, bitand, sub, bitxor,
  contains_any, contains_all,
}
use forest.BitField.Field.Laws.{
  IsField, get-from_ranges, from_ranges-IsField, all_ranges-IsRanges, mem-all_ranges,
}

-- `h` is well-formed, and its bits are those that `op` selects from those of `f` and `g`.
abbrev pub Joins : (Bool → Bool → Bool) → BitField → BitField → BitField → Type 0
Joins op f g h = IsField h × ((n : ℕ) → get n h ≡ op (get n f) (get n g))

from_ranges-Joins :
    (op : Bool → Bool → Bool) (f g : BitField)
    → IsField f
    → IsField g
    → (rs : List Range) → Computes op (all_ranges f) (all_ranges g) rs
    → Joins op f g (from_ranges rs)
from_ranges-Joins op f g v w rs c = (
  from_ranges-IsField rs c.0,
  λ n. get-from_ranges n rs ∙ c.1 n ∙ (λ i. op (mem-all_ranges f v n i) (mem-all_ranges g w n i)),
)

module _ (f g : BitField) (v : IsField f) (w : IsField g) where
  pub bitor-Joins : Joins ◌||◌ f g (bitor f g)
  unfolding bitor
  bitor-Joins =
      from_ranges-Joins ◌||◌ f g v w _
        (union-Computes _ _ (all_ranges-IsRanges f v) (all_ranges-IsRanges g w))

  pub bitand-Joins : Joins ◌&&◌ f g (bitand f g)
  unfolding bitand
  bitand-Joins =
      from_ranges-Joins ◌&&◌ f g v w _
        (intersection-Computes _ _ (all_ranges-IsRanges f v) (all_ranges-IsRanges g w))

  pub sub-Joins : Joins (λ x y. x && not y) f g (sub f g)
  unfolding sub
  sub-Joins =
      from_ranges-Joins (λ x y. x && not y) f g v w _
        (difference-Computes _ _ (all_ranges-IsRanges f v) (all_ranges-IsRanges g w))

  pub bitxor-Joins : Joins xor f g (bitxor f g)
  unfolding bitxor
  bitxor-Joins =
      from_ranges-Joins xor f g v w _
        (symmetric_difference-Computes _ _ (all_ranges-IsRanges f v) (all_ranges-IsRanges g w))

  -- The operators `|`, `&`, `-` and `^` keep well-formedness; their bits are those of either
  -- operand, of both, of the first alone, and of exactly one.
  pub operators_lem :
      Joins ◌||◌ f g (bitor f g)
      × Joins ◌&&◌ f g (bitand f g)
      × Joins (λ x y. x && not y) f g (sub f g)
      × Joins xor f g (bitxor f g)
  operators_lem = (bitor-Joins, bitand-Joins, sub-Joins, bitxor-Joins)

-- The bits of the folded union.
abbrev pub any_get : ℕ → List BitField → Bool
any_get n [] = false
any_get n (f ∷ fs) = get n f || any_get n fs

abbrev pub AllFields : List BitField → Type 0
AllFields [] = Unit {0}
AllFields (f ∷ fs) = IsField f × AllFields fs

union_from_lem :
    (a : BitField) (fs : List BitField)
    → IsField a
    → AllFields fs
    → IsField (union_from a fs) × ((n : ℕ) → get n (union_from a fs) ≡ (get n a || any_get n fs))
unfolding union_from
union_from_lem a [] v ws = (v, λ n. ground arith)
union_from_lem a (b ∷ bs) v (w, ws) =
    let j = bitor-Joins a b v w in
    let (u, e) = union_from_lem (bitor a b) bs j.0 ws in (u, λ n. ground (arith, e n, j.1 n))

-- The union of a list of well-formed fields is well-formed, and its bits are those of any of them.
pub union_all_lem :
    (fs : List BitField)
    → AllFields fs
    → IsField (union_all fs) × ((n : ℕ) → get n (union_all fs) ≡ any_get n fs)
unfolding union_all
union_all_lem fs ws =
    let (u, e) = union_from_lem new fs (from_ranges-IsField [] tt) ws in
    (u, λ n. ground (arith, e n, get-from_ranges n []))

-- A range iterator is empty exactly when it has no bit.
pub empty_iff :
    (rs : List Range) → IsRanges rs → (empty_list rs ≡ true) ↔ ((n : ℕ) → mem n rs ≡ false)
empty_iff [] h = (λ e n. refl, λ e. refl)
empty_iff (r ∷ rs) h = (λ e. absurd (cc), λ e. absurd (ground (arith, e r.start)))

module _ (f g : BitField) (v : IsField f) (w : IsField g) where
  -- `contains_all` holds exactly when every bit of the argument is one of the field's.
  pub contains_all_iff : (contains_all f g ≡ true) ↔ ((n : ℕ) → get n g ≡ true → get n f ≡ true)
  unfolding contains_all
  contains_all_iff =
      let c =
        difference-Computes (all_ranges g) (all_ranges f) (all_ranges-IsRanges g w)
          (all_ranges-IsRanges f v) in
      let i = empty_iff _ c.0 in
      (
        λ e n h. ground (arith, i.0 e n, c.1 n, mem-all_ranges f v n, mem-all_ranges g w n),
        λ e. i.1 (λ n. ground (arith, e n, c.1 n, mem-all_ranges f v n, mem-all_ranges g w n)),
      )

  -- `contains_any` fails exactly when no bit is in both.
  pub contains_any_iff : (contains_any f g ≡ false) ↔ ((n : ℕ) → get n f ≡ true → get n g ≡ false)
  unfolding contains_any
  contains_any_iff =
      let c =
        intersection-Computes (all_ranges f) (all_ranges g) (all_ranges-IsRanges f v)
          (all_ranges-IsRanges g w) in
      let i = empty_iff _ c.0 in
      (
        λ e n h.
            ground (arith, i.0 (ground arith) n, c.1 n, mem-all_ranges f v n, mem-all_ranges g w n),
        λ e. ground (
          arith,
          i.1 (λ n. ground (arith, e n, c.1 n, mem-all_ranges f v n, mem-all_ranges g w n)),
        ),
      )
