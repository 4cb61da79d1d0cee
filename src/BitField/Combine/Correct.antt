-- ===== src/BitField/Combine/Correct.antt =====
-- What the four combinators compute, as sets of bits; the result is a range iterator again, and no
-- bit is lost to the fuel.
use forest.Base.{
  ℕ, suc, ◌+◌, ◌≤◌, ◌≡◌, ◌∙◌, inl, Bool, not, xor, ◌&&◌, ◌||◌, List, [], ◌∷◌, arith, length,
}
use forest.BitField.Range.{Range, mem, From, IsRanges, Weak}
use forest.BitField.Combine.{
  Combinator, combine, union, intersection, difference, symmetric_difference,
}
use forest.BitField.Combine.Merge.{mem-merge, merge-IsRanges}
use forest.BitField.Combine.Stream.{Laws, mem-outputs, outputs-Ascending}
use forest.BitField.Combine.Bitwise.{
  union-Laws, intersection-Laws, difference-Laws, symmetric_difference-Laws,
}

pub From-Weak : (a b : ℕ) (rs : List Range) → a ≤ b → From b rs → Weak a rs
From-Weak a b [] l h = tt
From-Weak a b (r ∷ rs) l h =
    (omega arith, omega arith, From-Weak r.end (suc r.end) rs (omega arith) h.2)

-- What `combine` promises of a list of ranges: a range iterator over the bits that `op` selects.
abbrev pub Computes : (Bool → Bool → Bool) → List Range → List Range → List Range → Type 0
Computes op a b out = IsRanges out × ((n : ℕ) → mem n out ≡ op (mem n a) (mem n b))

pub combine-Computes :
    {C : Type 0} {m : Combinator C} {op : Bool → Bool → Bool}
    {Low : ℕ → List Range → List Range → Type 0}
    → Laws m op Low
    → (a b : List Range) → IsRanges a
    → IsRanges b
    → Low 0 a b
    → Computes op a b (combine m a b)
unfolding combine
combine-Computes {m} {op} k a b ha hb low =
    let wa = From-Weak 0 0 a (omega arith) ha in
    let wb = From-Weak 0 0 b (omega arith) hb in
    let asc = outputs-Ascending m k 0 (suc (length a + length b)) m.initial a b 0 0 wa wb low in
    (
      merge-IsRanges _ asc,
      λ n.
          mem-merge n _ asc
          ∙ mem-outputs m k n (suc (length a + length b)) m.initial a b 0 0 wa wb (omega arith),
    )

module _ (a b : List Range) (ha : IsRanges a) (hb : IsRanges b) where
  wa : Weak 0 a
  wa = From-Weak 0 0 a (omega arith) ha

  wb : Weak 0 b
  wb = From-Weak 0 0 b (omega arith) hb

  -- The union of two range iterators is a range iterator over the bits that are in one or in both.
  pub union-Computes : Computes ◌||◌ a b (combine union a b)
  union-Computes = combine-Computes union-Laws a b ha hb (wa, wb)

  -- Their intersection is one over the bits that are in both.
  pub intersection-Computes : Computes ◌&&◌ a b (combine intersection a b)
  intersection-Computes = combine-Computes intersection-Laws a b ha hb (inl wa)

  -- Their difference is one over the bits that are in the first and not in the second.
  pub difference-Computes : Computes (λ x y. x && not y) a b (combine difference a b)
  difference-Computes = combine-Computes difference-Laws a b ha hb wa

  -- Their symmetric difference is one over the bits that are in exactly one.
  pub symmetric_difference-Computes : Computes xor a b (combine symmetric_difference a b)
  symmetric_difference-Computes = combine-Computes symmetric_difference-Laws a b ha hb (wa, wb)
