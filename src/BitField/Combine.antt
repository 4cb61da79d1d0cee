-- ===== src/BitField/Combine.antt =====
-- Combining two range iterators: utils/bitfield/src/iter/combine.rs. An iterator is the list of
-- the ranges that it has still to give, so `Lookahead` is that list with its head in view.
pub mod Merge
pub mod Stream
pub mod Bitwise
pub mod Correct
pub mod CutSteps
pub mod Cutting
mod Tests
use forest.Base.{
  ℕ, zero, suc, ◌+◌, ◌-◌, min, max, Bool, true, false, List, [], ◌∷◌, Option, none, some, leb, ltb,
  length, if◌then◌else◌,
}
use forest.Base.Words.{add_usize, sub_usize}
use forest.BitField.Range.{Range, range, len}

-- The trait `Combinator`, `C` being its own state. `advance_lhs` gives the new state, the output
-- range and the right range as it leaves it; `advance_rhs` the left range.
pub record Combinator (C : Type 0) : Type 0 where
  pub initial : C
  pub advance_lhs : C → Range → Range → C × Range × Range
  pub advance_rhs : C → Range → Range → C × Range × Range
  pub advance_lhs_tail : C → Range → Option Range
  pub advance_rhs_tail : C → Range → Option Range

abbrev pub union : Combinator (Unit {0})
union = record {
  initial = tt;
  advance_lhs = λ c lhs rhs. (c, range (min lhs.start rhs.start) lhs.end, rhs);
  advance_rhs = λ c lhs rhs. (c, range (min lhs.start rhs.start) rhs.end, lhs);
  advance_lhs_tail = λ c lhs. some lhs;
  advance_rhs_tail = λ c rhs. some rhs;
}

abbrev pub intersection : Combinator (Unit {0})
intersection = record {
  initial = tt;
  advance_lhs = λ c lhs rhs. (c, range (max lhs.start rhs.start) lhs.end, rhs);
  advance_rhs = λ c lhs rhs. (c, range (max lhs.start rhs.start) rhs.end, lhs);
  advance_lhs_tail = λ c lhs. none;
  advance_rhs_tail = λ c rhs. none;
}

abbrev pub difference : Combinator (Unit {0})
difference = record {
  initial = tt;
  advance_lhs = λ c lhs rhs. (c, range lhs.start (min lhs.end rhs.start), rhs);
  advance_rhs = λ c lhs rhs.
      (c, range lhs.start (min lhs.end rhs.start), range (max lhs.start rhs.end) lhs.end);
  advance_lhs_tail = λ c lhs. some lhs;
  advance_rhs_tail = λ c rhs. none;
}

-- `SymmetricDifference::advance`: the output, and the right range as it leaves it.
abbrev pub sym_advance : Range → Range → Range × Range
sym_advance left right =
    if leb left.start right.start
    then (range left.start (min left.end right.start), range (max right.start left.end) right.end)
    else (range right.start left.start, range left.end right.end)

abbrev pub symmetric_difference : Combinator (Unit {0})
symmetric_difference = record {
  initial = tt;
  advance_lhs = λ c lhs rhs. (c, (sym_advance lhs rhs).0, (sym_advance lhs rhs).1);
  advance_rhs = λ c lhs rhs. (c, (sym_advance rhs lhs).0, (sym_advance rhs lhs).1);
  advance_lhs_tail = λ c lhs. some lhs;
  advance_rhs_tail = λ c rhs. some rhs;
}

-- `Cut::offset`: an output range, moved left by the number of bits cut so far.
abbrev pub offset : ℕ → Range → Range
offset c r = range (sub_usize r.start c) (sub_usize r.end c)

-- The state is the field `offset`.
abbrev pub cut : Combinator ℕ
cut = record {
  initial = 0;
  advance_lhs = λ c lhs rhs. (c, offset c (range lhs.start (min lhs.end rhs.start)), rhs);
  advance_rhs = λ c lhs rhs. (
    add_usize c (len rhs),
    offset c (range lhs.start (min lhs.end rhs.start)),
    range (max lhs.start rhs.end) lhs.end,
  );
  advance_lhs_tail = λ c lhs. some (offset c lhs);
  advance_rhs_tail = λ c rhs. none;
}

-- The struct `_Combine`, with what its two `Lookahead`s hold.
pub record Combine (C : Type 0) : Type 0 where
  pub lhs : List Range
  pub rhs : List Range
  pub combinator : C

module _ {C : Type 0} (m : Combinator C) where
  -- The `match` of `_Combine::next_range` on what the two `Lookahead`s show.
  pub peeked : C → List Range → List Range → Option Range × Combine C
  peeked c (l ∷ ls) (r ∷ rs) =
      if leb l.end r.end
      then (let (c', out, r') = m.advance_lhs c l r in
          (some out, record { lhs = ls; rhs = r' ∷ rs; combinator = c' }))
      else (let (c', out, l') = m.advance_rhs c l r in
          (some out, record { lhs = l' ∷ ls; rhs = rs; combinator = c' }))
  peeked c (l ∷ ls) [] = (m.advance_lhs_tail c l, record { lhs = ls; rhs = []; combinator = c })
  peeked c [] (r ∷ rs) = (m.advance_rhs_tail c r, record { lhs = []; rhs = rs; combinator = c })
  peeked c [] [] = (none, record { lhs = []; rhs = []; combinator = c })

  pub next_range : Combine C → Option Range × Combine C
  unfolding peeked
  next_range s = peeked s.combinator s.lhs s.rhs

-- The filter on empty ranges in `_Combine::next`.
abbrev pub keep : Range → List Range → List Range
keep r rest = if ltb r.start r.end then r ∷ rest else rest

-- The first `None` ends the sequence.
abbrev pub emit : Option Range → List Range → List Range
emit none rest = []
emit (some r) rest = keep r rest

module _ {C : Type 0} (m : Combinator C) where
  -- What repeated calls of `_Combine::next` give up to the first `None`, on fuel for the ranges
  -- that are left.
  pub outputs : ℕ → Combine C → List Range
  unfolding next_range
  outputs zero s = []
  outputs (suc fuel) s = let rest = outputs fuel (next_range m s).1 in emit (next_range m s).0 rest

-- `Merge::next` and the calls that follow it, from the range that it has taken.
unfoldable pub merge_from : Range → List Range → List Range
merge_from r [] = r ∷ []
merge_from r (next ∷ rest) = elim (ltb r.end next.start) [
  | true ↦ r ∷ merge_from next rest
  | false ↦ merge_from (range r.start (max r.end next.end)) rest
]

unfoldable pub merge : List Range → List Range
unfolding merge_from
merge [] = []
merge (r ∷ rs) = merge_from r rs

-- `Combine::new(a, b)`, run to its end.
unfoldable pub combine : {C : Type 0} → Combinator C → List Range → List Range → List Range
unfolding outputs merge next_range
combine m a b =
    merge
      (outputs m (suc (length a + length b)) (record { lhs = a; rhs = b; combinator = m.initial }))
