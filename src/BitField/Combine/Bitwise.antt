-- ===== src/BitField/Combine/Bitwise.antt =====
-- The four combinators that work bit by bit meet the laws: for each, what it does to a bit, and a
-- bound below its outputs.
use forest.Base.{ℕ, ◌≤◌, refl, ◌⊎◌, Bool, not, xor, ◌&&◌, ◌||◌, List, [], ◌∷◌, arith, min, max}
use forest.BitField.Range.{Range, Weak}
use forest.BitField.Combine.{union, intersection, difference, symmetric_difference}
use forest.BitField.Combine.Stream.{Laws}

Weak-mono : (a b : ℕ) (rs : List Range) → a ≤ b → Weak b rs → Weak a rs
Weak-mono a b [] l h = tt
Weak-mono a b (r ∷ rs) l h = (omega arith, h.1, h.2)

abbrev pub Both : ℕ → List Range → List Range → Type 0
Both b ls rs = Weak b ls × Weak b rs

abbrev pub Left : ℕ → List Range → List Range → Type 0
Left b ls rs = Weak b ls

abbrev pub Either : ℕ → List Range → List Range → Type 0
Either b ls rs = Weak b ls ⊎ Weak b rs

-- `a and not b`
abbrev pub minus : Bool → Bool → Bool
minus a b = a && not b

pub union-Laws : Laws union ◌||◌ Both
union-Laws = record {
  op_false = refl;
  lhs_trims = λ c l r h k e. ground arith;
  rhs_trims = λ c l r h k e. ground arith;
  lhs_bit = λ c l r n x y h k e p q. ground arith;
  rhs_bit = λ c l r n x y h k e p q. ground arith;
  lhs_tail = λ c l. (refl, λ x. ground arith);
  rhs_tail = λ c r. (refl, λ x. refl);
  lhs_low = λ b c l r ls rs h k e u v w.
      ground (arith, Weak-mono b l.end ls, Weak-mono (min l.start r.start) l.end ls);
  rhs_low = λ b c l r ls rs h k e u v w.
      ground (arith, Weak-mono b r.end rs, Weak-mono (min l.start r.start) r.end rs);
  lhs_tail_low = λ b l ls w h t.
      (h.0.0, (Weak-mono _ l.end ls w.1 w.2, tt), (Weak-mono _ l.end ls (omega arith) w.2, tt));
  rhs_tail_low = λ b r rs w h t.
      (h.1.0, (tt, Weak-mono _ r.end rs w.1 w.2), (tt, Weak-mono _ r.end rs (omega arith) w.2));
}

-- After a step of the intersection nothing starts below the larger of the two starts, `x` being
-- the one of the side that moved on.
max_low :
    (x e : ℕ) (ls : List Range) (r : Range) (rs : List Range)
    → x ≤ e
    → r.start ≤ r.end
    → Weak e ls
    → Weak r.end rs
    → Weak (max x r.start) ls ⊎ Weak (max x r.start) (r ∷ rs)
max_low x e ls r rs h k w v = ground (arith, Weak-mono x e ls)

pub intersection-Laws : Laws intersection ◌&&◌ Either
intersection-Laws = record {
  op_false = refl;
  lhs_trims = λ c l r h k e. ground arith;
  rhs_trims = λ c l r h k e. ground arith;
  lhs_bit = λ c l r n x y h k e p q. ground arith;
  rhs_bit = λ c l r n x y h k e p q. ground arith;
  lhs_tail = λ c l x. ground arith;
  rhs_tail = λ c r x. refl;
  lhs_low = λ b c l r ls rs h k e u v w.
      ground (arith, max_low l.start l.end ls r rs, Weak-mono b l.end ls);
  rhs_low = λ b c l r ls rs h k e u v w.
      ground (arith, max_low r.start r.end rs l ls, Weak-mono b r.end rs);
  lhs_tail_low = λ b l ls w h t. absurd (cc);
  rhs_tail_low = λ b r rs w h t. absurd (cc);
}

pub difference-Laws : Laws difference minus Left
difference-Laws = record {
  op_false = refl;
  lhs_trims = λ c l r h k e. ground arith;
  rhs_trims = λ c l r h k e. ground arith;
  lhs_bit = λ c l r n x y h k e p q. ground arith;
  rhs_bit = λ c l r n x y h k e p q. ground arith;
  lhs_tail = λ c l. (refl, λ x. ground arith);
  rhs_tail = λ c r x. refl;
  lhs_low =
      λ b c l r ls rs h k e u v w. ground (arith, Weak-mono b l.end ls, Weak-mono l.start l.end ls);
  rhs_low = λ b c l r ls rs h k e u v w. ground arith;
  lhs_tail_low =
      λ b l ls w h t. (h.0, Weak-mono _ l.end ls w.1 w.2, Weak-mono _ l.end ls (omega arith) w.2);
  rhs_tail_low = λ b r rs w h t. absurd (cc);
}

pub symmetric_difference-Laws : Laws symmetric_difference xor Both
unfolding xor
symmetric_difference-Laws = record {
  op_false = refl;
  lhs_trims = λ c l r h k e. ground arith;
  rhs_trims = λ c l r h k e. ground arith;
  lhs_bit = λ c l r n x y h k e p q. ground arith;
  rhs_bit = λ c l r n x y h k e p q. ground arith;
  lhs_tail = λ c l. (refl, λ x. ground arith);
  rhs_tail = λ c r. (refl, λ x. ground arith);
  lhs_low = λ b c l r ls rs h k e u v w.
      ground (arith, Weak-mono b l.end ls, Weak-mono l.start l.end ls, Weak-mono r.start l.end ls);
  rhs_low = λ b c l r ls rs h k e u v w.
      ground (arith, Weak-mono b r.end rs, Weak-mono l.start r.end rs, Weak-mono r.start r.end rs);
  lhs_tail_low = λ b l ls w h t.
      (h.0.0, (Weak-mono _ l.end ls w.1 w.2, tt), (Weak-mono _ l.end ls (omega arith) w.2, tt));
  rhs_tail_low = λ b r rs w h t.
      (h.1.0, (tt, Weak-mono _ r.end rs w.1 w.2), (tt, Weak-mono _ r.end rs (omega arith) w.2));
}
