-- ===== src/BitField/Iter/Runs.antt =====
-- `ranges_from_bits` on strictly ascending bits gives a range iterator over those bits.
use forest.Base.{
  ℕ, suc, ◌+◌, ◌-◌, ◌≤◌, ◌<◌, ◌≡◌, refl, ap, ◌∙◌, inl, inr, false, ◌||◌, List, [], ◌∷◌, arith, ◌==◌,
  Bool-cases, ==_iff,
}
use forest.Base.Words.{add_usize-eq, usize_mod}
use native.Mathlib.Numerals.{add-one}
use forest.BitField.Range.{range, mem, contains, From, IsRanges}
use forest.BitField.Bits.{has, Strict, Below}
use forest.BitField.Iter.{run_from, ranges_from_bits}

-- Bits that have a successor in `usize`.
abbrev pub max_bit : ℕ
max_bit = usize_mod - 1

run_from-next :
    (s e x : ℕ) (bits : List ℕ)
    → x ≡ e
    → suc e ≤ max_bit
    → run_from s e (x ∷ bits) ≡ run_from s (suc e) bits
unfolding run_from
run_from-next s e x bits h k =
    rw ((==_iff x e).1 h, run_from, add_usize-eq e 1 (omega arith))
      (ap (λ y. run_from s y bits) (omega arith))

run_from-gap :
    (s e x : ℕ) (bits : List ℕ)
    → e < x
    → suc x ≤ max_bit
    → run_from s e (x ∷ bits) ≡ range s e ∷ run_from x (suc x) bits
unfolding run_from
run_from-gap s e x bits h k =
    let apart : (x == e) ≡ false = ground arith in
    rw (apart, run_from, add_usize-eq x 1 (omega arith))
      (ap (λ y. range s e ∷ run_from x y bits) (omega arith))

run_from-last : (s e : ℕ) → run_from s e [] ≡ range s e ∷ []
unfolding run_from
run_from-last s e = refl

run_from-From :
    (b s e : ℕ) (bits : List ℕ)
    → b ≤ s
    → s < e
    → e ≤ max_bit
    → Strict e bits
    → Below max_bit bits
    → From b (run_from s e bits)
run_from-From b s e [] l h k st bd = rw run_from-last (l, h, tt)
run_from-From b s e (x ∷ bits) l h k st bd = elim (Bool-cases (x == e)) [
  | inl next ↦ rw (run_from-next s e x bits ((==_iff x e).0 next) (ground arith)) (
      run_from-From b s (suc e) bits l (omega arith) (ground arith)
        (rw ((==_iff x e).0 next) at st.1) bd.1)
  | inr gap ↦
      rw (run_from-gap s e x bits (ground arith) bd.0)
        (l, h, run_from-From (suc e) x (suc x) bits (ground arith) (omega arith) bd.0 st.1 bd.1)
]

mem-run_from :
    (n s e : ℕ) (bits : List ℕ)
    → s < e
    → e ≤ max_bit
    → Strict e bits
    → Below max_bit bits
    → mem n (run_from s e bits) ≡ (contains n (range s e) || has n bits)
mem-run_from n s e [] h k st bd = rw run_from-last refl
mem-run_from n s e (x ∷ bits) h k st bd = elim (Bool-cases (x == e)) [
  | inl next ↦
      let e' = (==_iff x e).0 next in
      rw
        (
          run_from-next s e x bits e' (ground arith),
          mem-run_from n s (suc e) bits (omega arith) (ground arith) (rw e' at st.1) bd.1,
        )
        (ground arith)
  | inr gap ↦ rw (run_from-gap s e x bits (ground arith) bd.0) (
      ap (λ y. contains n (range s e) || y)
        (mem-run_from n x (suc x) bits (omega arith) bd.0 st.1 bd.1 ∙ ground arith))
]

pub ranges_from_bits-IsRanges :
    (bits : List ℕ) → Strict 0 bits → Below max_bit bits → IsRanges (ranges_from_bits bits)
unfolding ranges_from_bits
ranges_from_bits-IsRanges [] st bd = tt
ranges_from_bits-IsRanges (x ∷ bits) st bd = rw (add_usize-eq x 1 (omega arith)) (
    run_from-From 0 x (x + 1) bits (omega arith) (omega arith) (omega arith) (rw add-one st.1) bd.1)

pub mem-ranges_from_bits :
    (n : ℕ) (bits : List ℕ)
    → Strict 0 bits
    → Below max_bit bits
    → mem n (ranges_from_bits bits) ≡ has n bits
unfolding ranges_from_bits
mem-ranges_from_bits n [] st bd = refl
mem-ranges_from_bits n (x ∷ bits) st bd =
    rw
      (
        add_usize-eq x 1 (omega arith),
        mem-run_from n x (x + 1) bits (omega arith) (omega arith) (rw add-one st.1) bd.1,
      )
      (ground arith)
