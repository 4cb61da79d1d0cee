-- ===== src/BitField/Field/Equality.antt =====
-- Range iterators are canonical, so `==` on bit fields is equality as sets of bits.
use forest.Base.{ℕ, suc, ◌≤◌, ◌≡◌, ◌↔◌, refl, ap, sym, ◌∙◌, true, false, List, [], ◌∷◌, arith}
use forest.BitField.Range.{Range, mem, From}
use forest.BitField.Iter.Rank.{mem_low}
use forest.BitField.Field.{BitField, get, eq, eq_ranges}
use forest.BitField.Field.Laws.{IsField, all_ranges-IsRanges, mem-all_ranges}

first_bit : (b : ℕ) (r : Range) (rs : List Range) → From b (r ∷ rs) → mem r.start (r ∷ rs) ≡ true
first_bit b r rs h = ground arith

end_bit : (b : ℕ) (r : Range) (rs : List Range) → From b (r ∷ rs) → mem r.end (r ∷ rs) ≡ false
end_bit b r rs h = ground (arith, mem_low (suc r.end) r.end rs h.2)

Range-ext : (q r : Range) → q.start ≡ r.start → q.end ≡ r.end → q ≡ r
Range-ext q r e f = ground arith

same_start :
    (b : ℕ) (q r : Range) (qs rs : List Range)
    → From b (q ∷ qs)
    → From b (r ∷ rs)
    → ((n : ℕ) → mem n (q ∷ qs) ≡ mem n (r ∷ rs))
    → r.start ≤ q.start
same_start b q r qs rs h k e =
    ground (arith, e q.start, mem_low (suc r.end) q.start rs k.2, first_bit b q qs h)

same_end :
    (b : ℕ) (q r : Range) (qs rs : List Range)
    → From b (q ∷ qs)
    → From b (r ∷ rs)
    → ((n : ℕ) → mem n (q ∷ qs) ≡ mem n (r ∷ rs))
    → q.start ≡ r.start
    → r.end ≤ q.end
same_end b q r qs rs h k e s = ground (arith, e q.end, end_bit b q qs h)

-- Two range iterators over the same bits are the same ranges.
pub ranges_ext :
    (b : ℕ) (qs rs : List Range) → From b qs → From b rs → ((n : ℕ) → mem n qs ≡ mem n rs) → qs ≡ rs
ranges_ext b [] [] h k e = refl
ranges_ext b [] (r ∷ rs) h k e = absurd (ground (arith, e r.start, first_bit b r rs k))
ranges_ext b (q ∷ qs) [] h k e = absurd (ground (arith, e q.start, first_bit b q qs h))
ranges_ext b (q ∷ qs) (r ∷ rs) h k e =
    let e' : (n : ℕ) → mem n (r ∷ rs) ≡ mem n (q ∷ qs) = λ n. sym (e n) in
    let s : q.start ≡ r.start =
      omega (arith, same_start b q r qs rs h k e, same_start b r q rs qs k h e') in
    let t : q.end ≡ r.end =
      omega (arith, same_end b q r qs rs h k e s, same_end b r q rs qs k h e' (sym s)) in
    let k' : From (suc q.end) rs = rw t k.2 in
    let tails : (n : ℕ) → mem n qs ≡ mem n rs =
      λ n. ground (arith, e n, mem_low (suc q.end) n qs h.2, mem_low (suc q.end) n rs k') in
    λ i. Range-ext q r s t i ∷ ranges_ext (suc q.end) qs rs h.2 k' tails i

eq_ranges_iff : (qs rs : List Range) → (eq_ranges qs rs ≡ true) ↔ (qs ≡ rs)
eq_ranges_iff [] [] = (λ e. refl, λ e. refl)
eq_ranges_iff [] (r ∷ rs) = (λ e. absurd (cc), λ e. absurd (cc))
eq_ranges_iff (q ∷ qs) [] = (λ e. absurd (cc), λ e. absurd (cc))
eq_ranges_iff (q ∷ qs) (r ∷ rs) =
    let ih = eq_ranges_iff qs rs in
    (λ e. ground (arith, Range-ext q r, ih.0 (ground arith)), λ e. ground (arith, ih.1))

-- `==` holds exactly when `get` agrees on every bit, whatever the two fields hold as ranges, set
-- and unset bits.
pub eq_iff_get :
    (f g : BitField) → IsField f → IsField g → (eq f g ≡ true) ↔ ((n : ℕ) → get n f ≡ get n g)
unfolding eq
eq_iff_get f g v w = (
  λ e n. sym (mem-all_ranges f v n) ∙ ap (mem n) ((eq_ranges_iff _ _).0 e) ∙ mem-all_ranges g w n,
  λ e. (eq_ranges_iff _ _).1 (
      ranges_ext 0 _ _ (all_ranges-IsRanges f v) (all_ranges-IsRanges g w)
        (λ n. mem-all_ranges f v n ∙ e n ∙ sym (mem-all_ranges g w n))),
)
