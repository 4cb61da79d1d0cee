-- ===== src/BitField/Combine/Cutting.antt =====
-- `Cut` removes the bits of its right side and closes the gaps.
use mathlib.Core.Path.{subst}
use forest.Base.{
  ℕ, zero, suc, ◌+◌, ◌-◌, ◌≤◌, ◌<◌, min, ◌≡◌, refl, ap, ◌∙◌, inl, inr, Bool, false, ◌||◌, List, [],
  ◌∷◌, arith, leb, ltb, Bool-cases, length, leb→le,
}
use forest.BitField.Range.{Range, range, len, mem, contains, Weak, Ascending, IsRanges, Fit}
use forest.BitField.Combine.{cut, combine, outputs}
use forest.BitField.Combine.Merge.{mem-merge, merge-IsRanges}
use forest.BitField.Combine.Stream.{state, mem-keep}
use forest.BitField.Combine.Correct.{From-Weak}
use forest.BitField.Iter.Rank.{rank}
use forest.BitField.Combine.CutSteps.{
  Weak-mono, rank-below, rank-le, cut_tail, part, cut_lhs, shortened, cut_rhs, cut-Ascending,
}

mem-below : (b k : ℕ) (rs : List Range) → Ascending b rs → k < b → mem k rs ≡ false
mem-below b k [] a h = refl
mem-below b k (r ∷ rs) a h = ground (arith, mem-below r.start k rs a.2)

Weak-below : (b k : ℕ) (rs : List Range) → Weak b rs → k < b → mem k rs ≡ false
Weak-below b k [] w h = refl
Weak-below b k (r ∷ rs) w h = ground (arith, Weak-below r.end k rs w.2)

-- The step on the left range, for a bit before the end of its part.
lhs_early :
    (c n k : ℕ) (l r : Range) {x y : Bool}
    → c ≤ n
    → c ≤ l.start
    → k ≡ n - c
    → n < min l.end r.start
    → x ≡ false
    → y ≡ false
    → (contains k (part c l r) || x) ≡ (contains n l || y)
lhs_early c n k l r h h' e o p q = ground arith

-- The same for a bit behind its part.
lhs_late :
    (c n k : ℕ) (l r : Range) {x y : Bool}
    → c ≤ n
    → min l.end r.start - c ≤ k
    → min l.end r.start ≤ n
    → l.end ≤ r.end
    → contains n r ≡ false
    → x ≡ y
    → (contains k (part c l r) || x) ≡ (contains n l || y)
lhs_late c n k l r h e p q a f = ground arith

-- The step on the right range, for a bit behind it.
rhs_late :
    (c n k : ℕ) (l r : Range) {x : Bool} (y : Bool)
    → r.start - c ≤ k
    → r.end < l.end
    → r.end ≤ n
    → x ≡ (contains n (shortened l r) || y)
    → (contains k (part c l r) || x) ≡ (contains n l || y)
rhs_late c n k l r y h e p f = ground arith

-- A bit that is not cut out moves left by its rank among those that are.
mem-cut-outputs :
    (n fuel c p : ℕ) (ls rs : List Range)
    → c ≤ p
    → p ≤ n
    → Weak p ls
    → Weak p rs
    → Fit ls
    → length ls + length rs < fuel
    → mem n rs ≡ false
    → mem (n - c - rank n rs) (outputs cut fuel (state c ls rs)) ≡ mem n ls
unfolding outputs
mem-cut-outputs n zero c p ls rs h i wl wr f e o = absurd (omega arith)
mem-cut-outputs n (suc fuel) c p [] [] h i wl wr f e o = refl
mem-cut-outputs n (suc fuel) c p [] (r ∷ rs) h i wl wr f e o = refl
mem-cut-outputs n (suc fuel) c p (l ∷ ls) [] h i wl wr f e o =
    let rest = outputs cut fuel (state c ls []) in
    ap (mem (n - c - 0)) (cut_tail fuel c l ls (omega arith) wl.1 f.0)
    ∙ mem-keep (n - c - 0) (range (l.start - c) (l.end - c)) rest
    ∙ elim (Bool-cases (ltb n l.end)) [
      | inl inside ↦
          let below =
            mem-below (l.end - c) (n - c - 0) rest
              (cut-Ascending fuel c l.end ls [] (omega arith) wl.2 tt f.1) (ground arith) in
          ground (arith, below, Weak-below l.end n ls wl.2)
      | inr beyond ↦
          let over : l.end ≤ n = ground arith in
          let ih =
            mem-cut-outputs n fuel c l.end ls [] (omega arith) over wl.2 tt f.1 (omega arith)
              refl in
          ground (arith, ih)
    ]
mem-cut-outputs n (suc fuel) c p (l ∷ ls) (r ∷ rs) h i wl wr f e o =
    elim (Bool-cases (leb l.end r.end)) [
      | inl le ↦
          let rest = outputs cut fuel (state c ls (r ∷ rs)) in
          let k = n - c - rank n (r ∷ rs) in
          let q = min l.end r.start in
          let le' : l.end ≤ r.end = leb→le _ _ le in
          let wl' = Weak-mono q l.end ls (omega arith) wl.2 in
          let wr' : Weak q (r ∷ rs) = (omega arith, wr.1, wr.2) in
          let apart : contains n r ≡ false = ground arith in
          ap (mem k) (cut_lhs fuel c l r ls rs (omega arith) (omega arith) wl.1 f.0 le')
          ∙ mem-keep k (part c l r) rest
          ∙ elim (Bool-cases (ltb n q)) [
            | inl early ↦
                let early' : n < q = ground arith in
                let zero_rank : rank n (r ∷ rs) ≡ 0 = rank-below q n (r ∷ rs) wr' (omega arith) in
                let below =
                  mem-below (q - c) k rest
                    (cut-Ascending fuel c q ls (r ∷ rs) (omega arith) wl' wr' f.1) (omega arith) in
                let none_behind = Weak-below l.end n ls wl.2 (omega arith) in
                lhs_early c n k l r (omega arith) (omega arith) (omega arith) early' below
                  none_behind
            | inr late ↦
                let late' : q ≤ n = ground arith in
                let ih =
                  mem-cut-outputs n fuel c q ls (r ∷ rs) (omega arith) late' wl' wr' f.1
                    (omega arith) o in
                let few = rank-le q n (r ∷ rs) wr' late' in
                lhs_late c n k l r (omega arith) (omega arith) late' le' apart ih
          ]
      | inr gt ↦
          let rest = outputs cut fuel (state (c + len r) (shortened l r ∷ ls) rs) in
          let k = n - c - rank n (r ∷ rs) in
          let gt' : r.end < l.end = ground arith in
          let wl' : Weak r.end (shortened l r ∷ ls) = (omega arith, omega arith, wl.2) in
          let apart : contains n r ≡ false = ground arith in
          ap (mem k) (cut_rhs fuel c l r ls rs (omega arith) (omega arith) wl.1 wr.1 f.0 gt)
          ∙ mem-keep k (part c l r) rest
          ∙ elim (Bool-cases (ltb n r.end)) [
            | inl early ↦
                let early' : n < r.start = ground arith in
                let zero_rank : rank n (r ∷ rs) ≡ 0 =
                  rank-below r.start n (r ∷ rs) (omega arith, wr.1, wr.2) (omega arith) in
                let below =
                  mem-below (r.end - (c + len r)) k rest
                    (cut-Ascending fuel (c + len r) r.end (shortened l r ∷ ls) rs (omega arith) wl'
                      wr.2 f)
                    (omega arith) in
                let none_behind = Weak-below l.end n ls wl.2 (omega arith) in
                lhs_early c n k l r (omega arith) (omega arith) (omega arith) (omega arith) below
                  none_behind
            | inr late ↦
                let late' : r.end ≤ n = ground arith in
                let ih =
                  mem-cut-outputs n fuel (c + len r) r.end (shortened l r ∷ ls) rs (omega arith)
                    late' wl' wr.2 f (omega arith) (ground arith) in
                let few = rank-le r.end n rs wr.2 late' in
                let same : n - (c + len r) - rank n rs ≡ k = omega arith in
                rhs_late c n k l r (mem n ls) (omega arith) gt' late'
                  (subst (λ j. mem j rest ≡ mem n (shortened l r ∷ ls)) same ih)
          ]
    ]

module _ (a b : List Range) (ha : IsRanges a) (hb : IsRanges b) (fit : Fit a) where
  cut_stream : Ascending 0 (outputs cut (suc (length a + length b)) (state 0 a b))
  cut_stream =
      cut-Ascending (suc (length a + length b)) 0 0 a b (omega arith)
        (From-Weak 0 0 a (omega arith) ha) (From-Weak 0 0 b (omega arith) hb) fit

  -- Cutting one range iterator, whose ends are `usize` values, by another gives a range iterator in
  -- which each bit that is not cut out has moved left by the number of cut bits below it.
  pub cut_lem :
      IsRanges (combine cut a b)
      × ((n : ℕ) → mem n b ≡ false → mem (n - rank n b) (combine cut a b) ≡ mem n a)
  unfolding combine
  cut_lem = (
    merge-IsRanges _ cut_stream,
    λ n e.
        let moved : n - rank n b ≡ n - 0 - rank n b = omega arith in
        mem-merge (n - rank n b) _ cut_stream
        ∙ ap (λ k. mem k (outputs cut (suc (length a + length b)) (state 0 a b))) moved
        ∙ mem-cut-outputs n (suc (length a + length b)) 0 0 a b (omega arith) (omega arith)
            (From-Weak 0 0 a (omega arith) ha) (From-Weak 0 0 b (omega arith) hb) fit (omega arith)
            e,
  )
