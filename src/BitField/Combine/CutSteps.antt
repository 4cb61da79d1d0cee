-- ===== src/BitField/Combine/CutSteps.antt =====
-- The steps of `_Combine` with `Cut`, and the order of what they give.
use mathlib.Core.Path.{subst}
use forest.Base.{
  ltb→lt, ℕ, zero, suc, ◌+◌, ◌-◌, ◌≤◌, ◌<◌, min, max, ◌≡◌, refl, ap, sym, ◌∙◌, inl, inr, false,
  List, [], ◌∷◌, arith, leb, ltb, Bool-cases, leb→le,
}
use forest.Base.Words.{add_usize, add_usize-eq, sub_usize-eq, usize_mod}
use forest.BitField.Range.{Range, range, len, Weak, Ascending, Fit}
use forest.BitField.Combine.{cut, offset, outputs, keep}
use forest.BitField.Combine.Merge.{Ascending-mono}
use forest.BitField.Combine.Stream.{state, outputs-lhs, outputs-rhs}
use forest.BitField.Iter.Rank.{rank}

pub Weak-mono : (a b : ℕ) (rs : List Range) → a ≤ b → Weak b rs → Weak a rs
Weak-mono a b [] l w = tt
Weak-mono a b (r ∷ rs) l w = (omega arith, w.1, w.2)

pub rank-below : (b n : ℕ) (rs : List Range) → Weak b rs → n ≤ b → rank n rs ≡ 0
rank-below b n [] w l = refl
rank-below b n (r ∷ rs) w l = omega (arith, rank-below r.end n rs w.2 (omega arith))

pub rank-le : (b n : ℕ) (rs : List Range) → Weak b rs → b ≤ n → rank n rs ≤ n - b
rank-le b n [] w l = omega arith
rank-le b n (r ∷ rs) w l = elim (Bool-cases (leb r.end n)) [
  | inl over ↦ omega (arith, rank-le r.end n rs w.2 (leb→le _ _ over), leb→le _ _ over)
  | inr under ↦
      let below : n < r.end = ground arith in omega (arith, rank-below r.end n rs w.2 (omega arith))
]

-- Within the bounds an offset does not wrap.
offset-eq :
    (c : ℕ) (r : Range)
    → c ≤ r.start
    → c ≤ r.end
    → r.start < usize_mod
    → r.end < usize_mod
    → offset c r ≡ range (r.start - c) (r.end - c)
offset-eq c r h k l m = rw (sub_usize-eq r.start c h l, sub_usize-eq r.end c k m) refl

pub cut_tail :
    (fuel c : ℕ) (l : Range) (ls : List Range)
    → c ≤ l.start
    → l.start ≤ l.end
    → l.end < usize_mod
    → outputs cut (suc fuel) (state c (l ∷ ls) [])
      ≡ keep (range (l.start - c) (l.end - c)) (outputs cut fuel (state c ls []))
unfolding outputs
cut_tail fuel c l ls h k m =
    ap (λ q. keep q (outputs cut fuel (state c ls [])))
      (offset-eq c l h (omega arith) (omega arith) m)

-- What a step gives that has a range on both sides.
abbrev pub part : ℕ → Range → Range → Range
part c l r = range (l.start - c) (min l.end r.start - c)

part-eq :
    (c : ℕ) (l r : Range)
    → c ≤ l.start
    → c ≤ r.start
    → l.start ≤ l.end
    → l.end < usize_mod
    → offset c (range l.start (min l.end r.start)) ≡ part c l r
part-eq c l r h k m n =
    offset-eq c (range l.start (min l.end r.start)) h (omega arith) (omega arith) (omega arith)

pub cut_lhs :
    (fuel c : ℕ) (l r : Range) (ls rs : List Range)
    → c ≤ l.start
    → c ≤ r.start
    → l.start ≤ l.end
    → l.end < usize_mod
    → l.end ≤ r.end
    → outputs cut (suc fuel) (state c (l ∷ ls) (r ∷ rs))
      ≡ keep (part c l r) (outputs cut fuel (state c ls (r ∷ rs)))
cut_lhs fuel c l r ls rs h k m n o =
    outputs-lhs cut fuel c l r ls rs o
    ∙ ap (λ q. keep q (outputs cut fuel (state c ls (r ∷ rs)))) (part-eq c l r h k m n)

-- The left range after the right one is used up.
abbrev pub shortened : Range → Range → Range
shortened l r = range (max l.start r.end) l.end

pub cut_rhs :
    (fuel c : ℕ) (l r : Range) (ls rs : List Range)
    → c ≤ l.start
    → c ≤ r.start
    → l.start ≤ l.end
    → r.start ≤ r.end
    → l.end < usize_mod
    → leb l.end r.end ≡ false
    → outputs cut (suc fuel) (state c (l ∷ ls) (r ∷ rs))
      ≡ keep (part c l r) (outputs cut fuel (state (c + len r) (shortened l r ∷ ls) rs))
cut_rhs fuel c l r ls rs h k m m' n o =
    let small : c + len r < usize_mod = ground arith in
    outputs-rhs cut fuel c l r ls rs o
    ∙ ap (λ q. keep q (outputs cut fuel (state (add_usize c (len r)) (shortened l r ∷ ls) rs)))
        (part-eq c l r h k m n)
    ∙ ap (λ d. keep (part c l r) (outputs cut fuel (state d (shortened l r ∷ ls) rs)))
        (add_usize-eq c (len r) small)

keep_if-Ascending :
    (b : ℕ) (r : Range) (rest : List Range)
    → b ≤ r.start
    → (r.start < r.end → Ascending r.start rest)
    → Ascending b rest
    → Ascending b (keep r rest)
keep_if-Ascending b r rest l f a = elim (Bool-cases (ltb r.start r.end)) [
  | inl e ↦ rw (e, keep, Ascending) (l, ltb→lt _ _ e, f (ltb→lt _ _ e))
  | inr e ↦ rw (e, keep, Ascending) a
]

-- Lower bounds of outputs do not decrease.
pub cut-Ascending :
    (fuel c p : ℕ) (ls rs : List Range)
    → c ≤ p
    → Weak p ls
    → Weak p rs
    → Fit ls
    → Ascending (p - c) (outputs cut fuel (state c ls rs))
unfolding outputs
cut-Ascending zero c p ls rs h wl wr f = tt
cut-Ascending (suc fuel) c p [] [] h wl wr f = tt
cut-Ascending (suc fuel) c p [] (r ∷ rs) h wl wr f = tt
cut-Ascending (suc fuel) c p (l ∷ ls) [] h wl wr f =
    subst (Ascending (p - c)) (sym (cut_tail fuel c l ls (omega arith) wl.1 f.0)) (
      keep_if-Ascending (p - c) (range (l.start - c) (l.end - c)) _ (omega arith)
        (λ e.
          cut-Ascending fuel c l.start ls [] (omega arith) (Weak-mono l.start l.end ls wl.1 wl.2) tt
            f.1)
        (cut-Ascending fuel c p ls [] h (Weak-mono p l.end ls (omega arith) wl.2) tt f.1))
cut-Ascending (suc fuel) c p (l ∷ ls) (r ∷ rs) h wl wr f = elim (Bool-cases (leb l.end r.end)) [
  | inl le ↦
      let rest = λ (q : ℕ) (a : c ≤ q) (b : q ≤ l.end) (d : q ≤ r.start).
        cut-Ascending fuel c q ls (r ∷ rs) a (Weak-mono q l.end ls b wl.2) (d, wr.1, wr.2) f.1 in
      subst (Ascending (p - c))
        (sym (cut_lhs fuel c l r ls rs (omega arith) (omega arith) wl.1 f.0 (leb→le _ _ le)))
        (keep_if-Ascending (p - c) (part c l r) _ (omega arith)
          (λ e. rest l.start (omega arith) wl.1 (omega arith)) (rest p h (omega arith) wr.0))
  | inr gt ↦
      let gt' : r.end < l.end = ground arith in
      let rest =
        cut-Ascending fuel (c + len r) r.end (shortened l r ∷ ls) rs (omega arith)
          (omega arith, omega arith, wl.2) (Weak-mono r.end r.end rs (omega arith) wr.2) f in
      let same : r.end - (c + len r) ≡ r.start - c = omega arith in
      subst (Ascending (p - c))
        (sym (cut_rhs fuel c l r ls rs (omega arith) (omega arith) wl.1 wr.1 f.0 gt))
        (keep_if-Ascending (p - c) (part c l r) _ (omega arith)
          (λ e. Ascending-mono _ (omega arith) rest) (Ascending-mono _ (omega arith) rest))
]
