-- ===== src/BitField/Combine/Merge.antt =====
-- `Merge` joins ranges that overlap or touch: the same bits, now as a range iterator.
use forest.Base.{
  ℕ, suc, ◌≤◌, ◌<◌, max, ◌≡◌, refl, ap, ◌∙◌, inl, inr, Bool, ◌||◌, List, [], ◌∷◌, arith, ltb,
  Bool-cases,
}
use forest.BitField.Range.{Range, range, mem, contains, From, IsRanges, Ascending}
use forest.BitField.Combine.{merge_from, merge}

contains-join :
    (n : ℕ) (r next : Range)
    → r.start < r.end
    → r.start ≤ next.start
    → next.start ≤ r.end
    → next.start < next.end
    → (x : Bool)
    → (contains n (range r.start (max r.end next.end)) || x)
      ≡ (contains n r || (contains n next || x))
contains-join n r next h k l m x = ground arith

pub Ascending-mono : {a b : ℕ} (rs : List Range) → a ≤ b → Ascending b rs → Ascending a rs
Ascending-mono [] l h = tt
Ascending-mono (r ∷ rs) l h = (omega arith, h.1, h.2)

mem-merge_from :
    (n : ℕ) (r : Range) (rs : List Range)
    → r.start < r.end
    → Ascending r.start rs
    → mem n (merge_from r rs) ≡ mem n (r ∷ rs)
unfolding merge_from
mem-merge_from n r [] h a = refl
mem-merge_from n r (next ∷ rest) h a = elim (Bool-cases (ltb r.end next.start)) [
  | inl apart ↦ rw (apart, mem) (ap (λ x. contains n r || x) (mem-merge_from n next rest a.1 a.2))
  | inr touch ↦
      rw (touch, mem)
        (mem-merge_from n (range r.start (max r.end next.end)) rest (omega arith)
            (Ascending-mono rest a.0 a.2)
          ∙ contains-join n r next h a.0 (ground arith) a.1 (mem n rest))
]

merge_from-From :
    (b : ℕ) (r : Range) (rs : List Range)
    → b ≤ r.start
    → r.start < r.end
    → Ascending r.start rs
    → From b (merge_from r rs)
unfolding merge_from
merge_from-From b r [] l h a = (l, h, tt)
merge_from-From b r (next ∷ rest) l h a = elim (Bool-cases (ltb r.end next.start)) [
  | inl apart ↦
      rw (apart, From) (l, h, merge_from-From (suc r.end) next rest (ground arith) a.1 a.2)
  | inr touch ↦
      rw (touch, From)
        (merge_from-From b (range r.start (max r.end next.end)) rest l (omega arith)
          (Ascending-mono rest a.0 a.2))
]

pub mem-merge : (n : ℕ) (rs : List Range) → Ascending 0 rs → mem n (merge rs) ≡ mem n rs
unfolding merge
mem-merge n [] a = refl
mem-merge n (r ∷ rs) a = mem-merge_from n r rs a.1 a.2

pub merge-IsRanges : (rs : List Range) → Ascending 0 rs → IsRanges (merge rs)
unfolding merge
merge-IsRanges [] a = tt
merge-IsRanges (r ∷ rs) a = merge_from-From 0 r rs a.0 a.1 a.2
