-- ===== src/BitField/Field/Search.antt =====
-- Searches in lists of bits and of ranges: flattening, filtering, the first and the last element.
use forest.Base.{
  ℕ, zero, suc, ◌+◌, ◌-◌, ◌≤◌, ◌<◌, ◌≡◌, refl, ap, ◌∙◌, inl, inr, Bool, true, false, not, ◌&&◌,
  ◌||◌, List, [], ◌∷◌, ◌++◌, none, some, arith, leb, ltb, ◌==◌, ==_iff, is_empty as empty_list,
  Bool-cases, Option-cases,
}
use forest.Base.Words.{add_usize-eq}
use forest.BitField.Range.{Range, mem, IsRanges, From, len}
use forest.BitField.Iter.Runs.{max_bit}
use forest.BitField.Bits.{has, Strict, Below}
use forest.BitField.Field.{
  bits_from, flatten, without, find_absent, all_in, min_bit, min_range, last, last_range,
}

pub not_true : {b : Bool} → ((b ≡ true) → ⊥) → b ≡ false
not_true {b = true} h = absurd (h refl)
not_true {b = false} h = refl

pub clash : {b : Bool} → b ≡ true → b ≡ false → ⊥
clash h k = cc

pub has-append : (n : ℕ) (xs ys : List ℕ) → has n (xs ++ ys) ≡ (has n xs || has n ys)
has-append n [] ys = refl
has-append n (x ∷ xs) ys = ground (arith, has-append n xs ys)

pub has-bits_from : (n k s : ℕ) → has n (bits_from k s) ≡ (leb s n && ltb n (s + k))
unfolding bits_from
has-bits_from n zero s = ground arith
has-bits_from n (suc k) s = ground (arith, has-bits_from n k (suc s))

pub has-flatten : (n : ℕ) (rs : List Range) → has n (flatten rs) ≡ mem n rs
unfolding flatten
has-flatten n [] = refl
has-flatten n (r ∷ rs) =
    has-append n (bits_from (len r) r.start) (flatten rs)
    ∙ ground (arith, has-bits_from n (len r) r.start, has-flatten n rs)

pub bits_from-Strict :
    (b k s : ℕ) (ys : List ℕ) → b ≤ s → Strict (s + k) ys → Strict b (bits_from k s ++ ys)
unfolding bits_from
bits_from-Strict b zero s [] l h = tt
bits_from-Strict b zero s (y ∷ ys) l h = (omega arith, h.1)
bits_from-Strict b (suc k) s ys l h = (
  l,
  bits_from-Strict (suc s) k (suc s) ys (omega arith)
      (let e : s + suc k ≡ suc s + k = omega arith in rw e at h),
)

pub Strict-mono : (a b : ℕ) (xs : List ℕ) → a ≤ b → Strict b xs → Strict a xs
Strict-mono a b [] l h = tt
Strict-mono a b (x ∷ xs) l h = (omega arith, h.1)

pub flatten-Strict : (b : ℕ) (rs : List Range) → From b rs → Strict b (flatten rs)
unfolding flatten
flatten-Strict b [] h = tt
flatten-Strict b (r ∷ rs) h = bits_from-Strict b (len r) r.start (flatten rs) h.0 (
    Strict-mono (r.start + len r) (suc r.end) (flatten rs) (omega arith)
      (flatten-Strict (suc r.end) rs h.2))

pub has-without : (n : ℕ) (u xs : List ℕ) → has n (without u xs) ≡ (has n xs && not (has n u))
has-without n u [] = refl
has-without n u (x ∷ xs) = elim (Bool-cases (x == n)) [
  | inl e ↦ ground (arith, has-without n u xs, ap (λ y. has y u) ((==_iff x n).0 e))
  | inr e ↦ ground (arith, has-without n u xs)
]

pub without-Strict : (b : ℕ) (u xs : List ℕ) → Strict b xs → Strict b (without u xs)
without-Strict b u [] h = tt
without-Strict b u (x ∷ xs) h =
    ground (arith, without-Strict (suc x) u xs h.1, Strict-mono b (suc x) (without u xs))

-- A strictly ascending list has no bit below its bound.
pub Strict-low : (b n : ℕ) (xs : List ℕ) → Strict b xs → has n xs ≡ true → ¬ (n < b)
Strict-low b n [] h e l = absurd (cc)
Strict-low b n (x ∷ xs) h e l = ground (arith, Strict-low (suc x) n xs h.1)

-- A found bit is the least of a strictly ascending list that the set lacks.
pub find_absent-some :
    (b m : ℕ) (u xs : List ℕ)
    → Strict b xs
    → find_absent u xs ≡ some m
    → (b ≤ m)
      × (has m xs ≡ true)
      × (has m u ≡ false)
      × ((n : ℕ) → n < m → has n xs ≡ true → has n u ≡ true)
find_absent-some b m u [] h e = absurd (cc)
find_absent-some b m u (x ∷ xs) h e = elim (Bool-cases (has x u)) [
  | inl skip ↦
      let (l, p, q, r) = find_absent-some (suc x) m u xs h.1 (ground arith) in
      (
        omega arith,
        ground arith,
        q,
        λ n k i. elim (Bool-cases (x == n)) [
          | inl same ↦ rw (← (==_iff x n).0 same) skip
          | inr other ↦ r n k (ground arith)
        ],
      )
  | inr found ↦
      let e' : x ≡ m = ground arith in
      (
        rw (← e') h.0,
        ground arith,
        rw (← e') found,
        λ n k i. absurd (Strict-low (suc x) n xs h.1 (ground arith) (omega arith)),
      )
]

pub find_absent-none :
    (u xs : List ℕ) → find_absent u xs ≡ none → (n : ℕ) → has n xs ≡ true → has n u ≡ true
find_absent-none u [] e n i = absurd (cc)
find_absent-none u (x ∷ xs) e n i = elim (Bool-cases (has x u)) [
  | inl skip ↦ elim (Bool-cases (x == n)) [
    | inl same ↦ rw (← (==_iff x n).0 same) skip
    | inr other ↦ find_absent-none u xs (ground arith) n (ground arith)
  ]
  | inr found ↦ absurd (ground arith)
]

pub Below-has : {b : ℕ} (n : ℕ) (xs : List ℕ) → Below b xs → has n xs ≡ true → n < b
Below-has n [] h e = absurd (cc)
Below-has n (x ∷ xs) h e = ground (arith, Below-has n xs h.1)

pub min_bit-none : (xs : List ℕ) → min_bit xs ≡ none → (n : ℕ) → has n xs ≡ false
min_bit-none [] e n = refl
min_bit-none (x ∷ xs) e n = absurd (ground arith)

pub min_bit-some :
    (m : ℕ) (xs : List ℕ)
    → min_bit xs ≡ some m
    → (has m xs ≡ true) × ((n : ℕ) → has n xs ≡ true → m ≤ n)
min_bit-some m [] e = absurd (cc)
min_bit-some m (x ∷ xs) e = elim (Option-cases (min_bit xs)) [
  | inl last ↦ (ground arith, λ n i. ground (arith, min_bit-none xs last n))
  | inr (k, least) ↦
      let (p, q) = min_bit-some k xs least in (ground arith, λ n i. ground (arith, q n))
]

pub empty_has : (xs : List ℕ) → empty_list xs ≡ true → (n : ℕ) → has n xs ≡ false
empty_has [] e n = refl
empty_has (x ∷ xs) e n = absurd (cc)

pub has_empty : (xs : List ℕ) → ((n : ℕ) → has n xs ≡ false) → empty_list xs ≡ true
has_empty [] h = refl
has_empty (x ∷ xs) h = absurd (ground (arith, h x))

pub all_in-has : (u xs : List ℕ) → all_in u xs ≡ true → (n : ℕ) → has n xs ≡ true → has n u ≡ true
all_in-has u [] e n i = absurd (cc)
all_in-has u (x ∷ xs) e n i = elim (Bool-cases (x == n)) [
  | inl same ↦ rw (← (==_iff x n).0 same) (ground arith)
  | inr other ↦ all_in-has u xs (ground arith) n (ground arith)
]

pub has-all_in : (u xs : List ℕ) → ((n : ℕ) → has n xs ≡ true → has n u ≡ true) → all_in u xs ≡ true
has-all_in u [] h = refl
has-all_in u (x ∷ xs) h = ground (arith, h x, has-all_in u xs (λ n i. h n (ground arith)))

-- The range that `first` makes of the least set bit: that bit alone.
pub min_range-IsRanges : (xs : List ℕ) → Below max_bit xs → IsRanges (min_range (min_bit xs))
min_range-IsRanges xs h = elim (Option-cases (min_bit xs)) [
  | inl e ↦ rw (e, IsRanges) tt
  | inr (m, e) ↦
      let k = Below-has m xs h (min_bit-some m xs e).0 in
      rw (e, IsRanges, add_usize-eq m 1 (omega arith)) (omega arith, omega arith, tt)
]

pub mem-min_range :
    (n : ℕ) (xs : List ℕ)
    → Below max_bit xs
    → mem n (min_range (min_bit xs)) ≡ true
    → has n xs ≡ true
mem-min_range n xs h i = elim (Option-cases (min_bit xs)) [
  | inl e ↦ absurd (ground arith)
  | inr (m, e) ↦
      let k = min_bit-some m xs e in
      let l = Below-has m xs h k.0 in
      let same : m ≡ n = ground (arith, add_usize-eq m 1 (omega arith)) in rw (← same) k.0
]

pub min_range_covers :
    (n : ℕ) (xs : List ℕ)
    → Below max_bit xs
    → has n xs ≡ true
    → (k : ℕ) × (k ≤ n) × (has k xs ≡ true) × (mem k (min_range (min_bit xs)) ≡ true)
min_range_covers n xs h i = elim (Option-cases (min_bit xs)) [
  | inl e ↦ absurd (ground (arith, min_bit-none xs e n))
  | inr (m, e) ↦
      let k = min_bit-some m xs e in
      let l = Below-has m xs h k.0 in
      (m, k.1 n i, k.0, ground (arith, add_usize-eq m 1 (omega arith)))
]

-- What the last range says of a range iterator.
pub last_range_cons : (r : Range) (rs : List Range) → ¬ (last_range (r ∷ rs) ≡ none)
last_range_cons r [] e = absurd (cc)
last_range_cons r (s ∷ rs) e = last_range_cons s rs e

pub last_range-none : (rs : List Range) → last_range rs ≡ none → (n : ℕ) → mem n rs ≡ false
last_range-none [] e n = refl
last_range-none (r ∷ rs) e n = absurd (last_range_cons r rs e)

pub last_range-some :
    (b : ℕ) (q : Range) (rs : List Range)
    → From b rs
    → last_range rs ≡ some q
    → (b < q.end) × (mem (q.end - 1) rs ≡ true) × ((n : ℕ) → mem n rs ≡ true → n ≤ q.end - 1)
last_range-some b q [] h e = absurd (cc)
last_range-some b q (r ∷ []) h e =
    let same : r ≡ q = ground arith in rw (← same) (omega arith, ground arith, λ n i. ground arith)
last_range-some b q (r ∷ s ∷ rs) h e =
    let (l, p, k) = last_range-some (suc r.end) q (s ∷ rs) h.2 e in
    (omega arith, ground arith, λ n i. ground (arith, k n))
