-- ===== src/BitField/Field/Order.antt =====
-- Iteration, the first and the last bit, and emptiness, against `get`.
use forest.Base.{
  ℕ, ◌≤◌, ◌<◌, ◌≡◌, ◌↔◌, refl, sym, ap, ◌∙◌, inl, inr, true, false, not, ◌&&◌, ◌||◌, List, Option,
  none, some, arith, Bool-cases, Option-cases,
}
use forest.BitField.Range.{mem}
use forest.BitField.Combine.{combine, union}
use forest.BitField.Combine.Correct.{union-Computes}
use forest.BitField.Iter.{ranges_from_bits}
use forest.BitField.Bits.{has, Strict, sort}
use forest.BitField.Field.{
  BitField, get, all_ranges, flatten, find_absent, iter, first, min_bit, min_range, last,
  last_range, is_empty,
}
use forest.BitField.Field.Laws.{
  IsField, get_lem, all_ranges-IsRanges, mem-all_ranges, with_set, mem-bits,
}
use forest.BitField.Field.Search.{
  not_true, clash, has-flatten, flatten-Strict, has-without, without-Strict, find_absent-some,
  find_absent-none, empty_has, has_empty, all_in-has, has-all_in, min_range-IsRanges, mem-min_range,
  min_range_covers, last_range-none, last_range-some,
}

-- A bit below which, and one above which, `get` reports nothing.
abbrev pub IsLeast : BitField → ℕ → Type 0
IsLeast f m = (get m f ≡ true) × ((n : ℕ) → n < m → get n f ≡ false)

abbrev pub IsGreatest : BitField → ℕ → Type 0
IsGreatest f m = (get m f ≡ true) × ((n : ℕ) → m < n → get n f ≡ false)

-- A search for a bit finds one with the property, or there is no bit at all.
abbrev pub Finds : (ℕ → Type 0) → BitField → Option ℕ → Type 0
Finds P f none = (n : ℕ) → get n f ≡ false
Finds P f (some m) = P m

module _ (f : BitField) (v : IsField f) where
  mem-with_set :
      (n : ℕ)
      → mem n (combine union f.ranges (ranges_from_bits (sort f.set)))
        ≡ (mem n f.ranges || has n f.set)
  mem-with_set n = (with_set f v).1 n ∙ ap (λ y. mem n f.ranges || y) (mem-bits n f.set v.set)

  -- `iter` yields exactly the bits that `get` reports, in strictly ascending order.
  pub iter_lem : Strict 0 (iter f) × ((n : ℕ) → has n (iter f) ≡ get n f)
  unfolding iter
  iter_lem = (
    without-Strict 0 f.unset _ (flatten-Strict 0 _ (with_set f v).0),
    λ n.
        has-without n f.unset _
        ∙ ap (λ y. y && not (has n f.unset)) (has-flatten n _ ∙ mem-with_set n)
        ∙ ground (arith, get_lem n f, v.apart n),
  )

  -- `is_empty` holds exactly when `get` reports no bit.
  pub is_empty_iff : (is_empty f ≡ true) ↔ ((n : ℕ) → get n f ≡ false)
  unfolding is_empty
  is_empty_iff = (
    λ e n. ground (
      arith,
      get_lem n f,
      has-flatten n f.ranges,
      empty_has f.set (ground arith) n,
      all_in-has f.unset (flatten f.ranges) (ground arith) n,
    ),
    λ h.
        let none_set = has_empty f.set (λ n. ground (arith, h n, get_lem n f)) in
        let covered =
          has-all_in f.unset (flatten f.ranges)
            (λ n i. ground (arith, h n, get_lem n f, has-flatten n f.ranges)) in
        rw (none_set, covered) refl,
  )

  candidates : List ℕ
  candidates = flatten (combine union f.ranges (min_range (min_bit f.set)))

  candidates-Strict : Strict 0 candidates
  unfolding candidates
  candidates-Strict =
      flatten-Strict 0 _ (union-Computes f.ranges _ v.ranges (min_range-IsRanges f.set v.set.1)).0

  has-candidates :
      (n : ℕ) → has n candidates ≡ (mem n f.ranges || mem n (min_range (min_bit f.set)))
  unfolding candidates
  has-candidates n =
      has-flatten n _ ∙ (union-Computes f.ranges _ v.ranges (min_range-IsRanges f.set v.set.1)).1 n

  get_of_candidate : (n : ℕ) → has n candidates ≡ true → has n f.unset ≡ false → get n f ≡ true
  get_of_candidate n i u =
      ground (arith, get_lem n f, has-candidates n, mem-min_range n f.set v.set.1)

  candidate_below :
      (n : ℕ)
      → get n f ≡ true
      → (k : ℕ) × (k ≤ n) × (has k candidates ≡ true) × (has k f.unset ≡ false)
  candidate_below n g = elim (Bool-cases (has n f.set)) [
    | inl member ↦
        let (k, l, p, q) = min_range_covers n f.set v.set.1 member in
        (k, l, ground (arith, has-candidates k), v.apart k p)
    | inr other ↦
        (n, omega arith, ground (arith, has-candidates n, get_lem n f), ground (arith, get_lem n f))
  ]

  -- `first` finds the least bit that `get` reports, or there is none.
  pub first_lem : Finds (IsLeast f) f (first f)
  unfolding first candidates
  first_lem = elim (Option-cases (find_absent f.unset candidates)) [
    | inl e ↦
        rw (e, Finds)
          (λ n. not_true (λ g.
            let (k, l, p, q) = candidate_below n g in
            clash (find_absent-none f.unset candidates e k p) q))
    | inr (m, e) ↦
        let (l, p, q, least) = find_absent-some 0 m f.unset candidates candidates-Strict e in
        rw (e, Finds)
          (
            get_of_candidate m p q,
            λ n lt. not_true (λ g.
                let (k, le, p', q') = candidate_below n g in clash (least k (omega arith) p') q'),
          )
  ]

  -- `last` finds the greatest bit that `get` reports, or there is none.
  pub last_lem : Finds (IsGreatest f) f (last f)
  unfolding last
  last_lem = elim (Option-cases (last_range (all_ranges f))) [
    | inl e ↦ rw (e, Finds) (λ n. sym (mem-all_ranges f v n) ∙ last_range-none _ e n)
    | inr (q, e) ↦
        let (l, p, k) = last_range-some 0 q (all_ranges f) (all_ranges-IsRanges f v) e in
        rw (e, Finds)
          (
            sym (mem-all_ranges f v _) ∙ p,
            λ n g. not_true (λ there. absurd (omega (arith, k n (mem-all_ranges f v n ∙ there)))),
          )
  ]
