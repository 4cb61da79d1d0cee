-- ===== src/BitField/Iter/Rank.antt =====
-- `skip_bits` and `take_bits` by rank: the rank of a bit is the number of set bits below it.
use forest.Base.{
  ℕ, suc, ◌+◌, ◌-◌, ◌≤◌, ◌<◌, min, ◌≡◌, refl, ap, ◌∙◌, inl, inr, false, ◌&&◌, List, [], ◌∷◌, arith,
  leb, ltb, ◌==◌, Bool-cases,
}
use forest.BitField.Range.{Range, len, size, mem, From, IsRanges}
use forest.BitField.Iter.{skip_bits, take_bits, shorten}

abbrev pub rank : ℕ → List Range → ℕ
rank k [] = 0
rank k (r ∷ rs) = (min k r.end - r.start) + rank k rs

rank_low : (b k : ℕ) (rs : List Range) → From b rs → k ≤ b → rank k rs ≡ 0
rank_low b k [] h l = refl
rank_low b k (r ∷ rs) h l = omega (arith, rank_low (suc r.end) k rs h.2 (omega arith))

pub mem_low : (b k : ℕ) (rs : List Range) → From b rs → k < b → mem k rs ≡ false
mem_low b k [] h l = refl
mem_low b k (r ∷ rs) h l = ground (arith, mem_low (suc r.end) k rs h.2)

From-mono : (a b : ℕ) (rs : List Range) → a ≤ b → From b rs → From a rs
From-mono a b [] l h = tt
From-mono a b (r ∷ rs) l h = (omega arith, h.1, h.2)

skip_bits-From : (b n : ℕ) (rs : List Range) → From b rs → From b (skip_bits n rs)
unfolding skip_bits
skip_bits-From b n [] h = tt
skip_bits-From b n (r ∷ rs) h = elim (Bool-cases (ltb n (len r))) [
  | inl part ↦ rw (part, From) (omega arith, ground arith, skip_bits-From (suc r.end) 0 rs h.2)
  | inr whole ↦
      rw (whole, From)
        (skip_bits-From b (n - len r) rs (From-mono b (suc r.end) rs (omega arith) h.2))
]

mem-skip_bits :
    (b n k : ℕ) (rs : List Range)
    → From b rs
    → mem k (skip_bits n rs) ≡ (mem k rs && leb n (rank k rs))
unfolding skip_bits
mem-skip_bits b n k [] h = refl
mem-skip_bits b n k (r ∷ rs) h = elim (Bool-cases (ltb n (len r))) [
  | inl part ↦
      rw (part, mem)
        (ground (
          arith,
          mem-skip_bits (suc r.end) 0 k rs h.2,
          mem_low (suc r.end) k rs h.2,
          rank_low (suc r.end) k rs h.2,
        ))
  | inr whole ↦
      rw (whole, mem)
        (ground (
          arith,
          mem-skip_bits (suc r.end) (n - len r) k rs h.2,
          mem_low (suc r.end) k rs h.2,
          rank_low (suc r.end) k rs h.2,
        ))
]

take_bits-From : (b n : ℕ) (rs : List Range) → From b rs → From b (take_bits n rs)
unfolding take_bits
take_bits-From b n [] h = tt
take_bits-From b n (r ∷ rs) h = elim (Bool-cases (n == 0)) [
  | inl done ↦ rw (done, From) tt
  | inr more ↦
      rw (more, From)
        (ground (
          arith,
          take_bits-From (suc r.end) (n - len (shorten n r)) rs h.2,
          From-mono (suc (shorten n r).end) (suc r.end) (take_bits (n - len (shorten n r)) rs),
        ))
]

mem-take_bits :
    (b n k : ℕ) (rs : List Range)
    → From b rs
    → mem k (take_bits n rs) ≡ (mem k rs && ltb (rank k rs) n)
unfolding take_bits
mem-take_bits b n k [] h = refl
mem-take_bits b n k (r ∷ rs) h = elim (Bool-cases (n == 0)) [
  | inl done ↦ rw (done, mem) (ground arith)
  | inr more ↦
      rw (more, mem)
        (ground (
          arith,
          mem-take_bits (suc r.end) (n - len (shorten n r)) k rs h.2,
          mem_low (suc r.end) k rs h.2,
          rank_low (suc r.end) k rs h.2,
        ))
]

-- The rank of a bit among what is left after skipping.
rank-skip_bits : (b n k : ℕ) (rs : List Range) → From b rs → rank k (skip_bits n rs) ≡ rank k rs - n
unfolding skip_bits
rank-skip_bits b n k [] h = omega arith
rank-skip_bits b n k (r ∷ rs) h = elim (Bool-cases (ltb n (len r))) [
  | inl part ↦
      rw (part, rank)
        (ground (arith, rank-skip_bits (suc r.end) 0 k rs h.2, rank_low (suc r.end) k rs h.2))
  | inr whole ↦
      rw (whole, rank)
        (ground
          (arith, rank-skip_bits (suc r.end) (n - len r) k rs h.2, rank_low (suc r.end) k rs h.2))
]

size-skip_bits : (n : ℕ) (rs : List Range) → size (skip_bits n rs) ≡ size rs - n
unfolding skip_bits
size-skip_bits n [] = omega arith
size-skip_bits n (r ∷ rs) = elim (Bool-cases (ltb n (len r))) [
  | inl part ↦ rw (part, size) (ground (arith, size-skip_bits 0 rs))
  | inr whole ↦ rw (whole, size) (ground (arith, size-skip_bits (n - len r) rs))
]

size-take_bits : (n : ℕ) (rs : List Range) → size (take_bits n rs) ≡ min n (size rs)
unfolding take_bits
size-take_bits n [] = omega arith
size-take_bits n (r ∷ rs) = elim (Bool-cases (n == 0)) [
  | inl done ↦ rw (done, size) (ground arith)
  | inr more ↦ rw (more, size) (ground (arith, size-take_bits (n - len (shorten n r)) rs))
]

-- Skipping `i` bits and taking `n` gives a range iterator over the bits with ranks from `i` up to
-- `i + n`, `n` of them or as many as there are.
pub take_skip_lem :
    (i n : ℕ) (rs : List Range)
    → IsRanges rs
    → IsRanges (take_bits n (skip_bits i rs))
      × ((k : ℕ)
          → mem k (take_bits n (skip_bits i rs))
            ≡ (mem k rs && (leb i (rank k rs) && ltb (rank k rs) (i + n))))
      × (size (take_bits n (skip_bits i rs)) ≡ min n (size rs - i))
take_skip_lem i n rs h =
    let s = skip_bits-From 0 i rs h in
    (
      take_bits-From 0 n _ s,
      λ k. ground (
        arith,
        mem-take_bits 0 n k (skip_bits i rs) s,
        mem-skip_bits 0 i k rs h,
        rank-skip_bits 0 i k rs h,
      ),
      size-take_bits n (skip_bits i rs) ∙ ap (min n) (size-skip_bits i rs),
    )
