-- ===== src/BitField/Rle/Start.antt =====
-- The header and the first range, as `to_bytes` writes them: utils/bitfield/src/rleplus/mod.rs.
use forest.Base.{
  ℕ, ◌+◌, ◌-◌, ◌*◌, ◌≤◌, ◌<◌, ◌≡◌, refl, ◌∙◌, List, [], ◌∷◌, arith, inl, inr, Bool, Bool-cases,
  true, false, ◌==◌, if◌then◌else◌, All,
}
use forest.Base.Words.{usize_mod}
use forest.BitField.Range.{Range, len as range_len, Fit, IsRanges}
use forest.BitField.Rle.{
  encode_ranges, write_len, write_ranges, write_start, write, new_writer, ends_in_zero, BitWriter,
}
use forest.BitField.Rle.Reader.{value, IsByte}
use forest.BitField.Rle.Writer.{IsWriter, written, value_then}
use forest.BitField.Rle.Encode.{
  IsVarint, put_len, put_ranges, Adds, Adds-then, Adds-eq, write-Adds, write_len-Adds,
  write_ranges-Adds, finish-Finished,
}

header_number :
    (at_zero : Bool) (a b : ℕ)
    → 0 + (if at_zero then 1 + a * 2 else b * 2) * 4 * 1
      ≡ ((if at_zero then 1 else 0) + (if at_zero then a else b) * 2) * 4
header_number true a b = omega arith
header_number false a b = omega arith

module _ (encode : ℕ → List ℕ) (v : IsVarint encode) where
  -- The value of the first bit, and the blocks after it.
  unfoldable pub first_bit : List Range → ℕ
  first_bit [] = 0
  first_bit (r ∷ rs) = if r.start == 0 then 1 else 0

  unfoldable pub blocks : List Range → ℕ
  blocks [] = 0
  blocks (r ∷ rs) =
      if r.start == 0
      then put_len encode (range_len r) (put_ranges encode r.end rs 0)
      else put_ranges encode 0 (r ∷ rs) 0

  -- What `to_bytes` writes before the length of the first range.
  write_start-Adds :
      (start : ℕ) (w : BitWriter)
      → start < usize_mod
      → IsWriter w
      → Adds w
          (write_start encode start w)
          (λ x. if start == 0 then 1 + x * 2 else put_len encode (start - 0) x * 2)
  unfolding write_start
  write_start-Adds start w h good = elim (Bool-cases (start == 0)) [
    | inl at_zero ↦ rw at_zero (write-Adds 1 1 w (omega arith) (omega arith) good)
    | inr later ↦
        let bit = write-Adds 0 1 w (omega arith) (omega arith) good in
        let same : start - 0 ≡ start = omega arith in
        rw (later, same)
          (Adds-eq w _ _ _
            (Adds-then w (write 0 1 w) _ _ _ bit (write_len-Adds encode v start (write 0 1 w) h))
            (λ x. omega arith))
  ]

  all-Adds :
      (r : Range) (rs : List Range)
      → IsRanges (r ∷ rs)
      → Fit (r ∷ rs)
      → Adds new_writer
          (write_ranges encode r.end rs
            (write_len encode (range_len r) (write_start encode r.start (write 0 2 new_writer))))
          (λ x.
            (if r.start == 0
              then 1 + put_len encode (range_len r) (put_ranges encode r.end rs x) * 2
              else put_len encode
                  (r.start - 0)
                  (put_len encode (range_len r) (put_ranges encode r.end rs x))
                * 2)
            * 4)
  all-Adds r rs f fit =
      let w1 = write 0 2 new_writer in
      let w2 = write_start encode r.start w1 in
      let w3 = write_len encode (range_len r) w2 in
      let empty : IsWriter new_writer = record {
        fewer = omega arith;
        bits-lt = omega arith;
        bytes_IsByte = tt;
      } in
      Adds-eq new_writer _ _ _
        (Adds-then new_writer w1 _ _ _ (write-Adds 0 2 new_writer (omega arith) (omega arith) empty)
          λ good1. Adds-then w1 w2 _ _ _ (write_start-Adds r.start w1 (omega arith) good1) λ good2.
            Adds-then w2 w3 _ _ _ (write_len-Adds encode v (range_len r) w2 (omega arith) good2)
              λ good3. write_ranges-Adds encode v r.end rs w3 f.2 fit.1 good3)
        (λ x. omega arith)

  pub encode_ranges-Finished :
      (rs : List Range)
      → IsRanges rs
      → Fit rs
      → (value (encode_ranges encode rs) ≡ (first_bit rs + blocks rs * 2) * 4)
        × All IsByte (encode_ranges encode rs)
        × (ends_in_zero (encode_ranges encode rs) ≡ false)
  unfolding encode_ranges first_bit blocks value written value_then put_ranges
  encode_ranges-Finished [] f fit = (refl, tt, refl)
  encode_ranges-Finished (r ∷ rs) f fit =
      let a = all-Adds r rs f fit in
      let (e, bytes, last) = finish-Finished _ a.good in
      (e ∙ a.adds 0 ∙ header_number (r.start == 0) _ _, bytes, last)

  pub first_bit-le : (rs : List Range) → first_bit rs ≤ 1
  unfolding first_bit
  first_bit-le [] = omega arith
  first_bit-le (r ∷ rs) = ground arith
