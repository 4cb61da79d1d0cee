-- ===== src/BitField/Rle/TooLong.antt =====
-- A run of 2^63 bits or more is written, and is not read back: utils/bitfield/src/rleplus/mod.rs.
use forest.Base.{
  ℕ, ◌-◌, ◌*◌, ◌/◌, ◌%◌, ◌^◌, ◌≤◌, ◌≡◌, ◌⊎◌, refl, ap, ◌∙◌, List, ◌∷◌, arith, inl, inr, true, false,
  ◌==◌, ==_iff, length,
}
use forest.BitField.Range.{Range, len as range_len, From, Fit, IsRanges}
use forest.BitField.Field.{BitField, all_ranges}
use forest.BitField.Field.Laws.{IsField, all_ranges-IsRanges}
use forest.BitField.Rle.{BitReader, err, read_len, from_bytes, encode_ranges, to_bytes}
use forest.BitField.Rle.Reader.{Holds, value}
use forest.BitField.Rle.Decode.{from_bytes_start}
use forest.BitField.Rle.Encode.{IsVarint, put_ranges}
use forest.BitField.Rle.Start.{blocks, encode_ranges-Finished, first_bit-le}
use forest.BitField.Rle.Decode.{read_ranges_bad}
use forest.BitField.Rle.Blocks.{read_len-too_long}
use forest.BitField.Rle.{invalid_varint}

module _ (encode : ℕ → List ℕ) (v : IsVarint encode) where
  -- Where the first range is, or starts behind, 2^63 bits at the start.
  first_block :
      (q : Range) (rs : List Range) (r : BitReader)
      → Fit (q ∷ rs)
      → From 0 (q ∷ rs)
      → ((q.start ≡ 0) × (2 ^ 63 ≤ q.end)) ⊎ (2 ^ 63 ≤ q.start)
      → Holds r (blocks encode v (q ∷ rs))
      → read_len r ≡ err invalid_varint
  unfolding blocks put_ranges
  first_block q rs r fit f (inl (e, h)) holds =
      let at_zero : (q.start == 0) ≡ true = (==_iff q.start 0).1 e in
      read_len-too_long encode v (range_len q) _ r (omega arith) (omega arith) (rw at_zero at holds)
  first_block q rs r fit f (inr h) holds =
      let later : (q.start == 0) ≡ false = ground arith in
      read_len-too_long encode v (q.start - 0) _ r (omega arith) (omega arith) (rw later at holds)

  encode_ranges-too_long :
      (q : Range) (rs : List Range)
      → IsRanges (q ∷ rs)
      → Fit (q ∷ rs)
      → ((q.start ≡ 0) × (2 ^ 63 ≤ q.end)) ⊎ (2 ^ 63 ≤ q.start)
      → from_bytes (encode_ranges encode (q ∷ rs)) ≡ err invalid_varint
  encode_ranges-too_long q rs f fit h =
      let all_rs = q ∷ rs in
      let bytes = encode_ranges encode all_rs in
      let (e, all, last) = encode_ranges-Finished encode v all_rs f fit in
      let small = first_bit-le encode v all_rs in
      let (r, holds, start) = from_bytes_start bytes all last (omega arith) in
      let rest : value bytes / 8 ≡ blocks encode v all_rs = omega arith in
      let bad =
        read_ranges_bad (8 * length bytes) (value bytes / 4 % 2 == 1) 0 r
          (first_block q rs r fit f h (rw rest at holds)) in
      start ∙ rw bad refl

  -- With varints encoded as documented, where the first range starts at zero and is 2^63 bits long at
  -- least, or where 2^63 zeros or more come before it, the bytes written of a well-formed field, whose
  -- ranges end at `usize` values, are refused with an invalid varint.
  pub from_bytes-too_long :
      (f : BitField) (q : Range) (rs : List Range)
      → IsField f
      → Fit (all_ranges f)
      → all_ranges f ≡ q ∷ rs
      → ((q.start ≡ 0) × (2 ^ 63 ≤ q.end)) ⊎ (2 ^ 63 ≤ q.start)
      → from_bytes (to_bytes encode f) ≡ err invalid_varint
  unfolding to_bytes
  from_bytes-too_long f q rs good fit e h =
      ap (λ t. from_bytes (encode_ranges encode t)) e
      ∙ encode_ranges-too_long q rs (rw e at (all_ranges-IsRanges f good)) (rw e at fit) h
