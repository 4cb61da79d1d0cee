-- ===== src/BitField/Rle/RoundTrip.antt =====
-- `from_bytes` of what `to_bytes` wrote: utils/bitfield/src/rleplus/mod.rs.
use forest.Base.{
  ℕ, suc, zero, ◌+◌, ◌-◌, ◌*◌, ◌/◌, ◌%◌, ◌^◌, ◌<◌, ◌≡◌, refl, sym, ap, ◌∙◌, List, [], ◌∷◌, arith,
  inl, inr, Bool, Bool-cases, true, false, ◌==◌, ==_iff, not, if◌then◌else◌, length,
}
use forest.Base.Words.{usize_mod}
use forest.Base.Bits.{pow_suc}
use forest.BitField.Range.{Range, range, len as range_len, From, Fit, IsRanges}
use forest.BitField.Field.{BitField, from_ranges, all_ranges}
use forest.BitField.Field.Laws.{IsField, all_ranges-IsRanges}
use forest.BitField.Rle.{
  BitReader, Result, ok, read_ranges, from_bytes, encode_ranges, to_bytes, ◌>>=◌,
}
use forest.BitField.Rle.Reader.{Holds, value, value-lt}
use forest.BitField.Rle.Decode.{read_ranges_end, read_ranges_block, from_bytes_start}
use forest.BitField.Rle.Encode.{IsVarint, put_len, put_ranges}
use forest.BitField.Rle.Blocks.{read_len-put_len, read_len_zero, put_len-le}
use forest.BitField.Rle.Start.{first_bit, blocks, encode_ranges-Finished, first_bit-le}

-- Every gap and every run, from `index` on, is below 2^63: longer ones need ten groups.
abbrev pub Encodable : ℕ → List Range → Type 0
Encodable index [] = Unit {0}
Encodable index (r ∷ rs) =
    (r.start < index + 2 ^ 63) × (r.end < r.start + 2 ^ 63) × Encodable r.end rs

one_round :
    (m m' : Result (List Range)) (q : Range) (rs : List Range)
    → m ≡ (m' >>= λ x. ok (q ∷ x))
    → m' ≡ ok rs
    → m ≡ ok (q ∷ rs)
one_round m m' q rs e e' = e ∙ rw e' refl

two_rounds :
    (m m' m'' : Result (List Range)) (q : Range) (rs : List Range)
    → m ≡ (m' >>= λ x. ok x)
    → m' ≡ (m'' >>= λ x. ok (q ∷ x))
    → m'' ≡ ok rs
    → m ≡ ok (q ∷ rs)
two_rounds m m' m'' q rs e e' e'' = e ∙ rw (e', e'') refl

module _ (encode : ℕ → List ℕ) (v : IsVarint encode) where
  -- One round of the loop, at a block.
  block_lem :
      (fuel : ℕ) (flag : Bool) (index len end x : ℕ) (r : BitReader)
      → 0 < len
      → len < 2 ^ 63
      → index + len ≡ end
      → end < usize_mod
      → put_len encode len x < 2 ^ fuel
      → Holds r (put_len encode len x)
      → (f : ℕ) × (r' : BitReader) × Holds r' x
        × (x < 2 ^ f)
        × (read_ranges (suc fuel) flag index index r ≡ (
            read_ranges (suc f) (not flag) end end r' >>= λ rs.
            ok (if flag then range index end ∷ rs else rs)))
  block_lem zero flag index len end x r p h s l b holds =
      absurd (omega (arith, put_len-le encode v len x p (omega arith)))
  block_lem (suc f) flag index len end x r p h s l b holds =
      let (r', e, rest) = read_len-put_len encode v len x r p h holds in
      (
        f,
        r',
        rest,
        omega (arith, put_len-le encode v len x p (omega arith), pow_suc f),
        rw s at (read_ranges_block (suc f) flag index r len r' e (omega arith)),
      )

  -- The runs behind `index` are read back.
  read_ranges-put :
      (rs : List Range) (fuel index : ℕ) (r : BitReader)
      → From (suc index) rs
      → Fit rs
      → Encodable index rs
      → put_ranges encode index rs 0 < 2 ^ fuel
      → Holds r (put_ranges encode index rs 0)
      → read_ranges (suc fuel) false index index r ≡ ok rs
  unfolding put_ranges
  read_ranges-put [] fuel index r f fit b l holds =
      let (r', e) = read_len_zero r holds in read_ranges_end fuel false index r r' e
  read_ranges-put (q ∷ rs) fuel index r f fit b l holds =
      let y = put_ranges encode q.end rs 0 in
      let ones = put_len encode (range_len q) y in
      let (f1, r1, h1, l1, e1) =
        block_lem fuel false index (q.start - index) q.start ones r (omega arith) (omega arith)
          (omega arith) (omega arith) l holds in
      let (f2, r2, h2, l2, e2) =
        block_lem f1 true q.start (range_len q) q.end y r1 (omega arith) (omega arith) (omega arith)
          (omega arith) l1 h1 in
      two_rounds _ _ _ q rs e1 e2 (read_ranges-put rs f2 q.end r2 f.2 fit.1 b.2 l2 h2)

  -- After the header the blocks are read back.
  read_start :
      (rs : List Range) (fuel : ℕ) (r : BitReader)
      → IsRanges rs
      → Fit rs
      → Encodable 0 rs
      → blocks encode v rs < 2 ^ fuel
      → Holds r (blocks encode v rs)
      → read_ranges (suc fuel) (first_bit encode v rs == 1) 0 0 r ≡ ok rs
  unfolding first_bit blocks
  read_start [] fuel r f fit b l holds =
      let (r', e) = read_len_zero r holds in read_ranges_end fuel false 0 r r' e
  read_start (q ∷ rs) fuel r f fit b l holds = elim (Bool-cases (q.start == 0)) [
    | inl at_zero ↦
        let start : q.start ≡ 0 = (==_iff q.start 0).0 at_zero in
        let y = put_ranges encode q.end rs 0 in
        let (f1, r1, h1, l1, e1) =
          block_lem fuel true 0 (range_len q) q.end y r (omega arith) (omega arith) (omega arith)
            (omega arith) (rw at_zero at l) (rw at_zero at holds) in
        rw at_zero (
          one_round _ _ _ rs e1 (read_ranges-put rs f1 q.end r1 f.2 fit.1 b.2 l1 h1)
          ∙ ap (λ t. ok (range t q.end ∷ rs)) (sym start))
    | inr later ↦ rw later (
        read_ranges-put (q ∷ rs) fuel 0 r (ground arith, f.1, f.2) fit b (rw later at l)
          (rw later at holds))
  ]

  from_bytes-encode_ranges :
      (rs : List Range)
      → IsRanges rs
      → Fit rs
      → Encodable 0 rs
      → from_bytes (encode_ranges encode rs) ≡ ok (from_ranges rs)
  from_bytes-encode_ranges rs f fit b =
      let bytes = encode_ranges encode rs in
      let (e, all, last) = encode_ranges-Finished encode v rs f fit in
      let n = first_bit encode v rs + blocks encode v rs * 2 in
      let small = first_bit-le encode v rs in
      let (r, holds, start) = from_bytes_start bytes all last (omega arith) in
      let bit : value bytes / 4 % 2 ≡ first_bit encode v rs = omega arith in
      let rest : value bytes / 8 ≡ blocks encode v rs = omega arith in
      let read =
        read_start rs (8 * length bytes) r f fit b (omega (arith, value-lt bytes all))
          (rw rest at holds) in
      start
      ∙ ap (λ t. read_ranges (suc (8 * length bytes)) (t == 1) 0 0 r >>= λ x. ok (from_ranges x))
          bit
      ∙ rw read refl

  -- With varints encoded as documented, reading back the bytes that were written of a well-formed field,
  -- whose ranges end at `usize` values and whose gaps and runs are shorter than 2^63, gives its ranges.
  pub from_bytes-to_bytes :
      (f : BitField)
      → IsField f
      → Fit (all_ranges f)
      → Encodable 0 (all_ranges f)
      → from_bytes (to_bytes encode f) ≡ ok (from_ranges (all_ranges f))
  unfolding to_bytes
  from_bytes-to_bytes f good fit b =
      from_bytes-encode_ranges (all_ranges f) (all_ranges-IsRanges f good) fit b
