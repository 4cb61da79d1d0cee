-- ===== src/BitField/Rle/Decode.antt =====
-- `from_bytes` of utils/bitfield/src/rleplus/mod.rs on any bytes: it ends, and what it returns is
-- well formed.
use forest.Base.{
  ℕ, suc, zero, ◌+◌, ◌*◌, ◌/◌, ◌%◌, ◌^◌, ◌≤◌, ◌<◌, ◌≡◌, ◌⊎◌, ◌≢◌, refl, List, [], ◌∷◌, arith, inl,
  inr, Bool, Bool-cases, ==_iff, leb, true, false, some, none, not, ◌==◌, if◌then◌else◌, All,
  length,
}
use forest.Base.Words.{usize_mod, add_usize-eq}
use forest.Base.Bits.{pow_suc}
use forest.BitField.Range.{Range, range, From, Fit, IsRanges}
use forest.BitField.Field.{BitField, from_ranges}
use forest.BitField.Rle.{
  BitReader, Result, ok, err, read, read_len, read_ranges, from_bytes, new_reader, ends_in_zero,
  version, invalid_varint, not_minimal, incorrect_version, overflow, ◌>>=◌,
}
use forest.BitField.Rle.Reader.{IsByte, value-lt, Holds, read-Holds, value, new_reader-Holds}
use forest.BitField.Rle.Lengths.{read_len_cases, Block}
use native.Mathlib.Nat.{mod-eq_of_lt}

-- Where the next range can start: at `index` in a run of ones, behind it in a run of zeros.
abbrev earliest : Bool → ℕ → ℕ
earliest next_value index = if next_value then index else suc index

From-lower : (b c : ℕ) (rs : List Range) → c ≤ b → From b rs → From c rs
From-lower b c [] h f = tt
From-lower b c (r ∷ rs) h f = (omega arith, f.1, f.2)

abbrev Decoded : Bool → ℕ → Result (List Range) → Type 0
Decoded next_value index m =
    (m ≡ err invalid_varint)
    ⊎ (m ≡ err overflow)
    ⊎ ((rs : List Range) × (m ≡ ok rs) × From (earliest next_value index) rs × Fit rs)

-- One more run in front.
Decoded-run :
    (v : Bool) (index len : ℕ) (m : Result (List Range))
    → 0 < len
    → index + len < usize_mod
    → Decoded (not v) (index + len) m
    → Decoded v index (m >>= λ rs. ok (if v then range index (index + len) ∷ rs else rs))
Decoded-run v index len m p h (inl e) = inl (rw e refl)
Decoded-run v index len m p h (inr (inl e)) = inr (inl (rw e refl))
Decoded-run true index len m p h (inr (inr (rs, e, f, fit))) =
    inr (inr (range index (index + len) ∷ rs, rw e refl, (omega arith, omega arith, f), (h, fit)))
Decoded-run false index len m p h (inr (inr (rs, e, f, fit))) =
    inr (inr (rs, rw e refl, From-lower (index + len) (suc index) rs (omega arith) f, fit))

-- The rounds of the loop of `from_bytes`.
module _ (fuel : ℕ) (v : Bool) (index : ℕ) (r : BitReader) where
  pub read_ranges_bad :
      read_len r ≡ err invalid_varint → read_ranges (suc fuel) v index index r ≡ err invalid_varint
  unfolding read_ranges
  read_ranges_bad e = rw e refl

  pub read_ranges_end :
      (r' : BitReader) → read_len r ≡ ok (none, r') → read_ranges (suc fuel) v index index r ≡ ok []
  unfolding read_ranges
  read_ranges_end r' e = rw e refl

  module _ (len : ℕ) (r' : BitReader) (block : read_len r ≡ ok (some len, r')) where
    read_ranges_over :
        leb usize_mod (index + len) ≡ true → read_ranges (suc fuel) v index index r ≡ err overflow
    unfolding read_ranges
    read_ranges_over h = rw (block, h) refl

    pub read_ranges_block :
        index + len < usize_mod
        → read_ranges (suc fuel) v index index r ≡ (
            read_ranges fuel (not v) (index + len) (index + len) r' >>= λ rs.
            ok (if v then range index (index + len) ∷ rs else rs))
    unfolding read_ranges
    read_ranges_block h =
        let fits : leb usize_mod (index + len) ≡ false = ground arith in
        rw (block, fits, add_usize-eq index len h, mod-eq_of_lt h) refl

-- A round keeps what the rounds after it are known to give.
round_cases :
    (fuel : ℕ) (v : Bool) (index : ℕ) (r : BitReader) (w : ℕ)
    → Holds r w
    → ((len : ℕ) (r' : BitReader)
        → Block w len r'
        → index + len < usize_mod
        → Decoded (not v) (index + len) (read_ranges fuel (not v) (index + len) (index + len) r'))
    → Decoded v index (read_ranges (suc fuel) v index index r)
round_cases fuel v index r w holds rest = elim (read_len_cases r w holds) [
  | inl bad ↦ inl (read_ranges_bad fuel v index r bad)
  | inr (inl (r', e)) ↦ inr (inr ([], read_ranges_end fuel v index r r' e, tt, tt))
  | inr (inr (len, r', e, b)) ↦ elim (Bool-cases (leb usize_mod (index + len))) [
    | inl over ↦ inr (inl (read_ranges_over fuel v index r len r' e over))
    | inr fits ↦
        let below : index + len < usize_mod = ground arith in
        rw (read_ranges_block fuel v index r len r' e below)
          (Decoded-run v index len _ b.len_pos below (rest len r' b below))
  ]
]

read_ranges_cases :
    (fuel : ℕ) (v : Bool) (index : ℕ) (r : BitReader) (w : ℕ)
    → w < 2 ^ fuel
    → Holds r w
    → Decoded v index (read_ranges (suc fuel) v index index r)
read_ranges_cases zero v index r w h holds =
    round_cases zero v index r w holds (λ len r' b below. absurd (omega (arith, b.some_left)))
read_ranges_cases (suc fuel) v index r w h holds =
    round_cases (suc fuel) v index r w holds λ len r' b below.
      read_ranges_cases fuel (not v) (index + len) r' b.left (omega (arith, b.half, pow_suc fuel))
        b.left_Holds

first_value : (v : Bool) (rs : List Range) → From (earliest v 0) rs → IsRanges rs
first_value true rs f = f
first_value false rs f = From-lower 1 0 rs (omega arith) f

-- After the header.
pub from_bytes_start :
    (bytes : List ℕ)
    → All IsByte bytes
    → ends_in_zero bytes ≡ false
    → value bytes % 4 ≡ version
    → (r : BitReader) × Holds r (value bytes / 8)
      × (from_bytes bytes ≡ (
          read_ranges (suc (8 * length bytes)) (value bytes / 4 % 2 == 1) 0 0 r >>= λ rs.
          ok (from_ranges rs)))
unfolding from_bytes
from_bytes_start bytes h good same =
    let r = new_reader bytes in
    let (e2, h2) = read-Holds 2 r (value bytes) (omega arith) (new_reader-Holds bytes h) in
    let (e1, h1) = read-Holds 1 (read 2 r).1 (value bytes / 4) (omega arith) h2 in
    let eight : value bytes / 4 / 2 ≡ value bytes / 8 = omega arith in
    let fuel : 8 * length bytes + 1 ≡ suc (8 * length bytes) = omega arith in
    ((read 1 (read 2 r).1).1, rw eight at h1, rw (good, e2, same, e1, fuel) refl)

from_bytes_other :
    (bytes : List ℕ)
    → All IsByte bytes
    → ends_in_zero bytes ≡ false
    → (value bytes % 4 == version) ≡ false
    → from_bytes bytes ≡ err incorrect_version
unfolding from_bytes
from_bytes_other bytes h good other =
    let e2 =
      (read-Holds 2 (new_reader bytes) (value bytes) (omega arith) (new_reader-Holds bytes h)).0 in
    rw (good, e2, other) refl

from_bytes_zero : (bytes : List ℕ) → ends_in_zero bytes ≡ true → from_bytes bytes ≡ err not_minimal
unfolding from_bytes
from_bytes_zero bytes h = rw h refl

-- `from_bytes` ends on any bytes: it refuses a last byte that is zero, then a version that is not zero,
-- then an invalid varint or lengths whose sum overflows, or it returns ranges that are not empty,
-- ascend, do not touch, and end at `usize` values.
pub from_bytes_total :
    (bytes : List ℕ)
    → All IsByte bytes
    → ((ends_in_zero bytes ≡ true) × (from_bytes bytes ≡ err not_minimal))
      ⊎ ((ends_in_zero bytes ≡ false)
          × (((value bytes % 4 ≢ version) × (from_bytes bytes ≡ err incorrect_version))
              ⊎ ((value bytes % 4 ≡ version)
                  × ((from_bytes bytes ≡ err invalid_varint)
                      ⊎ (from_bytes bytes ≡ err overflow)
                      ⊎ ((rs : List Range) × (from_bytes bytes ≡ ok (from_ranges rs))
                          × IsRanges rs
                          × Fit rs)))))
from_bytes_total bytes h = elim (Bool-cases (ends_in_zero bytes)) [
  | inl zero_last ↦ inl (zero_last, from_bytes_zero bytes zero_last)
  | inr good ↦ inr (
    good,
    elim (Bool-cases (value bytes % 4 == version)) [
      | inr other ↦ inl (λ e. ground arith, from_bytes_other bytes h good other)
      | inl same ↦
          let version_ok : value bytes % 4 ≡ version = (==_iff _ _).0 same in
          let (r, holds, e) = from_bytes_start bytes h good version_ok in
          let below : value bytes / 8 < 2 ^ (8 * length bytes) = omega (arith, value-lt bytes h) in
          inr (
            version_ok,
            rw e
                (elim (read_ranges_cases (8 * length bytes) (value bytes / 4 % 2 == 1) 0 r
                  (value bytes / 8) below holds) [
                    | inl bad ↦ rw bad (inl refl)
                    | inr (inl bad) ↦ rw bad (inr (inl refl))
                    | inr (inr (rs, q, f, fit)) ↦
                        rw q
                          (inr (inr (rs, refl, first_value (value bytes / 4 % 2 == 1) rs f, fit)))
                  ]),
          )
    ],
  )
]

pub refused_version :
    (bytes : List ℕ) (f : BitField)
    → All IsByte bytes
    → (value bytes % 4 == version) ≡ false
    → from_bytes bytes ≢ ok f
refused_version bytes f h other e = elim (Bool-cases (ends_in_zero bytes)) [
  | inl zero_last ↦ cc (from_bytes_zero bytes zero_last)
  | inr good ↦ cc (from_bytes_other bytes h good other)
]
