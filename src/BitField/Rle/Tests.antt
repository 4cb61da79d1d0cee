-- ===== src/BitField/Rle/Tests.antt =====
-- The tests of utils/bitfield/src/rleplus, and the theorems at concrete inputs.
use forest.Base.{
  ℕ, zero, suc, ◌+◌, ◌/◌, ◌%◌, ◌^◌, ◌≤◌, ◌<◌, ◌≡◌, ◌⊎◌, ◌≢◌, ◌↔◌, refl, inl, inr, List, [], ◌∷◌,
  ltb, if◌then◌else◌, arith, Bool, true, false, Bool-cases, ltb→lt, lt→ltb, All, ap, sym, ◌∙◌, ◌*◌,
}
use forest.Base.Words.{usize_mod, add_usize}
use forest.BitField.Range.{Range, range, IsRanges, Fit}
use forest.BitField.Field.{BitField, from_ranges, all_ranges}
use forest.BitField.Field.Laws.{IsField, from_ranges-IsField}
use forest.BitField.Rle.{
  ok, err, from_bytes, to_bytes, not_minimal, incorrect_version, invalid_varint, overflow, version,
  ends_in_zero, read_len, read, new_reader, deserialize, ◌>>=◌,
}
use forest.BitField.Rle.Reader.{value}
use forest.BitField.Rle.Lengths.{next_power}
use forest.BitField.Rle.Encode.{IsVarint}
use forest.BitField.Rle.Decode.{from_bytes_total}
use forest.BitField.Rle.RoundTrip.{from_bytes-to_bytes}
use forest.BitField.Rle.Unvalidated.{
  validated, deserialize_unvalidated, validate_mut, validate_mut-deserialize_iff,
}
use forest.BitField.Rle.TooLong.{from_bytes-too_long}

-- A varint of at most `k + 1` groups, as the crate writes it.
groups : ℕ → ℕ → List ℕ
groups zero n = n ∷ []
groups (suc k) n =
    let rest = groups k (n / 128) in if ltb n 128 then n ∷ [] else (n % 128 + 128) ∷ rest

encode : ℕ → List ℕ
unfolding groups
encode n = groups 9 n

groups_small : (k n : ℕ) → n < 128 → groups k n ≡ n ∷ []
unfolding groups
groups_small zero n h = refl
groups_small (suc k) n h = rw (lt→ltb n 128 h) refl

groups_large : (k n : ℕ) → 128 ≤ n → groups (suc k) n ≡ (n % 128 + 128) ∷ groups k (n / 128)
unfolding groups
groups_large k n h = let e : ltb n 128 ≡ false = ground arith in rw e refl

-- More groups than a number needs change nothing.
groups_settle : (k l n : ℕ) → n < 2 ^ ((k + 1) * 7) → k ≤ l → groups k n ≡ groups l n
groups_settle zero l n h p = groups_small 0 n h ∙ sym (groups_small l n h)
groups_settle (suc k) zero n h p = absurd (omega arith)
groups_settle (suc k) (suc l) n h p = elim (Bool-cases (ltb n 128)) [
  | inl e ↦
      let small = ltb→lt _ _ e in groups_small (suc k) n small ∙ sym (groups_small (suc l) n small)
  | inr e ↦
      let big : 128 ≤ n = ground arith in
      let fewer : n / 128 < 2 ^ ((k + 1) * 7) = omega (
        arith,
        next_power (k + 1),
        ap (λ t. 2 ^ t) (let q : (suc k + 1) * 7 ≡ (k + 1 + 1) * 7 = omega arith in q),
      ) in
      groups_large k n big
      ∙ ap (λ t. (n % 128 + 128) ∷ t) (groups_settle k l (n / 128) fewer (omega arith))
      ∙ sym (groups_large l n big)
]

encode-IsVarint : IsVarint encode
unfolding encode
encode-IsVarint = record {
  small = groups_small 9;
  large = λ n h l.
      groups_large 8 n h
      ∙ ap (λ t. (n % 128 + 128) ∷ t) (groups_settle 8 9 (n / 128) (omega arith) (omega arith));
}

-- The source's test `iter_last`.
abbrev last_bytes : List ℕ
last_bytes =
    0xE4 ∷ 0xFF ∷ 0xFF ∷ 0xFF ∷ 0xFF ∷ 0xFF ∷ 0xFF ∷ 0xFF ∷ 0xFF ∷ 0x2F ∷ 0xFF ∷ 0xFF ∷ 0xFF ∷ 0xFF
    ∷ 0xFF ∷ 0xFF ∷ 0xFF ∷ 0xFF ∷ 0x7F ∷ []

last_bytes_lem :
    from_bytes last_bytes
    ≡ ok (
        from_ranges
          (range 0 0x7FFF_FFFF_FFFF_FFFF ∷ range 0x8000_0000_0000_0000 0xFFFF_FFFF_FFFF_FFFF ∷ []))
unfolding from_bytes read_len read new_reader add_usize
last_bytes_lem = refl

wrong_version : from_bytes (0x45 ∷ 0 ∷ 1 ∷ []) ≡ err incorrect_version
unfolding from_bytes read new_reader
wrong_version = refl

-- 25 ones, in a long block.
long_block : from_bytes (0x24 ∷ 0x03 ∷ []) ≡ ok (from_ranges (range 0 25 ∷ []))
unfolding from_bytes read_len read new_reader add_usize
long_block = refl

padded_varint : from_bytes (0x64 ∷ 0x10 ∷ 0x00 ∷ 0x07 ∷ []) ≡ err invalid_varint
unfolding from_bytes read_len read new_reader add_usize
padded_varint = refl

from_bytes_total_example :
    ((ends_in_zero last_bytes ≡ true) × (from_bytes last_bytes ≡ err not_minimal))
    ⊎ ((ends_in_zero last_bytes ≡ false)
        × (((value last_bytes % 4 ≢ version) × (from_bytes last_bytes ≡ err incorrect_version))
            ⊎ ((value last_bytes % 4 ≡ version)
                × ((from_bytes last_bytes ≡ err invalid_varint)
                    ⊎ (from_bytes last_bytes ≡ err overflow)
                    ⊎ ((rs : List Range) × (from_bytes last_bytes ≡ ok (from_ranges rs))
                        × IsRanges rs
                        × Fit rs)))))
from_bytes_total_example = from_bytes_total last_bytes (omega arith)

abbrev field : BitField
field = record { ranges = range 0 20 ∷ range 30 1000 ∷ []; set = 25 ∷ []; unset = [] }

field-IsField : IsField field
field-IsField = record {
  ranges = omega arith;
  set = ((refl, tt), (omega arith, tt));
  unset = (tt, tt);
  apart = λ n e. refl;
}

field_run : all_ranges field ≡ range 0 20 ∷ range 25 26 ∷ range 30 1000 ∷ []
unfolding all_ranges forest.BitField.Combine.combine forest.BitField.Iter.ranges_from_bits
    forest.BitField.Bits.sort forest.Base.Words.add_usize
field_run = refl

from_bytes-to_bytes_example :
    from_bytes (to_bytes encode field) ≡ ok (from_ranges (all_ranges field))
from_bytes-to_bytes_example =
    from_bytes-to_bytes encode encode-IsVarint field field-IsField (rw field_run (omega arith))
      (rw field_run (omega arith))

abbrev half_full : BitField
half_full = from_ranges (range 0 0x8000_0000_0000_0000 ∷ [])

half_full-IsField : IsField half_full
half_full-IsField = from_ranges-IsField _ (omega arith)

half_full_run : all_ranges half_full ≡ range 0 0x8000_0000_0000_0000 ∷ []
unfolding all_ranges forest.BitField.Combine.combine forest.BitField.Iter.ranges_from_bits
    forest.BitField.Bits.sort
half_full_run = refl

from_bytes-too_long_example : from_bytes (to_bytes encode half_full) ≡ err invalid_varint
from_bytes-too_long_example =
    from_bytes-too_long encode encode-IsVarint half_full (range 0 0x8000_0000_0000_0000) []
      half_full-IsField (rw half_full_run (omega arith)) half_full_run (inl (refl, omega arith))

abbrev long_bytes : List ℕ
long_bytes = 0x24 ∷ 0x03 ∷ []

abbrev long_field : BitField
long_field = from_ranges (range 0 25 ∷ [])

validate_mut-deserialize_iff_example :
    ((deserialize_unvalidated long_bytes >>= validate_mut) ≡ ok (long_field, validated long_field))
    ↔ (deserialize long_bytes ≡ ok long_field)
validate_mut-deserialize_iff_example =
    validate_mut-deserialize_iff long_bytes long_field (omega arith)
