-- ===== src/BitField/Rle/Blocks.antt =====
-- `read_len` reads back the block that `write_len` wrote: utils/bitfield/src/rleplus/reader.rs.
use Prim.Native.Nat.{bit_and}
use forest.Base.{
  ℕ, suc, zero, ◌+◌, ◌*◌, ◌/◌, ◌%◌, ◌^◌, ◌≤◌, ◌<◌, ◌≡◌, refl, ap, ◌∙◌, List, [], ◌∷◌, arith, inl,
  inr, Bool-cases, ltb, ltb→lt, lt→ltb, true, false, ◌==◌, ==_iff, ◌||◌, not, some, none,
}
use forest.Base.Words.{usize_mod}
use forest.Base.Bits.{top_bit, pow_add, pow_pos}
use forest.BitField.Rle.{
  BitReader, ok, err, invalid_varint, read, read_groups, read_varint, read_len,
}
use forest.BitField.Rle.Reader.{Holds, read-Holds}
use forest.BitField.Rle.Lengths.{add_group, next_power}
use forest.BitField.Rle.Writer.{value_then}
use forest.BitField.Rle.Encode.{IsVarint, put_len}
use native.Mathlib.Nat.{div-add-mod}

-- A round of `read_varint` at a byte `b`.
module _ (rounds i len b x : ℕ) (r : BitReader) (i_le : i ≤ 8) (len-lt : len < 2 ^ (i * 7))
    (byte : b < 256) (holds : Holds r (b + 256 * x)) where
  abbrev len_after : ℕ
  len_after = len + b % 128 * 2 ^ (i * 7)

  read_byte : ((read 8 r).0 ≡ b) × Holds (read 8 r).1 x
  read_byte =
      let (e, h) = read-Holds 8 r (b + 256 * x) (omega arith) holds in
      let rest : (b + 256 * x) / 256 ≡ x = omega arith in (e ∙ omega arith, rw rest at h)

  last_round :
      b < 128
      → ((i == 0) || not (b == 0)) ≡ true
      → read_groups (suc rounds) i len r ≡ ok (len_after, (read 8 r).1)
  unfolding read_groups
  last_round h nonzero =
      let top : bit_and b 0x80 ≡ 0 = top_bit b byte ∙ omega arith in
      rw (read_byte.0, top, nonzero, (add_group i len b i_le len-lt).0) refl

  inner_round :
      128 ≤ b → read_groups (suc rounds) i len r ≡ read_groups rounds (i + 1) len_after (read 8 r).1
  unfolding read_groups
  inner_round h =
      let top : bit_and b 0x80 ≡ 128 = top_bit b byte ∙ omega arith in
      rw (read_byte.0, top, (add_group i len b i_le len-lt).0) refl

-- Only the first group may be zero, which is then the whole number.
allowed : (i n : ℕ) → (0 < i → 0 < n) → ((i == 0) || not (n == 0)) ≡ true
allowed zero n h = refl
allowed (suc i) n h = let p = h (omega arith) in ground arith

read_single :
    (len x : ℕ) (r : BitReader)
    → len ≡ 1
    → Holds r (1 + x * 2)
    → (r' : BitReader) × (read_len r ≡ ok (some len, r')) × Holds r' x
unfolding read_len
read_single len x r h holds =
    let (e, rest) = read-Holds 1 r (1 + x * 2) (omega arith) holds in
    let bit : (1 + x * 2) % 2 ≡ 1 = omega arith in
    let left : (1 + x * 2) / 2 ≡ x = omega arith in
    ((read 1 r).1, rw (e, bit, h) refl, rw left at rest)

read_short :
    (len x : ℕ) (r : BitReader)
    → 0 < len
    → len < 16
    → Holds r (2 + (len + x * 16) * 4)
    → (r' : BitReader) × (read_len r ≡ ok (some len, r')) × Holds r' x
unfolding read_len
read_short len x r p h holds =
    let v = 2 + (len + x * 16) * 4 in
    let (e1, h1) = read-Holds 1 r v (omega arith) holds in
    let (e2, h2) = read-Holds 1 (read 1 r).1 (v / 2) (omega arith) h1 in
    let (e4, h4) = read-Holds 4 (read 1 (read 1 r).1).1 (v / 2 / 2) (omega arith) h2 in
    let bit1 : v % 2 ≡ 0 = omega arith in
    let bit2 : v / 2 % 2 ≡ 1 = omega arith in
    let digits : v / 2 / 2 % 16 ≡ len = omega arith in
    let left : v / 2 / 2 / 16 ≡ x = omega arith in
    (
      (read 4 (read 1 (read 1 r).1).1).1,
      rw (e1, bit1, e2, bit2, e4, digits, lt→ltb 0 len p) refl,
      rw left at h4,
    )

-- The two zeros before a long block.
long_prefix :
    (y : ℕ) (r : BitReader)
    → Holds r (y * 4)
    → ((read 1 r).0 ≡ 0) × ((read 1 (read 1 r).1).0 ≡ 0) × Holds (read 1 (read 1 r).1).1 y
long_prefix y r holds =
    let (e1, h1) = read-Holds 1 r (y * 4) (omega arith) holds in
    let (e2, h2) = read-Holds 1 (read 1 r).1 (y * 4 / 2) (omega arith) h1 in
    let left : y * 4 / 2 / 2 ≡ y = omega arith in
    (e1 ∙ omega arith, e2 ∙ omega arith, rw left at h2)

refused :
    (r : BitReader)
    → (read 1 r).0 ≡ 0
    → (read 1 (read 1 r).1).0 ≡ 0
    → read_groups 9 0 0 (read 1 (read 1 r).1).1 ≡ err invalid_varint
    → read_len r ≡ err invalid_varint
unfolding read_len read_varint
refused r bit1 bit2 groups = rw (bit1, bit2, groups) refl

no_round : (i len : ℕ) (r : BitReader) → read_groups 0 i len r ≡ err invalid_varint
unfolding read_groups
no_round i len r = refl

-- The prefix of a long block, and its groups.
opened :
    (r r' : BitReader) (len : ℕ)
    → (read 1 r).0 ≡ 0
    → (read 1 (read 1 r).1).0 ≡ 0
    → read_groups 9 0 0 (read 1 (read 1 r).1).1 ≡ ok (len, r')
    → 0 < len
    → read_len r ≡ ok (some len, r')
unfolding read_len read_varint
opened r r' len bit1 bit2 groups p = rw (bit1, bit2, groups, lt→ltb 0 len p) refl

-- At zero nothing more is found.
pub read_len_zero : (r : BitReader) → Holds r 0 → (r' : BitReader) × (read_len r ≡ ok (none, r'))
unfolding read_len read_varint
read_len_zero r holds =
    let (e1, h1) = read-Holds 1 r 0 (omega arith) holds in
    let (e2, h2) = read-Holds 1 (read 1 r).1 0 (omega arith) h1 in
    let r2 = (read 1 (read 1 r).1).1 in
    let groups =
      last_round 8 0 0 0 0 r2 (omega arith) (omega arith) (omega arith) h2 (omega arith) refl in
    ((read 8 r2).1, rw (e1, e2, groups) refl)

value_then-le : (bs : List ℕ) (x : ℕ) → x ≤ value_then bs x
unfolding value_then
value_then-le [] x = omega arith
value_then-le (b ∷ bs) x = omega (arith, value_then-le bs x)

module _ (encode : ℕ → List ℕ) (v : IsVarint encode) where
  read_groups-encode :
      (rounds i len n x : ℕ) (r : BitReader)
      → i + rounds ≡ 9
      → n < 2 ^ (rounds * 7)
      → n < usize_mod
      → (0 < i → 0 < n)
      → len < 2 ^ (i * 7)
      → Holds r (value_then (encode n) x)
      → (r' : BitReader) × (read_groups rounds i len r ≡ ok (len + n * 2 ^ (i * 7), r'))
        × Holds r' x
  unfolding value_then
  read_groups-encode zero i len n x r h l u p m holds = absurd (omega (arith, p (omega arith)))
  read_groups-encode (suc rounds) i len n x r h l u p m holds = elim (Bool-cases (ltb n 128)) [
    | inl e ↦
        let small : n < 128 = ltb→lt _ _ e in
        let low : n % 128 ≡ n = omega arith in
        let holds' : Holds r (n + 256 * x) = rw (v.small n small) at holds in
        (
          (read 8 r).1,
          last_round rounds i len n x r (omega arith) m (omega arith) holds' small (allowed i n p)
              ∙ ap (λ t. ok (len + t * 2 ^ (i * 7), (read 8 r).1)) low,
          (read_byte rounds i len n x r (omega arith) m (omega arith) holds').1,
        )
    | inr e ↦
        let big : 128 ≤ n = ground arith in
        let b = n % 128 + 128 in
        let y = value_then (encode (n / 128)) x in
        let low : b % 128 ≡ n % 128 = omega arith in
        let holds' : Holds r (b + 256 * y) = rw (v.large n big u) at holds in
        let len' = len + b % 128 * 2 ^ (i * 7) in
        let seven : suc rounds * 7 ≡ 7 + rounds * 7 = omega arith in
        let high : n / 128 < 2 ^ (rounds * 7) =
          omega (arith, ap (λ t. 2 ^ t) seven, pow_add 7 (rounds * 7)) in
        let (r', more, rest) =
          read_groups-encode rounds (i + 1) len' (n / 128) x (read 8 r).1 (omega arith) high
            (omega arith) (λ _. omega arith) (add_group i len b (omega arith) m).1
            (read_byte rounds i len b y r (omega arith) m (omega arith) holds').1 in
        let sum : len' + n / 128 * 2 ^ ((i + 1) * 7) ≡ len + n * 2 ^ (i * 7) = omega (
          arith,
          ap (λ t. t * 2 ^ (i * 7)) low,
          ap (λ t. n / 128 * t) (next_power i),
          ap (λ t. t * 2 ^ (i * 7)) (div-add-mod n 128),
        ) in
        (
          r',
          inner_round rounds i len b y r (omega arith) m (omega arith) holds' (omega arith)
              ∙ more
              ∙ ap (λ t. ok (t, r')) sum,
          rest,
        )
  ]

  read_long :
      (len x : ℕ) (r : BitReader)
      → 0 < len
      → len < 2 ^ 63
      → Holds r (value_then (encode len) x * 4)
      → (r' : BitReader) × (read_len r ≡ ok (some len, r')) × Holds r' x
  read_long len x r p h holds =
      let (bit1, bit2, left) = long_prefix (value_then (encode len) x) r holds in
      let (r', e, rest) =
        read_groups-encode 9 0 0 len x (read 1 (read 1 r).1).1 (omega arith) h (omega arith)
          (λ q. p) (omega arith) left in
      let whole : 0 + len * 1 ≡ len = omega arith in
      (r', opened r r' len bit1 bit2 (e ∙ ap (λ t. ok (t, r')) whole) p, rest)

  -- A number of more groups than there are rounds is refused.
  read_groups-too_long :
      (rounds i len n x : ℕ) (r : BitReader)
      → i + rounds ≡ 9
      → 2 ^ (rounds * 7) ≤ n
      → n < usize_mod
      → len < 2 ^ (i * 7)
      → Holds r (value_then (encode n) x)
      → read_groups rounds i len r ≡ err invalid_varint
  unfolding value_then
  read_groups-too_long zero i len n x r h l u m holds = no_round i len r
  read_groups-too_long (suc rounds) i len n x r h l u m holds =
      let seven : suc rounds * 7 ≡ 7 + rounds * 7 = omega arith in
      let power : 2 ^ (suc rounds * 7) ≡ 128 * 2 ^ (rounds * 7) =
        ap (λ t. 2 ^ t) seven ∙ pow_add 7 (rounds * 7) in
      let b = n % 128 + 128 in
      let y = value_then (encode (n / 128)) x in
      let holds' : Holds r (b + 256 * y) =
        rw (v.large n (omega (arith, power, pow_pos (rounds * 7))) u) at holds in
      inner_round rounds i len b y r (omega arith) m (omega arith) holds' (omega arith)
      ∙ read_groups-too_long rounds (i + 1) (len + b % 128 * 2 ^ (i * 7)) (n / 128) x (read 8 r).1
          (omega arith) (omega (arith, power)) (omega arith) (add_group i len b (omega arith) m).1
          (read_byte rounds i len b y r (omega arith) m (omega arith) holds').1

  -- `read_len` refuses a block of 2^63 or more.
  pub read_len-too_long :
      (len x : ℕ) (r : BitReader)
      → 2 ^ 63 ≤ len
      → len < usize_mod
      → Holds r (put_len encode len x)
      → read_len r ≡ err invalid_varint
  unfolding put_len
  read_len-too_long len x r h l holds =
      let other : (len == 1) ≡ false = ground arith in
      let long : ltb len 16 ≡ false = ground arith in
      let (bit1, bit2, rest) =
        long_prefix (value_then (encode len) x) r (rw (other, long) at holds) in
      refused r bit1 bit2 (read_groups-too_long 9 0 0 len x _ (omega arith) h l (omega arith) rest)

  -- `read_len` reads back a block below 2^63, and leaves what follows it.
  pub read_len-put_len :
      (len x : ℕ) (r : BitReader)
      → 0 < len
      → len < 2 ^ 63
      → Holds r (put_len encode len x)
      → (r' : BitReader) × (read_len r ≡ ok (some len, r')) × Holds r' x
  unfolding put_len
  read_len-put_len len x r p h holds = elim (Bool-cases (len == 1)) [
    | inl one ↦ read_single len x r ((==_iff len 1).0 one) (rw one at holds)
    | inr other ↦ elim (Bool-cases (ltb len 16)) [
      | inl short ↦ read_short len x r p (ltb→lt _ _ short) (rw (other, short) at holds)
      | inr long ↦ read_long len x r p h (rw (other, long) at holds)
    ]
  ]

  first_group : (len x : ℕ) → 0 < len → len < usize_mod → x + 1 ≤ value_then (encode len) x
  unfolding value_then
  first_group len x p h = elim (Bool-cases (ltb len 128)) [
    | inl e ↦ rw (v.small len (ltb→lt _ _ e)) (omega arith)
    | inr e ↦
        let big : 128 ≤ len = ground arith in
        rw (v.large len big h) (omega (arith, value_then-le (encode (len / 128)) x))
  ]

  -- A block is a number above twice the number that follows it.
  pub put_len-le : (len x : ℕ) → 0 < len → len < usize_mod → 2 * x + 1 ≤ put_len encode len x
  unfolding put_len
  put_len-le len x p h = elim (Bool-cases (len == 1)) [
    | inl one ↦ rw one (omega arith)
    | inr other ↦ elim (Bool-cases (ltb len 16)) [
      | inl short ↦ rw (other, short) (omega arith)
      | inr long ↦ rw (other, long) (omega (arith, first_group len x p h))
    ]
  ]
