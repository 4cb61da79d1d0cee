-- ===== src/BitField/Rle/Reader.antt =====
-- A bit reader reads the bytes as one number, lowest bits first: `BitReader` of
-- utils/bitfield/src/rleplus/reader.rs.
use Prim.Native.Nat.{bit_or}
use forest.Base.{
  ℕ, suc, ◌+◌, ◌-◌, ◌*◌, ◌/◌, ◌%◌, ◌^◌, ◌≤◌, ◌<◌, ◌≡◌, refl, sym, ap, ◌∙◌, List, [], ◌∷◌, arith,
  All, length, inl, inr, Bool-cases, ltb, ltb→lt, if◌then◌else◌,
}
use forest.Base.Bits.{
  or_above, or_low, shift_mod, and_mask, pow_add, pow_pos, pow_mono, mod_of, div_of,
}
use forest.BitField.Rle.{BitReader, new_reader, read, head, tail, u16_mod, refill}
use native.Mathlib.Nat.{mod-lt, mod-one, div-add-mod', mod-eq_of_lt, div-lt_iff_lt-mul}

abbrev pub IsByte : ℕ → Type 0
IsByte b = b < 256

-- Bytes as one number, the first byte lowest.
unfoldable pub value : List ℕ → ℕ
value [] = 0
value (b ∷ bs) = b + 256 * value bs

value-tail : (bs : List ℕ) → value bs ≡ head bs + 256 * value (tail bs)
unfolding value
value-tail [] = refl
value-tail (b ∷ bs) = refl

pub value-lt : (bs : List ℕ) → All IsByte bs → value bs < 2 ^ (8 * length bs)
unfolding value
value-lt [] h = omega arith
value-lt (b ∷ bs) h =
    let e : 8 * suc (length bs) ≡ 8 + 8 * length bs = omega arith in
    rw e (omega (arith, value-lt bs h.1, pow_add 8 (8 * length bs)))

-- The number `v` is what the reader still has to read: `low` are the digits in `bits`, above which
-- `over` digits of the next byte may stand already.
pub record Holds (r : BitReader) (v : ℕ) : Type 0 where
  pub low : ℕ
  pub over : ℕ
  pub bits_eq : r.bits ≡ low + r.next_byte % 2 ^ over * 2 ^ r.num_bits
  pub low_lt : low < 2 ^ r.num_bits
  pub over_fits : over + r.num_bits ≤ 16
  pub over_le : over ≤ 8
  pub enough : (8 ≤ r.num_bits) × (r.num_bits ≤ 15)
  pub next_IsByte : IsByte r.next_byte
  pub rest_IsByte : All IsByte r.bytes
  pub value_eq : v ≡ low + (r.next_byte + 256 * value r.bytes) * 2 ^ r.num_bits

head-IsByte : (bs : List ℕ) → All IsByte bs → IsByte (head bs)
head-IsByte [] h = omega arith
head-IsByte (b ∷ bs) h = h.0

tail-IsByte : (bs : List ℕ) → All IsByte bs → All IsByte (tail bs)
tail-IsByte [] h = tt
tail-IsByte (b ∷ bs) h = h.1

pub new_reader-Holds : (bs : List ℕ) → All IsByte bs → Holds (new_reader bs) (value bs)
unfolding new_reader
new_reader-Holds bs h = record {
  low = head bs;
  over = 0;
  bits_eq = omega arith;
  low_lt = head-IsByte bs h;
  over_fits = omega arith;
  over_le = omega arith;
  enough = omega arith;
  next_IsByte = head-IsByte (tail bs) (tail-IsByte bs h);
  rest_IsByte = tail-IsByte (tail bs) (tail-IsByte bs h);
  value_eq = omega (arith, value-tail bs, value-tail (tail bs));
}

-- Whether `bits` still has eight digits, or takes in the next byte.
module _ (r : BitReader) (low over : ℕ) (n : ℕ)
    (bits : r.bits ≡ low + r.next_byte % 2 ^ over * 2 ^ n) (left : r.num_bits ≡ n)
    (small : low < 2 ^ n) (more : (over ≤ 8) × (over + n ≤ 16) × (n ≤ 15)) (full : n < 8 → over ≡ 8)
    (next : IsByte r.next_byte) (others : All IsByte r.bytes) where
  eight_more : 2 ^ (r.num_bits + 8) ≡ 256 * 2 ^ n
  eight_more = ap (λ t. 2 ^ (t + 8)) left ∙ pow_add n 8 ∙ omega arith

  whole_byte : n < 8 → r.bits ≡ low + r.next_byte * 2 ^ n
  whole_byte h =
      let e : r.next_byte % 2 ^ over ≡ r.next_byte =
        ap (λ t. r.next_byte % 2 ^ t) (full h) ∙ mod-eq_of_lt next in
      bits ∙ ap (λ t. low + t * 2 ^ n) e

  refilled-value :
      n < 8
      → low + (r.next_byte + 256 * value r.bytes) * 2 ^ n
        ≡ r.bits + (head r.bytes + 256 * value (tail r.bytes)) * 2 ^ (r.num_bits + 8)
  refilled-value h = omega (
    arith,
    whole_byte h,
    ap (λ t. t * 2 ^ n) (value-tail r.bytes),
    ap (λ t. (head r.bytes + 256 * value (tail r.bytes)) * t) eight_more,
  )

  byte_below : r.next_byte * 2 ^ n + 2 ^ n ≤ 256 * 2 ^ n
  byte_below = grind arith

  refill-Holds : Holds (refill r) (low + (r.next_byte + 256 * value r.bytes) * 2 ^ n)
  unfolding refill
  refill-Holds = elim (Bool-cases (ltb r.num_bits 8)) [
    | inl e ↦
        let below : n < 8 = rw left at (ltb→lt _ _ e) in
        rw e (record {
          low = r.bits;
          over = 0;
          bits_eq = omega (arith, ap (λ t. t * 2 ^ (r.num_bits + 8)) (mod-one (head r.bytes)));
          low_lt = omega (arith, eight_more, whole_byte below, byte_below);
          over_fits = omega arith;
          over_le = omega arith;
          enough = omega arith;
          next_IsByte = head-IsByte r.bytes others;
          rest_IsByte = tail-IsByte r.bytes others;
          value_eq = refilled-value below;
        })
    | inr e ↦ rw e (record {
      low = low;
      over = over;
      bits_eq = rw left bits;
      low_lt = rw left small;
      over_fits = omega arith;
      over_le = more.0;
      enough = ground arith;
      next_IsByte = next;
      rest_IsByte = others;
      value_eq = rw left refl;
    })
  ]

-- The digits of the next byte that fit a word of 16 bits, above `n` others.
abbrev fitting : ℕ → ℕ
fitting n = if ltb n 8 then 8 else 16 - n

fitting_lem :
    (n over k : ℕ)
    → n ≤ 15
    → over ≤ 8
    → over + (k + n) ≤ 16
    → (over ≤ fitting n) × (fitting n ≤ 8) × (fitting n + n ≤ 16) × (n < 8 → fitting n ≡ 8)
fitting_lem n over k h p q = (ground arith, ground arith, ground arith, λ e. ground arith)

shifted : (n b : ℕ) → n ≤ 15 → IsByte b → b * 2 ^ n % u16_mod ≡ b % 2 ^ fitting n * 2 ^ n
shifted n b h k =
    let e : 16 - n + n ≡ 16 = omega arith in
    let whole : b * 2 ^ n % u16_mod ≡ b % 2 ^ (16 - n) * 2 ^ n = rw e at (shift_mod (16 - n) n b) in
    elim (Bool-cases (ltb n 8)) [
      | inl f ↦
          let wide : 256 ≤ 2 ^ (16 - n) = pow_mono 8 (16 - n) (ground arith) in
          let same : b % 2 ^ (16 - n) ≡ b = mod-eq_of_lt (omega arith) in
          rw f (whole ∙ ap (λ t. t * 2 ^ n) (same ∙ omega arith))
      | inr f ↦ rw f whole
    ]

module _ (r : BitReader) (v : ℕ) (holds : Holds r v) (k n : ℕ) (k_le : k ≤ 8)
    (split : r.num_bits ≡ k + n) where
  open holds use {
    low, over, bits_eq, low_lt, over_fits, over_le, enough, next_IsByte, rest_IsByte, value_eq,
  }

  powers : 2 ^ r.num_bits ≡ 2 ^ k * 2 ^ n
  powers = ap (λ t. 2 ^ t) split ∙ pow_add k n

  -- What stands above the lowest `k` digits of a number made of `low` and others above it.
  parts :
      (w x : ℕ)
      → w ≡ low + x * 2 ^ r.num_bits
      → (w % 2 ^ k ≡ low % 2 ^ k) × (w / 2 ^ k ≡ low / 2 ^ k + x * 2 ^ n)
  parts w x e =
      let below : low % 2 ^ k < 2 ^ k = mod-lt low (pow_pos k) in
      let sum : w ≡ (low / 2 ^ k + x * 2 ^ n) * 2 ^ k + low % 2 ^ k =
        omega (arith, e, div-add-mod' low (2 ^ k), ap (λ t. x * t) powers) in
      (
        ap (λ t. t % 2 ^ k) sum ∙ mod_of (2 ^ k) _ _ below,
        ap (λ t. t / 2 ^ k) (sum ∙ omega arith) ∙ div_of (2 ^ k) _ (low % 2 ^ k) below,
      )

  low_small : low / 2 ^ k < 2 ^ n
  low_small = (div-lt_iff_lt-mul (pow_pos k)).1 (omega (arith, powers))

  joined :
      bit_or (r.bits / 2 ^ k) (r.next_byte * 2 ^ n % u16_mod)
      ≡ low / 2 ^ k + r.next_byte % 2 ^ fitting n * 2 ^ n
  joined =
      let small : n ≤ 15 = omega arith in
      let fits = fitting_lem n over k small over_le (rw split at over_fits) in
      rw ((parts r.bits _ bits_eq).1, shifted n r.next_byte small next_IsByte)
        (or_above n (low / 2 ^ k) _ _ low_small
          ∙ ap (λ t. low / 2 ^ k + t * 2 ^ n) (or_low over (fitting n) r.next_byte fits.0))

  byte_power : 2 ^ k ≤ 256
  byte_power = pow_mono k 8 k_le

  -- `read` takes off the lowest `k` digits.
  pub read_lem : ((read k r).0 ≡ v % 2 ^ k) × Holds (read k r).1 (v / 2 ^ k)
  unfolding read
  read_lem =
      let small : n ≤ 15 = omega arith in
      let fits = fitting_lem n over k small over_le (rw split at over_fits) in
      let whole = parts v _ value_eq in
      let left : r.num_bits - k ≡ n = omega arith in
      let below : low % 2 ^ k < 2 ^ k = mod-lt low (pow_pos k) in
      (
        rw and_mask (
            rw (parts r.bits _ bits_eq).0 (mod-eq_of_lt (omega (arith, byte_power)) ∙ sym whole.0)),
        rw (whole.1, left)
            (refill-Holds
              (record r {
                bits = bit_or (r.bits / 2 ^ k) (r.next_byte * 2 ^ n % u16_mod);
                num_bits = n;
              })
              (low / 2 ^ k) (fitting n) n joined refl low_small (fits.1, fits.2, small) fits.3
              next_IsByte rest_IsByte),
      )

pub read-Holds :
    (k : ℕ) (r : BitReader) (v : ℕ)
    → k ≤ 8
    → Holds r v
    → ((read k r).0 ≡ v % 2 ^ k) × Holds (read k r).1 (v / 2 ^ k)
read-Holds k r v h holds = read_lem r v holds k (r.num_bits - k) h (omega (arith, holds.enough))
