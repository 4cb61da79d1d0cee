-- ===== src/BitField/Rle/Writer.antt =====
-- A bit writer builds a number, lowest bits first: `BitWriter` of
-- utils/bitfield/src/rleplus/writer.rs.
use Prim.Native.Nat.{bit_or}
use forest.Base.{
  ℕ, ◌+◌, ◌-◌, ◌*◌, ◌%◌, ◌^◌, ◌≤◌, ◌<◌, ◌≡◌, refl, ap, ◌∙◌, List, [], ◌∷◌, ◌++◌, arith, All, inl,
  inr, Bool-cases, leb, leb→le,
}
use forest.Base.Bits.{or_shift, pow_add, pow_pos, pow_mono}
use forest.BitField.Rle.{BitWriter, flush, write, u16_mod}
use forest.BitField.Rle.Reader.{IsByte, value}
use native.Mathlib.Nat.{mod-eq_of_lt}

-- Bytes below the number `x`.
unfoldable pub value_then : List ℕ → ℕ → ℕ
value_then [] x = x
value_then (b ∷ bs) x = b + 256 * value_then bs x

pub value_then-append :
    (bs : List ℕ) (c x : ℕ) → value_then (bs ++ (c ∷ [])) x ≡ value_then bs (c + 256 * x)
unfolding value_then
value_then-append [] c x = refl
value_then-append (b ∷ bs) c x = omega (arith, value_then-append bs c x)

pub value_then-zero : (bs : List ℕ) → value_then bs 0 ≡ value bs
unfolding value_then value
value_then-zero [] = refl
value_then-zero (b ∷ bs) = omega (arith, value_then-zero bs)

pub value-cons : (b : ℕ) (bs : List ℕ) → value (b ∷ bs) ≡ b + 256 * value bs
unfolding value
value-cons b bs = refl

pub All-append : (bs : List ℕ) (c : ℕ) → All IsByte bs → IsByte c → All IsByte (bs ++ (c ∷ []))
All-append [] c h k = (k, tt)
All-append (b ∷ bs) c h k = (h.0, All-append bs c h.1 k)

pub record IsWriter (w : BitWriter) : Type 0 where
  pub fewer : w.num_bits < 8
  pub bits-lt : w.bits < 2 ^ w.num_bits
  pub bytes_IsByte : All IsByte w.bytes

-- The number that a writer will have written, if `x` is written next.
unfoldable pub written : BitWriter → ℕ → ℕ
unfolding value_then
written w x = value_then w.bytes (w.bits + x * 2 ^ w.num_bits)

module _ (w : BitWriter) (below : w.num_bits ≤ 15) (bits : w.bits < 2 ^ w.num_bits)
    (bytes : All IsByte w.bytes) where
  flush-IsWriter : IsWriter (flush w)
  unfolding flush
  flush-IsWriter = elim (Bool-cases (leb 8 w.num_bits)) [
    | inl e ↦
        let full : 8 ≤ w.num_bits = leb→le _ _ e in
        let split : 2 ^ w.num_bits ≡ 256 * 2 ^ (w.num_bits - 8) =
          ap (λ t. 2 ^ t) (let q : w.num_bits ≡ 8 + (w.num_bits - 8) = omega arith in q)
          ∙ pow_add 8 (w.num_bits - 8) in
        rw e (record {
          fewer = omega arith;
          bits-lt = omega (arith, split);
          bytes_IsByte = All-append w.bytes _ bytes (omega arith);
        })
    | inr e ↦ rw e (record { fewer = ground arith; bits-lt = bits; bytes_IsByte = bytes })
  ]

  written-flush : (x : ℕ) → written (flush w) x ≡ written w x
  unfolding flush written
  written-flush x = elim (Bool-cases (leb 8 w.num_bits)) [
    | inl e ↦
        let full : 8 ≤ w.num_bits = leb→le _ _ e in
        let split : 2 ^ w.num_bits ≡ 256 * 2 ^ (w.num_bits - 8) =
          ap (λ t. 2 ^ t) (let q : w.num_bits ≡ 8 + (w.num_bits - 8) = omega arith in q)
          ∙ pow_add 8 (w.num_bits - 8) in
        rw (e, value_then-append) (ap (value_then w.bytes) (omega (arith, ap (λ t. x * t) split)))
    | inr e ↦ rw e refl
  ]

module _ (byte k : ℕ) (w : BitWriter) (k_le : k ≤ 8) (byte-lt : byte < 2 ^ k)
    (good : IsWriter w) where
  open good use {fewer, bits-lt, bytes_IsByte}

  both : 2 ^ (w.num_bits + k) ≡ 2 ^ w.num_bits * 2 ^ k
  both = pow_add w.num_bits k

  shifted-lt : byte * 2 ^ w.num_bits + 2 ^ w.num_bits ≤ 2 ^ (w.num_bits + k)
  shifted-lt = rw both (grind arith)

  joined : bit_or w.bits (byte * 2 ^ w.num_bits % u16_mod) ≡ w.bits + byte * 2 ^ w.num_bits
  joined =
      let top : 2 ^ (w.num_bits + k) ≤ 2 ^ 15 = pow_mono _ 15 (omega arith) in
      let fits : byte * 2 ^ w.num_bits % u16_mod ≡ byte * 2 ^ w.num_bits =
        mod-eq_of_lt (omega (arith, shifted-lt, pow_pos w.num_bits)) in
      rw fits (or_shift w.num_bits w.bits byte bits-lt)

  pub write-IsWriter : IsWriter (write byte k w)
  unfolding write
  write-IsWriter = rw joined (
      flush-IsWriter (record w { bits = w.bits + byte * 2 ^ w.num_bits; num_bits = w.num_bits + k })
        (omega arith) (omega (arith, shifted-lt)) bytes_IsByte)

  -- Writing `byte` puts its `k` digits below what is written next.
  pub written-write : (x : ℕ) → written (write byte k w) x ≡ written w (byte + x * 2 ^ k)
  unfolding write written
  written-write x = rw joined (
      written-flush (record w { bits = w.bits + byte * 2 ^ w.num_bits; num_bits = w.num_bits + k })
        (omega arith) (omega (arith, shifted-lt)) bytes_IsByte x
      ∙ ap (value_then w.bytes) (omega (arith, ap (λ t. x * t) both)))
