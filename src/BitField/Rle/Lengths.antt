-- ===== src/BitField/Rle/Lengths.antt =====
-- What `read_varint` and `read_len` do on any input: utils/bitfield/src/rleplus/reader.rs.
use Prim.Native.Nat.{bit_and, bit_or}
use forest.Base.{
  ℕ, suc, zero, ◌+◌, ◌*◌, ◌/◌, ◌%◌, ◌^◌, ◌≤◌, ◌<◌, ◌≡◌, ◌⊎◌, refl, ap, ◌∙◌, arith, inl, inr,
  Bool-cases, lt→ltb, some, none, Option, not, ◌||◌, ◌==◌,
}
use forest.Base.Words.{usize_mod}
use forest.Base.Bits.{or_shift, pow_add, pow_mono, low_group}
use forest.BitField.Rle.{
  BitReader, Result, ok, err, read, read_groups, read_varint, read_len, invalid_varint, found,
}
use forest.BitField.Rle.Reader.{Holds, read-Holds}
use native.Mathlib.Nat.{mod-eq_of_lt}

pub next_power : (i : ℕ) → 2 ^ ((i + 1) * 7) ≡ 128 * 2 ^ (i * 7)
next_power i =
    let e : (i + 1) * 7 ≡ i * 7 + 7 = omega arith in
    ap (λ t. 2 ^ t) e ∙ pow_add (i * 7) 7 ∙ omega arith

-- Adding the next group of seven digits to a length.
pub add_group :
    (i len b : ℕ)
    → i ≤ 8
    → len < 2 ^ (i * 7)
    → (bit_or len (bit_and b 0x7f * 2 ^ (i * 7) % usize_mod) ≡ len + b % 128 * 2 ^ (i * 7))
      × (len + b % 128 * 2 ^ (i * 7) < 2 ^ ((i + 1) * 7))
add_group i len b h l =
    let top : 2 ^ ((i + 1) * 7) ≤ 2 ^ 63 = pow_mono ((i + 1) * 7) 63 (omega arith) in
    let group : b % 128 * 2 ^ (i * 7) + 2 ^ (i * 7) ≤ 128 * 2 ^ (i * 7) = grind arith in
    let fits : b % 128 * 2 ^ (i * 7) % usize_mod ≡ b % 128 * 2 ^ (i * 7) =
      mod-eq_of_lt (omega (arith, next_power i)) in
    (rw (low_group b, fits) (or_shift (i * 7) len (b % 128) l), omega (arith, next_power i))

-- What reading from the number `v` leaves: a length, and a number that is no greater.
pub record Reads (v len len' : ℕ) (r' : BitReader) : Type 0 where
  pub left : ℕ
  pub left_Holds : Holds r' left
  pub left-le : left ≤ v
  pub len-lt : len' < 2 ^ 63
  pub nothing : v ≡ 0 → len' ≡ len

abbrev pub Outcome : (v len : ℕ) → Result (ℕ × BitReader) → Type 0
Outcome v len m =
    (m ≡ err invalid_varint)
    ⊎ ((len' : ℕ) × (r' : BitReader) × (m ≡ ok (len', r')) × Reads v len len' r')

Outcome_wider :
    (w v len' len : ℕ) (m : Result (ℕ × BitReader))
    → w ≤ v
    → (v ≡ 0 → len' ≡ len)
    → Outcome w len' m
    → Outcome v len m
Outcome_wider w v len' len m h z (inl e) = inl e
Outcome_wider w v len' len m h z (inr (l, r, e, o)) = inr (
  l,
  r,
  e,
  record {
    left = o.left;
    left_Holds = o.left_Holds;
    left-le = omega (arith, o.left-le);
    len-lt = o.len-lt;
    nothing = λ zero_left. o.nothing (omega arith) ∙ z zero_left;
  },
)

read_groups_cases :
    (rounds i len : ℕ) (r : BitReader) (v : ℕ)
    → i + rounds ≤ 9
    → len < 2 ^ (i * 7)
    → Holds r v
    → Outcome v len (read_groups rounds i len r)
unfolding read_groups
read_groups_cases zero i len r v h l holds = inl refl
read_groups_cases (suc rounds) i len r v h l holds =
    let byte = (read 8 r).0 in
    let len' = bit_or len (bit_and byte 0x7f * 2 ^ (i * 7) % usize_mod) in
    let (e, next) = read-Holds 8 r v (omega arith) holds in
    let (sum, below) = add_group i len byte (omega arith) l in
    let top : 2 ^ ((i + 1) * 7) ≤ 2 ^ 63 = pow_mono ((i + 1) * 7) 63 (omega arith) in
    let zeros : v ≡ 0 → len' ≡ len =
      λ z. omega (arith, sum, ap (λ t. t % 128 * 2 ^ (i * 7)) (e ∙ ap (λ t. t % 256) z)) in
    elim (Bool-cases (bit_and byte 0x80 == 0)) [
      | inl last ↦ rw last (elim (Bool-cases ((i == 0) || not (byte == 0))) [
        | inl whole ↦ rw whole (
            inr (
              len',
              (read 8 r).1,
              refl,
              record {
                left = v / 256;
                left_Holds = next;
                left-le = omega arith;
                len-lt = omega arith;
                nothing = zeros;
              },
            ))
        | inr bad ↦ rw bad (inl refl)
      ])
      | inr more ↦ rw more (
          Outcome_wider (v / 256) v len' len _ (omega arith) zeros (
            read_groups_cases rounds (i + 1) len' (read 8 r).1 (v / 256) (omega arith) (omega arith)
              next))
    ]

-- A block that was read: its length, and what is left to read, with a bit less at least.
pub record Block (v len : ℕ) (r' : BitReader) : Type 0 where
  pub left : ℕ
  pub left_Holds : Holds r' left
  pub half : 2 * left ≤ v
  pub some_left : 0 < v
  pub len_pos : 0 < len
  pub len-lt : len < 2 ^ 63

abbrev pub BlockOutcome : ℕ → Result (Option ℕ × BitReader) → Type 0
BlockOutcome v m =
    (m ≡ err invalid_varint)
    ⊎ ((r' : BitReader) × (m ≡ ok (none, r')))
    ⊎ ((len : ℕ) × (r' : BitReader) × (m ≡ ok (some len, r')) × Block v len r')

Nat-cases : (n : ℕ) → (n ≡ 0) ⊎ (0 < n)
Nat-cases zero = inl refl
Nat-cases (suc n) = inr (omega arith)

found_cases :
    (v w len : ℕ) (r' : BitReader)
    → Holds r' w
    → 2 * w ≤ v
    → len < 2 ^ 63
    → (v ≡ 0 → len ≡ 0)
    → BlockOutcome v (ok (found (len, r')))
found_cases v w zero r' holds h l z = inr (inl (r', refl))
found_cases v w (suc k) r' holds h l z = inr (
    inr (
      suc k,
      r',
      rw (lt→ltb 0 (suc k) (omega arith)) refl,
      record {
        left = w;
        left_Holds = holds;
        half = h;
        some_left = elim (Nat-cases v) [ inl e ↦ absurd (omega (arith, z e)) | inr p ↦ p ];
        len_pos = omega arith;
        len-lt = l;
      },
    ))

-- On any input `read_len` finds a block, or the end, or an invalid varint; at zero it finds the end.
pub read_len_cases : (r : BitReader) (v : ℕ) → Holds r v → BlockOutcome v (read_len r)
unfolding read_len read_varint
read_len_cases r v holds =
    let (e1, h1) = read-Holds 1 r v (omega arith) holds in
    let r1 = (read 1 r).1 in
    let (e2, h2) = read-Holds 1 r1 (v / 2) (omega arith) h1 in
    let r2 = (read 1 r1).1 in
    let (e4, h4) = read-Holds 4 r2 (v / 2 / 2) (omega arith) h2 in
    elim (Bool-cases ((read 1 r).0 == 1)) [
      | inl single ↦
          rw single (found_cases v (v / 2) 1 r1 h1 (omega arith) (omega arith) (λ z. ground arith))
      | inr other ↦ rw other (elim (Bool-cases ((read 1 r1).0 == 1)) [
        | inl short ↦ rw short (
            found_cases v (v / 2 / 2 / 16) (read 4 r2).0 (read 4 r2).1 h4 (omega arith)
              (omega arith) (λ z. omega arith))
        | inr long ↦
            rw long (elim (read_groups_cases 9 0 0 r2 (v / 2 / 2) (omega arith) (omega arith) h2) [
              | inl bad ↦ rw bad (inl refl)
              | inr (len, r', e, o) ↦ rw e (
                  found_cases v o.left len r' o.left_Holds (omega (arith, o.left-le)) o.len-lt
                    (λ z. o.nothing (omega arith)))
            ])
      ])
    ]
