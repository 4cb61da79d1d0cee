-- ===== src/Hamt/Bitfield.antt =====
-- The bits that say which pointers a node has: ipld/hamt/src/bitfield.rs. The four words of 64 bits
-- are one number of 256 bits here.
use Prim.Native.Nat.{bit_and, bit_or}
use forest.Base.{
  ℕ, zero, suc, ◌+◌, ◌-◌, ◌*◌, ◌/◌, ◌%◌, ◌^◌, ◌≤◌, ◌<◌, ◌≡◌, refl, sym, ap, ◌∙◌, arith, ◌==◌, not,
  Bool, true, false,
}
use forest.Base.Bits.{
  and_mask, and_comm, and-zero, bit_and_step, bit_or_step, or-zero, mod_double, pow_suc,
}
use native.Mathlib.Nat.{mod-one}

abbrev pub width : ℕ
width = 256

unfoldable pub test_bit : ℕ → ℕ → Bool
test_bit x idx = not (bit_and x (2 ^ idx) == 0)

unfoldable pub set_bit : ℕ → ℕ → ℕ
set_bit x idx = bit_or x (2 ^ idx)

unfoldable pub clear_bit : ℕ → ℕ → ℕ
clear_bit x idx = bit_and x (2 ^ width - 1 - 2 ^ idx)

-- The number of ones among the lowest `w` bits.
unfoldable pub count_ones : ℕ → ℕ → ℕ
count_ones zero x = 0
count_ones (suc w) x = x % 2 + count_ones w (x / 2)

-- The ones below `idx`.
abbrev pub set_bits_le : ℕ → ℕ
set_bits_le bit = 2 ^ bit - 1

unfoldable pub index_for_bit_pos : ℕ → ℕ → ℕ
unfolding count_ones
index_for_bit_pos x bp = count_ones width (bit_and (set_bits_le bp) x)

-- The number of ones below the bit `i`.
unfoldable pub rank : ℕ → ℕ → ℕ → ℕ
unfolding count_ones
rank w x i = count_ones w (x % 2 ^ i)

pub index-rank : (x bp : ℕ) → index_for_bit_pos x bp ≡ rank width x bp
unfolding index_for_bit_pos rank
index-rank x bp = ap (count_ones width) (and_comm (2 ^ bp - 1) x ∙ and_mask bp x)

pub count_ones_zero : (w : ℕ) → count_ones w 0 ≡ 0
unfolding count_ones
count_ones_zero zero = refl
count_ones_zero (suc w) = omega (arith, count_ones_zero w)

pub test_bit_zero : (x : ℕ) → test_bit x 0 ≡ (x % 2 == 1)
unfolding test_bit
test_bit_zero x = let e = and_mask 1 x in ground arith

pub test_bit-suc : (x i : ℕ) → test_bit x (suc i) ≡ test_bit (x / 2) i
unfolding test_bit
test_bit-suc x i =
    let half : 2 ^ suc i / 2 ≡ 2 ^ i = omega (arith, pow_suc i) in
    let e : bit_and x (2 ^ suc i) ≡ bit_and (x / 2) (2 ^ i) * 2 =
      omega (arith, bit_and_step x (2 ^ suc i), ap (λ t. bit_and (x / 2) t) half, pow_suc i) in
    ground arith

pub set_bit_zero : (x : ℕ) → (set_bit x 0 % 2 ≡ 1) × (set_bit x 0 / 2 ≡ x / 2)
unfolding set_bit
set_bit_zero x = let e = bit_or_step x 1 in let e' = or-zero (x / 2) in omega arith

pub set_bit-suc :
    (x i : ℕ) → (set_bit x (suc i) % 2 ≡ x % 2) × (set_bit x (suc i) / 2 ≡ set_bit (x / 2) i)
unfolding set_bit
set_bit-suc x i =
    let half : 2 ^ suc i / 2 ≡ 2 ^ i = omega (arith, pow_suc i) in
    let e = bit_or_step x (2 ^ suc i) in
    let e' = ap (λ t. bit_or (x / 2) t) half in omega (arith, pow_suc i)

pub rank_zero : (w x : ℕ) → rank w x 0 ≡ 0
unfolding rank
rank_zero w x = ap (count_ones w) (mod-one x) ∙ count_ones_zero w

pub rank-suc : (w x i : ℕ) → rank (suc w) x (suc i) ≡ x % 2 + rank w (x / 2) i
unfolding rank count_ones
rank-suc w x i =
    let e : x % 2 ^ suc i / 2 ≡ x / 2 % 2 ^ i = omega (arith, mod_double x i) in
    omega (arith, mod_double x i, ap (count_ones w) e)

-- One bit more where it was clear.
pub count_ones-set_bit :
    (w x i : ℕ) → i < w → test_bit x i ≡ false → count_ones w (set_bit x i) ≡ suc (count_ones w x)
unfolding count_ones
count_ones-set_bit zero x i h e = absurd (omega arith)
count_ones-set_bit (suc w) x zero h e =
    let z = test_bit_zero x in
    let (one, half) = set_bit_zero x in
    let even : x % 2 ≡ 0 = ground arith in omega (arith, ap (count_ones w) half)
count_ones-set_bit (suc w) x (suc i) h e =
    let (low, half) = set_bit-suc x i in
    omega (
      arith,
      ap (count_ones w) half,
      count_ones-set_bit w (x / 2) i (omega arith) (sym (test_bit-suc x i) ∙ e),
    )

pub rank-le : (w x i : ℕ) → rank w x i ≤ count_ones w x
unfolding count_ones rank
rank-le zero x i = omega arith
rank-le (suc w) x zero = omega (arith, rank_zero (suc w) x)
rank-le (suc w) x (suc i) = omega (arith, rank-suc w x i, rank-le w (x / 2) i)

pub rank-lt : (w x i : ℕ) → i < w → test_bit x i ≡ true → rank w x i < count_ones w x
unfolding count_ones
rank-lt zero x i h e = absurd (omega arith)
rank-lt (suc w) x zero h e =
    let z = test_bit_zero x in
    let odd : x % 2 ≡ 1 = ground arith in omega (arith, rank_zero (suc w) x)
rank-lt (suc w) x (suc i) h e =
    omega (arith, rank-suc w x i, rank-lt w (x / 2) i (omega arith) (sym (test_bit-suc x i) ∙ e))

pub clear_zero : (i : ℕ) → test_bit 0 i ≡ false
unfolding test_bit
clear_zero i = ap (λ t. not (t == 0)) (and_comm 0 (2 ^ i) ∙ and-zero (2 ^ i))
