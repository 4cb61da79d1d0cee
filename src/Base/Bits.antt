-- ===== src/Base/Bits.antt =====
-- Bitwise `or` and `and` on machine words, at variables: the native operations are related to sums,
-- remainders and powers of two.
use Prim.Native.Nat.{
  ℕ, zero, suc, ◌+◌, ◌*◌, ◌/◌, ◌%◌, ◌^◌, ◌≤◌, ◌<◌, ◌-◌, max, min, bit_and, bit_or, digits,
  bit_and-bitwise, bit_or-bitwise,
}
use mathlib.Core.Path.{◌≡◌, refl, sym, ap, ◌∙◌}
use native.Mathlib.Omega.{arith}
use native.Mathlib.Nat.{
  zero-add, suc-add, mod-lt, mod-eq_of_lt, mod-one, div-eq_of_lt, div-add-mod',
  mul-add-mod_self_right, add-mul-div_right,
}

-- An operation on digits, lowest first, takes no more steps than its first word has digits.
module _ (z : ℕ → ℕ) (f : ℕ → ℕ → ℕ) where
  digits_settle : (k l a b : ℕ) → a ≤ k → a ≤ l → digits z f k a b ≡ digits z f l a b
  digits_settle zero zero a b p q = refl
  digits_settle (suc k) zero zero b p q = refl
  digits_settle zero (suc l) zero b p q = refl
  digits_settle (suc k) (suc l) zero b p q = refl
  digits_settle (suc k) zero (suc a) b p q = absurd (omega arith)
  digits_settle zero (suc l) (suc a) b p q = absurd (omega arith)
  digits_settle (suc k) (suc l) (suc a) b p q =
      let half = digits_settle k l (suc a / 2) (b / 2) (omega arith) (omega arith) in
      ap (λ t. t * 2 + f (suc a % 2) (b % 2)) half

  -- One digit of the result, where the rule for an exhausted first word agrees with `f`.
  digits_step :
      ((b : ℕ) → z b ≡ z (b / 2) * 2 + f 0 (b % 2))
      → (a b : ℕ) → digits z f a a b ≡ digits z f (a / 2) (a / 2) (b / 2) * 2 + f (a % 2) (b % 2)
  digits_step agree zero b = agree b
  digits_step agree (suc a) b =
      ap (λ t. t * 2 + f (suc a % 2) (b % 2))
        (digits_settle a (suc a / 2) (suc a / 2) (b / 2) (omega arith) (omega arith))

pub bit_or_step : (a b : ℕ) → bit_or a b ≡ bit_or (a / 2) (b / 2) * 2 + max (a % 2) (b % 2)
bit_or_step a b = omega (
  arith,
  bit_or-bitwise a b,
  bit_or-bitwise (a / 2) (b / 2),
  digits_step (λ x. x) max (λ x. omega arith) a b,
)

pub bit_and_step : (a b : ℕ) → bit_and a b ≡ bit_and (a / 2) (b / 2) * 2 + min (a % 2) (b % 2)
bit_and_step a b = omega (
  arith,
  bit_and-bitwise a b,
  bit_and-bitwise (a / 2) (b / 2),
  digits_step (λ x. 0) min (λ x. omega arith) a b,
)

zero-bit_or : (b : ℕ) → bit_or 0 b ≡ b
zero-bit_or b = bit_or-bitwise 0 b

pub pow_suc : (n : ℕ) → 2 ^ suc n ≡ 2 * 2 ^ n
pow_suc n = omega arith

pub pow_add : (m n : ℕ) → 2 ^ (m + n) ≡ 2 ^ m * 2 ^ n
pow_add zero n = ap (λ k. 2 ^ k) (zero-add n) ∙ omega arith
pow_add (suc m) n =
    ap (λ k. 2 ^ k) (suc-add m n) ∙ omega (arith, pow_add m n, ap (λ t. t * 2 ^ n) (pow_suc m))

double_pow : (c n : ℕ) → c * 2 ^ suc n ≡ 2 * (c * 2 ^ n)
double_pow c n = omega (arith, ap (λ t. c * t) (pow_suc n))

-- Below the n-th bit the first word alone counts, if the second has no bits there.
pub or_above :
    (n a c b : ℕ) → a < 2 ^ n → bit_or (a + c * 2 ^ n) (b * 2 ^ n) ≡ a + bit_or c b * 2 ^ n
or_above zero a c b h =
    let e : a + c * 1 ≡ c = omega arith in
    let e' : b * 1 ≡ b = omega arith in rw (e, e') (omega arith)
or_above (suc n) a c b h =
    let x = a + c * 2 ^ suc n in
    let y = b * 2 ^ suc n in
    let e : x / 2 ≡ a / 2 + c * 2 ^ n = omega (arith, double_pow c n) in
    let e' : y / 2 ≡ b * 2 ^ n = omega (arith, double_pow b n) in
    omega (
      arith,
      bit_or_step x y,
      ap (λ t. bit_or t (y / 2)) e,
      ap (λ t. bit_or (a / 2 + c * 2 ^ n) t) e',
      or_above n (a / 2) c b (omega arith),
      double_pow c n,
      double_pow b n,
      double_pow (bit_or c b) n,
    )

-- The word `b` set above the n-th bit of a word that has none there.
pub or_shift : (n a b : ℕ) → a < 2 ^ n → bit_or a (b * 2 ^ n) ≡ a + b * 2 ^ n
or_shift n a b h =
    let e : a + 0 * 2 ^ n ≡ a = omega arith in
    rw (← e) (or_above n a 0 b h ∙ rw (zero-bit_or b) (omega arith))

pub pow_pos : (n : ℕ) → 0 < 2 ^ n
pow_pos zero = omega arith
pow_pos (suc n) = omega (arith, pow_suc n, pow_pos n)

pub pow_mono : (m n : ℕ) → m ≤ n → 2 ^ m ≤ 2 ^ n
pow_mono zero n h = omega (arith, pow_pos n)
pow_mono (suc m) zero h = absurd (omega arith)
pow_mono (suc m) (suc n) h = omega (arith, pow_suc m, pow_suc n, pow_mono m n (omega arith))

-- The remainder of what is written with quotient `q` and remainder `r`.
pub mod_of : (m q r : ℕ) → r < m → (q * m + r) % m ≡ r
mod_of m q r h = mul-add-mod_self_right q m r ∙ mod-eq_of_lt h

pub div_of : (m q r : ℕ) → r < m → (r + q * m) / m ≡ q
div_of m q r h = add-mul-div_right r q (omega arith) ∙ omega (arith, div-eq_of_lt h)

pub mod_double : (x k : ℕ) → x % 2 ^ suc k ≡ 2 * (x / 2 % 2 ^ k) + x % 2
mod_double x k =
    let r = x / 2 % 2 ^ k in
    let q = x / 2 / 2 ^ k in
    let below : r < 2 ^ k = mod-lt (x / 2) (pow_pos k) in
    let e : x ≡ q * 2 ^ suc k + (2 * r + x % 2) =
      omega (arith, div-add-mod' (x / 2) (2 ^ k), double_pow q k) in
    ap (λ t. t % 2 ^ suc k) e ∙ mod_of (2 ^ suc k) q _ (omega (arith, pow_suc k))

bit_and-zero : (n a : ℕ) → a ≤ n → bit_and a 0 ≡ 0
bit_and-zero n zero h = bit_and-bitwise 0 0
bit_and-zero zero (suc a) h = absurd (omega arith)
bit_and-zero (suc n) (suc a) h =
    omega (arith, bit_and_step (suc a) 0, bit_and-zero n (suc a / 2) (omega arith))

-- A mask of `k` ones.
pub and_mask : (k x : ℕ) → bit_and x (2 ^ k - 1) ≡ x % 2 ^ k
and_mask zero x = bit_and-zero x x (omega arith) ∙ sym (mod-one x)
and_mask (suc k) x =
    let mask = 2 ^ suc k - 1 in
    let e : mask / 2 ≡ 2 ^ k - 1 = omega (arith, pow_suc k, pow_pos k) in
    omega (
      arith,
      bit_and_step x mask,
      ap (λ t. bit_and (x / 2) t) e,
      and_mask k (x / 2),
      mod_double x k,
      pow_suc k,
      pow_pos k,
    )

pub low_group : (b : ℕ) → bit_and b 0x7f ≡ b % 128
low_group b = and_mask 7 b

half_and : (b m : ℕ) → bit_and b (2 * m) ≡ 2 * bit_and (b / 2) m
half_and b m =
    let e : 2 * m / 2 ≡ m = omega arith in
    omega (arith, bit_and_step b (2 * m), ap (λ t. bit_and (b / 2) t) e)

-- The bit `k` of a number that has no higher ones.
and_pow : (k b : ℕ) → b < 2 ^ suc k → bit_and b (2 ^ k) + b % 2 ^ k ≡ b
and_pow zero b h = omega (arith, and_mask 1 b, mod-one b)
and_pow (suc k) b h = omega (
  arith,
  ap (λ t. bit_and b t) (pow_suc k),
  half_and b (2 ^ k),
  mod_double b k,
  and_pow k (b / 2) (omega (arith, pow_suc (suc k))),
)

pub top_bit : (b : ℕ) → b < 256 → bit_and b 0x80 ≡ b / 128 * 128
top_bit b h = omega (arith, and_pow 7 b h)

-- The low digits of a number add nothing to more of its low digits.
pub or_low : (j k b : ℕ) → j ≤ k → bit_or (b % 2 ^ j) (b % 2 ^ k) ≡ b % 2 ^ k
or_low zero k b h = rw (mod-one b, zero-bit_or) refl
or_low (suc j) zero b h = absurd (omega arith)
or_low (suc j) (suc k) b h =
    let x = b % 2 ^ suc j in
    let y = b % 2 ^ suc k in
    let e : x / 2 ≡ b / 2 % 2 ^ j = omega (arith, mod_double b j) in
    let e' : y / 2 ≡ b / 2 % 2 ^ k = omega (arith, mod_double b k) in
    omega (
      arith,
      bit_or_step x y,
      ap (λ t. bit_or t (y / 2)) e,
      ap (λ t. bit_or (b / 2 % 2 ^ j) t) e',
      or_low j k (b / 2) (omega arith),
      mod_double b j,
      mod_double b k,
    )

mul-lt-mul_right : (a b c : ℕ) → a < b → 0 < c → a * c < b * c
mul-lt-mul_right a b c h k =
    let e : a * c + (b - a) * c ≡ b * c =
      omega (arith, ap (λ t. t * c) (let x : a + (b - a) ≡ b = omega arith in x)) in
    let some_left : 0 < (b - a) * c = grind arith in omega arith

-- Shifting left by `n` in a word of `m + n` bits loses all but the low `m` digits.
pub shift_mod : (m n b : ℕ) → b * 2 ^ n % 2 ^ (m + n) ≡ b % 2 ^ m * 2 ^ n
shift_mod m n b =
    let r = b % 2 ^ m in
    let q = b / 2 ^ m in
    let below : r < 2 ^ m = mod-lt b (pow_pos m) in
    let e : b * 2 ^ n ≡ q * (2 ^ m * 2 ^ n) + r * 2 ^ n =
      omega (arith, ap (λ t. t * 2 ^ n) (div-add-mod' b (2 ^ m))) in
    rw (pow_add m n) (
      ap (λ t. t % (2 ^ m * 2 ^ n)) e
      ∙ mod_of (2 ^ m * 2 ^ n) q (r * 2 ^ n) (mul-lt-mul_right _ _ _ below (pow_pos n)))

and-le_fuel : (n a b : ℕ) → a ≤ n → bit_and a b ≤ a
and-le_fuel n zero b h = omega (arith, bit_and-bitwise 0 b)
and-le_fuel zero (suc a) b h = absurd (omega arith)
and-le_fuel (suc n) (suc a) b h =
    omega (arith, bit_and_step (suc a) b, and-le_fuel n (suc a / 2) (b / 2) (omega arith))

pub bit_and-le : (a b : ℕ) → bit_and a b ≤ a
bit_and-le a b = and-le_fuel a a b (omega arith)

pub and-zero : (a : ℕ) → bit_and a 0 ≡ 0
and-zero a = bit_and-zero a a (omega arith)

and_comm_fuel : (n a b : ℕ) → a ≤ n → bit_and a b ≡ bit_and b a
and_comm_fuel n zero b h = bit_and-bitwise 0 b ∙ sym (and-zero b)
and_comm_fuel zero (suc a) b h = absurd (omega arith)
and_comm_fuel (suc n) (suc a) b h = omega (
  arith,
  bit_and_step (suc a) b,
  bit_and_step b (suc a),
  and_comm_fuel n (suc a / 2) (b / 2) (omega arith),
)

pub and_comm : (a b : ℕ) → bit_and a b ≡ bit_and b a
and_comm a b = and_comm_fuel a a b (omega arith)

or-zero_fuel : (n a : ℕ) → a ≤ n → bit_or a 0 ≡ a
or-zero_fuel n zero h = zero-bit_or 0
or-zero_fuel zero (suc a) h = absurd (omega arith)
or-zero_fuel (suc n) (suc a) h =
    omega (arith, bit_or_step (suc a) 0, or-zero_fuel n (suc a / 2) (omega arith))

pub or-zero : (a : ℕ) → bit_or a 0 ≡ a
or-zero a = or-zero_fuel a a (omega arith)
