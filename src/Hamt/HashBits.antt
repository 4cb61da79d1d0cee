-- ===== src/Hamt/HashBits.antt =====
-- The bits of a hashed key, taken from the front: ipld/hamt/src/hash_bits.rs, and the errors of
-- ipld/hamt/src/error.rs.
use Prim.Native.Nat.{bit_and, compare, Ordering}
use forest.Base.{
  ℕ, zero, suc, ◌+◌, ◌-◌, ◌*◌, ◌/◌, ◌%◌, ◌^◌, ◌≤◌, ◌<◌, ◌≡◌, refl, ap, List, [], ◌∷◌, arith, ltb,
  length, if◌then◌else◌, false,
}
use forest.Base.Bits.{bit_and-le, and_mask, pow_add, pow_pos, pow_mono}
use native.Mathlib.Nat.{div-lt_iff_lt-mul, mod-lt}

pub data Error : Type 0 where
  max_depth invalid_hash_bit_len zero_pointers cid_not_found dynamic other : Error

-- `panicked` is the end of a call that does not return; `stuck` is no value of the code: a recursion
-- of the model has run out of fuel.
pub data Result {ℓ} (A : Type ℓ) : Type ℓ where
  ok : A → Result A
  err : Error → Result A
  panicked : Result A
  stuck : Result A

infixl 5 ◌>>=◌
abbrev pub ◌>>=◌ {ℓ κ} : {A : Type ℓ} {B : Type κ} → Result A → (A → Result B) → Result B
panicked >>= step = panicked
stuck >>= step = stuck
err failed >>= step = err failed
ok a >>= step = step a

abbrev pub byte_at : ℕ → List ℕ → ℕ
byte_at i [] = 0
byte_at zero (b ∷ bs) = b
byte_at (suc i) (b ∷ bs) = byte_at i bs

abbrev mkmask : ℕ → ℕ
mkmask n = 2 ^ n - 1

-- The recursion passes a byte's end at most once, as `i` is at most 8: two rounds are enough.
unfoldable pub next_bits : ℕ → List ℕ → ℕ → ℕ → ℕ
next_bits zero b consumed i = 0
next_bits (suc rounds) b consumed i =
    let leftb = 8 - consumed % 8 in
    let curb = byte_at (consumed / 8) b in
    let rest = next_bits rounds b (consumed + leftb) (i - leftb) in
    elim (compare i leftb) [
      | Ordering.eq ↦ bit_and (mkmask i) curb
      | Ordering.lt ↦
          bit_and (bit_and curb (mkmask leftb)) (0xFFFF_FFFF - mkmask (leftb - i)) / 2 ^ (leftb - i)
      | Ordering.gt ↦ bit_and (mkmask leftb) curb * 2 ^ (i - leftb) + rest
    ]

-- The next bits of the hash `b` and the new count of consumed bits.
unfoldable pub next : List ℕ → ℕ → ℕ → Result (ℕ × ℕ)
unfolding next_bits
next b consumed i =
    if ltb 8 i
    then err invalid_hash_bit_len
    else if ltb (length b * 8) (consumed + i)
    then err max_depth
    else ok (next_bits 2 b consumed i, consumed + i)

-- Fewer bits than are left in the byte.
inner-lt : (i l b m : ℕ) → i < l → bit_and (bit_and b (mkmask l)) m / 2 ^ (l - i) < 2 ^ i
inner-lt i l b m h =
    let power : 2 ^ i * 2 ^ (l - i) ≡ 2 ^ l =
      let e : l ≡ i + (l - i) = omega arith in
      omega (arith, ap (λ t. 2 ^ t) e, pow_add i (l - i)) in
    let below : b % 2 ^ l < 2 ^ l = mod-lt b (pow_pos l) in
    (div-lt_iff_lt-mul (pow_pos (l - i))).1
      (omega (arith, bit_and-le (bit_and b (mkmask l)) m, and_mask l b))

-- The rest of the byte, and bits of the next one.
outer-lt : (i l b r : ℕ) → l < i → r < 2 ^ (i - l) → bit_and (mkmask l) b * 2 ^ (i - l) + r < 2 ^ i
outer-lt i l b r h k =
    let power : 2 ^ l * 2 ^ (i - l) ≡ 2 ^ i =
      let e : i ≡ l + (i - l) = omega arith in
      omega (arith, ap (λ t. 2 ^ t) e, pow_add l (i - l)) in
    let high : bit_and (mkmask l) b + 1 ≤ 2 ^ l =
      omega (arith, bit_and-le (mkmask l) b, pow_pos l) in
    let product : bit_and (mkmask l) b * 2 ^ (i - l) + 2 ^ (i - l) ≤ 2 ^ l * 2 ^ (i - l) =
      grind arith in
    omega arith

next_bits-lt : (rounds : ℕ) (b : List ℕ) (consumed i : ℕ) → next_bits rounds b consumed i < 2 ^ i
unfolding next_bits
next_bits-lt zero b consumed i = pow_pos i
next_bits-lt (suc rounds) b consumed i =
    let l = 8 - consumed % 8 in
    let curb = byte_at (consumed / 8) b in
    ground (
      arith,
      bit_and-le (mkmask i) curb,
      pow_pos i,
      inner-lt i l curb (0xFFFF_FFFF - mkmask (l - i)),
      outer-lt i l curb (next_bits rounds b (consumed + l) (i - l)),
      next_bits-lt rounds b (consumed + l) (i - l),
    )

-- What `next` gives is an index below 256, and the count of consumed bits, which the key has no part in.
pub next_ok :
    (b : List ℕ) (consumed i idx consumed' : ℕ)
    → next b consumed i ≡ ok (idx, consumed')
    → (idx < 256) × (consumed' ≡ consumed + i) × (consumed + i ≤ length b * 8) × (i ≤ 8)
unfolding next
next_ok b consumed i idx consumed' h =
    let below = next_bits-lt 2 b consumed i in
    let byte : i ≤ 8 → 2 ^ i ≤ 256 = pow_mono i 8 in ground arith

-- Another hash of the same length has as many bits to give.
pub next-again :
    (b b' : List ℕ) (consumed i idx consumed' : ℕ)
    → length b' ≡ length b
    → next b consumed i ≡ ok (idx, consumed')
    → (j : ℕ) × (j < 256) × (next b' consumed i ≡ ok (j, consumed'))
unfolding next
next-again b b' consumed i idx consumed' e h =
    let (low, after, fits, small) = next_ok b consumed i idx consumed' h in
    let below = next_bits-lt 2 b' consumed i in
    let byte = pow_mono i 8 small in
    let some_left : ltb (length b' * 8) (consumed + i) ≡ false = ground arith in
    let short : ltb 8 i ≡ false = ground arith in
    (next_bits 2 b' consumed i, omega arith, rw (short, some_left, after) refl)
