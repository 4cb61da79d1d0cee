-- ===== src/BitField/Rle.antt =====
-- RLE+, the encoding of bit fields on chain: utils/bitfield/src/rleplus/mod.rs, reader.rs and writer.rs.
-- A byte is a number below 256, the lowest bit first. The crate `unsigned_varint` is a parameter of
-- the writer.
pub mod Reader
pub mod Lengths
pub mod Decode
pub mod Writer
pub mod Encode
pub mod Blocks
pub mod Start
pub mod RoundTrip
pub mod TooLong
pub mod Unvalidated
mod Tests
use Prim.Native.Nat.{bit_and, bit_or}
use forest.Base.{
  ℕ, zero, suc, ◌+◌, ◌-◌, ◌*◌, ◌/◌, ◌%◌, ◌^◌, Bool, true, false, not, ◌||◌, List, [], ◌∷◌, ◌++◌,
  Option, none, some, ltb, leb, ◌==◌, if◌then◌else◌, length,
}
use forest.Base.Words.{add_usize, sub_usize, usize_mod}
use forest.BitField.Range.{Range, range, len as range_len}
use forest.BitField.Field.{BitField, from_ranges, all_ranges}

abbrev pub u16_mod : ℕ
u16_mod = 0x1_0000

-- The texts of the errors. `too_large` is that of `Serialize` and `Deserialize`.
pub data Error : Type 0 where
  not_minimal incorrect_version invalid_varint overflow too_large : Error

-- `stuck` is no value of the code: the loop of `from_bytes` has run out of fuel.
pub data Result {ℓ} (A : Type ℓ) : Type ℓ where
  ok : A → Result A
  err : Error → Result A
  stuck : Result A

infixl 5 ◌>>=◌
abbrev pub ◌>>=◌ {ℓ κ} : {A : Type ℓ} {B : Type κ} → Result A → (A → Result B) → Result B
stuck >>= step = stuck
err failed >>= step = err failed
ok a >>= step = step a

pub record BitReader : Type 0 where
  pub bytes : List ℕ
  pub next_byte : ℕ
  pub bits : ℕ
  pub num_bits : ℕ

-- The first element, zero if there is none: `bytes.get(0).unwrap_or(&0)`.
abbrev pub head : List ℕ → ℕ
head [] = 0
head (b ∷ bs) = b

abbrev pub tail : List ℕ → List ℕ
tail [] = []
tail (b ∷ bs) = bs

pub new_reader : List ℕ → BitReader
new_reader bytes = record {
  bytes = tail (tail bytes);
  next_byte = head (tail bytes);
  bits = head bytes;
  num_bits = 8;
}

-- The last part of `read`: fewer than eight bits take in `next_byte`.
refill : BitReader → BitReader
refill r =
    if ltb r.num_bits 8
    then record r { num_bits = r.num_bits + 8; next_byte = head r.bytes; bytes = tail r.bytes }
    else r

-- `num_bits` is at most 8, so that the subtraction cannot go below zero.
pub read : ℕ → BitReader → ℕ × BitReader
unfolding refill
read num_bits r =
    let mask = 2 ^ num_bits - 1 in
    let left = r.num_bits - num_bits in
    let bits = bit_or (r.bits / 2 ^ num_bits) (r.next_byte * 2 ^ left % u16_mod) in
    (bit_and r.bits mask % 256, refill (record r { bits = bits; num_bits = left }))

abbrev pub varint_max_bytes : ℕ
varint_max_bytes = 9

-- The loop of `read_varint`, with the rounds that are left, `i` and `len`.
pub read_groups : ℕ → ℕ → ℕ → BitReader → Result (ℕ × BitReader)
read_groups zero i len r = err invalid_varint
read_groups (suc rounds) i len r =
    let (byte, r') = read 8 r in
    let len' = bit_or len (bit_and byte 0x7f * 2 ^ (i * 7) % usize_mod) in
    let more = read_groups rounds (i + 1) len' r' in
    if bit_and byte 0x80 == 0
    then if (i == 0) || not (byte == 0) then ok (len', r') else err invalid_varint
    else more

pub read_varint : BitReader → Result (ℕ × BitReader)
unfolding read_groups
read_varint r = read_groups varint_max_bytes 0 0 r

-- The end of `read_len`.
abbrev pub found : ℕ × BitReader → Option ℕ × BitReader
found (len, r) = (if ltb 0 len then some len else none, r)

pub read_len : BitReader → Result (Option ℕ × BitReader)
unfolding read_varint
read_len r =
    let (prefix_0, r1) = read 1 r in
    if prefix_0 == 1
    then ok (found (1, r1))
    else let (prefix_1, r2) = read 1 r1 in
      if prefix_1 == 1 then ok (found (read 4 r2)) else (read_varint r2 >>= λ p. ok (found p))

-- The loop of `from_bytes`, on fuel: the ranges that it pushes from here on.
pub read_ranges : ℕ → Bool → ℕ → ℕ → BitReader → Result (List Range)
read_ranges zero next_value index total_len r = stuck
read_ranges (suc fuel) next_value index total_len r = read_len r >>= λ p.
    let (found_len, r') = p in
    elim found_len [
      | none ↦ ok []
      | some len ↦
          let end = add_usize index len in
          let rest = read_ranges fuel (not next_value) end ((total_len + len) % usize_mod) r' in
          if leb usize_mod (total_len + len)
          then err overflow
          else (rest >>= λ ranges. ok (if next_value then range index end ∷ ranges else ranges))
    ]

-- `bytes.last()` is a zero.
abbrev pub ends_in_zero : List ℕ → Bool
ends_in_zero [] = false
ends_in_zero (b ∷ []) = b == 0
ends_in_zero (b ∷ c ∷ bs) = ends_in_zero (c ∷ bs)

abbrev pub version : ℕ
version = 0

-- Each round of the loop takes a bit at least, so the number of bits is enough fuel.
pub from_bytes : List ℕ → Result BitField
unfolding read_ranges
from_bytes bytes =
    if ends_in_zero bytes
    then err not_minimal
    else let (v, r1) = read 2 (new_reader bytes) in
      if not (v == version)
      then err incorrect_version
      else let (first, r2) = read 1 r1 in
        (read_ranges (8 * length bytes + 1) (first == 1) 0 0 r2 >>= λ rs. ok (from_ranges rs))

pub record BitWriter : Type 0 where
  pub bytes : List ℕ
  pub bits : ℕ
  pub num_bits : ℕ

abbrev pub new_writer : BitWriter
new_writer = record { bytes = []; bits = 0; num_bits = 0 }

-- A full byte moves to `bytes`.
flush : BitWriter → BitWriter
flush w =
    if leb 8 w.num_bits
    then record {
      bytes = w.bytes ++ ((w.bits % 256) ∷ []);
      bits = w.bits / 256;
      num_bits = w.num_bits - 8;
    }
    else w

pub write : ℕ → ℕ → BitWriter → BitWriter
unfolding flush
write byte num_bits w = flush (record w {
  bits = bit_or w.bits (byte * 2 ^ w.num_bits % u16_mod);
  num_bits = w.num_bits + num_bits;
})

pub write_bytes : List ℕ → BitWriter → BitWriter
write_bytes [] w = w
write_bytes (b ∷ bs) w = write_bytes bs (write b 8 w)

-- `while let Some(0) = self.bytes.last()`: the zeros at the end are dropped.
keep_nonzero : ℕ → List ℕ → List ℕ
keep_nonzero b [] = if b == 0 then [] else b ∷ []
keep_nonzero b (c ∷ bs) = b ∷ c ∷ bs

pub pop_zeros : List ℕ → List ℕ
unfolding keep_nonzero
pop_zeros [] = []
pop_zeros (b ∷ bs) = keep_nonzero b (pop_zeros bs)

pub finish : BitWriter → List ℕ
unfolding pop_zeros
finish w = pop_zeros (if ltb 0 w.bits then w.bytes ++ ((w.bits % 256) ∷ []) else w.bytes)

abbrev pub max_encoded_size : ℕ
max_encoded_size = 0x8000

-- `encode` is `unsigned_varint::encode::usize`.
module _ (encode : ℕ → List ℕ) where
  pub write_len : ℕ → BitWriter → BitWriter
  write_len len w =
      if len == 1
      then write 1 1 w
      else if ltb len 16
      then write (len % 256) 4 (write 2 2 w)
      else write_bytes (encode len) (write 0 2 w)

  -- The loop of `to_bytes` over the ranges after the first.
  pub write_ranges : ℕ → List Range → BitWriter → BitWriter
  write_ranges index [] w = w
  write_ranges index (r ∷ rs) w =
      write_ranges r.end rs (write_len (range_len r) (write_len (sub_usize r.start index) w))

  -- The header, with the zeros before the first range.
  pub write_start : ℕ → BitWriter → BitWriter
  write_start start w = if start == 0 then write 1 1 w else write_len start (write 0 1 w)

  pub encode_ranges : List Range → List ℕ
  unfolding write_ranges write_start
  encode_ranges [] = []
  encode_ranges (r ∷ rs) =
      finish (
        write_ranges r.end rs
          (write_len (range_len r) (write_start r.start (write 0 2 new_writer))))

  pub to_bytes : BitField → List ℕ
  unfolding encode_ranges
  to_bytes f = encode_ranges (all_ranges f)

  -- `Serialize` and `Deserialize`, up to the bytes that serde carries.
  pub serialize : BitField → Result (List ℕ)
  unfolding to_bytes
  serialize f =
      let bytes = to_bytes f in
      if ltb max_encoded_size (length bytes) then err too_large else ok bytes

pub deserialize : List ℕ → Result BitField
unfolding from_bytes
deserialize bytes = if ltb max_encoded_size (length bytes) then err too_large else from_bytes bytes
