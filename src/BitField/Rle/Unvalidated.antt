-- ===== src/BitField/Rle/Unvalidated.antt =====
-- Bit fields whose bytes are decoded on first use: utils/bitfield/src/unvalidated.rs.
use Prim.Native.Nat.{bit_and}
use forest.Base.{
  ℕ, ◌%◌, ◌≡◌, ◌↔◌, refl, List, [], ◌∷◌, arith, All, inl, inr, Bool, Bool-cases, true, false, not,
  ◌&&◌, ◌==◌, ltb, if◌then◌else◌, length, ap,
}
use forest.Base.Bits.{and_mask}
use forest.BitField.Field.{BitField}
use forest.BitField.Rle.{
  Result, ok, err, stuck, too_large, incorrect_version, from_bytes, deserialize, max_encoded_size,
  version, head, ◌>>=◌,
}
use forest.BitField.Rle.Reader.{IsByte, value}
use forest.BitField.Rle.Decode.{refused_version}

pub data UnvalidatedBitField : Type 0 where
  validated : BitField → UnvalidatedBitField
  unvalidated : List ℕ → UnvalidatedBitField

abbrev pub keep : BitField → BitField × UnvalidatedBitField
keep f = (f, validated f)

-- The bit field, and what is kept in the place of the one validated.
pub validate_mut : UnvalidatedBitField → Result (BitField × UnvalidatedBitField)
validate_mut (validated f) = ok (keep f)
validate_mut (unvalidated bytes) = from_bytes bytes >>= λ f. ok (keep f)

abbrev is_nil : List ℕ → Bool
is_nil [] = true
is_nil (b ∷ bs) = false

pub deserialize_unvalidated : List ℕ → Result UnvalidatedBitField
deserialize_unvalidated bytes =
    if ltb max_encoded_size (length bytes)
    then err too_large
    else if not (is_nil bytes) && not (bit_and (head bytes) 3 == version)
    then err incorrect_version
    else ok (unvalidated bytes)

first_of : BitField × UnvalidatedBitField → Result BitField
first_of (f, u) = ok f

unbind : (m : Result BitField) (f : BitField) → (m >>= λ g. ok (keep g)) ≡ ok (keep f) → m ≡ ok f
unfolding first_of
unbind (ok g) f e = ap (λ r. r >>= first_of) e
unbind (err x) f e = cc
unbind stuck f e = cc

wrong_version :
    (bytes : List ℕ)
    → (not (is_nil bytes) && not (bit_and (head bytes) 3 == version)) ≡ true
    → (value bytes % 4 == version) ≡ false
unfolding value
wrong_version [] h = cc
wrong_version (b ∷ bs) h = let mask : bit_and b 3 ≡ b % 4 = and_mask 2 b in ground arith

-- A field whose bytes are decoded on first use is the one that decoding at once gives: reading in and
-- then validating succeeds with a field exactly when `BitField`'s own `deserialize` does.
pub validate_mut-deserialize_iff :
    (bytes : List ℕ) (f : BitField)
    → All IsByte bytes
    → ((deserialize_unvalidated bytes >>= validate_mut) ≡ ok (keep f)) ↔ (deserialize bytes ≡ ok f)
unfolding deserialize_unvalidated validate_mut deserialize
validate_mut-deserialize_iff bytes f h = elim (Bool-cases (ltb max_encoded_size (length bytes))) [
  | inl large ↦ rw large (λ e. cc, λ e. cc)
  | inr fits ↦
      rw fits (elim (Bool-cases (not (is_nil bytes) && not (bit_and (head bytes) 3 == version))) [
        | inl wrong ↦
            rw wrong
              (λ e. cc, λ e. absurd (refused_version bytes f h (wrong_version bytes wrong) e))
        | inr right ↦ rw right (unbind (from_bytes bytes) f, λ e. rw e refl)
      ])
]
