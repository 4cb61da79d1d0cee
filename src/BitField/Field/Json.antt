-- ===== src/BitField/Field/Json.antt =====
-- The JSON form of a bit field: `json` in utils/bitfield/src/lib.rs. The sequence of lengths is the
-- JSON array; how serde prints its numbers is left out.
use forest.Base.{
  ℕ, suc, ◌+◌, ◌-◌, ◌%◌, ◌≤◌, ◌<◌, ◌≡◌, ◌↔◌, refl, ap, sym, ◌∙◌, inl, inr, Bool, false, not, List,
  [], ◌∷◌, arith, Bool-cases, if◌then◌else◌,
}
use forest.Base.Words.{add_usize, sub_usize, add_usize-eq, sub_usize-eq, usize_mod}
use forest.BitField.Range.{Fit, Range, range, From}
use forest.BitField.Field.{BitField, from_ranges, all_ranges, is_empty}
use forest.BitField.Field.Laws.{IsField, all_ranges-IsRanges, mem-all_ranges}
use forest.BitField.Field.Equality.{ranges_ext}
use forest.BitField.Field.Order.{is_empty_iff}

-- `as u8`
abbrev pub as_u8 : ℕ → ℕ
as_u8 n = n % 256

-- The fold of `serialize`, from the end of the last range on.
pub lengths : ℕ → List Range → List ℕ
lengths last_index [] = []
lengths last_index (r ∷ rs) =
    as_u8 (sub_usize r.start last_index) ∷ as_u8 (sub_usize r.end r.start) ∷ lengths r.end rs

pub serialize : BitField → List ℕ
unfolding lengths
serialize m = if not (is_empty m) then lengths 0 (all_ranges m) else 0 ∷ []

-- The fold of `deserialize` over `(should_set, last_index)`.
pub read_lengths : Bool → ℕ → List ℕ → List Range
read_lengths should_set last_index [] = []
read_lengths should_set last_index (index ∷ rest) =
    let ending_index = add_usize index last_index in
    let others = read_lengths (not should_set) ending_index rest in
    if should_set then range last_index ending_index ∷ others else others

pub deserialize : List ℕ → BitField
unfolding read_lengths
deserialize bytes = from_ranges (read_lengths false 0 bytes)

-- Every gap and every run, from `last` on, is below 256.
abbrev pub Short : ℕ → List Range → Type 0
Short last [] = Unit {0}
Short last (r ∷ rs) = (r.start < last + 256) × (r.end < r.start + 256) × Short r.end rs

read_step :
    (last : ℕ) (r : Range) (rs : List Range)
    → last ≤ r.start
    → r.start < r.end
    → r.end < usize_mod
    → read_lengths false last (lengths last (r ∷ rs))
      ≡ range
          (last + (r.start - last) % 256)
          (last + (r.start - last) % 256 + (r.end - r.start) % 256)
        ∷ read_lengths false
            (last + (r.start - last) % 256 + (r.end - r.start) % 256)
            (lengths r.end rs)
unfolding lengths read_lengths
read_step last r rs h k m =
    let e : add_usize ((r.start - last) % 256) last ≡ last + (r.start - last) % 256 =
      add_usize-eq _ last (omega arith) ∙ omega arith in
    let e' : add_usize ((r.end - r.start) % 256) (last + (r.start - last) % 256)
        ≡ last + (r.start - last) % 256 + (r.end - r.start) % 256 =
      add_usize-eq _ (last + (r.start - last) % 256) (omega arith) ∙ omega arith in
    rw
      (sub_usize-eq r.start last h (omega arith), sub_usize-eq r.end r.start (omega arith) m, e, e')
      refl

read-Short :
    (b last : ℕ) (rs : List Range)
    → last ≤ b
    → From b rs
    → Fit rs
    → Short last rs
    → read_lengths false last (lengths last rs) ≡ rs
unfolding lengths read_lengths
read-Short b last [] l h m s = refl
read-Short b last (r ∷ rs) l h m s =
    let e : last + (r.start - last) % 256 ≡ r.start = omega arith in
    let e' : r.start + (r.end - r.start) % 256 ≡ r.end = omega arith in
    rw (read_step last r rs (omega arith) h.1 m.0, e, e')
      (ap (λ xs. r ∷ xs) (read-Short (suc r.end) r.end rs (omega arith) h.2 m.1 s.2))

abbrev first_start : List Range → ℕ
first_start [] = 0
first_start (r ∷ rs) = r.start

abbrev first_end : List Range → ℕ
first_end [] = 0
first_end (r ∷ rs) = r.end

abbrev others : List Range → List Range
others [] = []
others (r ∷ rs) = rs

Short-of_read :
    (b last : ℕ) (rs : List Range)
    → last ≤ b
    → From b rs
    → Fit rs
    → read_lengths false last (lengths last rs) ≡ rs
    → Short last rs
Short-of_read b last [] l h m e = tt
Short-of_read b last (r ∷ rs) l h m e =
    let step = sym (read_step last r rs (omega arith) h.1 m.0) ∙ e in
    let s : last + (r.start - last) % 256 ≡ r.start = ap first_start step in
    let t : last + (r.start - last) % 256 + (r.end - r.start) % 256 ≡ r.end = ap first_end step in
    let rest : read_lengths false r.end (lengths r.end rs) ≡ rs = rw t at (ap others step) in
    (omega arith, omega arith, Short-of_read (suc r.end) r.end rs (omega arith) h.2 m.1 rest)

-- An empty field is written as one gap of no bits.
no_ranges : read_lengths false 0 (0 ∷ []) ≡ read_lengths false 0 (lengths 0 [])
unfolding read_lengths lengths
no_ranges = refl

serialize_bits :
    (f : BitField)
    → IsField f
    → read_lengths false 0 (serialize f) ≡ read_lengths false 0 (lengths 0 (all_ranges f))
unfolding serialize
serialize_bits f v = elim (Bool-cases (is_empty f)) [
  | inl e ↦
      let none_left : all_ranges f ≡ [] =
        ranges_ext 0 _ [] (all_ranges-IsRanges f v) tt
          (λ n. mem-all_ranges f v n ∙ (is_empty_iff f v).0 e n) in
      rw (e, none_left) no_ranges
  | inr e ↦ rw e refl
]

-- Reading back what was written gives the ranges of the field exactly when every gap and every run
-- of set bits is shorter than 256: longer ones are cut off by the cast to `u8`.
pub deserialize-serialize_iff :
    (f : BitField)
    → IsField f
    → Fit (all_ranges f)
    → (deserialize (serialize f) ≡ from_ranges (all_ranges f)) ↔ Short 0 (all_ranges f)
unfolding deserialize
deserialize-serialize_iff f v m = (
  λ e.
      Short-of_read 0 0 (all_ranges f) (omega arith) (all_ranges-IsRanges f v) m
        (sym (serialize_bits f v) ∙ ap (λ g. g.ranges) e),
  λ s. ap from_ranges (
      serialize_bits f v
      ∙ read-Short 0 0 (all_ranges f) (omega arith) (all_ranges-IsRanges f v) m s),
)
