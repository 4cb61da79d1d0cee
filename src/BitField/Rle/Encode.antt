-- ===== src/BitField/Rle/Encode.antt =====
-- The number that `write_len` and `to_bytes` write: utils/bitfield/src/rleplus/mod.rs and writer.rs.
use forest.Base.{
  ℕ, suc, zero, ◌+◌, ◌-◌, ◌*◌, ◌/◌, ◌%◌, ◌^◌, ◌≤◌, ◌<◌, ◌≡◌, refl, sym, ap, ◌∙◌, List, [], ◌∷◌,
  ◌++◌, arith, All, inl, inr, Bool-cases, ltb, ltb→lt, false, ◌==◌, ==_iff, if◌then◌else◌,
}
use forest.Base.Bits.{pow_suc, pow_mono}
use forest.Base.Words.{usize_mod, sub_usize, sub_usize-eq}
use forest.BitField.Range.{Range, len as range_len, From, Fit}
use forest.BitField.Rle.{
  BitWriter, write, write_bytes, write_len, write_ranges, finish, pop_zeros, keep_nonzero,
  ends_in_zero,
}
use forest.BitField.Rle.Reader.{IsByte, value}
use forest.BitField.Rle.Writer.{
  value_then, value_then-append, value_then-zero, value-cons, All-append, IsWriter, written,
  write-IsWriter, written-write,
}

-- The documented format of `unsigned_varint`: groups of seven digits, the lowest first, of which all
-- but the last are marked by the top bit.
pub record IsVarint (encode : ℕ → List ℕ) : Type 0 where
  pub small : (n : ℕ) → n < 128 → encode n ≡ n ∷ []
  pub large : (n : ℕ) → 128 ≤ n → n < usize_mod → encode n ≡ (n % 128 + 128) ∷ encode (n / 128)

-- What `w'` adds to `w`: the number `code x` below whatever number `x` is written next.
pub record Adds (w w' : BitWriter) (code : ℕ → ℕ) : Type 0 where
  pub good : IsWriter w'
  pub adds : (x : ℕ) → written w' x ≡ written w (code x)

pub Adds-then :
    (w w' w'' : BitWriter) (c d : ℕ → ℕ)
    → Adds w w' c
    → (IsWriter w' → Adds w' w'' d)
    → Adds w w'' (λ x. c (d x))
Adds-then w w' w'' c d a next =
    let b = next a.good in record { good = b.good; adds = λ x. b.adds x ∙ a.adds (d x) }

pub write-Adds :
    (byte k : ℕ) (w : BitWriter)
    → k ≤ 8
    → byte < 2 ^ k
    → IsWriter w
    → Adds w (write byte k w) (λ x. byte + x * 2 ^ k)
write-Adds byte k w h l good = record {
  good = write-IsWriter byte k w h l good;
  adds = written-write byte k w h l good;
}

write_bytes-Adds :
    (bs : List ℕ) (w : BitWriter)
    → All IsByte bs
    → IsWriter w
    → Adds w (write_bytes bs w) (value_then bs)
unfolding write_bytes value_then
write_bytes-Adds [] w h good = record { good = good; adds = λ x. refl }
write_bytes-Adds (b ∷ bs) w h good =
    let first = write-Adds b 8 w (omega arith) h.0 good in
    let others = write_bytes-Adds bs (write b 8 w) h.1 first.good in
    record {
      good = others.good;
      adds = λ x. others.adds x ∙ first.adds (value_then bs x) ∙ ap (written w) (omega arith);
    }

pub Adds-eq : (w w' : BitWriter) (c d : ℕ → ℕ) → Adds w w' c → ((x : ℕ) → c x ≡ d x) → Adds w w' d
Adds-eq w w' c d a e = record { good = a.good; adds = λ x. a.adds x ∙ ap (written w) (e x) }

-- The number of a block, below the number `x` of what follows.
unfoldable pub put_len : (ℕ → List ℕ) → ℕ → ℕ → ℕ
put_len encode len x =
    if len == 1
    then 1 + x * 2
    else if ltb len 16
    then 2 + (len + x * 16) * 4
    else value_then (encode len) x * 4

-- The number of all blocks behind `index`.
unfoldable pub put_ranges : (ℕ → List ℕ) → ℕ → List Range → ℕ → ℕ
put_ranges encode index [] x = x
put_ranges encode index (r ∷ rs) x =
    put_len encode (r.start - index) (put_len encode (range_len r) (put_ranges encode r.end rs x))

module _ (encode : ℕ → List ℕ) (v : IsVarint encode) where
  encode-IsByte : (k n : ℕ) → n < 2 ^ k → n < usize_mod → All IsByte (encode n)
  encode-IsByte zero n h l = rw (v.small n (omega arith)) (omega arith)
  encode-IsByte (suc k) n h l = elim (Bool-cases (ltb n 128)) [
    | inl e ↦ rw (v.small n (ltb→lt _ _ e)) (omega (arith, ltb→lt _ _ e), tt)
    | inr e ↦
        let big : 128 ≤ n = ground arith in
        rw (v.large n big l)
          (omega arith, encode-IsByte k (n / 128) (omega (arith, pow_suc k)) (omega arith))
  ]

  pub write_len-Adds :
      (len : ℕ) (w : BitWriter)
      → len < usize_mod
      → IsWriter w
      → Adds w (write_len encode len w) (put_len encode len)
  unfolding write_len put_len
  write_len-Adds len w h good = elim (Bool-cases (len == 1)) [
    | inl one ↦
        rw one
          (Adds-eq w _ _ _ (write-Adds 1 1 w (omega arith) (omega arith) good) (λ x. rw one refl))
    | inr other ↦ rw other (elim (Bool-cases (ltb len 16)) [
      | inl short ↦
          let below : len < 16 = ltb→lt _ _ short in
          let byte : len % 256 ≡ len = omega arith in
          let prefix = write-Adds 2 2 w (omega arith) (omega arith) good in
          rw (short, byte)
            (Adds-eq w _ _ _
              (Adds-then w (write 2 2 w) _ _ _ prefix
                (write-Adds len 4 (write 2 2 w) (omega arith) below))
              (λ x. rw (other, short) refl))
      | inr long ↦
          let prefix = write-Adds 0 2 w (omega arith) (omega arith) good in
          let bytes = encode-IsByte 64 len h h in
          rw long (
            Adds-eq w _ _ _
              (Adds-then w (write 0 2 w) _ _ _ prefix
                (write_bytes-Adds (encode len) (write 0 2 w) bytes))
              (λ x. rw (other, long) (omega arith)))
    ])
  ]

  pub write_ranges-Adds :
      (index : ℕ) (rs : List Range) (w : BitWriter)
      → From (suc index) rs
      → Fit rs
      → IsWriter w
      → Adds w (write_ranges encode index rs w) (put_ranges encode index rs)
  unfolding write_ranges put_ranges
  write_ranges-Adds index [] w f fit good = record { good = good; adds = λ x. refl }
  write_ranges-Adds index (r ∷ rs) w f fit good =
      let start : sub_usize r.start index ≡ r.start - index =
        sub_usize-eq r.start index (omega arith) (omega arith) in
      let zeros = write_len-Adds (r.start - index) w (omega arith) good in
      let w1 = write_len encode (r.start - index) w in
      let w2 = write_len encode (range_len r) w1 in
      rw start (
        Adds-then w w1 _ _ _ zeros λ good1.
          Adds-then w1 w2 _ _ _ (write_len-Adds (range_len r) w1 (omega arith) good1)
            λ good2. write_ranges-Adds r.end rs w2 f.2 fit.1 good2)

-- A list of bytes that ends in no zero, and its number.
abbrev Finished : List ℕ → ℕ → Type 0
Finished bs n = (value bs ≡ n) × All IsByte bs × (ends_in_zero bs ≡ false)

keep_nonzero-Finished :
    (b : ℕ) (bs : List ℕ) (n : ℕ)
    → IsByte b
    → Finished bs n
    → Finished (keep_nonzero b bs) (b + 256 * n)
unfolding keep_nonzero value
keep_nonzero-Finished b [] n h (e, a, z) = elim (Bool-cases (b == 0)) [
  | inl zero_byte ↦ rw zero_byte (omega (arith, (==_iff b 0).0 zero_byte, e), tt, refl)
  | inr other ↦ rw other (omega (arith, e), (h, tt), other)
]
keep_nonzero-Finished b (c ∷ bs) n h (e, a, z) = (ap (λ t. b + 256 * t) e, (h, a), z)

pop_zeros-Finished : (bs : List ℕ) → All IsByte bs → Finished (pop_zeros bs) (value bs)
unfolding pop_zeros
pop_zeros-Finished [] h = (refl, tt, refl)
pop_zeros-Finished (b ∷ bs) h =
    rw (value-cons b bs)
      (keep_nonzero-Finished b (pop_zeros bs) (value bs) h.0 (pop_zeros-Finished bs h.1))

-- `finish` gives the bytes of the number written, with no zero at the end.
pub finish-Finished : (w : BitWriter) → IsWriter w → Finished (finish w) (written w 0)
unfolding finish written
finish-Finished w good = elim (Bool-cases (ltb 0 w.bits)) [
  | inl some_bits ↦
      let byte : w.bits < 256 =
        omega (arith, good.bits-lt, pow_mono w.num_bits 8 (omega (arith, good.fewer))) in
      let all =
        pop_zeros-Finished (w.bytes ++ ((w.bits % 256) ∷ []))
          (All-append w.bytes _ good.bytes_IsByte (omega arith)) in
      rw some_bits (
        all.0
            ∙ sym (value_then-zero (w.bytes ++ ((w.bits % 256) ∷ [])))
            ∙ value_then-append w.bytes (w.bits % 256) 0
            ∙ ap (value_then w.bytes) (omega (arith, byte)),
        all.1,
        all.2,
      )
  | inr no_bits ↦
      let all = pop_zeros-Finished w.bytes good.bytes_IsByte in
      rw no_bits (
        all.0 ∙ sym (value_then-zero w.bytes) ∙ ap (value_then w.bytes) (ground arith),
        all.1,
        all.2,
      )
]
