-- ===== src/Hamt/Slots.antt =====
-- The pointers of a node by their index: the bits of the bit field, and one element for each.
use forest.Base.{
  ℕ, zero, suc, ◌+◌, ◌/◌, ◌%◌, ◌≤◌, ◌<◌, ◌≡◌, refl, sym, ap, ◌∙◌, arith, List, [], ◌∷◌, Option,
  none, some, true, false, Bool-cases, inl, inr, ◌==◌, if◌then◌else◌, length,
}
use forest.Hamt.Bitfield.{
  test_bit, set_bit, rank, test_bit_zero, test_bit-suc, set_bit_zero, set_bit-suc, rank_zero,
  rank-suc,
}

suc-ne-zero : (i : ℕ) → (suc i == 0) ≡ false
suc-ne-zero i = ground arith

module _ {ℓ} {A : Type ℓ} where
  abbrev pub get_elem? : List A → ℕ → Option A
  get_elem? [] i = none
  get_elem? (x ∷ xs) zero = some x
  get_elem? (x ∷ xs) (suc i) = get_elem? xs i

  -- `Vec::insert`; past the end it panics, which is left out: the element then comes last.
  abbrev pub insert : ℕ → A → List A → List A
  insert zero p ps = p ∷ ps
  insert (suc i) p [] = p ∷ []
  insert (suc i) p (q ∷ qs) = q ∷ insert i p qs

  abbrev pub set : List A → ℕ → A → List A
  set [] i v = []
  set (x ∷ xs) zero v = v ∷ xs
  set (x ∷ xs) (suc i) v = x ∷ set xs i v

  abbrev pub head? : List A → Option A
  head? [] = none
  head? (p ∷ ps) = some p

  abbrev pub tail : List A → List A
  tail [] = []
  tail (p ∷ ps) = ps

  -- The element of the bit `i`, if that is set.
  pub slot : ℕ → List A → ℕ → Option A
  slot x ps zero = if x % 2 == 1 then head? ps else none
  slot x ps (suc i) = slot (x / 2) (if x % 2 == 1 then tail ps else ps) i

  get-tail : (ps : List A) (i : ℕ) → get_elem? ps (suc i) ≡ get_elem? (tail ps) i
  get-tail [] i = refl
  get-tail (p ∷ ps) i = refl

  get-head : (ps : List A) → get_elem? ps 0 ≡ head? ps
  get-head [] = refl
  get-head (p ∷ ps) = refl

  length-tail : (ps : List A) → length ps ≤ suc (length (tail ps))
  length-tail [] = omega arith
  length-tail (p ∷ ps) = omega arith

  head-insert :
      (r : ℕ) (p : A) (ps : List A) → suc r ≤ length ps → head? (insert (suc r) p ps) ≡ head? ps
  head-insert r p [] h = absurd (omega arith)
  head-insert r p (q ∷ qs) h = refl

  tail-insert :
      (r : ℕ) (p : A) (ps : List A)
      → suc r ≤ length ps
      → tail (insert (suc r) p ps) ≡ insert r p (tail ps)
  tail-insert r p [] h = absurd (omega arith)
  tail-insert r p (q ∷ qs) h = refl

  pub length-insert : (i : ℕ) (p : A) (ps : List A) → length (insert i p ps) ≡ suc (length ps)
  length-insert zero p ps = refl
  length-insert (suc i) p [] = refl
  length-insert (suc i) p (q ∷ qs) = ap suc (length-insert i p qs)

  pub length-set : (ps : List A) (i : ℕ) (p : A) → length (set ps i p) ≡ length ps
  length-set [] i p = refl
  length-set (q ∷ qs) zero p = refl
  length-set (q ∷ qs) (suc i) p = ap suc (length-set qs i p)

  pub get-some : (ps : List A) (i : ℕ) → i < length ps → (p : A) × (get_elem? ps i ≡ some p)
  get-some [] i h = absurd (omega arith)
  get-some (q ∷ qs) zero h = (q, refl)
  get-some (q ∷ qs) (suc i) h = get-some qs i (omega arith)

  pub slot-get :
      (w x : ℕ) (ps : List A) (i : ℕ)
      → i < w
      → slot x ps i ≡ (if test_bit x i then get_elem? ps (rank w x i) else none)
  unfolding slot
  slot-get zero x ps i h = absurd (omega arith)
  slot-get (suc w) x ps zero h = rw (test_bit_zero x, rank_zero (suc w) x, get-head ps) refl
  slot-get (suc w) x ps (suc i) h = elim (Bool-cases (x % 2 == 1)) [
    | inl odd ↦
        let one : x % 2 + rank w (x / 2) i ≡ suc (rank w (x / 2) i) = ground arith in
        rw (odd, test_bit-suc x i, rank-suc w x i, one, get-tail ps (rank w (x / 2) i))
          (slot-get w (x / 2) (tail ps) i (omega arith))
    | inr even ↦
        let none_more : x % 2 + rank w (x / 2) i ≡ rank w (x / 2) i = ground arith in
        rw (even, test_bit-suc x i, rank-suc w x i, none_more)
          (slot-get w (x / 2) ps i (omega arith))
  ]

  pub slot-set :
      (w x : ℕ) (ps : List A) (i : ℕ) (p : A) (j : ℕ)
      → i < w
      → test_bit x i ≡ true
      → rank w x i < length ps
      → slot x (set ps (rank w x i) p) j ≡ (if i == j then some p else slot x ps j)
  unfolding slot
  slot-set zero x ps i p j h b l = absurd (omega arith)
  slot-set (suc w) x [] i p j h b l = absurd (omega arith)
  slot-set (suc w) x (q ∷ qs) zero p zero h b l =
      rw (rank_zero (suc w) x, sym (test_bit_zero x) ∙ b) refl
  slot-set (suc w) x (q ∷ qs) zero p (suc j) h b l =
      let other : (0 == suc j) ≡ false = ground arith in
      rw (rank_zero (suc w) x, sym (test_bit_zero x) ∙ b, other) refl
  slot-set (suc w) x (q ∷ qs) (suc i) p zero h b l = elim (Bool-cases (x % 2 == 1)) [
    | inl odd ↦
        let one : x % 2 + rank w (x / 2) i ≡ suc (rank w (x / 2) i) = ground arith in
        rw (odd, rank-suc w x i, one, suc-ne-zero i) refl
    | inr even ↦ rw (even, suc-ne-zero i) refl
  ]
  slot-set (suc w) x (q ∷ qs) (suc i) p (suc j) h b l =
      let bit = sym (test_bit-suc x i) ∙ b in
      let same : (suc i == suc j) ≡ (i == j) = ground arith in
      elim (Bool-cases (x % 2 == 1)) [
        | inl odd ↦
            let one : x % 2 + rank w (x / 2) i ≡ suc (rank w (x / 2) i) = ground arith in
            rw (odd, rank-suc w x i, one, same)
              (slot-set w (x / 2) qs i p j (omega arith) bit (omega (arith, rank-suc w x i)))
        | inr even ↦
            let none_more : x % 2 + rank w (x / 2) i ≡ rank w (x / 2) i = ground arith in
            rw (even, rank-suc w x i, none_more, same)
              (slot-set w (x / 2) (q ∷ qs) i p j (omega arith) bit (omega (arith, rank-suc w x i)))
      ]

  -- An element put in, with its bit, leaves the other slots as they were.
  pub slot-insert :
      (w x : ℕ) (ps : List A) (i : ℕ) (p : A) (j : ℕ)
      → i < w
      → test_bit x i ≡ false
      → rank w x i ≤ length ps
      → slot (set_bit x i) (insert (rank w x i) p ps) j ≡ (if i == j then some p else slot x ps j)
  unfolding slot
  slot-insert zero x ps i p j h b l = absurd (omega arith)
  slot-insert (suc w) x ps zero p zero h b l =
      let one = (set_bit_zero x).0 in
      let bit : (set_bit x 0 % 2 == 1) ≡ true = ground arith in rw (rank_zero (suc w) x, bit) refl
  slot-insert (suc w) x ps zero p (suc j) h b l =
      let (one, half) = set_bit_zero x in
      let bit : (set_bit x 0 % 2 == 1) ≡ true = ground arith in
      let other : (0 == suc j) ≡ false = ground arith in
      rw (rank_zero (suc w) x, bit, half, sym (test_bit_zero x) ∙ b, other) refl
  slot-insert (suc w) x ps (suc i) p zero h b l =
      let low : (set_bit x (suc i) % 2 == 1) ≡ (x % 2 == 1) =
        ap (λ t. t == 1) (set_bit-suc x i).0 in
      elim (Bool-cases (x % 2 == 1)) [
        | inl odd ↦
            let one : x % 2 + rank w (x / 2) i ≡ suc (rank w (x / 2) i) = ground arith in
            rw (low, odd, rank-suc w x i, one, suc-ne-zero i)
              (head-insert (rank w (x / 2) i) p ps (omega (arith, rank-suc w x i)))
        | inr even ↦ rw (low, even, suc-ne-zero i) refl
      ]
  slot-insert (suc w) x ps (suc i) p (suc j) h b l =
      let bit = sym (test_bit-suc x i) ∙ b in
      let (l0, half) = set_bit-suc x i in
      let low : (set_bit x (suc i) % 2 == 1) ≡ (x % 2 == 1) = ap (λ t. t == 1) l0 in
      let same : (suc i == suc j) ≡ (i == j) = ground arith in
      elim (Bool-cases (x % 2 == 1)) [
        | inl odd ↦
            let one : x % 2 + rank w (x / 2) i ≡ suc (rank w (x / 2) i) = ground arith in
            rw
              (
                low,
                odd,
                half,
                rank-suc w x i,
                one,
                same,
                tail-insert (rank w (x / 2) i) p ps (omega (arith, rank-suc w x i)),
              )
              (slot-insert w (x / 2) (tail ps) i p j (omega arith) bit
                (omega (arith, rank-suc w x i, length-tail ps)))
        | inr even ↦
            let none_more : x % 2 + rank w (x / 2) i ≡ rank w (x / 2) i = ground arith in
            rw (low, even, half, rank-suc w x i, none_more, same)
              (slot-insert w (x / 2) ps i p j (omega arith) bit (omega (arith, rank-suc w x i)))
      ]
