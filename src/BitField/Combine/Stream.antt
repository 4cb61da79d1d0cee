-- ===== src/BitField/Combine/Stream.antt =====
-- The loop of `_Combine`, over the laws of a combinator that works bit by bit.
use forest.Base.{
  ℕ, zero, suc, ◌+◌, ◌≤◌, ◌<◌, ◌≡◌, refl, ap, sym, ◌∙◌, inl, inr, Bool, true, false, ◌||◌, List, [],
  ◌∷◌, Option, none, some, arith, leb, ltb, Bool-cases, length, le→leb, leb→le, ltb→lt,
}
use mathlib.Core.Path.{subst}
use native.Mathlib.Nat.{le_refl}
use forest.BitField.Range.{Range, mem, contains, Weak, Ascending}
use forest.BitField.Combine.{Combinator, Combine, outputs, keep, emit}

-- How a step of the loop changes the front range of one side: it may lose bits on the left.
abbrev pub Trims : Range → Range → Type 0
Trims r r' = (r.start ≤ r'.start) × (r'.start ≤ r'.end) × (r'.end ≡ r.end)

-- A range that stays out of the way of the bits behind it.
abbrev pub Before : ℕ → Range → Bool → Type 0
Before n r x = x ≡ true → r.end ≤ n

-- A tail is passed through, or dropped; `f` is what the combinator does to its bits.
abbrev pub TailLaw : (Bool → Bool) → Range → Option Range → Type 0
TailLaw f r none = (x : Bool) → f x ≡ false
TailLaw f r (some out) = (out ≡ r) × ((x : Bool) → f x ≡ x)

-- The contract of a combinator that computes `op` on every bit; `Low b` says that no output starts
-- below `b`.
pub record Laws {C : Type 0} (m : Combinator C) (op : Bool → Bool → Bool)
    (Low : ℕ → List Range → List Range → Type 0) : Type 0 where
  pub op_false : op false false ≡ false
  pub lhs_trims :
      (c : C) (l r : Range)
      → l.start ≤ l.end
      → r.start ≤ r.end
      → l.end ≤ r.end
      → Trims r (m.advance_lhs c l r).2
  pub rhs_trims :
      (c : C) (l r : Range)
      → l.start ≤ l.end
      → r.start ≤ r.end
      → r.end < l.end
      → Trims l (m.advance_rhs c l r).2
  pub lhs_bit :
      (c : C) (l r : Range) (n : ℕ) (x y : Bool)
      → l.start ≤ l.end
      → r.start ≤ r.end
      → l.end ≤ r.end
      → Before n l x
      → Before n r y
      → (contains n (m.advance_lhs c l r).1 || op x (contains n (m.advance_lhs c l r).2 || y))
        ≡ op (contains n l || x) (contains n r || y)
  pub rhs_bit :
      (c : C) (l r : Range) (n : ℕ) (x y : Bool)
      → l.start ≤ l.end
      → r.start ≤ r.end
      → r.end < l.end
      → Before n l x
      → Before n r y
      → (contains n (m.advance_rhs c l r).1 || op (contains n (m.advance_rhs c l r).2 || x) y)
        ≡ op (contains n l || x) (contains n r || y)
  pub lhs_tail : (c : C) (l : Range) → TailLaw (λ x. op x false) l (m.advance_lhs_tail c l)
  pub rhs_tail : (c : C) (r : Range) → TailLaw (λ y. op false y) r (m.advance_rhs_tail c r)
  pub lhs_low :
      (b : ℕ) (c : C) (l r : Range) (ls rs : List Range)
      → l.start ≤ l.end
      → r.start ≤ r.end
      → l.end ≤ r.end
      → Weak l.end ls
      → Weak r.end rs
      → Low b (l ∷ ls) (r ∷ rs)
      → (b ≤ (m.advance_lhs c l r).1.start)
        × Low (m.advance_lhs c l r).1.start ls ((m.advance_lhs c l r).2 ∷ rs)
        × Low b ls ((m.advance_lhs c l r).2 ∷ rs)
  pub rhs_low :
      (b : ℕ) (c : C) (l r : Range) (ls rs : List Range)
      → l.start ≤ l.end
      → r.start ≤ r.end
      → r.end < l.end
      → Weak l.end ls
      → Weak r.end rs
      → Low b (l ∷ ls) (r ∷ rs)
      → (b ≤ (m.advance_rhs c l r).1.start)
        × Low (m.advance_rhs c l r).1.start ((m.advance_rhs c l r).2 ∷ ls) rs
        × Low b ((m.advance_rhs c l r).2 ∷ ls) rs
  pub lhs_tail_low :
      (b : ℕ) (l : Range) (ls : List Range)
      → Weak l.start (l ∷ ls)
      → Low b (l ∷ ls) []
      → (op true false ≡ true)
      → (b ≤ l.start) × Low l.start ls [] × Low b ls []
  pub rhs_tail_low :
      (b : ℕ) (r : Range) (rs : List Range)
      → Weak r.start (r ∷ rs)
      → Low b [] (r ∷ rs)
      → (op false true ≡ true)
      → (b ≤ r.start) × Low r.start [] rs × Low b [] rs

-- Every bit of a list lies at or above its bound.
pub mem-ge : (b n : ℕ) (rs : List Range) → Weak b rs → mem n rs ≡ true → b ≤ n
mem-ge b n [] w h = absurd (cc)
mem-ge b n (r ∷ rs) w h = ground (arith, mem-ge r.end n rs w.2)

pub mem-keep :
    (n : ℕ) (r : Range) (rest : List Range) → mem n (keep r rest) ≡ (contains n r || mem n rest)
mem-keep n r rest = ground arith

abbrev pub state : {C : Type 0} → C → List Range → List Range → Combine C
state c ls rs = record { lhs = ls; rhs = rs; combinator = c }

module _ {C : Type 0} (m : Combinator C) where
  pub outputs-lhs :
      (fuel : ℕ) (c : C) (l r : Range) (ls rs : List Range)
      → l.end ≤ r.end
      → outputs m (suc fuel) (state c (l ∷ ls) (r ∷ rs))
        ≡ keep
            (m.advance_lhs c l r).1
            (outputs m fuel (state (m.advance_lhs c l r).0 ls ((m.advance_lhs c l r).2 ∷ rs)))
  unfolding outputs
  outputs-lhs fuel c l r ls rs h = rw (le→leb l.end r.end h) refl

  pub outputs-rhs :
      (fuel : ℕ) (c : C) (l r : Range) (ls rs : List Range)
      → leb l.end r.end ≡ false
      → outputs m (suc fuel) (state c (l ∷ ls) (r ∷ rs))
        ≡ keep
            (m.advance_rhs c l r).1
            (outputs m fuel (state (m.advance_rhs c l r).0 ((m.advance_rhs c l r).2 ∷ ls) rs))
  unfolding outputs
  outputs-rhs fuel c l r ls rs h = rw h refl

pub keep-Ascending :
    (b : ℕ) (r : Range) (rest : List Range)
    → b ≤ r.start
    → Ascending r.start rest
    → Ascending b rest
    → Ascending b (keep r rest)
keep-Ascending b r rest l a a' = elim (Bool-cases (ltb r.start r.end)) [
  | inl e ↦ rw (e, keep, Ascending) (l, ltb→lt _ _ e, a)
  | inr e ↦ rw (e, keep, Ascending) a'
]

module _ {C : Type 0} (m : Combinator C) {op : Bool → Bool → Bool}
    {Low : ℕ → List Range → List Range → Type 0} (k : Laws m op Low) where
  mem-emit :
      (n : ℕ) (f : Bool → Bool) (r : Range) (o : Option Range) (rest : List Range) (x : Bool)
      → TailLaw f r o
      → mem n rest ≡ f x
      → mem n (emit o rest) ≡ f (contains n r || x)
  mem-emit n f r none rest x t e = sym (t _)
  mem-emit n f r (some out) rest x t e =
      mem-keep n out rest
      ∙ ap (λ q. contains n q || mem n rest) t.0
      ∙ ap (λ y. contains n r || y) (e ∙ t.1 x)
      ∙ sym (t.1 _)

  -- With fuel for all the ranges the loop gives exactly the bits that `op` asks for.
  pub mem-outputs :
      (n fuel : ℕ) (c : C) (ls rs : List Range) (a b : ℕ)
      → Weak a ls
      → Weak b rs
      → length ls + length rs < fuel
      → mem n (outputs m fuel (state c ls rs)) ≡ op (mem n ls) (mem n rs)
  unfolding outputs
  mem-outputs n zero c ls rs a b wl wr h = absurd (omega arith)
  mem-outputs n (suc fuel) c [] [] a b wl wr h = sym (k.op_false)
  mem-outputs n (suc fuel) c (l ∷ ls) [] a b wl wr h =
      mem-emit n (λ x. op x false) l (m.advance_lhs_tail c l) _ (mem n ls) (k.lhs_tail c l)
        (mem-outputs n fuel c ls [] l.end 0 wl.2 tt (omega arith))
  mem-outputs n (suc fuel) c [] (r ∷ rs) a b wl wr h =
      mem-emit n (λ x. op false x) r (m.advance_rhs_tail c r) _ (mem n rs) (k.rhs_tail c r)
        (mem-outputs n fuel c [] rs 0 r.end tt wr.2 (omega arith))
  mem-outputs n (suc fuel) c (l ∷ ls) (r ∷ rs) a b wl wr h = elim (Bool-cases (leb l.end r.end)) [
    | inl le ↦
        let le' = leb→le _ _ le in
        let tr = k.lhs_trims c l r wl.1 wr.1 le' in
        let wr' : Weak r.start ((m.advance_lhs c l r).2 ∷ rs) = (tr.0, tr.1, rw tr.2 wr.2) in
        rw (outputs-lhs m fuel c l r ls rs le') (
          mem-keep n _ _
          ∙ ap (λ x. contains n (m.advance_lhs c l r).1 || x)
              (mem-outputs n fuel _ ls (_ ∷ rs) l.end r.start wl.2 wr' (omega arith))
          ∙ k.lhs_bit c l r n (mem n ls) (mem n rs) wl.1 wr.1 le' (mem-ge l.end n ls wl.2)
              (mem-ge r.end n rs wr.2))
    | inr gt ↦
        let gt' : r.end < l.end = ground arith in
        let tr = k.rhs_trims c l r wl.1 wr.1 gt' in
        let wl' : Weak l.start ((m.advance_rhs c l r).2 ∷ ls) = (tr.0, tr.1, rw tr.2 wl.2) in
        rw (outputs-rhs m fuel c l r ls rs gt) (
          mem-keep n _ _
          ∙ ap (λ x. contains n (m.advance_rhs c l r).1 || x)
              (mem-outputs n fuel _ (_ ∷ ls) rs l.start r.end wl' wr.2 (omega arith))
          ∙ k.rhs_bit c l r n (mem n ls) (mem n rs) wl.1 wr.1 gt' (mem-ge l.end n ls wl.2)
              (mem-ge r.end n rs wr.2))
  ]

  -- A tail that is passed on keeps `Low`; one that is dropped ends the loop.
  emit-Ascending :
      (b : ℕ) (f : Bool → Bool) (r : Range) (o : Option Range) (rest : List Range)
      → TailLaw f r o
      → (f true ≡ true → (b ≤ r.start) × Ascending r.start rest × Ascending b rest)
      → Ascending b (emit o rest)
  emit-Ascending b f r none rest t h = tt
  emit-Ascending b f r (some out) rest t h =
      let (l, a, a') = h (t.1 true) in
      subst (λ q. Ascending b (keep q rest)) (sym t.0) (keep-Ascending b r rest l a a')

  -- Its lower bounds do not decrease.
  pub outputs-Ascending :
      (b fuel : ℕ) (c : C) (ls rs : List Range) (a a' : ℕ)
      → Weak a ls
      → Weak a' rs
      → Low b ls rs
      → Ascending b (outputs m fuel (state c ls rs))
  unfolding outputs
  outputs-Ascending b zero c ls rs a a' wl wr h = tt
  outputs-Ascending b (suc fuel) c [] [] a a' wl wr h = tt
  outputs-Ascending b (suc fuel) c (l ∷ ls) [] a a' wl wr h =
      emit-Ascending b (λ x. op x false) l (m.advance_lhs_tail c l) _ (k.lhs_tail c l)
        λ t.
          let (low, q, q') = k.lhs_tail_low b l ls (le_refl _, wl.1, wl.2) h t in
          (
            low,
            outputs-Ascending l.start fuel c ls [] l.end 0 wl.2 tt q,
            outputs-Ascending b fuel c ls [] l.end 0 wl.2 tt q',
          )
  outputs-Ascending b (suc fuel) c [] (r ∷ rs) a a' wl wr h =
      emit-Ascending b (λ x. op false x) r (m.advance_rhs_tail c r) _ (k.rhs_tail c r)
        λ t.
          let (low, q, q') = k.rhs_tail_low b r rs (le_refl _, wr.1, wr.2) h t in
          (
            low,
            outputs-Ascending r.start fuel c [] rs 0 r.end tt wr.2 q,
            outputs-Ascending b fuel c [] rs 0 r.end tt wr.2 q',
          )
  outputs-Ascending b (suc fuel) c (l ∷ ls) (r ∷ rs) a a' wl wr h =
      elim (Bool-cases (leb l.end r.end)) [
        | inl le ↦
            let le' = leb→le _ _ le in
            let tr = k.lhs_trims c l r wl.1 wr.1 le' in
            let wr' : Weak r.start ((m.advance_lhs c l r).2 ∷ rs) = (tr.0, tr.1, rw tr.2 wr.2) in
            let (low, q, q') = k.lhs_low b c l r ls rs wl.1 wr.1 le' wl.2 wr.2 h in
            rw (outputs-lhs m fuel c l r ls rs le') (
              keep-Ascending b _ _ low
                (outputs-Ascending _ fuel _ ls (_ ∷ rs) l.end r.start wl.2 wr' q)
                (outputs-Ascending b fuel _ ls (_ ∷ rs) l.end r.start wl.2 wr' q'))
        | inr gt ↦
            let gt' : r.end < l.end = ground arith in
            let tr = k.rhs_trims c l r wl.1 wr.1 gt' in
            let wl' : Weak l.start ((m.advance_rhs c l r).2 ∷ ls) = (tr.0, tr.1, rw tr.2 wl.2) in
            let (low, q, q') = k.rhs_low b c l r ls rs wl.1 wr.1 gt' wl.2 wr.2 h in
            rw (outputs-rhs m fuel c l r ls rs gt) (
              keep-Ascending b _ _ low
                (outputs-Ascending _ fuel _ (_ ∷ ls) rs l.start r.end wl' wr.2 q)
                (outputs-Ascending b fuel _ (_ ∷ ls) rs l.start r.end wl' wr.2 q'))
      ]
