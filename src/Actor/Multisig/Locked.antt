-- ===== src/Actor/Multisig/Locked.antt =====
-- The linear release of the locked balance.
use native.Mathlib.Nat.{div-add-mod, mod-lt}
use mathlib.Core.Path.{subst, subst₂}
use forest.Base.{
  ◌↔◌, ◌⊎◌, ℕ, zero, suc, ◌+◌, ◌-◌, ◌*◌, ◌/◌, ◌≤◌, ◌<◌, ◌≡◌, refl, ap, sym, ◌∙◌, inl, inr, Bool,
  true, false, arith, if◌then◌else◌, Bool-cases, not,
}
use forest.Base.Int.{
  ℤ, pos, negsuc, pos_part, ◌-ℤ◌, ◌≤ℤ◌, ◌<ℤ◌, leb_ℤ, ltb_ℤ, eqb_ℤ, div_ceil, pos-*ℤ, pos--ℤ,
  wrap_i64, wrap_i64-eq, IsI64, i64_half, eq_of_parts,
}
use forest.Actor.Multisig.Defs.{State, locked, amount_locked, check_available}

ceil : ℕ → ℕ → ℕ
ceil a d = (a + d - 1) / d

ceil_lem : (a d : ℕ) → 0 < d → (a ≤ ceil a d * d) × (ceil a d * d < a + d)
unfolding ceil
ceil_lem a d h =
    let e = div-add-mod (a + d - 1) d in
    let m = mod-lt (a + d - 1) h in
    let c : d * ((a + d - 1) / d) ≡ ((a + d - 1) / d) * d = omega arith in
    (omega arith, omega arith)

mul_cancel : (x y d : ℕ) → 0 < d → x * d < y * d + d → x ≤ y
mul_cancel zero y d h k = omega arith
mul_cancel (suc x) zero d h k = absurd (omega arith)
mul_cancel (suc x) (suc y) d h k = omega (arith, mul_cancel x y d h (omega arith))

ceil_mono : (a b d : ℕ) → 0 < d → a ≤ b → ceil a d ≤ ceil b d
ceil_mono a b d h l =
    let p = ceil_lem a d h in
    let q = ceil_lem b d h in mul_cancel (ceil a d) (ceil b d) d h (omega arith)

ceil-le : (n r d : ℕ) → 0 < d → r ≤ d → ceil (n * r) d ≤ n
ceil-le n r d h l = let p = ceil_lem (n * r) d h in mul_cancel (ceil (n * r) d) n d h (grind arith)

locked_between :
    (n d e : ℕ)
    → 0 < e
    → e < d
    → d < i64_half
    → locked (pos n) (pos d) (pos e) ≡ pos (ceil (n * (d - e)) d)
unfolding locked ceil div_ceil
locked_between n d e h k l =
    let early : leb_ℤ (pos d) (pos e) ≡ false = ground arith in
    let late : leb_ℤ (pos e) (pos 0) ≡ false = ground arith in
    let rest : wrap_i64 (pos d -ℤ pos e) ≡ pos (d - e) =
      ap wrap_i64 (pos--ℤ d e (omega arith)) ∙ wrap_i64-eq (pos (d - e)) (omega arith) in
    rw (early, late, rest, pos-*ℤ) refl

locked_done : (i d e : ℤ) → d ≤ℤ e → locked i d e ≡ pos 0
unfolding locked
locked_done i d e h = ground arith

locked_before : (i d e : ℤ) → e <ℤ d → e ≤ℤ pos 0 → locked i d e ≡ i
unfolding locked
locked_before i d e h k = ground arith

-- The three phases of the release.
data Phase (d e : ℤ) : Type 0 where
  before : e <ℤ d → e ≤ℤ pos 0 → Phase d e
  between : (m k : ℕ) → d ≡ pos m → e ≡ pos k → 0 < k → k < m → Phase d e
  done : d ≤ℤ e → Phase d e

phase : (d e : ℤ) → Phase d e
phase d (negsuc k) = elim (Bool-cases (leb_ℤ d (negsuc k))) [
  | inl over ↦ done (ground arith)
  | inr open_ ↦ before (ground arith) (omega arith)
]
phase (negsuc m) (pos k) = done (omega arith)
phase (pos m) (pos zero) = elim (Bool-cases (leb_ℤ (pos m) (pos 0))) [
  | inl over ↦ done (ground arith)
  | inr open_ ↦ before (ground arith) (omega arith)
]
phase (pos m) (pos (suc k)) = elim (Bool-cases (leb_ℤ (pos m) (pos (suc k)))) [
  | inl over ↦ done (ground arith)
  | inr open_ ↦ between m (suc k) refl refl (omega arith) (ground arith)
]

locked_range :
    (n : ℕ) (d e : ℤ)
    → IsI64 d
    → Phase d e
    → (pos 0 ≤ℤ locked (pos n) d e) × (locked (pos n) d e ≤ℤ pos n)
locked_range n d e h (before p q) = rw (locked_before (pos n) d e p q) (omega arith, omega arith)
locked_range n d e h (done p) = rw (locked_done (pos n) d e p) (omega arith, omega arith)
locked_range n d e h (between m k a b p q) =
    let l : m < i64_half = omega (arith, (subst IsI64 a h).0) in
    rw (a, b, locked_between n m k p q l)
      (omega arith, omega (arith, ceil-le n (m - k) m (omega arith) (omega arith)))

locked-mono :
    (n : ℕ) (d e e' : ℤ)
    → IsI64 d
    → e ≤ℤ e'
    → Phase d e
    → Phase d e'
    → locked (pos n) d e' ≤ℤ locked (pos n) d e
locked-mono n d e e' h l (before p q) f =
    rw (locked_before (pos n) d e p q) (locked_range n d e' h f).1
locked-mono n d e e' h l (done p) f =
    rw (locked_done (pos n) d e p, locked_done (pos n) d e' (omega arith)) (omega arith)
locked-mono n d e e' h l (between m k a b p q) (done r) =
    rw (locked_done (pos n) d e' r) (locked_range n d e h (between m k a b p q)).0
locked-mono n d e e' h l (between m k a b p q) (before r s) =
    let l' : pos k ≤ℤ e' = subst (λ x. x ≤ℤ e') b l in absurd (omega arith)
locked-mono n d e e' h l (between m k a b p q) (between m' k' a' b' p' q') =
    let s : m < i64_half = omega (arith, (subst IsI64 a h).0) in
    let t : pos k' ≡ e' = sym b' in
    let same : m' ≡ m = ap pos_part (sym a' ∙ a) in
    let q'' : k' < m = omega arith in
    let le : k ≤ k' = omega (arith, subst₂ (λ x y. x ≤ℤ y) b b' l) in
    rw (a, b, b', locked_between n m k p q s, locked_between n m k' p' q'' s)
      (omega (arith, ceil_mono (n * (m - k')) (n * (m - k)) m (omega arith) (grind arith)))

nonneg_pos : (i : ℤ) → pos 0 ≤ℤ i → i ≡ pos (pos_part i)
nonneg_pos (pos n) h = refl
nonneg_pos (negsuc n) h = absurd (omega arith)

-- A lock of a balance that is not negative, over a duration that is an `i64`.
pub record IsLock (st : State) : Type 0 where
  pub funded : pos 0 ≤ℤ st.initial_balance
  pub sized : IsI64 st.unlock_duration

-- The locked amount stays between zero and the initial balance, never grows as epochs pass, is the
-- whole balance until the start and nothing from the end of the duration on.
pub amount_locked_lem :
    (st : State) (e e' : ℤ)
    → IsLock st
    → e ≤ℤ e'
    → (pos 0 ≤ℤ amount_locked st e)
      × (amount_locked st e ≤ℤ st.initial_balance)
      × (amount_locked st e' ≤ℤ amount_locked st e)
      × (e <ℤ st.unlock_duration → e ≤ℤ pos 0 → amount_locked st e ≡ st.initial_balance)
      × (st.unlock_duration ≤ℤ e → amount_locked st e ≡ pos 0)
unfolding amount_locked
amount_locked_lem st e e' h l =
    let n = pos_part st.initial_balance in
    let d = st.unlock_duration in
    let same = nonneg_pos st.initial_balance h.funded in
    let r = locked_range n d e h.sized (phase d e) in
    let eq : locked st.initial_balance d e ≡ locked (pos n) d e = ap (λ i. locked i d e) same in
    let eq' : locked st.initial_balance d e' ≡ locked (pos n) d e' = ap (λ i. locked i d e') same in
    (
      subst (λ x. pos 0 ≤ℤ x) (sym eq) r.0,
      subst₂ (λ x y. x ≤ℤ y) (sym eq) (sym same) r.1,
      subst₂ (λ x y. x ≤ℤ y) (sym eq') (sym eq)
          (locked-mono n d e e' h.sized l (phase d e) (phase d e')),
      λ p q. locked_before st.initial_balance d e p q,
      λ p. locked_done st.initial_balance d e p,
    )

-- In between it is the least whole amount that covers the share of the epochs that remain.
pub amount_locked_share :
    (st : State) (e : ℤ)
    → IsLock st
    → pos 0 <ℤ e
    → e <ℤ st.unlock_duration
    → let left = pos_part st.initial_balance * (pos_part st.unlock_duration - pos_part e) in
      let amount = pos_part (amount_locked st e) in
      (left ≤ amount * pos_part st.unlock_duration)
      × (amount * pos_part st.unlock_duration < left + pos_part st.unlock_duration)
unfolding amount_locked
amount_locked_share st e h p q =
    let m = pos_part st.unlock_duration in
    let k = pos_part e in
    let n = pos_part st.initial_balance in
    let i = nonneg_pos st.initial_balance h.funded in
    let d = nonneg_pos st.unlock_duration (omega arith) in
    let f = nonneg_pos e (omega arith) in
    let b =
      locked_between n m k (omega (arith, ap pos_part f, subst (λ x. pos 0 <ℤ x) f p))
        (omega (arith, subst₂ (λ x y. x <ℤ y) f d q)) (omega (arith, h.sized.0)) in
    let whole : locked st.initial_balance st.unlock_duration e ≡ pos (ceil (n * (m - k)) m) =
      (λ j. locked (i j) (d j) (f j)) ∙ b in
    subst (λ x. (n * (m - k) ≤ pos_part x * m) × (pos_part x * m < n * (m - k) + m)) (sym whole)
      (ceil_lem (n * (m - k)) m (omega (arith, subst₂ (λ x y. x <ℤ y) f d q)))

-- The tests of `check_available`, over what they compare.
available : (balance amount rest kept : ℤ) → Bool
available balance amount rest kept =
    if ltb_ℤ amount (pos 0)
    then false
    else if ltb_ℤ balance amount
    then false
    else if eqb_ℤ amount (pos 0)
    then true
    else not (ltb_ℤ rest kept)

available-true :
    (balance amount rest kept : ℤ)
    → available balance amount rest kept ≡ true
    → (pos 0 ≤ℤ amount) × (amount ≤ℤ balance) × ((amount ≡ pos 0) ⊎ (kept ≤ℤ rest))
unfolding available
available-true balance amount rest kept h = elim (Bool-cases (eqb_ℤ amount (pos 0))) [
  | inl zero_amount ↦ (ground arith, ground arith, inl (eq_of_parts amount (pos 0) (ground arith)))
  | inr some_amount ↦ (ground arith, ground arith, inr (ground arith))
]

true-available :
    (balance amount rest kept : ℤ)
    → (pos 0 ≤ℤ amount) × (amount ≤ℤ balance) × ((amount ≡ pos 0) ⊎ (kept ≤ℤ rest))
    → available balance amount rest kept ≡ true
unfolding available
true-available balance amount rest kept (a, b, inl e) = ground arith
true-available balance amount rest kept (a, b, inr l) = ground arith

-- `check_available` permits a spend exactly when it is not negative, is covered by the balance, and
-- leaves the locked amount untouched or is zero.
pub check_available_iff :
    (st : State) (balance amount epoch : ℤ)
    → (check_available st balance amount epoch ≡ true) ↔ (
        (pos 0 ≤ℤ amount)
        × (amount ≤ℤ balance)
        × ((amount ≡ pos 0)
            ⊎ (amount_locked st (wrap_i64 (epoch -ℤ st.start_epoch)) ≤ℤ balance -ℤ amount)))
unfolding check_available available
check_available_iff st balance amount epoch =
    let kept = amount_locked st (wrap_i64 (epoch -ℤ st.start_epoch)) in
    (
      available-true balance amount (balance -ℤ amount) kept,
      true-available balance amount (balance -ℤ amount) kept,
    )
