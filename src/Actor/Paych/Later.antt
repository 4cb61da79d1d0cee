-- ===== src/Actor/Paych/Later.antt =====
-- How a channel's state may change between its creation and its deletion.
use mathlib.Core.Path.{subst}
use forest.Base.{
  ℕ, ◌≤◌, ◌≡◌, refl, sym, ◌∙◌, inl, inr, true, false, not, [], ◌∷◌, some, arith, has, if◌then◌else◌,
}
use forest.Base.Int.{ℤ, pos, ◌+ℤ◌, ◌≤ℤ◌, ltb_ℤ, eqb_ℤ, wrap_i64}
use forest.Actor.Error.{Result, ok, forbidden, illegal_state}
use forest.Actor.Map
use forest.Actor.Map.{nat_eq}
use forest.Actor.Runtime.{Bytes, Runtime}
use forest.Actor.Inversion.{guard_ok, put_state_ok}
use forest.Actor.Paych.Defs.{LaneState, State, SignedVoucher, settle_delay}
use forest.Actor.Paych.{start_settling}
use forest.Actor.Paych.Redeem.{Redeemed, IsRaised, IsDelayed}

-- The parties stay, no lane goes or falls back to a lower nonce, and once the channel settles its
-- settling epoch is only put off; so is the height before which it cannot be collected.
pub record Later (old new : State) : Type 0 where
  pub parties : (new.from ≡ old.from) × (new.to ≡ old.to)
  pub lanes :
      (l : ℕ) (a : LaneState)
      → Map.get l old.lane_states ≡ some a
      → (b : LaneState) × (Map.get l new.lane_states ≡ some b) × (a.nonce ≤ b.nonce)
  pub settles :
      eqb_ℤ old.settling_at (pos 0) ≡ false
      → (eqb_ℤ new.settling_at (pos 0) ≡ false) × (old.settling_at ≤ℤ new.settling_at)
  pub height : old.min_settle_height ≤ℤ new.min_settle_height

pub Later-refl : (st : State) → Later st st
Later-refl st = record {
  parties = (refl, refl);
  lanes = λ l a h. (a, h, omega arith);
  settles = λ e. (e, omega arith);
  height = omega arith;
}

pub Later-trans : (x y z : State) → Later x y → Later y z → Later x z
Later-trans x y z p q = record {
  parties = (q.parties.0 ∙ p.parties.0, q.parties.1 ∙ p.parties.1);
  lanes = λ l a h.
      let (b, e, k) = p.lanes l a h in let (c, f, n) = q.lanes l b e in (c, f, omega arith);
  settles = λ e. let (e1, l1) = p.settles e in let (e2, l2) = q.settles e1 in (e2, omega arith);
  height = omega (arith, p.height, q.height);
}

IsRaised-le : (height old new : ℤ) → IsRaised height old new → old ≤ℤ new
IsRaised-le height old new (inl (e, same)) = ground arith
IsRaised-le height old new (inr (given, le, above, r)) = le

-- A settling epoch that is put off does not become zero.
IsDelayed-le :
    (height old new : ℤ)
    → eqb_ℤ old (pos 0) ≡ false
    → IsDelayed height old new
    → (eqb_ℤ new (pos 0) ≡ false) × (old ≤ℤ new)
IsDelayed-le height old new set (inl (open_, e)) = absurd (ground arith)
IsDelayed-le height old new set (inr (settles, inl (e, same))) = (ground arith, ground arith)
IsDelayed-le height old new set (inr (settles, inr (given, le, above, inl same))) =
    (ground arith, le)
IsDelayed-le height old new set (inr (settles, inr (given, le, above, inr same))) =
    (ground arith, le)

pub Redeemed-Later :
    (sv : SignedVoucher) (balance : ℤ) (st st' : State) → Redeemed sv balance st st' → Later st st'
Redeemed-Later sv balance st st' r = record {
  parties = r.parties;
  lanes = r.lanes;
  settles = λ e. IsDelayed-le sv.min_settle_height st.settling_at st'.settling_at e r.settling;
  height = IsRaised-le sv.min_settle_height st.min_settle_height st'.min_settle_height r.height;
}

module _ {X : Type 0} (rt : Runtime State X) (encode : SignedVoucher → Result Bytes)
    (pack : Bytes → Result Bytes) where
  -- What `settle` has done when it succeeds.
  pub record Settled (st st' : State) : Type 0 where
    pub party : has rt.caller (st.from ∷ st.to ∷ []) ≡ true
    pub first : st.settling_at ≡ pos 0
    pub after_delay : wrap_i64 (rt.curr_epoch +ℤ pos settle_delay) ≤ℤ st'.settling_at
    pub after_height : st.min_settle_height ≤ℤ st'.settling_at
    pub rest : st' ≡ record st { settling_at = st'.settling_at }

  pub start_settling_ok :
      (st st' : State) → start_settling rt encode pack st ≡ ok (tt, st') → Settled st st'
  unfolding start_settling
  start_settling_ok st st' h =
      let (party, h1) = guard_ok (not (has rt.caller (st.from ∷ st.to ∷ []))) forbidden _ st h in
      let (first, h2) = guard_ok (not (eqb_ℤ st.settling_at (pos 0))) illegal_state _ st h1 in
      let at = wrap_i64 (rt.curr_epoch +ℤ pos settle_delay) in
      let e =
        put_state_ok
          (record st {
            settling_at = if ltb_ℤ at st.min_settle_height then st.min_settle_height else at;
          })
          st h2 in
      subst (Settled st) (sym e) (record {
        party = ground arith;
        first = ground arith;
        after_delay = ground arith;
        after_height = ground arith;
        rest = refl;
      })

  pub Settled-Later : (st st' : State) → Settled st st' → Later st st'
  Settled-Later st st' s = subst (Later st) (sym s.rest) (record {
    parties = (refl, refl);
    lanes = λ l a h. (a, h, omega arith);
    settles = λ e. absurd (ground (arith, s.first));
    height = omega arith;
  })
