-- ===== src/Actor/Paych/Safety.antt =====
-- What later calls of a channel cannot undo.
use mathlib.Core.Path.{subst}
use forest.Base.{
  ℕ, ◌+◌, ◌≤◌, ◌<◌, ◌≡◌, Option-cases, sym, ap, ◌∙◌, inl, inr, arith, true, false, ◌||◌, [], ◌∷◌,
  none, some, has, Option,
}
use forest.Base.Int.{ℤ, pos, ◌+ℤ◌, ◌≤ℤ◌, eqb_ℤ, ltb_ℤ, wrap_i64, wrap_i64-eq, int_laws}
use forest.Actor.Error.{Result, ok, forbidden, Result-cases}
use forest.Actor.Map
use forest.Actor.Map.{nat_eq}
use forest.Actor.Runtime.{
  Address, Bytes, World, Runtime, read_state, validate_immediate_caller_is, method_send,
}
use forest.Actor.Inversion.{
  >>=-eq-ok, guard_ok, ok_inj, transaction_ok, read_state_ok, caller_is_ok,
}
use forest.Actor.Keeps.{Good, SendKeeps}
use forest.Actor.Paych.Defs.{
  State, LaneState, SignedVoucher, ModVerifyParams, UpdateChannelStateParams, settle_delay,
}
use forest.Actor.Paych.{update_channel_state, start_settling, settle, delete_actor, collect}
use forest.Actor.Paych.Redeem.{Redeemed, Opened}
use forest.Actor.Paych.Later.{Later, Later-refl, Later-trans, start_settling_ok}
use forest.Actor.Paych.Reach.{Leads, Leads-Good, Deletes}
use forest.Actor.Paych.Outcomes.{Asks, update_ok}

-- A lane on which vouchers up to a nonce have been redeemed.
abbrev pub Spent : ℕ → ℕ → State → Type 0
Spent lane nonce st = (b : LaneState) × (Map.get lane st.lane_states ≡ some b) × (nonce ≤ b.nonce)

Spent-Later :
    (lane nonce : ℕ) (st st' : State) → Later st st' → Spent lane nonce st → Spent lane nonce st'
Spent-Later lane nonce st st' l s =
    let (c, e, k) = l.lanes lane s.0 s.1 in (c, e, omega (arith, k, s.2))

Spent-refuses :
    (sv : SignedVoucher) (balance : ℤ) (nonce : ℕ) (st st' : State)
    → sv.nonce ≤ nonce
    → Spent sv.lane nonce st
    → Redeemed sv balance st st'
    → ⊥
Spent-refuses sv balance nonce st st' l s r =
    let k : Opened sv.nonce (some s.0) r.before =
      subst (λ o. Opened sv.nonce o r.before) s.1 r.opened in
    omega (arith, k.0, s.2)

-- The settling epoch is set, and not before a bound.
abbrev pub SettlesFrom : ℤ → State → Type 0
SettlesFrom e st = (eqb_ℤ st.settling_at (pos 0) ≡ false) × (e ≤ℤ st.settling_at)

SettlesFrom-Later : (e : ℤ) (st st' : State) → Later st st' → SettlesFrom e st → SettlesFrom e st'
SettlesFrom-Later e st st' l s = let (n, k) = l.settles s.0 in (n, omega (arith, k, s.1))

some_inj : (x y : State) → some x ≡ some y → x ≡ y
some_inj x y h = cc

wraps_not :
    (c : ℤ) (e : ℕ)
    → c ≡ pos e
    → e + settle_delay < 0x8000_0000_0000_0000
    → wrap_i64 (c +ℤ pos settle_delay) ≡ pos (e + settle_delay)
wraps_not c e h small =
    let k : c +ℤ pos settle_delay ≡ pos (e + settle_delay) =
      ap (λ x. x +ℤ pos settle_delay) h ∙ grind int_laws in
    ap wrap_i64 k ∙ wrap_i64-eq (pos (e + settle_delay)) (omega arith)

module _ {X : Type 0} (encode : SignedVoucher → Result Bytes) (pack : Bytes → Result Bytes) where
  -- A runtime whose messages lead along calls of the channel, and whose deletions delete.
  pub record Sound (rt : Runtime State X) : Type 0 where
    pub deletes : Deletes rt
    pub sends :
        (to : Address) (method : ℕ) (params : Bytes) (value : ℤ) (w1 : World State X) (b : Bytes)
        (w2 : World State X)
        → rt.send to method params value w1 ≡ ok (b, w2)
        → Leads encode pack w1 w2

  send_keeps :
      (P : State → Type 0)
      → ((st st' : State) → Later st st' → P st → P st')
      → (rt : Runtime State X) → Sound rt
      → SendKeeps P rt
  send_keeps P closed rt s to method params value w b w' g e =
      Leads-Good encode pack P closed w w' (s.sends to method params value w b w' e) g

  -- What sends keep, the message of a voucher keeps.
  Asks-Good :
      (P : State → Type 0) (rt : Runtime State X)
      → SendKeeps P rt
      → (extra : Option ModVerifyParams) (w w1 : World State X) → Good P w
      → Asks rt encode pack extra w w1
      → Good P w1
  Asks-Good P rt sends none w w1 g same = subst (Good P) (sym same) g
  Asks-Good P rt sends (some extra) w w1 g (bytes, e, ret, sent) =
      sends extra.actor extra.method bytes (pos 0) w ret w1 g sent

  -- Whatever calls follow one another after a channel's creation, and also while messages that it has
  -- sent call it again, the parties stay, no lane goes or falls back to a lower nonce, a settling epoch
  -- once set is only put off, and the least settling height never falls.
  pub Leads-Later :
      (w w' : World State X) (st st' : State)
      → Leads encode pack w w'
      → w.actor ≡ some st
      → w'.actor ≡ some st'
      → Later st st'
  Leads-Later w w' st st' l e f =
      Leads-Good encode pack (Later st) (λ x y p q. Later-trans st x y q p) w w' l
        (λ x i. subst (Later st) (cc) (Later-refl st)) st' f

  -- Once a voucher is redeemed, no voucher of the same lane with the same or a lower nonce is redeemed
  -- after it, whatever calls but a constructor come between, also as nested ones, in a runtime whose
  -- messages lead along such calls of the channel and whose deletions delete.
  pub no_replay :
      (rt rt' : Runtime State X)
      → Sound rt'
      → (first again : UpdateChannelStateParams) (w w1 w2 w3 : World State X)
      → again.sv.lane ≡ first.sv.lane
      → again.sv.nonce ≤ first.sv.nonce
      → update_channel_state rt encode pack first w ≡ ok (tt, w1)
      → Leads encode pack w1 w2
      → ¬ (update_channel_state rt' encode pack again w2 ≡ ok (tt, w3))
  no_replay rt rt' s first again w w1 w2 w3 l k h lead h' =
      let (a0, v1, a1, st1, e, party, signed, valid, unlocks, asks, f, r, x) =
        update_ok rt encode pack first w w1 h in
      let (b0, v2, b1, st2, e', party', signed', valid', unlocks', asks', f', r', x') =
        update_ok rt' encode pack again w2 w3 h' in
      let lane = again.sv.lane in
      let nonce = first.sv.nonce in
      let spent : Spent lane nonce st1 =
        subst (λ n. Spent n nonce st1) (sym l)
          (record { redeemed = first.sv.amount; nonce = nonce }, r.lane, omega arith) in
      let closed = Spent-Later lane nonce in
      let start : Good (Spent lane nonce) w1 = λ st i.
        subst (Spent lane nonce) (some_inj st1 st (sym (ap (λ (v : World State X). v.actor) x) ∙ i))
          spent in
      let waits = Leads-Good encode pack (Spent lane nonce) closed w1 w2 lead start in
      let asked =
        Asks-Good (Spent lane nonce) rt' (send_keeps (Spent lane nonce) closed rt' s) again.sv.extra
          w2 v2 waits asks' in
      Spent-refuses again.sv v2.balance nonce b1 st2 k (asked b1 f') r'

  delete_actor_ok :
      (rt : Runtime State X) (a : Address) (w w' : World State X)
      → delete_actor rt encode pack a w ≡ ok (tt, w')
      → rt.delete_actor a w ≡ ok w'
  unfolding delete_actor
  delete_actor_ok rt a w w' h = elim (Result-cases (rt.delete_actor a w)) [
    | inl (w1, e) ↦ e ∙ ap ok (ap (λ r. r.1) (ok_inj (tt, w1) (tt, w') (ground arith)))
    | inr (x, e) ↦ absurd (ground arith)
  ]

  -- A `collect` that succeeds was called by a party once the settling epoch had come, has sent what is to
  -- be sent to the payee, and then deleted the channel in favour of the payer.
  pub collect_ok :
      (rt : Runtime State X) (w w' : World State X)
      → collect rt encode pack w ≡ ok (tt, w')
      → (st : State) × (w.actor ≡ some st)
        × (has rt.caller (st.from ∷ st.to ∷ []) ≡ true)
        × (eqb_ℤ st.settling_at (pos 0) ≡ false)
        × (st.settling_at ≤ℤ rt.curr_epoch)
        × (b : Bytes) × (w1 : World State X) × (rt.send st.to method_send [] st.to_send w
            ≡ ok (b, w1))
        × (rt.delete_actor st.from w1 ≡ ok w')
  unfolding collect
  collect_ok rt w w' h =
      let (st, w1, p, h1) = >>=-eq-ok (read_state rt) _ w h in
      let (e, s1) = read_state_ok rt w p in
      let (u, w2, q, h2) =
        >>=-eq-ok (validate_immediate_caller_is rt (st.from ∷ st.to ∷ [])) _ w1 h1 in
      let (party, s2) = caller_is_ok rt (st.from ∷ st.to ∷ []) w1 q in
      let (settled, h3) =
        guard_ok (eqb_ℤ st.settling_at (pos 0) || ltb_ℤ rt.curr_epoch st.settling_at) forbidden _ w2
          h2 in
      let (b, w3, r, h4) = >>=-eq-ok (rt.send st.to method_send [] st.to_send) _ w2 h3 in
      (
        st,
        e,
        party,
        ground arith,
        ground arith,
        b,
        w3,
        subst (λ z. rt.send st.to method_send [] st.to_send z ≡ ok (b, w3)) (s2 ∙ s1) r,
        delete_actor_ok rt st.from w3 w' h4,
      )

  -- Between a `settle` at an epoch that is not negative and leaves room for the delay in an `i64`, and a
  -- later `collect`, whatever calls but a constructor come between, at least 1440 epochs pass, and the
  -- collection is not before the least settling height of the state that was settled.
  pub collect_after_settle :
      (rt rt' : Runtime State X) (w w1 w2 w3 : World State X) (e : ℕ)
      → rt.curr_epoch ≡ pos e
      → e + 1440 < 0x8000_0000_0000_0000
      → settle rt encode pack w ≡ ok (tt, w1)
      → Leads encode pack w1 w2
      → collect rt' encode pack w2 ≡ ok (tt, w3)
      → (st : State) × (w.actor ≡ some st)
        × (pos (e + 1440) ≤ℤ rt'.curr_epoch)
        × (st.min_settle_height ≤ℤ rt'.curr_epoch)
  unfolding settle
  collect_after_settle rt rt' w w1 w2 w3 e c small h lead k =
      let (st, st1, f, t, x) = transaction_ok rt (start_settling rt encode pack) w h in
      let s = start_settling_ok rt encode pack st st1 t in
      let at = wraps_not rt.curr_epoch e c small in
      let from : pos (e + settle_delay) ≤ℤ st1.settling_at =
        subst (λ y. y ≤ℤ st1.settling_at) at s.after_delay in
      let set : eqb_ℤ st1.settling_at (pos 0) ≡ false = ground arith in
      let reach = λ (b : ℤ) (l : b ≤ℤ st1.settling_at).
        Leads-Good encode pack (SettlesFrom b) (SettlesFrom-Later b) w1 w2 lead (λ y i.
          subst (SettlesFrom b) (some_inj st1 y (sym (ap (λ (v : World State X). v.actor) x) ∙ i))
            (set, l)) in
      let (st2, g, party, n, due, b, v, sent, gone) = collect_ok rt' w2 w3 k in
      let p = (reach (pos (e + settle_delay)) from st2 g).1 in
      let q = (reach st.min_settle_height s.after_height st2 g).1 in
      (st, f, omega arith, omega arith)

  -- After a successful `collect`, in a runtime whose messages lead along calls of the channel and whose
  -- deletions delete, no calls but a constructor bring a state of the channel back.
  pub collected_is_gone :
      (rt : Runtime State X)
      → Sound rt
      → (w w1 w2 : World State X) → collect rt encode pack w ≡ ok (tt, w1)
      → Leads encode pack w1 w2
      → w2.actor ≡ none
  collected_is_gone rt s w w1 w2 h lead =
      let (st, e, party, n, due, b, v, sent, gone) = collect_ok rt w w1 h in
      let none1 = s.deletes st.from v w1 gone in
      let never = Leads-Good encode pack (λ st. ⊥) (λ x y l p. p) w1 w2 lead (λ x i. absurd (cc)) in
      elim (Option-cases w2.actor) [ inl i ↦ i | inr (x, i) ↦ absurd (never x i) ]
