-- ===== src/Actor/Paych/Outcomes.antt =====
-- What a method of a channel has done when it succeeds, and what later calls cannot undo.
use mathlib.Core.Path.{subst}
use forest.Base.{
  ◌≤◌, ◌≡◌, ◌⊎◌, sym, ap, Option, Bool-cases, ◌∙◌, inl, inr, arith, true, false, not, ◌&&◌, [], ◌∷◌,
  none, some, ltb, has, length, is_empty, ◌==◌, ==_iff, if◌then◌else◌,
}
use forest.Base.Int.{pos, ◌≤ℤ◌, eqb_ℤ, leb_ℤ, ltb_ℤ}
use forest.Actor.Error.{
  Result, ok, or_fail, actor_error, illegal_argument, too_many_prove_commits, lift, fail_if,
}
use forest.Actor.Map.{nat_eq}
use forest.Actor.Runtime.{
  Address, Bytes, World, Runtime, eq_bytes, read_state, validate_immediate_caller_is, resolve,
}
use forest.Actor.Inversion.{
  >>=-eq-ok, ok_inj, guard_ok, fail_if_ok, lift_ok, or_fail_ok, transaction_ok, read_state_ok,
  caller_is_ok, resolve_ok,
}
use forest.Actor.Paych.Defs.{
  State, SignedVoucher, ModVerifyParams, UpdateChannelStateParams, max_secret_size, redeem,
}
use forest.Actor.Paych.{
  signing_bytes, counterparty, check_signature, check_voucher, check_secret, verify_extra,
  redeem_voucher, update_channel_state,
}
use forest.Actor.Paych.Redeem.{Redeemed, redeem_ok}

module _ {X : Type 0} (rt : Runtime State X) (encode : SignedVoucher → Result Bytes)
    (pack : Bytes → Result Bytes) where
  -- What the checks of a voucher's signature have found.
  pub record Signed (st : State) (params : UpdateChannelStateParams) : Type 0 where
    pub sig : Bytes
    pub bytes : Bytes
    pub given : params.sv.signature ≡ some sig
    pub open_ : (not (eqb_ℤ st.settling_at (pos 0)) && leb_ℤ st.settling_at rt.curr_epoch) ≡ false
    pub short : length params.secret ≤ max_secret_size
    pub encoded : encode (record params.sv { signature = none }) ≡ ok bytes
    pub verified :
        rt.verify_signature sig (if rt.caller == st.from then st.to else st.from) bytes ≡ true

  check_signature_ok :
      (st : State) (params : UpdateChannelStateParams) (w w' : World State X) {u : Unit {0}}
      → check_signature rt encode pack st params w ≡ ok (u, w')
      → Signed st params × (w' ≡ w)
  unfolding check_signature
  check_signature_ok st params w w' h =
      let given = or_fail params.sv.signature (actor_error illegal_argument) in
      let (sig, w1, p, h1) = >>=-eq-ok (lift given) _ w h in
      let (q, s1) = lift_ok given w p in
      let (late, h2) =
        guard_ok (not (eqb_ℤ st.settling_at (pos 0)) && leb_ℤ st.settling_at rt.curr_epoch)
          too_many_prove_commits _ w1 h1 in
      let (long, h3) =
        guard_ok (ltb max_secret_size (length params.secret)) illegal_argument _ w1 h2 in
      let (bytes, w2, r, h4) = >>=-eq-ok (lift (signing_bytes rt encode pack params.sv)) _ w1 h3 in
      let (e, s2) = lift_ok (signing_bytes rt encode pack params.sv) w1 r in
      let (bad, s3) =
        fail_if_ok (not (rt.verify_signature sig (counterparty rt encode pack st) bytes))
          illegal_argument w2 h4 in
      (
        record {
          sig = sig;
          bytes = bytes;
          given = or_fail_ok params.sv.signature (actor_error illegal_argument) q;
          open_ = late;
          short = ground arith;
          encoded = e;
          verified = ground arith;
        },
        s3 ∙ s2 ∙ s1,
      )

  -- What the other checks of a voucher have found, in the world `w`.
  pub record Valid (sv : SignedVoucher) (w : World State X) : Type 0 where
    pub here : rt.resolve_address w.outside sv.channel_addr ≡ ok (some rt.receiver)
    pub begun : sv.time_lock_min ≤ℤ rt.curr_epoch
    pub unexpired :
        (not (eqb_ℤ sv.time_lock_max (pos 0)) && ltb_ℤ sv.time_lock_max rt.curr_epoch) ≡ false
    pub valued : pos 0 ≤ℤ sv.amount

  found_lem :
      (a : Address) (w : World State X) {found : Option Address} {w' : World State X}
      → resolve rt a w ≡ ok (found, w')
      → rt.resolve_address w.outside a ≡ ok found
  unfolding resolve
  found_lem a w h = ground arith

  check_voucher_ok :
      (sv : SignedVoucher) (w w' : World State X) {u : Unit {0}}
      → check_voucher rt encode pack sv w ≡ ok (u, w')
      → Valid sv w × (w' ≡ w)
  unfolding check_voucher
  check_voucher_ok sv w w' h =
      let (found, w1, p, h1) = >>=-eq-ok (resolve rt sv.channel_addr) _ w h in
      let (id, w2, q, h2) =
        >>=-eq-ok (lift (or_fail found (actor_error illegal_argument))) _ w1 h1 in
      let (i, s2) = lift_ok (or_fail found (actor_error illegal_argument)) w1 q in
      let (here, h3) = guard_ok (not (rt.receiver == id)) illegal_argument _ w2 h2 in
      let (early, h4) = guard_ok (ltb_ℤ rt.curr_epoch sv.time_lock_min) illegal_argument _ w2 h3 in
      let (late, h5) =
        guard_ok (not (eqb_ℤ sv.time_lock_max (pos 0)) && ltb_ℤ sv.time_lock_max rt.curr_epoch)
          illegal_argument _ w2 h4 in
      let (negative, s3) = fail_if_ok (ltb_ℤ sv.amount (pos 0)) illegal_argument w2 h5 in
      (
        record {
          here =
              found_lem sv.channel_addr w p
              ∙ ap ok (
                  or_fail_ok found (actor_error illegal_argument) i
                  ∙ ap some (sym ((==_iff rt.receiver id).0 (ground arith))));
          begun = ground arith;
          unexpired = late;
          valued = ground arith;
        },
        s3 ∙ s2 ∙ resolve_ok rt sv.channel_addr w p,
      )

  -- The secret fits the voucher's, if it has one.
  abbrev pub Unlocks : UpdateChannelStateParams → Type 0
  Unlocks params =
      (is_empty params.sv.secret_pre_image ≡ true)
      ⊎ ((hash : Bytes) × (rt.hash_blake2b params.secret ≡ ok hash)
          × (eq_bytes hash params.sv.secret_pre_image ≡ true))

  check_secret_ok :
      (params : UpdateChannelStateParams) (w w' : World State X) {u : Unit {0}}
      → check_secret rt encode pack params w ≡ ok (u, w')
      → Unlocks params × (w' ≡ w)
  unfolding check_secret
  check_secret_ok params w w' {u} h = elim (Bool-cases (is_empty params.sv.secret_pre_image)) [
    | inl free ↦ (inl free, ground arith)
    | inr bound ↦
        let secret = params.sv.secret_pre_image in
        let (hash, w1, p, h1) =
          >>=-eq-ok (lift (rt.hash_blake2b params.secret))
            (λ b. fail_if (not (eq_bytes b secret)) illegal_argument) w (rw bound at h) in
        let (e, s1) = lift_ok (rt.hash_blake2b params.secret) w p in
        let (bad, s2) = fail_if_ok (not (eq_bytes hash secret)) illegal_argument w1 h1 in
        (inr (hash, e, ground arith), s2 ∙ s1)
  ]

  pub redeem_voucher_ok :
      (sv : SignedVoucher) (w w' : World State X) {u : Unit {0}}
      → redeem_voucher rt encode pack sv w ≡ ok (u, w')
      → (st : State) × (st' : State) × (w.actor ≡ some st)
        × Redeemed sv w.balance st st'
        × (w' ≡ record w { actor = some st' })
  unfolding redeem_voucher
  redeem_voucher_ok sv w w' h =
      let (st, st', e, f, x) = transaction_ok rt (redeem sv w.balance) w h in
      (st, st', e, redeem_ok sv w.balance st st' f, x)

  -- The message that a voucher asks for has been sent in the world `w`, with no value, and has left `w1`;
  -- a voucher that asks for none has left `w`.
  abbrev pub Asks : Option ModVerifyParams → World State X → World State X → Type 0
  Asks none w w1 = w1 ≡ w
  Asks (some extra) w w1 =
      (bytes : Bytes) × (pack extra.payload ≡ ok bytes)
      × (ret : Bytes) × (rt.send extra.actor extra.method bytes (pos 0) w ≡ ok (ret, w1))

  verify_extra_ok :
      (extra : Option ModVerifyParams) (w w1 : World State X) {u : Unit {0}}
      → verify_extra rt encode pack extra w ≡ ok (u, w1)
      → Asks extra w w1
  unfolding verify_extra
  verify_extra_ok none w w1 {u} h = sym (ap (λ r. r.1) (ok_inj (tt, w) (u, w1) h))
  verify_extra_ok (some extra) w w1 {u} h =
      let (bytes, w2, p, h1) = >>=-eq-ok (lift (pack extra.payload)) _ w h in
      let (e, s) = lift_ok (pack extra.payload) w p in
      let (ret, w3, q, h2) = >>=-eq-ok (rt.send extra.actor extra.method bytes (pos 0)) _ w2 h1 in
      let t = ap (λ r. r.1) (ok_inj (tt, w3) (u, w1) h2) in
      (
        bytes,
        e,
        ret,
        subst (λ z. rt.send extra.actor extra.method bytes (pos 0) z ≡ ok (ret, w1)) s
            (q ∙ ap (λ z. ok (ret, z)) t),
      )

  -- An `update_channel_state` that succeeds was called by a party, before the channel had settled, with a
  -- voucher of this channel that the other party signed, that was neither early nor expired nor of a
  -- negative amount, and with its secret; it has sent the message that the voucher asks for, with no value, and then redeemed
  -- the voucher on the state and the balance that this message left.
  pub update_ok :
      (params : UpdateChannelStateParams) (w w' : World State X)
      → update_channel_state rt encode pack params w ≡ ok (tt, w')
      → (st : State) × (w1 : World State X) × (st1 : State) × (st' : State) × (w.actor ≡ some st)
        × (has rt.caller (st.from ∷ st.to ∷ []) ≡ true)
        × Signed st params
        × Valid params.sv w
        × Unlocks params
        × Asks params.sv.extra w w1
        × (w1.actor ≡ some st1)
        × Redeemed params.sv w1.balance st1 st'
        × (w' ≡ record w1 { actor = some st' })
  unfolding update_channel_state
  update_ok params w w' h =
      let (st, w0, p, h1) = >>=-eq-ok (read_state rt) _ w h in
      let (e, s0) = read_state_ok rt w p in
      let (u1, w1, q, h2) =
        >>=-eq-ok (validate_immediate_caller_is rt (st.from ∷ st.to ∷ [])) _ w0 h1 in
      let (party, s1) = caller_is_ok rt (st.from ∷ st.to ∷ []) w0 q in
      let (u2, w2, r, h3) = >>=-eq-ok (check_signature rt encode pack st params) _ w1 h2 in
      let (signed, s2) = check_signature_ok st params w1 w2 r in
      let (u3, w3, t, h4) = >>=-eq-ok (check_voucher rt encode pack params.sv) _ w2 h3 in
      let (valid, s3) = check_voucher_ok params.sv w2 w3 t in
      let (u4, w4, v, h5) = >>=-eq-ok (check_secret rt encode pack params) _ w3 h4 in
      let (unlocks, s4) = check_secret_ok params w3 w4 v in
      let (u5, w5, a, h6) = >>=-eq-ok (verify_extra rt encode pack params.sv.extra) _ w4 h5 in
      let (st1, st', f, k, x) = redeem_voucher_ok params.sv w5 w' h6 in
      let same = s4 ∙ s3 ∙ s2 ∙ s1 ∙ s0 in
      (
        st,
        w5,
        st1,
        st',
        e,
        party,
        signed,
        subst (Valid params.sv) (s2 ∙ s1 ∙ s0) valid,
        unlocks,
        subst (λ z. Asks params.sv.extra z w5) same (verify_extra_ok params.sv.extra w4 w5 a),
        f,
        k,
        x,
      )
