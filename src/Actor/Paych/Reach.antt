-- ===== src/Actor/Paych/Reach.antt =====
-- The worlds that calls of a channel lead to after its creation, also while it waits for a message
-- that it has sent.
use forest.Base.{
  ℕ, ◌≡◌, ◌∙◌, inl, inr, arith, Bool, true, false, not, ◌&&◌, ◌||◌, [], ◌∷◌, Option, none, some,
  ltb, length, is_empty, ◌==◌,
}
use forest.Base.Int.{ℤ, pos, eqb_ℤ, leb_ℤ, ltb_ℤ}
use forest.Actor.Error.{
  Result, ok, or_fail, actor_error, illegal_argument, too_many_prove_commits, forbidden,
  Result-cases,
}
use forest.Actor.Runtime.{Address, Bytes, World, Runtime, eq_bytes, method_send}
use forest.Actor.Keeps.{
  Good, Keeps, SendKeeps, >>=-Keeps, guard-Keeps, if-Keeps, pure-Keeps, transaction-Keeps,
  caller_is-Keeps, fail_if-Keeps, lift-Keeps, lookup-Keeps, read_state-Keeps,
}
use forest.Actor.Paych.Defs.{
  State, SignedVoucher, ModVerifyParams, UpdateChannelStateParams, max_secret_size, redeem,
}
use forest.Actor.Paych.{
  signing_bytes, counterparty, check_signature, check_voucher, check_secret, verify_extra,
  redeem_voucher, update_channel_state, start_settling, settle, delete_actor, collect, Message,
  construct, updates, settles, collects, bad_params, other, invoke_method,
}
use forest.Actor.Paych.Redeem.{redeem_ok}
use forest.Actor.Paych.Later.{Later, Redeemed-Later, start_settling_ok, Settled-Later}

-- `delete_actor` takes the receiver out of the state tree.
abbrev pub Deletes : {X : Type 0} → Runtime State X → Type 0
Deletes {X} rt =
    (a : Address) (w w' : World State X) → rt.delete_actor a w ≡ ok w' → w'.actor ≡ none

abbrev pub is_construct : Message → Bool
is_construct (construct p) = true
is_construct (updates p) = false
is_construct settles = false
is_construct collects = false
is_construct bad_params = false
is_construct other = false

-- `called` is a successful call of the channel by any message but the constructor's, in any runtime
-- whose own sends lead along such worlds; `elsewhere` is any change of balances and of other actors.
pub data Leads {X : Type 0} (encode : SignedVoucher → Result Bytes) (pack : Bytes → Result Bytes)
    : World State X → World State X → Type 0 where
  elsewhere : {w w' : World State X} → w.actor ≡ w'.actor → Leads encode pack w w'
  then_ :
      {w w1 w' : World State X}
      → Leads encode pack w w1
      → Leads encode pack w1 w'
      → Leads encode pack w w'
  called :
      {w w' : World State X} (rt : Runtime State X)
      → Deletes rt
      → ((to : Address) (method : ℕ) (params : Bytes) (value : ℤ) (w1 : World State X) (b : Bytes)
            (w2 : World State X)
          → rt.send to method params value w1 ≡ ok (b, w2)
          → Leads encode pack w1 w2)
      → (message : Message) → is_construct message ≡ false
      → {u : Unit {0}} → invoke_method rt encode pack message w ≡ ok (u, w')
      → Leads encode pack w w'

module _ {X : Type 0} (encode : SignedVoucher → Result Bytes) (pack : Bytes → Result Bytes)
    (P : State → Type 0) (closed : (st st' : State) → Later st st' → P st → P st') where
  module _ (rt : Runtime State X) (deletes : Deletes rt) (sends : SendKeeps P rt) where
    check_signature-Keeps :
        (st : State) (params : UpdateChannelStateParams)
        → Keeps P (check_signature rt encode pack st params)
    unfolding check_signature
    check_signature-Keeps st params =
        >>=-Keeps P _ _ (lift-Keeps P (or_fail params.sv.signature (actor_error illegal_argument)))
          (λ sig.
            guard-Keeps P (not (eqb_ℤ st.settling_at (pos 0)) && leb_ℤ st.settling_at rt.curr_epoch)
              too_many_prove_commits _
              (λ e.
                guard-Keeps P (ltb max_secret_size (length params.secret)) illegal_argument _ (λ f.
                  >>=-Keeps P _ _ (lift-Keeps P (signing_bytes rt encode pack params.sv)) (λ bytes.
                    fail_if-Keeps P
                      (not (rt.verify_signature sig (counterparty rt encode pack st) bytes))
                      illegal_argument))))

    check_voucher-Keeps : (sv : SignedVoucher) → Keeps P (check_voucher rt encode pack sv)
    unfolding check_voucher
    check_voucher-Keeps sv = >>=-Keeps P _ _ (lookup-Keeps P rt sv.channel_addr) (λ found.
        >>=-Keeps P _ _ (lift-Keeps P (or_fail found (actor_error illegal_argument))) (λ id.
          guard-Keeps P (not (rt.receiver == id)) illegal_argument _ (λ e.
            guard-Keeps P (ltb_ℤ rt.curr_epoch sv.time_lock_min) illegal_argument _ (λ f.
              guard-Keeps P
                (not (eqb_ℤ sv.time_lock_max (pos 0)) && ltb_ℤ sv.time_lock_max rt.curr_epoch)
                illegal_argument _
                (λ g. fail_if-Keeps P (ltb_ℤ sv.amount (pos 0)) illegal_argument)))))

    check_secret-Keeps :
        (params : UpdateChannelStateParams) → Keeps P (check_secret rt encode pack params)
    unfolding check_secret
    check_secret-Keeps params =
        if-Keeps P (is_empty params.sv.secret_pre_image) _ _ (pure-Keeps P tt) (
          >>=-Keeps P _ _ (lift-Keeps P (rt.hash_blake2b params.secret)) (λ hashed.
            fail_if-Keeps P (not (eq_bytes hashed params.sv.secret_pre_image)) illegal_argument))

    verify_extra-Keeps :
        (extra : Option ModVerifyParams) → Keeps P (verify_extra rt encode pack extra)
    unfolding verify_extra
    verify_extra-Keeps none = pure-Keeps P tt
    verify_extra-Keeps (some extra) = >>=-Keeps P _ _ (lift-Keeps P (pack extra.payload)) (λ bytes.
        >>=-Keeps P _ _ (sends extra.actor extra.method bytes (pos 0)) (λ ret. pure-Keeps P tt))

    redeem_voucher-Keeps : (sv : SignedVoucher) → Keeps P (redeem_voucher rt encode pack sv)
    unfolding redeem_voucher
    redeem_voucher-Keeps sv w a w' g h =
        transaction-Keeps P rt (redeem sv w.balance)
          (λ st st' u p e.
            closed st st' (Redeemed-Later sv w.balance st st' (redeem_ok sv w.balance st st' e)) p)
          w a w' g h

    update-Keeps :
        (params : UpdateChannelStateParams) → Keeps P (update_channel_state rt encode pack params)
    unfolding update_channel_state
    update-Keeps params = >>=-Keeps P _ _ (read_state-Keeps P rt) (λ st.
        >>=-Keeps P _ _ (caller_is-Keeps P rt (st.from ∷ st.to ∷ [])) (λ a.
          >>=-Keeps P _ _ (check_signature-Keeps st params) (λ b.
            >>=-Keeps P _ _ (check_voucher-Keeps params.sv) (λ c.
              >>=-Keeps P _ _ (check_secret-Keeps params) (λ d.
                >>=-Keeps P _ _ (verify_extra-Keeps params.sv.extra)
                  (λ e. redeem_voucher-Keeps params.sv))))))

    settle-Keeps : Keeps P (settle rt encode pack)
    unfolding settle
    settle-Keeps = transaction-Keeps P rt (start_settling rt encode pack) (λ st st' u p e.
        closed st st'
          (Settled-Later rt encode pack st st' (start_settling_ok rt encode pack st st' e)) p)

    pub delete_actor-Keeps : (a : Address) → Keeps P (delete_actor rt encode pack a)
    unfolding delete_actor
    delete_actor-Keeps a w u w' g h = elim (Result-cases (rt.delete_actor a w)) [
      | inl (w1, e) ↦ λ st i. absurd (ground (arith, deletes a w w1 e))
      | inr (x, e) ↦ absurd (ground arith)
    ]

    collect-Keeps : Keeps P (collect rt encode pack)
    unfolding collect
    collect-Keeps = >>=-Keeps P _ _ (read_state-Keeps P rt) (λ st.
        >>=-Keeps P _ _ (caller_is-Keeps P rt (st.from ∷ st.to ∷ [])) (λ a.
          guard-Keeps P (eqb_ℤ st.settling_at (pos 0) || ltb_ℤ rt.curr_epoch st.settling_at)
            forbidden _
            (λ e.
              >>=-Keeps P _ _ (sends st.to method_send [] st.to_send)
                (λ sent. delete_actor-Keeps st.from))))

    invoke_method-Keeps :
        (message : Message)
        → is_construct message ≡ false
        → Keeps P (invoke_method rt encode pack message)
    unfolding invoke_method
    invoke_method-Keeps (construct p) n = absurd (cc)
    invoke_method-Keeps (updates p) n = update-Keeps p
    invoke_method-Keeps settles n = settle-Keeps
    invoke_method-Keeps collects n = collect-Keeps
    invoke_method-Keeps bad_params n = λ w a w' g h. absurd (cc)
    invoke_method-Keeps other n = λ w a w' g h. absurd (cc)

  -- What a channel keeps as it goes on, it keeps through any nesting of calls.
  pub Leads-Good : (w w' : World State X) → Leads encode pack w w' → Good P w → Good P w'
  Leads-Good w w' (elsewhere e) g = λ st h. g st (e ∙ h)
  Leads-Good w w' (then_ {w1} p q) g = Leads-Good w1 w' q (Leads-Good w w1 p g)
  Leads-Good w w' (called rt deletes sends message n {u} h) g =
      invoke_method-Keeps rt deletes
        (λ to method params value w1 b w2 g1 e.
          Leads-Good w1 w2 (sends to method params value w1 b w2 e) g1)
        message n w u w' g h
