-- ===== src/Actor/Paych.antt =====
-- The payment channel actor: vm/actor/src/builtin/paych. Its lanes are part of the state here, not
-- an AMT in the block store.
pub mod Defs
pub mod Redeem
pub mod Later
pub mod Reach
pub mod Outcomes
pub mod Safety
mod Tests
use forest.Base.{
  ℕ, Bool, true, false, not, ◌&&◌, ◌||◌, List, [], ◌∷◌, Option, none, some, leb, ltb, ◌==◌, length,
  has, is_empty, if◌then◌else◌,
}
use forest.Base.Int.{ℤ, pos, ◌+ℤ◌, ◌-ℤ◌, ltb_ℤ, leb_ℤ, eqb_ℤ, wrap_i64}
use forest.Actor.Error.{
  Result, ok, err, or_fail, Act, actor_error, illegal_argument, illegal_state, forbidden,
  serialization, too_many_prove_commits, sys_err_invalid_method, ◌>>=◌, ◌>>◌, pure, fail, fail_if,
  lift, put_state,
}
use forest.Actor.Map
use forest.Actor.Map.{Map, nat_eq}
use forest.Actor.Runtime.{
  Address, Bytes, Runtime, Call, eq_bytes, account_code, init_code, method_send,
  validate_immediate_caller_is, validate_immediate_caller_type, create, read_state, transaction,
  resolve, resolve_to_id_addr,
}
use Defs.{
  ConstructorParams, ModVerifyParams, SignedVoucher, State, UpdateChannelStateParams,
  max_secret_size, new_state, redeem, settle_delay,
}

-- `encode` serialises a voucher, `pack` the bytes that are sent to the verifying actor.
module _ {X : Type 0} (rt : Runtime State X) (encode : SignedVoucher → Result Bytes)
    (pack : Bytes → Result Bytes) where
  unfoldable pub resolve_account : Address → Call rt Address
  resolve_account raw = do
    resolved ← resolve_to_id_addr rt raw
    code ← λ w. lift (rt.get_actor_code_cid w.outside resolved) w
    code_cid ← lift (or_fail code (actor_error illegal_argument))
    fail_if (not (code_cid == account_code)) forbidden
    pure resolved

  pub constructor : ConstructorParams → Call rt (Unit {0})
  unfolding resolve_account
  constructor params = do
    validate_immediate_caller_type rt (init_code ∷ [])
    to ← resolve_account params.to
    from ← resolve_account params.from
    create rt (new_state from to)

  -- `SignedVoucher::signing_bytes`: all of the voucher but its signature
  abbrev pub signing_bytes : SignedVoucher → Result Bytes
  signing_bytes sv = encode (record sv { signature = none })

  -- The party that must have signed.
  abbrev pub counterparty : State → Address
  counterparty st = if rt.caller == st.from then st.to else st.from

  pub check_signature : State → UpdateChannelStateParams → Call rt (Unit {0})
  check_signature st params = do
    sig ← lift (or_fail params.sv.signature (actor_error illegal_argument))
    fail_if (not (eqb_ℤ st.settling_at (pos 0)) && leb_ℤ st.settling_at rt.curr_epoch)
        too_many_prove_commits
    fail_if (ltb max_secret_size (length params.secret)) illegal_argument
    sv_bz ← lift (signing_bytes params.sv)
    fail_if (not (rt.verify_signature sig (counterparty st) sv_bz)) illegal_argument

  pub check_voucher : SignedVoucher → Call rt (Unit {0})
  check_voucher sv = do
    found ← resolve rt sv.channel_addr
    svpch_id_addr ← lift (or_fail found (actor_error illegal_argument))
    fail_if (not (rt.receiver == svpch_id_addr)) illegal_argument
    fail_if (ltb_ℤ rt.curr_epoch sv.time_lock_min) illegal_argument
    fail_if (not (eqb_ℤ sv.time_lock_max (pos 0)) && ltb_ℤ sv.time_lock_max rt.curr_epoch)
        illegal_argument
    fail_if (ltb_ℤ sv.amount (pos 0)) illegal_argument

  pub check_secret : UpdateChannelStateParams → Call rt (Unit {0})
  check_secret params = if is_empty params.sv.secret_pre_image then pure tt else (do
    hashed_secret ← lift (rt.hash_blake2b params.secret)
    fail_if (not (eq_bytes hashed_secret params.sv.secret_pre_image)) illegal_argument)

  pub verify_extra : Option ModVerifyParams → Call rt (Unit {0})
  verify_extra none = pure tt
  verify_extra (some extra) = do
    bytes ← lift (pack extra.payload)
    ret ← rt.send extra.actor extra.method bytes (pos 0)
    pure tt

  pub redeem_voucher : SignedVoucher → Call rt (Unit {0})
  unfolding redeem
  redeem_voucher sv w = transaction rt (redeem sv w.balance) w

  pub update_channel_state : UpdateChannelStateParams → Call rt (Unit {0})
  unfolding check_signature check_voucher check_secret verify_extra redeem_voucher
  update_channel_state params = do
    st ← read_state rt
    validate_immediate_caller_is rt (st.from ∷ st.to ∷ [])
    check_signature st params
    check_voucher params.sv
    check_secret params
    verify_extra params.sv.extra
    redeem_voucher params.sv

  pub start_settling : Act State (Unit {0})
  start_settling st =
      (do
        fail_if (not (has rt.caller (st.from ∷ st.to ∷ []))) forbidden
        fail_if (not (eqb_ℤ st.settling_at (pos 0))) illegal_state
        let settling_at = wrap_i64 (rt.curr_epoch +ℤ pos settle_delay)
        put_state (record st {
          settling_at =
              if ltb_ℤ settling_at st.min_settle_height then st.min_settle_height else settling_at;
        }))
        st

  pub settle : Call rt (Unit {0})
  unfolding start_settling
  settle = transaction rt start_settling

  pub delete_actor : Address → Call rt (Unit {0})
  delete_actor beneficiary w = elim (rt.delete_actor beneficiary w) [
    | ok w' ↦ ok (tt, w')
    | err e ↦ err e
  ]

  pub collect : Call rt (Unit {0})
  unfolding delete_actor
  collect = do
    st ← read_state rt
    validate_immediate_caller_is rt (st.from ∷ st.to ∷ [])
    fail_if (eqb_ℤ st.settling_at (pos 0) || ltb_ℤ rt.curr_epoch st.settling_at) forbidden
    sent ← rt.send st.to method_send [] st.to_send
    delete_actor st.from

-- A message with its parameters decoded: `bad_params` failed to decode, `other` has no method.
pub data Message : Type 0 where
  construct : ConstructorParams → Message
  updates : UpdateChannelStateParams → Message
  settles collects bad_params other : Message

module _ {X : Type 0} (rt : Runtime State X) (encode : SignedVoucher → Result Bytes)
    (pack : Bytes → Result Bytes) where
  pub invoke_method : Message → Call rt (Unit {0})
  invoke_method (construct p) = constructor rt encode pack p
  invoke_method (updates p) = update_channel_state rt encode pack p
  invoke_method settles = settle rt encode pack
  invoke_method collects = collect rt encode pack
  invoke_method bad_params = fail serialization
  invoke_method other = fail sys_err_invalid_method
