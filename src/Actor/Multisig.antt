-- ===== src/Actor/Multisig.antt =====
-- The multisig actor: vm/actor/src/builtin/multisig. Its map of pending transactions is part of the
-- state here, not a root in the block store, so loading and flushing it cannot fail.
pub mod Defs
pub mod Admin
pub mod Locked
pub mod Signers
pub mod Purge
pub mod Invariant
pub mod Removal
pub mod Preserve
pub mod Reads
pub mod Create
pub mod Methods
pub mod Outcomes
pub mod Quorum
pub mod Propose
pub mod Authority
mod Tests
pub mod Reach
use forest.Base.{
  ℕ, suc, ◌+◌, ◌-◌, ◌<◌, Bool, true, false, not, ◌&&◌, ◌||◌, List, [], ◌∷◌, ◌++◌, Option, none,
  some, leb, ltb, ◌==◌, length, has, is_empty, if◌then◌else◌,
}
use forest.Base.Words.{add_usize, sub_usize}
use forest.Base.Int.{ℤ, pos, ◌+ℤ◌, ltb_ℤ, leb_ℤ, eqb_ℤ, wrap_i64}
use forest.Actor.Error.{
  Result, ok, err, or_fail, Act, ExitCode, ActorError, actor_error, success, illegal_argument,
  forbidden, not_found, illegal_state, insufficient_funds, serialization, sys_err_invalid_method,
  ◌>>=◌, ◌>>◌, pure, fail, fail_if, lift, get_state, put_state,
}
use forest.Actor.Map
use forest.Actor.Map.{int_eq}
use forest.Actor.Runtime.{
  Address, Bytes, eq_bytes, World, Runtime, Call, signable_types, init_actor_addr,
  validate_immediate_caller_is, validate_immediate_caller_type, create, transaction,
  resolve_to_id_addr,
}
use Admin.{
  AddSignerParams, RemoveSignerParams, SwapSignerParams, LockBalanceParams, add_signer,
  remove_signer, swap_signer, change_num_approvals_threshold, lock_balance,
}
use Defs.{
  State, Transaction, ProposalHashData, proposal_data, is_signer, set_locked, check_available,
  first_approved, signers_max,
}

pub record ConstructorParams : Type 0 where
  pub signers : List Address
  pub num_approvals_threshold : ℕ
  pub unlock_duration : ℤ
  pub start_epoch : ℤ

pub record ProposeParams : Type 0 where
  pub to : Address
  pub value : ℤ
  pub method : ℕ
  pub params : Bytes

pub record TxnIdParams : Type 0 where
  pub id : ℤ
  pub proposal_hash : Bytes

-- `applied`, what the sent message returned, and its exit code.
pub record Outcome : Type 0 where
  pub applied : Bool
  pub ret : Bytes
  pub code : ExitCode

pub record ProposeReturn : Type 0 where
  pub txn_id : ℤ
  pub outcome : Outcome

-- `encode` serialises the data that a proposal's hash is taken of.
module _ {X : Type 0} (rt : Runtime State X) (encode : ProposalHashData → Result Bytes) where
  pub compute_proposal_hash : {T : Type 0} → Transaction → Act T Bytes
  compute_proposal_hash txn = do
    bytes ← lift (encode (proposal_data txn))
    lift (rt.hash_blake2b bytes)

  -- The loop of the constructor: resolved signers so far, and those that are left.
  pub resolve_signers : List Address → List Address → Call rt (List Address)
  resolve_signers resolved [] = pure resolved
  resolve_signers resolved (signer ∷ rest) = do
    id ← resolve_to_id_addr rt signer
    fail_if (has id resolved) illegal_argument
    resolve_signers (resolved ++ id ∷ []) rest

  abbrev pub initial_state : ConstructorParams → List Address → State
  initial_state params resolved =
      let st : State = record {
        signers = resolved;
        num_approvals_threshold = params.num_approvals_threshold;
        next_tx_id = pos 0;
        initial_balance = pos 0;
        start_epoch = pos 0;
        unlock_duration = pos 0;
        pending_txs = [];
      } in
      if not (eqb_ℤ params.unlock_duration (pos 0))
      then set_locked params.start_epoch params.unlock_duration rt.value_received st
      else st

  pub constructor : ConstructorParams → Call rt (Unit {0})
  unfolding resolve_signers
  constructor params = do
    validate_immediate_caller_is rt (init_actor_addr ∷ [])
    fail_if (is_empty params.signers) illegal_argument
    fail_if (ltb signers_max (length params.signers)) illegal_argument
    resolved ← resolve_signers [] params.signers
    fail_if (ltb (length params.signers) params.num_approvals_threshold) illegal_argument
    fail_if (ltb params.num_approvals_threshold 1) illegal_argument
    fail_if (ltb_ℤ params.unlock_duration (pos 0)) illegal_argument
    create rt (initial_state params resolved)

  -- The send of `execute_transaction_if_approved`: a recovered error aborts the call, any other is
  -- kept as an exit code.
  pub send_approved : Transaction → Call rt (Bytes × ExitCode)
  send_approved txn w = elim (rt.send txn.to txn.method txn.params txn.value w) [
    | ok p ↦ ok ((p.0, success), p.1)
    | err e ↦ if e.recovered then err e else ok (([], e.exit_code), w)
  ]

  pub remove_pending : ℤ → Act State (Unit {0})
  remove_pending txn_id st = ok (tt, record st { pending_txs = Map.delete txn_id st.pending_txs })

  pub check_funds : State → Transaction → Call rt (Unit {0})
  check_funds st txn w =
      fail_if (not (check_available st w.balance txn.value rt.curr_epoch)) insufficient_funds w

  pub run_approved : State → ℤ → Transaction → Call rt Outcome
  unfolding check_funds send_approved remove_pending
  run_approved st txn_id txn = do
    check_funds st txn
    sent ← send_approved txn
    transaction rt (remove_pending txn_id)
    pure (record { applied = true; ret = sent.0; code = sent.1 })

  pub execute_transaction_if_approved : State → ℤ → Transaction → Call rt Outcome
  unfolding run_approved
  execute_transaction_if_approved st txn_id txn =
      if leb st.num_approvals_threshold (length txn.approved)
      then run_approved st txn_id txn
      else pure (record { applied = false; ret = []; code = success })

  pub store_approval : ℤ → Transaction → Act State State
  store_approval tx_id txn st =
      let st' = record st { pending_txs = Map.set tx_id txn st.pending_txs } in ok (st', st')

  pub approve_transaction : ℤ → Transaction → Call rt Outcome
  unfolding execute_transaction_if_approved store_approval
  approve_transaction tx_id txn = do
    fail_if (has rt.caller txn.approved) forbidden
    let txn' : Transaction = record txn { approved = txn.approved ++ rt.caller ∷ [] }
    st ← transaction rt (store_approval tx_id txn')
    execute_transaction_if_approved st tx_id txn'

  pub add_proposal : ProposeParams → Act State (ℤ × Transaction)
  add_proposal params st =
      (do
        fail_if (not (is_signer st rt.caller)) forbidden
        let txn : Transaction = record {
          to = params.to;
          value = params.value;
          method = params.method;
          params = params.params;
          approved = [];
        }
        put_state (record st {
          next_tx_id = wrap_i64 (st.next_tx_id +ℤ pos 1);
          pending_txs = Map.set st.next_tx_id txn st.pending_txs;
        })
        pure (st.next_tx_id, txn))
        st

  pub propose : ProposeParams → Call rt ProposeReturn
  unfolding approve_transaction add_proposal
  propose params = do
    validate_immediate_caller_type rt signable_types
    fail_if (ltb_ℤ params.value (pos 0)) illegal_argument
    t ← transaction rt (add_proposal params)
    outcome ← approve_transaction t.0 t.1
    pure (record { txn_id = t.0; outcome = outcome })

  pub check_hash : ExitCode → Bytes → Transaction → Act State (Unit {0})
  unfolding compute_proposal_hash
  check_hash code proposal_hash txn = do
    calculated ← compute_proposal_hash txn
    fail_if (not (eq_bytes proposal_hash calculated)) code

  pub get_transaction : ℤ → Bytes → Act State Transaction
  unfolding check_hash
  get_transaction txn_id proposal_hash st =
      (do
        txn ← lift (or_fail (Map.get txn_id st.pending_txs) (actor_error not_found))
        if is_empty proposal_hash then pure tt else check_hash illegal_argument proposal_hash txn
        pure txn)
        st

  pub read_proposal : TxnIdParams → Act State (State × Transaction)
  unfolding get_transaction
  read_proposal params st =
      (do
        fail_if (not (is_signer st rt.caller)) forbidden
        txn ← get_transaction params.id params.proposal_hash
        pure (st, txn))
        st

  pub approve : TxnIdParams → Call rt Outcome
  unfolding read_proposal execute_transaction_if_approved approve_transaction
  approve params = do
    validate_immediate_caller_type rt signable_types
    t ← transaction rt (read_proposal params)
    outcome ← execute_transaction_if_approved t.0 params.id t.1
    if not outcome.applied then approve_transaction params.id t.1 else pure outcome

  pub is_proposer : Option Address → Bool
  is_proposer none = false
  is_proposer (some a) = a == rt.caller

  -- The hash is computed before it is compared, and so may fail also where none was given.
  pub check_cancel_hash : Bytes → Transaction → Act State (Unit {0})
  unfolding compute_proposal_hash
  check_cancel_hash proposal_hash txn = do
    calculated ← compute_proposal_hash txn
    fail_if (not (is_empty proposal_hash) && not (eq_bytes proposal_hash calculated)) illegal_state

  pub cancel_proposal : TxnIdParams → Act State (Unit {0})
  unfolding is_proposer check_cancel_hash
  cancel_proposal params st =
      (do
        fail_if (not (is_signer st rt.caller)) forbidden
        tx ← lift (or_fail (Map.get params.id st.pending_txs) (actor_error not_found))
        fail_if (not (is_proposer (first_approved tx))) forbidden
        check_cancel_hash params.proposal_hash tx
        put_state (record st { pending_txs = Map.delete params.id st.pending_txs }))
        st

  pub cancel : TxnIdParams → Call rt (Unit {0})
  unfolding cancel_proposal
  cancel params = do
    validate_immediate_caller_type rt signable_types
    transaction rt (cancel_proposal params)

-- A message with its parameters decoded: `bad_params` failed to decode, `other` has no method.
pub data Message : Type 0 where
  construct : ConstructorParams → Message
  proposes : ProposeParams → Message
  approves : TxnIdParams → Message
  cancels : TxnIdParams → Message
  adds_signer : AddSignerParams → Message
  removes_signer : RemoveSignerParams → Message
  swaps_signer : SwapSignerParams → Message
  changes_threshold : ℕ → Message
  locks_balance : LockBalanceParams → Message
  bad_params : Message
  other : Message

abbrev pub discard : {T A : Type 0} → Act T A → Act T (Unit {0})
discard m = m >>= λ _. pure tt

module _ {X : Type 0} (rt : Runtime State X) (encode : ProposalHashData → Result Bytes) where
  -- `invoke_method`, without the serialised return value.
  pub invoke_method : Message → Call rt (Unit {0})
  invoke_method (construct p) = constructor rt encode p
  invoke_method (proposes p) = discard (propose rt encode p)
  invoke_method (approves p) = discard (approve rt encode p)
  invoke_method (cancels p) = cancel rt encode p
  invoke_method (adds_signer p) = add_signer rt p
  invoke_method (removes_signer p) = remove_signer rt p
  invoke_method (swaps_signer p) = swap_signer rt p
  invoke_method (changes_threshold n) = change_num_approvals_threshold rt n
  invoke_method (locks_balance p) = lock_balance rt p
  invoke_method bad_params = fail serialization
  invoke_method other = fail sys_err_invalid_method
