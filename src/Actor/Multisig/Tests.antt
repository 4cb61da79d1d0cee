-- ===== src/Actor/Multisig/Tests.antt =====
-- A wallet of three signers and runs of its methods.
use mathlib.Core.Path.{subst}
use forest.Base.{
  has, length, suc, Bool-cases, ◌<◌, if◌then◌else◌, ℕ, ◌≡◌, refl, true, false, [], ◌∷◌, none, some,
  arith, inl, inr, ◌↔◌, ◌⊎◌,
}
use forest.Base.Int.{ℤ, pos, ◌-ℤ◌, ◌≤ℤ◌, ◌<ℤ◌, wrap_i64, div_ceil, ◌*ℤ◌, eqb_ℤ}
use forest.Actor.Error.{Result, ok, err, success, actor_error, forbidden}
use forest.Actor.Map
use forest.Actor.Map.{int_eq, IsMap}
use forest.Actor.Runtime.{
  Address, Bytes, World, Runtime, account_code, transaction, validate_immediate_caller_type,
}
use forest.Actor.Keeps.{Good}
use forest.Actor.Multisig.Defs.{
  State, Transaction, ProposalHashData, check_available, amount_locked, locked, first_approved,
  purge_approvals,
}
use forest.Actor.Multisig.Invariant.{IsWallet, IsBacked}
use forest.Actor.Multisig.{
  TxnIdParams, ProposeParams, ProposeReturn, Outcome, approves, approve, propose, cancel,
  invoke_method,
}
use forest.Actor.Multisig.Reads.{Executed}
use forest.Actor.Multisig.Purge.{purge_entry, get-purge_approvals}
use forest.Actor.Multisig.Locked.{IsLock, amount_locked_lem, check_available_iff}
use forest.Actor.Multisig.Reach.{Leads, called, elsewhere, Leads-IsWallet}
use forest.Actor.Multisig.Outcomes.{with_approval}
use forest.Actor.Multisig.Quorum.{approve_applied, approve_waits, Quorum, approve_succeeds}
use forest.Actor.Multisig.Propose.{propose_ok, cancel_ok, proposed, with_proposal}
use forest.Actor.Multisig.Authority.{invoke_method-Authorised}

abbrev encode : ProposalHashData → Result Bytes
encode d = ok (d.method ∷ d.params)

-- A chain on which every account exists and every message succeeds.
abbrev runtime : Address → Runtime State ℕ
runtime caller = record {
  caller = caller;
  receiver = 100;
  value_received = pos 0;
  curr_epoch = pos 50;
  resolve_address = λ x a. ok (some a);
  get_actor_code_cid = λ x a. ok (some account_code);
  send = λ to method params value w. ok ([], record w { balance = w.balance -ℤ value });
  delete_actor = λ a w. ok w;
  hash_blake2b = λ b. ok b;
  verify_signature = λ s a b. true;
}

abbrev paid : Transaction
paid = record { to = 9; value = pos 40; method = 0; params = []; approved = 11 ∷ [] }

abbrev wallet : State
wallet = record {
  signers = 11 ∷ 12 ∷ 13 ∷ [];
  num_approvals_threshold = 2;
  next_tx_id = pos 1;
  initial_balance = pos 100;
  start_epoch = pos 0;
  unlock_duration = pos 100;
  pending_txs = (pos 0, paid) ∷ [];
}

abbrev world : World State ℕ
world = record { actor = some wallet; balance = pos 100; outside = 7 }

abbrev paid_txn : TxnIdParams
paid_txn = record { id = pos 0; proposal_hash = [] }

-- With the second approval the transaction runs: the balance falls and nothing is pending.
abbrev after_paid : World State ℕ
after_paid = record {
  actor = some (record wallet { pending_txs = [] });
  balance = pos 60;
  outside = 7;
}

approve_run :
    approve (runtime 12) encode paid_txn world
    ≡ ok (record { applied = true; ret = []; code = success }, after_paid)
unfolding approve transaction validate_immediate_caller_type check_available Map.get Map.set
    Map.delete wrap_i64 ◌-ℤ◌ locked div_ceil ◌*ℤ◌
approve_run = refl

paid-IsBacked : IsBacked wallet.signers paid
paid-IsBacked = record { once = (refl, tt); signed = λ a h. ground arith; valued = omega arith }

wallet-IsWallet : IsWallet wallet
unfolding Map.get
wallet-IsWallet = record {
  distinct = (refl, (refl, (refl, tt)));
  few = omega arith;
  positive = omega arith;
  reachable = omega arith;
  map = (refl, tt);
  backed = λ id txn g. elim (Bool-cases (eqb_ℤ (pos 0) id)) [
    | inl same ↦ subst (IsBacked wallet.signers) (ground arith) paid-IsBacked
    | inr other ↦ absurd (ground arith)
  ];
}

world-Good : Good IsWallet world
world-Good st e = subst IsWallet (cc) wallet-IsWallet

approve_applied_example :
    (st : State) × (txn : Transaction) × (world.actor ≡ some st)
    × (Map.get (pos 0) st.pending_txs ≡ some txn)
    × (has 12 st.signers ≡ true)
    × Quorum st txn.approved 12
    × (check_available st (pos 100) txn.value (pos 50) ≡ true)
approve_applied_example =
    approve_applied (runtime 12) encode paid_txn world
      (record { applied = true; ret = []; code = success }) after_paid world-Good approve_run refl

-- With a threshold of three the second approval only waits.
abbrev careful : State
careful = record wallet { num_approvals_threshold = 3 }

abbrev careful_world : World State ℕ
careful_world = record world { actor = some careful }

abbrev careful_after : World State ℕ
careful_after = record world { actor = some (with_approval careful (pos 0) paid 12) }

abbrev not_applied : Outcome
not_applied = record { applied = false; ret = []; code = success }

waits_run : approve (runtime 12) encode paid_txn careful_world ≡ ok (not_applied, careful_after)
unfolding approve transaction validate_immediate_caller_type Map.get Map.set
waits_run = refl

approve_waits_example :
    (st : State) × (txn : Transaction) × (careful_world.actor ≡ some st)
    × (Map.get (pos 0) st.pending_txs ≡ some txn)
    × (has 12 st.signers ≡ true)
    × (has 12 txn.approved ≡ false)
    × (suc (length txn.approved) < st.num_approvals_threshold)
    × (careful_after ≡ record careful_world { actor = some (with_approval st (pos 0) txn 12) })
approve_waits_example =
    approve_waits (runtime 12) encode paid_txn careful_world not_applied careful_after waits_run
      refl

send-Leads :
    (caller : Address) (encode : ProposalHashData → Result Bytes) (to : Address) (method : ℕ)
    (params : Bytes) (value : ℤ) (w1 : World State ℕ) (b : Bytes) (w2 : World State ℕ)
    → (runtime caller).send to method params value w1 ≡ ok (b, w2)
    → Leads encode w1 w2
send-Leads caller encode to method params value w1 b w2 h = elsewhere (cc)

approves_run : invoke_method (runtime 12) encode (approves paid_txn) world ≡ ok (tt, after_paid)
unfolding invoke_method approve validate_immediate_caller_type transaction Map.get check_available
    ◌-ℤ◌ locked wrap_i64 div_ceil ◌*ℤ◌ Map.delete Map.set
approves_run = refl

Leads-IsWallet_example : Good IsWallet after_paid
Leads-IsWallet_example =
    Leads-IsWallet encode world after_paid
      (called (runtime 12) (send-Leads 12 encode) (approves paid_txn) approves_run) world-Good

invoke_method-Authorised_example :
    (st : State) × (world.actor ≡ some st) × (has 12 st.signers ≡ true)
invoke_method-Authorised_example =
    invoke_method-Authorised (runtime 12) encode (approves paid_txn) world after_paid approves_run

abbrev proposal : ProposeParams
proposal = record { to = 9; value = pos 5; method = 0; params = [] }

abbrev proposed_world : World State ℕ
proposed_world = record world {
  actor = some (with_approval (with_proposal wallet proposal) (pos 1) (proposed proposal) 13);
}

abbrev proposal_return : ProposeReturn
proposal_return = record { txn_id = pos 1; outcome = not_applied }

propose_run : propose (runtime 13) encode proposal world ≡ ok (proposal_return, proposed_world)
unfolding propose transaction validate_immediate_caller_type Map.get Map.set
propose_run = refl

propose_ok_example :
    (st : State) × (world.actor ≡ some st)
    × (has 13 st.signers ≡ true)
    × (pos 0 ≤ℤ pos 5)
    × (pos 1 ≡ st.next_tx_id)
    × (let st' = with_approval (with_proposal st proposal) st.next_tx_id (proposed proposal) 13 in
        Executed
          (runtime 13)
          encode
          st'
          st.next_tx_id
          (record (proposed proposal) { approved = 13 ∷ [] })
          (record world { actor = some st' })
          not_applied
          proposed_world)
propose_ok_example =
    propose_ok (runtime 13) encode proposal world proposal_return proposed_world propose_run

abbrev cancelled_world : World State ℕ
cancelled_world = record world { actor = some (record wallet { pending_txs = [] }) }

cancel_run : cancel (runtime 11) encode paid_txn world ≡ ok (tt, cancelled_world)
unfolding cancel transaction validate_immediate_caller_type Map.get Map.delete
cancel_run = refl

-- Another signer than the proposer cannot cancel.
cancel_other : cancel (runtime 12) encode paid_txn world ≡ err (actor_error forbidden)
unfolding cancel transaction validate_immediate_caller_type Map.get Map.delete
cancel_other = refl

cancel_ok_example :
    (st : State) × (txn : Transaction) × (rest : Map.Map ℤ Transaction) × (world.actor ≡ some st)
    × (Map.get (pos 0) st.pending_txs ≡ some txn)
    × (has 11 st.signers ≡ true)
    × (first_approved txn ≡ some 11)
    × (cancelled_world ≡ record world { actor = some (record st { pending_txs = rest }) })
    × ((id : ℤ)
        → Map.get id rest ≡ (if int_eq.beq (pos 0) id then none else Map.get id st.pending_txs))
cancel_ok_example = cancel_ok (runtime 11) encode paid_txn world cancelled_world cancel_run

get-purge_approvals_example :
    Map.get (pos 0) (purge_approvals 11 wallet).pending_txs
    ≡ purge_entry 11 (Map.get (pos 0) wallet.pending_txs)
get-purge_approvals_example = get-purge_approvals 11 (pos 0) wallet (wallet-IsWallet.map)

wallet-IsLock : IsLock wallet
wallet-IsLock = record { funded = omega arith; sized = (omega arith, omega arith) }

amount_locked_run : amount_locked wallet (pos 33) ≡ pos 67
unfolding amount_locked wrap_i64 div_ceil ◌-ℤ◌ ◌*ℤ◌ locked
amount_locked_run = refl

amount_locked_lem_example :
    (pos 0 ≤ℤ amount_locked wallet (pos 33))
    × (amount_locked wallet (pos 33) ≤ℤ pos 100)
    × (amount_locked wallet (pos 50) ≤ℤ amount_locked wallet (pos 33))
    × (pos 33 <ℤ pos 100 → pos 33 ≤ℤ pos 0 → amount_locked wallet (pos 33) ≡ pos 100)
    × (pos 100 ≤ℤ pos 33 → amount_locked wallet (pos 33) ≡ pos 0)
amount_locked_lem_example = amount_locked_lem wallet (pos 33) (pos 50) wallet-IsLock (omega arith)

check_available_iff_example : (check_available wallet (pos 100) (pos 40) (pos 50) ≡ true) ↔ (
    (pos 0 ≤ℤ pos 40)
    × (pos 40 ≤ℤ pos 100)
    × ((pos 40 ≡ pos 0) ⊎ (amount_locked wallet (wrap_i64 (pos 50 -ℤ pos 0)) ≤ℤ pos 100 -ℤ pos 40)))
check_available_iff_example = check_available_iff wallet (pos 100) (pos 40) (pos 50)

get-paid : Map.get (pos 0) careful.pending_txs ≡ some paid
unfolding Map.get
get-paid = refl

approve_succeeds_example :
    approve (runtime 12) encode paid_txn careful_world
    ≡ ok
        (not_applied, record careful_world { actor = some (with_approval careful (pos 0) paid 12) })
approve_succeeds_example =
    approve_succeeds (runtime 12) encode (pos 0) careful_world careful paid account_code refl refl
      refl refl get-paid refl (omega arith)
