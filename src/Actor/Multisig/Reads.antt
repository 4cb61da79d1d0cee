-- ===== src/Actor/Multisig/Reads.antt =====
-- What the parts of a wallet's methods have done when they succeed.
use mathlib.Core.Path.{subst}
use forest.Base.{
  ◌≤◌, ◌<◌, ◌≡◌, refl, ap, ◌∙◌, inl, inr, Bool, true, false, not, Option, none, some, arith, ==_iff,
  has, leb, length, is_empty, Bool-cases, if◌then◌else◌,
}
use forest.Base.Int.{ℤ}
use forest.Actor.Error.{
  ExitCode, Result, ok, forbidden, illegal_argument, insufficient_funds, not_found, actor_error,
  or_fail, lift, pure,
}
use forest.Actor.Map
use forest.Actor.Map.{Map, int_eq, IsMap, get-set, get-delete, set-IsMap, delete-IsMap}
use forest.Actor.Runtime.{eq_bytes, Address, Bytes, World, Runtime, transaction}
use forest.Actor.Inversion.{
  >>=-eq-ok, guard_ok, ok_inj, put_state_ok, transaction_ok, lift_ok, or_fail_ok, fail_if_ok,
}
use forest.Actor.Multisig.{
  send_approved, check_funds, remove_pending, TxnIdParams, execute_transaction_if_approved,
  run_approved, get_transaction, check_hash, read_proposal, compute_proposal_hash, cancel_proposal,
  check_cancel_hash, is_proposer, Outcome,
}
use forest.Actor.Multisig.Defs.{
  State, Transaction, ProposalHashData, proposal_data, first_approved, check_available,
}

module _ {X : Type 0} (rt : Runtime State X) (encode : ProposalHashData → Result Bytes) where
  hash_keeps :
      (txn : Transaction) (s : State) {bytes : Bytes} {s' : State}
      → compute_proposal_hash rt encode txn s ≡ ok (bytes, s')
      → s' ≡ s
  unfolding compute_proposal_hash
  hash_keeps txn s h =
      let (b, s1, p, q) = >>=-eq-ok (lift (encode (proposal_data txn))) _ s h in
      (lift_ok (rt.hash_blake2b b) s1 q).1 ∙ (lift_ok (encode (proposal_data txn)) s p).1

  check_hash_keeps :
      (code : ExitCode) (hash : Bytes) (txn : Transaction) (s : State) {u : Unit {0}} {s' : State}
      → check_hash rt encode code hash txn s ≡ ok (u, s')
      → s' ≡ s
  unfolding check_hash
  check_hash_keeps code hash txn s h =
      let (b, s1, p, q) = >>=-eq-ok (compute_proposal_hash rt encode txn) _ s h in
      (fail_if_ok (not (eq_bytes hash b)) code s1 q).1 ∙ hash_keeps txn s p

  given_hash_keeps :
      (none_given : Bool) (hash : Bytes) (txn : Transaction) (s : State) {u : Unit {0}} {s' : State}
      → (if none_given then pure tt else check_hash rt encode illegal_argument hash txn) s
        ≡ ok (u, s')
      → s' ≡ s
  given_hash_keeps true hash txn s h = cc
  given_hash_keeps false hash txn s h = check_hash_keeps illegal_argument hash txn s h

  get_transaction_ok :
      (id : ℤ) (hash : Bytes) (st : State) {txn : Transaction} {st' : State}
      → get_transaction rt encode id hash st ≡ ok (txn, st')
      → (st' ≡ st) × (Map.get id st.pending_txs ≡ some txn)
  unfolding get_transaction
  get_transaction_ok id hash st h =
      let found = or_fail (Map.get id st.pending_txs) (actor_error not_found) in
      let (t, s1, p, q) = >>=-eq-ok (lift found) _ st h in
      let (there, same) = lift_ok found st p in
      let (u, s2, r, e) =
        >>=-eq-ok (if is_empty hash then pure tt else check_hash rt encode illegal_argument hash t)
          _ s1 q in
      let same' = given_hash_keeps (is_empty hash) hash t s1 r in
      let i = or_fail_ok (Map.get id st.pending_txs) (actor_error not_found) there in (cc, cc)

  -- What `approve` reads: the state, a pending transaction of it, and that the caller is a signer.
  pub read_proposal_ok :
      (params : TxnIdParams) (st : State) {t : State × Transaction} {st' : State}
      → read_proposal rt encode params st ≡ ok (t, st')
      → (st' ≡ st)
        × (t.0 ≡ st)
        × (has rt.caller st.signers ≡ true)
        × (Map.get params.id st.pending_txs ≡ some t.1)
  unfolding read_proposal
  read_proposal_ok params st {t} {st'} h =
      let (signs, h1) = guard_ok (not (has rt.caller st.signers)) forbidden _ st h in
      let (txn, s1, p, q) =
        >>=-eq-ok (get_transaction rt encode params.id params.proposal_hash) _ st h1 in
      let (same, found) = get_transaction_ok params.id params.proposal_hash st p in
      (cc, cc, ground arith, cc)

  -- `cancel` removes a pending transaction whose first approval is the caller's.
  pub cancel_proposal_ok :
      (params : TxnIdParams) (st : State) {u : Unit {0}} {st' : State}
      → cancel_proposal rt encode params st ≡ ok (u, st')
      → (txn : Transaction) × (Map.get params.id st.pending_txs ≡ some txn)
        × (has rt.caller st.signers ≡ true)
        × (first_approved txn ≡ some rt.caller)
        × (st' ≡ record st { pending_txs = Map.delete params.id st.pending_txs })
  unfolding cancel_proposal
  cancel_proposal_ok params st h =
      let (signs, h1) = guard_ok (not (has rt.caller st.signers)) forbidden _ st h in
      let found = or_fail (Map.get params.id st.pending_txs) (actor_error not_found) in
      let (txn, s1, p, q) = >>=-eq-ok (lift found) _ st h1 in
      let (there, same) = lift_ok found st p in
      let (mine, h2) =
        guard_ok (not (is_proposer rt encode (first_approved txn))) forbidden _ s1 q in
      let i = or_fail_ok (Map.get params.id st.pending_txs) (actor_error not_found) there in
      let (v, s2, r, e) =
        >>=-eq-ok (check_cancel_hash rt encode params.proposal_hash txn) _ s1 h2 in
      (
        txn,
        i,
        ground arith,
        is_proposer_ok (first_approved txn) (ground arith),
        put_state_ok (record st { pending_txs = Map.delete params.id st.pending_txs }) s2 e,
      )
    where
      is_proposer_ok : (o : Option Address) → is_proposer rt encode o ≡ true → o ≡ some rt.caller
      is_proposer_ok none e = absurd (cc)
      is_proposer_ok (some a) e = ap some ((==_iff a rt.caller).0 e)

  -- What a successful `execute_transaction_if_approved` has done.
  pub data Executed (st : State) (id : ℤ) (txn : Transaction) (w : World State X) (o : Outcome)
      (w' : World State X) : Type 0 where
    ran :
        st.num_approvals_threshold ≤ length txn.approved
        → check_available st w.balance txn.value rt.curr_epoch ≡ true
        → o.applied ≡ true
        → (w1 : World State X) → send_approved rt encode txn w ≡ ok ((o.ret, o.code), w1)
        → (s : State) → w1.actor ≡ some s
        → w' ≡ record w1 { actor = some (record s { pending_txs = Map.delete id s.pending_txs }) }
        → Executed st id txn w o w'
    waits :
        length txn.approved < st.num_approvals_threshold
        → o.applied ≡ false
        → w' ≡ w
        → Executed st id txn w o w'

  run_approved_ok :
      (st : State) (id : ℤ) (txn : Transaction) (w : World State X) (o : Outcome)
      (w' : World State X)
      → st.num_approvals_threshold ≤ length txn.approved
      → run_approved rt encode st id txn w ≡ ok (o, w')
      → Executed st id txn w o w'
  unfolding run_approved check_funds remove_pending
  run_approved_ok st id txn w o w' met h =
      let (funds, h1) =
        guard_ok (not (check_available st w.balance txn.value rt.curr_epoch)) insufficient_funds _ w
          h in
      let (sent, w1, p, h2) = >>=-eq-ok (send_approved rt encode txn) _ w h1 in
      let (u, w2, q, h3) = >>=-eq-ok (transaction rt (remove_pending rt encode id)) _ w1 h2 in
      let (s, s', e, f, x) = transaction_ok rt (remove_pending rt encode id) w1 q in
      let k = ok_inj (record { applied = true; ret = sent.0; code = sent.1 }, w2) (o, w') h3 in
      subst (λ (r : Outcome × World State X). Executed st id txn w r.0 r.1) k
        (ran met (ground arith) refl w1 p s e (x ∙ ap (λ t. record w1 { actor = some t }) (cc)))

  pub execute_ok :
      (st : State) (id : ℤ) (txn : Transaction) (w : World State X) (o : Outcome)
      (w' : World State X)
      → execute_transaction_if_approved rt encode st id txn w ≡ ok (o, w')
      → Executed st id txn w o w'
  unfolding execute_transaction_if_approved
  execute_ok st id txn w o w' h =
      elim (Bool-cases (leb st.num_approvals_threshold (length txn.approved))) [
        | inl met ↦ run_approved_ok st id txn w o w' (ground arith) (rw met at h)
        | inr few ↦ waits (ground arith) (ground arith) (ground arith)
      ]

  -- An execution that did not take place has changed nothing.
  pub execute_not_applied :
      (st : State) (id : ℤ) (txn : Transaction) (w : World State X) (o : Outcome)
      (w' : World State X)
      → Executed st id txn w o w'
      → o.applied ≡ false
      → w' ≡ w
  execute_not_applied st id txn w o w' (ran m c a w1 p s e x) n = absurd (cc)
  execute_not_applied st id txn w o w' (waits f a e) n = e
