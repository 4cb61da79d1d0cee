-- ===== src/Actor/Multisig/Propose.antt =====
-- What `propose` and `cancel` have done when they succeed.
use mathlib.Core.Path.{subst₂}
use forest.Base.{◌≡◌, refl, ap, sym, ◌∙◌, true, not, [], ◌∷◌, none, some, arith, has, if◌then◌else◌}
use forest.Base.Int.{ℤ, pos, ◌≤ℤ◌, ltb_ℤ, wrap_i64, ◌+ℤ◌}
use forest.Actor.Error.{Result, ok, forbidden, illegal_argument}
use forest.Actor.Map
use forest.Actor.Map.{Map, int_eq, IsMap, get-set, get-delete, set-IsMap, delete-IsMap}
use forest.Actor.Runtime.{
  Bytes, World, Runtime, transaction, validate_immediate_caller_type, signable_types,
}
use forest.Actor.Inversion.{>>=-eq-ok, guard_ok, ok_inj, map_ok, transaction_ok, caller_type_ok}
use forest.Actor.Multisig.{
  ProposeParams, TxnIdParams, approve_transaction, add_proposal, propose, cancel_proposal, cancel,
}
use forest.Actor.Multisig.Defs.{State, Transaction, ProposalHashData, first_approved}
use forest.Actor.Multisig.Reads.{cancel_proposal_ok, Executed}
use forest.Actor.Multisig.Outcomes.{with_approval, approve_transaction_ok}
use forest.Actor.Multisig.{ProposeReturn}

-- The transaction that a proposal stores.
abbrev pub proposed : ProposeParams → Transaction
proposed params = record {
  to = params.to;
  value = params.value;
  method = params.method;
  params = params.params;
  approved = [];
}

abbrev pub with_proposal : State → ProposeParams → State
with_proposal st params = record st {
  next_tx_id = wrap_i64 (st.next_tx_id +ℤ pos 1);
  pending_txs = Map.set st.next_tx_id (proposed params) st.pending_txs;
}

module _ {X : Type 0} (rt : Runtime State X) (encode : ProposalHashData → Result Bytes) where
  add_proposal_ok :
      (params : ProposeParams) (st st' : State) (t : ℤ × Transaction)
      → add_proposal rt encode params st ≡ ok (t, st')
      → (has rt.caller st.signers ≡ true)
        × (t ≡ (st.next_tx_id, proposed params))
        × (st' ≡ with_proposal st params)
  unfolding add_proposal
  add_proposal_ok params st st' t h =
      let (signs, h1) = guard_ok (not (has rt.caller st.signers)) forbidden _ st h in
      let k = ok_inj ((st.next_tx_id, proposed params), with_proposal st params) (t, st') h1 in
      (ground arith, sym (ap (λ r. r.0) k), sym (ap (λ r. r.1) k))

  commit_proposal_ok :
      (params : ProposeParams) (w w1 : World State X) (t : ℤ × Transaction)
      → transaction rt (add_proposal rt encode params) w ≡ ok (t, w1)
      → (st : State) × (w.actor ≡ some st)
        × (has rt.caller st.signers ≡ true)
        × (t ≡ (st.next_tx_id, proposed params))
        × (w1 ≡ record w { actor = some (with_proposal st params) })
  commit_proposal_ok params w w1 t h =
      let (st, st', e, f, x) = transaction_ok rt (add_proposal rt encode params) w h in
      let (signs, k, l) = add_proposal_ok params st st' t f in
      (st, e, signs, k, x ∙ ap (λ (s : State). record w { actor = some s }) l)

  -- The execution that a proposal ends with, after the proposer has approved.
  -- A `propose` that succeeds was called by a signer with a value that is not negative, returns the id
  -- that was next, and executes on the state in which the proposal is stored with the one approval of
  -- the caller: it applies it if the threshold is one, and else leaves it pending.
  pub propose_ok :
      (params : ProposeParams) (w : World State X) (r : ProposeReturn) (w' : World State X)
      → propose rt encode params w ≡ ok (r, w')
      → (st : State) × (w.actor ≡ some st)
        × (has rt.caller st.signers ≡ true)
        × (pos 0 ≤ℤ params.value)
        × (r.txn_id ≡ st.next_tx_id)
        × (let st' =
              with_approval (with_proposal st params) st.next_tx_id (proposed params) rt.caller in
            Executed rt encode st' st.next_tx_id
              (record (proposed params) { approved = rt.caller ∷ [] })
              (record w { actor = some st' })
              r.outcome
              w')
  unfolding propose
  propose_ok params w r w' h =
      let (u, w0, a, h0) = >>=-eq-ok (validate_immediate_caller_type rt signable_types) _ w h in
      let same = caller_type_ok rt signable_types w a in
      let (valued, h1) = guard_ok (ltb_ℤ params.value (pos 0)) illegal_argument _ w0 h0 in
      let (t, w1, b, h2) = >>=-eq-ok (transaction rt (add_proposal rt encode params)) _ w0 h1 in
      let (st, e, signs, k, x) = commit_proposal_ok params w0 w1 t b in
      let (o, c, d) =
        map_ok (approve_transaction rt encode t.0 t.1) (λ o. record { txn_id = t.0; outcome = o })
          w1 h2 in
      let c' =
        subst₂ (λ (q : ℤ × Transaction) v. approve_transaction rt encode q.0 q.1 v ≡ ok (o, w')) k x
          c in
      let (new, run) =
        approve_transaction_ok rt encode st.next_tx_id (proposed params) (with_proposal st params)
          (record w0 { actor = some (with_proposal st params) }) o w' refl c' in
      let st' = with_approval (with_proposal st params) st.next_tx_id (proposed params) rt.caller in
      (
        st,
        ap (λ (v : World State X). v.actor) (sym same) ∙ e,
        signs,
        ground arith,
        sym (ap (λ p. p.txn_id) d) ∙ ap (λ q. q.0) k,
        subst₂
            (λ (v : World State X) (p : ProposeReturn).
              Executed rt encode st' st.next_tx_id
                (record (proposed params) { approved = rt.caller ∷ [] })
                (record v { actor = some st' }) p.outcome w')
            same d run,
      )

  -- A `cancel` that succeeds was called by the signer whose approval comes first, and has removed that
  -- pending transaction and nothing else.
  pub cancel_ok :
      (params : TxnIdParams) (w : World State X) (w' : World State X)
      → cancel rt encode params w ≡ ok (tt, w')
      → (st : State) × (txn : Transaction) × (rest : Map ℤ Transaction) × (w.actor ≡ some st)
        × (Map.get params.id st.pending_txs ≡ some txn)
        × (has rt.caller st.signers ≡ true)
        × (first_approved txn ≡ some rt.caller)
        × (w' ≡ record w { actor = some (record st { pending_txs = rest }) })
        × ((id : ℤ)
            → Map.get id rest
              ≡ (if int_eq.beq params.id id then none else Map.get id st.pending_txs))
  unfolding cancel
  cancel_ok params w w' h =
      let (u, w1, p, q) = >>=-eq-ok (validate_immediate_caller_type rt signable_types) _ w h in
      let same = caller_type_ok rt signable_types w p in
      let (st, st', e, f, x) = transaction_ok rt (cancel_proposal rt encode params) w1 q in
      let (txn, found, signs, mine, k) = cancel_proposal_ok rt encode params st f in
      (
        st,
        txn,
        Map.delete params.id st.pending_txs,
        ap (λ v. v.actor) (sym same) ∙ e,
        found,
        signs,
        mine,
        x
            ∙ ap (λ (s : State). record w1 { actor = some s }) k
            ∙ ap
                (λ (v : World State X). record v {
                  actor = some (record st { pending_txs = Map.delete params.id st.pending_txs });
                })
                same,
        λ id. get-delete params.id id st.pending_txs,
      )
