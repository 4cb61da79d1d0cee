-- ===== src/Actor/Multisig/Methods.antt =====
-- Every method of a wallet keeps it well formed, if the messages that it sends do.
use mathlib.Core.Path.{subst}
use forest.Base.{
  ℕ, ◌≡◌, refl, ap, sym, ◌∙◌, Bool, true, false, not, [], ◌∷◌, some, arith, has, if◌then◌else◌,
}
use forest.Base.Int.{ℤ, pos, ltb_ℤ, leb_ℤ, wrap_i64, ◌+ℤ◌}
use forest.Actor.Error.{Result, ok, Act, forbidden, illegal_argument, pure}
use forest.Actor.Map
use forest.Actor.Map.{Map, int_eq, IsMap, get-set, get-delete, set-IsMap, delete-IsMap}
use forest.Actor.Runtime.{Bytes, World, Runtime, validate_immediate_caller_is, signable_types}
use forest.Actor.Inversion.{>>=-eq-ok, guard_ok, ok_inj, map_ok}
use forest.Actor.Keeps.{
  Good, Keeps, SendKeeps, same_actor, >>=-Keeps, guard-Keeps, pure-Keeps, transaction-Keeps,
  transaction_then-Keeps, caller_is-Keeps, caller_type-Keeps, resolve-Keeps,
}
use forest.Actor.Multisig.{
  ProposeParams, TxnIdParams, execute_transaction_if_approved, approve_transaction, add_proposal,
  propose, read_proposal, approve, cancel_proposal, cancel, Message, invoke_method, construct,
  proposes, approves, cancels, adds_signer, removes_signer, swaps_signer, changes_threshold,
  locks_balance, bad_params, other, discard, Outcome,
}
use forest.Actor.Multisig.Admin.{
  lock, add_signer, remove_signer, swap_signer, change_num_approvals_threshold, lock_balance,
  AddSignerParams, RemoveSignerParams, SwapSignerParams, LockBalanceParams,
}
use forest.Actor.Multisig.Defs.{State, Transaction, ProposalHashData}
use forest.Actor.Multisig.Invariant.{
  IsWallet, IsBacked, add_to-IsWallet, set_threshold-IsWallet, lock-IsWallet,
}
use forest.Actor.Multisig.Removal.{remove_from-IsWallet, swap_in-IsWallet}
use forest.Actor.Multisig.Preserve.{
  set_pending-IsWallet, delete_pending-IsWallet, execute-Keeps, approve_transaction-Keeps,
}
use forest.Actor.Multisig.Reads.{
  read_proposal_ok, cancel_proposal_ok, execute_ok, execute_not_applied,
}
use forest.Actor.Multisig.Create.{constructor-Keeps}

module _ {X : Type 0} (rt : Runtime State X) (encode : ProposalHashData → Result Bytes)
    (send_keeps : SendKeeps IsWallet rt) where
  add_proposal-IsWallet :
      (params : ProposeParams) (st : State) {t : ℤ × Transaction} {st' : State}
      → ltb_ℤ params.value (pos 0) ≡ false
      → IsWallet st
      → add_proposal rt encode params st ≡ ok (t, st')
      → (has rt.caller st'.signers ≡ true) × IsBacked st'.signers t.1 × IsWallet st'
  unfolding add_proposal
  add_proposal-IsWallet params st {t} {st'} v g h =
      let (signs, h1) = guard_ok (not (has rt.caller st.signers)) forbidden _ st h in
      let txn : Transaction = record {
        to = params.to;
        value = params.value;
        method = params.method;
        params = params.params;
        approved = [];
      } in
      let b : IsBacked st.signers txn = record {
        once = tt;
        signed = λ a i. absurd (cc);
        valued = ground arith;
      } in
      let w = set_pending-IsWallet st.next_tx_id txn st g b in
      let st1 : State = record st {
        next_tx_id = wrap_i64 (st.next_tx_id +ℤ pos 1);
        pending_txs = Map.set st.next_tx_id txn st.pending_txs;
      } in
      let w1 : IsWallet st1 = record {
        distinct = w.distinct;
        few = w.few;
        positive = w.positive;
        reachable = w.reachable;
        map = w.map;
        backed = w.backed;
      } in
      subst (λ r. (has rt.caller r.1.signers ≡ true) × IsBacked r.1.signers r.0.1 × IsWallet r.1)
        (ok_inj ((st.next_tx_id, txn), st1) (t, st') h1) (ground arith, b, w1)

  propose-Keeps : (params : ProposeParams) → Keeps IsWallet (propose rt encode params)
  unfolding propose
  propose-Keeps params = >>=-Keeps IsWallet _ _ (caller_type-Keeps IsWallet rt signable_types) (λ u.
      guard-Keeps IsWallet (ltb_ℤ params.value (pos 0)) illegal_argument _ (λ valued.
        transaction_then-Keeps IsWallet rt (add_proposal rt encode params) _
          (λ st st' t g f w b w' e h.
            let (outcome, p, q) =
              map_ok (approve_transaction rt encode t.0 t.1)
                (λ o. record { txn_id = t.0; outcome = o }) w h in
            let (s, k, v) = add_proposal-IsWallet params st valued g f in
            approve_transaction-Keeps rt encode send_keeps t.0 t.1 st' w outcome w' e v k s p)))

  -- What `approve` has read lets it go on.
  approve_reads :
      (params : TxnIdParams) (st st' : State) (t : State × Transaction)
      → IsWallet st
      → read_proposal rt encode params st ≡ ok (t, st')
      → IsWallet st' × IsBacked st'.signers t.1 × (has rt.caller st'.signers ≡ true)
  approve_reads params st st' t g f =
      let (same, read, signs, found) = read_proposal_ok rt encode params st f in
      subst (λ s. IsWallet s × IsBacked s.signers t.1 × (has rt.caller s.signers ≡ true)) (sym same)
        (g, g.backed params.id t.1 found, signs)

  approve_rest :
      (params : TxnIdParams) (st' : State) (t : State × Transaction)
      → IsWallet st'
      → IsBacked st'.signers t.1
      → has rt.caller st'.signers ≡ true
      → (w : World State X) → w.actor ≡ some st'
      → (o : Outcome) (w1 : World State X)
      → execute_transaction_if_approved rt encode t.0 params.id t.1 w ≡ ok (o, w1)
      → (applied : Bool) → o.applied ≡ applied
      → (b : Outcome) (w' : World State X)
      → (if not applied then approve_transaction rt encode params.id t.1 else pure o) w1
        ≡ ok (b, w')
      → Good IsWallet w'
  approve_rest params st' t v k c w e o w1 p true n b w' h =
      let g1 =
        execute-Keeps rt encode send_keeps t.0 params.id t.1 w o w1 (λ s i. subst IsWallet (cc) v)
          p in
      same_actor IsWallet w1 w' (cc) g1
  approve_rest params st' t v k c w e o w1 p false n b w' h =
      let same =
        execute_not_applied rt encode t.0 params.id t.1 w o w1
          (execute_ok rt encode t.0 params.id t.1 w o w1 p) n in
      approve_transaction-Keeps rt encode send_keeps params.id t.1 st' w1 b w'
        (ap (λ v. v.actor) same ∙ e) v k c h

  approve-Keeps : (params : TxnIdParams) → Keeps IsWallet (approve rt encode params)
  unfolding approve
  approve-Keeps params = >>=-Keeps IsWallet _ _ (caller_type-Keeps IsWallet rt signable_types) (λ u.
      transaction_then-Keeps IsWallet rt (read_proposal rt encode params) _
        (λ st st' t g f w b w' e h.
          let (o, w1, p, q) =
            >>=-eq-ok (execute_transaction_if_approved rt encode t.0 params.id t.1) _ w h in
          let (v, k, c) = approve_reads params st st' t g f in
          approve_rest params st' t v k c w e o w1 p (o.applied) refl b w' q))

  cancel-Keeps : (params : TxnIdParams) → Keeps IsWallet (cancel rt encode params)
  unfolding cancel
  cancel-Keeps params = >>=-Keeps IsWallet _ _ (caller_type-Keeps IsWallet rt signable_types) (λ u.
      transaction-Keeps IsWallet rt (cancel_proposal rt encode params) (λ st st' a v e.
        let (txn, found, signs, mine, same) = cancel_proposal_ok rt encode params st e in
        subst IsWallet (sym same) (delete_pending-IsWallet params.id st v)))

  add_signer-Keeps : (params : AddSignerParams) → Keeps IsWallet (add_signer rt params)
  unfolding add_signer
  add_signer-Keeps params =
      >>=-Keeps IsWallet _ _ (caller_is-Keeps IsWallet rt (rt.receiver ∷ [])) (λ u.
        >>=-Keeps IsWallet _ _ (resolve-Keeps IsWallet rt params.signer send_keeps) (λ signer.
          transaction-Keeps IsWallet rt _
            (λ st st' a v h. add_to-IsWallet signer params.increase st st' v h)))

  remove_signer-Keeps : (params : RemoveSignerParams) → Keeps IsWallet (remove_signer rt params)
  unfolding remove_signer
  remove_signer-Keeps params =
      >>=-Keeps IsWallet _ _ (caller_is-Keeps IsWallet rt (rt.receiver ∷ [])) (λ u.
        >>=-Keeps IsWallet _ _ (resolve-Keeps IsWallet rt params.signer send_keeps) (λ signer.
          transaction-Keeps IsWallet rt _
            (λ st st' a v h. remove_from-IsWallet signer params.decrease st st' v h)))

  swap_signer-Keeps : (params : SwapSignerParams) → Keeps IsWallet (swap_signer rt params)
  unfolding swap_signer
  swap_signer-Keeps params =
      >>=-Keeps IsWallet _ _ (caller_is-Keeps IsWallet rt (rt.receiver ∷ [])) (λ u.
        >>=-Keeps IsWallet _ _ (resolve-Keeps IsWallet rt params.from send_keeps) (λ from.
          >>=-Keeps IsWallet _ _ (resolve-Keeps IsWallet rt params.to send_keeps) (λ to.
            transaction-Keeps IsWallet rt _ (λ st st' a v h. swap_in-IsWallet from to st st' v h))))

  change_threshold-Keeps : (n : ℕ) → Keeps IsWallet (change_num_approvals_threshold rt n)
  unfolding change_num_approvals_threshold
  change_threshold-Keeps n =
      >>=-Keeps IsWallet _ _ (caller_is-Keeps IsWallet rt (rt.receiver ∷ []))
        (λ u. transaction-Keeps IsWallet rt _ (λ st st' a v h. set_threshold-IsWallet n st st' v h))

  lock_balance-Keeps : (params : LockBalanceParams) → Keeps IsWallet (lock_balance rt params)
  unfolding lock_balance
  lock_balance-Keeps params w a w' g h =
      let (u, w1, p, h1) = >>=-eq-ok (validate_immediate_caller_is rt (rt.receiver ∷ [])) _ w h in
      let (lasting, h2) =
        guard_ok (leb_ℤ params.unlock_duration (pos 0)) illegal_argument _ w1 h1 in
      let (valued, h3) = guard_ok (ltb_ℤ params.amount (pos 0)) illegal_argument _ w1 h2 in
      transaction-Keeps IsWallet rt (lock params) (λ st st' x v e. lock-IsWallet params st st' v e)
        w1 a w' (caller_is-Keeps IsWallet rt (rt.receiver ∷ []) w u w1 g p) h3

  discard-Keeps :
      {A : Type 0} (m : Act (World State X) A) → Keeps IsWallet m → Keeps IsWallet (discard m)
  discard-Keeps m k = >>=-Keeps IsWallet m _ k (λ a. pure-Keeps IsWallet tt)

  pub invoke_method-Keeps : (message : Message) → Keeps IsWallet (invoke_method rt encode message)
  unfolding invoke_method
  invoke_method-Keeps (construct p) = constructor-Keeps rt encode send_keeps p
  invoke_method-Keeps (proposes p) = discard-Keeps _ (propose-Keeps p)
  invoke_method-Keeps (approves p) = discard-Keeps _ (approve-Keeps p)
  invoke_method-Keeps (cancels p) = cancel-Keeps p
  invoke_method-Keeps (adds_signer p) = add_signer-Keeps p
  invoke_method-Keeps (removes_signer p) = remove_signer-Keeps p
  invoke_method-Keeps (swaps_signer p) = swap_signer-Keeps p
  invoke_method-Keeps (changes_threshold n) = change_threshold-Keeps n
  invoke_method-Keeps (locks_balance p) = lock_balance-Keeps p
  invoke_method-Keeps bad_params = λ w a w' g h. absurd (cc)
  invoke_method-Keeps other = λ w a w' g h. absurd (cc)
