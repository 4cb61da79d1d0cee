-- ===== src/Actor/Multisig/Outcomes.antt =====
-- What a method of a wallet has done when it succeeds.
use mathlib.Core.Path.{subst, subst₂}
use forest.Base.{
  ◌<◌, ◌≡◌, refl, ap, sym, ◌∙◌, Bool, true, false, not, [], ◌∷◌, ◌++◌, some, arith, has, length,
  if◌then◌else◌,
}
use forest.Base.Int.{ℤ}
use forest.Actor.Error.{Result, ok, forbidden, pure}
use forest.Actor.Map
use forest.Actor.Map.{Map, int_eq, IsMap, get-set, get-delete, set-IsMap, delete-IsMap}
use forest.Actor.Runtime.{
  Address, Bytes, World, Runtime, transaction, validate_immediate_caller_type, signable_types,
}
use forest.Actor.Inversion.{>>=-eq-ok, guard_ok, ok_inj, transaction_ok, caller_type_ok}
use forest.Actor.Multisig.{
  store_approval, TxnIdParams, execute_transaction_if_approved, approve_transaction, read_proposal,
  approve, Outcome,
}
use forest.Actor.Multisig.Defs.{
  State, Transaction, ProposalHashData, check_available, amount_locked,
}
use forest.Actor.Multisig.Reads.{read_proposal_ok, Executed, ran, waits, execute_ok}

-- The state after an approval by the caller is stored.
abbrev pub with_approval : State → ℤ → Transaction → Address → State
with_approval st id txn caller = record st {
  pending_txs = Map.set id (record txn { approved = txn.approved ++ caller ∷ [] }) st.pending_txs;
}

pub check_available-pending :
    (m : Map ℤ Transaction) (st : State) (balance amount epoch : ℤ)
    → check_available (record st { pending_txs = m }) balance amount epoch
      ≡ check_available st balance amount epoch
unfolding check_available amount_locked
check_available-pending m st balance amount epoch = refl

module _ {X : Type 0} (rt : Runtime State X) (encode : ProposalHashData → Result Bytes) where
  set_pending : State → ℤ → Transaction → State
  set_pending st id txn = record st { pending_txs = Map.set id txn st.pending_txs }

  store_approval_ok :
      (id : ℤ) (txn : Transaction) (st s1 : State) (w w1 : World State X)
      → w.actor ≡ some st
      → transaction rt (store_approval rt encode id txn) w ≡ ok (s1, w1)
      → (s1 ≡ set_pending st id txn) × (w1 ≡ record w { actor = some (set_pending st id txn) })
  unfolding store_approval set_pending transaction
  store_approval_ok id txn st s1 w w1 e h = ground arith

  -- The caller's approval, and what follows it.
  pub approve_transaction_ok :
      (id : ℤ) (txn : Transaction) (st : State) (w : World State X) (o : Outcome)
      (w' : World State X)
      → w.actor ≡ some st
      → approve_transaction rt encode id txn w ≡ ok (o, w')
      → (has rt.caller txn.approved ≡ false)
        × Executed rt encode
            (with_approval st id txn rt.caller)
            id
            (record txn { approved = txn.approved ++ rt.caller ∷ [] })
            (record w { actor = some (with_approval st id txn rt.caller) })
            o
            w'
  unfolding approve_transaction set_pending
  approve_transaction_ok id txn st w o w' e h =
      let (new, h1) = guard_ok (has rt.caller txn.approved) forbidden _ w h in
      let txn' : Transaction = record txn { approved = txn.approved ++ rt.caller ∷ [] } in
      let (s1, w1, p, q) = >>=-eq-ok (transaction rt (store_approval rt encode id txn')) _ w h1 in
      let (a, b) = store_approval_ok id txn' st s1 w w1 e p in
      (
        new,
        subst₂ (λ s v. Executed rt encode s id txn' v o w') a b
            (execute_ok rt encode s1 id txn' w1 o w' q),
      )

  -- What `approve` read, and which of its two executions it ended with.
  pub data Approved (params : TxnIdParams) (st : State) (txn : Transaction) (w : World State X)
      (o : Outcome) (w' : World State X) : Type 0 where
    at_once :
        o.applied ≡ true
        → Executed rt encode st params.id txn w o w'
        → Approved params st txn w o w'
    by_caller :
        length txn.approved < st.num_approvals_threshold
        → has rt.caller txn.approved ≡ false
        → Executed rt encode
            (with_approval st params.id txn rt.caller)
            params.id
            (record txn { approved = txn.approved ++ rt.caller ∷ [] })
            (record w { actor = some (with_approval st params.id txn rt.caller) })
            o
            w'
        → Approved params st txn w o w'

  approve_cases :
      (params : TxnIdParams) (st : State) (txn : Transaction) (w : World State X) (o : Outcome)
      (w' : World State X)
      → w.actor ≡ some st
      → (first : Outcome) (w1 : World State X) → Executed rt encode st params.id txn w first w1
      → (applied : Bool) → first.applied ≡ applied
      → (if not applied then approve_transaction rt encode params.id txn else pure first) w1
        ≡ ok (o, w')
      → Approved params st txn w o w'
  approve_cases params st txn w o w' e first w1 x true n h =
      subst (λ (r : Outcome × World State X). Approved params st txn w r.0 r.1)
        (ok_inj (first, w1) (o, w') h) (at_once n x)
  approve_cases params st txn w o w' e first w1 (ran m c a w2 p s f g) false n h = absurd (cc)
  approve_cases params st txn w o w' e first w1 (waits few a same) false n h =
      let (new, x) =
        approve_transaction_ok params.id txn st w o w' e
          (subst (λ v. approve_transaction rt encode params.id txn v ≡ ok (o, w')) same h) in
      by_caller few new x

  pub approve_ok :
      (params : TxnIdParams) (w : World State X) (o : Outcome) (w' : World State X)
      → approve rt encode params w ≡ ok (o, w')
      → (st : State) × (txn : Transaction) × (w.actor ≡ some st)
        × (has rt.caller st.signers ≡ true)
        × (Map.get params.id st.pending_txs ≡ some txn)
        × Approved params st txn w o w'
  unfolding approve
  approve_ok params w o w' h =
      let (u, w1, p, q) = >>=-eq-ok (validate_immediate_caller_type rt signable_types) _ w h in
      let same = caller_type_ok rt signable_types w p in
      let (t, w2, p1, h1) = >>=-eq-ok (transaction rt (read_proposal rt encode params)) _ w1 q in
      let (st, st', e, f, x) = transaction_ok rt (read_proposal rt encode params) w1 p1 in
      let (kept, read, signs, found) = read_proposal_ok rt encode params st f in
      let (first, w3, p2, h2) =
        >>=-eq-ok (execute_transaction_if_approved rt encode t.0 params.id t.1) _ w2 h1 in
      let e' : w.actor ≡ some st = ap (λ v. v.actor) (sym same) ∙ e in
      let back : w2 ≡ w =
        x ∙ ap (λ s. record w1 { actor = some s }) kept ∙ unchanged w1 st e ∙ same in
      let run = execute_ok rt encode t.0 params.id t.1 w2 first w3 p2 in
      let run' = subst₂ (λ s v. Executed rt encode s params.id t.1 v first w3) read back run in
      (
        st,
        t.1,
        e',
        signs,
        found,
        approve_cases params st t.1 w o w' e' first w3 run' first.applied refl h2,
      )
    where
      unchanged :
          (v : World State X) (s : State) → v.actor ≡ some s → record v { actor = some s } ≡ v
      unchanged v s e = ap (λ a. record v { actor = a }) (sym e)
