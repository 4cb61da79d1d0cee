-- ===== src/Actor/Multisig/Preserve.antt =====
-- Every method of a wallet keeps it well formed, if the messages that it sends do.
use mathlib.Core.Path.{subst}
use forest.Base.{
  ◌≡◌, ap, inl, inr, true, false, List, [], ◌∷◌, ◌++◌, some, arith, ==_iff, has, leb, length,
  Bool-cases,
}
use forest.Base.Int.{ℤ}
use forest.Actor.Error.{Result, ok, forbidden, Result-cases}
use forest.Actor.Map
use forest.Actor.Map.{Map, int_eq, IsMap, get-set, get-delete, set-IsMap, delete-IsMap}
use forest.Actor.Runtime.{Address, Bytes, World, Runtime, transaction}
use forest.Actor.Inversion.{>>=-eq-ok, guard_ok, transaction_ok}
use forest.Actor.Keeps.{
  Good, Keeps, SendKeeps, same_actor, >>=-Keeps, pure-Keeps, transaction-Keeps,
}
use forest.Actor.Multisig.{
  send_approved, remove_pending, check_funds, run_approved, execute_transaction_if_approved,
  store_approval, approve_transaction, Outcome,
}
use forest.Actor.Multisig.Defs.{State, Transaction, ProposalHashData}
use forest.Actor.Multisig.Invariant.{IsWallet, IsBacked}
use forest.Actor.Multisig.Signers.{has-snoc, Distinct-snoc}

pub set_pending-IsWallet :
    (id : ℤ) (txn : Transaction) (st : State)
    → IsWallet st
    → IsBacked st.signers txn
    → IsWallet (record st { pending_txs = Map.set id txn st.pending_txs })
set_pending-IsWallet id txn st v b = record {
  distinct = v.distinct;
  few = v.few;
  positive = v.positive;
  reachable = v.reachable;
  map = set-IsMap id txn st.pending_txs v.map;
  backed = λ j t g. elim (Bool-cases (int_eq.beq id j)) [
    | inl same ↦
        let e : txn ≡ t = ground (arith, get-set id j txn st.pending_txs) in
        subst (IsBacked st.signers) e b
    | inr other ↦ v.backed j t (ground (arith, get-set id j txn st.pending_txs))
  ];
}

pub delete_pending-IsWallet :
    (id : ℤ) (st : State)
    → IsWallet st
    → IsWallet (record st { pending_txs = Map.delete id st.pending_txs })
delete_pending-IsWallet id st v = record {
  distinct = v.distinct;
  few = v.few;
  positive = v.positive;
  reachable = v.reachable;
  map = delete-IsMap id st.pending_txs v.map;
  backed = λ j t g. v.backed j t (ground (arith, get-delete id j st.pending_txs));
}

-- One more signer approves.
pub approved-IsBacked :
    (a : Address) (signers : List Address) (txn : Transaction)
    → IsBacked signers txn
    → has a signers ≡ true
    → has a txn.approved ≡ false
    → IsBacked signers (record txn { approved = txn.approved ++ a ∷ [] })
approved-IsBacked a signers txn b h k = record {
  once = Distinct-snoc a txn.approved b.once k;
  signed = λ x i.
      ground (arith, b.signed x, has-snoc x a txn.approved, ==_iff a x, ap (λ y. has y signers));
  valued = b.valued;
}

module _ {X : Type 0} (rt : Runtime State X) (encode : ProposalHashData → Result Bytes)
    (send_keeps : SendKeeps IsWallet rt) where
  send_approved-Keeps : (txn : Transaction) → Keeps IsWallet (send_approved rt encode txn)
  unfolding send_approved
  send_approved-Keeps txn w a w' g h =
      elim (Result-cases (rt.send txn.to txn.method txn.params txn.value w)) [
        | inl (p, e) ↦ send_keeps txn.to txn.method txn.params txn.value w p.0 w' g (ground arith)
        | inr (x, e) ↦ same_actor IsWallet w w' (ground arith) g
      ]

  run_approved-Keeps :
      (st : State) (id : ℤ) (txn : Transaction) → Keeps IsWallet (run_approved rt encode st id txn)
  unfolding run_approved remove_pending check_funds
  run_approved-Keeps st id txn =
      >>=-Keeps IsWallet _ _ (λ w a w' g h. same_actor IsWallet w w' (ground arith) g)
        (λ u. >>=-Keeps IsWallet _ _ (send_approved-Keeps txn) (λ sent.
          >>=-Keeps IsWallet _ _
            (transaction-Keeps IsWallet rt (remove_pending rt encode id)
              (λ s s' a v e. subst IsWallet (cc) (delete_pending-IsWallet id s v)))
            (λ u. pure-Keeps IsWallet _)))

  pub execute-Keeps :
      (st : State) (id : ℤ) (txn : Transaction)
      → Keeps IsWallet (execute_transaction_if_approved rt encode st id txn)
  unfolding execute_transaction_if_approved
  execute-Keeps st id txn w a w' g h =
      elim (Bool-cases (leb st.num_approvals_threshold (length txn.approved))) [
        | inl met ↦ run_approved-Keeps st id txn w a w' g (ground arith)
        | inr few ↦ same_actor IsWallet w w' (ground arith) g
      ]

  pub approve_transaction-Keeps :
      (id : ℤ) (txn : Transaction) (st : State) (w : World State X) (a : Outcome)
      (w' : World State X)
      → w.actor ≡ some st
      → IsWallet st
      → IsBacked st.signers txn
      → has rt.caller st.signers ≡ true
      → approve_transaction rt encode id txn w ≡ ok (a, w')
      → Good IsWallet w'
  unfolding approve_transaction store_approval
  approve_transaction-Keeps id txn st w a w' e v b s h =
      let (new, h1) = guard_ok (has rt.caller txn.approved) forbidden _ w h in
      let txn' : Transaction = record txn { approved = txn.approved ++ rt.caller ∷ [] } in
      let (st', w1, p, q) = >>=-eq-ok (transaction rt (store_approval rt encode id txn')) _ w h1 in
      let (s0, s1, x, y, z) = transaction_ok rt (store_approval rt encode id txn') w p in
      let e1 : w1.actor ≡ some (record st { pending_txs = Map.set id txn' st.pending_txs }) = cc in
      execute-Keeps st' id txn' w1 a w'
        (λ t i.
          subst IsWallet (cc) (
            set_pending-IsWallet id txn' st v (approved-IsBacked rt.caller st.signers txn b s new)))
        q
