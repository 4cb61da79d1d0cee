-- ===== src/Actor/Multisig/Quorum.antt =====
-- What an `approve` of a wallet has done, and on whose approvals.

use forest.Base.{
  ℕ, leb, false, suc, ◌≤◌, ◌<◌, ◌≡◌, refl, sym, ◌∙◌, true, false, ◌||◌, List, [], ◌∷◌, ◌++◌, some,
  arith, ◌==◌, has, length, Distinct,
}
use forest.Base.Int.{ℤ}
use forest.Actor.Error.{Result, ok, success, Act, fail_if, forbidden}
use forest.Actor.Map
use forest.Actor.Map.{Map, int_eq, IsMap, get-set, get-delete, set-IsMap, delete-IsMap}
use forest.Actor.Runtime.{
  Address, Bytes, World, Runtime, signable_types, transaction, validate_immediate_caller_type,
}
use forest.Actor.Multisig.{
  TxnIdParams, approve, Outcome, approve_transaction, read_proposal, get_transaction,
  execute_transaction_if_approved, store_approval,
}
use forest.Actor.Multisig.Defs.{State, Transaction, ProposalHashData, check_available}
use forest.Actor.Multisig.Signers.{has-snoc, length-snoc}
use forest.Actor.Multisig.Reads.{ran, waits}
use forest.Actor.Multisig.Preserve.{approved-IsBacked}
use forest.Actor.Multisig.Invariant.{IsWallet, IsBacked}
use forest.Actor.Keeps.{Good}
use forest.Actor.Inversion.{>>=-step}
use forest.Actor.Multisig.Outcomes.{
  with_approval, check_available-pending, Approved, at_once, by_caller, approve_ok,
}

-- Addresses that make up a quorum: distinct signers, as many as the threshold wants, and each has
-- approved the transaction before or is the caller.
pub record Quorum (st : State) (approved : List Address) (caller : Address) : Type 0 where
  pub voters : List Address
  pub once : Distinct voters
  pub signed : (a : Address) → has a voters ≡ true → has a st.signers ≡ true
  pub voted : (a : Address) → has a voters ≡ true → (has a approved || (caller == a)) ≡ true
  pub enough : st.num_approvals_threshold ≤ length voters

module _ {X : Type 0} (rt : Runtime State X) (encode : ProposalHashData → Result Bytes) where
  -- The approvals that a wallet's pending transaction has are a quorum when they reach the threshold.
  quorum :
      (st : State) (txn : Transaction) (caller : Address)
      → IsBacked st.signers txn
      → st.num_approvals_threshold ≤ length txn.approved
      → Quorum st txn.approved caller
  quorum st txn caller b m = record {
    voters = txn.approved;
    once = b.once;
    signed = b.signed;
    voted = λ a h. ground arith;
    enough = m;
  }

  Quorum-with_caller :
      (st : State) (txn : Transaction)
      → IsBacked st.signers txn
      → has rt.caller st.signers ≡ true
      → has rt.caller txn.approved ≡ false
      → st.num_approvals_threshold ≤ length (txn.approved ++ rt.caller ∷ [])
      → Quorum st txn.approved rt.caller
  Quorum-with_caller st txn b signs new m =
      let k = approved-IsBacked rt.caller st.signers txn b signs new in
      record {
        voters = txn.approved ++ rt.caller ∷ [];
        once = k.once;
        signed = k.signed;
        voted = λ a h. ground (arith, has-snoc a rt.caller txn.approved);
        enough = m;
      }

  -- An `approve` of a well-formed wallet that has applied a transaction was called by a signer, found the
  -- transaction pending, with a quorum of distinct signers that have approved it or are the caller, and
  -- with funds that were available for its value.
  pub approve_applied :
      (params : TxnIdParams) (w : World State X) (o : Outcome) (w' : World State X)
      → Good IsWallet w
      → approve rt encode params w ≡ ok (o, w')
      → o.applied ≡ true
      → (st : State) × (txn : Transaction) × (w.actor ≡ some st)
        × (Map.get params.id st.pending_txs ≡ some txn)
        × (has rt.caller st.signers ≡ true)
        × Quorum st txn.approved rt.caller
        × (check_available st w.balance txn.value rt.curr_epoch ≡ true)
  approve_applied params w o w' g h a =
      let (st, txn, e, signs, found, x) = approve_ok rt encode params w o w' h in
      let b = (g st e).backed params.id txn found in
      let (q, c) = case st txn signs b x in (st, txn, e, found, signs, q, c)
    where
      case :
          (st : State) (txn : Transaction)
          → has rt.caller st.signers ≡ true
          → IsBacked st.signers txn
          → Approved rt encode params st txn w o w'
          → Quorum st txn.approved rt.caller
            × (check_available st w.balance txn.value rt.curr_epoch ≡ true)
      case st txn signs b (at_once y (ran m c z w1 p s e f)) = (quorum st txn rt.caller b m, c)
      case st txn signs b (at_once y (waits few n same)) = absurd (cc)
      case st txn signs b (by_caller few new (ran m c z w1 p s e f)) = (
        Quorum-with_caller st txn b signs new m,
        sym (check_available-pending _ st w.balance txn.value rt.curr_epoch) ∙ c,
      )
      case st txn signs b (by_caller few new (waits more n same)) = absurd (cc)

  -- An `approve` that succeeds without applying the transaction was called by a signer that had not
  -- approved it yet, leaves it below the threshold, and has changed nothing but to add the approval.
  pub approve_waits :
      (params : TxnIdParams) (w : World State X) (o : Outcome) (w' : World State X)
      → approve rt encode params w ≡ ok (o, w')
      → o.applied ≡ false
      → (st : State) × (txn : Transaction) × (w.actor ≡ some st)
        × (Map.get params.id st.pending_txs ≡ some txn)
        × (has rt.caller st.signers ≡ true)
        × (has rt.caller txn.approved ≡ false)
        × (suc (length txn.approved) < st.num_approvals_threshold)
        × (w' ≡ record w { actor = some (with_approval st params.id txn rt.caller) })
  approve_waits params w o w' h n =
      let (st, txn, e, signs, found, x) = approve_ok rt encode params w o w' h in
      let (new, more, same) = case st txn x in (st, txn, e, found, signs, new, more, same)
    where
      case :
          (st : State) (txn : Transaction)
          → Approved rt encode params st txn w o w'
          → (has rt.caller txn.approved ≡ false)
            × (suc (length txn.approved) < st.num_approvals_threshold)
            × (w' ≡ record w { actor = some (with_approval st params.id txn rt.caller) })
      case st txn (at_once y x) = absurd (cc)
      case st txn (by_caller few new (ran m c z w1 p s e f)) = absurd (cc)
      case st txn (by_caller few new (waits more z same)) =
          (new, omega (arith, more, length-snoc rt.caller txn.approved), same)

  signable :
      (w : World State X) (code : ℕ)
      → rt.get_actor_code_cid w.outside rt.caller ≡ ok (some code)
      → has code signable_types ≡ true
      → validate_immediate_caller_type rt signable_types w ≡ ok (tt, w)
  unfolding validate_immediate_caller_type
  signable w code c d = ground arith

  commits :
      {A : Type 0} (f : Act State A) (w : World State X) (st st' : State) (a : A)
      → w.actor ≡ some st
      → f st ≡ ok (a, st')
      → transaction rt f w ≡ ok (a, record w { actor = some st' })
  unfolding transaction
  commits f w st st' a e h = ground arith

  reads :
      (id : ℤ) (st : State) (txn : Transaction)
      → has rt.caller st.signers ≡ true
      → Map.get id st.pending_txs ≡ some txn
      → read_proposal rt encode (record { id = id; proposal_hash = [] }) st ≡ ok ((st, txn), st)
  unfolding read_proposal get_transaction
  reads id st txn s g = ground arith

  abbrev not_applied : Outcome
  not_applied = record { applied = false; ret = []; code = success }

  execute_waits :
      (st : State) (id : ℤ) (txn : Transaction) (w : World State X)
      → length txn.approved < st.num_approvals_threshold
      → execute_transaction_if_approved rt encode st id txn w ≡ ok (not_applied, w)
  unfolding execute_transaction_if_approved
  execute_waits st id txn w t =
      let few : leb st.num_approvals_threshold (length txn.approved) ≡ false = ground arith in
      ground arith

  approve_transaction_waits :
      (st : State) (id : ℤ) (txn : Transaction) (w : World State X)
      → w.actor ≡ some st
      → has rt.caller txn.approved ≡ false
      → suc (length txn.approved) < st.num_approvals_threshold
      → approve_transaction rt encode id txn w
        ≡ ok (not_applied, record w { actor = some (with_approval st id txn rt.caller) })
  unfolding approve_transaction store_approval
  approve_transaction_waits st id txn w a n t =
      let txn' : Transaction = record txn { approved = txn.approved ++ rt.caller ∷ [] } in
      let st' = with_approval st id txn rt.caller in
      >>=-step (fail_if (has rt.caller txn.approved) forbidden) _ w (ground arith)
      ∙ >>=-step (transaction rt (store_approval rt encode id txn')) _ w
          (commits (store_approval rt encode id txn') w st st' st' a refl)
      ∙ execute_waits st' id txn' (record w { actor = some st' })
          (omega (arith, length-snoc rt.caller txn.approved))

  -- An `approve` with no hash by a signable signer that has not approved the pending transaction yet, and
  -- whose approval does not reach the threshold, succeeds: it adds the approval and applies nothing.
  pub approve_succeeds :
      (id : ℤ) (w : World State X) (st : State) (txn : Transaction) (code : ℕ)
      → rt.get_actor_code_cid w.outside rt.caller ≡ ok (some code)
      → has code signable_types ≡ true
      → w.actor ≡ some st
      → has rt.caller st.signers ≡ true
      → Map.get id st.pending_txs ≡ some txn
      → has rt.caller txn.approved ≡ false
      → suc (length txn.approved) < st.num_approvals_threshold
      → approve rt encode (record { id = id; proposal_hash = [] }) w
        ≡ ok (
          record { applied = false; ret = []; code = success },
          record w { actor = some (with_approval st id txn rt.caller) },
        )
  unfolding approve
  approve_succeeds id w st txn code c d a s g n t =
      let params : TxnIdParams = record { id = id; proposal_hash = [] } in
      >>=-step (validate_immediate_caller_type rt signable_types) _ w (signable w code c d)
      ∙ >>=-step (transaction rt (read_proposal rt encode params)) _ w
          (commits (read_proposal rt encode params) w st st (st, txn) a (reads id st txn s g))
      ∙ >>=-step (execute_transaction_if_approved rt encode st id txn) _
          (record w { actor = some st })
          (execute_waits st id txn (record w { actor = some st }) (omega arith))
      ∙ approve_transaction_waits st id txn (record w { actor = some st }) refl n t
