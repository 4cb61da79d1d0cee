-- ===== src/Actor/Multisig/Authority.antt =====
-- Who may call which method of a wallet.
use mathlib.Core.Path.{subst}
use forest.Base.{◌≡◌, sym, true, not, [], ◌∷◌, some, arith, ==_iff, has}
use forest.Base.Int.{ℤ, pos, ltb_ℤ}
use forest.Actor.Error.{Result, ok, Act, forbidden, illegal_argument, ◌>>=◌}
use forest.Actor.Map.{int_eq}
use forest.Actor.Runtime.{
  Address, Bytes, World, Runtime, transaction, validate_immediate_caller_is,
  validate_immediate_caller_type, init_actor_addr, signable_types,
}
use forest.Actor.Inversion.{>>=-eq-ok, guard_ok, transaction_ok, caller_is_ok, caller_type_ok}
use forest.Actor.Multisig.{
  constructor, ProposeParams, add_proposal, propose, read_proposal, approve, cancel, Message,
  invoke_method,
}
use forest.Actor.Multisig.Admin.{
  add_signer, remove_signer, swap_signer, change_num_approvals_threshold, lock_balance,
}
use forest.Actor.Multisig.Defs.{State, Transaction, ProposalHashData}
use forest.Actor.Multisig.Reads.{read_proposal_ok}
use forest.Actor.Multisig.Propose.{cancel_ok}
use forest.Actor.Multisig.{
  construct, proposes, approves, cancels, adds_signer, removes_signer, swaps_signer,
  changes_threshold, locks_balance, bad_params, other,
}

module _ {X : Type 0} (rt : Runtime State X) (encode : ProposalHashData → Result Bytes) where
  -- Who a successful caller is, for each message.
  abbrev pub SignerCalls : World State X → Type 0
  SignerCalls w = (st : State) × (w.actor ≡ some st) × (has rt.caller st.signers ≡ true)

  abbrev pub Authorised : Message → World State X → Type 0
  Authorised (construct p) w = rt.caller ≡ init_actor_addr
  Authorised (proposes p) w = SignerCalls w
  Authorised (approves p) w = SignerCalls w
  Authorised (cancels p) w = SignerCalls w
  Authorised (adds_signer p) w = rt.caller ≡ rt.receiver
  Authorised (removes_signer p) w = rt.caller ≡ rt.receiver
  Authorised (swaps_signer p) w = rt.caller ≡ rt.receiver
  Authorised (changes_threshold n) w = rt.caller ≡ rt.receiver
  Authorised (locks_balance p) w = rt.caller ≡ rt.receiver
  Authorised bad_params w = ⊥
  Authorised other w = ⊥

  only :
      {B : Type 0} (address : Address) (f : Unit {0} → Act (World State X) B) (w : World State X)
      {q : B × World State X}
      → (validate_immediate_caller_is rt (address ∷ []) >>= f) w ≡ ok q
      → rt.caller ≡ address
  only address f w h =
      let (u, w1, p, e) = >>=-eq-ok (validate_immediate_caller_is rt (address ∷ [])) f w h in
      let there = (caller_is_ok rt (address ∷ []) w p).0 in
      sym ((==_iff address rt.caller).0 (ground arith))

  signer_commits :
      {A B : Type 0} (f : Act State A) (k : A → Act (World State X) B) (w : World State X)
      {q : B × World State X}
      → ((st st' : State) (a : A) → f st ≡ ok (a, st') → has rt.caller st.signers ≡ true)
      → (transaction rt f >>= k) w ≡ ok q
      → SignerCalls w
  signer_commits f k w l h =
      let (a, w2, q, h2) = >>=-eq-ok (transaction rt f) k w h in
      let (st, st', e, r, x) = transaction_ok rt f w q in (st, e, l st st' a r)

  add_proposal_signer :
      (params : ProposeParams) (st st' : State) (t : ℤ × Transaction)
      → add_proposal rt encode params st ≡ ok (t, st')
      → has rt.caller st.signers ≡ true
  unfolding add_proposal
  add_proposal_signer params st st' t h =
      let (signs, h1) = guard_ok (not (has rt.caller st.signers)) forbidden _ st h in ground arith

  -- A message succeeds only from its caller: the constructor from the init actor, proposals, approvals
  -- and cancellations from a signer, and each change of the signers, the threshold or the lock from the
  -- wallet itself; parameters that do not decode and unknown methods never succeed.
  pub invoke_method-Authorised :
      (message : Message) (w w' : World State X)
      → invoke_method rt encode message w ≡ ok (tt, w')
      → Authorised message w
  unfolding invoke_method constructor propose approve cancel add_signer remove_signer swap_signer
      change_num_approvals_threshold lock_balance
  invoke_method-Authorised (construct p) w w' h = only init_actor_addr _ w h
  invoke_method-Authorised (proposes p) w w' h =
      let (r, w1, q, e) = >>=-eq-ok (propose rt encode p) _ w h in
      let (u, w2, a, h1) = >>=-eq-ok (validate_immediate_caller_type rt signable_types) _ w q in
      let (valued, h2) = guard_ok (ltb_ℤ p.value (pos 0)) illegal_argument _ w2 h1 in
      subst SignerCalls (caller_type_ok rt signable_types w a) (
        signer_commits (add_proposal rt encode p) _ w2
          (λ st st' t e. add_proposal_signer p st st' t e) h2)
  invoke_method-Authorised (approves p) w w' h =
      let (r, w1, q, e) = >>=-eq-ok (approve rt encode p) _ w h in
      let (u, w2, a, h1) = >>=-eq-ok (validate_immediate_caller_type rt signable_types) _ w q in
      subst SignerCalls (caller_type_ok rt signable_types w a) (
        signer_commits (read_proposal rt encode p) _ w2
          (λ st st' t e. (read_proposal_ok rt encode p st e).2) h1)
  invoke_method-Authorised (cancels p) w w' h =
      let (st, txn, rest, e, found, signs, mine, after, others) = cancel_ok rt encode p w w' h in
      (st, e, signs)
  invoke_method-Authorised (adds_signer p) w w' h = only rt.receiver _ w h
  invoke_method-Authorised (removes_signer p) w w' h = only rt.receiver _ w h
  invoke_method-Authorised (swaps_signer p) w w' h = only rt.receiver _ w h
  invoke_method-Authorised (changes_threshold n) w w' h = only rt.receiver _ w h
  invoke_method-Authorised (locks_balance p) w w' h = only rt.receiver _ w h
  invoke_method-Authorised bad_params w w' h = absurd (cc)
  invoke_method-Authorised other w w' h = absurd (cc)
