-- ===== src/Actor/Multisig/Create.antt =====
-- The constructor makes a well-formed wallet.
use mathlib.Core.Path.{subst}
use forest.Base.{
  ◌+◌, ◌≤◌, ◌≡◌, refl, sym, inl, inr, List, [], ◌∷◌, ◌++◌, some, arith, has, ltb, length, is_empty,
  Distinct, Bool-cases,
}
use forest.Base.Int.{pos, ltb_ℤ, eqb_ℤ}
use forest.Actor.Error.{Result, ok, illegal_argument}
use forest.Actor.Map
use forest.Actor.Map.{Map, int_eq, IsMap, get-set, get-delete, set-IsMap, delete-IsMap}
use forest.Actor.Runtime.{
  Address, Bytes, World, Runtime, resolve_to_id_addr, validate_immediate_caller_is, init_actor_addr,
}
use forest.Actor.Inversion.{>>=-eq-ok, guard_ok, create_ok}
use forest.Actor.Keeps.{Good, Keeps, SendKeeps, same_actor, caller_is-Keeps, resolve-Keeps}
use forest.Actor.Multisig.{resolve_signers, initial_state, constructor, ConstructorParams}
use forest.Actor.Multisig.Defs.{State, ProposalHashData, signers_max}
use forest.Actor.Multisig.Invariant.{IsWallet}
use forest.Actor.Multisig.Signers.{Distinct-snoc, length-snoc}

fresh-IsWallet :
    (st : State)
    → Distinct st.signers
    → length st.signers ≤ signers_max
    → 1 ≤ st.num_approvals_threshold
    → st.num_approvals_threshold ≤ length st.signers
    → st.pending_txs ≡ []
    → IsWallet st
unfolding Map.get
fresh-IsWallet st d l p r e = record {
  distinct = d;
  few = l;
  positive = p;
  reachable = r;
  map = subst IsMap (sym e) tt;
  backed =
      λ id txn g. absurd (subst (λ m. Map.get id m ≡ some txn → ⊥) (sym e) (λ h. absurd (cc)) g);
}

module _ {X : Type 0} (rt : Runtime State X) (encode : ProposalHashData → Result Bytes)
    (send_keeps : SendKeeps IsWallet rt) where
  -- The resolved signers are distinct and as many as were given.
  resolve_signers_ok :
      (rest resolved : List Address) (w : World State X) {r : List Address} {w' : World State X}
      → Distinct resolved
      → Good IsWallet w
      → resolve_signers rt encode resolved rest w ≡ ok (r, w')
      → Distinct r × (length r ≡ length resolved + length rest) × Good IsWallet w'
  unfolding resolve_signers
  resolve_signers_ok [] resolved w {r} {w'} d g h =
      (subst Distinct (cc) d, ground arith, same_actor IsWallet w w' (cc) g)
  resolve_signers_ok (signer ∷ rest) resolved w d g h =
      let (id, w1, p, q) = >>=-eq-ok (resolve_to_id_addr rt signer) _ w h in
      let (new, h1) = guard_ok (has id resolved) illegal_argument _ w1 q in
      let g1 = resolve-Keeps IsWallet rt signer send_keeps w id w1 g p in
      let (a, b, c) =
        resolve_signers_ok rest (resolved ++ id ∷ []) w1 (Distinct-snoc id resolved d new) g1 h1 in
      (a, omega (arith, b, length-snoc id resolved), c)

  initial-IsWallet :
      (params : ConstructorParams) (resolved : List Address)
      → Distinct resolved
      → length resolved ≡ length params.signers
      → length params.signers ≤ signers_max
      → 1 ≤ params.num_approvals_threshold
      → params.num_approvals_threshold ≤ length params.signers
      → IsWallet (initial_state rt encode params resolved)
  initial-IsWallet params resolved d e l p r =
      elim (Bool-cases (eqb_ℤ params.unlock_duration (pos 0))) [
        | inl free ↦ rw free (fresh-IsWallet _ d (omega arith) p (omega arith) refl)
        | inr locks ↦ rw locks (fresh-IsWallet _ d (omega arith) p (omega arith) refl)
      ]

  pub constructor-Keeps :
      (params : ConstructorParams) → Keeps IsWallet (constructor rt encode params)
  unfolding constructor
  constructor-Keeps params w a w' g h =
      let (u, w1, p, q) =
        >>=-eq-ok (validate_immediate_caller_is rt (init_actor_addr ∷ [])) _ w h in
      let (some_given, h1) = guard_ok (is_empty params.signers) illegal_argument _ w1 q in
      let (few, h2) = guard_ok (ltb signers_max (length params.signers)) illegal_argument _ w1 h1 in
      let (resolved, w2, p1, h3) =
        >>=-eq-ok (resolve_signers rt encode [] params.signers) _ w1 h2 in
      let (d, l, g2) =
        resolve_signers_ok params.signers [] w1 tt (caller_is-Keeps IsWallet rt _ w u w1 g p) p1 in
      let (met, h4) =
        guard_ok (ltb (length params.signers) params.num_approvals_threshold) illegal_argument _ w2
          h3 in
      let (positive, h5) =
        guard_ok (ltb params.num_approvals_threshold 1) illegal_argument _ w2 h4 in
      let (lasting, h6) =
        guard_ok (ltb_ℤ params.unlock_duration (pos 0)) illegal_argument _ w2 h5 in
      let e = create_ok rt (initial_state rt encode params resolved) w2 h6 in
      λ st i. subst IsWallet (cc) (
        initial-IsWallet params resolved d (omega (arith, l)) (ground arith) (ground arith)
          (ground arith))
