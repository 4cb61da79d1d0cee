-- ===== src/Actor/Multisig/Removal.antt =====
-- Removing and swapping signers keep a wallet well formed.
use mathlib.Core.Path.{subst}
use forest.Base.{
  ◌≡◌, refl, ap, sym, ◌∙◌, inl, inr, Bool, true, false, not, ◌&&◌, List, [], ◌∷◌, ◌++◌, Option,
  none, some, arith, ◌==◌, ==_iff, has, ltb, length, Bool-cases, if◌then◌else◌,
}
use forest.Base.Words.{sub_usize}
use forest.Actor.Error.{ok, forbidden, illegal_argument}
use forest.Actor.Inversion.{guard_ok}
use forest.Actor.Map
use forest.Actor.Map.{Map, int_eq, IsMap, get-set, get-delete, set-IsMap, delete-IsMap}
use forest.Actor.Runtime.{Address}
use forest.Actor.Multisig.Defs.{State, Transaction, retain, purge_approvals}
use forest.Actor.Multisig.Admin.{remove_from, swap_in}
use forest.Actor.Multisig.Signers.{
  has-snoc, Distinct-snoc, length-snoc, has-retain, retain-Distinct, length-retain,
}
use forest.Actor.Multisig.Purge.{purge_entry, get-purge_approvals, purge_approvals-IsMap}
use forest.Actor.Multisig.Invariant.{IsBacked, IsWallet, lowered}

other_address :
    (a x : Address) (xs : List Address) → has a xs ≡ false → has x xs ≡ true → (a == x) ≡ false
other_address a x xs h i = elim (Bool-cases (a == x)) [
  | inl same ↦ absurd (ground (arith, ap (λ y. has y xs) ((==_iff a x).0 same)))
  | inr other ↦ other
]

-- What is left of a backed transaction is backed by any signers that hold all the others.
purge-IsBacked :
    (a : Address) (old new : List Address)
    → ((x : Address) → has x old ≡ true → (a == x) ≡ false → has x new ≡ true)
    → (o : Option Transaction) → ((t : Transaction) → o ≡ some t → IsBacked old t)
    → (txn : Transaction) → purge_entry a o ≡ some txn
    → IsBacked new txn
purge-IsBacked a old new keep none b txn e = absurd (cc)
purge-IsBacked a old new keep (some t) b txn e =
    let v = b t refl in
    elim (Bool-cases (has a t.approved)) [
      | inl there ↦
          let same : record t { approved = retain a t.approved } ≡ txn = ground arith in
          subst (IsBacked new) same (record {
            once = retain-Distinct a t.approved v.once;
            signed = λ x i. ground (arith, keep x, v.signed x, has-retain x a t.approved);
            valued = v.valued;
          })
      | inr absent ↦
          let same : t ≡ txn = ground arith in
          subst (IsBacked new) same (record {
            once = v.once;
            signed = λ x i. keep x (v.signed x i) (other_address a x t.approved absent i);
            valued = v.valued;
          })
    ]

pub remove_from-IsWallet :
    (a : Address) (decrease : Bool) (st st' : State) {u : Unit {0}}
    → IsWallet st
    → remove_from a decrease st ≡ ok (u, st')
    → IsWallet st'
unfolding remove_from purge_approvals
remove_from-IsWallet a decrease st st' v h =
    let (absent, h1) = guard_ok (not (has a st.signers)) forbidden _ st h in
    let (alone, h2) = guard_ok (length st.signers == 1) forbidden _ st h1 in
    let (below, h3) =
      guard_ok (not decrease && ltb (sub_usize (length st.signers) 1) st.num_approvals_threshold)
        illegal_argument _ st h2 in
    let (low, h4) =
      guard_ok (decrease && ltb st.num_approvals_threshold 2) illegal_argument _ st h3 in
    let there : has a st.signers ≡ true = ground arith in
    let n = length-retain a st.signers v.distinct there in
    let t =
      lowered decrease st.num_approvals_threshold (length (retain a st.signers)) v.positive
        (omega (arith, v.reachable)) (omega (arith, v.few)) (rw n below) low in
    let e : record (purge_approvals a st) {
      signers = retain a st.signers;
      num_approvals_threshold =
          if decrease then sub_usize st.num_approvals_threshold 1 else st.num_approvals_threshold;
    }
        ≡ st' =
      cc in
    subst IsWallet e (record {
      distinct = retain-Distinct a st.signers v.distinct;
      few = omega (arith, v.few);
      positive = t.0;
      reachable = t.1;
      map = purge_approvals-IsMap a st v.map;
      backed = λ id txn g.
          purge-IsBacked a st.signers (retain a st.signers)
            (λ x i o. ground (arith, has-retain x a st.signers)) (Map.get id st.pending_txs)
            (v.backed id) txn (sym (get-purge_approvals a id st v.map) ∙ g);
    })

pub swap_in-IsWallet :
    (from to : Address) (st st' : State) {u : Unit {0}}
    → IsWallet st
    → swap_in from to st ≡ ok (u, st')
    → IsWallet st'
unfolding swap_in purge_approvals
swap_in-IsWallet from to st st' v h =
    let (absent, h1) = guard_ok (not (has from st.signers)) forbidden _ st h in
    let (new, h2) = guard_ok (has to st.signers) illegal_argument _ st h1 in
    let there : has from st.signers ≡ true = ground arith in
    let n = length-retain from st.signers v.distinct there in
    let l = length-snoc to (retain from st.signers) in
    let e : record (purge_approvals from st) { signers = retain from st.signers ++ to ∷ [] } ≡ st' =
      cc in
    subst IsWallet e (record {
      distinct =
          Distinct-snoc to (retain from st.signers) (retain-Distinct from st.signers v.distinct)
            (ground (arith, has-retain to from st.signers));
      few = omega (arith, v.few);
      positive = v.positive;
      reachable = omega (arith, v.reachable);
      map = purge_approvals-IsMap from st v.map;
      backed = λ id txn g.
          purge-IsBacked from st.signers (retain from st.signers ++ to ∷ [])
            (λ x i o.
              ground (arith, has-snoc x to (retain from st.signers), has-retain x from st.signers))
            (Map.get id st.pending_txs) (v.backed id) txn
            (sym (get-purge_approvals from id st v.map) ∙ g);
    })
