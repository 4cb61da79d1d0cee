-- ===== src/Actor/Multisig/Invariant.antt =====
-- What holds of a wallet between calls, and that the closures run in transactions keep it.
use mathlib.Core.Path.{subst}
use forest.Base.{
  ℕ, suc, ◌≤◌, ◌<◌, ◌≡◌, Bool, true, false, not, ◌&&◌, List, [], ◌∷◌, ◌++◌, some, arith, has, leb,
  ltb, length, Distinct, if◌then◌else◌,
}
use forest.Base.Words.{add_usize, sub_usize, add_usize-eq, sub_usize-eq}
use forest.Base.Int.{ℤ, pos, ◌≤ℤ◌}
use forest.Actor.Error.{ok, forbidden}
use forest.Actor.Inversion.{guard_ok}
use forest.Actor.Map
use forest.Actor.Map.{Map, int_eq, IsMap, get-set, get-delete, set-IsMap, delete-IsMap}
use forest.Actor.Runtime.{Address}
use forest.Actor.Multisig.Defs.{State, Transaction, signers_max, set_locked}
use forest.Actor.Multisig.Admin.{add_to, set_threshold, lock, LockBalanceParams}
use forest.Actor.Multisig.Signers.{has-snoc, Distinct-snoc, length-snoc}

-- Every approval is a signer's and counts once, and the value is not negative.
pub record IsBacked (signers : List Address) (txn : Transaction) : Type 0 where
  pub once : Distinct txn.approved
  pub signed : (a : Address) → has a txn.approved ≡ true → has a signers ≡ true
  pub valued : pos 0 ≤ℤ txn.value

-- The signers are distinct and at most 256, the threshold can be met and is not zero, and the
-- pending transactions are backed.
pub record IsWallet (st : State) : Type 0 where
  pub distinct : Distinct st.signers
  pub few : length st.signers ≤ signers_max
  pub positive : 1 ≤ st.num_approvals_threshold
  pub reachable : st.num_approvals_threshold ≤ length st.signers
  pub map : IsMap st.pending_txs
  pub backed :
      (id : ℤ) (txn : Transaction) → Map.get id st.pending_txs ≡ some txn → IsBacked st.signers txn

-- The threshold after a signer is added, and after one is removed.
raised :
    (increase : Bool) (t n : ℕ)
    → 1 ≤ t
    → t ≤ n
    → n < signers_max
    → (1 ≤ (if increase then add_usize t 1 else t))
      × ((if increase then add_usize t 1 else t) ≤ suc n)
raised true t n h k l = rw (add_usize-eq t 1 (omega arith)) (omega arith, omega arith)
raised false t n h k l = (h, omega arith)

pub lowered :
    (decrease : Bool) (t n : ℕ)
    → 1 ≤ t
    → t ≤ suc n
    → suc n ≤ signers_max
    → (not decrease && ltb (sub_usize (suc n) 1) t) ≡ false
    → (decrease && ltb t 2) ≡ false
    → (1 ≤ (if decrease then sub_usize t 1 else t)) × ((if decrease then sub_usize t 1 else t) ≤ n)
lowered true t n h k l p q = rw (sub_usize-eq t 1 h (omega arith)) (ground arith, omega arith)
lowered false t n h k l p q =
    let e = sub_usize-eq (suc n) 1 (omega arith) (omega arith) in (h, ground (arith, e))

pub add_to-IsWallet :
    (a : Address) (increase : Bool) (st st' : State) {u : Unit {0}}
    → IsWallet st
    → add_to a increase st ≡ ok (u, st')
    → IsWallet st'
unfolding add_to
add_to-IsWallet a increase st st' v h =
    let (full, h1) = guard_ok (leb signers_max (length st.signers)) forbidden _ st h in
    let (new, h2) = guard_ok (has a st.signers) forbidden _ st h1 in
    let room : length st.signers < signers_max = ground arith in
    let e : record st {
      signers = st.signers ++ a ∷ [];
      num_approvals_threshold =
          if increase then add_usize st.num_approvals_threshold 1 else st.num_approvals_threshold;
    }
        ≡ st' =
      cc in
    let t =
      raised increase st.num_approvals_threshold (length st.signers) v.positive v.reachable room in
    subst IsWallet e (record {
      distinct = Distinct-snoc a st.signers v.distinct new;
      few = omega (arith, length-snoc a st.signers);
      positive = t.0;
      reachable = rw (length-snoc a st.signers) t.1;
      map = v.map;
      backed = λ id txn g.
          let b = v.backed id txn g in
          record {
            once = b.once;
            signed = λ x i. ground (arith, b.signed x i, has-snoc x a st.signers);
            valued = b.valued;
          };
    })

pub set_threshold-IsWallet :
    (n : ℕ) (st st' : State) {u : Unit {0}}
    → IsWallet st
    → set_threshold n st ≡ ok (u, st')
    → IsWallet st'
unfolding set_threshold
set_threshold-IsWallet n st st' v h =
    let e : record st { num_approvals_threshold = n } ≡ st' = ground arith in
    subst IsWallet e (record {
      distinct = v.distinct;
      few = v.few;
      positive = ground arith;
      reachable = ground arith;
      map = v.map;
      backed = v.backed;
    })

pub lock-IsWallet :
    (params : LockBalanceParams) (st st' : State) {u : Unit {0}}
    → IsWallet st
    → lock params st ≡ ok (u, st')
    → IsWallet st'
unfolding lock
lock-IsWallet params st st' v h =
    let e : set_locked params.start_epoch params.unlock_duration params.amount st ≡ st' =
      ground arith in
    subst IsWallet e (record {
      distinct = v.distinct;
      few = v.few;
      positive = v.positive;
      reachable = v.reachable;
      map = v.map;
      backed = v.backed;
    })
