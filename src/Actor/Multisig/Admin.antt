-- ===== src/Actor/Multisig/Admin.antt =====
-- The methods by which a multisig wallet changes itself: their caller is the wallet.
use forest.Base.{ℕ, Bool, not, ◌&&◌, ◌||◌, [], ◌∷◌, ◌++◌, leb, ltb, ◌==◌, length, if◌then◌else◌}
use forest.Base.Words.{add_usize, sub_usize}
use forest.Base.Int.{ℤ, pos, ltb_ℤ, leb_ℤ, eqb_ℤ}
use forest.Actor.Error.{Act, illegal_argument, forbidden, ◌>>=◌, ◌>>◌, fail_if, put_state}
use forest.Actor.Runtime.{
  Address, Runtime, Call, validate_immediate_caller_is, transaction, resolve_to_id_addr,
}
use forest.Actor.Multisig.Defs.{State, is_signer, set_locked, purge_approvals, retain, signers_max}

pub record AddSignerParams : Type 0 where
  pub signer : Address
  pub increase : Bool

pub record RemoveSignerParams : Type 0 where
  pub signer : Address
  pub decrease : Bool

pub record SwapSignerParams : Type 0 where
  pub from : Address
  pub to : Address

pub record LockBalanceParams : Type 0 where
  pub start_epoch : ℤ
  pub unlock_duration : ℤ
  pub amount : ℤ

-- The closures that run in a transaction.
unfoldable pub add_to : Address → Bool → Act State (Unit {0})
add_to signer increase st =
    (do
      fail_if (leb signers_max (length st.signers)) forbidden
      fail_if (is_signer st signer) forbidden
      put_state (record st {
        signers = st.signers ++ signer ∷ [];
        num_approvals_threshold =
            if increase then add_usize st.num_approvals_threshold 1 else st.num_approvals_threshold;
      }))
      st

-- `sub_usize` of the lengths is reached with more than one signer only.
unfoldable pub remove_from : Address → Bool → Act State (Unit {0})
remove_from signer decrease st =
    (do
      fail_if (not (is_signer st signer)) forbidden
      fail_if (length st.signers == 1) forbidden
      fail_if (not decrease && ltb (sub_usize (length st.signers) 1) st.num_approvals_threshold)
          illegal_argument
      fail_if (decrease && ltb st.num_approvals_threshold 2) illegal_argument
      let purged = purge_approvals signer st
      put_state (record purged {
        signers = retain signer st.signers;
        num_approvals_threshold =
            if decrease then sub_usize st.num_approvals_threshold 1 else st.num_approvals_threshold;
      }))
      st

unfoldable pub swap_in : Address → Address → Act State (Unit {0})
swap_in from to st =
    (do
      fail_if (not (is_signer st from)) forbidden
      fail_if (is_signer st to) illegal_argument
      let purged = purge_approvals from st
      put_state (record purged { signers = retain from st.signers ++ to ∷ [] }))
      st

unfoldable pub set_threshold : ℕ → Act State (Unit {0})
set_threshold new_threshold st =
    (do
      fail_if (new_threshold == 0 || ltb (length st.signers) new_threshold) illegal_argument
      put_state (record st { num_approvals_threshold = new_threshold }))
      st

unfoldable pub lock : LockBalanceParams → Act State (Unit {0})
lock params st =
    (do
      fail_if (not (eqb_ℤ st.unlock_duration (pos 0))) forbidden
      put_state (set_locked params.start_epoch params.unlock_duration params.amount st))
      st

module _ {X : Type 0} (rt : Runtime State X) where
  unfoldable pub add_signer : AddSignerParams → Call rt (Unit {0})
  unfolding add_to
  add_signer params = do
    validate_immediate_caller_is rt (rt.receiver ∷ [])
    signer ← resolve_to_id_addr rt params.signer
    transaction rt (add_to signer params.increase)

  unfoldable pub remove_signer : RemoveSignerParams → Call rt (Unit {0})
  unfolding remove_from
  remove_signer params = do
    validate_immediate_caller_is rt (rt.receiver ∷ [])
    signer ← resolve_to_id_addr rt params.signer
    transaction rt (remove_from signer params.decrease)

  unfoldable pub swap_signer : SwapSignerParams → Call rt (Unit {0})
  unfolding swap_in
  swap_signer params = do
    validate_immediate_caller_is rt (rt.receiver ∷ [])
    from ← resolve_to_id_addr rt params.from
    to ← resolve_to_id_addr rt params.to
    transaction rt (swap_in from to)

  unfoldable pub change_num_approvals_threshold : ℕ → Call rt (Unit {0})
  unfolding set_threshold
  change_num_approvals_threshold new_threshold = do
    validate_immediate_caller_is rt (rt.receiver ∷ [])
    transaction rt (set_threshold new_threshold)

  unfoldable pub lock_balance : LockBalanceParams → Call rt (Unit {0})
  unfolding lock
  lock_balance params = do
    validate_immediate_caller_is rt (rt.receiver ∷ [])
    fail_if (leb_ℤ params.unlock_duration (pos 0)) illegal_argument
    fail_if (ltb_ℤ params.amount (pos 0)) illegal_argument
    transaction rt (lock params)
