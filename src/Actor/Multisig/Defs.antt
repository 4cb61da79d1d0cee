-- ===== src/Actor/Multisig/Defs.antt =====
-- The state of the multisig actor: vm/actor/src/builtin/multisig/state.rs and types.rs.
use forest.Base.{
  ℕ, Bool, true, false, not, List, [], ◌∷◌, Option, none, some, ◌==◌, has, is_empty, if◌then◌else◌,
}
use forest.Base.Int.{ℤ, pos, pos_part, ◌-ℤ◌, ◌*ℤ◌, ltb_ℤ, leb_ℤ, eqb_ℤ, wrap_i64, div_ceil}
use forest.Actor.Map
use forest.Actor.Map.{Map, int_eq}
use forest.Actor.Runtime.{Address, Bytes}

abbrev pub signers_max : ℕ
signers_max = 256

pub record Transaction : Type 0 where
  pub to : Address
  pub value : ℤ
  pub method : ℕ
  pub params : Bytes
  pub approved : List Address

-- `approved.get(0)`
abbrev pub head : List Address → Option Address
head [] = none
head (a ∷ _) = some a

abbrev pub first_approved : Transaction → Option Address
first_approved txn = head txn.approved

pub record ProposalHashData : Type 0 where
  pub requester : Option Address
  pub to : Address
  pub value : ℤ
  pub method : ℕ
  pub params : Bytes

abbrev pub proposal_data : Transaction → ProposalHashData
proposal_data txn = record {
  requester = first_approved txn;
  to = txn.to;
  value = txn.value;
  method = txn.method;
  params = txn.params;
}

pub record State : Type 0 where
  pub signers : List Address
  pub num_approvals_threshold : ℕ
  pub next_tx_id : ℤ
  pub initial_balance : ℤ
  pub start_epoch : ℤ
  pub unlock_duration : ℤ
  pub pending_txs : Map ℤ Transaction

abbrev pub is_signer : State → Address → Bool
is_signer st address = has address st.signers

abbrev pub set_locked : ℤ → ℤ → ℤ → State → State
set_locked start duration amount st = record st {
  start_epoch = start;
  unlock_duration = duration;
  initial_balance = amount;
}

-- `amount_locked` of the balance and the duration that the state holds. The divisor is positive
-- where the division is reached.
unfoldable pub locked : ℤ → ℤ → ℤ → ℤ
locked initial duration elapsed =
    if leb_ℤ duration elapsed
    then pos 0
    else if leb_ℤ elapsed (pos 0)
    then initial
    else div_ceil (initial *ℤ wrap_i64 (duration -ℤ elapsed)) (pos_part duration)

unfoldable pub amount_locked : State → ℤ → ℤ
amount_locked st elapsed = locked st.initial_balance st.unlock_duration elapsed

-- `true` stands for `Ok`, `false` for the error, whose text is left out.
unfoldable pub check_available : State → ℤ → ℤ → ℤ → Bool
unfolding amount_locked
check_available st balance amount curr_epoch =
    if ltb_ℤ amount (pos 0)
    then false
    else if ltb_ℤ balance amount
    then false
    else if eqb_ℤ amount (pos 0)
    then true
    else not
        (ltb_ℤ (balance -ℤ amount) (amount_locked st (wrap_i64 (curr_epoch -ℤ st.start_epoch))))

-- `Vec::retain` of what differs from an address
abbrev pub retain : Address → List Address → List Address
retain addr [] = []
retain addr (a ∷ rest) = let others = retain addr rest in if a == addr then others else a ∷ others

-- The entries that `purge_approvals` collects.
unfoldable pub ids_to_purge : Address → Map ℤ Transaction → Map ℤ Transaction
ids_to_purge addr [] = []
ids_to_purge addr ((id, txn) ∷ m) =
    let rest = ids_to_purge addr m in if has addr txn.approved then (id, txn) ∷ rest else rest

-- One round of its second loop.
unfoldable pub purge_one : Address → ℤ → Transaction → Map ℤ Transaction → Map ℤ Transaction
purge_one addr id txn txns =
    let approved = retain addr txn.approved in
    if not (is_empty approved)
    then Map.set id (record txn { approved = approved }) txns
    else Map.delete id txns

unfoldable pub purge_each : Address → Map ℤ Transaction → Map ℤ Transaction → Map ℤ Transaction
unfolding purge_one
purge_each addr [] txns = txns
purge_each addr ((id, txn) ∷ rest) txns = purge_each addr rest (purge_one addr id txn txns)

unfoldable pub purge_approvals : Address → State → State
unfolding ids_to_purge purge_each
purge_approvals addr st = record st {
  pending_txs = purge_each addr (ids_to_purge addr st.pending_txs) st.pending_txs;
}
