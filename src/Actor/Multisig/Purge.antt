-- ===== src/Actor/Multisig/Purge.antt =====
-- `purge_approvals` removes an address from every list of approvals, and drops the transactions
-- that it leaves with none.
use forest.Base.{
  ◌≡◌, refl, ap, ◌∙◌, inl, inr, true, [], ◌∷◌, Option, none, some, arith, has, is_empty,
  if◌then◌else◌, Bool-cases,
}
use mathlib.Core.Path.{subst}
use forest.Base.Int.{ℤ}
use forest.Actor.Map
use forest.Actor.Map.{Map, Eq, int_eq, IsMap, get-set, get-delete, set-IsMap, delete-IsMap}
use forest.Actor.Runtime.{Address}
use forest.Actor.Multisig.Defs.{
  State, Transaction, retain, ids_to_purge, purge_each, purge_approvals, purge_one,
}

-- What becomes of one transaction.
abbrev pub purged : Address → Transaction → Option Transaction
purged addr txn =
    if has addr txn.approved
    then (if is_empty (retain addr txn.approved)
        then none
        else some (record txn { approved = retain addr txn.approved }))
    else some txn

-- What becomes of an entry of the map.
abbrev pub purge_entry : Address → Option Transaction → Option Transaction
purge_entry addr none = none
purge_entry addr (some txn) = purged addr txn

-- The lookup among the collected entries: those that the address has approved.
abbrev approved_only : Address → Option Transaction → Option Transaction
approved_only addr none = none
approved_only addr (some txn) = if has addr txn.approved then some txn else none

get-ids_to_purge :
    (addr : Address) (j : ℤ) (m : Map ℤ Transaction)
    → IsMap m
    → Map.get j (ids_to_purge addr m) ≡ approved_only addr (Map.get j m)
unfolding ids_to_purge Map.get
get-ids_to_purge addr j [] h = refl
get-ids_to_purge addr j ((i, t) ∷ m) h = elim (Bool-cases (int_eq.beq i j)) [
  | inl same ↦
      let none_behind : Map.get j m ≡ none =
        subst (λ k. Map.get k m ≡ none) ((int_eq.beq_iff i j).0 same) h.0 in
      ground (arith, get-ids_to_purge addr j m h.1, none_behind)
  | inr other ↦ ground (arith, get-ids_to_purge addr j m h.1)
]

ids_to_purge-IsMap :
    (addr : Address) (m : Map ℤ Transaction) → IsMap m → IsMap (ids_to_purge addr m)
unfolding ids_to_purge
ids_to_purge-IsMap addr [] h = tt
ids_to_purge-IsMap addr ((i, t) ∷ m) h =
    ground (arith, ids_to_purge-IsMap addr m h.1, get-ids_to_purge addr i m h.1)

-- What the rounds of the second loop leave for a key, given what they collected for it.
abbrev after_purge : Address → Option Transaction → Option Transaction → Option Transaction
after_purge addr none old = old
after_purge addr (some t) old = purged addr t

get-purge_one :
    (addr : Address) (i j : ℤ) (t : Transaction) (txns : Map ℤ Transaction)
    → has addr t.approved ≡ true
    → Map.get j (purge_one addr i t txns)
      ≡ (if int_eq.beq i j then purged addr t else Map.get j txns)
unfolding purge_one
get-purge_one addr i j t txns h = elim (Bool-cases (is_empty (retain addr t.approved))) [
  | inl none_left ↦ rw (none_left, purge_one, get-delete, h) refl
  | inr some_left ↦ rw (some_left, purge_one, get-set, h) refl
]

purge_one-IsMap :
    (addr : Address) (i : ℤ) (t : Transaction) (txns : Map ℤ Transaction)
    → IsMap txns
    → IsMap (purge_one addr i t txns)
unfolding purge_one
purge_one-IsMap addr i t txns h = elim (Bool-cases (is_empty (retain addr t.approved))) [
  | inl none_left ↦ rw (none_left, purge_one) (delete-IsMap i txns h)
  | inr some_left ↦ rw (some_left, purge_one) (set-IsMap i _ txns h)
]

abbrev AllApproved : Address → Map ℤ Transaction → Type 0
AllApproved addr [] = Unit {0}
AllApproved addr ((i, t) ∷ m) = (has addr t.approved ≡ true) × AllApproved addr m

ids_to_purge-AllApproved :
    (addr : Address) (m : Map ℤ Transaction) → AllApproved addr (ids_to_purge addr m)
unfolding ids_to_purge
ids_to_purge-AllApproved addr [] = tt
ids_to_purge-AllApproved addr ((i, t) ∷ m) = ground (arith, ids_to_purge-AllApproved addr m)

get-purge_each :
    (addr : Address) (j : ℤ) (entries txns : Map ℤ Transaction)
    → IsMap entries
    → AllApproved addr entries
    → Map.get j (purge_each addr entries txns)
      ≡ after_purge addr (Map.get j entries) (Map.get j txns)
unfolding purge_each Map.get
get-purge_each addr j [] txns h a = refl
get-purge_each addr j ((i, t) ∷ rest) txns h a = elim (Bool-cases (int_eq.beq i j)) [
  | inl same ↦
      let none_behind : Map.get j rest ≡ none =
        subst (λ k. Map.get k rest ≡ none) ((int_eq.beq_iff i j).0 same) h.0 in
      ground (
        arith,
        get-purge_each addr j rest (purge_one addr i t txns) h.1 a.1,
        get-purge_one addr i j t txns a.0,
        none_behind,
      )
  | inr other ↦ ground (
    arith,
    get-purge_each addr j rest (purge_one addr i t txns) h.1 a.1,
    get-purge_one addr i j t txns a.0,
  )
]

purge_each-IsMap :
    (addr : Address) (entries txns : Map ℤ Transaction)
    → IsMap txns
    → IsMap (purge_each addr entries txns)
unfolding purge_each
purge_each-IsMap addr [] txns h = h
purge_each-IsMap addr ((i, t) ∷ rest) txns h =
    purge_each-IsMap addr rest _ (purge_one-IsMap addr i t txns h)

pub purge_approvals-IsMap :
    (addr : Address) (st : State)
    → IsMap st.pending_txs
    → IsMap (purge_approvals addr st).pending_txs
unfolding purge_approvals
purge_approvals-IsMap addr st h =
    purge_each-IsMap addr (ids_to_purge addr st.pending_txs) st.pending_txs h

purge_entry_lem :
    (addr : Address) (o : Option Transaction)
    → after_purge addr (approved_only addr o) o ≡ purge_entry addr o
purge_entry_lem addr none = refl
purge_entry_lem addr (some t) = ground arith

-- After `purge_approvals` every pending transaction that the address had approved has lost that
-- approval, and is gone if it was the last; every other is as before.
pub get-purge_approvals :
    (addr : Address) (j : ℤ) (st : State)
    → IsMap st.pending_txs
    → Map.get j (purge_approvals addr st).pending_txs ≡ purge_entry addr (Map.get j st.pending_txs)
unfolding purge_approvals
get-purge_approvals addr j st h =
    get-purge_each addr j (ids_to_purge addr st.pending_txs) st.pending_txs
      (ids_to_purge-IsMap addr st.pending_txs h) (ids_to_purge-AllApproved addr st.pending_txs)
    ∙ ap (λ o. after_purge addr o (Map.get j st.pending_txs))
        (get-ids_to_purge addr j st.pending_txs h)
    ∙ purge_entry_lem addr (Map.get j st.pending_txs)
