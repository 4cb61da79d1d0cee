-- ===== src/Hamt/View.antt =====
-- A node by its slots: what `get_value` of ipld/hamt/src/node.rs finds there, and what the changes to one
-- child do to it.
use forest.Base.{
  ℕ, zero, suc, ◌<◌, ◌≡◌, refl, sym, ap, ◌∙◌, arith, List, [], ◌∷◌, Option, none, some, true, false,
  if◌then◌else◌, length, ◌==◌, All,
}
use mathlib.Core.Path.{subst}
use forest.Hamt.Bitfield.{
  width, test_bit, set_bit, count_ones, index_for_bit_pos, rank, index-rank, rank-le, rank-lt,
  count_ones-set_bit,
}
use forest.Hamt.Slots.{
  slot, slot-get, slot-set, slot-insert, get_elem?, insert, set, length-insert, length-set,
  get-some,
}
use forest.Hamt.Node.{
  Node, Pointers, Pointer, node, nil, cons, values, link, cached, dirty, Keys, to_list, from_list,
  to_list-from_list, insert_child, with_child,
}
use forest.Hamt.Buckets.{DistinctKeys}

-- Each node has a pointer for each bit that is set, and its buckets list no key twice.
module _ {K V Cid : Type 0} (keys : Keys K) where
  unfoldable mutual
    pub IsNode : Node K V Cid → Type 0
    IsNode (node bf ps) = (count_ones width bf ≡ length (to_list ps)) × ArePointers ps

    pub ArePointers : Pointers K V Cid → Type 0
    ArePointers nil = Unit {0}
    ArePointers (cons p ps) = IsPointer p × ArePointers ps

    pub IsPointer : Pointer K V Cid → Type 0
    IsPointer (values kvs) = DistinctKeys keys kvs
    IsPointer (link cid) = Unit {0}
    IsPointer (cached cid n) = IsNode n
    IsPointer (dirty n) = IsNode n

some_inj {ℓ} : {A : Type ℓ} (x y : A) → ◌≡◌ {A = Option A} (some x) (some y) → x ≡ y
some_inj x y e = cc

module _ {ℓ κ} {A : Type ℓ} (P : A → Type κ) where
  All-get : (xs : List A) (i : ℕ) (x : A) → All P xs → get_elem? xs i ≡ some x → P x
  All-get [] i x h e = cc
  All-get (y ∷ ys) zero x h e = subst P (some_inj y x e) h.0
  All-get (y ∷ ys) (suc i) x h e = All-get ys i x h.1 e

  All-set : (xs : List A) (i : ℕ) (x : A) → All P xs → P x → All P (set xs i x)
  All-set [] i x h p = tt
  All-set (y ∷ ys) zero x h p = (p, h.1)
  All-set (y ∷ ys) (suc i) x h p = (h.0, All-set ys i x h.1 p)

  All-insert : (i : ℕ) (x : A) (xs : List A) → P x → All P xs → All P (insert i x xs)
  All-insert zero x xs p h = (p, h)
  All-insert (suc i) x [] p h = (p, tt)
  All-insert (suc i) x (y ∷ ys) p h = (h.0, All-insert i x ys p h.1)

module _ {K V Cid : Type 0} (keys : Keys K) where
  listed : (ps : Pointers K V Cid) → ArePointers keys ps → All (IsPointer keys) (to_list ps)
  unfolding IsNode
  listed nil h = tt
  listed (cons p ps) h = (h.0, listed ps h.1)

  unlisted :
      (ps : List (Pointer K V Cid)) → All (IsPointer keys) ps → ArePointers keys (from_list ps)
  unfolding IsNode
  unlisted [] h = tt
  unlisted (p ∷ ps) h = (h.0, unlisted ps h.1)

  module _ (bf : ℕ) (ps : Pointers K V Cid) (good : IsNode keys (node bf ps)) (idx : ℕ)
      (small : idx < width) where
    fits : count_ones width bf ≡ length (to_list ps)
    unfolding IsNode
    fits = good.0

    pointers : All (IsPointer keys) (to_list ps)
    unfolding IsNode
    pointers = listed ps good.1

    pub insert_child-IsNode :
        (key : K) (value : V)
        → test_bit bf idx ≡ false
        → DistinctKeys keys ((key, value) ∷ [])
        → IsNode keys (insert_child idx key value bf ps)
    unfolding IsNode
    insert_child-IsNode key value clear p =
        let place = index_for_bit_pos bf idx in
        let child = values ((key, value) ∷ []) in
        (
          count_ones-set_bit width bf idx small clear
              ∙ ap suc fits
              ∙ sym (length-insert place child (to_list ps))
              ∙ ap length (sym (to_list-from_list (insert place child (to_list ps)))),
          unlisted _ (All-insert (IsPointer keys) place child (to_list ps) p pointers),
        )

    pub slot-insert_child :
        (key : K) (value : V) (j : ℕ)
        → test_bit bf idx ≡ false
        → slot
            (set_bit bf idx)
            (to_list (
              from_list
                (insert (index_for_bit_pos bf idx) (values ((key, value) ∷ [])) (to_list ps))))
            j
          ≡ (if idx == j then some (values ((key, value) ∷ [])) else slot bf (to_list ps) j)
    slot-insert_child key value j clear =
        rw (to_list-from_list _, index-rank bf idx)
          (slot-insert width bf (to_list ps) idx _ j small clear
            (omega (arith, rank-le width bf idx, fits)))

    place-lt : test_bit bf idx ≡ true → rank width bf idx < length (to_list ps)
    place-lt h = omega (arith, rank-lt width bf idx small h, fits)

    -- Where the bit is set, there is a child.
    pub child_at :
        test_bit bf idx ≡ true
        → (child : Pointer K V Cid) × (get_elem? (to_list ps) (index_for_bit_pos bf idx)
            ≡ some child)
          × IsPointer keys child
          × (slot bf (to_list ps) idx ≡ some child)
    child_at h =
        let (child, e) = get-some (to_list ps) (rank width bf idx) (place-lt h) in
        (
          child,
          ap (get_elem? (to_list ps)) (index-rank bf idx) ∙ e,
          All-get (IsPointer keys) (to_list ps) _ child pointers e,
          slot-get width bf (to_list ps) idx small ∙ rw h e,
        )

    pub with_child-IsNode :
        (child : Pointer K V Cid)
        → IsPointer keys child
        → IsNode keys (with_child bf (index_for_bit_pos bf idx) ps child)
    unfolding IsNode
    with_child-IsNode child p =
        let place = index_for_bit_pos bf idx in
        (
          fits
              ∙ sym (length-set (to_list ps) place child)
              ∙ ap length (sym (to_list-from_list (set (to_list ps) place child))),
          unlisted _ (All-set (IsPointer keys) (to_list ps) place child pointers p),
        )

    pub slot-with_child :
        (child : Pointer K V Cid) (j : ℕ)
        → test_bit bf idx ≡ true
        → slot bf (to_list (from_list (set (to_list ps) (index_for_bit_pos bf idx) child))) j
          ≡ (if idx == j then some child else slot bf (to_list ps) j)
    slot-with_child child j h =
        rw (to_list-from_list _, index-rank bf idx)
          (slot-set width bf (to_list ps) idx child j small h (place-lt h))

    pub slot_clear : test_bit bf idx ≡ false → slot bf (to_list ps) idx ≡ none
    slot_clear h = slot-get width bf (to_list ps) idx small ∙ rw h refl
