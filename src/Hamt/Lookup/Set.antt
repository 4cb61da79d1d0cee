-- ===== src/Hamt/Lookup/Set.antt =====
-- Setting a key in a node is what it is on a map: `modify_value` against `get_value` of
-- ipld/hamt/src/node.rs.
use mathlib.Core.Path.{subst}
use forest.Base.{
  ℕ, zero, suc, ◌<◌, ◌≡◌, refl, sym, ap, ◌∙◌, [], ◌∷◌, Option, none, some, Bool, true, false,
  Bool-cases, inl, inr, if◌then◌else◌, ◌==◌, ==_iff,
}
use forest.Hamt.HashBits.{Result, ok, next, next_ok, next-again}
use forest.Hamt.Bitfield.{width, test_bit}
use forest.Hamt.Slots.{slot}
use forest.Hamt.Node
use forest.Hamt.Node.{Node, Pointers, Pointer, node, values, Keys, Values, to_list, lookup}
use forest.Hamt.Buckets.{stored, eq_self, DistinctKeys}
use forest.Hamt.View.{
  IsNode, child_at, insert_child-IsNode, with_child-IsNode, slot-insert_child, slot-with_child,
  slot_clear,
}
use forest.Hamt.Lookup.{>>=-eq-ok, ok_inj, Sets, at_slot, get_node-at_slot, NodeSets, Law}
use forest.Hamt.Lookup.Fresh.{same_length, modify-suc, get-suc, no_depth}
use forest.Hamt.Lookup.Split.{child-ChildSets}

module _ {K V Cid : Type 0} (keys : Keys K) (vals : Values V)
    (store : Cid → Result (Option (Node K V Cid))) (bit_width : ℕ)
    (stored_nodes : (cid : Cid) (n : Node K V Cid) → store cid ≡ ok (some n) → IsNode keys n) where
  open keys use {eq, eq_iff, hash, hash_length}

  abbrev get : ℕ → ℕ → K → Node K V Cid → Result (Option V)
  get = Node.get_value keys vals store bit_width

  abbrev modify : ℕ → ℕ → K → V → Bool → Node K V Cid → Result ((Option V × Bool) × Node K V Cid)
  modify = Node.modify_value keys vals store bit_width

  abbrev get_in :
      (ℕ → K → Node K V Cid → Result (Option V)) → ℕ → K → Pointer K V Cid → Result (Option V)
  get_in = Node.get_child keys vals store bit_width

  -- A change of one slot sets a key of the whole node.
  module _ (depth c c' idx : ℕ) (key : K) (value : V) (overwrite : Bool) (out : Option V × Bool)
      (bits : next (hash key) c bit_width ≡ ok (idx, c')) (bf bf' : ℕ) (ps ps' : Pointers K V Cid)
      (child : Pointer K V Cid) (good : IsNode keys (node bf ps))
      (good' : IsNode keys (node bf' ps'))
      (moved : (j : ℕ)
        → slot bf' (to_list ps') j ≡ (if idx == j then some child else slot bf (to_list ps) j))
      (sets : Sets keys vals store bit_width stored_nodes
        (λ k.
          at_slot keys vals store bit_width stored_nodes
            (get depth)
            c'
            k
            (slot bf (to_list ps) idx))
        (λ k. get_in (get depth) c' k child)
        key
        value
        overwrite
        out) where
    seen :
        (bf : ℕ) (ps : Pointers K V Cid) (k : K) (j : ℕ)
        → IsNode keys (node bf ps)
        → j < width
        → next (hash k) c bit_width ≡ ok (j, c')
        → get (suc depth) c k (node bf ps)
          ≡ (at_slot keys vals store bit_width stored_nodes)
              (get depth)
              c'
              k
              (slot bf (to_list ps) j)
    seen bf ps k j g small e =
        get-suc keys vals store bit_width stored_nodes depth c k (node bf ps)
        ∙ get_node-at_slot keys vals store bit_width stored_nodes (get depth) bf ps c c' j k g small
            e

    small : idx < width
    small = (next_ok (hash key) c bit_width idx c' bits).0

    key_after : get (suc depth) c key (node bf' ps') ≡ ok (some (stored overwrite value sets.found))
    unfolding at_slot
    key_after =
        let here : (idx == idx) ≡ true = (==_iff idx idx).1 refl in
        let now : slot bf' (to_list ps') idx ≡ some child = moved idx ∙ rw here refl in
        seen bf' ps' key idx good' small bits
        ∙ ap (at_slot keys vals store bit_width stored_nodes (get depth) c' key) now
        ∙ sets.after_eq key
        ∙ rw (eq_self keys key) refl

    other_after :
        (k : K)
        → eq key k ≡ false
        → get (suc depth) c k (node bf' ps') ≡ get (suc depth) c k (node bf ps)
    unfolding at_slot
    other_after k ne =
        let (j, j_small, e) =
          next-again (hash key) (hash k) c bit_width idx c'
            (same_length keys vals store bit_width stored_nodes key k) bits in
        let before = seen bf ps k j good j_small e in
        let after = seen bf' ps' k j good' j_small e in
        elim (Bool-cases (idx == j)) [
          | inl here ↦
              let now : slot bf' (to_list ps') j ≡ some child = moved j ∙ rw here refl in
              after
              ∙ ap (at_slot keys vals store bit_width stored_nodes (get depth) c' k) now
              ∙ sets.after_eq k
              ∙ rw ne (
                  ap
                    (λ t.
                      at_slot keys vals store bit_width stored_nodes (get depth) c' k
                        (slot bf (to_list ps) t))
                    ((==_iff idx j).0 here))
              ∙ sym before
          | inr there ↦
              let now : slot bf' (to_list ps') j ≡ slot bf (to_list ps) j =
                moved j ∙ rw there refl in
              after
              ∙ ap (at_slot keys vals store bit_width stored_nodes (get depth) c' k) now
              ∙ sym before
        ]

    slot-Sets :
        Sets keys vals store bit_width stored_nodes
          (λ k. get (suc depth) c k (node bf ps))
          (λ k. get (suc depth) c k (node bf' ps'))
          key
          value
          overwrite
          out
    slot-Sets = record {
      found = sets.found;
      before_eq = seen bf ps key idx good small bits ∙ sets.before_eq;
      after_eq = λ k. elim (Bool-cases (eq key k)) [
        | inl same ↦ rw same (
            subst
              (λ t.
                get (suc depth) c t (node bf' ps') ≡ ok (some (stored overwrite value sets.found)))
              ((eq_iff key k).0 same) key_after)
        | inr ne ↦ rw ne (other_after k ne)
      ];
      out_eq = sets.out_eq;
    }

  -- A pair put into an empty slot.
  new-Sets :
      (depth c idx : ℕ) (key : K) (value : V) (overwrite : Bool) (s : Option (Pointer K V Cid))
      → s ≡ none
      → Sets keys vals store bit_width stored_nodes
          (λ k. (at_slot keys vals store bit_width stored_nodes) (get depth) c k s)
          (λ k. get_in (get depth) c k (values ((key, value) ∷ [])))
          key
          value
          overwrite
          (none, true)
  unfolding at_slot Node.get_child lookup
  new-Sets depth c idx key value overwrite s h = rw h (record {
    found = none;
    before_eq = refl;
    after_eq = λ k. elim (Bool-cases (eq key k)) [ inl e ↦ rw e refl | inr e ↦ rw e refl ];
    out_eq = refl;
  })

  one-DistinctKeys : (key : K) (value : V) → DistinctKeys keys ((key, value) ∷ [])
  unfolding DistinctKeys lookup
  one-DistinctKeys key value = (refl, tt)

  node-Law :
      (depth : ℕ)
      → Law keys vals store bit_width stored_nodes depth
      → Law keys vals store bit_width stored_nodes (suc depth)
  unfolding Node.modify_node at_slot
  node-Law depth law c key value overwrite (node bf ps) q good h =
      let ((idx, c'), bits, rest) = >>=-eq-ok (next (hash key) c bit_width) _ (
        sym (
          modify-suc keys vals store bit_width stored_nodes depth c key value overwrite
            (node bf ps))
        ∙ h) in
      let small = (next_ok (hash key) c bit_width idx c' bits).0 in
      elim (Bool-cases (test_bit bf idx)) [
        | inl bit ↦
            let (child, at, p, here) = child_at keys bf ps good idx small bit in
            let (r, e, rest2) =
              >>=-eq-ok
                (Node.modify_child keys vals store bit_width (modify depth) c' key value overwrite
                  child)
                _ (rw (bit, at) at rest) in
            let (p', sets) =
              child-ChildSets keys vals store bit_width stored_nodes depth law c' overwrite key
                value child r p e in
            let good' = with_child-IsNode keys bf ps good idx small r.1 p' in
            subst
              (NodeSets keys vals store bit_width stored_nodes (suc depth) c key value overwrite
                (node bf ps))
              (ok_inj _ q rest2)
              (
                good',
                slot-Sets depth c c' idx key value overwrite r.0 bits bf bf ps _ r.1 good good'
                    (λ j. slot-with_child keys bf ps good idx small r.1 j bit)
                    (subst
                      (λ s.
                        Sets keys vals store bit_width stored_nodes
                          (λ k. (at_slot keys vals store bit_width stored_nodes) (get depth) c' k s)
                          (λ k. get_in (get depth) c' k r.1) key value overwrite r.0)
                      (sym here) sets),
              )
        | inr clear ↦
            let good' =
              insert_child-IsNode keys bf ps good idx small key value clear
                (one-DistinctKeys key value) in
            subst
              (NodeSets keys vals store bit_width stored_nodes (suc depth) c key value overwrite
                (node bf ps))
              (ok_inj _ q (rw clear at rest))
              (
                good',
                slot-Sets depth c c' idx key value overwrite (none, true) bits bf _ ps _ _ good
                    good' (λ j. slot-insert_child keys bf ps good idx small key value j clear)
                    (new-Sets depth c' idx key value overwrite _
                      (slot_clear keys bf ps good idx small clear)),
              )
      ]

  pub modify-Law : (depth : ℕ) → Law keys vals store bit_width stored_nodes depth
  modify-Law zero c key value overwrite n q good h =
      absurd (no_depth keys vals store bit_width stored_nodes c key value overwrite n q h)
  modify-Law (suc depth) c key value overwrite n q good h =
      node-Law depth (modify-Law depth) c key value overwrite n q good h
