-- ===== src/Hamt/Lookup/Split.antt =====
-- A bucket and a child that a key is set in: `modify_value` of ipld/hamt/src/node.rs.
use mathlib.Core.Path.{subst}
use forest.Base.{
  ℕ, ◌≡◌, refl, sym, ap, ◌∙◌, List, [], ◌∷◌, Option, none, some, Bool, Bool-cases, Option-cases,
  inl, inr, if◌then◌else◌, length, leb,
}
use forest.Hamt.HashBits.{Result, ok}
use forest.Hamt.Node
use forest.Hamt.Node.{
  Node, Pointer, values, link, cached, dirty, Keys, Values, empty, load, lookup, max_array_width,
}
use forest.Hamt.Buckets.{stored, expected, eq_self, DistinctKeys}
use forest.Hamt.View.{IsNode, IsPointer}
use forest.Hamt.Lookup.{
  >>=-eq-ok, ok_inj, ChildSets, Law, load_ok, dirty-ChildSets, marked-ChildSets, present-ChildSets,
  kept-ChildSets, room-ChildSets,
}
use forest.Hamt.Lookup.Fresh.{empty-IsNode, get-empty}

module _ {K V Cid : Type 0} (keys : Keys K) (vals : Values V)
    (store : Cid → Result (Option (Node K V Cid))) (bit_width : ℕ)
    (stored_nodes : (cid : Cid) (n : Node K V Cid) → store cid ≡ ok (some n) → IsNode keys n) where
  open keys use {eq, eq_iff, hash, hash_length}

  abbrev get : ℕ → ℕ → K → Node K V Cid → Result (Option V)
  get = Node.get_value keys vals store bit_width

  abbrev modify : ℕ → ℕ → K → V → Bool → Node K V Cid → Result ((Option V × Bool) × Node K V Cid)
  modify = Node.modify_value keys vals store bit_width

  -- A pair that was found in a list, or what was there before.
  abbrev pub or_before : Option V → Result (Option V) → Result (Option V)
  or_before none r = r
  or_before (some v) r = ok (some v)

  pub or_before-none : (o : Option V) → or_before o (ok none) ≡ ok o
  or_before-none none = refl
  or_before-none (some v) = refl

  pub record Filled (depth c : ℕ) (kvs : List (K × V)) (n n' : Node K V Cid) : Type 0 where
    good : IsNode keys n'
    holds : (k : K) → get depth c k n' ≡ or_before (lookup keys k kvs) (get depth c k n)

  module _ (depth : ℕ) (law : Law keys vals store bit_width stored_nodes depth) (c : ℕ)
      (overwrite : Bool) where
    pub later_absent :
        (j : K) (v : V) (kvs : List (K × V)) (n n' : Node K V Cid) (k : K) (w : V)
        → lookup keys j kvs ≡ none
        → get depth c k n' ≡ (if eq j k then ok (some v) else get depth c k n)
        → lookup keys k kvs ≡ some w
        → (lookup keys k ((j, v) ∷ kvs) ≡ some w → get depth c k n ≡ ok none)
        → get depth c k n' ≡ ok none
    unfolding lookup
    later_absent j v kvs n n' k w once after found absent = elim (Bool-cases (eq j k)) [
      | inl e ↦ cc (ap (λ t. lookup keys t kvs) ((eq_iff j k).0 e))
      | inr e ↦ after ∙ rw e (absent (rw e found))
    ]

    pub one_more :
        (j : K) (v : V) (kvs : List (K × V)) (n n' : Node K V Cid) (k : K)
        → lookup keys j kvs ≡ none
        → get depth c k n' ≡ (if eq j k then ok (some v) else get depth c k n)
        → or_before (lookup keys k kvs) (get depth c k n')
          ≡ or_before (lookup keys k ((j, v) ∷ kvs)) (get depth c k n)
    unfolding lookup
    one_more j v kvs n n' k once after = elim (Bool-cases (eq j k)) [
      | inl e ↦
          let gone : lookup keys k kvs ≡ none =
            ap (λ t. lookup keys t kvs) (sym ((eq_iff j k).0 e)) ∙ once in
          rw (gone, e) (after ∙ rw e refl)
      | inr e ↦ rw e (ap (or_before (lookup keys k kvs)) (after ∙ rw e refl))
    ]

    pub insert_all-Filled :
        (kvs : List (K × V)) (n n' : Node K V Cid)
        → DistinctKeys keys kvs
        → IsNode keys n
        → ((k : K) (v : V) → lookup keys k kvs ≡ some v → get depth c k n ≡ ok none)
        → Node.insert_all keys vals store bit_width (modify depth) c overwrite kvs n ≡ ok n'
        → Filled depth c kvs n n'
    unfolding Node.insert_all DistinctKeys lookup
    insert_all-Filled [] n n' d good absent h =
        let same = ok_inj n n' h in
        record { good = subst (IsNode keys) same good; holds = λ k. ap (get depth c k) (sym same) }
    insert_all-Filled ((j, v) ∷ kvs) n n' d good absent h =
        let (q, e, rest) = >>=-eq-ok (modify depth c j v overwrite n) _ h in
        let (good', sets) = law c j v overwrite n q good e in
        let fresh : get depth c j n ≡ ok none = absent j v (rw (eq_self keys j) refl) in
        let none_found : sets.found ≡ none = ok_inj _ _ (sym sets.before_eq ∙ fresh) in
        let after : (k : K)
            → get depth c k q.1 ≡ (if eq j k then ok (some v) else get depth c k n) =
          λ k.
            sets.after_eq k
            ∙ ap (λ t. if eq j k then ok (some (stored overwrite v t)) else get depth c k n)
                none_found in
        let filled =
          insert_all-Filled kvs q.1 n' d.1 good'
            (λ k w found. later_absent j v kvs n q.1 k w d.0 (after k) found (absent k w)) rest in
        record {
          good = filled.good;
          holds = λ k. filled.holds k ∙ one_more j v kvs n q.1 k d.0 (after k);
        }

    pub split_fresh :
        (key : K) (value : V) (kvs : List (K × V)) (n : Node K V Cid) (k : K) (v : V)
        → lookup keys key kvs ≡ none
        → get depth c k n ≡ (if eq key k then ok (some value) else ok none)
        → lookup keys k kvs ≡ some v
        → get depth c k n ≡ ok none
    split_fresh key value kvs n k v h first found = elim (Bool-cases (eq key k)) [
      | inl e ↦ cc (ap (λ t. lookup keys t kvs) ((eq_iff key k).0 e))
      | inr e ↦ first ∙ rw e refl
    ]

    pub split_after :
        (key : K) (value : V) (kvs : List (K × V)) (n : Node K V Cid) (k : K)
        → lookup keys key kvs ≡ none
        → get depth c k n ≡ (if eq key k then ok (some value) else ok none)
        → or_before (lookup keys k kvs) (get depth c k n)
          ≡ (if eq key k then ok (some value) else ok (lookup keys k kvs))
    split_after key value kvs n k h first = elim (Bool-cases (eq key k)) [
      | inl e ↦
          let gone : lookup keys k kvs ≡ none =
            ap (λ t. lookup keys t kvs) (sym ((eq_iff key k).0 e)) ∙ h in
          rw (gone, e) (first ∙ rw e refl)
      | inr e ↦ rw e (
          ap (or_before (lookup keys k kvs)) (first ∙ rw e refl)
          ∙ or_before-none (lookup keys k kvs))
    ]

    -- A full bucket is split: the new node has the key, and all that the bucket had.
    pub split-ChildSets :
        (key : K) (value : V) (kvs : List (K × V)) (q : (Option V × Bool) × Pointer K V Cid)
        → lookup keys key kvs ≡ none
        → DistinctKeys keys kvs
        → Node.split_values keys vals store bit_width (modify depth) c key value overwrite kvs
          ≡ ok q
        → ChildSets keys vals store bit_width stored_nodes depth c key value overwrite
            (values kvs)
            q
    unfolding Node.split_values Node.get_child IsNode
    split-ChildSets key value kvs q h d e =
        let (p, e1, rest) = >>=-eq-ok (modify depth c key value overwrite empty) _ e in
        let (sub, e2, rest2) =
          >>=-eq-ok (Node.insert_all keys vals store bit_width (modify depth) c overwrite kvs p.1) _
            rest in
        let (good, sets) =
          law c key value overwrite empty p (empty-IsNode keys vals store bit_width stored_nodes)
            e1 in
        let none_before =
          get-empty keys vals store bit_width stored_nodes depth c key value overwrite p e1 in
        let none_found : sets.found ≡ none = ok_inj _ _ (sym sets.before_eq ∙ none_before key) in
        let first : (k : K) → get depth c k p.1 ≡ (if eq key k then ok (some value) else ok none) =
          λ k.
            sets.after_eq k
            ∙ ap
                (λ t.
                  if eq key k then ok (some (stored overwrite value t)) else get depth c k empty)
                none_found
            ∙ ap (λ t. if eq key k then ok (some value) else t) (none_before k) in
        let filled =
          insert_all-Filled kvs p.1 sub d good
            (λ k v found. split_fresh key value kvs p.1 k v h (first k) found) e2 in
        subst
          (ChildSets keys vals store bit_width stored_nodes depth c key value overwrite
            (values kvs))
          (ok_inj _ _ rest2)
          (
            filled.good,
            record {
              found = none;
              before_eq = ap ok h;
              after_eq = λ k. filled.holds k ∙ split_after key value kvs p.1 k h (first k);
              out_eq = sets.out_eq ∙ ap (expected vals overwrite value) none_found;
            },
          )

    pub values-ChildSets :
        (key : K) (value : V) (kvs : List (K × V)) (q : (Option V × Bool) × Pointer K V Cid)
        → DistinctKeys keys kvs
        → Node.modify_values keys vals store bit_width (modify depth) c key value overwrite kvs
          ≡ ok q
        → ChildSets keys vals store bit_width stored_nodes depth c key value overwrite
            (values kvs)
            q
    unfolding Node.modify_values
    values-ChildSets key value kvs q d e = elim (Option-cases (lookup keys key kvs)) [
      | inl h ↦ elim (Bool-cases (leb max_array_width (length kvs))) [
        | inl full ↦ split-ChildSets key value kvs q h d (rw (h, full, Node.modify_values) at e)
        | inr room ↦
            subst
              (ChildSets keys vals store bit_width stored_nodes depth c key value overwrite
                (values kvs))
              (ok_inj _ q (rw (h, room, Node.modify_values) at e))
              (room-ChildSets keys vals store bit_width stored_nodes depth law c key value overwrite
                kvs h d)
      ]
      | inr (old, h) ↦ elim (Bool-cases overwrite) [
        | inl yes_over ↦
            subst
              (ChildSets keys vals store bit_width stored_nodes depth c key value overwrite
                (values kvs))
              (ok_inj _ q (rw (h, yes_over, Node.modify_values) at e))
              (rw yes_over (
                present-ChildSets keys vals store bit_width stored_nodes depth law c key value
                  overwrite kvs old h d))
        | inr no_over ↦
            subst
              (ChildSets keys vals store bit_width stored_nodes depth c key value overwrite
                (values kvs))
              (ok_inj _ q (rw (h, no_over, Node.modify_values) at e))
              (rw no_over (
                kept-ChildSets keys vals store bit_width stored_nodes depth law c key value
                  overwrite kvs old h d))
      ]
    ]

    -- A change below a child.
    pub child-ChildSets :
        (key : K) (value : V) (child : Pointer K V Cid) (q : (Option V × Bool) × Pointer K V Cid)
        → IsPointer keys child
        → Node.modify_child keys vals store bit_width (modify depth) c key value overwrite child
          ≡ ok q
        → ChildSets keys vals store bit_width stored_nodes depth c key value overwrite child q
    unfolding Node.modify_child IsNode Node.get_child
    child-ChildSets key value (values kvs) q d e = values-ChildSets key value kvs q d e
    child-ChildSets key value (link cid) q d e =
        let (n, e1, rest) = >>=-eq-ok (load store cid) _ e in
        let (p, e2, rest2) = >>=-eq-ok (modify depth c key value overwrite n) _ rest in
        subst
          (ChildSets keys vals store bit_width stored_nodes depth c key value overwrite (link cid))
          (ok_inj _ q rest2)
          (rw e1 (
            marked-ChildSets keys vals store bit_width stored_nodes depth law c key value overwrite
              p.0.1 cid n p
              (law c key value overwrite n p
                (load_ok keys vals store bit_width stored_nodes cid n e1) e2)))
    child-ChildSets key value (cached cid n) q d e =
        let (p, e2, rest2) = >>=-eq-ok (modify depth c key value overwrite n) _ e in
        subst
          (ChildSets keys vals store bit_width stored_nodes depth c key value overwrite
            (cached cid n))
          (ok_inj _ q rest2)
          (marked-ChildSets keys vals store bit_width stored_nodes depth law c key value overwrite
            p.0.1 cid n p (law c key value overwrite n p d e2))
    child-ChildSets key value (dirty n) q d e =
        let (p, e2, rest2) = >>=-eq-ok (modify depth c key value overwrite n) _ e in
        subst
          (ChildSets keys vals store bit_width stored_nodes depth c key value overwrite (dirty n))
          (ok_inj _ q rest2)
          (dirty-ChildSets keys vals store bit_width stored_nodes depth law c key value overwrite n
            p (law c key value overwrite n p d e2))
