-- ===== src/Hamt/Lookup.antt =====
-- Setting a key is what it is on a map: `modify_value` against `get_value` of ipld/hamt/src/node.rs.
pub mod Fresh
pub mod Split
pub mod Set
use mathlib.Core.Path.{subst}
use forest.Base.{
  ℕ, zero, suc, ◌<◌, ◌≡◌, ◌≢◌, refl, sym, ap, ◌∙◌, List, [], ◌∷◌, Option, none, some, Bool, true,
  false, not, Bool-cases, Option-cases, inl, inr, if◌then◌else◌, length, ◌==◌, ==_iff, leb,
}
use forest.Hamt.HashBits.{Result, ok, err, panicked, stuck, ◌>>=◌, next, next_ok, next-again}
use forest.Hamt.Bitfield.{width, count_ones_zero, clear_zero, test_bit}
use forest.Hamt.Slots.{slot}
use forest.Hamt.Node
use forest.Hamt.Node.{
  Node, Pointers, Pointer, node, values, cached, dirty, Keys, Values, to_list, load, lookup,
  replace_value, insert_ordered,
}
use forest.Hamt.Buckets.{
  stored, expected, eq_self, DistinctKeys, lookup-replace, lookup-insert, replace-DistinctKeys,
  insert-DistinctKeys,
}
use forest.Hamt.View.{
  IsNode, IsPointer, child_at, insert_child-IsNode, with_child-IsNode, slot-insert_child,
  slot-with_child, slot_clear,
}

-- The first part of a call that succeeds has succeeded.
pub >>=-eq-ok {κ ℓ} :
    {B : Type κ} {A : Type ℓ} (r : Result A) (step : A → Result B) {result : B}
    → (r >>= step) ≡ ok result
    → (x : A) × (r ≡ ok x) × (step x ≡ ok result)
>>=-eq-ok panicked step e = cc
>>=-eq-ok stuck step e = cc
>>=-eq-ok (err failed) step e = cc
>>=-eq-ok (ok x) step e = (x, refl, e)

pub ok_inj {ℓ} : {A : Type ℓ} (a b : A) → ◌≡◌ {A = Result A} (ok a) (ok b) → a ≡ b
ok_inj a b e = cc

module _ {K V Cid : Type 0} (keys : Keys K) (vals : Values V)
    (store : Cid → Result (Option (Node K V Cid))) (bit_width : ℕ)
    (stored_nodes : (cid : Cid) (n : Node K V Cid) → store cid ≡ ok (some n) → IsNode keys n) where
  open keys use {eq, eq_iff, hash, hash_length}

  abbrev pub get : ℕ → ℕ → K → Node K V Cid → Result (Option V)
  get = Node.get_value keys vals store bit_width

  abbrev pub modify :
      ℕ → ℕ → K → V → Bool → Node K V Cid → Result ((Option V × Bool) × Node K V Cid)
  modify = Node.modify_value keys vals store bit_width

  abbrev pub get_in :
      (ℕ → K → Node K V Cid → Result (Option V)) → ℕ → K → Pointer K V Cid → Result (Option V)
  get_in = Node.get_child keys vals store bit_width

  -- Setting `key` to `value` took the map `before` to `after`, and returned `out`.
  pub record Sets (before after : K → Result (Option V)) (key : K) (value : V) (overwrite : Bool)
      (out : Option V × Bool) : Type 0 where
    pub found : Option V
    pub before_eq : before key ≡ ok found
    pub after_eq :
        (k : K)
        → after k ≡ (if eq key k then ok (some (stored overwrite value found)) else before k)
    pub out_eq : out ≡ expected vals overwrite value found

  -- What is looked up at a slot.
  pub at_slot :
      (ℕ → K → Node K V Cid → Result (Option V))
      → ℕ
      → K
      → Option (Pointer K V Cid)
      → Result (Option V)
  at_slot search consumed k none = ok none
  at_slot search consumed k (some child) = get_in search consumed k child

  pub get_node-at_slot :
      (search : ℕ → K → Node K V Cid → Result (Option V)) (bf : ℕ) (ps : Pointers K V Cid)
      (c c' j : ℕ) (k : K)
      → IsNode keys (node bf ps)
      → j < width
      → next (hash k) c bit_width ≡ ok (j, c')
      → Node.get_node keys vals store bit_width search c k (node bf ps)
        ≡ at_slot search c' k (slot bf (to_list ps) j)
  unfolding Node.get_node at_slot
  get_node-at_slot search bf ps c c' j k good h e = elim (Bool-cases (test_bit bf j)) [
    | inl bit ↦
        let (child, at, p, here) = child_at keys bf ps good j h bit in rw (e, bit, at, here) refl
    | inr clear ↦ rw (e, clear, slot_clear keys bf ps good j h clear) refl
  ]

  abbrev pub NodeSets :
      ℕ → ℕ → K → V → Bool → Node K V Cid → (Option V × Bool) × Node K V Cid → Type 0
  NodeSets depth c key value overwrite n q =
      IsNode keys q.1 × Sets (λ k. get depth c k n) (λ k. get depth c k q.1) key value overwrite q.0

  abbrev pub ChildSets :
      ℕ → ℕ → K → V → Bool → Pointer K V Cid → (Option V × Bool) × Pointer K V Cid → Type 0
  ChildSets depth c key value overwrite child q =
      IsPointer keys q.1
      × Sets (λ k. get_in (get depth) c k child) (λ k. get_in (get depth) c k q.1) key value
          overwrite q.0

  -- What the calls on the nodes below are known to do.
  abbrev pub Law : ℕ → Type 0
  Law depth =
      (c : ℕ) (key : K) (value : V) (overwrite : Bool) (n : Node K V Cid)
      (q : (Option V × Bool) × Node K V Cid)
      → IsNode keys n
      → modify depth c key value overwrite n ≡ ok q
      → NodeSets depth c key value overwrite n q

  pub load_ok : (cid : Cid) (n : Node K V Cid) → load store cid ≡ ok n → IsNode keys n
  unfolding load
  load_ok cid n h =
      let (o, e, rest) = >>=-eq-ok (store cid) _ h in
      elim (Option-cases o) [
        | inl nothing ↦ cc (rw nothing at rest)
        | inr (m, some_node) ↦
            subst (IsNode keys) (ok_inj m n (rw some_node at rest))
              (stored_nodes cid m (e ∙ ap ok some_node))
      ]

  module _ (depth : ℕ) (law : Law depth) (c : ℕ) (key : K) (value : V) (overwrite : Bool) where
    -- A node below a link or a dirty pointer.
    pub dirty-ChildSets :
        (n : Node K V Cid) (q : (Option V × Bool) × Node K V Cid)
        → NodeSets depth c key value overwrite n q
        → ChildSets depth c key value overwrite (dirty n) (q.0, dirty q.1)
    unfolding IsNode Node.get_child
    dirty-ChildSets n q h = h

    pub marked-ChildSets :
        (modified : Bool) (cid : Cid) (n : Node K V Cid) (q : (Option V × Bool) × Node K V Cid)
        → NodeSets depth c key value overwrite n q
        → ChildSets depth c key value overwrite
            (cached cid n)
            (q.0, if modified then dirty q.1 else cached cid q.1)
    unfolding IsNode Node.get_child
    marked-ChildSets true cid n q h = h
    marked-ChildSets false cid n q h = h

    -- The key is in the bucket.
    pub present-ChildSets :
        (kvs : List (K × V)) (old : V)
        → lookup keys key kvs ≡ some old
        → DistinctKeys keys kvs
        → ChildSets depth c key value true
            (values kvs)
            ((some old, not (vals.eq old value)), values (replace_value keys key value kvs))
    unfolding IsNode Node.get_child
    present-ChildSets kvs old h d = (
      replace-DistinctKeys keys key value old kvs h d,
      record {
        found = some old;
        before_eq = ap ok h;
        after_eq = λ k. elim (Bool-cases (eq key k)) [
          | inl e ↦ ap ok (lookup-replace keys key value old kvs k h) ∙ rw e refl
          | inr e ↦ ap ok (lookup-replace keys key value old kvs k h) ∙ rw e refl
        ];
        out_eq = refl;
      },
    )

    pub kept-ChildSets :
        (kvs : List (K × V)) (old : V)
        → lookup keys key kvs ≡ some old
        → DistinctKeys keys kvs
        → ChildSets depth c key value false (values kvs) ((none, false), values kvs)
    unfolding IsNode Node.get_child
    kept-ChildSets kvs old h d = (
      d,
      record {
        found = some old;
        before_eq = ap ok h;
        after_eq = λ k. elim (Bool-cases (eq key k)) [
          | inl e ↦ rw e (ap (λ t. ok (lookup keys t kvs)) (sym ((eq_iff key k).0 e)) ∙ ap ok h)
          | inr e ↦ rw e refl
        ];
        out_eq = refl;
      },
    )

    pub room-ChildSets :
        (kvs : List (K × V))
        → lookup keys key kvs ≡ none
        → DistinctKeys keys kvs
        → ChildSets depth c key value overwrite
            (values kvs)
            ((none, true), values (insert_ordered keys key value kvs))
    unfolding IsNode Node.get_child
    room-ChildSets kvs h d = (
      insert-DistinctKeys keys key value kvs h d,
      record {
        found = none;
        before_eq = ap ok h;
        after_eq = λ k. elim (Bool-cases (eq key k)) [
          | inl e ↦ ap ok (lookup-insert keys key value kvs k h) ∙ rw e refl
          | inr e ↦ ap ok (lookup-insert keys key value kvs k h) ∙ rw e refl
        ];
        out_eq = refl;
      },
    )
