-- ===== src/Hamt/Node.antt =====
-- A node of the trie and the operations on it: ipld/hamt/src/node.rs and pointer.rs.
use forest.Base.{
  ℕ, zero, suc, Bool, true, false, not, List, [], ◌∷◌, Option, none, some, leb, ◌≡◌, ◌↔◌, refl, ap,
  if◌then◌else◌, length,
}
use forest.Hamt.HashBits.{Result, ok, err, panicked, stuck, ◌>>=◌, next, cid_not_found}
use forest.Hamt.Bitfield.{test_bit, set_bit, index_for_bit_pos}
use forest.Hamt.Slots.{get_elem?, insert, set}

-- A link has its node cached (`cached`) or not (`link`). `Pointers` are the vector of a node.
mutual
  pub data Node (K V Cid : Type 0) : Type 0 where
    node : ℕ → Pointers K V Cid → Node K V Cid

  pub data Pointers (K V Cid : Type 0) : Type 0 where
    nil : Pointers K V Cid
    cons : Pointer K V Cid → Pointers K V Cid → Pointers K V Cid

  pub data Pointer (K V Cid : Type 0) : Type 0 where
    values : List (K × V) → Pointer K V Cid
    link : Cid → Pointer K V Cid
    cached : Cid → Node K V Cid → Pointer K V Cid
    dirty : Node K V Cid → Pointer K V Cid

abbrev pub max_array_width : ℕ
max_array_width = 3

abbrev pub is_some {ℓ} : {A : Type ℓ} → Option A → Bool
is_some none = false
is_some (some a) = true

-- `Hash`, `Eq` and `PartialOrd` of the keys. A hash has 32 bytes.
pub record Keys (K : Type 0) : Type 0 where
  pub eq : K → K → Bool
  pub eq_iff : (a b : K) → (eq a b ≡ true) ↔ (a ≡ b)
  pub gt : K → K → Bool
  pub hash : K → List ℕ
  pub hash_length : (k : K) → length (hash k) ≡ 32

-- `PartialEq` of the values.
pub record Values (V : Type 0) : Type 0 where
  pub eq : V → V → Bool
  pub eq-sound : (a b : V) → eq a b ≡ true → a ≡ b

module _ {K V Cid : Type 0} where
  abbrev pub to_list : Pointers K V Cid → List (Pointer K V Cid)
  to_list nil = []
  to_list (cons p ps) = p ∷ to_list ps

  abbrev pub from_list : List (Pointer K V Cid) → Pointers K V Cid
  from_list [] = nil
  from_list (p ∷ ps) = cons p (from_list ps)

  pub to_list-from_list : (ps : List (Pointer K V Cid)) → to_list (from_list ps) ≡ ps
  to_list-from_list [] = refl
  to_list-from_list (p ∷ ps) = ap (λ t. p ∷ t) (to_list-from_list ps)

  abbrev pub insert_child : ℕ → K → V → ℕ → Pointers K V Cid → Node K V Cid
  insert_child idx key value bf ps =
      node (set_bit bf idx)
        (from_list (insert (index_for_bit_pos bf idx) (values ((key, value) ∷ [])) (to_list ps)))

  -- The node with another child at `cindex`.
  abbrev pub with_child : ℕ → ℕ → Pointers K V Cid → Pointer K V Cid → Node K V Cid
  with_child bf cindex ps child = node bf (from_list (set (to_list ps) cindex child))

abbrev pub empty : {K V Cid : Type 0} → Node K V Cid
empty = node 0 nil

module _ {K V : Type 0} (keys : Keys K) where
  open keys use {eq as key_eq, gt as key_gt}

  unfoldable pub lookup : K → List (K × V) → Option V
  lookup key [] = none
  lookup key ((k, v) ∷ kvs) = if key_eq k key then some v else lookup key kvs

  unfoldable pub replace_value : K → V → List (K × V) → List (K × V)
  replace_value key value [] = []
  replace_value key value ((k, v) ∷ kvs) =
      if key_eq k key then (k, value) ∷ kvs else (k, v) ∷ replace_value key value kvs

  -- Before the first greater key.
  unfoldable pub insert_ordered : K → V → List (K × V) → List (K × V)
  insert_ordered key value [] = (key, value) ∷ []
  insert_ordered key value ((k, v) ∷ kvs) =
      if key_gt k key then (key, value) ∷ (k, v) ∷ kvs else (k, v) ∷ insert_ordered key value kvs

module _ {K V Cid : Type 0} (store : Cid → Result (Option (Node K V Cid))) where
  unfoldable pub load : Cid → Result (Node K V Cid)
  load cid = store cid >>= λ o. elim o [ none ↦ err cid_not_found | some n ↦ ok n ]

-- `store` is the block store, which the trie only reads here; `bit_width` is the trie's.
module _ {K V Cid : Type 0} (keys : Keys K) (vals : Values V)
    (store : Cid → Result (Option (Node K V Cid))) (bit_width : ℕ) where
  open keys use {hash}

  -- The old value, if one is replaced, and whether the node was modified.
  abbrev pub Outcome : Type 0
  Outcome = Option V × Bool

  -- A method on the nodes below, at a count of consumed bits.
  abbrev pub Modify : Type 0
  Modify = ℕ → K → V → Bool → Node K V Cid → Result (Outcome × Node K V Cid)

  unfoldable pub insert_all :
      Modify → ℕ → Bool → List (K × V) → Node K V Cid → Result (Node K V Cid)
  insert_all modify consumed overwrite [] sub = ok sub
  insert_all modify consumed overwrite ((k, v) ∷ kvs) sub =
      modify consumed k v overwrite sub >>= λ p. insert_all modify consumed overwrite kvs p.1

  -- A full bucket becomes a node of its own.
  unfoldable pub split_values :
      Modify → ℕ → K → V → Bool → List (K × V) → Result (Outcome × Pointer K V Cid)
  split_values modify consumed key value overwrite kvs =
      modify consumed key value overwrite empty >>= λ p.
      insert_all modify consumed overwrite kvs p.1 >>= λ sub. ok (p.0, dirty sub)

  unfoldable pub modify_values :
      Modify → ℕ → K → V → Bool → List (K × V) → Result (Outcome × Pointer K V Cid)
  modify_values modify consumed key value overwrite kvs = elim (lookup keys key kvs) [
    | some old ↦
        if overwrite
        then ok ((some old, not (vals.eq old value)), values (replace_value keys key value kvs))
        else ok ((none, false), values kvs)
    | none ↦
        if leb max_array_width (length kvs)
        then split_values modify consumed key value overwrite kvs
        else ok ((none, true), values (insert_ordered keys key value kvs))
  ]

  abbrev modify_link :
      Modify → ℕ → K → V → Bool → Cid → Node K V Cid → Result (Outcome × Pointer K V Cid)
  modify_link modify consumed key value overwrite cid n =
      modify consumed key value overwrite n >>= λ p.
      ok (p.0, if p.0.1 then dirty p.1 else cached cid p.1)

  unfoldable pub modify_child :
      Modify → ℕ → K → V → Bool → Pointer K V Cid → Result (Outcome × Pointer K V Cid)
  modify_child modify consumed key value overwrite (values kvs) =
      modify_values modify consumed key value overwrite kvs
  modify_child modify consumed key value overwrite (link cid) =
      load store cid >>= modify_link modify consumed key value overwrite cid
  modify_child modify consumed key value overwrite (cached cid n) =
      modify_link modify consumed key value overwrite cid n
  modify_child modify consumed key value overwrite (dirty n) =
      modify consumed key value overwrite n >>= λ p. ok (p.0, dirty p.1)

  unfoldable pub modify_node : Modify → Modify
  modify_node modify consumed key value overwrite (node bf ps) =
      next (hash key) consumed bit_width >>= λ q.
      let (idx, consumed') = q in
      let cindex = index_for_bit_pos bf idx in
      if not (test_bit bf idx)
      then ok ((none, true), insert_child idx key value bf ps)
      else elim (get_elem? (to_list ps) cindex) [
        | none ↦ panicked
        | some child ↦ modify_child modify consumed' key value overwrite child >>= λ p.
            ok (p.0, with_child bf cindex ps p.1)
      ]

  -- Each call takes bits off the hash, so fuel for one call more than those there are is enough.
  unfoldable pub modify_value : ℕ → Modify
  modify_value zero consumed key value overwrite n = stuck
  modify_value (suc depth) consumed key value overwrite n =
      modify_node (modify_value depth) consumed key value overwrite n

  abbrev pub Search : Type 0
  Search = ℕ → K → Node K V Cid → Result (Option V)

  unfoldable pub get_child : Search → ℕ → K → Pointer K V Cid → Result (Option V)
  get_child search consumed key (values kvs) = ok (lookup keys key kvs)
  get_child search consumed key (link cid) = load store cid >>= search consumed key
  get_child search consumed key (cached cid n) = search consumed key n
  get_child search consumed key (dirty n) = search consumed key n

  unfoldable pub get_node : Search → Search
  get_node search consumed key (node bf ps) = next (hash key) consumed bit_width >>= λ q.
      let (idx, consumed') = q in
      if not (test_bit bf idx)
      then ok none
      else elim (get_elem? (to_list ps) (index_for_bit_pos bf idx)) [
        | none ↦ panicked
        | some child ↦ get_child search consumed' key child
      ]

  unfoldable pub get_value : ℕ → Search
  get_value zero consumed key n = stuck
  get_value (suc depth) consumed key n = get_node (get_value depth) consumed key n
