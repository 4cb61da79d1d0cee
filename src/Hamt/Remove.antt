-- ===== src/Hamt/Remove.antt =====
-- Removal of an entry, and the canonical form after it: `rm_value` of ipld/hamt/src/node.rs and `clean`
-- of pointer.rs.
use forest.Base.{
  ℕ, zero, suc, not, List, [], ◌∷◌, ◌++◌, Option, none, some, ltb, ◌==◌, if◌then◌else◌, length,
}
use forest.Hamt.HashBits.{Result, ok, err, panicked, stuck, ◌>>=◌, next, zero_pointers}
use forest.Hamt.Bitfield.{test_bit, clear_bit, index_for_bit_pos}
use forest.Hamt.Slots.{get_elem?}
use forest.Hamt.Node.{
  Node, Pointers, Pointer, node, values, link, cached, dirty, Keys, to_list, from_list, load,
  insert_ordered, with_child, max_array_width, is_some,
}

-- `Vec::remove`
abbrev pub remove_at {ℓ} : {A : Type ℓ} → ℕ → List A → List A
remove_at i [] = []
remove_at zero (x ∷ xs) = xs
remove_at (suc i) (x ∷ xs) = x ∷ remove_at i xs

module _ {K V Cid : Type 0} where
  -- All the children are buckets: their pairs, in order.
  unfoldable pub bucket_values : List (Pointer K V Cid) → Option (List (K × V))
  bucket_values [] = some []
  bucket_values (values kvs ∷ ps) = elim (bucket_values ps) [
    | none ↦ none
    | some more ↦ some (kvs ++ more)
  ]
  bucket_values (link cid ∷ ps) = none
  bucket_values (cached cid n ∷ ps) = none
  bucket_values (dirty n ∷ ps) = none

module _ {K V : Type 0} (keys : Keys K) where
  open keys use {eq as key_eq, gt as key_gt}

  unfoldable pub sort_by_key : List (K × V) → List (K × V)
  sort_by_key [] = []
  sort_by_key ((k, v) ∷ kvs) = insert_ordered keys k v (sort_by_key kvs)

  unfoldable pub find_entry : K → List (K × V) → Option (K × V)
  find_entry key [] = none
  find_entry key ((k, v) ∷ kvs) = if key_eq key k then some (k, v) else find_entry key kvs

  unfoldable pub remove_entry : K → List (K × V) → List (K × V)
  remove_entry key [] = []
  remove_entry key ((k, v) ∷ kvs) = if key_eq key k then kvs else (k, v) ∷ remove_entry key kvs

module _ {K V Cid : Type 0} (keys : Keys K) (store : Cid → Result (Option (Node K V Cid)))
    (bit_width : ℕ) where
  open keys use {hash}

  -- A child that has become small enough moves up as a bucket.
  unfoldable pub clean_node : ℕ → List (Pointer K V Cid) → Result (Pointer K V Cid)
  clean_node bf [] = err zero_pointers
  clean_node bf (values kvs ∷ []) = ok (values kvs)
  clean_node bf (p ∷ []) = ok (dirty (node bf (from_list (p ∷ []))))
  clean_node bf (p ∷ q ∷ ps) =
      let same = dirty (node bf (from_list (p ∷ q ∷ ps))) in
      if ltb max_array_width (length (p ∷ q ∷ ps))
      then ok same
      else elim (bucket_values (p ∷ q ∷ ps)) [
        | none ↦ ok same
        | some kvs ↦
            ok (if ltb max_array_width (length kvs) then same else values (sort_by_key keys kvs))
      ]

  -- `unreachable!` is the panic on all but `dirty`.
  unfoldable pub clean : Pointer K V Cid → Result (Pointer K V Cid)
  clean (values kvs) = panicked
  clean (link cid) = panicked
  clean (cached cid n) = panicked
  clean (dirty (node bf ps)) = clean_node bf (to_list ps)

  abbrev pub Deleted : Type 0
  Deleted = Option (K × V) × Node K V Cid

  abbrev pub Remove : Type 0
  Remove = ℕ → K → Node K V Cid → Result Deleted

  -- The child after a removal below it: a link becomes dirty if an entry is gone.
  abbrev pub after_link : Cid → Deleted → Pointer K V Cid
  after_link cid (deleted, n) = if is_some deleted then dirty n else cached cid n

  unfoldable pub rm_child :
      Remove → ℕ → ℕ → ℕ → ℕ → Pointers K V Cid → K → Pointer K V Cid → Result Deleted
  rm_child remove consumed bf idx cindex ps key (link cid) = load store cid >>= λ n.
      remove consumed key n >>= λ p.
      clean (after_link cid p) >>= λ child. ok (p.0, with_child bf cindex ps child)
  rm_child remove consumed bf idx cindex ps key (cached cid n) = remove consumed key n >>= λ p.
      clean (after_link cid p) >>= λ child. ok (p.0, with_child bf cindex ps child)
  rm_child remove consumed bf idx cindex ps key (dirty n) = remove consumed key n >>= λ p.
      clean (dirty p.1) >>= λ child. ok (p.0, with_child bf cindex ps child)
  rm_child remove consumed bf idx cindex ps key (values kvs) = elim (find_entry keys key kvs) [
    | none ↦ ok (none, node bf ps)
    | some kv ↦
        if length kvs == 1
        then ok (some kv, node (clear_bit bf idx) (from_list (remove_at cindex (to_list ps))))
        else ok (some kv, with_child bf cindex ps (values (remove_entry keys key kvs)))
  ]

  unfoldable pub rm_node : Remove → Remove
  rm_node remove consumed key (node bf ps) = next (hash key) consumed bit_width >>= λ q.
      let (idx, consumed') = q in
      let cindex = index_for_bit_pos bf idx in
      if not (test_bit bf idx)
      then ok (none, node bf ps)
      else elim (get_elem? (to_list ps) cindex) [
        | none ↦ panicked
        | some child ↦ rm_child remove consumed' bf idx cindex ps key child
      ]

  unfoldable pub rm_value : ℕ → Remove
  rm_value zero consumed key n = stuck
  rm_value (suc depth) consumed key n = rm_node (rm_value depth) consumed key n
