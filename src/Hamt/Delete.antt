-- ===== src/Hamt/Delete.antt =====
-- Removal against search: `rm_value` of ipld/hamt/src/node.rs takes out what `get_value` finds, and does
-- not return where it finds nothing below a link.
use forest.Base.{
  ℕ, zero, suc, ◌≡◌, ◌≢◌, refl, sym, ap, ◌∙◌, List, [], ◌∷◌, Option, none, some, Bool, true, false,
  Bool-cases, Option-cases, inl, inr, length, ◌==◌,
}
use forest.Hamt.HashBits.{Result, ok, ◌>>=◌, next}
use forest.Hamt.Bitfield.{test_bit, index_for_bit_pos}
use forest.Hamt.Slots.{get_elem?}
use forest.Hamt.Node.{
  Node, Pointers, Pointer, node, values, link, cached, dirty, Keys, Values, to_list, with_child,
  load, lookup, get_child, get_node, get_value,
}
use forest.Hamt.Buckets.{eq_sym}
use forest.Hamt.Remove.{find_entry, clean, after_link, rm_child, rm_node, rm_value}
use forest.Hamt.Lookup.{>>=-eq-ok, ok_inj}
use forest.Hamt.Trie.{rounds, get, delete}

one_option {ℓ} : {A : Type ℓ} {a : A} → some a ≢ none
one_option e = cc

-- The pair of a key and the value that was found for it.
abbrev pub entry : {K V : Type 0} → K → Option V → Option (K × V)
entry key none = none
entry key (some v) = some (key, v)

abbrev pub is_link : {K V Cid : Type 0} → Pointer K V Cid → Bool
is_link (values kvs) = false
is_link (link cid) = true
is_link (cached cid n) = true
is_link (dirty n) = false

module _ {K V : Type 0} (keys : Keys K) where
  find_entry-lookup :
      (key : K) (kvs : List (K × V)) → find_entry keys key kvs ≡ entry key (lookup keys key kvs)
  unfolding lookup find_entry
  find_entry-lookup key [] = refl
  find_entry-lookup key ((k, v) ∷ kvs) = elim (Bool-cases (keys.eq key k)) [
    | inl e ↦ rw (eq_sym keys k key, e) (ap (λ t. some (t, v)) (sym ((keys.eq_iff key k).0 e)))
    | inr e ↦ rw (eq_sym keys k key, e) (find_entry-lookup key kvs)
  ]

module _ {K V Cid : Type 0} (keys : Keys K) (vals : Values V)
    (store : Cid → Result (Option (Node K V Cid))) (bit_width : ℕ) where
  abbrev remove : ℕ → ℕ → K → Node K V Cid → Result (Option (K × V) × Node K V Cid)
  remove = rm_value keys store bit_width

  abbrev search : ℕ → ℕ → K → Node K V Cid → Result (Option V)
  search = get_value keys vals store bit_width

  -- The search has found what was removed, with the key that was sought.
  abbrev pub Found : K → Result (Option V) → Option (K × V) → Type 0
  Found key result deleted = (found : Option V) × (result ≡ ok found) × (deleted ≡ entry key found)

  -- What is removed below is what is found there.
  abbrev Finds :
      (ℕ → K → Node K V Cid → Result (Option (K × V) × Node K V Cid))
      → (ℕ → K → Node K V Cid → Result (Option V))
      → Type 0
  Finds below under =
      (c : ℕ) (key : K) (n : Node K V Cid) (q : Option (K × V) × Node K V Cid)
      → below c key n ≡ ok q
      → Found key (under c key n) q.0

  rm_child-get_child :
      (below : ℕ → K → Node K V Cid → Result (Option (K × V) × Node K V Cid))
      (under : ℕ → K → Node K V Cid → Result (Option V))
      → Finds below under
      → (c bf idx cindex : ℕ) (ps : Pointers K V Cid) (key : K) (p : Pointer K V Cid)
        (q : Option (K × V) × Node K V Cid)
      → rm_child keys store bit_width below c bf idx cindex ps key p ≡ ok q
      → Found key (get_child keys vals store bit_width under c key p) q.0
  unfolding rm_child get_child
  rm_child-get_child below under finds c bf idx cindex ps key (link cid) q h =
      let (n, e, h1) = >>=-eq-ok (load store cid) _ h in
      let (p, e', h2) = >>=-eq-ok (below c key n) _ h1 in
      let (child, e'', h3) = >>=-eq-ok (clean keys store bit_width _) _ h2 in
      let (found, f, g) = finds c key n p e' in
      (found, rw e f, sym (ap (λ t. t.0) (ok_inj _ _ h3)) ∙ g)
  rm_child-get_child below under finds c bf idx cindex ps key (cached cid n) q h =
      let (p, e', h2) = >>=-eq-ok (below c key n) _ h in
      let (child, e'', h3) = >>=-eq-ok (clean keys store bit_width _) _ h2 in
      let (found, f, g) = finds c key n p e' in (found, f, sym (ap (λ t. t.0) (ok_inj _ _ h3)) ∙ g)
  rm_child-get_child below under finds c bf idx cindex ps key (dirty n) q h =
      let (p, e', h2) = >>=-eq-ok (below c key n) _ h in
      let (child, e'', h3) = >>=-eq-ok (clean keys store bit_width _) _ h2 in
      let (found, f, g) = finds c key n p e' in (found, f, sym (ap (λ t. t.0) (ok_inj _ _ h3)) ∙ g)
  rm_child-get_child below under finds c bf idx cindex ps key (values kvs) q h = (
    lookup keys key kvs,
    refl,
    elim (Option-cases (find_entry keys key kvs)) [
      | inl e ↦ sym (ap (λ t. t.0) (ok_inj _ _ (rw (rm_child, e) at h))) ∙ sym e
      | inr (kv, e) ↦ elim (Bool-cases (length kvs == 1)) [
        | inl one ↦ sym (ap (λ t. t.0) (ok_inj _ _ (rw (rm_child, e, one) at h))) ∙ sym e
        | inr more ↦ sym (ap (λ t. t.0) (ok_inj _ _ (rw (rm_child, e, more) at h))) ∙ sym e
      ]
    ]
        ∙ find_entry-lookup keys key kvs,
  )

  rm_node-get_node :
      (below : ℕ → K → Node K V Cid → Result (Option (K × V) × Node K V Cid))
      (under : ℕ → K → Node K V Cid → Result (Option V))
      → Finds below under
      → Finds (rm_node keys store bit_width below) (get_node keys vals store bit_width under)
  unfolding rm_node get_node
  rm_node-get_node below under finds c key (node bf ps) q h =
      let ((idx, c'), e, h1) = >>=-eq-ok (next (keys.hash key) c bit_width) _ h in
      elim (Bool-cases (test_bit bf idx)) [
        | inr clear ↦ (none, rw (e, clear) refl, sym (ap (λ t. t.0) (ok_inj _ _ (rw clear at h1))))
        | inl there ↦ elim (Option-cases (get_elem? (to_list ps) (index_for_bit_pos bf idx))) [
          | inl out ↦ cc (rw (there, out) at h1)
          | inr (child, at) ↦
              rw (e, there, at)
                (rm_child-get_child below under finds c' bf idx _ ps key child q
                  (rw (there, at) at h1))
        ]
      ]

  rm_value-get_value : (depth : ℕ) → Finds (remove depth) (search depth)
  unfolding rm_value get_value
  rm_value-get_value zero c key n q h = cc
  rm_value-get_value (suc depth) c key n q h =
      rm_node-get_node (remove depth) (search depth) (rm_value-get_value depth) c key n q h

  -- Where `delete` returns, `get` found a value for the key, and what is returned is the pair of that key
  -- and that value; or `get` found none, and none is returned.
  pub delete-get :
      (key : K) (root : Node K V Cid) (deleted : Option (K × V)) (root' : Node K V Cid)
      → delete keys store bit_width key root ≡ ok (deleted, root')
      → (found : Option V) × (get keys vals store bit_width key root ≡ ok found)
        × (deleted ≡ entry key found)
  unfolding delete get
  delete-get key root deleted root' h = rm_value-get_value rounds 0 key root (deleted, root') h

  -- The child is cleaned as if it were dirty, which it is only where a pair is gone.
  clean-after_link :
      (bf cindex : ℕ) (ps : Pointers K V Cid) (cid : Cid) (p : Option (K × V) × Node K V Cid)
      (root' : Node K V Cid)
      → ◌>>=◌ {B = Option (K × V) × Node K V Cid}
          (clean keys store bit_width (after_link keys store bit_width cid p))
          (λ child. ok (p.0, with_child bf cindex ps child))
        ≢ ok (none, root')
  unfolding clean
  clean-after_link bf cindex ps cid (none, n) root' h = cc
  clean-after_link bf cindex ps cid (some kv, n) root' h =
      let (child, e, h1) = >>=-eq-ok (clean keys store bit_width (dirty n)) _ h in cc

  -- A removal below a link returns only if it removed a pair.
  rm_child-link :
      (below : ℕ → K → Node K V Cid → Result (Option (K × V) × Node K V Cid)) (c bf idx cindex : ℕ)
      (ps : Pointers K V Cid) (key : K) (p : Pointer K V Cid) (root' : Node K V Cid)
      → is_link p ≡ true
      → rm_child keys store bit_width below c bf idx cindex ps key p ≢ ok (none, root')
  unfolding rm_child
  rm_child-link below c bf idx cindex ps key (link cid) root' l h =
      let (n, e, h1) = >>=-eq-ok (load store cid) _ h in
      let (p, e', h2) = >>=-eq-ok (below c key n) _ h1 in
      clean-after_link bf cindex ps cid p root' h2
  rm_child-link below c bf idx cindex ps key (cached cid n) root' l h =
      let (p, e', h2) = >>=-eq-ok (below c key n) _ h in
      clean-after_link bf cindex ps cid p root' h2
  rm_child-link below c bf idx cindex ps key (dirty n) root' l h = cc
  rm_child-link below c bf idx cindex ps key (values kvs) root' l h = cc

  -- Where the child at the key's slot of the root is a link and `get` finds no value for the key, `delete`
  -- does not return: it fails or panics.
  pub delete-link_absent :
      (key : K) (bf idx c' : ℕ) (ps : Pointers K V Cid) (child : Pointer K V Cid)
      → next (keys.hash key) 0 bit_width ≡ ok (idx, c')
      → test_bit bf idx ≡ true
      → get_elem? (to_list ps) (index_for_bit_pos bf idx) ≡ some child
      → is_link child ≡ true
      → get keys vals store bit_width key (node bf ps) ≡ ok none
      → (deleted : Option (K × V)) (root' : Node K V Cid)
      → delete keys store bit_width key (node bf ps) ≢ ok (deleted, root')
  unfolding delete rm_value rm_node
  delete-link_absent key bf idx c' ps child e there at l absent (some kv) root' h =
      let (found, f, g) = delete-get key (node bf ps) (some kv) root' h in
      let none_found : found ≡ none = ok_inj _ _ (sym f ∙ absent) in
      one_option (g ∙ ap (entry key) none_found)
  delete-link_absent key bf idx c' ps child e there at l absent none root' h =
      rm_child-link (remove 256) c' bf idx _ ps key child root' l (rw (e, there, at) at h)
