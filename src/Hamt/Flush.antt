-- ===== src/Hamt/Flush.antt =====
-- Writing the trie to the store: `flush` of ipld/hamt/src/node.rs and hamt.rs.
use mathlib.Core.Path.{subst}
use forest.Base.{
  ℕ, zero, suc, ◌≡◌, refl, sym, ap, ◌∙◌, Option, none, some, Bool-cases, inl, inr, length,
}
use forest.Hamt.HashBits.{Result, ok, err, panicked, stuck, ◌>>=◌, next}
use forest.Hamt.Bitfield.{test_bit, index_for_bit_pos}
use forest.Hamt.Slots.{get_elem?}
use forest.Hamt.Node.{
  Node, Pointers, Pointer, node, nil, cons, values, link, cached, dirty, Keys, Values, to_list,
  get_child, get_node, get_value,
}
use forest.Hamt.Lookup.{>>=-eq-ok, ok_inj}
use forest.Hamt.View.{IsNode, ArePointers, IsPointer}
use forest.Hamt.Refines.{Represents}
use forest.Hamt.Trie.{rounds, get}

-- `put` is the store's: the identifier of a node that is written.
module _ {K V Cid : Type 0} (put : Node K V Cid → Result Cid) where
  unfoldable mutual
    pub flush_node : Node K V Cid → Result (Node K V Cid)
    flush_node (node bf ps) = flush_pointers ps >>= λ ps'. ok (node bf ps')

    pub flush_pointers : Pointers K V Cid → Result (Pointers K V Cid)
    flush_pointers nil = ok nil
    flush_pointers (cons p ps) =
        flush_pointer p >>= λ p'. flush_pointers ps >>= λ ps'. ok (cons p' ps')

    pub flush_pointer : Pointer K V Cid → Result (Pointer K V Cid)
    flush_pointer (values kvs) = ok (values kvs)
    flush_pointer (link cid) = ok (link cid)
    flush_pointer (cached cid n) = ok (cached cid n)
    flush_pointer (dirty n) = flush_node n >>= λ n'. put n' >>= λ cid. ok (cached cid n')

  unfoldable pub flush : Node K V Cid → Result (Cid × Node K V Cid)
  flush root = flush_node root >>= λ root'. put root' >>= λ cid. ok (cid, root')

same_bind {ℓ κ} :
    {A : Type ℓ} {B : Type κ} (r : Result A) (f g : A → Result B)
    → ((a : A) → f a ≡ g a)
    → (r >>= f) ≡ (r >>= g)
same_bind (ok a) f g h = h a
same_bind (err e) f g h = refl
same_bind panicked f g h = refl
same_bind stuck f g h = refl

module _ {K V Cid : Type 0} (put : Node K V Cid → Result Cid) where
  -- A pointer and what it is flushed to, or none on both sides.
  data Flushed : Option (Pointer K V Cid) → Option (Pointer K V Cid) → Type 0 where
    out_of_range : Flushed none none
    in_range : (p p' : Pointer K V Cid) → flush_pointer put p ≡ ok p' → Flushed (some p) (some p')

  get_elem-flush_pointers :
      (ps ps' : Pointers K V Cid) (i : ℕ)
      → flush_pointers put ps ≡ ok ps'
      → Flushed (get_elem? (to_list ps) i) (get_elem? (to_list ps') i)
  unfolding flush_node
  get_elem-flush_pointers nil ps' i h =
      subst (λ t. Flushed none (get_elem? (to_list t) i)) (ok_inj _ _ h) out_of_range
  get_elem-flush_pointers (cons p ps) ps' zero h =
      let (p', e, h1) = >>=-eq-ok (flush_pointer put p) _ h in
      let (qs, e', h2) = >>=-eq-ok (flush_pointers put ps) _ h1 in
      subst (λ t. Flushed (some p) (get_elem? (to_list t) 0)) (ok_inj _ _ h2) (in_range p p' e)
  get_elem-flush_pointers (cons p ps) ps' (suc i) h =
      let (p', e, h1) = >>=-eq-ok (flush_pointer put p) _ h in
      let (qs, e', h2) = >>=-eq-ok (flush_pointers put ps) _ h1 in
      subst (λ t. Flushed (get_elem? (to_list ps) i) (get_elem? (to_list t) (suc i)))
        (ok_inj _ _ h2) (get_elem-flush_pointers ps qs i e')

  length-flush_pointers :
      (ps ps' : Pointers K V Cid)
      → flush_pointers put ps ≡ ok ps'
      → length (to_list ps') ≡ length (to_list ps)
  unfolding flush_node
  length-flush_pointers nil ps' h = ap (λ t. length (to_list t)) (sym (ok_inj _ _ h))
  length-flush_pointers (cons p ps) ps' h =
      let (p', e, h1) = >>=-eq-ok (flush_pointer put p) _ h in
      let (qs, e', h2) = >>=-eq-ok (flush_pointers put ps) _ h1 in
      ap (λ t. length (to_list t)) (sym (ok_inj _ _ h2)) ∙ ap suc (length-flush_pointers ps qs e')

  -- The flushed parts are well formed.
  module _ (keys : Keys K) where
    mutual
      unfolding flush_node IsNode

      flush_node-IsNode :
          (n n' : Node K V Cid) → flush_node put n ≡ ok n' → IsNode keys n → IsNode keys n'
      flush_node-IsNode (node bf ps) n' h good =
          let (ps', e, h1) = >>=-eq-ok (flush_pointers put ps) _ h in
          subst (IsNode keys) (ok_inj _ _ h1) (
            good.0 ∙ sym (length-flush_pointers ps ps' e),
            flush_pointers-ArePointers ps ps' e good.1,
          )

      flush_pointers-ArePointers :
          (ps ps' : Pointers K V Cid)
          → flush_pointers put ps ≡ ok ps'
          → ArePointers keys ps
          → ArePointers keys ps'
      flush_pointers-ArePointers nil ps' h good = subst (ArePointers keys) (ok_inj _ _ h) tt
      flush_pointers-ArePointers (cons p ps) ps' h good =
          let (p', e, h1) = >>=-eq-ok (flush_pointer put p) _ h in
          let (qs, e', h2) = >>=-eq-ok (flush_pointers put ps) _ h1 in
          subst (ArePointers keys) (ok_inj _ _ h2)
            (flush_pointer-IsPointer p p' e good.0, flush_pointers-ArePointers ps qs e' good.1)

      flush_pointer-IsPointer :
          (p p' : Pointer K V Cid)
          → flush_pointer put p ≡ ok p'
          → IsPointer keys p
          → IsPointer keys p'
      flush_pointer-IsPointer (values kvs) p' h good = subst (IsPointer keys) (ok_inj _ _ h) good
      flush_pointer-IsPointer (link cid) p' h good = subst (IsPointer keys) (ok_inj _ _ h) good
      flush_pointer-IsPointer (cached cid n) p' h good = subst (IsPointer keys) (ok_inj _ _ h) good
      flush_pointer-IsPointer (dirty n) p' h good =
          let (n', e, h1) = >>=-eq-ok (flush_node put n) _ h in
          let (cid, e', h2) = >>=-eq-ok (put n') _ h1 in
          subst (IsPointer keys) (ok_inj _ _ h2) (flush_node-IsNode n n' e good)

  module _ (keys : Keys K) (vals : Values V) (store : Cid → Result (Option (Node K V Cid)))
      (bit_width : ℕ) where
    abbrev Same : (ℕ → K → Node K V Cid → Result (Option V)) → Type 0
    Same search =
        (c : ℕ) (key : K) (n n' : Node K V Cid)
        → flush_node put n ≡ ok n'
        → search c key n' ≡ search c key n

    get_child-flush_pointer :
        (search : ℕ → K → Node K V Cid → Result (Option V))
        → Same search
        → (c : ℕ) (key : K) (p p' : Pointer K V Cid) → flush_pointer put p ≡ ok p'
        → get_child keys vals store bit_width search c key p'
          ≡ get_child keys vals store bit_width search c key p
    unfolding flush_node get_child
    get_child-flush_pointer search same c key (values kvs) p' h =
        ap (get_child keys vals store bit_width search c key) (sym (ok_inj _ _ h))
    get_child-flush_pointer search same c key (link cid) p' h =
        ap (get_child keys vals store bit_width search c key) (sym (ok_inj _ _ h))
    get_child-flush_pointer search same c key (cached cid n) p' h =
        ap (get_child keys vals store bit_width search c key) (sym (ok_inj _ _ h))
    get_child-flush_pointer search same c key (dirty n) p' h =
        let (n', e, h1) = >>=-eq-ok (flush_node put n) _ h in
        let (cid, e', h2) = >>=-eq-ok (put n') _ h1 in
        ap (get_child keys vals store bit_width search c key) (sym (ok_inj _ _ h2))
        ∙ same c key n n' e

    -- What is looked up at an index of the pointers.
    abbrev at_pointer :
        (ℕ → K → Node K V Cid → Result (Option V))
        → ℕ
        → K
        → Option (Pointer K V Cid)
        → Result (Option V)
    at_pointer search c key o = elim o [
      | none ↦ panicked
      | some child ↦ get_child keys vals store bit_width search c key child
    ]

    at_pointer-Flushed :
        (search : ℕ → K → Node K V Cid → Result (Option V))
        → Same search
        → (c : ℕ) (key : K) (o o' : Option (Pointer K V Cid)) → Flushed o o'
        → at_pointer search c key o' ≡ at_pointer search c key o
    at_pointer-Flushed search same c key _ _ out_of_range = refl
    at_pointer-Flushed search same c key _ _ (in_range p p' e) =
        get_child-flush_pointer search same c key p p' e

    get_node-flush_node :
        (search : ℕ → K → Node K V Cid → Result (Option V))
        → Same search
        → Same (get_node keys vals store bit_width search)
    unfolding get_node flush_node
    get_node-flush_node search same c key (node bf ps) n' h =
        let (ps', e, h1) = >>=-eq-ok (flush_pointers put ps) _ h in
        ap (get_node keys vals store bit_width search c key) (sym (ok_inj _ _ h1))
        ∙ same_bind (next (keys.hash key) c bit_width) _ _ (λ q.
          elim (Bool-cases (test_bit bf q.0)) [
            | inr clear ↦ rw clear refl
            | inl there ↦ rw there (
                at_pointer-Flushed search same q.1 key _ _
                  (get_elem-flush_pointers ps ps' (index_for_bit_pos bf q.0) e))
          ])

    get_value-flush_node : (depth : ℕ) → Same (get_value keys vals store bit_width depth)
    unfolding get_value
    get_value-flush_node zero c key n n' h = refl
    get_value-flush_node (suc depth) c key n n' h =
        get_node-flush_node (get_value keys vals store bit_width depth) (get_value-flush_node depth)
          c key n n' h

    -- Where the trie represents a map and `flush` returns, the flushed trie represents the same map.
    pub flush-Refines :
        (root root' : Node K V Cid) (cid : Cid) (m : K → Option V)
        → Represents keys vals store bit_width root m
        → flush put root ≡ ok (cid, root')
        → Represents keys vals store bit_width root' m
    unfolding get flush
    flush-Refines root root' cid m r h =
        let (n, e, h1) = >>=-eq-ok (flush_node put root) _ h in
        let (c, e', h2) = >>=-eq-ok (put n) _ h1 in
        subst (λ t. Represents keys vals store bit_width t m) (ap (λ t. t.1) (ok_inj _ _ h2))
          (record {
            good = flush_node-IsNode keys root n e r.good;
            finds = λ k. get_value-flush_node rounds 0 k root n e ∙ r.finds k;
          })
