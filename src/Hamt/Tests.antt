-- ===== src/Hamt/Tests.antt =====
-- Runs of the trie of ipld/hamt on small examples.
use mathlib.Core.Path.{subst}
use forest.Base.{
  ℕ, ◌≡◌, ◌≢◌, ◌⊎◌, ◌/◌, ◌%◌, refl, sym, ap, ◌∙◌, arith, [], ◌∷◌, Option, none, some, true, false,
  inl, inr, ltb, ◌==◌, ==_iff,
}
use forest.Hamt.HashBits.{Error, Result, ok, err, panicked, next}
use forest.Hamt.Bitfield.{test_bit, set_bit, clear_bit, index_for_bit_pos}
use forest.Hamt.Slots.{get_elem?}
use forest.Hamt.Node.{
  Node, Pointers, Pointer, node, nil, cons, values, cached, dirty, Keys, Values, empty, to_list,
}
use forest.Hamt.Node.{
  modify_value, modify_node, modify_child, modify_values, lookup, replace_value, insert_ordered,
  split_values, insert_all, get_value, get_node, get_child,
}
use forest.Hamt.Remove.{
  rm_value, rm_node, rm_child, find_entry, remove_entry, clean, clean_node, bucket_values,
  sort_by_key,
}
use forest.Hamt.View.{IsNode}
use forest.Hamt.Total.{Ends}
use forest.Hamt.Lookup.{ok_inj}
use forest.Hamt.Trie.{set, set_if_absent, get, delete}
use forest.Hamt.Refines.{Represents, update, empty-Represents, set-Refines, set_if_absent-Refines}
use forest.Hamt.Delete.{entry, delete-get, delete-link_absent}
use forest.Hamt.Flush.{flush, flush_node, flush-Refines}

-- A hash of two bytes of the key and 30 that are 0.
abbrev small_keys : Keys ℕ
small_keys = record {
  eq = λ a b. a == b;
  eq_iff = λ a b. ==_iff a b;
  gt = λ a b. ltb b a;
  hash = λ k.
      k % 256
      ∷ k / 256 % 256
      ∷ 0
      ∷ 0
      ∷ 0
      ∷ 0
      ∷ 0
      ∷ 0
      ∷ 0
      ∷ 0
      ∷ 0
      ∷ 0
      ∷ 0
      ∷ 0
      ∷ 0
      ∷ 0
      ∷ 0
      ∷ 0
      ∷ 0
      ∷ 0
      ∷ 0
      ∷ 0
      ∷ 0
      ∷ 0
      ∷ 0
      ∷ 0
      ∷ 0
      ∷ 0
      ∷ 0
      ∷ 0
      ∷ 0
      ∷ 0
      ∷ [];
  hash_length = λ k. refl;
}

abbrev small_values : Values ℕ
small_values = record { eq = λ a b. a == b; eq-sound = λ a b e. (==_iff a b).0 e }

abbrev Tree : Type 0
Tree = Node ℕ ℕ ℕ

-- A store that has nothing in it.
abbrev no_store : ℕ → Result (Option Tree)
no_store cid = ok none

no_store-IsNode : (cid : ℕ) (n : Tree) → no_store cid ≡ ok (some n) → IsNode small_keys n
no_store-IsNode cid n e = cc

no_store-Ends : (cid : ℕ) → Ends (no_store cid)
no_store-Ends cid = inl (none, refl)

abbrev one_entry : Tree
one_entry = node 2 (cons (values ((1, 10) ∷ [])) nil)

abbrev two_entries : Tree
two_entries = node 2 (cons (values ((1, 10) ∷ (257, 20) ∷ [])) nil)

abbrev full_bucket : Tree
full_bucket = node 2 (cons (values ((1, 10) ∷ (257, 20) ∷ (513, 30) ∷ [])) nil)

-- The bucket above and a fourth key, in a node below.
abbrev deeper : Tree
deeper = node 2 (
    cons
      (dirty (
        node 15 (
          cons (values ((1, 10) ∷ [])) (
            cons (values ((257, 20) ∷ []))
              (cons (values ((513, 30) ∷ [])) (cons (values ((769, 40) ∷ [])) nil))))))
      nil)

set-new : set small_keys small_values no_store 8 1 10 empty ≡ ok (none, one_entry)
unfolding set modify_value modify_node modify_child modify_values lookup replace_value
    insert_ordered split_values insert_all next test_bit set_bit index_for_bit_pos
set-new = refl

set-split : set small_keys small_values no_store 8 769 40 full_bucket ≡ ok (none, deeper)
unfolding set modify_value modify_node modify_child modify_values lookup replace_value
    insert_ordered split_values insert_all next test_bit set_bit index_for_bit_pos
set-split = refl

set-old :
    set small_keys small_values no_store 8 1 11 one_entry
    ≡ ok (some 10, node 2 (cons (values ((1, 11) ∷ [])) nil))
unfolding set modify_value modify_node modify_child modify_values lookup replace_value
    insert_ordered split_values insert_all next test_bit set_bit index_for_bit_pos
set-old = refl

delete-collapse : delete small_keys no_store 8 769 deeper ≡ ok (some (769, 40), full_bucket)
unfolding delete rm_value rm_node rm_child find_entry remove_entry clean clean_node bucket_values
    sort_by_key insert_ordered next test_bit clear_bit index_for_bit_pos
delete-collapse = refl

delete-last : delete small_keys no_store 8 1 one_entry ≡ ok (some (1, 10), empty)
unfolding delete rm_value rm_node rm_child find_entry remove_entry clean clean_node bucket_values
    sort_by_key insert_ordered next test_bit clear_bit index_for_bit_pos
delete-last = refl

abbrev put : Tree → Result ℕ
put n = ok 5

abbrev flushed_child : Pointer ℕ ℕ ℕ
flushed_child = cached 5 (
    node 15 (
      cons (values ((1, 10) ∷ [])) (
        cons (values ((257, 20) ∷ []))
          (cons (values ((513, 30) ∷ [])) (cons (values ((769, 40) ∷ [])) nil)))))

abbrev below : Pointers ℕ ℕ ℕ
below = cons flushed_child nil

abbrev flushed : Tree
flushed = node 2 below

flush-dirty : flush put deeper ≡ ok (5, flushed)
unfolding flush flush_node
flush-dirty = refl

-- A key that is not in the flushed trie cannot be deleted from it.
delete-panics : delete small_keys no_store 8 1025 flushed ≡ panicked
unfolding delete rm_value rm_node rm_child find_entry remove_entry clean clean_node bucket_values
    sort_by_key insert_ordered next test_bit clear_bit index_for_bit_pos
delete-panics = refl

get-flushed : get small_keys small_values no_store 8 1025 flushed ≡ ok none
unfolding get get_value get_node get_child lookup next test_bit index_for_bit_pos
get-flushed = refl

-- The map of a trie, and what a set call makes of it.
abbrev IsTree : Tree → (ℕ → Option ℕ) → Type 0
IsTree root m = Represents small_keys small_values no_store 8 root m

abbrev and_set : ℕ → ℕ → (ℕ → Option ℕ) → ℕ → Option ℕ
and_set key value m = update small_keys key value m

err≢ok {ℓ} : {A : Type ℓ} (r : Result A) (e : Error) (a : A) → r ≡ err e → r ≢ ok a
err≢ok r e a h k = cc

set_to :
    (key value : ℕ) (root root' : Tree) (m : ℕ → Option ℕ) (old : Option ℕ)
    → IsTree root m
    → set small_keys small_values no_store 8 key value root ≡ ok (old, root')
    → IsTree root' (and_set key value m)
set_to key value root root' m old r e =
    elim (set-Refines small_keys small_values no_store 8 no_store-IsNode no_store-Ends (omega arith)
      key value root m r) [
        | inl (x, failed) ↦ absurd (err≢ok _ x (old, root') failed e)
        | inr (root'', done, r') ↦
            subst (λ t. IsTree t (and_set key value m)) (ap (λ t. t.1) (ok_inj _ _ (sym done ∙ e)))
              r'
      ]

abbrev one_map : ℕ → Option ℕ
one_map = and_set 1 10 (λ k. none)

abbrev full_map : ℕ → Option ℕ
full_map = and_set 513 30 (and_set 257 20 one_map)

one_entry-IsTree : IsTree one_entry one_map
one_entry-IsTree =
    set_to 1 10 empty one_entry (λ k. none) none
      (empty-Represents small_keys small_values no_store 8 no_store-IsNode no_store-Ends
        (omega arith) (omega arith))
      set-new

set-second : set small_keys small_values no_store 8 257 20 one_entry ≡ ok (none, two_entries)
unfolding set modify_value modify_node modify_child modify_values lookup replace_value
    insert_ordered split_values insert_all next test_bit set_bit index_for_bit_pos
set-second = refl

set-third : set small_keys small_values no_store 8 513 30 two_entries ≡ ok (none, full_bucket)
unfolding set modify_value modify_node modify_child modify_values lookup replace_value
    insert_ordered split_values insert_all next test_bit set_bit index_for_bit_pos
set-third = refl

full_bucket-IsTree : IsTree full_bucket full_map
full_bucket-IsTree =
    set_to 513 30 two_entries full_bucket (and_set 257 20 one_map) none
      (set_to 257 20 one_entry two_entries one_map none one_entry-IsTree set-second) set-third

deeper-IsTree : IsTree deeper (and_set 769 40 full_map)
deeper-IsTree = set_to 769 40 full_bucket deeper full_map none full_bucket-IsTree set-split

set-Refines_example :
    ((e : Error) × (set small_keys small_values no_store 8 769 40 full_bucket ≡ err e))
    ⊎ ((root' : Tree) × (set small_keys small_values no_store 8 769 40 full_bucket
          ≡ ok (none, root'))
        × IsTree root' (and_set 769 40 full_map))
set-Refines_example =
    set-Refines small_keys small_values no_store 8 no_store-IsNode no_store-Ends (omega arith) 769
      40 full_bucket full_map full_bucket-IsTree

set_if_absent-Refines_example :
    ((e : Error) × (set_if_absent small_keys small_values no_store 8 1 11 one_entry ≡ err e))
    ⊎ ((root' : Tree) × (set_if_absent small_keys small_values no_store 8 1 11 one_entry
          ≡ ok (false, root'))
        × IsTree root' (and_set 1 10 one_map))
set_if_absent-Refines_example =
    set_if_absent-Refines small_keys small_values no_store 8 no_store-IsNode no_store-Ends
      (omega arith) 1 11 one_entry one_map one_entry-IsTree

flush-Refines_example : IsTree flushed (and_set 769 40 full_map)
flush-Refines_example =
    flush-Refines put small_keys small_values no_store 8 deeper flushed 5 (and_set 769 40 full_map)
      deeper-IsTree flush-dirty

delete-get_example :
    (found : Option ℕ) × (get small_keys small_values no_store 8 769 deeper ≡ ok found)
    × (some (769, 40) ≡ entry {K = ℕ} 769 found)
delete-get_example =
    delete-get small_keys small_values no_store 8 769 deeper (some (769, 40)) full_bucket
      delete-collapse

first_slot : next (small_keys.hash 1025) 0 8 ≡ ok (1, 8)
unfolding next
first_slot = refl

first_set : test_bit 2 1 ≡ true
unfolding test_bit
first_set = refl

first_child : get_elem? (to_list below) (index_for_bit_pos 2 1) ≡ some flushed_child
unfolding index_for_bit_pos
first_child = refl

delete-link_absent_example : delete small_keys no_store 8 1025 flushed ≢ ok (none, flushed)
delete-link_absent_example =
    delete-link_absent small_keys small_values no_store 8 1025 2 1 8 below flushed_child first_slot
      first_set first_child refl get-flushed none flushed
