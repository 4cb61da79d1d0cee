-- ===== src/Hamt/Lookup/Fresh.antt =====
-- New nodes, against search: `get_value` of ipld/hamt/src/node.rs.

use forest.Base.{
  ℕ, zero, suc, ◌<◌, ◌≡◌, ◌≢◌, refl, sym, ap, ◌∙◌, [], Option, none, some, Bool, length,
}
use forest.Hamt.HashBits.{Result, ok, next, next_ok, next-again}
use forest.Hamt.Bitfield.{width, count_ones_zero, clear_zero}
use forest.Hamt.Slots.{slot}
use forest.Hamt.Node
use forest.Hamt.Node.{Node, Pointer, node, nil, Keys, Values, empty}
use forest.Hamt.View.{IsNode, slot_clear}
use forest.Hamt.Lookup.{>>=-eq-ok, at_slot, get_node-at_slot}

module _ {K V Cid : Type 0} (keys : Keys K) (vals : Values V)
    (store : Cid → Result (Option (Node K V Cid))) (bit_width : ℕ)
    (stored_nodes : (cid : Cid) (n : Node K V Cid) → store cid ≡ ok (some n) → IsNode keys n) where
  open keys use {eq, eq_iff, hash, hash_length}

  abbrev get : ℕ → ℕ → K → Node K V Cid → Result (Option V)
  get = Node.get_value keys vals store bit_width

  abbrev modify : ℕ → ℕ → K → V → Bool → Node K V Cid → Result ((Option V × Bool) × Node K V Cid)
  modify = Node.modify_value keys vals store bit_width

  -- A new node, before anything is put into it.
  pub empty-IsNode : IsNode keys (empty {K = K} {V = V} {Cid = Cid})
  unfolding IsNode
  empty-IsNode = (count_ones_zero width, tt)

  pub empty_slot : (j : ℕ) → j < width → ◌≡◌ {A = Option (Pointer K V Cid)} (slot 0 [] j) none
  empty_slot j h = slot_clear keys 0 nil empty-IsNode j h (clear_zero j)

  pub same_length : (a b : K) → length (hash b) ≡ length (hash a)
  same_length a b = hash_length b ∙ sym (hash_length a)

  pub modify-suc :
      (depth c : ℕ) (key : K) (value : V) (overwrite : Bool) (n : Node K V Cid)
      → modify (suc depth) c key value overwrite n
        ≡ Node.modify_node keys vals store bit_width (modify depth) c key value overwrite n
  unfolding Node.modify_value
  modify-suc depth c key value overwrite n = refl

  pub get-suc :
      (depth c : ℕ) (k : K) (n : Node K V Cid)
      → get (suc depth) c k n ≡ Node.get_node keys vals store bit_width (get depth) c k n
  unfolding Node.get_value
  get-suc depth c k n = refl

  pub no_depth :
      (c : ℕ) (key : K) (value : V) (overwrite : Bool) (n : Node K V Cid)
      (q : (Option V × Bool) × Node K V Cid)
      → modify 0 c key value overwrite n ≢ ok q
  unfolding Node.modify_value
  no_depth c key value overwrite n q e = cc

  -- The bits that a successful call has taken off the hash of its key.
  pub modify-next :
      (depth c : ℕ) (key : K) (value : V) (overwrite : Bool) (n : Node K V Cid)
      (q : (Option V × Bool) × Node K V Cid)
      → modify (suc depth) c key value overwrite n ≡ ok q
      → (idx : ℕ) × (c' : ℕ) × (next (hash key) c bit_width ≡ ok (idx, c'))
  unfolding Node.modify_node
  modify-next depth c key value overwrite (node bf ps) q h =
      let ((idx, c'), e, rest) =
        >>=-eq-ok (next (hash key) c bit_width) _
          (sym (modify-suc depth c key value overwrite (node bf ps)) ∙ h) in
      (idx, c', e)

  -- A node that has nothing in it has no value for a key with bits left.
  pub get-empty_node :
      (depth c idx c' : ℕ) (k : K)
      → next (hash k) c bit_width ≡ ok (idx, c')
      → get (suc depth) c k empty ≡ ok none
  unfolding at_slot
  get-empty_node depth c idx c' k e =
      let (small, _, _, _) = next_ok (hash k) c bit_width idx c' e in
      get-suc depth c k empty
      ∙ get_node-at_slot keys vals store bit_width stored_nodes (get depth) 0 nil c c' idx k
          empty-IsNode small e
      ∙ ap (at_slot keys vals store bit_width stored_nodes (get depth) c' k) (empty_slot idx small)

  -- Where a call can put something into a new node, every key is looked up in it, and is not there.
  pub get-empty :
      (depth c : ℕ) (key : K) (value : V) (overwrite : Bool) (q : (Option V × Bool) × Node K V Cid)
      → modify depth c key value overwrite empty ≡ ok q
      → (k : K) → get depth c k empty ≡ ok none
  get-empty zero c key value overwrite q h k = absurd (no_depth c key value overwrite empty q h)
  get-empty (suc depth) c key value overwrite q h k =
      let (idx, c', e) = modify-next depth c key value overwrite empty q h in
      let (j, _, e') = next-again (hash key) (hash k) c bit_width idx c' (same_length key k) e in
      get-empty_node depth c j c' k e'
