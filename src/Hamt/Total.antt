-- ===== src/Hamt/Total.antt =====
-- Setting a key ends: the recursion of `modify_value` of ipld/hamt/src/node.rs is bounded by the hash,
-- and no index is out of range.
use forest.Base.{
  ℕ, zero, suc, ◌+◌, ◌*◌, ◌≤◌, ◌<◌, ◌≡◌, ◌⊎◌, refl, arith, List, [], ◌∷◌, Option, some, Bool,
  Bool-cases, Option-cases, inl, inr, length, leb, ltb,
}
use forest.Hamt.HashBits.{
  Error, Result, ok, err, ◌>>=◌, next, next_ok, invalid_hash_bit_len, max_depth, cid_not_found,
}
use forest.Hamt.Bitfield.{test_bit}
use forest.Hamt.Node
use forest.Hamt.Node.{
  Node, Pointers, Pointer, node, nil, cons, values, link, cached, dirty, Keys, Values, to_list,
  from_list, insert_child, with_child, empty, load, lookup, max_array_width,
}
use forest.Hamt.View.{IsNode, IsPointer, child_at}
use forest.Hamt.Lookup.{load_ok}
use forest.Hamt.Lookup.Fresh.{empty-IsNode}
use forest.Hamt.Lookup.Set.{modify-Law}

-- A call that ends as a call of the code does, with a value or an error.
abbrev pub Ends {ℓ} : {A : Type ℓ} → Result A → Type ℓ
Ends {A} m = ((a : A) × (m ≡ ok a)) ⊎ ((e : Error) × (m ≡ err e))

>>=-Ends {ℓ κ} :
    {A : Type ℓ} {B : Type κ} (m : Result A) (f : A → Result B)
    → Ends m
    → ((a : A) → m ≡ ok a → Ends (f a))
    → Ends (m >>= f)
>>=-Ends m f (inl (a, e)) h = rw e (h a e)
>>=-Ends m f (inr (x, e)) h = inr (x, rw e refl)

next-Ends : (b : List ℕ) (consumed i : ℕ) → Ends (next b consumed i)
unfolding next
next-Ends b consumed i = elim (Bool-cases (ltb 8 i)) [
  | inl wide ↦ rw wide (inr (invalid_hash_bit_len, refl))
  | inr fine ↦ rw fine (elim (Bool-cases (ltb (length b * 8) (consumed + i))) [
    | inl deep ↦ rw deep (inr (max_depth, refl))
    | inr left ↦ rw left (inl (_, refl))
  ])
]

module _ {K V Cid : Type 0} (keys : Keys K) (vals : Values V)
    (store : Cid → Result (Option (Node K V Cid))) (bit_width : ℕ)
    (stored_nodes : (cid : Cid) (n : Node K V Cid) → store cid ≡ ok (some n) → IsNode keys n)
    (store-Ends : (cid : Cid) → Ends (store cid)) where
  open keys use {hash, hash_length}

  abbrev modify : ℕ → ℕ → K → V → Bool → Node K V Cid → Result ((Option V × Bool) × Node K V Cid)
  modify = Node.modify_value keys vals store bit_width

  abbrev TotalAt : ℕ → ℕ → Type 0
  TotalAt depth c =
      (key : K) (value : V) (overwrite : Bool) (n : Node K V Cid)
      → IsNode keys n
      → Ends (modify depth c key value overwrite n)

  load-Ends : (cid : Cid) → Ends (load store cid)
  unfolding load
  load-Ends cid = >>=-Ends (store cid) _ (store-Ends cid) λ o e. elim (Option-cases o) [
    | inl nothing ↦ rw nothing (inr (cid_not_found, refl))
    | inr (n, found) ↦ rw found (inl (n, refl))
  ]

  module _ (depth c : ℕ) (total : TotalAt depth c) (overwrite : Bool) where
    insert_all-Ends :
        (kvs : List (K × V)) (n : Node K V Cid)
        → IsNode keys n
        → Ends (Node.insert_all keys vals store bit_width (modify depth) c overwrite kvs n)
    unfolding Node.insert_all
    insert_all-Ends [] n good = inl (n, refl)
    insert_all-Ends ((k, v) ∷ kvs) n good =
        >>=-Ends (modify depth c k v overwrite n) _ (total k v overwrite n good) λ p e.
          insert_all-Ends kvs p.1
            (modify-Law keys vals store bit_width stored_nodes depth c k v overwrite n p good e).0

    split-Ends :
        (key : K) (value : V) (kvs : List (K × V))
        → Ends
            (Node.split_values keys vals store bit_width (modify depth) c key value overwrite kvs)
    unfolding Node.split_values
    split-Ends key value kvs =
        let fresh = empty-IsNode keys vals store bit_width stored_nodes in
        >>=-Ends (modify depth c key value overwrite empty) _
          (total key value overwrite empty fresh)
          λ p e.
            let good =
              (modify-Law keys vals store bit_width stored_nodes depth c key value overwrite empty p
                fresh e).0 in
            >>=-Ends (Node.insert_all keys vals store bit_width (modify depth) c overwrite kvs p.1)
              _ (insert_all-Ends kvs p.1 good) λ sub e'. inl (_, refl)

    values-Ends :
        (key : K) (value : V) (kvs : List (K × V))
        → Ends
            (Node.modify_values keys vals store bit_width (modify depth) c key value overwrite kvs)
    unfolding Node.modify_values
    values-Ends key value kvs = elim (Option-cases (lookup keys key kvs)) [
      | inl h ↦ elim (Bool-cases (leb max_array_width (length kvs))) [
        | inl full ↦ rw (h, full, Node.modify_values) (split-Ends key value kvs)
        | inr room ↦ rw (h, room, Node.modify_values) (inl (_, refl))
      ]
      | inr (old, h) ↦ elim (Bool-cases overwrite) [
        | inl over ↦ rw (h, over, Node.modify_values) (inl (_, refl))
        | inr keep ↦ rw (h, keep, Node.modify_values) (inl (_, refl))
      ]
    ]

    child-Ends :
        (key : K) (value : V) (child : Pointer K V Cid)
        → IsPointer keys child
        → Ends
            (Node.modify_child keys vals store bit_width (modify depth) c key value overwrite child)
    unfolding Node.modify_child IsNode
    child-Ends key value (values kvs) p = values-Ends key value kvs
    child-Ends key value (link cid) p = >>=-Ends (load store cid) _ (load-Ends cid) λ n e.
        >>=-Ends (modify depth c key value overwrite n) _
          (total key value overwrite n (load_ok keys vals store bit_width stored_nodes cid n e))
          λ q e'. inl (_, refl)
    child-Ends key value (cached cid n) p =
        >>=-Ends (modify depth c key value overwrite n) _ (total key value overwrite n p)
          λ q e. inl (_, refl)
    child-Ends key value (dirty n) p =
        >>=-Ends (modify depth c key value overwrite n) _ (total key value overwrite n p)
          λ q e. inl (_, refl)

  -- With bits left for fewer calls than there is fuel, a call ends.
  pub modify-Ends :
      (depth c : ℕ) → 0 < bit_width → c ≤ 256 → 256 < c + depth * bit_width → TotalAt depth c
  unfolding Node.modify_value Node.modify_node
  modify-Ends zero c w h l key value overwrite n good = absurd (omega arith)
  modify-Ends (suc depth) c w h l key value overwrite (node bf ps) good =
      >>=-Ends (next (hash key) c bit_width) _ (next-Ends (hash key) c bit_width) λ q e.
        let (idx, c') = q in
        let (small, after, fits, narrow) = next_ok (hash key) c bit_width idx c' e in
        let more : 256 < c' + depth * bit_width = omega (arith, hash_length key) in
        let total = modify-Ends depth c' w (omega (arith, hash_length key)) more in
        elim (Bool-cases (test_bit bf idx)) [
          | inl bit ↦
              let (child, at, p, here) = child_at keys bf ps good idx small bit in
              rw (bit, at)
                (>>=-Ends
                  (Node.modify_child keys vals store bit_width (modify depth) c' key value overwrite
                    child)
                  _ (child-Ends depth c' total overwrite key value child p) λ r e'. inl (_, refl))
          | inr clear ↦ rw clear (inl (_, refl))
        ]
