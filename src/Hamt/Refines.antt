-- ===== src/Hamt/Refines.antt =====
-- The trie is a map: `set`, `set_if_absent` and `get` of ipld/hamt/src/hamt.rs against functions from keys to
-- values.
use mathlib.Core.Path.{subst}
use forest.Base.{
  ℕ, ◌+◌, ◌*◌, ◌≤◌, ◌<◌, ◌≡◌, ◌⊎◌, refl, sym, ap, ◌∙◌, arith, List, Option, none, some, Bool, true,
  false, not, inl, inr, if◌then◌else◌, length, ltb,
}
use forest.Hamt.HashBits.{Error, Result, ok, err, next, next_bits}
use forest.Hamt.Node.{Node, Keys, Values, empty, modify_value, is_some}
use forest.Hamt.Buckets.{stored, expected}
use forest.Hamt.View.{IsNode}
use forest.Hamt.Lookup.{ok_inj}
use forest.Hamt.Lookup.Fresh.{empty-IsNode, get-empty_node}
use forest.Hamt.Lookup.Set.{modify-Law}
use forest.Hamt.Total.{Ends, modify-Ends}
use forest.Hamt.Trie.{rounds, set, set_if_absent, get}

-- The map `m` with `value` at `key`.
abbrev pub update : {K V : Type 0} → Keys K → K → V → (K → Option V) → K → Option V
update keys key value m k = if keys.eq key k then some value else m k

next_fits :
    (b : List ℕ) (i : ℕ)
    → i ≤ 8
    → length b ≡ 32
    → (idx : ℕ) × (c' : ℕ) × (next b 0 i ≡ ok (idx, c'))
unfolding next
next_fits b i small e =
    let narrow : ltb 8 i ≡ false = ground arith in
    let left : ltb (length b * 8) (0 + i) ≡ false = ground arith in
    (next_bits 2 b 0 i, 0 + i, rw (narrow, left) refl)

module _ {K V Cid : Type 0} (keys : Keys K) (vals : Values V)
    (store : Cid → Result (Option (Node K V Cid))) (bit_width : ℕ) where
  -- The trie is well formed, and looking up each key in it gives what the map has.
  pub record Represents (root : Node K V Cid) (m : K → Option V) : Type 0 where
    pub good : IsNode keys root
    pub finds : (k : K) → get keys vals store bit_width k root ≡ ok (m k)

  -- Both sides of a lookup after the key is set.
  set_then :
      (b : Bool) (value : V) (overwrite : Bool) {found there : Option V} {other : Result (Option V)}
      {at_k : Option V}
      → found ≡ there
      → other ≡ ok at_k
      → (if b then ok (some (stored overwrite value found)) else other)
        ≡ ok (if b then some (stored overwrite value there) else at_k)
  set_then true value overwrite e h = ap (λ t. ok (some (stored overwrite value t))) e
  set_then false value overwrite e h = h

  set_old : (value : V) (o : Option V) → (expected vals true value o).0 ≡ o
  set_old value none = refl
  set_old value (some old) = refl

  set_new : (value : V) (o : Option V) → stored true value o ≡ value
  set_new value none = refl
  set_new value (some old) = refl

  was_absent : (value : V) (o : Option V) → (expected vals false value o).1 ≡ not (is_some o)
  was_absent value none = refl
  was_absent value (some old) = refl

  module _ (stored_nodes : (cid : Cid) (n : Node K V Cid) → store cid ≡ ok (some n) → IsNode keys n)
      (store-Ends : (cid : Cid) → Ends (store cid)) (w : 0 < bit_width) where
    -- A call on a trie that represents a map ends with an error, or has set the key.
    modify-Represents :
        (key : K) (value : V) (overwrite : Bool) (root : Node K V Cid) (m : K → Option V)
        → Represents root m
        → ((e : Error) × (modify_value keys vals store bit_width rounds 0 key value overwrite root
              ≡ err e))
          ⊎ ((root' : Node K V Cid) × (modify_value keys vals store bit_width rounds 0 key value
                  overwrite root
                ≡ ok (expected vals overwrite value (m key), root'))
              × Represents root' (update keys key (stored overwrite value (m key)) m))
    unfolding get
    modify-Represents key value overwrite root m r =
        elim (modify-Ends keys vals store bit_width stored_nodes store-Ends rounds 0 w (omega arith)
          (omega arith) key value overwrite root r.good) [
            | inr (e, failed) ↦ inl (e, failed)
            | inl (q, done) ↦
                let (good, sets) =
                  modify-Law keys vals store bit_width stored_nodes rounds 0 key value overwrite
                    root q r.good done in
                let found : sets.found ≡ m key = ok_inj _ _ (sym sets.before_eq ∙ r.finds key) in
                inr (
                  q.1,
                  done
                      ∙ ap (λ t. ok (t, q.1))
                          (sets.out_eq ∙ ap (expected vals overwrite value) found),
                  record {
                    good = good;
                    finds = λ k.
                        sets.after_eq k
                        ∙ set_then (keys.eq key k) value overwrite found (r.finds k);
                  },
                )
          ]

    -- Where the calls of the store end and give well-formed nodes, the bit width is not zero and the trie
    -- represents the map `m`, `set` ends with an error, or returns the value that `m` has at the key and
    -- leaves a trie that represents `m` with the new value at the key.
    pub set-Refines :
        (key : K) (value : V) (root : Node K V Cid) (m : K → Option V)
        → Represents root m
        → ((e : Error) × (set keys vals store bit_width key value root ≡ err e))
          ⊎ ((root' : Node K V Cid) × (set keys vals store bit_width key value root
                ≡ ok (m key, root'))
              × Represents root' (update keys key value m))
    unfolding set
    set-Refines key value root m r = elim (modify-Represents key value true root m r) [
      | inl (e, failed) ↦ inl (e, rw failed refl)
      | inr (root', done, r') ↦ inr (
        root',
        rw done (ap (λ t. ok (t, root')) (set_old value (m key))),
        subst (λ t. Represents root' (update keys key t m)) (set_new value (m key)) r',
      )
    ]

    -- Where the calls of the store end and give well-formed nodes, the bit width is not zero and the trie
    -- represents the map `m`, `set_if_absent` ends with an error, or returns whether `m` has no value at
    -- the key and leaves a trie that represents `m` with the value at the key if there was none.
    pub set_if_absent-Refines :
        (key : K) (value : V) (root : Node K V Cid) (m : K → Option V)
        → Represents root m
        → ((e : Error) × (set_if_absent keys vals store bit_width key value root ≡ err e))
          ⊎ ((root' : Node K V Cid) × (set_if_absent keys vals store bit_width key value root
                ≡ ok (not (is_some (m key)), root'))
              × Represents root' (update keys key (stored false value (m key)) m))
    unfolding set_if_absent
    set_if_absent-Refines key value root m r = elim (modify-Represents key value false root m r) [
      | inl (e, failed) ↦ inl (e, rw failed refl)
      | inr (root', done, r') ↦
          inr (root', rw done (ap (λ t. ok (t, root')) (was_absent value (m key))), r')
    ]

    -- The new trie represents the map that is empty, at each bit width that the code allows.
    pub empty-Represents : bit_width ≤ 8 → Represents empty (λ k. none)
    unfolding get
    empty-Represents small = record {
      good = empty-IsNode keys vals store bit_width stored_nodes;
      finds = λ k.
          let (idx, c', e) = next_fits (keys.hash k) bit_width small (keys.hash_length k) in
          get-empty_node keys vals store bit_width stored_nodes 256 0 idx c' k e;
    }
