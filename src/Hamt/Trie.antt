-- ===== src/Hamt/Trie.antt =====
-- The trie that the other parts use: ipld/hamt/src/hamt.rs. A trie is its root, the store and the bit
-- width; the calls that change it return the new root.
use forest.Base.{ℕ, Bool, true, false, Option}
use forest.Hamt.HashBits.{Result, ok, ◌>>=◌}
use forest.Hamt.Node.{Node, Keys, Values, node, nil, cons, modify_value, get_value, is_some}
use forest.Hamt.Remove.{rm_value}

-- One call more than a hash of 256 bits has bits.
abbrev pub rounds : ℕ
rounds = 257

abbrev pub is_empty : {K V Cid : Type 0} → Node K V Cid → Bool
is_empty (node bf nil) = true
is_empty (node bf (cons p ps)) = false

module _ {K V Cid : Type 0} (keys : Keys K) (vals : Values V)
    (store : Cid → Result (Option (Node K V Cid))) (bit_width : ℕ) where
  unfoldable pub set : K → V → Node K V Cid → Result (Option V × Node K V Cid)
  set key value root =
      modify_value keys vals store bit_width rounds 0 key value true root >>= λ p. ok (p.0.0, p.1)

  unfoldable pub set_if_absent : K → V → Node K V Cid → Result (Bool × Node K V Cid)
  set_if_absent key value root =
      modify_value keys vals store bit_width rounds 0 key value false root >>= λ p. ok (p.0.1, p.1)

  unfoldable pub get : K → Node K V Cid → Result (Option V)
  get key root = get_value keys vals store bit_width rounds 0 key root

  unfoldable pub contains_key : K → Node K V Cid → Result Bool
  contains_key key root =
      get_value keys vals store bit_width rounds 0 key root >>= λ found. ok (is_some found)

module _ {K V Cid : Type 0} (keys : Keys K) (store : Cid → Result (Option (Node K V Cid)))
    (bit_width : ℕ) where
  unfoldable pub delete : K → Node K V Cid → Result (Option (K × V) × Node K V Cid)
  delete key root = rm_value keys store bit_width rounds 0 key root
