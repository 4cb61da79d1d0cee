-- ===== src/Hamt/Buckets.antt =====
-- The pairs of a bucket, as a map: the values of a pointer in ipld/hamt/src/node.rs.
use forest.Base.{
  ◌≡◌, refl, sym, ap, ◌∙◌, List, [], ◌∷◌, Option, none, some, Bool, true, false, not, Bool-cases,
  inl, inr, if◌then◌else◌,
}
use forest.Hamt.Node.{Keys, Values, lookup, replace_value, insert_ordered}

-- What a key holds after `value` is set, and what the call returns, where `found` was there before.
module _ {V : Type 0} where
  abbrev pub stored : Bool → V → Option V → V
  stored overwrite value none = value
  stored overwrite value (some old) = if overwrite then value else old

  abbrev pub expected : Values V → Bool → V → Option V → Option V × Bool
  expected vals overwrite value none = (none, true)
  expected vals overwrite value (some old) =
      if overwrite then (some old, not (vals.eq old value)) else (none, false)

module _ {K : Type 0} (keys : Keys K) where
  open keys use {eq, eq_iff, gt}

  pub eq_self : (k : K) → eq k k ≡ true
  eq_self k = (eq_iff k k).1 refl

  pub eq_sym : (a b : K) → eq a b ≡ eq b a
  eq_sym a b = elim (Bool-cases (eq a b)) [
    | inl e ↦ let same = (eq_iff a b).0 e in e ∙ sym ((eq_iff b a).1 (sym same))
    | inr e ↦ elim (Bool-cases (eq b a)) [
      | inl e' ↦ let same = (eq_iff b a).0 e' in cc ((eq_iff a b).1 (sym same))
      | inr e' ↦ e ∙ sym e'
    ]
  ]

  -- A key that is not the one set is not the one found.
  others : (j key k : K) → eq j key ≡ false → eq j k ≡ true → eq key k ≡ false
  others j key k e h =
      let same = (eq_iff j k).0 h in eq_sym key k ∙ ap (λ t. eq t key) (sym same) ∙ e

module _ {K V : Type 0} (keys : Keys K) where
  open keys use {eq, eq_iff, gt}

  -- No key is listed twice.
  unfoldable pub DistinctKeys : List (K × V) → Type 0
  DistinctKeys [] = Unit {0}
  DistinctKeys ((k, v) ∷ kvs) = (lookup keys k kvs ≡ none) × DistinctKeys kvs

  pub lookup-replace :
      (key : K) (value old : V) (kvs : List (K × V)) (k : K)
      → lookup keys key kvs ≡ some old
      → lookup keys k (replace_value keys key value kvs)
        ≡ (if eq key k then some value else lookup keys k kvs)
  unfolding lookup replace_value
  lookup-replace key value old [] k h = cc
  lookup-replace key value old ((j, v) ∷ kvs) k h = elim (Bool-cases (eq j key)) [
    | inl e ↦
        let same : eq key k ≡ eq j k = ap (λ t. eq t k) (sym ((eq_iff j key).0 e)) in
        rw (e, same) (elim (Bool-cases (eq j k)) [ inl y ↦ rw y refl | inr n ↦ rw n refl ])
    | inr e ↦
        let ih = lookup-replace key value old kvs k (rw e at h) in
        rw e (elim (Bool-cases (eq j k)) [
          | inl y ↦ rw (y, others keys j key k e y) refl
          | inr n ↦ rw n ih
        ])
  ]

  pub lookup-insert :
      (key : K) (value : V) (kvs : List (K × V)) (k : K)
      → lookup keys key kvs ≡ none
      → lookup keys k (insert_ordered keys key value kvs)
        ≡ (if eq key k then some value else lookup keys k kvs)
  unfolding lookup insert_ordered
  lookup-insert key value [] k h = refl
  lookup-insert key value ((j, v) ∷ kvs) k h = elim (Bool-cases (eq j key)) [
    | inl e ↦ cc (rw e at h)
    | inr e ↦
        let ih = lookup-insert key value kvs k (rw e at h) in
        elim (Bool-cases (gt j key)) [
          | inl g ↦ rw g refl
          | inr g ↦ rw g (elim (Bool-cases (eq j k)) [
            | inl y ↦ rw (y, others keys j key k e y) refl
            | inr n ↦ rw n ih
          ])
        ]
  ]

  pub replace-DistinctKeys :
      (key : K) (value old : V) (kvs : List (K × V))
      → lookup keys key kvs ≡ some old
      → DistinctKeys kvs
      → DistinctKeys (replace_value keys key value kvs)
  unfolding DistinctKeys lookup replace_value
  replace-DistinctKeys key value old [] h d = d
  replace-DistinctKeys key value old ((j, v) ∷ kvs) h d = elim (Bool-cases (eq j key)) [
    | inl e ↦ rw e d
    | inr e ↦
        let rest = rw e at h in
        rw e (
          lookup-replace key value old kvs j rest ∙ rw (eq_sym keys key j, e) d.0,
          replace-DistinctKeys key value old kvs rest d.1,
        )
  ]

  pub insert-DistinctKeys :
      (key : K) (value : V) (kvs : List (K × V))
      → lookup keys key kvs ≡ none
      → DistinctKeys kvs
      → DistinctKeys (insert_ordered keys key value kvs)
  unfolding DistinctKeys lookup insert_ordered
  insert-DistinctKeys key value [] h d = (refl, tt)
  insert-DistinctKeys key value ((j, v) ∷ kvs) h d = elim (Bool-cases (eq j key)) [
    | inl e ↦ cc (rw e at h)
    | inr e ↦ elim (Bool-cases (gt j key)) [
      | inl g ↦ rw g (h, d)
      | inr g ↦ rw g (
        lookup-insert key value kvs j (rw e at h) ∙ rw (eq_sym keys key j, e) d.0,
        insert-DistinctKeys key value kvs (rw e at h) d.1,
      )
    ]
  ]
