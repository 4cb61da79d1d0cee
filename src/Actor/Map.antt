-- ===== src/Actor/Map.antt =====
-- The maps of an actor's state (a HAMT keyed by transaction ids, an AMT keyed by lane ids), as
-- association lists.
use forest.Base.{
  ℕ, ◌≡◌, ◌↔◌, refl, inl, inr, Bool, true, Bool-cases, List, [], ◌∷◌, Option, none, some, arith,
  ◌==◌, ==_iff, if◌then◌else◌,
}
use mathlib.Core.Path.{subst}
use forest.Base.Int.{ℤ, eqb_ℤ, eq_of_parts}

pub record Eq {ℓ} (A : Type ℓ) : Type ℓ where
  pub beq : A → A → Bool
  pub beq_iff : (a b : A) → (beq a b ≡ true) ↔ (a ≡ b)

instance abbrev pub nat_eq : Eq ℕ
nat_eq = record { beq = ◌==◌; beq_iff = ==_iff }

pub eqb_ℤ_iff : (a b : ℤ) → (eqb_ℤ a b ≡ true) ↔ (a ≡ b)
eqb_ℤ_iff a b = (λ h. eq_of_parts a b (ground arith), λ e. ground arith)

instance abbrev pub int_eq : Eq ℤ
int_eq = record { beq = eqb_ℤ; beq_iff = eqb_ℤ_iff }

abbrev pub Map {ℓ κ} : Type ℓ → Type κ → Type (ℓ ⊔ κ)
Map K V = List (K × V)

module _ {K V : Type 0} ⦃e : Eq K⦄ where
  unfoldable pub get : K → Map K V → Option V
  get k [] = none
  get k ((j, v) ∷ m) = if e.beq j k then some v else get k m

  unfoldable pub set : K → V → Map K V → Map K V
  set k v [] = (k, v) ∷ []
  set k v ((j, w) ∷ m) = let rest = set k v m in if e.beq j k then (k, v) ∷ m else (j, w) ∷ rest

  unfoldable pub delete : K → Map K V → Map K V
  delete k [] = []
  delete k ((j, w) ∷ m) = let rest = delete k m in if e.beq j k then rest else (j, w) ∷ rest

  -- No key is listed twice.
  abbrev pub IsMap : Map K V → Type 0
  IsMap [] = Unit {0}
  IsMap ((k, v) ∷ m) = (get k m ≡ none) × IsMap m

  pub get-set :
      (k j : K) (v : V) (m : Map K V) → get j (set k v m) ≡ (if e.beq k j then some v else get j m)
  unfolding get set
  get-set k j v [] = refl
  get-set k j v ((i, w) ∷ m) =
      ground (arith, e.beq_iff k j, e.beq_iff i k, e.beq_iff i j, get-set k j v m)

  pub get-delete :
      (k j : K) (m : Map K V) → get j (delete k m) ≡ (if e.beq k j then none else get j m)
  unfolding get delete
  get-delete k j [] = ground arith
  get-delete k j ((i, w) ∷ m) =
      ground (arith, e.beq_iff k j, e.beq_iff i k, e.beq_iff i j, get-delete k j m)

  pub set-IsMap : (k : K) (v : V) (m : Map K V) → IsMap m → IsMap (set k v m)
  unfolding get set
  set-IsMap k v [] h = (refl, tt)
  set-IsMap k v ((i, w) ∷ m) h = elim (Bool-cases (e.beq i k)) [
    | inl same ↦
        let e' = (e.beq_iff i k).0 same in
        rw (same, IsMap) (subst (λ x. get x m ≡ none) e' h.0, h.1)
    | inr other ↦ ground (arith, set-IsMap k v m h.1, get-set k i v m, e.beq_iff i k, e.beq_iff k i)
  ]

  pub delete-IsMap : (k : K) (m : Map K V) → IsMap m → IsMap (delete k m)
  unfolding get delete
  delete-IsMap k [] h = tt
  delete-IsMap k ((i, w) ∷ m) h = ground (arith, delete-IsMap k m h.1, get-delete k i m)
