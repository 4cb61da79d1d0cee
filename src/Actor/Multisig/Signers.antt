-- ===== src/Actor/Multisig/Signers.antt =====
-- Lists of signers: appending one, and retaining all but one.
use forest.Base.{
  suc, ◌≡◌, refl, ap, inl, inr, true, false, not, ◌&&◌, ◌||◌, List, [], ◌∷◌, ◌++◌, arith, ◌==◌,
  ==_iff, has, length, Distinct, Bool-cases, length-append,
}
use forest.Actor.Runtime.{Address}
use forest.Actor.Multisig.Defs.{retain}

pub has-snoc : (n a : Address) (xs : List Address) → has n (xs ++ a ∷ []) ≡ (has n xs || (a == n))
has-snoc n a [] = ground arith
has-snoc n a (x ∷ xs) = ground (arith, has-snoc n a xs)

pub Distinct-snoc :
    (a : Address) (xs : List Address) → Distinct xs → has a xs ≡ false → Distinct (xs ++ a ∷ [])
Distinct-snoc a [] d h = (refl, tt)
Distinct-snoc a (x ∷ xs) d h = ground (arith, Distinct-snoc a xs d.1, has-snoc x a xs)

pub length-snoc : (a : Address) (xs : List Address) → length (xs ++ a ∷ []) ≡ suc (length xs)
length-snoc a xs = omega (arith, length-append xs (a ∷ []))

pub has-retain :
    (n a : Address) (xs : List Address) → has n (retain a xs) ≡ (has n xs && not (a == n))
has-retain n a [] = refl
has-retain n a (x ∷ xs) = ground (arith, has-retain n a xs)

pub retain-Distinct : (a : Address) (xs : List Address) → Distinct xs → Distinct (retain a xs)
retain-Distinct a [] d = tt
retain-Distinct a (x ∷ xs) d = ground (arith, retain-Distinct a xs d.1, has-retain x a xs)

length-retain_absent :
    (a : Address) (xs : List Address) → has a xs ≡ false → length (retain a xs) ≡ length xs
length-retain_absent a [] h = refl
length-retain_absent a (x ∷ xs) h = ground (arith, length-retain_absent a xs)

-- Of distinct addresses one goes.
pub length-retain :
    (a : Address) (xs : List Address)
    → Distinct xs
    → has a xs ≡ true
    → suc (length (retain a xs)) ≡ length xs
length-retain a [] d h = absurd (cc)
length-retain a (x ∷ xs) d h = elim (Bool-cases (x == a)) [
  | inl same ↦ ground (arith, length-retain_absent a xs, ap (λ y. has y xs) ((==_iff x a).0 same))
  | inr other ↦ ground (arith, length-retain a xs d.1)
]
