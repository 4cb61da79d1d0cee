-- ===== src/BitField/Bits.antt =====
-- Sets of bits as `AHashSet<usize>` keeps them, in any order and without repetition, and `sort`.
pub use forest.Base.{has, Distinct}
use forest.Base.{
  ℕ, suc, ◌≤◌, ◌≡◌, refl, ◌∙◌, true, false, not, ◌&&◌, ◌||◌, List, [], ◌∷◌, arith, leb, ◌==◌,
  if◌then◌else◌,
}

-- `HashSet::insert`
abbrev pub insert : ℕ → List ℕ → List ℕ
insert n xs = if has n xs then xs else n ∷ xs

-- `HashSet::remove`
abbrev pub remove : ℕ → List ℕ → List ℕ
remove n [] = []
remove n (x ∷ xs) = let rest = remove n xs in if x == n then rest else x ∷ rest

-- Every number is below a bound.
abbrev pub Below : ℕ → List ℕ → Type 0
Below m [] = Unit {0}
Below m (x ∷ xs) = (suc x ≤ m) × Below m xs

-- Strictly ascending, from a bound on.
abbrev pub Strict : ℕ → List ℕ → Type 0
Strict b [] = Unit {0}
Strict b (x ∷ xs) = (b ≤ x) × Strict (suc x) xs

pub insert_sorted : ℕ → List ℕ → List ℕ
insert_sorted x [] = x ∷ []
insert_sorted x (y ∷ ys) = if leb x y then x ∷ y ∷ ys else y ∷ insert_sorted x ys

-- `sort_unstable`
unfoldable pub sort : List ℕ → List ℕ
unfolding insert_sorted
sort [] = []
sort (x ∷ xs) = insert_sorted x (sort xs)

pub has-insert : (n b : ℕ) (xs : List ℕ) → has n (insert b xs) ≡ ((b == n) || has n xs)
has-insert n b xs = ground arith

pub has-remove : (n b : ℕ) (xs : List ℕ) → has n (remove b xs) ≡ (not (b == n) && has n xs)
has-remove n b [] = ground arith
has-remove n b (x ∷ xs) = ground (arith, has-remove n b xs)

pub insert-Distinct : (b : ℕ) (xs : List ℕ) → Distinct xs → Distinct (insert b xs)
insert-Distinct b xs d = ground arith

pub remove-Distinct : (b : ℕ) (xs : List ℕ) → Distinct xs → Distinct (remove b xs)
remove-Distinct b [] d = tt
remove-Distinct b (x ∷ xs) d = ground (arith, remove-Distinct b xs d.1, has-remove x b xs)

pub insert-Below : (m b : ℕ) (xs : List ℕ) → suc b ≤ m → Below m xs → Below m (insert b xs)
insert-Below m b xs l h = ground arith

has-Below : (m b : ℕ) (xs : List ℕ) → Below m xs → has b xs ≡ true → suc b ≤ m
has-Below m b [] h e = absurd (ground arith)
has-Below m b (x ∷ xs) h e = ground (arith, has-Below m b xs h.1)

-- A number that has been inserted below a bound is below it.
pub Below-insert : (m b : ℕ) (xs : List ℕ) → Below m (insert b xs) → suc b ≤ m
Below-insert m b xs h = has-Below m b (insert b xs) h (ground (arith, has-insert b b xs))

pub remove-Below : (m b : ℕ) (xs : List ℕ) → Below m xs → Below m (remove b xs)
remove-Below m b [] h = tt
remove-Below m b (x ∷ xs) h = ground (arith, remove-Below m b xs h.1)

has-insert_sorted : (n x : ℕ) (ys : List ℕ) → has n (insert_sorted x ys) ≡ ((x == n) || has n ys)
unfolding insert_sorted
has-insert_sorted n x [] = refl
has-insert_sorted n x (y ∷ ys) = ground (arith, has-insert_sorted n x ys)

pub has-sort : (n : ℕ) (xs : List ℕ) → has n (sort xs) ≡ has n xs
unfolding sort
has-sort n [] = refl
has-sort n (x ∷ xs) = ground (arith, has-insert_sorted n x (sort xs), has-sort n xs)

insert_sorted-Strict :
    (b x : ℕ) (ys : List ℕ) → b ≤ x → has x ys ≡ false → Strict b ys → Strict b (insert_sorted x ys)
unfolding insert_sorted
insert_sorted-Strict b x [] l h s = (l, tt)
insert_sorted-Strict b x (y ∷ ys) l h s = ground (arith, insert_sorted-Strict (suc y) x ys)

pub sort-Strict : (xs : List ℕ) → Distinct xs → Strict 0 (sort xs)
unfolding sort
sort-Strict [] d = tt
sort-Strict (x ∷ xs) d =
    insert_sorted-Strict 0 x (sort xs) (omega arith) (has-sort x xs ∙ d.0) (sort-Strict xs d.1)

insert_sorted-Below :
    (m x : ℕ) (ys : List ℕ) → suc x ≤ m → Below m ys → Below m (insert_sorted x ys)
unfolding insert_sorted
insert_sorted-Below m x [] l h = (l, tt)
insert_sorted-Below m x (y ∷ ys) l h = ground (arith, insert_sorted-Below m x ys l h.1)

pub sort-Below : (m : ℕ) (xs : List ℕ) → Below m xs → Below m (sort xs)
unfolding sort
sort-Below m [] h = tt
sort-Below m (x ∷ xs) h = insert_sorted-Below m x (sort xs) h.0 (sort-Below m xs h.1)
