-- ===== src/Common/Sort.antt =====
-- sort.Sort on numbers: the sorted arrangement is unique, so insertion sort stands for it.
use Prim.Native.Nat.{ℕ, ◌≤◌}
use mathlib.Core.Path.{◌≡◌, refl}
use mathlib.Core.List.{List, [], ◌∷◌}
use native.Mathlib.Omega.{arith}
use redis_cluster_operator.Common.Tests.{if◌then◌else◌, leb, Bool-cases}
use mathlib.Core.Logic.{inl, inr}
use redis_cluster_operator.Common.Lists.{count, has, All}

insert_sorted : ℕ → List ℕ → List ℕ
insert_sorted a [] = a ∷ []
insert_sorted a (x ∷ xs) = let rest = insert_sorted a xs in if leb a x then a ∷ x ∷ xs else x ∷ rest

unfoldable pub sort : List ℕ → List ℕ
unfolding insert_sorted
sort [] = []
sort (x ∷ xs) = insert_sorted x (sort xs)

-- Ascending, from a lower bound on.
abbrev pub IsSortedFrom : ℕ → List ℕ → Type 0
IsSortedFrom lo [] = Unit
IsSortedFrom lo (x ∷ xs) = (lo ≤ x) × IsSortedFrom x xs

IsSortedFrom-insert :
    (lo a : ℕ) (xs : List ℕ) → lo ≤ a → IsSortedFrom lo xs → IsSortedFrom lo (insert_sorted a xs)
unfolding insert_sorted
IsSortedFrom-insert lo a [] h s = (h, tt)
IsSortedFrom-insert lo a (x ∷ xs) h s = ground (arith, IsSortedFrom-insert x a xs)

pub sort-IsSorted : (xs : List ℕ) → IsSortedFrom 0 (sort xs)
unfolding sort
sort-IsSorted [] = tt
sort-IsSorted (x ∷ xs) = IsSortedFrom-insert 0 x (sort xs) (omega arith) (sort-IsSorted xs)

count-insert : (b a : ℕ) (xs : List ℕ) → count b (insert_sorted a xs) ≡ count b (a ∷ xs)
unfolding insert_sorted
count-insert b a [] = refl
count-insert b a (x ∷ xs) = ground (arith, count-insert b a xs)

pub count-sort : (b : ℕ) (xs : List ℕ) → count b (sort xs) ≡ count b xs
unfolding sort
count-sort b [] = refl
count-sort b (x ∷ xs) = ground (arith, count-insert b x (sort xs), count-sort b xs)

has-insert : (b a : ℕ) (xs : List ℕ) → has b (insert_sorted a xs) ≡ has b (a ∷ xs)
unfolding insert_sorted
has-insert b a [] = refl
has-insert b a (x ∷ xs) = ground (arith, has-insert b a xs)

pub has-sort : (b : ℕ) (xs : List ℕ) → has b (sort xs) ≡ has b xs
unfolding sort
has-sort b [] = refl
has-sort b (x ∷ xs) = ground (arith, has-insert b x (sort xs), has-sort b xs)

All-insert {ℓ} :
    (P : ℕ → Type ℓ) (a : ℕ) (xs : List ℕ) → P a → All P xs → All P (insert_sorted a xs)
unfolding insert_sorted
All-insert P a [] p h = (p, tt)
All-insert P a (x ∷ xs) p h = elim (Bool-cases (leb a x)) [
  | inl e ↦ rw e (p, h)
  | inr e ↦ rw e (h.0, All-insert P a xs p h.1)
]

pub All-sort {ℓ} : (P : ℕ → Type ℓ) (xs : List ℕ) → All P xs → All P (sort xs)
unfolding sort
All-sort P [] h = tt
All-sort P (x ∷ xs) h = All-insert P x (sort xs) h.0 (All-sort P xs h.1)
