-- ===== src/Clustering/Migration/Lost.antt =====
-- retrieveLostSlots (pkg/controller/clustering/migration.go).
use redis_cluster_operator.Common.{
  ℕ, zero, suc, ◌+◌, ◌-◌, ◌%◌, ◌<◌, ◌≡◌, refl, ◌∙◌, Bool, false, ◌&&◌, ◌||◌, not, List, [], ◌∷◌,
  ◌++◌, ltb, leb, if◌then◌else◌, u64_mod, has, has-append, has-sort, count, count-append, All,
  All-sort, sort, IsSortedFrom, sort-IsSorted, arith,
}
use redis_cluster_operator.Slot.{contains}
use redis_cluster_operator.Slot.Sets.{contains-has}
use redis_cluster_operator.Slot.Interval.{interval}
use redis_cluster_operator.Clustering.{Ref, Store}
use redis_cluster_operator.Clustering.Migration.{
  full_range, slots_between, gaps, lost_first, lost_slots, retrieve_lost_slots,
}

abbrev once : Bool → ℕ
once b = if b then 1 else 0

count-interval : (a s n : ℕ) → count a (interval s n) ≡ once (leb s a && ltb a (s + n))
unfolding interval
count-interval a s zero = ground arith
count-interval a s (suc n) = ground (arith, count-interval a (s + 1) n)

not-has-below : (a lo : ℕ) (xs : List ℕ) → IsSortedFrom lo xs → a < lo → has a xs ≡ false
not-has-below a lo [] s h = refl
not-has-below a lo (x ∷ xs) s h = ground (arith, not-has-below a x xs)

count-between :
    (a last slot : ℕ)
    → last + 1 < u64_mod
    → count a (slots_between last slot) ≡ once (ltb last a && ltb a slot)
unfolding slots_between
count-between a last slot h =
    let next : (last + 1) % u64_mod ≡ last + 1 = ground arith in
    rw next (count-interval a (last + 1) (slot - (last + 1)) ∙ ground arith)

count-gaps :
    (a last nb_slots : ℕ) (slots : List ℕ)
    → nb_slots < u64_mod
    → last < nb_slots
    → All (λ s. s < nb_slots) slots
    → IsSortedFrom last slots
    → count a (gaps last nb_slots slots) ≡ once (ltb last a && ltb a nb_slots && not (has a slots))
unfolding gaps
count-gaps a last nb_slots [] w l b s = count-between a last nb_slots (omega arith) ∙ ground arith
count-gaps a last nb_slots (slot ∷ slots) w l b s =
    count-append a (slots_between last slot) (gaps slot nb_slots slots)
    ∙ ground (
      arith,
      count-between a last slot,
      count-gaps a slot nb_slots slots w b.0 b.1 s.1,
      not-has-below a slot slots s.1,
    )

count-lost :
    (a nb_slots : ℕ) (slots : List ℕ)
    → nb_slots < u64_mod
    → 0 < nb_slots
    → All (λ s. s < nb_slots) slots
    → IsSortedFrom 0 slots
    → count a (lost_slots slots nb_slots) ≡ once (ltb a nb_slots && not (has a slots))
unfolding lost_slots
count-lost a nb_slots [] w z b s = ground (arith, count-gaps a 0 nb_slots [])
count-lost a nb_slots (x ∷ xs) w z b s =
    count-append a (lost_first (x ∷ xs)) (gaps 0 nb_slots (x ∷ xs))
    ∙ ground (arith, count-gaps a 0 nb_slots (x ∷ xs) w z b s, not-has-below a x xs s.1)

-- Some old master holds the slot.
unfoldable pub is_owned : Store → List Ref → ℕ → Bool
is_owned h [] a = false
is_owned h (node ∷ old) a = contains (h node).slots a || is_owned h old a

-- Every slot of these nodes lies below the number of slots.
abbrev pub SlotsBelow : ℕ → Store → List Ref → Type 0
SlotsBelow nb_slots h [] = Unit
SlotsBelow nb_slots h (node ∷ old) =
    All (λ s. s < nb_slots) (h node).slots × SlotsBelow nb_slots h old

has-full_range : (h : Store) (old : List Ref) (a : ℕ) → has a (full_range h old) ≡ is_owned h old a
unfolding full_range is_owned
has-full_range h [] a = refl
has-full_range h (node ∷ old) a = ground (
  arith,
  has-append a (h node).slots (full_range h old),
  contains-has a (h node).slots,
  has-full_range h old a,
)

All-append :
    (n : ℕ) (xs ys : List ℕ)
    → All (λ s. s < n) xs
    → All (λ s. s < n) ys
    → All (λ s. s < n) (xs ++ ys)
All-append n [] ys h k = k
All-append n (x ∷ xs) ys h k = (h.0, All-append n xs ys h.1 k)

full_range-below :
    (n : ℕ) (h : Store) (old : List Ref) → SlotsBelow n h old → All (λ s. s < n) (full_range h old)
unfolding full_range
full_range-below n h [] b = tt
full_range-below n h (node ∷ old) b = All-append n _ _ b.0 (full_range-below n h old b.1)

-- retrieveLostSlots lists a slot exactly when it is below the number of slots and no old master
-- holds it, and then once; for masters that hold slots below that number only.
pub count-retrieve_lost_slots :
    (h : Store) (old : List Ref) (nb_slots a : ℕ)
    → nb_slots < u64_mod
    → 0 < nb_slots
    → SlotsBelow nb_slots h old
    → count a (retrieve_lost_slots h old nb_slots)
      ≡ (if ltb a nb_slots && not (is_owned h old a) then 1 else 0)
unfolding retrieve_lost_slots
count-retrieve_lost_slots h old nb_slots a w z b =
    count-lost a nb_slots (sort (full_range h old)) w z
      (All-sort (λ s. s < nb_slots) _ (full_range-below nb_slots h old b)) (sort-IsSorted _)
    ∙ rw (has-sort a (full_range h old), has-full_range h old a) refl
