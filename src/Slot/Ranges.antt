-- ===== src/Slot/Ranges.antt =====
-- SlotRangesFromSlots (pkg/redisutil/slot.go).
use redis_cluster_operator.Common.{
  ℕ, ◌+◌, ◌≤◌, ◌<◌, ◌≡◌, refl, ◌∙◌, Bool, false, ◌&&◌, ◌||◌, List, [], ◌∷◌, leb, u64_mod, has, All,
  arith, sort, IsSortedFrom, sort-IsSorted, has-sort, All-sort,
}
use redis_cluster_operator.Slot.{
  SlotRange, collect_ranges, ranges_of_sorted, slot_ranges_from_slots,
}

-- The slot lies in one of the ranges.
abbrev pub in_ranges : ℕ → List SlotRange → Bool
in_ranges a [] = false
in_ranges a (r ∷ rs) = leb r.min a && leb a r.max || in_ranges a rs

-- The ranges begin at lo or above, ascend, hold a slot each, and leave a gap between them.
abbrev pub IsSeparatedFrom : ℕ → List SlotRange → Type 0
IsSeparatedFrom lo [] = Unit
IsSeparatedFrom lo (r ∷ rs) = (lo ≤ r.min) × (r.min ≤ r.max) × IsSeparatedFrom (r.max + 2) rs

abbrev pub IsSlot : ℕ → Type 0
IsSlot s = s + 1 < u64_mod

in_ranges-collect :
    (a min max : ℕ) (slots : List ℕ)
    → IsSlot max
    → min ≤ max
    → All IsSlot slots
    → IsSortedFrom max slots
    → in_ranges a (collect_ranges min max slots) ≡ (leb min a && leb a max || has a slots)
unfolding collect_ranges
in_ranges-collect a min max [] v h b s = refl
in_ranges-collect a min max (slot ∷ slots) v h b s =
    ground (arith, in_ranges-collect a slot slot slots, in_ranges-collect a min slot slots)

IsSeparatedFrom-collect :
    (lo min max : ℕ) (slots : List ℕ)
    → IsSlot max
    → lo ≤ min
    → min ≤ max
    → All IsSlot slots
    → IsSortedFrom max slots
    → IsSeparatedFrom lo (collect_ranges min max slots)
unfolding collect_ranges
IsSeparatedFrom-collect lo min max [] v l h b s = (l, h, tt)
IsSeparatedFrom-collect lo min max (slot ∷ slots) v l h b s = ground (
  arith,
  IsSeparatedFrom-collect (max + 2) slot slot slots,
  IsSeparatedFrom-collect lo min slot slots,
)

ranges_of_sorted_lem :
    (slots : List ℕ)
    → IsSortedFrom 0 slots
    → All IsSlot slots
    → ((a : ℕ) → in_ranges a (ranges_of_sorted slots) ≡ has a slots)
      × IsSeparatedFrom 0 (ranges_of_sorted slots)
unfolding ranges_of_sorted
ranges_of_sorted_lem [] s h = (λ a. refl, tt)
ranges_of_sorted_lem (x ∷ slots) s h = (
  λ a. in_ranges-collect a x x slots h.0 (omega arith) h.1 s.1 ∙ ground arith,
  IsSeparatedFrom-collect 0 x x slots h.0 (omega arith) (omega arith) h.1 s.1,
)

-- SlotRangesFromSlots keeps the set of slots, for slots below 2^64 - 1: a slot lies in one of the
-- ranges exactly when it is in the slice. The ranges ascend, none is empty, and two neighbours
-- have a gap between them, so that no two could be joined.
pub slot_ranges_from_slots_lem :
    (slots : List ℕ)
    → All IsSlot slots
    → ((a : ℕ) → in_ranges a (slot_ranges_from_slots slots) ≡ has a slots)
      × IsSeparatedFrom 0 (slot_ranges_from_slots slots)
unfolding slot_ranges_from_slots
slot_ranges_from_slots_lem slots h =
    let (same, apart) =
      ranges_of_sorted_lem (sort slots) (sort-IsSorted slots) (All-sort IsSlot slots h) in
    (λ a. same a ∙ has-sort a slots, apart)
