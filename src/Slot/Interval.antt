-- ===== src/Slot/Interval.antt =====
-- BuildSlotSlice (pkg/redisutil/slot.go).
use redis_cluster_operator.Common.{
  ℕ, zero, suc, ◌+◌, ◌-◌, ◌%◌, ◌<◌, ◌≡◌, refl, ap, ◌∙◌, inl, inr, ◌&&◌, none, some, List, [], ◌∷◌,
  leb, u64_mod, Bool-cases, has, length, arith,
}
use redis_cluster_operator.Slot.{build_slots, build_slot_slice}

-- n numbers in a row.
unfoldable pub interval : ℕ → ℕ → List ℕ
interval s zero = []
interval s (suc n) = s ∷ interval (s + 1) n

pub has-interval : (a s n : ℕ) → has a (interval s n) ≡ (leb s a && leb (a + 1) (s + n))
unfolding interval
has-interval a s zero = ground arith
has-interval a s (suc n) = ground (arith, has-interval a (s + 1) n)

pub length-interval : (s n : ℕ) → length (interval s n) ≡ n
unfolding interval
length-interval s zero = refl
length-interval s (suc n) = ap suc (length-interval (s + 1) n)

build_slots_lem :
    (fuel s max : ℕ)
    → max + 1 < u64_mod
    → max + 1 - s < fuel
    → build_slots fuel s max ≡ some (interval s (max + 1 - s))
unfolding build_slots interval
build_slots_lem zero s max h f = absurd (omega arith)
build_slots_lem (suc fuel) s max h f = elim (Bool-cases (leb s max)) [
  | inl more ↦
      let next : (s + 1) % u64_mod ≡ s + 1 = ground arith in
      let left : max + 1 - s ≡ suc (max + 1 - (s + 1)) = ground arith in
      rw (left)
        (rw (more, build_slots) (rw (next, build_slots_lem fuel (s + 1) max h (ground arith)) refl))
  | inr done ↦ let left : max + 1 - s ≡ 0 = ground arith in rw (left) (rw (done, build_slots) refl)
]

pub build_slot_slice-interval :
    (min max : ℕ)
    → max + 1 < u64_mod
    → build_slot_slice min max ≡ some (interval min (max + 1 - min))
unfolding build_slot_slice
build_slot_slice-interval min max h = build_slots_lem (suc (max + 1 - min)) min max h (omega arith)

-- For a bound below 2^64 - 1 the loop ends, with exactly the slots from min to max, each once.
pub build_slot_slice_total :
    (min max : ℕ)
    → max + 1 < u64_mod
    → (slots : List ℕ) × (build_slot_slice min max ≡ some slots)
      × ((a : ℕ) → has a slots ≡ (leb min a && leb a max))
      × (length slots ≡ max + 1 - min)
build_slot_slice_total min max h = (
  interval min (max + 1 - min),
  build_slot_slice-interval min max h,
  λ a. has-interval a min (max + 1 - min) ∙ ground arith,
  length-interval min (max + 1 - min),
)

-- For the bound 2^64 - 1 the counter wraps before it can pass the bound, so no number of rounds
-- ends the loop.
pub build_slots_diverges : (fuel s : ℕ) → s < u64_mod → build_slots fuel s (u64_mod - 1) ≡ none
unfolding build_slots
build_slots_diverges zero s h = refl
build_slots_diverges (suc fuel) s h = ground (arith, build_slots_diverges fuel ((s + 1) % u64_mod))
