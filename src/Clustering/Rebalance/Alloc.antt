-- ===== src/Clustering/Rebalance/Alloc.antt =====
-- AllocSlots (pkg/controller/clustering/rebalance.go), with utils.Round (pkg/utils/math.go).
pub mod Bounds
pub mod Deal
use mathlib.Core.Path.{subst}
use native.Mathlib.Nat.{div-mul-le_self, le-div_iff_mul-le, div-lt_iff_lt-mul}
use redis_cluster_operator.Common.{
  ℕ, zero, suc, ◌+◌, ◌-◌, ◌*◌, ◌/◌, ◌≤◌, ◌<◌, ◌≡◌, ◌≢◌, refl, sym, ◌∙◌, ap, Bool, true, false, ◌||◌,
  Option, none, some, List, [], ◌∷◌, ◌++◌, ltb, leb, ◌==◌, if◌then◌else◌, u64_mod, length, has, inl,
  inr, Bool-cases, arith,
}
use redis_cluster_operator.Node.{Node, ip_port}
use redis_cluster_operator.Slot.{build_slot_slice}
use redis_cluster_operator.Slot.Interval.{interval, build_slot_slice-interval}
use redis_cluster_operator.Clustering.{
  Ref, Store, update, update_self, update_ne, with_slots, slots-with_slots,
}
use redis_cluster_operator.Admin.{
  Call, add_slots_call, World, Replies, issue, succeeds, set_node_slots,
}
use redis_cluster_operator.Clustering.Migration.Dispatch.{Outcome, continue_with}
use redis_cluster_operator.Clustering.Rebalance.Totals.{IsDistinct}
use redis_cluster_operator.Clustering.Rebalance.Moves.{OnSuccess, OnSuccess-map}

-- utils.Round(cursor + slotsPerNode - 1) at an index, where cursor = index * slotsPerNode. The
-- quotients are exact here; in the code they are floats, whose errors are far below the distance
-- of the sum from the next half, as no half occurs for 16384 slots and at most as many masters.
-- A negative sum, which the code raises to `first` next, is rounded to 0.
unfoldable pub round_last : ℕ → ℕ → ℕ → ℕ
round_last slots masters index =
    if leb masters ((index + 1) * slots)
    then (2 * ((index + 1) * slots - masters) + masters) / (2 * masters)
    else 0

-- The last slot of the node at an index.
unfoldable pub last_slot : ℕ → ℕ → ℕ → ℕ → ℕ
unfolding round_last
last_slot slots masters index first =
    let last = round_last slots masters index in
    let capped = if ltb slots last || index == masters - 1 then slots - 1 else last in
    if ltb capped first then first else capped

-- node.Slots is written before the call that may fail.
unfoldable pub alloc_node : Replies → Ref → List ℕ → World → Outcome
alloc_node replies node slots w =
    let w' = set_node_slots node slots w in
    let add = add_slots_call (ip_port (w'.store node)) slots in
    (issue add w', if succeeds replies add w' then none else some add)

unfoldable pub alloc_slice : (World → Option Outcome) → Outcome → Option Outcome
alloc_slice k (w, none) = k w
alloc_slice k (w, some failed) = some (w, some failed)

unfoldable pub built : (List ℕ → Option Outcome) → Option (List ℕ) → Option Outcome
built k none = none
built k (some slots) = k slots

module _ (replies : Replies) (slots masters : ℕ) where
  unfoldable pub alloc_from : ℕ → ℕ → List Ref → World → Option Outcome
  unfolding alloc_slice built alloc_node last_slot
  alloc_from index first [] w = some (w, none)
  alloc_from index first (node ∷ nodes) w =
      let last = last_slot slots masters index first in
      built
        (λ own.
          alloc_slice (alloc_from (suc index) (last + 1) nodes) (alloc_node replies node own w))
        (build_slot_slice first last)

-- `slots` is GetHashMaxSlot() + 1; `none` is a loop of BuildSlotSlice that does not end.
unfoldable pub alloc_slots : Replies → ℕ → List Ref → World → Option Outcome
unfolding alloc_from
alloc_slots replies slots new w = alloc_from replies slots (length new) 0 0 new w
