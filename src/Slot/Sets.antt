-- ===== src/Slot/Sets.antt =====
-- AddSlots, RemoveSlots, RemoveSlot, Contains (pkg/redisutil/slot.go).
use redis_cluster_operator.Common.{
  ℕ, ◌+◌, ◌-◌, ◌≡◌, refl, true, false, ◌||◌, List, [], ◌∷◌, ◌++◌, ◌==◌, ltb, if◌then◌else◌, has,
  count, count-append, arith,
}
use redis_cluster_operator.Slot.{contains, remove_slots, remove_slot, add_slots}

pub contains-has : (a : ℕ) (s : List ℕ) → contains s a ≡ has a s
unfolding contains
contains-has a [] = refl
contains-has a (x ∷ s) = ground (arith, contains-has a s)

-- Every copy of a removed slot goes, and every other slot stays as often as it was there.
pub count-remove_slots :
    (a : ℕ) (slots removed : List ℕ)
    → count a (remove_slots slots removed) ≡ (if contains removed a then 0 else count a slots)
unfolding remove_slots
count-remove_slots a [] removed = ground arith
count-remove_slots a (s ∷ slots) removed = ground (arith, count-remove_slots a slots removed)

-- One copy of the slot goes.
pub count-remove_slot :
    (a : ℕ) (slots : List ℕ) (removed : ℕ)
    → count a (remove_slot slots removed) ≡ count a slots - (if removed == a then 1 else 0)
unfolding remove_slot
count-remove_slot a [] removed = ground arith
count-remove_slot a (s ∷ slots) removed = ground (arith, count-remove_slot a slots removed)

contains-snoc :
    (a s : ℕ) (slots : List ℕ) → contains (slots ++ s ∷ []) a ≡ (contains slots a || s == a)
unfolding contains
contains-snoc a s [] = ground arith
contains-snoc a s (x ∷ slots) = ground (arith, contains-snoc a s slots)

pub has-eq-count : (a : ℕ) (xs : List ℕ) → has a xs ≡ ltb 0 (count a xs)
has-eq-count a [] = refl
has-eq-count a (x ∷ xs) = ground (arith, has-eq-count a xs)

count-absent : (a : ℕ) (slots : List ℕ) → contains slots a ≡ false → count a slots ≡ 0
unfolding contains
count-absent a [] h = refl
count-absent a (x ∷ slots) h = ground (arith, count-absent a slots)

-- A slot that was there stays as it was; one that is new comes in once, however often it is added.
pub count-add_slots :
    (a : ℕ) (slots added : List ℕ)
    → count a (add_slots slots added)
      ≡ (if contains slots a then count a slots else if contains added a then 1 else 0)
unfolding add_slots
count-add_slots a slots [] = ground (arith, count-absent a slots)
count-add_slots a slots (s ∷ added) = ground (
  arith,
  count-add_slots a slots added,
  count-add_slots a (slots ++ s ∷ []) added,
  contains-snoc a s slots,
  count-append a slots (s ∷ []),
  count-absent a slots,
)

-- Slots that move from one node to another are neither lost nor doubled: RemoveSlots at the source
-- and AddSlots at the target keep the number of copies of every slot, provided that the source has
-- each slot that moves once and the target does not have it.
pub count-move_slots :
    (a : ℕ) (source target moving : List ℕ)
    → (contains moving a ≡ true → (count a source ≡ 1) × (count a target ≡ 0))
    → count a (remove_slots source moving) + count a (add_slots target moving)
      ≡ count a source + count a target
count-move_slots a source target moving h = ground (
  arith,
  count-remove_slots a source moving,
  count-add_slots a target moving,
  contains-has a target,
  has-eq-count a target,
)
