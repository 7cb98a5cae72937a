-- ===== src/Clustering/Migration/Fill.antt =====
-- buildSlotByNodeFromAvailableSlots (pkg/controller/clustering/migration.go).
use redis_cluster_operator.Common.{
  ℕ, zero, suc, ◌+◌, ◌<◌, ◌≡◌, refl, Option, some, List, [], ◌∷◌, length, get_elem?, count, arith,
  text_eq_key,
}
use redis_cluster_operator.Clustering.{Ref, Store}
use redis_cluster_operator.Clustering.Dicts.{held, held-append_at}
use redis_cluster_operator.Clustering.Migration.{
  SlotMap, Filling, given, node_to_fill, assign_slot, assign_slots, assign_map, start,
  build_slot_by_node_from_available_slots,
}

get_elem?-of_lt : (rs : List Ref) (i : ℕ) → i < length rs → (r : Ref) × (get_elem? rs i ≡ some r)
get_elem?-of_lt [] i h = elim h [ ]
get_elem?-of_lt (r ∷ rs) zero h = (r, refl)
get_elem?-of_lt (r ∷ rs) (suc i) h = get_elem?-of_lt rs i (omega arith)

module _ (h : Store) (new : List Ref) (nb : ℕ) where
  node_to_fill-lt : (f : Filling) → f.id_node < length new → node_to_fill h new nb f < length new
  unfolding node_to_fill
  node_to_fill-lt f l = ground arith

  -- What a step of the loop owes: no index out of range, and the slots that were handed out are
  -- there beside the new ones.
  abbrev Handed : (ℕ → ℕ) → Filling → Option Filling → Type 0
  Handed more f r =
      (f' : Filling) × (r ≡ some f')
      × (f'.id_node < length new)
      × ((a : ℕ) → held a f'.slot_to_add_by_node ≡ held a f.slot_to_add_by_node + more a)

  assign_slot-Handed :
      (slot : ℕ) (f : Filling)
      → f.id_node < length new
      → Handed (λ a. count a (slot ∷ [])) f (assign_slot h new nb slot f)
  unfolding assign_slot
  assign_slot-Handed slot f l =
      let i = node_to_fill h new nb f in
      let (node, e) = get_elem?-of_lt new i (node_to_fill-lt f l) in
      (
        given h new nb node i slot f,
        rw e refl,
        unfold given in node_to_fill-lt f l,
        λ a. unfold given in held-append_at a (h node).id (slot ∷ []) f.slot_to_add_by_node,
      )

  assign_slots-Handed :
      (slots : List ℕ) (f : Filling)
      → f.id_node < length new
      → Handed (λ a. count a slots) f (assign_slots h new nb slots f)
  unfolding assign_slots
  assign_slots-Handed [] f l = (f, refl, l, λ a. omega arith)
  assign_slots-Handed (slot ∷ slots) f l =
      let (f', e, l', c) = assign_slot-Handed slot f l in
      let (f'', e', l'', c') = assign_slots-Handed slots f' l' in
      (f'', rw e e', l'', λ a. ground (arith, c a, c' a))

  assign_map-Handed :
      (m : SlotMap) (f : Filling)
      → f.id_node < length new
      → Handed (λ a. held a m) f (assign_map h new nb m f)
  unfolding assign_map held
  assign_map-Handed [] f l = (f, refl, l, λ a. omega arith)
  assign_map-Handed ((id, slots) ∷ m) f l =
      let (f', e, l', c) = assign_slots-Handed slots f l in
      let (f'', e', l'', c') = assign_map-Handed m f' l' in
      (f'', rw e e', l'', λ a. omega (arith, c a, c' a))

-- With a new master at hand buildSlotByNodeFromAvailableSlots never indexes out of range, and it
-- hands out each slot exactly as often as the map of the slots to migrate holds it.
pub build_slot_by_node_conserves :
    (h : Store) (r : Ref) (rs : List Ref) (nb_slot_by_node : ℕ) (slot_to_migrate : SlotMap)
    → (slot_to_add : SlotMap) × (build_slot_by_node_from_available_slots h
          (r ∷ rs)
          nb_slot_by_node
          slot_to_migrate
        ≡ some slot_to_add)
      × ((a : ℕ) → held a slot_to_add ≡ held a slot_to_migrate)
unfolding build_slot_by_node_from_available_slots
build_slot_by_node_conserves h r rs nb_slot_by_node slot_to_migrate =
    let (f, e, l, c) =
      assign_map-Handed h (r ∷ rs) nb_slot_by_node slot_to_migrate (start h (r ∷ rs))
        (omega arith) in
    (f.slot_to_add_by_node, rw e refl, λ a. unfold held in omega (arith, c a))
