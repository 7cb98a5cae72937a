-- ===== src/Clustering/Migration.antt =====
-- pkg/controller/clustering/migration.go: which slots move from which master to which.
-- `order` is the order in which the runtime visits a map. Log output is left out.
pub mod Lost
pub mod Fill
pub mod Surplus
pub mod Removed
pub mod Plan
pub mod Feed
pub mod Dispatch
mod Examples
use redis_cluster_operator.Common.{
  ℕ, zero, suc, ◌+◌, ◌-◌, ◌*◌, ◌/◌, ◌%◌, ◌<◌, Bool, true, false, ◌&&◌, not, Option, none, some,
  List, [], ◌∷◌, ◌++◌, ltb, leb, ◌==◌, if◌then◌else◌, u64_mod, length, get_elem?, take, drop, Text,
  text_eq, sort, Dict, insert, map, Eq, text_eq_key, ◌↔◌, ◌≡◌,
}
use redis_cluster_operator.Node.{Node, total_slots}
use redis_cluster_operator.Slot.{contains}
use redis_cluster_operator.Slot.Interval.{interval}
use redis_cluster_operator.Clustering.{Ref, Store, find_ref, MapOrder, append_at}

abbrev pub SlotMap : Type 0
SlotMap = Dict Text (List ℕ)

-- int(math.Ceil(float64(nbSlots) / float64(nbNode))): for numbers far below 2^26 the rounding of
-- the quotient never reaches the next integer, so this is the ceiling of the exact quotient.
unfoldable pub ceil_div : ℕ → ℕ → ℕ
ceil_div n d = (n + (d - 1)) / d

module _ (h : Store) where
  -- The body of the loop: what the node holds past the first slots is to migrate.
  unfoldable pub take_surplus : ℕ → Ref → SlotMap → SlotMap
  take_surplus nb_slot_by_node node m =
      let rest = drop nb_slot_by_node (h node).slots in
      if leb nb_slot_by_node (total_slots (h node)) && ltb 0 (length rest)
      then append_at (h node).id rest m
      else m

  unfoldable pub retrieve_slot_to_migrate_from : List Ref → ℕ → SlotMap → SlotMap
  retrieve_slot_to_migrate_from [] nb_slot_by_node m = m
  retrieve_slot_to_migrate_from (node ∷ old) nb_slot_by_node m =
      retrieve_slot_to_migrate_from old nb_slot_by_node (take_surplus nb_slot_by_node node m)

  -- The inner loop: the old node is among the new masters, by its id.
  unfoldable pub is_present : List Ref → Ref → Bool
  is_present [] old = false
  is_present (new ∷ rest) old = if text_eq (h old).id (h new).id then true else is_present rest old

  unfoldable pub removed_nodes : List Ref → List Ref → List Ref
  unfolding is_present
  removed_nodes new [] = []
  removed_nodes new (node ∷ old) =
      let rest = removed_nodes new old in if is_present new node then rest else node ∷ rest

  take_all_slots : List Ref → SlotMap → SlotMap
  take_all_slots [] m = m
  take_all_slots (node ∷ removed) m = take_all_slots removed (insert (h node).id (h node).slots m)

  unfoldable pub retrieve_slot_to_migrate_from_removed_nodes : List Ref → List Ref → SlotMap
  unfolding removed_nodes take_all_slots
  retrieve_slot_to_migrate_from_removed_nodes new old = take_all_slots (removed_nodes new old) []

  full_range : List Ref → List ℕ
  full_range [] = []
  full_range (node ∷ old) = (h node).slots ++ full_range old

-- `for i := last + 1; i < slot; i++`
slots_between : ℕ → ℕ → List ℕ
unfolding interval
slots_between last slot = let first = (last + 1) % u64_mod in interval first (slot - first)

-- The loops of retrieveLostSlots over the sorted slots, and the one behind them.
gaps : ℕ → ℕ → List ℕ → List ℕ
unfolding slots_between
gaps last nb_slots [] = slots_between last nb_slots
gaps last nb_slots (slot ∷ slots) = slots_between last slot ++ gaps slot nb_slots slots

lost_first : List ℕ → List ℕ
lost_first [] = 0 ∷ []
lost_first (slot ∷ slots) = if slot == 0 then [] else 0 ∷ []

unfoldable pub lost_slots : List ℕ → ℕ → List ℕ
unfolding gaps lost_first
lost_slots sorted nb_slots = lost_first sorted ++ gaps 0 nb_slots sorted

unfoldable pub retrieve_lost_slots : Store → List Ref → ℕ → List ℕ
unfolding full_range lost_slots
retrieve_lost_slots h old nb_slots = lost_slots (sort (full_range h old)) nb_slots

-- The variables of the loop of buildSlotByNodeFromAvailableSlots.
pub record Filling : Type 0 where
  pub id_node : ℕ
  pub slot_of_node : List (List ℕ)
  pub slot_to_add_by_node : SlotMap

-- len(slotOfNode[i]), and slotOfNode[i] = append(slotOfNode[i], slot)
unfoldable pub filled : List (List ℕ) → ℕ → ℕ
filled [] i = 0
filled (slots ∷ more) zero = length slots
filled (slots ∷ more) (suc i) = filled more i

unfoldable pub append_nth : List (List ℕ) → ℕ → ℕ → List (List ℕ)
append_nth [] i slot = []
append_nth (slots ∷ more) zero slot = (slots ++ slot ∷ []) ∷ more
append_nth (slots ∷ more) (suc i) slot = slots ∷ append_nth more i slot

module _ (h : Store) (new : List Ref) (nb_slot_by_node : ℕ) where
  unfoldable pub given : Ref → ℕ → ℕ → Filling → Filling
  unfolding append_nth append_at
  given node i slot f = record {
    id_node = i;
    slot_of_node = append_nth f.slot_of_node i slot;
    slot_to_add_by_node = append_at (h node).id (slot ∷ []) f.slot_to_add_by_node;
  }

  -- `none` is an index out of range.
  give_slot : Option Ref → ℕ → ℕ → Filling → Option Filling
  give_slot none i slot f = none
  give_slot (some node) i slot f = some (given node i slot f)

  -- The node to fill: the current one while it misses slots, and then the next, if there is one.
  unfoldable pub node_to_fill : Filling → ℕ
  unfolding filled
  node_to_fill f =
      if ltb (filled f.slot_of_node f.id_node) nb_slot_by_node
      then f.id_node
      else if ltb (length new - 1) (f.id_node + 1)
      then f.id_node
      else f.id_node + 1

  unfoldable pub assign_slot : ℕ → Filling → Option Filling
  unfolding give_slot node_to_fill
  assign_slot slot f = let i = node_to_fill f in give_slot (get_elem? new i) i slot f

  assign_next : (Filling → Option Filling) → Option Filling → Option Filling
  assign_next k none = none
  assign_next k (some f) = k f

  unfoldable pub assign_slots : List ℕ → Filling → Option Filling
  unfolding assign_next
  assign_slots [] f = some f
  assign_slots (slot ∷ slots) f = assign_next (assign_slots slots) (assign_slot slot f)

  unfoldable pub assign_map : SlotMap → Filling → Option Filling
  unfolding assign_next
  assign_map [] f = some f
  assign_map ((id, slots) ∷ m) f = assign_next (assign_map m) (assign_slots slots f)

start : Store → List Ref → Filling
start h new = record {
  id_node = 0;
  slot_of_node = map (λ r. (h r).slots) new;
  slot_to_add_by_node = [];
}

added : Option Filling → Option SlotMap
added none = none
added (some f) = some f.slot_to_add_by_node

-- `slot_to_migrate` in the order in which the runtime visits it.
unfoldable pub build_slot_by_node_from_available_slots :
    Store → List Ref → ℕ → SlotMap → Option SlotMap
unfolding added start assign_map
build_slot_by_node_from_available_slots h [] nb_slot_by_node slot_to_migrate = some []
build_slot_by_node_from_available_slots h (r ∷ rs) nb_slot_by_node slot_to_migrate =
    added (assign_map h (r ∷ rs) nb_slot_by_node slot_to_migrate (start h (r ∷ rs)))

put_all : SlotMap → SlotMap → SlotMap
put_all [] m = m
put_all ((id, slots) ∷ more) m = put_all more (insert id slots m)

module _ (order : MapOrder (List ℕ)) (h : Store) where
  -- The slots to be given away: the surplus of each old master, all slots of one that is removed,
  -- and under the empty id the slots that no old master holds.
  unfoldable pub slots_to_migrate : List Ref → List Ref → ℕ → ℕ → SlotMap
  unfolding put_all
  slots_to_migrate new old nb_slots nb_slot_by_node =
      let surplus = retrieve_slot_to_migrate_from h old nb_slot_by_node [] in
      let deleted = retrieve_slot_to_migrate_from_removed_nodes h new old in
      insert [] (retrieve_lost_slots h old nb_slots) (put_all (order.range deleted) surplus)

  unfoldable pub build_slots_by_node : List Ref → List Ref → ℕ → Option SlotMap
  build_slots_by_node [] old nb_slots = some []
  build_slots_by_node (r ∷ rs) old nb_slots =
      let new = r ∷ rs in
      let nb_slot_by_node = ceil_div nb_slots (length new) in
      build_slot_by_node_from_available_slots h new nb_slot_by_node
        (order.range (slots_to_migrate new old nb_slots nb_slot_by_node))
