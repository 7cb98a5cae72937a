-- ===== src/Clustering/Migration/Examples.antt =====
-- The theorems about migration at a small cluster, and a run of the plan.
use mathlib.Core.List.Perm
use redis_cluster_operator.Common.{
  ℕ, ◌+◌, ◌≡◌, refl, true, ◌&&◌, some, List, [], ◌∷◌, ltb, ◌==◌, if◌then◌else◌, Text, codes,
  text_eq, insert, lookup, sort, count, arith,
}
use redis_cluster_operator.Slot.{contains}
use redis_cluster_operator.Node.{Node, new_default_node, total_slots}
use redis_cluster_operator.Clustering.{Ref, Store, MapOrder}
use redis_cluster_operator.Clustering.Dicts.{held}
use redis_cluster_operator.Clustering.Migration.{
  SlotMap, ceil_div, retrieve_lost_slots, build_slots_by_node,
  build_slot_by_node_from_available_slots, retrieve_slot_to_migrate_from,
  retrieve_slot_to_migrate_from_removed_nodes, slots_to_migrate, take_surplus, assign_slots,
  assign_slot, given,
}
use redis_cluster_operator.Clustering.Migration.Lost.{is_owned, count-retrieve_lost_slots}
use redis_cluster_operator.Clustering.Migration.Fill.{build_slot_by_node_conserves}
use redis_cluster_operator.Clustering.Migration.Plan.{kept, build_slots_by_node_partitions}
use redis_cluster_operator.Clustering.Migration.Removed.{copies}
use redis_cluster_operator.Clustering.Migration.Feed.{Feed, feed_mig_info}
use redis_cluster_operator.Clustering.Migration.Feed.Sound.{IsFeed, feed_mig_info-IsFeed}
use redis_cluster_operator.Clustering.Migration.Dispatch.{
  Outcome, move_slots, dispatch_slot_to_new_masters,
}
use redis_cluster_operator.Clustering.Migration.Dispatch.Books.{MoveBooked, move_slots-MoveBooked}
use redis_cluster_operator.Clustering.Migration.Dispatch.Order.{
  OwnerFirst, dispatch_slot_to_new_masters-OwnerFirst,
}
use redis_cluster_operator.Admin.{World, Replies}

abbrev node : Text → List ℕ → Node
node id slots = record new_default_node { id = id; ip = id; role = codes "master"; slots = slots }

-- Node a has four of nine slots, b three, c one; nobody has slot 6.
abbrev cluster : Store
cluster r =
    if r == 0
    then node (codes "a") (0 ∷ 1 ∷ 2 ∷ 3 ∷ [])
    else if r == 1
    then node (codes "b") (4 ∷ 5 ∷ 7 ∷ [])
    else node (codes "c") (8 ∷ [])

abbrev in_order : MapOrder (List ℕ)
in_order = record { range = λ m. m; range_perm = λ m. Perm.refl m }

abbrev all_nodes : List Ref
all_nodes = 0 ∷ 1 ∷ 2 ∷ []

program : Unit {0}
unfolding retrieve_lost_slots sort contains text_eq insert lookup ceil_div total_slots
    retrieve_slot_to_migrate_from retrieve_slot_to_migrate_from_removed_nodes build_slots_by_node
    build_slot_by_node_from_available_slots slots_to_migrate take_surplus assign_slots assign_slot
    given
program = tt

lost_6 : retrieve_lost_slots cluster all_nodes 9 ≡ 6 ∷ []
unfolding program
lost_6 = refl

-- Scaling down to a and c: the slots of b and the lost one go to a, which has room for one, and to c.
scale_down :
    build_slots_by_node in_order cluster (0 ∷ 2 ∷ []) all_nodes 9
    ≡ some ((codes "a", 4 ∷ []) ∷ (codes "c", 5 ∷ 7 ∷ 6 ∷ []) ∷ [])
unfolding program
scale_down = refl

count-retrieve_lost_slots_example : count 6 (retrieve_lost_slots cluster all_nodes 9) ≡ 1
unfolding is_owned contains
count-retrieve_lost_slots_example =
    count-retrieve_lost_slots cluster all_nodes 9 6 (omega arith) (omega arith) (omega arith)

build_slot_by_node_conserves_example :
    (slot_to_add : SlotMap) × (build_slot_by_node_from_available_slots cluster
        (0 ∷ 2 ∷ [])
        5
        ((codes "b", 4 ∷ 5 ∷ []) ∷ [])
      ≡ some slot_to_add)
    × ((a : ℕ) → held a slot_to_add ≡ held a ((codes "b", 4 ∷ 5 ∷ []) ∷ []))
build_slot_by_node_conserves_example =
    build_slot_by_node_conserves cluster 0 (2 ∷ []) 5 ((codes "b", 4 ∷ 5 ∷ []) ∷ [])

build_slots_by_node_partitions_example :
    (slot_to_add : SlotMap) × (build_slots_by_node in_order cluster (0 ∷ 2 ∷ []) all_nodes 9
      ≡ some slot_to_add)
    × ((a : ℕ)
        → kept cluster a (ceil_div 9 2) (0 ∷ 2 ∷ []) all_nodes + held a slot_to_add
          ≡ (if ltb a 9 && copies cluster a all_nodes == 0 then 1 else copies cluster a all_nodes))
unfolding text_eq
build_slots_by_node_partitions_example =
    build_slots_by_node_partitions in_order cluster 0 (2 ∷ []) all_nodes 9
      ((λ e. cc, (refl, (refl, tt)), (λ e. cc, (refl, tt), (λ e. cc, tt, tt)))) (omega arith)
      (omega arith) (omega arith)

feed_mig_info-IsFeed_example :
    (f : Feed) × (feed_mig_info in_order cluster (0 ∷ 2 ∷ []) all_nodes 9 ≡ some f)
    × ((m : SlotMap) × (build_slots_by_node in_order cluster (0 ∷ 2 ∷ []) all_nodes 9 ≡ some m)
        × IsFeed cluster (0 ∷ 2 ∷ []) all_nodes m f)
feed_mig_info-IsFeed_example = feed_mig_info-IsFeed in_order cluster (0 ∷ 2 ∷ []) all_nodes 9

abbrev at_start : World
at_start = record { store = cluster; calls = [] }

-- Every call succeeds.
abbrev willing : Replies
willing calls = true

move_slots-MoveBooked_example :
    MoveBooked 1 2 (4 ∷ []) cluster (move_slots willing all_nodes 1 2 (4 ∷ []) at_start)
move_slots-MoveBooked_example =
    move_slots-MoveBooked willing all_nodes 1 2 (4 ∷ []) at_start (omega arith)

dispatch_slot_to_new_masters-OwnerFirst_example :
    (o : Outcome) × (dispatch_slot_to_new_masters willing in_order
        (λ m. m)
        9
        (0 ∷ 2 ∷ [])
        all_nodes
        all_nodes
        at_start
      ≡ some o)
    × OwnerFirst cluster o.0.calls
dispatch_slot_to_new_masters-OwnerFirst_example =
    dispatch_slot_to_new_masters-OwnerFirst willing in_order (λ m. m) 9 (0 ∷ 2 ∷ []) all_nodes
      all_nodes cluster
