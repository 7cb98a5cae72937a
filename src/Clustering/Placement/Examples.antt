-- ===== src/Clustering/Placement/Examples.antt =====
-- The theorems about placement (pkg/controller/clustering/placement_v2.go) at a small cluster.
use mathlib.Core.List.Perm
use redis_cluster_operator.Common.{
  ℕ, ◌≡◌, refl, true, false, Option, none, some, List, [], ◌∷◌, ◌==◌, if◌then◌else◌, Text, codes,
  text_eq, lookup, text_eq_key, arith, Dict,
}
use redis_cluster_operator.Node.{Node, new_default_node}
use redis_cluster_operator.Clustering.{Ref, Store, MapOrder}
use redis_cluster_operator.Clustering.Placement.{
  Ctx, PlacementError, new_ctx, dispatch_masters, place_masters,
}
use redis_cluster_operator.Clustering.Placement.Chosen.{IsPlaced, place_masters-IsPlaced}
use redis_cluster_operator.Clustering.Placement.Masters.{Dispatched, dispatch_masters-Dispatched}
use redis_cluster_operator.Clustering.Placement.Slaves.{place_slaves, attaching_slaves_to_master}
use redis_cluster_operator.Clustering.Placement.Attempts.{
  IsTried, attempts, attaching_slaves_to_master-IsTried,
}
use redis_cluster_operator.Clustering.Placement.Attached.{
  Placed, wanted, all_mastered, place_slaves-Placed,
}

abbrev pod : Text → Text → Text → List ℕ → Node
pod id sts host slots = record new_default_node {
  id = id;
  ip = id;
  role = codes "master";
  slots = slots;
  stateful_set = sts;
  node_name = host;
}

-- Two stateful sets: the first has a master with slots, the second has none yet.
abbrev pods : Store
pods r =
    if r == 0
    then pod (codes "a") (codes "drc-c-0") (codes "h1") (1 ∷ [])
    else if r == 1
    then pod (codes "b") (codes "drc-c-1") (codes "h1") []
    else pod (codes "d") (codes "drc-c-1") (codes "h2") []

abbrev known : Dict Text Ref
known = (codes "a", 0) ∷ (codes "b", 1) ∷ (codes "d", 2) ∷ []

abbrev all_pods : List Ref
all_pods = 0 ∷ 1 ∷ 2 ∷ []

dispatch_masters-Dispatched_example :
    (t : Ctx × Option PlacementError) × (dispatch_masters pods
        (new_ctx pods known all_pods 2 (codes "c"))
      ≡ some t)
    × Dispatched pods 2 0 (new_ctx pods known all_pods 2 (codes "c")) t
dispatch_masters-Dispatched_example = dispatch_masters-Dispatched pods known all_pods 2 (codes "c")

-- The context in which the second stateful set gets its master.
abbrev placing : Ctx
placing = record {
  expected_master_num = 2;
  cluster_name = codes "c";
  cluster = known;
  nodes = (codes "drc-c-1", 1 ∷ 2 ∷ []) ∷ [];
  current_masters = 0 ∷ [];
  new_masters_by_sts = (codes "drc-c-1", 2) ∷ [];
  slaves_by_master = [];
  best_effort = false;
}

place_masters-IsPlaced_example :
    (r : Ref × Ctx) × (place_masters pods placing (codes "drc-c-1") ≡ some r)
    × IsPlaced pods placing (1 ∷ 2 ∷ []) r.0 r.1
unfolding lookup text_eq
place_masters-IsPlaced_example =
    place_masters-IsPlaced pods placing (codes "drc-c-1") (1 ∷ 2 ∷ []) refl (omega arith)

abbrev in_order : MapOrder (List ℕ)
in_order = record { range = λ m. m; range_perm = λ m. Perm.refl m }

place_slaves-Placed_example :
    Placed pods
      (λ id a. wanted pods id a placing.new_masters_by_sts placing.nodes)
      (all_mastered pods placing.new_masters_by_sts placing.nodes)
      placing
      (place_slaves pods in_order placing)
place_slaves-Placed_example = place_slaves-Placed pods in_order placing

abbrev attaching : Ctx
attaching = record placing { slaves_by_master = (codes "d", 1 ∷ []) ∷ [] }

attaching_slaves_to_master-IsTried_example :
    IsTried
      (λ calls. true)
      (attempts pods known (in_order.range attaching.slaves_by_master))
      (record { store = pods; calls = [] }, none)
      (attaching_slaves_to_master
        (λ calls. true)
        in_order
        attaching
        (record { store = pods; calls = [] }))
attaching_slaves_to_master-IsTried_example =
    attaching_slaves_to_master-IsTried (λ calls. true) in_order attaching
      (record { store = pods; calls = [] })
