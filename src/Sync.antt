-- ===== src/Sync.antt =====
-- pkg/controller/distributedrediscluster/sync_handler.go: syncCluster, which composes the planners of
-- pkg/controller/clustering, and scalingDown. The orders of the maps and of the sorted masters are
-- parameters. `none` is a panic, or a loop that does not end. Log output is left out.
pub mod Removal
mod Examples
use redis_cluster_operator.Common.{
  ℕ, zero, suc, ◌+◌, ◌-◌, Bool, true, false, Option, none, some, List, [], ◌∷◌, ◌++◌, ltb, ◌==◌,
  if◌then◌else◌, length, map, Text, codes, format_uint, Dict, Eq, text_eq_key, lookup,
}
use redis_cluster_operator.Node.{Node, ip_port}
use redis_cluster_operator.Clustering.{Ref, Store, MapOrder}
use redis_cluster_operator.Admin.{
  Call, ResourceKind, stateful_set_kind, service_kind, disruption_budget_kind, claims_kind,
  forget_node_call, remove_connection_call, update_status_call, get_stateful_set_call, delete_call,
  wait_terminating_call, World, Replies, issue, succeeds,
}
use redis_cluster_operator.Clustering.Migration.Feed.{MigrationMap}
use redis_cluster_operator.Clustering.Migration.Dispatch.{Outcome, dispatch_slot_to_new_masters}
use redis_cluster_operator.Clustering.Rebalance.{rebalanced_cluster}
use redis_cluster_operator.Clustering.Rebalance.Alloc.{alloc_slots}
use redis_cluster_operator.Clustering.Placement.{
  Ctx, PlacementError, cluster_stateful_set_name, new_ctx, dispatch_masters, or_nil,
}
use redis_cluster_operator.Clustering.Placement.Slaves.{place_slaves, attaching_slaves_to_master}

-- Why syncCluster fails: a planner found the stateful sets wanting, a call failed, or a node that
-- should go still has slots.
pub data SyncError : Type 0 where
  placement_failed : PlacementError → SyncError
  call_failed : Call → SyncError
  not_empty : Ref → SyncError

abbrev pub SyncOutcome : Type 0
SyncOutcome = World × Option SyncError

-- ClusterHeadlessSvcName: "%s-%d"
unfoldable pub cluster_headless_svc_name : Text → ℕ → Text
cluster_headless_svc_name name i = name ++ b'-' ∷ format_uint i

-- What the runtime and the environment choose: the replies, the orders of the maps, how nodes with
-- equal balances are sorted, and the rounds that RebalancedCluster may take.
pub record Choices : Type 0 where
  pub replies : Replies
  pub nodes_order : MapOrder (List Ref)
  pub masters_order : MapOrder Ref
  pub slots_order : MapOrder (List ℕ)
  pub moves_order : MigrationMap → MigrationMap
  pub sorted : Store → List Ref → List Ref
  pub fuel : ℕ

-- What is read of the resource.
pub record Size : Type 0 where
  pub name : Text
  pub master_size : ℕ
  pub cluster_replicas : ℕ
  pub min_replication_factor : ℕ

-- admin.GetHashMaxSlot() + 1
abbrev pub hash_slots : ℕ
hash_slots = 16384

unfoldable pub to_sync : Option Outcome → Option SyncOutcome
to_sync none = none
to_sync (some (w, none)) = some (w, none)
to_sync (some (w, some call)) = some (w, some (call_failed call))

-- The next step runs when the one before it has not failed.
unfoldable pub and_then : Option SyncOutcome → (World → Option SyncOutcome) → Option SyncOutcome
and_then none k = none
and_then (some (w, some e)) k = some (w, some e)
and_then (some (w, none)) k = k w

-- Deleting what belongs to a stateful set; errors are logged only.
unfoldable pub remove_resources : Text → Text → World → World
remove_resources sts svc w =
    let gone = issue (delete_call stateful_set_kind sts) w in
    let unserved = issue (delete_call service_kind svc) gone in
    let unguarded = issue (delete_call disruption_budget_kind sts) unserved in
    let emptied = issue (delete_call claims_kind sts) unguarded in
    issue (wait_terminating_call sts) emptied

module _ (replies : Replies) where
  -- The loop over the nodes of a stateful set.
  unfoldable pub forget_empty : List Ref → World → SyncOutcome
  forget_empty [] w = (w, none)
  forget_empty (r ∷ rs) w =
      let forget = forget_node_call (w.store r).id in
      let rest = forget_empty rs (issue forget w) in
      if ltb 0 (length (w.store r).slots)
      then (w, some (not_empty r))
      else if succeeds replies forget w
      then rest
      else (issue forget w, some (call_failed forget))

  unfoldable pub finish_removal : Text → Text → SyncOutcome → SyncOutcome
  unfolding remove_resources
  finish_removal sts svc (w, some e) = (w, some e)
  finish_removal sts svc (w, none) = (remove_resources sts svc w, none)

  -- One round of the second loop.
  unfoldable pub remove_set : Text → Dict Text (List Ref) → ℕ → World → SyncOutcome
  unfolding forget_empty finish_removal cluster_stateful_set_name cluster_headless_svc_name
  remove_set name groups i w =
      let sts = cluster_stateful_set_name name i in
      let get = get_stateful_set_call sts in
      let done =
        finish_removal sts (cluster_headless_svc_name name i)
          (forget_empty (or_nil (lookup sts groups)) (issue get w)) in
      if succeeds replies get w then done else (issue get w, some (call_failed get))

  unfoldable pub then_sets : (World → SyncOutcome) → SyncOutcome → SyncOutcome
  then_sets k (w, some e) = (w, some e)
  then_sets k (w, none) = k w

  -- for i := n + expected - 1; i >= expected; i--
  unfoldable pub remove_sets : Text → Dict Text (List Ref) → ℕ → ℕ → World → SyncOutcome
  unfolding remove_set then_sets
  remove_sets name groups expected zero w = (w, none)
  remove_sets name groups expected (suc n) w =
      then_sets (remove_sets name groups expected n) (remove_set name groups (expected + n) w)

  unfoldable pub disconnect : List Ref → World → World
  disconnect [] w = w
  disconnect (r ∷ rs) w = disconnect rs (issue (remove_connection_call (ip_port (w.store r))) w)

  unfoldable pub disconnect_sets : Text → Dict Text (List Ref) → ℕ → ℕ → World → World
  unfolding disconnect cluster_stateful_set_name
  disconnect_sets name groups expected zero w = w
  disconnect_sets name groups expected (suc n) w =
      disconnect_sets name groups expected n
        (disconnect (or_nil (lookup (cluster_stateful_set_name name (expected + n)) groups)) w)

  -- The status is set to rebalancing; whether it was stored is not looked at.
  unfoldable pub scaling_down : Text → ℕ → ℕ → Dict Text (List Ref) → World → SyncOutcome
  unfolding disconnect_sets remove_sets
  scaling_down name current expected groups w =
      remove_sets name groups expected (current - expected)
        (disconnect_sets name groups expected (current - expected) (issue update_status_call w))

module _ (ch : Choices) where
  unfoldable pub get_new_masters : Ctx → List Ref
  get_new_masters c = map (λ e. e.1) (ch.masters_order.range c.new_masters_by_sts)

  attach_placed : Option Ctx → World → Option SyncOutcome
  unfolding to_sync attaching_slaves_to_master
  attach_placed none w = none
  attach_placed (some c) w =
      to_sync (some (attaching_slaves_to_master ch.replies ch.nodes_order c w))

  -- PlaceSlaves and AttachingSlavesToMaster
  unfoldable pub attach_all : Ctx → World → Option SyncOutcome
  unfolding attach_placed place_slaves
  attach_all c w = attach_placed (place_slaves w.store ch.nodes_order c) w

  unfoldable pub scale_down : Size → Ctx → World → Option SyncOutcome
  unfolding and_then to_sync scaling_down get_new_masters
  scale_down size c w =
      let new = get_new_masters c in
      and_then
        (to_sync (
          dispatch_slot_to_new_masters ch.replies ch.slots_order ch.moves_order hash_slots new
            c.current_masters (new ++ c.current_masters) w))
        (λ w'. some (
          scaling_down ch.replies size.name (length c.current_masters) size.master_size c.nodes w'))

  -- The branches of syncCluster, by the current and the new masters.
  unfoldable pub sync_masters : Size → Ctx → List Ref → List Ref → World → Option SyncOutcome
  unfolding attach_all and_then to_sync scale_down
  sync_masters size c [] new w =
      and_then (attach_all c w) (λ w'. to_sync (alloc_slots ch.replies hash_slots new w'))
  sync_masters size c (m ∷ ms) new w =
      let cur = m ∷ ms in
      if ltb (length cur) (length new)
      then and_then (attach_all c w)
          (λ w'. to_sync (rebalanced_cluster ch.fuel ch.replies ch.sorted hash_slots new w'))
      else if ltb size.min_replication_factor size.cluster_replicas
      then attach_all c w
      else if ltb size.master_size (length cur)
      then scale_down size c w
      else some (w, none)

  unfoldable pub sync_dispatched :
      Size → World → Option (Ctx × Option PlacementError) → Option SyncOutcome
  unfolding sync_masters get_new_masters
  sync_dispatched size w none = none
  sync_dispatched size w (some (c, some e)) = some (w, some (placement_failed e))
  sync_dispatched size w (some (c, none)) =
      sync_masters size c c.current_masters (get_new_masters c) w

  -- `cluster` is the map of the redis cluster, and `nodes` its nodes.
  unfoldable pub sync_cluster : Size → Dict Text Ref → List Ref → World → Option SyncOutcome
  unfolding sync_dispatched dispatch_masters new_ctx
  sync_cluster size cluster nodes w =
      sync_dispatched size w
        (dispatch_masters w.store (new_ctx w.store cluster nodes size.master_size size.name))
