-- ===== src/Clustering/Placement/Slaves.antt =====
-- PlaceSlaves (pkg/controller/clustering/placement_v2.go) and AttachingSlavesToMaster (roles.go).
use redis_cluster_operator.Common.{
  Bool, true, false, ◌&&◌, Option, none, some, List, [], ◌∷◌, if◌then◌else◌, Text, text_eq, Dict,
  text_eq_key, lookup,
}
use redis_cluster_operator.Node.{is_slave}
use redis_cluster_operator.Clustering.{Ref, Store, MapOrder, append_at}
use redis_cluster_operator.Clustering.Placement.{Ctx}
use redis_cluster_operator.Admin.{attach_slave_call, World, Replies, issue, succeeds}
use redis_cluster_operator.Clustering.Migration.Dispatch.{Outcome}

module _ (h : Store) where
  -- The body of the inner loop, up to what it appends.
  unfoldable pub is_attached : Ref → Ref → Bool
  is_attached master node = is_slave (h node) && text_eq (h node).master_referent (h master).id

  unfoldable pub place_slave : Ref → Ref → Ctx → Ctx
  unfolding is_attached append_at
  place_slave master node c = if text_eq (h node).ip (h master).ip then c else record c {
    best_effort = if text_eq (h node).node_name (h master).node_name then c.best_effort else false;
    slaves_by_master =
        if is_attached master node
        then c.slaves_by_master
        else append_at (h master).id (node ∷ []) c.slaves_by_master;
  }

  -- `none` is master.IP of a nil pointer.
  unfoldable pub place_group : Option Ref → List Ref → Ctx → Option Ctx
  unfolding place_slave
  place_group master [] c = some c
  place_group none (node ∷ nodes) c = none
  place_group (some master) (node ∷ nodes) c =
      place_group (some master) nodes (place_slave master node c)

  unfoldable pub then_place : (Ctx → Option Ctx) → Option Ctx → Option Ctx
  then_place k none = none
  then_place k (some c) = k c

  unfoldable pub place_groups : Dict Text (List Ref) → Ctx → Option Ctx
  unfolding place_group then_place
  place_groups [] c = some c
  place_groups ((ss_name, nodes) ∷ m) c =
      then_place (place_groups m) (place_group (lookup ss_name c.new_masters_by_sts) nodes c)

  unfoldable pub place_slaves : MapOrder (List Ref) → Ctx → Option Ctx
  unfolding place_groups
  place_slaves order c = place_groups (order.range c.nodes) (record c { best_effort = true })

-- AttachingSlavesToMaster: an error is kept, the last one is returned, and the loop goes on.
module _ (replies : Replies) where
  unfoldable pub attach_slaves : Text → List Ref → Outcome → Outcome
  attach_slaves master_id [] o = o
  attach_slaves master_id (slave ∷ slaves) (w, global_err) =
      let attach = attach_slave_call slave master_id in
      attach_slaves master_id slaves
        (issue attach w, if succeeds replies attach w then global_err else some attach)

  unfoldable pub attach_found : Store → Option Ref → List Ref → Outcome → Outcome
  unfolding attach_slaves
  attach_found h none slaves o = o
  attach_found h (some master) slaves o = attach_slaves (h master).id slaves o

  unfoldable pub attach_groups : Dict Text Ref → Dict Text (List Ref) → Outcome → Outcome
  unfolding attach_found
  attach_groups cluster [] o = o
  attach_groups cluster ((master_id, slaves) ∷ m) o =
      attach_groups cluster m (attach_found o.0.store (lookup master_id cluster) slaves o)

  unfoldable pub attaching_slaves_to_master : MapOrder (List Ref) → Ctx → World → Outcome
  unfolding attach_groups
  attaching_slaves_to_master order c w =
      attach_groups c.cluster (order.range c.slaves_by_master) (w, none)
