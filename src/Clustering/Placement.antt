-- ===== src/Clustering/Placement.antt =====
-- pkg/controller/clustering/placement_v2.go and roles.go: one master for each stateful set, and the
-- slaves of each master. Log output is left out. `none` as an outer result is a panic: an index
-- out of range, or a nil pointer.
pub mod Chosen
pub mod Dispatch
pub mod Masters
pub mod Slaves
pub mod Attached
pub mod Attempts
mod Examples
use redis_cluster_operator.Common.{
  ℕ, zero, suc, ◌+◌, Bool, true, false, ◌&&◌, ◌||◌, not, Option, none, some, List, [], ◌∷◌, ◌++◌,
  ltb, ◌==◌, if◌then◌else◌, Text, codes, text_eq, is_empty, format_uint, Dict, Eq, text_eq_key,
  lookup, insert, map,
}
use redis_cluster_operator.Node.{
  Node, RedisRole, role_master, role_slave, role_none, get_role, total_slots, is_master_with_slot,
  is_slave,
}
use redis_cluster_operator.Clustering.{Ref, Store, MapOrder, append_at}
use redis_cluster_operator.Admin.{Call, attach_slave_call, World, Replies, issue, succeeds}
use redis_cluster_operator.Clustering.Migration.Dispatch.{Outcome}

-- cluster is the map of redisutil.Cluster from an id to the node, which GetNodeByID reads.
pub record Ctx : Type 0 where
  pub expected_master_num : ℕ
  pub cluster_name : Text
  pub cluster : Dict Text Ref
  pub nodes : Dict Text (List Ref)
  pub current_masters : List Ref
  pub new_masters_by_sts : Dict Text Ref
  pub slaves_by_master : Dict Text (List Ref)
  pub best_effort : Bool

pub data PlacementError : Type 0 where
  missing_stateful_set split_brain : (sts_name : Text) → PlacementError

abbrev pub unknown_vm_name : Text
unknown_vm_name = codes "unknown"

-- ClusterStatefulSetName: "drc-%s-%d"
unfoldable pub cluster_stateful_set_name : Text → ℕ → Text
cluster_stateful_set_name name i = codes "drc-" ++ name ++ b'-' ∷ format_uint i

abbrev pub or_nil : {V : Type 0} → Option (List V) → List V
or_nil none = []
or_nil (some xs) = xs

module _ (h : Store) where
  unfoldable pub stateful_set_of : Ref → Text
  stateful_set_of r = if is_empty (h r).stateful_set then unknown_vm_name else (h r).stateful_set

  -- A node that the cluster does not know is skipped.
  unfoldable pub group_node : Option Ref → Ref → Dict Text (List Ref) → Dict Text (List Ref)
  unfolding stateful_set_of append_at
  group_node none r m = m
  group_node (some c) r m = append_at (stateful_set_of c) (r ∷ []) m

  unfoldable pub sort_nodes : Dict Text Ref → List Ref → Dict Text (List Ref) → Dict Text (List Ref)
  unfolding group_node
  sort_nodes cluster [] m = m
  sort_nodes cluster (r ∷ rs) m = sort_nodes cluster rs (group_node (lookup (h r).id cluster) r m)

  unfoldable pub is_known : Option Ref → Bool
  is_known none = false
  is_known (some c) = true

  -- The masters with slots among the nodes that the cluster knows.
  unfoldable pub masters_of : Dict Text Ref → List Ref → List Ref
  unfolding is_known
  masters_of cluster [] = []
  masters_of cluster (r ∷ rs) =
      let rest = masters_of cluster rs in
      if is_known (lookup (h r).id cluster) && is_master_with_slot (h r) then r ∷ rest else rest

  unfoldable pub new_ctx : Dict Text Ref → List Ref → ℕ → Text → Ctx
  new_ctx cluster nodes master_num name = record {
    expected_master_num = master_num;
    cluster_name = name;
    cluster = cluster;
    nodes = sort_nodes cluster nodes [];
    current_masters = masters_of cluster nodes;
    new_masters_by_sts = [];
    slaves_by_master = [];
    best_effort = false;
  }

  -- Nodes.FilterByFunc over pointers.
  unfoldable pub filter_refs : (Node → Bool) → List Ref → List Ref
  filter_refs fn [] = []
  filter_refs fn (r ∷ rs) = let rest = filter_refs fn rs in if fn (h r) then r ∷ rest else rest

  -- GetNodesByFunc finds a master on the same host.
  unfoldable pub hosts_master : List Ref → Ref → Bool
  hosts_master [] r = false
  hosts_master (m ∷ masters) r =
      if text_eq (h m).node_name (h r).node_name then true else hosts_master masters r

  unfoldable pub find_free : List Ref → List Ref → Option Ref
  find_free masters [] = none
  find_free masters (r ∷ rs) = if hosts_master masters r then find_free masters rs else some r

  -- The list of all masters; only which nodes are in it matters, not the order of the map.
  unfoldable pub all_masters : Ctx → List Ref
  all_masters c = c.current_masters ++ map (λ e. e.1) c.new_masters_by_sts

  unfoldable pub first_node : Ctx → List Ref → Option (Ref × Ctx)
  first_node c [] = none
  first_node c (r ∷ rs) = some (r, record c { best_effort = true })

  unfoldable pub placed : Ctx → List Ref → Option Ref → Option (Ref × Ctx)
  unfolding first_node
  placed c nodes (some r) = some (r, c)
  placed c nodes none = first_node c nodes

  unfoldable pub place_masters : Ctx → Text → Option (Ref × Ctx)
  unfolding placed find_free all_masters
  place_masters c ss_name =
      let nodes = or_nil (lookup ss_name c.nodes) in
      placed c nodes (find_free (all_masters c) nodes)

  unfoldable pub set_master : Text → Ref → Ctx → Ctx
  set_master sts_name master c = record c {
    new_masters_by_sts = insert sts_name master c.new_masters_by_sts;
  }

  unfoldable pub set_placed : Text → Option (Ref × Ctx) → Option (Ctx × Option PlacementError)
  unfolding set_master
  set_placed sts_name none = none
  set_placed sts_name (some (m, c)) = some (set_master sts_name m c, none)

  -- The three cases of the number of masters with slots in a stateful set.
  unfoldable pub choose_master : Text → Ctx → List Ref → Option (Ctx × Option PlacementError)
  unfolding set_placed place_masters set_master
  choose_master sts_name c [] = set_placed sts_name (place_masters c sts_name)
  choose_master sts_name c (m ∷ []) = some (set_master sts_name m c, none)
  choose_master sts_name c (m ∷ m' ∷ more) = some (c, some (split_brain sts_name))

  unfoldable pub dispatch_sts :
      Text → Ctx → Option (List Ref) → Option (Ctx × Option PlacementError)
  unfolding choose_master filter_refs
  dispatch_sts sts_name c none = some (c, some (missing_stateful_set sts_name))
  dispatch_sts sts_name c (some nodes) =
      choose_master sts_name c (filter_refs is_master_with_slot nodes)

  unfoldable pub next_sts :
      (Ctx → Option (Ctx × Option PlacementError))
      → Option (Ctx × Option PlacementError)
      → Option (Ctx × Option PlacementError)
  next_sts k none = none
  next_sts k (some (c, some e)) = some (c, some e)
  next_sts k (some (c, none)) = k c

  -- The loop from i on, with n rounds left.
  unfoldable pub dispatch_from : ℕ → ℕ → Ctx → Option (Ctx × Option PlacementError)
  unfolding dispatch_sts next_sts
  dispatch_from zero i c = some (c, none)
  dispatch_from (suc n) i c =
      let sts_name = cluster_stateful_set_name c.cluster_name i in
      next_sts (dispatch_from n (suc i)) (dispatch_sts sts_name c (lookup sts_name c.nodes))

  unfoldable pub dispatch_masters : Ctx → Option (Ctx × Option PlacementError)
  unfolding dispatch_from
  dispatch_masters c = dispatch_from c.expected_master_num 0 c
