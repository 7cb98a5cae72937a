-- ===== src/Status.antt =====
-- pkg/controller/distributedrediscluster/status.go: the status of the custom resource, built from
-- the pods and the redis nodes, and its comparison with the old one. Of the restore status the
-- phase is kept, the only part that is compared. Log output is left out.
pub mod Counters
pub mod Factors
pub mod Compared
mod Examples
use redis_cluster_operator.Common.{
  ℕ, suc, ◌+◌, Bool, true, false, ◌&&◌, ◌||◌, not, Option, none, some, List, [], ◌∷◌, ◌++◌, ltb,
  ◌==◌, if◌then◌else◌, length, map, Text, codes, text_eq, is_empty, Dict, Eq, text_eq_key, lookup,
  insert,
}
use redis_cluster_operator.Clustering.{MapOrder}
use redis_cluster_operator.Slot.{slot_ranges_from_slots, slot_range_string}
use redis_cluster_operator.Node.{
  Node, Nodes, RedisRole, role_master, role_slave, role_none, get_role, is_master_with_slot,
  is_slave, filter_by_func,
}

-- A node of the API; `none` is the empty role.
pub record RedisClusterNode : Type 0 where
  pub id : Text
  pub role : Option RedisRole
  pub ip : Text
  pub port : Text
  pub slots : List Text
  pub master_ref : Text
  pub pod_name : Text
  pub node_name : Text
  pub stateful_set : Text

pub record ClusterStatus : Type 0 where
  pub status : Text
  pub reason : Text
  pub number_of_master : ℕ
  pub min_replication_factor : ℕ
  pub max_replication_factor : ℕ
  pub nodes : List RedisClusterNode
  pub restore_phase : Text

-- corev1.Pod: of the owner references the kind and the name of the first one.
pub record Pod : Type 0 where
  pub name : Text
  pub node_name : Text
  pub pod_ip : Text
  pub owner : Option (Text × Text)

unfoldable pub set_cluster_status : Text → Text → ClusterStatus → ClusterStatus
set_cluster_status status reason s = record s { status = status; reason = reason }

owner_set : Option (Text × Text) → Text
owner_set none = []
owner_set (some (kind, name)) = if text_eq kind (codes "StatefulSet") then name else []

unfoldable pub new_node : Pod → RedisClusterNode
unfolding owner_set
new_node pod = record {
  id = [];
  role = none;
  ip = pod.pod_ip;
  port = [];
  slots = [];
  master_ref = [];
  pod_name = pod.name;
  node_name = pod.node_name;
  stateful_set = owner_set pod.owner;
}

-- The variables of the loop over the pods.
pub record Tally : Type 0 where
  pub nodes : List RedisClusterNode
  pub nb_master : ℕ
  pub nb_slave_by_master : Dict Text ℕ

abbrev pub or_zero : Option ℕ → ℕ
or_zero none = 0
or_zero (some n) = n

unfoldable pub count_master : Node → Tally → Tally
count_master n t =
    if is_master_with_slot n
    then record t {
      nb_master = t.nb_master + 1;
      nb_slave_by_master =
          insert n.id (or_zero (lookup n.id t.nb_slave_by_master)) t.nb_slave_by_master;
    }
    else t

unfoldable pub has_master_ref : Node → Bool
has_master_ref n = is_slave n && not (is_empty n.master_referent)

unfoldable pub count_slave : Node → Tally → Tally
unfolding has_master_ref
count_slave n t =
    if has_master_ref n
    then record t {
      nb_slave_by_master =
          insert n.master_referent (or_zero (lookup n.master_referent t.nb_slave_by_master) + 1)
            t.nb_slave_by_master;
    }
    else t

-- The node of a pod with one redis node.
unfoldable pub describe : Node → RedisClusterNode → RedisClusterNode
unfolding has_master_ref
describe n node = record node {
  id = n.id;
  role = some (get_role n);
  port = n.port;
  master_ref = if has_master_ref n then n.master_referent else [];
  slots = map slot_range_string (slot_ranges_from_slots n.slots);
}

unfoldable pub add_node : RedisClusterNode → Tally → Tally
add_node node t = record t { nodes = t.nodes ++ node ∷ [] }

-- The three cases of the redis nodes with a pod's address.
unfoldable pub tally_nodes : Pod → Nodes → Tally → Tally
unfolding count_master count_slave describe add_node new_node
tally_nodes pod [] t = t
tally_nodes pod (n ∷ []) t = add_node (describe n (new_node pod)) (count_slave n (count_master n t))
tally_nodes pod (n ∷ n' ∷ more) t = add_node (new_node pod) t

unfoldable pub tally_pods : Nodes → List Pod → Tally → Tally
unfolding tally_nodes
tally_pods redis [] t = t
tally_pods redis (pod ∷ pods) t =
    tally_pods redis pods (tally_nodes pod (filter_by_func (λ n. text_eq n.ip pod.pod_ip) redis) t)

-- math.MaxInt32
abbrev pub max_int32 : ℕ
max_int32 = 2147483647

-- The loop over nbSlaveByMaster.
unfoldable pub factors : Dict Text ℕ → ℕ → ℕ → ℕ × ℕ
factors [] low high = (low, high)
factors ((id, counter) ∷ m) low high =
    factors m (if ltb counter low then counter else low)
      (if ltb high counter then counter else high)

unfoldable pub min_factor : Dict Text ℕ → ℕ → ℕ
min_factor [] low = 0
min_factor (e ∷ m) low = low

-- `redis` is clusterInfos.GetNodes().
unfoldable pub build_cluster_status : MapOrder ℕ → Nodes → List Pod → ClusterStatus → ClusterStatus
unfolding tally_pods factors min_factor
build_cluster_status order redis pods old =
    let t = tally_pods redis pods (record { nodes = []; nb_master = 0; nb_slave_by_master = [] }) in
    let f = factors (order.range t.nb_slave_by_master) max_int32 0 in
    record {
      status = old.status;
      reason = old.reason;
      number_of_master = t.nb_master;
      min_replication_factor = min_factor t.nb_slave_by_master f.0;
      max_replication_factor = f.1;
      nodes = t.nodes;
      restore_phase = old.restore_phase;
    }

unfoldable pub role_eq : RedisRole → RedisRole → Bool
role_eq role_master role_master = true
role_eq role_slave role_slave = true
role_eq role_none role_none = true
role_eq _ _ = false

unfoldable pub same_role : Option RedisRole → Option RedisRole → Bool
unfolding role_eq
same_role none none = true
same_role (some a) (some b) = role_eq a b
same_role _ _ = false

unfoldable pub same_slots : List Text → List Text → Bool
same_slots [] [] = true
same_slots (a ∷ xs) (b ∷ ys) = let rest = same_slots xs ys in text_eq a b && rest
same_slots _ _ = false

-- Whether the nodes differ: each test is a CompareStringValue, or the comparison of the slots.
unfoldable pub compare_nodes : RedisClusterNode → RedisClusterNode → Bool
unfolding same_role same_slots
compare_nodes a b =
    not (text_eq a.ip b.ip)
    || not (text_eq a.master_ref b.master_ref)
    || not (text_eq a.pod_name b.pod_name)
    || not (text_eq a.port b.port)
    || not (same_role a.role b.role)
    || not (same_slots a.slots b.slots)

-- The inner loop: a difference, or that no node with the id was found.
unfoldable pub differs_in : RedisClusterNode → List RedisClusterNode → Bool → Bool
unfolding compare_nodes
differs_in a [] found = not found
differs_in a (b ∷ bs) found =
    let rest = differs_in a bs (found || text_eq a.id b.id) in
    if text_eq a.id b.id && compare_nodes a b then true else rest

unfoldable pub differ : List RedisClusterNode → List RedisClusterNode → Bool
unfolding differs_in
differ [] new = false
differ (a ∷ old) new = let rest = differ old new in if differs_in a new false then true else rest

-- Whether the status has changed.
unfoldable pub compare_status : ClusterStatus → ClusterStatus → Bool
unfolding differ
compare_status old new =
    not (text_eq old.status new.status)
    || not (text_eq old.reason new.reason)
    || not (old.number_of_master == new.number_of_master)
    || not (length old.nodes == length new.nodes)
    || not (text_eq old.restore_phase new.restore_phase)
    || differ old.nodes new.nodes
