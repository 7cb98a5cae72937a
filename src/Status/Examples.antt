-- ===== src/Status/Examples.antt =====
-- The theorems about the status (pkg/controller/distributedrediscluster/status.go) at one pod.
use mathlib.Core.List.Perm
use redis_cluster_operator.Common.{
  ℕ, Text, true, ◌≤◌, ◌≡◌, refl, some, List, [], ◌∷◌, length, codes, text_eq,
}
use redis_cluster_operator.Node.{Nodes, new_default_node}
use redis_cluster_operator.Clustering.{MapOrder}
use redis_cluster_operator.Status.{ClusterStatus, Pod, build_cluster_status, compare_status, differ}
use redis_cluster_operator.Status.Counters.{summed, slaves_of_pod, has_counter}
use redis_cluster_operator.Status.Factors.{
  masters_of_pod, nodes_of_pod, build_cluster_status_counts,
}
use redis_cluster_operator.Status.Compared.{IsUnchanged, compare_status-IsUnchanged}

abbrev in_order : MapOrder ℕ
in_order = record { range = λ m. m; range_perm = λ m. Perm.refl m }

abbrev redis : Nodes
redis =
    record new_default_node {
      id = codes "a";
      ip = codes "10.0.0.1";
      role = codes "master";
      slots = 1 ∷ 2 ∷ [];
    }
    ∷ []

abbrev pods : List Pod
pods =
    record {
      name = codes "p";
      node_name = codes "h";
      pod_ip = codes "10.0.0.1";
      owner = some (codes "StatefulSet", codes "drc-c-0");
    }
    ∷ []

abbrev empty_status : ClusterStatus
empty_status = record {
  status = codes "Healthy";
  reason = codes "OK";
  number_of_master = 0;
  min_replication_factor = 0;
  max_replication_factor = 0;
  nodes = [];
  restore_phase = [];
}

build_cluster_status_counts_example :
    (let s = build_cluster_status in_order redis pods empty_status in
      (s.number_of_master ≡ summed masters_of_pod redis pods)
      × (length s.nodes ≡ summed nodes_of_pod redis pods)
      × ((id : Text)
          → has_counter id redis pods ≡ true
          → (s.min_replication_factor ≤ summed (slaves_of_pod id) redis pods)
            × (summed (slaves_of_pod id) redis pods ≤ s.max_replication_factor))
      × (s.status ≡ codes "Healthy")
      × (s.reason ≡ codes "OK")
      × (s.restore_phase ≡ []))
build_cluster_status_counts_example = build_cluster_status_counts in_order redis pods empty_status

compare_status-IsUnchanged_example : IsUnchanged empty_status empty_status
unfolding compare_status differ text_eq
compare_status-IsUnchanged_example = compare_status-IsUnchanged empty_status empty_status refl
