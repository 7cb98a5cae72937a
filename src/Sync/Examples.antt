-- ===== src/Sync/Examples.antt =====
-- scalingDown from four masters to three.
use redis_cluster_operator.Common.{
  zero, suc, true, none, some, List, [], ◌∷◌, Text, codes, text_eq, text_eq_key, Dict, lookup,
  format_uint, ◌≡◌, refl,
}
use redis_cluster_operator.Node.{ip_port, new_default_node}
use redis_cluster_operator.Clustering.{Ref, Store}
use redis_cluster_operator.Clustering.Placement.{cluster_stateful_set_name}
use redis_cluster_operator.Admin.{
  stateful_set_kind, service_kind, disruption_budget_kind, claims_kind, forget_node_call,
  remove_connection_call, update_status_call, get_stateful_set_call, delete_call,
  wait_terminating_call, World, Replies,
}
use redis_cluster_operator.Sync.{not_empty, scaling_down, cluster_headless_svc_name}
use redis_cluster_operator.Sync.Removal.{AllVacated, scaling_down-AllVacated}

abbrev all_accepted : Replies
all_accepted hist = true

-- Node 0 has no slots, and node 1 has one.
abbrev nodes : Store
nodes zero = record new_default_node { id = codes "a" }
nodes (suc n) = record new_default_node { id = codes "b"; slots = 5 ∷ [] }

abbrev start : World
start = record { store = nodes; calls = [] }

abbrev last_set : Text
last_set = codes "drc-drc-3"

abbrev groups : Ref → Dict Text (List Ref)
groups r = (last_set, r ∷ []) ∷ []

empties : scaling_down all_accepted (codes "drc") 4 3 (groups 0) start ≡ (
  record {
    store = nodes;
    calls =
        wait_terminating_call last_set
        ∷ delete_call claims_kind last_set
        ∷ delete_call disruption_budget_kind last_set
        ∷ delete_call service_kind (codes "drc-3")
        ∷ delete_call stateful_set_kind last_set
        ∷ forget_node_call (codes "a")
        ∷ get_stateful_set_call last_set
        ∷ remove_connection_call (codes ":6379")
        ∷ update_status_call
        ∷ [];
  },
  none,
)
unfolding scaling_down cluster_stateful_set_name cluster_headless_svc_name format_uint text_eq
    lookup ip_port
empties = refl

-- A node that has slots stays, and its stateful set too.
stays : (scaling_down all_accepted (codes "drc") 4 3 (groups 1) start).1 ≡ some (not_empty 1)
unfolding scaling_down cluster_stateful_set_name cluster_headless_svc_name format_uint text_eq
    lookup
stays = refl

scaling_down-AllVacated_example :
    let after = (scaling_down all_accepted (codes "drc") 4 3 (groups 0) start).0 in
    (after.store ≡ nodes) × AllVacated all_accepted nodes (codes "drc") (groups 0) 3 after.calls
scaling_down-AllVacated_example =
    scaling_down-AllVacated all_accepted (codes "drc") 4 3 (groups 0) start tt
