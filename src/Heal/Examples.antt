-- ===== src/Heal/Examples.antt =====
-- The theorems about repairs (pkg/controller/heal) at small views.
use mathlib.Core.List.Perm
use redis_cluster_operator.Common.{
  ◌≡◌, ◌⊎◌, refl, true, false, some, List, [], ◌∷◌, ltb, length, All, ◌≤◌, codes, Text, text_eq,
}
use redis_cluster_operator.Node.{
  Node, Nodes, new_default_node, ip_port, text_mem, status_fail, status_handshake,
}
use redis_cluster_operator.Clustering.{MapOrder}
use redis_cluster_operator.Admin.{World, Replies}
use redis_cluster_operator.Heal.{
  Infos, overlaps, build_clusters_lists, split_main_cluster, fix_cluster_split,
}
use redis_cluster_operator.Heal.Split.{
  IsSeparated, IsSplit, build_clusters_lists-IsSeparated, split_main_cluster-IsSplit,
}
use redis_cluster_operator.Heal.Reassign.{IsReassigned, fix_cluster_split-IsReassigned}
use redis_cluster_operator.Heal.Ghosts.{
  Repaired, fix_failed_nodes, IsForgotten, fix_failed_nodes-IsForgotten,
}
use redis_cluster_operator.Heal.Untrusted.{Pod, fix_untrusted_nodes, get_nodes}
use redis_cluster_operator.Heal.Untrusted.Justified.{AllJustified, fix_untrusted_nodes-AllJustified}

abbrev member : Text → List Text → Node
member ip flags = record new_default_node { id = ip; ip = ip; fail_status = flags; pod_name = ip }

-- Two nodes that know each other, and a third that knows a failed node and one in handshake.
abbrev views : Infos
views =
    (
      codes "x",
      some (record { node = some (member (codes "x") []); friends = member (codes "y") [] ∷ [] }),
    )
    ∷ (
      codes "y",
      some (record { node = some (member (codes "y") []); friends = member (codes "x") [] ∷ [] }),
    )
    ∷ (
      codes "z",
      some (record {
        node = some (member (codes "z") []);
        friends =
            member (codes "f") (status_fail ∷ []) ∷ member (codes "u") (status_handshake ∷ []) ∷ [];
      }),
    )
    ∷ []

abbrev at_start : World
at_start = record { store = λ r. new_default_node; calls = [] }

abbrev willing : Replies
willing calls = true

abbrev in_order : {V : Type 0} → MapOrder V
in_order = record { range = λ m. m; range_perm = λ m. Perm.refl m }

program : Unit {0}
unfolding build_clusters_lists split_main_cluster ip_port text_eq overlaps text_mem
program = tt

-- The views show two clusters, and the first one is the main one.
two_clusters :
    build_clusters_lists views ≡ (codes "y:6379" ∷ codes "x:6379" ∷ []) ∷ (codes "z:6379" ∷ []) ∷ []
unfolding program
two_clusters = refl

build_clusters_lists-IsSeparated_example : IsSeparated (build_clusters_lists views)
build_clusters_lists-IsSeparated_example = build_clusters_lists-IsSeparated views

fix_cluster_split-IsReassigned_example :
    ((fix_cluster_split willing false views at_start).0
      ≡ ltb 1 (length (build_clusters_lists views)))
    × ((false ≡ true) ⊎ ((fix_cluster_split willing false views at_start).0 ≡ false)
        → (fix_cluster_split willing false views at_start).1 ≡ at_start)
    × IsReassigned
        (split_main_cluster (build_clusters_lists views)).0
        at_start
        (fix_cluster_split willing false views at_start).1
fix_cluster_split-IsReassigned_example = fix_cluster_split-IsReassigned willing false views at_start

split_main_cluster-IsSplit_example :
    (let s = split_main_cluster (build_clusters_lists views) in
      (All (λ c. length c ≤ 0) (build_clusters_lists views) × (length s.0 ≡ 0))
      ⊎ IsSplit (build_clusters_lists views) s.0 s.1)
split_main_cluster-IsSplit_example = split_main_cluster-IsSplit (build_clusters_lists views)

fix_failed_nodes-IsForgotten_example :
    (r : Repaired) × (fix_failed_nodes willing in_order false (codes "x" ∷ []) views at_start
      ≡ some r)
    × IsForgotten in_order false (codes "x" ∷ []) views at_start r
fix_failed_nodes-IsForgotten_example =
    fix_failed_nodes-IsForgotten willing in_order false (codes "x" ∷ []) views at_start refl

abbrev pods : List Pod
pods = record { name = codes "u"; pod_ip = codes "w" } ∷ []

fix_untrusted_nodes-AllJustified_example :
    (nodes : Nodes) × (get_nodes views ≡ some nodes)
    × ((r : Repaired) × (fix_untrusted_nodes willing in_order pods true views at_start ≡ some r)
        × AllJustified views pods true nodes at_start r.1)
fix_untrusted_nodes-AllJustified_example =
    fix_untrusted_nodes-AllJustified willing in_order pods true views at_start refl
