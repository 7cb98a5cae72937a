-- ===== src/Heal.antt =====
-- pkg/controller/heal: repairs of a running cluster, and the views of the nodes that they read
-- (NodeInfos and ClusterInfos of pkg/redisutil/clusterinfo.go). Log output is left out. A map is
-- the list of its entries in the order in which the runtime visits it.
pub mod Split
pub mod Reassign
pub mod Ghosts
pub mod Untrusted
mod Examples
use redis_cluster_operator.Common.{
  Bool, true, false, ◌&&◌, ◌||◌, not, Option, none, some, List, [], ◌∷◌, ◌++◌, ltb, leb,
  if◌then◌else◌, length, Text, text_eq, Dict, ℕ, suc,
}
use redis_cluster_operator.Node.{Node, Nodes, ip_port, text_mem}
use redis_cluster_operator.Admin.{
  Call, attach_node_call, flush_and_reset_call, replace_all_call, World, Replies, issue, succeeds,
}

pub record NodeInfos : Type 0 where
  pub node : Option Node
  pub friends : Nodes

-- infos.Infos; an entry may be nil.
abbrev pub Infos : Type 0
Infos = Dict Text (Option NodeInfos)

-- The type cluster of clustersplit.go: addresses.
abbrev pub Cluster : Type 0
Cluster = List Text

-- The addresses of the nodes that have no failure flag.
unfoldable pub addresses : Nodes → Cluster
addresses [] = []
addresses (n ∷ ns) =
    let rest = addresses ns in elim n.fail_status [ [] ↦ ip_port n ∷ rest | f ∷ fs ↦ rest ]

unfoldable pub find_in_cluster : Text → List Cluster → Bool
find_in_cluster addr [] = false
find_in_cluster addr (c ∷ clusters) =
    let rest = find_in_cluster addr clusters in if text_mem addr c then true else rest

unfoldable pub overlaps : Cluster → List Cluster → Bool
unfolding find_in_cluster
overlaps [] clusters = false
overlaps (addr ∷ c) clusters =
    let rest = overlaps c clusters in if find_in_cluster addr clusters then true else rest

unfoldable pub add_cluster : Cluster → List Cluster → List Cluster
add_cluster c clusters = if overlaps c clusters then clusters else clusters ++ c ∷ []

unfoldable pub add_view : Option NodeInfos → List Cluster → List Cluster
unfolding addresses add_cluster
add_view none clusters = clusters
add_view (some infos) clusters = elim infos.node [
  | none ↦ clusters
  | some n ↦ add_cluster (addresses (infos.friends ++ n ∷ [])) clusters
]

unfoldable pub build_from : Infos → List Cluster → List Cluster
unfolding add_view
build_from [] clusters = clusters
build_from ((addr, infos) ∷ rest) clusters = build_from rest (add_view infos clusters)

unfoldable pub build_clusters_lists : Infos → List Cluster
unfolding build_from
build_clusters_lists infos = build_from infos []

-- The loop of splitMainCluster over the clusters from index i on.
unfoldable pub main_index : List Cluster → ℕ → ℕ → Option ℕ → Option ℕ
main_index [] i max_size main = main
main_index (c ∷ clusters) i max_size main =
    main_index clusters (suc i) (if ltb max_size (length c) then length c else max_size)
      (if ltb max_size (length c) then some i else main)

-- clusters[i], and what `append(clusters[:i], clusters[i+1:]...)` leaves.
unfoldable pub pick : ℕ → List Cluster → Cluster × List Cluster
pick i [] = ([], [])
pick ℕ.zero (c ∷ clusters) = (c, clusters)
pick (suc i) (c ∷ clusters) = let rest = pick i clusters in (rest.0, c ∷ rest.1)

split_at : Option ℕ → List Cluster → Cluster × List Cluster
unfolding pick
split_at (some i) clusters = pick i clusters
split_at none [] = ([], [])
split_at none (c ∷ clusters) = (c, [])

unfoldable pub split_main_cluster : List Cluster → Cluster × List Cluster
unfolding main_index split_at
split_main_cluster clusters = split_at (main_index clusters 0 0 none) clusters

-- The error of reassignClusters: no main cluster, or the calls that failed.
pub data ReassignError : Type 0 where
  no_main_cluster : ReassignError
  calls_failed : (errs : List Call) → ReassignError

-- A call whose error is collected.
unfoldable pub try_call : Replies → Call → World × List Call → World × List Call
try_call replies call (w, errs) =
    (issue call w, if succeeds replies call w then errs else errs ++ call ∷ [])

unfoldable pub reset_nodes : Replies → Cluster → World × List Call → World × List Call
unfolding try_call
reset_nodes replies [] s = s
reset_nodes replies (addr ∷ c) s =
    reset_nodes replies c
      (try_call replies (attach_node_call addr) (try_call replies (flush_and_reset_call addr) s))

unfoldable pub reset_clusters : Replies → List Cluster → World × List Call → World × List Call
unfolding reset_nodes
reset_clusters replies [] s = s
reset_clusters replies (c ∷ clusters) s = reset_clusters replies clusters (reset_nodes replies c s)

-- errors.NewAggregate
unfoldable pub new_aggregate : List Call → Option ReassignError
new_aggregate [] = none
new_aggregate (e ∷ errs) = some (calls_failed (e ∷ errs))

aggregated : World × List Call → World × Option ReassignError
unfolding new_aggregate
aggregated (w, errs) = (w, new_aggregate errs)

reassign_to : Replies → Cluster × List Cluster → World → World × Option ReassignError
unfolding aggregated reset_clusters
reassign_to replies ([], bad) w = (w, some no_main_cluster)
reassign_to replies (addr ∷ main, bad) w =
    aggregated (reset_clusters replies bad (issue (replace_all_call (addr ∷ main)) w, []))

unfoldable pub reassign_clusters : Replies → List Cluster → World → World × Option ReassignError
unfolding reassign_to split_main_cluster
reassign_clusters replies clusters w = reassign_to replies (split_main_cluster clusters) w

-- FixClusterSplit: whether a split was found, with what was done about it.
unfoldable pub fix_cluster_split :
    Replies → (dry_run : Bool) → Infos → World → Bool × World × Option ReassignError
unfolding build_clusters_lists reassign_clusters
fix_cluster_split replies dry_run infos w =
    let clusters = build_clusters_lists infos in
    let fixed = reassign_clusters replies clusters w in
    if ltb 1 (length clusters)
    then if dry_run then (true, w, none) else (true, fixed.0, fixed.1)
    else (false, w, none)
