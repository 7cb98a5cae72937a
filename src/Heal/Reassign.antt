-- ===== src/Heal/Reassign.antt =====
-- FixClusterSplit (pkg/controller/heal/clustersplit.go): what it resets.
use mathlib.Core.Path.{subst}
use redis_cluster_operator.Common.{
  ◌≡◌, refl, sym, ◌∙◌, ap, Bool, true, false, List, [], ◌∷◌, ◌++◌, ltb, inl, inr, ◌⊎◌, Bool-cases,
  length, All, All-append, Text, text_eq_iff, arith,
}
use redis_cluster_operator.Node.{text_mem}
use redis_cluster_operator.Admin.{
  Call, attach_node_call, flush_and_reset_call, replace_all_call, World, Replies, issue, pushed,
  pushed-append,
}
use redis_cluster_operator.Heal.{
  Infos, Cluster, build_clusters_lists, split_main_cluster, try_call, reset_nodes, reset_clusters,
  aggregated, reassign_to, reassign_clusters, fix_cluster_split,
}
use redis_cluster_operator.Heal.Split.{
  AreDisjoint, IsSeparated, build_clusters_lists-IsSeparated, split_main_cluster-IsSplit,
}

-- What is done to the nodes of a cluster, and to those of several clusters.
abbrev pub resets : Cluster → List Call
resets [] = []
resets (addr ∷ c) = flush_and_reset_call addr ∷ attach_node_call addr ∷ resets c

abbrev pub all_resets : List Cluster → List Call
all_resets [] = []
all_resets (c ∷ clusters) = resets c ++ all_resets clusters

reset_nodes_calls :
    (replies : Replies) (c : Cluster) (w : World) (errs : List Call)
    → (reset_nodes replies c (w, errs)).0.calls ≡ pushed (resets c) w.calls
unfolding reset_nodes try_call
reset_nodes_calls replies [] w errs = refl
reset_nodes_calls replies (addr ∷ c) w errs =
    reset_nodes_calls replies c
      (issue (attach_node_call addr) (issue (flush_and_reset_call addr) w)) _

reset_clusters_calls :
    (replies : Replies) (clusters : List Cluster) (s : World × List Call)
    → (reset_clusters replies clusters s).0.calls ≡ pushed (all_resets clusters) s.0.calls
unfolding reset_clusters
reset_clusters_calls replies [] s = refl
reset_clusters_calls replies (c ∷ clusters) s =
    reset_clusters_calls replies clusters (reset_nodes replies c s)
    ∙ ap (pushed (all_resets clusters)) (reset_nodes_calls replies c s.0 s.1)
    ∙ sym (pushed-append (resets c) (all_resets clusters) s.0.calls)

-- The call flushes no node of the cluster.
abbrev pub Spares : Cluster → Call → Type 0
Spares main (flush_and_reset_call addr) = text_mem addr main ≡ false
Spares main _ = Unit

All-middle : {A : Type 0} (P : A → Type 0) (xs ys : List A) (x : A) → All P (xs ++ x ∷ ys) → P x
All-middle P [] ys x a = a.0
All-middle P (y ∷ xs) ys x a = All-middle P xs ys x a.1

-- The main cluster shares no address with the others.
separated_others :
    (before after : List Cluster) (main : Cluster)
    → IsSeparated (before ++ main ∷ after)
    → All (AreDisjoint main) (before ++ after)
separated_others [] after main s = s.0
separated_others (d ∷ before) after main s = (
  (let apart = All-middle (AreDisjoint d) before after main s.0 in λ addr m n. apart addr n m),
  separated_others before after main s.1,
)

mem_head : (addr : Text) (c : Cluster) → text_mem addr (addr ∷ c) ≡ true
unfolding text_mem
mem_head addr c = ground (arith, text_eq_iff addr addr)

mem_tail : (addr a : Text) (c : Cluster) → text_mem addr c ≡ true → text_mem addr (a ∷ c) ≡ true
unfolding text_mem
mem_tail addr a c m = ground arith

resets-Spares :
    (main c : Cluster)
    → ((addr : Text) → text_mem addr c ≡ true → text_mem addr main ≡ false)
    → All (Spares main) (resets c)
resets-Spares main [] f = tt
resets-Spares main (a ∷ c) f =
    (f a (mem_head a c), (tt, resets-Spares main c (λ addr m. f addr (mem_tail addr a c m))))

all_resets-Spares :
    (main : Cluster) (clusters : List Cluster)
    → All (AreDisjoint main) clusters
    → All (Spares main) (all_resets clusters)
all_resets-Spares main [] a = tt
all_resets-Spares main (c ∷ clusters) a =
    All-append (Spares main) (resets c) (all_resets clusters)
      (resets-Spares main c (λ addr m. elim (Bool-cases (text_mem addr main)) [
        | inl e ↦ absurd (a.0 addr e m)
        | inr e ↦ e
      ]))
      (all_resets-Spares main clusters a.1)

-- What a reassignment does: its calls flush no node of the elected cluster.
pub record IsReassigned (main : Cluster) (w after : World) : Type 0 where
  pub calls : List Call
  pub made : after.calls ≡ pushed calls w.calls
  pub spares : All (Spares main) calls

aggregated_world : (s : World × List Call) → (aggregated s).0 ≡ s.0
unfolding aggregated
aggregated_world s = refl

reassign_to-IsReassigned :
    (replies : Replies) (main : Cluster) (bad : List Cluster) (w : World)
    → (length main ≡ 0) ⊎ All (AreDisjoint main) bad
    → IsReassigned main w (reassign_to replies (main, bad) w).0
unfolding reassign_to
reassign_to-IsReassigned replies [] bad w a = record { calls = []; made = refl; spares = tt }
reassign_to-IsReassigned replies (addr ∷ main) bad w (inl e) = absurd (omega (arith, e))
reassign_to-IsReassigned replies (addr ∷ main) bad w (inr a) =
    let first = issue (replace_all_call (addr ∷ main)) w in
    record {
      calls = replace_all_call (addr ∷ main) ∷ all_resets bad;
      made =
          ap (λ t. t.calls) (aggregated_world (reset_clusters replies bad (first, [])))
          ∙ reset_clusters_calls replies bad (first, []);
      spares = (tt, all_resets-Spares (addr ∷ main) bad a);
    }

reassign_clusters-IsReassigned :
    (replies : Replies) (clusters : List Cluster) (w : World)
    → IsSeparated clusters
    → IsReassigned (split_main_cluster clusters).0 w (reassign_clusters replies clusters w).0
unfolding reassign_clusters
reassign_clusters-IsReassigned replies clusters w s =
    let split = split_main_cluster clusters in
    reassign_to-IsReassigned replies split.0 split.1 w (elim (split_main_cluster-IsSplit clusters) [
      | inl (a, z) ↦ inl z
      | inr x ↦ inr (
          subst (All (AreDisjoint split.0)) (sym x.others)
            (separated_others x.before x.after split.0 (subst IsSeparated x.whole s)))
    ])

-- FixClusterSplit reports a split exactly when there is more than one cluster; it does nothing
-- in a dry run or without a split, and what it does flushes no node of the elected cluster.
pub fix_cluster_split-IsReassigned :
    (replies : Replies) (dry_run : Bool) (infos : Infos) (w : World)
    → (let clusters = build_clusters_lists infos in
        let r = fix_cluster_split replies dry_run infos w in
        (r.0 ≡ ltb 1 (length clusters))
        × ((dry_run ≡ true) ⊎ (r.0 ≡ false) → r.1 ≡ w)
        × IsReassigned (split_main_cluster clusters).0 w r.1)
unfolding fix_cluster_split
fix_cluster_split-IsReassigned replies dry_run infos w =
    let clusters = build_clusters_lists infos in
    let main = (split_main_cluster clusters).0 in
    let idle : IsReassigned main w w = record { calls = []; made = refl; spares = tt } in
    elim (Bool-cases (ltb 1 (length clusters))) [
      | inl e ↦ elim (Bool-cases dry_run) [
        | inl d ↦ rw (e, d) (refl, (λ u. refl), idle)
        | inr d ↦
            rw (e, d)
              (
                refl,
                (λ u. elim u [ inl x ↦ cc | inr x ↦ cc ]),
                reassign_clusters-IsReassigned replies clusters w
                    (build_clusters_lists-IsSeparated infos),
              )
      ]
      | inr e ↦ rw e (refl, (λ u. refl), idle)
    ]
