-- ===== src/Heal/Split.antt =====
-- buildClustersLists and splitMainCluster (pkg/controller/heal/clustersplit.go).
use redis_cluster_operator.Common.{
  ℕ, suc, ◌+◌, ◌≤◌, ◌<◌, ◌≡◌, refl, sym, ◌∙◌, ap, true, false, Option, none, some, List, [], ◌∷◌,
  ◌++◌, ltb, inl, inr, ◌⊎◌, Bool-cases, Option-cases, length, All, Text, text_eq, text_eq_iff,
  arith,
}
use redis_cluster_operator.Node.{text_mem}
use redis_cluster_operator.Heal.{
  NodeInfos, Infos, Cluster, addresses, find_in_cluster, overlaps, add_cluster, add_view,
  build_from, build_clusters_lists, main_index, pick, split_at, split_main_cluster,
}

-- No address stands in both.
abbrev pub AreDisjoint : Cluster → Cluster → Type 0
AreDisjoint c d = (addr : Text) → text_mem addr c ≡ true → text_mem addr d ≡ true → ⊥

-- Each cluster of the list shares no address with a later one.
abbrev pub IsSeparated : List Cluster → Type 0
IsSeparated [] = Unit
IsSeparated (c ∷ clusters) = All (AreDisjoint c) clusters × IsSeparated clusters

-- An address that no cluster of the list has.
abbrev pub IsNew : Text → List Cluster → Type 0
IsNew addr clusters = All (λ c. text_mem addr c ≡ false) clusters

find_in_cluster-IsNew :
    (addr : Text) (clusters : List Cluster)
    → find_in_cluster addr clusters ≡ false
    → IsNew addr clusters
unfolding find_in_cluster
find_in_cluster-IsNew addr [] e = tt
find_in_cluster-IsNew addr (c ∷ clusters) e =
    (ground arith, find_in_cluster-IsNew addr clusters (ground arith))

overlaps-IsNew :
    (c : Cluster) (clusters : List Cluster) (addr : Text)
    → overlaps c clusters ≡ false
    → text_mem addr c ≡ true
    → IsNew addr clusters
unfolding overlaps text_mem
overlaps-IsNew [] clusters addr e m = absurd (ground arith)
overlaps-IsNew (a ∷ c) clusters addr e m = elim (Bool-cases (text_eq a addr)) [
  | inl same ↦
      let here : a ≡ addr = (text_eq_iff a addr).0 same in
      find_in_cluster-IsNew addr clusters
        (ap (λ t. find_in_cluster t clusters) (sym here) ∙ ground arith)
  | inr other ↦ overlaps-IsNew c clusters addr (ground arith) (ground arith)
]

disjoint-All :
    (c : Cluster) (clusters : List Cluster)
    → ((addr : Text) → text_mem addr c ≡ true → IsNew addr clusters)
    → All (λ d. AreDisjoint d c) clusters
disjoint-All c [] f = tt
disjoint-All c (d ∷ clusters) f = (
  (λ addr m n. let x = (f addr n).0 in ground arith),
  disjoint-All c clusters (λ addr m. (f addr m).1),
)

All-snoc :
    (P : Cluster → Type 0) (xs : List Cluster) (x : Cluster) → All P xs → P x → All P (xs ++ x ∷ [])
All-snoc P [] x a p = (p, tt)
All-snoc P (y ∷ xs) x a p = (a.0, All-snoc P xs x a.1 p)

IsSeparated-snoc :
    (clusters : List Cluster) (c : Cluster)
    → IsSeparated clusters
    → All (λ d. AreDisjoint d c) clusters
    → IsSeparated (clusters ++ c ∷ [])
IsSeparated-snoc [] c s a = (tt, tt)
IsSeparated-snoc (d ∷ clusters) c s a =
    (All-snoc (AreDisjoint d) clusters c s.0 a.0, IsSeparated-snoc clusters c s.1 a.1)

add_cluster-IsSeparated :
    (c : Cluster) (clusters : List Cluster)
    → IsSeparated clusters
    → IsSeparated (add_cluster c clusters)
unfolding add_cluster
add_cluster-IsSeparated c clusters s = elim (Bool-cases (overlaps c clusters)) [
  | inl e ↦ rw e s
  | inr e ↦ rw e (
      IsSeparated-snoc clusters c s
        (disjoint-All c clusters (λ addr. overlaps-IsNew c clusters addr e)))
]

add_view-IsSeparated :
    (infos : Option NodeInfos) (clusters : List Cluster)
    → IsSeparated clusters
    → IsSeparated (add_view infos clusters)
unfolding add_view
add_view-IsSeparated none clusters s = s
add_view-IsSeparated (some infos) clusters s = elim (Option-cases infos.node) [
  | inl e ↦ rw e s
  | inr (n, e) ↦ rw e (add_cluster-IsSeparated (addresses (infos.friends ++ n ∷ [])) clusters s)
]

build_from-IsSeparated :
    (infos : Infos) (clusters : List Cluster)
    → IsSeparated clusters
    → IsSeparated (build_from infos clusters)
unfolding build_from
build_from-IsSeparated [] clusters s = s
build_from-IsSeparated ((addr, view) ∷ infos) clusters s =
    build_from-IsSeparated infos (add_view view clusters) (add_view-IsSeparated view clusters s)

-- Whatever the views and their order, no address stands in two of the clusters that are found.
pub build_clusters_lists-IsSeparated : (infos : Infos) → IsSeparated (build_clusters_lists infos)
unfolding build_clusters_lists
build_clusters_lists-IsSeparated infos = build_from-IsSeparated infos [] tt

-- The main cluster is the first of the largest ones, and the rest are the others in order.
pub record IsSplit (clusters : List Cluster) (main : Cluster) (rest : List Cluster) : Type 0 where
  pub before : List Cluster
  pub after : List Cluster
  pub whole : clusters ≡ before ++ main ∷ after
  pub others : rest ≡ before ++ after
  pub earlier : All (λ c. length c < length main) before
  pub later : All (λ c. length c ≤ length main) after

IsSplit-cons :
    (c : Cluster) (clusters : List Cluster) (main : Cluster) (rest : List Cluster)
    → length c < length main
    → IsSplit clusters main rest
    → IsSplit (c ∷ clusters) main (c ∷ rest)
IsSplit-cons c clusters main rest l s = record {
  before = c ∷ s.before;
  after = s.after;
  whole = ap (λ t. c ∷ t) s.whole;
  others = ap (λ t. c ∷ t) s.others;
  earlier = (l, s.earlier);
  later = s.later;
}

-- Either no cluster is larger than `max_size`, or one is picked.
abbrev Elected : List Cluster → ℕ → ℕ → Option ℕ → Option ℕ → Type 0
Elected clusters i max_size main r =
    ((r ≡ main) × All (λ c. length c ≤ max_size) clusters)
    ⊎ ((k : ℕ) × (r ≡ some (i + k))
        × (max_size < length (pick k clusters).0)
        × IsSplit clusters (pick k clusters).0 (pick k clusters).1)

main_index-Elected :
    (clusters : List Cluster) (i max_size : ℕ) (main : Option ℕ)
    → Elected clusters i max_size main (main_index clusters i max_size main)
unfolding main_index pick
main_index-Elected [] i max_size main = inl (refl, tt)
main_index-Elected (c ∷ clusters) i max_size main = elim (Bool-cases (ltb max_size (length c))) [
  | inl e ↦ rw e (elim (main_index-Elected clusters (suc i) (length c) (some i)) [
    | inl (r, a) ↦ inr (
      0,
      (r ∙ ap some (omega arith)),
      ground arith,
      record {
        before = [];
        after = clusters;
        whole = refl;
        others = refl;
        earlier = tt;
        later = a;
      },
    )
    | inr (k, r, l, s) ↦
        inr (suc k, (r ∙ ap some (omega arith)), ground arith, IsSplit-cons c clusters _ _ l s)
  ])
  | inr e ↦ rw e (elim (main_index-Elected clusters (suc i) max_size main) [
    | inl (r, a) ↦ inl (r, (ground arith, a))
    | inr (k, r, l, s) ↦
        inr (suc k, (r ∙ ap some (omega arith)), l, IsSplit-cons c clusters _ _ (ground arith) s)
  ])
]

no_main :
    (clusters : List Cluster)
    → All (λ c. length c ≤ 0) clusters
    → length (split_at none clusters).0 ≡ 0
unfolding split_at
no_main [] a = omega arith
no_main (c ∷ clusters) a = let l = a.0 in omega (arith, l)

-- splitMainCluster elects the first of the largest clusters and keeps the others in order; only
-- when all clusters are empty is the main one empty.
pub split_main_cluster-IsSplit :
    (clusters : List Cluster)
    → (let s = split_main_cluster clusters in
        (All (λ c. length c ≤ 0) clusters × (length s.0 ≡ 0)) ⊎ IsSplit clusters s.0 s.1)
unfolding split_main_cluster split_at
split_main_cluster-IsSplit clusters = elim (main_index-Elected clusters 0 0 none) [
  | inl (r, a) ↦ rw r (inl (a, no_main clusters a))
  | inr (k, r, l, s) ↦
      let e : main_index clusters 0 0 none ≡ some k = r ∙ ap some (omega arith) in rw e (inr s)
]
