-- ===== src/Status/Factors.antt =====
-- The counts of buildClusterStatus (pkg/controller/distributedrediscluster/status.go).
use mathlib.Core.Logic.{∥∥₁_elim}
use mathlib.Core.List.{Permᴰ}
use redis_cluster_operator.Common.{
  Bool, true, ◌&&◌, leb, sym, lookup, text_eq_key, Bool-cases, inl, inr, ℕ, ◌+◌, ◌≤◌, ◌≡◌, refl,
  ◌∙◌, ap, List, [], ◌∷◌, ltb, if◌then◌else◌, length, length-append, All, Text, text_eq, Dict,
  arith,
}
use redis_cluster_operator.Node.{Node, Nodes, is_master_with_slot}
use redis_cluster_operator.Clustering.{MapOrder}
use redis_cluster_operator.Status.{
  or_zero, ClusterStatus, Pod, Tally, count_master, count_slave, describe, new_node, add_node,
  tally_nodes, tally_pods, factors, min_factor, max_int32, build_cluster_status,
}
use redis_cluster_operator.Status.Counters.{
  of_pod, summed, slaves_of_pod, has_counter, is_there, tally_pods-number, tally_pods-present,
}

-- A counter within the bounds.
abbrev pub Within : ℕ → ℕ → Text × ℕ → Type 0
Within low high e = (low ≤ e.1) × (e.1 ≤ high)

widen :
    (low low' high high' : ℕ) (m : Dict Text ℕ)
    → low' ≤ low
    → high ≤ high'
    → All (Within low high) m
    → All (Within low' high') m
widen low low' high high' [] l h a = tt
widen low low' high high' (e ∷ m) l h a =
    (let x = a.0 in (omega (arith, x.0), omega (arith, x.1)), widen low low' high high' m l h a.1)

-- The loop's results bound all counters, and are no wider than what it started with or saw.
pub factors-Within :
    (m : Dict Text ℕ) (low high : ℕ)
    → (let f = factors m low high in All (Within f.0 f.1) m × (f.0 ≤ low) × (high ≤ f.1))
unfolding factors
factors-Within [] low high = (tt, omega arith, omega arith)
factors-Within ((id, c) ∷ m) low high =
    let low' = if ltb c low then c else low in
    let high' = if ltb high c then c else high in
    let rest = factors-Within m low' high' in
    let a : low' ≤ c = ground arith in
    let b : low' ≤ low = ground arith in
    let d : c ≤ high' = ground arith in
    let e : high ≤ high' = ground arith in
    let f = factors m low' high' in
    let x : f.0 ≤ low' = rest.1 in
    let y : high' ≤ f.1 = rest.2 in
    (((omega (arith, x, a), omega (arith, y, d)), rest.0), omega (arith, x, b), omega (arith, y, e))

-- What one pod adds to the number of masters, and to the nodes.
abbrev pub masters_of_pod : Nodes → ℕ
masters_of_pod [] = 0
masters_of_pod (n ∷ []) = if is_master_with_slot n then 1 else 0
masters_of_pod (n ∷ n' ∷ more) = 0

abbrev pub nodes_of_pod : Nodes → ℕ
nodes_of_pod [] = 0
nodes_of_pod (n ∷ ns) = 1

count_slave_same :
    (n : Node) (t : Tally)
    → ((count_slave n t).nb_master ≡ t.nb_master) × ((count_slave n t).nodes ≡ t.nodes)
unfolding count_slave
count_slave_same n t = ground arith

count_master_same :
    (n : Node) (t : Tally)
    → ((count_master n t).nb_master ≡ t.nb_master + (if is_master_with_slot n then 1 else 0))
      × ((count_master n t).nodes ≡ t.nodes)
unfolding count_master
count_master_same n t = ground arith

tally_nodes_lem :
    (pod : Pod) (ns : Nodes) (t : Tally)
    → ((tally_nodes pod ns t).nb_master ≡ t.nb_master + masters_of_pod ns)
      × (length (tally_nodes pod ns t).nodes ≡ length t.nodes + nodes_of_pod ns)
unfolding tally_nodes add_node
tally_nodes_lem pod [] t = (omega arith, omega arith)
tally_nodes_lem pod (n ∷ []) t =
    let a = count_master_same n t in
    let b = count_slave_same n (count_master n t) in
    let long =
      length-append {0} (count_slave n (count_master n t)).nodes (describe n (new_node pod) ∷ []) in
    (b.0 ∙ a.0, long ∙ omega (arith, ap length b.1, ap length a.1))
tally_nodes_lem pod (n ∷ n' ∷ more) t = (omega arith, length-append {0} t.nodes (new_node pod ∷ []))

-- The number of masters is the number of pods whose only redis node is a master with slots, and
-- there is a node in the status for each pod that has a redis node.
pub tally_pods_lem :
    (redis : Nodes) (pods : List Pod) (t : Tally)
    → ((tally_pods redis pods t).nb_master ≡ t.nb_master + summed masters_of_pod redis pods)
      × (length (tally_pods redis pods t).nodes ≡ length t.nodes + summed nodes_of_pod redis pods)
unfolding tally_pods
tally_pods_lem redis [] t = (omega arith, omega arith)
tally_pods_lem redis (pod ∷ pods) t =
    let one = tally_nodes_lem pod (of_pod redis pod) t in
    let rest = tally_pods_lem redis pods (tally_nodes pod (of_pod redis pod) t) in
    (omega (arith, one.0, rest.0), omega (arith, one.1, rest.1))

min_factor_le : (m : Dict Text ℕ) (low : ℕ) → min_factor m low ≤ low
unfolding min_factor
min_factor_le [] low = omega arith
min_factor_le (e ∷ m) low = omega arith

-- Every counter of the map is within the bounds.
all_within : ℕ → ℕ → Dict Text ℕ → Bool
all_within low high [] = true
all_within low high ((id, n) ∷ m) =
    let rest = all_within low high m in (leb low n && leb n high) && rest

all_within-permᴰ :
    (low high : ℕ) {m n : Dict Text ℕ} → Permᴰ m n → all_within low high m ≡ all_within low high n
unfolding all_within
all_within-permᴰ low high Permᴰ.nil = refl
all_within-permᴰ low high (Permᴰ.cons {a = x} {b = y} e p) =
    let same = ap (λ (t : Text × ℕ). leb low t.1 && leb t.1 high) e in
    ground (arith, same, all_within-permᴰ low high p)
all_within-permᴰ low high (Permᴰ.swap {a = x} {b = y} {a' = x'} {b' = y'} e f) =
    let one = ap (λ (t : Text × ℕ). leb low t.1 && leb t.1 high) e in
    let two = ap (λ (t : Text × ℕ). leb low t.1 && leb t.1 high) f in ground (arith, one, two)
all_within-permᴰ low high (Permᴰ.trans p q) =
    all_within-permᴰ low high p ∙ all_within-permᴰ low high q

Within-all :
    (low high : ℕ) (m : Dict Text ℕ) → All (Within low high) m → all_within low high m ≡ true
unfolding all_within
Within-all low high [] a = refl
Within-all low high (e ∷ m) a = let x = a.0 in ground (arith, x.0, x.1, Within-all low high m a.1)

at_counter :
    (low high : ℕ) (m : Dict Text ℕ) (id : Text) (n : ℕ)
    → all_within low high m ≡ true
    → is_there (lookup id m) ≡ true
    → or_zero (lookup id m) ≡ n
    → (low ≤ n) × (n ≤ high)
unfolding all_within lookup
at_counter low high [] id n a there e = absurd (cc there)
at_counter low high ((j, c) ∷ m) id n a there e = elim (Bool-cases (text_eq j id)) [
  | inl q ↦
      let same : c ≡ n = (let g = e in rw q at (g)) in (ground (arith, same), ground (arith, same))
  | inr q ↦
      at_counter low high m id n (ground arith) (let g = there in rw q at (g))
        (let g = e in rw q at (g))
]

-- The new status counts as masters the pods whose only redis node is a master with slots, and has
-- a node for each pod with a redis node. Take an id that such a master has, or that the only redis node
-- of a pod, a slave, names as its master: the number of pods whose only redis node is a slave that
-- names the id lies between the two replication factors, whatever the order of the map. Status, reason
-- and restore phase are the old ones.
pub build_cluster_status_counts :
    (order : MapOrder ℕ) (redis : Nodes) (pods : List Pod) (old : ClusterStatus)
    → (let s = build_cluster_status order redis pods old in
        (s.number_of_master ≡ summed masters_of_pod redis pods)
        × (length s.nodes ≡ summed nodes_of_pod redis pods)
        × ((id : Text)
            → has_counter id redis pods ≡ true
            → (s.min_replication_factor ≤ summed (slaves_of_pod id) redis pods)
              × (summed (slaves_of_pod id) redis pods ≤ s.max_replication_factor))
        × (s.status ≡ old.status)
        × (s.reason ≡ old.reason)
        × (s.restore_phase ≡ old.restore_phase))
unfolding build_cluster_status lookup
build_cluster_status_counts order redis pods old =
    let start : Tally = record { nodes = []; nb_master = 0; nb_slave_by_master = [] } in
    let counts = tally_pods_lem redis pods start in
    let m = (tally_pods redis pods start).nb_slave_by_master in
    let f = factors (order.range m) max_int32 0 in
    let low = min_factor m f.0 in
    let bounds = factors-Within (order.range m) max_int32 0 in
    let within : all_within low f.1 m ≡ true =
      sym (∥∥₁_elim (order.range_perm m) (hlevel) (all_within-permᴰ low f.1))
      ∙ Within-all low f.1 (order.range m)
          (widen f.0 low f.1 f.1 (order.range m) (min_factor_le m f.0) (omega arith) bounds.0) in
    (
      omega (arith, counts.0),
      omega (arith, counts.1),
      λ id e.
          let number = tally_pods-number id redis pods in
          let there = tally_pods-present id redis pods in
          at_counter low f.1 m id (summed (slaves_of_pod id) redis pods) within (there ∙ e) number,
      refl,
      refl,
      refl,
    )
