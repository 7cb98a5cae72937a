-- ===== src/Status/Counters.antt =====
-- What buildClusterStatus counts in nbSlaveByMaster (pkg/controller/distributedrediscluster/status.go).
use redis_cluster_operator.Common.{
  ℕ, ◌+◌, ◌≡◌, refl, ap, ◌∙◌, Bool, true, false, ◌&&◌, ◌||◌, not, Option, none, some, List, [], ◌∷◌,
  if◌then◌else◌, Text, text_eq, text_eq_iff, is_empty, Dict, text_eq_key, insert, lookup,
  lookup-insert, Bool-cases, inl, inr, arith,
}
use redis_cluster_operator.Node.{Node, Nodes, is_slave, is_master_with_slot, filter_by_func}
use redis_cluster_operator.Status.{
  Pod, Tally, or_zero, has_master_ref, count_master, count_slave, add_node, tally_nodes, tally_pods,
}

abbrev pub of_pod : Nodes → Pod → Nodes
of_pod redis pod = filter_by_func (λ n. text_eq n.ip pod.pod_ip) redis

abbrev pub summed : (Nodes → ℕ) → Nodes → List Pod → ℕ
summed f redis [] = 0
summed f redis (pod ∷ pods) = f (of_pod redis pod) + summed f redis pods

abbrev pub names_master : Text → Node → Bool
names_master id n = is_slave n && not (is_empty n.master_referent) && text_eq n.master_referent id

-- Whether the only redis node of a pod is a slave that names the id as its master.
abbrev pub slaves_of_pod : Text → Nodes → ℕ
slaves_of_pod id [] = 0
slaves_of_pod id (n ∷ []) = if names_master id n then 1 else 0
slaves_of_pod id (n ∷ n' ∷ more) = 0

abbrev pub noted_by_pod : Text → Nodes → Bool
noted_by_pod id [] = false
noted_by_pod id (n ∷ []) = (is_master_with_slot n && text_eq n.id id) || names_master id n
noted_by_pod id (n ∷ n' ∷ more) = false

-- Some pod's only redis node is a master with slots and the id, or a slave that names the id.
unfoldable pub has_counter : Text → Nodes → List Pod → Bool
has_counter id redis [] = false
has_counter id redis (pod ∷ pods) = noted_by_pod id (of_pod redis pod) || has_counter id redis pods

abbrev pub is_there : Option ℕ → Bool
is_there none = false
is_there (some n) = true

-- The counter of one id after another, or the same, has grown.
lookup-grown :
    (id j : Text) (v d : ℕ) (m : Dict Text ℕ)
    → v ≡ or_zero (lookup j m) + d
    → (or_zero (lookup id (insert j v m)) ≡ or_zero (lookup id m) + (if text_eq j id then d else 0))
      × (is_there (lookup id (insert j v m)) ≡ (is_there (lookup id m) || text_eq j id))
lookup-grown id j v d m grown = elim (Bool-cases (text_eq j id)) [
  | inl e ↦
      let same : j ≡ id = (text_eq_iff j id).0 e in
      let value = grown ∙ ap (λ i. or_zero (lookup i m) + d) same in
      (rw (lookup-insert j id v m, e) value, rw (lookup-insert j id v m, e) (ground arith))
  | inr e ↦
      (rw (lookup-insert j id v m, e) (omega arith), rw (lookup-insert j id v m, e) (ground arith))
]

module _ (id : Text) where
  number : Tally → ℕ
  number t = or_zero (lookup id t.nb_slave_by_master)

  present : Tally → Bool
  present t = is_there (lookup id t.nb_slave_by_master)

  count_master-counter :
      (n : Node) (t : Tally)
      → (number (count_master n t) ≡ number t)
        × (present (count_master n t) ≡ (present t || (is_master_with_slot n && text_eq n.id id)))
  unfolding count_master number present
  count_master-counter n t =
      let m = t.nb_slave_by_master in
      let grown = lookup-grown id n.id (or_zero (lookup n.id m)) 0 m (omega arith) in
      elim (Bool-cases (is_master_with_slot n)) [
        | inl e ↦ (rw e (grown.0 ∙ ground arith), rw e grown.1)
        | inr e ↦ (rw e refl, rw e (ground arith))
      ]

  count_slave-counter :
      (n : Node) (t : Tally)
      → (number (count_slave n t) ≡ number t + (if names_master id n then 1 else 0))
        × (present (count_slave n t) ≡ (present t || names_master id n))
  unfolding count_slave has_master_ref number present
  count_slave-counter n t =
      let m = t.nb_slave_by_master in
      let grown =
        lookup-grown id n.master_referent (or_zero (lookup n.master_referent m) + 1) 1 m refl in
      elim (Bool-cases (is_slave n && not (is_empty n.master_referent))) [
        | inl e ↦ (rw e (grown.0 ∙ ground arith), rw e (grown.1 ∙ ground arith))
        | inr e ↦ (rw e (ground arith), rw e (ground arith))
      ]

  tally_nodes-counter :
      (pod : Pod) (ns : Nodes) (t : Tally)
      → (number (tally_nodes pod ns t) ≡ number t + slaves_of_pod id ns)
        × (present (tally_nodes pod ns t) ≡ (present t || noted_by_pod id ns))
  unfolding tally_nodes add_node number present
  tally_nodes-counter pod [] t = (omega arith, ground arith)
  tally_nodes-counter pod (n ∷ []) t =
      let a = count_master-counter n t in
      let b = count_slave-counter n (count_master n t) in
      (b.0 ∙ ap (λ x. x + (if names_master id n then 1 else 0)) a.0, b.1 ∙ ground (arith, a.1))
  tally_nodes-counter pod (n ∷ n' ∷ more) t = (omega arith, ground arith)

  tally_pods-counter :
      (redis : Nodes) (pods : List Pod) (t : Tally)
      → (number (tally_pods redis pods t) ≡ number t + summed (slaves_of_pod id) redis pods)
        × (present (tally_pods redis pods t) ≡ (present t || has_counter id redis pods))
  unfolding tally_pods has_counter
  tally_pods-counter redis [] t = (omega arith, ground arith)
  tally_pods-counter redis (pod ∷ pods) t =
      let one = tally_nodes-counter pod (of_pod redis pod) t in
      let rest = tally_pods-counter redis pods (tally_nodes pod (of_pod redis pod) t) in
      (rest.0 ∙ omega (arith, one.0), rest.1 ∙ ground (arith, one.1))

  -- A counter holds the number of the pods whose only redis node is a slave that names its id.
  pub tally_pods-number :
      (redis : Nodes) (pods : List Pod)
      → let t =
          tally_pods redis pods (record { nodes = []; nb_master = 0; nb_slave_by_master = [] }) in
        or_zero (lookup id t.nb_slave_by_master) ≡ summed (slaves_of_pod id) redis pods
  unfolding number lookup
  tally_pods-number redis pods =
      (tally_pods-counter redis pods
        (record { nodes = []; nb_master = 0; nb_slave_by_master = [] })).0
      ∙ omega arith

  pub tally_pods-present :
      (redis : Nodes) (pods : List Pod)
      → let t =
          tally_pods redis pods (record { nodes = []; nb_master = 0; nb_slave_by_master = [] }) in
        is_there (lookup id t.nb_slave_by_master) ≡ has_counter id redis pods
  unfolding present lookup
  tally_pods-present redis pods =
      (tally_pods-counter redis pods
        (record { nodes = []; nb_master = 0; nb_slave_by_master = [] })).1
