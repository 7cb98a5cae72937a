-- ===== src/Status/Compared.antt =====
-- compareStatus (pkg/controller/distributedrediscluster/status.go).
use redis_cluster_operator.Common.{
  ◌≡◌, refl, ap, Bool, true, false, ◌&&◌, ◌||◌, if◌then◌else◌, not, Option, none, some, List, [],
  ◌∷◌, length, All, Text, text_eq, text_eq_iff, arith, ◌⊎◌, inl, inr,
}
use redis_cluster_operator.Node.{RedisRole, role_master, role_slave, role_none}
use redis_cluster_operator.Status.{
  RedisClusterNode, ClusterStatus, role_eq, same_role, same_slots, compare_nodes, differs_in,
  differ, compare_status,
}

role_eq→eq : (a b : RedisRole) → role_eq a b ≡ true → a ≡ b
unfolding role_eq
role_eq→eq role_master role_master e = refl
role_eq→eq role_slave role_slave e = refl
role_eq→eq role_none role_none e = refl
role_eq→eq role_master role_slave e = cc
role_eq→eq role_master role_none e = cc
role_eq→eq role_slave role_master e = cc
role_eq→eq role_slave role_none e = cc
role_eq→eq role_none role_master e = cc
role_eq→eq role_none role_slave e = cc

same_role→eq : (a b : Option RedisRole) → same_role a b ≡ true → a ≡ b
unfolding same_role
same_role→eq none none e = refl
same_role→eq none (some b) e = cc
same_role→eq (some a) none e = cc
same_role→eq (some a) (some b) e = ap some (role_eq→eq a b e)

same_slots→eq : (xs ys : List Text) → same_slots xs ys ≡ true → xs ≡ ys
unfolding same_slots
same_slots→eq [] [] e = refl
same_slots→eq [] (b ∷ ys) e = cc
same_slots→eq (a ∷ xs) [] e = cc
same_slots→eq (a ∷ xs) (b ∷ ys) e = ground (arith, text_eq_iff a b, same_slots→eq xs ys)

-- All that the status holds of a node is equal, but for the host and the stateful set.
pub record SameNode (a b : RedisClusterNode) : Type 0 where
  pub id : a.id ≡ b.id
  pub ip : a.ip ≡ b.ip
  pub master_ref : a.master_ref ≡ b.master_ref
  pub pod_name : a.pod_name ≡ b.pod_name
  pub port : a.port ≡ b.port
  pub role : a.role ≡ b.role
  pub slots : a.slots ≡ b.slots

compare_nodes-SameNode :
    (a b : RedisClusterNode) → a.id ≡ b.id → compare_nodes a b ≡ false → SameNode a b
unfolding compare_nodes
compare_nodes-SameNode a b same e = record {
  id = same;
  ip = (text_eq_iff a.ip b.ip).0 (ground arith);
  master_ref = (text_eq_iff a.master_ref b.master_ref).0 (ground arith);
  pod_name = (text_eq_iff a.pod_name b.pod_name).0 (ground arith);
  port = (text_eq_iff a.port b.port).0 (ground arith);
  role = same_role→eq a.role b.role (ground arith);
  slots = same_slots→eq a.slots b.slots (ground arith);
}

-- Some node of the list is the same.
abbrev pub Kept : RedisClusterNode → List RedisClusterNode → Type 0
Kept a [] = ⊥
Kept a (b ∷ bs) = SameNode a b ⊎ Kept a bs

-- Every node of the list with the same id is the same.
abbrev pub Undisputed : RedisClusterNode → List RedisClusterNode → Type 0
Undisputed a bs = All (λ b. a.id ≡ b.id → SameNode a b) bs

no_difference :
    (same differs rest : Bool)
    → (if same && differs then true else rest) ≡ false
    → (same ≡ true → differs ≡ false) × (rest ≡ false)
no_difference true true rest e = absurd (cc e)
no_difference true false rest e = (λ _. refl, e)
no_difference false differs rest e = (λ h. absurd (cc h), e)

not-false : (found : Bool) → not found ≡ false → found ≡ true
not-false true e = refl
not-false false e = cc

found_by : (found same : Bool) → (found || same) ≡ true → (found ≡ true) ⊎ (same ≡ true)
found_by true same e = inl refl
found_by false same e = inr e

differs_in-Kept :
    (a : RedisClusterNode) (bs : List RedisClusterNode) (found : Bool)
    → differs_in a bs found ≡ false
    → ((found ≡ true) ⊎ Kept a bs) × Undisputed a bs
unfolding differs_in
differs_in-Kept a [] found e = (inl (not-false found e), tt)
differs_in-Kept a (b ∷ bs) found e =
    let step =
      no_difference (text_eq a.id b.id) (compare_nodes a b)
        (differs_in a bs (found || text_eq a.id b.id)) e in
    let rest = differs_in-Kept a bs (found || text_eq a.id b.id) step.1 in
    let alike : a.id ≡ b.id → SameNode a b =
      λ id. compare_nodes-SameNode a b id (step.0 ((text_eq_iff a.id b.id).1 id)) in
    (
      elim rest.0 [
        | inr k ↦ inr (inr k)
        | inl f ↦ elim (found_by found (text_eq a.id b.id) f) [
          | inl g ↦ inl g
          | inr id ↦ inr (inl (alike ((text_eq_iff a.id b.id).0 id)))
        ]
      ],
      (alike, rest.1),
    )

no_more :
    (here more : Bool) → (if here then true else more) ≡ false → (here ≡ false) × (more ≡ false)
no_more true more e = absurd (cc e)
no_more false more e = (refl, e)

differ-Kept :
    (old new : List RedisClusterNode)
    → differ old new ≡ false
    → All (λ a. Kept a new × Undisputed a new) old
unfolding differ
differ-Kept [] new e = tt
differ-Kept (a ∷ old) new e =
    let step = no_more (differs_in a new false) (differ old new) e in
    let own = differs_in-Kept a new false step.0 in
    ((elim own.0 [ inl f ↦ absurd (cc f) | inr k ↦ k ], own.1), differ-Kept old new step.1)

-- What compareStatus takes for no change.
pub record IsUnchanged (old new : ClusterStatus) : Type 0 where
  pub status : old.status ≡ new.status
  pub reason : old.reason ≡ new.reason
  pub number_of_master : old.number_of_master ≡ new.number_of_master
  pub size : length old.nodes ≡ length new.nodes
  pub restore_phase : old.restore_phase ≡ new.restore_phase
  pub nodes : All (λ a. Kept a new.nodes × Undisputed a new.nodes) old.nodes

-- When compareStatus sees no change, the status, the reason, the number of masters, the phase of a
-- restore and the number of nodes are equal, and each old node has a new one with the same id, address,
-- port, master, pod, role and slots, from which no new node with that id differs.
pub compare_status-IsUnchanged :
    (old new : ClusterStatus) → compare_status old new ≡ false → IsUnchanged old new
unfolding compare_status
compare_status-IsUnchanged old new e = record {
  status = ground (arith, text_eq_iff old.status new.status);
  reason = ground (arith, text_eq_iff old.reason new.reason);
  number_of_master = ground arith;
  size = ground arith;
  restore_phase = ground (arith, text_eq_iff old.restore_phase new.restore_phase);
  nodes = differ-Kept old.nodes new.nodes (ground arith);
}
