-- ===== src/Heal/Untrusted/Justified.antt =====
-- What FixUntrustedNodes does (pkg/controller/heal/untrustenodes.go).
use mathlib.Core.Path.{subst}
use mathlib.Core.Logic.{∥∥₁_elim}
use redis_cluster_operator.Common.{
  text_eq_iff, ◌≡◌, refl, sym, ◌∙◌, ap, Bool, true, false, ◌&&◌, not, none, some, List, [], ◌∷◌,
  ◌++◌, inl, inr, ◌⊎◌, Bool-cases, Option-cases, All, All-append, Text, Dict, text_eq_key, arith,
}
use redis_cluster_operator.Node.{Node, Nodes, filter_by_func}
use redis_cluster_operator.Clustering.{MapOrder}
use redis_cluster_operator.Admin.{
  Call, forget_node_call, delete_pod_call, World, Replies, issue, pushed, pushed-append,
}
use redis_cluster_operator.Heal.{Infos, try_call}
use redis_cluster_operator.Heal.Ghosts.{Repaired, all_present}
use redis_cluster_operator.Heal.Untrusted.{
  Pod, list_untrusted_nodes, check_if_pod_name_exist_and_is_reused, get_nodes, reuses_ip,
  delete_pod, forget_untrusted, repaired, fix_untrusted, fix_all_untrusted, fix_listed, fix_entries,
  with_node, fix_untrusted_nodes,
}
use redis_cluster_operator.Heal.Untrusted.Suspects.{
  suspected, Unshared, HasPod, NotReused, filter_by_func-Unshared,
  check_if_pod_name_exist_and_is_reused-found, all_suspects, all_suspects-permᴰ,
  untrusted_views-suspects,
}

-- Some view has a node in handshake with an id and an address that no node with another id has.
abbrev pub Doomed : Infos → Nodes → (id ip pod_name : Text) → Type 0
Doomed infos nodes id ip pod_name = (suspected infos id ip pod_name ≡ true) × Unshared id ip nodes

-- A call that the views justify: to delete a pod that is there under the name that such a node gives,
-- none of whose name has the node's address; or to forget such a node, outside a dry run.
abbrev pub IsJustified : Infos → List Pod → Bool → Nodes → Call → Type 0
IsJustified infos pods dry_run nodes (delete_pod_call name) =
    (id : Text) × ((ip : Text) × (Doomed infos nodes id ip name)
      × HasPod name pods
      × NotReused name ip pods)
IsJustified infos pods dry_run nodes (forget_node_call id) =
    (dry_run ≡ false) × ((ip : Text) × ((pod_name : Text) × Doomed infos nodes id ip pod_name))
IsJustified infos pods dry_run nodes _ = ⊥

-- The calls made between two worlds are all justified.
pub record AllJustified (infos : Infos) (pods : List Pod) (dry_run : Bool) (nodes : Nodes)
    (w w' : World) : Type 0 where
  pub calls : List Call
  pub made : w'.calls ≡ pushed calls w.calls
  pub justified : All (IsJustified infos pods dry_run nodes) calls

filter_cases : (ns : Nodes) → (ns ≡ []) ⊎ ((n : Node) × ((rest : Nodes) × (ns ≡ n ∷ rest)))
filter_cases [] = inl refl
filter_cases (n ∷ ns) = inr (n, (ns, refl))

module _ (infos : Infos) (pods : List Pod) (dry_run : Bool) (nodes : Nodes) where
  AllJustified-refl : (w : World) → AllJustified infos pods dry_run nodes w w
  AllJustified-refl w = record { calls = []; made = refl; justified = tt }

  AllJustified-trans :
      (w w' w'' : World)
      → AllJustified infos pods dry_run nodes w w'
      → AllJustified infos pods dry_run nodes w' w''
      → AllJustified infos pods dry_run nodes w w''
  AllJustified-trans w w' w'' a b = record {
    calls = a.calls ++ b.calls;
    made = b.made ∙ ap (pushed b.calls) a.made ∙ sym (pushed-append a.calls b.calls w.calls);
    justified =
        All-append (IsJustified infos pods dry_run nodes) a.calls b.calls a.justified b.justified;
  }

  module _ (replies : Replies) where
    delete_pod-AllJustified :
        (u : Node) (s : World × List Call)
        → Doomed infos nodes u.id u.ip u.pod_name
        → AllJustified infos pods dry_run nodes s.0 (delete_pod replies pods dry_run nodes u s).0
    unfolding delete_pod try_call
    delete_pod-AllJustified u (w, errs) doomed =
        let found = check_if_pod_name_exist_and_is_reused u pods in
        elim (Bool-cases (found.0 && not found.1)) [
          | inl e ↦
              let pod =
                check_if_pod_name_exist_and_is_reused-found u pods (ground arith) (ground arith) in
              rw e (record {
                calls = delete_pod_call u.pod_name ∷ [];
                made = refl;
                justified = ((u.id, (u.ip, doomed, pod.0, pod.1)), tt);
              })
          | inr e ↦ rw e (AllJustified-refl w)
        ]

    forget_untrusted-AllJustified :
        (id ip pod_name : Text) (s : World × List Call)
        → Doomed infos nodes id ip pod_name
        → AllJustified infos pods dry_run nodes s.0
            (forget_untrusted replies pods dry_run nodes id s).0
    unfolding forget_untrusted try_call
    forget_untrusted-AllJustified id ip pod_name (w, errs) doomed =
        let after = (forget_untrusted replies pods dry_run nodes id (w, errs)).0 in
        elim (Bool-cases dry_run) [
          | inl e ↦
              let q : after ≡ w = rw e refl in
              subst (AllJustified infos pods dry_run nodes w) (sym q) (AllJustified-refl w)
          | inr e ↦
              let q : after ≡ issue (forget_node_call id) w = rw e refl in
              record {
                calls = forget_node_call id ∷ [];
                made = ap (λ t. t.calls) q;
                justified = ((e, (ip, (pod_name, doomed))), tt);
              }
        ]

    repaired_world : (s : World × List Call) → (repaired replies pods dry_run nodes s).1 ≡ s.0
    unfolding repaired
    repaired_world (w, errs) = refl

    fix_untrusted-AllJustified :
        (u : Node) (r : Repaired)
        → suspected infos u.id u.ip u.pod_name ≡ true
        → AllJustified infos pods dry_run nodes r.1
            (fix_untrusted replies pods dry_run nodes u.id u r).1
    unfolding fix_untrusted
    fix_untrusted-AllJustified u (done, w, errs) h =
        let deleted = delete_pod replies pods dry_run nodes u (w, errs) in
        let forgot = forget_untrusted replies pods dry_run nodes u.id deleted in
        elim (filter_cases (filter_by_func (reuses_ip u) nodes)) [
          | inl e ↦
              let doomed : Doomed infos nodes u.id u.ip u.pod_name =
                (h, filter_by_func-Unshared u nodes e) in
              rw (e, fix_untrusted)
                (subst (AllJustified infos pods dry_run nodes w) (sym (repaired_world forgot)) (
                  AllJustified-trans w deleted.0 forgot.0
                    (delete_pod-AllJustified u (w, errs) doomed)
                    (forget_untrusted-AllJustified u.id u.ip u.pod_name deleted doomed)))
          | inr (n, (ns, e)) ↦ rw (e, fix_untrusted) (AllJustified-refl w)
        ]

    fix_all_untrusted-AllJustified :
        (m : Dict Text Node) (r : Repaired)
        → all_suspects (suspected infos) m ≡ true
        → AllJustified infos pods dry_run nodes r.1
            (fix_all_untrusted replies pods dry_run nodes m r).1
    unfolding fix_all_untrusted
    fix_all_untrusted-AllJustified [] r a = AllJustified-refl r.1
    fix_all_untrusted-AllJustified ((id, u) ∷ m) r a =
        let next = fix_untrusted replies pods dry_run nodes id u r in
        let same : u.id ≡ id = (text_eq_iff u.id id).0 (ground arith) in
        AllJustified-trans r.1 next.1 _
          (subst
            (λ i.
              AllJustified infos pods dry_run nodes r.1
                (fix_untrusted replies pods dry_run nodes i u r).1)
            same (fix_untrusted-AllJustified u r (ground arith)))
          (fix_all_untrusted-AllJustified m next (ground arith))

-- No entry of the views is nil, and none lacks its own node.
abbrev pub all_complete : Infos → Bool
all_complete [] = true
all_complete ((addr, none) ∷ infos) = false
all_complete ((addr, some view) ∷ infos) =
    let rest = all_complete infos in elim view.node [ none ↦ false | some n ↦ rest ]

all_complete-all_present : (infos : Infos) → all_complete infos ≡ true → all_present infos ≡ true
all_complete-all_present [] c = refl
all_complete-all_present ((addr, none) ∷ infos) c = c
all_complete-all_present ((addr, some view) ∷ infos) c = elim (Option-cases view.node) [
  | inl e ↦ absurd (let d = (let d = c in rw e at (d)) in ground arith)
  | inr (n, e) ↦ all_complete-all_present infos (let d = c in rw e at (d))
]

get_nodes_total :
    (infos : Infos) → all_complete infos ≡ true → (nodes : Nodes) × (get_nodes infos ≡ some nodes)
unfolding get_nodes with_node
get_nodes_total [] c = ([], refl)
get_nodes_total ((addr, none) ∷ infos) c = absurd (ground arith)
get_nodes_total ((addr, some view) ∷ infos) c = elim (Option-cases view.node) [
  | inl e ↦ absurd (let d = (let d = c in rw e at (d)) in ground arith)
  | inr (n, e) ↦
      let rest = get_nodes_total infos (let d = c in rw e at (d)) in
      (n ∷ rest.0, rw (e, rest.1) refl)
]

fix_entries-AllJustified :
    (infos : Infos) (replies : Replies) (pods : List Pod) (dry_run : Bool) (nodes : Nodes)
    (m : Dict Text Node) (w : World)
    → all_suspects (suspected infos) m ≡ true
    → (r : Repaired) × (fix_entries replies pods dry_run (some nodes) m w ≡ some r)
      × AllJustified infos pods dry_run nodes w r.1
unfolding fix_entries
fix_entries-AllJustified infos replies pods dry_run nodes [] w a =
    ((false, w, []), refl, AllJustified-refl infos pods dry_run nodes w)
fix_entries-AllJustified infos replies pods dry_run nodes (u ∷ m) w a = (
  fix_all_untrusted replies pods dry_run nodes (u ∷ m) (false, w, []),
  refl,
  fix_all_untrusted-AllJustified infos pods dry_run nodes replies (u ∷ m) (false, w, []) a,
)

-- FixUntrustedNodes does not panic on views that are complete, that is, where neither a view nor a
-- view's own node is nil, and whatever it does is justified. It deletes a pod only if some view has a
-- node in handshake that gives the pod's name, a pod with the name exists, none of them has the node's
-- address, and no node with another id has it; it forgets only such a node, and only outside a dry run.
pub fix_untrusted_nodes-AllJustified :
    (replies : Replies) (order : MapOrder Node) (pods : List Pod) (dry_run : Bool) (infos : Infos)
    (w : World)
    → all_complete infos ≡ true
    → (nodes : Nodes) × (get_nodes infos ≡ some nodes)
      × ((r : Repaired) × (fix_untrusted_nodes replies order pods dry_run infos w ≡ some r)
          × AllJustified infos pods dry_run nodes w r.1)
unfolding fix_untrusted_nodes fix_listed list_untrusted_nodes
fix_untrusted_nodes-AllJustified replies order pods dry_run infos w p =
    let S = suspected infos in
    let found =
      untrusted_views-suspects S infos [] (all_complete-all_present infos p) refl
        (λ id ip pod_name e. e) in
    let m = found.0 in
    let ordered : all_suspects S (order.range m) ≡ true =
      ∥∥₁_elim (order.range_perm m) (hlevel) (all_suspects-permᴰ S) ∙ found.2 in
    let nodes = get_nodes_total infos p in
    (
      nodes.0,
      nodes.1,
      rw (found.1, nodes.1)
          (fix_entries-AllJustified infos replies pods dry_run nodes.0 (order.range m) w ordered),
    )
