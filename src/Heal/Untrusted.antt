-- ===== src/Heal/Untrusted.antt =====
-- FixUntrustedNodes (pkg/controller/heal/untrustenodes.go).
pub mod Suspects
pub mod Justified
use mathlib.Core.Path.{subst}
use mathlib.Core.Logic.{∥∥₁_elim}
use mathlib.Core.List.{Permᴰ}
use redis_cluster_operator.Common.{
  ℕ, ◌≡◌, refl, sym, ◌∙◌, ap, Bool, true, false, ◌&&◌, ◌||◌, not, Option, none, some, List, [], ◌∷◌,
  ◌++◌, if◌then◌else◌, inl, inr, ◌⊎◌, Bool-cases, Option-cases, All, All-append, Text, text_eq,
  is_empty, Dict, Eq, text_eq_key, lookup, insert, arith,
}
use redis_cluster_operator.Node.{Node, Nodes, has_status, status_handshake, filter_by_func}
use redis_cluster_operator.Clustering.{MapOrder}
use redis_cluster_operator.Admin.{
  Call, forget_node_call, delete_pod_call, World, Replies, issue, pushed, pushed-append,
}
use redis_cluster_operator.Heal.{NodeInfos, Infos, try_call}
use redis_cluster_operator.Heal.Ghosts.{Repaired, all_present}

-- corev1.Pod: the name, and the address in the status.
pub record Pod : Type 0 where
  pub name : Text
  pub pod_ip : Text

-- The first view of a node in handshake counts.
unfoldable pub untrusted_node : Node → Dict Text Node → Dict Text Node
untrusted_node n m =
    if has_status n status_handshake
    then elim (lookup n.id m) [ none ↦ insert n.id n m | some old ↦ m ]
    else m

unfoldable pub untrusted_friends : Nodes → Dict Text Node → Dict Text Node
unfolding untrusted_node
untrusted_friends [] m = m
untrusted_friends (n ∷ ns) m = untrusted_friends ns (untrusted_node n m)

-- `none` is the dereference of a nil entry.
unfoldable pub untrusted_views : Infos → Dict Text Node → Option (Dict Text Node)
unfolding untrusted_friends
untrusted_views [] m = some m
untrusted_views ((addr, none) ∷ infos) m = none
untrusted_views ((addr, some view) ∷ infos) m =
    untrusted_views infos (untrusted_friends view.friends m)

unfoldable pub list_untrusted_nodes : Infos → Option (Dict Text Node)
unfolding untrusted_views
list_untrusted_nodes infos = untrusted_views infos []

-- Whether a pod has the node's pod name, and whether such a pod has the node's address. The loop
-- stops at the first pod that has both.
unfoldable pub check_pods : Node → List Pod → Bool → Bool × Bool
check_pods n [] exist = (exist, false)
check_pods n (p ∷ pods) exist =
    let named = text_eq p.name n.pod_name in
    if named && text_eq p.pod_ip n.ip then (true, true) else check_pods n pods (exist || named)

unfoldable pub check_if_pod_name_exist_and_is_reused : Node → List Pod → Bool × Bool
unfolding check_pods
check_if_pod_name_exist_and_is_reused n pods =
    if is_empty n.pod_name then (false, false) else check_pods n pods false

unfoldable pub with_node : Option Node → Option Nodes → Option Nodes
with_node (some n) (some ns) = some (n ∷ ns)
with_node _ _ = none

-- infos.GetNodes(): how each node sees itself. `none` is a nil entry, or a nil node, which
-- getByIPFunc dereferences.
unfoldable pub get_nodes : Infos → Option Nodes
unfolding with_node
get_nodes [] = some []
get_nodes ((addr, none) ∷ infos) = none
get_nodes ((addr, some view) ∷ infos) = with_node view.node (get_nodes infos)

-- getByIPFunc
unfoldable pub reuses_ip : Node → Node → Bool
reuses_ip u n = text_eq n.ip u.ip && not (text_eq n.id u.id)

module _ (replies : Replies) (pods : List Pod) (dry_run : Bool) (nodes : Nodes) where
  -- The pod is deleted also in a dry run.
  unfoldable pub delete_pod : Node → World × List Call → World × List Call
  unfolding try_call
  delete_pod u s =
      let found = check_if_pod_name_exist_and_is_reused u pods in
      if found.0 && not found.1 then try_call replies (delete_pod_call u.pod_name) s else s

  unfoldable pub forget_untrusted : Text → World × List Call → World × List Call
  unfolding try_call
  forget_untrusted id s = if dry_run then s else try_call replies (forget_node_call id) s

  unfoldable pub repaired : World × List Call → Repaired
  repaired (w, errs) = (true, w, errs)

  -- A node whose address another node has is left alone.
  unfoldable pub fix_untrusted : Text → Node → Repaired → Repaired
  unfolding delete_pod forget_untrusted repaired
  fix_untrusted id u (done, w, errs) = elim (filter_by_func (reuses_ip u) nodes) [
    | [] ↦ repaired (forget_untrusted id (delete_pod u (w, errs)))
    | n ∷ ns ↦ (done, w, errs)
  ]

  unfoldable pub fix_all_untrusted : Dict Text Node → Repaired → Repaired
  unfolding fix_untrusted
  fix_all_untrusted [] r = r
  fix_all_untrusted ((id, u) ∷ m) r = fix_all_untrusted m (fix_untrusted id u r)

unfoldable pub fix_entries :
    Replies → List Pod → Bool → Option Nodes → Dict Text Node → World → Option Repaired
unfolding fix_all_untrusted
fix_entries replies pods dry_run nodes [] w = some (false, w, [])
fix_entries replies pods dry_run none (u ∷ m) w = none
fix_entries replies pods dry_run (some nodes) (u ∷ m) w =
    some (fix_all_untrusted replies pods dry_run nodes (u ∷ m) (false, w, []))

unfoldable pub fix_listed :
    Replies
    → MapOrder Node
    → List Pod
    → Bool
    → Infos
    → World
    → Option (Dict Text Node)
    → Option Repaired
unfolding fix_entries get_nodes
fix_listed replies order pods dry_run infos w none = none
fix_listed replies order pods dry_run infos w (some m) =
    fix_entries replies pods dry_run (get_nodes infos) (order.range m) w

unfoldable pub fix_untrusted_nodes :
    Replies → MapOrder Node → List Pod → (dry_run : Bool) → Infos → World → Option Repaired
unfolding fix_listed list_untrusted_nodes
fix_untrusted_nodes replies order pods dry_run infos w =
    fix_listed replies order pods dry_run infos w (list_untrusted_nodes infos)
