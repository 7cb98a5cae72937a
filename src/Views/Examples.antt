-- ===== src/Views/Examples.antt =====
-- Two nodes that reply to CLUSTER NODES.
use mathlib.Core.List.Perm
use redis_cluster_operator.Common.{
  Bool, true, false, Option, none, some, List, [], ◌∷◌, ◌++◌, Text, codes, text_eq, split,
  parse_uint, insert, lookup, text_eq_key, nat_eq, if◌then◌else◌, ◌≡◌, refl, ◌↔◌, Perm, map,
  trim_prefix, trim_suffix,
}
use redis_cluster_operator.Node.{
  Node, Nodes, new_default_node, ip_port, set_role, set_failure_status, set_referent_master,
  set_link_status,
}
use redis_cluster_operator.Slot.{decode_slot_range, build_slot_slice}
use redis_cluster_operator.Views.{View, decode_node_infos, parse_int, host_of}
use redis_cluster_operator.Views.Check.{
  unset, consistent, ClusterInfos, ClusterInfosError, Choices, compute_status, friends_after,
  get_cluster_infos,
}
use redis_cluster_operator.Views.Agree.{
  Agreed, compute_status-Agreed, Reported, unanswered, views_in, get_cluster_infos-Reported,
}

-- The nodes are in order already, and appending makes a new array.
abbrev in_order : Bool → Choices
in_order reuses = record {
  sort_by_id = λ ns. ns;
  sort_perm = λ ns. Perm.refl ns;
  reuses_array = λ ns. reuses;
}

abbrev line : Text → Text → Text → Text
line id flags slots =
    id
    ++ (codes " 10.0.0."
        ++ (id ++ (codes ":6379@16379 " ++ (flags ++ (codes " - 0 7 1 connected " ++ slots)))))

-- What node 1 or 2 says; each has one slot.
abbrev said : Text → Text
said addr =
    if text_eq addr (codes "10.0.0.1:6379")
    then line (codes "1") (codes "myself,master") (codes "0")
      ++ b'\n' ∷ line (codes "2") (codes "master") (codes "5")
    else line (codes "1") (codes "master") (codes "0")
      ++ b'\n' ∷ line (codes "2") (codes "myself,master") (codes "5")

abbrev addrs : List Text
addrs = codes "10.0.0.1:6379" ∷ codes "10.0.0.2:6379" ∷ []

abbrev reply : Text → Option Text
reply addr = some (said addr)

abbrev nothing : ClusterInfos × Option ClusterInfosError
nothing = (record { infos = []; status = unset }, none)

got : ClusterInfos × Option ClusterInfosError
unfolding get_cluster_infos decode_node_infos parse_int host_of split parse_uint decode_slot_range
    build_slot_slice trim_prefix trim_suffix text_eq insert lookup ip_port set_role
    set_failure_status set_referent_master set_link_status
got = elim (get_cluster_infos (in_order false) reply addrs) [ none ↦ nothing | some r ↦ r ]

both_agree : (got.0.status ≡ consistent) × (got.1 ≡ none)
unfolding got
both_agree = (refl, refl)

both_seen : map (λ (e : Text × View). e.1.node.slots) got.0.infos ≡ (0 ∷ []) ∷ (5 ∷ []) ∷ []
unfolding got
both_seen = refl

returned : get_cluster_infos (in_order false) reply addrs ≡ some (got.0, got.1)
unfolding got
returned = refl

get_cluster_infos-Reported_example :
    Reported (in_order false) reply (unanswered reply addrs) (views_in reply addrs []) got.0 got.1
get_cluster_infos-Reported_example =
    get_cluster_infos-Reported (in_order false) reply addrs got.0 got.1 returned

-- A node in the middle of its friends, sorted by id: as the arrays are shared, it becomes a friend of
-- its own and the last friend is lost.
abbrev with_id : Text → Node
with_id id = record new_default_node { id = id }

abbrev by_id : Nodes → Nodes
by_id (a ∷ b ∷ c ∷ d ∷ []) = a ∷ b ∷ d ∷ c ∷ []
by_id ns = ns

by_id_perm : (ns : Nodes) → Perm (by_id ns) ns
by_id_perm (a ∷ b ∷ c ∷ d ∷ []) = Perm.cons a (Perm.cons b (Perm.swap c d []))
by_id_perm ns = Perm.refl ns

friend_lost :
    map
      (λ n. n.id)
      (friends_after
        (record { sort_by_id = by_id; sort_perm = by_id_perm; reuses_array = λ ns. true })
        (record {
          node = with_id (codes "3");
          friends = with_id (codes "1") ∷ with_id (codes "2") ∷ with_id (codes "4") ∷ [];
        })).friends
    ≡ codes "1" ∷ codes "2" ∷ codes "3" ∷ []
unfolding friends_after
friend_lost = refl

compute_status-Agreed_example :
    ((compute_status (in_order false) (record { infos = got.0.infos; status = unset })).1 ≡ true)
    ↔ Agreed (in_order false) got.0.infos
compute_status-Agreed_example = compute_status-Agreed (in_order false) got.0.infos
