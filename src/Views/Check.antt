-- ===== src/Views/Check.antt =====
-- pkg/redisutil/clusterinfo.go and GetClusterInfos of admin.go: whether the views of all nodes agree.
-- A map is the list of its entries in the order in which the runtime visits it.
use redis_cluster_operator.Common.{
  ℕ, Bool, true, false, ◌&&◌, not, Option, none, some, List, [], ◌∷◌, ◌++◌, ◌==◌, if◌then◌else◌,
  length, map, Perm, Text, text_eq, Dict, text_eq_key, insert, lookup, take,
}
use redis_cluster_operator.Node.{Nodes, redis_master_role, ip_port}
use redis_cluster_operator.Views.{View, decode_node_infos}

pub data InfosStatus : Type 0 where
  unset partial inconsistent consistent : InfosStatus

pub record ClusterInfos : Type 0 where
  pub infos : Dict Text View
  pub status : InfosStatus

-- ClusterInfosError, with the addresses whose errors it holds.
pub record ClusterInfosError : Type 0 where
  pub errs : List Text
  pub is_partial : Bool
  pub is_inconsistent : Bool

-- What the runtime chooses: how sort.Sort orders the nodes by their ids, of which only is used that it
-- permutes them, and whether appending to a slice writes into its array.
pub record Choices : Type 0 where
  pub sort_by_id : Nodes → Nodes
  pub sort_perm : (ns : Nodes) → Perm (sort_by_id ns) ns
  pub reuses_array : Nodes → Bool

-- ConfigSignature
abbrev pub ConfigSignature : Type 0
ConfigSignature = Dict Text (List ℕ)

unfoldable pub signature_from : Nodes → ConfigSignature → ConfigSignature
signature_from [] m = m
signature_from (n ∷ ns) m =
    signature_from ns (if text_eq n.role redis_master_role then insert (ip_port n) n.slots m else m)

unfoldable pub get_config_signature : Nodes → ConfigSignature
unfolding signature_from
get_config_signature nodes = signature_from nodes []

unfoldable pub equal_slots : List ℕ → List ℕ → Bool
equal_slots [] [] = true
equal_slots (a ∷ xs) (b ∷ ys) = let rest = equal_slots xs ys in a == b && rest
equal_slots _ _ = false

unfoldable pub same_entry : Option (List ℕ) → Option (List ℕ) → Bool
unfolding equal_slots
same_entry none none = true
same_entry (some xs) (some ys) = equal_slots xs ys
same_entry _ _ = false

-- What both maps hold at the keys of a map is equal.
unfoldable pub same_at : ConfigSignature → ConfigSignature → ConfigSignature → Bool
unfolding same_entry
same_at m n [] = true
same_at m n ((k, slots) ∷ rest) =
    let more = same_at m n rest in same_entry (lookup k m) (lookup k n) && more

-- reflect.DeepEqual: both maps have the same keys, and equal slots at each.
unfoldable pub deep_equal : ConfigSignature → ConfigSignature → Bool
unfolding same_at
deep_equal m n = same_at m n m && same_at m n n

unfoldable pub own_nodes : Dict Text View → Nodes
own_nodes infos = map (λ e. e.1.node) infos

module _ (ch : Choices) where
  -- append(nodeinfos.Friends, nodeinfos.Node).SortByFunc(LessByID)
  unfoldable pub nodes_view : View → Nodes
  nodes_view v = ch.sort_by_id (v.friends ++ v.node ∷ [])

  unfoldable pub consolidated_signature : Dict Text View → ConfigSignature
  unfolding get_config_signature own_nodes
  consolidated_signature infos = get_config_signature (ch.sort_by_id (own_nodes infos))

  unfoldable pub all_agree : ConfigSignature → Dict Text View → Bool
  unfolding deep_equal get_config_signature nodes_view
  all_agree consolidated [] = true
  all_agree consolidated ((addr, v) ∷ infos) =
      let rest = all_agree consolidated infos in
      deep_equal consolidated (get_config_signature (nodes_view v)) && rest

  -- Sorting in place also sorts the friends, when they share the array of the sorted slice.
  unfoldable pub friends_after : View → View
  unfolding nodes_view
  friends_after v =
      if ch.reuses_array v.friends
      then record v { friends = take (length v.friends) (nodes_view v) }
      else v

  -- ComputeStatus: the status stays as it is if it is set.
  unfoldable pub compute_status : ClusterInfos → ClusterInfos × Bool
  unfolding consolidated_signature all_agree friends_after
  compute_status c =
      let agree = all_agree (consolidated_signature c.infos) c.infos in
      let after = map (λ e. (e.0, friends_after e.1)) c.infos in
      elim c.status [
        | unset ↦
            (record { infos = after; status = if agree then consistent else inconsistent }, agree)
        | partial ↦ (c, false)
        | inconsistent ↦ (c, false)
        | consistent ↦ (c, false)
      ]

  -- The loop of GetClusterInfos over the addresses with a connection. A parameter gives the reply to
  -- CLUSTER NODES, `none` for an error; the outer `none` is a range whose loop does not end.
  module _ (reply : Text → Option Text) where
    unfoldable pub note_view : Text → View → ClusterInfos → ClusterInfos
    note_view addr v c =
        if text_eq (ip_port v.node) addr then record c { infos = insert addr v c.infos } else c

    unfoldable pub read_views :
        List Text → ClusterInfos → List Text → Option (ClusterInfos × List Text)
    unfolding note_view decode_node_infos
    read_views [] c errs = some (c, errs)
    read_views (addr ∷ addrs) c errs = elim (reply addr) [
      | none ↦ read_views addrs (record c { status = partial }) (errs ++ addr ∷ [])
      | some raw ↦ elim (decode_node_infos raw addr) [
        | none ↦ none
        | some v ↦ read_views addrs (note_view addr v c) errs
      ]
    ]

    error_unless : InfosStatus → ClusterInfosError → Option ClusterInfosError
    error_unless consistent e = none
    error_unless _ e = some e

    unfoldable pub judge : ClusterInfos → List Text → ClusterInfos × Option ClusterInfosError
    unfolding compute_status error_unless
    judge c [] =
        let (c', agree) = compute_status c in
        (
          c',
          error_unless c'.status
              (record { errs = []; is_partial = false; is_inconsistent = not agree }),
        )
    judge c (addr ∷ errs) = (
      c,
      error_unless c.status
          (record { errs = addr ∷ errs; is_partial = true; is_inconsistent = false }),
    )

    unfoldable pub judge_read :
        Option (ClusterInfos × List Text) → Option (ClusterInfos × Option ClusterInfosError)
    unfolding judge
    judge_read none = none
    judge_read (some (c, errs)) = some (judge c errs)

    -- GetClusterInfos
    unfoldable pub get_cluster_infos : List Text → Option (ClusterInfos × Option ClusterInfosError)
    unfolding read_views judge_read
    get_cluster_infos addrs =
        judge_read (read_views addrs (record { infos = []; status = unset }) [])
