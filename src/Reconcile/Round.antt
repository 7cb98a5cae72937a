-- ===== src/Reconcile/Round.antt =====
-- pkg/controller/distributedrediscluster/distributedrediscluster_controller.go: one round of the
-- controller. A round that ends early raises its decision.
pub mod Steps
pub mod Restoring
pub mod Restore
pub mod Healthy
mod Examples
use redis_cluster_operator.Common.{
  ℕ, ltb, Bool, true, false, ◌&&◌, Option, none, some, List, [], ◌∷◌, if◌then◌else◌, Text, codes,
  Result, ok, err, Action, pure, raise, gets, modify, ◌>>=◌, ◌>>◌, on_error,
}
use redis_cluster_operator.Kube.{KubeError, is_not_found}
use redis_cluster_operator.Node.{Nodes}
use redis_cluster_operator.Status.{ClusterStatus, Pod, build_cluster_status, set_cluster_status}
use redis_cluster_operator.Backup.{Backup}
use redis_cluster_operator.Resource.{
  DistributedRedisCluster, Spec, is_restore_from_backup, is_restore_running, is_restore_restarting,
  restore_phase_restart, restore_phase_succeeded,
}
use redis_cluster_operator.Reconcile.{
  ErrorType, kubernetes_error, redis_error, requeue_error, stop_retry, no_type, cluster_error,
  TypedError, Request, fetch, update_stateful_sets, wait_stateful_sets, get_pods, new_password,
  new_admin, get_cluster_infos, heal, attach_node, set_config_if_need, list_stateful_sets,
  sync_cluster, World, Env, wrap, set_status, set_restore_phase, ask, read, save_status, save,
  update_cluster_if_need, wrapping, need_cluster_operation,
}
use redis_cluster_operator.Reconcile.Ensure.{ensure_cluster, wait_pod_ready, set_spec}

-- reconcile.Result with the error: nothing more to do, once more at once, once more after a number of
-- seconds, or an error.
pub data Decision : Type 0 where
  done requeue : Decision
  requeue_after : ℕ → Decision
  failed : TypedError → Decision

abbrev pub after_seconds : ℕ
after_seconds = 10

abbrev pub Round : Type 0 → Type 0
Round A = Action World Decision A

abbrev pub is_stop_retry : ErrorType → Bool
is_stop_retry stop_retry = true
is_stop_retry _ = false

abbrev pub is_kubernetes : ErrorType → Bool
is_kubernetes kubernetes_error = true
is_kubernetes _ = false

abbrev pub is_requeue : ErrorType → Bool
is_requeue requeue_error = true
is_requeue _ = false

-- Spec.ClusterReplicas = Status.Restore.Backup.Status.ClusterReplicas. The panic on a nil backup,
-- which is `none`, is left out.
unfoldable pub with_replicas_of : Option Backup → Spec → Spec
with_replicas_of none s = s
with_replicas_of (some b) s = record s { cluster_replicas = b.cluster_replicas }

-- A call whose error ends the round, with a type or without one.
module _ {A : Type 0} where
  unfoldable pub must : ErrorType → Text → Action World KubeError A → Round A
  unfolding wrap
  must t msg m = on_error m (λ e. raise (failed (wrap t msg e)))

  unfoldable pub must_untyped : Action World KubeError A → Round A
  must_untyped m = on_error m (λ e. raise (failed (record { error_type = no_type; cause = e })))

module _ (env : Env) where
  -- The status is noted, and the round ends.
  unfoldable pub note : Text → Text → Decision → Round (Unit {0})
  unfolding update_cluster_if_need set_cluster_status
  note status reason decision =
      modify (λ w. update_cluster_if_need env (set_cluster_status status reason w.cluster.status) w)
      >> raise decision

  unfoldable pub fetch_cluster : Round (Unit {0})
  unfolding ask
  fetch_cluster =
      on_error (ask env fetch) (λ e.
        raise
          (if is_not_found e then done else failed (record { error_type = no_type; cause = e })))
      >> modify (λ w. record w { cluster = env.fetched w.requests })

  unfoldable pub ensure : Round (Unit {0})
  unfolding ensure_cluster note
  ensure = on_error (ensure_cluster env) λ e.
      if is_stop_retry e.error_type
      then raise done
      else note (codes "Scaling") e.cause.message (requeue_after after_seconds)

  unfoldable pub wait_ready : Round (Unit {0})
  unfolding wait_pod_ready note
  wait_ready = on_error (wait_pod_ready env) λ e.
      if is_kubernetes e.error_type
      then raise (failed e)
      else note (codes "Scaling") e.cause.message (requeue_after after_seconds)

  -- An error is looked at only if the views of the first request of the round are partial.
  unfoldable pub views_failed : Bool → KubeError → Round (Unit {0})
  unfolding wrap
  views_failed partial e =
      if partial then raise (failed (wrap redis_error (codes "GetClusterInfos") e)) else pure tt

  -- The nodes of the views.
  unfoldable pub first_views : Round Nodes
  unfolding ask views_failed
  first_views =
      on_error (ask env get_cluster_infos) (λ e w. views_failed (env.is_partial w.requests) e w)
      >> gets (λ w. env.nodes_of w.requests)

  unfoldable pub heal_cluster : Round (Unit {0})
  unfolding must read
  heal_cluster = do
    again ← must redis_error (codes "Heal") (read env heal env.flag)
    if again then raise (requeue_after after_seconds) else pure tt

  -- The panic on a nil node, when there was no view, is left out.
  unfoldable pub wait_for_cluster_join : Action World TypedError (Unit {0})
  unfolding ask wrapping
  wait_for_cluster_join = on_error (ask env get_cluster_infos) λ e.
      wrapping redis_error (codes "AttachNodeToCluster") (ask env attach_node)
      >> wrapping requeue_error (codes "wait for cluster join") (ask env get_cluster_infos)

  unfoldable pub join : Round (Unit {0})
  unfolding wait_for_cluster_join note
  join = on_error wait_for_cluster_join λ e.
      if is_requeue e.error_type
      then raise (requeue_after after_seconds)
      else note (codes "Failed") e.cause.message (failed e)

  unfoldable pub restart_masters : Round (Unit {0})
  unfolding must_untyped save_status ask set_restore_phase
  restart_masters = do
    modify (set_restore_phase restore_phase_restart)
    must_untyped (save_status env)
    must_untyped (ask env update_stateful_sets)
    must_untyped (ask env wait_stateful_sets)
    raise requeue

  unfoldable pub finish_restore : Round (Unit {0})
  unfolding must_untyped save_status save set_restore_phase with_replicas_of set_spec
  finish_restore = do
    modify (set_restore_phase restore_phase_succeeded)
    must_untyped (save_status env)
    modify (λ w. set_spec (with_replicas_of w.cluster.restore_backup w.cluster.spec) w)
    must_untyped (save env)
    raise done

  unfoldable pub restore : Round (Unit {0})
  unfolding restart_masters finish_restore is_restore_from_backup is_restore_running
      is_restore_restarting
  restore w =
      (if is_restore_from_backup w.cluster && is_restore_running w.cluster
          then restart_masters
          else if is_restore_from_backup w.cluster && is_restore_restarting w.cluster
          then finish_restore
          else pure tt)
        w

  -- isScalingDown: an error counts as no.
  unfoldable pub is_scaling_down : Round Bool
  unfolding read
  is_scaling_down =
      on_error
        (read env list_stateful_sets env.count >>= λ n.
          gets (λ w. ltb w.cluster.spec.master_size n))
        (λ e. pure false)

  unfoldable pub rebalancing_if : Bool → ClusterStatus → ClusterStatus
  unfolding set_cluster_status
  rebalancing_if true s = set_cluster_status (codes "Rebalancing") (codes "scaling down") s
  rebalancing_if false s = s

  unfoldable pub store_found : Nodes → List Pod → Bool → World → World
  unfolding rebalancing_if build_cluster_status update_cluster_if_need set_status
  store_found nodes pods down w =
      let s = rebalancing_if down (build_cluster_status env.order nodes pods w.cluster.status) in
      set_status s (update_cluster_if_need env s w)

  -- The status as it is found before any operation.
  unfoldable pub note_found : Nodes → List Pod → Round (Unit {0})
  unfolding is_scaling_down store_found
  note_found nodes pods = is_scaling_down >>= λ down. modify (store_found nodes pods down)

  -- The type of a failure of syncCluster is not looked at.
  unfoldable pub operate : Round (Unit {0})
  unfolding need_cluster_operation ask note
  operate w =
      (if need_cluster_operation w.cluster
          then on_error (ask env sync_cluster) (λ e.
            note (codes "Failed") e.message
              (failed (record { error_type = cluster_error; cause = e })))
          else pure tt)
        w

  unfoldable pub store_healthy : List Pod → World → World
  unfolding build_cluster_status set_cluster_status update_cluster_if_need
  store_healthy pods w =
      update_cluster_if_need env
        (set_cluster_status (codes "Healthy") (codes "OK")
          (build_cluster_status env.order (env.nodes_of w.requests) pods w.cluster.status))
        w

  -- The end of a round: the views are read again, and the cluster is healthy.
  unfoldable pub note_healthy : (first_partial : Bool) → List Pod → Round (Unit {0})
  unfolding ask views_failed store_healthy
  note_healthy first_partial pods =
      on_error (ask env get_cluster_infos) (views_failed first_partial)
      >> modify (store_healthy pods)

  -- What is done to the resource that was found.
  unfoldable pub serve : Round (Unit {0})
  unfolding ensure must read wait_ready ask first_views heal_cluster join restore note_found operate
      note_healthy
  serve = do
    ensure
    pods ← must kubernetes_error (codes "GetStatefulSetPods") (read env get_pods env.pods_of)
    wait_ready
    must kubernetes_error (codes "getClusterPassword") (ask env new_password)
    must redis_error (codes "newRedisAdmin") (ask env new_admin)
    nodes ← first_views
    partial ← gets (λ w. env.is_partial w.requests)
    heal_cluster
    join
    restore
    must redis_error (codes "SetConfigIfNeed") (ask env set_config_if_need)
    note_found nodes pods
    operate
    note_healthy partial pods

  unfoldable pub round : Round (Unit {0})
  unfolding fetch_cluster serve
  round = fetch_cluster >> serve

  -- Reconcile
  unfoldable pub reconcile : World → Decision × World
  unfolding round
  reconcile w =
      let (r, w') = round w in
      (elim r [ ok healthy ↦ requeue_after env.reconcile_time | err d ↦ d ], w')
