-- ===== src/Reconcile/Ensure.antt =====
-- pkg/controller/distributedrediscluster/sync_handler.go: the resource is validated, its defaults are
-- set, and the Kubernetes objects and the password are brought up to date.
use redis_cluster_operator.Common.{
  Bool, true, false, ◌&&◌, ◌||◌, not, Option, none, some, if◌then◌else◌, ◌==◌, Text, codes,
  is_empty, text_eq_key, insert, ok, Action, pure, raise, modify, ◌>>=◌, ◌>>◌, on_error,
}
use redis_cluster_operator.Kube.{KubeError, is_request_retryable, plain_error}
use redis_cluster_operator.Status.{set_cluster_status}
use redis_cluster_operator.Backup.{Backup, BackupPhase, phase_succeeded}
use redis_cluster_operator.Resource.{
  DistributedRedisCluster, Spec, default_spec, is_restore_from_backup, is_restored,
  should_init_restore_phase, is_restore_running, is_restore_restarting, restore_phase_running,
}
use redis_cluster_operator.Reconcile.{
  kubernetes_error, cluster_error, stop_retry, requeue_error, TypedError, get_backup,
  ensure_config_map, ensure_stateful_sets, ensure_headless_svcs, ensure_svc, ensure_rclone_secret,
  wait_stateful_sets, check_redis_node_num, get_first_stateful_set, get_pods, old_password,
  new_password, new_admin, write_password, reset_password, fix_terminating_pods, World, Env,
  set_status, ask, read, save_status, save, wrapping, untyped, wrap,
}

-- What the code changes of the resource in memory.
unfoldable pub set_restore : Backup → World → World
set_restore b w = record w {
  cluster = record (w.cluster) {
    restore_backup = some b;
    status = record (w.cluster.status) { restore_phase = restore_phase_running };
  };
}

unfoldable pub set_spec : Spec → World → World
set_spec s w = record w { cluster = record (w.cluster) { spec = s } }

abbrev pub has_succeeded : BackupPhase → Bool
has_succeeded phase_succeeded = true
has_succeeded _ = false

-- The image and the size of the backup, where the resource has others, and whether it had.
unfoldable pub restored_spec : Backup → Spec → Spec × Bool
restored_spec b s =
    let image = if is_empty s.image then b.cluster_image else s.image in
    (
      record s { image = image; master_size = b.master_size },
      is_empty s.image || not (s.master_size == b.master_size),
    )

unfoldable pub no_append_only : DistributedRedisCluster → Spec
no_append_only c = record (c.spec) {
  config = elim c.spec.config [
    | none ↦ none
    | some m ↦ some (insert (codes "appendonly") (codes "no") m)
  ];
}

-- dbLoadedFromDiskWhenRestore
unfoldable pub db_loaded_from_disk_when_restore : World → World
unfolding no_append_only is_restore_from_backup is_restored set_spec
db_loaded_from_disk_when_restore w =
    if is_restore_from_backup w.cluster && not (is_restored w.cluster)
    then set_spec (no_append_only w.cluster) w
    else w

-- The first loop of a restore starts masters only.
unfoldable pub masters_only : World → World
unfolding is_restore_from_backup is_restore_running is_restore_restarting set_spec
masters_only w =
    if is_restore_from_backup w.cluster
      && (is_restore_running w.cluster || is_restore_restarting w.cluster)
    then set_spec (record (w.cluster.spec) { cluster_replicas = 0 }) w
    else w

module _ (env : Env) where
  unfoldable pub take_backup : Option Backup → Action World KubeError Backup
  unfolding read save_status set_restore
  take_backup (some b) = pure b
  take_backup none = do
    b ← read env get_backup env.backup_of
    if has_succeeded b.phase
        then modify (set_restore b) >> (save_status env >> pure b)
        else raise (plain_error (codes "backup is still running"))

  -- initRestore: whether the specification has changed.
  unfoldable pub init_restore : Action World KubeError Bool
  unfolding take_backup restored_spec set_spec
  init_restore = do
    b ← λ w. take_backup w.cluster.restore_backup w
    λ w. let (s, update) = restored_spec b w.cluster.spec in (ok update, set_spec s w)

  unfoldable pub start_restore : Action World KubeError Bool
  unfolding init_restore is_restore_from_backup should_init_restore_phase
  start_restore w =
      (if is_restore_from_backup w.cluster && should_init_restore_phase w.cluster
          then init_restore
          else pure false)
        w

  -- validateAndSetDefault
  unfoldable pub validate_and_set_default : Action World KubeError (Unit {0})
  unfolding start_restore masters_only default_spec save
  validate_and_set_default = do
    update ← start_restore
    modify masters_only
    λ w.
        let (c, missing) = default_spec w.cluster in
        (if update || missing then save env else pure tt) (record w { cluster = c })

  unfoldable pub set_and_save : Text → Text → Action World TypedError (Unit {0})
  unfolding save_status set_status set_cluster_status
  set_and_save status reason w = (
    ok tt,
    (save_status env (set_status (set_cluster_status status reason w.cluster.status) w)).1,
  )

  unfoldable pub change_password : Action World TypedError (Unit {0})
  unfolding set_and_save ask untyped
  change_password = do
    set_and_save (codes "ResetPassword") (codes "updating cluster's password")
    untyped (ask env get_pods)
    untyped (ask env old_password)
    untyped (ask env new_password)
    untyped (ask env new_admin)
    untyped (ask env write_password)
    untyped (ask env reset_password)

  -- resetClusterPassword: nothing is done until all nodes are there, or while the password is the
  -- old one.
  unfoldable pub all_nodes_there : Action World TypedError Bool
  unfolding ask
  all_nodes_there = on_error (ask env check_redis_node_num >> pure true) (λ e. pure false)

  unfoldable pub change_if : Bool → Action World TypedError (Unit {0})
  unfolding read untyped change_password
  change_if ready =
      if ready
      then (untyped (read env get_first_stateful_set env.flag) >>= λ changed.
          if changed then change_password else pure tt)
      else pure tt

  unfoldable pub reset_cluster_password : Action World TypedError (Unit {0})
  unfolding all_nodes_there change_if
  reset_cluster_password = all_nodes_there >>= change_if

  unfoldable pub after_update : Bool → Action World TypedError (Unit {0})
  unfolding set_and_save ask untyped
  after_update updated =
      if updated
      then set_and_save (codes "RollingUpdate") (codes "cluster spec updated")
        >> untyped (ask env wait_stateful_sets)
      else pure tt

  -- An error that another try may mend, or one that it cannot.
  unfoldable pub retrying :
      {A : Type 0} → Text → Action World KubeError A → Action World TypedError A
  unfolding wrap is_request_retryable
  retrying msg m = on_error m λ e.
      if is_request_retryable e
      then raise (wrap kubernetes_error msg e)
      else raise (wrap stop_retry (codes "stop retry") e)

  unfoldable pub rewrap : Action World TypedError (Unit {0}) → Action World TypedError (Unit {0})
  unfolding wrap
  rewrap m = on_error m (λ e. raise (wrap cluster_error (codes "ResetPassword") e.cause))

  unfoldable pub ensure_cluster : Action World TypedError (Unit {0})
  unfolding validate_and_set_default retrying db_loaded_from_disk_when_restore ask read wrapping
      rewrap reset_cluster_password after_update
  ensure_cluster = do
    retrying (codes "Validate") validate_and_set_default
    modify db_loaded_from_disk_when_restore
    wrapping kubernetes_error (codes "EnsureRedisConfigMap") (ask env ensure_config_map)
    rewrap reset_cluster_password
    updated ←
        wrapping kubernetes_error (codes "EnsureRedisStatefulSets")
          (read env ensure_stateful_sets env.flag)
    after_update updated
    wrapping kubernetes_error (codes "EnsureRedisHeadLessSvcs") (ask env ensure_headless_svcs)
    wrapping kubernetes_error (codes "EnsureRedisSvc") (ask env ensure_svc)
    retrying (codes "EnsureRedisRCloneSecret") (ask env ensure_rclone_secret)

  unfoldable pub wait_pod_ready : Action World TypedError (Unit {0})
  unfolding ask wrapping
  wait_pod_ready = do
    wrapping kubernetes_error (codes "FixTerminatingPods") (ask env fix_terminating_pods)
    wrapping requeue_error (codes "CheckRedisNodeNum") (ask env check_redis_node_num)
