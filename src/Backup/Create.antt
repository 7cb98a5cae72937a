-- ===== src/Backup/Create.antt =====
-- pkg/controller/redisclusterbackup/sync_handler.go and helper.go: the handler of a backup. Log
-- output is left out; an update leaves the backup in memory as it is.
use redis_cluster_operator.Common.{
  ℕ, ltb, Bool, ◌&&◌, Option, none, some, ◌++◌, if◌then◌else◌, Text, codes, text_eq_key, ok, err,
  pure, raise, modify, ◌>>=◌, ◌>>◌, on_error,
}
use redis_cluster_operator.Kube.{KubeError, is_not_found, is_request_retryable}
use redis_cluster_operator.Backup.{phase_failed, validate, rclone_secret_name, LocalSpec}
use redis_cluster_operator.Backup.Job.{
  Api, Step, list_backups, list_jobs, create_job, new_rclone_secret, get_secret, create_secret,
  check_bucket_access, backup_error, backup_failed, starting, Job, ask, read, event, get_backup_job,
}
use redis_cluster_operator.Resource.{DistributedRedisCluster}
use redis_cluster_operator.Backup.Handle.{
  drop_label, handle_backup_job, ignoring_error, is_completed, mark_as, read_cluster, report, save,
  save_status, set_labels, set_running, set_start_time,
}

module _ (api : Api) where
  unfoldable pub is_backup_running : Step Bool
  unfolding read
  is_backup_running = do
    backups ← read api list_backups api.items_of
    jobs ← read api list_jobs api.items_of
    pure (ltb 0 backups && ltb 0 jobs)

  unfoldable pub validate_backup : Step (Unit {0})
  unfolding validate read_cluster
  validate_backup w = elim (validate w.backup) [
    | none ↦ ((read_cluster api) >> pure tt) w
    | some e ↦ (err e, w)
  ]

  -- A failure after which the request is not made again.
  unfoldable pub give_up : Text → Step (Unit {0})
  unfolding mark_as event
  give_up reason = ignoring_error api (mark_as api phase_failed reason) >> event api backup_failed

  -- k8sutil.CreateSecret
  unfoldable pub create_new_secret : Text → Step (Unit {0})
  unfolding ask
  create_new_secret name =
      on_error (ask api (get_secret name))
        λ e. if is_not_found e then ask api (create_secret name) else raise e

  unfoldable pub run_job : Job → Step (Unit {0})
  unfolding ask report event
  run_job job = event api starting >> on_error (ask api (create_job job)) (report api backup_error)

  unfoldable pub label_backup : Job → Step (Unit {0})
  unfolding save report set_labels run_job
  label_backup job =
      modify set_labels >> (on_error (save api) (report api backup_error) >> run_job job)

  -- From the status Running to the creation of the job.
  unfoldable pub start_job : DistributedRedisCluster → Job → Step (Unit {0})
  unfolding save_status report set_running label_backup
  start_job c job =
      modify (set_running c)
      >> (on_error (save_status api) (report api backup_failed) >> label_backup job)

  unfoldable pub not_created : KubeError → Step (Unit {0})
  unfolding event mark_as is_request_retryable
  not_created e = do
    event api backup_error
    if is_request_retryable e
        then raise e
        else mark_as api phase_failed (codes "Failed to create Backup Job. Reason: " ++ e.message)

  unfoldable pub build_job : DistributedRedisCluster → Step (Unit {0})
  unfolding get_backup_job not_created start_job
  build_job c w =
      let (r, w') = get_backup_job api w.backup c w in
      elim r [ ok job ↦ start_job c job w' | err e ↦ not_created e w' ]

  unfoldable pub check_bucket : DistributedRedisCluster → Option LocalSpec → Step (Unit {0})
  unfolding ask build_job give_up
  check_bucket c (some local) w = build_job c w
  check_bucket c none w =
      let (r, w') = ask api check_bucket_access w in
      elim r [ ok done ↦ build_job c w' | err e ↦ give_up e.message w' ]

  unfoldable pub make_secret : DistributedRedisCluster → Step (Unit {0})
  unfolding ask give_up create_new_secret report check_bucket
  make_secret c w =
      let name = rclone_secret_name w.backup in
      let (r, w') = ask api (new_rclone_secret name) w in
      elim r [
        | ok done ↦
            (on_error (create_new_secret name) (report api backup_error) >> λ w.
            check_bucket c w.backup.backend.local w)
              w'
        | err e ↦ give_up (codes "Failed to generate rclone secret. Reason: " ++ e.message) w'
      ]

  -- Only one backup of a cluster runs at a time.
  unfoldable pub start_or_handle : Bool → Step (Unit {0})
  unfolding report handle_backup_job read_cluster make_secret
  start_or_handle running =
      if running
      then (handle_backup_job api)
      else on_error (read_cluster api) (report api backup_error) >>= make_secret

  -- A backup that is valid.
  unfoldable pub process_valid : Step (Unit {0})
  unfolding is_backup_running report start_or_handle
  process_valid = on_error is_backup_running (report api backup_error) >>= start_or_handle

  unfoldable pub process : Step (Unit {0})
  unfolding validate_backup give_up process_valid is_request_retryable
  process w =
      let (r, w') = validate_backup w in
      elim r [
        | ok done ↦ process_valid w'
        | err e ↦ (if is_request_retryable e then raise e else give_up e.message) w'
      ]

  unfoldable pub set_start : Option ℕ → Step (Unit {0})
  unfolding save_status report set_start_time
  set_start (some t) w = (ok tt, w)
  set_start none w =
      on_error (save_status api) (report api backup_error) (set_start_time (api.now w.requests) w)

  -- Only a backup that is not completed is processed.
  unfoldable pub process_unless : Step (Unit {0})
  unfolding drop_label process
  process_unless w = (if is_completed w.backup.phase then (drop_label api) else process) w

  unfoldable pub create : Step (Unit {0})
  unfolding set_start process_unless
  create = (λ w. set_start w.backup.start_time w) >> process_unless
