-- ===== src/Backup/Handle.antt =====
-- pkg/controller/redisclusterbackup/sync_handler.go and helper.go: what the handler changes of a backup,
-- and handleBackupJob. Log output is left out; an update leaves the backup in memory as it is.
use redis_cluster_operator.Common.{
  ℕ, Bool, true, false, Option, none, some, List, [], ◌∷◌, if◌then◌else◌, Text, codes, text_eq,
  text_eq_key, insert, pure, raise, modify, ◌>>=◌, ◌>>◌, on_error,
}
use redis_cluster_operator.Kube.{KubeError, other, is_not_found}
use redis_cluster_operator.Backup.{
  BackupPhase, phase_running, phase_succeeded, phase_failed, phase_ignored, without,
  label_cluster_name, label_backup_status, job_name,
}
use redis_cluster_operator.Backup.Job.{
  World, Api, Step, update_cr_status, update_cr, get_cluster, get_job, Event, backup_error,
  backup_failed, backup_successful, Job, job_complete, Condition, is_job_finished, ask, read, event,
  repository_kind,
}
use redis_cluster_operator.Resource.{DistributedRedisCluster}

abbrev pub is_completed : BackupPhase → Bool
is_completed phase_failed = true
is_completed phase_succeeded = true
is_completed phase_ignored = true
is_completed _ = false

-- What the handlers change of the backup in memory.
unfoldable pub set_start_time : ℕ → World → World
set_start_time t w = record w { backup = record (w.backup) { start_time = some t } }

unfoldable pub drop_status_label : World → World
drop_status_label w = record w {
  backup = record (w.backup) { labels = without label_backup_status w.backup.labels };
}

unfoldable pub set_ended : BackupPhase → Text → ℕ → World → World
set_ended phase reason t w = record w {
  backup = record (w.backup) { completion_time = some t; phase = phase; reason = reason };
}

unfoldable pub set_finished : Bool → ℕ → World → World
unfolding set_ended
set_finished true t w = set_ended phase_succeeded w.backup.reason t w
set_finished false t w = set_ended phase_failed (codes "run batch job failed") t w

unfoldable pub set_running : DistributedRedisCluster → World → World
set_running c w = record w {
  backup = record (w.backup) {
    phase = phase_running;
    master_size = c.spec.master_size;
    cluster_replicas = c.spec.cluster_replicas;
    cluster_image = c.spec.image;
  };
}

unfoldable pub set_labels : World → World
set_labels w = record w {
  backup = record (w.backup) {
    labels =
        insert label_backup_status (codes "Running")
          (insert label_cluster_name w.backup.redis_cluster_name w.backup.labels);
  };
}

module _ (api : Api) where
  -- UpdateCRStatus and UpdateCR of the backup as it stands.
  unfoldable pub save_status : Step (Unit {0})
  unfolding ask
  save_status w = ask api (update_cr_status w.backup) w

  unfoldable pub save : Step (Unit {0})
  unfolding ask
  save w = ask api (update_cr w.backup) w

  -- The event of an error, and the error.
  unfoldable pub report : {A : Type 0} → Event → KubeError → Step A
  unfolding event
  report e error = event api e >> raise error

  -- markAsFailedBackup and markAsIgnoredBackup
  unfoldable pub mark_as : BackupPhase → Text → Step (Unit {0})
  unfolding save_status set_ended
  mark_as phase reason w = save_status (set_ended phase reason (api.now w.requests) w)

  -- A call whose error is not looked at.
  abbrev pub ignoring_error : Step (Unit {0}) → Step (Unit {0})
  ignoring_error m = on_error m (λ e. pure tt)

  unfoldable pub read_cluster : Step DistributedRedisCluster
  unfolding read
  read_cluster = read api get_cluster api.cluster_of

  -- The status label goes, and the error of the update is reported.
  unfoldable pub drop_label : Step (Unit {0})
  unfolding save report drop_status_label
  drop_label = modify drop_status_label >> on_error save (report backup_error)

  unfoldable pub ignore_backup : Text → Step (Unit {0})
  unfolding mark_as drop_label event
  ignore_backup msg = do
    ignoring_error (mark_as phase_ignored msg)
    drop_label
    event api backup_failed

  abbrev pub end_event : Bool → Event
  end_event succeeded = if succeeded then backup_successful else backup_failed

  -- The end is stored, and two events are recorded, of the backup and of the cluster.
  unfoldable pub store_end : Bool → Step (Unit {0})
  unfolding save_status drop_label event report
  store_end succeeded = do
    on_error save_status (report backup_error)
    drop_label
    event api (end_event succeeded)
    event api (end_event succeeded)

  -- The end of the job of this backup.
  unfoldable pub finish : Bool → Step (Unit {0})
  unfolding store_end set_finished
  finish succeeded w = store_end succeeded (set_finished succeeded (api.now w.requests) w)

  -- jobType == batchv1.JobComplete for the type of the first condition
  unfoldable pub is_complete : List Condition → Bool
  is_complete [] = false
  is_complete (c ∷ cs) = elim c.kind [ job_complete ↦ true | _ ↦ false ]

  -- The loop over the owners of the job, which ends at the first backup among them.
  unfoldable pub handle_owners : Bool → List (Text × Text) → Step (Unit {0})
  unfolding finish ignore_backup
  handle_owners succeeded [] w = pure tt w
  handle_owners succeeded ((kind, name) ∷ owners) w =
      let rest = handle_owners succeeded owners in
      let ended =
        if text_eq name w.backup.name
        then finish succeeded
        else ignore_backup (codes "One Backup is already Running") in
      (if text_eq kind repository_kind then ended else rest) w

  unfoldable pub check_job : Job → Step (Unit {0})
  unfolding is_job_finished read_cluster report handle_owners is_complete
  check_job job =
      if is_job_finished job
      then (on_error read_cluster (report backup_error)
          >> handle_owners (is_complete job.conditions) job.owners)
      else raise (record { reason = other; message = codes "wait for job Succeeded or Failed" })

  -- The job that was asked for, or none if there is no such job.
  unfoldable pub find_job : Text → Step (Option Job)
  unfolding read
  find_job name =
      on_error (read api (get_job name) api.job_of >>= λ j. pure (some j))
        λ e. if is_not_found e then pure none else raise e

  unfoldable pub handle_found : Option Job → Step (Unit {0})
  unfolding check_job ignore_backup
  handle_found none = ignore_backup (codes "One Backup is already Running, Job not found")
  handle_found (some job) = check_job job

  unfoldable pub handle_backup_job : Step (Unit {0})
  unfolding find_job handle_found
  handle_backup_job w = (find_job (job_name w.backup) >>= handle_found) w
