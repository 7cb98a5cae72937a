-- ===== src/Backup/Handled.antt =====
-- The steps that end a backup create no job.
use redis_cluster_operator.Common.{
  ℕ, Bool, true, false, Option, none, some, List, [], ◌∷◌, Text, text_eq, ◌≡◌, refl, pure, modify,
  on_error, ◌++◌, codes, Keeps, Keeps-bind, Keeps-if, Keeps-modify, Keeps-on_error, Keeps-pure,
  Keeps-raise,
}
use redis_cluster_operator.Kube.{KubeError, is_not_found, is_request_retryable}
use redis_cluster_operator.Backup.{BackupPhase, phase_ignored, phase_failed, job_name}
use redis_cluster_operator.Backup.Job.{
  World, Api, Request, update_cr_status, update_cr, get_job, Event, backup_error, backup_failed,
  asked, ask, event, Job, is_job_finished, repository_kind,
}
use redis_cluster_operator.Backup.Handle.{
  drop_status_label, set_ended, set_finished, end_event, store_end, save_status, save, report,
  mark_as, drop_label, ignore_backup, finish, handle_owners, check_job, find_job, handle_found,
  handle_backup_job,
}
use redis_cluster_operator.Backup.Create.{give_up, not_created}
use redis_cluster_operator.Backup.Keeps.{
  is_plain, report-Keeps, event-Keeps, read-Keeps, read_cluster-Keeps,
}

requests-set_finished :
    (succeeded : Bool) (t : ℕ) (w : World) → (set_finished succeeded t w).requests ≡ w.requests
unfolding set_finished
requests-set_finished true t w = refl
requests-set_finished false t w = refl

module _ (api : Api) (P : List Request → Type 0)
    (stable : (r : Request) (hist : List Request) → is_plain r ≡ true → P hist → P (r ∷ hist)) where
  abbrev On : World → Type 0
  On w = P w.requests

  On-stable : (r : Request) (w : World) → is_plain r ≡ true → On w → On (asked r w)
  On-stable r w plain h = stable r w.requests plain h

  pub event-On : (e : Event) → Keeps On (event api e)
  event-On e = event-Keeps api On On-stable e

  pub report-On :
      {A : Type 0} (e : Event) (error : KubeError) → Keeps On (report api {A = A} e error)
  report-On e error = report-Keeps api On On-stable e error

  pub save_status-On : Keeps On (save_status api)
  unfolding save_status ask
  save_status-On = record { at = λ w h. stable (update_cr_status w.backup) w.requests refl h }

  save-On : Keeps On (save api)
  unfolding save ask
  save-On = record { at = λ w h. stable (update_cr w.backup) w.requests refl h }

  pub mark_as-On : (phase : BackupPhase) (reason : Text) → Keeps On (mark_as api phase reason)
  unfolding mark_as set_ended
  mark_as-On phase reason = record { at = λ w h. save_status-On.at _ h }

  pub drop_label-On : Keeps On (drop_label api)
  unfolding drop_label drop_status_label
  drop_label-On =
      Keeps-bind (modify drop_status_label) (λ _. on_error (save api) (report api backup_error))
        (Keeps-modify _ (λ w h. h)) λ _. Keeps-on_error _ _ save-On (λ e. report-On backup_error e)

  ended-On :
      (phase : BackupPhase) (reason : Text)
      → Keeps {E = KubeError} On (on_error (mark_as api phase reason) (λ e. pure tt))
  ended-On phase reason = Keeps-on_error _ _ (mark_as-On phase reason) (λ e. Keeps-pure tt)

  pub give_up-On : (reason : Text) → Keeps On (give_up api reason)
  unfolding give_up
  give_up-On reason = Keeps-bind _ _ (ended-On phase_failed reason) (λ _. event-On backup_failed)

  ignore_backup-On : (msg : Text) → Keeps On (ignore_backup api msg)
  unfolding ignore_backup
  ignore_backup-On msg =
      Keeps-bind _ _ (ended-On phase_ignored msg)
        λ _. Keeps-bind _ _ drop_label-On (λ _. event-On backup_failed)

  finish-On : (succeeded : Bool) → Keeps On (finish api succeeded)
  unfolding finish store_end
  finish-On succeeded = record {
    at = λ w h.
        (Keeps-bind _ _ (Keeps-on_error _ _ save_status-On (λ e. report-On backup_error e)) λ _.
            Keeps-bind _ _ drop_label-On λ _.
              Keeps-bind _ _ (event-On (end_event api succeeded))
                (λ _. event-On (end_event api succeeded))).at
          (set_finished succeeded (api.now w.requests) w)
          (rw (requests-set_finished succeeded (api.now w.requests) w) h);
  }

  handle_owners-On :
      (succeeded : Bool) (owners : List (Text × Text))
      → Keeps On (handle_owners api succeeded owners)
  unfolding handle_owners
  handle_owners-On succeeded [] = Keeps-pure tt
  handle_owners-On succeeded ((kind, name) ∷ owners) = record {
    at = λ w h.
        (Keeps-if (text_eq kind repository_kind) _ _
            (Keeps-if (text_eq name w.backup.name) _ _ (finish-On succeeded) (ignore_backup-On _))
            (handle_owners-On succeeded owners)).at
          w h;
  }

  check_job-On : (job : Job) → Keeps On (check_job api job)
  unfolding check_job
  check_job-On job =
      Keeps-if (is_job_finished job) _ _
        (Keeps-bind _ _
          (Keeps-on_error _ _ (read_cluster-Keeps api On On-stable) (λ e. report-On backup_error e))
          (λ _. handle_owners-On _ job.owners))
        (Keeps-raise _)

  pub handle_found-On : (found : Option Job) → Keeps On (handle_found api found)
  unfolding handle_found
  handle_found-On none = ignore_backup-On _
  handle_found-On (some job) = check_job-On job

  find_job-On : (name : Text) → Keeps On (find_job api name)
  unfolding find_job
  find_job-On name =
      Keeps-on_error _ _
        (Keeps-bind _ (λ j. pure (some j))
          (read-Keeps api On On-stable (get_job name) api.job_of refl) (λ j. Keeps-pure (some j)))
        (λ e. Keeps-if (is_not_found e) _ _ (Keeps-pure none) (Keeps-raise e))

  pub handle_backup_job-On : Keeps On (handle_backup_job api)
  unfolding handle_backup_job
  handle_backup_job-On = record {
    at = λ w h. (Keeps-bind _ _ (find_job-On (job_name w.backup)) handle_found-On).at w h;
  }

  pub not_created-On : (e : KubeError) → Keeps On (not_created api e)
  unfolding not_created
  not_created-On e = Keeps-bind _ _ (event-On backup_error) λ _.
      Keeps-if (is_request_retryable e) _ _ (Keeps-raise e)
        (mark_as-On phase_failed (codes "Failed to create Backup Job. Reason: " ++ e.message))
