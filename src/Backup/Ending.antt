-- ===== src/Backup/Ending.antt =====
-- What the end of a job does to the phase of its backup, and how a phase may move.
use redis_cluster_operator.Common.{
  ℕ, Bool, true, false, Option, none, some, List, [], ◌∷◌, Text, text_eq, ◌≡◌, refl, sym, on_error,
  arith, ◌⊎◌, inl, inr, Bool-cases, Keeps, Keeps-on_error, after_bind,
}
use redis_cluster_operator.Backup.{
  BackupPhase, phase_running, phase_succeeded, phase_failed, phase_ignored,
}
use redis_cluster_operator.Backup.Job.{
  World, Api, Step, Request, get_job, Event, backup_error, ask, event, Job, is_job_finished,
  repository_kind,
}
use redis_cluster_operator.Backup.Handle.{
  set_start_time, drop_status_label, set_ended, set_finished, set_running, set_labels, save_status,
  save, report, mark_as, drop_label, ignore_backup, store_end, finish, is_complete, handle_owners,
  check_job, is_completed, read_cluster,
}
use redis_cluster_operator.Backup.Create.{give_up, start_job, label_backup, run_job, set_start}
use redis_cluster_operator.Backup.Keeps.{report-Keeps, read_cluster-Keeps}
use redis_cluster_operator.Resource.{DistributedRedisCluster}

-- The history was reached on the way to another one.
abbrev pub IsPart : List Request → List Request → Type 0
IsPart hist [] = hist ≡ []
IsPart hist (r ∷ requests) = (hist ≡ r ∷ requests) ⊎ IsPart hist requests

-- A completed backup keeps its phase. Another one keeps it, runs, fails, is ignored, or has succeeded:
-- then a request for a job was answered with one that is finished and whose first condition is that
-- it is complete.
pub data Moved (api : Api) (before : BackupPhase) (after : BackupPhase) (requests : List Request)
    : Type 0 where
  stays : after ≡ before → Moved api before after requests
  runs : is_completed before ≡ false → after ≡ phase_running → Moved api before after requests
  fails : is_completed before ≡ false → after ≡ phase_failed → Moved api before after requests
  ignored : is_completed before ≡ false → after ≡ phase_ignored → Moved api before after requests
  succeeds :
      is_completed before ≡ false
      → after ≡ phase_succeeded
      → (name : Text) (rest : List Request) → IsPart (get_job name ∷ rest) requests
      → is_job_finished (api.job_of (get_job name ∷ rest)) ≡ true
      → is_complete api (api.job_of (get_job name ∷ rest)).conditions ≡ true
      → Moved api before after requests

-- What the end of the job that was answered does to the phase.
pub data JobHandled (api : Api) (hist : List Request) (before : BackupPhase) (after : BackupPhase)
    : Type 0 where
  not_ended : after ≡ before → JobHandled api hist before after
  job_failed : after ≡ phase_failed → JobHandled api hist before after
  other_runs : after ≡ phase_ignored → JobHandled api hist before after
  job_succeeded :
      after ≡ phase_succeeded
      → is_job_finished (api.job_of hist) ≡ true
      → is_complete api (api.job_of hist).conditions ≡ true
      → JobHandled api hist before after

module _ (api : Api) where
  pub phase-give_up :
      (reason : Text) (w : World) → (give_up api reason w).1.backup.phase ≡ phase_failed
  unfolding give_up mark_as save_status ask event set_ended
  phase-give_up reason w = ground arith

  pub phase-ignore_backup :
      (msg : Text) (w : World) → (ignore_backup api msg w).1.backup.phase ≡ phase_ignored
  unfolding ignore_backup mark_as save_status ask event set_ended drop_label save report
      drop_status_label
  phase-ignore_backup msg w = ground arith

  pub phase-store_end : (b : Bool) (w : World) → (store_end api b w).1.backup.phase ≡ w.backup.phase
  unfolding store_end save_status ask event drop_label save report drop_status_label
  phase-store_end b w = ground arith

  pub phase-start_job :
      (c : DistributedRedisCluster) (job : Job) (w : World)
      → (start_job api c job w).1.backup.phase ≡ phase_running
  unfolding start_job label_backup run_job save_status save ask event report set_running set_labels
  phase-start_job c job w = ground arith

  pub phase-drop_label : (w : World) → (drop_label api w).1.backup.phase ≡ w.backup.phase
  unfolding drop_label save ask event report drop_status_label
  phase-drop_label w = ground arith

  pub phase-set_start :
      (start : Option ℕ) (w : World) → (set_start api start w).1.backup.phase ≡ w.backup.phase
  unfolding set_start save_status ask event report set_start_time
  phase-set_start none w = ground arith
  phase-set_start (some t) w = refl

-- A run on a backup that is not completed.
module _ (api : Api) (p : BackupPhase) (open_phase : is_completed p ≡ false) where
  abbrev pub At : World → Type 0
  At w = w.backup.phase ≡ p

  abbrev pub Handles : List Request → World → Type 0
  Handles hist w = JobHandled api hist p w.backup.phase

  pub reported :
      {A : Type 0} (m : Step A) (e : Event) → Keeps At m → Keeps At (on_error m (report api e))
  reported m e k = Keeps-on_error m _ k (report-Keeps api At (λ r w _ h. h) e)

  finish-Handles :
      (succeeded : Bool) (hist : List Request) (w : World)
      → is_job_finished (api.job_of hist) ≡ true
      → succeeded ≡ is_complete api (api.job_of hist).conditions
      → Handles hist (finish api succeeded w).1
  unfolding finish set_finished set_ended
  finish-Handles true hist w fin e = job_succeeded (phase-store_end api true _) fin (sym e)
  finish-Handles false hist w fin e = job_failed (phase-store_end api false _)

  handle_owners-Handles :
      (succeeded : Bool) (owners : List (Text × Text)) (hist : List Request) (w : World)
      → At w
      → is_job_finished (api.job_of hist) ≡ true
      → succeeded ≡ is_complete api (api.job_of hist).conditions
      → Handles hist (handle_owners api succeeded owners w).1
  unfolding handle_owners
  handle_owners-Handles succeeded [] hist w h fin e = not_ended h
  handle_owners-Handles succeeded ((kind, name) ∷ owners) hist w h fin e =
      elim (Bool-cases (text_eq kind repository_kind)) [
        | inr q ↦ rw q (handle_owners-Handles succeeded owners hist w h fin e)
        | inl q ↦ elim (Bool-cases (text_eq name w.backup.name)) [
          | inl q' ↦ rw (q, q') (finish-Handles succeeded hist w fin e)
          | inr q' ↦ rw (q, q') (other_runs (phase-ignore_backup api _ w))
        ]
      ]

  pub check_job-Handles :
      (hist : List Request) (w : World) → At w → Handles hist (check_job api (api.job_of hist) w).1
  unfolding check_job
  check_job-Handles hist w h = elim (Bool-cases (is_job_finished (api.job_of hist))) [
    | inr e ↦ rw e (not_ended h)
    | inl fin ↦
        let k =
          reported (read_cluster api) backup_error (read_cluster-Keeps api At (λ r w _ h. h)) in
        let conditions = (api.job_of hist).conditions in
        rw fin (
          after_bind (Handles hist)
            (λ _. handle_owners api (is_complete api conditions) (api.job_of hist).owners)
            (on_error (read_cluster api) (report api backup_error)) w (λ e _. not_ended (k.at w h))
            (λ _ _.
              handle_owners-Handles (is_complete api conditions) (api.job_of hist).owners hist
                (on_error (read_cluster api) (report api backup_error) w).1 (k.at w h) fin refl))
  ]
