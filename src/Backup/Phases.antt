-- ===== src/Backup/Phases.antt =====
-- How a run of the handler moves the phase of its backup.
use mathlib.Core.Path.{subst}
use redis_cluster_operator.Common.{
  Bool, true, false, Option, none, some, List, ◌∷◌, if◌then◌else◌, Text, codes, ◌++◌, ◌≡◌, refl,
  sym, ok, raise, ◌>>=◌, ◌>>◌, on_error, arith, inl, inr, Bool-cases, Keeps, after_bind,
  either_result,
}
use redis_cluster_operator.Kube.{KubeError, is_request_retryable}
use redis_cluster_operator.Backup.{BackupPhase, LocalSpec, rclone_secret_name, job_name}
use redis_cluster_operator.Backup.Job.{
  World, Api, Step, Request, get_job, new_rclone_secret, check_bucket_access, backup_error, ask,
  read, event, Job, get_backup_job,
}
use redis_cluster_operator.Backup.Handle.{
  set_ended, save_status, report, mark_as, check_job, find_job, handle_found, handle_backup_job,
  is_completed, read_cluster,
}
use redis_cluster_operator.Backup.Create.{
  give_up, not_created, start_job, build_job, check_bucket, make_secret, start_or_handle,
  process_valid, process, create_new_secret, is_backup_running, validate_backup,
}
use redis_cluster_operator.Backup.Handled.{handle_found-On}
use redis_cluster_operator.Backup.Keeps.{
  ask-Keeps, get_backup_job-Keeps, create_new_secret-Keeps, read_cluster-Keeps,
  validate_backup-Keeps,
}
use redis_cluster_operator.Resource.{DistributedRedisCluster}
use redis_cluster_operator.Backup.Ending.{
  IsPart, Moved, stays, runs, fails, ignored, succeeds, not_ended, job_failed, other_runs,
  job_succeeded, phase-give_up, phase-ignore_backup, phase-start_job, At, Handles, reported,
  check_job-Handles,
}

-- A run on a backup that is not completed.
module _ (api : Api) (p : BackupPhase) (open_phase : is_completed p ≡ false) where
  abbrev Goes : World → Type 0
  Goes w = Moved api p w.backup.phase w.requests

  find_job-lem :
      (name : Text) (w : World) (job : Job)
      → (find_job api name w).0 ≡ ok (some job)
      → job ≡ api.job_of (get_job name ∷ w.requests)
  unfolding find_job read ask
  find_job-lem name w job e = ground arith

  phase-find_job : (name : Text) (w : World) → (find_job api name w).1.backup ≡ w.backup
  unfolding find_job read ask
  phase-find_job name w = ground arith

  IsPart-find_job :
      (name : Text) (w : World)
      → IsPart (get_job name ∷ w.requests) (find_job api name w).1.requests
  unfolding find_job read ask
  IsPart-find_job name w =
      let same : (find_job api name w).1.requests ≡ get_job name ∷ w.requests = ground arith in
      subst (IsPart (get_job name ∷ w.requests)) (sym same) (inl refl)

  goes :
      (name : Text) (rest : List Request) (w : World)
      → Handles api p open_phase (get_job name ∷ rest) w
      → IsPart (get_job name ∷ rest) w.requests
      → Goes w
  goes name rest w (not_ended a) part = stays a
  goes name rest w (job_failed a) part = fails open_phase a
  goes name rest w (other_runs a) part = ignored open_phase a
  goes name rest w (job_succeeded a fin done) part = succeeds open_phase a name rest part fin done

  handle_found-Goes :
      (found : Option Job) (name : Text) (before w : World)
      → At api p open_phase w
      → IsPart (get_job name ∷ before.requests) w.requests
      → (find_job api name before).0 ≡ ok found
      → Goes (handle_found api found w).1
  unfolding handle_found
  handle_found-Goes none name before w h part e = ignored open_phase (phase-ignore_backup api _ w)
  handle_found-Goes (some job) name before w h part e =
      goes name before.requests (check_job api job w).1
        (rw (find_job-lem name before job e)
          (check_job-Handles api p open_phase (get_job name ∷ before.requests) w h))
        ((handle_found-On api (IsPart (get_job name ∷ before.requests)) (λ r hist plain k. inr k)
            (some job)).at
          w part)

  handle_backup_job-Goes : (w : World) → At api p open_phase w → Goes (handle_backup_job api w).1
  unfolding handle_backup_job
  handle_backup_job-Goes w h =
      let name = job_name w.backup in
      let k : (At api p open_phase) (find_job api name w).1 = rw (phase-find_job name w) h in
      after_bind Goes (handle_found api) (find_job api name) w (λ e _. stays k)
        (λ found q.
          handle_found-Goes found name w (find_job api name w).1 k (IsPart-find_job name w) q)

  not_created-Goes :
      (e : KubeError) (w : World) → At api p open_phase w → Goes (not_created api e w).1
  unfolding not_created event mark_as save_status ask set_ended
  not_created-Goes e w h = elim (Bool-cases (is_request_retryable e)) [
    | inl q ↦ rw q (stays h)
    | inr q ↦ rw q (fails open_phase refl)
  ]

  build_job-Goes :
      (c : DistributedRedisCluster) (w : World) → At api p open_phase w → Goes (build_job api c w).1
  unfolding build_job
  build_job-Goes c w h =
      let (r, w') = get_backup_job api w.backup c w in
      let k = (get_backup_job-Keeps api (At api p open_phase) (λ r w _ h. h) w.backup c).at w h in
      either_result Goes (start_job api c) (not_created api) r w' (λ e _. not_created-Goes e w' k)
        (λ job _. runs open_phase (phase-start_job api c job w'))

  check_bucket-Goes :
      (c : DistributedRedisCluster) (local : Option LocalSpec) (w : World)
      → At api p open_phase w
      → Goes (check_bucket api c local w).1
  unfolding check_bucket
  check_bucket-Goes c (some local) w h = build_job-Goes c w h
  check_bucket-Goes c none w h =
      let (r, w') = ask api check_bucket_access w in
      let k =
        (ask-Keeps api (At api p open_phase) (λ r w _ h. h) check_bucket_access refl).at w h in
      either_result Goes (λ _. build_job api c) (λ e. give_up api e.message) r w'
        (λ e _. fails open_phase (phase-give_up api e.message w')) (λ _ _. build_job-Goes c w' k)

  then-Goes :
      {A B : Type 0} (m : Step A) (f : A → Step B) (w : World)
      → Keeps (At api p open_phase) m
      → At api p open_phase w
      → ((a : A) (w' : World) → At api p open_phase w' → Goes (f a w').1)
      → Goes ((on_error m (report api backup_error) >>= f) w).1
  then-Goes m f w km h next =
      let k = (reported api p open_phase m backup_error km).at w h in
      after_bind Goes f (on_error m (report api backup_error)) w (λ e _. stays k)
        (λ a _. next a _ k)

  make_secret-Goes :
      (c : DistributedRedisCluster) (w : World)
      → At api p open_phase w
      → Goes (make_secret api c w).1
  unfolding make_secret
  make_secret-Goes c w h =
      let name = rclone_secret_name w.backup in
      let (r, w') = ask api (new_rclone_secret name) w in
      let k =
        (ask-Keeps api (At api p open_phase) (λ r w _ h. h) (new_rclone_secret name) refl).at w h in
      either_result Goes
        (λ _. on_error (create_new_secret api name) (report api backup_error) >> λ w.
          check_bucket api c w.backup.backend.local w)
        (λ e. give_up api (codes "Failed to generate rclone secret. Reason: " ++ e.message)) r w'
        (λ e _. fails open_phase (phase-give_up api _ w'))
        (λ _ _.
          then-Goes (create_new_secret api name)
            (λ _ w. check_bucket api c w.backup.backend.local w) w'
            (create_new_secret-Keeps api (At api p open_phase) (λ r w _ h. h) name) k
            (λ _ w'' k'. check_bucket-Goes c _ w'' k'))

  start_or_handle-Goes :
      (running : Bool) (w : World) → At api p open_phase w → Goes (start_or_handle api running w).1
  unfolding start_or_handle
  start_or_handle-Goes true w h = handle_backup_job-Goes w h
  start_or_handle-Goes false w h =
      then-Goes (read_cluster api) (make_secret api) w
        (read_cluster-Keeps api (At api p open_phase) (λ r w _ h. h)) h make_secret-Goes

  is_backup_running-At : Keeps (At api p open_phase) (is_backup_running api)
  unfolding is_backup_running read ask
  is_backup_running-At = record { at = λ w h. ground arith }

  refused-Goes :
      (e : KubeError) (w : World)
      → At api p open_phase w
      → Goes ((if is_request_retryable e then raise e else give_up api e.message) w).1
  refused-Goes e w h = elim (Bool-cases (is_request_retryable e)) [
    | inl q ↦ rw q (stays h)
    | inr q ↦ rw q (fails open_phase (phase-give_up api e.message w))
  ]

  pub process-Goes : (w : World) → At api p open_phase w → Goes (process api w).1
  unfolding process process_valid
  process-Goes w h =
      let (r, w') = validate_backup api w in
      let k = (validate_backup-Keeps api (At api p open_phase) (λ r w _ h. h)).at w h in
      either_result Goes (λ _. process_valid api)
        (λ e. if is_request_retryable e then raise e else give_up api e.message) r w'
        (λ e _. refused-Goes e w' k)
        (λ _ _.
          then-Goes (is_backup_running api) (start_or_handle api) w' is_backup_running-At k
            start_or_handle-Goes)
