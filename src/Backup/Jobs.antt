-- ===== src/Backup/Jobs.antt =====
-- No run of the handler creates a job without the checks and the records before it.
use redis_cluster_operator.Common.{
  ℕ, ltb, Bool, true, false, ◌&&◌, Option, none, some, List, ◌∷◌, if◌then◌else◌, codes, ◌++◌, ◌≡◌,
  refl, ap, ◌∙◌, Result, ok, err, pure, raise, gets, ◌>>=◌, ◌>>◌, on_error, arith, Keeps,
  Keeps-bind, Keeps-if, Keeps-on_error, Keeps-raise, after_bind, either_result,
}
use redis_cluster_operator.Kube.{KubeError, is_request_retryable}
use redis_cluster_operator.Backup.{LocalSpec, rclone_secret_name}
use redis_cluster_operator.Backup.Job.{
  World, Api, Step, Request, list_backups, list_jobs, new_rclone_secret, check_bucket_access,
  backup_error, ask, read, get_backup_job,
}
use redis_cluster_operator.Backup.Handle.{
  set_start_time, report, drop_label, is_completed, read_cluster,
}
use redis_cluster_operator.Backup.Create.{
  give_up, not_created, start_job, build_job, check_bucket, make_secret, start_or_handle,
  process_valid, process, process_unless, set_start, create, create_new_secret, is_backup_running,
  validate_backup,
}
use redis_cluster_operator.Backup.Keeps.{
  is_plain, report-Keeps, ask-Keeps, get_backup_job-Keeps, create_new_secret-Keeps,
  read_cluster-Keeps, validate_backup-Keeps,
}
use redis_cluster_operator.Backup.Handled.{
  give_up-On, not_created-On, handle_backup_job-On, drop_label-On, save_status-On,
}
use redis_cluster_operator.Backup.Launch.{
  JobsLaunched, LaunchedAt, latest_check, plain-LaunchedAt, AllLaunched, Free, AllLaunched-stable,
  Free-stable, start_job-AllLaunched,
}
use redis_cluster_operator.Resource.{DistributedRedisCluster}

module _ (api : Api) where
  stable :
      (r : Request) (hist : List Request)
      → is_plain r ≡ true
      → JobsLaunched api hist
      → JobsLaunched api (r ∷ hist)
  stable r hist plain h = (plain-LaunchedAt api r hist plain, h)

  build_job-AllLaunched :
      (c : DistributedRedisCluster) (w : World) → Free api w → AllLaunched api (build_job api c w).1
  unfolding build_job
  build_job-AllLaunched c w h =
      let (r, w') = get_backup_job api w.backup c w in
      let free = (get_backup_job-Keeps api (Free api) (Free-stable api) w.backup c).at w h in
      either_result (AllLaunched api) (start_job api c) (not_created api) r w'
        (λ e _. (not_created-On api (JobsLaunched api) stable e).at w' free.0)
        (λ job _. start_job-AllLaunched api c job w' free)

  check_bucket-AllLaunched :
      (c : DistributedRedisCluster) (local : Option LocalSpec) (w : World)
      → Free api w
      → AllLaunched api (check_bucket api c local w).1
  unfolding check_bucket
  check_bucket-AllLaunched c (some local) w h = build_job-AllLaunched c w h
  check_bucket-AllLaunched c none w h =
      let (r, w') = ask api check_bucket_access w in
      let free = (ask-Keeps api (Free api) (Free-stable api) check_bucket_access refl).at w h in
      either_result (AllLaunched api) (λ _. build_job api c) (λ e. give_up api e.message) r w'
        (λ e _. (give_up-On api (JobsLaunched api) stable e.message).at w' free.0)
        (λ _ _. build_job-AllLaunched c w' free)

  -- A call that keeps the check is reported on failure, and followed by a step that may use it.
  then_after :
      {A B : Type 0} (m : Step A) (f : A → Step B) (w : World)
      → Keeps (Free api) m
      → Free api w
      → ((a : A) (w' : World) → Free api w' → AllLaunched api (f a w').1)
      → AllLaunched api ((on_error m (report api backup_error) >>= f) w).1
  then_after m f w km h next =
      let k =
        (Keeps-on_error m _ km (report-Keeps api (Free api) (Free-stable api) backup_error)).at w
          h in
      after_bind (AllLaunched api) f (on_error m (report api backup_error)) w (λ e _. k.0)
        (λ a _. next a _ k)

  make_secret-AllLaunched :
      (c : DistributedRedisCluster) (w : World)
      → Free api w
      → AllLaunched api (make_secret api c w).1
  unfolding make_secret
  make_secret-AllLaunched c w h =
      let name = rclone_secret_name w.backup in
      let (r, w') = ask api (new_rclone_secret name) w in
      let free =
        (ask-Keeps api (Free api) (Free-stable api) (new_rclone_secret name) refl).at w h in
      either_result (AllLaunched api)
        (λ _. on_error (create_new_secret api name) (report api backup_error) >> λ w.
          check_bucket api c w.backup.backend.local w)
        (λ e. give_up api (codes "Failed to generate rclone secret. Reason: " ++ e.message)) r w'
        (λ e _. (give_up-On api (JobsLaunched api) stable _).at w' free.0)
        (λ _ _.
          then_after (create_new_secret api name)
            (λ _ w. check_bucket api c w.backup.backend.local w) w'
            (create_new_secret-Keeps api (Free api) (Free-stable api) name) free
            (λ _ w'' free'. check_bucket-AllLaunched c _ w'' free'))

  read-AllLaunched :
      (r : Request)
      → ((hist : List Request) → LaunchedAt api r hist)
      → Keeps (AllLaunched api) (read api r api.items_of)
  unfolding read ask
  read-AllLaunched r at =
      Keeps-bind (ask api r) (λ _. gets (λ w. api.items_of w.requests))
        (record { at = λ w h. (at w.requests, h) }) (λ _. record { at = λ w h. h })

  is_backup_running-AllLaunched : Keeps (AllLaunched api) (is_backup_running api)
  unfolding is_backup_running
  is_backup_running-AllLaunched =
      Keeps-bind _ _ (read-AllLaunched list_backups (λ hist. tt)) λ backups.
        Keeps-bind _ (λ jobs. pure (ltb 0 backups && ltb 0 jobs))
          (read-AllLaunched list_jobs (λ hist. tt)) (λ jobs. record { at = λ w h. h })

  latest_check-is_backup_running :
      (w : World)
      → (is_backup_running api w).0 ≡ ok false
      → latest_check api (is_backup_running api w).1.requests ≡ true
  unfolding is_backup_running read ask latest_check
  latest_check-is_backup_running w e = ground arith

  start_or_handle-AllLaunched :
      (running : Bool) (w : World)
      → AllLaunched api w
      → (running ≡ false → Free api w)
      → AllLaunched api (start_or_handle api running w).1
  unfolding start_or_handle
  start_or_handle-AllLaunched true w h free =
      (handle_backup_job-On api (JobsLaunched api) stable).at w h
  start_or_handle-AllLaunched false w h free =
      then_after (read_cluster api) (make_secret api) w
        (read_cluster-Keeps api (Free api) (Free-stable api)) (free refl) make_secret-AllLaunched

  ok_of_reported :
      {A : Type 0} (r : Result KubeError A) (w : World) (a : A)
      → let q : Result KubeError A × World = elim r [
        | ok b ↦ (ok b, w)
        | err e ↦ report api backup_error e w
      ] in
        q.0 ≡ ok a → (r ≡ ok a) × (q.1 ≡ w)
  unfolding report
  ok_of_reported (ok b) w a e = (e, refl)
  ok_of_reported (err x) w a e = cc

  process_valid-AllLaunched :
      (w : World) → AllLaunched api w → AllLaunched api (process_valid api w).1
  unfolding process_valid
  process_valid-AllLaunched w h =
      let k = is_backup_running-AllLaunched.at w h in
      let m = on_error (is_backup_running api) (report api backup_error) in
      let reported =
        Keeps-on_error (is_backup_running api) _ is_backup_running-AllLaunched
          (report-Keeps api (AllLaunched api) (AllLaunched-stable api) backup_error) in
      after_bind (AllLaunched api) (start_or_handle api) m w (λ e _. reported.at w h)
        λ running q.
          let (found, same) =
            ok_of_reported (is_backup_running api w).0 (is_backup_running api w).1 running q in
          rw same (
            start_or_handle-AllLaunched running (is_backup_running api w).1 k
              (λ idle. (k, latest_check-is_backup_running w (found ∙ ap ok idle))))

  refused-AllLaunched :
      (e : KubeError) (w : World)
      → AllLaunched api w
      → AllLaunched api ((if is_request_retryable e then raise e else give_up api e.message) w).1
  refused-AllLaunched e w h =
      (Keeps-if (is_request_retryable e) _ _ (Keeps-raise e)
          (give_up-On api (JobsLaunched api) stable e.message)).at
        w h

  process-AllLaunched : (w : World) → AllLaunched api w → AllLaunched api (process api w).1
  unfolding process
  process-AllLaunched w h =
      let (r, w') = validate_backup api w in
      let k = (validate_backup-Keeps api (AllLaunched api) (AllLaunched-stable api)).at w h in
      either_result (AllLaunched api) (λ _. process_valid api)
        (λ e. if is_request_retryable e then raise e else give_up api e.message) r w'
        (λ e _. refused-AllLaunched e w' k) (λ _ _. process_valid-AllLaunched w' k)

  set_start-AllLaunched : (start : Option ℕ) → Keeps (AllLaunched api) (set_start api start)
  unfolding set_start set_start_time
  set_start-AllLaunched (some t) = record { at = λ w h. h }
  set_start-AllLaunched none = record {
    at = λ w h.
        (Keeps-on_error _ _ (save_status-On api (JobsLaunched api) stable)
            (report-Keeps api (AllLaunched api) (AllLaunched-stable api) backup_error)).at
          _ h;
  }

  process_unless-AllLaunched :
      (done : Bool) → Keeps (AllLaunched api) (if done then drop_label api else process api)
  process_unless-AllLaunched done =
      Keeps-if done _ _ (drop_label-On api (JobsLaunched api) stable)
        (record { at = process-AllLaunched })

  -- Every job that a run of the handler creates was asked for after it found no running backup or no
  -- job of one, after the backup was stored as running, and after it was stored with the label that
  -- says so; both updates were accepted.
  pub create-AllLaunched :
      (w : World) → JobsLaunched api w.requests → JobsLaunched api (create api w).1.requests
  unfolding create process_unless
  create-AllLaunched w h =
      after_bind (AllLaunched api) (λ _. process_unless api)
        (λ w. set_start api w.backup.start_time w) w
        (λ e _. (set_start-AllLaunched w.backup.start_time).at w h)
        (λ _ _.
          (process_unless-AllLaunched
              (is_completed (set_start api w.backup.start_time w).1.backup.phase)).at
            (set_start api w.backup.start_time w).1
            ((set_start-AllLaunched w.backup.start_time).at w h))
