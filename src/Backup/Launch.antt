-- ===== src/Backup/Launch.antt =====
-- When the handler of a backup asks for its job.
use redis_cluster_operator.Common.{
  ltb, Bool, true, false, not, ◌&&◌, Option, none, some, List, [], ◌∷◌, if◌then◌else◌, codes,
  lookup, text_eq, text_eq_key, ◌≡◌, refl, Result, ok, err, check, on_error, arith, lookup-insert,
  after_bind,
}
use redis_cluster_operator.Kube.{KubeError}
use redis_cluster_operator.Backup.{Backup, phase_running, label_backup_status}
use redis_cluster_operator.Backup.Job.{
  World, Api, Step, Request, update_cr_status, update_cr, get_cluster, list_backups, list_jobs,
  get_job, create_job, get_claim, create_claim, new_rclone_secret, get_secret, create_secret,
  check_bucket_access, record_event, Event, backup_error, backup_failed, starting, asked, ask,
  event, Job,
}
use redis_cluster_operator.Backup.Handle.{set_running, set_labels, save_status, save, report}
use redis_cluster_operator.Backup.Create.{start_job, label_backup, run_job}
use redis_cluster_operator.Backup.Keeps.{is_plain}
use redis_cluster_operator.Resource.{DistributedRedisCluster}

abbrev pub is_list_jobs : Request → Bool
is_list_jobs list_jobs = true
is_list_jobs _ = false

-- What the latest look at the running backups and jobs says: no backup or no job was found.
unfoldable pub latest_check : Api → List Request → Bool
latest_check api [] = false
latest_check api (r ∷ hist) =
    if is_list_jobs r
    then not (ltb 0 (api.items_of hist) && ltb 0 (api.items_of (r ∷ hist)))
    else latest_check api hist

-- A history after which a job may be created: no backup was found running, then the backup was
-- stored as running, and then it was stored with the label of a running backup.
pub record IsLaunched (api : Api) (hist : List Request) : Type 0 where
  pub before : List Request
  pub stored : Backup
  pub labelled : Backup
  pub steps : hist ≡ record_event starting ∷ update_cr labelled ∷ update_cr_status stored ∷ before
  pub free : latest_check api before ≡ true
  pub running : stored.phase ≡ phase_running
  pub status_accepted : api.failure (update_cr_status stored ∷ before) ≡ none
  pub label : lookup label_backup_status labelled.labels ≡ some (codes "Running")
  pub accepted : api.failure (update_cr labelled ∷ update_cr_status stored ∷ before) ≡ none

abbrev pub LaunchedAt : Api → Request → List Request → Type 0
LaunchedAt api (create_job j) hist = IsLaunched api hist
LaunchedAt api _ hist = Unit

-- Each job of a history was created after such a history.
abbrev pub JobsLaunched : Api → List Request → Type 0
JobsLaunched api [] = Unit
JobsLaunched api (r ∷ hist) = LaunchedAt api r hist × JobsLaunched api hist

pub plain-LaunchedAt :
    (api : Api) (r : Request) (hist : List Request) → is_plain r ≡ true → LaunchedAt api r hist
plain-LaunchedAt api (create_job j) hist h = cc
plain-LaunchedAt api (update_cr_status b) hist h = tt
plain-LaunchedAt api (update_cr b) hist h = tt
plain-LaunchedAt api get_cluster hist h = tt
plain-LaunchedAt api list_backups hist h = tt
plain-LaunchedAt api list_jobs hist h = tt
plain-LaunchedAt api (get_job n) hist h = tt
plain-LaunchedAt api (get_claim n) hist h = tt
plain-LaunchedAt api (create_claim n o) hist h = tt
plain-LaunchedAt api (new_rclone_secret n) hist h = tt
plain-LaunchedAt api (get_secret n) hist h = tt
plain-LaunchedAt api (create_secret n) hist h = tt
plain-LaunchedAt api check_bucket_access hist h = tt
plain-LaunchedAt api (record_event e) hist h = tt

plain-is_list_jobs : (r : Request) → is_plain r ≡ true → is_list_jobs r ≡ false
plain-is_list_jobs list_jobs h = cc
plain-is_list_jobs _ h = ground arith

module _ (api : Api) where
  abbrev pub AllLaunched : World → Type 0
  AllLaunched w = JobsLaunched api w.requests

  abbrev pub Free : World → Type 0
  Free w = JobsLaunched api w.requests × (latest_check api w.requests ≡ true)

  pub AllLaunched-stable :
      (r : Request) (w : World) → is_plain r ≡ true → AllLaunched w → AllLaunched (asked r w)
  AllLaunched-stable r w plain h = (plain-LaunchedAt api r w.requests plain, h)

  pub Free-stable : (r : Request) (w : World) → is_plain r ≡ true → Free w → Free (asked r w)
  unfolding latest_check
  Free-stable r w plain h =
      ((plain-LaunchedAt api r w.requests plain, h.0), rw (plain-is_list_jobs r plain) h.1)

  launched :
      (c : DistributedRedisCluster) (w : World)
      → Free w
      → let w1 = set_running c w in
        let w2 = set_labels w1 in
        api.failure (update_cr_status w1.backup ∷ w.requests) ≡ none
        → api.failure (update_cr w2.backup ∷ update_cr_status w1.backup ∷ w.requests) ≡ none
        → IsLaunched api
            (record_event starting ∷ update_cr w2.backup ∷ update_cr_status w1.backup ∷ w.requests)
  unfolding set_running set_labels text_eq
  launched c w h q q' = record {
    before = w.requests;
    stored = (set_running c w).backup;
    labelled = (set_labels (set_running c w)).backup;
    steps = refl;
    free = h.1;
    running = refl;
    status_accepted = q;
    label = lookup-insert label_backup_status label_backup_status (codes "Running") _;
    accepted = q';
  }

  -- A request that must succeed, with the event of its failure.
  abbrev pub must : Request → Event → Step (Unit {0})
  must r e = on_error (ask api r) (report api e)

  must-ok :
      (r : Request) (e : Event) (w : World) (a : Unit {0})
      → (must r e w).0 ≡ ok a
      → (api.failure (r ∷ w.requests) ≡ none) × ((must r e w).1 ≡ asked r w)
  unfolding ask report event
  must-ok r e w a h = ground arith

  reported :
      (o : Option KubeError) (e : Event) (w : World)
      → AllLaunched w
      → AllLaunched
          (let q : Result KubeError (Unit {0}) × World = elim (check o) [
            | ok a ↦ (ok a, w)
            | err error ↦ report api e error w
          ] in
            q).1
  unfolding report event
  reported none e w h = h
  reported (some error) e w h = (tt, h)

  pub must-AllLaunched :
      (r : Request) (e : Event) (w : World)
      → LaunchedAt api r w.requests
      → AllLaunched w
      → AllLaunched (must r e w).1
  unfolding ask
  must-AllLaunched r e w at h = reported (api.failure (r ∷ w.requests)) e (asked r w) (at, h)

  pub start_job-AllLaunched :
      (c : DistributedRedisCluster) (job : Job) (w : World)
      → Free w
      → AllLaunched (start_job api c job w).1
  unfolding start_job label_backup run_job save_status save set_running set_labels event
  start_job-AllLaunched c job w h =
      let w1 = set_running c w in
      let first = must (update_cr_status w1.backup) backup_failed in
      let w2 = set_labels (asked (update_cr_status w1.backup) w1) in
      let second = must (update_cr w2.backup) backup_error in
      after_bind AllLaunched (λ _. label_backup api job) first w1
        (λ e q. must-AllLaunched _ _ w1 tt h.0)
        λ a q.
          let (accepted, next) = must-ok (update_cr_status w1.backup) backup_failed w1 a q in
          rw next (
            after_bind AllLaunched (λ _. run_job api job) second w2
              (λ e q'. must-AllLaunched _ _ w2 tt (tt, h.0))
              λ a' q'.
                let (accepted', next') = must-ok (update_cr w2.backup) backup_error w2 a' q' in
                rw next' (
                  must-AllLaunched (create_job job) backup_error
                    (asked (record_event starting) (asked (update_cr w2.backup) w2))
                    (launched c w h accepted accepted') (tt, (tt, (tt, h.0)))))
