-- ===== src/Backup/Keeps.antt =====
-- Predicates on the state of a backup's handler that its steps keep: one rule for each way to build
-- a step, and the steps that only ask.
use redis_cluster_operator.Common.{
  ℕ, ◌+◌, Bool, true, false, Option, none, some, List, [], ◌∷◌, if◌then◌else◌, Text, ◌≡◌, refl,
  Result, ok, err, pure, raise, gets, ◌>>◌, ◌==◌, Keeps, Keeps-bind, Keeps-if, Keeps-on_error,
  Keeps-pure, Keeps-raise,
}
use redis_cluster_operator.Kube.{KubeError, is_not_found}
use redis_cluster_operator.Status.{RedisClusterNode}
use redis_cluster_operator.Backup.{Backup, remote_path, RedisStorage, job_name, validate}
use redis_cluster_operator.Backup.Job.{
  World, Api, Step, Request, get_cluster, list_jobs, create_job, get_claim, create_claim,
  get_secret, create_secret, record_event, Event, backup_error, Container, asked, ask, read, event,
  claim_volume, create_pvc_for_backup, get_volume_for_backup, fill_containers, backup_containers,
  no_containers, get_backup_job, is_master_node,
}
use redis_cluster_operator.Backup.Handle.{read_cluster, report}
use redis_cluster_operator.Backup.Create.{validate_backup, create_new_secret}
use redis_cluster_operator.Resource.{DistributedRedisCluster}

-- The requests that neither create a job nor look for the jobs that run.
abbrev pub is_plain : Request → Bool
is_plain (create_job j) = false
is_plain list_jobs = false
is_plain _ = true

module _ (api : Api) (P : World → Type 0)
    (stable : (r : Request) (w : World) → is_plain r ≡ true → P w → P (asked r w)) where
  pub ask-Keeps : (r : Request) → is_plain r ≡ true → Keeps P (ask api r)
  unfolding ask
  ask-Keeps r plain = record { at = λ w h. stable r w plain h }

  pub read-Keeps :
      {A : Type 0} (r : Request) (f : List Request → A) → is_plain r ≡ true → Keeps P (read api r f)
  unfolding read
  read-Keeps r f plain =
      Keeps-bind (ask api r) (λ _. gets (λ w. f w.requests)) (ask-Keeps r plain)
        (λ _. record { at = λ w h. h })

  pub event-Keeps : (e : Event) → Keeps P (event api e)
  unfolding event
  event-Keeps e = record { at = λ w h. stable (record_event e) w refl h }

  pub report-Keeps :
      {A : Type 0} (e : Event) (error : KubeError) → Keeps P (report api {A = A} e error)
  unfolding report
  report-Keeps e error = Keeps-bind _ _ (event-Keeps e) (λ _. Keeps-raise error)

  claim-Keeps :
      (name : Text) (owned : Bool) (e : KubeError)
      → Keeps P (if is_not_found e then ask api (create_claim name owned) else raise e)
  claim-Keeps name owned e = Keeps-if (is_not_found e) _ _ (ask-Keeps _ refl) (Keeps-raise e)

  claim_volume-Keeps :
      (b : Bool) (name : Text) (storage : Option RedisStorage)
      → Keeps P (claim_volume api name storage b)
  unfolding claim_volume create_pvc_for_backup
  claim_volume-Keeps true name storage =
      Keeps-bind _ _
        (Keeps-on_error _ _ (ask-Keeps (get_claim name) refl) (λ e. claim-Keeps name _ e))
        (λ _. Keeps-pure (some name))
  claim_volume-Keeps false name storage = Keeps-pure none

  pub get_volume_for_backup-Keeps :
      (b : Backup) (name : Text) → Keeps P (get_volume_for_backup api b name)
  unfolding get_volume_for_backup
  get_volume_for_backup-Keeps b name = claim_volume-Keeps _ name b.storage

  pub create_new_secret-Keeps : (name : Text) → Keeps P (create_new_secret api name)
  unfolding create_new_secret
  create_new_secret-Keeps name =
      Keeps-on_error _ _ (ask-Keeps (get_secret name) refl)
        λ e. Keeps-if (is_not_found e) _ _ (ask-Keeps (create_secret name) refl) (Keeps-raise e)

  pub read_cluster-Keeps : Keeps P (read_cluster api)
  unfolding read_cluster
  read_cluster-Keeps = read-Keeps get_cluster api.cluster_of refl

  with_folder :
      {A : Type 0} (r : Result KubeError Text) (next : Text → Step A)
      → ((folder : Text) → Keeps P (next folder))
      → Keeps P (elim r [ ok folder ↦ next folder | err e ↦ event api backup_error >> raise e ])
  with_folder (ok folder) next k = k folder
  with_folder (err e) next k = Keeps-bind _ _ (event-Keeps backup_error) (λ _. Keeps-raise e)

  fill_containers-Keeps :
      (b : Backup) (c : DistributedRedisCluster) (location : Text) (n : ℕ)
      (ns : List RedisClusterNode) (i : ℕ) (containers : List (Option Container))
      → Keeps P (fill_containers api b c location n ns i containers)
  unfolding fill_containers
  fill_containers-Keeps b c location n [] i containers = Keeps-pure containers
  fill_containers-Keeps b c location n (m ∷ ms) i containers =
      Keeps-if (is_master_node api m) _ _
        (Keeps-if (i == n) _ _ (Keeps-pure containers) (
          with_folder (remote_path api.format b) _
            (λ folder. fill_containers-Keeps b c location n ms (i + 1) _)))
        (fill_containers-Keeps b c location n ms i containers)

  located :
      (b : Backup) (c : DistributedRedisCluster) (r : Result KubeError Text)
      → Keeps P (elim r [
        | ok location ↦
            fill_containers api b c location c.spec.master_size c.status.nodes 0
              (no_containers api c.spec.master_size)
        | err e ↦ raise e
      ])
  located b c (ok location) = fill_containers-Keeps b c location _ _ _ _
  located b c (err e) = Keeps-raise e

  pub get_backup_job-Keeps :
      (b : Backup) (c : DistributedRedisCluster) → Keeps P (get_backup_job api b c)
  unfolding get_backup_job backup_containers
  get_backup_job-Keeps b c =
      Keeps-bind _ _ (get_volume_for_backup-Keeps b (job_name b))
        λ claim. Keeps-bind _ _ (located b c (api.location b.backend)) (λ cs. Keeps-pure _)

  checked :
      (o : Option KubeError)
      → Keeps {E = KubeError} {A = Unit {0}} P
          (λ w. elim o [ none ↦ (read_cluster api >> pure tt) w | some e ↦ (err e, w) ])
  checked none = Keeps-bind _ _ read_cluster-Keeps (λ _. Keeps-pure tt)
  checked (some e) = Keeps-raise e

  pub validate_backup-Keeps : Keeps P (validate_backup api)
  unfolding validate_backup
  validate_backup-Keeps = record { at = λ w h. (checked (validate w.backup)).at w h }
