-- ===== src/Backup/Job.antt =====
-- pkg/controller/redisclusterbackup/sync_handler.go: what a backup asks of the API, and the job that
-- it runs. The answers may depend on all requests made before. Of the job's objects the parts are
-- kept that the code computes; the parts that it copies from the pod specification are left out.
use redis_cluster_operator.Common.{
  ℕ, zero, suc, ◌+◌, Bool, ◌&&◌, true, false, Option, none, some, List, [], ◌∷◌, ◌++◌,
  if◌then◌else◌, ◌==◌, Text, codes, format_uint, Result, ok, err, Action, pure, raise, gets, modify,
  check, ◌>>=◌, ◌>>◌, on_error,
}
use redis_cluster_operator.Kube.{KubeError, is_not_found}
use redis_cluster_operator.Node.{role_master, role_slave, role_none}
use redis_cluster_operator.Status.{RedisClusterNode}
use redis_cluster_operator.Backup.{Backup, Backend, RedisStorage, LocalSpec, remote_path, job_name}
use redis_cluster_operator.Resource.{DistributedRedisCluster}

pub record Container : Type 0 where
  pub name : Text
  pub image : Text
  pub location : Text
  pub host : Text
  pub folder : Text
  pub snapshot : Text
  pub password_secret : Option Text
  pub local_mount : Option LocalSpec

-- The condition types Complete and Failed, and any other one.
pub data JobCondition : Type 0 where
  job_complete job_failed job_other : JobCondition

-- A condition with its type, and whether its status is True.
pub record Condition : Type 0 where
  pub kind : JobCondition
  pub is_true : Bool

-- `claim` is the volume of a persistent claim; an owner is its kind and its name.
pub record Job : Type 0 where
  pub name : Text
  pub claim : Option Text
  pub containers : List (Option Container)
  pub owners : List (Text × Text)
  pub conditions : List Condition

pub data Event : Type 0 where
  backup_error backup_failed starting backup_successful : Event

-- What the handlers ask of the API server and of the storage.
pub data Request : Type 0 where
  update_cr_status : Backup → Request
  update_cr : Backup → Request
  get_cluster : Request
  list_backups : Request
  list_jobs : Request
  get_job : Text → Request
  create_job : Job → Request
  get_claim : Text → Request
  create_claim : (name : Text) (owned : Bool) → Request
  new_rclone_secret : Text → Request
  get_secret : Text → Request
  create_secret : Text → Request
  check_bucket_access : Request
  record_event : Event → Request

-- The backup in memory, and the requests so far, the latest first.
pub record World : Type 0 where
  pub backup : Backup
  pub requests : List Request

-- The environment: whether the latest request of a history fails, what it returns, the time, the
-- layout of a time in a path, and the location of the storage.
pub record Api : Type 0 where
  pub failure : List Request → Option KubeError
  pub cluster_of : List Request → DistributedRedisCluster
  pub items_of : List Request → ℕ
  pub job_of : List Request → Job
  pub now : List Request → ℕ
  pub format : ℕ → Text
  pub location : Backend → Result KubeError Text

abbrev pub Step : Type 0 → Type 0
Step A = Action World KubeError A

abbrev pub asked : Request → World → World
asked r w = record w { requests = r ∷ w.requests }

abbrev pub repository_kind : Text
repository_kind = codes "RedisClusterBackup"

-- isJobFinished
has_ended : JobCondition → Bool
has_ended job_other = false
has_ended _ = true

any_ended : List Condition → Bool
unfolding has_ended
any_ended [] = false
any_ended (c ∷ cs) = let rest = any_ended cs in if has_ended c.kind && c.is_true then true else rest

unfoldable pub is_job_finished : Job → Bool
unfolding any_ended
is_job_finished j = any_ended j.conditions

module _ (api : Api) where
  -- A request that returns only an error, and one with a value that is read from its answer.
  unfoldable pub ask : Request → Step (Unit {0})
  ask r w = (check (api.failure (r ∷ w.requests)), asked r w)

  unfoldable pub read : {A : Type 0} → Request → (List Request → A) → Step A
  unfolding ask
  read r f = ask r >> gets (λ w. f w.requests)

  -- r.recorder.Event
  unfoldable pub event : Event → Step (Unit {0})
  event e = modify (asked (record_event e))

  unfoldable pub create_pvc_for_backup : Text → Option RedisStorage → Step (Unit {0})
  unfolding ask
  create_pvc_for_backup name storage = on_error (ask (get_claim name)) λ e.
      if is_not_found e
      then ask (create_claim name (elim storage [ none ↦ false | some s ↦ s.delete_claim ]))
      else raise e

  unfoldable pub claim_volume : Text → Option RedisStorage → Bool → Step (Option Text)
  unfolding create_pvc_for_backup
  claim_volume name storage true = create_pvc_for_backup name storage >> pure (some name)
  claim_volume name storage false = pure none

  -- The name of the claim, or none for an empty directory.
  unfoldable pub get_volume_for_backup : Backup → Text → Step (Option Text)
  unfolding claim_volume
  get_volume_for_backup b name =
      claim_volume name b.storage (elim b.storage [ none ↦ false | some s ↦ s.persistent ])

  unfoldable pub container_of :
      Backup → Option Text → Text → RedisClusterNode → Text → ℕ → Container
  container_of b password location node folder i = record {
    name = codes "backup-" ++ format_uint i;
    image = b.image;
    location = location;
    host = node.ip;
    folder = folder;
    snapshot = b.name ++ codes "-" ++ format_uint i;
    password_secret = password;
    local_mount = b.backend.local;
  }

  abbrev pub is_master_node : RedisClusterNode → Bool
  is_master_node n = elim n.role [
    | none ↦ false
    | some r ↦ elim r [ role_master ↦ true | role_slave ↦ false | role_none ↦ false ]
  ]

  -- containers[i] = container
  unfoldable pub set_container : ℕ → Container → List (Option Container) → List (Option Container)
  set_container i c [] = []
  set_container zero c (x ∷ xs) = some c ∷ xs
  set_container (suc i) c (x ∷ xs) = x ∷ set_container i c xs

  -- The loop over the nodes of the cluster, at most `master_num` masters. A remote path that cannot
  -- be built is reported at once.
  unfoldable pub fill_containers :
      Backup
      → DistributedRedisCluster
      → Text
      → ℕ
      → List RedisClusterNode
      → ℕ
      → List (Option Container)
      → Step (List (Option Container))
  unfolding event container_of set_container
  fill_containers b c location master_num [] i containers = pure containers
  fill_containers b c location master_num (n ∷ ns) i containers =
      let rest = fill_containers b c location master_num ns i containers in
      let next = λ (folder : Text).
        fill_containers b c location master_num ns (i + 1) (
          set_container i (container_of b c.spec.password_secret location n folder i) containers) in
      if is_master_node n
      then (if i == master_num then pure containers else (elim (remote_path api.format b) [
        | ok folder ↦ next folder
        | err e ↦ event backup_error >> raise e
      ]))
      else rest

  abbrev pub no_containers : ℕ → List (Option Container)
  no_containers zero = []
  no_containers (suc n) = none ∷ no_containers n

  unfoldable pub backup_containers :
      Backup → DistributedRedisCluster → Step (List (Option Container))
  unfolding fill_containers
  backup_containers b c = elim (api.location b.backend) [
    | ok location ↦
        fill_containers b c location c.spec.master_size c.status.nodes 0
          (no_containers c.spec.master_size)
    | err e ↦ raise e
  ]

  unfoldable pub get_backup_job : Backup → DistributedRedisCluster → Step Job
  unfolding get_volume_for_backup backup_containers
  get_backup_job b c = do
    claim ← get_volume_for_backup b (job_name b)
    containers ← backup_containers b c
    pure (record {
      name = job_name b;
      claim = claim;
      containers = containers;
      owners = (repository_kind, b.name) ∷ [];
      conditions = [];
    })
