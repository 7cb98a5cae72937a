-- ===== src/Backup/Examples.antt =====
-- The handler of a backup on concrete inputs.
use redis_cluster_operator.Common.{
  ℕ, Bool, true, false, none, some, [], ◌∷◌, Text, codes, text_eq, split, ◌≡◌, refl, ok,
  text_eq_key, if◌then◌else◌, insert, path_join,
}
use redis_cluster_operator.Node.{role_master, role_slave}
use redis_cluster_operator.Status.{RedisClusterNode}
use redis_cluster_operator.Resource.{DistributedRedisCluster}
use redis_cluster_operator.Backup.{Backup, phase_none, phase_running, phase_succeeded, remote_path}
use redis_cluster_operator.Backup.Job.{World, Api, job_complete, repository_kind, backup_containers}
use redis_cluster_operator.Backup.Create.{create}
use redis_cluster_operator.Backup.Launch.{JobsLaunched}
use redis_cluster_operator.Backup.Jobs.{create-AllLaunched}
use redis_cluster_operator.Backup.Containers.{planned, backup_containers-eq-planned}

abbrev node_at : Text → Bool → RedisClusterNode
node_at ip master = record {
  id = ip;
  role = some (if master then role_master else role_slave);
  ip = ip;
  port = codes "6379";
  slots = [];
  master_ref = [];
  pod_name = ip;
  node_name = [];
  stateful_set = [];
}

-- Two masters and a slave where three masters are asked for.
abbrev cluster : DistributedRedisCluster
cluster = record {
  name = codes "drc";
  namespace = codes "ns";
  spec = record {
    image = codes "redis";
    master_size = 3;
    cluster_replicas = 1;
    service_name = [];
    config = none;
    annotations = none;
    resources = none;
    password_secret = none;
    monitor = none;
    init = none;
  };
  status = record {
    status = [];
    reason = [];
    number_of_master = 2;
    min_replication_factor = 0;
    max_replication_factor = 1;
    nodes = node_at (codes "a") true ∷ node_at (codes "b") false ∷ node_at (codes "c") true ∷ [];
    restore_phase = [];
  };
  restore_backup = none;
}

abbrev backup : Backup
backup = record {
  name = codes "b1";
  namespace = codes "ns";
  redis_cluster_name = codes "drc";
  image = codes "tools";
  backend = record {
    storage_secret_name = [];
    s3 = some (codes "p");
    gcs = none;
    azure = none;
    swift = none;
    local = none;
  };
  storage = none;
  labels = [];
  start_time = some 5;
  completion_time = none;
  phase = phase_none;
  reason = [];
  master_size = 0;
  cluster_replicas = 0;
  cluster_image = [];
}

-- Every request succeeds; as many backups and jobs are found as given, and the job has completed.
abbrev answers : ℕ → Api
answers items = record {
  failure = λ hist. none;
  cluster_of = λ hist. cluster;
  items_of = λ hist. items;
  job_of = λ hist. record {
    name = codes "redisbackup-b1";
    claim = none;
    containers = [];
    owners = (repository_kind, codes "b1") ∷ [];
    conditions = record { kind = job_complete; is_true = true } ∷ [];
  };
  now = λ hist. 7;
  format = λ t. codes "20200101000000";
  location = λ b. ok (codes "s3:bucket");
}

abbrev start : World
start = record { backup = backup; requests = [] }

create-AllLaunched_example : JobsLaunched (answers 0) (create (answers 0) start).1.requests
create-AllLaunched_example = create-AllLaunched (answers 0) start tt

create_starts : (create (answers 0) start).1.backup.phase ≡ phase_running
unfolding create text_eq insert remote_path
create_starts = refl

create_ends : (create (answers 1) start).1.backup.phase ≡ phase_succeeded
unfolding create text_eq insert remote_path
create_ends = refl

abbrev example_path : Text
example_path = codes "p/redis/ns/drc/20200101000000"

example_path_lem : remote_path (answers 0).format backup ≡ ok example_path
unfolding remote_path split text_eq path_join
example_path_lem = refl

backup_containers-eq-planned_example :
    backup_containers (answers 0) backup cluster start
    ≡ (ok (planned backup cluster (codes "s3:bucket") example_path 3 0 cluster.status.nodes), start)
backup_containers-eq-planned_example =
    backup_containers-eq-planned (answers 0) backup cluster (codes "s3:bucket") example_path start
      refl example_path_lem
