-- ===== src/Reconcile/Round/Examples.antt =====
-- A round on concrete answers.
use mathlib.Core.List.Perm
use redis_cluster_operator.Common.{
  Bool, true, false, none, some, [], ◌∷◌, Text, codes, text_eq_key, if◌then◌else◌, refl,
}
use redis_cluster_operator.Kube.{plain_error}
use redis_cluster_operator.Backup.{Backup, phase_succeeded}
use redis_cluster_operator.Resource.{DistributedRedisCluster}
use redis_cluster_operator.Reconcile.{Request, sync_cluster, World, Env}
use redis_cluster_operator.Reconcile.Round.{round}
use redis_cluster_operator.Reconcile.Round.Healthy.{HealthNoted, round-HealthNoted}
use redis_cluster_operator.Reconcile.Round.Restore.{RestoreMove, round-RestoreMove}

-- A cluster that is restored from a backup of three masters.
abbrev restoring : Text → Text → DistributedRedisCluster
restoring status phase = record {
  name = codes "drc";
  namespace = codes "ns";
  spec = record {
    image = codes "redis";
    master_size = 3;
    cluster_replicas = 1;
    service_name = [];
    config = none;
    annotations = none;
    resources = none;
    password_secret = none;
    monitor = none;
    init = some (record { namespace = codes "ns"; name = codes "b1" });
  };
  status = record {
    status = status;
    reason = [];
    number_of_master = 0;
    min_replication_factor = 0;
    max_replication_factor = 0;
    nodes = [];
    restore_phase = phase;
  };
  restore_backup = none;
}

abbrev source : Backup
source = record {
  name = codes "b1";
  namespace = codes "ns";
  redis_cluster_name = codes "old";
  image = [];
  backend = record {
    storage_secret_name = [];
    s3 = none;
    gcs = none;
    azure = none;
    swift = none;
    local = none;
  };
  storage = none;
  labels = [];
  start_time = none;
  completion_time = none;
  phase = phase_succeeded;
  reason = [];
  master_size = 3;
  cluster_replicas = 1;
  cluster_image = codes "redis";
}

-- Only the requests fail that `refused` says.
abbrev answers : (Request → Bool) → DistributedRedisCluster → Env
answers refused c = record {
  failure = elim [
    | [] ↦ none
    | r ∷ hist ↦ if refused r then some (plain_error (codes "refused")) else none
  ];
  flag = λ hist. false;
  count = λ hist. 0;
  fetched = λ hist. c;
  backup_of = λ hist. source;
  pods_of = λ hist. [];
  nodes_of = λ hist. [];
  is_partial = λ hist. false;
  order = record { range = λ m. m; range_perm = λ m. Perm.refl m };
  reconcile_time = 60;
}

abbrev start : DistributedRedisCluster → World
start c = record { cluster = c; requests = [] }

abbrev nothing : Request → Bool
nothing r = false

abbrev clustering : Request → Bool
clustering sync_cluster = true
clustering _ = false

abbrev healthy : DistributedRedisCluster
healthy = restoring (codes "Healthy") (codes "Succeeded")

abbrev fresh : DistributedRedisCluster
fresh = restoring [] []

round-HealthNoted_example :
    HealthNoted (codes "Healthy") (round (answers clustering healthy) (start healthy))
round-HealthNoted_example = round-HealthNoted (answers clustering healthy) (start healthy) refl

round-RestoreMove_example :
    RestoreMove [] (round (answers nothing fresh) (start fresh)).1.cluster.status.restore_phase
round-RestoreMove_example = round-RestoreMove (answers nothing fresh) (start fresh) refl
