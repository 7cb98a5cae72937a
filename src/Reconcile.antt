-- ===== src/Reconcile.antt =====
-- pkg/controller/distributedrediscluster: errors.go, and what a round of the controller asks of its
-- environment. An answer may depend on all requests made before. Log output is left out.
pub mod Ensure
pub mod Kept
pub mod Round
use redis_cluster_operator.Common.{
  ℕ, Bool, true, false, Option, none, some, List, [], ◌∷◌, ◌++◌, not, ◌||◌, ◌==◌, if◌then◌else◌,
  Text, codes, Result, ok, err, Action, pure, raise, gets, modify, check, ◌>>=◌, ◌>>◌, on_error,
}
use redis_cluster_operator.Kube.{KubeError}
use redis_cluster_operator.Node.{Nodes}
use redis_cluster_operator.Clustering.{MapOrder}
use redis_cluster_operator.Status.{ClusterStatus, Pod, compare_status}
use redis_cluster_operator.Backup.{Backup}
use redis_cluster_operator.Resource.{DistributedRedisCluster}

pub data ErrorType : Type 0 where
  no_type requeue_error kubernetes_error redis_error cluster_error stop_retry : ErrorType

-- customError; an error of another type has no_type, as GetType says.
pub record TypedError : Type 0 where
  pub error_type : ErrorType
  pub cause : KubeError

-- errors.Wrapf: the message in front of that of the cause
unfoldable pub wrap : ErrorType → Text → KubeError → TypedError
wrap t msg e = record {
  error_type = t;
  cause = record e { message = msg ++ codes ": " ++ e.message };
}

-- What the round asks of the API server, of the pods and of the redis cluster. The repairs and
-- syncCluster are requests here; Heal and Sync model what they do.
pub data Request : Type 0 where
  fetch : Request
  get_backup : Request
  update_cr : DistributedRedisCluster → Request
  update_cr_status : DistributedRedisCluster → Request
  ensure_config_map ensure_stateful_sets ensure_headless_svcs ensure_svc ensure_rclone_secret :
      Request
  update_stateful_sets : Request
  wait_stateful_sets : Request
  check_redis_node_num : Request
  get_first_stateful_set : Request
  get_pods : Request
  old_password new_password : Request
  new_admin : Request
  write_password : Request
  reset_password : Request
  fix_terminating_pods : Request
  get_cluster_infos : Request
  heal : Request
  attach_node : Request
  set_config_if_need : Request
  list_stateful_sets : Request
  sync_cluster : Request

-- The resource in memory, and the requests so far, the latest first.
pub record World : Type 0 where
  pub cluster : DistributedRedisCluster
  pub requests : List Request

-- What the environment answers to the latest request of a history: an error, or a value.
pub record Env : Type 0 where
  pub failure : List Request → Option KubeError
  pub flag : List Request → Bool
  pub count : List Request → ℕ
  pub fetched : List Request → DistributedRedisCluster
  pub backup_of : List Request → Backup
  pub pods_of : List Request → List Pod
  pub nodes_of : List Request → Nodes
  pub is_partial : List Request → Bool
  pub order : MapOrder ℕ
  pub reconcile_time : ℕ

abbrev pub asked : Request → World → World
asked r w = record w { requests = r ∷ w.requests }

-- utils.CompareIntValue: true also when both are nil.
unfoldable pub compare_int_value : Option ℕ → Option ℕ → Bool
compare_int_value none none = true
compare_int_value none (some b) = false
compare_int_value (some a) none = false
compare_int_value (some a) (some b) = not (a == b)

unfoldable pub need_cluster_operation : DistributedRedisCluster → Bool
unfolding compare_int_value
need_cluster_operation c =
    compare_int_value (some c.status.number_of_master) (some c.spec.master_size)
    || compare_int_value (some c.status.min_replication_factor) (some c.spec.cluster_replicas)
    || compare_int_value (some c.status.max_replication_factor) (some c.spec.cluster_replicas)

unfoldable pub set_status : ClusterStatus → World → World
set_status s w = record w { cluster = record (w.cluster) { status = s } }

unfoldable pub set_restore_phase : Text → World → World
set_restore_phase phase w = set_status (record (w.cluster.status) { restore_phase = phase }) w

module _ (env : Env) where
  -- A request that returns only an error, and one with a value that is read from its answer.
  unfoldable pub ask : Request → Action World KubeError (Unit {0})
  ask r w = (check (env.failure (r ∷ w.requests)), asked r w)

  unfoldable pub read : {A : Type 0} → Request → (List Request → A) → Action World KubeError A
  unfolding ask
  read r f = ask r >> gets (λ w. f w.requests)

  -- UpdateCRStatus and UpdateCR of the resource as it stands.
  unfoldable pub save_status : Action World KubeError (Unit {0})
  unfolding ask
  save_status w = ask (update_cr_status w.cluster) w

  unfoldable pub save : Action World KubeError (Unit {0})
  unfolding ask
  save w = ask (update_cr w.cluster) w

  -- updateClusterIfNeed: whether the status was stored is not looked at.
  unfoldable pub update_cluster_if_need : ClusterStatus → World → World
  unfolding save_status set_status
  update_cluster_if_need s w =
      if compare_status w.cluster.status s then (save_status (set_status s w)).1 else w

module _ {A : Type 0} where
  -- The error with a type and a message, or without a type.
  unfoldable pub wrapping : ErrorType → Text → Action World KubeError A → Action World TypedError A
  unfolding wrap
  wrapping t msg m = on_error m (λ e. raise (wrap t msg e))

  unfoldable pub untyped : Action World KubeError A → Action World TypedError A
  untyped m = on_error m (λ e. raise (record { error_type = no_type; cause = e }))
