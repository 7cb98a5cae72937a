-- ===== src/Backup.antt =====
-- pkg/controller/redisclusterbackup: the backup resource, with the parts of its specification that
-- the code reads, and pkg/apis/redis/v1alpha1/default.go as far as it is about backups.
pub mod Job
pub mod Handle
pub mod Create
pub mod Keeps
mod Handled
mod Launch
pub mod Jobs
mod Ending
pub mod Phases
pub mod Containers
mod Examples
use redis_cluster_operator.Common.{
  ℕ, Bool, true, false, ◌&&◌, ◌||◌, Option, none, some, List, [], ◌∷◌, ◌++◌, if◌then◌else◌, Text,
  codes, text_eq, is_empty, Dict, path_join, Result, ok, err, ◌==◌,
}
use redis_cluster_operator.Kube.{KubeError, plain_error}

-- A phase is a string; `phase_none` is the empty one.
pub data BackupPhase : Type 0 where
  phase_none phase_running phase_succeeded phase_failed phase_ignored : BackupPhase

-- The directory of a provider that holds local volumes.
pub record LocalSpec : Type 0 where
  pub mount_path : Text
  pub sub_path : Text

-- `persistent` is the storage type persistent-claim, else it is ephemeral.
pub record RedisStorage : Type 0 where
  pub persistent : Bool
  pub delete_claim : Bool

-- Where the dump goes: each provider that is given, with its prefix.
pub record Backend : Type 0 where
  pub storage_secret_name : Text
  pub s3 : Option Text
  pub gcs : Option Text
  pub azure : Option Text
  pub swift : Option Text
  pub local : Option LocalSpec

-- A time is the number of seconds since some moment.
pub record Backup : Type 0 where
  pub name : Text
  pub namespace : Text
  pub redis_cluster_name : Text
  pub image : Text
  pub backend : Backend
  pub storage : Option RedisStorage
  pub labels : Dict Text Text
  pub start_time : Option ℕ
  pub completion_time : Option ℕ
  pub phase : BackupPhase
  pub reason : Text
  pub master_size : ℕ
  pub cluster_replicas : ℕ
  pub cluster_image : Text

abbrev pub label_cluster_name : Text
label_cluster_name = codes "redis.kun/name"

abbrev pub label_backup_status : Text
label_backup_status = codes "redisclusterbackup.redis.kun/status"

abbrev pub database_name_prefix : Text
database_name_prefix = codes "redis"

-- delete(labels, key)
unfoldable pub without : Text → Dict Text Text → Dict Text Text
without k [] = []
without k ((j, v) ∷ m) = let rest = without k m in if text_eq j k then rest else (j, v) ∷ rest

is_none {ℓ} : {A : Type ℓ} → Option A → Bool
is_none none = true
is_none (some a) = false

is_some {ℓ} : {A : Type ℓ} → Option A → Bool
is_some none = false
is_some (some a) = true

unfoldable pub no_provider : Backend → Bool
unfolding is_none
no_provider b =
    is_none b.s3 && is_none b.gcs && is_none b.azure && is_none b.swift && is_none b.local

unfoldable pub needs_secret : Backend → Bool
unfolding is_some
needs_secret b = (is_some b.azure || is_some b.swift) && is_empty b.storage_secret_name

-- RedisClusterBackup.Validate
unfoldable pub validate : Backup → Option KubeError
unfolding no_provider needs_secret
validate b =
    if is_empty b.redis_cluster_name
    then some (plain_error (codes "bakcup [RedisClusterName] is missing"))
    else if no_provider b.backend
    then some (plain_error (codes "no storage provider is configured"))
    else if needs_secret b.backend
    then some (plain_error (codes "bakcup [SecretName] is missing"))
    else none

-- RemotePath. `format` is the layout "20060102150405" of the time package.
module _ (format : ℕ → Text) where
  time_prefix : Option ℕ → Text
  time_prefix none = []
  time_prefix (some t) = format t

  under : Backup → Text → Text
  unfolding time_prefix
  under b prefix = path_join (
      prefix
      ∷ database_name_prefix
      ∷ b.namespace
      ∷ b.redis_cluster_name
      ∷ time_prefix b.start_time
      ∷ [])

  from_local : Backup → Option LocalSpec → Option Text → Result KubeError Text
  unfolding under
  from_local b (some l) swift = ok (under b [])
  from_local b none (some prefix) = ok (under b prefix)
  from_local b none none = err (plain_error (codes "no storage provider is configured"))

  from_azure : Backup → Option Text → Result KubeError Text
  unfolding from_local
  from_azure b (some prefix) = ok (under b prefix)
  from_azure b none = from_local b b.backend.local b.backend.swift

  from_gcs : Backup → Option Text → Result KubeError Text
  unfolding from_azure
  from_gcs b (some prefix) = ok (under b prefix)
  from_gcs b none = from_azure b b.backend.azure

  from_s3 : Backup → Option Text → Result KubeError Text
  unfolding from_gcs
  from_s3 b (some prefix) = ok (under b prefix)
  from_s3 b none = from_gcs b b.backend.gcs

  unfoldable pub remote_path : Backup → Result KubeError Text
  unfolding from_s3
  remote_path b = from_s3 b b.backend.s3

abbrev pub rclone_secret_name : Backup → Text
rclone_secret_name b = codes "rcloneconfig-" ++ b.name

abbrev pub job_name : Backup → Text
job_name b = codes "redisbackup-" ++ b.name
