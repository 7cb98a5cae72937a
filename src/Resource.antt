-- ===== src/Resource.antt =====
-- pkg/apis/redis/v1alpha1: the DistributedRedisCluster with the parts of its specification that the
-- modelled code reads, its defaults (default.go) and its validation (webhook). Sizes are int32; the
-- negative ones, which the defaults raise, are written as 0. Quantities are whole units.
pub mod Defaults
mod Examples
use redis_cluster_operator.Common.{
  ℕ, Bool, true, false, ◌&&◌, ◌||◌, not, Option, none, some, List, [], ◌∷◌, if◌then◌else◌, ltb,
  ◌==◌, Text, codes, text_eq, is_empty, Dict, Eq, text_eq_key, insert, format_uint,
}
use redis_cluster_operator.Kube.{KubeError, plain_error}
use redis_cluster_operator.Status.{ClusterStatus}
use redis_cluster_operator.Backup.{Backup}

-- corev1.ResourceRequirements, its cpu and its memory.
pub record Resources : Type 0 where
  pub requests_cpu : Option ℕ
  pub requests_memory : Option ℕ
  pub limits_cpu : Option ℕ
  pub limits_memory : Option ℕ

-- AgentSpec; of PrometheusSpec the port.
pub record AgentSpec : Type 0 where
  pub image : Text
  pub prometheus : Option ℕ

pub record BackupSourceSpec : Type 0 where
  pub namespace : Text
  pub name : Text

-- `init` is Spec.Init.BackupSource, and `none` if either is nil.
pub record Spec : Type 0 where
  pub image : Text
  pub master_size : ℕ
  pub cluster_replicas : ℕ
  pub service_name : Text
  pub config : Option (Dict Text Text)
  pub annotations : Option (Dict Text Text)
  pub resources : Option Resources
  pub password_secret : Option Text
  pub monitor : Option AgentSpec
  pub init : Option BackupSourceSpec

-- The restore phase is a field of the status; the backup that is restored stands beside it.
pub record DistributedRedisCluster : Type 0 where
  pub name : Text
  pub namespace : Text
  pub spec : Spec
  pub status : ClusterStatus
  pub restore_backup : Option Backup

abbrev pub min_master_size : ℕ
min_master_size = 3

abbrev pub default_redis_image : Text
default_redis_image = codes "redis:5.0.4-alpine"

abbrev pub default_monitor_image : Text
default_monitor_image = codes "oliver006/redis_exporter:latest"

abbrev pub prometheus_exporter_port_number : ℕ
prometheus_exporter_port_number = 9100

abbrev pub prometheus_exporter_telemetry_path : Text
prometheus_exporter_telemetry_path = codes "/metrics"

-- In thousandths of a cpu, and in bytes.
unfoldable pub default_resource : Resources
default_resource = record {
  requests_cpu = some 200;
  requests_memory = some 2147483648;
  limits_cpu = some 1000;
  limits_memory = some 4294967296;
}

-- A piece of the specification after DefaultSpec, and whether it has changed.
unfoldable pub default_master_size : ℕ → ℕ × Bool
default_master_size n = if ltb n min_master_size then (min_master_size, true) else (n, false)

unfoldable pub default_text : Text → Text → Text × Bool
default_text [] text = (text, true)
default_text (c ∷ s) text = (c ∷ s, false)

-- Resources.Size() is 0 when no quantity is given.
no_quantity : Option ℕ → Bool
no_quantity none = true
no_quantity (some n) = false

size_is_zero : Resources → Bool
unfolding no_quantity
size_is_zero r =
    no_quantity r.requests_cpu
    && no_quantity r.requests_memory
    && no_quantity r.limits_cpu
    && no_quantity r.limits_memory

unfoldable pub default_resources : Option Resources → Option Resources × Bool
unfolding size_is_zero default_resource
default_resources none = (some default_resource, true)
default_resources (some r) =
    if size_is_zero r then (some default_resource, true) else (some r, false)

-- mon.Prometheus, and its port
unfoldable pub default_port : Option ℕ → ℕ × Bool
default_port none = (prometheus_exporter_port_number, true)
default_port (some port) =
    if port == 0 then (prometheus_exporter_port_number, true) else (port, false)

unfoldable pub default_annotations : Option (Dict Text Text) → Dict Text Text × Bool
default_annotations none = ([], true)
default_annotations (some a) = (a, false)

unfoldable pub annotate : ℕ → Dict Text Text → Dict Text Text
annotate port a = insert (codes "prometheus.io/port") (format_uint port) (
    insert (codes "prometheus.io/path") prometheus_exporter_telemetry_path
      (insert (codes "prometheus.io/scrape") (codes "true") a))

unfoldable pub default_monitor :
    Option AgentSpec → Option (Dict Text Text) → (Option AgentSpec × Option (Dict Text Text)) × Bool
unfolding default_text default_port default_annotations annotate
default_monitor none annotations = ((none, annotations), false)
default_monitor (some mon) annotations =
    let image = default_text mon.image default_monitor_image in
    let port = default_port mon.prometheus in
    let found = default_annotations annotations in
    (
      (some (record { image = image.0; prometheus = some port.0 }), some (annotate port.0 found.0)),
      image.1 || port.1 || found.1,
    )

-- DefaultSpec: the cluster with its defaults, and whether something was missing.
unfoldable pub default_spec : DistributedRedisCluster → DistributedRedisCluster × Bool
unfolding default_master_size default_text default_resources default_monitor
default_spec c =
    let size = default_master_size c.spec.master_size in
    let image = default_text c.spec.image default_redis_image in
    let service = default_text c.spec.service_name c.name in
    let resources = default_resources c.spec.resources in
    let monitor = default_monitor c.spec.monitor c.spec.annotations in
    (
      record c {
        spec = record (c.spec) {
          master_size = size.0;
          image = image.0;
          service_name = service.0;
          resources = resources.0;
          monitor = monitor.0.0;
          annotations = monitor.0.1;
        };
      },
      size.1 || image.1 || service.1 || resources.1 || monitor.1,
    )

-- The restore phases.
abbrev pub restore_phase_running : Text
restore_phase_running = codes "Running"

abbrev pub restore_phase_restart : Text
restore_phase_restart = codes "Restart"

abbrev pub restore_phase_succeeded : Text
restore_phase_succeeded = codes "Succeeded"

unfoldable pub is_restore_from_backup : DistributedRedisCluster → Bool
is_restore_from_backup c = elim c.spec.init [ none ↦ false | some source ↦ true ]

unfoldable pub is_restored : DistributedRedisCluster → Bool
is_restored c = text_eq c.status.restore_phase restore_phase_succeeded

unfoldable pub should_init_restore_phase : DistributedRedisCluster → Bool
should_init_restore_phase c = is_empty c.status.restore_phase

unfoldable pub is_restore_running : DistributedRedisCluster → Bool
is_restore_running c = text_eq c.status.restore_phase restore_phase_running

unfoldable pub is_restore_restarting : DistributedRedisCluster → Bool
is_restore_restarting c = text_eq c.status.restore_phase restore_phase_restart
