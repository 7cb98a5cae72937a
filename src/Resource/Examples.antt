-- ===== src/Resource/Examples.antt =====
-- The defaults of a cluster with a monitor and nothing else.
use redis_cluster_operator.Common.{◌≤◌, false, none, some, [], codes, is_empty, ◌≡◌, refl}
use redis_cluster_operator.Resource.{DistributedRedisCluster, default_spec}
use redis_cluster_operator.Resource.Defaults.{default_spec_settles}

abbrev bare : DistributedRedisCluster
bare = record {
  name = codes "drc";
  namespace = codes "ns";
  spec = record {
    image = [];
    master_size = 1;
    cluster_replicas = 1;
    service_name = [];
    config = none;
    annotations = none;
    resources = none;
    password_secret = none;
    monitor = some (record { image = []; prometheus = none });
    init = none;
  };
  status = record {
    status = [];
    reason = [];
    number_of_master = 0;
    min_replication_factor = 0;
    max_replication_factor = 0;
    nodes = [];
    restore_phase = [];
  };
  restore_backup = none;
}

default_spec_settles_example :
    let d = (default_spec bare).0 in
    (default_spec d ≡ (d, false))
    × (3 ≤ d.spec.master_size)
    × (is_empty d.spec.image ≡ false)
    × (is_empty d.spec.service_name ≡ false)
default_spec_settles_example = default_spec_settles bare refl
