-- ===== src/Resource/Defaults.antt =====
-- DefaultSpec fills what is missing, and finds nothing missing after that.
use redis_cluster_operator.Common.{
  ℕ, ◌≤◌, false, Option, none, some, [], ◌∷◌, Text, codes, text_eq, text_eq_iff, Dict, text_eq_key,
  insert, lookup, lookup-insert, format_uint, is_empty, ◌≡◌, refl, ◌∙◌, arith, inl, inr, Bool-cases,
}
use redis_cluster_operator.Resource.{
  Resources, AgentSpec, DistributedRedisCluster, default_spec, default_master_size, default_text,
  default_resources, default_monitor, default_port, default_annotations, annotate, size_is_zero,
  default_redis_image, default_monitor_image, prometheus_exporter_telemetry_path,
}

-- An entry that is there changes nothing when it is inserted again.
insert_known : (k v : Text) (m : Dict Text Text) → lookup k m ≡ some v → insert k v m ≡ m
unfolding insert lookup
insert_known k v [] h = cc
insert_known k v ((j, w) ∷ m) h = ground (arith, text_eq_iff j k, insert_known k v m)

annotate_again : (port : ℕ) (a : Dict Text Text) → annotate port (annotate port a) ≡ annotate port a
unfolding annotate text_eq
annotate_again port a =
    let scrape = codes "prometheus.io/scrape" in
    let path = codes "prometheus.io/path" in
    let key = codes "prometheus.io/port" in
    let m1 = insert scrape (codes "true") a in
    let m2 = insert path prometheus_exporter_telemetry_path m1 in
    let m3 = insert key (format_uint port) m2 in
    let has_scrape : lookup scrape m3 ≡ some (codes "true") =
      lookup-insert key scrape (format_uint port) m2
      ∙ lookup-insert path scrape prometheus_exporter_telemetry_path m1
      ∙ lookup-insert scrape scrape (codes "true") a in
    let has_path : lookup path m3 ≡ some prometheus_exporter_telemetry_path =
      lookup-insert key path (format_uint port) m2
      ∙ lookup-insert path path prometheus_exporter_telemetry_path m1 in
    let has_port : lookup key m3 ≡ some (format_uint port) =
      lookup-insert key key (format_uint port) m2 in
    rw (insert_known scrape (codes "true") m3 has_scrape) (
      rw (insert_known path prometheus_exporter_telemetry_path m3 has_path)
        (insert_known key (format_uint port) m3 has_port))

master_size_again :
    (n : ℕ) → let m = (default_master_size n).0 in default_master_size m ≡ (m, false)
unfolding default_master_size
master_size_again n = ground arith

three_masters : (n : ℕ) → 3 ≤ (default_master_size n).0
unfolding default_master_size
three_masters n = ground arith

text_filled : (s t : Text) → is_empty t ≡ false → is_empty (default_text s t).0 ≡ false
unfolding default_text
text_filled [] t h = h
text_filled (c ∷ s) t h = refl

text_again :
    (s t : Text)
    → is_empty t ≡ false
    → let u = (default_text s t).0 in default_text u t ≡ (u, false)
unfolding default_text
text_again [] [] h = cc
text_again [] (c ∷ t) h = refl
text_again (c ∷ s) t h = refl

resources_again :
    (r : Option Resources) → let q = (default_resources r).0 in default_resources q ≡ (q, false)
unfolding default_resources
resources_again none = refl
resources_again (some r) = elim (Bool-cases (size_is_zero r)) [
  | inl e ↦ rw e refl
  | inr e ↦ rw (e, e) refl
]

port_again : (p : Option ℕ) → let q = (default_port p).0 in default_port (some q) ≡ (q, false)
unfolding default_port
port_again none = refl
port_again (some n) = ground arith

monitor_again :
    (m : Option AgentSpec) (a : Option (Dict Text Text))
    → let q = (default_monitor m a).0 in default_monitor q.0 q.1 ≡ (q, false)
unfolding default_monitor
monitor_again none a = refl
monitor_again (some mon) a =
    rw
      (
        text_again mon.image default_monitor_image refl,
        port_again mon.prometheus,
        annotate_again (default_port mon.prometheus).0 (default_annotations a).0,
      )
      refl

-- On a named cluster, what DefaultSpec returns asks for three masters at least and has an image and a
-- service name, and a second call reports no change and changes nothing.
pub default_spec_settles :
    (c : DistributedRedisCluster)
    → is_empty c.name ≡ false
    → let d = (default_spec c).0 in
      (default_spec d ≡ (d, false))
      × (3 ≤ d.spec.master_size)
      × (is_empty d.spec.image ≡ false)
      × (is_empty d.spec.service_name ≡ false)
unfolding default_spec
default_spec_settles c named = (
  rw
      (
        master_size_again c.spec.master_size,
        text_again c.spec.image default_redis_image refl,
        text_again c.spec.service_name c.name named,
        resources_again c.spec.resources,
        monitor_again c.spec.monitor c.spec.annotations,
      )
      refl,
  three_masters c.spec.master_size,
  text_filled c.spec.image default_redis_image refl,
  text_filled c.spec.service_name c.name named,
)
