-- ===== src/Reconcile/Kept.antt =====
-- Predicates on the resource that the steps of a round keep.
use redis_cluster_operator.Common.{
  Keeps-on_error, Bool, true, false, ◌&&◌, ◌||◌, not, List, if◌then◌else◌, Text, codes, text_eq,
  ◌≡◌, refl, ◌⊎◌, inl, inr, Action, pure, raise, gets, modify, Keeps, Keeps-bind, Keeps-if,
  Keeps-pure, Keeps-gets, Keeps-modify, Keeps-raise, Bool-cases,
}
use redis_cluster_operator.Kube.{KubeError, is_request_retryable}
use redis_cluster_operator.Status.{ClusterStatus, set_cluster_status, compare_status}
use redis_cluster_operator.Resource.{
  DistributedRedisCluster, Spec, default_spec, is_restore_from_backup, is_restored,
  is_restore_running, is_restore_restarting,
}
use redis_cluster_operator.Reconcile.{
  ErrorType, kubernetes_error, cluster_error, requeue_error, Request, ensure_config_map,
  ensure_stateful_sets, ensure_headless_svcs, ensure_svc, ensure_rclone_secret, wait_stateful_sets,
  check_redis_node_num, get_first_stateful_set, get_pods, old_password, new_password, new_admin,
  write_password, reset_password, fix_terminating_pods, World, Env, set_status, ask, read,
  save_status, save, update_cluster_if_need, wrapping, untyped, wrap,
}
use redis_cluster_operator.Reconcile.Ensure.{
  set_spec, db_loaded_from_disk_when_restore, masters_only, start_restore, validate_and_set_default,
  set_and_save, change_password, reset_cluster_password, after_update, retrying, all_nodes_there,
  change_if, rewrap, ensure_cluster, wait_pod_ready,
}

-- The status was not made healthy.
abbrev pub Unhealed : Text → Text → Type 0
Unhealed before after = (after ≡ before) ⊎ (text_eq after (codes "Healthy") ≡ false)

-- A predicate that does not depend on the specification, nor on a status that keeps its restore phase
-- and is not made healthy.
pub record IsKept (P : DistributedRedisCluster → Type 0) : Type 0 where
  pub keep_spec : (c : DistributedRedisCluster) (s : Spec) → P c → P (record c { spec = s })
  pub keep_status :
      (c : DistributedRedisCluster) (s : ClusterStatus)
      → s.restore_phase ≡ c.status.restore_phase
      → Unhealed c.status.status s.status
      → P c
      → P (record c { status = s })

abbrev pub On : (DistributedRedisCluster → Type 0) → World → Type 0
On P w = P w.cluster

module _ (env : Env) (P : DistributedRedisCluster → Type 0) where
  pub ask-Keeps : (r : Request) → Keeps (On P) (ask env r)
  unfolding ask
  ask-Keeps r = record { at = λ w h. h }

  pub read-Keeps : {A : Type 0} (r : Request) (f : List Request → A) → Keeps (On P) (read env r f)
  unfolding read
  read-Keeps r f =
      Keeps-bind (ask env r) (λ _. gets (λ w. f w.requests)) (ask-Keeps r) (λ _. Keeps-gets _)

  pub save_status-Keeps : Keeps (On P) (save_status env)
  unfolding save_status ask
  save_status-Keeps = record { at = λ w h. h }

  pub save-Keeps : Keeps (On P) (save env)
  unfolding save ask
  save-Keeps = record { at = λ w h. h }

  -- The status is the new one, or stays as it is.
  pub update_cluster_if_need-On :
      (s : ClusterStatus) (w : World)
      → P w.cluster
      → P (record (w.cluster) { status = s })
      → P (update_cluster_if_need env s w).cluster
  unfolding update_cluster_if_need set_status save_status ask
  update_cluster_if_need-On s w h k = elim (Bool-cases (compare_status w.cluster.status s)) [
    | inl e ↦ rw e k
    | inr e ↦ rw e h
  ]

module _ (P : DistributedRedisCluster → Type 0) {A : Type 0} where
  pub wrapping-Keeps :
      (t : ErrorType) (msg : Text) (m : Action World KubeError A)
      → Keeps (On P) m
      → Keeps (On P) (wrapping t msg m)
  unfolding wrapping
  wrapping-Keeps t msg m k =
      Keeps-on_error m (λ e. raise (wrap t msg e)) k (λ e. Keeps-raise (wrap t msg e))

  pub untyped-Keeps : (m : Action World KubeError A) → Keeps (On P) m → Keeps (On P) (untyped m)
  unfolding untyped
  untyped-Keeps m k = Keeps-on_error m _ k (λ e. Keeps-raise _)

module _ (env : Env) (P : DistributedRedisCluster → Type 0) (kept : IsKept P)
    (start : Keeps (On P) (start_restore env)) where
  set_spec-On : (s : Spec) (w : World) → On P w → On P (set_spec s w)
  unfolding set_spec
  set_spec-On s w h = kept.keep_spec w.cluster s h

  masters_only-On : (w : World) → On P w → On P (masters_only w)
  unfolding masters_only
  masters_only-On w h =
      elim (Bool-cases (
        is_restore_from_backup w.cluster
        && (is_restore_running w.cluster || is_restore_restarting w.cluster))) [
          | inl e ↦ rw e (set_spec-On _ w h)
          | inr e ↦ rw e h
        ]

  db_loaded-On : (w : World) → On P w → On P (db_loaded_from_disk_when_restore w)
  unfolding db_loaded_from_disk_when_restore
  db_loaded-On w h =
      elim (Bool-cases (is_restore_from_backup w.cluster && not (is_restored w.cluster))) [
        | inl e ↦ rw e (set_spec-On _ w h)
        | inr e ↦ rw e h
      ]

  default_spec-On : (c : DistributedRedisCluster) → P c → P (default_spec c).0
  unfolding default_spec
  default_spec-On c h = kept.keep_spec c _ h

  saved-Keeps : (b : Bool) → Keeps (On P) (if b then save env else pure tt)
  saved-Keeps b = Keeps-if b _ _ (save-Keeps env P) (Keeps-pure tt)

  validate-Keeps : Keeps (On P) (validate_and_set_default env)
  unfolding validate_and_set_default
  validate-Keeps = Keeps-bind _ _ start λ update.
      Keeps-bind (modify masters_only)
        (λ _ w.
          let (c, missing) = default_spec w.cluster in
          (if update || missing then save env else pure tt) (record w { cluster = c }))
        (Keeps-modify _ masters_only-On)
        λ _. record { at = λ w h. (saved-Keeps _).at _ (default_spec-On w.cluster h) }

  set_and_save-Keeps :
      (status reason : Text)
      → text_eq status (codes "Healthy") ≡ false
      → Keeps (On P) (set_and_save env status reason)
  unfolding set_and_save set_status set_cluster_status save_status ask
  set_and_save-Keeps status reason other = record {
    at = λ w h. kept.keep_status w.cluster _ refl (inr other) h;
  }

  asked_untyped : (r : Request) → Keeps (On P) (untyped (ask env r))
  asked_untyped r = untyped-Keeps P _ (ask-Keeps env P r)

  change_password-Keeps : Keeps (On P) (change_password env)
  unfolding change_password text_eq
  change_password-Keeps = Keeps-bind _ _ (set_and_save-Keeps (codes "ResetPassword") _ refl) λ _.
      Keeps-bind _ _ (asked_untyped get_pods) λ _. Keeps-bind _ _ (asked_untyped old_password) λ _.
        Keeps-bind _ _ (asked_untyped new_password) λ _.
          Keeps-bind _ _ (asked_untyped new_admin)
            λ _. Keeps-bind _ _ (asked_untyped write_password) (λ _. asked_untyped reset_password)

  reset_cluster_password-Keeps : Keeps (On P) (reset_cluster_password env)
  unfolding reset_cluster_password all_nodes_there change_if
  reset_cluster_password-Keeps =
      Keeps-bind _ _
        (Keeps-on_error _ _
          (Keeps-bind _ _ (ask-Keeps env P check_redis_node_num) (λ _. Keeps-pure true))
          (λ e. Keeps-pure false))
        λ ready.
          Keeps-if ready _ _
            (Keeps-bind _ _ (untyped-Keeps P _ (read-Keeps env P get_first_stateful_set env.flag))
              λ changed. Keeps-if changed _ _ change_password-Keeps (Keeps-pure tt))
            (Keeps-pure tt)

  after_update-Keeps : (updated : Bool) → Keeps (On P) (after_update env updated)
  unfolding after_update text_eq
  after_update-Keeps updated =
      Keeps-if updated _ _
        (Keeps-bind _ _ (set_and_save-Keeps (codes "RollingUpdate") _ refl)
          (λ _. asked_untyped wait_stateful_sets))
        (Keeps-pure tt)

  retrying-Keeps :
      {A : Type 0} (msg : Text) (m : Action World KubeError A)
      → Keeps (On P) m
      → Keeps (On P) (retrying env msg m)
  unfolding retrying
  retrying-Keeps msg m k =
      Keeps-on_error m _ k
        λ e. Keeps-if (is_request_retryable e) _ _ (Keeps-raise _) (Keeps-raise _)

  wrapped : (msg : Text) (r : Request) → Keeps (On P) (wrapping kubernetes_error msg (ask env r))
  wrapped msg r = wrapping-Keeps P kubernetes_error msg _ (ask-Keeps env P r)

  pub ensure_cluster-Keeps : Keeps (On P) (ensure_cluster env)
  unfolding ensure_cluster rewrap
  ensure_cluster-Keeps = Keeps-bind _ _ (retrying-Keeps (codes "Validate") _ validate-Keeps) λ _.
      Keeps-bind _ _ (Keeps-modify db_loaded_from_disk_when_restore db_loaded-On) λ _.
        Keeps-bind _ _ (wrapped (codes "EnsureRedisConfigMap") ensure_config_map) λ _.
          Keeps-bind _ _
            (Keeps-on_error (reset_cluster_password env)
              (λ e. raise (wrap cluster_error (codes "ResetPassword") e.cause))
              reset_cluster_password-Keeps
              (λ e. Keeps-raise (wrap cluster_error (codes "ResetPassword") e.cause)))
            λ _.
              Keeps-bind _ _
                (wrapping-Keeps P kubernetes_error (codes "EnsureRedisStatefulSets") _
                  (read-Keeps env P ensure_stateful_sets env.flag))
                λ updated. Keeps-bind _ _ (after_update-Keeps updated) λ _.
                  Keeps-bind _ _ (wrapped (codes "EnsureRedisHeadLessSvcs") ensure_headless_svcs)
                    λ _. Keeps-bind _ _ (wrapped (codes "EnsureRedisSvc") ensure_svc) λ _.
                      retrying-Keeps (codes "EnsureRedisRCloneSecret") _
                        (ask-Keeps env P ensure_rclone_secret)

module _ (env : Env) (P : DistributedRedisCluster → Type 0) where
  pub wait_pod_ready-Keeps : Keeps (On P) (wait_pod_ready env)
  unfolding wait_pod_ready
  wait_pod_ready-Keeps =
      Keeps-bind _ _
        (wrapping-Keeps P kubernetes_error (codes "FixTerminatingPods") _
          (ask-Keeps env P fix_terminating_pods))
        λ _.
          wrapping-Keeps P requeue_error (codes "CheckRedisNodeNum") _
            (ask-Keeps env P check_redis_node_num)
