-- ===== src/Reconcile/Round/Steps.antt =====
-- What every step of a round before its last one keeps.
use redis_cluster_operator.Common.{
  ltb, Bool-cases, Bool, true, false, Option, none, ap, ◌∷◌, List, Text, codes, text_eq, ◌≡◌, refl,
  inl, inr, if◌then◌else◌, Result, err, Action, check, pure, raise, gets, modify, ◌>>=◌, ◌>>◌,
  Keeps, Keeps-bind, Keeps-if, Keeps-pure, Keeps-gets, Keeps-modify, Keeps-raise, Keeps-on_error,
  on_error, Ends, Ends-bind, Ends-then, Then,
}
use redis_cluster_operator.Kube.{KubeError, is_not_found}
use redis_cluster_operator.Node.{Nodes}
use redis_cluster_operator.Status.{Pod, build_cluster_status, set_cluster_status, compare_status}
use redis_cluster_operator.Resource.{DistributedRedisCluster}
use redis_cluster_operator.Reconcile.{
  ErrorType, no_type, asked, cluster_error, kubernetes_error, redis_error, requeue_error, fetch,
  get_pods, new_password, new_admin, get_cluster_infos, heal, attach_node, set_config_if_need,
  list_stateful_sets, sync_cluster, World, Env, set_status, ask, read, update_cluster_if_need,
  need_cluster_operation,
}
use redis_cluster_operator.Reconcile.Ensure.{start_restore, ensure_cluster}
use redis_cluster_operator.Reconcile.Kept.{
  IsKept, On, ask-Keeps, read-Keeps, update_cluster_if_need-On, wrapping-Keeps,
  ensure_cluster-Keeps, wait_pod_ready-Keeps,
}
use redis_cluster_operator.Reconcile.Round.{
  Decision, done, failed, Round, must, must_untyped, note, ensure, wait_ready, views_failed,
  first_views, heal_cluster, wait_for_cluster_join, join, restore, is_scaling_down, rebalancing_if,
  store_found, note_found, operate, note_healthy, serve, fetch_cluster, round,
}

module _ (env : Env) (P : DistributedRedisCluster → Type 0) (kept : IsKept P) where
  note-Keeps :
      (status reason : Text) (d : Decision)
      → text_eq status (codes "Healthy") ≡ false
      → Keeps (On P) (note env status reason d)
  unfolding note set_cluster_status
  note-Keeps status reason d other =
      Keeps-bind
        (modify
          (λ w. update_cluster_if_need env (set_cluster_status status reason w.cluster.status) w))
        (λ _. raise d)
        (Keeps-modify _ λ w h.
          update_cluster_if_need-On env P _ w h (kept.keep_status w.cluster _ refl (inr other) h))
        (λ _. Keeps-raise d)

  must-Keeps :
      {A : Type 0} (t : ErrorType) (msg : Text) (m : Action World KubeError A)
      → Keeps (On P) m
      → Keeps (On P) (must t msg m)
  unfolding must
  must-Keeps t msg m k = Keeps-on_error m _ k (λ e. Keeps-raise _)

  pub must_untyped-Keeps :
      {A : Type 0} (m : Action World KubeError A) → Keeps (On P) m → Keeps (On P) (must_untyped m)
  unfolding must_untyped
  must_untyped-Keeps m k = Keeps-on_error m _ k (λ e. Keeps-raise _)

  ensure-Keeps : Keeps (On P) (start_restore env) → Keeps (On P) (ensure env)
  unfolding ensure text_eq
  ensure-Keeps start =
      Keeps-on_error (ensure_cluster env) _ (ensure_cluster-Keeps env P kept start)
        λ e. Keeps-if _ _ _ (Keeps-raise _) (note-Keeps (codes "Scaling") _ _ refl)

  wait_ready-Keeps : Keeps (On P) (wait_ready env)
  unfolding wait_ready text_eq
  wait_ready-Keeps =
      Keeps-on_error _ _ (wait_pod_ready-Keeps env P)
        λ e. Keeps-if _ _ _ (Keeps-raise _) (note-Keeps (codes "Scaling") _ _ refl)

  pub views_failed-Keeps :
      (partial : Bool) (e : KubeError) → Keeps (On P) (views_failed env partial e)
  unfolding views_failed
  views_failed-Keeps partial e = Keeps-if partial _ _ (Keeps-raise _) (Keeps-pure tt)

  first_views-Keeps : Keeps (On P) (first_views env)
  unfolding first_views
  first_views-Keeps =
      Keeps-bind _ (λ _. gets (λ w. env.nodes_of w.requests))
        (Keeps-on_error (ask env get_cluster_infos)
          (λ e w. views_failed env (env.is_partial w.requests) e w)
          (ask-Keeps env P get_cluster_infos)
          (λ e. record { at = λ w h. (views_failed-Keeps (env.is_partial w.requests) e).at w h }))
        (λ _. Keeps-gets _)

  heal_cluster-Keeps : Keeps (On P) (heal_cluster env)
  unfolding heal_cluster
  heal_cluster-Keeps =
      Keeps-bind _ _ (must-Keeps redis_error (codes "Heal") _ (read-Keeps env P heal env.flag))
        λ again. Keeps-if again _ _ (Keeps-raise _) (Keeps-pure tt)

  join-Keeps : Keeps (On P) (join env)
  unfolding join wait_for_cluster_join text_eq
  join-Keeps =
      Keeps-on_error (wait_for_cluster_join env) _
        (Keeps-on_error (ask env get_cluster_infos) _ (ask-Keeps env P get_cluster_infos) λ e.
          Keeps-bind _ _
            (wrapping-Keeps P redis_error (codes "AttachNodeToCluster") _
              (ask-Keeps env P attach_node))
            λ _.
              wrapping-Keeps P requeue_error (codes "wait for cluster join") _
                (ask-Keeps env P get_cluster_infos))
        λ e. Keeps-if _ _ _ (Keeps-raise _) (note-Keeps (codes "Failed") _ _ refl)

  store_found-On :
      (nodes : Nodes) (pods : List Pod) (down : Bool) (w : World)
      → On P w
      → On P (store_found env nodes pods down w)
  unfolding store_found set_status update_cluster_if_need rebalancing_if build_cluster_status
      set_cluster_status text_eq
  store_found-On nodes pods down w h =
      let s =
        rebalancing_if env down (build_cluster_status env.order nodes pods w.cluster.status) in
      elim (Bool-cases (compare_status w.cluster.status s)) [
        | inl e ↦ rw e (found-P down)
        | inr e ↦ rw e (found-P down)
      ]
    where
      found-P :
          (down : Bool)
          → P (record (w.cluster) {
            status =
                rebalancing_if env down
                  (build_cluster_status env.order nodes pods w.cluster.status);
          })
      found-P true = kept.keep_status w.cluster _ refl (inr refl) h
      found-P false = kept.keep_status w.cluster _ refl (inl refl) h

  note_found-Keeps : (nodes : Nodes) (pods : List Pod) → Keeps (On P) (note_found env nodes pods)
  unfolding note_found is_scaling_down
  note_found-Keeps nodes pods =
      Keeps-bind (is_scaling_down env) (λ down. modify (store_found env nodes pods down))
        (Keeps-on_error _ _
          (Keeps-bind (read env list_stateful_sets env.count)
            (λ n. gets (λ w. ltb w.cluster.spec.master_size n))
            (read-Keeps env P list_stateful_sets env.count) (λ n. Keeps-gets _))
          (λ e. Keeps-pure false))
        (λ down. Keeps-modify _ (store_found-On nodes pods down))

  operate-Keeps : Keeps (On P) (operate env)
  unfolding operate text_eq
  operate-Keeps = record { at = λ w h. (operation (need_cluster_operation w.cluster)).at w h }
    where
      operation :
          (needed : Bool)
          → Keeps (On P) (
              if needed
              then on_error (ask env sync_cluster) (λ e.
                note env
                  (codes "Failed")
                  e.message
                  (failed (record { error_type = cluster_error; cause = e })))
              else pure tt)
      operation needed =
          Keeps-if needed _ _
            (Keeps-on_error (ask env sync_cluster) _ (ask-Keeps env P sync_cluster)
              (λ e. note-Keeps (codes "Failed") _ _ refl))
            (Keeps-pure tt)

  -- All steps before the last one keep the predicate, so the round ends as its last step does.
  module _ (R : Result Decision (Unit {0}) × World → Type 0)
      (fails : (d : Decision) (w : World) → On P w → R (err d, w)) where
    before :
        {A : Type 0} (m : Round A) (f : A → Round (Unit {0}))
        → Keeps (On P) m
        → ((a : A) → Ends (On P) R (f a))
        → Ends (On P) R (m >>= f)
    before m f = Ends-bind (On P) R fails m f

    pub serve-Ends :
        Keeps (On P) (start_restore env)
        → Ends (On P) (Then (On P) R) (restore env)
        → ((partial : Bool) (pods : List Pod) → Ends (On P) R (note_healthy env partial pods))
        → Ends (On P) R (serve env)
    unfolding serve
    serve-Ends start restored last = before _ _ (ensure-Keeps start) λ _.
        before _ _
          (must-Keeps kubernetes_error (codes "GetStatefulSetPods") _
            (read-Keeps env P get_pods env.pods_of))
          λ pods. before _ _ wait_ready-Keeps λ _.
            before _ _
              (must-Keeps kubernetes_error (codes "getClusterPassword") _
                (ask-Keeps env P new_password))
              λ _.
                before _ _
                  (must-Keeps redis_error (codes "newRedisAdmin") _ (ask-Keeps env P new_admin))
                  λ _. before _ _ first_views-Keeps λ nodes.
                    before _ _ (Keeps-gets (λ w. env.is_partial w.requests)) λ partial.
                      before _ _ heal_cluster-Keeps λ _. before _ _ join-Keeps λ _.
                        Ends-then (On P) R _ _ restored λ _.
                          before _ _
                            (must-Keeps redis_error (codes "SetConfigIfNeed") _
                              (ask-Keeps env P set_config_if_need))
                            λ _.
                              before _ _ (note_found-Keeps nodes pods)
                                λ _. before _ _ operate-Keeps λ _. last partial pods

-- A round whose resource is found serves it.
pub round-serve :
    (env : Env) (w : World)
    → env.failure (fetch ∷ w.requests) ≡ none
    → round env w
      ≡ serve env
          (record { cluster = env.fetched (fetch ∷ w.requests); requests = fetch ∷ w.requests })
unfolding round fetch_cluster ask
round-serve env w found =
    ap
      (λ (failure : Option KubeError).
        (on_error (λ (w : World). (check failure, asked fetch w))
              (λ e. raise (
                if is_not_found e
                then done
                else failed (record { error_type = no_type; cause = e })))
            >> modify (λ w. record w { cluster = env.fetched w.requests })
            >> serve env)
          w)
      found
