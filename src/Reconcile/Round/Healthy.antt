-- ===== src/Reconcile/Round/Healthy.antt =====
-- When a round says that the cluster is healthy.
use mathlib.Core.Path.{subst}
use redis_cluster_operator.Common.{
  Bool, none, List, ◌∷◌, Text, codes, ◌≡◌, refl, sym, inl, inr, Result, ok, err, modify, on_error,
  Keeps, Keeps-on_error, Ends, Ends-bind, Then, Bool-cases,
}
use redis_cluster_operator.Status.{Pod, build_cluster_status, set_cluster_status, compare_status}
use redis_cluster_operator.Status.Compared.{compare_status-IsUnchanged}
use redis_cluster_operator.Resource.{DistributedRedisCluster}
use redis_cluster_operator.Reconcile.{
  fetch, get_cluster_infos, World, Env, set_status, set_restore_phase, ask, save_status,
  update_cluster_if_need,
}
use redis_cluster_operator.Reconcile.Ensure.{set_restore, start_restore}
use redis_cluster_operator.Reconcile.Kept.{Unhealed, IsKept, On, ask-Keeps}
use redis_cluster_operator.Reconcile.Round.{
  Decision, views_failed, restore, store_healthy, note_healthy, round,
}
use redis_cluster_operator.Reconcile.Round.Steps.{views_failed-Keeps, serve-Ends, round-serve}
use redis_cluster_operator.Reconcile.Round.Restoring.{start_restore-Keeps, restore-Ends}

-- The status was not made healthy since it was `before`.
abbrev UnhealedSince : Text → DistributedRedisCluster → Type 0
UnhealedSince before c = Unhealed before c.status.status

UnhealedSince-IsKept : (before : Text) → IsKept (UnhealedSince before)
UnhealedSince-IsKept before = record {
  keep_spec = λ c s h. h;
  keep_status = λ c s same. elim [ inl e ↦ λ h. rw e h | inr other ↦ λ h. inr other ];
}

-- How a round ends: healthy, or with a status that was not made healthy.
abbrev pub HealthNoted : Text → Result Decision (Unit {0}) × World → Type 0
HealthNoted before (ok done, w) =
    (w.cluster.status.status ≡ codes "Healthy") × (w.cluster.status.reason ≡ codes "OK")
HealthNoted before (err d, w) = Unhealed before w.cluster.status.status

module _ (env : Env) (before : Text) where
  abbrev P : DistributedRedisCluster → Type 0
  P = UnhealedSince before

  start_restore-Unhealed : Keeps (On P) (start_restore env)
  unfolding set_restore
  start_restore-Unhealed = start_restore-Keeps env P (UnhealedSince-IsKept before) (λ b w new h. h)

  restore-Unhealed : Ends (On P) (Then (On P) (HealthNoted before)) (restore env)
  unfolding set_restore_phase set_status
  restore-Unhealed =
      restore-Ends env P P (UnhealedSince-IsKept before) (HealthNoted before) (λ d w h. h)
        (λ w r h. h) (λ w r h. h)

  store_healthy-Healthy :
      (pods : List Pod) (w : World) → HealthNoted before (ok tt, store_healthy env pods w)
  unfolding store_healthy update_cluster_if_need set_status save_status ask set_cluster_status
  store_healthy-Healthy pods w =
      let s =
        set_cluster_status (codes "Healthy") (codes "OK")
          (build_cluster_status env.order (env.nodes_of w.requests) pods w.cluster.status) in
      elim (Bool-cases (compare_status w.cluster.status s)) [
        | inl e ↦ rw e (refl, refl)
        | inr e ↦
            let u = compare_status-IsUnchanged w.cluster.status s e in rw e (u.status, u.reason)
      ]

  note_healthy-Ends :
      (partial : Bool) (pods : List Pod)
      → Ends (On P) (HealthNoted before) (note_healthy env partial pods)
  unfolding note_healthy
  note_healthy-Ends partial pods =
      Ends-bind (On P) (HealthNoted before) (λ d w h. h)
        (on_error (ask env get_cluster_infos) (views_failed env partial))
        (λ _. modify (store_healthy env pods))
        (Keeps-on_error (ask env get_cluster_infos) (views_failed env partial)
          (ask-Keeps env P get_cluster_infos)
          (views_failed-Keeps env P (UnhealedSince-IsKept before) partial))
        (λ _. record { at = λ w h. store_healthy-Healthy pods w })

-- A round whose resource was found ends with the status "Healthy" and the reason "OK" if it gets to its
-- end; if it ends before, the status is the one that was found or another than "Healthy".
pub round-HealthNoted :
    (env : Env) (w : World)
    → env.failure (fetch ∷ w.requests) ≡ none
    → HealthNoted (env.fetched (fetch ∷ w.requests)).status.status (round env w)
round-HealthNoted env w found =
    let before = (env.fetched (fetch ∷ w.requests)).status.status in
    subst (λ r. HealthNoted before r) (sym (round-serve env w found))
      ((serve-Ends env (UnhealedSince before) (UnhealedSince-IsKept before) (HealthNoted before)
          (λ d w' h. h) (start_restore-Unhealed env before) (restore-Unhealed env before)
          (note_healthy-Ends env before)).at
        _ (inl refl))
