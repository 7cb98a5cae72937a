-- ===== src/Reconcile/Round/Restore.antt =====
-- How a round moves the restore phase.
use mathlib.Core.Path.{subst}
use redis_cluster_operator.Common.{
  Bool, true, none, List, [], ◌∷◌, Text, text_eq, text_eq→eq, is_empty, ◌≡◌, refl, ap, sym, ◌∙◌,
  ◌⊎◌, inl, inr, Result, modify, on_error, Keeps, Keeps-on_error, Ends, Ends-bind, Then, arith,
}
use redis_cluster_operator.Status.{Pod, build_cluster_status, set_cluster_status}
use redis_cluster_operator.Resource.{
  DistributedRedisCluster, should_init_restore_phase, is_restore_running, is_restore_restarting,
  restore_phase_running, restore_phase_restart, restore_phase_succeeded,
}
use redis_cluster_operator.Reconcile.{
  fetch, get_cluster_infos, World, Env, set_status, set_restore_phase, ask,
}
use redis_cluster_operator.Reconcile.Ensure.{set_restore, start_restore}
use redis_cluster_operator.Reconcile.Kept.{IsKept, On, ask-Keeps, update_cluster_if_need-On}
use redis_cluster_operator.Reconcile.Round.{
  Decision, views_failed, restore, store_healthy, note_healthy, round,
}
use redis_cluster_operator.Reconcile.Round.Steps.{views_failed-Keeps, serve-Ends, round-serve}
use redis_cluster_operator.Reconcile.Round.Restoring.{start_restore-Keeps, restore-Ends}

-- Before the restore step of a round: nothing has changed, or the restore has started.
pub data Started (before after : Text) : Type 0 where
  stays : after ≡ before → Started before after
  starts : before ≡ [] → after ≡ restore_phase_running → Started before after

-- The moves of a restore in a round: it starts, the masters are restarted, and it succeeds. The first
-- two may happen in one round.
pub data RestoreMove (before after : Text) : Type 0 where
  not_after_start : Started before after → RestoreMove before after
  restarts :
      (before ≡ []) ⊎ (before ≡ restore_phase_running)
      → after ≡ restore_phase_restart
      → RestoreMove before after
  succeeds :
      before ≡ restore_phase_restart → after ≡ restore_phase_succeeded → RestoreMove before after

empty_text : (t : Text) → is_empty t ≡ true → t ≡ []
empty_text [] e = refl
empty_text (x ∷ xs) e = cc

module _ (before : Text) where
  after_start :
      (t : Text) → is_empty t ≡ true → Started before t → Started before restore_phase_running
  after_start t e (stays s) = starts (sym s ∙ empty_text t e) refl
  after_start t e (starts b a) = starts b refl

  after_running :
      (t : Text)
      → text_eq t restore_phase_running ≡ true
      → Started before t
      → RestoreMove before restore_phase_restart
  after_running t e (stays s) = restarts (inr (sym s ∙ text_eq→eq t restore_phase_running e)) refl
  after_running t e (starts b a) = restarts (inl b) refl

  after_restart :
      (t : Text)
      → text_eq t restore_phase_restart ≡ true
      → Started before t
      → RestoreMove before restore_phase_succeeded
  unfolding text_eq
  after_restart t e (stays s) = succeeds (sym s ∙ text_eq→eq t restore_phase_restart e) refl
  after_restart t e (starts b a) =
      absurd (ground (arith, ap (λ u. text_eq u restore_phase_restart) a))

abbrev StartedSince : Text → DistributedRedisCluster → Type 0
StartedSince before c = Started before c.status.restore_phase

abbrev MovedSince : Text → DistributedRedisCluster → Type 0
MovedSince before c = RestoreMove before c.status.restore_phase

StartedSince-IsKept : (before : Text) → IsKept (StartedSince before)
StartedSince-IsKept before = record {
  keep_spec = λ c s h. h;
  keep_status = λ c s same e h. subst (Started before) (sym same) h;
}

MovedSince-IsKept : (before : Text) → IsKept (MovedSince before)
MovedSince-IsKept before = record {
  keep_spec = λ c s h. h;
  keep_status = λ c s same e h. subst (RestoreMove before) (sym same) h;
}

module _ (env : Env) (before : Text) where
  abbrev P : DistributedRedisCluster → Type 0
  P = StartedSince before

  abbrev Moves : Result Decision (Unit {0}) × World → Type 0
  Moves r = MovedSince before r.1.cluster

  start_restore-Started : Keeps (On P) (start_restore env)
  unfolding set_restore should_init_restore_phase
  start_restore-Started =
      start_restore-Keeps env P (StartedSince-IsKept before)
        (λ b w new h. after_start before w.cluster.status.restore_phase new h)

  restore-Moves : Ends (On P) (Then (On P) Moves) (restore env)
  unfolding set_restore_phase set_status is_restore_running is_restore_restarting
  restore-Moves =
      restore-Ends env P (MovedSince before) (MovedSince-IsKept before) Moves (λ d w h. h)
        (λ w r h. after_running before w.cluster.status.restore_phase r h)
        (λ w r h. after_restart before w.cluster.status.restore_phase r h)

  note_healthy-Moves :
      (partial : Bool) (pods : List Pod) → Ends (On P) Moves (note_healthy env partial pods)
  unfolding note_healthy store_healthy set_cluster_status build_cluster_status
  note_healthy-Moves partial pods =
      Ends-bind (On P) Moves (λ d w h. not_after_start h)
        (on_error (ask env get_cluster_infos) (views_failed env partial))
        (λ _. modify (store_healthy env pods))
        (Keeps-on_error (ask env get_cluster_infos) (views_failed env partial)
          (ask-Keeps env P get_cluster_infos)
          (views_failed-Keeps env P (StartedSince-IsKept before) partial))
        (λ _. record { at = λ w h. not_after_start (update_cluster_if_need-On env P _ w h h) })

-- A round whose resource was found changes the restore phase only as follows, however it ends: from
-- nothing to "Running", from one of these to "Restart", and from "Restart" to "Succeeded".
pub round-RestoreMove :
    (env : Env) (w : World)
    → env.failure (fetch ∷ w.requests) ≡ none
    → RestoreMove
        (env.fetched (fetch ∷ w.requests)).status.restore_phase
        (round env w).1.cluster.status.restore_phase
round-RestoreMove env w found =
    let before = (env.fetched (fetch ∷ w.requests)).status.restore_phase in
    subst (λ r. MovedSince before r.1.cluster) (sym (round-serve env w found))
      ((serve-Ends env (StartedSince before) (StartedSince-IsKept before) (Moves env before)
          (λ d w' h. not_after_start h) (start_restore-Started env before)
          (restore-Moves env before) (note_healthy-Moves env before)).at
        _ (stays refl))
