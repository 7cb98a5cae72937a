-- ===== src/Reconcile/Round/Restoring.antt =====
-- The steps of a restore keep a predicate that allows the changes they make of the restore phase.
use mathlib.Core.Path.{subst}
use redis_cluster_operator.Common.{
  true, ◌&&◌, Option, none, some, codes, ◌≡◌, inl, inr, if◌then◌else◌, Result, ok, err, Action,
  pure, raise, modify, ◌>>=◌, ◌>>◌, Keeps, Keeps-bind, Ends, Ends-bind, Then, sym, after_bind,
  Bool-cases, arith,
}
use redis_cluster_operator.Kube.{KubeError, plain_error}
use redis_cluster_operator.Backup.{Backup}
use redis_cluster_operator.Resource.{
  DistributedRedisCluster, is_restore_from_backup, should_init_restore_phase, is_restore_running,
  is_restore_restarting, restore_phase_restart, restore_phase_succeeded,
}
use redis_cluster_operator.Reconcile.{
  get_backup, update_stateful_sets, wait_stateful_sets, World, Env, set_restore_phase, ask, read,
  save_status, save,
}
use redis_cluster_operator.Reconcile.Ensure.{
  set_restore, set_spec, has_succeeded, take_backup, init_restore, restored_spec, start_restore,
}
use redis_cluster_operator.Reconcile.Kept.{
  IsKept, On, ask-Keeps, read-Keeps, save_status-Keeps, save-Keeps,
}
use redis_cluster_operator.Reconcile.Round.{
  Decision, Round, done, requeue, must_untyped, with_replicas_of, restart_masters, finish_restore,
  restore,
}
use redis_cluster_operator.Reconcile.Round.Steps.{must_untyped-Keeps}

module _ (env : Env) (P : DistributedRedisCluster → Type 0) (kept : IsKept P) where
  -- The phase is not set yet.
  abbrev Unset : World → Type 0
  Unset w = (should_init_restore_phase w.cluster ≡ true) × On P w

  abbrev Starts : Type 0
  Starts =
      (b : Backup) (w : World)
      → should_init_restore_phase w.cluster ≡ true
      → On P w
      → On P (set_restore b w)

  take_backup-Ends :
      Starts
      → (b : Option Backup)
      → Ends Unset (λ (r : Result KubeError Backup × World). On P r.1) (take_backup env b)
  unfolding take_backup
  take_backup-Ends starts (some b) = record { at = λ w h. h.1 }
  take_backup-Ends starts none =
      Ends-bind Unset (λ r. On P r.1) (λ e w h. h.1) (read env get_backup env.backup_of)
        (λ b.
          if has_succeeded b.phase
          then modify (set_restore b) >> (save_status env >> pure b)
          else raise (plain_error (codes "backup is still running")))
        (read-Keeps env (λ c. (should_init_restore_phase c ≡ true) × P c) get_backup env.backup_of)
        λ b. record {
          at = λ w h. elim (Bool-cases (has_succeeded b.phase)) [
            | inl e ↦ rw e ((saved b).at (set_restore b w) (starts b w h.0 h.1))
            | inr e ↦ rw e h.1
          ];
        }
    where
      saved : (b : Backup) → Keeps (On P) (save_status env >> pure b)
      saved b =
          Keeps-bind (save_status env) (λ _. pure b) (save_status-Keeps env P)
            (λ _. record { at = λ w h. h })

  pub start_restore-Keeps : Starts → Keeps (On P) (start_restore env)
  unfolding start_restore init_restore set_spec
  start_restore-Keeps starts = record {
    at = λ w h.
        elim (Bool-cases
          (is_restore_from_backup w.cluster && should_init_restore_phase w.cluster)) [
            | inl e ↦
                let taken =
                  (take_backup-Ends starts w.cluster.restore_backup).at w (ground arith, h) in
                rw e (
                  after_bind (On P)
                    (λ b w.
                      let (s, update) = restored_spec b w.cluster.spec in (ok update, set_spec s w))
                    (λ w. take_backup env w.cluster.restore_backup w) w (λ _ _. taken)
                    (λ _ _. kept.keep_spec _ _ taken))
            | inr e ↦ rw e h
          ];
  }

-- The phase is changed last: what follows it ends the round.
module _ (env : Env) (P Q : DistributedRedisCluster → Type 0) (kept : IsKept Q)
    (R : Result Decision (Unit {0}) × World → Type 0)
    (fails : (d : Decision) (w : World) → On Q w → R (err d, w)) where
  must-Then :
      {A : Type 0} (m : Action World KubeError A) (f : A → Round (Unit {0}))
      → Keeps (On Q) m
      → ((a : A) → Ends (On Q) (Then (On P) R) (f a))
      → Ends (On Q) (Then (On P) R) (must_untyped m >>= f)
  must-Then m f k =
      Ends-bind (On Q) (Then (On P) R) fails (must_untyped m) f (must_untyped-Keeps env Q kept m k)

  restarted-Ends : Ends (On Q) (Then (On P) R) (
      must_untyped (save_status env)
      >> (must_untyped (ask env update_stateful_sets)
          >> (must_untyped (ask env wait_stateful_sets) >> raise {A = Unit {0}} requeue)))
  restarted-Ends = must-Then _ _ (save_status-Keeps env Q) λ _.
      must-Then _ _ (ask-Keeps env Q update_stateful_sets) λ _.
        must-Then _ (λ _. raise requeue) (ask-Keeps env Q wait_stateful_sets)
          λ _. record { at = fails requeue }

  replicas_saved : Round (Unit {0})
  unfolding set_spec
  replicas_saved =
      modify (λ w. set_spec (with_replicas_of w.cluster.restore_backup w.cluster.spec) w)
      >> (must_untyped (save env) >> raise done)

  replicas_saved-Ends : Ends (On Q) (Then (On P) R) replicas_saved
  unfolding replicas_saved set_spec
  replicas_saved-Ends = record {
    at = λ w h.
        let s = with_replicas_of w.cluster.restore_backup w.cluster.spec in
        (must-Then (save env) (λ _. raise done) (save-Keeps env Q)
            (λ _. record { at = fails done })).at
          (set_spec s w) (kept.keep_spec w.cluster s h);
  }

  finished-Ends : Ends (On Q) (Then (On P) R) (must_untyped (save_status env) >> replicas_saved)
  finished-Ends =
      must-Then (save_status env) (λ _. replicas_saved) (save_status-Keeps env Q)
        (λ _. replicas_saved-Ends)

  pub restore-Ends :
      ((w : World)
        → is_restore_running w.cluster ≡ true
        → On P w
        → On Q (set_restore_phase restore_phase_restart w))
      → ((w : World)
          → is_restore_restarting w.cluster ≡ true
          → On P w
          → On Q (set_restore_phase restore_phase_succeeded w))
      → Ends (On P) (Then (On P) R) (restore env)
  unfolding restore restart_masters finish_restore replicas_saved
  restore-Ends restarts succeeds = record {
    at = λ w h.
        elim (Bool-cases (is_restore_from_backup w.cluster && is_restore_running w.cluster)) [
          | inl e ↦
              subst
                (λ b. Then (On P) R (
                  (if b
                      then restart_masters env
                      else (if is_restore_from_backup w.cluster && is_restore_restarting w.cluster
                          then finish_restore env
                          else pure tt))
                    w))
                (sym e) (restarted-Ends.at _ (restarts w (ground arith) h))
          | inr e ↦
              subst
                (λ b. Then (On P) R (
                  (if b
                      then restart_masters env
                      else (if is_restore_from_backup w.cluster && is_restore_restarting w.cluster
                          then finish_restore env
                          else pure tt))
                    w))
                (sym e)
                (elim (Bool-cases
                  (is_restore_from_backup w.cluster && is_restore_restarting w.cluster)) [
                    | inl r ↦
                        subst (λ b. Then (On P) R ((if b then finish_restore env else pure tt) w))
                          (sym r) (finished-Ends.at _ (succeeds w (ground arith) h))
                    | inr r ↦
                        subst (λ b. Then (On P) R ((if b then finish_restore env else pure tt) w))
                          (sym r) h
                  ])
        ];
  }
