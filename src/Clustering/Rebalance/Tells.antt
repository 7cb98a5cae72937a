-- ===== src/Clustering/Rebalance/Tells.antt =====
-- RebalancedCluster as a whole gives away what it takes (pkg/controller/clustering/rebalance.go).
use mathlib.Core.Path.{subst}
use mathlib.Core.Option.{some-injective}
use redis_cluster_operator.Common.{
  ◌-◌, ◌/◌, ◌&&◌, length, pos, ◌-ℤ◌, ltb_ℤ, ℕ, zero, suc, ◌≡◌, refl, inl, inr, Option, none, some,
  List, [], ◌∷◌, ltb, Bool-cases, get_elem?, ℤ,
}
use redis_cluster_operator.Node.{total_slots}
use redis_cluster_operator.Clustering.{Ref, Store}
use redis_cluster_operator.Admin.{Call, World, Replies, set_node_balance}
use redis_cluster_operator.Clustering.Migration.Dispatch.{Outcome, continue_with}
use redis_cluster_operator.Clustering.Rebalance.{
  set_balances, level_node, level_round, level, MovedNode, move_slot, move_table, moved_by,
  exchange, compute_reshard_table, update_balances, after_exchange, both, drain_round, drain,
  drain_levelled, total_balance, rebalanced_cluster, num_slots_between,
}
use redis_cluster_operator.Clustering.Rebalance.Told.{
  SlotsTold, NoneLost, IsTold, IsTold-balance, move_slot-IsTold,
}

module _ (b : Store) where
  continue_with-IsTold :
      (k : World → Outcome) (o : Outcome)
      → ((w : World) → IsTold b w → IsTold b (k w).0)
      → IsTold b o.0
      → IsTold b (continue_with k o).0
  unfolding continue_with
  continue_with-IsTold k (w, none) f t = f w t
  continue_with-IsTold k (w, some failed) f t = t

  move_table-IsTold :
      (replies : Replies) (target : Ref) (table : List MovedNode) (w : World)
      → IsTold b w
      → IsTold b (move_table replies target table w).0
  unfolding move_table
  move_table-IsTold replies target [] w t = t
  move_table-IsTold replies target (e ∷ table) w t =
      continue_with-IsTold (move_table replies target table)
        (move_slot replies e.source e.slot target w) (move_table-IsTold replies target table)
        (move_slot-IsTold b replies e.source e.slot target w t)

  -- Whatever comes out, a slot is only lost when it is given.
  abbrev pub Tells : Option Outcome → Type 0
  Tells none = Unit
  Tells (some o) = IsTold b o.0

  pub exchange-Tells :
      (replies : Replies) (target source : Ref) (n : ℕ) (w : World)
      → IsTold b w
      → Tells (exchange replies target source n w)
  unfolding exchange moved_by
  exchange-Tells replies target source zero w t = t
  exchange-Tells replies target source (suc n) w t =
      by_table (compute_reshard_table w.store (source ∷ []) (suc n))
    where
      by_table : (o : Option (List MovedNode)) → Tells (moved_by replies target w o)
      by_table none = tt
      by_table (some table) = move_table-IsTold replies target table w t

  after_exchange-Tells :
      (k : World → Option Outcome) (o : Option Outcome)
      → ((w : World) → IsTold b w → Tells (k w))
      → Tells o
      → Tells (after_exchange k o)
  unfolding after_exchange
  after_exchange-Tells k none f t = tt
  after_exchange-Tells k (some (w, none)) f t = f w t
  after_exchange-Tells k (some (w, some failed)) f t = t

  both-Tells :
      (k : Ref → Ref → Option Outcome) (d s : Option Ref)
      → ((d s : Ref) → Tells (k d s))
      → Tells (both k d s)
  unfolding both
  both-Tells k none none f = tt
  both-Tells k none (some s) f = tt
  both-Tells k (some d) none f = tt
  both-Tells k (some d) (some s) f = f d s

  module _ (replies : Replies) (sn : List Ref) where
    drain-Tells :
        (fuel dst src : ℕ) (w : World) → IsTold b w → Tells (drain replies sn fuel dst src w)
    unfolding drain drain_round update_balances
    drain-Tells zero dst src w t = elim (Bool-cases (ltb dst src)) [
      | inl e ↦ rw e tt
      | inr e ↦ rw e t
    ]
    drain-Tells (suc fuel) dst src w t = elim (Bool-cases (ltb dst src)) [
      | inl e ↦ rw e (
          both-Tells _ (get_elem? sn dst) (get_elem? sn src) (λ d s.
            after_exchange-Tells _
              (exchange replies d s (num_slots_between (w.store d) (w.store s)) w)
              (λ w' t'.
                drain-Tells fuel _ _ _ (IsTold-balance b s _ _ (IsTold-balance b d _ w' t')))
              (exchange-Tells replies d s _ w t)))
      | inr e ↦ rw e t
    ]

  module _ (calls : List Call) where
    pub set_balances-IsTold :
        (expected : ℕ) (rs : List Ref) (h : Store)
        → IsTold b (record { store = h; calls = calls })
        → IsTold b (record { store = set_balances expected rs h; calls = calls })
    unfolding set_balances set_node_balance
    set_balances-IsTold expected [] h t = t
    set_balances-IsTold expected (r ∷ rs) h t = set_balances-IsTold expected rs _ (
        IsTold-balance b r (pos (total_slots (h r)) -ℤ pos expected)
          (record { store = h; calls = calls }) t)

    level_node-IsTold :
        (r : Ref) (h : Store) (total : ℤ)
        → IsTold b (record { store = h; calls = calls })
        → IsTold b (record { store = (level_node r h total).0; calls = calls })
    unfolding level_node set_node_balance
    level_node-IsTold r h total t =
        elim (Bool-cases (ltb_ℤ (h r).balance (pos 0) && ltb_ℤ (pos 0) total)) [
          | inl e ↦
              rw e (
                IsTold-balance b r ((h r).balance -ℤ pos 1) (record { store = h; calls = calls }) t)
          | inr e ↦ rw e t
        ]

    level_round-IsTold :
        (rs : List Ref) (h : Store) (total : ℤ)
        → IsTold b (record { store = h; calls = calls })
        → IsTold b (record { store = (level_round rs (h, total)).0; calls = calls })
    unfolding level_round
    level_round-IsTold [] h total t = t
    level_round-IsTold (r ∷ rs) h total t =
        level_round-IsTold rs _ _ (level_node-IsTold r h total t)

    pub level-IsTold :
        (fuel : ℕ) (rs : List Ref) (h : Store) (total : ℤ) (h' : Store)
        → level fuel rs (h, total) ≡ some h'
        → IsTold b (record { store = h; calls = calls })
        → IsTold b (record { store = h'; calls = calls })
    unfolding level
    level-IsTold zero rs h total h' e t = elim (Bool-cases (ltb_ℤ (pos 0) total)) [
      | inl q ↦ absurd (cc (let f = e in rw q at (f)))
      | inr q ↦
          subst (λ g. IsTold b (record { store = g; calls = calls }))
            (some-injective h h' (let f = e in rw q at (f))) t
    ]
    level-IsTold (suc fuel) rs h total h' e t = elim (Bool-cases (ltb_ℤ (pos 0) total)) [
      | inl q ↦
          level-IsTold fuel rs _ _ h' (let f = e in rw q at (f)) (level_round-IsTold rs h total t)
      | inr q ↦
          subst (λ g. IsTold b (record { store = g; calls = calls }))
            (some-injective h h' (let f = e in rw q at (f))) t
    ]

-- RebalancedCluster gives away what it takes from a node, whatever the replies and also when it fails.
pub rebalanced_cluster-IsTold :
    (replies : Replies) (sorted : Store → List Ref → List Ref) (hash_slots fuel : ℕ)
    (new : List Ref) (w : World) (o : Outcome)
    → SlotsTold w.store w.calls
    → rebalanced_cluster fuel replies sorted hash_slots new w ≡ some o
    → SlotsTold w.store o.0.calls × NoneLost w.store o.0
unfolding rebalanced_cluster drain_levelled
rebalanced_cluster-IsTold replies sorted hash_slots fuel [] w o s e =
    let same : (w, none) ≡ o = some-injective (w, none) o e in
    subst (λ (p : Outcome). SlotsTold w.store p.0.calls × NoneLost w.store p.0) same
      (s, λ r a m. inl m)
rebalanced_cluster-IsTold replies sorted hash_slots fuel (r ∷ rs) w o s e =
    let new = r ∷ rs in
    let start : IsTold w.store w = record {
      names = λ q. (refl, refl);
      told = s;
      given = λ q a m. inl m;
    } in
    let h0 = set_balances (hash_slots / length new) new w.store in
    let t0 = set_balances-IsTold w.store w.calls (hash_slots / length new) new w.store start in
    let all =
      by_level (level fuel new (h0, total_balance h0 new))
        (λ h' q. level-IsTold w.store w.calls fuel new h0 (total_balance h0 new) h' q t0) in
    let end = subst (Tells w.store) e all in (end.told, end.given)
  where
    by_level :
        (l : Option Store)
        → ((h' : Store) → l ≡ some h' → IsTold w.store (record { store = h'; calls = w.calls }))
        → Tells w.store (drain_levelled replies sorted (r ∷ rs) fuel w l)
    by_level none f = tt
    by_level (some h') f =
        drain-Tells w.store replies (sorted h' (r ∷ rs)) fuel 0 (length (sorted h' (r ∷ rs)) - 1)
          (record { store = h'; calls = w.calls }) (f h' refl)
