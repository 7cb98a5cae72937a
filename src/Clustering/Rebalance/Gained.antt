-- ===== src/Clustering/Rebalance/Gained.antt =====
-- The books of RebalancedCluster against what the nodes are told
-- (pkg/controller/clustering/rebalance.go).
use mathlib.Core.Path.{subst}
use mathlib.Core.Option.{some-injective}
use redis_cluster_operator.Common.{
  ℕ, zero, suc, ◌+◌, ◌≤◌, ◌≡◌, ◌≢◌, refl, sym, ◌∙◌, ap, true, none, some, List, [], ◌∷◌, ◌==◌,
  Bool-cases, inl, inr, has, length, drop, length-drop, ℤ, pos, pos_part, neg_part, ◌-ℤ◌, ◌≤ℤ◌,
  ltb_ℤ, +ℤ_parts, -ℤ_parts, arith,
}
use redis_cluster_operator.Clustering.{
  Ref, Store, update_self, update_ne, with_balance, balance-with_balance,
}
use redis_cluster_operator.Admin.{Call, World, Replies, set_node_balance}
use redis_cluster_operator.Clustering.Migration.Dispatch.{Outcome}
use redis_cluster_operator.Clustering.Rebalance.{
  level_node, level_round, level, exchange, update_balances,
}
use redis_cluster_operator.Clustering.Rebalance.Moves.{OnSuccess, IsMoved}
use redis_cluster_operator.Clustering.Rebalance.Window.{Exchanged, update_balances-Exchanged}
use redis_cluster_operator.Clustering.Rebalance.Levels.{level_node-cases}
use redis_cluster_operator.Clustering.Rebalance.Told.{IsTold, IsTold-balance}
use redis_cluster_operator.Clustering.Rebalance.Tells.{Tells, exchange-Tells}
use redis_cluster_operator.Clustering.Rebalance.Gains.{OnWorld, gains, Grown, exchange-Grown}

module _ (b : Store) (share : ℕ) (new : List Ref) (before : List Call) where
  -- The slots that a master has in memory and those it was told to own since then make up the share,
  -- but for what its balance says that it lacks or has too much.
  pub record IsBooked (w : World) : Type 0 where
    pub told : IsTold b w
    pub books :
        (q : Ref)
        → has q new ≡ true
        → share + gains b q before + pos_part (w.store q).balance
          ≤ length (w.store q).slots + gains b q w.calls + neg_part (w.store q).balance

  update_balances-IsTold :
      (d s : Ref) (n : ℕ) (w : World) → IsTold b w → IsTold b (update_balances d s n w)
  unfolding update_balances
  update_balances-IsTold d s n w t = IsTold-balance b s _ _ (IsTold-balance b d _ w t)

  calls-update_balances :
      (d s : Ref) (n : ℕ) (w : World) → (update_balances d s n w).calls ≡ w.calls
  unfolding update_balances set_node_balance
  calls-update_balances d s n w = refl

  Exchanged-IsBooked :
      (d s : Ref) (n : ℕ) (w w' : World)
      → n ≤ length (w.store s).slots
      → IsBooked w
      → Exchanged d s n w.store w'.store
      → Grown b d n w.calls w'.calls
      → (q : Ref) → has q new ≡ true
      → share + gains b q before + pos_part (w'.store q).balance
        ≤ length (w'.store q).slots + gains b q w'.calls + neg_part (w'.store q).balance
  Exchanged-IsBooked d s n w w' l j x g q m = elim (Bool-cases (q == s)) [
    | inl e ↦
        let same : q ≡ s = ground arith in
        let old = j.books s (ap (λ i. has i new) (sym same) ∙ m) in
        let pe = ap pos_part x.source_balance in
        let ne = ap neg_part x.source_balance in
        let long = ap length x.source_slots ∙ length-drop n (w.store s).slots in
        rw same (omega (arith, -ℤ_parts, pe, ne, long, old, g.all s, l))
    | inr e ↦ elim (Bool-cases (q == d)) [
      | inl f ↦
          let same : q ≡ d = ground arith in
          let old = j.books d (ap (λ i. has i new) (sym same) ∙ m) in
          let pe = ap pos_part x.target_balance in
          let ne = ap neg_part x.target_balance in
          let long = ap length x.target_slots in
          rw same (omega (arith, +ℤ_parts, pe, ne, long, old, g.own))
      | inr f ↦
          let still : w'.store q ≡ w.store q = x.others q (ground arith) (ground arith) in
          let pe = ap (λ t. pos_part t.balance) still in
          let ne = ap (λ t. neg_part t.balance) still in
          let long = ap (λ t. length t.slots) still in
          omega (arith, pe, ne, long, j.books q m, g.all q)
    ]
  ]

  pub exchange-IsBooked :
      (replies : Replies) (d s : Ref) (n : ℕ) (w : World) (o : Outcome)
      → d ≢ s
      → n ≤ length (w.store s).slots
      → IsBooked w
      → exchange replies d s n w ≡ some o
      → OnSuccess (IsMoved s (drop n (w.store s).slots) w.store) o
      → OnWorld (λ w'. IsBooked (update_balances d s n w')) o
  exchange-IsBooked replies d s n w (w', some failed) ne l j e m = tt
  exchange-IsBooked replies d s n w (w', none) ne l j e m =
      let told = subst (Tells b) e (exchange-Tells b replies d s n w j.told) in
      let grown = exchange-Grown b replies d s n w (w', none) l j.told e in
      let grown' = subst (Grown b d n w.calls) (sym (calls-update_balances d s n w')) grown in
      record {
        told = update_balances-IsTold d s n w' told;
        books =
            Exchanged-IsBooked d s n w (update_balances d s n w') l j
              (update_balances-Exchanged d s n w.store w' ne m) grown';
      }

-- Levelling only lowers balances.
abbrev pub Lower : Store → Store → Type 0
Lower h h' = (q : Ref) → (h' q).balance ≤ℤ (h q).balance

level_node-Lower : (r : Ref) (h : Store) (t : ℤ) → Lower h (level_node r h t).0
level_node-Lower r h t q = elim (level_node-cases r h t) [
  | inl (e, _) ↦ rw e (omega arith)
  | inr (e, n, t_pos) ↦
      let lower = with_balance (h r) ((h r).balance -ℤ pos 1) in
      rw e (elim (Bool-cases (q == r)) [
        | inl f ↦
            let same : q ≡ r = ground arith in
            let now = ap (λ x. x.balance) (update_self h r lower) ∙ balance-with_balance (h r) _ in
            rw same (omega (arith, -ℤ_parts, ap pos_part now, ap neg_part now))
        | inr f ↦
            let still = ap (λ x. x.balance) (update_ne h r q lower (ground arith)) in
            omega (arith, ap pos_part still, ap neg_part still)
      ])
]

level_round-Lower : (rs : List Ref) (h : Store) (t : ℤ) → Lower h (level_round rs (h, t)).0
unfolding level_round
level_round-Lower [] h t q = omega arith
level_round-Lower (r ∷ rs) h t q =
    let next = level_node r h t in
    omega (arith, level_node-Lower r h t q, level_round-Lower rs next.0 next.1 q)

pub level-Lower :
    (fuel : ℕ) (rs : List Ref) (h : Store) (t : ℤ) (h' : Store)
    → level fuel rs (h, t) ≡ some h'
    → Lower h h'
unfolding level
level-Lower zero rs h t h' e q = elim (Bool-cases (ltb_ℤ (pos 0) t)) [
  | inl p ↦ absurd (cc (let f = e in rw p at (f)))
  | inr p ↦
      let same = ap (λ g. (g q).balance) (some-injective h h' (let f = e in rw p at (f))) in
      omega (arith, ap pos_part same, ap neg_part same)
]
level-Lower (suc fuel) rs h t h' e q = elim (Bool-cases (ltb_ℤ (pos 0) t)) [
  | inl p ↦
      let next = level_round rs (h, t) in
      omega (
        arith,
        level-Lower fuel rs next.0 next.1 h' (let f = e in rw p at (f)) q,
        level_round-Lower rs h t q,
      )
  | inr p ↦
      let same = ap (λ g. (g q).balance) (some-injective h h' (let f = e in rw p at (f))) in
      omega (arith, ap pos_part same, ap neg_part same)
]
