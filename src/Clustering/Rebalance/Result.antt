-- ===== src/Clustering/Rebalance/Result.antt =====
-- What RebalancedCluster achieves (pkg/controller/clustering/rebalance.go).
use mathlib.Core.List.Perm
use redis_cluster_operator.Common.{
  ℕ, ◌+◌, ◌-◌, ◌*◌, ◌/◌, ◌≤◌, ◌<◌, ◌≡◌, refl, ap, true, none, List, [], ◌∷◌, ◌⊎◌, has, length, drop,
  ℤ, pos, pos_part, neg_part, ◌≤ℤ◌, -ℤ_parts, arith,
}
use redis_cluster_operator.Node.{total_slots}
use redis_cluster_operator.Clustering.{Ref, Store}
use redis_cluster_operator.Admin.{World, Replies}
use redis_cluster_operator.Clustering.Rebalance.{
  set_balances, total_balance, source_total, drain_levelled, rebalanced_cluster,
}
use redis_cluster_operator.Clustering.Rebalance.Totals.{IsZero, IsDistinct}
use redis_cluster_operator.Clustering.Rebalance.Gains.{gains}
use redis_cluster_operator.Clustering.Rebalance.Levels.{Levels}
use redis_cluster_operator.Clustering.Rebalance.Level.{level_diverges}
use redis_cluster_operator.Clustering.Rebalance.Orders.{BalanceOrder}
use redis_cluster_operator.Clustering.Rebalance.Shares.{Started, set_balances-Started}

-- The balance of each master is zero, and one that had more than its share has only the last slots of
-- its own.
abbrev pub IsShared : ℕ → List Ref → Store → Store → Type 0
IsShared share new before h =
    (r : Ref)
    → has r new ≡ true
    → IsZero (h r).balance × ((h r).slots ≡ drop (length (before r).slots - share) (before r).slots)

module _ (order : BalanceOrder) (share : ℕ) (new : List Ref) (before h0 h : Store) (t : ℤ)
    (distinct : IsDistinct new) (started : Started share new before h0)
    (levels : Levels new h0 (total_balance h0 new) h t) (even : IsZero t) where
  abbrev by_balance : List Ref
  by_balance = order.sorted h new

-- Why the levelling loop ends: there is nothing to level, or some master misses slots.
abbrev pub CanLevel : ℕ → List Ref → Store → Type 0
CanLevel share new h =
    (source_total h new ≡ length new * share)
    ⊎ ((r : Ref) × (has r new ≡ true) × (total_slots (h r) < share))

-- Each master has its share: the slots that it still has in memory, and those it was told to own.
abbrev pub HasShare : ℕ → List Ref → World → World → Type 0
HasShare share new w w' =
    (r : Ref)
    → has r new ≡ true
    → share + gains w.store r w.calls ≤ length (w'.store r).slots + gains w.store r w'.calls

no_masters : (h : Store) → source_total h [] ≡ 0
unfolding source_total
no_masters h = refl

-- When the masters hold more than equal shares in all, and none is below its share, the levelling
-- loop of RebalancedCluster does not end, whatever the number of rounds.
pub rebalanced_cluster_diverges :
    (replies : Replies) (order : BalanceOrder) (hash_slots fuel : ℕ) (new : List Ref) (w : World)
    → IsDistinct new
    → ((r : Ref) → has r new ≡ true → hash_slots / length new ≤ total_slots (w.store r))
    → length new * (hash_slots / length new) < source_total w.store new
    → rebalanced_cluster fuel replies order.sorted hash_slots new w ≡ none
unfolding rebalanced_cluster drain_levelled
rebalanced_cluster_diverges replies order hash_slots fuel [] w d up l =
    absurd (omega (arith, no_masters w.store))
rebalanced_cluster_diverges replies order hash_slots fuel (r ∷ rs) w d up l =
    let new = r ∷ rs in
    let share = hash_slots / length new in
    let s = set_balances-Started share new w.store d in
    let h0 = set_balances share new w.store in
    let t = s.total in
    let even : (q : Ref) → has q new ≡ true → pos 0 ≤ℤ (h0 q).balance = λ q m.
      let own = s.own q m in
      let u = up q m in omega (arith, -ℤ_parts, ap pos_part own, ap neg_part own, u) in
    rw (level_diverges fuel new h0 (total_balance h0 new) even (omega (arith, t))) refl
