-- ===== src/Clustering/Rebalance/Examples.antt =====
-- The theorems about rebalancing (pkg/controller/clustering/rebalance.go) at small clusters, and a run.
use mathlib.Core.List.{Permᴰ}
use mathlib.Core.List.Permᴰ
use redis_cluster_operator.Common.{
  ℕ, ◌≡◌, refl, true, none, some, List, [], ◌∷◌, ◌==◌, if◌then◌else◌, inl, inr, Bool-cases, ltb_ℤ,
  ℤ, ◌≤ℤ◌, All, codes, Text, arith,
}
use redis_cluster_operator.Node.{Node, new_default_node, total_slots}
use redis_cluster_operator.Clustering.{Ref, Store}
use redis_cluster_operator.Admin.{World, Replies}
use redis_cluster_operator.Clustering.Migration.Dispatch.{Outcome}
use redis_cluster_operator.Clustering.Rebalance.{rebalanced_cluster, source_total}
use redis_cluster_operator.Clustering.Rebalance.Moves.{OnSuccess}
use redis_cluster_operator.Clustering.Rebalance.Orders.{BalanceOrder, IsAscending}
use redis_cluster_operator.Clustering.Rebalance.Result.{rebalanced_cluster_diverges}
use redis_cluster_operator.Clustering.Rebalance.Alloc.{alloc_slots}
use redis_cluster_operator.Clustering.Rebalance.Alloc.Deal.{Dealt, alloc_slots-Dealt}

-- An insertion sort by balance.
module _ (h : Store) where
  place_node : Ref → List Ref → List Ref
  place_node r [] = r ∷ []
  place_node r (q ∷ rs) =
      let rest = place_node r rs in
      if ltb_ℤ (h q).balance (h r).balance then q ∷ rest else r ∷ q ∷ rs

  arrange : List Ref → List Ref
  unfolding place_node
  arrange [] = []
  arrange (r ∷ rs) = place_node r (arrange rs)

  place_node-perm : (r : Ref) (rs : List Ref) → Permᴰ (place_node r rs) (r ∷ rs)
  unfolding place_node
  place_node-perm r [] = Permᴰ.refl (r ∷ [])
  place_node-perm r (q ∷ rs) = elim (Bool-cases (ltb_ℤ (h q).balance (h r).balance)) [
    | inl e ↦ rw e (Permᴰ.trans (Permᴰ.cons refl (place_node-perm r rs)) (Permᴰ.swap refl refl))
    | inr e ↦ rw e (Permᴰ.refl (r ∷ q ∷ rs))
  ]

  arrange-perm : (rs : List Ref) → Permᴰ (arrange rs) rs
  unfolding arrange
  arrange-perm [] = Permᴰ.nil
  arrange-perm (r ∷ rs) =
      Permᴰ.trans (place_node-perm r (arrange rs)) (Permᴰ.cons refl (arrange-perm rs))

  All-place :
      (b : ℤ) (r : Ref) (rs : List Ref)
      → b ≤ℤ (h r).balance
      → All (λ q. b ≤ℤ (h q).balance) rs
      → All (λ q. b ≤ℤ (h q).balance) (place_node r rs)
  unfolding place_node
  All-place b r [] l a = (l, tt)
  All-place b r (q ∷ rs) l a = elim (Bool-cases (ltb_ℤ (h q).balance (h r).balance)) [
    | inl e ↦ rw e (a.0, All-place b r rs l a.1)
    | inr e ↦ rw e (l, a)
  ]

  All-weaken :
      (b c : ℤ) (rs : List Ref)
      → b ≤ℤ c
      → All (λ q. c ≤ℤ (h q).balance) rs
      → All (λ q. b ≤ℤ (h q).balance) rs
  All-weaken b c [] l a = tt
  All-weaken b c (q ∷ rs) l a = (let x = a.0 in omega (arith, l, x), All-weaken b c rs l a.1)

  IsAscending-place : (r : Ref) (rs : List Ref) → IsAscending h rs → IsAscending h (place_node r rs)
  unfolding place_node
  IsAscending-place r [] a = (tt, tt)
  IsAscending-place r (q ∷ rs) a = elim (Bool-cases (ltb_ℤ (h q).balance (h r).balance)) [
    | inl e ↦ rw e (All-place (h q).balance r rs (ground arith) a.0, IsAscending-place r rs a.1)
    | inr e ↦
        let l : (h r).balance ≤ℤ (h q).balance = ground arith in
        rw e ((l, All-weaken (h r).balance (h q).balance rs l a.0), a)
  ]

  IsAscending-arrange : (rs : List Ref) → IsAscending h (arrange rs)
  unfolding arrange
  IsAscending-arrange [] = tt
  IsAscending-arrange (r ∷ rs) = IsAscending-place r (arrange rs) (IsAscending-arrange rs)

abbrev by_insertion : BalanceOrder
by_insertion = record {
  sorted = arrange;
  sorted_perm = λ h rs. ∣ arrange-perm h rs ∣₁;
  sorted_ascends = IsAscending-arrange;
}

abbrev node : Text → List ℕ → Node
node id slots = record new_default_node { id = id; ip = id; role = codes "master"; slots = slots }

-- Four slots at the first master, one at the second and none at the third.
abbrev uneven : World
uneven = record {
  store = λ r.
      if r == 0
      then node (codes "a") (0 ∷ 1 ∷ 2 ∷ 3 ∷ [])
      else if r == 1
      then node (codes "b") (4 ∷ [])
      else node (codes "c") [];
  calls = [];
}

abbrev willing : Replies
willing calls = true

-- Of three slots each of two masters is to have one, and they hold five.
rebalanced_cluster_diverges_example :
    rebalanced_cluster 100 willing arrange 3 (0 ∷ 1 ∷ []) uneven ≡ none
unfolding source_total total_slots
rebalanced_cluster_diverges_example =
    rebalanced_cluster_diverges willing by_insertion 3 100 (0 ∷ 1 ∷ []) uneven (refl, (refl, tt))
      (λ r m. ground arith) (omega arith)

alloc_slots-Dealt_example :
    (o : Outcome) × (alloc_slots willing 16384 (0 ∷ 1 ∷ 2 ∷ []) uneven ≡ some o)
    × OnSuccess (Dealt 0 16384 (0 ∷ 1 ∷ 2 ∷ []) uneven.store) o
alloc_slots-Dealt_example =
    alloc_slots-Dealt willing 16384 (0 ∷ 1 ∷ 2 ∷ []) uneven (omega arith) (omega arith)
      (omega arith) (refl, (refl, (refl, tt)))
