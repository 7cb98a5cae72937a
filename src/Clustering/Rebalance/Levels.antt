-- ===== src/Clustering/Rebalance/Levels.antt =====
-- The first loops of RebalancedCluster: the balances, and their levelling
-- (pkg/controller/clustering/rebalance.go).
use redis_cluster_operator.Common.{
  ◌+◌, ◌<◌, ◌≡◌, refl, sym, ◌∙◌, ap, false, ◌&&◌, List, [], ◌∷◌, ◌==◌, inl, inr, ◌⊎◌, Bool-cases,
  has, ℤ, pos, pos_part, neg_part, ◌-ℤ◌, ◌≤ℤ◌, ltb_ℤ, +ℤ_parts, -ℤ_parts, arith,
}
use redis_cluster_operator.Clustering.{
  Ref, Store, update, update_self, update_ne, with_balance, balance-with_balance,
  slots-with_balance,
}
use redis_cluster_operator.Clustering.Rebalance.{total_balance, level_node}

-- Below the share.
abbrev pub IsNegative : ℤ → Type 0
IsNegative a = pos_part a < neg_part a

abbrev pub IsPositive : ℤ → Type 0
IsPositive a = neg_part a < pos_part a

-- What levelling changes: only negative balances, which get lower, and the total with them.
pub record Levels (rs : List Ref) (h : Store) (t : ℤ) (h' : Store) (t' : ℤ) : Type 0 where
  pub others : (q : Ref) → has q rs ≡ false → h' q ≡ h q
  pub slots : (q : Ref) → (h' q).slots ≡ (h q).slots
  pub kept : (q : Ref) → pos 0 ≤ℤ (h q).balance → (h' q).balance ≡ (h q).balance
  pub below : (q : Ref) → IsNegative (h q).balance → IsNegative (h' q).balance
  pub falls : pos 0 ≤ℤ t → (pos 0 ≤ℤ t') × (t' ≤ℤ t)
  pub sum :
      pos_part (total_balance h' rs) + neg_part (total_balance h rs) + pos_part t + neg_part t'
      ≡ neg_part (total_balance h' rs) + pos_part (total_balance h rs) + neg_part t + pos_part t'

-- The node in the two cases of the loop's body.
pub level_node-cases :
    (r : Ref) (h : Store) (t : ℤ)
    → ((level_node r h t ≡ (h, t)) × (IsNegative (h r).balance → t ≤ℤ pos 0))
      ⊎ ((level_node r h t ≡ (update h r (with_balance (h r) ((h r).balance -ℤ pos 1)), t -ℤ pos 1))
          × IsNegative (h r).balance
          × IsPositive t)
unfolding level_node
level_node-cases r h t = elim (Bool-cases (ltb_ℤ (h r).balance (pos 0) && ltb_ℤ (pos 0) t)) [
  | inl e ↦ rw e (inr (refl, ground arith, ground arith))
  | inr e ↦ rw e (inl (refl, λ n. ground arith))
]

pub level_node-Levels :
    (r : Ref) (h : Store) (t : ℤ)
    → (let after = level_node r h t in Levels (r ∷ []) h t after.0 after.1)
level_node-Levels r h t = elim (level_node-cases r h t) [
  | inl (e, _) ↦ rw e record {
    others = λ q d. refl;
    slots = λ q. refl;
    kept = λ q u. refl;
    below = λ q u. u;
    falls = λ u. (u, omega arith);
    sum = omega arith;
  }
  | inr (e, n, t_pos) ↦
      let lower = with_balance (h r) ((h r).balance -ℤ pos 1) in
      let h' = update h r lower in
      let now : h' r ≡ lower = update_self h r lower in
      let balance : (h' r).balance ≡ (h r).balance -ℤ pos 1 =
        ap (λ m. m.balance) now ∙ balance-with_balance (h r) _ in
      let pb = ap pos_part balance in
      let nb = ap neg_part balance in
      let other : (q : Ref) → (q == r) ≡ false → h' q ≡ h q =
        λ q d. update_ne h r q lower (ground arith) in
      rw e record {
        others = λ q d. update_ne h r q lower (ground arith);
        slots = λ q. elim (Bool-cases (q == r)) [
          | inl same ↦
              let here : q ≡ r = ground arith in
              ap (λ m. (h' m).slots) here
              ∙ ap (λ m. m.slots) now
              ∙ slots-with_balance (h r) _
              ∙ ap (λ m. (h m).slots) (sym here)
          | inr d ↦ ap (λ m. m.slots) (other q d)
        ];
        kept = λ q u. elim (Bool-cases (q == r)) [
          | inl same ↦
              let here : q ≡ r = ground arith in
              let z : pos 0 ≤ℤ (h r).balance = rw (sym here) u in absurd (omega (arith, z, n))
          | inr d ↦ ap (λ m. m.balance) (other q d)
        ];
        below = λ q u. elim (Bool-cases (q == r)) [
          | inl same ↦
              let here : q ≡ r = ground arith in rw here (omega (arith, -ℤ_parts, pb, nb, n))
          | inr d ↦ rw (ap (λ m. m.balance) (other q d)) u
        ];
        falls = λ u. (omega (arith, -ℤ_parts, t_pos), omega (arith, -ℤ_parts));
        sum = unfold total_balance in omega (arith, +ℤ_parts, -ℤ_parts, pb, nb);
      }
]
