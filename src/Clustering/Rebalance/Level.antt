-- ===== src/Clustering/Rebalance/Level.antt =====
-- `for totalBalance > 0` of RebalancedCluster (pkg/controller/clustering/rebalance.go): when it ends, and with what.
use redis_cluster_operator.Common.{
  ℕ, zero, suc, ◌≤◌, ◌≡◌, refl, ◌∙◌, ap, true, false, none, some, List, [], ◌∷◌, ◌==◌, inl, inr,
  Bool-cases, has, ℤ, pos, pos_part, neg_part, ◌-ℤ◌, ◌≤ℤ◌, ltb_ℤ, +ℤ_parts, -ℤ_parts, nonneg_part,
  arith,
}
use redis_cluster_operator.Clustering.{Ref, Store, update, with_balance}
use redis_cluster_operator.Clustering.Rebalance.{total_balance, level_node, level_round, level}
use redis_cluster_operator.Clustering.Rebalance.Totals.{IsZero, IsDistinct, total_balance-cong}
use redis_cluster_operator.Clustering.Rebalance.Levels.{
  IsNegative, IsPositive, Levels, level_node-cases, level_node-Levels,
}

Levels-cons :
    {r : Ref} {rs : List Ref} {h h' h'' : Store} {t t' t'' : ℤ}
    → has r rs ≡ false
    → Levels (r ∷ []) h t h' t'
    → Levels rs h' t' h'' t''
    → Levels (r ∷ rs) h t h'' t''
Levels-cons {r} {rs} {h} {h'} {h''} {t} {t'} {t''} d a b = record {
  others = λ q m. b.others q (ground arith) ∙ a.others q (ground arith);
  slots = λ q. b.slots q ∙ a.slots q;
  kept = λ q u. let e = a.kept q u in b.kept q (rw e u) ∙ e;
  below = λ q u. b.below q (a.below q u);
  falls = λ u. let x = a.falls u in let y = b.falls x.0 in (y.0, omega (arith, x.1, y.1));
  sum =
      let own = ap (λ n. n.balance) (b.others r d) in
      let same =
        total_balance-cong rs h h' (λ q m. ap (λ n. n.balance) (a.others q (ground arith))) in
      let po = ap pos_part own in
      let no = ap neg_part own in
      let ps = ap pos_part same in
      let ns = ap neg_part same in
      let x = a.sum in
      let y = b.sum in unfold total_balance in omega (arith, +ℤ_parts, x, y, po, no, ps, ns);
}

pub Levels-refl : (rs : List Ref) (h : Store) (t : ℤ) → Levels rs h t h t
Levels-refl rs h t = record {
  others = λ q d. refl;
  slots = λ q. refl;
  kept = λ q u. refl;
  below = λ q u. u;
  falls = λ u. (u, omega arith);
  sum = omega arith;
}

Levels-trans :
    {rs : List Ref} {h h' h'' : Store} {t t' t'' : ℤ}
    → Levels rs h t h' t'
    → Levels rs h' t' h'' t''
    → Levels rs h t h'' t''
Levels-trans a b = record {
  others = λ q m. b.others q m ∙ a.others q m;
  slots = λ q. b.slots q ∙ a.slots q;
  kept = λ q u. let e = a.kept q u in b.kept q (rw e u) ∙ e;
  below = λ q u. b.below q (a.below q u);
  falls = λ u. let x = a.falls u in let y = b.falls x.0 in (y.0, omega (arith, x.1, y.1));
  sum = let x = a.sum in let y = b.sum in omega (arith, x, y);
}

pub level_round-Levels :
    (rs : List Ref) (h : Store) (t : ℤ)
    → IsDistinct rs
    → (let after = level_round rs (h, t) in Levels rs h t after.0 after.1)
unfolding level_round
level_round-Levels [] h t d = Levels-refl [] h t
level_round-Levels (r ∷ rs) h t d =
    let after = level_node r h t in
    Levels-cons d.0 (level_node-Levels r h t) (level_round-Levels rs after.0 after.1 d.1)

-- A round takes at least one from the total while some master is below its share.
pub level_round-falls :
    (rs : List Ref) (h : Store) (t : ℤ) (r : Ref)
    → IsDistinct rs
    → has r rs ≡ true
    → IsNegative (h r).balance
    → IsPositive t
    → IsNegative ((level_round rs (h, t)).1 -ℤ t)
unfolding level_round
level_round-falls [] h t r d m n p = absurd (ground arith)
level_round-falls (q ∷ rs) h t r d m n p = elim (level_node-cases q h t) [
  | inl (e, stays) ↦
      let out : (q == r) ≡ false = elim (Bool-cases (q == r)) [
        | inl same ↦
            let here : q ≡ r = ground arith in
            absurd (let z = stays (rw here n) in omega (arith, z, p))
        | inr other ↦ other
      ] in
      rw (e, level_round) (level_round-falls rs h t r d.1 (ground arith) n p)
  | inr (e, _, _) ↦
      let h' = update h q (with_balance (h q) ((h q).balance -ℤ pos 1)) in
      let t' = t -ℤ pos 1 in
      let rest = (level_round-Levels rs h' t' d.1).falls (omega (arith, -ℤ_parts, p)) in
      rw (e, level_round) (omega (arith, -ℤ_parts, rest.0, rest.1))
]

-- The loop ends within as many rounds as the total, if some master is below its share.
pub level_ends :
    (fuel : ℕ) (rs : List Ref) (h : Store) (t : ℤ) (r : Ref)
    → IsDistinct rs
    → has r rs ≡ true
    → IsNegative (h r).balance
    → pos 0 ≤ℤ t
    → pos_part t ≤ fuel
    → (h' : Store) × (level fuel rs (h, t) ≡ some h') × ((t' : ℤ) × IsZero t' × Levels rs h t h' t')
unfolding level
level_ends zero rs h t r d m n p f =
    let over : ltb_ℤ (pos 0) t ≡ false = ground arith in
    rw over (h, refl, (t, ground arith, Levels-refl rs h t))
level_ends (suc fuel) rs h t r d m n p f = elim (Bool-cases (ltb_ℤ (pos 0) t)) [
  | inl e ↦
      let h' = (level_round rs (h, t)).0 in
      let t' = (level_round rs (h, t)).1 in
      let first = level_round-Levels rs h t d in
      let lower = level_round-falls rs h t r d m n (ground arith) in
      let up = first.falls p in
      let up' = nonneg_part t' up.0 in
      let more =
        level_ends fuel rs h' t' r d m (first.below r n) up.0 (omega (arith, -ℤ_parts, lower)) in
      let rest = more.2 in rw e (more.0, more.1, (rest.0, rest.1, Levels-trans first rest.2))
  | inr e ↦ rw e (h, refl, (t, ground arith, Levels-refl rs h t))
]

pub level_done :
    (fuel : ℕ) (rs : List Ref) (h : Store) (t : ℤ) → t ≤ℤ pos 0 → level fuel rs (h, t) ≡ some h
unfolding level
level_done zero rs h t l = let e : ltb_ℤ (pos 0) t ≡ false = ground arith in rw e refl
level_done (suc fuel) rs h t l = let e : ltb_ℤ (pos 0) t ≡ false = ground arith in rw e refl

-- With no master below its share a round changes nothing.
level_round-idle :
    (rs : List Ref) (h : Store) (t : ℤ)
    → ((r : Ref) → has r rs ≡ true → pos 0 ≤ℤ (h r).balance)
    → level_round rs (h, t) ≡ (h, t)
unfolding level_round
level_round-idle [] h t up = refl
level_round-idle (r ∷ rs) h t up = elim (level_node-cases r h t) [
  | inl (e, _) ↦ rw (e, level_round) (level_round-idle rs h t (λ q m. up q (ground arith)))
  | inr (_, n, _) ↦ let u = up r (ground arith) in absurd (omega (arith, n, u))
]

pub level_diverges :
    (fuel : ℕ) (rs : List Ref) (h : Store) (t : ℤ)
    → ((r : Ref) → has r rs ≡ true → pos 0 ≤ℤ (h r).balance)
    → IsPositive t
    → level fuel rs (h, t) ≡ none
unfolding level
level_diverges zero rs h t up p = let e : ltb_ℤ (pos 0) t ≡ true = ground arith in rw e refl
level_diverges (suc fuel) rs h t up p =
    let e : ltb_ℤ (pos 0) t ≡ true = ground arith in
    rw (e, level_round-idle rs h t up) (level_diverges fuel rs h t up p)
