-- ===== src/Clustering/Rebalance/Shares.antt =====
-- RebalancedCluster as a whole (pkg/controller/clustering/rebalance.go).
use redis_cluster_operator.Common.{
  ℕ, zero, suc, ◌+◌, ◌-◌, ◌*◌, ◌≤◌, ◌<◌, ◌≡◌, refl, sym, ◌∙◌, ap, true, false, some, List, [], ◌∷◌,
  ◌==◌, inl, inr, Bool-cases, has, length, get_elem?, ℤ, pos, pos_part, neg_part, ◌-ℤ◌, ◌≤ℤ◌, ltb_ℤ,
  +ℤ_parts, -ℤ_parts, nonneg_part, arith,
}
use redis_cluster_operator.Node.{total_slots}
use redis_cluster_operator.Clustering.{
  Ref, Store, update, update_self, update_ne, with_balance, balance-with_balance,
  slots-with_balance,
}
use redis_cluster_operator.Clustering.Rebalance.{set_balances, total_balance, source_total}
use redis_cluster_operator.Clustering.Rebalance.Totals.{IsDistinct}
use redis_cluster_operator.Clustering.Rebalance.Drain.{IsOnCourse}
use redis_cluster_operator.Clustering.Rebalance.Levels.{IsNegative, Levels}

-- The balances at the start.
pub record Started (share : ℕ) (rs : List Ref) (h h' : Store) : Type 0 where
  pub slots : (q : Ref) → (h' q).slots ≡ (h q).slots
  pub others : (q : Ref) → has q rs ≡ false → h' q ≡ h q
  pub own : (q : Ref) → has q rs ≡ true → (h' q).balance ≡ pos (total_slots (h q)) -ℤ pos share
  pub total :
      pos_part (total_balance h' rs) + length rs * share
      ≡ neg_part (total_balance h' rs) + source_total h rs

source_total-cong :
    (rs : List Ref) (h h' : Store)
    → ((q : Ref) → (h' q).slots ≡ (h q).slots)
    → source_total h' rs ≡ source_total h rs
unfolding source_total total_slots
source_total-cong [] h h' e = refl
source_total-cong (r ∷ rs) h h' e = rw (e r, source_total-cong rs h h' e) refl

started_total :
    (share : ℕ) (r : Ref) (rs : List Ref) (h h1 h2 : Store)
    → pos_part (total_balance h2 rs) + length rs * share
      ≡ neg_part (total_balance h2 rs) + source_total h1 rs
    → source_total h1 rs ≡ source_total h rs
    → (h2 r).balance ≡ pos (total_slots (h r)) -ℤ pos share
    → pos_part (total_balance h2 (r ∷ rs)) + length (r ∷ rs) * share
      ≡ neg_part (total_balance h2 (r ∷ rs)) + source_total h (r ∷ rs)
unfolding total_balance source_total
started_total share r rs h h1 h2 t same head =
    let ph = ap pos_part head in
    let nh = ap neg_part head in omega (arith, +ℤ_parts, -ℤ_parts, t, same, ph, nh)

pub set_balances-Started :
    (share : ℕ) (rs : List Ref) (h : Store)
    → IsDistinct rs
    → Started share rs h (set_balances share rs h)
unfolding set_balances
set_balances-Started share [] h d = record {
  slots = λ q. refl;
  others = λ q m. refl;
  own = λ q m. ground arith;
  total = unfold total_balance in unfold source_total in omega arith;
}
set_balances-Started share (r ∷ rs) h d =
    let set = with_balance (h r) (pos (total_slots (h r)) -ℤ pos share) in
    let h1 = update h r set in
    let later = set_balances-Started share rs h1 d.1 in
    let h2 = set_balances share rs h1 in
    let now : h1 r ≡ set = update_self h r set in
    let slots1 : (q : Ref) → (h1 q).slots ≡ (h q).slots = λ q. elim (Bool-cases (q == r)) [
      | inl e ↦
          let here : q ≡ r = ground arith in
          ap (λ t. (h1 t).slots) here
          ∙ ap (λ n. n.slots) now
          ∙ slots-with_balance (h r) _
          ∙ ap (λ t. (h t).slots) (sym here)
      | inr e ↦ ap (λ n. n.slots) (update_ne h r q set (ground arith))
    ] in
    let head : (h2 r).balance ≡ pos (total_slots (h r)) -ℤ pos share =
      ap (λ n. n.balance) (later.others r d.0 ∙ now) ∙ balance-with_balance (h r) _ in
    record {
      slots = λ q. later.slots q ∙ slots1 q;
      others = λ q m. later.others q (ground arith) ∙ update_ne h r q set (ground arith);
      own = λ q m. elim (Bool-cases (q == r)) [
        | inl e ↦ let here : q ≡ r = ground arith in rw here head
        | inr e ↦
            later.own q (ground arith)
            ∙ (unfold total_slots in ap (λ s. pos (length s) -ℤ pos share) (slots1 q))
      ];
      total = started_total share r rs h h1 h2 later.total (source_total-cong rs h h1 slots1) head;
    }

pub get_elem?-bound : (rs : List Ref) (i : ℕ) (r : Ref) → get_elem? rs i ≡ some r → i < length rs
get_elem?-bound [] i r g = ground arith
get_elem?-bound (q ∷ rs) zero r g = omega arith
get_elem?-bound (q ∷ rs) (suc i) r g = omega (arith, get_elem?-bound rs i r g)

pub has-place : (rs : List Ref) (r : Ref) → has r rs ≡ true → (i : ℕ) × (get_elem? rs i ≡ some r)
has-place [] r m = absurd (ground arith)
has-place (q ∷ rs) r m = elim (Bool-cases (q == r)) [
  | inl e ↦ (0, ground arith)
  | inr e ↦ let rest = has-place rs r (ground arith) in (suc rest.0, rest.1)
]

module _ (share : ℕ) (new : List Ref) (before h0 h : Store) (t : ℤ)
    (started : Started share new before h0)
    (levels : Levels new h0 (total_balance h0 new) h t) where
  -- What levelling leaves of a master's balance.
  levelled :
      (r : Ref)
      → has r new ≡ true
      → ((pos 0 ≤ℤ (h r).balance) → share + pos_part (h r).balance ≡ length (before r).slots)
        × (IsNegative (h r).balance → length (before r).slots ≤ share)
  unfolding total_slots
  levelled r m =
      let own = started.own r m in
      let po = ap pos_part own in
      let no = ap neg_part own in
      elim (Bool-cases (ltb_ℤ (h0 r).balance (pos 0))) [
        | inl e ↦
            let n : IsNegative (h0 r).balance = ground arith in
            let b = levels.below r n in
            ((λ u. absurd (omega (arith, b, u))), (λ u. omega (arith, -ℤ_parts, po, no, n)))
        | inr e ↦
            let u : pos 0 ≤ℤ (h0 r).balance = ground arith in
            let same = levels.kept r u in
            let ps = ap pos_part same in
            let ns = ap neg_part same in
            let z = nonneg_part (h0 r).balance u in
            (
              (λ v. omega (arith, -ℤ_parts, po, no, ps, ns)),
              (λ v. absurd (omega (arith, v, ps, ns, u))),
            )
      ]

  pub at_share :
      (i p : ℕ) (r : Ref)
      → has r new ≡ true
      → (i < p → (h r).balance ≤ℤ pos 0)
      → (p ≤ i → pos 0 ≤ℤ (h r).balance)
      → IsOnCourse share p i (before r).slots (h r)
  at_share i p r m low high =
      let facts = levelled r m in
      let same : (h r).slots ≡ (before r).slots = levels.slots r ∙ started.slots r in
      let none_left : length (before r).slots - (share + pos_part (h r).balance) ≡ 0 =
        elim (Bool-cases (ltb_ℤ (h r).balance (pos 0))) [
          | inl e ↦ let f = facts.1 (ground arith) in omega (arith, f)
          | inr e ↦ let f = facts.0 (ground arith) in omega (arith, f)
        ] in
      record {
        receives = low;
        gives = high;
        room = λ u. let f = facts.0 (high u) in omega (arith, f);
        kept = same ∙ rw none_left refl;
      }
