-- ===== src/Clustering/Rebalance/Window.antt =====
-- What one round of the loop of RebalancedCluster writes (pkg/controller/clustering/rebalance.go).
use redis_cluster_operator.Common.{
  ℕ, ◌≡◌, ◌≢◌, sym, ◌∙◌, ap, true, List, has, drop, pos, pos_part, neg_part, ◌+ℤ◌, ◌-ℤ◌, +ℤ_parts,
  -ℤ_parts, arith,
}
use redis_cluster_operator.Clustering.{
  Ref, Store, update, update_self, update_ne, with_balance, balance-with_balance,
  slots-with_balance,
}
use redis_cluster_operator.Admin.{World, set_node_balance}
use redis_cluster_operator.Clustering.Rebalance.{total_balance, update_balances}
use redis_cluster_operator.Clustering.Rebalance.Totals.{
  IsZero, IsDistinct, total_balance-update, total_balance-cong,
}
use redis_cluster_operator.Clustering.Rebalance.Moves.{IsMoved}

pub record Exchanged (target source : Ref) (n : ℕ) (before after : Store) : Type 0 where
  pub target_balance : (after target).balance ≡ (before target).balance +ℤ pos n
  pub target_slots : (after target).slots ≡ (before target).slots
  pub source_balance : (after source).balance ≡ (before source).balance -ℤ pos n
  pub source_slots : (after source).slots ≡ drop n (before source).slots
  pub others : (q : Ref) → q ≢ target → q ≢ source → after q ≡ before q

pub update_balances-Exchanged :
    (target source : Ref) (n : ℕ) (h : Store) (w : World)
    → target ≢ source
    → IsMoved source (drop n (h source).slots) h w.store
    → Exchanged target source n h (update_balances target source n w).store
unfolding update_balances set_node_balance
update_balances-Exchanged target source n h w d m =
    let gain = with_balance (w.store target) ((w.store target).balance +ℤ pos n) in
    let h1 = update w.store target gain in
    let loss = with_balance (h1 source) ((h1 source).balance -ℤ pos n) in
    let at_target : update h1 source loss target ≡ gain =
      update_ne h1 source target loss d ∙ update_self w.store target gain in
    let at_source : update h1 source loss source ≡ loss = update_self h1 source loss in
    let kept : h1 source ≡ w.store source = update_ne w.store target source gain (λ e. d (sym e)) in
    record {
      target_balance =
          ap (λ t. t.balance) at_target
          ∙ balance-with_balance (w.store target) _
          ∙ ap (λ t. t +ℤ pos n) (m.balances target);
      target_slots =
          ap (λ t. t.slots) at_target
          ∙ slots-with_balance (w.store target) _
          ∙ ap (λ t. t.slots) (m.others target d);
      source_balance =
          ap (λ t. t.balance) at_source
          ∙ balance-with_balance (h1 source) _
          ∙ ap (λ t. t.balance -ℤ pos n) kept
          ∙ ap (λ t. t -ℤ pos n) (m.balances source);
      source_slots =
          ap (λ t. t.slots) at_source
          ∙ slots-with_balance (h1 source) _
          ∙ ap (λ t. t.slots) kept
          ∙ m.slots;
      others =
          λ q t s. update_ne h1 source q loss s ∙ update_ne w.store target q gain t ∙ m.others q s;
    }

-- What the target gains the source loses.
pub total_balance-update_balances :
    (rs : List Ref) (target source : Ref) (n : ℕ) (h : Store) (w : World)
    → IsDistinct rs
    → has target rs ≡ true
    → has source rs ≡ true
    → ((q : Ref) → (w.store q).balance ≡ (h q).balance)
    → IsZero (total_balance h rs)
    → IsZero (total_balance (update_balances target source n w).store rs)
unfolding update_balances set_node_balance
total_balance-update_balances rs target source n h w d t s e z =
    let gain = with_balance (w.store target) ((w.store target).balance +ℤ pos n) in
    let h1 = update w.store target gain in
    let loss = with_balance (h1 source) ((h1 source).balance -ℤ pos n) in
    let one = total_balance-update rs w.store target gain d t in
    let two = total_balance-update rs h1 source loss d s in
    let same = total_balance-cong rs h w.store (λ q m. e q) in
    let gain_balance = balance-with_balance (w.store target) ((w.store target).balance +ℤ pos n) in
    let loss_balance = balance-with_balance (h1 source) ((h1 source).balance -ℤ pos n) in
    let start : IsZero (total_balance w.store rs) = rw (same) z in
    omega (
      arith,
      +ℤ_parts,
      -ℤ_parts,
      one,
      two,
      start,
      ap pos_part gain_balance,
      ap neg_part gain_balance,
      ap pos_part loss_balance,
      ap neg_part loss_balance,
    )
