-- ===== src/Clustering/Rebalance/Alloc/Deal.antt =====
-- What AllocSlots deals out (pkg/controller/clustering/rebalance.go).
use redis_cluster_operator.Common.{
  ℕ, zero, suc, ◌+◌, ◌-◌, ◌≤◌, ◌<◌, ◌≡◌, refl, sym, ◌∙◌, ap, false, none, some, List, [], ◌∷◌, ◌++◌,
  u64_mod, length, has, inl, inr, Bool-cases, arith,
}
use redis_cluster_operator.Node.{ip_port}
use redis_cluster_operator.Slot.Interval.{interval, build_slot_slice-interval}
use redis_cluster_operator.Clustering.{
  Ref, Store, update, update_self, update_ne, with_slots, slots-with_slots,
}
use redis_cluster_operator.Admin.{add_slots_call, World, Replies, issue, set_node_slots}
use redis_cluster_operator.Clustering.Migration.Dispatch.{Outcome}
use redis_cluster_operator.Clustering.Rebalance.Totals.{IsDistinct}
use redis_cluster_operator.Clustering.Rebalance.Moves.{OnSuccess, OnSuccess-map}
use redis_cluster_operator.Clustering.Rebalance.Alloc.{
  last_slot, alloc_node, alloc_from, alloc_slots,
}
use redis_cluster_operator.Clustering.Rebalance.Alloc.Bounds.{Ready, Ready-step}

append-interval : (a n k : ℕ) → interval a n ++ interval (a + n) k ≡ interval a (n + k)
unfolding interval
append-interval a zero k =
    let e : a + 0 ≡ a = omega arith in let f : 0 + k ≡ k = omega arith in rw (e, f) refl
append-interval a (suc n) k =
    let e : a + suc n ≡ a + 1 + n = omega arith in
    let f : suc n + k ≡ suc (n + k) = omega arith in
    rw (e, f) (ap (λ t. a ∷ t) (append-interval (a + 1) n k))

-- The slots of the masters, one after the other.
abbrev pub slots_in_row : Store → List Ref → List ℕ
slots_in_row h [] = []
slots_in_row h (r ∷ rs) = (h r).slots ++ slots_in_row h rs

-- The masters have all slots from `first` on, in a row, and no other node has changed.
pub record Dealt (first slots : ℕ) (rs : List Ref) (h h' : Store) : Type 0 where
  pub row : slots_in_row h' rs ≡ interval first (slots - first)
  pub others : (q : Ref) → has q rs ≡ false → h' q ≡ h q

Dealt-nil : (first slots : ℕ) (h : Store) → first ≡ slots → Dealt first slots [] h h
unfolding interval
Dealt-nil first slots h e =
    let z : slots - first ≡ 0 = omega arith in
    record { row = sym (ap (interval first) z); others = λ q m. refl }

Dealt-cons :
    (first last slots : ℕ) (r : Ref) (rs : List Ref) (h h' : Store)
    → first ≤ last
    → last < slots
    → has r rs ≡ false
    → (let own = interval first (last + 1 - first) in
        Dealt (last + 1) slots rs (update h r (with_slots (h r) own)) h'
        → Dealt first slots (r ∷ rs) h h')
Dealt-cons first last slots r rs h h' l b d x =
    let own = interval first (last + 1 - first) in
    let set = with_slots (h r) own in
    let mine : (h' r).slots ≡ own =
      ap (λ n. n.slots) (x.others r d ∙ update_self h r set) ∙ slots-with_slots (h r) own in
    let e : last + 1 ≡ first + (last + 1 - first) = omega arith in
    let f : last + 1 - first + (slots - (last + 1)) ≡ slots - first = omega arith in
    record {
      row =
          (λ i. mine i ++ x.row i)
          ∙ (λ i. own ++ interval (e i) (slots - (last + 1)))
          ∙ append-interval first (last + 1 - first) (slots - (last + 1))
          ∙ ap (interval first) f;
      others = λ q m. x.others q (ground arith) ∙ update_ne h r q set (ground arith);
    }

module _ (replies : Replies) (slots masters : ℕ) (some_master : 0 < masters)
    (fits : masters ≤ slots) (small : slots < u64_mod) where
  alloc_from_lem :
      (index first : ℕ) (rs : List Ref) (w : World)
      → IsDistinct rs
      → Ready slots masters some_master fits index first rs
      → (o : Outcome) × (alloc_from replies slots masters index first rs w ≡ some o)
        × OnSuccess (Dealt first slots rs w.store) o
  unfolding alloc_from alloc_node set_node_slots
  alloc_from_lem index first [] w d r = ((w, none), refl, Dealt-nil first slots w.store r)
  alloc_from_lem index first (x ∷ rs) w d r =
      let last = last_slot slots masters index first in
      let step = Ready-step slots masters some_master fits index first x rs r in
      let own = interval first (last + 1 - first) in
      let w' : World = record {
        store = update w.store x (with_slots (w.store x) own);
        calls = w.calls;
      } in
      let add = add_slots_call (ip_port (w'.store x)) own in
      let slice = build_slot_slice-interval first last (omega (arith, step.1)) in
      rw slice (elim (Bool-cases (replies (add ∷ w.calls))) [
        | inl e ↦
            let rest = alloc_from_lem (suc index) (last + 1) rs (issue add w') d.1 step.2 in
            rw e (
              rest.0,
              rest.1,
              OnSuccess-map (Dealt (last + 1) slots rs (issue add w').store)
                  (Dealt first slots (x ∷ rs) w.store) rest.0
                  (λ h'. Dealt-cons first last slots x rs w.store h' step.0 step.1 d.0) rest.2,
            )
        | inr e ↦ rw e ((issue add w', some add), refl, tt)
      ])

-- With at least one and at most as many masters as slots, AllocSlots returns, whatever the replies,
-- and unless a call fails, the masters have the slots from 0 on in a row, each exactly once, and
-- no other node has changed.
pub alloc_slots-Dealt :
    (replies : Replies) (slots : ℕ) (new : List Ref) (w : World)
    → 0 < length new
    → length new ≤ slots
    → slots < u64_mod
    → IsDistinct new
    → (o : Outcome) × (alloc_slots replies slots new w ≡ some o)
      × OnSuccess (Dealt 0 slots new w.store) o
unfolding alloc_slots
alloc_slots-Dealt replies slots [] w p f b d = absurd (omega arith)
alloc_slots-Dealt replies slots (x ∷ []) w p f b d =
    alloc_from_lem replies slots 1 p f b 0 0 (x ∷ []) w d (omega arith, omega arith)
alloc_slots-Dealt replies slots (x ∷ y ∷ rest) w p f b d =
    alloc_from_lem replies slots (length (x ∷ y ∷ rest)) p f b 0 0 (x ∷ y ∷ rest) w d
      (omega arith, omega arith)
