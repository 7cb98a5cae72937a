-- ===== src/Clustering/Rebalance/Moves.antt =====
-- computeReshardTable and moveSlot (pkg/controller/clustering/rebalance.go).
use mathlib.Core.Path.{subst}
use native.Mathlib.Nat.{le-div_iff_mul-le}
use redis_cluster_operator.Common.{
  ℕ, zero, suc, ◌+◌, ◌-◌, ◌*◌, ◌≤◌, ◌<◌, ◌≡◌, ◌≢◌, refl, sym, ◌∙◌, ap, true, not, none, some, List,
  [], ◌∷◌, ◌++◌, ◌==◌, inl, inr, Bool-cases, length, take, drop, take-append-drop, append-nil, map,
  arith,
}
use redis_cluster_operator.Node.{ip_port, total_slots}
use redis_cluster_operator.Slot.{remove_slot}
use redis_cluster_operator.Clustering.{
  Ref, Store, update, update_self, update_ne, with_slots, slots-with_slots, balance-with_slots,
}
use redis_cluster_operator.Admin.{
  act_importing, act_migrating, set_slot_call, migrate_keys_in_slot_call, World, Replies,
  set_node_slots,
}
use redis_cluster_operator.Clustering.Migration.Dispatch.{Outcome, continue_with}
use redis_cluster_operator.Clustering.Rebalance.{
  MovedNode, share, add_moved, take_keys, source_total, take_more, reshard_from,
  compute_reshard_table, settle_slot, move_slot, move_table, moved_by, exchange,
}

-- What holds of the nodes when no call has failed.
abbrev pub OnSuccess : (Store → Type 0) → Outcome → Type 0
OnSuccess P (w, none) = P w.store
OnSuccess P (w, some failed) = Unit

pub entry : Ref → ℕ → MovedNode
entry source slot = record { source = source; slot = slot }

share_covers : (n tot : ℕ) → n ≤ share true n (suc tot) (suc tot)
unfolding share
share_covers n tot =
    (le-div_iff_mul-le {k = suc tot} {x = n} {y = n * suc tot + tot} (omega arith)).1 (omega arith)

take_keys_lem :
    (node : Ref) (n room : ℕ) (keys : List ℕ)
    → room ≤ n
    → room ≤ length keys
    → take_keys node n room keys ≡ some (map (entry node) (take room keys))
unfolding take_keys entry
take_keys_lem node zero zero keys h l = refl
take_keys_lem node zero (suc room) keys h l = absurd (omega arith)
take_keys_lem node (suc n) zero keys h l = refl
take_keys_lem node (suc n) (suc room) [] h l = absurd (omega arith)
take_keys_lem node (suc n) (suc room) (key ∷ keys) h l =
    rw (take_keys_lem node n room keys (omega arith) (omega arith), add_moved) refl

source_total_one :
    (h : Store) (source : Ref)
    → 0 < total_slots (h source)
    → source_total h (source ∷ []) ≡ suc (total_slots (h source) - 1)
unfolding source_total
source_total_one h source p = omega arith

reshard_one :
    (h : Store) (source : Ref) (n m : ℕ)
    → total_slots (h source) ≡ suc m
    → source_total h (source ∷ []) ≡ suc m
    → n ≤ length (h source).slots
    → compute_reshard_table h (source ∷ []) n ≡ some (map (entry source) (take n (h source).slots))
unfolding compute_reshard_table reshard_from take_more add_moved
reshard_one h source n m own tot l =
    let taken =
      take_keys_lem source (share true n (suc m) (suc m)) n (h source).slots (share_covers n m) l in
    rw (tot, own, taken) (ap some (append-nil _))

-- With one source the table holds the first slots of the source, as many as asked for.
pub compute_reshard_table_lem :
    (h : Store) (source : Ref) (n : ℕ)
    → 0 < n
    → n ≤ total_slots (h source)
    → compute_reshard_table h (source ∷ []) n ≡ some (map (entry source) (take n (h source).slots))
compute_reshard_table_lem h source n p l =
    reshard_one h source n (total_slots (h source) - 1) (omega arith)
      (source_total_one h source (omega arith)) (unfold total_slots in l)

-- A move changes the nodes only when it succeeds, and then takes the slot from the source.
abbrev pub SlotMoved : Ref → ℕ → Store → Outcome → Type 0
SlotMoved source slot before (w, none) =
    w.store
    ≡ update before source (with_slots (before source) (remove_slot (before source).slots slot))
SlotMoved source slot before (w, some failed) = w.store ≡ before

pub move_slot-SlotMoved :
    (replies : Replies) (source : Ref) (slot : ℕ) (target : Ref) (w : World)
    → SlotMoved source slot w.store (move_slot replies source slot target w)
unfolding move_slot settle_slot set_node_slots
move_slot-SlotMoved replies source slot target w =
    let from = ip_port (w.store source) in
    let take = set_slot_call (ip_port (w.store target)) act_importing slot (w.store target).id in
    let give = set_slot_call from act_migrating slot (w.store source).id in
    let move = migrate_keys_in_slot_call from target slot in
    elim (Bool-cases (not (replies (take ∷ w.calls)))) [
      | inl e ↦ rw e refl
      | inr e ↦ elim (Bool-cases (not (replies (give ∷ take ∷ w.calls)))) [
        | inl f ↦ rw (e, f) refl
        | inr f ↦ elim (Bool-cases (not (replies (move ∷ give ∷ take ∷ w.calls)))) [
          | inl g ↦ rw (e, f, g) refl
          | inr g ↦ rw (e, f, g) refl
        ]
      ]
    ]

-- The first n slots have left the source, and nothing else has changed but the calls.
pub record IsMoved (source : Ref) (rest : List ℕ) (before after : Store) : Type 0 where
  pub slots : (after source).slots ≡ rest
  pub others : (q : Ref) → q ≢ source → after q ≡ before q
  pub balances : (q : Ref) → (after q).balance ≡ (before q).balance

update-IsMoved :
    (source : Ref) (slot : ℕ) (rest : List ℕ) (h : Store)
    → (h source).slots ≡ slot ∷ rest
    → IsMoved source rest h
        (update h source (with_slots (h source) (remove_slot (h source).slots slot)))
update-IsMoved source slot rest h e =
    let n = with_slots (h source) (remove_slot (h source).slots slot) in
    let head : remove_slot (slot ∷ rest) slot ≡ rest = unfold remove_slot in ground arith in
    let now : update h source n source ≡ n = update_self h source n in
    record {
      slots =
          ap (λ t. t.slots) now
          ∙ slots-with_slots (h source) _
          ∙ ap (λ t. remove_slot t slot) e
          ∙ head;
      others = λ q ne. update_ne h source q n ne;
      balances = λ q. elim (Bool-cases (q == source)) [
        | inl same ↦
            let here : q ≡ source = ground arith in
            ap (λ t. (update h source n t).balance) here
            ∙ ap (λ t. t.balance) now
            ∙ balance-with_slots (h source) (remove_slot (h source).slots slot)
            ∙ ap (λ t. (h t).balance) (sym here)
        | inr other ↦ ap (λ t. t.balance) (update_ne h source q n (ground arith))
      ];
    }

IsMoved-trans :
    {source : Ref} {mid rest : List ℕ} {h h' h'' : Store}
    → IsMoved source mid h h'
    → IsMoved source rest h' h''
    → IsMoved source rest h h''
IsMoved-trans a b = record {
  slots = b.slots;
  others = λ q ne. b.others q ne ∙ a.others q ne;
  balances = λ q. b.balances q ∙ a.balances q;
}

pub OnSuccess-map :
    (P Q : Store → Type 0) (o : Outcome) → ((h : Store) → P h → Q h) → OnSuccess P o → OnSuccess Q o
OnSuccess-map P Q (w, none) f p = f w.store p
OnSuccess-map P Q (w, some failed) f p = tt

OnSuccess-continue :
    (P Q : Store → Type 0) (k : World → Outcome) (o : Outcome)
    → OnSuccess P o
    → ((w : World) → P w.store → OnSuccess Q (k w))
    → OnSuccess Q (continue_with k o)
unfolding continue_with
OnSuccess-continue P Q k (w, none) p f = f w p
OnSuccess-continue P Q k (w, some failed) p f = tt

SlotMoved-IsMoved :
    (source : Ref) (slot : ℕ) (rest : List ℕ) (h : Store) (o : Outcome)
    → (h source).slots ≡ slot ∷ rest
    → SlotMoved source slot h o
    → OnSuccess (IsMoved source rest h) o
SlotMoved-IsMoved source slot rest h (w, none) e m =
    subst (λ t. IsMoved source rest h t) (sym m) (update-IsMoved source slot rest h e)
SlotMoved-IsMoved source slot rest h (w, some failed) e m = tt

move_table-IsMoved :
    (replies : Replies) (source target : Ref) (slots rest : List ℕ) (w : World)
    → (w.store source).slots ≡ slots ++ rest
    → OnSuccess
        (IsMoved source rest w.store)
        (move_table replies target (map (entry source) slots) w)
unfolding move_table entry
move_table-IsMoved replies source target [] rest w e = record {
  slots = e;
  others = λ q ne. refl;
  balances = λ q. refl;
}
move_table-IsMoved replies source target (slot ∷ slots) rest w e =
    OnSuccess-continue (IsMoved source (slots ++ rest) w.store) (IsMoved source rest w.store)
      (move_table replies target (map (entry source) slots))
      (move_slot replies source slot target w)
      (SlotMoved-IsMoved source slot (slots ++ rest) w.store
        (move_slot replies source slot target w) e
        (move_slot-SlotMoved replies source slot target w))
      (λ w' m.
        OnSuccess-map (IsMoved source rest w'.store) (IsMoved source rest w.store)
          (move_table replies target (map (entry source) slots) w') (λ h. IsMoved-trans m)
          (move_table-IsMoved replies source target slots rest w' m.slots))

-- Exchanging n slots takes the first n slots of the source, when it has that many.
pub exchange-IsMoved :
    (replies : Replies) (target source : Ref) (n : ℕ) (w : World)
    → n ≤ length (w.store source).slots
    → (o : Outcome) × (exchange replies target source n w ≡ some o)
      × OnSuccess (IsMoved source (drop n (w.store source).slots) w.store) o
unfolding exchange moved_by
exchange-IsMoved replies target source zero w l =
    ((w, none), refl, record { slots = refl; others = λ q ne. refl; balances = λ q. refl })
exchange-IsMoved replies target source (suc n) w l =
    let slots = (w.store source).slots in
    let taken = take (suc n) slots in
    (
      move_table replies target (map (entry source) taken) w,
      rw (compute_reshard_table_lem w.store source (suc n) (omega arith) (unfold total_slots in l))
          refl,
      move_table-IsMoved replies source target taken (drop (suc n) slots) w
          (sym (take-append-drop (suc n) slots)),
    )
