-- ===== src/Clustering/Rebalance/Told.antt =====
-- What RebalancedCluster tells the nodes about the slots that it moves
-- (pkg/controller/clustering/rebalance.go).
use mathlib.Core.Path.{subst, ap₂}
use redis_cluster_operator.Common.{
  ℕ, ◌≡◌, refl, sym, ◌∙◌, ap, ◌⊎◌, inl, inr, true, false, not, List, [], ◌∷◌, ◌++◌, ◌==◌, ==_iff,
  Bool-cases, has, ℤ, arith,
}
use redis_cluster_operator.Node.{ip_port}
use redis_cluster_operator.Slot.{remove_slot}
use redis_cluster_operator.Clustering.{Ref, Store, update, with_slots, with_balance}
use redis_cluster_operator.Admin.{
  Call, act_importing, act_migrating, act_node, set_slot_call, migrate_keys_in_slot_call, World,
  Replies, issue, set_node_slots, set_node_balance,
}
use redis_cluster_operator.Clustering.Migration.Dispatch.Order.{IsCalled, SameNames}
use redis_cluster_operator.Clustering.Rebalance.{settle_slot, move_slot}

-- The history begins, from the latest call on, with the given calls.
abbrev pub BeginsWith : List Call → List Call → Type 0
BeginsWith cs before = (rest : List Call) × (before ≡ cs ++ rest)

-- A SETSLOT NODE names a node as the owner, and either goes to that node, directly behind the import at
-- the node, the export at another one and the migration of the slot's keys from there to the node; or
-- it goes to the other node, directly behind the one that went to the owner.
abbrev pub SlotTold : Store → Call → List Call → Type 0
SlotTold h (set_slot_call addr act_node slot id) before =
    (to : Ref) × ((from : Ref) × ((h to).id ≡ id)
      × (((addr ≡ ip_port (h to))
            × BeginsWith
                (migrate_keys_in_slot_call (ip_port (h from)) to slot
                  ∷ set_slot_call (ip_port (h from)) act_migrating slot (h from).id
                  ∷ set_slot_call (ip_port (h to)) act_importing slot (h to).id
                  ∷ [])
                before)
          ⊎ ((addr ≡ ip_port (h from))
              × BeginsWith (set_slot_call (ip_port (h to)) act_node slot (h to).id ∷ []) before)))
SlotTold h _ before = Unit

abbrev pub SlotsTold : Store → List Call → Type 0
SlotsTold h [] = Unit
SlotsTold h (c ∷ before) = SlotTold h c before × SlotsTold h before

-- Some node has been told that it owns the slot.
abbrev pub IsGiven : Store → ℕ → List Call → Type 0
IsGiven h a calls =
    (to : Ref) × IsCalled (set_slot_call (ip_port (h to)) act_node a (h to).id) calls

-- Every slot that a node had it still has, or it was given to some node.
abbrev pub NoneLost : Store → World → Type 0
NoneLost b w =
    (r : Ref) (a : ℕ)
    → has a (b r).slots ≡ true
    → (has a (w.store r).slots ≡ true) ⊎ IsGiven b a w.calls

pub record IsTold (b : Store) (w : World) : Type 0 where
  pub names : SameNames b w.store
  pub told : SlotsTold b w.calls
  pub given : NoneLost b w

has-remove_slot :
    (a s : ℕ) (xs : List ℕ) → (s == a) ≡ false → has a xs ≡ true → has a (remove_slot xs s) ≡ true
unfolding remove_slot
has-remove_slot a s [] d h = h
has-remove_slot a s (x ∷ xs) d h = ground (arith, has-remove_slot a s xs d)

module _ (b : Store) where
  pub IsTold-issue :
      (c : Call) (w : World) → SlotTold b c w.calls → IsTold b w → IsTold b (issue c w)
  IsTold-issue c w s t = record {
    names = t.names;
    told = (s, t.told);
    given = λ r a m. elim (t.given r a m) [ inl k ↦ inl k | inr (to, k) ↦ inr (to, inr k) ];
  }

  -- A slot may leave a node in memory when it is given to another one.
  IsTold-leave :
      (source : Ref) (slot : ℕ) (w : World)
      → IsGiven b slot w.calls
      → IsTold b w
      → IsTold b (set_node_slots source (remove_slot (w.store source).slots slot) w)
  unfolding set_node_slots update with_slots ip_port
  IsTold-leave source slot w k t = record {
    names = λ q. elim (Bool-cases (q == source)) [
      | inl e ↦ rw e (
          subst (λ i. ((w.store source).id ≡ (b i).id) × (ip_port (w.store source) ≡ ip_port (b i)))
            (sym ((==_iff q source).0 e)) (t.names source))
      | inr e ↦ rw e (t.names q)
    ];
    told = t.told;
    given = λ q a m. elim (Bool-cases (q == source)) [
      | inl e ↦ elim (Bool-cases (slot == a)) [
        | inl f ↦ inr (subst (λ i. IsGiven b i w.calls) ((==_iff slot a).0 f) k)
        | inr f ↦ elim (t.given q a m) [
          | inl p ↦
              let here : has a (w.store source).slots ≡ true =
                subst (λ i. has a (w.store i).slots ≡ true) ((==_iff q source).0 e) p in
              rw e (inl (has-remove_slot a slot (w.store source).slots f here))
          | inr p ↦ inr p
        ]
      ]
      | inr e ↦ rw e (t.given q a m)
    ];
  }

  pub IsTold-balance :
      (r : Ref) (x : ℤ) (w : World) → IsTold b w → IsTold b (set_node_balance r x w)
  unfolding set_node_balance update with_balance ip_port
  IsTold-balance r x w t = record {
    names = λ q. elim (Bool-cases (q == r)) [
      | inl e ↦ rw e (
          subst (λ i. ((w.store r).id ≡ (b i).id) × (ip_port (w.store r) ≡ ip_port (b i)))
            (sym ((==_iff q r).0 e)) (t.names r))
      | inr e ↦ rw e (t.names q)
    ];
    told = t.told;
    given = λ q a m. elim (Bool-cases (q == r)) [
      | inl e ↦ rw e (
          subst
            (λ i. has a (b i).slots ≡ true → (has a (w.store r).slots ≡ true) ⊎ IsGiven b a w.calls)
            (sym ((==_iff q r).0 e)) (t.given r a) m)
      | inr e ↦ rw e (t.given q a m)
    ];
  }

  settle_slot-IsTold :
      (source : Ref) (slot : ℕ) (target : Ref) (w : World)
      → BeginsWith
          (migrate_keys_in_slot_call (ip_port (w.store source)) target slot
            ∷ set_slot_call (ip_port (w.store source)) act_migrating slot (w.store source).id
            ∷ set_slot_call (ip_port (w.store target)) act_importing slot (w.store target).id
            ∷ [])
          w.calls
      → IsTold b w
      → IsTold b (settle_slot source slot target w)
  unfolding settle_slot
  settle_slot-IsTold source slot target w (rest, e) t =
      let to = t.names target in
      let from = t.names source in
      let id = (w.store target).id in
      let tell = set_slot_call (ip_port (w.store target)) act_node slot id in
      let owned = issue tell w in
      let left = issue (set_slot_call (ip_port (w.store source)) act_node slot id) owned in
      let told : tell ≡ set_slot_call (ip_port (b target)) act_node slot (b target).id =
        ap₂ (λ x i. set_slot_call x act_node slot i) to.1 to.0 in
      let first : IsTold b owned =
        IsTold-issue tell w
          (target, (source, sym to.0, inl (to.1, (rest, e ∙ begun rest to.0 to.1 from.0 from.1))))
          t in
      let second : IsTold b left =
        IsTold-issue (set_slot_call (ip_port (w.store source)) act_node slot id) owned
          (target, (source, sym to.0, inr (from.1, (w.calls, ap (λ c. c ∷ w.calls) told)))) first in
      IsTold-leave source slot left (target, inr (inl told)) second
    where
      begun :
          (rest : List Call)
          → (w.store target).id ≡ (b target).id
          → ip_port (w.store target) ≡ ip_port (b target)
          → (w.store source).id ≡ (b source).id
          → ip_port (w.store source) ≡ ip_port (b source)
          → migrate_keys_in_slot_call (ip_port (w.store source)) target slot
              ∷ set_slot_call (ip_port (w.store source)) act_migrating slot (w.store source).id
              ∷ set_slot_call (ip_port (w.store target)) act_importing slot (w.store target).id
              ∷ rest
            ≡ migrate_keys_in_slot_call (ip_port (b source)) target slot
              ∷ set_slot_call (ip_port (b source)) act_migrating slot (b source).id
              ∷ set_slot_call (ip_port (b target)) act_importing slot (b target).id
              ∷ rest
      begun rest a1 a2 a3 a4 = cc

  pub move_slot-IsTold :
      (replies : Replies) (source : Ref) (slot : ℕ) (target : Ref) (w : World)
      → IsTold b w
      → IsTold b (move_slot replies source slot target w).0
  unfolding move_slot
  move_slot-IsTold replies source slot target w t =
      let from = ip_port (w.store source) in
      let take = set_slot_call (ip_port (w.store target)) act_importing slot (w.store target).id in
      let give = set_slot_call from act_migrating slot (w.store source).id in
      let move = migrate_keys_in_slot_call from target slot in
      let taking = IsTold-issue take w tt t in
      let giving = IsTold-issue give (issue take w) tt taking in
      let moving = IsTold-issue move (issue give (issue take w)) tt giving in
      elim (Bool-cases (not (replies (take ∷ w.calls)))) [
        | inl e ↦ rw e taking
        | inr e ↦ elim (Bool-cases (not (replies (give ∷ take ∷ w.calls)))) [
          | inl f ↦ rw (e, f) giving
          | inr f ↦ elim (Bool-cases (not (replies (move ∷ give ∷ take ∷ w.calls)))) [
            | inl g ↦ rw (e, f, g) moving
            | inr g ↦
                rw (e, f, g)
                  (settle_slot-IsTold source slot target (issue move (issue give (issue take w)))
                    (w.calls, refl) moving)
          ]
        ]
      ]
