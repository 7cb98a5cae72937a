-- ===== src/Sync/Removal.antt =====
-- scalingDown deletes a stateful set only when its nodes are gone from the cluster.
use redis_cluster_operator.Common.{
  ℕ, zero, suc, ◌+◌, ◌-◌, ◌≤◌, true, none, some, List, [], ◌∷◌, ltb, length, All, Text, Dict,
  lookup, text_eq_key, ◌≡◌, refl, ap, ◌⊎◌, inl, inr, arith, Bool-cases,
}
use redis_cluster_operator.Clustering.{Ref, Store}
use redis_cluster_operator.Admin.{
  Call, stateful_set_kind, forget_node_call, get_stateful_set_call, delete_call, World, Replies,
  issue, succeeds,
}
use redis_cluster_operator.Clustering.Placement.{cluster_stateful_set_name, or_nil}
use redis_cluster_operator.Sync.{
  SyncOutcome, cluster_headless_svc_name, remove_resources, forget_empty, finish_removal,
  remove_set, then_sets, remove_sets, disconnect, disconnect_sets, scaling_down,
}

-- The call was made in the history, and succeeded.
abbrev pub Accepted : Replies → Call → List Call → Type 0
Accepted replies call [] = ⊥
Accepted replies call (c ∷ hist) =
    ((c ≡ call) × (replies (c ∷ hist) ≡ true)) ⊎ Accepted replies call hist

module _ (replies : Replies) (h : Store) (name : Text) (groups : Dict Text (List Ref))
    (expected : ℕ) where
  -- Each node has no slots, and the cluster was told to forget it.
  abbrev pub AllForgotten : List Ref → List Call → Type 0
  AllForgotten rs hist =
      All (λ r. (length (h r).slots ≡ 0) × Accepted replies (forget_node_call (h r).id) hist) rs

  -- The stateful set with a number that is not expected, and all its nodes forgotten.
  pub record IsVacated (sts : Text) (hist : List Call) : Type 0 where
    pub number : ℕ
    pub surplus : expected ≤ number
    pub named : sts ≡ cluster_stateful_set_name name number
    pub forgotten : AllForgotten (or_nil (lookup sts groups)) hist

  abbrev pub RemovedAt : Call → List Call → Type 0
  RemovedAt (delete_call stateful_set_kind sts) hist = IsVacated sts hist
  RemovedAt _ hist = Unit

  -- Each stateful set that was deleted was vacated at that time.
  abbrev pub AllVacated : List Call → Type 0
  AllVacated [] = Unit
  AllVacated (c ∷ hist) = RemovedAt c hist × AllVacated hist

  AllForgotten-push :
      (rs : List Ref) (c : Call) (hist : List Call)
      → AllForgotten rs hist
      → AllForgotten rs (c ∷ hist)
  AllForgotten-push [] c hist a = tt
  AllForgotten-push (r ∷ rs) c hist a = ((a.0.0, inr a.0.1), AllForgotten-push rs c hist a.1)

  -- What a step from a history in which all is in order leads to.
  abbrev Orderly : World → Type 0
  Orderly w = (w.store ≡ h) × AllVacated w.calls

  abbrev OnSuccess : (World → Type 0) → SyncOutcome → Type 0
  OnSuccess P (w, none) = P w
  OnSuccess P (w, some e) = Unit

  forget_empty-Orderly :
      (rs : List Ref) (w : World) → Orderly w → Orderly (forget_empty replies rs w).0
  unfolding forget_empty
  forget_empty-Orderly [] w o = o
  forget_empty-Orderly (r ∷ rs) w o = elim (Bool-cases (ltb 0 (length (w.store r).slots))) [
    | inl full ↦ rw full o
    | inr empty ↦ elim (Bool-cases (succeeds replies (forget_node_call (w.store r).id) w)) [
      | inl e ↦ rw (empty, e) (forget_empty-Orderly rs _ (o.0, (tt, o.1)))
      | inr e ↦ rw (empty, e) (o.0, (tt, o.1))
    ]
  ]

  -- What the history holds stays in it.
  forget_empty-keeps :
      (rs qs : List Ref) (w : World)
      → AllForgotten qs w.calls
      → AllForgotten qs (forget_empty replies rs w).0.calls
  unfolding forget_empty
  forget_empty-keeps [] qs w a = a
  forget_empty-keeps (r ∷ rs) qs w a =
      let forget = forget_node_call (w.store r).id in
      let more = AllForgotten-push qs forget w.calls a in
      elim (Bool-cases (ltb 0 (length (w.store r).slots))) [
        | inl full ↦ rw full a
        | inr empty ↦ elim (Bool-cases (succeeds replies forget w)) [
          | inl e ↦ rw (empty, e) (forget_empty-keeps rs qs (issue forget w) more)
          | inr e ↦ rw (empty, e) more
        ]
      ]

  forget_empty-AllForgotten :
      (rs : List Ref) (w : World)
      → w.store ≡ h
      → OnSuccess (λ w'. AllForgotten rs w'.calls) (forget_empty replies rs w)
  unfolding forget_empty
  forget_empty-AllForgotten [] w s = tt
  forget_empty-AllForgotten (r ∷ rs) w s =
      let forget = forget_node_call (w.store r).id in
      elim (Bool-cases (ltb 0 (length (w.store r).slots))) [
        | inl full ↦ rw full tt
        | inr empty ↦ elim (Bool-cases (succeeds replies forget w)) [
          | inr e ↦ rw (empty, e) tt
          | inl e ↦
              let none_left : length (h r).slots ≡ 0 =
                ground (arith, ap (λ (st : Store). length (st r).slots) s) in
              let here : AllForgotten (r ∷ []) (forget ∷ w.calls) =
                ((none_left, inl (ap (λ (st : Store). forget_node_call (st r).id) s, e)), tt) in
              rw (empty, e)
                (both r rs (forget_empty replies rs (issue forget w))
                  (forget_empty-keeps rs (r ∷ []) (issue forget w) here)
                  (forget_empty-AllForgotten rs (issue forget w) s))
        ]
      ]
    where
      both :
          (r : Ref) (rs : List Ref) (o : SyncOutcome)
          → AllForgotten (r ∷ []) o.0.calls
          → OnSuccess (λ w'. AllForgotten rs w'.calls) o
          → OnSuccess (λ w'. AllForgotten (r ∷ rs) w'.calls) o
      both r rs (w, none) a b = (a.0, b)
      both r rs (w, some e) a b = tt

  finish_removal-Orderly :
      (number : ℕ) (o : SyncOutcome)
      → let sts = cluster_stateful_set_name name number in
        expected ≤ number
        → Orderly o.0
        → OnSuccess (λ w'. AllForgotten (or_nil (lookup sts groups)) w'.calls) o
        → Orderly (finish_removal replies sts (cluster_headless_svc_name name number) o).0
  unfolding finish_removal remove_resources
  finish_removal-Orderly number (w, some e) le o a = o
  finish_removal-Orderly number (w, none) le o a =
      let vacated : IsVacated (cluster_stateful_set_name name number) w.calls = record {
        number = number;
        surplus = le;
        named = refl;
        forgotten = a;
      } in
      (o.0, (tt, (tt, (tt, (tt, (vacated, o.1))))))

  remove_set-Orderly :
      (number : ℕ) (w : World)
      → expected ≤ number
      → Orderly w
      → Orderly (remove_set replies name groups number w).0
  unfolding remove_set
  remove_set-Orderly number w le o =
      let sts = cluster_stateful_set_name name number in
      let get = get_stateful_set_call sts in
      let rs = or_nil (lookup sts groups) in
      elim (Bool-cases (succeeds replies get w)) [
        | inr e ↦ rw e (o.0, (tt, o.1))
        | inl e ↦ rw e (
            finish_removal-Orderly number (forget_empty replies rs (issue get w)) le
              (forget_empty-Orderly rs (issue get w) (o.0, (tt, o.1)))
              (forget_empty-AllForgotten rs (issue get w) o.0))
      ]

  then_sets-Orderly :
      (k : World → SyncOutcome) (o : SyncOutcome)
      → ((w : World) → Orderly w → Orderly (k w).0)
      → Orderly o.0
      → Orderly (then_sets replies k o).0
  unfolding then_sets
  then_sets-Orderly k (w, some e) keep o = o
  then_sets-Orderly k (w, none) keep o = keep w o

  remove_sets-Orderly :
      (n : ℕ) (w : World) → Orderly w → Orderly (remove_sets replies name groups expected n w).0
  unfolding remove_sets
  remove_sets-Orderly zero w o = o
  remove_sets-Orderly (suc n) w o =
      then_sets-Orderly (remove_sets replies name groups expected n)
        (remove_set replies name groups (expected + n) w) (λ w'. remove_sets-Orderly n w')
        (remove_set-Orderly (expected + n) w (omega arith) o)

  disconnect-Orderly : (rs : List Ref) (w : World) → Orderly w → Orderly (disconnect replies rs w)
  unfolding disconnect
  disconnect-Orderly [] w o = o
  disconnect-Orderly (r ∷ rs) w o = disconnect-Orderly rs _ (o.0, (tt, o.1))

  disconnect_sets-Orderly :
      (n : ℕ) (w : World) → Orderly w → Orderly (disconnect_sets replies name groups expected n w)
  unfolding disconnect_sets
  disconnect_sets-Orderly zero w o = o
  disconnect_sets-Orderly (suc n) w o = disconnect_sets-Orderly n _ (
      disconnect-Orderly (or_nil (lookup (cluster_stateful_set_name name (expected + n)) groups)) w
        o)

-- Scaling down deletes only stateful sets that are numbered beyond the expected masters, each after
-- every node of the set was found without slots and the call that forgets it succeeded, whatever the
-- other replies; it changes no node.
pub scaling_down-AllVacated :
    (replies : Replies) (name : Text) (current expected : ℕ) (groups : Dict Text (List Ref))
    (w : World)
    → AllVacated replies w.store name groups expected w.calls
    → let after = (scaling_down replies name current expected groups w).0 in
      (after.store ≡ w.store) × AllVacated replies w.store name groups expected after.calls
unfolding scaling_down
scaling_down-AllVacated replies name current expected groups w a =
    remove_sets-Orderly replies w.store name groups expected (current - expected) _ (
      disconnect_sets-Orderly replies w.store name groups expected (current - expected) _
        (refl, (tt, a)))
