-- ===== src/Clustering/Migration/Removed.antt =====
-- retrieveSlotToMigrateFromRemovedNodes, and the map of all slots to migrate
-- (pkg/controller/clustering/migration.go).
use redis_cluster_operator.Common.{
  ℕ, ◌+◌, ◌≡◌, refl, sym, ◌∙◌, false, List, [], ◌∷◌, ◌++◌, map, All, count, Text, text_eq,
  text_eq_iff, text_eq_key, arith, append-nil, append_assoc, Bool-cases, inl, inr,
}
use redis_cluster_operator.Clustering.{Ref, Store}
use redis_cluster_operator.Clustering.Dicts.{
  held, count_at-nil, dropped, IsNewKey, DistinctKeys, insert_new,
}
use redis_cluster_operator.Clustering.Migration.{
  SlotMap, retrieve_slot_to_migrate_from, retrieve_slot_to_migrate_from_removed_nodes, is_present,
  removed_nodes, take_all_slots,
}
use redis_cluster_operator.Clustering.Migration.Surplus.{
  DistinctIds, surplus, OwnSurplus, count_at-retrieve,
}

module _ (h : Store) where
  unfoldable pub entry : Ref → Text × List ℕ
  entry r = ((h r).id, (h r).slots)

  -- How often the nodes hold a slot.
  unfoldable pub copies : ℕ → List Ref → ℕ
  copies a [] = 0
  copies a (r ∷ rs) = count a (h r).slots + copies a rs

  IsNewKey-append :
      (k : Text) (m : SlotMap) (e : Text × List ℕ)
      → IsNewKey k m
      → text_eq e.0 k ≡ false
      → IsNewKey k (m ++ e ∷ [])
  IsNewKey-append k [] e n q = (q, tt)
  IsNewKey-append k ((j, xs) ∷ m) e n q = (n.0, IsNewKey-append k m e n.1 q)

  NewIds : SlotMap → List Ref → Type 0
  NewIds m rs = All (λ r. IsNewKey (h r).id m) rs

  NewIds-append :
      (m : SlotMap) (r : Ref) (rs : List Ref)
      → NewIds m rs
      → All (λ s. text_eq (h s).id (h r).id ≡ false) rs
      → NewIds (m ++ entry r ∷ []) rs
  unfolding NewIds entry
  NewIds-append m r [] n d = tt
  NewIds-append m r (s ∷ rs) n d = (
    IsNewKey-append (h s).id m _ n.0
        (ground (arith, d.0, text_eq_iff (h r).id (h s).id, text_eq_iff (h s).id (h r).id)),
    NewIds-append m r rs n.1 d.1,
  )

  take_all_slots-append :
      (rs : List Ref) (m : SlotMap)
      → DistinctIds h rs
      → NewIds m rs
      → take_all_slots h rs m ≡ m ++ map entry rs
  unfolding take_all_slots NewIds entry
  take_all_slots-append [] m d n = sym (append-nil m)
  take_all_slots-append (r ∷ rs) m d n = rw (insert_new (h r).id (h r).slots m n.0) (
      take_all_slots-append rs (m ++ entry r ∷ []) d.2 (NewIds-append m r rs n.1 d.1)
      ∙ append_assoc m (entry r ∷ []) (map entry rs))

  NewIds-nil : (rs : List Ref) → NewIds [] rs
  unfolding NewIds
  NewIds-nil [] = tt
  NewIds-nil (r ∷ rs) = (tt, NewIds-nil rs)

  pub All-removed {ℓ} :
      (P : Ref → Type ℓ) (new old : List Ref) → All P old → All P (removed_nodes h new old)
  unfolding removed_nodes
  All-removed P new [] a = tt
  All-removed P new (r ∷ old) a = elim (Bool-cases (is_present h new r)) [
    | inl e ↦ rw e (All-removed P new old a.1)
    | inr e ↦ rw e (a.0, All-removed P new old a.1)
  ]

  pub DistinctIds-removed :
      (new old : List Ref) → DistinctIds h old → DistinctIds h (removed_nodes h new old)
  unfolding removed_nodes
  DistinctIds-removed new [] d = tt
  DistinctIds-removed new (r ∷ old) d = elim (Bool-cases (is_present h new r)) [
    | inl e ↦ rw e (DistinctIds-removed new old d.2)
    | inr e ↦ rw e (d.0, All-removed _ new old d.1, DistinctIds-removed new old d.2)
  ]

  pub IsNewKey-entries :
      (k : Text) (rs : List Ref)
      → All (λ s. text_eq (h s).id k ≡ false) rs
      → IsNewKey k (map entry rs)
  unfolding entry
  IsNewKey-entries k [] a = tt
  IsNewKey-entries k (r ∷ rs) a = (a.0, IsNewKey-entries k rs a.1)

  pub DistinctKeys-entries : (rs : List Ref) → DistinctIds h rs → DistinctKeys (map entry rs)
  unfolding entry
  DistinctKeys-entries [] d = tt
  DistinctKeys-entries (r ∷ rs) d = (IsNewKey-entries (h r).id rs d.1, DistinctKeys-entries rs d.2)

  pub held-entries : (a : ℕ) (rs : List Ref) → held a (map entry rs) ≡ copies a rs
  unfolding held copies entry
  held-entries a [] = refl
  held-entries a (r ∷ rs) = omega (arith, held-entries a rs)

  pub dropped-entries :
      (a nb : ℕ) (old rs : List Ref)
      → All (OwnSurplus h a nb old) rs
      → dropped a (map entry rs) (retrieve_slot_to_migrate_from h old nb []) ≡ surplus h a nb rs
  unfolding dropped surplus entry OwnSurplus
  dropped-entries a nb old [] o = refl
  dropped-entries a nb old (r ∷ rs) o = omega (
    arith,
    count_at-retrieve h a nb (h r).id old [],
    count_at-nil a (h r).id,
    o.0,
    dropped-entries a nb old rs o.1,
  )

  -- With distinct ids the map of the removed nodes has an entry for each, in order.
  pub removed-entries :
      (new old : List Ref)
      → DistinctIds h old
      → retrieve_slot_to_migrate_from_removed_nodes h new old ≡ map entry (removed_nodes h new old)
  unfolding retrieve_slot_to_migrate_from_removed_nodes
  removed-entries new old d =
      take_all_slots-append (removed_nodes h new old) [] (DistinctIds-removed new old d)
        (NewIds-nil _)
