-- ===== src/Clustering/Migration/Surplus.antt =====
-- The maps that buildSlotsByNode puts together (pkg/controller/clustering/migration.go): what
-- they hold, when the old masters have distinct ids.
use redis_cluster_operator.Common.{
  ℕ, ◌+◌, ◌≡◌, ◌≢◌, refl, false, ◌&&◌, List, [], ◌∷◌, ltb, leb, if◌then◌else◌, length, drop, All,
  count, Text, text_eq, text_eq_iff, text_eq_key, arith, Bool-cases, inl, inr, length-drop,
}
use redis_cluster_operator.Node.{total_slots}
use redis_cluster_operator.Clustering.{Ref, Store}
use redis_cluster_operator.Clustering.Dicts.{held, held-append_at, count_at, count_at-append_at}
use redis_cluster_operator.Clustering.Migration.{
  SlotMap, take_surplus, retrieve_slot_to_migrate_from,
}

nil-of_length : (xs : List ℕ) → length xs ≡ 0 → xs ≡ []
nil-of_length [] e = refl
nil-of_length (x ∷ xs) e = absurd (omega arith)

drop-nil :
    (nb : ℕ) (xs : List ℕ)
    → (leb nb (length xs) && ltb 0 (length (drop nb xs))) ≡ false
    → drop nb xs ≡ []
drop-nil nb xs e = nil-of_length (drop nb xs) (ground (arith, length-drop nb xs))

module _ (h : Store) where
  -- The ids of the nodes are not empty, and no two are equal.
  abbrev pub DistinctIds : List Ref → Type 0
  DistinctIds [] = Unit
  DistinctIds (r ∷ rs) =
      ((h r).id ≢ []) × All (λ s. text_eq (h s).id (h r).id ≡ false) rs × DistinctIds rs

  -- How often the nodes hold a slot, past the first nb of each.
  unfoldable pub surplus : ℕ → ℕ → List Ref → ℕ
  surplus a nb [] = 0
  surplus a nb (r ∷ rs) = count a (drop nb (h r).slots) + surplus a nb rs

  held-take_surplus :
      (a nb : ℕ) (r : Ref) (m : SlotMap)
      → held a (take_surplus h nb r m) ≡ held a m + count a (drop nb (h r).slots)
  unfolding take_surplus total_slots
  held-take_surplus a nb r m =
      let rest = drop nb (h r).slots in
      elim (Bool-cases (leb nb (length (h r).slots) && ltb 0 (length rest))) [
        | inl e ↦ rw e (held-append_at a (h r).id rest m)
        | inr e ↦ rw e (rw (drop-nil nb (h r).slots e) (omega arith))
      ]

  pub held-retrieve :
      (a nb : ℕ) (old : List Ref) (m : SlotMap)
      → held a (retrieve_slot_to_migrate_from h old nb m) ≡ held a m + surplus a nb old
  unfolding retrieve_slot_to_migrate_from surplus
  held-retrieve a nb [] m = omega arith
  held-retrieve a nb (r ∷ old) m =
      omega (arith, held-take_surplus a nb r m, held-retrieve a nb old (take_surplus h nb r m))

  -- The surplus of the nodes with one id.
  unfoldable pub surplus_at : ℕ → ℕ → Text → List Ref → ℕ
  surplus_at a nb id [] = 0
  surplus_at a nb id (r ∷ rs) =
      (if text_eq (h r).id id then count a (drop nb (h r).slots) else 0) + surplus_at a nb id rs

  count_at-take_surplus :
      (a nb : ℕ) (id : Text) (r : Ref) (m : SlotMap)
      → count_at a id (take_surplus h nb r m)
        ≡ count_at a id m + (if text_eq (h r).id id then count a (drop nb (h r).slots) else 0)
  unfolding take_surplus total_slots
  count_at-take_surplus a nb id r m =
      let rest = drop nb (h r).slots in
      elim (Bool-cases (leb nb (length (h r).slots) && ltb 0 (length rest))) [
        | inl e ↦ rw e (count_at-append_at a (h r).id id rest m)
        | inr e ↦ rw e (rw (drop-nil nb (h r).slots e) (ground arith))
      ]

  pub count_at-retrieve :
      (a nb : ℕ) (id : Text) (old : List Ref) (m : SlotMap)
      → count_at a id (retrieve_slot_to_migrate_from h old nb m)
        ≡ count_at a id m + surplus_at a nb id old
  unfolding retrieve_slot_to_migrate_from surplus_at
  count_at-retrieve a nb id [] m = omega arith
  count_at-retrieve a nb id (r ∷ old) m = omega (
    arith,
    count_at-take_surplus a nb id r m,
    count_at-retrieve a nb id old (take_surplus h nb r m),
  )

  pub surplus_at-absent :
      (a nb : ℕ) (id : Text) (rs : List Ref)
      → All (λ s. text_eq (h s).id id ≡ false) rs
      → surplus_at a nb id rs ≡ 0
  unfolding surplus_at
  surplus_at-absent a nb id [] k = refl
  surplus_at-absent a nb id (r ∷ rs) k = ground (arith, surplus_at-absent a nb id rs k.1)

  -- Each node reads its own surplus in the map of all of them.
  unfoldable pub OwnSurplus : ℕ → ℕ → List Ref → Ref → Type 0
  OwnSurplus a nb old r = surplus_at a nb (h r).id old ≡ count a (drop nb (h r).slots)

  OwnSurplus-cons :
      (a nb : ℕ) (r : Ref) (old rs : List Ref)
      → All (λ s. text_eq (h s).id (h r).id ≡ false) rs
      → All (OwnSurplus a nb old) rs
      → All (OwnSurplus a nb (r ∷ old)) rs
  unfolding surplus_at OwnSurplus
  OwnSurplus-cons a nb r old [] k o = tt
  OwnSurplus-cons a nb r old (s ∷ rs) k o = (
    ground (arith, text_eq_iff (h r).id (h s).id, text_eq_iff (h s).id (h r).id),
    OwnSurplus-cons a nb r old rs k.1 o.1,
  )

  pub own_surplus : (a nb : ℕ) (old : List Ref) → DistinctIds old → All (OwnSurplus a nb old) old
  unfolding surplus_at OwnSurplus
  own_surplus a nb [] d = tt
  own_surplus a nb (r ∷ old) d = (
    ground (arith, text_eq_iff (h r).id (h r).id, surplus_at-absent a nb (h r).id old d.1),
    OwnSurplus-cons a nb r old old d.1 (own_surplus a nb old d.2),
  )
