-- ===== src/Clustering/Migration/Plan.antt =====
-- buildSlotsByNode (pkg/controller/clustering/migration.go): what the plan does with each slot.
use mathlib.Core.Logic.{∥∥₁_elim}
use native.Mathlib.Nat.{ℕ_set}
use redis_cluster_operator.Common.{
  ℕ, ◌+◌, ◌<◌, ◌≡◌, refl, sym, ◌∙◌, ap, false, ◌&&◌, some, List, [], ◌∷◌, map, ltb, ◌==◌,
  if◌then◌else◌, u64_mod, length, take, drop, All, count, count-append, take-append-drop, Text,
  text_eq, text_eq_iff, text_eq_key, insert, arith, Bool-cases, inl, inr,
}
use mathlib.Core.List.Perm
use redis_cluster_operator.Slot.Sets.{contains-has, has-eq-count}
use redis_cluster_operator.Clustering.{Ref, Store, MapOrder}
use redis_cluster_operator.Clustering.Dicts.{
  held, held-perm, held-permᴰ, held-insert, count_at, count_at-nil, count_at-insert_ne, dropped,
  dropped-insert, IsNewKey, DistinctKeys,
}
use redis_cluster_operator.Clustering.Dicts.Orders.{
  dropped-permᴰ, DistinctKeys-permᴰ, IsNewKey-permᴰ,
}
use redis_cluster_operator.Clustering.Migration.{
  SlotMap, ceil_div, retrieve_slot_to_migrate_from, retrieve_slot_to_migrate_from_removed_nodes,
  is_present, removed_nodes, put_all, retrieve_lost_slots, slots_to_migrate, build_slots_by_node,
}
use redis_cluster_operator.Clustering.Migration.Lost.{
  SlotsBelow, is_owned, count-retrieve_lost_slots,
}
use redis_cluster_operator.Clustering.Migration.Fill.{build_slot_by_node_conserves}
use redis_cluster_operator.Clustering.Migration.Surplus.{
  DistinctIds, surplus, surplus_at-absent, OwnSurplus, own_surplus, held-retrieve,
  count_at-retrieve,
}
use redis_cluster_operator.Clustering.Migration.Removed.{
  entry, copies, All-removed, DistinctIds-removed, IsNewKey-entries, DistinctKeys-entries,
  held-entries, dropped-entries, removed-entries,
}

held-put_all :
    (a : ℕ) (new m : SlotMap)
    → DistinctKeys new
    → held a (put_all new m) + dropped a new m ≡ held a m + held a new
unfolding put_all held dropped
held-put_all a [] m d = omega arith
held-put_all a ((k, xs) ∷ new) m d = omega (
  arith,
  held-put_all a new (insert k xs m) d.1,
  held-insert a k xs m,
  dropped-insert a k xs new m d.0,
)

count_at-put_all :
    (a : ℕ) (k : Text) (new m : SlotMap)
    → IsNewKey k new
    → count_at a k (put_all new m) ≡ count_at a k m
unfolding put_all
count_at-put_all a k [] m n = refl
count_at-put_all a k ((j, xs) ∷ new) m n =
    count_at-put_all a k new (insert j xs m) n.1 ∙ count_at-insert_ne a j k xs m n.0

module _ (h : Store) where
  -- How often the nodes that stay hold a slot among the first nb of theirs.
  unfoldable pub kept : ℕ → ℕ → List Ref → List Ref → ℕ
  kept a nb new [] = 0
  kept a nb new (r ∷ old) =
      (if is_present h new r then count a (take nb (h r).slots) else 0) + kept a nb new old

  kept_split :
      (a nb : ℕ) (new old : List Ref)
      → kept a nb new old + surplus h a nb old + copies h a (removed_nodes h new old)
        ≡ copies h a old + surplus h a nb (removed_nodes h new old)
  unfolding kept surplus copies removed_nodes
  kept_split a nb new [] = refl
  kept_split a nb new (r ∷ old) =
      let parts : count a (take nb (h r).slots) + count a (drop nb (h r).slots)
          ≡ count a (h r).slots =
        sym (count-append a (take nb (h r).slots) (drop nb (h r).slots))
        ∙ ap (count a) (take-append-drop nb (h r).slots) in
      elim (Bool-cases (is_present h new r)) [
        | inl e ↦ rw e (omega (arith, kept_split a nb new old))
        | inr e ↦ rw e (omega (arith, kept_split a nb new old))
      ]

  no_empty_ids : (rs : List Ref) → DistinctIds h rs → All (λ s. text_eq (h s).id [] ≡ false) rs
  no_empty_ids [] d = tt
  no_empty_ids (r ∷ rs) d = (ground (arith, d.0, text_eq_iff (h r).id []), no_empty_ids rs d.2)

  is_owned-copies : (a : ℕ) (old : List Ref) → is_owned h old a ≡ ltb 0 (copies h a old)
  unfolding is_owned copies
  is_owned-copies a [] = refl
  is_owned-copies a (r ∷ old) =
      ground (arith, contains-has a (h r).slots, has-eq-count a (h r).slots, is_owned-copies a old)

module _ (order : MapOrder (List ℕ)) (h : Store) (new old : List Ref) (nb : ℕ)
    (d : DistinctIds h old) where
  abbrev surplus_map : SlotMap
  surplus_map = retrieve_slot_to_migrate_from h old nb []

  abbrev removed_map : SlotMap
  removed_map = retrieve_slot_to_migrate_from_removed_nodes h new old

  held-moving :
      (a : ℕ)
      → kept h a nb new old + held a (put_all (order.range removed_map) surplus_map)
        ≡ copies h a old
  unfolding held
  held-moving a = ∥∥₁_elim (Perm.symm (order.range_perm removed_map)) (ℕ_set _ _) λ p.
      let gone = removed_nodes h new old in
      let same : removed_map ≡ map (entry h) gone = removed-entries h new old d in
      let keys : DistinctKeys removed_map =
        rw same (DistinctKeys-entries h gone (DistinctIds-removed h new old d)) in
      let over : dropped a removed_map surplus_map ≡ surplus h a nb gone = rw same (
        dropped-entries h a nb old gone
          (All-removed h (OwnSurplus h a nb old) new old (own_surplus h a nb old d))) in
      let all : held a removed_map ≡ copies h a gone = rw same (held-entries h a gone) in
      omega (
        arith,
        held-put_all a (order.range removed_map) surplus_map (DistinctKeys-permᴰ p keys),
        dropped-permᴰ a surplus_map p,
        over,
        held-permᴰ a p,
        all,
        held-retrieve h a nb old [],
        kept_split h a nb new old,
      )

  count_at-moving : (a : ℕ) → count_at a [] (put_all (order.range removed_map) surplus_map) ≡ 0
  count_at-moving a = ∥∥₁_elim (Perm.symm (order.range_perm removed_map)) (ℕ_set _ _) λ p.
      let gone = removed_nodes h new old in
      let same : removed_map ≡ map (entry h) gone = removed-entries h new old d in
      let fresh : IsNewKey {K = Text} [] removed_map = rw same (
        IsNewKey-entries h [] gone
          (All-removed h (λ s. text_eq (h s).id [] ≡ false) new old (no_empty_ids h old d))) in
      count_at-put_all a [] (order.range removed_map) surplus_map (IsNewKey-permᴰ [] p fresh)
      ∙ omega (
        arith,
        count_at-retrieve h a nb [] old [],
        count_at-nil {K = Text} a [],
        surplus_at-absent h a nb [] old (no_empty_ids h old d),
      )

  -- Each slot below nb_slots is kept or to migrate, as often as the old masters hold it, and once
  -- if they do not.
  slots_to_migrate_lem :
      (nb_slots a : ℕ)
      → nb_slots < u64_mod
      → 0 < nb_slots
      → SlotsBelow nb_slots h old
      → kept h a nb new old + held a (slots_to_migrate order h new old nb_slots nb)
        ≡ (if ltb a nb_slots && copies h a old == 0 then 1 else copies h a old)
  unfolding slots_to_migrate
  slots_to_migrate_lem nb_slots a w z b =
      let lost = retrieve_lost_slots h old nb_slots in
      ground (
        arith,
        held-insert {K = Text} a [] lost (put_all (order.range removed_map) surplus_map),
        count_at-moving a,
        held-moving a,
        count-retrieve_lost_slots h old nb_slots a w z b,
        is_owned-copies h a old,
      )

-- The plan of buildSlotsByNode loses no slot and doubles none. With a new master at hand, old
-- masters of distinct and non-empty ids, and slots below nbSlots only, it returns a map, and for
-- every number: what the staying masters keep of it and what the map hands out make up what the
-- old masters hold, and one for a slot below nbSlots that none holds. This is so for every order
-- in which the maps are visited.
pub build_slots_by_node_partitions :
    (order : MapOrder (List ℕ)) (h : Store) (r : Ref) (rs old : List Ref) (nb_slots : ℕ)
    → DistinctIds h old
    → nb_slots < u64_mod
    → 0 < nb_slots
    → SlotsBelow nb_slots h old
    → (slot_to_add : SlotMap) × (build_slots_by_node order h (r ∷ rs) old nb_slots
        ≡ some slot_to_add)
      × ((a : ℕ)
          → kept h a (ceil_div nb_slots (length (r ∷ rs))) (r ∷ rs) old + held a slot_to_add
            ≡ (if ltb a nb_slots && copies h a old == 0 then 1 else copies h a old))
unfolding build_slots_by_node
build_slots_by_node_partitions order h r rs old nb_slots d w z b =
    let nb = ceil_div nb_slots (length (r ∷ rs)) in
    let moving = slots_to_migrate order h (r ∷ rs) old nb_slots nb in
    let (add, e, c) = build_slot_by_node_conserves h r rs nb (order.range moving) in
    (
      add,
      e,
      λ a.
          ap (λ n. kept h a nb (r ∷ rs) old + n) (c a ∙ held-perm a (order.range_perm moving))
          ∙ slots_to_migrate_lem order h (r ∷ rs) old nb d nb_slots a w z b,
    )

-- The plan never indexes out of range.
pub build_slots_by_node_total :
    (order : MapOrder (List ℕ)) (h : Store) (new old : List Ref) (nb_slots : ℕ)
    → (slot_to_add : SlotMap) × (build_slots_by_node order h new old nb_slots ≡ some slot_to_add)
unfolding build_slots_by_node
build_slots_by_node_total order h [] old nb_slots = ([], refl)
build_slots_by_node_total order h (r ∷ rs) old nb_slots =
    let (add, e, c) = build_slot_by_node_conserves h r rs _ _ in (add, e)
