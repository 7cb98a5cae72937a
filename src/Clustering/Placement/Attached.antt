-- ===== src/Clustering/Placement/Attached.antt =====
-- What PlaceSlaves attaches (pkg/controller/clustering/placement_v2.go).
use mathlib.Core.Path.{subst}
use mathlib.Core.Logic.{∥∥₁_elim}
use mathlib.Core.List.{Permᴰ}
use native.Mathlib.Nat.{ℕ_set}
use redis_cluster_operator.Common.{
  ℕ, ◌+◌, ◌≡◌, refl, sym, ◌∙◌, ap, Bool, true, false, ◌&&◌, ◌||◌, not, Option, none, some, List, [],
  ◌∷◌, if◌then◌else◌, ◌==◌, inl, inr, ◌⊎◌, Bool-cases, Text, text_eq, Dict, text_eq_key, lookup,
  count, select, length, arith,
}
use redis_cluster_operator.Clustering.{Ref, Store, MapOrder}
use redis_cluster_operator.Node.{is_slave}
use redis_cluster_operator.Clustering.Dicts.{filed, filed-append_at}
use redis_cluster_operator.Clustering.Placement.{Ctx, is_known}
use redis_cluster_operator.Clustering.Placement.Slaves.{
  is_attached, place_slave, place_group, then_place, place_groups, place_slaves,
}

module _ (h : Store) where
  -- A node of the master's stateful set is to be attached: it does not have the master's address, and
  -- it is not a slave that names the master as its own.
  unfoldable pub wants : Ref → Ref → Bool
  wants master node =
      not (text_eq (h node).ip (h master).ip)
      && not (is_slave (h node) && text_eq (h node).master_referent (h master).id)

  -- How often a node is to be attached to the master with an id, over all stateful sets.
  abbrev pub wanted_of : Text → ℕ → Option Ref → List Ref → ℕ
  wanted_of id a none nodes = 0
  wanted_of id a (some master) nodes =
      if text_eq (h master).id id then count a (select (wants master) nodes) else 0

  abbrev pub wanted : Text → ℕ → Dict Text Ref → Dict Text (List Ref) → ℕ
  wanted id a masters [] = 0
  wanted id a masters ((name, nodes) ∷ m) =
      wanted_of id a (lookup name masters) nodes + wanted id a masters m

  wanted-permᴰ :
      (id : Text) (a : ℕ) (masters : Dict Text Ref) {m n : Dict Text (List Ref)}
      → Permᴰ m n
      → wanted id a masters m ≡ wanted id a masters n
  wanted-permᴰ id a masters Permᴰ.nil = refl
  wanted-permᴰ id a masters (Permᴰ.cons {a = x} {b = y} e p) =
      let same = ap (λ (t : Text × List Ref). wanted_of id a (lookup t.0 masters) t.1) e in
      omega (arith, same, wanted-permᴰ id a masters p)
  wanted-permᴰ id a masters (Permᴰ.swap {a = x} {b = y} {a' = x'} {b' = y'} e f) =
      let one = ap (λ (t : Text × List Ref). wanted_of id a (lookup t.0 masters) t.1) e in
      let two = ap (λ (t : Text × List Ref). wanted_of id a (lookup t.0 masters) t.1) f in
      omega (arith, one, two)
  wanted-permᴰ id a masters (Permᴰ.trans p q) =
      wanted-permᴰ id a masters p ∙ wanted-permᴰ id a masters q

  one_more : Text → ℕ → Ref → Ref → ℕ
  one_more id a master node =
      if text_eq (h master).id id then count a (if wants master node then node ∷ [] else []) else 0

  place_slave-filed :
      (id : Text) (a : ℕ) (master node : Ref) (c : Ctx)
      → filed id a (place_slave h master node c).slaves_by_master
        ≡ filed id a c.slaves_by_master + one_more id a master node
  unfolding place_slave wants is_attached one_more
  place_slave-filed id a master node c = elim (Bool-cases (text_eq (h node).ip (h master).ip)) [
    | inl e ↦ rw e (ground arith)
    | inr e ↦
        elim (Bool-cases (is_slave (h node) && text_eq (h node).master_referent (h master).id)) [
          | inl f ↦ rw (e, f) (ground arith)
          | inr f ↦ rw (e, f) (filed-append_at id (h master).id a (node ∷ []) c.slaves_by_master)
        ]
  ]

  place_slave-masters :
      (master node : Ref) (c : Ctx)
      → (place_slave h master node c).new_masters_by_sts ≡ c.new_masters_by_sts
  unfolding place_slave
  place_slave-masters master node c = ground arith

  -- The context after some groups.
  pub record IsAfter (c : Ctx) (extra : Text → ℕ → ℕ) (c' : Ctx) : Type 0 where
    pub masters : c'.new_masters_by_sts ≡ c.new_masters_by_sts
    pub slaves :
        (id : Text) (a : ℕ)
        → filed id a c'.slaves_by_master ≡ filed id a c.slaves_by_master + extra id a

  count_if :
      (a : ℕ) (t : Bool) (node : Ref) (nodes : List Ref)
      → count a (if t then node ∷ nodes else nodes)
        ≡ count a (if t then node ∷ [] else []) + count a nodes
  count_if a true node nodes = ground arith
  count_if a false node nodes = omega arith

  more_wanted :
      (id : Text) (a : ℕ) (master node : Ref) (nodes : List Ref)
      → wanted_of id a (some master) (node ∷ nodes)
        ≡ one_more id a master node + wanted_of id a (some master) nodes
  unfolding one_more
  more_wanted id a master node nodes = elim (Bool-cases (text_eq (h master).id id)) [
    | inl e ↦ rw e (count_if a (wants master node) node (select (wants master) nodes))
    | inr e ↦ rw e (omega arith)
  ]

  place_group-IsAfter :
      (master : Ref) (nodes : List Ref) (c : Ctx)
      → (c' : Ctx) × (place_group h (some master) nodes c ≡ some c')
        × IsAfter c (λ id a. wanted_of id a (some master) nodes) c'
  unfolding place_group
  place_group-IsAfter master [] c =
      (c, refl, record { masters = refl; slaves = λ id a. ground arith })
  place_group-IsAfter master (node ∷ nodes) c =
      let rest = place_group-IsAfter master nodes (place_slave h master node c) in
      (
        rest.0,
        rest.1,
        record {
          masters = (rest.2).masters ∙ place_slave-masters master node c;
          slaves = λ id a.
              (rest.2).slaves id a
              ∙ omega
                  (arith, place_slave-filed id a master node c, more_wanted id a master node nodes);
        },
      )

  -- Every stateful set with nodes has a master.
  abbrev pub all_mastered : Dict Text Ref → Dict Text (List Ref) → Bool
  all_mastered masters [] = true
  all_mastered masters ((name, nodes) ∷ m) =
      let rest = all_mastered masters m in
      (is_known h (lookup name masters) || length nodes == 0) && rest

  all_mastered-permᴰ :
      (masters : Dict Text Ref) {m n : Dict Text (List Ref)}
      → Permᴰ m n
      → all_mastered masters m ≡ all_mastered masters n
  all_mastered-permᴰ masters Permᴰ.nil = refl
  all_mastered-permᴰ masters (Permᴰ.cons {a = x} {b = y} e p) =
      let one : Text × List Ref → Bool = λ t. is_known h (lookup t.0 masters) || length t.1 == 0 in
      let same : one x ≡ one y = ap one e in ground (arith, all_mastered-permᴰ masters p)
  all_mastered-permᴰ masters (Permᴰ.swap {a = x} {b = y} {a' = x'} {b' = y'} e f) =
      let one : Text × List Ref → Bool = λ t. is_known h (lookup t.0 masters) || length t.1 == 0 in
      let a : one x ≡ one y' = ap one e in let b : one y ≡ one x' = ap one f in ground arith
  all_mastered-permᴰ masters (Permᴰ.trans p q) =
      all_mastered-permᴰ masters p ∙ all_mastered-permᴰ masters q

  -- Either a stateful set has nodes and no master, and the placement panics, or it goes through.
  abbrev pub Placed : (Text → ℕ → ℕ) → Bool → Ctx → Option Ctx → Type 0
  Placed extra true c r = (c' : Ctx) × (r ≡ some c') × IsAfter c extra c'
  Placed extra false c r = r ≡ none

  Placed-next :
      (one more all : Text → ℕ → ℕ) (c c1 : Ctx) (b : Bool) (r : Option Ctx)
      → IsAfter c one c1
      → ((id : Text) (a : ℕ) → all id a ≡ one id a + more id a)
      → Placed more b c1 r
      → Placed all b c r
  Placed-next one more all c c1 true r x sum p = (
    p.0,
    p.1,
    record {
      masters = (p.2).masters ∙ x.masters;
      slaves = λ id a.
          let y = (p.2).slaves id a in let z = x.slaves id a in omega (arith, y, z, sum id a);
    },
  )
  Placed-next one more all c c1 false r x sum p = p

  -- One group: it panics when it has nodes and no master.
  group-cases :
      (o : Option Ref) (nodes : List Ref) (c : Ctx)
      → (((is_known h o || length nodes == 0) ≡ true)
          × ((c1 : Ctx) × (place_group h o nodes c ≡ some c1)
              × IsAfter c (λ id a. wanted_of id a o nodes) c1))
        ⊎ (((is_known h o || length nodes == 0) ≡ false) × (place_group h o nodes c ≡ none))
  unfolding place_group is_known
  group-cases none [] c =
      inl (refl, (c, refl, record { masters = refl; slaves = λ id a. omega arith }))
  group-cases none (node ∷ nodes) c = inr (ground arith, refl)
  group-cases (some r) nodes c = inl (refl, place_group-IsAfter r nodes c)

  place_groups-Placed :
      (m : Dict Text (List Ref)) (c : Ctx)
      → Placed
          (λ id a. wanted id a c.new_masters_by_sts m)
          (all_mastered c.new_masters_by_sts m)
          c
          (place_groups h m c)
  unfolding place_groups then_place
  place_groups-Placed [] c = (c, refl, record { masters = refl; slaves = λ id a. omega arith })
  place_groups-Placed ((name, nodes) ∷ m) c =
      elim (group-cases (lookup name c.new_masters_by_sts) nodes c) [
        | inl (b, (c1, e, after)) ↦
            let masters = c.new_masters_by_sts in
            let rest =
              subst
                (λ t. Placed (λ id a. wanted id a t m) (all_mastered t m) c1 (place_groups h m c1))
                after.masters (place_groups-Placed m c1) in
            rw (b, e)
              (Placed-next (λ id a. wanted_of id a (lookup name masters) nodes)
                (λ id a. wanted id a masters m) (λ id a. wanted id a masters ((name, nodes) ∷ m)) c
                c1 (all_mastered masters m) (place_groups h m c1) after (λ id a. refl) rest)
        | inr (b, e) ↦ rw (b, e) refl
      ]

  -- PlaceSlaves panics exactly when a stateful set has nodes and no master. Otherwise each node is
  -- filed under the id of its stateful set's master as often as it stands there, does not have the
  -- master's address and is not its slave already, and nowhere else; what was filed before and the
  -- masters stay as they are.
  pub place_slaves-Placed :
      (order : MapOrder (List Ref)) (c : Ctx)
      → Placed
          (λ id a. wanted id a c.new_masters_by_sts c.nodes)
          (all_mastered c.new_masters_by_sts c.nodes)
          c
          (place_slaves h order c)
  unfolding place_slaves
  place_slaves-Placed order c =
      let masters = c.new_masters_by_sts in
      let p = order.range_perm c.nodes in
      let start : Ctx = record c { best_effort = true } in
      let same_b : all_mastered masters (order.range c.nodes) ≡ all_mastered masters c.nodes =
        ∥∥₁_elim p (hlevel) (all_mastered-permᴰ masters) in
      let same_w : (id : Text) (a : ℕ)
          → wanted id a masters (order.range c.nodes) ≡ wanted id a masters c.nodes =
        λ id a. ∥∥₁_elim p (ℕ_set _ _) (wanted-permᴰ id a masters) in
      subst (λ b. Placed (λ id a. wanted id a masters c.nodes) b c (place_slaves h order c)) same_b
        (Placed-next (λ id a. 0) (λ id a. wanted id a masters (order.range c.nodes))
          (λ id a. wanted id a masters c.nodes) c start (all_mastered masters (order.range c.nodes))
          (place_groups h (order.range c.nodes) start)
          (record { masters = refl; slaves = λ id a. omega arith })
          (λ id a. sym (same_w id a) ∙ omega arith)
          (place_groups-Placed (order.range c.nodes) start))
