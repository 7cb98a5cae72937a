-- ===== src/Clustering/Placement/Chosen.antt =====
-- DispatchMasters and PlaceMasters (pkg/controller/clustering/placement_v2.go).
use redis_cluster_operator.Common.{
  ◌≢◌, ◌++◌, map, text_eq, text_eq_iff, Dict, ◌<◌, ◌≡◌, refl, sym, ◌∙◌, ap, Bool, true, false, none,
  some, List, [], ◌∷◌, ◌==◌, inl, inr, ◌⊎◌, Bool-cases, has, Text, text_eq_key, lookup, length,
  Option-cases, arith,
}
use redis_cluster_operator.Node.{Node, is_master_with_slot}
use redis_cluster_operator.Clustering.{Ref, Store}
use redis_cluster_operator.Clustering.Placement.{
  Ctx, PlacementError, missing_stateful_set, split_brain, filter_refs, hosts_master, find_free,
  all_masters, placed, first_node, place_masters,
}

module _ (h : Store) where
  -- A node is a master: one that was there already, or one chosen for a stateful set.
  abbrev pub ChosenIn : Ref → Dict Text Ref → Type 0
  ChosenIn m [] = ⊥
  ChosenIn m ((name, r) ∷ rest) = (r ≡ m) ⊎ ChosenIn m rest

  abbrev pub IsMasterOf : Ctx → Ref → Type 0
  IsMasterOf c m = (has m c.current_masters ≡ true) ⊎ ChosenIn m c.new_masters_by_sts

  -- A node's host has no master, and it has one.
  abbrev pub Spread : Ctx → Ref → Type 0
  Spread c r = (m : Ref) → IsMasterOf c m → (h m).node_name ≢ (h r).node_name

  abbrev pub Shared : Ctx → Ref → Type 0
  Shared c r = (m : Ref) × IsMasterOf c m × ((h m).node_name ≡ (h r).node_name)

  pub record IsPlaced (c : Ctx) (nodes : List Ref) (master : Ref) (after : Ctx) : Type 0 where
    pub member : has master nodes ≡ true
    pub spread :
        (Spread c master × (after ≡ c))
        ⊎ (((r : Ref) → has r nodes ≡ true → Shared c r)
            × (after ≡ record c { best_effort = true }))

  hosts_master-false :
      (masters : List Ref) (r m : Ref)
      → hosts_master h masters r ≡ false
      → has m masters ≡ true
      → (h m).node_name ≢ (h r).node_name
  unfolding hosts_master
  hosts_master-false [] r m e i same = absurd (ground arith)
  hosts_master-false (q ∷ masters) r m e i same =
      let host : text_eq (h q).node_name (h r).node_name ≡ false = ground arith in
      elim (Bool-cases (q == m)) [
        | inl b ↦
            let here : q ≡ m = ground arith in
            let one =
              (text_eq_iff (h q).node_name (h r).node_name).1
                (ap (λ x. (h x).node_name) here ∙ same) in
            absurd (cc (sym one ∙ host))
        | inr b ↦ hosts_master-false masters r m (ground arith) (ground arith) same
      ]

  hosts_master-true :
      (masters : List Ref) (r : Ref)
      → hosts_master h masters r ≡ true
      → (m : Ref) × (has m masters ≡ true) × ((h m).node_name ≡ (h r).node_name)
  unfolding hosts_master
  hosts_master-true [] r e = absurd (cc e)
  hosts_master-true (q ∷ masters) r e =
      elim (Bool-cases (text_eq (h q).node_name (h r).node_name)) [
        | inl b ↦ (q, ground arith, (text_eq_iff (h q).node_name (h r).node_name).0 b)
        | inr b ↦
            let rest = hosts_master-true masters r (let f = e in rw b at (f)) in
            (rest.0, ground (arith, rest.1), rest.2)
      ]

  has-all_masters :
      (cur : List Ref) (new : Dict Text Ref) (m : Ref)
      → has m (cur ++ map (λ e. e.1) new) ≡ true
      → (has m cur ≡ true) ⊎ ChosenIn m new
  has-all_masters [] [] m e = inl e
  has-all_masters [] ((name, r) ∷ new) m e = elim (Bool-cases (r == m)) [
    | inl b ↦ inr (inl (ground arith))
    | inr b ↦ elim (has-all_masters [] new m (ground arith)) [ inl f ↦ inl f | inr k ↦ inr (inr k) ]
  ]
  has-all_masters (r ∷ cur) new m e = elim (Bool-cases (r == m)) [
    | inl b ↦ inl (ground arith)
    | inr b ↦ elim (has-all_masters cur new m (ground arith)) [
      | inl k ↦ inl (ground arith)
      | inr k ↦ inr k
    ]
  ]

  all_masters-has :
      (cur : List Ref) (new : Dict Text Ref) (m : Ref)
      → (has m cur ≡ true) ⊎ ChosenIn m new
      → has m (cur ++ map (λ e. e.1) new) ≡ true
  all_masters-has [] [] m (inl e) = e
  all_masters-has [] [] m (inr k) = elim k [ ]
  all_masters-has [] ((name, r) ∷ new) m (inl e) = absurd (cc e)
  all_masters-has [] ((name, r) ∷ new) m (inr (inl e)) = ground arith
  all_masters-has [] ((name, r) ∷ new) m (inr (inr k)) =
      ground (arith, all_masters-has [] new m (inr k))
  all_masters-has (r ∷ cur) new m (inl e) = elim (Bool-cases (r == m)) [
    | inl b ↦ ground arith
    | inr b ↦ ground (arith, all_masters-has cur new m (inl (ground arith)))
  ]
  all_masters-has (r ∷ cur) new m (inr k) = ground (arith, all_masters-has cur new m (inr k))

  hosts_master-Spread :
      (c : Ctx) (r : Ref) → hosts_master h (all_masters h c) r ≡ false → Spread c r
  unfolding all_masters
  hosts_master-Spread c r e m i =
      hosts_master-false (all_masters h c) r m e
        (all_masters-has c.current_masters c.new_masters_by_sts m i)

  hosts_master-Shared : (c : Ctx) (r : Ref) → hosts_master h (all_masters h c) r ≡ true → Shared c r
  unfolding all_masters
  hosts_master-Shared c r e =
      let found = hosts_master-true (all_masters h c) r e in
      (found.0, has-all_masters c.current_masters c.new_masters_by_sts found.0 found.1, found.2)

  find_free-some :
      (masters nodes : List Ref) (r : Ref)
      → find_free h masters nodes ≡ some r
      → (has r nodes ≡ true) × (hosts_master h masters r ≡ false)
  unfolding find_free
  find_free-some masters [] r e = absurd (ground arith)
  find_free-some masters (q ∷ nodes) r e = elim (Bool-cases (hosts_master h masters q)) [
    | inl b ↦
        let rest = find_free-some masters nodes r (let f = e in rw b at (f)) in
        (ground (arith, rest.0), rest.1)
    | inr b ↦
        let same : q ≡ r = ground arith in
        (ground arith, ap (hosts_master h masters) (sym same) ∙ b)
  ]

  find_free-none :
      (masters nodes : List Ref)
      → find_free h masters nodes ≡ none
      → (r : Ref) → has r nodes ≡ true
      → hosts_master h masters r ≡ true
  unfolding find_free
  find_free-none masters [] e r m = absurd (ground arith)
  find_free-none masters (q ∷ nodes) e r m = elim (Bool-cases (hosts_master h masters q)) [
    | inl b ↦
        let later : find_free h masters nodes ≡ none = (let f = e in rw b at (f)) in
        elim (Bool-cases (q == r)) [
          | inl same ↦ let here : q ≡ r = ground arith in rw (sym here) b
          | inr other ↦ find_free-none masters nodes later r (ground arith)
        ]
    | inr b ↦ absurd (ground arith)
  ]

  -- PlaceMasters takes a node of the stateful set: one whose host has no master, neither of those that
  -- were there nor of those chosen for a stateful set so far; or, when every node of the set shares its
  -- host with such a master, any node, and it notes that the masters are not spread. The condition is
  -- that the stateful set has nodes.
  pub place_masters-IsPlaced :
      (c : Ctx) (ss_name : Text) (nodes : List Ref)
      → lookup ss_name c.nodes ≡ some nodes
      → 0 < length nodes
      → (r : Ref × Ctx) × (place_masters h c ss_name ≡ some r) × IsPlaced c nodes r.0 r.1
  unfolding place_masters placed first_node
  place_masters-IsPlaced c ss_name [] e l = absurd (omega arith)
  place_masters-IsPlaced c ss_name (r ∷ rs) e l =
      elim (Option-cases (find_free h (all_masters h c) (r ∷ rs))) [
        | inl n ↦ (
          (r, record c { best_effort = true }),
          rw (e) (rw n refl),
          record {
            member = ground arith;
            spread = inr (
              λ q i. hosts_master-Shared c q (find_free-none (all_masters h c) (r ∷ rs) n q i),
              refl,
            );
          },
        )
        | inr (m, f) ↦
            let facts = find_free-some (all_masters h c) (r ∷ rs) m f in
            (
              (m, c),
              rw (e) (rw f refl),
              record { member = facts.0; spread = inl (hosts_master-Spread c m facts.1, refl) },
            )
      ]

  -- The master of a stateful set: its only master with slots, or any node if it has none.
  pub record IsChosen (nodes : List Ref) (m : Ref) : Type 0 where
    pub member : has m nodes ≡ true
    pub only :
        (filter_refs h is_master_with_slot nodes ≡ [])
        ⊎ (filter_refs h is_master_with_slot nodes ≡ m ∷ [])

  pub has-filter_refs :
      (f : Node → Bool) (nodes : List Ref) (m : Ref)
      → has m (filter_refs h f nodes) ≡ true
      → has m nodes ≡ true
  unfolding filter_refs
  has-filter_refs f [] m e = e
  has-filter_refs f (q ∷ nodes) m e = ground (arith, has-filter_refs f nodes m)

  abbrev pub AllChosen : Ctx → Type 0
  AllChosen c =
      (name : Text) (m : Ref)
      → lookup name c.new_masters_by_sts ≡ some m
      → (nodes : List Ref) × (lookup name c.nodes ≡ some nodes) × IsChosen nodes m

  abbrev pub Filled : Ctx → Type 0
  Filled c = (name : Text) (nodes : List Ref) → lookup name c.nodes ≡ some nodes → 0 < length nodes

  -- A step keeps the groups and the masters that there are.
  pub record Extends (c c' : Ctx) : Type 0 where
    pub nodes : c'.nodes ≡ c.nodes
    pub cluster_name : c'.cluster_name ≡ c.cluster_name
    pub masters :
        (name : Text) (m : Ref)
        → lookup name c.new_masters_by_sts ≡ some m
        → (m' : Ref) × (lookup name c'.new_masters_by_sts ≡ some m')

  -- What a failed dispatch has found.
  abbrev pub Fault : Ctx → PlacementError → Type 0
  Fault c (missing_stateful_set name) = lookup name c.nodes ≡ none
  Fault c (split_brain name) =
      (nodes : List Ref) × (lookup name c.nodes ≡ some nodes)
      × (1 < length (filter_refs h is_master_with_slot nodes))
