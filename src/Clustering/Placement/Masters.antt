-- ===== src/Clustering/Placement/Masters.antt =====
-- NewCtx and the loop of DispatchMasters (pkg/controller/clustering/placement_v2.go).
use redis_cluster_operator.Common.{
  ℕ, zero, suc, ◌+◌, ◌≤◌, ◌<◌, ◌≡◌, refl, sym, ◌∙◌, ap, Option, none, some, List, [], ◌∷◌, ◌==◌,
  inl, inr, Bool-cases, Text, text_eq, Dict, text_eq_key, lookup, lookup-insert, length,
  length-append, if◌then◌else◌, arith,
}
use redis_cluster_operator.Clustering.{Ref, Store, append_at, append_to}
use redis_cluster_operator.Clustering.Placement.{
  Ctx, PlacementError, missing_stateful_set, split_brain, cluster_stateful_set_name, next_sts,
  dispatch_from, dispatch_masters, new_ctx, sort_nodes, group_node, stateful_set_of,
}
use redis_cluster_operator.Clustering.Placement.Chosen.{AllChosen, Filled, Extends, Fault}
use redis_cluster_operator.Clustering.Placement.Dispatch.{Step, dispatch_sts-Steps}

append_to_long : (o : Option (List Ref)) (r : Ref) → 0 < length (append_to o (r ∷ []))
unfolding append_to
append_to_long none r = omega arith
append_to_long (some rs) r = omega (arith, length-append {0} rs (r ∷ []))

lookup-nil : {V : Type 0} (name : Text) (v : V) → lookup {V = V} name [] ≡ some v → ⊥
unfolding lookup
lookup-nil name v e = cc

module _ (h : Store) where
  -- Either each of the n stateful sets from i on has a master and all masters are well chosen, or
  -- the fault that is returned is there.
  abbrev pub Dispatched : ℕ → ℕ → Ctx → Ctx × Option PlacementError → Type 0
  Dispatched n i c (c', none) =
      AllChosen h c'
      × Extends h c c'
      × ((j : ℕ)
          → i ≤ j
          → j < i + n
          → (m : Ref) × (lookup (cluster_stateful_set_name c.cluster_name j) c'.new_masters_by_sts
              ≡ some m))
  Dispatched n i c (c', some e) = Fault h c e

  Fault-back : (c c1 : Ctx) (e : PlacementError) → c1.nodes ≡ c.nodes → Fault h c1 e → Fault h c e
  Fault-back c c1 (missing_stateful_set name) en f = ap (lookup name) (sym en) ∙ f
  Fault-back c c1 (split_brain name) en f = (f.0, ap (lookup name) (sym en) ∙ f.1, f.2)

  Dispatched-next :
      (n i : ℕ) (c c1 : Ctx) (s : Ctx × Option PlacementError)
      → Step h c (cluster_stateful_set_name c.cluster_name i) (c1, none)
      → Dispatched n (suc i) c1 s
      → Dispatched (suc n) i c s
  Dispatched-next n i c c1 (c', none) first rest =
      let x = first.1 in
      let y = rest.1 in
      let mine = first.2 in
      (
        rest.0,
        record {
          nodes = y.nodes ∙ x.nodes;
          cluster_name = y.cluster_name ∙ x.cluster_name;
          masters = λ name m l. let one = x.masters name m l in y.masters name one.0 one.1;
        },
        λ j l u. elim (Bool-cases (j == i)) [
          | inl e ↦
              let here : j ≡ i = ground arith in
              let found = y.masters (cluster_stateful_set_name c.cluster_name i) mine.0 mine.1 in
              (
                found.0,
                ap (λ t. lookup (cluster_stateful_set_name c.cluster_name t) c'.new_masters_by_sts)
                      here
                    ∙ found.1,
              )
          | inr e ↦
              let found = rest.2 j (ground arith) (omega arith) in
              (
                found.0,
                ap (λ t. lookup (cluster_stateful_set_name t j) c'.new_masters_by_sts)
                      (sym x.cluster_name)
                    ∙ found.1,
              )
        ],
      )
  Dispatched-next n i c c1 (c', some e) first rest = Fault-back c c1 e (first.1).nodes rest

  next-Dispatched :
      (n i : ℕ) (c : Ctx) (s : Ctx × Option PlacementError)
      → Step h c (cluster_stateful_set_name c.cluster_name i) s
      → ((c1 : Ctx)
          → AllChosen h c1
          → c1.nodes ≡ c.nodes
          → (t : Ctx × Option PlacementError) × (dispatch_from h n (suc i) c1 ≡ some t)
            × Dispatched n (suc i) c1 t)
      → (t : Ctx × Option PlacementError) × (next_sts h (dispatch_from h n (suc i)) (some s)
          ≡ some t)
        × Dispatched (suc n) i c t
  unfolding next_sts
  next-Dispatched n i c (c1, none) step ih =
      let later = ih c1 step.0 (step.1).nodes in
      (later.0, later.1, Dispatched-next n i c c1 later.0 step later.2)
  next-Dispatched n i c (c1, some e) step ih = ((c1, some e), refl, step)

  pub dispatch_from-Dispatched :
      (n i : ℕ) (c : Ctx)
      → AllChosen h c
      → Filled h c
      → (t : Ctx × Option PlacementError) × (dispatch_from h n i c ≡ some t) × Dispatched n i c t
  unfolding dispatch_from
  dispatch_from-Dispatched zero i c all fill = (
    (c, none),
    refl,
    (
      all,
      record { nodes = refl; cluster_name = refl; masters = λ name m l. (m, l) },
      λ j l u. absurd (omega arith),
    ),
  )
  dispatch_from-Dispatched (suc n) i c all fill =
      let name = cluster_stateful_set_name c.cluster_name i in
      let step = dispatch_sts-Steps h c name (lookup name c.nodes) all fill refl in
      rw step.1 (
        next-Dispatched n i c step.0 step.2 (λ c1 all1 en.
          dispatch_from-Dispatched n (suc i) c1 all1
            (λ other nodes l. fill other nodes (ap (lookup other) (sym en) ∙ l))))

  abbrev AllFilled : Dict Text (List Ref) → Type 0
  AllFilled m = (name : Text) (nodes : List Ref) → lookup name m ≡ some nodes → 0 < length nodes

  group_node-filled :
      (o : Option Ref) (r : Ref) (m : Dict Text (List Ref))
      → AllFilled m
      → AllFilled (group_node h o r m)
  unfolding group_node
  group_node-filled none r m f name nodes l = f name nodes l
  group_node-filled (some c) r m f name nodes l =
      let key = stateful_set_of h c in
      let new = append_to (lookup key m) (r ∷ []) in
      let law : lookup name (append_at key (r ∷ []) m)
          ≡ (if text_eq key name then some new else lookup name m) =
        unfold append_at in lookup-insert key name new m in
      elim (Bool-cases (text_eq key name)) [
        | inl b ↦
            let hit : some new ≡ some nodes = sym (law ∙ rw b refl) ∙ l in
            let same : new ≡ nodes = ground (arith, hit) in
            omega (arith, ap length same, append_to_long (lookup key m) r)
        | inr b ↦ f name nodes (sym (law ∙ rw b refl) ∙ l)
      ]

  sort_nodes-filled :
      (cluster : Dict Text Ref) (rs : List Ref) (m : Dict Text (List Ref))
      → AllFilled m
      → AllFilled (sort_nodes h cluster rs m)
  unfolding sort_nodes
  sort_nodes-filled cluster [] m f = f
  sort_nodes-filled cluster (r ∷ rs) m f =
      sort_nodes-filled cluster rs _ (group_node-filled (lookup (h r).id cluster) r m f)

  -- On a new context DispatchMasters does not panic. It fails only when a stateful set is missing
  -- or has two masters with slots; otherwise each of the expected stateful sets has a master: its
  -- only master with slots, or one of its nodes if it has none.
  pub dispatch_masters-Dispatched :
      (cluster : Dict Text Ref) (nodes : List Ref) (master_num : ℕ) (name : Text)
      → (let c = new_ctx h cluster nodes master_num name in
          (t : Ctx × Option PlacementError) × (dispatch_masters h c ≡ some t)
          × Dispatched master_num 0 c t)
  unfolding dispatch_masters new_ctx
  dispatch_masters-Dispatched cluster nodes master_num name =
      dispatch_from-Dispatched master_num 0 (new_ctx h cluster nodes master_num name)
        (λ other m l. absurd (lookup-nil other m l))
        (sort_nodes-filled cluster nodes [] (λ other ns l. absurd (lookup-nil other ns l)))
