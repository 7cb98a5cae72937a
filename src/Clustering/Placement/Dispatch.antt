-- ===== src/Clustering/Placement/Dispatch.antt =====
-- DispatchMasters (pkg/controller/clustering/placement_v2.go): a master for each stateful set.
use mathlib.Core.Path.{subst}
use redis_cluster_operator.Common.{
  ◌<◌, ◌≡◌, refl, sym, ◌∙◌, ap, true, false, Option, none, some, List, [], ◌∷◌, inl, inr,
  Bool-cases, has, Text, text_eq, text_eq_iff, text_eq_key, lookup, lookup-insert, insert, length,
  arith,
}
use redis_cluster_operator.Node.{is_master_with_slot}
use redis_cluster_operator.Clustering.{Ref, Store}
use redis_cluster_operator.Clustering.Placement.{
  Ctx, PlacementError, missing_stateful_set, split_brain, filter_refs, place_masters, set_master,
  set_placed, choose_master, dispatch_sts,
}
use redis_cluster_operator.Clustering.Placement.Chosen.{
  IsChosen, AllChosen, Filled, Extends, Fault, place_masters-IsPlaced, has-filter_refs,
}

module _ (h : Store) where
  -- The choice for one stateful set.
  abbrev pub Step : Ctx → Text → Ctx × Option PlacementError → Type 0
  Step c name (c', none) =
      AllChosen h c' × Extends h c c' × ((m : Ref) × (lookup name c'.new_masters_by_sts ≡ some m))
  Step c name (c', some e) = Fault h c e

  set_master-Step :
      (c c1 : Ctx) (name : Text) (m : Ref) (nodes : List Ref)
      → AllChosen h c
      → c1.nodes ≡ c.nodes
      → c1.cluster_name ≡ c.cluster_name
      → c1.new_masters_by_sts ≡ c.new_masters_by_sts
      → lookup name c.nodes ≡ some nodes
      → IsChosen h nodes m
      → Step c name (set_master h name m c1, none)
  unfolding set_master
  set_master-Step c c1 name m nodes all en ec em e chosen =
      let new = insert name m c1.new_masters_by_sts in
      let hit : (other : Text) → text_eq name other ≡ true → lookup other new ≡ some m =
        λ other b. lookup-insert name other m c1.new_masters_by_sts ∙ rw b refl in
      let miss : (other : Text)
          → text_eq name other ≡ false
          → lookup other new ≡ lookup other c.new_masters_by_sts =
        λ other b. lookup-insert name other m c1.new_masters_by_sts ∙ rw b (ap (lookup other) em) in
      (
        (λ other m' l. elim (Bool-cases (text_eq name other)) [
          | inl b ↦
              let same : name ≡ other = (text_eq_iff name other).0 b in
              let found : some m ≡ some m' = sym (hit other b) ∙ l in
              let same_m : m ≡ m' = ground (arith, found) in
              (
                nodes,
                ap (lookup other) en ∙ ap (λ t. lookup t c.nodes) (sym same) ∙ e,
                subst (IsChosen h nodes) same_m chosen,
              )
          | inr b ↦
              let old = all other m' (sym (miss other b) ∙ l) in
              (old.0, ap (lookup other) en ∙ old.1, old.2)
        ]),
        record {
          nodes = en;
          cluster_name = ec;
          masters = λ other m' l. elim (Bool-cases (text_eq name other)) [
            | inl b ↦ (m, hit other b)
            | inr b ↦ (m', miss other b ∙ l)
          ];
        },
        (m, hit name ((text_eq_iff name name).1 refl)),
      )

  -- One round never panics when no group is empty.
  abbrev pub Steps : Ctx → Text → Option (Ctx × Option PlacementError) → Type 0
  Steps c name r = (s : Ctx × Option PlacementError) × (r ≡ some s) × Step c name s

  place-Steps :
      (c : Ctx) (name : Text) (nodes : List Ref)
      → AllChosen h c
      → lookup name c.nodes ≡ some nodes
      → 0 < length nodes
      → filter_refs h is_master_with_slot nodes ≡ []
      → Steps c name (set_placed h name (place_masters h c name))
  unfolding set_placed
  place-Steps c name nodes all e l f =
      let p = place_masters-IsPlaced h c name nodes e l in
      let m = p.0.0 in
      let chosen : IsChosen h nodes m = record { member = p.2.member; only = inl f } in
      rw p.1 (
        (set_master h name m p.0.1, none),
        refl,
        elim p.2.spread [
          | inl (_, same) ↦
              set_master-Step c p.0.1 name m nodes all (ap (λ t. t.nodes) same)
                (ap (λ t. t.cluster_name) same) (ap (λ t. t.new_masters_by_sts) same) e chosen
          | inr (_, same) ↦
              set_master-Step c p.0.1 name m nodes all (ap (λ t. t.nodes) same)
                (ap (λ t. t.cluster_name) same) (ap (λ t. t.new_masters_by_sts) same) e chosen
        ],
      )

  choose-Steps :
      (c : Ctx) (name : Text) (nodes found : List Ref)
      → AllChosen h c
      → lookup name c.nodes ≡ some nodes
      → 0 < length nodes
      → filter_refs h is_master_with_slot nodes ≡ found
      → Steps c name (choose_master h name c found)
  unfolding choose_master
  choose-Steps c name nodes [] all e l f = place-Steps c name nodes all e l f
  choose-Steps c name nodes (m ∷ []) all e l f =
      let member : has m nodes ≡ true =
        has-filter_refs h is_master_with_slot nodes m (rw f (ground arith)) in
      (
        (set_master h name m c, none),
        refl,
        set_master-Step c c name m nodes all refl refl refl e
            (record { member = member; only = inr f }),
      )
  choose-Steps c name nodes (m ∷ m' ∷ more) all e l f =
      ((c, some (split_brain name)), refl, (nodes, e, rw f (omega arith)))

  pub dispatch_sts-Steps :
      (c : Ctx) (name : Text) (found : Option (List Ref))
      → AllChosen h c
      → Filled h c
      → lookup name c.nodes ≡ found
      → Steps c name (dispatch_sts h name c found)
  unfolding dispatch_sts
  dispatch_sts-Steps c name none all fill e = ((c, some (missing_stateful_set name)), refl, e)
  dispatch_sts-Steps c name (some nodes) all fill e =
      choose-Steps c name nodes (filter_refs h is_master_with_slot nodes) all e (fill name nodes e)
        refl
