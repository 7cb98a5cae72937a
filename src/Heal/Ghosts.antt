-- ===== src/Heal/Ghosts.antt =====
-- FixFailedNodes (pkg/controller/heal/failednodes.go).
use redis_cluster_operator.Common.{
  ◌≡◌, refl, ◌∙◌, Bool, true, false, ◌&&◌, ◌||◌, not, Option, none, some, List, [], ◌∷◌,
  if◌then◌else◌, inl, inr, Bool-cases, Text, text_eq, Dict, text_eq_key, lookup, insert,
  lookup-insert, arith,
}
use redis_cluster_operator.Node.{
  Node, Nodes, has_status, status_no_addr, status_fail, status_pfail, text_mem,
}
use redis_cluster_operator.Clustering.{MapOrder}
use redis_cluster_operator.Admin.{Call, forget_node_call, World, Replies, pushed}
use redis_cluster_operator.Heal.{Infos, try_call}

-- The two tests for a node that another node knows; `status` holds the ids of the custom resource.
unfoldable pub ghost_node : List Text → Node → Dict Text Bool → Dict Text Bool
ghost_node status n set =
    let unaddressed = if has_status n status_no_addr then insert n.id true set else set in
    if (has_status n status_fail || has_status n status_pfail) && not (text_mem n.id status)
    then insert n.id true unaddressed
    else unaddressed

unfoldable pub ghost_friends : List Text → Nodes → Dict Text Bool → Dict Text Bool
unfolding ghost_node
ghost_friends status [] set = set
ghost_friends status (n ∷ ns) set = ghost_friends status ns (ghost_node status n set)

-- `none` is the dereference of a nil entry.
unfoldable pub ghost_views : List Text → Infos → Dict Text Bool → Option (Dict Text Bool)
unfolding ghost_friends
ghost_views status [] set = some set
ghost_views status ((addr, none) ∷ infos) set = none
ghost_views status ((addr, some view) ∷ infos) set =
    ghost_views status infos (ghost_friends status view.friends set)

unfoldable pub list_ghost_nodes : List Text → Infos → Option (Dict Text Bool)
unfolding ghost_views
list_ghost_nodes status infos = ghost_views status infos []

unfoldable pub forget_nodes : Replies → Dict Text Bool → World × List Call → World × List Call
unfolding try_call
forget_nodes replies [] s = s
forget_nodes replies ((id, b) ∷ set) s =
    forget_nodes replies set (try_call replies (forget_node_call id) s)

-- Whether an action was due, what was done, and the calls whose errors are aggregated.
abbrev pub Repaired : Type 0
Repaired = Bool × World × List Call

abbrev pub some_action : {V : Type 0} → Dict Text V → Bool
some_action [] = false
some_action (x ∷ set) = true

forget_ghosts : Replies → MapOrder Bool → Bool → World → Option (Dict Text Bool) → Option Repaired
unfolding forget_nodes
forget_ghosts replies order dry_run w none = none
forget_ghosts replies order dry_run w (some set) =
    let done = forget_nodes replies (order.range set) (w, []) in
    some (if dry_run then (some_action set, w, []) else (some_action set, done.0, done.1))

unfoldable pub fix_failed_nodes :
    Replies → MapOrder Bool → (dry_run : Bool) → List Text → Infos → World → Option Repaired
unfolding forget_ghosts list_ghost_nodes
fix_failed_nodes replies order dry_run status infos w =
    forget_ghosts replies order dry_run w (list_ghost_nodes status infos)

-- A ghost: a node without an address, or one that has failed and is not in the custom resource.
abbrev pub is_ghost : List Text → Node → Bool
is_ghost status n =
    has_status n status_no_addr
    || ((has_status n status_fail || has_status n status_pfail) && not (text_mem n.id status))

abbrev pub ghost_among : List Text → Text → Nodes → Bool
ghost_among status id [] = false
ghost_among status id (n ∷ ns) = (text_eq n.id id && is_ghost status n) || ghost_among status id ns

-- Some view has a ghost with the id.
abbrev pub ghost_in : List Text → Text → Infos → Bool
ghost_in status id [] = false
ghost_in status id ((addr, none) ∷ infos) = ghost_in status id infos
ghost_in status id ((addr, some view) ∷ infos) =
    ghost_among status id view.friends || ghost_in status id infos

abbrev pub all_present : Infos → Bool
all_present [] = true
all_present ((addr, none) ∷ infos) = false
all_present ((addr, some view) ∷ infos) = all_present infos

ghost_node_lem :
    (status : List Text) (n : Node) (set : Dict Text Bool) (id : Text)
    → lookup id (ghost_node status n set)
      ≡ (if text_eq n.id id && is_ghost status n then some true else lookup id set)
unfolding ghost_node
ghost_node_lem status n set id =
    let one = lookup-insert n.id id true set in
    let two = lookup-insert n.id id true (insert n.id true set) in ground (arith, one, two)

ghost_friends_lem :
    (status : List Text) (ns : Nodes) (set : Dict Text Bool) (id : Text)
    → lookup id (ghost_friends status ns set)
      ≡ (if ghost_among status id ns then some true else lookup id set)
unfolding ghost_friends
ghost_friends_lem status [] set id = refl
ghost_friends_lem status (n ∷ ns) set id =
    let rest = ghost_friends_lem status ns (ghost_node status n set) id in
    let one = ghost_node_lem status n set id in
    let mine = text_eq n.id id && is_ghost status n in
    elim (Bool-cases (text_eq n.id id && is_ghost status n)) [
      | inl e ↦ rw e (
          rest ∙ elim (Bool-cases (ghost_among status id ns)) [
            | inl f ↦ rw f refl
            | inr f ↦ rw f (one ∙ rw e refl)
          ])
      | inr e ↦ rw e (
          rest ∙ elim (Bool-cases (ghost_among status id ns)) [
            | inl f ↦ rw f refl
            | inr f ↦ rw f (one ∙ rw e refl)
          ])
    ]

ghost_views_lem :
    (status : List Text) (infos : Infos) (set : Dict Text Bool)
    → all_present infos ≡ true
    → (s : Dict Text Bool) × (ghost_views status infos set ≡ some s)
      × ((id : Text)
          → lookup id s ≡ (if ghost_in status id infos then some true else lookup id set))
unfolding ghost_views
ghost_views_lem status [] set p = (set, refl, λ id. refl)
ghost_views_lem status ((addr, none) ∷ infos) set p = absurd (ground arith)
ghost_views_lem status ((addr, some view) ∷ infos) set p =
    let rest = ghost_views_lem status infos (ghost_friends status view.friends set) p in
    (
      rest.0,
      rest.1,
      λ id.
          let friends = ghost_friends_lem status view.friends set id in
          rest.2 id ∙ elim (Bool-cases (ghost_among status id view.friends)) [
            | inl e ↦ elim (Bool-cases (ghost_in status id infos)) [
              | inl f ↦ rw (e, f) refl
              | inr f ↦ rw (e, f) (friends ∙ rw e refl)
            ]
            | inr e ↦ elim (Bool-cases (ghost_in status id infos)) [
              | inl f ↦ rw (e, f) refl
              | inr f ↦ rw (e, f) (friends ∙ rw e refl)
            ]
          ],
    )

abbrev pub forgets : Dict Text Bool → List Call
forgets [] = []
forgets ((id, b) ∷ set) = forget_node_call id ∷ forgets set

forget_nodes_calls :
    (replies : Replies) (set : Dict Text Bool) (s : World × List Call)
    → (forget_nodes replies set s).0.calls ≡ pushed (forgets set) s.0.calls
unfolding forget_nodes try_call
forget_nodes_calls replies [] s = refl
forget_nodes_calls replies ((id, b) ∷ set) (w, errs) =
    forget_nodes_calls replies set (try_call replies (forget_node_call id) (w, errs))

-- The set has just the ids of the ghosts, and its entries are forgotten, unless it is a dry run.
pub record IsForgotten (order : MapOrder Bool) (dry_run : Bool) (status : List Text) (infos : Infos)
    (w : World) (r : Repaired) : Type 0 where
  pub set : Dict Text Bool
  pub ghosts : (id : Text) → lookup id set ≡ (if ghost_in status id infos then some true else none)
  pub due : r.0 ≡ some_action set
  pub made : r.1.calls ≡ pushed (if dry_run then [] else forgets (order.range set)) w.calls

-- FixFailedNodes does not panic when no view is nil. It has an action to do exactly when some view
-- has a ghost; then it forgets the ids of the ghosts and nothing else. In a dry run it makes no call.
pub fix_failed_nodes-IsForgotten :
    (replies : Replies) (order : MapOrder Bool) (dry_run : Bool) (status : List Text)
    (infos : Infos) (w : World)
    → all_present infos ≡ true
    → (r : Repaired) × (fix_failed_nodes replies order dry_run status infos w ≡ some r)
      × IsForgotten order dry_run status infos w r
unfolding fix_failed_nodes forget_ghosts list_ghost_nodes
fix_failed_nodes-IsForgotten replies order dry_run status infos w p =
    let views = ghost_views_lem status infos [] p in
    let set = views.0 in
    let done = forget_nodes replies (order.range set) (w, []) in
    let ghosts : (id : Text)
        → lookup id set ≡ (if ghost_in status id infos then some true else none) =
      λ id. views.2 id ∙ (unfold lookup in refl) in
    rw views.1 (elim (Bool-cases dry_run) [
      | inl d ↦ rw d (
        (some_action set, w, []),
        refl,
        record { set = set; ghosts = ghosts; due = refl; made = refl },
      )
      | inr d ↦ rw d (
        (some_action set, done.0, done.1),
        refl,
        record {
          set = set;
          ghosts = ghosts;
          due = refl;
          made = forget_nodes_calls replies (order.range set) (w, []);
        },
      )
    ])
