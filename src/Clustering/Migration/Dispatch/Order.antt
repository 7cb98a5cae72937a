-- ===== src/Clustering/Migration/Dispatch/Order.antt =====
-- The order of the SETSLOT NODE calls (pkg/controller/clustering/migration.go): the node that owns
-- the slots from now on is told first, so that a crash in between leaves no other node alone in
-- believing so.
use mathlib.Core.Path.{subst, ap₂}
use redis_cluster_operator.Common.{
  ℕ, ◌≡◌, refl, sym, ◌⊎◌, inl, inr, ◌||◌, not, Option, none, some, List, [], ◌∷◌, ◌==◌, Text,
  text_eq, Bool-cases, ==_iff,
}
use redis_cluster_operator.Node.{ip_port, total_slots}
use redis_cluster_operator.Clustering.{Ref, Store, MapOrder, update, with_slots}
use redis_cluster_operator.Clustering.Migration.Feed.{MigrationMap}
use redis_cluster_operator.Clustering.Migration.Feed.Sound.{feed_mig_info-IsFeed}
use redis_cluster_operator.Admin.{
  Call, act_importing, act_migrating, act_node, add_slots_call, set_slots_call, migrate_keys_call,
  World, Replies, issue, set_node_slots,
}
use redis_cluster_operator.Clustering.Migration.Dispatch.Books.{tell_other-store, tell_others-store}
use redis_cluster_operator.Clustering.Migration.Dispatch.{
  Outcome, book_in, book_out, tell_other, tell_others, hand_over, add_lost, move_slots,
  dispatch_from, continue_with, dispatch_moves, dispatch_slot_to_new_masters,
}

-- The call is in the history.
abbrev pub IsCalled : Call → List Call → Type 0
IsCalled c [] = ⊥
IsCalled c (d ∷ ds) = (d ≡ c) ⊎ IsCalled c ds

-- A SETSLOT NODE call names a node as the owner, and goes to that node, or went to it before.
abbrev pub OwnerTold : Store → Call → List Call → Type 0
OwnerTold h (set_slots_call addr act_node slots id) before =
    (to : Ref) × ((h to).id ≡ id)
    × ((addr ≡ ip_port (h to))
        ⊎ IsCalled (set_slots_call (ip_port (h to)) act_node slots id) before)
OwnerTold h _ before = Unit

-- So it was at every moment of the history.
abbrev pub OwnerFirst : Store → List Call → Type 0
OwnerFirst h [] = Unit
OwnerFirst h (c ∷ before) = OwnerTold h c before × OwnerFirst h before

-- No id and no address has changed.
abbrev pub SameNames : Store → Store → Type 0
SameNames h g = (r : Ref) → ((g r).id ≡ (h r).id) × (ip_port (g r) ≡ ip_port (h r))

SameNames-set :
    (h : Store) (r : Ref) (slots : List ℕ) (w : World)
    → SameNames h w.store
    → SameNames h (set_node_slots r slots w).store
unfolding set_node_slots update with_slots ip_port
SameNames-set h r slots w n q = elim (Bool-cases (q == r)) [
  | inl e ↦ rw e (
      subst (λ i. ((w.store r).id ≡ (h i).id) × (ip_port (w.store r) ≡ ip_port (h i)))
        (sym ((==_iff q r).0 e)) (n r))
  | inr e ↦ rw e (n q)
]

module _ (h : Store) (to : Ref) (slots : List ℕ) where
  told : Call
  told = set_slots_call (ip_port (h to)) act_node slots (h to).id

  OwnerTold-told :
      (addr id : Text) (before : List Call)
      → id ≡ (h to).id
      → IsCalled told before
      → OwnerTold h (set_slots_call addr act_node slots id) before
  unfolding told
  OwnerTold-told addr id before e c = (
    to,
    sym e,
    inr (subst (λ i. IsCalled (set_slots_call (ip_port (h to)) act_node slots i) before) (sym e) c),
  )

  tell_other-OwnerFirst :
      (from master : Ref) (w : World)
      → SameNames h w.store
      → IsCalled told w.calls
      → OwnerFirst h w.calls
      → IsCalled told (tell_other from to slots master w).calls
        × OwnerFirst h (tell_other from to slots master w).calls
  unfolding tell_other
  tell_other-OwnerFirst from master w n c o =
      let addr = ip_port (w.store master) in
      elim (Bool-cases (
        text_eq addr (ip_port (w.store to))
        || text_eq addr (ip_port (w.store from))
        || total_slots (w.store master) == 0)) [
          | inl e ↦ rw e (c, o)
          | inr e ↦ rw e (inr c, (OwnerTold-told addr _ w.calls (n to).0 c, o))
        ]

  tell_others-OwnerFirst :
      (from : Ref) (all : List Ref) (w : World)
      → SameNames h w.store
      → IsCalled told w.calls
      → OwnerFirst h w.calls
      → OwnerFirst h (tell_others all from to slots w).calls
  unfolding tell_others
  tell_others-OwnerFirst from [] w n c o = o
  tell_others-OwnerFirst from (master ∷ all) w n c o =
      let (c', o') = tell_other-OwnerFirst from master w n c o in
      tell_others-OwnerFirst from all (tell_other from to slots master w)
        (subst (SameNames h) (sym (tell_other-store from to slots master w)) n) c' o'

  -- What an operation owes: the order of the calls, and the names.
  abbrev Keeps : World → Type 0
  Keeps w = OwnerFirst h w.calls × SameNames h w.store

  hand_over-Keeps :
      (from : Ref) (all : List Ref) (w : World) → Keeps w → Keeps (hand_over all from to slots w)
  unfolding hand_over book_in book_out told
  hand_over-Keeps from all w (o, n) =
      let id = (w.store to).id in
      let target = set_slots_call (ip_port (w.store to)) act_node slots id in
      let source = set_slots_call (ip_port (w.store from)) act_node slots id in
      let moved = issue (migrate_keys_call (ip_port (w.store from)) to slots) w in
      let left = issue source (issue target moved) in
      let out = book_out from slots left in
      let same : target ≡ told = ap₂ (λ a i. set_slots_call a act_node slots i) (n to).1 (n to).0 in
      let n' : SameNames h out.store = SameNames-set h from _ left n in
      let o' : OwnerFirst h left.calls = (
        OwnerTold-told (ip_port (w.store from)) id (issue target moved).calls (n to).0 (inl same),
        ((to, sym (n to).0, inl (n to).1), (tt, o)),
      ) in
      (
        unfold set_node_slots in tell_others-OwnerFirst from all out n' (inr (inl same)) o',
        SameNames-set h to _ (tell_others all from to slots out)
            (subst (SameNames h) (sym (tell_others-store all from to slots out)) n'),
      )

  move_slots-Keeps :
      (replies : Replies) (from : Ref) (all : List Ref) (w : World)
      → Keeps w
      → Keeps (move_slots replies all from to slots w).0
  unfolding move_slots
  move_slots-Keeps replies from all w (o, n) =
      let take = set_slots_call (ip_port (w.store to)) act_importing slots (w.store from).id in
      let give = set_slots_call (ip_port (w.store from)) act_migrating slots (w.store to).id in
      let giving = issue give (issue take w) in
      elim (Bool-cases (not (replies (take ∷ w.calls)))) [
        | inl e ↦ rw e ((tt, o), n)
        | inr e ↦ elim (Bool-cases (not (replies (give ∷ take ∷ w.calls)))) [
          | inl f ↦ rw (e, f) ((tt, (tt, o)), n)
          | inr f ↦ rw (e, f) (hand_over-Keeps from all giving ((tt, (tt, o)), n))
        ]
      ]

  add_lost-Keeps : (replies : Replies) (w : World) → Keeps w → Keeps (add_lost replies to slots w).0
  unfolding add_lost set_node_slots
  add_lost-Keeps replies w (o, n) =
      let add = add_slots_call (ip_port (w.store to)) slots in
      elim (Bool-cases (replies (add ∷ w.calls))) [
        | inl e ↦ rw e ((tt, o), unfold set_node_slots in SameNames-set h to _ (issue add w) n)
        | inr e ↦ rw e ((tt, o), n)
      ]

  dispatch_from-Keeps :
      (replies : Replies) (from : Option Ref) (all : List Ref) (w : World)
      → Keeps w
      → Keeps (dispatch_from replies all from to slots w).0
  unfolding dispatch_from
  dispatch_from-Keeps replies none all w k = add_lost-Keeps replies w k
  dispatch_from-Keeps replies (some from) all w k = move_slots-Keeps replies from all w k

continue_with-Keeps :
    (h : Store) (k : World → Outcome) (o : Outcome)
    → ((w : World) → OwnerFirst h w.calls × SameNames h w.store → OwnerFirst h (k w).0.calls)
    → OwnerFirst h o.0.calls × SameNames h o.0.store
    → OwnerFirst h (continue_with k o).0.calls
unfolding continue_with
continue_with-Keeps h k (w, none) f v = f w v
continue_with-Keeps h k (w, some failed) f v = v.0

dispatch_moves-Keeps :
    (h : Store) (replies : Replies) (all : List Ref) (moves : MigrationMap) (w : World)
    → OwnerFirst h w.calls × SameNames h w.store
    → OwnerFirst h (dispatch_moves replies all moves w).0.calls
unfolding dispatch_moves
dispatch_moves-Keeps h replies all [] w v = v.0
dispatch_moves-Keeps h replies all ((info, slots) ∷ moves) w v =
    continue_with-Keeps h (dispatch_moves replies all moves)
      (dispatch_from replies all info.from info.to slots w)
      (dispatch_moves-Keeps h replies all moves)
      (dispatch_from-Keeps h info.to slots replies info.from all w v)

-- DispatchSlotToNewMasters always returns. Whatever the replies are, in whatever order the maps are
-- visited and wherever the moves stop, in the whole history of calls each SETSLOT NODE goes to the
-- new owner of the slots, or stands behind the one that went to the new owner.
pub dispatch_slot_to_new_masters-OwnerFirst :
    (replies : Replies) (order : MapOrder (List ℕ)) (range : MigrationMap → MigrationMap)
    (nb_slots : ℕ) (new current all : List Ref) (h : Store)
    → (o : Outcome) × (dispatch_slot_to_new_masters replies order range nb_slots new current all
          (record { store = h; calls = [] })
        ≡ some o)
      × OwnerFirst h o.0.calls
unfolding dispatch_slot_to_new_masters
dispatch_slot_to_new_masters-OwnerFirst replies order range nb_slots new current all h =
    let (f, e, v) = feed_mig_info-IsFeed order h new current nb_slots in
    (
      dispatch_moves replies all (range f.map_out) (record { store = h; calls = [] }),
      rw e refl,
      dispatch_moves-Keeps h replies all (range f.map_out) _ (tt, λ r. (refl, refl)),
    )
