-- ===== src/Clustering/Migration/Dispatch.antt =====
-- DispatchSlotToNewMasters (pkg/controller/clustering/migration.go): the moves, carried out through
-- the administration interface. An error is the call that failed. The error of MigrateKeys and
-- those of SETSLOT NODE are only logged.
pub mod Books
pub mod Order
use redis_cluster_operator.Common.{
  ℕ, Bool, true, false, ◌||◌, not, Option, none, some, List, [], ◌∷◌, ◌==◌, if◌then◌else◌, Text,
  text_eq,
}
use redis_cluster_operator.Node.{Node, ip_port, total_slots}
use redis_cluster_operator.Slot.{add_slots, remove_slots}
use redis_cluster_operator.Clustering.{Ref, Store, update, MapOrder}
use redis_cluster_operator.Clustering.Migration.Feed.{
  MigrationInfo, MigrationMap, Feed, feed_mig_info,
}
use redis_cluster_operator.Admin.{
  SlotAction, act_importing, act_migrating, act_node, Call, add_slots_call, set_slots_call,
  migrate_keys_call, World, Replies, issue, succeeds, set_node_slots,
}

-- An operation of the package: the new world, and the call that failed, if one did.
abbrev pub Outcome : Type 0
Outcome = World × Option Call

-- nodesInfo.To.Slots = AddSlots(nodesInfo.To.Slots, slots), and the same with RemoveSlots.
unfoldable pub book_in : Ref → List ℕ → World → World
book_in to slots w = set_node_slots to (add_slots (w.store to).slots slots) w

unfoldable pub book_out : Ref → List ℕ → World → World
book_out from slots w = set_node_slots from (remove_slots (w.store from).slots slots) w

-- The body of the loop "now tell all other nodes".
unfoldable pub tell_other : Ref → Ref → List ℕ → Ref → World → World
tell_other from to slots master w =
    let addr = ip_port (w.store master) in
    if text_eq addr (ip_port (w.store to))
      || text_eq addr (ip_port (w.store from))
      || total_slots (w.store master) == 0
    then w
    else issue (set_slots_call addr act_node slots (w.store to).id) w

unfoldable pub tell_others : List Ref → Ref → Ref → List ℕ → World → World
tell_others [] from to slots w = w
tell_others (master ∷ all) from to slots w =
    tell_others all from to slots (tell_other from to slots master w)

-- What follows the two calls that can fail.
unfoldable pub hand_over : List Ref → Ref → Ref → List ℕ → World → World
hand_over all from to slots w =
    let id = (w.store to).id in
    let target = ip_port (w.store to) in
    let source = ip_port (w.store from) in
    let moved = issue (migrate_keys_call source to slots) w in
    let owned = issue (set_slots_call target act_node slots id) moved in
    let left = issue (set_slots_call source act_node slots id) owned in
    book_in to slots (tell_others all from to slots (book_out from slots left))

-- The two branches of the loop's body: slots that were lost, and slots of another master.
unfoldable pub add_lost : Replies → Ref → List ℕ → World → Outcome
unfolding book_in
add_lost replies to slots w =
    let add = add_slots_call (ip_port (w.store to)) slots in
    if succeeds replies add w
    then (book_in to slots (issue add w), none)
    else (issue add w, some add)

unfoldable pub move_slots : Replies → List Ref → Ref → Ref → List ℕ → World → Outcome
unfolding hand_over
move_slots replies all from to slots w =
    let take = set_slots_call (ip_port (w.store to)) act_importing slots (w.store from).id in
    let give = set_slots_call (ip_port (w.store from)) act_migrating slots (w.store to).id in
    let taking = issue take w in
    let giving = issue give taking in
    if not (succeeds replies take w)
    then (taking, some take)
    else if not (succeeds replies give taking)
    then (giving, some give)
    else (hand_over all from to slots giving, none)

dispatch_from : Replies → List Ref → Option Ref → Ref → List ℕ → World → Outcome
unfolding add_lost move_slots
dispatch_from replies all none to slots w = add_lost replies to slots w
dispatch_from replies all (some from) to slots w = move_slots replies all from to slots w

unfoldable pub continue_with : (World → Outcome) → Outcome → Outcome
continue_with k (w, none) = k w
continue_with k (w, some failed) = (w, some failed)

-- The loop over the map of moves ends at the first error.
unfoldable pub dispatch_moves : Replies → List Ref → MigrationMap → World → Outcome
unfolding dispatch_from continue_with
dispatch_moves replies all [] w = (w, none)
dispatch_moves replies all ((info, slots) ∷ moves) w =
    continue_with (dispatch_moves replies all moves)
      (dispatch_from replies all info.from info.to slots w)

dispatch_feed :
    Replies → (MigrationMap → MigrationMap) → List Ref → World → Option Feed → Option Outcome
unfolding dispatch_moves
dispatch_feed replies range all w none = none
dispatch_feed replies range all w (some f) = some (dispatch_moves replies all (range f.map_out) w)

-- `range` is the order in which the runtime visits the moves.
unfoldable pub dispatch_slot_to_new_masters :
    Replies
    → MapOrder (List ℕ)
    → (MigrationMap → MigrationMap)
    → ℕ
    → List Ref
    → List Ref
    → List Ref
    → World
    → Option Outcome
unfolding dispatch_feed
dispatch_slot_to_new_masters replies order range nb_slots new current all w =
    dispatch_feed replies range all w (feed_mig_info order w.store new current nb_slots)
