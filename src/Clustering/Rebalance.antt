-- ===== src/Clustering/Rebalance.antt =====
-- pkg/controller/clustering/rebalance.go: RebalancedCluster, which moves slots until each master
-- has its share, and AllocSlots, which deals all slots out to new masters. Log output is left out.
pub mod Totals
pub mod Moves
pub mod Window
pub mod Drain
pub mod Steps
pub mod Levels
pub mod Level
pub mod Orders
pub mod Shares
pub mod Told
pub mod Tells
pub mod Gains
pub mod Gained
pub mod Result
pub mod Alloc
mod Examples
use redis_cluster_operator.Common.{
  ℕ, zero, suc, ◌+◌, ◌-◌, ◌*◌, ◌/◌, Bool, true, false, ◌&&◌, not, Option, none, some, List, [], ◌∷◌,
  ◌++◌, ltb, leb, ◌==◌, if◌then◌else◌, length, get_elem?, ℤ, pos, negsuc, pos_part, neg_part, ◌+ℤ◌,
  ◌-ℤ◌, ltb_ℤ,
}
use redis_cluster_operator.Node.{Node, ip_port, total_slots}
use redis_cluster_operator.Slot.{remove_slot}
use redis_cluster_operator.Clustering.{Ref, Store, update, with_balance}
use redis_cluster_operator.Admin.{
  act_importing, act_migrating, act_node, Call, set_slot_call, migrate_keys_in_slot_call, World,
  Replies, issue, succeeds, set_node_slots, set_node_balance,
}
use redis_cluster_operator.Clustering.Migration.Dispatch.{Outcome, continue_with}

-- The first loop: how many slots each master has more than its share.
unfoldable pub set_balances : ℕ → List Ref → Store → Store
set_balances expected [] h = h
set_balances expected (r ∷ rs) h =
    set_balances expected rs
      (update h r (with_balance (h r) (pos (total_slots (h r)) -ℤ pos expected)))

unfoldable pub total_balance : Store → List Ref → ℤ
total_balance h [] = pos 0
total_balance h (r ∷ rs) = (h r).balance +ℤ total_balance h rs

-- One round of `for totalBalance > 0`: the masters below their share are to get one slot more.
unfoldable pub level_node : Ref → Store → ℤ → Store × ℤ
level_node r h total =
    if ltb_ℤ (h r).balance (pos 0) && ltb_ℤ (pos 0) total
    then (update h r (with_balance (h r) ((h r).balance -ℤ pos 1)), total -ℤ pos 1)
    else (h, total)

unfoldable pub level_round : List Ref → Store × ℤ → Store × ℤ
level_round [] (h, total) = (h, total)
level_round (r ∷ rs) (h, total) = level_round rs (level_node r h total)

-- The loop, with at most `fuel` rounds; `none` is that it goes on.
unfoldable pub level : ℕ → List Ref → Store × ℤ → Option Store
level zero rs (h, total) = if ltb_ℤ (pos 0) total then none else some h
level (suc fuel) rs (h, total) =
    let rest = level fuel rs (level_round rs (h, total)) in
    if ltb_ℤ (pos 0) total then rest else some h

pub record MovedNode : Type 0 where
  pub source : Ref
  pub slot : ℕ

-- float64(numSlots) / float64(sourceTotSlots) * float64(node.TotalSlots()), rounded up for the
-- first source and down for the others. The quotients are exact here. In the code they are
-- rounded to 53 bits; with one source, as in its only call, the result rounded up is at least
-- numSlots all the same, and the loop takes no more than numSlots.
unfoldable pub share : Bool → ℕ → ℕ → ℕ → ℕ
share up num_slots zero slots = 0
share up num_slots (suc tot) slots =
    if up then (num_slots * slots + tot) / suc tot else num_slots * slots / suc tot

add_moved : Option (List MovedNode) → List MovedNode → Option (List MovedNode)
add_moved none taken = none
add_moved (some later) taken = some (taken ++ later)

-- The loop over i, for `room` = numSlots - len(moved); `none` is keys[i] out of range.
unfoldable pub take_keys : Ref → ℕ → ℕ → List ℕ → Option (List MovedNode)
unfolding add_moved
take_keys node zero room keys = some []
take_keys node (suc n) zero keys = some []
take_keys node (suc n) (suc room) [] = none
take_keys node (suc n) (suc room) (key ∷ keys) =
    add_moved (take_keys node n room keys) (record { source = node; slot = key } ∷ [])

unfoldable pub source_total : Store → List Ref → ℕ
source_total h [] = 0
source_total h (r ∷ rs) = total_slots (h r) + source_total h rs

module _ (h : Store) (num_slots tot : ℕ) where
  take_more : (ℕ → Option (List MovedNode)) → ℕ → Option (List MovedNode) → Option (List MovedNode)
  unfolding add_moved
  take_more k room none = none
  take_more k room (some taken) = add_moved (k (room - length taken)) taken

  unfoldable pub reshard_from : Bool → List Ref → ℕ → Option (List MovedNode)
  unfolding take_more
  reshard_from first [] room = some []
  reshard_from first (node ∷ rest) room =
      take_more (reshard_from false rest) room
        (take_keys node (share first num_slots tot (total_slots (h node))) room (h node).slots)

-- `sources` in the order of their numbers of slots.
unfoldable pub compute_reshard_table : Store → List Ref → ℕ → Option (List MovedNode)
unfolding source_total reshard_from
compute_reshard_table h sources num_slots =
    reshard_from h num_slots (source_total h sources) true sources num_slots

-- What follows the three calls that can fail; the two errors of SETSLOT NODE are only logged.
unfoldable pub settle_slot : Ref → ℕ → Ref → World → World
settle_slot source slot target w =
    let id = (w.store target).id in
    let owned = issue (set_slot_call (ip_port (w.store target)) act_node slot id) w in
    let left = issue (set_slot_call (ip_port (w.store source)) act_node slot id) owned in
    set_node_slots source (remove_slot (left.store source).slots slot) left

unfoldable pub move_slot : Replies → Ref → ℕ → Ref → World → Outcome
unfolding settle_slot
move_slot replies source slot target w =
    let from = ip_port (w.store source) in
    let take = set_slot_call (ip_port (w.store target)) act_importing slot (w.store target).id in
    let give = set_slot_call from act_migrating slot (w.store source).id in
    let move = migrate_keys_in_slot_call from target slot in
    let taking = issue take w in
    let giving = issue give taking in
    let moving = issue move giving in
    if not (succeeds replies take w)
    then (taking, some take)
    else if not (succeeds replies give taking)
    then (giving, some give)
    else if not (succeeds replies move giving)
    then (moving, some move)
    else (settle_slot source slot target moving, none)

-- The loop over the table ends at the first error.
unfoldable pub move_table : Replies → Ref → List MovedNode → World → Outcome
unfolding move_slot continue_with
move_table replies dst [] w = (w, none)
move_table replies dst (e ∷ table) w =
    continue_with (move_table replies dst table) (move_slot replies e.source e.slot dst w)

abs : ℤ → ℕ
abs a = pos_part a + neg_part a

-- How many slots the two masters are to exchange.
unfoldable pub num_slots_between : Node → Node → ℕ
unfolding abs
num_slots_between dst src =
    if ltb (abs dst.balance) (abs src.balance) then abs dst.balance else abs src.balance

moved_by : Replies → Ref → World → Option (List MovedNode) → Option Outcome
unfolding move_table
moved_by replies dst w none = none
moved_by replies dst w (some table) = some (move_table replies dst table w)

unfoldable pub exchange : Replies → Ref → Ref → ℕ → World → Option Outcome
unfolding moved_by compute_reshard_table
exchange replies dst src zero w = some (w, none)
exchange replies dst src (suc n) w =
    moved_by replies dst w (compute_reshard_table w.store (src ∷ []) (suc n))

-- "Update nodes balance."
unfoldable pub update_balances : Ref → Ref → ℕ → World → World
update_balances dst src n w =
    let w' = set_node_balance dst ((w.store dst).balance +ℤ pos n) w in
    set_node_balance src ((w'.store src).balance -ℤ pos n) w'

after_exchange : (World → Option Outcome) → Option Outcome → Option Outcome
after_exchange k none = none
after_exchange k (some (w, some failed)) = some (w, some failed)
after_exchange k (some (w, none)) = k w

both : (Ref → Ref → Option Outcome) → Option Ref → Option Ref → Option Outcome
both k (some d) (some s) = k d s
both k _ _ = none

-- The loop over the masters in the order of their balances, from both ends; `none` is that it
-- goes on after `fuel` rounds, or an index out of range.
module _ (replies : Replies) (sn : List Ref) where
  unfoldable pub drain_round : (ℕ → ℕ → World → Option Outcome) → ℕ → ℕ → World → Option Outcome
  unfolding abs exchange update_balances after_exchange both
  drain_round k dst_idx src_idx w =
      both
        (λ dst src.
          let n = num_slots_between (w.store dst) (w.store src) in
          after_exchange
            (λ moved.
              let w' = update_balances dst src n moved in
              k (if abs (w'.store dst).balance == 0 then dst_idx + 1 else dst_idx)
                (if abs (w'.store src).balance == 0 then src_idx - 1 else src_idx) w')
            (exchange replies dst src n w))
        (get_elem? sn dst_idx) (get_elem? sn src_idx)

  unfoldable pub drain : ℕ → ℕ → ℕ → World → Option Outcome
  unfolding drain_round
  drain zero dst_idx src_idx w = if ltb dst_idx src_idx then none else some (w, none)
  drain (suc fuel) dst_idx src_idx w =
      let rest = drain_round (drain fuel) dst_idx src_idx w in
      if ltb dst_idx src_idx then rest else some (w, none)

unfoldable pub drain_levelled :
    Replies → (Store → List Ref → List Ref) → List Ref → ℕ → World → Option Store → Option Outcome
unfolding drain
drain_levelled replies sorted new fuel w none = none
drain_levelled replies sorted new fuel w (some h) =
    let sn = sorted h new in drain replies sn fuel 0 (length sn - 1) (record w { store = h })

-- `sorted` is SortByFunc by the balances, and hash_slots is GetHashMaxSlot() + 1.
unfoldable pub rebalanced_cluster :
    ℕ → Replies → (Store → List Ref → List Ref) → ℕ → List Ref → World → Option Outcome
unfolding drain_levelled level
rebalanced_cluster fuel replies sorted hash_slots [] w = some (w, none)
rebalanced_cluster fuel replies sorted hash_slots (r ∷ rs) w =
    let new = r ∷ rs in
    let h = set_balances (hash_slots / length new) new w.store in
    drain_levelled replies sorted new fuel w (level fuel new (h, total_balance h new))
