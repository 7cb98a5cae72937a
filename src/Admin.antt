-- ===== src/Admin.antt =====
-- The redis administration interface, IAdmin (pkg/redisutil/admin.go), as its callers see it: a
-- call goes out, and succeeds or fails. The replies may depend on all calls made before.
use redis_cluster_operator.Common.{ℕ, Bool, true, List, [], ◌∷◌, ◌++◌, Text, ℤ, ◌≡◌, refl}
use redis_cluster_operator.Clustering.{Ref, Store, update, with_slots, with_balance}

-- The third word of CLUSTER SETSLOT.
pub data SlotAction : Type 0 where
  act_importing act_migrating act_node : SlotAction

-- What is deleted when a stateful set goes; the claims go by their labels, named for it.
pub data ResourceKind : Type 0 where
  stateful_set_kind service_kind disruption_budget_kind claims_kind : ResourceKind

-- The calls that change the redis cluster, those of its connections, and those of
-- the Kubernetes API that delete or change a resource;
-- a Ref stands for a *Node argument.
pub data Call : Type 0 where
  add_slots_call : (addr : Text) (slots : List ℕ) → Call
  set_slots_call : (addr : Text) (action : SlotAction) (slots : List ℕ) (node_id : Text) → Call
  set_slot_call : (addr : Text) (action : SlotAction) (slot : ℕ) (node_id : Text) → Call
  migrate_keys_call : (addr : Text) (dest : Ref) (slots : List ℕ) → Call
  migrate_keys_in_slot_call : (addr : Text) (dest : Ref) (slot : ℕ) → Call
  attach_slave_call : (slave : Ref) (master_id : Text) → Call
  forget_node_call : (id : Text) → Call
  attach_node_call : (addr : Text) → Call
  flush_and_reset_call : (addr : Text) → Call
  replace_all_call : (addrs : List Text) → Call
  delete_pod_call : (name : Text) → Call
  remove_connection_call : (addr : Text) → Call
  update_status_call : Call
  get_stateful_set_call : (name : Text) → Call
  delete_call : (kind : ResourceKind) → (name : Text) → Call
  wait_terminating_call : (name : Text) → Call

-- The nodes in memory, and the calls made so far, the latest first.
pub record World : Type 0 where
  pub store : Store
  pub calls : List Call

-- Whether the latest call of a history succeeds.
abbrev pub Replies : Type 0
Replies = List Call → Bool

abbrev pub issue : Call → World → World
issue call w = record w { calls = call ∷ w.calls }

abbrev pub succeeds : Replies → Call → World → Bool
succeeds replies call w = replies (call ∷ w.calls)

-- node.Slots = slots
unfoldable pub set_node_slots : Ref → List ℕ → World → World
set_node_slots r slots w = record w { store = update w.store r (with_slots (w.store r) slots) }

-- node.SetBalance(balance)
unfoldable pub set_node_balance : Ref → ℤ → World → World
set_node_balance r b w = record w { store = update w.store r (with_balance (w.store r) b) }

-- The calls of a list, one after the other, on top of a history.
abbrev pub pushed : List Call → List Call → List Call
pushed [] hist = hist
pushed (c ∷ cs) hist = pushed cs (c ∷ hist)

-- Each of them succeeds when its turn comes.
abbrev pub AllSucceed : Replies → List Call → List Call → Type 0
AllSucceed replies [] hist = Unit
AllSucceed replies (c ∷ cs) hist = (replies (c ∷ hist) ≡ true) × AllSucceed replies cs (c ∷ hist)

pub pushed-append : (xs ys hist : List Call) → pushed (xs ++ ys) hist ≡ pushed ys (pushed xs hist)
pushed-append [] ys hist = refl
pushed-append (x ∷ xs) ys hist = pushed-append xs ys (x ∷ hist)
