-- ===== src/Lib.antt =====
-- redis-cluster-operator: the core of the operator that runs Redis clusters on
-- Kubernetes.
--
-- The operator watches DistributedRedisCluster resources. On each round it reads
-- the nodes of the running cluster over the Redis protocol, repairs what is broken
-- (pkg/controller/heal), chooses masters and replicas and spreads them
-- over stateful sets, and moves hash slots to the masters that should own them
-- (pkg/controller/clustering), all through the administration interface
-- of pkg/redisutil.
--
-- Which file models which part:
--
--   Common      lists, texts, decimal numerals, sorting, dictionaries and integers
--               that the parts share.
--   Slot        pkg/redisutil/slot.go: ranges of slots, their printed forms and the
--               decoder of `CLUSTER NODES`, and the operations on slot slices.
--               A slot is a Go uint64, written as a number below 2 ^ 64 with its
--               wrap-around where the code adds to it.
--   Node        pkg/redisutil/node.go: the record of a node, its role, its failure
--               flags and its address.
--   Clustering  what the planners share: a Go pointer to a node is a `Ref`, an index
--               into a `Store`, so that two maps with the same pointer share the node.
--   Clustering/Migration
--               pkg/controller/clustering/migration.go: the plan that gives each
--               slot to a master (Plan, Lost, Surplus, Removed, Fill), the moves that follow
--               from two placements (Feed, with their owners in Feed/Owners), and their execution
--               (Dispatch).
--   Admin       pkg/redisutil/admin.go as its callers see it: a call is
--               logged in the `World`, and a parameter gives its reply. The world holds
--               the store, so what a call sees and what the code then books are in order.
--
--   Clustering/Rebalance
--               pkg/controller/clustering/rebalance.go: balances, their levelling (Levels,
--               Level), the loop over the masters from both ends (Drain, Steps, Window), the moves
--               of single slots (Moves), what the nodes are told about them (Told,
--               Tells) and how that makes up their shares (Gains, Gained), and AllocSlots (Alloc).
--   Clustering/Placement
--               pkg/controller/clustering/placement_v2.go and roles.go: the choice of a master
--               for each stateful set, the slaves of each master, and their attachment.
--   Heal        pkg/controller/heal: split clusters (Split, Reassign), failed nodes (Ghosts) and
--               untrusted nodes (Untrusted, Untrusted/Suspects), over the views of pkg/redisutil/clusterinfo.go.
--   Status      pkg/controller/distributedrediscluster/status.go: the status of the resource (Counters, Factors)
--               and its comparison with the old one (Compared).
--   Views       pkg/redisutil/clusterinfo.go: the views of the nodes, decoded from CLUSTER NODES, and
--               whether they agree (Check, Signature, Agree), with GetClusterInfos of admin.go.
--   Pool        pkg/redisutil/connections.go: the connections, and what admin.go does over them
--               (Commands); MigrateKeysInSlot is recursion on fuel, one round for each batch of keys and
--               one more (Migrate).
--   Memory      pkg/utils/parse.go: sizes of memory with units. An int64 wraps around.
--   Kube        pkg/k8sutil/util.go: the errors of the Kubernetes API, and which are tried again.
--   Resource    pkg/apis/redis/v1alpha1: the DistributedRedisCluster and its defaults (default.go).
--   Backup      pkg/controller/redisclusterbackup: the job of a backup (Job), its handler
--               (Handle for a running job, Create), which jobs it creates (Launch, Jobs), the phases of a backup (Ending,
--               Phases), and the containers of a job (Containers).
--   Sync        pkg/controller/distributedrediscluster/sync_handler.go: syncCluster, which composes
--               the planners, and scalingDown (Removal).
--   Reconcile   pkg/controller/distributedrediscluster: a round of the controller (Round), with
--               ensureCluster and the start of a restore (Ensure).
--
-- Iteration over a Go map has no fixed order. Each such loop takes its order as a
-- parameter, a function that returns a permutation of the entries, and the
-- theorems hold for all of them.
--
-- Loops over slices are structural recursion. The loop of BuildSlotSlice, which runs on a
-- wrapping counter, is recursion on fuel: 2 ^ 64 rounds are enough for every bound but the
-- largest one, where no number of rounds is. The two loops of RebalancedCluster are recursion on
-- fuel as well: one round for each slot and each master is enough, when the first one ends at all.
--
-- Where the code leaves more to the runtime, such as how an unstable sort orders equal nodes or
-- whether an append reuses the array of its slice, the choice is a parameter as well.
--
-- Quotients of floats are exact quotients of numbers, where the rounding cannot change what the
-- code does with them; the reason stands at each of the definitions.
--
-- The controllers are written with the actions of Common/Actions: code that changes a state and may
-- fail, and keeps what it has done when it fails. A call of the Kubernetes API, or of a running
-- cluster, is a request; a parameter answers the latest request of a history, so an answer may be an
-- error and may differ from call to call. The theorems hold for all answers.
--
-- Not modelled: the log lines, the Kubernetes client and what its objects hold beyond the fields
-- that the code computes, the wire protocol of Redis, the panics on a nil node in waitForClusterJoin and
-- on a nil backup at the end of a restore, and generated code. A round of Reconcile takes the
-- repairs and syncCluster as requests; Heal and Sync model what these do.

pub mod Common
pub mod Slot
pub mod Node
pub mod Clustering
pub mod Admin
pub mod Heal
pub mod Status
pub mod Kube
pub mod Backup
pub mod Resource
pub mod Sync
pub mod Reconcile
pub mod Views
pub mod Memory
pub mod Pool
