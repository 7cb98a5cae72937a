-- ===== src/Node.antt =====
-- pkg/redisutil/node.go. ServerStartTime, which no code sets, is left out with the String methods
-- that print a node for the log. A method that changes its receiver returns the new node.
pub mod Flags
mod Examples
use redis_cluster_operator.Common.{
  ℕ, suc, ◌+◌, ◌<◌, Bool, true, false, ◌&&◌, ◌||◌, Option, none, some, List, [], ◌∷◌, ◌++◌, ltb,
  ◌==◌, if◌then◌else◌, length, Text, codes, text_eq, is_empty, split, Dict, ℤ, pos, not,
}

-- redisv1alpha1.RedisRole
pub data RedisRole : Type 0 where
  role_master role_slave role_none : RedisRole

pub record Node : Type 0 where
  pub id : Text
  pub ip : Text
  pub port : Text
  pub role : Text
  pub link_state : Text
  pub master_referent : Text
  pub fail_status : List Text
  pub ping_sent : ℤ
  pub pong_recv : ℤ
  pub config_epoch : ℤ
  pub slots : List ℕ
  pub balance : ℤ
  pub migrating_slots : Dict ℕ Text
  pub importing_slots : Dict ℕ Text
  pub node_name : Text
  pub pod_name : Text
  pub stateful_set : Text

abbrev pub Nodes : Type 0
Nodes = List Node

abbrev pub redis_master_role : Text
redis_master_role = codes "master"

abbrev pub redis_slave_role : Text
redis_slave_role = codes "slave"

abbrev pub link_state_connected : Text
link_state_connected = codes "connected"

abbrev pub link_state_disconnected : Text
link_state_disconnected = codes "disconnected"

abbrev pub status_pfail : Text
status_pfail = codes "fail?"

abbrev pub status_fail : Text
status_fail = codes "fail"

abbrev pub status_handshake : Text
status_handshake = codes "handshake"

abbrev pub status_no_addr : Text
status_no_addr = codes "noaddr"

abbrev pub status_no_flags : Text
status_no_flags = codes "noflags"

abbrev pub default_redis_port : Text
default_redis_port = codes "6379"

-- The errors of the package's node functions.
pub data NodeError : Type 0 where
  set_role_failed set_link_status_failed node_not_founded : NodeError

abbrev pub new_default_node : Node
new_default_node = record {
  id = [];
  ip = [];
  port = default_redis_port;
  role = [];
  link_state = [];
  master_referent = [];
  fail_status = [];
  ping_sent = pos 0;
  pong_recv = pos 0;
  config_epoch = pos 0;
  slots = [];
  balance = pos 0;
  migrating_slots = [];
  importing_slots = [];
  node_name = [];
  pod_name = [];
  stateful_set = [];
}

-- The loop of SetRole over the flags: a later role replaces an earlier one.
role_of_flags : Text → List Text → Text
role_of_flags role [] = role
role_of_flags role (val ∷ vals) =
    role_of_flags
      (if text_eq val redis_master_role
        then redis_master_role
        else if text_eq val redis_slave_role
        then redis_slave_role
        else role)
      vals

unfoldable pub set_role : Node → Text → Node × Option NodeError
unfolding role_of_flags
set_role n flags =
    let role = role_of_flags [] (split b',' flags) in
    (record n { role = role }, if is_empty role then some set_role_failed else none)

unfoldable pub get_role : Node → RedisRole
get_role n =
    if text_eq n.role redis_master_role
    then role_master
    else if text_eq n.role redis_slave_role
    then role_slave
    else if not (is_empty n.master_referent)
    then role_slave
    else if ltb 0 (length n.slots)
    then role_master
    else role_none

has_colon : Text → Bool
has_colon [] = false
has_colon (c ∷ s) = if c == b':' then true else has_colon s

-- net.JoinHostPort: a host with a colon is put in brackets.
unfoldable pub ip_port : Node → Text
unfolding has_colon
ip_port n = if has_colon n.ip then b'[' ∷ n.ip ++ b']' ∷ b':' ∷ n.port else n.ip ++ b':' ∷ n.port

unfoldable pub set_link_status : Node → Text → Node × Option NodeError
set_link_status n status =
    let state : Text =
      if text_eq status link_state_connected
      then link_state_connected
      else if text_eq status link_state_disconnected
      then link_state_disconnected
      else [] in
    (record n { link_state = state }, if is_empty state then some set_link_status_failed else none)

unfoldable pub known_status : Text → Bool
known_status val =
    text_eq val status_fail
    || text_eq val status_pfail
    || text_eq val status_handshake
    || text_eq val status_no_addr
    || text_eq val status_no_flags

-- The loop of SetFailureStatus: the flags that name a failure, in order.
failures_of_flags : List Text → List Text
failures_of_flags [] = []
failures_of_flags (val ∷ vals) =
    let rest = failures_of_flags vals in if known_status val then val ∷ rest else rest

unfoldable pub set_failure_status : Node → Text → Node
unfolding failures_of_flags
set_failure_status n flags = record n { fail_status = failures_of_flags (split b',' flags) }

unfoldable pub set_referent_master : Node → Text → Node
set_referent_master n ref = record n {
  master_referent = if text_eq ref (codes "-") then [] else ref;
}

unfoldable pub total_slots : Node → ℕ
total_slots n = length n.slots

-- The loop of HasStatus.
unfoldable pub text_mem : Text → List Text → Bool
text_mem flag [] = false
text_mem flag (status ∷ rest) = if text_eq status flag then true else text_mem flag rest

unfoldable pub has_status : Node → Text → Bool
unfolding text_mem
has_status n flag = text_mem flag n.fail_status

abbrev pub is_master : RedisRole → Bool
is_master role_master = true
is_master _ = false

abbrev pub is_slave_role : RedisRole → Bool
is_slave_role role_slave = true
is_slave_role _ = false

unfoldable pub is_master_with_no_slot : Node → Bool
is_master_with_no_slot n = is_master (get_role n) && total_slots n == 0

unfoldable pub is_master_with_slot : Node → Bool
is_master_with_slot n = is_master (get_role n) && ltb 0 (total_slots n)

unfoldable pub is_slave : Node → Bool
is_slave n = is_slave_role (get_role n)

unfoldable pub filter_by_func : (Node → Bool) → Nodes → Nodes
filter_by_func fn [] = []
filter_by_func fn (n ∷ ns) = let rest = filter_by_func fn ns in if fn n then n ∷ rest else rest

abbrev pub error_if_empty : Nodes → Option NodeError
error_if_empty [] = some node_not_founded
error_if_empty (n ∷ ns) = none

unfoldable pub get_nodes_by_func : (Node → Bool) → Nodes → Nodes × Option NodeError
get_nodes_by_func f ns = let nodes = filter_by_func f ns in (nodes, error_if_empty nodes)

-- The node, or the error "node not founded".
unfoldable pub get_node_by_id : Nodes → Text → Option Node
get_node_by_id [] id = none
get_node_by_id (n ∷ ns) id = if text_eq n.id id then some n else get_node_by_id ns id

unfoldable pub count_by_func : (Node → Bool) → Nodes → ℕ
count_by_func fn [] = 0
count_by_func fn (n ∷ ns) = let rest = count_by_func fn ns in if fn n then suc rest else rest
