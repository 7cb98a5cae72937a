-- ===== src/Node/Examples.antt =====
-- The theorems about nodes at concrete inputs.
use redis_cluster_operator.Common.{◌≡◌, refl, true, codes, text_eq, split}
use redis_cluster_operator.Node.{
  role_slave, new_default_node, set_role, get_role, known_status, set_failure_status, has_status,
  text_mem, status_fail,
}
use redis_cluster_operator.Node.Flags.{
  HasRole, last_role, set_role_lem, has_status-set_failure_status,
}

set_role_slave : get_role (set_role new_default_node (codes "myself,master,slave")).0 ≡ role_slave
unfolding set_role get_role split text_eq
set_role_slave = refl

set_role_lem_example :
    HasRole
      (last_role (split b',' (codes "myself,slave")))
      (set_role new_default_node (codes "myself,slave"))
set_role_lem_example = set_role_lem new_default_node (codes "myself,slave")

has_status-set_failure_status_example :
    has_status (set_failure_status new_default_node (codes "master,fail")) status_fail ≡ true
unfolding known_status text_mem split text_eq
has_status-set_failure_status_example =
    has_status-set_failure_status new_default_node (codes "master,fail") status_fail
