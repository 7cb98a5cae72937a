-- ===== src/Pool/Examples.antt =====
-- The connections and the migration of keys on concrete replies.
use redis_cluster_operator.Common.{
  true, false, some, List, [], ◌∷◌, Text, codes, text_eq, text_eq_key, lookup, insert, ok, ◌≡◌,
  refl, arith,
}
use redis_cluster_operator.Node.{new_default_node}
use redis_cluster_operator.Pool.{
  get_keys_cmd, Call, cmd_call, Reply, fine, keys_reply, failed, Pool, update, get,
}
use redis_cluster_operator.Pool.Commands.{migrate_keys_in_slot}
use redis_cluster_operator.Pool.Migrate.{total_keys, calls_after, migrate_keys_in_slot_lem}

abbrev node_addr : Text
node_addr = codes "10.0.0.1:6379"

abbrev start : Pool
start = record { clients = (node_addr, true) ∷ []; calls = [] }

-- Two keys and then none are listed.
abbrev two_keys : List Call → Reply
two_keys [] = fine
two_keys (cmd_call addr (get_keys_cmd slot batch) ∷ []) = keys_reply (codes "x" ∷ codes "y" ∷ [])
two_keys (cmd_call addr (get_keys_cmd slot batch) ∷ c ∷ calls) = keys_reply []
two_keys _ = fine

abbrev batches : List (List Text)
batches = (codes "x" ∷ codes "y" ∷ []) ∷ []

known : lookup node_addr start.clients ≡ some true
unfolding lookup text_eq
known = refl

migrate_keys_in_slot_lem_example :
    migrate_keys_in_slot two_keys [] node_addr new_default_node 10 (codes "30000") true 2 7 start
    ≡ some (
      ok (total_keys two_keys [] node_addr new_default_node 10 (codes "30000") true 7 batches),
      record start {
        calls =
            calls_after two_keys [] node_addr new_default_node 10 (codes "30000") true 7 batches [];
      },
    )
migrate_keys_in_slot_lem_example =
    migrate_keys_in_slot_lem two_keys [] node_addr new_default_node 10 (codes "30000") true 7
      batches 2 start true known (omega arith) (refl, refl, refl)

-- After a failed update the closed client stays in the map, and is taken again.
abbrev refused : List Call → Reply
refused calls = failed true

closed_client_kept : (update refused node_addr start).1.clients ≡ (node_addr, false) ∷ []
unfolding update lookup insert text_eq
closed_client_kept = refl

closed_client_taken :
    (get refused node_addr (record { clients = (node_addr, false) ∷ []; calls = [] })).0 ≡ ok tt
unfolding get lookup text_eq
closed_client_taken = refl
