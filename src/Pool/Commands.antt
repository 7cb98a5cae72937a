-- ===== src/Pool/Commands.antt =====
-- pkg/redisutil/admin.go: what the administration does over the connections.
use redis_cluster_operator.Common.{
  ℕ, zero, suc, ◌+◌, Bool, true, Option, none, some, List, [], ◌∷◌, ◌++◌, if◌then◌else◌, length,
  map, Text, codes, text_eq, Dict, text_eq_key, lookup, Result, ok, err, pure, raise, ◌>>=◌, ◌>>◌,
}
use redis_cluster_operator.Node.{Node, text_mem}
use redis_cluster_operator.Clustering.{MapOrder}
use redis_cluster_operator.Memory.{parse_redis_mem_conf}
use redis_cluster_operator.Pool.{
  Command, add_slots_cmd, set_slot_cmd, get_keys_cmd, migrate_cmd, set_config_epoch_cmd,
  flush_all_cmd, reset_cmd, config_get_cmd, config_set_cmd, Call, Reply, keys_reply, config_reply,
  Pool, RedisError, wrong_format, no_connection, set_slot_error, reset_error, Step, get_auth, get,
  cmd, pipe,
}

abbrev pub keys_of : Reply → Option (List Text)
keys_of (keys_reply keys) = some keys
keys_of _ = none

abbrev pub config_of : Reply → Option (Dict Text Text)
config_of (config_reply m) = some m
config_of _ = none

-- nodeID == ""
abbrev pub given : Text → Option Text
given [] = none
given (c ∷ s) = some (c ∷ s)

abbrev pub done : Reply → Step (Unit {0})
done r = pure tt

module _ (reply : List Call → Reply) where
  -- Admin.AddSlots
  unfoldable pub add_slots : Text → List ℕ → Step (Unit {0})
  unfolding get cmd
  add_slots addr [] = pure tt
  add_slots addr (s ∷ slots) =
      get reply addr >> (cmd reply addr (add_slots_cmd (s ∷ slots)) >>= done)

  unfoldable pub piped : Text → List Command → RedisError → Step (Unit {0})
  unfolding pipe
  piped addr commands e p =
      let (good, p') = pipe reply addr commands true p in ((if good then ok tt else err e), p')

  -- Admin.SetSlots and SetSlot
  unfoldable pub set_slots : Text → Text → List ℕ → Text → Step (Unit {0})
  unfolding get piped
  set_slots addr action [] id = pure tt
  set_slots addr action (s ∷ slots) id =
      get reply addr
      >> piped addr (map (λ slot. set_slot_cmd slot action (given id)) (s ∷ slots)) set_slot_error

  unfoldable pub set_slot : Text → Text → ℕ → Text → Step (Unit {0})
  unfolding get piped
  set_slot addr action slot id =
      get reply addr >> piped addr (set_slot_cmd slot action (given id) ∷ []) set_slot_error

  -- Admin.FlushAndReset
  unfoldable pub flush_and_reset : Text → Text → Step (Unit {0})
  unfolding get piped
  flush_and_reset addr mode =
      get reply addr >> piped addr (flush_all_cmd ∷ reset_cmd mode ∷ []) reset_error

  -- migrateCmdArgs
  unfoldable pub migrate_cmd_args : Text → Node → Text → Bool → List Text → List Text
  unfolding get_auth
  migrate_cmd_args password dest timeout replace keys =
      (dest.ip ∷ dest.port ∷ [] ∷ codes "0" ∷ timeout ∷ [])
      ++ ((elim (get_auth password) [ none ↦ [] | some p ↦ codes "AUTH" ∷ p ∷ [] ])
          ++ ((if replace then codes "REPLACE" ∷ codes "KEYS" ∷ [] else codes "KEYS" ∷ []) ++ keys))

  -- The arguments that stay the same in MigrateKeysInSlot.
  module _ (password addr : Text) (dest : Node) (batch : ℕ) (timeout : Text) (replace : Bool) where
    abbrev pub migrate_of : List Text → Command
    migrate_of keys = migrate_cmd (migrate_cmd_args password dest timeout replace keys)

    -- After the migration of a batch, after its list, and after the call that lists it.
    abbrev pub Rounds : Type 0
    Rounds = ℕ → Pool → Option (Result RedisError ℕ × Pool)

    unfoldable pub after_migrate :
        Rounds → ℕ → Result RedisError Reply × Pool → Option (Result RedisError ℕ × Pool)
    after_migrate next count (err e, p) = some (err e, p)
    after_migrate next count (ok r, p) = next count p

    unfoldable pub after_keys :
        Rounds → ℕ → Option (List Text) → Pool → Option (Result RedisError ℕ × Pool)
    unfolding cmd migrate_cmd_args after_migrate
    after_keys next count none p = some (err wrong_format, p)
    after_keys next count (some []) p = some (ok count, p)
    after_keys next count (some (k ∷ ks)) p =
        after_migrate next (count + length (k ∷ ks)) (cmd reply addr (migrate_of (k ∷ ks)) p)

    unfoldable pub after_list :
        Rounds → ℕ → Result RedisError Reply × Pool → Option (Result RedisError ℕ × Pool)
    unfolding after_keys
    after_list next count (err e, p) = some (err e, p)
    after_list next count (ok r, p) = after_keys next count (keys_of r) p

    -- The loop over the batches of keys of a slot, with the number of keys; `none` is a loop that
    -- does not end within the fuel. The count is returned with an error too, and nothing reads it.
    unfoldable pub migrate_batches : ℕ → ℕ → ℕ → Pool → Option (Result RedisError ℕ × Pool)
    unfolding cmd after_list
    migrate_batches zero slot count p = none
    migrate_batches (suc fuel) slot count p =
        after_list (λ n p'. migrate_batches fuel slot n p') count
          (cmd reply addr (get_keys_cmd slot batch) p)

    unfoldable pub with_client :
        (Pool → Option (Result RedisError ℕ × Pool))
        → Result RedisError (Unit {0}) × Pool
        → Option (Result RedisError ℕ × Pool)
    with_client next (err e, p) = some (err e, p)
    with_client next (ok got, p) = next p

    -- Admin.MigrateKeysInSlot
    unfoldable pub migrate_keys_in_slot : ℕ → ℕ → Pool → Option (Result RedisError ℕ × Pool)
    unfolding get migrate_batches with_client
    migrate_keys_in_slot fuel slot p =
        with_client (λ p'. migrate_batches fuel slot 0 p') (get reply addr p)

    -- The loop of Admin.MigrateKeys over the slots.
    unfoldable pub migrate_slots : ℕ → List ℕ → ℕ → Pool → Option (Result RedisError ℕ × Pool)
    unfolding migrate_batches
    migrate_slots fuel [] count p = some (ok count, p)
    migrate_slots fuel (slot ∷ slots) count p = elim (migrate_batches fuel slot count p) [
      | none ↦ none
      | some (r, p') ↦ elim r [ err e ↦ some (err e, p') | ok n ↦ migrate_slots fuel slots n p' ]
    ]

    -- Admin.MigrateKeys
    unfoldable pub migrate_keys : ℕ → List ℕ → Pool → Option (Result RedisError ℕ × Pool)
    unfolding get migrate_slots with_client
    migrate_keys fuel [] p = some (ok 0, p)
    migrate_keys fuel (slot ∷ slots) p =
        with_client (λ p'. migrate_slots fuel (slot ∷ slots) 0 p') (get reply addr p)

  -- SetConfigEpoch, over the map of the clients in the order in which the runtime visits it.
  unfoldable pub set_epochs : Dict Text Bool → ℕ → Step (Unit {0})
  unfolding cmd
  set_epochs [] epoch = pure tt
  set_epochs ((addr, c) ∷ m) epoch =
      cmd reply addr (set_config_epoch_cmd epoch) >>= λ r. set_epochs m (epoch + 1)

  unfoldable pub set_config_epoch : MapOrder Bool → Step (Unit {0})
  unfolding set_epochs
  set_config_epoch order p = set_epochs (order.range p.clients) 1 p

  -- ResetPassword
  unfoldable pub reset_passwords : Text → Dict Text Bool → Step (Unit {0})
  unfolding cmd
  reset_passwords password [] = pure tt
  reset_passwords password ((addr, c) ∷ m) =
      cmd reply addr (config_set_cmd (codes "masterauth") password) >>= λ r.
      cmd reply addr (config_set_cmd (codes "requirepass") password) >>= λ r.
      reset_passwords password m

  unfoldable pub reset_password : MapOrder Bool → Text → Step (Unit {0})
  unfolding reset_passwords
  reset_password order password p = elim p.clients [
    | [] ↦ (err no_connection, p)
    | e ∷ m ↦ reset_passwords password (order.range p.clients) p
  ]

  -- SetConfigIfNeed: an option that holds a size is compared as a number, and left out when it is none.
  abbrev pub parsed_options : List Text
  parsed_options =
      codes "maxmemory"
      ∷ codes "proto-max-bulk-len"
      ∷ codes "client-query-buffer-limit"
      ∷ codes "repl-backlog-size"
      ∷ codes "auto-aof-rewrite-min-size"
      ∷ codes "active-defrag-ignore-bytes"
      ∷ codes "hash-max-ziplist-entries"
      ∷ codes "hash-max-ziplist-value"
      ∷ codes "stream-node-max-bytes"
      ∷ codes "set-max-intset-entries"
      ∷ codes "zset-max-ziplist-entries"
      ∷ codes "zset-max-ziplist-value"
      ∷ codes "hll-sparse-max-bytes"
      ∷ []

  unfoldable pub option_value : Text → Text → Option Text
  unfolding parse_redis_mem_conf
  option_value key value =
      if text_mem key parsed_options then parse_redis_mem_conf value else some value

  abbrev pub text_or_empty : Option Text → Text
  text_or_empty none = []
  text_or_empty (some s) = s

  unfoldable pub set_option : Text → Dict Text Text → Text → Option Text → Step (Unit {0})
  unfolding cmd
  set_option addr old key none = pure tt
  set_option addr old key (some value) =
      if text_eq value (text_or_empty (lookup key old))
      then pure tt
      else cmd reply addr (config_set_cmd key value) >>= done

  unfoldable pub set_options : Text → Dict Text Text → Dict Text Text → Step (Unit {0})
  unfolding option_value set_option
  set_options addr old [] = pure tt
  set_options addr old ((key, value) ∷ m) =
      set_option addr old key (option_value key value) >> set_options addr old m

  -- GetAllConfig
  unfoldable pub get_all_config : Text → Step (Dict Text Text)
  unfolding cmd
  get_all_config addr = cmd reply addr config_get_cmd >>= λ r. elim (config_of r) [
    | none ↦ raise wrong_format
    | some m ↦ pure m
  ]

  unfoldable pub set_configs : MapOrder Text → Dict Text Text → Dict Text Bool → Step (Unit {0})
  unfolding get_all_config set_options
  set_configs options config [] = pure tt
  set_configs options config ((addr, c) ∷ m) = get_all_config addr >>= λ old.
      set_options addr old (options.range config) >> set_configs options config m

  unfoldable pub set_config_if_need :
      MapOrder Bool → MapOrder Text → Dict Text Text → Step (Unit {0})
  unfolding set_configs
  set_config_if_need order options config p = set_configs options config (order.range p.clients) p
