-- ===== src/Pool.antt =====
-- pkg/redisutil/connections.go: the connections to the redis nodes, one for each address. What a node
-- replies may depend on all calls made before. The operator sets no client name, so a connection that
-- is made sends no CLIENT SETNAME. Log output is left out.
pub mod Commands
pub mod Migrate
mod Examples
use redis_cluster_operator.Common.{
  ℕ, Bool, true, false, Option, none, some, List, [], ◌∷◌, if◌then◌else◌, Text, text_eq, Dict, Eq,
  text_eq_key, insert, lookup, map, Result, ok, err, Action, pure, raise, modify, ◌>>=◌, ◌>>◌,
  on_error,
}

-- The commands that the administration sends.
pub data Command : Type 0 where
  add_slots_cmd : List ℕ → Command
  set_slot_cmd : ℕ → Text → Option Text → Command
  get_keys_cmd : (slot batch : ℕ) → Command
  migrate_cmd : List Text → Command
  meet_cmd : Text → Text → Command
  set_config_epoch_cmd : ℕ → Command
  flush_all_cmd : Command
  reset_cmd : Text → Command
  replicate_cmd : Text → Command
  config_get_cmd : Command
  config_set_cmd : Text → Text → Command

pub data Call : Type 0 where
  connect_call : Text → Call
  cmd_call : Text → Command → Call

-- A reply that is no error, with what it holds, or an error: of the network, after which the code
-- connects again, or any other one.
pub data Reply : Type 0 where
  fine : Reply
  keys_reply : List Text → Reply
  config_reply : Dict Text Text → Reply
  failed : (network : Bool) → Reply

-- The map of the clients, with whether each is open, and the calls so far, the latest first.
pub record Pool : Type 0 where
  pub clients : Dict Text Bool
  pub calls : List Call

-- The error of a call, or one that the code makes.
pub data RedisError : Type 0 where
  call_error : Call → RedisError
  wrong_format no_connection set_slot_error reset_error bad_address : RedisError

abbrev pub Step : Type 0 → Type 0
Step A = Action Pool RedisError A

abbrev pub made : Call → Pool → Pool
made call p = record p { calls = call ∷ p.calls }

unfoldable pub drop_client : Text → Dict Text Bool → Dict Text Bool
drop_client addr [] = []
drop_client addr ((a, c) ∷ m) =
    let rest = drop_client addr m in if text_eq a addr then rest else (a, c) ∷ rest

-- c.Close(), where the client stays in the map.
unfoldable pub close_client : Text → Dict Text Bool → Dict Text Bool
close_client addr m = elim (lookup addr m) [ none ↦ m | some c ↦ insert addr false m ]

unfoldable pub set_clients : Dict Text Bool → Pool → Pool
set_clients m p = record p { clients = m }

-- AdminConnections.Remove and Reset
unfoldable pub remove : Text → Pool → Pool
unfolding drop_client set_clients
remove addr p = set_clients (drop_client addr p.clients) p

unfoldable pub reset : Pool → Pool
unfolding set_clients
reset p = set_clients [] p

abbrev pub is_failed : Reply → Bool
is_failed (failed network) = true
is_failed _ = false

abbrev pub is_network : Reply → Bool
is_network (failed network) = network
is_network _ = false

-- GetAUTH
unfoldable pub get_auth : Text → Option Text
get_auth [] = none
get_auth (c ∷ password) = some (c ∷ password)

module _ (reply : List Call → Reply) where
  unfoldable pub connect : Text → Step (Unit {0})
  connect addr p =
      let call = connect_call addr in
      (if is_failed (reply (call ∷ p.calls)) then err (call_error call) else ok tt, made call p)

  unfoldable pub store_client : Text → Pool → Pool
  unfolding set_clients
  store_client addr p = set_clients (insert addr true p.clients) p

  -- Update: the old client is closed, and stays in the map when there is no new one.
  unfoldable pub update : Text → Step (Unit {0})
  unfolding connect store_client close_client set_clients
  update addr =
      modify (λ p. set_clients (close_client addr p.clients) p)
      >> (connect addr >> modify (store_client addr))

  abbrev pub ignoring : Step (Unit {0}) → Pool → Pool
  ignoring m p = (m p).1

  unfoldable pub add_all : List Text → Pool → Pool
  unfolding update
  add_all [] p = p
  add_all (addr ∷ addrs) p = add_all addrs (ignoring (update addr) p)

  unfoldable pub replace_all : List Text → Pool → Pool
  unfolding reset add_all
  replace_all addrs p = add_all addrs (reset p)

  unfoldable pub reconnect : Text → Step (Unit {0})
  unfolding remove update
  reconnect addr = modify (remove addr) >> update addr

  -- Get: a client that is in the map is taken as it is.
  unfoldable pub get : Text → Step (Unit {0})
  unfolding connect store_client
  get addr p = elim (lookup addr p.clients) [
    | some c ↦ (ok tt, p)
    | none ↦ (connect addr >> modify (store_client addr)) p
  ]

  -- handleError: whether the address was connected again.
  unfoldable pub handle_error : Text → Reply → Pool → Bool × Pool
  unfolding reconnect
  handle_error addr r p = if is_network r then (true, ignoring (reconnect addr) p) else (false, p)

  -- Cmd and ValidateResp: the reply, unless it is an error.
  unfoldable pub cmd : Text → Command → Step Reply
  unfolding handle_error
  cmd addr command p =
      let call = cmd_call addr command in
      let r = reply (call ∷ p.calls) in
      if is_failed r
      then (err (call_error call), (handle_error addr r (made call p)).1)
      else (ok r, made call p)

  -- PipeAppend for each command, and ValidatePipeResp over their replies: an error of the network ends
  -- the loop, any other one is remembered. A call counts as made when its reply is read.
  unfoldable pub pipe : Text → List Command → Bool → Pool → Bool × Pool
  unfolding handle_error
  pipe addr [] good p = (good, p)
  pipe addr (command ∷ commands) good p =
      let call = cmd_call addr command in
      let r = reply (call ∷ p.calls) in
      let (again, p') = handle_error addr r (made call p) in
      let rest = pipe addr commands (if is_failed r then false else good) p' in
      if again then (false, p') else rest
