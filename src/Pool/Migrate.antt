-- ===== src/Pool/Migrate.antt =====
-- MigrateKeysInSlot ends when the slot runs out of keys.
use redis_cluster_operator.Common.{
  ℕ, zero, suc, ◌+◌, ◌<◌, Bool, false, Option, some, List, [], ◌∷◌, if◌then◌else◌, length, Text,
  text_eq_key, lookup, Result, ok, err, ◌≡◌, refl, ap, ◌∙◌, arith,
}
use redis_cluster_operator.Node.{Node}
use redis_cluster_operator.Pool.{
  Command, get_keys_cmd, Call, cmd_call, Reply, fine, keys_reply, Pool, RedisError, call_error,
  handle_error, get, cmd, is_failed,
}
use redis_cluster_operator.Pool.Commands.{
  migrate_of, after_list, after_keys, after_migrate, with_client, migrate_batches,
  migrate_keys_in_slot,
}

module _ (reply : List Call → Reply) (password addr : Text) (dest : Node) (batch : ℕ)
    (timeout : Text) (replace : Bool) (slot : ℕ) where
  abbrev listing : Call
  listing = cmd_call addr (get_keys_cmd slot batch)

  abbrev migrating : List Text → Call
  migrating keys = cmd_call addr (migrate_of reply password addr dest batch timeout replace keys)

  -- After a history the node lists these batches of keys, one after the other, and then none, and it
  -- accepts each migration.
  abbrev pub Serves : List (List Text) → List Call → Type 0
  Serves [] hist = reply (listing ∷ hist) ≡ keys_reply []
  Serves ([] ∷ batches) hist = ⊥
  Serves ((k ∷ ks) ∷ batches) hist =
      (reply (listing ∷ hist) ≡ keys_reply (k ∷ ks))
      × (reply (migrating (k ∷ ks) ∷ listing ∷ hist) ≡ fine)
      × Serves batches (migrating (k ∷ ks) ∷ listing ∷ hist)

  abbrev pub total_keys : List (List Text) → ℕ
  total_keys [] = 0
  total_keys (keys ∷ batches) = length keys + total_keys batches

  -- The calls: each batch is listed and migrated, and the last list is empty.
  abbrev pub calls_after : List (List Text) → List Call → List Call
  calls_after [] hist = listing ∷ hist
  calls_after (keys ∷ batches) hist = calls_after batches (migrating keys ∷ listing ∷ hist)

  cmd-ok :
      (command : Command) (r : Reply) (p : Pool)
      → reply (cmd_call addr command ∷ p.calls) ≡ r
      → is_failed r ≡ false
      → cmd reply addr command p ≡ (ok r, record p { calls = cmd_call addr command ∷ p.calls })
  unfolding cmd
  cmd-ok command r p h good =
      let call = cmd_call addr command in
      ap
        (λ (r : Reply).
          if is_failed r
          then (
            err (call_error call),
            (handle_error reply addr r (record p { calls = call ∷ p.calls })).1,
          )
          else (ok r, record p { calls = call ∷ p.calls }))
        h
      ∙ rw good refl

  abbrev next : ℕ → ℕ → Pool → Option (Result RedisError ℕ × Pool)
  next fuel n p = migrate_batches reply password addr dest batch timeout replace fuel slot n p

  get-known :
      (p : Pool) (is_open : Bool)
      → lookup addr p.clients ≡ some is_open
      → get reply addr p ≡ (ok tt, p)
  unfolding get
  get-known p is_open known = rw (known, get) refl

  migrate_batches_lem :
      (batches : List (List Text)) (fuel count : ℕ) (p : Pool)
      → length batches < fuel
      → Serves batches p.calls
      → migrate_batches reply password addr dest batch timeout replace fuel slot count p
        ≡ some (ok (count + total_keys batches), record p { calls = calls_after batches p.calls })
  unfolding migrate_batches after_list after_keys after_migrate
  migrate_batches_lem batches zero count p enough h = absurd (omega (arith, enough))
  migrate_batches_lem [] (suc fuel) count p enough h =
      ap (after_list reply password addr dest batch timeout replace (next fuel) count)
        (cmd-ok (get_keys_cmd slot batch) (keys_reply []) p h refl)
      ∙ ap (λ n. some (ok n, record p { calls = listing ∷ p.calls })) (omega arith)
  migrate_batches_lem ([] ∷ batches) (suc fuel) count p enough h = absurd h
  migrate_batches_lem ((k ∷ ks) ∷ batches) (suc fuel) count p enough h =
      let p1 : Pool = record p { calls = listing ∷ p.calls } in
      let p2 : Pool = record p { calls = migrating (k ∷ ks) ∷ listing ∷ p.calls } in
      ap (after_list reply password addr dest batch timeout replace (next fuel) count)
        (cmd-ok (get_keys_cmd slot batch) (keys_reply (k ∷ ks)) p h.0 refl)
      ∙ ap
          (after_migrate reply password addr dest batch timeout replace (next fuel)
            (count + length (k ∷ ks)))
          (cmd-ok (migrate_of reply password addr dest batch timeout replace (k ∷ ks)) fine p1 h.1
            refl)
      ∙ migrate_batches_lem batches fuel (count + length (k ∷ ks)) p2 (omega arith) h.2
      ∙ ap (λ n. some (ok n, record p { calls = calls_after batches p2.calls })) (omega arith)

-- When the node lists a number of batches of keys of a slot, one after the other, then none, and accepts
-- each migration, MigrateKeysInSlot over a connection of the pool ends, with one round more than there
-- are batches: it has listed and migrated every batch, in order, and returns the number of the keys.
pub migrate_keys_in_slot_lem :
    (reply : List Call → Reply) (password addr : Text) (dest : Node) (batch : ℕ) (timeout : Text)
    (replace : Bool) (slot : ℕ) (batches : List (List Text)) (fuel : ℕ) (p : Pool) (is_open : Bool)
    → lookup addr p.clients ≡ some is_open
    → length batches < fuel
    → Serves reply password addr dest batch timeout replace slot batches p.calls
    → migrate_keys_in_slot reply password addr dest batch timeout replace fuel slot p
      ≡ some (
        ok (total_keys reply password addr dest batch timeout replace slot batches),
        record p {
          calls = calls_after reply password addr dest batch timeout replace slot batches p.calls;
        },
      )
unfolding migrate_keys_in_slot with_client
migrate_keys_in_slot_lem reply password addr dest batch timeout replace slot batches fuel p is_open
      known enough h =
    ap
      (with_client reply password addr dest batch timeout replace
        (λ p'. migrate_batches reply password addr dest batch timeout replace fuel slot 0 p'))
      (get-known reply password addr dest batch timeout replace slot p is_open known)
    ∙ migrate_batches_lem reply password addr dest batch timeout replace slot batches fuel 0 p
        enough h
    ∙ ap
        (λ (n : ℕ). some (
          ok n,
          record p {
            calls = calls_after reply password addr dest batch timeout replace slot batches p.calls;
          },
        ))
        (omega arith)
