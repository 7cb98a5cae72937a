-- ===== src/Backup/Containers.antt =====
-- The containers of a backup's job: what the loop over the nodes leaves in the slice.
use redis_cluster_operator.Common.{
  Bool, codes, format_uint, ℕ, zero, suc, ◌+◌, true, false, Option, none, some, List, [], ◌∷◌, ◌++◌,
  if◌then◌else◌, Text, length, length-append, ◌≡◌, refl, ap, ok, inl, inr, Bool-cases, arith, ◌==◌,
  append_assoc,
}
use redis_cluster_operator.Node.{RedisRole, role_master, role_slave, role_none}
use redis_cluster_operator.Status.{RedisClusterNode}
use redis_cluster_operator.Backup.{Backup, remote_path}
use redis_cluster_operator.Backup.Job.{
  World, Api, Container, container_of, set_container, fill_containers, no_containers,
  backup_containers, is_master_node,
}
use redis_cluster_operator.Resource.{DistributedRedisCluster}

abbrev pub has_master_role : Option RedisRole → Bool
has_master_role (some role_master) = true
has_master_role _ = false

module _ (b : Backup) (c : DistributedRedisCluster) (location folder : Text) where
  -- The container of a node: its name and its snapshot end in its number.
  abbrev pub numbered : ℕ → RedisClusterNode → Container
  numbered i n = record {
    name = codes "backup-" ++ format_uint i;
    image = b.image;
    location = location;
    host = n.ip;
    folder = folder;
    snapshot = b.name ++ codes "-" ++ format_uint i;
    password_secret = c.spec.password_secret;
    local_mount = b.backend.local;
  }

  -- The containers from number `i` on, with room for so many: one for each master in the order of the
  -- nodes, and an empty one for each master that is missing.
  unfoldable pub planned : ℕ → ℕ → List RedisClusterNode → List (Option Container)
  planned zero i ns = []
  planned (suc room) i [] = none ∷ planned room (i + 1) []
  planned (suc room) i (n ∷ ns) =
      let one = some (numbered i n) ∷ planned room (i + 1) ns in
      let rest = planned (suc room) i ns in if has_master_role n.role then one else rest

module _ (api : Api) (b : Backup) (c : DistributedRedisCluster) (location folder : Text) where
  planned-nil : (room i : ℕ) → planned b c location folder room i [] ≡ no_containers api room
  unfolding planned
  planned-nil zero i = refl
  planned-nil (suc room) i = ap (λ cs. none ∷ cs) (planned-nil room (i + 1))

  set_container-append :
      (pre : List (Option Container)) (x : Container) (y : Option Container)
      (rest : List (Option Container))
      → set_container api (length pre) x (pre ++ y ∷ rest) ≡ pre ++ some x ∷ rest
  unfolding set_container
  set_container-append [] x y rest = refl
  set_container-append (p ∷ pre) x y rest = ap (λ cs. p ∷ cs) (set_container-append pre x y rest)

  module _ (path : remote_path api.format b ≡ ok folder) where
    place :
        (n : RedisClusterNode) (ns : List RedisClusterNode) (pre : List (Option Container))
        (room master_num i : ℕ) (w : World) (x : Container)
        → i ≡ length pre
        → master_num ≡ length pre + suc room
        → fill_containers api b c location master_num ns
            (i + 1)
            ((pre ++ some x ∷ []) ++ no_containers api room)
            w
          ≡ (ok ((pre ++ some x ∷ []) ++ planned b c location folder room (i + 1) ns), w)
        → fill_containers api b c location master_num ns
            (i + 1)
            (set_container api i x (pre ++ no_containers api (suc room)))
            w
          ≡ (ok (pre ++ some x ∷ planned b c location folder room (i + 1) ns), w)
    place n ns pre room master_num i w x ei em h =
        rw (ei, set_container-append pre x none (no_containers api room))
          (rw
            (
              ei,
              append_assoc pre (some x ∷ []) (no_containers api room),
              append_assoc pre (some x ∷ []) (planned b c location folder room (length pre + 1) ns),
            )
            at h)

    is_master_node-role : (n : RedisClusterNode) → is_master_node api n ≡ has_master_role n.role
    is_master_node-role n = by_role n.role
      where
        by_role :
            (r : Option RedisRole)
            → (elim r [
              | none ↦ false
              | some r ↦ elim r [ role_master ↦ true | role_slave ↦ false | role_none ↦ false ]
            ])
              ≡ has_master_role r
        by_role none = refl
        by_role (some role_master) = refl
        by_role (some role_slave) = refl
        by_role (some role_none) = refl

    fill_containers_lem :
        (ns : List RedisClusterNode) (pre : List (Option Container)) (room master_num i : ℕ)
        (w : World)
        → i ≡ length pre
        → master_num ≡ length pre + room
        → fill_containers api b c location master_num ns i (pre ++ no_containers api room) w
          ≡ (ok (pre ++ planned b c location folder room i ns), w)
    unfolding fill_containers planned container_of
    fill_containers_lem [] pre room master_num i w ei em = rw (planned-nil room i)
    fill_containers_lem (n ∷ ns) pre zero master_num i w ei em =
        let is_master = is_master_node-role n in
        elim (Bool-cases (has_master_role n.role)) [
          | inl master ↦
              let full : (i == master_num) ≡ true = ground arith in
              rw (is_master, master, full) refl
          | inr slave ↦ rw (is_master, slave) (fill_containers_lem ns pre zero master_num i w ei em)
        ]
    fill_containers_lem (n ∷ ns) pre (suc room) master_num i w ei em =
        let is_master = is_master_node-role n in
        elim (Bool-cases (has_master_role n.role)) [
          | inl master ↦
              let more : (i == master_num) ≡ false = ground arith in
              let x = container_of api b c.spec.password_secret location n folder i in
              rw (is_master, master, more, path)
                (place n ns pre room master_num i w x ei em (
                  fill_containers_lem ns (pre ++ some x ∷ []) room master_num (i + 1) w
                    (omega (arith, ei, length-append pre (some x ∷ [])))
                    (omega (arith, em, length-append pre (some x ∷ [])))))
          | inr slave ↦
              rw (is_master, slave) (fill_containers_lem ns pre (suc room) master_num i w ei em)
        ]

  -- The job has a container for each of the first nodes with the role of a master, in the order of the
  -- nodes, with its number in its name and its snapshot and with the node's address, and no more than
  -- the size asked for; where masters are missing the slots stay empty. The conditions are that the
  -- location and the path can be built.
  pub backup_containers-eq-planned :
      (w : World)
      → api.location b.backend ≡ ok location
      → remote_path api.format b ≡ ok folder
      → backup_containers api b c w
        ≡ (ok (planned b c location folder c.spec.master_size 0 c.status.nodes), w)
  unfolding backup_containers
  backup_containers-eq-planned w e path =
      rw (e, backup_containers)
        (fill_containers_lem path c.status.nodes [] c.spec.master_size c.spec.master_size 0 w refl
          (omega arith))
