-- ===== src/Node/Flags.antt =====
-- SetRole, SetFailureStatus, SetLinkStatus (pkg/redisutil/node.go).
use redis_cluster_operator.Common.{
  ◌≡◌, refl, ◌∙◌, ◌&&◌, Option, none, some, List, [], ◌∷◌, if◌then◌else◌, Text, text_eq,
  text_eq_iff, split, codes, sym, arith, Bool-cases, ◌≢◌, inl, inr,
}
use redis_cluster_operator.Node.{
  Node, RedisRole, role_master, role_slave, role_none, redis_master_role, redis_slave_role,
  set_role_failed, role_of_flags, set_role, get_role, known_status, failures_of_flags, NodeError,
  set_failure_status, text_mem, has_status,
}

role_of_token : Text → Option RedisRole
role_of_token val =
    if text_eq val redis_master_role
    then some role_master
    else if text_eq val redis_slave_role
    then some role_slave
    else none

or_else : Option RedisRole → Option RedisRole → Option RedisRole
or_else none r = r
or_else (some a) r = some a

-- The role that the last of the flags names, if one does.
unfoldable pub last_role : List Text → Option RedisRole
unfolding role_of_token or_else
last_role [] = none
last_role (val ∷ vals) = or_else (last_role vals) (role_of_token val)

abbrev role_text : Text → Option RedisRole → Text
role_text role none = role
role_text role (some role_master) = redis_master_role
role_text role (some role_slave) = redis_slave_role
role_text role (some role_none) = []

role_of_flags-last :
    (role : Text) (vals : List Text) → role_of_flags role vals ≡ role_text role (last_role vals)
unfolding role_of_flags last_role
role_of_flags-last role [] = refl
role_of_flags-last role (val ∷ vals) = elim (Bool-cases (text_eq val redis_master_role)) [
  | inl e ↦ rw e (role_of_flags-last redis_master_role vals ∙ ground arith)
  | inr e ↦ elim (Bool-cases (text_eq val redis_slave_role)) [
    | inl f ↦ rw (e, f) (role_of_flags-last redis_slave_role vals ∙ ground arith)
    | inr f ↦ rw (e, f) (role_of_flags-last role vals ∙ ground arith)
  ]
]

last_role-ne-none : (vals : List Text) → last_role vals ≢ some role_none
unfolding last_role
last_role-ne-none [] = ground arith
last_role-ne-none (val ∷ vals) = ground (arith, last_role-ne-none vals)

-- What SetRole owes for the role that the flags name: the error and an empty role if they name
-- none, and otherwise no error and that role, which GetRole gives back.
abbrev pub HasRole : Option RedisRole → Node × Option NodeError → Type 0
HasRole none (n, err) = (n.role ≡ []) × (err ≡ some set_role_failed)
HasRole (some r) (n, err) = (get_role n ≡ r) × (err ≡ none)

set_role-of_last :
    (n : Node) (flags : Text) (last : Option RedisRole)
    → last_role (split b',' flags) ≡ last
    → last ≢ some role_none
    → HasRole last (set_role n flags)
unfolding set_role get_role text_eq
set_role-of_last n flags none e h = rw (role_of_flags-last [] (split b',' flags), e) (refl, refl)
set_role-of_last n flags (some role_master) e h =
    rw (role_of_flags-last [] (split b',' flags), e) (refl, refl)
set_role-of_last n flags (some role_slave) e h =
    rw (role_of_flags-last [] (split b',' flags), e) (refl, refl)
set_role-of_last n flags (some role_none) e h = absurd (h refl)

-- SetRole gives the node the role that the last of the comma-separated flags names, whatever its
-- role was before, and fails with an empty role when no flag names one.
pub set_role_lem :
    (n : Node) (flags : Text) → HasRole (last_role (split b',' flags)) (set_role n flags)
set_role_lem n flags = set_role-of_last n flags _ refl (last_role-ne-none _)

-- The flags that say that a node has failed or cannot be reached, as CLUSTER NODES prints them.
abbrev pub failure_flags : List Text
failure_flags =
    codes "fail" ∷ codes "fail?" ∷ codes "handshake" ∷ codes "noaddr" ∷ codes "noflags" ∷ []

text_eq_sym : (a b : Text) → text_eq a b ≡ text_eq b a
text_eq_sym a b = ground (arith, text_eq_iff a b, text_eq_iff b a)

known_status-failure_flags : (f : Text) → known_status f ≡ text_mem f failure_flags
unfolding known_status text_mem
known_status-failure_flags f =
    rw
      (
        text_eq_sym f (codes "fail"),
        text_eq_sym f (codes "fail?"),
        text_eq_sym f (codes "handshake"),
        text_eq_sym f (codes "noaddr"),
        text_eq_sym f (codes "noflags"),
      )
      (ground arith)

text_mem-failures :
    (f : Text) (vals : List Text)
    → text_mem f (failures_of_flags vals) ≡ (known_status f && text_mem f vals)
unfolding text_mem failures_of_flags
text_mem-failures f [] = ground arith
text_mem-failures f (val ∷ vals) = ground (arith, text_eq_iff val f, text_mem-failures f vals)

-- After SetFailureStatus a node has a status exactly when it is "fail", "fail?", "handshake", "noaddr"
-- or "noflags" and stands among the comma-separated flags, whatever statuses the node had before.
pub has_status-set_failure_status :
    (n : Node) (flags f : Text)
    → has_status (set_failure_status n flags) f
      ≡ (text_mem f failure_flags && text_mem f (split b',' flags))
unfolding has_status set_failure_status
has_status-set_failure_status n flags f =
    rw (sym (known_status-failure_flags f)) (text_mem-failures f (split b',' flags))
