-- ===== src/Views.antt =====
-- pkg/redisutil/clusterinfo.go: the view that a node has of the cluster, decoded from the reply of
-- CLUSTER NODES, and whether all views agree. Log output is left out.

pub mod Check
pub mod Signature
pub mod Agree
mod Examples
use redis_cluster_operator.Common.{
  ℕ, ◌-◌, Bool, true, false, ◌&&◌, not, Option, none, some, List, [], ◌∷◌, ◌++◌, ltb, leb, ◌==◌,
  if◌then◌else◌, Text, codes, lacks, split, parse_uint, Dict, Eq, nat_eq, insert, ℤ, pos, negsuc,
}
use redis_cluster_operator.Slot.{ImportingSlot, MigratingSlot, Decoded, decode_slot_range}
use redis_cluster_operator.Node.{
  Node, Nodes, new_default_node, set_role, set_failure_status, set_referent_master, set_link_status,
}

-- NodeInfos, as DecodeNodeInfos makes it: its node is never nil.
pub record View : Type 0 where
  pub node : Node
  pub friends : Nodes

-- What is in front of the last colon and behind it.
unfoldable pub split_host_port : Text → Option (Text × Text)
split_host_port [] = none
split_host_port (c ∷ s) = elim (split_host_port s) [
  | some (host, port) ↦ some (c ∷ host, port)
  | none ↦ if c == b':' then some ([], s) else none
]

no_brackets : Text → Bool
no_brackets s = lacks b'[' s && lacks b']' s

-- The text in front of a bracket that ends it.
unfoldable pub closed : Text → Option Text
closed [] = none
closed (c ∷ []) = if c == b']' then some [] else none
closed (c ∷ d ∷ s) = elim (closed (d ∷ s)) [ none ↦ none | some host ↦ some (c ∷ host) ]

or_empty : Option Text → Text
or_empty none = []
or_empty (some s) = s

-- The host of net.SplitHostPort, which is empty on an error: a host with colons has brackets.
bare_host : Text → Text → Text
unfolding no_brackets closed or_empty
bare_host [] port = []
bare_host (c ∷ host) port =
    let inner = or_empty (closed host) in
    if c == b'['
    then (if no_brackets inner && no_brackets port then inner else [])
    else (if lacks b':' (c ∷ host) && no_brackets (c ∷ host) && no_brackets port
        then c ∷ host
        else [])

unfoldable pub host_of : Text → Text
unfolding split_host_port bare_host
host_of addr = elim (split_host_port addr) [ none ↦ [] | some (host, port) ↦ bare_host host port ]

-- strconv.ParseInt(s, 10, 64)
abbrev pub i64_half : ℕ
i64_half = 9223372036854775808

unfoldable pub signed : Bool → Option ℕ → Option ℤ
signed minus none = none
signed true (some n) =
    if leb n i64_half then some (if n == 0 then pos 0 else negsuc (n - 1)) else none
signed false (some n) = if ltb n i64_half then some (pos n) else none

unfoldable pub parse_int : Text → Option ℤ
unfolding signed
parse_int [] = none
parse_int (c ∷ s) =
    if c == b'-'
    then signed true (parse_uint s)
    else if c == b'+'
    then signed false (parse_uint s)
    else signed false (parse_uint (c ∷ s))

-- The field stays 0 when the number cannot be read.
unfoldable pub int_or_zero : Text → ℤ
unfolding parse_int
int_or_zero s = elim (parse_int s) [ none ↦ pos 0 | some i ↦ i ]

unfoldable pub set_address : Text → Text → Node → Node
unfolding split_host_port host_of
set_address addr ip_port n = elim (split_host_port ip_port) [
  | none ↦ n
  | some (ip, port) ↦ record n { ip = elim ip [ [] ↦ host_of addr | c ∷ s ↦ c ∷ s ]; port = port }
]

unfoldable pub add_importing : Option ImportingSlot → Dict ℕ Text → Dict ℕ Text
add_importing none m = m
add_importing (some i) m = insert i.slot_id i.from_node_id m

unfoldable pub add_migrating : Option MigratingSlot → Dict ℕ Text → Dict ℕ Text
add_migrating none m = m
add_migrating (some i) m = insert i.slot_id i.to_node_id m

-- What a field that can be decoded adds.
unfoldable pub add_decoded : Decoded → Node → Node
unfolding add_importing add_migrating
add_decoded d n = elim d.err [
  | some e ↦ n
  | none ↦ record n {
    slots = n.slots ++ d.slots;
    importing_slots = add_importing d.importing n.importing_slots;
    migrating_slots = add_migrating d.migrating n.migrating_slots;
  }
]

-- The loop over the slots; `none` is a range whose loop does not end.
unfoldable pub add_slot_fields : List Text → Node → Option Node
unfolding add_decoded
add_slot_fields [] n = some n
add_slot_fields (slot ∷ slots) n = elim (decode_slot_range slot) [
  | none ↦ none
  | some d ↦ add_slot_fields slots (add_decoded d n)
]

first_part : List Text → Text
first_part [] = []
first_part (s ∷ rest) = s

unfoldable pub described : Text → Text → Text → Text → Text → Text → Text → Text → Text → Node
unfolding set_address first_part int_or_zero
described addr id address flags master ping pong epoch link =
    let named =
      set_address addr (first_part (split b'@' address)) (record new_default_node { id = id }) in
    let flagged = set_failure_status (set_role named flags).0 flags in
    let timed = record (set_referent_master flagged master) {
      ping_sent = int_or_zero ping;
      pong_recv = int_or_zero pong;
      config_epoch = int_or_zero epoch;
    } in
    (set_link_status timed link).0

-- strings.HasPrefix(s, prefix)
unfoldable pub has_prefix : Text → Text → Bool
has_prefix s [] = true
has_prefix [] (c ∷ prefix) = false
has_prefix (d ∷ s) (c ∷ prefix) = let rest = has_prefix s prefix in d == c && rest

-- The node of a line, and whether it is the node that replied; a line with fewer than eight fields
-- has none.
unfoldable pub decode_fields : Text → List Text → Option (Option (Node × Bool))
unfolding described add_slot_fields has_prefix
decode_fields addr (id ∷ address ∷ flags ∷ master ∷ ping ∷ pong ∷ epoch ∷ link ∷ slots) =
    elim (add_slot_fields slots (described addr id address flags master ping pong epoch link)) [
      | none ↦ none
      | some n ↦ some (some (n, has_prefix flags (codes "myself")))
    ]
decode_fields addr _ = some none

unfoldable pub add_node : Option (Node × Bool) → View → View
add_node none v = v
add_node (some (n, true)) v = record v { node = n }
add_node (some (n, false)) v = record v { friends = v.friends ++ n ∷ [] }

unfoldable pub decode_lines : Text → List Text → View → Option View
unfolding decode_fields add_node
decode_lines addr [] v = some v
decode_lines addr (line ∷ lines) v = elim (decode_fields addr (split b' ' line)) [
  | none ↦ none
  | some found ↦ decode_lines addr lines (add_node found v)
]

-- DecodeNodeInfos
unfoldable pub decode_node_infos : Text → Text → Option View
unfolding decode_lines
decode_node_infos input addr =
    decode_lines addr (split b'\n' input) (record { node = new_default_node; friends = [] })
