-- ===== src/Slot.antt =====
-- pkg/redisutil/slot.go. A Slot is a uint64: a number below 2^64. A slice that a function of the
-- file changes in place is returned. `none` as an outer result is a loop that does not end.
pub mod Interval
pub mod Ranges
pub mod Sets
pub mod Codec
mod Examples
use redis_cluster_operator.Common.{
  ℕ, zero, suc, ◌+◌, ◌-◌, ◌%◌, Bool, true, false, Option, none, some, List, [], ◌∷◌, ◌++◌, ltb, leb,
  ◌==◌, if◌then◌else◌, u64_mod, Text, codes, text_eq, split, trim_prefix, trim_suffix, parse_uint,
  format_uint, sort,
}

pub record SlotRange : Type 0 where
  pub min : ℕ
  pub max : ℕ

pub record ImportingSlot : Type 0 where
  pub slot_id : ℕ
  pub from_node_id : Text

pub record MigratingSlot : Type 0 where
  pub slot_id : ℕ
  pub to_node_id : Text

abbrev pub slot_separator : ℕ
slot_separator = b'-'

abbrev pub importing_separator : Text
importing_separator = codes "-<-"

abbrev pub migrating_separator : Text
migrating_separator = codes "->-"

-- SlotRange.String
unfoldable pub slot_range_string : SlotRange → Text
slot_range_string r = format_uint r.min ++ slot_separator ∷ format_uint r.max

-- SlotRange.Total, in uint64 arithmetic; the conversion to int keeps the 64 bits.
unfoldable pub slot_range_total : SlotRange → ℕ
slot_range_total r = (r.max + u64_mod - r.min + 1) % u64_mod

-- ImportingSlot.String
unfoldable pub importing_slot_string : ImportingSlot → Text
importing_slot_string i = format_uint i.slot_id ++ (importing_separator ++ i.from_node_id)

-- MigratingSlot.String
unfoldable pub migrating_slot_string : MigratingSlot → Text
migrating_slot_string m = format_uint m.slot_id ++ (migrating_separator ++ m.to_node_id)

-- The loop of BuildSlotSlice, `for s := min; s <= max; s++`: the counter wraps at 2^64.
unfoldable pub build_slots : ℕ → ℕ → ℕ → Option (List ℕ)
build_slots zero s max = none
build_slots (suc fuel) s max = elim (leb s max) [
  | true ↦ elim (build_slots fuel ((s + 1) % u64_mod) max) [
    | none ↦ none
    | some slots ↦ some (s ∷ slots)
  ]
  | false ↦ some []
]

unfoldable pub build_slot_slice : ℕ → ℕ → Option (List ℕ)
unfolding build_slots
build_slot_slice min max = build_slots (suc (max + 1 - min)) min max

-- The errors of DecodeSlotRange: strconv's, and "impossible to decode slot".
pub data DecodeError : Type 0 where
  bad_number impossible : DecodeError

-- The four results of DecodeSlotRange.
pub record Decoded : Type 0 where
  pub slots : List ℕ
  pub importing : Option ImportingSlot
  pub migrating : Option MigratingSlot
  pub err : Option DecodeError

abbrev pub decode_failed : DecodeError → Decoded
decode_failed e = record { slots = []; importing = none; migrating = none; err = some e }

-- The branch for three parts: a migrating or an importing slot.
decode_moving : Option ℕ → Text → Text → Decoded
decode_moving none sign node = decode_failed bad_number
decode_moving (some slot) sign node =
    let separator = slot_separator ∷ sign ++ slot_separator ∷ [] in
    let id = trim_suffix b']' node in
    let importing : ImportingSlot = record { slot_id = slot; from_node_id = id } in
    let migrating : MigratingSlot = record { slot_id = slot; to_node_id = id } in
    if text_eq separator importing_separator
    then record { slots = []; importing = some importing; migrating = none; err = none }
    else if text_eq separator migrating_separator
    then record { slots = []; importing = none; migrating = some migrating; err = none }
    else decode_failed impossible

slots_decoded : Option (List ℕ) → Option Decoded
slots_decoded none = none
slots_decoded (some slots) =
    some (record { slots = slots; importing = none; migrating = none; err = none })

-- The branch for one part, or two.
decode_min_max : Option ℕ → Option ℕ → Option Decoded
unfolding slots_decoded
decode_min_max none max = some (decode_failed bad_number)
decode_min_max (some min) none = some (decode_failed bad_number)
decode_min_max (some min) (some max) = slots_decoded (build_slot_slice min max)

decode_parts : List Text → Option Decoded
unfolding decode_min_max decode_moving
decode_parts [] = some (decode_failed impossible)
decode_parts (a ∷ []) = decode_min_max (parse_uint a) (parse_uint a)
decode_parts (a ∷ b ∷ []) = decode_min_max (parse_uint a) (parse_uint b)
decode_parts (a ∷ b ∷ c ∷ []) = some (decode_moving (parse_uint (trim_prefix b'[' a)) b c)
decode_parts (a ∷ b ∷ c ∷ d ∷ more) = decode_min_max (parse_uint a) (parse_uint b)

unfoldable pub decode_slot_range : Text → Option Decoded
unfolding decode_parts
decode_slot_range str = decode_parts (split slot_separator str)

-- The loop of SlotRangesFromSlots behind its first round, over slots in ascending order.
collect_ranges : ℕ → ℕ → List ℕ → List SlotRange
collect_ranges min max [] = record { min = min; max = max } ∷ []
collect_ranges min max (slot ∷ slots) =
    let next = collect_ranges slot slot slots in
    let longer = collect_ranges min slot slots in
    if ltb ((max + 1) % u64_mod) slot then record { min = min; max = max } ∷ next else longer

ranges_of_sorted : List ℕ → List SlotRange
unfolding collect_ranges
ranges_of_sorted [] = []
ranges_of_sorted (slot ∷ slots) = collect_ranges slot slot slots

-- The caller's slice is sorted in place as well.
unfoldable pub slot_ranges_from_slots : List ℕ → List SlotRange
unfolding ranges_of_sorted
slot_ranges_from_slots slots = ranges_of_sorted (sort slots)

unfoldable pub contains : List ℕ → ℕ → Bool
contains [] e = false
contains (a ∷ s) e = if a == e then true else contains s e

-- The inner loop over `removed` stops at the first match.
unfoldable pub remove_slots : List ℕ → List ℕ → List ℕ
unfolding contains
remove_slots [] removed = []
remove_slots (s ∷ slots) removed =
    let rest = remove_slots slots removed in if contains removed s then rest else s ∷ rest

unfoldable pub remove_slot : List ℕ → ℕ → List ℕ
remove_slot [] removed = []
remove_slot (s ∷ slots) removed = if s == removed then slots else s ∷ remove_slot slots removed

unfoldable pub add_slots : List ℕ → List ℕ → List ℕ
unfolding contains
add_slots slots [] = slots
add_slots slots (s ∷ added) = add_slots (if contains slots s then slots else slots ++ s ∷ []) added
