-- ===== src/Slot/Examples.antt =====
-- The theorems about slots at concrete inputs, and runs of the code.
use redis_cluster_operator.Common.{
  ℕ, ◌+◌, ◌-◌, ◌≡◌, refl, ◌&&◌, none, some, List, [], ◌∷◌, ◌++◌, u64_mod, leb, has, count, length,
  codes, text_eq, split, parse_uint, trim_prefix, trim_suffix, sort, format_uint, arith,
}
use redis_cluster_operator.Slot.{
  SlotRange, ImportingSlot, MigratingSlot, impossible, build_slots, build_slot_slice,
  decode_slot_range, slot_range_string, importing_slot_string, migrating_slot_string,
  slot_ranges_from_slots, remove_slots, add_slots, decode_failed,
}
use redis_cluster_operator.Slot.Interval.{interval, build_slot_slice_total, build_slots_diverges}
use redis_cluster_operator.Slot.Ranges.{in_ranges, IsSeparatedFrom, slot_ranges_from_slots_lem}
use redis_cluster_operator.Slot.Sets.{count-move_slots}
use redis_cluster_operator.Slot.Codec.{
  decode-slot_range_string, decode-importing_slot_string, decode-migrating_slot_string,
}

program : Unit {0}
unfolding decode_slot_range split parse_uint trim_prefix trim_suffix text_eq build_slot_slice sort
    slot_ranges_from_slots remove_slots add_slots format_uint
program = tt

decode_garbage : decode_slot_range (codes "[42-x-67ed]") ≡ some (decode_failed impossible)
unfolding program
decode_garbage = refl

decode_backwards :
    decode_slot_range (codes "52-42")
    ≡ some (record { slots = []; importing = none; migrating = none; err = none })
unfolding program
decode_backwards = refl

remove_duplicates : remove_slots (1 ∷ 2 ∷ 1 ∷ []) (1 ∷ []) ≡ 2 ∷ []
unfolding program
remove_duplicates = refl

build_slot_slice_total_example :
    (slots : List ℕ) × (build_slot_slice 42 52 ≡ some slots)
    × ((a : ℕ) → has a slots ≡ (leb 42 a && leb a 52))
    × (length slots ≡ 11)
build_slot_slice_total_example = build_slot_slice_total 42 52 (omega arith)

build_slots_diverges_example : build_slots 100 7 (u64_mod - 1) ≡ none
build_slots_diverges_example = build_slots_diverges 100 7 (omega arith)

abbrev mixed : List ℕ
mixed = 7 ∷ 1 ∷ 2 ∷ 3 ∷ 9 ∷ 8 ∷ []

mixed_ranges :
    slot_ranges_from_slots mixed ≡ record { min = 1; max = 3 } ∷ record { min = 7; max = 9 } ∷ []
unfolding program
mixed_ranges = refl

slot_ranges_from_slots_lem_example :
    ((a : ℕ) → in_ranges a (slot_ranges_from_slots mixed) ≡ has a mixed)
    × IsSeparatedFrom 0 (slot_ranges_from_slots mixed)
slot_ranges_from_slots_lem_example = slot_ranges_from_slots_lem mixed (omega arith)

abbrev range_42 : SlotRange
range_42 = record { min = 42; max = 44 }

decode-slot_range_string_example :
    decode_slot_range (slot_range_string range_42)
    ≡ some (record {
      slots = interval 42 (44 + 1 - 42);
      importing = none;
      migrating = none;
      err = none;
    })
decode-slot_range_string_example = decode-slot_range_string range_42 (omega arith) (omega arith)

abbrev importing_42 : ImportingSlot
importing_42 = record { slot_id = 42; from_node_id = codes "67ed2d" }

decode-importing_slot_string_example :
    decode_slot_range (b'[' ∷ importing_slot_string importing_42 ++ b']' ∷ [])
    ≡ some (record { slots = []; importing = some importing_42; migrating = none; err = none })
decode-importing_slot_string_example = decode-importing_slot_string importing_42 (omega arith) refl

abbrev migrating_42 : MigratingSlot
migrating_42 = record { slot_id = 42; to_node_id = codes "67ed2d" }

decode-migrating_slot_string_example :
    decode_slot_range (b'[' ∷ migrating_slot_string migrating_42 ++ b']' ∷ [])
    ≡ some (record { slots = []; importing = none; migrating = some migrating_42; err = none })
decode-migrating_slot_string_example = decode-migrating_slot_string migrating_42 (omega arith) refl

count-move_slots_example :
    count 2 (remove_slots (1 ∷ 2 ∷ []) (2 ∷ [])) + count 2 (add_slots (3 ∷ []) (2 ∷ [])) ≡ 1
count-move_slots_example =
    count-move_slots 2 (1 ∷ 2 ∷ []) (3 ∷ []) (2 ∷ []) (λ moving. (refl, refl))
