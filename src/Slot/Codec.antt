-- ===== src/Slot/Codec.antt =====
-- DecodeSlotRange and the String methods (pkg/redisutil/slot.go).
use redis_cluster_operator.Common.{
  ℕ, ◌+◌, ◌-◌, ◌<◌, ◌≡◌, refl, ap, ◌∙◌, true, false, none, some, List, [], ◌∷◌, ◌++◌, u64_mod, Text,
  text_eq, split, lacks, lacks-append, ◌==◌, split-cut, split-lacks, trim_prefix,
  trim_suffix-append, format_uint, parse-format, lacks-format, arith,
}
use mathlib.Core.List.{append_assoc}
use redis_cluster_operator.Slot.{
  SlotRange, ImportingSlot, MigratingSlot, Decoded, slot_separator, slot_range_string,
  importing_slot_string, migrating_slot_string, decode_slot_range, decode_min_max, decode_moving,
}
use redis_cluster_operator.Slot.Interval.{interval, build_slot_slice-interval}

abbrev decoded_slots : List ℕ → Decoded
decoded_slots slots = record { slots = slots; importing = none; migrating = none; err = none }

abbrev decoded_importing : ImportingSlot → Decoded
decoded_importing i = record { slots = []; importing = some i; migrating = none; err = none }

abbrev decoded_migrating : MigratingSlot → Decoded
decoded_migrating m = record { slots = []; importing = none; migrating = some m; err = none }

decode_min_max-interval :
    (min max : ℕ)
    → max + 1 < u64_mod
    → decode_min_max (some min) (some max) ≡ some (decoded_slots (interval min (max + 1 - min)))
unfolding decode_min_max
decode_min_max-interval min max h = rw (build_slot_slice-interval min max h)

-- A range that String prints is decoded to its slots, from min to max, for max below 2^64 - 1.
pub decode-slot_range_string :
    (r : SlotRange)
    → r.min < u64_mod
    → r.max + 1 < u64_mod
    → decode_slot_range (slot_range_string r)
      ≡ some (decoded_slots (interval r.min (r.max + 1 - r.min)))
unfolding decode_slot_range slot_range_string
decode-slot_range_string r h k =
    rw
      (split-cut slot_separator (format_uint r.min) (format_uint r.max)
        (lacks-format _ _ (omega arith)))
      (rw (split-lacks slot_separator (format_uint r.max) (lacks-format _ _ (omega arith))) (
        rw (parse-format r.min h, parse-format r.max (omega arith))
          (decode_min_max-interval r.min r.max k)))

interval_one : (s : ℕ) → interval s (s + 1 - s) ≡ s ∷ []
unfolding interval
interval_one s = let one : s + 1 - s ≡ 1 = omega arith in rw one

-- A single slot, as redis prints it, is decoded to that slot.
pub decode-slot_string :
    (s : ℕ) → s + 1 < u64_mod → decode_slot_range (format_uint s) ≡ some (decoded_slots (s ∷ []))
unfolding decode_slot_range
decode-slot_string s h =
    rw (split-lacks slot_separator (format_uint s) (lacks-format _ _ (omega arith))) (
      rw (parse-format s (omega arith))
        (decode_min_max-interval s s h ∙ ap (λ n. some (decoded_slots n)) (interval_one s)))

-- How redis prints a moving slot: the parts around the two separators.
split-moving :
    (slot sign : ℕ) (id : Text)
    → (sign == slot_separator) ≡ false
    → lacks slot_separator id ≡ true
    → split slot_separator (b'[' ∷ (format_uint slot ++ b'-' ∷ sign ∷ b'-' ∷ id) ++ b']' ∷ [])
      ≡ (b'[' ∷ format_uint slot) ∷ (sign ∷ []) ∷ (id ++ b']' ∷ []) ∷ []
split-moving slot sign id h k =
    let digits = format_uint slot in
    rw (append_assoc digits (b'-' ∷ sign ∷ b'-' ∷ id) (b']' ∷ [])) (
      split-cut slot_separator (b'[' ∷ digits) _ (lacks-format _ slot (omega arith))
      ∙ ap (λ t. (b'[' ∷ digits) ∷ t)
          (split-cut slot_separator (sign ∷ []) _ (rw h)
            ∙ ap (λ t. (sign ∷ []) ∷ t)
                (split-lacks slot_separator _ (lacks-append slot_separator id _ k refl))))

decode-moving :
    (slot sign : ℕ) (id : Text)
    → slot < u64_mod
    → (sign == slot_separator) ≡ false
    → lacks slot_separator id ≡ true
    → decode_slot_range (b'[' ∷ (format_uint slot ++ b'-' ∷ sign ∷ b'-' ∷ id) ++ b']' ∷ [])
      ≡ some (decode_moving (some slot) (sign ∷ []) (id ++ b']' ∷ []))
unfolding decode_slot_range trim_prefix
decode-moving slot sign id h s k =
    rw (split-moving slot sign id s k) (rw (parse-format slot h) refl)

-- An importing slot in brackets is decoded to that importing slot, for a node id without `-`.
pub decode-importing_slot_string :
    (i : ImportingSlot)
    → i.slot_id < u64_mod
    → lacks slot_separator i.from_node_id ≡ true
    → decode_slot_range (b'[' ∷ importing_slot_string i ++ b']' ∷ []) ≡ some (decoded_importing i)
unfolding importing_slot_string decode_moving text_eq
decode-importing_slot_string i h k =
    decode-moving i.slot_id b'<' i.from_node_id h refl k
    ∙ rw (trim_suffix-append b']' i.from_node_id) refl

-- A migrating slot in brackets is decoded to that migrating slot, for a node id without `-`.
pub decode-migrating_slot_string :
    (m : MigratingSlot)
    → m.slot_id < u64_mod
    → lacks slot_separator m.to_node_id ≡ true
    → decode_slot_range (b'[' ∷ migrating_slot_string m ++ b']' ∷ []) ≡ some (decoded_migrating m)
unfolding migrating_slot_string decode_moving text_eq
decode-migrating_slot_string m h k =
    decode-moving m.slot_id b'>' m.to_node_id h refl k
    ∙ rw (trim_suffix-append b']' m.to_node_id) refl
