-- ===== src/Clustering/Migration/Feed.antt =====
-- feedMigInfo (pkg/controller/clustering/migration.go): from which master each planned slot comes.
pub mod Owners
pub mod Sound
use redis_cluster_operator.Common.{
  ℕ, suc, ◌+◌, ◌≡◌, ◌↔◌, Bool, true, false, ◌&&◌, Option, none, some, List, [], ◌∷◌, if◌then◌else◌,
  ◌==◌, ==_iff, Text, text_eq, Dict, Eq, arith,
}
use redis_cluster_operator.Slot.{contains}
use redis_cluster_operator.Node.{Node}
use redis_cluster_operator.Clustering.{Ref, Store, find_ref, MapOrder, append_at}
use redis_cluster_operator.Clustering.Migration.{SlotMap, build_slots_by_node}

-- The key of mapSlotByMigInfo: two pointers, the first of which may be nil.
pub record MigrationInfo : Type 0 where
  pub from : Option Ref
  pub to : Ref

ref_eq : Option Ref → Option Ref → Bool
ref_eq none none = true
ref_eq none (some s) = false
ref_eq (some r) none = false
ref_eq (some r) (some s) = r == s

unfoldable pub info_beq : MigrationInfo → MigrationInfo → Bool
unfolding ref_eq
info_beq x y = ref_eq x.from y.from && x.to == y.to

pub info_beq_iff : (x y : MigrationInfo) → (info_beq x y ≡ true) ↔ (x ≡ y)
unfolding info_beq
info_beq_iff x y = (λ e. ground arith, λ e. ground arith)

instance abbrev pub info_eq : Eq MigrationInfo
info_eq = record { beq = info_beq; beq_iff = info_beq_iff }

abbrev pub MigrationMap : Type 0
MigrationMap = Dict MigrationInfo (List ℕ)

-- The two results of feedMigInfo; the counter is NbslotsToMigrate, an int32 that counts slots.
pub record Feed : Type 0 where
  pub map_out : MigrationMap
  pub nb_slots_to_migrate : ℕ

unfoldable pub record_move : ℕ → MigrationInfo → Feed → Feed
record_move s info f = record {
  map_out = append_at info (s ∷ []) f.map_out;
  nb_slots_to_migrate = f.nb_slots_to_migrate + 1;
}

module _ (h : Store) (new : List Ref) (id : Text) (s : ℕ) where
  -- No old master has the slot: it is new to the cluster, or was lost.
  feed_lost : Option Ref → Feed → Feed
  feed_lost none f = f
  feed_lost (some node) f = record_move s (record { from = none; to = node }) f

  -- The loop over the old masters still to be asked.
  unfoldable pub feed_slot : List Ref → Feed → Feed
  unfolding feed_lost
  feed_slot [] f = feed_lost (find_ref h new id) f
  feed_slot (old_node ∷ old) f =
      let later = feed_slot old f in
      if text_eq (h old_node).id id
      then if contains (h old_node).slots s then f else later
      else if contains (h old_node).slots s
      then elim (find_ref h new id) [
        | none ↦ later
        | some node ↦ record_move s (record { from = some old_node; to = node }) f
      ]
      else later

module _ (h : Store) (new old : List Ref) where
  feed_slots : Text → List ℕ → Feed → Feed
  feed_slots id [] f = f
  feed_slots id (s ∷ slots) f = feed_slots id slots (feed_slot h new id s old f)

  unfoldable pub feed_map : SlotMap → Feed → Feed
  unfolding feed_slots
  feed_map [] f = f
  feed_map ((id, slots) ∷ m) f = feed_map m (feed_slots id slots f)

feed_started : (SlotMap → SlotMap) → Store → List Ref → List Ref → Option SlotMap → Option Feed
feed_started range h new old none = none
feed_started range h new old (some m) =
    some (feed_map h new old (range m) (record { map_out = []; nb_slots_to_migrate = 0 }))

-- `none` is an index out of range in buildSlotsByNode.
unfoldable pub feed_mig_info : MapOrder (List ℕ) → Store → List Ref → List Ref → ℕ → Option Feed
unfolding feed_started
feed_mig_info order h new old nb_slots =
    feed_started order.range h new old (build_slots_by_node order h new old nb_slots)
