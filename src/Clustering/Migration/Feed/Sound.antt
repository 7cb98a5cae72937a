-- ===== src/Clustering/Migration/Feed/Sound.antt =====
-- What feedMigInfo records (pkg/controller/clustering/migration.go).
use mathlib.Core.Logic.{∥∥₁_elim}
use native.Mathlib.Nat.{ℕ_set}
use redis_cluster_operator.Common.{
  lookup, ℕ, ◌≡◌, refl, ◌∙◌, Option, none, some, List, [], ◌∷◌, Text, text_eq, text_eq_iff, arith,
  Bool-cases, inl, inr, ◌≢◌, eq→text_eq,
}
use redis_cluster_operator.Clustering.{Ref, Store, find_ref, MapOrder}
use redis_cluster_operator.Clustering.Dicts.{filed, total, total-append_at, AllAt, AllAt-append_at}
use redis_cluster_operator.Clustering.Migration.{SlotMap, build_slots_by_node}
use redis_cluster_operator.Clustering.Migration.Plan.{build_slots_by_node_total}
use redis_cluster_operator.Clustering.Migration.Feed.{
  MigrationInfo, info_eq, Feed, record_move, feed_slot, feed_slots, feed_map, feed_mig_info,
}
use redis_cluster_operator.Clustering.Migration.Feed.Owners.{
  owner, move_owned, feed_slot-owner, planned, filed-feed_map, planned-permᴰ,
}

find_ref-id :
    (h : Store) (rs : List Ref) (id : Text) {r : Ref} → find_ref h rs id ≡ some r → (h r).id ≡ id
unfolding find_ref
find_ref-id h [] id e = absurd (ground arith)
find_ref-id h (q ∷ rs) id {r} e = elim (Bool-cases (text_eq (h q).id id)) [
  | inl k ↦ ground (arith, text_eq_iff (h q).id id)
  | inr k ↦ find_ref-id h rs id (rw k at e)
]

abbrev Differs : Store → Option Ref → Ref → Type 0
Differs h none to = Unit
Differs h (some r) to = (h r).id ≢ (h to).id

-- A slot to be moved comes from the first old master that has it, or from none if none has it,
-- and goes to another node than that.
pub record IsMove (h : Store) (old : List Ref) (info : MigrationInfo) (s : ℕ) : Type 0 where
  pub from_owner : owner h old s ≡ info.from
  pub elsewhere : Differs h info.from info.to

-- All moves are such, and as many as the counter says; each slot that the plan moves is recorded under
-- the nodes it moves between as often as the plan has it, and nothing else is.
pub record IsFeed (h : Store) (new old : List Ref) (m : SlotMap) (f : Feed) : Type 0 where
  pub moves : AllAt (IsMove h old) f.map_out
  pub counted : f.nb_slots_to_migrate ≡ total f.map_out
  pub complete :
      (info : MigrationInfo) (s : ℕ) → filed info s f.map_out ≡ planned h new old info s m

record IsSound (h : Store) (old : List Ref) (f : Feed) : Type 0 where
  moves : AllAt (IsMove h old) f.map_out
  counted : f.nb_slots_to_migrate ≡ total f.map_out

record_move-IsSound :
    (h : Store) (old : List Ref) (s : ℕ) (info : MigrationInfo) (f : Feed)
    → IsMove h old info s
    → IsSound h old f
    → IsSound h old (record_move s info f)
unfolding record_move
record_move-IsSound h old s info f m v = record {
  moves = AllAt-append_at (IsMove h old) info (s ∷ []) f.map_out (m, tt) v.moves;
  counted = omega (arith, total-append_at info (s ∷ []) f.map_out, v.counted);
}

move_owned-IsSound :
    (h : Store) (old : List Ref) (id : Text) (s : ℕ) (owned found : Option Ref) (f : Feed)
    → owner h old s ≡ owned
    → ((r : Ref) → found ≡ some r → (h r).id ≡ id)
    → IsSound h old f
    → IsSound h old (move_owned h id s owned found f)
unfolding move_owned
move_owned-IsSound h old id s none none f e i v = v
move_owned-IsSound h old id s (some r) none f e i v = v
move_owned-IsSound h old id s none (some to) f e i v =
    record_move-IsSound h old s _ f (record { from_owner = e; elsewhere = tt }) v
move_owned-IsSound h old id s (some r) (some to) f e i v = elim (Bool-cases (text_eq (h r).id id)) [
  | inl k ↦ rw k v
  | inr k ↦ rw k (
      record_move-IsSound h old s _ f
        (record {
          from_owner = e;
          elsewhere = λ same. cc (k, eq→text_eq (h r).id id (same ∙ i to refl));
        })
        v)
]

module _ (h : Store) (new old : List Ref) where
  feed_slots-IsSound :
      (id : Text) (slots : List ℕ) (f : Feed)
      → IsSound h old f
      → IsSound h old (feed_slots h new old id slots f)
  unfolding feed_slots
  feed_slots-IsSound id [] f v = v
  feed_slots-IsSound id (s ∷ slots) f v = feed_slots-IsSound id slots (feed_slot h new id s old f) (
      rw (feed_slot-owner h new id s old f) (
        move_owned-IsSound h old id s (owner h old s) (find_ref h new id) f refl
          (λ r. find_ref-id h new id) v))

  feed_map-IsSound :
      (m : SlotMap) (f : Feed) → IsSound h old f → IsSound h old (feed_map h new old m f)
  unfolding feed_map
  feed_map-IsSound [] f v = v
  feed_map-IsSound ((id, slots) ∷ m) f v =
      feed_map-IsSound m (feed_slots h new old id slots f) (feed_slots-IsSound id slots f v)

abbrev start : Feed
start = record { map_out = []; nb_slots_to_migrate = 0 }

start-IsSound : (h : Store) (old : List Ref) → IsSound h old start
unfolding total
start-IsSound h old = record { moves = tt; counted = refl }

-- feedMigInfo always returns, for any order of the maps. It records each slot of the plan that
-- buildSlotsByNode made, as often as the plan has it, as a move from the first old master that has the
-- slot (from none, when none has it) to the first node with the id it is planned for, except where
-- there is no such node or that master has the id itself; it records nothing else, and
-- NbslotsToMigrate is the number of the slots recorded.
pub feed_mig_info-IsFeed :
    (order : MapOrder (List ℕ)) (h : Store) (new old : List Ref) (nb_slots : ℕ)
    → (f : Feed) × (feed_mig_info order h new old nb_slots ≡ some f)
      × ((m : SlotMap) × (build_slots_by_node order h new old nb_slots ≡ some m)
          × IsFeed h new old m f)
unfolding feed_mig_info lookup
feed_mig_info-IsFeed order h new old nb_slots =
    let (m, e) = build_slots_by_node_total order h new old nb_slots in
    let sound = feed_map-IsSound h new old (order.range m) start (start-IsSound h old) in
    (
      feed_map h new old (order.range m) start,
      rw e refl,
      (
        m,
        e,
        record {
          moves = sound.moves;
          counted = sound.counted;
          complete = λ info s.
              (filed-feed_map h new old info s (order.range m) start ∙ omega arith)
              ∙ ∥∥₁_elim (order.range_perm m) (ℕ_set _ _) (planned-permᴰ h new old info s);
        },
      ),
    )
