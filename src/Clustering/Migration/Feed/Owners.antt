-- ===== src/Clustering/Migration/Feed/Owners.antt =====
-- Which slots feedMigInfo moves (pkg/controller/clustering/migration.go), and under which key.
use mathlib.Core.List.{Permᴰ}
use redis_cluster_operator.Common.{
  Bool, true, false, ◌==◌, ◌+◌, count, ap, ℕ, ◌≡◌, refl, ◌∙◌, Option, none, some, List, [], ◌∷◌,
  if◌then◌else◌, Text, text_eq, arith, Bool-cases, inl, inr,
}
use redis_cluster_operator.Slot.{contains}
use redis_cluster_operator.Clustering.{Ref, Store, find_ref}
use redis_cluster_operator.Clustering.Dicts.{filed, filed-append_at}
use redis_cluster_operator.Clustering.Migration.{SlotMap}
use redis_cluster_operator.Clustering.Migration.Feed.{
  MigrationInfo, info_eq, Feed, record_move, feed_slot, feed_slots, feed_map, info_beq,
}

module _ (h : Store) where
  -- The first old master that has the slot.
  unfoldable pub owner : List Ref → ℕ → Option Ref
  owner [] s = none
  owner (r ∷ old) s = if contains (h r).slots s then some r else owner old s

  -- Where a slot that is planned for the node with an id moves: from its owner, if it has one, to the
  -- first node with the id, unless there is no such node or the owner has the id itself.
  abbrev pub planned_move : List Ref → List Ref → Text → ℕ → Option MigrationInfo
  planned_move new old id s = elim (find_ref h new id) [
    | none ↦ none
    | some node ↦ elim (owner old s) [
      | none ↦ some (record { from = none; to = node })
      | some r ↦ if text_eq (h r).id id then none else some (record { from = some r; to = node })
    ]
  ]

  abbrev pub moves_as : Option MigrationInfo → MigrationInfo → Bool
  moves_as none info = false
  moves_as (some i) info = info_beq i info

  -- How often a plan moves a slot from and to the nodes of a key.
  unfoldable pub planned : List Ref → List Ref → MigrationInfo → ℕ → SlotMap → ℕ
  unfolding owner
  planned new old info s [] = 0
  planned new old info s ((id, slots) ∷ m) =
      (if moves_as (planned_move new old id s) info then count s slots else 0)
      + planned new old info s m

  -- What feedMigInfo does with a slot planned for the node with an id, by its owner.
  unfoldable pub move_owned : Text → ℕ → Option Ref → Option Ref → Feed → Feed
  move_owned id s owned none f = f
  move_owned id s none (some node) f = record_move s (record { from = none; to = node }) f
  move_owned id s (some r) (some node) f =
      if text_eq (h r).id id then f else record_move s (record { from = some r; to = node }) f

pub feed_slot-owner :
    (h : Store) (new : List Ref) (id : Text) (s : ℕ) (old : List Ref) (f : Feed)
    → feed_slot h new id s old f ≡ move_owned h id s (owner h old s) (find_ref h new id) f
unfolding feed_slot move_owned owner
feed_slot-owner h new id s [] f = ground arith
feed_slot-owner h new id s (r ∷ old) f = ground (arith, feed_slot-owner h new id s old f)

module _ (h : Store) (new old : List Ref) (info : MigrationInfo) (a : ℕ) where
  moved_as : Text → ℕ → ℕ → ℕ
  moved_as id s n = if moves_as h (planned_move h new old id s) info then n else 0

  filed-move_owned :
      (id : Text) (s : ℕ) (f : Feed)
      → filed info a (move_owned h id s (owner h old s) (find_ref h new id) f).map_out
        ≡ filed info a f.map_out + moved_as id s (count a (s ∷ []))
  unfolding move_owned moved_as record_move
  filed-move_owned id s f = by_nodes (owner h old s) (find_ref h new id)
    where
      recorded :
          (i : MigrationInfo)
          → filed info a (record_move s i f).map_out
            ≡ filed info a f.map_out + (if info_beq i info then count a (s ∷ []) else 0)
      recorded i = filed-append_at info i a (s ∷ []) f.map_out

      by_nodes :
          (owned found : Option Ref)
          → filed info a (move_owned h id s owned found f).map_out
            ≡ filed info a f.map_out
              + (if moves_as h
                    (elim found [
                      | none ↦ none
                      | some node ↦ elim owned [
                        | none ↦ some (record { from = none; to = node })
                        | some r ↦
                            if text_eq (h r).id id
                            then none
                            else some (record { from = some r; to = node })
                      ]
                    ])
                    info
                  then count a (s ∷ [])
                  else 0)
      by_nodes none none = omega arith
      by_nodes (some r) none = omega arith
      by_nodes none (some node) = recorded (record { from = none; to = node })
      by_nodes (some r) (some node) = elim (Bool-cases (text_eq (h r).id id)) [
        | inl k ↦ rw k (omega arith)
        | inr k ↦ rw k (recorded (record { from = some r; to = node }))
      ]

  moved_as-cons :
      (id : Text) (s : ℕ) (slots : List ℕ)
      → moved_as id a (count a (s ∷ slots))
        ≡ moved_as id s (count a (s ∷ [])) + moved_as id a (count a slots)
  unfolding moved_as
  moved_as-cons id s slots = elim (Bool-cases (s == a)) [
    | inl q ↦
        let same : s ≡ a = ground arith in
        rw same (by_move (moves_as h (planned_move h new old id a) info))
    | inr q ↦
        elsewhere (moves_as h (planned_move h new old id s) info)
          (moves_as h (planned_move h new old id a) info) q
  ]
    where
      by_move :
          (t : Bool)
          → (if t then count a (a ∷ slots) else 0)
            ≡ (if t then count a (a ∷ []) else 0) + (if t then count a slots else 0)
      by_move true = ground arith
      by_move false = omega arith

      elsewhere :
          (t u : Bool)
          → (s == a) ≡ false
          → (if u then count a (s ∷ slots) else 0)
            ≡ (if t then count a (s ∷ []) else 0) + (if u then count a slots else 0)
      elsewhere t u q = ground arith

  filed-feed_slots :
      (id : Text) (slots : List ℕ) (f : Feed)
      → filed info a (feed_slots h new old id slots f).map_out
        ≡ filed info a f.map_out + moved_as id a (count a slots)
  unfolding feed_slots moved_as
  filed-feed_slots id [] f = nothing (moves_as h (planned_move h new old id a) info)
    where
      nothing : (t : Bool) → filed info a f.map_out ≡ filed info a f.map_out + (if t then 0 else 0)
      nothing t = ground arith
  filed-feed_slots id (s ∷ slots) f =
      let rest = filed-feed_slots id slots (feed_slot h new id s old f) in
      let one =
        ap (λ (t : Feed). filed info a t.map_out) (feed_slot-owner h new id s old f)
        ∙ filed-move_owned id s f in
      rest ∙ omega (arith, one, moved_as-cons id s slots)

  pub filed-feed_map :
      (m : SlotMap) (f : Feed)
      → filed info a (feed_map h new old m f).map_out
        ≡ filed info a f.map_out + planned h new old info a m
  unfolding feed_map planned moved_as
  filed-feed_map [] f = omega arith
  filed-feed_map ((id, slots) ∷ m) f =
      let rest = filed-feed_map m (feed_slots h new old id slots f) in
      rest ∙ omega (arith, filed-feed_slots id slots f)

  pub planned-permᴰ :
      {m n : SlotMap} → Permᴰ m n → planned h new old info a m ≡ planned h new old info a n
  unfolding planned moved_as
  planned-permᴰ Permᴰ.nil = refl
  planned-permᴰ (Permᴰ.cons {a = x} {b = y} e p) =
      let same = ap (λ (t : Text × List ℕ). moved_as t.0 a (count a t.1)) e in
      omega (arith, same, planned-permᴰ p)
  planned-permᴰ (Permᴰ.swap {a = x} {b = y} {a' = x'} {b' = y'} e f) =
      let one = ap (λ (t : Text × List ℕ). moved_as t.0 a (count a t.1)) e in
      let two = ap (λ (t : Text × List ℕ). moved_as t.0 a (count a t.1)) f in
      omega (arith, one, two)
  planned-permᴰ (Permᴰ.trans p q) = planned-permᴰ p ∙ planned-permᴰ q
