-- ===== src/Clustering/Migration/Dispatch/Books.antt =====
-- What DispatchSlotToNewMasters writes into the nodes (pkg/controller/clustering/migration.go).
use redis_cluster_operator.Common.{
  ℕ, ◌≡◌, ◌≢◌, refl, sym, ◌∙◌, ap, not, none, some, List, [], ◌∷◌, arith, Bool-cases, inl, inr,
}
use redis_cluster_operator.Node.{ip_port}
use redis_cluster_operator.Slot.{add_slots, remove_slots}
use redis_cluster_operator.Clustering.{
  Ref, Store, update, update_self, update_ne, with_slots, slots-with_slots,
}
use redis_cluster_operator.Admin.{
  act_importing, act_migrating, set_slots_call, World, Replies, issue, set_node_slots,
}
use redis_cluster_operator.Clustering.Migration.Dispatch.{
  Outcome, book_in, book_out, tell_other, tell_others, hand_over, move_slots,
}

pub tell_other-store :
    (from to : Ref) (slots : List ℕ) (master : Ref) (w : World)
    → (tell_other from to slots master w).store ≡ w.store
unfolding tell_other
tell_other-store from to slots master w = ground arith

pub tell_others-store :
    (all : List Ref) (from to : Ref) (slots : List ℕ) (w : World)
    → (tell_others all from to slots w).store ≡ w.store
unfolding tell_others
tell_others-store [] from to slots w = refl
tell_others-store (master ∷ all) from to slots w =
    tell_others-store all from to slots (tell_other from to slots master w)
    ∙ tell_other-store from to slots master w

-- The books after a move: the source is without the slots, the target has them, and every other
-- node is as it was.
pub record IsBooked (from to : Ref) (slots : List ℕ) (before after : Store) : Type 0 where
  pub source : (after from).slots ≡ remove_slots (before from).slots slots
  pub target : (after to).slots ≡ add_slots (before to).slots slots
  pub others : (q : Ref) → q ≢ from → q ≢ to → after q ≡ before q

books-IsBooked :
    (h : Store) (from to : Ref) (slots : List ℕ)
    → from ≢ to
    → (let h' = update h from (with_slots (h from) (remove_slots (h from).slots slots)) in
        IsBooked from to slots h
          (update h' to (with_slots (h' to) (add_slots (h' to).slots slots))))
books-IsBooked h from to slots d =
    let left = with_slots (h from) (remove_slots (h from).slots slots) in
    let h' = update h from left in
    let gained = with_slots (h' to) (add_slots (h' to).slots slots) in
    let same : h' to ≡ h to = update_ne h from to left (λ e. d (sym e)) in
    record {
      source =
          ap (λ n. n.slots) (update_ne h' to from gained d ∙ update_self h from left)
          ∙ slots-with_slots (h from) _;
      target =
          ap (λ n. n.slots) (update_self h' to gained)
          ∙ slots-with_slots (h' to) _
          ∙ ap (λ n. add_slots n.slots slots) same;
      others = λ q f t. update_ne h' to q gained t ∙ update_ne h from q left f;
    }

hand_over-IsBooked :
    (all : List Ref) (from to : Ref) (slots : List ℕ) (w : World)
    → from ≢ to
    → IsBooked from to slots w.store (hand_over all from to slots w).store
unfolding hand_over book_in book_out set_node_slots
hand_over-IsBooked all from to slots w d =
    rw (tell_others-store all from to slots _) (books-IsBooked w.store from to slots d)

-- A failed move leaves every node as it was; one that does not fail books the slots.
abbrev pub MoveBooked : Ref → Ref → List ℕ → Store → Outcome → Type 0
MoveBooked from to slots before (w, none) = IsBooked from to slots before w.store
MoveBooked from to slots before (w, some failed) = w.store ≡ before

-- A move between two masters is all or nothing in memory, whatever the replies: if one of the two
-- calls that are checked fails, no node has changed, and otherwise the source is without the
-- slots, the target has them, and no other node has changed.
pub move_slots-MoveBooked :
    (replies : Replies) (all : List Ref) (from to : Ref) (slots : List ℕ) (w : World)
    → from ≢ to
    → MoveBooked from to slots w.store (move_slots replies all from to slots w)
unfolding move_slots
move_slots-MoveBooked replies all from to slots w d =
    let take = set_slots_call (ip_port (w.store to)) act_importing slots (w.store from).id in
    let give = set_slots_call (ip_port (w.store from)) act_migrating slots (w.store to).id in
    let giving = issue give (issue take w) in
    elim (Bool-cases (not (replies (take ∷ w.calls)))) [
      | inl e ↦ rw e refl
      | inr e ↦ elim (Bool-cases (not (replies (give ∷ take ∷ w.calls)))) [
        | inl f ↦ rw (e, f) refl
        | inr f ↦ rw (e, f) (hand_over-IsBooked all from to slots giving d)
      ]
    ]
