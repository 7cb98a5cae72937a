-- ===== src/Clustering/Rebalance/Gains.antt =====
-- How many slots each node is told to own (pkg/controller/clustering/rebalance.go).
use mathlib.Core.Path.{subst}
use mathlib.Core.Option.{some-injective}
use redis_cluster_operator.Common.{
  ℕ, zero, suc, ◌+◌, ◌≤◌, ◌≡◌, refl, ap, Bool, false, ◌&&◌, not, none, some, List, [], ◌∷◌,
  if◌then◌else◌, Bool-cases, inl, inr, length, map, take, Text, text_eq, eq→text_eq, arith,
}
use redis_cluster_operator.Node.{ip_port, total_slots}
use redis_cluster_operator.Clustering.{Ref, Store}
use redis_cluster_operator.Admin.{
  Call, act_importing, act_migrating, act_node, set_slot_call, migrate_keys_in_slot_call, World,
  Replies, issue, set_node_slots,
}
use redis_cluster_operator.Clustering.Migration.Dispatch.{Outcome, continue_with}
use redis_cluster_operator.Clustering.Rebalance.{
  MovedNode, settle_slot, move_slot, move_table, moved_by, exchange,
}
use redis_cluster_operator.Clustering.Rebalance.Moves.{entry, compute_reshard_table_lem}
use redis_cluster_operator.Clustering.Rebalance.Told.{IsTold, IsTold-issue, move_slot-IsTold}

-- What holds of the world when no call has failed.
abbrev pub OnWorld : (World → Type 0) → Outcome → Type 0
OnWorld P (w, none) = P w
OnWorld P (w, some failed) = Unit

module _ (b : Store) where
  -- A SETSLOT NODE that goes to a node and names it as the owner.
  abbrev is_gain : Ref → Call → Bool
  is_gain r (set_slot_call addr act_node slot id) =
      text_eq addr (ip_port (b r)) && text_eq id (b r).id
  is_gain r _ = false

  -- How many slots the node was given so far.
  unfoldable pub gains : Ref → List Call → ℕ
  gains r [] = 0
  gains r (c ∷ cs) = let rest = gains r cs in if is_gain r c then suc rest else rest

  -- The target was given so many slots more, and nobody fewer.
  pub record Grown (target : Ref) (n : ℕ) (before after : List Call) : Type 0 where
    pub all : (q : Ref) → gains q before ≤ gains q after
    pub own : gains target before + n ≤ gains target after

  gains_more : (q : Ref) (c : Call) (cs : List Call) → gains q cs ≤ gains q (c ∷ cs)
  unfolding gains
  gains_more q c cs = ground arith

  gains_one :
      (r : Ref) (slot : ℕ) (addr id : Text) (cs : List Call)
      → addr ≡ ip_port (b r)
      → id ≡ (b r).id
      → gains r cs + 1 ≤ gains r (set_slot_call addr act_node slot id ∷ cs)
  unfolding gains
  gains_one r slot addr id cs e f =
      ground (arith, eq→text_eq addr (ip_port (b r)) e, eq→text_eq id (b r).id f)

  settle_slot-Grown :
      (source : Ref) (slot : ℕ) (target : Ref) (w : World)
      → IsTold b w
      → Grown target 1 w.calls (settle_slot source slot target w).calls
  unfolding settle_slot set_node_slots
  settle_slot-Grown source slot target w t =
      let names = t.names target in
      let id = (w.store target).id in
      let first = set_slot_call (ip_port (w.store target)) act_node slot id in
      let second = set_slot_call (ip_port (w.store source)) act_node slot id in
      record {
        all = λ q. omega (arith, gains_more q first w.calls, gains_more q second (first ∷ w.calls));
        own = omega (
          arith,
          gains_one target slot (ip_port (w.store target)) id w.calls names.1 names.0,
          gains_more target second (first ∷ w.calls),
        );
      }

  Grown-before :
      (target : Ref) (n : ℕ) (c : Call) (before after : List Call)
      → Grown target n (c ∷ before) after
      → Grown target n before after
  Grown-before target n c before after g = record {
    all = λ q. omega (arith, g.all q, gains_more q c before);
    own = omega (arith, g.own, gains_more target c before);
  }

  move_slot-Grown :
      (replies : Replies) (source : Ref) (slot : ℕ) (target : Ref) (w : World)
      → IsTold b w
      → OnWorld (λ w'. Grown target 1 w.calls w'.calls) (move_slot replies source slot target w)
  unfolding move_slot
  move_slot-Grown replies source slot target w t =
      let from = ip_port (w.store source) in
      let take = set_slot_call (ip_port (w.store target)) act_importing slot (w.store target).id in
      let give = set_slot_call from act_migrating slot (w.store source).id in
      let move = migrate_keys_in_slot_call from target slot in
      let moving = issue move (issue give (issue take w)) in
      elim (Bool-cases (not (replies (take ∷ w.calls)))) [
        | inl e ↦ rw e tt
        | inr e ↦ elim (Bool-cases (not (replies (give ∷ take ∷ w.calls)))) [
          | inl f ↦ rw (e, f) tt
          | inr f ↦ elim (Bool-cases (not (replies (move ∷ give ∷ take ∷ w.calls)))) [
            | inl g ↦ rw (e, f, g) tt
            | inr g ↦
                rw (e, f, g)
                  (Grown-before target 1 take w.calls _ (
                    Grown-before target 1 give (take ∷ w.calls) _ (
                      Grown-before target 1 move (give ∷ take ∷ w.calls) _ (
                        settle_slot-Grown source slot target moving (
                          IsTold-issue b move _ tt
                            (IsTold-issue b give _ tt (IsTold-issue b take w tt t)))))))
          ]
        ]
      ]

  Grown-trans :
      (target : Ref) (n : ℕ) (c c' c'' : List Call)
      → Grown target 1 c c'
      → Grown target n c' c''
      → Grown target (suc n) c c''
  Grown-trans target n c c' c'' x y = record {
    all = λ q. omega (arith, x.all q, y.all q);
    own = omega (arith, x.own, y.own);
  }

  continue_with-Grown :
      (target : Ref) (n : ℕ) (w : World) (k : World → Outcome) (o : Outcome)
      → ((w' : World) → IsTold b w' → OnWorld (λ w''. Grown target n w'.calls w''.calls) (k w'))
      → IsTold b o.0
      → OnWorld (λ w'. Grown target 1 w.calls w'.calls) o
      → OnWorld (λ w'. Grown target (suc n) w.calls w'.calls) (continue_with k o)
  unfolding continue_with
  continue_with-Grown target n w k (w', some failed) f t g = tt
  continue_with-Grown target n w k (w', none) f t g = by_end (k w') (f w' t)
    where
      by_end :
          (o : Outcome)
          → OnWorld (λ w''. Grown target n w'.calls w''.calls) o
          → OnWorld (λ w''. Grown target (suc n) w.calls w''.calls) o
      by_end (w'', none) h = Grown-trans target n w.calls w'.calls w''.calls g h
      by_end (w'', some failed) h = tt

  move_table-Grown :
      (replies : Replies) (target : Ref) (table : List MovedNode) (w : World)
      → IsTold b w
      → OnWorld
          (λ w'. Grown target (length table) w.calls w'.calls)
          (move_table replies target table w)
  unfolding move_table
  move_table-Grown replies target [] w t = record { all = λ q. omega arith; own = omega arith }
  move_table-Grown replies target (e ∷ table) w t =
      continue_with-Grown target (length table) w (move_table replies target table)
        (move_slot replies e.source e.slot target w) (move_table-Grown replies target table)
        (move_slot-IsTold b replies e.source e.slot target w t)
        (move_slot-Grown replies e.source e.slot target w t)

  length-entries :
      (source : Ref) (n : ℕ) (slots : List ℕ)
      → n ≤ length slots
      → length (map (entry source) (take n slots)) ≡ n
  length-entries source zero slots l = refl
  length-entries source (suc n) [] l = absurd (omega arith)
  length-entries source (suc n) (x ∷ slots) l = ap suc (length-entries source n slots (omega arith))

  pub exchange-Grown :
      (replies : Replies) (target source : Ref) (n : ℕ) (w : World) (o : Outcome)
      → n ≤ length (w.store source).slots
      → IsTold b w
      → exchange replies target source n w ≡ some o
      → OnWorld (λ w'. Grown target n w.calls w'.calls) o
  unfolding exchange moved_by
  exchange-Grown replies target source zero w o l t e =
      subst (OnWorld (λ w'. Grown target 0 w.calls w'.calls)) (some-injective (w, none) o e)
        (record { all = λ q. omega arith; own = omega arith })
  exchange-Grown replies target source (suc n) w o l t e =
      let table = map (entry source) (take (suc n) (w.store source).slots) in
      let known =
        compute_reshard_table_lem w.store source (suc n) (omega arith) (unfold total_slots in l) in
      let moved : some (move_table replies target table w) ≡ some o =
        (let f = e in rw known at (f)) in
      subst (OnWorld (λ w'. Grown target (suc n) w.calls w'.calls))
        (some-injective (move_table replies target table w) o moved)
        (subst
          (λ k. OnWorld (λ w'. Grown target k w.calls w'.calls) (move_table replies target table w))
          (length-entries source (suc n) (w.store source).slots l)
          (move_table-Grown replies target table w t))
