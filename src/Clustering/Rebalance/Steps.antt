-- ===== src/Clustering/Rebalance/Steps.antt =====
-- Rounds of the loop of RebalancedCluster, and its end (pkg/controller/clustering/rebalance.go).
use redis_cluster_operator.Common.{
  ℕ, zero, suc, ◌+◌, ◌-◌, ◌≤◌, ◌<◌, ◌≡◌, ◌≢◌, refl, sym, ◌∙◌, ap, false, Option, none, some, List,
  [], ◌∷◌, ltb, ◌==◌, if◌then◌else◌, inl, inr, ◌⊎◌, Bool-cases, length, length-drop, drop,
  get_elem?, pos_part, neg_part, +ℤ_parts, -ℤ_parts, nonpos_part, nonneg_part, arith,
}
use redis_cluster_operator.Node.{Node}
use redis_cluster_operator.Clustering.{Ref, Store}
use redis_cluster_operator.Admin.{World, Replies}
use redis_cluster_operator.Clustering.Migration.Dispatch.{Outcome}
use redis_cluster_operator.Clustering.Rebalance.{
  total_balance, abs, num_slots_between, update_balances, after_exchange, exchange, both,
  drain_round, drain,
}
use redis_cluster_operator.Clustering.Rebalance.Totals.{
  IsZero, IsDistinct, has-get_elem?, get_elem?_injective,
}
use redis_cluster_operator.Clustering.Rebalance.Moves.{OnSuccess, IsMoved, exchange-IsMoved}
use redis_cluster_operator.Clustering.Rebalance.Gains.{OnWorld}
use redis_cluster_operator.Clustering.Rebalance.Window.{
  Exchanged, update_balances-Exchanged, total_balance-update_balances,
}
use redis_cluster_operator.Clustering.Rebalance.Drain.{
  IsOnCourse, IsWindow, dst_receives, src_gives, num_slots_between_lem, place, exchanged_course,
}

unfoldable next_dst : ℕ → Node → ℕ
unfolding abs
next_dst dst n = if abs n.balance == 0 then dst + 1 else dst

unfoldable next_src : ℕ → Node → ℕ
unfolding abs
next_src src n = if abs n.balance == 0 then src - 1 else src

next_src-le : (src : ℕ) (n : Node) → next_src src n ≤ src
unfolding next_src
next_src-le src n = ground arith

module _ {sn : List Ref} {before : Store} {share p dst src : ℕ} {h h' : Store} {d s : Ref}
    (v : IsWindow sn before share p dst src h) (distinct : IsDistinct sn) (apart : dst < src)
    (at_dst : get_elem? sn dst ≡ some d) (at_src : get_elem? sn src ≡ some s)
    (x : Exchanged d s (num_slots_between (h d) (h s)) h h') where
  low_next :
      (i : ℕ) (r : Ref) → get_elem? sn i ≡ some r → i < next_dst dst (h' d) → IsZero (h' r).balance
  unfolding next_dst abs
  low_next i r g l = elim (place v distinct apart at_dst at_src x i r g) [
    | inl (e, f) ↦ rw (e) (ground arith)
    | inr (inl (e, f)) ↦ ground arith
    | inr (inr (e, f, k)) ↦ rw (ap (λ n. n.balance) e) (v.low i r g (ground arith))
  ]

  high_next :
      (i : ℕ) (r : Ref) → get_elem? sn i ≡ some r → next_src src (h' s) < i → IsZero (h' r).balance
  unfolding next_src abs
  high_next i r g l = elim (place v distinct apart at_dst at_src x i r g) [
    | inl (e, f) ↦ ground arith
    | inr (inl (e, f)) ↦ rw (e) (ground arith)
    | inr (inr (e, f, k)) ↦ rw (ap (λ n. n.balance) e) (v.high i r g (ground arith))
  ]

  next-IsWindow :
      IsZero (total_balance h' sn)
      → IsWindow sn before share p (next_dst dst (h' d)) (next_src src (h' s)) h'
  next-IsWindow z = record {
    course = exchanged_course v distinct apart at_dst at_src x;
    low = low_next;
    high = high_next;
    sum = z;
  }

  -- One end is done after the round.
  closer : next_src src (h' s) - next_dst dst (h' d) < src - dst
  unfolding next_src next_dst abs
  closer =
      let low = dst_receives v d at_dst in
      let high = src_gives v s at_src in
      let bounds = num_slots_between_lem (h d) (h s) low high in
      let pd = nonpos_part (h d).balance low in
      let ps = nonneg_part (h s).balance high in
      let done : IsZero (h' d).balance ⊎ IsZero (h' s).balance = elim bounds.2 [
        | inl e ↦
            let pe = ap pos_part x.target_balance in
            let ne = ap neg_part x.target_balance in inl (omega (arith, +ℤ_parts, pe, ne))
        | inr e ↦
            let pe = ap pos_part x.source_balance in
            let ne = ap neg_part x.source_balance in inr (omega (arith, -ℤ_parts, pe, ne))
      ] in
      ground arith

get_elem?_total : (rs : List Ref) (i : ℕ) → i < length rs → (r : Ref) × (get_elem? rs i ≡ some r)
get_elem?_total [] i l = absurd (omega arith)
get_elem?_total (r ∷ rs) zero l = (r, refl)
get_elem?_total (r ∷ rs) (suc i) l = get_elem?_total rs i (omega arith)

-- All balances are zero, and each master that had too much keeps the last slots of its own.
abbrev pub IsDrained : List Ref → Store → ℕ → ℕ → Store → Type 0
IsDrained sn before share p h =
    (i : ℕ) (r : Ref)
    → get_elem? sn i ≡ some r
    → IsZero (h r).balance × IsOnCourse share p i (before r).slots (h r)

module _ {sn : List Ref} {before : Store} {share p dst src : ℕ} {h : Store}
    (v : IsWindow sn before share p dst src h) where
  closed_window : src ≤ dst → IsDrained sn before share p h
  closed_window l i r g = (
    elim (Bool-cases (ltb i dst)) [
      | inl e ↦ v.low i r g (ground arith)
      | inr e ↦ elim (Bool-cases (ltb src i)) [
        | inl f ↦ v.high i r g (ground arith)
        | inr f ↦
            let at_dst : i ≡ dst = ground arith in
            let at_src : i ≡ src = ground arith in
            let low = dst_receives v r (ap (get_elem? sn) (sym at_dst) ∙ g) in
            let high = src_gives v r (ap (get_elem? sn) (sym at_src) ∙ g) in
            omega (arith, low, high)
      ]
    ],
    v.course i r g,
  )

  -- What is to be moved is there.
  source_has :
      (d s : Ref)
      → get_elem? sn dst ≡ some d
      → get_elem? sn src ≡ some s
      → num_slots_between (h d) (h s) ≤ length (h s).slots
  source_has d s at_dst at_src =
      let bounds =
        num_slots_between_lem (h d) (h s) (dst_receives v d at_dst) (src_gives v s at_src) in
      let c = v.course src s at_src in
      elim (Bool-cases (ltb src p)) [
        | inl e ↦
            let z = c.receives (ground arith) in
            omega (arith, bounds.1, z, nonpos_part (h s).balance z)
        | inr e ↦
            let r = c.room (ground arith) in
            let long = ap length c.kept ∙ length-drop _ (before s).slots in
            omega (arith, bounds.1, r, long)
      ]

module _ (replies : Replies) (sn : List Ref) (before : Store) (share p : ℕ)
    (distinct : IsDistinct sn) (J : World → Type 0)
    (step : (d s : Ref) (n : ℕ) (w : World) (o : Outcome)
      → d ≢ s
      → n ≤ length (w.store s).slots
      → J w
      → exchange replies d s n w ≡ some o
      → OnSuccess (IsMoved s (drop n (w.store s).slots) w.store) o
      → OnWorld (λ w'. J (update_balances d s n w')) o) where
  -- The loop ends, and what each exchange keeps holds then.
  abbrev pub Ends : Option Outcome → Type 0
  Ends r = (o : Outcome) × (r ≡ some o) × OnSuccess (IsDrained sn before share p) o × OnWorld J o

  after-Ends :
      (P : Store → Type 0) (Q : World → Type 0) (k : World → Option Outcome) (o : Outcome)
      → OnSuccess P o
      → OnWorld Q o
      → ((w : World) → P w.store → Q w → Ends (k w))
      → Ends (after_exchange k (some o))
  unfolding after_exchange
  after-Ends P Q k (w, none) m q f = f w m q
  after-Ends P Q k (w, some failed) m q f = ((w, some failed), refl, tt, tt)

  round-Ends :
      (k : ℕ → ℕ → World → Option Outcome) (dst src : ℕ) (w : World) (d s : Ref)
      → IsWindow sn before share p dst src w.store
      → J w
      → dst < src
      → get_elem? sn dst ≡ some d
      → get_elem? sn src ≡ some s
      → ((dst' src' : ℕ) (w' : World)
          → IsWindow sn before share p dst' src' w'.store
          → J w'
          → src' ≤ src
          → src' - dst' < src - dst
          → Ends (k dst' src' w'))
      → Ends (drain_round replies sn k dst src w)
  unfolding drain_round both next_dst next_src
  round-Ends k dst src w d s v j apart at_dst at_src ih =
      let n = num_slots_between (w.store d) (w.store s) in
      let ne : d ≢ s = λ e.
        let t : dst ≡ src =
          get_elem?_injective sn dst src d distinct at_dst (at_src ∙ ap some (sym e)) in
        omega (arith, t) in
      let moved = exchange-IsMoved replies d s n w (source_has v d s at_dst at_src) in
      rw (at_dst, at_src, moved.1)
        (after-Ends (IsMoved s (drop n (w.store s).slots) w.store)
          (λ w'. J (update_balances d s n w')) _ moved.0 moved.2
          (step d s n w moved.0 ne (source_has v d s at_dst at_src) j moved.1 moved.2)
          (λ w' m q.
            let x = update_balances-Exchanged d s n w.store w' ne m in
            let z =
              total_balance-update_balances sn d s n w.store w' distinct
                (has-get_elem? sn dst d at_dst) (has-get_elem? sn src s at_src) m.balances v.sum in
            let h' = (update_balances d s n w').store in
            ih (next_dst dst (h' d)) (next_src src (h' s)) (update_balances d s n w')
              (next-IsWindow v distinct apart at_dst at_src x z) q (next_src-le src (h' s))
              (closer v distinct apart at_dst at_src x)))

  -- The loop ends within as many rounds as the ends are apart, and with no index out of range.
  pub drain-Ends :
      (fuel dst src : ℕ) (w : World)
      → IsWindow sn before share p dst src w.store
      → J w
      → src < length sn
      → src - dst ≤ fuel
      → Ends (drain replies sn fuel dst src w)
  unfolding drain
  drain-Ends zero dst src w v j l f =
      let closed : ltb dst src ≡ false = ground arith in
      rw closed ((w, none), refl, closed_window v (omega arith), j)
  drain-Ends (suc fuel) dst src w v j l f = elim (Bool-cases (ltb dst src)) [
    | inl e ↦
        let apart : dst < src = ground arith in
        let low = get_elem?_total sn dst (omega arith) in
        let high = get_elem?_total sn src l in
        rw e (
          round-Ends (drain replies sn fuel) dst src w low.0 high.0 v j apart low.1 high.1
            (λ dst' src' w' v' j' le lt.
              drain-Ends fuel dst' src' w' v' j' (omega arith) (omega arith)))
    | inr e ↦ rw e ((w, none), refl, closed_window v (ground arith), j)
  ]
