-- ===== src/Clustering/Rebalance/Drain.antt =====
-- The loop of RebalancedCluster over the masters from both ends (pkg/controller/clustering/rebalance.go).
use mathlib.Core.Path.{subst}
use redis_cluster_operator.Common.{
  ℕ, ◌+◌, ◌-◌, ◌≤◌, ◌<◌, ◌≡◌, ◌≢◌, sym, ◌∙◌, ap, some, List, ltb, ◌==◌, inl, inr, ◌⊎◌, Bool-cases,
  length, drop, drop-drop, get_elem?, pos, pos_part, neg_part, ◌+ℤ◌, ◌-ℤ◌, ◌≤ℤ◌, +ℤ_parts, -ℤ_parts,
  nonpos_part, nonneg_part, arith,
}
use redis_cluster_operator.Node.{Node}
use redis_cluster_operator.Clustering.{Ref, Store}
use redis_cluster_operator.Clustering.Rebalance.{total_balance, abs, num_slots_between}
use redis_cluster_operator.Clustering.Rebalance.Totals.{
  IsZero, IsDistinct, get_elem?_injective, balance-le-total_balance, total_balance-le-balance,
}
use redis_cluster_operator.Clustering.Rebalance.Window.{Exchanged}

-- The node at index i is on course to its share: the masters before index p only receive, those
-- from p on only give, and what one that gives still holds beyond its share is its balance.
pub record IsOnCourse (share p i : ℕ) (initial : List ℕ) (n : Node) : Type 0 where
  pub receives : i < p → n.balance ≤ℤ pos 0
  pub gives : p ≤ i → pos 0 ≤ℤ n.balance
  pub room : p ≤ i → share + pos_part n.balance ≤ length initial
  pub kept : n.slots ≡ drop (length initial - (share + pos_part n.balance)) initial

pub record IsWindow (sn : List Ref) (before : Store) (share p dst src : ℕ) (h : Store)
    : Type 0 where
  pub course :
      (i : ℕ) (r : Ref) → get_elem? sn i ≡ some r → IsOnCourse share p i (before r).slots (h r)
  pub low : (i : ℕ) (r : Ref) → get_elem? sn i ≡ some r → i < dst → IsZero (h r).balance
  pub high : (i : ℕ) (r : Ref) → get_elem? sn i ≡ some r → src < i → IsZero (h r).balance
  pub sum : IsZero (total_balance h sn)

module _ {sn : List Ref} {before : Store} {share p dst src : ℕ} {h : Store}
    (v : IsWindow sn before share p dst src h) where
  -- The lower end never has too much, since all others would have to make up for it.
  pub dst_receives : (r : Ref) → get_elem? sn dst ≡ some r → (h r).balance ≤ℤ pos 0
  dst_receives r g = elim (Bool-cases (ltb dst p)) [
    | inl e ↦ (v.course dst r g).receives (ground arith)
    | inr e ↦
        let up : (i : ℕ) (q : Ref) → get_elem? sn i ≡ some q → pos 0 ≤ℤ (h q).balance = λ i q m.
          elim (Bool-cases (ltb i dst)) [
            | inl l ↦ let z = v.low i q m (ground arith) in omega (arith, z)
            | inr l ↦ (v.course i q m).gives (ground arith)
          ] in
        let bound = balance-le-total_balance h sn dst r up g in
        let z = v.sum in omega (arith, bound, z)
  ]

  pub src_gives : (r : Ref) → get_elem? sn src ≡ some r → pos 0 ≤ℤ (h r).balance
  src_gives r g = elim (Bool-cases (ltb src p)) [
    | inl e ↦
        let down : (i : ℕ) (q : Ref) → get_elem? sn i ≡ some q → (h q).balance ≤ℤ pos 0 = λ i q m.
          elim (Bool-cases (ltb src i)) [
            | inl l ↦ let z = v.high i q m (ground arith) in omega (arith, z)
            | inr l ↦ (v.course i q m).receives (ground arith)
          ] in
        let bound = total_balance-le-balance h sn src r down g in
        let z = v.sum in omega (arith, bound, z)
    | inr e ↦ (v.course src r g).gives (ground arith)
  ]

-- Of the two numbers the smaller one is exchanged.
pub num_slots_between_lem :
    (d s : Node)
    → d.balance ≤ℤ pos 0
    → pos 0 ≤ℤ s.balance
    → (let n = num_slots_between d s in
        (n ≤ neg_part d.balance)
        × (n ≤ pos_part s.balance)
        × ((n ≡ neg_part d.balance) ⊎ (n ≡ pos_part s.balance)))
unfolding num_slots_between abs
num_slots_between_lem d s l g =
    let a = nonpos_part d.balance l in let b = nonneg_part s.balance g in ground arith

pub target_course :
    (share p i n : ℕ) (initial : List ℕ) (a b : Node)
    → IsOnCourse share p i initial a
    → b.balance ≡ a.balance +ℤ pos n
    → b.slots ≡ a.slots
    → a.balance ≤ℤ pos 0
    → n ≤ neg_part a.balance
    → IsOnCourse share p i initial b
target_course share p i n initial a b c e s l m =
    let pe = ap pos_part e in
    let ne = ap neg_part e in
    let pa = nonpos_part a.balance l in
    let down : b.balance ≤ℤ pos 0 = omega (arith, +ℤ_parts, pe, ne) in
    let pb = nonpos_part b.balance down in
    record {
      receives = λ u. down;
      gives = λ u. let g = c.gives u in omega (arith, +ℤ_parts, pe, ne, g);
      room = λ u. let g = c.room u in omega (arith, g);
      kept = s ∙ rw (pb) (rw (sym pa) c.kept);
    }

dropped_more :
    (share p i n pa pb : ℕ) (initial : List ℕ)
    → n + pb ≡ pa
    → (i < p → n ≡ 0)
    → (p ≤ i → share + pa ≤ length initial)
    → length initial - (share + pa) + n ≡ length initial - (share + pb)
dropped_more share p i n pa pb initial e low room = elim (Bool-cases (ltb i p)) [
  | inl l ↦ let z = low (ground arith) in omega (arith, z)
  | inr l ↦ let z = room (ground arith) in omega (arith, z)
]

pub source_course :
    (share p i n : ℕ) (initial : List ℕ) (a b : Node)
    → IsOnCourse share p i initial a
    → b.balance ≡ a.balance -ℤ pos n
    → b.slots ≡ drop n a.slots
    → pos 0 ≤ℤ a.balance
    → n ≤ pos_part a.balance
    → IsOnCourse share p i initial b
source_course share p i n initial a b c e s g m =
    let pe = ap pos_part e in
    let ne = ap neg_part e in
    let na = nonneg_part a.balance g in
    let up : pos 0 ≤ℤ b.balance = omega (arith, -ℤ_parts, pe, ne) in
    let nb = nonneg_part b.balance up in
    let less : n + pos_part b.balance ≡ pos_part a.balance = omega (arith, -ℤ_parts, pe, ne) in
    let more =
      dropped_more share p i n (pos_part a.balance) (pos_part b.balance) initial less
        (λ u. let z = c.receives u in omega (arith, z)) c.room in
    record {
      receives = λ u. let z = c.receives u in omega (arith, z);
      gives = λ u. up;
      room = λ u. let z = c.room u in omega (arith, z);
      kept = s ∙ ap (drop n) c.kept ∙ drop-drop n _ initial ∙ ap (λ t. drop t initial) more;
    }

module _ {sn : List Ref} {before : Store} {share p dst src : ℕ} {h h' : Store} {d s : Ref}
    (v : IsWindow sn before share p dst src h) (distinct : IsDistinct sn) (apart : dst < src)
    (at_dst : get_elem? sn dst ≡ some d) (at_src : get_elem? sn src ≡ some s)
    (x : Exchanged d s (num_slots_between (h d) (h s)) h h') where
  -- A master of the list is the target, the source, or as it was.
  pub place :
      (i : ℕ) (r : Ref)
      → get_elem? sn i ≡ some r
      → ((r ≡ d) × (i ≡ dst)) ⊎ ((r ≡ s) × (i ≡ src)) ⊎ ((h' r ≡ h r) × (i ≢ dst) × (i ≢ src))
  place i r g = elim (Bool-cases (r == d)) [
    | inl e ↦
        let same : r ≡ d = ground arith in
        inl (same, get_elem?_injective sn i dst d distinct (g ∙ ap some same) at_dst)
    | inr e ↦ elim (Bool-cases (r == s)) [
      | inl f ↦
          let same : r ≡ s = ground arith in
          inr (inl (same, get_elem?_injective sn i src s distinct (g ∙ ap some same) at_src))
      | inr f ↦ inr (
          inr (
            x.others r (ground arith) (ground arith),
            (λ u.
                let w : get_elem? sn dst ≡ some r = ap (get_elem? sn) (sym u) ∙ g in ground arith),
            (λ u.
                let w : get_elem? sn src ≡ some r = ap (get_elem? sn) (sym u) ∙ g in ground arith),
          ))
    ]
  ]

  pub exchanged_course :
      (i : ℕ) (r : Ref) → get_elem? sn i ≡ some r → IsOnCourse share p i (before r).slots (h' r)
  exchanged_course i r g =
      let low = dst_receives v d at_dst in
      let high = src_gives v s at_src in
      let n = num_slots_between (h d) (h s) in
      let bounds = num_slots_between_lem (h d) (h s) low high in
      elim (place i r g) [
        | inl (e, _) ↦
            subst (λ t. IsOnCourse share p i (before t).slots (h' t)) (sym e)
              (target_course share p i n (before d).slots (h d) (h' d)
                (subst (λ t. IsOnCourse share p i (before t).slots (h t)) e (v.course i r g))
                x.target_balance x.target_slots low bounds.0)
        | inr (inl (e, _)) ↦
            subst (λ t. IsOnCourse share p i (before t).slots (h' t)) (sym e)
              (source_course share p i n (before s).slots (h s) (h' s)
                (subst (λ t. IsOnCourse share p i (before t).slots (h t)) e (v.course i r g))
                x.source_balance x.source_slots high bounds.1)
        | inr (inr (e, _, _)) ↦
            subst (IsOnCourse share p i (before r).slots) (sym e) (v.course i r g)
      ]
