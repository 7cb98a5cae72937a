-- ===== src/Clustering/Rebalance/Totals.antt =====
-- Sums of balances over masters (pkg/controller/clustering/rebalance.go).
use redis_cluster_operator.Common.{
  ℕ, zero, suc, ◌+◌, ◌≡◌, ◌≢◌, refl, sym, ◌∙◌, ap, true, false, some, List, [], ◌∷◌, ◌==◌, has, inl,
  inr, Bool-cases, get_elem?, ℤ, pos, pos_part, neg_part, ◌≤ℤ◌, +ℤ_parts, arith,
}
use redis_cluster_operator.Node.{Node}
use redis_cluster_operator.Clustering.{Ref, Store, update, update_self, update_ne}
use redis_cluster_operator.Clustering.Rebalance.{total_balance}

-- a = b + c, on the parts.
abbrev pub IsSum : ℤ → ℤ → ℤ → Type 0
IsSum a b c = pos_part a + neg_part b + neg_part c ≡ neg_part a + pos_part b + pos_part c

abbrev pub IsZero : ℤ → Type 0
IsZero a = pos_part a ≡ neg_part a

-- No master stands twice in the list.
abbrev pub IsDistinct : List Ref → Type 0
IsDistinct [] = Unit
IsDistinct (r ∷ rs) = (has r rs ≡ false) × IsDistinct rs

pub has-get_elem? : (rs : List Ref) (i : ℕ) (r : Ref) → get_elem? rs i ≡ some r → has r rs ≡ true
has-get_elem? [] i r g = ground arith
has-get_elem? (q ∷ rs) zero r g = ground arith
has-get_elem? (q ∷ rs) (suc i) r g = ground (arith, has-get_elem? rs i r)

pub get_elem?_injective :
    (rs : List Ref) (i j : ℕ) (r : Ref)
    → IsDistinct rs
    → get_elem? rs i ≡ some r
    → get_elem? rs j ≡ some r
    → i ≡ j
get_elem?_injective [] i j r d g h = ground arith
get_elem?_injective (q ∷ rs) zero zero r d g h = refl
get_elem?_injective (q ∷ rs) zero (suc j) r d g h = ground (arith, has-get_elem? rs j r)
get_elem?_injective (q ∷ rs) (suc i) zero r d g h = ground (arith, has-get_elem? rs i r)
get_elem?_injective (q ∷ rs) (suc i) (suc j) r d g h = ap suc (get_elem?_injective rs i j r d.1 g h)

pub total_balance-update_other :
    (rs : List Ref) (h : Store) (r : Ref) (n : Node)
    → has r rs ≡ false
    → total_balance (update h r n) rs ≡ total_balance h rs
unfolding total_balance
total_balance-update_other [] h r n d = refl
total_balance-update_other (q ∷ rs) h r n d =
    let ne : q ≢ r = ground arith in
    let out : has r rs ≡ false = ground arith in
    rw (update_ne h r q n ne, total_balance-update_other rs h r n out) refl

-- Writing one node changes the sum by the change of its balance.
pub total_balance-update :
    (rs : List Ref) (h : Store) (r : Ref) (n : Node)
    → IsDistinct rs
    → has r rs ≡ true
    → (let after = total_balance (update h r n) rs in
        let before = total_balance h rs in
        let old = (h r).balance in
        pos_part after + neg_part before + pos_part old + neg_part n.balance
        ≡ neg_part after + pos_part before + neg_part old + pos_part n.balance)
unfolding total_balance
total_balance-update [] h r n d m = absurd (ground arith)
total_balance-update (q ∷ rs) h r n d m = elim (Bool-cases (q == r)) [
  | inl e ↦
      let same : q ≡ r = ground arith in
      let out : has r rs ≡ false = ap (λ t. has t rs) (sym same) ∙ d.0 in
      let now : (update h r n q).balance ≡ n.balance =
        ap (λ t. (update h r n t).balance) same ∙ ap (λ t. t.balance) (update_self h r n) in
      let old : (h r).balance ≡ (h q).balance = ap (λ t. (h t).balance) (sym same) in
      rw (now, old, total_balance-update_other rs h r n out) (omega (arith, +ℤ_parts))
  | inr e ↦
      let ne : q ≢ r = ground arith in
      let later = total_balance-update rs h r n d.1 (ground arith) in
      rw (ap (λ t. t.balance) (update_ne h r q n ne)) (omega (arith, +ℤ_parts, later))
]

-- In a sum of balances that are at least 0, each is at most the sum.
pub total_balance-nonneg :
    (h : Store) (rs : List Ref)
    → ((i : ℕ) (r : Ref) → get_elem? rs i ≡ some r → pos 0 ≤ℤ (h r).balance)
    → pos 0 ≤ℤ total_balance h rs
unfolding total_balance
total_balance-nonneg h [] up = omega arith
total_balance-nonneg h (r ∷ rs) up =
    let rest = total_balance-nonneg h rs (λ i. up (suc i)) in
    let first = up 0 r refl in omega (arith, +ℤ_parts, rest, first)

pub balance-le-total_balance :
    (h : Store) (rs : List Ref) (i : ℕ) (r : Ref)
    → ((j : ℕ) (q : Ref) → get_elem? rs j ≡ some q → pos 0 ≤ℤ (h q).balance)
    → get_elem? rs i ≡ some r
    → (h r).balance ≤ℤ total_balance h rs
unfolding total_balance
balance-le-total_balance h [] i r up g = ground arith
balance-le-total_balance h (q ∷ rs) zero r up g =
    let same : q ≡ r = ground arith in
    let rest = total_balance-nonneg h rs (λ i. up (suc i)) in
    rw (sym same) (omega (arith, +ℤ_parts, rest))
balance-le-total_balance h (q ∷ rs) (suc i) r up g =
    let rest = balance-le-total_balance h rs i r (λ j. up (suc j)) g in
    let first = up 0 q refl in omega (arith, +ℤ_parts, rest, first)

pub total_balance-nonpos :
    (h : Store) (rs : List Ref)
    → ((i : ℕ) (r : Ref) → get_elem? rs i ≡ some r → (h r).balance ≤ℤ pos 0)
    → total_balance h rs ≤ℤ pos 0
unfolding total_balance
total_balance-nonpos h [] down = omega arith
total_balance-nonpos h (r ∷ rs) down =
    let rest = total_balance-nonpos h rs (λ i. down (suc i)) in
    let first = down 0 r refl in omega (arith, +ℤ_parts, rest, first)

pub total_balance-le-balance :
    (h : Store) (rs : List Ref) (i : ℕ) (r : Ref)
    → ((j : ℕ) (q : Ref) → get_elem? rs j ≡ some q → (h q).balance ≤ℤ pos 0)
    → get_elem? rs i ≡ some r
    → total_balance h rs ≤ℤ (h r).balance
unfolding total_balance
total_balance-le-balance h [] i r down g = ground arith
total_balance-le-balance h (q ∷ rs) zero r down g =
    let same : q ≡ r = ground arith in
    let rest = total_balance-nonpos h rs (λ i. down (suc i)) in
    rw (sym same) (omega (arith, +ℤ_parts, rest))
total_balance-le-balance h (q ∷ rs) (suc i) r down g =
    let rest = total_balance-le-balance h rs i r (λ j. down (suc j)) g in
    let first = down 0 q refl in omega (arith, +ℤ_parts, rest, first)

pub total_balance-cong :
    (rs : List Ref) (h h' : Store)
    → ((q : Ref) → has q rs ≡ true → (h' q).balance ≡ (h q).balance)
    → total_balance h' rs ≡ total_balance h rs
unfolding total_balance
total_balance-cong [] h h' e = refl
total_balance-cong (r ∷ rs) h h' e =
    rw (e r (ground arith), total_balance-cong rs h h' (λ q m. e q (ground arith))) refl
