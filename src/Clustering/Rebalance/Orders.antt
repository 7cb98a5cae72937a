-- ===== src/Clustering/Rebalance/Orders.antt =====
-- SortByFunc by balance (pkg/redisutil/node.go, used by pkg/controller/clustering/rebalance.go):
-- any ascending arrangement of the masters, since the sort is not stable.
use mathlib.Core.Path.{subst}
use mathlib.Core.Logic.{∥∥₁_elim}
use mathlib.Core.List.{Permᴰ}
use native.Mathlib.Nat.{ℕ_set}
use redis_cluster_operator.Common.{
  ℕ, zero, suc, ◌+◌, ◌≤◌, ◌<◌, ◌≡◌, refl, sym, ◌∙◌, ap, false, some, List, [], ◌∷◌, ◌==◌, ltb_ℤ,
  if◌then◌else◌, inl, inr, Bool-cases, has, length, All, ==_iff, get_elem?, Perm, ℤ, pos, pos_part,
  neg_part, ◌≤ℤ◌, +ℤ_parts, arith,
}
use redis_cluster_operator.Clustering.{Ref, Store}
use redis_cluster_operator.Clustering.Rebalance.{total_balance}
use redis_cluster_operator.Clustering.Rebalance.Totals.{IsZero, IsDistinct}

abbrev pub IsAscending : Store → List Ref → Type 0
IsAscending h [] = Unit
IsAscending h (r ∷ rs) = All (λ q. (h r).balance ≤ℤ (h q).balance) rs × IsAscending h rs

pub record BalanceOrder : Type 0 where
  pub sorted : Store → List Ref → List Ref
  pub sorted_perm : (h : Store) (rs : List Ref) → Perm (sorted h rs) rs
  pub sorted_ascends : (h : Store) (rs : List Ref) → IsAscending h (sorted h rs)

All-get_elem? {ℓ} :
    {A : Type 0} (P : A → Type ℓ) (xs : List A) (i : ℕ) (x : A)
    → All P xs
    → get_elem? xs i ≡ some x
    → P x
All-get_elem? P [] i x a g = ground arith
All-get_elem? P (y ∷ xs) zero x a g = let e : y ≡ x = ground arith in subst P e a.0
All-get_elem? P (y ∷ xs) (suc i) x a g = All-get_elem? P xs i x a.1 g

-- The place from which on no balance is negative.
unfoldable pub pivot : Store → List Ref → ℕ
pivot h [] = 0
pivot h (r ∷ rs) = let rest = pivot h rs in if ltb_ℤ (h r).balance (pos 0) then suc rest else 0

pub pivot_low :
    (h : Store) (rs : List Ref) (i : ℕ) (r : Ref)
    → get_elem? rs i ≡ some r
    → i < pivot h rs
    → (h r).balance ≤ℤ pos 0
unfolding pivot
pivot_low h [] i r g l = ground arith
pivot_low h (q ∷ rs) zero r g l = let e : q ≡ r = ground arith in rw (sym e) (ground arith)
pivot_low h (q ∷ rs) (suc i) r g l = pivot_low h rs i r g (ground arith)

pub pivot_high :
    (h : Store) (rs : List Ref) (i : ℕ) (r : Ref)
    → IsAscending h rs
    → get_elem? rs i ≡ some r
    → pivot h rs ≤ i
    → pos 0 ≤ℤ (h r).balance
unfolding pivot
pivot_high h [] i r a g l = ground arith
pivot_high h (q ∷ rs) zero r a g l = let e : q ≡ r = ground arith in rw (sym e) (ground arith)
pivot_high h (q ∷ rs) (suc i) r a g l = elim (Bool-cases (ltb_ℤ (h q).balance (pos 0))) [
  | inl e ↦ pivot_high h rs i r a.1 g (ground arith)
  | inr e ↦
      let more = All-get_elem? (λ t. (h q).balance ≤ℤ (h t).balance) rs i r a.0 g in ground arith
]

has-permᴰ : (a : ℕ) {xs ys : List Ref} → Permᴰ xs ys → has a xs ≡ has a ys
has-permᴰ a Permᴰ.nil = refl
has-permᴰ a (Permᴰ.cons {a = x} {b = y} q p) =
    let e : (x == a) ≡ (y == a) = ap (λ t. t == a) q in ground (arith, has-permᴰ a p)
has-permᴰ a (Permᴰ.swap {a = x} {b = y} {a' = x'} {b' = y'} p q) =
    let e : (x == a) ≡ (y' == a) = ap (λ t. t == a) p in
    let f : (y == a) ≡ (x' == a) = ap (λ t. t == a) q in ground arith
has-permᴰ a (Permᴰ.trans p q) = has-permᴰ a p ∙ has-permᴰ a q

pub has-perm : (a : ℕ) {xs ys : List Ref} → Perm xs ys → has a xs ≡ has a ys
has-perm a p = ∥∥₁_elim p (hlevel) (has-permᴰ a)

length-permᴰ : {xs ys : List Ref} → Permᴰ xs ys → length xs ≡ length ys
length-permᴰ Permᴰ.nil = refl
length-permᴰ (Permᴰ.cons q p) = ap suc (length-permᴰ p)
length-permᴰ (Permᴰ.swap p q) = refl
length-permᴰ (Permᴰ.trans p q) = length-permᴰ p ∙ length-permᴰ q

pub length-perm : {xs ys : List Ref} → Perm xs ys → length xs ≡ length ys
length-perm p = ∥∥₁_elim p (ℕ_set _ _) length-permᴰ

-- Equal as differences.
abbrev Same : ℤ → ℤ → Type 0
Same a b = pos_part a + neg_part b ≡ neg_part a + pos_part b

total_balance-permᴰ :
    (h : Store) {xs ys : List Ref} → Permᴰ xs ys → Same (total_balance h xs) (total_balance h ys)
unfolding total_balance
total_balance-permᴰ h Permᴰ.nil = refl
total_balance-permᴰ h (Permᴰ.cons {a = x} {b = y} q p) =
    let e : (h x).balance ≡ (h y).balance = ap (λ t. (h t).balance) q in
    rw (e) (omega (arith, +ℤ_parts, total_balance-permᴰ h p))
total_balance-permᴰ h (Permᴰ.swap {a = x} {b = y} {a' = x'} {b' = y'} p q) =
    let e : (h x).balance ≡ (h y').balance = ap (λ t. (h t).balance) p in
    let f : (h y).balance ≡ (h x').balance = ap (λ t. (h t).balance) q in
    rw (e, f) (omega (arith, +ℤ_parts))
total_balance-permᴰ h (Permᴰ.trans p q) =
    omega (arith, total_balance-permᴰ h p, total_balance-permᴰ h q)

pub total_balance-perm :
    (h : Store) {xs ys : List Ref}
    → Perm xs ys
    → IsZero (total_balance h ys)
    → IsZero (total_balance h xs)
total_balance-perm h {xs} {ys} p z =
    let e : Same (total_balance h xs) (total_balance h ys) =
      ∥∥₁_elim p (ℕ_set _ _) (total_balance-permᴰ h) in
    omega (arith, e, z)

IsDistinct-permᴰ : {xs ys : List Ref} → Permᴰ xs ys → IsDistinct xs → IsDistinct ys
IsDistinct-permᴰ Permᴰ.nil d = tt
IsDistinct-permᴰ (Permᴰ.cons {a = x} {b = y} {l₂ = ys} q p) d =
    (ap (λ t. has t ys) (sym q) ∙ sym (has-permᴰ x p) ∙ d.0, IsDistinct-permᴰ p d.1)
IsDistinct-permᴰ (Permᴰ.swap {a = x} {b = y} {a' = x'} {b' = y'} {l = l} p q) d =
    let xy : has x (y ∷ l) ≡ false = d.0 in
    let y_l : has y l ≡ false = d.1.0 in
    let e : has x' (y' ∷ l) ≡ has y (x ∷ l) = sym (λ i. has (q i) (p i ∷ l)) in
    let f : has y' l ≡ has x l = ap (λ t. has t l) (sym p) in
    (e ∙ (ground (arith, ==_iff x y, ==_iff y x)), (f ∙ ground arith, d.1.1))
IsDistinct-permᴰ (Permᴰ.trans p q) d = IsDistinct-permᴰ q (IsDistinct-permᴰ p d)

IsDistinct-prop : (xs : List Ref) (a b : IsDistinct xs) → a ≡ b
IsDistinct-prop [] a b = refl
IsDistinct-prop (x ∷ xs) a b = hlevel (IsDistinct-prop xs)

pub IsDistinct-perm : {xs ys : List Ref} → Perm xs ys → IsDistinct xs → IsDistinct ys
IsDistinct-perm {xs} {ys} p d = ∥∥₁_elim p (IsDistinct-prop ys) (λ q. IsDistinct-permᴰ q d)
