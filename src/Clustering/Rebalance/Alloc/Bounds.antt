-- ===== src/Clustering/Rebalance/Alloc/Bounds.antt =====
-- The bounds that AllocSlots computes (pkg/controller/clustering/rebalance.go).
use mathlib.Core.Path.{subst}
use native.Mathlib.Nat.{div-mul-le_self, le-div_iff_mul-le, div-lt_iff_lt-mul}
use redis_cluster_operator.Common.{
  ℕ, zero, suc, ◌+◌, ◌-◌, ◌*◌, ◌/◌, ◌≤◌, ◌<◌, ◌≡◌, sym, ap, true, ◌||◌, List, [], ◌∷◌, ltb, leb,
  ◌==◌, length, arith,
}
use redis_cluster_operator.Clustering.{Ref}
use redis_cluster_operator.Clustering.Rebalance.Alloc.{round_last, last_slot}

-- The rounded quotient by itself.
abbrev pub rounded : ℕ → ℕ → ℕ
rounded masters product = (2 * (product - masters) + masters) / (2 * masters)

rounded_step :
    (masters slots product : ℕ)
    → 0 < masters
    → masters ≤ slots
    → masters ≤ product
    → rounded masters product + 1 ≤ rounded masters (product + slots)
rounded_step masters slots product p f l =
    let below = div-mul-le_self (2 * (product - masters) + masters) (2 * masters) in
    (le-div_iff_mul-le {k = 2 * masters} {x = rounded masters product + 1}
        {y = 2 * (product + slots - masters) + masters} (omega arith)).1
      (grind (arith, below))

rounded_bound :
    (masters slots product : ℕ)
    → 0 < masters
    → masters ≤ slots
    → masters ≤ product
    → product + slots ≤ masters * slots
    → rounded masters product + 1 < slots
rounded_bound masters zero product p f l b = absurd (omega arith)
rounded_bound masters (suc slots) product p f l b =
    let lt : rounded masters product < slots =
      (div-lt_iff_lt-mul {k = 2 * masters} {x = 2 * (product - masters) + masters} {y = slots}
          (omega arith)).1
        (grind (arith, b)) in
    omega (arith, lt)

module _ (slots masters : ℕ) (some_master : 0 < masters) (fits : masters ≤ slots) where
  enough : (index : ℕ) → masters ≤ (index + 1) * slots
  enough index = grind (arith, fits)

  last_slot_final :
      (index first : ℕ)
      → index + 1 ≡ masters
      → first < slots
      → last_slot slots masters index first ≡ slots - 1
  unfolding last_slot
  last_slot_final index first e l =
      let here : (index == masters - 1) ≡ true = ground arith in
      let over : (ltb slots (round_last slots masters index) || index == masters - 1) ≡ true =
        ground arith in
      rw over (ground arith)

  last_slot_inner :
      (index first : ℕ)
      → index + 1 < masters
      → first ≤ rounded masters ((index + 1) * slots)
      → rounded masters ((index + 1) * slots) < slots
      → last_slot slots masters index first ≡ rounded masters ((index + 1) * slots)
  unfolding last_slot round_last
  last_slot_inner index first i l b =
      let e : leb masters ((index + 1) * slots) ≡ true = let z = enough index in ground arith in
      rw e (ground arith)

  -- What the loop knows before it comes to a list of masters.
  abbrev pub Ready : ℕ → ℕ → List Ref → Type 0
  Ready index first [] = first ≡ slots
  Ready index first (x ∷ []) = (index + 1 ≡ masters) × (first < slots)
  Ready index first (x ∷ y ∷ rest) =
      (index + 2 + length rest ≡ masters) × (first ≤ rounded masters ((index + 1) * slots))

  inner_bound :
      (index n : ℕ) → index + 2 + n ≡ masters → rounded masters ((index + 1) * slots) + 1 < slots
  inner_bound index n e =
      let scaled = ap (λ (t : ℕ). t * slots) e in
      rounded_bound masters slots ((index + 1) * slots) some_master fits (enough index)
        (grind (arith, scaled))

  inner_step :
      (index : ℕ)
      → rounded masters ((index + 1) * slots) + 1 ≤ rounded masters ((suc index + 1) * slots)
  inner_step index =
      let e : (suc index + 1) * slots ≡ (index + 1) * slots + slots = grind arith in
      rw e (rounded_step masters slots ((index + 1) * slots) some_master fits (enough index))

  Ready-inner :
      (index : ℕ) (y : Ref) (rest : List Ref)
      → index + 2 + length rest ≡ masters
      → Ready (suc index) (rounded masters ((index + 1) * slots) + 1) (y ∷ rest)
  Ready-inner index y [] e = (omega arith, inner_bound index 0 (omega arith))
  Ready-inner index y (z ∷ rest) e = (omega arith, inner_step index)

  -- Each step stays in bounds and leaves the loop ready.
  pub Ready-step :
      (index first : ℕ) (x : Ref) (rest : List Ref)
      → Ready index first (x ∷ rest)
      → (let last = last_slot slots masters index first in
          (first ≤ last) × (last < slots) × Ready (suc index) (last + 1) rest)
  Ready-step index first x [] r =
      rw (last_slot_final index first r.0 r.1) (omega arith, omega arith, omega arith)
  Ready-step index first x (y ∷ rest) r =
      let b = inner_bound index (length rest) (omega arith) in
      subst (λ last. (first ≤ last) × (last < slots) × Ready (suc index) (last + 1) (y ∷ rest))
        (sym (last_slot_inner index first (omega arith) r.1 (omega arith)))
        (r.1, omega arith, Ready-inner index y rest r.0)
