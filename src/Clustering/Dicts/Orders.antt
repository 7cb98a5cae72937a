-- ===== src/Clustering/Dicts/Orders.antt =====
-- Distinct keys, and maps in another order.
use mathlib.Core.Path.{subst}
use mathlib.Core.List.{Permᴰ}
use redis_cluster_operator.Common.{ℕ, ◌≡◌, refl, sym, ◌∙◌, ap, false, List, Dict, Eq, arith}
use redis_cluster_operator.Clustering.Dicts.{count_at, dropped, IsNewKey, DistinctKeys}

module _ {K : Type 0} ⦃e : Eq K⦄ where
  pub dropped-permᴰ :
      (a : ℕ) (r : Dict K (List ℕ)) {m n : Dict K (List ℕ)}
      → Permᴰ m n
      → dropped a m r ≡ dropped a n r
  unfolding dropped
  dropped-permᴰ a r Permᴰ.nil = refl
  dropped-permᴰ a r (Permᴰ.cons {a = x} {b = y} q p) =
      let same : count_at a x.0 r ≡ count_at a y.0 r = ap (λ t. count_at a t.0 r) q in
      omega (arith, dropped-permᴰ a r p)
  dropped-permᴰ a r (Permᴰ.swap {a = x} {b = y} {a' = x'} {b' = y'} p q) =
      let one : count_at a x.0 r ≡ count_at a y'.0 r = ap (λ t. count_at a t.0 r) p in
      let two : count_at a y.0 r ≡ count_at a x'.0 r = ap (λ t. count_at a t.0 r) q in omega arith
  dropped-permᴰ a r (Permᴰ.trans p q) = dropped-permᴰ a r p ∙ dropped-permᴰ a r q

  pub IsNewKey-permᴰ : (k : K) {m n : Dict K (List ℕ)} → Permᴰ m n → IsNewKey k m → IsNewKey k n
  IsNewKey-permᴰ k Permᴰ.nil h = tt
  IsNewKey-permᴰ k (Permᴰ.cons q p) h =
      (ap (λ t. e.beq t.0 k) (sym q) ∙ h.0, IsNewKey-permᴰ k p h.1)
  IsNewKey-permᴰ k (Permᴰ.swap p q) h =
      (ap (λ t. e.beq t.0 k) (sym q) ∙ h.1.0, (ap (λ t. e.beq t.0 k) (sym p) ∙ h.0, h.1.1))
  IsNewKey-permᴰ k (Permᴰ.trans p q) h = IsNewKey-permᴰ k q (IsNewKey-permᴰ k p h)

  beq_symm : (j k : K) → e.beq j k ≡ false → e.beq k j ≡ false
  beq_symm j k h = ground (arith, e.beq_iff j k, e.beq_iff k j)

  pub DistinctKeys-permᴰ : {m n : Dict K (List ℕ)} → Permᴰ m n → DistinctKeys m → DistinctKeys n
  DistinctKeys-permᴰ Permᴰ.nil h = tt
  DistinctKeys-permᴰ (Permᴰ.cons {l₂ = n} q p) h =
      (subst (λ t. IsNewKey t.0 n) q (IsNewKey-permᴰ _ p h.0), DistinctKeys-permᴰ p h.1)
  DistinctKeys-permᴰ (Permᴰ.swap {a = x} {b = y} {a' = x'} {b' = y'} {l = l} p q) h = (
    (
      ap (λ t. e.beq t.0 x'.0) (sym p) ∙ ap (λ t. e.beq x.0 t.0) (sym q) ∙ beq_symm y.0 x.0 h.0.0,
      subst (λ t. IsNewKey t.0 l) q h.1.0,
    ),
    (subst (λ t. IsNewKey t.0 l) p h.0.1, h.1.1),
  )
  DistinctKeys-permᴰ (Permᴰ.trans p q) h = DistinctKeys-permᴰ q (DistinctKeys-permᴰ p h)
