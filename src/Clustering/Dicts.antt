-- ===== src/Clustering/Dicts.antt =====
-- Maps of slices, as migration.go uses them: what append and the order of a range statement do to
-- the numbers that such a map holds.
pub mod Orders
use mathlib.Core.Path.{subst}
use mathlib.Core.Logic.{∥∥₁_elim}
use mathlib.Core.List.{Permᴰ}
use native.Mathlib.Nat.{ℕ_set}
use redis_cluster_operator.Common.{
  ℕ, suc, ◌+◌, ◌≡◌, refl, sym, ◌∙◌, ap, inl, inr, Bool, true, false, Option, none, some, List, [],
  ◌∷◌, ◌++◌, if◌then◌else◌, ◌==◌, Bool-cases, count, count-append, length, length-append, Dict, Eq,
  insert, lookup, lookup-insert, All, Perm, arith,
}
use redis_cluster_operator.Clustering.{append_at, append_to}

module _ {K : Type 0} where
  -- How often the map holds a number, over all of its entries.
  unfoldable pub held : ℕ → Dict K (List ℕ) → ℕ
  held a [] = 0
  held a ((k, xs) ∷ m) = count a xs + held a m

  pub held-permᴰ : (a : ℕ) {m n : Dict K (List ℕ)} → Permᴰ m n → held a m ≡ held a n
  unfolding held
  held-permᴰ a Permᴰ.nil = refl
  held-permᴰ a (Permᴰ.cons {a = x} {b = y} e p) =
      let same : count a x.1 ≡ count a y.1 = ap (λ r. count a r.1) e in
      omega (arith, held-permᴰ a p)
  held-permᴰ a (Permᴰ.swap {a = x} {b = y} {a' = x'} {b' = y'} e f) =
      let one : count a x.1 ≡ count a y'.1 = ap (λ r. count a r.1) e in
      let two : count a y.1 ≡ count a x'.1 = ap (λ r. count a r.1) f in omega arith
  held-permᴰ a (Permᴰ.trans p q) = held-permᴰ a p ∙ held-permᴰ a q

  -- The order of the entries does not matter.
  pub held-perm : (a : ℕ) {m n : Dict K (List ℕ)} → Perm m n → held a m ≡ held a n
  held-perm a p = ∥∥₁_elim p (ℕ_set _ _) (held-permᴰ a)

-- How many numbers the map holds, over all of its entries.
unfoldable pub total : {K : Type 0} → Dict K (List ℕ) → ℕ
total [] = 0
total ((k, xs) ∷ m) = length xs + total m

-- Every number that an entry holds fits the entry's key.
abbrev pub AllAt {ℓ} : {K : Type 0} → (K → ℕ → Type ℓ) → Dict K (List ℕ) → Type ℓ
AllAt P [] = Unit
AllAt P ((k, xs) ∷ m) = All (P k) xs × AllAt P m

All-append {ℓ} : (P : ℕ → Type ℓ) (xs ys : List ℕ) → All P xs → All P ys → All P (xs ++ ys)
All-append P [] ys h k = k
All-append P (x ∷ xs) ys h k = (h.0, All-append P xs ys h.1 k)

module _ {K : Type 0} ⦃e : Eq K⦄ where
  pub append_at-cons :
      (k j : K) (xs ys : List ℕ) (m : Dict K (List ℕ))
      → append_at k xs ((j, ys) ∷ m)
        ≡ (if e.beq j k then (k, ys ++ xs) ∷ m else (j, ys) ∷ append_at k xs m)
  unfolding append_at append_to insert lookup
  append_at-cons k j xs ys m = elim (Bool-cases (e.beq j k)) [
    | inl q ↦ rw q refl
    | inr q ↦ ground arith
  ]

  pub held-append_at :
      (a : ℕ) (k : K) (xs : List ℕ) (m : Dict K (List ℕ))
      → held a (append_at k xs m) ≡ held a m + count a xs
  unfolding held
  held-append_at a k xs [] = unfold append_at append_to insert lookup in omega arith
  held-append_at a k xs ((j, ys) ∷ m) = elim (Bool-cases (e.beq j k)) [
    | inl q ↦ rw (append_at-cons k j xs ys m, q) (omega (arith, count-append a ys xs))
    | inr q ↦ rw (append_at-cons k j xs ys m, q) (omega (arith, held-append_at a k xs m))
  ]

abbrev pub count_in : ℕ → Option (List ℕ) → ℕ
count_in a none = 0
count_in a (some xs) = count a xs

count_in-append_to :
    (a : ℕ) (o : Option (List ℕ)) (xs : List ℕ)
    → count a (append_to o xs) ≡ count_in a o + count a xs
unfolding append_to
count_in-append_to a none xs = omega arith
count_in-append_to a (some old) xs = count-append a old xs

module _ {K : Type 0} ⦃e : Eq K⦄ where
  -- How often the map holds a number at a key.
  abbrev pub filed : K → ℕ → Dict K (List ℕ) → ℕ
  filed k a m = count_in a (lookup k m)

  pub filed-append_at :
      (j k : K) (a : ℕ) (xs : List ℕ) (m : Dict K (List ℕ))
      → filed j a (append_at k xs m) ≡ filed j a m + (if e.beq k j then count a xs else 0)
  unfolding append_at
  filed-append_at j k a xs m = elim (Bool-cases (e.beq k j)) [
    | inl q ↦
        let same : k ≡ j = (e.beq_iff k j).0 q in
        let one =
          count_in-append_to a (lookup k m) xs
          ∙ ap (λ i. count_in a (lookup i m) + count a xs) same in
        rw (lookup-insert k j (append_to (lookup k m) xs) m, q) one
    | inr q ↦ rw (lookup-insert k j (append_to (lookup k m) xs) m, q) (omega arith)
  ]

  append_at-nil : (k : K) (xs : List ℕ) → append_at k xs [] ≡ (k, xs) ∷ []
  unfolding append_at append_to insert lookup
  append_at-nil k xs = refl

  pub total-append_at :
      (k : K) (xs : List ℕ) (m : Dict K (List ℕ)) → total (append_at k xs m) ≡ total m + length xs
  unfolding total
  total-append_at k xs [] = rw (append_at-nil k xs) (omega arith)
  total-append_at k xs ((j, ys) ∷ m) = elim (Bool-cases (e.beq j k)) [
    | inl q ↦ rw (append_at-cons k j xs ys m, q) (omega (arith, length-append ys xs))
    | inr q ↦ rw (append_at-cons k j xs ys m, q) (omega (arith, total-append_at k xs m))
  ]

  pub AllAt-append_at {ℓ} :
      (P : K → ℕ → Type ℓ) (k : K) (xs : List ℕ) (m : Dict K (List ℕ))
      → All (P k) xs
      → AllAt P m
      → AllAt P (append_at k xs m)
  AllAt-append_at P k xs [] h a = rw (append_at-nil k xs) (h, tt)
  AllAt-append_at P k xs ((j, ys) ∷ m) h a = elim (Bool-cases (e.beq j k)) [
    | inl q ↦
        rw (append_at-cons k j xs ys m, q)
          (All-append (P k) ys xs (subst (λ i. All (P i) ys) ((e.beq_iff j k).0 q) a.0) h, a.1)
    | inr q ↦ rw (append_at-cons k j xs ys m, q) (a.0, AllAt-append_at P k xs m h a.1)
  ]

-- m[k], where a missing key reads as the empty slice.
abbrev or_empty : Option (List ℕ) → List ℕ
or_empty none = []
or_empty (some xs) = xs

module _ {K : Type 0} ⦃e : Eq K⦄ where
  unfoldable pub count_at : ℕ → K → Dict K (List ℕ) → ℕ
  count_at a k m = count a (or_empty (lookup k m))

  pub count_at-nil : (a : ℕ) (k : K) → count_at a k [] ≡ 0
  unfolding count_at lookup
  count_at-nil a k = refl

  pub count_at-insert_ne :
      (a : ℕ) (k j : K) (xs : List ℕ) (m : Dict K (List ℕ))
      → e.beq k j ≡ false
      → count_at a j (insert k xs m) ≡ count_at a j m
  unfolding count_at
  count_at-insert_ne a k j xs m h = rw (lookup-insert k j xs m, h) refl

  -- What an assignment m[k] = xs drops and adds.
  pub held-insert :
      (a : ℕ) (k : K) (xs : List ℕ) (m : Dict K (List ℕ))
      → held a (insert k xs m) + count_at a k m ≡ held a m + count a xs
  unfolding held count_at lookup insert
  held-insert a k xs [] = omega arith
  held-insert a k xs ((j, ys) ∷ m) = ground (arith, held-insert a k xs m)

  pub count_at-append_at :
      (a : ℕ) (k j : K) (xs : List ℕ) (m : Dict K (List ℕ))
      → count_at a j (append_at k xs m) ≡ count_at a j m + (if e.beq k j then count a xs else 0)
  unfolding count_at append_at append_to
  count_at-append_at a k j xs m = ground (
    arith,
    lookup-insert k j (append_to (lookup k m) xs) m,
    e.beq_iff k j,
    count-append a (or_empty (lookup k m)) xs,
  )

  -- What the entries of the first map overwrite in the second.
  unfoldable pub dropped : ℕ → Dict K (List ℕ) → Dict K (List ℕ) → ℕ
  dropped a [] m = 0
  dropped a ((k, xs) ∷ new) m = count_at a k m + dropped a new m

  -- No entry of the map has the key.
  abbrev pub IsNewKey : K → Dict K (List ℕ) → Type 0
  IsNewKey k [] = Unit
  IsNewKey k ((j, xs) ∷ m) = (e.beq j k ≡ false) × IsNewKey k m

  abbrev pub DistinctKeys : Dict K (List ℕ) → Type 0
  DistinctKeys [] = Unit
  DistinctKeys ((k, xs) ∷ m) = IsNewKey k m × DistinctKeys m

  -- Writing at a new key adds an entry.
  pub insert_new :
      (k : K) (xs : List ℕ) (m : Dict K (List ℕ)) → IsNewKey k m → insert k xs m ≡ m ++ (k, xs) ∷ []
  unfolding insert
  insert_new k xs [] h = refl
  insert_new k xs ((j, ys) ∷ m) h = rw (h.0) (ap (λ t. (j, ys) ∷ t) (insert_new k xs m h.1))

  pub dropped-insert :
      (a : ℕ) (k : K) (xs : List ℕ) (new m : Dict K (List ℕ))
      → IsNewKey k new
      → dropped a new (insert k xs m) ≡ dropped a new m
  unfolding dropped count_at
  dropped-insert a k xs [] m h = refl
  dropped-insert a k xs ((j, ys) ∷ new) m h =
      ground (
        arith,
        lookup-insert k j xs m,
        e.beq_iff k j,
        e.beq_iff j k,
        dropped-insert a k xs new m h.1,
      )
