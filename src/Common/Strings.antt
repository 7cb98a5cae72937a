-- ===== src/Common/Strings.antt =====
-- Go strings as lists of bytes: equality, and the functions of package strings and strconv that
-- the code calls.
use Prim.Native.Nat.{ℕ}
use Prim.Native.Char.{code}
use Prim.Native.String.{String}
use mathlib.Core.Path.{◌≡◌, refl, ap, ◌∙◌}
use mathlib.Core.Logic.{◌↔◌, inl, inr}
use mathlib.Core.Bool.{Bool, true, false, ◌&&◌}
use mathlib.Core.List.{List, [], ◌∷◌, ◌++◌, append-nil, append_assoc}
use native.Mathlib.Omega.{arith}
use redis_cluster_operator.Common.Tests.{if◌then◌else◌, ◌==◌, Bool-cases}

abbrev pub Text : Type 0
Text = List ℕ

-- The bytes of a text literal.
abbrev pub codes : String → Text
codes String.[] = []
codes (String.◌∷◌ c s) = code c ∷ codes s

unfoldable pub text_eq : Text → Text → Bool
text_eq [] [] = true
text_eq [] (y ∷ ys) = false
text_eq (x ∷ xs) [] = false
text_eq (x ∷ xs) (y ∷ ys) = x == y && text_eq xs ys

pub text_eq→eq : (s t : Text) → text_eq s t ≡ true → s ≡ t
unfolding text_eq
text_eq→eq [] [] h = refl
text_eq→eq [] (y ∷ ys) h = cc
text_eq→eq (x ∷ xs) [] h = cc
text_eq→eq (x ∷ xs) (y ∷ ys) h = ground (arith, text_eq→eq xs ys)

pub text_eq_refl : (s : Text) → text_eq s s ≡ true
unfolding text_eq
text_eq_refl [] = refl
text_eq_refl (x ∷ xs) = ground (arith, text_eq_refl xs)

pub eq→text_eq : (s t : Text) → s ≡ t → text_eq s t ≡ true
eq→text_eq s t e = rw e (text_eq_refl t)

pub text_eq_iff : (s t : Text) → (text_eq s t ≡ true) ↔ (s ≡ t)
text_eq_iff s t = (text_eq→eq s t, eq→text_eq s t)

abbrev pub is_empty : Text → Bool
is_empty [] = true
is_empty (x ∷ xs) = false

-- strings.Split for a one-byte separator: the text between its occurrences, never the empty list.
split_from : ℕ → Text → Text → List Text
split_from sep part [] = part ∷ []
split_from sep part (c ∷ s) =
    let cut = part ∷ split_from sep [] s in
    let rest = split_from sep (part ++ c ∷ []) s in if c == sep then cut else rest

unfoldable pub split : ℕ → Text → List Text
unfolding split_from
split sep s = split_from sep [] s

-- The byte does not occur.
abbrev pub lacks : ℕ → Text → Bool
lacks sep [] = true
lacks sep (c ∷ s) = if c == sep then false else lacks sep s

pub lacks-append :
    (sep : ℕ) (s t : Text) → lacks sep s ≡ true → lacks sep t ≡ true → lacks sep (s ++ t) ≡ true
lacks-append sep [] t h k = k
lacks-append sep (c ∷ s) t h k = ground (arith, lacks-append sep s t)

split_from-lacks :
    (sep : ℕ) (part s : Text) → lacks sep s ≡ true → split_from sep part s ≡ (part ++ s) ∷ []
unfolding split_from
split_from-lacks sep part [] h = simp append-nil
split_from-lacks sep part (c ∷ s) h = elim (Bool-cases (c == sep)) [
  | inl e ↦ absurd (ground arith)
  | inr e ↦ rw e (
      split_from-lacks sep (part ++ c ∷ []) s (rw e at h)
      ∙ ap (λ t. t ∷ []) (append_assoc part (c ∷ []) s))
]

split_from-cut :
    (sep : ℕ) (part s rest : Text)
    → lacks sep s ≡ true
    → split_from sep part (s ++ sep ∷ rest) ≡ (part ++ s) ∷ split_from sep [] rest
unfolding split_from
split_from-cut sep part [] rest h = ground (arith, append-nil part)
split_from-cut sep part (c ∷ s) rest h = elim (Bool-cases (c == sep)) [
  | inl e ↦ absurd (ground arith)
  | inr e ↦ rw e (
      split_from-cut sep (part ++ c ∷ []) s rest (rw e at h)
      ∙ ap (λ t. t ∷ split_from sep [] rest) (append_assoc part (c ∷ []) s))
]

pub split-lacks : (sep : ℕ) (s : Text) → lacks sep s ≡ true → split sep s ≡ s ∷ []
unfolding split
split-lacks sep s h = split_from-lacks sep [] s h

pub split-cut :
    (sep : ℕ) (s rest : Text)
    → lacks sep s ≡ true
    → split sep (s ++ sep ∷ rest) ≡ s ∷ split sep rest
unfolding split
split-cut sep s rest h = split_from-cut sep [] s rest h

-- strings.TrimPrefix and strings.TrimSuffix for a one-byte text.
unfoldable pub trim_prefix : ℕ → Text → Text
trim_prefix b [] = []
trim_prefix b (c ∷ s) = if c == b then s else c ∷ s

unfoldable pub trim_suffix : ℕ → Text → Text
trim_suffix b [] = []
trim_suffix b (c ∷ []) = if c == b then [] else c ∷ []
trim_suffix b (c ∷ d ∷ s) = c ∷ trim_suffix b (d ∷ s)

pub trim_suffix-append : (b : ℕ) (s : Text) → trim_suffix b (s ++ b ∷ []) ≡ s
unfolding trim_suffix
trim_suffix-append b [] = ground arith
trim_suffix-append b (c ∷ []) = ap (λ t. c ∷ t) (trim_suffix-append b [])
trim_suffix-append b (c ∷ d ∷ s) = ap (λ t. c ∷ t) (trim_suffix-append b (d ∷ s))
