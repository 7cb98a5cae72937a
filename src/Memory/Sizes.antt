-- ===== src/Memory/Sizes.antt =====
-- A printed number with a unit is read as the product.
use redis_cluster_operator.Common.{
  ℕ, ◌*◌, ◌%◌, ◌<◌, ◌≤◌, true, false, Option, none, some, List, [], ◌∷◌, ◌++◌, ◌==◌, Text, text_eq,
  is_digit, parse_uint, format_uint, parse-format, format-digits, u64_mod, ℤ, pos, All, ◌≡◌, refl,
  Bool, if◌then◌else◌, codes, ap, sym, ◌∙◌, append-nil, arith,
}
use redis_cluster_operator.Views.{parse_int, signed, i64_half}
use redis_cluster_operator.Memory.{
  lower_char, to_lower, strip_suffix, units, find_unit, unsigned, to_signed, mul_int64, format_int,
  parse_redis_mem_conf,
}

abbrev IsDigits : Text → Type 0
IsDigits s = All (λ c. is_digit c ≡ true) s

to_lower-digits : (d s : Text) → IsDigits d → to_lower (d ++ s) ≡ d ++ to_lower s
unfolding to_lower
to_lower-digits [] s h = refl
to_lower-digits (c ∷ d) s h =
    let same : lower_char c ≡ c = ground arith in
    ap (λ x. x ∷ to_lower (d ++ s)) same ∙ ap (λ t. c ∷ t) (to_lower-digits d s h.1)

in_front : Text → Option Text → Option Text
in_front d none = none
in_front d (some front) = some (d ++ front)

in_front_nil : (o : Option Text) → in_front [] o ≡ o
unfolding in_front
in_front_nil none = refl
in_front_nil (some s) = refl

in_front_cons :
    (c : ℕ) (d : Text) (o : Option Text)
    → (elim (in_front d o) [ none ↦ none | some front ↦ some (c ∷ front) ]) ≡ in_front (c ∷ d) o
unfolding in_front
in_front_cons c d none = refl
in_front_cons c d (some s) = refl

-- A suffix that begins with a letter is not found among digits.
strip_suffix-digits :
    (l : ℕ) (rest d s : Text)
    → 58 ≤ l
    → IsDigits d
    → strip_suffix (l ∷ rest) (d ++ s) ≡ in_front d (strip_suffix (l ∷ rest) s)
unfolding strip_suffix text_eq
strip_suffix-digits l rest [] s letter h = sym (in_front_nil (strip_suffix (l ∷ rest) s))
strip_suffix-digits l rest (c ∷ d) s letter h =
    let other : (c == l) ≡ false = ground arith in
    rw (other, strip_suffix-digits l rest d s letter h.1)
      (in_front_cons c d (strip_suffix (l ∷ rest) s))

abbrev BeginsWithLetter : Text → Type 0
BeginsWithLetter [] = ⊥
BeginsWithLetter (l ∷ rest) = 58 ≤ l

module _ (d s : Text) (h : IsDigits d) where
  abbrev Found : List (Text × ℕ) → Type 0
  Found us = find_unit us (d ++ s) ≡ (let (front, mul) = find_unit us s in (d ++ front, mul))

  find_unit-digits :
      (us : List (Text × ℕ)) (letters : All (λ u. BeginsWithLetter u.0) us) → Found us
  unfolding find_unit in_front
  find_unit-digits [] letters = refl
  find_unit-digits (([], mul) ∷ us) letters = absurd letters.0
  find_unit-digits ((l ∷ rest, mul) ∷ us) letters =
      rw (strip_suffix-digits l rest d s letters.0 h, Found, find_unit)
        (by_suffix (strip_suffix (l ∷ rest) s) (find_unit-digits us letters.1))
    where
      by_suffix :
          (o : Option Text)
          → Found us
          → (elim (in_front d o) [ some digits ↦ (digits, mul) | none ↦ find_unit us (d ++ s) ]) ≡ (
              let r : Text × ℕ = elim o [ some digits ↦ (digits, mul) | none ↦ find_unit us s ] in
              (d ++ r.0, r.1))
      by_suffix none more = more
      by_suffix (some front) more = refl

parse_int-digits : (d : Text) → IsDigits d → parse_int d ≡ signed false (parse_uint d)
unfolding parse_int parse_uint
parse_int-digits [] h = refl
parse_int-digits (c ∷ d) h = ground arith

letters : All (λ (u : Text × ℕ). BeginsWithLetter u.0) units
letters = (
  omega arith,
  (omega arith, (omega arith, (omega arith, (omega arith, (omega arith, (omega arith, tt)))))),
)

to_signed_small : (p : ℕ) → p < i64_half → to_signed (p % u64_mod) ≡ pos p
unfolding to_signed
to_signed_small p h = let same : p % u64_mod ≡ p = omega arith in rw same (ground arith)

signed_small : (n : ℕ) → n < i64_half → signed false (some n) ≡ some (pos n)
unfolding signed
signed_small n h = ground arith

-- The units that a size may have.
pub data SizeUnit : Type 0 where
  no_unit unit_b unit_k unit_kb unit_m unit_mb unit_g unit_gb : SizeUnit

-- How many bytes a unit stands for: with a "b" behind the letter the factors are powers of 1024.
abbrev pub factor : SizeUnit → ℕ
factor no_unit = 1
factor unit_b = 1
factor unit_k = 1000
factor unit_kb = 1024
factor unit_m = 1000000
factor unit_mb = 1048576
factor unit_g = 1000000000
factor unit_gb = 1073741824

abbrev pub cased : Bool → Text → Text → Text
cased capital upper lower = if capital then upper else lower

-- The letters of a unit, each of the two as a capital or as a small letter.
abbrev pub spelled : SizeUnit → Bool → Bool → Text
spelled no_unit first second = []
spelled unit_b first second = cased first (codes "B") (codes "b")
spelled unit_k first second = cased first (codes "K") (codes "k")
spelled unit_kb first second =
    cased first (codes "K") (codes "k") ++ cased second (codes "B") (codes "b")
spelled unit_m first second = cased first (codes "M") (codes "m")
spelled unit_mb first second =
    cased first (codes "M") (codes "m") ++ cased second (codes "B") (codes "b")
spelled unit_g first second = cased first (codes "G") (codes "g")
spelled unit_gb first second =
    cased first (codes "G") (codes "g") ++ cased second (codes "B") (codes "b")

find_unit-spelled :
    (u : SizeUnit) (first second : Bool)
    → find_unit units (to_lower (spelled u first second)) ≡ ([], factor u)
unfolding find_unit strip_suffix text_eq to_lower
find_unit-spelled no_unit first second = refl
find_unit-spelled unit_b true second = refl
find_unit-spelled unit_b false second = refl
find_unit-spelled unit_k true second = refl
find_unit-spelled unit_k false second = refl
find_unit-spelled unit_kb true true = refl
find_unit-spelled unit_kb true false = refl
find_unit-spelled unit_kb false true = refl
find_unit-spelled unit_kb false false = refl
find_unit-spelled unit_m true second = refl
find_unit-spelled unit_m false second = refl
find_unit-spelled unit_mb true true = refl
find_unit-spelled unit_mb true false = refl
find_unit-spelled unit_mb false true = refl
find_unit-spelled unit_mb false false = refl
find_unit-spelled unit_g true second = refl
find_unit-spelled unit_g false second = refl
find_unit-spelled unit_gb true true = refl
find_unit-spelled unit_gb true false = refl
find_unit-spelled unit_gb false true = refl
find_unit-spelled unit_gb false false = refl

parse-known_unit :
    (n : ℕ) (unit : Text) (mul : ℕ)
    → find_unit units (to_lower unit) ≡ ([], mul)
    → n < i64_half
    → n * mul < i64_half
    → parse_redis_mem_conf (format_uint n ++ unit) ≡ some (format_uint (n * mul))
unfolding parse_redis_mem_conf mul_int64 unsigned format_int
parse-known_unit n unit mul known small fits =
    let d = format_uint n in
    let digits = format-digits n in
    let cut : find_unit units (to_lower (d ++ unit)) ≡ (d, mul) =
      ap (λ t. find_unit units t) (to_lower-digits d unit digits)
      ∙ find_unit-digits d (to_lower unit) digits units letters
      ∙ ap (λ (r : Text × ℕ). (d ++ r.0, r.1)) known
      ∙ ap (λ t. (t, mul)) (append-nil d) in
    let parsed : parse_int d ≡ some (pos n) =
      parse_int-digits d digits
      ∙ ap (signed false) (parse-format n (omega arith))
      ∙ signed_small n small in
    ap
      (λ (r : Text × ℕ). elim (parse_int r.0) [
        | none ↦ none
        | some val ↦ some (format_int (mul_int64 val r.1))
      ])
      cut
    ∙ ap
        (λ (o : Option ℤ). elim o [
          | none ↦ none
          | some val ↦ some (format_int (mul_int64 val mul))
        ])
        parsed
    ∙ ap (λ (i : ℤ). some (format_int i)) (to_signed_small (n * mul) fits)

-- A printed number with one of the units k, kb, m, mb, g, gb and b or with none, in small letters,
-- capitals or both, is read as the number times 1000, 1024, 1000 ^ 2, 1024 ^ 2, 1000 ^ 3, 1024 ^ 3, 1
-- and 1, when both the number and the product are below 2 ^ 63.
pub parse_redis_mem_conf-format :
    (n : ℕ) (u : SizeUnit) (first second : Bool)
    → n < i64_half
    → n * factor u < i64_half
    → parse_redis_mem_conf (format_uint n ++ spelled u first second)
      ≡ some (format_uint (n * factor u))
parse_redis_mem_conf-format n u first second small fits =
    parse-known_unit n (spelled u first second) (factor u) (find_unit-spelled u first second) small
      fits
