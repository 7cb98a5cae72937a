-- ===== src/Common/Decimal.antt =====
-- strconv.FormatUint and strconv.ParseUint in base 10, for 64 bits.
use Prim.Native.Nat.{ℕ, zero, suc, ◌+◌, ◌-◌, ◌*◌, ◌/◌, ◌%◌, ◌^◌, ◌<◌}
use mathlib.Core.Path.{◌≡◌, refl, ap, ◌∙◌}
use mathlib.Core.Logic.{inl, inr}
use mathlib.Core.Bool.{Bool, true, ◌&&◌}
use mathlib.Core.List.{[], ◌∷◌}
use mathlib.Core.Option.{Option, none, some}
use native.Mathlib.Omega.{arith}
use native.Mathlib.Nat.{pow-suc}
use redis_cluster_operator.Common.Tests.{if◌then◌else◌, ltb, lt→ltb, leb, u64_mod, Bool-cases}
use redis_cluster_operator.Common.Strings.{Text, lacks}
use redis_cluster_operator.Common.Lists.{All}

abbrev pub is_digit : ℕ → Bool
is_digit c = leb 48 c && leb c 57

parse_digits : ℕ → Text → Option ℕ
parse_digits acc [] = some acc
parse_digits acc (c ∷ s) =
    let rest = parse_digits (acc * 10 + (c - 48)) s in if is_digit c then rest else none

in_range : Option ℕ → Option ℕ
in_range none = none
in_range (some n) = if ltb n u64_mod then some n else none

-- ParseUint(s, 10, 64): a digit at least, digits only, and a value below 2^64.
unfoldable pub parse_uint : Text → Option ℕ
unfolding parse_digits in_range
parse_uint [] = none
parse_uint (c ∷ s) = in_range (parse_digits 0 (c ∷ s))

-- The digits of n in front of `acc`. Twenty digits are enough below 2^64.
format_digits : ℕ → ℕ → Text → Text
format_digits zero n acc = (48 + n % 10) ∷ acc
format_digits (suc fuel) n acc =
    let more = format_digits fuel (n / 10) ((48 + n % 10) ∷ acc) in
    if ltb n 10 then (48 + n) ∷ acc else more

unfoldable pub format_uint : ℕ → Text
unfolding format_digits
format_uint n = format_digits 19 n []

parse_digits-cons :
    (a d : ℕ) (s : Text) → d < 10 → parse_digits a ((48 + d) ∷ s) ≡ parse_digits (a * 10 + d) s
unfolding parse_digits
parse_digits-cons a d s h = let e : 48 + d - 48 ≡ d = omega arith in rw e (ground arith)

parse-format_digits :
    (fuel n : ℕ) (acc : Text)
    → n < 10 ^ (suc fuel)
    → parse_digits 0 (format_digits fuel n acc) ≡ parse_digits n acc
unfolding format_digits
parse-format_digits zero n acc h =
    parse_digits-cons 0 (n % 10) acc (omega arith) ∙ ap (λ k. parse_digits k acc) (omega arith)
parse-format_digits (suc fuel) n acc h = elim (Bool-cases (ltb n 10)) [
  | inl small ↦
      rw small
        (parse_digits-cons 0 n acc (ground arith) ∙ ap (λ k. parse_digits k acc) (omega arith))
  | inr big ↦ rw big (
      parse-format_digits fuel (n / 10) ((48 + n % 10) ∷ acc) (omega (arith, pow-suc 10 (suc fuel)))
      ∙ parse_digits-cons (n / 10) (n % 10) acc (omega arith)
      ∙ ap (λ k. parse_digits k acc) (omega arith))
]

format_digits-cons :
    (fuel n : ℕ) (acc : Text) → (c : ℕ) × (s : Text) × (format_digits fuel n acc ≡ c ∷ s)
unfolding format_digits
format_digits-cons zero n acc = (48 + n % 10, acc, refl)
format_digits-cons (suc fuel) n acc = elim (Bool-cases (ltb n 10)) [
  | inl small ↦ (48 + n, acc, rw small)
  | inr big ↦
      let (c, s, e) = format_digits-cons fuel (n / 10) ((48 + n % 10) ∷ acc) in (c, s, rw big e)
]

parse_uint-of_cons :
    (t : Text) {c : ℕ} {s : Text} → t ≡ c ∷ s → parse_uint t ≡ in_range (parse_digits 0 t)
unfolding parse_uint
parse_uint-of_cons [] e = cc
parse_uint-of_cons (d ∷ t) e = refl

-- Reading what was printed gives the number back.
pub parse-format : (n : ℕ) → n < u64_mod → parse_uint (format_uint n) ≡ some n
unfolding format_uint in_range parse_digits
parse-format n h =
    let (c, s, e) = format_digits-cons 19 n [] in
    parse_uint-of_cons (format_digits 19 n []) e
    ∙ ap in_range (parse-format_digits 19 n [] (omega arith))
    ∙ rw (lt→ltb n u64_mod h)

lacks-format_digits :
    (sep fuel n : ℕ) (acc : Text)
    → sep < 48
    → lacks sep acc ≡ true
    → lacks sep (format_digits fuel n acc) ≡ true
unfolding format_digits
lacks-format_digits sep zero n acc h k = ground arith
lacks-format_digits sep (suc fuel) n acc h k =
    ground (arith, lacks-format_digits sep fuel (n / 10) ((48 + n % 10) ∷ acc))

-- A printed number holds digits only, so no separator below them.
pub lacks-format : (sep n : ℕ) → sep < 48 → lacks sep (format_uint n) ≡ true
unfolding format_uint
lacks-format sep n h = lacks-format_digits sep 19 n [] h refl

pub parse_uint-lt : (s : Text) {n : ℕ} → parse_uint s ≡ some n → n < u64_mod
unfolding parse_uint
parse_uint-lt [] h = absurd (ground arith)
parse_uint-lt (c ∷ s) h = ground arith

format_digits_all :
    (fuel n : ℕ) (acc : Text)
    → All (λ c. is_digit c ≡ true) acc
    → All (λ c. is_digit c ≡ true) (format_digits fuel n acc)
unfolding format_digits
format_digits_all zero n acc h = (ground arith, h)
format_digits_all (suc fuel) n acc h = elim (Bool-cases (ltb n 10)) [
  | inl small ↦ rw small (ground arith, h)
  | inr big ↦ rw big (format_digits_all fuel (n / 10) ((48 + n % 10) ∷ acc) (ground arith, h))
]

-- A printed number holds digits only.
pub format-digits : (n : ℕ) → All (λ c. is_digit c ≡ true) (format_uint n)
unfolding format_uint
format-digits n = format_digits_all 19 n [] tt
