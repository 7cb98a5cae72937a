-- ===== src/Memory.antt =====
-- pkg/utils/parse.go: sizes of memory in the configuration of redis. Of letters only those of ASCII are
-- lowered.
pub mod Sizes
mod Examples
use redis_cluster_operator.Common.{
  ℕ, suc, ◌+◌, ◌-◌, ◌*◌, ◌%◌, Bool, ◌&&◌, Option, none, some, List, [], ◌∷◌, ◌++◌, if◌then◌else◌,
  ltb, leb, Text, codes, text_eq, format_uint, u64_mod, ℤ, pos, negsuc,
}
use redis_cluster_operator.Views.{parse_int, i64_half}

abbrev pub lower_char : ℕ → ℕ
lower_char c = if leb 65 c && leb c 90 then c + 32 else c

unfoldable pub to_lower : Text → Text
to_lower [] = []
to_lower (c ∷ s) = lower_char c ∷ to_lower s

-- The text in front of a suffix.
unfoldable pub strip_suffix : Text → Text → Option Text
strip_suffix suffix [] = if text_eq [] suffix then some [] else none
strip_suffix suffix (c ∷ s) =
    let rest = strip_suffix suffix s in
    if text_eq (c ∷ s) suffix
    then some []
    else elim rest [ none ↦ none | some front ↦ some (c ∷ front) ]

-- The suffixes in the order in which they are tried, each with its factor.
abbrev pub units : List (Text × ℕ)
units =
    (codes "k", 1000)
    ∷ (codes "kb", 1024)
    ∷ (codes "m", 1000 * 1000)
    ∷ (codes "mb", 1024 * 1024)
    ∷ (codes "g", 1000 * 1000 * 1000)
    ∷ (codes "gb", 1024 * 1024 * 1024)
    ∷ (codes "b", 1)
    ∷ []

-- The digits, and the factor: 1 without a suffix.
unfoldable pub find_unit : List (Text × ℕ) → Text → Text × ℕ
unfolding strip_suffix
find_unit [] u = (u, 1)
find_unit ((suffix, mul) ∷ more) u = elim (strip_suffix suffix u) [
  | some digits ↦ (digits, mul)
  | none ↦ find_unit more u
]

-- The product of int64 values, which wraps around.
unfoldable pub unsigned : ℤ → ℕ
unsigned (pos n) = n
unsigned (negsuc n) = u64_mod - 1 - n

unfoldable pub to_signed : ℕ → ℤ
to_signed n = if ltb n i64_half then pos n else negsuc (u64_mod - 1 - n)

unfoldable pub mul_int64 : ℤ → ℕ → ℤ
unfolding unsigned to_signed
mul_int64 i mul = to_signed ((unsigned i * mul) % u64_mod)

-- strconv.FormatInt(i, 10)
unfoldable pub format_int : ℤ → Text
format_int (pos n) = format_uint n
format_int (negsuc n) = b'-' ∷ format_uint (suc n)

-- ParseRedisMemConf
unfoldable pub parse_redis_mem_conf : Text → Option Text
unfolding to_lower find_unit parse_int mul_int64 format_int
parse_redis_mem_conf p =
    let (digits, mul) = find_unit units (to_lower p) in
    elim (parse_int digits) [ none ↦ none | some val ↦ some (format_int (mul_int64 val mul)) ]
