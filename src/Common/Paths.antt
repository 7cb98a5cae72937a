-- ===== src/Common/Paths.antt =====
-- filepath.Join and filepath.Clean of the standard library, on Unix.
use mathlib.Core.Path.{◌≡◌, refl}
use mathlib.Core.Bool.{Bool, false}
use mathlib.Core.List.{List, [], ◌∷◌, ◌++◌, reverse}
use redis_cluster_operator.Common.Tests.{if◌then◌else◌, ◌==◌}
use redis_cluster_operator.Common.Strings.{Text, codes, text_eq, is_empty, split}

-- The parts with a slash between them.
joined : List Text → Text
joined [] = []
joined (p ∷ []) = p
joined (p ∷ q ∷ ps) = p ++ b'/' ∷ joined (q ∷ ps)

-- `..` takes a part back, unless there is none to take; at the root it stays there.
parent_of : Bool → List Text → List Text
parent_of rooted [] = if rooted then [] else codes ".." ∷ []
parent_of rooted (p ∷ ps) = if text_eq p (codes "..") then codes ".." ∷ p ∷ ps else ps

-- The parts that stay, the last one first.
cleaned : Bool → List Text → List Text → List Text
unfolding parent_of
cleaned rooted [] kept = kept
cleaned rooted (p ∷ ps) kept = cleaned rooted ps (
    if is_empty p
    then kept
    else if text_eq p (codes ".")
    then kept
    else if text_eq p (codes "..")
    then parent_of rooted kept
    else p ∷ kept)

is_rooted : Text → Bool
is_rooted [] = false
is_rooted (c ∷ s) = c == b'/'

dot_if_empty : Text → Text
dot_if_empty [] = codes "."
dot_if_empty (c ∷ s) = c ∷ s

clean : Text → Text
unfolding joined cleaned is_rooted dot_if_empty
clean s =
    let parts = joined (reverse (cleaned (is_rooted s) (split b'/' s) [])) in
    if is_rooted s then b'/' ∷ parts else dot_if_empty parts

non_empty : List Text → List Text
non_empty [] = []
non_empty (p ∷ ps) = let rest = non_empty ps in if is_empty p then rest else p ∷ rest

clean_joined : List Text → Text
unfolding clean joined
clean_joined [] = []
clean_joined (p ∷ ps) = clean (joined (p ∷ ps))

unfoldable pub path_join : List Text → Text
unfolding clean_joined non_empty
path_join ps = clean_joined (non_empty ps)

path_join_example :
    path_join (codes "a/../b/" ∷ [] ∷ codes "redis" ∷ codes "./c" ∷ []) ≡ codes "b/redis/c"
unfolding path_join split text_eq
path_join_example = refl
