-- ===== src/Memory/Examples.antt =====
-- Sizes of memory with and without units.
use redis_cluster_operator.Common.{
  ◌*◌, some, none, ◌++◌, true, false, codes, text_eq, parse_uint, format_uint, ◌≡◌, refl, arith,
}
use redis_cluster_operator.Memory.{strip_suffix, parse_redis_mem_conf}
use redis_cluster_operator.Memory.Sizes.{unit_mb, parse_redis_mem_conf-format}

gigabytes : parse_redis_mem_conf (codes "3Gb") ≡ some (codes "3221225472")
unfolding parse_redis_mem_conf strip_suffix text_eq parse_uint format_uint
gigabytes = refl

negative : parse_redis_mem_conf (codes "-2k") ≡ some (codes "-2000")
unfolding parse_redis_mem_conf strip_suffix text_eq parse_uint format_uint
negative = refl

no_number : parse_redis_mem_conf (codes "1kk") ≡ none
unfolding parse_redis_mem_conf strip_suffix text_eq parse_uint format_uint
no_number = refl

-- A product that is too large wraps around.
wraps : parse_redis_mem_conf (codes "9223372036854775807kb") ≡ some (codes "-1024")
unfolding parse_redis_mem_conf strip_suffix text_eq parse_uint format_uint
wraps = refl

parse_redis_mem_conf-format_example :
    parse_redis_mem_conf (format_uint 64 ++ codes "Mb") ≡ some (format_uint (64 * 1048576))
parse_redis_mem_conf-format_example =
    parse_redis_mem_conf-format 64 unit_mb true false (omega arith) (omega arith)
