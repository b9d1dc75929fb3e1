-- ===== src/Examples/Ranges.antt =====
-- Texts of ranges.
use strix.Base.{ℕ, ◌≡◌, refl, some, codes, arith, strip_prefix, split_once, parse_uint, ok}
use strix.Gateway.Ranges.{
  value, parse_copy_source_range, parse_http_range_header, parse_copy_source_range_lem,
  parse_http_range_header-resolved,
}
use strix.Storage.Read.{resolve_range}

parse_copy_source_range_lem_example :
    value (parse_copy_source_range (codes "bytes=7-20"))
    ≡ parse_http_range_header (codes "bytes=7-20")
parse_copy_source_range_lem_example = parse_copy_source_range_lem (codes "bytes=7-20")

seven_to_twenty : parse_http_range_header (codes "bytes=7-20") ≡ some (7, some 20)
unfolding parse_http_range_header strip_prefix split_once parse_uint
seven_to_twenty = refl

parse_http_range_header-resolved_example :
    (n : ℕ) × (resolve_range 12 (some (7, some 20)) ≡ ok (7, n))
parse_http_range_header-resolved_example =
    parse_http_range_header-resolved (codes "bytes=7-20") 12 7 (some 20) seven_to_twenty
      (omega arith)
