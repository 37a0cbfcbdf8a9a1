-- ===== src/Paths/Examples.antt =====
-- Paths: tests at concrete inputs.
use mathlib.Core.Logic.{◌↔◌}
use secure_edge_platform.Prelude.{◌≡◌, ◌⊎◌, refl, true, false}
use secure_edge_platform.Prelude.Text.{
  Str, codes, has_prefix, has_suffix, trim_prefix, strip_prefix, split, str_dec,
}
use secure_edge_platform.Paths.{
  canonical_request_path, clean_rooted, clean_parts, clean_part, join, path_prefix_matches, root,
}
use secure_edge_platform.Paths.Prefixes.{Extends, path_prefix_matches_iff}

abbrev dotted : Str
dotted = codes "/a//b/./../c/"

canonical : canonical_request_path dotted ≡ codes "/a/c/"
unfolding canonical_request_path clean_rooted clean_parts clean_part join has_suffix has_prefix
    trim_prefix strip_prefix split str_dec
canonical = refl

apiary : path_prefix_matches (codes "/apiary") (codes "/api") ≡ false
unfolding path_prefix_matches has_prefix str_dec
apiary = refl

path_prefix_matches_iff_example :
    (path_prefix_matches (codes "/api/x") (codes "/api") ≡ true)
    ↔ ((codes "/api" ≡ root) ⊎ Extends (codes "/api/x") (codes "/api"))
path_prefix_matches_iff_example = path_prefix_matches_iff (codes "/api/x") (codes "/api")
