-- ===== src/Paths.antt =====
-- canonicalRequestPath and path prefixes, which apps/edgeproxy/internal/router/router.go,
-- internal/cache/cache.go and apps/securityedge/internal/waf/inspect.go have in the same words, and
-- path.Clean of Go's library on a path that begins with a slash.
pub mod Segments
pub mod Canonical
pub mod Prefixes
mod Examples
use secure_edge_platform.Prelude.{
  ℕ, zero, suc, ◌+◌, Bool, true, false, not, ◌&&◌, ◌||◌, Option, none, some, List, [], ◌∷◌, ◌++◌,
  length, get_elem?, ltb, ◌==◌, if◌then◌else◌,
}
use secure_edge_platform.Prelude.Text.{
  Str, codes, same, is_empty, has_prefix, has_suffix, trim_prefix, split,
}
use mathlib.Core.List.{reverse}

abbrev pub slash : ℕ
slash = 47

abbrev pub root : Str
root = slash ∷ []

abbrev pub dot : Str
dot = codes "."

abbrev pub dot_dot : Str
dot_dot = codes ".."

abbrev pub pop : List Str → List Str
pop [] = []
pop (s ∷ stack) = stack

-- What path.Clean does with one part between slashes: the parts kept so far, the last one first.
unfoldable pub clean_part : Str → List Str → List Str
clean_part part stack =
    if is_empty part || same part dot
    then stack
    else if same part dot_dot
    then pop stack
    else part ∷ stack

unfoldable pub clean_parts : List Str → List Str → List Str
unfolding clean_part
clean_parts [] stack = stack
clean_parts (p ∷ ps) stack = clean_parts ps (clean_part p stack)

-- Each part behind a slash.
unfoldable pub join : List Str → Str
join [] = []
join (p ∷ ps) = slash ∷ (p ++ join ps)

abbrev or_root : Str → Str
or_root [] = root
or_root (c ∷ s) = c ∷ s

-- path.Clean("/" + s)
unfoldable pub clean_rooted : Str → Str
unfolding clean_parts join
clean_rooted s = or_root (join (reverse (clean_parts (split slash s) [])))

unfoldable pub canonical_request_path : Str → Str
unfolding clean_rooted
canonical_request_path value =
    if is_empty value
    then root
    else (let cleaned = clean_rooted (trim_prefix value root) in
        if has_suffix value root && not (same cleaned root) then cleaned ++ root else cleaned)

abbrev at_slash : Option ℕ → Bool
at_slash none = false
at_slash (some c) = c == slash

-- pathPrefixMatches of the router; purgePathMatches has the same test on its canonical path.
unfoldable pub path_prefix_matches : Str → Str → Bool
path_prefix_matches request_path prefix =
    if same prefix root
    then true
    else if same request_path prefix
    then true
    else (has_prefix request_path prefix
        && (ltb (length prefix) (length request_path)
            && at_slash (get_elem? request_path (length prefix))))

-- purgePathMatches: `parse` is url.ParseRequestURI's decoded path, none where it fails.
purge_path_matches : (Str → Option Str) → Str → Str → Bool
unfolding path_prefix_matches canonical_request_path
purge_path_matches parse request_uri prefix = elim (parse request_uri) [
  | none ↦ false
  | some path ↦ path_prefix_matches (canonical_request_path path) prefix
]
