-- ===== src/Router/Hosts.antt =====
-- net.SplitHostPort of Go's library, which router.go calls: "host:port" or "[host]:port".
use secure_edge_platform.Prelude.{
  ℕ, Bool, false, not, ◌&&◌, ◌||◌, Option, none, some, [], ◌∷◌, ◌++◌, ◌==◌, if◌then◌else◌,
}
use mathlib.Core.List.{reverse}
use secure_edge_platform.Prelude.Text.{Str}

abbrev pub colon : ℕ
colon = 58

abbrev open_bracket : ℕ
open_bracket = 91

abbrev close_bracket : ℕ
close_bracket = 93

unfoldable pub contains : ℕ → Str → Bool
contains b [] = false
contains b (c ∷ s) = c == b || contains b s

-- What stands before and behind the first occurrence of a byte.
unfoldable pub cut : ℕ → Str → Option (Str × Str)
cut b [] = none
cut b (c ∷ s) =
    let rest = cut b s in
    if c == b
    then some ([], s)
    else elim rest [ none ↦ none | some (before, behind) ↦ some (c ∷ before, behind) ]

-- What stands before and behind the last occurrence.
unfoldable pub cut_last : ℕ → Str → Option (Str × Str)
unfolding cut
cut_last b s = elim (cut b (reverse s)) [
  | none ↦ none
  | some (after, before) ↦ some (reverse before, reverse after)
]

-- A host in brackets, behind the opening one, with the port behind the closing one. Its closing
-- bracket is the first, and must stand right before the last colon.
unfoldable pub bracketed : Str → Option (Str × Str)
unfolding cut contains
bracketed s = elim (cut close_bracket s) [
  | none ↦ none
  | some (host, []) ↦ none
  | some (host, c ∷ port) ↦
      if c == colon
        && not (
            contains colon port
            || (contains open_bracket (host ++ port) || contains close_bracket port))
      then some (host, port)
      else none
]

-- A host with no colon of its own.
unfoldable pub unbracketed : Str → Option (Str × Str)
unfolding cut_last contains
unbracketed s = elim (cut_last colon s) [
  | none ↦ none
  | some (host, port) ↦
      if contains colon host || (contains open_bracket s || contains close_bracket s)
      then none
      else some (host, port)
]

-- None is an error.
unfoldable pub split_host_port : Str → Option (Str × Str)
unfolding bracketed unbracketed
split_host_port [] = none
split_host_port (c ∷ s) = if c == open_bracket then bracketed s else unbracketed (c ∷ s)
