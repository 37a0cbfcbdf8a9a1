-- ===== src/CachePolicy/Lists.antt =====
-- apps/edgeproxy/internal/proxy/cache_policy.go: header lists, their quoted strings, and Cache-Control.
use secure_edge_platform.Prelude.{
  ℕ, Bool, true, false, not, ◌&&◌, ◌||◌, Option, none, some, List, [], ◌∷◌, ◌++◌, ◌==◌,
  if◌then◌else◌,
}
use mathlib.Core.List.{reverse}
use secure_edge_platform.Prelude.Text.{Str, codes, is_empty, trim_space, to_lower}
use secure_edge_platform.Prelude.Maps.{Map, lookup, insert}

abbrev pub comma : ℕ
comma = 44

abbrev pub quote : ℕ
quote = 34

abbrev pub backslash : ℕ
backslash = 92

abbrev equals : ℕ
equals = 61

-- What one byte does in the loop of splitHeaderList: the flags behind it, and whether it ends an item.
pub record Scan : Type 0 where
  pub quoted : Bool
  pub escaped : Bool
  pub ends : Bool

unfoldable pub scan_byte : Bool → Bool → ℕ → Scan
scan_byte quoted escaped c =
    if escaped
    then record { quoted = quoted; escaped = false; ends = false }
    else if quoted && c == backslash
    then record { quoted = quoted; escaped = true; ends = false }
    else if c == quote
    then record { quoted = not quoted; escaped = escaped; ends = false }
    else if c == comma && not quoted
    then record { quoted = quoted; escaped = escaped; ends = true }
    else record { quoted = quoted; escaped = escaped; ends = false }

abbrev extend : ℕ → List Str → List Str
extend c [] = (c ∷ []) ∷ []
extend c (item ∷ items) = (c ∷ item) ∷ items

abbrev pub next_item : Bool → ℕ → Option (List Str) → Option (List Str)
next_item ends c none = none
next_item true c (some items) = some ([] ∷ items)
next_item false c (some items) = some (extend c items)

-- The loop, from a byte on: the rest of the item under way and the items behind it.
unfoldable pub split_from : Bool → Bool → Str → Option (List Str)
unfolding scan_byte
split_from quoted escaped [] = if quoted || escaped then none else some ([] ∷ [])
split_from quoted escaped (c ∷ s) =
    let b = scan_byte quoted escaped c in next_item b.ends c (split_from b.quoted b.escaped s)

-- None where the list is not valid.
unfoldable pub split_header_list : Str → Option (List Str)
unfolding split_from
split_header_list value = split_from false false value

unfoldable pub parse_header_list_values : List Str → Option (List Str)
unfolding split_header_list
parse_header_list_values [] = some []
parse_header_list_values (value ∷ values) = elim (split_header_list value) [
  | none ↦ none
  | some parts ↦ elim (parse_header_list_values values) [
    | none ↦ none
    | some items ↦ some (parts ++ items)
  ]
]

-- The loop of unquoteHeaderValue; a backslash at the end stands for itself.
unfoldable pub unescape : Bool → Str → Str
unescape escaped [] = if escaped then backslash ∷ [] else []
unescape escaped (c ∷ s) =
    let plain = unescape false s in
    let skipped = unescape true s in
    if escaped then c ∷ plain else if c == backslash then skipped else c ∷ plain

abbrev unquote_rest : Str → Str → Str
unquote_rest value [] = value
unquote_rest value (c ∷ inner) = if c == quote then unescape false (reverse inner) else value

-- A value between two quotes, at least two bytes long, without them and with its escapes resolved.
unfoldable pub unquote_header_value : Str → Str
unfolding unescape
unquote_header_value [] = []
unquote_header_value (c ∷ s) = if c == quote then unquote_rest (c ∷ s) (reverse s) else c ∷ s

pub record ParsedCacheControl : Type 0 where
  pub directives : Map Str
  pub duplicates : Map Bool
  pub invalid : Bool

-- strings.SplitN(s, "=", 2): what stands before the first "=", and behind it where there is one.
unfoldable pub split_equals : Str → Str × Option Str
split_equals [] = ([], none)
split_equals (c ∷ s) =
    let (key, value) = split_equals s in if c == equals then ([], some s) else (c ∷ key, value)

unfoldable pub directive_key : Str → Str
unfolding split_equals
directive_key directive = to_lower (trim_space (split_equals (trim_space directive)).0)

abbrev pub value_or_one : Option Str → Str
value_or_one none = codes "1"
value_or_one (some value) = unquote_header_value (trim_space value)

unfoldable pub add_directive : ParsedCacheControl → Str → ParsedCacheControl
unfolding directive_key unquote_header_value
add_directive p directive =
    let key = directive_key directive in
    if is_empty key then record p { invalid = true } else elim (lookup key p.directives) [
      | some value ↦ record p { duplicates = insert key true p.duplicates }
      | none ↦ record p {
        directives = insert key (value_or_one (split_equals (trim_space directive)).1) p.directives;
      }
    ]

unfoldable pub add_directives : ParsedCacheControl → List Str → ParsedCacheControl
unfolding add_directive
add_directives p [] = p
add_directives p (d ∷ ds) = add_directives (add_directive p d) ds

unfoldable pub add_values : ParsedCacheControl → List Str → ParsedCacheControl
unfolding add_directives split_header_list
add_values p [] = p
add_values p (value ∷ values) = elim (split_header_list value) [
  | none ↦ add_values (record p { invalid = true }) values
  | some directives ↦ add_values (add_directives p directives) values
]

abbrev pub nothing_parsed : ParsedCacheControl
nothing_parsed = record { directives = []; duplicates = []; invalid = false }

unfoldable pub parse_cache_control_detailed : List Str → ParsedCacheControl
unfolding add_values
parse_cache_control_detailed values = add_values nothing_parsed values

abbrev pub present : Option Str → Bool
present none = false
present (some value) = true

unfoldable pub has_cache_directive : Map Str → Str → Bool
has_cache_directive directives name = present (lookup (to_lower name) directives)

abbrev is_true : Option Bool → Bool
is_true none = false
is_true (some b) = b

-- parsed.duplicates[name]
abbrev pub is_duplicate : ParsedCacheControl → Str → Bool
is_duplicate p name = is_true (lookup name p.duplicates)
