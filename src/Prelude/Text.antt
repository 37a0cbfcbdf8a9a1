-- ===== src/Prelude/Text.antt =====
-- Go strings as lists of bytes, and the operations of package strings that the program uses.
-- Letters and blanks are those of ASCII: ToLower and TrimSpace leave other bytes alone.
use Prim.Native.Nat.{ℕ, ◌+◌, ◌-◌}
use Prim.Native.Char.{code}
use Prim.Native.String.{String}
use mathlib.Core.Path.{◌≡◌, refl}
use mathlib.Core.Bool.{Bool, true, false, ◌&&◌, ◌||◌}
use mathlib.Core.Logic.{ite}
use mathlib.Core.List.{List, [], ◌∷◌, ◌++◌, map, reverse}
use mathlib.Core.Option.{Option, none, some}
use native.Mathlib.Decide.{ℕ_discrete}
use native.Mathlib.Omega.{arith}
use secure_edge_platform.Prelude.Tests.{leb, ltb, ◌==◌, if◌then◌else◌}

abbrev pub Str : Type 0
Str = List ℕ

-- The bytes of a literal.
abbrev pub codes : String → Str
codes String.[] = []
codes (String.◌∷◌ c s) = code c ∷ codes s

unfoldable pub str_dec : Discrete Str
unfolding ℕ_discrete
str_dec = hlevel ℕ_discrete

-- a == b
abbrev pub same : Str → Str → Bool
same a b = ite (str_dec a b) true false

same_sound : (a b : Str) → same a b ≡ true → a ≡ b
same_sound a b h = ground (arith, h)

pub same-false : (a b : Str) → same a b ≡ false → ¬ (a ≡ b)
same-false a b h = ground (arith, h)

-- s == ""
abbrev pub is_empty : Str → Bool
is_empty [] = true
is_empty (c ∷ s) = false

-- strings.HasPrefix(s, p)
unfoldable pub has_prefix : Str → Str → Bool
has_prefix s [] = true
has_prefix [] (c ∷ p) = false
has_prefix (d ∷ s) (c ∷ p) = d == c && has_prefix s p

-- strings.HasSuffix(s, p)
unfoldable pub has_suffix : Str → Str → Bool
unfolding has_prefix
has_suffix s p = has_prefix (reverse s) (reverse p)

-- What follows the prefix p, where s begins with it.
unfoldable pub strip_prefix : Str → Str → Option Str
strip_prefix s [] = some s
strip_prefix [] (c ∷ p) = none
strip_prefix (d ∷ s) (c ∷ p) = if d == c then strip_prefix s p else none

abbrev or_else : Option Str → Str → Str
or_else none s = s
or_else (some t) s = t

-- strings.TrimPrefix(s, p), strings.TrimSuffix(s, p)
unfoldable pub trim_prefix : Str → Str → Str
unfolding strip_prefix
trim_prefix s p = or_else (strip_prefix s p) s

unfoldable pub trim_suffix : Str → Str → Str
unfolding trim_prefix
trim_suffix s p = reverse (trim_prefix (reverse s) (reverse p))

-- The blanks of ASCII: tab, newline, vertical tab, form feed, carriage return, space.
unfoldable pub is_space : ℕ → Bool
is_space c = c == 32 || leb 9 c && leb c 13

unfoldable pub trim_left : Str → Str
unfolding is_space
trim_left [] = []
trim_left (c ∷ s) = if is_space c then trim_left s else c ∷ s

-- strings.TrimSpace(s)
unfoldable pub trim_space : Str → Str
unfolding trim_left
trim_space s = reverse (trim_left (reverse (trim_left s)))

unfoldable pub lower : ℕ → ℕ
lower c = if leb 65 c && leb c 90 then c + 32 else c

-- strings.ToLower(s)
unfoldable pub to_lower : Str → Str
unfolding lower
to_lower s = map lower s

unfoldable pub upper : ℕ → ℕ
upper c = if leb 97 c && leb c 122 then c - 32 else c

-- strings.ToUpper(s)
unfoldable pub to_upper : Str → Str
unfolding upper
to_upper s = map upper s

-- a < b on strings
unfoldable pub str_lt : Str → Str → Bool
str_lt s [] = false
str_lt [] (c ∷ t) = true
str_lt (d ∷ s) (c ∷ t) = if ltb d c then true else d == c && str_lt s t

-- The first part of a split joined to one more byte.
abbrev cons_first : ℕ → List Str → List Str
cons_first c [] = (c ∷ []) ∷ []
cons_first c (p ∷ ps) = (c ∷ p) ∷ ps

-- strings.Split(s, sep) for a separator of one byte
unfoldable pub split : ℕ → Str → List Str
split sep [] = [] ∷ []
split sep (c ∷ s) = if c == sep then [] ∷ split sep s else cons_first c (split sep s)

lower-lower : (c : ℕ) → lower (lower c) ≡ lower c
unfolding lower
lower-lower c = ground arith

to_lower-to_lower : (s : Str) → to_lower (to_lower s) ≡ to_lower s
unfolding to_lower
to_lower-to_lower [] = refl
to_lower-to_lower (c ∷ s) = rw (lower-lower c, to_lower-to_lower s)

-- A string begins with p exactly if it is p and a rest.
strip_prefix_sound : (s p : Str) {r : Str} → strip_prefix s p ≡ some r → s ≡ p ++ r
unfolding strip_prefix
strip_prefix_sound s [] h = ground arith
strip_prefix_sound [] (c ∷ p) h = cc
strip_prefix_sound (d ∷ s) (c ∷ p) {r} h = ground (arith, strip_prefix_sound s p {r = r})

has_prefix-strip_prefix :
    (s p : Str) → has_prefix s p ≡ true → (r : Str) × (strip_prefix s p ≡ some r)
unfolding has_prefix strip_prefix
has_prefix-strip_prefix s [] h = (s, refl)
has_prefix-strip_prefix [] (c ∷ p) h = absurd (ground arith)
has_prefix-strip_prefix (d ∷ s) (c ∷ p) h =
    let (r, e) = has_prefix-strip_prefix s p (ground arith) in (r, ground arith)

pub has_prefix-append : (p r : Str) → has_prefix (p ++ r) p ≡ true
unfolding has_prefix
has_prefix-append [] r = refl
has_prefix-append (c ∷ p) r = ground (arith, has_prefix-append p r)
