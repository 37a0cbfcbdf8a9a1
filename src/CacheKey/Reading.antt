-- ===== src/CacheKey/Reading.antt =====
-- CacheKey: the host and the URI of a request are read back from its key, whatever headers it adds.
use secure_edge_platform.Prelude.{
  ◌≡◌, refl, ap, subst, ◌∙◌, inl, inr, false, ◌||◌, Option, some, List, [], ◌∷◌, ◌++◌, arith, All,
  any, append-nil, ◌==◌, Bool-cases,
}
use secure_edge_platform.Prelude.Text.{
  Str, codes, same, is_empty, has_prefix, trim_prefix, strip_prefix, trim_space, to_lower, split,
}
use secure_edge_platform.CachePolicy.{CacheConfig, Header, Request}
use secure_edge_platform.CacheKey.{
  Codec, bar, cache_host, key_method, header_field, append_headers, header_part, keyed_headers,
  cache_key, collect, decode_both, cache_key_request,
}

-- A text without a bar.
abbrev pub IsPlain : Str → Type 0
IsPlain = All (λ c. (c == bar) ≡ false)

-- What the key relies on: the encoding can be undone, its texts have no bar, and are not empty unless
-- the text encoded is.
pub record CodecLaws (c : Codec) : Type 0 where
  pub decode-encode : (s : Str) → c.decode (c.encode s) ≡ some s
  pub encode-IsPlain : (s : Str) → IsPlain (c.encode s)
  pub encode-ne-nil : (s : Str) → is_empty s ≡ false → is_empty (c.encode s) ≡ false

-- A field that is not taken for the host or the URI.
abbrev pub IsOther : Str → Type 0
IsOther field =
    (has_prefix field (codes "host64=") ≡ false) × (has_prefix field (codes "uri64=") ≡ false)

abbrev prepend : Str → List Str → List Str
prepend p [] = p ∷ []
prepend p (first ∷ rest) = (p ++ first) ∷ rest

split-plain :
    (p s : Str) (first : Str) (rest : List Str)
    → IsPlain p
    → split bar s ≡ first ∷ rest
    → split bar (p ++ s) ≡ (p ++ first) ∷ rest
unfolding split
split-plain [] s first rest h e = e
split-plain (c ∷ p) s first rest h e = ground (arith, h.0, split-plain p s first rest h.1 e)

split-bar : (p s : Str) → IsPlain p → split bar (p ++ bar ∷ s) ≡ p ∷ split bar s
unfolding split
split-bar [] s h = refl
split-bar (c ∷ p) s h = ground (arith, h.0, split-bar p s h.1)

-- The headers of a key begin with a bar, if there are any.
append_headers-split :
    (c : Codec) (h : Header) (seen names : List Str)
    → (rest : List Str) × (split bar (append_headers c h seen names) ≡ [] ∷ rest)
unfolding append_headers split header_field
append_headers-split c h seen [] = ([], refl)
append_headers-split c h seen (name ∷ names) =
    elim (Bool-cases (
      is_empty (c.canonical_header_key (trim_space name))
      || any (λ s. same s (to_lower (c.canonical_header_key (trim_space name)))) seen)) [
        | inl e ↦ rw e (append_headers-split c h seen names)
        | inr e ↦ rw e (_, refl)
      ]

collect-other :
    (fields : List Str) (host uri : Str)
    → All IsOther fields
    → collect fields host uri ≡ (host, uri)
unfolding collect
collect-other [] host uri a = refl
collect-other (f ∷ fields) host uri a =
    ground (arith, a.0.0, a.0.1, collect-other fields host uri a.1)

strip_prefix-append : (p s : Str) → strip_prefix (p ++ s) p ≡ some s
unfolding strip_prefix
strip_prefix-append [] s = refl
strip_prefix-append (c ∷ p) s = ground (arith, strip_prefix-append p s)

trim_prefix-append : (p s : Str) → trim_prefix (p ++ s) p ≡ s
unfolding trim_prefix
trim_prefix-append p s = rw (strip_prefix-append p s) refl

-- The fields of a key: its method, its host, its URI with an empty rest, and its headers.
key_split :
    (m h u hp : Str) (rest : List Str)
    → IsPlain m
    → IsPlain h
    → IsPlain u
    → split bar hp ≡ [] ∷ rest
    → split bar (m ++ bar ∷ (h ++ bar ∷ (u ++ hp))) ≡ m ∷ h ∷ u ∷ rest
key_split m h u hp rest pm ph pu e =
    split-bar m (h ++ bar ∷ (u ++ hp)) pm
    ∙ ap (◌∷◌ m) (
        split-bar h (u ++ hp) ph
        ∙ ap (◌∷◌ h) (split-plain u hp [] rest pu e ∙ ap (λ x. x ∷ rest) (append-nil u)))

collect-key :
    (m h u : Str) (rest : List Str)
    → IsOther m
    → All IsOther rest
    → collect (m ∷ (codes "host64=" ++ h) ∷ (codes "uri64=" ++ u) ∷ rest) [] [] ≡ (h, u)
unfolding collect has_prefix trim_prefix strip_prefix
collect-key m h u rest pm a = ground (arith, pm.0, pm.1, collect-other rest h u a)

All-append-IsPlain : (p s : Str) → IsPlain p → IsPlain s → IsPlain (p ++ s)
All-append-IsPlain [] s a b = b
All-append-IsPlain (c ∷ p) s a b = (a.0, All-append-IsPlain p s a.1 b)

decode-encode_both :
    (c : Codec)
    → CodecLaws c
    → (host uri : Str) → is_empty host ≡ false
    → is_empty uri ≡ false
    → decode_both c (c.encode host, c.encode uri) ≡ some (host, uri)
decode-encode_both c laws host uri p q = ground (
  arith,
  laws.encode-ne-nil host p,
  laws.encode-ne-nil uri q,
  laws.decode-encode host,
  laws.decode-encode uri,
)

-- Whatever a key adds for the headers of a request, as long as none of its fields begins like those of
-- the host and the URI and the method has no bar, the host and the URI read back from it are those of
-- the request: the host in its canonical form, and its canonical URI. Both must not be empty.
pub cache_key_request-cache_key :
    (c : Codec) (laws : CodecLaws c) (ip : Str → Option Str) (req : Request) (host uri : Str)
    (cfg : CacheConfig)
    → IsPlain req.method
    → All IsOther (split bar (header_part c req cfg))
    → is_empty (cache_host ip host) ≡ false
    → is_empty uri ≡ false
    → cache_key_request c (cache_key c ip req host uri cfg) ≡ some (cache_host ip host, uri)
unfolding cache_key cache_key_request header_part
cache_key_request-cache_key c laws ip req host uri cfg plain other some_host some_uri =
    ap (λ fields. decode_both c (collect fields [] [])) split_key
    ∙ ap (decode_both c) (
        collect-key (codes "method=" ++ key_method req.method) (c.encode (cache_host ip host))
          (c.encode uri) rest (unfold has_prefix in (refl, refl)) others)
    ∙ decode-encode_both c laws (cache_host ip host) uri some_host some_uri
  where
    rest : List Str
    rest = (append_headers-split c req.header [] (keyed_headers cfg)).0

    others : All IsOther rest
    others =
        (subst (All IsOther) (append_headers-split c req.header [] (keyed_headers cfg)).1 other).1

    method-IsPlain : IsPlain (codes "method=" ++ key_method req.method)
    method-IsPlain = ground (arith, plain)

    split_key :
        split bar (cache_key c ip req host uri cfg)
        ≡ (codes "method=" ++ key_method req.method)
          ∷ (codes "host64=" ++ c.encode (cache_host ip host))
          ∷ (codes "uri64=" ++ c.encode uri)
          ∷ rest
    split_key =
        key_split (codes "method=" ++ key_method req.method)
          (codes "host64=" ++ c.encode (cache_host ip host)) (codes "uri64=" ++ c.encode uri)
          (header_part c req cfg) rest method-IsPlain
          (ground (arith, laws.encode-IsPlain (cache_host ip host)))
          (ground (arith, laws.encode-IsPlain uri))
          (append_headers-split c req.header [] (keyed_headers cfg)).1
