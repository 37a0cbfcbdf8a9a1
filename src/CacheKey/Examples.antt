-- ===== src/CacheKey/Examples.antt =====
-- CacheKey: tests at concrete inputs.
use secure_edge_platform.Prelude.{
  ◌+◌, ◌-◌, ◌≡◌, refl, ap, true, false, Option, none, some, [], ◌∷◌, arith, All,
}
use secure_edge_platform.Prelude.Text.{
  Str, codes, is_empty, has_prefix, has_suffix, trim_prefix, trim_suffix, strip_prefix, trim_space,
  trim_left, is_space, to_lower, lower, split, str_dec,
}
use secure_edge_platform.Prelude.Maps.{lookup}
use secure_edge_platform.Router.Hosts.{
  split_host_port, unbracketed, bracketed, cut_last, cut, contains,
}
use secure_edge_platform.CachePolicy.{CacheConfig, Request, values}
use secure_edge_platform.CacheKey.{
  Codec, bar, cache_host, cache_key, cache_key_request, header_part, append_headers, header_field,
  collect,
}
use secure_edge_platform.CacheKey.Reading.{IsPlain, IsOther, CodecLaws, cache_key_request-cache_key}

-- Each byte as a byte above those of ASCII.
abbrev raised : Str → Str
raised [] = []
raised (c ∷ s) = (c + 200) ∷ raised s

abbrev lowered : Str → Str
lowered [] = []
lowered (c ∷ s) = (c - 200) ∷ lowered s

abbrev shift : Codec
shift = record {
  encode = λ s. raised s;
  decode = λ s. some (lowered s);
  digest = λ vs. [];
  canonical_header_key = λ s. s;
}

lowered-raised : (s : Str) → lowered (raised s) ≡ s
lowered-raised [] = refl
lowered-raised (c ∷ s) = ground (arith, lowered-raised s)

raised-IsPlain : (s : Str) → IsPlain (raised s)
raised-IsPlain [] = tt
raised-IsPlain (c ∷ s) = (ground arith, raised-IsPlain s)

raised-ne-nil : (s : Str) → is_empty s ≡ false → is_empty (raised s) ≡ false
raised-ne-nil [] h = h
raised-ne-nil (c ∷ s) h = refl

shift-Laws : CodecLaws shift
shift-Laws = record {
  decode-encode = λ s. ap some (lowered-raised s);
  encode-IsPlain = raised-IsPlain;
  encode-ne-nil = raised-ne-nil;
}

program : Unit {0}
unfolding cache_host header_part append_headers header_field values lookup cache_key
    cache_key_request collect split_host_port unbracketed bracketed cut_last cut contains has_prefix
    has_suffix trim_prefix trim_suffix strip_prefix trim_space trim_left is_space to_lower lower
    split str_dec
program = tt

abbrev no_ip : Str → Option Str
no_ip s = none

abbrev request : Request
request = record { method = codes "HEAD"; header = (codes "Accept", codes "text" ∷ []) ∷ [] }

abbrev config : CacheConfig
config = record {
  enabled = true;
  default_ttl = 1;
  stale_if_error = 0;
  cacheable_status_codes = [];
  vary_request_headers = codes "Accept" ∷ codes "accept" ∷ [];
  respect_origin_headers = true;
  cache_authorized_requests = true;
  cache_cookie_requests = false;
  cache_set_cookie_responses = false;
}

-- The second name of one header adds nothing.
once : header_part shift request config ≡ codes "|h:accept=|h:authorization="
unfolding program
once = refl

method-IsPlain : IsPlain request.method
method-IsPlain = (refl, (refl, (refl, (refl, tt))))

fields-IsOther : All IsOther (split bar (header_part shift request config))
unfolding program
fields-IsOther = ((refl, refl), ((refl, refl), ((refl, refl), tt)))

some_host : is_empty (cache_host no_ip (codes "A.example.:80")) ≡ false
unfolding program
some_host = refl

cache_key_request-cache_key_example :
    cache_key_request shift
      (cache_key shift no_ip request (codes "A.example.:80") (codes "/x") config)
    ≡ some (cache_host no_ip (codes "A.example.:80"), codes "/x")
cache_key_request-cache_key_example =
    cache_key_request-cache_key shift shift-Laws no_ip request (codes "A.example.:80") (codes "/x")
      config method-IsPlain fields-IsOther some_host refl
