-- ===== src/Waf/Examples.antt =====
-- Waf: tests at concrete inputs.
use secure_edge_platform.Prelude.{
  ℕ, ◌≡◌, ◌≤◌, ◌⊎◌, refl, true, false, Option, none, some, List, [], ◌∷◌, length, ◌==◌,
  if◌then◌else◌,
}
use secure_edge_platform.Prelude.Text.{Str, codes, str_dec, has_prefix}
use secure_edge_platform.Waf.Samples.{
  Codec, text, array, object, no_items, element, no_fields, field, HttpRequest, sample,
  multi_decode, decode_rounds, read_and_restore,
}
use secure_edge_platform.Waf.Json.{body_samples}
use secure_edge_platform.Waf.Rules.{Rule, CustomRule, builtin, builtin_rules}
use secure_edge_platform.Waf.{Targets, Policy}
use secure_edge_platform.Waf.Bounds.{body_samples-le, IsFixed, Decodes, multi_decode_lem}
use secure_edge_platform.Waf.Results.{read_and_restore_lem}
use secure_edge_platform.Waf.Inspectors.{Inspector, replace_all}

-- A codec for which "%" stands for itself twice, and decoding takes one off.
abbrev unescape : Str → Option Str
unescape [] = some []
unescape (c ∷ s) = some (if c == 37 then s else c ∷ s)

abbrev pub codec : Codec
codec = record {
  path_unescape = λ s. unescape s;
  query_unescape = λ s. unescape s;
  parse_query = λ s. none;
  to_valid_utf8 = λ s. s;
  unescape_html = λ s. s;
  runes = λ s. s;
  parse_media_type = λ s. some s;
  parse_json = λ s.
      some (object (field (codes "a") (array (element (text (codes "x")) no_items)) no_fields));
  fingerprint = λ s. s;
}

abbrev rule : Rule
rule = record {
  id = codes "X-1";
  name = codes "x";
  category = codes "test";
  score = 4;
  targets = codes "path" ∷ codes "body" ∷ [];
  source = builtin;
  pattern = λ s. has_prefix s (codes "x");
}

abbrev targets : Targets
targets = record {
  path = sample (codes "url.path.raw") (codes "/") ∷ [];
  query = [];
  headers = [];
  cookies = [];
  body = sample (codes "json") (codes "x") ∷ [];
}

abbrev pub request : HttpRequest
request = record {
  url = record { path = codes "/a"; escaped_path = codes "/a"; raw_query = codes "x=1" };
  host = codes "h";
  header = (codes "Content-Type", codes "application/json" ∷ []) ∷ [];
  trailer = [];
  cookies = [];
  body = some (codes "x");
  read_fails = false;
}

abbrev pub policy : Policy
policy = record {
  excluded_path_prefixes = codes "/b" ∷ [];
  disabled_rules = [];
  max_header_count = 10;
  inspect_request_body = true;
  max_inspection_body_bytes = 8;
  body_content_types = codes "application/json" ∷ [];
}

-- A custom rule with the id of a built-in one, but for its case and a blank.
abbrev customs : List CustomRule
customs =
    record {
      id = codes " sqli-001";
      name = codes "mine";
      category = codes "sqli";
      score = 3;
      targets = codes "body" ∷ [];
      pattern = codes "x";
    }
    ∷ []

-- An inspector without custom rules, and a replacement that has the id of a built-in rule.
abbrev pub inspector : Inspector
inspector = record { rules = builtin_rules (λ id s. has_prefix s (codes "x")); max_matches = 32 }

abbrev replaced : Inspector
replaced = replace_all (λ s. none) (λ id s. has_prefix s (codes "x")) inspector ((customs, 5) ∷ [])

read_and_restore_lem_example :
    read_and_restore request (codes "xyz") 2 ≡ some (codes "xy", true, codes "xyz")
read_and_restore_lem_example = read_and_restore_lem request (codes "xyz") 2 refl

multi_decode_lem_example :
    (m : ℕ) × Decodes
      (λ s. unescape s)
      (codes "%%a")
      m
      (multi_decode (λ s. unescape s) (codes "%%a"))
    × (m ≤ 3)
    × (IsFixed (λ s. unescape s) (multi_decode (λ s. unescape s) (codes "%%a")) ⊎ (m ≡ 3))
multi_decode_lem_example = multi_decode_lem (λ s. unescape s) (codes "%%a")

decodes_twice : multi_decode (λ s. unescape s) (codes "%%a") ≡ codes "a"
unfolding multi_decode decode_rounds str_dec
decodes_twice = refl

body_samples-le_example : length (body_samples codec (codes "x") (codes "application/json")) ≤ 512
body_samples-le_example = body_samples-le codec (codes "x") (codes "application/json")
