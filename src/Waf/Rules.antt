-- ===== src/Waf/Rules.antt =====
-- apps/securityedge/internal/waf/rules.go: the rules of the WAF. Descriptions are left out. A pattern is
-- the test that it makes; `builtin_pattern` has those of the built-in rules, by their id, and
-- `compile` is regexp.Compile, none an error.
pub mod Compiling
use secure_edge_platform.Prelude.{
  ℕ, Bool, true, false, not, ◌&&◌, ◌||◌, Option, none, some, List, [], ◌∷◌, ◌++◌, any, map, ltb,
  ◌==◌, if◌then◌else◌,
}
use secure_edge_platform.Prelude.Text.{Str, codes, same, trim_space, to_lower, to_upper}

pub data Source : Type 0 where
  builtin custom : Source

pub record Rule : Type 0 where
  pub id : Str
  pub name : Str
  pub category : Str
  pub score : ℕ
  pub targets : List Str
  pub source : Source
  pub pattern : Str → Bool

pub record CustomRule : Type 0 where
  pub id : Str
  pub name : Str
  pub category : Str
  pub score : ℕ
  pub targets : List Str
  pub pattern : Str

pub record Spec : Type 0 where
  pub id : Str
  pub name : Str
  pub category : Str
  pub score : ℕ
  pub targets : List Str

abbrev spec : Str → Str → Str → ℕ → List Str → Spec
spec i n c s t = record { id = i; name = n; category = c; score = s; targets = t }

abbrev pub specs : List Spec
specs =
    spec (codes "SQLI-001") (codes "UNION SELECT") (codes "sqli") 5
      (codes "path" ∷ codes "query" ∷ codes "body" ∷ [])
    ∷ spec (codes "SQLI-002") (codes "Boolean tautology") (codes "sqli") 5
        (codes "query" ∷ codes "body" ∷ [])
    ∷ spec (codes "SQLI-003") (codes "Time-based SQLi") (codes "sqli") 5
        (codes "query" ∷ codes "body" ∷ [])
    ∷ spec (codes "SQLI-004") (codes "SQL metadata access") (codes "sqli") 4
        (codes "query" ∷ codes "body" ∷ [])
    ∷ spec (codes "SQLI-005") (codes "Stacked SQL statement") (codes "sqli") 5
        (codes "query" ∷ codes "body" ∷ [])
    ∷ spec (codes "SQLI-006") (codes "SQL comment bypass") (codes "sqli") 3
        (codes "query" ∷ codes "body" ∷ [])
    ∷ spec (codes "SQLI-007") (codes "SQL file operations") (codes "sqli") 5
        (codes "query" ∷ codes "body" ∷ [])
    ∷ spec (codes "XSS-001") (codes "Script tag") (codes "xss") 5
        (codes "path" ∷ codes "query" ∷ codes "body" ∷ [])
    ∷ spec (codes "XSS-002") (codes "Event handler") (codes "xss") 4
        (codes "query" ∷ codes "body" ∷ [])
    ∷ spec (codes "XSS-003") (codes "JavaScript URI") (codes "xss") 5
        (codes "path" ∷ codes "query" ∷ codes "body" ∷ codes "headers" ∷ [])
    ∷ spec (codes "XSS-004") (codes "Dangerous HTML element") (codes "xss") 4
        (codes "query" ∷ codes "body" ∷ [])
    ∷ spec (codes "XSS-005") (codes "Data URI script") (codes "xss") 5
        (codes "query" ∷ codes "body" ∷ codes "headers" ∷ [])
    ∷ spec (codes "PATH-001") (codes "Path traversal") (codes "path_traversal") 5
        (codes "path" ∷ codes "query" ∷ codes "body" ∷ [])
    ∷ spec (codes "PATH-002") (codes "Sensitive file probe") (codes "recon") 5
        (codes "path" ∷ codes "query" ∷ [])
    ∷ spec (codes "PATH-003") (codes "Windows device path") (codes "path_traversal") 4
        (codes "path" ∷ codes "query" ∷ codes "body" ∷ [])
    ∷ spec (codes "CMD-001") (codes "Command separator") (codes "command_injection") 5
        (codes "query" ∷ codes "body" ∷ [])
    ∷ spec (codes "CMD-002") (codes "Command substitution") (codes "command_injection") 5
        (codes "query" ∷ codes "body" ∷ [])
    ∷ spec (codes "CMD-003") (codes "Environment variable expansion") (codes "command_injection") 4
        (codes "query" ∷ codes "body" ∷ [])
    ∷ spec (codes "SSRF-001") (codes "Cloud metadata endpoint") (codes "ssrf") 5
        (codes "query" ∷ codes "body" ∷ [])
    ∷ spec (codes "SSRF-002") (codes "Local network target") (codes "ssrf") 4
        (codes "query" ∷ codes "body" ∷ [])
    ∷ spec (codes "XXE-001") (codes "XML external entity") (codes "xxe") 5 (codes "body" ∷ [])
    ∷ spec (codes "NOSQL-001") (codes "NoSQL operator injection") (codes "nosqli") 4
        (codes "query" ∷ codes "body" ∷ [])
    ∷ spec (codes "LDAP-001") (codes "LDAP filter injection") (codes "ldap_injection") 4
        (codes "query" ∷ codes "body" ∷ [])
    ∷ spec (codes "CRLF-001") (codes "CRLF injection") (codes "protocol") 4
        (codes "path" ∷ codes "query" ∷ [])
    ∷ spec (codes "PROTO-001") (codes "Template expression") (codes "template_injection") 4
        (codes "query" ∷ codes "body" ∷ [])
    ∷ spec (codes "PROTO-002") (codes "JNDI lookup") (codes "rce") 5
        (codes "path" ∷ codes "query" ∷ codes "body" ∷ codes "headers" ∷ [])
    ∷ spec (codes "PROTO-003") (codes "PHP wrapper") (codes "rce") 5
        (codes "path" ∷ codes "query" ∷ codes "body" ∷ [])
    ∷ spec (codes "PROTO-004") (codes "Null byte") (codes "protocol") 4
        (codes "path" ∷ codes "query" ∷ codes "body" ∷ [])
    ∷ spec (codes "SCAN-001") (codes "Security scanner user agent") (codes "recon") 3
        (codes "headers" ∷ [])
    ∷ spec (codes "SCAN-002") (codes "Exploit framework marker") (codes "recon") 3
        (codes "headers" ∷ codes "query" ∷ codes "body" ∷ [])
    ∷ spec (codes "REDIR-001") (codes "Protocol-relative redirect") (codes "open_redirect") 3
        (codes "query" ∷ [])
    ∷ spec (codes "COOKIE-001") (codes "Cookie injection") (codes "protocol") 4
        (codes "cookies" ∷ [])
    ∷ []

-- config.MaxCustomRuleScore
abbrev pub max_custom_rule_score : ℕ
max_custom_rule_score = 1000

unfoldable pub builtin_rule : (Str → Str → Bool) → Spec → Rule
builtin_rule builtin_pattern s = record {
  id = s.id;
  name = s.name;
  category = s.category;
  score = s.score;
  targets = s.targets;
  source = builtin;
  pattern = builtin_pattern s.id;
}

unfoldable pub builtin_rules : (Str → Str → Bool) → List Rule
unfolding builtin_rule
builtin_rules builtin_pattern = map (builtin_rule builtin_pattern) specs

abbrev pub ids : List Rule → List Str
ids [] = []
ids (r ∷ rs) = r.id ∷ ids rs

pub data Fault : Type 0 where
  duplicate_id : Str → Fault
  bad_score : Str → Fault
  bad_pattern : Str → Fault

pub data Compiled : Type 0 where
  rules : List Rule → Compiled
  fault : Fault → Compiled

module _ (compile : Str → Option (Str → Bool)) where
  abbrev pub custom_id : CustomRule → Str
  custom_id c = to_upper (trim_space c.id)

  unfoldable pub custom_rule : CustomRule → (Str → Bool) → Rule
  custom_rule c pattern = record {
    id = custom_id c;
    name = c.name;
    category = to_lower c.category;
    score = c.score;
    targets = map (λ target. to_lower (trim_space target)) c.targets;
    source = custom;
    pattern = pattern;
  }

  -- The loop over the custom rules, with the rules so far; the ids that were seen are theirs.
  unfoldable pub compile_custom : List CustomRule → List Rule → Compiled
  unfolding custom_rule
  compile_custom [] out = rules out
  compile_custom (c ∷ cs) out =
      if any (same (custom_id c)) (ids out)
      then fault (duplicate_id (custom_id c))
      else if c.score == 0 || ltb max_custom_rule_score c.score
      then fault (bad_score (custom_id c))
      else elim (compile c.pattern) [
        | none ↦ fault (bad_pattern (custom_id c))
        | some pattern ↦ compile_custom cs (out ++ custom_rule c pattern ∷ [])
      ]

  unfoldable pub compile_rules : (Str → Str → Bool) → List CustomRule → Compiled
  unfolding compile_custom builtin_rules
  compile_rules builtin_pattern customs = compile_custom customs (builtin_rules builtin_pattern)
