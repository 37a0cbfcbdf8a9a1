-- ===== src/Waf.antt =====
-- apps/securityedge/internal/waf/inspect.go, Inspect: the rules against the samples of a request. A
-- regular expression is the test that it makes on a text, and a score is not negative, as CompileRules
-- ensures.
pub mod Samples
pub mod Rules
pub mod Json
pub mod Scanning
pub mod Sorting
pub mod Growth
pub mod Coverage
pub mod Bounds
pub mod Results
pub mod Inspectors
pub mod Examples
use secure_edge_platform.Prelude.{
  ℕ, ◌+◌, ◌-◌, Bool, true, false, not, ◌&&◌, ◌||◌, Option, none, some, List, [], ◌∷◌, ◌++◌, any,
  map, length, ltb, leb, ◌==◌, if◌then◌else◌, get_elem?,
}
use secure_edge_platform.Prelude.Text.{
  Str, codes, same, is_empty, has_prefix, has_suffix, trim_space, to_upper, str_lt,
}
use secure_edge_platform.Paths.{canonical_request_path}
use secure_edge_platform.CachePolicy.{get}
use secure_edge_platform.Gateway.Shape.{content_type_allowed}
use Samples.{
  Codec, Sample, Url, HttpRequest, multi_decode, path_samples, query_samples, header_samples,
  cookie_samples, bounded_match_location, read_and_restore,
}
use Json.{body_samples}
use Rules.{Rule}

pub record Match : Type 0 where
  pub rule_id : Str
  pub rule_name : Str
  pub category : Str
  pub score : ℕ
  pub target : Str
  pub location : Str
  pub fingerprint : Str

pub record Result : Type 0 where
  pub score : ℕ
  pub matches : List Match
  pub body_inspected : Bool
  pub body_truncated : Bool
  pub excluded : Bool
  pub match_limit_reached : Bool

pub record Policy : Type 0 where
  pub excluded_path_prefixes : List Str
  pub disabled_rules : List Str
  pub max_header_count : ℕ
  pub inspect_request_body : Bool
  pub max_inspection_body_bytes : ℕ
  pub body_content_types : List Str

abbrev pub max_int : ℕ
max_int = 9_223_372_036_854_775_807

unfoldable pub saturating_add_score : ℕ → ℕ → ℕ
saturating_add_score current increment =
    if increment == 0
    then current
    else if ltb (max_int - increment) current
    then max_int
    else current + increment

abbrev pub match_less : Match → Match → Bool
match_less a b =
    if same a.rule_id b.rule_id then str_lt a.location b.location else str_lt a.rule_id b.rule_id

-- sort.SliceStable: a match goes behind those that it is not less than.
unfoldable pub insert_match : Match → List Match → List Match
insert_match m [] = m ∷ []
insert_match m (n ∷ ms) =
    let rest = insert_match m ms in if match_less n m then n ∷ rest else m ∷ n ∷ ms

unfoldable pub sort_matches : List Match → List Match
unfolding insert_match
sort_matches [] = []
sort_matches (m ∷ ms) = insert_match m (sort_matches ms)

-- The samples of each kind, with none for a name that is none of theirs.
pub record Targets : Type 0 where
  pub path : List Sample
  pub query : List Sample
  pub headers : List Sample
  pub cookies : List Sample
  pub body : List Sample

unfoldable pub samples_of : Targets → Str → List Sample
samples_of t name =
    if same name (codes "path")
    then t.path
    else if same name (codes "query")
    then t.query
    else if same name (codes "headers")
    then t.headers
    else if same name (codes "cookies")
    then t.cookies
    else if same name (codes "body")
    then t.body
    else []

module _ (codec : Codec) where
  unfoldable pub match_of : Rule → Str → Sample → Match
  match_of rule target item = record {
    rule_id = rule.id;
    rule_name = rule.name;
    category = rule.category;
    score = rule.score;
    target = target;
    location = bounded_match_location codec item.location;
    fingerprint = codec.fingerprint item.value;
  }

  -- The first sample of a target that the rule matches.
  unfoldable pub first_sample : Rule → Str → List Sample → Option Match
  unfolding match_of
  first_sample rule target [] = none
  first_sample rule target (item ∷ items) =
      let rest = first_sample rule target items in
      if is_empty item.value || not (rule.pattern item.value)
      then rest
      else some (match_of rule target item)

  abbrev pub or_match : Option Match → Option Match → Option Match
  or_match (some m) o = some m
  or_match none o = o

  -- The loop over the targets of a rule.
  unfoldable pub first_match : Targets → Rule → List Str → Option Match
  unfolding first_sample samples_of
  first_match t rule [] = none
  first_match t rule (target ∷ targets) =
      or_match (first_sample rule target (samples_of t target)) (first_match t rule targets)

  -- The loop over the rules, with what it has found.
  unfoldable pub scan_rules :
      Targets → List Str → ℕ → List Rule → ℕ → List Match → ℕ × List Match × Bool
  unfolding first_match saturating_add_score
  scan_rules t disabled max_matches [] score matches = (score, matches, false)
  scan_rules t disabled max_matches (rule ∷ rules) score matches =
      let skipped = scan_rules t disabled max_matches rules score matches in
      if any (same rule.id) disabled then skipped else elim (first_match t rule rule.targets) [
        | none ↦ skipped
        | some m ↦
            let total = saturating_add_score score rule.score in
            let found = matches ++ m ∷ [] in
            let rest = scan_rules t disabled max_matches rules total found in
            if leb max_matches (length found) then (total, found, true) else rest
      ]

  unfoldable pub excluded_path_matches : Str → Str → Bool
  excluded_path_matches request_path raw =
      let prefix = trim_space raw in
      let path = canonical_request_path (multi_decode codec.path_unescape request_path) in
      not (is_empty prefix)
      && (same prefix (codes "/")
          || (same path prefix
              || (has_prefix path prefix
                  && (has_suffix prefix (codes "/") || elim (get_elem? path (length prefix)) [
                    | none ↦ false
                    | some c ↦ c == 47
                  ]))))

  abbrev pub disabled_ids : Policy → List Str
  disabled_ids policy = map (λ id. to_upper (trim_space id)) policy.disabled_rules

  -- The body that is inspected, where the policy and its type have it so.
  abbrev pub body_of : HttpRequest → Policy → Option Str
  body_of req policy =
      if policy.inspect_request_body
        && (ltb 0 policy.max_inspection_body_bytes
            && content_type_allowed codec.parse_media_type (get req.header (codes "Content-Type"))
                policy.body_content_types)
      then req.body
      else none

  abbrev pub result_of : ℕ × List Match × Bool → Bool → Bool → Result
  result_of (score, matches, limit) inspected truncated = record {
    score = score;
    matches = sort_matches matches;
    body_inspected = inspected;
    body_truncated = truncated;
    excluded = false;
    match_limit_reached = limit;
  }

  abbrev pub nothing_found : Result
  nothing_found = record {
    score = 0;
    matches = [];
    body_inspected = false;
    body_truncated = false;
    excluded = true;
    match_limit_reached = false;
  }

  abbrev pub targets_of : HttpRequest → Policy → List Sample → Targets
  targets_of req policy body = record {
    path = path_samples codec req.url;
    query = query_samples codec req.url;
    headers = header_samples codec req policy.max_header_count;
    cookies = cookie_samples codec req policy.max_header_count;
    body = body;
  }

  abbrev pub scanned : List Rule → ℕ → HttpRequest → Policy → List Sample → ℕ × List Match × Bool
  scanned rules max_matches req policy body =
      scan_rules (targets_of req policy body) (disabled_ids policy) max_matches rules 0 []

  abbrev pub with_body :
      List Rule → ℕ → HttpRequest → Policy → Option (Str × Bool × Str) → Option Result
  with_body rules max_matches req policy none = none
  with_body rules max_matches req policy (some (body, truncated, restored)) = some (
      result_of
        (scanned rules max_matches req policy
          (body_samples codec body (get req.header (codes "Content-Type"))))
        true truncated)

  -- none where reading the body fails
  unfoldable pub inspect : List Rule → ℕ → HttpRequest → Policy → Option Result
  unfolding excluded_path_matches scan_rules sort_matches
  inspect rules max_matches req policy =
      if any (excluded_path_matches req.url.path) policy.excluded_path_prefixes
      then some nothing_found
      else elim (body_of req policy) [
        | none ↦ some (result_of (scanned rules max_matches req policy []) false false)
        | some body ↦
            with_body rules max_matches req policy
              (read_and_restore req body policy.max_inspection_body_bytes)
      ]
