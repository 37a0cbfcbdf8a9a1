-- ===== src/Gateway/Logging.antt =====
-- apps/securityedge/internal/gateway/handler.go: what a request leaves in the logs. A match is its rule
-- and its category; `fingerprint` is the hexadecimal digest of a text.
use secure_edge_platform.Prelude.{
  ◌≡◌, ◌≤◌, ◌⊎◌, inl, inr, refl, sym, subst, Bool, true, false, ◌||◌, List, [], ◌∷◌, any, take,
  length, length-take, ltb, if◌then◌else◌, arith, if_elim,
}
use secure_edge_platform.Prelude.Text.{Str, codes, same, is_empty, has_prefix}
use secure_edge_platform.Gateway.Shape.{Reason, reason_text}
use secure_edge_platform.Gateway.Responses.{
  Action, allow, block, log, rate_limit, overload, banned, canceled,
}

-- strings.Contains(s, part)
pub contains : Str → Str → Bool
contains [] part = is_empty part
contains (c ∷ s) part = has_prefix (c ∷ s) part || contains s part

abbrev is_block : Action → Bool
is_block block = true
is_block _ = false

abbrev tells_path : Action → Reason → Bool → Bool
tells_path action reason detected =
    detected
    || (is_block action
        || (contains (reason_text reason) (codes "path")
            || (contains (reason_text reason) (codes "query")
                || (contains (reason_text reason) (codes "header")
                    || contains (reason_text reason) (codes "body")))))

pub log_safe_path : (Str → Str) → Str → Action → Reason → Bool → Str × Str
unfolding contains
log_safe_path fingerprint path action why detected =
    let fp = fingerprint path in
    if tells_path action why detected
    then (codes "[redacted]", fp)
    else if is_empty path
    then (codes "/", fp)
    else if ltb 512 (length path)
    then (take 512 path, fp)
    else (path, fp)

pub fingerprint_of : (Str → Str) → Str → Str
fingerprint_of digest value = if is_empty value then [] else digest value

pub record Match : Type 0 where
  pub rule_id : Str
  pub category : Str

-- One of the loops of ruleData: each value once, in the order in which they come.
pub unseen : List Str → List Str → List Str
unseen seen [] = []
unseen seen (s ∷ rest) =
    let fresh = unseen (s ∷ seen) rest in
    let again = unseen seen rest in if any (same s) seen then again else s ∷ fresh

abbrev ids_of : List Match → List Str
ids_of [] = []
ids_of (m ∷ ms) = m.rule_id ∷ ids_of ms

abbrev categories_of : List Match → List Str
categories_of [] = []
categories_of (m ∷ ms) = m.category ∷ categories_of ms

pub rule_data : List Match → List Str × List Str
unfolding unseen
rule_data ms = (unseen [] (ids_of ms), unseen [] (categories_of ms))

pub data Level : Type 0 where
  info warn error : Level

-- The level and the event of the log entry.
pub event_of : Action → Bool → Level × Str
event_of action failed = if failed then (error, codes "inspection_error") else elim action [
  | block ↦ (warn, codes "waf_blocked")
  | log ↦ (warn, codes "waf_detected")
  | rate_limit ↦ (warn, codes "rate_limited")
  | overload ↦ (warn, codes "overload_rejected")
  | banned ↦ (warn, codes "auto_ban_rejected")
  | _ ↦ (info, codes "waf_allowed")
]

-- A request is logged if it was not canceled and something is to be told of it.
pub is_logged : Action → Bool → Bool → Bool
is_logged action matched failed = elim action [
  | canceled ↦ false
  | allow ↦ matched || failed
  | _ ↦ true
]

abbrev pub IsShort : Str × Str → Type 0
IsShort r = length r.0 ≤ 512

-- A path in the log has at most 512 bytes, and it is hidden wherever the request was blocked or a
-- rule matched.
pub log_safe_path_lem :
    (fingerprint : Str → Str) (path : Str) (action : Action) (why : Reason) (detected : Bool)
    → (length (log_safe_path fingerprint path action why detected).0 ≤ 512)
      × ((action ≡ block) ⊎ (detected ≡ true)
          → (log_safe_path fingerprint path action why detected).0 ≡ codes "[redacted]")
unfolding log_safe_path
log_safe_path_lem fingerprint path action why detected = (
  if_elim IsShort (tells_path action why detected) _ _ (λ e. omega arith)
      (λ e.
        if_elim IsShort (is_empty path) _ _ (λ e. omega arith)
          (λ e.
            if_elim IsShort (ltb 512 (length path)) _ _ (λ e. omega (arith, length-take 512 path))
              (λ e. ground (arith, e)))),
  go action detected,
)
  where
    go :
        (c : Action) (d : Bool)
        → (c ≡ block) ⊎ (d ≡ true)
        → (log_safe_path fingerprint path c why d).0 ≡ codes "[redacted]"
    go block true h = refl
    go block false h = refl
    go c true h = refl
    go c false (inl e) =
        subst (λ x. (log_safe_path fingerprint path x why false).0 ≡ codes "[redacted]") (sym e)
          refl
    go c false (inr e) = absurd (ground (arith, e))
