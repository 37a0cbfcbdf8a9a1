-- ===== src/Waf/Results.antt =====
-- Waf: what Inspect answers.
use secure_edge_platform.Prelude.{
  ℕ, zero, suc, ◌+◌, ◌≡◌, ◌≤◌, ◌<◌, ◌⊎◌, subst, inl, inr, refl, ◌∙◌, Bool, true, false, Option,
  none, some, List, [], ◌∷◌, any, take, length, length-take, min, leb, if◌then◌else◌, arith,
  if_elim, ltb, Option-cases, All, take-append-drop, take_of_length-le, ap, Bool-cases, sym,
}
use mathlib.Core.Path.{ap₂}
use secure_edge_platform.Prelude.Text.{Str, same, codes}
use secure_edge_platform.CachePolicy.{get}
use secure_edge_platform.Gateway.Shape.{content_type_allowed}
use secure_edge_platform.Waf.Json.{body_samples}
use secure_edge_platform.Waf.Coverage.{HasForms, path_samples-HasForms, query_samples-HasForms}
use secure_edge_platform.Waf.Growth.{Has, body_samples-Has}
use secure_edge_platform.Waf.Samples.{Codec, Sample, normalize, HttpRequest, read_and_restore}
use secure_edge_platform.Waf.Rules.{Rule}
use secure_edge_platform.Waf.{
  Match, Result, Policy, Targets, max_int, sort_matches, first_match, excluded_path_matches,
  disabled_ids, body_of, result_of, nothing_found, targets_of, scanned, with_body, inspect,
}
use secure_edge_platform.Waf.Scanning.{hit, hits, with_hit, first_match-score, scan_rules-hits}
use secure_edge_platform.Waf.Bounds.{sum, total_lem}
use secure_edge_platform.Waf.Sorting.{is_ordered, sort_matches_lem}

abbrev IsSmall : Match → Type 0
IsSmall m = m.score ≤ max_int

All-take : (n : ℕ) (ms : List Match) → All IsSmall ms → All IsSmall (take n ms)
All-take zero ms a = tt
All-take (suc n) [] a = tt
All-take (suc n) (m ∷ ms) a = (a.0, All-take n ms a.1)

suc_add_one : (n : ℕ) → suc n + 1 ≡ suc (n + 1)
suc_add_one n = omega arith

take-take : (n : ℕ) (s : Str) → take n (take (n + 1) s) ≡ take n s
take-take zero s = refl
take-take (suc n) [] = rw (suc_add_one n) refl
take-take (suc n) (c ∷ s) = rw (suc_add_one n) (ap (◌∷◌ c) (take-take n s))

-- The inspection takes nothing from a body: where it can be read, the rules see as many of its bytes
-- as the limit allows, the result tells whether there are more, and the next reader gets all of it.
pub read_and_restore_lem :
    (req : HttpRequest) (body : Str) (limit : ℕ)
    → req.read_fails ≡ false
    → read_and_restore req body limit ≡ some (take limit body, ltb limit (length body), body)
unfolding read_and_restore
read_and_restore_lem req body limit e =
    rw e (elim (Bool-cases (ltb limit (length (take (limit + 1) body)))) [
      | inl more ↦ rw more (
          triple (take-take limit body) (ground (arith, more, length-take (limit + 1) body))
            (take-append-drop (limit + 1) body))
      | inr less ↦ rw less (
          triple (all_of less ∙ sym (take_of_length-le limit body (short less)))
            (ground (arith, less, length-take (limit + 1) body)) (all_of less))
    ])
  where
    triple :
        {a a' c c' : Str} {b b' : Bool}
        → a ≡ a'
        → b ≡ b'
        → c ≡ c'
        → ◌≡◌ {A = Option (Str × Bool × Str)} (some (a, b, c)) (some (a', b', c'))
    triple {a} {a'} {c} {c'} {b} {b'} p q r =
        ap₂ (λ x y. some (x, y, c)) p q ∙ ap (λ z. some (a', b', z)) r

    short : ltb limit (length (take (limit + 1) body)) ≡ false → length body ≤ limit
    short less = ground (arith, less, length-take (limit + 1) body)

    all_of : ltb limit (length (take (limit + 1) body)) ≡ false → take (limit + 1) body ≡ body
    all_of less = take_of_length-le (limit + 1) body (omega (arith, short less))

read_and_restore_fails :
    (req : HttpRequest) (body : Str) (limit : ℕ)
    → req.read_fails ≡ true
    → read_and_restore req body limit ≡ none
unfolding read_and_restore
read_and_restore_fails req body limit e = rw e refl

module _ (codec : Codec) where
  All-hits :
      (t : Targets) (disabled : List Str) (rules : List Rule)
      → All (λ r. r.score ≤ max_int) rules
      → All IsSmall (hits codec t disabled rules)
  unfolding hits hit
  All-hits t disabled [] a = tt
  All-hits t disabled (rule ∷ rules) a =
      go (any (same rule.id) disabled) (first_match codec t rule rule.targets)
        (λ m h. first_match-score codec t rule rule.targets h) (All-hits t disabled rules a.1)
    where
      go :
          (b : Bool) (o : Option Match)
          → ((m : Match) → o ≡ some m → m.score ≡ rule.score)
          → All IsSmall (hits codec t disabled rules)
          → All IsSmall (with_hit codec t (if b then none else o) (hits codec t disabled rules))
      go true o s w = w
      go false none s w = w
      go false (some m) s w = (omega (arith, s m refl, a.0), w)

  -- A result for samples: the first matches of the enabled rules up to the limit, in their order, with
  -- the sum of their scores.
  pub record IsResult (rules : List Rule) (max_matches : ℕ) (policy : Policy) (t : Targets)
      (result : Result) : Type 0 where
    pub not_excluded : result.excluded ≡ false
    pub found :
        (p : Match → Bool)
        → any p result.matches
          ≡ any p (take max_matches (hits codec t (disabled_ids codec policy) rules))
    pub number :
        length result.matches
        ≡ min max_matches (length (hits codec t (disabled_ids codec policy) rules))
    pub ordered : is_ordered result.matches ≡ true
    pub score : result.score ≡ min max_int (sum result.matches)
    pub limit :
        result.match_limit_reached
        ≡ leb max_matches (length (hits codec t (disabled_ids codec policy) rules))

  scanned-IsResult :
      (rules : List Rule) (max_matches : ℕ) (req : HttpRequest) (policy : Policy)
      (body : List Sample) (i u : Bool)
      → 0 < max_matches
      → All (λ r. r.score ≤ max_int) rules
      → IsResult rules max_matches policy
          (targets_of codec req policy body)
          (result_of codec (scanned codec rules max_matches req policy body) i u)
  scanned-IsResult rules max_matches req policy body i u p a =
      rw (scan_rules-hits codec t disabled max_matches rules p) (record {
        not_excluded = refl;
        found = order.1;
        number = order.2 ∙ length-take max_matches (hits codec t disabled rules);
        ordered = order.0;
        score =
            total_lem 0 kept (omega arith) (All-take max_matches _ (All-hits t disabled rules a))
            ∙ omega (arith, order.3);
        limit = refl;
      })
    where
      t : Targets
      t = targets_of codec req policy body

      disabled : List Str
      disabled = disabled_ids codec policy

      kept : List Match
      kept = take max_matches (hits codec t disabled rules)

      order :
          (is_ordered (sort_matches kept) ≡ true)
          × ((p : Match → Bool) → any p (sort_matches kept) ≡ any p kept)
          × (length (sort_matches kept) ≡ length kept)
          × (sum (sort_matches kept) ≡ sum kept)
      order = sort_matches_lem kept

  -- The policy inspects bodies, as many bytes as its limit says, and of the type of this one.
  pub record IsInspectable (req : HttpRequest) (policy : Policy) : Type 0 where
    pub wanted : policy.inspect_request_body ≡ true
    pub roomy : 0 < policy.max_inspection_body_bytes
    pub typed :
        content_type_allowed codec.parse_media_type
          (get req.header (codes "Content-Type"))
          policy.body_content_types
        ≡ true

  -- What of the body of a request is inspected, and whether it has more.
  pub data Seen (req : HttpRequest) (policy : Policy) : Option (Str × Bool) → Type 0 where
    absent : req.body ≡ none → Seen req policy none
    ignored : ¬ IsInspectable req policy → Seen req policy none
    read :
        (body : Str)
        → req.body ≡ some body
        → IsInspectable req policy
        → req.read_fails ≡ false
        → Seen req policy (
            some (
              take policy.max_inspection_body_bytes body,
              ltb policy.max_inspection_body_bytes (length body),
            ))

  -- The samples of what is inspected of a body.
  abbrev pub seen_samples : HttpRequest → Option (Str × Bool) → List Sample
  seen_samples req none = []
  seen_samples req (some (body, more)) =
      body_samples codec body (get req.header (codes "Content-Type"))

  abbrev pub is_seen : Option (Str × Bool) → Bool
  is_seen none = false
  is_seen (some seen) = true

  abbrev pub is_cut : Option (Str × Bool) → Bool
  is_cut none = false
  is_cut (some (body, more)) = more

  -- The text that is inspected is among the samples, and so is its normal form.
  abbrev pub IsCarried : Option (Str × Bool) → List Sample → Type 0
  IsCarried none items = Unit
  IsCarried (some (body, more)) items =
      Has (codec.to_valid_utf8 body) items × Has (normalize codec (codec.to_valid_utf8 body)) items

  -- What an inspection answers: for an excluded path nothing is looked at; where the body is to be
  -- inspected and cannot be read there is an error; or else a result for the samples of the request,
  -- its path and its query among them as they stand, decoded and normalized, and of what is inspected
  -- of its body, which tells whether a body was inspected and whether it has more.
  pub data Inspected (rules : List Rule) (max_matches : ℕ) (req : HttpRequest) (policy : Policy)
      : Option Result → Type 0 where
    excluded :
        any (excluded_path_matches codec req.url.path) policy.excluded_path_prefixes ≡ true
        → Inspected rules max_matches req policy (some (nothing_found codec))
    unread :
        (body : Str)
        → any (excluded_path_matches codec req.url.path) policy.excluded_path_prefixes ≡ false
        → req.body ≡ some body
        → IsInspectable req policy
        → req.read_fails ≡ true
        → Inspected rules max_matches req policy none
    inspected :
        (seen : Option (Str × Bool)) (result : Result)
        → any (excluded_path_matches codec req.url.path) policy.excluded_path_prefixes ≡ false
        → Seen req policy seen
        → IsCarried seen (seen_samples req seen)
        → HasForms codec req.url.escaped_path
            (targets_of codec req policy (seen_samples req seen)).path
        → HasForms codec req.url.raw_query
            (targets_of codec req policy (seen_samples req seen)).query
        → IsResult rules max_matches policy
            (targets_of codec req policy (seen_samples req seen))
            result
        → result.body_inspected ≡ is_seen seen
        → result.body_truncated ≡ is_cut seen
        → Inspected rules max_matches req policy (some result)

  body_of-none :
      (req : HttpRequest) (policy : Policy) → body_of codec req policy ≡ none → Seen req policy none
  body_of-none req policy f = elim (Option-cases req.body) [
    | inl e ↦ absent e
    | inr (body, e) ↦ ignored (λ s. ground (arith, f, e, s.wanted, s.roomy, s.typed))
  ]

  body_of-some :
      (req : HttpRequest) (policy : Policy) {body : Str}
      → body_of codec req policy ≡ some body
      → (req.body ≡ some body) × IsInspectable req policy
  body_of-some req policy {body} f = (
    ground (arith, f),
    record { wanted = ground (arith, f); roomy = ground (arith, f); typed = ground (arith, f) },
  )

  -- With a limit on matches that is not zero and scores that are ints, Inspect answers as Inspected
  -- says: exactly the paths behind an excluded prefix are not looked at; a body is inspected up to the
  -- limit exactly if there is one and the policy inspects bodies of its type; the result tells the first
  -- matches of the enabled rules, up to the limit, in order, and the sum of their scores, which stops at
  -- the largest int.
  pub inspect-Inspected :
      (rules : List Rule) (max_matches : ℕ) (req : HttpRequest) (policy : Policy)
      → 0 < max_matches
      → All (λ r. r.score ≤ max_int) rules
      → Inspected rules max_matches req policy (inspect codec rules max_matches req policy)
  unfolding inspect
  inspect-Inspected rules max_matches req policy p a =
      if_elim (Inspected rules max_matches req policy)
        (any (excluded_path_matches codec req.url.path) policy.excluded_path_prefixes) _ _
        (λ e. excluded e)
        (λ e. elim (Option-cases (body_of codec req policy)) [
          | inl f ↦
              rw (f, inspect)
                (inspected none _ e (body_of-none req policy f) tt
                  (path_samples-HasForms codec req.url) (query_samples-HasForms codec req.url)
                  (scanned-IsResult rules max_matches req policy [] _ _ p a) refl refl)
          | inr (body, f) ↦
              rw (f, inspect)
                (go e body (body_of-some req policy f).0 (body_of-some req policy f).1
                  (Bool-cases req.read_fails))
        ])
    where
      P : Option (Str × Bool × Str) → Type 0
      P o = Inspected rules max_matches req policy (with_body codec rules max_matches req policy o)

      go :
          any (excluded_path_matches codec req.url.path) policy.excluded_path_prefixes ≡ false
          → (body : Str) → req.body ≡ some body
          → IsInspectable req policy
          → (req.read_fails ≡ true) ⊎ (req.read_fails ≡ false)
          → P (read_and_restore req body policy.max_inspection_body_bytes)
      go e body b s (inl fails) =
          subst P (sym (read_and_restore_fails req body policy.max_inspection_body_bytes fails))
            (unread body e b s fails)
      go e body b s (inr reads) =
          subst P (sym (read_and_restore_lem req body policy.max_inspection_body_bytes reads)) (
            inspected _ _ e (read body b s reads) (body_samples-Has codec _ _)
              (path_samples-HasForms codec req.url) (query_samples-HasForms codec req.url)
              (scanned-IsResult rules max_matches req policy _ _ _ p a) refl refl)
