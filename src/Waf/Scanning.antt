-- ===== src/Waf/Scanning.antt =====
-- Waf: the loop over the rules finds, in order, the first match of every enabled rule, up to the limit.
use secure_edge_platform.Prelude.{
  ℕ, zero, suc, ◌+◌, ◌≡◌, ◌<◌, inl, inr, refl, sym, ap, ◌∙◌, Bool, true, false, not, ◌&&◌, Option,
  none, some, List, [], ◌∷◌, ◌++◌, any, take, length, length-append, leb, if◌then◌else◌, arith,
  Option-cases, append_assoc, append-nil,
}
use mathlib.Core.Path.{ap₂}
use secure_edge_platform.Prelude.Text.{Str, is_empty, same}
use secure_edge_platform.Waf.Samples.{Codec, Sample}
use secure_edge_platform.Waf.Rules.{Rule}
use secure_edge_platform.Waf.{
  Match, saturating_add_score, Targets, samples_of, match_of, first_sample, or_match, first_match,
  scan_rules,
}

abbrev pub match_name : Match → Str × ℕ
match_name m = (m.rule_id, m.score)

abbrev pub rule_name : Rule → Str × ℕ
rule_name r = (r.id, r.score)

-- The scores of matches, added up.
unfoldable pub total : ℕ → List Match → ℕ
total score [] = score
total score (m ∷ ms) = total (saturating_add_score score m.score) ms

module _ (codec : Codec) (t : Targets) where
  -- What one rule adds: nothing if it is disabled, or else its first match.
  unfoldable pub hit : List Str → Rule → Option Match
  hit disabled rule =
      if any (same rule.id) disabled then none else first_match codec t rule rule.targets

  abbrev pub with_hit : Option Match → List Match → List Match
  with_hit none ms = ms
  with_hit (some m) ms = m ∷ ms

  unfoldable pub hits : List Str → List Rule → List Match
  unfolding hit
  hits disabled [] = []
  hits disabled (rule ∷ rules) = with_hit (hit disabled rule) (hits disabled rules)

  -- A match tells the id and the score of its rule.
  abbrev pub IsOf : Rule → Match → Type 0
  IsOf rule m = (m.rule_id ≡ rule.id) × (m.score ≡ rule.score)

  first_sample-IsOf :
      (rule : Rule) (target : Str) (items : List Sample) {m : Match}
      → first_sample codec rule target items ≡ some m
      → IsOf rule m
  unfolding first_sample match_of
  first_sample-IsOf rule target [] h = absurd (ground (arith, h))
  first_sample-IsOf rule target (i ∷ items) {m} h =
      ground (arith, h, first_sample-IsOf rule target items {m = m})

  pub first_match-IsOf :
      (rule : Rule) (targets : List Str) {m : Match}
      → first_match codec t rule targets ≡ some m
      → IsOf rule m
  unfolding first_match
  first_match-IsOf rule [] h = absurd (ground (arith, h))
  first_match-IsOf rule (target ∷ targets) {m} h =
      elim (Option-cases (first_sample codec rule target (samples_of t target))) [
        | inl e ↦
            first_match-IsOf rule targets
              (ap (λ o. or_match codec o (first_match codec t rule targets)) (sym e) ∙ h)
        | inr (n, e) ↦
            first_sample-IsOf rule target (samples_of t target)
              (e ∙ ap (λ o. or_match codec o (first_match codec t rule targets)) (sym e) ∙ h)
      ]

  pub first_match-score :
      (rule : Rule) (targets : List Str) {m : Match}
      → first_match codec t rule targets ≡ some m
      → m.score ≡ rule.score
  first_match-score rule targets h = (first_match-IsOf rule targets h).1

  abbrev Found : Type 0
  Found = ℕ × List Match × Bool

  -- What the loop gives that may still add n matches.
  abbrev pub expected : ℕ → List Match → ℕ → List Match → Found
  expected n hs score ms = (total score (take n hs), ms ++ take n hs, leb n (length hs))

  found_eq :
      {a a' : ℕ} {b b' : List Match} {c c' : Bool}
      → a ≡ a'
      → b ≡ b'
      → c ≡ c'
      → ◌≡◌ {A = Found} (a, b, c) (a', b', c')
  found_eq {a} {a'} {b} {b'} {c} {c'} p q r = ap₂ (λ x y. (x, y, c)) p q ∙ ap (λ z. (a', b', z)) r

  leb-suc : (n k : ℕ) → leb (suc n) (suc k) ≡ leb n k
  leb-suc n k = ground arith

  module _ (disabled : List Str) (max_matches : ℕ) where
    -- One rule, given what the loop does with the others.
    scan_step :
        (rule : Rule) (rules : List Rule) (score : ℕ) (ms : List Match) (n : ℕ) (b : Bool)
        (o : Option Match)
        → length ms + suc n ≡ max_matches
        → ((m : Match) → o ≡ some m → m.score ≡ rule.score)
        → scan_rules codec t disabled max_matches rules score ms
          ≡ expected (suc n) (hits disabled rules) score ms
        → ((score : ℕ) (ms : List Match) (k : ℕ)
            → length ms + suc k ≡ max_matches
            → scan_rules codec t disabled max_matches rules score ms
              ≡ expected (suc k) (hits disabled rules) score ms)
        → (if b then scan_rules codec t disabled max_matches rules score ms else elim o [
          | none ↦ scan_rules codec t disabled max_matches rules score ms
          | some m ↦
              if◌then◌else◌ {A = Found}
                (leb max_matches (length (ms ++ m ∷ [])))
                (saturating_add_score score rule.score, ms ++ m ∷ [], true)
                (scan_rules codec t disabled max_matches rules
                  (saturating_add_score score rule.score)
                  (ms ++ m ∷ []))
        ])
          ≡ expected (suc n) (with_hit (if b then none else o) (hits disabled rules)) score ms
    unfolding total
    scan_step rule rules score ms n true o e s skip go = skip
    scan_step rule rules score ms n false none e s skip go = skip
    scan_step rule rules score ms zero false (some m) e s skip go =
        rw full (found_eq (ap (saturating_add_score score) (sym (s m refl))) refl (ground arith))
      where
        full : leb max_matches (length (ms ++ m ∷ [])) ≡ true
        full = ground (arith, e, length-append ms (m ∷ []))
    scan_step rule rules score ms (suc k) false (some m) e s skip go = rw room (
        go (saturating_add_score score rule.score) (ms ++ m ∷ []) k
          (omega (arith, e, length-append ms (m ∷ [])))
        ∙ found_eq
            (ap (λ x. total (saturating_add_score score x) (take (suc k) (hits disabled rules)))
              (sym (s m refl)))
            (append_assoc ms (m ∷ []) _) (sym (leb-suc (suc k) _)))
      where
        room : leb max_matches (length (ms ++ m ∷ [])) ≡ false
        room = ground (arith, e, length-append ms (m ∷ []))

    scan-hits :
        (rules : List Rule) (score : ℕ) (ms : List Match) (n : ℕ)
        → length ms + suc n ≡ max_matches
        → scan_rules codec t disabled max_matches rules score ms
          ≡ expected (suc n) (hits disabled rules) score ms
    unfolding scan_rules hits hit total
    scan-hits [] score ms n e = found_eq refl (sym (append-nil ms)) (ground arith)
    scan-hits (rule ∷ rules) score ms n e =
        scan_step rule rules score ms n (any (same rule.id) disabled)
          (first_match codec t rule rule.targets) e (λ m h. first_match-score rule rule.targets h)
          (scan-hits rules score ms n e) (scan-hits rules)

  -- The loop over the rules finds exactly the first matches of the enabled rules, in the order of the
  -- rules and each rule once, cut off at the limit: it tells that the limit was reached if there are
  -- as many, and its score is the sum of theirs that stops at the largest int.
  pub scan_rules-hits :
      (disabled : List Str) (max_matches : ℕ) (rules : List Rule)
      → 0 < max_matches
      → scan_rules codec t disabled max_matches rules 0 []
        ≡ expected max_matches (hits disabled rules) 0 []
  scan_rules-hits disabled (suc n) rules p = scan-hits disabled (suc n) rules 0 [] n (omega arith)
  scan_rules-hits disabled zero rules p = absurd (omega (arith, p))

  abbrev pub tries : Rule → Sample → Bool
  tries rule item = not (is_empty item.value) && rule.pattern item.value

  abbrev pub is_some : Option Match → Bool
  is_some none = false
  is_some (some m) = true

  -- An enabled rule whose expression matches some sample that is not empty, of some of its targets.
  abbrev pub applies : List Str → Rule → Bool
  applies disabled rule =
      not (any (same rule.id) disabled)
      && any (λ target. any (tries rule) (samples_of t target)) rule.targets
