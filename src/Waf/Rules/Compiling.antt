-- ===== src/Waf/Rules/Compiling.antt =====
-- Waf.Rules: no two rules with one id.
use secure_edge_platform.Prelude.{
  ◌≡◌, ◌≤◌, ◌<◌, ◌⊎◌, Bool, true, not, ◌&&◌, Option, none, some, map, List, [], ◌∷◌, ◌++◌, any,
}
use secure_edge_platform.Prelude.Text.{Str, same, to_upper, to_lower, trim_space}
use secure_edge_platform.Waf.Rules.{
  Rule, CustomRule, custom, ids, Fault, duplicate_id, bad_score, bad_pattern, Compiled, rules,
  fault,
}

pub all_distinct : List Str → Bool
all_distinct [] = true
all_distinct (s ∷ ss) = not (any (same s) ss) && all_distinct ss

module _ (compile : Str → Option (Str → Bool)) where
  -- The id of a custom rule without blanks around it, in capitals.
  abbrev pub normal_id : CustomRule → Str
  normal_id c = to_upper (trim_space c.id)

  abbrev pub custom_ids : List CustomRule → List Str
  custom_ids [] = []
  custom_ids (c ∷ cs) = normal_id c ∷ custom_ids cs

  -- The rule that stands for a custom one: its own name and score, its id normalized, its category in
  -- small letters, its targets so too and without blanks around them, and its pattern compiled.
  pub record IsCompiled (c : CustomRule) (r : Rule) : Type 0 where
    pub id : r.id ≡ normal_id c
    pub name : r.name ≡ c.name
    pub category : r.category ≡ to_lower c.category
    pub targets : r.targets ≡ map (λ target. to_lower (trim_space target)) c.targets
    pub source : r.source ≡ custom
    pub pattern : compile c.pattern ≡ some r.pattern
    pub score : r.score ≡ c.score
    pub scored : (1 ≤ c.score) × (c.score ≤ 1000)

  abbrev pub AreCompiled : List CustomRule → List Rule → Type 0
  AreCompiled [] [] = Unit
  AreCompiled [] (r ∷ rs) = ⊥
  AreCompiled (c ∷ cs) [] = ⊥
  AreCompiled (c ∷ cs) (r ∷ rs) = IsCompiled c r × AreCompiled cs rs

  -- What is wrong with a rule, given the ids that came before it.
  pub data IsFaulty (seen : List Str) (c : CustomRule) : Fault → Type 0 where
    duplicate : any (same (normal_id c)) seen ≡ true → IsFaulty seen c (duplicate_id (normal_id c))
    unscored : (c.score ≡ 0) ⊎ (1000 < c.score) → IsFaulty seen c (bad_score (normal_id c))
    unparsed : compile c.pattern ≡ none → IsFaulty seen c (bad_pattern (normal_id c))

  -- The rules with the custom ones behind the others, or the first custom rule that is at fault.
  pub data Outcome (cs : List CustomRule) (out : List Rule) : Compiled → Type 0 where
    compiled :
        (added : List Rule)
        → all_distinct (ids (out ++ added)) ≡ true
        → AreCompiled cs added
        → Outcome cs out (rules (out ++ added))
    faulty :
        (before : List CustomRule) (c : CustomRule) (after : List CustomRule) (f : Fault)
        → cs ≡ before ++ c ∷ after
        → IsFaulty (ids out ++ custom_ids before) c f
        → Outcome cs out (fault f)
