-- ===== src/Waf/Inspectors.antt =====
-- apps/securityedge/internal/waf/inspect.go, Inspector: the rules in force, which Replace changes as a
-- whole. The mutex makes each call one step; Inspect goes by a copy of the rules and of the limit.
use secure_edge_platform.Prelude.{
  ℕ, ◌≡◌, ◌≤◌, ◌<◌, Bool, true, Option, none, some, List, [], ◌∷◌, ◌==◌, if◌then◌else◌, All,
}
use secure_edge_platform.Prelude.Text.{Str}
use secure_edge_platform.Waf.Samples.{Codec, HttpRequest}
use secure_edge_platform.Waf.Rules.{
  Rule, CustomRule, ids, Fault, Compiled, rules, fault, compile_rules,
}
use secure_edge_platform.Waf.Rules.Compiling.{all_distinct}
use secure_edge_platform.Waf.{Policy, Result, max_int, inspect}

pub record Inspector : Type 0 where
  pub rules : List Rule
  pub max_matches : ℕ

-- The limit that stands for none; a limit below zero is as zero.
abbrev pub limit_or_default : ℕ → ℕ
limit_or_default n = if n == 0 then 32 else n

module _ (compile : Str → Option (Str → Bool)) (builtin_pattern : Str → Str → Bool) where
  abbrev from_compiled : Compiled → ℕ → Option Inspector
  from_compiled (rules rs) n = some (record { rules = rs; max_matches = limit_or_default n })
  from_compiled (fault f) n = none

  unfoldable pub new_inspector : List CustomRule → ℕ → Option Inspector
  new_inspector custom n = from_compiled (compile_rules compile builtin_pattern custom) n

  abbrev or_kept : Inspector → Option Inspector → Inspector
  or_kept i none = i
  or_kept i (some j) = j

  -- Where the rules do not compile, those in force stay.
  unfoldable pub replace : Inspector → List CustomRule → ℕ → Inspector
  replace i custom n = or_kept i (from_compiled (compile_rules compile builtin_pattern custom) n)

  unfoldable pub replace_all : Inspector → List (List CustomRule × ℕ) → Inspector
  unfolding replace
  replace_all i [] = i
  replace_all i ((custom, n) ∷ calls) = replace_all (replace i custom n) calls

  unfoldable pub inspect_with : Codec → Inspector → HttpRequest → Policy → Option Result
  inspect_with codec i req policy = inspect codec i.rules i.max_matches req policy

  -- Rules without an id twice, with scores that are ints, and a limit that is not zero.
  pub record IsReady (i : Inspector) : Type 0 where
    pub distinct : all_distinct (ids i.rules) ≡ true
    pub scores : All (λ r. r.score ≤ max_int) i.rules
    pub limited : 0 < i.max_matches

  data Small : Compiled → Type 0 where
    small : (rs : List Rule) → All (λ (r : Rule). r.score ≤ max_int) rs → Small (rules rs)
    none_compiled : (f : Fault) → Small (fault f)
