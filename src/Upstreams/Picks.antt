-- ===== src/Upstreams/Picks.antt =====
-- Upstreams: which node a pick takes: healthy before unhealthy, untried before tried.
use secure_edge_platform.Prelude.{
  ℕ, ◌^◌, ◌<◌, ◌≡◌, refl, ap, sym, subst, ◌∙◌, ◌≢◌, ◌⊎◌, inl, inr, true, false, none, some, List,
  [], ◌∷◌, arith, length,
}
use secure_edge_platform.Upstreams.Nodes.{Upstream, excluded, eligible, Among, IsEligible}
use secure_edge_platform.Upstreams.Choice.{ChosenFrom, schedule-Chosen}
use secure_edge_platform.Upstreams.Eligibility.{eligible_iff}
use secure_edge_platform.Upstreams.{
  Pool, Arithmetic, Choice, schedule, candidates, or_else, count_pick, pick_from, pick, picked,
}

-- Which nodes a pick may choose.
pub record IsGoodPick (p : Pool) (exclude : List ℕ) (s : ℕ) : Type 0 where
  pub a_node : s < length p.nodes
  pub healthy_first :
      (i : ℕ) → IsEligible exclude true p.nodes i → IsEligible exclude true p.nodes s
  pub untried_first :
      (i : ℕ) → IsEligible exclude false p.nodes i → IsEligible exclude false p.nodes s
  pub healthy_again :
      ((i : ℕ) → ¬ IsEligible exclude false p.nodes i)
      → (i : ℕ) → IsEligible [] true p.nodes i
      → IsEligible [] true p.nodes s

Among-or_else :
    (k l : List ℕ) (s : ℕ)
    → Among s (or_else k l)
    → Among s k ⊎ (((i : ℕ) → ¬ Among i k) × Among s l)
Among-or_else [] l s m = inr (λ i h. h, m)
Among-or_else (i ∷ k) l s m = inl m

-- Each tier of candidates is used only where the tiers before it are empty.
pub candidates-IsGoodPick :
    (p : Pool) (exclude : List ℕ) (s : ℕ) → Among s (candidates p exclude) → IsGoodPick p exclude s
unfolding candidates
candidates-IsGoodPick p exclude s m = elim (Among-or_else _ _ s m) [
  | inl t ↦
      let e = (eligible_iff exclude true p.nodes s).0 t in
      record {
        a_node = e.0;
        healthy_first = λ i _. e;
        untried_first = λ i _. (e.0, e.1, λ f. cc f);
        healthy_again = λ none i _. absurd (none s (e.0, e.1, λ f. cc f));
      }
  | inr (no_healthy, m') ↦ elim (Among-or_else _ _ s m') [
    | inl t ↦
        let e = (eligible_iff exclude false p.nodes s).0 t in
        record {
          a_node = e.0;
          healthy_first = λ i f. absurd (no_healthy i ((eligible_iff exclude true p.nodes i).1 f));
          untried_first = λ i _. e;
          healthy_again = λ none i _. absurd (none s e);
        }
    | inr (no_untried, m'') ↦ elim (Among-or_else _ _ s m'') [
      | inl t ↦
          let e = (eligible_iff [] true p.nodes s).0 t in
          record {
            a_node = e.0;
            healthy_first =
                λ i f. absurd (no_healthy i ((eligible_iff exclude true p.nodes i).1 f));
            untried_first =
                λ i f. absurd (no_untried i ((eligible_iff exclude false p.nodes i).1 f));
            healthy_again = λ _ i _. e;
          }
      | inr (none_healthy, t) ↦
          let e = (eligible_iff [] false p.nodes s).0 t in
          record {
            a_node = e.0;
            healthy_first =
                λ i f. absurd (no_healthy i ((eligible_iff exclude true p.nodes i).1 f));
            untried_first =
                λ i f. absurd (no_untried i ((eligible_iff exclude false p.nodes i).1 f));
            healthy_again = λ _ i f. absurd (none_healthy i ((eligible_iff [] true p.nodes i).1 f));
          }
    ]
  ]
]

count_pick-picked :
    (c : Choice) (l : List ℕ)
    → ChosenFrom l c.1
    → (q : Pool) × (s : ℕ) × (count_pick c ≡ picked q s) × Among s l × (c.1 ≡ some s)
unfolding count_pick
count_pick-picked (p, none) l m = absurd m
count_pick-picked (p, some s) l m = (_, s, refl, m, refl)

or_else-empty : (k l : List ℕ) → or_else k l ≡ [] → l ≡ []
or_else-empty [] l e = e
or_else-empty (i ∷ k) l e = cc e

no_candidates : (p : Pool) (exclude : List ℕ) → candidates p exclude ≡ [] → p.nodes ≡ []
unfolding candidates
no_candidates p exclude e = go p.nodes refl
  where
    everyone : eligible [] false p.nodes ≡ []
    everyone = or_else-empty (eligible [] true p.nodes) (eligible [] false p.nodes) (
        or_else-empty (eligible exclude false p.nodes)
          (or_else (eligible [] true p.nodes) (eligible [] false p.nodes))
          (or_else-empty (eligible exclude true p.nodes)
            (or_else (eligible exclude false p.nodes)
              (or_else (eligible [] true p.nodes) (eligible [] false p.nodes)))
            e))

    go : (us : List Upstream) → p.nodes ≡ us → p.nodes ≡ []
    go [] f = f
    go (u ∷ us) f =
        let m : Among 0 (eligible [] false p.nodes) =
          (eligible_iff [] false p.nodes 0).1
            (omega (arith, ap length f), unfold excluded in refl, λ g. cc g) in
        absurd (subst (Among 0) everyone m)

-- A pick from a pool with nodes picks one, by every algorithm, as long as its round-robin counter
-- is below 2 ^ 63: a healthy node that was not tried before, where there is one; else any node not
-- tried; else, once all were tried, a healthy one where there is one.
pub pick-IsGoodPick :
    (a : Arithmetic) (p : Pool) (exclude : List ℕ)
    → p.nodes ≢ []
    → p.next < 2 ^ 63
    → (q : Pool) × (s : ℕ) × (pick a p exclude ≡ picked q s) × IsGoodPick p exclude s
unfolding pick
pick-IsGoodPick a p exclude some_node h = go (candidates p exclude) refl
  where
    go :
        (l : List ℕ)
        → candidates p exclude ≡ l
        → (q : Pool) × (s : ℕ) × (pick_from a p (candidates p exclude) ≡ picked q s)
          × IsGoodPick p exclude s
    go [] e = absurd (some_node (no_candidates p exclude e))
    go (i ∷ is) e =
        let (q, s, f, m, _) =
          count_pick-picked (schedule a p i is) (i ∷ is) (schedule-Chosen a p i is h) in
        (
          q,
          s,
          ap (pick_from a p) e ∙ (unfold pick_from in f),
          candidates-IsGoodPick p exclude s (subst (Among s) (sym e) m),
        )
