-- ===== src/Upstreams/Choice.antt =====
-- Upstreams: a scheduler chooses one of its candidates, whatever the algorithm.
use secure_edge_platform.Prelude.{
  ℕ, zero, suc, ◌+◌, ◌-◌, ◌%◌, ◌^◌, ◌≤◌, ◌<◌, ◌≡◌, refl, ap, sym, subst, ◌∙◌, ◌⊎◌, inl, inr, Bool,
  true, false, ◌&&◌, ◌||◌, Option, none, some, List, [], ◌∷◌, arith, length, get_elem?, keep, ltb,
  ◌==◌, if◌then◌else◌, Bool-cases, Option-cases, ==_iff,
}
use secure_edge_platform.Upstreams.Nodes.{Upstream, read, Among}
use secure_edge_platform.Upstreams.{
  Algorithm, Pool, Arithmetic, Round, better, gain, smooth_loop, settle, pick_smooth_weighted,
  least_from, minimum_from, group_of, pick_group, pick_priority, weighted_at, pick_random_weighted,
  pick_round_robin, round_robin_index, schedule, schedule_by, weighted_round_robin,
  least_connections, priority_failover, adaptive_latency, random_weighted, round_robin,
  total_weight, mix, next_random,
}

-- A choice among some candidates.
abbrev pub ChosenFrom : List ℕ → Option ℕ → Type 0
ChosenFrom l none = ⊥
ChosenFrom l (some s) = Among s l

better-or :
    (nodes : List Upstream) (i s : ℕ)
    → (better nodes i (some s) ≡ i) ⊎ (better nodes i (some s) ≡ s)
unfolding better
better-or nodes i s = ground arith

smooth_loop-selected :
    (weight : Upstream → ℕ) (is : List ℕ) (r : Round) (s : ℕ) (l : List ℕ)
    → r.selected ≡ some s
    → Among s l
    → ((i : ℕ) → Among i is → Among i l)
    → ChosenFrom l (smooth_loop weight is r).selected
unfolding smooth_loop
smooth_loop-selected weight [] r s l e m sub = subst (ChosenFrom l) (sym e) m
smooth_loop-selected weight (i ∷ is) r s l e m sub =
    smooth_loop-selected weight is _
      (better (gain r.nodes i (weight (read r.nodes i))) i r.selected) l refl
      (rw e (chosen (better-or (gain r.nodes i (weight (read r.nodes i))) i s)))
      (λ j n. sub j (inr n))
  where
    chosen : {b : ℕ} → (b ≡ i) ⊎ (b ≡ s) → Among b l
    chosen (inl p) = subst (λ x. Among x l) (sym p) (sub i (inl refl))
    chosen (inr p) = subst (λ x. Among x l) (sym p) m

settle-selected : (l : List ℕ) (r : Round) → ChosenFrom l r.selected → ChosenFrom l (settle r).1
unfolding settle
settle-selected l r c = elim (Option-cases r.selected) [
  | inl e ↦ absurd (subst (ChosenFrom l) e c)
  | inr (s, e) ↦ rw (e, settle) (subst (ChosenFrom l) e c)
]

pub pick_smooth_weighted-Chosen :
    (weight : Upstream → ℕ) (nodes : List Upstream) (i : ℕ) (is l : List ℕ)
    → ((j : ℕ) → Among j (i ∷ is) → Among j l)
    → ChosenFrom l (pick_smooth_weighted weight nodes (i ∷ is)).1
unfolding pick_smooth_weighted smooth_loop better
pick_smooth_weighted-Chosen weight nodes i is l sub =
    settle-selected l _
      (smooth_loop-selected weight is _ i l refl (sub i (inl refl)) (λ j m. sub j (inr m)))

least_from-Among :
    (a : Arithmetic) (nodes : List Upstream) (b : ℕ) (is l : List ℕ)
    → Among b l
    → ((j : ℕ) → Among j is → Among j l)
    → Among (least_from a nodes b is) l
unfolding least_from
least_from-Among a nodes b [] l m sub = m
least_from-Among a nodes b (i ∷ is) l m sub = elim (Bool-cases closer) [
  | inl e ↦ rw e (least_from-Among a nodes i is l (sub i (inl refl)) (λ j n. sub j (inr n)))
  | inr e ↦ rw e (least_from-Among a nodes b is l m (λ j n. sub j (inr n)))
]
  where
    closer : Bool
    closer =
        a.less_load ((read nodes i).active + 1) (read nodes i).weight ((read nodes b).active + 1)
          (read nodes b).weight
        || a.same_load ((read nodes i).active + 1) (read nodes i).weight ((read nodes b).active + 1)
            (read nodes b).weight
          && ltb (read nodes i).priority (read nodes b).priority

pub group_of-Among :
    (nodes : List Upstream) (m : ℕ) (is : List ℕ) (j : ℕ)
    → Among j (group_of nodes m is)
    → Among j is × ((read nodes j).priority ≡ m)
unfolding group_of
group_of-Among nodes m [] j h = absurd h
group_of-Among nodes m (i ∷ is) j h = elim (Bool-cases ((read nodes i).priority == m)) [
  | inl e ↦ first e (group_of-Among nodes m is j) (rw e at h)
  | inr e ↦ let (p, q) = group_of-Among nodes m is j (rw e at h) in (inr p, q)
]
  where
    first :
        ((read nodes i).priority == m) ≡ true
        → (Among j (group_of nodes m is) → Among j is × ((read nodes j).priority ≡ m))
        → (j ≡ i) ⊎ Among j (keep (λ i. (read nodes i).priority == m) is)
        → Among j (i ∷ is) × ((read nodes j).priority ≡ m)
    first e ih (inl p) = (inl p, ap (λ x. (read nodes x).priority) p ∙ ground arith)
    first e ih (inr n) = let (p, q) = ih n in (inr p, q)

Among-group_of :
    (nodes : List Upstream) (m : ℕ) (is : List ℕ) (j : ℕ)
    → Among j is
    → (read nodes j).priority ≡ m
    → Among j (group_of nodes m is)
unfolding group_of
Among-group_of nodes m [] j h e = h
Among-group_of nodes m (i ∷ is) j (inl p) e =
    let own : ((read nodes i).priority == m) ≡ true =
      (==_iff (read nodes i).priority m).1 (ap (λ x. (read nodes x).priority) (sym p) ∙ e) in
    rw own (inl p)
Among-group_of nodes m (i ∷ is) j (inr n) e = elim (Bool-cases ((read nodes i).priority == m)) [
  | inl own ↦ rw own (inr (Among-group_of nodes m is j n e))
  | inr other ↦ rw other (Among-group_of nodes m is j n e)
]

-- The least priority is that of a candidate, and no candidate's is less.
minimum_from_lem :
    (nodes : List Upstream) (b : ℕ) (is l : List ℕ)
    → Among b l
    → ((j : ℕ) → Among j is → Among j l)
    → (j : ℕ) × Among j l
      × ((read nodes j).priority ≡ minimum_from nodes (read nodes b).priority is)
unfolding minimum_from
minimum_from_lem nodes b [] l m sub = (b, m, refl)
minimum_from_lem nodes b (i ∷ is) l m sub =
    elim (Bool-cases (ltb (read nodes i).priority (read nodes b).priority)) [
      | inl e ↦ rw e (minimum_from_lem nodes i is l (sub i (inl refl)) (λ j n. sub j (inr n)))
      | inr e ↦ rw e (minimum_from_lem nodes b is l m (λ j n. sub j (inr n)))
    ]

pub minimum_from-le :
    (nodes : List Upstream) (m : ℕ) (is : List ℕ)
    → (minimum_from nodes m is ≤ m)
      × ((j : ℕ) → Among j is → minimum_from nodes m is ≤ (read nodes j).priority)
unfolding minimum_from
minimum_from-le nodes m [] = (omega arith, λ j h. absurd h)
minimum_from-le nodes m (i ∷ is) =
    let n : ℕ = if ltb (read nodes i).priority m then (read nodes i).priority else m in
    let (p, q) = minimum_from-le nodes n is in (ground (arith, p), λ j h. below p q j h)
  where
    below :
        minimum_from nodes (if ltb (read nodes i).priority m then (read nodes i).priority else m) is
          ≤ (if ltb (read nodes i).priority m then (read nodes i).priority else m)
        → ((j : ℕ)
            → Among j is
            → minimum_from nodes
                (if ltb (read nodes i).priority m then (read nodes i).priority else m)
                is
              ≤ (read nodes j).priority)
        → (j : ℕ) → (j ≡ i) ⊎ Among j is
        → minimum_from nodes
            (if ltb (read nodes i).priority m then (read nodes i).priority else m)
            is
          ≤ (read nodes j).priority
    below p q j (inl e) = rw e (ground (arith, p))
    below p q j (inr n) = q j n

pick_group-Chosen :
    (nodes : List Upstream) (g l : List ℕ) (j : ℕ)
    → Among j g
    → ((i : ℕ) → Among i g → Among i l)
    → ChosenFrom l (pick_group nodes g).1
unfolding pick_group
pick_group-Chosen nodes [] l j m sub = absurd m
pick_group-Chosen nodes (i ∷ []) l j m sub = sub i (inl refl)
pick_group-Chosen nodes (i ∷ k ∷ g) l j m sub =
    pick_smooth_weighted-Chosen (λ u. u.weight) nodes i (k ∷ g) l sub

-- Priority failover chooses among the candidates of the least priority.
pub pick_priority-Chosen :
    (nodes : List Upstream) (i : ℕ) (is : List ℕ)
    → ChosenFrom
        (group_of nodes (minimum_from nodes (read nodes i).priority is) (i ∷ is))
        (pick_priority nodes i is).1
unfolding pick_priority
pick_priority-Chosen nodes i is =
    let (j, m, e) = minimum_from_lem nodes i is (i ∷ is) (inl refl) (λ j n. inr n) in
    pick_group-Chosen nodes _ _ j (Among-group_of nodes _ (i ∷ is) j m e) (λ k n. n)

ChosenFrom-mono :
    (k l : List ℕ) (o : Option ℕ)
    → ((j : ℕ) → Among j k → Among j l)
    → ChosenFrom k o
    → ChosenFrom l o
ChosenFrom-mono k l none sub c = c
ChosenFrom-mono k l (some s) sub c = sub s c

pub weighted_at_here :
    (nodes : List Upstream) (x i j : ℕ) (js : List ℕ)
    → ltb x (read nodes i).weight ≡ true
    → weighted_at nodes x i (j ∷ js) ≡ i
unfolding weighted_at
weighted_at_here nodes x i j js e = ground (arith, e)

pub weighted_at_there :
    (nodes : List Upstream) (x i j : ℕ) (js : List ℕ)
    → ltb x (read nodes i).weight ≡ false
    → weighted_at nodes x i (j ∷ js) ≡ weighted_at nodes (x - (read nodes i).weight) j js
unfolding weighted_at
weighted_at_there nodes x i j js e = ground (arith, e)

weighted_at-Among :
    (nodes : List Upstream) (x i : ℕ) (is : List ℕ) → Among (weighted_at nodes x i is) (i ∷ is)
weighted_at-Among nodes x i [] = unfold weighted_at in inl refl
weighted_at-Among nodes x i (j ∷ js) = elim (Bool-cases (ltb x (read nodes i).weight)) [
  | inl e ↦ inl (weighted_at_here nodes x i j js e)
  | inr e ↦
      subst (λ s. Among s (i ∷ j ∷ js)) (sym (weighted_at_there nodes x i j js e))
        (inr (weighted_at-Among nodes (x - (read nodes i).weight) j js))
]

get_elem?-Chosen : (l : List ℕ) (k : ℕ) → k < length l → ChosenFrom l (get_elem? l k)
get_elem?-Chosen [] k h = absurd (omega arith)
get_elem?-Chosen (i ∷ l) zero h = inl refl
get_elem?-Chosen (i ∷ l) (suc k) h =
    ChosenFrom-mono l (i ∷ l) (get_elem? l k) (λ j n. inr n) (get_elem?-Chosen l k (omega arith))

-- A scheduler chooses one of its candidates, and does not panic while its counter is an int.
pub schedule-Chosen :
    (a : Arithmetic) (p : Pool) (i : ℕ) (is : List ℕ)
    → p.next < 2 ^ 63
    → ChosenFrom (i ∷ is) (schedule a p i is).1
unfolding schedule
schedule-Chosen a p i is h = go p.algorithm
  where
    least : ℕ
    least = minimum_from p.nodes (read p.nodes i).priority is

    go : (g : Algorithm) → ChosenFrom (i ∷ is) (schedule_by a g p i is).1
    go weighted_round_robin =
        unfold schedule_by in
        pick_smooth_weighted-Chosen (λ u. u.weight) p.nodes i is (i ∷ is) (λ j n. n)
    go least_connections =
        unfold schedule_by in least_from-Among a p.nodes i is (i ∷ is) (inl refl) (λ j n. inr n)
    go priority_failover =
        unfold schedule_by in
        ChosenFrom-mono (group_of p.nodes least (i ∷ is)) (i ∷ is) (pick_priority p.nodes i is).1
          (λ j n. (group_of-Among p.nodes least (i ∷ is) j n).0) (pick_priority-Chosen p.nodes i is)
    go adaptive_latency =
        unfold schedule_by in
        pick_smooth_weighted-Chosen a.adaptive_weight p.nodes i is (i ∷ is) (λ j n. n)
    go random_weighted =
        unfold schedule_by pick_random_weighted in
        elim (Bool-cases (total_weight p.nodes (i ∷ is) == 0)) [
          | inl e ↦ rw e (inl refl)
          | inr e ↦ rw e (
              weighted_at-Among p.nodes
                (mix (next_random p.random_state) % total_weight p.nodes (i ∷ is)) i is)
        ]
    go round_robin =
        unfold schedule_by pick_round_robin round_robin_index in
        let e : ltb p.next (2 ^ 63) ≡ true = ground arith in
        rw e (get_elem?-Chosen (i ∷ is) (p.next % suc (length is)) (omega arith))
