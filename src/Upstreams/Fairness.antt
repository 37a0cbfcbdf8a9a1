-- ===== src/Upstreams/Fairness.antt =====
-- Upstreams: what the schedulers optimise, and the shares that they give.
use secure_edge_platform.Prelude.{
  ℕ, ◌+◌, ◌%◌, ◌^◌, ◌≤◌, ◌<◌, ◌≡◌, refl, ap, sym, subst, ◌∙◌, ◌⊎◌, inl, inr, false, some, List, [],
  ◌∷◌, ◌++◌, arith, ◌==◌, if◌then◌else◌, Bool-cases, ==_iff,
}
use native.Mathlib.Nat.{mod-add-mod, mod_self, mod-eq_of_lt, mod-lt}
use secure_edge_platform.Upstreams.Nodes.{Upstream, read, Among}
use secure_edge_platform.Upstreams.{
  weighted_at, minimum_from, group_of, pick_priority, round_robin_index,
}
use secure_edge_platform.Upstreams.Choice.{
  ChosenFrom, weighted_at_here, weighted_at_there, pick_priority-Chosen, group_of-Among,
  minimum_from-le,
}

-- The sum of the weights of some nodes.
unfoldable pub weight_sum : List Upstream → List ℕ → ℕ
weight_sum nodes [] = 0
weight_sum nodes (i ∷ is) = (read nodes i).weight + weight_sum nodes is

weighted_at-head :
    (nodes : List Upstream) (i : ℕ) (post : List ℕ) (x : ℕ)
    → x < (read nodes i).weight
    → weighted_at nodes x i post ≡ i
weighted_at-head nodes i [] x h = unfold weighted_at in refl
weighted_at-head nodes i (j ∷ post) x h = weighted_at_here nodes x i j post (ground arith)

-- Random selection: each number below a candidate's weight, added to the weights of the candidates
-- before it, leads to that candidate.
pub weighted_at-share :
    (nodes : List Upstream) (i : ℕ) (pre : List ℕ) (j : ℕ) (post : List ℕ) (x : ℕ)
    → x < (read nodes j).weight
    → weighted_at nodes ((read nodes i).weight + weight_sum nodes pre + x) i (pre ++ j ∷ post) ≡ j
unfolding weight_sum
weighted_at-share nodes i [] j post x h =
    weighted_at_there nodes ((read nodes i).weight + 0 + x) i j post (ground arith)
    ∙ ap (λ y. weighted_at nodes y j post) (omega arith)
    ∙ weighted_at-head nodes j post x h
weighted_at-share nodes i (k ∷ pre) j post x h =
    weighted_at_there nodes
      ((read nodes i).weight + ((read nodes k).weight + weight_sum nodes pre) + x) i k
      (pre ++ j ∷ post) (ground arith)
    ∙ ap (λ y. weighted_at nodes y k (pre ++ j ∷ post)) (omega arith)
    ∙ weighted_at-share nodes k pre j post x h

-- Priority failover picks a candidate whose priority is the least of all candidates'.
pub pick_priority-least :
    (nodes : List Upstream) (i : ℕ) (is : List ℕ) (s : ℕ)
    → (pick_priority nodes i is).1 ≡ some s
    → Among s (i ∷ is)
      × ((j : ℕ) → Among j (i ∷ is) → (read nodes s).priority ≤ (read nodes j).priority)
pick_priority-least nodes i is s e =
    let least : ℕ = minimum_from nodes (read nodes i).priority is in
    let m : Among s (group_of nodes least (i ∷ is)) =
      subst (ChosenFrom (group_of nodes least (i ∷ is))) e (pick_priority-Chosen nodes i is) in
    let (p, q) = group_of-Among nodes least (i ∷ is) s m in (p, λ j n. least_of q j n)
  where
    least_of :
        (read nodes s).priority ≡ minimum_from nodes (read nodes i).priority is
        → (j : ℕ) → (j ≡ i) ⊎ Among j is
        → (read nodes s).priority ≤ (read nodes j).priority
    least_of q j (inl f) = omega (
      arith,
      q,
      (minimum_from-le nodes (read nodes i).priority is).0,
      ap (λ k. (read nodes k).priority) f,
    )
    least_of q j (inr n) =
        omega (arith, q, (minimum_from-le nodes (read nodes i).priority is).1 j n)

mod-add-one : (a n : ℕ) → 0 < n → (a + 1) % n ≡ (if a % n + 1 == n then 0 else a % n + 1)
mod-add-one a n h = elim (Bool-cases (a % n + 1 == n)) [
  | inl e ↦
      let last : a % n + 1 ≡ n = (==_iff (a % n + 1) n).0 e in
      rw e (sym (mod-add-mod a n 1) ∙ ap (λ x. x % n) last ∙ mod_self n)
  | inr e ↦ rw e (sym (mod-add-mod a n 1) ∙ mod-eq_of_lt (omega (arith, mod-lt a h, differ e)))
]
  where
    differ : (a % n + 1 == n) ≡ false → ¬ (a % n + 1 ≡ n)
    differ e q = cc (e, (==_iff (a % n + 1) n).1 q)

-- Round robin moves on by one candidate with each pick, and from the last to the first, as long as its
-- counter is below 2 ^ 63 and there is a candidate.
pub round_robin_index_next :
    (next n : ℕ)
    → 0 < n
    → next + 1 < 2 ^ 63
    → (i : ℕ) × (round_robin_index next n ≡ some i)
      × (i < n)
      × (round_robin_index (next + 1) n ≡ some (if i + 1 == n then 0 else i + 1))
unfolding round_robin_index
round_robin_index_next next n h k =
    (next % n, ground arith, omega arith, ground (arith, mod-add-one next n h))
