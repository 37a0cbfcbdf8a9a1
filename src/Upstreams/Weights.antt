-- ===== src/Upstreams/Weights.antt =====
-- Upstreams: smooth weighted selection moves weight between nodes and neither makes nor loses any.
use secure_edge_platform.Prelude.{
  ℕ, zero, suc, ◌+◌, ◌<◌, ◌≡◌, refl, ap, sym, subst, ◌∙◌, inl, inr, none, some, List, [], ◌∷◌,
  arith, length, All, ◌==◌, Bool-cases, Option-cases,
}
use secure_edge_platform.Prelude.Int.{ℤ, pos, ◌+ℤ◌, ◌-ℤ◌, int_laws}
use secure_edge_platform.Upstreams.Nodes.{Upstream, read, update, Among, length-update}
use secure_edge_platform.Upstreams.Choice.{ChosenFrom, pick_smooth_weighted-Chosen}
use secure_edge_platform.Upstreams.{
  Algorithm, Pool, Arithmetic, Round, gain, better, smooth_loop, settle, pick_smooth_weighted,
  pick_group, pick_priority, group_of, minimum_from, schedule, schedule_by, pick_random_weighted,
  pick_round_robin, weighted_round_robin, least_connections, priority_failover, adaptive_latency,
  random_weighted, round_robin, total_weight,
}

-- The sum of the current weights of all nodes.
unfoldable pub balance : List Upstream → ℤ
balance [] = pos 0
balance (u ∷ us) = u.current_weight +ℤ balance us

balance-update :
    (us : List Upstream) (i : ℕ) (f : Upstream → Upstream)
    → i < length us
    → balance (update us i f) +ℤ (read us i).current_weight
      ≡ balance us +ℤ (f (read us i)).current_weight
unfolding balance update read
balance-update [] i f h = absurd (omega arith)
balance-update (u ∷ us) zero f h = omega int_laws
balance-update (u ∷ us) (suc i) f h =
    let ih = balance-update us i f (omega arith) in
    regroup u.current_weight (balance (update us i f)) (read us i).current_weight (balance us)
      (f (read us i)).current_weight ih
  where
    regroup : (a b c d e : ℤ) → b +ℤ c ≡ d +ℤ e → (a +ℤ b) +ℤ c ≡ (a +ℤ d) +ℤ e
    regroup a b c d e h = assoc a b c ∙ ap (◌+ℤ◌ a) h ∙ sym (assoc a d e)
      where
        assoc : (x y z : ℤ) → (x +ℤ y) +ℤ z ≡ x +ℤ (y +ℤ z)
        assoc x y z = omega int_laws

cancel : (a b c d : ℤ) → a +ℤ b ≡ c +ℤ (b +ℤ d) → a ≡ c +ℤ d
cancel a b c d h = sym (undo a b) ∙ ap (λ t. t -ℤ b) h ∙ redo b c d
  where
    undo : (x y : ℤ) → (x +ℤ y) -ℤ y ≡ x
    undo x y = omega int_laws

    redo : (x y z : ℤ) → (y +ℤ (x +ℤ z)) -ℤ x ≡ y +ℤ z
    redo x y z = omega int_laws

balance-gain :
    (us : List Upstream) (i w : ℕ) → i < length us → balance (gain us i w) ≡ balance us +ℤ pos w
unfolding gain
balance-gain us i w h =
    cancel (balance (update us i f)) (read us i).current_weight (balance us) (pos w)
      (balance-update us i f h)
  where
    f : Upstream → Upstream
    f u = record u { current_weight = u.current_weight +ℤ pos w }

length-gain : (us : List Upstream) (i w : ℕ) → length (gain us i w) ≡ length us
unfolding gain
length-gain us i w = length-update us i _

balance-smooth_loop :
    (weight : Upstream → ℕ) (is : List ℕ) (r : Round)
    → All (λ i. i < length r.nodes) is
    → (balance (smooth_loop weight is r).nodes -ℤ pos (smooth_loop weight is r).total
        ≡ balance r.nodes -ℤ pos r.total)
      × (length (smooth_loop weight is r).nodes ≡ length r.nodes)
unfolding smooth_loop
balance-smooth_loop weight [] r a = (refl, refl)
balance-smooth_loop weight (i ∷ is) r a =
    let w = weight (read r.nodes i) in
    let (p, q) =
      balance-smooth_loop weight is
        (record {
          nodes = gain r.nodes i w;
          total = r.total + w;
          selected = some (better (gain r.nodes i w) i r.selected);
        })
        (All-length (length-gain r.nodes i w) is a.1) in
    (
      p
          ∙ ap (λ t. t -ℤ pos (r.total + w)) (balance-gain r.nodes i w a.0)
          ∙ even (balance r.nodes) w r.total,
      q ∙ length-gain r.nodes i w,
    )
  where
    even : (b : ℤ) (w t : ℕ) → (b +ℤ pos w) -ℤ pos (t + w) ≡ b -ℤ pos t
    even b w t = omega int_laws

    All-length : {m n : ℕ} → m ≡ n → (l : List ℕ) → All (λ i. i < n) l → All (λ i. i < m) l
    All-length e [] b = tt
    All-length e (j ∷ l) b = (omega arith, All-length e l b.1)

balance-settle :
    (r : Round) (s : ℕ)
    → r.selected ≡ some s
    → s < length r.nodes
    → balance (settle r).0 ≡ balance r.nodes -ℤ pos r.total
unfolding settle
balance-settle r s e h =
    rw (e, settle)
      (cancel_sub (balance (update r.nodes s f)) (read r.nodes s).current_weight (balance r.nodes)
        (pos r.total) (balance-update r.nodes s f h))
  where
    f : Upstream → Upstream
    f u = record u { current_weight = u.current_weight -ℤ pos r.total }

    cancel_sub : (a b c d : ℤ) → a +ℤ b ≡ c +ℤ (b -ℤ d) → a ≡ c -ℤ d
    cancel_sub a b c d h = sym (undo a b) ∙ ap (λ t. t -ℤ b) h ∙ redo b c d
      where
        undo : (x y : ℤ) → (x +ℤ y) -ℤ y ≡ x
        undo x y = omega int_laws

        redo : (x y z : ℤ) → (y +ℤ (x -ℤ z)) -ℤ x ≡ y -ℤ z
        redo x y z = omega int_laws

valid-Among : (n : ℕ) (l : List ℕ) (s : ℕ) → All (λ i. i < n) l → Among s l → s < n
valid-Among n [] s a m = absurd m
valid-Among n (i ∷ l) s a (inl e) = omega (arith, a.0, e)
valid-Among n (i ∷ l) s a (inr m) = valid-Among n l s a.1 m

-- A round of smooth weighted selection, by configured or by adaptive weights, over any candidates
-- that are nodes of the pool, leaves the sum of all current weights as it was: what the candidates
-- gain the chosen one pays.
balance-pick_smooth_weighted :
    (weight : Upstream → ℕ) (nodes : List Upstream) (i : ℕ) (is : List ℕ)
    → All (λ j. j < length nodes) (i ∷ is)
    → balance (pick_smooth_weighted weight nodes (i ∷ is)).0 ≡ balance nodes
balance-pick_smooth_weighted weight nodes i is a =
    elim (Option-cases (smooth_loop weight (i ∷ is) start).selected) [
      | inl e ↦ absurd (subst (ChosenFrom (i ∷ is)) (unchosen e) chosen)
      | inr (s, e) ↦
          let (p, q) = balance-smooth_loop weight (i ∷ is) start a in
          let m : Among s (i ∷ is) = subst (ChosenFrom (i ∷ is)) (settled s e) chosen in
          let v : s < length (smooth_loop weight (i ∷ is) start).nodes =
            omega (arith, q, valid-Among (length nodes) (i ∷ is) s a m) in
          let paid : balance (pick_smooth_weighted weight nodes (i ∷ is)).0
              ≡ balance (smooth_loop weight (i ∷ is) start).nodes
                -ℤ pos (smooth_loop weight (i ∷ is) start).total =
            unfold pick_smooth_weighted in
            balance-settle (smooth_loop weight (i ∷ is) start) s e v in
          paid ∙ p ∙ nothing_yet (balance nodes)
    ]
  where
    start : Round
    start = record { nodes = nodes; total = 0; selected = none }

    chosen : ChosenFrom (i ∷ is) (pick_smooth_weighted weight nodes (i ∷ is)).1
    chosen = pick_smooth_weighted-Chosen weight nodes i is (i ∷ is) (λ j m. m)

    unchosen :
        (smooth_loop weight (i ∷ is) start).selected ≡ none
        → (pick_smooth_weighted weight nodes (i ∷ is)).1 ≡ none
    unchosen e = unfold pick_smooth_weighted settle in rw (e, settle) refl

    settled :
        (s : ℕ)
        → (smooth_loop weight (i ∷ is) start).selected ≡ some s
        → (pick_smooth_weighted weight nodes (i ∷ is)).1 ≡ some s
    settled s e = unfold pick_smooth_weighted settle in rw (e, settle) refl

    nothing_yet : (b : ℤ) → b -ℤ pos 0 ≡ b
    nothing_yet b = omega int_laws

All-group_of :
    (P : ℕ → Type 0) (nodes : List Upstream) (m : ℕ) (l : List ℕ)
    → All P l
    → All P (group_of nodes m l)
unfolding group_of
All-group_of P nodes m [] a = tt
All-group_of P nodes m (i ∷ l) a = ground (arith, All-group_of P nodes m l a.1)

balance-pick_group :
    (nodes : List Upstream) (l : List ℕ)
    → All (λ j. j < length nodes) l
    → balance (pick_group nodes l).0 ≡ balance nodes
unfolding pick_group
balance-pick_group nodes [] a = unfold pick_smooth_weighted smooth_loop settle in refl
balance-pick_group nodes (i ∷ []) a = refl
balance-pick_group nodes (i ∷ j ∷ l) a =
    balance-pick_smooth_weighted (λ u. u.weight) nodes i (j ∷ l) a

-- No scheduler changes the sum of the current weights.
pub balance-schedule :
    (a : Arithmetic) (p : Pool) (i : ℕ) (is : List ℕ)
    → All (λ j. j < length p.nodes) (i ∷ is)
    → balance (schedule a p i is).0.nodes ≡ balance p.nodes
unfolding schedule
balance-schedule a p i is v = go p.algorithm
  where
    go : (g : Algorithm) → balance (schedule_by a g p i is).0.nodes ≡ balance p.nodes
    go weighted_round_robin =
        unfold schedule_by in balance-pick_smooth_weighted (λ u. u.weight) p.nodes i is v
    go least_connections = unfold schedule_by in refl
    go priority_failover =
        unfold schedule_by pick_priority in
        balance-pick_group p.nodes _ (
          All-group_of (λ j. j < length p.nodes) p.nodes
            (minimum_from p.nodes (read p.nodes i).priority is) (i ∷ is) v)
    go adaptive_latency =
        unfold schedule_by in balance-pick_smooth_weighted a.adaptive_weight p.nodes i is v
    go random_weighted =
        unfold schedule_by pick_random_weighted in
        elim (Bool-cases (total_weight p.nodes (i ∷ is) == 0)) [ inl e ↦ rw e | inr e ↦ rw e ]
    go round_robin = unfold schedule_by pick_round_robin in refl
