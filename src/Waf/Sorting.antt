-- ===== src/Waf/Sorting.antt =====
-- Waf: the order in which matches are told.
use secure_edge_platform.Prelude.{
  suc, ◌+◌, ◌≡◌, refl, Bool, true, false, not, ◌&&◌, List, [], ◌∷◌, length, arith, if_elim, any,
}
use secure_edge_platform.Prelude.Text.{Str, str_lt}
use secure_edge_platform.Waf.{Match, match_less, insert_match, sort_matches}
use secure_edge_platform.Waf.Bounds.{sum}

-- No element is less than the one before it.
abbrev pub is_ordered_from : Match → List Match → Bool
is_ordered_from m [] = true
is_ordered_from m (n ∷ ms) = not (match_less n m)

abbrev pub is_ordered : List Match → Bool
is_ordered [] = true
is_ordered (m ∷ ms) = is_ordered_from m ms && is_ordered ms

str_lt_asym : (a b : Str) → str_lt a b ≡ true → str_lt b a ≡ false
unfolding str_lt
str_lt_asym [] [] h = refl
str_lt_asym (d ∷ a) [] h = absurd (ground (arith, h))
str_lt_asym [] (c ∷ b) h = refl
str_lt_asym (d ∷ a) (c ∷ b) h = ground (arith, h, str_lt_asym a b)

match_less_asym : (m n : Match) → match_less m n ≡ true → match_less n m ≡ false
match_less_asym m n h =
    ground (arith, h, str_lt_asym m.rule_id n.rule_id, str_lt_asym m.location n.location)

insert_match_from :
    (x m : Match) (ms : List Match)
    → is_ordered_from x ms ≡ true
    → match_less m x ≡ false
    → is_ordered_from x (insert_match m ms) ≡ true
unfolding insert_match
insert_match_from x m [] h k = ground (arith, k)
insert_match_from x m (n ∷ ms) h k =
    if_elim (λ l. is_ordered_from x l ≡ true) (match_less n m) _ _ (λ e. h) (λ e. ground (arith, k))

insert_match_ordered :
    (m : Match) (ms : List Match) → is_ordered ms ≡ true → is_ordered (insert_match m ms) ≡ true
unfolding insert_match
insert_match_ordered m [] h = refl
insert_match_ordered m (n ∷ ms) h =
    if_elim (λ l. is_ordered l ≡ true) (match_less n m) _ _
      (λ e. ground (
        arith,
        insert_match_from n m ms (ground (arith, h)) (match_less_asym n m e),
        insert_match_ordered m ms (ground (arith, h)),
      ))
      (λ e. ground (arith, e, h))

any-insert_match :
    (p : Match → Bool) (m : Match) (ms : List Match) → any p (insert_match m ms) ≡ any p (m ∷ ms)
unfolding insert_match
any-insert_match p m [] = refl
any-insert_match p m (n ∷ ms) =
    if_elim (λ l. any p l ≡ any p (m ∷ n ∷ ms)) (match_less n m) _ _
      (λ e. ground (arith, any-insert_match p m ms)) (λ e. refl)

sum-insert_match : (m : Match) (ms : List Match) → sum (insert_match m ms) ≡ m.score + sum ms
unfolding insert_match
sum-insert_match m [] = refl
sum-insert_match m (n ∷ ms) =
    if_elim (λ l. sum l ≡ m.score + sum (n ∷ ms)) (match_less n m) _ _
      (λ e. omega (arith, sum-insert_match m ms)) (λ e. refl)

length-insert_match : (m : Match) (ms : List Match) → length (insert_match m ms) ≡ suc (length ms)
unfolding insert_match
length-insert_match m [] = refl
length-insert_match m (n ∷ ms) =
    if_elim (λ l. length l ≡ suc (length (n ∷ ms))) (match_less n m) (n ∷ insert_match m ms)
      (m ∷ n ∷ ms) (λ e. omega (arith, length-insert_match m ms)) (λ e. refl)

-- Matches are told in the order of their rules' ids and, for one rule, of their locations: the same
-- matches as were found, as many, with the same scores.
pub sort_matches_lem :
    (ms : List Match)
    → (is_ordered (sort_matches ms) ≡ true)
      × ((p : Match → Bool) → any p (sort_matches ms) ≡ any p ms)
      × (length (sort_matches ms) ≡ length ms)
      × (sum (sort_matches ms) ≡ sum ms)
unfolding sort_matches
sort_matches_lem [] = (refl, λ p. refl, refl, refl)
sort_matches_lem (m ∷ ms) =
    let (o, same_any, l, s) = sort_matches_lem ms in
    (
      insert_match_ordered m (sort_matches ms) o,
      λ p. ground (arith, any-insert_match p m (sort_matches ms), same_any p),
      omega (arith, length-insert_match m (sort_matches ms), l),
      omega (arith, sum-insert_match m (sort_matches ms), s),
    )
