-- ===== src/Gateway/Tunnels/Closing.antt =====
-- Gateway.Tunnels: Close leaves no connection open and lets none in.
use secure_edge_platform.Prelude.{
  ℕ, ◌+◌, ◌≡◌, ◌<◌, ◌⊎◌, inl, refl, sym, ap, ◌∙◌, true, false, ◌||◌, Option, none, List, [], ◌∷◌,
  length, ◌==◌, if◌then◌else◌, arith, if_elim,
}
use secure_edge_platform.Gateway.Tunnels.{
  Tunnels, has, without, track_hijacked_conn, unregister_hijacked_conn, close_conn, close_each,
  close_all, Call, hijack, close, close_tunnel, step, run, new_tunnels,
}

abbrev IsDistinct : List ℕ → Type 0
IsDistinct [] = Unit
IsDistinct (c ∷ cs) = (has c cs ≡ false) × IsDistinct cs

-- No connection twice, the group counts them, none has been closed, and after Close there is none.
pub record IsValid (t : Tunnels) : Type 0 where
  distinct : IsDistinct t.tunnels
  pub counted : t.wait_group ≡ length t.tunnels
  pub open_ones : (c : ℕ) → has c t.fired ≡ true → has c t.tunnels ≡ false
  pub fresh : (c : ℕ) → (has c t.tunnels ≡ true) ⊎ (has c t.fired ≡ true) → c < t.next

has-without : (c d : ℕ) (l : List ℕ) → has c (without d l) ≡ (if d == c then false else has c l)
has-without c d [] = ground arith
has-without c d (e ∷ l) = ground (arith, has-without c d l)

without-IsDistinct : (c : ℕ) (l : List ℕ) → IsDistinct l → IsDistinct (without c l)
without-IsDistinct c [] v = tt
without-IsDistinct c (d ∷ l) v = ground (arith, has-without d c l, without-IsDistinct c l v.1)

without_absent : (c : ℕ) (l : List ℕ) → has c l ≡ false → without c l ≡ l
without_absent c [] h = refl
without_absent c (d ∷ l) h = ground (arith, without_absent c l)

length-without :
    (c : ℕ) (l : List ℕ) → IsDistinct l → has c l ≡ true → length (without c l) + 1 ≡ length l
length-without c [] v h = absurd (ground (arith, h))
length-without c (d ∷ l) v h = ground (arith, without_absent c l, length-without c l v.1)

close_conn-IsValid : (t : Tunnels) (c : ℕ) → c < t.next → IsValid t → IsValid (close_conn t c)
unfolding close_conn unregister_hijacked_conn
close_conn-IsValid t c known v =
    if_elim IsValid (has c t.fired) _ _ (λ e. v)
      (λ e.
        if_elim IsValid (has c t.tunnels) _ _
          (λ h. record {
            distinct = without-IsDistinct c t.tunnels v.distinct;
            counted = omega (arith, v.counted, length-without c t.tunnels v.distinct h);
            open_ones = λ d. ground (arith, v.open_ones d, has-without d c t.tunnels);
            fresh = λ d. ground (arith, v.fresh d, has-without d c t.tunnels, known);
          })
          (λ h. record {
            distinct = v.distinct;
            counted = v.counted;
            open_ones = λ d. ground (arith, v.open_ones d, h);
            fresh = λ d. ground (arith, v.fresh d, known);
          }))

-- A connection that has been closed is tracked no more, and no other is affected.
has-close_conn :
    (t : Tunnels) (c d : ℕ)
    → IsValid t
    → has d (close_conn t c).tunnels ≡ (if c == d then false else has d t.tunnels)
unfolding close_conn unregister_hijacked_conn
has-close_conn t c d v =
    if_elim (λ (x : Tunnels). has d x.tunnels ≡ (if c == d then false else has d t.tunnels))
      (has c t.fired) _ _ (λ e. ground (arith, v.open_ones c e, same_has c d t.tunnels))
      (λ e.
        if_elim (λ (x : Tunnels). has d x.tunnels ≡ (if c == d then false else has d t.tunnels))
          (has c t.tunnels) _ _ (λ h. has-without d c t.tunnels)
          (λ h. ground (arith, h, same_has c d t.tunnels)))
  where
    same_has : (c d : ℕ) (l : List ℕ) → (c == d) ≡ true → has c l ≡ has d l
    same_has c d l e = ap (λ x. has x l) (ground (arith, e))

next-close_conn : (t : Tunnels) (c : ℕ) → (close_conn t c).next ≡ t.next
unfolding close_conn unregister_hijacked_conn
next-close_conn t c =
    if_elim (λ (x : Tunnels). x.next ≡ t.next) (has c t.fired) _ _ (λ e. refl)
      (λ e.
        if_elim (λ (x : Tunnels). x.next ≡ t.next) (has c t.tunnels) _ _ (λ h. refl) (λ h. refl))

closed-close_conn : (t : Tunnels) (c : ℕ) → (close_conn t c).tunnels_closed ≡ t.tunnels_closed
unfolding close_conn unregister_hijacked_conn
closed-close_conn t c =
    if_elim (λ (x : Tunnels). x.tunnels_closed ≡ t.tunnels_closed) (has c t.fired) _ _ (λ e. refl)
      (λ e.
        if_elim (λ (x : Tunnels). x.tunnels_closed ≡ t.tunnels_closed) (has c t.tunnels) _ _
          (λ h. refl) (λ h. refl))

-- Closing connections in turn leaves of those tracked the ones that are not among them.
close_each-IsValid :
    (t : Tunnels) (cs : List ℕ)
    → IsValid t
    → ((c : ℕ) → has c cs ≡ true → c < t.next)
    → IsValid (close_each t cs)
      × ((d : ℕ)
          → has d (close_each t cs).tunnels ≡ true
          → (has d t.tunnels ≡ true) × (has d cs ≡ false))
      × ((close_each t cs).tunnels_closed ≡ t.tunnels_closed)
unfolding close_each
close_each-IsValid t [] v known = (v, λ d h. (h, ground arith), refl)
close_each-IsValid t (c ∷ cs) v known =
    let (w, left, closed) =
      close_each-IsValid (close_conn t c) cs (close_conn-IsValid t c (known c (ground arith)) v)
        (λ d h. ground (arith, next-close_conn t c, known d, h)) in
    (w, λ d h. ground (arith, left d h, has-close_conn t c d v), closed ∙ closed-close_conn t c)

none_of : (l : List ℕ) → ((d : ℕ) → has d l ≡ true → ⊥) → l ≡ []
none_of [] h = refl
none_of (c ∷ l) h = absurd (h c (ground arith))

-- Valid, and without connections once closed.
pub record IsSettled (t : Tunnels) : Type 0 where
  pub valid : IsValid t
  pub quiet : t.tunnels_closed ≡ true → t.tunnels ≡ []

close_all-IsSettled :
    (t : Tunnels) → IsSettled t → IsSettled (close_all t) × ((close_all t).tunnels_closed ≡ true)
unfolding close_all
close_all-IsSettled t s =
    if_elim (λ x. IsSettled x × (x.tunnels_closed ≡ true)) t.tunnels_closed _ _ (λ e. (s, e))
      (λ e.
        let (w, left, closed) =
          close_each-IsValid (record t { tunnels_closed = true }) t.tunnels
            (record {
              distinct = s.valid.distinct;
              counted = s.valid.counted;
              open_ones = s.valid.open_ones;
              fresh = s.valid.fresh;
            })
            (λ c h. s.valid.fresh c (inl h)) in
        (record { valid = w; quiet = λ c. none_of _ (λ d h. ground (arith, left d h)) }, closed))

step-IsSettled : (t : Tunnels) (c : Call) → IsSettled t → IsSettled (step t c)
unfolding step track_hijacked_conn
step-IsSettled t hijack s =
    if_elim (λ (r : Tunnels × Option ℕ). IsSettled r.0) t.tunnels_closed _ _ (λ e. s)
      (λ e. record {
        valid = record {
          distinct = (ground (arith, s.valid.fresh t.next), s.valid.distinct);
          counted = omega (arith, s.valid.counted);
          open_ones = λ c h. ground (arith, s.valid.open_ones c h, s.valid.fresh c);
          fresh = λ c. ground (arith, s.valid.fresh c);
        };
        quiet = λ c. absurd (ground (arith, c, e));
      })
step-IsSettled t (close_tunnel c) s =
    if_elim IsSettled (has c t.tunnels || has c t.fired) _ _
      (λ e. record {
        valid = close_conn-IsValid t c (s.valid.fresh c (ground (arith, e))) s.valid;
        quiet = λ o. none_of _ (λ d h. absurd (
            ground (
              arith,
              h,
              has-close_conn t c d s.valid,
              ap (has d) (s.quiet (sym (closed-close_conn t c) ∙ o)),
            )));
      })
      (λ e. s)
step-IsSettled t close s = (close_all-IsSettled t s).0

run-IsSettled : (t : Tunnels) (cs : List Call) → IsSettled t → IsSettled (run t cs)
unfolding run
run-IsSettled t [] s = s
run-IsSettled t (c ∷ cs) s = run-IsSettled (step t c) cs (step-IsSettled t c s)

-- After connections have been taken over and closed in any order, the wait group is at the number of
-- those that are open. Close then ends them all, so its wait returns, and no connection is taken over
-- any more.
pub close_all_settles :
    (cs : List Call)
    → ((run new_tunnels cs).wait_group ≡ length (run new_tunnels cs).tunnels)
      × ((close_all (run new_tunnels cs)).tunnels ≡ [])
      × ((close_all (run new_tunnels cs)).wait_group ≡ 0)
      × ((track_hijacked_conn (close_all (run new_tunnels cs))).1 ≡ none)
unfolding track_hijacked_conn new_tunnels
close_all_settles cs =
    let s = run-IsSettled new_tunnels cs (record {
      valid = record {
        distinct = tt;
        counted = refl;
        open_ones = λ c h. ground (arith, h);
        fresh = λ c h. ground (arith, h);
      };
      quiet = λ e. refl;
    }) in
    let (t, closed) = close_all-IsSettled (run new_tunnels cs) s in
    (s.valid.counted, t.quiet closed, t.valid.counted ∙ ap length (t.quiet closed), rw closed refl)
