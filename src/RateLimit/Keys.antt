-- ===== src/RateLimit/Keys.antt =====
-- RateLimit: no two buckets share a key.
use secure_edge_platform.Prelude.{ℕ, ◌≡◌, ap, ◌≢◌, [], ◌∷◌, ◌++◌, arith, All, refl, subst, drop}
use secure_edge_platform.Prelude.Text.{Str}
use secure_edge_platform.RateLimit.{global_key, client_key}

-- A route's bucket is never a client's.
pub global_key-ne-client_key : (r s c : Str) → global_key r ≢ client_key s c
unfolding global_key client_key
global_key-ne-client_key r s c h = ground (arith, h)

abbrev pub Lacks : ℕ → Str → Type 0
Lacks b = All (λ c. c ≢ b)

not-Lacks : (b : ℕ) (xs ys : Str) → ¬ Lacks b (xs ++ b ∷ ys)
not-Lacks b [] ys h = h.0 refl
not-Lacks b (x ∷ xs) ys h = not-Lacks b xs ys h.1

last_separator :
    (b : ℕ) (xs xs' ys ys' : Str)
    → xs ++ b ∷ ys ≡ xs' ++ b ∷ ys'
    → Lacks b ys
    → Lacks b ys'
    → (xs ≡ xs') × (ys ≡ ys')
last_separator b [] [] ys ys' e h k = (refl, cc)
last_separator b [] (x ∷ xs') ys ys' e h k = absurd (not-Lacks b xs' ys' (subst (Lacks b) (cc) h))
last_separator b (x ∷ xs) [] ys ys' e h k = absurd (not-Lacks b xs ys (subst (Lacks b) (cc) k))
last_separator b (x ∷ xs) (y ∷ xs') ys ys' e h k =
    let (p, q) = last_separator b xs xs' ys ys' (cc) h k in (cc p, q)

-- Two clients share a bucket only if they are one client of one route, where a client's name has no
-- "|", as no address has.
pub client_key-injective :
    (r s c d : Str)
    → Lacks b'|' c
    → Lacks b'|' d
    → client_key r c ≡ client_key s d
    → (r ≡ s) × (c ≡ d)
unfolding client_key
client_key-injective r s c d h k e = last_separator b'|' r s c d (ap (drop 7) e) h k
