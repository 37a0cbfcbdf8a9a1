-- ===== src/KeyLock/Counting.antt =====
-- KeyLock: counting the callers that pass a test.
use secure_edge_platform.Prelude.{
  ℕ, zero, suc, ◌+◌, ◌≡◌, ◌<◌, refl, Bool, true, false, some, List, [], ◌∷◌, ◌&&◌, ◌==◌, arith,
  if◌then◌else◌, get_elem?, All, Bool-cases, inl, inr,
}
use secure_edge_platform.KeyLock.{Caller, Phase, holding, set_at, remove_at}

abbrev pub bit : Bool → ℕ
bit b = if b then 1 else 0

abbrev pub count : (Caller → Bool) → List Caller → ℕ
count p [] = 0
count p (c ∷ cs) = bit (p c) + count p cs

abbrev pub is_holding : Phase → Bool
is_holding holding = true
is_holding _ = false

-- The caller counts in the references of the lock, and the caller has it locked.
abbrev pub uses : ℕ → Caller → Bool
uses a c = c.lock == a

abbrev pub holds : ℕ → Caller → Bool
holds a c = uses a c && is_holding c.phase

pub count-set_at :
    (p : Caller → Bool) (n : ℕ) (c d : Caller) (cs : List Caller)
    → get_elem? cs n ≡ some c
    → count p (set_at n d cs) + bit (p c) ≡ count p cs + bit (p d)
count-set_at p n c d [] h = absurd (ground (arith, h))
count-set_at p zero c d (e ∷ cs) h = ground (arith, h)
count-set_at p (suc n) c d (e ∷ cs) h = omega (arith, count-set_at p n c d cs h)

pub count-remove_at :
    (p : Caller → Bool) (n : ℕ) (c : Caller) (cs : List Caller)
    → get_elem? cs n ≡ some c
    → count p (remove_at n cs) + bit (p c) ≡ count p cs
count-remove_at p n c [] h = absurd (ground (arith, h))
count-remove_at p zero c (e ∷ cs) h = ground (arith, h)
count-remove_at p (suc n) c (e ∷ cs) h = omega (arith, count-remove_at p n c cs h)

-- A caller that passes is counted, and two are counted twice.
pub count-pos :
    (p : Caller → Bool) (n : ℕ) (c : Caller) (cs : List Caller)
    → get_elem? cs n ≡ some c
    → p c ≡ true
    → 0 < count p cs
count-pos p n c [] h t = absurd (ground (arith, h))
count-pos p zero c (e ∷ cs) h t = ground (arith, h, t)
count-pos p (suc n) c (e ∷ cs) h t = omega (arith, count-pos p n c cs h t)

pub count-one :
    (p : Caller → Bool) (n m : ℕ) (c d : Caller) (cs : List Caller)
    → get_elem? cs n ≡ some c
    → get_elem? cs m ≡ some d
    → p c ≡ true
    → p d ≡ true
    → count p cs < 2
    → n ≡ m
count-one p n m c d [] g h t u one = absurd (ground (arith, g))
count-one p zero zero c d (e ∷ cs) g h t u one = refl
count-one p zero (suc m) c d (e ∷ cs) g h t u one =
    absurd (ground (arith, g, t, count-pos p m d cs h u))
count-one p (suc n) zero c d (e ∷ cs) g h t u one =
    absurd (ground (arith, h, u, count-pos p n c cs g t))
count-one p (suc n) (suc m) c d (e ∷ cs) g h t u one =
    omega (arith, count-one p n m c d cs g h t u (omega arith))

-- A caller that passes, when the count is not zero.
pub count-find :
    (p : Caller → Bool) (cs : List Caller)
    → 0 < count p cs
    → (n : ℕ) × (c : Caller) × (get_elem? cs n ≡ some c) × (p c ≡ true)
count-find p [] h = absurd (omega arith)
count-find p (c ∷ cs) h = elim (Bool-cases (p c)) [
  | inl e ↦ (0, c, refl, e)
  | inr e ↦ let (n, d, g, t) = count-find p cs (ground (arith, h, e)) in (suc n, d, g, t)
]

pub count-zero-All :
    (p : Caller → Bool) (cs : List Caller) → count p cs ≡ 0 → All (λ c. p c ≡ false) cs
count-zero-All p [] h = tt
count-zero-All p (c ∷ cs) h = (ground (arith, h), count-zero-All p cs (ground (arith, h)))

pub All-count-zero :
    (p : Caller → Bool) (cs : List Caller) → All (λ c. p c ≡ false) cs → count p cs ≡ 0
All-count-zero p [] h = refl
All-count-zero p (c ∷ cs) h = ground (arith, h.0, All-count-zero p cs h.1)

module _ (P : Caller → Type 0) where
  pub All-get_elem :
      (n : ℕ) (c : Caller) (cs : List Caller) → All P cs → get_elem? cs n ≡ some c → P c
  All-get_elem n c [] a h = absurd (ground (arith, h))
  All-get_elem zero c (e ∷ cs) a h = ground (arith, h, a.0)
  All-get_elem (suc n) c (e ∷ cs) a h = All-get_elem n c cs a.1 h

  pub All-set_at : (n : ℕ) (c : Caller) (cs : List Caller) → All P cs → P c → All P (set_at n c cs)
  All-set_at n c [] a h = tt
  All-set_at zero c (e ∷ cs) a h = (h, a.1)
  All-set_at (suc n) c (e ∷ cs) a h = (a.0, All-set_at n c cs a.1 h)

  pub All-remove_at : (n : ℕ) (cs : List Caller) → All P cs → All P (remove_at n cs)
  All-remove_at n [] a = tt
  All-remove_at zero (e ∷ cs) a = a.1
  All-remove_at (suc n) (e ∷ cs) a = (a.0, All-remove_at n cs a.1)

pub All-map₂ :
    (P Q R : Caller → Type 0) (cs : List Caller)
    → ((c : Caller) → P c → Q c → R c)
    → All P cs
    → All Q cs
    → All R cs
All-map₂ P Q R [] f a b = tt
All-map₂ P Q R (c ∷ cs) f a b = (f c a.0 b.0, All-map₂ P Q R cs f a.1 b.1)
