-- ===== src/Search.antt =====
-- sort.Search of Go's library, the binary search that traffic/tracker.go calls: the least index below
-- n at which a test passes, or n. The fuel is the width of the interval, which each round narrows.
use secure_edge_platform.Prelude.{
  ℕ, zero, suc, ◌+◌, ◌/◌, ◌≤◌, ◌<◌, ◌≡◌, Bool, true, false, arith, ltb, if◌then◌else◌, inl, inr,
  Bool-cases, ◌⊎◌, dec_lt,
}

unfoldable pub search : ℕ → (ℕ → Bool) → ℕ → ℕ → ℕ
search zero f i j = i
search (suc fuel) f i j =
    let h = (i + j) / 2 in
    let rest = search fuel f (if f h then i else h + 1) (if f h then h else j) in
    if ltb i j then rest else i

-- The test fails up to an index and passes from there on.
abbrev pub IsMonotone : (ℕ → Bool) → ℕ → Type 0
IsMonotone f n = (a b : ℕ) → a ≤ b → b < n → f a ≡ true → f b ≡ true

pub record IsFirst (f : ℕ → Bool) (n r : ℕ) : Type 0 where
  pub within : r ≤ n
  pub fails : (x : ℕ) → x < r → f x ≡ false
  pub passes : (x : ℕ) → r ≤ x → x < n → f x ≡ true

module _ (f : ℕ → Bool) (n : ℕ) (mono : IsMonotone f n) where
  search-IsFirst_between :
      (fuel i j : ℕ)
      → j ≤ i + fuel
      → i ≤ j
      → j ≤ n
      → ((x : ℕ) → x < i → f x ≡ false)
      → ((x : ℕ) → j ≤ x → x < n → f x ≡ true)
      → IsFirst f n (search fuel f i j)
  unfolding search
  search-IsFirst_between zero i j e h k p q = record {
    within = omega arith;
    fails = p;
    passes = λ x a b. q x (omega arith) b;
  }
  search-IsFirst_between (suc fuel) i j e h k p q = elim (Bool-cases (ltb i j)) [
    | inr done ↦
        rw done (record { within = omega arith; fails = p; passes = λ x a b. q x (ground arith) b })
    | inl more ↦ rw more (elim (Bool-cases (f ((i + j) / 2))) [
      | inl pass ↦ rw pass (
          search-IsFirst_between fuel i ((i + j) / 2) (ground arith) (ground arith) (ground arith) p
            (λ x a b. mono ((i + j) / 2) x a b pass))
      | inr fail ↦ rw fail (
          search-IsFirst_between fuel ((i + j) / 2 + 1) j (ground arith) (ground arith) k
            (λ x a. below fail (Bool-cases (f x)) (ground arith)) q)
    ])
  ]
    where
      below :
          {x h' : ℕ}
          → f h' ≡ false
          → (f x ≡ true) ⊎ (f x ≡ false)
          → (x ≤ h') × (h' < n)
          → f x ≡ false
      below fail (inr e) b = e
      below {x} {h'} fail (inl e) b = cc (mono x h' b.0 b.1 e)

  -- The whole search.
  pub search-IsFirst : IsFirst f n (search n f 0 n)
  search-IsFirst =
      search-IsFirst_between n 0 n (omega arith) (omega arith) (omega arith)
        (λ x h. absurd (omega arith)) (λ x h k. absurd (omega arith))

-- Such an index is the only one.
pub IsFirst-unique : (f : ℕ → Bool) (n : ℕ) {r s : ℕ} → IsFirst f n r → IsFirst f n s → r ≡ s
IsFirst-unique f n {r} {s} p q = elim (dec_lt r s) [
  | yes h ↦ absurd (ground (arith, p.passes r, q.fails r, p.within, q.within))
  | no h ↦ elim (dec_lt s r) [
    | yes k ↦ absurd (ground (arith, q.passes s, p.fails s, p.within, q.within))
    | no k ↦ omega arith
  ]
]
