-- ===== src/Upstreams/Eligibility.antt =====
-- Upstreams: which nodes are candidates of a pick.
use secure_edge_platform.Prelude.{
  ℕ, zero, suc, ◌+◌, ◌<◌, ◌≡◌, ◌↔◌, ◌⊎◌, inl, inr, Bool, true, false, not, ◌&&◌, ◌||◌, List, [],
  ◌∷◌, arith, length, Bool-cases,
}
use native.Mathlib.Nat.{add-zero}
use secure_edge_platform.Upstreams.Nodes.{
  Upstream, read, excluded, eligible, eligible_from, Among, IsEligible,
}

-- A node that the loop of eligible yields from place k on.
abbrev Found : List ℕ → Bool → ℕ → List Upstream → ℕ → Type 0
Found exclude h k us i =
    (n : ℕ) × (i ≡ k + n)
    × (n < length us)
    × (excluded exclude i ≡ false)
    × (h ≡ true → (read us n).healthy ≡ true)

Found-suc :
    (exclude : List ℕ) (h : Bool) (k : ℕ) (u : Upstream) (us : List Upstream) (i : ℕ)
    → Found exclude h (suc k) us i
    → Found exclude h k (u ∷ us) i
unfolding read
Found-suc exclude h k u us i (n, e, l, x, y) = (suc n, omega (arith, e), omega arith, x, y)

eligible_from_sound :
    (exclude : List ℕ) (h : Bool) (k : ℕ) (us : List Upstream) (i : ℕ)
    → Among i (eligible_from exclude h k us)
    → Found exclude h k us i
unfolding eligible_from read
eligible_from_sound exclude h k [] i m = absurd m
eligible_from_sound exclude h k (u ∷ us) i m =
    elim (Bool-cases (excluded exclude k || (h && not u.healthy))) [
      | inl skip ↦
          Found-suc exclude h k u us i (eligible_from_sound exclude h (suc k) us i (rw skip at m))
      | inr take ↦ elim (rw take at m) [
        | inl e ↦ (
          0,
          omega (arith, e),
          omega arith,
          ground (arith, take, e),
          λ on. ground (arith, take, on),
        )
        | inr later ↦
            Found-suc exclude h k u us i (eligible_from_sound exclude h (suc k) us i later)
      ]
    ]

eligible_from_complete :
    (exclude : List ℕ) (h : Bool) (k n : ℕ) (us : List Upstream)
    → n < length us
    → excluded exclude (k + n) ≡ false
    → (h ≡ true → (read us n).healthy ≡ true)
    → Among (k + n) (eligible_from exclude h k us)
unfolding eligible_from read
eligible_from_complete exclude h k n [] l x y = absurd (omega arith)
eligible_from_complete exclude h k zero (u ∷ us) l x y =
    let take : (excluded exclude k || (h && not u.healthy)) ≡ false =
      open_node (rw add-zero at x) (Bool-cases h) in
    rw take (inl (omega arith))
  where
    open_node :
        excluded exclude k ≡ false
        → (h ≡ true) ⊎ (h ≡ false)
        → (excluded exclude k || (h && not u.healthy)) ≡ false
    open_node x' (inl on) = ground (arith, y on)
    open_node x' (inr off) = ground arith
eligible_from_complete exclude h k (suc n) (u ∷ us) l x y =
    let shift : k + suc n ≡ suc k + n = omega arith in
    let later : Among (k + suc n) (eligible_from exclude h (suc k) us) =
      rw shift (eligible_from_complete exclude h (suc k) n us (omega arith) (rw shift at x) y) in
    elim (Bool-cases (excluded exclude k || (h && not u.healthy))) [
      | inl skip ↦ rw skip later
      | inr take ↦ rw take (inr later)
    ]

-- The loop of eligible yields exactly the eligible nodes.
pub eligible_iff :
    (exclude : List ℕ) (h : Bool) (us : List Upstream) (i : ℕ)
    → Among i (eligible exclude h us) ↔ IsEligible exclude h us i
unfolding eligible
eligible_iff exclude h us i = (to, from)
  where
    to : Among i (eligible_from exclude h 0 us) → IsEligible exclude h us i
    to m =
        let (n, e, l, x, y) = eligible_from_sound exclude h 0 us i m in
        let e' : n ≡ i = omega (arith, e) in (omega (arith, e), x, λ on. rw e' at (y on))

    from : IsEligible exclude h us i → Among i (eligible_from exclude h 0 us)
    from (l, x, y) =
        let z : 0 + i ≡ i = omega arith in
        rw z at (eligible_from_complete exclude h 0 i us l (rw z x) y)
