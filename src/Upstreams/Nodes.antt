-- ===== src/Upstreams/Nodes.antt =====
-- apps/edgeproxy/internal/proxy/upstream.go: the nodes of a pool, by their places.
use secure_edge_platform.Prelude.{
  ℕ, zero, suc, ◌<◌, ◌≡◌, refl, ap, ◌≢◌, Bool, true, false, not, ◌&&◌, ◌||◌, List, [], ◌∷◌, arith,
  length, ◌==◌, if◌then◌else◌, ◌⊎◌,
}
use secure_edge_platform.Prelude.Text.{Str}
use secure_edge_platform.Prelude.Int.{ℤ, pos}

pub record Upstream : Type 0 where
  pub name : Str
  pub weight : ℕ
  pub priority : ℕ
  pub healthy : Bool
  pub active : ℕ
  pub selections : ℕ
  pub health_failures : ℕ
  pub health_recoveries : ℕ
  pub current_weight : ℤ

abbrev pub no_upstream : Upstream
no_upstream = record {
  name = [];
  weight = 0;
  priority = 0;
  healthy = false;
  active = 0;
  selections = 0;
  health_failures = 0;
  health_recoveries = 0;
  current_weight = pos 0;
}

-- The node at a place, and the nodes with the one at a place changed.
unfoldable pub read : List Upstream → ℕ → Upstream
read [] i = no_upstream
read (u ∷ us) zero = u
read (u ∷ us) (suc i) = read us i

unfoldable pub update : List Upstream → ℕ → (Upstream → Upstream) → List Upstream
update [] i f = []
update (u ∷ us) zero f = f u ∷ us
update (u ∷ us) (suc i) f = u ∷ update us i f

-- exclude[node], for the places of the excluded nodes
unfoldable pub excluded : List ℕ → ℕ → Bool
excluded [] i = false
excluded (e ∷ es) i = e == i || excluded es i

-- The loop of eligible, from a place on.
unfoldable pub eligible_from : List ℕ → Bool → ℕ → List Upstream → List ℕ
unfolding excluded
eligible_from exclude healthy_only i [] = []
eligible_from exclude healthy_only i (u ∷ us) =
    let rest = eligible_from exclude healthy_only (suc i) us in
    if excluded exclude i || (healthy_only && not u.healthy) then rest else i ∷ rest

unfoldable pub eligible : List ℕ → Bool → List Upstream → List ℕ
unfolding eligible_from
eligible exclude healthy_only nodes = eligible_from exclude healthy_only 0 nodes

pub read-update :
    (us : List Upstream) (i : ℕ) (f : Upstream → Upstream)
    → i < length us
    → read (update us i f) i ≡ f (read us i)
unfolding read update
read-update [] i f h = absurd (omega arith)
read-update (u ∷ us) zero f h = refl
read-update (u ∷ us) (suc i) f h = read-update us i f (omega arith)

pub read-update_ne :
    (us : List Upstream) (i j : ℕ) (f : Upstream → Upstream)
    → i ≢ j
    → read (update us i f) j ≡ read us j
unfolding read update
read-update_ne [] i j f h = refl
read-update_ne (u ∷ us) zero zero f h = absurd (h refl)
read-update_ne (u ∷ us) zero (suc j) f h = refl
read-update_ne (u ∷ us) (suc i) zero f h = refl
read-update_ne (u ∷ us) (suc i) (suc j) f h = read-update_ne us i j f (λ e. h (ap suc e))

pub length-update :
    (us : List Upstream) (i : ℕ) (f : Upstream → Upstream) → length (update us i f) ≡ length us
unfolding update
length-update [] i f = refl
length-update (u ∷ us) zero f = refl
length-update (u ∷ us) (suc i) f = ap suc (length-update us i f)

-- The place of a list element, as a predicate.
abbrev pub Among : ℕ → List ℕ → Type 0
Among i [] = ⊥
Among i (j ∷ js) = (i ≡ j) ⊎ Among i js

-- What makes a node eligible.
abbrev pub IsEligible : List ℕ → Bool → List Upstream → ℕ → Type 0
IsEligible exclude healthy_only us i =
    (i < length us)
    × (excluded exclude i ≡ false)
    × (healthy_only ≡ true → (read us i).healthy ≡ true)
