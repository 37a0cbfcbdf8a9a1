-- ===== src/Cache/Eviction.antt =====
-- Cache: the eviction loop of Set keeps the longest prefix, newest first, that fits.
use mathlib.Core.Path.{subst₂}
use secure_edge_platform.Prelude.{
  ℕ, zero, suc, ◌+◌, ◌≤◌, ◌<◌, ◌≡◌, refl, ap, sym, subst, ◌∙◌, ◌⊎◌, inl, inr, Bool, true, false,
  ◌||◌, some, List, [], ◌∷◌, arith, length, take, Bool-cases, leb, ltb, take_of_length-le,
  length-take, dec_le, if◌then◌else◌,
}
use secure_edge_platform.Prelude.Text.{Str}
use secure_edge_platform.Cache.Elements.{
  Entry, entry_size, Element, find, remove_key, back, total, IsNodup, find-back,
}
use secure_edge_platform.Cache.{
  Cache, remove_element, remove_oldest, evict, over_limit, pushed, set,
}
use secure_edge_platform.Cache.Invariant.{
  IsConsistent, IsValid, remove_element-IsConsistent, remove_element-ll,
}
use secure_edge_platform.Cache.Operations.{pushed-IsConsistent}

back_total : (x : Element) (l : List Element) → (e : Element) × (back (x ∷ l) ≡ some e)
unfolding back
back_total x [] = (x, refl)
back_total x (y ∷ l) = back_total y l

-- To remove the last element's key is to keep all the others.
remove_key-back :
    (n : ℕ) (x : Element) (l : List Element) {e : Element}
    → IsNodup n (x ∷ l)
    → back (x ∷ l) ≡ some e
    → remove_key e.key (x ∷ l) ≡ take (length l) (x ∷ l)
unfolding back remove_key find
remove_key-back n x [] d h = ground arith
remove_key-back n x (y ∷ l) {e} d h =
    ground (arith, remove_key-back n y l {e = e}, find-back n (y ∷ l) {e = e} d.3 h)

take-take-suc : {A : Type 0} (m n : ℕ) (l : List A) → m ≤ n → take m (take n l) ≡ take m l
take-take-suc zero n l h = refl
take-take-suc (suc m) zero l h = absurd (omega arith)
take-take-suc (suc m) (suc n) [] h = refl
take-take-suc (suc m) (suc n) (x ∷ l) h = ap (◌∷◌ x) (take-take-suc m n l (omega arith))

pub record Limits (c d : Cache) : Type 0 where
  pub same_entries : d.max_entries ≡ c.max_entries
  pub same_bytes : d.max_bytes ≡ c.max_bytes
  pub same_address : d.next_id ≡ c.next_id

-- One round of the loop on a list that is not empty.
remove_oldest_lem :
    (c : Cache) (x : Element) (l : List Element)
    → c.ll ≡ x ∷ l
    → IsConsistent c
    → IsConsistent (remove_oldest c)
      × ((remove_oldest c).ll ≡ take (length l) c.ll)
      × Limits c (remove_oldest c)
unfolding remove_oldest
remove_oldest_lem c x l e v =
    let (old, last) = back_total x l in
    let last' : back c.ll ≡ some old = ap back e ∙ last in
    let found : find old.key c.ll ≡ some old = find-back c.next_id c.ll v.nodup last' in
    let nodup : IsNodup c.next_id (x ∷ l) = subst (IsNodup c.next_id) e v.nodup in
    rw (last', remove_oldest)
      (
        remove_element-IsConsistent c old.key true v found,
        remove_element-ll c old.key true v found
            ∙ ap (remove_key old.key) e
            ∙ remove_key-back c.next_id x l nodup last
            ∙ ap (take (length l)) (sym e),
        unfold remove_element in
            record { same_entries = refl; same_bytes = refl; same_address = refl },
      )

-- What the loop leaves: a prefix that fits, such that no longer prefix does.
pub record Evicted (c d : Cache) : Type 0 where
  pub kept : ℕ
  pub kept_le : kept ≤ length c.ll
  pub prefix : d.ll ≡ take kept c.ll
  pub valid : IsValid d
  pub maximal :
      (m : ℕ)
      → kept < m
      → m ≤ length c.ll
      → (c.max_entries < length (take m c.ll)) ⊎ (c.max_bytes < total (take m c.ll))
  pub limits : Limits c d

stop : (c : Cache) → IsConsistent c → over_limit c ≡ false → Evicted c c
stop c v h = record {
  kept = length c.ll;
  kept_le = omega arith;
  prefix = sym (take_of_length-le (length c.ll) c.ll (omega arith));
  valid = record { consistent = v; within_entries = ground arith; within_bytes = ground arith };
  maximal = λ m p q. absurd (omega arith);
  limits = record { same_entries = refl; same_bytes = refl; same_address = refl };
}

over :
    (c : Cache)
    → IsConsistent c
    → over_limit c ≡ true
    → (c.max_entries < length c.ll) ⊎ (c.max_bytes < total c.ll)
over c v h =
    subst (λ (b : ℕ). (c.max_entries < length c.ll) ⊎ (c.max_bytes < b)) v.sized (ground arith)

module _ (c d : Cache) (x : Element) (l : List Element) (e : c.ll ≡ x ∷ l) (v : IsConsistent c)
    (full : over_limit c ≡ true) where
  length-ll : length c.ll ≡ suc (length l)
  length-ll = ap length e

  -- What one round and the rest of the loop leave, seen from the start.
  Evicted-round : Evicted (remove_oldest c) d → Evicted c d
  Evicted-round r = record {
    kept = r.kept;
    kept_le = omega (arith, within, length-ll);
    prefix = r.prefix ∙ shorter r.kept within;
    valid = r.valid;
    maximal = λ m p q. elim (dec_le m (length l)) [
      | yes inside ↦ widen m inside (r.maximal m p (omega (arith, ll_length)))
      | no outside ↦
          subst (λ t. (c.max_entries < length t) ⊎ (c.max_bytes < total t))
            (sym (take_of_length-le m c.ll (omega (arith, length-ll)))) (over c v full)
    ];
    limits = record {
      same_entries = r.limits.same_entries ∙ (remove_oldest_lem c x l e v).2.same_entries;
      same_bytes = r.limits.same_bytes ∙ (remove_oldest_lem c x l e v).2.same_bytes;
      same_address = r.limits.same_address ∙ (remove_oldest_lem c x l e v).2.same_address;
    };
  }
    where
      ll : (remove_oldest c).ll ≡ take (length l) c.ll
      ll = (remove_oldest_lem c x l e v).1

      ll_length : length (remove_oldest c).ll ≡ length l
      ll_length = omega (arith, ap length ll, length-take (length l) c.ll, length-ll)

      within : r.kept ≤ length l
      within = omega (arith, r.kept_le, ll_length)

      shorter : (m : ℕ) → m ≤ length l → take m (remove_oldest c).ll ≡ take m c.ll
      shorter m h = ap (take m) ll ∙ take-take-suc m (length l) c.ll h

      widen :
          (m : ℕ)
          → m ≤ length l
          → ((remove_oldest c).max_entries < length (take m (remove_oldest c).ll))
            ⊎ ((remove_oldest c).max_bytes < total (take m (remove_oldest c).ll))
          → (c.max_entries < length (take m c.ll)) ⊎ (c.max_bytes < total (take m c.ll))
      widen m h w =
          let lim = (remove_oldest_lem c x l e v).2 in
          subst (λ t. (c.max_entries < length t) ⊎ (c.max_bytes < total t)) (shorter m h)
            (subst₂
              (λ a b.
                (a < length (take m (remove_oldest c).ll))
                ⊎ (b < total (take m (remove_oldest c).ll)))
              lim.same_entries lim.same_bytes w)

not-over_empty : (c : Cache) → IsConsistent c → c.ll ≡ [] → over_limit c ≡ false
unfolding total
not-over_empty c v e = ground (arith, ap length e, v.sized ∙ ap total e)

-- With a round for each element the loop ends by its own test.
evict-Evicted :
    (fuel : ℕ) (c : Cache) → IsConsistent c → length c.ll ≤ fuel → Evicted c (evict fuel c)
unfolding evict
evict-Evicted zero c v h = go c.ll refl
  where
    go : (l : List Element) → c.ll ≡ l → Evicted c c
    go [] e = stop c v (not-over_empty c v e)
    go (x ∷ l) e = absurd (omega (arith, ap length e))
evict-Evicted (suc fuel) c v h = round (Bool-cases (over_limit c)) c.ll refl (λ x l e.
    evict-Evicted fuel (remove_oldest c) (remove_oldest_lem c x l e v).0 (
      omega (
        arith,
        ap length (remove_oldest_lem c x l e v).1,
        length-take (length l) c.ll,
        ap length e,
      )))
  where
    round :
        (over_limit c ≡ true) ⊎ (over_limit c ≡ false)
        → (l : List Element) → c.ll ≡ l
        → ((x : Element) (r : List Element)
            → c.ll ≡ x ∷ r
            → Evicted (remove_oldest c) (evict fuel (remove_oldest c)))
        → Evicted c (if over_limit c then evict fuel (remove_oldest c) else c)
    round (inr within) l e rest = rw within (stop c v within)
    round (inl full) [] e rest = cc (not-over_empty c v e)
    round (inl full) (x ∷ l) e rest = rw full (Evicted-round c _ x l e v full (rest x l e))

-- Set on a valid cache refuses only an entry of no size or larger than the cache, and otherwise leaves
-- a valid cache whose list is the longest prefix that fits of the new entry before the old ones.
pub set-Evicted :
    (c : Cache) (key : Str) (entry : Entry)
    → IsValid c
    → ((set c key entry ≡ (c, false))
        × ((entry_size entry + length key ≡ 0) ⊎ (c.max_bytes < entry_size entry + length key)))
      ⊎ (((set c key entry).1 ≡ true)
          × (entry_size entry + length key ≤ c.max_bytes)
          × Evicted (pushed c key entry) (set c key entry).0)
unfolding set
set-Evicted c key entry v = elim (Bool-cases refused) [
  | inl e ↦ inl (rw e, ground arith)
  | inr e ↦ inr (
    rw e,
    ground arith,
    rw e (evict-Evicted _ (pushed c key entry) (pushed-IsConsistent c key entry v) (omega arith)),
  )
]
  where
    refused : Bool
    refused =
        leb (entry_size entry + length key) 0 || ltb c.max_bytes (entry_size entry + length key)
