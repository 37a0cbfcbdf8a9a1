-- ===== src/CachePolicy/Splitting.antt =====
-- CachePolicy: splitHeaderList cuts a list at its commas outside quoted strings, and nowhere else.
pub mod Grammar
use mathlib.Core.Path.{subst₂}
use secure_edge_platform.Prelude.{
  ℕ, ◌≡◌, ◌≢◌, refl, ap, subst, inl, inr, ◌∙◌, Bool, true, false, ◌||◌, Option, none, some, List,
  [], ◌∷◌, ◌++◌, arith, All, Bool-cases, ◌==◌, ◌↔◌,
}
use secure_edge_platform.Prelude.Text.{Str}
use secure_edge_platform.CachePolicy.Lists.{
  comma, quote, backslash, scan_byte, next_item, split_from, split_header_list,
}

-- The items with a comma between each two.
pub joined : List Str → Str
joined [] = []
joined (item ∷ []) = item
joined (item ∷ next ∷ items) = item ++ comma ∷ joined (next ∷ items)

-- A text that splits into itself.
abbrev IsWhole : Str → Type 0
IsWhole s = split_header_list s ≡ some (s ∷ [])

scan_comma :
    (q e : Bool) (c : ℕ)
    → (scan_byte q e c).ends ≡ true
    → (c ≡ comma)
      × (q ≡ false)
      × (e ≡ false)
      × ((scan_byte q e c).quoted ≡ false)
      × ((scan_byte q e c).escaped ≡ false)
unfolding scan_byte
scan_comma q e c h = ground arith

some_eq : {A : Type 0} {a b : A} → some a ≡ some b → a ≡ b
some_eq h = cc h

-- What the loop gives is one item at least; joined, the items are the text; the first ends the item
-- under way, and the others are items.
abbrev Splits : Bool → Bool → Str → List Str → Type 0
Splits q e s [] = ⊥
Splits q e s (first ∷ rest) =
    (joined (first ∷ rest) ≡ s) × (split_from q e first ≡ some (first ∷ [])) × All IsWhole rest

joined_cons :
    (c : ℕ) (first : Str) (rest : List Str)
    → joined ((c ∷ first) ∷ rest) ≡ c ∷ joined (first ∷ rest)
unfolding joined
joined_cons c first [] = refl
joined_cons c first (r ∷ rest) = refl

Splits-cons :
    (q e : Bool) (c : ℕ) (s : Str) (ends : Bool)
    → (scan_byte q e c).ends ≡ ends
    → (first : Str) (rest : List Str)
    → Splits (scan_byte q e c).quoted (scan_byte q e c).escaped s (first ∷ rest)
    → (items : List Str) → next_item ends c (some (first ∷ rest)) ≡ some items
    → Splits q e (c ∷ s) items
unfolding split_from joined split_header_list
Splits-cons q e c s true f first rest (j, t, a) items g =
    let (is_comma, q', e', quoted', escaped') = scan_comma q e c f in
    subst (Splits q e (c ∷ s)) (some_eq g) (
      rw (is_comma) (ap (λ y. comma ∷ y) j),
      rw (q', e') refl,
      (
        subst (λ y. split_from false y first ≡ some (first ∷ [])) escaped'
            (subst (λ x. split_from x (scan_byte q e c).escaped first ≡ some (first ∷ [])) quoted'
              t),
        a,
      ),
    )
Splits-cons q e c s false f first rest (j, t, a) items g =
    subst (Splits q e (c ∷ s)) (some_eq g)
      (joined_cons c first rest ∙ ap (λ x. c ∷ x) j, rw (f, t) refl, a)

split_from-Splits :
    (q e : Bool) (s : Str) (items : List Str) → split_from q e s ≡ some items → Splits q e s items
unfolding split_from
split_from-Splits q e [] items h = elim (Bool-cases (q || e)) [
  | inl t ↦ absurd (ground (arith, h, t))
  | inr t ↦ subst (Splits q e []) (some_eq (rw t at h)) (unfold joined in refl, rw t refl, tt)
]
split_from-Splits q e (c ∷ s) items h =
    go (split_from (scan_byte q e c).quoted (scan_byte q e c).escaped s)
      (split_from-Splits (scan_byte q e c).quoted (scan_byte q e c).escaped s) h
  where
    go :
        (o : Option (List Str))
        → ((its : List Str)
            → o ≡ some its
            → Splits (scan_byte q e c).quoted (scan_byte q e c).escaped s its)
        → next_item (scan_byte q e c).ends c o ≡ some items
        → Splits q e (c ∷ s) items
    go none ih g = absurd (ground (arith, g))
    go (some []) ih g = absurd (ih [] refl)
    go (some (first ∷ rest)) ih g =
        Splits-cons q e c s _ refl first rest (ih (first ∷ rest) refl) items g

one_item :
    (ends : Bool) (c : ℕ) (o : Option (List Str))
    → (o ≢ some [])
    → (first : Str) → next_item ends c o ≡ some ((c ∷ first) ∷ [])
    → (ends ≡ false) × (o ≡ some (first ∷ []))
one_item ends c none n first h = absurd (ground (arith, h))
one_item true c (some its) n first h = absurd (ground (arith, h))
one_item false c (some []) n first h = absurd (n refl)
one_item false c (some (f ∷ its)) n first h = ground (arith, h)

-- Conversely a text that ends an item, then a comma and valid items, splits into them.
split_from-append :
    (q e : Bool) (first : Str) (s : Str) (items : List Str)
    → split_from q e first ≡ some (first ∷ [])
    → split_header_list s ≡ some items
    → split_from q e (first ++ comma ∷ s) ≡ some (first ∷ items)
unfolding split_from split_header_list
split_from-append q e [] s items h k = elim (Bool-cases (q || e)) [
  | inl t ↦ absurd (ground (arith, h, t))
  | inr t ↦ unfold scan_byte in ground (arith, t, k)
]
split_from-append q e (c ∷ first) s items h k =
    let (f, g) =
      one_item (scan_byte q e c).ends c
        (split_from (scan_byte q e c).quoted (scan_byte q e c).escaped first)
        (λ n. split_from-Splits _ _ first [] n) first h in
    rw (f, split_from-append (scan_byte q e c).quoted (scan_byte q e c).escaped first s items g k)
      refl

-- Joined by commas the parts are the list again, and each part splits into itself.
split_header_list-IsWhole :
    (value : Str) (items : List Str)
    → split_header_list value ≡ some items
    → (joined items ≡ value) × All IsWhole items
unfolding split_header_list
split_header_list-IsWhole value items h = go items (split_from-Splits false false value items h)
  where
    go : (its : List Str) → Splits false false value its → (joined its ≡ value) × All IsWhole its
    go [] t = absurd t
    go (first ∷ rest) (j, t, a) = (j, (t, a))

item_append :
    (item s : Str) (items : List Str)
    → IsWhole item
    → split_header_list s ≡ some items
    → split_header_list (item ++ comma ∷ s) ≡ some (item ∷ items)
unfolding split_header_list
item_append item s items a k = split_from-append false false item s items a k

-- Conversely, any items joined by commas split into themselves.
split_header_list-joined :
    (item : Str) (items : List Str)
    → All IsWhole (item ∷ items)
    → split_header_list (joined (item ∷ items)) ≡ some (item ∷ items)
unfolding joined
split_header_list-joined item [] (a, _) = a
split_header_list-joined item (next ∷ items) (a, b) =
    item_append item (joined (next ∷ items)) (next ∷ items) a
      (split_header_list-joined next items b)
