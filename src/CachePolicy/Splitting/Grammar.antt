-- ===== src/CachePolicy/Splitting/Grammar.antt =====
-- CachePolicy.Splitting: what splitHeaderList does, against the grammar of lists with quoted strings.
use mathlib.Core.Path.{subst₂}
use secure_edge_platform.Prelude.{
  ℕ, ◌≡◌, ◌≢◌, refl, subst, inl, inr, Bool, true, false, some, List, [], ◌∷◌, arith, All,
  Bool-cases, ◌==◌, ◌↔◌,
}
use secure_edge_platform.Prelude.Text.{Str}
use secure_edge_platform.CachePolicy.Lists.{
  comma, quote, backslash, scan_byte, split_from, split_header_list,
}
use secure_edge_platform.CachePolicy.Splitting.{
  joined, IsWhole, one_item, split_from-Splits, split_header_list-IsWhole, split_header_list-joined,
}

-- One item by the grammar of lists with quoted strings: outside a string no comma, and each string ends
-- at the next quote that has no backslash of its own before it.
mutual
  pub data IsItem : Str → Type 0 where
    ends : IsItem []
    plain : (c : ℕ) (s : Str) → c ≢ comma → c ≢ quote → IsItem s → IsItem (c ∷ s)
    opens : (s : Str) → IsQuoted s → IsItem (quote ∷ s)

  pub data IsQuoted : Str → Type 0 where
    closes : (s : Str) → IsItem s → IsQuoted (quote ∷ s)
    escapes : (c : ℕ) (s : Str) → IsQuoted s → IsQuoted (backslash ∷ c ∷ s)
    inside : (c : ℕ) (s : Str) → c ≢ quote → c ≢ backslash → IsQuoted s → IsQuoted (c ∷ s)

-- What the rest of an item must be, by the flags of the loop.
abbrev Rest : Bool → Bool → Str → Type 0
Rest false false s = IsItem s
Rest true false s = IsQuoted s
Rest q true [] = ⊥
Rest q true (c ∷ s) = Rest q false s

-- One byte further, by the cases of the loop, of which each has its flags.
flagged : {q e q' e' : Bool} (s : Str) → q ≡ q' → e ≡ e' → Rest q e s → Rest q' e' s
flagged s a b r = subst₂ (λ x y. Rest x y s) a b r

Rest-cons :
    (q e : Bool) (c : ℕ) (s : Str)
    → (scan_byte q e c).ends ≡ false
    → Rest (scan_byte q e c).quoted (scan_byte q e c).escaped s
    → Rest q e (c ∷ s)
unfolding scan_byte
Rest-cons false true c s f r = r
Rest-cons true true c s f r = r
Rest-cons false false c s f r = elim (Bool-cases (c == quote)) [
  | inl y ↦
      subst (λ x. IsItem (x ∷ s)) (ground (arith, y))
        (opens s (flagged {q' = true} {e' = false} s (ground (arith, y)) (ground (arith, y)) r))
  | inr n ↦
      plain c s (ground (arith, f, n)) (ground (arith, n))
        (flagged {q' = false} {e' = false} s (ground (arith, n)) (ground (arith, n)) r)
]
Rest-cons true false c s f r = elim (Bool-cases (c == backslash)) [
  | inl y ↦
      subst (λ x. IsQuoted (x ∷ s)) (ground (arith, y))
        (after_backslash s
          (flagged {q' = true} {e' = true} s (ground (arith, y)) (ground (arith, y)) r))
  | inr n ↦ elim (Bool-cases (c == quote)) [
    | inl y ↦
        subst (λ x. IsQuoted (x ∷ s)) (ground (arith, y))
          (closes s
            (flagged {q' = false} {e' = false} s (ground (arith, n, y)) (ground (arith, n, y)) r))
    | inr m ↦
        inside c s (ground (arith, m)) (ground (arith, n))
          (flagged {q' = true} {e' = false} s (ground (arith, n, m)) (ground (arith, n, m)) r)
  ]
]
  where
    after_backslash : (s : Str) → Rest true true s → IsQuoted (backslash ∷ s)
    after_backslash [] r = absurd r
    after_backslash (c ∷ s) r = escapes c s r

split_from-Rest : (q e : Bool) (s : Str) → split_from q e s ≡ some (s ∷ []) → Rest q e s
unfolding split_from
split_from-Rest false false [] h = ends
split_from-Rest true false [] h = absurd (ground (arith, h))
split_from-Rest false true [] h = absurd (ground (arith, h))
split_from-Rest true true [] h = absurd (ground (arith, h))
split_from-Rest q e (c ∷ s) h =
    let (f, g) =
      one_item (scan_byte q e c).ends c
        (split_from (scan_byte q e c).quoted (scan_byte q e c).escaped s)
        (λ n. split_from-Splits _ _ s [] n) s h in
    Rest-cons q e c s f (split_from-Rest (scan_byte q e c).quoted (scan_byte q e c).escaped s g)

All-IsItem : (items : List Str) → All IsWhole items → All IsItem items
unfolding split_header_list
All-IsItem [] a = tt
All-IsItem (s ∷ ss) a = (split_from-Rest false false s a.0, All-IsItem ss a.1)

in_one :
    (q e q' e' : Bool) (c : ℕ) (s : Str)
    → (scan_byte q e c).ends ≡ false
    → (scan_byte q e c).quoted ≡ q'
    → (scan_byte q e c).escaped ≡ e'
    → split_from q' e' s ≡ some (s ∷ [])
    → split_from q e (c ∷ s) ≡ some ((c ∷ s) ∷ [])
unfolding split_from
in_one q e q' e' c s f a b h = rw (f, a, b, h) refl

-- The loop keeps what the grammar takes for one item in one.
mutual
  unfolding split_from scan_byte

  item_whole : (s : Str) → IsItem s → split_from false false s ≡ some (s ∷ [])
  item_whole _ ends = refl
  item_whole _ (plain c s a b i) =
      in_one false false false false c s (ground (arith, a, b)) (ground (arith, a, b))
        (ground (arith, a, b)) (item_whole s i)
  item_whole _ (opens s i) = in_one false false true false quote s refl refl refl (quoted_whole s i)

  quoted_whole : (s : Str) → IsQuoted s → split_from true false s ≡ some (s ∷ [])
  quoted_whole _ (closes s i) =
      in_one true false false false quote s refl refl refl (item_whole s i)
  quoted_whole _ (escapes c s i) =
      in_one true false true true backslash (c ∷ s) refl refl refl
        (in_one true true true false c s refl refl refl (quoted_whole s i))
  quoted_whole _ (inside c s a b i) =
      in_one true false true false c s (ground (arith, a, b)) (ground (arith, a, b))
        (ground (arith, a, b)) (quoted_whole s i)

All-IsWhole : (items : List Str) → All IsItem items → All IsWhole items
unfolding split_header_list
All-IsWhole [] a = tt
All-IsWhole (s ∷ ss) a = (item_whole s a.0, All-IsWhole ss a.1)

-- A text is a valid list exactly where it is items joined by commas, and then splits into these: each
-- part is one item by the grammar, with no comma outside its quoted strings and each string ended by a
-- quote that no backslash escapes, and joined by commas the parts are the text again. Such parts in
-- turn, at least one, are what their text joined by commas splits into.
pub split_header_list_iff :
    (value : Str) (item : Str) (items : List Str)
    → (split_header_list value ≡ some (item ∷ items))
      ↔ (joined (item ∷ items) ≡ value) × All IsItem (item ∷ items)
split_header_list_iff value item items = (
  λ h.
      let (j, a) = split_header_list-IsWhole value (item ∷ items) h in
      (j, All-IsItem (item ∷ items) a),
  λ (j, a).
      subst (λ v. split_header_list v ≡ some (item ∷ items)) j
        (split_header_list-joined item items (All-IsWhole (item ∷ items) a)),
)
