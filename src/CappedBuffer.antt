-- ===== src/CappedBuffer.antt =====
-- apps/edgeproxy/internal/proxy/capped_buffer.go: the body of a response, collected up to a limit.
-- A Write reports len(p) and no error on every branch, so a model of it is the new buffer.
mod Examples
use secure_edge_platform.Prelude.{
  ℕ, zero, suc, ◌+◌, ◌-◌, ◌≤◌, ◌<◌, ◌≡◌, refl, ap, sym, subst, ◌∙◌, Bool, true, false, List, [],
  ◌∷◌, ◌++◌, arith, length, take, leb, ltb, if◌then◌else◌, Bool-cases, inl, inr, length-append,
  length-take, append-nil, append_assoc, take_of_length-le, All,
}
use secure_edge_platform.Prelude.Text.{Str}

pub record CappedBuffer : Type 0 where
  pub buf : Str
  pub max : ℕ
  pub overflow : Bool

pub fresh : ℕ → CappedBuffer
fresh max = record { buf = []; max = max; overflow = false }

-- `remaining` is c.max - len(buf), which is not positive exactly if max ≤ len(buf).
pub write : CappedBuffer → Str → CappedBuffer
write c p =
    if c.overflow
    then c
    else if leb c.max (length c.buf)
    then record c { overflow = true }
    else if ltb (c.max - length c.buf) (length p)
    then record c { buf = c.buf ++ take (c.max - length c.buf) p; overflow = true }
    else record c { buf = c.buf ++ p }

pub write_all : CappedBuffer → List Str → CappedBuffer
write_all c [] = c
write_all c (p ∷ ps) = write_all (write c p) ps

-- All that was written, in order.
abbrev pub joined : List Str → Str
joined [] = []
joined (p ∷ ps) = p ++ joined ps

take-append_le :
    (n : ℕ) (xs ys : Str) → length xs ≤ n → take n (xs ++ ys) ≡ xs ++ take (n - length xs) ys
take-append_le n [] ys h = ap (λ m. take m ys) (omega arith)
take-append_le zero (x ∷ xs) ys h = absurd (omega arith)
take-append_le (suc n) (x ∷ xs) ys h =
    ap (◌∷◌ x) (take-append_le n xs ys (omega arith) ∙ ap (λ m. xs ++ take m ys) (omega arith))

take-append_full : (n : ℕ) (xs ys : Str) → length xs ≡ n → take n (xs ++ ys) ≡ xs
take-append_full zero [] ys h = refl
take-append_full zero (x ∷ xs) ys h = absurd (omega arith)
take-append_full (suc n) [] ys h = absurd (omega arith)
take-append_full (suc n) (x ∷ xs) ys h = ap (◌∷◌ x) (take-append_full n xs ys (omega arith))

-- What a buffer holds of the bytes written to it so far: all of them, or, once it has overflowed,
-- the first `max`.
pub record Holds (c : CappedBuffer) (written : Str) : Type 0 where
  pub prefix : c.buf ≡ take c.max written
  pub lossless : c.overflow ≡ false → c.buf ≡ written
  pub full : c.overflow ≡ true → c.max ≤ length written

fresh-Holds : (max : ℕ) → Holds (fresh max) []
unfolding fresh
fresh-Holds zero = record { prefix = refl; lossless = λ e. refl; full = λ e. cc }
fresh-Holds (suc max) = record { prefix = refl; lossless = λ e. refl; full = λ e. cc }

take-append_le_of_le : (n : ℕ) (xs ys : Str) → n ≤ length xs → take n (xs ++ ys) ≡ take n xs
take-append_le_of_le zero xs ys h = refl
take-append_le_of_le (suc n) [] ys h = absurd (omega arith)
take-append_le_of_le (suc n) (x ∷ xs) ys h = ap (◌∷◌ x) (take-append_le_of_le n xs ys (omega arith))

write-max : (c : CappedBuffer) (p : Str) → (write c p).max ≡ c.max
unfolding write
write-max c p = ground arith

module _ (c : CappedBuffer) (p written : Str) (h : Holds c written) where
  length-buf : c.overflow ≡ false → length c.buf ≡ length written
  length-buf e = ap length (h.lossless e)

  prefix-write : (write c p).buf ≡ take c.max (written ++ p)
  unfolding write
  prefix-write = elim (Bool-cases c.overflow) [
    | inl e ↦ rw e (h.prefix ∙ sym (take-append_le_of_le c.max written p (h.full e)))
    | inr e ↦ ground (
      arith,
      h.lossless e,
      h.prefix,
      take-append_le_of_le c.max written p,
      take-append_le c.max written p,
      take_of_length-le (c.max - length written) p,
    )
  ]

  write-Holds : Holds (write c p) (written ++ p)
  unfolding write
  write-Holds = record {
    prefix = prefix-write ∙ ap (λ m. take m (written ++ p)) (sym (write-max c p));
    lossless = λ e. ground (arith, h.lossless);
    full = λ e. ground (arith, h.lossless, h.full, length-append written p);
  }

write_all-from :
    (c : CappedBuffer) (written : Str) (ps : List Str)
    → Holds c written
    → Holds (write_all c ps) (written ++ joined ps)
unfolding write_all
write_all-from c written [] h = subst (Holds c) (sym (append-nil written)) h
write_all-from c written (p ∷ ps) h =
    subst (Holds (write_all (write c p) ps)) (append_assoc written p (joined ps))
      (write_all-from (write c p) (written ++ p) ps (write-Holds c p written h))

-- Whatever is written to a fresh buffer, it holds the first `max` bytes; it holds every byte as long
-- as it reports no overflow; and it reports overflow only once `max` bytes were written.
pub write_all-Holds : (max : ℕ) (ps : List Str) → Holds (write_all (fresh max) ps) (joined ps)
write_all-Holds max ps = write_all-from (fresh max) [] ps (fresh-Holds max)

overflow-from :
    (c : CappedBuffer) (written : Str) (ps : List Str)
    → Holds c written
    → c.overflow ≡ ltb c.max (length written)
    → All (λ p. 0 < length p) ps
    → (write_all c ps).overflow ≡ ltb c.max (length (written ++ joined ps))
unfolding write_all
overflow-from c written [] h e a = e ∙ ap (λ l. ltb c.max (length l)) (sym (append-nil written))
overflow-from c written (p ∷ ps) h e a =
    overflow-from (write c p) (written ++ p) ps (write-Holds c p written h) next a.1
    ∙ ap (λ m. ltb m (length ((written ++ p) ++ joined ps))) (write-max c p)
    ∙ ap (λ l. ltb c.max (length l)) (append_assoc written p (joined ps))
  where
    next : (write c p).overflow ≡ ltb (write c p).max (length (written ++ p))
    next = unfold write in ground (arith, h.lossless, length-append written p, a.0, e)

-- If no write is empty, overflow is reported exactly when more than `max` bytes were written.
pub overflow-write_all :
    (max : ℕ) (ps : List Str)
    → All (λ p. 0 < length p) ps
    → (write_all (fresh max) ps).overflow ≡ ltb max (length (joined ps))
unfolding fresh
overflow-write_all max ps a = overflow-from (fresh max) [] ps (fresh-Holds max) none_yet a
  where
    none_yet : false ≡ ltb max 0
    none_yet = ground arith
