-- ===== src/Waf/Bounds.antt =====
-- Waf: sums of scores, and the numbers of samples and matches.
use secure_edge_platform.Prelude.{
  ℕ, zero, suc, ◌+◌, ◌≡◌, ◌≤◌, ◌⊎◌, inl, inr, ap, ◌∙◌, Option, none, some, List, [], ◌∷◌, length,
  length-append, arith, Bool-cases, Option-cases, min, All,
}
use secure_edge_platform.Prelude.Text.{Str, same}
use secure_edge_platform.Waf.Samples.{
  Codec, Sample, append_structured_sample, decode_rounds, multi_decode,
}
use secure_edge_platform.Waf.Json.{body_samples}
use secure_edge_platform.Waf.{Match, max_int, saturating_add_score}
use secure_edge_platform.Waf.Scanning.{total}
use secure_edge_platform.Waf.Growth.{structured-keeps}

abbrev pub sum : List Match → ℕ
sum [] = 0
sum (m ∷ ms) = m.score + sum ms

saturating_add_score_lem :
    (score n : ℕ)
    → score ≤ max_int
    → n ≤ max_int
    → saturating_add_score score n ≡ min max_int (score + n)
unfolding saturating_add_score
saturating_add_score_lem score n h k = ground arith

-- The score of a request is the sum of the scores of its matches, or the largest int where the sum
-- would be more: it never overflows.
pub total_lem :
    (score : ℕ) (ms : List Match)
    → score ≤ max_int
    → All (λ m. m.score ≤ max_int) ms
    → total score ms ≡ min max_int (score + sum ms)
unfolding total
total_lem score [] h a = omega (arith, h)
total_lem score (m ∷ ms) h a =
    total_lem (saturating_add_score score m.score) ms
      (omega (arith, h, saturating_add_score_lem score m.score h a.0)) a.1
    ∙ omega (arith, h, saturating_add_score_lem score m.score h a.0)

abbrev Fits : List Sample → Type 0
Fits out = length out ≤ 512

append-Fits : (out : List Sample) (s : Sample) → Fits out → Fits (append_structured_sample out s).0
unfolding append_structured_sample
append-Fits out s h = ground (arith, h, length-append out (s ∷ []))

module _ (codec : Codec) where
  -- However a body is nested or filled, it gives 512 samples at most.
  pub body_samples-le :
      (body content_type : Str) → length (body_samples codec body content_type) ≤ 512
  unfolding body_samples
  body_samples-le body content_type =
      structured-keeps codec Fits append-Fits _ body _ _ (omega arith)

-- A text that decoding leaves alone, or refuses.
abbrev pub IsFixed : (Str → Option Str) → Str → Type 0
IsFixed decode s = (decode s ≡ none) ⊎ (decode s ≡ some s)

-- A text that comes from another by a number of decodings that each succeed.
pub data Decodes (decode : Str → Option Str) (s : Str) : ℕ → Str → Type 0 where
  itself : Decodes decode s 0 s
  once_more :
      {n : ℕ} {r q : Str} → Decodes decode s n r → decode r ≡ some q → Decodes decode s (suc n) q

decode_rounds_lem :
    (decode : Str → Option Str) (s : Str) (fuel n : ℕ) (r : Str)
    → Decodes decode s n r
    → (m : ℕ) × Decodes decode s m (decode_rounds fuel decode r)
      × (m ≤ n + fuel)
      × (IsFixed decode (decode_rounds fuel decode r) ⊎ (m ≡ n + fuel))
unfolding decode_rounds
decode_rounds_lem decode s zero n r d = (n, d, omega arith, inr (omega arith))
decode_rounds_lem decode s (suc fuel) n r d = elim (Option-cases (decode r)) [
  | inl e ↦ rw (e, decode_rounds) (n, d, omega arith, inl (inl e))
  | inr (q, e) ↦
      rw (e, decode_rounds)
        (elim (Bool-cases (same q r)) [
          | inl f ↦ rw f (n, d, omega arith, inl (inr (e ∙ ap some (ground (arith, f)))))
          | inr f ↦
              let (m, w, l, k) = decode_rounds_lem decode s fuel (suc n) q (once_more d e) in
              rw f (m, w, omega (arith, l), ground (arith, k))
        ])
]

-- Repeated decoding ends after three rounds: its result comes from the text by at most three
-- decodings, and fewer than three only if another would change nothing or fail.
pub multi_decode_lem :
    (decode : Str → Option Str) (s : Str)
    → (m : ℕ) × Decodes decode s m (multi_decode decode s)
      × (m ≤ 3)
      × (IsFixed decode (multi_decode decode s) ⊎ (m ≡ 3))
unfolding multi_decode
multi_decode_lem decode s = decode_rounds_lem decode s 3 0 s itself
