-- ===== src/Gateway/Screening.antt =====
-- apps/securityedge/internal/gateway/handler.go, ServeHTTP's call of Inspect: the checks of the gateway
-- with the WAF as their inspection. `http_of` is the request as the WAF reads it; `too_large` says that
-- reading its body fails by the limit of http.MaxBytesReader.
use secure_edge_platform.Prelude.{
  ℕ, ◌≡◌, ◌<◌, ◌⊎◌, Bool, true, false, Option, none, some, any, length, min, if◌then◌else◌,
}
use secure_edge_platform.RateLimit
use secure_edge_platform.Waf
use secure_edge_platform.Waf.Samples.{Codec, HttpRequest}
use secure_edge_platform.Waf.Inspectors.{Inspector}
use secure_edge_platform.Waf.Bounds.{sum}
use secure_edge_platform.Waf.Results
use secure_edge_platform.Waf.Results.{IsResult}
use secure_edge_platform.Gateway.Shape.{Request}
use secure_edge_platform.Gateway.Types.{
  Policy, Inspection, Inspected, inspected, max_bytes_error, other_error, Gateway,
}

-- What the handler acts on of the answer of Inspect.
abbrev answer_of : Waf.Result → Inspected
answer_of r = record {
  score = r.score;
  matches = length r.matches;
  body_truncated = r.body_truncated;
  excluded = r.excluded;
}

unfoldable pub as_inspection : Bool → Option Waf.Result → Inspection
as_inspection too_large none = if too_large then max_bytes_error else other_error
as_inspection too_large (some r) = inspected (answer_of r)

module _ (codec : Codec) (i : Inspector) (waf_policy : Waf.Policy) where
  unfoldable pub screen : (Request → HttpRequest) → Bool → Request → Inspection
  unfolding as_inspection
  screen http_of too_large req =
      as_inspection too_large (Waf.inspect codec i.rules i.max_matches (http_of req) waf_policy)

  -- A request that the rules of a blocking policy let pass: its path is excluded, or the inspection of
  -- its samples and of its body, as Inspected says, found nothing, or the scores of what it found stay
  -- below the threshold.
  pub data IsHarmless (threshold : ℕ) (req : HttpRequest) : Type 0 where
    excluded :
        any (Waf.excluded_path_matches codec req.url.path) waf_policy.excluded_path_prefixes ≡ true
        → IsHarmless threshold req
    below :
        (result : Waf.Result)
        → Results.Inspected codec i.rules i.max_matches req waf_policy (some result)
        → result.excluded ≡ false
        → (length result.matches ≡ 0) ⊎ (min Waf.max_int (sum result.matches) < threshold)
        → IsHarmless threshold req
