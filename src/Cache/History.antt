-- ===== src/Cache/History.antt =====
-- Cache: any sequence of calls on a new cache keeps it valid.
use secure_edge_platform.Prelude.{ℕ, ap, sym, subst, inl, inr, Bool, Option, List, [], ◌∷◌}
use secure_edge_platform.Prelude.Text.{Str}
use secure_edge_platform.Cache.Elements.{Entry}
use secure_edge_platform.Cache.{Cache, new, get, set, delete_key, clear, purge, purge_request}
use secure_edge_platform.Cache.Invariant.{IsValid, new-IsValid}
use secure_edge_platform.Cache.Operations.{get-IsValid, delete_key-IsValid, clear-IsValid}
use secure_edge_platform.Cache.Eviction.{set-Evicted}
use secure_edge_platform.Cache.Purging.{purge-PurgedBy, purge_request-PurgedBy}

-- The parsers of keys and URIs that a purge calls are its last arguments.
pub data Call : Type 0 where
  gets : Str → ℕ → Call
  sets : Str → Entry → Call
  deletes : Str → Call
  clears : Call
  purges : Str → Str → (Str → Option (Str × Str)) → (Str → Str → Bool) → Call
  purges_request : Str → Str → (Str → Option (Str × Str)) → Call

unfoldable pub step : Cache → Call → Cache
step c (gets key now) = (get c key now).0
step c (sets key entry) = (set c key entry).0
step c (deletes key) = (delete_key c key).0
step c clears = (clear c).0
step c (purges host prefix request matches) = (purge c host prefix request matches).0
step c (purges_request host uri request) = (purge_request c host uri request).0

unfoldable pub run : Cache → List Call → Cache
unfolding step
run c [] = c
run c (call ∷ calls) = run (step c call) calls

set-IsValid : (c : Cache) (key : Str) (entry : Entry) → IsValid c → IsValid (set c key entry).0
set-IsValid c key entry v = elim (set-Evicted c key entry v) [
  | inl (refused, _) ↦ subst IsValid (sym (ap (λ p. p.0) refused)) v
  | inr (_, _, r) ↦ r.valid
]

step-IsValid : (c : Cache) (call : Call) → IsValid c → IsValid (step c call)
unfolding step
step-IsValid c (gets key now) v = get-IsValid c key now v
step-IsValid c (sets key entry) v = set-IsValid c key entry v
step-IsValid c (deletes key) v = delete_key-IsValid c key v
step-IsValid c clears v = clear-IsValid c
step-IsValid c (purges host prefix request matches) v =
    (purge-PurgedBy c host prefix request matches v).0.valid
step-IsValid c (purges_request host uri request) v =
    (purge_request-PurgedBy c host uri request v).valid

run-IsValid : (c : Cache) (calls : List Call) → IsValid c → IsValid (run c calls)
unfolding run
run-IsValid c [] v = v
run-IsValid c (call ∷ calls) v = run-IsValid (step c call) calls (step-IsValid c call v)

-- After any calls on a new cache, the list and the index hold the same elements under distinct keys,
-- the byte count is the sum of their sizes, and neither limit is exceeded.
pub run-new-IsValid :
    (max_entries max_bytes : ℕ) (calls : List Call)
    → IsValid (run (new max_entries max_bytes) calls)
run-new-IsValid max_entries max_bytes calls =
    run-IsValid (new max_entries max_bytes) calls (new-IsValid max_entries max_bytes)
