-- ===== src/Cache/Examples.antt =====
-- Cache: tests at concrete inputs.
use secure_edge_platform.Prelude.{
  ◌+◌, ◌≤◌, ◌<◌, ◌⊎◌, ◌≡◌, ◌↔◌, ◌≢◌, refl, Bool, true, false, Option, none, some, List, [], ◌∷◌,
  arith, length,
}
use secure_edge_platform.Prelude.Text.{Str, codes, str_dec, same, to_lower, trim_space}
use secure_edge_platform.Prelude.Maps.{lookup, insert, delete}
use secure_edge_platform.Cache.{
  new, get, set, purge, purge_test, pushed, delete_key, clear, evict, remove_oldest, remove_element,
}
use secure_edge_platform.Cache.Elements.{Entry, Element, entry_size, remove_id, back}
use secure_edge_platform.Cache.Invariant.{IsValid, new-IsValid}
use secure_edge_platform.Cache.Eviction.{Evicted, set-Evicted}
use secure_edge_platform.Cache.Reads.{Answer, lookup-set, get-Answer}
use secure_edge_platform.Cache.Purging.{PurgedBy, IsNamed, purge-PurgedBy}
use secure_edge_platform.Cache.History.{Call, step, run, gets, sets, run-new-IsValid}

program : Unit {0}
unfolding evict insert delete remove_id remove_oldest back remove_element new get set purge
    delete_key clear run step lookup entry_size str_dec to_lower trim_space
program = tt

abbrev page : Entry
page = record {
  status_code = 200;
  header = [];
  body = codes "0123456789";
  stored_at = 10;
  expires_at = 20;
  stale_until = 30;
}

abbrev calls : List Call
calls =
    sets (codes "a") page ∷ sets (codes "b") page ∷ gets (codes "a") 15 ∷ sets (codes "c") page ∷ []

abbrev keys : List Element → List Str
keys [] = []
keys (e ∷ l) = e.key ∷ keys l

-- The least recently used of three pages goes.
evicts : keys (run (new 2 100) calls).ll ≡ codes "c" ∷ codes "a" ∷ []
unfolding program
evicts = refl

set-Evicted_example :
    ((set (new 2 100) (codes "a") page ≡ (new 2 100, false))
      × ((entry_size page + length (codes "a") ≡ 0) ⊎ (100 < entry_size page + length (codes "a"))))
    ⊎ (((set (new 2 100) (codes "a") page).1 ≡ true)
        × (entry_size page + length (codes "a") ≤ 100)
        × Evicted (pushed (new 2 100) (codes "a") page) (set (new 2 100) (codes "a") page).0)
unfolding new
set-Evicted_example = set-Evicted (new 2 100) (codes "a") page (new-IsValid 2 100)

abbrev stored_page : Element
stored_page = record { id = 0; value = record { key = codes "a"; entry = page; size = 11 } }

lookup_set_room : 0 < (new 2 100).max_entries
unfolding new
lookup_set_room = omega arith

set_succeeds : (set (new 2 100) (codes "a") page).1 ≡ true
unfolding program
set_succeeds = refl

lookup-set_example :
    (lookup (codes "a") (set (new 2 100) (codes "a") page).0.items ≡ some stored_page)
    × ((j : Str)
        → j ≢ codes "a"
        → (lookup j (set (new 2 100) (codes "a") page).0.items ≡ lookup j (new 2 100).items)
          ⊎ (lookup j (set (new 2 100) (codes "a") page).0.items ≡ none))
unfolding new entry_size
lookup-set_example =
    lookup-set (new 2 100) (codes "a") page (new-IsValid 2 100) lookup_set_room set_succeeds

get-Answer_example :
    Answer (run (new 2 100) calls) (codes "a") 25 (get (run (new 2 100) calls) (codes "a") 25)
get-Answer_example = get-Answer (run (new 2 100) calls) (codes "a") 25 (run-new-IsValid 2 100 calls)

run-new-IsValid_example : IsValid (run (new 2 100) calls)
run-new-IsValid_example = run-new-IsValid 2 100 calls

-- A key is its own URI on one host.
abbrev request_of : Str → Option (Str × Str)
request_of key = some (codes "h", key)

abbrev same_uri : Str → Str → Bool
same_uri uri prefix = same uri prefix

purge-PurgedBy_example :
    PurgedBy
      (purge_test (to_lower (trim_space (codes "H"))) (codes "a") request_of same_uri)
      (run (new 2 100) calls)
      (purge (run (new 2 100) calls) (codes "H") (codes "a") request_of same_uri).0
      (purge (run (new 2 100) calls) (codes "H") (codes "a") request_of same_uri).1
    × ((key : Str)
        → (purge_test (to_lower (trim_space (codes "H"))) (codes "a") request_of same_uri key
            ≡ true)
          ↔ IsNamed (to_lower (trim_space (codes "H"))) (codes "a") request_of same_uri key)
purge-PurgedBy_example =
    purge-PurgedBy (run (new 2 100) calls) (codes "H") (codes "a") request_of same_uri
      (run-new-IsValid 2 100 calls)

purges_one : (purge (run (new 2 100) calls) (codes "H") (codes "a") request_of same_uri).1 ≡ 1
unfolding program
purges_one = refl
