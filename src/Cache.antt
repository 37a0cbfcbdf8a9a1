-- ===== src/Cache.antt =====
-- apps/edgeproxy/internal/cache/cache.go: the response cache, an LRU list beside an index by key.
-- The mutex makes each method one step. `bytes` is an int64 that stays between 0 and twice
-- `max_bytes`; `evictions` is a uint64 and wraps.
pub mod Elements
pub mod Invariant
pub mod Operations
pub mod Eviction
pub mod Reads
pub mod Purging
pub mod History
mod Examples
use secure_edge_platform.Prelude.{
  ℕ, zero, suc, ◌+◌, ◌-◌, ◌%◌, ◌^◌, Bool, true, false, ◌&&◌, ◌||◌, Option, none, some, List, [],
  ◌∷◌, length, ltb, leb, if◌then◌else◌, not, ◌==◌, drop,
}
use secure_edge_platform.Prelude.Text.{Str, same, is_empty, codes, has_prefix, to_lower, trim_space}
use secure_edge_platform.Prelude.Maps.{Map, lookup, insert, delete}
use Elements.{Entry, entry_size, Item, Element, remove_id, back}

-- `next_id` is the address that the next PushFront takes.
pub record Cache : Type 0 where
  pub max_entries : ℕ
  pub max_bytes : ℕ
  pub bytes : ℕ
  pub ll : List Element
  pub items : Map Element
  pub evictions : ℕ
  pub next_id : ℕ

pub record Stats : Type 0 where
  pub entries : ℕ
  pub bytes : ℕ
  pub evictions : ℕ

pub new : ℕ → ℕ → Cache
new max_entries max_bytes = record {
  max_entries = max_entries;
  max_bytes = max_bytes;
  bytes = 0;
  ll = [];
  items = [];
  evictions = 0;
  next_id = 0;
}

-- Entry{}
abbrev pub no_entry : Entry
no_entry = record {
  status_code = 0;
  header = [];
  body = [];
  stored_at = 0;
  expires_at = 0;
  stale_until = 0;
}

pub remove_element : Cache → Element → Bool → Cache
remove_element c elem eviction = record c {
  items = delete elem.key c.items;
  ll = remove_id elem.id c.ll;
  bytes = c.bytes - elem.size;
  evictions = if eviction then (c.evictions + 1) % 2 ^ 64 else c.evictions;
}

pub remove_oldest : Cache → Cache
remove_oldest c = elim (back c.ll) [ none ↦ c | some elem ↦ remove_element c elem true ]

pub move_to_front : Cache → Element → Cache
move_to_front c elem = record c { ll = elem ∷ remove_id elem.id c.ll }

abbrev hit : Cache → Element → ℕ → Cache × Entry × Bool × Bool
hit c elem now =
    if ltb elem.entry.stale_until now
    then (remove_element c elem false, no_entry, false, false)
    else (
      move_to_front c elem,
      elem.entry,
      ltb now elem.entry.expires_at || now == elem.entry.expires_at,
      not (ltb now elem.entry.expires_at || now == elem.entry.expires_at),
    )

-- The entry, and whether it is fresh or stale.
pub get : Cache → Str → ℕ → Cache × Entry × Bool × Bool
unfolding move_to_front
get c key now = elim (lookup key c.items) [
  | none ↦ (c, no_entry, false, false)
  | some elem ↦ hit c elem now
]

abbrev over_limit : Cache → Bool
over_limit c = ltb c.max_entries (length c.ll) || ltb c.max_bytes c.bytes

-- The loop of Set, on fuel.
pub evict : ℕ → Cache → Cache
evict zero c = c
evict (suc fuel) c = let rest = evict fuel (remove_oldest c) in if over_limit c then rest else c

pub push_front : Cache → Str → Entry → ℕ → Cache
push_front c key entry size = record c {
  ll = elem ∷ c.ll;
  items = insert key elem c.items;
  bytes = c.bytes + size;
  next_id = suc c.next_id;
}
  where
    elem : Element
    elem = record { id = c.next_id; value = record { key = key; entry = entry; size = size } }

pub remove_present : Cache → Str → Cache
remove_present c key = elim (lookup key c.items) [
  | none ↦ c
  | some elem ↦ remove_element c elem false
]

pub pushed : Cache → Str → Entry → Cache
unfolding remove_present push_front
pushed c key entry = push_front (remove_present c key) key entry (entry_size entry + length key)

-- One round of the loop for each element is enough.
pub set : Cache → Str → Entry → Cache × Bool
unfolding pushed
set c key entry =
    let size = entry_size entry + length key in
    if leb size 0 || ltb c.max_bytes size
    then (c, false)
    else (evict (length (pushed c key entry).ll) (pushed c key entry), true)

pub delete_key : Cache → Str → Cache × Bool
delete_key c key = elim (lookup key c.items) [
  | none ↦ (c, false)
  | some elem ↦ (remove_element c elem false, true)
]

pub clear : Cache → Cache × ℕ
clear c = (record c { ll = []; items = []; bytes = 0 }, length c.items)

stats : Cache → Stats
stats c = record { entries = length c.ll; bytes = c.bytes; evictions = c.evictions }

-- The loop of Purge and PurgeRequest: the entries of the map on which the test holds, removed and
-- counted. The map's order is that of its association list.
pub purge_loop : (Str → Bool) → List (Str × Element) → Cache → ℕ → Cache × ℕ
purge_loop test [] c count = (c, count)
purge_loop test ((key, elem) ∷ rest) c count =
    purge_loop test rest (if test key then remove_element c elem false else c)
      (if test key then count + 1 else count)

-- What a purge decides on one key. `request` is cacheKeyRequest, and `matches` purgePathMatches.
pub purge_test : Str → Str → (Str → Option (Str × Str)) → (Str → Str → Bool) → Str → Bool
purge_test host prefix request matches key = elim (request key) [
  | none ↦ false
  | some (key_host, uri) ↦
      if not (is_empty host) && not (same key_host host)
      then false
      else if not (is_empty prefix) && not (matches uri prefix)
      then false
      else true
]

pub purge : Cache → Str → Str → (Str → Option (Str × Str)) → (Str → Str → Bool) → Cache × ℕ
unfolding purge_loop purge_test
purge c host prefix request matches =
    purge_loop (purge_test (to_lower (trim_space host)) prefix request matches) c.items c 0

pub purge_request_test : Str → Str → (Str → Option (Str × Str)) → Str → Bool
purge_request_test host uri request key = elim (request key) [
  | none ↦ false
  | some (key_host, key_uri) ↦ same key_host host && same key_uri uri
]

pub purge_request : Cache → Str → Str → (Str → Option (Str × Str)) → Cache × ℕ
unfolding purge_loop purge_request_test
purge_request c host uri request =
    purge_loop (purge_request_test (to_lower (trim_space host)) uri request) c.items c 0
