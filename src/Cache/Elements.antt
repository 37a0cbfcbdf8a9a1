-- ===== src/Cache/Elements.antt =====
-- apps/edgeproxy/internal/cache/cache.go: cached entries, and container/list as the cache uses it.
-- An element's `id` is its address; the front of the list is its head.
use secure_edge_platform.Prelude.{
  ℕ, suc, ◌+◌, ◌<◌, ◌≡◌, refl, ◌≢◌, Option, none, some, List, [], ◌∷◌, arith, ℕ_discrete, length,
}
use secure_edge_platform.Prelude.Text.{Str, str_dec}
use mathlib.Core.Logic.{ite}

-- Times are nanoseconds since Go's zero time; a status or length is a number.
pub record Entry : Type 0 where
  pub status_code : ℕ
  pub header : List (Str × List Str)
  pub body : Str
  pub stored_at : ℕ
  pub expires_at : ℕ
  pub stale_until : ℕ

values_size : List Str → ℕ
values_size [] = 0
values_size (v ∷ vs) = length v + values_size vs

header_size : List (Str × List Str) → ℕ
unfolding values_size
header_size [] = 0
header_size ((k, vs) ∷ h) = length k + values_size vs + header_size h

unfoldable pub entry_size : Entry → ℕ
unfolding header_size
entry_size e = length e.body + header_size e.header

pub record Item : Type 0 where
  pub key : Str
  pub entry : Entry
  pub size : ℕ

pub record Element : Type 0 where
  pub id : ℕ
  pub value : Item
  pub open value use *

-- The element with a key, and the element at an address.
unfoldable pub find : Str → List Element → Option Element
find k [] = none
find k (e ∷ l) = ite (str_dec e.key k) (some e) (find k l)

unfoldable pub find_id : ℕ → List Element → Option Element
find_id i [] = none
find_id i (e ∷ l) = ite (ℕ_discrete e.id i) (some e) (find_id i l)

-- l.Remove(e)
unfoldable pub remove_id : ℕ → List Element → List Element
remove_id i [] = []
remove_id i (e ∷ l) = ite (ℕ_discrete e.id i) l (e ∷ remove_id i l)

-- l.Back()
unfoldable pub back : List Element → Option Element
back [] = none
back (e ∷ []) = some e
back (e ∷ f ∷ l) = back (f ∷ l)

-- The list without the element of a key, or without its last element.
unfoldable pub remove_key : Str → List Element → List Element
remove_key k [] = []
remove_key k (e ∷ l) = ite (str_dec e.key k) l (e ∷ remove_key k l)

unfoldable pub total : List Element → ℕ
total [] = 0
total (e ∷ l) = e.size + total l

-- Addresses lie below the next one, and no address and no key stands twice.
abbrev pub IsNodup : ℕ → List Element → Type 0
IsNodup n [] = Unit {0}
IsNodup n (e ∷ l) = (e.id < n) × (find_id e.id l ≡ none) × (find e.key l ≡ none) × IsNodup n l

pub find-find_id :
    (k : Str) (l : List Element) {e : Element} → find k l ≡ some e → find_id e.id l ≢ none
unfolding find find_id
find-find_id k [] h = cc
find-find_id k (x ∷ l) {e} h = ground (arith, find-find_id k l {e = e})

pub find-key : (k : Str) (l : List Element) {e : Element} → find k l ≡ some e → e.key ≡ k
unfolding find
find-key k [] h = cc
find-key k (x ∷ l) {e} h = ground (arith, find-key k l {e = e})

-- To remove the element of a key by its address is to remove the key.
pub remove_id-remove_key :
    (n : ℕ) (k : Str) (l : List Element) {e : Element}
    → IsNodup n l
    → find k l ≡ some e
    → remove_id e.id l ≡ remove_key k l
unfolding find remove_id remove_key
remove_id-remove_key n k [] d h = refl
remove_id-remove_key n k (x ∷ l) {e} d h =
    ground (arith, remove_id-remove_key n k l {e = e}, find-find_id k l {e = e})

pub find-remove_key :
    (n : ℕ) (k j : Str) (l : List Element)
    → IsNodup n l
    → find j (remove_key k l) ≡ ite (str_dec k j) none (find j l)
unfolding find remove_key
find-remove_key n k j [] d = ground arith
find-remove_key n k j (x ∷ l) d = ground (arith, find-remove_key n k j l)

find_id-remove_key :
    (k : Str) (i : ℕ) (l : List Element) → find_id i l ≡ none → find_id i (remove_key k l) ≡ none
unfolding find_id remove_key
find_id-remove_key k i [] h = refl
find_id-remove_key k i (x ∷ l) h = ground (arith, find_id-remove_key k i l)

pub remove_key-IsNodup :
    (n : ℕ) (k : Str) (l : List Element) → IsNodup n l → IsNodup n (remove_key k l)
unfolding find remove_key
remove_key-IsNodup n k [] d = tt
remove_key-IsNodup n k (x ∷ l) d =
    ground
      (arith, remove_key-IsNodup n k l, find_id-remove_key k x.id l, find-remove_key n k x.key l)

pub find_id_fresh : (n : ℕ) (l : List Element) → IsNodup n l → find_id n l ≡ none
unfolding find_id
find_id_fresh n [] d = refl
find_id_fresh n (x ∷ l) d = ground (arith, find_id_fresh n l)

pub IsNodup-suc : (n : ℕ) (l : List Element) → IsNodup n l → IsNodup (suc n) l
IsNodup-suc n [] d = tt
IsNodup-suc n (x ∷ l) d = (omega arith, d.1, d.2, IsNodup-suc n l d.3)

pub total-remove_key :
    (k : Str) (l : List Element) {e : Element}
    → find k l ≡ some e
    → total (remove_key k l) + e.size ≡ total l
unfolding find remove_key total
total-remove_key k [] h = cc
total-remove_key k (x ∷ l) {e} h = ground (arith, total-remove_key k l {e = e})

pub length-remove_key :
    (k : Str) (l : List Element) {e : Element}
    → find k l ≡ some e
    → length (remove_key k l) + 1 ≡ length l
unfolding find remove_key
length-remove_key k [] h = cc
length-remove_key k (x ∷ l) {e} h = ground (arith, length-remove_key k l {e = e})

-- The last element is found under its key.
pub find-back :
    (n : ℕ) (l : List Element) {e : Element} → IsNodup n l → back l ≡ some e → find e.key l ≡ some e
unfolding find back
find-back n [] d h = cc
find-back n (x ∷ []) d h = ground arith
find-back n (x ∷ y ∷ l) {e} d h = ground (arith, find-back n (y ∷ l) {e = e})
