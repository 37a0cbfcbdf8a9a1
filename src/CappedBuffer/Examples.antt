-- ===== src/CappedBuffer/Examples.antt =====
-- CappedBuffer: tests at concrete inputs.
use secure_edge_platform.Prelude.{◌≡◌, refl, true, List, [], ◌∷◌}
use secure_edge_platform.Prelude.Text.{Str, codes}
use secure_edge_platform.CappedBuffer.{fresh, write, write_all}

abbrev writes : List Str
writes = codes "abc" ∷ codes "def" ∷ []

keeps_four : (write_all (fresh 4) writes).buf ≡ codes "abcd"
unfolding write_all write fresh
keeps_four = refl

-- A write of nothing to a buffer that is exactly full counts as an overflow.
empty_write : (write_all (fresh 3) (codes "abc" ∷ [] ∷ [])).overflow ≡ true
unfolding write_all write fresh
empty_write = refl
