-- ===== src/Bans/Examples.antt =====
-- Bans: tests at concrete inputs.
use secure_edge_platform.Prelude.{ℕ, ◌-◌, ◌≡◌, ◌≢◌, refl, true, false, List, [], ◌∷◌, arith, All}
use secure_edge_platform.Prelude.Text.{codes, str_dec}
use secure_edge_platform.Prelude.Maps.{lookup, insert, delete}
use secure_edge_platform.Bans.{
  AutoBanConfig, BanManager, new, is_banned, record_violation, track, cleanup_inactive,
  cleanup_clients, make_room, punish, add_violation, evict_oldest_inactive, oldest_inactive,
}
use secure_edge_platform.Bans.History.{
  Call, check, violate, unban, lists, run, Holds, Spares, is_banned-run,
}

program : Unit {0}
unfolding new record_violation track cleanup_inactive cleanup_clients make_room punish add_violation
    evict_oldest_inactive oldest_inactive lookup insert delete str_dec
program = tt

-- One violation is enough, and the manager tracks one client.
abbrev strict : AutoBanConfig
strict = record {
  enabled = true;
  violation_threshold = 1;
  window = 100;
  ban_duration = 1_000;
  max_tracked_clients = 1;
}

abbrev banning : BanManager
banning = (record_violation new (codes "a") strict 500).0

bans : (record_violation new (codes "a") strict 500).1 ≡ true
unfolding program
bans = refl

-- No room is made for another client while the only one tracked is banned.
no_room : (record_violation banning (codes "b") strict 900).1 ≡ false
unfolding program
no_room = refl

banning-Holds : Holds banning (codes "a") 1_500
unfolding program
banning-Holds = record { distinct = (refl, tt); ban = (_, refl, refl) }

abbrev calls : List (ℕ × Call)
calls =
    (600, violate (codes "b") strict)
    ∷ (700, check (codes "a"))
    ∷ (800, lists)
    ∷ (900, unban (codes "b"))
    ∷ []

b-ne-a : codes "b" ≢ codes "a"
b-ne-a h = ground (arith, h)

calls-Spares : All (Spares (codes "a") 1_500) calls
calls-Spares = ((omega arith, b-ne-a), (omega arith, (omega arith, ((omega arith, b-ne-a), tt))))

is_banned-run_example :
    ((is_banned (run banning calls) (codes "a") 1_000).1 ≡ true)
    × ((is_banned (run banning calls) (codes "a") 1_000).2 ≡ 1_500 - 1_000)
is_banned-run_example =
    is_banned-run banning (codes "a") 1_500 1_000 calls banning-Holds calls-Spares (omega arith)
