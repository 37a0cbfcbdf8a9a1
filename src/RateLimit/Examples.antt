-- ===== src/RateLimit/Examples.antt =====
-- RateLimit: tests at concrete inputs.
use secure_edge_platform.Prelude.{ℕ, ◌*◌, ◌/◌, ◌≡◌, ◌⊎◌, refl, true, false, not, [], arith, some}
use secure_edge_platform.Prelude.Text.{codes, str_dec}
use secure_edge_platform.Prelude.Maps.{Map, lookup, insert}
use secure_edge_platform.Prelude.Int.{ℤ, pos, pos_part, ltb_ℤ, ◌+ℤ◌, ◌-ℤ◌, +ℤ_parts, -ℤ_parts}
use secure_edge_platform.RateLimit.{
  Float64, Float64Laws, Bucket, Config, Decision, Answer, global_key, client_key, allow,
  client_step, allow_locked, spend, refilled, retry_after, give_back, granted, refused,
  global_scope, client_scope,
}
use secure_edge_platform.RateLimit.Rollback.{route_test, client_test, returned, allow_lem}
use secure_edge_platform.RateLimit.Bounds.{allow-Capped}
use secure_edge_platform.RateLimit.Keys.{Lacks}

-- Tokens as whole numbers of millionths, below which nothing counts.
abbrev million : ℕ
million = 1_000_000

abbrev whole : Float64
whole = record {
  F = ℤ;
  of_int = λ n. pos (n * million);
  seconds = λ n. pos (n / 1_000);
  duration = λ x. pos_part x;
  add = λ x y. x +ℤ y;
  sub = λ x y. x -ℤ y;
  mul = λ x y. pos (pos_part x * pos_part y / million);
  div = λ x y. pos (pos_part x * million / pos_part y);
  less = λ x y. ltb_ℤ x y;
  at_most = λ x y. not (ltb_ℤ y x);
  is_nan = λ x. false;
  is_inf = λ x. false;
  max_seconds = pos 9_223_372_036_000_000;
  nanoseconds = λ x. pos (pos_part x * 1_000);
}

whole-Laws : Float64Laws whole
whole-Laws = record {
  less_irrefl = λ x. ground arith;
  less-sub_one = λ b x h. ground (arith, h, -ℤ_parts x (pos million));
  less-add_one = λ b x h.
      ground (arith, h, -ℤ_parts x (pos million), +ℤ_parts (x -ℤ pos million) (pos million));
}

abbrev config : Config ℤ
config = record {
  enabled = true;
  requests_per_second = pos 0;
  burst = 1;
  global_requests_per_second = pos 0;
  global_burst = 5;
  max_buckets = 10;
}

program : Unit {0}
unfolding ◌+ℤ◌ ◌-ℤ◌ global_key client_key allow client_step allow_locked spend refilled retry_after
    give_back lookup insert str_dec
program = tt

abbrev after_one : Map (Bucket ℤ)
after_one = (allow whole [] (codes "r") (codes "c") config 100).0

refuses_second : (allow whole after_one (codes "r") (codes "c") config 200).1.allowed ≡ false
unfolding program
refuses_second = refl

abbrev four_left : Bucket ℤ
four_left = record { tokens = pos 4_000_000; last = 200; seen = 200 }

route_bucket :
    lookup (global_key (codes "r")) (allow whole after_one (codes "r") (codes "c") config 200).0
    ≡ some four_left
unfolding program
route_bucket = refl

allow-Capped_example : whole.less (whole.of_int 5) four_left.tokens ≡ false
allow-Capped_example =
    allow-Capped whole whole-Laws after_one (codes "r") (codes "c") config 200 refl four_left
      route_bucket

no_bar : Lacks 124 (codes "c")
no_bar = ((λ h. ground (arith, h)), tt)

abbrev by_route : Map (Bucket ℤ) × Answer
by_route = route_test whole after_one (codes "r") (codes "c") config 200

abbrev by_client : Map (Bucket ℤ) × Answer
by_client = client_test whole after_one (codes "r") (codes "c") config 200

abbrev result : Map (Bucket ℤ) × Decision
result = allow whole after_one (codes "r") (codes "c") config 200

allow_lem_example :
    (by_route.1.ok ≡ false)
      × (result.1 ≡ refused whole global_scope by_route.1)
      × (lookup (client_key (codes "r") (codes "c")) result.0
          ≡ lookup (client_key (codes "r") (codes "c")) after_one)
    ⊎ (by_route.1.ok ≡ true)
      × (by_client.1.ok ≡ false)
      × (result.1 ≡ refused whole client_scope by_client.1)
      × (lookup (global_key (codes "r")) result.0
          ≡ returned whole 5 (lookup (global_key (codes "r")) by_route.0))
    ⊎ (by_route.1.ok ≡ true)
      × (by_client.1.ok ≡ true)
      × (result.1 ≡ granted)
      × (lookup (global_key (codes "r")) result.0 ≡ lookup (global_key (codes "r")) by_route.0)
allow_lem_example = allow_lem whole after_one (codes "r") (codes "c") config 200 refl
