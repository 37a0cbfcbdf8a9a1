-- ===== src/ClientIp/Examples.antt =====
-- ClientIp: tests at concrete inputs.
use mathlib.Core.List.{reverse}
use secure_edge_platform.Prelude.{
  ℕ, ◌≡◌, refl, Bool, true, not, Option, none, some, List, [], ◌∷◌, ◌++◌, any, length, ◌==◌,
  if◌then◌else◌,
}
use secure_edge_platform.Prelude.Text.{Str, codes, is_empty, trim_space, trim_left, is_space, split}
use secure_edge_platform.Router.Hosts.{
  split_host_port, unbracketed, bracketed, cut_last, cut, contains,
}
use secure_edge_platform.ClientIp.{
  Net, Resolver, parse_forwarded_ip_chain, parse_tokens, is_trusted, remote_ip, scan, resolve,
}
use secure_edge_platform.ClientIp.Forwarding.{IsClient, resolve-IsClient}

-- Addresses are texts that are not empty, and a network is the length of the addresses that it holds.
abbrev address : Str → Option Str
address s = if is_empty s then none else some s

abbrev holds : ℕ → Str → Bool
holds n s = length s == n

abbrev toy : Net
toy = record {
  Ip = Str;
  Network = ℕ;
  parse_ip = address;
  print_ip = λ s. s;
  parse_cidr = λ s. some (length s);
  contains = holds;
}

program : Unit {0}
unfolding parse_forwarded_ip_chain parse_tokens is_trusted remote_ip scan resolve trim_space
    trim_left is_space split split_host_port unbracketed bracketed cut_last cut contains
program = tt

-- The proxies have addresses of two letters.
abbrev resolver : Resolver ℕ
resolver = record { trusted = 2 ∷ []; header = codes "X-Forwarded-For" }

abbrev forged : List Str
forged = codes "evil" ∷ []

abbrev fields : List Str
fields = codes "user, p1" ∷ []

rightmost : resolve toy resolver (codes "p2:80") (forged ++ fields) ≡ codes "user"
unfolding program
rightmost = refl

resolve-IsClient_example :
    IsClient toy resolver (codes "p2:80") fields (resolve toy resolver (codes "p2:80") fields)
resolve-IsClient_example = resolve-IsClient toy resolver (codes "p2:80") fields

remote_parses : remote_ip toy (codes "p2:80") ≡ some (codes "p2")
unfolding program
remote_parses = refl

forged_parses : parse_forwarded_ip_chain toy forged ≡ some (codes "evil" ∷ [])
unfolding program
forged_parses = refl

fields_parse : parse_forwarded_ip_chain toy fields ≡ some (codes "user" ∷ codes "p1" ∷ [])
unfolding program
fields_parse = refl

one_untrusted :
    any
      (λ ip. not (is_trusted toy ip resolver.trusted))
      (reverse ((codes "user" ∷ codes "p1" ∷ []) ++ codes "p2" ∷ []))
    ≡ true
unfolding program
one_untrusted = refl
