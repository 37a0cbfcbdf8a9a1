-- ===== src/ClientIp.antt =====
-- apps/securityedge/internal/clientip/resolver.go: the address of the client of a request, with
-- forwarding headers believed only from trusted proxies. Addresses and networks are those of Go's
-- package net, which is the parameter Net.
pub mod Forwarding
mod Examples
use secure_edge_platform.Prelude.{
  ℕ, Bool, true, false, not, ◌&&◌, ◌||◌, Option, none, some, List, [], ◌∷◌, ◌++◌, any,
  if◌then◌else◌,
}
use mathlib.Core.List.{reverse}
use secure_edge_platform.Prelude.Text.{Str, codes, is_empty, trim_space, split}
use secure_edge_platform.Router.Hosts.{split_host_port}

-- ParseIP, IP.String, ParseCIDR and IPNet.Contains; none is nil or an error.
pub record Net : Type 1 where
  pub Ip : Type 0
  pub Network : Type 0
  pub parse_ip : Str → Option Ip
  pub print_ip : Ip → Str
  pub parse_cidr : Str → Option Network
  pub contains : Network → Ip → Bool

pub record Resolver (Network : Type 0) : Type 0 where
  pub trusted : List Network
  pub header : Str

abbrev pub comma : ℕ
comma = 44

module _ (net : Net) where
  parse_cidrs : List Str → Option (List net.Network)
  parse_cidrs [] = some []
  parse_cidrs (raw ∷ cidrs) = elim (net.parse_cidr (trim_space raw)) [
    | none ↦ none
    | some network ↦ elim (parse_cidrs cidrs) [
      | none ↦ none
      | some parsed ↦ some (network ∷ parsed)
    ]
  ]

  -- Replace: the resolver with its new networks and header, and whether there was no error.
  replace : Resolver net.Network → List Str → Str → Resolver net.Network × Bool
  unfolding parse_cidrs
  replace r cidrs header = elim (parse_cidrs cidrs) [
    | none ↦ (r, false)
    | some parsed ↦ (
      record {
        trusted = parsed;
        header =
            if is_empty (trim_space header) then codes "X-Forwarded-For" else trim_space header;
      },
      true,
    )
  ]

  -- The tokens of a header field between commas; none where one is empty or no address.
  pub parse_tokens : List Str → Option (List net.Ip)
  parse_tokens [] = some []
  parse_tokens (raw ∷ tokens) =
      let rest = parse_tokens tokens in
      if is_empty (trim_space raw) then none else elim (net.parse_ip (trim_space raw)) [
        | none ↦ none
        | some ip ↦ elim rest [ none ↦ none | some chain ↦ some (ip ∷ chain) ]
      ]

  pub parse_forwarded_ip_chain : List Str → Option (List net.Ip)
  unfolding parse_tokens
  parse_forwarded_ip_chain [] = some []
  parse_forwarded_ip_chain (value ∷ values) = elim (parse_tokens (split comma value)) [
    | none ↦ none
    | some chain ↦ elim (parse_forwarded_ip_chain values) [
      | none ↦ none
      | some rest ↦ some (chain ++ rest)
    ]
  ]

  pub is_trusted : net.Ip → List net.Network → Bool
  is_trusted ip networks = any (λ network. net.contains network ip) networks

  pub remote_ip : Str → Option net.Ip
  unfolding split_host_port
  remote_ip addr = elim (split_host_port addr) [
    | some (host, port) ↦ net.parse_ip host
    | none ↦ net.parse_ip (trim_space addr)
  ]

  -- The loop of Resolve, over the chain from its right end; chain[0] where every address is trusted.
  pub scan : List net.Network → List net.Ip → net.Ip → net.Ip
  unfolding is_trusted
  scan trusted [] leftmost = leftmost
  scan trusted (ip ∷ ips) leftmost =
      let rest = scan trusted ips leftmost in if not (is_trusted ip trusted) then ip else rest

  abbrev pub leftmost_of : List net.Ip → net.Ip → net.Ip
  leftmost_of [] remote = remote
  leftmost_of (ip ∷ ips) remote = ip

  -- Resolve, for the remote address of a request and the values of its forwarding header.
  pub resolve : Resolver net.Network → Str → List Str → Str
  unfolding remote_ip parse_forwarded_ip_chain scan
  resolve r remote_addr values = elim (remote_ip remote_addr) [
    | none ↦ trim_space remote_addr
    | some remote ↦
        if not (is_trusted remote r.trusted)
        then net.print_ip remote
        else elim (parse_forwarded_ip_chain values) [
          | none ↦ net.print_ip remote
          | some chain ↦ net.print_ip (
              scan r.trusted (reverse (chain ++ remote ∷ []))
                (leftmost_of (chain ++ remote ∷ []) remote))
        ]
  ]
