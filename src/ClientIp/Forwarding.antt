-- ===== src/ClientIp/Forwarding.antt =====
-- ClientIp: the resolved address is the rightmost one that is not trusted, and what a client puts in
-- front of it does not matter.
use mathlib.Core.List.{reverse, reverse-append, append_assoc}
use secure_edge_platform.Prelude.{
  ◌≡◌, refl, ap, sym, subst, ◌∙◌, ◌⊎◌, inl, inr, true, false, not, none, some, List, [], ◌∷◌, ◌++◌,
  arith, All, any, Bool-cases, Option-cases,
}
use secure_edge_platform.Prelude.Text.{Str, split, trim_space}
use secure_edge_platform.ClientIp.{
  Net, Resolver, comma, parse_tokens, parse_forwarded_ip_chain, is_trusted, remote_ip, scan,
  leftmost_of, resolve,
}

module _ (net : Net) where
  -- From the right, every address before the answer is trusted, and the answer is not; or all are
  -- trusted, and the answer is the leftmost.
  abbrev IsRightmost : List net.Network → List net.Ip → net.Ip → net.Ip → Type 0
  IsRightmost trusted from_right leftmost ip =
      All (λ a. is_trusted net a trusted ≡ true) from_right × (ip ≡ leftmost)
      ⊎ (nearer : List net.Ip) × (farther : List net.Ip) × (from_right ≡ nearer ++ ip ∷ farther)
        × All (λ a. is_trusted net a trusted ≡ true) nearer
        × (is_trusted net ip trusted ≡ false)

  scan_trusted :
      (trusted : List net.Network) (ip : net.Ip) (ips : List net.Ip) (leftmost : net.Ip)
      → is_trusted net ip trusted ≡ true
      → scan net trusted (ip ∷ ips) leftmost ≡ scan net trusted ips leftmost
  unfolding scan
  scan_trusted trusted ip ips leftmost e = rw e refl

  scan_untrusted :
      (trusted : List net.Network) (ip : net.Ip) (ips : List net.Ip) (leftmost : net.Ip)
      → is_trusted net ip trusted ≡ false
      → scan net trusted (ip ∷ ips) leftmost ≡ ip
  unfolding scan
  scan_untrusted trusted ip ips leftmost e = rw e refl

  scan-IsRightmost :
      (trusted : List net.Network) (ips : List net.Ip) (leftmost : net.Ip)
      → IsRightmost trusted ips leftmost (scan net trusted ips leftmost)
  scan-IsRightmost trusted [] leftmost = inl (tt, unfold scan in refl)
  scan-IsRightmost trusted (ip ∷ ips) leftmost = elim (Bool-cases (is_trusted net ip trusted)) [
    | inr e ↦
        subst (IsRightmost trusted (ip ∷ ips) leftmost)
          (sym (scan_untrusted trusted ip ips leftmost e)) (inr ([], ips, refl, tt, e))
    | inl e ↦
        subst (IsRightmost trusted (ip ∷ ips) leftmost)
          (sym (scan_trusted trusted ip ips leftmost e))
          (farther_on ip ips e (scan-IsRightmost trusted ips leftmost))
  ]
    where
      farther_on :
          (ip : net.Ip) (ips : List net.Ip) {a : net.Ip}
          → is_trusted net ip trusted ≡ true
          → IsRightmost trusted ips leftmost a
          → IsRightmost trusted (ip ∷ ips) leftmost a
      farther_on ip ips e (inl (t, f)) = inl ((e, t), f)
      farther_on ip ips e (inr (nearer, farther, f, t, g)) =
          inr (ip ∷ nearer, farther, ap (λ l. ip ∷ l) f, (e, t), g)

  -- What lies behind an untrusted address is never reached.
  scan-append :
      (trusted : List net.Network) (ips more : List net.Ip) (a b : net.Ip)
      → any (λ ip. not (is_trusted net ip trusted)) ips ≡ true
      → scan net trusted (ips ++ more) a ≡ scan net trusted ips b
  unfolding scan
  scan-append trusted [] more a b h = absurd (ground arith)
  scan-append trusted (ip ∷ ips) more a b h = ground (arith, scan-append trusted ips more a b)

  -- What Resolve is to answer for a request.
  abbrev pub IsClient : Resolver net.Network → Str → List Str → Str → Type 0
  IsClient r remote_addr values answer =
      (remote_ip net remote_addr ≡ none) × (answer ≡ trim_space remote_addr)
      ⊎ (remote : net.Ip) × (remote_ip net remote_addr ≡ some remote)
        × ((is_trusted net remote r.trusted ≡ false) × (answer ≡ net.print_ip remote)
            ⊎ (is_trusted net remote r.trusted ≡ true)
              × ((parse_forwarded_ip_chain net values ≡ none) × (answer ≡ net.print_ip remote)
                  ⊎ (chain : List net.Ip) × (ip : net.Ip) × (parse_forwarded_ip_chain net values
                      ≡ some chain)
                    × (answer ≡ net.print_ip ip)
                    × IsRightmost r.trusted (reverse (chain ++ remote ∷ []))
                        (leftmost_of net (chain ++ remote ∷ []) remote) ip))

  -- Resolve answers with the remote address itself unless that is a trusted proxy's and the
  -- forwarding header is well-formed; then it answers with the first address from the right, the
  -- remote address included, that no trusted network contains, or the leftmost where all are trusted.
  -- An address that does not parse is given back as it is.
  pub resolve-IsClient :
      (r : Resolver net.Network) (remote_addr : Str) (values : List Str)
      → IsClient r remote_addr values (resolve net r remote_addr values)
  unfolding resolve
  resolve-IsClient r remote_addr values = elim (Option-cases (remote_ip net remote_addr)) [
    | inl e ↦ inl (e, rw (e, resolve) refl)
    | inr (remote, e) ↦ inr (
      remote,
      e,
      elim (Bool-cases (is_trusted net remote r.trusted)) [
        | inr f ↦ inl (f, rw (e, f, resolve) refl)
        | inl f ↦ inr (
          f,
          elim (Option-cases (parse_forwarded_ip_chain net values)) [
            | inl g ↦ inl (g, rw (e, f, g, resolve) refl)
            | inr (chain, g) ↦ inr (
              chain,
              _,
              g,
              rw (e, f, g, resolve) refl,
              scan-IsRightmost r.trusted (reverse (chain ++ remote ∷ []))
                  (leftmost_of net (chain ++ remote ∷ []) remote),
            )
          ],
        )
      ],
    )
  ]

  chain-append :
      (forged values : List Str) (f c : List net.Ip)
      → parse_forwarded_ip_chain net forged ≡ some f
      → parse_forwarded_ip_chain net values ≡ some c
      → parse_forwarded_ip_chain net (forged ++ values) ≡ some (f ++ c)
  unfolding parse_forwarded_ip_chain
  chain-append [] values f c e g = ground (arith, e, g)
  chain-append (v ∷ forged) values f c e g =
      elim (Option-cases (parse_tokens net (split comma v))) [
        | inl h ↦ absurd (ground (arith, e, h))
        | inr (first, h) ↦ elim (Option-cases (parse_forwarded_ip_chain net forged)) [
          | inl k ↦ absurd (ground (arith, e, h, k))
          | inr (rest, k) ↦
              ground
                (arith, e, h, k, chain-append forged values rest c k g, append_assoc first rest c)
        ]
      ]

  -- An untrusted address in the chain, and any addresses before it.
  scan_forged :
      (trusted : List net.Network) (f c : List net.Ip) (remote : net.Ip) (a b : net.Ip)
      → any (λ ip. not (is_trusted net ip trusted)) (reverse (c ++ remote ∷ [])) ≡ true
      → scan net trusted (reverse ((f ++ c) ++ remote ∷ [])) a
        ≡ scan net trusted (reverse (c ++ remote ∷ [])) b
  scan_forged trusted f c remote a b h =
      ap (λ l. scan net trusted l a)
        (ap reverse (append_assoc f c (remote ∷ [])) ∙ reverse-append f (c ++ remote ∷ []))
      ∙ scan-append trusted (reverse (c ++ remote ∷ [])) (reverse f) a b h

  -- What stands in fields of the forwarding header before those of the trusted proxies does not
  -- change the answer, as long as it is well-formed, and the proxies' fields or the remote address
  -- have an address that is not trusted.
  pub resolve-append :
      (r : Resolver net.Network) (remote_addr : Str) (forged values : List Str)
      → (f c : List net.Ip) → (remote : net.Ip) → remote_ip net remote_addr ≡ some remote
      → parse_forwarded_ip_chain net forged ≡ some f
      → parse_forwarded_ip_chain net values ≡ some c
      → any (λ ip. not (is_trusted net ip r.trusted)) (reverse (c ++ remote ∷ [])) ≡ true
      → resolve net r remote_addr (forged ++ values) ≡ resolve net r remote_addr values
  unfolding resolve
  resolve-append r remote_addr forged values f c remote e g h u =
      elim (Bool-cases (is_trusted net remote r.trusted)) [
        | inr k ↦ rw (e, k, resolve) refl
        | inl k ↦
            rw (e, k, chain-append forged values f c g h, h, resolve)
              (ap net.print_ip (scan_forged r.trusted f c remote _ _ u))
      ]
