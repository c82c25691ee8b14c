-- ===== src/Mcp/Outbound/Pinning.antt =====
-- The addresses that the MCP executor connects to.
use mathlib.Core.Path.{subst}
use agenthub_skill_runtime.Base.{
  refl, ◌↔◌, ◌≡◌, false, List, [], ◌∷◌, Option, none, some, Bytes, All, arith, ◌⊎◌, inl, inr,
  Bool-cases, Option-cases,
}
use agenthub_skill_runtime.Executor.{ok, ◌>>=◌, Result-cases}
use agenthub_skill_runtime.Http.Ssrf.{Ip, Syntax, is_blocked_outbound_ip}
use agenthub_skill_runtime.Mcp.Outbound.{
  Net, check_addresses, first_address, pinned_address, dial_http_outbound,
}

module _ (net : Net) (syn : Syntax) where
  open net use {Conn, split_host_port, show_ip, resolve_host, dial_ip}

  abbrev pub IsSafeIp : Option Ip → Type 0
  IsSafeIp ip = is_blocked_outbound_ip ip ≡ false

  -- The address is the host's own literal, or the first of those that the one resolution of the host
  -- gave, all of which are safe.
  abbrev pub IsPinned : Bytes → Option Ip → Type 0
  IsPinned host ip =
      ((a : Ip) × (syn.parse_ip host ≡ some a) × (ip ≡ some a))
      ⊎ ((more : List (Option Ip)) × (syn.parse_ip host ≡ none)
          × (resolve_host host ≡ ok (ip ∷ more))
          × All IsSafeIp (ip ∷ more))

  check_addresses-safe :
      (host : Bytes) (ips : List (Option Ip))
      → check_addresses net syn host ips ≡ ok tt
      → All IsSafeIp ips
  unfolding check_addresses
  check_addresses-safe host [] h = tt
  check_addresses-safe host (ip ∷ ips) h = elim (Bool-cases (is_blocked_outbound_ip ip)) [
    | inl bad ↦ absurd (ground arith)
    | inr good ↦ (good, check_addresses-safe host ips (ground arith))
  ]

  pinned_address-safe :
      (host : Bytes) (ip : Option Ip)
      → pinned_address net syn host ≡ ok ip
      → IsSafeIp ip × IsPinned host ip
  unfolding pinned_address
  pinned_address-safe host ip h = elim (Option-cases (syn.parse_ip host)) [
    | inr (a, literal) ↦ (ground arith, inl (a, literal, ground arith))
    | inl named ↦ elim (Result-cases (resolve_host host)) [
      | inr (x, failed) ↦ absurd (ground arith)
      | inl (ips, resolved) ↦ of_list ips named resolved (ground arith)
    ]
  ]
    where
      of_list :
          (ips : List (Option Ip))
          → syn.parse_ip host ≡ none
          → resolve_host host ≡ ok ips
          → (first_address net syn host ips >>= λ first.
              check_addresses net syn host ips >>= λ _. ok first)
            ≡ ok ip
          → IsSafeIp ip × IsPinned host ip
      of_list [] named resolved e = absurd (ground arith)
      of_list (a ∷ more) named resolved e =
          let all : All IsSafeIp (a ∷ more) = check_addresses-safe host (a ∷ more) (ground arith) in
          let same : a ≡ ip = ground arith in
          subst (λ i. IsSafeIp i × IsPinned host i) same (all.0, inr (more, named, resolved, all))

  dial_http_outbound-safe :
      (network address : Bytes) (conn : Conn)
      → dial_http_outbound net syn network address ≡ ok conn
      → (host port : Bytes) × (ip : Option Ip) × (split_host_port address ≡ ok (host, port))
        × IsSafeIp ip
        × IsPinned host ip
        × (dial_ip network ip port ≡ ok conn)
  unfolding dial_http_outbound
  dial_http_outbound-safe network address conn h = elim (Result-cases (split_host_port address)) [
    | inr (x, failed) ↦ absurd (ground arith)
    | inl ((host, port), parts) ↦ elim (Result-cases (pinned_address net syn host)) [
      | inr (x, failed) ↦ absurd (ground arith)
      | inl (ip, pinned) ↦
          let (safe, from) = pinned_address-safe host ip pinned in
          (host, port, ip, parts, safe, from, ground arith)
    ]
  ]

  safe-check_addresses :
      (host : Bytes) (ips : List (Option Ip))
      → All IsSafeIp ips
      → check_addresses net syn host ips ≡ ok tt
  unfolding check_addresses
  safe-check_addresses host [] h = refl
  safe-check_addresses host (ip ∷ ips) (safe, h) = rw safe (safe-check_addresses host ips h)

  safe-pinned_address :
      (host : Bytes) (ip : Option Ip)
      → IsSafeIp ip
      → IsPinned host ip
      → pinned_address net syn host ≡ ok ip
  unfolding pinned_address
  safe-pinned_address host ip safe (inl (a, literal, same)) = ground (arith, safe, literal, same)
  safe-pinned_address host ip safe (inr (more, named, resolved, all)) =
      let checked = safe-check_addresses host (ip ∷ more) all in
      rw (named, resolved, checked, pinned_address) refl

  -- A connection is opened exactly to an address that is not blocked: the host's literal, or the first
  -- address of the one resolution that was made, with every address of it checked; the dialer gets
  -- that address, not the name.
  pub dial_http_outbound_iff :
      (network address : Bytes) (conn : Conn)
      → (dial_http_outbound net syn network address ≡ ok conn) ↔ (
          (host port : Bytes) × (ip : Option Ip) × (split_host_port address ≡ ok (host, port))
          × IsSafeIp ip
          × IsPinned host ip
          × (dial_ip network ip port ≡ ok conn))
  unfolding dial_http_outbound
  dial_http_outbound_iff network address conn = (
    dial_http_outbound-safe network address conn,
    λ (host, port, ip, parts, safe, pinned, dialled).
        let chosen = safe-pinned_address host ip safe pinned in rw (parts, chosen, dialled) refl,
  )
