-- ===== src/Mcp/Outbound.antt =====
-- internal/executor/mcp/executor.go: dialHTTPOutbound and the redirect policy of the protected client.
pub mod Pinning
use agenthub_skill_runtime.Base.{
  ℕ, Bool, true, false, not, ◌&&◌, ◌||◌, List, [], ◌∷◌, ◌++◌, Option, none, some, Bytes, codes, leb,
  if◌then◌else◌,
}
use agenthub_skill_runtime.Executor.{
  Error, leaf, prefixed, quote, Result, ok, err, ◌>>=◌, ◌>>◌, require, or_wrap,
}
use agenthub_skill_runtime.Http.Ssrf.{Ip, Syntax, is_blocked_outbound_ip, validate_url}

-- net.SplitHostPort, ip.String, the resolver and the dialer. A resolved address may be nil.
pub record Net : Type 1 where
  pub Conn : Type 0
  pub split_host_port : Bytes → Result (Bytes × Bytes)
  pub show_ip : Option Ip → Bytes
  pub resolve_host : Bytes → Result (List (Option Ip))
  pub dial_ip : Bytes → Option Ip → Bytes → Result Conn

module _ (net : Net) (syn : Syntax) where
  open net use {Conn, split_host_port, show_ip, resolve_host, dial_ip}

  -- The loop over the resolved addresses.
  unfoldable pub check_addresses : Bytes → List (Option Ip) → Result (Unit {0})
  check_addresses host [] = ok tt
  check_addresses host (ip ∷ more) =
      let rest = check_addresses host more in
      if is_blocked_outbound_ip ip
      then err (
          leaf (
            codes "mcp executor: HTTP outbound host "
            ++ (quote host ++ (codes " resolves to blocked address " ++ show_ip ip))))
      else rest

  abbrev pub first_address : Bytes → List (Option Ip) → Result (Option Ip)
  first_address host [] = err (
      leaf (
        codes "mcp executor: HTTP outbound host "
        ++ (quote host ++ codes " resolved without addresses")))
  first_address host (ip ∷ more) = ok ip

  -- The address to dial for a host: the literal, or the first one resolved.
  unfoldable pub pinned_address : Bytes → Result (Option Ip)
  pinned_address host = elim (syn.parse_ip host) [
    | some ip ↦
        if is_blocked_outbound_ip (some ip)
        then err
            (leaf (codes "mcp executor: HTTP outbound target is blocked: " ++ show_ip (some ip)))
        else ok (some ip)
    | none ↦
        or_wrap (codes "mcp executor: resolve HTTP outbound host " ++ (quote host ++ codes ": "))
          (resolve_host host)
        >>= λ addresses. first_address host addresses >>= λ first.
            check_addresses host addresses >>= λ _. ok first
  ]

  -- dialHTTPOutbound
  unfoldable pub dial_http_outbound : Bytes → Bytes → Result Conn
  dial_http_outbound network address =
      or_wrap (codes "mcp executor: invalid HTTP outbound address: ") (split_host_port address)
      >>= λ hp. pinned_address hp.0 >>= λ ip. dial_ip network ip hp.1

-- CheckRedirect, behind `via` requests
unfoldable pub check_redirect : Syntax → ℕ → Bytes → Result (Unit {0})
check_redirect syn via url =
    if leb 10 via
    then err (leaf (codes "mcp executor: too many HTTP redirects"))
    else or_wrap (codes "mcp executor: redirect blocked: ") (validate_url syn url)
