-- ===== src/Http/Ssrf.antt =====
-- internal/executor/http/ssrf.go. IPv4 addresses are 32-bit and IPv6 addresses 128-bit numbers.
-- The syntax of URLs and of address literals (net/url, net.ParseIP) is a parameter.
pub mod Ranges
pub mod Urls
use agenthub_skill_runtime.Base.{
  ℕ, ◌+◌, ◌-◌, ◌*◌, ◌/◌, ◌%◌, ◌^◌, ◌<◌, Bool, true, false, ◌&&◌, ◌||◌, not, List, [], ◌∷◌, ◌++◌,
  Option, none, some, Bytes, codes, any, eqb, is_empty, to_lower, has_suffix, ◌==◌, if◌then◌else◌,
}
use agenthub_skill_runtime.Executor.{Result, ok, err, leaf, Error, prefixed, require, ◌>>=◌, ◌>>◌}

-- net.IP
pub data Ip : Type 0 where
  v4 : ℕ → Ip
  v6 : ℕ → Ip

-- net.IPNet: an address and the length of the prefix
pub data IpNet : Type 0 where
  net4 : ℕ → ℕ → IpNet
  net6 : ℕ → ℕ → IpNet

-- ip.To4(): the IPv4 form of an address ::ffff:a.b.c.d
unfoldable pub to4 : Ip → Ip
to4 (v4 a) = v4 a
to4 (v6 a) = if a / 2 ^ 32 == 0xffff then v4 (a % 2 ^ 32) else v6 a

-- cidr.Contains(ip), for an address in its shortest form
unfoldable pub contains4 : IpNet → Ip → Bool
contains4 (net4 base bits) (v4 a) = a / 2 ^ (32 - bits) == base / 2 ^ (32 - bits)
contains4 (net6 base bits) (v6 a) = a / 2 ^ (128 - bits) == base / 2 ^ (128 - bits)
contains4 _ _ = false

abbrev pub quad : ℕ → ℕ → ℕ → ℕ → ℕ
quad a b c d = ((a * 256 + b) * 256 + c) * 256 + d

abbrev pub private_cidrs : List IpNet
private_cidrs =
    net4 (quad 10 0 0 0) 8
    ∷ net4 (quad 172 16 0 0) 12
    ∷ net4 (quad 192 168 0 0) 16
    ∷ net4 (quad 127 0 0 0) 8
    ∷ net4 (quad 169 254 0 0) 16
    ∷ net6 1 128
    ∷ net6 (0xfc * 2 ^ 120) 7
    ∷ net4 (quad 100 64 0 0) 10
    ∷ []

unfoldable pub is_private_ip : Ip → Bool
unfolding contains4 to4
is_private_ip ip = any (λ cidr. contains4 cidr (to4 ip)) private_cidrs

-- ip.IsUnspecified(), ip.IsMulticast(), ip.IsLinkLocalMulticast(), for a shortest form
unfoldable pub is_unspecified : Ip → Bool
is_unspecified (v4 a) = a == 0
is_unspecified (v6 a) = a == 0

unfoldable pub is_multicast : Ip → Bool
is_multicast (v4 a) = a / 2 ^ 28 == 0xe
is_multicast (v6 a) = a / 2 ^ 120 == 0xff

unfoldable pub is_link_local_multicast : Ip → Bool
is_link_local_multicast (v4 a) = a / 2 ^ 8 == 0xe00000
is_link_local_multicast (v6 a) = a / 2 ^ 120 == 0xff && a / 2 ^ 112 % 16 == 2

-- IsBlockedOutboundIP; a nil address is `none`
unfoldable pub is_blocked_outbound_ip : Option Ip → Bool
unfolding is_private_ip is_unspecified is_multicast is_link_local_multicast
is_blocked_outbound_ip none = true
is_blocked_outbound_ip (some ip) =
    is_private_ip ip
    || is_unspecified (to4 ip)
    || is_multicast (to4 ip)
    || is_link_local_multicast (to4 ip)

-- What the code reads of a *url.URL.
pub record Url : Type 0 where
  pub scheme : Bytes
  pub host : Bytes
  pub hostname : Bytes

-- url.Parse and net.ParseIP
pub record Syntax : Type 0 where
  pub parse_url : Bytes → Result Url
  pub parse_ip : Bytes → Option Ip

abbrev pub private_host : Option Ip → Bool
private_host none = false
private_host (some ip) = is_private_ip ip

-- The checks of ValidateURL behind the parse.
unfoldable pub validate_parsed : (Bytes → Option Ip) → Url → Result (Unit {0})
validate_parsed parse_ip u = do
  let scheme = to_lower u.scheme
  require (eqb scheme (codes "http") || eqb scheme (codes "https"))
      (leaf (codes "unsupported URL scheme: " ++ u.scheme))
  require (not (is_empty u.host)) (leaf (codes "URL has no host"))
  require
      (not (
        has_suffix u.hostname (codes ".svc.cluster.local")
        || has_suffix u.hostname (codes ".cluster.local")))
      (leaf (codes "URL targets internal cluster DNS: " ++ u.hostname))
  require (not (private_host (parse_ip u.hostname)))
      (leaf (codes "URL targets private/reserved network address: " ++ u.hostname))

abbrev pub parsed : Result Url → (Url → Result (Unit {0})) → Result (Unit {0})
parsed (ok u) check = check u
parsed (err e) check = err (prefixed (codes "invalid URL: ") e)

unfoldable pub validate_url : Syntax → Bytes → Result (Unit {0})
unfolding validate_parsed
validate_url syn raw_url = parsed (syn.parse_url raw_url) (validate_parsed syn.parse_ip)
