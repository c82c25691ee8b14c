-- ===== src/Middleware/Jwks.antt =====
-- internal/middleware/auth.go: buildJWKSURL, parseRSAPublicKey, fetchJWKS and its cache. The parsing
-- of URLs and base64 and the HTTP client are parameters; times are in nanoseconds.
pub mod Genuine
pub mod Interleaved
pub mod Shared
use agenthub_skill_runtime.Base.{
  ℕ, zero, suc, ◌+◌, ◌*◌, ◌%◌, ◌^◌, Bool, true, false, not, ◌&&◌, ◌||◌, List, [], ◌∷◌, ◌++◌, Option,
  none, some, Bytes, codes, is_empty, eqb, trim_space, trim_right_slash, contains_any, ltb, ◌==◌,
  if◌then◌else◌,
}
use agenthub_skill_runtime.Base.Decimal.{itoa}
use agenthub_skill_runtime.Base.Assoc.{Assoc, lookup, insert}
use agenthub_skill_runtime.Executor.{
  Error, leaf, quote, Result, ok, err, ◌>>=◌, ◌>>◌, require, or_wrap, prefixed,
}

-- What the code reads and sets of a *url.URL.
pub record ParsedUrl : Type 0 where
  pub scheme : Bytes
  pub host : Bytes
  pub has_user : Bool
  pub path : Bytes
  pub raw_path : Bytes
  pub raw_query : Bytes
  pub fragment : Bytes

-- rsa.PublicKey; the exponent as the 64 bits of the int
pub record PublicKey : Type 0 where
  pub n : ℕ
  pub e : ℕ

pub record Jwk : Type 0 where
  pub kid : Bytes
  pub kty : Bytes
  pub use_for : Bytes
  pub n : Bytes
  pub e : Bytes

-- jwksCacheEntry
pub record CacheEntry : Type 0 where
  pub keys : Assoc PublicKey
  pub expires_at : ℕ

abbrev pub Cache : Type 0
Cache = Assoc CacheEntry

-- url.Parse, with EscapedPath as the raw path of what it returns, url.PathEscape, and
-- base64.RawURLEncoding.
pub record Encoding : Type 0 where
  pub parse_url : Bytes → Result ParsedUrl
  pub path_escape : Bytes → Bytes
  pub decode_base64 : Bytes → Result Bytes

-- time.Now at the lookup and behind the fetch, and the answer of the HTTP client to a GET in between:
-- the status and the decoded body.
pub record Moment : Type 0 where
  pub now : ℕ
  pub later : ℕ
  pub fetch : ParsedUrl → Result (ℕ × Result (List Jwk))

abbrev pub control_bytes : Bytes
control_bytes = 0 ∷ 13 ∷ 10 ∷ 9 ∷ []

-- big.Int.SetBytes, behind the bytes that were read
unfoldable pub set_bytes : ℕ → Bytes → ℕ
set_bytes n [] = n
set_bytes n (c ∷ s) = set_bytes (n * 256 + c) s

-- const jwksCacheTTL
abbrev pub jwks_cache_ttl : ℕ
jwks_cache_ttl = 300_000_000_000

module _ (enc : Encoding) where
  -- buildJWKSURL
  unfoldable pub build_jwks_url : Bytes → Bytes → Result ParsedUrl
  build_jwks_url keycloak_base_url tenant_id = do
    require (not (is_empty (trim_space keycloak_base_url)))
        (leaf (codes "auth: keycloak base URL is empty"))
    require (not (contains_any keycloak_base_url control_bytes))
        (leaf (codes "auth: keycloak base URL contains invalid control characters"))
    require (not (is_empty (trim_space tenant_id))) (leaf (codes "auth: tenant ID is empty"))
    require (not (contains_any tenant_id control_bytes))
        (leaf (codes "auth: tenant ID contains invalid control characters"))
    parsed ←
        or_wrap (codes "auth: invalid keycloak base URL: ")
          (enc.parse_url (trim_space keycloak_base_url))
    require (not (is_empty parsed.scheme || is_empty parsed.host))
        (leaf (codes "auth: keycloak base URL must be absolute and include a host"))
    require (eqb parsed.scheme (codes "http") || eqb parsed.scheme (codes "https")) (
        leaf (
          codes "auth: keycloak base URL scheme "
          ++ (quote parsed.scheme ++ codes " is not allowed")))
    require (not parsed.has_user)
        (leaf (codes "auth: keycloak base URL must not contain user info"))
    require (is_empty parsed.raw_query && is_empty parsed.fragment)
        (leaf (codes "auth: keycloak base URL must not include query or fragment"))
    let tenant = trim_space tenant_id
    let behind = codes "/protocol/openid-connect/certs"
    ok (record parsed {
      path = trim_right_slash parsed.path ++ (codes "/realms/" ++ (tenant ++ behind));
      raw_path =
          trim_right_slash parsed.raw_path
          ++ (codes "/realms/" ++ (enc.path_escape tenant ++ behind));
    })

  -- parseRSAPublicKey
  unfoldable pub parse_rsa_public_key : Bytes → Bytes → Result PublicKey
  unfolding set_bytes
  parse_rsa_public_key n e = do
    n_bytes ← or_wrap (codes "auth: decode RSA modulus: ") (enc.decode_base64 n)
    e_bytes ← or_wrap (codes "auth: decode RSA exponent: ") (enc.decode_base64 e)
    ok (record { n = set_bytes 0 n_bytes; e = set_bytes 0 e_bytes % 2 ^ 64 })

  abbrev pub add_key : Bytes → Result PublicKey → Assoc PublicKey → Assoc PublicKey
  add_key kid (ok k) keys = insert kid k keys
  add_key kid (err e) keys = keys

  -- The loop over the keys of the response.
  unfoldable pub select_keys : List Jwk → Assoc PublicKey → Assoc PublicKey
  unfolding parse_rsa_public_key
  select_keys [] keys = keys
  select_keys (k ∷ ks) keys =
      if eqb k.kty (codes "RSA") && eqb k.use_for (codes "sig")
      then select_keys ks (add_key k.kid (parse_rsa_public_key k.n k.e) keys)
      else select_keys ks keys

  -- The answer of the endpoint, as keys.
  abbrev pub keys_of_response : Bytes → Result (ℕ × Result (List Jwk)) → Result (Assoc PublicKey)
  keys_of_response tenant_id answer =
      or_wrap (codes "auth: fetch JWKS for tenant " ++ (quote tenant_id ++ codes ": ")) answer
      >>= λ resp.
          require (resp.0 == 200) (
            leaf (
              codes "auth: JWKS endpoint returned "
              ++ (itoa resp.0 ++ (codes " for tenant " ++ quote tenant_id))))
          >>= λ _.
              or_wrap (codes "auth: decode JWKS for tenant " ++ (quote tenant_id ++ codes ": "))
                resp.1
              >>= λ jwks. ok (select_keys jwks [])

  -- The branch without a live entry; http.NewRequestWithContext accepts the built URL.
  unfoldable pub refresh : Bytes → Moment → Bytes → Result (Assoc PublicKey)
  unfolding select_keys
  refresh keycloak_base_url m tenant_id =
      build_jwks_url keycloak_base_url tenant_id >>= λ url. keys_of_response tenant_id (m.fetch url)

  abbrev pub stored :
      Moment → Bytes → Cache → Result (Assoc PublicKey) → Result (Assoc PublicKey) × Cache
  stored m tenant_id cache (err e) = (err e, cache)
  stored m tenant_id cache (ok keys) = (
    ok keys,
    insert tenant_id (record { keys = keys; expires_at = m.later + jwks_cache_ttl }) cache,
  )

  abbrev pub live : Moment → Option CacheEntry → Option (Assoc PublicKey)
  live m none = none
  live m (some entry) = if ltb m.now entry.expires_at then some entry.keys else none

  -- fetchJWKS
  unfoldable pub fetch_jwks : Bytes → Moment → Bytes → Cache → Result (Assoc PublicKey) × Cache
  fetch_jwks keycloak_base_url m tenant_id cache = elim (live m (lookup tenant_id cache)) [
    | some keys ↦ (ok keys, cache)
    | none ↦ stored m tenant_id cache (refresh keycloak_base_url m tenant_id)
  ]
