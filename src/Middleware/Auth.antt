-- ===== src/Middleware/Auth.antt =====
-- internal/middleware/auth.go: extractTenantID and Auth. The JWT library is a parameter.
pub mod Realm
pub mod Verified
use agenthub_skill_runtime.Base.{
  ℕ, zero, suc, Bool, true, false, not, ◌&&◌, ◌||◌, List, [], ◌∷◌, ◌++◌, Option, none, some, Bytes,
  codes, is_empty, has_prefix, cut_prefix, trim_prefix, ◌==◌, if◌then◌else◌,
}
use agenthub_skill_runtime.Base.Assoc.{Assoc, lookup}
use agenthub_skill_runtime.Executor.{
  Object, field?, as_string, Error, leaf, quote, Result, ok, err, ◌>>=◌,
}
use agenthub_skill_runtime.Middleware.Jwks.{PublicKey, Cache, Encoding, Moment, fetch_jwks}

-- [^/]* at the start of a text
unfoldable pub segment : Bytes → Bytes
segment [] = []
segment (c ∷ s) = let rest = segment s in if c == b'/' then [] else c ∷ rest

abbrev pub filled : Bytes → Option Bytes
filled [] = none
filled (c ∷ s) = some (c ∷ s)

abbrev pub realm_behind : Option Bytes → Option Bytes
realm_behind none = none
realm_behind (some rest) = filled (segment rest)

abbrev pub or_next : Option Bytes → Option Bytes → Option Bytes
or_next none next = next
or_next (some r) next = some r

-- The group of issuerTenantRe, /realms/([^/]+), at its leftmost match.
unfoldable pub find_realm : Bytes → Option Bytes
unfolding segment
find_realm [] = none
find_realm (c ∷ s) = or_next (realm_behind (cut_prefix (c ∷ s) (codes "/realms/"))) (find_realm s)

-- extractTenantID
unfoldable pub extract_tenant_id : Bytes → Result Bytes
extract_tenant_id issuer = elim (find_realm issuer) [
  | none ↦ err (leaf (codes "auth: cannot extract tenantID from issuer " ++ quote issuer))
  | some realm ↦ ok realm
]

-- The header of a token: whether its method is one of RSA, alg as it is printed, and kid as a string,
-- "" for any other.
pub record Header : Type 0 where
  pub is_rsa : Bool
  pub alg : Bytes
  pub kid : Bytes

-- github.com/golang-jwt: ParseUnverified, and Parse with the methods that are valid and the function
-- that gives the key for a header; a token that Parse returns without an error is valid. Go ranges
-- over a map from any of its entries: `start` is the one.
pub record Jwt : Type 0 where
  pub parse_unverified : Bytes → Result Object
  pub parse : List Bytes → Bytes → (Header → Result PublicKey) → Result Object
  pub start : ℕ

-- An entry of the map, counted from the first, the last one beyond the end.
unfoldable pub nth_key : ℕ → Assoc PublicKey → Option PublicKey
nth_key n [] = none
nth_key n ((kid, k) ∷ []) = some k
nth_key zero ((kid, k) ∷ more) = some k
nth_key (suc n) ((kid, k) ∷ p ∷ more) = nth_key n (p ∷ more)

abbrev pub or_error : Bytes → Option PublicKey → Result PublicKey
or_error message none = err (leaf message)
or_error message (some k) = ok k

-- The key function of Auth.
unfoldable pub key_for : ℕ → Assoc PublicKey → Header → Result PublicKey
unfolding nth_key
key_for start keys h =
    if not h.is_rsa
    then err (leaf (codes "auth: unexpected signing method: " ++ h.alg))
    else if is_empty h.kid
    then or_error (codes "auth: no keys available") (nth_key start keys)
    else or_error (codes "auth: unknown kid " ++ quote h.kid) (lookup h.kid keys)

-- What Auth puts into the context.
pub record Identity : Type 0 where
  pub tenant_id : Bytes
  pub claims : Object
  pub raw_token : Bytes

-- The answer 401 with a message, or the call of the next handler.
pub data Decision : Type 0 where
  unauthorized : Bytes → Decision
  next : Identity → Decision

abbrev pub text_of : Option Bytes → Bytes
text_of none = []
text_of (some s) = s

module _ (enc : Encoding) (jwt : Jwt) (keycloak_base_url : Bytes) (m : Moment) where
  abbrev pub decided : Bytes → Bytes → Result Object → Decision
  decided tenant_id token (err e) = unauthorized (codes "token validation failed")
  decided tenant_id token (ok claims) =
      next (record { tenant_id = tenant_id; claims = claims; raw_token = token })

  -- Behind the fetch: the verification of the token.
  abbrev pub verified : Bytes → Bytes → Result (Assoc PublicKey) × Cache → Decision × Cache
  verified tenant_id token (err e, cache) = (unauthorized (codes "failed to fetch JWKS"), cache)
  verified tenant_id token (ok keys, cache) = (
    decided tenant_id token (jwt.parse (codes "RS256" ∷ []) token (key_for jwt.start keys)),
    cache,
  )

  abbrev pub of_tenant : Bytes → Cache → Result Bytes → Decision × Cache
  of_tenant token cache (err e) =
      (unauthorized (codes "cannot resolve tenant from token issuer"), cache)
  of_tenant token cache (ok tenant_id) =
      verified tenant_id token (fetch_jwks enc keycloak_base_url m tenant_id cache)

  abbrev pub of_claims : Bytes → Cache → Result Object → Decision × Cache
  of_claims token cache (err e) = (unauthorized (codes "invalid token format"), cache)
  of_claims token cache (ok claims) =
      of_tenant token cache (extract_tenant_id (text_of (as_string (field? claims (codes "iss")))))

  -- Auth, on the value of the Authorization header, "" where there is none.
  unfoldable pub auth : Bytes → Cache → Decision × Cache
  auth auth_header cache =
      let token = trim_prefix auth_header (codes "Bearer ") in
      if is_empty auth_header || not (has_prefix auth_header (codes "Bearer "))
      then (unauthorized (codes "missing or invalid Authorization header"), cache)
      else of_claims token cache (jwt.parse_unverified token)
