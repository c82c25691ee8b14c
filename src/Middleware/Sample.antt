-- ===== src/Middleware/Sample.antt =====
-- Keys, a token and its library at concrete values, for the tests.
use agenthub_skill_runtime.Base.{
  ℕ, List, ◌≡◌, ◌≢◌, refl, Bool, true, false, [], ◌∷◌, ◌++◌, Option, none, some, Bytes, codes, Any,
  here, eqb, eqb→eq, inl, inr, if◌then◌else◌, arith,
}
use agenthub_skill_runtime.Base.Assoc.{Assoc, lookup}
use agenthub_skill_runtime.Executor.{
  Object, str, empty, entry, leaf, Result, ok, err, ◌>>=◌, Result-cases,
}
use agenthub_skill_runtime.Middleware.Jwks.{
  ParsedUrl, PublicKey, Jwk, Encoding, Moment, refresh, fetch_jwks,
}
use agenthub_skill_runtime.Middleware.Jwks.Genuine.{IsTrusted}
use agenthub_skill_runtime.Middleware.Auth.{Header, Jwt, Identity, auth, next, extract_tenant_id}
use agenthub_skill_runtime.Middleware.Auth.Verified.{IsVerifying}

abbrev pub encoding : Encoding
encoding = record {
  parse_url = λ s. ok (record {
    scheme = codes "https";
    host = codes "idp";
    has_user = false;
    path = [];
    raw_path = [];
    raw_query = [];
    fragment = [];
  });
  path_escape = λ s. s;
  decode_base64 = λ s. ok s;
}

abbrev pub jwk : Jwk
jwk = record {
  kid = codes "k1";
  kty = codes "RSA";
  use_for = codes "sig";
  n = 3 ∷ [];
  e = 1 ∷ 0 ∷ 1 ∷ [];
}

abbrev pub moment : Moment
moment = record { now = 1; later = 2; fetch = λ url. ok (200, ok (jwk ∷ [])) }

pub no_entries : IsTrusted encoding (codes "https://idp") []
unfolding lookup
no_entries t e found = absurd (ground arith)

abbrev pub claims : Object
claims = entry (codes "iss") (str (codes "https://idp/realms/acme")) empty

abbrev pub header : Header
header = record { is_rsa = true; alg = codes "RS256"; kid = codes "k1" }

abbrev pub accept : Result PublicKey → Result Object
accept (ok k) = ok claims
accept (err e) = err e

abbrev pub checked : List Bytes → Bytes → (Header → Result PublicKey) → Result Object
checked (m ∷ []) token key_of =
    if eqb m (codes "RS256") then accept (key_of header) else err (leaf (codes "no method"))
checked _ token key_of = err (leaf (codes "no method"))

-- A library that knows tokens of one header, all of them signed.
abbrev pub jwt : Jwt
jwt = record { parse_unverified = λ s. ok claims; parse = checked; start = 0 }

abbrev pub id : Identity
id = record { tenant_id = codes "acme"; claims = claims; raw_token = codes "t.o.k" }

-- Which tokens are signed: all of them, by every key.
abbrev pub signed : Bytes → PublicKey → Bool
signed token k = true

pub documented : IsVerifying jwt signed
documented (m ∷ []) token key_of claims' h = elim (Result-cases (key_of header)) [
  | inl (k, e) ↦ (header, k, e, refl, here (eqb→eq m (codes "RS256") (ground arith)))
  | inr (x, e) ↦ absurd (ground arith)
]
documented [] token key_of claims' h = absurd (ground arith)
documented (m ∷ n ∷ more) token key_of claims' h = absurd (ground arith)

pub admitted :
    (auth encoding jwt (codes "https://idp") moment (codes "Bearer t.o.k") []).0 ≡ next id
unfolding auth agenthub_skill_runtime.Base.has_prefix extract_tenant_id
    agenthub_skill_runtime.Middleware.Auth.find_realm agenthub_skill_runtime.Executor.as_string
    agenthub_skill_runtime.Executor.field? eqb agenthub_skill_runtime.Base.cut_prefix fetch_jwks
    lookup agenthub_skill_runtime.Middleware.Jwks.refresh
    agenthub_skill_runtime.Middleware.Jwks.build_jwks_url agenthub_skill_runtime.Base.trim_space
    agenthub_skill_runtime.Base.contains_any agenthub_skill_runtime.Middleware.Auth.key_for
    agenthub_skill_runtime.Base.Assoc.insert agenthub_skill_runtime.Base.trim_prefix
admitted = refl
