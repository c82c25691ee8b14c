-- ===== src/Middleware/Auth/Verified.antt =====
-- Which requests Auth lets through.
use mathlib.Core.Path.{subst, subst₂}
use agenthub_skill_runtime.Base.{
  ◌+◌, ◌<◌, ℕ, zero, suc, ◌≡◌, sym, ◌⊎◌, inl, inr, Bool, true, List, [], ◌∷◌, ◌++◌, some, Bytes,
  codes, is_empty, eqb, has_prefix, has_prefix→append, trim_prefix, trim_prefix-append, Any, here,
  there, arith, Bool-cases, Option-cases,
}
use agenthub_skill_runtime.Base.Assoc.{Assoc, lookup}
use agenthub_skill_runtime.Executor.{Object, field?, as_string, Result, ok, Result-cases}
use agenthub_skill_runtime.Middleware.Jwks.{PublicKey, Cache, Encoding, Moment, jwks_cache_ttl}
use agenthub_skill_runtime.Middleware.Jwks.Genuine.{IsGenuine, IsTrusted, fetch_jwks-IsTrusted}
use agenthub_skill_runtime.Middleware.Auth.{
  of_claims, extract_tenant_id, Header, Jwt, nth_key, key_for, Identity, next, text_of, auth,
}
use agenthub_skill_runtime.Middleware.Auth.Realm.{IsNamed, extract_tenant_id-IsNamed}

-- The key is a value of the map.
abbrev pub IsAmong : PublicKey → Assoc PublicKey → Type 0
IsAmong k keys = Any (λ (p : Bytes × PublicKey). p.1 ≡ k) keys

lookup-IsAmong :
    (kid : Bytes) (k : PublicKey) (keys : Assoc PublicKey)
    → lookup kid keys ≡ some k
    → IsAmong k keys
unfolding lookup
lookup-IsAmong kid k [] h = absurd (ground arith)
lookup-IsAmong kid k ((j, v) ∷ keys) h = elim (Bool-cases (eqb j kid)) [
  | inl same ↦ here (ground arith)
  | inr other ↦ there (lookup-IsAmong kid k keys (ground arith))
]

nth_key-IsAmong :
    (n : ℕ) (k : PublicKey) (keys : Assoc PublicKey) → nth_key n keys ≡ some k → IsAmong k keys
unfolding nth_key
nth_key-IsAmong n k [] h = absurd (ground arith)
nth_key-IsAmong n k ((j, v) ∷ []) h = here (ground arith)
nth_key-IsAmong zero k ((j, v) ∷ p ∷ keys) h = here (ground arith)
nth_key-IsAmong (suc n) k ((j, v) ∷ p ∷ keys) h = there (nth_key-IsAmong n k (p ∷ keys) h)

key_for-IsAmong :
    (start : ℕ) (keys : Assoc PublicKey) (h : Header) (k : PublicKey)
    → key_for start keys h ≡ ok k
    → (h.is_rsa ≡ true) × IsAmong k keys
unfolding key_for
key_for-IsAmong start keys h k e = elim (Bool-cases (is_empty h.kid)) [
  | inl no_kid ↦ elim (Option-cases (nth_key start keys)) [
    | inl none_there ↦ absurd (ground arith)
    | inr (j, found) ↦ (ground arith, nth_key-IsAmong start k keys (ground arith))
  ]
  | inr with_kid ↦ elim (Option-cases (lookup h.kid keys)) [
    | inl none_there ↦ absurd (ground arith)
    | inr (j, found) ↦ (ground arith, lookup-IsAmong h.kid k keys (ground arith))
  ]
]

-- A token's signature verifies under a key. What jwt.Parse documents: it returns claims only for a
-- token whose header's algorithm is among the valid methods, and whose signature verifies under the
-- key that the key function gives for that header.
abbrev pub IsVerifying : Jwt → (Bytes → PublicKey → Bool) → Type 0
IsVerifying jwt verifies =
    (methods : List Bytes) (token : Bytes) (key_of : Header → Result PublicKey) (claims : Object)
    → jwt.parse methods token key_of ≡ ok claims
    → (h : Header) × (k : PublicKey) × (key_of h ≡ ok k)
      × (verifies token k ≡ true)
      × Any (λ method. method ≡ h.alg) methods

module _ (enc : Encoding) (jwt : Jwt) (verifies : Bytes → PublicKey → Bool)
    (keycloak_base_url : Bytes) (m : Moment) where
  -- A token and its tenant: it came as a bearer token, its issuer names the tenant, and its
  -- signature verifies under a signing key that this tenant's endpoint has published.
  pub record IsVerified (auth_header tenant_id token : Bytes) : Type 0 where
    pub bearer : auth_header ≡ codes "Bearer " ++ token
    pub unverified : Object
    pub parsed : jwt.parse_unverified token ≡ ok unverified
    pub named : IsNamed (text_of (as_string (field? unverified (codes "iss")))) tenant_id
    pub keys : Assoc PublicKey
    pub fetched : Moment
    pub genuine : IsGenuine enc keycloak_base_url tenant_id fetched keys
    pub fresh : (fetched ≡ m) ⊎ (m.now < fetched.later + jwks_cache_ttl)
    pub header : Header
    pub rs256 : header.alg ≡ codes "RS256"
    pub key : PublicKey
    pub among : IsAmong key keys
    pub signed : verifies token key ≡ true

  only_rs256 :
      (h : Header) → Any (λ method. method ≡ h.alg) (codes "RS256" ∷ []) → h.alg ≡ codes "RS256"
  only_rs256 h (here e) = sym e
  only_rs256 h (there i) = elim i [ ]

  of_keys :
      (auth_header tenant_id token : Bytes) (unverified claims : Object) (keys : Assoc PublicKey)
      (fetched : Moment)
      → IsVerifying jwt verifies
      → auth_header ≡ codes "Bearer " ++ token
      → jwt.parse_unverified token ≡ ok unverified
      → extract_tenant_id (text_of (as_string (field? unverified (codes "iss")))) ≡ ok tenant_id
      → IsGenuine enc keycloak_base_url tenant_id fetched keys
      → (fetched ≡ m) ⊎ (m.now < fetched.later + jwks_cache_ttl)
      → jwt.parse (codes "RS256" ∷ []) token (key_for jwt.start keys) ≡ ok claims
      → IsVerified auth_header tenant_id token
  of_keys auth_header tenant_id token unverified claims keys fetched library b q q2 genuine fresh
        q3 =
      let (header, key, chosen, signed, method) =
        library (codes "RS256" ∷ []) token (key_for jwt.start keys) claims q3 in
      record {
        bearer = b;
        unverified = unverified;
        parsed = q;
        named =
            extract_tenant_id-IsNamed (text_of (as_string (field? unverified (codes "iss"))))
              tenant_id q2;
        keys = keys;
        fetched = fetched;
        genuine = genuine;
        fresh = fresh;
        header = header;
        rs256 = only_rs256 header method;
        key = key;
        among = (key_for-IsAmong jwt.start keys header key chosen).1;
        signed = signed;
      }

  of_token :
      (auth_header token : Bytes) (cache : Cache) (id : Identity)
      → IsVerifying jwt verifies
      → IsTrusted enc keycloak_base_url cache
      → auth_header ≡ codes "Bearer " ++ token
      → (of_claims enc jwt keycloak_base_url m token cache (jwt.parse_unverified token)).0 ≡ next id
      → IsVerified auth_header id.tenant_id id.raw_token
  of_token auth_header token cache id library trusted b h =
      elim (Result-cases (jwt.parse_unverified token)) [
        | inr (e, q) ↦ absurd (ground arith)
        | inl (unverified, q) ↦
            elim (Result-cases
              (extract_tenant_id (text_of (as_string (field? unverified (codes "iss")))))) [
                | inr (e, q2) ↦ absurd (ground arith)
                | inl (tenant, q2) ↦
                    elim (fetch_jwks-IsTrusted enc keycloak_base_url m tenant cache trusted).0 [
                      | inl (e, q3) ↦ absurd (ground arith)
                      | inr (keys, fetched, q3, genuine, fresh) ↦
                          elim (Result-cases
                            (jwt.parse (codes "RS256" ∷ []) token (key_for jwt.start keys))) [
                              | inr (e, q4) ↦ absurd (ground arith)
                              | inl (claims, q4) ↦
                                  subst₂ (IsVerified auth_header) {x = tenant} (ground arith)
                                    (ground arith)
                                    (of_keys auth_header tenant token unverified claims keys fetched
                                      library b q q2 genuine fresh q4)
                            ]
                    ]
              ]
      ]

  -- If the JWT library keeps what it documents and the cache holds only keys that were published by
  -- the endpoint of their tenant, then the next handler is called only for a bearer token whose issuer
  -- names the tenant put into the context, and whose RS256 signature verifies under one of the keys
  -- that this very tenant's endpoint has published.
  pub auth-IsVerified :
      (auth_header : Bytes) (cache : Cache) (id : Identity)
      → IsVerifying jwt verifies
      → IsTrusted enc keycloak_base_url cache
      → (auth enc jwt keycloak_base_url m auth_header cache).0 ≡ next id
      → IsVerified auth_header id.tenant_id id.raw_token
  unfolding auth
  auth-IsVerified auth_header cache id library trusted h =
      elim (Bool-cases (has_prefix auth_header (codes "Bearer "))) [
        | inr other ↦ absurd (ground arith)
        | inl bearer ↦
            let (token, e) = has_prefix→append auth_header (codes "Bearer ") bearer in
            let same : trim_prefix auth_header (codes "Bearer ") ≡ token =
              rw e (trim_prefix-append (codes "Bearer ") token) in
            of_token auth_header token cache id library trusted e (
              subst
                (λ (t : Bytes).
                  (of_claims enc jwt keycloak_base_url m t cache (jwt.parse_unverified t)).0
                  ≡ next id)
                same (ground arith))
      ]
