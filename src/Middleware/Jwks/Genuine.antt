-- ===== src/Middleware/Jwks/Genuine.antt =====
-- Where the keys of a tenant come from.
use mathlib.Core.Path.{subst}
use agenthub_skill_runtime.Base.{
  ◌≡◌, refl, ◌+◌, ◌<◌, [], some, Bytes, eqb, eqb→eq, arith, Bool-cases, Option-cases, ◌⊎◌, inl, inr,
  List, ltb, codes, ◌++◌, trim_space, trim_right_slash,
}
use agenthub_skill_runtime.Base.Assoc.{Assoc, lookup, insert, lookup-insert}
use agenthub_skill_runtime.Executor.{Error, Result, ok, err, Result-cases}
use agenthub_skill_runtime.Middleware.Jwks.{
  ParsedUrl, PublicKey, Jwk, CacheEntry, Cache, Encoding, Moment, jwks_cache_ttl, build_jwks_url,
  select_keys, refresh, stored, fetch_jwks,
}

module _ (enc : Encoding) (keycloak_base_url : Bytes) where
  -- The configured address with the tenant's path behind its own.
  pub record IsEndpoint (tenant_id : Bytes) (url : ParsedUrl) : Type 0 where
    pub base : ParsedUrl
    pub parsed : enc.parse_url (trim_space keycloak_base_url) ≡ ok base
    pub scheme : (base.scheme ≡ codes "http") ⊎ (base.scheme ≡ codes "https")
    pub extended : url ≡ record base {
      path =
          trim_right_slash base.path
          ++ (codes "/realms/" ++ (trim_space tenant_id ++ codes "/protocol/openid-connect/certs"));
      raw_path =
          trim_right_slash base.raw_path
          ++ (codes "/realms/"
              ++ (enc.path_escape (trim_space tenant_id)
                  ++ codes "/protocol/openid-connect/certs"));
    }

  build_jwks_url-IsEndpoint :
      (t : Bytes) (url : ParsedUrl)
      → build_jwks_url enc keycloak_base_url t ≡ ok url
      → IsEndpoint t url
  unfolding build_jwks_url
  build_jwks_url-IsEndpoint t url h =
      elim (Result-cases (enc.parse_url (trim_space keycloak_base_url))) [
        | inr (e, q) ↦ absurd (ground arith)
        | inl (base, q) ↦ record {
          base = base;
          parsed = q;
          scheme = elim (Bool-cases (eqb base.scheme (codes "http"))) [
            | inl plain ↦ inl (eqb→eq base.scheme (codes "http") plain)
            | inr other ↦ inr (eqb→eq base.scheme (codes "https") (ground arith))
          ];
          extended = ground arith;
        }
      ]

  -- The keys are the RSA signing keys of one answer 200 of the tenant's own endpoint, at the moment `m`.
  pub record IsGenuine (tenant_id : Bytes) (m : Moment) (keys : Assoc PublicKey) : Type 0 where
    pub url : ParsedUrl
    pub jwks : List Jwk
    pub endpoint : build_jwks_url enc keycloak_base_url tenant_id ≡ ok url
    pub located : IsEndpoint tenant_id url
    pub answered : m.fetch url ≡ ok (200, ok jwks)
    pub selected : keys ≡ select_keys enc jwks []

  -- Every entry of the cache holds genuine keys and expires five minutes behind their fetch.
  abbrev pub IsTrusted : Cache → Type 0
  IsTrusted cache =
      (t : Bytes) (entry : CacheEntry)
      → lookup t cache ≡ some entry
      → (m : Moment) × IsGenuine t m entry.keys × (entry.expires_at ≡ m.later + jwks_cache_ttl)

  pub refresh-IsGenuine :
      (m : Moment) (t : Bytes) (keys : Assoc PublicKey)
      → refresh enc keycloak_base_url m t ≡ ok keys
      → IsGenuine t m keys
  unfolding refresh
  refresh-IsGenuine m t keys h = elim (Result-cases (build_jwks_url enc keycloak_base_url t)) [
    | inr (e, q) ↦ absurd (ground arith)
    | inl (url, q) ↦ elim (Result-cases (m.fetch url)) [
      | inr (e, q2) ↦ absurd (ground arith)
      | inl ((status, body), q2) ↦ elim (Result-cases body) [
        | inr (e, q3) ↦ absurd (ground arith)
        | inl (jwks, q3) ↦ record {
          url = url;
          jwks = jwks;
          endpoint = q;
          located = build_jwks_url-IsEndpoint t url q;
          answered = ground arith;
          selected = ground arith;
        }
      ]
    ]
  ]

  -- An error, or keys that the tenant's endpoint published now or less than five minutes ago.
  abbrev pub IsFresh : Moment → Bytes → Result (Assoc PublicKey) → Type 0
  IsFresh m t r =
      ((e : Error) × (r ≡ err e))
      ⊎ ((keys : Assoc PublicKey) × (at : Moment) × (r ≡ ok keys)
          × IsGenuine t at keys
          × ((at ≡ m) ⊎ (m.now < at.later + jwks_cache_ttl)))

  pub insert-IsTrusted :
      (m : Moment) (t : Bytes) (keys : Assoc PublicKey) (cache : Cache)
      → IsTrusted cache
      → IsGenuine t m keys
      → IsTrusted (insert t (record { keys = keys; expires_at = m.later + jwks_cache_ttl }) cache)
  insert-IsTrusted m t keys cache trusted genuine j entry found = elim (Bool-cases (eqb t j)) [
    | inl same ↦
        let e : record { keys = keys; expires_at = m.later + jwks_cache_ttl } ≡ entry = ground (
          arith,
          lookup-insert t j (record { keys = keys; expires_at = m.later + jwks_cache_ttl }) cache,
        ) in
        (
          m,
          subst (λ (k : Bytes). IsGenuine k m entry.keys) (eqb→eq t j same)
              (subst (λ (x : CacheEntry). IsGenuine t m x.keys) e genuine),
          ground arith,
        )
    | inr other ↦ trusted j entry (
        ground (
          arith,
          lookup-insert t j (record { keys = keys; expires_at = m.later + jwks_cache_ttl }) cache,
        ))
  ]

  refreshed :
      (m : Moment) (t : Bytes) (cache : Cache)
      → IsTrusted cache
      → (let (r, cache') = stored enc m t cache (refresh enc keycloak_base_url m t) in
          IsFresh m t r × IsTrusted cache')
  refreshed m t cache trusted = elim (Result-cases (refresh enc keycloak_base_url m t)) [
    | inr (e, q) ↦ rw q (inl (e, refl), trusted)
    | inl (keys, q) ↦
        let genuine = refresh-IsGenuine m t keys q in
        rw q
          (inr (keys, m, refl, genuine, inl refl), insert-IsTrusted m t keys cache trusted genuine)
  ]

  -- With a trusted cache, the keys that are returned for a tenant were published by the tenant's own
  -- endpoint, now or at a fetch since which five minutes have not passed; and the cache stays trusted.
  pub fetch_jwks-IsTrusted :
      (m : Moment) (t : Bytes) (cache : Cache)
      → IsTrusted cache
      → (let (r, cache') = fetch_jwks enc keycloak_base_url m t cache in
          IsFresh m t r × IsTrusted cache')
  unfolding fetch_jwks
  fetch_jwks-IsTrusted m t cache trusted = elim (Option-cases (lookup t cache)) [
    | inl none_cached ↦ rw (none_cached, fetch_jwks) (refreshed m t cache trusted)
    | inr (entry, found) ↦ elim (Bool-cases (ltb m.now entry.expires_at)) [
      | inr expired ↦ rw (found, expired, fetch_jwks) (refreshed m t cache trusted)
      | inl valid ↦
          let (at, genuine, at_expiry) = trusted t entry found in
          rw (found, valid, fetch_jwks)
            (inr (entry.keys, at, refl, genuine, inr (ground arith)), trusted)
    ]
  ]
