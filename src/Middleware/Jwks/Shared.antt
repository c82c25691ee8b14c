-- ===== src/Middleware/Jwks/Shared.antt =====
-- The cache of keys is trusted however the calls that share it interleave.
use mathlib.Core.Path.{subst}
use agenthub_skill_runtime.Base.{
  ◌≡◌, refl, inl, inr, List, [], ◌∷◌, ◌++◌, some, Bytes, All, All-append, ltb, Option-cases,
  Bool-cases, arith,
}
use agenthub_skill_runtime.Base.Assoc.{Assoc, lookup}
use agenthub_skill_runtime.Executor.{ok}
use agenthub_skill_runtime.Middleware.Jwks.{PublicKey, Cache, CacheEntry, Encoding, Moment, live}
use agenthub_skill_runtime.Middleware.Jwks.Genuine.{
  IsGenuine, IsTrusted, IsFresh, refresh-IsGenuine, insert-IsTrusted,
}
use agenthub_skill_runtime.Middleware.Jwks.Interleaved.{
  Phase, looking, fetching, storing, returned, Call, World, CallStep, hit, miss, failed, fetched,
  store, Step, arrive, move, Reach, here, next,
}

nothing_cached : (t : Bytes) (entry : CacheEntry) → lookup t [] ≡ some entry → ⊥
unfolding lookup
nothing_cached t entry found = ground arith

abbrev pub started : World
started = record { cache = []; calls = [] }

module _ (enc : Encoding) (keycloak_base_url : Bytes) where
  -- What a call holds: keys of its own tenant that are genuine, and a result that is fresh.
  abbrev pub PhaseHolds : Bytes → Moment → Phase → Type 0
  PhaseHolds t m looking = Unit
  PhaseHolds t m fetching = Unit
  PhaseHolds t m (storing keys) = IsGenuine enc keycloak_base_url t m keys
  PhaseHolds t m (returned r) = IsFresh enc keycloak_base_url m t r

  abbrev pub CallHolds : Call → Type 0
  CallHolds c = PhaseHolds c.tenant_id c.moment c.phase

  pub record IsSound (w : World) : Type 0 where
    pub trusted : IsTrusted enc keycloak_base_url w.cache
    pub hold : All CallHolds w.calls

  -- A live entry of a trusted cache is fresh.
  live-IsFresh :
      (m : Moment) (t : Bytes) (cache : Cache) (keys : Assoc PublicKey)
      → IsTrusted enc keycloak_base_url cache
      → live enc m (lookup t cache) ≡ some keys
      → IsFresh enc keycloak_base_url m t (ok keys)
  live-IsFresh m t cache keys trusted h = elim (Option-cases (lookup t cache)) [
    | inl absent ↦ absurd (ground arith)
    | inr (entry, found) ↦
        let (at, genuine, at_expiry) = trusted t entry found in
        elim (Bool-cases (ltb m.now entry.expires_at)) [
          | inr expired ↦ absurd (ground arith)
          | inl valid ↦
              let same : entry.keys ≡ keys = ground arith in
              subst (λ (k : Assoc PublicKey). IsFresh enc keycloak_base_url m t (ok k)) same
                (inr (entry.keys, at, refl, genuine, inr (ground arith)))
        ]
  ]

  CallStep-holds :
      {cache : Cache} {c : Call} {cache' : Cache} {d : Call}
      → CallStep enc keycloak_base_url cache c cache' d
      → IsTrusted enc keycloak_base_url cache
      → CallHolds c
      → IsTrusted enc keycloak_base_url cache' × CallHolds d
  CallStep-holds {cache} {c} (hit keys p l) trusted h =
      (trusted, live-IsFresh c.moment c.tenant_id cache keys trusted l)
  CallStep-holds (miss p l) trusted h = (trusted, tt)
  CallStep-holds (failed e p r) trusted h = (trusted, inl (e, refl))
  CallStep-holds {cache} {c} (fetched keys p r) trusted h =
      (trusted, refresh-IsGenuine enc keycloak_base_url c.moment c.tenant_id keys r)
  CallStep-holds {cache} {c} (store keys p) trusted h =
      let genuine = subst (PhaseHolds c.tenant_id c.moment) p h in
      (
        insert-IsTrusted enc keycloak_base_url c.moment c.tenant_id keys cache trusted genuine,
        inr (keys, c.moment, refl, genuine, inl refl),
      )

  All-middle :
      (before after : List Call) (c : Call)
      → All CallHolds (before ++ c ∷ after)
      → All CallHolds before × CallHolds c × All CallHolds after
  All-middle [] after c h = (tt, h.0, h.1)
  All-middle (b ∷ before) after c h =
      let (hb, hc, ha) = All-middle before after c h.1 in ((h.0, hb), hc, ha)

  Step-IsSound : {w u : World} → Step enc keycloak_base_url w u → IsSound w → IsSound u
  Step-IsSound (arrive w t m) s = record { trusted = s.trusted; hold = (tt, s.hold) }
  Step-IsSound (move w before after c d cache e st) s =
      let (hb, hc, ha) = All-middle before after c (rw e at s.hold) in
      let (trusted, hd) = CallStep-holds st s.trusted hc in
      record { trusted = trusted; hold = All-append CallHolds before (d ∷ after) hb (hd, ha) }

  reached : {w : World} → Reach enc keycloak_base_url started w → IsSound w
  reached here = record {
    trusted = λ t entry found. absurd (nothing_cached t entry found);
    hold = tt;
  }
  reached (next r st) = Step-IsSound st (reached r)

  -- However calls of fetchJWKS interleave that share the cache, from its start empty: a call never
  -- returns keys that were not published by its own tenant's endpoint, in the answer to itself or in
  -- one since which five minutes had not passed at its lookup; and every entry of the cache holds the
  -- keys that its tenant's endpoint has published.
  pub Reach-IsSound : (w : World) → Reach enc keycloak_base_url started w → IsSound w
  Reach-IsSound w r = reached r
