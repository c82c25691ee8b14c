-- ===== src/Middleware/Jwks/Interleaved.antt =====
-- internal/middleware/auth.go: calls of fetchJWKS that run at the same time. The mutex makes each
-- access to the cache one step; between its two accesses a call holds no lock, and others go on.
use agenthub_skill_runtime.Base.{◌+◌, ◌≡◌, List, ◌∷◌, ◌++◌, none, some, Bytes}
use agenthub_skill_runtime.Base.Assoc.{Assoc, lookup, insert}
use agenthub_skill_runtime.Executor.{Error, Result, ok, err}
use agenthub_skill_runtime.Middleware.Jwks.{
  PublicKey, Cache, Encoding, Moment, jwks_cache_ttl, live, refresh,
}

-- Where a call stands: before its lookup, behind a miss, with keys that are to be stored, returned.
pub data Phase : Type 0 where
  looking : Phase
  fetching : Phase
  storing : Assoc PublicKey → Phase
  returned : Result (Assoc PublicKey) → Phase

pub record Call : Type 0 where
  pub tenant_id : Bytes
  pub moment : Moment
  pub phase : Phase

abbrev pub moved : Call → Phase → Call
moved c phase = record c { phase = phase }

pub record World : Type 0 where
  pub cache : Cache
  pub calls : List Call

module _ (enc : Encoding) (keycloak_base_url : Bytes) where
  -- A call's own step, and the cache behind it.
  pub data CallStep (cache : Cache) (c : Call) : Cache → Call → Type 0 where
    hit :
        (keys : Assoc PublicKey)
        → c.phase ≡ looking
        → live enc c.moment (lookup c.tenant_id cache) ≡ some keys
        → CallStep cache c cache (moved c (returned (ok keys)))
    miss :
        c.phase ≡ looking
        → live enc c.moment (lookup c.tenant_id cache) ≡ none
        → CallStep cache c cache (moved c fetching)
    failed :
        (e : Error)
        → c.phase ≡ fetching
        → refresh enc keycloak_base_url c.moment c.tenant_id ≡ err e
        → CallStep cache c cache (moved c (returned (err e)))
    fetched :
        (keys : Assoc PublicKey)
        → c.phase ≡ fetching
        → refresh enc keycloak_base_url c.moment c.tenant_id ≡ ok keys
        → CallStep cache c cache (moved c (storing keys))
    store :
        (keys : Assoc PublicKey)
        → c.phase ≡ storing keys
        → CallStep cache c
            (insert c.tenant_id
              (record { keys = keys; expires_at = c.moment.later + jwks_cache_ttl })
              cache)
            (moved c (returned (ok keys)))

  -- A call arrives, or one of the calls makes a step.
  pub data Step : World → World → Type 0 where
    arrive :
        (w : World) (tenant_id : Bytes) (moment : Moment)
        → Step w (record w {
          calls = record { tenant_id = tenant_id; moment = moment; phase = looking } ∷ w.calls;
        })
    move :
        (w : World) (before after : List Call) (c d : Call) (cache : Cache)
        → w.calls ≡ before ++ c ∷ after
        → CallStep w.cache c cache d
        → Step w (record { cache = cache; calls = before ++ d ∷ after })

  pub data Reach (w : World) : World → Type 0 where
    here : Reach w w
    next : {v u : World} → Reach w v → Step v u → Reach w u
