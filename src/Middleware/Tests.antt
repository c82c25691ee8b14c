-- ===== src/Middleware/Tests.antt =====
-- The key cache and the authentication at concrete tokens.
use agenthub_skill_runtime.Base.{
  not, ◌&&◌, ◌||◌, is_empty, any, trim_space, ℕ, ◌≡◌, ◌≢◌, refl, Bool, true, false, [], ◌∷◌, ◌++◌,
  Option, none, some, Bytes, codes, Any, here, eqb, eqb→eq, inl, inr, if◌then◌else◌, arith,
}
use agenthub_skill_runtime.Base.Assoc.{Assoc, lookup}
use agenthub_skill_runtime.Executor.{ok}
use agenthub_skill_runtime.Middleware.Jwks.{
  ParsedUrl, PublicKey, Jwk, Encoding, Moment, refresh, fetch_jwks,
}
use agenthub_skill_runtime.Middleware.Jwks.Genuine.{IsTrusted, IsFresh, fetch_jwks-IsTrusted}
use agenthub_skill_runtime.Middleware.Jwks.Interleaved.{
  Phase, looking, fetching, storing, Call, World, miss, fetched, arrive, move, Reach,
  here as start_here, next as next_step,
}
use agenthub_skill_runtime.Middleware.Jwks.Shared.{IsSound, started, Reach-IsSound}
use agenthub_skill_runtime.Middleware.Auth.{next}
use agenthub_skill_runtime.Middleware.Chain.{Incoming, Handler, panicked}
use agenthub_skill_runtime.Middleware.Sample.{
  encoding, moment, no_entries, jwt, id, signed, documented, admitted,
}
use agenthub_skill_runtime.Middleware.Auth.Verified.{IsVerified, auth-IsVerified}

fetch_jwks-IsTrusted_example :
    IsFresh encoding
      (codes "https://idp")
      moment
      (codes "acme")
      (fetch_jwks encoding (codes "https://idp") moment (codes "acme") []).0
    × IsTrusted encoding
        (codes "https://idp")
        (fetch_jwks encoding (codes "https://idp") moment (codes "acme") []).1
fetch_jwks-IsTrusted_example =
    fetch_jwks-IsTrusted encoding (codes "https://idp") moment (codes "acme") [] no_entries

-- Two calls for one tenant: both have missed, and one has fetched its keys.
abbrev call_in : Phase → Call
call_in phase = record { tenant_id = codes "acme"; moment = moment; phase = phase }

abbrev fetched_keys : Assoc PublicKey
fetched_keys = (codes "k1", record { n = 3; e = 65537 }) ∷ []

abbrev world_of : Phase → Phase → World
world_of p q = record { cache = []; calls = call_in p ∷ call_in q ∷ [] }

refreshed : refresh encoding (codes "https://idp") moment (codes "acme") ≡ ok fetched_keys
unfolding refresh agenthub_skill_runtime.Middleware.Jwks.build_jwks_url trim_space
    agenthub_skill_runtime.Base.contains_any eqb agenthub_skill_runtime.Base.Assoc.insert
refreshed = refl

two_calls : Reach encoding (codes "https://idp") started (world_of (storing fetched_keys) fetching)
unfolding lookup
two_calls =
    next_step
      (next_step
        (next_step
          (next_step (next_step start_here (arrive started (codes "acme") moment))
            (arrive _ (codes "acme") moment))
          (move (world_of looking looking) [] (call_in looking ∷ []) (call_in looking) _ [] refl
            (miss refl refl)))
        (move (world_of fetching looking) (call_in fetching ∷ []) [] (call_in looking) _ [] refl
          (miss refl refl)))
      (move (world_of fetching fetching) [] (call_in fetching ∷ []) (call_in fetching) _ [] refl
        (fetched fetched_keys refl refreshed))

Reach-IsSound_example :
    IsSound encoding (codes "https://idp") (world_of (storing fetched_keys) fetching)
Reach-IsSound_example =
    Reach-IsSound encoding (codes "https://idp") (world_of (storing fetched_keys) fetching)
      two_calls

auth-IsVerified_example :
    IsVerified encoding jwt signed
      (codes "https://idp")
      moment
      (codes "Bearer t.o.k")
      (codes "acme")
      (codes "t.o.k")
auth-IsVerified_example =
    auth-IsVerified encoding jwt signed (codes "https://idp") moment (codes "Bearer t.o.k") [] id
      documented no_entries admitted

abbrev page_request : Incoming
page_request = record {
  method = codes "GET";
  origin = codes "https://app";
  request_id = [];
  context_request_id = none;
  identity = none;
}

-- A handler that panics.
abbrev broken : Handler
broken r h = panicked h
