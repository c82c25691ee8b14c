-- ===== src/Http/Execute/Guard.antt =====
-- What a request that leaves the HTTP executor has passed, and what it carries.
use mathlib.Core.Path.{subst}
use agenthub_skill_runtime.Base.{
  ◌≡◌, ◌≢◌, refl, sym, ◌∙◌, ◌⊎◌, inl, inr, true, false, not, ◌&&◌, ◌||◌, [], ◌∷◌, ◌++◌, some, Bytes,
  codes, is_empty, eqb, eqb→eq, has_prefix, has_prefix→append, trim_right_slash, equal_fold, arith,
  if◌then◌else◌, Bool-cases, append_assoc,
}
use agenthub_skill_runtime.Base.Assoc.{Assoc, lookup-insert_self}
use agenthub_skill_runtime.Executor.{Result, ok, err, ExecutionContext}
use agenthub_skill_runtime.Http.Ssrf.{Syntax}
use agenthub_skill_runtime.Http.Config.{HttpConfig}
use agenthub_skill_runtime.Http.Execute.Timeout.{IsTimeout, timeout_of-IsTimeout}
use agenthub_skill_runtime.Http.Execute.{
  Codec, HttpToolExecutor, Request, rendered_url, is_trusted_backend, validator, guard_url, blocked,
  build_request, timeout_of, canonical, header_get, with_authorization,
}

-- The URL is the trusted base itself or lies below it, behind a slash.
abbrev pub IsBelow : Bytes → Bytes → Type 0
IsBelow base url = (url ≡ base) ⊎ ((rest : Bytes) × (url ≡ base ++ (b'/' ∷ rest)))

module _ (codec : Codec) (syn : Syntax) where
  trusted-IsBelow :
      (e : HttpToolExecutor) (url : Bytes)
      → is_trusted_backend codec syn e url ≡ true
      → (trim_right_slash e.backend_base_url ≢ [])
        × IsBelow (trim_right_slash e.backend_base_url) url
  unfolding is_trusted_backend
  trusted-IsBelow e url h =
      (ground arith, below (trim_right_slash e.backend_base_url) (ground arith))
    where
      under : (base : Bytes) → (r : Bytes) × (url ≡ (base ++ codes "/") ++ r) → IsBelow base url
      under base (r, p) = inr (r, p ∙ append_assoc base (codes "/") r)

      below :
          (base : Bytes)
          → (has_prefix url (base ++ codes "/") || eqb url base) ≡ true
          → IsBelow base url
      below base q = elim (Bool-cases (has_prefix url (base ++ codes "/"))) [
        | inl p ↦ under base (has_prefix→append url (base ++ codes "/") p)
        | inr n ↦ inl (eqb→eq url base (ground arith))
      ]

  abbrev pub IsAllowed : HttpToolExecutor → Bytes → Type 0
  IsAllowed e url =
      (validator codec syn e url ≡ ok tt)
      ⊎ ((trim_right_slash e.backend_base_url ≢ [])
          × IsBelow (trim_right_slash e.backend_base_url) url)

  blocked-eq-ok : (r : Result (Unit {0})) → blocked codec syn r ≡ ok tt → r ≡ ok tt
  blocked-eq-ok (ok tt) h = refl
  blocked-eq-ok (err x) h = absurd (cc)

  guard_url-IsAllowed :
      (e : HttpToolExecutor) (url : Bytes) → guard_url codec syn e url ≡ ok tt → IsAllowed e url
  guard_url-IsAllowed e url h = elim (Bool-cases (is_trusted_backend codec syn e url)) [
    | inl t ↦ inr (trusted-IsBelow e url t)
    | inr n ↦
        inl (blocked-eq-ok (validator codec syn e url) (unfold guard_url in rw (n, guard_url) at h))
  ]

  -- Every request that is built has the rendered URL, which the validator has accepted or which is
  -- the configured backend base or below it behind a slash. Its timeout is 30 seconds where none is
  -- configured, and else the configured seconds, positive up to 9223372036 of them; of more the
  -- nanoseconds are what an int64 keeps of them, which can be negative.
  pub build_request-IsAllowed :
      (e : HttpToolExecutor) (ec : ExecutionContext) (cfg : HttpConfig) (req : Request)
      → build_request codec syn e ec cfg ≡ ok req
      → (req.url ≡ rendered_url codec syn e cfg ec.input)
        × IsAllowed e req.url
        × IsTimeout cfg.timeout_seconds req.timeout
  unfolding build_request
  build_request-IsAllowed e ec cfg req h =
      let url : req.url ≡ rendered_url codec syn e cfg ec.input = ground arith in
      let guarded : guard_url codec syn e (rendered_url codec syn e cfg ec.input) ≡ ok tt =
        ground arith in
      (
        url,
        subst (λ s. IsAllowed e s) (sym url)
            (guard_url-IsAllowed e (rendered_url codec syn e cfg ec.input) guarded),
        subst (λ t. IsTimeout cfg.timeout_seconds t) {x = timeout_of codec syn cfg.timeout_seconds}
            (ground arith) (timeout_of-IsTimeout codec syn cfg.timeout_seconds),
      )

  with_authorization_token :
      (cfg : HttpConfig) (token token' : Bytes)
      → cfg.use_caller_token ≡ false
      → (h : Assoc Bytes)
      → with_authorization codec syn cfg token h ≡ with_authorization codec syn cfg token' h
  unfolding with_authorization
  with_authorization_token cfg token token' e h = ground arith

  -- A tool that does not ask for the caller's token sends nothing that depends on it: with any two
  -- tokens the same request is built, or the same error returned.
  pub build_request_token :
      (e : HttpToolExecutor) (ec : ExecutionContext) (cfg : HttpConfig) (token : Bytes)
      → cfg.use_caller_token ≡ false
      → build_request codec syn e (record ec { caller_token = token }) cfg
        ≡ build_request codec syn e ec cfg
  unfolding build_request
  build_request_token e ec cfg token h = simp (with_authorization_token cfg token ec.caller_token h)

  -- The Authorization header: the caller's token where the tool asks for it and there is one, else
  -- the configured bearer or basic token, else what the headers had.
  pub authorization :
      (cfg : HttpConfig) (token : Bytes) (h : Assoc Bytes)
      → header_get (codes "Authorization") (with_authorization codec syn cfg token h) ≡ (
          if cfg.use_caller_token && not (is_empty token)
          then some (codes "Bearer " ++ token)
          else if equal_fold cfg.auth_type (codes "bearer") && not (is_empty cfg.auth_token)
          then some (codes "Bearer " ++ cfg.auth_token)
          else if equal_fold cfg.auth_type (codes "basic") && not (is_empty cfg.auth_token)
          then some (codes "Basic " ++ cfg.auth_token)
          else header_get (codes "Authorization") h)
  unfolding with_authorization
  authorization cfg token h = ground (
    arith,
    lookup-insert_self (canonical (codes "Authorization")) (codes "Bearer " ++ token) h,
    lookup-insert_self (canonical (codes "Authorization")) (codes "Bearer " ++ cfg.auth_token) h,
    lookup-insert_self (canonical (codes "Authorization")) (codes "Basic " ++ cfg.auth_token) h,
  )
