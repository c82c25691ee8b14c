-- ===== src/Invoker/Breaker.antt =====
-- The circuit breaker over a sequence of calls of one ToolInvoker.
use agenthub_skill_runtime.Base.{
  ℕ, zero, suc, ◌+◌, ◌≤◌, ◌<◌, ◌≡◌, refl, ap, ◌∙◌, ◌↔◌, inl, inr, true, ◌&&◌, List, [], ◌∷◌, ◌++◌,
  none, arith, append-nil, ltb, leb, Bool-cases, All, length,
}
use agenthub_skill_runtime.Executor.{Error, circuit_open, err}
use agenthub_skill_runtime.Invoker.{
  Config, retry_delay_for_attempt, Environment, Action, execute, wait, Outcome, attempt_once,
  exhausted, invoke,
}
use agenthub_skill_runtime.Invoker.Ends.{
  IsClosed, schedule, Ends, success, refusal, interruption, exhaustion,
}
use agenthub_skill_runtime.Invoker.Spec.{invoke-Ends}

-- The calls of exec.Execute in a trace.
abbrev pub calls : List Action → ℕ
calls [] = 0
calls (execute d ∷ more) = suc (calls more)
calls (wait d ∷ more) = calls more

-- The outcome of a call while the breaker is open.
abbrev pub rejected : ℕ → Outcome
rejected failures = record { result = err circuit_open; failures = failures; actions = [] }

invoke_of_open :
    (c : Config) (env : Environment) (failures : ℕ)
    → (ltb 0 c.circuit_breaker_threshold && leb c.circuit_breaker_threshold failures) ≡ true
    → invoke c env failures ≡ rejected failures
invoke_of_open c env failures h = unfold invoke in rw h

calls-append : (xs ys : List Action) → calls (xs ++ ys) ≡ calls xs + calls ys
calls-append [] ys = omega arith
calls-append (execute d ∷ xs) ys = omega (arith, calls-append xs ys)
calls-append (wait d ∷ xs) ys = calls-append xs ys

calls-attempt_once :
    (c : Config) (more : List Action) → calls (attempt_once c ∷ more) ≡ suc (calls more)
unfolding attempt_once
calls-attempt_once c more = elim (Bool-cases (leb c.timeout 0)) [ inl h ↦ rw h | inr h ↦ rw h ]

calls-schedule :
    (c : Config) (env : Environment) (n first : ℕ) → calls (schedule c env n first) ≡ suc n
unfolding schedule
calls-schedule c env zero first = calls-attempt_once c []
calls-schedule c env (suc n) first =
    calls-attempt_once c _ ∙ ap suc (calls-schedule c env n (first + 1))

calls-split :
    (c : Config) (env : Environment) (k : ℕ) (more : List Action)
    → calls (schedule c env k 0 ++ more) ≡ suc k + calls more
calls-split c env k more = calls-append (schedule c env k 0) more ∙ rw (calls-schedule c env k 0)

calls-Ends :
    (c : Config) (env : Environment) (k failures : ℕ) (o : Outcome)
    → Ends c env 0 k k failures o
    → calls o.actions ≡ suc k
calls-Ends c env k failures o (success r p e) = rw e (omega (arith, calls-split c env k []))
calls-Ends c env k failures o (refusal x p h e) = rw e (omega (arith, calls-split c env k []))
calls-Ends c env k failures o (exhaustion x l p h e) =
    rw e (unfold exhausted in omega (arith, calls-split c env k []))
calls-Ends c env k failures o (interruption x m l p h w e) =
    rw e
      (rw append-nil (omega (arith, calls-split c env k (wait (retry_delay_for_attempt c k) ∷ []))))

-- A call of Invoke makes MaxRetries + 1 calls of the executor at most, and none exactly while the
-- breaker is open.
pub calls-invoke :
    (c : Config) (env : Environment) (failures : ℕ)
    → (calls (invoke c env failures).actions ≤ c.max_retries + 1)
      × ((calls (invoke c env failures).actions ≡ 0)
          ↔ ((0 < c.circuit_breaker_threshold) × (c.circuit_breaker_threshold ≤ failures)))
calls-invoke c env failures =
    elim (Bool-cases
      (ltb 0 c.circuit_breaker_threshold && leb c.circuit_breaker_threshold failures)) [
        | inl open_now ↦ rw (invoke_of_open c env failures open_now) (ground arith)
        | inr closed ↦
            let (k, fits, before, ends) = invoke-Ends c env failures closed in
            let n : calls (invoke c env failures).actions ≡ suc k =
              calls-Ends c env k failures _ ends in
            (omega arith, ground arith)
      ]

-- A call all of whose attempts fail, and whose waits are not cut short.
abbrev pub IsFailing : Config → Environment → Type 0
IsFailing c env =
    (k : ℕ) → k ≤ c.max_retries → ((e : Error) × (env.execute k ≡ err e)) × (env.cancelled k ≡ none)

failures_of_failing :
    (c : Config) (env : Environment) (failures : ℕ)
    → IsFailing c env
    → IsClosed c failures
    → (invoke c env failures).failures ≡ failures + 1
failures_of_failing c env failures h closed =
    let (k, fits, before, ends) = invoke-Ends c env failures closed in
    let ((x, failed), waited) = h k fits in at_end k ends x failed waited
  where
    at_end :
        (k : ℕ)
        → Ends c env 0 k k failures (invoke c env failures)
        → (x : Error) → env.execute k ≡ err x
        → env.cancelled k ≡ none
        → (invoke c env failures).failures ≡ failures + 1
    at_end k (success r p e) x q w = absurd (ground arith)
    at_end k (refusal y p i e) x q w = rw e
    at_end k (exhaustion y l p i e) x q w = rw e (unfold exhausted in refl)
    at_end k (interruption y m l p i v e) x q w = absurd (ground arith)

-- The failure count after a sequence of calls of one ToolInvoker.
unfoldable pub invoke_all : Config → List Environment → ℕ → ℕ
invoke_all c [] failures = failures
invoke_all c (env ∷ envs) failures = invoke_all c envs (invoke c env failures).failures

failures-invoke_all :
    (c : Config) (envs : List Environment) (failures : ℕ)
    → All (IsFailing c) envs
    → failures + length envs ≤ c.circuit_breaker_threshold
    → invoke_all c envs failures ≡ failures + length envs
unfolding invoke_all
failures-invoke_all c [] failures h b = omega arith
failures-invoke_all c (env ∷ envs) failures (h, hs) b =
    let one : (invoke c env failures).failures ≡ failures + 1 =
      failures_of_failing c env failures h (ground arith) in
    failures-invoke_all c envs (invoke c env failures).failures hs (omega arith) ∙ omega arith

stays_open :
    (c : Config) (envs : List Environment) (failures : ℕ)
    → (ltb 0 c.circuit_breaker_threshold && leb c.circuit_breaker_threshold failures) ≡ true
    → invoke_all c envs failures ≡ failures
unfolding invoke_all
stays_open c [] failures h = refl
stays_open c (env ∷ envs) failures h =
    rw (invoke_of_open c env failures h) (stays_open c envs failures h)

-- If the threshold is positive, then that many failing calls in a row from a fresh invoker open the
-- breaker, and from there on every call is rejected without an attempt, whatever the executor would
-- answer and however many calls have been made in between: nothing closes the breaker again.
pub breaker_stays_open :
    (c : Config) (failing later : List Environment) (env : Environment)
    → 0 < c.circuit_breaker_threshold
    → All (IsFailing c) failing
    → length failing ≡ c.circuit_breaker_threshold
    → invoke c env (invoke_all c later (invoke_all c failing 0))
      ≡ rejected c.circuit_breaker_threshold
breaker_stays_open c failing later env pos h n =
    let tripped : invoke_all c failing 0 ≡ c.circuit_breaker_threshold =
      failures-invoke_all c failing 0 h (omega arith) ∙ omega arith in
    let full : (ltb 0 c.circuit_breaker_threshold
          && leb c.circuit_breaker_threshold c.circuit_breaker_threshold)
        ≡ true =
      ground arith in
    rw tripped
      (rw (stays_open c later c.circuit_breaker_threshold full) (invoke_of_open c env _ full))
