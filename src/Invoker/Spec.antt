-- ===== src/Invoker/Spec.antt =====
-- How a call of Invoke ends, on every branch: the attempt that decides it, and the exact sequence
-- of attempts and waits up to there.
use agenthub_skill_runtime.Base.{
  ℕ, zero, suc, ◌+◌, ◌≤◌, ◌<◌, ◌≡◌, refl, ap, sym, inl, inr, true, false, [], ◌∷◌, none, some,
  Bytes, arith, ltb, Bool-cases, Option-cases,
}
use mathlib.Core.Path.{subst}
use agenthub_skill_runtime.Executor.{
  Error, circuit_open, is_permanent, ok, err, Result-cases, ToolResult,
}
use agenthub_skill_runtime.Invoker.{
  Config, retry_delay_for_attempt, Environment, wait, Outcome, attempt_once, behind, retry,
  attempts, invoke,
}
use agenthub_skill_runtime.Invoker.Ends.{
  IsClosed, IsTransient, schedule, Ends, success, refusal, interruption, exhaustion,
}

module _ (c : Config) (env : Environment) where
  Decided : ℕ → ℕ → Outcome → Type 0
  Decided first failures o =
      (n k : ℕ) × (k ≡ first + n)
      × (k ≤ c.max_retries)
      × ((j : ℕ) → first ≤ j → j < k → IsTransient c env j)
      × Ends c env first n k failures o

  later :
      (first failures : ℕ) (o o' : Outcome)
      → IsTransient c env first
      → Decided (first + 1) failures o
      → o' ≡ behind (attempt_once c ∷ wait (retry_delay_for_attempt c first) ∷ []) o
      → Decided first failures o'
  unfolding Decided schedule
  later first failures o o' t (n, k, at, fits, before, ends) e =
      (suc n, k, omega arith, fits, before', shift ends)
    where
      before' : (j : ℕ) → first ≤ j → j < k → IsTransient c env j
      before' j lo hi = elim (Bool-cases (ltb first j)) [
        | inl more ↦ before j (ground arith) hi
        | inr same ↦ subst (IsTransient c env) (ground arith) t
      ]

      shift : Ends c env (first + 1) n k failures o → Ends c env first (suc n) k failures o'
      shift (success r p q) = success r p (ground arith)
      shift (refusal x p h q) = refusal x p h (ground arith)
      shift (interruption x m l p h w q) = interruption x m l p h w (ground arith)
      shift (exhaustion x l p h q) = exhaustion x l p h (ground arith)

  none_before : (first k : ℕ) → k ≡ first → (j : ℕ) → first ≤ j → j < k → IsTransient c env j
  none_before first k e j lo hi = absurd (omega arith)

  module _ (left first : ℕ) (last : Error) (failures : ℕ) (within : first ≤ c.max_retries) where
    attempts_of_ok :
        (r : ToolResult)
        → env.execute first ≡ ok r
        → Decided first failures (attempts c env (suc left) first last failures)
    unfolding Decided attempts schedule
    attempts_of_ok r p =
        (0, first, omega arith, within, none_before first first refl, success r p (ground arith))

    attempts_of_permanent :
        (e : Error)
        → env.execute first ≡ err e
        → is_permanent e ≡ true
        → Decided first failures (attempts c env (suc left) first last failures)
    unfolding Decided attempts schedule
    attempts_of_permanent e p stop = (
      0,
      first,
      omega arith,
      within,
      none_before first first refl,
      refusal e p stop (ground arith),
    )

    attempts_of_cancelled :
        (e : Error) (m : Bytes)
        → first < c.max_retries
        → env.execute first ≡ err e
        → is_permanent e ≡ false
        → env.cancelled first ≡ some m
        → Decided first failures (attempts c env (suc left) first last failures)
    unfolding Decided attempts schedule retry
    attempts_of_cancelled e m more p go w = (
      0,
      first,
      omega arith,
      within,
      none_before first first refl,
      interruption e m more p go w (ground arith),
    )

  attempts_of_last :
      (first : ℕ) (last : Error) (failures : ℕ) (e : Error)
      → first ≡ c.max_retries
      → env.execute first ≡ err e
      → is_permanent e ≡ false
      → Decided first failures (attempts c env 1 first last failures)
  unfolding Decided attempts schedule
  attempts_of_last first last failures e at p go = (
    0,
    first,
    omega arith,
    omega arith,
    none_before first first refl,
    exhaustion e at p go (ground arith),
  )

  attempts_of_retried :
      (left first : ℕ) (last : Error) (failures : ℕ) (e : Error)
      → first < c.max_retries
      → env.execute first ≡ err e
      → is_permanent e ≡ false
      → env.cancelled first ≡ none
      → attempts c env (suc left) first last failures
        ≡ behind
            (attempt_once c ∷ wait (retry_delay_for_attempt c first) ∷ [])
            (attempts c env left (first + 1) e failures)
  unfolding attempts retry
  attempts_of_retried left first last failures e more p go w = ground arith

  attempts-Decided :
      (left first : ℕ) (last : Error) (failures : ℕ)
      → first + left ≡ c.max_retries
      → Decided first failures (attempts c env (suc left) first last failures)
  attempts-Decided zero first last failures h = elim (Result-cases (env.execute first)) [
    | inl (r, p) ↦ attempts_of_ok zero first last failures (omega arith) r p
    | inr (e, p) ↦ elim (Bool-cases (is_permanent e)) [
      | inl stop ↦ attempts_of_permanent zero first last failures (omega arith) e p stop
      | inr go ↦ attempts_of_last first last failures e (omega arith) p go
    ]
  ]
  attempts-Decided (suc l) first last failures h = elim (Result-cases (env.execute first)) [
    | inl (r, p) ↦ attempts_of_ok (suc l) first last failures (omega arith) r p
    | inr (e, p) ↦ elim (Bool-cases (is_permanent e)) [
      | inl stop ↦ attempts_of_permanent (suc l) first last failures (omega arith) e p stop
      | inr go ↦ elim (Option-cases (env.cancelled first)) [
        | inl w ↦
            later first failures _ _ (record { error = e; failed = p; retried = go; waited = w })
              (attempts-Decided l (first + 1) e failures (omega arith))
              (attempts_of_retried (suc l) first last failures e (omega arith) p go w)
        | inr (m, w) ↦
            attempts_of_cancelled (suc l) first last failures (omega arith) e m (omega arith) p go w
      ]
    ]
  ]

  invoke_of_closed :
      (failures : ℕ)
      → IsClosed c failures
      → invoke c env failures ≡ attempts c env (suc c.max_retries) 0 circuit_open failures
  invoke_of_closed failures closed =
      unfold invoke in
      rw closed
        (ap (λ n. attempts c env n 0 circuit_open failures) {y = suc c.max_retries} (omega arith))

  Decided-Ends :
      (failures : ℕ) (o : Outcome)
      → Decided 0 failures o
      → (k : ℕ) × (k ≤ c.max_retries)
        × ((j : ℕ) → j < k → IsTransient c env j)
        × Ends c env 0 k k failures o
  unfolding Decided
  Decided-Ends failures o (n, k, at, fits, before, ends) =
      let same : n ≡ k = omega arith in
      (
        k,
        fits,
        (λ j lt. before j (omega arith) lt),
        subst (λ (m : ℕ). Ends c env 0 m k failures o) same ends,
      )

  -- With the breaker closed a call of Invoke ends by one attempt k, at most MaxRetries: every
  -- attempt before it failed with a retryable error and was followed by its backoff; k succeeded,
  -- or failed for good, or was the last, or its wait was cut short by the context. The result, the
  -- failure count and the sequence of attempts and waits are those of that case.
  pub invoke-Ends :
      (failures : ℕ)
      → IsClosed c failures
      → (k : ℕ) × (k ≤ c.max_retries)
        × ((j : ℕ) → j < k → IsTransient c env j)
        × Ends c env 0 k k failures (invoke c env failures)
  invoke-Ends failures closed = Decided-Ends failures (invoke c env failures) (
      subst (λ o. Decided 0 failures o) (sym (invoke_of_closed failures closed))
        (attempts-Decided c.max_retries 0 circuit_open failures (omega arith)))
