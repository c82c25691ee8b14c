-- ===== src/Invoker/Ends.antt =====
-- The ways in which a call of Invoke ends, with the attempts and waits up to there.
use agenthub_skill_runtime.Base.{
  ℕ, zero, suc, ◌+◌, ◌<◌, ◌≡◌, true, false, ◌&&◌, List, [], ◌∷◌, ◌++◌, none, some, Bytes, ltb, leb,
}
use agenthub_skill_runtime.Executor.{Error, is_permanent, ok, err, ToolResult}
use agenthub_skill_runtime.Invoker.{
  Config, retry_delay_for_attempt, Environment, Action, wait, Outcome, attempt_once, behind,
  exhausted, succeeded, gave_up, interrupted,
}

-- The breaker is off, or the failures have not reached its threshold.
abbrev pub IsClosed : Config → ℕ → Type 0
IsClosed c failures =
    (ltb 0 c.circuit_breaker_threshold && leb c.circuit_breaker_threshold failures) ≡ false

module _ (c : Config) (env : Environment) where
  -- Attempt k failed with an error that is retried, and the wait behind it was not cut short.
  pub record IsTransient (k : ℕ) : Type 0 where
    pub error : Error
    pub failed : env.execute k ≡ err error
    pub retried : is_permanent error ≡ false
    pub waited : env.cancelled k ≡ none

  -- Attempts from `first` on, the wait of each in front of the next one, `n` of them before the last.
  unfoldable pub schedule : ℕ → ℕ → List Action
  schedule zero first = attempt_once c ∷ []
  schedule (suc n) first =
      attempt_once c ∷ wait (retry_delay_for_attempt c first) ∷ schedule n (first + 1)

  -- The outcome of a call that attempt k decides, `n` attempts after `first`.
  pub data Ends (first n k failures : ℕ) (o : Outcome) : Type 0 where
    success :
        (r : ToolResult)
        → env.execute k ≡ ok r
        → o ≡ behind (schedule n first) (succeeded env k r)
        → Ends first n k failures o
    refusal :
        (e : Error)
        → env.execute k ≡ err e
        → is_permanent e ≡ true
        → o ≡ behind (schedule n first) (gave_up e failures)
        → Ends first n k failures o
    interruption :
        (e : Error) (m : Bytes)
        → k < c.max_retries
        → env.execute k ≡ err e
        → is_permanent e ≡ false
        → env.cancelled k ≡ some m
        → o
          ≡ behind
              (schedule n first ++ wait (retry_delay_for_attempt c k) ∷ [])
              (interrupted m failures)
        → Ends first n k failures o
    exhaustion :
        (e : Error)
        → k ≡ c.max_retries
        → env.execute k ≡ err e
        → is_permanent e ≡ false
        → o ≡ behind (schedule n first) (exhausted c e failures)
        → Ends first n k failures o
