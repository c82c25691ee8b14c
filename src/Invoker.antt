-- ===== src/Invoker.antt =====
-- internal/invoker/invoker.go: the retry loop, the backoff and the circuit breaker.
-- Durations are in nanoseconds. The counts of the configuration are not negative, as in
-- DefaultConfig. The world's part in one call of Invoke (what each attempt returns, whether the
-- context ends a wait, what the clock reads) is an `Environment`.
pub mod Backoff
pub mod Ends
pub mod Spec
pub mod Breaker
mod Tests
use agenthub_skill_runtime.Base.{
  ℕ, zero, suc, ◌+◌, ◌*◌, ◌/◌, Bool, true, false, ◌&&◌, ◌||◌, List, [], ◌∷◌, ◌++◌, Option, none,
  some, Bytes, codes, ltb, leb, ◌==◌, if◌then◌else◌,
}
use agenthub_skill_runtime.Base.Decimal.{itoa}
use agenthub_skill_runtime.Executor.{
  Error, circuit_open, context_done, prefixed, is_permanent, Result, ok, err, ToolResult,
  ToolExecutor, ExecutionContext,
}

-- A float64 factor or delay as a fraction. The products of DefaultConfig are exact in float64.
pub record Ratio : Type 0 where
  pub num : ℕ
  pub den : ℕ

pub record Config : Type 0 where
  pub max_retries : ℕ
  pub retry_delay : ℕ
  pub retry_delay_multiplier : Ratio
  pub max_retry_delay : ℕ
  pub timeout : ℕ
  pub circuit_breaker_threshold : ℕ

abbrev pub second : ℕ
second = 1_000_000_000

abbrev pub default_config : Config
default_config = record {
  max_retries = 2;
  retry_delay = 200_000_000;
  retry_delay_multiplier = record { num = 2; den = 1 };
  max_retry_delay = 30 * second;
  timeout = 90 * second;
  circuit_breaker_threshold = 5;
}

-- for i := 0; i < attempt; i++ { delay *= multiplier }
unfoldable pub grow : Ratio → ℕ → Ratio → Ratio
grow m zero delay = delay
grow m (suc i) delay = grow m i (record { num = delay.num * m.num; den = delay.den * m.den })

unfoldable pub retry_delay_for_attempt : Config → ℕ → ℕ
unfolding grow
retry_delay_for_attempt c attempt =
    if attempt == 0 || leb c.retry_delay_multiplier.num c.retry_delay_multiplier.den
    then c.retry_delay
    else let delay =
        grow c.retry_delay_multiplier attempt (record { num = c.retry_delay; den = 1 }) in
      let d = delay.num / delay.den in
      if ltb 0 c.max_retry_delay && ltb c.max_retry_delay d then c.max_retry_delay else d

pub record Environment : Type 0 where
  -- the result of the k-th call of exec.Execute
  pub execute : ℕ → Result ToolResult
  -- ctx.Err(), where ctx.Done() ends the wait behind the k-th attempt
  pub cancelled : ℕ → Option Bytes
  -- time.Since(start).Milliseconds() when the k-th attempt has returned
  pub elapsed : ℕ → ℕ

-- The executor's world at the numbers of the attempts.
abbrev pub environment :
    ToolExecutor → ExecutionContext → (ℕ → Option Bytes) → (ℕ → ℕ) → Environment
environment exec ec cancelled elapsed = record {
  execute = exec.execute ec;
  cancelled = cancelled;
  elapsed = elapsed;
}

-- What Invoke does to the outside: a call of exec.Execute, with the attempt's own deadline if it
-- has one, and the start of a wait.
pub data Action : Type 0 where
  execute : Option ℕ → Action
  wait : ℕ → Action

pub record Outcome : Type 0 where
  pub result : Result ToolResult
  pub failures : ℕ
  pub actions : List Action

-- The deadline of attemptOnce.
unfoldable pub attempt_once : Config → Action
attempt_once c = if leb c.timeout 0 then execute none else execute (some c.timeout)

abbrev pub behind : List Action → Outcome → Outcome
behind before o = record o { actions = before ++ o.actions }

unfoldable pub exhausted : Config → Error → ℕ → Outcome
exhausted c e failures = record {
  result = err (
      prefixed (codes "invoker: all " ++ (itoa (c.max_retries + 1) ++ codes " attempt(s) failed: "))
        e);
  failures = failures + 1;
  actions = [];
}

abbrev pub succeeded : Environment → ℕ → ToolResult → Outcome
succeeded env attempt r = record {
  result = ok (record r { latency_ms = env.elapsed attempt });
  failures = 0;
  actions = [];
}

abbrev pub gave_up : Error → ℕ → Outcome
gave_up e failures = record {
  result = err (prefixed (codes "invoker: permanent error (no retry): ") e);
  failures = failures + 1;
  actions = [];
}

abbrev pub interrupted : Bytes → ℕ → Outcome
interrupted m failures = record { result = err (context_done m); failures = failures; actions = [] }

module _ (c : Config) (env : Environment) where
  -- The wait behind a failed attempt, and the rest of the loop.
  unfoldable pub retry : Option Bytes → ℕ → ℕ → Outcome → Outcome
  unfolding attempt_once
  retry (some m) attempt failures rest =
      behind (attempt_once c ∷ wait (retry_delay_for_attempt c attempt) ∷ [])
        (interrupted m failures)
  retry none attempt failures rest =
      behind (attempt_once c ∷ wait (retry_delay_for_attempt c attempt) ∷ []) rest

  -- for attempt := range attempts, with `left` rounds to go and the error of the last one
  unfoldable pub attempts : ℕ → ℕ → Error → ℕ → Outcome
  unfolding attempt_once
  attempts zero attempt last failures = exhausted c last failures
  attempts (suc left) attempt last failures = elim (env.execute attempt) [
    | ok r ↦ behind (attempt_once c ∷ []) (succeeded env attempt r)
    | err e ↦
        let rest = attempts left (attempt + 1) e failures in
        if is_permanent e
        then behind (attempt_once c ∷ []) (gave_up e failures)
        else if ltb attempt c.max_retries
        then retry (env.cancelled attempt) attempt failures rest
        else behind (attempt_once c ∷ []) rest
  ]

  -- Invoke, from the number of consecutive failures so far. Before the first attempt Go's `err` is
  -- nil; the loop makes at least one round, so the value that stands for it is never read.
  unfoldable pub invoke : ℕ → Outcome
  unfolding attempts retry exhausted
  invoke failures =
      let run = attempts (c.max_retries + 1) 0 circuit_open failures in
      if ltb 0 c.circuit_breaker_threshold && leb c.circuit_breaker_threshold failures
      then record { result = err circuit_open; failures = failures; actions = [] }
      else run
