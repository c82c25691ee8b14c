-- ===== src/Invoker/Backoff.antt =====
-- The delays of Config.RetryDelayForAttempt.
use Prim.Native.Nat.{min}
use native.Mathlib.Nat.{pow-suc, mul_assoc, mul_comm}
use agenthub_skill_runtime.Base.{ℕ, zero, suc, ◌*◌, ◌^◌, ◌≡◌, refl, ap, ◌∙◌, arith}
use agenthub_skill_runtime.Invoker.{default_config, grow, retry_delay_for_attempt, second}

grow_twice :
    (i n : ℕ)
    → grow (record { num = 2; den = 1 }) i (record { num = n; den = 1 })
      ≡ record { num = n * 2 ^ i; den = 1 }
unfolding grow
grow_twice zero n = ground arith
grow_twice (suc i) n =
    grow_twice i (n * 2)
    ∙ ap (λ (m : ℕ). record { num = m; den = 1 }) (simp (pow-suc, mul_assoc, mul_comm 2))

-- Under the default configuration the wait behind attempt k is 200 ms doubled k times, and 30
-- seconds from there on where that is shorter.
pub retry_delay_default :
    (k : ℕ) → retry_delay_for_attempt default_config k ≡ min (200_000_000 * 2 ^ k) (30 * second)
unfolding retry_delay_for_attempt
retry_delay_default zero = refl
retry_delay_default (suc k) =
    rw (grow_twice (suc k) 200_000_000, retry_delay_for_attempt) (ground arith)
