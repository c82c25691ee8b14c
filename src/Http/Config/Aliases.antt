-- ===== src/Http/Config/Aliases.antt =====
-- The precedence of the aliases of a tool's configuration.
use agenthub_skill_runtime.Base.{◌+◌, ◌*◌, ◌<◌, ◌≤◌, ◌≡◌, ◌⊎◌, true, false, arith}
use agenthub_skill_runtime.Base.Int.{ℤ, pos, negsuc, is_zero, is_positive, magnitude}
use agenthub_skill_runtime.Http.Config.{merged_timeout}

-- The merged timeout: a nonzero camelCase value wins, then a nonzero snake_case value; only if both
-- are zero do milliseconds count, and a positive number of them is rounded up to whole seconds, so
-- that the result never falls short of the milliseconds and exceeds them by less than a second;
-- otherwise it is zero.
pub merged_timeout_lem :
    (camel snake : ℤ) (ms : ℤ)
    → ((is_zero camel ≡ false) × (merged_timeout camel snake ms ≡ camel))
      ⊎ ((is_zero camel ≡ true) × (is_zero snake ≡ false) × (merged_timeout camel snake ms ≡ snake))
      ⊎ ((is_zero camel ≡ true)
          × (is_zero snake ≡ true)
          × (is_positive ms ≡ true)
          × (magnitude ms ≤ 1000 * magnitude (merged_timeout camel snake ms))
          × (1000 * magnitude (merged_timeout camel snake ms) < magnitude ms + 1000)
          × (is_positive (merged_timeout camel snake ms) ≡ true))
      ⊎ ((is_zero camel ≡ true)
          × (is_zero snake ≡ true)
          × (is_positive ms ≡ false)
          × (is_zero (merged_timeout camel snake ms) ≡ true))
unfolding merged_timeout
merged_timeout_lem camel snake (pos ms) = ground arith
merged_timeout_lem camel snake (negsuc ms) = ground arith
