-- ===== src/Server/Body.antt =====
-- The two shapes of a request's body.
use agenthub_skill_runtime.Base.{
  ◌≡◌, ◌↔◌, ◌⊎◌, inl, inr, Bool, true, false, not, ◌&&◌, some, Bytes, codes, arith,
}
use agenthub_skill_runtime.Executor.{null, obj, Object, empty, field?, ok, Result-cases}
use agenthub_skill_runtime.Server.{
  HttpRequest, is_direct_tool_execute_request, has_runner_execute_context, is_given,
  parse_execute_body,
}

-- A body of the runner: the path is not that of a direct call, and there are an input and a context
-- with a tenant.
abbrev pub is_envelope : Bytes → Object → Bool
is_envelope path raw =
    not (is_direct_tool_execute_request path)
    && is_given (field? raw (codes "input"))
    && has_runner_execute_context (field? raw (codes "context"))

-- The tool's input is the body itself, unless that is the runner's envelope; then it is the object
-- under its key input, or the empty object for null. A body that does not decode, and an envelope
-- with any other input, have none.
pub parse_execute_body_iff :
    (r : HttpRequest) (input : Object)
    → (parse_execute_body r ≡ ok input) ↔ (
        (raw : Object) × (r.decoded ≡ ok raw)
        × (((is_envelope r.path raw ≡ false) × (input ≡ raw))
            ⊎ ((is_envelope r.path raw ≡ true)
                × (((field? raw (codes "input") ≡ some null) × (input ≡ empty))
                    ⊎ (field? raw (codes "input") ≡ some (obj input))))))
unfolding parse_execute_body
parse_execute_body_iff r input = (
  λ h. elim (Result-cases r.decoded) [
    | inr (x, e) ↦ absurd (ground arith)
    | inl (raw, e) ↦ (raw, e, ground arith)
  ],
  λ (raw, e, h). ground arith,
)
