-- ===== src/Executor/Tests.antt =====
-- The registry and the resolver at concrete tables.
use agenthub_skill_runtime.Base.{some, inr, ◌≡◌, ◌⊎◌, refl, Bool, true, [], ◌∷◌, codes, eqb}
use agenthub_skill_runtime.Executor.Errors.{ok}
use agenthub_skill_runtime.Executor.Types.{ToolExecutor}
use agenthub_skill_runtime.Executor.Resolver.Bindings.{head, tail, IsFromSkill, IsFromTool}
use agenthub_skill_runtime.Executor.Resolver.Fallback.{of_tool, resolve_skill_of_offer}
use agenthub_skill_runtime.Executor.Resolver.{
  Binding, ToolRow, Joined, in_order, Tool, Schema, Pool, resolve_skill, by_skill, by_tool_slug,
  first_row,
}
use agenthub_skill_runtime.Executor.Resolver.Order.{Resolved, resolve_skill-Resolved}

abbrev echo : ToolExecutor
echo = record {
  tool_type = codes "ECHO";
  execute = λ ec k. ok (record { output = some ec.input; error = []; latency_ms = k });
}

abbrev report : Tool
report = record { id = codes "t1"; tool_type = codes "SQL"; config = [] }

-- Two bindings of one skill, of which the first is not active.
abbrev acme : Schema
acme = record {
  skill = record { id = codes "s1"; slug = codes "report" } ∷ [];
  skill_tool =
      record {
        skill_id = codes "s1";
        tool_id = codes "t0";
        is_active = Bool.false;
        priority = 0;
        created_at = 1;
      }
      ∷ record {
        skill_id = codes "s1";
        tool_id = codes "t1";
        is_active = true;
        priority = 4;
        created_at = 2;
      }
      ∷ [];
  tool = record { slug = codes "report-tool"; tool = report } ∷ [];
}

abbrev tenants : Pool
tenants = record { schema = λ k name. ok acme; core_tool = ok [] }

resolve_skill-Resolved_example : Resolved tenants (codes "acme") (codes "report") report
unfolding resolve_skill by_skill by_tool_slug first_row eqb
resolve_skill-Resolved_example =
    resolve_skill-Resolved tenants (codes "acme") (codes "report") report refl

abbrev binding : Binding
binding = record {
  skill_id = codes "s1";
  tool_id = codes "t1";
  is_active = true;
  priority = 4;
  created_at = 2;
}

abbrev tool_row : ToolRow
tool_row = record { slug = codes "report-tool"; tool = report }

-- The slug of the tool, which no skill has.
resolve_skill_of_offer_example :
    (row : Joined) × (resolve_skill tenants (codes "acme") (codes "report-tool") ≡ ok row.tool)
    × (IsFromSkill acme (codes "report-tool") row ⊎ IsFromTool acme (codes "report-tool") row)
    × (in_order row.binding binding ≡ true)
unfolding by_skill eqb
resolve_skill_of_offer_example =
    resolve_skill_of_offer tenants (codes "acme") (codes "report-tool") acme binding tool_row
      (tail head) refl head refl (of_tool (inr (acme, refl, refl)) refl refl)
