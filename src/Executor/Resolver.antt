-- ===== src/Executor/Resolver.antt =====
-- internal/executor/resolver.go and schema.go. The three SELECT statements are run on tables given as
-- lists; rows that tie in the ORDER BY come in the order of the tables. The quoting of a schema's name
-- (pgx.Identifier.Sanitize) is not modelled: a schema is addressed by its unquoted name.
pub mod Bindings
pub mod Order
pub mod Complete
pub mod Fallback
use agenthub_skill_runtime.Base.{
  ℕ, Bool, true, false, ◌&&◌, ◌||◌, List, [], ◌∷◌, ◌++◌, Option, none, some, Bytes, codes, eqb, ltb,
  leb, ◌==◌, if◌then◌else◌,
}
use agenthub_skill_runtime.Executor.Errors.{Error, leaf, wrap, prefixed, quote, Result, ok, err}

-- Tool
pub record Tool : Type 0 where
  pub id : Bytes
  pub tool_type : Bytes
  pub config : Bytes

-- The columns that the queries read, of skill, skill_tool, tool, and ah_core.tool.
pub record SkillRow : Type 0 where
  pub id : Bytes
  pub slug : Bytes

pub record Binding : Type 0 where
  pub skill_id : Bytes
  pub tool_id : Bytes
  pub is_active : Bool
  pub priority : ℕ
  pub created_at : ℕ

pub record ToolRow : Type 0 where
  pub slug : Bytes
  pub tool : Tool

pub record Schema : Type 0 where
  pub skill : List SkillRow
  pub skill_tool : List Binding
  pub tool : List ToolRow

pub record CoreToolRow : Type 0 where
  pub slug : Bytes
  pub is_active : Bool
  pub tool : Tool

-- The database behind the pool: what the k-th query of a call sees of a schema, by its name, or the
-- error with which the query or the scan of its row fails; and ah_core.tool likewise.
pub record Pool : Type 0 where
  pub schema : ℕ → Bytes → Result Schema
  pub core_tool : Result (List CoreToolRow)

-- TenantSchema, before the quoting
unfoldable pub tenant_schema : Bytes → Bytes
tenant_schema tenant_id = codes "ah_" ++ tenant_id

-- A joined row: the binding that orders it, and the tool.
pub record Joined : Type 0 where
  pub binding : Binding
  pub tool : Tool

-- JOIN tool t ON t.id = st.tool_id
unfoldable pub join_tools : Binding → List ToolRow → List Joined
join_tools b [] = []
join_tools b (t ∷ ts) =
    let rest = join_tools b ts in
    if eqb t.tool.id b.tool_id then record { binding = b; tool = t.tool } ∷ rest else rest

-- JOIN skill_tool st ON st.skill_id = s.id AND st.is_active = true
unfoldable pub join_bindings : Bytes → List Binding → List ToolRow → List Joined
unfolding join_tools
join_bindings skill_id [] tools = []
join_bindings skill_id (b ∷ bs) tools =
    let rest = join_bindings skill_id bs tools in
    if eqb b.skill_id skill_id && b.is_active then join_tools b tools ++ rest else rest

-- FROM skill s … WHERE s.slug = $1
unfoldable pub by_skill : Bytes → List SkillRow → Schema → List Joined
unfolding join_bindings
by_skill slug [] schema = []
by_skill slug (s ∷ ss) schema =
    let rest = by_skill slug ss schema in
    if eqb s.slug slug then join_bindings s.id schema.skill_tool schema.tool ++ rest else rest

-- JOIN skill_tool st ON st.tool_id = t.id AND st.is_active = true, for one tool
unfoldable pub bindings_of : Tool → List Binding → List Joined
bindings_of t [] = []
bindings_of t (b ∷ bs) =
    let rest = bindings_of t bs in
    if eqb b.tool_id t.id && b.is_active then record { binding = b; tool = t } ∷ rest else rest

-- FROM tool t … WHERE t.slug = $1
unfoldable pub by_tool_slug : Bytes → List ToolRow → List Binding → List Joined
unfolding bindings_of
by_tool_slug slug [] bindings = []
by_tool_slug slug (t ∷ ts) bindings =
    let rest = by_tool_slug slug ts bindings in
    if eqb t.slug slug then bindings_of t.tool bindings ++ rest else rest

-- Whether a row may stand in front of another: ORDER BY st.priority, st.created_at.
abbrev pub in_order : Binding → Binding → Bool
in_order a b =
    ltb a.priority b.priority || (a.priority == b.priority && leb a.created_at b.created_at)

abbrev pub earlier : Joined → Option Joined → Joined
earlier x none = x
earlier x (some y) = if in_order x.binding y.binding then x else y

-- ORDER BY … LIMIT 1
unfoldable pub first_row : List Joined → Option Joined
first_row [] = none
first_row (x ∷ xs) = some (earlier x (first_row xs))

abbrev pub no_rows : Error
no_rows = leaf (codes "no rows in result set")

-- row.Scan
abbrev pub scan : Option Joined → Result Tool
scan none = err no_rows
scan (some row) = ok row.tool

-- SELECT id, type, config FROM ah_core.tool WHERE slug = $1 AND is_active = true
unfoldable pub core_row : Bytes → List CoreToolRow → Result Tool
core_row slug [] = err no_rows
core_row slug (t ∷ ts) =
    let rest = core_row slug ts in if eqb t.slug slug && t.is_active then ok t.tool else rest

abbrev pub scan_skill : Bytes → Result Schema → Result Tool
scan_skill slug (ok s) = scan (first_row (by_skill slug s.skill s))
scan_skill slug (err e) = err e

abbrev pub scan_tool : Bytes → Result Schema → Result Tool
scan_tool slug (ok s) = scan (first_row (by_tool_slug slug s.tool s.skill_tool))
scan_tool slug (err e) = err e

abbrev pub scan_core : Bytes → Result (List CoreToolRow) → Result Tool
scan_core slug (ok ts) = core_row slug ts
scan_core slug (err e) = err e

-- The text of a resolver's error, up to its cause.
abbrev pub not_found : Bytes → Bytes → Bytes → Bytes
not_found what name tenant_id =
    codes "resolver: "
    ++ (what
        ++ (b' '
            ∷ (quote name ++ (codes " not found in tenant " ++ (quote tenant_id ++ codes ": ")))))

-- The first result, or the next where there is none.
abbrev pub or_fallback : Result Tool → Result Tool → Result Tool
or_fallback (ok t) next = ok t
or_fallback (err e) next = next

abbrev pub named_error : Bytes → Result Tool → Result Tool → Result Tool
named_error before first (ok t) = ok t
named_error before (ok t) (err e) = err (prefixed before e)
named_error before (err first) (err e) = err (prefixed before first)

-- ResolveSkill; an error carries the first query's error.
unfoldable pub resolve_skill : Pool → Bytes → Bytes → Result Tool
resolve_skill pool tenant_id slug =
    let schema = tenant_schema tenant_id in
    let primary = scan_skill slug (pool.schema 0 schema) in
    named_error (not_found (codes "skill") slug tenant_id) primary (
      or_fallback primary
        (or_fallback (scan_tool slug (pool.schema 1 schema)) (scan_core slug pool.core_tool)))

-- WHERE id = $1
unfoldable pub tool_by_id : Bytes → List ToolRow → Result Tool
tool_by_id id [] = err no_rows
tool_by_id id (t ∷ ts) = let rest = tool_by_id id ts in if eqb t.tool.id id then ok t.tool else rest

abbrev pub scan_id : Bytes → Result Schema → Result Tool
scan_id id (ok s) = tool_by_id id s.tool
scan_id id (err e) = err e

-- ResolveTool
unfoldable pub resolve_tool : Pool → Bytes → Bytes → Result Tool
resolve_tool pool tenant_id tool_id =
    let found = scan_id tool_id (pool.schema 0 (tenant_schema tenant_id)) in
    named_error (not_found (codes "tool") tool_id tenant_id) found found
