-- ===== src/Executor/Resolver/Order.antt =====
-- Which tool a slug resolves to.
use mathlib.Core.Path.{subst}
use agenthub_skill_runtime.Base.{
  All-map, ◌≡◌, ◌⊎◌, refl, inl, inr, true, ◌&&◌, List, [], ◌∷◌, none, some, Bytes, eqb, eqb→eq,
  arith, All, Bool-cases, Option-cases,
}
use agenthub_skill_runtime.Executor.Errors.{Error, err, ok, Result-cases}
use agenthub_skill_runtime.Executor.Resolver.{
  Tool, Binding, Schema, CoreToolRow, Pool, tenant_schema, Joined, by_skill, by_tool_slug, in_order,
  earlier, first_row, core_row, scan_core, scan_tool, or_fallback, resolve_skill,
}
use agenthub_skill_runtime.Executor.Resolver.Bindings.{
  In, head, tail, All-In, IsFromSkill, IsFromTool, by_skill-IsFromSkill, by_tool_slug-IsFromTool,
}

-- Rows that are all behind `x` in the order of the query, or tie with it.
abbrev pub IsLeast : Joined → List Joined → Type 0
IsLeast x rows = All (λ (y : Joined). in_order x.binding y.binding ≡ true) rows

in_order_trans : (a b c : Binding) → in_order a b ≡ true → in_order b c ≡ true → in_order a c ≡ true
in_order_trans a b c h k = ground arith

module _ (P : Joined → Type 0) where
  pub first_row-All :
      (rows : List Joined) (x : Joined)
      → All P rows
      → first_row rows ≡ some x
      → P x × IsLeast x rows
  unfolding first_row
  first_row-All [] x h e = absurd (ground arith)
  first_row-All (y ∷ []) x (p, h) e =
      subst (λ w. P w × IsLeast w (y ∷ [])) (ground arith) (p, (ground arith, tt))
  first_row-All (y ∷ w ∷ ws) x (p, h) e =
      let z = earlier w (first_row ws) in
      let (q, least) = first_row-All (w ∷ ws) z h refl in
      elim (Bool-cases (in_order y.binding z.binding)) [
        | inl ahead ↦
            subst (λ v. P v × IsLeast v (y ∷ w ∷ ws)) {x = y} (ground arith)
              (
                p,
                (
                  ground arith,
                  All-map (λ v. in_order z.binding v.binding ≡ true)
                      (λ v. in_order y.binding v.binding ≡ true)
                      (λ v k. in_order_trans y.binding z.binding v.binding ahead k) (w ∷ ws) least,
                ),
              )
        | inr behind ↦
            subst (λ v. P v × IsLeast v (y ∷ w ∷ ws)) {x = z} (ground arith)
              (q, (ground arith, least))
      ]

nil_of_first_row : (rows : List Joined) → first_row rows ≡ none → rows ≡ []
unfolding first_row
nil_of_first_row [] h = refl
nil_of_first_row (x ∷ rows) h = absurd (ground arith)

-- The first query fails, or finds no active binding of a skill with the slug.
abbrev pub SkillMisses : Pool → Bytes → Bytes → Type 0
SkillMisses pool tenant_id slug =
    ((e : Error) × (pool.schema 0 (tenant_schema tenant_id) ≡ err e))
    ⊎ ((s : Schema) × (pool.schema 0 (tenant_schema tenant_id) ≡ ok s)
        × (by_skill slug s.skill s ≡ []))

-- The second query fails, or finds no active binding of a tool with the slug.
abbrev pub ToolMisses : Pool → Bytes → Bytes → Type 0
ToolMisses pool tenant_id slug =
    ((e : Error) × (pool.schema 1 (tenant_schema tenant_id) ≡ err e))
    ⊎ ((s : Schema) × (pool.schema 1 (tenant_schema tenant_id) ≡ ok s)
        × (by_tool_slug slug s.tool s.skill_tool ≡ []))

-- How a slug was resolved: by a skill, by a tool of the tenant, or by a platform tool.
pub data Resolved (pool : Pool) (tenant_id slug : Bytes) (t : Tool) : Type 0 where
  of_skill :
      (schema : Schema) (row : Joined)
      → pool.schema 0 (tenant_schema tenant_id) ≡ ok schema
      → row.tool ≡ t
      → IsFromSkill schema slug row
      → IsLeast row (by_skill slug schema.skill schema)
      → Resolved pool tenant_id slug t
  of_tool :
      (schema : Schema) (row : Joined)
      → SkillMisses pool tenant_id slug
      → pool.schema 1 (tenant_schema tenant_id) ≡ ok schema
      → row.tool ≡ t
      → IsFromTool schema slug row
      → IsLeast row (by_tool_slug slug schema.tool schema.skill_tool)
      → Resolved pool tenant_id slug t
  of_core :
      (ts : List CoreToolRow) (c : CoreToolRow)
      → SkillMisses pool tenant_id slug
      → ToolMisses pool tenant_id slug
      → pool.core_tool ≡ ok ts
      → In c ts
      → c.slug ≡ slug
      → c.is_active ≡ true
      → c.tool ≡ t
      → Resolved pool tenant_id slug t

core_row-ok :
    (slug : Bytes) (ts : List CoreToolRow) (t : Tool)
    → core_row slug ts ≡ ok t
    → (c : CoreToolRow) × In c ts × (c.slug ≡ slug) × (c.is_active ≡ true) × (c.tool ≡ t)
unfolding core_row
core_row-ok slug [] t h = absurd (ground arith)
core_row-ok slug (c ∷ ts) t h = elim (Bool-cases (eqb c.slug slug && c.is_active)) [
  | inl both ↦ (c, head, eqb→eq c.slug slug (ground arith), ground arith, ground arith)
  | inr other ↦ let (d, i, s, a, e) = core_row-ok slug ts t (ground arith) in (d, tail i, s, a, e)
]

module _ (pool : Pool) (tenant_id slug : Bytes) (t : Tool) where
  core-Resolved :
      SkillMisses pool tenant_id slug
      → ToolMisses pool tenant_id slug
      → scan_core slug pool.core_tool ≡ ok t
      → Resolved pool tenant_id slug t
  core-Resolved no_skill no_tool h = elim (Result-cases pool.core_tool) [
    | inr (x, q) ↦ absurd (ground arith)
    | inl (ts, q) ↦
        let (c, i, s, a, e) = core_row-ok slug ts t (ground arith) in
        of_core ts c no_skill no_tool q i s a e
  ]

  fallback-Resolved :
      SkillMisses pool tenant_id slug
      → or_fallback
          (scan_tool slug (pool.schema 1 (tenant_schema tenant_id)))
          (scan_core slug pool.core_tool)
        ≡ ok t
      → Resolved pool tenant_id slug t
  fallback-Resolved missed h = elim (Result-cases (pool.schema 1 (tenant_schema tenant_id))) [
    | inr (x, q) ↦ core-Resolved missed (inl (x, q)) (ground arith)
    | inl (s, q) ↦ elim (Option-cases (first_row (by_tool_slug slug s.tool s.skill_tool))) [
      | inr (row, found) ↦
          let (from, least) =
            first_row-All (IsFromTool s slug) (by_tool_slug slug s.tool s.skill_tool) row
              (by_tool_slug-IsFromTool s slug s.tool (All-In s.tool)) found in
          of_tool s row missed q (ground arith) from least
      | inl nothing ↦ core-Resolved missed (inr (s, q, nil_of_first_row _ nothing)) (ground arith)
    ]
  ]

  -- A slug resolves to the tool of the first active binding of a skill with that slug in the
  -- tenant's own schema; if that query fails or no skill is bound, to a tool of that schema which has
  -- the slug and an active binding, by its first one; and only if that query fails too or there is no
  -- such tool, to an active platform tool with the slug. The first binding is one of least priority,
  -- and of these one created first. So a skill that is bound, but whose query fails, is passed over.
  pub resolve_skill-Resolved :
      resolve_skill pool tenant_id slug ≡ ok t → Resolved pool tenant_id slug t
  unfolding resolve_skill
  resolve_skill-Resolved h = elim (Result-cases (pool.schema 0 (tenant_schema tenant_id))) [
    | inr (x, q) ↦ fallback-Resolved (inl (x, q)) (ground arith)
    | inl (s, q) ↦ elim (Option-cases (first_row (by_skill slug s.skill s))) [
      | inr (row, found) ↦
          let (from, least) =
            first_row-All (IsFromSkill s slug) (by_skill slug s.skill s) row
              (by_skill-IsFromSkill s slug s.skill (All-In s.skill)) found in
          of_skill s row q (ground arith) from least
      | inl none_bound ↦
          fallback-Resolved (inr (s, q, nil_of_first_row _ none_bound)) (ground arith)
    ]
  ]
