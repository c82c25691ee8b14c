-- ===== src/Executor/Resolver/Fallback.antt =====
-- Active bindings are found, by the slug of a skill or, where no skill is bound, of a tool.
use agenthub_skill_runtime.Base.{
  ◌≡◌, refl, sym, ◌⊎◌, inl, inr, true, ◌&&◌, List, [], ◌∷◌, Bytes, eqb, eq→eqb, arith, Bool-cases,
}
use agenthub_skill_runtime.Executor.Errors.{ok}
use agenthub_skill_runtime.Executor.Resolver.{
  SkillRow, Binding, ToolRow, Schema, Pool, tenant_schema, Joined, bindings_of, by_tool_slug,
  in_order, first_row, resolve_skill, scan_tool, Tool,
}
use agenthub_skill_runtime.Executor.Resolver.Bindings.{
  In, head, tail, All-In, IsFromSkill, IsFromTool, by_tool_slug-IsFromTool,
}
use agenthub_skill_runtime.Executor.Resolver.Complete.{
  In-append, In-append_right, All-at, row_of, first_row-In, resolve_skill_of_bound,
}
use agenthub_skill_runtime.Executor.Resolver.Order.{first_row-All, SkillMisses}

module _ (b : Binding) (t : ToolRow) (active : b.is_active ≡ true)
    (named : b.tool_id ≡ t.tool.id) where
  In-bindings_of : (bs : List Binding) → In b bs → In (row_of b t) (bindings_of t.tool bs)
  unfolding bindings_of
  In-bindings_of [] i = elim i [ ]
  In-bindings_of (c ∷ bs) head =
      let both : (eqb b.tool_id t.tool.id && b.is_active) ≡ true =
        ground (arith, eq→eqb b.tool_id t.tool.id named, active) in
      rw both head
  In-bindings_of (c ∷ bs) (tail i) = elim (Bool-cases (eqb c.tool_id t.tool.id && c.is_active)) [
    | inl both ↦ rw both (tail (In-bindings_of bs i))
    | inr other ↦ rw other (In-bindings_of bs i)
  ]

  In-by_tool_slug :
      (slug : Bytes) (ts : List ToolRow) (bs : List Binding)
      → t.slug ≡ slug
      → In t ts
      → In b bs
      → In (row_of b t) (by_tool_slug slug ts bs)
  unfolding by_tool_slug
  In-by_tool_slug slug [] bs has_slug i bound = elim i [ ]
  In-by_tool_slug slug (u ∷ ts) bs has_slug head bound =
      rw (eq→eqb t.slug slug has_slug)
        (In-append (row_of b t) (bindings_of t.tool bs) _ (In-bindings_of bs bound))
  In-by_tool_slug slug (u ∷ ts) bs has_slug (tail i) bound = elim (Bool-cases (eqb u.slug slug)) [
    | inl same ↦ rw same (
        In-append_right (row_of b t) (bindings_of u.tool bs) _
          (In-by_tool_slug slug ts bs has_slug i bound))
    | inr other ↦ rw other (In-by_tool_slug slug ts bs has_slug i bound)
  ]

-- Behind a miss the second query decides.
after_miss :
    (pool : Pool) (tenant_id slug : Bytes) (x : Tool)
    → SkillMisses pool tenant_id slug
    → scan_tool slug (pool.schema 1 (tenant_schema tenant_id)) ≡ ok x
    → resolve_skill pool tenant_id slug ≡ ok x
unfolding resolve_skill first_row
after_miss pool tenant_id slug x (inl (e, failed)) found = rw (failed, found) refl
after_miss pool tenant_id slug x (inr (s, readable, unbound)) found =
    rw (readable, unbound, found) refl

-- A skill has the slug and the binding is its, in the schema that the first query sees; or that query
-- fails or finds no bound skill, and the tool has the slug in the schema that the second one sees.
pub data Offers (pool : Pool) (tenant_id slug : Bytes) (schema : Schema) (b : Binding) (t : ToolRow)
    : Type 0 where
  of_skill :
      (s : SkillRow)
      → pool.schema 0 (tenant_schema tenant_id) ≡ ok schema
      → In s schema.skill
      → s.slug ≡ slug
      → b.skill_id ≡ s.id
      → Offers pool tenant_id slug schema b t
  of_tool :
      SkillMisses pool tenant_id slug
      → pool.schema 1 (tenant_schema tenant_id) ≡ ok schema
      → t.slug ≡ slug
      → Offers pool tenant_id slug schema b t

-- If a schema of the tenant has an active binding of a tool that it has too, and either the first query
-- can read it and the slug names the binding's skill, or the first query fails or finds no bound skill,
-- the second can read it and the slug names the tool, then the slug resolves: to the tool of an active
-- binding that is found in the same way and is not behind the given one in priority and time.
pub resolve_skill_of_offer :
    (pool : Pool) (tenant_id slug : Bytes) (schema : Schema) (b : Binding) (t : ToolRow)
    → In b schema.skill_tool
    → b.is_active ≡ true
    → In t schema.tool
    → t.tool.id ≡ b.tool_id
    → Offers pool tenant_id slug schema b t
    → (row : Joined) × (resolve_skill pool tenant_id slug ≡ ok row.tool)
      × (IsFromSkill schema slug row ⊎ IsFromTool schema slug row)
      × (in_order row.binding b ≡ true)
unfolding resolve_skill first_row
resolve_skill_of_offer pool tenant_id slug schema b t bound active listed named
      (of_skill s readable is hs owned) =
    let (row, found, from, ahead) =
      resolve_skill_of_bound pool tenant_id slug schema s b t readable is hs bound owned active
        listed named in
    (row, found, inl from, ahead)
resolve_skill_of_offer pool tenant_id slug schema b t bound active listed named
      (of_tool missed readable has_slug) =
    let rows = by_tool_slug slug schema.tool schema.skill_tool in
    let found =
      In-by_tool_slug b t active (sym named) slug schema.tool schema.skill_tool has_slug listed
        bound in
    let (row, first) = first_row-In (row_of b t) rows found in
    let (from, least) =
      first_row-All (IsFromTool schema slug) rows row
        (by_tool_slug-IsFromTool schema slug schema.tool (All-In schema.tool)) first in
    (
      row,
      after_miss pool tenant_id slug row.tool missed (rw (readable, first) refl),
      inr from,
      All-at (row_of b t) (λ (y : Joined). in_order row.binding y.binding ≡ true) rows least found,
    )
