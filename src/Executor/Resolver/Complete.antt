-- ===== src/Executor/Resolver/Complete.antt =====
-- Active bindings are found.
use agenthub_skill_runtime.Base.{
  ◌≡◌, refl, inl, inr, true, ◌&&◌, List, [], ◌∷◌, ◌++◌, some, Bytes, eqb, eq→eqb, arith, All,
  Bool-cases,
}
use agenthub_skill_runtime.Executor.Errors.{ok}
use agenthub_skill_runtime.Executor.Resolver.{
  SkillRow, Binding, ToolRow, Schema, Pool, tenant_schema, Joined, join_tools, join_bindings,
  by_skill, in_order, earlier, first_row, resolve_skill,
}
use agenthub_skill_runtime.Executor.Resolver.Bindings.{
  In, head, tail, All-In, IsFromSkill, by_skill-IsFromSkill,
}
use agenthub_skill_runtime.Executor.Resolver.Order.{first_row-All}

module _ {A : Type 0} (x : A) where
  pub In-append : (xs ys : List A) → In x xs → In x (xs ++ ys)
  In-append [] ys i = elim i [ ]
  In-append (y ∷ xs) ys head = head
  In-append (y ∷ xs) ys (tail i) = tail (In-append xs ys i)

  pub In-append_right : (xs ys : List A) → In x ys → In x (xs ++ ys)
  In-append_right [] ys i = i
  In-append_right (y ∷ xs) ys i = tail (In-append_right xs ys i)

  pub All-at : (P : A → Type 0) (xs : List A) → All P xs → In x xs → P x
  All-at P [] h i = elim i [ ]
  All-at P (y ∷ xs) (p, ps) head = p
  All-at P (y ∷ xs) (p, ps) (tail i) = All-at P xs ps i

abbrev pub row_of : Binding → ToolRow → Joined
row_of b t = record { binding = b; tool = t.tool }

In-join_tools :
    (b : Binding) (t : ToolRow) (ts : List ToolRow)
    → t.tool.id ≡ b.tool_id
    → In t ts
    → In (row_of b t) (join_tools b ts)
unfolding join_tools
In-join_tools b t [] named i = elim i [ ]
In-join_tools b t (u ∷ ts) named head = rw (eq→eqb t.tool.id b.tool_id named) head
In-join_tools b t (u ∷ ts) named (tail i) = elim (Bool-cases (eqb u.tool.id b.tool_id)) [
  | inl same ↦ rw same (tail (In-join_tools b t ts named i))
  | inr other ↦ rw other (In-join_tools b t ts named i)
]

module _ (b : Binding) (t : ToolRow) (tools : List ToolRow) (active : b.is_active ≡ true)
    (named : t.tool.id ≡ b.tool_id) (listed : In t tools) where
  In-join_bindings :
      (skill_id : Bytes) (bs : List Binding)
      → b.skill_id ≡ skill_id
      → In b bs
      → In (row_of b t) (join_bindings skill_id bs tools)
  unfolding join_bindings
  In-join_bindings skill_id [] owned i = elim i [ ]
  In-join_bindings skill_id (c ∷ bs) owned head =
      let both : (eqb b.skill_id skill_id && b.is_active) ≡ true =
        ground (arith, eq→eqb b.skill_id skill_id owned, active) in
      rw both (In-append (row_of b t) (join_tools b tools) _ (In-join_tools b t tools named listed))
  In-join_bindings skill_id (c ∷ bs) owned (tail i) =
      elim (Bool-cases (eqb c.skill_id skill_id && c.is_active)) [
        | inl both ↦ rw both (
            In-append_right (row_of b t) (join_tools c tools) _
              (In-join_bindings skill_id bs owned i))
        | inr other ↦ rw other (In-join_bindings skill_id bs owned i)
      ]

module _ (schema : Schema) (slug : Bytes) (s : SkillRow) (b : Binding) (t : ToolRow)
    (active : b.is_active ≡ true) (named : t.tool.id ≡ b.tool_id) (owned : b.skill_id ≡ s.id)
    (has_slug : s.slug ≡ slug) (bound : In b schema.skill_tool) (listed : In t schema.tool) where
  In-by_skill : (ss : List SkillRow) → In s ss → In (row_of b t) (by_skill slug ss schema)
  unfolding by_skill
  In-by_skill [] i = elim i [ ]
  In-by_skill (u ∷ ss) head = rw (eq→eqb s.slug slug has_slug) (
      In-append (row_of b t) (join_bindings s.id schema.skill_tool schema.tool) _
        (In-join_bindings b t schema.tool active named listed s.id schema.skill_tool owned bound))
  In-by_skill (u ∷ ss) (tail i) = elim (Bool-cases (eqb u.slug slug)) [
    | inl same ↦ rw same (
        In-append_right (row_of b t) (join_bindings u.id schema.skill_tool schema.tool) _
          (In-by_skill ss i))
    | inr other ↦ rw other (In-by_skill ss i)
  ]

pub first_row-In :
    (x : Joined) (rows : List Joined) → In x rows → (y : Joined) × (first_row rows ≡ some y)
unfolding first_row
first_row-In x [] i = elim i [ ]
first_row-In x (y ∷ rows) i = (earlier y (first_row rows), refl)

-- If the first query can read the tenant's schema and that has a skill with the slug, an active binding of it and the
-- bound tool, then the slug resolves, to a tool that an active binding of such a skill names, and
-- that binding is not behind the given one in priority and time.
pub resolve_skill_of_bound :
    (pool : Pool) (tenant_id slug : Bytes) (schema : Schema) (s : SkillRow) (b : Binding)
    (t : ToolRow)
    → pool.schema 0 (tenant_schema tenant_id) ≡ ok schema
    → In s schema.skill
    → s.slug ≡ slug
    → In b schema.skill_tool
    → b.skill_id ≡ s.id
    → b.is_active ≡ true
    → In t schema.tool
    → t.tool.id ≡ b.tool_id
    → (row : Joined) × (resolve_skill pool tenant_id slug ≡ ok row.tool)
      × IsFromSkill schema slug row
      × (in_order row.binding b ≡ true)
unfolding resolve_skill
resolve_skill_of_bound pool tenant_id slug schema s b t readable is hs bound owned active listed
      named =
    let found = In-by_skill schema slug s b t active named owned hs bound listed schema.skill is in
    let (row, first) = first_row-In (row_of b t) (by_skill slug schema.skill schema) found in
    let (from, least) =
      first_row-All (IsFromSkill schema slug) (by_skill slug schema.skill schema) row
        (by_skill-IsFromSkill schema slug schema.skill (All-In schema.skill)) first in
    (
      row,
      rw (readable, first) refl,
      from,
      All-at (row_of b t) (λ (y : Joined). in_order row.binding y.binding ≡ true)
          (by_skill slug schema.skill schema) least found,
    )
