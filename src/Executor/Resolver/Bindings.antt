-- ===== src/Executor/Resolver/Bindings.antt =====
-- The active bindings that stand behind the rows of the two queries by slug.
use agenthub_skill_runtime.Base.{
  ◌≡◌, refl, sym, inl, inr, true, ◌&&◌, List, [], ◌∷◌, Bytes, eqb, eqb→eq, arith, All, All-append,
  All-map, Bool-cases,
}
use agenthub_skill_runtime.Executor.Resolver.{
  SkillRow, Binding, ToolRow, Schema, Joined, join_tools, join_bindings, by_skill, bindings_of,
  by_tool_slug,
}

-- A row of the list, by its position.
pub data In {A : Type 0} (x : A) : List A → Type 0 where
  head : {xs : List A} → In x (x ∷ xs)
  tail : {y : A} {xs : List A} → In x xs → In x (y ∷ xs)

pub All-In : {A : Type 0} (xs : List A) → All (λ x. In x xs) xs
All-In [] = tt
All-In (x ∷ xs) = (head, All-map (λ y. In y xs) (λ y. In y (x ∷ xs)) (λ y i. tail i) xs (All-In xs))

-- A joined row is an active binding of the schema and a tool of the schema that it names.
pub record IsBound (schema : Schema) (row : Joined) : Type 0 where
  pub binding : In row.binding schema.skill_tool
  pub active : row.binding.is_active ≡ true
  pub tool_row : ToolRow
  pub listed : In tool_row schema.tool
  pub of_row : tool_row.tool ≡ row.tool
  pub named : row.tool.id ≡ row.binding.tool_id

module _ (schema : Schema) (slug : Bytes) where
  -- The binding is one of a skill with the slug.
  abbrev pub IsFromSkill : Joined → Type 0
  IsFromSkill row =
      IsBound schema row
      × ((s : SkillRow) × In s schema.skill × (s.slug ≡ slug) × (row.binding.skill_id ≡ s.id))

  -- The tool itself has the slug.
  abbrev pub IsFromTool : Joined → Type 0
  IsFromTool row =
      IsBound schema row
      × ((t : ToolRow) × In t schema.tool × (t.slug ≡ slug) × (t.tool ≡ row.tool))

  join_tools-IsFromSkill :
      (s : SkillRow) (b : Binding) (ts : List ToolRow)
      → In s schema.skill
      → s.slug ≡ slug
      → In b schema.skill_tool
      → b.skill_id ≡ s.id
      → b.is_active ≡ true
      → All (λ t. In t schema.tool) ts
      → All IsFromSkill (join_tools b ts)
  unfolding join_tools
  join_tools-IsFromSkill s b [] is hs ib hb active h = tt
  join_tools-IsFromSkill s b (t ∷ ts) is hs ib hb active (it, h) =
      elim (Bool-cases (eqb t.tool.id b.tool_id)) [
        | inl same ↦ rw same (
          (
            record {
              binding = ib;
              active = active;
              tool_row = t;
              listed = it;
              of_row = refl;
              named = eqb→eq t.tool.id b.tool_id same;
            },
            (s, is, hs, hb),
          ),
          join_tools-IsFromSkill s b ts is hs ib hb active h,
        )
        | inr other ↦ rw other (join_tools-IsFromSkill s b ts is hs ib hb active h)
      ]

  join_bindings-IsFromSkill :
      (s : SkillRow) (bs : List Binding)
      → In s schema.skill
      → s.slug ≡ slug
      → All (λ b. In b schema.skill_tool) bs
      → All IsFromSkill (join_bindings s.id bs schema.tool)
  unfolding join_bindings
  join_bindings-IsFromSkill s [] is hs h = tt
  join_bindings-IsFromSkill s (b ∷ bs) is hs (ib, h) =
      elim (Bool-cases (eqb b.skill_id s.id && b.is_active)) [
        | inl both ↦ rw both (
            All-append IsFromSkill (join_tools b schema.tool) _
              (join_tools-IsFromSkill s b schema.tool is hs ib
                (eqb→eq b.skill_id s.id (ground arith)) (ground arith) (All-In schema.tool))
              (join_bindings-IsFromSkill s bs is hs h))
        | inr other ↦ rw other (join_bindings-IsFromSkill s bs is hs h)
      ]

  pub by_skill-IsFromSkill :
      (ss : List SkillRow)
      → All (λ s. In s schema.skill) ss
      → All IsFromSkill (by_skill slug ss schema)
  unfolding by_skill
  by_skill-IsFromSkill [] h = tt
  by_skill-IsFromSkill (s ∷ ss) (is, h) = elim (Bool-cases (eqb s.slug slug)) [
    | inl same ↦ rw same (
        All-append IsFromSkill (join_bindings s.id schema.skill_tool schema.tool) _
          (join_bindings-IsFromSkill s schema.skill_tool is (eqb→eq s.slug slug same)
            (All-In schema.skill_tool))
          (by_skill-IsFromSkill ss h))
    | inr other ↦ rw other (by_skill-IsFromSkill ss h)
  ]

  bindings_of-IsFromTool :
      (t : ToolRow) (bs : List Binding)
      → In t schema.tool
      → t.slug ≡ slug
      → All (λ b. In b schema.skill_tool) bs
      → All IsFromTool (bindings_of t.tool bs)
  unfolding bindings_of
  bindings_of-IsFromTool t [] it ht h = tt
  bindings_of-IsFromTool t (b ∷ bs) it ht (ib, h) =
      elim (Bool-cases (eqb b.tool_id t.tool.id && b.is_active)) [
        | inl both ↦ rw both (
          (
            record {
              binding = ib;
              active = ground arith;
              tool_row = t;
              listed = it;
              of_row = refl;
              named = sym (eqb→eq b.tool_id t.tool.id (ground arith));
            },
            (t, it, ht, refl),
          ),
          bindings_of-IsFromTool t bs it ht h,
        )
        | inr other ↦ rw other (bindings_of-IsFromTool t bs it ht h)
      ]

  pub by_tool_slug-IsFromTool :
      (ts : List ToolRow)
      → All (λ t. In t schema.tool) ts
      → All IsFromTool (by_tool_slug slug ts schema.skill_tool)
  unfolding by_tool_slug
  by_tool_slug-IsFromTool [] h = tt
  by_tool_slug-IsFromTool (t ∷ ts) (it, h) = elim (Bool-cases (eqb t.slug slug)) [
    | inl same ↦ rw same (
        All-append IsFromTool (bindings_of t.tool schema.skill_tool) _
          (bindings_of-IsFromTool t schema.skill_tool it (eqb→eq t.slug slug same)
            (All-In schema.skill_tool))
          (by_tool_slug-IsFromTool ts h))
    | inr other ↦ rw other (by_tool_slug-IsFromTool ts h)
  ]
