-- ===== src/Sql/Template.antt =====
-- internal/executor/sql/executor.go: renderInputTemplate and maxSQLParamIndex, with their two
-- regular expressions written as scanners.
pub mod Numbering
use agenthub_skill_runtime.Base.{
  ℕ, zero, suc, ◌+◌, ◌-◌, ◌^◌, Bool, true, false, ◌&&◌, ◌||◌, List, [], ◌∷◌, ◌++◌, Option, none,
  some, Bytes, codes, length, cut_prefix, is_empty, leb, ltb, ◌==◌, if◌then◌else◌,
}
use Prim.Native.Nat.{max}
use agenthub_skill_runtime.Base.Decimal.{itoa, value, is_digit}
use agenthub_skill_runtime.Executor.{Value, null, Object, field?}

-- [A-Za-z0-9_]
abbrev pub is_word : ℕ → Bool
is_word c = (leb b'A' c && leb c b'Z') || (leb b'a' c && leb c b'z') || is_digit c || c == b'_'

-- The longest run of bytes that pass a test, and the rest.
unfoldable pub span : (ℕ → Bool) → Bytes → Bytes × Bytes
span test [] = ([], [])
span test (c ∷ s) = let (run, rest) = span test s in if test c then (c ∷ run, rest) else ([], c ∷ s)

-- '? at the start of a text
abbrev pub without_quote : Bytes → Bytes
without_quote [] = []
without_quote (c ∷ s) = if c == 39 then s else c ∷ s

abbrev pub closed_key : Bytes × Bytes → Option (Bytes × Bytes)
closed_key (key, rest) = elim (cut_prefix rest (codes "}}")) [
  | none ↦ none
  | some behind ↦ if is_empty key then none else some (key, without_quote behind)
]

-- inputPlaceholderRE at the start of a text: the key and the text behind the match.
unfoldable pub placeholder_at : Bytes → Option (Bytes × Bytes)
unfolding span cut_prefix
placeholder_at s = elim (cut_prefix (without_quote s) (codes "{{input.")) [
  | none ↦ none
  | some rest ↦ closed_key (span is_word rest)
]

-- input[key], nil for a missing key
abbrev pub argument : Option Value → Value
argument none = null
argument (some v) = v

-- ReplaceAllStringFunc, with `skip` bytes of a match still to pass over and the number of the last
-- parameter: the text and the arguments.
unfoldable pub render_from : Object → ℕ → ℕ → Bytes → Bytes × List Value
render_from input skip last [] = ([], [])
render_from input (suc skip) last (c ∷ s) = render_from input skip last s
render_from input zero last (c ∷ s) = elim (placeholder_at (c ∷ s)) [
  | none ↦ let (text, args) = render_from input 0 last s in (c ∷ text, args)
  | some (key, behind) ↦
      let (text, args) = render_from input (length s - length behind) (last + 1) s in
      (b'$' ∷ (itoa (last + 1) ++ text), argument (field? input key) ∷ args)
]

-- A number after $, or 0 where none begins or where it does not fit an int64.
abbrev pub parameter_at : Bytes → ℕ
parameter_at [] = 0
parameter_at (c ∷ s) =
    let n = value 0 (span is_digit (c ∷ s)).0 in
    if leb b'1' c && leb c b'9' && ltb n (2 ^ 63) then n else 0

-- maxSQLParamIndex
unfoldable pub max_sql_param_index : Bytes → ℕ
unfolding span
max_sql_param_index [] = 0
max_sql_param_index (c ∷ s) =
    if c == b'$' then max (parameter_at s) (max_sql_param_index s) else max_sql_param_index s

-- renderInputTemplate
unfoldable pub render_input_template : Bytes → Object → Bytes × List Value
unfolding render_from placeholder_at max_sql_param_index
render_input_template tmpl input = render_from input 0 (max_sql_param_index tmpl) tmpl
