-- ===== src/Http/Template.antt =====
-- internal/executor/http/executor.go: renderTemplate and renderTemplateURL, with strings.NewReplacer
-- and url.QueryEscape. A template's input is listed in the order in which Go ranges over the map.
pub mod Matching
pub mod Rendering
pub mod Escaping
use agenthub_skill_runtime.Base.{
  ℕ, zero, suc, ◌+◌, ◌-◌, ◌/◌, ◌%◌, Bool, true, false, ◌&&◌, ◌||◌, List, [], ◌∷◌, ◌++◌, Option,
  none, some, Bytes, codes, has_prefix, length, leb, ltb, ◌==◌, if◌then◌else◌,
}
use agenthub_skill_runtime.Base.Decimal.{is_digit}
use agenthub_skill_runtime.Executor.{Value, Object, empty, entry}

-- The four ways to write a placeholder: {{key}}, {key}, {{input.key}}, {{args.key}}.
pub data Form : Type 0 where
  double single from_input from_args : Form

abbrev pub placeholder : Form → Bytes → Bytes
placeholder double k = b'{' ∷ b'{' ∷ (k ++ b'}' ∷ b'}' ∷ [])
placeholder single k = b'{' ∷ (k ++ b'}' ∷ [])
placeholder from_input k = codes "{{input." ++ (k ++ b'}' ∷ b'}' ∷ [])
placeholder from_args k = codes "{{args." ++ (k ++ b'}' ∷ b'}' ∷ [])

-- The pairs of one entry of the input, old text and new text, in the order of the code.
abbrev pub pairs_of : Bytes → Bytes → List (Bytes × Bytes) → List (Bytes × Bytes)
pairs_of k val more =
    (placeholder double k, val)
    ∷ (placeholder single k, val)
    ∷ (placeholder from_input k, val)
    ∷ (placeholder from_args k, val)
    ∷ more

unfoldable pub pairs : (Value → Bytes) → Object → List (Bytes × Bytes)
pairs encode empty = []
pairs encode (entry k v more) = pairs_of k (encode v) (pairs encode more)

-- The first pair whose old text begins the rest of the template: the length of that text less one,
-- and the new text. Earlier pairs have the priority in a strings.Replacer.
unfoldable pub match_at : List (Bytes × Bytes) → Bytes → Option (ℕ × Bytes)
match_at [] s = none
match_at ((old, new) ∷ more) s =
    if has_prefix s old then some (length old - 1, new) else match_at more s

-- Replace, with `skip` bytes of a replaced text still to pass over. No old text is empty here.
unfoldable pub replace_from : List (Bytes × Bytes) → ℕ → Bytes → Bytes
replace_from ps skip [] = []
replace_from ps (suc skip) (c ∷ s) = replace_from ps skip s
replace_from ps zero (c ∷ s) = elim (match_at ps (c ∷ s)) [
  | none ↦ c ∷ replace_from ps zero s
  | some (skip, new) ↦ new ++ replace_from ps skip s
]

-- strings.NewReplacer(pairs...).Replace(tmpl)
abbrev pub replace : List (Bytes × Bytes) → Bytes → Bytes
replace ps tmpl = replace_from ps 0 tmpl

abbrev pub hex : ℕ → ℕ
hex n = if ltb n 10 then b'0' + n else b'A' + (n - 10)

-- The bytes that url.QueryEscape keeps.
abbrev pub is_unreserved : ℕ → Bool
is_unreserved c =
    (leb b'a' c && leb c b'z')
    || (leb b'A' c && leb c b'Z')
    || is_digit c
    || c == b'-'
    || c == b'_'
    || c == b'.'
    || c == b'~'

abbrev pub escape_byte : ℕ → Bytes → Bytes
escape_byte c rest =
    if is_unreserved c
    then c ∷ rest
    else if c == 32
    then b'+' ∷ rest
    else b'%' ∷ hex (c / 16) ∷ hex (c % 16) ∷ rest

-- url.QueryEscape(s)
unfoldable pub query_escape : Bytes → Bytes
query_escape [] = []
query_escape (c ∷ s) = escape_byte c (query_escape s)

-- `sprint` is fmt.Sprintf("%v", value).
module _ (sprint : Value → Bytes) where
  unfoldable pub render_template : Bytes → Object → Bytes
  unfolding pairs replace_from match_at
  render_template tmpl input = replace (pairs sprint input) tmpl

  unfoldable pub render_template_url : Bytes → Object → Bytes
  unfolding pairs replace_from match_at query_escape
  render_template_url tmpl input = replace (pairs (λ v. query_escape (sprint v)) input) tmpl
